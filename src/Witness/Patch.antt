-- ===== src/Witness/Patch.antt =====
-- A patch between two objects with an array that grows, a key that goes and one that comes.
use mathlib.Core.List.{Memᴰ}
use kedge.Base.{◌+◌, ◌%◌, ◌^◌, ◌≤◌, length, All, ◌≡◌, refl, true, false, some, [], ◌∷◌, arith}
use kedge.Base.Int.{pos}
use kedge.Bytes.{codes, bytes_eq}
use kedge.Json.{
  Json, null, bool_, int64, uint64, array, object, nil, cons, end, member, find_key, json_eq,
}
use kedge.Hub.{leave, erase, no_sessions, HubState, send, delta, welcome, join, broadcast, do_loop}
use kedge.Hub.Round.{begin_round, end_round, make_message, joins_between}
use kedge.Hub.Id.{random_id, join-random_id}
use kedge.Hub.Interleaved.{leave_all, leaves_between}
use kedge.Number.{hex_digits_value}
use kedge.Util.Hex.{IsHex}
use kedge.Witness.Samples.{text}
use kedge.JsonDiff.{json_diff}
use kedge.JsonDiff.Exact.{json_diff-exact}
use kedge.JsonDiff.Patch.{apply_patch}
use kedge.JsonDiff.Plain.{plain_key, IsPlain, Fits}

abbrev pub before : Json
before = object (
    member (codes "rates") (array (cons (int64 (pos 1)) (cons null nil)))
      (member (codes "paused") (bool_ true) (member (codes "old") (uint64 7) end)))

abbrev pub later : Json
later = object (
    member (codes "paused") (bool_ false) (
      member (codes "new") null (
        member (codes "rates") (array (cons (int64 (pos 4)) (cons null (cons (uint64 9) nil))))
          end)))

pub before-IsPlain : IsPlain before
unfolding IsPlain find_key bytes_eq
before-IsPlain = (
  plain_key (codes "rates") refl,
  (
    refl,
    (
      (tt, (tt, tt)),
      (
        plain_key (codes "paused") refl,
        (refl, (tt, (plain_key (codes "old") refl, (refl, (tt, tt))))),
      ),
    ),
  ),
)

pub later-IsPlain : IsPlain later
unfolding IsPlain find_key bytes_eq
later-IsPlain = (
  plain_key (codes "paused") refl,
  (
    refl,
    (
      tt,
      (
        plain_key (codes "new") refl,
        (refl, (tt, (plain_key (codes "rates") refl, (refl, ((tt, (tt, (tt, tt))), tt))))),
      ),
    ),
  ),
)

pub before-Fits : Fits before later
unfolding Fits find_key bytes_eq
before-Fits = ((omega arith, (tt, (tt, tt))), (tt, (tt, tt)))

json_diff-exact_example :
    (r : Json) × (apply_patch (json_diff before later []) before ≡ some r)
    × (json_eq r later ≡ true)
json_diff-exact_example = json_diff-exact before later before-IsPlain later-IsPlain before-Fits

abbrev busy_hub : HubState
busy_hub = record { sessions = 2 ∷ []; sync_ver = 4; prev_stats = before; curr_stats = before }

joins_between_example :
    let taken = begin_round later busy_hub in
    let (h', calls) = join text 3 (codes "c") [] null taken in
    let change = json_diff before later [] in
    (calls ≡ send 3 (text (welcome h'.sync_ver (codes "c") later)) ∷ [])
    × (h'.sync_ver ≡ (taken.sync_ver + 1) % 2 ^ 64)
    × Memᴰ
        (send 3 (text (delta h'.sync_ver change)))
        (broadcast text (λ p. true) (make_message text h') h').1
    × Memᴰ
        (send 3 (text (delta taken.sync_ver change)))
        (broadcast text (λ p. true) (make_message text taken) h').1
    × ((end_round h').prev_stats ≡ later)
joins_between_example =
    joins_between text (λ p. true) later null 3 (codes "c") [] busy_hub refl refl

-- The id of a client, drawn as 4711.
join-random_id_example :
    let (h', calls) = join text 3 [] (random_id (λ min max. 4711)) null busy_hub in
    let id = random_id (λ min max. 4711) in
    (calls ≡ send 3 (text (welcome h'.sync_ver id h'.curr_stats)) ∷ [])
    × (length id ≡ 8)
    × All IsHex id
    × (1000 ≤ hex_digits_value 0 id)
    × (hex_digits_value 0 id ≤ 9999)
join-random_id_example =
    join-random_id text (λ min max. 4711) 3 null busy_hub (omega arith) (omega arith)

-- One of two sessions leaves during a round, the other one after it.
abbrev three_sessions : HubState
three_sessions = record busy_hub { sessions = 2 ∷ 5 ∷ 7 ∷ [] }

one_left : no_sessions text (leave_all text (5 ∷ 7 ∷ []) three_sessions).sessions ≡ false
unfolding leave_all leave erase
one_left = refl

leaves_between_example :
    let middle = leave_all text (5 ∷ []) (begin_round later three_sessions) in
    let sending = leave_all text (7 ∷ []) middle in
    let (h', calls) = do_loop text (λ p. true) later (leave_all text (5 ∷ 7 ∷ []) three_sessions) in
    (end_round (leave_all text (2 ∷ []) sending) ≡ leave_all text (2 ∷ []) h')
    × ((broadcast text (λ p. true) (make_message text middle) sending).1 ≡ calls)
leaves_between_example =
    leaves_between text (λ p. true) later (5 ∷ []) (7 ∷ []) (2 ∷ []) three_sessions one_left
