-- ===== src/Hub/Message/Read.antt =====
-- What a client has after a message that was sent as text and read again.
use mathlib.Core.Option
use mathlib.Core.Path.{subst}
use kedge.Base.{ℕ, ◌≡◌, refl, sym, ap, true, Option, none, some, List, [], ◌∷◌, All}
use kedge.Bytes.{Bytes, codes, bytes_eq}
use kedge.Json.{
  Json, bool_, uint64, string, array, object, Items, nil, cons, Members, end, member, find_key,
}
use kedge.JsonDiff.{Op, replace, remove, add, op_json}
use kedge.JsonDiff.Alike.{Alike, AlikeItems, AlikeMembers, Both, find_key-Alike}
use kedge.JsonDiff.Alike.Ops.{AlikeOp, AlikeOps}
use kedge.JsonDiff.Patch.{apply_patch}
use kedge.JsonDiff.Plain.{plain_key, IsPlain, ArePlain}
use kedge.JsonDiff.Values.{HasPlain}
use kedge.Hub.{welcome, delta, ops_json}
use kedge.Hub.Message.{json_op, json_ops, patched, on_message}

Both-string : (s : Bytes) (o : Option Json) → Both Alike (some (string s)) o → o ≡ some (string s)
unfolding Alike
Both-string s none h = absurd h
Both-string s (some (string t)) h = ap (λ x. some (string x)) (sym h)
Both-string s (some v) h = absurd h

Both-none : (o : Option Json) → Both Alike none o → o ≡ none
Both-none none h = refl
Both-none (some v) h = absurd h

Both-some :
    (v : Json) (o : Option Json) → Both Alike (some v) o → (w : Json) × (o ≡ some w) × Alike v w
Both-some v none h = absurd h
Both-some v (some w) h = (w, refl, h)

-- What is found in an object that is alike.
module _ (ms ns : Members) (h : AlikeMembers ms ns) (k : Bytes) where
  text_field : (s : Bytes) → find_key k ms ≡ some (string s) → find_key k ns ≡ some (string s)
  text_field s e =
      Both-string s (find_key k ns)
        (subst (λ o. Both Alike o (find_key k ns)) e (find_key-Alike k ms ns h))

  value_field :
      (v : Json) → find_key k ms ≡ some v → (w : Json) × (find_key k ns ≡ some w) × Alike v w
  value_field v e =
      Both-some v (find_key k ns)
        (subst (λ o. Both Alike o (find_key k ns)) e (find_key-Alike k ms ns h))

abbrev with_value : Bytes → Bytes → Json → Members
with_value op p v =
    member (codes "op") (string op)
      (member (codes "path") (string p) (member (codes "value") v end))

abbrev without_value : Bytes → Members
without_value p =
    member (codes "op") (string (codes "remove")) (member (codes "path") (string p) end)

json_op-Alike :
    (o : Op) (w : Json) → Alike (op_json o) w → (p : Op) × (json_op w ≡ some p) × AlikeOp o p
unfolding op_json json_op Alike Option.bind
json_op-Alike (replace p v) (object ns) h =
    let ms = with_value (codes "replace") p v in
    let op = text_field ms ns h (codes "op") (codes "replace") refl in
    let path = text_field ms ns h (codes "path") p refl in
    let (w, value, alike) = value_field ms ns h (codes "value") v refl in
    (replace p w, rw (op, path, value) refl, (refl, alike))
json_op-Alike (remove p) (object ns) h =
    let ms = without_value p in
    let op = text_field ms ns h (codes "op") (codes "remove") refl in
    let path = text_field ms ns h (codes "path") p refl in (remove p, rw (op, path) refl, refl)
json_op-Alike (add p v) (object ns) h =
    let ms = with_value (codes "add") p v in
    let op = text_field ms ns h (codes "op") (codes "add") refl in
    let path = text_field ms ns h (codes "path") p refl in
    let (w, value, alike) = value_field ms ns h (codes "value") v refl in
    (add p w, rw (op, path, value) refl, (refl, alike))
json_op-Alike (replace p v) w h = absurd h
json_op-Alike (remove p) w h = absurd h
json_op-Alike (add p v) w h = absurd h

json_ops-Alike :
    (os : List Op) (ys : Items)
    → AlikeItems (ops_json os) ys
    → (ps : List Op) × (json_ops ys ≡ some ps) × AlikeOps os ps
unfolding json_ops Alike ops_json
json_ops-Alike [] nil h = ([], refl, tt)
json_ops-Alike [] (cons y ys) h = absurd h
json_ops-Alike (o ∷ os) nil h = absurd h
json_ops-Alike (o ∷ os) (cons y ys) (ho, h) =
    let (p, one, alike) = json_op-Alike o y ho in
    let (ps, rest, all_alike) = json_ops-Alike os ys h in
    (p ∷ ps, rw (one, rest) refl, (alike, all_alike))

-- A first message gives the client the statistics in it.
pub on_message-welcome :
    (version : ℕ) (id : Bytes) (body m : Json) (held : Option Json)
    → Alike (welcome version id body) m
    → (w : Json) × (on_message m held ≡ some w) × Alike body w
unfolding on_message Alike
on_message-welcome version id body (object ns) held h =
    let ms =
      member (codes "version") (uint64 version)
        (member (codes "id") (string id) (member (codes "body") body end)) in
    let no_delta : find_key (codes "delta") ns ≡ none =
      Both-none (find_key (codes "delta") ns) (find_key-Alike (codes "delta") ms ns h) in
    let (w, found, alike) = value_field ms ns h (codes "body") body refl in
    (w, rw (no_delta, on_message) found, alike)
on_message-welcome version id body m held h = absurd h

-- A later one is applied to what the client has.
pub on_message-delta :
    (version : ℕ) (os : List Op) (m v : Json)
    → Alike (delta version os) m
    → (ps : List Op) × (on_message m (some v) ≡ apply_patch ps v) × AlikeOps os ps
unfolding on_message Alike Option.bind
on_message-delta version os (object ns) v h =
    let ms =
      member (codes "version") (uint64 version)
        (member (codes "delta") (bool_ true) (member (codes "body") (array (ops_json os)) end)) in
    let (d, marked, _) = value_field ms ns h (codes "delta") (bool_ true) refl in
    let (w, found, alike) = value_field ms ns h (codes "body") (array (ops_json os)) refl in
    let (ps, read, all_alike) = body_ops os w alike in
    (ps, rw (marked, on_message) (rw found (read v)), all_alike)
  where
    body_ops :
        (os : List Op) (w : Json)
        → Alike (array (ops_json os)) w
        → (ps : List Op) × ((v : Json) → patched (some w) (some v) ≡ apply_patch ps v)
          × AlikeOps os ps
    body_ops os (array ys) h =
        let (ps, read, all_alike) = json_ops-Alike os ys h in (ps, (λ v. rw read refl), all_alike)
    body_ops os w h = absurd h
on_message-delta version os m v h = absurd h

op_json-IsPlain : (o : Op) → HasPlain o → IsPlain (op_json o)
unfolding op_json IsPlain find_key bytes_eq
op_json-IsPlain (replace p v) h = (
  plain_key (codes "op") refl,
  (
    refl,
    (
      tt,
      (
        plain_key (codes "path") refl,
        (refl, (tt, (plain_key (codes "value") refl, (refl, (h, tt))))),
      ),
    ),
  ),
)
op_json-IsPlain (remove p) h =
    (plain_key (codes "op") refl, (refl, (tt, (plain_key (codes "path") refl, (refl, (tt, tt))))))
op_json-IsPlain (add p v) h = (
  plain_key (codes "op") refl,
  (
    refl,
    (
      tt,
      (
        plain_key (codes "path") refl,
        (refl, (tt, (plain_key (codes "value") refl, (refl, (h, tt))))),
      ),
    ),
  ),
)

ops_json-ArePlain : (os : List Op) → All HasPlain os → ArePlain (ops_json os)
unfolding ops_json IsPlain
ops_json-ArePlain [] h = tt
ops_json-ArePlain (o ∷ os) (ho, h) = (op_json-IsPlain o ho, ops_json-ArePlain os h)

pub welcome-IsPlain :
    (version : ℕ) (id : Bytes) (body : Json) → IsPlain body → IsPlain (welcome version id body)
unfolding IsPlain find_key bytes_eq
welcome-IsPlain version id body h = (
  plain_key (codes "version") refl,
  (
    refl,
    (
      tt,
      (plain_key (codes "id") refl, (refl, (tt, (plain_key (codes "body") refl, (refl, (h, tt)))))),
    ),
  ),
)

pub delta-IsPlain : (version : ℕ) (os : List Op) → All HasPlain os → IsPlain (delta version os)
unfolding IsPlain find_key bytes_eq
delta-IsPlain version os h = (
  plain_key (codes "version") refl,
  (
    refl,
    (
      tt,
      (
        plain_key (codes "delta") refl,
        (refl, (tt, (plain_key (codes "body") refl, (refl, (ops_json-ArePlain os h, tt))))),
      ),
    ),
  ),
)
