-- ===== src/Hub/Round.antt =====
-- doLoop of handlers.cpp in the steps between which another thread can take the mutex, and a client
-- that joins there.
use mathlib.Core.List.{Memᴰ}
use kedge.Base.{
  ℕ, ◌≡◌, refl, sym, ◌∙◌, inl, inr, Bool, true, false, List, [], ◌∷◌, ◌+◌, ◌%◌, ◌^◌, ◌==◌, ==_iff,
  ap, Bool-cases,
}
use kedge.Bytes.{Bytes}
use kedge.Json.{Json}
use kedge.JsonDiff.{json_diff}
use kedge.Hub.{
  HubState, send, is_null, insert, next_version, welcome, delta, or_random, join, broadcast_to,
  broadcast, no_sessions, do_loop,
}

-- The new statistics are taken without the mutex.
unfoldable pub begin_round : Json → HubState → HubState
begin_round stats h = record h { sync_ver = next_version h.sync_ver; curr_stats = stats }

unfoldable pub end_round : HubState → HubState
end_round h = record h { prev_stats = h.curr_stats }

module _ (serialize : Json → Bytes) where
  -- The message is made without the mutex: the version, the change and its text.
  unfoldable pub make_message : HubState → Bytes
  unfolding json_diff
  make_message h = serialize (delta h.sync_ver (json_diff h.prev_stats h.curr_stats []))

  -- With a session a round is these steps and `broadcast`, if nothing comes between them.
  pub do_loop-round :
      (alive : ℕ → Bool) (stats : Json) (h : HubState)
      → no_sessions serialize h.sessions ≡ false
      → let taken = begin_round stats h in
        do_loop serialize alive stats h
        ≡ (end_round taken, (broadcast serialize alive (make_message taken) taken).1)
  unfolding do_loop begin_round end_round make_message broadcast
  do_loop-round alive stats h n = rw n refl

  insert-Memᴰ : (p : ℕ) (ps : List ℕ) → Memᴰ p (insert p ps)
  unfolding insert
  insert-Memᴰ p [] = Memᴰ.head refl
  insert-Memᴰ p (q ∷ qs) = elim (Bool-cases (q == p)) [
    | inl y ↦ rw y (Memᴰ.head (sym ((==_iff q p).0 y)))
    | inr n ↦ rw n (Memᴰ.tail (insert-Memᴰ p qs))
  ]

  broadcast_to-Memᴰ :
      (alive : ℕ → Bool) (message : Bytes) (p : ℕ) (ps : List ℕ)
      → alive p ≡ true
      → Memᴰ p ps
      → Memᴰ (send p message) (broadcast_to serialize alive message ps)
  unfolding broadcast_to
  broadcast_to-Memᴰ alive message p [] a m = elim m [ ]
  broadcast_to-Memᴰ alive message p (q ∷ ps) a (Memᴰ.head e) =
      let there : alive q ≡ true = ap alive (sym e) ∙ a in
      rw there (Memᴰ.head (ap (λ x. send x message) e))
  broadcast_to-Memᴰ alive message p (q ∷ ps) a (Memᴰ.tail m) = elim (Bool-cases (alive q)) [
    | inl y ↦ rw y (Memᴰ.tail (broadcast_to-Memᴰ alive message p ps a m))
    | inr n ↦ rw n (broadcast_to-Memᴰ alive message p ps a m)
  ]

  -- If the new statistics are not null, a client that joins after a round has taken them and before
  -- it sends them, and whose connection lives, is welcomed with them, and is then sent the change
  -- from the old statistics to the new ones, while the round leaves these as the previous ones. If
  -- the message of the round was not made before it joined, the change has the version of the
  -- welcome; if it was, the welcome has the version after that of the change, 0 after 2 ^ 64 - 1.
  pub joins_between :
      (alive : ℕ → Bool) (stats other : Json) (wss : ℕ) (qid random : Bytes) (h : HubState)
      → is_null stats ≡ false
      → alive wss ≡ true
      → let taken = begin_round stats h in
        let (h', calls) = join serialize wss qid random other taken in
        let change = json_diff h.prev_stats stats [] in
        (calls ≡ send wss (serialize (welcome h'.sync_ver (or_random qid random) stats)) ∷ [])
        × (h'.sync_ver ≡ (taken.sync_ver + 1) % 2 ^ 64)
        × Memᴰ
            (send wss (serialize (delta h'.sync_ver change)))
            (broadcast serialize alive (make_message h') h').1
        × Memᴰ
            (send wss (serialize (delta taken.sync_ver change)))
            (broadcast serialize alive (make_message taken) h').1
        × ((end_round h').prev_stats ≡ stats)
  unfolding join begin_round end_round make_message broadcast
  joins_between alive stats other wss qid random h given a =
      let sent = λ (message : Bytes).
        broadcast_to-Memᴰ alive message wss (insert wss h.sessions) a
          (insert-Memᴰ wss h.sessions) in
      rw given (refl, refl, sent _, sent _, refl)
