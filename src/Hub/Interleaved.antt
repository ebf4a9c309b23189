-- ===== src/Hub/Interleaved.antt =====
-- Sessions that leave while doLoop of handlers.cpp is between its steps.
use kedge.Base.{ℕ, ◌≡◌, refl, sym, ap, ◌∙◌, Bool, false, List, [], ◌∷◌, ◌++◌}
use kedge.Bytes.{Bytes}
use kedge.Json.{Json}
use kedge.Hub.{HubState, HubCall, leave, broadcast, do_loop, no_sessions}
use kedge.Hub.Round.{begin_round, end_round, make_message, do_loop-round}

module _ (serialize : Json → Bytes) where
  unfoldable pub leave_all : List ℕ → HubState → HubState
  unfolding leave
  leave_all [] h = h
  leave_all (p ∷ ps) h = leave_all ps (leave serialize p h).0

  begin_round-leave_all :
      (stats : Json) (ps : List ℕ) (h : HubState)
      → leave_all ps (begin_round stats h) ≡ begin_round stats (leave_all ps h)
  unfolding leave_all begin_round
  begin_round-leave_all stats [] h = refl
  begin_round-leave_all stats (p ∷ ps) h = begin_round-leave_all stats ps (leave serialize p h).0

  end_round-leave_all :
      (ps : List ℕ) (h : HubState) → end_round (leave_all ps h) ≡ leave_all ps (end_round h)
  unfolding leave_all end_round
  end_round-leave_all [] h = refl
  end_round-leave_all (p ∷ ps) h = end_round-leave_all ps (leave serialize p h).0

  leave_all-append :
      (ps qs : List ℕ) (h : HubState) → leave_all (ps ++ qs) h ≡ leave_all qs (leave_all ps h)
  unfolding leave_all
  leave_all-append [] qs h = refl
  leave_all-append (p ∷ ps) qs h = leave_all-append ps qs (leave serialize p h).0

  make_message-leave_all :
      (ps : List ℕ) (h : HubState)
      → make_message serialize (leave_all ps h) ≡ make_message serialize h
  unfolding leave_all make_message
  make_message-leave_all [] h = refl
  make_message-leave_all (p ∷ ps) h = make_message-leave_all ps (leave serialize p h).0

  -- If sessions leave after a round of doLoop has taken its statistics, more after it has made its
  -- message and before it takes the sessions to send it to, and others after it has sent it, and
  -- some session is left in between, the hub ends as if those of the first two had left before an
  -- undivided round and the others after it, and the same messages are sent.
  pub leaves_between :
      (alive : ℕ → Bool) (stats : Json) (before between after : List ℕ) (h : HubState)
      → no_sessions serialize (leave_all (before ++ between) h).sessions ≡ false
      → let middle = leave_all before (begin_round stats h) in
        let sending = leave_all between middle in
        let (h', calls) = do_loop serialize alive stats (leave_all (before ++ between) h) in
        (end_round (leave_all after sending) ≡ leave_all after h')
        × ((broadcast serialize alive (make_message serialize middle) sending).1 ≡ calls)
  leaves_between alive stats before between after h some_left =
      let middle = leave_all before (begin_round stats h) in
      let same =
        sym (leave_all-append before between (begin_round stats h))
        ∙ begin_round-leave_all stats (before ++ between) h in
      let round = do_loop-round serialize alive stats (leave_all (before ++ between) h) some_left in
      (
        end_round-leave_all after (leave_all between middle)
            ∙ ap (λ k. leave_all after (end_round k)) same
            ∙ ap (λ (r : HubState × List HubCall). leave_all after r.0) (sym round),
        ap (λ m. (broadcast serialize alive m (leave_all between middle)).1)
              (sym (make_message-leave_all between middle))
            ∙ ap (λ k. (broadcast serialize alive (make_message serialize k) k).1) same
            ∙ ap (λ (r : HubState × List HubCall). r.1) (sym round),
      )
