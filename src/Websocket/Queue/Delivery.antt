-- ===== src/Websocket/Queue/Delivery.antt =====
-- What a queue delivers if its writes succeed, and after a write has failed.
use kedge.Base.{
  ℕ, zero, suc, ◌≡◌, refl, sym, ◌∙◌, ◌≢◌, inl, inr, true, List, [], ◌∷◌, ◌++◌, arith, length,
  append-nil,
}
use kedge.Bytes.{Bytes}
use kedge.Websocket.{ErrorCode, success, write_front, is_error}
use kedge.Websocket.Queue.{
  Link, Event, complete, step, run_events, completed, writes, IsLive, IsStuck, front_cases,
  step_success, step-complete-IsLive, after_error, step-fail-IsStuck, step-IsStuck,
}

run_events-IsStuck :
    (l : Link) (es : List Event) → IsStuck l → (run_events l es).written ≡ l.written
unfolding run_events
run_events-IsStuck l [] h = refl
run_events-IsStuck l (e ∷ es) h =
    let (stuck, same) = step-IsStuck l e h in run_events-IsStuck (step l e) es stuck ∙ same

-- If the front of a connection's queue is under way and its write fails, nothing more is written on
-- the connection, whatever is sent on it later.
pub failed_write_ends :
    (l : Link) (ec : ErrorCode) (es : List Event)
    → IsLive l
    → l.under_way ≢ []
    → is_error ec ≡ true
    → (run_events (step l (complete ec)) es).written ≡ l.written
unfolding step
failed_write_ends l ec es h busy f =
    run_events-IsStuck (step l (complete ec)) es (step-fail-IsStuck l ec h f busy)
    ∙ unchanged l.under_way
  where
    unchanged : (u : List Bytes) → (completed ec u l).written ≡ l.written
    unchanged [] = refl
    unchanged (m ∷ ms) = after_error ec m l.written f

-- The completions of as many writes as there are messages in the queue.
pub drain : ℕ → List Event
drain zero = []
drain (suc n) = complete success ∷ drain n

nothing_queued : (a q s : List Bytes) → length q ≡ 0 → a ++ q ≡ s → a ≡ s
nothing_queued a [] s e o = sym (append-nil a) ∙ o
nothing_queued a (x ∷ q) s e o = absurd (omega arith)

-- One completion: still live, one message fewer, and the same messages sent.
step_drain :
    (n : ℕ) (l : Link)
    → IsLive l
    → length l.session.queue ≡ suc n
    → (length (step l (complete success)).session.queue ≡ n)
      × ((step l (complete success)).sent ≡ l.sent)
step_drain n l h e = elim (front_cases l.session.queue l.under_way h.front) [
  | inl idle ↦ absurd (busy l.session.queue e (sym h.front ∙ idle))
  | inr (m, ms, q, u) ↦ rw (step_success l m u) (rw q (omega (arith, rw q at e)), refl)
]
  where
    busy : (q : List Bytes) → length q ≡ suc n → writes (write_front q) ≢ []
    busy [] k = λ _. omega arith
    busy (x ∷ q) k = λ c. cc

-- If the front of a connection's queue is under way and the writes succeed, all that was sent on
-- the connection is written once each queued message had its completion.
pub drain_delivers :
    (n : ℕ) (l : Link)
    → IsLive l
    → length l.session.queue ≡ n
    → (run_events l (drain n)).written ≡ l.sent
unfolding run_events drain
drain_delivers zero l h e = nothing_queued l.written l.session.queue l.sent e h.order
drain_delivers (suc n) l h e =
    let (fewer, same) = step_drain n l h e in
    drain_delivers n (step l (complete success)) (step-complete-IsLive l h) fewer ∙ same
