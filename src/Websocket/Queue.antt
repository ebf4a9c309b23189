-- ===== src/Websocket/Queue.antt =====
-- The queue of a connection over the life of the stream: order of delivery, one write at a time.
pub mod Delivery
use kedge.Base.{
  ℕ, zero, suc, ◌≤◌, ◌≡◌, refl, sym, ap, ◌∙◌, ◌≢◌, ◌⊎◌, inl, inr, true, List, [], ◌∷◌, ◌++◌, arith,
  ltb, length, append_assoc, append-nil, length-append,
}
use kedge.Bytes.{Bytes}
use kedge.Websocket.{
  ErrorCode, success, WsCall, async_write, WsSession, start_write, on_send, on_write, write_front,
  erase_front, is_error, close, fail,
}

-- A connection with the writes that are under way, the messages written, and those handed to `send`.
pub record Link : Type 0 where
  pub session : WsSession
  pub under_way : List Bytes
  pub written : List Bytes
  pub sent : List Bytes

-- The strand runs a posted `on_send`, or the completion of a write.
pub data Event : Type 0 where
  send : Bytes → Event
  complete : ErrorCode → Event

abbrev pub writes : List WsCall → List Bytes
writes [] = []
writes (async_write m ∷ cs) = m ∷ writes cs
writes (c ∷ cs) = writes cs

abbrev pub after : ErrorCode → Bytes → List Bytes → List Bytes
after success m done = done ++ m ∷ []
after _ m done = done

completed : ErrorCode → List Bytes → Link → Link
completed ec [] l = l
completed ec (m ∷ ms) l =
    let (w, calls) = on_write ec l.session in
    record l { session = w; under_way = ms ++ writes calls; written = after ec m l.written }

pub step : Link → Event → Link
unfolding completed
step l (send m) =
    let (w, calls) = on_send m l.session in
    record l { session = w; under_way = l.under_way ++ writes calls; sent = l.sent ++ m ∷ [] }
step l (complete ec) = completed ec l.under_way l

pub run_events : Link → List Event → Link
run_events l [] = l
run_events l (e ∷ es) = run_events (step l e) es

-- A connection on which nothing was sent.
pub opened : WsSession → Link
opened w = record { session = record w { queue = [] }; under_way = []; written = []; sent = [] }

-- The front of the queue is under way, and what was written and what is queued is what was sent.
pub record IsLive (l : Link) : Type 0 where
  pub front : l.under_way ≡ writes (write_front l.session.queue)
  pub order : l.written ++ l.session.queue ≡ l.sent

-- A write has failed: none is under way, though the queue holds its message.
pub record IsStuck (l : Link) : Type 0 where
  pub idle : l.under_way ≡ []
  pub waiting : l.session.queue ≢ []
  pub order : l.written ++ l.session.queue ≡ l.sent

opened-IsLive : (w : WsSession) → IsLive (opened w)
unfolding opened
opened-IsLive w = record { front = refl; order = refl }

start_write-append :
    (q : List Bytes) (m : Bytes)
    → writes (write_front q) ++ writes (start_write (q ++ m ∷ []))
      ≡ writes (write_front (q ++ m ∷ []))
unfolding start_write
start_write-append [] m = refl
start_write-append (x ∷ q) m =
    let more : ltb 1 (length ((x ∷ q) ++ m ∷ [])) ≡ true =
      ground (arith, length-append {0} q (m ∷ [])) in
    rw more refl

start_write_waiting : (q : List Bytes) (m : Bytes) → q ≢ [] → start_write (q ++ m ∷ []) ≡ []
unfolding start_write
start_write_waiting [] m h = absurd (h refl)
start_write_waiting (x ∷ q) m h =
    let more : ltb 1 (length ((x ∷ q) ++ m ∷ [])) ≡ true =
      ground (arith, length-append {0} q (m ∷ [])) in
    rw more refl

append-ne-nil : (q : List Bytes) (m : Bytes) → q ++ m ∷ [] ≢ []
append-ne-nil [] m = λ e. cc
append-ne-nil (x ∷ q) m = λ e. cc

send-order : (a q s : List Bytes) (m : Bytes) → a ++ q ≡ s → a ++ (q ++ m ∷ []) ≡ s ++ m ∷ []
send-order a q s m e = sym (append_assoc a q (m ∷ [])) ∙ ap (λ r. r ++ m ∷ []) e

step-send-IsLive : (l : Link) (m : Bytes) → IsLive l → IsLive (step l (send m))
unfolding step on_send
step-send-IsLive l m h = record {
  front = rw h.front (start_write-append l.session.queue m);
  order = send-order l.written l.session.queue l.sent m h.order;
}

step-send-IsStuck : (l : Link) (m : Bytes) → IsStuck l → IsStuck (step l (send m))
unfolding step on_send
step-send-IsStuck l m h = record {
  idle = rw (h.idle, start_write_waiting l.session.queue m h.waiting) refl;
  waiting = append-ne-nil l.session.queue m;
  order = send-order l.written l.session.queue l.sent m h.order;
}

-- With nothing under way a completion does not happen.
step_idle : (l : Link) (ec : ErrorCode) → l.under_way ≡ [] → step l (complete ec) ≡ l
unfolding step
step_idle l ec e = rw (e, completed) refl

front_cases :
    (q u : List Bytes)
    → u ≡ writes (write_front q)
    → (u ≡ []) ⊎ ((m : Bytes) × (ms : List Bytes) × (q ≡ m ∷ ms) × (u ≡ m ∷ []))
front_cases [] u e = inl e
front_cases (m ∷ ms) u e = inr (m, ms, refl, e)

pop-order :
    (a q s : List Bytes) (m : Bytes) (ms : List Bytes)
    → q ≡ m ∷ ms
    → a ++ q ≡ s
    → (a ++ m ∷ []) ++ erase_front q ≡ s
pop-order a q s m ms e o = rw e (append_assoc a (m ∷ []) ms ∙ (rw e at o))

step_success :
    (l : Link) (m : Bytes)
    → l.under_way ≡ m ∷ []
    → step l (complete success) ≡ record l {
      session = record (l.session) { queue = erase_front l.session.queue };
      under_way = writes (write_front (erase_front l.session.queue));
      written = l.written ++ m ∷ [];
    }
unfolding step on_write
step_success l m e = rw (e, completed) refl

step-complete-IsLive : (l : Link) → IsLive l → IsLive (step l (complete success))
step-complete-IsLive l h = elim (front_cases l.session.queue l.under_way h.front) [
  | inl e ↦ rw (step_idle l success e) h
  | inr (m, ms, q, u) ↦
      rw (step_success l m u)
        (record { front = refl; order = pop-order l.written l.session.queue l.sent m ms q h.order })
]

-- A failed write leaves the queue and starts no other write.
on_write_error :
    (ec : ErrorCode) (w : WsSession)
    → is_error ec ≡ true
    → ((on_write ec w).0.queue ≡ w.queue) × (writes (on_write ec w).1 ≡ [])
unfolding on_write fail close
on_write_error success w e = cc
on_write_error ec w e = (refl, refl)

after_error : (ec : ErrorCode) (m : Bytes) (l : List Bytes) → is_error ec ≡ true → after ec m l ≡ l
after_error success m l e = cc
after_error ec m l e = refl

completed-IsStuck :
    (l : Link) (ec : ErrorCode) (m : Bytes)
    → is_error ec ≡ true
    → l.session.queue ≢ []
    → l.written ++ l.session.queue ≡ l.sent
    → IsStuck (completed ec (m ∷ []) l)
unfolding completed
completed-IsStuck l ec m e w o =
    let (same, none_started) = on_write_error ec l.session e in
    record {
      idle = none_started;
      waiting = rw same w;
      order = rw (same, after_error ec m l.written e) o;
    }

step-fail-IsStuck :
    (l : Link) (ec : ErrorCode)
    → IsLive l
    → is_error ec ≡ true
    → l.under_way ≢ []
    → IsStuck (step l (complete ec))
unfolding step
step-fail-IsStuck l ec h f busy = elim (front_cases l.session.queue l.under_way h.front) [
  | inl e ↦ absurd (busy e)
  | inr (m, ms, q, u) ↦ rw u (completed-IsStuck l ec m f (rw q (λ e. cc)) h.order)
]

-- A link is live or stuck.
abbrev pub IsOrdered : Link → Type 0
IsOrdered l = IsLive l ⊎ IsStuck l

step-complete-IsOrdered : (l : Link) (ec : ErrorCode) → IsLive l → IsOrdered (step l (complete ec))
unfolding step
step-complete-IsOrdered l success h = inl (step-complete-IsLive l h)
step-complete-IsOrdered l ec h = elim (front_cases l.session.queue l.under_way h.front) [
  | inl e ↦ inl (rw (step_idle l _ e) h)
  | inr (m, ms, q, u) ↦ inr (rw u (completed-IsStuck l _ m refl (rw q (λ e. cc)) h.order))
]

step-IsStuck :
    (l : Link) (e : Event) → IsStuck l → IsStuck (step l e) × ((step l e).written ≡ l.written)
step-IsStuck l (send m) h = (step-send-IsStuck l m h, unfold step in refl)
step-IsStuck l (complete ec) h = rw (step_idle l ec h.idle) (h, refl)

step-IsOrdered : (l : Link) (e : Event) → IsOrdered l → IsOrdered (step l e)
step-IsOrdered l e (inr h) = inr (step-IsStuck l e h).0
step-IsOrdered l (send m) (inl h) = inl (step-send-IsLive l m h)
step-IsOrdered l (complete ec) (inl h) = step-complete-IsOrdered l ec h

run_events-IsOrdered : (l : Link) (es : List Event) → IsOrdered l → IsOrdered (run_events l es)
unfolding run_events
run_events-IsOrdered l [] h = h
run_events-IsOrdered l (e ∷ es) h = run_events-IsOrdered (step l e) es (step-IsOrdered l e h)

IsLive-one : (l : Link) → IsLive l → length l.under_way ≤ 1
IsLive-one l h = elim (front_cases l.session.queue l.under_way h.front) [
  | inl e ↦ rw e (omega arith)
  | inr (m, ms, q, u) ↦ rw u (omega arith)
]

-- Whatever is sent on a connection and however the writes end, at most one write is under way, and
-- the messages written, followed by those in the queue, are the messages sent, in that order.
pub queue_order :
    (w : WsSession) (es : List Event)
    → let l = run_events (opened w) es in
      (length l.under_way ≤ 1) × (l.written ++ l.session.queue ≡ l.sent)
queue_order w es = elim (run_events-IsOrdered (opened w) es (inl (opened-IsLive w))) [
  | inl h ↦ (IsLive-one (run_events (opened w) es) h, h.order)
  | inr h ↦ (rw h.idle (omega arith), h.order)
]
