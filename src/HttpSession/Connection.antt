-- ===== src/HttpSession/Connection.antt =====
-- The life of an HTTP connection: one operation at a time, and one response to each request.
use kedge.Base.{ℕ, ◌+◌, ◌≤◌, ◌≡◌, refl, Bool, true, false, List, [], ◌∷◌, ◌++◌, arith, length}
use kedge.HttpSession.{
  HttpError, success, HttpCall, async_read, async_write, do_read, on_read, on_write, fail,
}

pub data Operation : Type 0 where
  reading : Operation
  writing : Bool → Operation

-- A connection with the operations under way, the requests taken up and the responses written.
pub record Connection : Type 0 where
  pub under_way : List Operation
  pub requests : ℕ
  pub responses : ℕ

-- The end of a read, with what the request asks for, or of a write.
pub data Event : Type 0 where
  read : HttpError → (upgraded need_eof : Bool) → Event
  written : HttpError → Event

abbrev pub operations : List HttpCall → List Operation
operations [] = []
operations (async_read limit seconds ∷ cs) = reading ∷ operations cs
operations (async_write need_eof ∷ cs) = writing need_eof ∷ operations cs
operations (c ∷ cs) = operations cs

abbrev pub taken_up : HttpError → Bool → ℕ
taken_up success false = 1
taken_up _ _ = 0

abbrev pub succeeded : HttpError → ℕ
succeeded success = 1
succeeded _ = 0

-- An event that does not fit the operation under way does not happen.
event : List Operation → Event → Connection → Connection
event (reading ∷ ops) (read ec upgraded need_eof) c = record c {
  under_way = ops ++ operations (on_read ec upgraded need_eof);
  requests = c.requests + taken_up ec upgraded;
}
event (writing need_eof ∷ ops) (written ec) c = record c {
  under_way = ops ++ operations (on_write ec need_eof);
  responses = c.responses + succeeded ec;
}
event _ _ c = c

pub step : Connection → Event → Connection
unfolding event
step c e = event c.under_way e c

pub run_events : Connection → List Event → Connection
run_events c [] = c
run_events c (e ∷ es) = run_events (step c e) es

-- `run` of a new session.
pub started : Connection
started = record { under_way = operations do_read; requests = 0; responses = 0 }

-- The operations under way, and how far the responses are behind the requests.
abbrev Balanced : List Operation → ℕ → ℕ → Type 0
Balanced [] q r = (r ≤ q) × (q ≤ r + 1)
Balanced (reading ∷ []) q r = q ≡ r
Balanced (writing b ∷ []) q r = q ≡ r + 1
Balanced (_ ∷ _ ∷ _) q r = ⊥

read-Balanced :
    (ec : HttpError) (up eof : Bool) (q r : ℕ)
    → q ≡ r
    → Balanced (operations (on_read ec up eof)) (q + taken_up ec up) r
unfolding on_read fail
read-Balanced success true eof q r e = omega arith
read-Balanced success false eof q r e = omega arith
read-Balanced ec up eof q r e = omega arith

write-Balanced :
    (ec : HttpError) (eof : Bool) (q r : ℕ)
    → q ≡ r + 1
    → Balanced (operations (on_write ec eof)) q (r + succeeded ec)
unfolding on_write fail do_read
write-Balanced success true q r e = omega arith
write-Balanced success false q r e = omega arith
write-Balanced ec eof q r e = omega arith

event-Balanced :
    (ops : List Operation) (e : Event) (c : Connection)
    → ops ≡ c.under_way
    → Balanced ops c.requests c.responses
    → let d = event ops e c in Balanced d.under_way d.requests d.responses
unfolding event
event-Balanced [] e c s h = rw (← s) h
event-Balanced (reading ∷ []) (read ec up eof) c s h =
    read-Balanced ec up eof c.requests c.responses h
event-Balanced (reading ∷ []) (written ec) c s h = rw (← s) h
event-Balanced (writing b ∷ []) (written ec) c s h = write-Balanced ec b c.requests c.responses h
event-Balanced (writing b ∷ []) (read ec up eof) c s h = rw (← s) h
event-Balanced (a ∷ b ∷ ops) e c s h = elim h [ ]

run_events-Balanced :
    (es : List Event) (c : Connection)
    → Balanced c.under_way c.requests c.responses
    → let d = run_events c es in Balanced d.under_way d.requests d.responses
unfolding run_events step
run_events-Balanced [] c h = h
run_events-Balanced (e ∷ es) c h =
    run_events-Balanced es (step c e) (event-Balanced c.under_way e c refl h)

Balanced-bounds :
    (ops : List Operation) (q r : ℕ) → Balanced ops q r → (length ops ≤ 1) × (r ≤ q) × (q ≤ r + 1)
Balanced-bounds [] q r h = (omega arith, h.0, h.1)
Balanced-bounds (reading ∷ []) q r h = omega arith
Balanced-bounds (writing b ∷ []) q r h = omega arith
Balanced-bounds (a ∷ b ∷ ops) q r h = elim h [ ]

-- Over the life of an HTTP connection at most one operation is under way, and the responses written
-- are as many as the requests taken up, or one fewer.
pub connection_balance :
    (es : List Event)
    → let c = run_events started es in
      (length c.under_way ≤ 1) × (c.responses ≤ c.requests) × (c.requests ≤ c.responses + 1)
connection_balance es =
    let h = run_events-Balanced es started (unfold started do_read in refl) in
    Balanced-bounds (run_events started es).under_way _ _ h
