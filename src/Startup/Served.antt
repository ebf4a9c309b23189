-- ===== src/Startup/Served.antt =====
-- How long the listener goes on accepting.
use kedge.Base.{ℕ, suc, ◌+◌, ◌≤◌, ◌≡◌, refl, ap, ◌∙◌, Option, none, some, arith}
use kedge.Startup.Accepting.{
  AcceptError, operation_aborted, other_error, Listener, idle, run, on_accept, perform, completed,
  Step, complete, fail, Reach, here, then_,
}

module _ {Socket : Type 0} where
  -- The listener when `run` was called.
  unfoldable pub started : Listener Socket
  unfolding run perform
  started = perform run idle

  completed_balance :
      (l : Listener Socket) (n : ℕ) (ec : Option AcceptError) (socket : Socket)
      → l.pending ≡ suc n
      → let l' = perform (on_accept ec socket) (completed n ec l) in
        l'.pending + l'.failures ≡ l.pending + l.failures
  unfolding perform on_accept fail
  completed_balance l n none socket h = omega (arith, h)
  completed_balance l n (some operation_aborted) socket h = omega (arith, h)
  completed_balance l n (some other_error) socket h = omega (arith, h)

  accept_balance : (l : Listener Socket) → Reach started l → l.pending + l.failures ≡ 1
  unfolding started run perform
  accept_balance _ here = refl
  accept_balance _ (then_ l _ r (complete l0 n ec socket h)) =
      omega (arith, completed_balance l n ec socket h, accept_balance l r)

  no_step : (k l' l : Listener Socket) → k.pending ≡ 0 → Step k l' → l' ≡ l
  no_step k _ l h (complete k0 n ec socket e) = absurd (omega (arith, h, e))

  still : (l l' : Listener Socket) → l.pending ≡ 0 → Reach l l' → l' ≡ l
  still l _ h here = refl
  still l l' h (then_ k k' r s) =
      no_step k l' l (ap (λ (x : Listener Socket). x.pending) (still l k h r) ∙ h) s

  -- After run the accepts under way and the accepts that failed are together one, however the
  -- accepts complete, and once one has failed nothing changes any more: no connection is served.
  pub accepting_until_failure :
      (l : Listener Socket)
      → Reach started l
      → (l.pending + l.failures ≡ 1)
        × (1 ≤ l.failures → (l' : Listener Socket) → Reach l l' → l' ≡ l)
  accepting_until_failure l r =
      let balance = accept_balance l r in
      (balance, λ failed l' later. still l l' (omega (arith, balance, failed)) later)
