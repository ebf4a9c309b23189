-- ===== src/Startup/Process.antt =====
-- main.cpp: how the program starts, its threads, and the order in which it ends.
use kedge.Base.{
  ℕ, suc, ◌+◌, ◌-◌, ◌/◌, ◌%◌, ◌≡◌, Bool, true, false, ◌||◌, ◌&&◌, not, Option, none, some, ltb,
  if◌then◌else◌,
}
use kedge.Bytes.{Bytes}
use kedge.Startup.Options.{Outcome, thrown, refused, ready}
use kedge.Startup.Parameters.{SessionLib}

-- `std::max<int>(1, hc / 2 - 1)`: the difference is taken in 32 bits without a sign, and then cast.
unfoldable pub thread_count : ℕ → ℕ
thread_count hc =
    let n = (hc / 2 + 4294967295) % 4294967296 in
    if ltb n 2147483648 then (if ltb 1 n then n else 1) else 1

-- How main goes on. Where `ctx_start_loader` is destroyed unjoined, the program is terminated.
pub data Begun (A : Type 0) : Type 0 where
  exit_failure : Begun A
  terminated : Begun A
  serving_at : A → (port workers : ℕ) → Begun A

-- `make_address` of Boost.Asio is a parameter.
module _ {A : Type 0} (make_address : Bytes → Option A) (hc : ℕ) where
  abbrev pub at_address : ℕ → Option A → Begun A
  unfolding thread_count
  at_address port none = terminated
  at_address port (some address) = serving_at address port (thread_count hc - 1)

  unfoldable pub begin_main : {lib : SessionLib} → Outcome lib → Begun A
  unfolding thread_count
  begin_main thrown = terminated
  begin_main (refused disk) = exit_failure
  begin_main (ready disk opt) = at_address opt.http_port (make_address opt.http_addr)

-- `shth_loader`: in its loop, before `ioc.stop()`, or at its end.
pub data SheathThread : Type 0 where
  looping stopping ended : SheathThread

-- Where main is: in `ioc.run()`, before `closeWS`, at each of the joins, and behind them.
pub data Stage : Type 0 where
  serving closing join_workers join_start join_sheath join_hub : Stage
  returned : Stage

-- `start`, `hub`: is the thread running? `workers`: how many of those in `tv` are. `busy`: the context
-- has an accept or an operation of a connection pending.
pub record Process : Type 0 where
  pub quit : Bool
  pub io_stopped : Bool
  pub start : Bool
  pub sheath : SheathThread
  pub hub : Bool
  pub workers : ℕ
  pub busy : Bool
  pub stage : Stage

abbrev pub running : ℕ → Process
running n = record {
  quit = false;
  io_stopped = false;
  start = true;
  sheath = looping;
  hub = true;
  workers = n;
  busy = true;
  stage = serving;
}

-- `ioc.run()` returns when it was stopped, or when it is out of work: it waits for the signal until
-- that comes, and for what else is pending.
abbrev pub may_leave_run : Process → Bool
may_leave_run p = p.io_stopped || (p.quit && not p.busy)

pub data Step : Process → Process → Type 0 where
  signal : (p : Process) → p.quit ≡ false → p.io_stopped ≡ false → Step p (record p { quit = true })
  -- The accept failed, and the last connection has ended.
  work_ends : (p : Process) → p.busy ≡ true → Step p (record p { busy = false })
  start_done : (p : Process) → p.start ≡ true → Step p (record p { start = false })
  sheath_turn : (p : Process) → p.sheath ≡ looping → p.quit ≡ false → Step p p
  sheath_leaves :
      (p : Process) → p.sheath ≡ looping → p.quit ≡ true → Step p (record p { sheath = stopping })
  sheath_stops :
      (p : Process) → p.sheath ≡ stopping → Step p (record p { io_stopped = true; sheath = ended })
  hub_turn : (p : Process) → p.hub ≡ true → p.quit ≡ false → Step p p
  hub_leaves : (p : Process) → p.hub ≡ true → p.quit ≡ true → Step p (record p { hub = false })
  worker_leaves :
      (p : Process) (n : ℕ)
      → p.workers ≡ suc n
      → may_leave_run p ≡ true
      → Step p (record p { workers = n })
  main_leaves :
      (p : Process)
      → p.stage ≡ serving
      → may_leave_run p ≡ true
      → Step p (record p { stage = closing })
  close_ws : (p : Process) → p.stage ≡ closing → Step p (record p { stage = join_workers })
  workers_joined :
      (p : Process)
      → p.stage ≡ join_workers
      → p.workers ≡ 0
      → Step p (record p { stage = join_start })
  start_joined :
      (p : Process)
      → p.stage ≡ join_start
      → p.start ≡ false
      → Step p (record p { stage = join_sheath })
  sheath_joined :
      (p : Process)
      → p.stage ≡ join_sheath
      → p.sheath ≡ ended
      → Step p (record p { stage = join_hub })
  hub_joined :
      (p : Process) → p.stage ≡ join_hub → p.hub ≡ false → Step p (record p { stage = returned })

pub data Reach (first : Process) : Process → Type 0 where
  here : Reach first first
  then_ : (p q : Process) → Reach first p → Step p q → Reach first q
