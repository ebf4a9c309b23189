-- ===== src/Startup/Ended.antt =====
-- What holds when main returns, and that it returns once the signal has come.
use kedge.Base.{ℕ, ◌+◌, ◌-◌, ◌≤◌, ◌≡◌, refl, ap, ◌⊎◌, Bool, true, false, arith}
use kedge.Startup.Process.{
  SheathThread, looping, stopping, ended, Stage, serving, closing, join_workers, join_start,
  join_sheath, join_hub, returned, Process, running, Step, signal, work_ends, start_done,
  sheath_turn, sheath_leaves, sheath_stops, hub_turn, hub_leaves, worker_leaves, main_leaves,
  close_ws, workers_joined, start_joined, sheath_joined, hub_joined, Reach, here, then_,
}

abbrev phase : SheathThread → ℕ
phase looping = 0
phase stopping = 1
phase ended = 2

abbrev rank : Stage → ℕ
rank serving = 0
rank closing = 1
rank join_workers = 2
rank join_start = 3
rank join_sheath = 4
rank join_hub = 5
rank returned = 6

-- Each thread ends before main passes its join, and none leaves before the signal.
abbrev Inv : Process → Type 0
Inv p =
    (p.io_stopped ≡ true → p.quit ≡ true)
    × (1 ≤ phase p.sheath → p.quit ≡ true)
    × (1 ≤ rank p.stage → p.quit ≡ true)
    × (3 ≤ rank p.stage → p.workers ≡ 0)
    × (4 ≤ rank p.stage → p.start ≡ false)
    × (5 ≤ rank p.stage → phase p.sheath ≡ 2)
    × (6 ≤ rank p.stage → p.hub ≡ false)
    × (phase p.sheath ≡ 2 → p.io_stopped ≡ true)

running-Inv : (n : ℕ) → Inv (running n)
running-Inv n = ground arith

Step-Inv : (p q : Process) → Inv p → Step p q → Inv q
Step-Inv p _ i (signal p0 a b) = ground arith
Step-Inv p _ i (work_ends p0 a) = ground arith
Step-Inv p _ i (start_done p0 a) = ground arith
Step-Inv p _ i (sheath_turn p0 a b) = i
Step-Inv p _ i (sheath_leaves p0 a b) = ground (arith, ap phase a)
Step-Inv p _ i (sheath_stops p0 a) = ground (arith, ap phase a)
Step-Inv p _ i (hub_turn p0 a b) = i
Step-Inv p _ i (hub_leaves p0 a b) = ground arith
Step-Inv p _ i (worker_leaves p0 n a b) = ground arith
Step-Inv p _ i (main_leaves p0 a b) = ground (arith, ap rank a)
Step-Inv p _ i (close_ws p0 a) = ground (arith, ap rank a)
Step-Inv p _ i (workers_joined p0 a b) = ground (arith, ap rank a)
Step-Inv p _ i (start_joined p0 a b) = ground (arith, ap rank a)
Step-Inv p _ i (sheath_joined p0 a b) = ground (arith, ap rank a)
Step-Inv p _ i (hub_joined p0 a b) = ground (arith, ap rank a)

Reach-Inv : (n : ℕ) (p : Process) → Reach (running n) p → Inv p
Reach-Inv n _ here = running-Inv n
Reach-Inv n _ (then_ p q r s) = Step-Inv p q (Reach-Inv n p r) s

-- Nothing of the program runs any more.
abbrev pub AllEnded : Process → Type 0
AllEnded p =
    (p.quit ≡ true) × (p.start ≡ false) × (p.sheath ≡ ended) × (p.hub ≡ false) × (p.workers ≡ 0)

ended_of_phase : (t : SheathThread) → phase t ≡ 2 → t ≡ ended
ended_of_phase looping h = cc
ended_of_phase stopping h = absurd (omega arith)
ended_of_phase ended h = refl

-- When main returns, and the sheath's end is run, the signal has come, and the start, the loops of
-- the sheath and of the hub and all workers have ended, in every run of the threads.
pub returned-AllEnded :
    (n : ℕ) (p : Process) → Reach (running n) p → p.stage ≡ returned → AllEnded p
returned-AllEnded n p r h =
    let (stopped, left, leaving, no_workers, started, sheath_ended, hub_ended, _) =
      Reach-Inv n p r in
    let last : rank p.stage ≡ 6 = ap rank h in
    (
      leaving (omega arith),
      started (omega arith),
      ended_of_phase p.sheath (sheath_ended (omega arith)),
      hub_ended (omega arith),
      no_workers (omega arith),
    )

abbrev count : Bool → ℕ
count true = 1
count false = 0

-- The steps that are left once the signal has come.
abbrev measure : Process → ℕ
measure p =
    count p.busy
    + count p.start
    + (2 - phase p.sheath)
    + count p.hub
    + p.workers
    + (6 - rank p.stage)

abbrev CanStep : Process → Type 0
CanStep p = (q : Process) × Step p q

-- Whatever happens next, main comes to its end, and is not stuck before it.
pub data Ends : Process → Type 0 where
  ends :
      (p : Process)
      → (p.stage ≡ returned) ⊎ ((q : Process) × Step p q)
      → ((q : Process) → Step p q → Ends q)
      → Ends p
