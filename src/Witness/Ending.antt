-- ===== src/Witness/Ending.antt =====
-- A run of the program, with one worker besides main, to its end.
use kedge.Base.{ℕ, refl, true, false}
use kedge.Startup.Process.{
  Process, running, looping, stopping, ended, serving, closing, join_workers, join_start,
  join_sheath, join_hub, returned, SheathThread, Stage, signal, start_done, sheath_leaves,
  sheath_stops, hub_leaves, worker_leaves, main_leaves, close_ws, workers_joined, start_joined,
  sheath_joined, hub_joined, Reach, here, then_,
}
use kedge.Startup.Ended.{AllEnded, returned-AllEnded}

-- After the signal: the sheath's thread, then the workers and the hub, at a stage of main.
abbrev after_signal : SheathThread → ℕ → Stage → Process
after_signal thread n at_stage = record (running n) {
  quit = true;
  start = false;
  sheath = thread;
  stage = at_stage;
}

abbrev after_stop : ℕ → Stage → Process
after_stop n at_stage = record (after_signal ended n at_stage) { io_stopped = true; hub = false }

to_stop : Reach (running 1) (after_stop 1 serving)
to_stop =
    then_ _ _
      (then_ _ _
        (then_ _ _
          (then_ _ _ (then_ _ _ here (start_done (running 1) refl))
            (signal (record (running 1) { start = false }) refl refl))
          (sheath_leaves (after_signal looping 1 serving) refl refl))
        (sheath_stops (after_signal stopping 1 serving) refl))
      (hub_leaves (record (after_signal ended 1 serving) { io_stopped = true }) refl refl)

to_joins : Reach (running 1) (after_stop 0 join_workers)
to_joins =
    then_ _ _
      (then_ _ _ (then_ _ _ to_stop (worker_leaves (after_stop 1 serving) 0 refl refl))
        (main_leaves (after_stop 0 serving) refl refl))
      (close_ws (after_stop 0 closing) refl)

to_end : Reach (running 1) (after_stop 0 returned)
to_end =
    then_ _ _
      (then_ _ _
        (then_ _ _ (then_ _ _ to_joins (workers_joined (after_stop 0 join_workers) refl refl))
          (start_joined (after_stop 0 join_start) refl refl))
        (sheath_joined (after_stop 0 join_sheath) refl refl))
      (hub_joined (after_stop 0 join_hub) refl refl)

returned-AllEnded_example : AllEnded (after_stop 0 returned)
returned-AllEnded_example = returned-AllEnded 1 (after_stop 0 returned) to_end refl
