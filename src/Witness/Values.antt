-- ===== src/Witness/Values.antt =====
-- Statistics and patches.
use mathlib.Core.List.{Memᴰ}
use kedge.Base.{
  take, ◌-◌, List, none, ltb, if◌then◌else◌, get_elem?, ℕ, ◌+◌, ◌≡◌, refl, true, false, some, [],
  ◌∷◌, arith, length,
}
use kedge.Base.Int.{◌-ℤ◌, ℤ, pos}
use kedge.Bytes.{codes}
use kedge.Json.{Json, Items, int64, uint64, array, nil, cons, json_eq}
use kedge.JsonDiff.{add, json_diff, diff_items}
use kedge.JsonDiff.Growth.{item_at, get_elem?-json_diff}
use kedge.Stats.{
  rates, update_counters, SessionStats, SessionValues, Metrics, new_values, to_json_object,
  get_session_stats,
}
use kedge.Stats.Rate.{
  base_of, Sample, HasWindow, update_all, last_sample, current_sample, update_all_window,
}
use kedge.Stats.Fields.{member_of, of_counters}
use kedge.Stats.Sized.{stats_always_read}
use kedge.Stats.Uptime.{uptime_ms, to_u64, shown_uptime, uptime_ms_shown}

-- What the stack held.
abbrev garbage : SessionStats
garbage = record {
  bytes_recv = pos 0;
  bytes_sent = pos 0;
  bytes_data_recv = pos 0;
  bytes_data_sent = pos 0;
  rate_recv = pos 0;
  rate_sent = pos 0;
  bytes_failed = pos 0;
  bytes_wasted = pos 0;
  bytes_queued = pos 0;
  num_checking = pos 0;
  num_downloading = pos 0;
  num_seeding = pos 0;
  num_stopped = pos 0;
  num_queued = pos 0;
  num_error = pos 0;
  num_peers_connected = pos 0;
  num_peers_half_open = pos 0;
  limit_up_queue = pos 0;
  limit_down_queue = pos 0;
  queued_tracker_announces = pos 0;
  has_incoming = true;
  is_paused = true;
  uptime = pos 0;
  uptime_ms = 0;
}

abbrev positions : Metrics
positions = record {
  num_checking = 0;
  num_stopped = 0;
  num_downloading = 0;
  num_seeding = 0;
  num_queued_seeding = 0;
  num_queued_download = 0;
  num_error = 0;
  queued_bytes = 0;
  wasted_bytes = 0;
  failed_bytes = 0;
  num_peers_connected = 0;
  num_peers_half_open = 0;
  has_incoming = 0;
  recv = 0;
  sent = 0;
  recv_data = 0;
  send_data = 0;
  limiter_up_queue = 0;
  limiter_down_queue = 0;
  queued_tracker_announces = 1;
}

abbrev two_counters : SessionValues
two_counters = record {
  current = pos 7 ∷ pos 8 ∷ [];
  last = pos 1 ∷ pos 2 ∷ [];
  current_time = 9;
  last_time = 4;
}

abbrev one_counter : SessionValues
one_counter = record { current = pos 7 ∷ []; last = []; current_time = 9; last_time = 4 }

abbrev difference : ℤ → ℕ → ℤ
difference n w = n

-- Two metrics, from the constructor on, with whatever the times hold.
abbrev first_samples : List Sample
first_samples =
    record { time = 5000000; counters = pos 7 ∷ pos 8 ∷ [] }
    ∷ record { time = 9000000; counters = pos 9 ∷ pos 8 ∷ [] }
    ∷ []

stats_always_read_example :
    let v = update_all (new_values 2 77 4) first_samples in
    get_session_stats positions difference garbage (pos 3) 3000 v
    ≡ some (of_counters positions difference v garbage (pos 3) 3000)
stats_always_read_example =
    stats_always_read positions difference 2 77 4 first_samples garbage (pos 3) 3000 (omega arith)
      (refl, (refl, tt))

-- The clock is set back by two seconds.
uptime_ms_shown_example :
    member_of (codes "uptimeMs") (
      to_json_object
        (record garbage { uptime_ms = to_u64 (uptime_ms (pos 5000000000) (pos 3000000000)) }))
    ≡ (if ltb 0 (shown_uptime 5000000000 3000000000)
        then some (uint64 (shown_uptime 5000000000 3000000000))
        else none)
uptime_ms_shown_example = uptime_ms_shown garbage 5000000000 3000000000 (omega arith) (omega arith)

abbrev sample_at : ℕ → Sample
sample_at t = record { time = t; counters = pos t ∷ [] }

abbrev two_samples : List Sample
two_samples = sample_at 500 ∷ sample_at 900 ∷ []

update_all_window_example :
    HasWindow 1000000 (update_all two_counters two_samples)
    × (current_sample (update_all two_counters two_samples) ≡ sample_at 900)
    × Memᴰ
        (base_of two_counters two_samples)
        (last_sample two_counters ∷ current_sample two_counters ∷ two_samples)
    × (rates positions difference (update_all two_counters two_samples) garbage
        ≡ some (record garbage {
          rate_recv = difference (pos 900 -ℤ pos 1) (900 - (base_of two_counters two_samples).time);
          rate_sent = difference (pos 900 -ℤ pos 1) (900 - (base_of two_counters two_samples).time);
        }))
unfolding update_all update_counters
update_all_window_example =
    update_all_window positions difference 1000000 two_counters (sample_at 500) (sample_at 900 ∷ [])
      garbage (pos 900) (pos 1) (pos 900) (pos 1) (omega arith)
      (omega arith, omega arith, omega arith, (omega arith, omega arith, omega arith, tt))
      (omega arith) refl refl refl refl

abbrev five : Json
five = int64 (pos 5)

abbrev three_more : Items
three_more = cons five (cons five (cons five (cons (int64 (pos 6)) nil)))

unequal_sizes : json_eq (array (cons five nil)) (array three_more) ≡ false
unfolding json_eq
unequal_sizes = refl

-- The second of the operations: the last of three elements more.
get_elem?-json_diff_example :
    let patch = json_diff (array (cons five nil)) (array three_more) [] in
    let common = diff_items (cons five nil) three_more 0 [] in
    (take (length common) patch ≡ common)
    × (get_elem? patch (length common + 1) ≡ some (add (codes "/-") (int64 (pos 6))))
    × (length patch ≡ length common + 2)
unfolding item_at
get_elem?-json_diff_example = get_elem?-json_diff (cons five nil) three_more [] 1 unequal_sizes
