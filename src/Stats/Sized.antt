-- ===== src/Stats/Sized.antt =====
-- The counters from the constructor on: every position that is read lies within them.
use kedge.Base.{
  ℕ, zero, suc, ◌<◌, ◌≡◌, refl, ap, inl, inr, some, List, [], ◌∷◌, arith, length, All, ltb,
  Bool-cases,
}
use kedge.Base.Int.{ℤ, pos}
use kedge.Stats.{
  SessionStats, SessionValues, Metrics, replicate, new_values, update_counters, sub_u64,
  get_session_stats,
}
use kedge.Stats.Fields.{IsSized, of_counters, get_session_stats-of_counters}
use kedge.Stats.Rate.{Sample, update_all}

abbrev pub positions : Metrics → List ℕ
positions m =
    m.num_checking ∷ m.num_stopped ∷ m.num_downloading ∷ m.num_seeding ∷ m.num_queued_seeding
    ∷ m.num_queued_download ∷ m.num_error ∷ m.queued_bytes ∷ m.wasted_bytes ∷ m.failed_bytes
    ∷ m.num_peers_connected ∷ m.num_peers_half_open ∷ m.has_incoming ∷ m.recv ∷ m.sent ∷ m.recv_data
    ∷ m.send_data ∷ m.limiter_up_queue ∷ m.limiter_down_queue ∷ m.queued_tracker_announces ∷ []

-- Both sets have as many counters as there are metrics.
record HasLength (n : ℕ) (v : SessionValues) : Type 0 where
  pub current : length v.current ≡ n
  pub last : length v.last ≡ n

length-replicate : (n : ℕ) (i : ℤ) → length (replicate n i) ≡ n
length-replicate zero i = refl
length-replicate (suc n) i = ap suc (length-replicate n i)

update_counters-HasLength :
    (n : ℕ) (sc : List ℤ) (t : ℕ) (v : SessionValues)
    → length sc ≡ n
    → HasLength n v
    → HasLength n (update_counters sc t v)
unfolding update_counters
update_counters-HasLength n sc t v e h = elim (Bool-cases (ltb 2000000 (sub_u64 t v.last_time))) [
  | inl y ↦ rw y (record { current = e; last = h.current })
  | inr m ↦ rw m (record { current = e; last = h.last })
]

update_all-HasLength :
    (n : ℕ) (xs : List Sample) (v : SessionValues)
    → All (λ x. length x.counters ≡ n) xs
    → HasLength n v
    → HasLength n (update_all v xs)
unfolding update_all
update_all-HasLength n [] v a h = h
update_all-HasLength n (x ∷ xs) v (e, a) h =
    update_all-HasLength n xs (update_counters x.counters x.time v) a
      (update_counters-HasLength n x.counters x.time v e h)

HasLength-IsSized :
    (n : ℕ) (m : Metrics) (v : SessionValues)
    → All (λ i. i < n) (positions m)
    → HasLength n v
    → IsSized m v
HasLength-IsSized n m v
      (
        a,
        (
          b,
          (
            c,
            (d, (e, (f, (g, (i, (j, (k, (l, (o, (p, (q, (r, (s, (t, (u, (w, (x, _))))))))))))))))),
          ),
        ),
      )
      h =
    let now = h.current in
    let before = h.last in
    record {
      num_checking = omega (arith, now);
      num_stopped = omega (arith, now);
      num_downloading = omega (arith, now);
      num_seeding = omega (arith, now);
      num_queued_seeding = omega (arith, now);
      num_queued_download = omega (arith, now);
      num_error = omega (arith, now);
      queued_bytes = omega (arith, now);
      wasted_bytes = omega (arith, now);
      failed_bytes = omega (arith, now);
      num_peers_connected = omega (arith, now);
      num_peers_half_open = omega (arith, now);
      has_incoming = omega (arith, now);
      recv = omega (arith, now);
      sent = omega (arith, now);
      recv_data = omega (arith, now);
      send_data = omega (arith, now);
      limiter_up_queue = omega (arith, now);
      limiter_down_queue = omega (arith, now);
      queued_tracker_announces = omega (arith, now);
      recv_last = omega (arith, before);
      sent_last = omega (arith, before);
    }

-- If each position that is read is below the count of metrics, and each update has a counter for
-- each metric, then after any updates from the constructor on, whatever the two times held, the
-- statistics are read without a fault, and each of them is its counter, the rate of its counters
-- over the window, or a clock as given; but whether the session is paused is what the uninitialised
-- local held.
pub stats_always_read :
    (m : Metrics) (per_second : ℤ → ℕ → ℤ) (n t0 t1 : ℕ) (xs : List Sample) (blank : SessionStats)
    (uptime : ℤ) (uptime_ms : ℕ)
    → All (λ i. i < n) (positions m)
    → All (λ x. length x.counters ≡ n) xs
    → let v = update_all (new_values n t0 t1) xs in
      get_session_stats m per_second blank uptime uptime_ms v
      ≡ some (of_counters m per_second v blank uptime uptime_ms)
unfolding new_values
stats_always_read m per_second n t0 t1 xs blank uptime uptime_ms below sized =
    let fresh : HasLength n (new_values n t0 t1) = record {
      current = length-replicate n (pos 0);
      last = length-replicate n (pos 0);
    } in
    let v = update_all (new_values n t0 t1) xs in
    let long = update_all-HasLength n xs (new_values n t0 t1) sized fresh in
    let z = HasLength-IsSized n m v below long in
    get_session_stats-of_counters m per_second v blank uptime uptime_ms z
      (omega (arith, z.send_data, long.current, long.last))
