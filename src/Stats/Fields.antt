-- ===== src/Stats/Fields.antt =====
-- What getSessionStats reads, and the JSON of the statistics.
use kedge.Base.{
  ℕ, zero, suc, [], ◌∷◌, ◌≤◌, ◌<◌, ◌≡◌, refl, true, false, Option, none, some, List, arith, ltb,
  leb, if◌then◌else◌, length, get_elem?, get_elem?-ge,
}
use kedge.Base.Int.{ℤ, pos, ◌-ℤ◌, ◌+ℤ◌, is_pos}
use kedge.Number.{to_int}
use kedge.Bytes.{Bytes, codes, bytes_eq}
use kedge.Json.{Json, bool_, int64, object, find_key}
use kedge.Json.Rows.{listed, find_key-build}
use kedge.Stats.{
  SessionStats, stats_rows, to_json_object, active_count, puased_count, SessionValues, Metrics,
  rates, totals, others, get_session_stats, ◌>>=◌, is_nonzero, sub_u64,
}

-- A member of an object.
abbrev pub member_of : Bytes → Json → Option Json
member_of k (object ms) = find_key k ms
member_of k _ = none

pub stats_find :
    (s : SessionStats) (k : Bytes) → member_of k (to_json_object s) ≡ listed k (stats_rows s)
unfolding to_json_object bytes_eq
stats_find s k = find_key-build (stats_rows s) k

-- In the JSON of the statistics the count of tasks and the sum of the rates are always given, the
-- active and the paused count only if they are positive, and the pausing of the session only if it
-- is paused.
pub to_json_object_members :
    (s : SessionStats)
    → let v = to_json_object s in
      (member_of (codes "taskCount") v ≡ some (int64 (active_count s +ℤ puased_count s)))
      × (member_of (codes "rates") v ≡ some (int64 (s.rate_recv +ℤ s.rate_sent)))
      × (member_of (codes "activeCount") v
          ≡ (if is_pos (active_count s) then some (int64 (active_count s)) else none))
      × (member_of (codes "puasedCount") v
          ≡ (if is_pos (puased_count s) then some (int64 (puased_count s)) else none))
      × (member_of (codes "isPaused") v ≡ (if s.is_paused then some (bool_ true) else none))
unfolding listed stats_rows bytes_eq
to_json_object_members s = (
  stats_find s (codes "taskCount"),
  stats_find s (codes "rates"),
  stats_find s (codes "activeCount"),
  stats_find s (codes "puasedCount"),
  stats_find s (codes "isPaused"),
)

-- Every position that is read lies within the counters, those of the rates in both sets.
pub record IsSized (m : Metrics) (v : SessionValues) : Type 0 where
  pub num_checking : m.num_checking < length v.current
  pub num_stopped : m.num_stopped < length v.current
  pub num_downloading : m.num_downloading < length v.current
  pub num_seeding : m.num_seeding < length v.current
  pub num_queued_seeding : m.num_queued_seeding < length v.current
  pub num_queued_download : m.num_queued_download < length v.current
  pub num_error : m.num_error < length v.current
  pub queued_bytes : m.queued_bytes < length v.current
  pub wasted_bytes : m.wasted_bytes < length v.current
  pub failed_bytes : m.failed_bytes < length v.current
  pub num_peers_connected : m.num_peers_connected < length v.current
  pub num_peers_half_open : m.num_peers_half_open < length v.current
  pub has_incoming : m.has_incoming < length v.current
  pub recv : m.recv < length v.current
  pub sent : m.sent < length v.current
  pub recv_data : m.recv_data < length v.current
  pub send_data : m.send_data < length v.current
  pub limiter_up_queue : m.limiter_up_queue < length v.current
  pub limiter_down_queue : m.limiter_down_queue < length v.current
  pub queued_tracker_announces : m.queued_tracker_announces < length v.current
  pub recv_last : m.recv < length v.last
  pub sent_last : m.sent < length v.last

>>=-none :
    {A B : Type 0} (o : Option A) (k : A → Option B) → ((a : A) → k a ≡ none) → (o >>= k) ≡ none
>>=-none none k h = refl
>>=-none (some a) k h = h a

of_none-bind : {A B : Type 0} (o : Option A) (k : A → Option B) → o ≡ none → (o >>= k) ≡ none
of_none-bind o k e = rw e refl

-- The counter at a position, 0 where there is none.
pub counter : List ℤ → ℕ → ℤ
counter [] i = pos 0
counter (a ∷ xs) zero = a
counter (a ∷ xs) (suc i) = counter xs i

get_elem?-counter : (xs : List ℤ) (i : ℕ) → i < length xs → get_elem? xs i ≡ some (counter xs i)
unfolding counter
get_elem?-counter [] i h = absurd (omega arith)
get_elem?-counter (a ∷ xs) zero h = refl
get_elem?-counter (a ∷ xs) (suc i) h = get_elem?-counter xs i (omega arith)

module _ (m : Metrics) (per_second : ℤ → ℕ → ℤ) (v : SessionValues) where
  -- The statistics with each of their counters, the rates over the window, and the clocks; only the
  -- pausing of the session is left as it was.
  abbrev pub of_counters : SessionStats → ℤ → ℕ → SessionStats
  of_counters blank uptime uptime_ms =
      let now = counter v.current in
      let before = counter v.last in
      let window = sub_u64 v.current_time v.last_time in
      record {
        bytes_recv = now m.recv;
        bytes_sent = now m.sent;
        bytes_data_recv = now m.recv_data;
        bytes_data_sent = now m.send_data;
        rate_recv = per_second (now m.recv -ℤ before m.recv) window;
        rate_sent = per_second (now m.sent -ℤ before m.sent) window;
        bytes_failed = now m.failed_bytes;
        bytes_wasted = now m.wasted_bytes;
        bytes_queued = now m.queued_bytes;
        num_checking = to_int (now m.num_checking);
        num_downloading = to_int (now m.num_downloading);
        num_seeding = to_int (now m.num_seeding);
        num_stopped = to_int (now m.num_stopped);
        num_queued = to_int (now m.num_queued_seeding +ℤ now m.num_queued_download);
        num_error = to_int (now m.num_error);
        num_peers_connected = to_int (now m.num_peers_connected);
        num_peers_half_open = to_int (now m.num_peers_half_open);
        limit_up_queue = to_int (now m.limiter_up_queue);
        limit_down_queue = to_int (now m.limiter_down_queue);
        queued_tracker_announces = to_int (now m.queued_tracker_announces);
        has_incoming = is_nonzero (to_int (now m.has_incoming));
        is_paused = blank.is_paused;
        uptime = uptime;
        uptime_ms = uptime_ms;
      }

  -- If every position that is read lies within the counters, the statistics are read without a
  -- fault, and each of them is its counter.
  pub get_session_stats-of_counters :
      (blank : SessionStats) (uptime : ℤ) (uptime_ms : ℕ)
      → IsSized m v
      → m.send_data ≤ length v.last
      → get_session_stats m per_second blank uptime uptime_ms v
        ≡ some (of_counters blank uptime uptime_ms)
  unfolding get_session_stats totals rates others
  get_session_stats-of_counters blank uptime uptime_ms z long =
      let read = get_elem?-counter v.current in
      let large : ltb (length v.current) m.queued_tracker_announces ≡ false =
        ground (arith, z.queued_tracker_announces) in
      let window : leb m.send_data (length v.last) ≡ true = ground arith in
      rw
        (
          large,
          window,
          read m.num_checking z.num_checking,
          read m.num_downloading z.num_downloading,
          read m.num_seeding z.num_seeding,
          read m.num_stopped z.num_stopped,
          read m.num_queued_seeding z.num_queued_seeding,
          read m.num_queued_download z.num_queued_download,
          read m.num_error z.num_error,
          read m.recv z.recv,
          read m.sent z.sent,
          read m.recv_data z.recv_data,
          read m.send_data z.send_data,
          get_elem?-counter v.last m.recv z.recv_last,
          get_elem?-counter v.last m.sent z.sent_last,
          read m.failed_bytes z.failed_bytes,
          read m.queued_bytes z.queued_bytes,
          read m.wasted_bytes z.wasted_bytes,
          read m.num_peers_connected z.num_peers_connected,
          read m.num_peers_half_open z.num_peers_half_open,
          read m.limiter_up_queue z.limiter_up_queue,
          read m.limiter_down_queue z.limiter_down_queue,
          read m.queued_tracker_announces z.queued_tracker_announces,
          read m.has_incoming z.has_incoming,
        )
        refl

module _ (m : Metrics) (per_second : ℤ → ℕ → ℤ) (v : SessionValues) where
  others-none :
      (uptime : ℤ) (uptime_ms : ℕ) (s : SessionStats)
      → get_elem? v.current m.queued_tracker_announces ≡ none
      → others m per_second uptime uptime_ms v s ≡ none
  unfolding others
  others-none uptime uptime_ms s e = >>=-none (get_elem? v.current m.failed_bytes) _ λ _.
      >>=-none (get_elem? v.current m.queued_bytes) _ λ _.
        >>=-none (get_elem? v.current m.wasted_bytes) _ λ _.
          >>=-none (get_elem? v.current m.num_peers_connected) _ λ _.
            >>=-none (get_elem? v.current m.num_peers_half_open) _ λ _.
              >>=-none (get_elem? v.current m.limiter_up_queue) _ λ _.
                >>=-none (get_elem? v.current m.limiter_down_queue) _
                  λ _. of_none-bind (get_elem? v.current m.queued_tracker_announces) _ e

  -- The guard of getSessionStats lets counters through that end just before the last position read,
  -- and that read fails.
  pub get_session_stats_short :
      (blank : SessionStats) (uptime : ℤ) (uptime_ms : ℕ)
      → length v.current ≡ m.queued_tracker_announces
      → get_session_stats m per_second blank uptime uptime_ms v ≡ none
  unfolding get_session_stats
  get_session_stats_short blank uptime uptime_ms h =
      let passed : ltb (length v.current) m.queued_tracker_announces ≡ false = ground arith in
      let missing = get_elem?-ge v.current m.queued_tracker_announces (omega arith) in
      rw passed (
        >>=-none (totals m per_second v blank) _
          λ a. >>=-none (rates m per_second v a) _ λ b. others-none uptime uptime_ms b missing)
