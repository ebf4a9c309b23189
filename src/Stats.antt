-- ===== src/Stats.antt =====
-- session_stats.hpp and session_values.hpp: the counters of the session and their JSON.
pub mod Rate
pub mod Fields
pub mod Sized
pub mod Uptime
use Prim.Native.String.{String}
use kedge.Base.{
  ℕ, zero, suc, ◌+◌, ◌-◌, ◌*◌, ◌%◌, ◌^◌, Bool, true, false, not, Option, none, some, List, [], ◌∷◌,
  ltb, leb, ◌==◌, if◌then◌else◌, length, get_elem?,
}
use kedge.Base.Int.{ℤ, pos, negsuc, ◌+ℤ◌, ◌-ℤ◌, is_pos}
use kedge.Bytes.{Bytes, codes}
use kedge.Number.{to_int}
use kedge.Json.{Json, bool_, int64, uint64, object, end}
use kedge.Json.Rows.{Row, always, row, build}

pub record SessionStats : Type 0 where
  pub bytes_recv : ℤ
  pub bytes_sent : ℤ
  pub bytes_data_recv : ℤ
  pub bytes_data_sent : ℤ
  pub rate_recv : ℤ
  pub rate_sent : ℤ
  pub bytes_failed : ℤ
  pub bytes_wasted : ℤ
  pub bytes_queued : ℤ
  pub num_checking : ℤ
  pub num_downloading : ℤ
  pub num_seeding : ℤ
  pub num_stopped : ℤ
  pub num_queued : ℤ
  pub num_error : ℤ
  pub num_peers_connected : ℤ
  pub num_peers_half_open : ℤ
  pub limit_up_queue : ℤ
  pub limit_down_queue : ℤ
  pub queued_tracker_announces : ℤ
  pub has_incoming : Bool
  pub is_paused : Bool
  pub uptime : ℤ
  pub uptime_ms : ℕ

abbrev pub positive : String → ℤ → Row
positive k n = row (is_pos n) (codes k) (int64 n)

abbrev pub active_count : SessionStats → ℤ
active_count s = s.num_checking +ℤ s.num_downloading +ℤ s.num_seeding

-- `puasedCount` in the source.
abbrev pub puased_count : SessionStats → ℤ
puased_count s = s.num_queued +ℤ s.num_stopped

-- The statements of `to_json_object` in their order.
unfoldable pub stats_rows : SessionStats → List Row
stats_rows s =
    always (codes "rates") (int64 (s.rate_recv +ℤ s.rate_sent))
    ∷ positive "bytesRecv" s.bytes_recv
    ∷ positive "bytesSent" s.bytes_sent
    ∷ positive "bytesDataRecv" s.bytes_data_recv
    ∷ positive "bytesDataSent" s.bytes_data_sent
    ∷ positive "rateRecv" s.rate_recv
    ∷ positive "rateSent" s.rate_sent
    ∷ positive "bytesFailed" s.bytes_failed
    ∷ positive "bytesQueued" s.bytes_queued
    ∷ positive "bytesWasted" s.bytes_wasted
    ∷ positive "numChecking" s.num_checking
    ∷ positive "numDownloading" s.num_downloading
    ∷ positive "numSeeding" s.num_seeding
    ∷ positive "numStopped" s.num_stopped
    ∷ positive "numQueued" s.num_queued
    ∷ positive "numError" s.num_error
    ∷ positive "numPeersConnected" s.num_peers_connected
    ∷ positive "numPeersHalfOpen" s.num_peers_half_open
    ∷ positive "limitUpQueue" s.limit_up_queue
    ∷ positive "limitDownQueue" s.limit_down_queue
    ∷ row s.has_incoming (codes "hasIncoming") (bool_ true)
    ∷ row s.is_paused (codes "isPaused") (bool_ true)
    ∷ positive "activeCount" (active_count s)
    ∷ positive "puasedCount" (puased_count s)
    ∷ always (codes "taskCount") (int64 (active_count s +ℤ puased_count s))
    ∷ positive "uptime" s.uptime
    ∷ row (ltb 0 s.uptime_ms) (codes "uptimeMs") (uint64 s.uptime_ms)
    ∷ []

unfoldable pub to_json_object : SessionStats → Json
unfolding stats_rows build
to_json_object s = object (build end (stats_rows s))

-- The two sets of counters and their timestamps, a microsecond clock of 64 bits.
pub record SessionValues : Type 0 where
  pub current : List ℤ
  pub last : List ℤ
  pub current_time : ℕ
  pub last_time : ℕ

abbrev pub replicate {ℓ} : {A : Type ℓ} → ℕ → A → List A
replicate zero a = []
replicate (suc n) a = a ∷ replicate n a

-- The constructor, with the count of libtorrent's metrics, and what the two times happen to hold.
unfoldable pub new_values : ℕ → ℕ → ℕ → SessionValues
new_values n t0 t1 = record {
  current = replicate n (pos 0);
  last = replicate n (pos 0);
  current_time = t0;
  last_time = t1;
}

-- Unsigned subtraction.
abbrev pub sub_u64 : ℕ → ℕ → ℕ
sub_u64 a b = (a + 18446744073709551616 - b) % 18446744073709551616

unfoldable pub update_counters : List ℤ → ℕ → SessionValues → SessionValues
update_counters sc t v =
    if ltb 2000000 (sub_u64 t v.last_time)
    then record { current = sc; last = v.current; current_time = t; last_time = v.current_time }
    else record v { current = sc; current_time = t }

-- The positions of the metrics that are read, as `lt::find_metric_idx` gives them.
pub record Metrics : Type 0 where
  pub num_checking : ℕ
  pub num_stopped : ℕ
  pub num_downloading : ℕ
  pub num_seeding : ℕ
  pub num_queued_seeding : ℕ
  pub num_queued_download : ℕ
  pub num_error : ℕ
  pub queued_bytes : ℕ
  pub wasted_bytes : ℕ
  pub failed_bytes : ℕ
  pub num_peers_connected : ℕ
  pub num_peers_half_open : ℕ
  pub has_incoming : ℕ
  pub recv : ℕ
  pub sent : ℕ
  pub recv_data : ℕ
  pub send_data : ℕ
  pub limiter_up_queue : ℕ
  pub limiter_down_queue : ℕ
  pub queued_tracker_announces : ℕ

abbrev pub is_nonzero : ℤ → Bool
is_nonzero (pos n) = not (n == 0)
is_nonzero (negsuc n) = true

infixl 5 ◌>>=◌
abbrev pub ◌>>=◌ {ℓ κ} : {A : Type ℓ} {B : Type κ} → Option A → (A → Option B) → Option B
none >>= k = none
some a >>= k = k a

-- `per_second n w` is `int(n / (w / 1000000.f))`, computed in single precision.
module _ (m : Metrics) (per_second : ℤ → ℕ → ℤ) where
  unfoldable pub rates : SessionValues → SessionStats → Option SessionStats
  rates v s =
      let computed = do
        r0 ← get_elem? v.current m.recv
        r1 ← get_elem? v.last m.recv
        s0 ← get_elem? v.current m.sent
        s1 ← get_elem? v.last m.sent
        some (record s {
          rate_recv = per_second (r0 -ℤ r1) (sub_u64 v.current_time v.last_time);
          rate_sent = per_second (s0 -ℤ s1) (sub_u64 v.current_time v.last_time);
        })
      in if leb m.send_data (length v.last) then computed else some s

  -- The counts of torrents and the totals of bytes.
  unfoldable pub totals : SessionValues → SessionStats → Option SessionStats
  unfolding to_int
  totals v s = do
    checking ← get_elem? v.current m.num_checking
    downloading ← get_elem? v.current m.num_downloading
    seeding ← get_elem? v.current m.num_seeding
    stopped ← get_elem? v.current m.num_stopped
    queued_s ← get_elem? v.current m.num_queued_seeding
    queued_d ← get_elem? v.current m.num_queued_download
    errors ← get_elem? v.current m.num_error
    recv ← get_elem? v.current m.recv
    sent ← get_elem? v.current m.sent
    recv_data ← get_elem? v.current m.recv_data
    send_data ← get_elem? v.current m.send_data
    some (record s {
      num_checking = to_int checking;
      num_downloading = to_int downloading;
      num_seeding = to_int seeding;
      num_stopped = to_int stopped;
      num_queued = to_int (queued_s +ℤ queued_d);
      num_error = to_int errors;
      bytes_recv = recv;
      bytes_sent = sent;
      bytes_data_recv = recv_data;
      bytes_data_sent = send_data;
    })

  -- The counters of the disk, the peers and the queues, and the clocks.
  unfoldable pub others : ℤ → ℕ → SessionValues → SessionStats → Option SessionStats
  unfolding to_int
  others uptime uptime_ms v s = do
    failed ← get_elem? v.current m.failed_bytes
    queued ← get_elem? v.current m.queued_bytes
    wasted ← get_elem? v.current m.wasted_bytes
    connected ← get_elem? v.current m.num_peers_connected
    half_open ← get_elem? v.current m.num_peers_half_open
    up_queue ← get_elem? v.current m.limiter_up_queue
    down_queue ← get_elem? v.current m.limiter_down_queue
    announces ← get_elem? v.current m.queued_tracker_announces
    incoming ← get_elem? v.current m.has_incoming
    some (record s {
      bytes_failed = failed;
      bytes_queued = queued;
      bytes_wasted = wasted;
      num_peers_connected = to_int connected;
      num_peers_half_open = to_int half_open;
      limit_up_queue = to_int up_queue;
      limit_down_queue = to_int down_queue;
      queued_tracker_announces = to_int announces;
      has_incoming = is_nonzero (to_int incoming);
      uptime = uptime;
      uptime_ms = uptime_ms;
    })

  -- `blank` is what the uninitialised local `s` holds. `none` is a read past the end of the counters.
  unfoldable pub get_session_stats : SessionStats → ℤ → ℕ → SessionValues → Option SessionStats
  unfolding totals rates others
  get_session_stats blank uptime uptime_ms v =
      let filled = do a ← totals v blank; b ← rates v a; others uptime uptime_ms v b
      in if ltb (length v.current) m.queued_tracker_announces then some blank else filled
