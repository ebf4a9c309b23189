-- ===== src/Witness/Samples.antt =====
-- Two hashes, an API over a number, and a small libtorrent, on which the theorems are tried.
use kedge.Base.{
  Bool, ℕ, ◌+◌, ◌≡◌, ◌≢◌, refl, true, false, Option, none, some, [], ◌∷◌, ◌==◌, ==_iff, length, all,
  ltb, ◌<◌, All, not, if◌then◌else◌, arith,
}
use kedge.Base.Int.{pos}
use kedge.Bytes.{Bytes, codes, bytes_eq}
use kedge.Util.{HashText, IsHexText, is_hex_digit}
use kedge.HttpUtil.{Verb, Request}
use kedge.Json.{Json, null, bool_}
use kedge.Handlers.{SheathOps}
use kedge.Stats.{SessionValues}
use kedge.Sheath.Status.{TorrentStatus}
use kedge.Sheath.Control.{FlagOps, AreFlags}
use kedge.Sheath.Library.{TorrentLib, IsHandleEquality}
use kedge.Sheath.Alerts.{SheathState, Surroundings}

-- A text without a byte, by a test.
pub lacks : (b : ℕ) (s : Bytes) → all (λ c. not (c == b)) s ≡ true → All (λ c. c ≢ b) s
lacks b [] h = tt
lacks b (c ∷ s) h = (ground arith, lacks b s (ground arith))

pub above_zero : (s : Bytes) → all (λ c. ltb 0 c) s ≡ true → All (λ c. 0 < c) s
above_zero [] h = tt
above_zero (c ∷ s) h = (ground arith, above_zero s (ground arith))

pub are_bytes : (s : Bytes) → all (λ c. ltb c 256) s ≡ true → All (λ c. c < 256) s
are_bytes [] h = tt
are_bytes (c ∷ s) h = (ground arith, are_bytes s (ground arith))

pub data Sha : Type 0 where
  zeros ones : Sha

abbrev pub sha_write : Sha → Bytes
sha_write zeros = codes "0000000000000000000000000000000000000000"
sha_write ones = codes "ffffffffffffffffffffffffffffffffffffffff"

unfoldable pub sha_read : Bytes → Option Sha
unfolding bytes_eq
sha_read s =
    if bytes_eq s (codes "0000000000000000000000000000000000000000")
    then some zeros
    else if bytes_eq s (codes "ffffffffffffffffffffffffffffffffffffffff")
    then some ones
    else none

abbrev pub sha_text : HashText
sha_text = record { Hash = Sha; write = sha_write; read = sha_read }

length-sha_write : (h : Sha) → length (sha_write h) ≡ 40
length-sha_write zeros = refl
length-sha_write ones = refl

all-sha_write : (h : Sha) → all is_hex_digit (sha_write h) ≡ true
unfolding is_hex_digit
all-sha_write zeros = refl
all-sha_write ones = refl

sha_read-sha_write : (h : Sha) → sha_read (sha_write h) ≡ some h
unfolding sha_read bytes_eq
sha_read-sha_write zeros = refl
sha_read-sha_write ones = refl

pub sha_text-IsHexText : IsHexText sha_text
sha_text-IsHexText = record {
  write_length = length-sha_write;
  write_digits = all-sha_write;
  read-write = sha_read-sha_write;
}

-- The state counts the calls.
abbrev pub counting : SheathOps Sha ℕ
counting = record {
  dir_store = λ s. codes "/store";
  session_info = λ s. null;
  session_stats = λ s. null;
  sync_stats = λ s. null;
  torrents = λ s. null;
  torrent = λ h f s. bool_ true;
  exists = λ h s. true;
  drop_torrent = λ h d s. (s + 1, true);
  pause_resume_torrent = λ h s. (s + 10, true);
  resume_torrent = λ h s. (s + 100, true);
  add_torrent = λ b d s. (s + 1000, true);
  add_magnet = λ u s. (s + 10000, true);
  toggle_pause_resume = λ s. (s, true);
}

abbrev pub text : Json → Bytes
text v = codes "{}"

abbrev pub ask : Verb → Bytes → Request
ask verb target = record {
  method = verb;
  target = target;
  version = 11;
  keep_alive = true;
  content_length = none;
  content_type = none;
  save_path = none;
  body = [];
}

abbrev pub torrent_path : Bytes
torrent_path = codes "/api/torrent/0000000000000000000000000000000000000000/start"

abbrev pub sample_status : TorrentStatus Sha
sample_status = record {
  added_time = pos 0;
  state = pos 0;
  flags = pos 0;
  save_path = codes "/store";
  name = [];
  info_hash = zeros;
  current_tracker = [];
  next_announce = pos 0;
  active_duration = pos 0;
  is_finished = false;
  progress = 0;
  progress_ppm = pos 1000000;
  total_done = pos 0;
  total_wanted = pos 0;
  completed_time = pos 0;
  finished_duration = pos 0;
  seeding_duration = pos 0;
  total_download = pos 0;
  total_upload = pos 0;
  all_time_download = pos 0;
  all_time_upload = pos 0;
  total_payload_download = pos 5;
  total_payload_upload = pos 0;
  total_failed_bytes = pos 0;
  total_redundant_bytes = pos 0;
  total = pos 0;
  total_wanted_done = pos 0;
  last_seen_complete = pos 0;
  last_download = pos 0;
  last_upload = pos 0;
  download_rate = pos 0;
  upload_rate = pos 0;
  download_payload_rate = pos 0;
  upload_payload_rate = pos 0;
  num_seeds = pos 0;
  num_peers = pos 0;
  num_complete = pos 0;
  num_incomplete = pos 0;
  list_seeds = pos 0;
  list_peers = pos 0;
  connect_candidates = pos 0;
  num_pieces = pos 0;
  distributed_full_copies = pos 0;
  distributed_fraction = pos 0;
  block_size = pos 0;
  num_uploads = pos 0;
  num_connections = pos 0;
  moving_storage = false;
  is_seeding = false;
  has_metadata = true;
  has_incoming = false;
  need_save_resume = true;
  errc = pos 0;
}

abbrev pub sample_lib : TorrentLib
sample_lib = record {
  hash_text = sha_text;
  Handle = ℕ;
  same = λ h k. h == k;
  Params = Sha;
  info_hash = λ h. h;
  write_resume_data_buf = λ h. codes "resume";
  Peer = ℕ;
  DhtStats = ℕ;
}

pub sample_lib-IsHandleEquality : IsHandleEquality sample_lib
sample_lib-IsHandleEquality = record { same_iff = ==_iff }

abbrev pub no_values : SessionValues
no_values = record { current = []; last = []; current_time = 0; last_time = 0 }

abbrev pub quiet : SheathState sample_lib
quiet = record {
  peer = none;
  values = no_values;
  all_handles = (1, sample_status) ∷ [];
  num_outstanding_resume_data = pos 1;
  dht = none;
}

abbrev pub around : Surroundings sample_lib
around = record {
  dir_moved = codes "/moved";
  dir_resumes = codes "/conf/.resume";
  status = λ h. sample_status;
  exists = λ d. true;
}

-- The two flags themselves.
abbrev pub Flags : Type 0
Flags = Bool × Bool

abbrev pub plain_flags : FlagOps Flags
plain_flags = record {
  auto_managed = λ t. t.0;
  paused = λ t. t.1;
  set_auto_managed = λ b t. (b, t.1);
  pause = λ t. (t.0, true);
  resume = λ t. (t.0, false);
}

pub plain_flags-AreFlags : AreFlags plain_flags
plain_flags-AreFlags = record {
  set-auto_managed = λ b t. refl;
  set-paused = λ b t. refl;
  pause-auto_managed = λ t. refl;
  pause-paused = λ t. refl;
  resume-auto_managed = λ t. refl;
  resume-paused = λ t. refl;
}
