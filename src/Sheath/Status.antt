-- ===== src/Sheath/Status.antt =====
-- torrent_status_to_json_obj of sheath.cpp: the JSON of a torrent's status.
use Prim.Native.String.{String}
use kedge.Base.{ℕ, ◌/◌, suc, ◌≡◌, refl, Bool, true, List, [], ◌∷◌, ltb}
use kedge.Base.Int.{ℤ, pos, negsuc, ◌+ℤ◌, sub_ℕ, ltb_ℤ, is_pos}
use kedge.Bytes.{Bytes, codes, bytes_eq}
use kedge.Util.{HashText, to_hex}
use kedge.Json.{Json, bool_, int64, double_, string, object, Members, end, find_key}
use kedge.Json.Rows.{Row, always, row, build, listed, find_key-build}

-- The members of lt::torrent_status that the source reads. `next_announce`, `last_download` and
-- `last_upload` count nanoseconds, the other durations and times seconds.
pub record TorrentStatus (Hash : Type 0) : Type 0 where
  pub added_time : ℤ
  pub state : ℤ
  pub flags : ℤ
  pub save_path : Bytes
  pub name : Bytes
  pub info_hash : Hash
  pub current_tracker : Bytes
  pub next_announce : ℤ
  pub active_duration : ℤ
  pub is_finished : Bool
  pub progress : ℕ
  pub progress_ppm : ℤ
  pub total_done : ℤ
  pub total_wanted : ℤ
  pub completed_time : ℤ
  pub finished_duration : ℤ
  pub seeding_duration : ℤ
  pub total_download : ℤ
  pub total_upload : ℤ
  pub all_time_download : ℤ
  pub all_time_upload : ℤ
  pub total_payload_download : ℤ
  pub total_payload_upload : ℤ
  pub total_failed_bytes : ℤ
  pub total_redundant_bytes : ℤ
  pub total : ℤ
  pub total_wanted_done : ℤ
  pub last_seen_complete : ℤ
  pub last_download : ℤ
  pub last_upload : ℤ
  pub download_rate : ℤ
  pub upload_rate : ℤ
  pub download_payload_rate : ℤ
  pub upload_payload_rate : ℤ
  pub num_seeds : ℤ
  pub num_peers : ℤ
  pub num_complete : ℤ
  pub num_incomplete : ℤ
  pub list_seeds : ℤ
  pub list_peers : ℤ
  pub connect_candidates : ℤ
  pub num_pieces : ℤ
  pub distributed_full_copies : ℤ
  pub distributed_fraction : ℤ
  pub block_size : ℤ
  pub num_uploads : ℤ
  pub num_connections : ℤ
  pub moving_storage : Bool
  pub is_seeding : Bool
  pub has_metadata : Bool
  pub has_incoming : Bool
  pub need_save_resume : Bool
  pub errc : ℤ

-- `duration_cast<seconds>` of nanoseconds, which rounds towards zero.
unfoldable pub to_seconds : ℤ → ℤ
to_seconds (pos n) = pos (n / 1000000000)
to_seconds (negsuc n) = sub_ℕ 0 (suc n / 1000000000)

-- `time_point::min()` with its 64 bits.
abbrev pub hr_min : ℤ
hr_min = negsuc 9223372036854775807

abbrev pub positive : String → ℤ → Row
positive k n = row (is_pos n) (codes k) (int64 n)

abbrev pub is_nonzero : ℤ → Bool
is_nonzero (pos n) = ltb 0 n
is_nonzero (negsuc n) = true

abbrev pub nonzero : String → ℤ → Row
nonzero k n = row (is_nonzero n) (codes k) (int64 n)

abbrev pub flag : String → Bool → Row
flag k b = row b (codes k) (bool_ b)

-- A time that is given if it is not the clock's smallest.
abbrev pub since_epoch : String → ℤ → Row
since_epoch k t = row (ltb_ℤ hr_min t) (codes k) (int64 (to_seconds t))

module _ (t : HashText) where
  unfoldable pub status_rows : TorrentStatus t.Hash → List Row
  unfolding to_hex to_seconds
  status_rows st =
      always (codes "added_time") (int64 st.added_time)
      ∷ always (codes "state") (int64 st.state)
      ∷ always (codes "flags") (int64 st.flags)
      ∷ always (codes "save_path") (string st.save_path)
      ∷ always (codes "name") (string st.name)
      ∷ always (codes "info_hash") (string (to_hex t st.info_hash))
      ∷ always (codes "current_tracker") (string st.current_tracker)
      ∷ always (codes "next_announce") (int64 (to_seconds st.next_announce))
      ∷ always (codes "active_duration") (int64 st.active_duration)
      ∷ always (codes "is_finished") (bool_ st.is_finished)
      ∷ always (codes "progress") (double_ st.progress)
      ∷ always (codes "progress_ppm") (int64 st.progress_ppm)
      ∷ always (codes "rates") (int64 (st.download_payload_rate +ℤ st.upload_payload_rate))
      ∷ always (codes "total_done") (int64 st.total_done)
      ∷ always (codes "total_wanted") (int64 st.total_wanted)
      ∷ positive "completed_time" st.completed_time
      ∷ nonzero "finished_duration" st.finished_duration
      ∷ nonzero "seeding_duration" st.seeding_duration
      ∷ positive "total_download" st.total_download
      ∷ positive "total_upload" st.total_upload
      ∷ positive "all_time_download" st.all_time_download
      ∷ positive "all_time_upload" st.all_time_upload
      ∷ positive "total_payload_download" st.total_payload_download
      ∷ positive "total_payload_upload" st.total_payload_upload
      ∷ positive "total_failed_bytes" st.total_failed_bytes
      ∷ positive "total_redundant_bytes" st.total_redundant_bytes
      ∷ positive "total" st.total
      ∷ positive "total_wanted_done" st.total_wanted_done
      ∷ positive "last_seen_complete" st.last_seen_complete
      ∷ since_epoch "last_download" st.last_download
      ∷ since_epoch "last_upload" st.last_upload
      ∷ positive "download_rate" st.download_rate
      ∷ positive "upload_rate" st.upload_rate
      ∷ positive "download_payload_rate" st.download_payload_rate
      ∷ positive "upload_payload_rate" st.upload_payload_rate
      ∷ positive "num_seeds" st.num_seeds
      ∷ positive "num_peers" st.num_peers
      ∷ positive "num_complete" st.num_complete
      ∷ positive "num_incomplete" st.num_incomplete
      ∷ positive "list_seeds" st.list_seeds
      ∷ positive "list_peers" st.list_peers
      ∷ positive "connect_candidates" st.connect_candidates
      ∷ positive "num_pieces" st.num_pieces
      ∷ positive "distributed_full_copies" st.distributed_full_copies
      ∷ positive "distributed_fraction" st.distributed_fraction
      ∷ positive "block_size" st.block_size
      ∷ positive "num_uploads" st.num_uploads
      ∷ positive "num_connections" st.num_connections
      ∷ flag "moving_storage" st.moving_storage
      ∷ flag "is_seeding" st.is_seeding
      ∷ flag "has_metadata" st.has_metadata
      ∷ flag "has_incoming" st.has_incoming
      ∷ nonzero "errc" st.errc
      ∷ []

  unfoldable pub torrent_status_to_json_obj : TorrentStatus t.Hash → Json
  unfolding status_rows build
  torrent_status_to_json_obj st = object (build end (status_rows st))

  -- Every key of a torrent's JSON is emplaced once: what stands at a key is the value of the one
  -- statement for it, if its condition holds.
  pub torrent_status_members :
      (st : TorrentStatus t.Hash) (k : Bytes)
      → (ms : Members) × (torrent_status_to_json_obj st ≡ object ms)
        × (find_key k ms ≡ listed k (status_rows st))
  unfolding torrent_status_to_json_obj bytes_eq
  torrent_status_members st k =
      (build end (status_rows st), refl, find_key-build (status_rows st) k)
