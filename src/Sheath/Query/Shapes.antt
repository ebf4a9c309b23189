-- ===== src/Sheath/Query/Shapes.antt =====
-- sheath.cpp, session_stats.hpp: the types of the members of each answer.
use kedge.Base.{
  &&-true, arith, ℕ, suc, ◌≡◌, refl, true, false, inl, inr, Option, List, [], ◌∷◌, Bool-cases,
  Option-cases,
}
use kedge.Bytes.{codes}
use kedge.Util.{HashText}
use kedge.Json.{object, end}
use kedge.Json.Rows.{build}
use kedge.Json.Shape.{
  Shape, integer, real, text, flag, list_of, record_of, Fields, no_fields, field, each_field,
  all_items, validate,
}
use kedge.Json.Shape.Build.{keys_fit, fields_fit, validate-build}
use kedge.Stats.{SessionStats, stats_rows, to_json_object}
use kedge.Handlers.{is_null, QueryFlag, query_basic, query_peers, query_files}
use kedge.Sheath.Status.{TorrentStatus, status_rows, torrent_status_to_json_obj}
use kedge.Sheath.Query.{
  PeerInfo, peer_rows, peers_json, FileEntry, OpenFileState, file_rows, state_rows, states_of,
  files_json, is_at, next, TorrentView, statuses_json, statuses, view_json, get_torrent,
  get_sync_stats, SessionInfo, info_rows, get_session_info,
}

abbrev stats_fields : Fields
stats_fields = each_field true integer ("rates" ∷ "taskCount" ∷ []) (
    each_field false integer
      ("bytesRecv" ∷ "bytesSent" ∷ "bytesDataRecv" ∷ "bytesDataSent" ∷ "rateRecv" ∷ "rateSent"
        ∷ "bytesFailed" ∷ "bytesQueued" ∷ "bytesWasted" ∷ "numChecking" ∷ "numDownloading"
        ∷ "numSeeding" ∷ "numStopped" ∷ "numQueued" ∷ "numError" ∷ "numPeersConnected"
        ∷ "numPeersHalfOpen" ∷ "limitUpQueue" ∷ "limitDownQueue" ∷ "activeCount" ∷ "puasedCount"
        ∷ "uptime" ∷ "uptimeMs" ∷ [])
      (each_field false flag ("hasIncoming" ∷ "isPaused" ∷ []) no_fields))

abbrev pub stats_shape : Shape
stats_shape = record_of stats_fields

abbrev status_fields : Fields
status_fields =
    each_field true integer
      ("added_time" ∷ "state" ∷ "flags" ∷ "next_announce" ∷ "active_duration" ∷ "progress_ppm"
        ∷ "rates" ∷ "total_done" ∷ "total_wanted" ∷ [])
      (each_field true text ("save_path" ∷ "name" ∷ "info_hash" ∷ "current_tracker" ∷ []) (
        each_field true flag ("is_finished" ∷ []) (
          each_field true real ("progress" ∷ []) (
            each_field false integer
              ("completed_time" ∷ "finished_duration" ∷ "seeding_duration" ∷ "total_download"
                ∷ "total_upload" ∷ "all_time_download" ∷ "all_time_upload"
                ∷ "total_payload_download" ∷ "total_payload_upload" ∷ "total_failed_bytes"
                ∷ "total_redundant_bytes" ∷ "total" ∷ "total_wanted_done" ∷ "last_seen_complete"
                ∷ "last_download" ∷ "last_upload" ∷ "download_rate" ∷ "upload_rate"
                ∷ "download_payload_rate" ∷ "upload_payload_rate" ∷ "num_seeds" ∷ "num_peers"
                ∷ "num_complete" ∷ "num_incomplete" ∷ "list_seeds" ∷ "list_peers"
                ∷ "connect_candidates" ∷ "num_pieces" ∷ "distributed_full_copies"
                ∷ "distributed_fraction" ∷ "block_size" ∷ "num_uploads" ∷ "num_connections" ∷ "errc"
                ∷ [])
              (each_field false flag
                ("moving_storage" ∷ "is_seeding" ∷ "has_metadata" ∷ "has_incoming" ∷ [])
                no_fields)))))

abbrev pub status_shape : Shape
status_shape = record_of status_fields

abbrev peer_fields : Fields
peer_fields = each_field true text ("client" ∷ "ip" ∷ []) (
    each_field true integer
      ("port" ∷ "flag" ∷ "source" ∷ "progress" ∷ "down_speed" ∷ "up_speed" ∷ "num_pieces" ∷ [])
      (each_field false flag ("uTP" ∷ []) no_fields))

abbrev pub peer_shape : Shape
peer_shape = record_of peer_fields

abbrev file_fields : Fields
file_fields = each_field true text ("name" ∷ []) (
    each_field true integer ("size" ∷ "progress" ∷ "priority" ∷ [])
      (each_field true flag ("complete" ∷ []) (each_field false text ("state" ∷ []) no_fields)))

abbrev pub file_shape : Shape
file_shape = record_of file_fields

abbrev info_fields : Fields
info_fields =
    each_field true text ("peerID" ∷ "listenInterfaces" ∷ "stored" ∷ "version" ∷ [])
      (each_field true integer ("peerPort" ∷ "uptime" ∷ "uptimeMs" ∷ []) no_fields)

abbrev pub info_shape : Shape
info_shape = record_of info_fields

abbrev pub sync_shape : Shape
sync_shape = record_of (
    field (codes "stats") true stats_shape
      (field (codes "torrents") true (list_of status_shape) no_fields))

-- The shape of a torrent's answer by what is asked.
abbrev pub view_shape : QueryFlag → Shape
view_shape query_basic = status_shape
view_shape query_peers = list_of peer_shape
view_shape query_files = list_of file_shape

pub stats-validate : (s : SessionStats) → validate stats_shape (to_json_object s) ≡ true
unfolding to_json_object keys_fit fields_fit stats_rows
stats-validate s = validate-build stats_fields (stats_rows s) refl refl

pub info-validate : (s : SessionInfo) → validate info_shape (get_session_info s) ≡ true
unfolding get_session_info keys_fit fields_fit info_rows
info-validate s = validate-build info_fields (info_rows s) refl refl

peers-validate : (is_ : List PeerInfo) → all_items (validate peer_shape) (peers_json is_) ≡ true
unfolding peers_json keys_fit fields_fit peer_rows
peers-validate [] = refl
peers-validate (i ∷ is_) =
    &&-true (validate peer_shape (object (build end (peer_rows i)))) _
      (validate-build peer_fields (peer_rows i) refl refl) (peers-validate is_)

shut-validate : (e : FileEntry) → validate file_shape (object (build end (file_rows e []))) ≡ true
unfolding keys_fit fields_fit file_rows
shut-validate e = validate-build file_fields (file_rows e []) refl refl

open-validate :
    (e : FileEntry) (fs : List OpenFileState)
    → validate file_shape (object (build end (file_rows e (states_of fs)))) ≡ true
unfolding keys_fit fields_fit file_rows states_of state_rows
open-validate e [] = validate-build file_fields (file_rows e []) refl refl
open-validate e (f ∷ fs) = validate-build file_fields (file_rows e (state_rows f)) refl refl

files-validate :
    (i : ℕ) (es : List FileEntry) (fs : List OpenFileState)
    → all_items (validate file_shape) (files_json i es fs) ≡ true
unfolding files_json
files-validate i [] fs = refl
files-validate i (e ∷ es) fs = elim (Bool-cases (is_at i fs)) [
  | inl y ↦ rw y (&&-true _ _ (open-validate e fs) (files-validate (suc i) es (next fs)))
  | inr n ↦ rw n (&&-true _ _ (shut-validate e) (files-validate (suc i) es fs))
]

module _ (t : HashText) where
  status-validate :
      (st : TorrentStatus t.Hash) → validate status_shape (torrent_status_to_json_obj t st) ≡ true
  unfolding torrent_status_to_json_obj keys_fit fields_fit status_rows
  status-validate st = validate-build status_fields (status_rows t st) refl refl

  pub statuses-validate :
      (sts : List (TorrentStatus t.Hash))
      → all_items (validate status_shape) (statuses_json t sts) ≡ true
  unfolding statuses_json
  statuses-validate [] = refl
  statuses-validate (st ∷ sts) = &&-true _ _ (status-validate st) (statuses-validate sts)

  view-validate :
      (v : TorrentView t.Hash) (q : QueryFlag) → validate (view_shape q) (view_json t v q) ≡ true
  unfolding view_json validate
  view-validate v query_basic = status-validate v.status
  view-validate v query_peers = peers-validate v.peers
  view-validate v query_files = files-validate 0 v.files v.file_status

  -- A torrent that is not found is null.
  pub torrent-validate :
      (find : t.Hash → Option (TorrentView t.Hash)) (h : t.Hash) (q : QueryFlag)
      → is_null (get_torrent t find h q) ≡ false
      → validate (view_shape q) (get_torrent t find h q) ≡ true
  unfolding get_torrent
  torrent-validate find h q known = elim (Option-cases (find h)) [
    | inl n ↦
        let unknown : is_null (get_torrent t find h q) ≡ true = rw (n, get_torrent) refl in
        absurd (ground arith)
    | inr (v, s) ↦ rw (s, get_torrent) (view-validate v q)
  ]

  pub sync-validate :
      {H : Type 0} (stats : SessionStats) (handles : List (H × TorrentStatus t.Hash))
      → validate sync_shape (get_sync_stats t stats handles) ≡ true
  unfolding get_sync_stats build validate
  sync-validate stats handles =
      &&-true _ _ (stats-validate stats) (&&-true _ _ (statuses-validate (statuses t handles)) refl)
