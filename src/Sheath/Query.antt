-- ===== src/Sheath/Query.antt =====
-- sheath.cpp: the JSON of the session, of the torrents, their peers and their files.
pub mod Files
pub mod Shapes
pub mod Flat
use kedge.Base.{
  ℕ, suc, ◌+◌, ◌*◌, ◌/◌, ◌%◌, ◌≡◌, Bool, true, false, ◌&&◌, not, Option, none, some, List, [], ◌∷◌,
  ltb, ◌==◌, if◌then◌else◌, get_elem?,
}
use kedge.Base.Int.{ℤ, pos, negsuc}
use kedge.Bytes.{Bytes, codes}
use kedge.Util.{HashText, parse_port}
use kedge.Json.{Json, Items, null, bool_, int64, uint64, string, array, object, nil, cons, end}
use kedge.Json.Rows.{Row, always, row, build}
use kedge.Stats.{SessionStats, to_json_object}
use kedge.Handlers.{QueryFlag, query_basic, query_peers, query_files}
use kedge.Sheath.Status.{TorrentStatus, torrent_status_to_json_obj}
use kedge.Sheath.Library.{TorrentLib, Status}

-- lt::peer_info, as far as it is read.
pub record PeerInfo : Type 0 where
  pub client : Bytes
  pub ip : Bytes
  pub port : ℕ
  pub flags : ℤ
  pub is_utp : Bool
  pub source : ℤ
  pub progress_ppm : ℤ
  pub down_speed : ℤ
  pub up_speed : ℤ
  pub num_pieces : ℤ

unfoldable pub peer_rows : PeerInfo → List Row
peer_rows i =
    always (codes "client") (string i.client)
    ∷ always (codes "ip") (string i.ip)
    ∷ always (codes "port") (uint64 i.port)
    ∷ always (codes "flag") (int64 i.flags)
    ∷ always (codes "source") (int64 i.source)
    ∷ always (codes "progress") (int64 i.progress_ppm)
    ∷ always (codes "down_speed") (int64 i.down_speed)
    ∷ always (codes "up_speed") (int64 i.up_speed)
    ∷ always (codes "num_pieces") (int64 i.num_pieces)
    ∷ row i.is_utp (codes "uTP") (bool_ true)
    ∷ []

unfoldable pub peers_json : List PeerInfo → Items
unfolding peer_rows build
peers_json [] = nil
peers_json (i ∷ is_) = cons (object (build end (peer_rows i))) (peers_json is_)

-- A file of a torrent: its name and size, and the bytes of it that are there.
pub record FileEntry : Type 0 where
  pub file_name : Bytes
  pub file_size : ℕ
  pub file_progress : ℕ
  pub priority : ℕ

-- `open_mode & rw_mask`; the mask leaves one value that is none of the three.
pub data RwMode : Type 0 where
  read_write read_only write_only no_mode : RwMode

pub record OpenFileState : Type 0 where
  pub file_index : ℕ
  pub mode : RwMode
  pub random_access : Bool
  pub sparse : Bool

-- Thousandths of the file, and 1000 for an empty file.
unfoldable pub progress_of : FileEntry → ℕ
progress_of e = if ltb 0 e.file_size then e.file_progress * 1000 / e.file_size else 1000

abbrev pub is_read_write : RwMode → Bool
is_read_write read_write = true
is_read_write _ = false

abbrev pub is_read_only : RwMode → Bool
is_read_only read_only = true
is_read_only _ = false

abbrev pub is_write_only : RwMode → Bool
is_write_only write_only = true
is_write_only _ = false

unfoldable pub state_rows : OpenFileState → List Row
state_rows f =
    row (is_read_write f.mode) (codes "state") (string (codes "read/write"))
    ∷ row (is_read_only f.mode) (codes "state") (string (codes "read"))
    ∷ row (is_write_only f.mode) (codes "state") (string (codes "write"))
    ∷ row f.random_access (codes "state") (string (codes "random_access"))
    ∷ row f.sparse (codes "state") (string (codes "sparse"))
    ∷ []

-- The members of a file, and those of its open state behind them.
unfoldable pub file_rows : FileEntry → List Row → List Row
unfolding progress_of
file_rows e states =
    always (codes "name") (string e.file_name)
    ∷ always (codes "size") (int64 (pos e.file_size))
    ∷ always (codes "progress") (int64 (pos (progress_of e)))
    ∷ always (codes "complete") (bool_ (e.file_progress == e.file_size))
    ∷ always (codes "priority") (uint64 e.priority)
    ∷ states

-- The iterator over the open files is at this file.
abbrev pub is_at : ℕ → List OpenFileState → Bool
is_at i [] = false
is_at i (f ∷ fs) = f.file_index == i

abbrev pub states_of : List OpenFileState → List Row
unfolding state_rows
states_of [] = []
states_of (f ∷ fs) = state_rows f

abbrev pub next : List OpenFileState → List OpenFileState
next [] = []
next (f ∷ fs) = fs

unfoldable pub files_json : ℕ → List FileEntry → List OpenFileState → Items
unfolding file_rows state_rows build
files_json i [] status = nil
files_json i (e ∷ es) status =
    let shut = cons (object (build end (file_rows e []))) (files_json (suc i) es status) in
    let opened =
      cons (object (build end (file_rows e (states_of status))))
        (files_json (suc i) es (next status)) in
    if is_at i status then opened else shut

-- A torrent as it is queried, with its metadata: without them `torrent_file()` is null.
pub record TorrentView (Hash : Type 0) : Type 0 where
  pub status : TorrentStatus Hash
  pub peers : List PeerInfo
  pub files : List FileEntry
  pub file_status : List OpenFileState

module _ (t : HashText) where
  unfoldable pub statuses_json : List (TorrentStatus t.Hash) → Items
  unfolding torrent_status_to_json_obj
  statuses_json [] = nil
  statuses_json (st ∷ sts) = cons (torrent_status_to_json_obj t st) (statuses_json sts)

  unfoldable pub get_torrents : List (TorrentStatus t.Hash) → Json
  unfolding statuses_json
  get_torrents torr = array (statuses_json torr)

  unfoldable pub view_json : TorrentView t.Hash → QueryFlag → Json
  unfolding torrent_status_to_json_obj peers_json files_json
  view_json v query_basic = torrent_status_to_json_obj t v.status
  view_json v query_peers = array (peers_json v.peers)
  view_json v query_files = array (files_json 0 v.files v.file_status)

  -- `find` is `find_torrent` with the queries on the handle, `none` an invalid handle.
  unfoldable pub get_torrent : (t.Hash → Option (TorrentView t.Hash)) → t.Hash → QueryFlag → Json
  unfolding view_json
  get_torrent find ih flags = elim (find ih) [ none ↦ null | some v ↦ view_json v flags ]

  abbrev pub statuses : {H : Type 0} → List (H × TorrentStatus t.Hash) → List (TorrentStatus t.Hash)
  statuses [] = []
  statuses ((h, st) ∷ ms) = st ∷ statuses ms

  -- The statistics are those of `svs`; that the session is paused is not asked here.
  unfoldable pub get_sync_stats :
      {H : Type 0} → SessionStats → List (H × TorrentStatus t.Hash) → Json
  unfolding statuses_json to_json_object build
  get_sync_stats stats handles = object (
      build end (
        always (codes "stats") (to_json_object stats)
        ∷ always (codes "torrents") (array (statuses_json (statuses handles)))
        ∷ []))

-- The settings and clocks that are shown.
pub record SessionInfo : Type 0 where
  pub peer_fingerprint : Bytes
  pub listen_interfaces : Bytes
  pub uptime : ℤ
  pub uptime_ms : ℤ
  pub dir_store : Bytes
  pub version : Bytes

unfoldable pub info_rows : SessionInfo → List Row
unfolding parse_port
info_rows s =
    always (codes "peerID") (string s.peer_fingerprint)
    ∷ always (codes "peerPort") (int64 (parse_port s.listen_interfaces))
    ∷ always (codes "listenInterfaces") (string s.listen_interfaces)
    ∷ always (codes "uptime") (int64 s.uptime)
    ∷ always (codes "uptimeMs") (int64 s.uptime_ms)
    ∷ always (codes "stored") (string s.dir_store)
    ∷ always (codes "version") (string s.version)
    ∷ []

unfoldable pub get_session_info : SessionInfo → Json
unfolding info_rows build
get_session_info s = object (build end (info_rows s))

-- `getSessionStats`: the session is asked whether it is paused.
unfoldable pub session_stats_json : SessionStats → Bool → Json
unfolding to_json_object
session_stats_json stats is_paused = to_json_object (record stats { is_paused = is_paused })
