-- ===== src/Sheath/Library.antt =====
-- What sheath.cpp uses of libtorrent: its types, the alerts it receives and the calls it makes.
use kedge.Base.{ℕ, ◌≡◌, ◌↔◌, Bool, true, List}
use kedge.Base.Int.{ℤ}
use kedge.Bytes.{Bytes}
use kedge.Util.{HashText}
use kedge.Sheath.Status.{TorrentStatus}

-- libtorrent's types are parameters. `Params` is add_torrent_params as a resume alert carries it.
pub record TorrentLib : Type 1 where
  pub hash_text : HashText
  pub Handle : Type 0
  pub same : Handle → Handle → Bool
  pub Params : Type 0
  pub info_hash : Params → hash_text.Hash
  pub write_resume_data_buf : Params → Bytes
  pub Peer : Type 0
  pub DhtStats : Type 0

-- `==` of torrent_handle, which the hash map of the torrents relies on.
pub record IsHandleEquality (l : TorrentLib) : Type 0 where
  pub same_iff : (h k : l.Handle) → (l.same h k ≡ true) ↔ (h ≡ k)

abbrev pub Status : TorrentLib → Type 0
Status l = TorrentStatus l.hash_text.Hash

-- The alerts that `handle_alert` casts to, with the members that it reads.
pub data Alert (l : TorrentLib) : Type 0 where
  session_stats : (counters : List ℤ) (timestamp : ℕ) → Alert l
  dht_stats : l.DhtStats → Alert l
  peer_connect incoming_connection : Alert l
  peer_disconnected : (is_connect timed_out_no_handshake : Bool) → Alert l
  metadata_received : l.Handle → Alert l
  add_torrent : (error : Bool) → l.Handle → Alert l
  torrent_finished : l.Handle → Alert l
  save_resume_data : l.Params → Alert l
  save_resume_data_failed : (not_modified : Bool) → Alert l
  torrent_paused : l.Handle → Alert l
  state_update : List (l.Handle × Status l) → Alert l
  torrent_removed : l.Handle → Alert l
  other_alert : Alert l

-- The calls with an effect. `ask_resume_data` is `save_resume_data` with `save_info_dict`.
pub data Call (l : TorrentLib) : Type 0 where
  ask_resume_data : l.Handle → (only_if_modified : Bool) → Call l
  connect_peer : l.Handle → l.Peer → Call l
  set_max_connections : l.Handle → ℕ → Call l
  move_storage : l.Handle → Bytes → Call l
  save_file : Bytes → Bytes → Call l
