-- ===== src/Sheath/Alerts.antt =====
-- handle_alert of sheath.cpp with what it calls, the popping of alerts, and the saving of all resume
-- data at the end.
use kedge.Base.{
  ◌/◌, ℕ, Bool, true, false, ◌||◌, Option, none, some, List, [], ◌∷◌, ◌++◌, ◌==◌, if◌then◌else◌,
}
use kedge.Base.Int.{ℤ, pos, negsuc, ◌+ℤ◌, ◌-ℤ◌, ltb_ℤ}
use kedge.Bytes.{Bytes, bytes_eq}
use kedge.Util.{resume_name, path_join}
use kedge.Stats.{SessionValues, update_counters}
use kedge.Sheath.Library.{
  TorrentLib, Status, Alert, session_stats, dht_stats, peer_connect, incoming_connection,
  peer_disconnected, metadata_received, add_torrent, torrent_finished, save_resume_data,
  save_resume_data_failed, torrent_paused, state_update, torrent_removed, other_alert, Call,
  ask_resume_data, connect_peer, set_max_connections, move_storage, save_file,
}

-- The members of sheath that change. `num_outstanding_resume_data` stays far from 2 ^ 31.
pub record SheathState (l : TorrentLib) : Type 0 where
  pub peer : Option l.Peer
  pub values : SessionValues
  pub all_handles : List (l.Handle × Status l)
  pub num_outstanding_resume_data : ℤ
  pub dht : Option l.DhtStats

-- The directories, which do not change, and what is asked of libtorrent and of the file system.
pub record Surroundings (l : TorrentLib) : Type 0 where
  pub dir_moved : Bytes
  pub dir_resumes : Bytes
  pub status : l.Handle → Status l
  pub exists : Bytes → Bool

abbrev pub percent_done : ℤ
percent_done = pos 1000000

abbrev pub max_connections_per_torrent : ℕ
max_connections_per_torrent = 50

module _ (l : TorrentLib) where
  -- `m_all_handles.find(handle)`.
  unfoldable pub find_handle : l.Handle → List (l.Handle × Status l) → Option (Status l)
  find_handle h [] = none
  find_handle h ((k, st) ∷ ms) = if l.same k h then some st else find_handle h ms

  -- The loop's body: a new torrent is added, a known one gets its new status.
  unfoldable pub set_torrent :
      l.Handle → Status l → List (l.Handle × Status l) → List (l.Handle × Status l)
  set_torrent h st [] = (h, st) ∷ []
  set_torrent h st ((k, old) ∷ ms) =
      let rest = set_torrent h st ms in if l.same k h then (k, st) ∷ ms else (k, old) ∷ rest

  unfoldable pub set_all_torrents :
      List (l.Handle × Status l) → List (l.Handle × Status l) → List (l.Handle × Status l)
  unfolding set_torrent
  set_all_torrents [] ms = ms
  set_all_torrents ((h, st) ∷ sts) ms = set_all_torrents sts (set_torrent h st ms)

  unfoldable pub remove_torrent_with_handle :
      l.Handle → List (l.Handle × Status l) → List (l.Handle × Status l)
  remove_torrent_with_handle h [] = []
  remove_torrent_with_handle h ((k, st) ∷ ms) =
      let rest = remove_torrent_with_handle h ms in if l.same k h then ms else (k, st) ∷ rest

  module _ (at : Surroundings l) where
    unfoldable pub resume_file : l.hash_text.Hash → Bytes
    unfolding path_join resume_name
    resume_file h = path_join at.dir_resumes (resume_name l.hash_text h)

    abbrev is_total_zero : ℤ → Bool
    is_total_zero (pos n) = n == 0
    is_total_zero (negsuc n) = false

    abbrev is_empty : Bytes → Bool
    is_empty [] = true
    is_empty (c ∷ s) = false

    unfoldable pub on_torrent_finished : l.Handle → List (Call l)
    on_torrent_finished h =
        let st = at.status h in
        if is_empty at.dir_moved
        then []
        else if ltb_ℤ st.progress_ppm percent_done || is_total_zero st.total_payload_download
        then []
        else if bytes_eq st.save_path at.dir_moved
        then []
        else if at.exists at.dir_moved
        then move_storage h at.dir_moved ∷ []
        else []

    -- One more request for resume data.
    abbrev pub asked : SheathState l → SheathState l
    asked s = record s { num_outstanding_resume_data = s.num_outstanding_resume_data +ℤ pos 1 }

    -- One response to such a request.
    abbrev pub answered : SheathState l → SheathState l
    answered s = record s { num_outstanding_resume_data = s.num_outstanding_resume_data -ℤ pos 1 }

    -- The specified peer, if there is one. That the source keeps the address of a local is not seen
    -- here.
    abbrev pub connect : Option l.Peer → l.Handle → List (Call l)
    connect none h = []
    connect (some p) h = connect_peer h p ∷ []

    -- The result says whether the alert is kept from the log.
    unfoldable pub handle_alert : Alert l → SheathState l → SheathState l × List (Call l) × Bool
    unfolding update_counters on_torrent_finished resume_file set_all_torrents
        remove_torrent_with_handle
    handle_alert (session_stats sc t) s =
        (record s { values = update_counters sc t s.values }, [], true)
    handle_alert (dht_stats d) s = (record s { dht = some d }, [], true)
    handle_alert peer_connect s = (s, [], true)
    handle_alert incoming_connection s = (s, [], true)
    handle_alert (peer_disconnected connecting no_handshake) s = (s, [], connecting || no_handshake)
    handle_alert (metadata_received h) s = (asked s, ask_resume_data h false ∷ [], false)
    handle_alert (add_torrent true h) s = (s, [], false)
    handle_alert (add_torrent false h) s =
        (asked s, ask_resume_data h true ∷ connect s.peer h, false)
    handle_alert (torrent_finished h) s = (
      asked s,
      set_max_connections h (max_connections_per_torrent / 2)
          ∷ ask_resume_data h false
          ∷ on_torrent_finished h,
      false,
    )
    handle_alert (save_resume_data p) s = (
      answered s,
      save_file (resume_file (l.info_hash p)) (l.write_resume_data_buf p) ∷ [],
      false,
    )
    handle_alert (save_resume_data_failed not_modified) s = (answered s, [], not_modified)
    handle_alert (torrent_paused h) s = (asked s, ask_resume_data h false ∷ [], false)
    handle_alert (state_update sts) s =
        (record s { all_handles = set_all_torrents sts s.all_handles }, [], true)
    handle_alert (torrent_removed h) s =
        (record s { all_handles = remove_torrent_with_handle h s.all_handles }, [], false)
    handle_alert other_alert s = (s, [], false)

    -- The alerts that are logged come last in the result.
    unfoldable pub pop_alerts :
        List (Alert l) → SheathState l → SheathState l × List (Call l) × List (Alert l)
    unfolding handle_alert
    pop_alerts [] s = (s, [], [])
    pop_alerts (a ∷ rest) s =
        let (s', calls, quiet) = handle_alert a s in
        let (s'', more, logged) = pop_alerts rest s' in
        (s'', calls ++ more, if quiet then logged else a ∷ logged)
