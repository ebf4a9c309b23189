-- ===== src/Witness/Toggle.antt =====
-- A toggle of a torrent by an HTTP request.
use kedge.Base.{ℕ, ◌≡◌, refl, true, false, not, none, some, []}
use kedge.Base.Int.{pos}
use kedge.Bytes.{codes}
use kedge.Fault.{done}
use kedge.HttpUtil.{put, Request, make_resp_204}
use kedge.Handlers.{sb_call}
use kedge.Stats.{SessionStats}
use kedge.Sheath.Control.{is_stopped, Torrents}
use kedge.Sheath.Api.{Session, sheath_ops}
use kedge.Sheath.Api.Toggle.{KeepsTorrents, toggle_by_put}
use kedge.Witness.Samples.{
  Sha, zeros, sha_text, sha_text-IsHexText, text, ask, lacks, Flags, plain_flags,
  plain_flags-AreFlags,
}
use kedge.Witness.Adding.{sources, store, resumes}

-- A session is the flags of its only torrent.
abbrev only_torrent : Torrents Sha Flags Flags
only_torrent = record {
  find_torrent = λ h s. some s;
  store = λ h t s. t;
  remove_torrent = λ h d s. s;
  remove_file = λ f s. s;
  is_paused = λ s. false;
  pause_session = λ s. s;
  resume_session = λ s. s;
}

only_torrent-KeepsTorrents : KeepsTorrents only_torrent
only_torrent-KeepsTorrents = record { find-store = λ h t s. refl }

abbrev pub no_stats : SessionStats
no_stats = record {
  bytes_recv = pos 0;
  bytes_sent = pos 0;
  bytes_data_recv = pos 0;
  bytes_data_sent = pos 0;
  rate_recv = pos 0;
  rate_sent = pos 0;
  bytes_failed = pos 0;
  bytes_wasted = pos 0;
  bytes_queued = pos 0;
  num_checking = pos 0;
  num_downloading = pos 0;
  num_seeding = pos 0;
  num_stopped = pos 0;
  num_queued = pos 0;
  num_error = pos 0;
  num_peers_connected = pos 0;
  num_peers_half_open = pos 0;
  limit_up_queue = pos 0;
  limit_down_queue = pos 0;
  queued_tracker_announces = pos 0;
  has_incoming = false;
  is_paused = false;
  uptime = pos 0;
  uptime_ms = 0;
}

abbrev pub session : Session sources Flags Flags
session = record {
  Handle = ℕ;
  flags = plain_flags;
  torrents = only_torrent;
  async_add_torrent = λ p s. s;
  session_info = λ s. record {
    peer_fingerprint = [];
    listen_interfaces = [];
    uptime = pos 0;
    uptime_ms = pos 0;
    dir_store = store;
    version = [];
  };
  stats = λ s. no_stats;
  statuses = λ s. [];
  all_handles = λ s. [];
  view = λ s h. none;
}

abbrev toggle_request : Request
toggle_request = ask put (codes "/api/torrent/0000000000000000000000000000000000000000/toggle")

toggle_by_put_example :
    (s : Flags) × (t : Flags) × (sb_call sha_text
        (sheath_ops sources session store resumes)
        text
        toggle_request
        (true, false)
      ≡ done (s, some (make_resp_204 toggle_request)))
    × (only_torrent.find_torrent zeros s ≡ some t)
    × (is_stopped plain_flags t ≡ not (is_stopped plain_flags (true, false)))
toggle_by_put_example =
    toggle_by_put sources session store resumes sha_text-IsHexText plain_flags-AreFlags
      only_torrent-KeepsTorrents (lacks b'?' (codes "toggle") refl) text zeros toggle_request
      (true, false) (true, false) refl refl refl
