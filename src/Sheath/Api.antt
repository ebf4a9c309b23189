-- ===== src/Sheath/Api.antt =====
-- The operations that the API calls, made of those of sheath.cpp.
pub mod Toggle
pub mod Typed
use kedge.Base.{ℕ, Bool, true, false, Option, none, some, List}
use kedge.Bytes.{Bytes}
use kedge.Util.{HashText, path_join, resume_name}
use kedge.Handlers.{SheathOps}
use kedge.Stats.{SessionStats}
use kedge.Sheath.Status.{TorrentStatus}
use kedge.Sheath.Adding.{Sources, Params, add_magnet, add_torrent_buffer, resume_path}
use kedge.Sheath.Control.{
  FlagOps, Torrents, exists, drop_torrent, pause_resume_torrent, resume_torrent,
  toggle_pause_resume,
}
use kedge.Sheath.Query.{
  TorrentView, SessionInfo, get_session_info, session_stats_json, get_sync_stats, get_torrents,
  get_torrent,
}

-- What a session gives besides the control of its torrents.
pub record Session (src : Sources) (T S : Type 0) : Type 1 where
  pub Handle : Type 0
  pub flags : FlagOps T
  pub torrents : Torrents src.hash_text.Hash T S
  pub async_add_torrent : Params src → S → S
  pub session_info : S → SessionInfo
  pub stats : S → SessionStats
  pub statuses : S → List (TorrentStatus src.hash_text.Hash)
  pub all_handles : S → List (Handle × TorrentStatus src.hash_text.Hash)
  pub view : S → src.hash_text.Hash → Option (TorrentView src.hash_text.Hash)

module _ (src : Sources) {T S : Type 0} (ses : Session src T S)
    (dir_store dir_resumes : Bytes) where
  abbrev pub adding : Option (Params src) → S → S × Bool
  adding none s = (s, false)
  adding (some p) s = (ses.async_add_torrent p s, true)

  abbrev pub file_of : src.hash_text.Hash → Bytes
  file_of h = resume_path src dir_store dir_resumes h

  unfoldable pub sheath_ops : SheathOps src.hash_text.Hash S
  unfolding exists drop_torrent pause_resume_torrent resume_torrent toggle_pause_resume
      get_session_info session_stats_json get_sync_stats get_torrents get_torrent add_torrent_buffer
      add_magnet
  sheath_ops = record {
    dir_store = λ s. dir_store;
    session_info = λ s. get_session_info (ses.session_info s);
    session_stats = λ s. session_stats_json (ses.stats s) (ses.torrents.is_paused s);
    sync_stats = λ s. get_sync_stats src.hash_text (ses.stats s) (ses.all_handles s);
    torrents = λ s. get_torrents src.hash_text (ses.statuses s);
    torrent = λ h q s. get_torrent src.hash_text (ses.view s) h q;
    exists = λ h s. exists ses.flags ses.torrents file_of h s;
    drop_torrent = λ h d s. drop_torrent ses.flags ses.torrents file_of h d s;
    pause_resume_torrent = λ h s. pause_resume_torrent ses.flags ses.torrents file_of h s;
    resume_torrent = λ h s. resume_torrent ses.flags ses.torrents file_of h s;
    add_torrent = λ b d s. adding (add_torrent_buffer src dir_store dir_resumes b d) s;
    add_magnet = λ u s. adding (add_magnet src dir_store dir_resumes u) s;
    toggle_pause_resume = λ s. toggle_pause_resume ses.flags ses.torrents file_of s;
  }
