-- ===== src/Sheath/Ending.antt =====
-- The directories of a sheath, its start and its end: the constructor, save_session and end of
-- sheath.cpp.
use kedge.Base.{Bool, Option, none, some, List, [], ◌∷◌, if◌then◌else◌}
use kedge.Bytes.{Bytes}
use kedge.Util.{path_join}
use kedge.Startup.Files.{resume_dir, watch_dir}
use kedge.Startup.Parameters.{SessionLib, sess_file}
use kedge.Sheath.Library.{TorrentLib, Call}
use kedge.Sheath.Alerts.{SheathState, Surroundings}
use kedge.Sheath.Shutdown.{Polls, Listed, save_all_resume}

pub record Dirs : Type 0 where
  pub dir_conf : Bytes
  pub dir_store : Bytes
  pub dir_moved : Bytes
  pub dir_resumes : Bytes
  pub dir_watches : Bytes
  pub file_ses_state : Bytes

-- The constructor, with the directory of `getConfDir`.
unfoldable pub new_sheath_dirs : Bytes → Bytes → Bytes → Dirs
unfolding path_join
new_sheath_dirs conf store_dir moved_dir = record {
  dir_conf = conf;
  dir_store = store_dir;
  dir_moved = moved_dir;
  dir_resumes = path_join conf resume_dir;
  dir_watches = path_join conf watch_dir;
  file_ses_state = path_join conf sess_file;
}

-- What the end does after the saving of resume data.
pub data SaveCall : Type 0 where
  pause_session : SaveCall
  save_session_file : (filename content : Bytes) → SaveCall

module _ (lib : SessionLib) (dirs : Dirs) where
  -- `ses` is the session as `save_state` finds it.
  unfoldable pub save_session : (is_paused : Bool) → lib.Session → List SaveCall
  save_session is_paused ses =
      let saving = save_session_file dirs.file_ses_state (lib.bencode (lib.save_state ses)) ∷ [] in
      if is_paused then saving else pause_session ∷ saving

  module _ (l : TorrentLib) (at : Surroundings l) where
    abbrev pub then_save {ℓ} : {A : Type ℓ} → List SaveCall → Option A → Option (A × List SaveCall)
    then_save saving none = none
    then_save saving (some a) = some (a, saving)

    -- `none`: the saving of resume data has not ended with the polls, and the session is not saved.
    unfoldable pub end_sheath :
        List (Listed l)
        → Polls l
        → SheathState l
        → Bool
        → lib.Session
        → Option ((SheathState l × List (Call l)) × List SaveCall)
    unfolding save_all_resume save_session
    end_sheath listed polls s is_paused ses =
        then_save (save_session is_paused ses) (save_all_resume l at listed polls s)
