-- ===== src/Sheath/Adding.antt =====
-- sheath.cpp: how torrents are added, from magnet links, files, buffers, the watched directory and the
-- saved resume data.
pub mod Laws
use kedge.Base.{
  ℕ, ◌≡◌, Bool, true, false, ◌&&◌, not, Option, none, some, List, [], ◌∷◌, ◌++◌, if◌then◌else◌,
}
use kedge.Base.Int.{ℤ, pos, negsuc}
use kedge.Bytes.{Bytes, codes, bytes_eq}
use kedge.Util.{HashText, resume_name, path_join, is_resume_file}

-- lt::add_torrent_params: the members that the source sets, and the others as they came.
pub record AddParams (Hash Info Rest : Type 0) : Type 0 where
  pub info_hash : Hash
  pub ti : Option Info
  pub save_path : Bytes
  pub max_connections : ℤ
  pub max_uploads : ℤ
  pub is_sparse : Bool
  pub duplicate_is_error : Bool
  pub rest : Rest

-- What the program asks of libtorrent and of the file system. `read_resume_data` gives parameters
-- also where it reports an error; `create_directory` says whether it made one and whether it failed;
-- `remove_throws` says whether fs::remove, which is called without an error code, throws for a file.
pub record Sources : Type 1 where
  pub hash_text : HashText
  pub Info : Type 0
  pub Rest : Type 0
  pub blank : AddParams hash_text.Hash Info Rest
  pub parse_magnet_uri : Bytes → Option (AddParams hash_text.Hash Info Rest)
  pub read_resume_data : Bytes → AddParams hash_text.Hash Info Rest × Bool
  pub load_torrent_info : Bytes → Option Info
  pub parse_torrent_info : Bytes → Option Info
  pub info_hash : Info → hash_text.Hash
  pub load_file : Bytes → Option Bytes
  pub create_directory : Bytes → Bool × Bool
  pub list_directory : Bytes → Option (List Bytes)
  pub remove_throws : Bytes → Bool
  pub extension : Bytes → Bytes

abbrev pub Params : Sources → Type 0
Params src = AddParams src.hash_text.Hash src.Info src.Rest

abbrev pub or_store : Bytes → Bytes → Bytes
or_store [] store = store
or_store (c ∷ s) store = c ∷ s

module _ (src : Sources) (dir_store dir_resumes : Bytes) where
  unfoldable pub set_torrent_params : Params src → Params src
  set_torrent_params p = record p {
    max_connections = pos 50;
    max_uploads = negsuc 0;
    save_path = or_store p.save_path dir_store;
    is_sparse = true;
  }

  abbrev pub resume_path : src.hash_text.Hash → Bytes
  resume_path h = path_join dir_resumes (resume_name src.hash_text h)

  -- The parameters, replaced by those of a resume file if there is one.
  abbrev pub resumed : Params src → Option Bytes → Params src
  resumed p none = p
  resumed p (some resume_data) = (src.read_resume_data resume_data).0

  -- `none`: false is returned. Otherwise the parameters go to `async_add_torrent`.
  unfoldable pub add_magnet : Bytes → Option (Params src)
  unfolding set_torrent_params path_join resume_name
  add_magnet uri = elim (src.parse_magnet_uri uri) [
    | none ↦ none
    | some p ↦ some (set_torrent_params (resumed p (src.load_file (resume_path p.info_hash))))
  ]

  abbrev pub with_info : src.Info → Params src → Params src
  with_info ti p = record p { ti = some ti; duplicate_is_error = false }

  unfoldable pub add_torrent_file : Bytes → Option (Params src)
  unfolding set_torrent_params path_join resume_name
  add_torrent_file filename = elim (src.load_torrent_info filename) [
    | none ↦ none
    | some ti ↦ some (
        with_info ti
          (set_torrent_params (resumed src.blank (src.load_file (resume_path (src.info_hash ti))))))
  ]

  abbrev pub saved_in : Bytes → Params src → Params src
  saved_in path p = record p { save_path = path }

  unfoldable pub add_torrent_buffer : Bytes → Bytes → Option (Params src)
  unfolding set_torrent_params path_join resume_name
  add_torrent_buffer buffer save_path = elim (src.parse_torrent_info buffer) [
    | none ↦ none
    | some ti ↦
        let (created, failed) = src.create_directory save_path in
        if not created && failed
        then none
        else some (
            with_info ti (
              set_torrent_params (
                saved_in save_path
                  (resumed src.blank (src.load_file (resume_path (src.info_hash ti)))))))
  ]

  -- What a scan does, in its order. An exception of fs::remove leaves it, and nothing catches it.
  pub data ScanCall : Type 0 where
    async_add_torrent : Params src → ScanCall
    remove : Bytes → ScanCall
    thrown : ScanCall

  abbrev pub added_and_removed : Bytes → Option (Params src) → List ScanCall → List ScanCall
  added_and_removed file none rest = rest
  added_and_removed file (some p) rest =
      async_add_torrent p ∷ remove file ∷ (if src.remove_throws file then thrown ∷ [] else rest)

  unfoldable pub scan_files : List Bytes → List ScanCall
  unfolding add_torrent_file
  scan_files [] = []
  scan_files (file ∷ files) =
      let rest = scan_files files in
      if bytes_eq (src.extension file) (codes ".torrent")
      then added_and_removed file (add_torrent_file file) rest
      else rest

  unfoldable pub scan_dir : Bytes → List ScanCall
  unfolding scan_files
  scan_dir dir_path = elim (src.list_directory dir_path) [
    | none ↦ []
    | some files ↦ scan_files files
  ]

  abbrev pub read_and_add : Option Bytes → List (Params src) → List (Params src)
  read_and_add none rest = rest
  read_and_add (some resume_data) rest =
      let (atp, failed) = src.read_resume_data resume_data in if failed then rest else atp ∷ rest

  -- The loop over the names in the directory of resume files.
  unfoldable pub load_named : List Bytes → List (Params src)
  unfolding is_resume_file path_join
  load_named [] = []
  load_named (name ∷ names) =
      let rest = load_named names in
      if is_resume_file name
      then read_and_add (src.load_file (path_join dir_resumes name)) rest
      else rest

  unfoldable pub load_resumes : List (Params src)
  unfolding load_named
  load_resumes = elim (src.list_directory dir_resumes) [ none ↦ [] | some names ↦ load_named names ]
