-- ===== src/Witness/Adding.antt =====
-- The adding of torrents.
use kedge.Base.{ℕ, ◌≡◌, true, false, none, some, [], ◌∷◌}
use kedge.Base.Int.{pos}
use kedge.Bytes.{Bytes, codes}
use kedge.Sheath.Adding.{
  AddParams, Sources, or_store, add_magnet, add_torrent_file, add_torrent_buffer,
}
use kedge.Sheath.Adding.Laws.{Adds, IsPrepared, IsComplete, set_up_on_adding}
use kedge.Witness.Samples.{Sha, zeros, ones, sha_text}

abbrev pub blank_params : AddParams Sha ℕ ℕ
blank_params = record {
  info_hash = zeros;
  ti = none;
  save_path = [];
  max_connections = pos 0;
  max_uploads = pos 0;
  is_sparse = false;
  duplicate_is_error = true;
  rest = 0;
}

-- Every file is there, and every link and torrent can be read.
abbrev pub sources : Sources
sources = record {
  hash_text = sha_text;
  Info = ℕ;
  Rest = ℕ;
  blank = blank_params;
  parse_magnet_uri = λ uri. some blank_params;
  read_resume_data = λ d. (blank_params, false);
  load_torrent_info = λ f. some 3;
  parse_torrent_info = λ b. some 4;
  info_hash = λ i. ones;
  load_file = λ f. some (codes "data");
  create_directory = λ d. (true, false);
  remove_throws = λ file. false;
  list_directory =
      λ d. some (codes "notes" ∷ codes "0000000000000000000000000000000000000000.resume" ∷ []);
  extension = λ f. codes ".torrent";
}

abbrev pub store : Bytes
store = codes "/store"

abbrev pub resumes : Bytes
resumes = codes "/conf/.resume"

set_up_on_adding_example :
    Adds (IsPrepared sources store resumes) (add_magnet sources store resumes (codes "magnet:?"))
    × Adds
        (IsComplete sources store resumes (some 3))
        (add_torrent_file sources store resumes (codes "a.torrent"))
    × Adds
        (λ p.
          IsComplete sources store resumes (some 4) p
          × (p.save_path ≡ or_store (codes "/here") store))
        (add_torrent_buffer sources store resumes (codes "d8:") (codes "/here"))
set_up_on_adding_example =
    set_up_on_adding sources store resumes (codes "magnet:?") (codes "a.torrent") (codes "d8:")
      (codes "/here") (λ e. cc)
