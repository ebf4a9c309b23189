-- ===== src/Sheath/Adding/Laws.antt =====
-- What is added: the parameters of the torrents, the files removed, and the resume data read back.
use mathlib.Core.List.{Memᴰ}
use kedge.Base.{
  ◌≡◌, ◌≢◌, refl, true, false, ◌&&◌, not, Option, none, some, inl, inr, List, [], ◌∷◌, Bool-cases,
  Option-cases,
}
use kedge.Base.Int.{pos, negsuc}
use kedge.Bytes.{Bytes, codes}
use kedge.Util.{IsHexText, resume_name, path_join, is_resume_file}
use kedge.Util.ResumeName.{resume_name-from_hex}
use kedge.Sheath.Adding.{
  Sources, Params, set_torrent_params, add_magnet, add_torrent_file, add_torrent_buffer, ScanCall,
  async_add_torrent, remove, thrown, read_and_add, load_named, load_resumes, resumed, resume_path,
  or_store, with_info, saved_in,
}

-- If something is added, the condition holds of it.
pub data Adds {A : Type 0} (P : A → Type 0) : Option A → Type 0 where
  nothing : Adds P none
  added : {a : A} → P a → Adds P (some a)

module _ (src : Sources) (dir_store dir_resumes : Bytes) where
  -- The limits of a torrent that is added.
  pub record IsPrepared (p : Params src) : Type 0 where
    pub limited : p.max_connections ≡ pos 50
    pub unlimited : p.max_uploads ≡ negsuc 0
    pub sparse : p.is_sparse ≡ true
    pub placed : p.save_path ≢ []

  -- And of one with its metadata.
  pub record IsComplete (ti : Option src.Info) (p : Params src) : Type 0 where
    pub prepared : IsPrepared p
    pub metadata : p.ti ≡ ti
    pub repeatable : p.duplicate_is_error ≡ false

  or_store_placed : (path : Bytes) → dir_store ≢ [] → or_store path dir_store ≢ []
  or_store_placed [] h = h
  or_store_placed (c ∷ s) h = λ e. cc

  set_torrent_params-IsPrepared :
      (p : Params src)
      → dir_store ≢ []
      → IsPrepared (set_torrent_params src dir_store dir_resumes p)
  unfolding set_torrent_params
  set_torrent_params-IsPrepared p h = record {
    limited = refl;
    unlimited = refl;
    sparse = refl;
    placed = or_store_placed p.save_path h;
  }

  with_info-IsComplete :
      (ti : src.Info) (p : Params src)
      → IsPrepared p
      → IsComplete (some ti) (with_info src dir_store dir_resumes ti p)
  with_info-IsComplete ti p h = record {
    prepared = record {
      limited = h.limited;
      unlimited = h.unlimited;
      sparse = h.sparse;
      placed = h.placed;
    };
    metadata = refl;
    repeatable = refl;
  }

  -- The parameters from the resume file of a torrent, if it has one.
  abbrev of_file : src.Info → Params src
  of_file ti =
      resumed src dir_store dir_resumes src.blank
        (src.load_file (resume_path src dir_store dir_resumes (src.info_hash ti)))

  magnet :
      (uri : Bytes) → dir_store ≢ [] → Adds IsPrepared (add_magnet src dir_store dir_resumes uri)
  unfolding add_magnet
  magnet uri h = elim (Option-cases (src.parse_magnet_uri uri)) [
    | inl e ↦ rw (e, add_magnet) nothing
    | inr (p, e) ↦
        rw (e, add_magnet)
          (added (
            set_torrent_params-IsPrepared
              (resumed src dir_store dir_resumes p
                (src.load_file (resume_path src dir_store dir_resumes p.info_hash)))
              h))
  ]

  torrent_file :
      (filename : Bytes)
      → dir_store ≢ []
      → Adds
          (IsComplete (src.load_torrent_info filename))
          (add_torrent_file src dir_store dir_resumes filename)
  unfolding add_torrent_file
  torrent_file filename h = elim (Option-cases (src.load_torrent_info filename)) [
    | inl e ↦ rw (e, add_torrent_file) nothing
    | inr (ti, e) ↦
        rw (e, add_torrent_file)
          (added (with_info-IsComplete ti _ (set_torrent_params-IsPrepared (of_file ti) h)))
  ]

  torrent_buffer :
      (buffer path : Bytes)
      → dir_store ≢ []
      → Adds
          (λ p.
            IsComplete (src.parse_torrent_info buffer) p × (p.save_path ≡ or_store path dir_store))
          (add_torrent_buffer src dir_store dir_resumes buffer path)
  unfolding add_torrent_buffer set_torrent_params
  torrent_buffer buffer path h = elim (Option-cases (src.parse_torrent_info buffer)) [
    | inl e ↦ rw (e, add_torrent_buffer) nothing
    | inr (ti, e) ↦
        let (created, failed) = src.create_directory path in
        elim (Bool-cases (not created && failed)) [
          | inl f ↦ rw (e, add_torrent_buffer, f) nothing
          | inr f ↦
              rw (e, add_torrent_buffer, f)
                (added (
                  with_info-IsComplete ti _ (
                      set_torrent_params-IsPrepared
                        (saved_in src dir_store dir_resumes path (of_file ti)) h),
                  refl,
                ))
        ]
  ]

  -- If the store directory has a name, a torrent added from a magnet link, a file or a buffer has
  -- the program's limits, sparse storage and a place to be saved; from a file or a buffer also its
  -- metadata, and from a buffer the caller's place.
  pub set_up_on_adding :
      (uri filename buffer path : Bytes)
      → dir_store ≢ []
      → Adds IsPrepared (add_magnet src dir_store dir_resumes uri)
        × Adds
            (IsComplete (src.load_torrent_info filename))
            (add_torrent_file src dir_store dir_resumes filename)
        × Adds
            (λ p.
              IsComplete (src.parse_torrent_info buffer) p
              × (p.save_path ≡ or_store path dir_store))
            (add_torrent_buffer src dir_store dir_resumes buffer path)
  set_up_on_adding uri filename buffer path h =
      (magnet uri h, torrent_file filename h, torrent_buffer buffer path h)

  -- Each file that is removed is a torrent file, and was added just before; a removal that throws is
  -- the last thing done.
  pub data IsScanned : List (ScanCall src dir_store dir_resumes) → Type 0 where
    finished : IsScanned []
    loaded :
        (file : Bytes) {p : Params src} {rest : List (ScanCall src dir_store dir_resumes)}
        → src.extension file ≡ codes ".torrent"
        → add_torrent_file src dir_store dir_resumes file ≡ some p
        → IsScanned rest
        → IsScanned (async_add_torrent p ∷ remove file ∷ rest)
    failed :
        (file : Bytes) {p : Params src}
        → src.extension file ≡ codes ".torrent"
        → add_torrent_file src dir_store dir_resumes file ≡ some p
        → src.remove_throws file ≡ true
        → IsScanned (async_add_torrent p ∷ remove file ∷ thrown ∷ [])

  read_and_add_more :
      (p : Params src) (o : Option Bytes) (rest : List (Params src))
      → Memᴰ p rest
      → Memᴰ p (read_and_add src dir_store dir_resumes o rest)
  read_and_add_more p none rest m = m
  read_and_add_more p (some d) rest m = elim (Bool-cases (src.read_resume_data d).1) [
    | inl e ↦ rw e m
    | inr e ↦ rw e (Memᴰ.tail m)
  ]

  load_named-Memᴰ :
      (name data_ : Bytes) (p : Params src) (names : List Bytes)
      → is_resume_file name ≡ true
      → src.load_file (path_join dir_resumes name) ≡ some data_
      → src.read_resume_data data_ ≡ (p, false)
      → Memᴰ name names
      → Memᴰ p (load_named src dir_store dir_resumes names)
  unfolding load_named
  load_named-Memᴰ name d p [] ok l r m = elim m [ ]
  load_named-Memᴰ name d p (n ∷ names) ok l r (Memᴰ.head e) = rw (← e, ok, l, r) (Memᴰ.head refl)
  load_named-Memᴰ name d p (n ∷ names) ok l r (Memᴰ.tail m) =
      let later = load_named-Memᴰ name d p names ok l r m in
      elim (Bool-cases (is_resume_file n)) [
        | inl e ↦ rw e (
            read_and_add_more p (src.load_file (path_join dir_resumes n))
              (load_named src dir_store dir_resumes names) later)
        | inr e ↦ rw e later
      ]

  -- If the library writes and reads hashes as forty lower case hex digits, what was saved under the
  -- resume file of a hash is added again at the next start, if the directory lists that file and
  -- its data can be read.
  pub load_resumes_saved :
      (laws : IsHexText src.hash_text) (h : src.hash_text.Hash) (names : List Bytes) (data_ : Bytes)
      (p : Params src)
      → src.list_directory dir_resumes ≡ some names
      → Memᴰ (resume_name src.hash_text h) names
      → src.load_file (resume_path src dir_store dir_resumes h) ≡ some data_
      → src.read_resume_data data_ ≡ (p, false)
      → Memᴰ p (load_resumes src dir_store dir_resumes)
  unfolding load_resumes
  load_resumes_saved laws h names d p listed m l r =
      rw (listed, load_resumes)
        (load_named-Memᴰ (resume_name src.hash_text h) d p names
          (resume_name-from_hex src.hash_text laws h).0 l r m)
