-- ===== src/Startup/Prepared.antt =====
-- What prepare_dirs leaves behind, and what save_file and load_file give together.
use mathlib.Core.Path.{subst}
use kedge.Base.{
  ℕ, ◌≤◌, ◌<◌, ◌≡◌, refl, sym, ◌∙◌, ◌≢◌, ◌↔◌, Bool, true, false, inl, inr, Option, none, some, List,
  [], ◌∷◌, arith, length, Bool-cases, All,
}
use kedge.Bytes.{Bytes, bytes_eq, bytes_eq_iff, bytes_eq_self}
use kedge.Startup.Files.{
  Entry, regular, directory, Disk, put_entry, within, load_file, can_open, save_file, made,
  create_directory, create_all, conf_dirs, prepare_dirs,
}

entries-put_entry : (p : Bytes) (e : Entry) (d : Disk) → (put_entry p e d).entries p ≡ some e
unfolding put_entry
entries-put_entry p e d = rw (bytes_eq_self p) refl

bytes_eq-other : (q p : Bytes) → q ≢ p → bytes_eq q p ≡ false
bytes_eq-other q p n = elim (Bool-cases (bytes_eq q p)) [
  | inl e ↦ absurd (n ((bytes_eq_iff q p).0 e))
  | inr e ↦ e
]

-- An entry that was there is not touched.
entries-put_entry_new :
    (p : Bytes) (e : Entry) (d : Disk) (q : Bytes) (f : Entry)
    → d.entries p ≡ none
    → d.entries q ≡ some f
    → (put_entry p e d).entries q ≡ some f
unfolding put_entry
entries-put_entry_new p e d q f free h = elim (Bool-cases (bytes_eq q p)) [
  | inl same ↦ let there : d.entries p ≡ some f = rw ((bytes_eq_iff q p).0 same) at h in cc
  | inr other ↦ rw other h
]

made_iff :
    (d : Disk) (p : Bytes) (o : Option Entry)
    → d.entries p ≡ o
    → ((made d p o).1 ≡ true) ↔ ((made d p o).0.entries p ≡ some directory)
made_iff d p none h = elim (Bool-cases (d.may_create d.entries p)) [
  | inl y ↦ rw y (λ _. entries-put_entry p directory d, λ _. refl)
  | inr n ↦ rw n (λ e. cc, λ e. cc)
]
made_iff d p (some directory) h = (λ _. h, λ _. refl)
made_iff d p (some (regular v)) h = (λ e. cc, λ e. cc)

made_keeps :
    (d : Disk) (p : Bytes) (o : Option Entry) (q : Bytes) (e : Entry)
    → d.entries p ≡ o
    → d.entries q ≡ some e
    → (made d p o).0.entries q ≡ some e
made_keeps d p none q e h k = elim (Bool-cases (d.may_create d.entries p)) [
  | inl y ↦ rw y (entries-put_entry_new p directory d q e h k)
  | inr n ↦ rw n k
]
made_keeps d p (some directory) q e h k = k
made_keeps d p (some (regular v)) q e h k = k

create_directory_iff :
    (d : Disk) (p : Bytes)
    → ((create_directory d p).1 ≡ true) ↔ ((create_directory d p).0.entries p ≡ some directory)
unfolding create_directory
create_directory_iff d p = made_iff d p (d.entries p) refl

create_directory_keeps :
    (d : Disk) (p q : Bytes) (e : Entry)
    → d.entries q ≡ some e
    → (create_directory d p).0.entries q ≡ some e
unfolding create_directory
create_directory_keeps d p q e h = made_keeps d p (d.entries p) q e refl h

create_all_keeps :
    (d : Disk) (ps : List Bytes) (q : Bytes) (e : Entry)
    → d.entries q ≡ some e
    → (create_all d ps).0.entries q ≡ some e
unfolding create_all
create_all_keeps d [] q e h = h
create_all_keeps d (p ∷ ps) q e h =
    let first = create_directory_keeps d p q e h in
    elim (Bool-cases (create_directory d p).1) [
      | inl y ↦ rw y (create_all_keeps (create_directory d p).0 ps q e first)
      | inr n ↦ rw n first
    ]

abbrev pub IsDirectory : Disk → Bytes → Type 0
IsDirectory d p = d.entries p ≡ some directory

create_all-done :
    (d : Disk) (p : Bytes) (ps : List Bytes)
    → (create_directory d p).1 ≡ true
    → create_all d (p ∷ ps) ≡ create_all (create_directory d p).0 ps
unfolding create_all
create_all-done d p ps h = rw h refl

create_all-failed :
    (d : Disk) (p : Bytes) (ps : List Bytes)
    → (create_directory d p).1 ≡ false
    → create_all d (p ∷ ps) ≡ ((create_directory d p).0, false)
unfolding create_all
create_all-failed d p ps h = rw h refl

create_all-nil : (d : Disk) → create_all d [] ≡ (d, true)
unfolding create_all
create_all-nil d = refl

-- The report, and what it promises of the disk.
abbrev IsTrueReport : List Bytes → Disk × Bool → Type 0
IsTrueReport ps r = (r.1 ≡ true) ↔ All (IsDirectory r.0) ps

create_all_iff : (d : Disk) (ps : List Bytes) → IsTrueReport ps (create_all d ps)
create_all_iff d [] = subst (IsTrueReport []) (sym (create_all-nil d)) (λ _. tt, λ _. refl)
create_all_iff d (p ∷ ps) =
    let d' = (create_directory d p).0 in
    let first = create_directory_iff d p in
    elim (Bool-cases (create_directory d p).1) [
      | inl y ↦ subst (IsTrueReport (p ∷ ps)) (sym (create_all-done d p ps y)) (
        (λ h. (create_all_keeps d' ps p directory (first.0 y), (create_all_iff d' ps).0 h)),
        (λ h. (create_all_iff d' ps).1 h.1),
      )
      | inr n ↦
          subst (IsTrueReport (p ∷ ps)) (sym (create_all-failed d p ps n))
            ((λ h. cc), (λ h. sym n ∙ first.1 h.0))
    ]

-- prepare_dirs reports success exactly if the directory of the program and the three below it are
-- directories afterwards, and every entry that was there stays as it was.
pub prepare_dirs-Prepares :
    (d : Disk) (cd : Bytes)
    → let d' = (prepare_dirs d cd).0 in
      (((prepare_dirs d cd).1 ≡ true) ↔ All (IsDirectory d') (conf_dirs cd))
      × ((q : Bytes) (e : Entry) → d.entries q ≡ some e → d'.entries q ≡ some e)
unfolding prepare_dirs
prepare_dirs-Prepares d cd = (create_all_iff d (conf_dirs cd), create_all_keeps d (conf_dirs cd))

-- A file that could be saved was put_entry on the disk.
save_file-done :
    (d : Disk) (filename v : Bytes)
    → (save_file d filename v).1 ≡ true
    → (save_file d filename v).0 ≡ put_entry filename (regular v) d
unfolding save_file
save_file-done d filename v h = ground arith

-- Other files are left alone, saved or not.
pub load_file-other :
    (d : Disk) (filename v q : Bytes) (limit : ℕ)
    → q ≢ filename
    → load_file (save_file d filename v).0 q limit ≡ load_file d q limit
unfolding load_file save_file put_entry
load_file-other d filename v q limit n = elim (Bool-cases (can_open (d.entries filename))) [
  | inr off ↦ rw off refl
  | inl open_ ↦ elim (Bool-cases (d.may_write filename)) [
    | inl y ↦ rw (open_, y, bytes_eq-other q filename n) refl
    | inr off ↦ rw (open_, off) refl
  ]
]

within-le : (limit : ℕ) (v : Bytes) → length v ≤ limit → within limit (some (regular v)) ≡ some v
within-le limit v h = ground arith

within-gt : (limit : ℕ) (v : Bytes) → limit < length v → within limit (some (regular v)) ≡ none
within-gt limit v h = ground arith

-- What save_file has saved is loaded again if it has at most as many bytes as the limit, and is not
-- loaded if it has more, and every other file loads as before.
pub load_file-save_file :
    (d : Disk) (filename v : Bytes) (limit : ℕ)
    → (save_file d filename v).1 ≡ true
    → let d' = (save_file d filename v).0 in
      (length v ≤ limit → load_file d' filename limit ≡ some v)
      × (limit < length v → load_file d' filename limit ≡ none)
      × ((q : Bytes) → q ≢ filename → load_file d' q limit ≡ load_file d q limit)
unfolding load_file
load_file-save_file d filename v limit h = rw (save_file-done d filename v h) (
  (λ le. rw (entries-put_entry filename (regular v) d) (within-le limit v le)),
  (λ gt. rw (entries-put_entry filename (regular v) d) (within-gt limit v gt)),
  (λ q n. rw (sym (save_file-done d filename v h)) (load_file-other d filename v q limit n)),
)
