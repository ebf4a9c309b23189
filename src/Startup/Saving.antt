-- ===== src/Startup/Saving.antt =====
-- The calls of sheath.cpp that save resume data, on a disk, and the names of their files.
use kedge.Base.{
  ℕ, ◌≡◌, refl, sym, ap, ◌∙◌, ◌≢◌, true, some, List, [], ◌∷◌, ◌++◌, All, suc, ◌==◌, take, drop,
  take-length-append, drop-length-append, Option-cases, length, inl, inr, Bool-cases,
}
use kedge.Bytes.{Bytes, codes, bytes_eq, rfind}
use kedge.Util.{HashText, IsHexText, resume_name, resume_ext, path_join, to_hex}
use kedge.Sheath.Library.{
  TorrentLib, Call, save_file, ask_resume_data, connect_peer, set_max_connections, move_storage,
}
use kedge.Startup.Files
use kedge.Startup.Files.{can_open, put_entry, Disk, load_file, file_limit}
use kedge.Startup.Prepared.{load_file-other}

-- The program's calls, on the disk.
unfoldable pub run_calls : {l : TorrentLib} → List (Call l) → Disk → Disk
run_calls [] d = d
run_calls (save_file filename v ∷ calls) d = run_calls calls (Files.save_file d filename v).0
run_calls (_ ∷ calls) d = run_calls calls d

append_cancel : (s p q : Bytes) → s ++ p ≡ s ++ q → p ≡ q
append_cancel s p q e =
    sym (drop-length-append s p) ∙ ap (drop (length s)) e ∙ drop-length-append s q

pub path_join_injective : (dir p q : Bytes) → path_join dir p ≡ path_join dir q → p ≡ q
unfolding path_join
path_join_injective [] p q e = e
path_join_injective (c ∷ dir) p q e = elim (Option-cases (rfind 47 (c ∷ dir))) [
  | inl n ↦ append_cancel ((c ∷ dir) ++ codes "/") p q (rw (n, path_join) at e)
  | inr (i, f) ↦ elim (Bool-cases (suc i == length (c ∷ dir))) [
    | inl y ↦ append_cancel (c ∷ dir) p q (rw y at (rw (f, path_join) at e))
    | inr n ↦ append_cancel ((c ∷ dir) ++ codes "/") p q (rw n at (rw (f, path_join) at e))
  ]
]

pub resume_name_injective :
    (t : HashText) (laws : IsHexText t) (h k : t.Hash) → resume_name t h ≡ resume_name t k → h ≡ k
unfolding resume_name to_hex
resume_name_injective t laws h k e =
    let forty : (j : t.Hash) → take 40 (t.write j ++ resume_ext) ≡ t.write j = λ j.
      ap (λ n. take n (t.write j ++ resume_ext)) (sym (laws.write_length j))
      ∙ take-length-append (t.write j) resume_ext in
    let same : t.write h ≡ t.write k = sym (forty h) ∙ ap (take 40) e ∙ forty k in
    let read : some h ≡ some k = sym (laws.read-write h) ∙ ap t.read same ∙ laws.read-write k in cc

-- The file can be written, whether it is there or not.
abbrev pub CanSave : Bytes → Disk → Type 0
CanSave f d = (can_open (d.entries f) ≡ true) × (d.may_write f ≡ true)

pub save_file-allowed : (f v : Bytes) (d : Disk) → CanSave f d → (Files.save_file d f v).1 ≡ true
unfolding Files.save_file
save_file-allowed f v d (o, w) = rw (o, w) refl

save_file-CanSave : (f g v : Bytes) (d : Disk) → CanSave f d → CanSave f (Files.save_file d g v).0
unfolding Files.save_file put_entry
save_file-CanSave f g v d (o, w) = elim (Bool-cases (can_open (d.entries g))) [
  | inr off ↦ rw off (o, w)
  | inl on ↦ elim (Bool-cases (d.may_write g)) [
    | inr off ↦ rw (on, off) (o, w)
    | inl y ↦ elim (Bool-cases (bytes_eq f g)) [
      | inl e ↦ rw (on, y, e) (refl, w)
      | inr e ↦ rw (on, y, e) (o, w)
    ]
  ]
]

module _ {l : TorrentLib} where
  pub run_calls-CanSave :
      (f : Bytes) (calls : List (Call l)) (d : Disk) → CanSave f d → CanSave f (run_calls calls d)
  unfolding run_calls
  run_calls-CanSave f [] d h = h
  run_calls-CanSave f (save_file g v ∷ calls) d h =
      run_calls-CanSave f calls (Files.save_file d g v).0 (save_file-CanSave f g v d h)
  run_calls-CanSave f (ask_resume_data t b ∷ calls) d h = run_calls-CanSave f calls d h
  run_calls-CanSave f (connect_peer t p ∷ calls) d h = run_calls-CanSave f calls d h
  run_calls-CanSave f (set_max_connections t n ∷ calls) d h = run_calls-CanSave f calls d h
  run_calls-CanSave f (move_storage t v ∷ calls) d h = run_calls-CanSave f calls d h

  pub run_calls-append :
      (calls more : List (Call l)) (d : Disk)
      → run_calls (calls ++ more) d ≡ run_calls more (run_calls calls d)
  unfolding run_calls
  run_calls-append [] more d = refl
  run_calls-append (save_file g v ∷ calls) more d =
      run_calls-append calls more (Files.save_file d g v).0
  run_calls-append (ask_resume_data t b ∷ calls) more d = run_calls-append calls more d
  run_calls-append (connect_peer t p ∷ calls) more d = run_calls-append calls more d
  run_calls-append (set_max_connections t n ∷ calls) more d = run_calls-append calls more d
  run_calls-append (move_storage t v ∷ calls) more d = run_calls-append calls more d

  -- A call that does not write the file.
  abbrev pub Spares : Bytes → Call l → Type 0
  Spares f (save_file g v) = f ≢ g
  Spares f _ = Unit

  pub run_calls-Spares :
      (f : Bytes) (limit : ℕ) (calls : List (Call l)) (d : Disk)
      → All (Spares f) calls
      → load_file (run_calls calls d) f limit ≡ load_file d f limit
  unfolding run_calls
  run_calls-Spares f limit [] d h = refl
  run_calls-Spares f limit (save_file g v ∷ calls) d (n, h) =
      run_calls-Spares f limit calls (Files.save_file d g v).0 h ∙ load_file-other d g v f limit n
  run_calls-Spares f limit (ask_resume_data t b ∷ calls) d (_, h) =
      run_calls-Spares f limit calls d h
  run_calls-Spares f limit (connect_peer t p ∷ calls) d (_, h) = run_calls-Spares f limit calls d h
  run_calls-Spares f limit (set_max_connections t n ∷ calls) d (_, h) =
      run_calls-Spares f limit calls d h
  run_calls-Spares f limit (move_storage t v ∷ calls) d (_, h) = run_calls-Spares f limit calls d h
