-- ===== src/Sheath/Query/Files.antt =====
-- The JSON of a torrent's files.
use native.Mathlib.Nat.{div-le_of_le-mul, div-eq_of_lt-le}
use kedge.Base.{
  ◌≢◌, length, ℕ, suc, ◌≤◌, ◌<◌, ◌≡◌, refl, Bool, true, false, Option, some, inl, inr, List, [],
  ◌∷◌, ltb, arith, Bool-cases,
}
use kedge.Bytes.{Bytes, codes, bytes_eq}
use kedge.Json.{Json, Members, string, end, find_key, size_items}
use kedge.Json.Rows.{build, emplace_if, emplace, push_back}
use kedge.Sheath.Query.{
  FileEntry, RwMode, read_write, read_only, write_only, no_mode, OpenFileState, progress_of,
  state_rows, file_rows, files_json, next,
}

-- For a file with no more bytes than its size the progress is at most a thousand, and it is a
-- thousand if the file is complete.
pub progress_of_bounds :
    (e : FileEntry)
    → e.file_progress ≤ e.file_size
    → (progress_of e ≤ 1000) × (e.file_progress ≡ e.file_size → progress_of e ≡ 1000)
unfolding progress_of
progress_of_bounds e h = elim (Bool-cases (ltb 0 e.file_size)) [
  | inl some_bytes ↦
      let positive : 0 < e.file_size = ground arith in
      rw some_bytes (
        div-le_of_le-mul e.file_size (omega (arith, h)),
        λ full. div-eq_of_lt-le e.file_size (omega arith) (omega arith),
      )
  | inr empty ↦ rw empty (omega arith, λ full. refl)
]

-- What `find` gives for "state" in an object.
abbrev pub state_of : Members → Option Json
state_of ms = find_key (codes "state") ms

abbrev pub text_of : RwMode → Bytes
text_of read_write = codes "read/write"
text_of read_only = codes "read"
text_of write_only = codes "write"
text_of no_mode = []

-- The state of a file that is open for reading, for writing or for both is that of its mode, and
-- neither random access nor sparseness shows in it.
pub file_rows_state :
    (e : FileEntry) (f : OpenFileState)
    → f.mode ≢ no_mode
    → state_of (build end (file_rows e (state_rows f))) ≡ some (string (text_of f.mode))
unfolding file_rows state_rows build emplace_if emplace push_back find_key bytes_eq
file_rows_state e f h = by_mode f.mode f.random_access f.sparse h
  where
    by_mode :
        (m : RwMode) (r s : Bool)
        → m ≢ no_mode
        → state_of (
            build end
              (file_rows e (state_rows (record f { mode = m; random_access = r; sparse = s }))))
          ≡ some (string (text_of m))
    by_mode read_write true true k = refl
    by_mode read_write true false k = refl
    by_mode read_write false true k = refl
    by_mode read_write false false k = refl
    by_mode read_only true true k = refl
    by_mode read_only true false k = refl
    by_mode read_only false true k = refl
    by_mode read_only false false k = refl
    by_mode write_only true true k = refl
    by_mode write_only true false k = refl
    by_mode write_only false true k = refl
    by_mode write_only false false k = refl
    by_mode no_mode r s k = absurd (k refl)

-- Each file has its entry, in order.
pub size-files_json :
    (i : ℕ) (es : List FileEntry) (fs : List OpenFileState)
    → size_items (files_json i es fs) ≡ length es
unfolding files_json
size-files_json i [] fs = refl
size-files_json i (e ∷ es) fs =
    ground (arith, size-files_json (suc i) es fs, size-files_json (suc i) es (next fs))
