-- ===== src/HttpSession/Files.antt =====
-- Which files a request can open.
use kedge.Base.{
  ℕ, suc, ◌≡◌, refl, true, false, not, inl, inr, Option, none, some, [], ◌∷◌, ◌++◌, arith,
  Bool-cases, append_assoc,
}
use mathlib.Core.Option
use kedge.Bytes.{Bytes, codes, find, starts_with}
use kedge.Fault.{Result, done, out_of_range, bad_deref, ◌>>=◌}
use kedge.Util.{HashText}
use kedge.HttpUtil.{Request, Response, mime_type}
use kedge.Json.{Json}
use kedge.Handlers.{SheathOps, sb_call}
use kedge.HttpSession.{
  Opened, is_head, opened, no_such_file, failed, FileResponse, Reply, text, file, last_is, is_found,
  is_illegal, file_path, serve_file, or_file, handle_request,
}

-- No two dots in a row.
abbrev pub NoDots : Bytes → Type 0
NoDots s = find (codes "..") s ≡ none

find-cons_none :
    (p : Bytes) (c : ℕ) (s : Bytes)
    → find p (c ∷ s) ≡ none
    → (starts_with p (c ∷ s) ≡ false) × (find p s ≡ none)
find-cons_none p c s h = elim (Bool-cases (starts_with p (c ∷ s))) [
  | inl e ↦ let z : ◌≡◌ {A = Option ℕ} (some 0) none = (unfold find in rw (e, find) at h) in cc
  | inr e ↦ (
    e,
    let z : Option.map suc (find p s) ≡ none = (unfold find in rw (e, find) at h) in
        not_mapped (find p s) z,
  )
]
  where
    not_mapped : (o : Option ℕ) → Option.map suc o ≡ none → o ≡ none
    not_mapped none z = refl
    not_mapped (some k) z = cc

find-none-cons :
    (p : Bytes) (c : ℕ) (s : Bytes)
    → starts_with p (c ∷ s) ≡ false
    → find p s ≡ none
    → find p (c ∷ s) ≡ none
unfolding find
find-none-cons p c s e h = rw (e, find) (rw h refl)

index_alone : (c : ℕ) → c ≡ b'/' → NoDots (c ∷ codes "index.html")
unfolding find starts_with
index_alone c e = rw e refl

NoDots-index : (s : Bytes) → last_is b'/' s ≡ true → NoDots s → NoDots (s ++ codes "index.html")
unfolding last_is
NoDots-index [] h k = cc
NoDots-index (c ∷ []) h k = index_alone c (ground arith)
NoDots-index (c ∷ d ∷ s) h k =
    let (start, rest) = find-cons_none (codes "..") c (d ∷ s) k in
    find-none-cons (codes "..") c (d ∷ (s ++ codes "index.html")) (unfold starts_with in start)
      (NoDots-index (d ∷ s) h rest)

-- What is opened stands under the root: the root, and a path from "/" on without "..".
pub data IsUnder (root : Bytes) : Bytes → Type 0 where
  under : (rest : Bytes) → NoDots (b'/' ∷ rest) → IsUnder root (root ++ b'/' ∷ rest)

dots_none : (o : Option ℕ) → is_found o ≡ false → o ≡ none
dots_none none h = refl
dots_none (some i) h = cc

legal-target :
    (target : Bytes)
    → is_illegal target ≡ false
    → (rest : Bytes) × (target ≡ b'/' ∷ rest) × NoDots target
unfolding is_illegal
legal-target [] h = cc
legal-target (c ∷ rest) h =
    (rest, ground arith, dots_none (find (codes "..") (c ∷ rest)) (ground arith))

file_path-IsUnder :
    (root target : Bytes) → is_illegal target ≡ false → IsUnder root (file_path root target)
unfolding file_path
file_path-IsUnder root target h =
    let (rest, e, clean) = legal-target target h in
    elim (Bool-cases (last_is b'/' target)) [
      | inl slash ↦
          let whole : NoDots (b'/' ∷ (rest ++ codes "index.html")) =
            rw e at (NoDots-index target slash clean) in
          rw (slash, e, append_assoc root (b'/' ∷ rest) (codes "index.html")) (under _ whole)
      | inr plain ↦ rw (plain, e) (under rest (rw e at clean))
    ]

module _ (t : HashText) {S : Type 0} (ops : SheathOps t.Hash S) (serialize : Json → Bytes)
    (root : Bytes) (open_file : Bytes → Opened) where
  -- A file that a request is answered from lies under the root, its path does not climb, its content
  -- type is that of the path, its length the size of the file, and its content is left out for HEAD.
  pub record IsServed (req : Request) (r : FileResponse) : Type 0 where
    pub inside : IsUnder root r.path
    pub exists : open_file r.path ≡ opened r.content_length
    pub content : r.content_type ≡ mime_type r.path
    pub body : r.with_body ≡ not (is_head req.method)

  -- If the reply is a file, it is one that may be served.
  pub data Serves (req : Request) : Result (S × Reply) → Type 0 where
    as_text : (s : S) (r : Response) → Serves req (done (s, text r))
    as_file : (s : S) {r : FileResponse} → IsServed req r → Serves req (done (s, file r))
    thrown : Serves req out_of_range
    fault : Serves req bad_deref

  serve_file-Serves :
      (req : Request) (s : S) (path : Bytes) (o : Opened)
      → IsUnder root path
      → open_file path ≡ o
      → Serves req (done (s, serve_file req path o))
  unfolding serve_file
  serve_file-Serves req s path no_such_file u e = as_text s _
  serve_file-Serves req s path (failed what) u e = as_text s _
  serve_file-Serves req s path (opened size) u e =
      as_file s (record { inside = u; exists = e; content = refl; body = refl })

  or_file-Serves :
      (req : Request) (x : S × Option Response)
      → is_illegal req.target ≡ false
      → Serves req (done (or_file t ops serialize root open_file req x))
  or_file-Serves req (s, some r) h = as_text s r
  or_file-Serves req (s, none) h =
      serve_file-Serves req s (file_path root req.target) _ (file_path-IsUnder root req.target h)
        refl

  answered-Serves :
      (req : Request) (r : Result (S × Option Response))
      → is_illegal req.target ≡ false
      → Serves req (r >>= λ x. done (or_file t ops serialize root open_file req x))
  answered-Serves req (done x) h = or_file-Serves req x h
  answered-Serves req out_of_range h = thrown
  answered-Serves req bad_deref h = fault

  -- Whatever the target, a reply with a file is one that lies under the root of the web UI by a
  -- path without "..", with the file's size, the content type of its path, and without content for
  -- HEAD.
  pub handle_request-Serves :
      (req : Request) (s : S) → Serves req (handle_request t ops serialize root open_file req s)
  unfolding handle_request
  handle_request-Serves req s = elim (Bool-cases (is_illegal req.target)) [
    | inl bad ↦ rw bad (as_text s _)
    | inr good ↦ rw good (answered-Serves req (sb_call t ops serialize req s) good)
  ]
