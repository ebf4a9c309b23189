-- ===== src/Startup/Restart.antt =====
-- What becomes of the session's state between the end of the program and its next start.
use kedge.Base.{
  ℕ, suc, ◌≤◌, ◌≡◌, refl, sym, ap, ◌∙◌, ◌≢◌, ◌↔◌, ◌⊎◌, inl, inr, Bool, true, false, Option, none,
  some, List, [], ◌∷◌, ◌++◌, arith, length, length-append, Bool-cases, Option-cases, ◌==◌,
}
use kedge.Bytes.{Bytes, codes, rfind}
use kedge.Util.{path_join, path_cat}
use kedge.Sheath.Ending.{new_sheath_dirs, SaveCall, pause_session, save_session_file, save_session}
use kedge.Startup.Environment.{Environment, get_conf_dir, app_name}
use kedge.Startup.Files.{Disk, load_file, save_file, file_limit}
use kedge.Startup.Parameters.{
  SessionLib, Params, parsed_or, with_privacy, restored, sess_file, load_sess_params,
}
use kedge.Startup.Prepared.{load_file-other}

-- A byte that the end of a text lacks is found before it.
rfind-before :
    (c : ℕ) (s t : Bytes)
    → rfind c t ≡ none
    → (rfind c (s ++ t) ≡ none) ⊎ ((i : ℕ) × (rfind c (s ++ t) ≡ some i) × (suc i ≤ length s))
unfolding rfind
rfind-before c [] t h = inl h
rfind-before c (b ∷ s) t h = elim (rfind-before c s t h) [
  | inl n ↦ elim (Bool-cases (b == c)) [
    | inl y ↦ rw (n, rfind, y) (inr (0, refl, omega arith))
    | inr o ↦ rw (n, rfind, o) (inl refl)
  ]
  | inr (i, e, le) ↦ rw (e, rfind) (inr (suc i, refl, omega (arith, le)))
]

-- Behind a name that does not end in a separator `operator/` puts one.
path_join-behind :
    (dir p : Bytes)
    → 1 ≤ length dir
    → (rfind 47 dir ≡ none) ⊎ ((i : ℕ) × (rfind 47 dir ≡ some i) × (suc (suc i) ≤ length dir))
    → path_join dir p ≡ dir ++ codes "/" ++ p
unfolding path_join
path_join-behind [] p long h = absurd (omega arith)
path_join-behind (c ∷ dir) p long (inl n) = rw (n, path_join) refl
path_join-behind (c ∷ dir) p long (inr (i, e, lt)) =
    let inside : (suc i == length (c ∷ dir)) ≡ false = ground (arith, lt) in
    rw (e, path_join) (rw inside refl)

path_join-ends : (dir p : Bytes) → (base : Bytes) × (path_join dir p ≡ base ++ p)
unfolding path_join
path_join-ends [] p = ([], refl)
path_join-ends (c ∷ dir) p = elim (Option-cases (rfind 47 (c ∷ dir))) [
  | inl n ↦ rw (n, path_join) ((c ∷ dir) ++ codes "/", refl)
  | inr (i, e) ↦ elim (Bool-cases (suc i == length (c ∷ dir))) [
    | inl y ↦ (c ∷ dir, rw (e, path_join) (rw y refl))
    | inr n ↦ ((c ∷ dir) ++ codes "/", rw (e, path_join) (rw n refl))
  ]
]

-- The directory of the program's files ends in the program's name.
conf_dir-name : (e : Environment) → (base : Bytes) × (get_conf_dir e ≡ base ++ app_name e)
unfolding get_conf_dir
conf_dir-name e = path_join-ends _ _

no_slash : rfind 47 (codes "kedge") ≡ none
unfolding rfind
no_slash = refl

-- The file that the end writes is not the one that the start reads.
state_paths_differ :
    (e : Environment) → path_cat (get_conf_dir e) sess_file ≢ path_join (get_conf_dir e) sess_file
unfolding path_cat
state_paths_differ e same =
    let (base, named) = conf_dir-name e in
    let long = length-append {0} base (codes "kedge") in
    let apart : path_join (base ++ codes "kedge") sess_file
        ≡ (base ++ codes "kedge") ++ codes "/" ++ sess_file =
      path_join-behind (base ++ codes "kedge") sess_file (omega (arith, long))
        (elim (rfind-before 47 base (codes "kedge") no_slash) [
          | inl n ↦ inl n
          | inr (i, f, le) ↦ inr (i, f, omega (arith, long, le))
        ]) in
    let equal : (base ++ codes "kedge") ++ sess_file
        ≡ (base ++ codes "kedge") ++ codes "/" ++ sess_file =
      rw named at same ∙ apart in
    omega (
      arith,
      length-append {0} (base ++ codes "kedge") sess_file,
      length-append {0} ((base ++ codes "kedge") ++ codes "/") sess_file,
      length-append {0} (base ++ codes "kedge") (codes "/"),
      ap length equal,
    )

-- What the calls at the end do to the disk.
unfoldable pub run_saves : List SaveCall → Disk → Disk
unfolding save_file
run_saves [] d = d
run_saves (pause_session ∷ calls) d = run_saves calls d
run_saves (save_session_file filename content ∷ calls) d =
    run_saves calls (save_file d filename content).0

load_sess_params-other :
    (lib : SessionLib) (d : Disk) (cd filename v : Bytes) (params : Params lib)
    → path_cat cd sess_file ≢ filename
    → load_sess_params lib (save_file d filename v).0 cd params ≡ load_sess_params lib d cd params
unfolding load_sess_params
load_sess_params-other lib d cd filename v params n =
    rw (load_file-other d filename v (path_cat cd sess_file) file_limit n) refl

-- The parameters of a session at the start are the same whether or not a session was saved at the
-- end before, whatever the environment, the state and the disk: the saved state is not read.
pub load_sess_params-save_session :
    (lib : SessionLib) (e : Environment) (store moved : Bytes) (d : Disk) (is_paused : Bool)
    → (ses : lib.Session) (params : Params lib)
    → let conf = get_conf_dir e in
      let saves = save_session lib (new_sheath_dirs conf store moved) is_paused ses in
      load_sess_params lib (run_saves saves d) conf params ≡ load_sess_params lib d conf params
unfolding save_session new_sheath_dirs run_saves
load_sess_params-save_session lib e store moved d true ses params =
    load_sess_params-other lib d (get_conf_dir e) _ _ params (state_paths_differ e)
load_sess_params-save_session lib e store moved d false ses params =
    load_sess_params-other lib d (get_conf_dir e) _ _ params (state_paths_differ e)

-- If fresh parameters and those read from a state have no private lookups, then the parameters at
-- the start have them exactly if there is a state file that can be loaded but not parsed.
pub load_sess_params-privacy :
    (lib : SessionLib) (d : Disk) (cd : Bytes)
    → lib.fresh.privacy_lookups ≡ false
    → ((e : lib.Node) → (lib.read_session_params e).privacy_lookups ≡ false)
    → ((load_sess_params lib d cd lib.fresh).privacy_lookups ≡ true) ↔ (
        (text : Bytes) × (load_file d (path_cat cd sess_file) file_limit ≡ some text)
        × (lib.bdecode text ≡ none))
unfolding load_sess_params
load_sess_params-privacy lib d cd h r = privacy_of (load_file d (path_cat cd sess_file) file_limit)
  where
    privacy_of_node :
        (x : Option lib.Node)
        → ((parsed_or lib (with_privacy lib lib.fresh) x).privacy_lookups ≡ true) ↔ (x ≡ none)
    privacy_of_node none = (λ _. refl, λ _. refl)
    privacy_of_node (some e) = ((λ p. let f : false ≡ true = sym (r e) ∙ p in cc), (λ p. cc))

    privacy_of :
        (x : Option Bytes)
        → ((restored lib lib.fresh x).privacy_lookups ≡ true)
          ↔ ((text : Bytes) × (x ≡ some text) × (lib.bdecode text ≡ none))
    privacy_of none = (
      (λ p. let f : false ≡ true = sym h ∙ p in let wrong : ⊥ = cc in absurd wrong),
      (λ (text, s, n). cc),
    )
    privacy_of (some text) =
        let node = privacy_of_node (lib.bdecode text) in
        (
          (λ p. (text, refl, node.0 p)),
          (λ (t, s, n). let same : text ≡ t = cc in node.1 (ap lib.bdecode same ∙ n)),
        )
