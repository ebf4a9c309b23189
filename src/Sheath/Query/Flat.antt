-- ===== src/Sheath/Query/Flat.antt =====
-- The values that getSyncStats makes: objects of scalars, of which patches are exact.
use kedge.Base.{
  ℕ, suc, ◌+◌, ◌≤◌, ◌≡◌, refl, ap, inl, inr, Bool, true, false, not, ◌&&◌, ◌||◌, Option, some, List,
  [], ◌∷◌, ◌==◌, arith, all, All, length, &&-true, &&-eq-true, Bool-cases, Option-cases,
}
use kedge.Bytes.{Bytes, codes, bytes_eq}
use kedge.Util.{HashText}
use kedge.Json.{
  Json, null, bool_, int64, uint64, double_, string, array, object, Members, end, member, find_key,
  size_items, double_eq,
}
use kedge.Json.Rows.{Row, push_back, emplace, emplace_if, build}
use kedge.JsonDiff.Keys.{HavePlain-push_back}
use kedge.JsonDiff.Plain.{plain_key, IsPlain, ArePlain, HavePlain, HeldBy, Fits, FitItems}
use kedge.Stats.{SessionStats, stats_rows, to_json_object}
use kedge.Sheath.Status.{TorrentStatus, status_rows, torrent_status_to_json_obj}
use kedge.Sheath.Query.{statuses_json, statuses, get_sync_stats}

-- A value that is no array and no object, and no NaN.
abbrev plain_scalar : Json → Bool
plain_scalar (array xs) = false
plain_scalar (object ms) = false
plain_scalar (double_ b) = double_eq b b
plain_scalar _ = true

abbrev plain_text : Bytes → Bool
plain_text k = all (λ c. not (c == 47 || c == 126)) k

unfoldable plain_rows : List Row → Bool
plain_rows [] = true
plain_rows (r ∷ rs) = (plain_text r.key && plain_scalar r.value) && plain_rows rs

unfoldable flat : Members → Bool
flat end = true
flat (member k v ms) = plain_scalar v && flat ms

plain_scalar-IsPlain : (v : Json) → plain_scalar v ≡ true → IsPlain v
unfolding IsPlain
plain_scalar-IsPlain null h = tt
plain_scalar-IsPlain (bool_ b) h = tt
plain_scalar-IsPlain (int64 i) h = tt
plain_scalar-IsPlain (uint64 n) h = tt
plain_scalar-IsPlain (double_ b) h = h
plain_scalar-IsPlain (string s) h = tt
plain_scalar-IsPlain (array xs) h = let wrong : ⊥ = cc in absurd wrong
plain_scalar-IsPlain (object ms) h = let wrong : ⊥ = cc in absurd wrong

plain_scalar-Fits : (v w : Json) → plain_scalar v ≡ true → Fits v w
unfolding Fits
plain_scalar-Fits null w h = tt
plain_scalar-Fits (bool_ b) w h = tt
plain_scalar-Fits (int64 i) w h = tt
plain_scalar-Fits (uint64 n) w h = tt
plain_scalar-Fits (double_ b) w h = tt
plain_scalar-Fits (string s) w h = tt
plain_scalar-Fits (array xs) w h = let wrong : ⊥ = cc in absurd wrong
plain_scalar-Fits (object ms) w h = let wrong : ⊥ = cc in absurd wrong

flat-Fits : (ms ns : Members) → flat ms ≡ true → Fits (object ms) (object ns)
unfolding flat Fits
flat-Fits end ns h = tt
flat-Fits (member k v ms) ns h =
    let (a, b) = &&-eq-true (plain_scalar v) (flat ms) h in (held a, flat-Fits ms ns b)
  where
    held : plain_scalar v ≡ true → HeldBy (Fits v) (find_key k ns)
    held a = elim (Option-cases (find_key k ns)) [
      | inl n ↦ rw n tt
      | inr (w, s) ↦ rw s (plain_scalar-Fits v w a)
    ]

flat-push_back :
    (ms : Members) (k : Bytes) (v : Json)
    → flat ms ≡ true
    → plain_scalar v ≡ true
    → flat (push_back ms k v) ≡ true
unfolding flat push_back
flat-push_back end k v h s = rw s refl
flat-push_back (member j w ms) k v h s =
    let (a, b) = &&-eq-true (plain_scalar w) (flat ms) h in
    &&-true (plain_scalar w) _ a (flat-push_back ms k v b s)

-- An object of scalars with plain keys.
abbrev IsFlat : Members → Type 0
IsFlat ms = (flat ms ≡ true) × HavePlain ms

IsFlat-emplace_if :
    (ms : Members) (r : Row)
    → IsFlat ms
    → plain_text r.key ≡ true
    → plain_scalar r.value ≡ true
    → IsFlat (emplace_if ms r)
unfolding emplace_if emplace
IsFlat-emplace_if ms r (f, p) k s = elim (Bool-cases r.when) [
  | inl e ↦ elim (Option-cases (find_key r.key ms)) [
    | inl n ↦
        rw (e, n, emplace)
          (
            flat-push_back ms r.key r.value f s,
            HavePlain-push_back ms r.key r.value n (plain_key r.key k)
                (plain_scalar-IsPlain r.value s) p,
          )
    | inr (w, there) ↦ rw (e, there, emplace) (f, p)
  ]
  | inr e ↦ rw e (f, p)
]

build-IsFlat :
    (rs : List Row) (ms : Members) → IsFlat ms → plain_rows rs ≡ true → IsFlat (build ms rs)
unfolding build plain_rows
build-IsFlat [] ms h p = h
build-IsFlat (r ∷ rs) ms h p =
    let (here, rest) = &&-eq-true (plain_text r.key && plain_scalar r.value) (plain_rows rs) p in
    let (k, s) = &&-eq-true (plain_text r.key) (plain_scalar r.value) here in
    build-IsFlat rs (emplace_if ms r) (IsFlat-emplace_if ms r h k s) rest

end-IsFlat : IsFlat end
unfolding flat IsPlain
end-IsFlat = (refl, tt)

-- The JSON of the statistics of the session.
stats-IsFlat : (s : SessionStats) → IsFlat (build end (stats_rows s))
unfolding stats_rows plain_rows
stats-IsFlat s = build-IsFlat (stats_rows s) end end-IsFlat refl

-- How many torrents some statistics show.
abbrev items_in : Option Json → ℕ
items_in (some (array xs)) = size_items xs
items_in _ = 0

unfoldable pub torrent_count : Json → ℕ
unfolding find_key bytes_eq
torrent_count (object ms) = items_in (find_key (codes "torrents") ms)
torrent_count _ = 0

-- The progress of a torrent is a number.
abbrev pub HasProgress : {H : Type 0} → TorrentStatus H → Type 0
HasProgress st = double_eq st.progress st.progress ≡ true

module _ (t : HashText) where
  status-IsFlat :
      (st : TorrentStatus t.Hash) → HasProgress st → IsFlat (build end (status_rows t st))
  unfolding status_rows plain_rows
  status-IsFlat st h = build-IsFlat (status_rows t st) end end-IsFlat (rw h refl)

  statuses-ArePlain :
      (sts : List (TorrentStatus t.Hash)) → All HasProgress sts → ArePlain (statuses_json t sts)
  unfolding statuses_json torrent_status_to_json_obj IsPlain
  statuses-ArePlain [] h = tt
  statuses-ArePlain (st ∷ sts) (p, h) = ((status-IsFlat st p).1, statuses-ArePlain sts h)

  -- The statistics are an object, and plain if the progress of each torrent is a number.
  pub sync_stats-IsPlain :
      {H : Type 0} (stats : SessionStats) (handles : List (H × TorrentStatus t.Hash))
      → All HasProgress (statuses t handles)
      → IsPlain (get_sync_stats t stats handles)
  unfolding get_sync_stats build IsPlain to_json_object find_key bytes_eq
  sync_stats-IsPlain stats handles h = (
    plain_key (codes "stats") refl,
    (
      refl,
      (
        (stats-IsFlat stats).1,
        (plain_key (codes "torrents") refl, (refl, (statuses-ArePlain (statuses t handles) h, tt))),
      ),
    ),
  )

  statuses-FitItems :
      (sts sts' : List (TorrentStatus t.Hash))
      → All HasProgress sts
      → FitItems (statuses_json t sts) (statuses_json t sts')
  unfolding statuses_json torrent_status_to_json_obj Fits
  statuses-FitItems [] sts' h = tt
  statuses-FitItems (st ∷ sts) [] h = tt
  statuses-FitItems (st ∷ sts) (st' ∷ sts') (p, h) = (
    flat-Fits (build end (status_rows t st)) _ (status-IsFlat st p).0,
    statuses-FitItems sts sts' h,
  )

  size-statuses :
      {H : Type 0} (handles : List (H × TorrentStatus t.Hash))
      → size_items (statuses_json t (statuses t handles)) ≡ length handles
  unfolding statuses_json
  size-statuses [] = refl
  size-statuses ((h, st) ∷ handles) = ap suc (size-statuses handles)

  -- Statistics fit earlier ones if there is at most one torrent more.
  pub sync_stats-Fits :
      {H : Type 0} (stats stats' : SessionStats)
      (handles handles' : List (H × TorrentStatus t.Hash))
      → All HasProgress (statuses t handles)
      → length handles' ≤ length handles + 1
      → Fits (get_sync_stats t stats handles) (get_sync_stats t stats' handles')
  unfolding get_sync_stats build Fits to_json_object find_key bytes_eq
  sync_stats-Fits stats stats' handles handles' h few = (
    flat-Fits (build end (stats_rows stats)) _ (stats-IsFlat stats).0,
    (
      (
        omega (arith, size-statuses handles, size-statuses handles', few),
        statuses-FitItems (statuses t handles) (statuses t handles') h,
      ),
      tt,
    ),
  )

  pub size-sync_stats :
      {H : Type 0} (stats : SessionStats) (handles : List (H × TorrentStatus t.Hash))
      → torrent_count (get_sync_stats t stats handles) ≡ length handles
  unfolding get_sync_stats build find_key bytes_eq torrent_count
  size-sync_stats stats handles = size-statuses handles
