-- ===== src/JsonDiff/Plain.antt =====
-- Values whose patches are exact: plain keys that are all different, and no NaN; and pairs of them
-- in which no array grows by more than one element.
use kedge.Base.{
  suc, ◌≤◌, ◌≡◌, ◌≢◌, true, not, ◌||◌, Option, none, some, [], ◌∷◌, ◌==◌, All, all, arith,
  &&-eq-true,
}
use kedge.Bytes.{Bytes}
use kedge.Json.{
  Json, double_, array, object, Items, nil, cons, Members, end, member, find_key, size_items,
  double_eq,
}

-- A key without "/" and "~".
abbrev pub IsPlainKey : Bytes → Type 0
IsPlainKey = All (λ c. (c ≢ 47) × (c ≢ 126))

-- A key is plain if a test of its bytes says so.
pub plain_key : (k : Bytes) → all (λ c. not (c == 47 || c == 126)) k ≡ true → IsPlainKey k
plain_key [] h = tt
plain_key (c ∷ k) h =
    let (first, rest) = &&-eq-true (not (c == 47 || c == 126)) _ h in
    ((λ e. ground (arith, first), λ e. ground (arith, first)), plain_key k rest)

unfoldable mutual
  unfolding find_key double_eq

  pub IsPlain : Json → Type 0
  IsPlain (double_ b) = double_eq b b ≡ true
  IsPlain (array xs) = ArePlain xs
  IsPlain (object ms) = HavePlain ms
  IsPlain _ = Unit

  pub ArePlain : Items → Type 0
  ArePlain nil = Unit
  ArePlain (cons x xs) = IsPlain x × ArePlain xs

  pub HavePlain : Members → Type 0
  HavePlain end = Unit
  HavePlain (member k v ms) = IsPlainKey k × ((find_key k ms ≡ none) × (IsPlain v × HavePlain ms))

abbrev pub HeldBy : (Json → Type 0) → Option Json → Type 0
HeldBy P none = Unit
HeldBy P (some w) = P w

unfoldable mutual
  unfolding find_key

  pub Fits : Json → Json → Type 0
  Fits (array xs) (array ys) = (size_items ys ≤ suc (size_items xs)) × FitItems xs ys
  Fits (object ms) (object ns) = FitMembers ms ns
  Fits _ _ = Unit

  pub FitItems : Items → Items → Type 0
  FitItems (cons x xs) (cons y ys) = Fits x y × FitItems xs ys
  FitItems _ _ = Unit

  pub FitMembers : Members → Members → Type 0
  FitMembers end ns = Unit
  FitMembers (member k v ms) ns = HeldBy (Fits v) (find_key k ns) × FitMembers ms ns
