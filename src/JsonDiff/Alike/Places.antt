-- ===== src/JsonDiff/Alike/Places.antt =====
-- The same edit of two values that are alike succeeds in both or in none, with results that are alike.
use mathlib.Core.Option
use kedge.Base.{
  ℕ, zero, suc, ◌≡◌, sym, ap, ◌∙◌, inl, inr, true, false, Option, none, some, List, [], ◌∷◌,
  Bool-cases,
}
use kedge.Bytes.{Bytes, bytes_eq}
use kedge.Json.{
  Json, null, bool_, int64, uint64, double_, string, array, object, Items, nil, cons, Members, end,
  member,
}
use kedge.JsonDiff.Alike.{Alike, AlikeItems, AlikeMembers, Both}
use kedge.JsonDiff.Patch.{index_of, modify_item, modify_key, descend, descend_all}

pub Both-map {ℓ κ} :
    {A : Type ℓ} {B : Type κ} (R : A → A → Type 0) (S : B → B → Type 0) (f g : A → B)
    (o o' : Option A)
    → Both R o o'
    → ((x y : A) → R x y → S (f x) (g y))
    → Both S (Option.map f o) (Option.map g o')
Both-map R S f g none none h k = tt
Both-map R S f g none (some y) h k = absurd h
Both-map R S f g (some x) none h k = absurd h
Both-map R S f g (some x) (some y) h k = k x y h

pub Both-bind {ℓ κ} :
    {A : Type ℓ} {B : Type κ} (R : A → A → Type 0) (S : B → B → Type 0) (f g : A → Option B)
    (o o' : Option A)
    → Both R o o'
    → ((x y : A) → R x y → Both S (f x) (g y))
    → Both S (Option.bind o f) (Option.bind o' g)
unfolding Option.bind
Both-bind R S f g none none h k = tt
Both-bind R S f g none (some y) h k = absurd h
Both-bind R S f g (some x) none h k = absurd h
Both-bind R S f g (some x) (some y) h k = k x y h

-- Steps that act alike on values that are alike.
abbrev pub ActAlike : (Json → Option Json) → (Json → Option Json) → Type 0
ActAlike f g = (x y : Json) → Alike x y → Both Alike (f x) (g y)

module _ (f g : Json → Option Json) (acts : ActAlike f g) where
  modify_item-Alike :
      (i : ℕ) (xs ys : Items)
      → AlikeItems xs ys
      → Both AlikeItems (modify_item f i xs) (modify_item g i ys)
  unfolding modify_item Alike
  modify_item-Alike zero nil nil h = tt
  modify_item-Alike (suc i) nil nil h = tt
  modify_item-Alike i nil (cons y ys) h = absurd h
  modify_item-Alike i (cons x xs) nil h = absurd h
  modify_item-Alike zero (cons x xs) (cons y ys) (hx, h) =
      Both-map _ _ _ _ (f x) (g y) (acts x y hx) (λ a b r. (r, h))
  modify_item-Alike (suc i) (cons x xs) (cons y ys) (hx, h) =
      Both-map _ _ _ _ (modify_item f i xs) (modify_item g i ys) (modify_item-Alike i xs ys h)
        (λ a b r. (hx, r))

  modify_key-Alike :
      (k : Bytes) (ms ns : Members)
      → AlikeMembers ms ns
      → Both AlikeMembers (modify_key f k ms) (modify_key g k ns)
  unfolding modify_key Alike
  modify_key-Alike k end end h = tt
  modify_key-Alike k end (member j w ns) h = absurd h
  modify_key-Alike k (member i v ms) end h = absurd h
  modify_key-Alike k (member i v ms) (member j w ns) (e, (hv, h)) =
      elim (Bool-cases (bytes_eq i k)) [
        | inl y ↦
            let y' : bytes_eq j k ≡ true = ap (λ l. bytes_eq l k) (sym e) ∙ y in
            rw (y, y') (Both-map _ _ _ _ (f v) (g w) (acts v w hv) (λ a b r. (e, (r, h))))
        | inr n ↦
            let n' : bytes_eq j k ≡ false = ap (λ l. bytes_eq l k) (sym e) ∙ n in
            rw (n, n')
              (Both-map _ _ _ _ (modify_key f k ms) (modify_key g k ns) (modify_key-Alike k ms ns h)
                (λ a b r. (e, (hv, r))))
      ]

  Both-index :
      (o : Option ℕ) (xs ys : Items)
      → AlikeItems xs ys
      → Both Alike
          (Option.bind o (λ i. Option.map array (modify_item f i xs)))
          (Option.bind o (λ i. Option.map array (modify_item g i ys)))
  unfolding Option.bind Alike
  Both-index none xs ys h = tt
  Both-index (some i) xs ys h =
      Both-map _ _ array array (modify_item f i xs) (modify_item g i ys)
        (modify_item-Alike i xs ys h) (λ a b r. r)

  descend-Alike : (t : Bytes) → ActAlike (descend t f) (descend t g)
  unfolding descend Alike
  descend-Alike t (array xs) (array ys) h = Both-index (index_of t) xs ys h
  descend-Alike t (object ms) (object ns) h =
      Both-map _ _ object object (modify_key f t ms) (modify_key g t ns)
        (modify_key-Alike t ms ns h) (λ a b r. r)
  descend-Alike t null null h = tt
  descend-Alike t (bool_ a) (bool_ b) h = tt
  descend-Alike t (int64 a) (int64 b) h = tt
  descend-Alike t (int64 a) (uint64 b) h = tt
  descend-Alike t (uint64 a) (int64 b) h = tt
  descend-Alike t (uint64 a) (uint64 b) h = tt
  descend-Alike t (double_ a) (double_ b) h = tt
  descend-Alike t (string a) (string b) h = tt
  descend-Alike t v w h = absurd h

pub descend_all-Alike :
    (f g : Json → Option Json)
    → ActAlike f g
    → (ts : List Bytes) → ActAlike (descend_all ts f) (descend_all ts g)
unfolding descend_all
descend_all-Alike f g acts [] = acts
descend_all-Alike f g acts (t ∷ ts) =
    descend-Alike (descend_all ts f) (descend_all ts g) (descend_all-Alike f g acts ts) t
