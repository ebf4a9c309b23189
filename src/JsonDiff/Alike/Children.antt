-- ===== src/JsonDiff/Alike/Children.antt =====
-- A child that is dropped from, or added to, two values that are alike.
use mathlib.Core.Option
use kedge.Base.{
  ℕ, zero, suc, ◌≡◌, refl, sym, ap, ◌∙◌, inl, inr, true, false, Option, none, some, Bool-cases,
}
use kedge.Bytes.{Bytes, codes, bytes_eq}
use kedge.Json.{
  Json, null, bool_, int64, uint64, double_, string, array, object, Items, nil, cons, Members, end,
  member,
}
use kedge.JsonDiff.Alike.{Alike, AlikeItems, AlikeMembers, Both}
use kedge.JsonDiff.Alike.Places.{Both-map, ActAlike}
use kedge.JsonDiff.Patch.{
  index_of, remove_item, insert_item, append_items, remove_key, set_key, drop_at, add_at,
}

remove_item-Alike :
    (i : ℕ) (xs ys : Items)
    → AlikeItems xs ys
    → Both AlikeItems (remove_item i xs) (remove_item i ys)
unfolding remove_item Alike
remove_item-Alike zero nil nil h = tt
remove_item-Alike (suc i) nil nil h = tt
remove_item-Alike i nil (cons y ys) h = absurd h
remove_item-Alike i (cons x xs) nil h = absurd h
remove_item-Alike zero (cons x xs) (cons y ys) (hx, h) = h
remove_item-Alike (suc i) (cons x xs) (cons y ys) (hx, h) =
    Both-map _ _ _ _ (remove_item i xs) (remove_item i ys) (remove_item-Alike i xs ys h)
      (λ a b r. (hx, r))

remove_key-Alike :
    (k : Bytes) (ms ns : Members)
    → AlikeMembers ms ns
    → Both AlikeMembers (remove_key k ms) (remove_key k ns)
unfolding remove_key Alike
remove_key-Alike k end end h = tt
remove_key-Alike k end (member j w ns) h = absurd h
remove_key-Alike k (member i v ms) end h = absurd h
remove_key-Alike k (member i v ms) (member j w ns) (e, (hv, h)) = elim (Bool-cases (bytes_eq i k)) [
  | inl y ↦ let y' : bytes_eq j k ≡ true = ap (λ l. bytes_eq l k) (sym e) ∙ y in rw (y, y') h
  | inr n ↦
      let n' : bytes_eq j k ≡ false = ap (λ l. bytes_eq l k) (sym e) ∙ n in
      rw (n, n')
        (Both-map _ _ _ _ (remove_key k ms) (remove_key k ns) (remove_key-Alike k ms ns h)
          (λ a b r. (e, (hv, r))))
]

Both-index :
    (f g : ℕ → Option Items) (o : Option ℕ)
    → ((i : ℕ) → Both AlikeItems (f i) (g i))
    → Both Alike
        (Option.bind o (λ i. Option.map array (f i)))
        (Option.bind o (λ i. Option.map array (g i)))
unfolding Option.bind Alike
Both-index f g none h = tt
Both-index f g (some i) h = Both-map _ _ array array (f i) (g i) (h i) (λ a b r. r)

pub drop_at-Alike : (t : Bytes) → ActAlike (drop_at t) (drop_at t)
unfolding drop_at Alike
drop_at-Alike t (array xs) (array ys) h =
    Both-index (λ i. remove_item i xs) (λ i. remove_item i ys) (index_of t)
      (λ i. remove_item-Alike i xs ys h)
drop_at-Alike t (object ms) (object ns) h =
    Both-map _ _ object object (remove_key t ms) (remove_key t ns) (remove_key-Alike t ms ns h)
      (λ a b r. r)
drop_at-Alike t null null h = tt
drop_at-Alike t (bool_ a) (bool_ b) h = tt
drop_at-Alike t (int64 a) (int64 b) h = tt
drop_at-Alike t (int64 a) (uint64 b) h = tt
drop_at-Alike t (uint64 a) (int64 b) h = tt
drop_at-Alike t (uint64 a) (uint64 b) h = tt
drop_at-Alike t (double_ a) (double_ b) h = tt
drop_at-Alike t (string a) (string b) h = tt
drop_at-Alike t v w h = absurd h

module _ (v w : Json) (hv : Alike v w) where
  insert_item-Alike :
      (i : ℕ) (xs ys : Items)
      → AlikeItems xs ys
      → Both AlikeItems (insert_item v i xs) (insert_item w i ys)
  unfolding insert_item Alike
  insert_item-Alike zero xs ys h = (hv, h)
  insert_item-Alike (suc i) nil nil h = tt
  insert_item-Alike (suc i) nil (cons y ys) h = absurd h
  insert_item-Alike (suc i) (cons x xs) nil h = absurd h
  insert_item-Alike (suc i) (cons x xs) (cons y ys) (hx, h) =
      Both-map _ _ _ _ (insert_item v i xs) (insert_item w i ys) (insert_item-Alike i xs ys h)
        (λ a b r. (hx, r))

  append_items-Alike :
      (xs ys : Items)
      → AlikeItems xs ys
      → AlikeItems (append_items xs (cons v nil)) (append_items ys (cons w nil))
  unfolding Alike
  append_items-Alike nil nil h = (hv, tt)
  append_items-Alike nil (cons y ys) h = absurd h
  append_items-Alike (cons x xs) nil h = absurd h
  append_items-Alike (cons x xs) (cons y ys) (hx, h) = (hx, append_items-Alike xs ys h)

  set_key-Alike :
      (k : Bytes) (ms ns : Members)
      → AlikeMembers ms ns
      → AlikeMembers (set_key k v ms) (set_key k w ns)
  unfolding set_key Alike
  set_key-Alike k end end h = (refl, (hv, tt))
  set_key-Alike k end (member j y ns) h = absurd h
  set_key-Alike k (member i x ms) end h = absurd h
  set_key-Alike k (member i x ms) (member j y ns) (e, (hx, h)) = elim (Bool-cases (bytes_eq i k)) [
    | inl b ↦
        let b' : bytes_eq j k ≡ true = ap (λ l. bytes_eq l k) (sym e) ∙ b in rw (b, b') (e, (hv, h))
    | inr n ↦
        let n' : bytes_eq j k ≡ false = ap (λ l. bytes_eq l k) (sym e) ∙ n in
        rw (n, n') (e, (hx, set_key-Alike k ms ns h))
  ]

  pub add_at-Alike : (t : Bytes) → ActAlike (add_at t v) (add_at t w)
  unfolding add_at Alike
  add_at-Alike t (array xs) (array ys) h = elim (Bool-cases (bytes_eq t (codes "-"))) [
    | inl y ↦ rw y (append_items-Alike xs ys h)
    | inr n ↦ rw n (
        Both-index (λ i. insert_item v i xs) (λ i. insert_item w i ys) (index_of t)
          (λ i. insert_item-Alike i xs ys h))
  ]
  add_at-Alike t (object ms) (object ns) h = set_key-Alike t ms ns h
  add_at-Alike t null null h = tt
  add_at-Alike t (bool_ a) (bool_ b) h = tt
  add_at-Alike t (int64 a) (int64 b) h = tt
  add_at-Alike t (int64 a) (uint64 b) h = tt
  add_at-Alike t (uint64 a) (int64 b) h = tt
  add_at-Alike t (uint64 a) (uint64 b) h = tt
  add_at-Alike t (double_ a) (double_ b) h = tt
  add_at-Alike t (string a) (string b) h = tt
  add_at-Alike t x y h = absurd h
