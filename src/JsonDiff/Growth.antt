-- ===== src/JsonDiff/Growth.antt =====
-- What a patch holds for arrays of different sizes, and for keys that come and go.
use mathlib.Core.List.{Memᴰ}
use mathlib.Core.Option
use kedge.Base.{
  Memᴰ-append_right, Memᴰ-append_left, ℕ, zero, suc, ◌+◌, ◌-◌, ◌/◌, ◌≡◌, refl, sym, ap, ◌∙◌, false,
  none, some, inl, inr, ◌++◌, arith, length, take, take-length-append, get_elem?, Option, List, [],
  ◌∷◌, ◌<◌, ◌≤◌, ◌*◌, ltb, true, if◌then◌else◌, length-append, Option-cases, Bool-cases,
}
use kedge.Bytes.{Bytes, codes, bytes_eq, bytes_eq_iff}
use kedge.Json.{
  Json, array, object, Items, nil, cons, Members, end, member, find_key, size_items, json_eq,
}
use kedge.JsonDiff.{
  Op, at_index, remove, add, at_key, removals, drop_items, additions, new_members, json_diff,
  diff_items, diff_members, member_diff,
}

-- An array loses one operation for each element less, and gains one for every other element more.
length-removals : (path : Bytes) (n m : ℕ) → length (removals path n m) ≡ m - n
unfolding removals
length-removals path n zero = omega arith
length-removals path n (suc m) = ground (arith, length-removals path n m)

length-additions :
    (path : Bytes) (xs : Items) → length (additions path xs) ≡ (size_items xs + 1) / 2
unfolding additions
length-additions path nil = refl
length-additions path (cons x nil) = refl
length-additions path (cons x (cons y xs)) = omega (arith, length-additions path xs)

size-drop_items : (n : ℕ) (xs : Items) → size_items (drop_items n xs) ≡ size_items xs - n
size-drop_items zero xs = omega arith
size-drop_items (suc n) nil = omega arith
size-drop_items (suc n) (cons x xs) = omega (arith, size-drop_items n xs)

-- The element at an index.
unfoldable pub item_at : ℕ → Items → Option Json
item_at i nil = none
item_at zero (cons x xs) = some x
item_at (suc i) (cons x xs) = item_at i xs

item_at-drop_items : (n i : ℕ) (xs : Items) → item_at i (drop_items n xs) ≡ item_at (n + i) xs
unfolding item_at
item_at-drop_items zero i xs = ap (λ k. item_at k xs) (omega arith)
item_at-drop_items (suc n) i nil = refl
item_at-drop_items (suc n) i (cons x xs) =
    let next : suc n + i ≡ suc (n + i) = omega arith in rw next (item_at-drop_items n i xs)

-- The operations behind those on the elements at the indices of both arrays, by their numbers: the
-- removals from the last index of the source down to the size of the target, and an addition for
-- every second element that only the target has.
abbrev pub beyond : Items → Items → Bytes → ℕ → Option Op
beyond src tgt path i =
    let gone = size_items src - size_items tgt in
    if ltb i gone
    then some (remove (at_index path (size_items src - 1 - i)))
    else Option.map (add (path ++ codes "/-")) (item_at (size_items src + 2 * (i - gone)) tgt)

two_suc : (i : ℕ) → 2 * suc i ≡ suc (suc (2 * i))
two_suc i = omega arith

get_elem?-additions :
    (path : Bytes) (xs : Items) (i : ℕ)
    → get_elem? (additions path xs) i ≡ Option.map (add (path ++ codes "/-")) (item_at (2 * i) xs)
unfolding additions item_at
get_elem?-additions path nil i = refl
get_elem?-additions path (cons x nil) zero = refl
get_elem?-additions path (cons x nil) (suc i) = rw (two_suc i) refl
get_elem?-additions path (cons x (cons y xs)) zero = refl
get_elem?-additions path (cons x (cons y xs)) (suc i) =
    rw (two_suc i) (get_elem?-additions path xs i)

get_elem?-removals :
    (path : Bytes) (m n i : ℕ)
    → i < n - m
    → get_elem? (removals path m n) i ≡ some (remove (at_index path (n - 1 - i)))
unfolding removals
get_elem?-removals path m zero i h = absurd (omega arith)
get_elem?-removals path m (suc n) zero h =
    let more : ltb m (suc n) ≡ true = ground arith in
    let last : suc n - 1 - zero ≡ n = omega arith in rw (more, last) refl
get_elem?-removals path m (suc n) (suc i) h =
    let more : ltb m (suc n) ≡ true = ground arith in
    let last : suc n - 1 - suc i ≡ n - 1 - i = omega arith in
    rw (more, last) (get_elem?-removals path m n i (omega arith))

get_elem?-append_left :
    {A : Type 0} (xs ys : List A) (i : ℕ) → i < length xs → get_elem? (xs ++ ys) i ≡ get_elem? xs i
get_elem?-append_left [] ys i h = absurd (omega arith)
get_elem?-append_left (x ∷ xs) ys zero h = refl
get_elem?-append_left (x ∷ xs) ys (suc i) h = get_elem?-append_left xs ys i (omega arith)

get_elem?-append_right :
    {A : Type 0} (xs ys : List A) (i : ℕ)
    → length xs ≤ i
    → get_elem? (xs ++ ys) i ≡ get_elem? ys (i - length xs)
get_elem?-append_right [] ys i h = ap (get_elem? ys) (omega arith)
get_elem?-append_right (x ∷ xs) ys zero h = absurd (omega arith)
get_elem?-append_right (x ∷ xs) ys (suc i) h =
    get_elem?-append_right xs ys i (omega arith) ∙ ap (get_elem? ys) (omega arith)

get_elem?-beyond :
    (src tgt : Items) (path : Bytes) (i : ℕ)
    → get_elem?
        (removals path (size_items tgt) (size_items src)
          ++ additions path (drop_items (size_items src) tgt))
        i
      ≡ beyond src tgt path i
get_elem?-beyond src tgt path i =
    let gone = removals path (size_items tgt) (size_items src) in
    let rest = additions path (drop_items (size_items src) tgt) in
    let size = length-removals path (size_items tgt) (size_items src) in
    elim (Bool-cases (ltb i (size_items src - size_items tgt))) [
      | inl y ↦ rw y (
          get_elem?-append_left gone rest i (ground (arith, size))
          ∙ get_elem?-removals path (size_items tgt) (size_items src) i (ground arith))
      | inr n ↦ rw n (
          get_elem?-append_right gone rest i (ground (arith, size))
          ∙ ap (get_elem? rest) (ap (λ k. i - k) size)
          ∙ get_elem?-additions path (drop_items (size_items src) tgt)
              (i - (size_items src - size_items tgt))
          ∙ ap (Option.map (add (path ++ codes "/-"))) (
              item_at-drop_items (size_items src) (2 * (i - (size_items src - size_items tgt)))
                tgt))
    ]

length-json_diff :
    (src tgt : Items) (path : Bytes)
    → json_eq (array src) (array tgt) ≡ false
    → length (json_diff (array src) (array tgt) path)
      ≡ length (diff_items src tgt 0 path)
        + ((size_items src - size_items tgt) + (size_items tgt - size_items src + 1) / 2)
unfolding json_diff
length-json_diff src tgt path h =
    let rest = additions path (drop_items (size_items src) tgt) in
    let gone = removals path (size_items tgt) (size_items src) in
    rw h (
      omega (
        arith,
        length-append {0} (diff_items src tgt 0 path) (gone ++ rest),
        length-append {0} gone rest,
        length-removals path (size_items tgt) (size_items src),
        length-additions path (drop_items (size_items src) tgt),
        size-drop_items (size_items src) tgt,
      ))

json_diff_arrays :
    (src tgt : Items) (path : Bytes)
    → json_eq (array src) (array tgt) ≡ false
    → json_diff (array src) (array tgt) path
      ≡ diff_items src tgt 0 path
        ++ (removals path (size_items tgt) (size_items src)
            ++ additions path (drop_items (size_items src) tgt))
unfolding json_diff
json_diff_arrays src tgt path h = rw h refl

-- The operations on two arrays that do not compare equal are those on the elements at the indices
-- of both, then one removal for each element that the source has more, from the last one down, and,
-- where the target has more, one addition at the end for every second element of the rest only,
-- beginning with the first of them, and no others.
pub get_elem?-json_diff :
    (src tgt : Items) (path : Bytes) (i : ℕ)
    → json_eq (array src) (array tgt) ≡ false
    → let patch = json_diff (array src) (array tgt) path in
      let common = diff_items src tgt 0 path in
      (take (length common) patch ≡ common)
      × (get_elem? patch (length common + i) ≡ beyond src tgt path i)
      × (length patch
          ≡ length common
            + ((size_items src - size_items tgt) + (size_items tgt - size_items src + 1) / 2))
get_elem?-json_diff src tgt path i h =
    let common = diff_items src tgt 0 path in
    let rest =
      removals path (size_items tgt) (size_items src)
      ++ additions path (drop_items (size_items src) tgt) in
    let patch = json_diff_arrays src tgt path h in
    (
      ap (take (length common)) patch ∙ take-length-append common rest,
      ap (λ p. get_elem? p (length common + i)) patch
          ∙ get_elem?-append_right common rest (length common + i) (omega arith)
          ∙ ap (get_elem? rest) (omega arith)
          ∙ get_elem?-beyond src tgt path i,
      length-json_diff src tgt path h,
    )

some_injective : (v w : Json) → some w ≡ some v → v ≡ w
some_injective v w e = cc

added_member :
    (path : Bytes) (src tgt : Members) (k : Bytes) (v : Json)
    → find_key k src ≡ none
    → find_key k tgt ≡ some v
    → Memᴰ (add (at_key path k) v) (new_members path src tgt)
unfolding new_members find_key
added_member path src end k v a b = cc
added_member path src (member j w tgt) k v a b = elim (Bool-cases (bytes_eq j k)) [
  | inl e ↦
      let same : v ≡ w = some_injective v w (rw e at b) in
      let key : j ≡ k = (bytes_eq_iff j k).0 e in
      let lacks : find_key j src ≡ none = rw key a in
      let entry : add (at_key path k) v ≡ add (at_key path j) w =
        ap (λ x. add (at_key path x) v) (sym key) ∙ ap (add (at_key path j)) same in
      rw (lacks, new_members) (Memᴰ.head entry)
  | inr e ↦
      let later = added_member path src tgt k v a (rw e at b) in
      elim (Option-cases (find_key j src)) [
        | inl n ↦ rw (n, new_members) (Memᴰ.tail later)
        | inr (x, s) ↦ rw (s, new_members) later
      ]
]

removed_member :
    (path : Bytes) (src tgt : Members) (k : Bytes) (v : Json)
    → find_key k src ≡ some v
    → find_key k tgt ≡ none
    → Memᴰ (remove (at_key path k)) (diff_members src tgt path)
unfolding diff_members find_key
removed_member path end tgt k v a b = cc
removed_member path (member j w src) tgt k v a b = elim (Bool-cases (bytes_eq j k)) [
  | inl e ↦ rw ((bytes_eq_iff j k).0 e, b) (Memᴰ.head refl)
  | inr e ↦
      Memᴰ-append_right (remove (at_key path k))
        (member_diff (json_diff w) (find_key j tgt) (at_key path j)) _
        (removed_member path src tgt k v (rw e at a) b)
]

-- In the patch between two objects that do not compare equal each key that only the source has is
-- removed, and each key that only the target has is added with its value.
pub json_diff_keys :
    (src tgt : Members) (path k : Bytes) (v : Json)
    → json_eq (object src) (object tgt) ≡ false
    → let patch = json_diff (object src) (object tgt) path in
      (find_key k src ≡ some v → find_key k tgt ≡ none → Memᴰ (remove (at_key path k)) patch)
      × (find_key k src ≡ none → find_key k tgt ≡ some v → Memᴰ (add (at_key path k) v) patch)
unfolding json_diff
json_diff_keys src tgt path k v h = rw h (
  (λ a b. Memᴰ-append_left _ _ (new_members path src tgt) (removed_member path src tgt k v a b)),
  (λ a b. Memᴰ-append_right _ (diff_members src tgt path) _ (added_member path src tgt k v a b)),
)
