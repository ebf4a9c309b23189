-- ===== src/JsonDiff/Arrays.antt =====
-- The edits of an array behind those of its elements: elements are dropped, or one is appended.
use mathlib.Core.Option
use mathlib.Core.Path.{subst}
use kedge.Base.{
  &&-true, ℕ, zero, suc, ◌+◌, ◌-◌, ◌≤◌, ◌<◌, ◌≡◌, refl, sym, ap, ◌∙◌, inl, inr, true, some, ◌++◌,
  arith, ltb, Bool-cases, ltb→lt, &&-eq-true,
}
use kedge.Bytes.{codes, bytes_eq_self}
use kedge.Number.{to_string}
use kedge.Json.{array, Items, nil, cons, size_items, json_eq, items_eq}
use kedge.JsonDiff.{drop_items}
use kedge.JsonDiff.Patch.{remove_item, append_items, drop_at, add_at, act, apply_edits, descend_all}
use kedge.JsonDiff.Changes.{drops, appends}
use kedge.JsonDiff.Equal.{items_eq-append, json_eq_self}
use kedge.JsonDiff.Focus.{index_of-to_string, apply_edits-then}
use kedge.JsonDiff.Plain.{IsPlain, ArePlain}

abbrev pub take_items : ℕ → Items → Items
take_items zero xs = nil
take_items (suc n) nil = nil
take_items (suc n) (cons x xs) = cons x (take_items n xs)

pub size-append_items :
    (xs ys : Items) → size_items (append_items xs ys) ≡ size_items xs + size_items ys
size-append_items nil ys = omega arith
size-append_items (cons x xs) ys = omega (arith, size-append_items xs ys)

pub append_items_assoc :
    (xs ys zs : Items) → append_items (append_items xs ys) zs ≡ append_items xs (append_items ys zs)
append_items_assoc nil ys zs = refl
append_items_assoc (cons x xs) ys zs = ap (cons x) (append_items_assoc xs ys zs)

pub append_items-nil : (xs : Items) → append_items xs nil ≡ xs
append_items-nil nil = refl
append_items-nil (cons x xs) = ap (cons x) (append_items-nil xs)

pub drop_items-nil : (n : ℕ) → drop_items n nil ≡ nil
drop_items-nil zero = refl
drop_items-nil (suc n) = refl

pub take_items-nil : (n : ℕ) → take_items n nil ≡ nil
take_items-nil zero = refl
take_items-nil (suc n) = refl

size-drop_items : (n : ℕ) (xs : Items) → size_items (drop_items n xs) ≡ size_items xs - n
size-drop_items zero xs = omega arith
size-drop_items (suc n) nil = omega arith
size-drop_items (suc n) (cons x xs) = omega (arith, size-drop_items n xs)

take_items_all : (n : ℕ) (xs : Items) → size_items xs ≤ n → take_items n xs ≡ xs
take_items_all n nil h = take_items-nil n
take_items_all zero (cons x xs) h = absurd (omega arith)
take_items_all (suc n) (cons x xs) h = ap (cons x) (take_items_all n xs (omega arith))

take_items-take : (n m : ℕ) (xs : Items) → n ≤ m → take_items n (take_items m xs) ≡ take_items n xs
take_items-take zero m xs h = refl
take_items-take (suc n) zero xs h = absurd (omega arith)
take_items-take (suc n) (suc m) nil h = refl
take_items-take (suc n) (suc m) (cons x xs) h = ap (cons x) (take_items-take n m xs (omega arith))

size-take_items : (m : ℕ) (xs : Items) → m ≤ size_items xs → size_items (take_items m xs) ≡ m
size-take_items zero xs h = refl
size-take_items (suc m) nil h = absurd (omega arith)
size-take_items (suc m) (cons x xs) h = ap suc (size-take_items m xs (omega arith))

-- The last element goes.
remove_item_last :
    (m : ℕ) (xs : Items) → size_items xs ≡ suc m → remove_item m xs ≡ some (take_items m xs)
unfolding remove_item
remove_item_last m nil h = absurd (omega arith)
remove_item_last zero (cons x nil) h = refl
remove_item_last zero (cons x (cons y xs)) h = absurd (omega arith)
remove_item_last (suc m) (cons x xs) h = rw (remove_item_last m xs (omega arith)) refl

drop_at_last :
    (m : ℕ) (xs : Items)
    → size_items xs ≡ suc m
    → drop_at (to_string m) (array xs) ≡ some (array (take_items m xs))
unfolding drop_at Option.bind
drop_at_last m xs h = rw (index_of-to_string m) (rw (remove_item_last m xs h) refl)

apply_edits-drops :
    (n m : ℕ) (xs : Items)
    → size_items xs ≡ m
    → apply_edits (drops n m) (array xs) ≡ some (array (take_items n xs))
unfolding apply_edits drops descend_all act Option.bind
apply_edits-drops n zero xs h = ap (λ ys. some (array ys)) (sym (take_items_all n xs (omega arith)))
apply_edits-drops n (suc m) xs h = elim (Bool-cases (ltb n (suc m))) [
  | inl y ↦
      let less : n < suc m = ltb→lt n (suc m) y in
      rw (y, drop_at_last m xs h)
        (apply_edits-drops n m (take_items m xs) (size-take_items m xs (omega (arith, h)))
          ∙ ap (λ ys. some (array ys)) (take_items-take n m xs (omega (arith, less))))
  | inr no_more ↦
      rw no_more (ap (λ ys. some (array ys)) (sym (take_items_all n xs (ground (arith, no_more)))))
]

-- At most one element is new, and the edits append it.
apply_edits-appends :
    (xs ys : Items)
    → size_items ys ≤ 1
    → apply_edits (appends ys) (array xs) ≡ some (array (append_items xs ys))
unfolding apply_edits appends descend_all act add_at Option.bind
apply_edits-appends xs nil h = ap (λ zs. some (array zs)) (sym (append_items-nil xs))
apply_edits-appends xs (cons y nil) h = rw (bytes_eq_self (codes "-")) refl
apply_edits-appends xs (cons y (cons z ys)) h = absurd (omega arith)

take_items-size : (rs ds : Items) → take_items (size_items rs) (append_items rs ds) ≡ rs
take_items-size nil ds = refl
take_items-size (cons r rs) ds = ap (cons r) (take_items-size rs ds)

drop_items_all : (n : ℕ) (xs : Items) → size_items xs ≤ n → drop_items n xs ≡ nil
drop_items_all n nil h = drop_items-nil n
drop_items_all zero (cons x xs) h = absurd (omega arith)
drop_items_all (suc n) (cons x xs) h = drop_items_all n xs (omega arith)

append-take-drop : (n : ℕ) (ys : Items) → append_items (take_items n ys) (drop_items n ys) ≡ ys
append-take-drop zero ys = refl
append-take-drop (suc n) nil = refl
append-take-drop (suc n) (cons y ys) = ap (cons y) (append-take-drop n ys)

pub items_eq-size : (xs ys : Items) → items_eq xs ys ≡ true → size_items xs ≡ size_items ys
unfolding items_eq
items_eq-size nil nil h = refl
items_eq-size nil (cons y ys) h = cc
items_eq-size (cons x xs) nil h = cc
items_eq-size (cons x xs) (cons y ys) h =
    ap suc (items_eq-size xs ys (&&-eq-true (json_eq x y) (items_eq xs ys) h).1)

items_eq_self : (xs : Items) → ArePlain xs → items_eq xs xs ≡ true
unfolding items_eq IsPlain
items_eq_self nil h = refl
items_eq_self (cons x xs) (hx, h) =
    &&-true (json_eq x x) (items_eq xs xs) (json_eq_self x hx) (items_eq_self xs h)

pub drop_items-ArePlain : (n : ℕ) (xs : Items) → ArePlain xs → ArePlain (drop_items n xs)
unfolding IsPlain
drop_items-ArePlain zero xs h = h
drop_items-ArePlain (suc n) nil h = tt
drop_items-ArePlain (suc n) (cons x xs) (_, h) = drop_items-ArePlain n xs h

append_items-ArePlain : (xs ys : Items) → ArePlain xs → ArePlain ys → ArePlain (append_items xs ys)
unfolding IsPlain
append_items-ArePlain nil ys h k = k
append_items-ArePlain (cons x xs) ys (hx, h) k = (hx, append_items-ArePlain xs ys h k)

-- An array with the elements at the common indices changed, and those behind them as they were.
module _ (xs ys rs : Items) (common : items_eq rs (take_items (size_items xs) ys) ≡ true) where
  abbrev pub half_done : Items
  half_done = append_items rs (drop_items (size_items ys) xs)

  size_common : size_items rs ≡ size_items (take_items (size_items xs) ys)
  size_common = items_eq-size rs _ common

  size_more : size_items xs < size_items ys → size_items rs ≡ size_items xs
  size_more more = size_common ∙ size-take_items (size_items xs) ys (omega (arith, more))

  size_less : size_items ys ≤ size_items xs → size_items rs ≡ size_items ys
  size_less less = size_common ∙ ap size_items (take_items_all (size_items xs) ys less)

  half_done_taken : take_items (size_items ys) half_done ≡ rs
  half_done_taken = elim (Bool-cases (ltb (size_items xs) (size_items ys))) [
    | inl y ↦
        let more : size_items xs < size_items ys = ltb→lt _ _ y in
        let exact = size_more more in
        ap (λ ds. take_items (size_items ys) (append_items rs ds))
          (drop_items_all (size_items ys) xs (omega (arith, more)))
        ∙ ap (take_items (size_items ys)) (append_items-nil rs)
        ∙ take_items_all (size_items ys) rs (omega (arith, more, exact))
    | inr n ↦
        let less : size_items ys ≤ size_items xs = ground (arith, n) in
        ap (λ n. take_items n half_done) (sym (size_less less)) ∙ take_items-size rs _
  ]

  size_half_done : size_items half_done ≡ size_items xs
  size_half_done =
      let appended = size-append_items rs (drop_items (size_items ys) xs) in
      let dropped = size-drop_items (size_items ys) xs in
      elim (Bool-cases (ltb (size_items xs) (size_items ys))) [
        | inl y ↦
            let more : size_items xs < size_items ys = ltb→lt _ _ y in
            omega (arith, appended, dropped, more, size_more more)
        | inr n ↦
            let less : size_items ys ≤ size_items xs = ground (arith, n) in
            omega (arith, appended, dropped, less, size_less less)
      ]

  pub apply_edits_behind :
      ArePlain rs
      → ArePlain ys
      → size_items ys ≤ suc (size_items xs)
      → (zs : Items) × (apply_edits
            (drops (size_items ys) (size_items xs) ++ appends (drop_items (size_items xs) ys))
            (array half_done)
          ≡ some (array zs))
        × (items_eq zs ys ≡ true)
        × ArePlain zs
  apply_edits_behind done plain fits =
      let rest = drop_items (size_items xs) ys in
      let few : size_items rest ≤ 1 = omega (arith, size-drop_items (size_items xs) ys, fits) in
      let dropped =
        apply_edits-drops (size_items ys) (size_items xs) half_done size_half_done
        ∙ ap (λ us. some (array us)) half_done_taken in
      (
        append_items rs rest,
        apply_edits-then _ _ _ _ dropped ∙ apply_edits-appends rs rest few,
        subst (λ us. items_eq (append_items rs rest) us ≡ true)
            (append-take-drop (size_items xs) ys)
            (items_eq-append rs _ rest rest common
              (items_eq_self rest (drop_items-ArePlain (size_items xs) ys plain))),
        append_items-ArePlain rs rest done (drop_items-ArePlain (size_items xs) ys plain),
      )
