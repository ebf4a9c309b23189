-- ===== src/JsonDiff/Steps.antt =====
-- The steps by which the edits between two values are applied to a value that equals the first one.
use mathlib.Core.Option
use mathlib.Core.Path.{subst}
use kedge.Base.{
  &&-true, suc, ◌≤◌, ◌≡◌, refl, sym, ap, ◌∙◌, inl, inr, true, none, some, [], ◌∷◌, ◌++◌, arith,
  if◌then◌else◌, Bool-cases, Option-cases, Option,
}
use kedge.Bytes.{Bytes}
use kedge.Number.{to_string}
use kedge.Json.{
  Json, array, object, Items, nil, cons, Members, end, find_key, size_items, json_eq, items_eq,
}
use kedge.JsonDiff.{drop_items}
use kedge.JsonDiff.Arrays.{
  take_items, size-append_items, append_items_assoc, drop_items-nil, items_eq-size,
  apply_edits_behind,
}
use kedge.JsonDiff.Changes.{under, changes, item_edits, key_edits, new_keys, drops, appends}
use kedge.JsonDiff.Equal.{json_eq_self}
use kedge.JsonDiff.Focus.{apply_edits-under, apply_edits-then, array-IsFocus}
use kedge.JsonDiff.NewKeys.{added, new_keys-WithNew}
use kedge.JsonDiff.Patch.{set, append_items, descend_all, act, apply_edits}
use kedge.JsonDiff.Plain.{IsPlain, ArePlain, HavePlain}
use kedge.JsonDiff.Read.{find_key-IsPlain}
use kedge.JsonDiff.Same.{json_eq_trans}
use kedge.JsonDiff.SameKeys.{Agree, SameKeys, equal-SameKeys, SameKeys-equal}

-- The edits between two values lead from `v` to a plain value that equals the second one.
abbrev pub Reaches : (s t v : Json) → Type 0
Reaches s t v =
    (r : Json) × (apply_edits (changes s t) v ≡ some r) × (json_eq r t ≡ true) × IsPlain r

pub whole-Reaches :
    (s t v : Json)
    → changes s t ≡ (if json_eq s t then [] else ([], set t) ∷ [])
    → IsPlain t
    → IsPlain v
    → json_eq v s ≡ true
    → Reaches s t v
unfolding apply_edits descend_all act Option.bind
whole-Reaches s t v c h k e = elim (Bool-cases (json_eq s t)) [
  | inl y ↦ (v, rw c (rw y refl), json_eq_trans v s t e y, k)
  | inr n ↦ (t, rw c (rw n refl), json_eq_self t h, h)
]

-- The elements at the indices of both arrays, changed, behind those of `pre`.
pub record ChangedItems (xs ys us pre : Items) : Type 0 where
  pub rs : Items
  pub applied :
      apply_edits (item_edits xs ys (size_items pre)) (array (append_items pre us))
      ≡ some (array (append_items pre (append_items rs (drop_items (size_items ys) us))))
  pub equal : items_eq rs (take_items (size_items us) ys) ≡ true
  pub plain : ArePlain rs

pub array-Reaches :
    (xs ys us : Items)
    → ArePlain ys
    → ArePlain us
    → size_items ys ≤ suc (size_items xs)
    → items_eq us xs ≡ true
    → ChangedItems xs ys us nil
    → Reaches (array xs) (array ys) (array us)
unfolding changes json_eq apply_edits IsPlain
array-Reaches xs ys us k p few e c =
    let sized = items_eq-size us xs e in
    elim (Bool-cases (json_eq (array xs) (array ys))) [
      | inl y ↦ (array us, rw y refl, json_eq_trans (array us) (array xs) (array ys) e y, p)
      | inr n ↦
          let (zs, behind, equal, done) =
            apply_edits_behind us ys c.rs c.equal c.plain k (omega (arith, few, sized)) in
          let behind' =
            subst
              (λ m.
                apply_edits (drops (size_items ys) m ++ appends (drop_items m ys))
                  (array (append_items c.rs (drop_items (size_items ys) us)))
                ≡ some (array zs))
              sized behind in
          (
            array zs,
            rw n (apply_edits-then (item_edits xs ys 0) _ _ _ c.applied ∙ behind'),
            equal,
            done,
          )
    ]

pub no_items : (ys pre : Items) → ChangedItems nil ys nil pre
unfolding item_edits apply_edits items_eq IsPlain
no_items ys pre = record {
  rs = nil;
  applied = ap (λ zs. some (array (append_items pre zs))) (sym (drop_items-nil (size_items ys)));
  equal = refl;
  plain = tt;
}

pub no_targets : (x u : Json) (xs us pre : Items) → ChangedItems (cons x xs) nil (cons u us) pre
unfolding item_edits apply_edits items_eq IsPlain
no_targets x u xs us pre = record { rs = nil; applied = refl; equal = refl; plain = tt }

pub item_step :
    (x y u : Json) (xs ys us pre : Items) (here : Reaches x y u)
    → ChangedItems xs ys us (append_items pre (cons here.0 nil))
    → ChangedItems (cons x xs) (cons y ys) (cons u us) pre
unfolding item_edits items_eq IsPlain
item_step x y u xs ys us pre (r, e, q, p) c =
    let there = append_items_assoc pre (cons r nil) in
    let next : size_items (append_items pre (cons r nil)) ≡ suc (size_items pre) =
      omega (arith, size-append_items pre (cons r nil)) in
    let first =
      apply_edits-under (to_string (size_items pre)) (λ z. array (append_items pre (cons z us)))
        (array-IsFocus pre us) (changes x y) u
      ∙ ap (Option.map (λ z. array (append_items pre (cons z us)))) e in
    record {
      rs = cons r c.rs;
      applied =
          apply_edits-then (under (to_string (size_items pre)) (changes x y))
            (item_edits xs ys (suc (size_items pre))) _ _ first
          ∙ ap (λ i. apply_edits (item_edits xs ys i) (array (append_items pre (cons r us))))
              (sym next)
          ∙ ap
              (λ zs.
                apply_edits (item_edits xs ys (size_items (append_items pre (cons r nil))))
                  (array zs))
              (sym (there us))
          ∙ c.applied
          ∙ ap (λ zs. some (array zs)) (there _);
      equal = &&-true (json_eq r y) _ q c.equal;
      plain = (p, c.plain);
    }

-- An object in which the members of `ms` are changed and dropped, as `ns` has them.
pub record Changed (ms ns us : Members) : Type 0 where
  pub rs : Members
  pub applied : apply_edits (key_edits ms ns) (object us) ≡ some (object rs)
  pub plain : HavePlain rs
  pub others : (k : Bytes) → find_key k ms ≡ none → find_key k rs ≡ find_key k us
  pub agree :
      (k : Bytes) (v : Json) → find_key k ms ≡ some v → Agree (find_key k rs) (find_key k ns)

Agree-none_right : (o : Option Json) → Agree o none → o ≡ none
Agree-none_right none h = refl
Agree-none_right (some w) h = absurd h

pub Agree-found :
    (o : Option Json) (v : Json)
    → Agree o (some v)
    → (u : Json) × (o ≡ some u) × (json_eq u v ≡ true)
Agree-found none v h = absurd h
Agree-found (some u) v h = (u, refl, h)

-- The members of `ms` are in the object, with equal values.
abbrev pub Holds : Members → Members → Type 0
Holds ms us = (k : Bytes) (v : Json) → find_key k ms ≡ some v → Agree (find_key k us) (some v)

pub object-Reaches :
    (ms ns us : Members)
    → HavePlain ms
    → HavePlain ns
    → HavePlain us
    → json_eq (object us) (object ms) ≡ true
    → Changed ms ns us
    → Reaches (object ms) (object ns) (object us)
unfolding changes apply_edits IsPlain
object-Reaches ms ns us h k p e c = elim (Bool-cases (json_eq (object ms) (object ns))) [
  | inl y ↦ (object us, rw y refl, json_eq_trans (object us) (object ms) (object ns) e y, p)
  | inr n ↦
      let w = new_keys-WithNew ms ns c.rs k c.plain in
      let same : SameKeys w.all_added ns =
        λ j. subst (λ o. Agree o (find_key j ns)) (sym (w.found j)) (agreed j) in
      (
        object w.all_added,
        rw n (apply_edits-then (key_edits ms ns) (new_keys ms ns) _ _ c.applied ∙ w.applied),
        SameKeys-equal w.all_added ns w.plain k same,
        w.plain,
      )
]
  where
    fresh_key :
        (j : Bytes)
        → find_key j c.rs ≡ none
        → Agree (added none (find_key j ns) (find_key j c.rs)) (find_key j ns)
    fresh_key j gone = elim (Option-cases (find_key j ns)) [
      | inl n ↦ rw n (rw gone tt)
      | inr (x, s) ↦ rw s (json_eq_self x (find_key-IsPlain j ns x k s))
    ]

    agreed :
        (j : Bytes)
        → Agree (added (find_key j ms) (find_key j ns) (find_key j c.rs)) (find_key j ns)
    agreed j = elim (Option-cases (find_key j ms)) [
      | inl n ↦
          let same : Agree (find_key j us) none = rw n at (equal-SameKeys us ms p h e j) in
          rw n (fresh_key j (c.others j n ∙ Agree-none_right (find_key j us) same))
      | inr (v, s) ↦ rw s (c.agree j v s)
    ]

pub no_members : (ns us : Members) → HavePlain us → Changed end ns us
unfolding key_edits apply_edits find_key
no_members ns us p = record {
  rs = us;
  applied = refl;
  plain = p;
  others = λ k h. refl;
  agree = λ k v h. let wrong : ⊥ = cc in absurd wrong;
}
