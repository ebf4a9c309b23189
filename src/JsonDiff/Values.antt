-- ===== src/JsonDiff/Values.antt =====
-- The values in a patch are values of the target.
use kedge.Base.{
  ℕ, zero, suc, inl, inr, Bool, true, false, List, [], ◌∷◌, ltb, if◌then◌else◌, All, All-append,
  Bool-cases, Option-cases,
}
use kedge.Bytes.{Bytes}
use kedge.Json.{
  Json, null, bool_, int64, uint64, double_, string, array, object, Items, nil, cons, Members, end,
  member, find_key, size_items, json_eq,
}
use kedge.JsonDiff.{
  Op, replace, remove, add, at_index, at_key, removals, drop_items, additions, new_members,
  member_diff, json_diff, diff_items, diff_members,
}
use kedge.JsonDiff.Arrays.{drop_items-ArePlain}
use kedge.JsonDiff.Plain.{IsPlain, ArePlain, HavePlain}
use kedge.JsonDiff.Read.{find_key-IsPlain}

abbrev pub HasPlain : Op → Type 0
HasPlain (replace p v) = IsPlain v
HasPlain (remove p) = Unit
HasPlain (add p v) = IsPlain v

abbrev AllPlain : List Op → Type 0
AllPlain = All HasPlain

unless_equal : (b : Bool) (ops : List Op) → AllPlain ops → AllPlain (if b then [] else ops)
unless_equal true ops h = tt
unless_equal false ops h = h

removals-AllPlain : (path : Bytes) (n m : ℕ) → AllPlain (removals path n m)
unfolding removals
removals-AllPlain path n zero = tt
removals-AllPlain path n (suc i) = elim (Bool-cases (ltb n (suc i))) [
  | inl y ↦ rw y (tt, removals-AllPlain path n i)
  | inr m ↦ rw m tt
]

additions-AllPlain : (path : Bytes) (xs : Items) → ArePlain xs → AllPlain (additions path xs)
unfolding additions IsPlain
additions-AllPlain path nil h = tt
additions-AllPlain path (cons x nil) (hx, h) = (hx, tt)
additions-AllPlain path (cons x (cons y xs)) (hx, (_, h)) = (hx, additions-AllPlain path xs h)

new_members-AllPlain :
    (path : Bytes) (src tgt : Members) → HavePlain tgt → AllPlain (new_members path src tgt)
unfolding new_members IsPlain
new_members-AllPlain path src end h = tt
new_members-AllPlain path src (member k v tgt) (_, (_, (hv, h))) =
    elim (Option-cases (find_key k src)) [
      | inl n ↦ rw (n, new_members) (hv, new_members-AllPlain path src tgt h)
      | inr (w, s) ↦ rw (s, new_members) (new_members-AllPlain path src tgt h)
    ]

mutual
  unfolding json_diff IsPlain

  diff_plain : (s t : Json) (path : Bytes) → IsPlain t → AllPlain (json_diff s t path)
  diff_plain null t path h = unless_equal (json_eq null t) _ (h, tt)
  diff_plain (bool_ a) t path h = unless_equal (json_eq (bool_ a) t) _ (h, tt)
  diff_plain (int64 a) t path h = unless_equal (json_eq (int64 a) t) _ (h, tt)
  diff_plain (uint64 a) t path h = unless_equal (json_eq (uint64 a) t) _ (h, tt)
  diff_plain (double_ a) t path h = unless_equal (json_eq (double_ a) t) _ (h, tt)
  diff_plain (string a) t path h = unless_equal (json_eq (string a) t) _ (h, tt)
  diff_plain (array xs) (array ys) path h = unless_equal (json_eq (array xs) (array ys)) _ (
      All-append HasPlain (diff_items xs ys 0 path) _ (diff_items_plain xs ys 0 path h) (
        All-append HasPlain (removals path (size_items ys) (size_items xs)) _
          (removals-AllPlain path (size_items ys) (size_items xs))
          (additions-AllPlain path (drop_items (size_items xs) ys)
            (drop_items-ArePlain (size_items xs) ys h))))
  diff_plain (array xs) t path h = unless_equal (json_eq (array xs) t) (replace path t ∷ []) (h, tt)
  diff_plain (object ms) (object ns) path h = unless_equal (json_eq (object ms) (object ns)) _ (
      All-append HasPlain (diff_members ms ns path) _ (diff_members_plain ms ns path h)
        (new_members-AllPlain path ms ns h))
  diff_plain (object ms) t path h =
      unless_equal (json_eq (object ms) t) (replace path t ∷ []) (h, tt)

  diff_items_plain :
      (xs ys : Items) (i : ℕ) (path : Bytes) → ArePlain ys → AllPlain (diff_items xs ys i path)
  diff_items_plain nil ys i path h = tt
  diff_items_plain (cons x xs) nil i path h = tt
  diff_items_plain (cons x xs) (cons y ys) i path (hy, h) =
      All-append HasPlain (json_diff x y (at_index path i)) _ (diff_plain x y (at_index path i) hy)
        (diff_items_plain xs ys (suc i) path h)

  diff_members_plain :
      (ms ns : Members) (path : Bytes) → HavePlain ns → AllPlain (diff_members ms ns path)
  diff_members_plain end ns path h = tt
  diff_members_plain (member k v ms) ns path h =
      All-append HasPlain (member_diff (json_diff v) (find_key k ns) (at_key path k)) _
        (elim (Option-cases (find_key k ns)) [
          | inl n ↦ rw n (tt, tt)
          | inr (w, s) ↦ rw s (diff_plain v w (at_key path k) (find_key-IsPlain k ns w h s))
        ])
        (diff_members_plain ms ns path h)

pub json_diff-HasPlain : (s t : Json) (path : Bytes) → IsPlain t → All HasPlain (json_diff s t path)
json_diff-HasPlain s t path h = diff_plain s t path h
