-- ===== src/JsonDiff.antt =====
-- json_diff.hpp: the JSON patch from one value to another.
pub mod Growth
pub mod Patch
pub mod Changes
pub mod Plain
pub mod Reading
pub mod Read
pub mod Equal
pub mod Focus
pub mod Arrays
pub mod Objects
pub mod Same
pub mod SameKeys
pub mod Keys
pub mod NewKeys
pub mod Steps
pub mod OneMember
pub mod Exact
pub mod Values
pub mod Alike
use kedge.Base.{
  ℕ, zero, suc, Bool, true, false, Option, none, some, List, [], ◌∷◌, ◌++◌, ltb, if◌then◌else◌,
}
use kedge.Bytes.{Bytes, codes}
use kedge.Number.{to_string}
use kedge.Json.{
  Json, null, bool_, int64, uint64, double_, string, array, object, Items, nil, cons, Members, end,
  member, find_key, size_items, json_eq,
}

-- The objects of the result array: `op`, `path`, and `value` but for "remove".
pub data Op : Type 0 where
  replace : Bytes → Json → Op
  remove : Bytes → Op
  add : Bytes → Json → Op

unfoldable pub op_json : Op → Json
op_json (replace p v) = object (
    member (codes "op") (string (codes "replace"))
      (member (codes "path") (string p) (member (codes "value") v end)))
op_json (remove p) =
    object (member (codes "op") (string (codes "remove")) (member (codes "path") (string p) end))
op_json (add p v) = object (
    member (codes "op") (string (codes "add"))
      (member (codes "path") (string p) (member (codes "value") v end)))

abbrev pub at_index : Bytes → ℕ → Bytes
at_index path i = path ++ codes "/" ++ to_string i

abbrev pub at_key : Bytes → Bytes → Bytes
at_key path k = path ++ codes "/" ++ k

-- `for (i = n_src; i-- > n_tgt;)`: the indices from the last one down.
unfoldable pub removals : Bytes → ℕ → ℕ → List Op
removals path n_tgt zero = []
removals path n_tgt (suc i) =
    let rest = removals path n_tgt i in
    if ltb n_tgt (suc i) then remove (at_index path i) ∷ rest else []

abbrev pub drop_items : ℕ → Items → Items
drop_items zero xs = xs
drop_items (suc n) nil = nil
drop_items (suc n) (cons x xs) = drop_items n xs

-- The loop over the elements of the target behind the size of the source. Its index goes up twice
-- in each round, so that every other element is taken.
unfoldable pub additions : Bytes → Items → List Op
additions path nil = []
additions path (cons x nil) = add (path ++ codes "/-") x ∷ []
additions path (cons x (cons y xs)) = add (path ++ codes "/-") x ∷ additions path xs

-- The second pass over an object: the members of the target whose keys the source lacks.
unfoldable pub new_members : Bytes → Members → Members → List Op
unfolding find_key
new_members path src end = []
new_members path src (member k v tgt) = elim (find_key k src) [
  | none ↦ add (at_key path k) v ∷ new_members path src tgt
  | some _ ↦ new_members path src tgt
]

abbrev pub member_diff : (Json → Bytes → List Op) → Option Json → Bytes → List Op
member_diff diff none path = remove path ∷ []
member_diff diff (some w) path = diff w path

-- Values of two kinds, and scalars, are replaced whole.
unfoldable mutual
  unfolding json_eq find_key removals additions new_members

  pub json_diff : Json → Json → Bytes → List Op
  json_diff (array src) (array tgt) path =
      let changes =
        diff_items src tgt 0 path
        ++ (removals path (size_items tgt) (size_items src)
            ++ additions path (drop_items (size_items src) tgt)) in
      if json_eq (array src) (array tgt) then [] else changes
  json_diff (object src) (object tgt) path =
      let changes = diff_members src tgt path ++ new_members path src tgt in
      if json_eq (object src) (object tgt) then [] else changes
  json_diff source target path = if json_eq source target then [] else replace path target ∷ []

  -- The elements at the indices that both arrays have.
  pub diff_items : Items → Items → ℕ → Bytes → List Op
  diff_items (cons x xs) (cons y ys) i path =
      json_diff x y (at_index path i) ++ diff_items xs ys (suc i) path
  diff_items _ _ i path = []

  -- The first pass over an object: changed and removed members.
  pub diff_members : Members → Members → Bytes → List Op
  diff_members end tgt path = []
  diff_members (member k v ms) tgt path =
      member_diff (json_diff v) (find_key k tgt) (at_key path k) ++ diff_members ms tgt path
