-- ===== src/JsonDiff/Changes.antt =====
-- The operations of json_diff as edits at places relative to the values compared, without paths.
use kedge.Base.{ℕ, zero, suc, Option, none, some, List, [], ◌∷◌, ◌++◌, ltb, if◌then◌else◌}
use kedge.Bytes.{Bytes, codes}
use kedge.Number.{to_string}
use kedge.Json.{
  Json, array, object, Items, nil, cons, Members, end, member, find_key, size_items, json_eq,
}
use kedge.JsonDiff.{drop_items}
use kedge.JsonDiff.Patch.{Edit, set, drop_child, add_child}

-- Edits of a child, from its parent.
unfoldable pub under : Bytes → List Edit → List Edit
under t [] = []
under t ((ts, a) ∷ es) = (t ∷ ts, a) ∷ under t es

unfoldable pub drops : ℕ → ℕ → List Edit
drops n_tgt zero = []
drops n_tgt (suc i) =
    let rest = drops n_tgt i in
    if ltb n_tgt (suc i) then ([], drop_child (to_string i)) ∷ rest else []

abbrev pub appended : Json → Edit
appended x = ([], add_child (codes "-") x)

unfoldable pub appends : Items → List Edit
appends nil = []
appends (cons x nil) = appended x ∷ []
appends (cons x (cons y xs)) = appended x ∷ appends xs

unfoldable pub new_keys : Members → Members → List Edit
unfolding find_key
new_keys src end = []
new_keys src (member k v tgt) = elim (find_key k src) [
  | none ↦ ([], add_child k v) ∷ new_keys src tgt
  | some _ ↦ new_keys src tgt
]

abbrev pub member_edits : (Json → List Edit) → Option Json → Bytes → List Edit
member_edits f none k = ([], drop_child k) ∷ []
member_edits f (some w) k = under k (f w)

unfoldable mutual
  unfolding json_eq find_key under drops appends new_keys

  pub changes : Json → Json → List Edit
  changes (array src) (array tgt) =
      let edits =
        item_edits src tgt 0
        ++ (drops (size_items tgt) (size_items src) ++ appends (drop_items (size_items src) tgt)) in
      if json_eq (array src) (array tgt) then [] else edits
  changes (object src) (object tgt) =
      let edits = key_edits src tgt ++ new_keys src tgt in
      if json_eq (object src) (object tgt) then [] else edits
  changes source target = if json_eq source target then [] else ([], set target) ∷ []

  pub item_edits : Items → Items → ℕ → List Edit
  item_edits (cons x xs) (cons y ys) i =
      under (to_string i) (changes x y) ++ item_edits xs ys (suc i)
  item_edits _ _ i = []

  pub key_edits : Members → Members → List Edit
  key_edits end tgt = []
  key_edits (member k v ms) tgt = member_edits (changes v) (find_key k tgt) k ++ key_edits ms tgt
