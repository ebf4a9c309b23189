-- ===== src/JsonDiff/Patch.antt =====
-- How a JSON patch is applied, by RFC 6902 with the pointers of RFC 6901. A leading zero in an index is
-- let through.
use mathlib.Core.Option
use kedge.Base.{ℕ, zero, suc, Option, none, some, List, [], ◌∷◌, ◌==◌, all, if◌then◌else◌}
use kedge.Bytes.{Bytes, codes, bytes_eq}
use kedge.Number.{is_digit, digits_value}
use kedge.Json.{Json, array, object, Items, nil, cons, Members, end, member}
use kedge.JsonDiff.{Op, replace, remove, add}

-- The text before the first "/", and the tokens behind each "/".
unfoldable pub split_slashes : Bytes → Bytes × List Bytes
split_slashes [] = ([], [])
split_slashes (c ∷ s) =
    let (w, ws) = split_slashes s in if c == 47 then ([], w ∷ ws) else (c ∷ w, ws)

-- "~1" stands for "/" and "~0" for "~".
unfoldable pub unescape : Bytes → Bytes
unescape [] = []
unescape (c ∷ []) = c ∷ []
unescape (c ∷ d ∷ s) =
    let rest = unescape s in
    let later = unescape (d ∷ s) in
    if c == 126
    then (if d == 48 then 126 ∷ rest else if d == 49 then 47 ∷ rest else c ∷ later)
    else c ∷ later

unfoldable pub unescape_all : List Bytes → List Bytes
unfolding unescape
unescape_all [] = []
unescape_all (w ∷ ws) = unescape w ∷ unescape_all ws

abbrev if_empty : Bytes → List Bytes → Option (List Bytes)
if_empty [] ws = some ws
if_empty (c ∷ w) ws = none

-- A pointer is empty or begins with "/".
unfoldable pub pointer : Bytes → Option (List Bytes)
unfolding split_slashes unescape_all
pointer path = let (w, ws) = split_slashes path in if_empty w (unescape_all ws)

-- What is done at a place: a value is put there, or a child is removed or added.
pub data Action : Type 0 where
  set : Json → Action
  drop_child : Bytes → Action
  add_child : Bytes → Json → Action

abbrev pub Edit : Type 0
Edit = List Bytes × Action

abbrev pub extend : Bytes → Option (List Bytes × Bytes) → List Bytes × Bytes
extend t none = ([], t)
extend t (some (ts, last)) = (t ∷ ts, last)

unfoldable pub split_last : List Bytes → Option (List Bytes × Bytes)
split_last [] = none
split_last (t ∷ ts) = some (extend t (split_last ts))

abbrev pub removing : Option (List Bytes × Bytes) → Option Edit
removing none = none
removing (some (ts, t)) = some (ts, drop_child t)

abbrev pub adding : Json → Option (List Bytes × Bytes) → Edit
adding v none = ([], set v)
adding v (some (ts, t)) = (ts, add_child t v)

-- An operation as an edit; `none` if its path is no pointer, or the whole value is removed.
unfoldable pub read_op : Op → Option Edit
unfolding pointer split_last
read_op (replace p v) = Option.map (λ ts. (ts, set v)) (pointer p)
read_op (remove p) = Option.bind (pointer p) (λ ts. removing (split_last ts))
read_op (add p v) = Option.map (λ ts. adding v (split_last ts)) (pointer p)

-- The index that a token stands for.
unfoldable pub index_of : Bytes → Option ℕ
unfolding is_digit digits_value
index_of [] = none
index_of (c ∷ s) = if all is_digit (c ∷ s) then some (digits_value 0 (c ∷ s)) else none

unfoldable pub modify_item : (Json → Option Json) → ℕ → Items → Option Items
modify_item f i nil = none
modify_item f zero (cons x xs) = Option.map (λ y. cons y xs) (f x)
modify_item f (suc i) (cons x xs) = Option.map (cons x) (modify_item f i xs)

unfoldable pub remove_item : ℕ → Items → Option Items
remove_item i nil = none
remove_item zero (cons x xs) = some xs
remove_item (suc i) (cons x xs) = Option.map (cons x) (remove_item i xs)

unfoldable pub insert_item : Json → ℕ → Items → Option Items
insert_item v zero xs = some (cons v xs)
insert_item v (suc i) nil = none
insert_item v (suc i) (cons x xs) = Option.map (cons x) (insert_item v i xs)

abbrev pub append_items : Items → Items → Items
append_items nil ys = ys
append_items (cons x xs) ys = cons x (append_items xs ys)

unfoldable pub modify_key : (Json → Option Json) → Bytes → Members → Option Members
modify_key f k end = none
modify_key f k (member j v ms) =
    let later = modify_key f k ms in
    if bytes_eq j k then Option.map (λ w. member j w ms) (f v) else Option.map (member j v) later

unfoldable pub remove_key : Bytes → Members → Option Members
remove_key k end = none
remove_key k (member j v ms) =
    let later = remove_key k ms in if bytes_eq j k then some ms else Option.map (member j v) later

unfoldable pub set_key : Bytes → Json → Members → Members
set_key k w end = member k w end
set_key k w (member j v ms) =
    let later = set_key k w ms in if bytes_eq j k then member j w ms else member j v later

-- To go down to a child.
unfoldable pub descend : Bytes → (Json → Option Json) → Json → Option Json
unfolding index_of modify_item modify_key
descend t f (array xs) = Option.bind (index_of t) (λ i. Option.map array (modify_item f i xs))
descend t f (object ms) = Option.map object (modify_key f t ms)
descend t f _ = none

unfoldable pub descend_all : List Bytes → (Json → Option Json) → Json → Option Json
unfolding descend
descend_all [] f = f
descend_all (t ∷ ts) f = descend t (descend_all ts f)

unfoldable pub drop_at : Bytes → Json → Option Json
unfolding index_of remove_item remove_key
drop_at t (array xs) = Option.bind (index_of t) (λ i. Option.map array (remove_item i xs))
drop_at t (object ms) = Option.map object (remove_key t ms)
drop_at t _ = none

-- "-" stands for the place behind the last element.
unfoldable pub add_at : Bytes → Json → Json → Option Json
unfolding index_of insert_item set_key
add_at t v (array xs) =
    if bytes_eq t (codes "-")
    then some (array (append_items xs (cons v nil)))
    else Option.bind (index_of t) (λ i. Option.map array (insert_item v i xs))
add_at t v (object ms) = some (object (set_key t v ms))
add_at t v _ = none

unfoldable pub act : Action → Json → Option Json
unfolding drop_at add_at
act (set v) j = some v
act (drop_child t) j = drop_at t j
act (add_child t v) j = add_at t v j

unfoldable pub apply_edits : List Edit → Json → Option Json
unfolding descend_all act
apply_edits [] j = some j
apply_edits ((ts, a) ∷ es) j = Option.bind (descend_all ts (act a) j) (apply_edits es)

unfoldable pub apply_patch : List Op → Json → Option Json
unfolding read_op descend_all act
apply_patch [] j = some j
apply_patch (op ∷ ops) j =
    Option.bind (read_op op) (λ (ts, a). Option.bind (descend_all ts (act a) j) (apply_patch ops))
