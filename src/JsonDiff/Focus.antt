-- ===== src/JsonDiff/Focus.antt =====
-- Edits of a child are edits of its parent: the child's place in an array and in an object.
use mathlib.Core.Option
use kedge.Base.{
  ℕ, ◌≡◌, ◌≢◌, refl, sym, ap, ◌∙◌, true, Option, none, some, List, [], ◌∷◌, ◌++◌, arith, all, All,
}
use kedge.Bytes.{Bytes}
use kedge.Number.{is_digit, digits_value, to_string}
use kedge.Number.Decimal.{IsDigit, to_string-IsDigit, digits_value-to_string}
use kedge.Json.{Json, array, Items, nil, cons, size_items}
use kedge.JsonDiff.Patch.{
  Edit, index_of, modify_item, append_items, descend, descend_all, act, apply_edits,
}
use kedge.JsonDiff.Changes.{under}

-- The child at `t`, in each of the values that `rebuild` makes.
abbrev pub IsFocus : Bytes → (Json → Json) → Type 0
IsFocus t rebuild =
    (f : Json → Option Json) (x : Json) → descend t f (rebuild x) ≡ Option.map rebuild (f x)

bind_map :
    (o : Option Json) (rebuild : Json → Json) (f : Json → Option Json)
    → Option.bind (Option.map rebuild o) f ≡ Option.bind o (λ x. f (rebuild x))
unfolding Option.bind
bind_map none rebuild f = refl
bind_map (some x) rebuild f = refl

map_bind :
    (o : Option Json) (rebuild : Json → Json) (f g : Json → Option Json)
    → ((x : Json) → f (rebuild x) ≡ Option.map rebuild (g x))
    → Option.bind o (λ x. f (rebuild x)) ≡ Option.map rebuild (Option.bind o g)
unfolding Option.bind
map_bind none rebuild f g h = refl
map_bind (some x) rebuild f g h = h x

pub apply_edits-under :
    (t : Bytes) (rebuild : Json → Json)
    → IsFocus t rebuild
    → (es : List Edit) (x : Json)
    → apply_edits (under t es) (rebuild x) ≡ Option.map rebuild (apply_edits es x)
unfolding apply_edits under descend_all
apply_edits-under t rebuild focus [] x = refl
apply_edits-under t rebuild focus ((ts, a) ∷ es) x =
    ap (λ o. Option.bind o (apply_edits (under t es))) (focus (descend_all ts (act a)) x)
    ∙ bind_map (descend_all ts (act a) x) rebuild (apply_edits (under t es))
    ∙ map_bind (descend_all ts (act a) x) rebuild (apply_edits (under t es)) (apply_edits es)
        (apply_edits-under t rebuild focus es)

bind_assoc :
    (o : Option Json) (f g : Json → Option Json)
    → Option.bind o (λ x. Option.bind (f x) g) ≡ Option.bind (Option.bind o f) g
unfolding Option.bind
bind_assoc none f g = refl
bind_assoc (some x) f g = refl

bind_same :
    (o : Option Json) (f g : Json → Option Json)
    → ((x : Json) → f x ≡ g x)
    → Option.bind o f ≡ Option.bind o g
unfolding Option.bind
bind_same none f g h = refl
bind_same (some x) f g h = h x

apply_edits-append :
    (es es' : List Edit) (j : Json)
    → apply_edits (es ++ es') j ≡ Option.bind (apply_edits es j) (apply_edits es')
unfolding apply_edits Option.bind
apply_edits-append [] es' j = refl
apply_edits-append ((ts, a) ∷ es) es' j =
    bind_same (descend_all ts (act a) j) _ _ (apply_edits-append es es')
    ∙ bind_assoc (descend_all ts (act a) j) (apply_edits es) (apply_edits es')

-- Edits that come to a value, and others from there on.
pub apply_edits-then :
    (es es' : List Edit) (j k : Json)
    → apply_edits es j ≡ some k
    → apply_edits (es ++ es') j ≡ apply_edits es' k
unfolding Option.bind
apply_edits-then es es' j k h =
    apply_edits-append es es' j ∙ ap (λ o. Option.bind o (apply_edits es')) h

all_digits : (s : Bytes) → All IsDigit s → all is_digit s ≡ true
unfolding is_digit
all_digits [] h = refl
all_digits (c ∷ s) (hc, h) = ground (arith, all_digits s h)

index_of_digits : (s : Bytes) → All IsDigit s → s ≢ [] → index_of s ≡ some (digits_value 0 s)
unfolding index_of
index_of_digits [] h n = absurd (n refl)
index_of_digits (c ∷ s) h n = rw (all_digits (c ∷ s) h) refl

some_digit : (n : ℕ) → to_string n ≢ []
unfolding to_string digits_value
some_digit n e =
    let none_left : n ≡ 0 = sym (digits_value-to_string n) ∙ ap (digits_value 0) e in
    absurd (zero_digit (ap to_string (sym none_left) ∙ e))
  where
    zero_digit : to_string 0 ≡ [] → ⊥
    zero_digit h = cc

pub index_of-to_string : (n : ℕ) → index_of (to_string n) ≡ some n
index_of-to_string n =
    index_of_digits (to_string n) (to_string-IsDigit n) (some_digit n)
    ∙ ap some (digits_value-to_string n)

map_map {ℓ} :
    {A B C : Type ℓ} (o : Option A) (f : A → B) (g : B → C)
    → Option.map g (Option.map f o) ≡ Option.map (λ x. g (f x)) o
map_map none f g = refl
map_map (some x) f g = refl

modify_item-append :
    (f : Json → Option Json) (pre : Items) (x : Json) (xs : Items)
    → modify_item f (size_items pre) (append_items pre (cons x xs))
      ≡ Option.map (λ y. append_items pre (cons y xs)) (f x)
unfolding modify_item
modify_item-append f nil x xs = refl
modify_item-append f (cons p pre) x xs =
    ap (Option.map (cons p)) (modify_item-append f pre x xs) ∙ map_map (f x) _ _

pub array-IsFocus :
    (pre xs : Items)
    → IsFocus (to_string (size_items pre)) (λ x. array (append_items pre (cons x xs)))
unfolding descend Option.bind
array-IsFocus pre xs f x =
    rw (index_of-to_string (size_items pre))
      (ap (Option.map array) (modify_item-append f pre x xs) ∙ map_map (f x) _ _)
