-- ===== src/JsonDiff/Equal.antt =====
-- Equality of JSON values: of a plain value with itself, and of parts put together.
use kedge.Base.{
  ◌≡◌, refl, sym, ap, ◌∙◌, inl, inr, Bool, true, false, none, some, ◌==◌, ==-self, &&-eq-true,
  &&-true, Bool-cases,
}
use kedge.Bytes.{Bytes, bytes_eq, bytes_eq_iff, bytes_eq_self}
use kedge.Json.{
  Json, null, bool_, int64, uint64, double_, string, array, object, Items, nil, cons, Members, end,
  member, find_key, size_members, json_eq, items_eq, members_in, int_eq, bool_eq, holds,
  append_members,
}
use kedge.Base.Int.{ℤ, pos, negsuc}
use kedge.JsonDiff.Patch.{append_items}
use kedge.JsonDiff.Plain.{IsPlain, ArePlain, HavePlain}

bool_eq_self : (b : Bool) → bool_eq b b ≡ true
unfolding bool_eq
bool_eq_self true = refl
bool_eq_self false = refl

int_eq_self : (i : ℤ) → int_eq i i ≡ true
unfolding int_eq
int_eq_self (pos n) = ==-self n
int_eq_self (negsuc n) = ==-self n

pub bytes_eq-sym_false : (j k : Bytes) → bytes_eq j k ≡ false → bytes_eq k j ≡ false
bytes_eq-sym_false j k n = elim (Bool-cases (bytes_eq k j)) [
  | inr f ↦ f
  | inl y ↦
      let same : j ≡ k = sym ((bytes_eq_iff k j).0 y) in
      let equal : bytes_eq j k ≡ true = (bytes_eq_iff j k).1 same in cc
]

-- A key that is found is one of the keys.
pub key_apart :
    (j k : Bytes) (v : Json) (ms : Members)
    → find_key j (member k v ms) ≡ none
    → (bytes_eq k j ≡ false) × (find_key j ms ≡ none)
unfolding find_key
key_apart j k v ms h = elim (Bool-cases (bytes_eq k j)) [
  | inl y ↦ let wrong : some v ≡ none = rw y at h in absurd (apart v wrong)
  | inr n ↦ (n, rw n at h)
]
  where
    apart : (v : Json) → some v ≡ none → ⊥
    apart v e = cc

-- Each member of the first object is in the second one.
unfoldable pub Covers : Members → Members → Type 0
Covers end ns = Unit
Covers (member k v ms) ns = (find_key k ns ≡ some v) × Covers ms ns

find_key-later :
    (k j : Bytes) (w : Json) (ns : Members)
    → bytes_eq j k ≡ false
    → find_key k (member j w ns) ≡ find_key k ns
unfolding find_key
find_key-later k j w ns n = rw n refl

find_key-first : (k : Bytes) (v : Json) (ns : Members) → find_key k (member k v ns) ≡ some v
unfolding find_key
find_key-first k v ns = rw (bytes_eq_self k) refl

Covers-more :
    (ms ns : Members) (j : Bytes) (w : Json)
    → find_key j ms ≡ none
    → Covers ms ns
    → Covers ms (member j w ns)
unfolding Covers
Covers-more end ns j w h c = tt
Covers-more (member k v ms) ns j w h (e, c) =
    let (n, later) = key_apart j k v ms h in
    (find_key-later k j w ns (bytes_eq-sym_false k j n) ∙ e, Covers-more ms ns j w later c)

pub Covers-self : (ms : Members) → HavePlain ms → Covers ms ms
unfolding Covers HavePlain
Covers-self end h = tt
Covers-self (member k v ms) (_, (n, (_, h))) =
    (find_key-first k v ms, Covers-more ms ms k v n (Covers-self ms h))

mutual
  unfolding json_eq IsPlain Covers

  json_eq_plain : (v : Json) → IsPlain v → json_eq v v ≡ true
  json_eq_plain null h = refl
  json_eq_plain (bool_ b) h = bool_eq_self b
  json_eq_plain (int64 i) h = int_eq_self i
  json_eq_plain (uint64 n) h = ==-self n
  json_eq_plain (double_ b) h = h
  json_eq_plain (string s) h = bytes_eq_self s
  json_eq_plain (array xs) h = items_eq_plain xs h
  json_eq_plain (object ms) h =
      &&-true (size_members ms == size_members ms) (members_in ms ms) (==-self (size_members ms))
        (members_in_covered ms ms (Covers-self ms h) h)

  items_eq_plain : (xs : Items) → ArePlain xs → items_eq xs xs ≡ true
  items_eq_plain nil h = refl
  items_eq_plain (cons x xs) (hx, h) =
      &&-true (json_eq x x) (items_eq xs xs) (json_eq_plain x hx) (items_eq_plain xs h)

  members_in_covered : (ms ns : Members) → Covers ms ns → HavePlain ms → members_in ms ns ≡ true
  members_in_covered end ns c h = refl
  members_in_covered (member k v ms) ns (e, c) (_, (_, (hv, h))) =
      &&-true (holds (json_eq v) (find_key k ns)) (members_in ms ns)
        (ap (holds (json_eq v)) e ∙ json_eq_plain v hv) (members_in_covered ms ns c h)

pub json_eq_self : (v : Json) → IsPlain v → json_eq v v ≡ true
json_eq_self v h = json_eq_plain v h

pub items_eq-append :
    (xs xs' ys ys' : Items)
    → items_eq xs xs' ≡ true
    → items_eq ys ys' ≡ true
    → items_eq (append_items xs ys) (append_items xs' ys') ≡ true
unfolding items_eq
items_eq-append nil nil ys ys' h k = k
items_eq-append nil (cons x xs) ys ys' h k = cc
items_eq-append (cons x xs) nil ys ys' h k = cc
items_eq-append (cons x xs) (cons y xs') ys ys' h k =
    let (a, b) = &&-eq-true (json_eq x y) (items_eq xs xs') h in
    &&-true (json_eq x y) _ a (items_eq-append xs xs' ys ys' b k)

pub members_in-append :
    (ms ms' ns : Members)
    → members_in ms ns ≡ true
    → members_in ms' ns ≡ true
    → members_in (append_members ms ms') ns ≡ true
unfolding members_in
members_in-append end ms' ns h k = k
members_in-append (member j v ms) ms' ns h k =
    let (a, b) = &&-eq-true (holds (json_eq v) (find_key j ns)) (members_in ms ns) h in
    &&-true (holds (json_eq v) (find_key j ns)) _ a (members_in-append ms ms' ns b k)
