-- ===== src/JsonDiff/Same.antt =====
-- Equality of JSON values as a relation: it is transitive, and two objects are equal when they agree at
-- every key.
use kedge.Base.{
  &&-true, ℕ, ◌≡◌, refl, sym, ap, ◌∙◌, inl, inr, Bool, true, false, some, arith, ◌==◌, ==_iff,
  &&-eq-true, Bool-cases, Option-cases,
}
use kedge.Base.Int.{ℤ, pos, negsuc}
use kedge.Bytes.{Bytes, bytes_eq, bytes_eq_iff}
use kedge.Json.{
  Json, null, bool_, int64, uint64, double_, string, array, object, Items, nil, cons, Members, end,
  member, find_key, size_members, json_eq, items_eq, members_in, int_eq, bool_eq, double_eq, holds,
}

int_eq_trans : (a b c : ℤ) → int_eq a b ≡ true → int_eq b c ≡ true → int_eq a c ≡ true
unfolding int_eq
int_eq_trans (pos a) (pos b) (pos c) h k = ground arith
int_eq_trans (negsuc a) (negsuc b) (negsuc c) h k = ground arith
int_eq_trans _ _ _ h k = cc

bool_eq_trans : (a b c : Bool) → bool_eq a b ≡ true → bool_eq b c ≡ true → bool_eq a c ≡ true
unfolding bool_eq
bool_eq_trans true b c h k = ground arith
bool_eq_trans false b c h k = ground arith

double_eq_trans : (a b c : ℕ) → double_eq a b ≡ true → double_eq b c ≡ true → double_eq a c ≡ true
unfolding double_eq
double_eq_trans a b c h k = ground arith

bytes_eq_trans : (a b c : Bytes) → bytes_eq a b ≡ true → bytes_eq b c ≡ true → bytes_eq a c ≡ true
bytes_eq_trans a b c h k = (bytes_eq_iff a c).1 ((bytes_eq_iff a b).0 h ∙ (bytes_eq_iff b c).0 k)

-- A member of the first object is found in the second one.
pub members_in-find_key :
    (ms ns : Members) (k : Bytes) (v : Json)
    → members_in ms ns ≡ true
    → find_key k ms ≡ some v
    → holds (json_eq v) (find_key k ns) ≡ true
unfolding members_in find_key
members_in-find_key end ns k v h e = cc
members_in-find_key (member j u ms) ns k v h e =
    let (here, later) = &&-eq-true (holds (json_eq u) (find_key j ns)) (members_in ms ns) h in
    elim (Bool-cases (bytes_eq j k)) [
      | inl y ↦
          let same : some u ≡ some v = rw y at e in
          let value : u ≡ v = cc in
          ap (λ i. holds (json_eq v) (find_key i ns)) (sym ((bytes_eq_iff j k).0 y))
          ∙ ap (λ w. holds (json_eq w) (find_key j ns)) (sym value)
          ∙ here
      | inr n ↦ members_in-find_key ms ns k v later (rw n at e)
    ]

mutual
  unfolding json_eq int_eq

  json_trans : (a b c : Json) → json_eq a b ≡ true → json_eq b c ≡ true → json_eq a c ≡ true
  json_trans null null c h k = k
  json_trans null b c h k = cc
  json_trans (bool_ x) (bool_ y) (bool_ z) h k = bool_eq_trans x y z h k
  json_trans (bool_ x) b c h k = cc
  json_trans (int64 x) (int64 y) (int64 z) h k = int_eq_trans x y z h k
  json_trans (int64 x) (int64 y) (uint64 z) h k = int_eq_trans x y (pos z) h k
  json_trans (int64 x) (uint64 y) (int64 z) h k = int_eq_trans x (pos y) z h k
  json_trans (int64 x) (uint64 y) (uint64 z) h k = int_eq_trans x (pos y) (pos z) h k
  json_trans (int64 x) b c h k = cc
  json_trans (uint64 x) (int64 y) (int64 z) h k = int_eq_trans (pos x) y z h k
  json_trans (uint64 x) (int64 y) (uint64 z) h k = int_eq_trans (pos x) y (pos z) h k
  json_trans (uint64 x) (uint64 y) (int64 z) h k = int_eq_trans (pos x) (pos y) z h k
  json_trans (uint64 x) (uint64 y) (uint64 z) h k = ground arith
  json_trans (uint64 x) b c h k = cc
  json_trans (double_ x) (double_ y) (double_ z) h k = double_eq_trans x y z h k
  json_trans (double_ x) b c h k = cc
  json_trans (string x) (string y) (string z) h k = bytes_eq_trans x y z h k
  json_trans (string x) b c h k = cc
  json_trans (array xs) (array ys) (array zs) h k = items_trans xs ys zs h k
  json_trans (array xs) b c h k = cc
  json_trans (object ms) (object ns) (object os) h k =
      let (sized, all_in) = &&-eq-true (size_members ms == size_members ns) (members_in ms ns) h in
      let (sized', all_in') =
        &&-eq-true (size_members ns == size_members os) (members_in ns os) k in
      &&-true (size_members ms == size_members os) (members_in ms os)
        ((==_iff _ _).1 ((==_iff _ _).0 sized ∙ (==_iff _ _).0 sized'))
        (members_trans ms ns os all_in all_in')
  json_trans (object ms) b c h k = cc

  items_trans :
      (xs ys zs : Items) → items_eq xs ys ≡ true → items_eq ys zs ≡ true → items_eq xs zs ≡ true
  items_trans nil nil zs h k = k
  items_trans (cons x xs) (cons y ys) (cons z zs) h k =
      let (first, rest) = &&-eq-true (json_eq x y) (items_eq xs ys) h in
      let (first', rest') = &&-eq-true (json_eq y z) (items_eq ys zs) k in
      &&-true (json_eq x z) (items_eq xs zs) (json_trans x y z first first')
        (items_trans xs ys zs rest rest')
  items_trans xs ys zs h k = cc

  members_trans :
      (ms ns os : Members)
      → members_in ms ns ≡ true
      → members_in ns os ≡ true
      → members_in ms os ≡ true
  members_trans end ns os h k = refl
  members_trans (member j v ms) ns os h k =
      let (here, later) = &&-eq-true (holds (json_eq v) (find_key j ns)) (members_in ms ns) h in
      let rest = members_trans ms ns os later k in
      elim (Option-cases (find_key j ns)) [
        | inl n ↦ let wrong : false ≡ true = rw n at here in cc
        | inr (w, s) ↦ elim (Option-cases (find_key j os)) [
          | inl n ↦
              let there = members_in-find_key ns os j w k s in
              let wrong : false ≡ true = rw n at there in cc
          | inr (x, t) ↦
              let there = members_in-find_key ns os j w k s in
              &&-true (holds (json_eq v) (find_key j os)) (members_in ms os)
                (ap (holds (json_eq v)) t ∙ json_trans v w x (rw s at here) (rw t at there)) rest
        ]
      ]

pub json_eq_trans : (a b c : Json) → json_eq a b ≡ true → json_eq b c ≡ true → json_eq a c ≡ true
json_eq_trans a b c h k = json_trans a b c h k
