-- ===== src/JsonDiff/SameKeys.antt =====
-- Two objects are equal when they agree at every key.
use kedge.Base.{
  &&-true, ◌≡◌, refl, sym, ap, ◌∙◌, inl, inr, true, Option, none, some, arith, ◌==◌, ==_iff,
  &&-eq-true, Bool-cases, Option-cases,
}
use kedge.Bytes.{Bytes, bytes_eq, bytes_eq_iff}
use kedge.Json.{
  Json, object, Members, end, member, find_key, size_members, json_eq, members_in, holds,
}
use kedge.JsonDiff.Equal.{Covers, Covers-self}
use kedge.JsonDiff.Objects.{fresh, one_if, kept, kept-fresh}
use kedge.JsonDiff.Plain.{HavePlain}
use kedge.JsonDiff.Same.{members_in-find_key}

-- Two lookups agree: both fail, or they find equal values.
abbrev pub Agree : Option Json → Option Json → Type 0
Agree none none = Unit
Agree none (some w) = ⊥
Agree (some v) none = ⊥
Agree (some v) (some w) = json_eq v w ≡ true

abbrev pub SameKeys : Members → Members → Type 0
SameKeys ms ns = (k : Bytes) → Agree (find_key k ms) (find_key k ns)

holds-Agree : (v : Json) (o : Option Json) → holds (json_eq v) o ≡ true → Agree (some v) o
holds-Agree v none h = let wrong : ⊥ = cc in wrong
holds-Agree v (some w) h = h

Agree-holds : (v : Json) (o : Option Json) → Agree (some v) o → holds (json_eq v) o ≡ true
Agree-holds v none h = absurd h
Agree-holds v (some w) h = h

Agree-none : (o : Option Json) → Agree none o → o ≡ none
Agree-none none h = refl
Agree-none (some w) h = absurd h

kept_all : (ms ns : Members) → members_in ms ns ≡ true → kept ms ns ≡ size_members ms
unfolding members_in
kept_all end ns h = refl
kept_all (member k v ms) ns h =
    let (here, later) = &&-eq-true (holds (json_eq v) (find_key k ns)) (members_in ms ns) h in
    omega (arith, kept_all ms ns later, found (find_key k ns) here)
  where
    found : (o : Option Json) → holds (json_eq v) o ≡ true → one_if o ≡ 1
    found none h = cc
    found (some w) h = refl

find_key-fresh :
    (k : Bytes) (src tgt : Members)
    → find_key k src ≡ none
    → find_key k (fresh src tgt) ≡ find_key k tgt
unfolding fresh find_key
find_key-fresh k src end h = refl
find_key-fresh k src (member j w tgt) h = elim (Bool-cases (bytes_eq j k)) [
  | inl y ↦
      let lacks : find_key j src ≡ none = ap (λ i. find_key i src) ((bytes_eq_iff j k).0 y) ∙ h in
      rw (lacks, fresh) (rw y refl)
  | inr n ↦ elim (Option-cases (find_key j src)) [
    | inl e ↦ rw (e, fresh) (rw n (find_key-fresh k src tgt h))
    | inr (x, e) ↦ rw (e, fresh) (rw n (find_key-fresh k src tgt h))
  ]
]

find_key_empty : (k : Bytes) (ms : Members) → size_members ms ≡ 0 → find_key k ms ≡ none
unfolding find_key
find_key_empty k end h = refl
find_key_empty k (member j v ms) h = absurd (omega arith)

-- Equal objects agree at every key: no key of the second one is left over, by their sizes.
pub equal-SameKeys :
    (ms ns : Members)
    → HavePlain ms
    → HavePlain ns
    → json_eq (object ms) (object ns) ≡ true
    → SameKeys ms ns
unfolding json_eq
equal-SameKeys ms ns h k e j =
    let (sized, all_in) = &&-eq-true (size_members ms == size_members ns) (members_in ms ns) e in
    let equal : size_members ms ≡ size_members ns = (==_iff _ _).0 sized in
    let left : size_members (fresh ms ns) ≡ 0 =
      omega (arith, kept_all ms ns all_in, kept-fresh ms ns h k, equal) in
    elim (Option-cases (find_key j ms)) [
      | inl n ↦ rw (n, sym (find_key-fresh j ms ns n) ∙ find_key_empty j (fresh ms ns) left) tt
      | inr (v, s) ↦ rw s (holds-Agree v (find_key j ns) (members_in-find_key ms ns j v all_in s))
    ]

members_in-Covers :
    (part ms ns : Members) → Covers part ms → SameKeys ms ns → members_in part ns ≡ true
unfolding members_in Covers
members_in-Covers end ms ns c a = refl
members_in-Covers (member k v part) ms ns (e, c) a =
    &&-true (holds (json_eq v) (find_key k ns)) (members_in part ns)
      (Agree-holds v (find_key k ns) (rw e at (a k))) (members_in-Covers part ms ns c a)

fresh-Covers :
    (part ms ns : Members) → Covers part ns → SameKeys ms ns → size_members (fresh ms part) ≡ 0
unfolding fresh Covers
fresh-Covers end ms ns c a = refl
fresh-Covers (member k v part) ms ns (e, c) a = elim (Option-cases (find_key k ms)) [
  | inl n ↦
      let agreed : Agree none (find_key k ns) = rw n at (a k) in
      let wrong : some v ≡ none = sym e ∙ Agree-none (find_key k ns) agreed in cc
  | inr (w, s) ↦ rw (s, fresh) (fresh-Covers part ms ns c a)
]

-- Objects that agree at every key are equal.
pub SameKeys-equal :
    (ms ns : Members)
    → HavePlain ms
    → HavePlain ns
    → SameKeys ms ns
    → json_eq (object ms) (object ns) ≡ true
unfolding json_eq
SameKeys-equal ms ns h k a =
    let all_in = members_in-Covers ms ms ns (Covers-self ms h) a in
    let none_left = fresh-Covers ns ms ns (Covers-self ns k) a in
    let sized : size_members ms ≡ size_members ns =
      omega (arith, kept_all ms ns all_in, kept-fresh ms ns h k, none_left) in
    &&-true (size_members ms == size_members ns) (members_in ms ns) ((==_iff _ _).1 sized) all_in
