-- ===== src/JsonDiff/Objects.antt =====
-- How many members of a target its source lacks.
use kedge.Base.{
  ℕ, ◌+◌, ◌≡◌, refl, sym, ap, ◌∙◌, inl, inr, true, Option, none, some, arith, Bool-cases,
  Option-cases,
}
use kedge.Bytes.{Bytes, bytes_eq, bytes_eq_iff}
use kedge.Json.{Json, Members, end, member, find_key, size_members}
use kedge.JsonDiff.Equal.{bytes_eq-sym_false}
use kedge.JsonDiff.Plain.{HavePlain}

-- The members of the target whose keys the source lacks.
unfoldable pub fresh : Members → Members → Members
unfolding find_key
fresh src end = end
fresh src (member k v tgt) = elim (find_key k src) [
  | none ↦ member k v (fresh src tgt)
  | some _ ↦ fresh src tgt
]

abbrev pub one_if : Option Json → ℕ
one_if none = 0
one_if (some _) = 1

-- How many keys of the first object the second one has.
abbrev pub kept : Members → Members → ℕ
kept end ns = 0
kept (member k v ms) ns = one_if (find_key k ns) + kept ms ns

fresh_step :
    (k : Bytes) (v : Json) (ms ns : Members)
    → find_key k ms ≡ none
    → HavePlain ns
    → size_members (fresh (member k v ms) ns) + one_if (find_key k ns) ≡ size_members (fresh ms ns)
unfolding find_key fresh HavePlain
fresh_step k v ms end h p = refl
fresh_step k v ms (member j w ns) h (_, (d, (_, p))) =
    let rest = fresh_step k v ms ns h p in
    elim (Bool-cases (bytes_eq j k)) [
      | inl y ↦
          let same : j ≡ k = (bytes_eq_iff j k).0 y in
          let back : bytes_eq k j ≡ true = (bytes_eq_iff k j).1 (sym same) in
          let lacks : find_key j ms ≡ none = ap (λ i. find_key i ms) same ∙ h in
          let gone : one_if (find_key k ns) ≡ 0 =
            ap (λ i. one_if (find_key i ns)) (sym same) ∙ ap one_if d in
          rw (y, back, lacks, fresh) (omega (arith, rest, gone))
      | inr n ↦ elim (Option-cases (find_key j ms)) [
        | inl e ↦ rw (n, bytes_eq-sym_false j k n, e, fresh) (omega (arith, rest))
        | inr (x, e) ↦ rw (n, bytes_eq-sym_false j k n, e, fresh) rest
      ]
    ]

fresh-end : (ns : Members) → fresh end ns ≡ ns
unfolding fresh find_key
fresh-end end = refl
fresh-end (member k v ns) = ap (member k v) (fresh-end ns)

pub kept-fresh :
    (ms ns : Members)
    → HavePlain ms
    → HavePlain ns
    → kept ms ns + size_members (fresh ms ns) ≡ size_members ns
unfolding HavePlain
kept-fresh end ns h p = omega (arith, ap size_members (fresh-end ns))
kept-fresh (member k v ms) ns (_, (d, (_, h))) p =
    omega (arith, kept-fresh ms ns h p, fresh_step k v ms ns d p)
