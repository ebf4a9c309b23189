-- ===== src/Json/Rows.antt =====
-- Objects built by `emplace` under a condition, one key after the other.
use kedge.Base.{
  ◌≡◌, refl, sym, ap, ◌∙◌, Bool, true, ◌&&◌, inl, inr, Option, none, some, List, [], ◌∷◌, arith,
  if◌then◌else◌, Bool-cases, Option-cases,
}
use kedge.Bytes.{Bytes, bytes_eq, bytes_eq_iff}
use kedge.Json.{Json, Members, end, member, find_key}

-- `if (when) obj.emplace(key, value)`.
pub record Row : Type 0 where
  pub when : Bool
  pub key : Bytes
  pub value : Json

abbrev pub always : Bytes → Json → Row
always k v = record { when = true; key = k; value = v }

abbrev pub row : Bool → Bytes → Json → Row
row b k v = record { when = b; key = k; value = v }

unfoldable pub push_back : Members → Bytes → Json → Members
push_back end k v = member k v end
push_back (member j w ms) k v = member j w (push_back ms k v)

-- `emplace` leaves an object alone that has the key.
unfoldable pub emplace : Members → Bytes → Json → Members
unfolding push_back find_key
emplace ms k v = elim (find_key k ms) [ none ↦ push_back ms k v | some _ ↦ ms ]

unfoldable pub emplace_if : Members → Row → Members
unfolding emplace
emplace_if ms r = if r.when then emplace ms r.key r.value else ms

unfoldable pub build : Members → List Row → Members
unfolding emplace_if
build ms [] = ms
build ms (r ∷ rs) = build (emplace_if ms r) rs

pub find_key-push_back :
    (ms : Members) (k j : Bytes) (v : Json)
    → find_key k ms ≡ none
    → find_key j (push_back ms k v) ≡ (if bytes_eq k j then some v else find_key j ms)
unfolding find_key push_back
find_key-push_back end k j v h = refl
find_key-push_back (member i w ms) k j v h =
    ground
      (arith, bytes_eq_iff i j, bytes_eq_iff k j, bytes_eq_iff i k, find_key-push_back ms k j v)

abbrev pub or_else : Option Json → Option Json → Option Json
or_else none o = o
or_else (some v) o = some v

or_else-none : (o : Option Json) → or_else o none ≡ o
or_else-none none = refl
or_else-none (some v) = refl

or_else_assoc : (o p q : Option Json) → or_else (or_else o p) q ≡ or_else o (or_else p q)
or_else_assoc none p q = refl
or_else_assoc (some v) p q = refl

find_key-emplace :
    (ms : Members) (k j : Bytes) (v : Json)
    → find_key j (emplace ms k v) ≡ or_else (find_key j ms) (if bytes_eq k j then some v else none)
unfolding emplace
find_key-emplace ms k j v = elim (Option-cases (find_key k ms)) [
  | inl n ↦ rw (n, emplace) (find_key-push_back ms k j v n ∙ there n)
  | inr (w, s) ↦ rw (s, emplace) (kept w s)
]
  where
    there :
        find_key k ms ≡ none
        → (if bytes_eq k j then some v else find_key j ms)
          ≡ or_else (find_key j ms) (if bytes_eq k j then some v else none)
    there n = elim (Bool-cases (bytes_eq k j)) [
      | inl y ↦
          let lacks : find_key j ms ≡ none =
            ap (λ i. find_key i ms) (sym ((bytes_eq_iff k j).0 y)) ∙ n in
          rw (y, lacks) refl
      | inr m ↦ rw m (sym (or_else-none (find_key j ms)))
    ]

    kept :
        (w : Json)
        → find_key k ms ≡ some w
        → find_key j ms ≡ or_else (find_key j ms) (if bytes_eq k j then some v else none)
    kept w s = elim (Bool-cases (bytes_eq k j)) [
      | inl y ↦
          let has : find_key j ms ≡ some w =
            ap (λ i. find_key i ms) (sym ((bytes_eq_iff k j).0 y)) ∙ s in
          rw has refl
      | inr m ↦ rw m (sym (or_else-none (find_key j ms)))
    ]

find_key-emplace_if :
    (ms : Members) (r : Row) (j : Bytes)
    → find_key j (emplace_if ms r)
      ≡ or_else (find_key j ms) (if bytes_eq r.key j && r.when then some r.value else none)
unfolding emplace_if
find_key-emplace_if ms r j = elim (Bool-cases r.when) [
  | inl e ↦ rw e (find_key-emplace ms r.key j r.value ∙ ground arith)
  | inr e ↦ rw e (sym (or_else-none (find_key j ms)) ∙ ground arith)
]

-- The value of a key: that of the first row with this key whose condition holds.
unfoldable pub listed : Bytes → List Row → Option Json
listed j [] = none
listed j (r ∷ rs) = if bytes_eq r.key j && r.when then some r.value else listed j rs

listed_step :
    (j : Bytes) (r : Row) (rs : List Row)
    → or_else (if bytes_eq r.key j && r.when then some r.value else none) (listed j rs)
      ≡ listed j (r ∷ rs)
unfolding listed
listed_step j r rs = elim (Bool-cases (bytes_eq r.key j && r.when)) [
  | inl e ↦ rw e refl
  | inr e ↦ rw e refl
]

find_key-build_from :
    (ms : Members) (rs : List Row) (j : Bytes)
    → find_key j (build ms rs) ≡ or_else (find_key j ms) (listed j rs)
unfolding build listed
find_key-build_from ms [] j = sym (or_else-none (find_key j ms))
find_key-build_from ms (r ∷ rs) j =
    find_key-build_from (emplace_if ms r) rs j
    ∙ ap (λ o. or_else o (listed j rs)) (find_key-emplace_if ms r j)
    ∙ or_else_assoc (find_key j ms) _ (listed j rs)
    ∙ ap (or_else (find_key j ms)) (listed_step j r rs)

-- The object built from rows holds at each key the value of the first row for it whose condition holds.
pub find_key-build : (rs : List Row) (j : Bytes) → find_key j (build end rs) ≡ listed j rs
unfolding find_key
find_key-build rs j = find_key-build_from end rs j
