-- ===== src/Json/Shape/Build.antt =====
-- The shape of an object that is built by `emplace` under conditions.
use kedge.Base.{
  ◌≡◌, refl, inl, inr, Bool, true, false, not, ◌&&◌, ◌||◌, List, [], ◌∷◌, arith, &&-eq-true,
  Bool-cases, Option-cases,
}
use kedge.Bytes.{Bytes, bytes_eq}
use kedge.Json.{Json, object, Members, end, member, find_key}
use kedge.Json.Rows.{Row, push_back, emplace, emplace_if, build, listed, find_key-build}
use kedge.Json.Shape.{
  Shape, record_of, Fields, no_fields, field, declared, known_keys, field_ok, validate,
  validate_fields,
}

-- Every row for the key has a value of the shape.
unfoldable pub values_fit : Shape → Bytes → List Row → Bool
unfolding validate bytes_eq
values_fit s k [] = true
values_fit s k (r ∷ rs) = (not (bytes_eq r.key k) || validate s r.value) && values_fit s k rs

-- A row for the key has a condition that holds.
unfoldable pub given : Bytes → List Row → Bool
unfolding bytes_eq
given k [] = false
given k (r ∷ rs) = (bytes_eq r.key k && r.when) || given k rs

unfoldable pub fields_fit : Fields → List Row → Bool
unfolding values_fit given
fields_fit no_fields rs = true
fields_fit (field name required s fs) rs =
    (values_fit s name rs && (not required || given name rs)) && fields_fit fs rs

unfoldable pub keys_fit : Fields → List Row → Bool
unfolding declared
keys_fit fs [] = true
keys_fit fs (r ∷ rs) = declared r.key fs && keys_fit fs rs

push_back-known_keys :
    (fs : Fields) (ms : Members) (k : Bytes) (v : Json)
    → known_keys fs ms ≡ true
    → declared k fs ≡ true
    → known_keys fs (push_back ms k v) ≡ true
unfolding known_keys push_back
push_back-known_keys fs end k v h d = rw d refl
push_back-known_keys fs (member j w ms) k v h d =
    let (a, b) = &&-eq-true (declared j fs) (known_keys fs ms) h in
    rw a (push_back-known_keys fs ms k v b d)

emplace_if-known_keys :
    (fs : Fields) (ms : Members) (r : Row)
    → known_keys fs ms ≡ true
    → declared r.key fs ≡ true
    → known_keys fs (emplace_if ms r) ≡ true
unfolding emplace_if emplace
emplace_if-known_keys fs ms r h d = elim (Bool-cases r.when) [
  | inl e ↦ elim (Option-cases (find_key r.key ms)) [
    | inl n ↦ rw (e, n, emplace) (push_back-known_keys fs ms r.key r.value h d)
    | inr (w, s) ↦ rw (e, s, emplace) h
  ]
  | inr e ↦ rw e h
]

build-known_keys :
    (fs : Fields) (rs : List Row) (ms : Members)
    → known_keys fs ms ≡ true
    → keys_fit fs rs ≡ true
    → known_keys fs (build ms rs) ≡ true
unfolding build keys_fit
build-known_keys fs [] ms h k = h
build-known_keys fs (r ∷ rs) ms h k =
    let (a, b) = &&-eq-true (declared r.key fs) (keys_fit fs rs) k in
    build-known_keys fs rs (emplace_if ms r) (emplace_if-known_keys fs ms r h a) b

listed-values_fit :
    (s : Shape) (k : Bytes) (rs : List Row) (required : Bool)
    → values_fit s k rs ≡ true
    → (not required || given k rs) ≡ true
    → field_ok required (validate s) (listed k rs) ≡ true
unfolding values_fit given listed
listed-values_fit s k [] required h g = ground arith
listed-values_fit s k (r ∷ rs) required h g =
    let (a, b) = &&-eq-true (not (bytes_eq r.key k) || validate s r.value) (values_fit s k rs) h in
    elim (Bool-cases (bytes_eq r.key k)) [
      | inl y ↦ elim (Bool-cases r.when) [
        | inl w ↦ rw (y, w) (rw y at a)
        | inr n ↦ rw (y, n) (listed-values_fit s k rs required b (rw (y, n) at g))
      ]
      | inr n ↦ rw n (listed-values_fit s k rs required b (rw n at g))
    ]

validate_fields-build :
    (fs : Fields) (rs : List Row)
    → fields_fit fs rs ≡ true
    → validate_fields fs (build end rs) ≡ true
unfolding validate_fields fields_fit
validate_fields-build no_fields rs h = refl
validate_fields-build (field name required s fs) rs h =
    let (here, rest) =
      &&-eq-true (values_fit s name rs && (not required || given name rs)) (fields_fit fs rs) h in
    let (a, b) = &&-eq-true (values_fit s name rs) (not required || given name rs) here in
    rw (find_key-build rs name)
      (rw (listed-values_fit s name rs required a b) (validate_fields-build fs rs rest))

-- An object built from rows has a shape if the rows do.
pub validate-build :
    (fs : Fields) (rs : List Row)
    → keys_fit fs rs ≡ true
    → fields_fit fs rs ≡ true
    → validate (record_of fs) (object (build end rs)) ≡ true
unfolding validate known_keys
validate-build fs rs k h = rw (build-known_keys fs rs end refl k) (validate_fields-build fs rs h)
