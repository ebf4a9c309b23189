-- ===== src/Json/Shape.antt =====
-- Shapes of JSON values, by which the types of the answers are described.
pub mod Build
use Prim.Native.String.{String}
use kedge.Base.{Bool, true, false, not, ◌&&◌, ◌||◌, Option, none, some, List, [], ◌∷◌}
use kedge.Bytes.{Bytes, codes, bytes_eq}
use kedge.Json.{
  Json, null, bool_, int64, uint64, double_, string, array, object, Items, nil, cons, Members, end,
  member, find_key,
}

mutual
  pub data Shape : Type 0 where
    integer real text flag : Shape
    list_of : Shape → Shape
    record_of : Fields → Shape

  pub data Fields : Type 0 where
    no_fields : Fields
    field : (name : Bytes) (required : Bool) → Shape → Fields → Fields

-- Fields of one shape, before others.
abbrev pub each_field : Bool → Shape → List String → Fields → Fields
each_field required s [] fs = fs
each_field required s (k ∷ ks) fs = field (codes k) required s (each_field required s ks fs)

abbrev pub all_items : (Json → Bool) → Items → Bool
all_items p nil = true
all_items p (cons x xs) = p x && all_items p xs

unfoldable pub declared : Bytes → Fields → Bool
unfolding bytes_eq
declared k no_fields = false
declared k (field name required s fs) = bytes_eq name k || declared k fs

-- Every key of the object is one of the fields.
unfoldable pub known_keys : Fields → Members → Bool
unfolding declared
known_keys fs end = true
known_keys fs (member k v ms) = declared k fs && known_keys fs ms

abbrev pub field_ok : Bool → (Json → Bool) → Option Json → Bool
field_ok required p none = not required
field_ok required p (some v) = p v

unfoldable mutual
  unfolding find_key known_keys

  pub validate : Shape → Json → Bool
  validate integer (int64 i) = true
  validate integer (uint64 n) = true
  validate real (double_ b) = true
  validate text (string s) = true
  validate flag (bool_ b) = true
  validate (list_of s) (array xs) = all_items (validate s) xs
  validate (record_of fs) (object ms) = known_keys fs ms && validate_fields fs ms
  validate _ _ = false

  pub validate_fields : Fields → Members → Bool
  validate_fields no_fields ms = true
  validate_fields (field name required s fs) ms =
      field_ok required (validate s) (find_key name ms) && validate_fields fs ms
