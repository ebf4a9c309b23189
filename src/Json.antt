-- ===== src/Json.antt =====
-- JSON values: what the source uses of boost::json::value.
pub mod Rows
pub mod Shape
use kedge.Base.{
  ℕ, suc, ◌+◌, ◌%◌, Bool, true, false, not, ◌&&◌, ◌||◌, Option, none, some, List, [], ◌∷◌, ◌==◌,
  ltb, if◌then◌else◌,
}
use kedge.Base.Int.{ℤ, pos, negsuc}
use kedge.Bytes.{Bytes, bytes_eq}

-- A double is its bit pattern.
mutual
  pub data Json : Type 0 where
    null : Json
    bool_ : Bool → Json
    int64 : ℤ → Json
    uint64 : ℕ → Json
    double_ : ℕ → Json
    string : Bytes → Json
    array : Items → Json
    object : Members → Json

  pub data Items : Type 0 where
    nil : Items
    cons : Json → Items → Items

  pub data Members : Type 0 where
    end : Members
    member : Bytes → Json → Members → Members

-- `find` of an object.
unfoldable pub find_key : Bytes → Members → Option Json
find_key k end = none
find_key k (member j v ms) = if bytes_eq j k then some v else find_key k ms

abbrev pub size_items : Items → ℕ
size_items nil = 0
size_items (cons x xs) = suc (size_items xs)

abbrev pub size_members : Members → ℕ
size_members end = 0
size_members (member k v ms) = suc (size_members ms)

unfoldable pub bool_eq : Bool → Bool → Bool
bool_eq true b = b
bool_eq false b = not b

unfoldable pub int_eq : ℤ → ℤ → Bool
int_eq (pos a) (pos b) = a == b
int_eq (negsuc a) (negsuc b) = a == b
int_eq _ _ = false

-- `==` on doubles: no NaN equals anything, and the two zeros are equal.
unfoldable pub double_eq : ℕ → ℕ → Bool
double_eq a b =
    (a == b && not (ltb 0x7ff0000000000000 (a % 0x8000000000000000)))
    || (a % 0x8000000000000000 == 0 && b % 0x8000000000000000 == 0)

abbrev pub holds : (Json → Bool) → Option Json → Bool
holds p none = false
holds p (some v) = p v

-- `operator==` of values: integers by value across the two kinds, objects in any order.
unfoldable mutual
  unfolding find_key bool_eq int_eq double_eq

  pub json_eq : Json → Json → Bool
  json_eq null null = true
  json_eq (bool_ a) (bool_ b) = bool_eq a b
  json_eq (int64 a) (int64 b) = int_eq a b
  json_eq (int64 a) (uint64 b) = int_eq a (pos b)
  json_eq (uint64 a) (int64 b) = int_eq (pos a) b
  json_eq (uint64 a) (uint64 b) = a == b
  json_eq (double_ a) (double_ b) = double_eq a b
  json_eq (string a) (string b) = bytes_eq a b
  json_eq (array a) (array b) = items_eq a b
  json_eq (object a) (object b) = size_members a == size_members b && members_in a b
  json_eq _ _ = false

  pub items_eq : Items → Items → Bool
  items_eq nil nil = true
  items_eq (cons x xs) (cons y ys) = json_eq x y && items_eq xs ys
  items_eq _ _ = false

  -- Is every member of the first object in the second one, with an equal value?
  pub members_in : Members → Members → Bool
  members_in end b = true
  members_in (member k v ms) b = holds (json_eq v) (find_key k b) && members_in ms b

-- Fields of an object built by initialisers and `emplace`.
abbrev pub append_members : Members → Members → Members
append_members end ms = ms
append_members (member k v ns) ms = member k v (append_members ns ms)
