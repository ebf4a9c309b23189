-- ===== src/Number.antt =====
-- Numbers in text: std::to_string, atoi, strtol in base 16, and the conversions to 16 bits.
pub mod Decimal
use kedge.Base.{
  ℕ, zero, suc, ◌+◌, ◌-◌, ◌*◌, ◌/◌, ◌%◌, Bool, true, false, ◌&&◌, ◌||◌, List, [], ◌∷◌, ◌++◌, leb,
  ltb, ◌==◌, if◌then◌else◌,
}
use kedge.Base.Int.{ℤ, pos, negsuc, neg_part, sub_ℕ}
use kedge.Bytes.{Bytes}

unfoldable pub is_digit : ℕ → Bool
is_digit c = leb 48 c && leb c 57

-- isspace in the C locale.
unfoldable pub is_space : ℕ → Bool
is_space c = c == 32 || (leb 9 c && leb c 13)

unfoldable pub skip_spaces : Bytes → Bytes
unfolding is_space
skip_spaces [] = []
skip_spaces (c ∷ s) = if is_space c then skip_spaces s else c ∷ s

-- The digits that a text begins with, after those already read.
unfoldable pub digits_value : ℕ → Bytes → ℕ
unfolding is_digit
digits_value acc [] = acc
digits_value acc (c ∷ s) =
    let rest = digits_value (acc * 10 + (c - 48)) s in if is_digit c then rest else acc

unfoldable pub signed_value : (Bytes → ℕ) → Bytes → ℤ
signed_value read [] = pos (read [])
signed_value read (c ∷ s) =
    if c == 45 then sub_ℕ 0 (read s) else if c == 43 then pos (read s) else pos (read (c ∷ s))

-- `int(n)`: the low 32 bits as a signed number.
abbrev pub low_bits : ℤ → ℕ
low_bits (pos k) = k % 4294967296
low_bits (negsuc k) = 4294967295 - k % 4294967296

unfoldable pub to_int : ℤ → ℤ
to_int n =
    if ltb (low_bits n) 2147483648 then pos (low_bits n) else negsuc (4294967295 - low_bits n)

-- A number outside the 64 bits of long is the nearest bound.
abbrev pub to_long : ℤ → ℤ
to_long (pos n) = if ltb n 9223372036854775808 then pos n else pos 9223372036854775807
to_long (negsuc n) = if ltb n 9223372036854775808 then negsuc n else negsuc 9223372036854775807

-- atoi: strtol in base 10, cut to int. A value outside int is undefined in C, and what glibc makes of it
-- here.
unfoldable pub atoi : Bytes → ℤ
unfolding signed_value skip_spaces digits_value to_int
atoi s = to_int (to_long (signed_value (digits_value 0) (skip_spaces s)))

unfoldable pub hex_value : ℕ → ℕ
hex_value c =
    if leb 48 c && leb c 57
    then c - 48
    else if leb 97 c && leb c 102
    then c - 87
    else if leb 65 c && leb c 70
    then c - 55
    else 16

unfoldable pub hex_digits_value : ℕ → Bytes → ℕ
unfolding hex_value
hex_digits_value acc [] = acc
hex_digits_value acc (c ∷ s) =
    let rest = hex_digits_value (acc * 16 + hex_value c) s in
    if ltb (hex_value c) 16 then rest else acc

-- `0x` is skipped only where a digit follows it.
unfoldable pub hex_prefixed_value : Bytes → ℕ
unfolding hex_digits_value
hex_prefixed_value (a ∷ x ∷ d ∷ s) =
    if a == 48 && ((x == 120 || x == 88) && ltb (hex_value d) 16)
    then hex_digits_value 0 (d ∷ s)
    else hex_digits_value 0 (a ∷ x ∷ d ∷ s)
hex_prefixed_value s = hex_digits_value 0 s

-- strtol(s, nullptr, 16).
unfoldable pub strtol16 : Bytes → ℤ
unfolding signed_value skip_spaces hex_prefixed_value
strtol16 s = signed_value hex_prefixed_value (skip_spaces s)

-- `n` modulo `2 ^ 8` and `2 ^ 16`: static_cast<char> as a byte, and std::uint16_t.
unfoldable pub to_u8 : ℤ → ℕ
to_u8 (pos n) = n % 256
to_u8 (negsuc n) = 255 - n % 256

unfoldable pub to_u16 : ℤ → ℕ
to_u16 (pos n) = n % 65536
to_u16 (negsuc n) = 65535 - n % 65536

-- std::int16_t of a value below `2 ^ 16`.
unfoldable pub to_i16 : ℕ → ℤ
to_i16 n = if ltb n 32768 then pos n else negsuc (65535 - n)

-- The decimal digits of `n`, with fuel for more digits than it has.
pub digits_of : ℕ → ℕ → Bytes
digits_of zero n = []
digits_of (suc f) n = elim (ltb n 10) [
  | true ↦ (48 + n) ∷ []
  | false ↦ digits_of f (n / 10) ++ (48 + n % 10) ∷ []
]

-- std::to_string.
unfoldable pub to_string : ℕ → Bytes
unfolding digits_of
to_string n = digits_of (suc n) n
