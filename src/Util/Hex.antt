-- ===== src/Util/Hex.antt =====
-- n2hex of util.hpp: the ids of the clients of the feed, and a number read back from its text.
use mathlib.Core.Path.{subst}
use kedge.Base.{
  ℕ, zero, suc, ◌+◌, ◌-◌, ◌*◌, ◌/◌, ◌%◌, ◌≤◌, ◌<◌, ◌≡◌, refl, sym, ap, ◌∙◌, inl, inr, true, false,
  [], ◌∷◌, ◌++◌, arith, ltb, length, length-append, All, All-append, if◌then◌else◌, Bool-cases,
  ltb→lt,
}
use kedge.Bytes.{Bytes}
use kedge.Number.{hex_value, hex_digits_value}
use kedge.Util.{is_hex_digit}

unfoldable pub hex_digit : ℕ → ℕ
hex_digit d = if ltb d 10 then 48 + d else 87 + d

-- std::hex, with fuel for more digits than the number has.
unfoldable pub hex_of : ℕ → ℕ → Bytes
unfolding hex_digit
hex_of zero n = []
hex_of (suc f) n = elim (ltb n 16) [
  | true ↦ hex_digit n ∷ []
  | false ↦ hex_of f (n / 16) ++ hex_digit (n % 16) ∷ []
]

unfoldable pub fill : ℕ → Bytes → Bytes
fill zero s = s
fill (suc n) s = 48 ∷ fill n s

-- For a number of 32 bits: eight places, filled with zeros.
unfoldable pub n2hex : ℕ → Bytes
unfolding hex_of fill
n2hex i = let digits = hex_of (suc i) i in fill (8 - length digits) digits

length-fill : (n : ℕ) (s : Bytes) → length (fill n s) ≡ n + length s
unfolding fill
length-fill zero s = omega arith
length-fill (suc n) s = omega (arith, length-fill n s)

hex_value-fill : (n : ℕ) (s : Bytes) → hex_digits_value 0 (fill n s) ≡ hex_digits_value 0 s
unfolding hex_digits_value fill hex_value
hex_value-fill zero s = refl
hex_value-fill (suc n) s = hex_value-fill n s

-- A digit stands for its value.
abbrev pub IsHex : ℕ → Type 0
IsHex c = is_hex_digit c ≡ true

hex_digit-IsHex : (d : ℕ) → d < 16 → IsHex (hex_digit d)
unfolding hex_digit is_hex_digit
hex_digit-IsHex d h = ground arith

hex_value-hex_digit : (d : ℕ) → d < 16 → hex_value (hex_digit d) ≡ d
unfolding hex_digit hex_value
hex_value-hex_digit d h = ground arith

hex_value-lt : (c : ℕ) → IsHex c → hex_value c < 16
unfolding hex_value is_hex_digit
hex_value-lt c h = ground arith

fill-IsHex : (n : ℕ) (s : Bytes) → All IsHex s → All IsHex (fill n s)
unfolding fill is_hex_digit
fill-IsHex zero s h = h
fill-IsHex (suc n) s h = (refl, fill-IsHex n s h)

hex_of_small : (f n : ℕ) → ltb n 16 ≡ true → hex_of (suc f) n ≡ hex_digit n ∷ []
unfolding hex_of
hex_of_small f n h = rw (h, hex_of) refl

hex_of_large :
    (f n : ℕ) → ltb n 16 ≡ false → hex_of (suc f) n ≡ hex_of f (n / 16) ++ hex_digit (n % 16) ∷ []
unfolding hex_of
hex_of_large f n h = rw (h, hex_of) refl

hex_of-IsHex : (f n : ℕ) → All IsHex (hex_of f n)
hex_of-IsHex zero n = unfold hex_of in tt
hex_of-IsHex (suc f) n = elim (Bool-cases (ltb n 16)) [
  | inl h ↦ subst (All IsHex) (sym (hex_of_small f n h)) (hex_digit-IsHex n (ltb→lt n 16 h), tt)
  | inr h ↦ subst (All IsHex) (sym (hex_of_large f n h)) (
      All-append IsHex (hex_of f (n / 16)) _ (hex_of-IsHex f (n / 16))
        (hex_digit-IsHex (n % 16) (omega arith), tt))
]

hex_digits_value-append :
    (acc d : ℕ) (s : Bytes)
    → All IsHex s
    → d < 16
    → hex_digits_value acc (s ++ hex_digit d ∷ []) ≡ hex_digits_value acc s * 16 + d
unfolding hex_digits_value
hex_digits_value-append acc d [] h k = ground (arith, hex_value-hex_digit d k)
hex_digits_value-append acc d (c ∷ s) (hc, h) k =
    ground (arith, hex_value-lt c hc, hex_digits_value-append (acc * 16 + hex_value c) d s h k)

no_digits : (n : ℕ) → hex_digits_value 0 [] * 16 + n ≡ n
unfolding hex_digits_value
no_digits n = omega arith

hex_value_of : (f n : ℕ) → n < f → hex_digits_value 0 (hex_of f n) ≡ n
hex_value_of zero n h = absurd (omega arith)
hex_value_of (suc f) n h = elim (Bool-cases (ltb n 16)) [
  | inl e ↦
      let small : n < 16 = ltb→lt n 16 e in
      ap (hex_digits_value 0) (hex_of_small f n e)
      ∙ hex_digits_value-append 0 n [] tt small
      ∙ no_digits n
  | inr e ↦
      let large : 16 ≤ n = ground (arith, e) in
      let rest = hex_value_of f (n / 16) (omega (arith, h, large)) in
      let last : n % 16 < 16 = omega arith in
      ap (hex_digits_value 0) (hex_of_large f n e)
      ∙ hex_digits_value-append 0 (n % 16) (hex_of f (n / 16)) (hex_of-IsHex f (n / 16)) last
      ∙ omega (arith, rest)
]

-- The numbers with one digit, and with each digit more.
abbrev below : ℕ → ℕ
below zero = 16
below (suc k) = 16 * below k

-- A number with so many digits at most.
length-hex_of : (k f n : ℕ) → n < below k → length (hex_of f n) ≤ suc k
length-hex_of k zero n h = unfold hex_of in omega arith
length-hex_of zero (suc f) n h = elim (Bool-cases (ltb n 16)) [
  | inl e ↦ subst (λ s. length s ≤ 1) (sym (hex_of_small f n e)) (omega arith)
  | inr e ↦ let large : 16 ≤ n = ground (arith, e) in absurd (omega (arith, large, h))
]
length-hex_of (suc k) (suc f) n h = elim (Bool-cases (ltb n 16)) [
  | inl e ↦ subst (λ s. length s ≤ suc (suc k)) (sym (hex_of_small f n e)) (omega arith)
  | inr e ↦
      subst (λ s. length s ≤ suc (suc k)) (sym (hex_of_large f n e))
        (omega (
          arith,
          length-append {0} (hex_of f (n / 16)) (hex_digit (n % 16) ∷ []),
          length-hex_of k f (n / 16) (omega (arith, h)),
        ))
]

-- For a number below 2 ^ 32 the text of n2hex has eight bytes, all of them lower case hex digits,
-- and read in base 16 it is the number.
pub n2hex-IsHex :
    (i : ℕ)
    → i < 4294967296
    → (length (n2hex i) ≡ 8) × All IsHex (n2hex i) × (hex_digits_value 0 (n2hex i) ≡ i)
unfolding n2hex
n2hex-IsHex i h =
    let digits = hex_of (suc i) i in
    let short = length-hex_of 7 (suc i) i (omega (arith, h)) in
    (
      omega (arith, length-fill (8 - length digits) digits, short),
      fill-IsHex (8 - length digits) digits (hex_of-IsHex (suc i) i),
      hex_value-fill (8 - length digits) digits ∙ hex_value_of (suc i) i (omega arith),
    )
