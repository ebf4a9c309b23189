-- ===== src/Number/Decimal.antt =====
-- Reading back what std::to_string writes.
use kedge.Base.{
  ℕ, zero, suc, ◌+◌, ◌-◌, ◌*◌, ◌/◌, ◌%◌, ◌≤◌, ◌<◌, ◌≡◌, refl, true, false, inl, inr, [], ◌∷◌, ◌++◌,
  arith, ltb, All, All-append, Bool-cases,
}
use kedge.Base.Int.{pos}
use kedge.Bytes.{Bytes}
use kedge.Number.{
  to_int, to_long, signed_value, skip_spaces, is_space, digits_value, atoi, digits_of, to_string,
}

abbrev pub IsDigit : ℕ → Type 0
IsDigit c = (48 ≤ c) × (c ≤ 57)

digits_of_small : (f n : ℕ) → ltb n 10 ≡ true → digits_of (suc f) n ≡ (48 + n) ∷ []
unfolding digits_of
digits_of_small f n h = rw (h, digits_of)

digits_of_large :
    (f n : ℕ) → ltb n 10 ≡ false → digits_of (suc f) n ≡ digits_of f (n / 10) ++ (48 + n % 10) ∷ []
unfolding digits_of
digits_of_large f n h = rw (h, digits_of)

digits_of-IsDigit : (f n : ℕ) → All IsDigit (digits_of f n)
unfolding digits_of
digits_of-IsDigit zero n = tt
digits_of-IsDigit (suc f) n = elim (Bool-cases (ltb n 10)) [
  | inl h ↦ rw (digits_of_small f n h) (ground arith)
  | inr h ↦
      rw (digits_of_large f n h)
        (All-append IsDigit (digits_of f (n / 10)) _ (digits_of-IsDigit f (n / 10)) (ground arith))
]

-- Only digits are written.
pub to_string-IsDigit : (n : ℕ) → All IsDigit (to_string n)
unfolding to_string
to_string-IsDigit n = digits_of-IsDigit (suc n) n

digits_value-append :
    (acc d : ℕ) (s : Bytes)
    → All IsDigit s
    → IsDigit d
    → digits_value acc (s ++ d ∷ []) ≡ digits_value acc s * 10 + (d - 48)
unfolding digits_value
digits_value-append acc d [] h k = ground arith
digits_value-append acc d (c ∷ s) (hc, h) k =
    ground (arith, digits_value-append (acc * 10 + (c - 48)) d s h k)

digits_value-digits_of : (f n : ℕ) → n < f → digits_value 0 (digits_of f n) ≡ n
digits_value-digits_of zero n h = absurd (omega arith)
digits_value-digits_of (suc f) n h = elim (Bool-cases (ltb n 10)) [
  | inl e ↦ rw (digits_of_small f n e) (unfold digits_value in ground arith)
  | inr e ↦ rw (digits_of_large f n e) (
      ground (
        arith,
        digits_value-append 0 (48 + n % 10) (digits_of f (n / 10)) (digits_of-IsDigit f (n / 10)),
        digits_value-digits_of f (n / 10),
      ))
]

pub digits_value-to_string : (n : ℕ) → digits_value 0 (to_string n) ≡ n
unfolding to_string
digits_value-to_string n = digits_value-digits_of (suc n) n (omega arith)

signed_value_of_digits :
    (s : Bytes)
    → All IsDigit s
    → signed_value (digits_value 0) (skip_spaces s) ≡ pos (digits_value 0 s)
unfolding signed_value skip_spaces is_space
signed_value_of_digits [] h = refl
signed_value_of_digits (c ∷ s) (hc, h) = ground arith

to_int_small : (n : ℕ) → n < 2147483648 → to_int (to_long (pos n)) ≡ pos n
unfolding to_int
to_int_small n h = ground arith

-- The decimal digits of a number that fits int are read back.
pub atoi-to_string : (n : ℕ) → n < 2147483648 → atoi (to_string n) ≡ pos n
unfolding atoi
atoi-to_string n h =
    rw (signed_value_of_digits (to_string n) (to_string-IsDigit n), digits_value-to_string n)
      (to_int_small n h)
