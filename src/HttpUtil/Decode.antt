-- ===== src/HttpUtil/Decode.antt =====
-- url_decode against an encoder.
use kedge.Base.{
  if-eq-true, ℕ, zero, suc, ◌+◌, ◌/◌, ◌%◌, ◌≤◌, ◌<◌, ◌≡◌, refl, ap, ◌≢◌, ◌∙◌, Bool, true, false,
  inl, inr, [], ◌∷◌, arith, ltb, ◌==◌, ==_iff, if◌then◌else◌, length, All, Bool-cases,
}
use kedge.Bytes.{Bytes, c_str}
use kedge.Number.{strtol16, to_u8}
use kedge.HttpUtil.{plain, escape_value, url_decode}

-- The upper case digit of a number below 16.
abbrev pub hex_digit : ℕ → ℕ
hex_digit n = if ltb n 10 then 48 + n else 55 + n

-- Percent encoding that leaves alone the bytes which `safe` accepts.
pub url_encode : (ℕ → Bool) → Bytes → Bytes
url_encode safe [] = []
url_encode safe (c ∷ s) =
    let rest = url_encode safe s in
    if safe c then c ∷ rest else b'%' ∷ hex_digit (c / 16) ∷ hex_digit (c % 16) ∷ rest

-- The escape of a byte read back.
escape_of : ℕ → ℕ
escape_of c = escape_value (hex_digit (c / 16)) (hex_digit (c % 16))

-- Every byte under a limit is the value of its escape.
escapes_agree : ℕ → Bool
unfolding escape_of
escapes_agree zero = true
escapes_agree (suc c) = if escape_of c == c then escapes_agree c else false

escape_table : escapes_agree 256 ≡ true
unfolding escapes_agree escape_of escape_value c_str strtol16 to_u8
escape_table = refl

escape_of_agree : (limit c : ℕ) → escapes_agree limit ≡ true → c < limit → escape_of c ≡ c
unfolding escapes_agree
escape_of_agree zero c agree low = absurd (omega arith)
escape_of_agree (suc d) c agree low =
    let (here, below) = if-eq-true (escape_of d == d) (escapes_agree d) agree in
    elim (Bool-cases (c == d)) [
      | inl e ↦ rw ((==_iff c d).0 e) ((==_iff (escape_of d) d).0 here)
      | inr e ↦ escape_of_agree d c below (ground arith)
    ]

escape_value-hex_digit :
    (c : ℕ) → c < 256 → escape_value (hex_digit (c / 16)) (hex_digit (c % 16)) ≡ c
unfolding escape_of
escape_value-hex_digit c h = escape_of_agree 256 c escape_table h

url_decode_literal : (c : ℕ) (s : Bytes) → c ≢ b'%' → url_decode (c ∷ s) ≡ plain c ∷ url_decode s
unfolding url_decode
url_decode_literal c [] h = refl
url_decode_literal c (a ∷ []) h = refl
url_decode_literal c (a ∷ b ∷ s) h = ground arith

url_decode_escape :
    (a b : ℕ) (s : Bytes) → url_decode (b'%' ∷ a ∷ b ∷ s) ≡ escape_value a b ∷ url_decode s
unfolding url_decode
url_decode_escape a b s = refl

plain_safe : (c : ℕ) → c ≢ b'+' → plain c ≡ c
unfolding plain
plain_safe c h = ground arith

-- Whatever set of bytes a percent encoder leaves alone, "%" and "+" not among them, url_decode
-- gives the encoded bytes, all below 256, back.
pub url_decode-url_encode :
    (safe : ℕ → Bool)
    → safe b'%' ≡ false
    → safe b'+' ≡ false
    → (s : Bytes) → All (λ c. c < 256) s
    → url_decode (url_encode safe s) ≡ s
unfolding url_encode
url_decode-url_encode safe percent plus [] h = unfold url_decode in refl
url_decode-url_encode safe percent plus (c ∷ s) (hc, h) =
    let ih = url_decode-url_encode safe percent plus s h in
    elim (Bool-cases (safe c)) [
      | inl e ↦ rw e (
          url_decode_literal c (url_encode safe s) (λ q. cc (ap safe q))
          ∙ cc (plain_safe c (λ q. cc (ap safe q)), ih))
      | inr e ↦
          rw e (url_decode_escape _ _ (url_encode safe s) ∙ cc (escape_value-hex_digit c hc, ih))
    ]

-- Decoding never lengthens a text.
pub length-url_decode : (s : Bytes) → length (url_decode s) ≤ length s
unfolding url_decode
length-url_decode [] = omega arith
length-url_decode (c ∷ []) = omega arith
length-url_decode (c ∷ a ∷ []) = omega (arith, length-url_decode (a ∷ []))
length-url_decode (c ∷ a ∷ b ∷ s) =
    ground (arith, length-url_decode s, length-url_decode (a ∷ b ∷ s))
