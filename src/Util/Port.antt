-- ===== src/Util/Port.antt =====
-- parse_port and parse_endpoint on an address that ends in a decimal port.
use kedge.Base.{
  ℕ, zero, suc, ◌-◌, ◌%◌, ◌<◌, ◌≡◌, refl, ap, ◌∙◌, Option, none, some, [], ◌∷◌, ◌++◌, arith, ltb,
  if◌then◌else◌, length, take, drop, All, All-append, take-length-append,
}
use kedge.Base.Int.{pos, negsuc}
use kedge.Bytes.{Bytes, rfind, c_str}
use kedge.Bytes.Laws.{drop-suc-length}
use kedge.Number.{atoi, to_u16, to_i16, to_string}
use kedge.Number.Decimal.{IsDigit, to_string-IsDigit, atoi-to_string}
use kedge.Util.{parse_port, split_port, endpoint_of, parse_endpoint}

-- A host without a zero byte.
abbrev pub NoZero : Bytes → Type 0
NoZero = All (λ c. 0 < c)

c_str_of_NoZero : (s : Bytes) → NoZero s → c_str s ≡ s
unfolding c_str
c_str_of_NoZero [] h = refl
c_str_of_NoZero (zero ∷ s) h = absurd (omega arith)
c_str_of_NoZero (suc c ∷ s) (_, h) = ap (λ r. suc c ∷ r) (c_str_of_NoZero s h)

NoZero-digits : (s : Bytes) → All IsDigit s → NoZero s
NoZero-digits [] h = tt
NoZero-digits (c ∷ s) (hc, h) = (omega arith, NoZero-digits s h)

rfind_of_digits : (s : Bytes) → All IsDigit s → rfind 58 s ≡ none
unfolding rfind
rfind_of_digits [] h = refl
rfind_of_digits (c ∷ s) (hc, h) = ground (arith, rfind_of_digits s h)

rfind-colon : (host s : Bytes) → All IsDigit s → rfind 58 (host ++ 58 ∷ s) ≡ some (length host)
unfolding rfind
rfind-colon [] s h = ground (arith, rfind_of_digits s h)
rfind-colon (c ∷ host) s h = ground (arith, rfind-colon host s h)

module _ (host : Bytes) (clean : NoZero host) (p : ℕ) where
  -- The text `host:p`.
  abbrev pub with_port : Bytes
  with_port = host ++ 58 ∷ to_string p

  c_str-with_port : c_str with_port ≡ with_port
  c_str-with_port = c_str_of_NoZero with_port (
      All-append (λ c. 0 < c) host _ clean
        (omega arith, NoZero-digits (to_string p) (to_string-IsDigit p)))

  colon : rfind 58 (c_str with_port) ≡ some (length host)
  colon = rw c_str-with_port (rfind-colon host (to_string p) (to_string-IsDigit p))

  behind_colon : drop (suc (length host)) (c_str with_port) ≡ to_string p
  behind_colon = rw c_str-with_port (drop-suc-length host 58 (to_string p))

  before_colon : take (length host) (c_str with_port) ≡ host
  before_colon = rw c_str-with_port (take-length-append host (58 ∷ to_string p))

  split_port-with_port : split_port with_port ≡ some (host, to_string p)
  unfolding split_port
  split_port-with_port = rw (colon, split_port) (cc (behind_colon, before_colon))

parse_port_of_split :
    (addr host port : Bytes)
    → split_port addr ≡ some (host, port)
    → parse_port addr ≡ to_i16 (to_u16 (atoi port))
unfolding parse_port
parse_port_of_split [] host port h = cc
parse_port_of_split (c ∷ addr) host port h = rw (h, parse_port) refl

-- On host:p with a host without a zero byte and p below 2 ^ 16 parse_port gives p if that fits 15
-- bits, and p - 2 ^ 16, a negative number, if it does not.
pub parse_port-with_port :
    (host : Bytes) (clean : NoZero host) (p : ℕ)
    → p < 65536
    → parse_port (with_port host clean p) ≡ (if ltb p 32768 then pos p else negsuc (65535 - p))
parse_port-with_port host clean p h =
    parse_port_of_split (with_port host clean p) host (to_string p)
      (split_port-with_port host clean p)
    ∙ rw (atoi-to_string p (omega (arith, h))) (unfold to_i16 to_u16 in ground arith)

module _ {A : Type 0} (make_address : Bytes → Option A) where
  parse_endpoint_of_split :
      (addr host port : Bytes)
      → split_port addr ≡ some (host, port)
      → parse_endpoint make_address addr ≡ endpoint_of make_address host port
  unfolding parse_endpoint
  parse_endpoint_of_split [] host port h = cc
  parse_endpoint_of_split (c ∷ addr) host port h = rw (h, parse_endpoint) refl

  endpoint_of-to_string :
      (host : Bytes) (a : A) (p : ℕ)
      → make_address host ≡ some a
      → 0 < p
      → p < 2147483648
      → endpoint_of make_address host (to_string p)
        ≡ some (record { address = a; port = p % 65536 })
  unfolding endpoint_of to_u16
  endpoint_of-to_string host a p e h small = ground (arith, atoi-to_string p small)

  -- On host:p with a host without a zero byte that is an address, and p above zero and below 2 ^
  -- 31, so that it is an int, parse_endpoint gives that address and p modulo 2 ^ 16.
  pub parse_endpoint-with_port :
      (host : Bytes) (clean : NoZero host) (p : ℕ) (a : A)
      → make_address host ≡ some a
      → 0 < p
      → p < 2147483648
      → parse_endpoint make_address (with_port host clean p)
        ≡ some (record { address = a; port = p % 65536 })
  parse_endpoint-with_port host clean p a e h small =
      parse_endpoint_of_split (with_port host clean p) host (to_string p)
        (split_port-with_port host clean p)
      ∙ endpoint_of-to_string host a p e h small
