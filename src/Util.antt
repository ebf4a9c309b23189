-- ===== src/Util.antt =====
-- util.cpp: names of resume files, hashes in hex, paths and ports; `parse_endpoint` of sheath.cpp.
pub mod ResumeName
pub mod Port
pub mod Hex
use kedge.Base.{
  ℕ, suc, ◌≡◌, Bool, true, false, ◌&&◌, ◌||◌, Option, none, some, List, [], ◌∷◌, ◌++◌, ◌==◌, leb,
  ltb, if◌then◌else◌, length, take, drop, all,
}
use kedge.Base.Int.{ℤ, pos, negsuc, is_pos}
use kedge.Bytes.{Bytes, codes, bytes_eq, rfind, c_str}
use kedge.Number.{atoi, to_u16, to_i16}

abbrev pub resume_ext : Bytes
resume_ext = codes ".resume"

-- `hex_digit.find(c) != npos` over the sixteen lower case digits.
unfoldable pub is_hex_digit : ℕ → Bool
is_hex_digit c = (leb 48 c && leb c 57) || (leb 97 c && leb c 102)

-- The `substr` calls cannot throw behind the first test.
unfoldable pub is_resume_file : Bytes → Bool
is_resume_file s =
    if length s == 47
    then (if bytes_eq (drop 40 s) resume_ext then all is_hex_digit (take 40 s) else false)
    else false

-- libtorrent's sha1_hash with its stream operators `<<` and `>>`.
pub record HashText : Type 1 where
  pub Hash : Type 0
  pub write : Hash → Bytes
  pub read : Bytes → Option Hash

-- What the source relies on: forty lower case hex digits are written, and are read back.
pub record IsHexText (t : HashText) : Type 1 where
  pub write_length : (h : t.Hash) → length (t.write h) ≡ 40
  pub write_digits : (h : t.Hash) → all is_hex_digit (t.write h) ≡ true
  pub read-write : (h : t.Hash) → t.read (t.write h) ≡ some h

module _ (t : HashText) where
  open t use {Hash, write, read}

  -- The result and the hash written through the reference.
  unfoldable pub from_hex : Bytes → Option Hash
  from_hex s = if length s == 40 then read (c_str s) else none

  unfoldable pub to_hex : Hash → Bytes
  to_hex h = write h

  -- The last component of `resume_file`.
  unfoldable pub resume_name : Hash → Bytes
  unfolding to_hex
  resume_name h = to_hex h ++ resume_ext

-- `operator/` of std::filesystem::path for a relative right side.
unfoldable pub path_join : Bytes → Bytes → Bytes
path_join [] p = p
path_join (c ∷ d) p = elim (rfind 47 (c ∷ d)) [
  | some i ↦ if suc i == length (c ∷ d) then (c ∷ d) ++ p else (c ∷ d) ++ codes "/" ++ p
  | none ↦ (c ∷ d) ++ codes "/" ++ p
]

unfoldable pub path_cat : Bytes → Bytes → Bytes
path_cat base path = base ++ path

-- The text cut at its last colon, as strrchr finds it: `*port++ = 0` ends the host there.
unfoldable pub split_port : Bytes → Option (Bytes × Bytes)
unfolding rfind c_str
split_port addr = elim (rfind 58 (c_str addr)) [
  | none ↦ none
  | some i ↦ some (take i (c_str addr), drop (suc i) (c_str addr))
]

unfoldable pub parse_port : Bytes → ℤ
unfolding split_port
parse_port [] = pos 0
parse_port (c ∷ addr) = elim (split_port (c ∷ addr)) [
  | none ↦ pos 0
  | some (_, port) ↦ to_i16 (to_u16 (atoi port))
]

-- An endpoint: an address and a port of 16 bits.
pub record Endpoint (A : Type 0) : Type 0 where
  pub address : A
  pub port : ℕ

-- `make_address` of Boost.Asio is a parameter.
module _ {A : Type 0} (make_address : Bytes → Option A) where
  unfoldable pub endpoint_of : Bytes → Bytes → Option (Endpoint A)
  endpoint_of ip port = elim (make_address ip) [
    | none ↦ none
    | some host ↦
        if is_pos (atoi port)
        then some (record { address = host; port = to_u16 (atoi port) })
        else none
  ]

  unfoldable pub parse_endpoint : Bytes → Option (Endpoint A)
  unfolding split_port endpoint_of
  parse_endpoint [] = none
  parse_endpoint (c ∷ addr) = elim (split_port (c ∷ addr)) [
    | none ↦ none
    | some (ip, port) ↦ endpoint_of ip port
  ]
