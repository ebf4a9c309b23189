-- ===== src/HttpUtil/Query.antt =====
-- query_arg_one on a query string.
use mathlib.Core.Option
use native.Mathlib.Nat.{zero-add, suc-add, add-zero, add-suc, add_assoc}
use kedge.Base.{
  ℕ, ◌+◌, ◌≡◌, refl, ap, ◌≢◌, ◌∙◌, true, none, some, [], ◌∷◌, ◌++◌, arith, leb, length, take, drop,
  All, length-append, drop-length-append, append_assoc,
}
use kedge.Bytes.{Bytes, codes, find, find_from, substr, substr_from}
use kedge.Bytes.Laws.{find_byte, find_byte_none}
use kedge.HttpUtil.{query_arg_one}

-- A text without "&".
abbrev pub NoAmp : Bytes → Type 0
NoAmp = All (λ c. c ≢ b'&')

find_from_prefix :
    (p before s : Bytes)
    → find_from p (length before) (before ++ s) ≡ Option.map (λ k. length before + k) (find p s)
unfolding find_from
find_from_prefix p before s =
    let fits : leb (length before) (length (before ++ s)) ≡ true =
      ground (arith, length-append {0} before s) in
    rw (fits, drop-length-append before s) refl

drop-add : (a b s : Bytes) → drop (length a + length b) (a ++ (b ++ s)) ≡ s
drop-add [] b s = rw zero-add (drop-length-append b s)
drop-add (x ∷ a) b s = rw suc-add (drop-add a b s)

take-add : (n : ℕ) (v w : Bytes) → take (n + length v) (v ++ w) ≡ v ++ take n w
take-add n [] w = rw add-zero refl
take-add n (x ∷ v) w = rw add-suc (ap (λ r. x ∷ r) (take-add n v w))

fits : (a b s : Bytes) → leb (length a + length b) (length (a ++ (b ++ s))) ≡ true
fits a b s = ground (arith, length-append {0} a (b ++ s), length-append {0} b s)

substr_from_parts : (a b s : Bytes) → substr_from (length a + length b) (a ++ (b ++ s)) ≡ some s
unfolding substr_from
substr_from_parts a b s = rw (fits a b s) (ap some (drop-add a b s))

substr_parts :
    (n : ℕ) (a b s : Bytes) → substr (length a + length b) n (a ++ (b ++ s)) ≡ some (take n s)
unfolding substr
substr_parts n a b s = rw (fits a b s) (ap (λ r. some (take n r)) (drop-add a b s))

amp_index :
    (before key v rest : Bytes)
    → NoAmp (key ++ v)
    → find_from (codes "&") (length before) (before ++ (key ++ (v ++ b'&' ∷ rest)))
      ≡ some (length before + (length key + length v))
amp_index before key v rest clean =
    find_from_prefix (codes "&") before (key ++ (v ++ b'&' ∷ rest))
    ∙ rw
        (
          ← append_assoc key v (b'&' ∷ rest),
          find_byte b'&' (key ++ v) rest clean,
          length-append {0} key v,
        )
        refl

module _ (before key v : Bytes) (clean : NoAmp (key ++ v)) where
  -- If the key is first found where the last argument of the query stands, and neither it nor the
  -- value has an "&", query_arg_one returns the value.
  pub query_arg_one_last :
      find key (before ++ (key ++ v)) ≡ some (length before)
      → query_arg_one (before ++ (key ++ v)) key ≡ some v
  unfolding query_arg_one
  query_arg_one_last h =
      let no_amp : find_from (codes "&") (length before) (before ++ (key ++ v)) ≡ none =
        find_from_prefix (codes "&") before (key ++ v)
        ∙ rw (find_byte_none b'&' (key ++ v) clean) refl in
      rw (h, no_amp, query_arg_one) (substr_from_parts before key v)

  -- If the key is first found where an argument stands that another one follows, and neither it nor
  -- the value has an "&", query_arg_one returns the value with as many of the bytes behind it, from
  -- "&" on, as stand before it.
  pub query_arg_one_more :
      (rest : Bytes)
      → find key (before ++ (key ++ (v ++ b'&' ∷ rest))) ≡ some (length before)
      → query_arg_one (before ++ (key ++ (v ++ b'&' ∷ rest))) key
        ≡ some (v ++ take (length before + length key) (b'&' ∷ rest))
  unfolding query_arg_one
  query_arg_one_more rest h =
      rw (h, amp_index before key v rest clean, query_arg_one)
        (substr_parts _ before key (v ++ b'&' ∷ rest)
          ∙ ap some (rw (← add_assoc (length before) (length key) (length v)) (take-add _ v _)))
