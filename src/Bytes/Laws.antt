-- ===== src/Bytes/Laws.antt =====
-- Positions of a pattern in a text, and calls of `substr` that do not throw.
use mathlib.Core.Option
use kedge.Base.{
  ℕ, suc, ◌+◌, ◌≤◌, ◌≡◌, refl, ◌≢◌, All, true, inl, inr, none, some, [], ◌∷◌, ◌++◌, arith, length,
  take, drop, Bool-cases,
}
use kedge.Bytes.{Bytes, starts_with, find, substr, substr_from}

starts_with-length : (p s : Bytes) → starts_with p s ≡ true → length p ≤ length s
unfolding starts_with
starts_with-length [] s h = omega arith
starts_with-length (p ∷ ps) [] h = cc
starts_with-length (p ∷ ps) (c ∷ s) h = ground (arith, starts_with-length ps s)

-- A pattern that is found fits into the text.
pub find_bound : (p s : Bytes) (i : ℕ) → find p s ≡ some i → i + length p ≤ length s
unfolding find
find_bound [] [] i h = ground arith
find_bound (p ∷ ps) [] i h = ground arith
find_bound p (c ∷ s) i h = elim (Bool-cases (starts_with p (c ∷ s))) [
  | inl e ↦
      let z : some 0 ≡ some i = rw (e, find) at h in ground (arith, starts_with-length p (c ∷ s) e)
  | inr e ↦
      let z : Option.map suc (find p s) ≡ some i = rw (e, find) at h in
      let x : (k : ℕ) × (find p s ≡ some k) × (suc k ≡ i) = (Option.map-eq-some_iff _ _).0 z in
      omega (arith, find_bound p s x.0 x.1)
]

pub substr_from_fits : (i : ℕ) (s : Bytes) → i ≤ length s → substr_from i s ≡ some (drop i s)
unfolding substr_from
substr_from_fits i s h = ground arith

pub substr_fits : (i n : ℕ) (s : Bytes) → i ≤ length s → substr i n s ≡ some (take n (drop i s))
unfolding substr
substr_fits i n s h = ground arith

-- The first position of one byte.
pub find_byte :
    (b : ℕ) (s rest : Bytes) → All (λ c. c ≢ b) s → find (b ∷ []) (s ++ b ∷ rest) ≡ some (length s)
unfolding find
find_byte b [] rest h = ground arith
find_byte b (c ∷ s) rest (hc, h) = ground (arith, find_byte b s rest h)

pub find_byte_none : (b : ℕ) (s : Bytes) → All (λ c. c ≢ b) s → find (b ∷ []) s ≡ none
unfolding find
find_byte_none b [] h = refl
find_byte_none b (c ∷ s) (hc, h) = ground (arith, find_byte_none b s h)

pub drop-suc-length : (s : Bytes) (c : ℕ) (t : Bytes) → drop (suc (length s)) (s ++ c ∷ t) ≡ t
drop-suc-length [] c t = refl
drop-suc-length (b ∷ s) c t = drop-suc-length s c t
