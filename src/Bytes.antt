-- ===== src/Bytes.antt =====
-- Byte strings: what the source uses of std::string and std::string_view, as lists of bytes.
pub mod Laws
use Prim.Native.Char.{code}
use Prim.Native.String.{String}
use mathlib.Core.Option
use kedge.Base.{
  ℕ, zero, suc, ◌+◌, ◌-◌, ◌≡◌, refl, ap, ◌↔◌, Bool, true, false, ◌&&◌, ◌||◌, Option, none, some,
  List, [], ◌∷◌, ◌++◌, arith, leb, ◌==◌, if◌then◌else◌, length, take, drop, ==_iff, ==-self,
  &&-eq-true,
}

abbrev pub Bytes : Type 0
Bytes = List ℕ

-- The code points of a literal: its bytes, since the source's literals are ASCII.
abbrev pub codes : String → Bytes
codes String.[] = []
codes (String.◌∷◌ c s) = code c ∷ codes s

-- `operator==` on strings.
unfoldable pub bytes_eq : Bytes → Bytes → Bool
bytes_eq [] [] = true
bytes_eq [] (_ ∷ _) = false
bytes_eq (_ ∷ _) [] = false
bytes_eq (a ∷ s) (b ∷ t) = a == b && bytes_eq s t

pub bytes_eq_iff : (s t : Bytes) → (bytes_eq s t ≡ true) ↔ (s ≡ t)
unfolding bytes_eq
bytes_eq_iff [] [] = (λ _. refl, λ _. refl)
bytes_eq_iff [] (b ∷ t) = (λ h. cc, λ h. cc)
bytes_eq_iff (a ∷ s) [] = (λ h. cc, λ h. cc)
bytes_eq_iff (a ∷ s) (b ∷ t) = ground (arith, bytes_eq_iff s t)

pub bytes_eq_self : (s : Bytes) → bytes_eq s s ≡ true
bytes_eq_self s = (bytes_eq_iff s s).1 refl

-- Does the text begin with the pattern?
unfoldable pub starts_with : Bytes → Bytes → Bool
starts_with [] s = true
starts_with (p ∷ ps) [] = false
starts_with (p ∷ ps) (c ∷ s) = p == c && starts_with ps s

-- `s.find(p)`: the first position at which `p` occurs; `none` is npos.
unfoldable pub find : Bytes → Bytes → Option ℕ
unfolding starts_with
find p [] = if starts_with p [] then some 0 else none
find p (c ∷ s) = if starts_with p (c ∷ s) then some 0 else Option.map suc (find p s)

-- `s.find(p, from)`.
unfoldable pub find_from : Bytes → ℕ → Bytes → Option ℕ
unfolding find
find_from p i s = if leb i (length s) then Option.map (λ k. i + k) (find p (drop i s)) else none

-- `s.rfind(c)` and strrchr: the last position of a byte.
unfoldable pub rfind : ℕ → Bytes → Option ℕ
rfind c [] = none
rfind c (b ∷ s) = elim (rfind c s) [
  | some i ↦ some (suc i)
  | none ↦ if b == c then some 0 else none
]

-- `s.substr(i)`; `none` is the exception std::out_of_range.
unfoldable pub substr_from : ℕ → Bytes → Option Bytes
substr_from i s = if leb i (length s) then some (drop i s) else none

-- `s.substr(i, n)`.
unfoldable pub substr : ℕ → ℕ → Bytes → Option Bytes
substr i n s = if leb i (length s) then some (take n (drop i s)) else none

-- What a C function sees of `s.c_str()`: the bytes before the first zero.
unfoldable pub c_str : Bytes → Bytes
c_str [] = []
c_str (zero ∷ s) = []
c_str (suc c ∷ s) = suc c ∷ c_str s
