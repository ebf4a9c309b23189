-- ===== src/Fault.antt =====
-- What a handler does: it returns, throws std::out_of_range, or dereferences an end iterator.
use mathlib.Core.Option.{Option, none, some}

pub data Result {ℓ} (A : Type ℓ) : Type ℓ where
  done : A → Result A
  out_of_range bad_deref : Result A

infixl 5 ◌>>=◌
abbrev pub ◌>>=◌ {ℓ κ} : {A : Type ℓ} {B : Type κ} → Result A → (A → Result B) → Result B
done a >>= k = k a
out_of_range >>= k = out_of_range
bad_deref >>= k = bad_deref

-- A call of `substr`.
abbrev pub throwing {ℓ} : {A : Type ℓ} → Option A → Result A
throwing none = out_of_range
throwing (some a) = done a
