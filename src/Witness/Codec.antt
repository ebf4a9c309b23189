-- ===== src/Witness/Codec.antt =====
-- A text of JSON values that can be read back, and clients that keep up with it.
use mathlib.Core.Option
use kedge.Base.{
  ℕ, zero, suc, ◌+◌, ◌≤◌, ◌≡◌, refl, true, false, Option, none, some, [], ◌∷◌, arith, length,
}
use kedge.Base.Int.{pos, negsuc}
use kedge.Bytes.{Bytes}
use kedge.Json.{
  Json, null, bool_, int64, uint64, double_, string, array, object, Items, nil, cons, Members, end,
  member,
}
use kedge.JsonDiff.Alike.{Alike, AlikeItems, AlikeMembers}

write_text : Bytes → Bytes → Bytes
write_text [] rest = 0 ∷ rest
write_text (c ∷ s) rest = suc c ∷ write_text s rest

read_text : Bytes → Option (Bytes × Bytes)
read_text [] = none
read_text (zero ∷ s) = some ([], s)
read_text (suc c ∷ s) = Option.map (λ (t, r). (c ∷ t, r)) (read_text s)

-- Both kinds of integer are written alike, and read as int64.
mutual
  unfolding write_text

  write : Json → Bytes → Bytes
  write null rest = 0 ∷ rest
  write (bool_ true) rest = 1 ∷ rest
  write (bool_ false) rest = 2 ∷ rest
  write (int64 (pos n)) rest = 3 ∷ n ∷ rest
  write (int64 (negsuc n)) rest = 4 ∷ n ∷ rest
  write (uint64 n) rest = 3 ∷ n ∷ rest
  write (double_ b) rest = 5 ∷ b ∷ rest
  write (string s) rest = 6 ∷ write_text s rest
  write (array xs) rest = 7 ∷ write_items xs rest
  write (object ms) rest = 8 ∷ write_members ms rest

  write_items : Items → Bytes → Bytes
  write_items nil rest = 0 ∷ rest
  write_items (cons x xs) rest = 1 ∷ write x (write_items xs rest)

  write_members : Members → Bytes → Bytes
  write_members end rest = 0 ∷ rest
  write_members (member k v ms) rest = 1 ∷ write_text k (write v (write_members ms rest))

pub data Kind : Type 0 where
  null_ true_ false_ pos_ negsuc_ float text_ items_ members_ other : Kind

kind : ℕ → Kind
kind zero = null_
kind (suc zero) = true_
kind (suc (suc zero)) = false_
kind (suc (suc (suc zero))) = pos_
kind (suc (suc (suc (suc zero)))) = negsuc_
kind (suc (suc (suc (suc (suc zero))))) = float
kind (suc (suc (suc (suc (suc (suc zero)))))) = text_
kind (suc (suc (suc (suc (suc (suc (suc zero))))))) = items_
kind (suc (suc (suc (suc (suc (suc (suc (suc zero)))))))) = members_
kind _ = other

abbrev number : (ℕ → Json) → Bytes → Option (Json × Bytes)
number f [] = none
number f (n ∷ s) = some (f n, s)

mutual
  unfolding read_text kind

  read : ℕ → Bytes → Option (Json × Bytes)
  read zero s = none
  read (suc f) [] = none
  read (suc f) (t ∷ s) = elim (kind t) [
    | null_ ↦ some (null, s)
    | true_ ↦ some (bool_ true, s)
    | false_ ↦ some (bool_ false, s)
    | pos_ ↦ number (λ n. int64 (pos n)) s
    | negsuc_ ↦ number (λ n. int64 (negsuc n)) s
    | float ↦ number double_ s
    | text_ ↦ Option.map (λ (u, r). (string u, r)) (read_text s)
    | items_ ↦ Option.map (λ (xs, r). (array xs, r)) (read_items f s)
    | members_ ↦ Option.map (λ (ms, r). (object ms, r)) (read_members f s)
    | other ↦ none
  ]

  read_items : ℕ → Bytes → Option (Items × Bytes)
  read_items zero s = none
  read_items (suc f) [] = none
  read_items (suc f) (zero ∷ s) = some (nil, s)
  read_items (suc f) (suc t ∷ s) =
      Option.bind (read f s) (λ (x, r). Option.map (λ (xs, q). (cons x xs, q)) (read_items f r))

  read_members : ℕ → Bytes → Option (Members × Bytes)
  read_members zero s = none
  read_members (suc f) [] = none
  read_members (suc f) (zero ∷ s) = some (end, s)
  read_members (suc f) (suc t ∷ s) = Option.bind (read_text s) (λ (k, r).
      Option.bind (read f r)
        (λ (v, q). Option.map (λ (ms, p). (member k v ms, p)) (read_members f q)))

read_text-write_text : (s rest : Bytes) → read_text (write_text s rest) ≡ some (s, rest)
unfolding read_text write_text
read_text-write_text [] rest = refl
read_text-write_text (c ∷ s) rest = rw (read_text-write_text s rest) refl

-- The steps that it takes to read a value.
mutual
  cost : Json → ℕ
  cost (array xs) = suc (cost_items xs)
  cost (object ms) = suc (cost_members ms)
  cost _ = 1

  cost_items : Items → ℕ
  cost_items nil = 1
  cost_items (cons x xs) = suc (cost x + cost_items xs)

  cost_members : Members → ℕ
  cost_members end = 1
  cost_members (member k v ms) = suc (cost v + cost_members ms)

length-write_text : (s rest : Bytes) → length rest ≤ length (write_text s rest)
unfolding write_text
length-write_text [] rest = omega arith
length-write_text (c ∷ s) rest = omega (arith, length-write_text s rest)

mutual
  unfolding write cost

  length-write : (v : Json) (rest : Bytes) → cost v + length rest ≤ length (write v rest)
  length-write null rest = omega arith
  length-write (bool_ true) rest = omega arith
  length-write (bool_ false) rest = omega arith
  length-write (int64 (pos n)) rest = omega arith
  length-write (int64 (negsuc n)) rest = omega arith
  length-write (uint64 n) rest = omega arith
  length-write (double_ b) rest = omega arith
  length-write (string s) rest = omega (arith, length-write_text s rest)
  length-write (array xs) rest = omega (arith, length-write_items xs rest)
  length-write (object ms) rest = omega (arith, length-write_members ms rest)

  length-write_items :
      (xs : Items) (rest : Bytes) → cost_items xs + length rest ≤ length (write_items xs rest)
  length-write_items nil rest = omega arith
  length-write_items (cons x xs) rest =
      omega (arith, length-write x (write_items xs rest), length-write_items xs rest)

  length-write_members :
      (ms : Members) (rest : Bytes) → cost_members ms + length rest ≤ length (write_members ms rest)
  length-write_members end rest = omega arith
  length-write_members (member k v ms) rest = omega (
    arith,
    length-write_text k (write v (write_members ms rest)),
    length-write v (write_members ms rest),
    length-write_members ms rest,
  )

mutual
  unfolding write read cost Alike Option.bind

  read_back :
      (f : ℕ) (v : Json) (rest : Bytes)
      → cost v ≤ f
      → (w : Json) × (read f (write v rest) ≡ some (w, rest)) × Alike v w
  read_back zero null rest h = absurd (omega (arith, h))
  read_back zero (array xs) rest h = absurd (omega (arith, h))
  read_back zero (object ms) rest h = absurd (omega (arith, h))
  read_back zero v rest h = absurd (omega (arith, h))
  read_back (suc f) null rest h = (null, refl, tt)
  read_back (suc f) (bool_ true) rest h = (bool_ true, refl, refl)
  read_back (suc f) (bool_ false) rest h = (bool_ false, refl, refl)
  read_back (suc f) (int64 (pos n)) rest h = (int64 (pos n), refl, refl)
  read_back (suc f) (int64 (negsuc n)) rest h = (int64 (negsuc n), refl, refl)
  read_back (suc f) (uint64 n) rest h = (int64 (pos n), refl, refl)
  read_back (suc f) (double_ b) rest h = (double_ b, refl, refl)
  read_back (suc f) (string s) rest h = (string s, rw (read_text-write_text s rest) refl, refl)
  read_back (suc f) (array xs) rest h =
      let (ys, e, a) = read_back_items f xs rest (omega (arith, h)) in (array ys, rw e refl, a)
  read_back (suc f) (object ms) rest h =
      let (ns, e, a) = read_back_members f ms rest (omega (arith, h)) in (object ns, rw e refl, a)

  read_back_items :
      (f : ℕ) (xs : Items) (rest : Bytes)
      → cost_items xs ≤ f
      → (ys : Items) × (read_items f (write_items xs rest) ≡ some (ys, rest)) × AlikeItems xs ys
  read_back_items zero nil rest h = absurd (omega (arith, h))
  read_back_items zero (cons x xs) rest h = absurd (omega (arith, h))
  read_back_items (suc f) nil rest h = (nil, refl, tt)
  read_back_items (suc f) (cons x xs) rest h =
      let (y, e, a) = read_back f x (write_items xs rest) (omega (arith, h)) in
      let (ys, es, all_a) = read_back_items f xs rest (omega (arith, h)) in
      (cons y ys, rw e (rw es refl), (a, all_a))

  read_back_members :
      (f : ℕ) (ms : Members) (rest : Bytes)
      → cost_members ms ≤ f
      → (ns : Members) × (read_members f (write_members ms rest) ≡ some (ns, rest))
        × AlikeMembers ms ns
  read_back_members zero end rest h = absurd (omega (arith, h))
  read_back_members zero (member k v ms) rest h = absurd (omega (arith, h))
  read_back_members (suc f) end rest h = (end, refl, tt)
  read_back_members (suc f) (member k v ms) rest h =
      let (w, e, a) = read_back f v (write_members ms rest) (omega (arith, h)) in
      let (ns, es, all_a) = read_back_members f ms rest (omega (arith, h)) in
      (
        member k w ns,
        rw (read_text-write_text k (write v (write_members ms rest))) (rw e (rw es refl)),
        (refl, (a, all_a)),
      )

pub written : Json → Bytes
unfolding write
written v = write v []

pub parsed : Bytes → Option Json
unfolding read
parsed s = Option.map (λ (v, r). v) (read (suc (length s)) s)

pub parsed-written : (v : Json) → (w : Json) × (parsed (written v) ≡ some w) × Alike v w
unfolding written parsed
parsed-written v =
    let (w, e, a) = read_back (suc (length (write v []))) v [] (omega (arith, length-write v [])) in
    (w, rw e refl, a)
