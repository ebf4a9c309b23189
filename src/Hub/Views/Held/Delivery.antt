-- ===== src/Hub/Views/Held/Delivery.antt =====
-- Each session is in the set once, so that each client is sent one message.
use kedge.Base.{
  ℕ, ◌+◌, ◌≤◌, ◌≡◌, refl, inl, inr, Bool, true, false, Option, List, [], ◌∷◌, ◌==◌, arith,
  if◌then◌else◌, Bool-cases,
}
use kedge.Bytes.{Bytes}
use kedge.Json.{Json}
use kedge.Hub.{insert, erase, broadcast_to}
use kedge.Hub.Views.Held.{receive, on_bytes}

abbrev pub times : ℕ → List ℕ → ℕ
times p [] = 0
times p (q ∷ qs) = (if q == p then 1 else 0) + times p qs

pub times-insert_other :
    (p q : ℕ) (qs : List ℕ) → (q == p) ≡ false → times p (insert q qs) ≡ times p qs
unfolding insert
times-insert_other p q [] h = ground arith
times-insert_other p q (r ∷ qs) h = ground (arith, times-insert_other p q qs h)

pub times-insert_self : (p : ℕ) (qs : List ℕ) → times p qs ≤ 1 → times p (insert p qs) ≡ 1
unfolding insert
times-insert_self p [] h = ground arith
times-insert_self p (r ∷ qs) h = ground (arith, times-insert_self p qs)

pub times-erase_other :
    (p q : ℕ) (qs : List ℕ) → (q == p) ≡ false → times p (erase q qs) ≡ times p qs
unfolding erase
times-erase_other p q [] h = refl
times-erase_other p q (r ∷ qs) h = ground (arith, times-erase_other p q qs h)

pub times-erase-le : (p q : ℕ) (qs : List ℕ) → times p (erase q qs) ≤ times p qs
unfolding erase
times-erase-le p q [] = omega arith
times-erase-le p q (r ∷ qs) = ground (arith, times-erase-le p q qs)

module _ (serialize : Json → Bytes) (parse : Bytes → Option Json) where
  receive_nothing :
      (p : ℕ) (alive : ℕ → Bool) (m : Bytes) (ps : List ℕ) (held : Option Json)
      → times p ps ≡ 0
      → receive serialize parse p (broadcast_to serialize alive m ps) held ≡ held
  unfolding receive broadcast_to
  receive_nothing p alive m [] held h = refl
  receive_nothing p alive m (q ∷ ps) held h =
      let other : (q == p) ≡ false = ground (arith, h) in
      let rest : times p ps ≡ 0 = ground (arith, h) in
      elim (Bool-cases (alive q)) [
        | inl y ↦ rw (y, receive) (rw other (receive_nothing p alive m ps held rest))
        | inr n ↦ rw n (receive_nothing p alive m ps held rest)
      ]

  -- A client that is alive and in the set once reads the message once.
  pub receive-broadcast_to :
      (p : ℕ) (alive : ℕ → Bool) (m : Bytes) (ps : List ℕ) (held : Option Json)
      → alive p ≡ true
      → times p ps ≡ 1
      → receive serialize parse p (broadcast_to serialize alive m ps) held
        ≡ on_bytes serialize parse m held
  unfolding receive broadcast_to
  receive-broadcast_to p alive m [] held a h = absurd (omega (arith, h))
  receive-broadcast_to p alive m (q ∷ ps) held a h = elim (Bool-cases (q == p)) [
    | inl y ↦
        let rest : times p ps ≡ 0 = ground (arith, h, y) in
        let same : q ≡ p = ground (arith, y) in
        let up : alive q ≡ true = rw same a in
        rw (up, receive)
          (rw y (receive_nothing p alive m ps (on_bytes serialize parse m held) rest))
    | inr n ↦
        let rest : times p ps ≡ 1 = ground (arith, h, n) in
        elim (Bool-cases (alive q)) [
          | inl up ↦ rw (up, receive) (rw n (receive-broadcast_to p alive m ps held a rest))
          | inr gone ↦ rw gone (receive-broadcast_to p alive m ps held a rest)
        ]
  ]
