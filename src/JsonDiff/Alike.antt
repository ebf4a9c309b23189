-- ===== src/JsonDiff/Alike.antt =====
-- Values as they come back when they are sent as text: the same but for the two kinds of integer.
pub mod Places
pub mod Children
pub mod Ops
use kedge.Base.{
  &&-true, ◌≡◌, refl, sym, ap, ◌∙◌, inl, inr, true, false, Option, none, some, arith, ◌==◌, ==-self,
  Bool-cases,
}
use kedge.Base.Int.{ℤ, pos, negsuc}
use kedge.Bytes.{Bytes, bytes_eq, bytes_eq_self}
use kedge.Json.{
  Json, null, bool_, int64, uint64, double_, string, array, object, Items, nil, cons, Members, end,
  member, find_key, size_members, json_eq, items_eq, members_in, int_eq, bool_eq, holds,
}
use kedge.JsonDiff.Equal.{Covers, Covers-self, json_eq_self}
use kedge.JsonDiff.Plain.{IsPlain, ArePlain, HavePlain, IsPlainKey}
use mathlib.Core.Path.{subst}

unfoldable mutual
  pub Alike : Json → Json → Type 0
  Alike null null = Unit
  Alike (bool_ a) (bool_ b) = a ≡ b
  Alike (int64 a) (int64 b) = a ≡ b
  Alike (int64 a) (uint64 b) = a ≡ pos b
  Alike (uint64 a) (int64 b) = pos a ≡ b
  Alike (uint64 a) (uint64 b) = a ≡ b
  Alike (double_ a) (double_ b) = a ≡ b
  Alike (string a) (string b) = a ≡ b
  Alike (array xs) (array ys) = AlikeItems xs ys
  Alike (object ms) (object ns) = AlikeMembers ms ns
  Alike _ _ = ⊥

  pub AlikeItems : Items → Items → Type 0
  AlikeItems nil nil = Unit
  AlikeItems (cons x xs) (cons y ys) = Alike x y × AlikeItems xs ys
  AlikeItems _ _ = ⊥

  pub AlikeMembers : Members → Members → Type 0
  AlikeMembers end end = Unit
  AlikeMembers (member j v ms) (member k w ns) = (j ≡ k) × (Alike v w × AlikeMembers ms ns)
  AlikeMembers _ _ = ⊥

mutual
  unfolding Alike

  Alike-itself : (v : Json) → Alike v v
  Alike-itself null = tt
  Alike-itself (bool_ a) = refl
  Alike-itself (int64 a) = refl
  Alike-itself (uint64 a) = refl
  Alike-itself (double_ a) = refl
  Alike-itself (string a) = refl
  Alike-itself (array xs) = AlikeItems-itself xs
  Alike-itself (object ms) = AlikeMembers-itself ms

  AlikeItems-itself : (xs : Items) → AlikeItems xs xs
  AlikeItems-itself nil = tt
  AlikeItems-itself (cons x xs) = (Alike-itself x, AlikeItems-itself xs)

  AlikeMembers-itself : (ms : Members) → AlikeMembers ms ms
  AlikeMembers-itself end = tt
  AlikeMembers-itself (member k v ms) = (refl, (Alike-itself v, AlikeMembers-itself ms))

pub Alike-self : (v : Json) → Alike v v
Alike-self v = Alike-itself v

-- Both fail, or both succeed with related results.
abbrev pub Both {ℓ} : {A : Type ℓ} → (A → A → Type 0) → Option A → Option A → Type 0
Both R none none = Unit
Both R none (some y) = ⊥
Both R (some x) none = ⊥
Both R (some x) (some y) = R x y

pub find_key-Alike :
    (k : Bytes) (ms ns : Members) → AlikeMembers ms ns → Both Alike (find_key k ms) (find_key k ns)
unfolding Alike find_key
find_key-Alike k end end h = tt
find_key-Alike k end (member j w ns) h = absurd h
find_key-Alike k (member i v ms) end h = absurd h
find_key-Alike k (member i v ms) (member j w ns) (e, (hv, h)) = elim (Bool-cases (bytes_eq i k)) [
  | inl y ↦ let y' : bytes_eq j k ≡ true = ap (λ l. bytes_eq l k) (sym e) ∙ y in rw (y, y') hv
  | inr n ↦
      let n' : bytes_eq j k ≡ false = ap (λ l. bytes_eq l k) (sym e) ∙ n in
      rw (n, n') (find_key-Alike k ms ns h)
]

Both-none : (o : Option Json) → Both Alike none o → o ≡ none
Both-none none h = refl
Both-none (some v) h = absurd h

AlikeMembers-size : (ms ns : Members) → AlikeMembers ms ns → size_members ns ≡ size_members ms
unfolding Alike
AlikeMembers-size end end h = refl
AlikeMembers-size end (member j w ns) h = absurd h
AlikeMembers-size (member i v ms) end h = absurd h
AlikeMembers-size (member i v ms) (member j w ns) (_, (_, h)) =
    omega (arith, AlikeMembers-size ms ns h)

same_equal : (a b : Json) → a ≡ b → IsPlain a → json_eq b a ≡ true
same_equal a b e h = subst (λ c. json_eq c a ≡ true) e (json_eq_self a h)

mutual
  unfolding Alike json_eq IsPlain Covers

  Alike-equal : (v w : Json) → Alike v w → IsPlain v → json_eq w v ≡ true
  Alike-equal null null h p = refl
  Alike-equal null w h p = absurd h
  Alike-equal (bool_ a) (bool_ b) h p = same_equal (bool_ a) (bool_ b) (ap bool_ h) p
  Alike-equal (bool_ a) w h p = absurd h
  Alike-equal (int64 a) (int64 b) h p = same_equal (int64 a) (int64 b) (ap int64 h) p
  Alike-equal (int64 a) (uint64 b) h p = same_equal (int64 a) (int64 (pos b)) (ap int64 h) p
  Alike-equal (int64 a) w h p = absurd h
  Alike-equal (uint64 a) (int64 b) h p = same_equal (int64 (pos a)) (int64 b) (ap int64 h) p
  Alike-equal (uint64 a) (uint64 b) h p = same_equal (uint64 a) (uint64 b) (ap uint64 h) p
  Alike-equal (uint64 a) w h p = absurd h
  Alike-equal (double_ a) (double_ b) h p = same_equal (double_ a) (double_ b) (ap double_ h) p
  Alike-equal (double_ a) w h p = absurd h
  Alike-equal (string a) (string b) h p = same_equal (string a) (string b) (ap string h) p
  Alike-equal (string a) w h p = absurd h
  Alike-equal (array xs) (array ys) h p = AlikeItems-equal xs ys h p
  Alike-equal (array xs) w h p = absurd h
  Alike-equal (object ms) (object ns) h p =
      &&-true (size_members ns == size_members ms) (members_in ns ms)
        (subst (λ n. (n == size_members ms) ≡ true) (sym (AlikeMembers-size ms ns h))
          (==-self (size_members ms)))
        (AlikeMembers-in ms ns ms h p (Covers-self ms p))
  Alike-equal (object ms) w h p = absurd h

  AlikeItems-equal : (xs ys : Items) → AlikeItems xs ys → ArePlain xs → items_eq ys xs ≡ true
  AlikeItems-equal nil nil h p = refl
  AlikeItems-equal nil (cons y ys) h p = absurd h
  AlikeItems-equal (cons x xs) nil h p = absurd h
  AlikeItems-equal (cons x xs) (cons y ys) (hx, h) (px, p) =
      &&-true (json_eq y x) (items_eq ys xs) (Alike-equal x y hx px) (AlikeItems-equal xs ys h p)

  AlikeMembers-in :
      (ms ns full : Members)
      → AlikeMembers ms ns
      → HavePlain ms
      → Covers ms full
      → members_in ns full ≡ true
  AlikeMembers-in end end full h p c = refl
  AlikeMembers-in end (member j w ns) full h p c = absurd h
  AlikeMembers-in (member i v ms) end full h p c = absurd h
  AlikeMembers-in (member i v ms) (member j w ns) full (e, (hv, h)) (_, (_, (pv, p))) (s, c) =
      &&-true (holds (json_eq w) (find_key j full)) (members_in ns full)
        (ap (λ k. holds (json_eq w) (find_key k full)) (sym e)
          ∙ ap (holds (json_eq w)) s
          ∙ Alike-equal v w hv pv)
        (AlikeMembers-in ms ns full h p c)

pub Alike-json_eq : (v w : Json) → Alike v w → IsPlain v → json_eq w v ≡ true
Alike-json_eq v w h p = Alike-equal v w h p

mutual
  unfolding Alike IsPlain

  Alike-plain : (v w : Json) → Alike v w → IsPlain v → IsPlain w
  Alike-plain null null h p = tt
  Alike-plain null w h p = absurd h
  Alike-plain (bool_ a) (bool_ b) h p = tt
  Alike-plain (bool_ a) w h p = absurd h
  Alike-plain (int64 a) (int64 b) h p = tt
  Alike-plain (int64 a) (uint64 b) h p = tt
  Alike-plain (int64 a) w h p = absurd h
  Alike-plain (uint64 a) (int64 b) h p = tt
  Alike-plain (uint64 a) (uint64 b) h p = tt
  Alike-plain (uint64 a) w h p = absurd h
  Alike-plain (double_ a) (double_ b) h p = subst (λ v. IsPlain v) (ap double_ h) p
  Alike-plain (double_ a) w h p = absurd h
  Alike-plain (string a) (string b) h p = tt
  Alike-plain (string a) w h p = absurd h
  Alike-plain (array xs) (array ys) h p = AlikeItems-plain xs ys h p
  Alike-plain (array xs) w h p = absurd h
  Alike-plain (object ms) (object ns) h p = AlikeMembers-plain ms ns h p
  Alike-plain (object ms) w h p = absurd h

  AlikeItems-plain : (xs ys : Items) → AlikeItems xs ys → ArePlain xs → ArePlain ys
  AlikeItems-plain nil nil h p = tt
  AlikeItems-plain nil (cons y ys) h p = absurd h
  AlikeItems-plain (cons x xs) nil h p = absurd h
  AlikeItems-plain (cons x xs) (cons y ys) (hx, h) (px, p) =
      (Alike-plain x y hx px, AlikeItems-plain xs ys h p)

  AlikeMembers-plain : (ms ns : Members) → AlikeMembers ms ns → HavePlain ms → HavePlain ns
  AlikeMembers-plain end end h p = tt
  AlikeMembers-plain end (member j w ns) h p = absurd h
  AlikeMembers-plain (member i v ms) end h p = absurd h
  AlikeMembers-plain (member i v ms) (member j w ns) (e, (hv, h)) (pk, (d, (pv, p))) = (
    subst IsPlainKey e pk,
    (
      Both-none (find_key j ns) (
          subst (λ o. Both Alike o (find_key j ns)) (ap (λ k. find_key k ms) (sym e) ∙ d)
            (find_key-Alike j ms ns h)),
      (Alike-plain v w hv pv, AlikeMembers-plain ms ns h p),
    ),
  )

pub Alike-IsPlain : (v w : Json) → Alike v w → IsPlain v → IsPlain w
Alike-IsPlain v w h p = Alike-plain v w h p
