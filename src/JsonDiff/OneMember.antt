-- ===== src/JsonDiff/OneMember.antt =====
-- The edits of the members that a source has: one is dropped, or changed.
use mathlib.Core.Option
use mathlib.Core.Path.{subst}
use kedge.Base.{◌≡◌, refl, sym, ap, ◌∙◌, inl, inr, false, none, some, [], ◌∷◌, ◌++◌, Bool-cases}
use kedge.Bytes.{Bytes, bytes_eq, bytes_eq_iff, bytes_eq_self}
use kedge.Json.{Json, object, Members, member, find_key}
use kedge.JsonDiff.Changes.{under, member_edits, changes, key_edits}
use kedge.JsonDiff.Equal.{key_apart}
use kedge.JsonDiff.Focus.{apply_edits-then}
use kedge.JsonDiff.Keys.{find_key-set_key_other, find_key-set_key_same, apply_edits-member, Removed}
use kedge.JsonDiff.Patch.{drop_child, drop_at, act, apply_edits, descend_all, set_key}
use kedge.JsonDiff.SameKeys.{Agree}
use kedge.JsonDiff.Steps.{Changed, Holds, Reaches}

-- The first member of an object, the others of which have other keys.
module _ (k : Bytes) (v : Json) (ms : Members) (distinct : find_key k ms ≡ none) where
  pub Holds-first : (us : Members) → Holds (member k v ms) us → Agree (find_key k us) (some v)
  unfolding find_key
  Holds-first us held = held k v (rw (bytes_eq_self k) refl)

  pub Holds-rest :
      (us left : Members)
      → ((j : Bytes) → bytes_eq k j ≡ false → find_key j left ≡ find_key j us)
      → Holds (member k v ms) us
      → Holds ms left
  unfolding find_key
  Holds-rest us left others held j x s = elim (Bool-cases (bytes_eq k j)) [
    | inl y ↦
        let free : find_key j ms ≡ none =
          ap (λ i. find_key i ms) (sym ((bytes_eq_iff k j).0 y)) ∙ distinct in
        let clash : some x ≡ none = sym s ∙ free in let wrong : ⊥ = cc in absurd wrong
    | inr n ↦ subst (λ o. Agree o (some x)) (sym (others j n)) (held j x (rw n s))
  ]

  -- What becomes of the first member, and then of the others.
  Agree-all :
      (ns rs : Members)
      → Agree (find_key k rs) (find_key k ns)
      → ((j : Bytes) (x : Json) → find_key j ms ≡ some x → Agree (find_key j rs) (find_key j ns))
      → (j : Bytes) (x : Json) → find_key j (member k v ms) ≡ some x
      → Agree (find_key j rs) (find_key j ns)
  unfolding find_key
  Agree-all ns rs first rest j x s = elim (Bool-cases (bytes_eq k j)) [
    | inl y ↦ subst (λ i. Agree (find_key i rs) (find_key i ns)) ((bytes_eq_iff k j).0 y) first
    | inr n ↦ rest j x (rw n at s)
  ]

  pub lost_member :
      (ns us : Members) (r : Removed k us)
      → find_key k ns ≡ none
      → Changed ms ns r.left
      → Changed (member k v ms) ns us
  unfolding key_edits apply_edits descend_all act drop_at Option.bind
  lost_member ns us r n c = record {
    rs = c.rs;
    applied =
        ap (λ o. apply_edits (member_edits (changes v) o k ++ key_edits ms ns) (object us)) n
        ∙ apply_edits-then (([], drop_child k) ∷ []) (key_edits ms ns) (object us) (object r.left)
            (rw r.removed refl)
        ∙ c.applied;
    plain = c.plain;
    others = λ j h. let (m, later) = key_apart j k v ms h in c.others j later ∙ r.others j m;
    agree =
        Agree-all ns c.rs
          (subst (λ o. Agree o (find_key k ns)) (sym (c.others k distinct ∙ r.gone))
            (subst (Agree none) (sym n) tt))
          c.agree;
  }

  pub kept_member :
      (ns us : Members) (u w : Json) (here : Reaches v w u)
      → find_key k ns ≡ some w
      → find_key k us ≡ some u
      → Changed ms ns (set_key k here.0 us)
      → Changed (member k v ms) ns us
  unfolding key_edits
  kept_member ns us u w (r, e, q, p) s there c = record {
    rs = c.rs;
    applied =
        ap (λ o. apply_edits (member_edits (changes v) o k ++ key_edits ms ns) (object us)) s
        ∙ apply_edits-then (under k (changes v w)) (key_edits ms ns) _ _
            (apply_edits-member k u r us (changes v w) there e)
        ∙ c.applied;
    plain = c.plain;
    others = λ j h.
        let (m, later) = key_apart j k v ms h in
        c.others j later ∙ find_key-set_key_other j k r us m;
    agree =
        Agree-all ns c.rs
          (subst (λ o. Agree o (find_key k ns))
            (sym (c.others k distinct ∙ find_key-set_key_same k r us))
            (subst (Agree (some r)) (sym s) q))
          c.agree;
  }
