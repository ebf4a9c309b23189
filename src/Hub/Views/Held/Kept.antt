-- ===== src/Hub/Views/Held/Kept.antt =====
-- What one message does to the clients.
use mathlib.Core.Option
use mathlib.Core.Path.{subst}
use kedge.Base.{
  ℕ, ◌≡◌, refl, sym, ◌∙◌, ◌⊎◌, inl, inr, Bool, true, false, Option, none, some, List, [], ◌∷◌, ◌==◌,
  ==-self, arith, All, Bool-cases,
}
use kedge.Bytes.{Bytes}
use kedge.Json.{Json, null, bool_, int64, uint64, double_, string, array, object, json_eq}
use kedge.JsonDiff.{Op, json_diff}
use kedge.JsonDiff.Alike.{Alike, Both, Alike-self, Alike-json_eq, Alike-IsPlain}
use kedge.JsonDiff.Alike.Ops.{AlikeOps, apply_patch-Alike}
use kedge.JsonDiff.Equal.{json_eq_self}
use kedge.JsonDiff.Exact.{apply_patch-Reaches}
use kedge.JsonDiff.Patch.{
  apply_patch, read_op, descend_all, act, pointer, split_slashes, unescape_all,
}
use kedge.JsonDiff.Plain
use kedge.JsonDiff.Plain.{IsPlain}
use kedge.JsonDiff.Same.{json_eq_trans}
use kedge.JsonDiff.Values.{json_diff-HasPlain}
use kedge.Hub.{HubCall, send, is_null, welcome, delta, broadcast_to}
use kedge.Hub.Message.Read.{on_message-welcome, on_message-delta, welcome-IsPlain, delta-IsPlain}
use kedge.Hub.Views.Held.{Holder, without, on_bytes, receive, deliver}
use kedge.Hub.Views.Held.Delivery.{times, receive-broadcast_to}

-- A plain value that equals the statistics.
abbrev pub Holding : Json → Option Json → Type 0
Holding curr held = (v : Json) × (held ≡ some v) × (json_eq v curr ≡ true) × IsPlain v

-- The patch makes of the value a plain one that equals the statistics.
abbrev Gives : List Op → Json → Json → Type 0
Gives ops stats v = (r : Json) × (apply_patch ops v ≡ some r) × (json_eq r stats ≡ true) × IsPlain r

json_eq-null : (v : Json) → is_null v ≡ false → json_eq null v ≡ false
unfolding json_eq
json_eq-null null h = cc
json_eq-null (bool_ b) h = refl
json_eq-null (int64 i) h = refl
json_eq-null (uint64 n) h = refl
json_eq-null (double_ b) h = refl
json_eq-null (string s) h = refl
json_eq-null (array xs) h = refl
json_eq-null (object ms) h = refl

null-Gives :
    (stats v : Json)
    → is_null stats ≡ false
    → IsPlain stats
    → Gives (json_diff null stats []) stats v
unfolding json_diff apply_patch read_op descend_all act pointer split_slashes unescape_all
    Option.bind
null-Gives stats v h p = (stats, rw (json_eq-null stats h) refl, json_eq_self stats p, p)

base-Gives :
    (base curr stats v : Json)
    → (base ≡ curr) ⊎ (base ≡ null)
    → is_null stats ≡ false
    → IsPlain curr
    → IsPlain stats
    → IsPlain v
    → Plain.Fits curr stats
    → json_eq v curr ≡ true
    → Gives (json_diff base stats []) stats v
base-Gives base curr stats v (inl e) h c p q f same =
    subst (λ b. Gives (json_diff b stats []) stats v) (sym e)
      (apply_patch-Reaches curr stats v c p q f same)
base-Gives base curr stats v (inr e) h c p q f same =
    subst (λ b. Gives (json_diff b stats []) stats v) (sym e) (null-Gives stats v h p)

-- A patch that is alike gives such a value as well.
alike-Gives :
    (ops ps : List Op) (stats v : Json)
    → AlikeOps ops ps
    → Gives ops stats v
    → Holding stats (apply_patch ps v)
alike-Gives ops ps stats v a (r, e, same, p) =
    come (apply_patch ps v) (
      subst (λ o. Both Alike o (apply_patch ps v)) e
        (apply_patch-Alike ops ps a v v (Alike-self v)))
  where
    come : (o : Option Json) → Both Alike (some r) o → Holding stats o
    come none h = absurd h
    come (some w) h =
        (w, refl, json_eq_trans w r stats (Alike-json_eq r w h p) same, Alike-IsPlain r w h p)

module _ (serialize : Json → Bytes) (parse : Bytes → Option Json)
    (back : (v : Json) → IsPlain v → (w : Json) × (parse (serialize v) ≡ some w) × Alike v w) where
  pub welcome-Holding :
      (wss version : ℕ) (id : Bytes) (body : Json)
      → IsPlain body
      → Holding body
          (receive serialize parse wss (send wss (serialize (welcome version id body)) ∷ []) none)
  unfolding receive Option.bind
  welcome-Holding wss version id body p =
      let (m, read, alike) = back (welcome version id body) (welcome-IsPlain version id body p) in
      let (w, held, same) = on_message-welcome version id body m none alike in
      (w, rw (==-self wss) (rw read held), Alike-json_eq body w same p, Alike-IsPlain body w same p)

  pub delta-Holding :
      (version : ℕ) (base curr stats : Json) (held : Option Json)
      → (base ≡ curr) ⊎ (base ≡ null)
      → is_null stats ≡ false
      → IsPlain curr
      → IsPlain stats
      → Plain.Fits curr stats
      → Holding curr held
      → Holding stats
          (on_bytes serialize parse (serialize (delta version (json_diff base stats []))) held)
  unfolding Option.bind
  delta-Holding version base curr stats held b h c p f (v, e, same, q) =
      let ops = json_diff base stats [] in
      let (m, read, alike) =
        back (delta version ops) (delta-IsPlain version ops (json_diff-HasPlain base stats [] p)) in
      let (ps, applied, all_alike) = on_message-delta version ops m v alike in
      rw (e, read)
        (subst (Holding stats) (sym applied)
          (alike-Gives ops ps stats v all_alike (base-Gives base curr stats v b h c p q f same)))

  abbrev pub Holders : Json → List Holder → Type 0
  Holders curr = All (λ c. Holding curr c.held)

  abbrev pub Listed : List ℕ → List Holder → Type 0
  Listed ps = All (λ c. times c.wss ps ≡ 1)

  pub Holders-without :
      (v : Json) (p : ℕ) (cs : List Holder) → Holders v cs → Holders v (without p cs)
  Holders-without v p [] h = tt
  Holders-without v p (c ∷ cs) (h, hs) = elim (Bool-cases (c.wss == p)) [
    | inl e ↦ rw e (Holders-without v p cs hs)
    | inr e ↦ rw e (h, Holders-without v p cs hs)
  ]

  -- The other sessions stay where they are.
  pub Listed-without :
      (p : ℕ) (ps qs : List ℕ) (cs : List Holder)
      → ((q : ℕ) → (p == q) ≡ false → times q qs ≡ times q ps)
      → Listed ps cs
      → Listed qs (without p cs)
  Listed-without p ps qs [] k h = tt
  Listed-without p ps qs (c ∷ cs) k (h, hs) = elim (Bool-cases (c.wss == p)) [
    | inl e ↦ rw e (Listed-without p ps qs cs k hs)
    | inr e ↦
        let other : (p == c.wss) ≡ false = ground (arith, e) in
        rw e (k c.wss other ∙ h, Listed-without p ps qs cs k hs)
  ]

  pub Listed-deliver :
      (alive : ℕ → Bool) (calls : List HubCall) (ps : List ℕ) (cs : List Holder)
      → Listed ps cs
      → Listed ps (deliver serialize parse alive calls cs)
  Listed-deliver alive calls ps [] h = tt
  Listed-deliver alive calls ps (c ∷ cs) (h, hs) = elim (Bool-cases (alive c.wss)) [
    | inl e ↦ rw e (h, Listed-deliver alive calls ps cs hs)
    | inr e ↦ rw e (Listed-deliver alive calls ps cs hs)
  ]

  pub Holders-deliver :
      (alive : ℕ → Bool) (m : Bytes) (ps : List ℕ) (curr stats : Json) (cs : List Holder)
      → ((held : Option Json) → Holding curr held → Holding stats (on_bytes serialize parse m held))
      → Listed ps cs
      → Holders curr cs
      → Holders stats (deliver serialize parse alive (broadcast_to serialize alive m ps) cs)
  Holders-deliver alive m ps curr stats [] step l h = tt
  Holders-deliver alive m ps curr stats (c ∷ cs) step (once, l) (h, hs) =
      elim (Bool-cases (alive c.wss)) [
        | inl e ↦ rw e (
          subst (Holding stats)
              (sym (receive-broadcast_to serialize parse c.wss alive m ps c.held e once))
              (step c.held h),
          Holders-deliver alive m ps curr stats cs step l hs,
        )
        | inr e ↦ rw e (Holders-deliver alive m ps curr stats cs step l hs)
      ]
