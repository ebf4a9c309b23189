-- ===== src/JsonDiff/Alike/Ops.antt =====
-- Patches that are alike, applied to values that are alike.
use mathlib.Core.Option
use mathlib.Core.Path.{subst}
use kedge.Base.{◌≡◌, refl, Option, none, some, List, [], ◌∷◌}
use kedge.Bytes.{Bytes}
use kedge.Json.{Json}
use kedge.JsonDiff.{Op, replace, remove, add}
use kedge.JsonDiff.Alike.{Alike, Both}
use kedge.JsonDiff.Alike.Places.{Both-bind, ActAlike, descend_all-Alike}
use kedge.JsonDiff.Patch.{
  Action, set, drop_child, add_child, Edit, descend_all, drop_at, add_at, act, removing, adding,
  pointer, split_last, read_op, apply_patch,
}
use kedge.JsonDiff.Alike.Children.{add_at-Alike, drop_at-Alike}

abbrev pub AlikeAction : Action → Action → Type 0
AlikeAction (set v) (set w) = Alike v w
AlikeAction (drop_child t) (drop_child u) = t ≡ u
AlikeAction (add_child t v) (add_child u w) = (t ≡ u) × Alike v w
AlikeAction _ _ = ⊥

act-Alike : (a b : Action) → AlikeAction a b → ActAlike (act a) (act b)
unfolding act
act-Alike (set v) (set w) h x y r = h
act-Alike (drop_child t) (drop_child u) h x y r =
    subst (λ s. Both Alike (drop_at t x) (drop_at s y)) h (drop_at-Alike t x y r)
act-Alike (add_child t v) (add_child u w) (e, h) x y r =
    subst (λ s. Both Alike (add_at t v x) (add_at s w y)) e (add_at-Alike v w h t x y r)
act-Alike a b h x y r = absurd h

abbrev pub AlikeOp : Op → Op → Type 0
AlikeOp (replace p v) (replace q w) = (p ≡ q) × Alike v w
AlikeOp (remove p) (remove q) = p ≡ q
AlikeOp (add p v) (add q w) = (p ≡ q) × Alike v w
AlikeOp _ _ = ⊥

abbrev pub AlikeOps : List Op → List Op → Type 0
AlikeOps [] [] = Unit
AlikeOps (o ∷ os) (p ∷ ps) = AlikeOp o p × AlikeOps os ps
AlikeOps _ _ = ⊥

-- Edits at the same place.
abbrev AlikeEdit : Edit → Edit → Type 0
AlikeEdit (ts, a) (us, b) = (ts ≡ us) × AlikeAction a b

Both-edits :
    (f g : List Bytes → Edit) (o : Option (List Bytes))
    → ((ts : List Bytes) → AlikeEdit (f ts) (g ts))
    → Both AlikeEdit (Option.map f o) (Option.map g o)
Both-edits f g none h = tt
Both-edits f g (some ts) h = h ts

adding-Alike :
    (v w : Json) (o : Option (List Bytes × Bytes)) → Alike v w → AlikeEdit (adding v o) (adding w o)
adding-Alike v w none h = (refl, h)
adding-Alike v w (some (ts, t)) h = (refl, (refl, h))

removing_same :
    (o : Option (List Bytes))
    → Both AlikeEdit
        (Option.bind o (λ ts. removing (split_last ts)))
        (Option.bind o (λ ts. removing (split_last ts)))
unfolding Option.bind
removing_same none = tt
removing_same (some ts) = same (split_last ts)
  where
    same : (o : Option (List Bytes × Bytes)) → Both AlikeEdit (removing o) (removing o)
    same none = tt
    same (some (us, t)) = (refl, refl)

read_op-Alike : (o p : Op) → AlikeOp o p → Both AlikeEdit (read_op o) (read_op p)
unfolding read_op
read_op-Alike (replace p v) (replace q w) (e, h) =
    subst (λ s. Both AlikeEdit (read_op (replace p v)) (read_op (replace s w))) e
      (Both-edits (λ ts. (ts, set v)) (λ ts. (ts, set w)) (pointer p) (λ ts. (refl, h)))
read_op-Alike (remove p) (remove q) e =
    subst (λ s. Both AlikeEdit (read_op (remove p)) (read_op (remove s))) e
      (removing_same (pointer p))
read_op-Alike (add p v) (add q w) (e, h) =
    subst (λ s. Both AlikeEdit (read_op (add p v)) (read_op (add s w))) e
      (Both-edits (λ ts. adding v (split_last ts)) (λ ts. adding w (split_last ts)) (pointer p)
        (λ ts. adding-Alike v w (split_last ts) h))
read_op-Alike o p h = absurd h

edit-Alike :
    (d e : Edit)
    → AlikeEdit d e
    → ActAlike (λ x. descend_all d.0 (act d.1) x) (λ x. descend_all e.0 (act e.1) x)
edit-Alike (ts, a) (us, b) (e, h) x y r =
    subst (λ s. Both Alike (descend_all ts (act a) x) (descend_all s (act b) y)) e
      (descend_all-Alike (act a) (act b) (act-Alike a b h) ts x y r)

-- Patches that are alike do the same to values that are alike.
pub apply_patch-Alike :
    (os ps : List Op) → AlikeOps os ps → ActAlike (apply_patch os) (apply_patch ps)
unfolding apply_patch
apply_patch-Alike [] [] h x y r = r
apply_patch-Alike [] (p ∷ ps) h x y r = absurd h
apply_patch-Alike (o ∷ os) [] h x y r = absurd h
apply_patch-Alike (o ∷ os) (p ∷ ps) (ho, h) x y r =
    Both-bind _ _ _ _ (read_op o) (read_op p) (read_op-Alike o p ho) (λ d e q.
      Both-bind _ _ (apply_patch os) (apply_patch ps) (descend_all d.0 (act d.1) x)
        (descend_all e.0 (act e.1) y) (edit-Alike d e q x y r) (apply_patch-Alike os ps h))
