-- ===== src/JsonDiff/Exact.antt =====
-- The patch of json_diff makes the source, and each value that equals it, equal to the target.
use mathlib.Core.Path.{subst}
use kedge.Base.{◌≡◌, refl, ◌∙◌, inl, inr, true, some, [], Option-cases, &&-eq-true}
use kedge.Json.{
  Json, null, bool_, int64, uint64, double_, string, array, object, Items, nil, cons, Members, end,
  member, find_key, json_eq, items_eq,
}
use kedge.JsonDiff.{json_diff}
use kedge.JsonDiff.Changes.{changes}
use kedge.JsonDiff.Equal.{json_eq_self}
use kedge.JsonDiff.Keys.{HavePlain-set_key, remove_key-Removed, find_key-set_key_other}
use kedge.JsonDiff.OneMember.{Holds-first, Holds-rest, lost_member, kept_member}
use kedge.JsonDiff.Patch.{append_items, apply_patch, set_key}
use kedge.JsonDiff.Plain.{IsPlain, ArePlain, HavePlain, HeldBy, Fits, FitItems, FitMembers}
use kedge.JsonDiff.Read.{find_key-IsPlain, apply_patch-json_diff}
use kedge.JsonDiff.SameKeys.{Agree, equal-SameKeys}
use kedge.JsonDiff.Steps.{
  Reaches, whole-Reaches, Changed, ChangedItems, object-Reaches, array-Reaches, item_step, no_items,
  no_targets, no_members, Holds, Agree-found,
}

equal-Holds :
    (ms us : Members)
    → HavePlain us
    → HavePlain ms
    → json_eq (object us) (object ms) ≡ true
    → Holds ms us
equal-Holds ms us p h e j v s = subst (Agree (find_key j us)) s (equal-SameKeys us ms p h e j)

mutual
  unfolding changes IsPlain Fits json_eq

  reaches :
      (s t v : Json)
      → IsPlain s
      → IsPlain t
      → IsPlain v
      → Fits s t
      → json_eq v s ≡ true
      → Reaches s t v
  reaches null t v h k p f e = whole-Reaches null t v refl k p e
  reaches (bool_ a) t v h k p f e = whole-Reaches (bool_ a) t v refl k p e
  reaches (int64 a) t v h k p f e = whole-Reaches (int64 a) t v refl k p e
  reaches (uint64 a) t v h k p f e = whole-Reaches (uint64 a) t v refl k p e
  reaches (double_ a) t v h k p f e = whole-Reaches (double_ a) t v refl k p e
  reaches (string a) t v h k p f e = whole-Reaches (string a) t v refl k p e
  reaches (array xs) (array ys) (array us) h k p (few, f) e =
      array-Reaches xs ys us k p few e (reaches_items xs ys us nil h k p f e)
  reaches (array xs) (array ys) v h k p f e = let wrong : ⊥ = cc in absurd wrong
  reaches (array xs) t v h k p f e = whole-Reaches (array xs) t v refl k p e
  reaches (object ms) (object ns) (object us) h k p f e =
      object-Reaches ms ns us h k p e (reaches_members ms ns us h k p f (equal-Holds ms us p h e))
  reaches (object ms) (object ns) v h k p f e = let wrong : ⊥ = cc in absurd wrong
  reaches (object ms) t v h k p f e = whole-Reaches (object ms) t v refl k p e

  reaches_items :
      (xs ys us pre : Items)
      → ArePlain xs
      → ArePlain ys
      → ArePlain us
      → FitItems xs ys
      → items_eq us xs ≡ true
      → ChangedItems xs ys us pre
  reaches_items nil ys nil pre h k p f e = no_items ys pre
  reaches_items nil ys (cons u us) pre h k p f e = let wrong : ⊥ = cc in absurd wrong
  reaches_items (cons x xs) ys nil pre h k p f e = let wrong : ⊥ = cc in absurd wrong
  reaches_items (cons x xs) nil (cons u us) pre h k p f e = no_targets x u xs us pre
  reaches_items (cons x xs) (cons y ys) (cons u us) pre (hx, h) (ky, k) (pu, p) (fx, f) e =
      let (first, rest) = &&-eq-true (json_eq u x) (items_eq us xs) e in
      let here = reaches x y u hx ky pu fx first in
      item_step x y u xs ys us pre here
        (reaches_items xs ys us (append_items pre (cons here.0 nil)) h k p f rest)

  reaches_members :
      (ms ns us : Members)
      → HavePlain ms
      → HavePlain ns
      → HavePlain us
      → FitMembers ms ns
      → Holds ms us
      → Changed ms ns us
  reaches_members end ns us h k p f held = no_members ns us p
  reaches_members (member j v ms) ns us (hj, (d, (hv, h))) k p (fv, f) held =
      let (u, there, equal) = Agree-found (find_key j us) v (Holds-first j v ms d us held) in
      elim (Option-cases (find_key j ns)) [
        | inl n ↦
            let r = remove_key-Removed j u us there p in
            lost_member j v ms d ns us r n (
              reaches_members ms ns r.left h k r.plain f
                (Holds-rest j v ms d us r.left r.others held))
        | inr (w, s) ↦
            let here =
              reaches v w u hv (find_key-IsPlain j ns w k s) (find_key-IsPlain j us u p there)
                (subst (HeldBy (Fits v)) s fv) equal in
            kept_member j v ms d ns us u w here s there (
              reaches_members ms ns (set_key j here.0 us) h k
                (HavePlain-set_key j here.0 us hj here.3 p) f
                (Holds-rest j v ms d us (set_key j here.0 us)
                  (λ i m. find_key-set_key_other i j here.0 us m) held))
      ]

-- The patch between two values, applied to a value that equals the first one.
pub apply_patch-Reaches :
    (s t v : Json)
    → IsPlain s
    → IsPlain t
    → IsPlain v
    → Fits s t
    → json_eq v s ≡ true
    → (r : Json) × (apply_patch (json_diff s t []) v ≡ some r) × (json_eq r t ≡ true) × IsPlain r
apply_patch-Reaches s t v h k p f e =
    let (r, applied, q, done) = reaches s t v h k p f e in
    (r, apply_patch-json_diff s t v h k ∙ applied, q, done)

-- If the keys in both values are all different in their objects and have no "/" and "~", no double
-- is NaN, and no array that stands at one place in both has more than one element more in the
-- target, then applying the patch of json_diff to the source, by RFC 6902, succeeds and gives a
-- value equal to the target.
pub json_diff-exact :
    (s t : Json)
    → IsPlain s
    → IsPlain t
    → Fits s t
    → (r : Json) × (apply_patch (json_diff s t []) s ≡ some r) × (json_eq r t ≡ true)
json_diff-exact s t h k f =
    let (r, applied, q, _) = apply_patch-Reaches s t s h k h f (json_eq_self s h) in (r, applied, q)
