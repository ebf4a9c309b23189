-- ===== src/JsonDiff/Keys.antt =====
-- The edits of one member of an object, by what is found at each key afterwards.
use mathlib.Core.Option
use kedge.Base.{
  ◌≡◌, refl, sym, ap, ◌∙◌, inl, inr, false, Option, none, some, List, arith, Bool-cases,
  if◌then◌else◌,
}
use kedge.Bytes.{Bytes, bytes_eq, bytes_eq_iff, bytes_eq_self}
use kedge.Json.{Json, object, Members, end, member, find_key}
use kedge.Json.Rows.{push_back, find_key-push_back}
use kedge.JsonDiff.Changes.{under}
use kedge.JsonDiff.Equal.{key_apart, bytes_eq-sym_false}
use kedge.JsonDiff.Focus.{IsFocus, apply_edits-under}
use kedge.JsonDiff.Patch.{Edit, remove_key, set_key, modify_key, apply_edits, descend}
use kedge.JsonDiff.Plain.{IsPlain, IsPlainKey, HavePlain}

pub find_key-set_key :
    (j k : Bytes) (v : Json) (us : Members)
    → find_key j (set_key k v us) ≡ (if bytes_eq k j then some v else find_key j us)
unfolding find_key set_key
find_key-set_key j k v end = refl
find_key-set_key j k v (member i w us) =
    ground (arith, bytes_eq_iff i k, bytes_eq_iff i j, bytes_eq_iff k j, find_key-set_key j k v us)

pub find_key-set_key_other :
    (j k : Bytes) (v : Json) (us : Members)
    → bytes_eq k j ≡ false
    → find_key j (set_key k v us) ≡ find_key j us
find_key-set_key_other j k v us n =
    find_key-set_key j k v us ∙ ap (λ b. if b then some v else find_key j us) n

pub find_key-set_key_same :
    (k : Bytes) (v : Json) (us : Members) → find_key k (set_key k v us) ≡ some v
find_key-set_key_same k v us =
    find_key-set_key k k v us ∙ ap (λ b. if b then some v else find_key k us) (bytes_eq_self k)

pub HavePlain-set_key :
    (k : Bytes) (v : Json) (us : Members)
    → IsPlainKey k
    → IsPlain v
    → HavePlain us
    → HavePlain (set_key k v us)
unfolding HavePlain set_key find_key
HavePlain-set_key k v end hk hv h = (hk, (refl, (hv, tt)))
HavePlain-set_key k v (member j w us) hk hv (hj, (d, (hw, h))) = elim (Bool-cases (bytes_eq j k)) [
  | inl y ↦ rw y (hj, (d, (hv, h)))
  | inr n ↦ rw n (
    hj,
    (
      find_key-set_key_other j k v us (bytes_eq-sym_false j k n) ∙ d,
      (hw, HavePlain-set_key k v us hk hv h),
    ),
  )
]

pub HavePlain-push_back :
    (us : Members) (k : Bytes) (v : Json)
    → find_key k us ≡ none
    → IsPlainKey k
    → IsPlain v
    → HavePlain us
    → HavePlain (push_back us k v)
unfolding HavePlain push_back find_key
HavePlain-push_back end k v n hk hv h = (hk, (refl, (hv, tt)))
HavePlain-push_back (member j w us) k v n hk hv (hj, (d, (hw, h))) =
    let (m, later) = key_apart k j w us n in
    (
      hj,
      (
        find_key-push_back us k j v later
            ∙ ap (λ b. if b then some v else find_key j us) (bytes_eq-sym_false j k m)
            ∙ d,
        (hw, HavePlain-push_back us k v later hk hv h),
      ),
    )

set_key_self : (k : Bytes) (v : Json) (us : Members) → find_key k us ≡ some v → set_key k v us ≡ us
unfolding set_key find_key
set_key_self k v end h = cc
set_key_self k v (member j w us) h = elim (Bool-cases (bytes_eq j k)) [
  | inl y ↦ let same : some w ≡ some v = rw y at h in let value : v ≡ w = cc in rw (y, value) refl
  | inr n ↦ rw n (ap (member j w) (set_key_self k v us (rw n at h)))
]

modify_key-set_key :
    (f : Json → Option Json) (k : Bytes) (v : Json) (us : Members)
    → modify_key f k (set_key k v us) ≡ Option.map (λ w. set_key k w us) (f v)
unfolding modify_key set_key
modify_key-set_key f k v end = rw (bytes_eq_self k) refl
modify_key-set_key f k v (member j w us) = elim (Bool-cases (bytes_eq j k)) [
  | inl y ↦ rw y (rw y refl)
  | inr n ↦ rw n (rw n (ap (Option.map (member j w)) (modify_key-set_key f k v us) ∙ map_map (f v)))
]
  where
    map_map :
        (o : Option Json)
        → Option.map (member j w) (Option.map (λ x. set_key k x us) o)
          ≡ Option.map (λ x. member j w (set_key k x us)) o
    map_map none = refl
    map_map (some x) = refl

set_key-IsFocus : (k : Bytes) (us : Members) → IsFocus k (λ v. object (set_key k v us))
unfolding descend
set_key-IsFocus k us f v = ap (Option.map object) (modify_key-set_key f k v us) ∙ outer (f v)
  where
    outer :
        (o : Option Json)
        → Option.map object (Option.map (λ x. set_key k x us) o)
          ≡ Option.map (λ x. object (set_key k x us)) o
    outer none = refl
    outer (some x) = refl

-- Edits that lead from a member's value to another one set that member.
pub apply_edits-member :
    (k : Bytes) (v w : Json) (us : Members) (es : List Edit)
    → find_key k us ≡ some v
    → apply_edits es v ≡ some w
    → apply_edits (under k es) (object us) ≡ some (object (set_key k w us))
apply_edits-member k v w us es s e =
    ap (λ ms. apply_edits (under k es) (object ms)) (sym (set_key_self k v us s))
    ∙ apply_edits-under k (λ x. object (set_key k x us)) (set_key-IsFocus k us) es v
    ∙ ap (Option.map (λ x. object (set_key k x us))) e

-- An object without one of its keys.
pub record Removed (k : Bytes) (us : Members) : Type 0 where
  pub left : Members
  pub removed : remove_key k us ≡ some left
  pub plain : HavePlain left
  pub gone : find_key k left ≡ none
  pub others : (j : Bytes) → bytes_eq k j ≡ false → find_key j left ≡ find_key j us

pub remove_key-Removed :
    (k : Bytes) (v : Json) (us : Members) → find_key k us ≡ some v → HavePlain us → Removed k us
unfolding remove_key find_key HavePlain
remove_key-Removed k v end s h = let wrong : ⊥ = cc in absurd wrong
remove_key-Removed k v (member i w us) s (hi, (d, (hw, h))) = elim (Bool-cases (bytes_eq i k)) [
  | inl y ↦
      let same : i ≡ k = (bytes_eq_iff i k).0 y in
      record {
        left = us;
        removed = rw y refl;
        plain = h;
        gone = ap (λ j. find_key j us) (sym same) ∙ d;
        others =
            λ j n. let n' : bytes_eq i j ≡ false = ap (λ l. bytes_eq l j) same ∙ n in rw n' refl;
      }
  | inr n ↦
      let r = remove_key-Removed k v us (rw n at s) h in
      record {
        left = member i w r.left;
        removed = rw n (rw r.removed refl);
        plain = (hi, (r.others i (bytes_eq-sym_false i k n) ∙ d, (hw, r.plain)));
        gone = rw n r.gone;
        others = λ j m. ap (λ o. if bytes_eq i j then some w else o) (r.others j m);
      }
]
