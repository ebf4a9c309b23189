-- ===== src/JsonDiff/Read.antt =====
-- The patch of json_diff, with its paths, reads as the edits between the two values.
use mathlib.Core.Option
use mathlib.Core.Path.{subst}
use kedge.Base.{
  ℕ, zero, suc, ◌≡◌, refl, sym, ap, ◌∙◌, inl, inr, Option, none, some, List, [], ◌∷◌, ◌++◌,
  append_assoc, ltb, if◌then◌else◌, Bool-cases, Option-cases,
}
use kedge.Bytes.{Bytes, codes, bytes_eq}
use kedge.Number.{to_string}
use kedge.Json.{
  Json, null, bool_, int64, uint64, double_, string, array, object, Items, nil, cons, Members, end,
  member, find_key, size_items, json_eq,
}
use kedge.JsonDiff.{
  Op, replace, add, at_index, at_key, removals, additions, drop_items, new_members, member_diff,
  json_diff, diff_items, diff_members,
}
use kedge.JsonDiff.Patch.{set, add_child, Edit, read_op, apply_edits, apply_patch}
use kedge.JsonDiff.Plain.{IsPlainKey, IsPlain, ArePlain, HavePlain}
use kedge.JsonDiff.Changes.{drops, appends, new_keys, member_edits, changes, item_edits, key_edits}
use kedge.JsonDiff.Reading.{
  Leads, Leads-nil, Leads-append, Reads, none_read, op_read, Reads-append, Reads-under,
  read-replace, read-remove, read-add, plain_index,
}

some_injective : (v w : Json) → some v ≡ some w → v ≡ w
some_injective v w e = cc

module _ (path : Bytes) (ts : List Bytes) (l : Leads path ts) where
  removals-Reads : (n m : ℕ) → Reads ts (removals path n m) (drops n m)
  unfolding removals drops
  removals-Reads n zero = none_read
  removals-Reads n (suc m) = elim (Bool-cases (ltb n (suc m))) [
    | inl y ↦ rw y (
        op_read _ _ [] _ _ (read-remove path ts l (to_string m) (plain_index m))
          (removals-Reads n m))
    | inr no_more ↦ rw no_more none_read
  ]

  read-add_end :
      (v : Json) → read_op (add (path ++ codes "/-") v) ≡ some (ts ++ [], add_child (codes "-") v)
  read-add_end v =
      ap (λ p. read_op (add p v)) (sym (append_assoc path (codes "/") (codes "-")))
      ∙ read-add path ts l (codes "-") v (((λ e. cc), (λ e. cc)), tt)

  additions-Reads : (xs : Items) → Reads ts (additions path xs) (appends xs)
  unfolding additions appends
  additions-Reads nil = none_read
  additions-Reads (cons x nil) = op_read _ _ [] _ _ (read-add_end x) none_read
  additions-Reads (cons x (cons y xs)) = op_read _ _ [] _ _ (read-add_end x) (additions-Reads xs)

  new_members-Reads :
      (src tgt : Members) → HavePlain tgt → Reads ts (new_members path src tgt) (new_keys src tgt)
  unfolding new_members new_keys HavePlain
  new_members-Reads src end h = none_read
  new_members-Reads src (member k v tgt) (hk, (_, (_, h))) =
      let rest = new_members-Reads src tgt h in
      elim (Option-cases (find_key k src)) [
        | inl n ↦
            rw (n, new_members, new_keys) (op_read _ _ [] _ _ (read-add path ts l k v hk) rest)
        | inr (x, s) ↦ rw (s, new_members, new_keys) rest
      ]

  -- Values that are replaced whole.
  whole-Reads :
      (s t : Json)
      → json_diff s t path ≡ (if json_eq s t then [] else replace path t ∷ [])
      → changes s t ≡ (if json_eq s t then [] else ([], set t) ∷ [])
      → Reads ts (json_diff s t path) (changes s t)
  whole-Reads s t d c =
      rw (d, c)
        (elim (Bool-cases (json_eq s t)) [
          | inl y ↦ rw y none_read
          | inr n ↦ rw n (op_read _ _ [] _ _ (read-replace path ts l t) none_read)
        ])

  member_diff-Reads :
      (f : Json → Bytes → List Op) (g : Json → List Edit) (o : Option Json) (k : Bytes)
      → IsPlainKey k
      → ((w : Json) → o ≡ some w → Reads (ts ++ k ∷ []) (f w (at_key path k)) (g w))
      → Reads ts (member_diff f o (at_key path k)) (member_edits g o k)
  member_diff-Reads f g none k hk r = op_read _ _ [] _ _ (read-remove path ts l k hk) none_read
  member_diff-Reads f g (some w) k hk r = Reads-under ts k _ _ (r w refl)

pub find_key-IsPlain :
    (k : Bytes) (ms : Members) (w : Json) → HavePlain ms → find_key k ms ≡ some w → IsPlain w
unfolding find_key HavePlain
find_key-IsPlain k end w h e = cc
find_key-IsPlain k (member j v ms) w (_, (_, (hv, h))) e = elim (Bool-cases (bytes_eq j k)) [
  | inl y ↦ let same : v ≡ w = some_injective v w (rw y at e) in subst IsPlain same hv
  | inr n ↦ find_key-IsPlain k ms w h (rw n at e)
]

mutual
  unfolding json_diff changes IsPlain

  json_diff-Reads :
      (s t : Json) (path : Bytes) (ts : List Bytes)
      → Leads path ts
      → IsPlain s
      → IsPlain t
      → Reads ts (json_diff s t path) (changes s t)
  json_diff-Reads null t path ts l h k = whole-Reads path ts l null t refl refl
  json_diff-Reads (bool_ a) t path ts l h k = whole-Reads path ts l (bool_ a) t refl refl
  json_diff-Reads (int64 a) t path ts l h k = whole-Reads path ts l (int64 a) t refl refl
  json_diff-Reads (uint64 a) t path ts l h k = whole-Reads path ts l (uint64 a) t refl refl
  json_diff-Reads (double_ a) t path ts l h k = whole-Reads path ts l (double_ a) t refl refl
  json_diff-Reads (string a) t path ts l h k = whole-Reads path ts l (string a) t refl refl
  json_diff-Reads (array xs) (array ys) path ts l h k =
      elim (Bool-cases (json_eq (array xs) (array ys))) [
        | inl y ↦ rw y none_read
        | inr n ↦ rw n (
            Reads-append ts _ _ _ _ (diff_items-Reads xs ys 0 path ts l h k) (
              Reads-append ts _ _ _ _ (removals-Reads path ts l (size_items ys) (size_items xs))
                (additions-Reads path ts l (drop_items (size_items xs) ys))))
      ]
  json_diff-Reads (array xs) null path ts l h k = whole-Reads path ts l (array xs) null refl refl
  json_diff-Reads (array xs) (bool_ a) path ts l h k =
      whole-Reads path ts l (array xs) (bool_ a) refl refl
  json_diff-Reads (array xs) (int64 a) path ts l h k =
      whole-Reads path ts l (array xs) (int64 a) refl refl
  json_diff-Reads (array xs) (uint64 a) path ts l h k =
      whole-Reads path ts l (array xs) (uint64 a) refl refl
  json_diff-Reads (array xs) (double_ a) path ts l h k =
      whole-Reads path ts l (array xs) (double_ a) refl refl
  json_diff-Reads (array xs) (string a) path ts l h k =
      whole-Reads path ts l (array xs) (string a) refl refl
  json_diff-Reads (array xs) (object ns) path ts l h k =
      whole-Reads path ts l (array xs) (object ns) refl refl
  json_diff-Reads (object ms) (object ns) path ts l h k =
      elim (Bool-cases (json_eq (object ms) (object ns))) [
        | inl y ↦ rw y none_read
        | inr n ↦ rw n (
            Reads-append ts _ _ _ _ (diff_members-Reads ms ns path ts l h k)
              (new_members-Reads path ts l ms ns k))
      ]
  json_diff-Reads (object ms) null path ts l h k = whole-Reads path ts l (object ms) null refl refl
  json_diff-Reads (object ms) (bool_ a) path ts l h k =
      whole-Reads path ts l (object ms) (bool_ a) refl refl
  json_diff-Reads (object ms) (int64 a) path ts l h k =
      whole-Reads path ts l (object ms) (int64 a) refl refl
  json_diff-Reads (object ms) (uint64 a) path ts l h k =
      whole-Reads path ts l (object ms) (uint64 a) refl refl
  json_diff-Reads (object ms) (double_ a) path ts l h k =
      whole-Reads path ts l (object ms) (double_ a) refl refl
  json_diff-Reads (object ms) (string a) path ts l h k =
      whole-Reads path ts l (object ms) (string a) refl refl
  json_diff-Reads (object ms) (array ys) path ts l h k =
      whole-Reads path ts l (object ms) (array ys) refl refl

  diff_items-Reads :
      (xs ys : Items) (i : ℕ) (path : Bytes) (ts : List Bytes)
      → Leads path ts
      → ArePlain xs
      → ArePlain ys
      → Reads ts (diff_items xs ys i path) (item_edits xs ys i)
  diff_items-Reads nil ys i path ts l h k = none_read
  diff_items-Reads (cons x xs) nil i path ts l h k = none_read
  diff_items-Reads (cons x xs) (cons y ys) i path ts l (hx, h) (ky, k) =
      Reads-append ts _ _ _ _
        (Reads-under ts (to_string i) _ _ (
          json_diff-Reads x y (at_index path i) (ts ++ to_string i ∷ [])
            (Leads-append path (to_string i) ts (plain_index i) l) hx ky))
        (diff_items-Reads xs ys (suc i) path ts l h k)

  diff_members-Reads :
      (ms ns : Members) (path : Bytes) (ts : List Bytes)
      → Leads path ts
      → HavePlain ms
      → HavePlain ns
      → Reads ts (diff_members ms ns path) (key_edits ms ns)
  diff_members-Reads end ns path ts l h k = none_read
  diff_members-Reads (member j v ms) ns path ts l (hj, (_, (hv, h))) k =
      Reads-append ts _ _ _ _
        (member_diff-Reads path ts l (json_diff v) (changes v) (find_key j ns) j hj (λ w e.
          json_diff-Reads v w (at_key path j) (ts ++ j ∷ []) (Leads-append path j ts hj l) hv
            (find_key-IsPlain j ns w k e)))
        (diff_members-Reads ms ns path ts l h k)

bind_cong :
    (o : Option Json) (f g : Json → Option Json)
    → ((j : Json) → f j ≡ g j)
    → Option.bind o f ≡ Option.bind o g
unfolding Option.bind
bind_cong none f g h = refl
bind_cong (some j) f g h = h j

-- A patch is applied as the edits that it stands for.
apply_patch-Reads :
    (ops : List Op) (es : List Edit) (j : Json)
    → Reads [] ops es
    → apply_patch ops j ≡ apply_edits es j
unfolding apply_patch apply_edits Option.bind
apply_patch-Reads _ _ j none_read = refl
apply_patch-Reads _ _ j (op_read op ops us a es e r) =
    rw e (bind_cong _ _ _ (λ x. apply_patch-Reads ops es x r))

pub apply_patch-json_diff :
    (s t v : Json)
    → IsPlain s
    → IsPlain t
    → apply_patch (json_diff s t []) v ≡ apply_edits (changes s t) v
apply_patch-json_diff s t v h k = apply_patch-Reads _ _ v (json_diff-Reads s t [] [] Leads-nil h k)
