-- ===== src/JsonDiff/Reading.antt =====
-- The paths that json_diff writes lead to the places of its edits.
use mathlib.Core.Option
use kedge.Base.{
  ℕ, ◌≡◌, refl, sym, ap, ◌∙◌, ◌≢◌, inl, inr, false, Option, some, List, [], ◌∷◌, ◌++◌, append_assoc,
  append-nil, arith, All, All-append, Bool-cases, ◌==◌,
}
use kedge.Bytes.{Bytes, codes}
use kedge.Number.{to_string}
use kedge.Number.Decimal.{IsDigit, to_string-IsDigit}
use kedge.Json.{Json}
use kedge.JsonDiff.{Op, replace, remove, add, at_key}
use kedge.JsonDiff.Patch.{
  split_slashes, unescape, unescape_all, pointer, split_last, Action, set, drop_child, add_child,
  Edit, read_op,
}
use kedge.JsonDiff.Plain.{IsPlainKey}
use kedge.JsonDiff.Changes.{under}

pub differs : (a b : ℕ) → a ≢ b → (a == b) ≡ false
differs a b n = ground arith

split_slashes_plain : (k : Bytes) → IsPlainKey k → split_slashes k ≡ (k, [])
unfolding split_slashes
split_slashes_plain [] h = refl
split_slashes_plain (c ∷ k) (hc, h) =
    let rest = split_slashes_plain k h in rw (differs c 47 hc.0, rest) refl

unescape_plain : (k : Bytes) → IsPlainKey k → unescape k ≡ k
unfolding unescape
unescape_plain [] h = refl
unescape_plain (c ∷ []) h = refl
unescape_plain (c ∷ d ∷ k) (hc, h) = rw (differs c 126 hc.1, unescape_plain (d ∷ k) h) refl

split_slashes-append :
    (path k : Bytes)
    → IsPlainKey k
    → split_slashes (path ++ 47 ∷ k) ≡ ((split_slashes path).0, (split_slashes path).1 ++ k ∷ [])
unfolding split_slashes
split_slashes-append [] k h = rw (split_slashes_plain k h) refl
split_slashes-append (c ∷ path) k h = elim (Bool-cases (c == 47)) [
  | inl y ↦ rw (y, split_slashes-append path k h) refl
  | inr n ↦ rw (n, split_slashes-append path k h) refl
]

abbrev pub IsLiteral : Bytes → Type 0
IsLiteral t = unescape t ≡ t

-- The path leads to the place, whose tokens stand for themselves.
pub record Leads (path : Bytes) (ts : List Bytes) : Type 0 where
  pub split : split_slashes path ≡ ([], ts)
  pub plain : All IsLiteral ts

pub Leads-nil : Leads [] []
unfolding split_slashes unescape_all
Leads-nil = record { split = refl; plain = tt }

unescape_all_literal : (ts : List Bytes) → All IsLiteral ts → unescape_all ts ≡ ts
unfolding unescape_all
unescape_all_literal [] h = refl
unescape_all_literal (t ∷ ts) (e, h) = rw (e, unescape_all_literal ts h) refl

pub Leads-append :
    (path k : Bytes) (ts : List Bytes)
    → IsPlainKey k
    → Leads path ts
    → Leads (at_key path k) (ts ++ k ∷ [])
Leads-append path k ts h l = record {
  split =
      ap split_slashes (append_assoc path (codes "/") k)
      ∙ split_slashes-append path k h
      ∙ ap (λ (w, ws). (w, ws ++ k ∷ [])) l.split;
  plain = All-append IsLiteral ts (k ∷ []) l.plain (unescape_plain k h, tt);
}

pointer_of : (path : Bytes) (ts : List Bytes) → Leads path ts → pointer path ≡ some ts
unfolding pointer
pointer_of path ts l = rw (l.split, unescape_all_literal ts l.plain) refl

split_last-append : (ts : List Bytes) (k : Bytes) → split_last (ts ++ k ∷ []) ≡ some (ts, k)
unfolding split_last
split_last-append [] k = refl
split_last-append (t ∷ ts) k = rw (split_last-append ts k) refl

-- The operations stand for the edits, from the place with these tokens.
pub data Reads (ts : List Bytes) : List Op → List Edit → Type 0 where
  none_read : Reads ts [] []
  op_read :
      (op : Op) (ops : List Op) (us : List Bytes) (a : Action) (es : List Edit)
      → read_op op ≡ some (ts ++ us, a)
      → Reads ts ops es
      → Reads ts (op ∷ ops) ((us, a) ∷ es)

pub Reads-append :
    (ts : List Bytes) (ops ops' : List Op) (es es' : List Edit)
    → Reads ts ops es
    → Reads ts ops' es'
    → Reads ts (ops ++ ops') (es ++ es')
Reads-append ts _ ops' _ es' none_read s = s
Reads-append ts _ ops' _ es' (op_read op ops us a es e r) s =
    op_read op (ops ++ ops') us a (es ++ es') e (Reads-append ts ops ops' es es' r s)

pub Reads-under :
    (ts : List Bytes) (t : Bytes) (ops : List Op) (es : List Edit)
    → Reads (ts ++ t ∷ []) ops es
    → Reads ts ops (under t es)
unfolding under
Reads-under ts t _ _ none_read = none_read
Reads-under ts t _ _ (op_read op ops us a es e r) =
    op_read op ops (t ∷ us) a (under t es) (e ∙ ap (λ x. some (x, a)) (append_assoc ts (t ∷ []) us))
      (Reads-under ts t ops es r)

pub here_ :
    (ts : List Bytes) (a : Action) → ◌≡◌ {A = Option Edit} (some (ts, a)) (some (ts ++ [], a))
here_ ts a = ap (λ x. some (x, a)) (sym (append-nil ts))

module _ (path : Bytes) (ts : List Bytes) (l : Leads path ts) where
  pub read-replace : (v : Json) → read_op (replace path v) ≡ some (ts ++ [], set v)
  unfolding read_op Option.bind
  read-replace v = rw (pointer_of path ts l) (here_ ts (set v))

  pub read-remove :
      (k : Bytes) → IsPlainKey k → read_op (remove (at_key path k)) ≡ some (ts ++ [], drop_child k)
  unfolding read_op Option.bind
  read-remove k h =
      rw (pointer_of _ _ (Leads-append path k ts h l))
        (rw (split_last-append ts k) (here_ ts (drop_child k)))

  pub read-add :
      (k : Bytes) (v : Json)
      → IsPlainKey k
      → read_op (add (at_key path k) v) ≡ some (ts ++ [], add_child k v)
  unfolding read_op Option.bind
  read-add k v h =
      rw (pointer_of _ _ (Leads-append path k ts h l))
        (rw (split_last-append ts k) (here_ ts (add_child k v)))

plain_digits : (s : Bytes) → All IsDigit s → IsPlainKey s
plain_digits [] h = tt
plain_digits (c ∷ s) (hc, h) =
    ((λ e. omega (arith, e, hc), λ e. omega (arith, e, hc)), plain_digits s h)

pub plain_index : (i : ℕ) → IsPlainKey (to_string i)
plain_index i = plain_digits (to_string i) (to_string-IsDigit i)
