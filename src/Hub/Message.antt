-- ===== src/Hub/Message.antt =====
-- The messages of httpCaller as a client reads them: `join` sends the whole statistics, `doLoop` the
-- operations of a patch.
pub mod Read
use mathlib.Core.Option
use mathlib.Core.Path.{subst}
use kedge.Base.{ℕ, ◌≡◌, refl, sym, ap, true, Option, none, some, List, [], ◌∷◌, if◌then◌else◌, All}
use kedge.Bytes.{Bytes, codes, bytes_eq}
use kedge.Json.{
  Json, bool_, uint64, string, array, object, Items, nil, cons, Members, end, member, find_key,
}
use kedge.JsonDiff.{Op, replace, remove, add, op_json}
use kedge.JsonDiff.Alike.{Alike, AlikeItems, AlikeMembers, Both, find_key-Alike}
use kedge.JsonDiff.Alike.Ops.{AlikeOp, AlikeOps}
use kedge.JsonDiff.Patch.{apply_patch}
use kedge.JsonDiff.Plain.{plain_key, IsPlain, ArePlain}
use kedge.JsonDiff.Values.{HasPlain}
use kedge.Hub.{welcome, delta, ops_json}

abbrev pub text_of : Option Json → Option Bytes
text_of (some (string s)) = some s
text_of _ = none

abbrev pub as_op : Bytes → Bytes → Option Json → Option Op
as_op op path value =
    if bytes_eq op (codes "remove")
    then some (remove path)
    else if bytes_eq op (codes "replace")
    then Option.map (replace path) value
    else if bytes_eq op (codes "add")
    then Option.map (add path) value
    else none

-- An operation of RFC 6902, of the kinds that json_diff makes.
unfoldable pub json_op : Json → Option Op
unfolding find_key bytes_eq
json_op (object ms) = Option.bind (text_of (find_key (codes "op") ms)) (λ op.
    Option.bind (text_of (find_key (codes "path") ms))
      (λ path. as_op op path (find_key (codes "value") ms)))
json_op _ = none

abbrev pub put_first : Option Op → Option (List Op) → Option (List Op)
put_first none os = none
put_first (some o) none = none
put_first (some o) (some os) = some (o ∷ os)

unfoldable pub json_ops : Items → Option (List Op)
unfolding json_op
json_ops nil = some []
json_ops (cons x xs) = put_first (json_op x) (json_ops xs)

abbrev pub patched : Option Json → Option Json → Option Json
patched (some (array xs)) held =
    Option.bind (json_ops xs) (λ ops. Option.bind held (apply_patch ops))
patched _ held = none

-- What a client has after a message, from what it had.
unfoldable pub on_message : Json → Option Json → Option Json
unfolding find_key json_ops apply_patch
on_message (object ms) held = elim (find_key (codes "delta") ms) [
  | none ↦ find_key (codes "body") ms
  | some _ ↦ patched (find_key (codes "body") ms) held
]
on_message _ held = none
