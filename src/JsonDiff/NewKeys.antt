-- ===== src/JsonDiff/NewKeys.antt =====
-- The edits that add the members whose keys the source lacks.
use mathlib.Core.Option
use kedge.Base.{
  ◌≡◌, refl, sym, ap, ◌∙◌, inl, inr, Option, none, some, Bool-cases, Option-cases, if◌then◌else◌,
}
use kedge.Bytes.{Bytes, bytes_eq, bytes_eq_iff}
use kedge.Json.{Json, object, Members, end, member, find_key}
use kedge.JsonDiff.Changes.{new_keys}
use kedge.JsonDiff.Patch.{set_key, add_at, act, apply_edits, descend_all}
use kedge.JsonDiff.Plain.{HavePlain}
use kedge.JsonDiff.Keys.{find_key-set_key, HavePlain-set_key}

-- What is found at a key once the new members are added: that of the target if the source lacks it.
abbrev pub added : Option Json → Option Json → Option Json → Option Json
added none (some w) old = some w
added none none old = old
added (some v) new old = old

pub record WithNew (src tgt us : Members) : Type 0 where
  pub all_added : Members
  pub applied : apply_edits (new_keys src tgt) (object us) ≡ some (object all_added)
  pub plain : HavePlain all_added
  pub found :
      (j : Bytes) → find_key j all_added ≡ added (find_key j src) (find_key j tgt) (find_key j us)

added_old : (o old : Option Json) → added o none old ≡ old
added_old none old = refl
added_old (some v) old = refl

pub new_keys-WithNew : (src tgt us : Members) → HavePlain tgt → HavePlain us → WithNew src tgt us
unfolding new_keys HavePlain find_key apply_edits descend_all act add_at Option.bind
new_keys-WithNew src end us h p = record {
  all_added = us;
  applied = refl;
  plain = p;
  found = λ j. sym (added_old (find_key j src) (find_key j us));
}
new_keys-WithNew src (member k v tgt) us (hk, (d, (hv, h))) p =
    elim (Option-cases (find_key k src)) [
      | inl n ↦
          let r = new_keys-WithNew src tgt (set_key k v us) h (HavePlain-set_key k v us hk hv p) in
          record {
            all_added = r.all_added;
            applied = rw (n, new_keys) r.applied;
            plain = r.plain;
            found = λ j. r.found j ∙ first n j;
          }
      | inr (w, s) ↦
          let r = new_keys-WithNew src tgt us h p in
          record {
            all_added = r.all_added;
            applied = rw (s, new_keys) r.applied;
            plain = r.plain;
            found = λ j. r.found j ∙ known w s j;
          }
    ]
  where
    first :
        find_key k src ≡ none
        → (j : Bytes)
        → added (find_key j src) (find_key j tgt) (find_key j (set_key k v us))
          ≡ added (find_key j src) (if bytes_eq k j then some v else find_key j tgt) (find_key j us)
    first n j = elim (Bool-cases (bytes_eq k j)) [
      | inl y ↦
          let same : k ≡ j = (bytes_eq_iff k j).0 y in
          let lacks : find_key j src ≡ none = ap (λ i. find_key i src) (sym same) ∙ n in
          let free : find_key j tgt ≡ none = ap (λ i. find_key i tgt) (sym same) ∙ d in
          rw (find_key-set_key j k v us, y, lacks, free) refl
      | inr m ↦ rw (find_key-set_key j k v us, m) refl
    ]

    known :
        (w : Json)
        → find_key k src ≡ some w
        → (j : Bytes)
        → added (find_key j src) (find_key j tgt) (find_key j us)
          ≡ added (find_key j src) (if bytes_eq k j then some v else find_key j tgt) (find_key j us)
    known w s j = elim (Bool-cases (bytes_eq k j)) [
      | inl y ↦
          let has : find_key j src ≡ some w =
            ap (λ i. find_key i src) (sym ((bytes_eq_iff k j).0 y)) ∙ s in
          rw has refl
      | inr m ↦ rw m refl
    ]
