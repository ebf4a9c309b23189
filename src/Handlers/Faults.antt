-- ===== src/Handlers/Faults.antt =====
-- Which requests make the API throw or fault.
use kedge.Base.{
  ℕ, ◌+◌, ◌≡◌, refl, ◌∙◌, ◌≢◌, Bool, true, false, inl, inr, Option, none, some, ltb, length, drop,
  Bool-cases, Option-cases, if◌then◌else◌,
}
use kedge.Bytes.{Bytes, codes, starts_with, find, bytes_eq}
use kedge.Fault.{Result, done, out_of_range, bad_deref}
use kedge.Util.{HashText}
use kedge.HttpUtil.{Request, Response, Verb, ct_torrent, get, post}
use kedge.Json.{Json}
use kedge.Handlers.Shape.{
  strip_query_done, act_of_done, handle_torrent_short, handle_torrent_long, sb_call_outside,
  sb_call_inside,
}
use kedge.Handlers.{
  SheathOps, strip_query, torrent_by, with_hash, added, dir_of, or_empty, handle_torrent,
  handle_torrents, torrents_by, post_torrents, Route, torrents, torrent, run_route, route_of,
  sb_call, answer, is_get,
}

-- The result is a value, or a bad dereference for which the condition holds.
pub data Only {A : Type 0} (P : Type 0) : Result A → Type 0 where
  fine : (a : A) → Only P (done a)
  faulty : P → Only P bad_deref

Only-map : {A P Q : Type 0} {r : Result A} → (P → Q) → Only P r → Only Q r
Only-map f (fine a) = fine a
Only-map f (faulty p) = faulty (f p)

Only-if :
    {A P : Type 0} (b : Bool) {x y : Result A} → Only P x → Only P y → Only P (if b then x else y)
Only-if true hx hy = hx
Only-if false hx hy = hy

Only-cases : {A P : Type 0} {r : Result A} → Only P r → (r ≢ out_of_range) × (r ≡ bad_deref → P)
Only-cases (fine a) = (λ e. cc, λ e. cc)
Only-cases (faulty p) = (λ e. cc, λ e. p)

-- A POST without a Content-Length field.
abbrev pub IsUnsizedPost : Request → Type 0
IsUnsizedPost req = (req.method ≡ post) × (req.content_length ≡ none)

module _ (t : HashText) {S : Type 0} (ops : SheathOps t.Hash S) (serialize : Json → Bytes) where
  torrent_by_done :
      (v : Verb) (req : Request) (ih : t.Hash) (a : Bytes) (s : S)
      → Only ⊥ (torrent_by t ops serialize v req ih (done a) s)
  unfolding torrent_by
  torrent_by_done get req ih a s = fine _
  torrent_by_done v req ih a s = fine _

  with_hash_done :
      (req : Request) (a : Bytes) (ih : Option t.Hash) (s : S)
      → Only ⊥ (with_hash t ops serialize req (done a) ih s)
  with_hash_done req a none s = fine _
  with_hash_done req a (some ih) s = torrent_by_done req.method req ih a s

  handle_torrent_done :
      (req : Request) (offset : ℕ) (s : S) → Only ⊥ (handle_torrent t ops serialize req offset s)
  handle_torrent_done req offset s =
      let (path, e) = strip_query_done req.target in
      elim (Bool-cases (ltb (length path) (offset + 40))) [
        | inl short ↦ rw (handle_torrent_short t ops serialize req offset path s e short) (fine _)
        | inr long ↦
            let (a, same) = act_of_done (offset + 40) path in
            rw (handle_torrent_long t ops serialize req offset path s e long, same)
              (with_hash_done req a _ s)
      ]

  added-Only :
      {P : Type 0} (req : Request) (what : Bytes) (x : S × Bool)
      → Only P (added t ops serialize req what x)
  added-Only req what (s, true) = fine _
  added-Only req what (s, false) = fine _

  post_torrents-Only :
      (req : Request) (n : Option Bytes) (s : S)
      → Only (n ≡ none) (post_torrents t ops serialize req n s)
  unfolding post_torrents
  post_torrents-Only req none s = faulty refl
  post_torrents-Only req (some n) s =
      Only-if (bytes_eq (or_empty req.content_type) ct_torrent)
        (added-Only req (codes "failed to add with metainfo")
          (ops.add_torrent req.body (dir_of t ops serialize req s) s))
        (added-Only req (codes "failed to add with magnet") (ops.add_magnet req.body s))

  torrents_by-Only :
      (v : Verb) (req : Request) (s : S)
      → req.method ≡ v
      → Only (IsUnsizedPost req) (torrents_by t ops serialize v req s)
  unfolding torrents_by
  torrents_by-Only get req s e = fine _
  torrents_by-Only post req s e =
      Only-map (λ h. (e, h)) (post_torrents-Only req req.content_length s)
  torrents_by-Only v req s e = fine _

  answer-Only :
      {P : Type 0} {r : Result (S × Response)} → Only P r → Only P (answer t ops serialize r)
  answer-Only (fine a) = fine _
  answer-Only (faulty p) = faulty p

  run_route-Only :
      (r : Route) (req : Request) (s : S)
      → Only (IsUnsizedPost req) (run_route t ops serialize r req s)
  unfolding run_route handle_torrents
  run_route-Only torrents req s = answer-Only (torrents_by-Only req.method req s refl)
  run_route-Only torrent req s = answer-Only (Only-map absurd (handle_torrent_done req 13 s))
  run_route-Only r req s = fine _

  sb_call-Only : (req : Request) (s : S) → Only (IsUnsizedPost req) (sb_call t ops serialize req s)
  sb_call-Only req s = elim (Option-cases (find (codes "/api/") req.target)) [
    | inl e ↦ rw (sb_call_outside t ops serialize req s e) (fine _)
    | inr (i, e) ↦
        let (uri, same) = strip_query_done (drop 4 req.target) in
        rw (sb_call_inside t ops serialize req uri s i e same)
          (run_route-Only (route_of req.method uri) req s)
  ]

  -- No request makes the API throw std::out_of_range, and only a POST without a Content-Length
  -- field makes it dereference an end iterator.
  pub sb_call_faults :
      (req : Request) (s : S)
      → (sb_call t ops serialize req s ≢ out_of_range)
        × (sb_call t ops serialize req s ≡ bad_deref → IsUnsizedPost req)
  sb_call_faults req s = Only-cases (sb_call-Only req s)

  -- Every POST to /api/torrents without a Content-Length field makes the API dereference an end
  -- iterator.
  pub sb_call_unsized_post :
      (req : Request) (s : S)
      → req.target ≡ codes "/api/torrents"
      → IsUnsizedPost req
      → sb_call t ops serialize req s ≡ bad_deref
  unfolding find starts_with strip_query route_of is_get bytes_eq run_route handle_torrents
      post_torrents
  sb_call_unsized_post req s e (verb, missing) =
      sb_call_inside t ops serialize req (codes "/torrents") s 0 (rw e refl) (rw e refl)
      ∙ rw verb (rw missing refl)
