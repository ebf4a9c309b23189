-- ===== src/Handlers/Safety.antt =====
-- GET and HEAD change nothing.
use kedge.Base.{
  ℕ, ◌+◌, ◌≡◌, refl, ◌≢◌, ◌⊎◌, Bool, true, false, inl, inr, Option, none, some, arith, ltb, length,
  drop, Bool-cases, Option-cases, if◌then◌else◌,
}
use kedge.Bytes.{Bytes, codes, find}
use kedge.Fault.{Result, done, out_of_range, bad_deref}
use kedge.Util.{HashText}
use kedge.HttpUtil.{Request, Response, Verb, get, post, put, head, delete_}
use kedge.Json.{Json}
use kedge.Handlers.Shape.{
  strip_query_done, act_of_done, handle_torrent_short, handle_torrent_long, sb_call_outside,
  sb_call_inside, route_of-session_toggle,
}
use kedge.Handlers.{
  SheathOps, torrent_by, with_hash, handle_torrent, handle_torrents, torrents_by, Route, torrents,
  torrent, session_toggle, run_route, route_of, sb_call, answer,
}

-- The methods that are to have no effect.
abbrev pub IsSafeVerb : Verb → Type 0
IsSafeVerb v = (v ≡ get) ⊎ (v ≡ head)

-- If the result is a value, the state in it is `s`.
pub data Leaves {S A : Type 0} (s : S) : Result (S × A) → Type 0 where
  same : (a : A) → Leaves s (done (s, a))
  thrown : Leaves s out_of_range
  fault : Leaves s bad_deref

Leaves-if :
    {S A : Type 0} {s : S} (b : Bool) {x y : Result (S × A)}
    → Leaves s x
    → Leaves s y
    → Leaves s (if b then x else y)
Leaves-if true hx hy = hx
Leaves-if false hx hy = hy

not_put : (v : Verb) → IsSafeVerb v → v ≢ put
not_put v h e = ground arith

module _ (t : HashText) {S : Type 0} (ops : SheathOps t.Hash S) (serialize : Json → Bytes) where
  torrent_by-Leaves :
      (v : Verb) (req : Request) (ih : t.Hash) (a : Bytes) (s : S)
      → IsSafeVerb v
      → Leaves s (torrent_by t ops serialize v req ih (done a) s)
  unfolding torrent_by
  torrent_by-Leaves get req ih a s h = same _
  torrent_by-Leaves head req ih a s h = same _
  torrent_by-Leaves put req ih a s h = absurd (ground arith)
  torrent_by-Leaves delete_ req ih a s h = absurd (ground arith)
  torrent_by-Leaves v req ih a s h = same _

  with_hash-Leaves :
      (req : Request) (a : Bytes) (ih : Option t.Hash) (s : S)
      → IsSafeVerb req.method
      → Leaves s (with_hash t ops serialize req (done a) ih s)
  with_hash-Leaves req a none s h = same _
  with_hash-Leaves req a (some ih) s h = torrent_by-Leaves req.method req ih a s h

  handle_torrent-Leaves :
      (req : Request) (offset : ℕ) (s : S)
      → IsSafeVerb req.method
      → Leaves s (handle_torrent t ops serialize req offset s)
  handle_torrent-Leaves req offset s h =
      let (path, e) = strip_query_done req.target in
      elim (Bool-cases (ltb (length path) (offset + 40))) [
        | inl short ↦ rw (handle_torrent_short t ops serialize req offset path s e short) (same _)
        | inr long ↦
            let (a, act) = act_of_done (offset + 40) path in
            rw (handle_torrent_long t ops serialize req offset path s e long, act)
              (with_hash-Leaves req a _ s h)
      ]

  torrents_by-Leaves :
      (v : Verb) (req : Request) (s : S)
      → IsSafeVerb v
      → Leaves s (torrents_by t ops serialize v req s)
  unfolding torrents_by
  torrents_by-Leaves get req s h = same _
  torrents_by-Leaves post req s h = absurd (ground arith)
  torrents_by-Leaves v req s h = same _

  answer-Leaves :
      {s : S} {r : Result (S × Response)} → Leaves s r → Leaves s (answer t ops serialize r)
  answer-Leaves (same a) = same _
  answer-Leaves thrown = thrown
  answer-Leaves fault = fault

  run_route-Leaves :
      (r : Route) (req : Request) (s : S)
      → IsSafeVerb req.method
      → r ≢ session_toggle
      → Leaves s (run_route t ops serialize r req s)
  unfolding run_route handle_torrents
  run_route-Leaves torrents req s h n = answer-Leaves (torrents_by-Leaves req.method req s h)
  run_route-Leaves torrent req s h n = answer-Leaves (handle_torrent-Leaves req 13 s h)
  run_route-Leaves session_toggle req s h n = absurd (n refl)
  run_route-Leaves r req s h n = same _

  -- A request with the method GET or HEAD leaves the state of the program as it was, whatever its
  -- target: no torrent is added, dropped, paused or resumed, and the session is not toggled.
  pub sb_call_safe :
      (req : Request) (s : S) → IsSafeVerb req.method → Leaves s (sb_call t ops serialize req s)
  sb_call_safe req s h = elim (Option-cases (find (codes "/api/") req.target)) [
    | inl e ↦ rw (sb_call_outside t ops serialize req s e) (same _)
    | inr (i, e) ↦
        let (uri, path) = strip_query_done (drop 4 req.target) in
        rw (sb_call_inside t ops serialize req uri s i e path) (
          run_route-Leaves (route_of req.method uri) req s h
            (λ e. not_put req.method h (route_of-session_toggle req.method uri e)))
  ]
