-- ===== src/Handlers/Shape.antt =====
-- The handlers behind their calls of `substr`, none of which throws.
use kedge.Base.{
  ℕ, ◌+◌, ◌≤◌, ◌≡◌, refl, true, false, inl, inr, none, some, [], arith, ltb, length, take, drop,
  Bool-cases, Option-cases,
}
use kedge.Bytes.{Bytes, codes, find}
use kedge.Bytes.Laws.{find_bound, substr_fits, substr_from_fits}
use kedge.Fault.{done, ◌>>=◌}
use kedge.Util.{HashText, from_hex}
use kedge.HttpUtil.{make_resp_404, Request, Verb, put}
use kedge.Json.{Json}
use kedge.Handlers.{
  SheathOps, strip_query, act_of, with_hash, sized, handle_torrent, run_route, route_of, sb_call,
  session_toggle,
}

-- The path of a target, without the query string.
pub strip_query_done : (s : Bytes) → (u : Bytes) × (strip_query s ≡ done u)
unfolding strip_query
strip_query_done s = elim (Option-cases (find (codes "?") s)) [
  | inl e ↦ (s, rw (e, strip_query) refl)
  | inr (i, e) ↦ (take i s, rw (e, strip_query, substr_fits 0 i s (omega arith)) refl)
]

pub act_of_done : (n : ℕ) (s : Bytes) → (u : Bytes) × (act_of n s ≡ done u)
act_of_done n s = elim (Bool-cases (ltb (n + 1) (length s))) [
  | inl e ↦
      (drop (n + 1) s, (unfold act_of in rw (e, substr_from_fits (n + 1) s (ground arith)) refl))
  | inr e ↦ ([], (unfold act_of in rw e refl))
]

module _ (t : HashText) {S : Type 0} (ops : SheathOps t.Hash S) (serialize : Json → Bytes) where
  sized_lem :
      (req : Request) (offset : ℕ) (path : Bytes) (s : S)
      → ltb (length path) (offset + 40) ≡ false
      → sized t ops serialize req offset path s
        ≡ with_hash t ops serialize req
            (act_of (offset + 40) path)
            (from_hex t (take 40 (drop offset path)))
            s
  unfolding sized
  sized_lem req offset path s h = rw (h, substr_fits offset 40 path (ground arith)) refl

  -- A path that is too short gets a 404.
  pub handle_torrent_short :
      (req : Request) (offset : ℕ) (path : Bytes) (s : S)
      → strip_query req.target ≡ done path
      → ltb (length path) (offset + 40) ≡ true
      → handle_torrent t ops serialize req offset s ≡ done (s, make_resp_404 req)
  unfolding handle_torrent sized
  handle_torrent_short req offset path s e h = rw (e, ◌>>=◌, h) refl

  pub handle_torrent_long :
      (req : Request) (offset : ℕ) (path : Bytes) (s : S)
      → strip_query req.target ≡ done path
      → ltb (length path) (offset + 40) ≡ false
      → handle_torrent t ops serialize req offset s
        ≡ with_hash t ops serialize req
            (act_of (offset + 40) path)
            (from_hex t (take 40 (drop offset path)))
            s
  handle_torrent_long req offset path s e h =
      (unfold handle_torrent in rw (e, ◌>>=◌) (sized_lem req offset path s h))

  pub sb_call_outside :
      (req : Request) (s : S)
      → find (codes "/api/") req.target ≡ none
      → sb_call t ops serialize req s ≡ done (s, none)
  unfolding sb_call
  sb_call_outside req s h = rw (h, sb_call) refl

  pub sb_call_inside :
      (req : Request) (uri : Bytes) (s : S) (i : ℕ)
      → find (codes "/api/") req.target ≡ some i
      → strip_query (drop 4 req.target) ≡ done uri
      → sb_call t ops serialize req s ≡ run_route t ops serialize (route_of req.method uri) req s
  sb_call_inside req uri s i h e =
      let fits : 4 ≤ length req.target = omega (arith, find_bound (codes "/api/") req.target i h) in
      (unfold sb_call in rw (h, sb_call, substr_from_fits 4 req.target fits, ◌>>=◌, e) refl)

-- The toggling of the session is for PUT alone.
pub route_of-session_toggle : (v : Verb) (uri : Bytes) → route_of v uri ≡ session_toggle → v ≡ put
route_of-session_toggle put uri h = refl
route_of-session_toggle v uri h = unfold route_of in ground arith
