-- ===== src/Handlers/Actions.antt =====
-- What a request for one torrent does, for each method, and requests routed by a query string.
use kedge.Base.{
  ℕ, ◌≡◌, ◌≢◌, ◌↔◌, refl, sym, ap, ◌∙◌, ◌⊎◌, Bool, true, false, ◌||◌, inl, inr, some, ◌∷◌, ◌++◌,
  arith, Bool-cases, if◌then◌else◌,
}
use kedge.Bytes.{Bytes, codes, find, bytes_eq, bytes_eq_iff, starts_with}
use kedge.Bytes.Laws.{substr_fits}
use kedge.Fault.{done, throwing}
use kedge.Util.{HashText, IsHexText}
use kedge.HttpUtil.{Request, Verb, get, put, head, delete_, make_resp_204, make_resp_404}
use kedge.Json.{Json}
use kedge.Handlers.Shape.{sb_call_inside}
use kedge.Handlers.Torrent.{NoQuery, torrent_target, sb_call-target}
use kedge.Handlers.{
  SheathOps, strip_query, torrent_by, handle_torrents, is_null, json_resp, route_of, run_route,
  answer, sb_call, put_torrent, flag_of, QueryFlag, query_basic, query_peers, query_files,
}

-- What a PUT does to the state, by its action.
pub data PutEffect {Hash S : Type 0} (ops : SheathOps Hash S) (h : Hash) (act : Bytes) (s : S)
    : S → Type 0 where
  flips :
      (act ≡ codes "toggle") ⊎ (act ≡ codes "pause")
      → PutEffect ops h act s (ops.pause_resume_torrent h s).0
  starts :
      (act ≡ codes "start") ⊎ (act ≡ codes "resume")
      → PutEffect ops h act s (ops.resume_torrent h s).0
  ignored :
      act ≢ codes "toggle"
      → act ≢ codes "pause"
      → act ≢ codes "start"
      → act ≢ codes "resume"
      → PutEffect ops h act s s

-- The part of a torrent that a GET asks for.
pub data Asks (act : Bytes) : QueryFlag → Type 0 where
  peers : act ≡ codes "peers" → Asks act query_peers
  files : act ≡ codes "files" → Asks act query_files
  basic : act ≢ codes "peers" → act ≢ codes "files" → Asks act query_basic

bytes_eq→eq : (s t : Bytes) → bytes_eq s t ≡ true → t ≡ s
bytes_eq→eq s t h = sym ((bytes_eq_iff s t).0 h)

bytes_eq→ne : (s t : Bytes) → bytes_eq s t ≡ false → t ≢ s
bytes_eq→ne s t h e = ground (arith, (bytes_eq_iff s t).1 (sym e))

one_of : (s t u : Bytes) → (bytes_eq s u || bytes_eq t u) ≡ true → (u ≡ s) ⊎ (u ≡ t)
one_of s t u h = elim (Bool-cases (bytes_eq s u)) [
  | inl e ↦ inl (bytes_eq→eq s u e)
  | inr e ↦ inr (bytes_eq→eq t u (rw e at h))
]

none_of : (s t u : Bytes) → (bytes_eq s u || bytes_eq t u) ≡ false → (u ≢ s) × (u ≢ t)
none_of s t u h = (bytes_eq→ne s u (ground arith), bytes_eq→ne t u (ground arith))

flag_of-Asks : (act : Bytes) → Asks act (flag_of act)
unfolding flag_of
flag_of-Asks act = elim (Bool-cases (bytes_eq (codes "peers") act)) [
  | inl e ↦ rw e (peers (bytes_eq→eq _ act e))
  | inr e ↦ rw e (elim (Bool-cases (bytes_eq (codes "files") act)) [
    | inl f ↦ rw f (files (bytes_eq→eq _ act f))
    | inr f ↦ rw f (basic (bytes_eq→ne _ act e) (bytes_eq→ne _ act f))
  ])
]

module _ (t : HashText) {S : Type 0} (ops : SheathOps t.Hash S) (serialize : Json → Bytes) where
  put_torrent-PutEffect :
      (h : t.Hash) (act : Bytes) (s : S)
      → PutEffect ops h act s (put_torrent t ops serialize h act s)
  unfolding put_torrent
  put_torrent-PutEffect h act s =
      elim (Bool-cases (bytes_eq (codes "toggle") act || bytes_eq (codes "pause") act)) [
        | inl e ↦ rw e (flips (one_of _ _ act e))
        | inr e ↦
            rw e
              (elim (Bool-cases (bytes_eq (codes "start") act || bytes_eq (codes "resume") act)) [
                | inl f ↦ rw f (starts (one_of _ _ act f))
                | inr f ↦
                    let (a, b) = none_of (codes "toggle") (codes "pause") act e in
                    let (c, d) = none_of (codes "start") (codes "resume") act f in
                    rw f (ignored a b c d)
              ])
      ]

  module _ (laws : IsHexText t) (h : t.Hash) (act : Bytes) (clean : NoQuery act) (req : Request)
      (s : S) (path : req.target ≡ torrent_target t laws h act clean) where
    -- A PUT to /api/torrent/{hash}/{act}, for a hash in the hex text of the library and an action
    -- without "?", is answered with 204; "toggle" and "pause" pause or resume the torrent, "start"
    -- and "resume" force it to start, and no other action changes anything.
    pub sb_call_put :
        req.method ≡ put
        → (s' : S) × PutEffect ops h act s s'
          × (sb_call t ops serialize req s ≡ done (s', some (make_resp_204 req)))
    unfolding torrent_by
    sb_call_put m = (
      put_torrent t ops serialize h act s,
      put_torrent-PutEffect h act s,
      sb_call-target t laws h act clean ops serialize req s path ∙ rw m refl,
    )

    -- A DELETE of /api/torrent/{hash}/{act}, for a hash in the hex text of the library and an
    -- action without "?", drops the torrent, with its data exactly for the actions "yes" and
    -- "with_data", and is answered with 204 whether or not there was such a torrent.
    pub sb_call_delete :
        req.method ≡ delete_
        → (with_data : Bool) × ((with_data ≡ true)
            ↔ ((act ≡ codes "yes") ⊎ (act ≡ codes "with_data")))
          × (sb_call t ops serialize req s
              ≡ done ((ops.drop_torrent h with_data s).0, some (make_resp_204 req)))
    unfolding torrent_by
    sb_call_delete m = (
      bytes_eq (codes "yes") act || bytes_eq (codes "with_data") act,
      (
        one_of _ _ act,
        λ e. ground (arith, bytes_eq_iff (codes "yes") act, bytes_eq_iff (codes "with_data") act),
      ),
      sb_call-target t laws h act clean ops serialize req s path ∙ rw m refl,
    )

    -- A HEAD there is answered with 204 if the torrent is known and with 404 if it is not.
    pub sb_call_head :
        req.method ≡ head
        → sb_call t ops serialize req s
          ≡ done (s, some (if ops.exists h s then make_resp_204 req else make_resp_404 req))
    unfolding torrent_by
    sb_call_head m = sb_call-target t laws h act clean ops serialize req s path ∙ rw m refl

    -- A GET of /api/torrent/{hash}/{act}, for a hash in the hex text of the library and an action
    -- without "?", is answered with the peers, the files or the status of the torrent in JSON, as
    -- the action says, or with 404 if that is null; the state stays.
    pub sb_call_get :
        req.method ≡ get
        → (flag : QueryFlag) × Asks act flag
          × (sb_call t ops serialize req s
              ≡ done (
                s,
                some (
                    if is_null (ops.torrent h flag s)
                    then make_resp_404 req
                    else json_resp t ops serialize req (ops.torrent h flag s)),
              ))
    unfolding torrent_by
    sb_call_get m = (
      flag_of act,
      flag_of-Asks act,
      sb_call-target t laws h act clean ops serialize req s path ∙ rw m refl,
    )

  -- A target of four bytes, "/torrents" and a query string is answered as /api/torrents whatever
  -- the four bytes are, if "/api/" occurs anywhere in it.
  pub sb_call_misrouted :
      (req : Request) (s : S) (a b c d i : ℕ) (query : Bytes)
      → req.target ≡ a ∷ b ∷ c ∷ d ∷ (codes "/torrents" ++ b'?' ∷ query)
      → find (codes "/api/") req.target ≡ some i
      → sb_call t ops serialize req s
        ≡ answer t ops serialize (handle_torrents t ops serialize req s)
  unfolding find starts_with route_of bytes_eq run_route strip_query
  sb_call_misrouted req s a b c d i query e f =
      sb_call_inside t ops serialize req (codes "/torrents") s i f
        (rw e (ap throwing (substr_fits 0 9 (codes "/torrents" ++ b'?' ∷ query) (omega arith))))
      ∙ listed req.method
    where
      listed :
          (v : Verb)
          → run_route t ops serialize (route_of v (codes "/torrents")) req s
            ≡ answer t ops serialize (handle_torrents t ops serialize req s)
      listed get = refl
      listed v = refl
