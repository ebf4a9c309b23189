-- ===== src/Handlers/Responses.antt =====
-- The frame of every response of the API.
use kedge.Base.{
  ℕ, ◌+◌, ◌≡◌, refl, Bool, true, false, inl, inr, Option, none, some, [], arith, ltb, length,
  Bool-cases, Option-cases, if◌then◌else◌, drop,
}
use kedge.Bytes.{Bytes, codes, find, bytes_eq}
use kedge.Fault.{Result, done, out_of_range, bad_deref}
use kedge.Util.{HashText}
use kedge.HttpUtil.{
  Request, Response, Verb, get, post, put, head, delete_, Status, no_content, server_signature,
  make_resp, make_resp_204, make_resp_400, make_resp_404, make_resp_500, ct_torrent, is_no_content,
}
use kedge.Json.{Json}
use kedge.Handlers.Shape.{
  strip_query_done, act_of_done, handle_torrent_short, handle_torrent_long, sb_call_outside,
  sb_call_inside,
}
use kedge.Handlers.{
  SheathOps, json_resp, torrent_by, with_hash, added, dir_of, or_empty, handle_torrent,
  handle_torrents, torrents_by, post_torrents, Route, torrents, torrent, no_route, run_route,
  route_of, sb_call, answer,
}

-- The response belongs to the request, announces the size of its body, and has no body if its status
-- is 204.
pub record IsFramed (req : Request) (r : Response) : Type 0 where
  pub version : r.version ≡ req.version
  pub keep_alive : r.keep_alive ≡ req.keep_alive
  pub server : r.server ≡ server_signature
  pub sized : r.content_length ≡ length r.body
  pub empty : r.status ≡ no_content → r.body ≡ []

-- A response, if there is one, is framed.
pub data Answers {S : Type 0} (req : Request) : Result (S × Option Response) → Type 0 where
  framed : (s : S) {r : Response} → IsFramed req r → Answers req (done (s, some r))
  no_answer : (s : S) → Answers req (done (s, none))
  thrown : Answers req out_of_range
  fault : Answers req bad_deref

make_resp_204-IsFramed : (req : Request) → IsFramed req (make_resp_204 req)
unfolding make_resp_204
make_resp_204-IsFramed req = record {
  version = refl;
  keep_alive = refl;
  server = refl;
  sized = refl;
  empty = λ _. refl;
}

make_resp-IsFramed :
    (req : Request) (body ct : Bytes) (sc : Status)
    → is_no_content sc ≡ false
    → IsFramed req (make_resp req body ct sc)
unfolding make_resp
make_resp-IsFramed req body ct sc h = record {
  version = refl;
  keep_alive = refl;
  server = refl;
  sized = rw h refl;
  empty = λ e. ground arith;
}

if-IsFramed :
    (req : Request) (b : Bool) {x y : Response}
    → IsFramed req x
    → IsFramed req y
    → IsFramed req (if b then x else y)
if-IsFramed req true hx hy = hx
if-IsFramed req false hx hy = hy

make_resp_404-IsFramed : (req : Request) → IsFramed req (make_resp_404 req)
unfolding make_resp_404
make_resp_404-IsFramed req = make_resp-IsFramed req _ _ _ refl

make_resp_400-IsFramed : (req : Request) (why : Bytes) → IsFramed req (make_resp_400 req why)
unfolding make_resp_400
make_resp_400-IsFramed req why = make_resp-IsFramed req _ _ _ refl

make_resp_500-IsFramed : (req : Request) (what : Bytes) → IsFramed req (make_resp_500 req what)
unfolding make_resp_500
make_resp_500-IsFramed req what = make_resp-IsFramed req _ _ _ refl

module _ (t : HashText) {S : Type 0} (ops : SheathOps t.Hash S) (serialize : Json → Bytes)
    (req : Request) where
  json_resp-IsFramed : (v : Json) → IsFramed req (json_resp t ops serialize req v)
  unfolding json_resp
  json_resp-IsFramed v = make_resp-IsFramed req _ _ _ refl

  torrent_by_framed :
      (v : Verb) (ih : t.Hash) (a : Bytes) (s : S)
      → Answers req (answer t ops serialize (torrent_by t ops serialize v req ih (done a) s))
  unfolding torrent_by
  torrent_by_framed head ih a s =
      framed _ (if-IsFramed req _ (make_resp_204-IsFramed req) (make_resp_404-IsFramed req))
  torrent_by_framed get ih a s =
      framed _ (if-IsFramed req _ (make_resp_404-IsFramed req) (json_resp-IsFramed _))
  torrent_by_framed delete_ ih a s = framed _ (make_resp_204-IsFramed req)
  torrent_by_framed put ih a s = framed _ (make_resp_204-IsFramed req)
  torrent_by_framed v ih a s = framed _ (make_resp_400-IsFramed req (codes "Unsupported method"))

  with_hash_framed :
      (a : Bytes) (ih : Option t.Hash) (s : S)
      → Answers req (answer t ops serialize (with_hash t ops serialize req (done a) ih s))
  with_hash_framed a none s = framed _ (make_resp_400-IsFramed req _)
  with_hash_framed a (some ih) s = torrent_by_framed req.method ih a s

  handle_torrent_framed :
      (offset : ℕ) (s : S)
      → Answers req (answer t ops serialize (handle_torrent t ops serialize req offset s))
  handle_torrent_framed offset s =
      let (path, e) = strip_query_done req.target in
      elim (Bool-cases (ltb (length path) (offset + 40))) [
        | inl short ↦
            rw (handle_torrent_short t ops serialize req offset path s e short)
              (framed _ (make_resp_404-IsFramed req))
        | inr long ↦
            let (a, act) = act_of_done (offset + 40) path in
            rw (handle_torrent_long t ops serialize req offset path s e long, act)
              (with_hash_framed a _ s)
      ]

  added_framed :
      (what : Bytes) (x : S × Bool)
      → Answers req (answer t ops serialize (added t ops serialize req what x))
  added_framed what (s, true) = framed _ (make_resp_204-IsFramed req)
  added_framed what (s, false) = framed _ (make_resp_500-IsFramed req _)

  post_torrents_framed :
      (n : Option Bytes) (s : S)
      → Answers req (answer t ops serialize (post_torrents t ops serialize req n s))
  unfolding post_torrents
  post_torrents_framed none s = fault
  post_torrents_framed (some n) s =
      elim (Bool-cases (bytes_eq (or_empty req.content_type) ct_torrent)) [
        | inl e ↦ rw e (
            added_framed (codes "failed to add with metainfo")
              (ops.add_torrent req.body (dir_of t ops serialize req s) s))
        | inr e ↦
            rw e (added_framed (codes "failed to add with magnet") (ops.add_magnet req.body s))
      ]

  torrents_by_framed :
      (v : Verb) (s : S)
      → Answers req (answer t ops serialize (torrents_by t ops serialize v req s))
  unfolding torrents_by
  torrents_by_framed get s = framed _ (json_resp-IsFramed _)
  torrents_by_framed post s = post_torrents_framed req.content_length s
  torrents_by_framed v s = framed _ (make_resp_400-IsFramed req (codes "Unsupported method"))

  run_route_framed : (r : Route) (s : S) → Answers req (run_route t ops serialize r req s)
  unfolding run_route handle_torrents
  run_route_framed torrents s = torrents_by_framed req.method s
  run_route_framed torrent s = handle_torrent_framed 13 s
  run_route_framed no_route s = no_answer s
  run_route_framed r s = framed _ (json_resp-IsFramed _)

  -- Every response of the API has the request's version and keep-alive flag, the server's signature
  -- and the size of its body as its length, and no body if its status is 204.
  pub sb_call_framed : (s : S) → Answers req (sb_call t ops serialize req s)
  sb_call_framed s = elim (Option-cases (find (codes "/api/") req.target)) [
    | inl e ↦ rw (sb_call_outside t ops serialize req s e) (no_answer s)
    | inr (i, e) ↦
        let (uri, path) = strip_query_done (drop 4 req.target) in
        rw (sb_call_inside t ops serialize req uri s i e path)
          (run_route_framed (route_of req.method uri) s)
  ]
