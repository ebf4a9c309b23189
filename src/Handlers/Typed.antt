-- ===== src/Handlers/Typed.antt =====
-- The bodies of the API's answers, by the shapes of what the operations give.
use kedge.Base.{
  ◌≡◌, refl, Bool, true, false, inl, inr, Option, none, some, [], ◌∷◌, arith, ltb, length, drop,
  Bool-cases, Option-cases,
}
use kedge.Bytes.{Bytes, codes, find, bytes_eq}
use kedge.Fault.{Result, done, out_of_range, bad_deref}
use kedge.Util.{HashText}
use kedge.HttpUtil.{
  Request, Response, Verb, get, post, put, head, delete_, ok, ct_json, ct_torrent, make_resp,
  make_resp_204, make_resp_400, make_resp_404, make_resp_500,
}
use kedge.Json.{Json}
use kedge.Json.Shape.{Shape, flag, record_of, no_fields, each_field, validate}
use kedge.Handlers.Shape.{
  handle_torrent_short, handle_torrent_long, sb_call_outside, sb_call_inside,
}
use kedge.Handlers.{
  SheathOps, QueryFlag, flag_of, is_null, json_resp, torrent_by, with_hash, added, dir_of, or_empty,
  handle_torrent, handle_torrents, torrents_by, post_torrents, Route, session_info, session_stats,
  sync_stats, torrents, torrent, session_toggle, no_route, run_route, route_of, strip_query, act_of,
  sb_call, answer,
}

-- The shapes of what the operations give, by what is asked of a torrent.
pub record Shapes : Type 0 where
  pub session_info : Shape
  pub session_stats : Shape
  pub sync_stats : Shape
  pub torrents : Shape
  pub torrent : QueryFlag → Shape

-- The operations give values of the shapes; null is for a torrent that is not found.
pub record AreTyped {Hash S : Type 0} (shapes : Shapes) (ops : SheathOps Hash S) : Type 0 where
  pub session_info : (s : S) → validate shapes.session_info (ops.session_info s) ≡ true
  pub session_stats : (s : S) → validate shapes.session_stats (ops.session_stats s) ≡ true
  pub sync_stats : (s : S) → validate shapes.sync_stats (ops.sync_stats s) ≡ true
  pub torrents : (s : S) → validate shapes.torrents (ops.torrents s) ≡ true
  pub torrent :
      (h : Hash) (q : QueryFlag) (s : S)
      → is_null (ops.torrent h q s) ≡ false
      → validate (shapes.torrent q) (ops.torrent h q s) ≡ true

abbrev toggled_shape : Shape
toggled_shape = record_of (each_field true flag ("isPaused" ∷ []) no_fields)

-- The shape of the JSON that a handler answers with.
abbrev pub answer_shape : Shapes → Route → QueryFlag → Shape
answer_shape shapes session_info q = shapes.session_info
answer_shape shapes session_stats q = shapes.session_stats
answer_shape shapes sync_stats q = shapes.sync_stats
answer_shape shapes torrents q = shapes.torrents
answer_shape shapes torrent q = shapes.torrent q
answer_shape shapes session_toggle q = toggled_shape
answer_shape shapes no_route q = record_of no_fields

-- The response is the text of a value of the shape, and says that it is JSON.
pub record IsJson (serialize : Json → Bytes) (shape : Shape) (r : Response) : Type 0 where
  pub value : Json
  pub typed : validate shape value ≡ true
  pub body : r.body ≡ serialize value
  pub content_type : r.content_type ≡ ct_json

-- A response with the status 200 is JSON of the shape.
abbrev IsTyped : (Json → Bytes) → Shape → Response → Type 0
IsTyped serialize shape r = r.status ≡ ok → IsJson serialize shape r

-- A response, if there is one, is JSON of the shape if its status is 200.
pub data Gives {S : Type 0} (serialize : Json → Bytes) (shape : Shape)
    : Result (S × Option Response) → Type 0 where
  gives :
      (s : S) {r : Response} → IsTyped serialize shape r → Gives serialize shape (done (s, some r))
  no_answer : (s : S) → Gives serialize shape (done (s, none))
  thrown : Gives serialize shape out_of_range
  fault : Gives serialize shape bad_deref

module _ (t : HashText) {S : Type 0} (ops : SheathOps t.Hash S) (serialize : Json → Bytes)
    (req : Request) where
  json_resp-IsTyped :
      (shape : Shape) (v : Json)
      → validate shape v ≡ true
      → IsTyped serialize shape (json_resp t ops serialize req v)
  unfolding json_resp make_resp
  json_resp-IsTyped shape v h e = record { value = v; typed = h; body = refl; content_type = refl }

  module _ (shape : Shape) where
    make_resp_204-IsTyped : IsTyped serialize shape (make_resp_204 req)
    unfolding make_resp_204 make_resp
    make_resp_204-IsTyped e = absurd (ground arith)

    make_resp_404-IsTyped : IsTyped serialize shape (make_resp_404 req)
    unfolding make_resp_404 make_resp
    make_resp_404-IsTyped e = absurd (ground arith)

    make_resp_400-IsTyped : (why : Bytes) → IsTyped serialize shape (make_resp_400 req why)
    unfolding make_resp_400 make_resp
    make_resp_400-IsTyped why e = absurd (ground arith)

    added-Gives :
        (what : Bytes) (x : S × Bool)
        → Gives serialize shape (answer t ops serialize (added t ops serialize req what x))
    unfolding make_resp_500 make_resp
    added-Gives what (s, true) = gives _ make_resp_204-IsTyped
    added-Gives what (s, false) = gives _ (λ e. absurd (ground arith))

    post_torrents-Gives :
        (n : Option Bytes) (s : S)
        → Gives serialize shape (answer t ops serialize (post_torrents t ops serialize req n s))
    unfolding post_torrents
    post_torrents-Gives none s = fault
    post_torrents-Gives (some n) s =
        elim (Bool-cases (bytes_eq (or_empty req.content_type) ct_torrent)) [
          | inl e ↦ rw e (
              added-Gives (codes "failed to add with metainfo")
                (ops.add_torrent req.body (dir_of t ops serialize req s) s))
          | inr e ↦
              rw e (added-Gives (codes "failed to add with magnet") (ops.add_magnet req.body s))
        ]

  module _ (shapes : Shapes) (typed : AreTyped shapes ops) where
    torrents_by-Gives :
        (v : Verb) (s : S)
        → Gives serialize shapes.torrents
            (answer t ops serialize (torrents_by t ops serialize v req s))
    unfolding torrents_by
    torrents_by-Gives get s = gives _ (json_resp-IsTyped _ _ (typed.torrents s))
    torrents_by-Gives post s = post_torrents-Gives _ req.content_length s
    torrents_by-Gives v s = gives _ (make_resp_400-IsTyped _ (codes "Unsupported method"))

    torrent_by-Gives :
        (v : Verb) (ih : t.Hash) (a : Bytes) (s : S)
        → Gives serialize
            (shapes.torrent (flag_of a))
            (answer t ops serialize (torrent_by t ops serialize v req ih (done a) s))
    unfolding torrent_by
    torrent_by-Gives head ih a s = elim (Bool-cases (ops.exists ih s)) [
      | inl e ↦ rw e (gives _ (make_resp_204-IsTyped _))
      | inr e ↦ rw e (gives _ (make_resp_404-IsTyped _))
    ]
    torrent_by-Gives get ih a s = elim (Bool-cases (is_null (ops.torrent ih (flag_of a) s))) [
      | inl e ↦ rw e (gives _ (make_resp_404-IsTyped _))
      | inr e ↦ rw e (gives _ (json_resp-IsTyped _ _ (typed.torrent ih (flag_of a) s e)))
    ]
    torrent_by-Gives delete_ ih a s = gives _ (make_resp_204-IsTyped _)
    torrent_by-Gives put ih a s = gives _ (make_resp_204-IsTyped _)
    torrent_by-Gives v ih a s = gives _ (make_resp_400-IsTyped _ (codes "Unsupported method"))

    with_hash-Gives :
        (a : Bytes) (ih : Option t.Hash) (s : S)
        → Gives serialize
            (shapes.torrent (flag_of a))
            (answer t ops serialize (with_hash t ops serialize req (done a) ih s))
    with_hash-Gives a none s = gives _ (make_resp_400-IsTyped _ _)
    with_hash-Gives a (some ih) s = torrent_by-Gives req.method ih a s

    handle_torrent-Gives :
        (path act : Bytes) (s : S)
        → strip_query req.target ≡ done path
        → act_of 53 path ≡ done act
        → Gives serialize
            (shapes.torrent (flag_of act))
            (answer t ops serialize (handle_torrent t ops serialize req 13 s))
    handle_torrent-Gives path act s e h = elim (Bool-cases (ltb (length path) 53)) [
      | inl short ↦
          rw (handle_torrent_short t ops serialize req 13 path s e short)
            (gives _ (make_resp_404-IsTyped _))
      | inr long ↦
          rw (handle_torrent_long t ops serialize req 13 path s e long, h) (with_hash-Gives act _ s)
    ]

    run_route-Gives :
        (r : Route) (path act : Bytes) (s : S)
        → strip_query req.target ≡ done path
        → act_of 53 path ≡ done act
        → Gives serialize (answer_shape shapes r (flag_of act)) (run_route t ops serialize r req s)
    unfolding run_route handle_torrents validate
    run_route-Gives session_info path act s e h =
        gives _ (json_resp-IsTyped _ _ (typed.session_info s))
    run_route-Gives session_stats path act s e h =
        gives _ (json_resp-IsTyped _ _ (typed.session_stats s))
    run_route-Gives sync_stats path act s e h = gives _ (json_resp-IsTyped _ _ (typed.sync_stats s))
    run_route-Gives torrents path act s e h = torrents_by-Gives req.method s
    run_route-Gives torrent path act s e h = handle_torrent-Gives path act s e h
    run_route-Gives session_toggle path act s e h = gives _ (json_resp-IsTyped _ _ refl)
    run_route-Gives no_route path act s e h = no_answer s

    pub sb_call-Gives :
        (uri path act : Bytes) (s : S)
        → strip_query (drop 4 req.target) ≡ done uri
        → strip_query req.target ≡ done path
        → act_of 53 path ≡ done act
        → Gives serialize
            (answer_shape shapes (route_of req.method uri) (flag_of act))
            (sb_call t ops serialize req s)
    sb_call-Gives uri path act s u e h = elim (Option-cases (find (codes "/api/") req.target)) [
      | inl o ↦ rw (sb_call_outside t ops serialize req s o) (no_answer s)
      | inr (i, o) ↦
          rw (sb_call_inside t ops serialize req uri s i o u)
            (run_route-Gives (route_of req.method uri) path act s e h)
    ]
