-- ===== src/Handlers.antt =====
-- handlers.cpp and handlers.hpp: the HTTP API of httpCaller, over the operations of sheath.
pub mod Shape
pub mod Safety
pub mod Faults
pub mod Torrent
pub mod Actions
pub mod Responses
pub mod Typed
use kedge.Base.{
  ℕ, ◌+◌, Bool, true, false, ◌&&◌, ◌||◌, Option, none, some, List, [], ◌∷◌, ◌++◌, ◌==◌, ltb,
  if◌then◌else◌, length,
}
use kedge.Bytes.{Bytes, codes, bytes_eq, find, substr, substr_from}
use kedge.Fault.{Result, done, bad_deref, ◌>>=◌, throwing}
use kedge.Util.{HashText, from_hex}
use kedge.HttpUtil.{
  Verb, get, head, post, put, delete_, other, Request, Response, ok, ct_json, ct_torrent, make_resp,
  make_resp_204, make_resp_400, make_resp_404, make_resp_500,
}
use kedge.Json.{Json, null, bool_, object, member, end}

-- `query_flags_t` with its three values.
pub data QueryFlag : Type 0 where
  query_basic query_peers query_files : QueryFlag

-- The operations of sheath that the handlers call, over its state.
pub record SheathOps (Hash : Type 0) (S : Type 0) : Type 0 where
  pub dir_store : S → Bytes
  pub session_info : S → Json
  pub session_stats : S → Json
  pub sync_stats : S → Json
  pub torrents : S → Json
  pub torrent : Hash → QueryFlag → S → Json
  pub exists : Hash → S → Bool
  pub drop_torrent : Hash → Bool → S → S × Bool
  pub pause_resume_torrent : Hash → S → S × Bool
  pub resume_torrent : Hash → S → S × Bool
  pub add_torrent : Bytes → Bytes → S → S × Bool
  pub add_magnet : Bytes → S → S × Bool
  pub toggle_pause_resume : S → S × Bool

-- `find(p) == 0`.
abbrev pub is_zero : Option ℕ → Bool
is_zero none = false
is_zero (some i) = i == 0

abbrev pub or_empty : Option Bytes → Bytes
or_empty none = []
or_empty (some s) = s

abbrev pub is_null : Json → Bool
is_null null = true
is_null _ = false

-- The query string is cut off.
unfoldable pub strip_query : Bytes → Result Bytes
strip_query s = elim (find (codes "?") s) [ none ↦ done s | some i ↦ throwing (substr 0 i s) ]

-- `if (s.size() > min_size + 1) act = s.substr(min_size + 1)`.
unfoldable pub act_of : ℕ → Bytes → Result Bytes
act_of min_size s =
    if ltb (min_size + 1) (length s) then throwing (substr_from (min_size + 1) s) else done []

unfoldable pub flag_of : Bytes → QueryFlag
flag_of act =
    if bytes_eq (codes "peers") act
    then query_peers
    else if bytes_eq (codes "files") act
    then query_files
    else query_basic

unfoldable pub is_get : Verb → Bool
is_get get = true
is_get _ = false

unfoldable pub is_put : Verb → Bool
is_put put = true
is_put _ = false

-- The handlers that `sbCall` returns to; the last one is std::nullopt.
pub data Route : Type 0 where
  session_info session_stats sync_stats torrents torrent session_toggle no_route : Route

-- The chain of tests of `sbCall`, on the target without its first four bytes and its query.
unfoldable pub route_of : Verb → Bytes → Route
unfolding is_get is_put
route_of method uri =
    if is_get method && bytes_eq uri (codes "/session")
    then session_info
    else if is_get method && bytes_eq uri (codes "/session/stats")
    then session_stats
    else if is_get method && bytes_eq uri (codes "/sync/stats")
    then sync_stats
    else if bytes_eq uri (codes "/torrents")
    then torrents
    else if is_zero (find (codes "/torrent/") uri)
    then torrent
    else if is_put method && bytes_eq uri (codes "/session/toggle")
    then session_toggle
    else no_route

module _ (t : HashText) {S : Type 0} (ops : SheathOps t.Hash S) (serialize : Json → Bytes) where
  unfoldable pub json_resp : Request → Json → Response
  unfolding make_resp
  json_resp req v = make_resp req (serialize v) ct_json ok

  unfoldable pub handle_session_info : Request → S → Result (S × Response)
  unfolding json_resp
  handle_session_info req s = done (s, json_resp req (ops.session_info s))

  unfoldable pub handle_session_stats : Request → S → Result (S × Response)
  unfolding json_resp
  handle_session_stats req s = done (s, json_resp req (ops.session_stats s))

  unfoldable pub handle_session_toggle : Request → S → Result (S × Response)
  unfolding json_resp
  handle_session_toggle req s =
      let (s', paused) = ops.toggle_pause_resume s in
      done (s', json_resp req (object (member (codes "isPaused") (bool_ paused) end)))

  unfoldable pub handle_sync_stats : Request → S → Result (S × Response)
  unfolding json_resp
  handle_sync_stats req s = done (s, json_resp req (ops.sync_stats s))

  abbrev added : Request → Bytes → S × Bool → Result (S × Response)
  added req what (s, true) = done (s, make_resp_204 req)
  added req what (s, false) = done (s, make_resp_500 req what)

  abbrev dir_of : Request → S → Bytes
  dir_of req s = elim req.save_path [ none ↦ ops.dir_store s | some dir ↦ dir ]

  -- The log line of a POST reads `req.find(content_length)->value()`, also where there is no such
  -- field.
  unfoldable pub post_torrents : Request → Option Bytes → S → Result (S × Response)
  unfolding make_resp_204 make_resp_500
  post_torrents req none s = bad_deref
  post_torrents req (some _) s =
      if bytes_eq (or_empty req.content_type) ct_torrent
      then added req (codes "failed to add with metainfo")
          (ops.add_torrent req.body (dir_of req s) s)
      else added req (codes "failed to add with magnet") (ops.add_magnet req.body s)

  unfoldable pub torrents_by : Verb → Request → S → Result (S × Response)
  unfolding json_resp post_torrents make_resp_400
  torrents_by get req s = done (s, json_resp req (ops.torrents s))
  torrents_by post req s = post_torrents req req.content_length s
  torrents_by _ req s = done (s, make_resp_400 req (codes "Unsupported method"))

  unfoldable pub handle_torrents : Request → S → Result (S × Response)
  unfolding torrents_by
  handle_torrents req s = torrents_by req.method req s

  -- The action of a PUT; the results of the two calls are dropped.
  unfoldable pub put_torrent : t.Hash → Bytes → S → S
  put_torrent ih act s =
      if bytes_eq (codes "toggle") act || bytes_eq (codes "pause") act
      then (ops.pause_resume_torrent ih s).0
      else if bytes_eq (codes "start") act || bytes_eq (codes "resume") act
      then (ops.resume_torrent ih s).0
      else s

  abbrev found : Request → Json → S → S × Response
  found req v s = (s, if is_null v then make_resp_404 req else json_resp req v)

  -- The part of `handleTorrent` behind the parsing of the hash.
  unfoldable pub torrent_by : Verb → Request → t.Hash → Result Bytes → S → Result (S × Response)
  unfolding json_resp put_torrent flag_of make_resp_204 make_resp_400 make_resp_404
  torrent_by head req ih act s =
      done (s, if ops.exists ih s then make_resp_204 req else make_resp_404 req)
  torrent_by get req ih act s = do a ← act; done (found req (ops.torrent ih (flag_of a) s) s)
  torrent_by delete_ req ih act s = do
    a ← act
    done (
      (ops.drop_torrent ih (bytes_eq (codes "yes") a || bytes_eq (codes "with_data") a) s).0,
      make_resp_204 req,
    )
  torrent_by put req ih act s = do a ← act; done (put_torrent ih a s, make_resp_204 req)
  torrent_by _ req ih act s = do a ← act; done (s, make_resp_400 req (codes "Unsupported method"))

  abbrev with_hash : Request → Result Bytes → Option t.Hash → S → Result (S × Response)
  with_hash req act none s = done (s, make_resp_400 req (codes "invalid hash string"))
  with_hash req act (some ih) s = torrent_by req.method req ih act s

  unfoldable sized : Request → ℕ → Bytes → S → Result (S × Response)
  unfolding torrent_by act_of from_hex make_resp_404
  sized req offset path s =
      let parsed = do
        hex ← throwing (substr offset 40 path)
        with_hash req (act_of (offset + 40) path) (from_hex t hex) s
      in if ltb (length path) (offset + 40) then done (s, make_resp_404 req) else parsed

  unfoldable pub handle_torrent : Request → ℕ → S → Result (S × Response)
  unfolding sized strip_query make_resp_400
  handle_torrent req offset s = do path ← strip_query req.target; sized req offset path s

  abbrev pub answer : Result (S × Response) → Result (S × Option Response)
  answer r = do x ← r; done (x.0, some x.1)

  unfoldable pub run_route : Route → Request → S → Result (S × Option Response)
  unfolding handle_session_info handle_session_stats handle_sync_stats handle_torrents
      handle_torrent handle_session_toggle
  run_route session_info req s = answer (handle_session_info req s)
  run_route session_stats req s = answer (handle_session_stats req s)
  run_route sync_stats req s = answer (handle_sync_stats req s)
  run_route torrents req s = answer (handle_torrents req s)
  run_route torrent req s = answer (handle_torrent req 13 s)
  run_route session_toggle req s = answer (handle_session_toggle req s)
  run_route no_route req s = done (s, none)

  -- `none` in the result is std::nullopt: the request is not for the API.
  unfoldable pub sb_call : Request → S → Result (S × Option Response)
  unfolding run_route route_of strip_query
  sb_call req s = elim (find (codes "/api/") req.target) [
    | none ↦ done (s, none)
    | some _ ↦ do
      rest ← throwing (substr_from 4 req.target)
      uri ← strip_query rest
      run_route (route_of req.method uri) req s
  ]
