-- ===== src/Hub.antt =====
-- handlers.cpp: the WebSocket clients of httpCaller, and the statistics that are sent to them. Each of the
-- functions is one step, as if `mutex_` were held over all of it; `Round` has doLoop in its steps.
pub mod Views
pub mod Round
pub mod Message
pub mod Interleaved
pub mod Id
use kedge.Base.{
  ℕ, suc, ◌+◌, ◌%◌, Bool, true, false, Option, none, some, List, [], ◌∷◌, ◌++◌, ◌==◌, if◌then◌else◌,
}
use kedge.Bytes.{Bytes, codes}
use kedge.Json.{Json, null, bool_, uint64, string, array, object, Items, nil, cons, end, member}
use kedge.JsonDiff.{Op, op_json, json_diff}

-- The members of httpCaller that change; a session is known by its address.
pub record HubState : Type 0 where
  pub sessions : List ℕ
  pub sync_ver : ℕ
  pub prev_stats : Json
  pub curr_stats : Json

pub data HubCall : Type 0 where
  send : ℕ → Bytes → HubCall
  close : ℕ → Bytes → HubCall

unfoldable pub new_hub : HubState
new_hub = record { sessions = []; sync_ver = 0; prev_stats = null; curr_stats = null }

abbrev pub next_version : ℕ → ℕ
next_version n = (n + 1) % 18446744073709551616

-- `insert` of the set of sessions.
unfoldable pub insert : ℕ → List ℕ → List ℕ
insert p [] = p ∷ []
insert p (q ∷ qs) = let rest = insert p qs in if q == p then q ∷ qs else q ∷ rest

unfoldable pub erase : ℕ → List ℕ → List ℕ
erase p [] = []
erase p (q ∷ qs) = let rest = erase p qs in if q == p then qs else q ∷ rest

abbrev pub is_null : Json → Bool
is_null null = true
is_null _ = false

-- The first message to a client, with the whole statistics.
abbrev pub welcome : ℕ → Bytes → Json → Json
welcome version id body = object (
    member (codes "version") (uint64 version)
      (member (codes "id") (string id) (member (codes "body") body end)))

abbrev pub ops_json : List Op → Items
unfolding op_json
ops_json [] = nil
ops_json (o ∷ os) = cons (op_json o) (ops_json os)

-- A later message, with what has changed.
abbrev pub delta : ℕ → List Op → Json
delta version ops = object (
    member (codes "version") (uint64 version)
      (member (codes "delta") (bool_ true) (member (codes "body") (array (ops_json ops)) end)))

abbrev pub or_random : Bytes → Bytes → Bytes
or_random [] random = random
or_random (c ∷ s) random = c ∷ s

-- `serialize` is json::serialize, `alive` says whether a weak pointer can be locked.
module _ (serialize : Json → Bytes) where
  -- `random` is the id for a session without one, `stats` what `getSyncStats` gives.
  unfoldable pub join : ℕ → Bytes → Bytes → Json → HubState → HubState × List HubCall
  unfolding insert
  join wss qid random stats h =
      let curr = if is_null h.curr_stats then stats else h.curr_stats in
      let version = next_version h.sync_ver in
      (
        record h { sessions = insert wss h.sessions; sync_ver = version; curr_stats = curr },
        send wss (serialize (welcome version (or_random qid random) curr)) ∷ [],
      )

  unfoldable pub leave : ℕ → HubState → HubState × List HubCall
  unfolding erase
  leave wss h = (record h { sessions = erase wss h.sessions }, [])

  unfoldable pub broadcast_to : (ℕ → Bool) → Bytes → List ℕ → List HubCall
  broadcast_to alive message [] = []
  broadcast_to alive message (p ∷ ps) =
      let rest = broadcast_to alive message ps in if alive p then send p message ∷ rest else rest

  unfoldable pub broadcast : (ℕ → Bool) → Bytes → HubState → HubState × List HubCall
  unfolding broadcast_to
  broadcast alive message h = (h, broadcast_to alive message h.sessions)

  unfoldable pub close_all : List ℕ → List HubCall
  close_all [] = []
  close_all (p ∷ ps) = close p (codes "close by caller") ∷ close_all ps

  unfoldable pub close_ws : HubState → HubState × List HubCall
  unfolding close_all
  close_ws h = (h, close_all h.sessions)

  abbrev pub no_sessions : List ℕ → Bool
  no_sessions [] = true
  no_sessions (p ∷ ps) = false

  -- Without a session nothing is done but to sleep.
  unfoldable pub do_loop : (ℕ → Bool) → Json → HubState → HubState × List HubCall
  unfolding broadcast_to json_diff
  do_loop alive stats h =
      let version = next_version h.sync_ver in
      let message = serialize (delta version (json_diff h.prev_stats stats [])) in
      if no_sessions h.sessions then (h, []) else (
        record h { sync_ver = version; curr_stats = stats; prev_stats = stats },
        broadcast_to alive message h.sessions,
      )
