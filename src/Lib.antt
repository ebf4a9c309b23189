-- ===== src/Lib.antt =====
-- Verification of kedge, a BitTorrent client that runs as a service: libtorrent's session behind an
-- HTTP API, a WebSocket feed and the files of a web UI.
--
-- The program's parts. `main` builds a `sheath` over a libtorrent session, an `httpCaller` over
-- the sheath, and a listener that makes an `http_session` for each socket. An `http_session`
-- reads one request at a time; `handle_request` gives it to `httpCaller::sbCall`, which calls the
-- sheath, or answers it from a file. A WebSocket upgrade makes a `websocket_session`, which joins
-- the caller and is sent the statistics, first whole and then as JSON patches from `json_diff`.
-- The sheath's loop takes libtorrent's alerts, keeps the table of torrents and the counters, and
-- saves resume data.
--
-- Which file models what (paths from the repository's root):
--   Base, Base/*: numbers, lists and tests that all files share.
--   Bytes, Bytes/Laws: std::string as a list of bytes: find, rfind, substr, and where substr throws.
--   Number, Number/Decimal: atoi, strtol, std::to_string and the casts to 8 and 16 bits.
--   Util, Util/*: src/util.cpp, n2hex of include/util.hpp and `parse_endpoint` of src/sheath.cpp.
--   HttpUtil, HttpUtil/*: include/http_util.hpp.
--   Json, Json/Rows: boost::json values, with `emplace` under a condition.
--   Json/Shape, Json/Shape/Build: schemas of values, and of objects built by `emplace`.
--   JsonDiff, JsonDiff/Growth: include/json_diff.hpp.
--   JsonDiff/Patch, JsonDiff/Plain: how a patch is applied by RFC 6902, and the values it is exact for.
--   JsonDiff/Changes, JsonDiff/Reading, JsonDiff/Read: the operations as edits without paths.
--   JsonDiff/Equal, JsonDiff/Same, JsonDiff/SameKeys, JsonDiff/Focus, JsonDiff/Arrays,
--     JsonDiff/Objects, JsonDiff/Keys, JsonDiff/NewKeys, JsonDiff/OneMember, JsonDiff/Steps,
--     JsonDiff/Exact: the edits applied, to the source or to a value that equals it.
--   JsonDiff/Values, JsonDiff/Alike, JsonDiff/Alike/*: the values in a patch, and patches that were
--     sent as text and read again.
--   Fault: what a handler does: it returns, throws std::out_of_range, or dereferences an end iterator.
--   Handlers, Handlers/*: src/handlers.cpp: `sb_call` and the handlers over `SheathOps`, the
--     operations of the sheath.
--   Hub, Hub/Views: src/handlers.cpp: join, leave, broadcast, closeWS and doLoop.
--   Hub/Round, Hub/Interleaved: doLoop in the steps between which other threads run.
--   Hub/Id: the id that join gives to a client, by randNum and n2hex.
--   Hub/Message, Hub/Message/Read, Hub/Views/Held, Hub/Views/Held/*: the messages as a client
--     reads them, and what the clients hold.
--   HttpSession, HttpSession/*: src/http_session.cpp.
--   Websocket, Websocket/Queue, Websocket/Queue/Delivery: src/http_websocket.cpp and
--     include/http_websocket.hpp.
--   Stats, Stats/*: include/session_stats.hpp and include/session_values.hpp.
--   Sheath/Status: `torrent_status_to_json_obj` of src/sheath.cpp.
--   Sheath/Library: what sheath.cpp uses of libtorrent: types, alerts and calls.
--   Sheath/Alerts, Sheath/Outstanding, Sheath/Handles: handle_alert with what it calls, pop_alerts.
--   Sheath/Shutdown, Sheath/Drained: save_all_resume.
--   Sheath/Ending: the directories of the constructor, save_session and end.
--   Sheath/Adding, Sheath/Adding/Laws: the adding of torrents, scan_dir and load_resumes.
--   Sheath/Control: pause_resume_torrent, resume_torrent, exists, drop_torrent, toggle_pause_resume.
--   Sheath/Query, Sheath/Query/*: the JSON that the getters of the sheath make, and its schemas.
--   Sheath/Synced: getSyncStats as what the hub sends to its clients.
--   Sheath/Loop: set_peer and doLoop.
--   Sheath/Api, Sheath/Api/*: the operations of the API made of those of the sheath.
--   Startup/Files, Startup/Prepared: load_file, save_file and prepare_dirs of src/util.cpp.
--   Startup/Environment: the directories that src/util.cpp takes from the environment.
--   Startup/Parameters, Startup/Restart: `load_sess_params` of include/option.hpp.
--   Startup/Options, Startup/Precedence: mapper, init_from and make_context of include/option.hpp.
--   Startup/Accepting, Startup/Served: src/listener.cpp.
--   Startup/Saving, Startup/Resumed: a torrent over a restart: handle_alert, a disk, and load_resumes.
--   Startup/Process, Startup/Ended: src/main.cpp, its threads as a step relation.
--   Witness/*: the theorems at concrete inputs.
--
-- How the model stands to the code. State is passed explicitly: a handler takes the state and
-- returns it with its response; callbacks return the asynchronous calls they make. libtorrent,
-- Boost.Asio, Boost.Program_options and the serialisation of JSON are parameters, with what the
-- code relies on as named hypotheses (`IsHexText`, `IsHandleEquality`, `AreFlags`,
-- `KeepsTorrents`, `IsOptionLib`). Text of JSON is read back as it was written, but for the kind
-- of integers (`Alike`), where a value has no NaN and each object different keys; a client
-- applies patches by RFC 6902. The file system is a parameter for the adding of torrents, and a
-- map from names to entries for the start and the end of the program; there a write that is
-- permitted succeeds. Numbers of 8, 16 and 64 bits wrap where the source lets them; the counter
-- of outstanding resume data and the sums of rates are far from their bounds and do not. A double
-- is its bit pattern.
--
-- Loops are recursion over the data they go through. The wait in `save_all_resume` goes through the
-- polls for alerts, of which any number may time out, and says whether it has ended with them.
--
-- The threads of `main` take their steps in any order; a turn of a loop, which waits for a
-- bounded time, is one step, and so is what an I/O thread does. The functions of the hub are one
-- step each, but for doLoop, which is also given in its steps.
--
-- Not modelled: the log with the text of a time, which only the log uses, the vendored
-- crow/logging.hpp, what libtorrent writes as its state, and the interleavings inside the
-- functions of the sheath. Readings of the clock and random draws are parameters. That `set_peer`
-- keeps the address of a local is not seen in the model either, nor that the files of a torrent
-- without metadata are asked of a null pointer: a queried torrent has its metadata here.
pub mod Base
pub mod Bytes
pub mod Number
pub mod Util
pub mod HttpUtil
pub mod Json
pub mod JsonDiff
pub mod Fault
pub mod Handlers
pub mod Websocket
pub mod HttpSession
pub mod Stats
pub mod Sheath
pub mod Hub
pub mod Startup
pub mod Witness
