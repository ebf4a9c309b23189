-- ===== src/Witness/Session.antt =====
-- The session with its torrents, the hub and the WebSocket connections.
use kedge.Base.{ℕ, ◌≤◌, ◌≡◌, refl, true, false, none, some, List, [], ◌∷◌, ◌++◌, arith, length}
use kedge.Base.Int.{pos, ◌+ℤ◌}
use kedge.Bytes.{codes}
use kedge.Json.{object, find_key, Members}
use kedge.Json.Rows.{listed}
use kedge.Sheath.Status.{status_rows, torrent_status_to_json_obj, torrent_status_members}
use kedge.Sheath.Library.{
  Alert, save_resume_data, save_resume_data_failed, torrent_paused, torrent_removed, add_torrent,
}
use kedge.Sheath.Alerts.{pop_alerts, set_all_torrents, find_handle}
use kedge.Sheath.Outstanding.{requests, responses, pop_alerts_balance}
use kedge.Sheath.Shutdown.{Polls, Listed, to_save, save_all_resume}
use kedge.Sheath.Drained.{
  Saves, asking, all_asking, all_responses, IsCoveredWith, save_all_resume_ends,
}
use kedge.Sheath.Loop.{AreSpaced, scans, scans-AreSpaced}
use kedge.Sheath.Handles.{latest, known, IsDistinct, set_all_torrents-latest, pop_alerts-known}
use kedge.Sheath.Query.{FileEntry, OpenFileState, read_only}
use kedge.Websocket.{WsSession, success}
use kedge.Websocket.Queue.{IsLive, Link, step, queue_order}
use kedge.Websocket.Queue.Delivery.{drain, drain_delivers}
use kedge.Websocket.Queue
use kedge.Witness.Samples.{
  zeros, ones, sha_text, sample_status, sample_lib, sample_lib-IsHandleEquality, quiet, around,
}

torrent_status_example :
    (ms : Members) × (torrent_status_to_json_obj sha_text sample_status ≡ object ms)
    × (find_key (codes "name") ms ≡ listed (codes "name") (status_rows sha_text sample_status))
torrent_status_example = torrent_status_members sha_text sample_status (codes "name")

abbrev busy_alerts : List (Alert sample_lib)
busy_alerts =
    torrent_paused 1 ∷ save_resume_data zeros ∷ add_torrent false 2 ∷ torrent_removed 1 ∷ []

pop_alerts_balance_example :
    let r = pop_alerts sample_lib around busy_alerts quiet in
    r.0.num_outstanding_resume_data +ℤ pos (responses busy_alerts) ≡ pos 1 +ℤ pos (requests r.1)
pop_alerts_balance_example = pop_alerts_balance sample_lib around busy_alerts quiet

-- Three rounds, a second apart, the first with alerts.
abbrev three_rounds : List (List (Alert sample_lib) × ℕ)
three_rounds = (busy_alerts, 1000000000) ∷ ([], 2000000000) ∷ ([], 3500000000) ∷ []

scans_example : AreSpaced sample_lib around 5 (scans sample_lib around three_rounds (quiet, 5))
scans_example = scans-AreSpaced sample_lib around three_rounds quiet 5

abbrev one_torrent : List (Listed sample_lib)
one_torrent = record { handle = 4; is_valid = true; status = sample_status } ∷ []

abbrev answers : Polls sample_lib
answers =
    some (torrent_paused 1 ∷ save_resume_data zeros ∷ [])
    ∷ none
    ∷ some (save_resume_data_failed true ∷ save_resume_data ones ∷ [])
    ∷ []

enough_answers :
    IsCoveredWith sample_lib around (length (to_save sample_lib around one_torrent)) answers quiet
unfolding to_save all_asking all_responses asking responses
enough_answers = omega arith

save_all_resume_ends_example :
    Saves sample_lib around
      (to_save sample_lib around one_torrent)
      (save_all_resume sample_lib around one_torrent answers quiet)
save_all_resume_ends_example =
    save_all_resume_ends sample_lib around one_torrent answers quiet enough_answers

set_all_torrents_example :
    find_handle sample_lib 1
      (set_all_torrents sample_lib ((1, sample_status) ∷ (2, sample_status) ∷ []) quiet.all_handles)
    ≡ latest sample_lib 1
        ((1, sample_status) ∷ (2, sample_status) ∷ [])
        (find_handle sample_lib 1 quiet.all_handles)
set_all_torrents_example =
    set_all_torrents-latest sample_lib sample_lib-IsHandleEquality
      ((1, sample_status) ∷ (2, sample_status) ∷ []) quiet.all_handles 1

quiet-IsDistinct : IsDistinct sample_lib quiet.all_handles
unfolding find_handle
quiet-IsDistinct = (refl, tt)

pop_alerts-known_example :
    find_handle sample_lib 1 (pop_alerts sample_lib around busy_alerts quiet).0.all_handles
    ≡ known sample_lib 1 busy_alerts (find_handle sample_lib 1 quiet.all_handles)
pop_alerts-known_example =
    pop_alerts-known sample_lib sample_lib-IsHandleEquality around busy_alerts quiet 1
      quiet-IsDistinct

abbrev half_file : FileEntry
half_file = record { file_name = codes "f"; file_size = 10; file_progress = 5; priority = 4 }

abbrev sparse_file : OpenFileState
sparse_file = record { file_index = 0; mode = read_only; random_access = true; sparse = true }

abbrev fresh : WsSession
fresh = record { queue = []; uri = []; qid = []; closed = false }

abbrev two_sends : List Queue.Event
two_sends = Queue.send (codes "a") ∷ Queue.send (codes "b") ∷ Queue.complete success ∷ []

queue_order_example :
    let l = Queue.run_events (Queue.opened fresh) two_sends in
    (length l.under_way ≤ 1) × (l.written ++ l.session.queue ≡ l.sent)
queue_order_example = queue_order fresh two_sends

-- A connection with two messages in its queue.
abbrev two_queued : Link
two_queued = record {
  session = record fresh { queue = codes "a" ∷ codes "b" ∷ [] };
  under_way = codes "a" ∷ [];
  written = [];
  sent = codes "a" ∷ codes "b" ∷ [];
}

two_queued-IsLive : IsLive two_queued
two_queued-IsLive = record { front = refl; order = refl }

drain_delivers_example : (Queue.run_events two_queued (drain 2)).written ≡ two_queued.sent
drain_delivers_example = drain_delivers 2 two_queued two_queued-IsLive refl
