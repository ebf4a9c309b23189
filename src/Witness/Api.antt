-- ===== src/Witness/Api.antt =====
-- The API and the files of the web UI.
use kedge.Base.{
  ℕ, ◌+◌, ◌≤◌, ◌≡◌, ◌≢◌, ◌↔◌, ◌⊎◌, inl, refl, Bool, true, false, some, List, [], ◌∷◌, length,
}
use kedge.Bytes.{Bytes, codes, find, starts_with}
use kedge.Fault.{done, out_of_range, bad_deref}
use kedge.HttpUtil.{get, head, put, delete_, Request, make_resp_204}
use kedge.Handlers.{sb_call, handle_torrents, answer}
use kedge.Handlers.Safety.{Leaves, sb_call_safe}
use kedge.Handlers.Faults.{IsUnsizedPost, sb_call_faults}
use kedge.Handlers.Actions.{PutEffect, sb_call_put, sb_call_delete, sb_call_misrouted}
use kedge.Handlers.Responses.{Answers, sb_call_framed}
use kedge.HttpSession.{handle_request, opened}
use kedge.HttpSession.Files.{Serves, handle_request-Serves}
use kedge.HttpSession.Connection.{Event, read, written, started, run_events, connection_balance}
use kedge.HttpSession
use kedge.Witness.Samples.{zeros, sha_text, sha_text-IsHexText, counting, text, ask, lacks}

abbrev start_path : Bytes
start_path = codes "/api/torrent/0000000000000000000000000000000000000000/start"

abbrev delete_path : Bytes
delete_path = codes "/api/torrent/0000000000000000000000000000000000000000/yes"

abbrev peers_path : Bytes
peers_path = codes "/api/torrent/0000000000000000000000000000000000000000/peers"

sb_call_safe_example : Leaves 7 (sb_call sha_text counting text (ask get peers_path) 7)
sb_call_safe_example = sb_call_safe sha_text counting text (ask get peers_path) 7 (inl refl)

sb_call_put_example :
    (s : ℕ) × PutEffect counting zeros (codes "start") 7 s
    × (sb_call sha_text counting text (ask put start_path) 7
        ≡ done (s, some (make_resp_204 (ask put start_path))))
sb_call_put_example =
    sb_call_put sha_text counting text sha_text-IsHexText zeros (codes "start")
      (lacks b'?' (codes "start") refl) (ask put start_path) 7 refl refl

sb_call_delete_example :
    (with_data : Bool) × ((with_data ≡ true)
      ↔ ((codes "yes" ≡ codes "yes") ⊎ (codes "yes" ≡ codes "with_data")))
    × (sb_call sha_text counting text (ask delete_ delete_path) 7
        ≡ done (
          (counting.drop_torrent zeros with_data 7).0,
          some (make_resp_204 (ask delete_ delete_path)),
        ))
sb_call_delete_example =
    sb_call_delete sha_text counting text sha_text-IsHexText zeros (codes "yes")
      (lacks b'?' (codes "yes") refl) (ask delete_ delete_path) 7 refl refl

sb_call_faults_example :
    (sb_call sha_text counting text (ask get start_path) 7 ≢ out_of_range)
    × (sb_call sha_text counting text (ask get start_path) 7 ≡ bad_deref
        → IsUnsizedPost (ask get start_path))
sb_call_faults_example = sb_call_faults sha_text counting text (ask get start_path) 7

abbrev stray : Request
stray = ask get (codes "/www/torrents?u=/api/")

stray_index : find (codes "/api/") stray.target ≡ some 16
unfolding find starts_with
stray_index = refl

sb_call_misrouted_example :
    sb_call sha_text counting text stray 7
    ≡ answer sha_text counting text (handle_torrents sha_text counting text stray 7)
sb_call_misrouted_example =
    sb_call_misrouted sha_text counting text stray 7 b'/' b'w' b'w' b'w' 16 (codes "u=/api/") refl
      stray_index

sb_call_framed_example :
    Answers (ask put start_path) (sb_call sha_text counting text (ask put start_path) 7)
sb_call_framed_example = sb_call_framed sha_text counting text (ask put start_path) 7

handle_request_example :
    Serves sha_text counting text
      (codes "/ui")
      (λ p. opened 3)
      (ask head (codes "/a.html"))
      (handle_request sha_text counting text
        (codes "/ui")
        (λ p. opened 3)
        (ask head (codes "/a.html"))
        7)
handle_request_example =
    handle_request-Serves sha_text counting text (codes "/ui") (λ p. opened 3)
      (ask head (codes "/a.html")) 7

abbrev two_requests : List Event
two_requests =
    read HttpSession.success false false
    ∷ written HttpSession.success
    ∷ read HttpSession.success false true
    ∷ []

connection_balance_example :
    let c = run_events started two_requests in
    (length c.under_way ≤ 1) × (c.responses ≤ c.requests) × (c.requests ≤ c.responses + 1)
connection_balance_example = connection_balance two_requests
