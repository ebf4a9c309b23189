-- ===== src/Sheath/Outstanding.antt =====
-- The count of outstanding resume data: requests less responses, and the end of the wait for them.
use kedge.Base.{ℕ, suc, ◌+◌, ◌≡◌, refl, true, false, Option, none, some, List, [], ◌∷◌, ◌++◌, arith}
use kedge.Base.Int.{ℤ, pos, ◌+ℤ◌, int_laws, eq_of_parts, +ℤ_parts, pos_part, neg_part}
use kedge.Sheath.Library.{
  TorrentLib, Alert, metadata_received, add_torrent, torrent_finished, save_resume_data,
  save_resume_data_failed, torrent_paused, Call, ask_resume_data,
}
use kedge.Sheath.Alerts.{
  SheathState, Surroundings, handle_alert, pop_alerts, on_torrent_finished, connect,
}

-- The requests for resume data among the calls.
unfoldable pub requests : {l : TorrentLib} → List (Call l) → ℕ
requests [] = 0
requests (ask_resume_data h m ∷ cs) = suc (requests cs)
requests (c ∷ cs) = requests cs

-- The responses to such requests among the alerts.
unfoldable pub responses : {l : TorrentLib} → List (Alert l) → ℕ
responses [] = 0
responses (save_resume_data p ∷ as_) = suc (responses as_)
responses (save_resume_data_failed b ∷ as_) = suc (responses as_)
responses (a ∷ as_) = responses as_

pub requests-append :
    {l : TorrentLib} (cs ds : List (Call l)) → requests (cs ++ ds) ≡ requests cs + requests ds
unfolding requests
requests-append [] ds = omega arith
requests-append (ask_resume_data h m ∷ cs) ds = omega (arith, requests-append cs ds)
requests-append (c ∷ cs) ds = requests-append cs ds

responses-cons :
    {l : TorrentLib} (a : Alert l) (b : List (Alert l))
    → responses (a ∷ b) ≡ responses (a ∷ []) + responses b
unfolding responses
responses-cons (save_resume_data p) b = omega arith
responses-cons (save_resume_data_failed m) b = omega arith
responses-cons a b = omega arith

-- `after` is `before` with `q` added and `r` taken off, written on the natural parts.
abbrev pub Counts : ℤ → ℕ → ℕ → ℤ → Type 0
Counts before q r after =
    pos_part after + neg_part before + r ≡ neg_part after + pos_part before + q

module _ (l : TorrentLib) (at : Surroundings l) where
  pub requests-on_torrent_finished : (h : l.Handle) → requests (on_torrent_finished l at h) ≡ 0
  unfolding requests on_torrent_finished
  requests-on_torrent_finished h = ground arith

  pub requests-connect : (p : Option l.Peer) (h : l.Handle) → requests (connect l at p h) ≡ 0
  unfolding requests
  requests-connect none h = refl
  requests-connect (some p) h = refl

  handle_alert-Counts :
      (a : Alert l) (s : SheathState l)
      → Counts s.num_outstanding_resume_data
          (requests (handle_alert l at a s).1)
          (responses (a ∷ []))
          (handle_alert l at a s).0.num_outstanding_resume_data
  unfolding handle_alert requests responses
  handle_alert-Counts (metadata_received h) s = omega int_laws
  handle_alert-Counts (add_torrent true h) s = omega arith
  handle_alert-Counts (add_torrent false h) s = omega (int_laws, requests-connect s.peer h)
  handle_alert-Counts (torrent_finished h) s = omega (int_laws, requests-on_torrent_finished h)
  handle_alert-Counts (save_resume_data p) s = omega int_laws
  handle_alert-Counts (save_resume_data_failed b) s = omega int_laws
  handle_alert-Counts (torrent_paused h) s = omega int_laws
  handle_alert-Counts a s = omega arith

  pub pop_alerts-Counts :
      (b : List (Alert l)) (s : SheathState l)
      → Counts s.num_outstanding_resume_data
          (requests (pop_alerts l at b s).1)
          (responses b)
          (pop_alerts l at b s).0.num_outstanding_resume_data
  unfolding pop_alerts requests responses
  pop_alerts-Counts [] s = omega arith
  pop_alerts-Counts (a ∷ b) s =
      let (s', calls, quiet) = handle_alert l at a s in
      omega (
        int_laws,
        handle_alert-Counts a s,
        pop_alerts-Counts b s',
        requests-append calls (pop_alerts l at b s').1,
        responses-cons a b,
      )

  -- Over any sequence of alerts the count of outstanding resume data grows by the requests that are
  -- made and shrinks by the responses among the alerts.
  pub pop_alerts_balance :
      (b : List (Alert l)) (s : SheathState l)
      → let r = pop_alerts l at b s in
        r.0.num_outstanding_resume_data +ℤ pos (responses b)
        ≡ s.num_outstanding_resume_data +ℤ pos (requests r.1)
  pop_alerts_balance b s =
      let z = pop_alerts-Counts b s in
      eq_of_parts _ _ (
        omega (
          arith,
          z,
          +ℤ_parts (pop_alerts l at b s).0.num_outstanding_resume_data (pos (responses b)),
          +ℤ_parts s.num_outstanding_resume_data (pos (requests (pop_alerts l at b s).1)),
        ))
