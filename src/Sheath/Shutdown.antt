-- ===== src/Sheath/Shutdown.antt =====
-- save_all_resume of sheath.cpp: the requests for resume data at the end, and the wait for them.
use kedge.Base.{
  ℕ, suc, ◌%◌, Bool, false, ◌&&◌, Option, none, some, List, [], ◌∷◌, ◌++◌, ◌==◌, if◌then◌else◌,
}
use kedge.Base.Int.{is_pos}
use kedge.Sheath.Library.{TorrentLib, Status, Alert, Call, ask_resume_data}
use kedge.Sheath.Alerts.{SheathState, Surroundings, asked, pop_alerts}

-- What the polls for alerts give, one after the other: a batch of alerts, or none within six seconds.
abbrev pub Polls : TorrentLib → Type 0
Polls l = List (Option (List (Alert l)))

-- A torrent as `get_torrent_status` lists it: its handle, and whether that is valid.
pub record Listed (l : TorrentLib) : Type 0 where
  pub handle : l.Handle
  pub is_valid : Bool
  pub status : Status l

abbrev pub batch {ℓ} : {A : Type ℓ} → Option (List A) → List A
batch none = []
batch (some as_) = as_

module _ (l : TorrentLib) (at : Surroundings l) where
  abbrev pub needs_save : Listed l → Bool
  needs_save e = e.is_valid && e.status.has_metadata && e.status.need_save_resume

  unfoldable pub to_save : List (Listed l) → List l.Handle
  to_save [] = []
  to_save (e ∷ es) = let rest = to_save es in if needs_save e then e.handle ∷ rest else rest

  -- `pop_alerts` with the next batch.
  unfoldable pub pop_next : Polls l → SheathState l → SheathState l × List (Call l) × Polls l
  unfolding pop_alerts
  pop_next [] s = (s, [], [])
  pop_next (b ∷ bs) s = let (s', calls, logged) = pop_alerts l at (batch b) s in (s', calls, bs)

  -- The loop over the torrents, with `idx` of them done. After each 32 alerts are popped.
  unfoldable pub ask_all :
      ℕ → List l.Handle → Polls l → SheathState l → SheathState l × List (Call l) × Polls l
  unfolding pop_next
  ask_all idx [] polls s = (s, [], polls)
  ask_all idx (h ∷ hs) polls s =
      let s' = asked l at s in
      let (popped, calls, later) =
        if suc idx % 32 == 0 then pop_next polls s' else (s', [], polls) in
      let (s'', more, last) = ask_all (suc idx) hs later popped in
      (s'', ask_resume_data h false ∷ calls ++ more, last)

  abbrev pub made_first :
      List (Call l)
      → Option (SheathState l × List (Call l))
      → Option (SheathState l × List (Call l))
  made_first calls none = none
  made_first calls (some (s, more)) = some (s, calls ++ more)

  -- The wait. `none`: it goes on after the last of the polls.
  unfoldable pub wait_all : Polls l → SheathState l → Option (SheathState l × List (Call l))
  unfolding pop_alerts
  wait_all [] s = if is_pos s.num_outstanding_resume_data then none else some (s, [])
  wait_all (none ∷ bs) s =
      let rest = wait_all bs s in
      if is_pos s.num_outstanding_resume_data then rest else some (s, [])
  wait_all (some b ∷ bs) s =
      let (s', calls, logged) = pop_alerts l at b s in
      let rest = made_first calls (wait_all bs s') in
      if is_pos s.num_outstanding_resume_data then rest else some (s, [])

  unfoldable pub save_all_resume :
      List (Listed l) → Polls l → SheathState l → Option (SheathState l × List (Call l))
  unfolding to_save ask_all wait_all
  save_all_resume listed polls s =
      let (s', calls, later) = ask_all 0 (to_save listed) polls s in
      made_first calls (wait_all later s')
