-- ===== src/Sheath/Drained.antt =====
-- The end of save_all_resume: enough responses end the wait.
use mathlib.Core.List.{Memᴰ}
use kedge.Base.{
  Memᴰ-append_right, Memᴰ-append_left, ℕ, suc, ◌+◌, ◌%◌, ◌≤◌, ◌≡◌, refl, ap, true, false, inl, inr,
  Option, none, some, List, [], ◌∷◌, ◌++◌, arith, Bool-cases, All, ◌==◌, length,
}
use kedge.Base.Int.{is_pos, int_laws, pos_part, neg_part}
use kedge.Sheath.Library.{
  TorrentLib, Alert, metadata_received, add_torrent, torrent_finished, torrent_paused, Call,
  ask_resume_data,
}
use kedge.Sheath.Alerts.{
  SheathState, Surroundings, asked, handle_alert, pop_alerts, on_torrent_finished, connect,
}
use kedge.Sheath.Shutdown.{
  Polls, Listed, batch, to_save, pop_next, ask_all, wait_all, made_first, save_all_resume,
}
use kedge.Sheath.Outstanding.{
  requests, responses, requests-append, requests-on_torrent_finished, requests-connect,
  pop_alerts-Counts,
}

-- The alerts among these that make the program ask for resume data.
unfoldable pub asking : {l : TorrentLib} → List (Alert l) → ℕ
asking [] = 0
asking (metadata_received h ∷ as_) = suc (asking as_)
asking (add_torrent false h ∷ as_) = suc (asking as_)
asking (torrent_finished h ∷ as_) = suc (asking as_)
asking (torrent_paused h ∷ as_) = suc (asking as_)
asking (a ∷ as_) = asking as_

unfoldable pub all_asking : {l : TorrentLib} → Polls l → ℕ
all_asking [] = 0
all_asking (b ∷ bs) = asking (batch b) + all_asking bs

unfoldable pub all_responses : {l : TorrentLib} → Polls l → ℕ
all_responses [] = 0
all_responses (b ∷ bs) = responses (batch b) + all_responses bs

-- The count of outstanding data, with what the polls still bring, is not above zero at their end.
abbrev pub IsCovered : {l : TorrentLib} → Polls l → SheathState l → Type 0
IsCovered polls s =
    pos_part s.num_outstanding_resume_data + all_asking polls
    ≤ neg_part s.num_outstanding_resume_data + all_responses polls

-- More calls before or behind keep the membership.
All-Memᴰ :
    {A B : Type 0} (hs : List A) (f : A → B) (ys xs : List B)
    → All (λ h. Memᴰ (f h) ys) hs
    → All (λ h. Memᴰ (f h) (xs ++ ys)) hs
All-Memᴰ [] f ys xs a = tt
All-Memᴰ (h ∷ hs) f ys xs (a, as_) = (Memᴰ-append_right (f h) xs ys a, All-Memᴰ hs f ys xs as_)

All-Memᴰ_left :
    {A B : Type 0} (hs : List A) (f : A → B) (xs ys : List B)
    → All (λ h. Memᴰ (f h) xs) hs
    → All (λ h. Memᴰ (f h) (xs ++ ys)) hs
All-Memᴰ_left [] f xs ys a = tt
All-Memᴰ_left (h ∷ hs) f xs ys (a, as_) =
    (Memᴰ-append_left (f h) xs ys a, All-Memᴰ_left hs f xs ys as_)

module _ (l : TorrentLib) (at : Surroundings l) where
  requests-pop_alerts :
      (b : List (Alert l)) (s : SheathState l) → requests (pop_alerts l at b s).1 ≡ asking b
  unfolding pop_alerts handle_alert requests asking
  requests-pop_alerts [] s = refl
  requests-pop_alerts (metadata_received h ∷ b) s = ap suc (requests-pop_alerts b _)
  requests-pop_alerts (add_torrent true h ∷ b) s = requests-pop_alerts b _
  requests-pop_alerts (add_torrent false h ∷ b) s = omega (
    arith,
    requests-append (connect l at s.peer h) (pop_alerts l at b (asked l at s)).1,
    requests-connect l at s.peer h,
    requests-pop_alerts b (asked l at s),
  )
  requests-pop_alerts (torrent_finished h ∷ b) s = omega (
    arith,
    requests-append (on_torrent_finished l at h) (pop_alerts l at b (asked l at s)).1,
    requests-on_torrent_finished l at h,
    requests-pop_alerts b (asked l at s),
  )
  requests-pop_alerts (torrent_paused h ∷ b) s = ap suc (requests-pop_alerts b _)
  requests-pop_alerts (a ∷ b) s = requests-pop_alerts b _

  pop_alerts-IsCovered :
      (b : Option (List (Alert l))) (bs : Polls l) (s : SheathState l)
      → IsCovered (b ∷ bs) s
      → IsCovered bs (pop_alerts l at (batch b) s).0
  unfolding all_asking all_responses
  pop_alerts-IsCovered b bs s h =
      omega (arith, pop_alerts-Counts l at (batch b) s, requests-pop_alerts (batch b) s)

  -- The wait ends, and nothing is outstanding then.
  abbrev pub Ends : Option (SheathState l × List (Call l)) → Type 0
  Ends none = ⊥
  Ends (some (s, calls)) = is_pos s.num_outstanding_resume_data ≡ false

  made_first-Ends :
      (cs : List (Call l)) (o : Option (SheathState l × List (Call l)))
      → Ends o
      → Ends (made_first l at cs o)
  made_first-Ends cs none h = h
  made_first-Ends cs (some x) h = h

  wait_all-Ends :
      (polls : Polls l) (s : SheathState l) → IsCovered polls s → Ends (wait_all l at polls s)
  unfolding wait_all all_asking all_responses
  wait_all-Ends [] s h =
      let stop : is_pos s.num_outstanding_resume_data ≡ false = ground arith in rw stop stop
  wait_all-Ends (none ∷ bs) s h = elim (Bool-cases (is_pos s.num_outstanding_resume_data)) [
    | inl e ↦ rw e (wait_all-Ends bs s (pop_alerts-IsCovered none bs s h))
    | inr e ↦ rw e e
  ]
  wait_all-Ends (some b ∷ bs) s h = elim (Bool-cases (is_pos s.num_outstanding_resume_data)) [
    | inl e ↦ rw e (
        made_first-Ends (pop_alerts l at b s).1 (wait_all l at bs (pop_alerts l at b s).0)
          (wait_all-Ends bs (pop_alerts l at b s).0 (pop_alerts-IsCovered (some b) bs s h)))
    | inr e ↦ rw e e
  ]

  -- The same with `n` requests still to be made.
  abbrev pub IsCoveredWith : ℕ → Polls l → SheathState l → Type 0
  IsCoveredWith n polls s =
      pos_part s.num_outstanding_resume_data + n + all_asking polls
      ≤ neg_part s.num_outstanding_resume_data + all_responses polls

  pop_next-IsCovered :
      (n : ℕ) (polls : Polls l) (s : SheathState l)
      → IsCoveredWith n polls s
      → IsCoveredWith n (pop_next l at polls s).2 (pop_next l at polls s).0
  unfolding pop_next all_asking all_responses
  pop_next-IsCovered n [] s h = h
  pop_next-IsCovered n (b ∷ bs) s h =
      omega (arith, h, pop_alerts-Counts l at (batch b) s, requests-pop_alerts (batch b) s)

  asked-IsCovered :
      (n : ℕ) (polls : Polls l) (s : SheathState l)
      → IsCoveredWith (suc n) polls s
      → IsCoveredWith n polls (asked l at s)
  asked-IsCovered n polls s h = omega (int_laws, h)

  ask_all-IsCovered :
      (idx : ℕ) (hs : List l.Handle) (polls : Polls l) (s : SheathState l)
      → IsCoveredWith (length hs) polls s
      → let r = ask_all l at idx hs polls s in IsCovered r.2 r.0
  unfolding ask_all
  ask_all-IsCovered idx [] polls s h = omega (arith, h)
  ask_all-IsCovered idx (x ∷ hs) polls s h =
      let k = asked-IsCovered (length hs) polls s h in
      elim (Bool-cases (suc idx % 32 == 0)) [
        | inl e ↦
            let (s', calls, later) = pop_next l at polls (asked l at s) in
            rw e (
              ask_all-IsCovered (suc idx) hs later s'
                (pop_next-IsCovered (length hs) polls (asked l at s) k))
        | inr e ↦ rw e (ask_all-IsCovered (suc idx) hs polls (asked l at s) k)
      ]

  asks_all :
      (idx : ℕ) (hs : List l.Handle) (polls : Polls l) (s : SheathState l)
      → All (λ h. Memᴰ (ask_resume_data h false) (ask_all l at idx hs polls s).1) hs
  unfolding ask_all
  asks_all idx [] polls s = tt
  asks_all idx (x ∷ hs) polls s =
      (Memᴰ.head refl, All-Memᴰ hs _ _ (ask_resume_data x false ∷ _) (asks_all (suc idx) hs _ _))

  -- What is asked for is among the calls of the whole, and the wait has ended.
  abbrev pub Saves : List l.Handle → Option (SheathState l × List (Call l)) → Type 0
  Saves hs none = ⊥
  Saves hs (some (s, calls)) =
      (is_pos s.num_outstanding_resume_data ≡ false)
      × All (λ h. Memᴰ (ask_resume_data h false) calls) hs

  made_first-Saves :
      (hs : List l.Handle) (cs : List (Call l)) (o : Option (SheathState l × List (Call l)))
      → All (λ h. Memᴰ (ask_resume_data h false) cs) hs
      → Ends o
      → Saves hs (made_first l at cs o)
  made_first-Saves hs cs none a e = e
  made_first-Saves hs cs (some (s, more)) a e = (e, All-Memᴰ_left hs _ cs more a)

  -- If the polls bring a response for each request for resume data, outstanding, made here or
  -- caused by the alerts, the saving at the end comes to an end, with every torrent in need asked
  -- and no response waited for.
  pub save_all_resume_ends :
      (listed : List (Listed l)) (polls : Polls l) (s : SheathState l)
      → IsCoveredWith (length (to_save l at listed)) polls s
      → Saves (to_save l at listed) (save_all_resume l at listed polls s)
  unfolding save_all_resume
  save_all_resume_ends listed polls s h =
      let hs = to_save l at listed in
      let r = ask_all l at 0 hs polls s in
      made_first-Saves hs r.1 (wait_all l at r.2 r.0) (asks_all 0 hs polls s)
        (wait_all-Ends r.2 r.0 (ask_all-IsCovered 0 hs polls s h))
