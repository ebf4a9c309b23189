-- ===== src/Sheath/Loop.antt =====
-- doLoop and set_peer of sheath.cpp: one round of the session's loop, with the scan of the watched
-- directory.
use kedge.Base.{
  ℕ, ◌+◌, ◌<◌, ◌≡◌, refl, Bool, true, false, inl, inr, Option, none, some, List, [], ◌∷◌, ◌++◌, ltb,
  if◌then◌else◌, arith, Bool-cases,
}
use kedge.Bytes.{Bytes}
use kedge.Util.{Endpoint, parse_endpoint}
use kedge.Sheath.Library.{TorrentLib, Alert, Call}
use kedge.Sheath.Alerts.{SheathState, Surroundings, pop_alerts}

-- Two seconds, in the nanoseconds of the clock.
abbrev pub watch_interval : ℕ
watch_interval = 2000000000

-- `make_address` of Boost.Asio is a parameter, as is the way from an endpoint to libtorrent's type.
module _ {A : Type 0} (make_address : Bytes → Option A) (l : TorrentLib)
    (to_peer : Endpoint A → l.Peer) where
  abbrev pub with_peer : Option (Endpoint A) → SheathState l → SheathState l × Bool
  with_peer none s = (s, false)
  with_peer (some ep) s = (record s { peer = some (to_peer ep) }, true)

  unfoldable pub set_peer : Bytes → SheathState l → SheathState l × Bool
  unfolding parse_endpoint
  set_peer addr s = with_peer (parse_endpoint make_address addr) s

-- The calls of a round, in its order; the posts are answered by later alerts.
pub data LoopCall (l : TorrentLib) : Type 0 where
  post_torrent_updates post_session_stats post_dht_stats : LoopCall l
  on_alert : Call l → LoopCall l
  scan_watched : LoopCall l

module _ (l : TorrentLib) (at : Surroundings l) where
  abbrev pub from_alerts : List (Call l) → List (LoopCall l)
  from_alerts [] = []
  from_alerts (c ∷ cs) = on_alert c ∷ from_alerts cs

  -- The state of the sheath and `next_dir_scan`; watching is always enabled.
  unfoldable pub do_loop :
      List (Alert l) → ℕ → SheathState l × ℕ → (SheathState l × ℕ) × List (LoopCall l)
  unfolding pop_alerts
  do_loop alerts now (s, next_dir_scan) =
      let (s', calls, logged) = pop_alerts l at alerts s in
      let done = post_torrent_updates ∷ post_session_stats ∷ post_dht_stats ∷ from_alerts calls in
      if ltb next_dir_scan now
      then ((s', now + watch_interval), done ++ scan_watched ∷ [])
      else ((s', next_dir_scan), done)

  -- Whether a round scans the watched directory.
  unfoldable pub scanned : List (LoopCall l) → Bool
  scanned [] = false
  scanned (scan_watched ∷ cs) = true
  scanned (c ∷ cs) = scanned cs

  scanned-from_alerts : (cs : List (Call l)) → scanned (from_alerts cs) ≡ false
  unfolding scanned
  scanned-from_alerts [] = refl
  scanned-from_alerts (c ∷ cs) = scanned-from_alerts cs

  scanned-append : (cs : List (Call l)) → scanned (from_alerts cs ++ scan_watched ∷ []) ≡ true
  unfolding scanned
  scanned-append [] = refl
  scanned-append (c ∷ cs) = scanned-append cs

  -- The times of the rounds that scan, each round with its alerts and its time.
  pub scans : List (List (Alert l) × ℕ) → SheathState l × ℕ → List ℕ
  scans [] st = []
  scans ((alerts, now) ∷ rounds) st =
      let (st', calls) = do_loop alerts now st in
      let later = scans rounds st' in if scanned calls then now ∷ later else later

  -- Each time is later than the one before by more than the interval, and the first than `next`.
  abbrev pub AreSpaced : ℕ → List ℕ → Type 0
  AreSpaced next [] = Unit
  AreSpaced next (t ∷ ts) = (next < t) × AreSpaced (t + watch_interval) ts

  -- Whatever alerts arrive and however the clock goes, the watched directory is scanned first after
  -- the time set for it, and then each time more than two seconds after the scan before.
  pub scans-AreSpaced :
      (rounds : List (List (Alert l) × ℕ)) (s : SheathState l) (next : ℕ)
      → AreSpaced next (scans rounds (s, next))
  unfolding scans do_loop scanned
  scans-AreSpaced [] s next = tt
  scans-AreSpaced ((alerts, now) ∷ rounds) s next =
      let (s', calls, logged) = pop_alerts l at alerts s in
      elim (Bool-cases (ltb next now)) [
        | inl e ↦
            rw (e, scanned-append calls)
              (ground arith, scans-AreSpaced rounds s' (now + watch_interval))
        | inr e ↦ rw (e, scanned-from_alerts calls) (scans-AreSpaced rounds s' next)
      ]
