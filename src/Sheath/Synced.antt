-- ===== src/Sheath/Synced.antt =====
-- getSyncStats of sheath.cpp as what httpCaller sends: the clients keep up with the torrents.
use mathlib.Core.Path.{subst}
use kedge.Base.{
  ℕ, ◌+◌, ◌≤◌, ◌≡◌, refl, sym, ap, ◌∙◌, ◌⊎◌, inl, inr, Bool, true, false, Option, some, List, [],
  ◌∷◌, length, All, Bool-cases,
}
use kedge.Bytes.{Bytes}
use kedge.Util.{HashText}
use kedge.Json.{Json, null, json_eq}
use kedge.JsonDiff.Alike.{Alike}
use kedge.JsonDiff.Plain
use kedge.JsonDiff.Plain.{IsPlain}
use kedge.Hub.{new_hub, is_null, join, leave, do_loop, no_sessions}
use kedge.Hub.Views.{Event, joins, leaves, loops}
use kedge.Hub.Views.Held.{Holder, Feed, watch, watch_all, first_feed, AllSuit}
use kedge.Hub.Views.Held.InStep.{clients_in_step}
use kedge.Stats.{SessionStats}
use kedge.Sheath.Status.{TorrentStatus}
use kedge.Sheath.Query.{statuses, get_sync_stats}
use kedge.Sheath.Query.Flat.{
  HasProgress, sync_stats-IsPlain, sync_stats-Fits, size-sync_stats, torrent_count,
}

-- The counters and the table of torrents at a moment.
pub record Moment (H Hash : Type 0) : Type 0 where
  pub stats : SessionStats
  pub handles : List (H × TorrentStatus Hash)

-- What happens at the hub, with the moment at which the statistics are asked for.
pub data Happening (H Hash : Type 0) : Type 0 where
  comes : (wss : ℕ) (qid random : Bytes) → Moment H Hash → Happening H Hash
  goes : (wss : ℕ) → Happening H Hash
  round : (alive : ℕ → Bool) → Moment H Hash → Happening H Hash

module _ (H : Type 0) (t : HashText) where
  abbrev pub sync : Moment H t.Hash → Json
  sync m = get_sync_stats t m.stats m.handles

  abbrev pub event : Happening H t.Hash → Event
  event (comes wss qid random m) = joins wss qid random (sync m)
  event (goes wss) = leaves wss
  event (round alive m) = loops alive (sync m)

  abbrev pub events : List (Happening H t.Hash) → List Event
  events [] = []
  events (e ∷ es) = event e ∷ events es

  abbrev pub HasNumbers : Moment H t.Hash → Type 0
  HasNumbers m = All HasProgress (statuses t m.handles)

  -- Progresses are numbers, and a round has at most one torrent more than the current statistics, if there
  -- are any.
  abbrev pub Steady : Json → Happening H t.Hash → Type 0
  Steady curr (comes wss qid random m) = HasNumbers m
  Steady curr (goes wss) = Unit
  Steady curr (round alive m) =
      HasNumbers m × ((curr ≡ null) ⊎ (length m.handles ≤ torrent_count curr + 1))

  -- Statistics are those of a moment.
  abbrev Known : Json → Type 0
  Known curr = (curr ≡ null) ⊎ ((m : Moment H t.Hash) × (curr ≡ sync m) × HasNumbers m)

  sync_given : (m : Moment H t.Hash) → is_null (sync m) ≡ false
  unfolding get_sync_stats
  sync_given m = refl

  null-Fits : (v : Json) → Plain.Fits null v
  unfolding Plain.Fits
  null-Fits v = tt

  Known-Fits :
      (curr : Json) (m : Moment H t.Hash)
      → Known curr
      → (curr ≡ null) ⊎ (length m.handles ≤ torrent_count curr + 1)
      → Plain.Fits curr (sync m)
  Known-Fits curr m k (inl e) = subst (λ v. Plain.Fits v (sync m)) (sym e) (null-Fits (sync m))
  Known-Fits curr m (inl e) (inr few) =
      subst (λ v. Plain.Fits v (sync m)) (sym e) (null-Fits (sync m))
  Known-Fits curr m (inr (m0, e, p)) (inr few) =
      subst (λ v. Plain.Fits v (sync m)) (sym e)
        (sync_stats-Fits t m0.stats m.stats m0.handles m.handles p (
          subst (λ n. length m.handles ≤ n + 1)
            (ap torrent_count e ∙ size-sync_stats t m0.stats m0.handles) few))

  module _ (serialize : Json → Bytes) (parse : Bytes → Option Json) where
    abbrev pub AllSteady : Feed → List (Happening H t.Hash) → Type 0
    AllSteady s [] = Unit
    AllSteady s (e ∷ es) =
        Steady s.hub.curr_stats e × AllSteady (watch serialize parse s (event e)) es

    Known-comes :
        (s : Feed) (wss : ℕ) (qid random : Bytes) (m : Moment H t.Hash)
        → Known s.hub.curr_stats
        → HasNumbers m
        → Known (watch serialize parse s (joins wss qid random (sync m))).hub.curr_stats
    unfolding watch join
    Known-comes s wss qid random m k p = elim (Bool-cases (is_null s.hub.curr_stats)) [
      | inl y ↦ rw y (inr (m, refl, p))
      | inr n ↦ rw n k
    ]

    Known-goes :
        (s : Feed) (wss : ℕ)
        → Known s.hub.curr_stats
        → Known (watch serialize parse s (leaves wss)).hub.curr_stats
    unfolding watch leave
    Known-goes s wss k = k

    Known-round :
        (s : Feed) (alive : ℕ → Bool) (m : Moment H t.Hash)
        → Known s.hub.curr_stats
        → HasNumbers m
        → Known (watch serialize parse s (loops alive (sync m))).hub.curr_stats
    unfolding watch do_loop
    Known-round s alive m k p = elim (Bool-cases (no_sessions serialize s.hub.sessions)) [
      | inl y ↦ rw y k
      | inr n ↦ rw n (inr (m, refl, p))
    ]

    steady-AllSuit :
        (es : List (Happening H t.Hash)) (s : Feed)
        → Known s.hub.curr_stats
        → AllSteady s es
        → AllSuit serialize parse s (events es)
    steady-AllSuit [] s k h = tt
    steady-AllSuit (comes wss qid random m ∷ es) s k (p, h) = (
      (sync_given m, sync_stats-IsPlain t m.stats m.handles p),
      steady-AllSuit es (watch serialize parse s (joins wss qid random (sync m)))
          (Known-comes s wss qid random m k p) h,
    )
    steady-AllSuit (goes wss ∷ es) s k (_, h) =
        (tt, steady-AllSuit es (watch serialize parse s (leaves wss)) (Known-goes s wss k) h)
    steady-AllSuit (round alive m ∷ es) s k ((p, few), h) = (
      (
        sync_given m,
        (sync_stats-IsPlain t m.stats m.handles p, Known-Fits s.hub.curr_stats m k few),
      ),
      steady-AllSuit es (watch serialize parse s (loops alive (sync m))) (Known-round s alive m k p)
          h,
    )

    -- If text of JSON is read back as it was written, but for the kind of its integers, where the
    -- values have different keys without "/" and "~" in each object and no NaN, then however
    -- clients join and leave between the rounds of the loop, with the statistics that getSyncStats
    -- gives at these moments, if the progress of each torrent is a number and no round has more
    -- than one torrent more than the statistics before it, each client, reading only the bytes that
    -- it is sent and applying the patches in them by RFC 6902, holds a value equal to the current
    -- statistics of the hub.
    pub clients_synced :
        (es : List (Happening H t.Hash))
        → ((v : Json) → IsPlain v → (w : Json) × (parse (serialize v) ≡ some w) × Alike v w)
        → AllSteady (first_feed serialize parse) es
        → let s = watch_all serialize parse (first_feed serialize parse) (events es) in
          All
            (λ (c : Holder).
              (v : Json) × (c.held ≡ some v) × (json_eq v s.hub.curr_stats ≡ true) × IsPlain v)
            s.holders
    unfolding first_feed new_hub
    clients_synced es back h =
        clients_in_step serialize parse back (events es)
          (steady-AllSuit es (first_feed serialize parse) (inl refl) h)
