-- ===== src/Hub/Views/Held/InStep.antt =====
-- The clients keep up with the statistics of the hub.
use mathlib.Core.Path.{subst}
use kedge.Base.{
  ℕ, ◌≤◌, ◌≡◌, refl, ◌∙◌, ◌⊎◌, inl, inr, Bool, true, false, Option, some, List, [], ◌∷◌, ◌==◌,
  arith, if◌then◌else◌, All, Bool-cases,
}
use kedge.Bytes.{Bytes}
use kedge.Json.{Json, null, json_eq}
use kedge.JsonDiff.{json_diff}
use kedge.JsonDiff.Alike.{Alike}
use kedge.JsonDiff.Plain
use kedge.JsonDiff.Plain.{IsPlain}
use kedge.Hub.{
  new_hub, is_null, next_version, delta, or_random, insert, erase, join, leave, do_loop,
  no_sessions,
}
use kedge.Hub.Views.{Event, joins, leaves, loops}
use kedge.Hub.Views.Held.{Holder, Feed, without, watch, watch_all, first_feed, AllSuit}
use kedge.Hub.Views.Held.Delivery.{
  times, times-insert_other, times-insert_self, times-erase_other, times-erase-le,
}
use kedge.Hub.Views.Held.Kept.{
  Holders, Listed, welcome-Holding, delta-Holding, Holders-without, Listed-without, Listed-deliver,
  Holders-deliver,
}

is_null_iff : (v : Json) → is_null v ≡ true → v ≡ null
is_null_iff null h = refl
is_null_iff v h = cc

module _ (serialize : Json → Bytes) (parse : Bytes → Option Json)
    (back : (v : Json) → IsPlain v → (w : Json) × (parse (serialize v) ≡ some w) × Alike v w) where
  -- Each client holds a plain value that equals the current statistics, and its session is in the set once.
  record IsKept (s : Feed) : Type 0 where
    pub holders : Holders serialize parse back s.hub.curr_stats s.holders
    pub listed : Listed serialize parse back s.hub.sessions s.holders
    pub single : (p : ℕ) → times p s.hub.sessions ≤ 1
    pub known : (s.holders ≡ []) ⊎ (is_null s.hub.curr_stats ≡ false)
    pub previous : (s.hub.prev_stats ≡ s.hub.curr_stats) ⊎ (s.hub.prev_stats ≡ null)
    pub plain : IsPlain s.hub.curr_stats

  single-insert :
      (w : ℕ) (ps : List ℕ) → ((p : ℕ) → times p ps ≤ 1) → (p : ℕ) → times p (insert w ps) ≤ 1
  single-insert w ps h p = elim (Bool-cases (w == p)) [
    | inl y ↦
        let same : w ≡ p = ground (arith, y) in
        let once : times w (insert w ps) ≡ 1 = times-insert_self w ps (h w) in
        subst (λ q. times q (insert w ps) ≤ 1) same (omega (arith, once))
    | inr n ↦ omega (arith, times-insert_other p w ps n, h p)
  ]

  joined :
      (s : Feed) (wss : ℕ) (qid random : Bytes) (stats curr : Json)
      → IsKept s
      → IsPlain curr
      → is_null curr ≡ false
      → (s.hub.prev_stats ≡ curr) ⊎ (s.hub.prev_stats ≡ null)
      → Holders serialize parse back curr (without wss s.holders)
      → (if is_null s.hub.curr_stats then stats else s.hub.curr_stats) ≡ curr
      → IsKept (watch serialize parse s (joins wss qid random stats))
  unfolding watch join
  joined s wss qid random stats curr k p n before rest e = rw e (record {
    holders = (
      welcome-Holding serialize parse back wss (next_version s.hub.sync_ver) (or_random qid random)
          curr p,
      rest,
    );
    listed = (
      times-insert_self wss s.hub.sessions (k.single wss),
      Listed-without serialize parse back wss s.hub.sessions (insert wss s.hub.sessions) s.holders
          (λ q other. times-insert_other q wss s.hub.sessions other) k.listed,
    );
    single = single-insert wss s.hub.sessions k.single;
    known = inr n;
    previous = before;
    plain = p;
  })

  join-IsKept :
      (s : Feed) (wss : ℕ) (qid random : Bytes) (stats : Json)
      → is_null stats ≡ false
      → IsPlain stats
      → IsKept s
      → IsKept (watch serialize parse s (joins wss qid random stats))
  join-IsKept s wss qid random stats n p k = elim (Bool-cases (is_null s.hub.curr_stats)) [
    | inl e ↦
        joined s wss qid random stats stats k p n (inr (none_before e k.previous))
          (nobody s.holders e k.known) (rw e refl)
    | inr e ↦
        joined s wss qid random stats s.hub.curr_stats k k.plain e k.previous
          (Holders-without serialize parse back s.hub.curr_stats wss s.holders k.holders)
          (rw e refl)
  ]
    where
      nobody :
          (cs : List Holder)
          → is_null s.hub.curr_stats ≡ true
          → (cs ≡ []) ⊎ (is_null s.hub.curr_stats ≡ false)
          → Holders serialize parse back stats (without wss cs)
      nobody cs e (inl q) = rw q tt
      nobody cs e (inr q) = let wrong : ⊥ = cc in absurd wrong

      none_before :
          is_null s.hub.curr_stats ≡ true
          → (s.hub.prev_stats ≡ s.hub.curr_stats) ⊎ (s.hub.prev_stats ≡ null)
          → s.hub.prev_stats ≡ null
      none_before e (inl q) = q ∙ is_null_iff s.hub.curr_stats e
      none_before e (inr q) = q

  leave-IsKept : (s : Feed) (wss : ℕ) → IsKept s → IsKept (watch serialize parse s (leaves wss))
  unfolding watch leave
  leave-IsKept s wss k = record {
    holders = Holders-without serialize parse back s.hub.curr_stats wss s.holders k.holders;
    listed =
        Listed-without serialize parse back wss s.hub.sessions (erase wss s.hub.sessions) s.holders
          (λ q other. times-erase_other q wss s.hub.sessions other) k.listed;
    single = λ p. omega (arith, times-erase-le p wss s.hub.sessions, k.single p);
    known = known k.known;
    previous = k.previous;
    plain = k.plain;
  }
    where
      known :
          (s.holders ≡ []) ⊎ (is_null s.hub.curr_stats ≡ false)
          → (without wss s.holders ≡ []) ⊎ (is_null s.hub.curr_stats ≡ false)
      known (inl q) = inl (rw q refl)
      known (inr q) = inr q

  -- Without a session there is no client.
  no_holders :
      (ps : List ℕ) (cs : List Holder)
      → no_sessions serialize ps ≡ true
      → Listed serialize parse back ps cs
      → cs ≡ []
  no_holders [] [] e h = refl
  no_holders [] (c ∷ cs) e (h, hs) = absurd (omega (arith, h))
  no_holders (p ∷ ps) cs e h = cc

  loop-IsKept :
      (s : Feed) (alive : ℕ → Bool) (stats : Json)
      → is_null stats ≡ false
      → IsPlain stats
      → Plain.Fits s.hub.curr_stats stats
      → IsKept s
      → IsKept (watch serialize parse s (loops alive stats))
  unfolding watch do_loop
  loop-IsKept s alive stats n p f k = elim (Bool-cases (no_sessions serialize s.hub.sessions)) [
    | inl e ↦
        let none_here = no_holders s.hub.sessions s.holders e k.listed in
        rw (e, none_here)
          (record {
            holders = tt;
            listed = tt;
            single = k.single;
            known = inl refl;
            previous = k.previous;
            plain = k.plain;
          })
    | inr e ↦ rw e (record {
      holders =
          Holders-deliver serialize parse back alive
            (serialize (delta (next_version s.hub.sync_ver) (json_diff s.hub.prev_stats stats [])))
            s.hub.sessions s.hub.curr_stats stats s.holders
            (λ held h.
              delta-Holding serialize parse back (next_version s.hub.sync_ver) s.hub.prev_stats
                s.hub.curr_stats stats held k.previous n k.plain p f h)
            k.listed k.holders;
      listed = Listed-deliver serialize parse back alive _ s.hub.sessions s.holders k.listed;
      single = k.single;
      known = inr n;
      previous = inl refl;
      plain = p;
    })
  ]

  watch_all-IsKept :
      (es : List Event) (s : Feed)
      → AllSuit serialize parse s es
      → IsKept s
      → IsKept (watch_all serialize parse s es)
  unfolding watch_all
  watch_all-IsKept [] s h k = k
  watch_all-IsKept (joins w q r st ∷ es) s ((n, p), h) k =
      watch_all-IsKept es (watch serialize parse s (joins w q r st)) h
        (join-IsKept s w q r st n p k)
  watch_all-IsKept (leaves w ∷ es) s (_, h) k =
      watch_all-IsKept es (watch serialize parse s (leaves w)) h (leave-IsKept s w k)
  watch_all-IsKept (loops a st ∷ es) s ((n, (p, f)), h) k =
      watch_all-IsKept es (watch serialize parse s (loops a st)) h (loop-IsKept s a st n p f k)

  -- x
  pub clients_in_step :
      (es : List Event)
      → AllSuit serialize parse (first_feed serialize parse) es
      → let s = watch_all serialize parse (first_feed serialize parse) es in
        All
          (λ (c : Holder).
            (v : Json) × (c.held ≡ some v) × (json_eq v s.hub.curr_stats ≡ true) × IsPlain v)
          s.holders
  unfolding first_feed new_hub IsPlain
  clients_in_step es h =
      (watch_all-IsKept es (first_feed serialize parse) h (record {
        holders = tt;
        listed = tt;
        single = λ p. omega arith;
        known = inl refl;
        previous = inl refl;
        plain = tt;
      })).holders
