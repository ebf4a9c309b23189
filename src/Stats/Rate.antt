-- ===== src/Stats/Rate.antt =====
-- The window over which rates are computed.
use kedge.Base.{
  ℕ, ◌+◌, ◌-◌, ◌≤◌, ◌<◌, ◌≡◌, refl, ◌⊎◌, ◌∙◌, inl, inr, some, ap, leb, length, get_elem?, true,
  List, [], ◌∷◌, arith, ltb, Bool-cases,
}
use mathlib.Core.List.{Memᴰ}
use kedge.Base.Int.{ℤ, ◌-ℤ◌}
use kedge.Stats.{SessionStats, Metrics, rates, SessionValues, update_counters, sub_u64}

-- One update of the counters, with its time.
pub record Sample : Type 0 where
  pub time : ℕ
  pub counters : List ℤ

unfoldable pub update_all : SessionValues → List Sample → SessionValues
update_all v [] = v
update_all v (x ∷ xs) = update_all (update_counters x.counters x.time v) xs

-- Times that go up, by at most `gap`, from `t` on, within 64 bits.
abbrev pub GoesUp : ℕ → ℕ → List Sample → Type 0
GoesUp gap t [] = Unit
GoesUp gap t (x ∷ xs) =
    (t < x.time) × (x.time ≤ t + gap) × (x.time < 18446744073709551616) × GoesUp gap x.time xs

-- The window lies in the past, and is at most two seconds long or one gap, whichever is longer.
pub record HasWindow (gap : ℕ) (v : SessionValues) : Type 0 where
  pub within : v.current_time < 18446744073709551616
  pub order : v.last_time < v.current_time
  pub short : (v.current_time - v.last_time ≤ 2000000) ⊎ (v.current_time - v.last_time ≤ gap)

update_counters-HasWindow :
    (gap : ℕ) (v : SessionValues) (x : Sample)
    → v.last_time ≤ v.current_time
    → GoesUp gap v.current_time (x ∷ [])
    → HasWindow gap (update_counters x.counters x.time v)
unfolding update_counters
update_counters-HasWindow gap v x h (up, near, fits, _) = ground arith

update_counters-current :
    (sc : List ℤ) (t : ℕ) (v : SessionValues)
    → ((update_counters sc t v).current_time ≡ t) × ((update_counters sc t v).current ≡ sc)
unfolding update_counters
update_counters-current sc t v = ground arith

update_all-HasWindow :
    (gap : ℕ) (v : SessionValues) (x : Sample) (xs : List Sample)
    → v.last_time ≤ v.current_time
    → GoesUp gap v.current_time (x ∷ xs)
    → HasWindow gap (update_all v (x ∷ xs))
unfolding update_all
update_all-HasWindow gap v x [] h up = update_counters-HasWindow gap v x h up
update_all-HasWindow gap v x (y ∷ ys) h (now, near, fits, later) =
    let w = update_counters-HasWindow gap v x h (now, near, fits, tt) in
    let (same, _) = update_counters-current x.counters x.time v in
    update_all-HasWindow gap (update_counters x.counters x.time v) y ys (omega arith)
      (rw same later)

abbrev pub last_sample : SessionValues → Sample
last_sample v = record { time = v.last_time; counters = v.last }

abbrev pub current_sample : SessionValues → Sample
current_sample v = record { time = v.current_time; counters = v.current }

last-update_counters :
    (x : Sample) (v : SessionValues)
    → let w = update_counters x.counters x.time v in
      (current_sample w ≡ x)
      × ((last_sample w ≡ last_sample v) ⊎ (last_sample w ≡ current_sample v))
unfolding update_counters
last-update_counters x v = elim (Bool-cases (ltb 2000000 (sub_u64 x.time v.last_time))) [
  | inl e ↦ rw e (refl, inr refl)
  | inr e ↦ rw e (refl, inl refl)
]

last-update_all :
    (xs : List Sample) (v : SessionValues)
    → Memᴰ (last_sample (update_all v xs)) (last_sample v ∷ current_sample v ∷ xs)
unfolding update_all
last-update_all [] v = Memᴰ.head refl
last-update_all (x ∷ xs) v =
    let w = update_counters x.counters x.time v in
    let (now, before) = last-update_counters x v in earlier (last-update_all xs w) now before
  where
    earlier :
        {s : Sample} {w : SessionValues}
        → Memᴰ s (last_sample w ∷ current_sample w ∷ xs)
        → current_sample w ≡ x
        → (last_sample w ≡ last_sample v) ⊎ (last_sample w ≡ current_sample v)
        → Memᴰ s (last_sample v ∷ current_sample v ∷ x ∷ xs)
    earlier (Memᴰ.head e) now (inl b) = Memᴰ.head (e ∙ b)
    earlier (Memᴰ.head e) now (inr b) = Memᴰ.tail (Memᴰ.head (e ∙ b))
    earlier (Memᴰ.tail (Memᴰ.head e)) now b = Memᴰ.tail (Memᴰ.tail (Memᴰ.head (e ∙ now)))
    earlier (Memᴰ.tail (Memᴰ.tail m)) now b = Memᴰ.tail (Memᴰ.tail (Memᴰ.tail m))

-- The sample that the rates are taken from.
abbrev pub base_of : SessionValues → List Sample → Sample
base_of v xs = last_sample (update_all v xs)

-- The last of the updates.
abbrev pub latest_of : Sample → List Sample → Sample
latest_of x [] = x
latest_of x (y ∷ ys) = latest_of y ys

current-update_all :
    (v : SessionValues) (x : Sample) (xs : List Sample)
    → current_sample (update_all v (x ∷ xs)) ≡ latest_of x xs
unfolding update_all
current-update_all v x [] = (last-update_counters x v).0
current-update_all v x (y ∷ ys) = current-update_all (update_counters x.counters x.time v) y ys

-- The clock of 64 bits is not wrapped round within a window.
sub_u64-HasWindow :
    (gap : ℕ) (v : SessionValues)
    → HasWindow gap v
    → sub_u64 v.current_time v.last_time ≡ v.current_time - v.last_time
sub_u64-HasWindow gap v w = omega (arith, w.within, w.order)

module _ (m : Metrics) (per_second : ℤ → ℕ → ℤ) where
  rates_lem :
      (gap : ℕ) (v : SessionValues) (s : SessionStats) (r0 r1 s0 s1 : ℤ) (t : ℕ)
      → v.current_time ≡ t
      → HasWindow gap v
      → m.send_data ≤ length v.last
      → get_elem? v.current m.recv ≡ some r0
      → get_elem? v.last m.recv ≡ some r1
      → get_elem? v.current m.sent ≡ some s0
      → get_elem? v.last m.sent ≡ some s1
      → rates m per_second v s
        ≡ some (record s {
          rate_recv = per_second (r0 -ℤ r1) (t - v.last_time);
          rate_sent = per_second (s0 -ℤ s1) (t - v.last_time);
        })
  unfolding rates
  rates_lem gap v s r0 r1 s0 s1 t e w long a b c d =
      let large : leb m.send_data (length v.last) ≡ true = ground arith in
      rw (large, a, b, c, d, sub_u64-HasWindow gap v w, e) refl

  -- If the times of the updates go up by at most a gap, from a window with its times in order and
  -- within 64 bits, then after each update the window is from a sample before it to the latest one,
  -- its times are different and at most two seconds or one gap apart, and if both samples have the
  -- counters of the bytes received and sent, and the earlier one as many counters as the position
  -- of the payload sent, each rate is the counter of the latest sample less that of the earlier
  -- one, per second of the time between the two.
  pub update_all_window :
      (gap : ℕ) (v : SessionValues) (x : Sample) (xs : List Sample) (s : SessionStats)
      (r0 r1 s0 s1 : ℤ)
      → v.last_time ≤ v.current_time
      → GoesUp gap v.current_time (x ∷ xs)
      → m.send_data ≤ length (base_of v (x ∷ xs)).counters
      → get_elem? (latest_of x xs).counters m.recv ≡ some r0
      → get_elem? (base_of v (x ∷ xs)).counters m.recv ≡ some r1
      → get_elem? (latest_of x xs).counters m.sent ≡ some s0
      → get_elem? (base_of v (x ∷ xs)).counters m.sent ≡ some s1
      → HasWindow gap (update_all v (x ∷ xs))
        × (current_sample (update_all v (x ∷ xs)) ≡ latest_of x xs)
        × Memᴰ (base_of v (x ∷ xs)) (last_sample v ∷ current_sample v ∷ x ∷ xs)
        × (rates m per_second (update_all v (x ∷ xs)) s
            ≡ some (record s {
              rate_recv = per_second (r0 -ℤ r1) ((latest_of x xs).time - (base_of v (x ∷ xs)).time);
              rate_sent = per_second (s0 -ℤ s1) ((latest_of x xs).time - (base_of v (x ∷ xs)).time);
            }))
  update_all_window gap v x xs s r0 r1 s0 s1 h up long a b c d =
      let w = update_all-HasWindow gap v x xs h up in
      let now = current-update_all v x xs in
      (
        w,
        now,
        last-update_all (x ∷ xs) v,
        rates_lem gap (update_all v (x ∷ xs)) s r0 r1 s0 s1 (latest_of x xs).time
            (ap (λ (y : Sample). y.time) now) w long
            (ap (λ (y : Sample). get_elem? y.counters m.recv) now ∙ a) b
            (ap (λ (y : Sample). get_elem? y.counters m.sent) now ∙ c) d,
      )
