-- ===== src/Sheath/Control.antt =====
-- sheath.cpp: the control of single torrents and of the session.
use kedge.Base.{
  ◌≡◌, refl, ◌∙◌, Bool, true, false, ◌&&◌, not, inl, inr, Option, none, some, if◌then◌else◌,
  Bool-cases,
}
use kedge.Bytes.{Bytes}

-- The two flags of a torrent that the source reads, and the calls that change them.
pub record FlagOps (T : Type 0) : Type 0 where
  pub auto_managed : T → Bool
  pub paused : T → Bool
  pub set_auto_managed : Bool → T → T
  pub pause : T → T
  pub resume : T → T

-- What libtorrent documents of these calls.
pub record AreFlags {T : Type 0} (f : FlagOps T) : Type 0 where
  pub set-auto_managed : (b : Bool) (t : T) → f.auto_managed (f.set_auto_managed b t) ≡ b
  pub set-paused : (b : Bool) (t : T) → f.paused (f.set_auto_managed b t) ≡ f.paused t
  pub pause-auto_managed : (t : T) → f.auto_managed (f.pause t) ≡ f.auto_managed t
  pub pause-paused : (t : T) → f.paused (f.pause t) ≡ true
  pub resume-auto_managed : (t : T) → f.auto_managed (f.resume t) ≡ f.auto_managed t
  pub resume-paused : (t : T) → f.paused (f.resume t) ≡ false

-- What a session offers for a hash: its torrent, and the replacement of it.
pub record Torrents (Hash T S : Type 0) : Type 0 where
  pub find_torrent : Hash → S → Option T
  pub store : Hash → T → S → S
  pub remove_torrent : Hash → (delete_files : Bool) → S → S
  pub remove_file : Bytes → S → S
  pub is_paused : S → Bool
  pub pause_session : S → S
  pub resume_session : S → S

and-false : (b : Bool) → (b && false) ≡ false
and-false true = refl
and-false false = refl

not-not : (b : Bool) → not (not b) ≡ b
not-not true = refl
not-not false = refl

module _ {T : Type 0} (f : FlagOps T) where
  -- Paused, and not by libtorrent's own management.
  abbrev pub is_stopped : T → Bool
  is_stopped t = f.paused t && not (f.auto_managed t)

  -- What is done to a valid torrent.
  unfoldable pub pause_or_resume : T → T
  pause_or_resume t =
      if is_stopped t then f.set_auto_managed true t else f.pause (f.set_auto_managed false t)

  unfoldable pub force_resume : T → T
  force_resume t =
      let t' = f.set_auto_managed (not (f.auto_managed t)) t in
      if f.auto_managed t && f.paused t then f.resume t' else t'

  module _ (laws : AreFlags f) where
    pause_or_resume-flips : (t : T) → is_stopped (pause_or_resume t) ≡ not (is_stopped t)
    unfolding pause_or_resume
    pause_or_resume-flips t = elim (Bool-cases (is_stopped t)) [
      | inl e ↦
          rw e
            (rw (laws.set-auto_managed true t) (and-false (f.paused (f.set_auto_managed true t))))
      | inr e ↦ rw e (
          rw
            (
              laws.pause-paused (f.set_auto_managed false t),
              laws.pause-auto_managed (f.set_auto_managed false t),
              laws.set-auto_managed false t,
            )
            refl)
    ]

    force_resume-started : (t : T) → is_stopped (force_resume t) ≡ false
    unfolding force_resume
    force_resume-started t = elim (Bool-cases (f.auto_managed t)) [
      | inl a ↦ elim (Bool-cases (f.paused t)) [
        | inl p ↦ rw (a, p) (rw (laws.resume-paused (f.set_auto_managed false t)) refl)
        | inr p ↦ rw (a, p) (rw (laws.set-paused false t, p) refl)
      ]
      | inr a ↦
          rw a
            (rw (laws.set-auto_managed true t) (and-false (f.paused (f.set_auto_managed true t))))
    ]

    -- If libtorrent sets and clears the two flags as documented, a toggle of a torrent flips
    -- whether the user has stopped it, so that two toggles undo each other in this, and a torrent
    -- that is forced to start is not stopped.
    pub pause_or_resume_flips :
        (t : T)
        → (is_stopped (pause_or_resume t) ≡ not (is_stopped t))
          × (is_stopped (pause_or_resume (pause_or_resume t)) ≡ is_stopped t)
          × (is_stopped (force_resume t) ≡ false)
    pause_or_resume_flips t = (
      pause_or_resume-flips t,
      pause_or_resume-flips (pause_or_resume t)
          ∙ rw (pause_or_resume-flips t) (not-not (is_stopped t)),
      force_resume-started t,
    )

module _ {Hash T S : Type 0} (f : FlagOps T) (ops : Torrents Hash T S)
    (resume_file : Hash → Bytes) where
  abbrev pub changed : (T → T) → Hash → Option T → S → S × Bool
  changed g ih none s = (s, false)
  changed g ih (some t) s = (ops.store ih (g t) s, true)

  unfoldable pub pause_resume_torrent : Hash → S → S × Bool
  unfolding pause_or_resume
  pause_resume_torrent ih s = changed (pause_or_resume f) ih (ops.find_torrent ih s) s

  unfoldable pub resume_torrent : Hash → S → S × Bool
  unfolding force_resume
  resume_torrent ih s = changed (force_resume f) ih (ops.find_torrent ih s) s

  abbrev pub is_known : Option T → Bool
  is_known none = false
  is_known (some t) = true

  unfoldable pub exists : Hash → S → Bool
  exists ih s = is_known (ops.find_torrent ih s)

  -- The resume file goes first, also where there is no such torrent.
  unfoldable pub drop_torrent : Hash → Bool → S → S × Bool
  drop_torrent ih with_data s =
      let s' = ops.remove_file (resume_file ih) s in
      if is_known (ops.find_torrent ih s')
      then (ops.remove_torrent ih with_data s', true)
      else (s', false)

  unfoldable pub toggle_pause_resume : S → S × Bool
  toggle_pause_resume s =
      let s' = if ops.is_paused s then ops.resume_session s else ops.pause_session s in
      (s', ops.is_paused s')
