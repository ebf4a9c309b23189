-- ===== src/Sheath/Handles.antt =====
-- m_all_handles of sheath: the table of the torrents' last known status.
use kedge.Base.{
  ◌≡◌, ◌≢◌, refl, sym, ap, ◌∙◌, true, false, inl, inr, Option, none, some, List, [], ◌∷◌,
  if◌then◌else◌, Bool-cases,
}
use kedge.Sheath.Library.{
  TorrentLib, IsHandleEquality, Status, Alert, state_update, torrent_removed, add_torrent,
}
use kedge.Sheath.Alerts.{
  SheathState, Surroundings, find_handle, set_torrent, set_all_torrents, remove_torrent_with_handle,
  handle_alert, pop_alerts,
}

abbrev pub Table : TorrentLib → Type 0
Table l = List (l.Handle × Status l)

-- The last status given for a torrent.
unfoldable pub latest :
    (l : TorrentLib) → l.Handle → List (l.Handle × Status l) → Option (Status l) → Option (Status l)
latest l h [] old = old
latest l h ((k, st) ∷ sts) old = latest l h sts (if l.same k h then some st else old)

-- What a batch of alerts says of a torrent.
unfoldable pub known :
    (l : TorrentLib) → l.Handle → List (Alert l) → Option (Status l) → Option (Status l)
unfolding latest
known l k [] old = old
known l k (state_update sts ∷ b) old = known l k b (latest l k sts old)
known l k (torrent_removed h ∷ b) old = known l k b (if l.same h k then none else old)
known l k (a ∷ b) old = known l k b old

-- No torrent stands twice in the table.
abbrev pub IsDistinct : (l : TorrentLib) → Table l → Type 0
IsDistinct l [] = Unit
IsDistinct l ((h, st) ∷ ms) = (find_handle l h ms ≡ none) × IsDistinct l ms

module _ (l : TorrentLib) (eq : IsHandleEquality l) where
  same_of_eq : (h k : l.Handle) → h ≡ k → l.same h k ≡ true
  same_of_eq h k e = (eq.same_iff h k).1 e

  ne_of_false : (a b : l.Handle) → l.same a b ≡ false → a ≢ b
  ne_of_false a b e = λ p. let z = same_of_eq a b p in cc

  false-same : (a b : l.Handle) → l.same a b ≡ false → l.same b a ≡ false
  false-same a b e = elim (Bool-cases (l.same b a)) [
    | inl f ↦ absurd (ne_of_false a b e (sym ((eq.same_iff b a).0 f)))
    | inr f ↦ f
  ]

  find_handle-set_torrent :
      (h k : l.Handle) (st : Status l) (ms : Table l)
      → find_handle l k (set_torrent l h st ms)
        ≡ (if l.same h k then some st else find_handle l k ms)
  unfolding find_handle set_torrent
  find_handle-set_torrent h k st [] = refl
  find_handle-set_torrent h k st ((j, old) ∷ ms) = elim (Bool-cases (l.same j h)) [
    | inl e ↦
        rw (e, (eq.same_iff j h).0 e)
          (elim (Bool-cases (l.same h k)) [ inl f ↦ rw f refl | inr f ↦ rw f refl ])
    | inr e ↦ rw e (elim (Bool-cases (l.same j k)) [
      | inl f ↦ rw f (elim (Bool-cases (l.same h k)) [
        | inl g ↦ absurd (ne_of_false j h e ((eq.same_iff j k).0 f ∙ sym ((eq.same_iff h k).0 g)))
        | inr g ↦ rw g refl
      ])
      | inr f ↦ rw f (find_handle-set_torrent h k st ms)
    ])
  ]

  IsDistinct-set_torrent :
      (h : l.Handle) (st : Status l) (ms : Table l)
      → IsDistinct l ms
      → IsDistinct l (set_torrent l h st ms)
  unfolding find_handle set_torrent
  IsDistinct-set_torrent h st [] d = (refl, tt)
  IsDistinct-set_torrent h st ((j, old) ∷ ms) (n, d) = elim (Bool-cases (l.same j h)) [
    | inl e ↦ rw e (n, d)
    | inr e ↦ rw e (
      rw (find_handle-set_torrent h j st ms, false-same j h e) n,
      IsDistinct-set_torrent h st ms d,
    )
  ]

  IsDistinct-set_all_torrents :
      (sts ms : Table l) → IsDistinct l ms → IsDistinct l (set_all_torrents l sts ms)
  unfolding set_all_torrents
  IsDistinct-set_all_torrents [] ms d = d
  IsDistinct-set_all_torrents ((h, st) ∷ sts) ms d =
      IsDistinct-set_all_torrents sts (set_torrent l h st ms) (IsDistinct-set_torrent h st ms d)

  -- If equality of handles is decided, then after an update of the torrents each of them has the
  -- last status given for it, and each torrent that the update does not name has its old one.
  pub set_all_torrents-latest :
      (sts ms : Table l) (k : l.Handle)
      → find_handle l k (set_all_torrents l sts ms) ≡ latest l k sts (find_handle l k ms)
  unfolding set_all_torrents latest
  set_all_torrents-latest [] ms k = refl
  set_all_torrents-latest ((h, st) ∷ sts) ms k =
      set_all_torrents-latest sts (set_torrent l h st ms) k
      ∙ ap (latest l k sts) (find_handle-set_torrent h k st ms)

  -- If equality of handles is decided, removing a torrent takes it out of a table without doubles
  -- and leaves the others there as they were.
  pub find_handle-remove_torrent :
      (h k : l.Handle) (ms : Table l)
      → IsDistinct l ms
      → find_handle l k (remove_torrent_with_handle l h ms)
        ≡ (if l.same h k then none else find_handle l k ms)
  unfolding find_handle remove_torrent_with_handle
  find_handle-remove_torrent h k [] d = elim (Bool-cases (l.same h k)) [
    | inl e ↦ rw e refl
    | inr e ↦ rw e refl
  ]
  find_handle-remove_torrent h k ((j, old) ∷ ms) (n, d) = elim (Bool-cases (l.same j h)) [
    | inl e ↦
        rw (e, (eq.same_iff j h).0 e)
          (elim (Bool-cases (l.same h k)) [
            | inl f ↦ rw (f, ← ((eq.same_iff j h).0 e ∙ (eq.same_iff h k).0 f)) n
            | inr f ↦ rw f refl
          ])
    | inr e ↦ rw e (elim (Bool-cases (l.same j k)) [
      | inl f ↦ rw (f, ← (eq.same_iff j k).0 f, false-same j h e) refl
      | inr f ↦ rw f (find_handle-remove_torrent h k ms d)
    ])
  ]

  IsDistinct-remove_torrent :
      (h : l.Handle) (ms : Table l)
      → IsDistinct l ms
      → IsDistinct l (remove_torrent_with_handle l h ms)
  unfolding remove_torrent_with_handle
  IsDistinct-remove_torrent h [] d = tt
  IsDistinct-remove_torrent h ((j, old) ∷ ms) (n, d) = elim (Bool-cases (l.same j h)) [
    | inl e ↦ rw e d
    | inr e ↦ rw e (
      rw (find_handle-remove_torrent h j ms d, false-same j h e) n,
      IsDistinct-remove_torrent h ms d,
    )
  ]

  known-one :
      (a : Alert l) (b : List (Alert l)) (k : l.Handle) (old : Option (Status l))
      → known l k b (known l k (a ∷ []) old) ≡ known l k (a ∷ b) old
  unfolding known
  known-one (state_update sts) b k old = refl
  known-one (torrent_removed h) b k old = refl
  known-one a b k old = refl

  module _ (at : Surroundings l) where
    handle_alert-IsDistinct :
        (a : Alert l) (s : SheathState l)
        → IsDistinct l s.all_handles
        → IsDistinct l (handle_alert l at a s).0.all_handles
    unfolding handle_alert
    handle_alert-IsDistinct (state_update sts) s d = IsDistinct-set_all_torrents sts s.all_handles d
    handle_alert-IsDistinct (torrent_removed h) s d = IsDistinct-remove_torrent h s.all_handles d
    handle_alert-IsDistinct (add_torrent true h) s d = d
    handle_alert-IsDistinct (add_torrent false h) s d = d
    handle_alert-IsDistinct a s d = d

    handle_alert-known :
        (a : Alert l) (s : SheathState l) (k : l.Handle)
        → IsDistinct l s.all_handles
        → find_handle l k (handle_alert l at a s).0.all_handles
          ≡ known l k (a ∷ []) (find_handle l k s.all_handles)
    unfolding handle_alert known
    handle_alert-known (state_update sts) s k d = set_all_torrents-latest sts s.all_handles k
    handle_alert-known (torrent_removed h) s k d = find_handle-remove_torrent h k s.all_handles d
    handle_alert-known (add_torrent true h) s k d = refl
    handle_alert-known (add_torrent false h) s k d = refl
    handle_alert-known a s k d = refl

    -- If equality of handles is decided, and each torrent stands in the table once, as the keys of
    -- a map do, then after any batch of alerts a torrent has in the table the last status that an
    -- update gave for it since it was last removed, or is not there if there is none since; without
    -- an update or a removal it is as it was before.
    pub pop_alerts-known :
        (b : List (Alert l)) (s : SheathState l) (k : l.Handle)
        → IsDistinct l s.all_handles
        → find_handle l k (pop_alerts l at b s).0.all_handles
          ≡ known l k b (find_handle l k s.all_handles)
    unfolding pop_alerts known
    pop_alerts-known [] s k d = refl
    pop_alerts-known (a ∷ b) s k d =
        pop_alerts-known b (handle_alert l at a s).0 k (handle_alert-IsDistinct a s d)
        ∙ ap (known l k b) (handle_alert-known a s k d)
        ∙ known-one a b k (find_handle l k s.all_handles)
