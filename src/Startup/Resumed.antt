-- ===== src/Startup/Resumed.antt =====
-- A torrent over a restart: its resume data is saved by handle_alert, and loaded by load_resumes, of
-- sheath.cpp.
use mathlib.Core.List.{Memᴰ}
use mathlib.Core.Path.{subst}
use kedge.Base.{
  arith, ◌⊎◌, ◌≤◌, ◌≡◌, refl, sym, ap, ◌∙◌, ◌≢◌, Bool, true, false, some, none, List, [], ◌∷◌, ◌++◌,
  append_assoc, All, All-append, Option, length, inl, inr,
}
use kedge.Bytes.{Bytes}
use kedge.Util.{IsHexText, resume_name}
use kedge.Sheath.Adding.{Sources, Params, load_resumes}
use kedge.Sheath.Adding.Laws.{load_resumes_saved}
use kedge.Sheath.Alerts.{
  SheathState, Surroundings, resume_file, handle_alert, pop_alerts, on_torrent_finished, connect,
}
use kedge.Sheath.Library.{
  TorrentLib, Call, Alert, session_stats, dht_stats, peer_connect, incoming_connection,
  peer_disconnected, metadata_received, add_torrent, torrent_finished, save_resume_data_failed,
  torrent_paused, state_update, torrent_removed, other_alert, save_resume_data, move_storage,
}
use kedge.Startup.Files
use kedge.Startup.Files.{can_open, put_entry, Disk, load_file, file_limit}
use kedge.Startup.Prepared.{load_file-save_file}
use kedge.Startup.Saving.{
  path_join_injective, resume_name_injective, CanSave, save_file-allowed, run_calls,
  run_calls-CanSave, run_calls-append, run_calls-Spares, Spares,
}

-- libtorrent with the files of a disk, the same hashes in its alerts as in its torrents.
pub record Shared : Type 1 where
  pub src : Sources
  pub Handle : Type 0
  pub same : Handle → Handle → Bool
  pub Saved : Type 0
  pub info_hash : Saved → src.hash_text.Hash
  pub write_resume_data_buf : Saved → Bytes
  pub Peer : Type 0
  pub DhtStats : Type 0

abbrev pub lib_of : Shared → TorrentLib
lib_of x = record {
  hash_text = x.src.hash_text;
  Handle = x.Handle;
  same = x.same;
  Params = x.Saved;
  info_hash = x.info_hash;
  write_resume_data_buf = x.write_resume_data_buf;
  Peer = x.Peer;
  DhtStats = x.DhtStats;
}

-- The program with the files of a disk.
abbrev pub over_disk : Shared → Disk → Sources
over_disk x d = record (x.src) { load_file = λ filename. load_file d filename file_limit }

module _ (l : TorrentLib) (at_ : Surroundings l) where
  pop_alerts-append :
      (as_ bs : List (Alert l)) (s : SheathState l)
      → (pop_alerts l at_ (as_ ++ bs) s).1
        ≡ (pop_alerts l at_ as_ s).1 ++ (pop_alerts l at_ bs (pop_alerts l at_ as_ s).0).1
  unfolding pop_alerts
  pop_alerts-append [] bs s = refl
  pop_alerts-append (a ∷ as_) bs s =
      ap (λ calls. (handle_alert l at_ a s).1 ++ calls)
        (pop_alerts-append as_ bs (handle_alert l at_ a s).0)
      ∙ sym (append_assoc (handle_alert l at_ a s).1 _ _)

  -- An alert that brings no resume data for the hash.
  abbrev pub IsOther : l.hash_text.Hash → Alert l → Type 0
  IsOther h (save_resume_data p) = l.info_hash p ≢ h
  IsOther h _ = Unit

  resume_file_injective :
      (laws : IsHexText l.hash_text) (h k : l.hash_text.Hash)
      → resume_file l at_ h ≡ resume_file l at_ k
      → h ≡ k
  unfolding resume_file
  resume_file_injective laws h k e =
      resume_name_injective l.hash_text laws h k (path_join_injective at_.dir_resumes _ _ e)

  finished-cases :
      (h : l.Handle)
      → (on_torrent_finished l at_ h ≡ [])
        ⊎ (on_torrent_finished l at_ h ≡ move_storage h at_.dir_moved ∷ [])
  unfolding on_torrent_finished
  finished-cases h = ground arith

  finished-Spares : (f : Bytes) (h : l.Handle) → All (Spares f) (on_torrent_finished l at_ h)
  finished-Spares f h = elim (finished-cases h) [
    | inl e ↦ subst (All (Spares f)) (sym e) tt
    | inr e ↦ subst (All (Spares f)) (sym e) (tt, tt)
  ]

  connect-Spares :
      (f : Bytes) (p : Option l.Peer) (h : l.Handle) → All (Spares f) (connect l at_ p h)
  connect-Spares f none h = tt
  connect-Spares f (some p) h = (tt, tt)

  module _ (laws : IsHexText l.hash_text) (h : l.hash_text.Hash) where
    handle_alert-Spares :
        (a : Alert l) (s : SheathState l)
        → IsOther h a
        → All (Spares (resume_file l at_ h)) (handle_alert l at_ a s).1
    unfolding handle_alert
    handle_alert-Spares (session_stats sc t) s o = tt
    handle_alert-Spares (dht_stats d) s o = tt
    handle_alert-Spares peer_connect s o = tt
    handle_alert-Spares incoming_connection s o = tt
    handle_alert-Spares (peer_disconnected b c) s o = tt
    handle_alert-Spares (metadata_received t) s o = (tt, tt)
    handle_alert-Spares (add_torrent true t) s o = tt
    handle_alert-Spares (add_torrent false t) s o = (tt, connect-Spares _ s.peer t)
    handle_alert-Spares (torrent_finished t) s o = (tt, (tt, finished-Spares _ t))
    handle_alert-Spares (save_resume_data p) s o =
        ((λ e. o (sym (resume_file_injective laws h (l.info_hash p) e))), tt)
    handle_alert-Spares (save_resume_data_failed b) s o = tt
    handle_alert-Spares (torrent_paused t) s o = (tt, tt)
    handle_alert-Spares (state_update sts) s o = tt
    handle_alert-Spares (torrent_removed t) s o = tt
    handle_alert-Spares other_alert s o = tt

    pop_alerts-Spares :
        (as_ : List (Alert l)) (s : SheathState l)
        → All (IsOther h) as_
        → All (Spares (resume_file l at_ h)) (pop_alerts l at_ as_ s).1
    unfolding pop_alerts
    pop_alerts-Spares [] s o = tt
    pop_alerts-Spares (a ∷ as_) s (o, os) =
        All-append (Spares (resume_file l at_ h)) (handle_alert l at_ a s).1 _
          (handle_alert-Spares a s o) (pop_alerts-Spares as_ (handle_alert l at_ a s).0 os)

module _ (x : Shared) (at_ : Surroundings (lib_of x)) where
  -- The alerts of one call of pop_alerts, with resume data in the middle.
  abbrev pub calls_for :
      List (Alert (lib_of x))
      → x.Saved
      → List (Alert (lib_of x))
      → SheathState (lib_of x)
      → List (Call (lib_of x))
  calls_for front p back s = (pop_alerts (lib_of x) at_ (front ++ save_resume_data p ∷ back) s).1

  saved_text :
      (laws : IsHexText x.src.hash_text) (p : x.Saved)
      → (front back : List (Alert (lib_of x))) (s : SheathState (lib_of x)) (d : Disk)
      → length (x.write_resume_data_buf p) ≤ file_limit
      → CanSave (resume_file (lib_of x) at_ (x.info_hash p)) d
      → All (IsOther (lib_of x) at_ (x.info_hash p)) back
      → load_file
          (run_calls (calls_for front p back s) d)
          (resume_file (lib_of x) at_ (x.info_hash p))
          file_limit
        ≡ some (x.write_resume_data_buf p)
  unfolding pop_alerts handle_alert run_calls
  saved_text laws p front back s d few allowed others =
      let l = lib_of x in
      let file = resume_file l at_ (x.info_hash p) in
      let buf = x.write_resume_data_buf p in
      let s1 = (pop_alerts l at_ front s).0 in
      let s2 = (handle_alert l at_ (save_resume_data p) s1).0 in
      let d1 = run_calls (pop_alerts l at_ front s).1 d in
      let can =
        save_file-allowed file buf d1
          (run_calls-CanSave file (pop_alerts l at_ front s).1 d allowed) in
      ap (λ calls. load_file (run_calls calls d) file file_limit)
        (pop_alerts-append l at_ front (save_resume_data p ∷ back) s)
      ∙ ap (λ d'. load_file d' file file_limit) (run_calls-append (pop_alerts l at_ front s).1 _ d)
      ∙ run_calls-Spares file file_limit (pop_alerts l at_ back s2).1
          (Files.save_file d1 file buf).0
          (pop_alerts-Spares l at_ laws (x.info_hash p) back s2 others)
      ∙ (load_file-save_file d1 file buf file_limit can).0 few

  -- If the library writes and reads hashes as forty lower case hex digits, a torrent's resume file
  -- can be written, and a batch of alerts brings its resume data of at most 8000000 bytes and,
  -- after that, none for the same hash, then, whatever else is in the batch, the torrent is added
  -- again by load_resumes at the next start, if the directory lists that file and the library can
  -- read that data.
  pub resumed_after_save :
      (laws : IsHexText x.src.hash_text) (p : x.Saved)
      → (front back : List (Alert (lib_of x))) (s : SheathState (lib_of x)) (d : Disk)
      → (store : Bytes) (names : List Bytes) (atp : Params x.src)
      → length (x.write_resume_data_buf p) ≤ file_limit
      → CanSave (resume_file (lib_of x) at_ (x.info_hash p)) d
      → All (IsOther (lib_of x) at_ (x.info_hash p)) back
      → x.src.list_directory at_.dir_resumes ≡ some names
      → Memᴰ (resume_name x.src.hash_text (x.info_hash p)) names
      → x.src.read_resume_data (x.write_resume_data_buf p) ≡ (atp, false)
      → Memᴰ atp (
          load_resumes (over_disk x (run_calls (calls_for front p back s) d)) store at_.dir_resumes)
  unfolding resume_file
  resumed_after_save laws p front back s d store names atp few allowed others listed m r =
      load_resumes_saved (over_disk x (run_calls (calls_for front p back s) d)) store
        at_.dir_resumes laws (x.info_hash p) names (x.write_resume_data_buf p) atp listed m
        (saved_text laws p front back s d few allowed others) r
