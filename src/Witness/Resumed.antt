-- ===== src/Witness/Resumed.antt =====
-- A torrent that is saved, and loaded again at the next start.
use mathlib.Core.List.{Memᴰ}
use kedge.Base.{ℕ, ◌≡◌, refl, ◌==◌, true, none, List, [], ◌∷◌, arith}
use kedge.Base.Int.{pos}
use kedge.Bytes.{codes}
use kedge.Util.{resume_name}
use kedge.Sheath.Adding.{load_resumes}
use kedge.Sheath.Alerts.{SheathState, Surroundings}
use kedge.Sheath.Library.{Alert, peer_connect, torrent_paused}
use kedge.Startup.Files.{Disk}
use kedge.Startup.Resumed.{Shared, lib_of, over_disk, calls_for, resumed_after_save}
use kedge.Startup.Saving.{run_calls}
use kedge.Witness.Adding.{sources, store, blank_params}
use kedge.Witness.Samples.{Sha, zeros, sha_text, sha_text-IsHexText, no_values, sample_status}

abbrev shared : Shared
shared = record {
  src = sources;
  Handle = ℕ;
  same = λ h k. h == k;
  Saved = Sha;
  info_hash = λ h. h;
  write_resume_data_buf = λ h. codes "resume";
  Peer = ℕ;
  DhtStats = ℕ;
}

abbrev place : Surroundings (lib_of shared)
place = record {
  dir_moved = codes "/moved";
  dir_resumes = codes "/conf/.resume";
  status = λ h. sample_status;
  exists = λ d. true;
}

abbrev state : SheathState (lib_of shared)
state = record {
  peer = none;
  values = no_values;
  all_handles = [];
  num_outstanding_resume_data = pos 1;
  dht = none;
}

abbrev empty_disk : Disk
empty_disk = record { entries = λ p. none; may_create = λ there p. true; may_write = λ p. true }

abbrev earlier : List (Alert (lib_of shared))
earlier = peer_connect ∷ []

abbrev afterwards : List (Alert (lib_of shared))
afterwards = torrent_paused 1 ∷ []

name_of_zeros : resume_name sha_text zeros ≡ codes "0000000000000000000000000000000000000000.resume"
unfolding resume_name
name_of_zeros = refl

resumed_after_save_example : Memᴰ blank_params (
    load_resumes
      (over_disk shared
        (run_calls (calls_for shared place earlier zeros afterwards state) empty_disk))
      store
      place.dir_resumes)
resumed_after_save_example =
    resumed_after_save shared place sha_text-IsHexText zeros earlier afterwards state empty_disk
      store (codes "notes" ∷ codes "0000000000000000000000000000000000000000.resume" ∷ [])
      blank_params (omega arith) (refl, refl) (tt, tt) refl (Memᴰ.tail (Memᴰ.head name_of_zeros))
      refl
