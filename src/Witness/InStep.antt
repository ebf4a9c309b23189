-- ===== src/Witness/InStep.antt =====
-- A client that joins, and two rounds of the loop.
use kedge.Base.{ℕ, inr, arith, ◌≡◌, refl, true, some, List, [], ◌∷◌, All}
use kedge.Bytes.{codes}
use kedge.Json.{Json, json_eq, double_eq}
use kedge.JsonDiff.Plain.{IsPlain}
use kedge.Hub.Views.Held.{Holder, Feed, watch_all, first_feed}
use kedge.Sheath.Synced.{Moment, Happening, comes, round, events, AllSteady, clients_synced}
use kedge.Witness.Samples.{Sha, sha_text, sample_status}
use kedge.Witness.Toggle.{no_stats}
use kedge.Witness.Codec.{written, parsed, parsed-written}

abbrev start : Feed
start = first_feed written parsed

-- A client that joins while there is no torrent, and one that is added before the next round.
abbrev no_torrents : Moment ℕ Sha
no_torrents = record { stats = no_stats; handles = [] }

abbrev one_torrent : Moment ℕ Sha
one_torrent = record { stats = no_stats; handles = (1, sample_status) ∷ [] }

abbrev happenings : List (Happening ℕ Sha)
happenings = comes 1 (codes "a") [] no_torrents ∷ round (λ p. true) one_torrent ∷ []

happenings-AllSteady : AllSteady ℕ sha_text written parsed start happenings
unfolding double_eq
happenings-AllSteady = (tt, (((refl, tt), inr (omega arith)), tt))

clients_synced_example :
    let s = watch_all written parsed start (events ℕ sha_text happenings) in
    All
      (λ (c : Holder).
        (v : Json) × (c.held ≡ some v) × (json_eq v s.hub.curr_stats ≡ true) × IsPlain v)
      s.holders
clients_synced_example =
    clients_synced ℕ sha_text written parsed happenings (λ v p. parsed-written v)
      happenings-AllSteady
