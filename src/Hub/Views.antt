-- ===== src/Hub/Views.antt =====
-- What happens at the hub of handlers.cpp, for what its clients know.
pub mod Held
use kedge.Base.{ℕ, Bool}
use kedge.Bytes.{Bytes}
use kedge.Json.{Json}

-- What happens at the hub. The loop comes with the statistics it finds, a client with its id, and with the
-- statistics that `getSyncStats` would give.
pub data Event : Type 0 where
  joins : (wss : ℕ) (qid random : Bytes) (stats : Json) → Event
  leaves : (wss : ℕ) → Event
  loops : (alive : ℕ → Bool) (stats : Json) → Event
