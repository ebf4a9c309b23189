-- ===== src/Hub/Views/Held.antt =====
-- What the clients hold when they read the bytes that they are sent: `join`, `leave` and `doLoop` of
-- handlers.cpp, json_diff.hpp, and the text of JSON in between.
pub mod Delivery
pub mod Kept
pub mod InStep
use mathlib.Core.Option
use kedge.Base.{ℕ, ◌≡◌, ◌⊎◌, Bool, false, Option, none, some, List, [], ◌∷◌, ◌==◌, if◌then◌else◌}
use kedge.Bytes.{Bytes}
use kedge.Json.{Json}
use kedge.JsonDiff.Plain
use kedge.JsonDiff.Plain.{IsPlain}
use kedge.Hub.{HubState, HubCall, send, close, new_hub, is_null, join, leave, do_loop}
use kedge.Hub.Message.{on_message}
use kedge.Hub.Views.{Event, joins, leaves, loops}

-- A client with the value that it holds; `none` if it could not read a message.
pub record Holder : Type 0 where
  pub wss : ℕ
  pub held : Option Json

pub record Feed : Type 0 where
  pub hub : HubState
  pub holders : List Holder

-- A client whose session has left, or joins anew.
abbrev pub without : ℕ → List Holder → List Holder
without p [] = []
without p (c ∷ cs) = let rest = without p cs in if c.wss == p then rest else c ∷ rest

module _ (serialize : Json → Bytes) (parse : Bytes → Option Json) where
  abbrev pub on_bytes : Bytes → Option Json → Option Json
  on_bytes m held = Option.bind (parse m) (λ j. on_message j held)

  -- What the client of one session holds after some calls of the hub.
  unfoldable pub receive : ℕ → List HubCall → Option Json → Option Json
  receive p [] held = held
  receive p (send q m ∷ calls) held = receive p calls (if q == p then on_bytes m held else held)
  receive p (close q reason ∷ calls) held = receive p calls held

  -- The clients whose connections are alive read the calls; the others are gone.
  abbrev pub deliver : (ℕ → Bool) → List HubCall → List Holder → List Holder
  deliver alive calls [] = []
  deliver alive calls (c ∷ cs) =
      let rest = deliver alive calls cs in
      let c' = record c { held = receive c.wss calls c.held } in
      if alive c.wss then c' ∷ rest else rest

  -- A client that joins holds nothing before its first message.
  unfoldable pub watch : Feed → Event → Feed
  watch s (joins wss qid random stats) =
      let (h, calls) = join serialize wss qid random stats s.hub in
      record {
        hub = h;
        holders = record { wss = wss; held = receive wss calls none } ∷ without wss s.holders;
      }
  watch s (leaves wss) = record {
    hub = (leave serialize wss s.hub).0;
    holders = without wss s.holders;
  }
  watch s (loops alive stats) =
      let (h, calls) = do_loop serialize alive stats s.hub in
      record { hub = h; holders = deliver alive calls s.holders }

  unfoldable pub watch_all : Feed → List Event → Feed
  watch_all s [] = s
  watch_all s (e ∷ es) = watch_all (watch s e) es

  unfoldable pub first_feed : Feed
  first_feed = record { hub = new_hub; holders = [] }

  -- The statistics of an event are plain and not null, and those of a round of the loop do not let an
  -- array of the current ones grow by more than one element.
  abbrev pub Suits : HubState → Event → Type 0
  Suits h (joins wss qid random stats) = (is_null stats ≡ false) × IsPlain stats
  Suits h (leaves wss) = Unit
  Suits h (loops alive stats) =
      (is_null stats ≡ false) × (IsPlain stats × Plain.Fits h.curr_stats stats)

  abbrev pub AllSuit : Feed → List Event → Type 0
  AllSuit s [] = Unit
  AllSuit s (e ∷ es) = Suits s.hub e × AllSuit (watch s e) es
