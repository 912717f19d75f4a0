-- ===== src/Guest/Events.antt =====
-- Which handlers the container's kernel calls for the events that the module delivers.
use cki_artifact.Base.{
  ℕ, ◌^◌, ◌<◌, ◌≡◌, ◌≢◌, arith, ◌⊎◌, bit_and, ◌==◌, if◌then◌else◌, List, [], ◌∷◌, ◌++◌,
}
use cki_artifact.Base.Bits.{bit_and-zero, bit_and_comm}
use cki_artifact.Guest.{Registered, Guest, pk_register_event_handler, pk_handle_events}

-- The entries in use come first.
abbrev pub IsPacked : Guest → Type 0
IsPacked g = (g.event_registry 0).event ≡ 0 → (g.event_registry 1).event ≡ 0

-- What a registration adds to the calls for a set of events.
abbrev pub call_for : (events : ℕ) → Registered → List (ℕ × ℕ)
call_for events r = if bit_and events r.event == 0 then [] else (r.handler, r.arg) ∷ []

-- Where the entries in use come first, they do so after a registration. While the second entry is
-- free, a registration adds to the calls of pk_handle_events, at their end and for every set of
-- events, the handler where its event is in the set, and changes no other call; where both are in
-- use it changes nothing. Conditions: the event is not 0, and it and the set are below 2^64.
pub pk_register_event_handler-handled :
    (r : Registered) (events : ℕ) (g : Guest)
    → events < 2 ^ 64
    → r.event < 2 ^ 64
    → r.event ≢ 0
    → IsPacked g
    → IsPacked (pk_register_event_handler r g)
      × ((((g.event_registry 1).event ≡ 0)
            × (pk_handle_events events (pk_register_event_handler r g)
                ≡ pk_handle_events events g ++ call_for events r))
          ⊎ (((g.event_registry 1).event ≢ 0) × (pk_register_event_handler r g ≡ g)))
unfolding pk_register_event_handler pk_handle_events
pk_register_event_handler-handled r events g fits small there packed = ground (
  arith,
  bit_and-zero 64 events fits,
  bit_and_comm 64 0 r.event (omega arith) small,
  bit_and-zero 64 r.event small,
)
