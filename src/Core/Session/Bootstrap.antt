-- ===== src/Core/Session/Bootstrap.antt =====
-- The two ways to find the head of the chain in a list of bus events.
use the_membrane.Prelude.{ℕ, String, ◌≡◌, refl, List, [], ◌∷◌, arith, ◌∙◌, ap}
use the_membrane.Core.Event.{MembraneEvent}
use the_membrane.Core.External.{External}
use the_membrane.Core.Session.{
  SessionChainState, genesis, note_receipt, note_event, note_events, from_bus_events,
  last_hash_step, last_hash_from, last_cp_hash_from_events,
}

module _ (x : External) (subject : String) where
  head-note_event :
      (c : SessionChainState) (nonce : ℕ) (event : MembraneEvent)
      → (note_event x subject (c, nonce) event).0.last_cp_hash
        ≡ last_hash_step x subject c.last_cp_hash event
  unfolding note_event note_receipt last_hash_step
  head-note_event c nonce event = ground arith

  head-note_events :
      (c : SessionChainState) (nonce : ℕ) (events : List MembraneEvent)
      → (note_events x subject (c, nonce) events).0.last_cp_hash
        ≡ last_hash_from x subject c.last_cp_hash events
  unfolding note_events last_hash_from
  head-note_events c nonce [] = refl
  head-note_events c nonce (event ∷ events) =
      let (c', nonce') = note_event x subject (c, nonce) event in
      head-note_events c' nonce' events
      ∙ ap (λ h. last_hash_from x subject h events) (head-note_event c nonce event)

  -- Rebuilding the session from bus events finds the head that `last_cp_hash_from_events` finds.
  pub from_bus_events_head :
      (events : List MembraneEvent)
      → (from_bus_events x events subject).last_cp_hash ≡ last_cp_hash_from_events x events subject
  unfolding from_bus_events last_cp_hash_from_events
  from_bus_events_head events = head-note_events genesis 0 events
