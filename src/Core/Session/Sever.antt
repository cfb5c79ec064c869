-- ===== src/Core/Session/Sever.antt =====
-- A severed scope stays severed, over the operations of a running gate and over a restart.
use the_membrane.Prelude.{
  ℕ, ℤ, String, ◌≡◌, ◌≢◌, ◌==◌, eq_iff, Bool, true, ◌&&◌, ◌||◌, Option, some, List, [], ◌∷◌, any,
  arith, contains_key, lookup, lookup-insert, lookup-erase, ◌∙◌, Option-cases, inl, inr, unwrap_or,
}
use the_membrane.Core.Event.{MembraneEvent, is_alert}
use the_membrane.Core.External.{External}
use the_membrane.Core.Session.{
  SessionChainState, genesis, is_text, begin_scope, next_session_nonce, record_cp, mark_degraded,
  clear_degraded_for_scope, is_scope_degraded, alert_degraded_fields, note_receipt, note_event,
  note_events, from_bus_events,
}

-- The scope of the last degradation is also in the map of degraded scopes.
pub record IsTracked (c : SessionChainState) : Type 0 where
  pub tracked :
      (s : String) → c.degraded_scope_id ≡ some s → contains_key s c.degraded_scopes ≡ true

pub genesis-IsTracked : IsTracked genesis
genesis-IsTracked = record { tracked = λ s h. cc }

module _ (c : SessionChainState) where
  -- With the invariant the map alone says which scopes are degraded.
  pub is_scope_degraded-tracked :
      (s : String) → IsTracked c → is_scope_degraded c s ≡ contains_key s c.degraded_scopes
  unfolding is_scope_degraded
  is_scope_degraded-tracked s h = grind (arith, h.tracked, eq_iff)

-- What a running gate does to its session, `s` being a scope that no step clears.
pub data Step (s : String) : SessionChainState → SessionChainState → Type 0 where
  scope : (c : SessionChainState) (t : String) → Step s c (begin_scope c t).0
  count : (c : SessionChainState) → Step s c (next_session_nonce c).0
  receipt :
      (c : SessionChainState) (hash : String) (id : Option String) (at : ℤ)
      → Step s c (record_cp c hash id at)
  sever :
      (c : SessionChainState) (t reason : String) (at : ℤ) → Step s c (mark_degraded c t reason at)
  clear : (c : SessionChainState) (t : String) → t ≢ s → Step s c (clear_degraded_for_scope c t)

pub data Steps (s : String) (c : SessionChainState) : SessionChainState → Type 0 where
  here : Steps s c c
  next : {d e : SessionChainState} → Steps s c d → Step s d e → Steps s c e

Step-IsTracked : {s : String} {c d : SessionChainState} → Step s c d → IsTracked c → IsTracked d
unfolding begin_scope next_session_nonce record_cp mark_degraded clear_degraded_for_scope
Step-IsTracked (scope c t) h = record { tracked = λ u e. ground (arith, h.tracked u) }
Step-IsTracked (count c) h = record { tracked = h.tracked }
Step-IsTracked (receipt c hash id at) h = record { tracked = h.tracked }
Step-IsTracked (sever c t reason at) h = record {
  tracked = λ u e. ground (arith, lookup-insert t u (reason, at) c.degraded_scopes, eq_iff t u);
}
Step-IsTracked (clear c t n) h = record {
  tracked = λ u e. ground (arith, h.tracked u, lookup-erase t u c.degraded_scopes, eq_iff t u);
}

pub mark_degraded-IsTracked :
    (c : SessionChainState) (t reason : String) (at : ℤ)
    → IsTracked c
    → IsTracked (mark_degraded c t reason at)
mark_degraded-IsTracked c t reason at h = Step-IsTracked {s = t} (sever c t reason at) h

Step-degraded :
    {s : String} {c d : SessionChainState}
    → Step s c d
    → contains_key s c.degraded_scopes ≡ true
    → contains_key s d.degraded_scopes ≡ true
unfolding begin_scope next_session_nonce record_cp mark_degraded clear_degraded_for_scope
Step-degraded (scope c t) h = ground arith
Step-degraded (count c) h = h
Step-degraded (receipt c hash id at) h = h
Step-degraded {s = s} (sever c t reason at) h =
    ground (arith, lookup-insert t s (reason, at) c.degraded_scopes)
Step-degraded {s = s} (clear c t n) h =
    ground (arith, lookup-erase t s c.degraded_scopes, eq_iff t s)

Steps-IsTracked : {s : String} {c d : SessionChainState} → Steps s c d → IsTracked c → IsTracked d
Steps-IsTracked here h = h
Steps-IsTracked (next r st) h = Step-IsTracked st (Steps-IsTracked r h)

Steps-contains_key :
    {s : String} {c d : SessionChainState}
    → Steps s c d
    → contains_key s c.degraded_scopes ≡ true
    → contains_key s d.degraded_scopes ≡ true
Steps-contains_key here h = h
Steps-contains_key (next r st) h = Step-degraded st (Steps-contains_key r h)

-- Whatever scopes a gate opens, receipts it records and other scopes it severs or clears, a scope
-- that is degraded stays degraded until that scope itself is cleared.
pub Steps-is_scope_degraded :
    {s : String} {c d : SessionChainState}
    → IsTracked c
    → Steps s c d
    → is_scope_degraded c s ≡ true
    → is_scope_degraded d s ≡ true
Steps-is_scope_degraded {s} {c} {d} t r h =
    is_scope_degraded-tracked d s (Steps-IsTracked r t)
    ∙ Steps-contains_key r (cc (is_scope_degraded-tracked c s t))

module _ (x : External) where
  note_receipt-degraded_scopes :
      (c : SessionChainState) (nonce : ℕ) (event : MembraneEvent)
      → (note_receipt x (c, nonce) event).0.degraded_scopes ≡ c.degraded_scopes
  unfolding note_receipt
  note_receipt-degraded_scopes c nonce event = ground arith

  note_receipt-degraded_scope_id :
      (c : SessionChainState) (nonce : ℕ) (event : MembraneEvent)
      → (note_receipt x (c, nonce) event).0.degraded_scope_id ≡ c.degraded_scope_id
  unfolding note_receipt
  note_receipt-degraded_scope_id c nonce event = ground arith

module _ (x : External) (subject s : String) where
  -- An alert of the subject that names the scope.
  abbrev pub severs : MembraneEvent → Bool
  severs event =
      event.subject_pubkey == subject
      && is_alert event.event_type
      && is_text (alert_degraded_fields event.payload).1 s

  note_event-contains_key :
      (c : SessionChainState) (nonce : ℕ) (event : MembraneEvent)
      → contains_key s (note_event x subject (c, nonce) event).0.degraded_scopes
        ≡ (contains_key s c.degraded_scopes || severs event)
  unfolding note_event
  note_event-contains_key c nonce event =
      let reason = (alert_degraded_fields event.payload).0 in
      elim (Option-cases (alert_degraded_fields event.payload).1) [
        | inl e ↦ ground (arith, note_receipt-degraded_scopes x c nonce event)
        | inr (t, e) ↦ ground (
          arith,
          note_receipt-degraded_scopes x c nonce event,
          lookup-insert t s (unwrap_or reason "degraded", event.timestamp) c.degraded_scopes,
        )
      ]

module _ (x : External) (subject : String) where
  note_event-IsTracked :
      (c : SessionChainState) (nonce : ℕ) (event : MembraneEvent)
      → IsTracked c
      → IsTracked (note_event x subject (c, nonce) event).0
  unfolding note_event
  note_event-IsTracked c nonce event h = record {
    tracked = λ u e.
        let reason = (alert_degraded_fields event.payload).0 in
        elim (Option-cases (alert_degraded_fields event.payload).1) [
          | inl e' ↦ ground (
            arith,
            h.tracked u,
            note_receipt-degraded_scopes x c nonce event,
            note_receipt-degraded_scope_id x c nonce event,
          )
          | inr (t, e') ↦ ground (
            arith,
            h.tracked u,
            note_receipt-degraded_scopes x c nonce event,
            note_receipt-degraded_scope_id x c nonce event,
            lookup-insert t u (unwrap_or reason "degraded", event.timestamp) c.degraded_scopes,
            eq_iff t u,
          )
        ];
  }

  note_events-IsTracked :
      (c : SessionChainState) (nonce : ℕ) (events : List MembraneEvent)
      → IsTracked c
      → IsTracked (note_events x subject (c, nonce) events).0
  unfolding note_events
  note_events-IsTracked c nonce [] h = h
  note_events-IsTracked c nonce (event ∷ events) h =
      let (c', nonce') = note_event x subject (c, nonce) event in
      note_events-IsTracked c' nonce' events (note_event-IsTracked c nonce event h)

  note_events-contains_key :
      (s : String) (c : SessionChainState) (nonce : ℕ) (events : List MembraneEvent)
      → contains_key s (note_events x subject (c, nonce) events).0.degraded_scopes
        ≡ (contains_key s c.degraded_scopes || any (severs x subject s) events)
  unfolding note_events
  note_events-contains_key s c nonce [] = ground arith
  note_events-contains_key s c nonce (event ∷ events) =
      let (c', nonce') = note_event x subject (c, nonce) event in
      ground (
        arith,
        note_events-contains_key s c' nonce' events,
        note_event-contains_key x subject s c nonce event,
      )

  -- Every state that is rebuilt from the bus is tracked.
  pub from_bus_events-IsTracked :
      (events : List MembraneEvent) → IsTracked (from_bus_events x events subject)
  unfolding from_bus_events
  from_bus_events-IsTracked events =
      let h = note_events-IsTracked genesis 0 events genesis-IsTracked in
      record { tracked = h.tracked }

  -- After a restart a scope is degraded exactly if some alert of the subject in the events names it,
  -- whatever other alerts and receipts stand after that alert.
  pub from_bus_events-is_scope_degraded :
      (events : List MembraneEvent) (s : String)
      → is_scope_degraded (from_bus_events x events subject) s ≡ any (severs x subject s) events
  unfolding from_bus_events lookup
  from_bus_events-is_scope_degraded events s =
      is_scope_degraded-tracked (from_bus_events x events subject) s
        (from_bus_events-IsTracked events)
      ∙ note_events-contains_key s genesis 0 events
