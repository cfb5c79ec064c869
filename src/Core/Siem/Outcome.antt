-- ===== src/Core/Siem/Outcome.antt =====
-- What an export record says of an event.
use the_membrane.Prelude.{
  String, ◌==◌, Bool, true, false, ◌&&◌, Option, none, some, if◌then◌else◌, ◌≡◌, refl,
}
use the_membrane.Core.Event.{
  EventType, is_router, cp_router, iac, alert_degraded, action_blocked, MembraneEvent,
  MembranePayload, router, generic,
}
use the_membrane.Core.External.{External}
use the_membrane.Core.Siem.{
  Class, class_of, classify, classify_type, from_membrane_event, string_field, generic_of,
  status_of,
}

abbrev pub is_router_payload : MembranePayload → Bool
is_router_payload (router _) = true
is_router_payload (generic _) = false

-- What holds of every class.
Fits : Class → Bool → Type 0
Fits class allowed =
    ((class.outcome == "allowed") ≡ allowed)
    × (status_of class.outcome ≡ (if class.severity == "high" then "Failure" else "Success"))

alert-Fits :
    (b : Bool)
    → Fits
        (if b then class_of "sever" "severed" "high" else class_of "degraded" "degraded" "high")
        false
unfolding Fits
alert-Fits true = (refl, refl)
alert-Fits false = (refl, refl)

classify_type-Fits : (t : EventType) (reason : Option String) → Fits (classify_type t reason) false
unfolding classify_type Fits
classify_type-Fits iac reason = (refl, refl)
classify_type-Fits action_blocked reason = (refl, refl)
classify_type-Fits alert_degraded none = (refl, refl)
classify_type-Fits alert_degraded (some reason) = alert-Fits (reason == "subject_sever")
classify_type-Fits _ reason = (refl, refl)

classify-Fits :
    (t : EventType) (payload : MembranePayload) (reason : Option String)
    → Fits (classify t payload reason) (is_router t && is_router_payload payload)
unfolding classify Fits
classify-Fits cp_router (router payload) reason = (refl, refl)
classify-Fits cp_router (generic value) reason = classify_type-Fits cp_router reason
classify-Fits t payload reason = classify_type-Fits t reason

module _ (x : External) where
  -- A record says that an action was allowed exactly for a router checkpoint with a session's
  -- payload, and its status is a failure exactly if its severity is high: it is never unknown.
  pub from_membrane_event-outcome :
      (e : MembraneEvent) (source : Option String)
      → let r = from_membrane_event x e source in
        ((r.outcome == "allowed") ≡ (is_router e.event_type && is_router_payload e.payload))
        × (status_of r.outcome ≡ (if r.severity == "high" then "Failure" else "Success"))
  unfolding from_membrane_event Fits
  from_membrane_event-outcome e source =
      classify-Fits e.event_type e.payload (string_field (generic_of e.payload) "reason")
