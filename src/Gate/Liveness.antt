-- ===== src/Gate/Liveness.antt =====
-- `check_session_liveness` and `publish_alert_degraded` of membrane-gate/src/lib.rs.
pub mod Scoped
use the_membrane.Prelude.{
  ℤ, String, Bool, true, ◌&&◌, not, Option, none, some, Result, ok, err, is_ok, ◌>>=◌, map_err,
  if◌then◌else◌, ◌≡◌, arith, leb_ℤ, ltb_ℤ, as_i64, some_and, unwrap_or, lookup,
}
use the_membrane.Core.Event.{MembraneEvent, alert_degraded, new_event}
use the_membrane.Core.External.{External}
use the_membrane.Core.Session.{
  SessionChainState, is_scope_degraded, scope_router_cp_age_secs, alert_degraded_payload,
}
use the_membrane.Gate.Error.{GateError, session_degraded, session_stale, bus}
use the_membrane.Gate.Registry.{Gate}
use the_membrane.Gate.Iac.{publish_with_receipt}

abbrev pub first_reason : Option (String × ℤ) → Option String → String
first_reason (some (reason, at)) other = reason
first_reason none other = unwrap_or other "degraded"

unfoldable pub check_session_liveness :
    Gate → SessionChainState → String → ℤ → Result GateError (Unit {0})
check_session_liveness gate chain scope_id now =
    let limit = as_i64 gate.policy.delta_t_secs in
    let age = scope_router_cp_age_secs chain scope_id now in
    if is_scope_degraded chain scope_id
    then err (
        session_degraded scope_id
          (first_reason (lookup scope_id chain.degraded_scopes) chain.degraded_reason))
    else if some_and age (λ a. ltb_ℤ limit a)
    then err (session_stale (unwrap_or age limit) gate.policy.delta_t_secs)
    else ok tt

abbrev pub not_older : Option ℤ → ℤ → Bool
not_older none limit = true
not_older (some age) limit = leb_ℤ age limit

-- The two guards as one test: the age is that of `scope_router_cp_age_secs`.
pub check_session_liveness_exact :
    (gate : Gate) (chain : SessionChainState) (scope_id : String) (now : ℤ)
    → is_ok (check_session_liveness gate chain scope_id now) ≡ (
        not (is_scope_degraded chain scope_id)
        && not_older
            (scope_router_cp_age_secs chain scope_id now)
            (as_i64 gate.policy.delta_t_secs))
unfolding check_session_liveness
check_session_liveness_exact gate chain scope_id now = ground arith

module _ (x : External) where
  -- The id of the published alert; `send` is the relay's answer.
  unfoldable pub publish_alert_degraded :
      Gate
      → (MembraneEvent → Result String String)
      → String
      → String
      → ℤ
      → String
      → Option ℤ
      → Result GateError String
  publish_alert_degraded gate send scope_id reason now last_cp_hash last_cp_age_secs =
      let payload =
        alert_degraded_payload reason scope_id last_cp_age_secs gate.policy.delta_t_secs in
      do
        (event, id) ← map_err bus (
            publish_with_receipt x gate.keys send
              (new_event alert_degraded "" last_cp_hash now payload))
        ok id
