-- ===== src/Gate/Server.antt =====
-- The session part of membrane-gate/src/server.rs: `apply_operator_severs`; `ensure_live_session` is
-- in the module Session below.
pub mod Severs
pub mod Session
pub mod Steps
pub mod Publish
pub mod Admit
pub mod Invoke
pub mod Chat
pub mod Headers
pub mod Routes
use the_membrane.Prelude.{
  ℤ, String, ◌==◌, Bool, true, false, ◌&&◌, ◌||◌, not, Option, none, some, unwrap_or, List, [], ◌∷◌,
  Result, ok, err, is_ok, if◌then◌else◌,
}
use the_membrane.Core.Event.{MembraneEvent, is_alert}
use the_membrane.Core.External.{External}
use the_membrane.Core.Session.{SessionChainState, mark_degraded, alert_degraded_fields}
use the_membrane.Core.Signature.{verify_membrane_event_signature}

-- `if let (Some(reason), Some(scope))`
abbrev pub sever_named : SessionChainState → Option String × Option String → ℤ → SessionChainState
sever_named c (some reason, some scope) at = mark_degraded c scope reason at
sever_named c (some reason, none) at = c
sever_named c (none, scope) at = c

module _ (x : External) (operator : String) where
  -- The event passes the filter of the loop.
  unfoldable pub is_operator_alert : MembraneEvent → Bool
  is_operator_alert event =
      is_alert event.event_type && is_ok (verify_membrane_event_signature x event operator)

  unfoldable pub apply_sever : SessionChainState → MembraneEvent → SessionChainState
  unfolding is_operator_alert
  apply_sever c event =
      if is_operator_alert event
      then sever_named c (alert_degraded_fields event.payload) event.timestamp
      else c

  unfoldable pub apply_operator_severs : SessionChainState → List MembraneEvent → SessionChainState
  apply_operator_severs c [] = c
  apply_operator_severs c (event ∷ rest) = apply_operator_severs (apply_sever c event) rest
