-- ===== src/Gate/Server/Session.antt =====
-- `ensure_live_session` of membrane-gate/src/server.rs. The relay is absent where its address starts
-- with memory:// or local://, and else gives the events that were fetched or an error.
pub mod Live
pub mod Exact
use the_membrane.Prelude.{
  ℤ, String, Bool, ◌&&◌, not, Option, none, some, unwrap_or, List, [], ◌∷◌, Result, ok, err, ◌>>◌,
  map_err, contains_key,
}
use the_membrane.Core.Event.{MembraneEvent}
use the_membrane.Core.Iac.{IntentAuthorizationCredential}
use the_membrane.Core.External.{External}
use the_membrane.Core.Session.{
  SessionChainState, mark_degraded, begin_scope, validate_iac_anchor, scope_router_cp_age_secs,
  is_text, alert_reason_delta_t_exceeded,
}
use the_membrane.Gate.Error.{GateError, bus, session_stale, no_valid_iac}
use the_membrane.Gate.Registry.{Gate}
use the_membrane.Gate.Liveness.{check_session_liveness, publish_alert_degraded}
use the_membrane.Gate.Operations.{Codec, Journal, Io, sever, append}
use the_membrane.Gate.Operations.Recover.{assert_ready}
use the_membrane.Gate.Server.{apply_operator_severs}

-- What the request handlers share: the session chain under its lock, and the journal.
pub record SessionState : Type 0 where
  pub chain : SessionChainState
  pub journal : Journal

abbrev pub Relay : Type 0
Relay = Option (Result String (List MembraneEvent))

-- `active_scope_id != Some(scope) && !scopes.contains_key(scope)`
abbrev pub is_new_scope : SessionChainState → String → Bool
is_new_scope c scope = not (is_text c.active_scope_id scope) && not (contains_key scope c.scopes)

-- The end of the function: the anchor, and only then the scope.
unfoldable pub anchor_scope :
    IntentAuthorizationCredential
    → SessionState
    → Result GateError (Unit {0})
    → Result GateError (Unit {0}) × SessionState
anchor_scope iac s (err e) = (err e, s)
anchor_scope iac s (ok tt) = (ok tt, record s { chain = (begin_scope s.chain iac.scope_id).0 })

abbrev pub anchored :
    IntentAuthorizationCredential → SessionChainState → Result GateError (Unit {0})
anchored iac c =
    map_err no_valid_iac (validate_iac_anchor c iac.parent_cp_hash (is_new_scope c iac.scope_id))

module _ (x : External) (codec : Codec) (io : Io) where
  -- The loop that writes every cut-off scope to the journal; an error ends it.
  unfoldable pub sever_all :
      Journal → List (String × (String × ℤ)) → Result GateError (Unit {0}) × Journal
  sever_all j [] = (ok tt, j)
  sever_all j ((scope, (reason, at)) ∷ rest) =
      let (answer, next) = append x codec io j (sever scope reason at) in
      let (others, last) = sever_all next rest in
      elim answer [ err e ↦ (err e, next) | ok _ ↦ (others, last) ]

  -- The fetched events, applied and written down.
  unfoldable pub take_relay :
      String → SessionState → Relay → Result GateError (Unit {0}) × SessionState
  take_relay operator s none = (ok tt, s)
  take_relay operator s (some (err e)) = (err (bus e), s)
  take_relay operator s (some (ok events)) =
      let chain = apply_operator_severs x operator s.chain events in
      let (answer, journal) = sever_all s.journal chain.degraded_scopes in
      (answer, record { chain = chain; journal = journal })

  -- After the alert about a stale scope: the scope is cut off, first in the journal.
  unfoldable pub cut_stale :
      String
      → ℤ
      → GateError
      → SessionState
      → Result GateError String
      → Result GateError (Unit {0}) × SessionState
  cut_stale scope now stale s (err e) = (err e, s)
  cut_stale scope now stale s (ok id) =
      let (answer, journal) =
        append x codec io s.journal (sever scope alert_reason_delta_t_exceeded now) in
      elim answer [
        | err e ↦ (err e, record s { journal = journal })
        | ok _ ↦ (
          err stale,
          record {
            chain = mark_degraded s.chain scope alert_reason_delta_t_exceeded now;
            journal = journal;
          },
        )
      ]

  -- By the answer of `check_session_liveness`.
  unfoldable pub require_live :
      Gate
      → (MembraneEvent → Result String String)
      → IntentAuthorizationCredential
      → ℤ
      → SessionState
      → Result GateError (Unit {0})
      → Result GateError (Unit {0}) × SessionState
  require_live gate send iac now s (ok tt) = anchor_scope iac s (anchored iac s.chain)
  require_live gate send iac now s (err (session_stale age limit)) =
      cut_stale iac.scope_id now (session_stale age limit) s (
        publish_alert_degraded x gate send iac.scope_id alert_reason_delta_t_exceeded now
          s.chain.last_cp_hash (scope_router_cp_age_secs s.chain iac.scope_id now))
  require_live gate send iac now s (err e) = (err e, s)

  unfoldable pub after_relay :
      Gate
      → (MembraneEvent → Result String String)
      → IntentAuthorizationCredential
      → ℤ
      → Result GateError (Unit {0}) × SessionState
      → Result GateError (Unit {0}) × SessionState
  after_relay gate send iac now (err e, s) = (err e, s)
  after_relay gate send iac now (ok tt, s) =
      require_live gate send iac now s (check_session_liveness gate s.chain iac.scope_id now)

  unfoldable pub after_ready :
      Gate
      → (MembraneEvent → Result String String)
      → Relay
      → IntentAuthorizationCredential
      → ℤ
      → SessionState
      → Result GateError (Unit {0})
      → Result GateError (Unit {0}) × SessionState
  after_ready gate send relay iac now s (err e) = (err e, s)
  after_ready gate send relay iac now s (ok tt) =
      after_relay gate send iac now (take_relay gate.iac_signer_pubkey s relay)

  unfoldable pub ensure_live_session :
      Gate
      → (MembraneEvent → Result String String)
      → Relay
      → IntentAuthorizationCredential
      → ℤ
      → SessionState
      → Result GateError (Unit {0}) × SessionState
  ensure_live_session gate send relay iac now s = after_ready gate send relay iac now s (
      assert_ready x gate.iac_signer_pubkey codec io s.journal (unwrap_or iac.caller_pubkey "")
        iac.scope_id)
