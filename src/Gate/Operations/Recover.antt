-- ===== src/Gate/Operations/Recover.antt =====
-- Recovering the state of the gate from its journal: `recover` and `assert_ready` of
-- membrane-gate/src/operations.rs.
pub mod Kept
use the_membrane.Prelude.{
  ℕ, ℤ, String, ◌==◌, Bool, true, false, ◌&&◌, ◌||◌, not, Option, none, some, some_and, List, [],
  ◌∷◌, contains, eqb, Result, ok, err, ◌>>=◌, ◌>>◌, deny_if, map_err, ok_or, if◌then◌else◌, Map,
  lookup, insert, erase, contains_key, checked_suc, eqb_ℤ,
}
use the_membrane.Core.Event.{MembraneEvent, MembranePayload, router, generic, is_router, is_alert}
use the_membrane.Core.External.{External}
use the_membrane.Core.Hash.{cp_hash_hex, is_cp_event}
use the_membrane.Core.Session.{
  SessionChainState, genesis, begin_scope, record_cp, mark_degraded, alert_degraded_fields,
}
use the_membrane.Core.Signature.{verify_membrane_event_signature}
use the_membrane.Gate.Error.{GateError, bus}
use the_membrane.Gate.Operations.{
  Record, publishing, publication_aborted, checkpoint, sever, Codec, Journal, Io, failure, records,
  append,
}

pub record Recovery : Type 0 where
  pub chain : SessionChainState
  pub callers : Map String
  pub pending : Map (Unit {0})

abbrev pub fresh : Recovery
fresh = record { chain = genesis; callers = []; pending = [] }

-- An event of the relay: the event and the id of its envelope.
pub record MembraneBusEvent : Type 0 where
  pub event : MembraneEvent
  pub id : String

-- `!map.is_empty()`
abbrev pub not_empty : Map (Unit {0}) → Bool
not_empty [] = false
not_empty (_ ∷ _) = true

unfoldable pub claim_scope :
    Recovery → String → String → MembranePayload → Result GateError Recovery
claim_scope r caller prev (generic value) = ok r
claim_scope r caller prev (router p) = do
  scope ← ok_or p.scope_id (failure "checkpoint missing scope")
  deny_if (not (p.parent_cp_hash == prev)) (failure "router parent mismatch")
  deny_if (some_and (lookup scope r.callers) (λ owner. not (caller == "") && not (owner == caller)))
      (failure "scope reused by another caller")
  let callers = if caller == "" then r.callers else insert scope caller r.callers
  let chain = (begin_scope r.chain scope).0
  deny_if (not (some_and (checked_suc chain.session_nonce) (λ n. eqb n p.session_nonce)))
      (failure "scope nonce rollback")
  ok (record r { callers = callers; chain = record chain { session_nonce = p.session_nonce } })

abbrev pub note_checkpoint :
    SessionChainState → MembraneEvent → String → Option String → SessionChainState
note_checkpoint c event hash id =
    if is_router event.event_type
    then record_cp c hash id event.timestamp
    else record c { last_cp_hash = hash; last_event_id = id }

module _ (x : External) (operator : String) where
  -- One turn of the loop of `recover`.
  unfoldable pub recover_record : Recovery → Record → Result GateError Recovery
  recover_record r (publication_aborted token) = ok (record r { pending = erase token r.pending })
  recover_record r (publishing token) = ok (record r { pending = insert token tt r.pending })
  recover_record r (checkpoint token caller event id) = do
    map_err bus (verify_membrane_event_signature x event operator)
    deny_if (not (event.prev_cp_hash == r.chain.last_cp_hash))
        (failure "checkpoint chain discontinuity")
    claimed ← claim_scope r caller event.prev_cp_hash event.payload
    hash ← map_err bus (cp_hash_hex x event)
    ok (record claimed {
      chain = note_checkpoint claimed.chain event hash id;
      pending = erase token claimed.pending;
    })
  recover_record r (sever scope reason at) =
      ok (record r { chain = mark_degraded r.chain scope reason at })
  recover_record r _ = ok r

  unfoldable pub recover_records : Recovery → List Record → Result GateError Recovery
  recover_records r [] = ok r
  recover_records r (q ∷ rest) = do next ← recover_record r q; recover_records next rest

  module _ (codec : Codec) where
    unfoldable pub recover : Io → Journal → Result GateError Recovery
    recover io j = do rs ← records x codec io j; recover_records fresh rs

    unfoldable pub assert_ready : Io → Journal → String → String → Result GateError (Unit {0})
    assert_ready io j caller scope = do
      r ← recover io j
      deny_if (not_empty r.pending)
          (failure "unresolved checkpoint publication; operator review required")
      deny_if (contains_key scope r.chain.scopes && not (contains_key scope r.callers))
          (failure "imported scope has no verified caller binding; issue a new scope")
      deny_if (some_and (lookup scope r.callers) (λ owner. not (owner == caller)))
          (failure "scope belongs to a different caller")
