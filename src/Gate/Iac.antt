-- ===== src/Gate/Iac.antt =====
-- `validate_iac`, `authorize_tool`, `context_root_hex` and `open_router_session` of
-- membrane-gate/src/lib.rs, with the publisher of membrane-core/src/nostr_bus.rs.
pub mod Exact
use the_membrane.Prelude.{
  ℕ, ℤ, String, ◌==◌, str_lt, Bool, true, false, ◌&&◌, ◌||◌, not, Option, none, some, List, [], ◌∷◌,
  contains, any, Result, ok, err, ◌>>=◌, ◌>>◌, deny_if, map_err, ok_or, format, if◌then◌else◌,
}
use the_membrane.Core.Event.{MembraneEvent, cp_router, new_event, router, RouterSessionPayload}
use the_membrane.Core.Iac.{
  IntentAuthorizationCredential, is_valid_at, permits_channel, model_allowed, tool_allowed,
}
use the_membrane.Core.External.{External, Bytes}
use the_membrane.Core.Hash.{cp_hash_hex, hash_hex}
use the_membrane.Core.Signature.{verify_signature, display, sign_membrane_event}
use the_membrane.Core.Merkle.{feature_chunk, from_domain_leaves, root_hex}
use the_membrane.Gate.Error.{
  GateError, no_valid_iac, invalid_iac_signature, channel_denied, model_denied, tool_denied,
  export_forbidden, context_bound_exceeded, registry, bus,
}
use the_membrane.Gate.Registry.{Gate, ChannelRegistry}

pub record RouterSessionRequest : Type 0 where
  pub model_id : String
  pub context_chunks : List Bytes
  pub session_nonce : ℕ
  pub parent_cp_hash : String
  pub scope_id : Option String
  pub tool_id : Option String

-- The envelope that the relay took is known by its id.
pub record RouterSessionOutcome : Type 0 where
  pub event : MembraneEvent
  pub context_merkle_root : String
  pub cp_hash : String
  pub bus_event_id : Option String

-- The loop over the registry's channels.
unfoldable pub check_channels :
    IntentAuthorizationCredential → List String → Result GateError (Unit {0})
check_channels iac [] = ok tt
check_channels iac (channel ∷ rest) =
    let others = check_channels iac rest in
    if not (permits_channel iac channel) then err (channel_denied channel) else others

-- The loop over the registry's forbidden exports.
unfoldable pub check_exports :
    IntentAuthorizationCredential → List String → Result GateError (Unit {0})
check_exports iac [] = ok tt
check_exports iac (export ∷ rest) =
    let others = check_exports iac rest in
    if not (contains iac.forbidden_exports export)
    then err (export_forbidden (format ("IAC missing forbidden export: " ∷ export ∷ [])))
    else others

unfoldable pub router_event : RouterSessionRequest → String → String → ℤ → MembraneEvent
router_event req context_merkle_root iac_hash now = new_event cp_router "" req.parent_cp_hash now (
    router (record {
      model_id = req.model_id;
      context_merkle_root = context_merkle_root;
      session_nonce = req.session_nonce;
      parent_cp_hash = req.parent_cp_hash;
      iac_hash = iac_hash;
      scope_id = req.scope_id;
      tool_id = req.tool_id;
    }))

module _ (x : External) where
  unfoldable pub validate_iac :
      Gate → Option IntentAuthorizationCredential → ℤ → Result GateError (Unit {0})
  validate_iac gate credential now = do
    iac ← ok_or credential (no_valid_iac "missing IAC")
    map_err (λ e. invalid_iac_signature (display e)) (verify_signature x iac gate.iac_signer_pubkey)
    deny_if (not (is_valid_at iac now)) (no_valid_iac "IAC expired")
    deny_if (not (permits_channel iac "local-llm")) (channel_denied "IAC does not permit local-llm")
    check_channels iac gate.policy.permitted_channels

  unfoldable pub authorize_tool :
      Gate → IntentAuthorizationCredential → String → ℤ → Result GateError (Unit {0})
  authorize_tool gate iac tool_id now = do
    validate_iac gate (some iac) now
    deny_if (not (tool_allowed iac tool_id)) (tool_denied tool_id)

  unfoldable pub context_root_hex : List Bytes → Result GateError String
  context_root_hex chunks =
      ok_or (root_hex x (from_domain_leaves x feature_chunk chunks)) (registry "empty context")

  -- `publish_with_receipt`: the event is signed. `send` puts it into an envelope and stands for the
  -- relay; it gives the id of the envelope or an error.
  unfoldable pub publish_with_receipt :
      String
      → (MembraneEvent → Result String String)
      → MembraneEvent
      → Result String (MembraneEvent × String)
  publish_with_receipt keys send event = do
    signed ← sign_membrane_event x event keys
    id ← send signed
    ok (signed, id)

  -- The checks of `open_router_session`; it gives the root of the context.
  unfoldable pub admit_session :
      Gate
      → Option IntentAuthorizationCredential
      → RouterSessionRequest
      → ℤ
      → Result GateError (IntentAuthorizationCredential × String)
  admit_session gate credential req now = do
    validate_iac gate credential now
    iac ← ok_or credential (no_valid_iac "missing IAC")
    deny_if (not (model_allowed iac req.model_id)) (model_denied req.model_id)
    deny_if (not (contains gate.policy.model_allowlist req.model_id)) (model_denied req.model_id)
    check_exports iac gate.policy.forbidden_exports
    context_merkle_root ← context_root_hex req.context_chunks
    deny_if (str_lt iac.context_merkle_bound context_merkle_root) context_bound_exceeded
    ok (iac, context_merkle_root)

  unfoldable pub open_router_session :
      Gate
      → (MembraneEvent → Result String String)
      → Option IntentAuthorizationCredential
      → RouterSessionRequest
      → ℤ
      → Result GateError RouterSessionOutcome
  open_router_session gate send credential req now = do
    (iac, context_merkle_root) ← admit_session gate credential req now
    iac_hash ← map_err bus (hash_hex x iac)
    (event, id) ←
        map_err bus
          (publish_with_receipt gate.keys send (router_event req context_merkle_root iac_hash now))
    cp_hash ← map_err bus (cp_hash_hex x event)
    ok (record {
      event = event;
      context_merkle_root = context_merkle_root;
      cp_hash = cp_hash;
      bus_event_id = some id;
    })
