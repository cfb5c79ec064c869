-- ===== src/Gate/Iac/Exact.antt =====
-- When a credential is accepted, and what an opened router session has been checked for.
use the_membrane.Prelude.{
  ℤ, String, str_lt, Bool, false, ◌&&◌, not, none, some, List, [], ◌∷◌, contains, all, Result, ok,
  err, is_ok, map_err, >>=-eq-ok, true, ◌≡◌, refl, sym, arith, leb_ℤ,
}
use the_membrane.Core.Iac.{
  IntentAuthorizationCredential, is_valid_at, permits_channel, model_allowed, tool_allowed,
}
use the_membrane.Core.External.{External, Bytes}
use the_membrane.Core.Signature.{verify_signature}
use the_membrane.Gate.Registry.{Gate}
use the_membrane.Core.Hash.{hash_hex, cp_hash_hex, digest}
use the_membrane.Core.Event.{MembraneEvent, schema_version, cp_router, router, new_event}
use the_membrane.Core.Signature.{sign_membrane_event}
use the_membrane.Gate.Error.{GateError, bus}
use the_membrane.Gate.Iac.{
  RouterSessionOutcome, open_router_session, router_event, publish_with_receipt, check_channels,
  check_exports, validate_iac, authorize_tool, admit_session, context_root_hex,
  RouterSessionRequest,
}

check_channels-all :
    (iac : IntentAuthorizationCredential) (channels : List String)
    → is_ok (check_channels iac channels) ≡ all (permits_channel iac) channels
unfolding check_channels
check_channels-all iac [] = refl
check_channels-all iac (c ∷ cs) = ground (arith, check_channels-all iac cs)

check_exports-all :
    (iac : IntentAuthorizationCredential) (exports : List String)
    → is_ok (check_exports iac exports) ≡ all (contains iac.forbidden_exports) exports
unfolding check_exports
check_exports-all iac [] = refl
check_exports-all iac (e ∷ es) = ground (arith, check_exports-all iac es)

abbrev pub within : String → Result GateError String → Bool
within bound (ok root) = not (str_lt bound root)
within bound (err e) = false

module _ (x : External) (gate : Gate) (now : ℤ) where
  -- A credential is valid exactly if the operator's signature on it verifies, it has not expired, and
  -- it permits the local model and every channel of the registry. No credential is never valid.
  pub validate_iac_exact :
      (iac : IntentAuthorizationCredential)
      → (is_ok (validate_iac x gate (some iac) now) ≡ (
          is_ok (verify_signature x iac gate.iac_signer_pubkey)
          && leb_ℤ now iac.valid_until
          && permits_channel iac "local-llm"
          && all (permits_channel iac) gate.policy.permitted_channels))
        × (is_ok (validate_iac x gate none now) ≡ false)
  unfolding validate_iac is_valid_at
  validate_iac_exact iac =
      (ground (arith, check_channels-all iac gate.policy.permitted_channels), refl)

  -- A tool is authorized exactly if the credential is valid and names it.
  pub authorize_tool_exact :
      (iac : IntentAuthorizationCredential) (tool : String)
      → is_ok (authorize_tool x gate iac tool now)
        ≡ (is_ok (validate_iac x gate (some iac) now) && tool_allowed iac tool)
  unfolding authorize_tool
  authorize_tool_exact iac tool = ground arith

  -- The checks of a router session pass exactly if the credential is valid, it and the registry both
  -- allow the model, it forbids every export that the registry forbids, and the context has a root
  -- that does not exceed the credential's bound.
  pub admit_session_exact :
      (iac : IntentAuthorizationCredential) (req : RouterSessionRequest)
      → is_ok (admit_session x gate (some iac) req now) ≡ (
          is_ok (validate_iac x gate (some iac) now)
          && model_allowed iac req.model_id
          && contains gate.policy.model_allowlist req.model_id
          && all (contains iac.forbidden_exports) gate.policy.forbidden_exports
          && within iac.context_merkle_bound (context_root_hex x req.context_chunks))
  unfolding admit_session
  admit_session_exact iac req = ground (arith, check_exports-all iac gate.policy.forbidden_exports)

  admit_session-same :
      (iac : IntentAuthorizationCredential) (req : RouterSessionRequest)
      {c : IntentAuthorizationCredential} {root : String}
      → admit_session x gate (some iac) req now ≡ ok (c, root)
      → c ≡ iac
  unfolding admit_session
  admit_session-same iac req h = ground arith

  publish_with_receipt-ok :
      (keys : String) (send : MembraneEvent → Result String String) (event : MembraneEvent)
      {signed : MembraneEvent} {id : String}
      → publish_with_receipt x keys send event ≡ ok (signed, id)
      → (sign_membrane_event x event keys ≡ ok signed) × (is_ok (send signed) ≡ true)
  unfolding publish_with_receipt
  publish_with_receipt-ok keys send event h =
      let (signed, signing, h1) = >>=-eq-ok (sign_membrane_event x event keys) _ h in
      let (id, sent, h2) = >>=-eq-ok (send signed) _ h1 in (ground arith, ground arith)

  open_router_session-inv :
      (send : MembraneEvent → Result String String) (iac : IntentAuthorizationCredential)
      (req : RouterSessionRequest) {out : RouterSessionOutcome}
      → open_router_session x gate send (some iac) req now ≡ ok out
      → (admit_session x gate (some iac) req now ≡ ok (iac, out.context_merkle_root))
        × ((iac_hash : String) × (hash_hex x iac ≡ ok iac_hash)
            × (sign_membrane_event x
                  (router_event req out.context_merkle_root iac_hash now)
                  gate.keys
                ≡ ok out.event))
        × (cp_hash_hex x out.event ≡ ok out.cp_hash)
        × (is_ok (send out.event) ≡ true)
  unfolding open_router_session
  open_router_session-inv send iac req {out} h =
      let ((iac1, root), admitted, h1) = >>=-eq-ok (admit_session x gate (some iac) req now) _ h in
      let (iac_hash, hashed, h2) = >>=-eq-ok (map_err bus (hash_hex x iac1)) _ h1 in
      let ((event, id), published, h3) =
        >>=-eq-ok
          (map_err bus (publish_with_receipt x gate.keys send (router_event req root iac_hash now)))
          _ h2 in
      let (hash, hash_of, h4) = >>=-eq-ok (map_err bus (cp_hash_hex x event)) _ h3 in
      let same = admit_session-same iac req admitted in
      let taken : publish_with_receipt x gate.keys send (router_event req root iac_hash now)
          ≡ ok (event, id) =
        ground arith in
      let (signed, sent) =
        publish_with_receipt-ok gate.keys send (router_event req root iac_hash now) taken in
      let outcome : RouterSessionOutcome = record {
        event = event;
        context_merkle_root = root;
        cp_hash = hash;
        bus_event_id = some id;
      } in
      let is_out : outcome ≡ out = ground arith in
      let hashed_iac : hash_hex x iac ≡ ok iac_hash = ground arith in
      let hashed_event : cp_hash_hex x event ≡ ok hash = ground arith in
      let admitted_iac : admit_session x gate (some iac) req now ≡ ok (iac, root) = ground arith in
      rw (sym is_out) (admitted_iac, (iac_hash, hashed_iac, signed), hashed_event, sent)

  admit_session-root :
      (iac : IntentAuthorizationCredential) (req : RouterSessionRequest)
      {c : IntentAuthorizationCredential} {root : String}
      → admit_session x gate (some iac) req now ≡ ok (c, root)
      → context_root_hex x req.context_chunks ≡ ok root
  unfolding admit_session
  admit_session-root iac req h = ground arith

  -- A router session is opened only where the credential is valid, it and the registry allow the
  -- model, it forbids the registry's forbidden exports, and the context's root is within its bound.
  -- The event that the relay took is then the publisher's router checkpoint of this time: it
  -- follows the request's parent, it has the request's model, nonce, scope and tool, the context's
  -- root and the credential's hash, and it is signed over its own digest. The hash and the root
  -- that are returned are those of that event and of the context.
  pub open_router_session-ok :
      (send : MembraneEvent → Result String String) (iac : IntentAuthorizationCredential)
      (req : RouterSessionRequest) {out : RouterSessionOutcome}
      → open_router_session x gate send (some iac) req now ≡ ok out
      → ((is_ok (validate_iac x gate (some iac) now)
            && model_allowed iac req.model_id
            && contains gate.policy.model_allowlist req.model_id
            && all (contains iac.forbidden_exports) gate.policy.forbidden_exports
            && not (str_lt iac.context_merkle_bound out.context_merkle_root))
          ≡ true)
        × (context_root_hex x req.context_chunks ≡ ok out.context_merkle_root)
        × ((iac_hash : String) × (message : Bytes) × (hash_hex x iac ≡ ok iac_hash)
            × (let unsigned : MembraneEvent = record {
              version = schema_version;
              event_type = cp_router;
              subject_pubkey = x.public_of gate.keys;
              prev_cp_hash = req.parent_cp_hash;
              timestamp = now;
              payload = router (record {
                model_id = req.model_id;
                context_merkle_root = out.context_merkle_root;
                session_nonce = req.session_nonce;
                parent_cp_hash = req.parent_cp_hash;
                iac_hash = iac_hash;
                scope_id = req.scope_id;
                tool_id = req.tool_id;
              });
              signature = none;
            } in
                (digest x unsigned ≡ ok message)
                × (out.event ≡ record unsigned {
                  signature = some (x.hex_encode (x.sign_schnorr gate.keys message));
                })))
        × (cp_hash_hex x out.event ≡ ok out.cp_hash)
        × (is_ok (send out.event) ≡ true)
  unfolding sign_membrane_event router_event new_event
  open_router_session-ok send iac req {out} h =
      let (admitted, (iac_hash, hashed, signed), named, sent) =
        open_router_session-inv send iac req h in
      let root = admit_session-root iac req admitted in
      let (message, digested, is_event) = >>=-eq-ok (digest x _) _ signed in
      let passed = admit_session_exact iac req in
      (ground arith, root, (iac_hash, message, hashed, (digested, ground arith)), named, sent)
