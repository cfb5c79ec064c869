-- ===== src/Gate/Server/Headers.antt =====
-- What a request carries and what it is answered: `load_iac`, `parse_iac_header`,
-- `load_caller_proof`, `gate_error_response` and the receipt headers of
-- membrane-gate/src/server.rs. The readers of JSON and Base64 are arguments.
use the_membrane.Prelude.{
  ℕ, String, false, Option, none, some, List, [], ◌∷◌, Result, ok, ◌>>=◌, map_err, ok_or, format,
  decimal, trim, starts_with, if◌then◌else◌,
}
use the_membrane.Core.Value.{Value, bool, string, object, end, field, opt_string}
use the_membrane.Core.Iac.{IntentAuthorizationCredential}
use the_membrane.Core.External.{Bytes}
use the_membrane.Core.Caller.{CallerProof}
use the_membrane.Gate.Error.{
  GateError, identity_authentication, no_valid_iac, registry, siem_export, bus, display,
}
use the_membrane.Gate.Github.{ToolInvokeRequest}
use the_membrane.Gate.Server.Publish.{SessionReceipt}

-- The headers X-Membrane-IAC and X-Membrane-Caller-Proof, where they are texts.
pub record HeaderMap : Type 0 where
  pub iac : Option String
  pub caller_proof : Option String

pub record Readers : Type 0 where
  pub base64_decode : String → Result String Bytes
  pub from_utf8 : Bytes → Result String String
  pub iac_from_str : String → Result String IntentAuthorizationCredential
  pub proof_from_str : String → Result String CallerProof

-- The header with a receipt's field is left out where its text is not a header value; `attach` gives
-- all of them.
pub record Response : Type 0 where
  pub status : ℕ
  pub headers : List (String × String)
  pub body : Value

module _ (readers : Readers) where
  -- The text of JSON in the header.
  unfoldable pub header_json : String → Result GateError String
  header_json trimmed =
      if starts_with trimmed "{"
      then ok trimmed
      else (map_err (λ e. no_valid_iac (format ("invalid base64 IAC: " ∷ e ∷ [])))
            (readers.base64_decode trimmed)
          >>= (λ bytes.
              map_err (λ e. no_valid_iac (format ("invalid utf8 IAC: " ∷ e ∷ [])))
                (readers.from_utf8 bytes)))

  unfoldable pub parse_iac_header : String → Result GateError IntentAuthorizationCredential
  parse_iac_header raw = do
    json ← header_json (trim raw)
    map_err (λ e. no_valid_iac (format ("invalid IAC JSON: " ∷ e ∷ []))) (readers.iac_from_str json)

  unfoldable pub load_iac :
      HeaderMap
      → Option IntentAuthorizationCredential
      → Result GateError IntentAuthorizationCredential
  load_iac headers default_iac = elim headers.iac [
    | some raw ↦ parse_iac_header raw
    | none ↦
        ok_or default_iac
          (no_valid_iac "missing X-Membrane-IAC header and no default IAC configured")
  ]

  unfoldable pub load_caller_proof : HeaderMap → Result GateError CallerProof
  load_caller_proof headers = do
    raw ← ok_or headers.caller_proof (identity_authentication "missing caller proof")
    map_err (λ _. identity_authentication "invalid caller proof") (readers.proof_from_str raw)

abbrev pub forbidden : ℕ
forbidden = 403

abbrev pub service_unavailable : ℕ
service_unavailable = 503

abbrev pub bad_request : ℕ
bad_request = 400

abbrev pub bad_gateway : ℕ
bad_gateway = 502

unfoldable pub error_status : GateError → ℕ
error_status (siem_export _) = service_unavailable
error_status (registry _) = bad_request
error_status (bus _) = bad_request
error_status _ = forbidden

unfoldable pub gate_error_response : GateError → Response
gate_error_response e = record {
  status = error_status e;
  headers = [];
  body = object (
      field "error"
        (object
          (field "message" (string (display e)) (field "type" (string "membrane_gate_error") end)))
        (field "ok" (bool false)
          (field "simulation" (bool false) (field "status" (string "blocked") end))));
}

-- The answer once a dispatch has begun and failed.
unfoldable pub uncertain_response : ToolInvokeRequest → GateError → Response
uncertain_response req e = record {
  status = bad_gateway;
  headers = [];
  body = object (
      field "error" (string (display e)) (
        field "message" (string "Reconcile upstream before retrying this operation.") (
          field "ok" (bool false) (
            field "operation_id" (opt_string req.operation_id)
              (field "status" (string "uncertain") end)))));
}

abbrev pub bus_header : Option String → List (String × String)
bus_header none = []
bus_header (some id) = ("x-membrane-bus-event-id", id) ∷ []

unfoldable pub attach_receipt_headers : SessionReceipt → List (String × String)
attach_receipt_headers receipt =
    ("x-membrane-scope-id", receipt.scope_id)
    ∷ ("x-membrane-session-nonce", decimal receipt.session_nonce)
    ∷ ("x-membrane-cp-hash", receipt.cp_hash)
    ∷ ("x-membrane-context-root", receipt.context_merkle_root)
    ∷ ("x-membrane-parent-cp-hash", receipt.parent_cp_hash)
    ∷ bus_header receipt.bus_event_id

unfoldable pub tool_success_response : Value → SessionReceipt → Response
tool_success_response body receipt = record {
  status = 200;
  headers = attach_receipt_headers receipt;
  body = body;
}
