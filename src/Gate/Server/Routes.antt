-- ===== src/Gate/Server/Routes.antt =====
-- The route `tools_invoke` of membrane-gate/src/server.rs: a body is read or rejected, the caller is
-- authenticated, the handler runs, and its answer is turned into a response. The receipt of a
-- blocked action, which is published without changing the state, is known by its error.
pub mod Status
use the_membrane.Prelude.{
  ℕ, ℤ, String, Bool, true, false, Option, none, some, List, [], ◌∷◌, Result, ok, err,
  if◌then◌else◌,
}
use the_membrane.Core.Value.{Value}
use the_membrane.Core.Iac.{IntentAuthorizationCredential}
use the_membrane.Core.External.{External, Bytes}
use the_membrane.Core.Caller.{CallerProof}
use the_membrane.Gate.Error.{GateError, registry}
use the_membrane.Gate.Registry.{Gate}
use the_membrane.Gate.Audit.{AuditLog, Observation, record_authenticated, rule, subject}
use the_membrane.Gate.Identity.{authorize_identity_at}
use the_membrane.Gate.Identity.Caller.{Call, authenticate_caller}
use the_membrane.Gate.Github.{
  GitHubConnectorError, GitHubConnectorConfig, ToolInvokeRequest, full_name,
}
use the_membrane.Gate.Github.Execute.{ToolReceiptContext}
use the_membrane.Gate.Operations.{Codec}
use the_membrane.Gate.Server.Session.{SessionState}
use the_membrane.Gate.Server.Steps.{Step, ◌>>=◌, ◌>>◌, lift}
use the_membrane.Gate.Server.Publish.{SessionReceipt, Outside}
use the_membrane.Gate.Server.Invoke.{Served, handle_tool_invoke}
use the_membrane.Gate.Server.Headers.{
  HeaderMap, Readers, Response, load_iac, load_caller_proof, gate_error_response,
  uncertain_response, tool_success_response,
}

-- `record_denied_identity`
unfoldable pub denied : Gate → GateError → String → Option String → ℤ → Observation
denied gate e action identity now = record {
  timestamp = now;
  outcome = "deny";
  rule = rule e;
  agent = gate.iac_signer_pubkey;
  scope = none;
  action = action;
  subject = subject e;
  authenticated_identity = identity;
}

-- What a request leaves behind.
pub record Exchange : Type 0 where
  pub response : Response
  pub gate : Gate
  pub state : SessionState
  pub audit : AuditLog
  pub calls : List ToolInvokeRequest
  pub blocked : Option GateError

-- The clock as it is read for the proof, for the first check of the identity, and for the log.
pub record Clocks : Type 0 where
  pub proved_at : ℤ
  pub identified_at : ℤ
  pub logged_at : ℤ

unfoldable pub refuse : ℤ → Gate → SessionState → AuditLog → GateError → Option String → Exchange
refuse logged_at gate s audit e identity = record {
  response = gate_error_response e;
  gate = gate;
  state = s;
  audit = record_authenticated audit (denied gate e "tool" identity logged_at);
  calls = [];
  blocked = none;
}

-- From the answer of the handler on.
unfoldable pub respond :
    ℤ
    → ToolInvokeRequest
    → Gate
    → String
    → Served (Value × SessionReceipt)
    → Result GateError (Value × SessionReceipt)
    → Exchange
respond logged_at req gate identity served (ok (body, receipt)) = record {
  response = tool_success_response body receipt;
  gate = gate;
  state = served.state;
  audit = served.audit;
  calls = served.calls;
  blocked = none;
}
respond logged_at req gate identity served (err e) = record {
  response = if served.authorized then uncertain_response req e else gate_error_response e;
  gate = gate;
  state = served.state;
  audit =
      if served.authorized
      then served.audit
      else record_authenticated served.audit (denied gate e "tool" (some identity) logged_at);
  calls = served.calls;
  blocked = if served.authorized then none else some e;
}

module _ (x : External) (readers : Readers) (default_iac : Option IntentAuthorizationCredential)
    (clocks : Clocks) where
  -- The first half of the closure `authorization`: the credential and the caller's identity.
  unfoldable pub show_caller :
      HeaderMap → String → Value → Step Gate GateError (IntentAuthorizationCredential × String)
  show_caller headers path body = do
    iac ← lift (load_iac readers headers default_iac)
    proof ← lift (load_caller_proof readers headers)
    let call : Call = record {
      iac = iac;
      proof = proof;
      path = path;
      body = body;
      now = clocks.proved_at;
    }
    identity ← (λ gate. authenticate_caller x gate call)
    lift (ok (iac, identity))

  module _ (codec : Codec) (config : GitHubConnectorConfig) (o : Outside)
      (tool_value : ToolInvokeRequest → Value)
      (tool_bytes : ToolInvokeRequest → Result String Bytes)
      (execute : ToolInvokeRequest → Result GitHubConnectorError ToolReceiptContext) where
    unfoldable pub after_identity :
        ToolInvokeRequest
        → SessionState
        → AuditLog
        → Gate
        → IntentAuthorizationCredential
        → String
        → Result GateError (Unit {0})
        → Exchange
    after_identity req s audit gate iac identity (err e) =
        refuse clocks.logged_at gate s audit e (some identity)
    after_identity req s audit gate iac identity (ok tt) =
        let served = handle_tool_invoke x codec gate config o tool_bytes execute iac req audit s in
        respond clocks.logged_at req gate identity served served.answer

    -- From the caller's identity on: it is authorized, and the handler runs.
    unfoldable pub invoke_as :
        ToolInvokeRequest
        → SessionState
        → AuditLog
        → Result GateError (IntentAuthorizationCredential × String) × Gate
        → Exchange
    invoke_as req s audit (err e, gate) = refuse clocks.logged_at gate s audit e none
    invoke_as req s audit (ok (iac, identity), gate) =
        after_identity req s audit gate iac identity (
          authorize_identity_at gate identity iac req.model (some (req.tool, full_name req))
            clocks.identified_at)

    -- The request is what axum makes of the body, or the response to a body that it rejects.
    unfoldable pub tools_invoke :
        Result Response ToolInvokeRequest → HeaderMap → Gate → SessionState → AuditLog → Exchange
    tools_invoke (err rejection) headers gate s audit = record {
      response = rejection;
      gate = gate;
      state = s;
      audit =
          record_authenticated audit
            (denied gate (registry "invalid JSON request") "tool" none clocks.logged_at);
      calls = [];
      blocked = none;
    }
    tools_invoke (ok req) headers gate s audit =
        invoke_as req s audit (show_caller headers "/v1/tools/invoke" (tool_value req) gate)
