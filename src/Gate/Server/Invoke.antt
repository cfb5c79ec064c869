-- ===== src/Gate/Server/Invoke.antt =====
-- `handle_tool_invoke` of membrane-gate/src/server.rs. `execute` stands for the call of GitHub,
-- `tool_bytes` for the serialized request.
pub mod Dispatch
use the_membrane.Prelude.{
  ℤ, String, ◌==◌, Bool, true, false, Option, none, some, unwrap_or, List, [], ◌∷◌, Result, ok, err,
  is_ok, map_err, decimal, if◌then◌else◌,
}
use the_membrane.Core.Value.{Value, bool, number, string, object, end, field, opt_string}
use the_membrane.Core.Iac.{IntentAuthorizationCredential}
use the_membrane.Core.External.{External, Bytes}
use the_membrane.Gate.Error.{GateError, registry}
use the_membrane.Gate.Registry.{Gate}
use the_membrane.Gate.Audit.{AuditLog, Observation, record_authenticated}
use the_membrane.Gate.Github.{
  GitHubConnectorError, GitHubConnectorConfig, ToolInvokeRequest, tool_github_issue_read,
}
use the_membrane.Gate.Github.Execute.{ToolReceiptContext, opt_value}
use the_membrane.Gate.Iac.{RouterSessionRequest}
use the_membrane.Gate.Operations.{Codec, Journal}
use the_membrane.Gate.Operations.Reserve.{reserve_in_scope, finish}
use the_membrane.Gate.Server.Session.{SessionState, ensure_live_session}
use the_membrane.Gate.Server.Steps.{Step, ◌>>=◌, ◌>>◌, lift, reads}
use the_membrane.Gate.Server.Publish.{SessionReceipt, Outside, next_request, publish_session}
use the_membrane.Gate.Server.Admit.{map_github_err, admit_tool, check_again}

-- What `json!` makes of the outcome and the receipt.
unfoldable pub invoke_body : ToolInvokeRequest → ToolReceiptContext → SessionReceipt → Value
invoke_body req context receipt = object (
    field "body_sha256" (opt_string context.body_sha256) (
      field "model" (string req.model) (
        field "ok" (bool true) (
          field "owner" (string req.owner) (
            field "receipt"
              (object (
                field "bus_event_id" (opt_string receipt.bus_event_id) (
                  field "context_merkle_root" (string receipt.context_merkle_root) (
                    field "cp_hash" (string receipt.cp_hash) (
                      field "parent_cp_hash" (string receipt.parent_cp_hash) (
                        field "scope_id" (string receipt.scope_id)
                          (field "session_nonce" (number (decimal receipt.session_nonce)) end)))))))
              (field "repo" (string req.repo) (
                field "result" (opt_value context.result) (
                  field "simulation" (bool false)
                    (field "status" (string "allowed") (field "tool" (string req.tool) end))))))))))

-- `vec![serde_json::to_vec(req)?]`
abbrev pub one_chunk : Result String Bytes → Result GateError (List Bytes)
one_chunk (ok bytes) = ok (bytes ∷ [])
one_chunk (err e) = err (registry e)

-- `Ok(path)` of a reservation
abbrev pub reserved : Result GateError String × Journal → Result GateError (Option String) × Journal
reserved (ok key, j) = (ok (some key), j)
reserved (err e, j) = (err e, j)

-- The journal of a call, put back into the state.
abbrev pub with_journal {ℓ} : {A : Type ℓ} → SessionState → A × Journal → A × SessionState
with_journal s (a, j) = (a, record s { journal = j })

-- What is left of a request: the state, the audit log, whether the dispatch was authorized, and the
-- calls of GitHub.
pub record Served (A : Type 0) : Type 0 where
  pub answer : Result GateError A
  pub state : SessionState
  pub audit : AuditLog
  pub authorized : Bool
  pub calls : List ToolInvokeRequest

abbrev pub allowed : Gate → IntentAuthorizationCredential → String → ℤ → Observation
allowed gate iac action now = record {
  timestamp = now;
  outcome = "allow";
  rule = "all_authorization_checks_passed";
  agent = gate.iac_signer_pubkey;
  scope = some iac.scope_id;
  action = action;
  subject = none;
  authenticated_identity = iac.caller_pubkey;
}

module _ (x : External) (codec : Codec) (gate : Gate) (config : GitHubConnectorConfig) (o : Outside)
    (tool_bytes : ToolInvokeRequest → Result String Bytes)
    (execute : ToolInvokeRequest → Result GitHubConnectorError ToolReceiptContext)
    (iac : IntentAuthorizationCredential) (req : ToolInvokeRequest) where
  -- The request of the session, whose context is the request itself.
  unfoldable pub request_of : SessionState → Result GateError RouterSessionRequest
  request_of s = next_request iac req.model (some req.tool) (one_chunk (tool_bytes req)) s.chain

  unfoldable pub reserve : Step SessionState GateError (Option String)
  reserve s =
      if req.tool == tool_github_issue_read
      then (ok none, s)
      else with_journal s (
          reserved (
            reserve_in_scope x codec o.reserve_io s.journal (unwrap_or iac.caller_pubkey "")
              iac.scope_id req))

  -- The whole of `handle_tool_invoke` before `*authorized = true`: the reservation and the receipt.
  unfoldable pub authorize_invoke : Step SessionState GateError (Option String × SessionReceipt)
  authorize_invoke = do
    lift (admit_tool x gate o iac config req)
    ensure_live_session x codec o.live_io gate o.send o.relay iac o.now
    next ← reads request_of
    key ← reserve
    receipt ← publish_session x codec gate o iac next
    reads (λ s. check_again x gate o iac req s.chain)
    lift (ok (key, receipt))

  -- `finish` where the operation was reserved.
  unfoldable pub finish_reserved : Option String → Bool → Step SessionState GateError (Unit {0})
  finish_reserved none success s = (ok tt, s)
  finish_reserved (some key) success s =
      with_journal s (finish x codec o.finish_io s.journal key success)

  -- `github.execute(req)`, which is noted in the log of calls.
  unfoldable pub call_github :
      List ToolInvokeRequest
      → Result GitHubConnectorError ToolReceiptContext × List ToolInvokeRequest
  call_github log = (execute req, req ∷ log)

  -- After the call of GitHub.
  unfoldable pub after_call :
      Option String × SessionReceipt
      → Result GitHubConnectorError ToolReceiptContext
      → Step SessionState GateError (Value × SessionReceipt)
  after_call (key, receipt) execution = do
    finish_reserved key (is_ok execution)
    context ← lift (map_err map_github_err execution)
    lift (ok (invoke_body req context receipt, receipt))

  unfoldable pub serve_invoke :
      AuditLog
      → Result GateError (Option String × SessionReceipt) × SessionState
      → Served (Value × SessionReceipt)
  serve_invoke audit (err e, s) = record {
    answer = err e;
    state = s;
    audit = audit;
    authorized = false;
    calls = [];
  }
  serve_invoke audit (ok prepared, s) =
      let (execution, calls) = call_github [] in
      let (answer, last) = after_call prepared execution s in
      record {
        answer = answer;
        state = last;
        audit = record_authenticated audit (allowed gate iac "tool" o.authorized_at);
        authorized = true;
        calls = calls;
      }

  unfoldable pub handle_tool_invoke : AuditLog → SessionState → Served (Value × SessionReceipt)
  handle_tool_invoke audit s = serve_invoke audit (authorize_invoke s)
