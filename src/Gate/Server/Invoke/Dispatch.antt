-- ===== src/Gate/Server/Invoke/Dispatch.antt =====
-- When a tool request reaches GitHub.
use the_membrane.Prelude.{String, Option, [], ◌∷◌, Result, ok, err, ◌≡◌, ◌≢◌, refl, sym, ap}
use the_membrane.Core.Iac.{IntentAuthorizationCredential}
use the_membrane.Core.External.{External, Bytes}
use the_membrane.Gate.Error.{GateError}
use the_membrane.Gate.Registry.{Gate}
use the_membrane.Gate.Audit.{AuditLog}
use the_membrane.Gate.Github.{GitHubConnectorError, GitHubConnectorConfig, ToolInvokeRequest}
use the_membrane.Gate.Github.Execute.{ToolReceiptContext}
use the_membrane.Gate.Iac.{RouterSessionRequest, RouterSessionOutcome}
use the_membrane.Gate.Operations.{Codec}
use the_membrane.Gate.Server.Session.{SessionState, ensure_live_session}
use the_membrane.Gate.Server.Steps.{>>=-ok, reads-ok, check-ok, >>-ok, returned}
use the_membrane.Gate.Server.Publish.{SessionReceipt, Outside, begin, publish_session}
use the_membrane.Gate.Server.Publish.Opened.{Committed, publish_session-ok}
use the_membrane.Gate.Server.Admit.{admit_tool, check_again}
use the_membrane.Gate.Server.Invoke.{
  request_of, reserve, authorize_invoke, call_github, serve_invoke, handle_tool_invoke,
}

module _ (x : External) (codec : Codec) (gate : Gate) (config : GitHubConnectorConfig) (o : Outside)
    (tool_bytes : ToolInvokeRequest → Result String Bytes)
    (execute : ToolInvokeRequest → Result GitHubConnectorError ToolReceiptContext)
    (iac : IntentAuthorizationCredential) (req : ToolInvokeRequest) where
  -- What has happened between the states `s` and `t`, in this order.
  pub Cleared : SessionState → SessionState → Option String → SessionReceipt → Type 0
  Cleared s t key receipt =
      (live : SessionState) × (next : RouterSessionRequest) × (kept : SessionState)
      × (token : String) × (begun : SessionState) × (out : RouterSessionOutcome) × (hash : String)
      × (admit_tool x gate o iac config req ≡ ok tt)
      × (ensure_live_session x codec o.live_io gate o.send o.relay iac o.now s ≡ (ok tt, live))
      × (request_of x codec gate config o tool_bytes execute iac req live ≡ ok next)
      × (reserve x codec gate config o tool_bytes execute iac req live ≡ (ok key, kept))
      × (begin x codec gate o iac kept ≡ (ok token, begun))
      × Committed x codec gate o iac next begun t receipt out hash
      × (check_again x gate o iac req t.chain ≡ ok tt)

  steps-Cleared :
      (s live : SessionState) (next : RouterSessionRequest) (kept : SessionState) (token : String)
      (begun : SessionState) (out : RouterSessionOutcome) (hash : String) {key key1 : Option String}
      {receipt receipt1 : SessionReceipt} {t last : SessionState}
      → admit_tool x gate o iac config req ≡ ok tt
      → ensure_live_session x codec o.live_io gate o.send o.relay iac o.now s ≡ (ok tt, live)
      → request_of x codec gate config o tool_bytes execute iac req live ≡ ok next
      → reserve x codec gate config o tool_bytes execute iac req live ≡ (ok key1, kept)
      → begin x codec gate o iac kept ≡ (ok token, begun)
      → Committed x codec gate o iac next begun last receipt1 out hash
      → check_again x gate o iac req last.chain ≡ ok tt
      → key1 ≡ key
      → receipt1 ≡ receipt
      → last ≡ t
      → Cleared s t key receipt
  unfolding Cleared
  steps-Cleared s live next kept token begun out hash a b c d e f g k r l =
      rw (sym k, sym r, sym l) (live, next, kept, token, begun, out, hash, a, b, c, d, e, f, g)

  authorize_invoke-ok :
      (s : SessionState) {key : Option String} {receipt : SessionReceipt} {t : SessionState}
      → authorize_invoke x codec gate config o tool_bytes execute iac req s ≡ (ok (key, receipt), t)
      → Cleared s t key receipt
  unfolding authorize_invoke
  authorize_invoke-ok s {key} {receipt} {t} h =
      let (admitted, h1) = check-ok (admit_tool x gate o iac config req) _ s h in
      let (live, is_live, h2) =
        >>-ok (ensure_live_session x codec o.live_io gate o.send o.relay iac o.now) _ s h1 in
      let (next, asked, h3) =
        reads-ok (request_of x codec gate config o tool_bytes execute iac req) _ live h2 in
      let (key1, kept, reserved_key, h4) =
        >>=-ok (reserve x codec gate config o tool_bytes execute iac req) _ live h3 in
      let (receipt1, last, published, h5) =
        >>=-ok (publish_session x codec gate o iac next) _ kept h4 in
      let (checked, h6) = check-ok (check_again x gate o iac req last.chain) _ last h5 in
      let (same, same_state) = returned h6 in
      let (token, begun, out, hash, started, committed) =
        publish_session-ok x codec gate o iac next kept published in
      steps-Cleared s live next kept token begun out hash admitted is_live asked reserved_key
        started committed checked (ap (λ r. r.0) same) (ap (λ r. r.1) same) same_state

  -- By the answer of the checks.
  serve_invoke-calls :
      (audit : AuditLog) (r : Result GateError (Option String × SessionReceipt) × SessionState)
      → (serve_invoke x codec gate config o tool_bytes execute iac req audit r).calls ≢ []
      → (key : Option String) × (receipt : SessionReceipt) × (t : SessionState) × (r
          ≡ (ok (key, receipt), t))
        × ((serve_invoke x codec gate config o tool_bytes execute iac req audit r).calls ≡ req ∷ [])
  unfolding serve_invoke call_github
  serve_invoke-calls audit (err e, s) h = elim (h refl) [ ]
  serve_invoke-calls audit (ok (key, receipt), t) h = (key, receipt, t, refl, refl)

  -- If a tool request calls GitHub at all, it calls it once, with this request, and before that, in
  -- this order: every check of the request passed, the session was found live, the operation was
  -- reserved if it writes, the publication was begun in the journal, a session of the router was
  -- opened, its checkpoint was appended to the journal and noted in the chain, and in that state the
  -- credential, the scope and the identity were checked again.
  pub handle_tool_invoke-calls :
      (audit : AuditLog) (s : SessionState)
      → (handle_tool_invoke x codec gate config o tool_bytes execute iac req audit s).calls ≢ []
      → (key : Option String) × (receipt : SessionReceipt) × (t : SessionState)
        × ((handle_tool_invoke x codec gate config o tool_bytes execute iac req audit s).calls
            ≡ req ∷ [])
        × Cleared s t key receipt
  unfolding handle_tool_invoke
  handle_tool_invoke-calls audit s h =
      let start = authorize_invoke x codec gate config o tool_bytes execute iac req s in
      let (key, receipt, t, passed, once) = serve_invoke-calls audit start h in
      (key, receipt, t, once, authorize_invoke-ok s passed)
