-- ===== src/Gate/Server/Routes/Status.antt =====
-- What the response to a tool request tells, and who can have GitHub called.
use the_membrane.Prelude.{
  ℕ, ℤ, String, if◌then◌else◌, Bool, true, false, ◌||◌, not, Option, some, none, List, [], ◌∷◌, eqb,
  Result, ok, err, is_ok, ◌≡◌, ◌≢◌, refl, ◌∙◌,
}
use the_membrane.Core.Value.{Value}
use the_membrane.Core.Iac.{IntentAuthorizationCredential}
use the_membrane.Core.External.{External, Bytes}
use the_membrane.Gate.Error.{GateError, siem_export, registry, bus}
use the_membrane.Gate.Registry.{Gate}
use the_membrane.Gate.Audit.{AuditLog}
use the_membrane.Gate.Identity.{authorize_identity_at}
use the_membrane.Gate.Github.{
  GitHubConnectorError, GitHubConnectorConfig, ToolInvokeRequest, full_name,
}
use the_membrane.Gate.Github.Execute.{ToolReceiptContext}
use the_membrane.Gate.Operations.{Codec}
use the_membrane.Gate.Server.Session.{SessionState}
use the_membrane.Gate.Server.Publish.{SessionReceipt, Outside}
use the_membrane.Gate.Server.Invoke.{
  Served, authorize_invoke, call_github, serve_invoke, handle_tool_invoke,
}
use the_membrane.Gate.Server.Invoke.Dispatch.{Cleared, handle_tool_invoke-calls}
use the_membrane.Gate.Server.Headers.{
  HeaderMap, Readers, Response, error_status, gate_error_response, uncertain_response,
  tool_success_response,
}
use the_membrane.Gate.Server.Routes.{
  Clocks, show_caller, refuse, after_identity, respond, invoke_as, tools_invoke,
}

-- 400, 403 and 503
abbrev pub is_refusal : ℕ → Bool
is_refusal status = eqb status 400 || eqb status 403 || eqb status 503

-- 400, 413, 415 and 422, with which axum rejects a body
abbrev pub is_rejection : ℕ → Bool
is_rejection status = eqb status 400 || eqb status 413 || eqb status 415 || eqb status 422

-- What refuses such a request: the gate, or axum where there is none.
abbrev pub refuses : Result Response ToolInvokeRequest → ℕ → Bool
refuses (ok req) status = is_refusal status
refuses (err rejection) status = is_rejection status

abbrev pub is_empty {ℓ} : {A : Type ℓ} → List A → Bool
is_empty [] = true
is_empty (_ ∷ _) = false

error_status-is_refusal : (e : GateError) → is_refusal (error_status e) ≡ true
unfolding error_status
error_status-is_refusal (siem_export _) = refl
error_status-is_refusal (registry _) = refl
error_status-is_refusal (bus _) = refl
error_status-is_refusal e = refl

-- The flag tells whether GitHub was called, and an answer that is no error had it called.
Told : Served (Value × SessionReceipt) → Type 0
Told served =
    (is_empty served.calls ≡ not served.authorized)
    × (is_ok served.answer ≡ true → served.authorized ≡ true)

refuse-is_refusal :
    (at : ℤ) (gate : Gate) (s : SessionState) (audit : AuditLog) (e : GateError)
    (identity : Option String)
    → is_refusal (refuse at gate s audit e identity).response.status ≡ true
unfolding refuse gate_error_response
refuse-is_refusal at gate s audit e identity = error_status-is_refusal e

by_flag :
    (authorized : Bool) (req : ToolInvokeRequest) (e : GateError)
    → is_refusal (if authorized then uncertain_response req e else gate_error_response e).status
      ≡ not authorized
unfolding uncertain_response gate_error_response
by_flag true req e = refl
by_flag false req e = error_status-is_refusal e

respond-is_refusal :
    (at : ℤ) (req : ToolInvokeRequest) (gate : Gate) (identity : String)
    (served : Served (Value × SessionReceipt)) (answer : Result GateError (Value × SessionReceipt))
    → is_empty served.calls ≡ not served.authorized
    → (is_ok answer ≡ true → served.authorized ≡ true)
    → is_refusal (respond at req gate identity served answer).response.status
      ≡ is_empty served.calls
unfolding respond tool_success_response uncertain_response gate_error_response
respond-is_refusal at req gate identity served (ok (body, receipt)) told called =
    rw (told, called refl) refl
respond-is_refusal at req gate identity served (err e) told called =
    rw told (by_flag served.authorized req e)

respond-calls :
    (at : ℤ) (req : ToolInvokeRequest) (gate : Gate) (identity : String)
    (served : Served (Value × SessionReceipt)) (answer : Result GateError (Value × SessionReceipt))
    → (respond at req gate identity served answer).calls ≡ served.calls
unfolding respond
respond-calls at req gate identity served (ok (body, receipt)) = refl
respond-calls at req gate identity served (err e) = refl

module _ (x : External) (readers : Readers) (default_iac : Option IntentAuthorizationCredential)
    (clocks : Clocks) (codec : Codec) (config : GitHubConnectorConfig) (o : Outside)
    (tool_value : ToolInvokeRequest → Value) (tool_bytes : ToolInvokeRequest → Result String Bytes)
    (execute : ToolInvokeRequest → Result GitHubConnectorError ToolReceiptContext)
    (req : ToolInvokeRequest) where
  serve_invoke-Told :
      (gate : Gate) (iac : IntentAuthorizationCredential) (audit : AuditLog)
      (r : Result GateError (Option String × SessionReceipt) × SessionState)
      → Told (serve_invoke x codec gate config o tool_bytes execute iac req audit r)
  unfolding serve_invoke call_github Told
  serve_invoke-Told gate iac audit (err e, s) = (refl, λ h. h)
  serve_invoke-Told gate iac audit (ok prepared, s) = (refl, λ h. refl)

  handle_tool_invoke-Told :
      (gate : Gate) (iac : IntentAuthorizationCredential) (audit : AuditLog) (s : SessionState)
      → Told (handle_tool_invoke x codec gate config o tool_bytes execute iac req audit s)
  unfolding handle_tool_invoke
  handle_tool_invoke-Told gate iac audit s =
      serve_invoke-Told gate iac audit
        (authorize_invoke x codec gate config o tool_bytes execute iac req s)

  after_identity-is_refusal :
      (s : SessionState) (audit : AuditLog) (gate : Gate) (iac : IntentAuthorizationCredential)
      (identity : String) (known : Result GateError (Unit {0}))
      → let e =
          after_identity x readers default_iac clocks codec config o tool_value tool_bytes execute
            req s audit gate iac identity known in
        is_refusal e.response.status ≡ is_empty e.calls
  unfolding after_identity Told refuse
  after_identity-is_refusal s audit gate iac identity (err e) =
      refuse-is_refusal clocks.logged_at gate s audit e (some identity)
  after_identity-is_refusal s audit gate iac identity (ok _) =
      let served = handle_tool_invoke x codec gate config o tool_bytes execute iac req audit s in
      let (told, called) = handle_tool_invoke-Told gate iac audit s in
      rw (respond-calls clocks.logged_at req gate identity served served.answer)
        (respond-is_refusal clocks.logged_at req gate identity served served.answer told called)

  invoke_as-is_refusal :
      (s : SessionState) (audit : AuditLog)
      (shown : Result GateError (IntentAuthorizationCredential × String) × Gate)
      → let e =
          invoke_as x readers default_iac clocks codec config o tool_value tool_bytes execute req s
            audit shown in
        is_refusal e.response.status ≡ is_empty e.calls
  unfolding invoke_as refuse
  invoke_as-is_refusal s audit (err e, gate) =
      refuse-is_refusal clocks.logged_at gate s audit e none
  invoke_as-is_refusal s audit (ok (iac, identity), gate) =
      after_identity-is_refusal s audit gate iac identity (
        authorize_identity_at gate identity iac req.model (some (req.tool, full_name req))
          clocks.identified_at)

  after_identity-calls :
      (s : SessionState) (audit : AuditLog) (gate : Gate) (iac : IntentAuthorizationCredential)
      (identity : String) (known : Result GateError (Unit {0}))
      → let e =
          after_identity x readers default_iac clocks codec config o tool_value tool_bytes execute
            req s audit gate iac identity known in
        e.calls ≢ []
        → (known ≡ ok tt)
          × (e.calls
              ≡ (handle_tool_invoke x codec gate config o tool_bytes execute iac req audit s).calls)
  unfolding after_identity refuse
  after_identity-calls s audit gate iac identity (err e) h = elim (h refl) [ ]
  after_identity-calls s audit gate iac identity (ok tt) h =
      let served = handle_tool_invoke x codec gate config o tool_bytes execute iac req audit s in
      (refl, respond-calls clocks.logged_at req gate identity served served.answer)

  -- Who the request came from, and what was checked for it.
  pub Vouched : HeaderMap → Gate → SessionState → Gate → Type 0
  Vouched headers gate s after =
      (iac : IntentAuthorizationCredential) × (identity : String) × (show_caller x readers
          default_iac clocks headers "/v1/tools/invoke" (tool_value req) gate
        ≡ (ok (iac, identity), after))
      × (authorize_identity_at after identity iac req.model (some (req.tool, full_name req))
            clocks.identified_at
          ≡ ok tt)
      × ((key : Option String) × (receipt : SessionReceipt) × (t : SessionState) × Cleared x codec
            after config o tool_bytes execute iac req s t key receipt)

  invoke_as-calls :
      (headers : HeaderMap) (gate : Gate) (s : SessionState) (audit : AuditLog)
      (shown : Result GateError (IntentAuthorizationCredential × String) × Gate)
      → show_caller x readers default_iac clocks headers "/v1/tools/invoke" (tool_value req) gate
        ≡ shown
      → let e =
          invoke_as x readers default_iac clocks codec config o tool_value tool_bytes execute req s
            audit shown in
        e.calls ≢ [] → (e.calls ≡ req ∷ []) × Vouched headers gate s shown.1
  unfolding invoke_as refuse Vouched
  invoke_as-calls headers gate s audit (err e, after) shows h = elim (h refl) [ ]
  invoke_as-calls headers gate s audit (ok (iac, identity), after) shows h =
      let known =
        authorize_identity_at after identity iac req.model (some (req.tool, full_name req))
          clocks.identified_at in
      let (is_known, same) = after_identity-calls s audit after iac identity known h in
      let (key, receipt, t, once, cleared) =
        handle_tool_invoke-calls x codec after config o tool_bytes execute iac req audit s
          (λ none_called. h (same ∙ none_called)) in
      (same ∙ once, (iac, identity, shows, is_known, (key, receipt, t, cleared)))

module _ (x : External) (readers : Readers) (default_iac : Option IntentAuthorizationCredential)
    (clocks : Clocks) (codec : Codec) (config : GitHubConnectorConfig) (o : Outside)
    (tool_value : ToolInvokeRequest → Value) (tool_bytes : ToolInvokeRequest → Result String Bytes)
    (execute : ToolInvokeRequest → Result GitHubConnectorError ToolReceiptContext) where
  -- A tool request whose body was read is answered with 400, 403 or 503 exactly if GitHub was not
  -- called for it: once a dispatch has begun, a failure is never reported as a refusal. A body that
  -- axum rejects, with 400, 413, 415 or 422, has nothing called.
  pub tools_invoke-is_refusal :
      (request : Result Response ToolInvokeRequest)
      → ((rejection : Response) → request ≡ err rejection → is_rejection rejection.status ≡ true)
      → (headers : HeaderMap) (gate : Gate) (s : SessionState) (audit : AuditLog)
      → let e =
          tools_invoke x readers default_iac clocks codec config o tool_value tool_bytes execute
            request headers gate s audit in
        refuses request e.response.status ≡ is_empty e.calls
  unfolding tools_invoke
  tools_invoke-is_refusal (err rejection) rejects headers gate s audit = rejects rejection refl
  tools_invoke-is_refusal (ok req) rejects headers gate s audit =
      invoke_as-is_refusal x readers default_iac clocks codec config o tool_value tool_bytes execute
        req s audit
        (show_caller x readers default_iac clocks headers "/v1/tools/invoke" (tool_value req) gate)

  -- If a tool request has GitHub called at all, its body was read, and it is called once, with this
  -- request; the headers show a credential and a fresh proof of its caller, whose identity is
  -- authorized for the tool and the repository; and every check and every record of the handler has
  -- gone before.
  pub tools_invoke-calls :
      (request : Result Response ToolInvokeRequest) (headers : HeaderMap) (gate : Gate)
      (s : SessionState) (audit : AuditLog)
      → let e =
          tools_invoke x readers default_iac clocks codec config o tool_value tool_bytes execute
            request headers gate s audit in
        e.calls ≢ []
        → (req : ToolInvokeRequest) × (request ≡ ok req)
          × (e.calls ≡ req ∷ [])
          × Vouched x readers default_iac clocks codec config o tool_value tool_bytes execute req
              headers gate s
              (show_caller x readers default_iac clocks headers "/v1/tools/invoke"
                (tool_value req)
                gate).1
  unfolding tools_invoke
  tools_invoke-calls (err rejection) headers gate s audit h = elim (h refl) [ ]
  tools_invoke-calls (ok req) headers gate s audit h =
      let (once, vouched) =
        invoke_as-calls x readers default_iac clocks codec config o tool_value tool_bytes execute
          req headers gate s audit _ refl h in
      (req, refl, once, vouched)
