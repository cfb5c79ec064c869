-- ===== src/Gate/Server/Admit.antt =====
-- The checks of `handle_chat` and `handle_tool_invoke` of membrane-gate/src/server.rs, before the
-- session chain is locked and again before the dispatch.
use the_membrane.Prelude.{
  String, ◌||◌, not, some, Option, [], ◌∷◌, contains, Result, ◌>>=◌, ◌>>◌, map_err, ok_or, deny_if,
  format, decimal,
}
use the_membrane.Core.Iac.{IntentAuthorizationCredential, model_allowed}
use the_membrane.Core.External.{External}
use the_membrane.Core.Session.{SessionChainState}
use the_membrane.Gate.Error.{
  GateError, connector, repo_denied, registry, model_denied, identity_authentication,
}
use the_membrane.Gate.Registry.{Gate}
use the_membrane.Gate.Iac.{validate_iac, authorize_tool}
use the_membrane.Gate.Liveness.{check_session_liveness}
use the_membrane.Gate.Identity.{authorize_identity_at}
use the_membrane.Gate.Github.{
  GitHubConnectorError, GitHubConnectorConfig, ToolInvokeRequest, token_missing, unsupported_tool,
  invalid_args, api, http, is_github_tool, full_name, preflight,
}
use the_membrane.Gate.Github
use the_membrane.Gate.Server.Publish.{Outside}

unfoldable pub map_github_err : GitHubConnectorError → GateError
map_github_err token_missing =
    connector "GitHub token missing; set MEMBRANE_GITHUB_TOKEN or GITHUB_TOKEN"
map_github_err (Github.repo_denied r) = repo_denied r
map_github_err (unsupported_tool t) = connector (format ("unsupported tool: " ∷ t ∷ []))
map_github_err (invalid_args m) = registry m
map_github_err (api status message) =
    connector (format ("GitHub API " ∷ decimal status ∷ ": " ∷ message ∷ []))
map_github_err (http m) = connector m

module _ (x : External) (gate : Gate) (o : Outside) (iac : IntentAuthorizationCredential) where
  unfoldable pub admit_chat : Result GateError (Unit {0})
  admit_chat = do validate_iac x gate (some iac) o.now; o.admission

  -- The registry is read again.
  unfoldable pub check_identity : String → Option (String × String) → Result GateError (Unit {0})
  check_identity model tool_repo = do
    caller ← ok_or iac.caller_pubkey (identity_authentication "missing caller binding")
    authorize_identity_at (record gate { live = o.registry_then }) caller iac model tool_repo
        o.authorized_at

  -- The checks before the session chain is locked.
  unfoldable pub admit_tool :
      GitHubConnectorConfig → ToolInvokeRequest → Result GateError (Unit {0})
  admit_tool config req = do
    validate_iac x gate (some iac) o.now
    o.admission
    deny_if
        (not (model_allowed iac req.model) || not (contains gate.policy.model_allowlist req.model))
        (model_denied req.model)
    authorize_tool x gate iac req.tool o.now
    deny_if (not (is_github_tool req.tool)) (
        connector (
          format (
            "no connector configured for tool '" ∷ req.tool
            ∷ "'; supported: github.comment, github.merge, github.issue.read" ∷ [])))
    map_err map_github_err (preflight config req)

  -- The checks after the checkpoint, just before the dispatch.
  unfoldable pub check_again : ToolInvokeRequest → SessionChainState → Result GateError (Unit {0})
  check_again req c = do
    validate_iac x gate (some iac) o.validated_at
    check_session_liveness gate c iac.scope_id o.live_at
    check_identity req.model (some (req.tool, full_name req))
