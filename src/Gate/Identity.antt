-- ===== src/Gate/Identity.antt =====
-- membrane-gate/src/identity.rs: what an operator's grant lets an authenticated caller do.
pub mod Window
pub mod Caller
pub mod Exact
use the_membrane.Prelude.{
  ℤ, String, ◌==◌, Bool, true, false, ◌&&◌, ◌||◌, not, Option, none, some, List, [], ◌∷◌, contains,
  any, Result, ok, err, is_ok, ◌>>=◌, ◌>>◌, deny_if, map_err, ok_or, format, if◌then◌else◌, Map,
  lookup,
}
use the_membrane.Core.Iac.{IntentAuthorizationCredential, model_allowed, tool_allowed}
use the_membrane.Gate.Error.{GateError, identity_grant, model_denied, tool_denied, repo_denied}
use the_membrane.Gate.Registry.{Gate, ChannelRegistry, IdentityGrant}
use the_membrane.Gate.Identity.Window.{check_window, effective_expiry}

-- The registry file where a path is set, read for each request; else the gate's own registry.
unfoldable pub current_registry : Gate → Result GateError ChannelRegistry
current_registry gate = elim gate.live [
  | none ↦ ok gate.policy
  | some loaded ↦ map_err (λ e. identity_grant (format ("registry unavailable: " ∷ e ∷ []))) loaded
]

unfoldable pub grant_expiry : IdentityGrant → Option ℤ
grant_expiry grant = elim (effective_expiry grant) [
  | ok until ↦ if grant.revoked then none else until
  | err e ↦ none
]

-- The two filters of `grant_expiries`.
unfoldable pub expiries : Map IdentityGrant → List (String × ℤ)
unfolding grant_expiry
expiries [] = []
expiries ((id, grant) ∷ rest) = elim (grant_expiry grant) [
  | none ↦ expiries rest
  | some until ↦ (id, until) ∷ expiries rest
]

unfoldable pub grant_expiries : Gate → Result GateError (List (String × ℤ))
unfolding current_registry expiries
grant_expiries gate = do registry ← current_registry gate; ok (expiries registry.identities)

-- The part of `authorize_identity_at` that is about a tool and a repository.
unfoldable pub authorize_tool_repo :
    ChannelRegistry
    → IdentityGrant
    → IntentAuthorizationCredential
    → Option (String × String)
    → Result GateError (Unit {0})
authorize_tool_repo registry grant iac none = ok tt
authorize_tool_repo registry grant iac (some (tool, repo)) = do
  deny_if (not (tool_allowed iac tool) || not (contains grant.tool_allowlist tool))
      (tool_denied tool)
  deny_if
      (not (contains registry.github_repo_allowlist repo)
        || not (contains grant.github_repo_allowlist repo))
      (repo_denied repo)

-- From the lookup of the grant on.
unfoldable pub authorize_in :
    ChannelRegistry
    → String
    → IntentAuthorizationCredential
    → String
    → Option (String × String)
    → ℤ
    → Result GateError (Unit {0})
authorize_in registry identity iac model tool_repo now = do
  grant ← ok_or (lookup identity registry.identities) (identity_grant "unknown identity")
  deny_if grant.revoked (identity_grant "revoked identity")
  check_window grant now
  deny_if
      (not (contains grant.scopes iac.scope_id)
        || any (λ c. not (contains grant.permitted_channels c)) iac.permitted_channels)
      (identity_grant "scope or channel not granted")
  deny_if
      (not (model_allowed iac model)
        || not (contains registry.model_allowlist model)
        || not (contains grant.model_allowlist model))
      (model_denied model)
  authorize_tool_repo registry grant iac tool_repo

unfoldable pub authorize_identity_at :
    Gate
    → String
    → IntentAuthorizationCredential
    → String
    → Option (String × String)
    → ℤ
    → Result GateError (Unit {0})
unfolding current_registry authorize_in
authorize_identity_at gate identity iac model tool_repo now = do
  registry ← current_registry gate
  authorize_in registry identity iac model tool_repo now
