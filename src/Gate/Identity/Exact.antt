-- ===== src/Gate/Identity/Exact.antt =====
-- What an identity is granted: the meet of the registry, its grant and its credential.
use the_membrane.Prelude.{
  ℤ, String, Bool, true, false, ◌&&◌, not, Option, none, some, List, [], ◌∷◌, contains, any, all,
  some_and, Option-cases, Result-cases, inl, inr, Result, ok, err, is_ok, lookup, arith, ◌≡◌, refl,
}
use the_membrane.Core.Iac.{IntentAuthorizationCredential, model_allowed, tool_allowed}
use the_membrane.Gate.Error.{GateError}
use the_membrane.Gate.Registry.{Gate, ChannelRegistry, IdentityGrant}
use the_membrane.Gate.Identity.Window.{check_window}
use the_membrane.Gate.Identity.{
  authorize_identity_at, authorize_in, authorize_tool_repo, current_registry,
}

abbrev pub tool_repo_granted :
    ChannelRegistry
    → IdentityGrant
    → IntentAuthorizationCredential
    → Option (String × String)
    → Bool
tool_repo_granted registry grant iac none = true
tool_repo_granted registry grant iac (some (tool, repo)) =
    contains iac.tool_allowlist tool
    && contains grant.tool_allowlist tool
    && contains registry.github_repo_allowlist repo
    && contains grant.github_repo_allowlist repo

abbrev pub granted :
    IntentAuthorizationCredential
    → String
    → Option (String × String)
    → ℤ
    → ChannelRegistry
    → IdentityGrant
    → Bool
granted iac model tool_repo now registry grant =
    not grant.revoked
    && is_ok (check_window grant now)
    && contains grant.scopes iac.scope_id
    && all (contains grant.permitted_channels) iac.permitted_channels
    && contains iac.model_allowlist model
    && contains registry.model_allowlist model
    && contains grant.model_allowlist model
    && tool_repo_granted registry grant iac tool_repo

-- The registry that counts is the one that is current; without it nothing is granted.
abbrev pub authorized :
    Result GateError ChannelRegistry
    → String
    → IntentAuthorizationCredential
    → String
    → Option (String × String)
    → ℤ
    → Bool
authorized (err e) identity iac model tool_repo now = false
authorized (ok registry) identity iac model tool_repo now =
    some_and (lookup identity registry.identities) (granted iac model tool_repo now registry)

any-not : (p : String → Bool) (l : List String) → any (λ c. not (p c)) l ≡ not (all p l)
any-not p [] = refl
any-not p (c ∷ l) = ground (arith, any-not p l)

authorize_tool_repo_exact :
    (registry : ChannelRegistry) (grant : IdentityGrant) (iac : IntentAuthorizationCredential)
    (tool_repo : Option (String × String))
    → is_ok (authorize_tool_repo registry grant iac tool_repo)
      ≡ tool_repo_granted registry grant iac tool_repo
unfolding authorize_tool_repo tool_allowed
authorize_tool_repo_exact registry grant iac none = refl
authorize_tool_repo_exact registry grant iac (some (tool, repo)) = ground arith

authorize_in_exact :
    (registry : ChannelRegistry) (identity : String) (iac : IntentAuthorizationCredential)
    (model : String) (tool_repo : Option (String × String)) (now : ℤ)
    → is_ok (authorize_in registry identity iac model tool_repo now)
      ≡ authorized (ok registry) identity iac model tool_repo now
unfolding authorize_in model_allowed
authorize_in_exact registry identity iac model tool_repo now =
    elim (Option-cases (lookup identity registry.identities)) [
      | inl missing ↦ ground arith
      | inr (grant, found) ↦ ground (
        arith,
        any-not (contains grant.permitted_channels) iac.permitted_channels,
        authorize_tool_repo_exact registry grant iac tool_repo,
      )
    ]

-- An identity is authorized exactly if the current registry has a grant for it that is not revoked
-- and is in its window, the grant covers the scope and every channel of the credential, the
-- credential, the registry and the grant all allow the model, and, where a tool is asked for, the
-- credential and the grant allow it and the registry and the grant allow its repository.
pub authorize_identity_at_exact :
    (gate : Gate) (identity : String) (iac : IntentAuthorizationCredential) (model : String)
    (tool_repo : Option (String × String)) (now : ℤ)
    → is_ok (authorize_identity_at gate identity iac model tool_repo now)
      ≡ authorized (current_registry gate) identity iac model tool_repo now
unfolding authorize_identity_at
authorize_identity_at_exact gate identity iac model tool_repo now =
    elim (Result-cases (current_registry gate)) [
      | inl (e, failed) ↦ ground arith
      | inr (registry, loaded) ↦
          ground (arith, authorize_in_exact registry identity iac model tool_repo now)
    ]
