-- ===== src/Gate/Registry.antt =====
-- The operator's policy: `ChannelRegistry` of membrane-gate/src/lib.rs and `IdentityGrant` of
-- membrane-gate/src/identity.rs; and the gate that holds it.
use the_membrane.Prelude.{ℕ, ℤ, String, Bool, Option, List, Map, Result}

pub record IdentityGrant : Type 0 where
  pub revoked : Bool
  pub scopes : List String
  pub permitted_channels : List String
  pub model_allowlist : List String
  pub tool_allowlist : List String
  pub github_repo_allowlist : List String
  pub not_before : Option ℤ
  pub expires_at : Option ℤ
  pub valid_for : Option String

pub record ChannelRegistry : Type 0 where
  pub identities : Map IdentityGrant
  pub permitted_channels : List String
  pub forbidden_exports : List String
  pub model_allowlist : List String
  pub delta_t_secs : ℕ
  pub model_api_url : Option String
  pub github_repo_allowlist : List String

-- The fields of `Gate` that its decisions read. `keys` is the publisher's secret key. A gate with a
-- registry path reads the file again for each request: `live` is what that reading gives, and none
-- where no path is set.
pub record Gate : Type 0 where
  pub policy : ChannelRegistry
  pub keys : String
  pub iac_signer_pubkey : String
  pub caller_challenge : String
  pub live : Option (Result String ChannelRegistry)
  pub replay : Map ℤ
