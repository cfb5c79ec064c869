-- ===== src/Core/Iac.antt =====
-- membrane-core/src/iac.rs: the intent authorization credential and its plain queries.
use the_membrane.Prelude.{ℤ, leb_ℤ, String, Option, none, Bool, List, [], ◌∷◌, contains}

pub record IntentAuthorizationCredential : Type 0 where
  pub version : String
  pub scope_id : String
  pub caller_pubkey : Option String
  pub permitted_channels : List String
  pub model_allowlist : List String
  pub tool_allowlist : List String
  pub decoder_version : Option String
  pub stimulation_policy : Option String
  pub context_merkle_bound : String
  pub forbidden_exports : List String
  pub valid_until : ℤ
  pub parent_cp_hash : String
  pub signature : Option String

pub record SignableIac : Type 0 where
  pub version : String
  pub scope_id : String
  pub caller_pubkey : Option String
  pub permitted_channels : List String
  pub model_allowlist : List String
  pub tool_allowlist : List String
  pub decoder_version : Option String
  pub stimulation_policy : Option String
  pub context_merkle_bound : String
  pub forbidden_exports : List String
  pub valid_until : ℤ
  pub parent_cp_hash : String

abbrev pub schema_version : String
schema_version = "0.9.14"

unfoldable pub signable_view : IntentAuthorizationCredential → SignableIac
signable_view c = record {
  version = c.version;
  scope_id = c.scope_id;
  caller_pubkey = c.caller_pubkey;
  permitted_channels = c.permitted_channels;
  model_allowlist = c.model_allowlist;
  tool_allowlist = c.tool_allowlist;
  decoder_version = c.decoder_version;
  stimulation_policy = c.stimulation_policy;
  context_merkle_bound = c.context_merkle_bound;
  forbidden_exports = c.forbidden_exports;
  valid_until = c.valid_until;
  parent_cp_hash = c.parent_cp_hash;
}

unfoldable pub is_valid_at : IntentAuthorizationCredential → ℤ → Bool
is_valid_at c now = leb_ℤ now c.valid_until

unfoldable pub permits_channel : IntentAuthorizationCredential → String → Bool
permits_channel c channel = contains c.permitted_channels channel

unfoldable pub model_allowed : IntentAuthorizationCredential → String → Bool
model_allowed c model_id = contains c.model_allowlist model_id

unfoldable pub tool_allowed : IntentAuthorizationCredential → String → Bool
tool_allowed c tool_id = contains c.tool_allowlist tool_id

abbrev context_bound_max : String
context_bound_max = "ffffffffffffffffffffffffffffffffffffffffffffffffffffffffffffffff"

unfoldable pub new_session_with_tools :
    String
    → String
    → String
    → ℤ
    → List String
    → List String
    → List String
    → IntentAuthorizationCredential
new_session_with_tools scope_id model_id parent_cp_hash valid_until channels exports tools =
    record {
      version = schema_version;
      scope_id = scope_id;
      caller_pubkey = none;
      permitted_channels = channels;
      model_allowlist = model_id ∷ [];
      tool_allowlist = tools;
      decoder_version = none;
      stimulation_policy = none;
      context_merkle_bound = context_bound_max;
      forbidden_exports = exports;
      valid_until = valid_until;
      parent_cp_hash = parent_cp_hash;
      signature = none;
    }

unfoldable pub new_session :
    String → String → String → ℤ → List String → List String → IntentAuthorizationCredential
unfolding new_session_with_tools
new_session scope_id model_id parent_cp_hash valid_until channels exports =
    new_session_with_tools scope_id model_id parent_cp_hash valid_until channels exports []
