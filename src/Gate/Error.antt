-- ===== src/Gate/Error.antt =====
-- `GateError` of membrane-gate/src/lib.rs, and its texts.
use the_membrane.Prelude.{ℕ, ℤ, String, [], ◌∷◌, format, decimal, decimal_ℤ}

pub data GateError : Type 0 where
  identity_authentication identity_grant grant_window : String → GateError
  no_valid_iac invalid_iac_signature channel_denied model_denied tool_denied : String → GateError
  repo_denied export_forbidden : String → GateError
  context_bound_exceeded : GateError
  session_degraded : String → String → GateError
  session_stale : ℤ → ℕ → GateError
  connector registry siem_export bus : String → GateError

-- `err.to_string()`
unfoldable pub display : GateError → String
display (identity_authentication e) = format ("caller authentication failed: " ∷ e ∷ [])
display (identity_grant e) = format ("identity grant denied: " ∷ e ∷ [])
display (grant_window e) = format ("identity grant outside its time window: " ∷ e ∷ [])
display (no_valid_iac e) = format ("no valid IAC: " ∷ e ∷ [])
display (invalid_iac_signature e) = format ("invalid IAC signature: " ∷ e ∷ [])
display (channel_denied e) = format ("channel not permitted: " ∷ e ∷ [])
display (model_denied e) = format ("model not in allowlist: " ∷ e ∷ [])
display (tool_denied e) = format ("tool not in allowlist: " ∷ e ∷ [])
display (repo_denied e) = format ("repo not in allowlist: " ∷ e ∷ [])
display (export_forbidden e) = format ("export forbidden: " ∷ e ∷ [])
display context_bound_exceeded = "context merkle root exceeds IAC bound"
display (session_degraded s r) = format ("session degraded (" ∷ s ∷ "): " ∷ r ∷ [])
display (session_stale age limit) =
    format
      ("router CP stale: last CP " ∷ decimal_ℤ age ∷ "s ago exceeds Δt=" ∷ decimal limit ∷ "s" ∷ [])
display (connector e) = format ("connector misconfigured: " ∷ e ∷ [])
display (registry e) = format ("registry error: " ∷ e ∷ [])
display (siem_export e) = format ("SIEM export: " ∷ e ∷ [])
display (bus e) = format ("bus error: " ∷ e ∷ [])
