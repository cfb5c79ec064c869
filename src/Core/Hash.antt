-- ===== src/Core/Hash.antt =====
-- The digests of events and credentials: event.rs, iac.rs and rollup.rs of membrane-core/src.
use the_membrane.Prelude.{String, Bool, true, false, Result, ok, ◌>>=◌}
use the_membrane.Core.Event.{
  EventType, cp_liveness, cp_router, cp_bci, MembraneEvent, SignableMembraneEvent,
}
use the_membrane.Core.Event
use the_membrane.Core.Iac.{IntentAuthorizationCredential}
use the_membrane.Core.Iac
use the_membrane.Core.Value.{Value}
use the_membrane.Core.Canonical.{canonicalize_value}
use the_membrane.Core.External.{External, Bytes}

module _ (x : External) where
  -- `canonical_json_bytes`, from the value that serde_json made
  unfoldable pub canonical_json_bytes : Result String Value → Result String Bytes
  canonical_json_bytes value = do v ← value; x.to_vec (canonicalize_value v)

  unfoldable pub canonical_bytes : MembraneEvent → Result String Bytes
  unfolding canonical_json_bytes
  canonical_bytes event = canonical_json_bytes (x.event_value (Event.signable_view event))

  unfoldable pub digest : MembraneEvent → Result String Bytes
  unfolding canonical_bytes
  digest event = do bytes ← canonical_bytes event; ok (x.sha256 bytes)

  unfoldable pub cp_hash_hex : MembraneEvent → Result String String
  cp_hash_hex event = do bytes ← digest event; ok (x.hex_encode bytes)

  unfoldable pub iac_digest : IntentAuthorizationCredential → Result String Bytes
  unfolding canonical_json_bytes
  iac_digest c = do
    bytes ← canonical_json_bytes (x.iac_value (Iac.signable_view c))
    ok (x.sha256 bytes)

  -- `IntentAuthorizationCredential::hash_hex`
  unfoldable pub hash_hex : IntentAuthorizationCredential → Result String String
  hash_hex c = do bytes ← iac_digest c; ok (x.hex_encode bytes)

abbrev pub genesis_cp_hash : String
genesis_cp_hash = "0000000000000000000000000000000000000000000000000000000000000000"

unfoldable pub is_cp_event : EventType → Bool
is_cp_event cp_liveness = true
is_cp_event cp_router = true
is_cp_event cp_bci = true
is_cp_event _ = false
