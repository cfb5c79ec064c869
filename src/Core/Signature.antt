-- ===== src/Core/Signature.antt =====
-- Signatures: `sign` and `verify_signature` of membrane-core/src/iac.rs, and for events
-- `sign_membrane_event` and `verify_membrane_event_signature` of membrane-core/src/nostr_bus.rs.
pub mod Roundtrip
use the_membrane.Prelude.{
  String, ◌==◌, not, some, [], ◌∷◌, length, eqb, Result, ok, ◌>>=◌, ◌>>◌, deny_if, map_err, ok_or,
  decimal, format,
}
use the_membrane.Core.Event.{MembraneEvent}
use the_membrane.Core.Iac.{IntentAuthorizationCredential}
use the_membrane.Core.External.{External}
use the_membrane.Core.Hash.{digest, iac_digest}

pub data IacVerifyError : Type 0 where
  missing_signature : IacVerifyError
  invalid_signature_hex : String → IacVerifyError
  invalid_signature : IacVerifyError
  canonical : String → IacVerifyError
  invalid_signer_pubkey : String → IacVerifyError

-- `e.to_string()`
unfoldable pub display : IacVerifyError → String
display missing_signature = "IAC missing signature"
display (invalid_signature_hex e) = format ("invalid signature hex: " ∷ e ∷ [])
display invalid_signature = "signature verification failed"
display (canonical e) = format ("canonical JSON error: " ∷ e ∷ [])
display (invalid_signer_pubkey e) = format ("invalid signer pubkey: " ∷ e ∷ [])

module _ (x : External) where
  unfoldable pub sign :
      IntentAuthorizationCredential → String → Result IacVerifyError IntentAuthorizationCredential
  sign c keys = do
    message ← map_err canonical (iac_digest x c)
    ok (record c { signature = some (x.hex_encode (x.sign_schnorr keys message)) })

  unfoldable pub verify_signature :
      IntentAuthorizationCredential → String → Result IacVerifyError (Unit {0})
  verify_signature c expected_signer_pubkey_hex = do
    sig_hex ← ok_or c.signature missing_signature
    sig_bytes ← map_err invalid_signature_hex (x.hex_decode sig_hex)
    deny_if (not (eqb (length sig_bytes) 64)) (
        invalid_signature_hex
          (format ("expected 64 bytes, got " ∷ decimal (length sig_bytes) ∷ [])))
    pubkey ← map_err invalid_signer_pubkey (x.public_key expected_signer_pubkey_hex)
    message ← map_err canonical (iac_digest x c)
    sig ← map_err invalid_signature_hex (x.signature sig_bytes)
    deny_if (not (x.verify_schnorr sig message pubkey)) invalid_signature

  -- An event's errors are texts; `x_only` is `XOnlyPublicKey::from_slice`.
  unfoldable pub verify_membrane_event_signature : MembraneEvent → String → Result String (Unit {0})
  verify_membrane_event_signature event expected_pubkey_hex = do
    deny_if (not (event.subject_pubkey == expected_pubkey_hex))
        "subject_pubkey does not match expected signer"
    sig_hex ← ok_or event.signature "event is unsigned"
    sig_bytes ← map_err (λ _. "signature is not hex") (x.hex_decode sig_hex)
    sig ← map_err (λ _. "malformed signature") (x.signature sig_bytes)
    pk_bytes ← map_err (λ _. "pubkey is not hex") (x.hex_decode expected_pubkey_hex)
    pk ← map_err (λ _. "malformed pubkey") (x.x_only pk_bytes)
    message ← digest x event
    deny_if (not (x.verify_schnorr sig message pk)) "signature does not verify"

  unfoldable pub sign_membrane_event : MembraneEvent → String → Result String MembraneEvent
  sign_membrane_event event keys =
      let named = record event { subject_pubkey = x.public_of keys } in
      do
        message ← digest x named
        ok (record named { signature = some (x.hex_encode (x.sign_schnorr keys message)) })
