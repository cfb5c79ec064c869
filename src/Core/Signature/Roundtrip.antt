-- ===== src/Core/Signature/Roundtrip.antt =====
-- What was signed verifies.
use the_membrane.Prelude.{String, ◌≡◌, some, ok, map_err, >>=-eq-ok, eq_iff, arith}
use the_membrane.Core.Event.{MembraneEvent}
use the_membrane.Core.Event
use the_membrane.Core.Iac.{IntentAuthorizationCredential}
use the_membrane.Core.Iac
use the_membrane.Core.External.{External, SigningLaws, Bytes}
use the_membrane.Core.Hash.{digest, iac_digest, canonical_bytes, canonical_json_bytes}
use the_membrane.Core.Signature.{
  canonical, sign, verify_signature, sign_membrane_event, verify_membrane_event_signature,
}

module _ (x : External) (laws : SigningLaws x) (keys : String) where
  verify_signature_signed :
      (c : IntentAuthorizationCredential) {message : Bytes}
      → iac_digest x c ≡ ok message
      → verify_signature x
          (record c { signature = some (x.hex_encode (x.sign_schnorr keys message)) })
          (x.public_of keys)
        ≡ ok tt
  unfolding verify_signature iac_digest Iac.signable_view
  verify_signature_signed c {message} h = ground (
    arith,
    laws.decode_encode (x.sign_schnorr keys message),
    laws.signature_length keys message,
    laws.signature_read keys message,
    laws.key_read keys,
    laws.verifies keys message,
  )

  -- A credential signed by a key verifies under that key, and whatever signature it had before is
  -- gone.
  pub verify_signature-sign :
      (c : IntentAuthorizationCredential) {signed : IntentAuthorizationCredential}
      → sign x c keys ≡ ok signed
      → verify_signature x signed (x.public_of keys) ≡ ok tt
  unfolding sign
  verify_signature-sign c {signed} h =
      let (message, digested, same) = >>=-eq-ok (map_err canonical (iac_digest x c)) _ h in
      ground (arith, verify_signature_signed c {message = message})

  verify_event_signed :
      (event : MembraneEvent) {message : Bytes}
      → event.subject_pubkey ≡ x.public_of keys
      → digest x event ≡ ok message
      → verify_membrane_event_signature x
          (record event { signature = some (x.hex_encode (x.sign_schnorr keys message)) })
          (x.public_of keys)
        ≡ ok tt
  unfolding verify_membrane_event_signature digest canonical_bytes canonical_json_bytes
      Event.signable_view
  verify_event_signed event {message} same h = ground (
    arith,
    eq_iff event.subject_pubkey (x.public_of keys),
    laws.decode_encode (x.sign_schnorr keys message),
    laws.signature_read keys message,
    laws.key_decode keys,
    laws.key_x_only keys,
    laws.verifies keys message,
  )

  -- A published event verifies under the publisher's key, which it has as its subject.
  pub verify-sign_membrane_event :
      (event : MembraneEvent) {signed : MembraneEvent}
      → sign_membrane_event x event keys ≡ ok signed
      → verify_membrane_event_signature x signed (x.public_of keys) ≡ ok tt
  unfolding sign_membrane_event
  verify-sign_membrane_event event {signed} h =
      let named = record event { subject_pubkey = x.public_of keys } in
      let (message, digested, same) = >>=-eq-ok (digest x named) _ h in
      ground (arith, verify_event_signed named {message = message})
