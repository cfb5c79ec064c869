-- ===== src/Core/Caller/Roundtrip.antt =====
-- A proof that a caller makes is taken for the credential that names its key.
use the_membrane.Prelude.{ℤ, String, ◌≡◌, true, some, ok, eqb, len, all_chars, >>=-eq-ok, arith}
use the_membrane.Core.Value.{Value}
use the_membrane.Core.Iac.{IntentAuthorizationCredential}
use the_membrane.Core.External.{External, SigningLaws, Bytes}
use the_membrane.Core.Caller.{CallerProof, digest, sign, verify, is_lower_hexdigit}

module _ (x : External) (laws : SigningLaws x) (keys audience path : String) (body : Value)
    (iac : IntentAuthorizationCredential) where
  verify_signed :
      (proof : CallerProof) {message : Bytes}
      → digest x proof audience path body iac ≡ ok message
      → iac.caller_pubkey ≡ some (x.public_of keys)
      → eqb (len (x.public_of keys)) 64 ≡ true
      → all_chars is_lower_hexdigit (x.public_of keys) ≡ true
      → verify x
          (record proof { signature = x.hex_encode (x.sign_schnorr keys message) })
          audience
          path
          body
          iac
        ≡ ok (x.public_of keys)
  unfolding verify digest
  verify_signed proof {message} h bound long hex = ground (
    arith,
    laws.decode_encode (x.sign_schnorr keys message),
    laws.signature_read keys message,
    laws.key_read keys,
    laws.verifies keys message,
  )

  -- A proof that is made with a key verifies as that key's, for the same request, audience and
  -- credential, if the credential is bound to the key and the key is written as 64 lowercase
  -- hexadecimal digits.
  pub verify-sign :
      (timestamp : ℤ) (nonce : String) {proof : CallerProof}
      → iac.caller_pubkey ≡ some (x.public_of keys)
      → eqb (len (x.public_of keys)) 64 ≡ true
      → all_chars is_lower_hexdigit (x.public_of keys) ≡ true
      → sign x keys audience path body iac timestamp nonce ≡ ok proof
      → verify x proof audience path body iac ≡ ok (x.public_of keys)
  unfolding sign
  verify-sign timestamp nonce {proof} bound long hex h =
      let empty : CallerProof = record { timestamp = timestamp; nonce = nonce; signature = "" } in
      let (message, digested, same) = >>=-eq-ok (digest x empty audience path body iac) _ h in
      ground (arith, verify_signed empty {message = message})
