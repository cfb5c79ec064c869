-- ===== src/Core/Caller.antt =====
-- membrane-core/src/caller.rs: the proof that the caller holds the key that its credential names.
pub mod Roundtrip
use the_membrane.Prelude.{
  ℕ, ℤ, String, Bool, ◌&&◌, ◌||◌, not, eqb, leb, Result, ok, ◌>>=◌, ◌>>◌, deny_if, map_err, ok_or,
  len, all_chars, is_ascii_digit, decimal_ℤ,
}
use the_membrane.Core.Value.{Value, object, string, number, end, field}
use the_membrane.Core.Iac.{IntentAuthorizationCredential}
use the_membrane.Core.External.{External, Bytes}
use the_membrane.Core.Hash.{canonical_json_bytes, hash_hex}
use the_membrane.Core.Signature.{
  IacVerifyError, invalid_signer_pubkey, invalid_signature_hex, invalid_signature, canonical,
}

pub record CallerProof : Type 0 where
  pub timestamp : ℤ
  pub nonce : String
  pub signature : String

abbrev pub is_lower_hexdigit : ℕ → Bool
is_lower_hexdigit c = is_ascii_digit c || (leb b'a' c && leb c b'f')

-- What is signed, as the object that `json!` makes of it; `body` is the serialized request.
abbrev pub payload : CallerProof → String → String → Value → String → Value
payload proof audience path body iac_hash = object (
    field "audience" (string audience) (
      field "body" body (
        field "domain" (string "membrane/caller-proof/v1") (
          field "iac_hash" (string iac_hash) (
            field "method" (string "POST") (
              field "nonce" (string proof.nonce) (
                field "path" (string path)
                  (field "timestamp" (number (decimal_ℤ proof.timestamp)) end))))))))

module _ (x : External) where
  unfoldable pub digest :
      CallerProof
      → String
      → String
      → Value
      → IntentAuthorizationCredential
      → Result IacVerifyError Bytes
  digest proof audience path body iac = do
    iac_hash ← map_err canonical (hash_hex x iac)
    bytes ←
        map_err canonical (canonical_json_bytes x (ok (payload proof audience path body iac_hash)))
    ok (x.sha256 bytes)

  unfoldable pub sign :
      String
      → String
      → String
      → Value
      → IntentAuthorizationCredential
      → ℤ
      → String
      → Result IacVerifyError CallerProof
  sign keys audience path body iac timestamp nonce =
      let proof : CallerProof = record { timestamp = timestamp; nonce = nonce; signature = "" } in
      do
        message ← digest proof audience path body iac
        ok (record proof { signature = x.hex_encode (x.sign_schnorr keys message) })

  -- The caller's key.
  unfoldable pub verify :
      CallerProof
      → String
      → String
      → Value
      → IntentAuthorizationCredential
      → Result IacVerifyError String
  verify proof audience path body iac = do
    key ← ok_or iac.caller_pubkey (invalid_signer_pubkey "missing caller binding")
    deny_if (not (eqb (len key) 64) || not (all_chars is_lower_hexdigit key))
        (invalid_signer_pubkey "noncanonical caller key")
    public ← map_err invalid_signer_pubkey (x.public_key key)
    bytes ← map_err invalid_signature_hex (x.hex_decode proof.signature)
    signature ← map_err invalid_signature_hex (x.signature bytes)
    message ← digest proof audience path body iac
    deny_if (not (x.verify_schnorr signature message public)) invalid_signature
    ok key
