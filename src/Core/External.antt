-- ===== src/Core/External.antt =====
-- What the crates serde_json, sha2, hex, nostr and secp256k1 do for membrane-core, as a parameter.
-- A key is its canonical lowercase hex text, bytes are numbers, and a failure carries the text that
-- the crate's error prints.
use the_membrane.Prelude.{ℕ, String, Bool, true, List, Result, ok, length, ◌≡◌}
use the_membrane.Core.Value.{Value}
use the_membrane.Core.Event.{SignableMembraneEvent}
use the_membrane.Core.Iac.{SignableIac}

abbrev pub Bytes : Type 0
Bytes = List ℕ

pub record External : Type 0 where
  -- `serde_json::to_value` on the two structures that are signed
  pub event_value : SignableMembraneEvent → Result String Value
  pub iac_value : SignableIac → Result String Value
  -- `serde_json::to_vec`
  pub to_vec : Value → Result String Bytes
  pub sha256 : Bytes → Bytes
  pub hex_encode : Bytes → String
  pub hex_decode : String → Result String Bytes
  -- `PublicKey::from_hex`, the key given back in its canonical form
  pub public_key : String → Result String String
  -- `XOnlyPublicKey::from_slice`, the key given back in its canonical form
  pub x_only : Bytes → Result String String
  -- `schnorr::Signature::from_slice`
  pub signature : Bytes → Result String Bytes
  -- `verify_schnorr(signature, message, key)`
  pub verify_schnorr : Bytes → Bytes → String → Bool
  -- `Keys::sign_schnorr` and `Keys::public_key`, by the secret key's text
  pub sign_schnorr : String → Bytes → Bytes
  pub public_of : String → String

-- What the signing crates document: hexadecimal text is read back, a signature is 64 bytes that are
-- read back, and it verifies under the public key of the key that made it.
pub record SigningLaws (x : External) : Type 0 where
  pub decode_encode : (bytes : Bytes) → x.hex_decode (x.hex_encode bytes) ≡ ok bytes
  pub signature_length :
      (keys : String) (message : Bytes) → length (x.sign_schnorr keys message) ≡ 64
  pub signature_read :
      (keys : String) (message : Bytes)
      → x.signature (x.sign_schnorr keys message) ≡ ok (x.sign_schnorr keys message)
  pub key_bytes : String → Bytes
  pub key_decode : (keys : String) → x.hex_decode (x.public_of keys) ≡ ok (key_bytes keys)
  pub key_x_only : (keys : String) → x.x_only (key_bytes keys) ≡ ok (x.public_of keys)
  pub key_read : (keys : String) → x.public_key (x.public_of keys) ≡ ok (x.public_of keys)
  pub verifies :
      (keys : String) (message : Bytes)
      → x.verify_schnorr (x.sign_schnorr keys message) message (x.public_of keys) ≡ true
