-- ===== src/Tests.antt =====
-- Stand-ins for the outside crates and the data of the examples. A byte is written as that many
-- letters `a` and a `b`, a digest keeps the number of bytes and a residue of their sum, and a
-- signature starts with a number made of the key and the message.
pub mod Core
pub mod Gate
pub mod Journal
pub mod Alarm
pub mod Server
pub mod Siem
use the_membrane.Prelude.{
  ℕ, zero, suc, ◌+◌, ◌%◌, pos, String, Bool, true, false, arith, List, [], ◌∷◌, Option, none, some,
  length, eqb, Result, ok, err, format, ◌≡◌, refl, ap, decimal,
}
use Prim.Native.Char.{char, code}
use the_membrane.Core.Value.{Value, string}
use the_membrane.Core.Event.{
  MembraneEvent, cp_router, alert_degraded, router, generic, RouterSessionPayload,
}
use the_membrane.Core.Iac.{IntentAuthorizationCredential}
use the_membrane.Core.Hash.{genesis_cp_hash}
use the_membrane.Core.External.{External, SigningLaws, Bytes}

-- The value of a result, or the given one.
abbrev pub value_or {ℓ κ} : {E : Type ℓ} {A : Type κ} → A → Result E A → A
value_or a (ok b) = b
value_or a (err e) = a

abbrev pub letters : ℕ → String → String
letters zero s = String.◌∷◌ "b" s
letters (suc n) s = String.◌∷◌ "a" (letters n s)

abbrev pub encode : Bytes → String
encode [] = ""
encode (n ∷ ns) = letters n (encode ns)

abbrev pub bump : Bytes → Bytes
bump [] = []
bump (n ∷ ns) = suc n ∷ ns

abbrev pub decode : String → Bytes
decode String.[] = []
decode (String.◌∷◌ c s) = elim (eqb (code c) b'b') [ true ↦ 0 ∷ decode s | false ↦ bump (decode s) ]

abbrev pub codes : String → Bytes
codes String.[] = []
codes (String.◌∷◌ c s) = code c ∷ codes s

abbrev pub sum : Bytes → ℕ
sum [] = 0
sum (n ∷ ns) = n + sum ns

abbrev pub text_bytes : Value → Result String Bytes
text_bytes (string s) = ok (codes s)
text_bytes _ = ok []

abbrev pub first : Bytes → ℕ
first [] = 0
first (n ∷ ns) = n

abbrev pub zeros : ℕ → Bytes
zeros zero = []
zeros (suc n) = 0 ∷ zeros n

abbrev pub public_key_of : String → String
public_key_of keys = encode (length (codes keys) ∷ [])

abbrev pub toy : External
toy = record {
  event_value = λ e. ok (string (format (e.subject_pubkey ∷ e.prev_cp_hash ∷ [])));
  iac_value = λ c. ok (string (format (c.scope_id ∷ c.parent_cp_hash ∷ [])));
  to_vec = text_bytes;
  sha256 = λ bytes. length bytes % 7 ∷ sum bytes % 5 ∷ [];
  hex_encode = encode;
  hex_decode = λ s. ok (decode s);
  public_key = λ s. ok s;
  x_only = λ bytes. ok (encode bytes);
  signature = λ bytes. ok bytes;
  verify_schnorr = λ s m k. eqb (first s) (sum m + length (decode k));
  sign_schnorr = λ keys m. (sum m + 1) ∷ zeros 63;
  public_of = public_key_of;
}

decode-letters : (n : ℕ) (s : String) → decode (letters n s) ≡ n ∷ decode s
decode-letters zero s = refl
decode-letters (suc n) s = ap bump (decode-letters n s)

decode-encode : (bytes : Bytes) → decode (encode bytes) ≡ bytes
decode-encode [] = refl
decode-encode (n ∷ ns) = rw (decode-letters n (encode ns), decode-encode ns) refl

eqb_refl : (n : ℕ) → eqb n n ≡ true
eqb_refl n = ground arith

pub toy-SigningLaws : SigningLaws toy
toy-SigningLaws = record {
  decode_encode = λ bytes. ap ok (decode-encode bytes);
  signature_length = λ keys m. refl;
  signature_read = λ keys m. refl;
  key_bytes = λ keys. length (codes keys) ∷ [];
  key_decode = λ keys. ap ok (decode-encode (length (codes keys) ∷ []));
  key_x_only = λ keys. refl;
  key_read = λ keys. refl;
  verifies = λ keys m. rw (decode-encode (length (codes keys) ∷ [])) (eqb_refl (sum m + 1));
}

-- As `toy`, with the digest of 64 zeros for all bytes, a signature that always verifies, and one key.
abbrev pub flat : External
flat = record toy {
  sha256 = λ bytes. [];
  hex_encode = λ bytes. genesis_cp_hash;
  hex_decode = λ s. ok (zeros 64);
  x_only = λ bytes. ok genesis_cp_hash;
  verify_schnorr = λ s m k. true;
  sign_schnorr = λ keys m. zeros 64;
  public_of = λ keys. genesis_cp_hash;
}

abbrev pub payload : RouterSessionPayload
payload = record {
  model_id = "m";
  context_merkle_root = "root";
  session_nonce = 1;
  parent_cp_hash = genesis_cp_hash;
  iac_hash = "iac";
  scope_id = some "scope";
  tool_id = none;
}

abbrev pub receipt : MembraneEvent
receipt = record {
  version = "0.9.14";
  event_type = cp_router;
  subject_pubkey = genesis_cp_hash;
  prev_cp_hash = genesis_cp_hash;
  timestamp = pos 100;
  payload = router payload;
  signature = some "";
}

abbrev pub credential : IntentAuthorizationCredential
credential = record {
  version = "0.9.14";
  scope_id = "scope";
  caller_pubkey = some genesis_cp_hash;
  permitted_channels = "local-llm" ∷ [];
  model_allowlist = "m" ∷ [];
  tool_allowlist = "github.comment" ∷ [];
  decoder_version = none;
  stimulation_policy = none;
  context_merkle_bound = "ffff";
  forbidden_exports = [];
  valid_until = pos 500;
  parent_cp_hash = genesis_cp_hash;
  signature = some "";
}
