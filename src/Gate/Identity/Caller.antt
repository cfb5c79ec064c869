-- ===== src/Gate/Identity/Caller.antt =====
-- `authenticate_caller` of membrane-gate/src/identity.rs: a caller's proof and the cache of the
-- proofs that were taken.
pub mod Replay
use the_membrane.Prelude.{
  ℕ, ℤ, pos, ltb_ℤ, leb_ℤ, leb, eqb, String, Bool, ◌||◌, not, none, some, [], ◌∷◌, length, List,
  Result, ok, err, ◌>>=◌, ◌>>◌, deny_if, map_err, if◌then◌else◌, Map, retain, contains_key, insert,
  len, all_chars, is_ascii_hexdigit, to_ascii_lowercase, format, saturating_sub,
}
use the_membrane.Core.Value.{Value}
use the_membrane.Core.Iac.{IntentAuthorizationCredential}
use the_membrane.Core.External.{External}
use the_membrane.Core.Signature.{display}
use the_membrane.Core.Caller.{CallerProof, verify}
use the_membrane.Gate.Error.{GateError, identity_authentication}
use the_membrane.Gate.Registry.{Gate}
use the_membrane.Gate.Iac.{validate_iac}

-- What `authenticate_caller` takes; `body` is the serialized request.
pub record Call : Type 0 where
  pub iac : IntentAuthorizationCredential
  pub proof : CallerProof
  pub path : String
  pub body : Value
  pub now : ℤ

abbrev pub replay_window : ℤ
replay_window = pos 60

abbrev pub replay_capacity : ℕ
replay_capacity = 10000

unfoldable pub is_stale : CallerProof → ℤ → Bool
is_stale proof now =
    ltb_ℤ now proof.timestamp || ltb_ℤ replay_window (saturating_sub now proof.timestamp)

unfoldable pub replay_key : String → CallerProof → String
replay_key identity proof = format (identity ∷ ":" ∷ to_ascii_lowercase proof.nonce ∷ [])

-- From `replay.retain` on: the answer and the cache after it.
unfoldable pub take_proof : Map ℤ → String → CallerProof → ℤ → Result GateError String × Map ℤ
unfolding replay_key
take_proof replay identity proof now =
    let kept = retain (λ issued. leb_ℤ (saturating_sub now issued) replay_window) replay in
    let key = replay_key identity proof in
    if contains_key key kept || leb replay_capacity (length kept)
    then (err (identity_authentication "replay or replay capacity exceeded"), kept)
    else (ok identity, insert key proof.timestamp kept)

-- What follows the checks of the proof, which showed an identity or failed.
unfoldable pub conclude : Gate → Call → Result GateError String → Result GateError String × Gate
conclude gate call (err e) = (err e, gate)
conclude gate call (ok identity) =
    let (answer, replay) = take_proof gate.replay identity call.proof call.now in
    (answer, record gate { replay = replay })

-- `publisher_pubkey_hex` is the key that the gate expects credentials to be signed by.
unfoldable pub caller_audience : Gate → String
caller_audience gate = format (gate.iac_signer_pubkey ∷ ":" ∷ gate.caller_challenge ∷ [])

module _ (x : External) where
  -- Up to the lock of the cache: the identity that the proof shows.
  unfoldable pub check_proof : Gate → Call → Result GateError String
  unfolding is_stale caller_audience
  check_proof gate call = do
    validate_iac x gate (some call.iac) call.now
    deny_if
        (is_stale call.proof call.now
          || not (eqb (len call.proof.nonce) 64)
          || not (all_chars is_ascii_hexdigit call.proof.nonce))
        (identity_authentication "expired, future or malformed proof")
    map_err (λ e. identity_authentication (display e))
        (verify x call.proof (caller_audience gate) call.path call.body call.iac)

  -- The answer, and the gate with its cache after the call.
  unfoldable pub authenticate_caller : Gate → Call → Result GateError String × Gate
  unfolding conclude
  authenticate_caller gate call = conclude gate call (check_proof gate call)

  -- The gate after the calls, in their order.
  unfoldable pub serve : Gate → List Call → Gate
  serve gate [] = gate
  serve gate (call ∷ rest) = serve (authenticate_caller gate call).1 rest
