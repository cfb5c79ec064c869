-- ===== src/Tests/Core.antt =====
-- Examples of the crate membrane-core.
use the_membrane.Prelude.{
  eqb, len, ◌+◌, ◌≤◌, pos, String, true, ◌&&◌, ◌||◌, any, all, contains, contains, leb_ℤ, List, [],
  ◌∷◌, Option, none, some, ok, is_ok, ◌≡◌, ◌≢◌, ◌⊎◌, refl, arith, u64_max, eq_iff, lookup,
  contains_key, format, all_chars,
}
use mathlib.Core.List.Perm
use the_membrane.Core.Event.{MembraneEvent}
use the_membrane.Core.Hash.{
  hash_hex, genesis_cp_hash, iac_digest, digest, canonical_bytes, canonical_json_bytes, is_cp_event,
  cp_hash_hex,
}
use the_membrane.Core.External.{Bytes}
use the_membrane.Core.Session.{
  SessionChainState, genesis, validate_iac_anchor, from_bus_events, last_cp_hash_from_events,
  is_scope_degraded, mark_degraded, record_cp, clear_degraded_for_scope,
}
use the_membrane.Core.Session.Bootstrap.{from_bus_events_head}
use the_membrane.Core.Session.Sever.{
  Steps-is_scope_degraded, from_bus_events-is_scope_degraded, severs, Steps, here, next, receipt,
  sever, clear, IsTracked,
}
use the_membrane.Core.Session.Scopes.{
  Turn, turns, stored, count, last_at, turns-stored, genesis-IsSynced,
}
use the_membrane.Core.Merkle.{compute_root, from_prefixed_leaves}
use the_membrane.Core.Merkle.Root.{compute_root_total}
use the_membrane.Core.Merkle.Order.{from_prefixed_leaves-perm}
use the_membrane.Core.Rollup.{
  bus_root_from_events, cp_chain_root_from_events, build_rollup_bundle, validate_rollup_bundle,
  event_leaves, filter_events_in_period, is_hash_text, RollupBundle,
}
use the_membrane.Core.Rollup.Bundle.{validate_rollup_bundle-build}
use the_membrane.Core.Signature.{
  sign, verify_signature, sign_membrane_event, verify_membrane_event_signature,
}
use the_membrane.Core.Signature.Roundtrip.{verify_signature-sign, verify-sign_membrane_event}
use the_membrane.Core.Event
use the_membrane.Core.Caller.{CallerProof, verify, is_lower_hexdigit}
use the_membrane.Core.Caller
use the_membrane.Core.Value.{string}
use the_membrane.Core.Caller.Roundtrip.{verify-sign}
use the_membrane.Core.Iac.{
  IntentAuthorizationCredential, signable_view, model_allowed, tool_allowed, permits_channel,
}
use the_membrane.Core.Canonical.{canonicalize_value}
use the_membrane.Core.Reissue.{
  bound_caller, check_identifiers, ReissueRequest, reissue, plain_identifier, max_reissue_ttl_secs,
}
use the_membrane.Core.Reissue.Exact.{
  additions, caller_agrees, reissue_accepts, successor, successor_changes, reissue_allows,
}
use the_membrane.Tests.{value_or, toy, toy-SigningLaws, flat, receipt as sample, credential}

abbrev chain : SessionChainState
chain = record genesis { last_cp_hash = "head"; active_scope_id = some "scope" }

anchored : validate_iac_anchor chain "head" true ≡ ok tt
unfolding validate_iac_anchor
anchored = refl

from_bus_events_head_example :
    (from_bus_events toy (sample ∷ []) genesis_cp_hash).last_cp_hash
    ≡ last_cp_hash_from_events toy (sample ∷ []) genesis_cp_hash
from_bus_events_head_example = from_bus_events_head toy genesis_cp_hash (sample ∷ [])

from_bus_events-is_scope_degraded_example :
    is_scope_degraded (from_bus_events toy (sample ∷ []) genesis_cp_hash) "scope"
    ≡ any (severs toy genesis_cp_hash "scope") (sample ∷ [])
from_bus_events-is_scope_degraded_example =
    from_bus_events-is_scope_degraded toy genesis_cp_hash (sample ∷ []) "scope"

abbrev cut_off : SessionChainState
cut_off = record genesis {
  degraded_scopes = ("scope", ("sever", pos 5)) ∷ [];
  degraded_scope_id = some "scope";
}

only_scope : (s : String) → some "scope" ≡ some s → contains_key s cut_off.degraded_scopes ≡ true
unfolding lookup
only_scope s e = ground (arith, eq_iff "scope" s)

cut_off-IsTracked : IsTracked cut_off
cut_off-IsTracked = record { tracked = λ s e. only_scope s e }

cut_off_degraded : is_scope_degraded cut_off "scope" ≡ true
unfolding is_scope_degraded lookup
cut_off_degraded = refl

-- A receipt, another alert and its clearing.
abbrev busy : SessionChainState
busy =
    clear_degraded_for_scope
      (mark_degraded (record_cp cut_off "hash" none (pos 7)) "other" "sever" (pos 8)) "other"

other_scope : ◌≢◌ {A = String} "other" "scope"
other_scope = λ e. ground (arith, eq_iff "other" "scope")

abbrev busy_steps : Steps "scope" cut_off busy
busy_steps =
    next (next (next here (receipt cut_off "hash" none (pos 7))) (sever _ "other" "sever" (pos 8)))
      (clear _ "other" other_scope)

Steps-is_scope_degraded_example : is_scope_degraded busy "scope" ≡ true
Steps-is_scope_degraded_example =
    Steps-is_scope_degraded cut_off-IsTracked busy_steps cut_off_degraded

abbrev turn_a : Turn
turn_a = record { scope = "a"; hash = "h1"; bus_event_id = none; at = pos 10 }

abbrev turn_b : Turn
turn_b = record { scope = "b"; hash = "h2"; bus_event_id = some "id"; at = pos 20 }

room : (s : String) → (stored genesis s).0 + count s (turn_a ∷ turn_b ∷ turn_a ∷ []) ≤ u64_max
unfolding lookup
room s = ground (arith, eq_iff "a" s, eq_iff "b" s)

turns-stored_example :
    (d : SessionChainState) × (turns genesis (turn_a ∷ turn_b ∷ turn_a ∷ []) ≡ some d)
    × ((s : String)
        → stored d s ≡ (
          (stored genesis s).0 + count s (turn_a ∷ turn_b ∷ turn_a ∷ []),
          last_at s (stored genesis s).1 (turn_a ∷ turn_b ∷ turn_a ∷ []),
        ))
turns-stored_example = turns-stored genesis (turn_a ∷ turn_b ∷ turn_a ∷ []) genesis-IsSynced room

abbrev three : List Bytes
three = (1 ∷ []) ∷ (2 ∷ []) ∷ (3 ∷ []) ∷ []

compute_root_total_example :
    (three ≡ []) × (compute_root toy three ≡ none)
    ⊎ (three ≢ []) × ((root : Bytes) × (compute_root toy three ≡ some root))
compute_root_total_example = compute_root_total toy three

from_prefixed_leaves-perm_example :
    from_prefixed_leaves toy ((2 ∷ []) ∷ (1 ∷ []) ∷ [])
    ≡ from_prefixed_leaves toy ((1 ∷ []) ∷ (2 ∷ []) ∷ [])
from_prefixed_leaves-perm_example = from_prefixed_leaves-perm toy (Perm.swap (1 ∷ []) (2 ∷ []) [])

abbrev signed : IntentAuthorizationCredential
signed = value_or credential (sign toy credential "key")

signing : sign toy credential "key" ≡ ok signed
unfolding sign iac_digest signable_view canonicalize_value canonical_json_bytes format
signing = refl

verify_signature-sign_example : verify_signature toy signed (toy.public_of "key") ≡ ok tt
verify_signature-sign_example = verify_signature-sign toy toy-SigningLaws "key" credential signing

abbrev published : MembraneEvent
published = value_or sample (sign_membrane_event toy sample "key")

publishing : sign_membrane_event toy sample "key" ≡ ok published
unfolding sign_membrane_event digest canonical_bytes Event.signable_view canonicalize_value
    canonical_json_bytes format
publishing = refl

verify-sign_membrane_event_example :
    verify_membrane_event_signature toy published (toy.public_of "key") ≡ ok tt
verify-sign_membrane_event_example =
    verify-sign_membrane_event toy toy-SigningLaws "key" sample publishing

abbrev later : MembraneEvent
later = record sample { prev_cp_hash = "head"; timestamp = pos 200 }

abbrev bus_root : Option String
bus_root = value_or none (bus_root_from_events toy (sample ∷ later ∷ []))

bus_rooted : bus_root_from_events toy (sample ∷ later ∷ []) ≡ ok bus_root
unfolding bus_root_from_events event_leaves digest canonical_bytes Event.signable_view
    canonicalize_value canonical_json_bytes format
bus_rooted = refl

abbrev cp_root : Option String
cp_root = value_or none (cp_chain_root_from_events toy (sample ∷ later ∷ []))

cp_rooted : cp_chain_root_from_events toy (sample ∷ later ∷ []) ≡ ok cp_root
unfolding cp_chain_root_from_events event_leaves digest canonical_bytes Event.signable_view
    canonicalize_value canonical_json_bytes format is_cp_event
cp_rooted = refl

abbrev empty_bundle : RollupBundle
empty_bundle = record {
  version = "";
  subject_pubkey = "";
  period_start = pos 0;
  period_end = pos 0;
  cp_chain_root = "";
  last_bus_root = "";
  last_cp_hash = "";
}

abbrev bundle : RollupBundle
bundle =
    value_or empty_bundle
      (build_rollup_bundle flat (sample ∷ later ∷ []) genesis_cp_hash (pos 0) (pos 300))

built : build_rollup_bundle flat (sample ∷ later ∷ []) genesis_cp_hash (pos 0) (pos 300) ≡ ok bundle
unfolding build_rollup_bundle cp_chain_root_from_events bus_root_from_events event_leaves digest
    canonical_bytes Event.signable_view canonicalize_value canonical_json_bytes format is_cp_event
    cp_hash_hex filter_events_in_period
built = refl

hash_text : is_hash_text genesis_cp_hash ≡ true
unfolding is_hash_text all_chars
hash_text = refl

validate_rollup_bundle-build_example : validate_rollup_bundle bundle ≡ ok tt
validate_rollup_bundle-build_example =
    validate_rollup_bundle-build flat (λ bytes. hash_text) (sample ∷ later ∷ []) genesis_cp_hash
      (pos 0) (pos 300) hash_text (omega arith) built

abbrev request : ReissueRequest
request = record {
  now = pos 400;
  ttl_secs = pos 3600;
  parent_cp_hash = "head";
  caller_pubkey = none;
  add_models = "m2" ∷ "m" ∷ [];
  add_tools = [];
  add_channels = "mail" ∷ [];
}

reissue_accepts_example : is_ok (reissue toy signed (toy.public_of "key") request) ≡ (
    is_ok (verify_signature toy signed (toy.public_of "key"))
    && (leb_ℤ (pos 1) request.ttl_secs && leb_ℤ request.ttl_secs max_reissue_ttl_secs)
    && all plain_identifier (additions request)
    && caller_agrees signed.caller_pubkey request.caller_pubkey)
reissue_accepts_example = reissue_accepts toy signed (toy.public_of "key") request

bound : bound_caller signed.caller_pubkey request.caller_pubkey ≡ ok genesis_cp_hash
unfolding bound_caller sign iac_digest signable_view canonicalize_value canonical_json_bytes format
bound = refl

accepted : is_ok (reissue toy signed (toy.public_of "key") request) ≡ true
unfolding reissue bound_caller sign verify_signature iac_digest signable_view canonicalize_value
    canonical_json_bytes format check_identifiers plain_identifier all_chars
accepted = refl

reissue_allows_example :
    let next = successor signed genesis_cp_hash request in
    (reissue toy signed (toy.public_of "key") request
      ≡ ok (next, successor_changes signed genesis_cp_hash request))
    × (model_allowed next "m2" ≡ (model_allowed signed "m2" || contains request.add_models "m2"))
    × (tool_allowed next "m2" ≡ (tool_allowed signed "m2" || contains request.add_tools "m2"))
    × (permits_channel next "m2"
        ≡ (permits_channel signed "m2" || contains request.add_channels "m2"))
    × (next.forbidden_exports ≡ signed.forbidden_exports)
    × (next.scope_id ≡ signed.scope_id)
    × (next.context_merkle_bound ≡ signed.context_merkle_bound)
reissue_allows_example =
    reissue_allows toy signed (toy.public_of "key") request genesis_cp_hash "m2" bound accepted

abbrev secret : String
secret = "kkkkkkkkkkkkkkkkkkkkkkkkkkkkkkkkkkkkkkkkkkkkkkkkkkkkkkkkkkkkkkk"

abbrev bound_credential : IntentAuthorizationCredential
bound_credential = record credential { caller_pubkey = some (toy.public_of secret) }

abbrev blank : CallerProof
blank = record { timestamp = pos 0; nonce = ""; signature = "" }

abbrev proof : CallerProof
proof =
    value_or blank
      (Caller.sign toy secret "audience" "/path" (string "body") bound_credential (pos 100) "nonce")

proven :
    Caller.sign toy secret "audience" "/path" (string "body") bound_credential (pos 100) "nonce"
    ≡ ok proof
unfolding Caller.sign Caller.digest hash_hex iac_digest signable_view canonicalize_value
    canonical_json_bytes format
proven = refl

key_length : eqb (len (toy.public_of secret)) 64 ≡ true
unfolding len
key_length = refl

key_digits : all_chars is_lower_hexdigit (toy.public_of secret) ≡ true
unfolding all_chars
key_digits = refl

verify-sign_example :
    verify toy proof "audience" "/path" (string "body") bound_credential ≡ ok (toy.public_of secret)
verify-sign_example =
    verify-sign toy toy-SigningLaws secret "audience" "/path" (string "body") bound_credential
      (pos 100) "nonce" refl key_length key_digits proven
