-- ===== src/Tests/Gate.antt =====
-- Examples of the crate membrane-gate.
use the_membrane.Prelude.{as_i64, insert}
use the_membrane.Core.Session.{
  begin_scope, record_cp, SessionChainState, genesis, age_since, is_scope_degraded,
}
use the_membrane.Core.Session.Scopes.{Turn, turns, stored, last_at, genesis-IsSynced}
use the_membrane.Gate.Liveness.{check_session_liveness, not_older}
use the_membrane.Gate.Liveness.Scoped.{check_session_liveness-turns}
use the_membrane.Prelude.{
  ◌≤◌, pos, String, true, false, ◌&&◌, not, all, contains, leb_ℤ, [], ◌∷◌, none, some, Result, ok,
  is_ok, ◌≡◌, refl, arith, length, IsI64, ◌≤ℤ◌, ◌-ℤ◌, str_lt, split_last, trim, all_chars,
  parse_digits, len, format, to_ascii_lowercase, saturating_sub, retain, lookup,
}
use the_membrane.Core.Value.{string}
use the_membrane.Core.Event.{MembraneEvent}
use the_membrane.Core.Hash.{
  iac_digest, digest, canonical_bytes, canonical_json_bytes, genesis_cp_hash, hash_hex, cp_hash_hex,
}
use the_membrane.Core.Iac.{
  IntentAuthorizationCredential, tool_allowed, model_allowed, permits_channel, is_valid_at,
}
use the_membrane.Core.Signature.{verify_signature, sign_membrane_event}
use the_membrane.Core.Caller.{CallerProof, verify}
use the_membrane.Core.Caller
use the_membrane.Core.Event.{new_event}
use the_membrane.Core.Event
use the_membrane.Core.Iac
use the_membrane.Core.Canonical.{canonicalize_value}
use the_membrane.Core.Merkle.{root_hex, from_domain_leaves, compute_root, climb, prefixed_hash}
use the_membrane.Gate.Registry.{Gate, ChannelRegistry, IdentityGrant}
use the_membrane.Gate.Iac.{
  check_channels, check_exports, publish_with_receipt, validate_iac, admit_session,
  context_root_hex, RouterSessionRequest, RouterSessionOutcome, open_router_session, router_event,
}
use the_membrane.Gate.Iac.Exact.{
  validate_iac_exact, admit_session_exact, within, open_router_session-ok,
}
use the_membrane.Core.External.{Bytes}
use the_membrane.Core.Event.{schema_version, cp_router, router}
use the_membrane.Gate.Identity.{authorize_identity_at, current_registry}
use the_membrane.Gate.Identity.Window.{parse_duration_secs, parse_duration_secs_bounds}
use the_membrane.Gate.Identity.Exact.{authorize_identity_at_exact, authorized}
use the_membrane.Gate.Identity.Caller.{
  check_proof, take_proof, Call, authenticate_caller, serve, replay_capacity,
}
use the_membrane.Gate.Identity.Caller.Replay.{serve-length, authenticate_caller-once, InOrder}
use the_membrane.Gate.Github.{
  ToolInvokeRequest, GitHubConnectorConfig, preflight, is_github_tool, is_repo_name, repo_allowed,
  has_token,
}
use the_membrane.Gate.Github.Exact.{preflight_exact, args_complete}
use the_membrane.Tests.{value_or, flat, receipt, credential}

abbrev pub grant : IdentityGrant
grant = record {
  revoked = false;
  scopes = "scope" ∷ [];
  permitted_channels = "local-llm" ∷ [];
  model_allowlist = "m" ∷ [];
  tool_allowlist = "github.comment" ∷ [];
  github_repo_allowlist = "a/b" ∷ [];
  not_before = some (pos 50);
  expires_at = none;
  valid_for = some "10m";
}

abbrev pub policy : ChannelRegistry
policy = record {
  identities = (genesis_cp_hash, grant) ∷ [];
  permitted_channels = "local-llm" ∷ [];
  forbidden_exports = [];
  model_allowlist = "m" ∷ [];
  delta_t_secs = 300;
  model_api_url = none;
  github_repo_allowlist = "a/b" ∷ [];
}

abbrev pub gate : Gate
gate = record {
  policy = policy;
  keys = "key";
  iac_signer_pubkey = genesis_cp_hash;
  caller_challenge = "challenge";
  live = none;
  replay = [];
}

validate_iac_exact_example :
    (is_ok (validate_iac flat gate (some credential) (pos 100)) ≡ (
      is_ok (verify_signature flat credential gate.iac_signer_pubkey)
      && leb_ℤ (pos 100) credential.valid_until
      && permits_channel credential "local-llm"
      && all (permits_channel credential) gate.policy.permitted_channels))
    × (is_ok (validate_iac flat gate none (pos 100)) ≡ false)
validate_iac_exact_example = validate_iac_exact flat gate (pos 100) credential

abbrev pub session : RouterSessionRequest
session = record {
  model_id = "m";
  context_chunks = (1 ∷ 2 ∷ []) ∷ [];
  session_nonce = 1;
  parent_cp_hash = genesis_cp_hash;
  scope_id = some "scope";
  tool_id = none;
}

admit_session_exact_example :
    is_ok (admit_session flat gate (some credential) session (pos 100)) ≡ (
      is_ok (validate_iac flat gate (some credential) (pos 100))
      && model_allowed credential "m"
      && contains gate.policy.model_allowlist "m"
      && all (contains credential.forbidden_exports) gate.policy.forbidden_exports
      && within credential.context_merkle_bound (context_root_hex flat session.context_chunks))
admit_session_exact_example = admit_session_exact flat gate (pos 100) credential session

ten_minutes : parse_duration_secs " 10m" ≡ ok (pos 600)
unfolding parse_duration_secs split_last trim all_chars parse_digits
ten_minutes = refl

parse_duration_secs_bounds_example : (pos 1 ≤ℤ pos 600) × IsI64 (pos 600)
parse_duration_secs_bounds_example = parse_duration_secs_bounds " 10m" ten_minutes

authorize_identity_at_exact_example :
    is_ok (
      authorize_identity_at gate genesis_cp_hash credential "m"
        (some ("github.comment", "a/b"))
        (pos 100))
    ≡ authorized
        (current_registry gate)
        genesis_cp_hash
        credential
        "m"
        (some ("github.comment", "a/b"))
        (pos 100)
authorize_identity_at_exact_example =
    authorize_identity_at_exact gate genesis_cp_hash credential "m" (some ("github.comment", "a/b"))
      (pos 100)

abbrev pub request : ToolInvokeRequest
request = record {
  tool = "github.comment";
  operation_id = some "op";
  model = "m";
  owner = "a";
  repo = "b";
  issue_number = some 3;
  pull_number = none;
  body = some "hello";
  commit_title = none;
}

abbrev pub config : GitHubConnectorConfig
config = record { repo_allowlist = "a/b" ∷ []; api_base = "https://api"; token = some "t" }

preflight_exact_example : is_ok (preflight config request) ≡ (
    is_github_tool request.tool
    && is_repo_name request
    && repo_allowed config "a" "b"
    && args_complete request
    && has_token config)
preflight_exact_example = preflight_exact config request

abbrev pub proof : CallerProof
proof = record {
  timestamp = pos 100;
  nonce = "00000000000000000000000000000000000000000000000000000000000000aB";
  signature = "";
}

abbrev call : Call
call = record {
  iac = credential;
  proof = proof;
  path = "/v1/tools/invoke";
  body = string "body";
  now = pos 110;
}

-- The same proof with its nonce in other letters, and another one.
abbrev replayed : Call
replayed = record call {
  now = pos 130;
  proof = record proof {
    nonce = "00000000000000000000000000000000000000000000000000000000000000Ab";
  };
}

abbrev other : Call
other = record call {
  now = pos 120;
  proof = record proof {
    nonce = "0000000000000000000000000000000000000000000000000000000000000001";
  };
}

accepted : (authenticate_caller flat gate call).0 ≡ ok genesis_cp_hash
unfolding authenticate_caller check_proof validate_iac verify_signature iac_digest check_channels
    verify Caller.digest take_proof all_chars len format permits_channel is_valid_at lookup retain
    saturating_sub to_ascii_lowercase hash_hex canonicalize_value ◌-ℤ◌
accepted = refl

in_order : InOrder call.now (other ∷ [])
unfolding InOrder
in_order = (omega arith, tt)

same_nonce : to_ascii_lowercase replayed.proof.nonce ≡ to_ascii_lowercase call.proof.nonce
unfolding to_ascii_lowercase
same_nonce = refl

authenticate_caller-once_example : ¬ (
    (authenticate_caller flat
      (serve flat (authenticate_caller flat gate call).1 (other ∷ []))
      replayed).0
    ≡ ok genesis_cp_hash)
authenticate_caller-once_example =
    authenticate_caller-once flat gate call (other ∷ []) replayed accepted in_order (omega arith)
      same_nonce (omega arith)

serve-length_example :
    length (serve flat gate (call ∷ replayed ∷ other ∷ [])).replay ≤ replay_capacity
serve-length_example = serve-length flat gate (call ∷ replayed ∷ other ∷ []) (omega arith)

abbrev send : MembraneEvent → Result String String
send event = ok "id"

abbrev outcome : RouterSessionOutcome
outcome =
    value_or
      (record { event = receipt; context_merkle_root = ""; cp_hash = ""; bus_event_id = none })
      (open_router_session flat gate send (some credential) session (pos 100))

opened : open_router_session flat gate send (some credential) session (pos 100) ≡ ok outcome
unfolding open_router_session admit_session validate_iac verify_signature iac_digest
    canonicalize_value is_valid_at permits_channel check_channels model_allowed check_exports
    context_root_hex root_hex from_domain_leaves str_lt hash_hex publish_with_receipt
    sign_membrane_event digest canonical_bytes cp_hash_hex compute_root climb prefixed_hash
    router_event canonical_json_bytes new_event format Iac.signable_view Event.signable_view
opened = refl

open_router_session-ok_example :
    ((is_ok (validate_iac flat gate (some credential) (pos 100))
        && model_allowed credential session.model_id
        && contains gate.policy.model_allowlist session.model_id
        && all (contains credential.forbidden_exports) gate.policy.forbidden_exports
        && not (str_lt credential.context_merkle_bound outcome.context_merkle_root))
      ≡ true)
    × (context_root_hex flat session.context_chunks ≡ ok outcome.context_merkle_root)
    × ((iac_hash : String) × (message : Bytes) × (hash_hex flat credential ≡ ok iac_hash)
        × (let unsigned : MembraneEvent = record {
          version = schema_version;
          event_type = cp_router;
          subject_pubkey = flat.public_of gate.keys;
          prev_cp_hash = session.parent_cp_hash;
          timestamp = pos 100;
          payload = router (record {
            model_id = session.model_id;
            context_merkle_root = outcome.context_merkle_root;
            session_nonce = session.session_nonce;
            parent_cp_hash = session.parent_cp_hash;
            iac_hash = iac_hash;
            scope_id = session.scope_id;
            tool_id = session.tool_id;
          });
          signature = none;
        } in
            (digest flat unsigned ≡ ok message)
            × (outcome.event ≡ record unsigned {
              signature = some (flat.hex_encode (flat.sign_schnorr gate.keys message));
            })))
    × (cp_hash_hex flat outcome.event ≡ ok outcome.cp_hash)
    × (is_ok (send outcome.event) ≡ true)
open_router_session-ok_example =
    open_router_session-ok flat gate (pos 100) send credential session opened

abbrev turn_a : Turn
turn_a = record { scope = "a"; hash = "h1"; bus_event_id = none; at = pos 10 }

abbrev turn_b : Turn
turn_b = record { scope = "b"; hash = "h2"; bus_event_id = none; at = pos 20 }

abbrev last_turn : SessionChainState
last_turn = record genesis {
  last_cp_hash = "h2";
  session_nonce = 1;
  active_scope_id = some "b";
  last_router_cp_at = some (pos 20);
  scopes = ("a", (1, some (pos 10))) ∷ ("b", (1, some (pos 20))) ∷ [];
}

took_turns : turns genesis (turn_a ∷ turn_b ∷ []) ≡ some last_turn
unfolding turns begin_scope lookup record_cp insert str_lt
took_turns = refl

check_session_liveness-turns_example :
    is_ok (check_session_liveness gate last_turn "a" (pos 100)) ≡ (
      not (is_scope_degraded genesis "a")
      && not_older
          (age_since (last_at "a" (stored genesis "a").1 (turn_a ∷ turn_b ∷ [])) (pos 100))
          (as_i64 gate.policy.delta_t_secs))
check_session_liveness-turns_example =
    check_session_liveness-turns gate genesis (turn_a ∷ turn_b ∷ []) "a" (pos 100) last_turn
      genesis-IsSynced took_turns
