-- ===== src/Tests/Journal.antt =====
-- Examples of the operation journal. The codec writes the frame of one reservation, and no other.
use the_membrane.Prelude.{
  any, Result, contains_key, unwrap_or, ◌||◌, ℕ, pos, String, ◌==◌, ◌&&◌, not, eqb, is_some,
  if◌then◌else◌, Bool, true, false, List, [], ◌∷◌, Option, none, some, ok, err, is_ok, ◌≡◌, ◌⊎◌,
  refl, sym, ◌∙◌, ap, arith, eq_iff, lookup, len, trim, format,
}
use the_membrane.Core.Hash.{genesis_cp_hash, digest, cp_hash_hex}
use the_membrane.Core.Canonical.{canonicalize_value}
use the_membrane.Core.Signature.{verify_membrane_event_signature}
use the_membrane.Core.Session.{
  scope_router_cp_age_secs, validate_iac_anchor, is_scope_degraded, begin_scope, genesis,
}
use the_membrane.Gate.Github.{ToolInvokeRequest}
use the_membrane.Gate.Operations.{
  Record, sever, publishing, publication_aborted, outcome, review, checkpoint, intent,
  last_checksum, write_next, write_line, Frame, Codec, frame_of, ReadsBack, Journal, Io, written,
  unsynced, records, append, next_line, operation_key, read_frames, checksum,
}
use the_membrane.Gate.Operations.Append.{records-append, append_total}
use the_membrane.Gate.Operations.Reserve.{
  IntentLaws, is_intent, reserve_in_scope, reserve_key, commit_intent, valid_id,
}
use the_membrane.Gate.Operations.Reserve.Once.{appends, reserve_in_scope-once}
use the_membrane.Gate.Operations.Recover.{
  assert_ready, recover, Recovery, fresh, recover_records, recover_record, claim_scope,
}
use the_membrane.Gate.Operations.Recover.Kept.{
  recover-is_scope_degraded, recover_records-IsLinked, IsLinked,
}
use the_membrane.Core.Event.{MembraneEvent}
use the_membrane.Tests.{value_or, flat, receipt, credential}
use the_membrane.Tests.Gate.{gate}
use the_membrane.Gate.Server.{apply_operator_severs, apply_sever}
use the_membrane.Gate.Server.Severs.{apply_operator_severs-contains_key, cuts_off}
use the_membrane.Gate.Server.Session.{
  SessionState, Relay, is_new_scope, ensure_live_session, take_relay, after_ready, after_relay,
  sever_all, require_live, anchor_scope,
}
use the_membrane.Gate.Liveness.{check_session_liveness, not_older}
use the_membrane.Gate.Server.Session.Exact.{ensure_live_session_exact, write_severs}
use the_membrane.Core.Session.Sever.{genesis-IsTracked}
use the_membrane.Prelude.{as_i64}

abbrev request : ToolInvokeRequest
request = record {
  tool = "github.comment";
  operation_id = some "op";
  model = "m";
  owner = "a";
  repo = "b";
  issue_number = some 3;
  pull_number = none;
  body = some "hello";
  commit_title = none;
}

abbrev first_record : Record
first_record = intent genesis_cp_hash "caller" "scope" request

abbrev first_frame : Frame
first_frame = record {
  sequence = 0;
  previous = genesis_cp_hash;
  record_of = first_record;
  checksum = genesis_cp_hash;
}

abbrev is_text : Option String → String → Bool
is_text none s = false
is_text (some a) s = a == s

abbrev is_number : Option ℕ → ℕ → Bool
is_number none n = false
is_number (some a) n = eqb a n

abbrev same_request : ToolInvokeRequest → Bool
same_request r =
    (r.tool == "github.comment" && is_text r.operation_id "op" && r.model == "m" && r.owner == "a")
    && (r.repo == "b" && is_number r.issue_number 3 && not (is_some r.pull_number))
    && (is_text r.body "hello" && not (is_some r.commit_title))

abbrev same_record : Record → Bool
same_record (intent key caller scope r) =
    (key == genesis_cp_hash && caller == "caller" && scope == "scope") && same_request r
same_record _ = false

abbrev same_frame : Frame → Bool
same_frame f =
    (eqb f.sequence 0 && f.previous == genesis_cp_hash && f.checksum == genesis_cp_hash)
    && same_record f.record_of

abbrev codec : Codec
codec = record {
  frame_body = λ sequence previous r. ok [];
  key_body = λ caller id. ok [];
  print_frame = λ f. if same_frame f then ok "first" else err "unsupported";
  parse_frame = λ line. ok first_frame;
}

is_text-some : (o : Option String) (s : String) → is_text o s ≡ true → o ≡ some s
is_text-some none s h = cc
is_text-some (some a) s h = ap some ((eq_iff a s).0 h)

same_request-≡ : (r : ToolInvokeRequest) → same_request r ≡ true → r ≡ request
same_request-≡ r h = ground (
  arith,
  eq_iff r.tool "github.comment",
  is_text-some r.operation_id "op",
  eq_iff r.model "m",
  eq_iff r.owner "a",
  eq_iff r.repo "b",
  is_text-some r.body "hello",
)

same_record-≡ : (r : Record) → same_record r ≡ true → r ≡ first_record
same_record-≡ (intent key caller scope r) h = ground (
  arith,
  eq_iff key genesis_cp_hash,
  eq_iff caller "caller",
  eq_iff scope "scope",
  same_request-≡ r,
)
same_record-≡ (outcome _ _) h = cc
same_record-≡ (review _ _) h = cc
same_record-≡ (publishing _) h = cc
same_record-≡ (publication_aborted _) h = cc
same_record-≡ (checkpoint _ _ _ _) h = cc
same_record-≡ (sever _ _ _) h = cc

same_frame-≡ : (f : Frame) → same_frame f ≡ true → first_frame ≡ f
same_frame-≡ f h = ground (
  arith,
  eq_iff f.previous genesis_cp_hash,
  eq_iff f.checksum genesis_cp_hash,
  same_record-≡ f.record_of,
)

printed : (f : Frame) {line : String} → codec.print_frame f ≡ ok line → same_frame f ≡ true
printed f h = ground arith

first_record-ReadsBack : ReadsBack codec first_record
unfolding ReadsBack
first_record-ReadsBack sequence previous checksum line h =
    let f = frame_of first_record sequence previous checksum in
    ap ok (same_frame-≡ f (printed f {line = line} h))

codec-IntentLaws : IntentLaws codec
codec-IntentLaws = record {
  is_intent-read = λ key frame read line h k.
      let same = same_frame-≡ frame (printed frame {line = line} h) in
      let taken : first_frame ≡ read = cc in ap (λ f. is_intent key f.record_of) (sym taken ∙ same);
}

abbrev io : Io
io = record { acquire = ok tt; read = ok tt; write = written }

abbrev journal : Journal
journal = record { lines = []; torn = ""; legacy = [] }

unread : records flat codec io journal ≡ ok []
unfolding records read_frames
unread = refl

line : next_line flat codec [] first_record ≡ ok "first"
unfolding next_line last_checksum checksum
line = refl

append_total_example :
    ((append flat codec io journal first_record).0 ≡ ok tt)
    × (records flat codec io (append flat codec io journal first_record).1 ≡ ok (first_record ∷ []))
append_total_example =
    append_total flat codec first_record first_record-ReadsBack io journal unread line refl

-- The line reaches the file, and the disk fails after it.
abbrev failing : Io
failing = record io { write = unsynced "disk" }

unread_failing : records flat codec failing journal ≡ ok []
unfolding records read_frames
unread_failing = refl

read_back :
    records flat codec io (append flat codec failing journal first_record).1
    ≡ ok (first_record ∷ [])
unfolding records read_frames append next_line last_checksum checksum write_next write_line
read_back = refl

records-append_example :
    ((first_record ∷ [] ≡ []) ⊎ (first_record ∷ [] ≡ first_record ∷ []))
    × ((append flat codec failing journal first_record).0 ≡ ok tt
        → first_record ∷ [] ≡ first_record ∷ [])
records-append_example =
    records-append flat codec first_record first_record-ReadsBack failing io journal unread_failing
      read_back

reserved : (reserve_in_scope flat codec io journal "caller" "scope" request).0 ≡ ok genesis_cp_hash
unfolding reserve_in_scope reserve_key operation_key valid_id len trim format records read_frames
    append next_line last_checksum checksum write_next write_line commit_intent
reserved = refl

reserve_in_scope-once_example :
    is_ok
      (reserve_in_scope flat codec io
        (appends flat codec
          (reserve_in_scope flat codec io journal "caller" "scope" request).1
          ((failing, publishing "token") ∷ []))
        "caller"
        "scope2"
        (record request { body = some "again" })).0
    ≡ false
reserve_in_scope-once_example =
    reserve_in_scope-once flat codec codec-IntentLaws io journal "caller" "scope" request
      ((failing, publishing "token") ∷ []) io "scope2" (record request { body = some "again" })
      reserved refl

abbrev history : List Record
history = checkpoint "token" "caller" receipt none ∷ sever "scope" "sever" (pos 120) ∷ []

abbrev recovered : Recovery
recovered = value_or fresh (recover_records flat genesis_cp_hash fresh history)

recovers : recover_records flat genesis_cp_hash fresh history ≡ ok recovered
unfolding recover_records recover_record verify_membrane_event_signature digest canonicalize_value
    claim_scope lookup begin_scope cp_hash_hex
recovers = refl

recover-is_scope_degraded_example : is_scope_degraded recovered.chain "scope" ≡ true
recover-is_scope_degraded_example =
    recover-is_scope_degraded flat genesis_cp_hash "scope" history recovers refl

recover_records-IsLinked_example :
    IsLinked flat genesis_cp_hash (receipt ∷ []) recovered.chain.last_cp_hash
recover_records-IsLinked_example =
    recover_records-IsLinked flat genesis_cp_hash fresh history recovers

apply_operator_severs-contains_key_example :
    contains_key "scope" (apply_operator_severs flat "op" genesis (receipt ∷ [])).degraded_scopes
    ≡ (any (cuts_off flat "op" "scope") (receipt ∷ [])
        || contains_key "scope" genesis.degraded_scopes)
apply_operator_severs-contains_key_example =
    apply_operator_severs-contains_key flat "op" "scope" genesis (receipt ∷ [])

abbrev send : MembraneEvent → Result String String
send event = ok "id"

abbrev state : SessionState
state = record { chain = genesis; journal = journal }

abbrev live_state : SessionState
live_state = record state { chain = record genesis { active_scope_id = some "scope" } }

abbrev relay : Relay
relay = some (ok (receipt ∷ []))

live :
    ensure_live_session flat codec io gate send relay credential (pos 100) state
    ≡ (ok tt, live_state)
unfolding ensure_live_session after_ready assert_ready recover records read_frames recover_records
    lookup after_relay take_relay sever_all apply_operator_severs apply_sever require_live
    check_session_liveness is_scope_degraded scope_router_cp_age_secs anchor_scope
    validate_iac_anchor begin_scope
live = refl

ensure_live_session_exact_example :
    let r = ensure_live_session flat codec io gate send relay credential (pos 100) state in
    let operator = gate.iac_signer_pubkey in
    (is_ok r.0 ≡ (
      is_ok (
        assert_ready flat operator codec io journal (unwrap_or credential.caller_pubkey "") "scope")
      && is_ok (write_severs flat codec io operator state relay).0
      && not (any (cuts_off flat operator "scope") (receipt ∷ []))
      && not (is_scope_degraded genesis "scope")
      && not_older
          (scope_router_cp_age_secs genesis "scope" (pos 100))
          (as_i64 gate.policy.delta_t_secs)
      && (not (is_new_scope genesis "scope") || credential.parent_cp_hash == genesis.last_cp_hash)))
    × (is_ok r.0 ≡ true
        → r.1 ≡ record {
          chain =
              (begin_scope (apply_operator_severs flat operator genesis (receipt ∷ [])) "scope").0;
          journal = (write_severs flat codec io operator state relay).1;
        })
ensure_live_session_exact_example =
    ensure_live_session_exact flat codec io gate send credential (pos 100) relay state
      genesis-IsTracked
