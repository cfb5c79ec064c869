-- ===== src/Tests/Server.antt =====
-- Examples of the request handlers.
use the_membrane.Core.Hash
use the_membrane.Gate.Server.Invoke.{
  authorize_invoke, after_call, call_github, finish_reserved, handle_tool_invoke, request_of,
  reserve, serve_invoke,
}
use the_membrane.Gate.Server.Admit.{admit_chat, admit_tool, check_again, check_identity}
use the_membrane.Gate.Operations.Recover.{assert_ready, recover, recover_records}
use the_membrane.Gate.Liveness.{check_session_liveness}
use the_membrane.Gate.Identity.Window.{check_window, effective_expiry, parse_duration_secs}
use the_membrane.Gate.Identity.Caller.{authenticate_caller, check_proof, take_proof}
use the_membrane.Gate.Identity.{authorize_identity_at, authorize_tool_repo}
use the_membrane.Gate.Iac.{
  admit_session, authorize_tool, check_channels, check_exports, context_root_hex,
  open_router_session, publish_with_receipt, validate_iac,
}
use the_membrane.Core.Signature.{sign_membrane_event, verify_signature}
use the_membrane.Core.Merkle.{from_domain_leaves, root_hex}
use the_membrane.Core.Canonical.{canonicalize_value}
use the_membrane.Prelude.{
  all_chars, as_i64, checked_add, format, len, lookup, parse_digits, retain, saturating_sub,
  split_last, starts_with, str_lt, trim, ◌+ℤ◌, ◌-ℤ◌, pos, String, Result, false, [], ◌∷◌, none,
  some, ok, err, ◌≡◌, refl, sym, ◌∙◌, List,
}
use the_membrane.Core.Value.{null}
use the_membrane.Core.Hash.{cp_hash_hex, hash_hex, iac_digest, genesis_cp_hash}
use the_membrane.Core.Iac.{
  is_valid_at, model_allowed, permits_channel, tool_allowed, IntentAuthorizationCredential,
}
use the_membrane.Core.Session.{
  begin_scope, is_scope_degraded, record_cp, scope_router_cp_age_secs, validate_iac_anchor, genesis,
}
use the_membrane.Core.Caller.{digest, verify}
use the_membrane.Gate.Registry.{Gate, IdentityGrant}
use the_membrane.Gate.Audit.{AuditLog}
use the_membrane.Gate.Audit.Bounded.{empty_buffer}
use the_membrane.Gate.Github.{is_github_tool, preflight, GitHubConnectorConfig, ToolInvokeRequest}
use the_membrane.Gate.Github.Execute.{ToolReceiptContext}
use the_membrane.Gate.Operations.{
  append, begin_publication, checksum, last_checksum, next_line, read_frames, records, write_line,
  write_next, Codec, Frame, Io, publishing, written,
}
use the_membrane.Gate.Server.Session.{
  after_ready, after_relay, anchor_scope, ensure_live_session, require_live, take_relay,
  SessionState,
}
use the_membrane.Gate.Server.Publish.{
  after_hash, after_open, begin, commit, next_request, note_commit, publish_session, Outside,
}
use the_membrane.Gate.Server.Headers.{
  header_json, load_caller_proof, load_iac, parse_iac_header, HeaderMap, Readers, Response,
}
use the_membrane.Gate.Server.Routes.{
  after_identity, invoke_as, respond, show_caller, Clocks, tools_invoke,
}
use the_membrane.Gate.Server.Routes.Status.{
  is_empty, refuses, tools_invoke-is_refusal, tools_invoke-calls, Vouched,
}
use the_membrane.Gate.Server.Publish.{SessionReceipt}
use the_membrane.Gate.Server.Chat.{
  authorize_chat, chat_request_of, collect_chunks, serve_chat, ChatRequest, handle_chat,
}
use the_membrane.Gate.Server.Chat.Dispatch.{ChatCleared, handle_chat-calls}
use the_membrane.Tests.{flat, credential}
use the_membrane.Tests.Gate.{gate, policy, grant, proof}

-- A request that reads an issue.
abbrev read_request : ToolInvokeRequest
read_request = record {
  tool = "github.issue.read";
  operation_id = none;
  model = "m";
  owner = "a";
  repo = "b";
  issue_number = some 7;
  pull_number = none;
  body = none;
  commit_title = none;
}

abbrev reader_grant : IdentityGrant
reader_grant = record grant { tool_allowlist = "github.issue.read" ∷ [] }

abbrev reader_gate : Gate
reader_gate = record gate {
  policy = record policy { identities = (genesis_cp_hash, reader_grant) ∷ [] };
}

abbrev reader : IntentAuthorizationCredential
reader = record credential { tool_allowlist = "github.issue.read" ∷ [] }

abbrev first_frame : Frame
first_frame = record {
  sequence = 0;
  previous = genesis_cp_hash;
  record_of = publishing "token";
  checksum = genesis_cp_hash;
}

-- It reads the one line that a request leaves before its checkpoint.
abbrev codec : Codec
codec = record {
  frame_body = λ sequence previous r. ok [];
  key_body = λ caller id. ok [];
  print_frame = λ f. ok "line";
  parse_frame = λ line. ok first_frame;
}

abbrev io : Io
io = record { acquire = ok tt; read = ok tt; write = written }

abbrev outside : Outside
outside = record {
  now = pos 100;
  validated_at = pos 101;
  live_at = pos 101;
  authorized_at = pos 101;
  admission = ok tt;
  relay = none;
  send = λ event. ok "id";
  token = "token";
  live_io = io;
  reserve_io = io;
  begin_io = io;
  append_io = io;
  recover_io = io;
  finish_io = io;
  registry_then = none;
}

abbrev config : GitHubConnectorConfig
config = record { repo_allowlist = "a/b" ∷ []; api_base = "https://api"; token = some "t" }

abbrev readers : Readers
readers = record {
  base64_decode = λ s. err "no";
  from_utf8 = λ bytes. ok "";
  iac_from_str = λ s. ok reader;
  proof_from_str = λ s. ok proof;
}

abbrev clocks : Clocks
clocks = record { proved_at = pos 100; identified_at = pos 100; logged_at = pos 102 }

abbrev headers : HeaderMap
headers = record { iac = some "{}"; caller_proof = some "{}" }

abbrev state : SessionState
state = record { chain = genesis; journal = record { lines = []; torn = ""; legacy = [] } }

abbrev log : AuditLog
log = record {
  buffer = some empty_buffer;
  liveness = record { started_at = pos 0; last_beat = pos 0 };
}

abbrev context : ToolReceiptContext
context = record {
  tool = "github.issue.read";
  model = "m";
  owner = "a";
  repo = "b";
  simulation = false;
  issue_number = some 7;
  pull_number = none;
  body_sha256 = none;
  result = none;
}

tools_invoke-is_refusal_example :
    let e =
      tools_invoke flat readers none clocks codec config outside
        (λ r. null)
        (λ r. ok (1 ∷ []))
        (λ r. ok context)
        (ok read_request)
        headers
        reader_gate
        state
        log in
    refuses (ok read_request) e.response.status ≡ is_empty e.calls
tools_invoke-is_refusal_example =
    tools_invoke-is_refusal flat readers none clocks codec config outside (λ r. null)
      (λ r. ok (1 ∷ [])) (λ r. ok context) (ok read_request) (λ rejection h. cc) headers reader_gate
      state log

nonempty : {A : Type 0} {a : A} {xs : List A} → ¬ (◌≡◌ {A = List A} (a ∷ xs) [])
nonempty h = cc

called :
    (tools_invoke flat readers none clocks codec config outside
      (λ r. null)
      (λ r. ok (1 ∷ []))
      (λ r. ok context)
      (ok read_request)
      headers
      reader_gate
      state
      log).calls
    ≡ read_request ∷ []
unfolding tools_invoke invoke_as show_caller load_iac parse_iac_header header_json starts_with trim
    load_caller_proof authenticate_caller check_proof validate_iac verify_signature iac_digest
    canonicalize_value is_valid_at permits_channel check_channels saturating_sub ◌-ℤ◌ len all_chars
    verify digest hash_hex take_proof lookup retain after_identity authorize_identity_at
    check_window effective_expiry parse_duration_secs split_last parse_digits checked_add ◌+ℤ◌
    model_allowed authorize_tool_repo tool_allowed format respond handle_tool_invoke serve_invoke
    authorize_invoke admit_tool authorize_tool is_github_tool preflight ensure_live_session
    after_ready assert_ready recover records read_frames recover_records after_relay take_relay
    require_live check_session_liveness is_scope_degraded scope_router_cp_age_secs anchor_scope
    validate_iac_anchor request_of next_request begin_scope reserve publish_session begin
    begin_publication append write_next next_line last_checksum checksum write_line after_open
    open_router_session admit_session check_exports context_root_hex root_hex from_domain_leaves
    str_lt publish_with_receipt sign_membrane_event Hash.digest cp_hash_hex after_hash commit
    note_commit check_again record_cp as_i64 check_identity after_call call_github finish_reserved
called = refl

tools_invoke-calls_example :
    let e =
      tools_invoke flat readers none clocks codec config outside
        (λ r. null)
        (λ r. ok (1 ∷ []))
        (λ r. ok context)
        (ok read_request)
        headers
        reader_gate
        state
        log in
    (req : ToolInvokeRequest) × (◌≡◌ {A = Result Response ToolInvokeRequest}
      (ok read_request)
      (ok req))
    × (e.calls ≡ req ∷ [])
    × Vouched flat readers none clocks codec config outside
        (λ r. null)
        (λ r. ok (1 ∷ []))
        (λ r. ok context)
        req
        headers
        reader_gate
        state
        (show_caller flat readers none clocks headers "/v1/tools/invoke" null reader_gate).1
tools_invoke-calls_example =
    tools_invoke-calls flat readers none clocks codec config outside (λ r. null) (λ r. ok (1 ∷ []))
      (λ r. ok context) (ok read_request) headers reader_gate state log
      (λ none_called. nonempty (sym called ∙ none_called))

abbrev chat_request : ChatRequest
chat_request = record {
  model = "m";
  messages = record { role = "user"; content = "hello" } ∷ [];
  stream = false;
}

abbrev model : ChatRequest → Result String String
model r = ok "hi"

answered :
    (handle_chat flat codec gate outside
      (λ m. ok (1 ∷ []))
      credential
      chat_request
      model
      log
      state).calls
    ≡ chat_request ∷ []
unfolding handle_chat serve_chat authorize_chat admit_chat validate_iac verify_signature iac_digest
    canonicalize_value is_valid_at permits_channel check_channels ensure_live_session after_ready
    assert_ready recover records read_frames recover_records lookup after_relay take_relay
    require_live check_session_liveness is_scope_degraded scope_router_cp_age_secs anchor_scope
    validate_iac_anchor chat_request_of next_request begin_scope collect_chunks publish_session
    begin begin_publication append write_next next_line last_checksum checksum write_line after_open
    open_router_session admit_session model_allowed check_exports context_root_hex root_hex
    from_domain_leaves str_lt hash_hex publish_with_receipt sign_membrane_event Hash.digest
    cp_hash_hex after_hash commit note_commit check_identity authorize_identity_at check_window
    effective_expiry parse_duration_secs split_last trim all_chars parse_digits checked_add ◌+ℤ◌
    authorize_tool_repo
answered = refl

handle_chat-calls_example :
    (receipt : SessionReceipt) × (t : SessionState) × ((handle_chat flat codec gate outside
        (λ m. ok (1 ∷ []))
        credential
        chat_request
        model
        log
        state).calls
      ≡ chat_request ∷ [])
    × ChatCleared flat codec gate outside (λ m. ok (1 ∷ [])) credential chat_request state t receipt
handle_chat-calls_example =
    handle_chat-calls flat codec gate outside (λ m. ok (1 ∷ [])) credential chat_request model log
      state (λ none_called. nonempty (sym answered ∙ none_called))
