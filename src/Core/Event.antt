-- ===== src/Core/Event.antt =====
-- membrane-core/src/event.rs: the events of the attestation bus. An `i64` is a ℤ, a `u64` is a ℕ.
use the_membrane.Prelude.{ℕ, ℤ, String, Option, none, Bool, true, false}
use the_membrane.Core.Value.{Value}

pub data EventType : Type 0 where
  cp_liveness cp_router cp_bci iac anchor_ots alert_degraded action_blocked : EventType

unfoldable pub as_str : EventType → String
as_str cp_liveness = "membrane.cp.liveness"
as_str cp_router = "membrane.cp.router"
as_str cp_bci = "membrane.cp.bci"
as_str iac = "membrane.iac"
as_str anchor_ots = "membrane.anchor.ots"
as_str alert_degraded = "membrane.alert.degraded"
as_str action_blocked = "membrane.action.blocked"

unfoldable pub nostr_tag_suffix : EventType → String
nostr_tag_suffix cp_liveness = "the-membrane-liveness"
nostr_tag_suffix cp_router = "the-membrane-router"
nostr_tag_suffix cp_bci = "the-membrane-bci"
nostr_tag_suffix iac = "the-membrane-iac"
nostr_tag_suffix anchor_ots = "the-membrane-anchor-ots"
nostr_tag_suffix alert_degraded = "the-membrane-alert-degraded"
nostr_tag_suffix action_blocked = "the-membrane-action-blocked"

abbrev pub is_router : EventType → Bool
is_router cp_router = true
is_router _ = false

abbrev pub is_alert : EventType → Bool
is_alert alert_degraded = true
is_alert _ = false

pub record RouterSessionPayload : Type 0 where
  pub model_id : String
  pub context_merkle_root : String
  pub session_nonce : ℕ
  pub parent_cp_hash : String
  pub iac_hash : String
  pub scope_id : Option String
  pub tool_id : Option String

pub data MembranePayload : Type 0 where
  router : RouterSessionPayload → MembranePayload
  generic : Value → MembranePayload

pub record SignableMembraneEvent : Type 0 where
  pub version : String
  pub event_type : EventType
  pub subject_pubkey : String
  pub prev_cp_hash : String
  pub timestamp : ℤ
  pub payload : MembranePayload

pub record MembraneEvent : Type 0 where
  pub version : String
  pub event_type : EventType
  pub subject_pubkey : String
  pub prev_cp_hash : String
  pub timestamp : ℤ
  pub payload : MembranePayload
  pub signature : Option String

abbrev pub schema_version : String
schema_version = "0.9.14"

-- `MembraneEvent::new`
unfoldable pub new_event : EventType → String → String → ℤ → MembranePayload → MembraneEvent
new_event event_type subject_pubkey prev_cp_hash timestamp payload = record {
  version = schema_version;
  event_type = event_type;
  subject_pubkey = subject_pubkey;
  prev_cp_hash = prev_cp_hash;
  timestamp = timestamp;
  payload = payload;
  signature = none;
}

unfoldable pub signable_view : MembraneEvent → SignableMembraneEvent
signable_view e = record {
  version = e.version;
  event_type = e.event_type;
  subject_pubkey = e.subject_pubkey;
  prev_cp_hash = e.prev_cp_hash;
  timestamp = e.timestamp;
  payload = e.payload;
}
