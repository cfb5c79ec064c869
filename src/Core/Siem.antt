-- ===== src/Core/Siem.antt =====
-- The export records of membrane-core/src/siem.rs. serde_json's writing of a record is an argument.
pub mod Outcome
use the_membrane.Prelude.{
  ℕ, ℤ, pos, negsuc, ◌+◌, ◌*◌, sub_ℕ, saturate, String, ◌==◌, Bool, true, false, ◌&&◌, ◌||◌, not,
  Option, none, some, is_some, unwrap_or, List, [], ◌∷◌, ◌++◌, map, Result, ok, err, to_option,
  map_err, format, decimal, decimal_ℤ, all_chars, eqb, if◌then◌else◌,
}
use the_membrane.Core.Value.{
  Value, null, bool, number, string, array, object, Items, nil, cons, Fields, end, field, get,
  as_str, and_then, opt_string, strings,
}
use the_membrane.Core.Event.{
  EventType, cp_router, iac, action_blocked, alert_degraded, MembraneEvent, MembranePayload, router,
  generic, RouterSessionPayload,
}
use the_membrane.Core.Event
use the_membrane.Core.External.{External}
use the_membrane.Core.Hash.{digest, cp_hash_hex}

abbrev pub siem_schema_version : String
siem_schema_version = "1.0.0"

abbrev pub ocsf_inspired_schema : String
ocsf_inspired_schema = "ocsf-inspired-1.0"

pub record SiemEvent : Type 0 where
  pub schema_version : String
  pub timestamp : ℤ
  pub event_id : String
  pub event_type : String
  pub outcome : String
  pub severity : String
  pub agent_id : String
  pub session_id : Option String
  pub scope_id : Option String
  pub models : List String
  pub tools : List String
  pub policy_hash : Option String
  pub receipt_hash : Option String
  pub parent_receipt_hash : Option String
  pub reason : Option String
  pub simulation : Bool
  pub source_event_type : String

abbrev pub not_blank : String → Option String
not_blank s = if s == "" then none else some s

unfoldable pub string_field : Option Value → String → Option String
string_field none name = none
string_field (some value) name = and_then (and_then (get value name) as_str) not_blank

-- `filter_map(as_str).filter(..).collect()`
unfoldable pub item_texts : Items → List String
item_texts nil = []
item_texts (cons v rest) = elim (and_then (as_str v) not_blank) [
  | none ↦ item_texts rest
  | some s ↦ s ∷ item_texts rest
]

abbrev pub array_texts : Option Value → List String
array_texts (some (array items)) = item_texts items
array_texts (some null) = []
array_texts (some _) = []
array_texts none = []

unfoldable pub string_array_field : Option Value → String → List String
string_array_field none name = []
string_array_field (some value) name = array_texts (get value name)

unfoldable pub nonzero_hash : String → Option String
nonzero_hash value =
    if not (value == "") && not (all_chars (λ c. eqb c b'0') value) then some value else none

unfoldable pub activity_name : String → String
activity_name event_type =
    if event_type == "authorization_issued"
    then "Authorization Issued"
    else if event_type == "allowed_action"
    then "Action Allowed"
    else if event_type == "blocked_action"
    then "Action Blocked"
    else if event_type == "sever"
    then "Session Severed"
    else if event_type == "degraded"
    then "Session Degraded or Stale"
    else "Membrane Telemetry"

abbrev pub generic_of : MembranePayload → Option Value
generic_of (generic value) = some value
generic_of (router _) = none

abbrev pub router_of : MembranePayload → Option RouterSessionPayload
router_of (router payload) = some payload
router_of (generic _) = none

-- What the big `match` gives, the hash apart: type, outcome, severity, and whether the hash is that
-- of a checkpoint.
pub record Class : Type 0 where
  pub event_type : String
  pub outcome : String
  pub severity : String
  pub is_checkpoint : Bool

abbrev pub class_of : String → String → String → Class
class_of event_type outcome severity = record {
  event_type = event_type;
  outcome = outcome;
  severity = severity;
  is_checkpoint = false;
}

-- The arms after the first one, by the type and the reason.
unfoldable pub classify_type : EventType → Option String → Class
classify_type iac reason = class_of "authorization_issued" "issued" "informational"
classify_type action_blocked reason = class_of "blocked_action" "blocked" "high"
classify_type alert_degraded (some reason) =
    if reason == "subject_sever"
    then class_of "sever" "severed" "high"
    else class_of "degraded" "degraded" "high"
classify_type alert_degraded none = class_of "degraded" "degraded" "high"
classify_type _ reason = class_of "membrane_telemetry" "observed" "informational"

unfoldable pub classify : EventType → MembranePayload → Option String → Class
classify cp_router (router payload) reason = record {
  event_type = "allowed_action";
  outcome = "allowed";
  severity = "informational";
  is_checkpoint = true;
}
classify t payload reason = classify_type t reason

-- `models.push(payload.model_id.clone())` in the first arm
abbrev pub pushed_model : Class → MembranePayload → List String
pushed_model class (router payload) = if class.is_checkpoint then payload.model_id ∷ [] else []
pushed_model class (generic _) = []

abbrev pub or_else {ℓ} : {A : Type ℓ} → Option A → Option A → Option A
or_else (some a) other = some a
or_else none other = other

-- The first of a list, in `json!`
abbrev pub first_text : List String → Value
first_text [] = null
first_text (s ∷ _) = string s

-- `saturating_mul(1000)`
abbrev pub times_1000 : ℤ → ℤ
times_1000 (pos n) = saturate (pos (n * 1000))
times_1000 (negsuc n) = saturate (sub_ℕ 0 ((n + 1) * 1000))

abbrev pub status_of : String → String
status_of outcome =
    if outcome == "allowed" || outcome == "issued" || outcome == "observed"
    then "Success"
    else if outcome == "blocked" || outcome == "severed" || outcome == "degraded"
    then "Failure"
    else "Unknown"

module _ (x : External) where
  unfoldable pub receipt_hash_of : Class → MembraneEvent → Option String
  receipt_hash_of class e =
      if class.is_checkpoint
      then to_option (cp_hash_hex x e)
      else elim (digest x e) [ ok bytes ↦ some (x.hex_encode bytes) | err _ ↦ none ]

  unfoldable pub from_membrane_event : MembraneEvent → Option String → SiemEvent
  from_membrane_event e source_event_id =
      let value = generic_of e.payload in
      let reason = string_field value "reason" in
      let class = classify e.event_type e.payload reason in
      let receipt_hash = receipt_hash_of class e in
      record {
        schema_version = siem_schema_version;
        timestamp = e.timestamp;
        event_id =
            unwrap_or (or_else source_event_id receipt_hash)
              (format (Event.as_str e.event_type ∷ ":" ∷ decimal_ℤ e.timestamp ∷ []));
        event_type = class.event_type;
        outcome = class.outcome;
        severity = class.severity;
        agent_id = e.subject_pubkey;
        session_id =
            or_else (string_field value "session_id")
              (and_then (router_of e.payload) (λ p. some (decimal p.session_nonce)));
        scope_id = string_field value "scope_id";
        models = string_array_field value "model_allowlist" ++ pushed_model class e.payload;
        tools = string_array_field value "tool_allowlist";
        policy_hash =
            or_else (string_field value "iac_hash")
              (and_then (router_of e.payload) (λ p. some p.iac_hash));
        receipt_hash = receipt_hash;
        parent_receipt_hash = nonzero_hash e.prev_cp_hash;
        reason = reason;
        simulation = false;
        source_event_type = Event.as_str e.event_type;
      }

-- `self_value` is the record itself, as serde_json writes it.
unfoldable pub to_ocsf_inspired : (SiemEvent → Value) → SiemEvent → Value
to_ocsf_inspired self_value e = object (
    field "activity_name" (string (activity_name e.event_type)) (
      field "actor" (object (field "user" (object (field "uid" (string e.agent_id) end)) end)) (
        field "api"
          (object (
            field "operation" (first_text e.tools)
              (field "service" (object (field "name" (string "The Membrane") end)) end)))
          (field "category_name" (string "Identity & Access Management") (
            field "class_name" (string "Authorization and Action Receipt") (
              field "metadata"
                (object (
                  field "log_name" (string "membrane.action_receipt") (
                    field "product"
                      (object (
                        field "name" (string "The Membrane")
                          (field "vendor_name" (string "The Membrane") end)))
                      (field "profiles" (array (strings ("membrane/action-receipt" ∷ [])))
                        (field "version" (string siem_schema_version) end)))))
                (field "model" (object (field "name" (first_text e.models) end)) (
                  field "policy" (object (field "uid" (opt_string e.policy_hash) end)) (
                    field "session"
                      (object (
                        field "scope_id" (opt_string e.scope_id)
                          (field "uid" (opt_string e.session_id) end)))
                      (field "severity" (string e.severity) (
                        field "status" (string (status_of e.outcome)) (
                          field "status_detail" (opt_string e.reason) (
                            field "time" (number (decimal_ℤ (times_1000 e.timestamp))) (
                              field "unmapped" (object (field "membrane" (self_value e) end))
                                end))))))))))))))

unfoldable pub render_jsonl :
    (SiemEvent → Result String String) → List SiemEvent → Result String String
render_jsonl to_string [] = ok ""
render_jsonl to_string (e ∷ rest) = elim (to_string e) [
  | err failed ↦ err failed
  | ok line ↦ elim (render_jsonl to_string rest) [
    | err failed ↦ err failed
    | ok others ↦ ok (format (line ∷ "\n" ∷ others ∷ []))
  ]
]

pub record OcsfInspiredPack : Type 0 where
  pub format_name : String
  pub schema : String
  pub schema_note : String
  pub exported_at : ℤ
  pub events : List Value

unfoldable pub build_ocsf_inspired_pack :
    (SiemEvent → Value) → List SiemEvent → ℤ → OcsfInspiredPack
build_ocsf_inspired_pack self_value events exported_at = record {
  format_name = "ocsf";
  schema = ocsf_inspired_schema;
  schema_note =
      "OCSF-inspired projection; no certified OCSF class or activity identifiers are claimed.";
  exported_at = exported_at;
  events = map (to_ocsf_inspired self_value) events;
}
