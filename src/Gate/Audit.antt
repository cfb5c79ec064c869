-- ===== src/Gate/Audit.antt =====
-- The bounded log of membrane-gate/src/audit.rs. A deque is a list, oldest first; the buffer is
-- absent where its lock is poisoned. A decision's clock is an argument.
pub mod Bounded
use the_membrane.Prelude.{
  ℕ, ℤ, zero, suc, String, Bool, Option, none, some, List, [], ◌∷◌, ◌++◌, length, drop, map, ltb,
  eqb, not, saturating_suc, if◌then◌else◌, filter_chars, take_chars, is_control,
}
use mathlib.Core.List.{reverse}
use the_membrane.Gate.Error.{
  GateError, identity_authentication, identity_grant, grant_window, no_valid_iac,
  invalid_iac_signature, channel_denied, model_denied, tool_denied, repo_denied, export_forbidden,
  context_bound_exceeded, session_degraded, session_stale, connector, registry, siem_export, bus,
}
use the_membrane.Gate.Alarm.{Alarm, AlarmRecord, Delivery, alarm_capacity}
use the_membrane.Gate.Heartbeat.{Liveness}

abbrev pub capacity : ℕ
capacity = 500

pub record Decision : Type 0 where
  pub sequence : ℕ
  pub timestamp : ℤ
  pub outcome : String
  pub rule : String
  pub agent : String
  pub authenticated_identity : Option String
  pub scope : Option String
  pub action : String
  pub subject : Option String

pub record Buffer : Type 0 where
  pub sequence : ℕ
  pub decisions : List Decision
  pub alarm_sequence : ℕ
  pub alarms : List AlarmRecord

pub record AuditLog : Type 0 where
  pub buffer : Option Buffer
  pub liveness : Liveness

-- The arguments of `record_authenticated`, with the clock that it reads.
pub record Observation : Type 0 where
  pub timestamp : ℤ
  pub outcome : String
  pub rule : String
  pub agent : String
  pub scope : Option String
  pub action : String
  pub subject : Option String
  pub authenticated_identity : Option String

abbrev pub numbered : ℕ → Observation → Decision
numbered sequence o = record {
  sequence = sequence;
  timestamp = o.timestamp;
  outcome = o.outcome;
  rule = o.rule;
  agent = o.agent;
  authenticated_identity = o.authenticated_identity;
  scope = o.scope;
  action = o.action;
  subject = o.subject;
}

-- `push_back`, then `pop_front` when there are too many
unfoldable pub push_bounded {ℓ} : {A : Type ℓ} → ℕ → List A → A → List A
push_bounded limit xs a =
    let pushed = xs ++ (a ∷ []) in if ltb limit (length pushed) then drop 1 pushed else pushed

unfoldable pub observe : Buffer → Observation → Buffer
observe b o =
    let sequence = saturating_suc b.sequence in
    record b {
      sequence = sequence;
      decisions = push_bounded capacity b.decisions (numbered sequence o);
    }

unfoldable pub record_authenticated : AuditLog → Observation → AuditLog
record_authenticated log o = elim log.buffer [
  | none ↦ log
  | some b ↦ record log { buffer = some (observe b o) }
]

unfoldable pub record_alarm : AuditLog → Alarm → Delivery → Option AlarmRecord × AuditLog
record_alarm log alarm state = elim log.buffer [
  | none ↦ (none, log)
  | some b ↦
      let id = saturating_suc b.alarm_sequence in
      let entry : AlarmRecord = record { id = id; alarm = alarm; delivery = state } in
      let next = record b {
        alarm_sequence = id;
        alarms = push_bounded alarm_capacity b.alarms entry;
      } in
      (some entry, record log { buffer = some next })
]

-- `iter_mut().find(..)`: the first record with the id
unfoldable pub set_delivery : ℕ → Delivery → List AlarmRecord → List AlarmRecord
set_delivery id state [] = []
set_delivery id state (r ∷ rest) =
    let later = set_delivery id state rest in
    if eqb r.id id then record r { delivery = state } ∷ rest else r ∷ later

unfoldable pub set_alarm_delivery : AuditLog → ℕ → Delivery → AuditLog
set_alarm_delivery log id state = elim log.buffer [
  | none ↦ log
  | some b ↦ record log { buffer = some (record b { alarms = set_delivery id state b.alarms }) }
]

unfoldable pub alarms : AuditLog → List AlarmRecord
alarms log = elim log.buffer [ none ↦ [] | some b ↦ reverse b.alarms ]

unfoldable pub snapshot_decisions : AuditLog → Option (ℕ × List Decision)
snapshot_decisions log = elim log.buffer [
  | none ↦ none
  | some b ↦ some (b.sequence, reverse b.decisions)
]

unfoldable pub rule : GateError → String
rule (identity_authentication _) = "identity_authentication"
rule (identity_grant _) = "identity_grant"
rule (grant_window _) = "grant_window"
rule (no_valid_iac _) = "iac_validity"
rule (invalid_iac_signature _) = "iac_signature"
rule (channel_denied _) = "channel_allowlist"
rule (model_denied _) = "model_allowlist"
rule (tool_denied _) = "tool_allowlist"
rule (repo_denied _) = "repository_allowlist"
rule (export_forbidden _) = "export_restriction"
rule context_bound_exceeded = "context_bound"
rule (session_degraded _ _) = "session_degraded"
rule (session_stale _ _) = "session_stale"
rule (connector _) = "connector_unavailable"
rule (registry _) = "request_or_registry_invalid"
rule (siem_export _) = "audit_export_unavailable"
rule (bus _) = "receipt_or_upstream_unavailable"

abbrev pub named_object : GateError → Option String
named_object (model_denied s) = some s
named_object (tool_denied s) = some s
named_object (repo_denied s) = some s
named_object _ = none

unfoldable pub subject : GateError → Option String
subject e = elim (named_object e) [
  | none ↦ none
  | some raw ↦ some (take_chars 128 (filter_chars (λ c. not (is_control c)) raw))
]
