-- ===== src/Gate/Alarm.antt =====
-- The data of membrane-gate/src/alarm.rs: alarms, their records and the configuration. A number of
-- the type f64 is of a type that `Floats` gives.
pub mod Engine
use the_membrane.Prelude.{
  ℕ, ℤ, String, Bool, Option, List, take_chars, filter_chars, is_ascii_alphanumeric,
}

-- The arithmetic of f64 that the alarms and the readings use: `n as f64`, `i as f64`, the
-- operations, `>=`, and the text of `{:.0}`.
pub record Floats : Type 1 where
  pub F64 : Type 0
  pub of_usize : ℕ → F64
  pub of_i64 : ℤ → F64
  pub divide : F64 → F64 → F64
  pub times : F64 → F64 → F64
  pub at_least : F64 → F64 → Bool
  pub round : F64 → String

pub data AlarmKind : Type 0 where
  stuck_agent deny_spike first_seen_identity grant_expiring : AlarmKind

unfoldable pub as_str : AlarmKind → String
as_str stuck_agent = "stuck_agent"
as_str deny_spike = "deny_spike"
as_str first_seen_identity = "first_seen_identity"
as_str grant_expiring = "grant_expiring"

pub data Delivery : Type 0 where
  pending delivered failed not_configured : Delivery

pub record Alarm : Type 0 where
  pub kind : AlarmKind
  pub raised_at : ℤ
  pub identity : Option String
  pub summary : String

pub record AlarmRecord : Type 0 where
  pub id : ℕ
  pub alarm : Alarm
  pub delivery : Delivery

pub record AlarmConfig (F64 : Type 0) : Type 0 where
  pub webhook_url : Option String
  pub secret : Option String
  pub secret_header : String
  pub known_identities : List String
  pub stuck_secs : ℤ
  pub spike_window_secs : ℤ
  pub spike_min_denies : ℕ
  pub spike_min_rate : F64
  pub grant_lead_secs : ℤ

abbrev pub alarm_capacity : ℕ
alarm_capacity = 100

abbrev pub delivery_attempts : ℕ
delivery_attempts = 3

abbrev pub default_secret_header : String
default_secret_header = "X-Membrane-Alarm-Secret"

abbrev pub identity_display_len : ℕ
identity_display_len = 64

unfoldable pub display_identity : String → String
display_identity id = take_chars identity_display_len (filter_chars is_ascii_alphanumeric id)
