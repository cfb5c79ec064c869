-- ===== src/Gate/Siem/Status.antt =====
-- `SiemExporter::status` of membrane-gate/src/siem_export.rs; `now` is its clock.
use the_membrane.Prelude.{
  ℕ, ℤ, ◌*◌, ◌%◌, ◌^◌, String, Bool, true, false, ◌||◌, Option, none, some, List, [], ◌∷◌, length,
  ltb, ltb_ℤ, wrapping_sub, as_i64, if◌then◌else◌,
}
use the_membrane.Gate.Siem.{ExportConfig, FailureMode, Envelope}
use the_membrane.Gate.Siem.Queue.{State}

pub record ExportStatus : Type 0 where
  pub enabled : Bool
  pub failure_mode : FailureMode
  pub state : String
  pub pending : ℕ
  pub capacity : ℕ
  pub oldest_pending_age_secs : Option ℤ
  pub last_success_age_secs : Option ℤ
  pub consecutive_failures : ℕ
  pub dropped_total : ℕ
  pub delivered_total : ℕ
  pub last_error : Option String

abbrev oldest : List Envelope → ℤ → Option ℤ
oldest [] now = none
oldest (e ∷ _) now = some (wrapping_sub now e.ts)

abbrev age_since : Option ℤ → ℤ → Option ℤ
age_since none now = none
age_since (some t) now = some (wrapping_sub now t)

abbrev is_older : ℤ → Option ℤ → Bool
is_older limit none = false
is_older limit (some age) = ltb_ℤ limit age

unfoldable pub status : ExportConfig → State → ℤ → ExportStatus
status cfg st now =
    let age = oldest st.pending now in
    let degraded =
      st.io_failed
      || st.overflow_open
      || ltb 0 st.consecutive_failures
      || is_older (as_i64 (cfg.flush_interval_secs * 4 % 2 ^ 64)) age in
    record {
      enabled = true;
      failure_mode = cfg.failure_mode;
      state = if degraded then "degraded" else "ok";
      pending = length st.pending;
      capacity = cfg.max_buffered_events;
      oldest_pending_age_secs = age;
      last_success_age_secs = age_since st.last_success now;
      consecutive_failures = st.consecutive_failures;
      dropped_total = st.dropped_total;
      delivered_total = st.delivered_total;
      last_error = st.last_error;
    }
