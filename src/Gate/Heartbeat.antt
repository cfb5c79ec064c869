-- ===== src/Gate/Heartbeat.antt =====
-- `Liveness` of membrane-gate/src/liveness.rs: the heartbeat of the gate and its report. The atomic
-- cell is a field; the task that beats on an interval is left out.
use the_membrane.Prelude.{ℕ, ℤ, pos, Bool, ◌&&◌, leb_ℤ, saturating_sub, wrapping_sub, max_ℤ, ◌*◌}

abbrev pub heartbeat_interval_secs : ℕ
heartbeat_interval_secs = 5

abbrev pub heartbeat_stale_secs : ℤ
heartbeat_stale_secs = pos (3 * heartbeat_interval_secs)

pub record Liveness : Type 0 where
  pub started_at : ℤ
  pub last_beat : ℤ

pub record LivenessReport : Type 0 where
  pub started_at : ℤ
  pub uptime_secs : ℤ
  pub heartbeat_age_secs : ℤ
  pub heartbeat_ok : Bool

unfoldable pub new : ℤ → Liveness
new now = record { started_at = now; last_beat = now }

unfoldable pub beat : Liveness → ℤ → Liveness
beat l now = record l { last_beat = now }

unfoldable pub report : Liveness → ℤ → LivenessReport
report l now =
    let raw_age = wrapping_sub now l.last_beat in
    record {
      started_at = l.started_at;
      uptime_secs = max_ℤ (saturating_sub now l.started_at) (pos 0);
      heartbeat_age_secs = max_ℤ raw_age (pos 0);
      heartbeat_ok = leb_ℤ (pos 0) raw_age && leb_ℤ raw_age heartbeat_stale_secs;
    }
