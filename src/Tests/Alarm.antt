-- ===== src/Tests/Alarm.antt =====
-- Examples of the audit log, the alarms and the calls of GitHub.
use the_membrane.Gate.Github.{preflight}
use the_membrane.Prelude.{
  all_chars, trim, ℕ, ◌-◌, ◌*◌, pos, String, [], ◌∷◌, none, some, ok, err, ◌≡◌, refl, arith, leb,
  drop, decimal, format, len, slice_to,
}
use mathlib.Core.List.{reverse}
use the_membrane.Gate.Alarm.{Floats, AlarmConfig}
use the_membrane.Gate.Alarm.Engine.{new, evaluate}
use the_membrane.Gate.Alarm.Engine.Again.{evaluate-again}
use the_membrane.Gate.Audit.{AuditLog, Decision, Observation, capacity, snapshot_decisions}
use the_membrane.Gate.Audit.Bounded.{
  empty_buffer, record_each, unbounded, record_each-snapshot_decisions,
}
use the_membrane.Gate.Github.Execute.{
  call_tool, execute_with, post_comment, read_answer, redact_tokenish, Web, execute,
}
use the_membrane.Gate.Github.Execute.Panics.{CutInside, execute-none}
use the_membrane.Tests.{flat}
use the_membrane.Tests.Gate.{config, request}

-- A rate as its two numbers.
abbrev ratios : Floats
ratios = record {
  F64 = ℕ × ℕ;
  of_usize = λ n. (n, 1);
  of_i64 = λ i. (0, 1);
  divide = λ a b. (a.0 * b.1, a.1 * b.0);
  times = λ a b. (a.0 * b.0, a.1 * b.1);
  at_least = λ a b. leb (b.0 * a.1) (a.0 * b.1);
  round = λ a. decimal a.0;
}

abbrev alarm_config : AlarmConfig (ℕ × ℕ)
alarm_config = record {
  webhook_url = none;
  secret = none;
  secret_header = "X";
  known_identities = "aa" ∷ [];
  stuck_secs = pos 900;
  spike_window_secs = pos 300;
  spike_min_denies = 2;
  spike_min_rate = (1, 2);
  grant_lead_secs = pos 86400;
}

abbrev refused : ℕ → Decision
refused n = record {
  sequence = n;
  timestamp = pos (100 * n);
  outcome = "deny";
  rule = "tool_allowlist";
  agent = "gate";
  authenticated_identity = some "AA";
  scope = none;
  action = "tool";
  subject = none;
}

evaluate-again_example :
    (evaluate ratios
      (evaluate ratios (new alarm_config) (pos 1050) (refused 2 ∷ refused 1 ∷ [])).1
      (pos 1050)
      (refused 2 ∷ refused 1 ∷ [])).0
    ≡ []
evaluate-again_example =
    evaluate-again ratios (new alarm_config) (pos 1050) (refused 2 ∷ refused 1 ∷ [])

abbrev seen : Observation
seen = record {
  timestamp = pos 100;
  outcome = "allow";
  rule = "all_authorization_checks_passed";
  agent = "gate";
  scope = some "scope";
  action = "tool";
  subject = none;
  authenticated_identity = some "AA";
}

abbrev log : AuditLog
log = record {
  buffer = some empty_buffer;
  liveness = record { started_at = pos 0; last_beat = pos 0 };
}

record_each-snapshot_decisions_example :
    snapshot_decisions (record_each log (seen ∷ seen ∷ []))
    ≡ some (2, reverse (drop (2 - capacity) (unbounded 0 (seen ∷ seen ∷ []))))
record_each-snapshot_decisions_example =
    record_each-snapshot_decisions log (seen ∷ seen ∷ []) refl (omega arith)

abbrev ten : String → String
ten s = format (s ∷ s ∷ s ∷ s ∷ s ∷ s ∷ s ∷ s ∷ s ∷ s ∷ [])

-- 239 bytes, and then a letter of two bytes
abbrev long : String
long = format (ten "aaaaaaaaaaaaaaaaaaaaaaa" ∷ "aaaaaaaaa" ∷ "é" ∷ [])

abbrev failing_web : Web
failing_web = record { call = λ c. ok (500, long); from_str = λ s. err "no" }

panics : execute flat failing_web config request ≡ none
unfolding execute execute_with preflight all_chars format trim call_tool post_comment read_answer
    redact_tokenish len slice_to
panics = refl

execute-none_example : CutInside failing_web
execute-none_example = execute-none flat failing_web config request panics
