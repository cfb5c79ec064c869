-- ===== src/Gate/Alarm/Engine.antt =====
-- `Engine` of membrane-gate/src/alarm.rs, which derives alarms from the log of decisions. A set is
-- a list without repetitions, the streaks are in the order of their keys, and `-` wraps around.
pub mod Again
use the_membrane.Prelude.{
  ℕ, ℤ, pos, ◌+◌, ◌≡◌, String, ◌==◌, Bool, true, false, ◌&&◌, ◌||◌, not, Option, none, some, List,
  [], ◌∷◌, ◌++◌, any, all, select, contains, length, ltb, leb, leb_ℤ, ltb_ℤ, eqb_ℤ, wrapping_sub,
  wrapping_add, div_ℤ, Map, insert, erase, lookup, str_lt, sort_by, unwrap_or, format, decimal,
  decimal_ℤ, to_ascii_lowercase, if◌then◌else◌, map,
}
use mathlib.Core.List.{reverse}
use the_membrane.Gate.Alarm.{
  Floats, AlarmConfig, Alarm, stuck_agent, deny_spike, first_seen_identity, grant_expiring,
  display_identity,
}
use the_membrane.Gate.Audit.{Decision}

pub record Streak : Type 0 where
  pub first_deny_at : ℤ
  pub last_deny_at : ℤ
  pub denies : ℕ

pub record Engine (F64 : Type 0) : Type 0 where
  pub config : AlarmConfig F64
  pub last_sequence : ℕ
  pub seen : List String
  pub allowed_before : List String
  pub streaks : Map Streak
  pub stuck_raised : List String
  pub spike_active : Bool
  pub expiring_raised : List (String × ℤ)

-- `insert` into a set
abbrev pub add_key : String → List String → List String
add_key k ks = if contains ks k then ks else k ∷ ks

abbrev pub same_window : String × ℤ → String × ℤ → Bool
same_window (id, t) (other, u) = id == other && eqb_ℤ t u

abbrev pub has_window : List (String × ℤ) → String × ℤ → Bool
has_window ws w = any (same_window w) ws

abbrev pub add_window : String × ℤ → List (String × ℤ) → List (String × ℤ)
add_window w ws = if has_window ws w then ws else w ∷ ws

-- The order of pairs
abbrev pub window_le : String × ℤ → String × ℤ → Bool
window_le (id, t) (other, u) = str_lt id other || (id == other && leb_ℤ t u)

abbrev pub windows : List (String × ℤ) → List (String × ℤ)
windows [] = []
windows ((id, t) ∷ rest) = add_window (to_ascii_lowercase id, t) (windows rest)

abbrev pub time_left : ℤ → String
time_left remaining =
    if leb_ℤ (pos 3600) remaining
    then format (decimal_ℤ (div_ℤ remaining 3600) ∷ " hours" ∷ [])
    else format (decimal_ℤ (div_ℤ (wrapping_add remaining (pos 59)) 60) ∷ " minutes" ∷ [])

abbrev pub expiring_alarm : ℤ → String × ℤ → Alarm
expiring_alarm now (id, until) = record {
  kind = grant_expiring;
  raised_at = now;
  identity = some (display_identity id);
  summary = format (
      "Grant for identity "
      ∷ display_identity id
      ∷ " expires in about "
      ∷ time_left (wrapping_sub until now)
      ∷ ". Renewal is an operator registry edit."
      ∷ []);
}

abbrev pub first_seen_alarm : ℤ → String → String → Alarm
first_seen_alarm now identity outcome = record {
  kind = first_seen_identity;
  raised_at = now;
  identity = some (display_identity identity);
  summary = format (
      "First request from identity "
      ∷ display_identity identity
      ∷ " since the gate started; outcome: "
      ∷ outcome
      ∷ "."
      ∷ []);
}

abbrev pub stuck_alarm : ℤ → String × Streak → Alarm
stuck_alarm now (id, s) = record {
  kind = stuck_agent;
  raised_at = now;
  identity = some (display_identity id);
  summary = format (
      "Identity "
      ∷ display_identity id
      ∷ " has been denied "
      ∷ decimal s.denies
      ∷ " times over "
      ∷ decimal_ℤ (div_ℤ (wrapping_sub now s.first_deny_at) 60)
      ∷ " minutes with no allowed request in between."
      ∷ []);
}

-- `entry(key).or_insert(..)`, and then the denial is counted
abbrev pub deny_again : ℤ → Option Streak → Streak
deny_again at none = record { first_deny_at = at; last_deny_at = at; denies = 1 }
deny_again at (some s) = record s { last_deny_at = at; denies = s.denies + 1 }

abbrev pub later_of : ℕ → ℕ → ℕ
later_of a b = if ltb a b then b else a

abbrev pub is_due : ℤ → ℤ → List (String × ℤ) → String × ℤ → Bool
is_due now lead raised w =
    ltb_ℤ now w.1 && leb_ℤ (wrapping_sub w.1 now) lead && not (has_window raised w)

unfoldable pub due : ℤ → ℤ → List (String × ℤ) → List (String × ℤ) → List (String × ℤ)
due now lead raised live = sort_by window_le (select (is_due now lead raised) live)

-- One alarm for each due window, which is noted as raised.
unfoldable pub raise_each :
    ℤ → List (String × ℤ) → List (String × ℤ) → List Alarm × List (String × ℤ)
raise_each now [] raised = ([], raised)
raise_each now (w ∷ rest) raised =
    let (alarms, noted) = raise_each now rest (add_window w raised) in
    (expiring_alarm now w ∷ alarms, noted)

abbrev pub add_keys : List (String × Streak) → List String → List String
add_keys [] ks = ks
add_keys ((id, s) ∷ rest) ks = add_keys rest (add_key id ks)

module _ {F64 : Type 0} where
  unfoldable pub new : AlarmConfig F64 → Engine F64
  new config = record {
    config = config;
    last_sequence = 0;
    seen = config.known_identities;
    allowed_before = config.known_identities;
    streaks = [];
    stuck_raised = [];
    spike_active = false;
    expiring_raised = [];
  }

  unfoldable pub evaluate_grants : Engine F64 → ℤ → List (String × ℤ) → List Alarm × Engine F64
  evaluate_grants e now grants =
      let live = windows grants in
      let kept = record e { expiring_raised = select (has_window live) e.expiring_raised } in
      let (alarms, raised) =
        raise_each now (due now e.config.grant_lead_secs kept.expiring_raised live)
          kept.expiring_raised in
      (alarms, record kept { expiring_raised = raised })

  -- A decision by a verified caller.
  unfoldable pub note_identity : ℤ → Decision → String → Engine F64 → List Alarm × Engine F64
  note_identity now d identity e =
      let key = to_ascii_lowercase identity in
      let alarms =
        if contains e.seen key then [] else first_seen_alarm now identity d.outcome ∷ [] in
      let known = record e { seen = add_key key e.seen } in
      if d.outcome == "allow"
      then (
        alarms,
        record known {
          allowed_before = add_key key e.allowed_before;
          streaks = erase key e.streaks;
          stuck_raised = select (λ k. not (k == key)) e.stuck_raised;
        },
      )
      else (
        alarms,
        record known {
          streaks = insert key (deny_again d.timestamp (lookup key e.streaks)) e.streaks;
        },
      )

  unfoldable pub note_caller : ℤ → Decision → Option String → Engine F64 → List Alarm × Engine F64
  note_caller now d none e = ([], e)
  note_caller now d (some identity) e = note_identity now d identity e

  unfoldable pub note_decision : ℤ → Decision → Engine F64 → List Alarm × Engine F64
  note_decision now d e =
      let counted = record e { last_sequence = later_of e.last_sequence d.sequence } in
      note_caller now d d.authenticated_identity counted

  unfoldable pub note_each : ℤ → List Decision → Engine F64 → List Alarm × Engine F64
  note_each now [] e = ([], e)
  note_each now (d ∷ rest) e =
      let (alarms, next) = note_decision now d e in
      let (others, last) = note_each now rest next in (alarms ++ others, last)

  -- The first loop of `evaluate`: `ds` is newest first.
  unfoldable pub note_fresh : ℤ → List Decision → Engine F64 → List Alarm × Engine F64
  note_fresh now ds e = note_each now (select (λ d. ltb e.last_sequence d.sequence) (reverse ds)) e

  unfoldable pub is_stuck : ℤ → Engine F64 → String × Streak → Bool
  is_stuck now e (id, s) =
      contains e.allowed_before id
      && not (contains e.stuck_raised id)
      && leb 2 s.denies
      && leb_ℤ e.config.stuck_secs (wrapping_sub now s.first_deny_at)
      && leb_ℤ (wrapping_sub now s.last_deny_at) e.config.stuck_secs

  unfoldable pub stuck : ℤ → Engine F64 → List (String × Streak)
  stuck now e = sort_by (λ a b. not (str_lt b.0 a.0)) (select (is_stuck now e) e.streaks)

  -- The part of `evaluate` on stuck agents.
  unfoldable pub raise_stuck : ℤ → Engine F64 → List Alarm × Engine F64
  raise_stuck now e =
      let found = stuck now e in
      (map (stuck_alarm now) found, record e { stuck_raised = add_keys found e.stuck_raised })

-- How many decisions since `from` had the outcome.
abbrev pub count_since : ℤ → String → List Decision → ℕ
count_since from outcome ds =
    length (select (λ d. leb_ℤ from d.timestamp && d.outcome == outcome) ds)

module _ (fl : Floats) where
  abbrev pub rate : ℕ → ℕ → fl.F64
  rate denied total =
      if ltb 0 total then fl.divide (fl.of_usize denied) (fl.of_usize total) else fl.of_usize 0

  abbrev pub spike_alarm : ℤ → ℤ → ℕ → ℕ → Alarm
  spike_alarm now window denied total = record {
    kind = deny_spike;
    raised_at = now;
    identity = none;
    summary = format (
        decimal denied
        ∷ " of "
        ∷ decimal total
        ∷ " decisions were denied in the last "
        ∷ decimal_ℤ (div_ℤ window 60)
        ∷ " minutes ("
        ∷ fl.round (fl.times (rate denied total) (fl.of_usize 100))
        ∷ "%)."
        ∷ []);
  }

  -- The last part of `evaluate`.
  unfoldable pub check_spike : ℤ → List Decision → Engine fl.F64 → List Alarm × Engine fl.F64
  check_spike now ds e =
      let from = wrapping_sub now e.config.spike_window_secs in
      let denied = count_since from "deny" ds in
      let total = count_since from "allow" ds + denied in
      let spiking =
        leb e.config.spike_min_denies denied
        && fl.at_least (rate denied total) e.config.spike_min_rate in
      (
        if spiking && not e.spike_active
            then spike_alarm now e.config.spike_window_secs denied total ∷ []
            else [],
        record e { spike_active = spiking },
      )

  unfoldable pub evaluate : Engine fl.F64 → ℤ → List Decision → List Alarm × Engine fl.F64
  evaluate e now ds =
      let (first_seen, noted) = note_fresh now ds e in
      let (stuck_now, raised) = raise_stuck now noted in
      let (spikes, last) = check_spike now ds raised in (first_seen ++ (stuck_now ++ spikes), last)
