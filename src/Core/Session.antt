-- ===== src/Core/Session.antt =====
-- membrane-core/src/session.rs: the session chain state of the router and its operations, with
-- `last_cp_hash_from_events` of membrane-core/src/rollup.rs. A method on `&mut self` returns the
-- new state. The proofs are in the modules below.
pub mod Sever
pub mod Bootstrap
pub mod Scopes
pub mod Anchor
use the_membrane.Prelude.{
  ℕ, ◌+◌, ◌%◌, ◌^◌, ℤ, pos, String, ◌==◌, Bool, true, false, ◌&&◌, ◌||◌, not, Option, none, some,
  List, [], ◌∷◌, if◌then◌else◌, Result, ok, err, saturating_sub, as_i64, ltb_ℤ, Map, lookup, insert,
  erase, contains_key, is_some, unwrap_or, format, decimal, decimal_ℤ,
}
use the_membrane.Core.Value.{
  Value, object, field, end, null, string, number, opt_string, str_field, and_then,
}
use the_membrane.Core.Event.{
  EventType, is_router, is_alert, MembraneEvent, MembranePayload, router, generic,
  RouterSessionPayload,
}
use the_membrane.Core.External.{External}
use the_membrane.Core.Hash.{cp_hash_hex, is_cp_event, genesis_cp_hash}

abbrev pub alert_reason_subject_sever : String
alert_reason_subject_sever = "subject_sever"

abbrev pub alert_reason_delta_t_exceeded : String
alert_reason_delta_t_exceeded = "delta_t_exceeded"

pub record SessionChainState : Type 0 where
  pub last_cp_hash : String
  pub last_event_id : Option String
  pub session_nonce : ℕ
  pub active_scope_id : Option String
  pub last_router_cp_at : Option ℤ
  pub degraded_scope_id : Option String
  pub degraded_at : Option ℤ
  pub degraded_reason : Option String
  pub scopes : Map (ℕ × Option ℤ)
  pub degraded_scopes : Map (String × ℤ)

abbrev pub genesis : SessionChainState
genesis = record {
  last_cp_hash = genesis_cp_hash;
  last_event_id = none;
  session_nonce = 0;
  active_scope_id = none;
  last_router_cp_at = none;
  degraded_scope_id = none;
  degraded_at = none;
  degraded_reason = none;
  scopes = [];
  degraded_scopes = [];
}

-- `a.as_deref() == Some(s)`
abbrev pub is_text : Option String → String → Bool
is_text none s = false
is_text (some a) s = a == s

-- The reason and the scope of an alert's payload.
unfoldable pub alert_degraded_fields : MembranePayload → Option String × Option String
alert_degraded_fields (generic value) = (str_field value "reason", str_field value "scope_id")
alert_degraded_fields (router payload) = (none, none)

abbrev opt_number : Option ℤ → Value
opt_number none = null
opt_number (some n) = number (decimal_ℤ n)

unfoldable pub alert_degraded_payload : String → String → Option ℤ → ℕ → MembranePayload
alert_degraded_payload reason scope_id last_cp_age_secs delta_t_secs = generic (
    object (
      field "reason" (string reason) (
        field "scope_id" (string scope_id) (
          field "last_cp_age_secs" (opt_number last_cp_age_secs)
            (field "delta_t_secs" (number (decimal delta_t_secs)) end)))))

unfoldable pub begin_scope : SessionChainState → String → SessionChainState × Bool
begin_scope c scope_id =
    let (nonce, at) = unwrap_or (lookup scope_id c.scopes) (0, none) in
    if is_text c.active_scope_id scope_id then (c, false) else (
      record c { active_scope_id = some scope_id; session_nonce = nonce; last_router_cp_at = at },
      true,
    )

unfoldable pub next_parent_cp_hash : SessionChainState → String → String
next_parent_cp_hash c iac_parent_cp_hash =
    if c.last_cp_hash == genesis_cp_hash then iac_parent_cp_hash else c.last_cp_hash

-- `+= 1` on a u64 wraps around in release builds; the server counts by `checked_add`.
unfoldable pub next_session_nonce : SessionChainState → SessionChainState × ℕ
next_session_nonce c =
    let nonce = (c.session_nonce + 1) % 2 ^ 64 in (record c { session_nonce = nonce }, nonce)

-- `scopes.insert(scope, (nonce, Some(at)))` where a scope is active
abbrev note_scope : Option String → ℕ × Option ℤ → Map (ℕ × Option ℤ) → Map (ℕ × Option ℤ)
note_scope none entry scopes = scopes
note_scope (some scope) entry scopes = insert scope entry scopes

unfoldable pub record_cp : SessionChainState → String → Option String → ℤ → SessionChainState
record_cp c cp_hash bus_event_id at = record c {
  last_cp_hash = cp_hash;
  last_event_id = bus_event_id;
  last_router_cp_at = some at;
  scopes = note_scope c.active_scope_id (c.session_nonce, some at) c.scopes;
}

unfoldable pub mark_degraded : SessionChainState → String → String → ℤ → SessionChainState
mark_degraded c scope_id reason at = record c {
  degraded_scopes = insert scope_id (reason, at) c.degraded_scopes;
  degraded_scope_id = some scope_id;
  degraded_at = some at;
  degraded_reason = some reason;
}

unfoldable pub clear_degraded_for_scope : SessionChainState → String → SessionChainState
clear_degraded_for_scope c scope_id =
    let cleared = record c { degraded_scopes = erase scope_id c.degraded_scopes } in
    if is_text c.degraded_scope_id scope_id
    then record cleared { degraded_scope_id = none; degraded_at = none; degraded_reason = none }
    else cleared

-- `at.map(|ts| now.saturating_sub(ts))`
abbrev pub age_since : Option ℤ → ℤ → Option ℤ
age_since none now = none
age_since (some at) now = some (saturating_sub now at)

unfoldable pub last_router_cp_age_secs : SessionChainState → ℤ → Option ℤ
last_router_cp_age_secs c now = age_since c.last_router_cp_at now

unfoldable pub is_scope_degraded : SessionChainState → String → Bool
is_scope_degraded c scope_id =
    contains_key scope_id c.degraded_scopes || is_text c.degraded_scope_id scope_id

unfoldable pub scope_router_cp_age_secs : SessionChainState → String → ℤ → Option ℤ
unfolding last_router_cp_age_secs
scope_router_cp_age_secs c scope_id now =
    if is_text c.active_scope_id scope_id
    then last_router_cp_age_secs c now
    else age_since (and_then (lookup scope_id c.scopes) (λ entry. entry.1)) now

abbrev older : Option ℤ → ℤ → Bool
older none limit = false
older (some age) limit = ltb_ℤ limit age

-- `delta_t_secs as i64` wraps: a limit of 2^63 seconds or more is negative.
unfoldable pub is_router_stale : SessionChainState → ℤ → ℕ → Bool
is_router_stale c now delta_t_secs = older (age_since c.last_router_cp_at now) (as_i64 delta_t_secs)

unfoldable pub validate_iac_anchor : SessionChainState → String → Bool → Result String (Unit {0})
validate_iac_anchor c iac_parent_cp_hash new_scope =
    if not new_scope
    then ok tt
    else if iac_parent_cp_hash == genesis_cp_hash
    then (if not (c.last_cp_hash == genesis_cp_hash)
        then err "session IAC must set parent_cp_hash to current chain head (use `iac issue`)"
        else ok tt)
    else if not (iac_parent_cp_hash == c.last_cp_hash)
    then err (
        format
          ("IAC parent_cp_hash does not match chain head (expected " ∷ c.last_cp_hash ∷ ")" ∷ []))
    else ok tt

module _ (x : External) where
  abbrev with_hash : SessionChainState → Result String String → SessionChainState
  with_hash c (ok hash) = record c { last_cp_hash = hash }
  with_hash c (err e) = c

  abbrev with_scope : SessionChainState → Option String → ℕ → ℤ → SessionChainState
  with_scope c none nonce at = c
  with_scope c (some scope) nonce at = record c {
    scopes = insert scope (nonce, some at) c.scopes;
    active_scope_id = some scope;
  }

  -- The branch for a router receipt; the second part is `last_router_nonce`.
  abbrev note_router : SessionChainState × ℕ → MembranePayload → ℤ → SessionChainState × ℕ
  note_router (c, nonce) (router p) at = (
    with_scope (record c { last_router_cp_at = some at }) p.scope_id p.session_nonce at,
    p.session_nonce,
  )
  note_router (c, nonce) (generic v) at = (record c { last_router_cp_at = some at }, nonce)

  abbrev note_degraded_scope :
      Map (String × ℤ) → Option String → Option String → ℤ → Map (String × ℤ)
  note_degraded_scope m none reason at = m
  note_degraded_scope m (some scope) reason at = insert scope (unwrap_or reason "degraded", at) m

  -- The branch for an alert.
  abbrev note_alert : SessionChainState → MembranePayload → ℤ → SessionChainState
  note_alert c payload at =
      let (reason, scope_id) = alert_degraded_fields payload in
      record c {
        degraded_scopes = note_degraded_scope c.degraded_scopes scope_id reason at;
        degraded_scope_id = scope_id;
        degraded_at = some at;
        degraded_reason = reason;
      }

  -- The two branches for receipts.
  unfoldable pub note_receipt : SessionChainState × ℕ → MembraneEvent → SessionChainState × ℕ
  note_receipt (c, nonce) event =
      let hashed = if is_cp_event event.event_type then with_hash c (cp_hash_hex x event) else c in
      if is_router event.event_type
      then note_router (hashed, nonce) event.payload event.timestamp
      else (hashed, nonce)

  -- One round of the loop of `from_bus_events`.
  unfoldable pub note_event : String → SessionChainState × ℕ → MembraneEvent → SessionChainState × ℕ
  note_event subject s event =
      let (noted, nonce) = note_receipt s event in
      if not (event.subject_pubkey == subject) then s else (
        if is_alert event.event_type then note_alert noted event.payload event.timestamp else noted,
        nonce,
      )

  unfoldable pub note_events :
      String → SessionChainState × ℕ → List MembraneEvent → SessionChainState × ℕ
  note_events subject s [] = s
  note_events subject s (event ∷ events) = note_events subject (note_event subject s event) events

  unfoldable pub from_bus_events : List MembraneEvent → String → SessionChainState
  unfolding note_events
  from_bus_events events subject =
      let (c, last_router_nonce) = note_events subject (genesis, 0) events in
      record c { session_nonce = last_router_nonce }

  abbrev hash_or : String → Result String String → String
  hash_or last (ok hash) = hash
  hash_or last (err e) = last

  unfoldable pub last_hash_step : String → String → MembraneEvent → String
  last_hash_step subject last event =
      if not (event.subject_pubkey == subject)
      then last
      else if not (is_cp_event event.event_type)
      then last
      else hash_or last (cp_hash_hex x event)

  unfoldable pub last_hash_from : String → String → List MembraneEvent → String
  unfolding last_hash_step
  last_hash_from subject last [] = last
  last_hash_from subject last (event ∷ events) =
      last_hash_from subject (last_hash_step subject last event) events

  -- `last_cp_hash_from_events` of rollup.rs
  unfoldable pub last_cp_hash_from_events : List MembraneEvent → String → String
  unfolding last_hash_from
  last_cp_hash_from_events events subject = last_hash_from subject genesis_cp_hash events
