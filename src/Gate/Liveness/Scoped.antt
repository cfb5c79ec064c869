-- ===== src/Gate/Liveness/Scoped.antt =====
-- Each scope is live by its own receipts.
use the_membrane.Prelude.{
  ℤ, String, ◌&&◌, not, some, List, [], ◌∷◌, as_i64, lookup, is_ok, eq_iff, Option-cases, inl, inr,
  arith, ◌≡◌, sym,
}
use the_membrane.Core.Session.{
  SessionChainState, begin_scope, record_cp, age_since, is_scope_degraded, scope_router_cp_age_secs,
  last_router_cp_age_secs,
}
use the_membrane.Core.Session.Scopes.{
  IsSynced, stored, Turn, turn, turns, last_at, turn-stored, turn-IsSynced,
}
use the_membrane.Gate.Registry.{Gate}
use the_membrane.Gate.Liveness.{check_session_liveness, not_older, check_session_liveness_exact}

-- The age is told by what the chain holds of the scope, whether it is the active one or not.
scope_router_cp_age_secs-stored :
    (c : SessionChainState) (s : String) (now : ℤ)
    → IsSynced c
    → scope_router_cp_age_secs c s now ≡ age_since (stored c s).1 now
unfolding scope_router_cp_age_secs last_router_cp_age_secs
scope_router_cp_age_secs-stored c s now h = elim (Option-cases c.active_scope_id) [
  | inl e ↦ elim (Option-cases (lookup s c.scopes)) [
    | inl missing ↦ ground arith
    | inr (entry, found) ↦ ground arith
  ]
  | inr (a, e) ↦ elim (Option-cases (lookup s c.scopes)) [
    | inl missing ↦ ground (arith, h.synced s, eq_iff a s)
    | inr (entry, found) ↦ ground (arith, h.synced s, eq_iff a s)
  ]
]

turn-is_scope_degraded :
    (c : SessionChainState) (t : Turn) (s : String) {d : SessionChainState}
    → turn c t ≡ some d
    → is_scope_degraded d s ≡ is_scope_degraded c s
unfolding turn begin_scope record_cp is_scope_degraded
turn-is_scope_degraded c t s h = ground arith

turns-cons :
    (c : SessionChainState) (t : Turn) (ts : List Turn) {e : SessionChainState}
    → turns c (t ∷ ts) ≡ some e
    → (d : SessionChainState) × (turn c t ≡ some d) × (turns d ts ≡ some e)
unfolding turns
turns-cons c t ts h = elim (Option-cases (turn c t)) [
  | inl failed ↦ cc
  | inr (d, taken) ↦ (d, taken, ground arith)
]

-- From a chain in which the active scope's fields are those of its entry, after any turns of any
-- scopes that were accepted: a scope is live exactly if it was not degraded and its own last receipt
-- among the turns, or else the one that the chain held before, is not older than the limit. A scope
-- without a receipt has no age.
pub check_session_liveness-turns :
    (gate : Gate) (c : SessionChainState) (ts : List Turn) (s : String) (now : ℤ)
    (d : SessionChainState)
    → IsSynced c
    → turns c ts ≡ some d
    → is_ok (check_session_liveness gate d s now) ≡ (
        not (is_scope_degraded c s)
        && not_older
            (age_since (last_at s (stored c s).1 ts) now)
            (as_i64 gate.policy.delta_t_secs))
unfolding turns
check_session_liveness-turns gate c [] s now d h run =
    let same : c ≡ d = cc in
    rw (sym same) (
      ground (
        arith,
        check_session_liveness_exact gate c s now,
        scope_router_cp_age_secs-stored c s now h,
      ))
check_session_liveness-turns gate c (t ∷ ts) s now d h run =
    let (e, taken, later) = turns-cons c t ts run in
    let rest = check_session_liveness-turns gate e ts s now d (turn-IsSynced c t h taken) later in
    ground (arith, rest, turn-stored c t s h taken, turn-is_scope_degraded c t s taken)
