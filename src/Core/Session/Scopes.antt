-- ===== src/Core/Session/Scopes.antt =====
-- Scopes that take turns: the counter and the clock of one scope do not depend on the others.
use the_membrane.Prelude.{
  ℕ, ◌+◌, ◌<◌, ◌≤◌, refl, u64_max, eq_refl, suc, ℤ, String, ◌≡◌, ◌==◌, eq_iff, Option, none, some,
  List, [], ◌∷◌, arith, lookup, lookup-insert, Option-cases, inl, inr, unwrap_or, checked_suc,
  if◌then◌else◌,
}
use the_membrane.Core.Value.{and_then}
use the_membrane.Core.Session.{SessionChainState, genesis, begin_scope, record_cp}

-- What the chain holds of a scope: its nonce and the time of its last receipt.
abbrev pub stored : SessionChainState → String → ℕ × Option ℤ
stored c s = unwrap_or (lookup s c.scopes) (0, none)

-- The active scope's own fields are the ones that the map holds.
pub record IsSynced (c : SessionChainState) : Type 0 where
  pub synced :
      (s : String)
      → c.active_scope_id ≡ some s
      → stored c s ≡ (c.session_nonce, c.last_router_cp_at)

pub record Turn : Type 0 where
  pub scope : String
  pub hash : String
  pub bus_event_id : Option String
  pub at : ℤ

abbrev recorded : SessionChainState → Turn → Option ℕ → Option SessionChainState
recorded c t none = none
recorded c t (some nonce) =
    some (record_cp (record c { session_nonce = nonce }) t.hash t.bus_event_id t.at)

-- One accepted call of the server: enter the scope, count, record the receipt.
unfoldable pub turn : SessionChainState → Turn → Option SessionChainState
turn c t = let c' = (begin_scope c t.scope).0 in recorded c' t (checked_suc c'.session_nonce)

unfoldable pub turns : SessionChainState → List Turn → Option SessionChainState
unfolding turn
turns c [] = some c
turns c (t ∷ ts) = and_then (turn c t) (λ d. turns d ts)

abbrev pub count : String → List Turn → ℕ
count s [] = 0
count s (t ∷ ts) = let rest = count s ts in if t.scope == s then suc rest else rest

abbrev pub last_at : String → Option ℤ → List Turn → Option ℤ
last_at s at [] = at
last_at s at (t ∷ ts) = last_at s (if t.scope == s then some t.at else at) ts

begin_scope-IsSynced :
    (c : SessionChainState) (t : String) → IsSynced c → IsSynced (begin_scope c t).0
unfolding begin_scope
begin_scope-IsSynced c t h = record { synced = λ s e. ground (arith, h.synced s, eq_iff t s) }

begin_scope-active :
    (c : SessionChainState) (t : String) → (begin_scope c t).0.active_scope_id ≡ some t
unfolding begin_scope
begin_scope-active c t = elim (Option-cases c.active_scope_id) [
  | inl e ↦ ground arith
  | inr (a, e) ↦ ground (arith, eq_iff a t)
]

begin_scope-scopes : (c : SessionChainState) (t : String) → (begin_scope c t).0.scopes ≡ c.scopes
unfolding begin_scope
begin_scope-scopes c t = ground arith

-- What one turn changes of what the chain holds.
pub turn-stored :
    (c : SessionChainState) (t : Turn) (s : String) {d : SessionChainState}
    → IsSynced c
    → turn c t ≡ some d
    → stored d s ≡ (if t.scope == s then ((stored c s).0 + 1, some t.at) else stored c s)
unfolding turn record_cp
turn-stored c t s {d} h e =
    let c' = (begin_scope c t.scope).0 in
    ground (
      arith,
      (begin_scope-IsSynced c t.scope h).synced t.scope (begin_scope-active c t.scope),
      begin_scope-active c t.scope,
      begin_scope-scopes c t.scope,
      lookup-insert t.scope s (c'.session_nonce + 1, some t.at) c'.scopes,
      eq_iff t.scope s,
    )

pub turn-IsSynced :
    (c : SessionChainState) (t : Turn) {d : SessionChainState}
    → IsSynced c
    → turn c t ≡ some d
    → IsSynced d
unfolding turn record_cp
turn-IsSynced c t {d} h e = record {
  synced = λ s a.
      let c' = (begin_scope c t.scope).0 in
      ground (
        arith,
        begin_scope-active c t.scope,
        lookup-insert t.scope s (c'.session_nonce + 1, some t.at) c'.scopes,
        eq_iff t.scope s,
      );
}

turn_total :
    (c : SessionChainState) (t : Turn)
    → IsSynced c
    → (stored c t.scope).0 < u64_max
    → (d : SessionChainState) × (turn c t ≡ some d)
unfolding turn
turn_total c t h room =
    let c' = (begin_scope c t.scope).0 in
    (
      record_cp (record c' { session_nonce = c'.session_nonce + 1 }) t.hash t.bus_event_id t.at,
      ground (
        arith,
        (begin_scope-IsSynced c t.scope h).synced t.scope (begin_scope-active c t.scope),
        begin_scope-scopes c t.scope,
      ),
    )

-- While no counter is exhausted, any interleaving of scopes is accepted, and afterwards the nonce of
-- each scope has grown by the number of its own turns and its clock is that of its own last turn.
pub turns-stored :
    (c : SessionChainState) (ts : List Turn)
    → IsSynced c
    → ((s : String) → (stored c s).0 + count s ts ≤ u64_max)
    → (d : SessionChainState) × (turns c ts ≡ some d)
      × ((s : String) → stored d s ≡ ((stored c s).0 + count s ts, last_at s (stored c s).1 ts))
unfolding turns
turns-stored c [] h room = (c, refl, λ s. ground arith)
turns-stored c (t ∷ ts) h room =
    let (d, e) = turn_total c t h (ground (arith, room t.scope, eq_refl t.scope)) in
    let (f, run, views) =
      turns-stored d ts (turn-IsSynced c t h e)
        (λ s. ground (arith, room s, turn-stored c t s h e)) in
    (f, rw e run, λ s. ground (arith, views s, turn-stored c t s h e))

pub genesis-IsSynced : IsSynced genesis
genesis-IsSynced = record { synced = λ s e. cc }
