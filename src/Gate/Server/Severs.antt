-- ===== src/Gate/Server/Severs.antt =====
-- Only the operator's signed alerts cut a scope off, and each of them does.
use the_membrane.Prelude.{
  String, ◌==◌, Bool, false, ◌&&◌, ◌||◌, Option, none, some, List, [], ◌∷◌, any, contains_key,
  lookup-insert, eq_iff, arith, ◌≡◌, refl,
}
use the_membrane.Core.Event.{MembraneEvent}
use the_membrane.Core.External.{External}
use the_membrane.Core.Session.{SessionChainState, mark_degraded, alert_degraded_fields}
use the_membrane.Core.Session.{is_scope_degraded}
use the_membrane.Core.Session.Sever.{IsTracked, mark_degraded-IsTracked, is_scope_degraded-tracked}
use the_membrane.Prelude.{ℤ, ◌∙◌, Bool-cases, inl, inr}
use the_membrane.Gate.Server.{is_operator_alert, sever_named, apply_sever, apply_operator_severs}

-- A reason is given and the scope is the given one.
abbrev pub names_scope : String → Option String × Option String → Bool
names_scope scope (some reason, some s) = s == scope
names_scope scope (some reason, none) = false
names_scope scope (none, s) = false

sever_named-contains_key :
    (scope : String) (c : SessionChainState) (fields : Option String × Option String)
    (event : MembraneEvent)
    → contains_key scope (sever_named c fields event.timestamp).degraded_scopes
      ≡ (names_scope scope fields || contains_key scope c.degraded_scopes)
unfolding mark_degraded
sever_named-contains_key scope c (some reason, some s) event =
    ground
      (arith, eq_iff s scope, lookup-insert s scope (reason, event.timestamp) c.degraded_scopes)
sever_named-contains_key scope c (some reason, none) event = refl
sever_named-contains_key scope c (none, s) event = refl

module _ (x : External) (operator : String) where
  -- The operator signed the alert, and it names the scope and a reason.
  abbrev pub cuts_off : String → MembraneEvent → Bool
  cuts_off scope event =
      is_operator_alert x operator event && names_scope scope (alert_degraded_fields event.payload)

  -- After the events of the relay were applied the chain lists a scope as cut off exactly if it did
  -- before or some event among them is an alert that the operator signed and that names the scope
  -- and a reason.
  pub apply_operator_severs-contains_key :
      (scope : String) (c : SessionChainState) (events : List MembraneEvent)
      → contains_key scope (apply_operator_severs x operator c events).degraded_scopes
        ≡ (any (cuts_off scope) events || contains_key scope c.degraded_scopes)
  unfolding apply_operator_severs apply_sever
  apply_operator_severs-contains_key scope c [] = refl
  apply_operator_severs-contains_key scope c (event ∷ rest) = ground (
    arith,
    apply_operator_severs-contains_key scope (apply_sever x operator c event) rest,
    sever_named-contains_key scope c (alert_degraded_fields event.payload) event,
  )

sever_named-IsTracked :
    (c : SessionChainState) (fields : Option String × Option String) (at : ℤ)
    → IsTracked c
    → IsTracked (sever_named c fields at)
sever_named-IsTracked c (some reason, some s) at h = mark_degraded-IsTracked c s reason at h
sever_named-IsTracked c (some reason, none) at h = h
sever_named-IsTracked c (none, s) at h = h

-- A sever leaves the head of the chain, the scopes and their clocks alone.
unfoldable pub SameClocks : SessionChainState → SessionChainState → Type 0
SameClocks c d =
    (d.active_scope_id ≡ c.active_scope_id)
    × (d.last_router_cp_at ≡ c.last_router_cp_at)
    × (d.scopes ≡ c.scopes)
    × (d.last_cp_hash ≡ c.last_cp_hash)

sever_named-SameClocks :
    (c : SessionChainState) (fields : Option String × Option String) (at : ℤ)
    → SameClocks c (sever_named c fields at)
unfolding mark_degraded SameClocks
sever_named-SameClocks c (some reason, some s) at = (refl, refl, refl, refl)
sever_named-SameClocks c (some reason, none) at = (refl, refl, refl, refl)
sever_named-SameClocks c (none, s) at = (refl, refl, refl, refl)

module _ (x : External) (operator : String) where
  apply_sever-kept :
      (c : SessionChainState) (event : MembraneEvent)
      → SameClocks c (apply_sever x operator c event)
        × (IsTracked c → IsTracked (apply_sever x operator c event))
  unfolding apply_sever SameClocks
  apply_sever-kept c event =
      let fields = alert_degraded_fields event.payload in
      elim (Bool-cases (is_operator_alert x operator event)) [
        | inl is_alert ↦ rw is_alert (
          sever_named-SameClocks c fields event.timestamp,
          sever_named-IsTracked c fields event.timestamp,
        )
        | inr other ↦ rw other ((refl, refl, refl, refl), λ h. h)
      ]

  pub apply_operator_severs-SameClocks :
      (c : SessionChainState) (events : List MembraneEvent)
      → SameClocks c (apply_operator_severs x operator c events)
  unfolding apply_operator_severs SameClocks
  apply_operator_severs-SameClocks c [] = (refl, refl, refl, refl)
  apply_operator_severs-SameClocks c (event ∷ rest) =
      let (a, b, d, e) = (apply_sever-kept c event).0 in
      let (a1, b1, d1, e1) =
        apply_operator_severs-SameClocks (apply_sever x operator c event) rest in
      (a1 ∙ a, b1 ∙ b, d1 ∙ d, e1 ∙ e)

  apply_operator_severs-IsTracked :
      (c : SessionChainState) (events : List MembraneEvent)
      → IsTracked c
      → IsTracked (apply_operator_severs x operator c events)
  unfolding apply_operator_severs
  apply_operator_severs-IsTracked c [] h = h
  apply_operator_severs-IsTracked c (event ∷ rest) h =
      apply_operator_severs-IsTracked (apply_sever x operator c event) rest
        ((apply_sever-kept c event).1 h)

  -- What the relay's events make degraded, and no other scope.
  pub apply_operator_severs-is_scope_degraded :
      (scope : String) (c : SessionChainState) (events : List MembraneEvent)
      → IsTracked c
      → is_scope_degraded (apply_operator_severs x operator c events) scope
        ≡ (any (cuts_off x operator scope) events || is_scope_degraded c scope)
  apply_operator_severs-is_scope_degraded scope c events h =
      let after = apply_operator_severs-IsTracked c events h in
      ground (
        arith,
        is_scope_degraded-tracked (apply_operator_severs x operator c events) scope after,
        is_scope_degraded-tracked c scope h,
        apply_operator_severs-contains_key x operator scope c events,
      )
