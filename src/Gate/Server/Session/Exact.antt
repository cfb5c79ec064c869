-- ===== src/Gate/Server/Session/Exact.antt =====
-- When a session is found live, told by the state before and the relay's events.
use the_membrane.Prelude.{
  ℤ, String, ◌==◌, true, ◌&&◌, ◌||◌, not, none, some, List, [], any, as_i64, Result, ok, err, is_ok,
  map_err, unwrap_or, arith, ◌≡◌, refl, ap, ◌∙◌,
}
use the_membrane.Core.Event.{MembraneEvent}
use the_membrane.Core.Iac.{IntentAuthorizationCredential}
use the_membrane.Core.External.{External}
use the_membrane.Core.Session.{
  SessionChainState, begin_scope, is_scope_degraded, scope_router_cp_age_secs,
}
use the_membrane.Core.Session.Anchor.{validate_iac_anchor_exact}
use the_membrane.Core.Session.Sever.{IsTracked}
use the_membrane.Gate.Error.{GateError, bus, no_valid_iac}
use the_membrane.Gate.Registry.{Gate}
use the_membrane.Gate.Liveness.{check_session_liveness, not_older, check_session_liveness_exact}
use the_membrane.Gate.Operations.{Codec, Journal, Io}
use the_membrane.Gate.Operations.Recover.{assert_ready}
use the_membrane.Gate.Server.{apply_operator_severs}
use the_membrane.Gate.Server.Severs.{
  cuts_off, SameClocks, apply_operator_severs-SameClocks, apply_operator_severs-is_scope_degraded,
}
use the_membrane.Gate.Server.Session.{
  SessionState, Relay, is_new_scope, anchor_scope, anchored, sever_all, take_relay, require_live,
  after_relay, after_ready, ensure_live_session,
}
use the_membrane.Gate.Server.Session.Live.{require_live-refused, ensure_live_session-ok}

-- The events that the relay gave
abbrev pub events_of : Relay → List MembraneEvent
events_of none = []
events_of (some (err e)) = []
events_of (some (ok events)) = events

map_err-is_ok : {E F A : Type 0} (f : E → F) (r : Result E A) → is_ok (map_err f r) ≡ is_ok r
map_err-is_ok f (ok a) = refl
map_err-is_ok f (err e) = refl

returned : {S : Type 0} (r : Result GateError (Unit {0}) × S) → is_ok r.0 ≡ true → r ≡ (ok tt, r.1)
returned (ok _, s) h = refl
returned (err e, s) h = cc

module _ (x : External) (codec : Codec) (io : Io) (operator : String) where
  -- The journal with the scopes that are cut off after the relay's events, and whether the relay
  -- and the disk gave an error.
  pub write_severs : SessionState → Relay → Result GateError (Unit {0}) × Journal
  write_severs s none = (ok tt, s.journal)
  write_severs s (some (err e)) = (err (bus e), s.journal)
  write_severs s (some (ok events)) =
      sever_all x codec io s.journal
        (apply_operator_severs x operator s.chain events).degraded_scopes

  take_relay-severs :
      (s : SessionState) (relay : Relay)
      → take_relay x codec io operator s relay ≡ (
        (write_severs s relay).0,
        record {
          chain = apply_operator_severs x operator s.chain (events_of relay);
          journal = (write_severs s relay).1;
        },
      )
  unfolding take_relay write_severs apply_operator_severs
  take_relay-severs s none = refl
  take_relay-severs s (some (err e)) = refl
  take_relay-severs s (some (ok events)) = refl

module _ (x : External) (codec : Codec) (io : Io) (gate : Gate)
    (send : MembraneEvent → Result String String) (iac : IntentAuthorizationCredential)
    (now : ℤ) where
  anchor_scope-is_ok :
      (s : SessionState) (a : Result GateError (Unit {0}))
      → is_ok (anchor_scope iac s a).0 ≡ is_ok a
  unfolding anchor_scope
  anchor_scope-is_ok s (ok tt) = refl
  anchor_scope-is_ok s (err e) = refl

  require_live-is_ok :
      (s : SessionState) (live : Result GateError (Unit {0}))
      → is_ok (require_live x codec io gate send iac now s live).0
        ≡ (is_ok live && is_ok (anchored iac s.chain))
  unfolding require_live
  require_live-is_ok s (ok tt) = anchor_scope-is_ok s (anchored iac s.chain)
  require_live-is_ok s (err e) = require_live-refused x codec io gate send iac now s e

  after_relay-is_ok :
      (r : Result GateError (Unit {0})) (s : SessionState)
      → is_ok (after_relay x codec io gate send iac now (r, s)).0 ≡ (
          is_ok r
          && is_ok (check_session_liveness gate s.chain iac.scope_id now)
          && is_ok (anchored iac s.chain))
  unfolding after_relay
  after_relay-is_ok (err e) s = refl
  after_relay-is_ok (ok tt) s =
      require_live-is_ok s (check_session_liveness gate s.chain iac.scope_id now)

  after_ready-is_ok :
      (relay : Relay) (s : SessionState) (ready : Result GateError (Unit {0}))
      → is_ok (after_ready x codec io gate send relay iac now s ready).0 ≡ (
          is_ok ready
          && is_ok
              (after_relay x codec io gate send iac now
                (take_relay x codec io gate.iac_signer_pubkey s relay)).0)
  unfolding after_ready
  after_ready-is_ok relay s (err e) = refl
  after_ready-is_ok relay s (ok tt) = refl

  -- The checks of the chain after a sever, told by the chain before.
  checks_before :
      (c d : SessionChainState)
      → SameClocks c d
      → (scope_router_cp_age_secs d iac.scope_id now ≡ scope_router_cp_age_secs c iac.scope_id now)
        × (is_ok (anchored iac d)
            ≡ (not (is_new_scope c iac.scope_id) || iac.parent_cp_hash == c.last_cp_hash))
  unfolding scope_router_cp_age_secs SameClocks
  checks_before c d (active, clock, scopes, head) = (
    rw (active, clock, scopes) refl,
    map_err-is_ok no_valid_iac _
        ∙ (validate_iac_anchor_exact d iac.parent_cp_hash (is_new_scope d iac.scope_id)
            ∙ rw (active, scopes, head) refl),
  )

  -- A session is found live exactly if the journal is ready for the caller and the scope, the relay
  -- gave its events and every cut-off scope could be written to the journal, no alert that the
  -- operator signed among these events names the scope, it was not degraded before, its age is
  -- within the limit, and a new scope's credential names the head of the chain. The scopes are
  -- tracked, as they are after every start and step. What is left then is the state after the
  -- operator's alerts, with the scope as the active one.
  pub ensure_live_session_exact :
      (relay : Relay) (s : SessionState)
      → IsTracked s.chain
      → let r = ensure_live_session x codec io gate send relay iac now s in
        let operator = gate.iac_signer_pubkey in
        let scope = iac.scope_id in
        (is_ok r.0 ≡ (
          is_ok (assert_ready x operator codec io s.journal (unwrap_or iac.caller_pubkey "") scope)
          && is_ok (write_severs x codec io operator s relay).0
          && not (any (cuts_off x operator scope) (events_of relay))
          && not (is_scope_degraded s.chain scope)
          && not_older
              (scope_router_cp_age_secs s.chain scope now)
              (as_i64 gate.policy.delta_t_secs)
          && (not (is_new_scope s.chain scope) || iac.parent_cp_hash == s.chain.last_cp_hash)))
        × (is_ok r.0 ≡ true
            → r.1 ≡ record {
              chain =
                  (begin_scope
                    (apply_operator_severs x operator s.chain (events_of relay))
                    scope).0;
              journal = (write_severs x codec io operator s relay).1;
            })
  unfolding ensure_live_session
  ensure_live_session_exact relay s tracked =
      let operator = gate.iac_signer_pubkey in
      let scope = iac.scope_id in
      let chain = apply_operator_severs x operator s.chain (events_of relay) in
      let written = write_severs x codec io operator s relay in
      let after : SessionState = record { chain = chain; journal = written.1 } in
      let ready =
        assert_ready x operator codec io s.journal (unwrap_or iac.caller_pubkey "") scope in
      let taken = take_relay-severs x codec io operator s relay in
      let relayed =
        after_ready-is_ok relay s ready
        ∙ ap (λ r. is_ok ready && is_ok (after_relay x codec io gate send iac now r).0) taken in
      let (age, anchor) =
        checks_before s.chain chain
          (apply_operator_severs-SameClocks x operator s.chain (events_of relay)) in
      (
        ground (
          arith,
          relayed,
          after_relay-is_ok written.0 after,
          check_session_liveness_exact gate chain scope now,
          age,
          anchor,
          apply_operator_severs-is_scope_degraded x operator scope s.chain (events_of relay)
              tracked,
        ),
        λ live.
            let (is_ready, read, passed, same) =
              ensure_live_session-ok x codec io gate send iac now relay s (returned _ live) in
            same ∙ ap (λ r. record r.1 { chain = (begin_scope r.1.chain scope).0 }) taken,
      )
