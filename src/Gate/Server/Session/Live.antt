-- ===== src/Gate/Server/Session/Live.antt =====
-- What a request can rely on once its session was found live.
use the_membrane.Prelude.{ℤ, String, false, Result, ok, err, is_ok, unwrap_or, arith, ◌≡◌, refl}
use the_membrane.Core.Event.{MembraneEvent}
use the_membrane.Core.Iac.{IntentAuthorizationCredential}
use the_membrane.Core.External.{External}
use the_membrane.Core.Session.{SessionChainState, begin_scope, is_scope_degraded}
use the_membrane.Gate.Error.{GateError, session_stale}
use the_membrane.Gate.Registry.{Gate}
use the_membrane.Gate.Liveness.{check_session_liveness, check_session_liveness_exact}
use the_membrane.Gate.Operations.{Codec, Io}
use the_membrane.Gate.Operations.Recover.{assert_ready}
use the_membrane.Gate.Server.Session.{
  SessionState, Relay, anchor_scope, anchored, take_relay, require_live, cut_stale, after_relay,
  after_ready, ensure_live_session,
}

module _ (x : External) (codec : Codec) (io : Io) (gate : Gate)
    (send : MembraneEvent → Result String String) (iac : IntentAuthorizationCredential)
    (now : ℤ) where
  -- The checks passed in this state: the scope is not degraded, it is live at this time, and the
  -- credential's anchor holds.
  pub Passed : SessionState → Type 0
  Passed s =
      (is_scope_degraded s.chain iac.scope_id ≡ false)
      × (check_session_liveness gate s.chain iac.scope_id now ≡ ok tt)
      × (anchored iac s.chain ≡ ok tt)

  anchor_scope-ok :
      (s : SessionState) (a : Result GateError (Unit {0})) {t : SessionState}
      → anchor_scope iac s a ≡ (ok tt, t)
      → (a ≡ ok tt) × (t ≡ record s { chain = (begin_scope s.chain iac.scope_id).0 })
  unfolding anchor_scope
  anchor_scope-ok s (ok tt) h = (refl, ground arith)
  anchor_scope-ok s (err e) h = cc

  cut_stale-refused :
      (scope : String) (stale : GateError) (s : SessionState) (alert : Result GateError String)
      → is_ok (cut_stale x codec io scope now stale s alert).0 ≡ false
  unfolding cut_stale
  cut_stale-refused scope stale s (err e) = refl
  cut_stale-refused scope stale s (ok id) = ground arith

  pub require_live-refused :
      (s : SessionState) (e : GateError)
      → is_ok (require_live x codec io gate send iac now s (err e)).0 ≡ false
  unfolding require_live
  require_live-refused s (session_stale age limit) =
      cut_stale-refused iac.scope_id (session_stale age limit) s _
  require_live-refused s e = ground arith

  require_live-ok :
      (s : SessionState) (live : Result GateError (Unit {0})) {t : SessionState}
      → require_live x codec io gate send iac now s live ≡ (ok tt, t)
      → (live ≡ ok tt)
        × (anchored iac s.chain ≡ ok tt)
        × (t ≡ record s { chain = (begin_scope s.chain iac.scope_id).0 })
  unfolding require_live
  require_live-ok s (ok tt) h =
      let (held, same) = anchor_scope-ok s (anchored iac s.chain) h in (refl, held, same)
  require_live-ok s (err e) h = let refused = require_live-refused s e in ground arith

  live_not_degraded :
      (c : SessionChainState)
      → check_session_liveness gate c iac.scope_id now ≡ ok tt
      → is_scope_degraded c iac.scope_id ≡ false
  live_not_degraded c h = ground (arith, check_session_liveness_exact gate c iac.scope_id now)

  after_relay-ok :
      (r : Result GateError (Unit {0}) × SessionState) {t : SessionState}
      → after_relay x codec io gate send iac now r ≡ (ok tt, t)
      → (r ≡ (ok tt, r.1))
        × Passed r.1
        × (t ≡ record r.1 { chain = (begin_scope r.1.chain iac.scope_id).0 })
  unfolding after_relay Passed
  after_relay-ok (err e, s) h = cc
  after_relay-ok (ok tt, s) h =
      let (live, held, same) =
        require_live-ok s (check_session_liveness gate s.chain iac.scope_id now) h in
      (refl, (live_not_degraded s.chain live, live, held), same)

  after_ready-ok :
      (relay : Relay) (s : SessionState) (ready : Result GateError (Unit {0})) {t : SessionState}
      → after_ready x codec io gate send relay iac now s ready ≡ (ok tt, t)
      → (ready ≡ ok tt)
        × (after_relay x codec io gate send iac now
              (take_relay x codec io gate.iac_signer_pubkey s relay)
            ≡ (ok tt, t))
  unfolding after_ready
  after_ready-ok relay s (err e) h = cc
  after_ready-ok relay s (ok tt) h = (refl, h)

  pub ensure_live_session-ok :
      (relay : Relay) (s : SessionState) {t : SessionState}
      → ensure_live_session x codec io gate send relay iac now s ≡ (ok tt, t)
      → let read = take_relay x codec io gate.iac_signer_pubkey s relay in
        (assert_ready x gate.iac_signer_pubkey codec io s.journal
            (unwrap_or iac.caller_pubkey "")
            iac.scope_id
          ≡ ok tt)
        × (read ≡ (ok tt, read.1))
        × Passed read.1
        × (t ≡ record read.1 { chain = (begin_scope read.1.chain iac.scope_id).0 })
  unfolding ensure_live_session
  ensure_live_session-ok relay s h =
      let (ready, later) =
        after_ready-ok relay s
          (assert_ready x gate.iac_signer_pubkey codec io s.journal (unwrap_or iac.caller_pubkey "")
            iac.scope_id)
          h in
      let (taken, passed, same) =
        after_relay-ok (take_relay x codec io gate.iac_signer_pubkey s relay) later in
      (ready, taken, passed, same)
