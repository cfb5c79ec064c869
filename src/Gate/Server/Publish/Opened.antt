-- ===== src/Gate/Server/Publish/Opened.antt =====
-- What has happened once a session was published.
use the_membrane.Prelude.{String, some, Result, ok, err, is_ok, false, map_err, ◌≡◌, refl, arith}
use the_membrane.Core.Iac.{IntentAuthorizationCredential}
use the_membrane.Core.External.{External}
use the_membrane.Core.Hash.{cp_hash_hex}
use the_membrane.Core.Session.{record_cp}
use the_membrane.Gate.Error.{GateError, bus}
use the_membrane.Gate.Registry.{Gate}
use the_membrane.Gate.Iac.{RouterSessionRequest, RouterSessionOutcome, open_router_session}
use the_membrane.Gate.Operations.{Codec, Journal, append}
use the_membrane.Gate.Server.Session.{SessionState}
use the_membrane.Gate.Server.Steps.{>>=-ok}
use the_membrane.Gate.Server.Publish.{
  SessionReceipt, Outside, receipt_of, abort, checkpoint_of, note_commit, after_hash, commit,
  after_open, begin, publish_session,
}

module _ (x : External) (codec : Codec) (gate : Gate) (o : Outside)
    (iac : IntentAuthorizationCredential) (req : RouterSessionRequest) where
  -- The session was opened with this outcome and its hash, the checkpoint was appended to the
  -- journal, and the chain has it.
  pub Committed :
      SessionState → SessionState → SessionReceipt → RouterSessionOutcome → String → Type 0
  Committed s t receipt out hash =
      (open_router_session x gate o.send (some iac) req o.now ≡ ok out)
      × (cp_hash_hex x out.event ≡ ok hash)
      × (append x codec o.append_io s.journal (checkpoint_of o.token iac out) ≡ (ok tt, t.journal))
      × (t.chain
          ≡ record_cp (record s.chain { session_nonce = req.session_nonce }) hash out.bus_event_id
              o.now)
      × (receipt ≡ receipt_of iac req out hash)

  note_commit-ok :
      (out : RouterSessionOutcome) (hash : String) (s : SessionState)
      (appended : Result GateError (Unit {0}) × Journal) {receipt : SessionReceipt}
      {t : SessionState}
      → note_commit iac o.now req out hash s appended ≡ (ok receipt, t)
      → (appended ≡ (ok tt, t.journal))
        × (t.chain
            ≡ record_cp
                (record s.chain { session_nonce = req.session_nonce })
                hash
                out.bus_event_id
                o.now)
        × (receipt ≡ receipt_of iac req out hash)
  unfolding note_commit
  note_commit-ok out hash s (err e, j) h = cc
  note_commit-ok out hash s (ok tt, j) h = (ground arith, ground arith, ground arith)

  abort-refused :
      (e : GateError) (s : SessionState) → is_ok (abort x codec gate o iac e s).0 ≡ false
  unfolding abort
  abort-refused e s = ground arith

  after_hash-ok :
      (out : RouterSessionOutcome) (hash : Result GateError String) (s : SessionState)
      {receipt : SessionReceipt} {t : SessionState}
      → after_hash x codec gate o iac req out hash s ≡ (ok receipt, t)
      → (h : String) × (hash ≡ ok h) × (commit x codec gate o iac req out h s ≡ (ok receipt, t))
  unfolding after_hash
  after_hash-ok out (err e) s h = cc
  after_hash-ok out (ok hash) s h = (hash, refl, h)

  after_open-ok :
      (r : Result GateError RouterSessionOutcome) (s : SessionState) {receipt : SessionReceipt}
      {t : SessionState}
      → after_open x codec gate o iac req r s ≡ (ok receipt, t)
      → (out : RouterSessionOutcome) × (r ≡ ok out)
        × (after_hash x codec gate o iac req out (map_err bus (cp_hash_hex x out.event)) s
            ≡ (ok receipt, t))
  unfolding after_open
  after_open-ok (err (bus e)) s h = cc
  after_open-ok (err e) s h = let refused = abort-refused e s in ground arith
  after_open-ok (ok out) s h = (out, refl, h)

  -- A publication that succeeds has begun in the journal, and the rest holds from there on.
  pub publish_session-ok :
      (s : SessionState) {receipt : SessionReceipt} {t : SessionState}
      → publish_session x codec gate o iac req s ≡ (ok receipt, t)
      → (token : String) × (begun : SessionState) × (out : RouterSessionOutcome) × (hash : String)
        × (begin x codec gate o iac s ≡ (ok token, begun))
        × Committed begun t receipt out hash
  unfolding publish_session Committed commit
  publish_session-ok s {receipt} {t} h =
      let opened = open_router_session x gate o.send (some iac) req o.now in
      let (token, begun, started, h1) =
        >>=-ok (begin x codec gate o iac) (λ _. after_open x codec gate o iac req opened) s h in
      let (out, is_open, h2) = after_open-ok opened begun h1 in
      let (hash, hashed, h3) = after_hash-ok out (map_err bus (cp_hash_hex x out.event)) begun h2 in
      let (written, chain, same) =
        note_commit-ok out hash begun
          (append x codec o.append_io begun.journal (checkpoint_of o.token iac out)) h3 in
      let hash_of : cp_hash_hex x out.event ≡ ok hash = ground arith in
      (token, begun, out, hash, started, (is_open, hash_of, written, chain, same))
