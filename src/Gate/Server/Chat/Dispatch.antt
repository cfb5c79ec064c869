-- ===== src/Gate/Server/Chat/Dispatch.antt =====
-- When a chat request reaches the model.
use the_membrane.Prelude.{String, [], ◌∷◌, none, Result, ok, err, ◌≡◌, ◌≢◌, refl, sym}
use the_membrane.Core.Iac.{IntentAuthorizationCredential}
use the_membrane.Core.External.{External, Bytes}
use the_membrane.Gate.Error.{GateError}
use the_membrane.Gate.Registry.{Gate}
use the_membrane.Gate.Audit.{AuditLog}
use the_membrane.Gate.Iac.{RouterSessionRequest, RouterSessionOutcome}
use the_membrane.Gate.Operations.{Codec}
use the_membrane.Gate.Server.Session.{SessionState, ensure_live_session}
use the_membrane.Gate.Server.Steps.{>>=-ok, reads-ok, check-ok, >>-ok, returned}
use the_membrane.Gate.Server.Publish.{SessionReceipt, Outside, begin, publish_session}
use the_membrane.Gate.Server.Publish.Opened.{Committed, publish_session-ok}
use the_membrane.Gate.Server.Admit.{admit_chat, check_identity}
use the_membrane.Gate.Server.Chat.{
  ChatMessage, ChatRequest, chat_request_of, authorize_chat, serve_chat, handle_chat,
}

module _ (x : External) (codec : Codec) (gate : Gate) (o : Outside)
    (message_bytes : ChatMessage → Result String Bytes) (iac : IntentAuthorizationCredential)
    (req : ChatRequest) where
  -- What has happened between the states `s` and `t`, in this order.
  pub ChatCleared : SessionState → SessionState → SessionReceipt → Type 0
  ChatCleared s t receipt =
      (live : SessionState) × (next : RouterSessionRequest) × (token : String)
      × (begun : SessionState) × (out : RouterSessionOutcome) × (hash : String) × (admit_chat x gate
            o iac
          ≡ ok tt)
      × (ensure_live_session x codec o.live_io gate o.send o.relay iac o.now s ≡ (ok tt, live))
      × (chat_request_of x codec gate o message_bytes iac req live ≡ ok next)
      × (begin x codec gate o iac live ≡ (ok token, begun))
      × Committed x codec gate o iac next begun t receipt out hash
      × (check_identity x gate o iac req.model none ≡ ok tt)

  same-ChatCleared :
      (s : SessionState) {a b : SessionReceipt} {t u : SessionState}
      → a ≡ b
      → t ≡ u
      → ChatCleared s t a
      → ChatCleared s u b
  same-ChatCleared s p q h = rw (sym p, sym q) h

  authorize_chat-ok :
      (s : SessionState) {receipt : SessionReceipt} {t : SessionState}
      → authorize_chat x codec gate o message_bytes iac req s ≡ (ok receipt, t)
      → ChatCleared s t receipt
  unfolding authorize_chat ChatCleared
  authorize_chat-ok s h =
      let (admitted, h1) = check-ok (admit_chat x gate o iac) _ s h in
      let (live, is_live, h2) =
        >>-ok (ensure_live_session x codec o.live_io gate o.send o.relay iac o.now) _ s h1 in
      let (next, asked, h3) =
        reads-ok (chat_request_of x codec gate o message_bytes iac req) _ live h2 in
      let (receipt1, last, published, h4) =
        >>=-ok (publish_session x codec gate o iac next) _ live h3 in
      let (checked, h5) = check-ok (check_identity x gate o iac req.model none) _ last h4 in
      let (same, same_state) = returned h5 in
      let (token, begun, out, hash, started, committed) =
        publish_session-ok x codec gate o iac next live published in
      same-ChatCleared s same same_state
        (live, next, token, begun, out, hash, admitted, is_live, asked, started, committed, checked)

  module _ {Response : Type 0} (chat : ChatRequest → Result String Response) where
    serve_chat-calls :
        (audit : AuditLog) (r : Result GateError SessionReceipt × SessionState)
        → (serve_chat x codec gate o message_bytes iac req chat audit r).calls ≢ []
        → (receipt : SessionReceipt) × (t : SessionState) × (r ≡ (ok receipt, t))
          × ((serve_chat x codec gate o message_bytes iac req chat audit r).calls ≡ req ∷ [])
    unfolding serve_chat
    serve_chat-calls audit (err e, s) h = elim (h refl) [ ]
    serve_chat-calls audit (ok receipt, t) h = (receipt, t, refl, refl)

    -- If a chat request calls the model at all, it calls it once, with this request, and before
    -- that, in this order: the credential was valid and the export admitted the request, the
    -- session was found live, the publication was begun in the journal, a session of the router was
    -- opened, its checkpoint was appended to the journal and noted in the chain, and the identity
    -- was authorized again.
    pub handle_chat-calls :
        (audit : AuditLog) (s : SessionState)
        → (handle_chat x codec gate o message_bytes iac req chat audit s).calls ≢ []
        → (receipt : SessionReceipt) × (t : SessionState) × ((handle_chat x codec gate o
              message_bytes iac req chat audit s).calls
            ≡ req ∷ [])
          × ChatCleared s t receipt
    unfolding handle_chat
    handle_chat-calls audit s h =
        let (receipt, t, passed, once) =
          serve_chat-calls audit (authorize_chat x codec gate o message_bytes iac req s) h in
        (receipt, t, once, authorize_chat-ok s passed)
