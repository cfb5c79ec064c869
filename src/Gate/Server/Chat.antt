-- ===== src/Gate/Server/Chat.antt =====
-- `handle_chat` of membrane-gate/src/server.rs. `message_bytes` stands for a serialized message and
-- `chat` for the call of the model.
pub mod Dispatch
use the_membrane.Prelude.{
  String, Bool, true, false, none, Option, List, [], ◌∷◌, Result, ok, err, map_err,
}
use the_membrane.Core.Iac.{IntentAuthorizationCredential}
use the_membrane.Core.External.{External, Bytes}
use the_membrane.Gate.Error.{GateError, registry, bus}
use the_membrane.Gate.Registry.{Gate}
use the_membrane.Gate.Audit.{AuditLog, record_authenticated}
use the_membrane.Gate.Iac.{RouterSessionRequest}
use the_membrane.Gate.Operations.{Codec}
use the_membrane.Gate.Server.Session.{SessionState, ensure_live_session}
use the_membrane.Gate.Server.Steps.{Step, ◌>>=◌, ◌>>◌, lift, reads}
use the_membrane.Gate.Server.Publish.{SessionReceipt, Outside, next_request, publish_session}
use the_membrane.Gate.Server.Admit.{admit_chat, check_identity}
use the_membrane.Gate.Server.Invoke.{allowed}

pub record ChatMessage : Type 0 where
  pub role : String
  pub content : String

pub record ChatRequest : Type 0 where
  pub model : String
  pub messages : List ChatMessage
  pub stream : Bool

pub record ChatServed (Response : Type 0) : Type 0 where
  pub answer : Result GateError (Response × SessionReceipt)
  pub state : SessionState
  pub audit : AuditLog
  pub authorized : Bool
  pub calls : List ChatRequest

-- `iter().map(..).collect::<Result<_, _>>()`
unfoldable pub collect_chunks :
    (ChatMessage → Result String Bytes) → List ChatMessage → Result GateError (List Bytes)
collect_chunks message_bytes [] = ok []
collect_chunks message_bytes (m ∷ rest) = elim (message_bytes m) [
  | err e ↦ err (registry e)
  | ok bytes ↦ elim (collect_chunks message_bytes rest) [
    | err e ↦ err e
    | ok others ↦ ok (bytes ∷ others)
  ]
]

module _ (x : External) (codec : Codec) (gate : Gate) (o : Outside)
    (message_bytes : ChatMessage → Result String Bytes) (iac : IntentAuthorizationCredential)
    (req : ChatRequest) where
  unfoldable pub chat_request_of : SessionState → Result GateError RouterSessionRequest
  chat_request_of s =
      next_request iac req.model none (collect_chunks message_bytes req.messages) s.chain

  -- The whole of `handle_chat` before `*authorized = true`.
  unfoldable pub authorize_chat : Step SessionState GateError SessionReceipt
  authorize_chat = do
    lift (admit_chat x gate o iac)
    ensure_live_session x codec o.live_io gate o.send o.relay iac o.now
    next ← reads chat_request_of
    receipt ← publish_session x codec gate o iac next
    lift (check_identity x gate o iac req.model none)
    lift (ok receipt)

  module _ {Response : Type 0} (chat : ChatRequest → Result String Response) where
    unfoldable pub serve_chat :
        AuditLog → Result GateError SessionReceipt × SessionState → ChatServed Response
    serve_chat audit (err e, s) = record {
      answer = err e;
      state = s;
      audit = audit;
      authorized = false;
      calls = [];
    }
    serve_chat audit (ok receipt, s) = record {
      answer = elim (chat req) [ err e ↦ err (bus e) | ok response ↦ ok (response, receipt) ];
      state = s;
      audit = record_authenticated audit (allowed gate iac "chat" o.authorized_at);
      authorized = true;
      calls = req ∷ [];
    }

    unfoldable pub handle_chat : AuditLog → SessionState → ChatServed Response
    handle_chat audit s = serve_chat audit (authorize_chat s)
