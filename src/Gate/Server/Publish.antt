-- ===== src/Gate/Server/Publish.antt =====
-- What `handle_chat` and `handle_tool_invoke` of membrane-gate/src/server.rs share: a session of the
-- router is opened, and its checkpoint goes into the journal. The clock, the token, the relay and
-- the answers of the file system during a request are arguments.
pub mod Opened
use the_membrane.Prelude.{
  ℕ, ℤ, String, Option, none, some, unwrap_or, List, [], ◌∷◌, Result, ok, err, map_err, ok_or,
  checked_suc,
}
use the_membrane.Core.Event.{MembraneEvent}
use the_membrane.Core.Iac.{IntentAuthorizationCredential}
use the_membrane.Core.External.{External, Bytes}
use the_membrane.Core.Hash.{cp_hash_hex}
use the_membrane.Core.Session.{SessionChainState, next_parent_cp_hash, record_cp}
use the_membrane.Gate.Error.{GateError, bus, connector}
use the_membrane.Gate.Registry.{Gate, ChannelRegistry}
use the_membrane.Gate.Iac.{RouterSessionRequest, RouterSessionOutcome, open_router_session}
use the_membrane.Gate.Operations.{
  Codec, Journal, Io, Record, append, begin_publication, publication_aborted, checkpoint,
}
use the_membrane.Gate.Operations.Recover.{Recovery, recover}
use the_membrane.Gate.Server.Session.{SessionState, Relay}
use the_membrane.Gate.Server.Steps.{Step, ◌>>=◌, lift}

pub record SessionReceipt : Type 0 where
  pub scope_id : String
  pub session_nonce : ℕ
  pub cp_hash : String
  pub context_merkle_root : String
  pub parent_cp_hash : String
  pub bus_event_id : Option String

-- What the world outside answers during one request: the clock at each reading, the relay and the
-- sending of an event, the random token, the file system at each use of the journal, and the
-- registry file as it is read before the dispatch.
pub record Outside : Type 0 where
  pub now : ℤ
  pub validated_at : ℤ
  pub live_at : ℤ
  pub authorized_at : ℤ
  pub admission : Result GateError (Unit {0})
  pub relay : Relay
  pub send : MembraneEvent → Result String String
  pub token : String
  pub live_io : Io
  pub reserve_io : Io
  pub begin_io : Io
  pub append_io : Io
  pub recover_io : Io
  pub finish_io : Io
  pub registry_then : Option (Result String ChannelRegistry)

-- The request of the session that follows the chain: the next nonce, and the parent.
unfoldable pub next_request :
    IntentAuthorizationCredential
    → String
    → Option String
    → Result GateError (List Bytes)
    → SessionChainState
    → Result GateError RouterSessionRequest
next_request iac model tool chunks c = elim (checked_suc c.session_nonce) [
  | none ↦ err (connector "scope nonce exhausted")
  | some nonce ↦ elim chunks [
    | err e ↦ err e
    | ok context ↦ ok (record {
      model_id = model;
      context_chunks = context;
      session_nonce = nonce;
      parent_cp_hash = next_parent_cp_hash c iac.parent_cp_hash;
      scope_id = some iac.scope_id;
      tool_id = tool;
    })
  ]
]

abbrev pub receipt_of :
    IntentAuthorizationCredential
    → RouterSessionRequest
    → RouterSessionOutcome
    → String
    → SessionReceipt
receipt_of iac req out cp_hash = record {
  scope_id = iac.scope_id;
  session_nonce = req.session_nonce;
  cp_hash = cp_hash;
  context_merkle_root = out.context_merkle_root;
  parent_cp_hash = req.parent_cp_hash;
  bus_event_id = out.bus_event_id;
}

unfoldable pub checkpoint_of :
    String → IntentAuthorizationCredential → RouterSessionOutcome → Record
checkpoint_of token iac out =
    checkpoint token (unwrap_or iac.caller_pubkey "") out.event out.bus_event_id

-- The checkpoint in the journal, and only then in the chain.
unfoldable pub note_commit :
    IntentAuthorizationCredential
    → ℤ
    → RouterSessionRequest
    → RouterSessionOutcome
    → String
    → SessionState
    → Result GateError (Unit {0}) × Journal
    → Result GateError SessionReceipt × SessionState
note_commit iac now req out cp_hash s (err e, journal) = (err e, record s { journal = journal })
note_commit iac now req out cp_hash s (ok tt, journal) = (
  ok (receipt_of iac req out cp_hash),
  record {
    chain =
        record_cp (record s.chain { session_nonce = req.session_nonce }) cp_hash out.bus_event_id
          now;
    journal = journal;
  },
)

module _ (x : External) (codec : Codec) (gate : Gate) (o : Outside)
    (iac : IntentAuthorizationCredential) where
  -- The end of a publication that the relay did not see: it is noted, and the chain is read again.
  unfoldable pub abort : GateError → Step SessionState GateError SessionReceipt
  abort e s =
      let (answer, journal) = append x codec o.append_io s.journal (publication_aborted o.token) in
      elim answer [
        | err failed ↦ (err failed, record s { journal = journal })
        | ok _ ↦ elim (recover x gate.iac_signer_pubkey codec o.recover_io journal) [
          | err failed ↦ (err failed, record s { journal = journal })
          | ok r ↦ (err e, record { chain = r.chain; journal = journal })
        ]
      ]

  unfoldable pub commit :
      RouterSessionRequest
      → RouterSessionOutcome
      → String
      → Step SessionState GateError SessionReceipt
  commit req out cp_hash s =
      note_commit iac o.now req out cp_hash s
        (append x codec o.append_io s.journal (checkpoint_of o.token iac out))

  unfoldable pub after_hash :
      RouterSessionRequest
      → RouterSessionOutcome
      → Result GateError String
      → Step SessionState GateError SessionReceipt
  after_hash req out (err e) s = (err e, s)
  after_hash req out (ok cp_hash) s = commit req out cp_hash s

  unfoldable pub after_open :
      RouterSessionRequest
      → Result GateError RouterSessionOutcome
      → Step SessionState GateError SessionReceipt
  after_open req (err (bus e)) s = (err (bus e), s)
  after_open req (err e) s = abort e s
  after_open req (ok out) s = after_hash req out (map_err bus (cp_hash_hex x out.event)) s

  unfoldable pub begin : Step SessionState GateError String
  begin s =
      let (answer, journal) = begin_publication x codec o.begin_io s.journal o.token in
      (answer, record s { journal = journal })

  -- From `begin_publication` to the receipt.
  unfoldable pub publish_session : RouterSessionRequest → Step SessionState GateError SessionReceipt
  publish_session req = do
    token ← begin
    after_open req (open_router_session x gate o.send (some iac) req o.now)
