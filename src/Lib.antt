-- ===== src/Lib.antt =====
-- The Membrane: a gate that lets an agent reach a model or a tool only under a credential that the
-- operator signed, and that leaves a signed, hash-linked receipt of each session on a bus.
--
-- membrane-core/src holds the data. An event (event.rs) or a credential (iac.rs) is hashed over its
-- canonical JSON (canonical.rs) and signed (nostr_bus.rs); the session chain (session.rs) keeps the
-- last hash, a nonce and a clock per scope, and the scopes that were cut off; rollup.rs, bus.rs and
-- merkle.rs make one root of many events; caller.rs lets a caller show that it holds its key.
-- membrane-gate/src decides. lib.rs checks credentials and sessions, identity.rs the callers and
-- their grants, github.rs a tool request, operations.rs keeps the journal that survives a crash, and
-- server.rs puts them in the order in which a request passes them.
--
-- The files and what they model:
-- - Prelude and Prelude/*: what the code uses of Rust's standard library. An i64 is an integer whose
--   operations saturate, check or wrap as the code asks; a u64 is a natural number. A map is a list
--   of pairs in the order of its keys.
-- - Core/Value, Core/Canonical: serde_json's values, and canonicalize_value.
-- - Core/Event, Core/Iac, Core/Hash, Core/Signature, Core/Reissue, Core/Caller: the types of event.rs
--   and iac.rs, their digests, signatures and the re-issue; caller.rs.
-- - Core/Merkle, Core/Rollup: merkle.rs, bus.rs, rollup.rs. The loop of compute_root runs on fuel, the
--   number of leaves, which halves at each level.
-- - Core/Session: session.rs. A method on &mut self gives the new state.
-- - Gate/Error, Gate/Registry, Gate/Iac, Gate/Liveness: GateError, the operator's policy, the checks
--   of a credential and open_router_session, and check_session_liveness, of lib.rs.
-- - Gate/Identity, with Window and Caller: identity.rs. The replay cache is a field of the gate.
-- - Gate/Github, with Execute: github.rs, the checks before a call and the calls. The HTTP client is
--   an argument, and a call that panics gives none.
-- - Gate/Operations, with Reserve and Recover: operations.rs. What the file system answers is an
--   argument, a write that stops half way included.
-- - Gate/Server: server.rs. Session is ensure_live_session; Publish what both handlers do from the
--   publication to the receipt; Admit their checks; Invoke and Chat the handlers, with the calls of
--   GitHub or of the model in what they leave; Headers and Routes the headers, the answers and the
--   route of tools. Steps is the `?` of a call that changes the state.
-- - Gate/Audit, Gate/Heartbeat: the bounded log of audit.rs, and liveness.rs.
-- - Gate/Alarm, with Engine: the alarms of alarm.rs. The arithmetic of f64 is a parameter.
-- - Core/Siem: siem.rs. Gate/Siem, with Config, Queue, Open and Status: the export queue of siem_export.rs.
--   What the file system answers is an argument; the lines written are not kept.
-- - Tests and Tests/*: stand-ins for the outside crates, and examples.
-- Functions keep the names of the code; a loop or a part of a function has a name of its own, said
-- in the comment above it. The other modules hold the proofs about the module that they stand under.
--
-- Parameters: serde_json, sha2, hex and secp256k1 stand in the record External of Core/External, and
-- the writing and reading of journal frames in the record Codec of Gate/Operations. What is relied on
-- of them is said in SigningLaws, HexDigests, ReadsBack and IntentLaws, and only the theorems that
-- need it take it. The response with which axum rejects the body of a request is an argument.
-- The relay, with the envelope that an event is sent in, is a function from a signed event to the id
-- of the envelope or an error. Times are arguments.
--
-- Not modelled: network and file access as such, the poisoned lock of the replay cache, the other
-- routes of server.rs, the readings, the sending of the SIEM export, the advisor, the command line,
-- the demo and the site.
pub mod Prelude
pub mod Core
pub mod Gate
pub mod Tests
