-- ===== src/Gate/Operations/Reserve.antt =====
-- Reserving and finishing tool operations: `reserve_in_scope`, `finish` and `unresolved` of
-- membrane-gate/src/operations.rs. The key stands for the path that the source returns.
pub mod Once
use the_membrane.Prelude.{
  ℕ, String, ◌==◌, Bool, true, false, ◌&&◌, ◌||◌, not, Option, none, some, List, [], ◌∷◌, any,
  contains, leb, len, trim, Result, ok, err, ◌>>=◌, ◌>>◌, deny_if, ok_or, format, if◌then◌else◌,
  Map, lookup, insert, ◌≡◌,
}
use the_membrane.Core.Value.{Value}
use the_membrane.Core.External.{External}
use the_membrane.Gate.Error.{GateError}
use the_membrane.Gate.Github.{ToolInvokeRequest}
use the_membrane.Gate.Operations.{
  Record, Frame, intent, outcome, review, Codec, Journal, Io, failure, operation_key, records,
  append,
}

pub record UnresolvedOperation : Type 0 where
  pub key : String
  pub caller : String
  pub scope : String
  pub state : String
  pub request : ToolInvokeRequest
  pub evidence : Option Value

abbrev pub is_intent : String → Record → Bool
is_intent key (intent k caller scope request) = k == key
is_intent key _ = false

-- serde_json reads the tag of a record and the text of its key as they were written, whatever it
-- makes of the numbers and the payloads in the record.
pub record IntentLaws (codec : Codec) : Type 0 where
  pub is_intent-read :
      (key : String) (frame read : Frame) (line : String)
      → codec.print_frame frame ≡ ok line
      → codec.parse_frame line ≡ ok read
      → is_intent key read.record_of ≡ is_intent key frame.record_of

-- `.filter(|s| !s.trim().is_empty() && s.len() <= 128)`
unfoldable pub valid_id : Option String → Option String
valid_id none = none
valid_id (some s) = if not (trim s == "") && leb (len s) 128 then some s else none

-- One turn of the loop of `unresolved`.
unfoldable pub note_record :
    Map UnresolvedOperation → Record → Result GateError (Map UnresolvedOperation)
note_record m (intent key caller scope request) = ok (
    insert key
      (record {
        key = key;
        caller = caller;
        scope = scope;
        state = "reserved";
        request = request;
        evidence = none;
      })
      m)
note_record m (outcome key state) = do
  op ← ok_or (lookup key m) (failure "outcome without intent")
  ok (insert key (record op { state = state }) m)
note_record m (review key evidence) = do
  op ← ok_or (lookup key m) (failure "review without intent")
  ok (insert key (record op { state = "operator_review"; evidence = some evidence }) m)
note_record m _ = ok m

unfoldable pub note_records :
    Map UnresolvedOperation → List Record → Result GateError (Map UnresolvedOperation)
note_records m [] = ok m
note_records m (r ∷ rest) = do next ← note_record m r; note_records next rest

unfoldable pub still_open : Map UnresolvedOperation → List UnresolvedOperation
still_open [] = []
still_open ((k, op) ∷ m) =
    let rest = still_open m in if op.state == "completed" then rest else op ∷ rest

module _ (x : External) (codec : Codec) where
  -- Up to the append of `reserve_in_scope`: the key of the operation.
  unfoldable pub reserve_key : Io → Journal → String → ToolInvokeRequest → Result GateError String
  reserve_key io j caller req = do
    id ←
        ok_or (valid_id req.operation_id)
          (failure "mutating tools require operation_id (1-128 bytes)")
    key ← operation_key x codec caller id
    rs ← records x codec io j
    deny_if (contains j.legacy (format (key ∷ ".jsonl" ∷ [])) || any (is_intent key) rs)
        (failure "operation already reserved; never automatically retry")
    ok key

  unfoldable pub commit_intent :
      Io
      → Journal
      → String
      → String
      → ToolInvokeRequest
      → Result GateError String
      → Result GateError String × Journal
  commit_intent io j caller scope req (err e) = (err e, j)
  commit_intent io j caller scope req (ok key) =
      let (answer, next) = append x codec io j (intent key caller scope req) in
      (answer >> ok key, next)

  unfoldable pub reserve_in_scope :
      Io → Journal → String → String → ToolInvokeRequest → Result GateError String × Journal
  reserve_in_scope io j caller scope req =
      commit_intent io j caller scope req (reserve_key io j caller req)

  unfoldable pub unresolved : Io → Journal → Result GateError (List UnresolvedOperation)
  unresolved io j = do rs ← records x codec io j; m ← note_records [] rs; ok (still_open m)

  -- The check of `finish`.
  unfoldable pub finish_check : Io → Journal → String → Result GateError (Unit {0})
  finish_check io j key = do
    ops ← unresolved io j
    deny_if (not (any (λ op. op.key == key) ops)) (failure "outcome missing unresolved intent")

  unfoldable pub finish_with :
      Io
      → Journal
      → String
      → Bool
      → Result GateError (Unit {0})
      → Result GateError (Unit {0}) × Journal
  finish_with io j key success (err e) = (err e, j)
  finish_with io j key success (ok tt) =
      append x codec io j (outcome key (if success then "completed" else "uncertain"))

  unfoldable pub finish : Io → Journal → String → Bool → Result GateError (Unit {0}) × Journal
  finish io j key success = finish_with io j key success (finish_check io j key)
