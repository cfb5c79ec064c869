-- ===== src/Gate/Operations.antt =====
-- The journal of membrane-gate/src/operations.rs: its records and how they are read and appended.
-- The bytes of the file are its lines, each with the newline after it, and what follows the last
-- newline. A lock that another thread poisoned is not modelled.
pub mod Append
pub mod Reserve
pub mod Recover
use the_membrane.Prelude.{
  ◌≡◌, ℕ, ◌+◌, ℤ, String, ◌==◌, Bool, ◌&&◌, not, Option, List, [], ◌∷◌, ◌++◌, length, eqb, Result,
  ok, err, ◌>>=◌, ◌>>◌, deny_if, map_err, format, if◌then◌else◌,
}
use the_membrane.Core.Value.{Value}
use the_membrane.Core.Event.{MembraneEvent}
use the_membrane.Core.External.{External, Bytes}
use the_membrane.Core.Hash.{genesis_cp_hash}
use the_membrane.Gate.Error.{GateError, connector}
use the_membrane.Gate.Github.{ToolInvokeRequest}

pub data Record : Type 0 where
  -- key, caller, scope, request
  intent : String → String → String → ToolInvokeRequest → Record
  -- key, state
  outcome : String → String → Record
  -- key, evidence
  review : String → Value → Record
  -- token
  publishing : String → Record
  publication_aborted : String → Record
  -- token, caller, event, the id on the bus
  checkpoint : String → String → MembraneEvent → Option String → Record
  -- scope, reason, time
  sever : String → String → ℤ → Record

pub record Frame : Type 0 where
  pub sequence : ℕ
  pub previous : String
  pub record_of : Record
  pub checksum : String

-- What serde_json does with the journal's types: `frame_body` writes the triple that a checksum is
-- of, `key_body` the pair that an operation's key is of.
pub record Codec : Type 0 where
  pub frame_body : ℕ → String → Record → Result String Bytes
  pub key_body : String → String → Result String Bytes
  pub print_frame : Frame → Result String String
  pub parse_frame : String → Result String Frame

-- The frame of a record
abbrev pub frame_of : Record → ℕ → String → String → Frame
frame_of r sequence previous checksum = record {
  sequence = sequence;
  previous = previous;
  record_of = r;
  checksum = checksum;
}

-- serde_json reads every line that it writes for the record as the record itself. This is so of a
-- record of texts and whole numbers. It is not so of an event whose generic payload has the members
-- of a router's payload, which is read as that, nor of every number with a fraction.
unfoldable pub ReadsBack : Codec → Record → Type 0
ReadsBack codec r =
    (sequence : ℕ) (previous checksum line : String)
    → codec.print_frame (frame_of r sequence previous checksum) ≡ ok line
    → codec.parse_frame line ≡ ok (frame_of r sequence previous checksum)

-- `legacy` are the names of the other files in the directory.
pub record Journal : Type 0 where
  pub lines : List String
  pub torn : String
  pub legacy : List String

-- What the file system answers during a call. A write that fails leaves a part of the line; one that
-- cannot be synchronized leaves all of it.
pub data Write : Type 0 where
  written : Write
  cut_short : String → String → Write
  unsynced : String → Write

pub record Io : Type 0 where
  pub acquire : Result String (Unit {0})
  pub read : Result String (Unit {0})
  pub write : Write

abbrev pub failure : String → GateError
failure e = connector (format ("journal failed closed: " ∷ e ∷ []))

unfoldable pub write_line : Write → Journal → String → Result GateError (Unit {0}) × Journal
write_line written j line = (ok tt, record j { lines = j.lines ++ line ∷ [] })
write_line (cut_short part e) j line = (err (failure e), record j { torn = part })
write_line (unsynced e) j line = (err (failure e), record j { lines = j.lines ++ line ∷ [] })

unfoldable pub write_next :
    Write → Journal → Result GateError String → Result GateError (Unit {0}) × Journal
write_next w j (err e) = (err e, j)
write_next w j (ok line) = write_line w j line

module _ (x : External) (codec : Codec) where
  -- `digest(&(sequence, &previous, &record))`
  unfoldable pub checksum : ℕ → String → Record → Result GateError String
  checksum sequence previous r = do
    bytes ← map_err failure (codec.frame_body sequence previous r)
    ok (x.hex_encode (x.sha256 bytes))

  -- `digest(&(caller, id))`
  unfoldable pub operation_key : String → String → Result GateError String
  operation_key caller id = do
    bytes ← map_err failure (codec.key_body caller id)
    ok (x.hex_encode (x.sha256 bytes))

  -- The loop over the lines, from the given sequence number and checksum on.
  unfoldable pub read_frames : ℕ → String → List String → Result GateError (List Record)
  read_frames index prev [] = ok []
  read_frames index prev (line ∷ lines) = do
    frame ← map_err failure (codec.parse_frame line)
    sum ← checksum frame.sequence frame.previous frame.record_of
    deny_if (not (eqb frame.sequence index && frame.previous == prev && frame.checksum == sum))
        (failure "journal checksum/sequence discontinuity")
    rest ← read_frames (index + 1) frame.checksum lines
    ok (frame.record_of ∷ rest)

  unfoldable pub records : Io → Journal → Result GateError (List Record)
  records io j = do
    map_err failure io.acquire
    map_err failure io.read
    deny_if (not (j.torn == "")) (failure "torn journal tail; operator review required")
    read_frames 0 genesis_cp_hash j.lines

  -- The loop that computes the last checksum again.
  unfoldable pub last_checksum : ℕ → String → List Record → Result GateError String
  last_checksum index prev [] = ok prev
  last_checksum index prev (r ∷ rest) = do
    sum ← checksum index prev r
    last_checksum (index + 1) sum rest

  -- The line that `append_inner` writes.
  unfoldable pub next_line : List Record → Record → Result GateError String
  next_line rs r = do
    previous ← last_checksum 0 genesis_cp_hash rs
    sum ← checksum (length rs) previous r
    map_err failure (
        codec.print_frame
          (record { sequence = length rs; previous = previous; record_of = r; checksum = sum }))

  unfoldable pub append : Io → Journal → Record → Result GateError (Unit {0}) × Journal
  append io j r = write_next io.write j (records io j >>= (λ rs. next_line rs r))

  -- `begin_publication`; the token is drawn at random.
  unfoldable pub begin_publication : Io → Journal → String → Result GateError String × Journal
  begin_publication io j token =
      let (answer, next) = append io j (publishing token) in (answer >> ok token, next)
