-- ===== src/Gate/Siem/Open.antt =====
-- `SiemExporter::open` of membrane-gate/src/siem_export.rs: the state that a start finds in the
-- spool and its cursor. What the file system answers is an argument.
pub mod Restored
pub mod Kept
use the_membrane.Prelude.{
  ℕ, ◌+◌, ◌-◌, String, ◌==◌, Bool, true, false, ◌&&◌, not, Option, none, some, is_some, unwrap_or,
  List, [], ◌∷◌, ◌++◌, length, get_elem?, drop, eqb, ltb, leb, Result, ok, err, ◌>>=◌, ◌>>◌,
  deny_if, map_err, ok_or, format, if◌then◌else◌,
}
use the_membrane.Core.External.{External, Bytes}
use the_membrane.Core.Hash.{genesis_cp_hash}
use the_membrane.Core.Siem.{or_else}
use the_membrane.Core.Value.{Value, null, get, as_str}
use the_membrane.Gate.Error.{GateError}
use the_membrane.Gate.Siem.{
  ExportConfig, Gap, Envelope, SpoolCodec, bad, wrapping_suc, verify_chain,
}
use the_membrane.Gate.Siem.Queue.{State}

-- `std::io::Error` by its kind
pub data IoError : Type 0 where
  not_found : IoError
  other : String → IoError

unfoldable pub io : IoError → GateError
io not_found = bad (format ("spool I/O: " ∷ "entity not found" ∷ []))
io (other kind) = bad (format ("spool I/O: " ∷ kind ∷ []))

-- What serde_json reads.
pub record SpoolReader : Type 0 where
  pub value : Bytes → Option Value
  pub as_u64 : Value → Option ℕ
  pub envelope : Bytes → Option Envelope

-- What the file system answers: to the creation of the directory, to the reading of the cursor and
-- to the reading of the spool.
pub record Files : Type 0 where
  pub made : Result IoError (Unit {0})
  pub cursor : Result IoError Bytes
  pub spool : Result IoError Bytes

abbrev pub corrupt : GateError
corrupt = bad "cursor.json is corrupt"

-- `v[name]`
abbrev pub index : Value → String → Value
index v name = unwrap_or (get v name) null

abbrev last_byte : ℕ → Bytes → ℕ
last_byte b [] = b
last_byte b (c ∷ rest) = last_byte c rest

-- Bytes that do not end with a line break
abbrev is_torn : Bytes → Bool
is_torn [] = false
is_torn (b ∷ rest) = not (eqb (last_byte b rest) 10)

abbrev cons_first : ℕ → List Bytes → List Bytes
cons_first b [] = (b ∷ []) ∷ []
cons_first b (line ∷ lines) = (b ∷ line) ∷ lines

-- `split(|b| *b == b'\n')`
abbrev split_lines : Bytes → List Bytes
split_lines [] = [] ∷ []
split_lines (b ∷ rest) =
    let lines = split_lines rest in if eqb b 10 then [] ∷ lines else cons_first b lines

-- The number and the hash that the envelope after the last one takes.
unfoldable pub link_after : ℕ → String → List Envelope → ℕ × String
link_after seq hash [] = (seq, hash)
link_after seq hash (e ∷ rest) = link_after (wrapping_suc e.seq) e.hash rest

-- The same where the spool is empty.
abbrev pub start_link : Option ℕ → String → ℕ × String
start_link (some seq) hash = (wrapping_suc seq, hash)
start_link none hash = (0, genesis_cp_hash)

-- The last gap of the envelopes
abbrev last_gap : List Envelope → Option Gap
last_gap [] = none
last_gap (e ∷ rest) = or_else (last_gap rest) e.gap

-- The gap of the last envelope
abbrev back_gap : List Envelope → Option Gap
back_gap [] = none
back_gap (e ∷ []) = e.gap
back_gap (e ∷ next ∷ rest) = back_gap (next ∷ rest)

abbrev has_phase : String → Option Gap → Bool
has_phase phase none = false
has_phase phase (some gap) = gap.phase == phase

abbrev is_overflowing : List Envelope → Bool
is_overflowing pending =
    has_phase "started" (last_gap pending) && not (has_phase "ended" (back_gap pending))

abbrev pub mismatch : GateError
mismatch = bad "export spool does not match its cursor"

abbrev pub too_long : GateError
too_long = bad "export spool exceeds max_buffered_events; raise it or clear the spool deliberately"

-- Where the spool starts at or before the cursor: the envelope that the cursor names.
unfoldable pub at_cursor : Option Envelope → String → ℕ → Result GateError (ℕ × Option String)
at_cursor none acked_hash idx = err mismatch
at_cursor (some e) acked_hash idx =
    if e.hash == acked_hash then ok (idx + 1, none) else err mismatch

-- The `match` for the anchor: how many envelopes are acknowledged, and the anchor.
unfoldable pub find_anchor :
    Option ℕ → String → Envelope → List Envelope → Result GateError (ℕ × Option String)
find_anchor (some acked) acked_hash first rest =
    if leb first.seq acked
    then at_cursor (get_elem? (first ∷ rest) (acked - first.seq)) acked_hash (acked - first.seq)
    else if eqb first.seq (wrapping_suc acked)
    then ok (0, some acked_hash)
    else err mismatch
find_anchor none acked_hash first rest =
    if eqb first.seq 0 then ok (0, some genesis_cp_hash) else err mismatch

module _ (reader : SpoolReader) where
  unfoldable pub read_cursor : Result IoError Bytes → Result GateError (Option ℕ × String)
  read_cursor (ok bytes) = do
    v ← ok_or (reader.value bytes) corrupt
    seq ← ok_or (reader.as_u64 (index v "acked_seq")) corrupt
    hash ← ok_or (as_str (index v "acked_hash")) corrupt
    ok (some seq, hash)
  read_cursor (err not_found) = ok (none, genesis_cp_hash)
  read_cursor (err e) = err (io e)

  unfoldable pub read_bytes : Result IoError Bytes → Result GateError Bytes
  read_bytes (ok bytes) = ok bytes
  read_bytes (err not_found) = ok []
  read_bytes (err e) = err (io e)

  -- The loop over the lines that are not empty.
  unfoldable pub read_envelopes : List Bytes → Result GateError (List Envelope)
  read_envelopes [] = ok []
  read_envelopes ([] ∷ lines) = read_envelopes lines
  read_envelopes ((b ∷ line) ∷ lines) = do
    e ← ok_or (reader.envelope (b ∷ line)) (bad "export spool is corrupt")
    rest ← read_envelopes lines
    ok (e ∷ rest)

  unfoldable pub read_spool : Result IoError Bytes → Result GateError (List Envelope)
  read_spool answer = do
    bytes ← read_bytes answer
    deny_if (is_torn bytes) (bad "torn export spool tail; operator review required")
    read_envelopes (split_lines bytes)

module _ (x : External) (codec : SpoolCodec) where
  -- How many envelopes of the spool are acknowledged, after the check of the chain.
  unfoldable pub count_acked : Option ℕ → String → List Envelope → Result GateError ℕ
  count_acked acked_seq acked_hash [] = ok 0
  count_acked acked_seq acked_hash (first ∷ rest) = do
    (acked_in_file, anchor) ← find_anchor acked_seq acked_hash first rest
    verify_chain x codec (first ∷ rest) (unwrap_or anchor first.prev)
    deny_if (not (is_some anchor) && eqb acked_in_file 0) mismatch
    ok acked_in_file

  unfoldable pub restore : ExportConfig → Option ℕ × String → List Envelope → Result GateError State
  restore cfg (acked_seq, acked_hash) envelopes = do
    acked_in_file ← count_acked acked_seq acked_hash envelopes
    let pending = drop acked_in_file envelopes
    let (seq, hash) = start_link acked_seq acked_hash
    let (next_seq, last_hash) = link_after seq hash envelopes
    deny_if (ltb (cfg.max_buffered_events + 1) (length pending)) too_long
    ok (record {
      pending = pending;
      next_seq = next_seq;
      last_hash = last_hash;
      acked_hash = acked_hash;
      acked_in_file = acked_in_file;
      overflow_open = is_overflowing pending;
      overflow_dropped = 0;
      dropped_total = 0;
      delivered_total = 0;
      consecutive_failures = 0;
      last_success = none;
      last_error = none;
      io_failed = false;
      batch_cap = cfg.batch_max_events;
    })

  unfoldable pub open_spool : SpoolReader → ExportConfig → Files → Result GateError State
  open_spool reader cfg files = do
    map_err io files.made
    cursor ← read_cursor reader files.cursor
    envelopes ← read_spool reader files.spool
    restore cfg cursor envelopes
