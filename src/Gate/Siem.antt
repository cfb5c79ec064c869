-- ===== src/Gate/Siem.antt =====
-- The export queue of membrane-gate/src/siem_export.rs. The spool's file is known by the answer of
-- each write, and the clock and serde_json are arguments. A counter of the type u64 wraps around.
pub mod Queue
pub mod Open
pub mod Config
pub mod Status
use the_membrane.Prelude.{
  ℕ, ℤ, pos, ◌+◌, ◌*◌, ◌/◌, ◌%◌, ◌^◌, String, ◌==◌, Bool, true, false, ◌&&◌, ◌||◌, not, Option,
  none, some, List, [], ◌∷◌, ◌++◌, length, eqb, ltb, leb, Result, ok, err, ◌>>=◌, ◌>>◌, deny_if,
  map_err, format, if◌then◌else◌,
}
use the_membrane.Core.External.{External, Bytes}
use the_membrane.Core.Siem.{SiemEvent}
use the_membrane.Gate.Error.{GateError, registry}

pub data FailureMode : Type 0 where
  fail_closed degrade : FailureMode

-- The fields of the configuration that the queue reads.
pub record ExportConfig : Type 0 where
  pub failure_mode : FailureMode
  pub max_buffered_events : ℕ
  pub batch_max_events : ℕ
  pub batch_max_bytes : ℕ
  pub flush_interval_secs : ℕ
  pub backoff_initial_ms : ℕ
  pub backoff_max_secs : ℕ
  pub fail_closed_lag_secs : ℕ

pub record Gap : Type 0 where
  pub phase : String
  pub dropped : ℕ

pub record Envelope : Type 0 where
  pub seq : ℕ
  pub prev : String
  pub ts : ℤ
  pub kind : String
  pub event : Option SiemEvent
  pub gap : Option Gap
  pub hash : String

-- What serde_json writes: the fields that a hash covers, and a whole envelope.
pub record SpoolCodec : Type 0 where
  pub hash_body : ℕ → String → ℤ → String → Option SiemEvent → Option Gap → Result String Bytes
  pub line : Envelope → Result String Bytes

abbrev pub bad : String → GateError
bad msg = registry (format ("SIEM export config: " ∷ msg ∷ []))

-- `+= 1` on a u64
abbrev pub wrapping_suc : ℕ → ℕ
wrapping_suc n = (n + 1) % 2 ^ 64

abbrev pub has_seq : Option ℕ → ℕ → Bool
has_seq none n = false
has_seq (some m) n = eqb m n

abbrev pub first_seq : List Envelope → Option ℕ
first_seq [] = none
first_seq (e ∷ _) = some e.seq

module _ (x : External) (codec : SpoolCodec) where
  unfoldable pub envelope_hash :
      ℕ → String → ℤ → String → Option SiemEvent → Option Gap → Result GateError String
  envelope_hash seq prev ts kind event gap = do
    bytes ←
        map_err (λ e. bad (format ("hash: " ∷ e ∷ []))) (codec.hash_body seq prev ts kind event gap)
    ok (x.hex_encode (x.sha256 bytes))

  -- The loop of `verify_chain`.
  unfoldable pub verify_from : Option ℕ → String → List Envelope → Result GateError (Unit {0})
  verify_from seq prev [] = ok tt
  verify_from seq prev (e ∷ rest) = do
    deny_if (not (has_seq seq e.seq) || not (e.prev == prev))
        (bad "export spool chain discontinuity")
    hash ← envelope_hash e.seq e.prev e.ts e.kind e.event e.gap
    deny_if (not (e.hash == hash)) (bad "export spool chain discontinuity")
    verify_from (some (wrapping_suc e.seq)) e.hash rest

  unfoldable pub verify_chain : List Envelope → String → Result GateError (Unit {0})
  verify_chain envelopes expected_prev = verify_from (first_seq envelopes) expected_prev envelopes
