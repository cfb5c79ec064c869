-- ===== src/Gate/Siem/Queue.antt =====
-- The state of `SiemExporter` of membrane-gate/src/siem_export.rs and what is done with it under its
-- lock: `push`, `enqueue`, `admission`, `take_batch`, `ack`, `backoff`, and what `run` does after an
-- answer.
pub mod Chain
pub mod Turns
pub mod Counted
pub mod Delay
use the_membrane.Prelude.{
  ℕ, ℤ, pos, suc, zero, ◌+◌, ◌-◌, ◌*◌, ◌/◌, ◌%◌, ◌^◌, String, ◌==◌, Bool, true, false, ◌&&◌, ◌||◌,
  not, Option, none, some, List, [], ◌∷◌, ◌++◌, length, eqb, ltb, leb, ltb_ℤ, wrapping_sub, as_i64,
  Result, ok, err, ◌>>=◌, ◌>>◌, deny_if, map_err, format, decimal, if◌then◌else◌, u64_max,
}
use the_membrane.Core.External.{External}
use the_membrane.Core.Siem.{SiemEvent}
use the_membrane.Gate.Error.{GateError, siem_export}
use the_membrane.Gate.Siem.{
  FailureMode, fail_closed, degrade, ExportConfig, Gap, Envelope, SpoolCodec, bad, wrapping_suc,
  envelope_hash,
}

pub record State : Type 0 where
  pub pending : List Envelope
  pub next_seq : ℕ
  pub last_hash : String
  pub acked_hash : String
  pub acked_in_file : ℕ
  pub overflow_open : Bool
  pub overflow_dropped : ℕ
  pub dropped_total : ℕ
  pub delivered_total : ℕ
  pub consecutive_failures : ℕ
  pub last_success : Option ℤ
  pub last_error : Option String
  pub io_failed : Bool
  pub batch_cap : ℕ

-- The clock and the answer of the file system at one push.
pub record At : Type 0 where
  pub ts : ℤ
  pub write : Result String (Unit {0})

abbrev pub started : Gap
started = record { phase = "started"; dropped = 0 }

abbrev pub ended : ℕ → Gap
ended dropped = record { phase = "ended"; dropped = dropped }

-- An event that is not queued, counted.
abbrev pub count_dropped : State → State
count_dropped st = record st { dropped_total = wrapping_suc st.dropped_total }

-- After the error of a push.
abbrev pub note_failure : State → State
note_failure st = record (count_dropped st) {
  io_failed = true;
  last_error = some "spool write failed";
}

abbrev pub settle : Result GateError (Unit {0}) × State → State
settle (ok _, st) = st
settle (err _, st) = note_failure st

module _ (x : External) (codec : SpoolCodec) where
  -- The state changes only once the line is on the disk.
  unfoldable pub push : State → At → String → Option SiemEvent → Option Gap → Result GateError State
  push st at kind event gap = do
    hash ← envelope_hash x codec st.next_seq st.last_hash at.ts kind event gap
    let env : Envelope = record {
      seq = st.next_seq;
      prev = st.last_hash;
      ts = at.ts;
      kind = kind;
      event = event;
      gap = gap;
      hash = hash;
    }
    line ← map_err bad (codec.line env)
    map_err (λ e. bad (format ("spool I/O: " ∷ e ∷ []))) at.write
    ok (record st {
      next_seq = wrapping_suc st.next_seq;
      last_hash = hash;
      pending = st.pending ++ (env ∷ []);
    })

  -- A push whose success is followed by a change of the state.
  unfoldable pub then_change :
      State → (State → State) → Result GateError State → Result GateError (Unit {0}) × State
  then_change st change (err e) = (err e, st)
  then_change st change (ok next) = (ok tt, change next)

  -- The end of the closure of `enqueue`, where no overflow is open.
  unfoldable pub queue_event : ℕ → State → At → SiemEvent → Result GateError (Unit {0}) × State
  queue_event cap st at event =
      if leb cap (length st.pending)
      then then_change st
          (λ next. count_dropped (record next { overflow_open = true; overflow_dropped = 1 }))
          (push st at "gap" none (some started))
      else then_change st (λ next. next) (push st at "event" (some event) none)

  -- After the push of the marker that ends an overflow.
  unfoldable pub after_ended :
      ℕ → State → At → SiemEvent → Result GateError State → Result GateError (Unit {0}) × State
  after_ended cap st at event (err e) = (err e, st)
  after_ended cap st at event (ok next) =
      queue_event cap (record next { overflow_open = false; overflow_dropped = 0 }) at event

  -- By whether an overflow is open and whether there is room below the bound.
  unfoldable pub by_overflow :
      Bool → Bool → ℕ → State → At → At → SiemEvent → Result GateError (Unit {0}) × State
  by_overflow false below cap st first at event = queue_event cap st at event
  by_overflow true true cap st first at event =
      after_ended cap st at event (push st first "gap" none (some (ended st.overflow_dropped)))
  by_overflow true false cap st first at event =
      (ok tt, count_dropped (record st { overflow_dropped = wrapping_suc st.overflow_dropped }))

  unfoldable pub try_enqueue : ℕ → State → At → At → SiemEvent → Result GateError (Unit {0}) × State
  try_enqueue cap st first at event =
      by_overflow st.overflow_open (ltb (length st.pending) cap) cap st first at event

  unfoldable pub enqueue : ExportConfig → State → At → At → SiemEvent → State
  enqueue cfg st first at event = settle (try_enqueue cfg.max_buffered_events st first at event)

abbrev pub max_ℕ : ℕ → ℕ → ℕ
max_ℕ a b = if leb a b then b else a

abbrev pub min_ℕ : ℕ → ℕ → ℕ
min_ℕ a b = if leb a b then a else b

abbrev pub headroom : ℕ → ℕ
headroom cap = max_ℕ (cap / 10) 10

-- The age of the oldest envelope that waits.
abbrev pub lag : List Envelope → ℤ → ℤ
lag [] now = pos 0
lag (e ∷ _) now = wrapping_sub now e.ts

unfoldable pub admission_in : FailureMode → ExportConfig → State → ℤ → Result GateError (Unit {0})
admission_in degrade cfg st now = ok tt
admission_in fail_closed cfg st now =
    deny_if
      (st.io_failed
        || st.overflow_open
        || ltb cfg.max_buffered_events (length st.pending + headroom cfg.max_buffered_events)
        || ltb_ℤ (as_i64 cfg.fail_closed_lag_secs) (lag st.pending now))
      (siem_export "audit export is not keeping up; new authorizations are refused")

unfoldable pub admission : ExportConfig → State → ℤ → Result GateError (Unit {0})
admission cfg st now = admission_in cfg.failure_mode cfg st now

-- The loop of `take_batch`: `size` is the length of an envelope's line, 0 where it cannot be
-- written, and `n` envelopes at most are looked at.
unfoldable pub batch_from : (Envelope → ℕ) → ℕ → ℕ → Bool → ℕ → List Envelope → List Envelope
batch_from size limit zero is_first bytes es = []
batch_from size limit (suc n) is_first bytes [] = []
batch_from size limit (suc n) is_first bytes (e ∷ es) =
    let total = bytes + (size e + 512) in
    let rest = batch_from size limit n false total es in
    if not is_first && ltb limit total then [] else e ∷ rest

unfoldable pub take_batch : ExportConfig → (Envelope → ℕ) → State → List Envelope
take_batch cfg size st = batch_from size cfg.batch_max_bytes st.batch_cap true 0 st.pending

abbrev pub is_empty {ℓ} : {A : Type ℓ} → List A → Bool
is_empty [] = true
is_empty (_ ∷ _) = false

-- One turn of the loop of `ack`, by the envelopes that wait.
unfoldable pub ack_front : List Envelope → State → State
ack_front [] st = st
ack_front (e ∷ rest) st = record st {
  pending = rest;
  acked_hash = e.hash;
  acked_in_file = st.acked_in_file + 1;
  delivered_total = wrapping_suc st.delivered_total;
}

-- The loop: `cursor n` tells whether the cursor is written when `n` more envelopes follow.
unfoldable pub ack_each : ℕ → (ℕ → Bool) → State → Bool × State
ack_each zero cursor st = (false, st)
ack_each (suc n) cursor st =
    let (failed, last) = ack_each n cursor (ack_front st.pending st) in
    ((not (is_empty st.pending) && not (cursor n)) || failed, last)

abbrev pub note_cursor_failure : State → State
note_cursor_failure st = record st {
  io_failed = true;
  last_error = some "spool cursor write failed";
}

-- After the loop: the spool is compacted where it can be, which `spool_written` tells.
unfoldable pub compact : ℕ → Bool → Bool × State → State
compact cap spool_written (failed, st) =
    if failed
    then note_cursor_failure st
    else if is_empty st.pending || leb cap st.acked_in_file
    then if spool_written then record st { acked_in_file = 0 } else note_cursor_failure st
    else st

unfoldable pub ack : ExportConfig → ℕ → (ℕ → Bool) → Bool → State → State
ack cfg count cursor spool_written st =
    compact cfg.max_buffered_events spool_written (ack_each count cursor st)

-- `saturating_add(1)` on a u32
abbrev pub more_failures : ℕ → ℕ
more_failures n = if ltb n (2 ^ 32 - 1) then n + 1 else n

-- After an answer that is no success; the batches shrink after a status 413.
abbrev pub note_rejected : ℕ → State → State
note_rejected status st = record st {
  consecutive_failures = more_failures st.consecutive_failures;
  last_error = some (format ("HTTP " ∷ decimal status ∷ []));
  batch_cap = if eqb status 413 then max_ℕ (st.batch_cap / 2) 1 else st.batch_cap;
}

abbrev pub note_delivered : ExportConfig → ℤ → State → State
note_delivered cfg now st = record st {
  consecutive_failures = 0;
  last_success = some now;
  last_error = none;
  batch_cap = cfg.batch_max_events;
}

-- What `run` does with the answer to a batch.
unfoldable pub note_answer :
    ExportConfig → ℤ → ℕ → (ℕ → Bool) → Bool → Result String ℕ → State → State
note_answer cfg now count cursor spool_written (err e) st = record st {
  consecutive_failures = more_failures st.consecutive_failures;
  last_error = some e;
}
note_answer cfg now count cursor spool_written (ok status) st =
    if leb 200 status && ltb status 300
    then note_delivered cfg now (ack cfg count cursor spool_written st)
    else note_rejected status st

-- The longest `Duration`, in nanoseconds
abbrev pub duration_max : ℕ
duration_max = u64_max * 10 ^ 9 + 999999999

-- In nanoseconds; `subsec_nanos` is that of the clock.
unfoldable pub backoff : ExportConfig → ℕ → ℕ → ℕ
backoff cfg failures subsec_nanos =
    let base = min_ℕ (cfg.backoff_initial_ms * 10 ^ 6 * 2 ^ min_ℕ (failures - 1) 16) duration_max in
    let capped = min_ℕ base (cfg.backoff_max_secs * 10 ^ 9) in
    capped + capped / 1000 * (subsec_nanos % 200)
