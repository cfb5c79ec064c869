-- ===== src/Tests/Siem.antt =====
-- Examples of the export.
use the_membrane.Gate.Siem.Queue.Chain.{Linked}
use the_membrane.Prelude.{
  as_i64, ◌+◌, ◌≤◌, pos, ◌==◌, true, false, ◌&&◌, [], ◌∷◌, none, some, ok, length, if◌then◌else◌,
  ◌≡◌, refl, arith,
}
use the_membrane.Core.Event.{is_router}
use the_membrane.Core.Hash.{genesis_cp_hash}
use the_membrane.Core.Siem.{SiemEvent, from_membrane_event, status_of}
use the_membrane.Core.Siem.Outcome.{is_router_payload, from_membrane_event-outcome}
use the_membrane.Gate.Siem.{
  envelope_hash, verify_from, ExportConfig, SpoolCodec, fail_closed, verify_chain,
}
use the_membrane.Gate.Siem.Queue.{
  admission_in, State, At, push, then_change, settle, enqueue, admission,
}
use the_membrane.Gate.Siem.Queue.Turns.{Turn, queued, answered, turns, room}
use the_membrane.Gate.Siem.Queue.Counted.{count_events, enqueue-counted, admission-enqueue}
use the_membrane.Gate.Siem.Queue.{backoff}
use the_membrane.Gate.Siem.Queue.Delay.{backoff_bounds}
use the_membrane.Prelude.{◌*◌}
use the_membrane.Gate.Siem.{Envelope}
use the_membrane.Gate.Siem.Open.{
  count_acked, find_anchor, link_after, read_bytes, read_cursor, read_envelopes, read_spool,
  restore, SpoolReader, Files, not_found, open_spool,
}
use the_membrane.Gate.Siem.Open.Restored.{open_spool-ok}
use the_membrane.Prelude.{some, ok, err}
use the_membrane.Gate.Siem.Open.Kept.{turns-open_spool}
use the_membrane.Tests.{flat, receipt}

from_membrane_event-outcome_example :
    let r = from_membrane_event flat receipt (some "id") in
    ((r.outcome == "allowed") ≡ (is_router receipt.event_type && is_router_payload receipt.payload))
    × (status_of r.outcome ≡ (if r.severity == "high" then "Failure" else "Success"))
from_membrane_event-outcome_example = from_membrane_event-outcome flat receipt (some "id")

abbrev config : ExportConfig
config = record {
  failure_mode = fail_closed;
  max_buffered_events = 100;
  batch_max_events = 10;
  batch_max_bytes = 4096;
  flush_interval_secs = 5;
  backoff_initial_ms = 500;
  backoff_max_secs = 60;
  fail_closed_lag_secs = 300;
}

abbrev codec : SpoolCodec
codec = record { hash_body = λ seq prev ts kind event gap. ok []; line = λ e. ok [] }

abbrev fresh : State
fresh = record {
  pending = [];
  next_seq = 0;
  last_hash = genesis_cp_hash;
  acked_hash = genesis_cp_hash;
  acked_in_file = 0;
  overflow_open = false;
  overflow_dropped = 0;
  dropped_total = 0;
  delivered_total = 0;
  consecutive_failures = 0;
  last_success = none;
  last_error = none;
  io_failed = false;
  batch_cap = 10;
}

abbrev event : SiemEvent
event = from_membrane_event flat receipt none

abbrev at : At
at = record { ts = pos 100; write = ok tt }

abbrev day : Turn
day = queued at at event

enqueue-counted_example :
    let next = enqueue flat codec config fresh at at event in
    count_events next.pending + next.dropped_total ≡ 1
enqueue-counted_example = enqueue-counted flat codec config fresh at at event (omega arith)

admitted : admission config fresh (pos 101) ≡ ok tt
unfolding admission admission_in as_i64
admitted = refl

admission-enqueue_example :
    enqueue flat codec config fresh at at event
    ≡ settle (
        then_change flat codec fresh
          (λ next. next)
          (push flat codec fresh at "event" (some event) none))
admission-enqueue_example =
    admission-enqueue flat codec config fresh (pos 101) at at event refl admitted

abbrev stored : Envelope
stored = record {
  seq = 0;
  prev = genesis_cp_hash;
  ts = pos 90;
  kind = "event";
  event = some event;
  gap = none;
  hash = flat.hex_encode (flat.sha256 []);
}

abbrev reader : SpoolReader
reader = record { value = λ bytes. none; as_u64 = λ v. none; envelope = λ bytes. some stored }

abbrev files : Files
files = record { made = ok tt; cursor = err not_found; spool = ok (49 ∷ 10 ∷ []) }

abbrev reopened : State
reopened = record fresh { pending = stored ∷ []; next_seq = 1; last_hash = stored.hash }

opened : open_spool flat codec reader config files ≡ ok reopened
unfolding open_spool read_cursor read_spool read_bytes read_envelopes restore count_acked
    find_anchor link_after verify_chain verify_from envelope_hash
opened = refl

open_spool-ok_example :
    (verify_chain flat codec reopened.pending reopened.acked_hash ≡ ok tt)
    × Linked flat codec reopened
    × (length reopened.pending ≤ 101)
open_spool-ok_example = open_spool-ok flat codec reader config files reopened opened

backoff_bounds_example : 5 * backoff config 20 1199 ≤ 6 * (60 * 1000000000)
backoff_bounds_example = backoff_bounds config 20 1199

turns-open_spool_example :
    let last =
      turns flat codec config reopened
        (day ∷ answered (pos 105) 1 (λ n. true) true (ok 200) ∷ day ∷ []) in
    (verify_chain flat codec last.pending last.acked_hash ≡ ok tt)
    × (length last.pending ≤ 101 + room last.overflow_open)
turns-open_spool_example =
    turns-open_spool flat codec config reader files reopened
      (day ∷ answered (pos 105) 1 (λ n. true) true (ok 200) ∷ day ∷ []) opened
