-- ===== src/Gate/Siem/Queue/Counted.antt =====
-- No event is lost without being counted, and one that was admitted is queued.
use the_membrane.Prelude.{
  ℕ, ℤ, String, suc, ◌+◌, ◌<◌, Bool, true, false, Option, none, some, is_some, List, [], ◌∷◌, ◌++◌,
  length, ltb, leb, Result, ok, err, Bool-cases, inl, inr, if◌then◌else◌, u64_max, ◌≡◌, refl, ap,
  ◌∙◌, arith,
}
use the_membrane.Core.External.{External}
use the_membrane.Core.Siem.{SiemEvent}
use the_membrane.Gate.Error.{GateError}
use the_membrane.Gate.Siem.{
  FailureMode, ExportConfig, fail_closed, degrade, Gap, Envelope, SpoolCodec, wrapping_suc,
}
use the_membrane.Gate.Siem.Queue.{
  State, At, count_dropped, note_failure, settle, push, then_change, queue_event, after_ended,
  by_overflow, try_enqueue, enqueue, started, ended, admission, admission_in, headroom,
}
use the_membrane.Gate.Siem.Queue.Chain.{push-ok}

-- How many of the envelopes carry an event.
abbrev pub count_events : List Envelope → ℕ
count_events [] = 0
count_events (e ∷ rest) = if is_some e.event then suc (count_events rest) else count_events rest

abbrev pub one_if : Bool → ℕ
one_if true = 1
one_if false = 0

count_events-append :
    (es : List Envelope) (env : Envelope)
    → count_events (es ++ (env ∷ [])) ≡ count_events es + one_if (is_some env.event)
count_events-append [] env = ground arith
count_events-append (e ∷ es) env = ground (arith, count_events-append es env)

wrapping_suc-lt : (n : ℕ) → n < u64_max → wrapping_suc n ≡ n + 1
wrapping_suc-lt n h = ground arith

below_bound : (n cap : ℕ) → ltb cap (n + headroom cap) ≡ false → leb cap n ≡ false
below_bound n cap h = ground arith

-- What an admission in the closed mode has seen.
refused_otherwise :
    (mode : FailureMode) (cfg : ExportConfig) (st : State) (now : ℤ)
    → mode ≡ fail_closed
    → admission_in mode cfg st now ≡ ok tt
    → (st.overflow_open ≡ false)
      × (ltb cfg.max_buffered_events (length st.pending + headroom cfg.max_buffered_events) ≡ false)
unfolding admission_in
refused_otherwise fail_closed cfg st now mode admitted = (ground arith, ground arith)
refused_otherwise degrade cfg st now mode admitted = cc

module _ (x : External) (codec : SpoolCodec) where
  -- What an event changes: it waits, or it is counted as dropped.
  Counts : State → State → Type 0
  Counts st t =
      count_events t.pending + t.dropped_total ≡ count_events st.pending + st.dropped_total + 1

  push-count_events :
      (st : State) (at : At) (kind : String) (event : Option SiemEvent) (gap : Option Gap)
      {next : State}
      → push x codec st at kind event gap ≡ ok next
      → (count_events next.pending ≡ count_events st.pending + one_if (is_some event))
        × (next.dropped_total ≡ st.dropped_total)
  push-count_events st at kind event gap h =
      let (env, same, a, b, c, d) = push-ok x codec st at kind event gap h in
      rw same (
        count_events-append st.pending env
            ∙ ap (λ e. count_events st.pending + one_if (is_some e)) d,
        refl,
      )

  note_failure-Counts :
      (st t : State)
      → t.dropped_total < u64_max
      → count_events t.pending ≡ count_events st.pending
      → t.dropped_total ≡ st.dropped_total
      → Counts st (note_failure t)
  unfolding Counts
  note_failure-Counts st t room same dropped =
      omega (arith, wrapping_suc-lt t.dropped_total room, same, dropped)

  dropped-Counts :
      (st here next : State)
      → here.dropped_total < u64_max
      → count_events here.pending ≡ count_events st.pending
      → here.dropped_total ≡ st.dropped_total
      → count_events next.pending ≡ count_events here.pending + 0
      → next.dropped_total ≡ here.dropped_total
      → Counts st (count_dropped (record next { overflow_open = true; overflow_dropped = 1 }))
  unfolding Counts
  dropped-Counts st here next room same dropped waiting count =
      let step = wrapping_suc-lt next.dropped_total (omega (arith, room, count)) in
      omega (arith, step, same, dropped, waiting, count)

  queued-Counts :
      (st here next : State)
      → count_events here.pending ≡ count_events st.pending
      → here.dropped_total ≡ st.dropped_total
      → count_events next.pending ≡ count_events here.pending + 1
      → next.dropped_total ≡ here.dropped_total
      → Counts st next
  unfolding Counts
  queued-Counts st here next same dropped waiting count =
      omega (arith, same, dropped, waiting, count)

  settle-Counts :
      (st here : State) (change : State → State) (r : Result GateError State)
      → Counts st (note_failure here)
      → ((next : State) → r ≡ ok next → Counts st (change next))
      → Counts st (settle (then_change x codec here change r))
  unfolding then_change
  settle-Counts st here change (err e) failed there = failed
  settle-Counts st here change (ok next) failed there = there next refl

  queue_event-Counts :
      (cap : ℕ) (st here : State) (at : At) (event : SiemEvent)
      → here.dropped_total < u64_max
      → count_events here.pending ≡ count_events st.pending
      → here.dropped_total ≡ st.dropped_total
      → Counts st (settle (queue_event x codec cap here at event))
  unfolding queue_event
  queue_event-Counts cap st here at event room same dropped =
      elim (Bool-cases (leb cap (length here.pending))) [
        | inl full ↦ rw full (
            settle-Counts st here
              (λ next. count_dropped (record next { overflow_open = true; overflow_dropped = 1 }))
              (push x codec here at "gap" none (some started))
              (note_failure-Counts st here room same dropped)
              (λ next pushed.
                let (waiting, count) = push-count_events here at "gap" none (some started) pushed in
                dropped-Counts st here next room same dropped waiting count))
        | inr fits ↦ rw fits (
            settle-Counts st here (λ next. next) (push x codec here at "event" (some event) none)
              (note_failure-Counts st here room same dropped)
              (λ next pushed.
                let (waiting, count) = push-count_events here at "event" (some event) none pushed in
                queued-Counts st here next same dropped waiting count))
      ]

  after_ended-Counts :
      (cap : ℕ) (st : State) (at : At) (event : SiemEvent) (r : Result GateError State)
      → st.dropped_total < u64_max
      → ((next : State)
          → r ≡ ok next
          → (count_events next.pending ≡ count_events st.pending + 0)
            × (next.dropped_total ≡ st.dropped_total))
      → Counts st (settle (after_ended x codec cap st at event r))
  unfolding after_ended
  after_ended-Counts cap st at event (err e) room there = note_failure-Counts st st room refl refl
  after_ended-Counts cap st at event (ok next) room there =
      let (waiting, count) = there next refl in
      queue_event-Counts cap st (record next { overflow_open = false; overflow_dropped = 0 }) at
        event (omega (arith, room, count)) (omega (arith, waiting)) count

  by_overflow-Counts :
      (is_open below : Bool) (cap : ℕ) (st : State) (first at : At) (event : SiemEvent)
      → st.dropped_total < u64_max
      → Counts st (settle (by_overflow x codec is_open below cap st first at event))
  unfolding by_overflow Counts
  by_overflow-Counts false below cap st first at event room =
      queue_event-Counts cap st st at event room refl refl
  by_overflow-Counts true false cap st first at event room =
      omega (arith, wrapping_suc-lt st.dropped_total room)
  by_overflow-Counts true true cap st first at event room =
      let gap = some (ended st.overflow_dropped) in
      after_ended-Counts cap st at event (push x codec st first "gap" none gap) room
        (λ next pushed. push-count_events st first "gap" none gap pushed)

  -- Queueing an event makes exactly one more of them: one that waits, or one that is counted as
  -- dropped, whatever the disk does and whether an overflow is open, before the counter wraps around.
  pub enqueue-counted :
      (cfg : ExportConfig) (st : State) (first at : At) (event : SiemEvent)
      → st.dropped_total < u64_max
      → let next = enqueue x codec cfg st first at event in
        count_events next.pending + next.dropped_total
        ≡ count_events st.pending + st.dropped_total + 1
  unfolding enqueue try_enqueue Counts
  enqueue-counted cfg st first at event room =
      by_overflow-Counts st.overflow_open (ltb (length st.pending) cfg.max_buffered_events)
        cfg.max_buffered_events st first at event room

  by_overflow-closed :
      (is_open below : Bool) (cap : ℕ) (st : State) (first at : At) (event : SiemEvent)
      → is_open ≡ false
      → leb cap (length st.pending) ≡ false
      → by_overflow x codec is_open below cap st first at event
        ≡ then_change x codec st (λ next. next) (push x codec st at "event" (some event) none)
  unfolding by_overflow queue_event
  by_overflow-closed true below cap st first at event closed fits = cc
  by_overflow-closed false below cap st first at event closed fits = rw fits refl

  -- Where new work is refused when the export lags: if a request is admitted, the next event is not
  -- taken for an overflow; the queue pushes it as an event, and drops it only if that push fails.
  pub admission-enqueue :
      (cfg : ExportConfig) (st : State) (now : ℤ) (first at : At) (event : SiemEvent)
      → cfg.failure_mode ≡ fail_closed
      → admission cfg st now ≡ ok tt
      → enqueue x codec cfg st first at event
        ≡ settle
            (then_change x codec st (λ next. next) (push x codec st at "event" (some event) none))
  unfolding admission enqueue try_enqueue
  admission-enqueue cfg st now first at event mode admitted =
      let in_time = refused_otherwise cfg.failure_mode cfg st now mode admitted in
      let below = below_bound (length st.pending) cfg.max_buffered_events in_time.1 in
      ap settle (
        by_overflow-closed st.overflow_open (ltb (length st.pending) cfg.max_buffered_events)
          cfg.max_buffered_events st first at event in_time.0 below)
