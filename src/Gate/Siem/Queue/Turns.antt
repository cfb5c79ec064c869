-- ===== src/Gate/Siem/Queue/Turns.antt =====
-- The queue is a bounded chain, whatever is queued and acknowledged.
use the_membrane.Prelude.{
  ℕ, ℤ, suc, zero, ◌+◌, ◌≤◌, String, Bool, true, false, ◌&&◌, Option, none, some, List, [], ◌∷◌,
  length, length-append, ltb, leb, Result, ok, err, if◌then◌else◌, ◌≡◌, refl, sym, ap, Bool-cases,
  inl, inr, ◌∙◌, arith,
}
use the_membrane.Core.External.{External}
use the_membrane.Core.Siem.{SiemEvent}
use the_membrane.Gate.Error.{GateError}
use the_membrane.Gate.Siem.{
  ExportConfig, Gap, Envelope, SpoolCodec, wrapping_suc, verify_from, verify_chain,
}
use the_membrane.Gate.Siem.Queue.{
  State, At, count_dropped, settle, push, then_change, queue_event, after_ended, by_overflow,
  try_enqueue, enqueue, ack_front, ack_each, compact, ack, note_answer, note_delivered,
  note_rejected, started, ended,
}
use the_membrane.Gate.Siem.Queue.Chain.{IsChain, verify_from-ok, Linked, push-ok, push-Linked}

either_way : (P : State → Type 0) (c : Bool) (a b : State) → P a → P b → P (if c then a else b)
either_way P true a b pa pb = pa
either_way P false a b pa pb = pb

abbrev pub room : Bool → ℕ
room true = 1
room false = 0

closed_le : (b : Bool) (n cap : ℕ) → b ≡ false → n ≤ cap + room b → n ≤ cap
closed_le true n cap closed h = cc
closed_le false n cap closed h = omega (arith, h)

open_le : (b : Bool) (n cap : ℕ) → n ≤ cap + room b → n ≤ cap + 1
open_le true n cap h = h
open_le false n cap h = omega (arith, h)

one_more : (n m cap : ℕ) → n ≡ m + 1 → m ≤ cap → n ≤ cap + 1
one_more n m cap e h = omega (arith, e, h)

still_fits :
    (n m cap most extra : ℕ) → cap ≤ most → n ≡ m + 1 → leb cap m ≡ false → n ≤ most + extra
still_fits n m cap most extra le e h = ground arith

below_fits : (n m cap most : ℕ) → cap ≤ most → n ≡ m + 1 → ltb m cap ≡ true → n ≤ most
below_fits n m cap most le e h = ground arith

module _ (x : External) (codec : SpoolCodec) where
  -- So many envelopes wait at most, and one more only while an overflow is noted.
  unfoldable pub Bounded : ℕ → State → Type 0
  Bounded most st = length st.pending ≤ most + room st.overflow_open

  unfoldable pub Sound : ℕ → State → Type 0
  Sound most st = Linked x codec st × Bounded most st

  push-length :
      (st : State) (at : At) (kind : String) (event : Option SiemEvent) (gap : Option Gap)
      {next : State}
      → push x codec st at kind event gap ≡ ok next
      → (length next.pending ≡ length st.pending + 1) × (next.overflow_open ≡ st.overflow_open)
  push-length st at kind event gap h =
      let (env, same, a, b, c, d) = push-ok x codec st at kind event gap h in
      rw same (length-append st.pending (env ∷ []), refl)

  then_change-keeps :
      (P : State → Type 0) (st : State) (change : State → State) (r : Result GateError State)
      → P st
      → ((next : State) → r ≡ ok next → P (change next))
      → P (then_change x codec st change r).1
  unfolding then_change
  then_change-keeps P st change (err e) here there = here
  then_change-keeps P st change (ok next) here there = there next refl

  queue_event-Sound :
      (most cap : ℕ)
      → cap ≤ most
      → (st : State) (at : At) (event : SiemEvent) → st.overflow_open ≡ false
      → Sound most st
      → Sound most (queue_event x codec cap st at event).1
  unfolding queue_event Sound Bounded Linked
  queue_event-Sound most cap le st at event closed (linked, bounded) =
      elim (Bool-cases (leb cap (length st.pending))) [
        | inl full ↦ rw full (
            then_change-keeps (Sound most) st
              (λ next. count_dropped (record next { overflow_open = true; overflow_dropped = 1 }))
              (push x codec st at "gap" none (some started)) (linked, bounded)
              (λ next pushed.
                let (longer, same) = push-length st at "gap" none (some started) pushed in
                (
                  push-Linked x codec st at "gap" none (some started) pushed linked,
                  one_more _ _ most longer (closed_le st.overflow_open _ most closed bounded),
                )))
        | inr fits ↦ rw fits (
            then_change-keeps (Sound most) st (λ next. next)
              (push x codec st at "event" (some event) none) (linked, bounded)
              (λ next pushed.
                let (longer, same) = push-length st at "event" (some event) none pushed in
                (
                  push-Linked x codec st at "event" (some event) none pushed linked,
                  still_fits _ _ cap most _ le longer fits,
                )))
      ]

  settle-Sound :
      (most : ℕ) (r : Result GateError (Unit {0}) × State) → Sound most r.1 → Sound most (settle r)
  unfolding Sound Bounded Linked
  settle-Sound most (ok _, st) sound = sound
  settle-Sound most (err _, st) sound = sound

  after_ended-Sound :
      (most cap : ℕ)
      → cap ≤ most
      → (st : State) (at : At) (event : SiemEvent) (r : Result GateError State) → Sound most st
      → ((next : State) → r ≡ ok next → Linked x codec next × (length next.pending ≤ most))
      → Sound most (after_ended x codec cap st at event r).1
  unfolding after_ended Sound Bounded Linked
  after_ended-Sound most cap le st at event (err e) here there = here
  after_ended-Sound most cap le st at event (ok next) here there =
      let (linked, fits) = there next refl in
      queue_event-Sound most cap le (record next { overflow_open = false; overflow_dropped = 0 }) at
        event refl (linked, omega (arith, fits))

  by_overflow-Sound :
      (is_open below : Bool) (most cap : ℕ)
      → cap ≤ most
      → (st : State) (first at : At) (event : SiemEvent) → st.overflow_open ≡ is_open
      → ltb (length st.pending) cap ≡ below
      → Sound most st
      → Sound most (by_overflow x codec is_open below cap st first at event).1
  unfolding by_overflow Sound Bounded Linked
  by_overflow-Sound false below most cap le st first at event closed is_below sound =
      queue_event-Sound most cap le st at event closed sound
  by_overflow-Sound true false most cap le st first at event is_open full sound = sound
  by_overflow-Sound true true most cap le st first at event is_open is_below sound =
      let gap = some (ended st.overflow_dropped) in
      after_ended-Sound most cap le st at event (push x codec st first "gap" none gap) sound
        (λ next pushed.
          let (longer, same) = push-length st first "gap" none gap pushed in
          (
            push-Linked x codec st first "gap" none gap pushed sound.0,
            below_fits _ _ cap most le longer is_below,
          ))

  enqueue-Sound :
      (most : ℕ) (cfg : ExportConfig)
      → cfg.max_buffered_events ≤ most
      → (st : State) (first at : At) (event : SiemEvent) → Sound most st
      → Sound most (enqueue x codec cfg st first at event)
  unfolding enqueue try_enqueue
  enqueue-Sound most cfg le st first at event sound =
      let cap = cfg.max_buffered_events in
      settle-Sound most
        (by_overflow x codec st.overflow_open (ltb (length st.pending) cap) cap st first at event)
        (by_overflow-Sound st.overflow_open (ltb (length st.pending) cap) most cap le st first at
          event refl refl sound)

  same-IsChain :
      (seq : ℕ) (prev : String) (es others : List Envelope) (n : ℕ) (h : String)
      → es ≡ others
      → IsChain x codec seq prev es n h
      → IsChain x codec seq prev others n h
  same-IsChain seq prev es others n h e chain = rw (sym e) chain

  ack_front-Sound :
      (most : ℕ) (es : List Envelope) (st : State)
      → st.pending ≡ es
      → Sound most st
      → Sound most (ack_front es st)
  unfolding ack_front Sound Bounded Linked IsChain
  ack_front-Sound most [] st waiting sound = sound
  ack_front-Sound most (e ∷ rest) st waiting ((seq, chain), bounded) =
      let (a, b, c, later) =
        same-IsChain seq st.acked_hash st.pending (e ∷ rest) st.next_seq st.last_hash waiting
          chain in
      let longer : length st.pending ≡ length rest + 1 = ap length waiting ∙ omega arith in
      ((wrapping_suc e.seq, later), omega (arith, longer, bounded))

  ack_each-Sound :
      (most n : ℕ) (cursor : ℕ → Bool) (st : State)
      → Sound most st
      → Sound most (ack_each n cursor st).1
  unfolding ack_each
  ack_each-Sound most zero cursor st sound = sound
  ack_each-Sound most (suc n) cursor st sound =
      ack_each-Sound most n cursor (ack_front st.pending st)
        (ack_front-Sound most st.pending st refl sound)

  compact-Sound :
      (most cap : ℕ) (spool_written : Bool) (r : Bool × State)
      → Sound most r.1
      → Sound most (compact cap spool_written r)
  unfolding compact Sound Bounded Linked
  compact-Sound most cap spool_written (failed, st) sound = ground (arith, sound)

-- What happens to the queue: an event is queued, or a batch of a number of envelopes is answered.
pub data Turn : Type 0 where
  queued : At → At → SiemEvent → Turn
  answered : ℤ → ℕ → (ℕ → Bool) → Bool → Result String ℕ → Turn

module _ (x : External) (codec : SpoolCodec) (cfg : ExportConfig) where
  abbrev pub turn : State → Turn → State
  turn st (queued first at event) = enqueue x codec cfg st first at event
  turn st (answered now count cursor spool_written answer) =
      note_answer cfg now count cursor spool_written answer st

  unfoldable pub turns : State → List Turn → State
  turns st [] = st
  turns st (t ∷ ts) = turns (turn st t) ts

  module _ (most : ℕ) (le : cfg.max_buffered_events ≤ most) where
    note_answer-Sound :
        (now : ℤ) (count : ℕ) (cursor : ℕ → Bool) (spool_written : Bool) (answer : Result String ℕ)
        (st : State)
        → Sound x codec most st
        → Sound x codec most (note_answer cfg now count cursor spool_written answer st)
    unfolding note_answer ack Sound Bounded Linked
    note_answer-Sound now count cursor spool_written (err e) st sound = sound
    note_answer-Sound now count cursor spool_written (ok status) st sound =
        either_way (Sound x codec most) (leb 200 status && ltb status 300)
          (note_delivered cfg now (ack cfg count cursor spool_written st)) (note_rejected status st)
          (compact-Sound x codec most cfg.max_buffered_events spool_written
            (ack_each count cursor st) (ack_each-Sound x codec most count cursor st sound))
          sound

    pub turns-Sound :
        (st : State) (ts : List Turn) → Sound x codec most st → Sound x codec most (turns st ts)
    unfolding turns
    turns-Sound st [] sound = sound
    turns-Sound st (queued first at event ∷ ts) sound =
        turns-Sound (enqueue x codec cfg st first at event) ts
          (enqueue-Sound x codec most cfg le st first at event sound)
    turns-Sound st (answered now count cursor written answer ∷ ts) sound =
        turns-Sound (note_answer cfg now count cursor written answer st) ts
          (note_answer-Sound now count cursor written answer st sound)

  pub verify_chain-IsChain :
      (seq : ℕ) (prev : String) (es : List Envelope) (n : ℕ) (h : String)
      → IsChain x codec seq prev es n h
      → verify_chain x codec es prev ≡ ok tt
  unfolding verify_chain verify_from IsChain
  verify_chain-IsChain seq prev [] n h chain = refl
  verify_chain-IsChain seq prev (e ∷ es) n h (a, b, c, rest) =
      verify_from-ok x codec e.seq prev (e ∷ es) n h (refl, b, c, rest)
