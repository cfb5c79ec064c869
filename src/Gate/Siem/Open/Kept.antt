-- ===== src/Gate/Siem/Open/Kept.antt =====
-- What a start finds stays a bounded chain.
use the_membrane.Prelude.{◌+◌, ◌≤◌, List, length, ok, ◌≡◌, arith}
use the_membrane.Core.External.{External}
use the_membrane.Gate.Siem.{ExportConfig, SpoolCodec, verify_chain}
use the_membrane.Gate.Siem.Open.{SpoolReader, Files, open_spool}
use the_membrane.Gate.Siem.Open.Restored.{open_spool-ok}
use the_membrane.Gate.Siem.Queue.{State}
use the_membrane.Gate.Siem.Queue.Chain.{Linked}
use the_membrane.Gate.Siem.Queue.Turns.{
  room, Bounded, Sound, Turn, turns, turns-Sound, verify_chain-IsChain,
}

module _ (x : External) (codec : SpoolCodec) (cfg : ExportConfig) where
  -- From the state that a start found in its spool, an empty one included, whatever events are
  -- queued and whatever batches are answered, with whatever failures of the disk: the envelopes
  -- that wait pass the check of the export chain from the hash that was acknowledged last, and they
  -- are at most one more than the configured bound, or two more while an overflow is open.
  pub turns-open_spool :
      (reader : SpoolReader) (files : Files) (st : State) (ts : List Turn)
      → open_spool x codec reader cfg files ≡ ok st
      → let last = turns x codec cfg st ts in
        (verify_chain x codec last.pending last.acked_hash ≡ ok tt)
        × (length last.pending ≤ cfg.max_buffered_events + 1 + room last.overflow_open)
  unfolding Sound Linked Bounded
  turns-open_spool reader files st ts opened =
      let (verified, linked, fits) = open_spool-ok x codec reader cfg files st opened in
      let most = cfg.max_buffered_events + 1 in
      let start : Sound x codec most st = (linked, omega (arith, fits)) in
      let last = turns x codec cfg st ts in
      let ((seq, chain), bounded) = turns-Sound x codec cfg most (omega arith) st ts start in
      (
        verify_chain-IsChain x codec cfg seq last.acked_hash last.pending last.next_seq
            last.last_hash chain,
        bounded,
      )

  -- From a chain within the configured bound, one more waits at most, while an overflow is open.
  pub turns-bounded :
      (st : State) (ts : List Turn)
      → Sound x codec cfg.max_buffered_events st
      → let last = turns x codec cfg st ts in
        length last.pending ≤ cfg.max_buffered_events + room last.overflow_open
  unfolding Sound Bounded
  turns-bounded st ts sound =
      (turns-Sound x codec cfg cfg.max_buffered_events (omega arith) st ts sound).1
