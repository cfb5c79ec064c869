-- ===== src/Gate/Operations/Append.antt =====
-- What is appended is what is read back, and a crash is noticed.
use the_membrane.Prelude.{
  ℕ, ◌+◌, String, ◌==◌, List, [], ◌∷◌, ◌++◌, length, eqb, ok, err, Result, ◌>>=◌, ◌⊎◌, inl, inr,
  deny_if, not, ◌&&◌, map_err, >>=-eq-ok, >>-eq-ok, eq_iff, arith, ◌≡◌, refl, sym, ap, ◌∙◌,
}
use the_membrane.Core.External.{External}
use the_membrane.Core.Hash.{genesis_cp_hash}
use the_membrane.Gate.Error.{GateError}
use the_membrane.Gate.Operations.{
  Record, Frame, Codec, frame_of, ReadsBack, Journal, Io, Write, written, cut_short, unsynced,
  failure, checksum, read_frames, records, last_checksum, next_line, append, write_line, write_next,
}

module _ (x : External) (codec : Codec) where
  -- The frame is the one of the given place in the chain.
  abbrev IsAt : ℕ → String → Frame → Type 0
  IsAt index prev frame =
      (frame.sequence ≡ index)
      × (frame.previous ≡ prev)
      × (checksum x codec index prev frame.record_of ≡ ok frame.checksum)

  -- A line that is read is the frame of its place.
  read_frames-cons :
      (index : ℕ) (prev line : String) (lines : List String) {rs : List Record}
      → read_frames x codec index prev (line ∷ lines) ≡ ok rs
      → (frame : Frame) × (rest : List Record) × (codec.parse_frame line ≡ ok frame)
        × IsAt index prev frame
        × (read_frames x codec (index + 1) frame.checksum lines ≡ ok rest)
        × (frame.record_of ∷ rest ≡ rs)
  unfolding read_frames
  read_frames-cons index prev line lines h =
      let (frame, parsed, h1) = >>=-eq-ok (map_err failure (codec.parse_frame line)) _ h in
      let (sum, summed, h2) =
        >>=-eq-ok (checksum x codec frame.sequence frame.previous frame.record_of) _ h1 in
      let (checked, h3) =
        >>-eq-ok
          (deny_if
            (not (eqb frame.sequence index && frame.previous == prev && frame.checksum == sum))
            (failure "journal checksum/sequence discontinuity"))
          _ h2 in
      let (rest, later, same) =
        >>=-eq-ok (read_frames x codec (index + 1) frame.checksum lines) _ h3 in
      let sequence : frame.sequence ≡ index = ground arith in
      let previous : frame.previous ≡ prev = ground (arith, eq_iff frame.previous prev) in
      let sums : frame.checksum ≡ sum = ground (arith, eq_iff frame.checksum sum) in
      (frame, rest, ground arith, (sequence, previous, ground arith), later, ground arith)

  read_frames-∷ :
      (index : ℕ) (prev line : String) (lines : List String) (frame : Frame) (rest : List Record)
      → codec.parse_frame line ≡ ok frame
      → IsAt index prev frame
      → read_frames x codec (index + 1) frame.checksum lines ≡ ok rest
      → read_frames x codec index prev (line ∷ lines) ≡ ok (frame.record_of ∷ rest)
  unfolding read_frames
  read_frames-∷ index prev line lines frame rest parsed at later =
      ground (arith, eq_iff frame.previous prev, eq_iff frame.checksum frame.checksum)

  last_checksum_total :
      (index : ℕ) (prev : String) (lines : List String) {rs : List Record}
      → read_frames x codec index prev lines ≡ ok rs
      → (p : String) × (last_checksum x codec index prev rs ≡ ok p)
  unfolding last_checksum read_frames
  last_checksum_total index prev [] {rs} h =
      let empty : rs ≡ [] = ground arith in (prev, rw empty refl)
  last_checksum_total index prev (line ∷ lines) {rs} h =
      let (frame, rest, parsed, at, later, same) = read_frames-cons index prev line lines h in
      let (p, e) = last_checksum_total (index + 1) frame.checksum lines later in
      (p, rw (sym same, at.2) e)

  read_frames-append :
      (index : ℕ) (prev : String) (lines more : List String) {rs qs : List Record} {p : String}
      → read_frames x codec index prev lines ≡ ok rs
      → last_checksum x codec index prev rs ≡ ok p
      → read_frames x codec (index + length rs) p more ≡ ok qs
      → read_frames x codec index prev (lines ++ more) ≡ ok (rs ++ qs)
  unfolding last_checksum read_frames
  read_frames-append index prev [] more {rs} {qs} {p} h last k =
      let empty : rs ≡ [] = ground arith in
      let place : prev ≡ p = ground arith in
      let start : index + length rs ≡ index = ground arith in ground arith
  read_frames-append index prev (line ∷ lines) more {rs} {qs} {p} h last k =
      let (frame, rest, parsed, at, later, same) = read_frames-cons index prev line lines h in
      let last1 : last_checksum x codec (index + 1) frame.checksum rest ≡ ok p = ground arith in
      let k1 : read_frames x codec (index + 1 + length rest) p more ≡ ok qs = ground arith in
      rw (sym same) (
        read_frames-∷ index prev line (lines ++ more) frame (rest ++ qs) parsed at
          (read_frames-append (index + 1) frame.checksum lines more later last1 k1))

  -- A journal that cannot be read is not written.
  pub append-unread :
      (io : Io) (j : Journal) (r : Record) {e : GateError}
      → records x codec io j ≡ err e
      → (append x codec io j r).1 ≡ j
  unfolding append write_next
  append-unread io j r h = rw h refl

  -- A line that was written for the record, and the record that it is read as.
  unfoldable pub IsRead : Record → Record → Type 0
  IsRead r q =
      (sequence : ℕ) × (previous : String) × (sum : String) × (line : String) × (read : Frame)
      × (codec.print_frame (frame_of r sequence previous sum) ≡ ok line)
      × (codec.parse_frame line ≡ ok read)
      × (read.record_of ≡ q)

  read_frames-last :
      (index : ℕ) (prev : String) (lines : List String) (line : String) {rs qs : List Record}
      → read_frames x codec index prev lines ≡ ok rs
      → read_frames x codec index prev (lines ++ line ∷ []) ≡ ok qs
      → (read : Frame) × (codec.parse_frame line ≡ ok read) × (qs ≡ rs ++ read.record_of ∷ [])
  unfolding read_frames
  read_frames-last index prev [] line {rs} {qs} h k =
      let (frame, rest, parsed, at, later, same) = read_frames-cons index prev line [] k in
      let empty : rs ≡ [] = ground arith in
      let ended : rest ≡ [] = ground arith in (frame, parsed, ground arith)
  read_frames-last index prev (l ∷ lines) line {rs} {qs} h k =
      let (frame, rest, parsed, at, later, same) = read_frames-cons index prev l lines h in
      let (frame1, rest1, parsed1, at1, later1, same1) =
        read_frames-cons index prev l (lines ++ line ∷ []) k in
      let one : frame1 ≡ frame = ground arith in
      let later2 : read_frames x codec (index + 1) frame.checksum (lines ++ line ∷ []) ≡ ok rest1 =
        ground arith in
      let (read, is_read, grown) =
        read_frames-last (index + 1) frame.checksum lines line later later2 in
      (read, is_read, ground arith)

  next_line-print :
      (r : Record) (rs : List Record) {line : String}
      → next_line x codec rs r ≡ ok line
      → (sequence : ℕ) × (previous : String) × (sum : String) × (codec.print_frame
            (frame_of r sequence previous sum)
          ≡ ok line)
  unfolding next_line
  next_line-print r rs {line} k =
      let (previous, last, k1) = >>=-eq-ok (last_checksum x codec 0 genesis_cp_hash rs) _ k in
      let (sum, summed, k2) = >>=-eq-ok (checksum x codec (length rs) previous r) _ k1 in
      (length rs, previous, sum, ground arith)

  records-whole :
      (io : Io) (j : Journal) {rs : List Record}
      → records x codec io j ≡ ok rs
      → (j.torn ≡ "") × (read_frames x codec 0 genesis_cp_hash j.lines ≡ ok rs)
  unfolding records
  records-whole io j h = ground (arith, eq_iff j.torn "")

  -- The records are the old ones and one that a line of the record is read as.
  unfoldable pub Extended : List Record → Record → List Record → Type 0
  Extended rs r qs = (q : Record) × IsRead r q × (qs ≡ rs ++ q ∷ [])

  -- What a reading finds after the line was written, as far as it was.
  unfoldable pub Found : List Record → Record → List Record → Result GateError (Unit {0}) → Type 0
  Found rs r qs answer = ((qs ≡ rs) ⊎ Extended rs r qs) × (answer ≡ ok tt → Extended rs r qs)

  line-Extended :
      (reading : Io) (j : Journal) (line : String) (r : Record) {rs qs : List Record}
      → read_frames x codec 0 genesis_cp_hash j.lines ≡ ok rs
      → next_line x codec rs r ≡ ok line
      → records x codec reading (record j { lines = j.lines ++ line ∷ [] }) ≡ ok qs
      → Extended rs r qs
  unfolding Extended IsRead
  line-Extended reading j line r {rs} h k q =
      let found = (records-whole reading (record j { lines = j.lines ++ line ∷ [] }) q).1 in
      let (sequence, previous, sum, printed) = next_line-print r rs k in
      let (read, is_read, grown) = read_frames-last 0 genesis_cp_hash j.lines line h found in
      (read.record_of, (sequence, previous, sum, line, read, printed, is_read, refl), grown)

  write_line-Found :
      (reading : Io) (j : Journal) (w : Write) (line : String) (r : Record) {rs qs : List Record}
      → read_frames x codec 0 genesis_cp_hash j.lines ≡ ok rs
      → next_line x codec rs r ≡ ok line
      → records x codec reading (write_line w j line).1 ≡ ok qs
      → Found rs r qs (write_line w j line).0
  unfolding write_line Found
  write_line-Found reading j written line r h k q =
      let e = line-Extended reading j line r h k q in (inr e, λ _. e)
  write_line-Found reading j (cut_short part e) line r h k q =
      let found = (records-whole reading (record j { torn = part }) q).1 in
      (inl (ground arith), λ refused. cc)
  write_line-Found reading j (unsynced e) line r h k q =
      (inr (line-Extended reading j line r h k q), λ refused. cc)

  write_next-Found :
      (io reading : Io) (j : Journal) (r : Record) (next : Result GateError String)
      {rs qs : List Record}
      → records x codec io j ≡ ok rs
      → next_line x codec rs r ≡ next
      → records x codec reading (write_next io.write j next).1 ≡ ok qs
      → Found rs r qs (write_next io.write j next).0
  unfolding write_next Found
  write_next-Found io reading j r (err e) h k q =
      let before = (records-whole io j h).1 in
      let after = (records-whole reading j q).1 in (inl (ground arith), λ refused. cc)
  write_next-Found io reading j r (ok line) h k q =
      write_line-Found reading j io.write line r (records-whole io j h).1 k q

  -- What is read after an append, whatever serde_json makes of the line.
  pub append-Found :
      (io reading : Io) (j : Journal) (r : Record) {rs qs : List Record}
      → records x codec io j ≡ ok rs
      → records x codec reading (append x codec io j r).1 ≡ ok qs
      → Found rs r qs (append x codec io j r).0
  unfolding append
  append-Found io reading j r h q =
      write_next-Found io reading j r (records x codec io j >>= (λ rs. next_line x codec rs r)) h
        (rw h refl) q

  module _ (r : Record) (reads : ReadsBack codec r) where
    IsRead-≡ : (q : Record) → IsRead r q → q ≡ r
    unfolding IsRead ReadsBack
    IsRead-≡ q (sequence, previous, sum, line, read, printed, is_read, same) =
        let back = reads sequence previous sum line printed in
        let one : read ≡ frame_of r sequence previous sum = ground arith in
        sym same ∙ ap (λ f. f.record_of) one

    Extended-≡ : (rs qs : List Record) → Extended rs r qs → qs ≡ rs ++ r ∷ []
    unfolding Extended
    Extended-≡ rs qs (q, is_read, grown) = let same = IsRead-≡ q is_read in ground arith

    -- After an append, whatever became of it, a reading that succeeds finds the records that were
    -- there before, alone or with the new one at their end, and with it where the append succeeded.
    pub records-append :
        (io reading : Io) (j : Journal) {rs qs : List Record}
        → records x codec io j ≡ ok rs
        → records x codec reading (append x codec io j r).1 ≡ ok qs
        → ((qs ≡ rs) ⊎ (qs ≡ rs ++ r ∷ []))
          × ((append x codec io j r).0 ≡ ok tt → qs ≡ rs ++ r ∷ [])
    unfolding Found
    records-append io reading j {rs} {qs} h q =
        let (found, whole) = append-Found io reading j r h q in
        (
          elim found [ inl same ↦ inl same | inr more ↦ inr (Extended-≡ rs qs more) ],
          λ appended. Extended-≡ rs qs (whole appended),
        )

    read_frames-next_line :
        (lines : List String) {rs : List Record} {line : String}
        → read_frames x codec 0 genesis_cp_hash lines ≡ ok rs
        → next_line x codec rs r ≡ ok line
        → read_frames x codec 0 genesis_cp_hash (lines ++ line ∷ []) ≡ ok (rs ++ r ∷ [])
    unfolding next_line read_frames ReadsBack
    read_frames-next_line lines {rs} {line} h k =
        let (previous, last, k1) = >>=-eq-ok (last_checksum x codec 0 genesis_cp_hash rs) _ k in
        let (sum, summed, k2) = >>=-eq-ok (checksum x codec (length rs) previous r) _ k1 in
        let printed : codec.print_frame (frame_of r (length rs) previous sum) ≡ ok line =
          ground arith in
        read_frames-append 0 genesis_cp_hash lines (line ∷ []) h last (
          read_frames-∷ (0 + length rs) previous line [] (frame_of r (length rs) previous sum) []
            (reads (length rs) previous sum line printed) (ground arith, refl, ground arith) refl)

    write_next-written :
        (io : Io) (j : Journal) (next : Result GateError String) (line : String) {rs : List Record}
        → records x codec io j ≡ ok rs
        → next_line x codec rs r ≡ ok line
        → io.write ≡ written
        → next ≡ ok line
        → ((write_next io.write j next).0 ≡ ok tt)
          × (records x codec io (write_next io.write j next).1 ≡ ok (rs ++ r ∷ []))
    unfolding write_next write_line records
    write_next-written io j next line {rs} h k w e =
        let (whole, read) = records-whole io j h in
        let after = read_frames-next_line j.lines read k in
        rw (e, w) (refl, ground (arith, eq_iff j.torn ""))

    -- Where the file system does not fail, the record can be written as JSON and serde_json reads
    -- back what it writes for it, an append succeeds and what is read back is the records with the
    -- new one.
    pub append_total :
        (io : Io) (j : Journal) {rs : List Record} {line : String}
        → records x codec io j ≡ ok rs
        → next_line x codec rs r ≡ ok line
        → io.write ≡ written
        → ((append x codec io j r).0 ≡ ok tt)
          × (records x codec io (append x codec io j r).1 ≡ ok (rs ++ r ∷ []))
    unfolding append
    append_total io j {rs} {line} h k w =
        write_next-written io j (records x codec io j >>= (λ rs. next_line x codec rs r)) line h k w
          (rw (h, k) refl)
