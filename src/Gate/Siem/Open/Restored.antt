-- ===== src/Gate/Siem/Open/Restored.antt =====
-- What is restored from a spool is a bounded chain.
use the_membrane.Prelude.{
  ℕ, suc, zero, ◌+◌, ◌-◌, ◌≤◌, String, ◌==◌, eq_iff, Bool, true, false, ◌&&◌, ◌||◌, not, ◌⊎◌, inl,
  inr, if◌then◌else◌, Option, none, some, is_some, unwrap_or, List, [], ◌∷◌, length, get_elem?,
  drop, eqb, ltb, leb, Result, ok, err, >>=-eq-ok, >>-eq-ok, ok_or, deny_if, map_err, ◌≡◌, refl,
  sym, ap, ◌∙◌, arith,
}
use the_membrane.Core.External.{External}
use the_membrane.Core.Hash.{genesis_cp_hash}
use the_membrane.Core.Value.{as_str}
use the_membrane.Gate.Error.{GateError}
use the_membrane.Gate.Siem.{
  ExportConfig, Envelope, SpoolCodec, wrapping_suc, verify_from, verify_chain, envelope_hash,
}
use the_membrane.Gate.Siem.Open.{
  IoError, not_found, other, io, SpoolReader, Files, link_after, start_link, at_cursor, find_anchor,
  read_cursor, read_spool, mismatch, too_long, corrupt, index, count_acked, restore, open_spool,
}
use the_membrane.Gate.Siem.Queue.{State}
use the_membrane.Gate.Siem.Queue.Chain.{IsChain, Linked, ok-≡}
use the_membrane.Gate.Siem.Queue.Turns.{verify_chain-IsChain}

linked_at :
    (seq seq2 : ℕ) (prev prev2 : String) (e : GateError)
    → deny_if (not (eqb seq seq2) || not (prev2 == prev)) e ≡ ok tt
    → (seq2 ≡ seq) × (prev2 ≡ prev)
linked_at seq seq2 prev prev2 e h =
    let same = eq_iff prev2 prev in (ground (arith, same), ground (arith, same))

same_hash : (a b : String) (e : GateError) → deny_if (not (a == b)) e ≡ ok tt → a ≡ b
same_hash a b e h = ground (arith, eq_iff a b)

either_branch :
    (b : Bool) (yes_value no_value : Result GateError (ℕ × Option String)) {r : ℕ × Option String}
    → (if b then yes_value else no_value) ≡ ok r
    → (yes_value ≡ ok r) ⊎ (no_value ≡ ok r)
either_branch true yes_value no_value h = inl h
either_branch false yes_value no_value h = inr h

placed_at :
    (b : Bool) (here : ℕ × Option String) (e : GateError) {r : ℕ × Option String}
    → (if b then ok here else err e) ≡ ok r
    → (b ≡ true) × (here ≡ r)
placed_at true here e h = (refl, cc)
placed_at false here e h = cc

fits : (n cap : ℕ) (e : GateError) → deny_if (ltb cap n) e ≡ ok tt → n ≤ cap
fits n cap e h = ground arith

named :
    (seq : ℕ) (hash : String) (cursor : Option ℕ × String)
    → ◌≡◌ {A = Result GateError (Option ℕ × String)} (ok (some seq, hash)) (ok cursor)
    → cursor.0 ≡ none
    → cursor.1 ≡ genesis_cp_hash
named seq hash cursor h e = let impossible : some seq ≡ none = ap (λ c. c.0) (ok-≡ h) ∙ e in cc

-- Without a cursor the hash is that of the start.
read_cursor-none :
    (reader : SpoolReader) (answer : Result IoError (List ℕ)) (cursor : Option ℕ × String)
    → read_cursor reader answer ≡ ok cursor
    → cursor.0 ≡ none
    → cursor.1 ≡ genesis_cp_hash
unfolding read_cursor
read_cursor-none reader (ok bytes) cursor h e =
    let (v, read, h1) = >>=-eq-ok (ok_or (reader.value bytes) corrupt) _ h in
    let (seq, is_seq, h2) = >>=-eq-ok (ok_or (reader.as_u64 (index v "acked_seq")) corrupt) _ h1 in
    let (hash, is_hash, h3) = >>=-eq-ok (ok_or (as_str (index v "acked_hash")) corrupt) _ h2 in
    named seq hash cursor h3 e
read_cursor-none reader (err not_found) cursor h e = sym (ap (λ c. c.1) (ok-≡ h))
read_cursor-none reader (err (other kind)) cursor h e = cc

module _ (x : External) (codec : SpoolCodec) where
  checked-IsChain :
      (seq : ℕ) (prev : String) (es : List Envelope)
      → verify_from x codec (some seq) prev es ≡ ok tt
      → let (n, h) = link_after seq prev es in IsChain x codec seq prev es n h
  unfolding IsChain verify_from link_after
  checked-IsChain seq prev [] h = (refl, refl)
  checked-IsChain seq prev (e ∷ es) h =
      let (linked, h1) = >>-eq-ok _ _ h in
      let (hash, hashed, h2) =
        >>=-eq-ok (envelope_hash x codec e.seq e.prev e.ts e.kind e.event e.gap) _ h1 in
      let (same, h3) = >>-eq-ok _ _ h2 in
      let (a, b) = linked_at seq e.seq prev e.prev _ linked in
      (
        a,
        b,
        hashed ∙ ap ok (sym (same_hash e.hash hash _ same)),
        checked-IsChain (wrapping_suc e.seq) e.hash es h3,
      )

  drop-IsChain :
      (i seq : ℕ) (prev : String) (es : List Envelope) (e : Envelope) (n : ℕ) (h : String)
      → get_elem? es i ≡ some e
      → IsChain x codec seq prev es n h
      → IsChain x codec (wrapping_suc e.seq) e.hash (drop (suc i) es) n h
  unfolding IsChain
  drop-IsChain i seq prev [] e n h found chain = cc
  drop-IsChain zero seq prev (first ∷ es) e n h found (a, b, c, rest) =
      let same : first ≡ e = cc in rw (sym same) rest
  drop-IsChain (suc i) seq prev (first ∷ es) e n h found (a, b, c, rest) =
      drop-IsChain i (wrapping_suc first.seq) first.hash es e n h found rest

  -- What `restore` needs of the envelopes after the first `acked` ones.
  unfoldable Restores : String → List Envelope → ℕ → ℕ → String → Type 0
  Restores acked_hash es acked n h = (seq : ℕ) × IsChain x codec seq acked_hash (drop acked es) n h

  cursor-Restores :
      (found : Option Envelope) (acked_hash : String) (idx seq : ℕ) (prev : String)
      (es : List Envelope) (n : ℕ) (h : String) (placed : ℕ × Option String)
      → get_elem? es idx ≡ found
      → at_cursor found acked_hash idx ≡ ok placed
      → IsChain x codec seq prev es n h
      → Restores acked_hash es placed.0 n h
  unfolding at_cursor Restores
  cursor-Restores none acked_hash idx seq prev es n h placed found at chain = cc
  cursor-Restores (some e) acked_hash idx seq prev es n h placed found at chain =
      let (same, there) = placed_at (e.hash == acked_hash) (idx + 1, none) _ at in
      let skipped : suc idx ≡ placed.0 = omega arith ∙ ap (λ p. p.0) there in
      let next = drop-IsChain idx seq prev es e n h found chain in
      (wrapping_suc e.seq, rw (sym skipped) (rw (sym ((eq_iff e.hash acked_hash).0 same)) next))

  start-Restores :
      (acked_hash p : String) (first : Envelope) (rest : List Envelope) (placed : ℕ × Option String)
      → p ≡ acked_hash
      → (0, some p) ≡ placed
      → verify_chain x codec (first ∷ rest) (unwrap_or placed.1 first.prev) ≡ ok tt
      → let (n, h) = link_after 0 "" (first ∷ rest) in
        Restores acked_hash (first ∷ rest) placed.0 n h
  unfolding Restores verify_chain link_after
  start-Restores acked_hash p first rest placed same there checked =
      let anchored : unwrap_or placed.1 first.prev ≡ acked_hash =
        ap (λ r. unwrap_or r.1 first.prev) (sym there) ∙ same in
      let chain = checked-IsChain first.seq acked_hash (first ∷ rest) (rw (sym anchored) checked) in
      (first.seq, rw (sym (ap (λ r. r.0) there)) chain)

  anchor-Restores :
      (acked_seq : Option ℕ) (acked_hash : String) (first : Envelope) (rest : List Envelope)
      (placed : ℕ × Option String)
      → (acked_seq ≡ none → acked_hash ≡ genesis_cp_hash)
      → find_anchor acked_seq acked_hash first rest ≡ ok placed
      → verify_chain x codec (first ∷ rest) (unwrap_or placed.1 first.prev) ≡ ok tt
      → let (n, h) = link_after 0 "" (first ∷ rest) in
        Restores acked_hash (first ∷ rest) placed.0 n h
  unfolding find_anchor verify_chain link_after
  anchor-Restores none acked_hash first rest placed from_genesis found checked =
      let (at_zero, there) = placed_at (eqb first.seq 0) (0, some genesis_cp_hash) _ found in
      start-Restores acked_hash genesis_cp_hash first rest placed (sym (from_genesis refl)) there
        checked
  anchor-Restores (some acked) acked_hash first rest placed from_genesis found checked =
      elim (either_branch (leb first.seq acked) _ _ found) [
        | inl at ↦
            cursor-Restores (get_elem? (first ∷ rest) (acked - first.seq)) acked_hash
              (acked - first.seq) first.seq (unwrap_or placed.1 first.prev) (first ∷ rest) _ _
              placed refl at
              (checked-IsChain first.seq (unwrap_or placed.1 first.prev) (first ∷ rest) checked)
        | inr after ↦
            start-Restores acked_hash acked_hash first rest placed refl
              ((placed_at (eqb first.seq (wrapping_suc acked)) (0, some acked_hash) _ after).1)
              checked
      ]

  empty-Restores :
      (acked_seq : Option ℕ) (acked_hash : String)
      → (acked_seq ≡ none → acked_hash ≡ genesis_cp_hash)
      → let (n, h) = start_link acked_seq acked_hash in Restores acked_hash [] 0 n h
  unfolding Restores IsChain
  empty-Restores none acked_hash from_genesis = (0, (refl, from_genesis refl))
  empty-Restores (some seq) acked_hash from_genesis = (wrapping_suc seq, (refl, refl))

  count-Restores :
      (acked_seq : Option ℕ) (acked_hash : String) (envelopes : List Envelope) (acked : ℕ)
      → (acked_seq ≡ none → acked_hash ≡ genesis_cp_hash)
      → count_acked x codec acked_seq acked_hash envelopes ≡ ok acked
      → let (seq, hash) = start_link acked_seq acked_hash in
        let (n, h) = link_after seq hash envelopes in Restores acked_hash envelopes acked n h
  unfolding count_acked link_after
  count-Restores acked_seq acked_hash [] acked from_genesis counted =
      let none_acked : 0 ≡ acked = cc in
      rw (sym none_acked) (empty-Restores acked_seq acked_hash from_genesis)
  count-Restores acked_seq acked_hash (first ∷ rest) acked from_genesis counted =
      let (placed, found, h1) = >>=-eq-ok (find_anchor acked_seq acked_hash first rest) _ counted in
      let (checked, h2) =
        >>-eq-ok (verify_chain x codec (first ∷ rest) (unwrap_or placed.1 first.prev)) _ h1 in
      let (some_acked, h3) =
        >>-eq-ok (deny_if (not (is_some placed.1) && eqb placed.0 0) mismatch) (ok placed.0) h2 in
      let same : placed.0 ≡ acked = ok-≡ h3 in
      rw (sym same)
        (anchor-Restores acked_seq acked_hash first rest placed from_genesis found checked)

  restore-Linked :
      (cfg : ExportConfig) (cursor : Option ℕ × String) (envelopes : List Envelope) {st : State}
      → (cursor.0 ≡ none → cursor.1 ≡ genesis_cp_hash)
      → restore x codec cfg cursor envelopes ≡ ok st
      → Linked x codec st × (length st.pending ≤ cfg.max_buffered_events + 1)
  unfolding restore Linked Restores
  restore-Linked cfg (acked_seq, acked_hash) envelopes {st} from_genesis h =
      let (acked, counted, h1) =
        >>=-eq-ok (count_acked x codec acked_seq acked_hash envelopes) _ h in
      let (in_bound, h2) =
        >>-eq-ok
          (deny_if (ltb (cfg.max_buffered_events + 1) (length (drop acked envelopes))) too_long) _
          h1 in
      let (seq, chain) = count-Restores acked_seq acked_hash envelopes acked from_genesis counted in
      rw (sym (ok-≡ h2)) (
        (seq, chain),
        fits (length (drop acked envelopes)) (cfg.max_buffered_events + 1) too_long in_bound,
      )

  -- Where the spool opens, the envelopes that wait are a chain that follows the last acknowledged
  -- one, the next envelope continues it, and one envelope more than the bound waits at most.
  pub open_spool-ok :
      (reader : SpoolReader) (cfg : ExportConfig) (files : Files) (st : State)
      → open_spool x codec reader cfg files ≡ ok st
      → (verify_chain x codec st.pending st.acked_hash ≡ ok tt)
        × Linked x codec st
        × (length st.pending ≤ cfg.max_buffered_events + 1)
  unfolding open_spool Linked
  open_spool-ok reader cfg files st h =
      let (made, h1) = >>-eq-ok (map_err io files.made) _ h in
      let (cursor, is_cursor, h2) = >>=-eq-ok (read_cursor reader files.cursor) _ h1 in
      let (envelopes, read, h3) = >>=-eq-ok (read_spool reader files.spool) _ h2 in
      let (linked, bounded) =
        restore-Linked cfg cursor envelopes (read_cursor-none reader files.cursor cursor is_cursor)
          h3 in
      let (seq, chain) = linked in
      (
        verify_chain-IsChain x codec cfg seq st.acked_hash st.pending st.next_seq st.last_hash
            chain,
        linked,
        bounded,
      )
