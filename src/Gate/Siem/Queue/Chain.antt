-- ===== src/Gate/Siem/Queue/Chain.antt =====
-- A push extends the chain of the envelopes that wait.
use the_membrane.Prelude.{
  ℕ, String, eq_iff, Option, some, List, [], ◌∷◌, ◌++◌, Result, ok, err, >>=-eq-ok, >>-eq-ok,
  map_err, ◌≡◌, refl, sym, ap, ◌∙◌, eq_refl, format, arith,
}
use the_membrane.Core.External.{External}
use the_membrane.Core.Siem.{SiemEvent}
use the_membrane.Gate.Siem.{
  Gap, Envelope, SpoolCodec, wrapping_suc, envelope_hash, verify_from, bad,
}
use the_membrane.Gate.Siem.Queue.{State, At, push}

result_or {ℓ κ} : {E : Type ℓ} {A : Type κ} → A → Result E A → A
result_or a (ok b) = b
result_or a (err e) = a

pub ok-≡ {ℓ κ} : {E : Type ℓ} {A : Type κ} {a b : A} → ◌≡◌ {A = Result E A} (ok a) (ok b) → a ≡ b
unfolding result_or
ok-≡ {a} h = ap (result_or a) h

module _ (x : External) (codec : SpoolCodec) where
  -- The envelopes link the first number and hash to the last ones.
  unfoldable pub IsChain : ℕ → String → List Envelope → ℕ → String → Type 0
  IsChain seq prev [] last_seq last_hash = (seq ≡ last_seq) × (prev ≡ last_hash)
  IsChain seq prev (e ∷ es) last_seq last_hash =
      (e.seq ≡ seq)
      × (e.prev ≡ prev)
      × (envelope_hash x codec e.seq e.prev e.ts e.kind e.event e.gap ≡ ok e.hash)
      × IsChain (wrapping_suc e.seq) e.hash es last_seq last_hash

  pub append-IsChain :
      (seq : ℕ) (prev : String) (es : List Envelope) (env : Envelope) {n : ℕ} {h : String}
      → IsChain seq prev es n h
      → env.seq ≡ n
      → env.prev ≡ h
      → envelope_hash x codec env.seq env.prev env.ts env.kind env.event env.gap ≡ ok env.hash
      → IsChain seq prev (es ++ (env ∷ [])) (wrapping_suc env.seq) env.hash
  unfolding IsChain
  append-IsChain seq prev [] env (s, p) q r hashed = (q ∙ sym s, r ∙ sym p, hashed, (refl, refl))
  append-IsChain seq prev (e ∷ es) env (a, b, c, rest) q r hashed =
      (a, b, c, append-IsChain (wrapping_suc e.seq) e.hash es env rest q r hashed)

  pub verify_from-ok :
      (seq : ℕ) (prev : String) (es : List Envelope) (n : ℕ) (h : String)
      → IsChain seq prev es n h
      → verify_from x codec (some seq) prev es ≡ ok tt
  unfolding IsChain verify_from
  verify_from-ok seq prev [] n h chain = refl
  verify_from-ok seq prev (e ∷ es) n h (a, b, c, rest) =
      let later = verify_from-ok (wrapping_suc e.seq) e.hash es n h rest in
      let same_hash = eq_refl e.hash in ground (arith, eq_iff e.prev prev)

  -- The waiting envelopes link the hash that was acknowledged last to the newest one.
  unfoldable pub Linked : State → Type 0
  Linked st = (seq : ℕ) × IsChain seq st.acked_hash st.pending st.next_seq st.last_hash

  pub push-ok :
      (st : State) (at : At) (kind : String) (event : Option SiemEvent) (gap : Option Gap)
      {next : State}
      → push x codec st at kind event gap ≡ ok next
      → (env : Envelope) × (next ≡ record st {
        next_seq = wrapping_suc st.next_seq;
        last_hash = env.hash;
        pending = st.pending ++ (env ∷ []);
      })
        × (env.seq ≡ st.next_seq)
        × (env.prev ≡ st.last_hash)
        × (envelope_hash x codec env.seq env.prev env.ts env.kind env.event env.gap ≡ ok env.hash)
        × (env.event ≡ event)
  unfolding push
  push-ok st at kind event gap {next} h =
      let (hash, hashed, h1) =
        >>=-eq-ok (envelope_hash x codec st.next_seq st.last_hash at.ts kind event gap) _ h in
      let env : Envelope = record {
        seq = st.next_seq;
        prev = st.last_hash;
        ts = at.ts;
        kind = kind;
        event = event;
        gap = gap;
        hash = hash;
      } in
      let (line, is_line, h2) = >>=-eq-ok (map_err bad (codec.line env)) _ h1 in
      let (written, h3) =
        >>-eq-ok (map_err (λ e. bad (format ("spool I/O: " ∷ e ∷ []))) at.write) _ h2 in
      (env, sym (ok-≡ h3), refl, refl, hashed, refl)

  pub push-Linked :
      (st : State) (at : At) (kind : String) (event : Option SiemEvent) (gap : Option Gap)
      {next : State}
      → push x codec st at kind event gap ≡ ok next
      → Linked st
      → Linked next
  unfolding Linked
  push-Linked st at kind event gap h (seq, chain) =
      let (env, same, a, b, c, d) = push-ok st at kind event gap h in
      rw same (seq, rw (sym a) (append-IsChain seq st.acked_hash st.pending env chain a b c))
