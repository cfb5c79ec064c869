-- ===== src/Gate/Audit/Bounded.antt =====
-- The bounded log against one that forgets nothing.
use the_membrane.Prelude.{
  ℕ, zero, suc, ◌+◌, ◌-◌, ◌≤◌, ◌<◌, some, List, [], ◌∷◌, ◌++◌, length, drop, ltb, length-append,
  Bool-cases, inl, inr, length-drop, saturating_suc, u64_max, if◌then◌else◌, ◌≡◌, refl, ap, ◌∙◌,
  sym, arith,
}
use mathlib.Core.List.{reverse, append-nil, append_assoc}
use the_membrane.Gate.Audit.{
  Decision, Observation, Buffer, AuditLog, capacity, numbered, push_bounded, observe,
  record_authenticated, snapshot_decisions,
}

module _ {ℓ} {A : Type ℓ} where
  drop-append : (k : ℕ) (xs ys : List A) → k ≤ length xs → drop k xs ++ ys ≡ drop k (xs ++ ys)
  drop-append zero xs ys h = refl
  drop-append (suc k) [] ys h = ground (arith, h)
  drop-append (suc k) (x ∷ xs) ys h = drop-append k xs ys (omega (arith, h))

  drop-suc : (k : ℕ) (xs : List A) → drop 1 (drop k xs) ≡ drop (suc k) xs
  drop-suc zero xs = refl
  drop-suc (suc k) [] = refl
  drop-suc (suc k) (x ∷ xs) = drop-suc k xs

  drop_same : {j k : ℕ} (xs : List A) → j ≡ k → drop j xs ≡ drop k xs
  drop_same xs e = ap (λ n. drop n xs) e

  drop_step :
      (limit n : ℕ) (zs : List A)
      → length zs ≡ suc n
      → (if ltb limit (length (drop (n - limit) zs))
          then drop 1 (drop (n - limit) zs)
          else drop (n - limit) zs)
        ≡ drop (length zs - limit) zs
  drop_step limit n zs h = elim (Bool-cases (ltb limit (length (drop (n - limit) zs)))) [
    | inl more ↦ rw more (
        drop-suc (n - limit) zs
        ∙ drop_same {j = suc (n - limit)} {k = length zs - limit} zs
            (ground (arith, length-drop (n - limit) zs)))
    | inr fits ↦ rw fits (
        drop_same {j = n - limit} {k = length zs - limit} zs
          (ground (arith, length-drop (n - limit) zs)))
  ]

  -- Pushing to the newest of `xs` gives the newest of the longer list.
  push_bounded-drop :
      (limit : ℕ) (xs : List A) (a : A)
      → push_bounded limit (drop (length xs - limit) xs) a
        ≡ drop (length (xs ++ (a ∷ [])) - limit) (xs ++ (a ∷ []))
  unfolding push_bounded
  push_bounded-drop limit xs a =
      rw (drop-append (length xs - limit) xs (a ∷ []) (omega arith))
        (drop_step limit (length xs) (xs ++ (a ∷ [])) (omega (arith, length-append xs (a ∷ []))))

-- The decisions that the observations make, all of them, with numbers from after `n` on.
abbrev pub unbounded : ℕ → List Observation → List Decision
unbounded n [] = []
unbounded n (o ∷ rest) = numbered (suc n) o ∷ unbounded (suc n) rest

unfoldable pub record_each : AuditLog → List Observation → AuditLog
record_each log [] = log
record_each log (o ∷ rest) = record_each (record_authenticated log o) rest

-- What an unbounded log has where the bounded one has `b`.
Retains : Buffer → List Decision → Type 0
Retains b full = (b.sequence ≡ length full) × (b.decisions ≡ drop (length full - capacity) full)

observe-Retains :
    (b : Buffer) (full : List Decision) (o : Observation)
    → length full < u64_max
    → Retains b full
    → Retains (observe b o) (full ++ (numbered (suc (length full)) o ∷ []))
unfolding Retains observe
observe-Retains b full o room (count, kept) =
    let e : saturating_suc b.sequence ≡ suc (length full) = ground arith in
    let n : length (full ++ (numbered (suc (length full)) o ∷ [])) ≡ suc (length full) =
      omega (arith, length-append full (numbered (suc (length full)) o ∷ [])) in
    (e ∙ sym n, rw (e, kept) (push_bounded-drop capacity full (numbered (suc (length full)) o)))

carry :
    (b : Buffer) (full others : List Decision) → full ≡ others → Retains b full → Retains b others
carry b full others e h = rw (sym e) h

grown :
    (full : List Decision) (d : Decision) (n : ℕ)
    → n ≡ length full
    → (rest : List Observation)
    → (full ++ (d ∷ [])) ++ unbounded (length (full ++ (d ∷ []))) rest
      ≡ full ++ (d ∷ unbounded (suc n) rest)
grown full d n e rest =
    let more : length (full ++ (d ∷ [])) ≡ suc n = omega (arith, e, length-append full (d ∷ [])) in
    rw more (append_assoc full (d ∷ []) (unbounded (suc n) rest))

recorded :
    (log : AuditLog) (b : Buffer) (o : Observation)
    → log.buffer ≡ some b
    → (record_authenticated log o).buffer ≡ some (observe b o)
unfolding record_authenticated
recorded log b o h = rw h refl

record_each-Retains :
    (log : AuditLog) (b : Buffer) (full : List Decision) (os : List Observation)
    → log.buffer ≡ some b
    → length full + length os ≤ u64_max
    → Retains b full
    → (c : Buffer) × ((record_each log os).buffer ≡ some c)
      × Retains c (full ++ unbounded (length full) os)
unfolding record_each
record_each-Retains log b full [] there room kept = (b, there, rw (append-nil full) kept)
record_each-Retains log b full (o ∷ rest) there room kept =
    let d = numbered (suc (length full)) o in
    let n : length (full ++ (d ∷ [])) ≡ suc (length full) =
      omega (arith, length-append full (d ∷ [])) in
    let next : (record_authenticated log o).buffer ≡ some (observe b o) = recorded log b o there in
    let (c, at_end, newest) =
      record_each-Retains (record_authenticated log o) (observe b o) (full ++ (d ∷ [])) rest next
        (omega (arith, n, room)) (observe-Retains b full o (omega (arith, room)) kept) in
    (
      c,
      at_end,
      carry c _ (full ++ unbounded (length full) (o ∷ rest)) (grown full d (length full) refl rest)
          newest,
    )

length-unbounded : (n : ℕ) (os : List Observation) → length (unbounded n os) ≡ length os
length-unbounded n [] = refl
length-unbounded n (o ∷ rest) = omega (arith, length-unbounded (suc n) rest)

-- A new log
abbrev pub empty_buffer : Buffer
empty_buffer = record { sequence = 0; decisions = []; alarm_sequence = 0; alarms = [] }

-- After fewer than 2^64 observations on a new log, the snapshot has their number and the newest 500
-- of them, newest first, each with its place in the order of arrival as its number.
pub record_each-snapshot_decisions :
    (log : AuditLog) (os : List Observation)
    → log.buffer ≡ some empty_buffer
    → length os ≤ u64_max
    → snapshot_decisions (record_each log os)
      ≡ some (length os, reverse (drop (length os - capacity) (unbounded 0 os)))
unfolding snapshot_decisions Retains
record_each-snapshot_decisions log os fresh room =
    let (c, at_end, (count, kept)) =
      record_each-Retains log empty_buffer [] os fresh (omega (arith, room)) (refl, refl) in
    rw (at_end, count, kept, length-unbounded 0 os) refl
