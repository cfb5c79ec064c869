-- ===== src/Gate/Alarm/Engine/Again.antt =====
-- Evaluating the same log or the same grants a second time.
use the_membrane.Prelude.{
  ℤ, pos, negsuc, eqb_ℤ, ap, ◌∙◌, ◌≡◌, refl, arith, String, ◌==◌, eq_iff, eq_refl, Bool, true,
  false, ◌&&◌, ◌||◌, not, List, [], ◌∷◌, any, select, contains, ltb, any-sort_by, if◌then◌else◌,
  str_lt, none, some, Option, ◌≤◌,
}
use mathlib.Core.List.{reverse}
use the_membrane.Gate.Alarm.{Floats, Alarm}
use the_membrane.Gate.Audit.{Decision}
use the_membrane.Gate.Alarm.Engine.{
  Streak, Engine, add_key, same_window, has_window, add_window, window_le, windows, is_due, due,
  raise_each, evaluate_grants, note_identity, note_caller, note_decision, note_each, is_stuck,
  stuck, add_keys, check_spike, evaluate, note_fresh, raise_stuck, later_of,
}

-- Lists without elements that pass a test.
module _ {ℓ} {A : Type ℓ} where
  select-none : (p : A → Bool) (xs : List A) → any p xs ≡ false → select p xs ≡ []
  select-none p [] h = refl
  select-none p (x ∷ xs) h = ground (arith, select-none p xs)

  select-any :
      (p q : A → Bool) (xs : List A)
      → ((a : A) → p a ≡ false → q a ≡ false)
      → any q (select p xs) ≡ false
      → any q xs ≡ false
  select-any p q [] sub h = refl
  select-any p q (x ∷ xs) sub h = ground (arith, sub x, select-any p q xs sub)

eqb_ℤ-eq : (a b : ℤ) → eqb_ℤ a b ≡ true → a ≡ b
eqb_ℤ-eq (pos n) (pos m) h = ap pos (ground arith)
eqb_ℤ-eq (negsuc n) (negsuc m) h = ap negsuc (ground arith)
eqb_ℤ-eq (pos n) (negsuc m) h = ground arith
eqb_ℤ-eq (negsuc n) (pos m) h = ground arith

eqb_ℤ_refl : (a : ℤ) → eqb_ℤ a a ≡ true
eqb_ℤ_refl (pos n) = ground arith
eqb_ℤ_refl (negsuc n) = ground arith

same_window-eq : (w v : String × ℤ) → same_window w v ≡ true → w ≡ v
same_window-eq (id, t) (other, u) h =
    let texts : id ≡ other = ground (arith, eq_iff id other) in
    let times : t ≡ u = eqb_ℤ-eq t u (ground arith) in rw (texts, times) refl

same_window_refl : (w : String × ℤ) → same_window w w ≡ true
same_window_refl (id, t) = rw (eq_refl id, eqb_ℤ_refl t) refl

-- The windows that were raised are noted.
raise_each-has_window :
    (now : ℤ) (ws : List (String × ℤ)) (raised : List (String × ℤ)) (w : String × ℤ)
    → (has_window ws w || has_window raised w) ≡ true
    → has_window (raise_each now ws raised).1 w ≡ true
unfolding raise_each
raise_each-has_window now [] raised w h = h
raise_each-has_window now (v ∷ ws) raised w h =
    raise_each-has_window now ws (add_window v raised) w
      (ground (arith, same_window-eq w v, same_window_refl w))

has_window-select :
    (p : String × ℤ → Bool) (xs : List (String × ℤ)) (w : String × ℤ)
    → has_window (select p xs) w ≡ (p w && has_window xs w)
has_window-select p [] w = ground arith
has_window-select p (x ∷ xs) w = ground (arith, has_window-select p xs w, same_window-eq w x)

all-false :
    (q : String × ℤ → Bool) (xs : List (String × ℤ))
    → ((w : String × ℤ) → has_window xs w ≡ true → q w ≡ false)
    → any q xs ≡ false
all-false q [] sub = refl
all-false q (x ∷ xs) sub =
    let rest = all-false q xs (λ w h. sub w (ground arith)) in
    ground (arith, sub x, same_window_refl x)

due-again :
    (now lead : ℤ) (raised live : List (String × ℤ))
    → due now lead
        (select (has_window live) (raise_each now (due now lead raised live) raised).1)
        live
      ≡ []
unfolding due
due-again now lead raised live =
    let after = (raise_each now (due now lead raised live) raised).1 in
    let none_due = all-false (is_due now lead (select (has_window live) after)) live (λ w there.
      ground (
        arith,
        there,
        has_window-select (has_window live) after w,
        raise_each-has_window now (due now lead raised live) raised w,
        any-sort_by window_le (same_window w) (select (is_due now lead raised) live),
        has_window-select (is_due now lead raised) live w,
      )) in
    rw (select-none (is_due now lead (select (has_window live) after)) live none_due) refl

-- The ids of streaks that were added are found.
add_keys-contains :
    (xs : List (String × Streak)) (ks : List String) (id : String)
    → (any (λ p. p.0 == id) xs || contains ks id) ≡ true
    → contains (add_keys xs ks) id ≡ true
add_keys-contains [] ks id h = h
add_keys-contains ((k, s) ∷ xs) ks id h =
    add_keys-contains xs (add_key k ks) id (ground (arith, eq_iff k id, eq_iff id k, h))

module _ {F64 : Type 0} where
  note_identity-last_sequence :
      (now : ℤ) (d : Decision) (identity : String) (e : Engine F64)
      → (note_identity now d identity e).1.last_sequence ≡ e.last_sequence
  unfolding note_identity
  note_identity-last_sequence now d identity e = ground arith

  note_caller-last_sequence :
      (now : ℤ) (d : Decision) (e : Engine F64) (caller : Option String)
      → (note_caller now d caller e).1.last_sequence ≡ e.last_sequence
  unfolding note_caller
  note_caller-last_sequence now d e none = refl
  note_caller-last_sequence now d e (some identity) = note_identity-last_sequence now d identity e

  note_decision-last_sequence :
      (now : ℤ) (d : Decision) (e : Engine F64)
      → (note_decision now d e).1.last_sequence ≡ later_of e.last_sequence d.sequence
  unfolding note_decision
  note_decision-last_sequence now d e =
      note_caller-last_sequence now d
        (record e { last_sequence = later_of e.last_sequence d.sequence }) d.authenticated_identity

  note_each-last_sequence :
      (now : ℤ) (ds : List Decision) (e : Engine F64)
      → (e.last_sequence ≤ (note_each now ds e).1.last_sequence)
        × (any (λ d. ltb (note_each now ds e).1.last_sequence d.sequence) ds ≡ false)
  unfolding note_each
  note_each-last_sequence now [] e = (omega arith, refl)
  note_each-last_sequence now (d ∷ rest) e =
      let step = note_decision-last_sequence now d e in
      let (later, done) = note_each-last_sequence now rest (note_decision now d e).1 in
      (ground arith, ground arith)

  -- Grants that were just evaluated raise nothing at the same time.
  pub evaluate_grants-again :
      (e : Engine F64) (now : ℤ) (grants : List (String × ℤ))
      → (evaluate_grants (evaluate_grants e now grants).1 now grants).0 ≡ []
  unfolding evaluate_grants raise_each
  evaluate_grants-again e now grants =
      let live = windows grants in
      rw (due-again now e.config.grant_lead_secs (select (has_window live) e.expiring_raised) live)
        refl

  stuck_once :
      (now : ℤ) (e later : Engine F64) (id : String) (s : Streak) {others : Bool}
      → later.config ≡ e.config
      → later.allowed_before ≡ e.allowed_before
      → others ≡ false
      → (is_stuck now e (id, s) ≡ true → contains later.stuck_raised id ≡ true)
      → (contains e.stuck_raised id ≡ true → contains later.stuck_raised id ≡ true)
      → (is_stuck now later (id, s) || others) ≡ false
  unfolding is_stuck
  stuck_once now e later id s config allowed others added before =
      rw (config, allowed) (ground arith)

  -- What was just raised as stuck is not stuck again.
  all-raised :
      (now : ℤ) (e later : Engine F64) (streaks : List (String × Streak))
      → later.config ≡ e.config
      → later.allowed_before ≡ e.allowed_before
      → ((id : String)
          → (any (λ p. p.0 == id) (select (is_stuck now e) streaks) || contains e.stuck_raised id)
            ≡ true
          → contains later.stuck_raised id ≡ true)
      → any (is_stuck now later) streaks ≡ false
  unfolding is_stuck
  all-raised now e later [] config allowed raised = refl
  all-raised now e later ((id, s) ∷ rest) config allowed raised =
      let others =
        all-raised now e later rest config allowed (λ k h. raised k (ground (arith, h))) in
      let added : is_stuck now e (id, s) ≡ true → contains later.stuck_raised id ≡ true =
        λ h. raised id (ground (arith, eq_refl id, h)) in
      stuck_once now e later id s config allowed others added (λ h. raised id (ground (arith, h)))

  note_fresh-again :
      (now : ℤ) (ds : List Decision) (e later : Engine F64)
      → later.last_sequence ≡ (note_fresh now ds e).1.last_sequence
      → note_fresh now ds later ≡ ([], later)
  unfolding note_fresh note_each
  note_fresh-again now ds e later same =
      let (low, done) =
        note_each-last_sequence now (select (λ d. ltb e.last_sequence d.sequence) (reverse ds)) e in
      let all_old =
        select-any (λ d. ltb e.last_sequence d.sequence)
          (λ d. ltb (note_fresh now ds e).1.last_sequence d.sequence) (reverse ds)
          (λ d old. ground arith) done in
      let nothing : select (λ d. ltb later.last_sequence d.sequence) (reverse ds) ≡ [] = rw same (
        select-none (λ d. ltb (note_fresh now ds e).1.last_sequence d.sequence) (reverse ds)
          all_old) in
      rw nothing refl

  raise_stuck-again :
      (now : ℤ) (e later : Engine F64)
      → later.config ≡ e.config
      → later.allowed_before ≡ e.allowed_before
      → later.streaks ≡ e.streaks
      → later.stuck_raised ≡ (raise_stuck now e).1.stuck_raised
      → raise_stuck now later ≡ ([], later)
  unfolding raise_stuck stuck is_stuck
  raise_stuck-again now e later config allowed streaks raised =
      let known : (id : String)
          → (any (λ p. p.0 == id) (select (is_stuck now e) e.streaks) || contains e.stuck_raised id)
            ≡ true
          → contains later.stuck_raised id ≡ true =
        λ id h. rw raised (
          add_keys-contains (stuck now e) e.stuck_raised id (
            rw
              (any-sort_by (λ a b. not (str_lt b.0 a.0)) (λ p. p.0 == id)
                (select (is_stuck now e) e.streaks))
              h)) in
      let nothing : select (is_stuck now later) later.streaks ≡ [] = rw streaks (
        select-none (is_stuck now later) e.streaks
          (all-raised now e later e.streaks config allowed known)) in
      rw nothing refl

  raise_stuck-keeps :
      (now : ℤ) (e : Engine F64)
      → (raise_stuck now e).1 ≡ record e { stuck_raised = (raise_stuck now e).1.stuck_raised }
  unfolding raise_stuck
  raise_stuck-keeps now e = refl

module _ (fl : Floats) where
  not_again : (b : Bool) (alarm : Alarm) → (if b && not b then alarm ∷ [] else []) ≡ []
  not_again true alarm = refl
  not_again false alarm = refl

  check_spike-again :
      (now : ℤ) (ds : List Decision) (e later : Engine fl.F64)
      → later.config ≡ e.config
      → later.spike_active ≡ (check_spike fl now ds e).1.spike_active
      → (check_spike fl now ds later).0 ≡ []
  unfolding check_spike
  check_spike-again now ds e later config active = rw (active, config) (not_again _ _)

  check_spike-keeps :
      (now : ℤ) (ds : List Decision) (e : Engine fl.F64)
      → (check_spike fl now ds e).1
        ≡ record e { spike_active = (check_spike fl now ds e).1.spike_active }
  unfolding check_spike
  check_spike-keeps now ds e = refl

  -- A log that was just evaluated raises nothing at the same time.
  pub evaluate-again :
      (e : Engine fl.F64) (now : ℤ) (ds : List Decision)
      → (evaluate fl (evaluate fl e now ds).1 now ds).0 ≡ []
  unfolding evaluate
  evaluate-again e now ds =
      let noted = (note_fresh now ds e).1 in
      let raised = (raise_stuck now noted).1 in
      let later = (check_spike fl now ds raised).1 in
      let keeps = check_spike-keeps now ds raised in
      let keeps_too = raise_stuck-keeps now noted in
      let calm =
        note_fresh-again now ds e later
          (ap (λ k. k.last_sequence) keeps ∙ ap (λ k. k.last_sequence) keeps_too) in
      let free =
        raise_stuck-again now noted later (ap (λ k. k.config) keeps ∙ ap (λ k. k.config) keeps_too)
          (ap (λ k. k.allowed_before) keeps ∙ ap (λ k. k.allowed_before) keeps_too)
          (ap (λ k. k.streaks) keeps ∙ ap (λ k. k.streaks) keeps_too)
          (ap (λ k. k.stuck_raised) keeps) in
      let low = check_spike-again now ds raised later (ap (λ k. k.config) keeps) refl in
      rw (calm, free, low) refl
