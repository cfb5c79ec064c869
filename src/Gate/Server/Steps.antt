-- ===== src/Gate/Server/Steps.antt =====
-- The `?` of the request handlers: a call that may fail and may have changed the state either way.
use the_membrane.Prelude.{Result, ok, err, ◌≡◌, refl, ap}

abbrev pub Step {ℓ κ μ} : Type ℓ → Type κ → Type μ → Type (ℓ ⊔ κ ⊔ μ)
Step S E A = S → Result E A × S

module _ {ℓ κ μ ν} {S : Type ℓ} {E : Type κ} {A : Type μ} {B : Type ν} where
  abbrev pub continue : (A → Step S E B) → Result E A × S → Result E B × S
  continue f (ok a, s) = f a s
  continue f (err e, s) = (err e, s)

infixl 5 ◌>>=◌ ◌>>◌
abbrev pub ◌>>=◌ {ℓ κ μ ν} :
    {S : Type ℓ} {E : Type κ} {A : Type μ} {B : Type ν} → Step S E A → (A → Step S E B) → Step S E B
m >>= f = λ s. continue f (m s)

abbrev pub ◌>>◌ {ℓ κ ν} :
    {S : Type ℓ} {E : Type κ} {B : Type ν} → Step S E (Unit {0}) → Step S E B → Step S E B
m >> k = m >>= (λ _. k)

-- A call that leaves the state alone.
abbrev pub lift {ℓ κ μ} : {S : Type ℓ} {E : Type κ} {A : Type μ} → Result E A → Step S E A
lift r = λ s. (r, s)

-- A call that reads the state.
abbrev pub reads {ℓ κ μ} : {S : Type ℓ} {E : Type κ} {A : Type μ} → (S → Result E A) → Step S E A
reads f = λ s. (f s, s)

module _ {ℓ κ μ ν} {S : Type ℓ} {E : Type κ} {A : Type μ} {B : Type ν} where
  continue-ok :
      (f : A → Step S E B) (r : Result E A × S) {b : B} {t : S}
      → continue f r ≡ (ok b, t)
      → (a : A) × (middle : S) × (r ≡ (ok a, middle)) × (f a middle ≡ (ok b, t))
  continue-ok f (ok a, s) h = (a, s, refl, h)
  continue-ok f (err e, s) h = cc

  -- Inversion of a chain that succeeded.
  pub >>=-ok :
      (m : Step S E A) (f : A → Step S E B) (s : S) {b : B} {t : S}
      → (m >>= f) s ≡ (ok b, t)
      → (a : A) × (middle : S) × (m s ≡ (ok a, middle)) × (f a middle ≡ (ok b, t))
  >>=-ok m f s h = continue-ok f (m s) h

  -- Inversion of a chain that starts with a check.
  pub lift-ok :
      (r : Result E A) (f : A → Step S E B) (s : S) {b : B} {t : S}
      → (lift r >>= f) s ≡ (ok b, t)
      → (a : A) × (r ≡ ok a) × (f a s ≡ (ok b, t))
  lift-ok (ok a) f s h = (a, refl, h)
  lift-ok (err e) f s h = cc

  -- Inversion of a chain that starts with a reading.
  pub reads-ok :
      (f : S → Result E A) (g : A → Step S E B) (s : S) {b : B} {t : S}
      → (reads f >>= g) s ≡ (ok b, t)
      → (a : A) × (f s ≡ ok a) × (g a s ≡ (ok b, t))
  reads-ok f g s h = lift-ok (f s) g s h

module _ {ℓ κ ν} {S : Type ℓ} {E : Type κ} {B : Type ν} where
  continue_unit-ok :
      (k : Step S E B) (r : Result E (Unit {0}) × S) {b : B} {t : S}
      → continue (λ _. k) r ≡ (ok b, t)
      → (middle : S) × (r ≡ (ok tt, middle)) × (k middle ≡ (ok b, t))
  continue_unit-ok k (ok tt, s) h = (s, refl, h)
  continue_unit-ok k (err e, s) h = cc

  pub >>-ok :
      (m : Step S E (Unit {0})) (k : Step S E B) (s : S) {b : B} {t : S}
      → (m >> k) s ≡ (ok b, t)
      → (middle : S) × (m s ≡ (ok tt, middle)) × (k middle ≡ (ok b, t))
  >>-ok m k s h = continue_unit-ok k (m s) h

  -- A check of the state, or one that does not look at it.
  pub check-ok :
      (r : Result E (Unit {0})) (k : Step S E B) (s : S) {b : B} {t : S}
      → (lift r >> k) s ≡ (ok b, t)
      → (r ≡ ok tt) × (k s ≡ (ok b, t))
  check-ok (ok tt) k s h = (refl, h)
  check-ok (err e) k s h = cc

value_of {ℓ κ} : {E : Type ℓ} {A : Type κ} → A → Result E A → A
value_of a (ok b) = b
value_of a (err e) = a

module _ {ℓ κ μ} {S : Type ℓ} {E : Type κ} {A : Type μ} where
  pub returned :
      {a b : A} {s t : S} → ◌≡◌ {A = Result E A × S} (ok a, s) (ok b, t) → (a ≡ b) × (s ≡ t)
  unfolding value_of
  returned {a} h = (ap (λ r. value_of a r.0) h, ap (λ r. r.1) h)
