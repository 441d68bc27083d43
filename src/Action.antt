-- ===== src/Action.antt =====
-- A call that may change a state and may raise. What was written before an exception stays written.
use joinlint.Prelude.{◌≡◌, refl, ap}
use joinlint.Errors.{Result, ok, err}

abbrev pub Action {ℓ κ} : Type ℓ → Type κ → Type (ℓ ⊔ κ)
Action S A = S → Result A × S

abbrev pub pure {ℓ κ} : {S : Type ℓ} {A : Type κ} → A → Action S A
pure a s = (ok a, s)

-- What follows a call: after an exception, nothing.
abbrev pub then_run {ℓ κ μ} :
    {S : Type ℓ} {A : Type κ} {B : Type μ} → (A → Action S B) → Result A × S → Result B × S
then_run f (err raised, s) = (err raised, s)
then_run f (ok a, s) = f a s

infixl 5 ◌>>=◌
infixl 5 ◌>>◌
abbrev pub ◌>>=◌ {ℓ κ μ} :
    {S : Type ℓ} {A : Type κ} {B : Type μ} → Action S A → (A → Action S B) → Action S B
◌>>=◌ m f s = then_run f (m s)

abbrev pub ◌>>◌ {ℓ κ μ} :
    {S : Type ℓ} {A : Type κ} {B : Type μ} → Action S A → Action S B → Action S B
m >> k = m >>= λ _. k

-- A call that does not touch the state.
abbrev pub lift {ℓ κ} : {S : Type ℓ} {A : Type κ} → Result A → Action S A
lift r s = (r, s)

abbrev pub gets {ℓ κ} : {S : Type ℓ} {A : Type κ} → (S → A) → Action S A
gets f s = (ok (f s), s)

abbrev pub modify {ℓ} : {S : Type ℓ} → (S → S) → Action S (Unit {0})
modify f s = (ok tt, f s)

-- Inversion of a chain that succeeds.
pub then_run-eq-ok {ℓ κ μ} :
    {S : Type ℓ} {A : Type κ} {B : Type μ} (f : A → Action S B) (done : Result A × S) {b : B}
    {s' : S}
    → then_run f done ≡ (ok b, s')
    → (a : A) × (s₁ : S) × (done ≡ (ok a, s₁)) × (f a s₁ ≡ (ok b, s'))
then_run-eq-ok f (err raised, s) {b = b} e = absurd (no_value (ap (λ r. r.0) e))
  where
    no_value : ¬ (err raised ≡ ok b)
    no_value q = cc
then_run-eq-ok f (ok a, s) e = (a, s, refl, e)

-- A property of the state after a call holds if it did before, and the rest of the calls keep it.
pub after-lift {ℓ κ μ ν} :
    {S : Type ℓ} {A : Type κ} {B : Type μ} (P : S → Type ν) (r : Result A) (f : A → Action S B)
    (s : S)
    → P s
    → ((a : A) → r ≡ ok a → P ((f a s).1))
    → P ((then_run f (r, s)).1)
after-lift P (err raised) f s before rest = before
after-lift P (ok a) f s before rest = rest a refl

pub lift-eq-ok {ℓ κ μ} :
    {S : Type ℓ} {A : Type κ} {B : Type μ} (f : A → Action S B) (r : Result A) (s : S) {b : B}
    {s' : S}
    → then_run f (r, s) ≡ (ok b, s')
    → (a : A) × (r ≡ ok a) × (f a s ≡ (ok b, s'))
lift-eq-ok f (ok a) s e = (a, refl, e)
lift-eq-ok f (err raised) s {b = b} e = absurd (no_value (ap (λ r. r.0) e))
  where
    no_value : ¬ (err raised ≡ ok b)
    no_value q = cc
