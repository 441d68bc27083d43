-- ===== src/Errors.antt =====
-- src/joinlint/errors.py, and the exceptions that the modelled code lets pass: `JoinLintError`, the
-- `SQLValidationError` of src/joinlint/runtime/sql.py, `ValueError` (pydantic's
-- `ValidationError` is one) and `KeyError`. `diverges` stands for a call that does not return.
use joinlint.Prelude.{ℕ, String, ◌≡◌, refl, subst, ◌⊎◌, inl, inr, Bool, true, false}

pub record JoinLintError : Type 0 where
  pub code : String
  pub message : String
  pub exit_code : ℕ

pub record SqlValidationError : Type 0 where
  pub code : String
  pub blocking : Bool

pub data Failure : Type 0 where
  join_lint : JoinLintError → Failure
  sql_validation : SqlValidationError → Failure
  value_error : Failure
  key_error : Failure
  diverges : Failure

infixl 5 ◌>>=◌
infixl 5 ◌>>◌
-- What a call returns, or the exception that it raises.
pub data Result {ℓ} (Value : Type ℓ) : Type ℓ where
  err : Failure → Result Value
  ok : Value → Result Value

-- The next statement runs with the value of the one before, unless that raised.
abbrev pub ◌>>=◌ {ℓ κ} : {A : Type ℓ} {B : Type κ} → Result A → (A → Result B) → Result B
err raised >>= next = err raised
ok value >>= next = next value

-- `raise JoinLintError(code, message, exit_code)`
abbrev pub raise {ℓ} : {A : Type ℓ} → String → String → ℕ → Result A
raise code message exit_code =
    err (join_lint (record { code = code; message = message; exit_code = exit_code }))

-- `if not test: raise e`
abbrev pub require : Bool → Failure → Result (Unit {0})
require false failed = err failed
require true failed = ok tt

-- The next statement runs after one without a value.
abbrev pub ◌>>◌ {ℓ} : {A : Type ℓ} → Result (Unit {0}) → Result A → Result A
statement >> next = statement >>= λ _. next

abbrev pub failure : String → String → ℕ → Failure
failure code message exit_code =
    join_lint (record { code = code; message = message; exit_code = exit_code })

pub Result-cases {ℓ} :
    {A : Type ℓ} (r : Result A) → ((e : Failure) × (r ≡ err e)) ⊎ ((a : A) × (r ≡ ok a))
Result-cases (err e) = inl (e, refl)
Result-cases (ok a) = inr (a, refl)

-- A chain that succeeds had a first value, and the rest succeeded on it.
pub >>=-eq-ok {ℓ κ} :
    {A : Type ℓ} {B : Type κ} (m : Result A) (next : A → Result B) {b : B}
    → (m >>= next) ≡ ok b
    → (a : A) × (m ≡ ok a) × (next a ≡ ok b)
>>=-eq-ok (err raised) next h = cc
>>=-eq-ok (ok value) next h = (value, refl, h)

pub require-eq-ok {ℓ} :
    {A : Type ℓ} (t : Bool) (e : Failure) (k : Result A) {b : A}
    → (require t e >> k) ≡ ok b
    → (t ≡ true) × (k ≡ ok b)
require-eq-ok true e k h = (refl, h)
require-eq-ok false e k h = cc

-- Every exception that the computation may raise is one of `P`.
abbrev pub Raises {ℓ κ} : {A : Type ℓ} → (Failure → Type κ) → Result A → Type (ℓ ⊔ κ)
Raises P m = (e : Failure) → m ≡ err e → P e

pub Raises-ok {ℓ κ} : {A : Type ℓ} (P : Failure → Type κ) (a : A) → Raises P (ok a)
Raises-ok P a e h = cc

pub Raises-err {ℓ κ} :
    {A : Type ℓ} (P : Failure → Type κ) (e : Failure) → P e → Raises {A = A} P (err e)
Raises-err {A = A} P e p f h = subst P (err-inj h) p
  where
    err-inj : ◌≡◌ {A = Result A} (err e) (err f) → e ≡ f
    err-inj q = cc

pub Raises->>= {ℓ κ μ} :
    {A : Type ℓ} {B : Type κ} (P : Failure → Type μ) (m : Result A) (f : A → Result B)
    → Raises P m
    → ((a : A) → m ≡ ok a → Raises P (f a))
    → Raises P (m >>= f)
Raises->>= P (ok a) f r s = s a refl
Raises->>= P (err e) f r s = Raises-err P e (r e refl)

pub Raises-require {ℓ κ} :
    {A : Type ℓ} (P : Failure → Type κ) (t : Bool) (e : Failure) (k : Result A)
    → P e
    → (t ≡ true → Raises P k)
    → Raises P (require t e >> k)
Raises-require P true e k p r = r refl
Raises-require P false e k p r = Raises-err P e p
