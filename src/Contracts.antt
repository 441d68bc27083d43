-- ===== src/Contracts.antt =====
-- The result envelope of src/joinlint/contracts.py. `data` is `none` or an empty dictionary there, so
-- it is whether there is one.
use joinlint.Prelude.{ℕ, String, ◌≡◌, refl, Bool, true, false, Option, none, some, List, []}
use joinlint.Errors.{value_error, Result, ok, err}
use joinlint.Domain.{RuntimeFinding}

pub data Status : Type 0 where
  ok_status findings_status inconclusive error : Status

pub record ErrorBody : Type 0 where
  pub code : String
  pub message : String

pub record Envelope : Type 0 where
  pub schema_version : ℕ
  pub command : String
  pub status : Status
  pub has_data : Bool
  pub findings : List RuntimeFinding
  pub error_body : Option ErrorBody

-- `status in {"inconclusive", "error"}`
abbrev pub needs_error : Status → Bool
needs_error inconclusive = true
needs_error error = true
needs_error ok_status = false
needs_error findings_status = false

abbrev with_error : String → Status → String → Envelope
with_error command status code = record {
  schema_version = 1;
  command = command;
  status = status;
  has_data = false;
  findings = [];
  error_body = some (record { code = code; message = code });
}

abbrev with_data : String → Status → Envelope
with_data command status = record {
  schema_version = 1;
  command = command;
  status = status;
  has_data = true;
  findings = [];
  error_body = none;
}

abbrev pub built : Bool → String → Status → Option String → Result Envelope
built true command given none = err value_error
built true command given (some code) = ok (with_error command given code)
built false command given (some code) = err value_error
built false command given none = ok (with_data command given)

unfoldable pub envelope_for : String → Status → Option String → Result Envelope
envelope_for command status error_code = built (needs_error status) command status error_code

abbrev pub is_none {ℓ} : {A : Type ℓ} → Option A → Bool
is_none none = true
is_none (some _) = false

abbrev pub code_of : Option ErrorBody → Option String
code_of none = none
code_of (some b) = some b.code

-- The combinations of a status and an error code that make an envelope.
abbrev pub IsCall : Status → Option String → Type 0
IsCall ok_status error_code = error_code ≡ none
IsCall findings_status error_code = error_code ≡ none
IsCall inconclusive error_code = (code : String) × (error_code ≡ some code)
IsCall error error_code = (code : String) × (error_code ≡ some code)

-- With an error code for an inconclusive status or an error, or without one for another status, the
-- call returns an envelope with the command, the status and no findings, with an error exactly if
-- there is a code, which it then has, and with data exactly if there is none. With any other
-- combination it raises `ValueError`.
pub envelope_for-IsCall :
    (command : String) (status : Status) (error_code : Option String)
    → (IsCall status error_code
        → (e : Envelope) × (envelope_for command status error_code ≡ ok e)
          × (e.command ≡ command)
          × (e.status ≡ status)
          × (e.findings ≡ [])
          × (code_of e.error_body ≡ error_code)
          × (e.has_data ≡ is_none error_code))
      × (¬ IsCall status error_code → envelope_for command status error_code ≡ err value_error)
unfolding envelope_for
envelope_for-IsCall command ok_status none =
    (λ _. (with_data command ok_status, refl, refl, refl, refl, refl, refl), λ n. absurd (n refl))
envelope_for-IsCall command findings_status none = (
  λ _. (with_data command findings_status, refl, refl, refl, refl, refl, refl),
  λ n. absurd (n refl),
)
envelope_for-IsCall command inconclusive none = (λ c. cc, λ _. refl)
envelope_for-IsCall command error none = (λ c. cc, λ _. refl)
envelope_for-IsCall command ok_status (some code) = (λ c. cc, λ _. refl)
envelope_for-IsCall command findings_status (some code) = (λ c. cc, λ _. refl)
envelope_for-IsCall command inconclusive (some code) = (
  λ _. (with_error command inconclusive code, refl, refl, refl, refl, refl, refl),
  λ n. absurd (n (code, refl)),
)
envelope_for-IsCall command error (some code) = (
  λ _. (with_error command error code, refl, refl, refl, refl, refl, refl),
  λ n. absurd (n (code, refl)),
)
