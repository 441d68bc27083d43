-- ===== src/Tests/Contracts.antt =====
-- The envelope of src/joinlint/contracts.py for a failed scan.
use joinlint.Prelude.{String, ◌≡◌, some, []}
use joinlint.Errors.{value_error, ok, err}
use joinlint.Contracts.{
  Envelope, error, is_none, code_of, IsCall, envelope_for, envelope_for-IsCall,
}

abbrev missing : String
missing = "PROJECT_MISSING"

envelope_for-IsCall_example :
    (IsCall error (some missing)
      → (e : Envelope) × (envelope_for "scan" error (some missing) ≡ ok e)
        × (e.command ≡ "scan")
        × (e.status ≡ error)
        × (e.findings ≡ [])
        × (code_of e.error_body ≡ some missing)
        × (e.has_data ≡ is_none (some missing)))
    × (¬ IsCall error (some missing) → envelope_for "scan" error (some missing) ≡ err value_error)
envelope_for-IsCall_example = envelope_for-IsCall "scan" error (some missing)
