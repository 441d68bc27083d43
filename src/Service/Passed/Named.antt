-- ===== src/Service/Passed/Named.antt =====
-- The plan that a request of `validate_sql` of src/joinlint/runtime/service.py names is the one that
-- is used.
use joinlint.Prelude.{
  String, ◌≡◌, refl, sym, ap, ◌∙◌, inl, inr, Option, none, some, ◌==◌, ==_iff, Bool-cases,
}
use joinlint.Prelude.Dict.{Dict, get}
use joinlint.Errors.{
  Failure, value_error, key_error, diverges, join_lint, sql_validation, Result, ok, err,
}
use joinlint.Action.{lift, lift-eq-ok, ◌>>=◌}
use joinlint.Domain.{JoinProof}
use joinlint.Domain.Text.{is_digest}
use joinlint.Cache.{
  CacheState, File, symlink, content, Codec, identified, read_file, load, load_proof, plan_id_of,
}
use joinlint.Service.Inputs.{Environment}
use joinlint.Service.Validate.{as_invalid, available, proof_with}

-- The proof in use is the one with the id that the request names, and there is none in use where
-- the request names none.
pub record IsNamedPlan (plan_id : Option String) (given : Option JoinProof) : Type 0 where
  pub named :
      (id : String) → plan_id ≡ some id → (p : JoinProof) × (given ≡ some p) × (plan_id_of p ≡ id)
  pub unnamed : plan_id ≡ none → given ≡ none

ok-inj {ℓ} : {A : Type ℓ} {a b : A} → ok a ≡ ok b → a ≡ b
ok-inj e = cc

some-inj {ℓ} : {A : Type ℓ} {a b : A} → some a ≡ some b → a ≡ b
some-inj e = cc

module _ {ℓ} {A : Type ℓ} (codec : Codec A) (identity : A → String) where
  identified-identity :
      (key : String) (files : Dict File) (decoded : Option A) (v : A)
      → (identified codec identity key files decoded).0 ≡ some v
      → identity v ≡ key
  identified-identity key files none v e = cc
  identified-identity key files (some x) v e = elim (Bool-cases (identity x == key)) [
    | inl y ↦ ap identity (sym (some-inj (rw y at e))) ∙ (==_iff (identity x) key).0 y
    | inr n ↦ let q : none ≡ some v = rw n at e in cc
  ]

  read_file-identity :
      (key : String) (files : Dict File) (file : Option File) (v : A)
      → (read_file codec identity key files file).0 ≡ some v
      → identity v ≡ key
  read_file-identity key files none v e = cc
  read_file-identity key files (some symlink) v e = cc
  read_file-identity key files (some (content written)) v e =
      identified-identity key files (codec.decode written) v e

  -- What a load returns is the value of that name.
  load-identity :
      (key : String) (files : Dict File) (v : A)
      → (load codec identity key files).0 ≡ ok (some v)
      → identity v ≡ key
  unfolding load
  load-identity key files v e = elim (Bool-cases (is_digest key)) [
    | inl y ↦ read_file-identity key files (get key files) v (ok-inj (rw (load, y) at e))
    | inr n ↦ absurd (raised (rw (load, n) at e))
  ]
    where
      raised : {f : Failure} → ¬ (◌≡◌ {A = Result (Option A)} (err f) (ok (some v)))
      raised q = cc

as_invalid-eq-ok {ℓ} : {A : Type ℓ} (r : Result A) (a : A) → as_invalid r ≡ ok a → r ≡ ok a
as_invalid-eq-ok (ok b) a e = e
as_invalid-eq-ok (err value_error) a e = cc
as_invalid-eq-ok (err (join_lint x)) a e = cc
as_invalid-eq-ok (err key_error) a e = cc
as_invalid-eq-ok (err diverges) a e = cc
as_invalid-eq-ok (err (sql_validation x)) a e = cc

available-eq-ok :
    (found given : Option JoinProof)
    → available found ≡ ok given
    → (p : JoinProof) × (found ≡ some p) × (given ≡ some p)
available-eq-ok none given e = cc
available-eq-ok (some p) given e = (p, refl, sym (ok-inj e))

found_of :
    (loaded : Result (Option JoinProof)) (left s' : CacheState) (given : Option JoinProof)
    → (lift (as_invalid loaded) >>= (λ found. lift (available found))) left ≡ (ok given, s')
    → (p : JoinProof) × (loaded ≡ ok (some p)) × (given ≡ some p)
found_of loaded left s' given e =
    let (found, valid, e₁) =
      lift-eq-ok (λ found. lift (available found)) (as_invalid loaded) left e in
    let (p, is_p, same) =
      available-eq-ok found given (ap (λ (a : Result (Option JoinProof) × CacheState). a.0) e₁) in
    (p, as_invalid-eq-ok loaded found valid ∙ ap (λ x. ok x) is_p, same)

pub proof_with-IsNamedPlan :
    (env : Environment) (plan_id : Option String) (s s' : CacheState) (given : Option JoinProof)
    → proof_with env plan_id s ≡ (ok given, s')
    → IsNamedPlan plan_id given
unfolding proof_with load_proof
proof_with-IsNamedPlan env none s s' given e = record {
  named = λ id q. cc;
  unnamed = λ _. sym (ok-inj (ap (λ (a : Result (Option JoinProof) × CacheState). a.0) e));
}
proof_with-IsNamedPlan env (some plan_id) s s' given e =
    let (loaded, left) = load_proof env.hashing env.codecs plan_id s in
    let (p, found, is) = found_of loaded left s' given e in
    record {
      named = λ id q.
          (p, is, load-identity env.codecs.proofs plan_id_of plan_id s.proofs p found ∙ some-inj q);
      unnamed = λ q. cc;
    }
