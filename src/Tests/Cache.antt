-- ===== src/Tests/Cache.antt =====
-- The cache of src/joinlint/runtime/cache.py at one record.
use joinlint.Prelude.{true, String, ◌≡◌, refl, some, List, [], ◌∷◌, ◌==◌}
use joinlint.Prelude.Dict.{Dict, get}
use joinlint.Errors.{ok}
use joinlint.Domain.{Provenance, verifier_version}
use joinlint.Domain.Text.{is_digest}
use joinlint.Domain.Ids.{provenance_text}
use joinlint.Cache.{
  File, content, Codec, CacheState, load, load_pointer, evidence_selector, load_evidence,
  store_evidence, load_evidence_for,
}
use joinlint.Cache.View.{view}
use joinlint.Cache.Client.{
  Call, load_call, store_call, IsFaithful, run, replay, view-IsContents, run-replay,
}
use joinlint.Cache.Evidence.{IsHexDigest, load_evidence_for-is_for, load-store_evidence}
use joinlint.Tests.{sample_hashing, digest}
use joinlint.Tests.Evidence.{verified}
use joinlint.Tests.Service.{codecs, empty_cache}

abbrev texts : Codec String
texts = record { encode = λ v. v; decode = λ v. some v }

faithful : IsFaithful texts
faithful = record { back = λ v. refl }

abbrev itself : String → String
itself v = v

abbrev other_digest : String
other_digest = "fedcba9876543210fedcba9876543210fedcba9876543210fedcba9876543210"

abbrev calls : List (Call String)
calls = store_call digest ∷ load_call digest ∷ load_call other_digest ∷ load_call "no digest" ∷ []

abbrev files : Dict File
files = (digest, content "other") ∷ (other_digest, content other_digest) ∷ []

run-replay_example :
    (run texts itself calls files).0 ≡ replay texts itself calls (view texts itself files)
run-replay_example =
    run-replay texts itself faithful calls files (view texts itself files)
      (view-IsContents texts itself files)

hexadecimal : IsHexDigest sample_hashing
unfolding is_digest
hexadecimal = record { hex = λ b. refl }

abbrev with_record : CacheState
with_record = record {
  evidence = (digest, content "evidence") ∷ [];
  evidence_index = (digest, content digest) ∷ [];
  proofs = [];
}

found :
    load_evidence_for sample_hashing codecs digest digest Provenance.declared verifier_version
      with_record
    ≡ (ok (some verified), with_record)
unfolding load_evidence_for evidence_selector load_pointer load_evidence load get is_digest ◌==◌
found = refl

load_evidence_for-is_for_example :
    (verified.relationship_id ≡ digest)
    × (verified.snapshot_id ≡ digest)
    × (provenance_text verified.provenance ≡ provenance_text Provenance.declared)
    × (verified.verifier_version ≡ verifier_version)
load_evidence_for-is_for_example =
    load_evidence_for-is_for sample_hashing codecs digest digest Provenance.declared
      verifier_version with_record with_record verified found

digest-is_digest : is_digest digest ≡ true
unfolding is_digest
digest-is_digest = refl

load-store_evidence_example :
    (s' : CacheState) × (store_evidence sample_hashing codecs verified empty_cache ≡ (ok tt, s'))
    × (load_evidence_for sample_hashing codecs digest digest Provenance.declared verifier_version s'
        ≡ (ok (some verified), s'))
load-store_evidence_example =
    load-store_evidence sample_hashing codecs hexadecimal empty_cache verified refl digest-is_digest
      digest-is_digest digest-is_digest
