-- ===== src/Cache.antt =====
-- `RuntimeCache` of src/joinlint/runtime/cache.py.
--
-- The state is the content of its directories: by digest, the file of that name. `Codec` stands for
-- the JSON that pydantic writes and reads. A file that cannot be read is one whose text `decode`
-- refuses. The temporary file of a write, and the lock, are gone when a method returns.
pub mod View
pub mod Client
pub mod Evidence
use joinlint.Prelude.{String, Bool, ◌&&◌, Option, none, some, [], if◌then◌else◌, ◌==◌}
use joinlint.Prelude.Dict.{Dict, get, put, remove}
use joinlint.Errors.{value_error, Result, ok, err}
use joinlint.Action.{Action, pure, lift, modify, ◌>>=◌, ◌>>◌}
use joinlint.Domain.{Provenance, EvidenceRecord, JoinProof, body}
use joinlint.Domain.Text.{is_digest}
use joinlint.Domain.Json.{obj, field, end, text, Hashing}
use joinlint.Domain.Ids.{provenance_text}

pub data File : Type 0 where
  symlink : File
  content : String → File

-- `value.model_dump(mode="json")` in canonical form, and `model_validate_json`.
pub record Codec {ℓ} (A : Type ℓ) : Type ℓ where
  pub encode : A → String
  pub decode : String → Option A

-- `_safe_digest(value)`
abbrev pub safe_digest : String → Result String
safe_digest value = if is_digest value then ok value else err value_error

module _ {ℓ} {A : Type ℓ} (codec : Codec A) (identity : A → String) where
  -- What a decoded file gives: a value under another name is removed.
  abbrev pub identified : String → Dict File → Option A → Option A × Dict File
  identified key files none = (none, remove key files)
  identified key files (some value) =
      if identity value == key then (some value, files) else (none, remove key files)

  abbrev pub read_file : String → Dict File → Option File → Option A × Dict File
  read_file key files none = (none, files)
  read_file key files (some symlink) = (none, remove key files)
  read_file key files (some (content written)) = identified key files (codec.decode written)

  -- `_load`, on the files of one namespace.
  unfoldable pub load : String → Action (Dict File) (Option A)
  load key files = elim (safe_digest key) [
    | err raised ↦ (err raised, files)
    | ok name ↦ let (value, left) = read_file name files (get name files) in (ok value, left)
  ]

  -- `_store`
  unfoldable pub store : String → A → Action (Dict File) (Unit {0})
  store key value = do
    name ← lift (safe_digest key)
    modify (put name (content (codec.encode value)))

abbrev pub read_pointer : String → Dict File → Option File → Option String × Dict File
read_pointer key files none = (none, files)
read_pointer key files (some symlink) = (none, remove key files)
read_pointer key files (some (content value)) =
    if is_digest value then (some value, files) else (none, remove key files)

-- `_load_pointer`
unfoldable pub load_pointer : String → Action (Dict File) (Option String)
load_pointer key files = elim (safe_digest key) [
  | err raised ↦ (err raised, files)
  | ok name ↦ let (value, left) = read_pointer name files (get name files) in (ok value, left)
]

-- `_store_pointer`
unfoldable pub store_pointer : String → String → Action (Dict File) (Unit {0})
store_pointer key value = do
  written ← lift (safe_digest value)
  name ← lift (safe_digest key)
  modify (put name (content written))

pub record CacheState : Type 0 where
  pub evidence : Dict File
  pub evidence_index : Dict File
  pub proofs : Dict File

pub record Codecs : Type 0 where
  pub evidence : Codec EvidenceRecord
  pub proofs : Codec JoinProof

-- The methods work on one of the directories.
abbrev pub in_evidence {ℓ} : {A : Type ℓ} → Action (Dict File) A → Action CacheState A
in_evidence m s = let (r, files) = m s.evidence in (r, record s { evidence = files })

abbrev pub in_index {ℓ} : {A : Type ℓ} → Action (Dict File) A → Action CacheState A
in_index m s = let (r, files) = m s.evidence_index in (r, record s { evidence_index = files })

abbrev pub in_proofs {ℓ} : {A : Type ℓ} → Action (Dict File) A → Action CacheState A
in_proofs m s = let (r, files) = m s.proofs in (r, record s { proofs = files })

abbrev pub evidence_id_of : EvidenceRecord → String
evidence_id_of r = r.evidence_id

abbrev pub plan_id_of : JoinProof → String
plan_id_of p = (body p).plan_id

module _ (h : Hashing) (codecs : Codecs) where
  abbrev pub selector_for : String → String → Provenance → String → String
  selector_for relationship_id snapshot_id provenance verifier_version = h.sha256 (
      h.canonical_json (
        obj (
          field "relationship_id" (text relationship_id) (
            field "snapshot_id" (text snapshot_id) (
              field "provenance" (text (provenance_text provenance))
                (field "verifier_version" (text verifier_version) end))))))

  unfoldable pub evidence_selector : String → String → Provenance → String → Result String
  evidence_selector relationship_id snapshot_id provenance verifier_version =
      if is_digest relationship_id
      then if is_digest snapshot_id
        then ok (selector_for relationship_id snapshot_id provenance verifier_version)
        else err value_error
      else err value_error

  unfoldable pub load_evidence : String → Action CacheState (Option EvidenceRecord)
  load_evidence evidence_id = in_evidence (load codecs.evidence evidence_id_of evidence_id)

  unfoldable pub store_evidence : EvidenceRecord → Action CacheState (Unit {0})
  store_evidence r = do
    in_evidence (store codecs.evidence evidence_id_of r.evidence_id r)
    selector ←
        lift (evidence_selector r.relationship_id r.snapshot_id r.provenance r.verifier_version)
    in_index (store_pointer selector r.evidence_id)

  -- The four comparisons.
  abbrev pub is_for : String → String → Provenance → String → EvidenceRecord → Bool
  is_for relationship_id snapshot_id provenance verifier_version r =
      r.relationship_id == relationship_id
      && r.snapshot_id == snapshot_id
      && provenance_text r.provenance == provenance_text provenance
      && r.verifier_version == verifier_version

  -- `(... / f"{selector}.json").unlink(missing_ok=True)`
  abbrev pub drop_pointer : String → Action CacheState (Unit {0})
  drop_pointer selector = in_index (modify (remove selector))

  abbrev pub keep_matching :
      (EvidenceRecord → Bool)
      → String
      → Option EvidenceRecord
      → Action CacheState (Option EvidenceRecord)
  keep_matching matches selector none = do drop_pointer selector; pure none
  keep_matching matches selector (some r) =
      if matches r then pure (some r) else drop_pointer selector >> pure none

  abbrev pub follow :
      (EvidenceRecord → Bool) → String → Option String → Action CacheState (Option EvidenceRecord)
  follow matches selector none = pure none
  follow matches selector (some evidence_id) = do
    r ← load_evidence evidence_id
    keep_matching matches selector r

  unfoldable pub load_evidence_for :
      String → String → Provenance → String → Action CacheState (Option EvidenceRecord)
  load_evidence_for relationship_id snapshot_id provenance verifier_version = do
    selector ← lift (evidence_selector relationship_id snapshot_id provenance verifier_version)
    pointer ← in_index (load_pointer selector)
    follow (is_for relationship_id snapshot_id provenance verifier_version) selector pointer

  unfoldable pub load_proof : String → Action CacheState (Option JoinProof)
  load_proof plan_id = in_proofs (load codecs.proofs plan_id_of plan_id)

  unfoldable pub store_proof : JoinProof → Action CacheState (Unit {0})
  store_proof p = in_proofs (store codecs.proofs plan_id_of (plan_id_of p) p)
