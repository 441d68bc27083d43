-- ===== src/Cache/Evidence.antt =====
-- `store_evidence` and `load_evidence_for` of src/joinlint/runtime/cache.py together: the index leads to
-- the record, and never to another.
use joinlint.Prelude.{
  ℕ, List, String, Bool, true, ◌&&◌, Option, none, some, ◌≡◌, refl, ap, subst, inl, inr, ◌==◌,
  ==_iff, ==_refl, &&-eq-true, Bool-cases,
}
use joinlint.Prelude.Dict.{Dict, put, get-put}
use joinlint.Errors.{Result, ok}
use joinlint.Domain.{Provenance, EvidenceRecord}
use joinlint.Domain.Text.{is_digest}
use joinlint.Domain.Json.{Hashing}
use joinlint.Domain.Ids.{provenance_text}
use joinlint.Action.{then_run-eq-ok, lift}
use joinlint.Cache.{
  File, content, CacheState, Codecs, evidence_selector, load, store, load_pointer, store_pointer,
  load_evidence, store_evidence, load_evidence_for, is_for, selector_for, keep_matching, follow,
  in_index, evidence_id_of,
}

-- What the code relies on: `hexdigest()` is a lowercase digest.
pub record IsHexDigest (h : Hashing) : Type 0 where
  pub hex : (b : List ℕ) → is_digest (h.sha256 b) ≡ true

abbrev Answer : Type 0
Answer = Result (Option EvidenceRecord) × CacheState

module _ (h : Hashing) (codecs : Codecs) where
  ok_some-inj : {x y : Option EvidenceRecord} → ok x ≡ ok y → x ≡ y
  ok_some-inj q = cc

  record-inj : {x y : EvidenceRecord} → some x ≡ some y → x ≡ y
  record-inj q = cc

  result-inj :
      {a b : EvidenceRecord} {s s' : CacheState}
      → ◌≡◌ {A = Answer} (ok (some a), s) (ok (some b), s')
      → a ≡ b
  result-inj e = record-inj (ok_some-inj (ap (λ (p : Answer). p.0) e))

  no_record :
      {r : EvidenceRecord} {s s' : CacheState} → ¬ (◌≡◌ {A = Answer} (ok none, s) (ok (some r), s'))
  no_record {r} e = none_not (ok_some-inj (ap (λ (p : Answer). p.0) e))
    where
      none_not : ¬ (none ≡ some r)
      none_not q = cc

  keep_matching-passes :
      (matches : EvidenceRecord → Bool) (selector : String) (found : Option EvidenceRecord)
      (s s' : CacheState) (r : EvidenceRecord)
      → keep_matching h codecs matches selector found s ≡ (ok (some r), s')
      → matches r ≡ true
  keep_matching-passes matches selector none s s' r e = absurd (no_record e)
  keep_matching-passes matches selector (some x) s s' r e = elim (Bool-cases (matches x)) [
    | inl y ↦ subst (λ w. matches w ≡ true) (result-inj (rw y at e)) y
    | inr n ↦ absurd (no_record (rw n at e))
  ]

  follow-passes :
      (matches : EvidenceRecord → Bool) (selector : String) (pointer : Option String)
      (s s' : CacheState) (r : EvidenceRecord)
      → follow h codecs matches selector pointer s ≡ (ok (some r), s')
      → matches r ≡ true
  follow-passes matches selector none s s' r e = absurd (no_record e)
  follow-passes matches selector (some evidence_id) s s' r e =
      let (found, s₁, p, e₁) = then_run-eq-ok _ (load_evidence h codecs evidence_id s) e in
      keep_matching-passes matches selector found s₁ s' r e₁

  -- A record that `load_evidence_for` finds is one for its arguments, whatever the files hold.
  pub load_evidence_for-is_for :
      (relationship_id snapshot_id : String) (provenance : Provenance) (verifier_version : String)
      (s s' : CacheState) (r : EvidenceRecord)
      → load_evidence_for h codecs relationship_id snapshot_id provenance verifier_version s
        ≡ (ok (some r), s')
      → (r.relationship_id ≡ relationship_id)
        × (r.snapshot_id ≡ snapshot_id)
        × (provenance_text r.provenance ≡ provenance_text provenance)
        × (r.verifier_version ≡ verifier_version)
  unfolding load_evidence_for
  load_evidence_for-is_for relationship_id snapshot_id provenance verifier_version s s' r e =
      let matches = is_for h codecs relationship_id snapshot_id provenance verifier_version in
      let (selector, s₁, p, e₁) =
        then_run-eq-ok _
          (lift (evidence_selector h codecs relationship_id snapshot_id provenance verifier_version)
            s)
          e in
      let (pointer, s₂, q, e₂) = then_run-eq-ok _ (in_index (load_pointer selector) s₁) e₁ in
      let passed = follow-passes matches selector pointer s₂ s' r e₂ in
      let (a, v) =
        &&-eq-true
          (r.relationship_id == relationship_id
            && r.snapshot_id == snapshot_id
            && provenance_text r.provenance == provenance_text provenance)
          _ passed in
      let (b, t) =
        &&-eq-true (r.relationship_id == relationship_id && r.snapshot_id == snapshot_id) _ a in
      let (c, d) = &&-eq-true (r.relationship_id == relationship_id) _ b in
      ((==_iff _ _).0 c, (==_iff _ _).0 d, (==_iff _ _).0 t, (==_iff _ _).0 v)

  load-content :
      (key written : String) (files : Dict File) (r : EvidenceRecord)
      → codecs.evidence.decode written ≡ some r
      → r.evidence_id ≡ key
      → is_digest key ≡ true
      → load codecs.evidence evidence_id_of key (put key (content written) files)
        ≡ (ok (some r), put key (content written) files)
  unfolding load
  load-content key written files r back i d =
      rw (load, d, get-put, ==_refl, back, i) (rw ==_refl refl)

  load_pointer-content :
      (key value : String) (files : Dict File)
      → is_digest key ≡ true
      → is_digest value ≡ true
      → load_pointer key (put key (content value) files)
        ≡ (ok (some value), put key (content value) files)
  unfolding load_pointer
  load_pointer-content key value files d v = rw (load_pointer, d, get-put, ==_refl, v) refl

  abbrev selector_of : EvidenceRecord → String
  selector_of r =
      selector_for h codecs r.relationship_id r.snapshot_id r.provenance r.verifier_version

  abbrev after_store : CacheState → EvidenceRecord → CacheState
  after_store s r = record s {
    evidence = put r.evidence_id (content (codecs.evidence.encode r)) s.evidence;
    evidence_index = put (selector_of r) (content r.evidence_id) s.evidence_index;
  }

  evidence_selector-selector_of :
      (r : EvidenceRecord)
      → is_digest r.relationship_id ≡ true
      → is_digest r.snapshot_id ≡ true
      → evidence_selector h codecs r.relationship_id r.snapshot_id r.provenance r.verifier_version
        ≡ ok (selector_of r)
  unfolding evidence_selector
  evidence_selector-selector_of r j k = rw (evidence_selector, j, k) refl

  is_for_itself :
      (r : EvidenceRecord)
      → is_for h codecs r.relationship_id r.snapshot_id r.provenance r.verifier_version r ≡ true
  is_for_itself r =
      rw
        (
          ==_refl r.relationship_id,
          ==_refl r.snapshot_id,
          ==_refl (provenance_text r.provenance),
          ==_refl r.verifier_version,
        )
        refl

  -- A record that was stored is found again by its relationship, snapshot, provenance and verifier.
  pub load-store_evidence :
      IsHexDigest h
      → (s : CacheState) (r : EvidenceRecord)
      → codecs.evidence.decode (codecs.evidence.encode r) ≡ some r
      → is_digest r.evidence_id ≡ true
      → is_digest r.relationship_id ≡ true
      → is_digest r.snapshot_id ≡ true
      → (s' : CacheState) × (store_evidence h codecs r s ≡ (ok tt, s'))
        × (load_evidence_for h codecs r.relationship_id r.snapshot_id r.provenance
              r.verifier_version s'
            ≡ (ok (some r), s'))
  unfolding store_evidence load_evidence_for store store_pointer load_evidence
  load-store_evidence hashing s r back i j k = (
    after_store s r,
    rw (i, evidence_selector-selector_of r j k) (rw hashing.hex refl),
    rw
        (
          evidence_selector-selector_of r j k,
          load_pointer-content (selector_of r) r.evidence_id s.evidence_index (hashing.hex _) i,
          load-content r.evidence_id (codecs.evidence.encode r) s.evidence r back refl i,
        )
        (rw (is_for_itself r) refl),
  )
