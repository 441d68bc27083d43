-- ===== src/Evidence/Authorize.antt =====
-- What `authorize` of src/joinlint/runtime/evidence.py demands of a record.
use mathlib.Core.List.Memᴰ
use joinlint.Prelude.{
  String, ◌≡◌, refl, ◌↔◌, inl, inr, Bool, true, false, List, [], ◌∷◌, map, arith, Memᴰ, ==_iff,
  ==_refl, Bool-cases, is_empty, keep_if, All,
}
use joinlint.Prelude.Order.{text_ord}
use joinlint.Prelude.Sort.{sorted, mem-sorted}
use joinlint.Errors.{ok}
use joinlint.Domain.{RuntimeFinding, EvidenceMode, exact, EvidenceRecord, AuthorizationProjection}
use joinlint.Domain.Valid.{bool_eq, valid_authorization}
use joinlint.Evidence.{is_exact, finding_code, blocks, blocking_codes, projection, authorize}

-- The record is of the current snapshot, and nothing that was found blocks.
pub record IsUsable (record_ : EvidenceRecord) (current_snapshot_id : String) : Type 0 where
  pub current : record_.snapshot_id ≡ current_snapshot_id
  pub unblocked : All (λ f. blocks f ≡ false) record_.findings

nothing_kept_iff :
    (fs : List RuntimeFinding)
    → (is_empty (map finding_code (keep_if blocks fs)) ≡ true) ↔ All (λ f. blocks f ≡ false) fs
nothing_kept_iff [] = (λ _ f m. absurd (Memᴰ.not-nil m), λ _. refl)
nothing_kept_iff (f ∷ fs) = elim (Bool-cases (blocks f)) [
  | inl y ↦ rw y (λ h. cc, λ a. cc (a f (Memᴰ.head refl), y))
  | inr n ↦ rw n (
    λ h g m. elim (Memᴰ.cases_cons m) [ inl q ↦ rw q n | inr r ↦ (nothing_kept_iff fs).0 h g r ],
    λ a. (nothing_kept_iff fs).1 (λ g m. a g (Memᴰ.tail m)),
  )
]

unblocked_iff :
    (fs : List RuntimeFinding)
    → (is_empty (blocking_codes fs) ≡ true) ↔ All (λ f. blocks f ≡ false) fs
unblocked_iff fs = (
  λ h f m. (nothing_kept_iff (sorted finding_code fs)).0 h f ((mem-sorted finding_code f fs).1 m),
  λ a.
      (nothing_kept_iff (sorted finding_code fs)).1
        (λ f m. a f ((mem-sorted finding_code f fs).0 m)),
)

always_exact : (mode : EvidenceMode) → is_exact mode ≡ true
always_exact exact = refl

bool_eq_refl : (b : Bool) → bool_eq b b ≡ true
bool_eq_refl true = refl
bool_eq_refl false = refl

module _ (record_ : EvidenceRecord) (current_snapshot_id policy_version : String) where
  pub projection-usable_iff :
      ((projection record_ current_snapshot_id policy_version).usable ≡ true)
      ↔ IsUsable record_ current_snapshot_id
  projection-usable_iff = (
    λ h. record {
      current = ground (arith, h, ==_iff record_.snapshot_id current_snapshot_id);
      unblocked = (unblocked_iff record_.findings).0 (ground arith);
    },
    λ u. rw (u.current, ==_refl, always_exact, (unblocked_iff record_.findings).1 u.unblocked) refl,
  )

  -- `authorize` raises nothing.
  pub authorize-projection :
      authorize record_ current_snapshot_id policy_version
      ≡ ok (projection record_ current_snapshot_id policy_version)
  unfolding authorize
  authorize-projection = rw valid refl
    where
      valid : valid_authorization (projection record_ current_snapshot_id policy_version) ≡ true
      valid = bool_eq_refl (projection record_ current_snapshot_id policy_version).usable

  -- `authorize` always answers, and it declares a record usable exactly if the record is of the
  -- current snapshot and has no blocking finding.
  pub authorize-IsUsable :
      (projected : AuthorizationProjection) × (authorize record_ current_snapshot_id policy_version
        ≡ ok projected)
      × ((projected.usable ≡ true) ↔ IsUsable record_ current_snapshot_id)
  authorize-IsUsable = (
    projection record_ current_snapshot_id policy_version,
    authorize-projection,
    projection-usable_iff,
  )
