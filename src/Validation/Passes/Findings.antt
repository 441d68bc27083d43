-- ===== src/Validation/Passes/Findings.antt =====
-- When none of the findings of src/joinlint/validation.py blocks.
use mathlib.Core.List.Memᴰ
use mathlib.Core.Bool.{true≢false, false≢true}
use joinlint.Prelude.{
  ℕ, String, ◌≡◌, refl, inl, inr, ◌↔◌, Bool, true, false, not, List, ◌++◌, Memᴰ, All, nat_eq,
}
use joinlint.Prelude.Order.{text_ord}
use joinlint.Prelude.Sort.{sorted, mem-sorted}
use joinlint.Domain.{Cardinality, one_to_one, RuntimeFinding, blocking, warning}
use joinlint.Evidence.{finding_code, when, blocks, is_many_to_many}
use joinlint.Validation.{same_cardinality, raised_for}

abbrev pub Unblocked : List RuntimeFinding → Type 0
Unblocked = All (λ f. blocks f ≡ false)

Unblocked-append_iff :
    (xs ys : List RuntimeFinding) → Unblocked (xs ++ ys) ↔ (Unblocked xs × Unblocked ys)
Unblocked-append_iff xs ys = (
  λ h. (λ f m. h f (Memᴰ.append_left ys m), λ f m. h f (Memᴰ.append_right xs m)),
  λ h f m. elim (Memᴰ.append_cases xs m) [ inl l ↦ h.0 f l | inr r ↦ h.1 f r ],
)

Unblocked-when-blocking_iff :
    (t : Bool) (code : String) → Unblocked (when t code blocking) ↔ (t ≡ false)
Unblocked-when-blocking_iff true code =
    (λ h. absurd (true≢false (h _ (Memᴰ.head refl))), λ h. absurd (true≢false h))
Unblocked-when-blocking_iff false code = (λ h. refl, λ h f m. absurd (Memᴰ.not-nil m))

Unblocked-when-warning : (t : Bool) (code : String) → Unblocked (when t code warning)
Unblocked-when-warning true code f m = rw (Memᴰ.eq_of_singleton m) refl
Unblocked-when-warning false code f m = absurd (Memᴰ.not-nil m)

not-false_iff : (b : Bool) → (not b ≡ false) ↔ (b ≡ true)
not-false_iff true = (λ h. refl, λ h. refl)
not-false_iff false = (λ h. absurd (true≢false h), λ h. absurd (false≢true h))

pub raised_for-Unblocked_iff :
    (is_unique : Bool) (nulls orphans : ℕ) (observed declared : Cardinality)
    → Unblocked (raised_for is_unique nulls orphans observed declared) ↔ (
        (is_unique ≡ true)
        × (nat_eq orphans 0 ≡ true)
        × ((same_cardinality observed declared ≡ true) × (is_many_to_many observed ≡ false)))
raised_for-Unblocked_iff is_unique nulls orphans observed declared =
    let a = when (not is_unique) "REFERENCED_KEY_NOT_UNIQUE" blocking in
    let b = when (not (nat_eq nulls 0)) "CHILD_KEY_NULL" warning in
    let c = when (not (nat_eq orphans 0)) "ORPHAN_CHILD_ROW" blocking in
    let d = when (not (same_cardinality observed declared)) "CARDINALITY_DRIFT" blocking in
    let e = when (not (same_cardinality observed one_to_one)) "GRAIN_CHANGE" warning in
    let f = when (is_many_to_many observed) "MANY_TO_MANY_FANOUT" blocking in
    let key = Unblocked-when-blocking_iff (not is_unique) "REFERENCED_KEY_NOT_UNIQUE" in
    let orphan = Unblocked-when-blocking_iff (not (nat_eq orphans 0)) "ORPHAN_CHILD_ROW" in
    let drift =
      Unblocked-when-blocking_iff (not (same_cardinality observed declared)) "CARDINALITY_DRIFT" in
    let fanout = Unblocked-when-blocking_iff (is_many_to_many observed) "MANY_TO_MANY_FANOUT" in
    (
      λ h.
          let (h₅, hf) = (Unblocked-append_iff ((((a ++ b) ++ c) ++ d) ++ e) f).0 h in
          let (h₄, _) = (Unblocked-append_iff (((a ++ b) ++ c) ++ d) e).0 h₅ in
          let (h₃, hd) = (Unblocked-append_iff ((a ++ b) ++ c) d).0 h₄ in
          let (h₂, hc) = (Unblocked-append_iff (a ++ b) c).0 h₃ in
          let (ha, _) = (Unblocked-append_iff a b).0 h₂ in
          (
            (not-false_iff is_unique).0 (key.0 ha),
            (not-false_iff (nat_eq orphans 0)).0 (orphan.0 hc),
            ((not-false_iff (same_cardinality observed declared)).0 (drift.0 hd), fanout.0 hf),
          ),
      λ (u, o, (s, m)).
          let hb = Unblocked-when-warning (not (nat_eq nulls 0)) "CHILD_KEY_NULL" in
          let he =
            Unblocked-when-warning (not (same_cardinality observed one_to_one)) "GRAIN_CHANGE" in
          let ha = key.1 ((not-false_iff is_unique).1 u) in
          let hc = orphan.1 ((not-false_iff (nat_eq orphans 0)).1 o) in
          let hd = drift.1 ((not-false_iff (same_cardinality observed declared)).1 s) in
          let h₂ = (Unblocked-append_iff a b).1 (ha, hb) in
          let h₃ = (Unblocked-append_iff (a ++ b) c).1 (h₂, hc) in
          let h₄ = (Unblocked-append_iff ((a ++ b) ++ c) d).1 (h₃, hd) in
          let h₅ = (Unblocked-append_iff (((a ++ b) ++ c) ++ d) e).1 (h₄, he) in
          (Unblocked-append_iff ((((a ++ b) ++ c) ++ d) ++ e) f).1 (h₅, fanout.1 m),
    )

pub Unblocked-sorted_iff :
    (fs : List RuntimeFinding) → Unblocked (sorted finding_code fs) ↔ Unblocked fs
Unblocked-sorted_iff fs = (
  λ h f m. h f ((mem-sorted finding_code f fs).1 m),
  λ h f m. h f ((mem-sorted finding_code f fs).0 m),
)
