-- ===== src/Validation/Passes/Declared.antt =====
-- When the observed cardinality of src/joinlint/validation.py is the declared one.
use mathlib.Core.Bool.{true≢false, false≢true}
use joinlint.Prelude.{
  ℕ, ◌≤◌, String, ◌≡◌, refl, ◌↔◌, Bool, true, false, ◌&&◌, List, arith, if◌then◌else◌, ◌==◌, leb,
}
use joinlint.Prelude.Order.{text_ord}
use joinlint.Domain.{Cardinality, one_to_one, one_to_many, many_to_one, many_to_many}
use joinlint.Evidence.{is_many_to_many}
use joinlint.Validation.{matched_values, largest_count, cardinality_of, same_cardinality}
use joinlint.Validation.Counts.{MatchedOnce, largest_count-MatchedOnce_iff}

-- A declared cardinality, of whether the child and the parent rows are unique where they match. Many
-- to many is never accepted.
abbrev pub AsDeclared : Cardinality → Type 0 → Type 0 → Type 0
AsDeclared one_to_one P Q = P × Q
AsDeclared one_to_many P Q = P × ¬ Q
AsDeclared many_to_one P Q = (¬ P) × Q
AsDeclared many_to_many P Q = ⊥

abbrev card : Bool → Bool → Cardinality
card p q =
    if p && q
    then one_to_one
    else if p
    then one_to_many
    else if q
    then many_to_one
    else many_to_many

agrees :
    (p q : Bool) (declared : Cardinality)
    → ((same_cardinality (card p q) declared ≡ true) × (is_many_to_many (card p q) ≡ false))
      ↔ AsDeclared declared (p ≡ true) (q ≡ true)
unfolding ◌==◌
agrees true true one_to_one = (λ h. (refl, refl), λ h. (refl, refl))
agrees true true one_to_many = (λ h. absurd (false≢true h.0), λ h. absurd (h.1 refl))
agrees true true many_to_one = (λ h. absurd (false≢true h.0), λ h. absurd (h.0 refl))
agrees true true many_to_many = (λ h. absurd (false≢true h.0), λ h. absurd h)
agrees true false one_to_one = (λ h. absurd (false≢true h.0), λ h. absurd (false≢true h.1))
agrees true false one_to_many = (λ h. (refl, false≢true), λ h. (refl, refl))
agrees true false many_to_one = (λ h. absurd (false≢true h.0), λ h. absurd (h.0 refl))
agrees true false many_to_many = (λ h. absurd (false≢true h.0), λ h. absurd h)
agrees false true one_to_one = (λ h. absurd (false≢true h.0), λ h. absurd (false≢true h.0))
agrees false true one_to_many = (λ h. absurd (false≢true h.0), λ h. absurd (false≢true h.0))
agrees false true many_to_one = (λ h. (false≢true, refl), λ h. (refl, refl))
agrees false true many_to_many = (λ h. absurd (false≢true h.0), λ h. absurd h)
agrees false false one_to_one = (λ h. absurd (false≢true h.0), λ h. absurd (false≢true h.0))
agrees false false one_to_many = (λ h. absurd (false≢true h.0), λ h. absurd (false≢true h.0))
agrees false false many_to_one = (λ h. absurd (false≢true h.0), λ h. absurd (false≢true h.1))
agrees false false many_to_many = (λ h. absurd (true≢false h.1), λ h. absurd h)

AsDeclared-map :
    {P P' Q Q' : Type 0} (declared : Cardinality)
    → P ↔ P'
    → Q ↔ Q'
    → AsDeclared declared P Q
    → AsDeclared declared P' Q'
AsDeclared-map one_to_one p q h = (p.0 h.0, q.0 h.1)
AsDeclared-map one_to_many p q h = (p.0 h.0, λ x. h.1 (q.1 x))
AsDeclared-map many_to_one p q h = ((λ x. h.0 (p.1 x)), q.0 h.1)
AsDeclared-map many_to_many p q h = h

swap {ℓ κ} : {A : Type ℓ} {B : Type κ} → A ↔ B → B ↔ A
swap e = (e.1, e.0)

at_most_one_iff : (n : ℕ) → (leb n 1 ≡ true) ↔ (n ≤ 1)
at_most_one_iff n = ground arith

-- The observed cardinality is the declared one, and not many to many.
pub cardinality_of-AsDeclared_iff :
    (from to : List String) (declared : Cardinality)
    → let observed =
        cardinality_of
          (largest_count from (matched_values from to))
          (largest_count to (matched_values from to)) in
      ((same_cardinality observed declared ≡ true) × (is_many_to_many observed ≡ false))
      ↔ AsDeclared declared (MatchedOnce from to from) (MatchedOnce from to to)
unfolding cardinality_of
cardinality_of-AsDeclared_iff from to declared =
    let a = largest_count from (matched_values from to) in
    let b = largest_count to (matched_values from to) in
    let whole = agrees (leb a 1) (leb b 1) declared in
    let left : (leb a 1 ≡ true) ↔ MatchedOnce from to from = (
      λ h. (largest_count-MatchedOnce_iff from to from).0 ((at_most_one_iff a).0 h),
      λ h. (at_most_one_iff a).1 ((largest_count-MatchedOnce_iff from to from).1 h),
    ) in
    let right : (leb b 1 ≡ true) ↔ MatchedOnce from to to = (
      λ h. (largest_count-MatchedOnce_iff from to to).0 ((at_most_one_iff b).0 h),
      λ h. (at_most_one_iff b).1 ((largest_count-MatchedOnce_iff from to to).1 h),
    ) in
    (
      λ h. AsDeclared-map declared left right (whole.0 h),
      λ h. whole.1 (AsDeclared-map declared (swap left) (swap right) h),
    )
