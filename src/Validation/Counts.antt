-- ===== src/Validation/Counts.antt =====
-- What the counts of src/joinlint/validation.py say of the values.
use mathlib.Core.List.Memᴰ
use mathlib.Core.Bool.{true≢false}
use joinlint.Prelude.{
  ℕ, ◌+◌, ◌≤◌, String, ◌≡◌, refl, sym, ◌∙◌, subst, inl, inr, ◌↔◌, true, List, [], ◌∷◌, Memᴰ, All,
  arith, ◌==◌, contains, contains_iff, distinct_from, ==_cases, ◌||◌, distinct, distinct-contains,
  Bool-cases, mem-keep_if,
}
use joinlint.Validation.{
  max_of, count_of, matched_values, largest_count, orphans_among, orphan_count,
}

max_of-le_iff : (a b n : ℕ) → (max_of a b ≤ n) ↔ ((a ≤ n) × (b ≤ n))
max_of-le_iff a b n = ground arith

-- The largest count is within a bound exactly if every count is.
largest_count-le_iff :
    (xs vs : List String) (n : ℕ) → (largest_count xs vs ≤ n) ↔ All (λ v. count_of v xs ≤ n) vs
unfolding largest_count
largest_count-le_iff xs [] n = (λ h v m. absurd (Memᴰ.not-nil m), λ h. omega arith)
largest_count-le_iff xs (v ∷ vs) n =
    let rest = largest_count-le_iff xs vs n in
    let both = max_of-le_iff (count_of v xs) (largest_count xs vs) n in
    (
      λ h w m. elim (Memᴰ.cases_cons m) [
        | inl q ↦ subst (λ u. count_of u xs ≤ n) (sym q) (both.0 h).0
        | inr t ↦ rest.0 (both.0 h).1 w t
      ],
      λ h. both.1 (h v (Memᴰ.head refl), rest.1 (λ w t. h w (Memᴰ.tail t))),
    )

contains-distinct_from :
    (x : String) (seen xs : List String)
    → contains x (distinct_from seen xs) ≡ true
    → contains x xs ≡ true
unfolding distinct_from contains
contains-distinct_from x seen [] h = h
contains-distinct_from x seen (y ∷ ys) h = elim (Bool-cases (contains y seen)) [
  | inl k ↦
      let later = contains-distinct_from x seen ys (rw (k, distinct_from) at h) in
      ground (arith, later)
  | inr k ↦
      let here : (y == x || contains x (distinct_from (y ∷ seen) ys)) ≡ true =
        rw (k, distinct_from) at h in
      let later = contains-distinct_from x (y ∷ seen) ys in ground (arith, here, later)
]

contains-distinct_iff :
    (x : String) (xs : List String) → (contains x (distinct xs) ≡ true) ↔ (contains x xs ≡ true)
unfolding distinct
contains-distinct_iff x xs = (contains-distinct_from x [] xs, distinct-contains x xs)

mem-distinct_iff : (x : String) (xs : List String) → Memᴰ x (distinct xs) ↔ Memᴰ x xs
mem-distinct_iff x xs = (
  λ m. (contains_iff x xs).0 ((contains-distinct_iff x xs).0 ((contains_iff x (distinct xs)).1 m)),
  λ m. (contains_iff x (distinct xs)).0 ((contains-distinct_iff x xs).1 ((contains_iff x xs).1 m)),
)

-- A value of both sides occurs at most once in `xs`.
abbrev pub MatchedOnce : List String → List String → List String → Type 0
MatchedOnce from to xs = (v : String) → Memᴰ v from → Memᴰ v to → count_of v xs ≤ 1

-- There is at most one row for each matched value exactly if the largest count is at most one.
pub largest_count-MatchedOnce_iff :
    (from to xs : List String)
    → (largest_count xs (matched_values from to) ≤ 1) ↔ MatchedOnce from to xs
largest_count-MatchedOnce_iff from to xs =
    let every = largest_count-le_iff xs (matched_values from to) 1 in
    let kept = λ (v : String). mem-keep_if (λ w. contains w to) v (distinct from) in
    (
      λ h v a b. every.0 h v ((kept v).1 ((mem-distinct_iff v from).1 a, (contains_iff v to).1 b)),
      λ once. every.1 (λ v m.
          let (a, b) = (kept v).0 m in
          once v ((mem-distinct_iff v from).0 a) ((contains_iff v to).0 b)),
    )

sum_zero_iff : (a b : ℕ) → (a + b ≡ 0) ↔ ((a ≡ 0) × (b ≡ 0))
sum_zero_iff a b = ground arith

count_of-positive : (v : String) (xs : List String) → Memᴰ v xs → 1 ≤ count_of v xs
count_of-positive v [] m = absurd (Memᴰ.not-nil m)
count_of-positive v (x ∷ xs) m = elim (==_cases x v) [
  | inl (q, y) ↦ rw y (omega arith)
  | inr (n, y) ↦ elim (Memᴰ.cases_cons m) [
    | inl q ↦ absurd (n (sym q))
    | inr t ↦ rw y (omega (arith, count_of-positive v xs t))
  ]
]

orphans_among-zero_iff :
    (from to vs : List String)
    → All (λ v. Memᴰ v from) vs
    → (orphans_among from to vs ≡ 0) ↔ All (λ v. contains v to ≡ true) vs
unfolding orphans_among
orphans_among-zero_iff from to [] inside = (λ h v m. absurd (Memᴰ.not-nil m), λ h. refl)
orphans_among-zero_iff from to (v ∷ vs) inside =
    let rest = orphans_among-zero_iff from to vs (λ w m. inside w (Memᴰ.tail m)) in
    let positive = count_of-positive v from (inside v (Memᴰ.head refl)) in
    elim (Bool-cases (contains v to)) [
      | inl y ↦ rw y (
        λ h w m. elim (Memᴰ.cases_cons m) [
          | inl q ↦ subst (λ u. contains u to ≡ true) (sym q) y
          | inr t ↦ rest.0 (omega (arith, h)) w t
        ],
        λ h. omega (arith, rest.1 (λ w t. h w (Memᴰ.tail t))),
      )
      | inr n ↦ (
        λ h.
            let sum : count_of v from + orphans_among from to vs ≡ 0 = rw n at h in
            absurd (omega (arith, sum, positive)),
        λ h. absurd (true≢false (sym (h v (Memᴰ.head refl)) ∙ n)),
      )
    ]

-- No orphan is counted exactly if every value has a match.
pub orphan_count-zero_iff :
    (from to : List String) → (orphan_count from to ≡ 0) ↔ All (λ v. Memᴰ v to) from
orphan_count-zero_iff from to =
    let exact =
      orphans_among-zero_iff from to (distinct from) (λ v m. (mem-distinct_iff v from).0 m) in
    (
      λ h v m. (contains_iff v to).0 (exact.0 h v ((mem-distinct_iff v from).1 m)),
      λ every. exact.1 (λ v m. (contains_iff v to).1 (every v ((mem-distinct_iff v from).0 m))),
    )
