-- ===== src/Cache/View.antt =====
-- What a client of `RuntimeCache` of src/joinlint/runtime/cache.py observes of one namespace: a map
-- from digests to values, whatever the files hold.
use mathlib.Core.Path.{fun_ext}
use joinlint.Prelude.{
  String, true, false, Option, none, some, ◌≡◌, refl, sym, ap, ◌∙◌, subst, inl, inr, if◌then◌else◌,
  ◌==◌, ==_refl, ==_cases, Bool-cases,
}
use joinlint.Prelude.Dict.{Dict, get, put, remove, get-put, get-remove}
use joinlint.Errors.{value_error, Result, ok, err}
use joinlint.Domain.Text.{is_digest}
use joinlint.Cache.{File, symlink, content, Codec, identified, read_file, load, store}

module _ {ℓ} {A : Type ℓ} (codec : Codec A) (identity : A → String) where
  -- The value that a load under the name would find.
  unfoldable pub view : Dict File → String → Option A
  view files key = (read_file codec identity key files (get key files)).0

  read_file-value :
      (key : String) (files other : Dict File) (f : Option File)
      → (read_file codec identity key files f).0 ≡ (read_file codec identity key other f).0
  read_file-value key files other none = refl
  read_file-value key files other (some symlink) = refl
  read_file-value key files other (some (content written)) = go (codec.decode written)
    where
      go :
          (v : Option A)
          → (identified codec identity key files v).0 ≡ (identified codec identity key other v).0
      go none = refl
      go (some v) = elim (Bool-cases (identity v == key)) [ inl y ↦ rw y refl | inr n ↦ rw n refl ]

  -- A load either leaves the files, or removes one that has no value.
  data Kept (key : String) (files : Dict File) : Option A × Dict File → Type ℓ where
    same : (v : Option A) → Kept key files (v, files)
    removed : Kept key files (none, remove key files)

  read_file-Kept :
      (key : String) (files : Dict File) (f : Option File)
      → Kept key files (read_file codec identity key files f)
  read_file-Kept key files none = same none
  read_file-Kept key files (some symlink) = removed
  read_file-Kept key files (some (content written)) = go (codec.decode written)
    where
      go : (v : Option A) → Kept key files (identified codec identity key files v)
      go none = removed
      go (some v) = elim (Bool-cases (identity v == key)) [
        | inl y ↦ rw y (same (some v))
        | inr n ↦ rw n removed
      ]

  view-remove :
      (key : String) (files : Dict File)
      → view files key ≡ none
      → (k : String) → view (remove key files) k ≡ view files k
  unfolding view
  view-remove key files nothing k = elim (==_cases key k) [
    | inl (q, e) ↦ rw (view, get-remove, e) (sym (subst (λ w. view files w ≡ none) q nothing))
    | inr (n, e) ↦
        rw (view, get-remove, e) (read_file-value k (remove key files) files (get k files))
  ]

  view-Kept :
      (key : String) (files : Dict File) (answer : Option A × Dict File)
      → answer.0 ≡ view files key
      → Kept key files answer
      → view answer.1 ≡ view files
  view-Kept key files answer e (same v) = refl
  view-Kept key files answer e removed = fun_ext λ k. view-remove key files (sym e) k

  -- A load under a digest answers with the view, and does not change it.
  pub load-view :
      (key : String) (files : Dict File)
      → is_digest key ≡ true
      → (left : Dict File) × (load codec identity key files ≡ (ok (view files key), left))
        × (view left ≡ view files)
  unfolding load view
  load-view key files d =
      let answer = read_file codec identity key files (get key files) in
      (
        answer.1,
        rw (load, d) refl,
        view-Kept key files answer refl (read_file-Kept key files (get key files)),
      )

  -- A store under a digest changes the view at its name.
  pub view-store :
      (v : A) (files : Dict File)
      → codec.decode (codec.encode v) ≡ some v
      → is_digest (identity v) ≡ true
      → (written : Dict File) × (store codec identity (identity v) v files ≡ (ok tt, written))
        × (view written ≡ (λ k. if identity v == k then some v else view files k))
  unfolding store view
  view-store v files back d = (
    put (identity v) (content (codec.encode v)) files,
    rw (store, d) refl,
    fun_ext λ k. elim (==_cases (identity v) k) [
      | inl (q, e) ↦ rw (view, get-put, e, back) (rw e refl)
      | inr (n, e) ↦ rw (view, get-put, e) (read_file-value k _ files (get k files))
    ],
  )

  pub load-raises :
      (key : String) (files : Dict File)
      → is_digest key ≡ false
      → load codec identity key files ≡ (err value_error, files)
  unfolding load
  load-raises key files d = rw (load, d) refl

  pub store-raises :
      (key : String) (v : A) (files : Dict File)
      → is_digest key ≡ false
      → store codec identity key v files ≡ (err value_error, files)
  unfolding store
  store-raises key v files d = rw (store, d) refl

  no_write :
      {files written : Dict File}
      → ¬ (◌≡◌ {A = Result (Unit {0}) × Dict File} (err value_error, files) (ok tt, written))
  no_write e = absurd (not_ok (ap (λ (p : Result (Unit {0}) × Dict File). p.0) e))
    where
      not_ok : ¬ (◌≡◌ {A = Result (Unit {0})} (err value_error) (ok tt))
      not_ok q = cc

  -- What a store wrote is what a load of its name returns.
  pub load-store :
      (v : A) (files written : Dict File)
      → codec.decode (codec.encode v) ≡ some v
      → store codec identity (identity v) v files ≡ (ok tt, written)
      → (load codec identity (identity v) written).0 ≡ ok (some v)
  load-store v files written back e = elim (Bool-cases (is_digest (identity v))) [
    | inr n ↦ absurd (no_write (sym (store-raises (identity v) v files n) ∙ e))
    | inl d ↦
        let (after, stored, seen) = view-store v files back d in
        let same : after ≡ written =
          ap (λ (p : Result (Unit {0}) × Dict File). p.1) (sym stored ∙ e) in
        let (left, loaded, _) = load-view (identity v) after d in
        let answer : (load codec identity (identity v) after).0 ≡ ok (some v) =
          ap (λ (p : Result (Option A) × Dict File). p.0) loaded
          ∙ ap (λ g. ok (g (identity v))) seen
          ∙ rw (==_refl (identity v)) refl in
        subst (λ w. (load codec identity (identity v) w).0 ≡ ok (some v)) same answer
  ]
