-- ===== src/Cache/Client.antt =====
-- Any sequence of loads and stores on one namespace of the cache of src/joinlint/runtime/cache.py
-- answers like a map in memory.
use mathlib.Core.Path.{fun_ext}
use joinlint.Prelude.{
  sym, ◌↔◌, ==_cases, String, Option, none, some, List, [], ◌∷◌, ◌≡◌, refl, ap, ap₂, ◌∙◌, inl, inr,
  if◌then◌else◌, ◌==◌, Bool-cases,
}
use joinlint.Prelude.Dict.{Dict, get}
use joinlint.Errors.{value_error, Result, ok, err}
use joinlint.Action.{Action, pure, ◌>>◌}
use joinlint.Domain.Text.{is_digest}
use joinlint.Cache.{File, symlink, content, Codec, identified, read_file, load, store}
use joinlint.Cache.View.{view, load-view, view-store, load-raises, store-raises}

some-inj {ℓ} : {A : Type ℓ} {a b : A} → some a ≡ some b → a ≡ b
some-inj e = cc

content-inj : {a b : String} → content a ≡ content b → a ≡ b
content-inj e = cc

pub data Call {ℓ} (A : Type ℓ) : Type ℓ where
  load_call : String → Call A
  store_call : A → Call A

-- What the code relies on: pydantic reads back what it wrote.
pub record IsFaithful {ℓ} {A : Type ℓ} (codec : Codec A) : Type ℓ where
  pub back : (v : A) → codec.decode (codec.encode v) ≡ some v

module _ {ℓ} {A : Type ℓ} (codec : Codec A) (identity : A → String) where
  abbrev pub call : Call A → Action (Dict File) (Option A)
  call (load_call key) = load codec identity key
  call (store_call v) = do store codec identity (identity v) v; pure none

  -- The answers of the calls, in order, and the files in the end.
  unfoldable pub run : List (Call A) → Dict File → List (Result (Option A)) × Dict File
  run [] files = ([], files)
  run (c ∷ cs) files =
      let (answer, after) = call c files in
      let (answers, final) = run cs after in (answer ∷ answers, final)

  -- The same calls on a map.
  abbrev pub answer_of : Call A → (String → Option A) → Result (Option A) × (String → Option A)
  answer_of (load_call key) m = if is_digest key then (ok (m key), m) else (err value_error, m)
  answer_of (store_call v) m =
      if is_digest (identity v)
      then (ok none, λ k. if identity v == k then some v else m k)
      else (err value_error, m)

  unfoldable pub replay : List (Call A) → (String → Option A) → List (Result (Option A))
  replay [] m = []
  replay (c ∷ cs) m = let (answer, after) = answer_of c m in answer ∷ replay cs after

  -- One call answers like the map, and leaves the files with the view that the map has then.
  call-answer :
      IsFaithful codec
      → (c : Call A) (files : Dict File)
      → ((call c files).0 ≡ (answer_of c (view codec identity files)).0)
        × (view codec identity (call c files).1 ≡ (answer_of c (view codec identity files)).1)
  call-answer faithful (load_call key) files = elim (Bool-cases (is_digest key)) [
    | inl y ↦ let (left, e, v) = load-view codec identity key files y in rw (y, e) (refl, v)
    | inr n ↦ rw (n, load-raises codec identity key files n) (refl, refl)
  ]
  call-answer faithful (store_call value) files = elim (Bool-cases (is_digest (identity value))) [
    | inl y ↦
        let (written, e, v) = view-store codec identity value files (faithful.back value) y in
        rw (y, e) (refl, v)
    | inr n ↦ rw (n, store-raises codec identity (identity value) value files n) (refl, refl)
  ]

  -- `m` is the map of the values that the files hold: under a name, the value of that name that is
  -- written in a regular file and can be decoded.
  abbrev pub IsContents : Dict File → (String → Option A) → Type ℓ
  IsContents files m =
      (key : String) (v : A)
      → (m key ≡ some v) ↔ (
          (written : String) × (get key files ≡ some (content written))
          × (codec.decode written ≡ some v)
          × (identity v ≡ key))

  identified_iff :
      (key : String) (files : Dict File) (decoded : Option A) (v : A)
      → ((identified codec identity key files decoded).0 ≡ some v)
        ↔ ((decoded ≡ some v) × (identity v ≡ key))
  identified_iff key files none v = (λ e. cc, λ h. cc)
  identified_iff key files (some x) v = elim (==_cases (identity x) key) [
    | inl (q, e) ↦ rw e (λ h. (h, ap identity (sym (some-inj h)) ∙ q), λ h. h.0)
    | inr (n, e) ↦ rw e (λ h. cc, λ h. absurd (n (ap identity (some-inj h.0) ∙ h.1)))
  ]

  read_file_iff :
      (key : String) (files : Dict File) (f : Option File) (v : A)
      → ((read_file codec identity key files f).0 ≡ some v) ↔ (
          (written : String) × (f ≡ some (content written))
          × (codec.decode written ≡ some v)
          × (identity v ≡ key))
  read_file_iff key files none v = (λ e. cc, λ (w, q, d, i). cc)
  read_file_iff key files (some symlink) v = (λ e. cc, λ (w, q, d, i). cc)
  read_file_iff key files (some (content written)) v =
      let found = identified_iff key files (codec.decode written) v in
      (
        λ e. let (d, i) = found.0 e in (written, refl, d, i),
        λ (w, q, d, i). found.1 (ap codec.decode (content-inj (some-inj q)) ∙ d, i),
      )

  pub view-IsContents : (files : Dict File) → IsContents files (view codec identity files)
  unfolding view
  view-IsContents files key v = read_file_iff key files (get key files) v

  same_options : (a b : Option A) → ((v : A) → (a ≡ some v) ↔ (b ≡ some v)) → a ≡ b
  same_options none none h = refl
  same_options none (some y) h = (h y).1 refl
  same_options (some x) b h = sym ((h x).0 refl)

  IsContents-unique :
      (files : Dict File) (m : String → Option A)
      → IsContents files m
      → view codec identity files ≡ m
  IsContents-unique files m is = fun_ext λ key.
      same_options (view codec identity files key) (m key) (λ v.
        let seen = view-IsContents files key v in
        (λ e. (is key v).1 (seen.0 e), λ e. seen.1 ((is key v).0 e)))

  run-replay-view :
      IsFaithful codec
      → (cs : List (Call A)) (files : Dict File)
      → (run cs files).0 ≡ replay cs (view codec identity files)
  unfolding run replay
  run-replay-view faithful [] files = refl
  run-replay-view faithful (c ∷ cs) files =
      let (answer, after) = call-answer faithful c files in
      ap₂ (λ x xs. x ∷ xs) answer
        (run-replay-view faithful cs (call c files).1 ∙ ap (replay cs) after)

  -- Where decoding reads back what was encoded, every sequence of loads and stores answers like the
  -- same sequence on a map from digests to values, which starts with the values that the files hold under their own names: whatever else
  -- the files hold is never seen.
  pub run-replay :
      IsFaithful codec
      → (cs : List (Call A)) (files : Dict File) (m : String → Option A) → IsContents files m
      → (run cs files).0 ≡ replay cs m
  run-replay faithful cs files m is =
      run-replay-view faithful cs files ∙ ap (replay cs) (IsContents-unique files m is)
