-- ===== src/Config/Checks.antt =====
-- What the checks of src/joinlint/config.py establish when they pass.
use mathlib.Core.Bool.{true≢false}
use mathlib.Core.List.Memᴰ
use joinlint.Prelude.{
  ==_sym, String, ◌≡◌, refl, sym, ap, ◌∙◌, subst, inl, inr, Bool, true, false, not, ◌&&◌, Option,
  none, some, [], ◌∷◌, Memᴰ, ◌==◌, Bool-cases, &&-eq-true, all, contains,
}
use joinlint.Prelude.Dict.{Dict, keys, remove}
use joinlint.Prelude.Dict.Entries.{contains-keys-remove}
use joinlint.Errors.{Failure, Result, ok, err, require, value_error}
use joinlint.Model.{Entity}
use joinlint.Config.Path.{parse_path, safe_path, has_nul}
use joinlint.Config.{
  SourceKind, SourceConfig, ConfigV1, Yaml, parsed_config, valid_config, valid_source, valid_entry,
  valid_source_id, positive_limits, default_limits, validate_source_argument, config_of, in_use,
  required, checked, malformed_config, invalid_source,
}

-- Every entity of the model names a source of the configuration.
abbrev pub Declared : Dict SourceConfig → Dict Entity → Type 0
Declared sources entities =
    (e : String × Entity) → Memᴰ e entities → contains ((e.1).source) (keys sources) ≡ true

pub ok-inj {ℓ} : {A : Type ℓ} {a b : A} → ok a ≡ ok b → a ≡ b
ok-inj e = cc

-- Inversion of the checks.
checked_inv {ℓ} :
    {A : Type ℓ} (unread malformed : Failure) (is_valid : A → Bool) (document : Option (Option A))
    (a : A)
    → checked unread malformed is_valid document ≡ ok a
    → (document ≡ some (some a)) × (is_valid a ≡ true)
checked_inv unread malformed is_valid none a h = cc
checked_inv unread malformed is_valid (some none) a h = cc
checked_inv unread malformed is_valid (some (some document)) a h =
    elim (Bool-cases (is_valid document)) [
      | inl y ↦
          let same : document ≡ a = ok-inj (rw y at h) in
          (ap (λ d. some (some d)) same, subst (λ d. is_valid d ≡ true) same y)
      | inr n ↦ let wrong : err malformed ≡ ok a = rw n at h in cc
    ]

pub parsed_config-valid :
    {Text : Type 0} (yaml : Yaml Text) (written : Result Text) (c : ConfigV1)
    → parsed_config yaml written ≡ ok c
    → valid_config c ≡ true
unfolding parsed_config
parsed_config-valid yaml (err raised) c h = cc
parsed_config-valid yaml (ok written) c h =
    (checked_inv _ malformed_config valid_config (yaml.parse_config written) c h).1

pub config_of_inv :
    (sources : Dict SourceConfig) (c : ConfigV1) → config_of sources ≡ ok c → c.sources ≡ sources
config_of_inv sources c h = elim (Bool-cases (all valid_source_id (keys sources))) [
  | inl y ↦
      let same : ok (record { sources = sources }) ≡ ok c = rw y at h in
      sym (ap (λ (d : ConfigV1). d.sources) (ok-inj same))
  | inr n ↦ let wrong : err value_error ≡ ok c = rw n at h in cc
]

argument_inv :
    (kind : SourceKind) (path : String) (s : SourceConfig)
    → validate_source_argument kind path ≡ ok s
    → (s ≡ record { kind = kind; path = parse_path path; limits = default_limits })
      × (safe_path (parse_path path) ≡ true)
unfolding validate_source_argument
argument_inv kind path s h = elim (Bool-cases (not (has_nul path) && safe_path (parse_path path))) [
  | inl y ↦ (
    sym (ok-inj (rw y at h)),
    (&&-eq-true (not (has_nul path)) (safe_path (parse_path path)) y).1,
  )
  | inr n ↦ let wrong : err (invalid_source) ≡ ok s = rw n at h in cc
]

pub require-ok : (t : Bool) (e : Failure) (u : Unit {0}) → require t e ≡ ok u → t ≡ true
require-ok true e u h = refl
require-ok false e u h = cc

pub argument-valid :
    (kind : SourceKind) (path : String) (s : SourceConfig)
    → validate_source_argument kind path ≡ ok s
    → valid_source s ≡ true
argument-valid kind path s h = let (same, safe) = argument_inv kind path s h in rw (same, safe) refl

pub argument-path :
    (kind : SourceKind) (path : String) (s : SourceConfig)
    → validate_source_argument kind path ≡ ok s
    → s.path ≡ parse_path path
argument-path kind path s h = ap (λ (x : SourceConfig). x.path) ((argument_inv kind path s h).0)

pub required_inv {ℓ} :
    {A : Type ℓ} (e : Failure) (o : Option A) (a : A) → required e o ≡ ok a → o ≡ some a
required_inv e none a h = cc
required_inv e (some b) a h = ap some (ok-inj h)

pub moved_valid :
    (k : String) (existing argument : SourceConfig)
    → valid_entry (k, existing) ≡ true
    → valid_source argument ≡ true
    → valid_entry (k, record existing { path = argument.path }) ≡ true
moved_valid k existing argument old new =
    let (named, rest) = &&-eq-true (valid_source_id k) (valid_source existing) old in
    let (_, limited) =
      &&-eq-true (safe_path existing.path) (positive_limits existing.limits) rest in
    let (safe, _) = &&-eq-true (safe_path argument.path) (positive_limits argument.limits) new in
    rw (named, safe, limited) refl

-- No entity names a source that is not in use.
unused_by :
    (k : String) (entities : Dict Entity)
    → not (in_use k entities) ≡ true
    → (e : String × Entity) → Memᴰ e entities
    → (k == (e.1).source) ≡ false
unfolding in_use
unused_by k [] free e m = absurd (Memᴰ.not-nil m)
unused_by k ((i, entity) ∷ es) free e m = elim (Bool-cases (entity.source == k)) [
  | inl y ↦ absurd (true≢false (sym (rw y at free)))
  | inr n ↦ elim (Memᴰ.cases_cons m) [
    | inl q ↦ rw q (==_sym k entity.source ∙ n)
    | inr t ↦ unused_by k es (rw n at free) e t
  ]
]

-- A source that no entity names can go.
pub remove-Declared :
    (k : String) (sources : Dict SourceConfig) (entities : Dict Entity)
    → not (in_use k entities) ≡ true
    → Declared sources entities
    → Declared (remove k sources) entities
remove-Declared k sources entities free declared e m =
    rw (contains-keys-remove k ((e.1).source) sources, declared e m, unused_by k entities free e m)
      refl

pub argument-entry :
    (k : String) (kind : SourceKind) (path : String) (s : SourceConfig)
    → valid_source_id k ≡ true
    → validate_source_argument kind path ≡ ok s
    → valid_entry (k, s) ≡ true
argument-entry k kind path s named h = rw (named, argument-valid kind path s h) refl
