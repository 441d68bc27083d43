-- ===== src/Config/RoundTrip.antt =====
-- A source that is added can be removed again.
use mathlib.Core.Bool.{true≢false}
use joinlint.Prelude.{
  String, ◌≡◌, refl, inl, inr, sym, ap, ◌∙◌, subst, true, false, not, none, [], ◌∷◌, Memᴰ,
  not_eq_true, ==_refl, ==_cases, &&-eq-true, all, contains,
}
use joinlint.Prelude.Dict.{Dict, get, put, keys, remove, get-put, get-remove, contains-keys-put}
use joinlint.Prelude.Dict.Distinct.{SameEntries, SameEntries-contains, get-absent}
use joinlint.Errors.{ok, require}
use joinlint.Action.{lift-eq-ok}
use joinlint.Model.{Entity}
use joinlint.Config.Checks.{argument-entry, argument-path, Declared, config_of_inv, require-ok}
use joinlint.Config.Storable.{
  IsWritten, Storable, IsFaithful, Storable-put, Storable-remove, Storable-same,
}
use joinlint.Config.Commands.{IsSound, loaded}
use joinlint.Config.{
  SourceKind, SourceConfig, ConfigV1, Yaml, Project, parsed_config, parsed_model, valid_entry,
  valid_source_id, valid_source, config_of, in_use, validate_source_id, validate_source_argument,
  duplicate_source, add_source, remove_source,
}

-- A source that is not in the configuration is not in use.
unknown_unused :
    (k : String) (sources : Dict SourceConfig) (entities : Dict Entity)
    → contains k (keys sources) ≡ false
    → Declared sources entities
    → in_use k entities ≡ false
unfolding in_use
unknown_unused k sources [] new declared = refl
unknown_unused k sources ((i, entity) ∷ es) new declared = elim (==_cases entity.source k) [
  | inl (q, y) ↦
      let known : contains entity.source (keys sources) ≡ true =
        declared (i, entity) (Memᴰ.head refl) in
      absurd (true≢false (sym known ∙ ap (λ n. contains n (keys sources)) q ∙ new))
  | inr (q, n) ↦ rw n (unknown_unused k sources es new (λ e m. declared e (Memᴰ.tail m)))
]

named_entries :
    (d : Dict SourceConfig) → all valid_entry d ≡ true → all valid_source_id (keys d) ≡ true
named_entries [] h = refl
named_entries ((k, s) ∷ d) h =
    let (first, rest) = &&-eq-true (valid_entry (k, s)) (all valid_entry d) h in
    let (named, _) = &&-eq-true (valid_source_id k) (valid_source s) first in
    rw (named, named_entries d rest) refl

-- The texts read as configurations with the same source under each id.
pub record ReadAlike {Text : Type 0} (yaml : Yaml Text) (before after : Project Text) : Type 0 where
  pub config : ConfigV1
  pub again : ConfigV1
  pub config_loads : parsed_config yaml before.config_yaml ≡ ok config
  pub again_loads : parsed_config yaml after.config_yaml ≡ ok again
  pub same : SameEntries again.sources config.sources

-- A new entry that is removed again leaves the entries as they were.
remove-put-SameEntries :
    (k : String) (s : SourceConfig) (sources added : Dict SourceConfig)
    → contains k (keys sources) ≡ false
    → SameEntries added (put k s sources)
    → SameEntries (remove k added) sources
remove-put-SameEntries k s sources added new same j = elim (==_cases k j) [
  | inl (q, e) ↦
      rw (get-remove, e)
        (subst (λ (x : String). none ≡ get x sources) q (sym (get-absent k sources new)))
  | inr (n, e) ↦ rw (get-remove, e) (same j ∙ rw (get-put, e) refl)
]

module _ {Text : Type 0} (yaml : Yaml Text) (faithful : IsFaithful yaml) where
  -- The removal, on a project whose configuration has one source more than one that keeps its model.
  removes :
      (p q : Project Text) (sound : IsSound yaml p) (c : ConfigV1) (k : String) (s : SourceConfig)
      → contains k (keys sound.config.sources) ≡ false
      → Storable c.sources
      → parsed_config yaml q.config_yaml ≡ ok c
      → q.model_yaml ≡ p.model_yaml
      → SameEntries c.sources (put k s sound.config.sources)
      → (r : Project Text) × (remove_source yaml k q ≡ (ok tt, r)) × ReadAlike yaml p r
  unfolding remove_source parsed_config
  removes p q sound c k s new storable loads same sources =
      let present : contains k (keys c.sources) ≡ true =
        rw
          (
            SameEntries-contains c.sources (put k s sound.config.sources) sources k,
            contains-keys-put k k s sound.config.sources,
            ==_refl k,
          )
          refl in
      let models : parsed_model yaml q.model_yaml ≡ ok sound.model = rw same sound.model_loads in
      let unused = unknown_unused k sound.config.sources sound.model.entities new sound.declared in
      let left = Storable-remove k c.sources storable in
      let named = named_entries (remove k c.sources) left.valid in
      let (read, e, once, alike) =
        faithful.reads_config (record { sources = remove k c.sources }) left in
      let valid = (Storable-same read.sources (remove k c.sources) once alike left).valid in
      (
        record q { config_yaml = ok (yaml.dump_config (record { sources = remove k c.sources })) },
        rw (loads, present, models, unused, named) refl,
        record {
          config = sound.config;
          again = read;
          config_loads = sound.config_loads;
          again_loads = rw (e, valid) refl;
          same = λ j.
              alike j ∙ remove-put-SameEntries k s sound.config.sources c.sources new sources j;
        },
      )

  removes_added :
      (p q : Project Text) (sound : IsSound yaml p) (config updated : ConfigV1) (k : String)
      (s : SourceConfig)
      → config ≡ sound.config
      → valid_entry (k, s) ≡ true
      → IsWritten s.path
      → not (contains k (keys config.sources)) ≡ true
      → config_of (put k s config.sources) ≡ ok updated
      → q ≡ record p { config_yaml = ok (yaml.dump_config updated) }
      → (r : Project Text) × (remove_source yaml k q ≡ (ok tt, r)) × ReadAlike yaml p r
  unfolding parsed_config
  removes_added p q sound config updated k s same entry path fresh made written =
      let new : contains k (keys sound.config.sources) ≡ false =
        not_eq_true
          (subst (λ (d : ConfigV1). not (contains k (keys d.sources)) ≡ true) same fresh) in
      let sources : updated.sources ≡ put k s sound.config.sources =
        config_of_inv _ updated made ∙ ap (λ (d : ConfigV1). put k s d.sources) same in
      let storable : Storable updated.sources =
        rw sources (Storable-put k s sound.config.sources sound.storable entry path) in
      let (read, e, once, alike) = faithful.reads_config updated storable in
      let stored = Storable-same read.sources updated.sources once alike storable in
      let loads : parsed_config yaml q.config_yaml ≡ ok read =
        rw written (rw (e, stored.valid) refl) in
      removes p q sound read k s new stored loads (ap (λ (x : Project Text). x.model_yaml) written)
        (subst (λ (d : Dict SourceConfig). SameEntries read.sources d) sources alike)

  -- Where a dumped configuration reads back with the same sources: when `add_source` succeeds on a
  -- project whose files load, with distinct ids and paths that are those of texts, and whose model
  -- keeps to the configuration, `remove_source` of the same source then succeeds, and the
  -- configuration then has the same source under each id as before both.
  pub remove_source-add_source :
      (source_id path : String) (kind : SourceKind) (p q : Project Text)
      → IsSound yaml p
      → add_source yaml source_id path kind p ≡ (ok tt, q)
      → (r : Project Text) × (remove_source yaml source_id q ≡ (ok tt, r)) × ReadAlike yaml p r
  unfolding add_source parsed_config
  remove_source-add_source source_id path kind p q sound done =
      let (config, loads, e₁) = lift-eq-ok _ (parsed_config yaml p.config_yaml) p done in
      let (u, is_named, e₂) = lift-eq-ok _ (validate_source_id source_id) p e₁ in
      let (v, is_new, e₃) =
        lift-eq-ok _ (require (not (contains source_id (keys config.sources))) duplicate_source) p
          e₂ in
      let (source, argument, e₄) = lift-eq-ok _ (validate_source_argument kind path) p e₃ in
      let (updated, made, e₅) =
        lift-eq-ok _ (config_of (put source_id source config.sources)) p e₄ in
      removes_added p q sound config updated source_id source
        (loaded yaml faithful p sound config loads)
        (argument-entry source_id kind path source
          (require-ok (valid_source_id source_id) _ u is_named) argument)
        (path, argument-path kind path source argument) (require-ok _ duplicate_source v is_new)
        made (sym (ap (λ r. r.1) e₅))
