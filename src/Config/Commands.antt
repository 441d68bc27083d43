-- ===== src/Config/Commands.antt =====
-- What the three commands of src/joinlint/config.py keep true of a project.
use joinlint.Prelude.{String, ◌≡◌, refl, sym, ap, ◌∙◌, subst, true, not, all, contains, arith}
use joinlint.Prelude.Dict.{Dict, get, put, keys, remove, contains-keys-put}
use joinlint.Prelude.Dict.Entries.{all-get}
use joinlint.Errors.{ok, require}
use joinlint.Action.{Action, after-lift}
use joinlint.Model.{Entity, ModelV1}
use joinlint.Config.Checks.{
  Declared, ok-inj, config_of_inv, require-ok, argument-valid, argument-path, required_inv,
  moved_valid, remove-Declared,
}
use joinlint.Config.Storable.{
  IsWritten, Storable, IsFaithful, Storable-put, Storable-remove, Storable-same, Declared-same,
}
use joinlint.Config.{
  SourceKind, SourceConfig, ConfigV1, Yaml, Project, parsed_config, parsed_model, valid_entry,
  valid_source_id, validate_source_argument, validate_source_id, config_of, in_use, required,
  add_source, set_source_path, remove_source, duplicate_source, kind_mismatch, source_in_use,
  source_not_found, source_kind_for_path, kind_eq,
}

pub data Command : Type 0 where
  add : String → String → SourceKind → Command
  set_path : String → String → Command
  remove_ : String → Command

abbrev pub run_command : {Text : Type 0} → Yaml Text → Command → Action (Project Text) (Unit {0})
run_command yaml (add source_id path kind) = add_source yaml source_id path kind
run_command yaml (set_path source_id path) = set_source_path yaml source_id path
run_command yaml (remove_ source_id) = remove_source yaml source_id

-- Both files of the project load, with a configuration of the program, and the model keeps to it.
pub record IsSound {Text : Type 0} (yaml : Yaml Text) (p : Project Text) : Type 0 where
  pub config : ConfigV1
  pub model : ModelV1
  pub storable : Storable config.sources
  pub config_loads : parsed_config yaml p.config_yaml ≡ ok config
  pub model_loads : parsed_model yaml p.model_yaml ≡ ok model
  pub declared : Declared config.sources model.entities

module _ {Text : Type 0} (yaml : Yaml Text) (faithful : IsFaithful yaml) where
  -- A write of a valid configuration that declares what the model needs.
  rewritten :
      (p : Project Text) (sound : IsSound yaml p) (c : ConfigV1)
      → Storable c.sources
      → Declared c.sources sound.model.entities
      → IsSound yaml (record p { config_yaml = ok (yaml.dump_config c) })
  unfolding parsed_config
  rewritten p sound c storable declared =
      let (read, e, once, same) = faithful.reads_config c storable in
      let stored = Storable-same read.sources c.sources once same storable in
      record {
        config = read;
        model = sound.model;
        storable = stored;
        config_loads = rw (e, stored.valid) refl;
        model_loads = sound.model_loads;
        declared = Declared-same read.sources c.sources sound.model.entities same declared;
      }

  -- The configuration that a command reads is the one of the invariant.
  pub loaded :
      (p : Project Text) (sound : IsSound yaml p) (c : ConfigV1)
      → parsed_config yaml p.config_yaml ≡ ok c
      → c ≡ sound.config
  loaded p sound c h = ok-inj (sym h ∙ sound.config_loads)

  -- One more entry, or another value of one, keeps what was declared.
  put-Declared :
      (k : String) (s : SourceConfig) (sources : Dict SourceConfig) (entities : Dict Entity)
      → Declared sources entities
      → Declared (put k s sources) entities
  put-Declared k s sources entities declared e m =
      let known : contains ((e.1).source) (keys sources) ≡ true = declared e m in
      let either = contains-keys-put k ((e.1).source) s sources in rw (either, known) (ground arith)

  written-IsSound :
      (p : Project Text) (sound : IsSound yaml p) (c updated : ConfigV1) (k : String)
      (s : SourceConfig)
      → c ≡ sound.config
      → valid_entry (k, s) ≡ true
      → IsWritten s.path
      → config_of (put k s c.sources) ≡ ok updated
      → IsSound yaml (record p { config_yaml = ok (yaml.dump_config updated) })
  written-IsSound p sound c updated k s same valid path made =
      let sources : updated.sources ≡ put k s sound.config.sources =
        config_of_inv (put k s c.sources) updated made
        ∙ ap (λ (d : ConfigV1). put k s d.sources) same in
      rewritten p sound updated
        (rw sources (Storable-put k s sound.config.sources sound.storable valid path))
        (rw sources (put-Declared k s sound.config.sources sound.model.entities sound.declared))

  add_source-IsSound :
      (source_id path : String) (kind : SourceKind) (p : Project Text)
      → IsSound yaml p
      → IsSound yaml ((add_source yaml source_id path kind p).1)
  unfolding add_source
  add_source-IsSound source_id path kind p sound =
      after-lift (IsSound yaml) (parsed_config yaml p.config_yaml) _ p sound (λ config loads.
        after-lift (IsSound yaml) (validate_source_id source_id) _ p sound (λ u named.
          after-lift (IsSound yaml)
            (require (not (contains source_id (keys config.sources))) duplicate_source) _ p sound
            (λ v fresh.
              after-lift (IsSound yaml) (validate_source_argument kind path) _ p sound
                (λ source argument.
                  let valid : valid_entry (source_id, source) ≡ true =
                    rw
                      (
                        require-ok (valid_source_id source_id) _ u named,
                        argument-valid kind path source argument,
                      )
                      refl in
                  after-lift (IsSound yaml) (config_of (put source_id source config.sources)) _ p
                    sound
                    (λ updated made.
                      written-IsSound p sound config updated source_id source
                        (loaded p sound config loads) valid
                        (path, argument-path kind path source argument) made)))))

  set_source_path-IsSound :
      (source_id path : String) (p : Project Text)
      → IsSound yaml p
      → IsSound yaml ((set_source_path yaml source_id path p).1)
  unfolding set_source_path
  set_source_path-IsSound source_id path p sound =
      after-lift (IsSound yaml) (parsed_config yaml p.config_yaml) _ p sound (λ config loads.
        after-lift (IsSound yaml) (required source_not_found (get source_id config.sources)) _ p
          sound
          (λ existing found.
            after-lift (IsSound yaml) (validate_source_argument existing.kind path) _ p sound
              (λ argument parsed.
                after-lift (IsSound yaml)
                  (require (kind_eq (source_kind_for_path argument.path) existing.kind)
                    kind_mismatch)
                  _ p sound
                  (λ v kept.
                    let same = loaded p sound config loads in
                    let valid : all valid_entry config.sources ≡ true =
                      rw same sound.storable.valid in
                    let old : valid_entry (source_id, existing) ≡ true =
                      all-get valid_entry source_id existing config.sources valid (
                        required_inv source_not_found (get source_id config.sources) existing
                          found) in
                    after-lift (IsSound yaml)
                      (config_of
                        (put source_id (record existing { path = argument.path }) config.sources))
                      _ p sound
                      (λ updated made.
                        written-IsSound p sound config updated source_id
                          (record existing { path = argument.path }) same
                          (moved_valid source_id existing argument old
                            (argument-valid existing.kind path argument parsed))
                          (path, argument-path existing.kind path argument parsed) made)))))

  remove_source-IsSound :
      (source_id : String) (p : Project Text)
      → IsSound yaml p
      → IsSound yaml ((remove_source yaml source_id p).1)
  unfolding remove_source
  remove_source-IsSound source_id p sound =
      after-lift (IsSound yaml) (parsed_config yaml p.config_yaml) _ p sound (λ config loads.
        after-lift (IsSound yaml)
          (require (contains source_id (keys config.sources)) source_not_found) _ p sound
          (λ u present.
            after-lift (IsSound yaml) (parsed_model yaml p.model_yaml) _ p sound (λ model read.
              after-lift (IsSound yaml)
                (require (not (in_use source_id model.entities)) source_in_use) _ p sound
                (λ v unused.
                  after-lift (IsSound yaml) (config_of (remove source_id config.sources)) _ p sound
                    (λ updated made.
                      let same = loaded p sound config loads in
                      let sources : updated.sources ≡ remove source_id sound.config.sources =
                        config_of_inv _ updated made
                        ∙ ap (λ (d : ConfigV1). remove source_id d.sources) same in
                      let entities : model ≡ sound.model = ok-inj (sym read ∙ sound.model_loads) in
                      let free : not (in_use source_id sound.model.entities) ≡ true =
                        subst (λ (m : ModelV1). not (in_use source_id m.entities) ≡ true) entities
                          (require-ok _ _ v unused) in
                      rewritten p sound updated
                        (rw sources (Storable-remove source_id sound.config.sources sound.storable))
                        (rw sources (
                          remove-Declared source_id sound.config.sources sound.model.entities free
                            sound.declared)))))))

  -- Where a dumped configuration reads back with the same sources, each of the three commands,
  -- whether it succeeds or raises, leaves a project whose files load and whose model names only
  -- sources of the configuration, if they did before, with distinct ids and paths that are those of
  -- texts.
  pub run_command-IsSound :
      (c : Command) (p : Project Text) → IsSound yaml p → IsSound yaml ((run_command yaml c p).1)
  run_command-IsSound (add source_id path kind) p sound =
      add_source-IsSound source_id path kind p sound
  run_command-IsSound (set_path source_id path) p sound =
      set_source_path-IsSound source_id path p sound
  run_command-IsSound (remove_ source_id) p sound = remove_source-IsSound source_id p sound
