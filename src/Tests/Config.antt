-- ===== src/Tests/Config.antt =====
-- The commands of src/joinlint/config.py on a project with one source.
use mathlib.Core.List.Memᴰ
use mathlib.Core.List.{Permᴰ}
use mathlib.Core.List.Permᴰ
use joinlint.Prelude.Order.{text_ord, text_le}
use joinlint.Prelude.Sort.{sorted, sorted-perm}
use joinlint.Prelude.Dict.Distinct.{SameEntries, SameEntries-contains}
use joinlint.Prelude.{
  String, Nodup, ◌∙◌, subst, inl, inr, arith, ==_sym, ==_iff, ==_cases, ◌≡◌, refl, Option, none,
  some, [], ◌∷◌, contains, ◌==◌, false,
}
use joinlint.Prelude.Dict.{Dict, get, keys, put}
use joinlint.Config.Path.{parse_path}
use joinlint.Errors.{ok, err}
use joinlint.Model.{ModelV1, Entity, valid_relationships}
use joinlint.Config.Path.{split_slash, components}
use joinlint.Config.{
  sqlite, csv_directory, SourceConfig, ConfigV1, Yaml, Project, default_limits,
  validate_source_argument, parsed_config, parsed_model, in_use, add_source, remove_source,
  source_in_use,
}
use joinlint.Config.Checks.{Declared}
use joinlint.Config.Storable.{IsWritten, Storable, IsFaithful}
use joinlint.Config.Commands.{remove_, run_command, IsSound, run_command-IsSound}
use joinlint.Config.RoundTrip.{ReadAlike, remove_source-add_source}

abbrev shop : SourceConfig
shop = record {
  kind = sqlite;
  path = record { absolute = false; parts = "data" ∷ "shop.sqlite" ∷ [] };
  limits = default_limits;
}

abbrev csv : SourceConfig
csv = record {
  kind = csv_directory;
  path = record { absolute = false; parts = "exports" ∷ [] };
  limits = default_limits;
}

abbrev config : ConfigV1
config = record { sources = ("shop", shop) ∷ [] }

abbrev orders : Entity
orders = record { source = "shop"; object = "orders"; grain = record { keys = "id" ∷ [] } }

abbrev model : ModelV1
model = record { entities = ("orders", orders) ∷ []; relationships = [] }

-- The texts of the two files.
data Document : Type 0 where
  config_text : ConfigV1 → Document
  model_text : ModelV1 → Document

abbrev read_config : Document → Option (Option ConfigV1)
read_config (config_text c) = some (some c)
read_config (model_text m) = some none

abbrev read_model : Document → Option (Option ModelV1)
read_model (config_text c) = some none
read_model (model_text m) = some (some m)

abbrev entry_id : String × SourceConfig → String
entry_id e = e.0

-- The dump sorts the ids.
abbrev in_order : ConfigV1 → ConfigV1
in_order c = record { sources = sorted entry_id c.sources }

abbrev yaml : Yaml Document
yaml = record {
  parse_config = read_config;
  dump_config = λ c. config_text (in_order c);
  parse_model = read_model;
  dump_model = model_text;
}

abbrev Entry : Type 0
Entry = String × SourceConfig

abbrev Reordered : Dict SourceConfig → Dict SourceConfig → Type 0
Reordered d e = Nodup (keys e) × SameEntries e d

Reordered-cons :
    (x : Entry) (d e : Dict SourceConfig)
    → Nodup (keys (x ∷ d))
    → Reordered d e
    → Reordered (x ∷ d) (x ∷ e)
unfolding get
Reordered-cons x d e once (later, same) = (
  (SameEntries-contains e d same x.0 ∙ once.0, later),
  λ k. elim (==_cases x.0 k) [ inl (q, y) ↦ rw y refl | inr (q, n) ↦ rw n (same k) ],
)

Reordered-swap :
    (x y : Entry) (d : Dict SourceConfig)
    → Nodup (keys (x ∷ y ∷ d))
    → Reordered (x ∷ y ∷ d) (y ∷ x ∷ d)
unfolding get contains
Reordered-swap x y d (x_new, (y_new, once)) = (
  (ground (arith, x_new, y_new, ==_sym x.0 y.0), (ground (arith, x_new), once)),
  λ k. ground (arith, x_new, ==_iff x.0 k, ==_iff y.0 k, ==_iff y.0 x.0),
)

-- A dictionary in another order.
reordered : {d e : Dict SourceConfig} → Permᴰ d e → Nodup (keys d) → Reordered d e
reordered Permᴰ.nil once = (tt, λ k. refl)
reordered (Permᴰ.cons {a = a} {b = b} {l₁ = d} {l₂ = e} q p) once =
    subst (λ x. Reordered (a ∷ d) (x ∷ e)) q (Reordered-cons a d e once (reordered p once.1))
reordered (Permᴰ.swap {a = a} {b = b} {l = l} q r) once = rw (← q, ← r) (Reordered-swap a b l once)
reordered (Permᴰ.trans p q) once =
    let (first, same) = reordered p once in
    let (second, again) = reordered q first in (second, λ k. again k ∙ same k)

faithful : IsFaithful yaml
faithful = record {
  reads_config = λ c storable.
      let (once, same) =
        reordered (Permᴰ.symm (sorted-perm entry_id c.sources)) storable.distinct_ids in
      (in_order c, refl, once, same);
}

abbrev project : Project Document
project = record { config_yaml = ok (config_text config); model_yaml = ok (model_text model) }

all-Declared : Declared config.sources model.entities
unfolding contains ◌==◌
all-Declared e m = rw (Memᴰ.eq_of_singleton m) refl

config_read : parsed_config yaml project.config_yaml ≡ ok config
unfolding parsed_config contains ◌==◌
config_read = refl

model_read : parsed_model yaml project.model_yaml ≡ ok model
unfolding parsed_model valid_relationships contains ◌==◌
model_read = refl

some-inj {ℓ} : {A : Type ℓ} {a b : A} → some a ≡ some b → a ≡ b
some-inj e = cc

shop_path : shop.path ≡ parse_path "data/shop.sqlite"
unfolding split_slash components ◌==◌
shop_path = refl

read_path : (k : String) (s : SourceConfig) → get k config.sources ≡ some s → IsWritten s.path
unfolding get
read_path k s g = elim (==_cases "shop" k) [
  | inl (q, y) ↦
      let found : some shop ≡ some s = rw y at g in
      subst (λ (x : SourceConfig). IsWritten x.path) (some-inj found)
        ("data/shop.sqlite", shop_path)
  | inr (q, n) ↦ let found : none ≡ some s = rw n at g in cc
]

storable : Storable config.sources
unfolding get contains ◌==◌
storable = record { distinct_ids = (refl, tt); valid = refl; written = λ k s g. read_path k s g }

sound : IsSound yaml project
sound = record {
  config = config;
  storable = storable;
  model = model;
  config_loads = config_read;
  model_loads = model_read;
  declared = all-Declared;
}

run_command-IsSound_example : IsSound yaml ((run_command yaml (remove_ "shop") project).1)
run_command-IsSound_example = run_command-IsSound yaml faithful (remove_ "shop") project sound

abbrev added : Project Document
added = record project {
  config_yaml = ok (config_text (record { sources = ("exports", csv) ∷ ("shop", shop) ∷ [] }));
}

adds : add_source yaml "exports" "./exports" csv_directory project ≡ (ok tt, added)
unfolding add_source parsed_config validate_source_argument split_slash components put contains ◌==◌
    sorted text_le
adds = refl

remove_source-add_source_example :
    (r : Project Document) × (remove_source yaml "exports" added ≡ (ok tt, r))
    × ReadAlike yaml project r
remove_source-add_source_example =
    remove_source-add_source yaml faithful "exports" "./exports" csv_directory project added sound
      adds

-- The source of the model's entity cannot be removed.
in_use_stays : (remove_source yaml "shop" project).0 ≡ err source_in_use
unfolding remove_source parsed_config parsed_model valid_relationships in_use contains ◌==◌
in_use_stays = refl
