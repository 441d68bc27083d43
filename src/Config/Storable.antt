-- ===== src/Config/Storable.antt =====
-- The configurations that src/joinlint/config.py writes, and how they are read again.
use joinlint.Prelude.{
  String, ◌≡◌, sym, ◌∙◌, subst, inl, inr, true, none, some, ==_cases, all, Nodup,
}
use joinlint.Prelude.Dict.{Dict, get, put, keys, remove, get-put, get-remove}
use joinlint.Prelude.Dict.Entries.{all-put, all-remove, all-get}
use joinlint.Prelude.Dict.Distinct.{
  SameEntries, SameEntries-contains, all-of_get, Nodup-keys-put, Nodup-keys-remove,
}
use joinlint.Model.{Entity}
use joinlint.Config.Path.{PurePosixPath, parse_path}
use joinlint.Config.{SourceConfig, ConfigV1, Yaml, valid_entry}
use joinlint.Config.Checks.{Declared}

-- The path is that of some text.
abbrev pub IsWritten : PurePosixPath → Type 0
IsWritten path = (text : String) × (path ≡ parse_path text)

-- What a configuration of the program is: each id has one source, every entry is valid, and the
-- paths are those of texts.
pub record Storable (sources : Dict SourceConfig) : Type 0 where
  pub distinct_ids : Nodup (keys sources)
  pub valid : all valid_entry sources ≡ true
  pub written : (k : String) (s : SourceConfig) → get k sources ≡ some s → IsWritten s.path

-- What the code relies on: a document that was dumped reads as one with the same source under each
-- id. The order of the ids may differ, since the dump sorts them.
pub record IsFaithful {Text : Type 0} (yaml : Yaml Text) : Type 0 where
  pub reads_config :
      (c : ConfigV1)
      → Storable c.sources
      → (read : ConfigV1) × (yaml.parse_config (yaml.dump_config c) ≡ some (some read))
        × Nodup (keys read.sources)
        × SameEntries read.sources c.sources

some-inj {ℓ} : {A : Type ℓ} {a b : A} → some a ≡ some b → a ≡ b
some-inj e = cc

pub Storable-put :
    (k : String) (s : SourceConfig) (sources : Dict SourceConfig)
    → Storable sources
    → valid_entry (k, s) ≡ true
    → IsWritten s.path
    → Storable (put k s sources)
Storable-put k s sources old valid path = record {
  distinct_ids = Nodup-keys-put k s sources old.distinct_ids;
  valid = all-put valid_entry k s sources old.valid valid;
  written = λ j t g. elim (==_cases k j) [
    | inl (q, e) ↦
        let found : some s ≡ some t = rw (get-put, e) at g in
        subst (λ (x : SourceConfig). IsWritten x.path) (some-inj found) path
    | inr (n, e) ↦ old.written j t (rw (get-put, e) at g)
  ];
}

pub Storable-remove :
    (k : String) (sources : Dict SourceConfig) → Storable sources → Storable (remove k sources)
Storable-remove k sources old = record {
  distinct_ids = Nodup-keys-remove k sources old.distinct_ids;
  valid = all-remove valid_entry k sources old.valid;
  written = λ j t g. elim (==_cases k j) [
    | inl (q, e) ↦ let gone : none ≡ some t = rw (get-remove, e) at g in cc
    | inr (n, e) ↦ old.written j t (rw (get-remove, e) at g)
  ];
}

pub Storable-same :
    (read sources : Dict SourceConfig)
    → Nodup (keys read)
    → SameEntries read sources
    → Storable sources
    → Storable read
Storable-same read sources distinct_ids same old = record {
  distinct_ids = distinct_ids;
  valid =
      all-of_get valid_entry read distinct_ids
        (λ k s g. all-get valid_entry k s sources old.valid (sym (same k) ∙ g));
  written = λ k s g. old.written k s (sym (same k) ∙ g);
}

pub Declared-same :
    (read sources : Dict SourceConfig) (entities : Dict Entity)
    → SameEntries read sources
    → Declared sources entities
    → Declared read entities
Declared-same read sources entities same declared e m =
    SameEntries-contains read sources same ((e.1).source) ∙ declared e m
