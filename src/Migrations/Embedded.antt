-- ===== src/Migrations/Embedded.antt =====
-- common/base.go and embedded.go: the migrations that are built in, and how one is run.
use kubo.Common.{ℕ, Bool, Option, none, some, ◌==◌, Result, if◌then◌else◌, string_eq}
use kubo.Common.Acts.{fail, ◌>>=◌}
use kubo.Migrations.Repo.{
  MigrationName, name_eq, not_embedded, Io, Step, check_version, write_version, with_backup,
  revert_backup,
}

pub record BaseMigration (Text : Type 0) : Type 0 where
  pub name : MigrationName
  pub convert : Text → Result ℕ Text

module _ {Text : Type 0} (fails : Io → Option ℕ) where
  -- BaseMigration.Apply
  unfoldable pub apply : BaseMigration Text → Step Text Unit
  apply m = do
    _ ← check_version fails m.name.from
    _ ← with_backup fails m.name m.convert
    write_version fails m.name.to

  -- BaseMigration.Revert
  unfoldable pub revert : BaseMigration Text → Step Text Unit
  revert m = do
    _ ← check_version fails m.name.to
    _ ← revert_backup fails m.name
    write_version fails m.name.from

  -- RunEmbeddedMigration, with migrationsByName[name]. Every built-in migration is reversible.
  unfoldable pub run_embedded_migration :
      (MigrationName → Option (BaseMigration Text)) → MigrationName → Bool → Step Text Unit
  run_embedded_migration embedded name reverts = elim (embedded name) [
    | none ↦ fail (not_embedded name)
    | some m ↦ if reverts then revert m else apply m
  ]

abbrev pub embedded_16_17 : MigrationName
embedded_16_17 = record { from = 16; to = 17 }

abbrev pub embedded_17_18 : MigrationName
embedded_17_18 = record { from = 17; to = 18 }

-- migrationsByName, from the conversions of the two built-in migrations
unfoldable pub migrations_by_name :
    {Text : Type 0}
    → (Text → Result ℕ Text)
    → (Text → Result ℕ Text)
    → MigrationName
    → Option (BaseMigration Text)
migrations_by_name convert_16 convert_17 name =
    if name == embedded_16_17
    then some (record { name = embedded_16_17; convert = convert_16 })
    else if name == embedded_17_18
    then some (record { name = embedded_17_18; convert = convert_17 })
    else none
