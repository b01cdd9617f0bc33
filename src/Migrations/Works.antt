-- ===== src/Migrations/Works.antt =====
-- Apply of common/base.go on a machine where no call of the operating system fails.
use kubo.Common.{ℕ, ◌≡◌, Option, none, some, Result, ok, put, arith}
use kubo.Migrations.Repo.{
  MigrationName, Io, read_file, write_backup_file, create_output_file, write_output, try, must,
  or_abort, save_backup, repo_version, read_version_file, write_version_file, read_config,
  create_backup, write_backup, close_backup, create_output, close_output, Repo, check_version,
  write_version, with_backup, name_eq,
}
use kubo.Migrations.Embedded.{BaseMigration, apply}

module _ {Text : Type 0} (fails : Io → Option ℕ) where
  check_version_succeeds :
      (v : ℕ) (s : Repo Text)
      → fails read_version_file ≡ none
      → s.version ≡ some v
      → check_version fails v s ≡ (ok tt, s)
  unfolding check_version repo_version try
  check_version_succeeds v s works is = ground arith

  read_file_succeeds :
      (s : Repo Text) (old : Text)
      → fails read_config ≡ none
      → s.config ≡ some old
      → read_file fails s ≡ (ok old, s)
  unfolding read_file try
  read_file_succeeds s old works c = ground arith

  or_abort_succeeds :
      (call : Io) (s : Repo Text) → fails call ≡ none → or_abort fails call s ≡ (ok tt, s)
  unfolding or_abort
  or_abort_succeeds call s works = rw (works, or_abort)

  try_succeeds : (call : Io) (s : Repo Text) → fails call ≡ none → try fails call s ≡ (ok tt, s)
  unfolding try
  try_succeeds call s works = rw (works, try)

  write_version_succeeds :
      (v : ℕ) (s : Repo Text)
      → fails write_version_file ≡ none
      → write_version fails v s ≡ (ok tt, record s { version = some v })
  unfolding write_version
  write_version_succeeds v s works = rw (works, write_version)

  write_backup_file_succeeds :
      (name : MigrationName) (text : Text) (s : Repo Text)
      → ((call : Io) → fails call ≡ none)
      → write_backup_file fails name text s
        ≡ (ok tt, record s { backups = put s.backups name text })
  unfolding write_backup_file save_backup
  write_backup_file_succeeds name text s works = rw (
    try_succeeds create_backup s (works create_backup),
    or_abort_succeeds write_backup s (works write_backup),
    or_abort_succeeds close_backup s (works close_backup),
    write_backup_file,
  )

  create_output_file_succeeds :
      (name : MigrationName) (s : Repo Text)
      → fails create_output ≡ none
      → create_output_file fails name s ≡ (ok tt, s)
  unfolding create_output_file
  create_output_file_succeeds name s works = rw (works, create_output_file)

  write_output_succeeds :
      (name : MigrationName) (new : Text) (s : Repo Text)
      → fails close_output ≡ none
      → write_output fails name (ok new) s ≡ (ok tt, record s { config = some new })
  unfolding write_output must
  write_output_succeeds name new s works = rw (works, must)

  with_backup_succeeds :
      (name : MigrationName) (convert : Text → Result ℕ Text) (s : Repo Text) (old new : Text)
      → ((call : Io) → fails call ≡ none)
      → s.config ≡ some old
      → convert old ≡ ok new
      → with_backup fails name convert s
        ≡ (ok tt, record s { config = some new; backups = put s.backups name old })
  unfolding with_backup
  with_backup_succeeds name convert s old new works c converts =
      let saved : Repo Text = record s { backups = put s.backups name old } in
      rw (
        read_file_succeeds s old (works read_config) c,
        write_backup_file_succeeds name old s works,
        create_output_file_succeeds name saved (works create_output),
        converts,
        write_output_succeeds name new saved (works close_output),
      )

  -- Where no call of the operating system fails, Apply succeeds from the migration's first version
  -- with a config that converts: it writes the second version and the converted config, and keeps the
  -- old config as the backup.
  pub apply_succeeds :
      (m : BaseMigration Text) (s : Repo Text) (old new : Text)
      → ((call : Io) → fails call ≡ none)
      → s.version ≡ some m.name.from
      → s.config ≡ some old
      → m.convert old ≡ ok new
      → apply fails m s ≡ (
        ok tt,
        record s {
          version = some m.name.to;
          config = some new;
          backups = put s.backups m.name old;
        },
      )
  unfolding apply
  apply_succeeds m s old new works v c converts = rw (
    check_version_succeeds m.name.from s (works read_version_file) v,
    with_backup_succeeds m.name m.convert s old new works c converts,
    write_version_succeeds m.name.to
        (record s { config = some new; backups = put s.backups m.name old })
        (works write_version_file),
  )
