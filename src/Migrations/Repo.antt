-- ===== src/Migrations/Repo.antt =====
-- The repository directory that migrations change, and the operations on its files:
-- common/utils.go and repoVersion of ipfsdir.go. The version file is taken to hold a number in
-- canonical form; the text of a config file is of any type.
use kubo.Common.{
  ℕ, ◌≡◌, Bool, true, Option, none, some, List, Eq, Result, ok, err, if◌then◌else◌, nat_eq, Map,
  get, put, delete, ◌↔◌, ◌&&◌, arith,
}
use kubo.Common.Acts.{Act, pure, fail, ◌>>=◌}

-- "fs-repo-%d-to-%d", by its two numbers
pub record MigrationName : Type 0 where
  pub from : ℕ
  pub to : ℕ

abbrev pub name_beq : MigrationName → MigrationName → Bool
name_beq a b = nat_eq a.from b.from && nat_eq a.to b.to

pub name_beq_iff : (a b : MigrationName) → (name_beq a b ≡ true) ↔ (a ≡ b)
name_beq_iff a b = ground arith

instance abbrev pub name_eq : Eq MigrationName
name_eq = record { beq = name_beq; beq_iff = name_beq_iff }

pub data MigrationError : Type 0 where
  context_done panicked bad_version_file no_sources linux_musl : MigrationError
  io : ℕ → MigrationError
  wrong_version : ℕ → ℕ → MigrationError
  convert_failed : ℕ → MigrationError
  downgrade_not_allowed : ℕ → ℕ → MigrationError
  not_embedded not_in_path : MigrationName → MigrationError
  migration_failed : MigrationName → ℕ → MigrationError
  no_embedded_found : ℕ → ℕ → MigrationError
  download_failed : List MigrationName → MigrationError

-- The calls of the operating system that can fail.
pub data Io : Type 0 where
  stat_dir lock_repo read_version_file write_version_file read_config : Io
  create_backup write_backup close_backup abort_backup : Io
  create_output abort_output close_output rename_backup make_temp_dir : Io

pub record Repo (Text : Type 0) : Type 0 where
  pub version : Option ℕ
  pub config : Option Text
  pub backups : Map MigrationName Text

abbrev pub Step : Type 0 → Type 0 → Type 0
Step Text A = Act MigrationError (Repo Text) A

module _ {Text : Type 0} (fails : Io → Option ℕ) where
  -- a call that either does nothing or fails
  unfoldable pub try : Io → Step Text Unit
  try call s = elim (fails call) [ none ↦ (ok tt, s) | some code ↦ (err (io code), s) ]

  -- Must(err)
  unfoldable pub must : Io → Step Text Unit
  must call s = elim (fails call) [ none ↦ (ok tt, s) | some code ↦ (err panicked, s) ]

  -- repoVersion
  unfoldable pub repo_version : Step Text ℕ
  unfolding try
  repo_version = do
    _ ← try read_version_file
    λ s. (elim s.version [ none ↦ err bad_version_file | some v ↦ ok v ], s)

  unfoldable pub check_version : ℕ → Step Text Unit
  unfolding repo_version
  check_version expected = do
    v ← repo_version
    if nat_eq v expected then pure tt else fail (wrong_version expected v)

  -- os.WriteFile truncates the file before it writes, so a write that fails is taken to leave no
  -- version.
  unfoldable pub write_version : ℕ → Step Text Unit
  write_version v s = elim (fails write_version_file) [
    | none ↦ (ok tt, record s { version = some v })
    | some code ↦ (err (io code), record s { version = none })
  ]

  -- os.ReadFile of the config
  unfoldable pub read_file : Step Text Text
  unfolding try
  read_file = do
    _ ← try read_config
    λ s. (elim s.config [ none ↦ err (io 0) | some text ↦ ok text ], s)

  unfoldable pub save_backup : MigrationName → Text → Step Text Unit
  save_backup name text s = (ok tt, record s { backups = put s.backups name text })

  -- os.Remove(backupPath)
  unfoldable pub remove_backup : MigrationName → Step Text Unit
  remove_backup name s = (ok tt, record s { backups = delete s.backups name })

  -- if err := call; err != nil { Must(backup.Abort()); return err }
  unfoldable pub or_abort : Io → Step Text Unit
  unfolding try must
  or_abort call = λ s. elim (fails call) [
    | none ↦ (ok tt, s)
    | some code ↦ (do _ ← must abort_backup; fail (io code)) s
  ]

  -- The backup and the output are atomic files: what they hold counts from their Close on.
  unfoldable pub write_backup_file : MigrationName → Text → Step Text Unit
  unfolding try or_abort save_backup
  write_backup_file name text = do
    _ ← try create_backup
    _ ← or_abort write_backup
    _ ← or_abort close_backup
    save_backup name text

  unfoldable pub write_output : MigrationName → Result ℕ Text → Step Text Unit
  unfolding must remove_backup
  write_output name (err code) = do
    _ ← must abort_output
    _ ← remove_backup name
    fail (convert_failed code)
  write_output name (ok text) = do
    _ ← must close_output
    λ s. (ok tt, record s { config = some text })

  unfoldable pub create_output_file : MigrationName → Step Text Unit
  unfolding remove_backup
  create_output_file name = λ s. elim (fails create_output) [
    | none ↦ (ok tt, s)
    | some code ↦ (do _ ← remove_backup name; fail (io code)) s
  ]

  unfoldable pub with_backup : MigrationName → (Text → Result ℕ Text) → Step Text Unit
  unfolding read_file write_backup_file write_output create_output_file
  with_backup name convert = do
    text ← read_file
    _ ← write_backup_file name text
    _ ← create_output_file name
    write_output name (convert text)

  -- os.Rename(configPath+backupSuffix, configPath)
  unfoldable pub revert_backup : MigrationName → Step Text Unit
  unfolding try
  revert_backup name = do
    _ ← try rename_backup
    λ s. elim (get s.backups name) [
      | none ↦ (err (io 0), s)
      | some text ↦ (ok tt, record s { config = some text; backups = delete s.backups name })
    ]
