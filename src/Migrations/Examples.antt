-- ===== src/Migrations/Examples.antt =====
-- Runs on small repositories: a config is a number, a conversion adds one, and a binary is the
-- migration that it runs.
use kubo.Common.{
  ℕ, suc, ◌≡◌, subst, ◌≢◌, refl, ap, Bool, true, false, Option, none, some, [], ◌∷◌, Result, ok,
  err, if◌then◌else◌, nat_eq, get, arith, inr, ◌⊎◌,
}
use kubo.Migrations.Repo.{
  MigrationName, name_eq, convert_failed, Io, Repo, try, must, or_abort, save_backup, remove_backup,
  repo_version, check_version, write_version, read_file, write_backup_file, create_output_file,
  write_output, with_backup, revert_backup,
}
use kubo.Migrations.Embedded.{
  BaseMigration, apply, revert, run_embedded_migration, embedded_16_17, migrations_by_name,
}
use kubo.Migrations.Backup.{apply_error, revert-apply}
use kubo.Migrations.Works.{apply_succeeds}
use kubo.Migrations.Plan.{
  External, Found, add_found, find_steps, find_migrations, run_binary, run_one, run_each,
}
use kubo.Migrations.Hybrid.{
  run_embedded_list, run_embedded_found, run_embedded_from, run_embedded_migrations_unlocked,
  run_external_found, run_external, run_case, run_hybrid_from, run_hybrid_migrations,
}
use kubo.Migrations.Reach.{Chain, Moves, Binaries, find_migrations-Chain, start_of, end_of}
use kubo.Migrations.Outcome.{hybrid_reaches_target, legacy_downgrade_fails}

abbrev works : Io → Option ℕ
works call = none

abbrev convert : ℕ → Result ℕ ℕ
convert n = ok (suc n)

abbrev repo_at : ℕ → Repo ℕ
repo_at v = record { version = some v; config = some 5; backups = [] }

abbrev migration : BaseMigration ℕ
migration = record { name = embedded_16_17; convert = convert }

abbrev broken : BaseMigration ℕ
broken = record { name = embedded_16_17; convert = λ n. err 3 }

apply_succeeds_example :
    apply works migration (repo_at 16)
    ≡ (ok tt, record { version = some 17; config = some 6; backups = (embedded_16_17, 5) ∷ [] })
apply_succeeds_example =
    apply_succeeds works migration (repo_at 16) 5 6 (λ call. refl) refl refl refl

broken_fails : (apply works broken (repo_at 16)).0 ≡ err (convert_failed 3)
unfolding apply check_version repo_version try with_backup read_file write_backup_file or_abort
    save_backup create_output_file write_output must remove_backup
broken_fails = refl

apply_error_example :
    (((apply works broken (repo_at 16)).1.version ≡ some 16)
      × ((apply works broken (repo_at 16)).1.config ≡ some 5))
    ⊎ (◌≢◌ {A = Option ℕ} none none)
apply_error_example = apply_error works broken (repo_at 16) (convert_failed 3) broken_fails

applied : (apply works migration (repo_at 16)).0 ≡ ok tt
applied = ap (λ p. p.0) apply_succeeds_example

reverted : (revert works migration (apply works migration (repo_at 16)).1).0 ≡ ok tt
unfolding apply check_version repo_version try with_backup read_file write_backup_file or_abort
    save_backup create_output_file write_output must revert revert_backup write_version
reverted = refl

revert-apply_example :
    ((revert works migration (apply works migration (repo_at 16)).1).1.version ≡ some 16)
    × ((revert works migration (apply works migration (repo_at 16)).1).1.config ≡ some 5)
    × (get (revert works migration (apply works migration (repo_at 16)).1).1.backups embedded_16_17
        ≡ none)
revert-apply_example = revert-apply works migration (repo_at 16) applied reverted

-- A binary runs from the version that its migration starts from, and fails from any other.
abbrev run_tool : MigrationName → Bool → Repo ℕ → Option ℕ × Repo ℕ
run_tool name reverts s = elim s.version [
  | none ↦ (some 1, s)
  | some v ↦
      if nat_eq v (start_of reverts name)
      then (none, record s { version = some (end_of reverts name) })
      else (some 1, s)
]

abbrev tools : External ℕ MigrationName
tools = record {
  ctx_done = λ v. false;
  look_path = λ name. some name;
  os_variant = ok false;
  fetch = λ name. some name;
  run = run_tool;
  read_migration_config = none;
  get_migration_fetcher = none;
}

run_tool-Moves : (name : MigrationName) → Moves tools name name
run_tool-Moves name reverts s h = ground arith

found-Moves :
    (name b : MigrationName)
    → ◌≡◌ {A = Option MigrationName} (some name) (some b)
    → Moves tools name b
found-Moves name b h = subst (λ c. Moves tools name c) (same h) (run_tool-Moves name)
  where
    same : ◌≡◌ {A = Option MigrationName} (some name) (some b) → name ≡ b
    same e = cc

binaries : Binaries tools
binaries = record { look_path-moves = found-Moves; fetch-moves = found-Moves }

hybrid_runs :
    (run_hybrid_migrations works (migrations_by_name convert convert) tools 18 false (repo_at 15)).0
    ≡ ok tt
unfolding run_hybrid_migrations run_hybrid_from run_case try repo_version run_external
    run_external_found find_migrations find_steps add_found run_each run_one run_binary
    run_embedded_migrations_unlocked run_embedded_from run_embedded_found run_embedded_list
    run_embedded_migration migrations_by_name apply check_version with_backup read_file
    write_backup_file or_abort save_backup create_output_file write_output must write_version
hybrid_runs = refl

hybrid_reaches_target_example :
    (run_hybrid_migrations works
      (migrations_by_name convert convert)
      tools
      18
      false
      (repo_at 15)).1.version
    ≡ some 18
hybrid_reaches_target_example =
    hybrid_reaches_target works convert convert tools binaries 18 15 false (repo_at 15) refl
      (omega arith) (omega arith) (inr (omega arith)) hybrid_runs

abbrev name_14_15 : MigrationName
name_14_15 = record { from = 14; to = 15 }

abbrev plan_15_14 : Found MigrationName
plan_15_14 = (name_14_15 ∷ [], (name_14_15, name_14_15) ∷ [])

planned : find_migrations tools 15 14 ≡ ok plan_15_14
unfolding find_migrations find_steps add_found
planned = refl

find_migrations-Chain_example :
    Chain true 15 14 (name_14_15 ∷ [])
    × ((name : MigrationName) (b : MigrationName)
        → get plan_15_14.1 name ≡ some b
        → Moves tools name b)
find_migrations-Chain_example = find_migrations-Chain tools binaries 15 14 plan_15_14 planned

legacy_downgrade_fails_example :
    (run_hybrid_migrations works (migrations_by_name convert convert) tools 14 true (repo_at 15)).0
    ≢ ok tt
legacy_downgrade_fails_example =
    legacy_downgrade_fails works convert convert tools binaries 14 15 true (repo_at 15) plan_15_14
      refl (omega arith) (omega arith) planned refl
