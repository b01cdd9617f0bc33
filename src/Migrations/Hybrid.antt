-- ===== src/Migrations/Hybrid.antt =====
-- The runs over several migrations: RunEmbeddedMigrations of embedded.go, and RunHybridMigrations
-- with runMigrationsFromPath of migrations.go.
use kubo.Common.{
  ℕ, suc, Bool, true, false, not, ◌&&◌, Option, none, some, List, [], ◌∷◌, ok, err, if◌then◌else◌,
  nat_eq, ltb, Map, get, is_some,
}
use kubo.Common.Acts.{pure, fail, lift, ◌>>=◌}
use kubo.Migrations.Repo.{
  MigrationName, name_eq, io, downgrade_not_allowed, no_embedded_found, not_in_path, Io, stat_dir,
  lock_repo, Step, try, repo_version,
}
use kubo.Migrations.Embedded.{BaseMigration, run_embedded_migration}
use kubo.Migrations.Plan.{External, Found, find_migrations, run_each, run_migration}

-- embeddedMigrationsMinVersion
abbrev pub embedded_min : ℕ
embedded_min = 16

module _ {Text : Type 0} (fails : Io → Option ℕ)
    (embedded : MigrationName → Option (BaseMigration Text)) where
  -- Migrations that are not embedded are skipped; the result counts the others.
  unfoldable pub run_embedded_list : Bool → List MigrationName → Step Text ℕ
  run_embedded_list reverts [] = pure 0
  run_embedded_list reverts (name ∷ migrations) =
      if is_some (embedded name)
      then (do
        _ ← run_embedded_migration fails embedded name reverts
        count ← run_embedded_list reverts migrations
        pure (suc count))
      else run_embedded_list reverts migrations

  unfoldable pub run_embedded_found : ℕ → ℕ → List MigrationName → Step Text Unit
  run_embedded_found target from migrations = do
    count ← run_embedded_list (ltb target from) migrations
    if nat_eq count 0 then fail (no_embedded_found from target) else pure tt

abbrev pub all_found : {Bin : Type 0} → Map MigrationName Bin → List MigrationName → Bool
all_found bins [] = true
all_found bins (name ∷ migrations) = is_some (get bins name) && all_found bins migrations

-- a call that answers with an error alone
unfoldable pub answer : {Text : Type 0} → Option ℕ → Step Text Unit
answer failed = lift (elim failed [ none ↦ ok tt | some code ↦ err (io code) ])

module _ {Text Bin : Type 0} (fails : Io → Option ℕ) (ext : External Text Bin) where
  -- The download branch of each case
  unfoldable pub run_downloaded : ℕ → Bool → Step Text Unit
  unfolding answer
  run_downloaded target allow_downgrade = do
    _ ← answer ext.read_migration_config
    _ ← answer ext.get_migration_fetcher
    run_migration ext fails target allow_downgrade

  -- The external phase of each case: `reverts` is what the case passes to runMigrationsFromPath.
  unfoldable pub run_external_found : ℕ → Bool → Bool → Found Bin → Step Text Unit
  run_external_found target allow_downgrade reverts (migrations, bins) =
      if all_found bins migrations
      then run_each ext not_in_path bins reverts migrations
      else run_downloaded target allow_downgrade

  unfoldable pub run_external : ℕ → ℕ → Bool → Bool → Step Text Unit
  run_external from target allow_downgrade reverts = do
    found ← lift (find_migrations ext from target)
    run_external_found target allow_downgrade reverts found

module _ {Text Bin : Type 0} (fails : Io → Option ℕ)
    (embedded : MigrationName → Option (BaseMigration Text)) (ext : External Text Bin) where
  unfoldable pub run_embedded_from : ℕ → Bool → ℕ → Step Text Unit
  run_embedded_from target allow_downgrade from =
      if nat_eq from target
      then pure tt
      else if ltb target from && not allow_downgrade
      then fail (downgrade_not_allowed from target)
      else (do
        found ← lift (find_migrations ext from target)
        run_embedded_found fails embedded target from found.0)

  unfoldable pub run_embedded_migrations_unlocked : ℕ → Bool → Step Text Unit
  unfolding try repo_version
  run_embedded_migrations_unlocked target allow_downgrade = do
    _ ← try fails stat_dir
    from ← repo_version fails
    run_embedded_from target allow_downgrade from

  unfoldable pub run_embedded_migrations : ℕ → Bool → Step Text Unit
  unfolding try
  run_embedded_migrations target allow_downgrade = do
    _ ← try fails stat_dir
    _ ← try fails lock_repo
    run_embedded_migrations_unlocked target allow_downgrade

  -- Case 4: the embedded phase runs above version 16, and the target is below it.
  unfoldable pub run_reverse : ℕ → ℕ → Bool → Step Text Unit
  run_reverse current target allow_downgrade = do
    _ ←
        (if ltb embedded_min current
          then run_embedded_migrations_unlocked embedded_min allow_downgrade
          else pure tt)
    if ltb target embedded_min
        then run_external fails ext embedded_min target allow_downgrade true
        else pure tt

  unfoldable pub run_case : ℕ → ℕ → Bool → Step Text Unit
  run_case current target allow_downgrade =
      let needs_external = ltb current embedded_min in
      let needs_embedded = not (ltb target embedded_min) in
      if not needs_external && needs_embedded
      then run_embedded_migrations_unlocked target allow_downgrade
      else if needs_external && not needs_embedded
      then run_external fails ext current target allow_downgrade false
      else if needs_external && needs_embedded
      then (do
        _ ← run_external fails ext current embedded_min allow_downgrade false
        run_embedded_migrations_unlocked target allow_downgrade)
      else run_reverse current target allow_downgrade

  unfoldable pub run_hybrid_from : ℕ → Bool → ℕ → Step Text Unit
  run_hybrid_from target allow_downgrade current =
      if nat_eq current target
      then pure tt
      else if ltb target current && not allow_downgrade
      then fail (downgrade_not_allowed current target)
      else run_case current target allow_downgrade

  unfoldable pub run_hybrid_migrations : ℕ → Bool → Step Text Unit
  unfolding try repo_version
  run_hybrid_migrations target allow_downgrade = do
    _ ← try fails stat_dir
    _ ← try fails lock_repo
    current ← repo_version fails
    run_hybrid_from target allow_downgrade current
