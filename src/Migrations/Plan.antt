-- ===== src/Migrations/Plan.antt =====
-- migrations.go: findMigrations, and runMigration, fetchMigrations and RunMigration on what it finds.
-- The binaries on the PATH and on the network are parameters.
use kubo.Common.{
  ℕ, zero, suc, ◌-◌, Bool, true, false, not, ◌&&◌, Option, none, some, List, [], ◌∷◌, Result, ok,
  err, if◌then◌else◌, nat_eq, ltb, length, Map, get, put, is_some,
}
use kubo.Common.Acts.{pure, fail, lift, ◌>>=◌}
use kubo.Migrations.Repo.{
  MigrationName, name_eq, MigrationError, context_done, io, linux_musl, downgrade_not_allowed,
  migration_failed, download_failed, Io, stat_dir, make_temp_dir, Repo, Step, try, repo_version,
}

-- `ctx_done` says whether the context is done when findMigrations reaches a version; `os_variant` is
-- osWithVariant, true for linux-musl; `fetch` is LatestDistVersion with FetchBinary; `run` starts a
-- binary, with -revert or not; the rest are ReadMigrationConfig and GetMigrationFetcher.
pub record External (Text Bin : Type 0) : Type 0 where
  pub ctx_done : ℕ → Bool
  pub look_path : MigrationName → Option Bin
  pub os_variant : Result ℕ Bool
  pub fetch : MigrationName → Option Bin
  pub run : Bin → Bool → Repo Text → Option ℕ × Repo Text
  pub read_migration_config : Option ℕ
  pub get_migration_fetcher : Option ℕ

abbrev pub Found : Type 0 → Type 0
Found Bin = List MigrationName × Map MigrationName Bin

unfoldable pub missing_from :
    {Bin : Type 0} → Map MigrationName Bin → List MigrationName → List MigrationName
missing_from bins [] = []
missing_from bins (name ∷ migrations) =
    let rest = missing_from bins migrations in if is_some (get bins name) then rest else name ∷ rest

module _ {Text Bin : Type 0} (ext : External Text Bin) where
  unfoldable pub add_found : MigrationName → Found Bin → Found Bin
  add_found name (migrations, bins) =
      (name ∷ migrations, elim (ext.look_path name) [ none ↦ bins | some b ↦ put bins name b ])

  abbrev pub add_found_result :
      MigrationName → Result MigrationError (Found Bin) → Result MigrationError (Found Bin)
  add_found_result name (ok found) = ok (add_found name found)
  add_found_result name (err e) = err e

  -- The loop of findMigrations: `count` steps from `cur`, upwards or downwards.
  unfoldable pub find_steps : Bool → ℕ → ℕ → Result MigrationError (Found Bin)
  find_steps down zero cur = ok ([], [])
  find_steps down (suc count) cur =
      let next = if down then cur - 1 else suc cur in
      let name =
        if down then record { from = next; to = cur } else record { from = cur; to = next } in
      let rest = find_steps down count next in
      if ext.ctx_done cur then err context_done else add_found_result name rest

  unfoldable pub find_migrations : ℕ → ℕ → Result MigrationError (Found Bin)
  find_migrations from to =
      if ltb to from then find_steps true (from - to) from else find_steps false (to - from) from

  -- runMigration, with the error that its callers wrap
  unfoldable pub run_binary : MigrationName → Bin → Bool → Step Text Unit
  run_binary name bin reverts s =
      let (failed, s') = ext.run bin reverts s in
      (elim failed [ none ↦ ok tt | some code ↦ err (migration_failed name code) ], s')

  -- One migration of the loops here and in runMigrationsFromPath: `lost` is the error for a
  -- migration without a binary.
  unfoldable pub run_one :
      (MigrationName → MigrationError)
      → Map MigrationName Bin
      → Bool
      → MigrationName
      → Step Text Unit
  run_one lost bins reverts name = elim (get bins name) [
    | none ↦ fail (lost name)
    | some bin ↦ run_binary name bin reverts
  ]

  unfoldable pub run_each :
      (MigrationName → MigrationError)
      → Map MigrationName Bin
      → Bool
      → List MigrationName
      → Step Text Unit
  run_each lost bins reverts [] = pure tt
  run_each lost bins reverts (name ∷ migrations) = do
    _ ← run_one lost bins reverts name
    run_each lost bins reverts migrations

  unfoldable pub failed_downloads : List MigrationName → List MigrationName
  failed_downloads [] = []
  failed_downloads (name ∷ needed) =
      let rest = failed_downloads needed in if is_some (ext.fetch name) then rest else name ∷ rest

  -- binPaths[missing[i]] = fetched[i]
  unfoldable pub add_fetched : List MigrationName → Map MigrationName Bin → Map MigrationName Bin
  add_fetched [] bins = bins
  add_fetched (name ∷ needed) bins =
      add_fetched needed (elim (ext.fetch name) [ none ↦ bins | some b ↦ put bins name b ])

  -- fetchMigrations, whose binaries `add_fetched` takes
  unfoldable pub fetch_migrations : List MigrationName → Result MigrationError (Unit {0})
  fetch_migrations needed = elim ext.os_variant [
    | err code ↦ err (io code)
    | ok true ↦ err linux_musl
    | ok false ↦ elim (failed_downloads needed) [
      | [] ↦ ok tt
      | name ∷ fails ↦ err (download_failed (name ∷ fails))
    ]
  ]

  module _ (fails : Io → Option ℕ) where
    unfoldable pub download_missing :
        List MigrationName → Map MigrationName Bin → Step Text (Map MigrationName Bin)
    unfolding try
    download_missing missing bins = do
      _ ← try fails make_temp_dir
      _ ← lift (fetch_migrations missing)
      pure (add_fetched missing bins)

    unfoldable pub download : Found Bin → Step Text (Map MigrationName Bin)
    download (migrations, bins) =
        if ltb (length bins) (length migrations)
        then download_missing (missing_from bins migrations) bins
        else pure bins

    unfoldable pub run_found : ℕ → ℕ → Found Bin → Step Text Unit
    run_found from target found = do
      bins ← download found
      run_each (λ name. migration_failed name 0) bins (ltb target from) found.0

    unfoldable pub run_from : ℕ → Bool → ℕ → Step Text Unit
    run_from target allow_downgrade from =
        if nat_eq from target
        then pure tt
        else if ltb target from && not allow_downgrade
        then fail (downgrade_not_allowed from target)
        else lift (find_migrations from target) >>= run_found from target

    unfoldable pub run_migration : ℕ → Bool → Step Text Unit
    unfolding try repo_version
    run_migration target allow_downgrade = do
      _ ← try fails stat_dir
      from ← repo_version fails
      run_from target allow_downgrade from
