-- ===== src/Migrations/Target.antt =====
-- Where the runs over several migrations end, for those of migrations.go and embedded.go that follow a
-- plan.
use kubo.Common.{
  ℕ, suc, ◌≡◌, refl, ap, sym, subst, ◌∙◌, Bool, true, false, not, ◌&&◌, Option, some, List, [], ◌∷◌,
  Result, ok, err, if◌then◌else◌, Map, put, arith, Option-cases, Bool-cases, inl, inr, ltb, is_some,
  length, nat_eq,
}
use kubo.Common.Acts.{pure, lift, >>=-ok, ◌>>=◌}
use kubo.Migrations.Repo.{
  MigrationName, name_eq, MigrationError, Io, stat_dir, migration_failed, Repo, Step, try,
  repo_version,
}
use kubo.Migrations.Embedded.{BaseMigration, apply, revert, run_embedded_migration}
use kubo.Migrations.Backup.{apply_ok, revert_ok}
use kubo.Migrations.Plan.{
  External, Found, find_migrations, run_each, missing_from, add_fetched, download_missing, download,
  run_found, run_from, run_migration,
}
use kubo.Migrations.Hybrid.{run_embedded_list}
use kubo.Migrations.Reach.{
  end_of, Chain, Binaries, AllMove, put-AllMove, find_migrations-Chain, run_each_reaches,
}

module _ {Text : Type 0} (fails : Io → Option ℕ) where
  pub try-ok : (call : Io) (s : Repo Text) → (try fails call s).0 ≡ ok tt → (try fails call s).1 ≡ s
  unfolding try
  try-ok call s h = ground arith

  pub repo_version-ok :
      (s : Repo Text) (v : ℕ)
      → (repo_version fails s).0 ≡ ok v
      → (s.version ≡ some v) × ((repo_version fails s).1 ≡ s)
  unfolding repo_version
  repo_version-ok s v h = ground arith

  -- What follows the check of the directory and the reading of the version.
  pub after_version :
      (f : ℕ → Step Text Unit) (s : Repo Text)
      → ((try fails stat_dir >>= λ _. repo_version fails >>= f) s).0 ≡ ok tt
      → (from : ℕ) × (s.version ≡ some from)
        × ((f from s).0 ≡ ok tt)
        × ((try fails stat_dir >>= λ _. repo_version fails >>= f) s ≡ f from s)
  after_version f s h =
      let rest = λ (_ : Unit {0}). repo_version fails >>= f in
      let (_, s1, e1, h1, same1) = >>=-ok (try fails stat_dir) rest s tt h in
      let (from, s2, e2, h2, same2) = >>=-ok (repo_version fails) f s1 tt h1 in
      let r1 = sym (ap (λ p. p.1) e1) ∙ try-ok stat_dir s (ap (λ p. p.0) e1) in
      let (v, r2) = repo_version-ok s1 from (ap (λ p. p.0) e2) in
      let r = sym (ap (λ p. p.1) e2) ∙ r2 ∙ r1 in
      (
        from,
        sym (ap (λ (t : Repo Text). t.version) r1) ∙ v,
        subst (λ t. (f from t).0 ≡ ok tt) r h2,
        same1 ∙ same2 ∙ ap (f from) r,
      )

  pub after_lift :
      {A : Type 0} (r : Result MigrationError A) (f : A → Step Text Unit) (s : Repo Text)
      → ((lift r >>= f) s).0 ≡ ok tt
      → (a : A) × (r ≡ ok a) × ((f a s).0 ≡ ok tt) × ((lift r >>= f) s ≡ f a s)
  after_lift (ok a) f s h = (a, refl, h, refl)
  after_lift (err e) f s h = cc

module _ {Text Bin : Type 0} (ext : External Text Bin) (a : Binaries ext) where
  add_fetched-AllMove :
      (needed : List MigrationName) (bins : Map MigrationName Bin)
      → AllMove ext bins
      → AllMove ext (add_fetched ext needed bins)
  unfolding add_fetched
  add_fetched-AllMove [] bins all = all
  add_fetched-AllMove (name ∷ needed) bins all = elim (Option-cases (ext.fetch name)) [
    | inl absent ↦ rw absent (add_fetched-AllMove needed bins all)
    | inr (b, e) ↦ rw e (
        add_fetched-AllMove needed (put bins name b)
          (put-AllMove ext bins name b all (a.fetch-moves name b e)))
  ]

  module _ (fails : Io → Option ℕ) where
    download_missing-ok :
        (missing : List MigrationName) (old bins : Map MigrationName Bin) (s : Repo Text)
        → AllMove ext old
        → (download_missing ext fails missing old s).0 ≡ ok bins
        → AllMove ext bins × ((download_missing ext fails missing old s).1 ≡ s)
    unfolding download_missing try
    download_missing-ok missing old bins s all h =
        let e : add_fetched ext missing old ≡ bins = ground arith in
        (subst (λ b. AllMove ext b) e (add_fetched-AllMove missing old all), ground arith)

    download-ok :
        (found : Found Bin) (bins : Map MigrationName Bin) (s : Repo Text)
        → AllMove ext found.1
        → (download ext fails found s).0 ≡ ok bins
        → AllMove ext bins × ((download ext fails found s).1 ≡ s)
    unfolding download
    download-ok (migrations, old) bins s all h =
        elim (Bool-cases (ltb (length old) (length migrations))) [
          | inl some_missing ↦
              rw (some_missing, download)
                (download_missing-ok (missing_from old migrations) old bins s all
                  (rw (some_missing, download) at h))
          | inr none_missing ↦
              let e : old ≡ bins = ground arith in
              rw (none_missing, download) (subst (λ b. AllMove ext b) e all, refl)
        ]

    run_found_reaches :
        (target from : ℕ) (found : Found Bin) (s : Repo Text)
        → Chain (ltb target from) from target found.0
        → AllMove ext found.1
        → s.version ≡ some from
        → (run_found ext fails from target found s).0 ≡ ok tt
        → (run_found ext fails from target found s).1.version ≡ some target
    unfolding run_found
    run_found_reaches target from found s chain all v h =
        let lost = λ (name : MigrationName). migration_failed name 0 in
        let rest =
          λ (bins : Map MigrationName Bin). run_each ext lost bins (ltb target from) found.0 in
        let (bins, t, e, h1, same) = >>=-ok (download ext fails found) rest s tt h in
        let (moves, kept) = download-ok found bins s all (ap (λ p. p.0) e) in
        let kept' = sym (ap (λ p. p.1) e) ∙ kept in
        ap (λ p. p.1.version) same
        ∙ run_each_reaches ext lost bins (ltb target from) found.0 from target t moves chain
            (ap (λ (r : Repo Text). r.version) kept' ∙ v) h1

    planned_reaches :
        (target from : ℕ) (s : Repo Text)
        → s.version ≡ some from
        → ((lift (find_migrations ext from target) >>= run_found ext fails from target) s).0 ≡ ok tt
        → ((lift (find_migrations ext from target) >>= run_found ext fails from target) s).1.version
          ≡ some target
    planned_reaches target from s v h =
        let (found, e, h1, same) =
          after_lift fails (find_migrations ext from target) (run_found ext fails from target) s
            h in
        let (chain, all) = find_migrations-Chain ext a from target found e in
        ap (λ p. p.1.version) same ∙ run_found_reaches target from found s chain all v h1

    run_from_reaches :
        (target : ℕ) (allow_downgrade : Bool) (from : ℕ) (s : Repo Text)
        → s.version ≡ some from
        → (run_from ext fails target allow_downgrade from s).0 ≡ ok tt
        → (run_from ext fails target allow_downgrade from s).1.version ≡ some target
    unfolding run_from
    run_from_reaches target allow_downgrade from s v h = elim (Bool-cases (nat_eq from target)) [
      | inl same ↦ rw (same, run_from) (v ∙ ap (λ n. some n) (ground arith))
      | inr differs ↦ elim (Bool-cases (ltb target from && not allow_downgrade)) [
        | inl refused ↦ let bad = rw (differs, refused, run_from) at h in cc
        | inr allowed ↦
            rw (differs, allowed, run_from)
              (planned_reaches target from s v (rw (differs, allowed, run_from) at h))
      ]
    ]

    pub run_migration_reaches :
        (target : ℕ) (allow_downgrade : Bool) (s : Repo Text)
        → (run_migration ext fails target allow_downgrade s).0 ≡ ok tt
        → (run_migration ext fails target allow_downgrade s).1.version ≡ some target
    unfolding run_migration
    run_migration_reaches target allow_downgrade s h =
        let (from, v, h1, same) =
          after_version fails (run_from ext fails target allow_downgrade) s h in
        ap (λ p. p.1.version) same ∙ run_from_reaches target allow_downgrade from s v h1

abbrev pub AllEmbedded :
    {Text : Type 0} → (MigrationName → Option (BaseMigration Text)) → List MigrationName → Type 0
AllEmbedded embedded [] = Unit {0}
AllEmbedded embedded (name ∷ migrations) =
    (is_some (embedded name) ≡ true) × AllEmbedded embedded migrations

-- `embedded` finds the built-in migrations, under their names
module _ {Text : Type 0} (fails : Io → Option ℕ)
    (embedded : MigrationName → Option (BaseMigration Text)) where
  run_embedded_migration-ok :
      (name : MigrationName) (reverts : Bool) (s : Repo Text)
      → ((m : BaseMigration Text) → embedded name ≡ some m → m.name ≡ name)
      → (run_embedded_migration fails embedded name reverts s).0 ≡ ok tt
      → (run_embedded_migration fails embedded name reverts s).1.version
        ≡ some (end_of reverts name)
  unfolding run_embedded_migration
  run_embedded_migration-ok name reverts s named h = elim (Option-cases (embedded name)) [
    | inl absent ↦ let bad = rw (absent, run_embedded_migration) at h in cc
    | inr (m, e) ↦
        rw (e, run_embedded_migration)
          (ran reverts m (named m e) (rw (e, run_embedded_migration) at h))
  ]
    where
      ran :
          (reverts : Bool) (m : BaseMigration Text)
          → m.name ≡ name
          → ((if reverts then revert fails m else apply fails m) s).0 ≡ ok tt
          → ((if reverts then revert fails m else apply fails m) s).1.version
            ≡ some (end_of reverts name)
      ran true m same done =
          let (text, g, after) = revert_ok fails m s done in
          ap (λ (t : Repo Text). t.version) after ∙ ap (λ (n : MigrationName). some n.from) same
      ran false m same done =
          let (v, old, new, c, d, after) = apply_ok fails m s done in
          ap (λ (t : Repo Text). t.version) after ∙ ap (λ (n : MigrationName). some n.to) same

  pub run_embedded_list_reaches :
      (named : (name : MigrationName) (m : BaseMigration Text)
        → embedded name ≡ some m
        → m.name ≡ name)
      (reverts : Bool) (migrations : List MigrationName) (from to count : ℕ) (s : Repo Text)
      → AllEmbedded embedded migrations
      → Chain reverts from to migrations
      → s.version ≡ some from
      → (run_embedded_list fails embedded reverts migrations s).0 ≡ ok count
      → (run_embedded_list fails embedded reverts migrations s).1.version ≡ some to
  unfolding run_embedded_list
  run_embedded_list_reaches named reverts [] from to count s all chain v h = cc
  run_embedded_list_reaches named reverts (name ∷ migrations) from to count s (is, all)
        (first, next, chain) v h =
      let third = λ (n : ℕ). pure (suc n) in
      let rest = λ (_ : Unit {0}). run_embedded_list fails embedded reverts migrations >>= third in
      let h0 = rw (is, run_embedded_list) at h in
      let (_, t, e, h1, same) =
        >>=-ok (run_embedded_migration fails embedded name reverts) rest s count h0 in
      let (n, t2, e2, h2, same2) =
        >>=-ok (run_embedded_list fails embedded reverts migrations) third t count h1 in
      let after = run_embedded_migration-ok name reverts s (named name) (ap (λ p. p.0) e) in
      let reached =
        run_embedded_list_reaches named reverts migrations (end_of reverts name) to n t all chain
          (sym (ap (λ p. p.1.version) e) ∙ after) (ap (λ p. p.0) e2) in
      rw (is, run_embedded_list)
        (ap (λ p. p.1.version) (same ∙ same2) ∙ sym (ap (λ p. p.1.version) e2) ∙ reached)
