-- ===== src/Migrations/Backup.antt =====
-- Apply and Revert of common/base.go, stage by stage, on success and on failure.
use kubo.Common.{
  ℕ, ◌≡◌, ◌≢◌, ap, sym, ◌∙◌, refl, Option, none, some, Result, ok, err, get, put, delete, arith,
  ◌⊎◌, ==-self, get-put, get-delete, Option-cases, inl, inr,
}
use kubo.Common.Acts.{>>=-ok, >>=-err, ◌>>=◌}
use kubo.Migrations.Repo.{
  MigrationName, MigrationError, Io, read_file, write_backup_file, create_output_file, write_output,
  write_version_file, Repo, check_version, write_version, with_backup, revert_backup, name_eq,
}
use kubo.Migrations.Embedded.{BaseMigration, apply, revert}

module _ {Text : Type 0} (fails : Io → Option ℕ) where
  write_backup_file_ok :
      (name : MigrationName) (text : Text) (s : Repo Text)
      → (write_backup_file fails name text s).0 ≡ ok tt
      → (write_backup_file fails name text s).1 ≡ record s { backups = put s.backups name text }
  unfolding write_backup_file
  write_backup_file_ok name text s h = ground arith

  create_output_file_ok :
      (name : MigrationName) (s : Repo Text)
      → (create_output_file fails name s).0 ≡ ok tt
      → (create_output_file fails name s).1 ≡ s
  unfolding create_output_file
  create_output_file_ok name s h = ground arith

  write_output_ok :
      (name : MigrationName) (converted : Result ℕ Text) (s : Repo Text)
      → (write_output fails name converted s).0 ≡ ok tt
      → (new : Text) × (converted ≡ ok new)
        × ((write_output fails name converted s).1 ≡ record s { config = some new })
  unfolding write_output
  write_output_ok name (err code) s h = absurd (ground arith)
  write_output_ok name (ok new) s h = (new, refl, ground arith)

  read_file_ok :
      (s : Repo Text) (text : Text)
      → (read_file fails s).0 ≡ ok text
      → (s.config ≡ some text) × ((read_file fails s).1 ≡ s)
  unfolding read_file
  read_file_ok s text h = ground arith

  with_backup_err :
      (name : MigrationName) (convert : Text → Result ℕ Text) (s : Repo Text) (e : MigrationError)
      → (with_backup fails name convert s).0 ≡ err e
      → ((with_backup fails name convert s).1.config ≡ s.config)
        × ((with_backup fails name convert s).1.version ≡ s.version)
  unfolding with_backup
  with_backup_err name convert s e h = ground arith

  with_backup_same :
      (name : MigrationName) (convert : Text → Result ℕ Text) (s : Repo Text)
      → (with_backup fails name convert s).1.version ≡ s.version
  unfolding with_backup
  with_backup_same name convert s = ground arith

  check_version_same : (v : ℕ) (s : Repo Text) → (check_version fails v s).1 ≡ s
  unfolding check_version
  check_version_same v s = ground arith

  check_version_ok :
      (v : ℕ) (s : Repo Text) → (check_version fails v s).0 ≡ ok tt → s.version ≡ some v
  unfolding check_version
  check_version_ok v s h = ground arith

  write_version_err :
      (v : ℕ) (s : Repo Text) (e : MigrationError)
      → (write_version fails v s).0 ≡ err e
      → fails write_version_file ≢ none
  unfolding write_version
  write_version_err v s e h = ground arith

  write_version_ok :
      (v : ℕ) (s : Repo Text)
      → (write_version fails v s).0 ≡ ok tt
      → (write_version fails v s).1 ≡ record s { version = some v }
  unfolding write_version
  write_version_ok v s h = ground arith

  -- WithBackup succeeds only with a new config that is the conversion of the old one, which is kept
  -- as the backup; it leaves the version alone.
  with_backup_ok :
      (name : MigrationName) (convert : Text → Result ℕ Text) (s : Repo Text)
      → (with_backup fails name convert s).0 ≡ ok tt
      → (old : Text) × (new : Text) × (s.config ≡ some old)
        × (convert old ≡ ok new)
        × ((with_backup fails name convert s).1
            ≡ record s { config = some new; backups = put s.backups name old })
  unfolding with_backup
  with_backup_ok name convert s h =
      let last = λ (text : Text) (_ : Unit {0}). write_output fails name (convert text) in
      let third = λ (text : Text) (_ : Unit {0}). create_output_file fails name >>= last text in
      let second = λ (text : Text). write_backup_file fails name text >>= third text in
      let (old, s1, e1, h1, same1) = >>=-ok (read_file fails) second s tt h in
      let (config, same) = read_file_ok s old (ap (λ p. p.0) e1) in
      let (_, s2, e2, h2, same2) = >>=-ok (write_backup_file fails name old) (third old) s1 tt h1 in
      let saved = write_backup_file_ok name old s1 (ap (λ p. p.0) e2) in
      let (_, s3, e3, h3, same3) = >>=-ok (create_output_file fails name) (last old) s2 tt h2 in
      let r3 = create_output_file_ok name s2 (ap (λ p. p.0) e3) in
      let (new, c, r4) = write_output_ok name (convert old) s3 h3 in
      let r1 = sym (ap (λ p. p.1) e1) ∙ same in
      let r2 = sym (ap (λ p. p.1) e2) ∙ saved in
      let r =
        sym (ap (λ p. p.1) e3)
        ∙ r3
        ∙ r2
        ∙ ap (λ (t : Repo Text). record t { backups = put t.backups name old }) r1 in
      (
        old,
        new,
        config,
        c,
        ap (λ p. p.1) (same1 ∙ same2 ∙ same3)
            ∙ r4
            ∙ ap (λ (t : Repo Text). record t { config = some new }) r,
      )

  -- An Apply that fails leaves the version and the config as they were, unless what failed was the
  -- write of the version file.
  pub apply_error :
      (m : BaseMigration Text) (s : Repo Text) (e : MigrationError)
      → (apply fails m s).0 ≡ err e
      → (((apply fails m s).1.version ≡ s.version) × ((apply fails m s).1.config ≡ s.config))
        ⊎ (fails write_version_file ≢ none)
  unfolding apply
  apply_error m s e h =
      let last = λ (_ : Unit {0}). write_version fails m.name.to in
      let second = λ (_ : Unit {0}). with_backup fails m.name m.convert >>= last in
      let kept = check_version_same m.name.from s in
      elim (>>=-err (check_version fails m.name.from) second s e h) [
        | inl (h1, same1) ↦ inl (cc kept, cc kept)
        | inr (_, s1, e1, h1, same1) ↦
            elim (>>=-err (with_backup fails m.name m.convert) last s1 e h1) [
              | inl (h2, same2) ↦
                  let (c, v) = with_backup_err m.name m.convert s1 e h2 in inl (cc kept, cc kept)
              | inr (_, s2, e2, h2, same2) ↦ inr (write_version_err m.name.to s2 e h2)
            ]
      ]

  -- An Apply that succeeds started at the migration's first version and ends at its second, with the
  -- converted config and the old one as the backup.
  pub apply_ok :
      (m : BaseMigration Text) (s : Repo Text)
      → (apply fails m s).0 ≡ ok tt
      → (s.version ≡ some m.name.from)
        × (old : Text) × (new : Text) × (s.config ≡ some old)
        × (m.convert old ≡ ok new)
        × ((apply fails m s).1 ≡ record s {
          version = some m.name.to;
          config = some new;
          backups = put s.backups m.name old;
        })
  unfolding apply
  apply_ok m s h =
      let last = λ (_ : Unit {0}). write_version fails m.name.to in
      let second = λ (_ : Unit {0}). with_backup fails m.name m.convert >>= last in
      let (_, s1, e1, h1, same1) = >>=-ok (check_version fails m.name.from) second s tt h in
      let version = check_version_ok m.name.from s (ap (λ p. p.0) e1) in
      let (_, s2, e2, h2, same2) = >>=-ok (with_backup fails m.name m.convert) last s1 tt h1 in
      let (old, new, config, c, r2) = with_backup_ok m.name m.convert s1 (ap (λ p. p.0) e2) in
      let r3 = write_version_ok m.name.to s2 h2 in
      let r1 = sym (ap (λ p. p.1) e1) ∙ check_version_same m.name.from s in
      let r = sym (ap (λ p. p.1) e2) ∙ r2 in
      (
        version,
        old,
        new,
        sym (ap (λ t. t.config) r1) ∙ config,
        c,
        ap (λ p. p.1) (same1 ∙ same2)
            ∙ r3
            ∙ ap (λ (t : Repo Text). record t { version = some m.name.to }) r
            ∙ ap
                (λ (t : Repo Text). record t {
                  version = some m.name.to;
                  config = some new;
                  backups = put t.backups m.name old;
                })
                r1,
      )

  revert_backup_ok :
      (name : MigrationName) (s : Repo Text)
      → (revert_backup fails name s).0 ≡ ok tt
      → (text : Text) × (get s.backups name ≡ some text)
        × ((revert_backup fails name s).1
            ≡ record s { config = some text; backups = delete s.backups name })
  unfolding revert_backup
  revert_backup_ok name s h = elim (Option-cases (get s.backups name)) [
    | inl none_saved ↦ absurd (ground arith)
    | inr (text, e) ↦ (text, e, ground arith)
  ]

  pub revert_ok :
      (m : BaseMigration Text) (s : Repo Text)
      → (revert fails m s).0 ≡ ok tt
      → (text : Text) × (get s.backups m.name ≡ some text)
        × ((revert fails m s).1 ≡ record s {
          version = some m.name.from;
          config = some text;
          backups = delete s.backups m.name;
        })
  unfolding revert
  revert_ok m s h =
      let last = λ (_ : Unit {0}). write_version fails m.name.from in
      let second = λ (_ : Unit {0}). revert_backup fails m.name >>= last in
      let (_, s1, e1, h1, same1) = >>=-ok (check_version fails m.name.to) second s tt h in
      let (_, s2, e2, h2, same2) = >>=-ok (revert_backup fails m.name) last s1 tt h1 in
      let (text, g, r2) = revert_backup_ok m.name s1 (ap (λ p. p.0) e2) in
      let r3 = write_version_ok m.name.from s2 h2 in
      let r1 = sym (ap (λ p. p.1) e1) ∙ check_version_same m.name.to s in
      let r = sym (ap (λ p. p.1) e2) ∙ r2 in
      (
        text,
        sym (ap (λ t. get t.backups m.name) r1) ∙ g,
        ap (λ p. p.1) (same1 ∙ same2)
            ∙ r3
            ∙ ap (λ (t : Repo Text). record t { version = some m.name.from }) r
            ∙ ap
                (λ (t : Repo Text). record t {
                  version = some m.name.from;
                  config = some text;
                  backups = delete t.backups m.name;
                })
                r1,
      )

  -- A Revert that succeeds after an Apply that succeeded restores the version and the config of before,
  -- and uses up the backup.
  pub revert-apply :
      (m : BaseMigration Text) (s : Repo Text)
      → (apply fails m s).0 ≡ ok tt
      → (revert fails m (apply fails m s).1).0 ≡ ok tt
      → ((revert fails m (apply fails m s).1).1.version ≡ s.version)
        × ((revert fails m (apply fails m s).1).1.config ≡ s.config)
        × (get (revert fails m (apply fails m s).1).1.backups m.name ≡ none)
  revert-apply m s h r =
      let (from, old, new, config, c, same) = apply_ok m s h in
      let (text, g, same2) = revert_ok m (apply fails m s).1 r in
      let backups = put s.backups m.name old in
      let back = ap (λ t. get t.backups m.name) same ∙ get-put s.backups m.name m.name old in
      (
        ap (λ t. t.version) same2 ∙ sym from,
        ap (λ t. t.config) same2 ∙ sym g ∙ back ∙ rw (==-self m.name) (sym config),
        ap (λ t. get t.backups m.name) same2
            ∙ get-delete (apply fails m s).1.backups m.name m.name
            ∙ rw (==-self m.name),
      )
