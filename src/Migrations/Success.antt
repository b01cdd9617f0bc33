-- ===== src/Migrations/Success.antt =====
-- Where the phases of RunHybridMigrations end, with the built-in migrations.
use kubo.Common.{
  ℕ, suc, ◌≤◌, ◌≡◌, refl, ap, sym, subst, ◌∙◌, Bool, true, false, not, ◌&&◌, Option, none, some,
  List, [], ◌∷◌, Result, ok, if◌then◌else◌, arith, Bool-cases, inl, inr, ltb, is_some, nat_eq, ==→≡,
  ◌==◌,
}
use kubo.Common.Acts.{pure, fail, lift, >>=-ok, ◌>>=◌}
use kubo.Migrations.Repo.{MigrationName, name_eq, no_embedded_found, Io, not_in_path, Repo, Step}
use kubo.Migrations.Embedded.{BaseMigration, embedded_16_17, embedded_17_18, migrations_by_name}
use kubo.Migrations.Plan.{External, Found, find_migrations, run_migration}
use kubo.Migrations.Hybrid.{
  run_embedded_list, run_embedded_found, run_embedded_from, run_embedded_migrations_unlocked,
  all_found, answer, run_downloaded, run_external_found, run_external,
}
use kubo.Migrations.Reach.{Chain, Binaries, AllMove, find_migrations-Chain, run_each_reaches}
use kubo.Migrations.Target.{
  after_version, after_lift, AllEmbedded, run_embedded_list_reaches, run_migration_reaches,
}

-- The versions that the built-in migrations lead between.
abbrev pub InRange : ℕ → Type 0
InRange v = (16 ≤ v) × (v ≤ 18)

Chain-up : (from to : ℕ) (ms : List MigrationName) → Chain false from to ms → from ≤ to
Chain-up from to [] chain = omega arith
Chain-up from to (name ∷ ms) (first, next, chain) = omega (arith, Chain-up name.to to ms chain)

Chain-down : (from to : ℕ) (ms : List MigrationName) → Chain true from to ms → to ≤ from
Chain-down from to [] chain = omega arith
Chain-down from to (name ∷ ms) (first, next, chain) =
    omega (arith, Chain-down name.from to ms chain)

some_inj : {A : Type 0} (a b : A) → ◌≡◌ {A = Option A} (some a) (some b) → a ≡ b
some_inj a b h = cc

module _ {Text : Type 0} (convert_16 convert_17 : Text → Result ℕ Text) where
  abbrev built_in : MigrationName → Option (BaseMigration Text)
  built_in = migrations_by_name convert_16 convert_17

  built_in-named :
      (name : MigrationName) (m : BaseMigration Text) → built_in name ≡ some m → m.name ≡ name
  unfolding migrations_by_name
  built_in-named name m h = elim (Bool-cases (name == embedded_16_17)) [
    | inl same ↦
        ap (λ (n : BaseMigration Text). n.name) (sym (some_inj _ _ (rw same at h)))
        ∙ sym (==→≡ name embedded_16_17 same)
    | inr other ↦ elim (Bool-cases (name == embedded_17_18)) [
      | inl same ↦
          ap (λ (n : BaseMigration Text). n.name) (sym (some_inj _ _ (rw (other, same) at h)))
          ∙ sym (==→≡ name embedded_17_18 same)
      | inr neither ↦ let bad = rw (other, neither) at h in cc
    ]
  ]

  built_in-some :
      (name : MigrationName)
      → name.to ≡ suc name.from
      → 16 ≤ name.from
      → name.to ≤ 18
      → is_some (built_in name) ≡ true
  unfolding migrations_by_name
  built_in-some name next low high = ground arith

  Chain-AllEmbedded :
      (down : Bool) (from to : ℕ) (ms : List MigrationName)
      → InRange from
      → InRange to
      → Chain down from to ms
      → AllEmbedded built_in ms
  Chain-AllEmbedded down from to [] f t chain = tt
  Chain-AllEmbedded false from to (name ∷ ms) f t (first, next, chain) =
      let below = Chain-up name.to to ms chain in
      (
        built_in-some name next (omega arith) (omega arith),
        Chain-AllEmbedded false name.to to ms (omega arith, omega arith) t chain,
      )
  Chain-AllEmbedded true from to (name ∷ ms) f t (first, next, chain) =
      let above = Chain-down name.from to ms chain in
      (
        built_in-some name next (omega arith) (omega arith),
        Chain-AllEmbedded true name.from to ms (omega arith, omega arith) t chain,
      )

  module _ {Bin : Type 0} (fails : Io → Option ℕ) (ext : External Text Bin) (a : Binaries ext) where
    run_embedded_found_reaches :
        (target from : ℕ) (migrations : List MigrationName) (s : Repo Text)
        → InRange from
        → InRange target
        → Chain (ltb target from) from target migrations
        → s.version ≡ some from
        → (run_embedded_found fails built_in target from migrations s).0 ≡ ok tt
        → (run_embedded_found fails built_in target from migrations s).1.version ≡ some target
    unfolding run_embedded_found
    run_embedded_found_reaches target from migrations s f t chain v h =
        let check = λ (count : ℕ). answer_of count in
        let (count, r, e, h1, same) =
          >>=-ok (run_embedded_list fails built_in (ltb target from) migrations) check s tt h in
        let reached =
          run_embedded_list_reaches fails built_in built_in-named (ltb target from) migrations from
            target count s (Chain-AllEmbedded (ltb target from) from target migrations f t chain)
            chain v (ap (λ p. p.0) e) in
        ap (λ p. p.1.version) same ∙ kept count r ∙ sym (ap (λ p. p.1.version) e) ∙ reached
      where
        answer_of : ℕ → Step Text Unit
        answer_of count = if nat_eq count 0 then fail (no_embedded_found from target) else pure tt

        kept : (count : ℕ) (r : Repo Text) → (answer_of count r).1.version ≡ r.version
        kept count r = ground arith

    planned :
        (target from : ℕ) (s : Repo Text)
        → InRange target
        → InRange from
        → s.version ≡ some from
        → ((lift (find_migrations ext from target)
              >>= (λ found. run_embedded_found fails built_in target from found.0))
            s).0
          ≡ ok tt
        → ((lift (find_migrations ext from target)
              >>= (λ found. run_embedded_found fails built_in target from found.0))
            s).1.version
          ≡ some target
    planned target from s t f v h =
        let run = λ (found : Found Bin). run_embedded_found fails built_in target from found.0 in
        let (found, e, h1, same) = after_lift fails (find_migrations ext from target) run s h in
        let (chain, all) = find_migrations-Chain ext a from target found e in
        ap (λ p. p.1.version) same ∙ run_embedded_found_reaches target from found.0 s f t chain v h1

    embedded_from_reaches :
        (target : ℕ) (allow_downgrade : Bool) (from : ℕ) (s : Repo Text)
        → InRange target
        → InRange from
        → s.version ≡ some from
        → (run_embedded_from fails built_in ext target allow_downgrade from s).0 ≡ ok tt
        → (run_embedded_from fails built_in ext target allow_downgrade from s).1.version
          ≡ some target
    unfolding run_embedded_from
    embedded_from_reaches target allow_downgrade from s t f v h =
        elim (Bool-cases (nat_eq from target)) [
          | inl same ↦ rw (same, run_embedded_from) (v ∙ ap (λ n. some n) (ground arith))
          | inr differs ↦ elim (Bool-cases (ltb target from && not allow_downgrade)) [
            | inl refused ↦ let bad = rw (differs, refused, run_embedded_from) at h in cc
            | inr allowed ↦
                rw (differs, allowed, run_embedded_from)
                  (planned target from s t f v (rw (differs, allowed, run_embedded_from) at h))
          ]
        ]

    pub embedded_reaches :
        (target : ℕ) (allow_downgrade : Bool) (s : Repo Text) (from : ℕ)
        → InRange target
        → s.version ≡ some from
        → InRange from
        → (run_embedded_migrations_unlocked fails built_in ext target allow_downgrade s).0 ≡ ok tt
        → (run_embedded_migrations_unlocked fails built_in ext target allow_downgrade s).1.version
          ≡ some target
    unfolding run_embedded_migrations_unlocked
    embedded_reaches target allow_downgrade s from t v f h =
        let run = run_embedded_from fails built_in ext target allow_downgrade in
        let (from', v', h1, same) = after_version fails run s h in
        let f' = subst InRange (some_inj from from' (sym v ∙ v')) f in
        ap (λ p. p.1.version) same ∙ embedded_from_reaches target allow_downgrade from' s t f' v' h1

module _ {Text Bin : Type 0} (fails : Io → Option ℕ) (ext : External Text Bin)
    (a : Binaries ext) where
  after_answer :
      (failed : Option ℕ) (f : Step Text Unit) (s : Repo Text)
      → ((answer failed >>= λ _. f) s).0 ≡ ok tt
      → ((f s).0 ≡ ok tt) × ((answer failed >>= λ _. f) s ≡ f s)
  unfolding answer
  after_answer none f s h = (h, refl)
  after_answer (some code) f s h = cc

  run_downloaded_reaches :
      (target : ℕ) (allow_downgrade : Bool) (s : Repo Text)
      → (run_downloaded fails ext target allow_downgrade s).0 ≡ ok tt
      → (run_downloaded fails ext target allow_downgrade s).1.version ≡ some target
  unfolding run_downloaded
  run_downloaded_reaches target allow_downgrade s h =
      let last = run_migration ext fails target allow_downgrade in
      let second = answer ext.get_migration_fetcher >>= λ _. last in
      let (h1, same1) = after_answer ext.read_migration_config second s h in
      let (h2, same2) = after_answer ext.get_migration_fetcher last s h1 in
      ap (λ p. p.1.version) (same1 ∙ same2)
      ∙ run_migration_reaches ext a fails target allow_downgrade s h2

  run_external_found_reaches :
      (from target : ℕ) (allow_downgrade reverts : Bool) (found : Found Bin) (s : Repo Text)
      → Chain reverts from target found.0
      → AllMove ext found.1
      → s.version ≡ some from
      → (run_external_found fails ext target allow_downgrade reverts found s).0 ≡ ok tt
      → (run_external_found fails ext target allow_downgrade reverts found s).1.version
        ≡ some target
  unfolding run_external_found
  run_external_found_reaches from target allow_downgrade reverts (migrations, bins) s chain all v
        h =
      elim (Bool-cases (all_found bins migrations)) [
        | inl here ↦
            rw (here, run_external_found)
              (run_each_reaches ext not_in_path bins reverts migrations from target s all chain v
                (rw (here, run_external_found) at h))
        | inr absent ↦
            rw (absent, run_external_found)
              (run_downloaded_reaches target allow_downgrade s
                (rw (absent, run_external_found) at h))
      ]

  pub run_external_reaches :
      (from target : ℕ) (allow_downgrade reverts : Bool) (s : Repo Text)
      → reverts ≡ ltb target from
      → s.version ≡ some from
      → (run_external fails ext from target allow_downgrade reverts s).0 ≡ ok tt
      → (run_external fails ext from target allow_downgrade reverts s).1.version ≡ some target
  unfolding run_external
  run_external_reaches from target allow_downgrade reverts s way v h =
      let run = run_external_found fails ext target allow_downgrade reverts in
      let (found, e, h1, same) = after_lift fails (find_migrations ext from target) run s h in
      let (chain, all) = find_migrations-Chain ext a from target found e in
      let chain' = subst (λ d. Chain d from target found.0) (sym way) chain in
      ap (λ p. p.1.version) same
      ∙ run_external_found_reaches from target allow_downgrade reverts found s chain' all v h1
