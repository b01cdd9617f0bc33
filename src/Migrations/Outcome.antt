-- ===== src/Migrations/Outcome.antt =====
-- Where RunHybridMigrations ends, in each of its cases.
use kubo.Common.{
  ℕ, ◌≤◌, ◌<◌, ◌≡◌, ◌≢◌, ap, sym, subst, ◌∙◌, Bool, true, false, not, ◌&&◌, Option, some, List, [],
  ◌∷◌, Result, ok, if◌then◌else◌, Map, arith, Option-cases, Bool-cases, inl, inr, ltb, nat_eq, ◌⊎◌,
}
use kubo.Common.Acts.{pure, >>=-ok, ◌>>=◌}
use kubo.Migrations.Repo.{
  MigrationName, name_eq, Io, stat_dir, lock_repo, not_in_path, Repo, Step, try, repo_version,
}
use kubo.Migrations.Embedded.{migrations_by_name}
use kubo.Migrations.Plan.{External, Found, find_migrations, run_one, run_each}
use kubo.Migrations.Hybrid.{
  embedded_min, run_embedded_migrations_unlocked, all_found, run_external_found, run_external,
  run_reverse, run_case, run_hybrid_from, run_hybrid_migrations,
}
use kubo.Migrations.Reach.{Chain, Binaries, AllMove, find_migrations-Chain, run_one-ok}
use kubo.Migrations.Success.{embedded_reaches, run_external_reaches}

module _ {Text Bin : Type 0} (fails : Io → Option ℕ) (convert_16 convert_17 : Text → Result ℕ Text)
    (ext : External Text Bin) (a : Binaries ext) where
  abbrev hybrid_from : ℕ → Bool → ℕ → Step Text Unit
  hybrid_from = run_hybrid_from fails (migrations_by_name convert_16 convert_17) ext

  abbrev unlocked : ℕ → Bool → Step Text Unit
  unlocked = run_embedded_migrations_unlocked fails (migrations_by_name convert_16 convert_17) ext

  abbrev run : ℕ → ℕ → Bool → Step Text Unit
  run = run_case fails (migrations_by_name convert_16 convert_17) ext

  after_lock :
      (f : ℕ → Step Text Unit) (s : Repo Text)
      → ((try fails stat_dir >>= λ _. try fails lock_repo >>= λ _. repo_version fails >>= f) s).0
        ≡ ok tt
      → (from : ℕ) × (s.version ≡ some from)
        × ((f from s).0 ≡ ok tt)
        × ((try fails stat_dir >>= λ _. try fails lock_repo >>= λ _. repo_version fails >>= f) s
            ≡ f from s)
  unfolding try repo_version
  after_lock f s h = elim (Option-cases s.version) [
    | inl missing ↦ absurd (ground arith)
    | inr (v, e) ↦ (v, e, ground arith, ground arith)
  ]

  then_reaches :
      (middle target : ℕ) (m f : Step Text Unit) (s : Repo Text)
      → ((m s).0 ≡ ok tt → (m s).1.version ≡ some middle)
      → ((t : Repo Text)
          → t.version ≡ some middle
          → (f t).0 ≡ ok tt
          → (f t).1.version ≡ some target)
      → ((m >>= λ _. f) s).0 ≡ ok tt
      → ((m >>= λ _. f) s).1.version ≡ some target
  then_reaches middle target m f s first second h =
      let rest = λ (_ : Unit {0}). f in
      let (_, s1, e, h1, same) = >>=-ok m rest s tt h in
      let v = sym (ap (λ p. p.1.version) e) ∙ first (ap (λ p. p.0) e) in
      ap (λ p. p.1.version) same ∙ second s1 v h1

  first_down :
      (current : ℕ) (allow : Bool) (s : Repo Text)
      → 16 ≤ current
      → current ≤ 18
      → s.version ≡ some current
      → ((if ltb embedded_min current then unlocked 16 allow else pure tt) s).0 ≡ ok tt
      → ((if ltb embedded_min current then unlocked 16 allow else pure tt) s).1.version ≡ some 16
  first_down current allow s low high v h = elim (Bool-cases (ltb embedded_min current)) [
    | inl above ↦ rw above (
        embedded_reaches convert_16 convert_17 fails ext a 16 allow s current
          (omega arith, omega arith) v (low, high) (rw above at h))
    | inr at ↦ rw at (v ∙ ap (λ n. some n) (ground arith))
  ]

  second_down :
      (target : ℕ) (allow : Bool) (t : Repo Text)
      → target < 16
      → t.version ≡ some 16
      → ((if ltb target embedded_min
            then run_external fails ext embedded_min target allow true
            else pure tt)
          t).0
        ≡ ok tt
      → ((if ltb target embedded_min
            then run_external fails ext embedded_min target allow true
            else pure tt)
          t).1.version
        ≡ some target
  second_down target allow t below v h =
      let is : ltb target embedded_min ≡ true = ground arith in
      rw is (run_external_reaches fails ext a 16 target allow true t (sym is) v (rw is at h))

  reverse_reaches :
      (current target : ℕ) (allow : Bool) (s : Repo Text)
      → 16 ≤ current
      → current ≤ 18
      → target < 16
      → s.version ≡ some current
      → (run_reverse fails (migrations_by_name convert_16 convert_17) ext current target allow s).0
        ≡ ok tt
      → (run_reverse fails
          (migrations_by_name convert_16 convert_17)
          ext
          current
          target
          allow
          s).1.version
        ≡ some target
  unfolding run_reverse
  reverse_reaches current target allow s low high below v h =
      then_reaches 16 target (if ltb embedded_min current then unlocked 16 allow else pure tt)
        (if ltb target embedded_min
          then run_external fails ext embedded_min target allow true
          else pure tt)
        s (first_down current allow s low high v) (λ t. second_down target allow t below) h

  case_reaches :
      (current target : ℕ) (allow : Bool) (s : Repo Text)
      → current ≤ 18
      → target ≤ 18
      → (16 ≤ current) ⊎ (current ≤ target)
      → s.version ≡ some current
      → (run current target allow s).0 ≡ ok tt
      → (run current target allow s).1.version ≡ some target
  unfolding run_case
  case_reaches current target allow s c t way v h = elim (Bool-cases (ltb current embedded_min)) [
    | inr high ↦ elim (Bool-cases (ltb target embedded_min)) [
      | inr up ↦
          rw (high, up, run_case)
            (embedded_reaches convert_16 convert_17 fails ext a target allow s current
              (ground arith, t) v (ground arith, c) (rw (high, up, run_case) at h))
      | inl down ↦
          rw (high, down, run_case)
            (reverse_reaches current target allow s (ground arith) c (ground arith) v
              (rw (high, down, run_case) at h))
    ]
    | inl low ↦ elim (Bool-cases (ltb target embedded_min)) [
      | inl both ↦
          rw (low, both, run_case)
            (run_external_reaches fails ext a current target allow false s (ground arith) v
              (rw (low, both, run_case) at h))
      | inr mixed ↦
          rw (low, mixed, run_case)
            (then_reaches 16 target (run_external fails ext current embedded_min allow false)
              (unlocked target allow) s
              (run_external_reaches fails ext a current 16 allow false s (ground arith) v)
              (λ r w k.
                embedded_reaches convert_16 convert_17 fails ext a target allow r 16
                  (ground arith, t) w (omega arith, omega arith) k)
              (rw (low, mixed, run_case) at h))
    ]
  ]

  hybrid_from_reaches :
      (target : ℕ) (allow : Bool) (current : ℕ) (s : Repo Text)
      → current ≤ 18
      → target ≤ 18
      → (16 ≤ current) ⊎ (current ≤ target)
      → s.version ≡ some current
      → (hybrid_from target allow current s).0 ≡ ok tt
      → (hybrid_from target allow current s).1.version ≡ some target
  unfolding run_hybrid_from
  hybrid_from_reaches target allow current s c t way v h =
      elim (Bool-cases (nat_eq current target)) [
        | inl same ↦ rw (same, run_hybrid_from) (v ∙ ap (λ n. some n) (ground arith))
        | inr differs ↦ elim (Bool-cases (ltb target current && not allow)) [
          | inl refused ↦ let bad = rw (differs, refused, run_hybrid_from) at h in cc
          | inr allowed ↦
              rw (differs, allowed, run_hybrid_from)
                (case_reaches current target allow s c t way v
                  (rw (differs, allowed, run_hybrid_from) at h))
        ]
      ]

  -- For versions up to 18, a RunHybridMigrations that returns no error leaves the repository at the
  -- target version. The binaries that it finds or downloads are assumed to do what their migrations
  -- do, and it is not a downgrade that starts below version 16.
  pub hybrid_reaches_target :
      (target current : ℕ) (allow : Bool) (s : Repo Text)
      → s.version ≡ some current
      → current ≤ 18
      → target ≤ 18
      → (16 ≤ current) ⊎ (current ≤ target)
      → (run_hybrid_migrations fails
          (migrations_by_name convert_16 convert_17)
          ext
          target
          allow
          s).0
        ≡ ok tt
      → (run_hybrid_migrations fails
          (migrations_by_name convert_16 convert_17)
          ext
          target
          allow
          s).1.version
        ≡ some target
  unfolding run_hybrid_migrations
  hybrid_reaches_target target current allow s v c t way h =
      let (from, v1, h1, same) = after_lock (hybrid_from target allow) s h in
      let e : current ≡ from = ground arith in
      ap (λ p. p.1.version) same
      ∙ hybrid_from_reaches target allow from s (subst (λ n. n ≤ 18) e c) t
          (subst (λ n. (16 ≤ n) ⊎ (n ≤ target)) e way) v1 h1

  first_downgrade :
      (bins : Map MigrationName Bin) (current target : ℕ) (migrations : List MigrationName)
      (s : Repo Text)
      → AllMove ext bins
      → Chain true current target migrations
      → target < current
      → s.version ≡ some current
      → (run_each ext not_in_path bins false migrations s).0 ≢ ok tt
  unfolding run_each
  first_downgrade bins current target [] s all chain below v h = omega arith
  first_downgrade bins current target (name ∷ migrations) s all (first, next, chain) below v h =
      let rest = λ (_ : Unit {0}). run_each ext not_in_path bins false migrations in
      let (_, t, e, h1, same) = >>=-ok (run_one ext not_in_path bins false name) rest s tt h in
      let (v1, after) = run_one-ok ext not_in_path bins false name s all (ap (λ p. p.0) e) in
      ground arith

  legacy_external_fails :
      (target current : ℕ) (allow : Bool) (s : Repo Text) (found : Found Bin)
      → s.version ≡ some current
      → target < current
      → find_migrations ext current target ≡ ok found
      → all_found found.1 found.0 ≡ true
      → (run_external fails ext current target allow false s).0 ≢ ok tt
  unfolding run_external run_external_found
  legacy_external_fails target current allow s found v below plan here h =
      let (chain, all) = find_migrations-Chain ext a current target found plan in
      let is : ltb target current ≡ true = ground arith in
      first_downgrade found.1 current target found.0 s all
        (subst (λ d. Chain d current target found.0) is chain) below v (rw (plan, here) at h)

  legacy_case_fails :
      (target current : ℕ) (allow : Bool) (s : Repo Text) (found : Found Bin)
      → s.version ≡ some current
      → target < current
      → current < 16
      → find_migrations ext current target ≡ ok found
      → all_found found.1 found.0 ≡ true
      → (hybrid_from target allow current s).0 ≢ ok tt
  unfolding run_hybrid_from run_case
  legacy_case_fails target current allow s found v below low plan here h =
      let low' : ltb current embedded_min ≡ true = ground arith in
      let both : ltb target embedded_min ≡ true = ground arith in
      let differs : nat_eq current target ≡ false = ground arith in
      elim (Bool-cases (ltb target current && not allow)) [
        | inl refused ↦ let bad = rw (differs, refused) at h in cc
        | inr allowed ↦
            legacy_external_fails target current allow s found v below plan here
              (rw (differs, allowed, low', both) at h)
      ]

  -- A downgrade that starts below version 16, with a binary of each migration on the PATH, never
  -- succeeds, if the binaries do what their migrations do: they are run without -revert.
  pub legacy_downgrade_fails :
      (target current : ℕ) (allow : Bool) (s : Repo Text) (found : Found Bin)
      → s.version ≡ some current
      → target < current
      → current < 16
      → find_migrations ext current target ≡ ok found
      → all_found found.1 found.0 ≡ true
      → (run_hybrid_migrations fails
          (migrations_by_name convert_16 convert_17)
          ext
          target
          allow
          s).0
        ≢ ok tt
  unfolding run_hybrid_migrations
  legacy_downgrade_fails target current allow s found v below low plan here h =
      let (from, v1, h1, same) = after_lock (hybrid_from target allow) s h in
      let e : from ≡ current = ground arith in
      legacy_case_fails target current allow s found v below low plan here
        (subst (λ n. (hybrid_from target allow n s).0 ≡ ok tt) e h1)
