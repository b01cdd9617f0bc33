-- ===== src/Migrations/Reach.antt =====
-- The plan of findMigrations as a chain of versions, and runs over a chain.
use kubo.Common.{
  ℕ, zero, suc, ◌+◌, ◌-◌, ◌≤◌, ◌≡◌, ◌≢◌, refl, ap, sym, subst, ◌∙◌, Bool, true, false, Option, none,
  some, List, [], ◌∷◌, Result, ok, err, if◌then◌else◌, Map, get, put, get-put, ==→≡, arith,
  Option-cases, Bool-cases, inl, inr, ltb,
}
use kubo.Common.Acts.{>>=-ok}
use kubo.Migrations.Repo.{MigrationName, name_eq, MigrationError, Repo}
use kubo.Migrations.Plan.{
  External, Found, add_found, add_found_result, find_steps, find_migrations, run_binary, run_one,
  run_each,
}

-- The version that a migration starts from and the one that it ends at.
abbrev pub start_of : Bool → MigrationName → ℕ
start_of down name = if down then name.to else name.from

abbrev pub end_of : Bool → MigrationName → ℕ
end_of down name = if down then name.from else name.to

-- The migrations lead from one version to the other, one version at a time.
abbrev pub Chain : Bool → ℕ → ℕ → List MigrationName → Type 0
Chain down from to [] = from ≡ to
Chain down from to (name ∷ migrations) =
    (start_of down name ≡ from)
    × (name.to ≡ suc name.from)
    × Chain down (end_of down name) to migrations

-- A binary does what the migration of this name does: it succeeds only from the version that it
-- starts from, and leaves the one that it ends at.
abbrev pub Moves : {Text Bin : Type 0} → External Text Bin → MigrationName → Bin → Type 0
Moves {Text} ext name bin =
    (reverts : Bool) (s : Repo Text)
    → (ext.run bin reverts s).0 ≡ none
    → (s.version ≡ some (start_of reverts name))
      × ((ext.run bin reverts s).1.version ≡ some (end_of reverts name))

pub record Binaries {Text Bin : Type 0} (ext : External Text Bin) : Type 0 where
  pub look_path-moves :
      (name : MigrationName) (b : Bin) → ext.look_path name ≡ some b → Moves ext name b
  pub fetch-moves : (name : MigrationName) (b : Bin) → ext.fetch name ≡ some b → Moves ext name b

abbrev pub AllMove : {Text Bin : Type 0} → External Text Bin → Map MigrationName Bin → Type 0
AllMove {Bin = Bin} ext bins =
    (name : MigrationName) (b : Bin) → get bins name ≡ some b → Moves ext name b

some_inj : {A : Type 0} (a b : A) → ◌≡◌ {A = Option A} (some a) (some b) → a ≡ b
some_inj a b h = cc

none_not_some : {A : Type 0} (a : A) → ◌≢◌ {A = Option A} none (some a)
none_not_some a h = cc

if_true : {A : Type 0} {b : Bool} (x y : A) → b ≡ true → (if b then x else y) ≡ x
if_true x y h = rw h

if_false : {A : Type 0} {b : Bool} (x y : A) → b ≡ false → (if b then x else y) ≡ y
if_false x y h = rw h

module _ {Text Bin : Type 0} (ext : External Text Bin) where
  pub put-AllMove :
      (bins : Map MigrationName Bin) (name : MigrationName) (b : Bin)
      → AllMove ext bins
      → Moves ext name b
      → AllMove ext (put bins name b)
  put-AllMove bins name b all moves other c h = elim (Bool-cases (name_eq.beq name other)) [
    | inl same ↦
        let value = get-put bins name other b ∙ if_true _ _ same in
        subst (λ c'. Moves ext other c') (some_inj b c (sym value ∙ h))
          (subst (λ n. Moves ext n b) (==→≡ name other same) moves)
    | inr differs ↦
        let value = get-put bins name other b ∙ if_false _ _ differs in all other c (sym value ∙ h)
  ]

  empty-AllMove : AllMove ext []
  empty-AllMove name b h = absurd (none_not_some b h)

  add_found-ok :
      (name : MigrationName) (rest : Result MigrationError (Found Bin)) (found : Found Bin)
      → add_found_result ext name rest ≡ ok found
      → (r : Found Bin) × (rest ≡ ok r) × (add_found ext name r ≡ found)
  add_found-ok name (ok r) found h = (r, refl, cc)
  add_found-ok name (err e) found h = cc

  found-Chain :
      (down : Bool) (name : MigrationName) (to : ℕ) (rest found : Found Bin)
      → name.to ≡ suc name.from
      → Chain down (end_of down name) to rest.0
      → add_found ext name rest ≡ found
      → Chain down (start_of down name) to found.0
  unfolding add_found
  found-Chain down name to rest found next chain same =
      subst (λ (f : Found Bin). Chain down (start_of down name) to f.0) same (refl, next, chain)

  found_moves :
      (a : Binaries ext) (name : MigrationName) (rest found : Found Bin)
      → AllMove ext rest.1
      → add_found ext name rest ≡ found
      → AllMove ext found.1
  unfolding add_found
  found_moves a name rest found all same = elim (Option-cases (ext.look_path name)) [
    | inl absent ↦ subst (λ (f : Found Bin). AllMove ext f.1) same (rw absent all)
    | inr (b, e) ↦
        subst (λ (f : Found Bin). AllMove ext f.1) same
          (rw e (put-AllMove rest.1 name b all (a.look_path-moves name b e)))
  ]

  no_migrations :
      (down : Bool) (from to : ℕ) (found : Found Bin)
      → from ≡ to
      → ◌≡◌ {A = Result MigrationError (Found Bin)} (ok ([], [])) (ok found)
      → Chain down from to found.0 × AllMove ext found.1
  no_migrations down from to found same h =
      let nothing : Found Bin = ([], []) in
      let e : nothing ≡ found = cc in
      subst (λ (f : Found Bin). Chain down from to f.0 × AllMove ext f.1) e (same, empty-AllMove)

  find_steps-up :
      (a : Binaries ext) (count cur : ℕ) (found : Found Bin)
      → find_steps ext false count cur ≡ ok found
      → Chain false cur (cur + count) found.0 × AllMove ext found.1
  unfolding find_steps
  find_steps-up a zero cur found h = no_migrations false cur (cur + zero) found (omega arith) h
  find_steps-up a (suc count) cur found h = elim (Bool-cases (ext.ctx_done cur)) [
    | inl done ↦ let bad = rw done at h in cc
    | inr going ↦
        let name : MigrationName = record { from = cur; to = suc cur } in
        let (rest, e, same) =
          add_found-ok name (find_steps ext false count (suc cur)) found (rw going at h) in
        let (chain, moves) = find_steps-up a count (suc cur) rest e in
        (
          found-Chain false name (cur + suc count) rest found refl
              (subst (λ t. Chain false (suc cur) t rest.0) (omega arith) chain) same,
          found_moves a name rest found moves same,
        )
  ]

  find_steps-down :
      (a : Binaries ext) (count cur : ℕ) (found : Found Bin)
      → count ≤ cur
      → find_steps ext true count cur ≡ ok found
      → Chain true cur (cur - count) found.0 × AllMove ext found.1
  unfolding find_steps
  find_steps-down a zero cur found enough h =
      no_migrations true cur (cur - zero) found (omega arith) h
  find_steps-down a (suc count) cur found enough h = elim (Bool-cases (ext.ctx_done cur)) [
    | inl done ↦ let bad = rw done at h in cc
    | inr going ↦
        let name : MigrationName = record { from = cur - 1; to = cur } in
        let (rest, e, same) =
          add_found-ok name (find_steps ext true count (cur - 1)) found (rw going at h) in
        let (chain, moves) = find_steps-down a count (cur - 1) rest (omega arith) e in
        (
          found-Chain true name (cur - suc count) rest found (omega arith)
              (subst (λ t. Chain true (cur - 1) t rest.0) (omega arith) chain) same,
          found_moves a name rest found moves same,
        )
  ]

  -- What findMigrations plans leads from the first version to the second, one version at a time,
  -- and each binary that it found does what its migration does.
  pub find_migrations-Chain :
      (a : Binaries ext) (from to : ℕ) (found : Found Bin)
      → find_migrations ext from to ≡ ok found
      → Chain (ltb to from) from to found.0 × AllMove ext found.1
  unfolding find_migrations
  find_migrations-Chain a from to found h = elim (Bool-cases (ltb to from)) [
    | inl down ↦ rw down (
        subst (λ t. Chain true from t found.0 × AllMove ext found.1) (ground arith)
          (find_steps-down a (from - to) from found (ground arith) (rw down at h)))
    | inr up ↦ rw up (
        subst (λ t. Chain false from t found.0 × AllMove ext found.1) (ground arith)
          (find_steps-up a (to - from) from found (rw up at h)))
  ]

  run_binary-ok :
      (name : MigrationName) (b : Bin) (reverts : Bool) (s : Repo Text)
      → Moves ext name b
      → (run_binary ext name b reverts s).0 ≡ ok tt
      → (s.version ≡ some (start_of reverts name))
        × ((run_binary ext name b reverts s).1.version ≡ some (end_of reverts name))
  unfolding run_binary
  run_binary-ok name b reverts s moves h = moves reverts s (ground arith)

  pub run_one-ok :
      (lost : MigrationName → MigrationError) (bins : Map MigrationName Bin) (reverts : Bool)
      (name : MigrationName) (s : Repo Text)
      → AllMove ext bins
      → (run_one ext lost bins reverts name s).0 ≡ ok tt
      → (s.version ≡ some (start_of reverts name))
        × ((run_one ext lost bins reverts name s).1.version ≡ some (end_of reverts name))
  unfolding run_one
  run_one-ok lost bins reverts name s all h = elim (Option-cases (get bins name)) [
    | inl absent ↦ absurd (ground arith)
    | inr (b, e) ↦
        rw (e, run_one) (run_binary-ok name b reverts s (all name b e) (rw (e, run_one) at h))
  ]

  -- A run over a chain ends at its last version.
  pub run_each_reaches :
      (lost : MigrationName → MigrationError) (bins : Map MigrationName Bin) (reverts : Bool)
      (migrations : List MigrationName) (from to : ℕ) (s : Repo Text)
      → AllMove ext bins
      → Chain reverts from to migrations
      → s.version ≡ some from
      → (run_each ext lost bins reverts migrations s).0 ≡ ok tt
      → (run_each ext lost bins reverts migrations s).1.version ≡ some to
  unfolding run_each
  run_each_reaches lost bins reverts [] from to s all chain v h = cc
  run_each_reaches lost bins reverts (name ∷ migrations) from to s all (first, next, chain) v h =
      let rest = λ (_ : Unit {0}). run_each ext lost bins reverts migrations in
      let (_, t, e, h1, same) = >>=-ok (run_one ext lost bins reverts name) rest s tt h in
      let (_, after) = run_one-ok lost bins reverts name s all (ap (λ p. p.0) e) in
      ap (λ p. p.1.version) same
      ∙ run_each_reaches lost bins reverts migrations (end_of reverts name) to t all chain
          (sym (ap (λ p. p.1.version) e) ∙ after) h1
