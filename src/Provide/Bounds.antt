-- ===== src/Provide/Bounds.antt =====
-- The values that ValidateProvideConfig lets through.
use kubo.Common.{
  ◌≡◌, refl, String, Bool, true, false, Option, none, some, Result, ok, arith, Bool-cases,
  Result-cases, inl, inr,
}
use kubo.Common.Results.{◌>>=◌}
use kubo.Provide.Strategy.{ProvideStrategy, parse_provide_strategy}
use kubo.Common.Integers.{ℤ, pos, lt_int}
use kubo.Provide.Config.{
  Flag, with_default, Provide, settings_of, ConfigError, check_value, check_positive,
  check_interval, check_strategy_of, validate_provide_config,
}

-- The checks of a sequence that succeeds.
all_pass :
    {E : Type 0} (a b c d f g h i j k : Result E (Unit {0}))
    → (a >>= λ _.
        b >>= λ _. c >>= λ _. d >>= λ _. f >>= λ _. g >>= λ _. h >>= λ _. i >>= λ _. j >>= λ _. k)
      ≡ ok tt
    → (a ≡ ok tt)
      × (b ≡ ok tt)
      × (c ≡ ok tt)
      × (d ≡ ok tt)
      × (f ≡ ok tt)
      × (g ≡ ok tt)
      × (h ≡ ok tt)
      × (i ≡ ok tt)
      × (j ≡ ok tt)
      × (k ≡ ok tt)
all_pass a b c d f g h i j k e = ground arith

strategy-ok :
    (strategy : Option String)
    → check_strategy_of strategy ≡ ok tt
    → (st : ProvideStrategy) × (parse_provide_strategy (with_default strategy "all") ≡ ok st)
unfolding check_strategy_of
strategy-ok strategy h =
    elim (Result-cases (parse_provide_strategy (with_default strategy "all"))) [
      | inl (st, e) ↦ (st, e)
      | inr (x, e) ↦ let bad = rw (e, check_strategy_of) at h in cc
    ]

-- A value that passes its check, or the default, which must pass too.
check_value-ok :
    (value : Option ℤ) (test : ℤ → Bool) (error : ℤ → ConfigError) (default_value : ℤ)
    → test default_value ≡ false
    → check_value value test error ≡ ok tt
    → test (with_default value default_value) ≡ false
unfolding check_value
check_value-ok none test error default_value fine h = fine
check_value-ok (some v) test error default_value fine h = elim (Bool-cases (test v)) [
  | inl bad ↦ let no = rw bad at h in cc
  | inr good ↦ good
]

check_interval-ok :
    (validity : ℤ) (enabled : Flag) (interval : Option ℤ) (default_value : ℤ)
    → lt_int validity default_value ≡ false
    → lt_int default_value (pos 0) ≡ false
    → check_interval validity enabled interval ≡ ok tt
    → (lt_int validity (with_default interval default_value) ≡ false)
      × (lt_int (with_default interval default_value) (pos 0) ≡ false)
unfolding check_interval
check_interval-ok validity enabled none default_value small fine h = (small, fine)
check_interval-ok validity enabled (some v) default_value small fine h =
    elim (Bool-cases (lt_int validity v)) [
      | inl long ↦ let no = rw long at h in cc
      | inr short ↦ elim (Bool-cases (lt_int v (pos 0))) [
        | inl below ↦ let no = rw (short, below) at h in cc
        | inr above ↦ (short, above)
      ]
    ]

check_positive-ok :
    (value : Option ℤ) (error : ℤ → ConfigError) (default_value : ℤ)
    → lt_int (pos 0) default_value ≡ true
    → check_positive value error ≡ ok tt
    → lt_int (pos 0) (with_default value default_value) ≡ true
unfolding check_value
check_positive-ok none error default_value fine h = fine
check_positive-ok (some v) error default_value fine h = elim (Bool-cases (lt_int (pos 0) v)) [
  | inl above ↦ above
  | inr below ↦ let no = rw below at h in cc
]

-- A Provide section that validates has a strategy that parses, and of the values that a node takes
-- from it, set or by default: one in a million at least for the rate of the bloom filter; the
-- interval is not negative and no longer than the validity of a provider record; the dedicated
-- workers and the delay are not negative; and MaxWorkers, MaxProvideConnsPerWorker,
-- KeystoreBatchSize and the timeout are positive, so that the 0 that the documentation allows for
-- the first three is refused. The validity is assumed to be no shorter than the default interval, 22
-- hours in nanoseconds.
pub validate-bounds :
    (validity : ℤ) (cfg : Provide)
    → lt_int validity (pos 79_200_000_000_000) ≡ false
    → validate_provide_config validity cfg ≡ ok tt
    → let v = settings_of cfg in
      ((st : ProvideStrategy) × (parse_provide_strategy (with_default cfg.strategy "all") ≡ ok st))
      × (lt_int v.bloom_fp_rate (pos 1_000_000) ≡ false)
      × (lt_int validity v.interval ≡ false)
      × (lt_int v.interval (pos 0) ≡ false)
      × (lt_int (pos 0) v.max_workers ≡ true)
      × (lt_int v.periodic_workers (pos 0) ≡ false)
      × (lt_int v.burst_workers (pos 0) ≡ false)
      × (lt_int (pos 0) v.conns_per_worker ≡ true)
      × (lt_int (pos 0) v.keystore_batch_size ≡ true)
      × (lt_int v.offline_delay (pos 0) ≡ false)
      × (lt_int (pos 0) v.record_timeout ≡ true)
unfolding validate_provide_config settings_of
validate-bounds validity cfg small h =
    let (a, b, c, d, f, g, i, j, k, l) = all_pass _ _ _ _ _ _ _ _ _ _ h in
    let (short, above) =
      check_interval-ok validity cfg.enabled cfg.dht.interval (pos 79_200_000_000_000) small refl
        c in
    (
      strategy-ok cfg.strategy a,
      check_value-ok cfg.bloom_fp_rate _ _ (pos 4_750_000) refl b,
      short,
      above,
      check_positive-ok cfg.dht.max_workers _ (pos 16) refl d,
      check_value-ok cfg.dht.dedicated_periodic_workers _ _ (pos 2) refl f,
      check_value-ok cfg.dht.dedicated_burst_workers _ _ (pos 1) refl g,
      check_positive-ok cfg.dht.max_provide_conns_per_worker _ (pos 20) refl i,
      check_positive-ok cfg.dht.keystore_batch_size _ (pos 16384) refl j,
      check_value-ok cfg.dht.offline_delay _ _ (pos 7_200_000_000_000) refl k,
      check_positive-ok cfg.dht.send_provider_record_timeout _ (pos 10_000_000_000) refl l,
    )
