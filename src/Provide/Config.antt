-- ===== src/Provide/Config.antt =====
-- The Provide section of the config and ValidateProvideConfig, with the optional values of types.go
-- that it reads. Durations are int64 nanoseconds; an optional value is `none` for nil.
use kubo.Common.{
  ℕ, ◌*◌, ◌^◌, String, string_eq, Bool, true, false, not, ◌&&◌, Option, none, some, Result, ok, err,
  if◌then◌else◌,
}
use kubo.Common.Integers.{ℤ, pos, lt_int, is_zero}
use kubo.Common.Results.{◌>>=◌}
use kubo.Provide.Strategy.{StrategyError, parse_provide_strategy}

pub data Flag : Type 0 where
  flag_false flag_default flag_true : Flag

abbrev pub is_default_flag : Flag → Bool
is_default_flag flag_default = true
is_default_flag flag_false = false
is_default_flag flag_true = false

-- OptionalInteger.WithDefault, OptionalString.WithDefault and OptionalDuration.WithDefault
abbrev pub with_default {ℓ} : {A : Type ℓ} → Option A → A → A
with_default none default_value = default_value
with_default (some value) default_value = value

-- an hour, and a second
abbrev hour : ℕ
hour = 3_600_000_000_000

abbrev second : ℕ
second = 1_000_000_000

pub record ProvideDht : Type 0 where
  pub interval : Option ℤ
  pub max_workers : Option ℤ
  pub dedicated_periodic_workers : Option ℤ
  pub dedicated_burst_workers : Option ℤ
  pub max_provide_conns_per_worker : Option ℤ
  pub keystore_batch_size : Option ℤ
  pub offline_delay : Option ℤ
  pub send_provider_record_timeout : Option ℤ

pub record Provide : Type 0 where
  pub enabled : Flag
  pub strategy : Option String
  pub bloom_fp_rate : Option ℤ
  pub dht : ProvideDht

-- The value that each setting takes in a node.
pub record Settings : Type 0 where
  pub bloom_fp_rate : ℤ
  pub interval : ℤ
  pub max_workers : ℤ
  pub periodic_workers : ℤ
  pub burst_workers : ℤ
  pub conns_per_worker : ℤ
  pub keystore_batch_size : ℤ
  pub offline_delay : ℤ
  pub record_timeout : ℤ

unfoldable pub settings_of : Provide → Settings
settings_of cfg = record {
  bloom_fp_rate = with_default cfg.bloom_fp_rate (pos 4_750_000);
  interval = with_default cfg.dht.interval (pos (22 * hour));
  max_workers = with_default cfg.dht.max_workers (pos 16);
  periodic_workers = with_default cfg.dht.dedicated_periodic_workers (pos 2);
  burst_workers = with_default cfg.dht.dedicated_burst_workers (pos 1);
  conns_per_worker = with_default cfg.dht.max_provide_conns_per_worker (pos 20);
  keystore_batch_size = with_default cfg.dht.keystore_batch_size (pos (2 ^ 14));
  offline_delay = with_default cfg.dht.offline_delay (pos (2 * hour));
  record_timeout = with_default cfg.dht.send_provider_record_timeout (pos (10 * second));
}

pub data ConfigError : Type 0 where
  bad_strategy : StrategyError → ConfigError
  rate_too_small interval_too_long interval_negative interval_zero : ℤ → ConfigError
  workers_not_positive periodic_negative burst_negative conns_not_positive : ℤ → ConfigError
  batch_not_positive delay_negative timeout_not_positive : ℤ → ConfigError

-- if !value.IsDefault() { if test(value) { return error } }
unfoldable pub check_value :
    Option ℤ → (ℤ → Bool) → (ℤ → ConfigError) → Result ConfigError (Unit {0})
check_value none test error = ok tt
check_value (some v) test error = if test v then err (error v) else ok tt

abbrev pub check_not_negative : Option ℤ → (ℤ → ConfigError) → Result ConfigError (Unit {0})
check_not_negative value error = check_value value (λ v. lt_int v (pos 0)) error

abbrev pub check_positive : Option ℤ → (ℤ → ConfigError) → Result ConfigError (Unit {0})
check_positive value error = check_value value (λ v. not (lt_int (pos 0) v)) error

-- `validity` is amino.DefaultProvideValidity
unfoldable pub check_interval : ℤ → Flag → Option ℤ → Result ConfigError (Unit {0})
check_interval validity enabled none = ok tt
check_interval validity enabled (some interval) =
    if lt_int validity interval
    then err (interval_too_long interval)
    else if lt_int interval (pos 0)
    then err (interval_negative interval)
    else if is_zero interval && is_default_flag enabled
    then err (interval_zero interval)
    else ok tt

unfoldable pub check_strategy_of : Option String → Result ConfigError (Unit {0})
check_strategy_of strategy = elim (parse_provide_strategy (with_default strategy "all")) [
  | ok st ↦ ok tt
  | err e ↦ err (bad_strategy e)
]

unfoldable pub validate_provide_config : ℤ → Provide → Result ConfigError (Unit {0})
validate_provide_config validity cfg = do
  _ ← check_strategy_of cfg.strategy
  _ ← check_value cfg.bloom_fp_rate (λ v. lt_int v (pos 1_000_000)) rate_too_small
  _ ← check_interval validity cfg.enabled cfg.dht.interval
  _ ← check_positive cfg.dht.max_workers workers_not_positive
  _ ← check_not_negative cfg.dht.dedicated_periodic_workers periodic_negative
  _ ← check_not_negative cfg.dht.dedicated_burst_workers burst_negative
  _ ← check_positive cfg.dht.max_provide_conns_per_worker conns_not_positive
  _ ← check_positive cfg.dht.keystore_batch_size batch_not_positive
  _ ← check_not_negative cfg.dht.offline_delay delay_negative
  check_positive cfg.dht.send_provider_record_timeout timeout_not_positive
