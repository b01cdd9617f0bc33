-- ===== src/Provide/Examples.antt =====
-- The text `pinned+mfs+entities`.
use kubo.Common.{◌≡◌, none, some, refl, String, true, false, not, ◌&&◌, ◌||◌, [], ◌∷◌, ok, err}
use kubo.Provide.Strategy.{
  ProvideStrategy, zero_strategy, empty_token, split, add_token, add_tokens, check_strategy,
  holds_more, parse_provide_strategy, should_provide_for_strategy,
}
use kubo.Common.Integers.{ℤ, pos, lt_int}
use kubo.Provide.Config.{
  flag_true, Provide, settings_of, check_value, check_interval, check_strategy_of,
  validate_provide_config,
}
use kubo.Provide.Bounds.{validate-bounds}
use kubo.Provide.Meaning.{some_provides, parse-provides}
use kubo.Provide.Consistent.{parse_consistent}

abbrev text : String
text = "pinned+mfs+entities"

abbrev strategy : ProvideStrategy
strategy = record zero_strategy { pinned = true; mfs = true; unique = true; entities = true }

tokens : split text ≡ "pinned" ∷ "mfs" ∷ "entities" ∷ []
unfolding split
tokens = refl

parsed : parse_provide_strategy text ≡ ok strategy
unfolding parse_provide_strategy split add_tokens add_token check_strategy
parsed = refl

trailing_plus : parse_provide_strategy "pinned+" ≡ err empty_token
unfolding parse_provide_strategy split add_tokens add_token
trailing_plus = refl

parse-provides_example :
    should_provide_for_strategy strategy false true true
    ≡ some_provides (split text) false true true
parse-provides_example = parse-provides text strategy false true true parsed

parse_consistent_example :
    ((strategy.all && holds_more strategy) ≡ false)
    × ((strategy.unique && not (strategy.pinned || strategy.mfs)) ≡ false)
    × ((strategy.unique && strategy.roots) ≡ false)
    × ((strategy.entities && not strategy.unique) ≡ false)
parse_consistent_example = parse_consistent text strategy parsed

abbrev plain : Provide
plain = record {
  enabled = flag_true;
  strategy = some text;
  bloom_fp_rate = none;
  dht = record {
    interval = some (pos 0);
    max_workers = some (pos 4);
    dedicated_periodic_workers = none;
    dedicated_burst_workers = some (pos 0);
    max_provide_conns_per_worker = none;
    keystore_batch_size = none;
    offline_delay = none;
    send_provider_record_timeout = none;
  };
}

-- 48 hours
abbrev validity : ℤ
validity = pos 172_800_000_000_000

validates : validate_provide_config validity plain ≡ ok tt
unfolding validate_provide_config check_strategy_of check_value check_interval
    parse_provide_strategy split add_tokens add_token check_strategy
validates = refl

validate-bounds_example :
    ((st : ProvideStrategy) × (parse_provide_strategy text ≡ ok st))
    × (lt_int (pos 4_750_000) (pos 1_000_000) ≡ false)
    × (lt_int validity (pos 0) ≡ false)
    × (lt_int (pos 0) (pos 0) ≡ false)
    × (lt_int (pos 0) (pos 4) ≡ true)
    × (lt_int (pos 2) (pos 0) ≡ false)
    × (lt_int (pos 0) (pos 0) ≡ false)
    × (lt_int (pos 0) (pos 20) ≡ true)
    × (lt_int (pos 0) (pos 16384) ≡ true)
    × (lt_int (pos 7_200_000_000_000) (pos 0) ≡ false)
    × (lt_int (pos 0) (pos 10_000_000_000) ≡ true)
unfolding settings_of
validate-bounds_example = validate-bounds validity plain refl validates
