-- ===== src/Values/Json.antt =====
-- What config/types.go takes from encoding/json, time and go-humanize. The texts of null, true and
-- false are written out.
use kubo.Common.{ℕ, String, string_eq, Bool, ◌||◌, List, Result, ok, err, ◌==◌}
use kubo.Common.Integers.{ℤ}

-- A JSON value read as `any`: a number by what `%.0f` prints of it and by its conversion to int64.
pub data AnyValue : Type 0 where
  any_number : String → ℤ → AnyValue
  any_text : String → AnyValue
  any_other : AnyValue

pub record Json : Type 0 where
  pub marshal_int : ℤ → String
  pub unmarshal_int : String → Result ℕ ℤ
  pub marshal_text : String → String
  pub unmarshal_text : String → Result ℕ String
  pub marshal_texts : List String → String
  pub unmarshal_texts : String → Result ℕ (List String)
  pub unmarshal_any : String → Result ℕ AnyValue
  pub show_duration : ℤ → String
  pub parse_duration : String → Result ℕ ℤ
  pub trim_quotes : String → String
  pub parse_bytes : String → Result ℕ ℕ

pub data ValueError : Type 0 where
  from_outside : ℕ → ValueError
  invalid_value : ℤ → ValueError
  not_a_flag : String → ValueError
  true_priority : ValueError
  not_positive : ℤ → ValueError
  not_a_size not_a_duration : ValueError
  panicked : ValueError

abbrev pub is_absent : String → Bool
is_absent input = (input == "null") || (input == "undefined")

abbrev pub outside {ℓ} : {A : Type ℓ} → Result ℕ A → Result ValueError A
outside (ok a) = ok a
outside (err code) = err (from_outside code)
