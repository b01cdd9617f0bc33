-- ===== src/Values/Optional.antt =====
-- config/types.go: Strings, Duration, and the optional values, where `none` is a nil pointer.
use kubo.Common.{
  ℕ, String, string_eq, Option, none, some, List, [], ◌∷◌, Result, ok, err, if◌then◌else◌, ◌==◌,
  contains,
}
use text.Mathlib.Text.{starts_with}
use kubo.Common.Integers.{ℤ}
use kubo.Values.Json.{
  any_number, any_text, any_other, Json, ValueError, from_outside, not_a_size, not_a_duration,
  panicked, is_absent, outside,
}

-- The texts that an OptionalDuration takes for its default.
abbrev pub default_durations : List String
default_durations = "null" ∷ "undefined" ∷ "\"null\"" ∷ "" ∷ "default" ∷ "\"\"" ∷ "\"default\"" ∷ []

abbrev pub strings_of : String → List String
strings_of value = if value == "" then [] else value ∷ []

-- The parsed size of a text that is checked, and the text itself.
abbrev pub sized : Result ℕ ℕ → String → Result ValueError (Option String)
sized (err code) v = err (from_outside code)
sized (ok size) v = ok (some v)

module _ (json : Json) where
  unfoldable pub marshal_strings : List String → String
  marshal_strings [] = "null"
  marshal_strings (value ∷ []) = json.marshal_text value
  marshal_strings (first ∷ second ∷ values) = json.marshal_texts (first ∷ second ∷ values)

  unfoldable pub unmarshal_strings : String → Result ValueError (List String)
  unmarshal_strings input =
      if starts_with input "["
      then outside (json.unmarshal_texts input)
      else elim (json.unmarshal_text input) [
        | err code ↦ err (from_outside code)
        | ok value ↦ ok (strings_of value)
      ]

  unfoldable pub marshal_optional_integer : Option ℤ → String
  marshal_optional_integer none = "null"
  marshal_optional_integer (some value) = json.marshal_int value

  unfoldable pub unmarshal_optional_integer : String → Result ValueError (Option ℤ)
  unmarshal_optional_integer input =
      if is_absent input then ok none else elim (json.unmarshal_int input) [
        | err code ↦ err (from_outside code)
        | ok v ↦ ok (some v)
      ]

  unfoldable pub marshal_optional_string : Option String → String
  marshal_optional_string none = "null"
  marshal_optional_string (some value) = json.marshal_text value

  unfoldable pub unmarshal_optional_string : String → Result ValueError (Option String)
  unmarshal_optional_string input =
      if is_absent input then ok none else elim (json.unmarshal_text input) [
        | err code ↦ err (from_outside code)
        | ok v ↦ ok (some v)
      ]

  unfoldable pub marshal_optional_duration : Option ℤ → String
  marshal_optional_duration none = "null"
  marshal_optional_duration (some d) = json.marshal_text (json.show_duration d)

  unfoldable pub unmarshal_optional_duration : String → Result ValueError (Option ℤ)
  unmarshal_optional_duration input =
      if contains default_durations input
      then ok none
      else elim (json.parse_duration (json.trim_quotes input)) [
        | err code ↦ err (from_outside code)
        | ok d ↦ ok (some d)
      ]

  unfoldable pub marshal_duration : ℤ → String
  marshal_duration d = json.marshal_text (json.show_duration d)

  unfoldable pub unmarshal_duration : String → Result ValueError ℤ
  unmarshal_duration b = elim (json.unmarshal_any b) [
    | err code ↦ err (from_outside code)
    | ok (any_number text value) ↦ ok value
    | ok (any_text value) ↦ outside (json.parse_duration value)
    | ok any_other ↦ err not_a_duration
  ]

  unfoldable pub unmarshal_optional_bytes : String → Result ValueError (Option String)
  unmarshal_optional_bytes input =
      if is_absent input then ok none else elim (json.unmarshal_any input) [
        | err code ↦ err (from_outside code)
        | ok (any_number text value) ↦ ok (some text)
        | ok (any_text v) ↦ sized (json.parse_bytes v) v
        | ok any_other ↦ err not_a_size
      ]

  unfoldable pub optional_bytes_with_default : Option String → ℕ → Result ValueError ℕ
  optional_bytes_with_default none default_value = ok default_value
  optional_bytes_with_default (some text) default_value = elim (json.parse_bytes text) [
    | err code ↦ err panicked
    | ok size ↦ ok size
  ]
