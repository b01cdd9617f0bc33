-- ===== src/Values/Examples.antt =====
-- Values of config/types.go with a JSON of a few texts.
use kubo.Common.{
  ◌≡◌, ◌≢◌, ◌↔◌, refl, sym, string_eq, true, false, ◌||◌, none, some, [], ◌∷◌, ok, err,
  if◌then◌else◌, ◌==◌, nat_eq, length, Bool-cases, inl, inr, ==→≡,
}
use kubo.Common.Integers.{pos, negsuc}
use kubo.Values.Json.{Json, any_number, any_text, panicked}
use kubo.Values.Flags.{
  marshal_priority, unmarshal_priority, positive, priority_with_default, unmarshal_flag,
  flag_with_default, resolve_bool_from_config,
}
use kubo.Values.Optional.{
  marshal_strings, unmarshal_strings, marshal_optional_integer, unmarshal_optional_integer,
  marshal_optional_string, unmarshal_optional_string, marshal_optional_duration,
  unmarshal_optional_duration, unmarshal_optional_bytes, optional_bytes_with_default,
}
use kubo.Values.RoundTrips.{
  ReadsInt, ReadsText, unmarshal-marshal_priority, unmarshal-marshal_strings,
  unmarshal-marshal_optional,
}
use kubo.Values.Panics.{IsRefusedNumber, with_default-fine, optional_bytes-panics}

abbrev json : Json
json = record {
  marshal_int = λ v. "7";
  unmarshal_int = λ t. if t == "7" then ok (pos 7) else err 1;
  marshal_text = λ v. if v == "" then "\"\"" else "\"1h\"";
  unmarshal_text = λ t.
      if t == "\"1h\"" then ok "1h" else if (t == "\"\"") || (t == "null") then ok "" else err 2;
  marshal_texts = λ vs. if nat_eq (length vs) 1 then "[\"1h\"]" else "[\"1h\",\"1h\"]";
  unmarshal_texts = λ t. if t == "[\"1h\"]" then ok ("1h" ∷ []) else ok ("1h" ∷ "1h" ∷ []);
  unmarshal_any = λ t. if t == "-5" then ok (any_number "-5" (negsuc 4)) else ok (any_text "1h");
  show_duration = λ d. "1h";
  parse_duration = λ t. if t == "1h" then ok (pos 3_600_000_000_000) else err 3;
  trim_quotes = λ t. if t == "\"1h\"" then "1h" else t;
  parse_bytes = λ t. if t == "-5" then err 4 else ok 5;
}

reads_seven : ReadsInt json (pos 7)
reads_seven = record { reads = refl; no_word = refl }

reads_hour : ReadsText json "1h"
reads_hour = record { reads = refl; no_word = refl; no_list = refl }

unmarshal-marshal_priority_example : unmarshal_priority json "7" ≡ ok (pos 7)
unfolding marshal_priority
unmarshal-marshal_priority_example = unmarshal-marshal_priority json (pos 7) "7" reads_seven refl

unmarshal-marshal_strings_example :
    unmarshal_strings json (marshal_strings json ("1h" ∷ [])) ≡ ok ("1h" ∷ [])
unmarshal-marshal_strings_example =
    unmarshal-marshal_strings json ("1h" ∷ [])
      (record { reads = refl; is_list = refl; null_text = refl })
      (λ v among. elim (Bool-cases ("1h" == v)) [
        | inl same ↦ rw (sym (==→≡ "1h" v same)) reads_hour
        | inr other ↦ let none_else = rw other at among in cc
      ])

two_texts : unmarshal_strings json (marshal_strings json ("1h" ∷ "1h" ∷ [])) ≡ ok ("1h" ∷ "1h" ∷ [])
unfolding unmarshal_strings marshal_strings
two_texts = refl

-- A single empty text is lost.
empty_text_lost : unmarshal_strings json (marshal_strings json ("" ∷ [])) ≡ ok []
unfolding unmarshal_strings marshal_strings
empty_text_lost = refl

unmarshal-marshal_optional_example :
    (unmarshal_optional_integer json (marshal_optional_integer json (some (pos 7)))
      ≡ ok (some (pos 7)))
    × (unmarshal_optional_string json (marshal_optional_string json none) ≡ ok none)
    × (unmarshal_optional_duration json
          (marshal_optional_duration json (some (pos 3_600_000_000_000)))
        ≡ ok (some (pos 3_600_000_000_000)))
unmarshal-marshal_optional_example =
    unmarshal-marshal_optional json (some (pos 7)) none (some (pos 3_600_000_000_000))
      (λ v e. let same : pos 7 ≡ v = cc in rw (sym same) reads_seven) (λ v e. cc)
      (λ v e.
        let same : pos 3_600_000_000_000 ≡ v = cc in
        rw (sym same) (record { trims = refl; reads = refl; no_default = refl }))

with_default-fine_example :
    (priority_with_default (pos 0) (pos 7) ≢ err panicked)
    × (resolve_bool_from_config true false (negsuc 0) true ≢ err panicked)
unfolding unmarshal_priority positive unmarshal_flag
with_default-fine_example =
    with_default-fine json "null" "7" "false" (pos 0) (pos 7) (negsuc 0) true false true refl refl
      refl

optional_bytes-panics_example :
    (optional_bytes_with_default json (some "-5") 1024 ≡ err panicked) ↔ IsRefusedNumber json "-5"
unfolding unmarshal_optional_bytes
optional_bytes-panics_example = optional_bytes-panics json "-5" (some "-5") 1024 refl

negative_bytes_panic : optional_bytes_with_default json (some "-5") 1024 ≡ err panicked
unfolding optional_bytes_with_default
negative_bytes_panic = refl

flag_read : unmarshal_flag "false" ≡ ok (negsuc 0)
unfolding unmarshal_flag
flag_read = refl

flag_resolved : resolve_bool_from_config true false (pos 0) false ≡ ok false
unfolding resolve_bool_from_config flag_with_default
flag_resolved = refl
