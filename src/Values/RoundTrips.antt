-- ===== src/Values/RoundTrips.antt =====
-- The values of config/types.go read back from the JSON that they are written as.
use kubo.Common.{
  ◌≡◌, refl, sym, String, string_eq, Bool, true, false, ◌||◌, Option, none, some, List, [], ◌∷◌, ok,
  ◌==◌, if◌then◌else◌, contains, contains-cons_self, arith, Bool-cases, inl, inr,
}
use text.Mathlib.Text.{starts_with}
use kubo.Common.Integers.{ℤ, pos, negsuc, lt_int, is_zero}
use kubo.Values.Json.{Json, is_absent}
use kubo.Values.Flags.{is_minus_one, minus_one, positive, marshal_priority, unmarshal_priority}
use kubo.Values.Optional.{
  default_durations, marshal_strings, unmarshal_strings, marshal_optional_integer,
  unmarshal_optional_integer, marshal_optional_string, unmarshal_optional_string,
  marshal_optional_duration, unmarshal_optional_duration,
}

-- The words that stand for other JSON values than numbers and texts.
abbrev pub is_word : String → Bool
is_word input = is_absent input || (input == "false") || (input == "true")

-- encoding/json reads an integer back from what it writes, which is no word.
pub record ReadsInt (json : Json) (v : ℤ) : Type 0 where
  pub reads : json.unmarshal_int (json.marshal_int v) ≡ ok v
  pub no_word : is_word (json.marshal_int v) ≡ false

-- The same for a text, whose JSON is in quotes.
pub record ReadsText (json : Json) (v : String) : Type 0 where
  pub reads : json.unmarshal_text (json.marshal_text v) ≡ ok v
  pub no_word : is_word (json.marshal_text v) ≡ false
  pub no_list : starts_with (json.marshal_text v) "[" ≡ false

-- A list of texts is read back from what it is written as, which is in brackets; and null leaves a
-- text empty.
pub record ReadsTexts (json : Json) (vs : List String) : Type 0 where
  pub reads : json.unmarshal_texts (json.marshal_texts vs) ≡ ok vs
  pub is_list : starts_with (json.marshal_texts vs) "[" ≡ true
  pub null_text : json.unmarshal_text "null" ≡ ok ""

-- A duration is read back from its text, which is none of the texts of a default.
pub record ReadsDuration (json : Json) (d : ℤ) : Type 0 where
  pub trims : json.trim_quotes (json.marshal_text (json.show_duration d)) ≡ json.show_duration d
  pub reads : json.parse_duration (json.show_duration d) ≡ ok d
  pub no_default : contains default_durations (json.marshal_text (json.show_duration d)) ≡ false

minus_one-is : (p : ℤ) → is_minus_one p ≡ true → minus_one ≡ p
minus_one-is (pos n) e = cc
minus_one-is (negsuc n) e = let zero_n : n ≡ 0 = ground arith in rw zero_n refl

zero_is : (p : ℤ) → is_zero p ≡ true → pos 0 ≡ p
zero_is (pos n) e = let zero_n : n ≡ 0 = ground arith in rw zero_n refl
zero_is (negsuc n) e = cc

-- A priority that MarshalJSON writes is what UnmarshalJSON reads from its JSON, if encoding/json
-- reads its integer back from what it writes, which is none of the words.
pub unmarshal-marshal_priority :
    (json : Json) (p : ℤ) (text : String)
    → ReadsInt json p
    → marshal_priority json p ≡ ok text
    → unmarshal_priority json text ≡ ok p
unfolding marshal_priority unmarshal_priority positive
unmarshal-marshal_priority json p text known written = elim (Bool-cases (lt_int (pos 0) p)) [
  | inl above ↦
      let out = rw (marshal_priority, above) at written in
      let same : json.marshal_int p ≡ text = cc in
      let word = known.no_word in
      let absent : is_absent (json.marshal_int p) ≡ false = ground arith in
      let f : (json.marshal_int p == "false") ≡ false = ground arith in
      let t : (json.marshal_int p == "true") ≡ false = ground arith in
      rw (sym same) (rw (unmarshal_priority, absent, f, t, known.reads, positive, above) refl)
  | inr low ↦ elim (Bool-cases (is_zero p)) [
    | inl zero_p ↦
        let out = rw (marshal_priority, low, zero_p) at written in
        let same : "null" ≡ text = cc in
        let value = zero_is p zero_p in rw (sym same, sym value) refl
    | inr not_zero ↦ elim (Bool-cases (is_minus_one p)) [
      | inl disabled ↦
          let out = rw (marshal_priority, low, not_zero, disabled) at written in
          let same : "false" ≡ text = cc in
          let value = minus_one-is p disabled in rw (sym same, sym value) refl
      | inr other ↦ let bad = rw (marshal_priority, low, not_zero, other) at written in cc
    ]
  ]
]

-- A list of one text, which is empty.
abbrev pub is_lone_empty : List String → Bool
is_lone_empty (value ∷ []) = value == ""
is_lone_empty _ = false

-- UnmarshalJSON reads Strings back from what MarshalJSON writes, but for a single empty text, of
-- which it makes no text, if encoding/json reads lists and texts back from what it writes.
pub unmarshal-marshal_strings :
    (json : Json) (o : List String)
    → ReadsTexts json o
    → ((v : String) → contains o v ≡ true → ReadsText json v)
    → unmarshal_strings json (marshal_strings json o) ≡ ok (if is_lone_empty o then [] else o)
unfolding marshal_strings unmarshal_strings
unmarshal-marshal_strings json [] list texts = rw (unmarshal_strings, list.null_text) refl
unmarshal-marshal_strings json (v ∷ []) list texts =
    let known = texts v (contains-cons_self v []) in
    rw (unmarshal_strings, known.no_list, known.reads) refl
unmarshal-marshal_strings json (v ∷ w ∷ values) list texts =
    rw (unmarshal_strings, list.is_list, list.reads) refl

integer_back :
    (json : Json) (i : Option ℤ)
    → ((v : ℤ) → i ≡ some v → ReadsInt json v)
    → unmarshal_optional_integer json (marshal_optional_integer json i) ≡ ok i
unfolding marshal_optional_integer unmarshal_optional_integer
integer_back json none ints = refl
integer_back json (some v) ints =
    let known = ints v refl in
    let word = known.no_word in
    let absent : is_absent (json.marshal_int v) ≡ false = ground arith in
    rw (unmarshal_optional_integer, absent, known.reads) refl

string_back :
    (json : Json) (s : Option String)
    → ((v : String) → s ≡ some v → ReadsText json v)
    → unmarshal_optional_string json (marshal_optional_string json s) ≡ ok s
unfolding marshal_optional_string unmarshal_optional_string
string_back json none texts = refl
string_back json (some v) texts =
    let known = texts v refl in
    let word = known.no_word in
    let absent : is_absent (json.marshal_text v) ≡ false = ground arith in
    rw (unmarshal_optional_string, absent, known.reads) refl

duration_back :
    (json : Json) (d : Option ℤ)
    → ((v : ℤ) → d ≡ some v → ReadsDuration json v)
    → unmarshal_optional_duration json (marshal_optional_duration json d) ≡ ok d
unfolding marshal_optional_duration unmarshal_optional_duration
duration_back json none durations = refl
duration_back json (some v) durations =
    let known = durations v refl in
    rw (unmarshal_optional_duration, known.no_default, known.trims, known.reads) refl

-- The UnmarshalJSON of OptionalInteger, OptionalString and OptionalDuration read back what their
-- MarshalJSON write, unset values included, if encoding/json and time read integers, texts and
-- durations back from what they write.
pub unmarshal-marshal_optional :
    (json : Json) (i : Option ℤ) (s : Option String) (d : Option ℤ)
    → ((v : ℤ) → i ≡ some v → ReadsInt json v)
    → ((v : String) → s ≡ some v → ReadsText json v)
    → ((v : ℤ) → d ≡ some v → ReadsDuration json v)
    → (unmarshal_optional_integer json (marshal_optional_integer json i) ≡ ok i)
      × (unmarshal_optional_string json (marshal_optional_string json s) ≡ ok s)
      × (unmarshal_optional_duration json (marshal_optional_duration json d) ≡ ok d)
unmarshal-marshal_optional json i s d ints texts durations =
    (integer_back json i ints, string_back json s texts, duration_back json d durations)
