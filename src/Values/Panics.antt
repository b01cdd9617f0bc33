-- ===== src/Values/Panics.antt =====
-- Where the values of config/types.go panic when they are used.
use kubo.Common.{
  ℕ, ◌≡◌, ◌≢◌, ◌↔◌, refl, sym, String, string_eq, Bool, true, false, ◌||◌, Option, none, some, ok,
  err, ◌==◌, arith, Bool-cases, Result-cases, inl, inr,
}
use kubo.Common.Integers.{ℤ, pos, lt_int, is_zero}
use kubo.Values.Json.{Json, AnyValue, any_number, any_text, any_other, panicked, is_absent}
use kubo.Values.Flags.{
  resolve_bool_from_config, is_one, unmarshal_flag, flag_with_default, is_minus_one, minus_one,
  positive, unmarshal_priority, priority_with_default,
}
use kubo.Values.Optional.{unmarshal_optional_bytes, optional_bytes_with_default}

-- What Unmarshal makes of a priority: disabled, the default, or positive.
abbrev is_valid : ℤ → Bool
is_valid p = is_minus_one p || is_zero p || lt_int (pos 0) p

valid_priority :
    (json : Json) (input : String) (p : ℤ)
    → unmarshal_priority json input ≡ ok p
    → is_valid p ≡ true
unfolding unmarshal_priority positive
valid_priority json input p out = elim (Bool-cases (is_absent input)) [
  | inl absent ↦
      let r = rw (unmarshal_priority, absent) at out in
      let same : pos 0 ≡ p = cc in rw (sym same) refl
  | inr given ↦ elim (Bool-cases (input == "false")) [
    | inl disabled ↦
        let r = rw (unmarshal_priority, given, disabled) at out in
        let same : minus_one ≡ p = cc in rw (sym same) refl
    | inr other ↦ elim (Bool-cases (input == "true")) [
      | inl bad ↦ let r = rw (unmarshal_priority, given, other, bad) at out in cc
      | inr number ↦ elim (Result-cases (json.unmarshal_int input)) [
        | inr (code, failed) ↦
            let r = rw (unmarshal_priority, given, other, number, failed) at out in cc
        | inl (v, read) ↦
            let r = rw (unmarshal_priority, given, other, number, read) at out in
            elim (Bool-cases (lt_int (pos 0) v)) [
              | inl above ↦
                  let r' = rw (positive, above) at r in
                  let same : v ≡ p = cc in let above' = rw same at above in ground arith
              | inr low ↦ let r' = rw (positive, low) at r in cc
            ]
      ]
    ]
  ]
]

flag-valid :
    (input : String) (f : ℤ)
    → unmarshal_flag input ≡ ok f
    → (is_minus_one f || is_zero f || is_one f) ≡ true
unfolding unmarshal_flag
flag-valid input f out = elim (Bool-cases (input == "null")) [
  | inl unset ↦
      let r = rw (unmarshal_flag, unset) at out in let same : pos 0 ≡ f = cc in rw (sym same) refl
  | inr given ↦ elim (Bool-cases (input == "false")) [
    | inl off ↦
        let r = rw (unmarshal_flag, given, off) at out in
        let same : minus_one ≡ f = cc in rw (sym same) refl
    | inr other ↦ elim (Bool-cases (input == "true")) [
      | inl on ↦
          let r = rw (unmarshal_flag, given, other, on) at out in
          let same : pos 1 ≡ f = cc in rw (sym same) refl
      | inr bad ↦ let r = rw (unmarshal_flag, given, other, bad) at out in cc
    ]
  ]
]

-- For values that UnmarshalJSON read, Priority.WithDefault does not panic for a priority and a
-- default, nor ResolveBoolFromConfig for a flag.
pub with_default-fine :
    (json : Json) (input input' input'' : String) (p default_priority f : ℤ)
    (user_value user_set default_value : Bool)
    → unmarshal_priority json input ≡ ok p
    → unmarshal_priority json input' ≡ ok default_priority
    → unmarshal_flag input'' ≡ ok f
    → (priority_with_default p default_priority ≢ err panicked)
      × (resolve_bool_from_config user_value user_set f default_value ≢ err panicked)
unfolding priority_with_default resolve_bool_from_config flag_with_default
with_default-fine json input input' input'' p default_priority f user_value user_set default_value
      read read' read'' =
    let valid = valid_priority json input p read in
    let valid' = valid_priority json input' default_priority read' in
    let valid'' = flag-valid input'' f read'' in ((λ out. ground arith), λ out. ground arith)

-- A number whose digits ParseBytes refuses.
abbrev pub IsRefusedNumber : Json → String → Type 0
IsRefusedNumber json input =
    (text : String) × (value : ℤ) × (code : ℕ) × (is_absent input ≡ false)
    × (json.unmarshal_any input ≡ ok (any_number text value))
    × (json.parse_bytes text ≡ err code)

given-panics :
    (json : Json) (input : String) (any : AnyValue) (v : Option String) (default_value : ℕ)
    → is_absent input ≡ false
    → json.unmarshal_any input ≡ ok any
    → unmarshal_optional_bytes json input ≡ ok v
    → (optional_bytes_with_default json v default_value ≡ err panicked) ↔ IsRefusedNumber json input
unfolding unmarshal_optional_bytes optional_bytes_with_default
given-panics json input (any_number text value) v default_value given any read =
    let r = rw (unmarshal_optional_bytes, given, any) at read in
    let same : some text ≡ v = cc in
    rw (sym same) (
      (λ panic. elim (Result-cases (json.parse_bytes text)) [
        | inl (size, parsed) ↦ let bad = rw (optional_bytes_with_default, parsed) at panic in cc
        | inr (code, refused) ↦ (text, value, code, given, any, refused)
      ]),
      λ (text', value', code, _, any', refused).
          let texts : text' ≡ text = cc in
          let refused' = rw texts at refused in rw (optional_bytes_with_default, refused') refl,
    )
given-panics json input (any_text text) v default_value given any read =
    let r = rw (unmarshal_optional_bytes, given, any) at read in
    elim (Result-cases (json.parse_bytes text)) [
      | inl (size, parsed) ↦
          let r' = rw parsed at r in
          let same : some text ≡ v = cc in
          rw (sym same) (
            (λ panic. let bad = rw (optional_bytes_with_default, parsed) at panic in cc),
            λ (text', value', code, _, any', _). cc,
          )
      | inr (code, refused) ↦ let r' = rw refused at r in cc
    ]
given-panics json input any_other v default_value given any read =
    let r = rw (unmarshal_optional_bytes, given, any) at read in cc

-- OptionalBytes.WithDefault panics on a value that UnmarshalJSON read exactly if its JSON was a
-- number whose digits ParseBytes refuses.
pub optional_bytes-panics :
    (json : Json) (input : String) (v : Option String) (default_value : ℕ)
    → unmarshal_optional_bytes json input ≡ ok v
    → (optional_bytes_with_default json v default_value ≡ err panicked) ↔ IsRefusedNumber json input
unfolding unmarshal_optional_bytes optional_bytes_with_default
optional_bytes-panics json input v default_value read = elim (Bool-cases (is_absent input)) [
  | inl absent ↦
      let r = rw (unmarshal_optional_bytes, absent) at read in
      let same : none ≡ v = cc in
      rw (sym same) ((λ bad. cc), λ (text, value, code, given, _, _). cc)
  | inr given ↦ elim (Result-cases (json.unmarshal_any input)) [
    | inl (any, e) ↦ given-panics json input any v default_value given e read
    | inr (code, failed) ↦ let r = rw (unmarshal_optional_bytes, given, failed) at read in cc
  ]
]
