-- ===== src/Values/Flags.antt =====
-- config/types.go: Flag, an int8, and Priority, an int64. A panic is an error value.
use kubo.Common.{String, string_eq, Bool, true, false, Result, ok, err, if◌then◌else◌, nat_eq, ◌==◌}
use kubo.Common.Integers.{ℤ, pos, negsuc, lt_int, is_zero}
use kubo.Values.Json.{
  Json, ValueError, invalid_value, not_a_flag, true_priority, not_positive, panicked, is_absent,
  outside,
}

-- -1: Flag False and Priority Disabled
abbrev pub minus_one : ℤ
minus_one = negsuc 0

abbrev pub is_minus_one : ℤ → Bool
is_minus_one (pos n) = false
is_minus_one (negsuc n) = nat_eq n 0

abbrev pub is_one : ℤ → Bool
is_one (pos n) = nat_eq n 1
is_one (negsuc n) = false

unfoldable pub flag_with_default : ℤ → Bool → Result ValueError Bool
flag_with_default f default_value =
    if is_minus_one f
    then ok false
    else if is_zero f
    then ok default_value
    else if is_one f
    then ok true
    else err panicked

unfoldable pub marshal_flag : ℤ → Result ValueError String
marshal_flag f =
    if is_zero f
    then ok "null"
    else if is_one f
    then ok "true"
    else if is_minus_one f
    then ok "false"
    else err (invalid_value f)

unfoldable pub unmarshal_flag : String → Result ValueError ℤ
unmarshal_flag input =
    if input == "null"
    then ok (pos 0)
    else if input == "false"
    then ok minus_one
    else if input == "true"
    then ok (pos 1)
    else err (not_a_flag input)

unfoldable pub resolve_bool_from_config : Bool → Bool → ℤ → Bool → Result ValueError Bool
resolve_bool_from_config user_value user_set config_flag default_value =
    if user_set then ok user_value else flag_with_default config_flag default_value

unfoldable pub priority_with_default : ℤ → ℤ → Result ValueError (ℤ × Bool)
priority_with_default p default_priority =
    if is_minus_one p
    then ok (pos 0, false)
    else if is_zero p
    then (if is_minus_one default_priority
        then ok (pos 0, false)
        else if is_zero default_priority
        then ok (pos 0, true)
        else if lt_int (pos 0) default_priority
        then ok (default_priority, true)
        else err panicked)
    else if lt_int (pos 0) p
    then ok (p, true)
    else err panicked

module _ (json : Json) where
  unfoldable pub marshal_priority : ℤ → Result ValueError String
  marshal_priority p =
      if lt_int (pos 0) p
      then ok (json.marshal_int p)
      else if is_zero p
      then ok "null"
      else if is_minus_one p
      then ok "false"
      else err (invalid_value p)

  unfoldable pub positive : ℤ → Result ValueError ℤ
  positive priority = if lt_int (pos 0) priority then ok priority else err (not_positive priority)

  unfoldable pub unmarshal_priority : String → Result ValueError ℤ
  unmarshal_priority input =
      if is_absent input
      then ok (pos 0)
      else if input == "false"
      then ok minus_one
      else if input == "true"
      then err true_priority
      else elim (json.unmarshal_int input) [
        | err code ↦ outside (err code)
        | ok priority ↦ positive priority
      ]
