-- ===== src/Provide/Consistent.antt =====
-- The bits that ParseProvideStrategy sets together.
use kubo.Common.{
  ◌≡◌, refl, String, string_eq, Bool, true, false, not, ◌&&◌, ◌||◌, List, [], ◌∷◌, ok, ◌==◌, arith,
  Result-cases, inl, inr,
}
use kubo.Provide.Strategy.{
  ProvideStrategy, zero_strategy, split, add_token, add_tokens, holds_more, check_strategy,
  parse_provide_strategy,
}

-- The bit of the entities comes with that of the deduplication.
abbrev is_paired : ProvideStrategy → Bool
is_paired st = not st.entities || st.unique

add_token-is_paired :
    (whole : Bool) (part : String) (st st' : ProvideStrategy)
    → is_paired st ≡ true
    → add_token whole part st ≡ ok st'
    → is_paired st' ≡ true
unfolding add_token
add_token-is_paired whole part st st' paired h = ground arith

add_tokens-is_paired :
    (whole : Bool) (parts : List String) (st st' : ProvideStrategy)
    → is_paired st ≡ true
    → add_tokens whole parts st ≡ ok st'
    → is_paired st' ≡ true
unfolding add_tokens
add_tokens-is_paired whole [] st st' paired h = ground arith
add_tokens-is_paired whole (part ∷ parts) st st' paired h =
    elim (Result-cases (add_token whole part st)) [
      | inr (x, e) ↦ let bad = rw e at h in cc
      | inl (st1, e) ↦
          add_tokens-is_paired whole parts st1 st' (add_token-is_paired whole part st st1 paired e)
            (rw e at h)
    ]

checked :
    (st st' : ProvideStrategy)
    → is_paired st ≡ true
    → check_strategy st ≡ ok st'
    → ((st'.all && holds_more st') ≡ false)
      × ((st'.unique && not (st'.pinned || st'.mfs)) ≡ false)
      × ((st'.unique && st'.roots) ≡ false)
      × ((st'.entities && not st'.unique) ≡ false)
unfolding check_strategy
checked st st' paired h = ground arith

-- In a strategy that parses, `all` stands alone, `unique` comes with `pinned` or `mfs` and without
-- `roots`, and `entities` comes with `unique`.
pub parse_consistent :
    (s : String) (st : ProvideStrategy)
    → parse_provide_strategy s ≡ ok st
    → ((st.all && holds_more st) ≡ false)
      × ((st.unique && not (st.pinned || st.mfs)) ≡ false)
      × ((st.unique && st.roots) ≡ false)
      × ((st.entities && not st.unique) ≡ false)
unfolding parse_provide_strategy
parse_consistent s st h = elim (Result-cases (add_tokens (s == "") (split s) zero_strategy)) [
  | inr (x, e) ↦ let bad = rw e at h in cc
  | inl (st1, e) ↦
      checked st1 st (add_tokens-is_paired (s == "") (split s) zero_strategy st1 refl e) (rw e at h)
]
