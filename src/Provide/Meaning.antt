-- ===== src/Provide/Meaning.antt =====
-- What a strategy that ParseProvideStrategy returns asks to provide.
use kubo.Common.{
  ◌≡◌, refl, sym, ap, subst, ◌∙◌, String, string_eq, Bool, true, false, ◌&&◌, ◌||◌, List, [], ◌∷◌,
  Result, ok, err, if◌then◌else◌, ◌==◌, arith, Result-cases, inl, inr,
}
use kubo.Provide.Strategy.{
  ProvideStrategy, zero_strategy, StrategyError, empty_token, unknown_token, split, add_token,
  add_tokens, check_strategy, parse_provide_strategy, should_provide_for_strategy,
}

-- What one token asks to provide.
abbrev pub token_provides : String → Bool → Bool → Bool → Bool
token_provides part is_pinned is_pinned_root is_mfs =
    if part == "all" || part == "flat"
    then true
    else if part == ""
    then true
    else if part == "pinned"
    then is_pinned
    else if part == "roots"
    then is_pinned_root
    else if part == "mfs"
    then is_mfs
    else false

abbrev pub some_provides : List String → Bool → Bool → Bool → Bool
some_provides [] is_pinned is_pinned_root is_mfs = false
some_provides (part ∷ parts) is_pinned is_pinned_root is_mfs =
    token_provides part is_pinned is_pinned_root is_mfs
    || some_provides parts is_pinned is_pinned_root is_mfs

or_false : (a : Bool) → a ≡ (a || false)
or_false true = refl
or_false false = refl

or_assoc : (a b c : Bool) → ((a || b) || c) ≡ (a || (b || c))
or_assoc true b c = refl
or_assoc false b c = refl

-- The Boolean that ShouldProvideForStrategy computes.
should_provide-or :
    (st : ProvideStrategy) (p r m : Bool)
    → should_provide_for_strategy st p r m
      ≡ (st.all || (st.pinned && p) || (st.roots && r) || (st.mfs && m))
unfolding should_provide_for_strategy
should_provide-or st p r m = ground arith

-- The same Boolean, with one more source of provided content.
abbrev Adds : ProvideStrategy → Bool → Bool → Bool → Bool → ProvideStrategy → Type 0
Adds st p r m more st' =
    (st'.all || (st'.pinned && p) || (st'.roots && r) || (st'.mfs && m))
    ≡ ((st.all || (st.pinned && p) || (st.roots && r) || (st.mfs && m)) || more)

from_ok :
    (P : ProvideStrategy → Type 0) (a b : ProvideStrategy)
    → ◌≡◌ {A = Result StrategyError ProvideStrategy} (ok a) (ok b)
    → P a
    → P b
from_ok P a b h pa = subst P (same h) pa
  where
    same : ◌≡◌ {A = Result StrategyError ProvideStrategy} (ok a) (ok b) → a ≡ b
    same e = cc

-- The switch, on the results of its tests.
switch_Adds :
    (whole all empty pinned roots mfs unique entities : Bool) (part : String)
    (st st' : ProvideStrategy) (p r m : Bool)
    → (if all
        then ok (record st { all = true })
        else if empty
        then (if whole then ok (record st { all = true }) else err empty_token)
        else if pinned
        then ok (record st { pinned = true })
        else if roots
        then ok (record st { roots = true })
        else if mfs
        then ok (record st { mfs = true })
        else if unique
        then ok (record st { unique = true })
        else if entities
        then ok (record st { entities = true; unique = true })
        else err (unknown_token part))
      ≡ ok st'
    → Adds st p r m
        (if all
          then true
          else if empty
          then true
          else if pinned
          then p
          else if roots
          then r
          else if mfs
          then m
          else false)
        st'
switch_Adds w true e1 e2 e3 e4 e5 e6 part st st' p r m h =
    from_ok (Adds st p r m true) (record st { all = true }) st' h (ground arith)
switch_Adds true false true e2 e3 e4 e5 e6 part st st' p r m h =
    from_ok (Adds st p r m true) (record st { all = true }) st' h (ground arith)
switch_Adds false false true e2 e3 e4 e5 e6 part st st' p r m h = cc
switch_Adds w false false true e3 e4 e5 e6 part st st' p r m h =
    from_ok (Adds st p r m p) (record st { pinned = true }) st' h (ground arith)
switch_Adds w false false false true e4 e5 e6 part st st' p r m h =
    from_ok (Adds st p r m r) (record st { roots = true }) st' h (ground arith)
switch_Adds w false false false false true e5 e6 part st st' p r m h =
    from_ok (Adds st p r m m) (record st { mfs = true }) st' h (ground arith)
switch_Adds w false false false false false true e6 part st st' p r m h =
    from_ok (Adds st p r m false) (record st { unique = true }) st' h (ground arith)
switch_Adds w false false false false false false true part st st' p r m h =
    from_ok (Adds st p r m false) (record st { entities = true; unique = true }) st' h
      (ground arith)
switch_Adds w false false false false false false false part st st' p r m h = cc

add_token-provides :
    (whole : Bool) (part : String) (st st' : ProvideStrategy) (p r m : Bool)
    → add_token whole part st ≡ ok st'
    → should_provide_for_strategy st' p r m
      ≡ (should_provide_for_strategy st p r m || token_provides part p r m)
unfolding add_token
add_token-provides whole part st st' p r m h =
    should_provide-or st' p r m
    ∙ switch_Adds whole (part == "all" || part == "flat") (part == "") (part == "pinned")
        (part == "roots") (part == "mfs") (part == "unique") (part == "entities") part st st' p r m
        h
    ∙ ap (λ b. b || token_provides part p r m) (sym (should_provide-or st p r m))

add_tokens-provides :
    (whole : Bool) (parts : List String) (st st' : ProvideStrategy) (p r m : Bool)
    → add_tokens whole parts st ≡ ok st'
    → should_provide_for_strategy st' p r m
      ≡ (should_provide_for_strategy st p r m || some_provides parts p r m)
unfolding add_tokens
add_tokens-provides whole [] st st' p r m h =
    from_ok
      (λ t. should_provide_for_strategy t p r m ≡ (should_provide_for_strategy st p r m || false))
      st st' h (or_false (should_provide_for_strategy st p r m))
add_tokens-provides whole (part ∷ parts) st st' p r m h =
    elim (Result-cases (add_token whole part st)) [
      | inr (x, e) ↦ let bad = rw e at h in cc
      | inl (st1, e) ↦
          let first = add_token-provides whole part st st1 p r m e in
          let rest = add_tokens-provides whole parts st1 st' p r m (rw e at h) in
          rest
          ∙ ap (λ b. b || some_provides parts p r m) first
          ∙ or_assoc (should_provide_for_strategy st p r m) (token_provides part p r m)
              (some_provides parts p r m)
    ]

checked_same : (st st' : ProvideStrategy) → check_strategy st ≡ ok st' → st ≡ st'
unfolding check_strategy
checked_same st st' h = ground arith

-- A strategy that parses provides a block exactly if one of the tokens of its text does: `all`, `flat`
-- or an empty text any block, `pinned` a pinned one, `roots` the root of a pin, `mfs` one of MFS.
pub parse-provides :
    (s : String) (st : ProvideStrategy) (is_pinned is_pinned_root is_mfs : Bool)
    → parse_provide_strategy s ≡ ok st
    → should_provide_for_strategy st is_pinned is_pinned_root is_mfs
      ≡ some_provides (split s) is_pinned is_pinned_root is_mfs
unfolding parse_provide_strategy
parse-provides s st p r m h = elim (Result-cases (add_tokens (s == "") (split s) zero_strategy)) [
  | inr (x, e) ↦ let bad = rw e at h in cc
  | inl (st1, e) ↦
      let same = checked_same st1 st (rw e at h) in
      ap (λ t. should_provide_for_strategy t p r m) (sym same)
      ∙ add_tokens-provides (s == "") (split s) zero_strategy st1 p r m e
      ∙ nothing_yet
]
  where
    nothing_yet :
        (should_provide_for_strategy zero_strategy p r m || some_provides (split s) p r m)
        ≡ some_provides (split s) p r m
    nothing_yet = rw (should_provide-or zero_strategy p r m)
