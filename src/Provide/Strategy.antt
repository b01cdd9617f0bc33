-- ===== src/Provide/Strategy.antt =====
-- ParseProvideStrategy and ShouldProvideForStrategy. A ProvideStrategy is its six bits, and `|=` of a
-- constant sets a bit.
use Prim.Native.Char.{Char, code}
use kubo.Common.{
  String, string_eq, Bool, true, false, not, ◌&&◌, ◌||◌, List, [], ◌∷◌, Result, ok, err,
  if◌then◌else◌, nat_eq, ◌==◌,
}
use kubo.Common.Results.{◌>>=◌}

pub record ProvideStrategy : Type 0 where
  pub all : Bool
  pub pinned : Bool
  pub roots : Bool
  pub mfs : Bool
  pub unique : Bool
  pub entities : Bool

abbrev pub zero_strategy : ProvideStrategy
zero_strategy = record {
  all = false;
  pinned = false;
  roots = false;
  mfs = false;
  unique = false;
  entities = false;
}

pub data StrategyError : Type 0 where
  empty_token all_combined dedup_without_walk dedup_with_roots : StrategyError
  unknown_token : String → StrategyError

abbrev pub add_to_first : Char → List String → List String
add_to_first c [] = (String.◌∷◌ c String.[]) ∷ []
add_to_first c (p ∷ parts) = (String.◌∷◌ c p) ∷ parts

-- strings.SplitSeq(s, "+")
unfoldable pub split : String → List String
split String.[] = "" ∷ []
split (String.◌∷◌ c s) =
    let parts = split s in if nat_eq (code c) b'+' then "" ∷ parts else add_to_first c parts

-- one turn of the loop's switch; `whole` says that `s` is empty
unfoldable pub add_token : Bool → String → ProvideStrategy → Result StrategyError ProvideStrategy
add_token whole part strategy =
    if part == "all" || part == "flat"
    then ok (record strategy { all = true })
    else if part == ""
    then (if whole then ok (record strategy { all = true }) else err empty_token)
    else if part == "pinned"
    then ok (record strategy { pinned = true })
    else if part == "roots"
    then ok (record strategy { roots = true })
    else if part == "mfs"
    then ok (record strategy { mfs = true })
    else if part == "unique"
    then ok (record strategy { unique = true })
    else if part == "entities"
    then ok (record strategy { entities = true; unique = true })
    else err (unknown_token part)

unfoldable pub add_tokens :
    Bool → List String → ProvideStrategy → Result StrategyError ProvideStrategy
add_tokens whole [] strategy = ok strategy
add_tokens whole (part ∷ parts) strategy = add_token whole part strategy >>= add_tokens whole parts

-- strategy != ProvideStrategyAll, for a strategy that holds it
abbrev pub holds_more : ProvideStrategy → Bool
holds_more st = st.pinned || st.roots || st.mfs || st.unique || st.entities

-- the checks behind the loop
unfoldable pub check_strategy : ProvideStrategy → Result StrategyError ProvideStrategy
check_strategy st =
    if st.all && holds_more st
    then err all_combined
    else if (st.unique || st.entities) && not (st.pinned || st.mfs)
    then err dedup_without_walk
    else if (st.unique || st.entities) && st.roots
    then err dedup_with_roots
    else ok st

unfoldable pub parse_provide_strategy : String → Result StrategyError ProvideStrategy
parse_provide_strategy s = add_tokens (s == "") (split s) zero_strategy >>= check_strategy

unfoldable pub should_provide_for_strategy : ProvideStrategy → Bool → Bool → Bool → Bool
should_provide_for_strategy st is_pinned is_pinned_root is_mfs =
    if st.all
    then true
    else if st.pinned && is_pinned
    then true
    else if st.roots && is_pinned_root
    then true
    else if st.mfs && is_mfs
    then true
    else false
