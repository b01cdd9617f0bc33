-- ===== src/Routing/Trees.antt =====
-- Measures of the routers that Parse of routing/delegated.go composes.
use kubo.Common.{ℕ, suc, ◌+◌, Bool, true, false, ◌||◌}
use kubo.Routing.Parse.{
  Router, http_leaf, dht_leaf, parallel_router, sequential_router, Branches, end, branch,
}

module _ {Leaf : Type 0} where
  unfoldable mutual
    -- The composition reaches an HTTP client.
    pub has_http : Router Leaf → Bool
    has_http (http_leaf l) = true
    has_http (dht_leaf l) = false
    has_http (parallel_router branches) = some_http branches
    has_http (sequential_router branches) = some_http branches

    pub some_http : Branches Leaf → Bool
    some_http end = false
    some_http (branch router o branches) = has_http router || some_http branches

  unfoldable mutual
    pub height : Router Leaf → ℕ
    height (http_leaf l) = 1
    height (dht_leaf l) = 1
    height (parallel_router branches) = suc (branches_height branches)
    height (sequential_router branches) = suc (branches_height branches)

    pub branches_height : Branches Leaf → ℕ
    branches_height end = 0
    branches_height (branch router o branches) = height router + branches_height branches
