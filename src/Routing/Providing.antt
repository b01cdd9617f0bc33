-- ===== src/Routing/Providing.antt =====
-- HasHTTPProviderConfigured of config/routing.go against the routers that Parse builds.
use kubo.Common.{
  ℕ, zero, suc, ◌≤◌, ◌≡◌, refl, sym, ap, ◌∙◌, ◌⊎◌, String, string_eq, true, none, some, List, [],
  ◌∷◌, ok, ◌==◌, Map, get, is_some, arith, Bool-cases, inl, inr,
}
use kubo.Routing.Config.{
  ConfigRouter, parallel, sequential, Routers, Methods, router_supports_http_providing,
  some_supports, has_http_provider_configured,
}
use kubo.Routing.Parse.{
  Router, Composer, http_leaf, dht_leaf, parallel_router, sequential_router, Branches, end, branch,
  BranchOptions, parallel_options, sequential_options, Constructors, parse,
}
use kubo.Routing.Trees.{has_http, some_http, height, branches_height}
use kubo.Routing.Built.{IsBuilt, AreBuilt}
use kubo.Routing.Soundness.{IsListed, IsComposed, parse-IsComposed}

has_http_provider-known :
    (routers : Routers) (methods : Methods) (fuel : ℕ) (name : String)
    → get methods "provide" ≡ some name
    → is_some (get routers name) ≡ true
    → has_http_provider_configured routers methods fuel
      ≡ router_supports_http_providing routers fuel name
unfolding has_http_provider_configured
has_http_provider-known [] methods fuel name found known = cc
has_http_provider-known (r ∷ routers) methods fuel name found known =
    rw (has_http_provider_configured, found) refl

module _ {Leaf : Type 0} (ext : Constructors Leaf) (routers : Routers) where
  some_supports-height :
      (fuel : ℕ) (options : ConfigRouter → BranchOptions) (children : List ConfigRouter)
      (branches : Branches Leaf)
      → ((name : String) (router : Router Leaf)
          → IsBuilt ext routers name router
          → height router ≤ fuel
          → router_supports_http_providing routers fuel name ≡ some (has_http router))
      → AreBuilt ext routers options children branches
      → branches_height branches ≤ fuel
      → some_supports (router_supports_http_providing routers fuel) children
        ≡ some (some_http branches)
  unfolding some_supports AreBuilt branches_height some_http
  some_supports-height fuel options [] end ih built high = refl
  some_supports-height fuel options [] (branch r o bs) ih built high = absurd built
  some_supports-height fuel options (c ∷ cs) end ih built high = absurd built
  some_supports-height fuel options (c ∷ cs) (branch r o bs) ih built high =
      let first = ih c.router_name r built.0 (omega arith) in
      let rest = some_supports-height fuel options cs bs ih built.2 (omega arith) in
      elim (Bool-cases (has_http r)) [
        | inl found ↦ rw (some_supports, first, found) refl
        | inr other ↦ rw (some_supports, first, other) rest
      ]

  router_supports-has_http :
      (fuel : ℕ) (name : String) (router : Router Leaf)
      → IsBuilt ext routers name router
      → height router ≤ fuel
      → router_supports_http_providing routers fuel name ≡ some (has_http router)
  unfolding router_supports_http_providing IsBuilt height has_http
  router_supports-has_http zero name (http_leaf l) built high = absurd (omega arith)
  router_supports-has_http zero name (dht_leaf l) built high = absurd (omega arith)
  router_supports-has_http zero name (parallel_router bs) built high = absurd (omega arith)
  router_supports-has_http zero name (sequential_router bs) built high = absurd (omega arith)
  router_supports-has_http (suc fuel) name (http_leaf l) (params, found, made) high = rw found refl
  router_supports-has_http (suc fuel) name (dht_leaf l) (params, found, made) high = rw found refl
  router_supports-has_http (suc fuel) name (parallel_router bs) (children, found, built) high =
      rw found (
        some_supports-height fuel parallel_options children bs (router_supports-has_http fuel) built
          (omega arith))
  router_supports-has_http (suc fuel) name (sequential_router bs) (children, found, built) high =
      rw found (
        some_supports-height fuel sequential_options children bs (router_supports-has_http fuel)
          built (omega arith))

  listed-get :
      (methods : Methods) (entries : Map String (Router Leaf)) (mn : String) (router : Router Leaf)
      → IsListed ext routers methods entries
      → get entries mn ≡ some router
      → (name : String) × (get methods mn ≡ some name) × IsBuilt ext routers name router
  unfolding IsListed
  listed-get [] [] mn router listed found = cc
  listed-get [] (entry ∷ entries) mn router listed found = absurd listed
  listed-get (method ∷ methods) [] mn router listed found = absurd listed
  listed-get ((m, name) ∷ methods) ((m', r) ∷ entries) mn router (same, built, rest) found =
      elim (Bool-cases (m == mn)) [
        | inl here ↦
            let r_found = rw (sym same, here) at found in
            let equal : r ≡ router = cc in (name, rw here refl, rw equal at built)
        | inr there ↦
            let (n, e, b) =
              listed-get methods entries mn router rest (rw (sym same, there) at found) in
            (n, rw there e, b)
      ]

  built-configured :
      (name : String) (router : Router Leaf)
      → IsBuilt ext routers name router
      → is_some (get routers name) ≡ true
  unfolding IsBuilt
  built-configured name (http_leaf l) (params, found, made) = rw found
  built-configured name (dht_leaf l) (params, found, made) = rw found
  built-configured name (parallel_router bs) (children, found, built) = rw found
  built-configured name (sequential_router bs) (children, found, built) = rw found

  -- If Parse succeeds with a router for the method provide, then HasHTTPProviderConfigured says
  -- whether that router reaches an HTTP router, at every depth of its recursion from the
  -- height of the router on.
  pub has_http_provider_configured-has_http :
      (methods : Methods) (composer : Composer Leaf) (provider : Router Leaf) (fuel : ℕ)
      → parse ext routers methods ≡ ok composer
      → composer.provide_router ≡ some provider
      → height provider ≤ fuel
      → has_http_provider_configured routers methods fuel ≡ some (has_http provider)
  unfolding IsComposed
  has_http_provider_configured-has_http methods composer provider fuel parsed found high =
      let (_, (entries, listed, is)) = parse-IsComposed ext routers methods composer parsed in
      let (name, e, built) =
        listed-get methods entries "provide" provider listed
          (ap (λ (c : Composer Leaf). c.provide_router) (sym is) ∙ found) in
      has_http_provider-known routers methods fuel name e (built-configured name provider built)
      ∙ router_supports-has_http fuel name provider built high

-- For a composable router whose first child is itself, the recursion of
-- routerSupportsHTTPProviding is deeper than every bound.
pub router_supports-loop :
    (routers : Routers) (name : String) (child : ConfigRouter) (children : List ConfigRouter)
    (fuel : ℕ)
    → child.router_name ≡ name
    → (get routers name ≡ some (parallel (child ∷ children)))
      ⊎ (get routers name ≡ some (sequential (child ∷ children)))
    → router_supports_http_providing routers fuel name ≡ none
unfolding router_supports_http_providing some_supports
router_supports-loop routers name child children zero self found = refl
router_supports-loop routers name child children (suc fuel) self found =
    let below = router_supports-loop routers name child children fuel self found in
    elim found [
      | inl par ↦ rw (router_supports_http_providing, par, some_supports, self, below) refl
      | inr seq ↦ rw (router_supports_http_providing, seq, some_supports, self, below) refl
    ]
