-- ===== src/Routing/Config.antt =====
-- config/routing.go: the configured routers and methods, Methods.Check and
-- HasHTTPProviderConfigured. A RouterParser is its type together with the parameters that
-- UnmarshalJSON reads for that type.
use kubo.Common.{
  ℕ, zero, suc, String, string_eq, Bool, true, false, Option, none, some, List, [], ◌∷◌, Result, ok,
  err, if◌then◌else◌, ◌==◌, Map, get, is_some,
}
use kubo.Common.Integers.{ℤ, pos, is_zero}

pub data MethodName : Type 0 where
  provide find_providers find_peers get_ipns put_ipns : MethodName
  other_method : String → MethodName

abbrev pub method_text : MethodName → String
method_text provide = "provide"
method_text find_providers = "find-providers"
method_text find_peers = "find-peers"
method_text get_ipns = "get-ipns"
method_text put_ipns = "put-ipns"
method_text (other_method name) = name

pub record HttpRouterParams : Type 0 where
  pub endpoint : String
  pub max_provide_batch_size : ℤ
  pub max_provide_concurrency : ℤ

-- `gomaxprocs` is runtime.GOMAXPROCS(0)
unfoldable pub fill_defaults : ℤ → HttpRouterParams → HttpRouterParams
fill_defaults gomaxprocs hrp = record hrp {
  max_provide_batch_size =
      if is_zero hrp.max_provide_batch_size then pos 100 else hrp.max_provide_batch_size;
  max_provide_concurrency =
      if is_zero hrp.max_provide_concurrency then gomaxprocs else hrp.max_provide_concurrency;
}

pub record DhtRouterParams : Type 0 where
  pub mode : String
  pub accelerated_dht_client : Bool
  pub public_ip_network : Bool

pub record ConfigRouter : Type 0 where
  pub router_name : String
  pub timeout : ℤ
  pub ignore_errors : Bool
  pub execute_after : Option ℤ

pub data RouterConfig : Type 0 where
  http : HttpRouterParams → RouterConfig
  dht : DhtRouterParams → RouterConfig
  parallel sequential : List ConfigRouter → RouterConfig
  unknown_type : String → RouterConfig

abbrev pub Routers : Type 0
Routers = Map String RouterConfig

-- The methods by their texts; each value is the method's RouterName.
abbrev pub Methods : Type 0
Methods = Map String String

pub data MethodError : Type 0 where
  method_missing : MethodName → MethodError
  method_unsupported : String → MethodError

abbrev pub method_name_list : List MethodName
method_name_list = provide ∷ find_peers ∷ find_providers ∷ get_ipns ∷ put_ipns ∷ []

unfoldable pub check_missing : List MethodName → Methods → Result MethodError (Unit {0})
check_missing [] m = ok tt
check_missing (mn ∷ names) m =
    let rest = check_missing names m in
    if is_some (get m (method_text mn)) then rest else err (method_missing mn)

abbrev pub is_supported : List MethodName → String → Bool
is_supported [] name = false
is_supported (mn ∷ names) name = if method_text mn == name then true else is_supported names name

unfoldable pub check_unsupported : Methods → Result MethodError (Unit {0})
check_unsupported [] = ok tt
check_unsupported ((name, router) ∷ m) =
    let rest = check_unsupported m in
    if is_supported method_name_list name then rest else err (method_unsupported name)

-- Methods.Check
unfoldable pub check : Methods → Result MethodError (Unit {0})
check m = elim (check_missing method_name_list m) [ err e ↦ err e | ok _ ↦ check_unsupported m ]

-- The loop over the children: `supports` is the recursive call, and `none` that it does not end.
unfoldable pub some_supports : (String → Option Bool) → List ConfigRouter → Option Bool
some_supports supports [] = some false
some_supports supports (child ∷ children) = elim (supports child.router_name) [
  | none ↦ none
  | some true ↦ some true
  | some false ↦ some_supports supports children
]

abbrev pub config_supports : (String → Option Bool) → Option RouterConfig → Option Bool
config_supports supports none = some false
config_supports supports (some (http params)) = some true
config_supports supports (some (dht params)) = some false
config_supports supports (some (parallel children)) = some_supports supports children
config_supports supports (some (sequential children)) = some_supports supports children
config_supports supports (some (unknown_type name)) = some false

-- routerSupportsHTTPProviding with a bound on the depth of its recursion
unfoldable pub router_supports_http_providing : Routers → ℕ → String → Option Bool
router_supports_http_providing routers zero name = none
router_supports_http_providing routers (suc fuel) name =
    config_supports (router_supports_http_providing routers fuel) (get routers name)

unfoldable pub has_http_provider_configured : Routers → Methods → ℕ → Option Bool
has_http_provider_configured [] methods fuel = some false
has_http_provider_configured (r ∷ routers) methods fuel = elim (get methods "provide") [
  | none ↦ some false
  | some name ↦ router_supports_http_providing (r ∷ routers) fuel name
]
