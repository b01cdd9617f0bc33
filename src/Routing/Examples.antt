-- ===== src/Routing/Examples.antt =====
-- Concrete routing configurations for config/routing.go and routing/delegated.go.
use kubo.Common.{
  ◌≡◌, ◌≢◌, ◌↔◌, refl, String, string_eq, true, false, none, some, [], ◌∷◌, ok, err, get, is_some,
  inl, arith,
}
use kubo.Common.Integers.{pos}
use kubo.Routing.Config.{
  ConfigRouter, RouterConfig, http, dht, parallel, sequential, Routers, Methods, method_name_list,
  check_missing, check_unsupported, fill_defaults, is_supported, check,
  router_supports_http_providing, has_http_provider_configured,
}
use kubo.Routing.Parse.{
  Router, Composer, assign_router, http_leaf, dht_leaf, parallel_router, end, branch, out_of_fuel,
  dependency_loop, mode_auto, mode_client, mode_server, Constructors, parallel_options,
  parse_methods, parse_router, parse_step, parse_new, visit, create_router, dht_routing_from_config,
  remember, parse_children, http_routing_from_config, parse,
}
use kubo.Routing.Trees.{has_http, height}
use kubo.Routing.Methods.{check-iff_supported}
use kubo.Routing.Termination.{parse-ends}
use kubo.Routing.Soundness.{IsComposed}
use kubo.Routing.Complete.{parse-iff_IsComposed}
use kubo.Routing.Providing.{has_http_provider_configured-has_http, router_supports-loop}

abbrev constructors : Constructors String
constructors = record {
  gomaxprocs = pos 8;
  http_client = λ params. ok params.endpoint;
  create_dht = λ public mode. elim mode [
    | mode_auto ↦ ok "dual"
    | mode_client ↦ ok "client"
    | mode_server ↦ err 7
  ];
  create_full_rt = ok "full";
}

abbrev child : String → ConfigRouter
child name = record {
  router_name = name;
  timeout = pos 10;
  ignore_errors = true;
  execute_after = none;
}

abbrev web : RouterConfig
web = http (record {
  endpoint = "https://router.example";
  max_provide_batch_size = pos 0;
  max_provide_concurrency = pos 4;
})

abbrev lan : RouterConfig
lan = dht (record { mode = "auto"; accelerated_dht_client = false; public_ip_network = true })

abbrev routers : Routers
routers = ("lan", lan) ∷ ("web", web) ∷ ("both", parallel (child "lan" ∷ child "web" ∷ [])) ∷ []

-- two routers that refer to each other
abbrev looped : Routers
looped = ("a", parallel (child "b" ∷ [])) ∷ ("b", sequential (child "a" ∷ [])) ∷ []

abbrev methods : String → String → Methods
methods finder provider =
    ("find-peers", finder)
    ∷ ("find-providers", finder)
    ∷ ("get-ipns", finder)
    ∷ ("put-ipns", finder)
    ∷ ("provide", provider)
    ∷ []

abbrev both_router : Router String
both_router = parallel_router (
    branch (dht_leaf "dual") (parallel_options (child "lan"))
      (branch (http_leaf "https://router.example") (parallel_options (child "web")) end))

abbrev composer : Composer String
composer = record {
  get_value_router = some (dht_leaf "dual");
  put_value_router = some (dht_leaf "dual");
  find_peers_router = some (dht_leaf "dual");
  find_providers_router = some (dht_leaf "dual");
  provide_router = some both_router;
}

parse_both : parse constructors routers (methods "lan" "both") ≡ ok composer
unfolding parse check check_missing check_unsupported parse_methods assign_router parse_router
    parse_step parse_new visit create_router dht_routing_from_config remember parse_children
    http_routing_from_config fill_defaults
parse_both = refl

cycle_refused : parse constructors looped (methods "b" "a") ≡ err (dependency_loop "b")
unfolding parse check check_missing check_unsupported parse_methods parse_router parse_step
    parse_new visit create_router parse_children
cycle_refused = refl

parse-ends_example : parse constructors looped (methods "b" "a") ≢ err out_of_fuel
parse-ends_example = parse-ends constructors looped (methods "b" "a")

parse-iff_IsComposed_example : (parse constructors routers (methods "lan" "both") ≡ ok composer) ↔ (
    (check (methods "lan" "both") ≡ ok tt)
    × IsComposed constructors routers (methods "lan" "both") composer)
parse-iff_IsComposed_example =
    parse-iff_IsComposed constructors routers (methods "lan" "both") composer

has_http_provider_configured-has_http_example :
    has_http_provider_configured routers (methods "lan" "both") 3 ≡ some (has_http both_router)
unfolding height
has_http_provider_configured-has_http_example =
    has_http_provider_configured-has_http constructors routers (methods "lan" "both") composer
      both_router 3 parse_both refl (omega arith)

router_supports-loop_example :
    router_supports_http_providing (("self", parallel (child "self" ∷ [])) ∷ []) 1000 "self" ≡ none
router_supports-loop_example =
    router_supports-loop (("self", parallel (child "self" ∷ [])) ∷ []) "self" (child "self") [] 1000
      refl (inl refl)

check-iff_supported_example : (check (methods "lan" "both") ≡ ok tt) ↔ (
    (name : String)
    → is_some (get (methods "lan" "both") name) ≡ is_supported method_name_list name)
check-iff_supported_example = check-iff_supported (methods "lan" "both")
