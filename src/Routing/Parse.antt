-- ===== src/Routing/Parse.antt =====
-- routing/delegated.go: the routers that Parse builds from the configuration. The clients that
-- other packages construct are parameters; a composed router is a tree over them.
use kubo.Common.{
  ℕ, zero, suc, String, string_eq, Bool, Option, none, some, List, [], ◌∷◌, Result, ok, err,
  if◌then◌else◌, ◌==◌, Map, get, put, contains, length,
}
use kubo.Common.Acts.{Act, pure, fail, lift, ◌>>=◌}
use kubo.Common.Integers.{ℤ, pos}
use kubo.Routing.Config.{
  HttpRouterParams, fill_defaults, DhtRouterParams, ConfigRouter, RouterConfig, http, dht, parallel,
  sequential, unknown_type, Routers, Methods, MethodError, check, method_text, put_ipns, get_ipns,
  find_peers, find_providers, provide,
}

pub data RoutingError : Type 0 where
  bad_methods : MethodError → RoutingError
  dependency_loop config_not_found : String → RoutingError
  unknown_router_type invalid_dht_mode : String → RoutingError
  endpoint_needed : RoutingError
  from_outside : ℕ → RoutingError
  out_of_fuel : RoutingError

pub data DhtMode : Type 0 where
  mode_auto mode_client mode_server : DhtMode

-- The options of one child; a sequential router has no `execute_after`.
pub record BranchOptions : Type 0 where
  pub ignore_error : Bool
  pub timeout : ℤ
  pub execute_after : Option ℤ

mutual
  pub data Router (Leaf : Type 0) : Type 0 where
    http_leaf dht_leaf : Leaf → Router Leaf
    parallel_router sequential_router : Branches Leaf → Router Leaf

  pub data Branches (Leaf : Type 0) : Type 0 where
    end : Branches Leaf
    branch : Router Leaf → BranchOptions → Branches Leaf → Branches Leaf

-- A router that is not set is `none`.
pub record Composer (Leaf : Type 0) : Type 0 where
  pub get_value_router : Option (Router Leaf)
  pub put_value_router : Option (Router Leaf)
  pub find_peers_router : Option (Router Leaf)
  pub find_providers_router : Option (Router Leaf)
  pub provide_router : Option (Router Leaf)

-- The constructors of other packages: the HTTP client with its content router, dht.New and
-- fullrt.NewFullRT.
pub record Constructors (Leaf : Type 0) : Type 0 where
  pub gomaxprocs : ℤ
  pub http_client : HttpRouterParams → Result ℕ Leaf
  pub create_dht : Bool → DhtMode → Result ℕ Leaf
  pub create_full_rt : Result ℕ Leaf

pub record ParseState (Leaf : Type 0) : Type 0 where
  pub visited : List String
  pub created : Map String (Router Leaf)

abbrev pub Step : Type 0 → Type 0 → Type 0
Step Leaf A = Act RoutingError (ParseState Leaf) A

abbrev pub parallel_options : ConfigRouter → BranchOptions
parallel_options cr = record {
  ignore_error = cr.ignore_errors;
  timeout = cr.timeout;
  execute_after = some (elim cr.execute_after [ none ↦ pos 0 | some d ↦ d ]);
}

abbrev pub sequential_options : ConfigRouter → BranchOptions
sequential_options cr = record {
  ignore_error = cr.ignore_errors;
  timeout = cr.timeout;
  execute_after = none;
}

module _ {Leaf : Type 0} where
  abbrev pub made : (Leaf → Router Leaf) → Result ℕ Leaf → Result RoutingError (Router Leaf)
  made leaf (ok l) = ok (leaf l)
  made leaf (err code) = err (from_outside code)

  unfoldable pub http_routing_from_config :
      Constructors Leaf → HttpRouterParams → Result RoutingError (Router Leaf)
  http_routing_from_config ext params =
      if params.endpoint == ""
      then err endpoint_needed
      else made http_leaf (ext.http_client (fill_defaults ext.gomaxprocs params))

  unfoldable pub dht_routing_from_config :
      Constructors Leaf → DhtRouterParams → Result RoutingError (Router Leaf)
  dht_routing_from_config ext params =
      let dht_in =
        λ (mode : DhtMode). made dht_leaf (ext.create_dht params.public_ip_network mode) in
      if params.accelerated_dht_client
      then made dht_leaf ext.create_full_rt
      else if params.mode == "auto"
      then dht_in mode_auto
      else if params.mode == "client"
      then dht_in mode_client
      else if params.mode == "server"
      then dht_in mode_server
      else err (invalid_dht_mode params.mode)

  -- The loops over the children: `call` is the recursive call.
  unfoldable pub parse_children :
      (String → Step Leaf (Router Leaf))
      → (ConfigRouter → BranchOptions)
      → List ConfigRouter
      → Step Leaf (Branches Leaf)
  parse_children call options [] = pure end
  parse_children call options (cr ∷ routers) = do
    ri ← call cr.router_name
    rest ← parse_children call options routers
    pure (branch ri (options cr) rest)

  -- the switch on the type
  unfoldable pub create_router :
      (String → Step Leaf (Router Leaf))
      → Constructors Leaf
      → Option RouterConfig
      → String
      → Step Leaf (Router Leaf)
  create_router call ext none name = fail (config_not_found name)
  create_router call ext (some (http params)) name = lift (http_routing_from_config ext params)
  create_router call ext (some (dht params)) name = lift (dht_routing_from_config ext params)
  create_router call ext (some (parallel routers)) name = do
    pr ← parse_children call parallel_options routers
    pure (parallel_router pr)
  create_router call ext (some (sequential routers)) name = do
    sr ← parse_children call sequential_options routers
    pure (sequential_router sr)
  create_router call ext (some (unknown_type t)) name = fail (unknown_router_type t)

  unfoldable pub visit : String → Step Leaf (Unit {0})
  visit name s =
      if contains s.visited name
      then (err (dependency_loop name), s)
      else (ok tt, record s { visited = name ∷ s.visited })

  unfoldable pub remember : String → Router Leaf → Step Leaf (Router Leaf)
  remember name router s = (ok router, record s { created = put s.created name router })

  abbrev pub new_composer : Composer Leaf
  new_composer = record {
    get_value_router = none;
    put_value_router = none;
    find_peers_router = none;
    find_providers_router = none;
    provide_router = none;
  }

  -- The switch of Parse on the method's name
  unfoldable pub assign_router : String → Router Leaf → Composer Leaf → Composer Leaf
  assign_router mn router final_router =
      if mn == method_text put_ipns
      then record final_router { put_value_router = some router }
      else if mn == method_text get_ipns
      then record final_router { get_value_router = some router }
      else if mn == method_text find_peers
      then record final_router { find_peers_router = some router }
      else if mn == method_text find_providers
      then record final_router { find_providers_router = some router }
      else if mn == method_text provide
      then record final_router { provide_router = some router }
      else final_router

  module _ (ext : Constructors Leaf) (routers : Routers) where
    -- parse, for a name that is not created yet
    unfoldable pub parse_new : (String → Step Leaf (Router Leaf)) → String → Step Leaf (Router Leaf)
    parse_new call name = do
      _ ← visit name
      router ← create_router call ext (get routers name) name
      remember name router

    unfoldable pub parse_step :
        (String → Step Leaf (Router Leaf)) → String → Step Leaf (Router Leaf)
    parse_step call name s = elim (get s.created name) [
      | some r ↦ (ok r, s)
      | none ↦ parse_new call name s
    ]

    -- parse, with a bound on the depth of its recursion
    unfoldable pub parse_router : ℕ → String → Step Leaf (Router Leaf)
    parse_router zero name = fail out_of_fuel
    parse_router (suc fuel) name = parse_step (parse_router fuel) name

    -- The loop of Parse; each method starts with no name visited. The methods are a map, so that the
    -- fields of the Composer may be set after the loop.
    unfoldable pub parse_methods : Methods → Step Leaf (Composer Leaf)
    unfolding assign_router
    parse_methods [] = pure new_composer
    parse_methods ((mn, router_name) ∷ methods) = do
      router ← (λ s. parse_router (suc (length routers)) router_name (record s { visited = [] }))
      final_router ← parse_methods methods
      pure (assign_router mn router final_router)

    unfoldable pub parse : Methods → Result RoutingError (Composer Leaf)
    parse methods = elim (check methods) [
      | err e ↦ err (bad_methods e)
      | ok _ ↦ (parse_methods methods (record { visited = []; created = [] })).0
    ]
