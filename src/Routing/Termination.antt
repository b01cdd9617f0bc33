-- ===== src/Routing/Termination.antt =====
-- The recursion of parse in routing/delegated.go ends: the names that are configured and not
-- visited yet become fewer.
use kubo.Common.{
  ℕ, zero, suc, ◌<◌, ◌≤◌, ◌≡◌, ◌≢◌, sym, ap, ◌∙◌, Map, String, string_eq, true, false, Option, none,
  some, List, [], ◌∷◌, Result, ok, err, if◌then◌else◌, ◌==◌, get, contains, length, arith,
  Bool-cases, Option-cases, Result-cases, inl, inr, ==→≡, ==-self, is_some,
}
use kubo.Common.Acts.{pure, lift, ◌>>=◌}
use kubo.Routing.Config.{
  HttpRouterParams, fill_defaults, DhtRouterParams, ConfigRouter, RouterConfig, http, dht, parallel,
  sequential, unknown_type, Routers, Methods, check,
}
use kubo.Routing.Parse.{
  RoutingError, out_of_fuel, config_not_found, unknown_router_type, mode_auto, mode_client,
  mode_server, http_leaf, dht_leaf, Router, end, branch, parallel_router, sequential_router,
  BranchOptions, parallel_options, sequential_options, Constructors, ParseState, Step, made,
  http_routing_from_config, dht_routing_from_config, parse_children, create_router, visit, remember,
  parse_new, parse_step, parse_router, parse,
}
use kubo.Routing.Entries.{composed, parse_entries, parse_methods-entries}

-- The configured names that are not visited.
unfoldable unvisited : Routers → List String → ℕ
unvisited [] visited = 0
unvisited ((name, c) ∷ routers) visited =
    let rest = unvisited routers visited in if contains visited name then rest else suc rest

unvisited-≤ :
    (routers : Routers) (visited : List String) → unvisited routers visited ≤ length routers
unfolding unvisited
unvisited-≤ [] visited = omega arith
unvisited-≤ ((name, c) ∷ routers) visited = ground (arith, unvisited-≤ routers visited)

unvisited-cons :
    (routers : Routers) (visited : List String) (name : String)
    → unvisited routers (name ∷ visited) ≤ unvisited routers visited
unfolding unvisited
unvisited-cons [] visited name = omega arith
unvisited-cons ((n, c) ∷ routers) visited name = ground (arith, unvisited-cons routers visited name)

unvisited-visit :
    (routers : Routers) (visited : List String) (name : String)
    → is_some (get routers name) ≡ true
    → contains visited name ≡ false
    → unvisited routers (name ∷ visited) < unvisited routers visited
unfolding unvisited
unvisited-visit [] visited name known new = cc
unvisited-visit ((n, c) ∷ routers) visited name known new = elim (Bool-cases (n == name)) [
  | inl same ↦
      rw (==→≡ n name same) (ground (arith, ==-self name, unvisited-cons routers visited name))
  | inr other ↦ let rest = unvisited-visit routers visited name (ground arith) new in ground arith
]

module _ {Leaf : Type 0} (ext : Constructors Leaf) (routers : Routers) where
  abbrev left_of : ParseState Leaf → ℕ
  left_of s = unvisited routers s.visited

  -- With less than `fuel` names left, the act does not run out of fuel and leaves no more names.
  Settles : {A : Type 0} → ℕ → Step Leaf A → ParseState Leaf → Type 0
  Settles fuel act s =
      left_of s < fuel → ((act s).0 ≢ err out_of_fuel) × (left_of (act s).1 ≤ left_of s)

  lift-Settles :
      {A : Type 0} (fuel : ℕ) (r : Result RoutingError A) (s : ParseState Leaf)
      → r ≢ err out_of_fuel
      → Settles fuel (lift r) s
  unfolding Settles
  lift-Settles fuel r s fine bound = (fine, omega arith)

  >>=-Settles :
      {A B : Type 0} (fuel : ℕ) (m : Step Leaf A) (f : A → Step Leaf B) (s : ParseState Leaf)
      → Settles fuel m s
      → ((a : A) (t : ParseState Leaf) → Settles fuel (f a) t)
      → Settles fuel (m >>= f) s
  unfolding Settles
  >>=-Settles fuel m f s first next bound =
      let (ends, leaves) = first bound in
      elim (Result-cases (m s).0) [
        | inl (a, e) ↦
            rw e (let (ends', leaves') = next a (m s).1 (omega arith) in (ends', omega arith))
        | inr (x, e) ↦ rw e ((λ out. ends (let same = out in cc)), omega arith)
      ]

  parse_children-Settles :
      (fuel : ℕ) (call : String → Step Leaf (Router Leaf)) (options : ConfigRouter → BranchOptions)
      (children : List ConfigRouter) (s : ParseState Leaf)
      → ((name : String) (t : ParseState Leaf) → Settles fuel (call name) t)
      → Settles fuel (parse_children call options children) s
  unfolding parse_children
  parse_children-Settles fuel call options [] s calls = lift-Settles fuel (ok end) s (λ out. cc)
  parse_children-Settles fuel call options (cr ∷ children) s calls =
      >>=-Settles fuel (call cr.router_name)
        (λ ri. do rest ← parse_children call options children; pure (branch ri (options cr) rest)) s
        (calls cr.router_name s)
        (λ ri t.
          >>=-Settles fuel (parse_children call options children)
            (λ rest. pure (branch ri (options cr) rest)) t
            (parse_children-Settles fuel call options children t calls)
            (λ rest u. lift-Settles fuel (ok (branch ri (options cr) rest)) u (λ out. cc)))

  made-fine : (leaf : Leaf → Router Leaf) (r : Result ℕ Leaf) → made leaf r ≢ err out_of_fuel
  made-fine leaf (ok l) out = cc
  made-fine leaf (err code) out = let same = out in cc

  http-fine : (params : HttpRouterParams) → http_routing_from_config ext params ≢ err out_of_fuel
  unfolding http_routing_from_config
  http-fine params out = elim (Bool-cases (params.endpoint == "")) [
    | inl empty ↦ let bad = rw (empty, http_routing_from_config) at out in cc
    | inr given ↦
        made-fine http_leaf (ext.http_client (fill_defaults ext.gomaxprocs params))
          (rw (given, http_routing_from_config) at out)
  ]

  dht-fine : (params : DhtRouterParams) → dht_routing_from_config ext params ≢ err out_of_fuel
  unfolding dht_routing_from_config
  dht-fine params out =
      let full = made-fine dht_leaf ext.create_full_rt in
      let auto = made-fine dht_leaf (ext.create_dht params.public_ip_network mode_auto) in
      let client = made-fine dht_leaf (ext.create_dht params.public_ip_network mode_client) in
      let server = made-fine dht_leaf (ext.create_dht params.public_ip_network mode_server) in
      ground arith

  create_router-Settles :
      (fuel : ℕ) (call : String → Step Leaf (Router Leaf)) (config : Option RouterConfig)
      (name : String) (s : ParseState Leaf)
      → ((n : String) (t : ParseState Leaf) → Settles fuel (call n) t)
      → Settles fuel (create_router call ext config name) s
  unfolding create_router
  create_router-Settles fuel call none name s calls =
      lift-Settles fuel (err (config_not_found name)) s (λ out. cc)
  create_router-Settles fuel call (some (http params)) name s calls =
      lift-Settles fuel (http_routing_from_config ext params) s (http-fine params)
  create_router-Settles fuel call (some (dht params)) name s calls =
      lift-Settles fuel (dht_routing_from_config ext params) s (dht-fine params)
  create_router-Settles fuel call (some (parallel children)) name s calls =
      >>=-Settles fuel (parse_children call parallel_options children)
        (λ pr. pure (parallel_router pr)) s
        (parse_children-Settles fuel call parallel_options children s calls)
        (λ pr t. lift-Settles fuel (ok (parallel_router pr)) t (λ out. cc))
  create_router-Settles fuel call (some (sequential children)) name s calls =
      >>=-Settles fuel (parse_children call sequential_options children)
        (λ sr. pure (sequential_router sr)) s
        (parse_children-Settles fuel call sequential_options children s calls)
        (λ sr t. lift-Settles fuel (ok (sequential_router sr)) t (λ out. cc))
  create_router-Settles fuel call (some (unknown_type t)) name s calls =
      lift-Settles fuel (err (unknown_router_type t)) s (λ out. cc)

  remember-Settles :
      (fuel : ℕ) (name : String) (router : Router Leaf) (s : ParseState Leaf)
      → Settles fuel (remember name router) s
  unfolding remember Settles
  remember-Settles fuel name router s bound = ((λ out. cc), omega arith)

  create_then_remember-Settles :
      (fuel : ℕ) (call : String → Step Leaf (Router Leaf)) (config : Option RouterConfig)
      (name : String) (s : ParseState Leaf)
      → ((n : String) (t : ParseState Leaf) → Settles fuel (call n) t)
      → Settles fuel (create_router call ext config name >>= remember name) s
  create_then_remember-Settles fuel call config name s calls =
      >>=-Settles fuel (create_router call ext config name) (remember name) s
        (create_router-Settles fuel call config name s calls) (remember-Settles fuel name)

  parse_new-Settles :
      (fuel : ℕ) (call : String → Step Leaf (Router Leaf)) (name : String) (s : ParseState Leaf)
      → ((n : String) (t : ParseState Leaf) → Settles fuel (call n) t)
      → Settles (suc fuel) (parse_new ext routers call name) s
  unfolding Settles parse_new visit create_router
  parse_new-Settles fuel call name s calls bound = elim (Bool-cases (contains s.visited name)) [
    | inl old ↦ rw old ((λ out. cc), omega arith)
    | inr new ↦ rw new (
        let t = record s { visited = name ∷ s.visited } in
        let fewer = unvisited-cons routers s.visited name in
        elim (Option-cases (get routers name)) [
          | inl unknown ↦ rw (unknown, create_router) ((λ out. cc), omega arith)
          | inr (config, known) ↦
              let less = unvisited-visit routers s.visited name (rw known) new in
              let (ends, leaves) =
                create_then_remember-Settles fuel call (get routers name) name t calls
                  (omega arith) in
              (ends, omega arith)
        ])
  ]

  parse_step-Settles :
      (fuel : ℕ) (call : String → Step Leaf (Router Leaf)) (name : String) (s : ParseState Leaf)
      → ((n : String) (t : ParseState Leaf) → Settles fuel (call n) t)
      → Settles (suc fuel) (parse_step ext routers call name) s
  unfolding parse_step Settles
  parse_step-Settles fuel call name s calls bound = elim (Option-cases (get s.created name)) [
    | inl new ↦ rw (new, parse_step) (parse_new-Settles fuel call name s calls bound)
    | inr (r, old) ↦ rw (old, parse_step) ((λ out. cc), omega arith)
  ]

  parse_router-Settles :
      (fuel : ℕ) (name : String) (s : ParseState Leaf)
      → Settles fuel (parse_router ext routers fuel name) s
  unfolding parse_router Settles
  parse_router-Settles zero name s bound = absurd (omega arith)
  parse_router-Settles (suc fuel) name s bound =
      parse_step-Settles fuel (parse_router ext routers fuel) name s (parse_router-Settles fuel)
        bound

  parse_entries-ends :
      (methods : Methods) (s : ParseState Leaf)
      → (parse_entries ext routers methods s).0 ≢ err out_of_fuel
  unfolding parse_entries Settles
  parse_entries-ends [] s out = cc
  parse_entries-ends ((mn, name) ∷ methods) s out =
      let fuel = suc (length routers) in
      let start = record s { visited = [] } in
      let bound = unvisited-≤ routers [] in
      let settles = parse_router-Settles fuel name start in
      let (ends, leaves) = settles (omega arith) in
      elim (Result-cases (parse_router ext routers fuel name start).0) [
        | inl (router, e) ↦
            let t = (parse_router ext routers fuel name start).1 in
            let out' = rw e at out in
            elim (Result-cases (parse_entries ext routers methods t).0) [
              | inl (rest, e') ↦ let bad = rw e' at out' in cc
              | inr (x, e') ↦ let bad = rw e' at out' in parse_entries-ends methods t cc
            ]
        | inr (x, e) ↦ let bad = rw e at out in ends cc
      ]

  composed-fails :
      (r : Result RoutingError (Map String (Router Leaf))) (x : RoutingError)
      → composed r ≡ err x
      → r ≡ err x
  composed-fails (ok entries) x e = cc
  composed-fails (err y) x e = let same : y ≡ x = cc in ap err same

  -- Parse never runs out of the fuel that it gives its recursion, one more than the number of
  -- configured routers, whatever the routers refer to.
  pub parse-ends : (methods : Methods) → parse ext routers methods ≢ err out_of_fuel
  unfolding parse
  parse-ends methods out = elim (Result-cases (check methods)) [
    | inl (_, e) ↦
        let s : ParseState Leaf = record { visited = []; created = [] } in
        let out' = rw (e, parse) at out in
        parse_entries-ends methods s (
          composed-fails (parse_entries ext routers methods s).0 out_of_fuel
            (sym (parse_methods-entries ext routers methods s) ∙ out'))
    | inr (x, e) ↦ let bad = rw (e, parse) at out in cc
  ]
