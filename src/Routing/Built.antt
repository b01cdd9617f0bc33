-- ===== src/Routing/Built.antt =====
-- The routers that a configuration describes, without the order in which parse of
-- routing/delegated.go builds them: a router is built for a name when its tree follows the
-- configuration from that name on.
use kubo.Common.{
  ℕ, ◌≡◌, refl, sym, String, string_eq, Option, none, some, List, [], ◌∷◌, Result, ok, err, ◌==◌,
  get, put, get-put, Bool-cases, inl, inr, ==→≡, ap,
}
use kubo.Common.Acts.{pure, lift, ◌>>=◌, >>=-eq-ok}
use kubo.Routing.Config.{
  HttpRouterParams, fill_defaults, DhtRouterParams, ConfigRouter, RouterConfig, http, dht, parallel,
  sequential, unknown_type, Routers,
}
use kubo.Routing.Parse.{
  RoutingError, config_not_found, unknown_router_type, DhtMode, mode_auto, mode_client, mode_server,
  Router, http_leaf, dht_leaf, Branches, end, branch, parallel_router, sequential_router,
  BranchOptions, parallel_options, sequential_options, Constructors, ParseState, Step, made,
  http_routing_from_config, dht_routing_from_config, parse_children, create_router,
}

module _ {Leaf : Type 0} (ext : Constructors Leaf) (routers : Routers) where
  unfoldable mutual
    pub IsBuilt : String → Router Leaf → Type 0
    IsBuilt name (http_leaf l) =
        (params : HttpRouterParams) × (get routers name ≡ some (http params))
        × (http_routing_from_config ext params ≡ ok (http_leaf l))
    IsBuilt name (dht_leaf l) =
        (params : DhtRouterParams) × (get routers name ≡ some (dht params))
        × (dht_routing_from_config ext params ≡ ok (dht_leaf l))
    IsBuilt name (parallel_router branches) =
        (children : List ConfigRouter) × (get routers name ≡ some (parallel children))
        × AreBuilt parallel_options children branches
    IsBuilt name (sequential_router branches) =
        (children : List ConfigRouter) × (get routers name ≡ some (sequential children))
        × AreBuilt sequential_options children branches

    pub AreBuilt : (ConfigRouter → BranchOptions) → List ConfigRouter → Branches Leaf → Type 0
    AreBuilt options [] end = Unit
    AreBuilt options [] (branch router o branches) = ⊥
    AreBuilt options (child ∷ children) end = ⊥
    AreBuilt options (child ∷ children) (branch router o branches) =
        IsBuilt child.router_name router × (o ≡ options child) × AreBuilt options children branches

  -- Every router that parse remembers is built for its name.
  unfoldable pub Remembered : ParseState Leaf → Type 0
  Remembered s = (name : String) (r : Router Leaf) → get s.created name ≡ some r → IsBuilt name r

  pub Remembered-put :
      (name : String) (router : Router Leaf) (s : ParseState Leaf)
      → IsBuilt name router
      → Remembered s
      → Remembered (record s { created = put s.created name router })
  unfolding Remembered IsBuilt AreBuilt
  Remembered-put name router s built start n r found =
      let put_found = rw (get-put s.created name n router) at found in
      elim (Bool-cases (name == n)) [
        | inl equal ↦
            let router_found = rw equal at put_found in
            let here : router ≡ r = cc in rw (sym (==→≡ name n equal), sym here) built
        | inr other ↦ start n r (rw other at put_found)
      ]

  -- An act that succeeds from remembered routers has a result that satisfies `P`, and keeps them.
  unfoldable pub Sound : {A : Type 0} → (A → Type 0) → Step Leaf A → ParseState Leaf → Type 0
  Sound P act s =
      Remembered s → (a : _) (t : ParseState Leaf) → act s ≡ (ok a, t) → P a × Remembered t

  pub >>=-Sound :
      {A B : Type 0} (P : A → Type 0) (Q : B → Type 0) (m : Step Leaf A) (f : A → Step Leaf B)
      (s : ParseState Leaf)
      → Sound P m s
      → ((a : A) (t : ParseState Leaf) → P a → Sound Q (f a) t)
      → Sound Q (m >>= f) s
  unfolding Sound
  >>=-Sound P Q m f s first next start b u e =
      let (a, e1, e2) = >>=-eq-ok m f s u b e in
      let (pa, kept) = first start a (m s).1 cc in next a (m s).1 pa kept b u e2

  pub lift-Sound :
      {A : Type 0} (P : A → Type 0) (r : Result RoutingError A) (s : ParseState Leaf)
      → ((a : A) → r ≡ ok a → P a)
      → Sound P (lift r) s
  unfolding Sound
  lift-Sound P r s holds start b t e =
      let same = ap (λ p. p.0) e in let state = ap (λ p. p.1) e in (holds b same, rw state at start)

  pub pure-Sound :
      {A : Type 0} (P : A → Type 0) (a : A) (s : ParseState Leaf) → P a → Sound P (pure a) s
  pure-Sound P a s pa = lift-Sound P (ok a) s (λ b e. let same : a ≡ b = cc in rw same at pa)

  pub parse_children-Sound :
      (call : String → Step Leaf (Router Leaf)) (options : ConfigRouter → BranchOptions)
      (children : List ConfigRouter) (s : ParseState Leaf)
      → ((name : String) (t : ParseState Leaf) → Sound (IsBuilt name) (call name) t)
      → Sound (AreBuilt options children) (parse_children call options children) s
  unfolding parse_children AreBuilt IsBuilt
  parse_children-Sound call options [] s calls = pure-Sound (AreBuilt options []) end s tt
  parse_children-Sound call options (cr ∷ children) s calls =
      >>=-Sound (IsBuilt cr.router_name) (AreBuilt options (cr ∷ children)) (call cr.router_name)
        (λ ri. do rest ← parse_children call options children; pure (branch ri (options cr) rest)) s
        (calls cr.router_name s)
        (λ ri t built.
          >>=-Sound (AreBuilt options children) (AreBuilt options (cr ∷ children))
            (parse_children call options children) (λ rest. pure (branch ri (options cr) rest)) t
            (parse_children-Sound call options children t calls)
            (λ rest u are_built.
              pure-Sound (AreBuilt options (cr ∷ children)) (branch ri (options cr) rest) u
                (built, refl, are_built)))

  made-leaf :
      (leaf : Leaf → Router Leaf) (r : Result ℕ Leaf) (router : Router Leaf)
      → made leaf r ≡ ok router
      → (l : Leaf) × (router ≡ leaf l)
  made-leaf leaf (ok l) router e = (l, cc)
  made-leaf leaf (err code) router e = cc

  pub http-leaf :
      (params : HttpRouterParams) (router : Router Leaf)
      → http_routing_from_config ext params ≡ ok router
      → (l : Leaf) × (router ≡ http_leaf l)
  unfolding http_routing_from_config
  http-leaf params router e = elim (Bool-cases (params.endpoint == "")) [
    | inl empty ↦ let bad = rw (empty, http_routing_from_config) at e in cc
    | inr given ↦
        made-leaf http_leaf (ext.http_client (fill_defaults ext.gomaxprocs params)) router
          (rw (given, http_routing_from_config) at e)
  ]

  pub dht-leaf :
      (params : DhtRouterParams) (router : Router Leaf)
      → dht_routing_from_config ext params ≡ ok router
      → (l : Leaf) × (router ≡ dht_leaf l)
  unfolding dht_routing_from_config
  dht-leaf params router e =
      let dht_in = λ (mode : DhtMode).
        made-leaf dht_leaf (ext.create_dht params.public_ip_network mode) router in
      elim (Bool-cases params.accelerated_dht_client) [
        | inl fast ↦
            made-leaf dht_leaf ext.create_full_rt router (rw (fast, dht_routing_from_config) at e)
        | inr plain ↦ elim (Bool-cases (params.mode == "auto")) [
          | inl auto ↦ dht_in mode_auto (rw (plain, auto, dht_routing_from_config) at e)
          | inr not_auto ↦ elim (Bool-cases (params.mode == "client")) [
            | inl client ↦
                dht_in mode_client (rw (plain, not_auto, client, dht_routing_from_config) at e)
            | inr not_client ↦ elim (Bool-cases (params.mode == "server")) [
              | inl server ↦
                  dht_in mode_server
                    (rw (plain, not_auto, not_client, server, dht_routing_from_config) at e)
              | inr other ↦
                  let bad = rw (plain, not_auto, not_client, other, dht_routing_from_config) at e in
                  cc
            ]
          ]
        ]
      ]

  pub create_router-Sound :
      (call : String → Step Leaf (Router Leaf)) (config : Option RouterConfig) (name : String)
      (s : ParseState Leaf)
      → ((n : String) (t : ParseState Leaf) → Sound (IsBuilt n) (call n) t)
      → get routers name ≡ config
      → Sound (IsBuilt name) (create_router call ext config name) s
  unfolding create_router IsBuilt AreBuilt
  create_router-Sound call none name s calls found =
      lift-Sound (IsBuilt name) (err (config_not_found name)) s (λ a e. cc)
  create_router-Sound call (some (http params)) name s calls found =
      lift-Sound (IsBuilt name) (http_routing_from_config ext params) s
        (λ r e. let (l, same) = http-leaf params r e in rw same (params, found, rw same at e))
  create_router-Sound call (some (dht params)) name s calls found =
      lift-Sound (IsBuilt name) (dht_routing_from_config ext params) s
        (λ r e. let (l, same) = dht-leaf params r e in rw same (params, found, rw same at e))
  create_router-Sound call (some (parallel children)) name s calls found =
      >>=-Sound (AreBuilt parallel_options children) (IsBuilt name)
        (parse_children call parallel_options children) (λ pr. pure (parallel_router pr)) s
        (parse_children-Sound call parallel_options children s calls)
        (λ pr t built. pure-Sound (IsBuilt name) (parallel_router pr) t (children, found, built))
  create_router-Sound call (some (sequential children)) name s calls found =
      >>=-Sound (AreBuilt sequential_options children) (IsBuilt name)
        (parse_children call sequential_options children) (λ sr. pure (sequential_router sr)) s
        (parse_children-Sound call sequential_options children s calls)
        (λ sr t built. pure-Sound (IsBuilt name) (sequential_router sr) t (children, found, built))
  create_router-Sound call (some (unknown_type t)) name s calls found =
      lift-Sound (IsBuilt name) (err (unknown_router_type t)) s (λ a e. cc)
