-- ===== src/Routing/Entries.antt =====
-- The loop of Parse in routing/delegated.go with its routers in a list in place of the fields of the
-- Composer, and the Composer that such a list describes.
use kubo.Common.{
  suc, ◌≡◌, refl, ap, String, string_eq, [], ◌∷◌, Result, ok, err, ◌==◌, Map, get, length,
  Bool-cases, Result-cases, inl, inr, ==→≡,
}
use kubo.Common.Acts.{pure, ◌>>=◌}
use kubo.Routing.Config.{Routers, Methods}
use kubo.Routing.Parse.{
  RoutingError, Router, Composer, Constructors, ParseState, Step, assign_router, parse_router,
  parse_methods,
}

module _ {Leaf : Type 0} where
  -- Each field is the router that the list has for the method of this field.
  abbrev pub composer_of : Map String (Router Leaf) → Composer Leaf
  composer_of entries = record {
    get_value_router = get entries "get-ipns";
    put_value_router = get entries "put-ipns";
    find_peers_router = get entries "find-peers";
    find_providers_router = get entries "find-providers";
    provide_router = get entries "provide";
  }

  assign_router-composer_of :
      (mn : String) (router : Router Leaf) (entries : Map String (Router Leaf))
      → assign_router mn router (composer_of entries) ≡ composer_of ((mn, router) ∷ entries)
  unfolding assign_router
  assign_router-composer_of mn router entries = elim (Bool-cases (mn == "put-ipns")) [
    | inl is ↦ rw (==→≡ mn "put-ipns" is) refl
    | inr no_put ↦ elim (Bool-cases (mn == "get-ipns")) [
      | inl is ↦ rw (==→≡ mn "get-ipns" is) refl
      | inr no_get ↦ elim (Bool-cases (mn == "find-peers")) [
        | inl is ↦ rw (==→≡ mn "find-peers" is) refl
        | inr no_peers ↦ elim (Bool-cases (mn == "find-providers")) [
          | inl is ↦ rw (==→≡ mn "find-providers" is) refl
          | inr no_providers ↦ elim (Bool-cases (mn == "provide")) [
            | inl is ↦ rw (==→≡ mn "provide" is) refl
            | inr no_provide ↦
                rw (assign_router, no_put, no_get, no_peers, no_providers, no_provide) refl
          ]
        ]
      ]
    ]
  ]

  abbrev pub composed :
      Result RoutingError (Map String (Router Leaf)) → Result RoutingError (Composer Leaf)
  composed (ok entries) = ok (composer_of entries)
  composed (err x) = err x

  module _ (ext : Constructors Leaf) (routers : Routers) where
    unfoldable pub parse_entries : Methods → Step Leaf (Map String (Router Leaf))
    parse_entries [] = pure []
    parse_entries ((mn, router_name) ∷ methods) = do
      router ← (λ s.
          parse_router ext routers (suc (length routers)) router_name (record s { visited = [] }))
      rest ← parse_entries methods
      pure ((mn, router) ∷ rest)

    pub parse_methods-entries :
        (methods : Methods) (s : ParseState Leaf)
        → (parse_methods ext routers methods s).0 ≡ composed (parse_entries methods s).0
    unfolding parse_methods parse_entries
    parse_methods-entries [] s = refl
    parse_methods-entries ((mn, name) ∷ methods) s =
        let start : ParseState Leaf = record s { visited = [] } in
        let fuel = suc (length routers) in
        elim (Result-cases (parse_router ext routers fuel name start).0) [
          | inr (x, e) ↦ rw (parse_methods, parse_entries, e) refl
          | inl (router, e) ↦
              let t = (parse_router ext routers fuel name start).1 in
              let same = parse_methods-entries methods t in
              elim (Result-cases (parse_entries methods t).0) [
                | inr (x, e') ↦
                    let same' = rw e' at same in
                    rw (parse_methods, parse_entries, e, e', same') refl
                | inl (entries, e') ↦
                    let same' = rw e' at same in
                    rw (parse_methods, parse_entries, e, e', same')
                      (ap ok (assign_router-composer_of mn router entries))
              ]
        ]
