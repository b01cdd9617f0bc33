-- ===== src/Routing/Pending.antt =====
-- The calls of parse in routing/delegated.go for a name whose router the configuration describes:
-- they return it, whatever other names parse is at work on, if these have higher routers.
use kubo.Common.{
  ℕ, suc, ◌<◌, ◌≤◌, ◌≡◌, ◌⊎◌, refl, String, string_eq, true, none, List, [], ◌∷◌, ok, err, get,
  contains, arith, inl, inr,
}
use kubo.Common.Acts.{pure, ◌>>=◌}
use kubo.Routing.Config.{ConfigRouter, Routers}
use kubo.Routing.Parse.{
  out_of_fuel, Router, http_leaf, dht_leaf, parallel_router, sequential_router, Branches, end,
  branch, BranchOptions, parallel_options, sequential_options, Constructors, ParseState, Step,
  parse_children, create_router,
}
use kubo.Routing.Trees.{height, branches_height}
use kubo.Routing.Built.{IsBuilt, AreBuilt, Remembered}

module _ {Leaf : Type 0} (ext : Constructors Leaf) (routers : Routers) where
  -- The names on which parse is at work.
  unfoldable pub Pending : ParseState Leaf → String → Type 0
  Pending s n = (contains s.visited n ≡ true) × (get s.created n ≡ none)

  -- No router of at most this height belongs to a name on which parse is at work.
  unfoldable pub Clear : ℕ → ParseState Leaf → Type 0
  Clear bound s =
      (n : String) (r : Router Leaf) → Pending s n → IsBuilt ext routers n r → bound < height r

  unfoldable pub Returns : {A : Type 0} → A → Step Leaf A → ParseState Leaf → Type 0
  Returns a act s =
      ((act s).0 ≡ ok a)
      × Remembered ext routers (act s).1
      × ((n : String) → Pending (act s).1 n → Pending s n)

  unfoldable pub Completes : {A : Type 0} → ℕ → A → Step Leaf A → ParseState Leaf → Type 0
  Completes bound a act s =
      Remembered ext routers s → Clear bound s → ((act s).0 ≡ err out_of_fuel) ⊎ Returns a act s

  pub pure-Completes :
      {A : Type 0} (bound : ℕ) (a : A) (s : ParseState Leaf) → Completes bound a (pure a) s
  unfolding Completes Returns
  pure-Completes bound a s remembered clear = inr (refl, remembered, λ n p. p)

  pub >>=-Completes :
      {A B : Type 0} (bound : ℕ) (a : A) (b : B) (m : Step Leaf A) (f : A → Step Leaf B)
      (s : ParseState Leaf)
      → Completes bound a m s
      → ((t : ParseState Leaf) → Completes bound b (f a) t)
      → Completes bound b (m >>= f) s
  unfolding Completes Returns Clear
  >>=-Completes bound a b m f s first next remembered clear = elim (first remembered clear) [
    | inl out ↦ rw out (inl refl)
    | inr (e, kept, fewer) ↦
        rw e (elim (next (m s).1 kept (λ n r p built. clear n r (fewer n p) built)) [
          | inl out ↦ inl out
          | inr (e', kept', fewer') ↦ inr (e', kept', λ n p. fewer n (fewer' n p))
        ])
  ]

  pub parse_children-Completes :
      (bound : ℕ) (call : String → Step Leaf (Router Leaf)) (options : ConfigRouter → BranchOptions)
      (children : List ConfigRouter) (bs : Branches Leaf) (s : ParseState Leaf)
      → ((n : String) (r : Router Leaf) (t : ParseState Leaf)
          → IsBuilt ext routers n r
          → height r ≤ bound
          → Completes bound r (call n) t)
      → AreBuilt ext routers options children bs
      → branches_height bs ≤ bound
      → Completes bound bs (parse_children call options children) s
  unfolding parse_children AreBuilt IsBuilt branches_height height
  parse_children-Completes bound call options [] end s calls built high = pure-Completes bound end s
  parse_children-Completes bound call options [] (branch r o bs) s calls built high = absurd built
  parse_children-Completes bound call options (c ∷ cs) end s calls built high = absurd built
  parse_children-Completes bound call options (c ∷ cs) (branch r o bs) s calls (built, same, rest)
        high =
      >>=-Completes bound r (branch r o bs) (call c.router_name)
        (λ ri. do later ← parse_children call options cs; pure (branch ri (options c) later)) s
        (calls c.router_name r s built (omega arith))
        (λ t.
          >>=-Completes bound bs (branch r o bs) (parse_children call options cs)
            (λ later. pure (branch r (options c) later)) t
            (parse_children-Completes bound call options cs bs t calls rest (omega arith))
            (λ u. rw same (pure-Completes bound (branch r (options c) bs) u)))

  pub create_router-Completes :
      (bound : ℕ) (call : String → Step Leaf (Router Leaf)) (name : String) (r : Router Leaf)
      (s : ParseState Leaf)
      → ((n : String) (r' : Router Leaf) (t : ParseState Leaf)
          → IsBuilt ext routers n r'
          → height r' ≤ bound
          → Completes bound r' (call n) t)
      → IsBuilt ext routers name r
      → height r ≤ suc bound
      → Completes bound r (create_router call ext (get routers name) name) s
  unfolding create_router IsBuilt AreBuilt branches_height height
  create_router-Completes bound call name (http_leaf l) s calls (params, found, made) high =
      rw (found, create_router, made) (pure-Completes bound (http_leaf l) s)
  create_router-Completes bound call name (dht_leaf l) s calls (params, found, made) high =
      rw (found, create_router, made) (pure-Completes bound (dht_leaf l) s)
  create_router-Completes bound call name (parallel_router bs) s calls (cs, found, built) high =
      rw (found, create_router)
        (>>=-Completes bound bs (parallel_router bs) (parse_children call parallel_options cs)
          (λ pr. pure (parallel_router pr)) s
          (parse_children-Completes bound call parallel_options cs bs s calls built (omega arith))
          (pure-Completes bound (parallel_router bs)))
  create_router-Completes bound call name (sequential_router bs) s calls (cs, found, built) high =
      rw (found, create_router)
        (>>=-Completes bound bs (sequential_router bs) (parse_children call sequential_options cs)
          (λ sr. pure (sequential_router sr)) s
          (parse_children-Completes bound call sequential_options cs bs s calls built (omega arith))
          (pure-Completes bound (sequential_router bs)))
