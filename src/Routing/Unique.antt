-- ===== src/Routing/Unique.antt =====
-- The routers of routing/delegated.go: a name has at most one built router.
use kubo.Common.{◌≡◌, refl, String, string_eq, List, [], ◌∷◌, ap}
use kubo.Routing.Config.{ConfigRouter, Routers}
use kubo.Routing.Parse.{
  Router, http_leaf, dht_leaf, parallel_router, sequential_router, Branches, end, branch,
  BranchOptions, parallel_options, sequential_options, Constructors,
}
use kubo.Routing.Built.{IsBuilt, AreBuilt}

module _ {Leaf : Type 0} (ext : Constructors Leaf) (routers : Routers) where
  mutual
    unfolding IsBuilt AreBuilt

    pub IsBuilt-unique :
        (name : String) (r r' : Router Leaf)
        → IsBuilt ext routers name r
        → IsBuilt ext routers name r'
        → r ≡ r'
    IsBuilt-unique name (http_leaf l) (http_leaf l') (p, g, m) (p', g', m') =
        let same : p' ≡ p = cc in let made' = rw same at m' in cc
    IsBuilt-unique name (http_leaf l) (dht_leaf l') (p, g, m) (p', g', m') = cc
    IsBuilt-unique name (http_leaf l) (parallel_router bs) (p, g, m) (p', g', m') = cc
    IsBuilt-unique name (http_leaf l) (sequential_router bs) (p, g, m) (p', g', m') = cc
    IsBuilt-unique name (dht_leaf l) (dht_leaf l') (p, g, m) (p', g', m') =
        let same : p' ≡ p = cc in let made' = rw same at m' in cc
    IsBuilt-unique name (dht_leaf l) (http_leaf l') (p, g, m) (p', g', m') = cc
    IsBuilt-unique name (dht_leaf l) (parallel_router bs) (p, g, m) (p', g', m') = cc
    IsBuilt-unique name (dht_leaf l) (sequential_router bs) (p, g, m) (p', g', m') = cc
    IsBuilt-unique name (parallel_router bs) (http_leaf l') (p, g, m) (p', g', m') = cc
    IsBuilt-unique name (parallel_router bs) (dht_leaf l') (p, g, m) (p', g', m') = cc
    IsBuilt-unique name (parallel_router bs) (sequential_router bs') (p, g, m) (p', g', m') = cc
    IsBuilt-unique name (parallel_router bs) (parallel_router bs') (cs, g, m) (cs', g', m') =
        let same : cs' ≡ cs = cc in
        ap parallel_router (AreBuilt-unique parallel_options cs bs bs' m (rw same at m'))
    IsBuilt-unique name (sequential_router bs) (http_leaf l') (p, g, m) (p', g', m') = cc
    IsBuilt-unique name (sequential_router bs) (dht_leaf l') (p, g, m) (p', g', m') = cc
    IsBuilt-unique name (sequential_router bs) (parallel_router bs') (p, g, m) (p', g', m') = cc
    IsBuilt-unique name (sequential_router bs) (sequential_router bs') (cs, g, m) (cs', g', m') =
        let same : cs' ≡ cs = cc in
        ap sequential_router (AreBuilt-unique sequential_options cs bs bs' m (rw same at m'))

    AreBuilt-unique :
        (options : ConfigRouter → BranchOptions) (children : List ConfigRouter)
        (bs bs' : Branches Leaf)
        → AreBuilt ext routers options children bs
        → AreBuilt ext routers options children bs'
        → bs ≡ bs'
    AreBuilt-unique options [] end end h h' = refl
    AreBuilt-unique options [] (branch r o bs) bs' h h' = absurd h
    AreBuilt-unique options [] end (branch r o bs) h h' = absurd h'
    AreBuilt-unique options (c ∷ cs) end bs' h h' = absurd h
    AreBuilt-unique options (c ∷ cs) (branch r o bs) end h h' = absurd h'
    AreBuilt-unique options (c ∷ cs) (branch r o bs) (branch r' o' bs') (built, e, rest)
          (built', e', rest') =
        let first = IsBuilt-unique c.router_name r r' built built' in
        let later = AreBuilt-unique options cs bs bs' rest rest' in cc
