-- ===== src/Routing/Complete.antt =====
-- Parse of routing/delegated.go builds every composition that the configuration describes: its
-- check for dependency loops refuses none of them.
use kubo.Common.{
  ℕ, zero, suc, ◌≤◌, ◌≡◌, ◌⊎◌, ◌↔◌, refl, sym, ap, ◌∙◌, String, string_eq, none, [], ◌∷◌, ok, err,
  ◌==◌, Map, get, get-put, contains, length, arith, Bool-cases, Option-cases, inl, inr, ==→≡,
}
use kubo.Routing.Config.{Routers, Methods, check}
use kubo.Routing.Parse.{
  out_of_fuel, Router, Composer, http_leaf, dht_leaf, parallel_router, sequential_router,
  Constructors, ParseState, Step, create_router, visit, remember, parse_new, parse_step,
  parse_router, parse,
}
use kubo.Routing.Entries.{composed, parse_entries, parse_methods-entries}
use kubo.Routing.Trees.{height, branches_height}
use kubo.Routing.Built.{IsBuilt, Remembered, Remembered-put}
use kubo.Routing.Unique.{IsBuilt-unique}
use kubo.Routing.Soundness.{IsListed, IsComposed, parse-IsComposed}
use kubo.Routing.Termination.{parse-ends}
use kubo.Routing.Pending.{Pending, Clear, Returns, Completes, create_router-Completes}

module _ {Leaf : Type 0} (ext : Constructors Leaf) (routers : Routers) where
  height-suc : (r : Router Leaf) → (p : ℕ) × (height r ≡ suc p)
  unfolding height branches_height
  height-suc (http_leaf l) = (0, refl)
  height-suc (dht_leaf l) = (0, refl)
  height-suc (parallel_router bs) = (branches_height bs, refl)
  height-suc (sequential_router bs) = (branches_height bs, refl)

  remember-Returns :
      (name : String) (r : Router Leaf) (s t : ParseState Leaf)
      → IsBuilt ext routers name r
      → Remembered ext routers t
      → ((n : String)
          → Pending ext routers t n
          → Pending ext routers (record s { visited = name ∷ s.visited }) n)
      → Returns ext routers r (λ _. remember name r t) s
  unfolding Returns remember Pending
  remember-Returns name r s t built remembered fewer = (
    refl,
    Remembered-put ext routers name r t built remembered,
    λ n (v, c).
        let c' = rw (get-put t.created name n r) at c in
        elim (Bool-cases (name == n)) [
          | inl same ↦ let bad = rw same at c' in cc
          | inr other ↦ let (v', kept) = fewer n (v, rw other at c') in (ground arith, kept)
        ],
  )

  parse_new-Completes :
      (bound : ℕ) (call : String → Step Leaf (Router Leaf)) (name : String) (r : Router Leaf)
      (s : ParseState Leaf)
      → ((b : ℕ) (n : String) (r' : Router Leaf) (t : ParseState Leaf)
          → IsBuilt ext routers n r'
          → height r' ≤ b
          → Completes ext routers b r' (call n) t)
      → IsBuilt ext routers name r
      → height r ≤ bound
      → get s.created name ≡ none
      → Completes ext routers bound r (parse_new ext routers call name) s
  unfolding parse_new visit Completes Clear Pending Returns Remembered
  parse_new-Completes bound call name r s calls built high new remembered clear =
      elim (Bool-cases (contains s.visited name)) [
        | inl old ↦ let high' = clear name r (old, new) built in absurd (omega arith)
        | inr unseen ↦
            let (p, size) = height-suc r in
            let t : ParseState Leaf = record s { visited = name ∷ s.visited } in
            let create = create_router call ext (get routers name) name in
            let below : Clear ext routers p t = λ n r' (v, c) built'.
              elim (Bool-cases (name == n)) [
                | inl same ↦
                    let one =
                      IsBuilt-unique ext routers name r r' built
                        (rw (sym (==→≡ name n same)) at built') in
                    rw (sym one) (omega arith)
                | inr other ↦ let high' = clear n r' (ground arith, c) built' in omega arith
              ] in
            elim (create_router-Completes ext routers p call name r t (calls p) built (omega arith)
              remembered below) [
                | inl out ↦ inl (rw (parse_new, visit, unseen, out))
                | inr (e, kept, fewer) ↦
                    inr (rw (unseen, e) (remember-Returns name r s (create t).1 built kept fewer))
              ]
      ]

  parse_router-Completes :
      (fuel bound : ℕ) (name : String) (r : Router Leaf) (s : ParseState Leaf)
      → IsBuilt ext routers name r
      → height r ≤ bound
      → Completes ext routers bound r (parse_router ext routers fuel name) s
  unfolding parse_router parse_step Completes Returns Remembered
  parse_router-Completes zero bound name r s built high remembered clear = inl refl
  parse_router-Completes (suc fuel) bound name r s built high remembered clear =
      elim (Option-cases (get s.created name)) [
        | inl new ↦
            rw (new, parse_step)
              (parse_new-Completes bound (parse_router ext routers fuel) name r s
                (parse_router-Completes fuel) built high new remembered clear)
        | inr (r', old) ↦
            let same = IsBuilt-unique ext routers name r r' built (remembered name r' old) in
            rw (old, parse_step, same) (inr (refl, remembered, λ n p. p))
      ]

  parse_from_start :
      (fuel : ℕ) (name : String) (r : Router Leaf) (s : ParseState Leaf)
      → IsBuilt ext routers name r
      → Remembered ext routers s
      → ((parse_router ext routers fuel name (record s { visited = [] })).0 ≡ err out_of_fuel)
        ⊎ (((parse_router ext routers fuel name (record s { visited = [] })).0 ≡ ok r)
            × Remembered ext routers
                (parse_router ext routers fuel name (record s { visited = [] })).1)
  unfolding Completes Returns Remembered Clear Pending
  parse_from_start fuel name r s built remembered =
      elim (parse_router-Completes fuel (height r) name r (record s { visited = [] }) built
        (omega arith) remembered (λ n r' (v, c) b. cc)) [
          | inl out ↦ inl out
          | inr (e, kept, _) ↦ inr (e, kept)
        ]

  parse_entries-Completes :
      (methods : Methods) (entries : Map String (Router Leaf)) (s : ParseState Leaf)
      → IsListed ext routers methods entries
      → Remembered ext routers s
      → ((parse_entries ext routers methods s).0 ≡ err out_of_fuel)
        ⊎ ((parse_entries ext routers methods s).0 ≡ ok entries)
  unfolding parse_entries IsListed
  parse_entries-Completes [] [] s listed remembered = inr refl
  parse_entries-Completes [] (entry ∷ entries) s listed remembered = absurd listed
  parse_entries-Completes (method ∷ methods) [] s listed remembered = absurd listed
  parse_entries-Completes ((mn, name) ∷ methods) ((mn', r) ∷ entries) s (same, built, rest)
        remembered =
      let start : ParseState Leaf = record s { visited = [] } in
      let fuel = suc (length routers) in
      elim (parse_from_start fuel name r s built remembered) [
        | inl out ↦ inl (rw (parse_entries, out))
        | inr (e, kept) ↦
            elim (parse_entries-Completes methods entries
              (parse_router ext routers fuel name start).1 rest kept) [
                | inl out ↦ inl (rw (parse_entries, e, out))
                | inr done ↦ inr (rw (parse_entries, e, done, same))
              ]
      ]

  -- Parse returns a composer exactly when Methods.Check accepts the methods and each field of the
  -- composer is the router that the configuration describes for the name that the field's method has.
  pub parse-iff_IsComposed :
      (methods : Methods) (composer : Composer Leaf)
      → (parse ext routers methods ≡ ok composer)
        ↔ ((check methods ≡ ok tt) × IsComposed ext routers methods composer)
  unfolding parse Remembered IsComposed
  parse-iff_IsComposed methods composer = (
    parse-IsComposed ext routers methods composer,
    λ (passed, (entries, listed, is)).
        let s : ParseState Leaf = record { visited = []; created = [] } in
        let same = parse_methods-entries ext routers methods s in
        elim (parse_entries-Completes methods entries s listed (λ n r e. cc)) [
          | inl out ↦
              absurd (parse-ends ext routers methods (rw (parse, passed) (same ∙ ap composed out)))
          | inr done ↦ rw (parse, passed) (same ∙ ap composed done ∙ ap ok (sym is))
        ],
  )
