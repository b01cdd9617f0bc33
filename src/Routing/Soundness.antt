-- ===== src/Routing/Soundness.antt =====
-- What Parse of routing/delegated.go returns is the composition that the configuration describes.
use kubo.Common.{
  ℕ, zero, suc, ◌≡◌, refl, sym, ◌∙◌, Result, String, string_eq, [], ◌∷◌, ok, err, Map, get,
  contains, length, Bool-cases, Option-cases, Result-cases, inl, inr, ap,
}
use kubo.Common.Acts.{pure, ◌>>=◌}
use kubo.Routing.Config.{Routers, Methods, check}
use kubo.Routing.Parse.{
  RoutingError, out_of_fuel, Router, Composer, Constructors, ParseState, Step, create_router, visit,
  remember, parse_new, parse_step, parse_router, parse,
}
use kubo.Routing.Entries.{composer_of, composed, parse_entries, parse_methods-entries}
use kubo.Routing.Built.{
  IsBuilt, Remembered, Remembered-put, Sound, >>=-Sound, lift-Sound, pure-Sound,
  create_router-Sound,
}

module _ {Leaf : Type 0} (ext : Constructors Leaf) (routers : Routers) where
  visit-Sound :
      (name : String) (s : ParseState Leaf) → Sound ext routers (λ _. Unit {0}) (visit name) s
  unfolding visit Sound Remembered
  visit-Sound name s start u t e = elim (Bool-cases (contains s.visited name)) [
    | inl old ↦ let bad = ap (λ p. p.0) (rw (old, visit) at e) in cc
    | inr new ↦
        let kept = ap (λ p. p.1.created) (rw (new, visit) at e) in
        (tt, λ n r found. start n r (let found' = found in rw kept cc))
  ]

  remember-Sound :
      (name : String) (router : Router Leaf) (s : ParseState Leaf)
      → IsBuilt ext routers name router
      → Sound ext routers (IsBuilt ext routers name) (remember name router) s
  unfolding remember Sound Remembered
  remember-Sound name router s built start r t e =
      let same = ap (λ p. p.0) e in
      let same' : router ≡ r = cc in
      let state = ap (λ p. p.1.created) e in
      let kept = Remembered-put ext routers name router s built start in
      (rw same' at built, λ n r' found. kept n r' (rw (sym state) at found))

  reset-Sound :
      {A : Type 0} (P : A → Type 0) (act : Step Leaf A) (s : ParseState Leaf)
      → ((t : ParseState Leaf) → Sound ext routers P act t)
      → Sound ext routers P (λ t. act (record t { visited = [] })) s
  unfolding Sound Remembered
  reset-Sound P act s sound start = sound (record s { visited = [] }) start

  parse_new-Sound :
      (call : String → Step Leaf (Router Leaf)) (name : String) (s : ParseState Leaf)
      → ((n : String) (t : ParseState Leaf) → Sound ext routers (IsBuilt ext routers n) (call n) t)
      → Sound ext routers (IsBuilt ext routers name) (parse_new ext routers call name) s
  unfolding parse_new
  parse_new-Sound call name s calls =
      let built = IsBuilt ext routers name in
      >>=-Sound ext routers (λ _. Unit {0}) built (visit name)
        (λ _. create_router call ext (get routers name) name >>= remember name) s
        (visit-Sound name s)
        (λ _ t _.
          >>=-Sound ext routers built built (create_router call ext (get routers name) name)
            (remember name) t
            (create_router-Sound ext routers call (get routers name) name t calls refl)
            (remember-Sound name))

  parse_step-Sound :
      (call : String → Step Leaf (Router Leaf)) (name : String) (s : ParseState Leaf)
      → ((n : String) (t : ParseState Leaf) → Sound ext routers (IsBuilt ext routers n) (call n) t)
      → Sound ext routers (IsBuilt ext routers name) (parse_step ext routers call name) s
  unfolding parse_step Sound Remembered
  parse_step-Sound call name s calls start a t e = elim (Option-cases (get s.created name)) [
    | inl new ↦ parse_new-Sound call name s calls start a t (rw (new, parse_step) at e)
    | inr (r, old) ↦
        lift-Sound ext routers (IsBuilt ext routers name) (ok r) s (λ b same. start name b cc) start
          a t (rw (old, parse_step) at e)
  ]

  parse_router-Sound :
      (fuel : ℕ) (name : String) (s : ParseState Leaf)
      → Sound ext routers (IsBuilt ext routers name) (parse_router ext routers fuel name) s
  unfolding parse_router
  parse_router-Sound zero name s =
      lift-Sound ext routers (IsBuilt ext routers name) (err out_of_fuel) s (λ a e. cc)
  parse_router-Sound (suc fuel) name s =
      parse_step-Sound (parse_router ext routers fuel) name s (parse_router-Sound fuel)

  -- The list has a built router for every method.
  unfoldable pub IsListed : Methods → Map String (Router Leaf) → Type 0
  IsListed [] [] = Unit
  IsListed [] (entry ∷ entries) = ⊥
  IsListed (method ∷ methods) [] = ⊥
  IsListed ((mn, name) ∷ methods) ((mn', router) ∷ entries) =
      (mn ≡ mn') × IsBuilt ext routers name router × IsListed methods entries

  parse_entries-Sound :
      (methods : Methods) (s : ParseState Leaf)
      → Sound ext routers (IsListed methods) (parse_entries ext routers methods) s
  unfolding parse_entries IsListed
  parse_entries-Sound [] s = pure-Sound ext routers (IsListed []) [] s tt
  parse_entries-Sound ((mn, name) ∷ methods) s =
      let composed = IsListed ((mn, name) ∷ methods) in
      >>=-Sound ext routers (IsBuilt ext routers name) composed
        (λ t. parse_router ext routers (suc (length routers)) name (record t { visited = [] }))
        (λ router. do rest ← parse_entries ext routers methods; pure ((mn, router) ∷ rest)) s
        (reset-Sound (IsBuilt ext routers name)
          (parse_router ext routers (suc (length routers)) name) s
          (parse_router-Sound (suc (length routers)) name))
        (λ router t built.
          >>=-Sound ext routers (IsListed methods) composed (parse_entries ext routers methods)
            (λ rest. pure ((mn, router) ∷ rest)) t (parse_entries-Sound methods t)
            (λ rest u rests.
              pure-Sound ext routers composed ((mn, router) ∷ rest) u (refl, built, rests)))

  -- The fields of the composer are the routers that are built for their methods.
  unfoldable pub IsComposed : Methods → Composer Leaf → Type 0
  IsComposed methods composer =
      (entries : Map String (Router Leaf)) × IsListed methods entries
      × (composer ≡ composer_of entries)

  entries-composed :
      (r : Result RoutingError (Map String (Router Leaf))) (composer : Composer Leaf)
      → composed r ≡ ok composer
      → (entries : Map String (Router Leaf)) × (r ≡ ok entries) × (composer ≡ composer_of entries)
  entries-composed (ok entries) composer e = (entries, refl, cc)
  entries-composed (err x) composer e = cc

  -- Parse, if it succeeds ...
  pub parse-IsComposed :
      (methods : Methods) (composer : Composer Leaf)
      → parse ext routers methods ≡ ok composer
      → (check methods ≡ ok tt) × IsComposed methods composer
  unfolding parse Sound Remembered IsComposed
  parse-IsComposed methods composer e = elim (Result-cases (check methods)) [
    | inl (_, passed) ↦
        let s : ParseState Leaf = record { visited = []; created = [] } in
        let result = rw (passed, parse) at e in
        let (entries, found, is) =
          entries-composed (parse_entries ext routers methods s).0 composer
            (sym (parse_methods-entries ext routers methods s) ∙ result) in
        let (listed, _) =
          parse_entries-Sound methods s (λ name r found'. cc) entries
            (parse_entries ext routers methods s).1 cc in
        (passed, (entries, listed, is))
    | inr (x, failed) ↦ let bad = rw (failed, parse) at e in cc
  ]
