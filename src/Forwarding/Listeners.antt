-- ===== src/Forwarding/Listeners.antt =====
-- p2p/listener.go: the registry of the listeners. A listener belongs to local.go or remote.go; the
-- registry reads its key and closes it, and the listeners closed are listed.
use kubo.Common.{
  ℕ, ◌≡◌, refl, ◌∙◌, String, string_eq, Bool, false, ◌&&◌, ◌||◌, none, some, List, [], ◌∷◌, ◌++◌,
  if◌then◌else◌, Result, ok, err, ◌==◌, ==→≡, Map, get, put, delete, get-delete, delete_absent,
  length, is_some, arith, Bool-cases, Option-cases, inl, inr,
}

pub record Listeners (Listener : Type 0) : Type 0 where
  pub listeners : Map String Listener
  pub closed : List Listener

pub data ListenerError : Type 0 where
  already_registered : ListenerError

module _ {Listener : Type 0} (key : Listener → String) where
  unfoldable pub register_listener :
      Listener → Listeners Listener → Result ListenerError (Unit {0}) × Listeners Listener
  register_listener l r =
      if is_some (get r.listeners (key l))
      then (err already_registered, r)
      else (ok tt, record r { listeners = put r.listeners (key l) l })

  module _ (match_func : Listener → Bool) where
    -- The loop over the listeners, which deletes from the map that it goes over.
    unfoldable pub take_matching :
        Map String Listener → Map String Listener → List Listener × Map String Listener
    take_matching [] listeners = ([], listeners)
    take_matching ((k, l) ∷ entries) listeners =
        let taken = take_matching entries (delete listeners (key l)) in
        let passed = take_matching entries listeners in
        if match_func l then (l ∷ taken.0, taken.1) else passed

    unfoldable pub close_listeners : Listeners Listener → ℕ × Listeners Listener
    close_listeners r =
        let (todo, rest) = take_matching r.listeners r.listeners in
        (length todo, record r { listeners = rest; closed = r.closed ++ todo })

    -- An entry matches and has this key.
    matched : Map String Listener → String → Bool
    matched [] j = false
    matched ((k, l) ∷ entries) j = ((key l == j) && match_func l) || matched entries j

    get-take_matching :
        (entries listeners : Map String Listener) (j : String)
        → get (take_matching entries listeners).1 j
          ≡ (if matched entries j then none else get listeners j)
    unfolding take_matching matched
    get-take_matching [] listeners j = refl
    get-take_matching ((k, l) ∷ entries) listeners j = elim (Bool-cases (match_func l)) [
      | inl matches ↦
          rw (take_matching, matches)
            (get-take_matching entries (delete listeners (key l)) j
              ∙ (let look = get-delete listeners (key l) j in ground arith))
      | inr other ↦ rw (take_matching, other) (get-take_matching entries listeners j ∙ ground arith)
    ]

  -- Every listener stands under its own key, and no key stands twice.
  unfoldable pub IsKeyed : Map String Listener → Type 0
  IsKeyed [] = Unit
  IsKeyed ((k, l) ∷ entries) = (key l ≡ k) × (get entries k ≡ none) × IsKeyed entries

  matched-get :
      (match_func : Listener → Bool) (entries : Map String Listener) (j : String)
      → IsKeyed entries
      → matched match_func entries j
        ≡ (elim (get entries j) [ none ↦ false | some l ↦ match_func l ])
  unfolding matched IsKeyed
  matched-get match_func [] j keyed = refl
  matched-get match_func ((k, l) ∷ entries) j (own, absent, keyed) =
      let rest = matched-get match_func entries j keyed in
      elim (Bool-cases (k == j)) [
        | inl same ↦
            let absent' = rw (==→≡ k j same) at absent in
            let none_left : matched match_func entries j ≡ false = rest ∙ rw absent' refl in
            rw (own, same, none_left) (ground arith)
        | inr other ↦ rw (own, other) rest
      ]

  register_listener-IsKeyed :
      (l : Listener) (r : Listeners Listener)
      → IsKeyed r.listeners
      → IsKeyed (register_listener l r).1.listeners
  unfolding register_listener IsKeyed
  register_listener-IsKeyed l r keyed = elim (Option-cases (get r.listeners (key l))) [
    | inr (old, there) ↦ rw (register_listener, there) keyed
    | inl absent ↦
        let same = delete_absent r.listeners (key l) absent in
        rw (register_listener, absent, same) (refl, absent, keyed)
  ]

  delete-IsKeyed :
      (entries : Map String Listener) (k : String) → IsKeyed entries → IsKeyed (delete entries k)
  unfolding IsKeyed
  delete-IsKeyed [] k keyed = tt
  delete-IsKeyed ((j, l) ∷ entries) k (own, absent, keyed) = elim (Bool-cases (j == k)) [
    | inl same ↦ rw same (delete-IsKeyed entries k keyed)
    | inr other ↦ rw other (
      own,
      get-delete entries k j ∙ (let gone = absent in ground arith),
      delete-IsKeyed entries k keyed,
    )
  ]

  take_matching-IsKeyed :
      (match_func : Listener → Bool) (entries listeners : Map String Listener)
      → IsKeyed listeners
      → IsKeyed (take_matching match_func entries listeners).1
  unfolding take_matching
  take_matching-IsKeyed match_func [] listeners keyed = keyed
  take_matching-IsKeyed match_func ((k, l) ∷ entries) listeners keyed =
      elim (Bool-cases (match_func l)) [
        | inl matches ↦
            rw (take_matching, matches)
              (take_matching-IsKeyed match_func entries (delete listeners (key l))
                (delete-IsKeyed listeners (key l) keyed))
        | inr other ↦
            rw (take_matching, other) (take_matching-IsKeyed match_func entries listeners keyed)
      ]

  -- The calls of a registry, and the registry after them.
  pub data Call : Type 0 where
    register_call : Listener → Call
    close_call : (Listener → Bool) → Call

  abbrev pub after : List Call → Listeners Listener
  after [] = record { listeners = []; closed = [] }
  after (register_call l ∷ calls) = (register_listener l (after calls)).1
  after (close_call match_func ∷ calls) = (close_listeners match_func (after calls)).1

  after-IsKeyed : (calls : List Call) → IsKeyed (after calls).listeners
  unfolding IsKeyed close_listeners
  after-IsKeyed [] = tt
  after-IsKeyed (register_call l ∷ calls) =
      register_listener-IsKeyed l (after calls) (after-IsKeyed calls)
  after-IsKeyed (close_call match_func ∷ calls) =
      take_matching-IsKeyed match_func (after calls).listeners (after calls).listeners
        (after-IsKeyed calls)

  -- Close of a registry after any calls, the last first, leaves exactly the listeners that do not
  -- match, each under its key.
  pub close_listeners-unmatched :
      (calls : List Call) (match_func : Listener → Bool) (j : String)
      → get (after (close_call match_func ∷ calls)).listeners j
        ≡ (elim (get (after calls).listeners j) [
          | none ↦ none
          | some l ↦ if match_func l then none else some l
        ])
  unfolding close_listeners
  close_listeners-unmatched calls match_func j =
      let entries = (after calls).listeners in
      get-take_matching match_func entries entries j
      ∙ (let test = matched-get match_func entries j (after-IsKeyed calls) in
          elim (Option-cases (get entries j)) [
            | inl absent ↦ rw (test, absent) refl
            | inr (l, there) ↦ rw (test, there) refl
          ])
