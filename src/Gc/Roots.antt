-- ===== src/Gc/Roots.antt =====
-- Descendants and the other stages of ColoredSet: what each adds to the set.
use kubo.Common.{
  subst, ℕ, ◌≡◌, ◌≢◌, refl, true, false, Option, none, some, List, [], ◌∷◌, Eq, Result, ok, err,
  contains, arith, Bool-cases, inl, inr, ◌⊎◌, ◌==◌, ==→≡, ==-self, Option-cases,
}
use kubo.Gc.World.{Cids, GcError, failure, GcState, GetLinks, World, poll, send}
use kubo.Gc.Mark.{to_cid_v1, visit, verify_get_links, descendants, report, mark_descendants}
use kubo.Gc.Walk.{Run, children}
use kubo.Gc.Growth.{
  Grows, Grows-refl, Grows-trans, Grows-same, IsLinks, Run-Grows, verify-IsLinks, poll-Grows,
  set-poll, send-Grows,
}
use kubo.Gc.Coverage.{IsMarked, IsClosed, Run-IsClosed, Run-marks}

-- The keys that a channel of pins delivers.
abbrev pub keys_of : {Cid : Type 0} → List (Result ℕ Cid) → List Cid
keys_of [] = []
keys_of (ok k ∷ pins) = k ∷ keys_of pins
keys_of (err code ∷ pins) = keys_of pins

errors-report :
    {Cid : Type 0} (x : GcError Cid) (s : GcState Cid) → (report (some x) s).1.errors ≡ true
unfolding report send
errors-report x s = ground arith

report-Grows :
    {Cid : Type 0} ⦃e : Eq Cid⦄ (x : Option (GcError Cid)) (s : GcState Cid)
    → Grows s (report x s).1
unfolding report
report-Grows none s = Grows-refl s
report-Grows (some x) s =
    Grows-trans (Grows-same s (record s { errors = true }) refl refl (λ c. c) (λ f. refl))
      (send-Grows (failure x) (record s { errors = true }))

module _ {Cid Hash : Type 0} ⦃e : Eq Cid⦄ (cids : Cids Cid Hash) (world : World Cid)
    (gl : GetLinks Cid) where
  -- dag.Walk walks, with this callback
  abbrev pub Walks : Type 0
  Walks =
      (root : Cid) (s : GcState Cid)
      → Run (verify_get_links world gl) (visit cids) (root ∷ []) s
          (world.walk (verify_get_links world gl) (visit cids) root s).0
          (world.walk (verify_get_links world gl) (visit cids) root s).1

  abbrev walk_state : Cid → GcState Cid → GcState Cid
  walk_state root s = (world.walk (verify_get_links world gl) (visit cids) root s).1

  -- The ways in which one round of the loop ends.
  round_cases :
      (root : Cid) (pins : List (Result ℕ Cid)) (s : GcState Cid)
      → ((descendants cids world gl (ok root ∷ pins) s).0 ≢ none)
          × ((descendants cids world gl (ok root ∷ pins) s).1 ≡ (poll s).1)
        ⊎ ((descendants cids world gl (ok root ∷ pins) s).0 ≢ none)
          × ((descendants cids world gl (ok root ∷ pins) s).1 ≡ walk_state root (poll s).1)
        ⊎ ((world.walk (verify_get_links world gl) (visit cids) root (poll s).1).0 ≡ none)
          × (descendants cids world gl (ok root ∷ pins) s
              ≡ descendants cids world gl pins (walk_state root (poll s).1))
  unfolding descendants
  round_cases root pins s = elim (Bool-cases (poll s).0) [
    | inl over ↦ inl (ground arith, ground arith)
    | inr open_still ↦
        elim (Option-cases
          (world.walk (verify_get_links world gl) (visit cids) root (poll s).1).0) [
            | inl fine ↦ inr (inr (fine, ground arith))
            | inr (x, bad) ↦ inr (inl (ground arith, ground arith))
          ]
  ]

  module _ (is_links : IsLinks world gl) (walks : Walks) where
    walk-Grows : (root : Cid) (s : GcState Cid) → Grows s (walk_state root s)
    walk-Grows root s =
        Run-Grows cids world (verify_get_links world gl) (verify-IsLinks world gl is_links)
          (walks root s)

    pub descendants-Grows :
        (pins : List (Result ℕ Cid)) (s : GcState Cid)
        → Grows s (descendants cids world gl pins s).1
    unfolding descendants
    descendants-Grows [] s = poll-Grows s
    descendants-Grows (err code ∷ pins) s = poll-Grows s
    descendants-Grows (ok root ∷ pins) s = elim (round_cases root pins s) [
      | inl (_, e) ↦ rw e (poll-Grows s)
      | inr (inl (_, e)) ↦ rw e (Grows-trans (poll-Grows s) (walk-Grows root (poll s).1))
      | inr (inr (_, e)) ↦ rw e (
          Grows-trans (poll-Grows s) (
            Grows-trans (walk-Grows root (poll s).1)
              (descendants-Grows pins (walk_state root (poll s).1))))
    ]

    -- Without an error, every root that came is marked.
    pub descendants-marks :
        (pins : List (Result ℕ Cid)) (s : GcState Cid)
        → (descendants cids world gl pins s).0 ≡ none
        → (k : Cid) → contains (keys_of pins) k ≡ true
        → IsMarked cids (descendants cids world gl pins s).1.set k
    unfolding descendants
    descendants-marks [] s fine k m = cc
    descendants-marks (err code ∷ pins) s fine k m = cc
    descendants-marks (ok root ∷ pins) s fine k m = elim (round_cases root pins s) [
      | inl (bad, _) ↦ absurd (bad fine)
      | inr (inl (bad, _)) ↦ absurd (bad fine)
      | inr (inr (walked, e)) ↦
          let t = walk_state root (poll s).1 in
          let reached =
            Run-marks cids world (verify_get_links world gl) (verify-IsLinks world gl is_links)
              (walks root (poll s).1) walked root (rw (==-self root)) in
          elim (Bool-cases (root == k)) [
            | inl same ↦ rw e (
                subst (IsMarked cids (descendants cids world gl pins t).1.set) (==→≡ root k same)
                  ((descendants-Grows pins t).keeps (to_cid_v1 cids root) reached))
            | inr other ↦ rw e (descendants-marks pins t (rw e at fine) k (rw other at m))
          ]
    ]

    pub stage_errors :
        (pins : List (Result ℕ Cid)) (s : GcState Cid)
        → (mark_descendants cids world gl pins s).1.errors ≡ false
        → ((descendants cids world gl pins s).0 ≡ none)
          × (mark_descendants cids world gl pins s ≡ (ok tt, (descendants cids world gl pins s).1))
    unfolding mark_descendants report
    stage_errors pins s fine = elim (Option-cases (descendants cids world gl pins s).0) [
      | inl e ↦ (e, rw (e, report))
      | inr (x, e) ↦
          let bad : (report (some x) (descendants cids world gl pins s).1).1.errors ≡ false =
            rw e at fine in
          cc (errors-report x (descendants cids world gl pins s).1)
    ]

    pub stage-Grows :
        (pins : List (Result ℕ Cid)) (s : GcState Cid)
        → Grows s (mark_descendants cids world gl pins s).1
    unfolding mark_descendants
    stage-Grows pins s =
        Grows-trans (descendants-Grows pins s)
          (report-Grows (descendants cids world gl pins s).0 (descendants cids world gl pins s).1)

    module _
        (same_children : (k : Cid) → children world (to_cid_v1 cids k) ≡ children world k) where
      one_root :
          (set : List Cid) (root : Cid)
          → IsClosed cids world set []
          → IsClosed cids world set (root ∷ [])
      one_root set root h = record {
        links = λ k c mk mc. elim (h.links k c mk mc) [ inl marked ↦ inl marked | inr never ↦ cc ];
      }

      -- Without an error, a closed set stays closed.
      pub descendants-IsClosed :
          (pins : List (Result ℕ Cid)) (s : GcState Cid)
          → (descendants cids world gl pins s).0 ≡ none
          → IsClosed cids world s.set []
          → IsClosed cids world (descendants cids world gl pins s).1.set []
      unfolding descendants
      descendants-IsClosed [] s fine c = rw set-poll c
      descendants-IsClosed (err code ∷ pins) s fine c = cc
      descendants-IsClosed (ok root ∷ pins) s fine c = elim (round_cases root pins s) [
        | inl (bad, _) ↦ absurd (bad fine)
        | inr (inl (bad, _)) ↦ absurd (bad fine)
        | inr (inr (walked, e)) ↦
            let t = walk_state root (poll s).1 in
            let c1 : IsClosed cids world (poll s).1.set (root ∷ []) =
              rw set-poll (one_root s.set root c) in
            let c2 =
              Run-IsClosed cids world same_children (verify_get_links world gl)
                (verify-IsLinks world gl is_links) (walks root (poll s).1) walked c1 in
            rw e (descendants-IsClosed pins t (rw e at fine) c2)
      ]
