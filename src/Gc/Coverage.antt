-- ===== src/Gc/Coverage.antt =====
-- The mark phase covers what is reachable: a walk that ends without an error leaves a set that is
-- closed under links.
use kubo.Common.{
  subst, ◌≡◌, sym, ap, ◌∙◌, true, false, Option, none, List, [], ◌∷◌, ◌++◌, Eq, contains, arith,
  Bool-cases, inl, inr, ◌⊎◌, ◌==◌, ==→≡, ==-self, contains-append, ||-true_right,
}
use kubo.Gc.World.{Cids, GcError, GcState, GetLinks, World}
use kubo.Gc.Mark.{to_cid_v1, visit}
use kubo.Gc.Walk.{Run, done, stop, seen, fetched, failed, children}
use kubo.Gc.Growth.{IsLinks, Run-Grows}

module _ {Cid : Type 0} ⦃e : Eq Cid⦄ where
  pub contains_split :
      (before after : List Cid) (k c : Cid)
      → contains (before ++ k ∷ after) c ≡ true
      → (k ≡ c) ⊎ (contains (before ++ after) c ≡ true)
  contains_split before after k c m = elim (Bool-cases (k == c)) [
    | inl same ↦ inl (==→≡ k c same)
    | inr other ↦
        inr (ground (arith, contains-append before (k ∷ after) c, contains-append before after c))
  ]

  pub contains_after :
      (xs ys : List Cid) (c : Cid) → contains ys c ≡ true → contains (xs ++ ys) c ≡ true
  contains_after xs ys c m = ground (arith, contains-append xs ys c, ||-true_right (contains xs c))

  pub contains_before :
      (xs ys : List Cid) (c : Cid) → contains xs c ≡ true → contains (xs ++ ys) c ≡ true
  contains_before xs ys c m = ground (arith, contains-append xs ys c)

-- A set of CIDv1s holds `k`, of whatever version.
abbrev pub IsMarked : {Cid Hash : Type 0} ⦃e : Eq Cid⦄ → Cids Cid Hash → List Cid → Cid → Type 0
IsMarked cids set k = contains set (to_cid_v1 cids k) ≡ true

module _ {Cid Hash : Type 0} ⦃e : Eq Cid⦄ (cids : Cids Cid Hash) where
  visited_before :
      (k : Cid) (s : GcState Cid)
      → (visit cids k s).0 ≡ false
      → IsMarked cids s.set k × ((visit cids k s).1 ≡ s)
  unfolding visit
  visited_before k s h = ground arith

  visited_now :
      (k : Cid) (s : GcState Cid)
      → (visit cids k s).0 ≡ true
      → (visit cids k s).1.set ≡ to_cid_v1 cids k ∷ s.set
  unfolding visit
  visited_now k s h = ground arith

  IsMarked-first : (k : Cid) (set : List Cid) → IsMarked cids (to_cid_v1 cids k ∷ set) k
  IsMarked-first k set = rw (==-self (to_cid_v1 cids k))

  -- A walk that ends without an error has marked all that it was to visit.
  pub Run-marks :
      (world : World Cid) (gl : GetLinks Cid)
      → IsLinks world gl
      → {pending : List Cid} {s : GcState Cid} {x : Option (GcError Cid)} {t : GcState Cid}
      → Run gl (visit cids) pending s x t
      → x ≡ none
      → (j : Cid) → contains pending j ≡ true
      → IsMarked cids t.set j
  Run-marks world gl h (done s) no_error j m = cc
  Run-marks world gl h (stop p s) no_error j m = cc
  Run-marks world gl h {pending} {s} {x} {t} (seen before after k split old rest) no_error j m =
      let (marked, same) = visited_before k s old in
      elim (contains_split before after k j (rw split at m)) [
        | inl e ↦
            subst (IsMarked cids t.set) e
              ((Run-Grows cids world gl h rest).keeps (to_cid_v1 cids k) (rw same marked))
        | inr other ↦ Run-marks world gl h rest no_error j other
      ]
  Run-marks world gl h {pending} {s} {x} {t} (fetched before after k ls split new ok_links rest)
        no_error j m =
      let set1 : (gl k (visit cids k s).1).1.set ≡ to_cid_v1 cids k ∷ s.set =
        h.same_set k (visit cids k s).1 ∙ visited_now k s new in
      elim (contains_split before after k j (rw split at m)) [
        | inl e ↦ subst (IsMarked cids t.set) e (
            (Run-Grows cids world gl h rest).keeps (to_cid_v1 cids k)
              (rw set1 (IsMarked-first k s.set)))
        | inr other ↦
            Run-marks world gl h rest no_error j (contains_after ls (before ++ after) j other)
      ]
  Run-marks world gl h (failed before after k x split new e) no_error j m = cc

module _ {Cid Hash : Type 0} ⦃e : Eq Cid⦄ (cids : Cids Cid Hash) (world : World Cid) where
  -- The links of a marked CID are marked, or still to be visited.
  pub record IsClosed (set pending : List Cid) : Type 0 where
    pub links :
        (k c : Cid)
        → IsMarked cids set k
        → contains (children world k) c ≡ true
        → IsMarked cids set c ⊎ (contains pending c ≡ true)

  module _ (same_children : (k : Cid) → children world (to_cid_v1 cids k) ≡ children world k) where
    children_eq :
        (j k : Cid) → to_cid_v1 cids j ≡ to_cid_v1 cids k → children world j ≡ children world k
    children_eq j k h = sym (same_children j) ∙ ap (children world) h ∙ same_children k

    -- visiting a marked CID takes it off the list
    IsClosed-seen :
        (set before after : List Cid) (k : Cid)
        → IsMarked cids set k
        → IsClosed set (before ++ k ∷ after)
        → IsClosed set (before ++ after)
    IsClosed-seen set before after k m h = record {
      links = λ j c mj mc. elim (h.links j c mj mc) [
        | inl marked ↦ inl marked
        | inr waits ↦ elim (contains_split before after k c waits) [
          | inl same ↦ inl (rw same at m)
          | inr other ↦ inr other
        ]
      ];
    }

    -- marking a CID puts its links on the list
    IsClosed-fetched :
        (set before after : List Cid) (k : Cid)
        → IsClosed set (before ++ k ∷ after)
        → IsClosed (to_cid_v1 cids k ∷ set) (children world k ++ (before ++ after))
    IsClosed-fetched set before after k h = record {
      links = λ j c mj mc. elim (Bool-cases (to_cid_v1 cids k == to_cid_v1 cids j)) [
        | inl same ↦
            let ch : children world j ≡ children world k = sym (children_eq k j (==→≡ _ _ same)) in
            inr (contains_before (children world k) (before ++ after) c (rw ch at mc))
        | inr other ↦
            let mj' : IsMarked cids set j = rw other at mj in
            elim (h.links j c mj' mc) [
              | inl marked ↦
                  inl (ground (arith, ||-true_right (to_cid_v1 cids k == to_cid_v1 cids c)))
              | inr waits ↦ elim (contains_split before after k c waits) [
                | inl same ↦ inl (rw same (rw (==-self (to_cid_v1 cids c))))
                | inr rest ↦ inr (contains_after (children world k) (before ++ after) c rest)
              ]
            ]
      ];
    }

    -- A walk that ends without an error leaves the set closed.
    pub Run-IsClosed :
        (gl : GetLinks Cid)
        → IsLinks world gl
        → {pending : List Cid} {s : GcState Cid} {x : Option (GcError Cid)} {t : GcState Cid}
        → Run gl (visit cids) pending s x t
        → x ≡ none
        → IsClosed s.set pending
        → IsClosed t.set []
    Run-IsClosed gl h (done s) no_error c = c
    Run-IsClosed gl h (stop p s) no_error c = cc
    Run-IsClosed gl h {pending} {s} (seen before after k split old rest) no_error c =
        let (marked, same) = visited_before cids k s old in
        let c0 : IsClosed s.set (before ++ k ∷ after) = rw split at c in
        Run-IsClosed gl h rest no_error (rw same (IsClosed-seen s.set before after k marked c0))
    Run-IsClosed gl h {pending} {s} (fetched before after k ls split new ok_links rest) no_error c =
        let s1 = (visit cids k s).1 in
        let set1 : (gl k s1).1.set ≡ to_cid_v1 cids k ∷ s.set =
          h.same_set k s1 ∙ visited_now cids k s new in
        let c0 : IsClosed s.set (before ++ k ∷ after) = rw split at c in
        Run-IsClosed gl h rest no_error
          (rw (set1, h.answers k s1 ls ok_links) (IsClosed-fetched s.set before after k c0))
    Run-IsClosed gl h (failed before after k x split new e) no_error c = cc
