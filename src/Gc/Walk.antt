-- ===== src/Gc/Walk.antt =====
-- What dag.Walk of boxo documents, as a relation: it visits the root, fetches the links of a CID
-- for which `visit` says true, and goes on with each of them, in any order; it stops at the first
-- error of a fetch, and may stop when the context is done. The concurrent fetches of
-- dag.Concurrent() are seen one at a time.
use kubo.Common.{ℕ, ◌≡◌, true, false, Option, none, some, List, [], ◌∷◌, ◌++◌, Eq, ok, err}
use kubo.Gc.World.{
  Cids, GcError, context_done, GcState, Fetch, links, not_found, unavailable, GetLinks, Visit,
  World,
}
use kubo.Gc.Mark.{to_cid_v1, visit, get_links, best_effort_get_links, verify_get_links}

module _ {Cid : Type 0} (gl : GetLinks Cid) (vis : Visit Cid) where
  -- `Run pending s e t`: with `pending` still to visit, the walk goes from state `s` to `t`.
  pub data Run : List Cid → GcState Cid → Option (GcError Cid) → GcState Cid → Type 0 where
    done : (s : GcState Cid) → Run [] s none s
    stop : (pending : List Cid) (s : GcState Cid) → Run pending s (some context_done) s
    seen :
        {pending : List Cid} {s : GcState Cid} {e : Option (GcError Cid)} {t : GcState Cid}
        (before after : List Cid) (k : Cid)
        → pending ≡ before ++ k ∷ after
        → (vis k s).0 ≡ false
        → Run (before ++ after) (vis k s).1 e t
        → Run pending s e t
    fetched :
        {pending : List Cid} {s : GcState Cid} {e : Option (GcError Cid)} {t : GcState Cid}
        (before after : List Cid) (k : Cid) (ls : List Cid)
        → pending ≡ before ++ k ∷ after
        → (vis k s).0 ≡ true
        → (gl k (vis k s).1).0 ≡ ok ls
        → Run (ls ++ (before ++ after)) (gl k (vis k s).1).1 e t
        → Run pending s e t
    failed :
        {pending : List Cid} {s : GcState Cid} (before after : List Cid) (k : Cid) (x : GcError Cid)
        → pending ≡ before ++ k ∷ after
        → (vis k s).0 ≡ true
        → (gl k (vis k s).1).0 ≡ err x
        → Run pending s (some x) (gl k (vis k s).1).1

abbrev pub fetched_links : {Cid : Type 0} → Fetch Cid → List Cid
fetched_links (links ls) = ls
fetched_links (not_found code) = []
fetched_links (unavailable code) = []

-- The links of a CID that can be fetched; none if they cannot.
abbrev pub children : {Cid : Type 0} → World Cid → Cid → List Cid
children world k = fetched_links (world.fetch k)

module _ {Cid Hash : Type 0} ⦃e : Eq Cid⦄ (cids : Cids Cid Hash) (world : World Cid) where
  -- What a collection relies on: dag.Walk walks, for the two callbacks of ColoredSet; a CIDv0 and
  -- its CIDv1 name one block and so one list of links; NewCidV1 keeps the hash.
  pub record Assumptions : Type 0 where
    pub walks :
        (root : Cid) (s : GcState Cid)
        → Run
            (verify_get_links world (get_links world))
            (visit cids)
            (root ∷ [])
            s
            (world.walk (verify_get_links world (get_links world)) (visit cids) root s).0
            (world.walk (verify_get_links world (get_links world)) (visit cids) root s).1
    pub walks_best_effort :
        (root : Cid) (s : GcState Cid)
        → Run
            (verify_get_links world (best_effort_get_links world))
            (visit cids)
            (root ∷ [])
            s
            (world.walk
              (verify_get_links world (best_effort_get_links world))
              (visit cids)
              root
              s).0
            (world.walk
              (verify_get_links world (best_effort_get_links world))
              (visit cids)
              root
              s).1
    pub children-to_cid_v1 : (k : Cid) → children world (to_cid_v1 cids k) ≡ children world k
    pub hash-new_cid_v1 : (c : ℕ) (h : Hash) → cids.hash (cids.new_cid_v1 c h) ≡ h
