-- ===== src/Gc/Colored.antt =====
-- ColoredSet of gc/gc.go as a whole.
use kubo.Common.{
  ℕ, ◌≡◌, true, false, List, [], ◌++◌, Eq, Result, ok, contains, arith, Bool-cases, inl, inr,
  contains-append,
}
use kubo.Gc.World.{Cids, GcState, GetLinks, World}
use kubo.Gc.Mark.{
  to_cid_v1, get_links, best_effort_get_links, mark_descendants, feed_roots, mark_direct,
  colored_set,
}
use kubo.Gc.Walk.{Assumptions}
use kubo.Gc.Growth.{Grows, Grows-trans, get_links-IsLinks, best_effort-IsLinks, IsLinks}
use kubo.Gc.Coverage.{IsMarked, IsClosed}
use kubo.Gc.Roots.{
  keys_of, Walks, descendants-marks, descendants-IsClosed, stage_errors, stage-Grows,
}
use kubo.Gc.Reached.{
  Reaches, here, link, Covers, mark_direct-Grows, mark_direct-marks, feed_roots-Grows,
  set-feed_roots, feed_roots_all, not_later,
}

module _ {Cid Hash : Type 0} ⦃e : Eq Cid⦄ (cids : Cids Cid Hash) (world : World Cid) where
  -- The state behind each stage of ColoredSet.
  abbrev after_recursive : GcState Cid → GcState Cid
  after_recursive s =
      (mark_descendants cids world (get_links world) world.recursive_keys
        (record s { set = []; errors = false })).1

  abbrev after_feed : List Cid → GcState Cid → GcState Cid
  after_feed roots s = (feed_roots roots (after_recursive s)).1

  abbrev after_roots : List Cid → GcState Cid → GcState Cid
  after_roots roots s =
      (mark_descendants cids world (best_effort_get_links world)
        (feed_roots roots (after_recursive s)).0 (after_feed roots s)).1

  abbrev after_direct : List Cid → GcState Cid → GcState Cid
  after_direct roots s = (mark_direct cids world.direct_keys (after_roots roots s)).1

  abbrev after_internal : List Cid → GcState Cid → GcState Cid
  after_internal roots s =
      (mark_descendants cids world (get_links world) world.internal_pins (after_direct roots s)).1

  -- ColoredSet succeeds only behind all its stages, with the flag down.
  colored_set_stages :
      (roots : List Cid) (s t : GcState Cid) (gcs : List Cid)
      → colored_set cids world roots s ≡ (ok gcs, t)
      → (t ≡ after_internal roots s)
        × (gcs ≡ t.set)
        × (t.errors ≡ false)
        × ((mark_direct cids world.direct_keys (after_roots roots s)).0 ≡ ok tt)
  unfolding colored_set
  colored_set_stages roots s t gcs h = ground arith

  module _ (a : Assumptions cids world) where
    stage_IsClosed :
        (gl : GetLinks Cid)
        → IsLinks world gl
        → Walks cids world gl
        → (pins : List (Result ℕ Cid)) (s : GcState Cid)
        → (mark_descendants cids world gl pins s).1.errors ≡ false
        → IsClosed cids world s.set []
        → IsClosed cids world (mark_descendants cids world gl pins s).1.set []
          × ((k : Cid)
              → contains (keys_of pins) k ≡ true
              → IsMarked cids (mark_descendants cids world gl pins s).1.set k)
    stage_IsClosed gl is_links walks pins s fine c =
        let (no_error, e) = stage_errors cids world gl is_links walks pins s fine in
        rw e (
          descendants-IsClosed cids world gl is_links walks a.children-to_cid_v1 pins s no_error c,
          descendants-marks cids world gl is_links walks pins s no_error,
        )

    closed_Reaches :
        (set : List Cid)
        → IsClosed cids world set []
        → {r k : Cid} → Reaches world r k
        → IsMarked cids set r
        → IsMarked cids set k
    closed_Reaches set c here m = m
    closed_Reaches set c (link {j} {k} path step) m =
        elim (c.links j k (closed_Reaches set c path m) step) [
          | inl marked ↦ marked
          | inr never ↦ cc
        ]

    internal-Grows :
        (roots : List Cid) (s : GcState Cid) → Grows (after_direct roots s) (after_internal roots s)
    internal-Grows roots s =
        stage-Grows cids world (get_links world) (get_links-IsLinks world) a.walks
          world.internal_pins (after_direct roots s)

    direct-Grows :
        (roots : List Cid) (s : GcState Cid) → Grows (after_roots roots s) (after_direct roots s)
    direct-Grows roots s = mark_direct-Grows cids world.direct_keys (after_roots roots s)

    roots-Grows :
        (roots : List Cid) (s : GcState Cid) → Grows (after_feed roots s) (after_roots roots s)
    roots-Grows roots s =
        stage-Grows cids world (best_effort_get_links world) (best_effort-IsLinks world)
          a.walks_best_effort (feed_roots roots (after_recursive s)).0 (after_feed roots s)

    module _ (roots : List Cid) (s : GcState Cid) (fine : (after_internal roots s).errors ≡ false)
        (alive : (after_internal roots s).cancelled ≡ false)
        (direct_ok : (mark_direct cids world.direct_keys (after_roots roots s)).0 ≡ ok tt) where
      -- the direct and the internal pins only add to the set
      later-Grows : Grows (after_roots roots s) (after_internal roots s)
      later-Grows = Grows-trans (direct-Grows roots s) (internal-Grows roots s)

      fine_roots : (after_roots roots s).errors ≡ false
      fine_roots = not_later (after_roots roots s) (after_internal roots s) later-Grows fine

      fine_feed : (after_feed roots s).errors ≡ false
      fine_feed =
          not_later (after_feed roots s) (after_roots roots s) (roots-Grows roots s) fine_roots

      fine_recursive : (after_recursive s).errors ≡ false
      fine_recursive =
          not_later (after_recursive s) (after_feed roots s)
            (feed_roots-Grows roots (after_recursive s)) fine_feed

      all_fed : keys_of (feed_roots roots (after_recursive s)).0 ≡ roots
      all_fed =
          feed_roots_all roots (after_recursive s)
            (elim (Bool-cases (after_feed roots s).cancelled) [
              | inl c ↦ cc ((Grows-trans (roots-Grows roots s) later-Grows).cancels c, alive)
              | inr c ↦ c
            ])

      IsClosed-recursive :
          IsClosed cids world (after_recursive s).set []
          × ((k : Cid)
              → contains (keys_of world.recursive_keys) k ≡ true
              → IsMarked cids (after_recursive s).set k)
      IsClosed-recursive =
          stage_IsClosed (get_links world) (get_links-IsLinks world) a.walks world.recursive_keys
            (record s { set = []; errors = false }) fine_recursive
            (record { links = λ k c m _. cc })

      IsClosed-roots :
          IsClosed cids world (after_roots roots s).set []
          × ((k : Cid)
              → contains (keys_of (feed_roots roots (after_recursive s)).0) k ≡ true
              → IsMarked cids (after_roots roots s).set k)
      IsClosed-roots =
          stage_IsClosed (best_effort_get_links world) (best_effort-IsLinks world)
            a.walks_best_effort (feed_roots roots (after_recursive s)).0 (after_feed roots s)
            fine_roots (grown_IsClosed)
        where
          grown_IsClosed : IsClosed cids world (after_feed roots s).set []
          grown_IsClosed = rw set-feed_roots IsClosed-recursive.0

      IsMarked-root :
          (r : Cid)
          → contains (keys_of world.recursive_keys ++ roots) r ≡ true
          → IsMarked cids (after_roots roots s).set r
      IsMarked-root r m = elim (Bool-cases (contains (keys_of world.recursive_keys) r)) [
        | inl pinned ↦
            (Grows-trans (feed_roots-Grows roots (after_recursive s)) (roots-Grows roots s)).keeps
              (to_cid_v1 cids r) (IsClosed-recursive.1 r pinned)
        | inr other ↦
            let m' : contains roots r ≡ true =
              rw other at (rw (contains-append (keys_of world.recursive_keys) roots r) at m) in
            IsClosed-roots.1 r (rw all_fed m')
      ]

      final-Covers : Covers cids world roots (after_internal roots s).set
      final-Covers = record {
        reached = λ r k m path.
            later-Grows.keeps (to_cid_v1 cids k)
              (closed_Reaches (after_roots roots s).set IsClosed-roots.0 path (IsMarked-root r m));
        direct = λ k m.
            (internal-Grows roots s).keeps (to_cid_v1 cids k)
              (mark_direct-marks cids world.direct_keys (after_roots roots s) direct_ok k m);
        internal = λ k m.
            let (no_error, e) =
              stage_errors cids world (get_links world) (get_links-IsLinks world) a.walks
                world.internal_pins (after_direct roots s) fine in
            rw (e, after_internal)
              (descendants-marks cids world (get_links world) (get_links-IsLinks world) a.walks
                world.internal_pins (after_direct roots s) no_error k m);
      }

    -- A set that ColoredSet returns under a live context covers the pins and the roots.
    pub colored_set-Covers :
        (roots : List Cid) (s t : GcState Cid) (gcs : List Cid)
        → colored_set cids world roots s ≡ (ok gcs, t)
        → t.cancelled ≡ false
        → Covers cids world roots gcs
    colored_set-Covers roots s t gcs h alive =
        let (last, set, fine, direct_ok) = colored_set_stages roots s t gcs h in
        rw (set, last) (final-Covers roots s (rw last at fine) (rw last at alive) direct_ok)

    -- However it ends, the mark phase deletes nothing.
    pub deleted-colored_set :
        (roots : List Cid) (s : GcState Cid)
        → (colored_set cids world roots s).1.deleted ≡ s.deleted
    unfolding colored_set
    deleted-colored_set roots s = ground (
      arith,
      (stage-Grows cids world (get_links world) (get_links-IsLinks world) a.walks
          world.recursive_keys (record s { set = []; errors = false })).deletes,
      (feed_roots-Grows roots (after_recursive s)).deletes,
      (roots-Grows roots s).deletes,
      (direct-Grows roots s).deletes,
      (internal-Grows roots s).deletes,
    )
