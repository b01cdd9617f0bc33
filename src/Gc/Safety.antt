-- ===== src/Gc/Safety.antt =====
-- What GC of gc/gc.go deletes, from the mark phase to the sweep.
use kubo.Common.{
  ℕ, ◌≡◌, ◌≢◌, refl, sym, ap, ◌∙◌, subst, Bool, true, false, Option, none, some, List, [], ◌∷◌,
  ◌++◌, Eq, Result, ok, err, contains, contains-append, arith, ◌⊎◌, inl, inr, Bool-cases, ==→≡,
  ==-self, ◌==◌, ||-true_right,
}
use kubo.Gc.World.{from_outside, Cids, raw, GcError, GcState, World, poll, send}
use kubo.Gc.Mark.{to_cid_v1, to_raw_cids, colored_set}
use kubo.Gc.Walk.{Assumptions}
use kubo.Gc.Growth.{Grows, Grows-trans, poll-Grows}
use kubo.Gc.Coverage.{IsMarked}
use kubo.Gc.Roots.{keys_of}
use kubo.Gc.Reached.{Reaches, Covers}
use kubo.Gc.Colored.{colored_set-Covers, deleted-colored_set}
use kubo.Gc.Sweep.{
  give_up, sweep_key, sweep, finish, sweep_all, sweep_marked, after_marking, mark_and_sweep, gc,
}

-- The roots that the callback gives; none if there is no callback.
abbrev pub callback_roots : {Cid : Type 0} → Option (Result ℕ (List Cid)) → List Cid
callback_roots none = []
callback_roots (some (ok roots)) = roots
callback_roots (some (err code)) = []

-- A CID that a collection has to keep.
abbrev pub IsLive : {Cid : Type 0} ⦃e : Eq Cid⦄ → World Cid → List Cid → Cid → Type 0
IsLive {Cid} world roots c =
    ((r : Cid) × (contains (keys_of world.recursive_keys ++ roots) r ≡ true) × Reaches world r c)
    ⊎ (contains (keys_of world.direct_keys) c ≡ true)
    ⊎ (contains (keys_of world.internal_pins) c ≡ true)

module _ {Cid : Type 0} ⦃e : Eq Cid⦄ (world : World Cid) where
  deleted-give_up : (x : GcError Cid) (s : GcState Cid) → (give_up x s).deleted ≡ s.deleted
  unfolding give_up send
  deleted-give_up x s = ground arith

  deleted-finish : (errors : Bool) (s : GcState Cid) → (finish world errors s).deleted ≡ s.deleted
  unfolding finish send
  deleted-finish errors s = ground arith

  pub deleted-sweep_key :
      (k : Cid) (errors : Bool) (s : GcState Cid)
      → (sweep_key world k errors s).2.deleted ≡ s.deleted ++ k ∷ []
  unfolding sweep_key send
  deleted-sweep_key k errors s = ground arith

  polled_twice : (s : GcState Cid) → Grows s (poll (poll s).1).1
  polled_twice s = Grows-trans (poll-Grows s) (poll-Grows (poll s).1)

  sweep_key_deletes :
      (j k : Cid) (errors : Bool) (s : GcState Cid)
      → contains (sweep_key world j errors (poll (poll s).1).1).2.deleted k ≡ true
      → (contains s.deleted k ≡ true) ⊎ (j ≡ k)
  sweep_key_deletes j k errors s m =
      let m1 : contains ((poll (poll s).1).1.deleted ++ j ∷ []) k ≡ true =
        rw (deleted-sweep_key j errors (poll (poll s).1).1) at m in
      let m2 : contains (s.deleted ++ j ∷ []) k ≡ true = rw (polled_twice s).deletes at m1 in
      elim (Bool-cases (j == k)) [
        | inl same ↦ inr (==→≡ j k same)
        | inr other ↦ inl (ground (arith, contains-append s.deleted (j ∷ []) k))
      ]

  -- The loop deletes nothing that is marked, and only keys of the store.
  sweep_deletes :
      (gcs keys : List Cid) (errors : Bool) (s : GcState Cid) (k : Cid)
      → contains (sweep world gcs keys errors s).1.deleted k ≡ true
      → (contains s.deleted k ≡ true) ⊎ (contains gcs k ≡ false) × (contains keys k ≡ true)
  unfolding sweep
  sweep_deletes gcs [] errors s k m = inl (rw (poll-Grows s).deletes at m)
  sweep_deletes gcs (j ∷ keys) errors s k m =
      let s2 = (poll (poll s).1).1 in
      let later =
        λ (g : (contains s.deleted k ≡ true) ⊎ (contains gcs k ≡ false) × (contains keys k ≡ true)).
          let answer : (contains s.deleted k ≡ true)
              ⊎ (contains gcs k ≡ false) × (contains (j ∷ keys) k ≡ true) =
            elim g [
              | inl old ↦ inl old
              | inr (unmarked, listed) ↦ inr (unmarked, rw listed (||-true_right (j == k)))
            ] in
          answer in
      let now = λ (unmarked : contains gcs j ≡ false) (same : j ≡ k).
        let answer : (contains s.deleted k ≡ true)
            ⊎ (contains gcs k ≡ false) × (contains (j ∷ keys) k ≡ true) =
          inr (rw same at unmarked, rw same (rw (==-self k))) in
        answer in
      elim (Bool-cases (poll s).1.cancelled) [
        | inl over ↦ inl (rw (poll-Grows s).deletes at (rw over at m))
        | inr live ↦ elim (Bool-cases (poll (poll s).1).0) [
          | inl over ↦ inl (rw (polled_twice s).deletes at (rw (live, over) at m))
          | inr live2 ↦ elim (Bool-cases (contains gcs j)) [
            | inl marked ↦ later (
                rw (polled_twice s).deletes at
                  (sweep_deletes gcs keys errors s2 k (rw (live, live2, marked) at m)))
            | inr unmarked ↦ elim (Bool-cases (sweep_key world j errors s2).0) [
              | inl ends ↦
                  elim (sweep_key_deletes j k errors s (rw (live, live2, unmarked, ends) at m)) [
                    | inl old ↦ inl old
                    | inr same ↦ now unmarked same
                  ]
              | inr goes_on ↦
                  elim (sweep_deletes gcs keys (sweep_key world j errors s2).1
                    (sweep_key world j errors s2).2 k (rw (live, live2, unmarked, goes_on) at m)) [
                      | inl before ↦ elim (sweep_key_deletes j k errors s before) [
                        | inl old ↦ inl old
                        | inr same ↦ now unmarked same
                      ]
                      | inr found ↦ later (inr found)
                    ]
            ]
          ]
        ]
      ]

  -- Under a cancelled context the loop deletes nothing.
  sweep_cancelled :
      (gcs keys : List Cid) (errors : Bool) (s : GcState Cid)
      → s.cancelled ≡ true
      → (sweep world gcs keys errors s).1.deleted ≡ s.deleted
  unfolding sweep
  sweep_cancelled gcs [] errors s c = (poll-Grows s).deletes
  sweep_cancelled gcs (j ∷ keys) errors s c = rw ((poll-Grows s).cancels c) (poll-Grows s).deletes

module _ {Cid Hash : Type 0} ⦃e : Eq Cid⦄ (cids : Cids Cid Hash) (world : World Cid)
    (a : Assumptions cids world) where
  hash-to_cid_v1 : (c : Cid) → cids.hash (to_cid_v1 cids c) ≡ cids.hash c
  unfolding to_cid_v1
  hash-to_cid_v1 c = ground (arith, a.hash-new_cid_v1 (cids.codec c) (cids.hash c))

  -- The raw set has the raw CID of each of its CIDs.
  to_raw_cids_keeps :
      (set : List Cid) (v : Cid)
      → contains set v ≡ true
      → contains (to_raw_cids cids set) (cids.new_cid_v1 raw (cids.hash v)) ≡ true
  unfolding to_raw_cids
  to_raw_cids_keeps [] v m = cc
  to_raw_cids_keeps (c ∷ set) v m = elim (Bool-cases (c == v)) [
    | inl same ↦ rw (==→≡ c v same) (ground (arith, ==-self (cids.new_cid_v1 raw (cids.hash v))))
    | inr other ↦
        let ih = to_raw_cids_keeps set v (rw other at m) in
        ground (
          arith,
          ||-true_right (cids.new_cid_v1 raw (cids.hash c) == cids.new_cid_v1 raw (cids.hash v)),
        )
  ]

  Covers-live :
      (roots gcs : List Cid) (c : Cid)
      → Covers cids world roots gcs
      → IsLive world roots c
      → IsMarked cids gcs c
  Covers-live roots gcs c h (inl (r, m, path)) = h.reached r c m path
  Covers-live roots gcs c h (inr (inl m)) = h.direct c m
  Covers-live roots gcs c h (inr (inr m)) = h.internal c m

  -- A set that ColoredSet returns under a live context holds what toCidV1 makes of every CID that a
  -- recursive pin or a best-effort root reaches along links that can be fetched, of every direct pin
  -- and of every internal pin. It is assumed that dag.Walk walks, that a CIDv0 has the links of its
  -- CIDv1 and that NewCidV1 keeps the hash.
  pub colored_set_keeps_live :
      (roots gcs : List Cid) (s t : GcState Cid) (c : Cid)
      → colored_set cids world roots s ≡ (ok gcs, t)
      → t.cancelled ≡ false
      → IsLive world roots c
      → IsMarked cids gcs c
  colored_set_keeps_live roots gcs s t c h alive live =
      Covers-live roots gcs c (colored_set-Covers cids world a roots s t gcs h alive) live

  -- What dstore documents of AllKeysChan: every key is the raw CIDv1 of its hash.
  module _
      (raw_keys : (keys : List Cid) (k : Cid)
        → world.all_keys ≡ ok keys
        → contains keys k ≡ true
        → k ≡ cids.new_cid_v1 raw (cids.hash k)) where
    -- A key with the hash of a marked CID is in the raw set.
    raw_marked :
        (gcs keys : List Cid) (c k : Cid)
        → world.all_keys ≡ ok keys
        → contains keys k ≡ true
        → IsMarked cids gcs c
        → cids.hash k ≡ cids.hash c
        → contains (to_raw_cids cids gcs) k ≡ true
    raw_marked gcs keys c k all listed marked same =
        let v = to_cid_v1 cids c in
        let h : cids.new_cid_v1 raw (cids.hash v) ≡ k =
          ap (cids.new_cid_v1 raw) (hash-to_cid_v1 c ∙ sym same)
          ∙ sym (raw_keys keys k all listed) in
        subst (λ x. contains (to_raw_cids cids gcs) x ≡ true) h (to_raw_cids_keeps gcs v marked)

    sweep_all_keeps :
        (gcs : List Cid) (answer : Result ℕ (List Cid)) (s : GcState Cid) (c k : Cid)
        → world.all_keys ≡ answer
        → (s.cancelled ≡ false → IsMarked cids gcs c)
        → contains s.deleted k ≡ false
        → contains (sweep_all world (to_raw_cids cids gcs) answer s).deleted k ≡ true
        → cids.hash k ≢ cids.hash c
    unfolding sweep_all
    sweep_all_keeps gcs (err code) s c k all covered before m same =
        cc (deleted-give_up world (from_outside code) s)
    sweep_all_keeps gcs (ok keys) s c k all covered before m same =
        let raws = to_raw_cids cids gcs in
        let (errors, t) = sweep world raws keys false s in
        let m2 : contains t.deleted k ≡ true = rw (deleted-finish world errors t) at m in
        elim (Bool-cases s.cancelled) [
          | inl over ↦ cc (sweep_cancelled world raws keys false s over)
          | inr live ↦ elim (sweep_deletes world raws keys false s k m2) [
            | inl old ↦ cc
            | inr (unmarked, listed) ↦ cc (raw_marked gcs keys c k all listed (covered live) same)
          ]
        ]

    after_marking_keeps :
        (marked : Result (GcError Cid) (List Cid)) (t : GcState Cid) (c k : Cid)
        → ((gcs : List Cid) → marked ≡ ok gcs → t.cancelled ≡ false → IsMarked cids gcs c)
        → contains t.deleted k ≡ false
        → contains (after_marking cids world marked t).deleted k ≡ true
        → cids.hash k ≢ cids.hash c
    unfolding after_marking sweep_marked
    after_marking_keeps (err x) t c k covered before m same = cc (deleted-give_up world x t)
    after_marking_keeps (ok gcs) t c k covered before m same =
        sweep_all_keeps gcs world.all_keys t c k refl (covered gcs refl) before m same

    mark_and_sweep_keeps :
        (roots : List Cid) (s : GcState Cid) (c k : Cid)
        → IsLive world roots c
        → contains s.deleted k ≡ false
        → contains (mark_and_sweep cids world roots s).deleted k ≡ true
        → cids.hash k ≢ cids.hash c
    unfolding mark_and_sweep
    mark_and_sweep_keeps roots s c k live before m =
        let t = (colored_set cids world roots s).1 in
        after_marking_keeps (colored_set cids world roots s).0 t c k
          (λ gcs fine alive.
            Covers-live roots gcs c
              (colored_set-Covers cids world a roots s t gcs (λ i. (fine i, t)) alive) live)
          (rw (deleted-colored_set cids world a roots s) before) m

    -- A collection deletes no block whose hash is that of a live CID: one that a recursive pin or a
    -- best-effort root reaches along links that can be fetched, a direct pin or an internal pin.
    -- That holds however the calls fail and whenever the context is cancelled. It is assumed that
    -- dag.Walk walks, that a CIDv0 has the links of its CIDv1, that NewCidV1 keeps the hash, and
    -- that the store lists raw CIDv1s.
    pub gc_keeps_live :
        (callback : Option (Result ℕ (List Cid))) (s : GcState Cid) (c k : Cid)
        → IsLive world (callback_roots callback) c
        → contains s.deleted k ≡ false
        → contains (gc cids world callback s).deleted k ≡ true
        → cids.hash k ≢ cids.hash c
    unfolding gc
    gc_keeps_live none s c k live before m same = mark_and_sweep_keeps [] s c k live before m same
    gc_keeps_live (some (ok roots)) s c k live before m same =
        mark_and_sweep_keeps roots s c k live before m same
    gc_keeps_live (some (err code)) s c k live before m same =
        cc (deleted-give_up world (from_outside code) s)

-- A callback that fails ends the collection before it deletes anything.
pub deleted-gc_failing :
    {Cid Hash : Type 0} ⦃e : Eq Cid⦄ (cids : Cids Cid Hash) (world : World Cid) (code : ℕ)
    (s : GcState Cid)
    → (gc cids world (some (err code)) s).deleted ≡ s.deleted
unfolding gc
deleted-gc_failing cids world code s = deleted-give_up world (from_outside code) s
