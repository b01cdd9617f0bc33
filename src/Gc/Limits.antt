-- ===== src/Gc/Limits.antt =====
-- The limits, the watermark test, the roots and the results of core/corerepo/gc.go.
use kubo.Common.{
  ◌⊎◌, ℕ, ◌+◌, ◌-◌, ◌*◌, ◌/◌, ◌%◌, ◌≤◌, ◌<◌, ◌≡◌, ◌≢◌, string_eq, true, false, Option, none, some,
  List, [], ◌∷◌, ◌++◌, Eq, ◌==◌, Result, ok, err, ltb, contains, contains-cons_self, arith, inl,
  inr, ==-self, ||-true_right, Bool-cases,
}
use kubo.Gc.World.{Cids, raw, GcError, GcResult, context_done, GcState, World}
use kubo.Gc.Walk.{Assumptions}
use kubo.Gc.Roots.{keys_of}
use kubo.Gc.Reached.{Reaches}
use kubo.Gc.Coverage.{contains_after}
use kubo.Gc.Safety.{deleted-gc_failing, gc_keeps_live}
use kubo.Gc.Repo.{
  u64, limits_of, extra_roots, best_effort_roots, Collected, no_error, one_error, multi_error,
  garbage_collect,
}

part_bounds :
    (m p : ℕ)
    → p ≤ m * 100
    → p < u64
    → m < u64
    → (p % u64 / 100 ≤ m) × ((m + u64 - p % u64 / 100) % u64 ≡ m - p % u64 / 100)
part_bounds m p small no_overflow fits = omega arith

-- For a watermark of at most 100 percent that does not overflow, the collection starts at or below
-- the limit, the slack is at least one, and it is no more than the room above the watermark needs.
pub limits_of_bounds :
    (storage_max watermark : ℕ)
    → watermark ≤ 100
    → storage_max * watermark < u64
    → storage_max < u64
    → let l = limits_of storage_max watermark in
      (l.storage_gc ≤ l.storage_max)
      × (1 ≤ l.slack_gb)
      × (l.slack_gb * 10_000_000_000 ≤ (l.storage_max - l.storage_gc) + 10_000_000_000)
unfolding limits_of
limits_of_bounds m w small no_overflow fits =
    let (below, room) = part_bounds m (m * w) (grind arith) no_overflow fits in
    elim (Bool-cases (ltb ((m + u64 - m * w % u64 / 100) % u64 / 10_000_000_000) 1)) [
      | inl little ↦ rw little (below, omega arith, omega arith)
      | inr much ↦ rw much (below, ground arith, rw room (omega arith))
    ]

-- The errors that a collection result holds, in order.
abbrev pub errors_in : {Cid : Type 0} → Collected Cid → List (GcError Cid)
errors_in no_error = []
errors_in (one_error x) = x ∷ []
errors_in (multi_error xs x) = xs ++ x ∷ []

-- What the events hold until the context is done: the errors, and the keys removed.
abbrev pub errors_sent : {Cid : Type 0} → List (Option (GcResult Cid)) → List (GcError Cid)
errors_sent [] = []
errors_sent (none ∷ events) = context_done ∷ []
errors_sent (some r ∷ events) = elim r.error [
  | some x ↦ x ∷ errors_sent events
  | none ↦ errors_sent events
]

abbrev pub keys_sent : {Cid : Type 0} → List (Option (GcResult Cid)) → List Cid
keys_sent [] = []
keys_sent (none ∷ events) = []
keys_sent (some r ∷ events) = elim r.error [
  | some x ↦ keys_sent events
  | none ↦ elim r.key_removed [ some k ↦ k ∷ keys_sent events | none ↦ keys_sent events ]
]

root_listed :
    {Cid : Type 0} ⦃e : Eq Cid⦄ (f r : Cid) (extra : List Cid)
    → (◌≡◌ {A = Result ℕ Cid} (ok f) (ok r)) ⊎ (contains extra r ≡ true)
    → contains (f ∷ extra) r ≡ true
root_listed f r extra (inl same) = ground (arith, ==-self r)
root_listed f r extra (inr listed) = rw listed (||-true_right (f == r))

-- The CID is that of a registered MFS root that could be read.
abbrev pub IsReadable : {Cid : Type 0} → List (Option (Result ℕ Cid)) → Cid → Type 0
IsReadable [] r = ⊥
IsReadable (root ∷ mfs_roots) r = (root ≡ some (ok r)) ⊎ IsReadable mfs_roots r

extra_roots-contains :
    {Cid : Type 0} ⦃e : Eq Cid⦄ (mfs_roots : List (Option (Result ℕ Cid))) (r : Cid)
    → IsReadable mfs_roots r
    → contains (extra_roots mfs_roots) r ≡ true
unfolding extra_roots
extra_roots-contains [] r readable = absurd readable
extra_roots-contains (none ∷ mfs_roots) r (inl same) = cc
extra_roots-contains (none ∷ mfs_roots) r (inr later) = extra_roots-contains mfs_roots r later
extra_roots-contains (some (err code) ∷ mfs_roots) r (inl same) = cc
extra_roots-contains (some (err code) ∷ mfs_roots) r (inr later) =
    extra_roots-contains mfs_roots r later
extra_roots-contains (some (ok c) ∷ mfs_roots) r (inl same) =
    let equal : c ≡ r = cc in rw equal (contains-cons_self r (extra_roots mfs_roots))
extra_roots-contains (some (ok c) ∷ mfs_roots) r (inr later) =
    root_listed c r (extra_roots mfs_roots) (inr (extra_roots-contains mfs_roots r later))

-- GarbageCollect deletes no block that FilesRoot, or a registered MFS root that could be read,
-- reaches, under the assumptions of `gc_keeps_live`.
pub garbage_collect_keeps_mfs :
    {Cid Hash : Type 0} ⦃e : Eq Cid⦄ (cids : Cids Cid Hash) (world : World Cid)
    (a : Assumptions cids world)
    (raw_keys : (keys : List Cid) (k : Cid)
      → world.all_keys ≡ ok keys
      → contains keys k ≡ true
      → k ≡ cids.new_cid_v1 raw (cids.hash k))
    (files_root : Result ℕ Cid) (mfs_roots : List (Option (Result ℕ Cid))) (s : GcState Cid)
    (r c k : Cid)
    → (files_root ≡ ok r) ⊎ IsReadable mfs_roots r
    → Reaches world r c
    → contains s.deleted k ≡ false
    → contains (garbage_collect cids world files_root mfs_roots s).deleted k ≡ true
    → cids.hash k ≢ cids.hash c
unfolding garbage_collect best_effort_roots
garbage_collect_keeps_mfs cids world a raw_keys (err code) mfs_roots s r c k root path before m
      same =
    cc (deleted-gc_failing cids world code s)
garbage_collect_keeps_mfs cids world a raw_keys (ok f) mfs_roots s r c k root path before m same =
    let roots = f ∷ extra_roots mfs_roots in
    let listed : contains roots r ≡ true = elim root [
      | inl files ↦ root_listed f r (extra_roots mfs_roots) (inl files)
      | inr mfs ↦
          root_listed f r (extra_roots mfs_roots) (inr (extra_roots-contains mfs_roots r mfs))
    ] in
    gc_keeps_live cids world a raw_keys (some (ok roots)) s c k
      (inl (r, contains_after (keys_of world.recursive_keys) roots r listed, path)) before m same
