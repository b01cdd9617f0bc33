-- ===== src/Gc/Examples.antt =====
-- A small world: one recursive pin with one child, and one block that nothing holds. Its dag.Walk is
-- a walk on fuel that answers like a done context when the fuel runs out.
use kubo.Common.{
  ℕ_eq, ap, length, ◌≤◌, ◌-◌, subst, ℕ, zero, suc, ◌+◌, ◌*◌, ◌/◌, ◌%◌, ◌≡◌, ◌≢◌, refl, true, false,
  Option, none, some, List, [], ◌∷◌, ◌++◌, Result, ok, err, contains, arith, inl, Bool-cases, inr,
  if◌then◌else◌, nat_eq, Result-cases, keep, not,
}
use kubo.Gc.World.{
  Cids, raw, GcError, GcResult, context_done, GcState, links, GetLinks, Visit, World, poll, send,
}
use kubo.Gc.Mark.{
  visit, get_links, best_effort_get_links, verify_get_links, to_cid_v1, to_raw_cids, colored_set,
  mark_descendants, descendants, feed_roots, mark_direct,
}
use kubo.Gc.Walk.{Run, done, stop, seen, fetched, failed, Assumptions}
use kubo.Gc.Reached.{here, link}
use kubo.Gc.Sweep.{sweep, sweep_marked, sweep_key, gc, mark_and_sweep, finish}
use kubo.Gc.Safety.{gc_keeps_live, colored_set_keeps_live}
use kubo.Gc.Exact.{sweep_exact}
use kubo.Gc.Remove.{
  PinStatus, Blockstore, RmBlocksOpts, rm_blocks, rm_blocks_spares_pinned, rm_blocks_fits,
}
use kubo.Gc.Repo.{
  Limits, limits_of, maybe_gc, periodic_ticks, extra_roots, best_effort_roots, garbage_collect,
}
use kubo.Gc.Limits.{limits_of_bounds, garbage_collect_keeps_mfs}

-- hash * 256 + codec, all of version 1
abbrev cids : Cids ℕ ℕ
cids = record {
  version = λ k. 1;
  codec = λ k. k % 256;
  hash = λ k. k / 256;
  new_cid_v1 = λ c h. h * 256 + c % 256;
}

module _ {Cid : Type 0} (gl : GetLinks Cid) (vis : Visit Cid) where
  walk : ℕ → List Cid → GcState Cid → Option (GcError Cid) × GcState Cid
  walk zero pending s = (some context_done, s)
  walk (suc fuel) [] s = (none, s)
  walk (suc fuel) (k ∷ pending) s =
      let (new, s1) = vis k s in
      let (answer, s2) = gl k s1 in
      let old = walk fuel pending s1 in
      elim new [
        | false ↦ old
        | true ↦ elim answer [ ok ls ↦ walk fuel (ls ++ ([] ++ pending)) s2 | err x ↦ (some x, s2) ]
      ]

  walk_runs :
      (fuel : ℕ) (pending : List Cid) (s : GcState Cid)
      → Run gl vis pending s (walk fuel pending s).0 (walk fuel pending s).1
  unfolding walk
  walk_runs zero pending s = stop pending s
  walk_runs (suc fuel) [] s = done s
  walk_runs (suc fuel) (k ∷ pending) s = elim (Bool-cases (vis k s).0) [
    | inr old ↦ rw (old, walk) (seen [] pending k refl old (walk_runs fuel pending (vis k s).1))
    | inl new ↦ elim (Result-cases (gl k (vis k s).1).0) [
      | inl (ls, e) ↦
          rw (new, e, walk)
            (fetched [] pending k ls refl new e
              (walk_runs fuel (ls ++ ([] ++ pending)) (gl k (vis k s).1).1))
      | inr (x, e) ↦ rw (new, e, walk) (failed [] pending k x refl new e)
    ]
  ]

-- the pin (dag-pb), its child (raw) and a block that nothing holds (raw)
abbrev pinned : ℕ
pinned = 368

abbrev child : ℕ
child = 597

abbrev unused : ℕ
unused = 853

abbrev world : World ℕ
world = record {
  validate = λ k. none;
  mentions_insecure = λ x. false;
  fetch = λ k. links (if nat_eq k pinned then child ∷ [] else []);
  walk = λ gl vis root s. walk gl vis 9 (root ∷ []) s;
  recursive_keys = ok pinned ∷ [];
  direct_keys = [];
  internal_pins = [];
  all_keys = ok (child ∷ unused ∷ []);
  delete_block = λ k. none;
  collect_garbage = some none;
}

assumptions : Assumptions cids world
unfolding to_cid_v1
assumptions = record {
  walks = λ root s. walk_runs _ _ 9 (root ∷ []) s;
  walks_best_effort = λ root s. walk_runs _ _ 9 (root ∷ []) s;
  children-to_cid_v1 = λ k. refl;
  hash-new_cid_v1 = λ c h. omega arith;
}

abbrev start : GcState ℕ
start = record {
  set = [];
  errors = false;
  output = [];
  deleted = [];
  collected = 0;
  polls = [];
  cancelled = false;
}

unused_deleted : (gc cids world none start).deleted ≡ unused ∷ []
unfolding gc mark_and_sweep colored_set mark_descendants descendants feed_roots mark_direct visit
    to_cid_v1 get_links verify_get_links to_raw_cids sweep sweep_marked sweep_key walk poll send
    finish
unused_deleted = refl

raw_listed :
    (k : ℕ) → contains (child ∷ unused ∷ []) k ≡ true → k ≡ cids.new_cid_v1 raw (cids.hash k)
raw_listed k m = ground arith

raw_keys :
    (keys : List ℕ) (k : ℕ)
    → world.all_keys ≡ ok keys
    → contains keys k ≡ true
    → k ≡ cids.new_cid_v1 raw (cids.hash k)
raw_keys keys k all m = raw_listed k (ground arith)

gc_keeps_live_example : cids.hash unused ≢ cids.hash child
gc_keeps_live_example =
    gc_keeps_live cids world assumptions raw_keys none start child unused
      (inl (pinned, refl, link here refl)) refl (ap (λ l. contains l unused) unused_deleted)

colored_set_example :
    colored_set cids world [] start
    ≡ (ok (child ∷ pinned ∷ []), record start { set = child ∷ pinned ∷ [] })
unfolding colored_set mark_descendants descendants feed_roots mark_direct visit to_cid_v1 get_links
    verify_get_links walk poll
colored_set_example = refl

colored_set_keeps_live_example : contains (child ∷ pinned ∷ []) (to_cid_v1 cids child) ≡ true
colored_set_keeps_live_example =
    colored_set_keeps_live cids world assumptions [] (child ∷ pinned ∷ []) start
      (record start { set = child ∷ pinned ∷ [] }) child colored_set_example refl
      (inl (pinned, refl, link here refl))

sweep_exact_example :
    (sweep world (child ∷ []) (child ∷ unused ∷ []) false start).1.deleted ≡ unused ∷ []
sweep_exact_example = sweep_exact world (child ∷ []) (child ∷ unused ∷ []) false start refl refl

-- Two blocks, the first of them pinned.
abbrev check : List (PinStatus ℕ)
check = (record { key = 1; pinned = true }) ∷ (record { key = 2; pinned = false }) ∷ []

abbrev blocks : Blockstore ℕ (List ℕ)
blocks = record {
  has = λ c store. ok (contains store c);
  delete_block = λ c store. (none, keep (λ k. not (nat_eq k c)) store);
}

abbrev opts : RmBlocksOpts
opts = record { quiet = false; force = false }

two_not_one : ◌≢◌ {A = ℕ} 2 1
two_not_one = omega arith

fits :
    (res : List (PinStatus ℕ))
    → ◌≡◌ {A = Result ℕ (List (PinStatus ℕ))} (ok check) (ok res)
    → length res ≤ 2
fits res e = subst (λ l. length l ≤ 2) (same res e) (omega arith)
  where
    same :
        (res : List (PinStatus ℕ))
        → ◌≡◌ {A = Result ℕ (List (PinStatus ℕ))} (ok check) (ok res)
        → check ≡ res
    same res e = cc

rm_blocks_spares_pinned_example :
    contains (rm_blocks blocks opts (ok check) (1 ∷ 2 ∷ [])).deleted 1 ≡ false
rm_blocks_spares_pinned_example =
    rm_blocks_spares_pinned blocks opts check (1 ∷ 2 ∷ []) 1
      (λ e. refl, (λ e. absurd (two_not_one e), tt))

rm_blocks_fits_example : length (rm_blocks blocks opts (ok check) (1 ∷ 2 ∷ [])).out ≤ 2
rm_blocks_fits_example =
    rm_blocks_fits blocks opts (1 ∷ 2 ∷ []) (ok check) (1 ∷ 2 ∷ []) (omega arith) fits

-- 10 GB with a watermark of 90 percent
limits_of_bounds_example :
    let l = limits_of 10_000_000_000 90 in
    (l.storage_gc ≤ l.storage_max)
    × (1 ≤ l.slack_gb)
    × (l.slack_gb * 10_000_000_000 ≤ (l.storage_max - l.storage_gc) + 10_000_000_000)
limits_of_bounds_example =
    limits_of_bounds 10_000_000_000 90 (omega arith) (omega arith) (omega arith)

abbrev limits : Limits
limits = limits_of 10_000_000_000 90

-- The watermark is passed, and then it is not.
two_ticks : periodic_ticks limits ((ok 9_500_000_000, none) ∷ (ok 8_000_000_000, none) ∷ []) ≡ 1
unfolding periodic_ticks maybe_gc limits_of
two_ticks = refl

abbrev events : List (Option (GcResult ℕ))
events =
    some (record { key_removed = some 4; error = none })
    ∷ some (record { key_removed = none; error = some context_done })
    ∷ none
    ∷ some (record { key_removed = some 5; error = none })
    ∷ []

-- The same world without its pin: the block that was pinned is an MFS root, after one that is nil
-- and one that cannot be read.
abbrev unpinned_world : World ℕ
unpinned_world = record world { recursive_keys = [] }

unpinned_assumptions : Assumptions cids unpinned_world
unfolding to_cid_v1
unpinned_assumptions = record {
  walks = λ root s. walk_runs _ _ 9 (root ∷ []) s;
  walks_best_effort = λ root s. walk_runs _ _ 9 (root ∷ []) s;
  children-to_cid_v1 = λ k. refl;
  hash-new_cid_v1 = λ c h. omega arith;
}

abbrev files : ℕ
files = 1109

abbrev mfs_roots : List (Option (Result ℕ ℕ))
mfs_roots = none ∷ some (err 3) ∷ some (ok pinned) ∷ []

unused_collected :
    (garbage_collect cids unpinned_world (ok files) mfs_roots start).deleted ≡ unused ∷ []
unfolding garbage_collect best_effort_roots extra_roots gc mark_and_sweep colored_set
    mark_descendants descendants feed_roots mark_direct visit to_cid_v1 best_effort_get_links
    verify_get_links to_raw_cids sweep sweep_marked sweep_key walk poll send finish
unused_collected = refl

garbage_collect_keeps_mfs_example : cids.hash unused ≢ cids.hash child
garbage_collect_keeps_mfs_example =
    garbage_collect_keeps_mfs cids unpinned_world unpinned_assumptions raw_keys (ok files) mfs_roots
      start pinned child unused (inr (inr (inr (inl refl)))) (link here refl) refl
      (ap (λ l. contains l unused) unused_collected)
