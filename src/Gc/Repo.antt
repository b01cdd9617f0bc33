-- ===== src/Gc/Repo.antt =====
-- core/corerepo/gc.go: the limits, the best-effort roots, the watermark test and the collection of
-- results. Sizes are uint64; an int64 watermark is read as the uint64 that the code converts it to.
use kubo.Common.{
  ℕ, ◌+◌, ◌-◌, ◌*◌, ◌/◌, ◌%◌, ◌^◌, String, string_eq, Bool, true, false, Option, none, some, List,
  [], ◌∷◌, ◌++◌, Eq, ◌==◌, Result, ok, err, if◌then◌else◌, ltb, nat_eq,
}
use kubo.Common.Results.{◌>>=◌}
use kubo.Gc.World.{Cids, GcError, GcResult, context_done, GcState, World}
use kubo.Gc.Sweep.{gc}

abbrev pub u64 : ℕ
u64 = 2 ^ 64

-- The fields of config.Datastore that are read here.
pub record DatastoreConfig : Type 0 where
  pub storage_max : String
  pub storage_gc_watermark : ℕ
  pub gc_period : String

pub record Limits : Type 0 where
  pub storage_max : ℕ
  pub storage_gc : ℕ
  pub slack_gb : ℕ

-- storageMax * uint64(watermark) / 100 and max((storageMax-storageGC)/10e9, 1), which wrap
unfoldable pub limits_of : ℕ → ℕ → Limits
limits_of storage_max watermark =
    let storage_gc = (storage_max * watermark) % u64 / 100 in
    let slack = (storage_max + u64 - storage_gc) % u64 / 10_000_000_000 in
    record {
      storage_max = storage_max;
      storage_gc = storage_gc;
      slack_gb = if ltb slack 1 then 1 else slack;
    }

-- `set_config_key` is r.SetConfigKey, none on success; `parse_bytes` is humanize.ParseBytes.
module _ (set_config_key : String → Option ℕ) (parse_bytes : String → Result ℕ ℕ) where
  set_default : Bool → String → Result ℕ (Unit {0})
  set_default missing key = elim (set_config_key key) [
    | none ↦ ok tt
    | some code ↦ if missing then err code else ok tt
  ]

  unfoldable pub new_gc : Result ℕ DatastoreConfig → Result ℕ Limits
  unfolding set_default limits_of
  new_gc config = do
    cfg ← config
    _ ← set_default (cfg.storage_max == "") "Datastore.StorageMax"
    _ ← set_default (nat_eq cfg.storage_gc_watermark 0) "Datastore.StorageGCWatermark"
    storage_max ← parse_bytes (if cfg.storage_max == "" then "10GB" else cfg.storage_max)
    ok (
        limits_of storage_max
          (if nat_eq cfg.storage_gc_watermark 0 then 90 else cfg.storage_gc_watermark))

-- `usage` is r.GetStorageUsage and `collect` the result of GarbageCollect; the flag says whether a
-- collection ran.
unfoldable pub maybe_gc : Limits → Result ℕ ℕ → ℕ → Option ℕ → Option ℕ × Bool
maybe_gc limits (err code) offset collect = (some code, false)
maybe_gc limits (ok storage) offset collect =
    if ltb limits.storage_gc ((storage + offset) % u64) then (collect, true) else (none, false)

-- The ticks of PeriodicGC: the usage that each finds and what the collection answers. Errors are
-- logged and dropped; the result is how often a collection ran.
unfoldable pub periodic_ticks : Limits → List (Result ℕ ℕ × Option ℕ) → ℕ
periodic_ticks limits [] = 0
periodic_ticks limits ((usage, collect) ∷ ticks) =
    (if (maybe_gc limits usage 0 collect).1 then 1 else 0) + periodic_ticks limits ticks

pub data Collected (Cid : Type 0) : Type 0 where
  no_error : Collected Cid
  one_error : GcError Cid → Collected Cid
  multi_error : List (GcError Cid) → GcError Cid → Collected Cid

module _ {Cid : Type 0} where
  -- A registered MFS root is nil, or its CID is read or fails to be.
  unfoldable pub extra_roots : List (Option (Result ℕ Cid)) → List Cid
  extra_roots [] = []
  extra_roots (none ∷ rs) = extra_roots rs
  extra_roots (some (err code) ∷ rs) = extra_roots rs
  extra_roots (some (ok c) ∷ rs) = c ∷ extra_roots rs

  unfoldable pub best_effort_roots :
      Result ℕ Cid → List (Option (Result ℕ Cid)) → Result ℕ (List Cid)
  best_effort_roots (err code) mfs_roots = err code
  best_effort_roots (ok files_root) mfs_roots = ok (files_root ∷ extra_roots mfs_roots)

  -- CollectResult: what the loop receives is a result, or that the context is done. It returns the
  -- errors and the calls of the callback.
  unfoldable pub collect_loop : Bool → List (Option (GcResult Cid)) → List (GcError Cid) × List Cid
  collect_loop has_callback [] = ([], [])
  collect_loop has_callback (none ∷ events) = (context_done ∷ [], [])
  collect_loop has_callback (some r ∷ events) =
      let (errors, calls) = collect_loop has_callback events in
      elim r.error [
        | some e ↦ (e ∷ errors, calls)
        | none ↦ elim r.key_removed [
          | none ↦ (errors, calls)
          | some k ↦ (errors, if has_callback then k ∷ calls else calls)
        ]
      ]

  unfoldable pub split_last : List (GcError Cid) → GcError Cid → List (GcError Cid) → Collected Cid
  split_last before x [] = multi_error before x
  split_last before x (y ∷ ys) = split_last (before ++ x ∷ []) y ys

  -- errs[:len(errs)-1] and errs[len(errs)-1], for errs = x ∷ xs
  unfoldable pub new_multi_error : GcError Cid → List (GcError Cid) → Collected Cid
  unfolding split_last
  new_multi_error x xs = split_last [] x xs

  unfoldable pub error_of : List (GcError Cid) → Collected Cid
  error_of [] = no_error
  error_of (x ∷ []) = one_error x
  error_of (x ∷ y ∷ ys) = new_multi_error x (y ∷ ys)

  unfoldable pub collect_result : Bool → List (Option (GcResult Cid)) → Collected Cid × List Cid
  unfolding error_of
  collect_result has_callback events =
      let (errors, calls) = collect_loop has_callback events in (error_of errors, calls)

-- GarbageCollect: the collection, with the roots of the node as its callback
module _ {Cid Hash : Type 0} ⦃e : Eq Cid⦄ (cids : Cids Cid Hash) (world : World Cid) where
  unfoldable pub garbage_collect :
      Result ℕ Cid → List (Option (Result ℕ Cid)) → GcState Cid → GcState Cid
  garbage_collect files_root mfs_roots s =
      gc cids world (some (best_effort_roots files_root mfs_roots)) s
