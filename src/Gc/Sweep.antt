-- ===== src/Gc/Sweep.antt =====
-- The sweep phase and the whole collection: GC of gc/gc.go.
use kubo.Common.{
  ℕ, ◌+◌, Bool, true, false, Option, none, some, List, [], ◌∷◌, ◌++◌, Eq, Result, ok, err,
  if◌then◌else◌, contains,
}
use kubo.Gc.World.{
  Cids, GcError, from_outside, cannot_delete_block, cannot_delete_some_blocks, failure, removed,
  GcState, World, poll, send,
}
use kubo.Gc.Mark.{to_raw_cids, colored_set}

-- select { case output <- Result{Error: err}: case <-ctx.Done(): }; return
unfoldable pub give_up : {Cid : Type 0} → GcError Cid → GcState Cid → GcState Cid
give_up e s = (send (failure e) s).1

module _ {Cid : Type 0} ⦃e : Eq Cid⦄ (world : World Cid) where
  -- bs.DeleteBlock, as a call that is remembered
  delete_block : Cid → GcState Cid → Option ℕ × GcState Cid
  delete_block k s = (world.delete_block k, record s { deleted = s.deleted ++ k ∷ [] })

  -- The body of the loop for a key that is not marked: true if the loop ends, and the flag `errors`.
  unfoldable pub sweep_key : Cid → Bool → GcState Cid → Bool × Bool × GcState Cid
  unfolding delete_block
  sweep_key k errors s =
      let (failed, s1) = delete_block k s in
      elim failed [
        | some code ↦
            let (done, s2) = send (failure (cannot_delete_block k code)) s1 in (done, true, s2)
        | none ↦ let (done, s2) = send (removed k) s1 in (done, errors, s2)
      ]

  -- The loop. ctx.Err() is seen as a select whose result is kept; the end of the list is the closed
  -- channel.
  unfoldable pub sweep : List Cid → List Cid → Bool → GcState Cid → Bool × GcState Cid
  sweep gcs [] errors s = (errors, (poll s).1)
  sweep gcs (k ∷ keys) errors s =
      let s1 = (poll s).1 in
      let (done, s2) = poll s1 in
      let (ends, errors', s3) = sweep_key k errors s2 in
      let skip = sweep gcs keys errors s2 in
      let rest = sweep gcs keys errors' s3 in
      if s1.cancelled
      then (errors, s1)
      else if done
      then (errors, s2)
      else if contains gcs k
      then skip
      else if ends
      then (errors', s3)
      else rest

  -- gds.CollectGarbage, if the datastore has it
  collect : GcState Cid → GcState Cid
  unfolding give_up
  collect s = elim world.collect_garbage [
    | none ↦ s
    | some none ↦ record s { collected = s.collected + 1 }
    | some (some code) ↦ give_up (from_outside code) (record s { collected = s.collected + 1 })
  ]

  unfoldable pub finish : Bool → GcState Cid → GcState Cid
  unfolding collect
  finish errors s =
      let (done, s') = send (failure cannot_delete_some_blocks) s in
      if errors then (if done then s' else collect s') else collect s

  -- what bs.AllKeysChan answered, and the rest of the collection
  unfoldable pub sweep_all : List Cid → Result ℕ (List Cid) → GcState Cid → GcState Cid
  unfolding give_up
  sweep_all gcs (err code) s = give_up (from_outside code) s
  sweep_all gcs (ok keys) s = let (errors, s') = sweep gcs keys false s in finish errors s'

module _ {Cid Hash : Type 0} ⦃e : Eq Cid⦄ (cids : Cids Cid Hash) (world : World Cid) where
  unfoldable pub sweep_marked : List Cid → GcState Cid → GcState Cid
  unfolding sweep_all
  sweep_marked gcs s = sweep_all world (to_raw_cids cids gcs) world.all_keys s

  -- if err != nil { … return }, or the sweep
  unfoldable pub after_marking : Result (GcError Cid) (List Cid) → GcState Cid → GcState Cid
  unfolding give_up
  after_marking (err x) s = give_up x s
  after_marking (ok gcs) s = sweep_marked gcs s

  unfoldable pub mark_and_sweep : List Cid → GcState Cid → GcState Cid
  unfolding after_marking
  mark_and_sweep roots s =
      let (marked, s1) = colored_set cids world roots s in after_marking marked s1

  -- `best_effort_roots` is the callback, or nil. A failing callback ends the collection.
  unfoldable pub gc : Option (Result ℕ (List Cid)) → GcState Cid → GcState Cid
  unfolding give_up
  gc none s = mark_and_sweep [] s
  gc (some (err code)) s = give_up (from_outside code) s
  gc (some (ok roots)) s = mark_and_sweep roots s
