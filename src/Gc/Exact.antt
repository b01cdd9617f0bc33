-- ===== src/Gc/Exact.antt =====
-- What the loop of the sweep deletes, when nothing cancels it.
use kubo.Common.{
  keep, not, append-nil, append_assoc, ◌≡◌, sym, ◌∙◌, Bool, false, List, [], ◌∷◌, ◌++◌, Eq,
  contains, arith, inl, inr, Bool-cases,
}
use kubo.Gc.World.{GcState, World, poll, send}
use kubo.Gc.Safety.{deleted-sweep_key}
use kubo.Gc.Sweep.{sweep_key, sweep}

module _ {Cid : Type 0} ⦃e : Eq Cid⦄ (world : World Cid) where
  poll_idle : (s : GcState Cid) → s.polls ≡ [] → poll s ≡ (false, s)
  unfolding poll
  poll_idle s h = ground arith

  sweep_key_idle :
      (j : Cid) (errors : Bool) (s : GcState Cid)
      → s.polls ≡ []
      → ((sweep_key world j errors s).0 ≡ false)
        × ((sweep_key world j errors s).2.polls ≡ [])
        × ((sweep_key world j errors s).2.cancelled ≡ s.cancelled)
  unfolding sweep_key send poll
  sweep_key_idle j errors s h = ground arith

  -- With no cancellation the loop asks the store to delete exactly the keys that are not marked, in
  -- order and each as often as it is listed, whether or not the store can delete it.
  pub sweep_exact :
      (gcs keys : List Cid) (errors : Bool) (s : GcState Cid)
      → s.polls ≡ []
      → s.cancelled ≡ false
      → (sweep world gcs keys errors s).1.deleted
        ≡ s.deleted ++ keep (λ k. not (contains gcs k)) keys
  unfolding sweep
  sweep_exact gcs [] errors s idle alive = rw (poll_idle s idle) (sym (append-nil s.deleted))
  sweep_exact gcs (j ∷ keys) errors s idle alive =
      let t = (sweep_key world j errors s).2 in
      let (goes_on, idle', same) = sweep_key_idle j errors s idle in
      elim (Bool-cases (contains gcs j)) [
        | inl marked ↦ ground (arith, poll_idle s idle, sweep_exact gcs keys errors s idle alive)
        | inr unmarked ↦ ground (
          arith,
          poll_idle s idle,
          deleted-sweep_key world j errors s,
          sweep_exact gcs keys (sweep_key world j errors s).1 t idle' (same ∙ alive),
          append_assoc s.deleted (j ∷ []) (keep (λ k. not (contains gcs k)) keys),
        )
      ]
