-- ===== src/Gc/Reached.antt =====
-- What a mark phase has to hold, and what its later stages add and keep.
use kubo.Common.{
  subst, ℕ, ◌≡◌, refl, ap, ◌∙◌, true, false, List, [], ◌∷◌, ◌++◌, Eq, Result, ok, err, contains,
  arith, Bool-cases, inl, inr, ◌==◌, ==→≡, ==-self, ||-true_right,
}
use kubo.Gc.World.{Cids, GcState, World, poll}
use kubo.Gc.Mark.{to_cid_v1, feed_roots, mark_direct, add}
use kubo.Gc.Walk.{children}
use kubo.Gc.Growth.{Grows, Grows-refl, Grows-trans, poll-Grows, set-poll}
use kubo.Gc.Coverage.{IsMarked}
use kubo.Gc.Roots.{keys_of}

-- `k` is reached from `r` along links that can be fetched.
pub data Reaches {Cid : Type 0} ⦃e : Eq Cid⦄ (world : World Cid) (r : Cid) : Cid → Type 0 where
  here : Reaches world r r
  link : {j k : Cid} → Reaches world r j → contains (children world j) k ≡ true → Reaches world r k

-- What a mark phase has to keep: all that the recursive pins and the best-effort roots reach, the
-- direct pins, and the internal pins.
pub record Covers {Cid Hash : Type 0} ⦃e : Eq Cid⦄ (cids : Cids Cid Hash) (world : World Cid)
    (roots gcs : List Cid) : Type 0 where
  pub reached :
      (r k : Cid)
      → contains (keys_of world.recursive_keys ++ roots) r ≡ true
      → Reaches world r k
      → IsMarked cids gcs k
  pub direct : (k : Cid) → contains (keys_of world.direct_keys) k ≡ true → IsMarked cids gcs k
  pub internal : (k : Cid) → contains (keys_of world.internal_pins) k ≡ true → IsMarked cids gcs k

module _ {Cid Hash : Type 0} ⦃e : Eq Cid⦄ (cids : Cids Cid Hash) where
  add_keeps : (a k : Cid) (set : List Cid) → contains set k ≡ true → contains (add a set) k ≡ true
  unfolding add
  add_keeps a k set m = ground (arith, ||-true_right (a == k))

  add_self : (a : Cid) (set : List Cid) → contains (add a set) a ≡ true
  unfolding add
  add_self a set = ground (arith, ==-self a)

  pub mark_direct-Grows :
      (pins : List (Result ℕ Cid)) (s : GcState Cid) → Grows s (mark_direct cids pins s).1
  unfolding mark_direct
  mark_direct-Grows [] s = Grows-refl s
  mark_direct-Grows (err code ∷ pins) s = Grows-refl s
  mark_direct-Grows (ok k ∷ pins) s =
      Grows-trans
        (record {
          keeps = λ a m. add_keeps (to_cid_v1 cids k) a s.set m;
          cancels = λ c. c;
          flags = λ f. f;
          deletes = refl;
        })
        (mark_direct-Grows pins (record s { set = add (to_cid_v1 cids k) s.set }))

  pub mark_direct-marks :
      (pins : List (Result ℕ Cid)) (s : GcState Cid)
      → (mark_direct cids pins s).0 ≡ ok tt
      → (k : Cid) → contains (keys_of pins) k ≡ true
      → IsMarked cids (mark_direct cids pins s).1.set k
  unfolding mark_direct
  mark_direct-marks [] s fine k m = cc
  mark_direct-marks (err code ∷ pins) s fine k m = cc
  mark_direct-marks (ok j ∷ pins) s fine k m =
      let s1 = record s { set = add (to_cid_v1 cids j) s.set } in
      elim (Bool-cases (j == k)) [
        | inl same ↦ subst (IsMarked cids (mark_direct cids pins s1).1.set) (==→≡ j k same) (
            (mark_direct-Grows pins s1).keeps (to_cid_v1 cids j)
              (add_self (to_cid_v1 cids j) s.set))
        | inr other ↦ mark_direct-marks pins s1 fine k (rw other at m)
      ]

module _ {Cid : Type 0} ⦃e : Eq Cid⦄ where
  polled : (s : GcState Cid) → (poll s).0 ≡ true → (poll s).1.cancelled ≡ true
  unfolding poll
  polled s h = ground (arith, ||-true_right s.cancelled)

  pub feed_roots-Grows : (roots : List Cid) (s : GcState Cid) → Grows s (feed_roots roots s).1
  unfolding feed_roots
  feed_roots-Grows [] s = Grows-refl s
  feed_roots-Grows (root ∷ roots) s = elim (Bool-cases (poll s).0) [
    | inl over ↦ rw over (poll-Grows s)
    | inr open_still ↦
        rw open_still (Grows-trans (poll-Grows s) (feed_roots-Grows roots (poll s).1))
  ]

  pub set-feed_roots : (roots : List Cid) (s : GcState Cid) → (feed_roots roots s).1.set ≡ s.set
  unfolding feed_roots
  set-feed_roots [] s = refl
  set-feed_roots (root ∷ roots) s = elim (Bool-cases (poll s).0) [
    | inl over ↦ rw over (set-poll s)
    | inr open_still ↦ rw open_still (set-feed_roots roots (poll s).1 ∙ set-poll s)
  ]

  -- Unless the context was cancelled, every root is fed.
  pub feed_roots_all :
      (roots : List Cid) (s : GcState Cid)
      → (feed_roots roots s).1.cancelled ≡ false
      → keys_of (feed_roots roots s).0 ≡ roots
  unfolding feed_roots
  feed_roots_all [] s c = refl
  feed_roots_all (root ∷ roots) s c = elim (Bool-cases (poll s).0) [
    | inl over ↦ let c' : (poll s).1.cancelled ≡ false = rw over at c in cc (polled s over)
    | inr open_still ↦
        rw open_still (ap (◌∷◌ root) (feed_roots_all roots (poll s).1 (rw open_still at c)))
  ]

  pub not_later : (s t : GcState Cid) → Grows s t → t.errors ≡ false → s.errors ≡ false
  not_later s t g fine = elim (Bool-cases s.errors) [
    | inl raised ↦ cc (g.flags raised)
    | inr fine' ↦ fine'
  ]
