-- ===== src/Gc/Mark.antt =====
-- The mark phase: toCidV1, toRawCids, Descendants and ColoredSet of gc/gc.go.
use kubo.Common.{
  ℕ, Bool, true, false, Option, none, some, List, [], ◌∷◌, Eq, Result, ok, err, if◌then◌else◌,
  contains, nat_eq,
}
use kubo.Gc.World.{
  Cids, raw, GcError, context_done, cannot_fetch_all_links, from_outside, run_pin_verify,
  cannot_fetch_links, failure, GcState, links, not_found, unavailable, GetLinks, World, poll, send,
  Gc, ◌>>=◌,
}

module _ {Cid Hash : Type 0} (cids : Cids Cid Hash) where
  open cids use {version, codec, hash, new_cid_v1}

  -- converts any CIDv0s to CIDv1s
  unfoldable pub to_cid_v1 : Cid → Cid
  to_cid_v1 c = if nat_eq (version c) 0 then new_cid_v1 (codec c) (hash c) else c

-- cid.Set: Add
unfoldable pub add {ℓ} : {A : Type ℓ} ⦃e : Eq A⦄ → A → List A → List A
add k set = if contains set k then set else k ∷ set

module _ {Cid Hash : Type 0} ⦃e : Eq Cid⦄ (cids : Cids Cid Hash) where
  open cids use {hash, new_cid_v1}

  unfoldable pub to_raw_cids : List Cid → List Cid
  unfolding add
  to_raw_cids [] = []
  to_raw_cids (c ∷ set) = add (new_cid_v1 raw (hash c)) (to_raw_cids set)

  -- set.Visit(toCidV1(k)): true if `k` is new
  unfoldable pub visit : Cid → GcState Cid → Bool × GcState Cid
  visit k s =
      let v = to_cid_v1 cids k in
      if contains s.set v then (false, s) else (true, record s { set = v ∷ s.set })

module _ {Cid : Type 0} (world : World Cid) where
  open world use {validate, mentions_insecure, fetch}

  fetch_failed : Cid → ℕ → GetLinks Cid
  fetch_failed failed code k s =
      let (done, s') =
        send (failure (cannot_fetch_links failed code)) (record s { errors = true }) in
      (if done then err context_done else ok [], s')

  -- the closure `getLinks` of ColoredSet
  unfoldable pub get_links : GetLinks Cid
  unfolding fetch_failed
  get_links k s = elim (fetch k) [
    | links ls ↦ (ok ls, s)
    | not_found code ↦ fetch_failed k code k s
    | unavailable code ↦ fetch_failed k code k s
  ]

  -- the closure `bestEffortGetLinks`: a missing block is no error
  unfoldable pub best_effort_get_links : GetLinks Cid
  unfolding fetch_failed
  best_effort_get_links k s = elim (fetch k) [
    | links ls ↦ (ok ls, s)
    | not_found code ↦ (ok [], s)
    | unavailable code ↦ fetch_failed k code k s
  ]

  -- the closures `verifyGetLinks` and `verboseCidError` of Descendants
  unfoldable pub verify_get_links : GetLinks Cid → GetLinks Cid
  verify_get_links gl k s = elim (validate k) [
    | some code ↦ (err (from_outside code), s)
    | none ↦ gl k s
  ]

  unfoldable pub verbose_cid_error : GcError Cid → GcError Cid
  verbose_cid_error e = if mentions_insecure e then run_pin_verify e else e

module _ {Cid : Type 0} where
  -- if err != nil { errors = true; select { … return nil, ctx.Err() } }
  unfoldable pub report : Option (GcError Cid) → Gc Cid Unit
  report none s = (ok tt, s)
  report (some e) s =
      let (done, s') = send (failure e) (record s { errors = true }) in
      (if done then err context_done else ok tt, s')

  -- The goroutine that feeds bestEffortRootsChan; it closes the channel when the context is done.
  unfoldable pub feed_roots : List Cid → GcState Cid → List (Result ℕ Cid) × GcState Cid
  feed_roots [] s = ([], s)
  feed_roots (root ∷ roots) s =
      let (done, s1) = poll s in
      let (fed, s2) = feed_roots roots s1 in if done then ([], s1) else (ok root ∷ fed, s2)

  unfoldable pub feed : List Cid → Gc Cid (List (Result ℕ Cid))
  feed roots s = let (fed, s') = feed_roots roots s in (ok fed, s')

  unfoldable pub start_marking : Gc Cid Unit
  start_marking s = (ok tt, record s { set = []; errors = false })

  unfoldable pub finish_marking : Gc Cid (List Cid)
  finish_marking s = (if s.errors then err cannot_fetch_all_links else ok s.set, s)

module _ {Cid Hash : Type 0} ⦃e : Eq Cid⦄ (cids : Cids Cid Hash) where
  -- for k := range dkeys
  unfoldable pub mark_direct : List (Result ℕ Cid) → Gc Cid Unit
  unfolding add
  mark_direct [] s = (ok tt, s)
  mark_direct (err code ∷ pins) s = (err (from_outside code), s)
  mark_direct (ok k ∷ pins) s = mark_direct pins (record s { set = add (to_cid_v1 cids k) s.set })

module _ {Cid Hash : Type 0} ⦃e : Eq Cid⦄ (cids : Cids Cid Hash) (world : World Cid) where
  -- The loop over the channel of pins; its end is the closed channel.
  unfoldable pub descendants :
      GetLinks Cid → List (Result ℕ Cid) → GcState Cid → Option (GcError Cid) × GcState Cid
  descendants gl [] s = let (done, s1) = poll s in (if done then some context_done else none, s1)
  descendants gl (err code ∷ pins) s =
      let (done, s1) = poll s in (some (if done then context_done else from_outside code), s1)
  descendants gl (ok root ∷ pins) s =
      let (done, s1) = poll s in
      let (failed, s2) = world.walk (verify_get_links world gl) (visit cids) root s1 in
      let rest = descendants gl pins s2 in
      let walked : Option (GcError Cid) × GcState Cid = elim failed [
        | some e ↦ (some (verbose_cid_error world e), s2)
        | none ↦ rest
      ] in
      if done then (some context_done, s1) else walked

  unfoldable pub mark_descendants : GetLinks Cid → List (Result ℕ Cid) → Gc Cid Unit
  unfolding descendants report
  mark_descendants gl pins s = let (e, s') = descendants gl pins s in report e s'

  unfoldable pub colored_set : List Cid → Gc Cid (List Cid)
  unfolding feed start_marking finish_marking
  colored_set best_effort_roots = do
    _ ← start_marking
    _ ← mark_descendants (get_links world) world.recursive_keys
    fed ← feed best_effort_roots
    _ ← mark_descendants (best_effort_get_links world) fed
    _ ← mark_direct cids world.direct_keys
    _ ← mark_descendants (get_links world) world.internal_pins
    finish_marking
