-- ===== src/Gc/Remove.antt =====
-- blocks/blockstoreutil/remove.go: RmBlocks and FilterPinned. The blockstore is a parameter with a
-- state of its own; the calls of DeleteBlock are remembered.
use kubo.Common.{
  ◌<◌, ap, ◌∙◌, All, ℕ, ◌+◌, ◌≤◌, ◌≡◌, refl, Bool, true, false, not, ◌&&◌, Option, none, some, List,
  [], ◌∷◌, ◌++◌, Eq, ◌==◌, ==→≡, Result, ok, err, if◌then◌else◌, length, length-append, contains,
  contains-append, arith, Bool-cases, inl, inr, ◌⊎◌,
}

-- What pins.CheckIfPinned says of a CID.
pub record PinStatus (Cid : Type 0) : Type 0 where
  pub key : Cid
  pub pinned : Bool

pub data RemoveError : Type 0 where
  check_failed : ℕ → RemoveError
  is_pinned not_found : RemoveError
  store_error : ℕ → RemoveError

-- `hash` is none for the empty string
pub record RemovedBlock (Cid : Type 0) : Type 0 where
  pub hash : Option Cid
  pub error : Option RemoveError

pub record RmBlocksOpts : Type 0 where
  pub quiet : Bool
  pub force : Bool

pub record Blockstore (Cid Store : Type 0) : Type 0 where
  pub has : Cid → Store → Result ℕ Bool
  pub delete_block : Cid → Store → Option ℕ × Store

pub record RemoveState (Cid Store : Type 0) : Type 0 where
  pub store : Store
  pub deleted : List Cid
  pub out : List (RemovedBlock Cid)

module _ {Cid Store : Type 0} where
  abbrev emit : Option Cid → Option RemoveError → RemoveState Cid Store → RemoveState Cid Store
  emit hash error s = record s { out = s.out ++ (record { hash = hash; error = error }) ∷ [] }

  -- for _, r := range res
  unfoldable pub split_pinned :
      List (PinStatus Cid) → RemoveState Cid Store → List Cid × RemoveState Cid Store
  split_pinned [] s = ([], s)
  split_pinned (r ∷ res) s =
      let (okay, s1) =
        split_pinned res (if r.pinned then emit (some r.key) (some is_pinned) s else s) in
      (if r.pinned then okay else r.key ∷ okay, s1)

  unfoldable pub filter_pinned :
      Result ℕ (List (PinStatus Cid)) → RemoveState Cid Store → List Cid × RemoveState Cid Store
  unfolding split_pinned
  filter_pinned (err code) s = ([], emit none (some (check_failed code)) s)
  filter_pinned (ok res) s = split_pinned res s

module _ {Cid Store : Type 0} (blocks : Blockstore Cid Store) (opts : RmBlocksOpts) where
  delete_okay : Cid → RemoveState Cid Store → RemoveState Cid Store
  delete_okay c s =
      let (failed, store') = blocks.delete_block c s.store in
      let s1 = record s { store = store'; deleted = s.deleted ++ c ∷ [] } in
      elim failed [
        | some code ↦ emit (some c) (some (store_error code)) s1
        | none ↦ if opts.quiet then s1 else emit (some c) none s1
      ]

  remove_present : Cid → Result ℕ Bool → RemoveState Cid Store → RemoveState Cid Store
  remove_present c (err code) s = emit (some c) (some (store_error code)) s
  remove_present c (ok has) s =
      if not has && not opts.force then emit (some c) (some not_found) s else delete_okay c s

  -- the body of the loop over `stillOkay`
  unfoldable pub remove_one : Cid → RemoveState Cid Store → RemoveState Cid Store
  unfolding delete_okay remove_present
  remove_one c s = remove_present c (blocks.has c s.store) s

  unfoldable pub remove_all : List Cid → RemoveState Cid Store → RemoveState Cid Store
  remove_all [] s = s
  remove_all (c ∷ cids) s = remove_all cids (remove_one c s)

  -- `check` is the answer of pins.CheckIfPinned
  unfoldable pub rm_blocks : Result ℕ (List (PinStatus Cid)) → Store → RemoveState Cid Store
  rm_blocks check store =
      let (okay, s) = filter_pinned check (record { store = store; deleted = []; out = [] }) in
      remove_all okay s

-- The CIDs that are not pinned, in order.
abbrev pub unpinned : {Cid : Type 0} → List (PinStatus Cid) → List Cid
unpinned [] = []
unpinned (r ∷ res) = let rest = unpinned res in if r.pinned then rest else r.key ∷ rest

abbrev pub pinned_count : {Cid : Type 0} → List (PinStatus Cid) → ℕ
pinned_count [] = 0
pinned_count (r ∷ res) = (if r.pinned then 1 else 0) + pinned_count res

module _ {Cid Store : Type 0} where
  split_pinned_lem :
      (res : List (PinStatus Cid)) (s : RemoveState Cid Store)
      → ((split_pinned res s).0 ≡ unpinned res)
        × ((split_pinned res s).1.deleted ≡ s.deleted)
        × (length (split_pinned res s).1.out ≡ length s.out + pinned_count res)
  unfolding split_pinned
  split_pinned_lem [] s = (refl, refl, omega arith)
  split_pinned_lem (r ∷ res) s = elim (Bool-cases r.pinned) [
    | inl held ↦
        let s1 = emit (some r.key) (some is_pinned) s in
        ground (
          arith,
          split_pinned_lem res s1,
          length-append s.out ((record { hash = some r.key; error = some is_pinned }) ∷ []),
        )
    | inr free ↦ ground (arith, split_pinned_lem res s)
  ]

length-unpinned :
    {Cid : Type 0} (res : List (PinStatus Cid))
    → length (unpinned res) + pinned_count res ≡ length res
length-unpinned [] = omega arith
length-unpinned (r ∷ res) = ground (arith, length-unpinned res)

module _ {Cid : Type 0} ⦃e : Eq Cid⦄ where
  contains-unpinned :
      (res : List (PinStatus Cid)) (k : Cid)
      → All (λ r. r.key ≡ k → r.pinned ≡ true) res
      → contains (unpinned res) k ≡ false
  contains-unpinned [] k h = refl
  contains-unpinned (r ∷ res) k h = elim (Bool-cases r.pinned) [
    | inl held ↦ rw held (contains-unpinned res k h.1)
    | inr free ↦ elim (Bool-cases (r.key == k)) [
      | inl same ↦ cc (h.0 (==→≡ r.key k same), free)
      | inr other ↦ rw (free, other) (contains-unpinned res k h.1)
    ]
  ]

module _ {Cid Store : Type 0} (blocks : Blockstore Cid Store) (opts : RmBlocksOpts) where
  length-remove_one :
      (c : Cid) (s : RemoveState Cid Store)
      → length (remove_one blocks opts c s).out ≤ length s.out + 1
  unfolding remove_one
  length-remove_one c s = grind (arith, length-append)

  deleted-remove_one :
      (c : Cid) (s : RemoveState Cid Store)
      → ((remove_one blocks opts c s).deleted ≡ s.deleted)
        ⊎ ((remove_one blocks opts c s).deleted ≡ s.deleted ++ c ∷ [])
  unfolding remove_one
  deleted-remove_one c s = ground arith

  deleted-remove_all :
      ⦃e : Eq Cid⦄ (okay : List Cid) (s : RemoveState Cid Store) (k : Cid)
      → contains okay k ≡ false
      → contains (remove_all blocks opts okay s).deleted k ≡ contains s.deleted k
  unfolding remove_all
  deleted-remove_all [] s k absent = refl
  deleted-remove_all (c ∷ okay) s k absent = ground (
    arith,
    deleted-remove_all okay (remove_one blocks opts c s) k,
    deleted-remove_one c s,
    contains-append s.deleted (c ∷ []) k,
  )

  length-remove_all :
      (okay : List Cid) (s : RemoveState Cid Store)
      → length (remove_all blocks opts okay s).out ≤ length s.out + length okay
  unfolding remove_all
  length-remove_all [] s = omega arith
  length-remove_all (c ∷ okay) s =
      omega (arith, length-remove_all okay (remove_one blocks opts c s), length-remove_one c s)

  -- the state behind FilterPinned
  abbrev filtered : List (PinStatus Cid) → Store → RemoveState Cid Store
  filtered res store = (split_pinned res (record { store = store; deleted = []; out = [] })).1

  rm_blocks_split :
      (res : List (PinStatus Cid)) (store : Store)
      → rm_blocks blocks opts (ok res) store
        ≡ remove_all blocks opts (unpinned res) (filtered res store)
  unfolding rm_blocks filter_pinned
  rm_blocks_split res store =
      rw (split_pinned_lem res (record { store = store; deleted = []; out = [] })).0

  -- A CID that each entry of the pin check about it reports as pinned is never passed to DeleteBlock.
  pub rm_blocks_spares_pinned :
      ⦃e : Eq Cid⦄ (res : List (PinStatus Cid)) (store : Store) (k : Cid)
      → All (λ r. r.key ≡ k → r.pinned ≡ true) res
      → contains (rm_blocks blocks opts (ok res) store).deleted k ≡ false
  rm_blocks_spares_pinned res store k held = rw (rm_blocks_split res store) (
      deleted-remove_all (unpinned res) (filtered res store) k (contains-unpinned res k held)
      ∙ rw (split_pinned_lem res (record { store = store; deleted = []; out = [] })).1)

  -- RmBlocks never sends more results than its channel holds, one for each CID, if there is a CID
  -- and the pin check answers at most once for each.
  pub rm_blocks_fits :
      (cids : List Cid) (check : Result ℕ (List (PinStatus Cid))) (store : Store)
      → 0 < length cids
      → ((res : List (PinStatus Cid)) → check ≡ ok res → length res ≤ length cids)
      → length (rm_blocks blocks opts check store).out ≤ length cids
  unfolding rm_blocks filter_pinned
  rm_blocks_fits cids (err code) store some_cid fits = some_out
    where
      some_out :
          length
            (remove_all blocks opts [] (
              emit none
                (some (check_failed code))
                (record { store = store; deleted = []; out = [] }))).out
          ≤ length cids
      some_out = omega (
        arith,
        length-remove_all [] (
            emit none (some (check_failed code))
              (record { store = store; deleted = []; out = [] })),
      )
  rm_blocks_fits cids (ok res) store some_cid fits =
      let f = filtered res store in
      omega (
        arith,
        fits res refl,
        ap (λ (s : RemoveState Cid Store). length s.out) (rm_blocks_split res store),
        length-remove_all (unpinned res) f,
        length-unpinned res,
        (split_pinned_lem res (record { store = store; deleted = []; out = [] })).2,
      )
