-- ===== src/Repos/OnlyOne.antt =====
-- repo/onlyone.go: OnlyOne, its references and their Close. A reference is an address on a heap,
-- its counter a uint32. The opened repositories and the functions that open and close them belong
-- to other packages.
use kubo.Common.{
  ℕ, suc, ◌+◌, ◌-◌, ◌%◌, ◌^◌, none, some, Result, ok, if◌then◌else◌, ltb, Eq, ℕ_eq, Map, get, put,
  delete,
}
use kubo.Common.Acts.{Act, ◌>>=◌}

pub record Ref (Key Repo : Type 0) : Type 0 where
  pub key : Key
  pub refs : ℕ
  pub repo : Repo

pub record OnlyOne (Key Repo World : Type 0) : Type 0 where
  pub active : Map Key ℕ
  pub heap : Map ℕ (Ref Key Repo)
  pub next : ℕ
  pub world : World

-- What the packages of the repositories do: the `open` that a caller passes, and Repo.Close.
pub record Backend (Key Repo Error World : Type 0) : Type 0 where
  pub open_repo : Key → World → Result Error Repo × World
  pub close_repo : Repo → World → Result Error (Unit {0}) × World

module _ {Key Repo Error World : Type 0} ⦃e : Eq Key⦄ where
  unfoldable pub new_ref : Key → Repo → Act Error (OnlyOne Key Repo World) ℕ
  new_ref key repo s = (
    ok s.next,
    record s {
      active = put s.active key s.next;
      heap = put s.heap s.next (record { key = key; refs = 0; repo = repo });
      next = suc s.next;
    },
  )

  -- item.refs++
  unfoldable pub hold : ℕ → Act Error (OnlyOne Key Repo World) ℕ
  hold item s = elim (get s.heap item) [
    | none ↦ (ok item, s)
    | some ref ↦ (
      ok item,
      record s { heap = put s.heap item (record ref { refs = (ref.refs + 1) % 2 ^ 32 }) },
    )
  ]

  module _ (backend : Backend Key Repo Error World) where
    unfoldable pub call_open : Key → Act Error (OnlyOne Key Repo World) Repo
    call_open key s =
        let (result, w) = backend.open_repo key s.world in (result, record s { world = w })

    unfoldable pub find_or_open : Key → Act Error (OnlyOne Key Repo World) ℕ
    find_or_open key s = elim (get s.active key) [
      | some item ↦ (ok item, s)
      | none ↦ (call_open key >>= new_ref key) s
    ]

    -- OnlyOne.Open
    unfoldable pub open_ref : Key → Act Error (OnlyOne Key Repo World) ℕ
    open_ref key = do item ← find_or_open key; hold item

    -- The part of Close after the counter is lowered.
    unfoldable pub release : Ref Key Repo → Act Error (OnlyOne Key Repo World) (Unit {0})
    release ref s =
        if ltb 0 ref.refs
        then (ok tt, s)
        else let (result, w) = backend.close_repo ref.repo s.world in
          (result, record s { active = delete s.active ref.key; world = w })

    -- ref.Close
    unfoldable pub close_ref : ℕ → Act Error (OnlyOne Key Repo World) (Unit {0})
    close_ref item s = elim (get s.heap item) [
      | none ↦ (ok tt, s)
      | some ref ↦
          let lowered = record ref { refs = (ref.refs + (2 ^ 32 - 1)) % 2 ^ 32 } in
          release lowered (record s { heap = put s.heap item lowered })
    ]
