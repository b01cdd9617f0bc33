-- ===== src/Repos/Opened.antt =====
-- Open and Close of repo/onlyone.go keep the number of handles of every reference.
use kubo.Common.{
  ℕ, suc, ◌+◌, ◌-◌, ◌%◌, ◌^◌, ◌<◌, ◌≡◌, refl, sym, ◌∙◌, true, false, none, some, List, ◌∷◌, ok,
  if◌then◌else◌, ltb, nat_eq, Eq, ◌==◌, ℕ_eq, Map, get, put, get-put, get-delete, arith, length,
  Bool-cases, Option-cases, Result-cases, inl, inr, ==→≡, ==-self,
}
use kubo.Repos.OnlyOne.{
  Ref, OnlyOne, Backend, new_ref, hold, call_open, find_or_open, open_ref, release, close_ref,
}
use kubo.Repos.Handles.{
  given_out, observed, count, count-≤, give_back, count-give_back, IsSound, recounted-IsSound,
  dropped-IsSound,
}

get-put-put :
    {V : Type 0} (m : Map ℕ V) (k j : ℕ) (v w : V)
    → get (put (put m k v) k w) j ≡ (if nat_eq k j then some w else get m j)
get-put-put m k j v w = get-put (put m k v) k j w ∙ elim (Bool-cases (nat_eq k j)) [
  | inl same ↦ rw same refl
  | inr other ↦ rw other (get-delete m k j ∙ rw other refl)
]

module _ {Key Repo World : Type 0} ⦃e : Eq Key⦄ where
  created-IsSound :
      (s : OnlyOne Key Repo World) (held : List ℕ) (key : Key) (repo : Repo)
      (heap : Map ℕ (Ref Key Repo))
      → IsSound s held
      → get s.active key ≡ none
      → ((r : ℕ)
          → get heap r ≡ (
              if nat_eq s.next r
              then some (record { key = key; refs = 1; repo = repo })
              else get s.heap r))
      → IsSound
          (record s { active = put s.active key s.next; heap = heap; next = suc s.next })
          (s.next ∷ held)
  unfolding count
  created-IsSound s held key repo heap sound inactive look =
      let unheld : count held s.next ≡ 0 = elim (Bool-cases (ltb 0 (count held s.next))) [
        | inl out ↦
            let (ref, there) = sound.on_heap s.next (ground arith) in
            let absent = sound.fresh s.next (omega arith) in cc
        | inr zero_left ↦ ground arith
      ] in
      record {
        counted = λ r ref' at_r. elim (Bool-cases (nat_eq s.next r)) [
          | inl same ↦
              let at_new = rw (look r, same) at at_r in
              let new_refs : 1 ≡ ref'.refs = cc in
              let next : s.next ≡ r = ground arith in rw (same, sym next, unheld) (sym new_refs)
          | inr other ↦ rw other (sound.counted r ref' (rw (look r, other) at at_r))
        ];
        on_heap = λ r out. elim (Bool-cases (nat_eq s.next r)) [
          | inl same ↦ (record { key = key; refs = 1; repo = repo }, rw (look r, same) refl)
          | inr other ↦
              let (ref', at_r) = sound.on_heap r (rw other at out) in
              (ref', rw (look r, other) at_r)
        ];
        active_held = λ k r act.
            let act' = rw (get-put s.active key k s.next) at act in
            elim (Bool-cases (key == k)) [
              | inl its ↦
                  let chosen = rw its at act' in
                  let next : s.next ≡ r = cc in
                  let same : nat_eq s.next r ≡ true = ground arith in
                  (
                    record { key = key; refs = 1; repo = repo },
                    rw (look r, same) refl,
                    ==→≡ key k its,
                    omega arith,
                  )
              | inr another ↦
                  let (ref', at_r, its_key, pos) = sound.active_held k r (rw another at act') in
                  elim (Bool-cases (nat_eq s.next r)) [
                    | inl same ↦ let absent = sound.fresh r (ground arith) in cc
                    | inr other ↦ (ref', rw (look r, other) at_r, its_key, pos)
                  ]
            ];
        held_active = λ r ref' at_r pos. elim (Bool-cases (nat_eq s.next r)) [
          | inl same ↦
              let at_new = rw (look r, same) at at_r in
              let keys : key ≡ ref'.key = cc in
              let next : s.next ≡ r = ground arith in
              rw (sym keys, get-put s.active key key s.next, ==-self key, next) refl
          | inr other ↦
              let act = sound.held_active r ref' (rw (look r, other) at at_r) pos in
              elim (Bool-cases (key == ref'.key)) [
                | inl equal ↦
                    let keys = ==→≡ key ref'.key equal in let bad = rw (sym keys) at act in cc
                | inr differ ↦ rw (get-put s.active key ref'.key s.next, differ) act
              ]
        ];
        fresh = λ r high. elim (Bool-cases (nat_eq s.next r)) [
          | inl same ↦ absurd (ground arith)
          | inr other ↦ rw (look r, other) (sound.fresh r (omega arith))
        ];
      }

module _ {Key Repo Error World : Type 0} ⦃e : Eq Key⦄ (backend : Backend Key Repo Error World) where
  -- Another world leaves the counts alone.
  pub world-IsSound :
      (s : OnlyOne Key Repo World) (held : List ℕ) (w : World)
      → IsSound s held
      → IsSound (record s { world = w }) held
  world-IsSound s held w sound = record {
    counted = sound.counted;
    on_heap = sound.on_heap;
    active_held = sound.active_held;
    held_active = sound.held_active;
    fresh = sound.fresh;
  }

  pub open_ref-IsSound :
      (s : OnlyOne Key Repo World) (held : List ℕ) (key : Key)
      → IsSound s held
      → length held < 2 ^ 32 - 1
      → IsSound (open_ref backend key s).1 (given_out (open_ref backend key s).0 held)
  unfolding open_ref find_or_open hold call_open new_ref given_out count
  open_ref-IsSound s held key sound bound = elim (Option-cases (get s.active key)) [
    | inr (item, found) ↦
        let (ref, there, _, positive) = sound.active_held key item found in
        let counter = sound.counted item ref there in
        let small = count-≤ held item in
        let plus : (ref.refs + 1) % 2 ^ 32 ≡ suc ref.refs = omega arith in
        rw (open_ref, find_or_open, found, hold, there, plus)
          (recounted-IsSound s held (item ∷ held) item (suc ref.refs) ref sound there positive
            (omega arith) (λ r. ground arith))
    | inl inactive ↦ elim (Result-cases (backend.open_repo key s.world).0) [
      | inl (repo, opened) ↦
          let w = (backend.open_repo key s.world).1 in
          let fresh_ref : Ref Key Repo = record { key = key; refs = 0; repo = repo } in
          rw
            (
              open_ref,
              find_or_open,
              inactive,
              call_open,
              opened,
              new_ref,
              hold,
              get-put s.heap s.next s.next fresh_ref,
              ==-self s.next,
            )
            (created-IsSound (record s { world = w }) held key repo
              (put (put s.heap s.next fresh_ref) s.next (record fresh_ref { refs = 1 }))
              (world-IsSound s held w sound) inactive
              (λ r. get-put-put s.heap s.next r fresh_ref (record fresh_ref { refs = 1 })))
      | inr (x, failed) ↦
          rw (open_ref, find_or_open, inactive, call_open, failed)
            (world-IsSound s held (backend.open_repo key s.world).1 sound)
    ]
  ]

  -- what Close does
  pub close_ref-IsSound :
      (s : OnlyOne Key Repo World) (held : List ℕ) (r : ℕ)
      → IsSound s held
      → length held < 2 ^ 32
      → 0 < count held r
      → IsSound (close_ref backend r s).1 (give_back held r)
  unfolding close_ref release
  close_ref-IsSound s held r sound bound out =
      let (ref, there) = sound.on_heap r out in
      let counter = sound.counted r ref there in
      let small = count-≤ held r in
      let lowered : (ref.refs + (2 ^ 32 - 1)) % 2 ^ 32 ≡ ref.refs - 1 = omega arith in
      elim (Bool-cases (ltb 0 (ref.refs - 1))) [
        | inl more ↦
            rw (close_ref, there, lowered, release, more)
              (recounted-IsSound s held (give_back held r) r (ref.refs - 1) ref sound there
                (omega arith) (ground arith) (λ r'. ground (arith, count-give_back held r r')))
        | inr last ↦
            let zero_left : ref.refs - 1 ≡ 0 = ground arith in
            rw (close_ref, there, lowered, release, zero_left)
              (dropped-IsSound s held (give_back held r) r ref
                (backend.close_repo ref.repo s.world).1 sound there (omega arith)
                (λ r'. ground (arith, count-give_back held r r')))
      ]

  -- A key that is active: the reference is shared.
  pub open_ref-active :
      (s : OnlyOne Key Repo World) (key : Key) (item : ℕ)
      → get s.active key ≡ some item
      → ((open_ref backend key s).0 ≡ ok item) × ((open_ref backend key s).1.world ≡ s.world)
  unfolding open_ref find_or_open hold
  open_ref-active s key item found = elim (Option-cases (get s.heap item)) [
    | inl absent ↦ rw (open_ref, find_or_open, found, hold, absent) (refl, refl)
    | inr (ref, there) ↦ rw (open_ref, find_or_open, found, hold, there) (refl, refl)
  ]

  -- What Close does with the last handle of a reference, and with another.
  pub close_ref-count :
      (s : OnlyOne Key Repo World) (held : List ℕ) (r : ℕ) (ref : Ref Key Repo)
      → IsSound s held
      → length held < 2 ^ 32
      → 0 < count held r
      → get s.heap r ≡ some ref
      → observed ref.key (close_ref backend r s) ≡ (
          if nat_eq (count held r) 1
          then (
            (backend.close_repo ref.repo s.world).0,
            (backend.close_repo ref.repo s.world).1,
            none,
          )
          else (ok tt, s.world, some r))
  unfolding close_ref release
  close_ref-count s held r ref sound bound out there =
      let counter = sound.counted r ref there in
      let small = count-≤ held r in
      let lowered : (ref.refs + (2 ^ 32 - 1)) % 2 ^ 32 ≡ ref.refs - 1 = omega arith in
      let act = sound.held_active r ref there (omega arith) in
      elim (Bool-cases (ltb 0 (ref.refs - 1))) [
        | inl more ↦
            let several : nat_eq (count held r) 1 ≡ false = ground arith in
            rw (close_ref, there, lowered, release, more, several, act) refl
        | inr last ↦
            let only : nat_eq (count held r) 1 ≡ true = ground arith in
            rw
              (
                close_ref,
                there,
                lowered,
                release,
                last,
                only,
                get-delete s.active ref.key ref.key,
                ==-self ref.key,
              )
              refl
      ]
