-- ===== src/Repos/Handles.antt =====
-- The references of repo/onlyone.go that clients hold, and the state that these leave.
use kubo.Common.{
  ℕ, suc, ◌-◌, ◌<◌, ◌≤◌, ◌≡◌, refl, sym, Option, none, some, List, [], ◌∷◌, Result, ok, err,
  if◌then◌else◌, nat_eq, Eq, ◌==◌, ℕ_eq, get, put, delete, get-put, get-delete, arith, length,
  Bool-cases, inl, inr, ==→≡, ==-self,
}
use kubo.Repos.OnlyOne.{Ref, OnlyOne}

unfoldable pub count : List ℕ → ℕ → ℕ
count [] r = 0
count (h ∷ held) r = let rest = count held r in if nat_eq h r then suc rest else rest

unfoldable pub give_back : List ℕ → ℕ → List ℕ
give_back [] r = []
give_back (h ∷ held) r = let rest = give_back held r in if nat_eq h r then held else h ∷ rest

-- The handles after an Open: one more if it succeeded.
unfoldable pub given_out : {Error : Type 0} → Result Error ℕ → List ℕ → List ℕ
given_out (ok item) held = item ∷ held
given_out (err x) held = held

-- The result of an operation, the world after it, and the reference that is active for the key.
abbrev pub observed :
    {Key Repo Error World : Type 0}
    → ⦃e : Eq Key⦄ → Key
    → Result Error (Unit {0}) × OnlyOne Key Repo World
    → Result Error (Unit {0}) × World × Option ℕ
observed key (result, s) = (result, s.world, get s.active key)

pub count-give_back :
    (held : List ℕ) (r r' : ℕ)
    → count (give_back held r) r' ≡ (if nat_eq r r' then count held r' - 1 else count held r')
unfolding count give_back
count-give_back [] r r' = ground arith
count-give_back (h ∷ held) r r' = ground (arith, count-give_back held r r')

pub count-≤ : (held : List ℕ) (r : ℕ) → count held r ≤ length held
unfolding count
count-≤ [] r = omega arith
count-≤ (h ∷ held) r = ground (arith, count-≤ held r)

module _ {Key Repo World : Type 0} ⦃e : Eq Key⦄ where
  -- A reference that is held is on the heap with the number of its handles; a key is active for
  -- exactly the reference of that key that is held.
  pub record IsSound (s : OnlyOne Key Repo World) (held : List ℕ) : Type 0 where
    pub counted : (r : ℕ) (ref : Ref Key Repo) → get s.heap r ≡ some ref → ref.refs ≡ count held r
    pub on_heap : (r : ℕ) → 0 < count held r → (ref : Ref Key Repo) × (get s.heap r ≡ some ref)
    pub active_held :
        (key : Key) (r : ℕ)
        → get s.active key ≡ some r
        → (ref : Ref Key Repo) × (get s.heap r ≡ some ref) × (ref.key ≡ key) × (0 < ref.refs)
    pub held_active :
        (r : ℕ) (ref : Ref Key Repo)
        → get s.heap r ≡ some ref
        → 0 < ref.refs
        → get s.active ref.key ≡ some r
    pub fresh : (r : ℕ) → s.next ≤ r → get s.heap r ≡ none

  -- The counter of an active reference changes, and stays positive.
  pub recounted-IsSound :
      (s : OnlyOne Key Repo World) (held held' : List ℕ) (item n : ℕ) (ref : Ref Key Repo)
      → IsSound s held
      → get s.heap item ≡ some ref
      → 0 < ref.refs
      → 0 < n
      → ((r : ℕ) → count held' r ≡ (if nat_eq item r then n else count held r))
      → IsSound (record s { heap = put s.heap item (record ref { refs = n }) }) held'
  recounted-IsSound s held held' item n ref sound there positive positive' counts =
      let new : Ref Key Repo = record ref { refs = n } in
      let look = λ (r : ℕ). get-put s.heap item r new in
      record {
        counted = λ r ref' at_r. elim (Bool-cases (nat_eq item r)) [
          | inl same ↦
              let at_new = rw (look r, same) at at_r in
              let new_refs : n ≡ ref'.refs = cc in rw (counts r, same) (sym new_refs)
          | inr other ↦ rw (counts r, other) (sound.counted r ref' (rw (look r, other) at at_r))
        ];
        on_heap = λ r out. elim (Bool-cases (nat_eq item r)) [
          | inl same ↦ (new, rw (look r, same) refl)
          | inr other ↦
              let (ref', at_r) = sound.on_heap r (rw (counts r, other) at out) in
              (ref', rw (look r, other) at_r)
        ];
        active_held = λ key r act.
            let (ref', at_r, its_key, pos) = sound.active_held key r act in
            elim (Bool-cases (nat_eq item r)) [
              | inl same ↦
                  let is_r : get s.heap r ≡ some ref = rw (==→≡ item r same) at there in
                  let its_key' : ref.key ≡ key = cc in
                  (new, rw (look r, same) refl, its_key', positive')
              | inr other ↦ (ref', rw (look r, other) at_r, its_key, pos)
            ];
        held_active = λ r ref' at_r pos. elim (Bool-cases (nat_eq item r)) [
          | inl same ↦
              let is_r : get s.heap r ≡ some ref = rw (==→≡ item r same) at there in
              let at_new = rw (look r, same) at at_r in
              let keys : ref.key ≡ ref'.key = cc in
              rw (sym keys) (sound.held_active r ref is_r positive)
          | inr other ↦ sound.held_active r ref' (rw (look r, other) at at_r) pos
        ];
        fresh = λ r high. elim (Bool-cases (nat_eq item r)) [
          | inl same ↦
              let is_r : get s.heap r ≡ some ref = rw (==→≡ item r same) at there in
              let absent = sound.fresh r high in cc
          | inr other ↦ rw (look r, other) (sound.fresh r high)
        ];
      }

  -- The last handle of an active reference goes.
  pub dropped-IsSound :
      (s : OnlyOne Key Repo World) (held held' : List ℕ) (item : ℕ) (ref : Ref Key Repo) (w : World)
      → IsSound s held
      → get s.heap item ≡ some ref
      → 0 < ref.refs
      → ((r : ℕ) → count held' r ≡ (if nat_eq item r then 0 else count held r))
      → IsSound
          (record s {
            active = delete s.active ref.key;
            heap = put s.heap item (record ref { refs = 0 });
            world = w;
          })
          held'
  dropped-IsSound s held held' item ref w sound there positive counts =
      let new : Ref Key Repo = record ref { refs = 0 } in
      let look = λ (r : ℕ). get-put s.heap item r new in
      let its_active = sound.held_active item ref there positive in
      record {
        counted = λ r ref' at_r. elim (Bool-cases (nat_eq item r)) [
          | inl same ↦
              let at_new = rw (look r, same) at at_r in
              let new_refs : 0 ≡ ref'.refs = cc in rw (counts r, same) (sym new_refs)
          | inr other ↦ rw (counts r, other) (sound.counted r ref' (rw (look r, other) at at_r))
        ];
        on_heap = λ r out. elim (Bool-cases (nat_eq item r)) [
          | inl same ↦ (new, rw (look r, same) refl)
          | inr other ↦
              let (ref', at_r) = sound.on_heap r (rw (counts r, other) at out) in
              (ref', rw (look r, other) at_r)
        ];
        active_held = λ key r act.
            let act' = rw (get-delete s.active ref.key key) at act in
            elim (Bool-cases (ref.key == key)) [
              | inl gone ↦ let bad = rw gone at act' in cc
              | inr stays ↦
                  let (ref', at_r, its_key, pos) = sound.active_held key r (rw stays at act') in
                  elim (Bool-cases (nat_eq item r)) [
                    | inl same ↦
                        let is_r : get s.heap r ≡ some ref = rw (==→≡ item r same) at there in
                        let its_key' : ref.key ≡ key = cc in
                        let self = ==-self key in let bad = rw its_key' at stays in cc
                    | inr other ↦ (ref', rw (look r, other) at_r, its_key, pos)
                  ]
            ];
        held_active = λ r ref' at_r pos. elim (Bool-cases (nat_eq item r)) [
          | inl same ↦
              let at_new = rw (look r, same) at at_r in
              let none_left : ref'.refs ≡ 0 = cc in absurd (omega arith)
          | inr other ↦
              let act = sound.held_active r ref' (rw (look r, other) at at_r) pos in
              elim (Bool-cases (ref.key == ref'.key)) [
                | inl equal ↦
                    let keys = ==→≡ ref.key ref'.key equal in
                    let act' = rw (sym keys) at act in
                    let same' : item ≡ r = cc in absurd (ground arith)
                | inr differ ↦ rw (get-delete s.active ref.key ref'.key, differ) act
              ]
        ];
        fresh = λ r high. elim (Bool-cases (nat_eq item r)) [
          | inl same ↦
              let is_r : get s.heap r ≡ some ref = rw (==→≡ item r same) at there in
              let absent = sound.fresh r high in cc
          | inr other ↦ rw (look r, other) (sound.fresh r high)
        ];
      }
