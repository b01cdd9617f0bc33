-- ===== src/Repos/Shared.antt =====
-- Clients of repo/onlyone.go, in every order of their calls: one reference for each key that is
-- open, and one Close of its repository.
use kubo.Common.{
  ℕ, ◌^◌, ◌<◌, ◌≤◌, ◌≡◌, refl, none, some, List, [], ◌∷◌, Result, ok, err, if◌then◌else◌, nat_eq,
  Eq, ℕ_eq, get, arith, length,
}
use kubo.Repos.OnlyOne.{Ref, OnlyOne, Backend, open_ref, close_ref}
use kubo.Repos.Handles.{given_out, observed, count, give_back, IsSound}
use kubo.Repos.Opened.{
  world-IsSound, open_ref-IsSound, close_ref-IsSound, open_ref-active, close_ref-count,
}

length-give_back : (held : List ℕ) (r : ℕ) → length (give_back held r) ≤ length held
unfolding give_back
length-give_back [] r = omega arith
length-give_back (h ∷ held) r = ground (arith, length-give_back held r)

module _ {Key Repo Error World : Type 0} ⦃e : Eq Key⦄ (backend : Backend Key Repo Error World) where
  -- The state and the handles that clients hold, after calls in any order. A client closes a
  -- handle that it got and has not closed; no more than `limit` handles are out at a time. The
  -- world also changes without them.
  pub data IsReached (limit : ℕ) : OnlyOne Key Repo World → List ℕ → Type 0 where
    start :
        (w : World) → IsReached limit (record { active = []; heap = []; next = 0; world = w }) []
    opened :
        (s : OnlyOne Key Repo World) (held : List ℕ) (key : Key)
        → IsReached limit s held
        → length held < limit
        → IsReached limit (open_ref backend key s).1 (given_out (open_ref backend key s).0 held)
    closed :
        (s : OnlyOne Key Repo World) (held : List ℕ) (r : ℕ)
        → IsReached limit s held
        → 0 < count held r
        → IsReached limit (close_ref backend r s).1 (give_back held r)
    elsewhere :
        (s : OnlyOne Key Repo World) (held : List ℕ) (w : World)
        → IsReached limit s held
        → IsReached limit (record s { world = w }) held

  module _ (limit : ℕ) (small : limit < 2 ^ 32) where
    length-given_out :
        (result : Result Error ℕ) (held : List ℕ)
        → length held < limit
        → length (given_out result held) ≤ limit
    unfolding given_out
    length-given_out (ok item) held below = omega arith
    length-given_out (err x) held below = omega arith

    -- After calls in any order, if fewer than 2^32 handles may be out at a time, every reference
    -- counts its handles, a key is active exactly for the reference of that key with handles,
    -- and no more handles are out than may be.
    pub reached-IsSound :
        (s : OnlyOne Key Repo World) (held : List ℕ)
        → IsReached limit s held
        → IsSound s held × (length held ≤ limit)
    unfolding count
    reached-IsSound s held (start w) = (
      record {
        counted = λ r ref there. cc;
        on_heap = λ r out. absurd (omega arith);
        active_held = λ key r act. cc;
        held_active = λ r ref there pos. cc;
        fresh = λ r high. refl;
      },
      omega arith,
    )
    reached-IsSound s held (opened s' held' key before below) =
        let (sound, bound) = reached-IsSound s' held' before in
        (
          open_ref-IsSound backend s' held' key sound (omega arith),
          length-given_out (open_ref backend key s').0 held' below,
        )
    reached-IsSound s held (closed s' held' r before out) =
        let (sound, bound) = reached-IsSound s' held' before in
        let fewer = length-give_back held' r in
        (close_ref-IsSound backend s' held' r sound (omega arith) out, omega arith)
    reached-IsSound s held (elsewhere s' held' w before) =
        let (sound, bound) = reached-IsSound s' held' before in
        (world-IsSound backend s' held' w sound, bound)

    -- After calls in any order, if fewer than 2^32 handles may be out at a time: an Open of the
    -- key of a reference with a handle returns that reference and opens no repository.
    pub open_ref-shared :
        (s : OnlyOne Key Repo World) (held : List ℕ) (r : ℕ) (ref : Ref Key Repo)
        → IsReached limit s held
        → 0 < count held r
        → get s.heap r ≡ some ref
        → ((open_ref backend ref.key s).0 ≡ ok r) × ((open_ref backend ref.key s).1.world ≡ s.world)
    open_ref-shared s held r ref reached out there =
        let (sound, bound) = reached-IsSound s held reached in
        let counter = sound.counted r ref there in
        open_ref-active backend s ref.key r (sound.held_active r ref there (omega arith))

    -- After calls in any order, if fewer than 2^32 handles may be out at a time: Close of the last
    -- handle of a reference closes its repository, with that result, and its key is active no
    -- more; Close of another handle succeeds, leaves the world alone and the key active.
    pub close_ref-last :
        (s : OnlyOne Key Repo World) (held : List ℕ) (r : ℕ) (ref : Ref Key Repo)
        → IsReached limit s held
        → 0 < count held r
        → get s.heap r ≡ some ref
        → observed ref.key (close_ref backend r s) ≡ (
            if nat_eq (count held r) 1
            then (
              (backend.close_repo ref.repo s.world).0,
              (backend.close_repo ref.repo s.world).1,
              none,
            )
            else (ok tt, s.world, some r))
    close_ref-last s held r ref reached out there =
        let (sound, bound) = reached-IsSound s held reached in
        close_ref-count backend s held r ref sound (omega arith) out there
