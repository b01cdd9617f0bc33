-- ===== src/Repos/Examples.antt =====
-- Two clients of repo/onlyone.go that open the same key.
use kubo.Common.{ℕ, ◌≡◌, refl, none, [], ◌∷◌, List, ok, arith, ℕ_eq, ◌≤◌, ◌+◌}
use kubo.Repos.OnlyOne.{
  OnlyOne, Backend, new_ref, hold, call_open, find_or_open, open_ref, close_ref,
}
use kubo.Repos.Handles.{given_out, observed, count, IsSound}
use kubo.Repos.Shared.{IsReached, start, opened, reached-IsSound, open_ref-shared, close_ref-last}

-- The world lists the repositories that were opened, and after them those that were closed.
abbrev backend : Backend ℕ ℕ ℕ (List ℕ)
backend = record {
  open_repo = λ key w. (ok (100 + key), (100 + key) ∷ w);
  close_repo = λ repo w. (ok tt, repo ∷ w);
}

abbrev none_open : OnlyOne ℕ ℕ (List ℕ)
none_open = record { active = []; heap = []; next = 0; world = [] }

abbrev twice : OnlyOne ℕ ℕ (List ℕ)
twice = record {
  active = (5, 0) ∷ [];
  heap = (0, record { key = 5; refs = 2; repo = 105 }) ∷ [];
  next = 1;
  world = 105 ∷ [];
}

opened_twice : (open_ref backend 5 (open_ref backend 5 none_open).1).1 ≡ twice
unfolding open_ref find_or_open call_open new_ref hold
opened_twice = refl

abbrev once : OnlyOne ℕ ℕ (List ℕ)
once = record twice { heap = (0, record { key = 5; refs = 1; repo = 105 }) ∷ [] }

reached_once : IsReached backend 2 once (0 ∷ [])
unfolding open_ref find_or_open call_open new_ref hold given_out
reached_once = opened none_open [] 5 (start []) (omega arith)

reached_twice : IsReached backend 2 twice (0 ∷ 0 ∷ [])
unfolding open_ref find_or_open call_open new_ref hold given_out
reached_twice = opened once (0 ∷ []) 5 reached_once (omega arith)

reached-IsSound_example : IsSound twice (0 ∷ 0 ∷ []) × (2 ≤ 2)
reached-IsSound_example = reached-IsSound backend 2 (omega arith) twice (0 ∷ 0 ∷ []) reached_twice

open_ref-shared_example :
    ((open_ref backend 5 once).0 ≡ ok 0) × ((open_ref backend 5 once).1.world ≡ 105 ∷ [])
unfolding count
open_ref-shared_example =
    open_ref-shared backend 2 (omega arith) once (0 ∷ []) 0
      (record { key = 5; refs = 1; repo = 105 }) reached_once (omega arith) refl

close_ref-last_example : observed 5 (close_ref backend 0 once) ≡ (ok tt, 105 ∷ 105 ∷ [], none)
unfolding count
close_ref-last_example =
    close_ref-last backend 2 (omega arith) once (0 ∷ []) 0
      (record { key = 5; refs = 1; repo = 105 }) reached_once (omega arith) refl
