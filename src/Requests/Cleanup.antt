-- ===== src/Requests/Cleanup.antt =====
-- The loop of cleanup in commands/reqlog.go, which moves the entries that stay to the front of
-- their slice, is a filter.
use kubo.Common.{
  ℕ, zero, suc, ◌+◌, ◌≡◌, refl, sym, ◌∙◌, Bool, ◌||◌, ◌&&◌, some, List, [], ◌∷◌, ◌++◌, ltb, length,
  get, ℕ_eq, keep, append-nil, append_assoc, Bool-cases, inl, inr, arith, length-append, contains,
  contains-keep, ap,
}
use kubo.Common.Integers.{pos}
use kubo.Common.Arrays.{get_elem?, set, take, get_elem?-append, set-append, take-append}
use kubo.Requests.Log.{LogEntry, ReqLog, compact, stays_at, cleanup, clear_inactive}

cut : ℕ × List ℕ → List ℕ
cut (i, requests) = take i requests

get_elem?-at :
    (kept junk : List ℕ) (r : ℕ) (rest : List ℕ) (j : ℕ)
    → j ≡ length kept + length junk
    → get_elem? (kept ++ (junk ++ r ∷ rest)) j ≡ some r
get_elem?-at [] junk r rest j at_j =
    let here : j ≡ length junk = omega arith in rw here (get_elem?-append junk r rest)
get_elem?-at (x ∷ kept) junk r rest zero at_j = absurd (omega arith)
get_elem?-at (x ∷ kept) junk r rest (suc j) at_j = get_elem?-at kept junk r rest j (omega arith)

-- The entries that stay grow by `r`, written over the oldest of the others.
set-at :
    (kept junk : List ℕ) (r : ℕ) (rest : List ℕ)
    → (junk' : List ℕ) × (set (kept ++ (junk ++ r ∷ rest)) (length kept) r
        ≡ (kept ++ r ∷ []) ++ (junk' ++ rest))
      × (length junk' ≡ length junk)
set-at kept [] r rest = ([], set-append kept r r rest ∙ sym (append_assoc kept (r ∷ []) rest), refl)
set-at kept (x ∷ junk) r rest = (
  junk ++ r ∷ [],
  set-append kept x r (junk ++ r ∷ rest)
      ∙ ap (λ ys. kept ++ r ∷ ys) (sym (append_assoc junk (r ∷ []) rest))
      ∙ sym (append_assoc kept (r ∷ []) ((junk ++ r ∷ []) ++ rest)),
  length-append junk (r ∷ []) ∙ omega arith,
)

-- The slice between the rounds: the entries that stay, others, and those to come.
compact-keep :
    (stays : ℕ → Bool) (rest kept junk requests : List ℕ) (i j : ℕ)
    → requests ≡ kept ++ (junk ++ rest)
    → i ≡ length kept
    → j ≡ length kept + length junk
    → cut (compact stays (length rest) i j requests) ≡ kept ++ keep stays rest
unfolding compact cut
compact-keep stays [] kept junk requests i j slice at_i at_j =
    rw (slice, at_i) (take-append kept (junk ++ []) ∙ sym (append-nil kept))
compact-keep stays (r ∷ rest) kept junk requests i j slice at_i at_j =
    let found : get_elem? requests j ≡ some r = rw slice (get_elem?-at kept junk r rest j at_j) in
    elim (Bool-cases (stays r)) [
      | inl stay ↦
          let (junk', written, same) = set-at kept junk r rest in
          let slice' : set requests i r ≡ (kept ++ r ∷ []) ++ (junk' ++ rest) =
            rw (slice, at_i) written in
          let longer = length-append kept (r ∷ []) in
          rw (compact, found, stay)
            (compact-keep stays rest (kept ++ r ∷ []) junk' (set requests i r) (suc i) (suc j)
                slice' (omega arith) (omega arith)
              ∙ append_assoc kept (r ∷ []) (keep stays rest))
      | inr go ↦
          let longer = length-append junk (r ∷ []) in
          rw (compact, found, go)
            (compact-keep stays rest kept (junk ++ r ∷ []) requests i (suc j)
              (slice ∙ ap (λ ys. kept ++ ys) (sym (append_assoc junk (r ∷ []) rest))) at_i
              (omega arith))
    ]

module _ {Call : Type 0} where
  -- cleanup keeps exactly the entries that are active or whose keep time has not passed, in
  -- order, and changes nothing else.
  pub cleanup-keep :
      (now : ℕ) (rl : ReqLog Call)
      → cleanup now rl ≡ record rl { requests = keep (stays_at now rl) rl.requests }
  unfolding cleanup compact cut
  cleanup-keep now rl =
      ap (λ rs. record rl { requests = rs })
        (compact-keep (stays_at now rl) rl.requests [] [] rl.requests 0 0 refl refl (omega arith))

  -- ClearInactive leaves an entry in the log exactly if it was there and is active or ends after
  -- now, and does not change the keep time.
  clear_inactive-active :
      (now r : ℕ) (rle : LogEntry Call) (rl : ReqLog Call)
      → get rl.entries r ≡ some rle
      → (contains (clear_inactive now rl).requests r
          ≡ (contains rl.requests r && (rle.active || ltb now rle.end_time)))
        × ((clear_inactive now rl).keep_time ≡ rl.keep_time)
  unfolding clear_inactive stays_at
  clear_inactive-active now r rle rl there =
      let kept = cleanup-keep now (record rl { keep_time = pos 0 }) in
      let stays = stays_at now (record rl { keep_time = pos 0 }) in
      let same : rle.end_time + 0 ≡ rle.end_time = omega arith in
      let test : stays r ≡ (rle.active || ltb now rle.end_time) = rw (stays_at, there, same) refl in
      (rw kept (contains-keep stays rl.requests r ∙ rw test refl), refl)
