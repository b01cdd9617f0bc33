-- ===== src/Requests/Kept.antt =====
-- The log of commands/reqlog.go over calls in any order: active entries stay in it, and no two of
-- its entries have the same ID.
use kubo.Common.{
  ℕ, ◌≤◌, ◌≡◌, refl, length, Bool, true, false, none, List, [], ◌∷◌, if◌then◌else◌, get, put, ℕ_eq,
  Option-cases, inl, inr, arith, contains, is_some,
}
use kubo.Common.Integers.{ℤ, pos}
use kubo.Requests.Log.{
  u64, LogEntry, ReqLog, cleanup, maybe_cleanup, append_entry, add_entry, clear_inactive,
  set_keep_time, finish_entry,
}
use kubo.Requests.Entries.{
  IsKept, cleanup-IsKept, maybe_cleanup-IsKept, keep_time-IsKept, made-IsKept, finished-IsKept,
  append_entry-IsKept,
}

module _ {Call : Type 0} where
  -- A log after calls in any order, with the entries that were added to it. A caller makes an
  -- entry, adds it once, and finishes it after that.
  pub data IsLogged : ReqLog Call → List ℕ → Type 0 where
    new_log :
        (t : ℤ) → IsLogged (record { requests = []; entries = []; next_id = 0; keep_time = t }) []
    made :
        (rl : ReqLog Call) (added : List ℕ) (r : ℕ) (rle : LogEntry Call)
        → IsLogged rl added
        → get rl.entries r ≡ none
        → IsLogged (record rl { entries = put rl.entries r rle }) added
    logged :
        (rl : ReqLog Call) (added : List ℕ) (now r : ℕ)
        → IsLogged rl added
        → contains added r ≡ false
        → is_some (get rl.entries r) ≡ true
        → IsLogged (add_entry now r rl) (r ∷ added)
    finished :
        (rl : ReqLog Call) (added : List ℕ) (now r : ℕ)
        → IsLogged rl added
        → contains added r ≡ true
        → IsLogged (finish_entry now r rl) added
    cleared :
        (rl : ReqLog Call) (added : List ℕ) (now : ℕ)
        → IsLogged rl added
        → IsLogged (clear_inactive now rl) added
    kept_for :
        (rl : ReqLog Call) (added : List ℕ) (t : ℤ)
        → IsLogged rl added
        → IsLogged (set_keep_time t rl) added

  added-IsKept :
      (act : Bool) (now : ℕ) (rl : ReqLog Call) (added : List ℕ)
      → IsKept rl added
      → IsKept (if act then rl else maybe_cleanup now rl) added
  added-IsKept true now rl added kept = kept
  added-IsKept false now rl added kept = maybe_cleanup-IsKept now rl added kept

  -- After calls in any order that add at most 2^64 entries: the active entries that were added are in the log, the log holds
  -- added entries only, and these have distinct IDs.
  pub logged-IsKept :
      (rl : ReqLog Call) (added : List ℕ) → IsLogged rl added → length added ≤ u64 → IsKept rl added
  unfolding add_entry finish_entry clear_inactive set_keep_time
  logged-IsKept rl added (new_log t) room = record {
    counted = refl;
    exists = λ r. cc;
    from_added = λ r. cc;
    active_in = λ r rle. cc;
    below_next = λ r rle add. absurd (ground arith);
    same_id = λ r r' rle rle' add. cc;
  }
  logged-IsKept rl added (made rl' added' r rle before absent) room =
      made-IsKept rl' added' r rle (logged-IsKept rl' added' before room) absent
  logged-IsKept rl added (logged rl' added' now r before new_entry there) room =
      let kept = logged-IsKept rl' added' before (omega arith) in
      elim (Option-cases (get rl'.entries r)) [
        | inl absent ↦ let bad = rw absent at there in cc
        | inr (rle, found) ↦
            let appended = append_entry-IsKept rl' added' r rle kept new_entry (omega arith) in
            rw (add_entry, found)
              (added-IsKept rle.active now (append_entry r rle rl') (r ∷ added') appended)
      ]
  logged-IsKept rl added (finished rl' added' now r before add) room =
      let kept = logged-IsKept rl' added' before room in
      let (rle, found) = kept.exists r add in
      let entries = put rl'.entries r (record rle { active = false; end_time = now }) in
      rw (finish_entry, found)
        (maybe_cleanup-IsKept now (record rl' { entries = entries }) added'
          (finished-IsKept rl' added' now r rle kept found))
  logged-IsKept rl added (cleared rl' added' now before) room =
      let short = keep_time-IsKept (pos 0) rl' added' (logged-IsKept rl' added' before room) in
      keep_time-IsKept rl'.keep_time (cleanup now (record rl' { keep_time = pos 0 })) added'
        (cleanup-IsKept now (record rl' { keep_time = pos 0 }) added' short)
  logged-IsKept rl added (kept_for rl' added' t before) room =
      keep_time-IsKept t rl' added' (logged-IsKept rl' added' before room)
