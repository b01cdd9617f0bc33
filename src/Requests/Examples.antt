-- ===== src/Requests/Examples.antt =====
-- A log of commands/reqlog.go with an active entry and one that has ended.
use kubo.Common.{ℕ, ◌≡◌, refl, true, false, [], ◌∷◌, keep, ℕ_eq, arith}
use kubo.Common.Integers.{pos}
use kubo.Requests.Log.{LogEntry, ReqLog, stays_at, compact, cleanup, append_entry, add_entry}
use kubo.Requests.Cleanup.{cleanup-keep}
use kubo.Requests.Entries.{IsKept}
use kubo.Requests.Kept.{IsLogged, new_log, made, logged, logged-IsKept}

abbrev running : LogEntry ℕ
running = record { start_time = 100; end_time = 0; active = true; call = 1; id = 0; has_log = true }

abbrev ended : LogEntry ℕ
ended = record {
  start_time = 110;
  end_time = 130;
  active = false;
  call = 2;
  id = 1;
  has_log = true;
}

abbrev log : ReqLog ℕ
log = record {
  requests = 7 ∷ 8 ∷ [];
  entries = (7, running) ∷ (8, ended) ∷ [];
  next_id = 2;
  keep_time = pos 20;
}

cleanup-keep_example :
    cleanup 160 log ≡ record log { requests = keep (stays_at 160 log) (7 ∷ 8 ∷ []) }
cleanup-keep_example = cleanup-keep 160 log

cleaned : cleanup 160 log ≡ record log { requests = 7 ∷ [] }
unfolding cleanup compact stays_at
cleaned = refl

abbrev one_entry : ReqLog ℕ
one_entry = record {
  requests = 7 ∷ [];
  entries = (7, running) ∷ [];
  next_id = 1;
  keep_time = pos 20;
}

one_logged : IsLogged one_entry (7 ∷ [])
unfolding add_entry append_entry
one_logged =
    logged (record { requests = []; entries = (7, running) ∷ []; next_id = 0; keep_time = pos 20 })
      [] 100 7
      (made (record { requests = []; entries = []; next_id = 0; keep_time = pos 20 }) [] 7 running
        (new_log (pos 20)) refl)
      refl refl

logged-IsKept_example : IsKept one_entry (7 ∷ [])
logged-IsKept_example = logged-IsKept one_entry (7 ∷ []) one_logged (omega arith)
