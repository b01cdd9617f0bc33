-- ===== src/Requests/Log.antt =====
-- commands/reqlog.go: the log and its entries. An entry is an object on the heap, which the log and
-- the caller share. Times are nanoseconds; the time of a call is its first argument. An ID is an int
-- of 64 bits, by the natural number with these bits.
use kubo.Common.{
  ℕ, zero, suc, ◌+◌, ◌%◌, ◌^◌, Bool, false, ◌||◌, none, some, List, [], ◌∷◌, ◌++◌, if◌then◌else◌,
  ltb, nat_eq, length, Map, get, put, ℕ_eq,
}
use kubo.Common.Integers.{ℤ, pos, negsuc}
use kubo.Common.Arrays.{get_elem?, set, take}

-- `call` is the command with its options and arguments, which the log does not read.
pub record LogEntry (Call : Type 0) : Type 0 where
  pub start_time : ℕ
  pub end_time : ℕ
  pub active : Bool
  pub call : Call
  pub id : ℕ
  pub has_log : Bool

pub record ReqLog (Call : Type 0) : Type 0 where
  pub requests : List ℕ
  pub entries : Map ℕ (LogEntry Call)
  pub next_id : ℕ
  pub keep_time : ℤ

abbrev pub u64 : ℕ
u64 = 2 ^ 64

-- t.Add(d).After(now)
abbrev pub ends_after : ℤ → ℕ → ℕ → Bool
ends_after (pos d) t now = ltb now (t + d)
ends_after (negsuc d) t now = ltb (now + suc d) t

-- The loop of cleanup over the slice, with its indices `i` and `j` and `n` rounds to go.
unfoldable pub compact : (ℕ → Bool) → ℕ → ℕ → ℕ → List ℕ → ℕ × List ℕ
compact stays zero i j requests = (i, requests)
compact stays (suc n) i j requests = elim (get_elem? requests j) [
  | none ↦ (i, requests)
  | some rj ↦
      if stays rj
      then compact stays n (suc i) (suc j) (set requests i rj)
      else compact stays n i (suc j) requests
]

module _ {Call : Type 0} where
  unfoldable pub stays_at : ℕ → ReqLog Call → ℕ → Bool
  stays_at now rl r = elim (get rl.entries r) [
    | none ↦ false
    | some rle ↦ rle.active || ends_after rl.keep_time rle.end_time now
  ]

  unfoldable pub cleanup : ℕ → ReqLog Call → ReqLog Call
  cleanup now rl =
      let (i, requests) = compact (stays_at now rl) (length rl.requests) 0 0 rl.requests in
      record rl { requests = take i requests }

  unfoldable pub maybe_cleanup : ℕ → ReqLog Call → ReqLog Call
  maybe_cleanup now rl = if nat_eq (length rl.requests % 10) 0 then cleanup now rl else rl

  -- the changes of AddEntry before its cleanup
  unfoldable pub append_entry : ℕ → LogEntry Call → ReqLog Call → ReqLog Call
  append_entry r rle rl = record rl {
    requests = rl.requests ++ r ∷ [];
    entries = put rl.entries r (record rle { id = rl.next_id });
    next_id = (rl.next_id + 1) % u64;
  }

  -- AddEntry of the entry at the address `r`
  unfoldable pub add_entry : ℕ → ℕ → ReqLog Call → ReqLog Call
  add_entry now r rl = elim (get rl.entries r) [
    | none ↦ rl
    | some rle ↦
        let added = append_entry r rle rl in if rle.active then added else maybe_cleanup now added
  ]

  unfoldable pub clear_inactive : ℕ → ReqLog Call → ReqLog Call
  clear_inactive now rl =
      let k = rl.keep_time in
      let cleaned = cleanup now (record rl { keep_time = pos 0 }) in
      record cleaned { keep_time = k }

  unfoldable pub set_keep_time : ℤ → ReqLog Call → ReqLog Call
  set_keep_time t rl = record rl { keep_time = t }

  abbrev pub copy : LogEntry Call → LogEntry Call
  copy rle = record rle { has_log = false }

  unfoldable pub report_entries : List ℕ → Map ℕ (LogEntry Call) → List (LogEntry Call)
  report_entries [] entries = []
  report_entries (r ∷ requests) entries =
      let rest = report_entries requests entries in
      elim (get entries r) [ none ↦ rest | some rle ↦ copy rle ∷ rest ]

  -- Finish of the entry at the address `r`
  unfoldable pub finish_entry : ℕ → ℕ → ReqLog Call → ReqLog Call
  finish_entry now r rl = elim (get rl.entries r) [
    | none ↦ rl
    | some rle ↦
        let finished = record rle { active = false; end_time = now } in
        maybe_cleanup now (record rl { entries = put rl.entries r finished })
  ]
