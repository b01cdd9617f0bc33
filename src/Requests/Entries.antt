-- ===== src/Requests/Entries.antt =====
-- What every call of commands/reqlog.go keeps of the log and its entries.
use kubo.Common.{
  ℕ, ◌%◌, ◌<◌, ◌≡◌, refl, sym, ◌∙◌, true, false, none, some, List, [], ◌∷◌, nat_eq, length, get,
  put, get-put, ℕ_eq, Bool-cases, ◌⊎◌, ==-self, inl, inr, arith, contains, contains-keep,
  contains-append, ==→≡,
}
use kubo.Common.Integers.{ℤ}
use kubo.Requests.Log.{u64, LogEntry, ReqLog, stays_at, cleanup, maybe_cleanup, append_entry}
use kubo.Requests.Cleanup.{cleanup-keep}

module _ {Call : Type 0} where
  -- Added entries exist, those that are active are in the log, and their IDs are distinct and below
  -- the number of added entries.
  pub record IsKept (rl : ReqLog Call) (added : List ℕ) : Type 0 where
    pub exists :
        (r : ℕ) → contains added r ≡ true → (rle : LogEntry Call) × (get rl.entries r ≡ some rle)
    pub from_added : (r : ℕ) → contains rl.requests r ≡ true → contains added r ≡ true
    pub active_in :
        (r : ℕ) (rle : LogEntry Call)
        → contains added r ≡ true
        → get rl.entries r ≡ some rle
        → rle.active ≡ true
        → contains rl.requests r ≡ true
    pub counted : rl.next_id ≡ length added % u64
    pub below_next :
        (r : ℕ) (rle : LogEntry Call)
        → contains added r ≡ true
        → get rl.entries r ≡ some rle
        → rle.id < length added
    pub same_id :
        (r r' : ℕ) (rle rle' : LogEntry Call)
        → contains added r ≡ true
        → contains added r' ≡ true
        → get rl.entries r ≡ some rle
        → get rl.entries r' ≡ some rle'
        → rle.id ≡ rle'.id
        → r ≡ r'

  pub cleanup-IsKept :
      (now : ℕ) (rl : ReqLog Call) (added : List ℕ)
      → IsKept rl added
      → IsKept (cleanup now rl) added
  unfolding stays_at
  cleanup-IsKept now rl added kept = rw (cleanup-keep now rl) (record {
    exists = kept.exists;
    from_added = λ r there.
        kept.from_added r
          (let both = contains-keep (stays_at now rl) rl.requests r in ground arith);
    active_in = λ r rle add there act.
        let before = kept.active_in r rle add there act in
        let stays : stays_at now rl r ≡ true = rw (stays_at, there, act) refl in
        contains-keep (stays_at now rl) rl.requests r ∙ rw (before, stays) refl;
    counted = kept.counted;
    below_next = kept.below_next;
    same_id = kept.same_id;
  })

  pub maybe_cleanup-IsKept :
      (now : ℕ) (rl : ReqLog Call) (added : List ℕ)
      → IsKept rl added
      → IsKept (maybe_cleanup now rl) added
  unfolding maybe_cleanup
  maybe_cleanup-IsKept now rl added kept = elim (Bool-cases (nat_eq (length rl.requests % 10) 0)) [
    | inl due ↦ rw (maybe_cleanup, due) (cleanup-IsKept now rl added kept)
    | inr early ↦ rw (maybe_cleanup, early) kept
  ]

  pub keep_time-IsKept :
      (t : ℤ) (rl : ReqLog Call) (added : List ℕ)
      → IsKept rl added
      → IsKept (record rl { keep_time = t }) added
  keep_time-IsKept t rl added kept = record {
    exists = kept.exists;
    from_added = kept.from_added;
    active_in = kept.active_in;
    counted = kept.counted;
    below_next = kept.below_next;
    same_id = kept.same_id;
  }

  -- An entry that is not added changes.
  pub made-IsKept :
      (rl : ReqLog Call) (added : List ℕ) (r : ℕ) (rle : LogEntry Call)
      → IsKept rl added
      → get rl.entries r ≡ none
      → IsKept (record rl { entries = put rl.entries r rle }) added
  made-IsKept rl added r rle kept absent =
      let look = λ (x : ℕ) (add : contains added x ≡ true).
        let (old, there) = kept.exists x add in
        elim (Bool-cases (nat_eq r x)) as (λ _. get (put rl.entries r rle) x ≡ get rl.entries x) [
          | inl same ↦ let absent' = rw (==→≡ r x same) at absent in cc
          | inr other ↦ get-put rl.entries r x rle ∙ rw other refl
        ] in
      record {
        exists = λ x add. let (old, there) = kept.exists x add in (old, look x add ∙ there);
        from_added = kept.from_added;
        active_in = λ x e add there act. kept.active_in x e add (sym (look x add) ∙ there) act;
        counted = kept.counted;
        below_next = λ x e add there. kept.below_next x e add (sym (look x add) ∙ there);
        same_id = λ x y e f add add' there there' ids.
            kept.same_id x y e f add add' (sym (look x add) ∙ there) (sym (look y add') ∙ there')
              ids;
      }

  -- An entry ends.
  pub finished-IsKept :
      (rl : ReqLog Call) (added : List ℕ) (now r : ℕ) (rle : LogEntry Call)
      → IsKept rl added
      → get rl.entries r ≡ some rle
      → IsKept
          (record rl { entries = put rl.entries r (record rle { active = false; end_time = now }) })
          added
  finished-IsKept rl added now r rle kept there =
      let new : LogEntry Call = record rle { active = false; end_time = now } in
      let before = λ (x : ℕ) (e : LogEntry Call) (at_x : get (put rl.entries r new) x ≡ some e).
        elim (Bool-cases (nat_eq r x))
          as (λ _.
            (old : LogEntry Call) × (get rl.entries x ≡ some old)
            × (old.id ≡ e.id)
            × (e.active ≡ true → old.active ≡ true)) [
              | inl same ↦
                  let at_new = rw (get-put rl.entries r x new, same) at at_x in
                  let ids : rle.id ≡ e.id = cc in
                  let done : false ≡ e.active = cc in
                  (rle, rw (==→≡ r x same) at there, ids, λ a. cc)
              | inr other ↦ (e, (rw (get-put rl.entries r x new, other) at at_x), refl, λ a. a)
            ] in
      record {
        exists = λ x add. elim (Bool-cases (nat_eq r x)) [
          | inl same ↦ (new, get-put rl.entries r x new ∙ rw same refl)
          | inr other ↦
              let (old, at_x) = kept.exists x add in
              (old, get-put rl.entries r x new ∙ rw other at_x)
        ];
        from_added = kept.from_added;
        active_in = λ x e add at_x act.
            let (old, at_old, id, was) = before x e at_x in
            kept.active_in x old add at_old (was act);
        counted = kept.counted;
        below_next = λ x e add at_x.
            let (old, at_old, id, was) = before x e at_x in
            rw id at (kept.below_next x old add at_old);
        same_id = λ x y e f add add' at_x at_y ids.
            let (old, at_old, id, was) = before x e at_x in
            let (old', at_old', id', was') = before y f at_y in
            kept.same_id x y old old' add add' at_old at_old' (id ∙ ids ∙ sym id');
      }

  pub append_entry-IsKept :
      (rl : ReqLog Call) (added : List ℕ) (r : ℕ) (rle : LogEntry Call)
      → IsKept rl added
      → contains added r ≡ false
      → length added < u64
      → IsKept (append_entry r rle rl) (r ∷ added)
  unfolding append_entry
  append_entry-IsKept rl added r rle kept new_entry room =
      let next : rl.next_id ≡ length added = let count = kept.counted in omega arith in
      let new : LogEntry Call = record rle { id = rl.next_id } in
      let in_log = λ (x : ℕ). contains-append rl.requests (r ∷ []) x in
      let before =
        λ (x : ℕ) (e : LogEntry Call) (add : contains (r ∷ added) x ≡ true)
            (at_x : get (put rl.entries r new) x ≡ some e).
          elim (Bool-cases (nat_eq r x))
            as (λ _.
              ((r ≡ x) × (e.id ≡ rl.next_id))
              ⊎ ((contains added x ≡ true) × (get rl.entries x ≡ some e))) [
                | inl same ↦
                    let at_new = rw (get-put rl.entries r x new, same) at at_x in
                    let ids : rl.next_id ≡ e.id = cc in inl (==→≡ r x same, sym ids)
                | inr other ↦ inr (ground arith, (rw (get-put rl.entries r x new, other) at at_x))
              ] in
      record {
        exists = λ x add. elim (Bool-cases (nat_eq r x)) [
          | inl same ↦ (new, get-put rl.entries r x new ∙ rw same refl)
          | inr other ↦
              let (old, at_x) = kept.exists x (ground arith) in
              (old, get-put rl.entries r x new ∙ rw other at_x)
        ];
        from_added = λ x there. elim (Bool-cases (contains rl.requests x)) [
          | inl old ↦ let add = kept.from_added x old in ground arith
          | inr other ↦ let both = in_log x in ground arith
        ];
        active_in = λ x e add at_x act. elim (before x e add at_x) [
          | inl (same, ids) ↦ let both = in_log x in ground (arith, ==-self r)
          | inr (old, at_old) ↦
              let was = kept.active_in x e old at_old act in in_log x ∙ rw was refl
        ];
        counted = let count = kept.counted in omega arith;
        below_next = λ x e add at_x. elim (before x e add at_x) [
          | inl (same, ids) ↦ omega arith
          | inr (old, at_old) ↦ let low = kept.below_next x e old at_old in omega arith
        ];
        same_id = λ x y e f add add' at_x at_y ids. elim (before x e add at_x) [
          | inl (same, id) ↦ elim (before y f add' at_y) [
            | inl (same', id') ↦ sym same ∙ same'
            | inr (old', at_old') ↦
                let low = kept.below_next y f old' at_old' in absurd (omega arith)
          ]
          | inr (old, at_old) ↦ elim (before y f add' at_y) [
            | inl (same', id') ↦ let low = kept.below_next x e old at_old in absurd (omega arith)
            | inr (old', at_old') ↦ kept.same_id x y e f old old' at_old at_old' ids
          ]
        ];
      }
