-- ===== src/Gc/Growth.antt =====
-- What the mark phase leaves alone: it only adds to the set, and deletes nothing.
use kubo.Common.{
  ◌≡◌, refl, ◌∙◌, true, Option, List, Eq, ok, err, contains, arith, inl, inr, ◌==◌, ||-true_right,
  Option-cases,
}
use kubo.Gc.World.{
  Cids, GcError, GcResult, GcState, links, not_found, unavailable, GetLinks, World, poll, send,
  from_outside,
}
use kubo.Gc.Mark.{to_cid_v1, visit, get_links, best_effort_get_links, verify_get_links}
use kubo.Gc.Walk.{Run, done, stop, seen, fetched, failed, children}

-- From `s` to `t` the set grew, a cancelled context stayed so, and no block was deleted.
pub record Grows {Cid : Type 0} ⦃e : Eq Cid⦄ (s t : GcState Cid) : Type 0 where
  pub keeps : (a : Cid) → contains s.set a ≡ true → contains t.set a ≡ true
  pub cancels : s.cancelled ≡ true → t.cancelled ≡ true
  pub flags : s.errors ≡ true → t.errors ≡ true
  pub deletes : t.deleted ≡ s.deleted

module _ {Cid : Type 0} ⦃e : Eq Cid⦄ where
  pub Grows-refl : (s : GcState Cid) → Grows s s
  Grows-refl s = record { keeps = λ a h. h; cancels = λ h. h; flags = λ h. h; deletes = refl }

  pub Grows-trans : {s t u : GcState Cid} → Grows s t → Grows t u → Grows s u
  Grows-trans g h = record {
    keeps = λ a m. h.keeps a (g.keeps a m);
    cancels = λ c. h.cancels (g.cancels c);
    flags = λ c. h.flags (g.flags c);
    deletes = h.deletes ∙ g.deletes;
  }

  -- A step that leaves the set and the deletions as they are.
  pub Grows-same :
      (s t : GcState Cid)
      → t.set ≡ s.set
      → t.deleted ≡ s.deleted
      → (s.cancelled ≡ true → t.cancelled ≡ true)
      → (s.errors ≡ true → t.errors ≡ true)
      → Grows s t
  Grows-same s t same none_deleted c f = record {
    keeps = λ a m. rw same m;
    cancels = c;
    flags = f;
    deletes = none_deleted;
  }

  poll_cancelled : (s : GcState Cid) → s.cancelled ≡ true → (poll s).1.cancelled ≡ true
  unfolding poll
  poll_cancelled s h = ground arith

  pub set-poll : (s : GcState Cid) → (poll s).1.set ≡ s.set
  unfolding poll
  set-poll s = ground arith

  deleted-poll : (s : GcState Cid) → (poll s).1.deleted ≡ s.deleted
  unfolding poll
  deleted-poll s = ground arith

  poll_errors : (s : GcState Cid) → s.errors ≡ true → (poll s).1.errors ≡ true
  unfolding poll
  poll_errors s h = ground arith

  pub poll-Grows : (s : GcState Cid) → Grows s (poll s).1
  poll-Grows s =
      Grows-same s (poll s).1 (set-poll s) (deleted-poll s) (poll_cancelled s) (poll_errors s)

  pub set-send : (r : GcResult Cid) (s : GcState Cid) → (send r s).1.set ≡ s.set
  unfolding send
  set-send r s = ground arith

  send_cancelled :
      (r : GcResult Cid) (s : GcState Cid) → s.cancelled ≡ true → (send r s).1.cancelled ≡ true
  unfolding send
  send_cancelled r s h = ground arith

  deleted-send : (r : GcResult Cid) (s : GcState Cid) → (send r s).1.deleted ≡ s.deleted
  unfolding send
  deleted-send r s = ground arith

  pub send_errors :
      (r : GcResult Cid) (s : GcState Cid) → s.errors ≡ true → (send r s).1.errors ≡ true
  unfolding send
  send_errors r s h = ground arith

  pub send-Grows : (r : GcResult Cid) (s : GcState Cid) → Grows s (send r s).1
  send-Grows r s =
      Grows-same s (send r s).1 (set-send r s) (deleted-send r s) (send_cancelled r s)
        (send_errors r s)

module _ {Cid : Type 0} ⦃e : Eq Cid⦄ (world : World Cid) where
  -- A callback that answers with the links of the world, or none, and leaves the set alone.
  pub record IsLinks (gl : GetLinks Cid) : Type 0 where
    pub answers :
        (k : Cid) (s : GcState Cid) (ls : List Cid) → (gl k s).0 ≡ ok ls → ls ≡ children world k
    pub same_set : (k : Cid) (s : GcState Cid) → (gl k s).1.set ≡ s.set
    pub grows : (k : Cid) (s : GcState Cid) → Grows s (gl k s).1

  get_links_answers :
      (k : Cid) (s : GcState Cid) (ls : List Cid)
      → (get_links world k s).0 ≡ ok ls
      → ls ≡ children world k
  unfolding get_links send
  get_links_answers k s ls h = ground arith

  best_effort_answers :
      (k : Cid) (s : GcState Cid) (ls : List Cid)
      → (best_effort_get_links world k s).0 ≡ ok ls
      → ls ≡ children world k
  unfolding best_effort_get_links send
  best_effort_answers k s ls h = ground arith

  -- a failed fetch raises the flag and reports
  flagged-Grows :
      (r : GcResult Cid) (s : GcState Cid) → Grows s (send r (record s { errors = true })).1
  flagged-Grows r s =
      Grows-trans (Grows-same s (record s { errors = true }) refl refl (λ c. c) (λ f. refl))
        (send-Grows r (record s { errors = true }))

  get_links-Grows : (k : Cid) (s : GcState Cid) → Grows s (get_links world k s).1
  unfolding get_links
  get_links-Grows k s =
      elim (world.fetch k) as (λ f. world.fetch k ≡ f → Grows s (get_links world k s).1) [
        | links ls ↦ λ h. rw (h, get_links) (Grows-refl s)
        | not_found code ↦ λ h. rw (h, get_links) (flagged-Grows _ s)
        | unavailable code ↦ λ h. rw (h, get_links) (flagged-Grows _ s)
      ]
        refl

  best_effort-Grows : (k : Cid) (s : GcState Cid) → Grows s (best_effort_get_links world k s).1
  unfolding best_effort_get_links
  best_effort-Grows k s =
      elim (world.fetch k)
          as (λ f. world.fetch k ≡ f → Grows s (best_effort_get_links world k s).1) [
            | links ls ↦ λ h. rw (h, best_effort_get_links) (Grows-refl s)
            | not_found code ↦ λ h. rw (h, best_effort_get_links) (Grows-refl s)
            | unavailable code ↦ λ h. rw (h, best_effort_get_links) (flagged-Grows _ s)
          ]
        refl

  set-get_links : (k : Cid) (s : GcState Cid) → (get_links world k s).1.set ≡ s.set
  unfolding get_links send
  set-get_links k s = ground arith

  set-best_effort : (k : Cid) (s : GcState Cid) → (best_effort_get_links world k s).1.set ≡ s.set
  unfolding best_effort_get_links send
  set-best_effort k s = ground arith

  pub get_links-IsLinks : IsLinks (get_links world)
  get_links-IsLinks = record {
    answers = get_links_answers;
    same_set = set-get_links;
    grows = get_links-Grows;
  }

  pub best_effort-IsLinks : IsLinks (best_effort_get_links world)
  best_effort-IsLinks = record {
    answers = best_effort_answers;
    same_set = set-best_effort;
    grows = best_effort-Grows;
  }

  -- the check of the CID comes first
  pub verify-IsLinks : (gl : GetLinks Cid) → IsLinks gl → IsLinks (verify_get_links world gl)
  unfolding verify_get_links
  verify-IsLinks gl h = record {
    answers = λ k s ls a. elim (Option-cases (world.validate k)) [
      | inl fine ↦ h.answers k s ls (rw (fine, verify_get_links) at a)
      | inr (code, bad) ↦
          let b : err (from_outside code) ≡ ok ls = rw (bad, verify_get_links) at a in cc
    ];
    same_set = λ k s. ground (arith, h.same_set k s);
    grows = λ k s. elim (Option-cases (world.validate k)) [
      | inl fine ↦ rw (fine, verify_get_links) (h.grows k s)
      | inr (code, bad) ↦ rw (bad, verify_get_links) (Grows-refl s)
    ];
  }

module _ {Cid Hash : Type 0} ⦃e : Eq Cid⦄ (cids : Cids Cid Hash) (world : World Cid) where
  visit-Grows : (k : Cid) (s : GcState Cid) → Grows s (visit cids k s).1
  unfolding visit
  visit-Grows k s = record {
    keeps = λ a m. ground (arith, ||-true_right (to_cid_v1 cids k == a));
    cancels = λ c. ground arith;
    flags = λ f. ground arith;
    deletes = ground arith;
  }

  pub Run-Grows :
      (gl : GetLinks Cid)
      → IsLinks world gl
      → {pending : List Cid} {s : GcState Cid} {x : Option (GcError Cid)} {t : GcState Cid}
      → Run gl (visit cids) pending s x t
      → Grows s t
  Run-Grows gl h (done s) = Grows-refl s
  Run-Grows gl h (stop p s) = Grows-refl s
  Run-Grows gl h {s = s} (seen before after k _ _ rest) =
      Grows-trans (visit-Grows k s) (Run-Grows gl h rest)
  Run-Grows gl h {s = s} (fetched before after k ls _ _ _ rest) =
      Grows-trans (visit-Grows k s)
        (Grows-trans (h.grows k (visit cids k s).1) (Run-Grows gl h rest))
  Run-Grows gl h {s = s} (failed before after k x _ _ _) =
      Grows-trans (visit-Grows k s) (h.grows k (visit cids k s).1)
