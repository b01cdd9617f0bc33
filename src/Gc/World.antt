-- ===== src/Gc/World.antt =====
-- What gc/gc.go takes from other packages, and the state that one collection threads through its
-- callbacks. CIDs, the DAG service, the pinner and the blockstore are parameters.
use kubo.Common.{
  ℕ, Bool, true, false, ◌||◌, Option, none, some, List, [], ◌∷◌, ◌++◌, Result, ok, err,
  if◌then◌else◌,
}

-- github.com/ipfs/go-cid
pub record Cids (Cid Hash : Type 0) : Type 0 where
  pub version : Cid → ℕ
  pub codec : Cid → ℕ
  pub hash : Cid → Hash
  pub new_cid_v1 : ℕ → Hash → Cid

-- cid.Raw, the multicodec of raw blocks
abbrev pub raw : ℕ
raw = 0x55

-- An error keeps its cause. `from_outside` stands for the errors of other packages, told apart by
-- a number, and `run_pin_verify` for the text that verboseCidError wraps around an error.
pub data GcError (Cid : Type 0) : Type 0 where
  context_done cannot_fetch_all_links cannot_delete_some_blocks : GcError Cid
  from_outside : ℕ → GcError Cid
  run_pin_verify : GcError Cid → GcError Cid
  cannot_fetch_links : Cid → ℕ → GcError Cid
  cannot_delete_block : Cid → ℕ → GcError Cid

pub record GcResult (Cid : Type 0) : Type 0 where
  pub key_removed : Option Cid
  pub error : Option (GcError Cid)

module _ {Cid : Type 0} where
  abbrev pub removed : Cid → GcResult Cid
  removed k = record { key_removed = some k; error = none }

  abbrev pub failure : GcError Cid → GcResult Cid
  failure e = record { key_removed = none; error = some e }

-- The variables `gcs`, `errors` and `output` that the closures share, the calls that reach the
-- blockstore and the datastore, and the schedule of the context: `polls` holds, for each coming
-- `select`, whether its `<-ctx.Done()` branch is taken, and `cancelled` says that one was. A
-- `select` of a cancelled context may still take its other branch.
pub record GcState (Cid : Type 0) : Type 0 where
  pub set : List Cid
  pub errors : Bool
  pub output : List (GcResult Cid)
  pub deleted : List Cid
  pub collected : ℕ
  pub polls : List Bool
  pub cancelled : Bool

-- What ipld.GetLinks answers; `not_found` is what ipld.IsNotFound recognises.
pub data Fetch (Cid : Type 0) : Type 0 where
  links : List Cid → Fetch Cid
  not_found unavailable : ℕ → Fetch Cid

abbrev pub GetLinks : Type 0 → Type 0
GetLinks Cid = Cid → GcState Cid → Result (GcError Cid) (List Cid) × GcState Cid

abbrev pub Visit : Type 0 → Type 0
Visit Cid = Cid → GcState Cid → Bool × GcState Cid

-- The packages that a collection calls. A streamed pin is a key or an error.
pub record World (Cid : Type 0) : Type 0 where
  pub validate : Cid → Option ℕ  -- verifcid.ValidateCid
  pub mentions_insecure : GcError Cid → Bool  -- the test on the text in verboseCidError
  pub fetch : Cid → Fetch Cid  -- ipld.GetLinks
  -- dag.Walk
  pub walk : GetLinks Cid → Visit Cid → Cid → GcState Cid → Option (GcError Cid) × GcState Cid
  pub recursive_keys : List (Result ℕ Cid)  -- pinner
  pub direct_keys : List (Result ℕ Cid)
  pub internal_pins : List (Result ℕ Cid)
  pub all_keys : Result ℕ (List Cid)  -- blockstore
  pub delete_block : Cid → Option ℕ
  pub collect_garbage : Option (Option ℕ)  -- none: no GCDatastore

module _ {Cid : Type 0} where
  -- select { case <-ctx.Done(): … }
  unfoldable pub poll : GcState Cid → Bool × GcState Cid
  poll s = elim s.polls [
    | [] ↦ (false, s)
    | b ∷ rest ↦ (b, record s { polls = rest; cancelled = s.cancelled || b })
  ]

  -- select { case output <- r: case <-ctx.Done(): … }, true if the second branch is taken
  unfoldable pub send : GcResult Cid → GcState Cid → Bool × GcState Cid
  unfolding poll
  send r s =
      let (done, s') = poll s in
      if done then (true, s') else (false, record s' { output = s'.output ++ r ∷ [] })

-- Actions that change the state and may fail.
abbrev pub Gc : Type 0 → Type 0 → Type 0
Gc Cid A = GcState Cid → Result (GcError Cid) A × GcState Cid

module _ {Cid A B : Type 0} where
  abbrev pub continue :
      Result (GcError Cid) A × GcState Cid → (A → Gc Cid B) → Result (GcError Cid) B × GcState Cid
  continue (ok a, s) f = f a s
  continue (err e, s) f = (err e, s)

  infixl 5 ◌>>=◌
  abbrev pub ◌>>=◌ : Gc Cid A → (A → Gc Cid B) → Gc Cid B
  ◌>>=◌ m f s = continue (m s) f
