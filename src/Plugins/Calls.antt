-- ===== src/Plugins/Calls.antt =====
-- Sequences of calls on one loader, whose errors the caller ignores.
use kubo.Common.{
  ℕ, ◌≡◌, refl, sym, ap, subst, ◌∙◌, String, string_eq, Bool, true, Option, List, [], ◌∷◌, ◌++◌,
  Result, ok, err, arith, inl, inr, append-nil,
}
use kubo.Common.Acts.{fail}
use kubo.Plugins.Loader.{
  LoaderState, loading, Plugin, PluginLoader, from_outside, Step, assert_state, load, load_all,
  load_directory, initialize, inject, close, start,
}
use kubo.Plugins.Life.{
  is_idle, closers, Accounts, Keeps, then_Keeps, load-Accounts, initialize-Accounts,
  inject-Accounts, start-Accounts, close-Accounts, assert_state-same,
}

pub data Call : Type 0 where
  call_load : Plugin → Call
  call_load_directory : Result ℕ (List Plugin) → Call
  call_initialize call_inject call_close : Call
  call_start : Option ℕ → Call

-- A loader before its first Load.
abbrev pub new_loader : PluginLoader
new_loader = record { state = loading; plugins = []; running = []; opened = []; released = [] }

module _ (disabled : String → Bool) where
  abbrev pub run_call : Call → Step
  run_call (call_load pl) = load disabled pl
  run_call (call_load_directory found) = load_directory disabled found
  run_call call_initialize = initialize
  run_call call_inject = inject
  run_call call_close = close
  run_call (call_start api) = start api

  abbrev pub run_calls : List Call → PluginLoader → PluginLoader
  run_calls [] l = l
  run_calls (c ∷ calls) l = run_calls calls (run_call c l).1

  -- A property that the loader starts with and that each call keeps.
  module _ (P : PluginLoader → Type 0) (keeps_load : (pl : Plugin) → Keeps P (load disabled pl))
      (keeps_initialize : Keeps P initialize) (keeps_inject : Keeps P inject)
      (keeps_close : Keeps P close) (keeps_start : (api : Option ℕ) → Keeps P (start api)) where
    load_all-Keeps : (plugins : List Plugin) → Keeps P (load_all disabled plugins)
    unfolding load_all
    load_all-Keeps [] = λ l p. p
    load_all-Keeps (pl ∷ plugins) =
        then_Keeps P (load disabled pl) (load_all disabled plugins) (keeps_load pl)
          (load_all-Keeps plugins)

    same-Keeps : (st : LoaderState) → Keeps P (assert_state st)
    same-Keeps st l p = subst P (sym (assert_state-same st l)) p

    load_directory-Keeps :
        (found : Result ℕ (List Plugin)) → Keeps P (load_directory disabled found)
    unfolding load_directory
    load_directory-Keeps (err code) =
        then_Keeps P (assert_state loading) (fail (from_outside code)) (same-Keeps loading)
          (λ l p. p)
    load_directory-Keeps (ok plugins) =
        then_Keeps P (assert_state loading) (load_all disabled plugins) (same-Keeps loading)
          (load_all-Keeps plugins)

    run_call-Keeps : (c : Call) → Keeps P (run_call c)
    run_call-Keeps (call_load pl) = keeps_load pl
    run_call-Keeps (call_load_directory found) = load_directory-Keeps found
    run_call-Keeps call_initialize = keeps_initialize
    run_call-Keeps call_inject = keeps_inject
    run_call-Keeps call_close = keeps_close
    run_call-Keeps (call_start api) = keeps_start api

    pub run_calls_keep : (calls : List Call) (l : PluginLoader) → P l → P (run_calls calls l)
    run_calls_keep [] l p = p
    run_calls_keep (c ∷ calls) l p = run_calls_keep calls (run_call c l).1 (run_call-Keeps c l p)

  run_calls-Accounts : (calls : List Call) → Accounts (run_calls calls new_loader)
  run_calls-Accounts calls =
      run_calls_keep Accounts (load-Accounts disabled) initialize-Accounts inject-Accounts
        close-Accounts start-Accounts calls new_loader (refl, inr refl)

  -- After any sequence of calls on a new loader that leaves it neither starting nor started, the
  -- Close of every started plugin that has one was called, in the order of the starts and once for
  -- each start, whatever these calls answered.
  pub idle_released :
      (calls : List Call)
      → is_idle (run_calls calls new_loader).state ≡ true
      → closers (run_calls calls new_loader).opened ≡ (run_calls calls new_loader).released
  idle_released calls idle =
      all_released (run_calls calls new_loader) (run_calls-Accounts calls) idle
    where
      all_released :
          (l : PluginLoader) → Accounts l → is_idle l.state ≡ true → closers l.opened ≡ l.released
      all_released l (all, inl going) i = absurd (ground arith)
      all_released l (all, inr none_runs) i =
          all ∙ ap (λ ps. l.released ++ closers ps) none_runs ∙ append-nil l.released
