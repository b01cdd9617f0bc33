-- ===== src/Plugins/Loader.antt =====
-- PluginLoader and its methods. A plugin is what its interfaces answer: `none` for an interface that
-- it has not, else the error of the call, if any.
use kubo.Common.{
  ℕ, String, string_eq, Bool, true, false, Option, none, some, List, [], ◌∷◌, ◌++◌, Result, ok, err,
  if◌then◌else◌, ◌==◌,
}
use kubo.Common.Acts.{Act, pure, fail, ◌>>=◌}

pub data LoaderState : Type 0 where
  loading initializing initialized injecting injected starting started closing closed failed :
      LoaderState

abbrev pub same_state : LoaderState → LoaderState → Bool
same_state loading loading = true
same_state initializing initializing = true
same_state initialized initialized = true
same_state injecting injecting = true
same_state injected injected = true
same_state starting starting = true
same_state started started = true
same_state closing closing = true
same_state closed closed = true
same_state failed failed = true
same_state _ _ = false

pub record Plugin : Type 0 where
  pub name : String
  pub version : String
  pub init : Option ℕ
  pub ipld : Option (Option ℕ)
  pub tracer : Option (Option ℕ)
  pub datastore : Option (Option ℕ)
  pub fx : Bool
  pub daemon : Option (Option ℕ)
  pub daemon_internal : Option (Option ℕ)
  pub closer : Option (Option ℕ)

-- `opened` remembers the plugins whose Start succeeded, and `released` each call of a plugin's Close.
pub record PluginLoader : Type 0 where
  pub state : LoaderState
  pub plugins : List Plugin
  pub running : List Plugin
  pub opened : List Plugin
  pub released : List Plugin

pub data LoaderError : Type 0 where
  wrong_state : LoaderState → LoaderState → LoaderError
  duplicated : String → String → String → LoaderError
  plugin_error : String → ℕ → LoaderError
  from_outside : ℕ → LoaderError
  close_errors : List (String × ℕ) → LoaderError

abbrev pub Step : Type 0
Step = Act LoaderError PluginLoader (Unit {0})

unfoldable pub assert_state : LoaderState → Step
assert_state expected loader =
    if same_state loader.state expected
    then (ok tt, loader)
    else (err (wrong_state expected loader.state), loader)

unfoldable pub transition : LoaderState → LoaderState → Step
unfolding assert_state
transition from to = do _ ← assert_state from; λ loader. (ok tt, record loader { state = to })

-- A plugin of this name, if one is loaded.
abbrev pub find_plugin : String → List Plugin → Option Plugin
find_plugin name [] = none
find_plugin name (p ∷ plugins) = if p.name == name then some p else find_plugin name plugins

-- `disabled` is the Disabled flag of the plugin's entry in the config
module _ (disabled : String → Bool) where
  unfoldable pub load_checked : Plugin → Step
  load_checked pl loader = elim (find_plugin pl.name loader.plugins) [
    | some p ↦ (err (duplicated pl.name p.version pl.version), loader)
    | none ↦
        if disabled pl.name
        then (ok tt, loader)
        else (ok tt, record loader { plugins = loader.plugins ++ pl ∷ [] })
  ]

  unfoldable pub load : Plugin → Step
  unfolding assert_state load_checked
  load pl = do _ ← assert_state loading; load_checked pl

  unfoldable pub load_all : List Plugin → Step
  load_all [] = pure tt
  load_all (pl ∷ plugins) = do _ ← load pl; load_all plugins

  -- `found` is what loadDynamicPlugins answers
  unfoldable pub load_directory : Result ℕ (List Plugin) → Step
  unfolding assert_state
  load_directory (err code) = do _ ← assert_state loading; fail (from_outside code)
  load_directory (ok plugins) = do _ ← assert_state loading; load_all plugins

-- An error that ends Initialize or Inject
unfoldable pub or_fail : String → Option ℕ → Step
or_fail name none loader = (ok tt, loader)
or_fail name (some code) loader = (err (plugin_error name code), record loader { state = failed })

unfoldable pub init_all : List Plugin → Step
init_all [] = pure tt
init_all (p ∷ plugins) = do _ ← or_fail p.name p.init; init_all plugins

unfoldable pub initialize : Step
unfolding transition
initialize = do
  _ ← transition loading initializing
  _ ← (λ loader. init_all loader.plugins loader)
  transition initializing initialized

unfoldable pub inject_as : String → Option (Option ℕ) → Step
inject_as name none = pure tt
inject_as name (some answer) = or_fail name answer

-- injectFxPlugin cannot fail
unfoldable pub inject_plugin : Plugin → Step
inject_plugin pl = do
  _ ← inject_as pl.name pl.ipld
  _ ← inject_as pl.name pl.tracer
  _ ← inject_as pl.name pl.datastore
  inject_as pl.name (if pl.fx then some none else none)

unfoldable pub inject_all : List Plugin → Step
inject_all [] = pure tt
inject_all (pl ∷ plugins) = do _ ← inject_plugin pl; inject_all plugins

unfoldable pub inject : Step
unfolding transition
inject = do
  _ ← transition initialized injecting
  _ ← (λ loader. inject_all loader.plugins loader)
  transition injecting injected

abbrev pub add_error : String → Option ℕ → List (String × ℕ) → List (String × ℕ)
add_error name none errs = errs
add_error name (some code) errs = errs ++ (name, code) ∷ []

-- The loop of Close over the started plugins, with its errors so far.
unfoldable pub close_each :
    List Plugin → List (String × ℕ) → PluginLoader → List (String × ℕ) × PluginLoader
close_each [] errs loader = (errs, loader)
close_each (pl ∷ plugins) errs loader = elim pl.closer [
  | none ↦ close_each plugins errs loader
  | some answer ↦
      close_each plugins (add_error pl.name answer errs)
        (record loader { released = loader.released ++ pl ∷ [] })
]

abbrev pub nothing_to_close : LoaderState → Bool
nothing_to_close closing = true
nothing_to_close failed = true
nothing_to_close closed = true
nothing_to_close _ = false

unfoldable pub close_running : Step
close_running loader =
    let (errs, after) =
      close_each loader.running [] (record loader { state = closing; running = [] }) in
    elim errs [
      | [] ↦ (ok tt, record after { state = closed })
      | e ∷ es ↦ (err (close_errors (e ∷ es)), record after { state = failed })
    ]

unfoldable pub close : Step
close loader = if nothing_to_close loader.state then (ok tt, loader) else close_running loader

-- A call of Start, of either daemon interface; the result of Close is dropped.
unfoldable pub start_as : Plugin → Option (Option ℕ) → Step
start_as pl none loader = (ok tt, loader)
start_as pl (some none) loader = (
  ok tt,
  record loader { running = loader.running ++ pl ∷ []; opened = loader.opened ++ pl ∷ [] },
)
start_as pl (some (some code)) loader = (err (plugin_error pl.name code), (close loader).1)

unfoldable pub start_all : List Plugin → Step
start_all [] = pure tt
start_all (pl ∷ plugins) = do
  _ ← start_as pl pl.daemon
  _ ← start_as pl pl.daemon_internal
  start_all plugins

-- `api` is the error of coreapi.NewCoreAPI, if any
unfoldable pub start : Option ℕ → Step
unfolding transition
start (some code) = do _ ← transition injected starting; fail (from_outside code)
start none = do
  _ ← transition injected starting
  _ ← (λ loader. start_all loader.plugins loader)
  transition starting started
