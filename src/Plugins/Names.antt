-- ===== src/Plugins/Names.antt =====
-- The names of the plugins that a loader holds, through each of its methods.
use kubo.Common.{
  ℕ, ◌≡◌, refl, sym, subst, String, string_eq, Bool, false, Option, none, some, List, [], ◌∷◌, ◌++◌,
  if◌then◌else◌, arith, Bool-cases, Option-cases, inl, inr, ◌==◌, ==→≡, ==-self,
}
use kubo.Common.Acts.{◌>>=◌, fail}
use kubo.Plugins.Loader.{
  LoaderState, loading, initializing, initialized, injecting, injected, starting, started,
  same_state, Plugin, PluginLoader, from_outside, Step, assert_state, transition, load_checked,
  load, or_fail, init_all, initialize, inject_as, inject_plugin, inject_all, inject, close_running,
  close, start_as, start_all, start, find_plugin, closing,
}
use kubo.Plugins.Life.{Keeps, then_Keeps, assert_state-same, close_each-released}
use kubo.Plugins.Calls.{Call, new_loader, run_calls, run_calls_keep}

-- No two of the plugins have the same name.
abbrev pub Distinct : List Plugin → Type 0
Distinct [] = Unit {0}
Distinct (p ∷ plugins) = (find_plugin p.name plugins ≡ none) × Distinct plugins

abbrev Named : PluginLoader → Type 0
Named l = Distinct l.plugins

find_plugin-append :
    (name : String) (plugins : List Plugin) (pl : Plugin)
    → find_plugin name plugins ≡ none
    → (pl.name == name) ≡ false
    → find_plugin name (plugins ++ pl ∷ []) ≡ none
find_plugin-append name [] pl absent other = rw other
find_plugin-append name (p ∷ plugins) pl absent other = elim (Bool-cases (p.name == name)) [
  | inl same ↦ let bad = rw same at absent in cc
  | inr differs ↦ rw differs (find_plugin-append name plugins pl (rw differs at absent) other)
]

differs_back : (a b : String) → (a == b) ≡ false → (b == a) ≡ false
differs_back a b h = elim (Bool-cases (b == a)) [
  | inl same ↦ let back = ==→≡ b a same in cc (==-self a)
  | inr differs ↦ differs
]

Distinct-append :
    (plugins : List Plugin) (pl : Plugin)
    → Distinct plugins
    → find_plugin pl.name plugins ≡ none
    → Distinct (plugins ++ pl ∷ [])
Distinct-append [] pl d absent = (refl, tt)
Distinct-append (p ∷ plugins) pl (first, d) absent = elim (Bool-cases (p.name == pl.name)) [
  | inl same ↦ let bad = rw same at absent in cc
  | inr differs ↦ (
    find_plugin-append p.name plugins pl first (differs_back p.name pl.name differs),
    Distinct-append plugins pl d (rw differs at absent),
  )
]

load-Named : (disabled : String → Bool) (pl : Plugin) → Keeps Named (load disabled pl)
unfolding load load_checked
load-Named disabled pl =
    then_Keeps Named (assert_state loading) (load_checked disabled pl)
      (λ l d. subst Named (sym (assert_state-same loading l)) d) checked
  where
    checked : Keeps Named (load_checked disabled pl)
    checked l d = elim (Option-cases (find_plugin pl.name l.plugins)) [
      | inr (p, e) ↦ rw (e, load_checked) d
      | inl absent ↦ elim (Bool-cases (disabled pl.name)) [
        | inl off ↦ rw (absent, off, load_checked) d
        | inr on ↦ rw (absent, on, load_checked) (Distinct-append l.plugins pl d absent)
      ]
    ]

transition-Named : (from to : LoaderState) → Keeps Named (transition from to)
unfolding transition assert_state
transition-Named from to l d = elim (Bool-cases (same_state l.state from)) [
  | inl same ↦ rw same d
  | inr other ↦ rw other d
]

or_fail-Named : (name : String) (answer : Option ℕ) → Keeps Named (or_fail name answer)
unfolding or_fail
or_fail-Named name none l d = d
or_fail-Named name (some code) l d = d

init_all-Named : (plugins : List Plugin) → Keeps Named (init_all plugins)
unfolding init_all
init_all-Named [] = λ l d. d
init_all-Named (p ∷ plugins) =
    then_Keeps Named (or_fail p.name p.init) (init_all plugins) (or_fail-Named p.name p.init)
      (init_all-Named plugins)

-- The two methods that go over all plugins between two transitions.
over_all-Named :
    (a b c d : LoaderState) (f : List Plugin → Step)
    → ((plugins : List Plugin) → Keeps Named (f plugins))
    → Keeps Named
        (transition a b >>= λ _. (λ loader. f loader.plugins loader) >>= λ _. transition c d)
over_all-Named a b c d f keeps =
    then_Keeps Named (transition a b) ((λ loader. f loader.plugins loader) >>= λ _. transition c d)
      (transition-Named a b)
      (then_Keeps Named (λ loader. f loader.plugins loader) (transition c d)
        (λ l. keeps l.plugins l) (transition-Named c d))

initialize-Named : Keeps Named initialize
unfolding initialize
initialize-Named =
    over_all-Named loading initializing initializing initialized init_all init_all-Named

inject_as-Named : (name : String) (answer : Option (Option ℕ)) → Keeps Named (inject_as name answer)
unfolding inject_as
inject_as-Named name none = λ l d. d
inject_as-Named name (some answer) = or_fail-Named name answer

inject_plugin-Named : (pl : Plugin) → Keeps Named (inject_plugin pl)
unfolding inject_plugin
inject_plugin-Named pl =
    let last = inject_as pl.name (if pl.fx then some none else none) in
    let third = inject_as pl.name pl.datastore >>= λ _. last in
    let second = inject_as pl.name pl.tracer >>= λ _. third in
    then_Keeps Named (inject_as pl.name pl.ipld) second (inject_as-Named pl.name pl.ipld) (
      then_Keeps Named (inject_as pl.name pl.tracer) third (inject_as-Named pl.name pl.tracer) (
        then_Keeps Named (inject_as pl.name pl.datastore) last
          (inject_as-Named pl.name pl.datastore)
          (inject_as-Named pl.name (if pl.fx then some none else none))))

inject_all-Named : (plugins : List Plugin) → Keeps Named (inject_all plugins)
unfolding inject_all
inject_all-Named [] = λ l d. d
inject_all-Named (pl ∷ plugins) =
    then_Keeps Named (inject_plugin pl) (inject_all plugins) (inject_plugin-Named pl)
      (inject_all-Named plugins)

inject-Named : Keeps Named inject
unfolding inject
inject-Named = over_all-Named initialized injecting injecting injected inject_all inject_all-Named

plugins-close : (l : PluginLoader) → (close l).1.plugins ≡ l.plugins
unfolding close close_running
plugins-close l =
    ground (arith, close_each-released l.running [] (record l { state = closing; running = [] }))

start_as-Named : (pl : Plugin) (answer : Option (Option ℕ)) → Keeps Named (start_as pl answer)
unfolding start_as
start_as-Named pl none l d = d
start_as-Named pl (some none) l d = d
start_as-Named pl (some (some code)) l d = subst Distinct (sym (plugins-close l)) d

start_all-Named : (plugins : List Plugin) → Keeps Named (start_all plugins)
unfolding start_all
start_all-Named [] = λ l d. d
start_all-Named (pl ∷ plugins) =
    let rest = start_as pl pl.daemon_internal >>= λ _. start_all plugins in
    then_Keeps Named (start_as pl pl.daemon) rest (start_as-Named pl pl.daemon) (
      then_Keeps Named (start_as pl pl.daemon_internal) (start_all plugins)
        (start_as-Named pl pl.daemon_internal) (start_all-Named plugins))

start-Named : (api : Option ℕ) → Keeps Named (start api)
unfolding start
start-Named (some code) =
    then_Keeps Named (transition injected starting) (fail (from_outside code))
      (transition-Named injected starting) (λ l d. d)
start-Named none = over_all-Named injected starting starting started start_all start_all-Named

-- After any sequence of calls on a new loader, no two of its plugins have the same name.
pub run_calls-Distinct :
    (disabled : String → Bool) (calls : List Call)
    → Distinct (run_calls disabled calls new_loader).plugins
run_calls-Distinct disabled calls =
    run_calls_keep disabled Named (load-Named disabled) initialize-Named inject-Named
      (λ l d. subst Distinct (sym (plugins-close l)) d) start-Named calls new_loader tt
