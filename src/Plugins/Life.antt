-- ===== src/Plugins/Life.antt =====
-- The plugins that a loader has started, through each of its methods.
use kubo.Common.{
  ℕ, ◌≡◌, refl, sym, ap, ◌∙◌, String, string_eq, Bool, true, false, Option, none, some, List, [],
  ◌∷◌, ◌++◌, Result, ok, err, if◌then◌else◌, arith, Bool-cases, Result-cases, inl, inr, ◌⊎◌,
  Option-cases, append_assoc, append-nil,
}
use kubo.Common.Acts.{fail, ◌>>=◌}
use kubo.Plugins.Loader.{
  LoaderState, loading, initializing, initialized, injecting, injected, starting, started, closed,
  failed, same_state, Plugin, PluginLoader, LoaderError, close_errors, Step, assert_state,
  transition, load_checked, load, or_fail, init_all, initialize, inject_as, inject_plugin,
  inject_all, inject, close_each, add_error, nothing_to_close, from_outside, close_running, close,
  start_as, start_all, start, closing,
}

-- The states in which no plugin runs.
abbrev pub is_idle : LoaderState → Bool
is_idle starting = false
is_idle started = false
is_idle _ = true

-- The plugins that have a Close, in order.
abbrev pub closers : List Plugin → List Plugin
closers [] = []
closers (pl ∷ plugins) = elim pl.closer [
  | none ↦ closers plugins
  | some answer ↦ pl ∷ closers plugins
]

closers-append : (xs ys : List Plugin) → closers (xs ++ ys) ≡ closers xs ++ closers ys
closers-append [] ys = refl
closers-append (pl ∷ xs) ys = elim (Option-cases pl.closer) [
  | inl without ↦ rw without (closers-append xs ys)
  | inr (answer, has) ↦ rw has (ap (λ ps. pl ∷ ps) (closers-append xs ys))
]

-- The loop of Close calls the Close of each plugin that has one, whatever these answer.
pub close_each-released :
    (plugins : List Plugin) (errs : List (String × ℕ)) (l : PluginLoader)
    → (close_each plugins errs l).1 ≡ record l { released = l.released ++ closers plugins }
unfolding close_each
close_each-released [] errs l = ap (λ ps. record l { released = ps }) (sym (append-nil l.released))
close_each-released (pl ∷ plugins) errs l = elim (Option-cases pl.closer) [
  | inl without ↦ rw (without, close_each) (close_each-released plugins errs l)
  | inr (answer, has) ↦
      rw (has, close_each)
        (close_each-released plugins (add_error pl.name answer errs)
            (record l { released = l.released ++ pl ∷ [] })
          ∙ ap (λ ps. record l { released = ps })
              (append_assoc l.released (pl ∷ []) (closers plugins)))
]

-- Each plugin that was started and has a Close is released or running, and in an idle state none
-- runs.
abbrev pub Accounts : PluginLoader → Type 0
Accounts l =
    (closers l.opened ≡ l.released ++ closers l.running)
    × ((is_idle l.state ≡ false) ⊎ (l.running ≡ []))

-- Nothing runs.
abbrev Quiet : PluginLoader → Type 0
Quiet l = (closers l.opened ≡ l.released ++ closers l.running) × (l.running ≡ [])

abbrev pub Keeps : (PluginLoader → Type 0) → Step → Type 0
Keeps P m = (l : PluginLoader) → P l → P (m l).1

Quiet-Accounts : (l : PluginLoader) → Quiet l → Accounts l
Quiet-Accounts l (all, none_runs) = (all, inr none_runs)

pub then_Keeps :
    (P : PluginLoader → Type 0) (m f : Step) → Keeps P m → Keeps P f → Keeps P (m >>= λ _. f)
then_Keeps P m f first second l p = elim (Result-cases (m l).0) [
  | inl (a, e) ↦ rw e (second (m l).1 (first l p))
  | inr (x, e) ↦ rw e (first l p)
]

transition-Keeps : (from to : LoaderState) → Keeps Quiet (transition from to)
unfolding transition assert_state
transition-Keeps from to l q = ground arith

pub assert_state-same : (st : LoaderState) (l : PluginLoader) → (assert_state st l).1 ≡ l
unfolding assert_state
assert_state-same st l = ground arith

or_fail-Keeps : (name : String) (answer : Option ℕ) → Keeps Quiet (or_fail name answer)
unfolding or_fail
or_fail-Keeps name none l q = q
or_fail-Keeps name (some code) l q = q

init_all-Keeps : (plugins : List Plugin) → Keeps Quiet (init_all plugins)
unfolding init_all
init_all-Keeps [] = λ l q. q
init_all-Keeps (p ∷ plugins) =
    then_Keeps Quiet (or_fail p.name p.init) (init_all plugins) (or_fail-Keeps p.name p.init)
      (init_all-Keeps plugins)

inject_as-Keeps : (name : String) (answer : Option (Option ℕ)) → Keeps Quiet (inject_as name answer)
unfolding inject_as
inject_as-Keeps name none = λ l q. q
inject_as-Keeps name (some answer) = or_fail-Keeps name answer

inject_plugin-Keeps : (pl : Plugin) → Keeps Quiet (inject_plugin pl)
unfolding inject_plugin
inject_plugin-Keeps pl =
    let last = inject_as pl.name (if pl.fx then some none else none) in
    let third = inject_as pl.name pl.datastore >>= λ _. last in
    let second = inject_as pl.name pl.tracer >>= λ _. third in
    then_Keeps Quiet (inject_as pl.name pl.ipld) second (inject_as-Keeps pl.name pl.ipld) (
      then_Keeps Quiet (inject_as pl.name pl.tracer) third (inject_as-Keeps pl.name pl.tracer) (
        then_Keeps Quiet (inject_as pl.name pl.datastore) last
          (inject_as-Keeps pl.name pl.datastore)
          (inject_as-Keeps pl.name (if pl.fx then some none else none))))

inject_all-Keeps : (plugins : List Plugin) → Keeps Quiet (inject_all plugins)
unfolding inject_all
inject_all-Keeps [] = λ l q. q
inject_all-Keeps (pl ∷ plugins) =
    then_Keeps Quiet (inject_plugin pl) (inject_all plugins) (inject_plugin-Keeps pl)
      (inject_all-Keeps plugins)

-- A method that starts in an idle state and keeps the loader quiet.
guarded-Accounts :
    (from to : LoaderState) (f : Step)
    → ((st : LoaderState) → same_state st from ≡ true → is_idle st ≡ true)
    → Keeps Quiet f
    → Keeps Accounts (transition from to >>= λ _. f)
unfolding transition assert_state
guarded-Accounts from to f idle keeps l (all, runs) = elim (Bool-cases (same_state l.state from)) [
  | inr other ↦ rw other (all, runs)
  | inl same ↦ rw same (
      Quiet-Accounts (f (record l { state = to })).1
        (keeps (record l { state = to }) (all, quiet runs (idle l.state same))))
]
  where
    quiet : (is_idle l.state ≡ false) ⊎ (l.running ≡ []) → is_idle l.state ≡ true → l.running ≡ []
    quiet h i = ground arith

loading-idle : (st : LoaderState) → same_state st loading ≡ true → is_idle st ≡ true
loading-idle st h = ground arith

initialized-idle : (st : LoaderState) → same_state st initialized ≡ true → is_idle st ≡ true
initialized-idle st h = ground arith

pub initialize-Accounts : Keeps Accounts initialize
unfolding initialize
initialize-Accounts =
    guarded-Accounts loading initializing
      ((λ loader. init_all loader.plugins loader) >>= λ _. transition initializing initialized)
      loading-idle
      (then_Keeps Quiet (λ loader. init_all loader.plugins loader)
        (transition initializing initialized) (λ l. init_all-Keeps l.plugins l)
        (transition-Keeps initializing initialized))

pub inject-Accounts : Keeps Accounts inject
unfolding inject
inject-Accounts =
    guarded-Accounts initialized injecting
      ((λ loader. inject_all loader.plugins loader) >>= λ _. transition injecting injected)
      initialized-idle
      (then_Keeps Quiet (λ loader. inject_all loader.plugins loader) (transition injecting injected)
        (λ l. inject_all-Keeps l.plugins l) (transition-Keeps injecting injected))

closed-Accounts :
    (l : PluginLoader) (errs : List (String × ℕ)) (after : PluginLoader)
    → closers l.opened ≡ l.released ++ closers l.running
    → after ≡ record l { state = closing; running = []; released = l.released ++ closers l.running }
    → Accounts
        (elim errs as (λ _. Result LoaderError (Unit {0}) × PluginLoader) [
          | [] ↦ (ok tt, record after { state = closed })
          | e ∷ es ↦ (err (close_errors (e ∷ es)), record after { state = failed })
        ]).1
closed-Accounts l [] after all is =
    rw is (all ∙ sym (append-nil (l.released ++ closers l.running)), inr refl)
closed-Accounts l (e ∷ es) after all is =
    rw is (all ∙ sym (append-nil (l.released ++ closers l.running)), inr refl)

pub close-Accounts : Keeps Accounts close
unfolding close close_running
close-Accounts l (all, runs) = elim (Bool-cases (nothing_to_close l.state)) [
  | inl over ↦ rw (over, close) (all, runs)
  | inr open_ ↦
      let l' : PluginLoader = record l { state = closing; running = [] } in
      rw (open_, close)
        (closed-Accounts l (close_each l.running [] l').0 (close_each l.running [] l').1 all
          (close_each-released l.running [] l'))
]

-- Plugins are being started.
abbrev Going : PluginLoader → Type 0
Going l = (closers l.opened ≡ l.released ++ closers l.running) × (is_idle l.state ≡ false)

-- An action on a loader that is going leaves it going, or fails and leaves the accounts in order.
abbrev Goes : Step → Type 0
Goes m =
    (l : PluginLoader)
    → Going l
    → (((m l).0 ≡ ok tt) × Going (m l).1)
      ⊎ ((e : LoaderError) × ((m l).0 ≡ err e) × Accounts (m l).1)

then_Goes : (m f : Step) → Goes m → Goes f → Goes (m >>= λ _. f)
then_Goes m f first second l g = elim (first l g) [
  | inl (done, g1) ↦ rw done (second (m l).1 g1)
  | inr (e, fails, acc) ↦ rw fails (inr (e, refl, acc))
]

start_as-Goes : (pl : Plugin) (answer : Option (Option ℕ)) → Goes (start_as pl answer)
unfolding start_as
start_as-Goes pl none l g = inl (refl, g)
start_as-Goes pl (some none) l (all, going) =
    let more =
      closers-append l.opened (pl ∷ [])
      ∙ ap (λ ps. ps ++ closers (pl ∷ [])) all
      ∙ append_assoc l.released (closers l.running) (closers (pl ∷ []))
      ∙ ap (λ ps. l.released ++ ps) (sym (closers-append l.running (pl ∷ []))) in
    inl (refl, (more, going))
start_as-Goes pl (some (some code)) l (all, going) =
    inr (_, refl, close-Accounts l (all, inl going))

start_all-Goes : (plugins : List Plugin) → Goes (start_all plugins)
unfolding start_all
start_all-Goes [] = λ l g. inl (refl, g)
start_all-Goes (pl ∷ plugins) =
    let rest = start_as pl pl.daemon_internal >>= λ _. start_all plugins in
    then_Goes (start_as pl pl.daemon) rest (start_as-Goes pl pl.daemon) (
      then_Goes (start_as pl pl.daemon_internal) (start_all plugins)
        (start_as-Goes pl pl.daemon_internal) (start_all-Goes plugins))

to_started-Goes : Goes (transition starting started)
unfolding transition assert_state
to_started-Goes l (all, going) = elim (Bool-cases (same_state l.state starting)) [
  | inl same ↦ rw same (inl (refl, (all, refl)))
  | inr other ↦ rw other (inr (_, refl, (all, inl going)))
]

Goes-Accounts : (m : Step) (l : PluginLoader) → Goes m → Going l → Accounts (m l).1
Goes-Accounts m l goes g = elim (goes l g) [
  | inl (done, (all, going)) ↦ (all, inl going)
  | inr (e, fails, acc) ↦ acc
]

started-Accounts : (f : Step) → Goes f → Keeps Accounts (transition injected starting >>= λ _. f)
unfolding transition assert_state
started-Accounts f goes l (all, runs) = elim (Bool-cases (same_state l.state injected)) [
  | inr other ↦ rw other (all, runs)
  | inl same ↦ rw same (Goes-Accounts f (record l { state = starting }) goes (all, refl))
]

fail-Goes : (e : LoaderError) → Goes (fail e)
fail-Goes e l (all, going) = inr (e, refl, (all, inl going))

pub start-Accounts : (api : Option ℕ) → Keeps Accounts (start api)
unfolding start
start-Accounts (some code) =
    started-Accounts (fail (from_outside code)) (fail-Goes (from_outside code))
start-Accounts none =
    started-Accounts
      ((λ loader. start_all loader.plugins loader) >>= λ _. transition starting started)
      (then_Goes (λ loader. start_all loader.plugins loader) (transition starting started)
        (λ l. start_all-Goes l.plugins l) to_started-Goes)

pub load-Accounts : (disabled : String → Bool) (pl : Plugin) → Keeps Accounts (load disabled pl)
unfolding load load_checked assert_state
load-Accounts disabled pl l acc = ground arith
