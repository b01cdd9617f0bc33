-- ===== src/Plugins/Starts.antt =====
-- Start of plugin/loader/loader.go where no plugin fails.
use kubo.Common.{
  ℕ, ◌≡◌, refl, sym, ap, Option, none, some, List, [], ◌∷◌, ◌++◌, ok, All, append_assoc, append-nil,
}
use kubo.Plugins.Loader.{
  injected, starting, started, Plugin, PluginLoader, assert_state, transition, start_as, start_all,
  start,
}

-- An interface that is absent or answers without an error.
abbrev pub Answers : Option (Option ℕ) → Type 0
Answers none = Unit {0}
Answers (some none) = Unit {0}
Answers (some (some code)) = ⊥

-- The plugin, if it has the interface.
abbrev pub once : Plugin → Option (Option ℕ) → List Plugin
once pl none = []
once pl (some answer) = pl ∷ []

-- The plugins that Start starts: each of them once for each daemon interface.
abbrev pub daemons : List Plugin → List Plugin
daemons [] = []
daemons (pl ∷ plugins) = once pl pl.daemon ++ (once pl pl.daemon_internal ++ daemons plugins)

-- The loader with more plugins that run.
abbrev more : PluginLoader → List Plugin → PluginLoader
more l ps = record l { running = l.running ++ ps; opened = l.opened ++ ps }

more-nil : (l : PluginLoader) → l ≡ more l []
more-nil l = sym (rw (append-nil l.running, append-nil l.opened))

more-append : (l : PluginLoader) (ps qs : List Plugin) → more (more l ps) qs ≡ more l (ps ++ qs)
more-append l ps qs = rw (append_assoc l.running ps qs, append_assoc l.opened ps qs)

start_as-more :
    (pl : Plugin) (answer : Option (Option ℕ)) (l : PluginLoader)
    → Answers answer
    → start_as pl answer l ≡ (ok tt, more l (once pl answer))
unfolding start_as
start_as-more pl none l a = ap (λ (t : PluginLoader). (ok tt, t)) (more-nil l)
start_as-more pl (some none) l a = refl
start_as-more pl (some (some code)) l a = absurd a

start_all-more :
    (plugins : List Plugin) (l : PluginLoader)
    → All (λ pl. Answers pl.daemon × Answers pl.daemon_internal) plugins
    → start_all plugins l ≡ (ok tt, more l (daemons plugins))
unfolding start_all
start_all-more [] l a = ap (λ (t : PluginLoader). (ok tt, t)) (more-nil l)
start_all-more (pl ∷ plugins) l ((first, second), rest) =
    let l1 = more l (once pl pl.daemon) in
    let l2 = more l1 (once pl pl.daemon_internal) in
    rw (
      start_as-more pl pl.daemon l first,
      start_as-more pl pl.daemon_internal l1 second,
      start_all-more plugins l2 rest,
      more-append l1 (once pl pl.daemon_internal) (daemons plugins),
      more-append l (once pl pl.daemon) (once pl pl.daemon_internal ++ daemons plugins),
    )

-- For an injected loader, if NewCoreAPI succeeds and no Start of a daemon fails, Start succeeds, and
-- has started each daemon once for each of its interfaces, in the order of the plugins.
pub start_succeeds :
    (l : PluginLoader)
    → l.state ≡ injected
    → All (λ pl. Answers pl.daemon × Answers pl.daemon_internal) l.plugins
    → start none l ≡ (
      ok tt,
      record l {
        state = started;
        running = l.running ++ daemons l.plugins;
        opened = l.opened ++ daemons l.plugins;
      },
    )
unfolding start transition assert_state
start_succeeds l is all =
    let l1 : PluginLoader = record l { state = starting } in
    rw (is, start_all-more l.plugins l1 all)
