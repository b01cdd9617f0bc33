-- ===== src/Plugins/Examples.antt =====
-- Plugins of which two are daemons, the first with a Close that fails.
use kubo.Common.{◌≡◌, refl, Bool, true, false, none, some, List, [], ◌∷◌, ok, String}
use kubo.Plugins.Loader.{
  injected, started, failed, Plugin, PluginLoader, load, load_checked, assert_state, transition,
  initialize, init_all, or_fail, inject, inject_all, inject_plugin, inject_as, start, start_all,
  start_as, close, close_running, close_each,
}
use kubo.Plugins.Life.{is_idle, closers}
use kubo.Plugins.Calls.{
  Call, call_load, call_initialize, call_inject, call_start, call_close, new_loader, run_calls,
  idle_released,
}
use kubo.Plugins.Names.{Distinct, run_calls-Distinct}
use kubo.Plugins.Starts.{start_succeeds}

abbrev server : Plugin
server = record {
  name = "server";
  version = "1";
  init = none;
  ipld = none;
  tracer = none;
  datastore = none;
  fx = true;
  daemon = some none;
  daemon_internal = none;
  closer = some (some 7);
}

abbrev codec : Plugin
codec = record {
  name = "codec";
  version = "2";
  init = none;
  ipld = some none;
  tracer = none;
  datastore = none;
  fx = false;
  daemon = none;
  daemon_internal = none;
  closer = none;
}

abbrev gate : Plugin
gate = record {
  name = "gate";
  version = "1";
  init = none;
  ipld = none;
  tracer = none;
  datastore = none;
  fx = false;
  daemon = none;
  daemon_internal = some none;
  closer = some none;
}

abbrev enabled : String → Bool
enabled name = false

abbrev calls : List Call
calls =
    call_load server
    ∷ call_load codec
    ∷ call_load gate
    ∷ call_load server
    ∷ call_initialize
    ∷ call_inject
    ∷ call_start none
    ∷ call_close
    ∷ []

ends_failed : (run_calls enabled calls new_loader).state ≡ failed
unfolding load load_checked assert_state transition initialize init_all or_fail inject inject_all
    inject_plugin inject_as start start_all start_as close close_running close_each
ends_failed = refl

all_released : (run_calls enabled calls new_loader).released ≡ server ∷ gate ∷ []
unfolding load load_checked assert_state transition initialize init_all or_fail inject inject_all
    inject_plugin inject_as start start_all start_as close close_running close_each
all_released = refl

is_idle_at_end : is_idle (run_calls enabled calls new_loader).state ≡ true
is_idle_at_end = rw ends_failed

idle_released_example :
    closers (run_calls enabled calls new_loader).opened
    ≡ (run_calls enabled calls new_loader).released
idle_released_example = idle_released enabled calls is_idle_at_end

run_calls-Distinct_example : Distinct (run_calls enabled calls new_loader).plugins
run_calls-Distinct_example = run_calls-Distinct enabled calls

abbrev ready : PluginLoader
ready = record {
  state = injected;
  plugins = server ∷ codec ∷ [];
  running = [];
  opened = [];
  released = [];
}

start_succeeds_example :
    start none ready
    ≡ (ok tt, record ready { state = started; running = server ∷ []; opened = server ∷ [] })
start_succeeds_example = start_succeeds ready refl ((tt, tt), ((tt, tt), tt))
