-- ===== src/AutoSys/Plugin.antt =====
-- autosys/autosys-plugin.c: the autonomous system as a plug-in of the simulator.
use shadow_tor_eavesdropping.Base.{ℕ, List, Bytes}
use shadow_tor_eavesdropping.Sys.{M}
use shadow_tor_eavesdropping.Glib.{HashTable}
use shadow_tor_eavesdropping.Resolve.{Strings}
use shadow_tor_eavesdropping.Host.Plugin.{Plugin, Registered, plugin_new, plugin_free, plugin_ready}
use shadow_tor_eavesdropping.AutoSys.State.{As}
use shadow_tor_eavesdropping.AutoSys.Startup.{as_node}

module _ (g : HashTable ℕ) (lib : Strings) where
  -- `asNodeInstance = as_new(argc, argv, shadowlib.log)`
  unfoldable pub asplugin_new : List Bytes → M (Plugin (As g)) (Unit {0})
  asplugin_new argv = plugin_new (as_node g lib) argv

  unfoldable pub asplugin_free : M (Plugin (As g)) (Unit {0})
  asplugin_free = plugin_free (as_node g lib)

  unfoldable pub asplugin_ready : M (Plugin (As g)) (Unit {0})
  asplugin_ready = plugin_ready (as_node g lib)

  unfoldable pub asplugin_init : Registered (As g)
  asplugin_init = record { new = asplugin_new; free = asplugin_free; ready = asplugin_ready }
