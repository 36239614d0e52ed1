-- ===== src/Logger/AnalyzerPlugin.antt =====
-- analyzer/analyzer-plugin.c: the analyzer as a plug-in of the simulator.
use shadow_tor_eavesdropping.Base.{List, Bytes}
use shadow_tor_eavesdropping.Sys.{M}
use shadow_tor_eavesdropping.Resolve.{Strings}
use shadow_tor_eavesdropping.Host.Plugin.{Plugin, Registered, plugin_new, plugin_free, plugin_ready}
use shadow_tor_eavesdropping.Logger.Analyzer.{Analyzer}
use shadow_tor_eavesdropping.Logger.AnalyzerStart.{analyzer_node}

module _ (lib : Strings) where
  -- `analyzerNodeInstance = analyzer_new(argc, argv, shadowlib.log)`
  unfoldable pub analyzerplugin_new : List Bytes → M (Plugin Analyzer) (Unit {0})
  analyzerplugin_new argv = plugin_new (analyzer_node lib) argv

  unfoldable pub analyzerplugin_free : M (Plugin Analyzer) (Unit {0})
  analyzerplugin_free = plugin_free (analyzer_node lib)

  unfoldable pub analyzerplugin_ready : M (Plugin Analyzer) (Unit {0})
  analyzerplugin_ready = plugin_ready (analyzer_node lib)

  unfoldable pub analyzerplugin_init : Registered Analyzer
  analyzerplugin_init = record {
    new = analyzerplugin_new;
    free = analyzerplugin_free;
    ready = analyzerplugin_ready;
  }
