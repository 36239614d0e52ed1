-- ===== src/AutoSys/Hosted.antt =====
-- The autonomous system as a plug-in of the simulator (autosys/autosys-plugin.c).
use shadow_tor_eavesdropping.Base.{ℕ, List, Bytes, false, refl}
use shadow_tor_eavesdropping.Sys.{Kernel, Trace, pure}
use shadow_tor_eavesdropping.Sys.Ends.{Ends}
use shadow_tor_eavesdropping.Glib.{HashTable}
use shadow_tor_eavesdropping.Resolve.{Strings}
use shadow_tor_eavesdropping.Host.Plugin.{Plugin, plugin_init}
use shadow_tor_eavesdropping.Host.Turns.{Keeps}
use shadow_tor_eavesdropping.Host.Notices.{IfPresent, OrAssertion, noticed, noticed-IfPresent}
use shadow_tor_eavesdropping.Host.Simulated.{Keeps-along, IfMade-along}
use shadow_tor_eavesdropping.TProxy.Invariant.{Inv}
use shadow_tor_eavesdropping.TProxy.Safety.Transfers.{Reads}
use shadow_tor_eavesdropping.TProxy.Startup.{tproxy_node}
use shadow_tor_eavesdropping.TProxy.Lifetime.{tproxy_node-Keeps, tproxy_new-IfMade}
use shadow_tor_eavesdropping.AutoSys.State.{As}
use shadow_tor_eavesdropping.AutoSys.Startup.{as_node}
use shadow_tor_eavesdropping.AutoSys.Plugin.{
  asplugin_new, asplugin_free, asplugin_ready, asplugin_init,
}
use shadow_tor_eavesdropping.AutoSys.Same.{as_tproxy}
use shadow_tor_eavesdropping.AutoSys.SameStart.{as_node-Alike}

module _ (g : HashTable ℕ) (lib : Strings) where
  -- The invariant of the transparent proxy, for the state of the autonomous system.
  abbrev pub AsInv : As g → Trace → Type 0
  AsInv a t = Inv g (as_tproxy g a)

  as_node-Keeps : (k : Kernel) → Keeps k (as_node g lib) (pure false) AsInv Reads
  as_node-Keeps k =
      Keeps-along (as_tproxy g) (as_node g lib) (tproxy_node g lib) (as_node-Alike g lib) 1
        (pure false) (pure false) (λ k' h t. refl) k (λ h _. Inv g h) Reads
        (tproxy_node-Keeps g lib k)

  -- For all arguments, every kernel and whatever stood in memory before: after the start of an
  -- autonomous system by the simulator and any number of notices, the invariant of the transparent
  -- proxy holds of the node, if it was made; and a fault before that is a failed assertion, or not
  -- a read from a message that is not there in full.
  pub as_noticed-IfPresent :
      (argv : List Bytes) (n : ℕ) (k : Kernel) (p : Plugin (As g)) (t : Trace)
      → Ends
          (λ _ q. IfPresent AsInv q.instance_of q.memory)
          (OrAssertion Reads)
          (noticed (asplugin_init g lib) argv n k p t)
  unfolding asplugin_init asplugin_new asplugin_free asplugin_ready plugin_init
  as_noticed-IfPresent argv n k p t =
      noticed-IfPresent (as_node g lib) (pure false) AsInv Reads k (as_node-Keeps k) argv n p t (
        IfMade-along (as_tproxy g) (as_node g lib) (tproxy_node g lib) (as_node-Alike g lib) 1
          (pure false) (pure false) (λ k' h t'. refl) k (λ h _. Inv g h) Reads argv p.memory t
          (tproxy_new-IfMade g lib argv k (as_tproxy g p.memory) t))
