-- ===== src/Host/Plugin.antt =====
-- The plug-ins (simpletcp/simpletcp-plugin.c, analyzer/analyzer-plugin.c,
-- autosys/autosys-plugin.c): the three functions that `__shadow_plugin_init__` registers.
use shadow_tor_eavesdropping.Base.{if◌then◌else◌, List, Bytes}
use shadow_tor_eavesdropping.Sys.{M, Fault, ◌>>=◌, ◌>>◌, get, put, fault}
use shadow_tor_eavesdropping.Sys.Simulation.{along}
use shadow_tor_eavesdropping.Host.{Node}

-- The pointer `...NodeInstance`: null, to an instance, or to one that was freed.
pub data Instance : Type 0 where
  absent : Instance
  present : Instance
  released : Instance

pub record Plugin (S : Type 0) : Type 0 where
  pub instance_of : Instance
  pub memory : S

-- The three functions with which the simulator makes a node, frees it, and notifies it of events.
pub record Registered (S : Type 0) : Type 0 where
  pub new : List Bytes → M (Plugin S) (Unit {0})
  pub free : M (Plugin S) (Unit {0})
  pub ready : M (Plugin S) (Unit {0})

-- A function of the program, on the memory behind the pointer.
abbrev pub inside : {S A : Type 0} → M S A → M (Plugin S) A
inside m k p t = along (λ s. record p { memory = s }) (m k p.memory t)

module _ {S : Type 0} (node : Node S) where
  -- A call with the pointer: a null pointer fails the assertion that each of them begins with, and
  -- memory that was freed must not be used.
  unfoldable pub with_instance : M S (Unit {0}) → Instance → M (Plugin S) (Unit {0})
  with_instance m absent = fault Fault.assertion
  with_instance m present = inside m
  with_instance m released = fault Fault.bad_read

  -- `NodeInstance = ..._new(argc, argv, ...)`
  unfoldable pub plugin_new : List Bytes → M (Plugin S) (Unit {0})
  plugin_new argv = do
    made ← inside (node.create argv)
    p ← get
    put (record p { instance_of = if made then present else absent })

  -- The pointer is kept.
  unfoldable pub plugin_free : M (Plugin S) (Unit {0})
  plugin_free = do
    p ← get
    with_instance node.release p.instance_of
    q ← get
    put (record q { instance_of = released })

  unfoldable pub plugin_ready : M (Plugin S) (Unit {0})
  plugin_ready = do p ← get; with_instance node.ready p.instance_of

  -- What `__shadow_plugin_init__` registers with the simulator, when a plug-in is loaded.
  unfoldable pub plugin_init : Registered S
  plugin_init = record { new = plugin_new; free = plugin_free; ready = plugin_ready }
