-- ===== src/SimpleTcp/Loop.antt =====
-- The entry points of simpletcp/simpletcp.c.
use shadow_tor_eavesdropping.Base.{ℕ, ◌==◌, ◌/=◌, if◌then◌else◌, none, some, List, [], ◌∷◌}
use shadow_tor_eavesdropping.Sys.{M, Call, Timeval, ◌>>=◌, ◌>>◌, skip, get, perform, poll}
use shadow_tor_eavesdropping.Glib.{HashTable}
use shadow_tor_eavesdropping.SimpleTcp.State.{SimpleTcp}
use shadow_tor_eavesdropping.SimpleTcp.Client.{activate_client}
use shadow_tor_eavesdropping.SimpleTcp.Starting.{Later}
use shadow_tor_eavesdropping.SimpleTcp.Server.{activate_server}

module _ (g : HashTable Timeval) (later : Later g) where
  -- One step of the loop over the descriptors that are ready.
  unfoldable pub dispatch : ℕ → ℕ → M (SimpleTcp g) (Unit {0})
  dispatch d e = do
    h ← get
    if d == h.client_sd then activate_client g later d e else activate_server g d e

  unfoldable pub dispatch_all : List (ℕ × ℕ) → M (SimpleTcp g) (Unit {0})
  dispatch_all [] = skip
  dispatch_all ((d, e) ∷ rest) = do dispatch d e; dispatch_all rest

  unfoldable pub simpletcp_ready : M (SimpleTcp g) (Unit {0})
  simpletcp_ready = do
    h ← get
    epevs ← poll (Call.epoll_wait h.ed 10)
    elim epevs [ none ↦ skip | some ready ↦ dispatch_all ready ]

module _ (g : HashTable Timeval) where
  -- `free` of the state itself ends its life and has no other effect.
  unfoldable pub simpletcp_free : M (SimpleTcp g) (Unit {0})
  simpletcp_free = do
    h ← get
    if h.client_sd /= 0 then perform (Call.close h.client_sd) else skip
    if h.ed /= 0 then perform (Call.close h.ed) else skip

unfoldable pub simpletcp_get_epoll_descriptor : {g : HashTable Timeval} → SimpleTcp g → ℕ
simpletcp_get_epoll_descriptor h = h.ed

unfoldable pub simpletcp_is_done : {g : HashTable Timeval} → SimpleTcp g → ℕ
simpletcp_is_done h = h.is_done
