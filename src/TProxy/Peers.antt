-- ===== src/TProxy/Peers.antt =====
-- What the proxy of tropeaproxy/tproxy.c is, apart from its memory: which descriptor is connected to
-- which.
use shadow_tor_eavesdropping.Base.{ℕ, ◌==◌, if◌then◌else◌, Option, none, some}
use shadow_tor_eavesdropping.Glib.{HashTable}
use shadow_tor_eavesdropping.TProxy.State.{TProxy}
use mathlib.Core.Option

-- The other end of each descriptor that has one.
abbrev pub Peers : Type 0
Peers = ℕ → Option ℕ

-- A new connection from `a` to `b`, and the end of one that forgets `a`.
unfoldable pub joined : ℕ → ℕ → Peers → Peers
joined a b m j = if b == j then some a else if a == j then some b else m j

unfoldable pub without : ℕ → Peers → Peers
without a m j = if a == j then none else m j

-- The proxy opens connections between descriptors that are `N`, and forgets descriptors that are
-- `P`, one after another.
pub data Steps (N P : ℕ → Type 0) (m : Peers) : Peers → Type 0 where
  start : Steps N P m m
  opened : {m' : Peers} (a b : ℕ) → N a → N b → Steps N P m m' → Steps N P m (joined a b m')
  closed : {m' : Peers} (a : ℕ) → P a → Steps N P m m' → Steps N P m (without a m')

-- The abstract view of a state.
unfoldable pub peers : {g : HashTable ℕ} → TProxy g → Peers
peers {g} h j = Option.map (λ p. (h.partners p).sd) (g.lookup j h.hashmap)
