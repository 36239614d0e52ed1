-- ===== src/SimpleTcp/Packets.antt =====
-- The packets of simpletcp/simpletcp.c, byte by byte, on a little-endian host.
use shadow_tor_eavesdropping.Base.{
  ℕ, zero, suc, ◌+◌, ◌*◌, ◌/◌, ◌%◌, Option, none, some, [], ◌∷◌, ◌++◌, Bytes, get_or, drop, length,
}

-- The first `n` bytes of an integer in memory, as `memcpy` takes them.
unfoldable pub le_bytes : ℕ → ℕ → Bytes
le_bytes zero v = []
le_bytes (suc n) v = v % 256 ∷ le_bytes n (v / 256)

-- `htons` on a little-endian host.
unfoldable pub htons : ℕ → ℕ
htons p = (p % 256) * 256 + (p / 256) % 256

-- The greeting: version 5, one method, no authentication.
unfoldable pub negotation_packet : Bytes
negotation_packet = 5 ∷ 1 ∷ 0 ∷ []

-- The request: version 5, CONNECT, reserved, IPv4, the address and the port.
unfoldable pub request_packet : ℕ → ℕ → Bytes
unfolding le_bytes
request_packet ip port = 5 ∷ 1 ∷ 0 ∷ 1 ∷ (le_bytes 4 ip ++ le_bytes 2 port)

-- A buffer after `read` has written to its front.
unfoldable pub overlaid : Option Bytes → Bytes → Bytes
overlaid none packet = packet
overlaid (some bs) packet = bs ++ drop (length bs) packet

-- The second byte of an answer.
abbrev pub reply : Option Bytes → Bytes → ℕ
reply got packet = get_or (overlaid got packet) 1 0
