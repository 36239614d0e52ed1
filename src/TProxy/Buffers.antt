-- ===== src/TProxy/Buffers.antt =====
-- Blocks of memory, as tropeaproxy/tproxy.c uses them: the message that waits in `partner->buf`,
-- and the block in which a trace package is written.
use shadow_tor_eavesdropping.Base.{
  ℕ, zero, suc, ◌==◌, if◌then◌else◌, leb, Option, none, some, [], ◌∷◌, ◌++◌, Bytes, ℤ, pos, negsuc,
  length, take, drop, replicate,
}
use mathlib.Core.Option

-- A pointer to a block: null, to a block in use, or to one that was given to `free`, with what the
-- block holds.
pub data Buffer : Type 0 where
  null : Buffer
  live : Bytes → Buffer
  freed : Bytes → Buffer

-- `free(p)`; `none` is a second `free` of the block.
unfoldable pub free : Buffer → Option Buffer
free null = some null
free (live bs) = some (freed bs)
free (freed bs) = none

-- `memset(p, 0, n)` over a block, and over the block of a pointer.
unfoldable pub zeroed : ℕ → Bytes → Bytes
zeroed n bs = replicate n 0 ++ drop n bs

unfoldable pub memset_zero : ℕ → Buffer → Buffer
unfolding zeroed
memset_zero n null = null
memset_zero n (live bs) = live (zeroed n bs)
memset_zero n (freed bs) = freed (zeroed n bs)

-- The `size` bytes that `send(sd, p, size, 0)` takes from a block; `none` if the block is shorter,
-- or no longer in use.
unfoldable pub payload : Buffer → ℤ → Option Bytes
payload b (negsuc n) = none
payload b (pos zero) = some []
payload null (pos (suc n)) = none
payload (freed bs) (pos (suc n)) = none
payload (live bs) (pos (suc n)) = if leb (suc n) (length bs) then some (take (suc n) bs) else none

-- Bytes stored from `p + i` on; `none` if they do not fit into the block.
unfoldable pub write_at : ℕ → Bytes → Bytes → Option Bytes
write_at zero [] block = some block
write_at zero (b ∷ bs) [] = none
write_at zero (b ∷ bs) (x ∷ block) = Option.map (λ r. b ∷ r) (write_at zero bs block)
write_at (suc i) bs [] = none
write_at (suc i) bs (x ∷ block) = Option.map (λ r. x ∷ r) (write_at i bs block)

-- `strlen`; `none` if the block has no terminator.
unfoldable pub strlen : Bytes → Option ℕ
strlen [] = none
strlen (c ∷ cs) = let rest = Option.map (λ n. suc n) (strlen cs) in if c == 0 then some 0 else rest
