-- ===== src/Resolve.antt =====
-- What the programs do with host names and ports: `dnsQuery` of tropeaproxy/tproxy.c, of which the
-- other programs have copies, and `htons(atoi(port))`.
pub mod Laws
use shadow_tor_eavesdropping.Base.{
  ℕ, ◌-◌, ◌^◌, ltb, if◌then◌else◌, Bool, Option, none, some, List, [], ◌∷◌, Bytes, codes,
}
use shadow_tor_eavesdropping.Sys.{M, Fault, or_fault, minus_one, ◌>>=◌, pure, fault, resolve}
use shadow_tor_eavesdropping.SimpleTcp.Packets.{htons}

-- The functions of the C library on strings that start-up uses, on texts without their end:
-- whether the first bytes agree, but for their case or in full, whether two texts are the same, the
-- text up to the first colon and the one behind it, and the 32-bit pattern of a number.
pub record Strings : Type 0 where
  pub strncasecmp_equal : Bytes → Bytes → ℕ → Bool
  pub strncmp_equal : Bytes → Bytes → ℕ → Bool
  pub strcmp_equal : Bytes → Bytes → Bool
  pub strsep_colon : Bytes → Bytes × Option Bytes
  pub atoi : Bytes → ℕ

-- `htonl` of INADDR_NONE, INADDR_LOOPBACK and INADDR_ANY.
abbrev pub none_addr : ℕ
none_addr = 2 ^ 32 - 1

abbrev pub loopback_addr : ℕ
loopback_addr = 16777343

abbrev pub any_addr : ℕ
any_addr = 0

-- The last address of the list that `getaddrinfo` made; an empty list is a null pointer.
unfoldable pub last_addr : List ℕ → Option ℕ
last_addr [] = none
last_addr (a ∷ []) = some a
last_addr (a ∷ b ∷ rest) = last_addr (b ∷ rest)

-- `return -1`
abbrev pub or_minus_one : Option ℕ → ℕ
or_minus_one none = minus_one
or_minus_one (some addr) = addr

module _ {S : Type 0} (lib : Strings) where
  unfoldable pub last_found : List ℕ → M S (Option ℕ)
  last_found found = do addr ← or_fault Fault.null_pointer (last_addr found); pure (some addr)

  -- `getaddrinfo(...) >= 0`
  unfoldable pub look_up : Bytes → M S (Option ℕ)
  look_up hostname = do
    (res, found) ← resolve hostname
    if ltb res (2 ^ 31) then last_found found else pure none

  -- The tests for the names that stand for an address; `none` is a failed `getaddrinfo`.
  unfoldable pub find_addr : Bytes → M S (Option ℕ)
  find_addr hostname =
      if lib.strncasecmp_equal hostname (codes "none") 4
      then pure (some none_addr)
      else if lib.strncasecmp_equal hostname (codes "localhost") 9
      then pure (some loopback_addr)
      else if lib.strncasecmp_equal hostname (codes "any") 9
      then pure (some any_addr)
      else look_up hostname

  unfoldable pub dns_query : Bytes → M S ℕ
  dns_query hostname = do addr ← find_addr hostname; pure (or_minus_one addr)

  -- `htons(atoi(port))`, with the null pointer of a text without a colon.
  unfoldable pub port_of : Option Bytes → M S ℕ
  port_of none = fault Fault.null_pointer
  port_of (some text) = pure (htons (lib.atoi text))
