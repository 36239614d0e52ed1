-- ===== src/Format.antt =====
-- The texts that the plug-ins build: the conversions `%ld` and `%06ld` of `sprintf`, on numbers
-- that are not negative, and the timestamps made of them (tropeaproxy/tproxy.c,
-- simpletcp/simpletcp.c).
pub mod Stamp
use shadow_tor_eavesdropping.Sys.{Timeval}
use shadow_tor_eavesdropping.Base.{
  codes, ℕ, zero, suc, ◌+◌, ◌-◌, ◌/◌, ◌%◌, ltb, if◌then◌else◌, [], ◌∷◌, ◌++◌, Bytes, length,
  replicate,
}

-- The digits of `n` in front of `out`. A number has fewer digits than its successor counts.
unfoldable pub emit : ℕ → ℕ → Bytes → Bytes
emit zero n out = out
emit (suc fuel) n out =
    let more = emit fuel (n / 10) ((b'0' + n % 10) ∷ out) in
    if ltb n 10 then (b'0' + n) ∷ out else more

-- `%ld`
unfoldable pub decimal : ℕ → Bytes
unfolding emit
decimal n = emit (suc n) n []

-- `%0*ld`
unfoldable pub padded : ℕ → ℕ → Bytes
unfolding decimal
padded width n = replicate (width - length (decimal n)) b'0' ++ decimal n

-- `"%ld%06ld\n"` on a time of day.
unfoldable pub timestamp : Timeval → Bytes
timestamp tv = decimal tv.tv_sec ++ (padded 6 tv.tv_usec ++ codes "\n")
