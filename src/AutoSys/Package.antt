-- ===== src/AutoSys/Package.antt =====
-- The trace package of autosys/autosys.c (`buildTracePackage`, `udpTrace`).
use shadow_tor_eavesdropping.Base.{ℕ, ◌+◌, ◌/=◌, if◌then◌else◌, [], ◌∷◌, ◌++◌, take, Bytes}
use shadow_tor_eavesdropping.Sys.{
  M, Call, Fault, ◌>>=◌, get, perform, allocation, host_name, time_of_day,
}
use shadow_tor_eavesdropping.Glib.{HashTable}
use shadow_tor_eavesdropping.AutoSys.State.{As}
use shadow_tor_eavesdropping.TProxy.Buffers.{write_at, strlen}
use shadow_tor_eavesdropping.Sys.{or_fault}
use shadow_tor_eavesdropping.Format.{timestamp}

-- `(h->serverMode? 's':'c')`
unfoldable pub as_side : ℕ → ℕ
as_side server_mode = if server_mode /= 0 then b's' else b'c'

module _ (g : HashTable ℕ) where
  unfoldable pub as_build_trace_package : M (As g) Bytes
  unfolding as_side
  as_build_trace_package = do
    h ← get
    block ← allocation 512
    fresh ← or_fault Fault.null_pointer block
    tagged ← or_fault Fault.bad_write (write_at 0 (as_side h.server_mode ∷ b';' ∷ []) fresh)
    name ← host_name 256
    named ← or_fault Fault.bad_write (write_at 2 name tagged)
    len ← or_fault Fault.unterminated (strlen named)
    closed ← or_fault Fault.bad_write (write_at len (b';' ∷ []) named)
    tv ← time_of_day
    or_fault Fault.bad_write (write_at (len + 1) (timestamp tv ++ (0 ∷ [])) closed)

  unfoldable pub as_udp_trace : M (As g) (Unit {0})
  unfolding as_build_trace_package
  as_udp_trace = do
    tracepck ← as_build_trace_package
    len ← or_fault Fault.unterminated (strlen tracepck)
    h ← get
    perform (Call.sendto h.tracer_socket (take len tracepck) h.tracer_addr h.tracer_port)
