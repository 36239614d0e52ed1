-- ===== src/TProxy/Package.antt =====
-- The trace package of tropeaproxy/tproxy.c (`buildTracePackage`, `udpTrace`): the line that
-- tells the logger which side saw a connection, on which host, and when.
use shadow_tor_eavesdropping.Base.{ℕ, ◌+◌, ◌/=◌, if◌then◌else◌, [], ◌∷◌, ◌++◌, Bytes, take}
use shadow_tor_eavesdropping.Sys.{
  or_fault, M, Call, Fault, ◌>>=◌, get, perform, host_name, time_of_day, allocation,
}
use shadow_tor_eavesdropping.Glib.{HashTable}
use shadow_tor_eavesdropping.TProxy.Buffers.{write_at, strlen}
use shadow_tor_eavesdropping.Format.{timestamp}
use shadow_tor_eavesdropping.TProxy.State.{TProxy}

-- `(h->serverMode? 's':'c')`
unfoldable pub side : ℕ → ℕ
side server_mode = if server_mode /= 0 then b's' else b'c'

module _ (g : HashTable ℕ) where
  unfoldable pub build_trace_package : M (TProxy g) Bytes
  unfolding side
  build_trace_package = do
    h ← get
    block ← allocation 512
    fresh ← or_fault Fault.null_pointer block
    tagged ← or_fault Fault.bad_write (write_at 0 (side h.server_mode ∷ b';' ∷ []) fresh)
    name ← host_name 256
    named ← or_fault Fault.bad_write (write_at 2 name tagged)
    len ← or_fault Fault.unterminated (strlen named)
    closed ← or_fault Fault.bad_write (write_at len (b';' ∷ []) named)
    tv ← time_of_day
    or_fault Fault.bad_write (write_at (len + 1) (timestamp tv ++ (0 ∷ [])) closed)

  unfoldable pub udp_trace : M (TProxy g) (Unit {0})
  unfolding build_trace_package
  udp_trace = do
    tracepck ← build_trace_package
    len ← or_fault Fault.unterminated (strlen tracepck)
    h ← get
    perform (Call.sendto h.tracer_socket (take len tracepck) h.tracer_addr h.tracer_port)
