-- ===== src/TProxy/Relay.antt =====
-- How a message crosses the proxy: `handleRead` at one end, `handleWrite` at the other
-- (tropeaproxy/tproxy.c).
use shadow_tor_eavesdropping.Base.{
  ℕ, suc, ◌/=◌, if◌then◌else◌, Option, none, some, List, [], ◌∷◌, ◌++◌, pos, length, Bytes, ◌≡◌,
  ◌≢◌, arith, ◌∙◌, Option-cases, inl, inr, take-append_length, take-length,
}
use shadow_tor_eavesdropping.Sys.{Kernel, Trace, Call, EpollOp, ok, ◌>>=◌, epollin, epollall}
use shadow_tor_eavesdropping.Glib.{HashTable}
use shadow_tor_eavesdropping.TProxy.Buffers.{live, freed, free, memset_zero, payload}
use shadow_tor_eavesdropping.TProxy.State.{Partner, TProxy, update, update-update, update_same}
use shadow_tor_eavesdropping.TProxy.Epoll.{set_epoll}
use shadow_tor_eavesdropping.TProxy.Handlers.{page_size, handle_read, handle_write, shrink}

-- The messages handed to the kernel, the last one first.
unfoldable pub sends : Trace → List (ℕ × Bytes)
sends [] = []
sends (Call.send sd bs ∷ t) = (sd, bs) ∷ sends t
sends (_ ∷ t) = sends t

-- Allocations succeed.
abbrev pub HasMemory : Kernel → Type 0
HasMemory k = (t : Trace) (n : ℕ) → k.memory t n ≢ none

-- The trace behind `setEPOLL`, and behind `handleRead` of a message of `n` bytes.
abbrev pub epoll_set : Kernel → ℕ → ℕ → ℕ → Trace → Trace
epoll_set k ed sd events t =
    let t' = Call.epoll_ctl EpollOp.ctl_add ed sd events ∷ t in
    if k.returns t (Call.epoll_ctl EpollOp.ctl_add ed sd events) /= 0
    then Call.epoll_ctl EpollOp.ctl_mod ed sd events ∷ t'
    else t'

pub set_epoll_lem :
    {S : Type 0} (k : Kernel) (s : S) (t : Trace) (ed sd events : ℕ)
    → set_epoll ed sd events k s t ≡ ok 0 s (epoll_set k ed sd events t)
unfolding set_epoll
set_epoll_lem k s t ed sd events = ground arith

pub sends-epoll_set :
    (k : Kernel) (ed sd events : ℕ) (t : Trace) → sends (epoll_set k ed sd events t) ≡ sends t
unfolding sends
sends-epoll_set k ed sd events t = ground arith

abbrev pub read_trace : Kernel → ℕ → ℕ → ℕ → ℕ → Trace → Trace
read_trace k ined sd peer n t =
    Call.allocate n
    ∷ Call.epoll_ctl EpollOp.ctl_del ined sd 0
    ∷ epoll_set k ined peer epollall (Call.recv sd page_size ∷ Call.allocate page_size ∷ t)

abbrev pub write_trace : Kernel → ℕ → ℕ → ℕ → Bytes → Trace → Trace
write_trace k ined sd outsd bs t =
    epoll_set k ined outsd epollin (epoll_set k ined sd epollin (Call.send sd bs ∷ t))

-- A partner whose buffer holds a message, and one that has none.
abbrev pub holding : ℕ → Bytes → Partner
holding sd bs = record { sd = sd; bufsize = pos (length bs); buf = live bs }

abbrev padding : ℕ → ℕ → Bytes → Partner
padding sd n bs = record { sd = sd; bufsize = pos n; buf = live bs }

abbrev pub spent : ℕ → Bytes → Partner
spent sd bs = record { sd = sd; bufsize = pos 0; buf = freed bs }

payload_full :
    (b : ℕ) (bs : Bytes) → payload (live (b ∷ bs)) (pos (suc (length bs))) ≡ some (b ∷ bs)
unfolding payload
payload_full b bs = ground (arith, take-length bs)

module _ (g : HashTable ℕ) where
  shrink_lem :
      (k : Kernel) (h : TProxy g) (t : Trace) (p sd b : ℕ) (bs zs : Bytes)
      → HasMemory k
      → shrink g p k
          (record h {
            partners = update h.partners p (padding sd (suc (length bs)) (b ∷ (bs ++ zs)));
          })
          t
        ≡ ok
            (pos 0)
            (record h { partners = update h.partners p (holding sd (b ∷ bs)) })
            (Call.allocate (suc (length bs)) ∷ t)
  unfolding shrink
  shrink_lem k h t p sd b bs zs mem = elim (Option-cases (k.memory t (suc (length bs)))) [
    | inl e ↦ absurd (mem _ _ e)
    | inr (m, e) ↦ simp (update_same, e, shrink, take-append_length, update-update)
  ]

  pub handle_read_lem :
      (k : Kernel) (h : TProxy g) (t : Trace) (sd p b : ℕ) (bs : Bytes)
      → HasMemory k
      → k.receives (Call.allocate page_size ∷ t) (Call.recv sd page_size) ≡ some (b ∷ bs)
      → handle_read g sd p k h t
        ≡ ok
            (pos 0)
            (record h { partners = update h.partners p (holding (h.partners p).sd (b ∷ bs)) })
            (read_trace k h.ined sd (h.partners p).sd (suc (length bs)) t)
  unfolding handle_read
  handle_read_lem k h t sd p b bs mem got = elim (Option-cases (k.memory t page_size)) [
    | inl e ↦ absurd (mem _ _ e)
    | inr (m, e) ↦
        simp (e, set_epoll_lem, got, ◌>>=◌) (shrink_lem k h _ p (h.partners p).sd b bs _ mem)
  ]

  pub handle_write_lem :
      (k : Kernel) (h : TProxy g) (t : Trace) (sd out me peer b : ℕ) (bs : Bytes)
      → h.partners me ≡ holding peer (b ∷ bs)
      → handle_write g sd out me k h t
        ≡ ok
            (pos 0)
            (record h { partners = update h.partners me (spent peer (b ∷ bs)) })
            (write_trace k h.ined sd out (b ∷ bs) t)
  unfolding handle_write free memset_zero
  handle_write_lem k h t sd out me peer b bs held = simp (held, payload_full, ◌>>=◌, set_epoll_lem)

-- What came back from each `recv`, with its descriptor, the last one first.
unfoldable pub received : Option Bytes → Bytes
received none = []
received (some bs) = bs

unfoldable pub receipts : Kernel → Trace → List (ℕ × Bytes)
receipts k [] = []
receipts k (Call.recv sd n ∷ t) = (sd, received (k.receives t (Call.recv sd n))) ∷ receipts k t
receipts k (_ ∷ t) = receipts k t

pub receipts-epoll_set :
    (k : Kernel) (ed sd events : ℕ) (t : Trace)
    → receipts k (epoll_set k ed sd events t) ≡ receipts k t
unfolding receipts
receipts-epoll_set k ed sd events t = ground arith

pub sends-read_trace :
    (k : Kernel) (ined sd peer n : ℕ) (t : Trace) → sends (read_trace k ined sd peer n t) ≡ sends t
unfolding sends
sends-read_trace k ined sd peer n t = sends-epoll_set k ined peer epollall _

pub receipts-read_trace :
    (k : Kernel) (ined sd peer n : ℕ) (bs : Bytes) (t : Trace)
    → k.receives (Call.allocate page_size ∷ t) (Call.recv sd page_size) ≡ some bs
    → receipts k (read_trace k ined sd peer n t) ≡ (sd, bs) ∷ receipts k t
unfolding receipts received
receipts-read_trace k ined sd peer n bs t got = receipts-epoll_set k ined peer epollall _ ∙ simp got

pub sends-write_trace :
    (k : Kernel) (ined sd out : ℕ) (bs : Bytes) (t : Trace)
    → sends (write_trace k ined sd out bs t) ≡ (sd, bs) ∷ sends t
unfolding sends
sends-write_trace k ined sd out bs t = simp sends-epoll_set

pub receipts-write_trace :
    (k : Kernel) (ined sd out : ℕ) (bs : Bytes) (t : Trace)
    → receipts k (write_trace k ined sd out bs t) ≡ receipts k t
unfolding receipts
receipts-write_trace k ined sd out bs t = simp receipts-epoll_set
