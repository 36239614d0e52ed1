-- ===== src/TProxy/Watching.antt =====
-- Which events tropeaproxy/tproxy.c waits for, with epoll as it is documented.
use native.Mathlib.Decide.{ℕ_discrete}
use shadow_tor_eavesdropping.Base.{
  ℕ, ◌==◌, ◌/=◌, ◌&&◌, not, if◌then◌else◌, Bool, true, false, Option, none, some, [], ◌∷◌, ◌≡◌, ◌≢◌,
  refl, sym, arith, Option-cases, inl, inr, pos, Bytes,
}
use shadow_tor_eavesdropping.Sys.{Kernel, Trace, Call, EpollOp, epollin, epollall, ◌>>=◌, pure}
use shadow_tor_eavesdropping.Sys.Ends.{AnyFault, Ends}
use shadow_tor_eavesdropping.Glib.{HashTable}
use shadow_tor_eavesdropping.TProxy.Relay.{epoll_set, set_epoll_lem}
use shadow_tor_eavesdropping.TProxy.State.{TProxy}
use shadow_tor_eavesdropping.TProxy.Buffers.{free, payload, memset_zero}
use shadow_tor_eavesdropping.TProxy.Handlers.{
  handle_read, handle_write, shrink, page_size, is_null, size,
}

-- What a request makes of the events of its descriptor.
abbrev pub told : EpollOp → ℕ → Option ℕ → Option ℕ
told EpollOp.ctl_add events none = some events
told EpollOp.ctl_add events (some before) = some before
told EpollOp.ctl_mod events none = none
told EpollOp.ctl_mod events (some before) = some events
told EpollOp.ctl_del events before = none

-- The events that the epoll descriptor `ed` watches a descriptor for, after the calls of a trace:
-- EPOLL_CTL_ADD adds a descriptor that is not there, EPOLL_CTL_MOD changes one that is, and
-- EPOLL_CTL_DEL takes it out, as `close` does.
unfoldable pub watched : ℕ → Trace → ℕ → Option ℕ
watched ed [] j = none
watched ed (Call.epoll_ctl op ed' sd events ∷ t) j =
    let before = watched ed t j in if ed' == ed && sd == j then told op events before else before
watched ed (Call.close sd ∷ t) j = let before = watched ed t j in if sd == j then none else before
watched ed (_ ∷ t) j = watched ed t j

-- An `epoll_ctl` that refuses to add a descriptor just when it is there.
abbrev pub IsEpoll : Kernel → ℕ → Type 0
IsEpoll k ed =
    (t : Trace) (sd events : ℕ)
    → (k.returns t (Call.epoll_ctl EpollOp.ctl_add ed sd events) /= 0)
      ≡ not (is_null (watched ed t sd))

-- `setEPOLL` asks for the events, whether the descriptor was watched or not, and leaves the others
-- alone.
set_epoll_self :
    (k : Kernel) (ed sd events : ℕ) (t : Trace)
    → IsEpoll k ed
    → watched ed (epoll_set k ed sd events t) sd ≡ some events
unfolding watched
set_epoll_self k ed sd events t law = elim (Option-cases (watched ed t sd)) [
  | inl e ↦ ground (arith, law t sd events)
  | inr (b, e) ↦ ground (arith, law t sd events)
]

set_epoll_other :
    (k : Kernel) (ed sd events j : ℕ) (t : Trace)
    → sd ≢ j
    → watched ed (epoll_set k ed sd events t) j ≡ watched ed t j
unfolding watched
set_epoll_other k ed sd events j t ne = ground arith

pub set_epoll_watched :
    (k : Kernel) (ed sd events j : ℕ) (t : Trace)
    → IsEpoll k ed
    → watched ed (epoll_set k ed sd events t) j ≡ (if sd == j then some events else watched ed t j)
set_epoll_watched k ed sd events j t law = elim (ℕ_discrete sd j) [
  | yes q ↦ rw (sym q, set_epoll_self k ed sd events t law) (ground arith)
  | no ne ↦ rw (set_epoll_other k ed sd events j t ne) (ground arith)
]

-- What is watched after a read, and after a write, where `t` was before.
abbrev pub AfterRead : ℕ → ℕ → ℕ → Trace → Trace → Type 0
AfterRead ed sd peer t t' =
    (j : ℕ)
    → watched ed t' j
      ≡ (if sd == j then none else if peer == j then some epollall else watched ed t j)

abbrev pub AfterWrite : ℕ → ℕ → ℕ → Trace → Trace → Type 0
AfterWrite ed sd outsd t t' =
    (j : ℕ)
    → watched ed t' j
      ≡ (if outsd == j then some epollin else if sd == j then some epollin else watched ed t j)

module _ (g : HashTable ℕ) (k : Kernel) (ed : ℕ) (law : IsEpoll k ed) where
  pub read_AfterRead :
      (sd peer n : ℕ) (t : Trace)
      → AfterRead ed sd peer t (
          Call.epoll_ctl EpollOp.ctl_del ed sd 0
          ∷ epoll_set k ed peer epollall (Call.recv sd n ∷ Call.allocate n ∷ t))
  unfolding watched
  read_AfterRead sd peer n t j =
      rw (set_epoll_watched k ed peer epollall j (Call.recv sd n ∷ Call.allocate n ∷ t) law)
        (ground arith)

  pub write_AfterWrite :
      (sd outsd : ℕ) (bs : Bytes) (t : Trace)
      → AfterWrite ed sd outsd t
          (epoll_set k ed outsd epollin (epoll_set k ed sd epollin (Call.send sd bs ∷ t)))
  unfolding watched
  write_AfterWrite sd outsd bs t j =
      rw
        (
          set_epoll_watched k ed outsd epollin j (epoll_set k ed sd epollin (Call.send sd bs ∷ t))
              law,
          set_epoll_watched k ed sd epollin j (Call.send sd bs ∷ t) law,
        )
        refl

  -- The rest of `handleRead` asks epoll for nothing.
  rest-AfterRead :
      (stop : Bool) (sd peer p : ℕ) (t : Trace) (h' : TProxy g) (t' : Trace)
      → AfterRead ed sd peer t t'
      → Ends
          (λ _ _. AfterRead ed sd peer t)
          AnyFault
          ((if stop then pure (pos 1) else shrink g p) k h' t')
  unfolding shrink watched
  rest-AfterRead true sd peer p t h' t' a = a
  rest-AfterRead false sd peer p t h' t' a =
      elim (Option-cases (k.memory t' (size (h'.partners p).bufsize))) [
        | inl e ↦ simp (e, ◌>>=◌) a
        | inr (b, e) ↦ simp (e, ◌>>=◌) a
      ]

  -- On a kernel that refuses to add a descriptor to the epoll set just when it is there:
  -- `handleRead`, unless the allocation of its page fails, no longer waits for the descriptor that
  -- was read, waits for both events of the other end, and leaves the other descriptors alone.
  pub handle_read-AfterRead :
      (sd p : ℕ) (block : Bytes) (h : TProxy g) (t : Trace)
      → h.ined ≡ ed
      → k.memory t page_size ≡ some block
      → Ends (λ _ _. AfterRead ed sd (h.partners p).sd t) AnyFault (handle_read g sd p k h t)
  unfolding handle_read
  handle_read-AfterRead sd p block h t at made =
      simp (made, at, set_epoll_lem, ◌>>=◌)
        (rest-AfterRead _ sd (h.partners p).sd p t _ _
          (read_AfterRead sd (h.partners p).sd page_size t))

  -- On a kernel that refuses to add a descriptor to the epoll set just when it is there:
  -- `handleWrite`, if it returns, waits for input at both ends and for nothing else there, and
  -- leaves the other descriptors alone.
  pub handle_write-AfterWrite :
      (sd outsd me : ℕ) (h : TProxy g) (t : Trace)
      → h.ined ≡ ed
      → Ends (λ _ _. AfterWrite ed sd outsd t) AnyFault (handle_write g sd outsd me k h t)
  unfolding handle_write
  handle_write-AfterWrite sd outsd me h t at =
      let w = h.partners me in
      elim (Option-cases (payload w.buf w.bufsize)) [
        | inl e ↦ simp (e, ◌>>=◌) tt
        | inr (bs, full) ↦ elim (Option-cases (free (memset_zero 0 w.buf))) [
          | inl e ↦ simp (full, e, ◌>>=◌) tt
          | inr (b, e) ↦ simp (full, e, at, set_epoll_lem, ◌>>=◌) (write_AfterWrite sd outsd bs t)
        ]
      ]
