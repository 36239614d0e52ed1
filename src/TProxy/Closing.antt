-- ===== src/TProxy/Closing.antt =====
-- How a connection ends in tropeaproxy/tproxy.c: one end is read to its end of file, and the other
-- is closed when it can be written next.
use shadow_tor_eavesdropping.Base.{
  ℕ, Option, none, some, List, [], ◌∷◌, Bytes, pos, ◌≡◌, ◌≢◌, refl, sym, ap, ◌∙◌, arith, true,
  eq_false, Option-cases, inl, inr,
}
use shadow_tor_eavesdropping.Sys.{
  Kernel, Trace, Call, EpollOp, ok, event_bits, epollin, epollout, epollall, ◌>>=◌,
}
use shadow_tor_eavesdropping.Glib.{HashTable}
use shadow_tor_eavesdropping.TProxy.Buffers.{live}
use shadow_tor_eavesdropping.TProxy.State.{Partner, TProxy, update, update_same, update_other}
use shadow_tor_eavesdropping.TProxy.Handlers.{
  page_size, result_size, filled, is_nonpositive, handle_read, settle, read_from, write_to,
  on_input, on_output, close_connections, is_nonzero, activate_tproxy, activate_all,
}
use shadow_tor_eavesdropping.TProxy.Relay.{HasMemory, epoll_set, set_epoll_lem}
use shadow_tor_eavesdropping.TProxy.Exchange.{IsLinked, linked_ends_ne}

-- The descriptors closed so far, the last one first.
unfoldable pub closes : Trace → List ℕ
closes [] = []
closes (Call.close sd ∷ t) = sd ∷ closes t
closes (_ ∷ t) = closes t

closes-epoll_set :
    (k : Kernel) (ed sd events : ℕ) (t : Trace) → closes (epoll_set k ed sd events t) ≡ closes t
unfolding closes
closes-epoll_set k ed sd events t = ground arith

-- The partner behind a read that brought nothing, and behind one that met the end of file.
abbrev pub finished : ℕ → Option Bytes → Partner
finished sd got = record { sd = sd; bufsize = result_size got; buf = live (filled page_size got) }

abbrev pub emptied : ℕ → Partner
emptied sd = finished sd (some [])

abbrev pub eof_trace : Kernel → ℕ → ℕ → ℕ → Trace → Trace
eof_trace k ined sd peer t =
    Call.close sd
    ∷ Call.epoll_ctl EpollOp.ctl_del ined sd 0
    ∷ Call.epoll_ctl EpollOp.ctl_del ined sd 0
    ∷ epoll_set k ined peer epollall (Call.recv sd page_size ∷ Call.allocate page_size ∷ t)

module _ (g : HashTable ℕ) where
  abbrev pub half_closed : TProxy g → ℕ → ℕ → TProxy g
  half_closed h sd p = record h {
    partners = update h.partners p (emptied (h.partners p).sd);
    hashmap = g.remove sd h.hashmap;
    is_done = 1;
  }

  -- A read in `handleRead` that brings nothing.
  pub handle_read_nothing :
      (k : Kernel) (h : TProxy g) (t : Trace) (sd p : ℕ) (got : Option Bytes)
      → HasMemory k
      → k.receives (Call.allocate page_size ∷ t) (Call.recv sd page_size) ≡ got
      → is_nonpositive (result_size got) ≡ true
      → handle_read g sd p k h t
        ≡ ok
            (pos 1)
            (record h { partners = update h.partners p (finished (h.partners p).sd got) })
            (Call.epoll_ctl EpollOp.ctl_del h.ined sd 0
              ∷ epoll_set k h.ined
                  (h.partners p).sd
                  epollall
                  (Call.recv sd page_size ∷ Call.allocate page_size ∷ t))
  unfolding handle_read
  handle_read_nothing k h t sd p got mem e nothing = elim (Option-cases (k.memory t page_size)) [
    | inl q ↦ absurd (mem _ _ q)
    | inr (m, q) ↦ simp (q, set_epoll_lem, e, nothing, ◌>>=◌)
  ]

  pub close_connections_clean :
      (k : Kernel) (h : TProxy g) (t : Trace) (sd p : ℕ)
      → (h.partners p).bufsize ≡ pos 0
      → close_connections g sd p k h t
        ≡ ok tt
            (record h { hashmap = g.remove sd h.hashmap; is_done = 1 })
            (Call.close sd ∷ Call.epoll_ctl EpollOp.ctl_del h.ined sd 0 ∷ t)
  unfolding close_connections
  close_connections_clean k h t sd p clean = simp (clean, is_nonzero, ◌>>=◌)

  pub activate_eof_lem :
      (k : Kernel) (h : TProxy g) (t : Trace) (sd p : ℕ)
      → HasMemory k
      → sd ≢ h.asockin
      → g.lookup sd h.hashmap ≡ some p
      → k.receives (Call.allocate page_size ∷ t) (Call.recv sd page_size) ≡ some []
      → activate_tproxy g sd epollin k h t
        ≡ ok tt (half_closed h sd p) (eof_trace k h.ined sd (h.partners p).sd t)
  unfolding activate_tproxy settle read_from on_input
  activate_eof_lem k h t sd p mem ne at got = simp (
    at,
    eq_false sd h.asockin ne,
    event_bits,
    handle_read_nothing k h t sd p (some []) mem got refl,
    close_connections_clean k
        (record h { partners = update h.partners p (emptied (h.partners p).sd) }) _ sd p
        (ap (λ x. x.bufsize) (update_same h.partners p (emptied (h.partners p).sd))),
    ◌>>=◌,
  )

  -- The other end, with nothing in its buffer.
  pub activate_orphan_lem :
      (k : Kernel) (h : TProxy g) (t : Trace) (sd p : ℕ)
      → sd ≢ h.asockin
      → g.lookup sd h.hashmap ≡ some p
      → g.lookup (h.partners p).sd h.hashmap ≡ none
      → (h.partners p).bufsize ≡ pos 0
      → h.is_done ≡ 1
      → activate_tproxy g sd epollout k h t
        ≡ ok tt
            (record h { hashmap = g.remove sd h.hashmap; is_done = 1 })
            (Call.close sd ∷ Call.epoll_ctl EpollOp.ctl_del h.ined sd 0 ∷ t)
  unfolding activate_tproxy write_to on_output
  activate_orphan_lem k h t sd p ne at gone clean done = simp (
    at,
    eq_false sd h.asockin ne,
    event_bits,
    gone,
    done,
    close_connections_clean k h t sd p clean,
    ◌>>=◌,
  )

  pub lookup_removed : (sd : ℕ) (m : g.Table) → g.lookup sd (g.remove sd m) ≡ none
  lookup_removed sd m = ground (arith, g.lookup-remove sd sd m)

  pub lookup_absent :
      (sd j : ℕ) (m : g.Table) → g.lookup j m ≡ none → g.lookup j (g.remove sd m) ≡ none
  lookup_absent sd j m e = ground (arith, g.lookup-remove sd j m)

  pub lookup_kept : (sd j : ℕ) (m : g.Table) → sd ≢ j → g.lookup j (g.remove sd m) ≡ g.lookup j m
  lookup_kept sd j m ne = ground (arith, g.lookup-remove sd j m)

  -- After the end of file at `a`, the partner of `b` leads to no entry.
  pub orphaned :
      (h : TProxy g) (a b pa pb : ℕ)
      → IsLinked g h a b pa pb
      → let h' = half_closed h a pa in
        (g.lookup b h'.hashmap ≡ some pb)
        × (h'.partners pb ≡ h.partners pb)
        × (g.lookup (h'.partners pb).sd h'.hashmap ≡ none)
  orphaned h a b pa pb link = (
    lookup_kept a b h.hashmap (linked_ends_ne g h a b pa pb link) ∙ link.found_back,
    update_other h.partners pa pb _ link.apart,
    rw (update_other h.partners pa pb _ link.apart)
        (rw link.leads_back (lookup_removed a h.hashmap)),
  )

  -- The state in which both ends are closed.
  abbrev pub closed_down : TProxy g → ℕ → ℕ → ℕ → TProxy g
  closed_down h a b pa = record h {
    partners = update h.partners pa (emptied (h.partners pa).sd);
    hashmap = g.remove b (g.remove a h.hashmap);
    is_done = 1;
  }

  -- If allocations succeed, `a` and `b` are linked, the partner that holds what `a` is to be sent
  -- is empty, and the `recv` at `a` gives no byte, then EPOLLIN at `a` followed by EPOLLOUT at `b`
  -- closes `a` and then `b` and nothing else, and takes both entries out of the table; the other
  -- entries stay.
  pub close_both :
      (k : Kernel) (h : TProxy g) (t : Trace) (a b pa pb : ℕ)
      → HasMemory k
      → IsLinked g h a b pa pb
      → (h.partners pb).bufsize ≡ pos 0
      → k.receives (Call.allocate page_size ∷ t) (Call.recv a page_size) ≡ some []
      → (h' : TProxy g) × (t' : Trace) × (activate_all g ((a, epollin) ∷ (b, epollout) ∷ []) k h t
          ≡ ok tt h' t')
        × (closes t' ≡ b ∷ a ∷ closes t)
        × (g.lookup a h'.hashmap ≡ none)
        × (g.lookup b h'.hashmap ≡ none)
        × ((j : ℕ) → a ≢ j → b ≢ j → g.lookup j h'.hashmap ≡ g.lookup j h.hashmap)
  unfolding activate_all closes
  close_both k h t a b pa pb mem link clean got =
      let (at, same, gone) = orphaned h a b pa pb link in
      let first = activate_eof_lem k h t a pa mem link.accepted link.found got in
      let second =
        activate_orphan_lem k (half_closed h a pa) (eof_trace k h.ined a (h.partners pa).sd t) b pb
          link.connected at gone (ap (λ p. p.bufsize) same ∙ clean) refl in
      (
        closed_down h a b pa,
        Call.close b
            ∷ Call.epoll_ctl EpollOp.ctl_del h.ined b 0
            ∷ eof_trace k h.ined a (h.partners pa).sd t,
        simp (first, second, ◌>>=◌),
        simp closes-epoll_set,
        lookup_kept b a _ (λ e. linked_ends_ne g h a b pa pb link (sym e))
            ∙ lookup_removed a h.hashmap,
        lookup_removed b _,
        λ j na nb. lookup_kept b j _ nb ∙ lookup_kept a j h.hashmap na,
      )
