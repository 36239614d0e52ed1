-- ===== src/TProxy/Orphans.antt =====
-- What tropeaproxy/tproxy.c does with a descriptor whose other end is gone, when the events do not
-- come one by one.
use shadow_tor_eavesdropping.Base.{
  ℕ, suc, ◌<◌, none, some, [], ◌∷◌, Bytes, negsuc, ◌≡◌, ◌≢◌, refl, ap, ◌∙◌, arith, eq_false,
  eq_true,
}
use shadow_tor_eavesdropping.Sys.{
  Kernel, Trace, Call, SockType, EpollOp, Fault, ok, exited, faulted, Post, >>=-Post, has,
  event_bits, epollin, epollout, epollall, ◌>>=◌, ◌>>◌, skip,
}
use shadow_tor_eavesdropping.Glib.{HashTable}
use shadow_tor_eavesdropping.TProxy.Buffers.{Buffer, live, freed, free}
use shadow_tor_eavesdropping.TProxy.State.{Partner, TProxy, update, update_same, update-update}
use shadow_tor_eavesdropping.TProxy.Handlers.{
  page_size, filled, settle, read_from, write_to, on_input, on_output, close_connections, link,
  disaster_recovery, is_nonzero, activate_tproxy, activate_all, handle_new_connection,
}
use shadow_tor_eavesdropping.TProxy.Relay.{HasMemory}
use shadow_tor_eavesdropping.TProxy.Exchange.{listening_guard, IsLinked}
use shadow_tor_eavesdropping.TProxy.Invariant.{Inv}
use shadow_tor_eavesdropping.TProxy.Safety.Transfers.{Reads}
use shadow_tor_eavesdropping.TProxy.Safety.Joining.{clear_done, handle_new_connection-Post}
use shadow_tor_eavesdropping.TProxy.Closing.{
  finished, eof_trace, half_closed, handle_read_nothing, lookup_absent, lookup_removed, orphaned,
  activate_eof_lem,
}

module _ (g : HashTable ℕ) where
  -- While `isDone` is 0, a descriptor whose other end is gone takes the whole process down.
  pub activate_orphan_exit :
      (k : Kernel) (h : TProxy g) (t : Trace) (sd p : ℕ)
      → sd ≢ h.asockin
      → g.lookup sd h.hashmap ≡ some p
      → g.lookup (h.partners p).sd h.hashmap ≡ none
      → h.is_done ≡ 0
      → activate_tproxy g sd epollout k h t ≡ exited 1 h t
  unfolding activate_tproxy write_to on_output
  activate_orphan_exit k h t sd p ne at gone done =
      simp (at, eq_false sd h.asockin ne, event_bits, gone, done, ◌>>=◌)

  close_connections_full :
      (k : Kernel) (h : TProxy g) (t : Trace) (sd p n : ℕ) (b : Buffer)
      → (h.partners p).bufsize ≡ negsuc n
      → free (h.partners p).buf ≡ some b
      → close_connections g sd p k h t
        ≡ ok tt
            (record h {
              partners =
                  update h.partners p
                    (record { sd = (h.partners p).sd; bufsize = negsuc n; buf = b });
              hashmap = g.remove sd h.hashmap;
              is_done = 1;
            })
            (Call.close sd ∷ Call.epoll_ctl EpollOp.ctl_del h.ined sd 0 ∷ t)
  unfolding close_connections disaster_recovery
  close_connections_full k h t sd p n b full e = simp (full, e, is_nonzero, ◌>>=◌)

  close_connections_freed :
      (k : Kernel) (h : TProxy g) (t : Trace) (sd p n : ℕ)
      → (h.partners p).bufsize ≡ negsuc n
      → free (h.partners p).buf ≡ none
      → close_connections g sd p k h t
        ≡ faulted Fault.double_free h
            (Call.close sd ∷ Call.epoll_ctl EpollOp.ctl_del h.ined sd 0 ∷ t)
  unfolding close_connections disaster_recovery
  close_connections_freed k h t sd p n full e = simp (full, e, is_nonzero, ◌>>=◌)

  -- The state behind the first of the two closings.
  abbrev failed_down : TProxy g → ℕ → ℕ → TProxy g
  failed_down h sd p = record h {
    partners = update h.partners p (record {
      sd = (h.partners p).sd;
      bufsize = negsuc 0;
      buf = freed (filled page_size none);
    });
    hashmap = g.remove sd h.hashmap;
    is_done = 1;
  }

  free-live : (bs : Bytes) → free (live bs) ≡ some (freed bs)
  unfolding free
  free-live bs = refl

  free_freed : (bs : Bytes) → free (freed bs) ≡ none
  unfolding free
  free_freed bs = refl

  read_from_failed :
      (k : Kernel) (h : TProxy g) (t : Trace) (sd p : ℕ)
      → HasMemory k
      → k.receives (Call.allocate page_size ∷ t) (Call.recv sd page_size) ≡ none
      → read_from g sd (some p) k h t
        ≡ ok tt (failed_down h sd p) (eof_trace k h.ined sd (h.partners p).sd t)
  unfolding read_from settle
  read_from_failed k h t sd p mem got =
      let v = finished (h.partners p).sd none in
      let same = update_same h.partners p v in
      simp (
        handle_read_nothing g k h t sd p none mem got refl,
        close_connections_full k (record h { partners = update h.partners p v }) _ sd p 0
            (freed (filled page_size none)) (ap (λ x. x.bufsize) same)
            (ap (λ x. free x.buf) same ∙ free-live _),
        update-update,
        same,
        ◌>>=◌,
      )

  write_to_freed :
      (k : Kernel) (h : TProxy g) (t : Trace) (sd p : ℕ)
      → g.lookup (h.partners p).sd h.hashmap ≡ none
      → on_output g sd (some p) k (failed_down h sd p) t
        ≡ faulted Fault.double_free
            (failed_down h sd p)
            (Call.close sd ∷ Call.epoll_ctl EpollOp.ctl_del h.ined sd 0 ∷ t)
  unfolding on_output write_to
  write_to_freed k h t sd p gone =
      let h' = failed_down h sd p in
      let v : Partner = record {
        sd = (h.partners p).sd;
        bufsize = negsuc 0;
        buf = freed (filled page_size none);
      } in
      let same = update_same h.partners p v in
      simp (
        same,
        lookup_absent g sd (h.partners p).sd h.hashmap gone,
        close_connections_freed k h' t sd p 0 (ap (λ x. x.bufsize) same)
            (ap (λ x. free x.buf) same ∙ free_freed _),
        ◌>>=◌,
      )

  -- If allocations succeed, `sd` is not the listening descriptor, it has an entry, its other end has
  -- none, and the `recv` on it fails, then EPOLLIN and EPOLLOUT reported together for `sd` make
  -- `activateTProxy` free a buffer twice: both branches close the connection.
  pub orphan_double_free :
      (k : Kernel) (h : TProxy g) (t : Trace) (sd p : ℕ)
      → HasMemory k
      → sd ≢ h.asockin
      → g.lookup sd h.hashmap ≡ some p
      → g.lookup (h.partners p).sd h.hashmap ≡ none
      → k.receives (Call.allocate page_size ∷ t) (Call.recv sd page_size) ≡ none
      → (h' : TProxy g) × (t' : Trace) × (activate_tproxy g sd epollall k h t
          ≡ faulted Fault.double_free h' t')
  unfolding activate_tproxy on_input
  orphan_double_free k h t sd p mem ne at gone got =
      let t' = eof_trace k h.ined sd (h.partners p).sd t in
      (
        failed_down h sd p,
        Call.close sd ∷ Call.epoll_ctl EpollOp.ctl_del h.ined sd 0 ∷ t',
        simp (
          at,
          eq_false sd h.asockin ne,
          event_bits,
          read_from_failed k h t sd p mem got,
          write_to_freed k h t' sd p gone,
          ◌>>=◌,
        ),
      )

  -- An orphan while `isDone` is 0: what `new_connection_kills` carries through the new connection.
  record IsStranded (a b pb : ℕ) (h : TProxy g) : Type 0 where
    found : g.lookup b h.hashmap ≡ some pb
    missing : g.lookup a h.hashmap ≡ none
    leads : (h.partners pb).sd ≡ a
    undone : h.is_done ≡ 0
    old : pb < h.next
    apart : b ≢ h.asockin

  link-IsStranded :
      (a b pb : ℕ) (h : TProxy g) (cin cout : ℕ)
      → (cin ≢ a) × (cin ≢ b)
      → (cout ≢ a) × (cout ≢ b)
      → IsStranded a b pb h
      → IsStranded a b pb (link g cin cout h)
  unfolding link update
  link-IsStranded a b pb h cin cout i o s = record {
    found = other b i.1 o.1 ∙ s.found;
    missing = other a i.0 o.0 ∙ s.missing;
    leads = ground arith;
    undone = s.undone;
    old = omega arith;
    apart = s.apart;
  }
    where
      other :
          (j : ℕ)
          → cin ≢ j
          → cout ≢ j
          → g.lookup j (g.replace cout h.next (g.replace cin (suc h.next) h.hashmap))
            ≡ g.lookup j h.hashmap
      other j n m = ground (
        arith,
        g.lookup-replace cout j h.next (g.replace cin (suc h.next) h.hashmap),
        g.lookup-replace cin j (suc h.next) h.hashmap,
      )

  activate_listening-Post :
      (P : Unit {0} → TProxy g → Type 0) (k : Kernel) (h : TProxy g) (t : Trace)
      → Post P Reads (handle_new_connection g h.asockin k h t)
      → Post P Reads (activate_tproxy g h.asockin epollin k h t)
  unfolding activate_tproxy on_input has
  activate_listening-Post P k h t p =
      rw (listening_guard (g.lookup h.asockin h.hashmap) h.asockin) (
        simp (eq_true, ◌>>=◌)
          (>>=-Post P P Reads (handle_new_connection g h.asockin) (λ _. skip) k h t p
            (λ a s t' q. q)))

  stranded_exit :
      (k : Kernel) (h : TProxy g) (t : Trace) (a b pb : ℕ)
      → IsStranded a b pb h
      → Post (λ _ h'. ⊥) Reads ((activate_tproxy g b epollout >> skip) k h t)
  stranded_exit k h t a b pb s =
      simp (activate_orphan_exit k h t b pb s.apart s.found (rw s.leads s.missing) s.undone, ◌>>=◌)
        tt

  strand :
      (h : TProxy g) (a b pa pb : ℕ)
      → Inv g h
      → IsLinked g h a b pa pb
      → IsStranded a b pb (clear_done g (half_closed g h a pa))
  strand h a b pa pb v link =
      let (at, same, gone) = orphaned g h a b pa pb link in
      record {
        found = at;
        missing = lookup_removed g a h.hashmap;
        leads = ap (λ x. x.sd) same ∙ link.leads_back;
        undone = refl;
        old = v.bounded b pb link.found_back;
        apart = link.connected;
      }

  -- If allocations succeed, the invariant holds, `a` and `b` are linked, `a` is at its end of file,
  -- and `accept` and `socket` never give `a` or `b`, then EPOLLIN at `a`, a new connection and
  -- EPOLLOUT at `b`, in this order, do not return: the process has ended by `_exit` or by a fault,
  -- and the fault is not a read from a message that is not there in full.
  pub new_connection_kills :
      (k : Kernel) (h : TProxy g) (t : Trace) (a b pa pb : ℕ)
      → HasMemory k
      → Inv g h
      → IsLinked g h a b pa pb
      → k.receives (Call.allocate page_size ∷ t) (Call.recv a page_size) ≡ some []
      → ((t' : Trace) (sd : ℕ)
          → (k.returns t' (Call.accept sd) ≢ a) × (k.returns t' (Call.accept sd) ≢ b))
      → ((t' : Trace)
          → (k.returns t' (Call.socket SockType.stream) ≢ a)
            × (k.returns t' (Call.socket SockType.stream) ≢ b))
      → Post
          (λ _ h'. ⊥)
          Reads
          (activate_all g ((a, epollin) ∷ (h.asockin, epollin) ∷ (b, epollout) ∷ []) k h t)
  unfolding activate_all
  new_connection_kills k h t a b pa pb mem v link got new_in new_out =
      simp (activate_eof_lem g k h t a pa mem link.accepted link.found got, ◌>>=◌)
        (>>=-Post (λ _ h'. IsStranded a b pb h') (λ _ h'. ⊥) Reads
          (activate_tproxy g h.asockin epollin) (λ _. activate_tproxy g b epollout >> skip) k
          (half_closed g h a pa) (eof_trace k h.ined a (h.partners pa).sd t)
          (activate_listening-Post (λ _ h'. IsStranded a b pb h') k (half_closed g h a pa) _
            (handle_new_connection-Post g k (λ sd. (sd ≢ a) × (sd ≢ b)) (IsStranded a b pb) new_in
              new_out (link-IsStranded a b pb) (half_closed g h a pa) _ h.asockin
              (strand h a b pa pb v link)))
          (λ _ h' t' s. stranded_exit k h' t' a b pb s))
