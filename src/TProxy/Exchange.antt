-- ===== src/TProxy/Exchange.antt =====
-- The two ends of a connection in tropeaproxy/tproxy.c, and messages that cross from one to the
-- other through `_tproxy_activateTProxy`.
use shadow_tor_eavesdropping.Base.{
  Option, false, ◌&&◌, not, ◌==◌, arith, ℕ, suc, some, List, ◌∷◌, Bytes, length, ◌≡◌, ◌≢◌, refl,
  sym, ap, eq_false, ◌∙◌,
}
use shadow_tor_eavesdropping.Sys.{Kernel, Trace, Call, ok, event_bits, epollin, epollout, ◌>>=◌}
use shadow_tor_eavesdropping.Glib.{HashTable}
use shadow_tor_eavesdropping.TProxy.State.{
  Partner, TProxy, update, update_same, update_other, update-update,
}
use shadow_tor_eavesdropping.TProxy.Handlers.{
  page_size, is_null, activate_tproxy, activate_all, on_input, on_output, read_from, write_to,
  settle,
}
use shadow_tor_eavesdropping.TProxy.Relay.{
  HasMemory, holding, spent, read_trace, write_trace, handle_read_lem, handle_write_lem,
}

-- `a` and `b` are the two descriptors of a connection, with their partners at `pa` and `pb`.
pub record IsLinked (g : HashTable ℕ) (h : TProxy g) (a b pa pb : ℕ) : Type 0 where
  pub found : g.lookup a h.hashmap ≡ some pa
  pub found_back : g.lookup b h.hashmap ≡ some pb
  pub leads : (h.partners pa).sd ≡ b
  pub leads_back : (h.partners pb).sd ≡ a
  pub apart : pa ≢ pb
  pub accepted : a ≢ h.asockin
  pub connected : b ≢ h.asockin

-- The listening descriptor needs no entry.
pub listening_guard : (o : Option ℕ) (n : ℕ) → (is_null o && not (n == n)) ≡ false
listening_guard o n = ground arith

module _ (g : HashTable ℕ) where
  pub activate_read_lem :
      (k : Kernel) (h : TProxy g) (t : Trace) (a p c : ℕ) (cs : Bytes)
      → HasMemory k
      → a ≢ h.asockin
      → g.lookup a h.hashmap ≡ some p
      → k.receives (Call.allocate page_size ∷ t) (Call.recv a page_size) ≡ some (c ∷ cs)
      → activate_tproxy g a epollin k h t
        ≡ ok tt
            (record h { partners = update h.partners p (holding (h.partners p).sd (c ∷ cs)) })
            (read_trace k h.ined a (h.partners p).sd (suc (length cs)) t)
  unfolding activate_tproxy on_input read_from settle
  activate_read_lem k h t a p c cs mem ne found got =
      let step = handle_read_lem g k h t a p c cs mem got in
      simp (found, eq_false a h.asockin ne, event_bits, step, ◌>>=◌)

  pub activate_write_lem :
      (k : Kernel) (h : TProxy g) (t : Trace) (a b pa pb c : ℕ) (cs : Bytes)
      → IsLinked g h a b pa pb
      → h.partners pa ≡ holding b (c ∷ cs)
      → activate_tproxy g b epollout k h t
        ≡ ok tt
            (record h { partners = update h.partners pa (spent b (c ∷ cs)) })
            (write_trace k h.ined b a (c ∷ cs) t)
  unfolding activate_tproxy on_output write_to
  activate_write_lem k h t a b pa pb c cs link held =
      let step = handle_write_lem g k h t b a pa b c cs held in
      simp (
        link.found_back,
        eq_false b h.asockin link.connected,
        event_bits,
        link.leads_back,
        link.found,
        step,
        ◌>>=◌,
      )

  -- Writing a partner that keeps its descriptor keeps the connection.
  pub IsLinked-update :
      (h : TProxy g) (a b pa pb : ℕ) (v : Partner)
      → v.sd ≡ b
      → IsLinked g h a b pa pb
      → IsLinked g (record h { partners = update h.partners pa v }) a b pa pb
  IsLinked-update h a b pa pb v e link = record {
    found = link.found;
    found_back = link.found_back;
    leads = rw update_same e;
    leads_back = rw (update_other h.partners pa pb v link.apart) link.leads_back;
    apart = link.apart;
    accepted = link.accepted;
    connected = link.connected;
  }

  pub linked_ends_ne : (h : TProxy g) (a b pa pb : ℕ) → IsLinked g h a b pa pb → a ≢ b
  linked_ends_ne h a b pa pb link e =
      let same : some pa ≡ some pb =
        sym link.found ∙ ap (λ x. g.lookup x h.hashmap) e ∙ link.found_back in
      link.apart (cc same)

  pub IsLinked-symm :
      (h : TProxy g) (a b pa pb : ℕ) → IsLinked g h a b pa pb → IsLinked g h b a pb pa
  IsLinked-symm h a b pa pb link = record {
    found = link.found_back;
    found_back = link.found;
    leads = link.leads_back;
    leads_back = link.leads;
    apart = λ e. link.apart (sym e);
    accepted = link.connected;
    connected = link.accepted;
  }

  -- A message that is read at `a`, and written at `b` by the next event.
  pub exchange_lem :
      (k : Kernel) (h : TProxy g) (t : Trace) (a b pa pb c : ℕ) (cs : Bytes) (rest : List (ℕ × ℕ))
      → HasMemory k
      → IsLinked g h a b pa pb
      → k.receives (Call.allocate page_size ∷ t) (Call.recv a page_size) ≡ some (c ∷ cs)
      → activate_all g ((a, epollin) ∷ (b, epollout) ∷ rest) k h t
        ≡ activate_all g rest k
            (record h { partners = update h.partners pa (spent b (c ∷ cs)) })
            (write_trace k h.ined b a (c ∷ cs) (read_trace k h.ined a b (suc (length cs)) t))
  unfolding activate_all
  exchange_lem k h t a b pa pb c cs rest mem link got = simp (
    activate_read_lem k h t a pa c cs mem link.accepted link.found got,
    link.leads,
    activate_write_lem k _ _ a b pa pb c cs
        (IsLinked-update h a b pa pb (holding b (c ∷ cs)) refl link) (update_same _ _ _),
    update-update,
    ◌>>=◌,
  )
