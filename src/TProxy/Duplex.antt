-- ===== src/TProxy/Duplex.antt =====
-- Both ends of a connection of tropeaproxy/tproxy.c speak at once.
use shadow_tor_eavesdropping.Base.{
  ℕ, suc, ◌==◌, if◌then◌else◌, Option, none, some, [], ◌∷◌, Bytes, length, ◌≡◌, ◌≢◌, sym, ap, ◌∙◌,
  arith, eq_false,
}
use shadow_tor_eavesdropping.Sys.{
  Kernel, Trace, Call, EpollOp, ok, event_bits, epollin, epollall, ◌>>=◌,
}
use shadow_tor_eavesdropping.Glib.{HashTable}
use shadow_tor_eavesdropping.TProxy.State.{TProxy, update, update_same, update_other}
use shadow_tor_eavesdropping.TProxy.Handlers.{
  page_size, settle, read_from, write_to, on_input, on_output, activate_tproxy,
}
use shadow_tor_eavesdropping.TProxy.Relay.{
  sends, receipts, HasMemory, holding, spent, epoll_set, read_trace, write_trace, handle_read_lem,
  handle_write_lem, sends-read_trace, receipts-read_trace, sends-write_trace, receipts-write_trace,
}
use shadow_tor_eavesdropping.TProxy.Exchange.{IsLinked, activate_read_lem}
use shadow_tor_eavesdropping.TProxy.Conversation.{IsTalking}

-- The events last asked for on a descriptor; `none` if it was taken out of the set, or never
-- was in it.
unfoldable pub asked : ℕ → Trace → Option ℕ
asked sd [] = none
asked sd (Call.epoll_ctl EpollOp.ctl_add ed s events ∷ t) =
    if s == sd then some events else asked sd t
asked sd (Call.epoll_ctl EpollOp.ctl_mod ed s events ∷ t) =
    if s == sd then some events else asked sd t
asked sd (Call.epoll_ctl EpollOp.ctl_del ed s events ∷ t) = if s == sd then none else asked sd t
asked sd (_ ∷ t) = asked sd t

asked-epoll_set :
    (k : Kernel) (ed sd events : ℕ) (t : Trace)
    → asked sd (epoll_set k ed sd events t) ≡ some events
unfolding asked
asked-epoll_set k ed sd events t = ground arith

module _ (g : HashTable ℕ) where
  -- EPOLLIN and EPOLLOUT at `b`, while a message from `a` waits.
  activate_both_lem :
      (k : Kernel) (h : TProxy g) (t : Trace) (a b pa pb c d : ℕ) (cs ds : Bytes)
      → HasMemory k
      → IsLinked g h a b pa pb
      → h.partners pa ≡ holding b (c ∷ cs)
      → k.receives (Call.allocate page_size ∷ t) (Call.recv b page_size) ≡ some (d ∷ ds)
      → activate_tproxy g b epollall k h t
        ≡ ok tt
            (record h {
              partners = update (update h.partners pb (holding a (d ∷ ds))) pa (spent b (c ∷ cs));
            })
            (write_trace k h.ined b a (c ∷ cs) (read_trace k h.ined b a (suc (length ds)) t))
  unfolding activate_tproxy on_input read_from settle on_output write_to
  activate_both_lem k h t a b pa pb c d cs ds mem link held got =
      let v = holding a (d ∷ ds) in
      let h' : TProxy g = record h { partners = update h.partners pb v } in
      let t' = read_trace k h.ined b a (suc (length ds)) t in
      simp (
        link.found_back,
        eq_false b h.asockin link.connected,
        event_bits,
        handle_read_lem g k h t b pb d ds mem got,
        link.leads_back,
        update_same,
        link.found,
        handle_write_lem g k h' t' b a pa b c cs
            (update_other h.partners pb pa v (λ e. link.apart (sym e)) ∙ held),
        ◌>>=◌,
      )

  -- If allocations succeed, every `recv` gives at least one byte, `a` and `b` are linked, and a
  -- message from `a` waits to go out at `b`, then EPOLLIN and EPOLLOUT reported together for `b`
  -- send the message from `a`, take a message from `b`, and leave `a` registered for EPOLLIN alone;
  -- and the next EPOLLIN at `b` puts a second message from `b` in the place of the first, which is
  -- not empty and has been sent by neither run.
  pub duplex_loses :
      (k : Kernel) (h : TProxy g) (t : Trace) (a b pa pb c : ℕ) (cs : Bytes)
      → HasMemory k
      → IsTalking k
      → IsLinked g h a b pa pb
      → h.partners pa ≡ holding b (c ∷ cs)
      → (h₁ h₂ : TProxy g) × (t₁ t₂ : Trace) × (first second : Bytes) × (activate_tproxy g b
            epollall k h t
          ≡ ok tt h₁ t₁)
        × (asked a t₁ ≡ some epollin)
        × (h₁.partners pb ≡ holding a first)
        × (activate_tproxy g b epollin k h₁ t₁ ≡ ok tt h₂ t₂)
        × (h₂.partners pb ≡ holding a second)
        × (first ≢ [])
        × (receipts k t₂ ≡ (b, second) ∷ (b, first) ∷ receipts k t)
        × (sends t₂ ≡ (b, c ∷ cs) ∷ sends t)
  duplex_loses k h t a b pa pb c cs mem talk link held =
      let (d, ds, got) = talk (Call.allocate page_size ∷ t) b in
      let h₁ : TProxy g = record h {
        partners = update (update h.partners pb (holding a (d ∷ ds))) pa (spent b (c ∷ cs));
      } in
      let t₁ = write_trace k h.ined b a (c ∷ cs) (read_trace k h.ined b a (suc (length ds)) t) in
      let (e, es, got') = talk (Call.allocate page_size ∷ t₁) b in
      let kept : h₁.partners pb ≡ holding a (d ∷ ds) =
        update_other _ pa pb _ link.apart ∙ update_same _ _ _ in
      let t₂ = read_trace k h.ined b (h₁.partners pb).sd (suc (length es)) t₁ in
      (
        h₁,
        record h₁ { partners = update h₁.partners pb (holding (h₁.partners pb).sd (e ∷ es)) },
        t₁,
        t₂,
        d ∷ ds,
        e ∷ es,
        activate_both_lem k h t a b pa pb c d cs ds mem link held got,
        asked-epoll_set k h.ined a epollin _,
        kept,
        activate_read_lem g k h₁ t₁ b pb e es mem link.connected link.found_back got',
        update_same _ _ _ ∙ ap (λ p. holding p.sd (e ∷ es)) kept,
        (cc),
        receipts-read_trace k h.ined b _ _ (e ∷ es) t₁ got'
            ∙ ap (λ r. (b, e ∷ es) ∷ r)
                (receipts-write_trace k h.ined b a (c ∷ cs) _
                  ∙ receipts-read_trace k h.ined b a _ (d ∷ ds) t got),
        sends-read_trace k h.ined b _ _ t₁
            ∙ sends-write_trace k h.ined b a (c ∷ cs) _
            ∙ ap (λ r. (b, c ∷ cs) ∷ r) (sends-read_trace k h.ined b a _ t),
      )
