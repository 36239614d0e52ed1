-- ===== src/TProxy/Safety/Transfers.antt =====
-- The invariant through the reads, the writes and the closing of tropeaproxy/tproxy.c.
use shadow_tor_eavesdropping.Base.{
  ℕ, zero, suc, ◌≤◌, length-take_le, length-append, if◌then◌else◌, Option, none, some, [], ◌∷◌, ℤ,
  pos, negsuc, length, ◌≡◌, ◌≢◌, refl, arith, Option-cases, Bool-cases, inl, inr, Bytes, take,
}
use shadow_tor_eavesdropping.Sys.{Kernel, Trace, Fault, bad_read, Post, >>=-Post, pure, ◌>>=◌}
use shadow_tor_eavesdropping.Glib.{HashTable}
use shadow_tor_eavesdropping.TProxy.Buffers.{Buffer, null, live, freed, free, payload, memset_zero}
use shadow_tor_eavesdropping.TProxy.State.{TProxy, update, update_same}
use shadow_tor_eavesdropping.TProxy.Handlers.{
  disaster_recovery, forget, close_connections, shrink, handle_read, handle_write, is_nonzero,
  page_size, result_size, filled, is_nonpositive,
}
use shadow_tor_eavesdropping.TProxy.Relay.{set_epoll_lem}
use shadow_tor_eavesdropping.TProxy.Invariant.{
  IsSized, Inv, InvBut, Inv-InvBut, update-InvBut, update-Inv, remove-Inv, kept, Owns,
}

-- The fault of sending bytes that are not in the message's block is excluded.
abbrev pub Reads : Fault → Type 0
Reads e = e ≢ bad_read

module _ (g : HashTable ℕ) where
  pub disaster_recovery-Post :
      (k : Kernel) (h : TProxy g) (t : Trace) (p sd : ℕ)
      → InvBut g p h
      → Owns g sd p h
      → Post (λ _ h'. InvBut g p h' × Owns g sd p h') Reads (disaster_recovery g p k h t)
  unfolding disaster_recovery
  disaster_recovery-Post k h t p sd i owns = elim (Option-cases (free (h.partners p).buf)) [
    | inl e ↦ simp (e, ◌>>=◌) (λ q. cc)
    | inr (b, e) ↦ simp (e, ◌>>=◌) (update-InvBut g p h _ i, owns)
  ]

  pub forget-Post :
      (k : Kernel) (h : TProxy g) (t : Trace) (sd p : ℕ)
      → InvBut g p h
      → Owns g sd p h
      → Post (λ _ h'. Inv g h' × Owns g sd p h') Reads (forget g sd k h t)
  forget-Post k h t sd p i owns =
      (remove-Inv g p sd 1 h owns i, λ a e. owns a (kept g sd a p h.hashmap e))

  pub close_connections-Post :
      (k : Kernel) (h : TProxy g) (t : Trace) (sd p : ℕ)
      → InvBut g p h
      → Owns g sd p h
      → Post (λ _ h'. Inv g h' × Owns g sd p h') Reads (close_connections g sd p k h t)
  unfolding close_connections
  close_connections-Post k h t sd p i owns = elim (Bool-cases (is_nonzero (h.partners p).bufsize)) [
    | inl e ↦ rw e (
        >>=-Post (λ _ h'. InvBut g p h' × Owns g sd p h') (λ _ h'. Inv g h' × Owns g sd p h') Reads
          (disaster_recovery g p) (λ _. forget g sd) k h _
          (disaster_recovery-Post k h _ p sd i owns)
          (λ _ h' t' q. forget-Post k h' t' sd p q.0 q.1))
    | inr e ↦ simp (e, ◌>>=◌) (forget-Post k h t sd p i owns)
  ]

  -- The state behind `handleRead`, by its result.
  abbrev pub AfterRead : ℕ → ℕ → ℤ → TProxy g → Type 0
  AfterRead sd p (pos zero) h = Inv g h × Owns g sd p h
  AfterRead sd p (pos (suc n)) h = InvBut g p h × Owns g sd p h
  AfterRead sd p (negsuc n) h = Unit

  pub shrink-Post :
      (k : Kernel) (h : TProxy g) (t : Trace) (p sd out n : ℕ) (bs : Bytes)
      → InvBut g p h
      → Owns g sd p h
      → h.partners p ≡ record { sd = out; bufsize = pos (suc n); buf = live bs }
      → suc n ≤ length bs
      → Post (AfterRead sd p) Reads (shrink g p k h t)
  unfolding shrink
  shrink-Post k h t p sd out n bs i owns held fits = elim (Option-cases (k.memory t (suc n))) [
    | inl e ↦ simp (held, e, ◌>>=◌) tt
    | inr (m, e) ↦
        simp (held, e, ◌>>=◌) (update-Inv g p h _ (length-take_le (suc n) bs fits) i, owns)
  ]

  -- What `recv` brought decides the rest of `handleRead`.
  pub read_rest-Post :
      (got : Option Bytes) (k : Kernel) (h : TProxy g) (t : Trace) (p sd out : ℕ)
      → Inv g h
      → Owns g sd p h
      → Post (AfterRead sd p) Reads (
          (if is_nonpositive (result_size got) then pure (pos 1) else shrink g p) k
            (record h {
              partners = update h.partners p (record {
                sd = out;
                bufsize = result_size got;
                buf = live (filled page_size got);
              });
            })
            t)
  read_rest-Post none k h t p sd out v at = (update-InvBut g p h _ (Inv-InvBut g p h v), at)
  read_rest-Post (some []) k h t p sd out v at = (update-InvBut g p h _ (Inv-InvBut g p h v), at)
  read_rest-Post (some (b ∷ bs)) k h t p sd out v at =
      shrink-Post k _ t p sd out (length bs) _ (update-InvBut g p h _ (Inv-InvBut g p h v)) at
        (update_same _ _ _) (omega (arith, length-append {0} bs))

  pub handle_read-Post :
      (k : Kernel) (h : TProxy g) (t : Trace) (p sd : ℕ)
      → Inv g h
      → Owns g sd p h
      → Post (AfterRead sd p) Reads (handle_read g sd p k h t)
  unfolding handle_read
  handle_read-Post k h t p sd v at = elim (Option-cases (k.memory t page_size)) [
    | inl e ↦ simp (e, ◌>>=◌) tt
    | inr (m, e) ↦
        simp (e, set_epoll_lem, ◌>>=◌) (read_rest-Post _ k h _ p sd (h.partners p).sd v at)
  ]

  pub sized_payload : (z : ℤ) (b : Buffer) → IsSized z b → (bs : Bytes) × (payload b z ≡ some bs)
  unfolding payload
  sized_payload (pos zero) b s = ([], refl)
  sized_payload (pos (suc n)) null s = absurd s
  sized_payload (pos (suc n)) (live bs) s = (take (suc n) bs, ground arith)
  sized_payload (pos (suc n)) (freed bs) s = absurd s
  sized_payload (negsuc n) b s = absurd s

  pub handle_write-Post :
      (k : Kernel) (h : TProxy g) (t : Trace) (sd out me : ℕ)
      → Inv g h
      → g.lookup out h.hashmap ≡ some me
      → Post (λ _ h'. Inv g h') Reads (handle_write g sd out me k h t)
  unfolding handle_write
  handle_write-Post k h t sd out me v at =
      let m = h.partners me in
      let (bs, full) = sized_payload m.bufsize m.buf (v.coherent out me at) in
      elim (Option-cases (free (memset_zero 0 m.buf))) [
        | inl e ↦ simp (full, e, ◌>>=◌) (λ q. cc)
        | inr (b, e) ↦
            simp (full, e, set_epoll_lem, ◌>>=◌) (update-Inv g me h _ tt (Inv-InvBut g me h v))
      ]
