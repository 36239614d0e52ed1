-- ===== src/TProxy/Refinement.antt =====
-- The handlers of tropeaproxy/tproxy.c as steps on the table of connections.
use mathlib.Core.Path.{fun_ext, subst}
use shadow_tor_eavesdropping.Base.{
  ℕ, zero, suc, ◌<◌, ◌==◌, ◌&&◌, not, if◌then◌else◌, Bool, true, false, Option, none, some, List,
  [], ◌∷◌, ℤ, pos, negsuc, ◌≡◌, ◌⊎◌, refl, sym, arith, All, Bool-cases, Option-cases, inl, inr,
}
use shadow_tor_eavesdropping.Sys.Ends.{AnyFault}
use shadow_tor_eavesdropping.Sys.{
  Outcome, ok, exited, faulted, Kernel, Trace, M, Call, SockType, Fault, Post, >>=-Post, Post-mono,
  pure, skip, has, epollin, epollout, ◌>>=◌,
}
use shadow_tor_eavesdropping.Glib.{HashTable}
use shadow_tor_eavesdropping.TProxy.Buffers.{free, payload, memset_zero}
use shadow_tor_eavesdropping.TProxy.State.{Partner, TProxy, update}
use shadow_tor_eavesdropping.TProxy.Handlers.{
  link, disaster_recovery, forget, close_connections, shrink, handle_read, handle_write, settle,
  read_from, write_to, on_input, on_output, activate_tproxy, activate_all, is_nonzero, page_size,
  is_null, size,
}
use shadow_tor_eavesdropping.TProxy.Relay.{set_epoll_lem}
use shadow_tor_eavesdropping.TProxy.Safety.Transfers.{Reads}
use shadow_tor_eavesdropping.TProxy.Safety.Joining.{clear_done, handle_new_connection-Post}
use shadow_tor_eavesdropping.TProxy.Invariant.{kept, link_lookup}
use shadow_tor_eavesdropping.TProxy.Peers.{Peers, joined, without, Steps, peers}

Post-AnyFault :
    {S A : Type 0} (Q : A → S → Type 0) (E : Fault → Type 0) (o : Outcome S A)
    → Post Q E o
    → Post Q AnyFault o
Post-AnyFault Q E (ok a s t) p = p
Post-AnyFault Q E (exited c s t) p = p
Post-AnyFault Q E (faulted e s t) p = tt

module _ (g : HashTable ℕ) (N P : ℕ → Type 0) (m : Peers) where
  -- The addresses of the table were handed out, and the steps have led here.
  abbrev IsReached : TProxy g → Type 0
  IsReached h = ((a p : ℕ) → g.lookup a h.hashmap ≡ some p → p < h.next) × Steps N P m (peers h)

  -- A write that leaves the other end as it is.
  update-peers :
      (h : TProxy g) (p : ℕ) (v : Partner)
      → v.sd ≡ (h.partners p).sd
      → peers {g = g} (record h { partners = update h.partners p v }) ≡ peers h
  unfolding peers update
  update-peers h p v e = fun_ext λ j. ground arith

  remove-peers :
      (h : TProxy g) (sd d : ℕ)
      → peers {g = g} (record h { hashmap = g.remove sd h.hashmap; is_done = d })
        ≡ without sd (peers h)
  unfolding peers without
  remove-peers h sd d = fun_ext λ j. ground (arith, g.lookup-remove sd j h.hashmap)

  link-peers :
      (h : TProxy g) (cin cout : ℕ)
      → ((a p : ℕ) → g.lookup a h.hashmap ≡ some p → p < h.next)
      → peers (link g cin cout h) ≡ joined cin cout (peers h)
  unfolding peers joined link update
  link-peers h cin cout bounded = fun_ext λ j. elim (Option-cases (g.lookup j h.hashmap)) [
    | inl e ↦ at_new j e
    | inr (p, e) ↦ at_old j p e (bounded j p e)
  ]
    where
      at_new :
          (j : ℕ)
          → g.lookup j h.hashmap ≡ none
          → peers (link g cin cout h) j ≡ joined cin cout (peers h) j
      at_new j e = ground (
        arith,
        g.lookup-replace cout j h.next (g.replace cin (suc h.next) h.hashmap),
        g.lookup-replace cin j (suc h.next) h.hashmap,
      )

      at_old :
          (j p : ℕ)
          → g.lookup j h.hashmap ≡ some p
          → p < h.next
          → peers (link g cin cout h) j ≡ joined cin cout (peers h) j
      at_old j p e lt = ground (
        arith,
        g.lookup-replace cout j h.next (g.replace cin (suc h.next) h.hashmap),
        g.lookup-replace cin j (suc h.next) h.hashmap,
      )

  update-IsReached :
      (h : TProxy g) (p : ℕ) (v : Partner)
      → v.sd ≡ (h.partners p).sd
      → IsReached h
      → IsReached (record h { partners = update h.partners p v })
  update-IsReached h p v e (bounded, s) =
      (bounded, subst (Steps N P m) (sym (update-peers h p v e)) s)

  remove-IsReached :
      (h : TProxy g) (sd d : ℕ)
      → P sd
      → IsReached h
      → IsReached (record h { hashmap = g.remove sd h.hashmap; is_done = d })
  remove-IsReached h sd d at (bounded, s) = (
    λ a p e. bounded a p (kept g sd a p h.hashmap e),
    subst (Steps N P m) (sym (remove-peers h sd d)) (Steps.closed sd at s),
  )

  link-IsReached :
      (h : TProxy g) (cin cout : ℕ) → N cin → N cout → IsReached h → IsReached (link g cin cout h)
  unfolding link
  link-IsReached h cin cout i o (bounded, s) = (
    λ a p e. at a p (link_lookup g h cin cout a p e),
    subst (Steps N P m) (sym (link-peers h cin cout bounded)) (Steps.opened cin cout i o s),
  )
    where
      at :
          (a p : ℕ)
          → (p ≡ h.next × a ≡ cout) ⊎ (p ≡ suc h.next × a ≡ cin) ⊎ (g.lookup a h.hashmap ≡ some p)
          → p < suc (suc h.next)
      at a p (inl q) = omega arith
      at a p (inr (inl q)) = omega arith
      at a p (inr (inr old)) = omega (arith, bounded a p old)

  -- A run that leads on.
  abbrev Leads : {A : Type 0} → M (TProxy g) A → Type 0
  Leads run =
      (k : Kernel) (h : TProxy g) (t : Trace)
      → IsReached h
      → Post (λ _ h'. IsReached h') AnyFault (run k h t)

  disaster_recovery-Leads : (p : ℕ) → Leads (disaster_recovery g p)
  unfolding disaster_recovery
  disaster_recovery-Leads p k h t v = elim (Option-cases (free (h.partners p).buf)) [
    | inl e ↦ simp (e, ◌>>=◌) tt
    | inr (b, e) ↦ simp (e, ◌>>=◌) (update-IsReached h p _ refl v)
  ]

  close_connections-Leads : (sd p : ℕ) → P sd → Leads (close_connections g sd p)
  unfolding close_connections
  close_connections-Leads sd p at k h t v = elim (Bool-cases (is_nonzero (h.partners p).bufsize)) [
    | inl e ↦ rw e (
        >>=-Post (λ _ h'. IsReached h') (λ _ h'. IsReached h') AnyFault (disaster_recovery g p)
          (λ _. forget g sd) k h _ (disaster_recovery-Leads p k h _ v)
          (λ _ h' t' q. remove-IsReached h' sd 1 at q))
    | inr e ↦ simp (e, ◌>>=◌) (remove-IsReached h sd 1 at v)
  ]

  shrink-Leads : (p : ℕ) → Leads (shrink g p)
  unfolding shrink
  shrink-Leads p k h t v = elim (Option-cases (k.memory t (size (h.partners p).bufsize))) [
    | inl e ↦ simp (e, ◌>>=◌) (update-IsReached h p _ refl v)
    | inr (b, e) ↦ simp (e, ◌>>=◌) (update-IsReached h p _ refl v)
  ]

  read_rest-Leads : (b : Bool) (p : ℕ) → Leads (if b then pure (pos 1) else shrink g p)
  read_rest-Leads true p k h t v = v
  read_rest-Leads false p k h t v = shrink-Leads p k h t v

  handle_read-Leads : (sd p : ℕ) → Leads (handle_read g sd p)
  unfolding handle_read
  handle_read-Leads sd p k h t v = elim (Option-cases (k.memory t page_size)) [
    | inl e ↦ simp (e, ◌>>=◌) (update-IsReached h p _ refl v)
    | inr (b, e) ↦
        simp (e, set_epoll_lem, ◌>>=◌) (read_rest-Leads _ p k _ _ (update-IsReached h p _ refl v))
  ]

  handle_write-Leads : (sd out me : ℕ) → Leads (handle_write g sd out me)
  unfolding handle_write
  handle_write-Leads sd out me k h t v =
      let w = h.partners me in
      elim (Option-cases (payload w.buf w.bufsize)) [
        | inl e ↦ simp (e, ◌>>=◌) tt
        | inr (bs, full) ↦ elim (Option-cases (free (memset_zero 0 w.buf))) [
          | inl e ↦ simp (full, e, ◌>>=◌) tt
          | inr (b, e) ↦ simp (full, e, set_epoll_lem, ◌>>=◌) (update-IsReached h me _ refl v)
        ]
      ]

  settle-Leads : (sd p : ℕ) (res : ℤ) → P sd → Leads (settle g sd p res)
  unfolding settle
  settle-Leads sd p (pos zero) at k h t v = v
  settle-Leads sd p (pos (suc n)) at k h t v = close_connections-Leads sd p at k h t v
  settle-Leads sd p (negsuc n) at k h t v = tt

  read_from-Leads : (sd : ℕ) (partner : Option ℕ) → P sd → Leads (read_from g sd partner)
  unfolding read_from
  read_from-Leads sd none at k h t v = tt
  read_from-Leads sd (some p) at k h t v =
      >>=-Post (λ _ h'. IsReached h') (λ _ h'. IsReached h') AnyFault (handle_read g sd p)
        (settle g sd p) k h t (handle_read-Leads sd p k h t v)
        (λ res h' t' q. settle-Leads sd p res at k h' t' q)

  write_to-Leads : (sd p other : ℕ) (me : Option ℕ) → P sd → Leads (write_to g sd p other me)
  unfolding write_to
  write_to-Leads sd p other none at k h t v = elim (Bool-cases (h.is_done == 1)) [
    | inl e ↦ simp (e, ◌>>=◌) (close_connections-Leads sd p at k h t v)
    | inr e ↦ simp (e, ◌>>=◌) tt
  ]
  write_to-Leads sd p other (some me) at k h t v =
      >>=-Post (λ _ h'. IsReached h') (λ _ h'. IsReached h') AnyFault (handle_write g sd other me)
        (λ _. skip) k h t (handle_write-Leads sd other me k h t v) (λ _ h' t' q. q)

  on_output-Leads : (sd : ℕ) (partner : Option ℕ) → P sd → Leads (on_output g sd partner)
  unfolding on_output
  on_output-Leads sd none at k h t v = tt
  on_output-Leads sd (some p) at k h t v = write_to-Leads sd p _ _ at k h t v

  module _ (k : Kernel) (new_in : (t : Trace) (sd : ℕ) → N (k.returns t (Call.accept sd)))
      (new_out : (t : Trace) → N (k.returns t (Call.socket SockType.stream))) where
    -- The same, on this kernel.
    abbrev LeadsOn : {A : Type 0} → M (TProxy g) A → Type 0
    LeadsOn run =
        (h : TProxy g) (t : Trace) → IsReached h → Post (λ _ h'. IsReached h') AnyFault (run k h t)

    clear_done-IsReached : (h : TProxy g) → IsReached h → IsReached (clear_done g h)
    unfolding peers
    clear_done-IsReached h v = elim (Bool-cases (h.is_done == 1)) [
      | inl e ↦ rw e v
      | inr e ↦ rw e v
    ]

    on_input-LeadsOn : (sd : ℕ) (partner : Option ℕ) → P sd → LeadsOn (on_input g sd partner)
    unfolding on_input
    on_input-LeadsOn sd partner at h t v = elim (Bool-cases (sd == h.asockin)) [
      | inl e ↦
          simp (e, ◌>>=◌)
            (Post-AnyFault (λ _ h'. IsReached h') Reads _
              (handle_new_connection-Post g k N IsReached new_in new_out link-IsReached h t sd
                (clear_done-IsReached h v)))
      | inr e ↦ simp (e, ◌>>=◌) (read_from-Leads sd partner at k h t v)
    ]

    branch-LeadsOn :
        (b : Bool) (run : M (TProxy g) (Unit {0})) → LeadsOn run → LeadsOn (if b then run else skip)
    branch-LeadsOn true run leads h t v = leads h t v
    branch-LeadsOn false run leads h t v = v

    activate_tproxy-LeadsOn : (sd events : ℕ) → P sd → LeadsOn (activate_tproxy g sd events)
    unfolding activate_tproxy
    activate_tproxy-LeadsOn sd events at h t v =
        elim (Bool-cases (is_null (g.lookup sd h.hashmap) && not (sd == h.asockin))) [
          | inl e ↦ simp (e, ◌>>=◌) tt
          | inr e ↦
              simp (e, ◌>>=◌)
                (>>=-Post (λ _ h'. IsReached h') (λ _ h'. IsReached h') AnyFault
                  (if has events epollin then on_input g sd (g.lookup sd h.hashmap) else skip)
                  (λ _.
                    if has events epollout then on_output g sd (g.lookup sd h.hashmap) else skip)
                  k h t (branch-LeadsOn (has events epollin) _ (on_input-LeadsOn sd _ at) h t v)
                  (λ _ h' t' q.
                    branch-LeadsOn (has events epollout) _ (on_output-Leads sd _ at k) h' t' q))
        ]

    activate_all-LeadsOn :
        (ready : List (ℕ × ℕ)) → All (λ e. P e.0) ready → LeadsOn (activate_all g ready)
    unfolding activate_all
    activate_all-LeadsOn [] at h t v = v
    activate_all-LeadsOn ((sd, events) ∷ rest) (p, at) h t v =
        >>=-Post (λ _ h'. IsReached h') (λ _ h'. IsReached h') AnyFault
          (activate_tproxy g sd events) (λ _. activate_all g rest) k h t
          (activate_tproxy-LeadsOn sd events p h t v)
          (λ _ h' t' q. activate_all-LeadsOn rest at h' t' q)

module _ (g : HashTable ℕ) (N P : ℕ → Type 0) where
  -- The loop over the descriptors that are ready implements steps on the table of connections: if
  -- all addresses in the table were handed out, the descriptors that `accept` and `socket` give are
  -- `N`, those that are ready are `P`, and the loop returns, then what it has made of the table of
  -- connections are steps that open connections between descriptors that are `N` and forget
  -- descriptors that are `P`.
  pub activate_all-Steps :
      (k : Kernel) (ready : List (ℕ × ℕ)) (h : TProxy g) (t : Trace)
      → ((t' : Trace) (sd : ℕ) → N (k.returns t' (Call.accept sd)))
      → ((t' : Trace) → N (k.returns t' (Call.socket SockType.stream)))
      → All (λ e. P e.0) ready
      → ((a p : ℕ) → g.lookup a h.hashmap ≡ some p → p < h.next)
      → Post (λ _ h'. Steps N P (peers h) (peers h')) AnyFault (activate_all g ready k h t)
  activate_all-Steps k ready h t new_in new_out at bounded =
      Post-mono (λ _ h'. IsReached g N P (peers h) h') (λ _ h'. Steps N P (peers h) (peers h'))
        AnyFault _ (λ _ h' v. v.1)
        (activate_all-LeadsOn g N P (peers h) k new_in new_out ready at h t (bounded, Steps.start))
