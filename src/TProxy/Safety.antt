-- ===== src/TProxy/Safety.antt =====
-- The invariant through the handlers of tropeaproxy/tproxy.c, on any kernel.
pub mod Transfers
pub mod Joining
use shadow_tor_eavesdropping.Base.{
  ℕ, zero, suc, ◌≤◌, ◌<◌, Bool, true, false, ◌&&◌, not, length-take_le, length-append, ◌==◌,
  if◌then◌else◌, Option, none, some, List, [], ◌∷◌, ℤ, pos, negsuc, length, ◌≡◌, ◌≢◌, refl, arith,
  Option-cases, Bool-cases, inl, inr, ltb, leb, Bytes, take,
}
use mathlib.Core.Path.{subst, sym}
use shadow_tor_eavesdropping.Sys.{
  Kernel, Trace, Call, SockType, Fault, bad_read, Outcome, ok, exited, faulted, Post, >>=-Post,
  Post-mono, pure, skip, has, epollin, epollout, ◌>>=◌, ◌>>◌,
}
use shadow_tor_eavesdropping.Glib.{HashTable}
use shadow_tor_eavesdropping.TProxy.Buffers.{Buffer, null, live, freed, free, payload, memset_zero}
use shadow_tor_eavesdropping.TProxy.State.{Partner, TProxy, update, update_same}
use shadow_tor_eavesdropping.TProxy.Package.{build_trace_package, udp_trace}
use shadow_tor_eavesdropping.Sys.{or_fault}
use shadow_tor_eavesdropping.TProxy.Epoll.{reset_epoll, set_epoll}
use shadow_tor_eavesdropping.TProxy.Handlers.{
  link, disaster_recovery, forget, close_connections, shrink, handle_read, handle_write, admit,
  refuse, connect_out, handle_new_connection, settle, read_from, write_to, on_input, on_output,
  activate_tproxy, activate_all, tproxy_ready, is_nonzero, page_size, result_size, filled,
  is_nonpositive, is_null,
}
use shadow_tor_eavesdropping.TProxy.Relay.{set_epoll_lem}
use shadow_tor_eavesdropping.TProxy.Invariant.{
  IsSized, IsCoherent, Inv, InvBut, Inv-InvBut, update-InvBut, update-Inv, remove-Inv, link-Inv,
  link-Owns, kept, Owns,
}
use Transfers.{Reads, AfterRead, handle_read-Post, handle_write-Post, close_connections-Post}
use Joining.{clear_done, handle_new_connection-Post}

module _ (g : HashTable ℕ) where
  -- What the rest of the activation of `sd` relies on, for the partner that was looked up first.
  abbrev Kept : ℕ → Option ℕ → TProxy g → Type 0
  Kept sd none h = Inv g h
  Kept sd (some p) h = Inv g h × Owns g sd p h × (p < h.next)

  Kept-start : (h : TProxy g) (sd : ℕ) → Inv g h → Kept sd (g.lookup sd h.hashmap) h
  Kept-start h sd v = elim (Option-cases (g.lookup sd h.hashmap)) [
    | inl e ↦ rw e v
    | inr (p, e) ↦ rw e (v, λ a f. v.injective a sd p f e, v.bounded sd p e)
  ]

  is_done-Inv : (h : TProxy g) (d : ℕ) → Inv g h → Inv g (record h { is_done = d })
  is_done-Inv h d v = record { bounded = v.bounded; injective = v.injective; coherent = v.coherent }

  clear_done-Kept :
      (sd : ℕ) (partner : Option ℕ) (h : TProxy g)
      → Kept sd partner h
      → Kept sd partner (clear_done g h)
  clear_done-Kept sd partner h v = elim (Bool-cases (h.is_done == 1)) [
    | inl e ↦ rw e (zero_done partner v)
    | inr e ↦ rw e v
  ]
    where
      zero_done : (o : Option ℕ) → Kept sd o h → Kept sd o (record h { is_done = 0 })
      zero_done none w = is_done-Inv h 0 w
      zero_done (some p) w = (is_done-Inv h 0 w.0, w.1, w.2)

  link-Kept :
      (sd : ℕ) (partner : Option ℕ) (h : TProxy g) (cin cout : ℕ)
      → Unit {0}
      → Unit {0}
      → Kept sd partner h
      → Kept sd partner (link g cin cout h)
  unfolding link
  link-Kept sd none h cin cout _ _ v = link-Inv g h cin cout v
  link-Kept sd (some p) h cin cout _ _ v =
      (link-Inv g h cin cout v.0, link-Owns g h cin cout sd p v.2 v.1, omega (arith, v.2))

  -- What holds behind a branch: the invariant, and that `sd` alone has the partner.
  abbrev Held : ℕ → Option ℕ → TProxy g → Type 0
  Held sd none h = Inv g h
  Held sd (some p) h = Inv g h × Owns g sd p h

  Kept-Held : (sd : ℕ) (partner : Option ℕ) (h : TProxy g) → Kept sd partner h → Held sd partner h
  Kept-Held sd none h v = v
  Kept-Held sd (some p) h v = (v.0, v.1)

  AfterRead-Post :
      (res : ℤ) (k : Kernel) (h : TProxy g) (t : Trace) (sd p : ℕ)
      → AfterRead g sd p res h
      → Post (λ _ h'. Held sd (some p) h') Reads (settle g sd p res k h t)
  unfolding settle
  AfterRead-Post (pos zero) k h t sd p v = v
  AfterRead-Post (pos (suc n)) k h t sd p v = close_connections-Post g k h t sd p v.0 v.1
  AfterRead-Post (negsuc n) k h t sd p v = tt

  read_from-Post :
      (partner : Option ℕ) (k : Kernel) (h : TProxy g) (t : Trace) (sd : ℕ)
      → Held sd partner h
      → Post (λ _ h'. Held sd partner h') Reads (read_from g sd partner k h t)
  unfolding read_from
  read_from-Post none k h t sd v = λ e. cc
  read_from-Post (some p) k h t sd v =
      >>=-Post (AfterRead g sd p) (λ _ h'. Held sd (some p) h') Reads (handle_read g sd p)
        (settle g sd p) k h t (handle_read-Post g k h t p sd v.0 v.1)
        (λ res h' t' a. AfterRead-Post res k h' t' sd p a)

  on_input-Post :
      (partner : Option ℕ) (k : Kernel) (h : TProxy g) (t : Trace) (sd : ℕ)
      → Kept sd partner h
      → Post (λ _ h'. Held sd partner h') Reads (on_input g sd partner k h t)
  unfolding on_input
  on_input-Post partner k h t sd v = elim (Bool-cases (sd == h.asockin)) [
    | inl e ↦
        simp (e, ◌>>=◌)
          (Post-mono (λ _ h'. Kept sd partner h') (λ _ h'. Held sd partner h') Reads _
            (λ _ h'. Kept-Held sd partner h')
            (handle_new_connection-Post g k (λ _. Unit {0}) (Kept sd partner) (λ _ _. tt) (λ _. tt)
              (link-Kept sd partner) h t sd (clear_done-Kept sd partner h v)))
    | inr e ↦ simp (e, ◌>>=◌) (read_from-Post partner k h t sd (Kept-Held sd partner h v))
  ]

  write_to-Post :
      (me : Option ℕ) (k : Kernel) (h : TProxy g) (t : Trace) (sd p other : ℕ)
      → Held sd (some p) h
      → g.lookup other h.hashmap ≡ me
      → Post (λ _ h'. Inv g h') Reads (write_to g sd p other me k h t)
  unfolding write_to
  write_to-Post none k h t sd p other v at = elim (Bool-cases (h.is_done == 1)) [
    | inl e ↦
        simp (e, ◌>>=◌)
          (Post-mono (λ _ h'. Inv g h' × Owns g sd p h') (λ _ h'. Inv g h') Reads _ (λ _ h' q. q.0)
            (close_connections-Post g k h t sd p (Inv-InvBut g p h v.0) v.1))
    | inr e ↦ simp (e, ◌>>=◌) tt
  ]
  write_to-Post (some me) k h t sd p other v at =
      >>=-Post (λ _ h'. Inv g h') (λ _ h'. Inv g h') Reads (handle_write g sd other me) (λ _. skip)
        k h t (handle_write-Post g k h t sd other me v.0 at) (λ _ h' t' q. q)

  on_output-Post :
      (partner : Option ℕ) (k : Kernel) (h : TProxy g) (t : Trace) (sd : ℕ)
      → Held sd partner h
      → Post (λ _ h'. Inv g h') Reads (on_output g sd partner k h t)
  unfolding on_output
  on_output-Post none k h t sd v = λ e. cc
  on_output-Post (some p) k h t sd v = write_to-Post _ k h t sd p _ v refl

  Held-Inv : (partner : Option ℕ) (sd : ℕ) (h : TProxy g) → Held sd partner h → Inv g h
  Held-Inv none sd h v = v
  Held-Inv (some p) sd h v = v.0

  -- The two branches of an activation, one after the other.
  branches-Post :
      (i o : Bool) (partner : Option ℕ) (k : Kernel) (h : TProxy g) (t : Trace) (sd : ℕ)
      → Kept sd partner h
      → Post
          (λ _ h'. Inv g h')
          Reads
          (((if i then on_input g sd partner else skip)
              >> (if o then on_output g sd partner else skip))
            k h t)
  branches-Post i o partner k h t sd v =
      >>=-Post (λ _ h'. Held sd partner h') (λ _ h'. Inv g h') Reads
        (if i then on_input g sd partner else skip)
        (λ _. if o then on_output g sd partner else skip) k h t (first i)
        (λ _ h' t' q. second o h' t' q)
    where
      first :
          (b : Bool)
          → Post
              (λ _ h'. Held sd partner h')
              Reads
              ((if b then on_input g sd partner else skip) k h t)
      first true = on_input-Post partner k h t sd v
      first false = Kept-Held sd partner h v

      second :
          (b : Bool) (h' : TProxy g) (t' : Trace)
          → Held sd partner h'
          → Post (λ _ h'. Inv g h') Reads ((if b then on_output g sd partner else skip) k h' t')
      second true h' t' q = on_output-Post partner k h' t' sd q
      second false h' t' q = Held-Inv partner sd h' q

  pub activate_tproxy-Post :
      (k : Kernel) (h : TProxy g) (t : Trace) (sd events : ℕ)
      → Inv g h
      → Post (λ _ h'. Inv g h') Reads (activate_tproxy g sd events k h t)
  unfolding activate_tproxy
  activate_tproxy-Post k h t sd events v =
      elim (Bool-cases (is_null (g.lookup sd h.hashmap) && not (sd == h.asockin))) [
        | inl e ↦ simp (e, ◌>>=◌) tt
        | inr e ↦
            simp (e, ◌>>=◌)
              (branches-Post (has events epollin) (has events epollout) _ k h t sd
                (Kept-start h sd v))
      ]

  -- Whatever the kernel answers and whatever descriptors are ready: if the invariant holds before
  -- the loop over them and the loop returns, it holds after it, and if the loop ends in a fault,
  -- that is not a read from a message that is not there in full.
  pub activate_all-Inv :
      (ready : List (ℕ × ℕ)) (k : Kernel) (h : TProxy g) (t : Trace)
      → Inv g h
      → Post (λ _ h'. Inv g h') Reads (activate_all g ready k h t)
  unfolding activate_all
  activate_all-Inv [] k h t v = v
  activate_all-Inv ((sd, events) ∷ rest) k h t v =
      >>=-Post (λ _ h'. Inv g h') (λ _ h'. Inv g h') Reads (activate_tproxy g sd events)
        (λ _. activate_all g rest) k h t (activate_tproxy-Post k h t sd events v)
        (λ _ h' t' q. activate_all-Inv rest k h' t' q)
