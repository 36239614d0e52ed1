-- ===== src/TProxy/Lifetime.antt =====
-- The runs of tropeaproxy/tproxy.c from its start on.
use shadow_tor_eavesdropping.Base.{
  ℕ, ◌==◌, ◌/=◌, Bool, true, false, Option, none, some, List, [], ◌∷◌, Bytes, ◌≡◌, ◌≢◌, refl, ap,
  ◌∙◌, inl, inr, Bool-cases, Option-cases, arith,
}
use shadow_tor_eavesdropping.Sys.{
  Outcome, ok, exited, faulted, Kernel, M, Trace, Call, SockType, Post, >>=-Post, ◌>>=◌, pure,
  minus_one, epollin,
}
use shadow_tor_eavesdropping.Glib.{HashTable}
use shadow_tor_eavesdropping.TProxy.State.{TProxy}
use shadow_tor_eavesdropping.TProxy.Handlers.{tproxy_ready, max_clients}
use shadow_tor_eavesdropping.TProxy.Invariant.{Inv}
use shadow_tor_eavesdropping.TProxy.Safety.{activate_all-Inv}
use shadow_tor_eavesdropping.TProxy.Safety.Transfers.{Reads}
use shadow_tor_eavesdropping.Resolve.{Strings, dns_query, port_of}
use shadow_tor_eavesdropping.Resolve.Laws.{dns_query-Post, port_of-Post}
use shadow_tor_eavesdropping.Sys.Ends.{Ends, Post-Ends}
use shadow_tor_eavesdropping.Host.Turns.{Keeps, IfMade, IfRunning, main-IfRunning}
use shadow_tor_eavesdropping.TProxy.Startup.{
  prepare_to_trace, watch_reader, listen_reader, bind_reader, start_reader, tproxy_free, finish,
  fill, addresses, ports, bring_up, set_up, give_up, open_up, tproxy_new, tproxy_node, tproxy_main,
}

module _ (g : HashTable ℕ) where
  -- A table without entries, and what `tproxy_new` leaves.
  abbrev IsFresh : TProxy g → Type 0
  IsFresh h = h.hashmap ≡ g.new

  abbrev IsMade : Bool → TProxy g → Type 0
  IsMade true h = Inv g h
  IsMade false h = Unit

  absent : (h : TProxy g) (a p : ℕ) → IsFresh h → g.lookup a h.hashmap ≢ some p
  absent h a p e at =
      let gone : g.lookup a h.hashmap ≡ none = ap (g.lookup a) e ∙ g.lookup-new a in cc

  fresh-Inv : (h : TProxy g) → IsFresh h → Inv g h
  fresh-Inv h e = record {
    bounded = λ a p at. absurd (absent h a p e at);
    injective = λ a b p at also. absurd (absent h a p e at);
    coherent = λ a p at. absurd (absent h a p e at);
  }

  -- The loop of events keeps the invariant.
  tproxy_ready-Inv :
      (k : Kernel) (h : TProxy g) (t : Trace)
      → Inv g h
      → Post (λ _ h'. Inv g h') Reads (tproxy_ready g k h t)
  unfolding tproxy_ready
  tproxy_ready-Inv k h t v = elim (Option-cases (k.polls t (Call.epoll_wait h.ined max_clients))) [
    | inl failed ↦ simp failed v
    | inr (ready, polled) ↦ simp polled (activate_all-Inv g ready k h _ v)
  ]

  -- A part of the start before there is a state.
  abbrev Early : {A : Type 0} → M (TProxy g) A → Type 0
  Early m = (k : Kernel) (h : TProxy g) (t : Trace) → Post (λ _ _. Unit {0}) Reads (m k h t)

  Early->>= :
      {A B : Type 0} (m : M (TProxy g) A) (f : A → M (TProxy g) B)
      → Early m
      → ((a : A) → Early (f a))
      → Early (m >>= f)
  Early->>= m f first rest k h t =
      >>=-Post (λ _ _. Unit {0}) (λ _ _. Unit {0}) Reads m f k h t (first k h t)
        λ a h' t' p. rest a k h' t'

  addresses-Early :
      (lib : Strings) (own out logger : Bytes) → Early (addresses g lib own out logger)
  unfolding addresses
  addresses-Early lib own out logger =
      Early->>= (dns_query lib (lib.strsep_colon own).0)
        (λ a. dns_query lib (lib.strsep_colon out).0 >>= λ b.
          dns_query lib (lib.strsep_colon logger).0 >>= λ c. pure (a, b, c))
        (dns_query-Post Reads (λ e. cc) lib _)
        λ a.
          Early->>= (dns_query lib (lib.strsep_colon out).0)
            (λ b. dns_query lib (lib.strsep_colon logger).0 >>= λ c. pure (a, b, c))
            (dns_query-Post Reads (λ e. cc) lib _)
            λ b.
              Early->>= (dns_query lib (lib.strsep_colon logger).0) (λ c. pure (a, b, c))
                (dns_query-Post Reads (λ e. cc) lib _) λ c k h t. tt

  ports-Early : (lib : Strings) (own out logger : Bytes) → Early (ports g lib own out logger)
  unfolding ports
  ports-Early lib own out logger =
      Early->>= (port_of lib (lib.strsep_colon out).1)
        (λ a. port_of lib (lib.strsep_colon own).1 >>= λ b.
          port_of lib (lib.strsep_colon logger).1 >>= λ c. pure (b, a, c))
        (port_of-Post Reads (λ e. cc) lib _)
        λ a.
          Early->>= (port_of lib (lib.strsep_colon own).1)
            (λ b. port_of lib (lib.strsep_colon logger).1 >>= λ c. pure (b, a, c))
            (port_of-Post Reads (λ e. cc) lib _)
            λ b.
              Early->>= (port_of lib (lib.strsep_colon logger).1) (λ c. pure (b, a, c))
                (port_of-Post Reads (λ e. cc) lib _) λ c k h t. tt

  -- A part of the start with a state whose table is empty.
  abbrev KeepsFresh : M (TProxy g) ℕ → Type 0
  KeepsFresh m =
      (k : Kernel) (h : TProxy g) (t : Trace)
      → IsFresh h
      → Post (λ _ h'. IsFresh h') Reads (m k h t)

  watch_reader-KeepsFresh : (lib : Strings) (sd : ℕ) → KeepsFresh (watch_reader g lib sd)
  unfolding watch_reader
  watch_reader-KeepsFresh lib sd k h t e = ground arith

  listen_reader-KeepsFresh : (lib : Strings) (sd : ℕ) → KeepsFresh (listen_reader g lib sd)
  unfolding listen_reader
  listen_reader-KeepsFresh lib sd k h t e =
      elim (Bool-cases (k.returns t (Call.listen sd 10) /= 0)) [
        | inl failed ↦ simp (failed, ◌>>=◌) e
        | inr fine ↦ simp (fine, ◌>>=◌) (watch_reader-KeepsFresh lib sd k h _ e)
      ]

  bind_reader-KeepsFresh : (lib : Strings) (sd : ℕ) → KeepsFresh (bind_reader g lib sd)
  unfolding bind_reader
  bind_reader-KeepsFresh lib sd k h t e =
      elim (Bool-cases (k.returns t (Call.bind sd h.host_ip h.inport) /= 0)) [
        | inl failed ↦ simp (failed, ◌>>=◌) e
        | inr fine ↦ simp (fine, ◌>>=◌) (listen_reader-KeepsFresh lib sd k h _ e)
      ]

  start_reader-KeepsFresh : (lib : Strings) → KeepsFresh (start_reader g lib)
  unfolding start_reader
  start_reader-KeepsFresh lib k h t e =
      let sd = k.returns t (Call.socket SockType.stream) in
      let h' : TProxy g = record h { asockin = sd } in
      elim (Bool-cases (sd == minus_one)) [
        | inl failed ↦ simp (failed, ◌>>=◌) e
        | inr fine ↦ simp (fine, ◌>>=◌) (bind_reader-KeepsFresh lib sd k h' _ e)
      ]

  finish-IsMade :
      (lib : Strings) (r : ℕ) (k : Kernel) (h : TProxy g) (t : Trace)
      → IsFresh h
      → Post IsMade Reads (finish g lib r k h t)
  unfolding finish tproxy_free
  finish-IsMade lib r k h t e = elim (Bool-cases (r /= 0)) [
    | inl failed ↦ elim (Bool-cases (h.ined /= 0)) [
      | inl opened ↦ simp (failed, opened, ◌>>=◌) tt
      | inr none_open ↦ simp (failed, none_open, ◌>>=◌) tt
    ]
    | inr fine ↦ simp (fine, ◌>>=◌) (fresh-Inv h e)
  ]

  bring_up-IsMade :
      (lib : Strings) (ed : ℕ) (at through : ℕ × ℕ × ℕ) (argv : List Bytes) (k : Kernel)
      (h : TProxy g) (t : Trace)
      → Post IsMade Reads (bring_up g lib ed at through argv k h t)
  unfolding bring_up fill prepare_to_trace
  bring_up-IsMade lib ed at through argv k h t =
      >>=-Post (λ _ h'. IsFresh h') IsMade Reads (start_reader g lib) (finish g lib) k _ _
        (start_reader-KeepsFresh lib k _ _ refl) λ r h' t' e. finish-IsMade lib r k h' t' e

  set_up-IsMade :
      (lib : Strings) (ed : ℕ) (own out logger : Bytes) (argv : List Bytes) (k : Kernel)
      (h : TProxy g) (t : Trace)
      → Post IsMade Reads (set_up g lib ed own out logger argv k h t)
  unfolding set_up
  set_up-IsMade lib ed own out logger argv k h t =
      >>=-Post (λ _ _. Unit {0}) IsMade Reads (addresses g lib own out logger)
        (λ at. ports g lib own out logger >>= λ through. bring_up g lib ed at through argv) k h t
        (addresses-Early lib own out logger k h t)
        λ at h' t' p.
          >>=-Post (λ _ _. Unit {0}) IsMade Reads (ports g lib own out logger)
            (λ through. bring_up g lib ed at through argv) k h' t'
            (ports-Early lib own out logger k h' t')
            λ through h'' t'' q. bring_up-IsMade lib ed at through argv k h'' t''

  open_up-IsMade :
      (lib : Strings) (own out logger : Bytes) (argv : List Bytes) (k : Kernel) (h : TProxy g)
      (t : Trace)
      → Post IsMade Reads (open_up g lib own out logger argv k h t)
  unfolding open_up give_up
  open_up-IsMade lib own out logger argv k h t =
      let t' : Trace = Call.gethostname 1024 ∷ t in
      let ed = k.returns t' (Call.epoll_create max_clients) in
      elim (Bool-cases (ed == minus_one)) [
        | inl failed ↦ simp (failed, ◌>>=◌) tt
        | inr fine ↦ simp (fine, ◌>>=◌) (set_up-IsMade lib ed own out logger argv k h _)
      ]

  tproxy_new-IsMade :
      (lib : Strings) (argv : List Bytes) (k : Kernel) (h : TProxy g) (t : Trace)
      → Post IsMade Reads (tproxy_new g lib argv k h t)
  unfolding tproxy_new
  tproxy_new-IsMade lib [] k h t = tt
  tproxy_new-IsMade lib (a ∷ []) k h t = tt
  tproxy_new-IsMade lib (a ∷ b ∷ []) k h t = tt
  tproxy_new-IsMade lib (a ∷ b ∷ c ∷ []) k h t = tt
  tproxy_new-IsMade lib (a ∷ b ∷ c ∷ d ∷ rest) k h t =
      open_up-IsMade lib b c d (a ∷ b ∷ c ∷ d ∷ rest) k h t

  -- The program with the invariant, for the whole of `main`.
  pub tproxy_node-Keeps :
      (lib : Strings) (k : Kernel) → Keeps k (tproxy_node g lib) (pure false) (λ h _. Inv g h) Reads
  unfolding tproxy_free
  tproxy_node-Keeps lib k = record {
    own = λ h t c o v. v;
    served = λ h t v. Post-Ends Reads (λ _ h'. Inv g h') _ (tproxy_ready-Inv k h t v);
    checked = λ h t v. v;
    ended = λ h t v. ground arith;
  }

  made-IfMade :
      (o : Outcome (TProxy g) Bool) → Post IsMade Reads o → Ends (IfMade (λ h _. Inv g h)) Reads o
  made-IfMade (ok true h t) v = v
  made-IfMade (ok false h t) v = tt
  made-IfMade (exited c h t) v = tt
  made-IfMade (faulted e h t) v = v

  pub tproxy_new-IfMade :
      (lib : Strings) (argv : List Bytes) (k : Kernel) (h : TProxy g) (t : Trace)
      → Ends (IfMade (λ h' _. Inv g h')) Reads (tproxy_new g lib argv k h t)
  tproxy_new-IfMade lib argv k h t = made-IfMade _ (tproxy_new-IsMade lib argv k h t)

  abbrev pub IsStarted : Option ℕ → TProxy g → Type 0
  IsStarted r h = IfRunning (λ h _. Inv g h) r h []

  running-IsStarted :
      (o : Outcome (TProxy g) (Option ℕ))
      → Ends (IfRunning (λ h _. Inv g h)) Reads o
      → Post IsStarted Reads o
  running-IsStarted (ok none h t) v = v
  running-IsStarted (ok (some r) h t) v = tt
  running-IsStarted (exited c h t) v = tt
  running-IsStarted (faulted e h t) v = v

  -- For all arguments, all functions on strings, every kernel and whatever stood in memory before:
  -- when `main` has come through its start and any number of turns of its loop, and has not
  -- returned, the invariant holds; and if it ends in a fault, that is not a read from a message
  -- that is not there in full.
  pub live-IsStarted :
      (lib : Strings) (argv : List Bytes) (n : ℕ) (k : Kernel) (h : TProxy g) (t : Trace)
      → Post IsStarted Reads (tproxy_main g lib n argv k h t)
  unfolding tproxy_main
  live-IsStarted lib argv n k h t = running-IsStarted _ (
      main-IfRunning k (tproxy_node g lib) epollin (pure false) (λ h _. Inv g h) Reads
        (tproxy_node-Keeps lib k) n argv h t (tproxy_new-IfMade lib argv k h t))
