-- ===== src/SimpleTcp/Started.antt =====
-- A client of simpletcp/simpletcp.c, from its arguments to the last of its connections.
use shadow_tor_eavesdropping.Base.{
  ℕ, suc, ◌==◌, ◌||◌, if◌then◌else◌, Bool, true, false, Option, none, some, List, [], ◌∷◌, ◌++◌,
  pos, Bytes, length, ◌≡◌, refl, ap, ◌∙◌, inl, inr, Bool-cases, Option-cases, arith, All,
}
use shadow_tor_eavesdropping.Sys.{
  Kernel, M, Trace, Call, ok, Timeval, minus_one, ◌>>=◌, ◌>>◌, pure, put,
}
use shadow_tor_eavesdropping.Sys.Ends.{AnyFault, Ends, >>=-Ends, Ends-mono}
use shadow_tor_eavesdropping.Host.Turns.{IfMade}
use shadow_tor_eavesdropping.Glib.{HashTable}
use shadow_tor_eavesdropping.Resolve.{Strings, dns_query, find_addr, look_up, last_found, port_of}
use shadow_tor_eavesdropping.SimpleTcp.State.{SimpleTcp, socks5_init}
use shadow_tor_eavesdropping.SimpleTcp.Packets.{htons}
use shadow_tor_eavesdropping.SimpleTcp.Arguments.{Numbers}
use shadow_tor_eavesdropping.SimpleTcp.Loop.{simpletcp_free}
use shadow_tor_eavesdropping.SimpleTcp.Handshake.{HoldsName, IsWilling}
use shadow_tor_eavesdropping.SimpleTcp.Speeches.{said, naps, IsNap, AreBounds, speech, speeches}
use shadow_tor_eavesdropping.SimpleTcp.Rounds.{visits, visits_lem, start_client-IsQuiet}
use shadow_tor_eavesdropping.SimpleTcp.New.{
  hostname_max_len, client_mode, fresh_state, own_hostname, finish_start, bring_up_client,
  client_state, new_client, new_mode, close_epoll, open_epoll, with_mode, asked_mode, simpletcp_new,
}

-- Nothing was said yet, and no sleep was asked for.
abbrev Silent : Trace → Type 0
Silent t = (said t ≡ []) × (naps t ≡ [])

-- `gethostname` gives the host the name `name`.
abbrev pub IsNamed : Kernel → Bytes → Type 0
IsNamed k name =
    (t : Trace)
    → HoldsName (k.hostname t hostname_max_len) name
      × ((k.returns t (Call.gethostname hostname_max_len) == minus_one) ≡ false)

module _ (g : HashTable Timeval) (lib : Strings) (k : Kernel) (name : Bytes) where
  abbrev Early : {A : Type 0} → M (SimpleTcp g) A → Type 0
  Early m = (h : SimpleTcp g) (t : Trace) → Silent t → Ends (λ _ _. Silent) AnyFault (m k h t)

  -- The name of the host, as it was found.
  abbrev IfFound : Option Bytes → Type 0
  IfFound none = ⊥
  IfFound (some block) = HoldsName block name

  dns_query-Early : (host : Bytes) → Early (dns_query lib host)
  unfolding dns_query find_addr look_up last_found said naps
  dns_query-Early host h t i = ground arith

  port_of-Early : (text : Option Bytes) → Early (port_of lib text)
  unfolding port_of
  port_of-Early none h t i = tt
  port_of-Early (some text) h t i = i

  own_hostname-Early :
      (h : SimpleTcp g) (t : Trace)
      → IsNamed k name
      → Silent t
      → Ends (λ found _ t'. IfFound found × Silent t') AnyFault (own_hostname g k h t)
  unfolding own_hostname said naps
  own_hostname-Early h t named i =
      let t₁ = Call.allocate hostname_max_len ∷ t in
      let (held, fine) = named t₁ in
      elim (Option-cases (k.memory t hostname_max_len)) [
        | inl failed ↦ simp (failed, ◌>>=◌) tt
        | inr (block, made) ↦ simp (made, fine, ◌>>=◌) (held, i)
      ]

  -- The port behind the colon of an argument, as it is sent.
  abbrev pub IsPort : Bytes → ℕ → Type 0
  IsPort address port =
      (text : Bytes) × ((lib.strsep_colon address).1 ≡ some text) × (port ≡ htons (lib.atoi text))

  port_of-IsPort :
      (address : Bytes) (h : SimpleTcp g) (t : Trace)
      → Silent t
      → Ends
          (λ port _ t'. IsPort address port × Silent t')
          AnyFault
          (port_of lib (lib.strsep_colon address).1 k h t)
  unfolding port_of
  port_of-IsPort address h t i = elim (Option-cases (lib.strsep_colon address).1) [
    | inl e ↦ rw e tt
    | inr (text, e) ↦ rw e ((text, refl, refl), i)
  ]

  module _ (n smin smax : ℕ) (server : Bytes) where
    -- A client that is to make `n + 1` connections.
    abbrev IsClient : SimpleTcp g → Type 0
    IsClient h =
        HoldsName h.hostname name
        × (h.client_nconn ≡ pos (suc n))
        × (h.client_sleep_min ≡ smin)
        × (h.client_sleep_max ≡ smax)
        × (h.client_socks5_status ≡ socks5_init)
        × IsPort server h.client_server_port

    abbrev IsFresh : SimpleTcp g → Trace → Type 0
    IsFresh h t = IsClient h × Silent t

    finish_start-IfMade :
        (r : ℕ) (h : SimpleTcp g) (t : Trace)
        → IsFresh h t
        → Ends (IfMade IsFresh) AnyFault (finish_start g r k h t)
    unfolding finish_start simpletcp_free
    finish_start-IfMade r h t i = ground arith

    bring_up_client-IfMade :
        (h : SimpleTcp g) (t : Trace)
        → IsFresh h t
        → Ends (IfMade IsFresh) AnyFault (bring_up_client g lib k h t)
    unfolding bring_up_client
    bring_up_client-IfMade h t (c, (spoken, slept)) =
        let (r, sd, t', ran, napped, spoke) = start_client-IsQuiet g k h t in
        simp (ran, ◌>>=◌)
          (finish_start-IfMade r (record h { client_sd = sd }) t'
            (c, (spoke ∙ spoken, napped ∙ slept)))

    known-IfMade :
        (unknown : Bool) (h : SimpleTcp g) (t : Trace)
        → IsFresh h t
        → Ends
            (IfMade IsFresh)
            AnyFault
            ((if unknown then pure false else bring_up_client g lib) k h t)
    known-IfMade true h t i = tt
    known-IfMade false h t i = bring_up_client-IfMade h t i

    new_client-IfMade :
        (ed : ℕ) (block proxy : Bytes) (h : SimpleTcp g) (t : Trace)
        → HoldsName block name
        → Silent t
        → Ends
            (IfMade IsFresh)
            AnyFault
            (new_client g lib ed block proxy server (pos (suc n)) (pos smin) (pos smax) k h t)
    unfolding new_client client_state fresh_state
    new_client-IfMade ed block proxy h t held i =
        let made = client_state g ed block (pos (suc n)) (pos smin) (pos smax) in
        let last : ℕ → ℕ → ℕ → ℕ → M (SimpleTcp g) Bool =
          λ server_ip server_port proxy_ip proxy_port.
            put (made server_ip server_port proxy_ip proxy_port)
            >> (if server_ip == minus_one || proxy_ip == minus_one
                then pure false
                else bring_up_client g lib) in
        >>=-Ends (λ _ _. Silent) (IfMade IsFresh) AnyFault
          (dns_query lib (lib.strsep_colon server).0)
          (λ a. port_of lib (lib.strsep_colon server).1 >>= λ b.
            dns_query lib (lib.strsep_colon proxy).0 >>= λ c.
            port_of lib (lib.strsep_colon proxy).1 >>= last a b c)
          k h t (dns_query-Early _ h t i)
          λ a h₁ t₁ i₁.
            >>=-Ends (λ port _ t'. IsPort server port × Silent t') (IfMade IsFresh) AnyFault
              (port_of lib (lib.strsep_colon server).1)
              (λ b. dns_query lib (lib.strsep_colon proxy).0 >>= λ c.
                port_of lib (lib.strsep_colon proxy).1 >>= last a b c)
              k h₁ t₁ (port_of-IsPort server h₁ t₁ i₁)
              λ b h₂ t₂ (port, i₂).
                >>=-Ends (λ _ _. Silent) (IfMade IsFresh) AnyFault
                  (dns_query lib (lib.strsep_colon proxy).0)
                  (λ c. port_of lib (lib.strsep_colon proxy).1 >>= last a b c) k h₂ t₂
                  (dns_query-Early _ h₂ t₂ i₂)
                  λ c h₃ t₃ i₃.
                    >>=-Ends (λ _ _. Silent) (IfMade IsFresh) AnyFault
                      (port_of lib (lib.strsep_colon proxy).1) (last a b c) k h₃ t₃
                      (port_of-Early _ h₃ t₃ i₃)
                      λ d h₄ t₄ i₄.
                        known-IfMade (a == minus_one || c == minus_one) (made a b c d) t₄
                          ((held, refl, refl, refl, refl, port), i₄)

    open_epoll-IfMade :
        (proxy : Bytes) (found : Option Bytes) (h : SimpleTcp g) (t : Trace)
        → IfFound found
        → Silent t
        → Ends (IfMade IsFresh) AnyFault (
            open_epoll g lib
              (client_mode proxy server (pos (suc n)) (pos smin) (pos smax))
              found
              k
              h
              t)
    unfolding open_epoll new_mode close_epoll said naps
    open_epoll-IfMade proxy none h t held i = absurd held
    open_epoll-IfMade proxy (some block) h t held i =
        let ed = k.returns t (Call.epoll_create 1) in
        elim (Bool-cases (ed == minus_one)) [
          | inl failed ↦ simp (failed, ◌>>=◌) tt
          | inr fine ↦
              simp (fine, ◌>>=◌)
                (new_client-IfMade ed block proxy h (Call.epoll_create 1 ∷ t) held i)
        ]

    -- A client that was made does all that it was asked to.
    abbrev pub Serves : SimpleTcp g → Trace → Type 0
    Serves h t =
        (h' : SimpleTcp g) × (t' : Trace) × (sleeps : List ℕ) × (visits g n k h t ≡ ok tt h' t')
        × (h'.is_done ≡ 1)
        × (said t' ≡ speeches (suc n) (speech h.client_server_ip h.client_server_port name) ++ [])
        × (naps t' ≡ sleeps ++ [])
        × (length sleeps ≡ n)
        × All (IsNap smin smax) sleeps
        × IsPort server h.client_server_port

    IsFresh-Serves :
        (h : SimpleTcp g) (t : Trace) → IsWilling k → AreBounds smin smax → IsFresh h t → Serves h t
    IsFresh-Serves h t willing bounds ((held, nconn, low, high, at, port), (spoken, slept)) =
        let (h', t', sleeps, ran, done, spoke, napped, count, nice) =
          visits_lem g n k h t name willing held (rw (low, high) bounds) at nconn in
        (
          h',
          t',
          sleeps,
          ran,
          done,
          spoke
              ∙ ap
                  (λ r. speeches (suc n) (speech h.client_server_ip h.client_server_port name) ++ r)
                  spoken,
          napped ∙ ap (λ r. sleeps ++ r) slept,
          count,
          (rw (low, high) at nice),
          port,
        )

    made-Serves :
        (made : Bool) (h : SimpleTcp g) (t : Trace)
        → IsWilling k
        → AreBounds smin smax
        → IfMade IsFresh made h t
        → IfMade Serves made h t
    made-Serves true h t willing bounds i = IsFresh-Serves h t willing bounds i
    made-Serves false h t willing bounds i = tt

    -- If the arguments ask for a client with `n + 1` connections and bounds on the sleep that are
    -- both 0 or of which the first is less, the host has a name that fits the message, and the
    -- proxy grants what it is asked, then a client that `simpletcp_new` makes, given the events of
    -- `n + 1` connections with a wake-up between any two, returns and is done. Since the start of
    -- the program it has said greeting, request and name `n + 1` times and nothing else, and has
    -- asked for `n` sleeps within the bounds; and the port in the request is the one behind the
    -- colon of the argument for the server.
    pub simpletcp_new-Serves :
        (numbers : Numbers) (argv : List Bytes) (proxy : Bytes) (h : SimpleTcp g)
        → asked_mode lib numbers argv
          ≡ some (client_mode proxy server (pos (suc n)) (pos smin) (pos smax))
        → IsNamed k name
        → IsWilling k
        → AreBounds smin smax
        → Ends (IfMade Serves) AnyFault (simpletcp_new g lib numbers argv k h [])
    unfolding simpletcp_new with_mode said naps
    simpletcp_new-Serves numbers argv proxy h asked named willing bounds =
        let mode = client_mode proxy server (pos (suc n)) (pos smin) (pos smax) in
        let o = ((own_hostname g >>= open_epoll g lib mode) k h []) in
        let fresh : Ends (IfMade IsFresh) AnyFault o =
          >>=-Ends (λ found _ t'. IfFound found × Silent t') (IfMade IsFresh) AnyFault
            (own_hostname g) (open_epoll g lib mode) k h []
            (own_hostname-Early h [] named (refl, refl))
            λ found h' t' (held, i). open_epoll-IfMade proxy found h' t' held i in
        rw asked (
          Ends-mono (IfMade IsFresh) (IfMade Serves) AnyFault o
            (λ made h' t'. made-Serves made h' t' willing bounds) fresh)
