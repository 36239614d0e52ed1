-- ===== src/SimpleTcp/Standalone/Start.antt =====
-- How a client that simpletcp/simpletcp-main.c runs starts, on a machine that has what it needs.
use shadow_tor_eavesdropping.Base.{
  ℕ, suc, ◌^◌, ◌==◌, ltb, true, false, some, List, [], ◌∷◌, pos, Bytes, codes, ◌≡◌, ◌≢◌, refl, ap,
  ◌∙◌, inl, inr, Bool-cases, eq_false, eq_true,
}
use shadow_tor_eavesdropping.Sys.{Kernel, Trace, Call, Timeval, ok, ◌>>=◌, minus_one, epollout}
use shadow_tor_eavesdropping.Glib.{HashTable}
use shadow_tor_eavesdropping.Resolve.{
  Strings, last_addr, last_found, look_up, find_addr, dns_query, port_of, loopback_addr,
}
use shadow_tor_eavesdropping.SimpleTcp.State.{SimpleTcp, socks5_init}
use shadow_tor_eavesdropping.SimpleTcp.Arguments.{Numbers}
use shadow_tor_eavesdropping.SimpleTcp.New.{
  hostname_max_len, client_mode, fresh_state, own_hostname, finish_start, bring_up_client,
  client_state, new_client, new_mode, open_epoll, with_mode, asked_mode, simpletcp_new,
}
use shadow_tor_eavesdropping.SimpleTcp.Packets.{htons}
use shadow_tor_eavesdropping.SimpleTcp.Handshake.{HoldsName}
use shadow_tor_eavesdropping.SimpleTcp.Speeches.{said}
use shadow_tor_eavesdropping.SimpleTcp.Started.{IsNamed, IsPort}
use shadow_tor_eavesdropping.SimpleTcp.Standalone.Turns.{
  awaited, slept, IsLively, new_socket, start_trace, start_client_lem,
}

-- How many epoll sets were asked for.
unfoldable pub sets : Trace → ℕ
sets [] = 0
sets (Call.epoll_create n ∷ t) = suc (sets t)
sets (_ ∷ t) = sets t

-- A machine on which a client can start: it has memory, every name has an address that is not the
-- pattern of -1, and the first two epoll sets get descriptors that differ, of which the first is
-- not 0.
pub record HasResources (k : Kernel) : Type 0 where
  pub allocates : (t : Trace) (n : ℕ) → (block : Bytes) × (k.memory t n ≡ some block)
  pub resolves :
      (t : Trace) (host : Bytes)
      → (ltb (k.returns t (Call.getaddrinfo host)) (2 ^ 31) ≡ true)
        × (ip : ℕ) × (last_addr (k.addresses t host) ≡ some ip)
        × (ip ≢ minus_one)
  pub own_set : ℕ
  pub main_set : ℕ
  pub own_real : own_set ≢ 0
  pub own_made : own_set ≢ minus_one
  pub main_made : main_set ≢ minus_one
  pub sets_differ : own_set ≢ main_set
  pub first_set : (t : Trace) → sets t ≡ 0 → k.returns t (Call.epoll_create 1) ≡ own_set
  pub second_set : (t : Trace) → sets t ≡ 1 → k.returns t (Call.epoll_create 1) ≡ main_set

-- Calls that say nothing, do not sleep and make no epoll set.
abbrev pub Aside : Trace → Trace → Type 0
Aside t t' = (said t' ≡ said t) × (slept t' ≡ slept t) × (sets t' ≡ sets t)

Aside-trans : (t t' t'' : Trace) → Aside t t' → Aside t' t'' → Aside t t''
Aside-trans t t' t'' (a, b, c) (a', b', c') = (a' ∙ a, b' ∙ b, c' ∙ c)

-- An argument `host:port` whose host is not the name `none`.
abbrev pub IsAddress : Strings → Bytes → Type 0
IsAddress lib address =
    (text : Bytes) × ((lib.strsep_colon address).1 ≡ some text)
    × (lib.strncasecmp_equal (lib.strsep_colon address).0 (codes "none") 4 ≡ false)

module _ (g : HashTable Timeval) (lib : Strings) (k : Kernel) (machine : HasResources k) where
  dns_query_lem :
      (host : Bytes) (h : SimpleTcp g) (t : Trace)
      → lib.strncasecmp_equal host (codes "none") 4 ≡ false
      → (ip : ℕ) × (t' : Trace) × (dns_query lib host k h t ≡ ok ip h t')
        × ((ip == minus_one) ≡ false)
        × Aside t t'
  unfolding dns_query find_addr look_up last_found said slept sets
  dns_query_lem host h t named =
      elim (Bool-cases (lib.strncasecmp_equal host (codes "localhost") 9)) [
        | inl loop ↦ (loopback_addr, t, simp (named, loop, ◌>>=◌), refl, (refl, refl, refl))
        | inr not_loop ↦ elim (Bool-cases (lib.strncasecmp_equal host (codes "any") 9)) [
          | inl wild ↦ (0, t, simp (named, not_loop, wild, ◌>>=◌), refl, (refl, refl, refl))
          | inr not_wild ↦
              let (fine, ip, last, real) = machine.resolves t host in
              (
                ip,
                Call.getaddrinfo host ∷ t,
                simp (named, not_loop, not_wild, fine, last, ◌>>=◌),
                eq_false ip minus_one real,
                (refl, refl, refl),
              )
        ]
      ]

  own_hostname_lem :
      (name : Bytes) (h : SimpleTcp g) (t : Trace)
      → IsNamed k name
      → (block : Bytes) × (t' : Trace) × (own_hostname g k h t ≡ ok (some block) h t')
        × HoldsName block name
        × Aside t t'
  unfolding own_hostname said slept sets
  own_hostname_lem name h t named =
      let t1 : Trace = Call.allocate hostname_max_len ∷ t in
      let (held, fine) = named t1 in
      (
        k.hostname t1 hostname_max_len,
        Call.gethostname hostname_max_len ∷ t1,
        simp ((machine.allocates t hostname_max_len).1, fine, ◌>>=◌),
        held,
        (refl, refl, refl),
      )

  port_of_lem :
      (address text : Bytes) (h : SimpleTcp g) (t : Trace)
      → (lib.strsep_colon address).1 ≡ some text
      → port_of lib (lib.strsep_colon address).1 k h t ≡ ok (htons (lib.atoi text)) h t
  unfolding port_of
  port_of_lem address text h t found = simp found

  -- A client that was made: its socket is awaited.
  abbrev pub IsMade : ℕ → ℕ → ℕ → Bytes → Bytes → ℕ → SimpleTcp g → Trace → Type 0
  IsMade n smin smax server name ed h t =
      HoldsName h.hostname name
      × (h.client_nconn ≡ pos (suc n))
      × (h.client_sleep_min ≡ smin)
      × (h.client_sleep_max ≡ smax)
      × (h.client_socks5_status ≡ socks5_init)
      × (h.is_done ≡ 0)
      × (h.ed ≡ ed)
      × IsPort g lib k name server h.client_server_port
      × (awaited h.ed t ≡ (h.client_sd, epollout) ∷ [])

  module _ (lively : IsLively k) where
    bring_up_client_lem :
        (h : SimpleTcp g) (t : Trace)
        → bring_up_client g lib k h t
          ≡ ok true (record h { client_sd = new_socket k t }) (start_trace h (new_socket k t) t)
    unfolding bring_up_client finish_start
    bring_up_client_lem h t = simp (start_client_lem g k h t lively, ◌>>=◌)

    new_client_lem :
        (n smin smax ed : ℕ) (block proxy server name : Bytes) (h : SimpleTcp g) (t : Trace)
        → HoldsName block name
        → IsAddress lib proxy
        → IsAddress lib server
        → (h' : SimpleTcp g) × (t' : Trace) × (new_client g lib ed block proxy server
              (pos (suc n))
              (pos smin)
              (pos smax)
              k
              h
              t
            ≡ ok true h' t')
          × IsMade n smin smax server name ed h' t'
          × Aside t t'
    unfolding new_client client_state fresh_state awaited said slept sets
    new_client_lem n smin smax ed block proxy server name h t held (text, cut, real)
          (text', cut', real') =
        let (a, t1, ran1, a_real, aside1) = dns_query_lem (lib.strsep_colon server).0 h t real' in
        let (c, t2, ran2, c_real, aside2) = dns_query_lem (lib.strsep_colon proxy).0 h t1 real in
        let b = htons (lib.atoi text') in
        let d = htons (lib.atoi text) in
        let h3 = client_state g ed block (pos (suc n)) (pos smin) (pos smax) a b c d in
        (
          record h3 { client_sd = new_socket k t2 },
          start_trace h3 (new_socket k t2) t2,
          simp
              (
                ran1,
                port_of_lem server text' h t1 cut',
                ran2,
                port_of_lem proxy text h t2 cut,
                a_real,
                c_real,
                ◌>>=◌,
              )
              (bring_up_client_lem h3 t2),
          (held, refl, refl, refl, refl, refl, refl, (text', cut', refl), simp (eq_true ed)),
          Aside-trans t t1 t2 aside1 aside2,
        )

    module _ (numbers : Numbers) (n smin smax : ℕ) (server proxy name : Bytes)
        (named : IsNamed k name) (found : IsAddress lib proxy) (found' : IsAddress lib server) where
      pub simpletcp_new_lem :
          (argv : List Bytes) (h : SimpleTcp g)
          → asked_mode lib numbers argv
            ≡ some (client_mode proxy server (pos (suc n)) (pos smin) (pos smax))
          → (h' : SimpleTcp g) × (t' : Trace) × (simpletcp_new g lib numbers argv k h []
              ≡ ok true h' t')
            × IsMade n smin smax server name machine.own_set h' t'
            × (said t' ≡ [])
            × (slept t' ≡ [])
            × (sets t' ≡ 1)
      unfolding simpletcp_new with_mode open_epoll new_mode said slept sets
      simpletcp_new_lem argv h asked =
          let (block, t1, ran1, held, (spoke1, dozed1, count1)) =
            own_hostname_lem name h [] named in
          let t2 : Trace = Call.epoll_create 1 ∷ t1 in
          let ed = machine.own_set in
          let (h3, t3, ran3, is_made, (spoke3, dozed3, count3)) =
            new_client_lem n smin smax ed block proxy server name h t2 held found found' in
          (
            h3,
            t3,
            simp
                (
                  asked,
                  ran1,
                  machine.first_set t1 count1,
                  eq_false ed minus_one machine.own_made,
                  ◌>>=◌,
                )
                ran3,
            is_made,
            spoke3 ∙ spoke1,
            dozed3 ∙ dozed1,
            count3 ∙ ap suc count1,
          )
