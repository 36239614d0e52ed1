-- ===== src/SimpleTcp/Leak.antt =====
-- What simpletcp/simpletcp.c leaves open when a client cannot be made.
use shadow_tor_eavesdropping.Base.{
  ℕ, suc, ◌+◌, ◌^◌, ◌==◌, ◌||◌, ltb, Bool, true, false, some, List, [], ◌∷◌, ℤ, Bytes, codes, ◌≡◌,
  ◌⊎◌, inl, inr, refl, ◌∙◌, arith, Bool-cases,
}
use shadow_tor_eavesdropping.Sys.{Kernel, Trace, Call, Outcome, Timeval, ok, minus_one, ◌>>=◌}
use shadow_tor_eavesdropping.Glib.{HashTable}
use shadow_tor_eavesdropping.Resolve.{
  Strings, none_addr, loopback_addr, any_addr, dns_query, find_addr, look_up, last_addr, last_found,
  port_of,
}
use shadow_tor_eavesdropping.SimpleTcp.Packets.{htons}
use shadow_tor_eavesdropping.TProxy.Closing.{closes}
use shadow_tor_eavesdropping.SimpleTcp.State.{SimpleTcp}
use shadow_tor_eavesdropping.SimpleTcp.Arguments.{Numbers}
use shadow_tor_eavesdropping.SimpleTcp.New.{
  client_mode, client_state, new_client, new_mode, hostname_max_len, own_hostname, open_epoll,
  with_mode, asked_mode, simpletcp_new,
}

-- How many epoll descriptors were asked for.
unfoldable pub epolls : Trace → ℕ
epolls [] = 0
epolls (Call.epoll_create n ∷ t) = suc (epolls t)
epolls (_ ∷ t) = epolls t

module _ (lib : Strings) (k : Kernel) where
  -- A name without an address: it begins with `none`, or it is none of the names that stand for an
  -- address, and `getaddrinfo` fails.
  abbrev pub IsUnknown : Bytes → Type 0
  IsUnknown host =
      (lib.strncasecmp_equal host (codes "none") 4 ≡ true)
      ⊎ ((lib.strncasecmp_equal host (codes "localhost") 9 ≡ false)
          × (lib.strncasecmp_equal host (codes "any") 9 ≡ false)
          × ((t : Trace) → ltb (k.returns t (Call.getaddrinfo host)) (2 ^ 31) ≡ false))

  -- A `getaddrinfo` that does not fail finds an address.
  abbrev pub Answers : Type 0
  Answers =
      (t : Trace) (host : Bytes)
      → ltb (k.returns t (Call.getaddrinfo host)) (2 ^ 31) ≡ true
      → (ip : ℕ) × (last_addr (k.addresses t host) ≡ some ip)

  -- An argument `host:port`.
  abbrev pub IsPlace : Bytes → Type 0
  IsPlace address = (text : Bytes) × ((lib.strsep_colon address).1 ≡ some text)

  module _ (answers : Answers) (g : HashTable Timeval) where
    -- Nothing was closed, and no descriptor for epoll was asked for.
    abbrev Quiet : Trace → Trace → Type 0
    Quiet t t' = (closes t' ≡ closes t) × (epolls t' ≡ epolls t)

    dns_query_lem :
        (host : Bytes) (h : SimpleTcp g) (t : Trace)
        → (ip : ℕ) × (t' : Trace) × (dns_query lib host k h t ≡ ok ip h t')
          × Quiet t t'
          × (IsUnknown host → ip ≡ minus_one)
    unfolding dns_query find_addr look_up last_found closes epolls
    dns_query_lem host h t = elim (Bool-cases (lib.strncasecmp_equal host (codes "none") 4)) [
      | inl nothing ↦ (none_addr, t, simp (nothing, ◌>>=◌), (refl, refl), λ u. refl)
      | inr thing ↦ elim (Bool-cases (lib.strncasecmp_equal host (codes "localhost") 9)) [
        | inl loop ↦ (
          loopback_addr,
          t,
          simp (thing, loop, ◌>>=◌),
          (refl, refl),
          λ u. elim u [ inl e ↦ absurd cc | inr (e, e', e'') ↦ absurd cc ],
        )
        | inr not_loop ↦ elim (Bool-cases (lib.strncasecmp_equal host (codes "any") 9)) [
          | inl wild ↦ (
            any_addr,
            t,
            simp (thing, not_loop, wild, ◌>>=◌),
            (refl, refl),
            λ u. elim u [ inl e ↦ absurd cc | inr (e, e', e'') ↦ absurd cc ],
          )
          | inr named ↦ elim (Bool-cases (ltb (k.returns t (Call.getaddrinfo host)) (2 ^ 31))) [
            | inl fine ↦
                let (ip, last) = answers t host fine in
                (
                  ip,
                  Call.getaddrinfo host ∷ t,
                  simp (thing, not_loop, named, fine, last, ◌>>=◌),
                  (refl, refl),
                  λ u. elim u [
                    | inl e ↦ absurd cc
                    | inr (e, e', fails) ↦ let failed = fails t in absurd cc
                  ],
                )
            | inr lost ↦ (
              minus_one,
              Call.getaddrinfo host ∷ t,
              simp (thing, not_loop, named, lost, ◌>>=◌),
              (refl, refl),
              λ u. refl,
            )
          ]
        ]
      ]
    ]

    unknown-or :
        (server proxy : Bytes) (a b : ℕ)
        → (IsUnknown server → a ≡ minus_one)
        → (IsUnknown proxy → b ≡ minus_one)
        → IsUnknown server ⊎ IsUnknown proxy
        → (a == minus_one || b == minus_one) ≡ true
    unknown-or server proxy a b from_a from_b (inl u) = let e = from_a u in ground arith
    unknown-or server proxy a b from_a from_b (inr u) = let e = from_b u in ground arith

    -- The end of a start that returns a null pointer, has closed nothing, and has asked for as many
    -- descriptors for epoll as it says.
    abbrev pub Leaves : ℕ → Trace → Outcome (SimpleTcp g) Bool → Type 0
    Leaves n t o =
        (h' : SimpleTcp g) × (t' : Trace) × (o ≡ ok false h' t')
        × (closes t' ≡ closes t)
        × (epolls t' ≡ n + epolls t)

    new_client-Leaves :
        (ed : ℕ) (block proxy server : Bytes) (nconn smin smax : ℤ) (h : SimpleTcp g) (t : Trace)
        → IsPlace server
        → IsPlace proxy
        → IsUnknown (lib.strsep_colon server).0 ⊎ IsUnknown (lib.strsep_colon proxy).0
        → Leaves 0 t (new_client g lib ed block proxy server nconn smin smax k h t)
    unfolding new_client port_of
    new_client-Leaves ed block proxy server nconn smin smax h t (text, port) (text', port')
          unknown =
        let (a, t1, ran1, (closed1, asked1), gives1) =
          dns_query_lem (lib.strsep_colon server).0 h t in
        let (b, t2, ran2, (closed2, asked2), gives2) =
          dns_query_lem (lib.strsep_colon proxy).0 h t1 in
        let lost =
          unknown-or (lib.strsep_colon server).0 (lib.strsep_colon proxy).0 a b gives1 gives2
            unknown in
        let h' =
          client_state g ed block nconn smin smax a (htons (lib.atoi text)) b
            (htons (lib.atoi text')) in
        (
          h',
          t2,
          simp (ran1, port, ran2, port', lost, ◌>>=◌),
          closed2 ∙ closed1,
          omega (arith, asked1, asked2),
        )

    own_hostname_lem :
        (block : Bytes) (h : SimpleTcp g) (t : Trace)
        → k.memory t hostname_max_len ≡ some block
        → (k.returns (Call.allocate hostname_max_len ∷ t) (Call.gethostname hostname_max_len)
            == minus_one)
          ≡ false
        → own_hostname g k h t
          ≡ ok
              (some (k.hostname (Call.allocate hostname_max_len ∷ t) hostname_max_len))
              h
              (Call.gethostname hostname_max_len ∷ Call.allocate hostname_max_len ∷ t)
    unfolding own_hostname
    own_hostname_lem block h t mem fine = simp mem (rw fine refl)

    -- If the arguments ask for a client, the proxy and the server are given as `host:port`, one of
    -- the two hosts is a name without an address, a `getaddrinfo` that does not fail finds an
    -- address, there is memory for the name of the host, `gethostname` gives it, and `epoll_create`
    -- gives a descriptor, then `simpletcp_new` returns a null pointer and has closed nothing: the
    -- one descriptor for epoll that it has asked for stays open.
    pub simpletcp_new-Leaves :
        (numbers : Numbers) (argv : List Bytes) (block proxy server : Bytes) (nconn smin smax : ℤ)
        (h : SimpleTcp g) (t : Trace)
        → asked_mode lib numbers argv ≡ some (client_mode proxy server nconn smin smax)
        → IsPlace server
        → IsPlace proxy
        → IsUnknown (lib.strsep_colon server).0 ⊎ IsUnknown (lib.strsep_colon proxy).0
        → k.memory t hostname_max_len ≡ some block
        → ((t' : Trace) → (k.returns t' (Call.gethostname hostname_max_len) == minus_one) ≡ false)
        → ((t' : Trace) → (k.returns t' (Call.epoll_create 1) == minus_one) ≡ false)
        → Leaves 1 t (simpletcp_new g lib numbers argv k h t)
    unfolding simpletcp_new with_mode open_epoll new_mode closes epolls
    simpletcp_new-Leaves numbers argv block proxy server nconn smin smax h t asked at_server
          at_proxy unknown mem named makes =
        let t1 : Trace = Call.gethostname hostname_max_len ∷ Call.allocate hostname_max_len ∷ t in
        let c = Call.epoll_create 1 in
        let own = own_hostname_lem block h t mem (named (Call.allocate hostname_max_len ∷ t)) in
        let made_epoll = makes t1 in
        let name = k.hostname (Call.allocate hostname_max_len ∷ t) hostname_max_len in
        let (h', t', ran, closed, made) =
          new_client-Leaves (k.returns t1 c) name proxy server nconn smin smax h (c ∷ t1) at_server
            at_proxy unknown in
        (h', t', simp (asked, own, made_epoll, ◌>>=◌) ran, closed, omega (arith, made))
