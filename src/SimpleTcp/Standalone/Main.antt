-- ===== src/SimpleTcp/Standalone/Main.antt =====
-- `main` of simpletcp/simpletcp-main.c for a client, from its arguments to its end.
use shadow_tor_eavesdropping.Base.{
  ℕ, suc, ◌+◌, ◌*◌, ◌==◌, ◌≤◌, false, Option, some, List, [], ◌∷◌, ◌++◌, pos, Bytes, ◌≡◌, ap, ◌∙◌,
  length, All, eq_false,
}
use mathlib.Core.List.{append-nil}
use shadow_tor_eavesdropping.Sys.{
  Kernel, Trace, Call, EpollOp, Timeval, Outcome, ok, ◌>>=◌, minus_one, epollall,
}
use shadow_tor_eavesdropping.Glib.{HashTable}
use shadow_tor_eavesdropping.Resolve.{Strings}
use shadow_tor_eavesdropping.Host.Main.{main, started, with_descriptor, watch_node}
use shadow_tor_eavesdropping.Host.Fuel.{IsFinal, main-Settles}
use shadow_tor_eavesdropping.SimpleTcp.State.{SimpleTcp}
use shadow_tor_eavesdropping.SimpleTcp.Arguments.{Numbers}
use shadow_tor_eavesdropping.SimpleTcp.New.{client_mode, asked_mode, simpletcp_node}
use shadow_tor_eavesdropping.SimpleTcp.Loop.{simpletcp_get_epoll_descriptor}
use shadow_tor_eavesdropping.SimpleTcp.Handshake.{IsWilling}
use shadow_tor_eavesdropping.SimpleTcp.Speeches.{said, AreBounds, speech, speeches}
use shadow_tor_eavesdropping.SimpleTcp.Started.{IsNamed, IsPort}
use shadow_tor_eavesdropping.SimpleTcp.Standalone.{
  main_create_callback, simpletcp_check, simpletcp_main,
}
use shadow_tor_eavesdropping.SimpleTcp.Standalone.Turns.{awaited, slept, IsLively, looping}
use shadow_tor_eavesdropping.SimpleTcp.Standalone.Start.{
  HasResources, IsAddress, IsMade, simpletcp_new_lem,
}
use shadow_tor_eavesdropping.SimpleTcp.Standalone.Rounds.{
  IsDoze, turns_for, turns_for_lem, rounds_lem,
}

module _ (g : HashTable Timeval) (lib : Strings) (k : Kernel) (machine : HasResources k)
    (lively : IsLively k) (numbers : Numbers) (n smin smax : ℕ) (server proxy name : Bytes)
    (named : IsNamed k name) (found : IsAddress lib proxy) (found' : IsAddress lib server) where
  -- The run has returned 0; `n + 1` connections were made, all to one address, with a sleep
  -- between two of them.
  abbrev pub Completes : Outcome (SimpleTcp g) (Option ℕ) → Type 0
  Completes o =
      (h : SimpleTcp g) × (t : Trace) × (ip : ℕ) × (port : ℕ) × (o ≡ ok (some 0) h t)
      × (said t ≡ speeches (suc n) (speech ip port name))
      × (length (slept t) ≡ n)
      × All (IsDoze smin smax) (slept t)
      × IsPort g lib k name server port

  looped_lem :
      (h : SimpleTcp g) (t : Trace)
      → IsWilling k
      → AreBounds smin smax
      → IsMade g lib k machine n smin smax server name machine.own_set h t
      → said t ≡ []
      → slept t ≡ []
      → Completes (
          looping g lib numbers k lively machine.main_set (turns_for n) k h (
            Call.epoll_ctl EpollOp.ctl_add machine.main_set h.ed epollall
            ∷ Call.epoll_create 1
            ∷ t))
  unfolding awaited said slept
  looped_lem h t willing bounds (held, nconn, low, high, at, going, own, port, due) spoke dozed =
      let m = machine.main_set in
      let t' : Trace = Call.epoll_ctl EpollOp.ctl_add m h.ed epollall ∷ Call.epoll_create 1 ∷ t in
      let apart : (h.ed == m) ≡ false = rw own (eq_false _ m machine.sets_differ) in
      let (h', t'', sleeps, ran, spoke', dozed', count, nice) =
        rounds_lem g lib numbers k lively m name willing n h t' held (rw (low, high) bounds)
          (rw own machine.own_real) at nconn going (simp apart due) in
      let all : slept t'' ≡ sleeps = dozed' ∙ ap (λ r. sleeps ++ r) dozed ∙ append-nil _ in
      (
        h',
        t'',
        h.client_server_ip,
        h.client_server_port,
        ran,
        spoke'
            ∙ ap (λ r. speeches (suc n) (speech h.client_server_ip h.client_server_port name) ++ r)
                spoke
            ∙ append-nil _,
        ap length all ∙ count,
        rw all (rw (low, high) at nice),
        port,
      )

  -- `main`, looked at for as many turns as there are.
  exact_main_lem :
      (argv : List Bytes) (h : SimpleTcp g)
      → asked_mode lib numbers argv
        ≡ some (client_mode proxy server (pos (suc n)) (pos smin) (pos smax))
      → IsWilling k
      → AreBounds smin smax
      → Completes (simpletcp_main g lib numbers (turns_for n) argv k h [])
  unfolding simpletcp_main main started with_descriptor watch_node simpletcp_get_epoll_descriptor
  exact_main_lem argv h asked willing bounds =
      let m = machine.main_set in
      let (h', t', ran, is_made, spoke, dozed, count) =
        simpletcp_new_lem g lib k machine lively numbers n smin smax server proxy name named found
          found' argv h asked in
      let (_, _, _, _, _, _, own, _, _) = is_made in
      simp
        (
          ran,
          machine.second_set t' count,
          eq_false m minus_one machine.main_made,
          eq_false h'.ed 0 (rw own machine.own_real),
          ◌>>=◌,
        )
        (looped_lem h' t' willing bounds is_made spoke dozed)

  settle_lem :
      (turns : ℕ) (argv : List Bytes) (h : SimpleTcp g)
      → turns_for n ≤ turns
      → Completes (simpletcp_main g lib numbers (turns_for n) argv k h [])
      → Completes (simpletcp_main g lib numbers turns argv k h [])
  unfolding simpletcp_main
  settle_lem turns argv h le (h', t', ip, port, ran, spoke, count, nice, address) =
      let final : IsFinal (simpletcp_main g lib numbers (turns_for n) argv k h []) = rw ran tt in
      (
        h',
        t',
        ip,
        port,
        main-Settles k (simpletcp_node g lib numbers (main_create_callback g)) epollall
              (simpletcp_check g) (turns_for n) turns argv h [] le final
            ∙ ran,
        spoke,
        count,
        nice,
        address,
      )

  -- A client on a machine of its own makes all its connections. If the arguments ask for
  -- `n + 1` connections and bounds on the sleep that are both 0 or of which the first is less,
  -- the proxy and the server are given as `host:port` with a host other than `none`, the name
  -- of the host fits the message, memory, names, sockets and epoll sets are to be had, sockets
  -- are ready for what the client waits for, and the proxy grants what it is asked, then
  -- `main`, looked at for `6 * n + 6` turns or more, returns 0. It has said greeting, request
  -- and name `n + 1` times and nothing else, and has slept `n` times within the bounds, in
  -- microseconds modulo 2^32; the port in the request is the one of the argument for the
  -- server.
  pub simpletcp_main-Completes :
      (turns : ℕ) (argv : List Bytes) (h : SimpleTcp g)
      → asked_mode lib numbers argv
        ≡ some (client_mode proxy server (pos (suc n)) (pos smin) (pos smax))
      → IsWilling k
      → AreBounds smin smax
      → 6 * n + 6 ≤ turns
      → Completes (simpletcp_main g lib numbers turns argv k h [])
  simpletcp_main-Completes turns argv h asked willing bounds le =
      settle_lem turns argv h (rw (turns_for_lem n) le) (exact_main_lem argv h asked willing bounds)
