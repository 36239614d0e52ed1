-- ===== src/SimpleTcp/Visitors/Life.antt =====
-- The log of a server of simpletcp/simpletcp.c, from its arguments on.
use shadow_tor_eavesdropping.Base.{
  ℕ, ◌==◌, ◌/=◌, if◌then◌else◌, Option, none, some, List, [], ◌∷◌, take, ◌++◌, Bytes, ◌≡◌, refl,
  arith, Bool, true, false, inl, inr, Bool-cases, Option-cases, codes,
}
use shadow_tor_eavesdropping.Sys.{
  Kernel, M, Trace, Call, FileMode, SockType, EpollOp, Timeval, minus_one, ◌>>=◌, ◌>>◌, pure, put,
  epollin, epollall,
}
use shadow_tor_eavesdropping.Sys.Ends.{AnyFault, Ends, >>=-Ends}
use shadow_tor_eavesdropping.Glib.{HashTable}
use shadow_tor_eavesdropping.Resolve.{Strings, port_of}
use shadow_tor_eavesdropping.TProxy.Buffers.{strlen}
use shadow_tor_eavesdropping.Host.Turns.{Keeps, IsOwn, IfMade, IfRunning, main-IfRunning}
use shadow_tor_eavesdropping.SimpleTcp.State.{SimpleTcp}
use shadow_tor_eavesdropping.SimpleTcp.Arguments.{Numbers}
use shadow_tor_eavesdropping.SimpleTcp.Starting.{
  Later, inaddr_any, watch, listen_server, bind_server, start_server,
}
use shadow_tor_eavesdropping.SimpleTcp.Loop.{simpletcp_free, simpletcp_is_done}
use shadow_tor_eavesdropping.SimpleTcp.New.{
  server_mode, fresh_state, own_hostname, cut_hostname, finish_start, bring_up_server, close_log,
  new_server, server_path, new_mode, close_epoll, open_epoll, with_mode, asked_mode, simpletcp_new,
  simpletcp_node,
}
use shadow_tor_eavesdropping.SimpleTcp.Standalone.{
  main_create_callback, simpletcp_check, simpletcp_main,
}
use shadow_tor_eavesdropping.SimpleTcp.Visitors.{accepted, writes, IsServing, StaysServing, kept}
use shadow_tor_eavesdropping.SimpleTcp.Visitors.Events.{simpletcp_ready-Serves}

not_both : {A : Type 0} (o : Option A) (a : A) → o ≡ none → o ≡ some a → ⊥
not_both o a e f = ground arith

module _ (g : HashTable Timeval) (k : Kernel) where
  -- A part of the start, before there is a state.
  abbrev Early : {A : Type 0} → M (SimpleTcp g) A → Type 0
  Early m =
      (h : SimpleTcp g) (t : Trace)
      → writes t ≡ []
      → Ends (λ _ _ t'. writes t' ≡ []) AnyFault (m k h t)

  own_hostname-Early : Early (own_hostname g)
  unfolding own_hostname cut_hostname writes
  own_hostname-Early h t i = ground arith

  port_of-Early : (lib : Strings) (text : Option Bytes) → Early (port_of lib text)
  unfolding port_of
  port_of-Early lib none h t i = tt
  port_of-Early lib (some text) h t i = i

  start_server-Serves : StaysServing g k (start_server g)
  unfolding start_server bind_server listen_server watch writes accepted
  start_server-Serves h t i =
      let c = Call.socket SockType.stream in
      let sd = k.returns t c in
      let t1 : Trace = c ∷ t in
      let c1 = Call.bind sd inaddr_any h.server_bind_port in
      let t2 : Trace = c1 ∷ t1 in
      let t3 : Trace = Call.listen sd 100 ∷ t2 in
      let t4 : Trace = Call.epoll_ctl EpollOp.ctl_add h.ed sd epollin ∷ t3 in
      let j : (t' : Trace)
          → writes t' ≡ writes t
          → ((d : ℕ) → accepted k d t' ≡ accepted k d t)
          → IsServing g k (record h { server_sd = sd }) t' =
        λ t' e f. kept g k h (record h { server_sd = sd }) t t' refl refl i.at_rest refl e f i in
      elim (Bool-cases (sd == minus_one)) [
        | inl no_socket ↦ simp (no_socket, ◌>>=◌) (j t1 refl λ d. refl)
        | inr socket ↦ elim (Bool-cases (k.returns t1 c1 == minus_one)) [
          | inl not_bound ↦ simp (socket, not_bound, ◌>>=◌) (j t2 refl λ d. refl)
          | inr bound ↦ elim (Bool-cases (k.returns t2 (Call.listen sd 100) == minus_one)) [
            | inl deaf ↦ simp (socket, bound, deaf, ◌>>=◌) (j t3 refl λ d. refl)
            | inr listens ↦
                elim (Bool-cases
                  (k.returns t3 (Call.epoll_ctl EpollOp.ctl_add h.ed sd epollin) == minus_one)) [
                    | inl lost ↦ simp (socket, bound, listens, lost, ◌>>=◌) (j t4 refl λ d. refl)
                    | inr fine ↦ simp (socket, bound, listens, fine, ◌>>=◌) (j t4 refl λ d. refl)
                  ]
          ]
        ]
      ]

  free-Ends :
      (h : SimpleTcp g) (t : Trace) → Ends (λ _ _ _. Unit {0}) AnyFault (simpletcp_free g k h t)
  unfolding simpletcp_free
  free-Ends h t = ground arith

  finished-IfMade :
      (failed : Bool) (h : SimpleTcp g) (t : Trace)
      → IsServing g k h t
      → Ends
          (IfMade (IsServing g k))
          AnyFault
          ((if failed then (simpletcp_free g >>= λ _. pure false) else pure true) k h t)
  finished-IfMade true h t i =
      >>=-Ends (λ _ _ _. Unit {0}) (IfMade (IsServing g k)) AnyFault (simpletcp_free g)
        (λ _. pure false) k h t (free-Ends h t) λ a h' t' u. tt
  finished-IfMade false h t i = i

  finish_start-IfMade :
      (r : ℕ) (h : SimpleTcp g) (t : Trace)
      → IsServing g k h t
      → Ends (IfMade (IsServing g k)) AnyFault (finish_start g r k h t)
  unfolding finish_start
  finish_start-IfMade r h t i = finished-IfMade (r /= 0) h t i

  fresh-IsServing :
      (ed port : ℕ) (name path : Bytes) (t : Trace)
      → writes t ≡ []
      → IsServing g k
          (record (fresh_state g ed name) {
            server_log_path = path;
            server_hashtab = g.new;
            server_bind_port = port;
          })
          t
  unfolding fresh_state
  fresh-IsServing ed port name path t unwritten = record {
    visits = rw unwritten tt;
    timed = λ sd time found. absurd (not_both (g.lookup sd g.new) time (g.lookup-new sd) found);
    at_rest = refl;
    alone = refl;
  }

  module _ (lib : Strings) where
    bring_up_server-IfMade :
        (ed : ℕ) (name path own : Bytes) (h : SimpleTcp g) (t : Trace)
        → writes t ≡ []
        → Ends (IfMade (IsServing g k)) AnyFault (bring_up_server g lib ed name path own k h t)
    unfolding bring_up_server
    bring_up_server-IfMade ed name path own h t unwritten =
        let made : ℕ → SimpleTcp g = λ port. record (fresh_state g ed name) {
          server_log_path = path;
          server_hashtab = g.new;
          server_bind_port = port;
        } in
        >>=-Ends (λ _ _ t'. writes t' ≡ []) (IfMade (IsServing g k)) AnyFault
          (port_of lib (lib.strsep_colon own).1)
          (λ port. put (made port) >> (start_server g >>= finish_start g)) k h t
          (port_of-Early lib _ h t unwritten)
          λ port h1 t1 i1.
            >>=-Ends (λ _. IsServing g k) (IfMade (IsServing g k)) AnyFault (start_server g)
              (finish_start g) k (made port) t1
              (start_server-Serves (made port) t1 (fresh-IsServing ed port name path t1 i1))
              finish_start-IfMade

    new_server-IfMade :
        (ed : ℕ) (name own folder : Bytes) (h : SimpleTcp g) (t : Trace)
        → writes t ≡ []
        → Ends (IfMade (IsServing g k)) AnyFault (new_server g lib ed name own folder k h t)
    unfolding new_server server_path close_log writes
    new_server-IfMade ed name own folder h t unwritten = elim (Option-cases (strlen name)) [
      | inl endless ↦ simp (endless, ◌>>=◌) tt
      | inr (len, text) ↦
          let path = folder ++ codes "/" ++ take len name in
          let c = Call.open_file FileMode.truncating path in
          elim (Bool-cases (k.returns t c == minus_one)) [
            | inl failed ↦ simp (text, failed, ◌>>=◌) tt
            | inr fine ↦
                simp (text, fine, ◌>>=◌)
                  (bring_up_server-IfMade ed name path own h (Call.close (k.returns t c) ∷ c ∷ t)
                    unwritten)
          ]
    ]

    open_epoll-IfMade :
        (own folder : Bytes) (name : Option Bytes) (h : SimpleTcp g) (t : Trace)
        → writes t ≡ []
        → Ends
            (IfMade (IsServing g k))
            AnyFault
            (open_epoll g lib (server_mode own folder) name k h t)
    unfolding open_epoll new_mode close_epoll writes
    open_epoll-IfMade own folder none h t unwritten = tt
    open_epoll-IfMade own folder (some name) h t unwritten =
        let ed = k.returns t (Call.epoll_create 1) in
        elim (Bool-cases (ed == minus_one)) [
          | inl failed ↦ simp (failed, ◌>>=◌) tt
          | inr fine ↦
              simp (fine, ◌>>=◌)
                (new_server-IfMade ed name own folder h (Call.epoll_create 1 ∷ t) unwritten)
        ]

    simpletcp_new-IfMade :
        (numbers : Numbers) (argv : List Bytes) (own folder : Bytes) (h : SimpleTcp g)
        → asked_mode lib numbers argv ≡ some (server_mode own folder)
        → Ends (IfMade (IsServing g k)) AnyFault (simpletcp_new g lib numbers argv k h [])
    unfolding simpletcp_new with_mode writes
    simpletcp_new-IfMade numbers argv own folder h asked = rw asked (
        >>=-Ends (λ _ _ t'. writes t' ≡ []) (IfMade (IsServing g k)) AnyFault (own_hostname g)
          (open_epoll g lib (server_mode own folder)) k h [] (own_hostname-Early h [] refl)
          λ name h1 t1 i1. open_epoll-IfMade own folder name h1 t1 i1)

    module _ (numbers : Numbers) where
      own-Serves :
          (h : SimpleTcp g) (t : Trace) (c : Call)
          → IsOwn c
          → IsServing g k h t
          → IsServing g k h (c ∷ t)
      unfolding writes accepted
      own-Serves h t c o i =
          let j : (t' : Trace)
              → writes t' ≡ writes t
              → ((d : ℕ) → accepted k d t' ≡ accepted k d t)
              → IsServing g k h t' =
            λ t' e f. kept g k h h t t' refl refl i.at_rest refl e f i in
          elim c as (λ c'. IsOwn c' → IsServing g k h (c' ∷ t)) [
            | Call.epoll_create n ↦ λ u. j _ refl λ d. refl
            | Call.epoll_ctl op ed sd events ↦ λ u. j _ refl λ d. refl
            | Call.epoll_wait ed n ↦ λ u. j _ refl λ d. refl
            | Call.close sd ↦ λ u. j _ refl λ d. refl
            | _ ↦ λ u. absurd u
          ]
            o

      simpletcp_node-Keeps :
          (later : Later g)
          → Keeps k
              (simpletcp_node g lib numbers later)
              (simpletcp_check g)
              (IsServing g k)
              AnyFault
      unfolding simpletcp_check simpletcp_is_done
      simpletcp_node-Keeps later = record {
        own = own-Serves;
        served = simpletcp_ready-Serves g k later;
        checked = λ h t i. i;
        ended = λ h t i. free-Ends h t;
      }

      -- The log of a server only holds visits. If the arguments ask for a server, then, whatever the
      -- kernel answers, as long as `main` has not returned, each line that was written is the text
      -- that a `recv` had left in the message, and the time of the last `accept` that had given the
      -- descriptor of that `recv`; it was written to what `open` of the log file had given. The
      -- table holds, for a descriptor that it knows, the time of the last `accept` that gave it.
      pub server_main-IfRunning :
          (n : ℕ) (argv : List Bytes) (own folder : Bytes) (h : SimpleTcp g)
          → asked_mode lib numbers argv ≡ some (server_mode own folder)
          → Ends (IfRunning (IsServing g k)) AnyFault (simpletcp_main g lib numbers n argv k h [])
      unfolding simpletcp_main
      server_main-IfRunning n argv own folder h asked =
          main-IfRunning k (simpletcp_node g lib numbers (main_create_callback g)) epollall
            (simpletcp_check g) (IsServing g k) AnyFault
            (simpletcp_node-Keeps (main_create_callback g)) n argv h []
            (simpletcp_new-IfMade numbers argv own folder h asked)
