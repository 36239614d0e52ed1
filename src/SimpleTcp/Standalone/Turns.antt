-- ===== src/SimpleTcp/Standalone/Turns.antt =====
-- The turns of the main loop of simpletcp/simpletcp-main.c, for a client.
use shadow_tor_eavesdropping.Base.{
  ℕ, suc, ◌==◌, ◌/=◌, ◌&&◌, if◌then◌else◌, Option, some, List, [], ◌∷◌, ◌≡◌, false,
}
use shadow_tor_eavesdropping.Sys.{
  Kernel, M, Trace, Call, EpollOp, SockType, Timeval, ok, ◌>>=◌, minus_one, epollout, epollall,
  einprogress,
}
use shadow_tor_eavesdropping.Glib.{HashTable}
use shadow_tor_eavesdropping.Resolve.{Strings}
use shadow_tor_eavesdropping.Host.Main.{turns, turn, serve_node, clean_up}
use shadow_tor_eavesdropping.SimpleTcp.State.{SimpleTcp}
use shadow_tor_eavesdropping.SimpleTcp.Starting.{start_client, connect_client, watch}
use shadow_tor_eavesdropping.SimpleTcp.Arguments.{Numbers}
use shadow_tor_eavesdropping.SimpleTcp.Loop.{
  dispatch, dispatch_all, simpletcp_ready, simpletcp_is_done,
}
use shadow_tor_eavesdropping.SimpleTcp.New.{simpletcp_node}
use shadow_tor_eavesdropping.SimpleTcp.Standalone.{main_create_callback, simpletcp_check}

-- What the epoll set `ed` waits for, as it was registered last.
abbrev registered : EpollOp → ℕ → ℕ → List (ℕ × ℕ)
registered EpollOp.ctl_del sd events = []
registered _ sd events = (sd, events) ∷ []

unfoldable pub awaited : ℕ → Trace → List (ℕ × ℕ)
awaited ed [] = []
awaited ed (Call.epoll_ctl op ed' sd events ∷ t) =
    let rest = awaited ed t in if ed == ed' then registered op sd events else rest
awaited ed (_ ∷ t) = awaited ed t

-- The times for which the process slept, the last one first.
unfoldable pub slept : Trace → List ℕ
slept [] = []
slept (Call.usleep us ∷ t) = us ∷ slept t
slept (_ ∷ t) = slept t

-- A kernel on which a client comes on: sockets are made, connected and registered, and the socket
-- that was registered last is always ready for what it waits for.
pub record IsLively (k : Kernel) : Type 0 where
  pub makes : (t : Trace) → (k.returns t (Call.socket SockType.stream) == minus_one) ≡ false
  pub connects :
      (t : Trace) (sd ip port : ℕ)
      → (k.returns t (Call.connect sd ip port) == minus_one
          && k.errno (Call.connect sd ip port ∷ t) /= einprogress)
        ≡ false
  pub registers :
      (t : Trace) (ed sd events : ℕ)
      → (k.returns t (Call.epoll_ctl EpollOp.ctl_add ed sd events) == minus_one) ≡ false
  pub wakes :
      (t : Trace) (ed : ℕ)
      → (e : ℕ × ℕ) × (es : List (ℕ × ℕ)) × (k.polls t (Call.epoll_wait ed 100) ≡ some (e ∷ es))
  pub reports : (t : Trace) (ed : ℕ) → k.polls t (Call.epoll_wait ed 10) ≡ some (awaited ed t)

-- The calls of a client that connects, and the socket that it gets.
abbrev pub new_socket : Kernel → Trace → ℕ
new_socket k t = k.returns t (Call.socket SockType.stream)

abbrev pub start_trace : {g : HashTable Timeval} → SimpleTcp g → ℕ → Trace → Trace
start_trace h sd t =
    Call.epoll_ctl EpollOp.ctl_add h.ed sd epollout
    ∷ Call.connect sd h.client_proxy_ip h.client_proxy_port
    ∷ Call.socket SockType.stream
    ∷ t

pub start_client_lem :
    (g : HashTable Timeval) (k : Kernel) (h : SimpleTcp g) (t : Trace)
    → IsLively k
    → start_client g k h t
      ≡ ok 0 (record h { client_sd = new_socket k t }) (start_trace h (new_socket k t) t)
unfolding start_client connect_client watch
start_client_lem g k h t lively =
    let sd = new_socket k t in
    let t1 : Trace = Call.socket SockType.stream ∷ t in
    let t2 : Trace = Call.connect sd h.client_proxy_ip h.client_proxy_port ∷ t1 in
    simp (
      lively.makes t,
      lively.connects t1 sd h.client_proxy_ip h.client_proxy_port,
      lively.registers t2 h.ed sd epollout,
      ◌>>=◌,
    )

module _ (g : HashTable Timeval) (lib : Strings) (numbers : Numbers) (k : Kernel)
    (lively : IsLively k) (m : ℕ) where
  -- The calls with which a turn begins.
  abbrev pub waits : SimpleTcp g → Trace → Trace
  waits h t = Call.epoll_wait h.ed 10 ∷ Call.epoll_wait m 100 ∷ t

  abbrev pub looping : ℕ → M (SimpleTcp g) (Option ℕ)
  looping n =
      turns (simpletcp_node g lib numbers (main_create_callback g)) epollall (simpletcp_check g) n m

  ready_lem :
      (h : SimpleTcp g) (t : Trace) (events : ℕ) (h' : SimpleTcp g) (t' : Trace)
      → awaited h.ed t ≡ (h.client_sd, events) ∷ []
      → dispatch g (main_create_callback g) h.client_sd events k h (waits h t) ≡ ok tt h' t'
      → simpletcp_ready g (main_create_callback g) k h (Call.epoll_wait m 100 ∷ t) ≡ ok tt h' t'
  unfolding simpletcp_ready dispatch_all awaited
  ready_lem h t events h' t' due ran =
      simp (lively.reports (Call.epoll_wait m 100 ∷ t) h.ed, due, ran, ◌>>=◌)

  -- A turn that leaves something to do.
  pub turn_lem :
      (n : ℕ) (h : SimpleTcp g) (t : Trace) (events : ℕ) (h' : SimpleTcp g) (t' : Trace)
      → awaited h.ed t ≡ (h.client_sd, events) ∷ []
      → dispatch g (main_create_callback g) h.client_sd events k h (waits h t) ≡ ok tt h' t'
      → h'.is_done ≡ 0
      → looping (suc n) k h t ≡ looping n k h' t'
  unfolding turns turn serve_node simpletcp_check simpletcp_is_done
  turn_lem n h t events h' t' due ran going =
      simp ((lively.wakes t m).2, ready_lem h t events h' t' due ran, going, ◌>>=◌)

  -- The last turn.
  pub last_turn_lem :
      (n : ℕ) (h : SimpleTcp g) (t : Trace) (events : ℕ) (h' : SimpleTcp g) (t' : Trace)
      → awaited h.ed t ≡ (h.client_sd, events) ∷ []
      → dispatch g (main_create_callback g) h.client_sd events k h (waits h t) ≡ ok tt h' t'
      → h'.is_done ≡ 1
      → looping (suc n) k h t
        ≡ clean_up
            (simpletcp_node g lib numbers (main_create_callback g))
            epollall
            (simpletcp_check g)
            m
            k
            h'
            t'
  unfolding turns turn serve_node simpletcp_check simpletcp_is_done
  last_turn_lem n h t events h' t' due ran over =
      simp ((lively.wakes t m).2, ready_lem h t events h' t' due ran, over, ◌>>=◌)
