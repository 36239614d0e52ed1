-- ===== src/TProxy/Flow/Runs.antt =====
-- A connection through the main loop of tropeaproxy/tproxy.c, on a small machine.
use shadow_tor_eavesdropping.Base.{
  Bytes, Bool, ◌≡◌, not, List, ℕ, ◌==◌, ◌&&◌, if◌then◌else◌, true, none, some, [], ◌∷◌, codes,
  replicate, refl, arith, Bool-cases, inl, inr, length-replicate,
}
use shadow_tor_eavesdropping.Sys.{Trace, Kernel, Call, minus_one, epollin, epollout}
use shadow_tor_eavesdropping.Samples.{lower_case, talker}
use shadow_tor_eavesdropping.TProxy.Handlers.{is_null}
use shadow_tor_eavesdropping.TProxy.Relay.{HasMemory}
use shadow_tor_eavesdropping.TProxy.Watching.{IsEpoll, watched}
use shadow_tor_eavesdropping.TProxy.Flow.{IsAlternating, IsWaking}
use shadow_tor_eavesdropping.Resolve.{last_addr}
use shadow_tor_eavesdropping.TProxy.Startup.{tproxy_main}
use shadow_tor_eavesdropping.TProxy.Flow.Start.{HasSockets, streams}
use shadow_tor_eavesdropping.TProxy.Flow.Main.{Relays, tproxy_main-Relays}
use shadow_tor_eavesdropping.TProxy.Flow.Opening.{CanReport}
use shadow_tor_eavesdropping.TProxy.Scenarios.{table, pair}

-- The two ends speak in turns, the near one after an even number of calls.
abbrev even : {A : Type 0} → List A → Bool
even [] = true
even (x ∷ xs) = not (even xs)

-- The proxy listens on 4. A client is waiting, who gets 5; the connection to the server is on 6.
abbrev connecting : Kernel
connecting = record talker {
  returns = λ t c. elim c [
    | Call.epoll_ctl op ed sd events ↦ if is_null (watched ed t sd) then 0 else minus_one
    | Call.epoll_create n ↦ if n == 1 then 7 else 3
    | Call.socket type ↦ if streams t == 0 then 4 else 6
    | Call.accept sd ↦ 5
    | _ ↦ 0
  ];
  polls = λ t c. elim c [
    | Call.epoll_wait ed n ↦
        if n == 100
        then some ((ed, epollin) ∷ [])
        else if is_null (watched ed t 5) && is_null (watched ed t 6)
        then some ((4, epollin) ∷ [])
        else if is_null (watched ed t 5)
        then some ((6, epollout) ∷ [])
        else if is_null (watched ed t 6)
        then some ((5, epollout) ∷ [])
        else if even t
        then some ((5, epollin) ∷ [])
        else some ((6, epollin) ∷ [])
    | _ ↦ none
  ];
  addresses = λ t host. 16777343 ∷ [];
}

connecting-HasMemory : HasMemory connecting
connecting-HasMemory t n e = cc

connecting-IsWaking : IsWaking connecting
connecting-IsWaking t ed = ((ed, epollin), [], refl)

connecting-IsEpoll : IsEpoll connecting 3
connecting-IsEpoll t sd events = elim (Bool-cases (is_null (watched 3 t sd))) [
  | inl e ↦ simp e
  | inr e ↦ simp e
]

connecting-IsAlternating : IsAlternating connecting 3 5 6
connecting-IsAlternating = record {
  speaks = λ t (first, second). elim (Bool-cases (even t)) [
    | inl e ↦ inl (simp (first, second, e))
    | inr e ↦ inr (simp (first, second, e))
  ];
  listens = λ t (first, second). simp (first, second);
  listens_back = λ t (first, second). simp (second, first);
}

connecting-CanReport : CanReport connecting (codes "relay")
connecting-CanReport = record {
  block = λ t. replicate 512 170;
  allocates = λ t. refl;
  sized = λ t. length-replicate {A = ℕ} 512 170;
  host = λ t. refl;
  text = (omega arith, (omega arith, (omega arith, (omega arith, (omega arith, tt)))));
  short = omega arith;
  time = λ t. (omega arith, omega arith);
}

found_everywhere :
    (t : Trace) (host : Bytes) → (ip : ℕ) × (last_addr (connecting.addresses t host) ≡ some ip)
unfolding last_addr
found_everywhere t host = (16777343, refl)

abbrev connecting_sockets : HasSockets connecting
connecting_sockets = record {
  own_set = 3;
  main_set = 7;
  listener = 4;
  near = 5;
  far = 6;
  finds = found_everywhere;
  makes_own = λ t. refl;
  makes_main = λ t. refl;
  first_socket = λ t none_yet. simp none_yet;
  second_socket = λ t one. simp one;
  accepts = λ t sd. refl;
  binds = λ t sd ip port. refl;
  hears = λ t sd n. refl;
  adds = λ t ed sd events. elim (Bool-cases (is_null (watched ed t sd))) [
    | inl e ↦ simp e
    | inr e ↦ simp e
  ];
  reaches = λ t sd ip port. refl;
  own_real = omega arith;
  own_made = omega arith;
  main_made = omega arith;
  sets_differ = omega arith;
  listener_made = omega arith;
  ends_differ = omega arith;
  near_new = omega arith;
  far_new = omega arith;
}

abbrev proxy_arguments : List Bytes
proxy_arguments = codes "tproxy" ∷ codes "any:1080" ∷ codes "server:80" ∷ codes "logger:514" ∷ []

tproxy_main-Relays_example :
    Relays table lower_case connecting connecting_sockets
      (codes "relay")
      connecting-CanReport
      connecting-IsWaking
      connecting-HasMemory
      (λ t sd. (b'h', b'i' ∷ [], refl))
      3
      (tproxy_main table lower_case 7 proxy_arguments connecting pair [])
tproxy_main-Relays_example =
    tproxy_main-Relays table lower_case connecting connecting_sockets (codes "relay")
      connecting-CanReport connecting-IsWaking connecting-HasMemory
      (λ t sd. (b'h', b'i' ∷ [], refl)) 3 (codes "tproxy") (codes "any:1080") (codes "server:80")
      (codes "logger:514") [] pair (codes "1080", refl) (codes "80", refl) (codes "514", refl)
      connecting-IsEpoll connecting-IsAlternating λ t near far. simp (near, far)
