-- ===== src/TProxy/Runs.antt =====
-- Runs of tropeaproxy/tproxy.c beside the table of connections and the epoll set.
use shadow_tor_eavesdropping.Base.{
  ◌≤◌, ◌<◌, ◌+◌, ◌==◌, if◌then◌else◌, [], ◌∷◌, pos, length, refl, arith, replicate, inl, inr,
  Bool-cases,
}
use shadow_tor_eavesdropping.Sys.{Kernel, Call, Post, minus_one, epollin, epollout}
use shadow_tor_eavesdropping.Sys.Ends.{Ends}
use shadow_tor_eavesdropping.Samples.{talker}
use shadow_tor_eavesdropping.TProxy.State.{TProxy}
use shadow_tor_eavesdropping.TProxy.Buffers.{null}
use shadow_tor_eavesdropping.TProxy.Handlers.{activate_all, handle_read, handle_write, is_null}
use shadow_tor_eavesdropping.TProxy.Peers.{Steps, peers}
use shadow_tor_eavesdropping.TProxy.Refinement.{activate_all-Steps}
use shadow_tor_eavesdropping.Sys.Ends.{Ends}
use shadow_tor_eavesdropping.TProxy.Watching.{
  IsEpoll, watched, AfterRead, AfterWrite, handle_read-AfterRead, handle_write-AfterWrite,
}
use shadow_tor_eavesdropping.TProxy.Scenarios.{table, partner_at, pair}

-- The proxy of `pair` with a connection from 8 to 9 besides.
abbrev pairs : TProxy table
pairs = record pair {
  hashmap = (9, 3) ∷ (8, 2) ∷ (6, 1) ∷ (5, 0) ∷ [];
  partners = λ p.
      if p == 2
      then record { sd = 9; bufsize = pos 0; buf = null }
      else if p == 3
      then record { sd = 8; bufsize = pos 0; buf = null }
      else partner_at p;
  next = 4;
}

activate_all-Steps_example :
    Post
      (λ _ h'. Steps (λ a. 10 ≤ a) (λ a. a < 7) (peers pairs) (peers h'))
      (λ e. Unit {0})
      (activate_all table ((5, epollin) ∷ (4, epollin) ∷ (6, epollout) ∷ []) talker pairs [])
activate_all-Steps_example =
    activate_all-Steps table (λ a. 10 ≤ a) (λ a. a < 7) talker
      ((5, epollin) ∷ (4, epollin) ∷ (6, epollout) ∷ []) pairs [] (λ t sd. omega arith)
      (λ t. omega arith) (omega arith, (omega arith, (omega arith, tt))) (λ a p e. ground arith)

-- A kernel with an epoll that refuses what is there.
abbrev pub watching : Kernel
watching = record talker {
  returns = λ t c. elim c [
    | Call.epoll_ctl op ed sd events ↦ if is_null (watched ed t sd) then 0 else minus_one
    | _ ↦ length t + 10
  ];
}

watching-IsEpoll : IsEpoll watching 3
watching-IsEpoll t sd events = elim (Bool-cases (is_null (watched 3 t sd))) [
  | inl e ↦ simp e
  | inr e ↦ simp e
]

handle_read-AfterRead_example :
    Ends (λ _ _. AfterRead 3 5 6 []) (λ e. Unit {0}) (handle_read table 5 0 watching pair [])
handle_read-AfterRead_example =
    handle_read-AfterRead table watching 3 watching-IsEpoll 5 0 (replicate 4096 170) pair [] refl
      refl

handle_write-AfterWrite_example :
    Ends (λ _ _. AfterWrite 3 6 5 []) (λ e. Unit {0}) (handle_write table 6 5 0 watching pair [])
handle_write-AfterWrite_example =
    handle_write-AfterWrite table watching 3 watching-IsEpoll 6 5 0 pair [] refl
