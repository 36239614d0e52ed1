-- ===== src/Host/Main.antt =====
-- The `main` functions of the programs (tropeaproxy/tproxy.c, loggerserver/loggerserver.c,
-- analyzer/analyzer-main.c, autosys/autosys-main.c, simpletcp/simpletcp-main.c), which differ in
-- the program, in the events that they wait for, and in what they do after each turn.
use shadow_tor_eavesdropping.Base.{
  ℕ, zero, suc, ◌==◌, ◌/=◌, if◌then◌else◌, Bool, Option, none, some, List, [], ◌∷◌, Bytes,
}
use shadow_tor_eavesdropping.Sys.{
  M, Call, EpollOp, minus_one, ◌>>=◌, ◌>>◌, pure, skip, get, call, perform, poll,
}
use shadow_tor_eavesdropping.Host.{Node}

-- `interest` is what is put into `mainevent.events`, and `check` what follows a turn: whether the
-- loop is left. The result is `none` for a `main` that is still in its loop.
module _ {S : Type 0} (node : Node S) (interest : ℕ) (check : M S Bool) where
  -- The end of `main`, behind the loop.
  unfoldable pub clean_up : ℕ → M S (Option ℕ)
  clean_up mainepolld = do
    h ← get
    if node.descriptor h /= 0
        then perform (Call.epoll_ctl EpollOp.ctl_del mainepolld (node.descriptor h) interest)
        else skip
    perform (Call.close mainepolld)
    node.release
    pure (some 0)

  -- `if(nReadyFDs > 0)`
  unfoldable pub serve_node : List (ℕ × ℕ) → M S (Unit {0})
  serve_node [] = skip
  serve_node (e ∷ es) = node.ready

  -- A turn of the loop, with what is left of it.
  unfoldable pub turn : M S (Option ℕ) → ℕ → Option (List (ℕ × ℕ)) → M S (Option ℕ)
  turn rest mainepolld none = pure (some minus_one)
  turn rest mainepolld (some events) = do
    serve_node events
    stop ← check
    if stop then clean_up mainepolld else rest

  -- The first `n` turns of the loop.
  unfoldable pub turns : ℕ → ℕ → M S (Option ℕ)
  turns zero mainepolld = pure none
  turns (suc n) mainepolld = do
    events ← poll (Call.epoll_wait mainepolld 100)
    turn (turns n mainepolld) mainepolld events

  unfoldable pub close_main : ℕ → M S (Option ℕ)
  close_main mainepolld = do perform (Call.close mainepolld); pure (some minus_one)

  -- `main` once it has its epoll descriptor.
  unfoldable pub watch_node : ℕ → ℕ → M S (Option ℕ)
  watch_node n mainepolld = do
    h ← get
    perform (Call.epoll_ctl EpollOp.ctl_add mainepolld (node.descriptor h) interest)
    turns n mainepolld

  unfoldable pub with_descriptor : ℕ → ℕ → M S (Option ℕ)
  with_descriptor n mainepolld = do
    h ← get
    if node.descriptor h == 0 then close_main mainepolld else watch_node n mainepolld

  -- `main` once the program has started.
  unfoldable pub started : ℕ → M S (Option ℕ)
  started n = do
    mainepolld ← call (Call.epoll_create 1)
    if mainepolld == minus_one then close_main mainepolld else with_descriptor n mainepolld

  -- `main`, to the end of the turn `n`.
  unfoldable pub main : ℕ → List Bytes → M S (Option ℕ)
  main n argv = do made ← node.create argv; if made then started n else pure (some minus_one)
