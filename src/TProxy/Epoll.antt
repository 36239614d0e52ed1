-- ===== src/TProxy/Epoll.antt =====
-- The helpers of tropeaproxy/tproxy.c on the epoll set, `setEPOLL` and `resetEPOLL`.
use shadow_tor_eavesdropping.Base.{ℕ, ◌/=◌, if◌then◌else◌}
use shadow_tor_eavesdropping.Sys.{M, Call, EpollOp, ◌>>=◌, ◌>>◌, pure, skip, call, perform}

module _ {S : Type 0} where
  unfoldable pub set_epoll : ℕ → ℕ → ℕ → M S ℕ
  set_epoll ed sd events = do
    res ← call (Call.epoll_ctl EpollOp.ctl_add ed sd events)
    if res /= 0 then perform (Call.epoll_ctl EpollOp.ctl_mod ed sd events) else skip
    pure 0

  unfoldable pub reset_epoll : ℕ → ℕ → M S ℕ
  reset_epoll ed sd = do perform (Call.epoll_ctl EpollOp.ctl_del ed sd 0); pure 0
