-- ===== src/TProxy/Touches.antt =====
-- Which descriptors tropeaproxy/tproxy.c closes, reads from and sends to.
use shadow_tor_eavesdropping.Base.{ℕ, List, [], ◌∷◌, All, arith}
use shadow_tor_eavesdropping.Sys.{Kernel, M, Trace, Call}
use shadow_tor_eavesdropping.Sys.Ends.{AnyFault, Ends}
use shadow_tor_eavesdropping.Glib.{HashTable}
use shadow_tor_eavesdropping.TProxy.State.{TProxy}
use shadow_tor_eavesdropping.TProxy.Epoll.{set_epoll, reset_epoll}
use shadow_tor_eavesdropping.TProxy.Handlers.{shrink}

-- The descriptors that were closed, read from or sent to.
unfoldable pub touched : Trace → List ℕ
touched [] = []
touched (Call.close sd ∷ t) = sd ∷ touched t
touched (Call.recv sd n ∷ t) = sd ∷ touched t
touched (Call.send sd bs ∷ t) = sd ∷ touched t
touched (_ ∷ t) = touched t

module _ (g : HashTable ℕ) (Q : ℕ → Type 0) (k : Kernel) where
  -- Only descriptors that are `Q` were touched.
  abbrev pub IsConfined : Trace → Type 0
  IsConfined t = All Q (touched t)

  abbrev Keeps : {A : Type 0} → M (TProxy g) A → Type 0
  Keeps m = (h : TProxy g) (t : Trace) → IsConfined t → Ends (λ _ _. IsConfined) AnyFault (m k h t)

  set_epoll-Keeps : (ed sd events : ℕ) → Keeps (set_epoll ed sd events)
  unfolding set_epoll touched
  set_epoll-Keeps ed sd events h t i = ground arith

  reset_epoll-Keeps : (ed sd : ℕ) → Keeps (reset_epoll ed sd)
  unfolding reset_epoll touched
  reset_epoll-Keeps ed sd h t i = ground arith

  shrink-Keeps : (partner : ℕ) → Keeps (shrink g partner)
  unfolding shrink touched
  shrink-Keeps partner h t i = ground arith
