-- ===== src/Logger/Kept.antt =====
-- What the starts of loggerserver/loggerserver.c and analyzer/analyzer.c have in common.
use shadow_tor_eavesdropping.Base.{ℕ, length, Option, none, some, List, [], ◌∷◌, Bytes, ◌≡◌, arith}
use shadow_tor_eavesdropping.Sys.{Kernel, M, Trace, Call}
use shadow_tor_eavesdropping.Sys.Ends.{AnyFault, Ends}
use shadow_tor_eavesdropping.Logger.LoggerStart.{copy_path}
use shadow_tor_eavesdropping.Logger.File.{contents}
use shadow_tor_eavesdropping.Logger.Journal.{arrived, Kept}
use shadow_tor_eavesdropping.Resolve.{Strings, find_addr, look_up, last_found, port_of}
use shadow_tor_eavesdropping.Host.Turns.{IsOwn}

-- The path in the arguments, `argv[2]`.
abbrev pub log_argument : List Bytes → Bytes
log_argument (name ∷ own ∷ path ∷ rest) = path
log_argument argv = []

pub own-Kept :
    (k : Kernel) (path old kept : Bytes) (t : Trace) (c : Call)
    → IsOwn c
    → Kept k path old kept t
    → Kept k path old kept (c ∷ t)
unfolding contents arrived
own-Kept k path old kept t c o i =
    elim c as (λ c'. IsOwn c' → Kept k path old kept (c' ∷ t)) [
      | Call.epoll_create n ↦ λ u. i
      | Call.epoll_ctl op ed sd events ↦ λ u. i
      | Call.epoll_wait ed n ↦ λ u. i
      | Call.close sd ↦ λ u. i
      | _ ↦ λ u. absurd u
    ]
      o

-- What holds before there is a state is not touched by a look-up or by memory that is asked for.
abbrev pub IsEarly : (Trace → Type 0) → Type 0
IsEarly I =
    ((t : Trace) (name : Bytes) → I t → I (Call.getaddrinfo name ∷ t))
    × ((t : Trace) (n : ℕ) → I t → I (Call.allocate n ∷ t))

module _ {S : Type 0} (k : Kernel) (I : Trace → Type 0) (laws : IsEarly I) where
  -- A part of the start, before there is a state.
  abbrev pub Early : {A : Type 0} → M S A → Type 0
  Early m = (h : S) (t : Trace) → I t → Ends (λ _ _. I) AnyFault (m k h t)

  pub find_addr-Early : (lib : Strings) (name : Bytes) → Early (find_addr lib name)
  unfolding find_addr look_up last_found
  find_addr-Early lib name h t i = ground (arith, laws.0 t name i)

  pub port_of-Early : (lib : Strings) (text : Option Bytes) → Early (port_of lib text)
  unfolding port_of
  port_of-Early lib none h t i = tt
  port_of-Early lib (some text) h t i = i

  pub copy_path-Early : (path : Bytes) → Early (copy_path path)
  unfolding copy_path
  copy_path-Early path h t i = ground (arith, laws.1 t (length path) i)

-- What a file holds is not touched by the start, nor is that nothing has arrived.
pub Kept-early : (k : Kernel) (path old kept : Bytes) → IsEarly (Kept k path old kept)
unfolding contents arrived
Kept-early k path old kept = (λ t name i. i, λ t n i. i)

-- Nothing has arrived.
abbrev pub IsFresh : Kernel → Bytes → Trace → Type 0
IsFresh k path t = arrived k path t ≡ []

pub IsFresh-early : (k : Kernel) (path : Bytes) → IsEarly (IsFresh k path)
unfolding arrived
IsFresh-early k path = (λ t name i. i, λ t n i. i)
