-- ===== src/TProxy/Conversation.antt =====
-- A conversation in which the two ends of a connection speak in turns, through the event loop of
-- tropeaproxy/tproxy.c.
use shadow_tor_eavesdropping.Base.{
  ℕ, some, List, [], ◌∷◌, suc, length, Bytes, map, ◌==◌, if◌then◌else◌, ◌≡◌, ◌≢◌, refl, arith, ◌∙◌,
}
use shadow_tor_eavesdropping.Sys.{Kernel, Trace, Call, ok, epollin, epollout}
use shadow_tor_eavesdropping.Glib.{HashTable}
use shadow_tor_eavesdropping.TProxy.State.{TProxy, update}
use shadow_tor_eavesdropping.TProxy.Handlers.{page_size, activate_all}
use shadow_tor_eavesdropping.TProxy.Relay.{
  sends, receipts, HasMemory, spent, read_trace, write_trace, sends-read_trace, receipts-read_trace,
  sends-write_trace, receipts-write_trace,
}
use shadow_tor_eavesdropping.TProxy.Exchange.{
  IsLinked, IsLinked-update, IsLinked-symm, linked_ends_ne, exchange_lem,
}

-- Every `recv` brings a message.
abbrev pub IsTalking : Kernel → Type 0
IsTalking k =
    (t : Trace) (sd : ℕ)
    → (c : ℕ) × (cs : Bytes) × (k.receives t (Call.recv sd page_size) ≡ some (c ∷ cs))

pub data Turn : Type 0 where
  forth back : Turn

-- The events of the turns: one end can be read, and then the other can be written.
abbrev pub events_of : ℕ → ℕ → List Turn → List (ℕ × ℕ)
events_of a b [] = []
events_of a b (forth ∷ xs) = (a, epollin) ∷ (b, epollout) ∷ events_of a b xs
events_of a b (back ∷ xs) = (b, epollin) ∷ (a, epollout) ∷ events_of a b xs

-- The other end, and a message as it goes out there.
abbrev pub across : ℕ → ℕ → ℕ × Bytes → ℕ × Bytes
across a b (sd, bs) = (if sd == a then b else a, bs)

module _ (g : HashTable ℕ) where
  abbrev pub Faithful : Kernel → ℕ → ℕ → Trace → Type 0
  Faithful k a b t = sends t ≡ map (across a b) (receipts k t)

  pub across_first : (a b : ℕ) (bs : Bytes) → across a b (a, bs) ≡ (b, bs)
  across_first a b bs = ground arith

  pub across_second : (a b : ℕ) (bs : Bytes) → a ≢ b → across a b (b, bs) ≡ (a, bs)
  across_second a b bs ne = ground arith

  -- A turn in which `a` speaks.
  turn_lem :
      (k : Kernel) (h : TProxy g) (t : Trace) (a b pa pb : ℕ)
      → HasMemory k
      → IsTalking k
      → IsLinked g h a b pa pb
      → (h' : TProxy g) × (t' : Trace) × (bs : Bytes) × ((rest : List (ℕ × ℕ))
          → activate_all g ((a, epollin) ∷ (b, epollout) ∷ rest) k h t
            ≡ activate_all g rest k h' t')
        × IsLinked g h' a b pa pb
        × (sends t' ≡ (b, bs) ∷ sends t)
        × (receipts k t' ≡ (a, bs) ∷ receipts k t)
  turn_lem k h t a b pa pb mem talk link =
      let (c, cs, got) = talk (Call.allocate page_size ∷ t) a in
      (
        record h { partners = update h.partners pa (spent b (c ∷ cs)) },
        write_trace k h.ined b a (c ∷ cs) (read_trace k h.ined a b (suc (length cs)) t),
        c ∷ cs,
        λ rest. exchange_lem g k h t a b pa pb c cs rest mem link got,
        IsLinked-update g h a b pa pb (spent b (c ∷ cs)) refl link,
        simp (sends-write_trace, sends-read_trace),
        simp (receipts-write_trace, receipts-read_trace k h.ined a b _ (c ∷ cs) t got),
      )

  -- If allocations succeed, every `recv` gives at least one byte, `a` and `b` are the two ends of a
  -- connection in the table, and what was sent so far is what was received so far, each message at
  -- the other end and in order, then after the events of any sequence of turns, in each of which one
  -- end is read and then the other end written, the loop has returned, the two ends are still
  -- linked, and what was sent is what was received, each message at the other end and in order.
  pub conversation-Faithful :
      (turns : List Turn) (k : Kernel) (h : TProxy g) (t : Trace) (a b pa pb : ℕ)
      → HasMemory k
      → IsTalking k
      → IsLinked g h a b pa pb
      → Faithful k a b t
      → (h' : TProxy g) × (t' : Trace) × (activate_all g (events_of a b turns) k h t ≡ ok tt h' t')
        × IsLinked g h' a b pa pb
        × Faithful k a b t'
  unfolding activate_all
  conversation-Faithful [] k h t a b pa pb mem talk link same = (h, t, refl, link, same)
  conversation-Faithful (forth ∷ xs) k h t a b pa pb mem talk link same =
      let (h₁, t₁, bs, step, link₁, sent, got) = turn_lem k h t a b pa pb mem talk link in
      let same₁ : Faithful k a b t₁ = simp (sent, got, same, across_first) in
      let (h', t', run, link', same') =
        conversation-Faithful xs k h₁ t₁ a b pa pb mem talk link₁ same₁ in
      (h', t', step (events_of a b xs) ∙ run, link', same')
  conversation-Faithful (back ∷ xs) k h t a b pa pb mem talk link same =
      let link_back = IsLinked-symm g h a b pa pb link in
      let (h₁, t₁, bs, step, link₁, sent, got) = turn_lem k h t b a pb pa mem talk link_back in
      let same₁ : Faithful k a b t₁ =
        simp (sent, got, same, across_second a b bs (linked_ends_ne g h a b pa pb link)) in
      let (h', t', run, link', same') =
        conversation-Faithful xs k h₁ t₁ a b pa pb mem talk (IsLinked-symm g h₁ b a pb pa link₁)
          same₁ in
      (h', t', step (events_of a b xs) ∙ run, link', same')
