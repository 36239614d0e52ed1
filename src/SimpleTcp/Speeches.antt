-- ===== src/SimpleTcp/Speeches.antt =====
-- What a client of simpletcp/simpletcp.c says and how long it sleeps, as it is read off the calls.
use shadow_tor_eavesdropping.Base.{
  ℕ, zero, suc, ◌+◌, ◌-◌, ◌%◌, ◌==◌, ◌/=◌, ◌||◌, ◌<◌, ◌≤◌, List, [], ◌∷◌, ◌++◌, pos, Bytes, ◌≡◌,
  ◌⊎◌, refl, sym, ap, ◌∙◌, arith, All, true, false, inl, inr,
}
use mathlib.Core.List.{append_assoc}
use native.Mathlib.Nat.{mod-lt}
use shadow_tor_eavesdropping.Sys.{Kernel, Trace, Call, Timeval, ◌>>=◌}
use shadow_tor_eavesdropping.Glib.{HashTable}
use shadow_tor_eavesdropping.SimpleTcp.State.{SimpleTcp, socks5_init}
use shadow_tor_eavesdropping.SimpleTcp.Packets.{negotation_packet, request_packet}
use shadow_tor_eavesdropping.SimpleTcp.Starting.{Later, sleep_callback}
use shadow_tor_eavesdropping.SimpleTcp.Client.{default_sleep_conn_time, sleep_time, again}

-- What was written to sockets, and the sleeps that were asked for, the last one first.
unfoldable pub said : Trace → List Bytes
said [] = []
said (Call.write sd bs ∷ t) = bs ∷ said t
said (Call.send sd bs ∷ t) = bs ∷ said t
said (_ ∷ t) = said t

unfoldable pub naps : Trace → List ℕ
naps [] = []
naps (Call.create_callback ms ∷ t) = ms ∷ naps t
naps (_ ∷ t) = naps t

-- A sleep that the two bounds allow, and bounds between which there is one.
abbrev pub IsNap : ℕ → ℕ → ℕ → Type 0
IsNap smin smax ms =
    ((smin ≡ 0) × (smax ≡ 0) × (ms ≡ default_sleep_conn_time)) ⊎ ((smin ≤ ms) × (ms < smax))

abbrev pub AreBounds : ℕ → ℕ → Type 0
AreBounds smin smax = ((smin ≡ 0) × (smax ≡ 0)) ⊎ (smin < smax)

-- What one connection says, the last message first, and what `n` of them say.
abbrev pub speech : ℕ → ℕ → Bytes → List Bytes
speech ip port name = name ∷ request_packet ip port ∷ negotation_packet ∷ []

unfoldable pub speeches : ℕ → List Bytes → List Bytes
speeches zero one = []
speeches (suc n) one = one ++ speeches n one

positive : (a b : ℕ) → a < b → (a /= 0 || b /= 0) ≡ true
positive a b h = ground arith

apart : (a b : ℕ) → a < b → (b == a) ≡ false
apart a b h = ground arith

gap : (a b : ℕ) → a < b → 0 < b - a
gap a b h = omega (arith, h)

between : (n a b : ℕ) → a < b → (a ≤ n % (b - a) + a) × (n % (b - a) + a < b)
between n a b h = omega (arith, mod-lt n (gap a b h))

-- One speech more, before the others or after them.
pub speeches_last :
    (n : ℕ) (one r : List Bytes) → speeches n one ++ (one ++ r) ≡ speeches (suc n) one ++ r
unfolding speeches
speeches_last zero one r = sym (append_assoc one [] r)
speeches_last (suc n) one r =
    append_assoc one (speeches n one) (one ++ r)
    ∙ ap (λ q. one ++ q) (speeches_last n one r)
    ∙ sym (append_assoc one (one ++ speeches n one) r)

pub All-last : (P : ℕ → Type 0) (xs : List ℕ) (x : ℕ) → All P xs → P x → All P (xs ++ x ∷ [])
All-last P [] x h p = (p, tt)
All-last P (y ∷ xs) x h p = (h.0, All-last P xs x h.1 p)

-- At most a random number was asked for in between.
abbrev pub MayDraw : Trace → Trace → Type 0
MayDraw t t' = (t' ≡ t) ⊎ (t' ≡ Call.random ∷ t)

pub same-MayDraw :
    {A : Type 0} (f : Trace → A) (t t' : Trace)
    → f (Call.random ∷ t) ≡ f t
    → MayDraw t t'
    → f t' ≡ f t
same-MayDraw f t t' e (inl same) = ap f same
same-MayDraw f t t' e (inr drawn) = ap f drawn ∙ e

-- Before a further connection, the host is asked for a sleep within the bounds.
pub again_lem :
    (g : HashTable Timeval) (later : Later g) (k : Kernel) (h : SimpleTcp g) (t : Trace) (n : ℕ)
    → AreBounds h.client_sleep_min h.client_sleep_max
    → (t' : Trace) × (ms : ℕ) × (again g later n k h t
        ≡ later ms k (record h { client_socks5_status = socks5_init; client_nconn = pos n }) t')
      × IsNap h.client_sleep_min h.client_sleep_max ms
      × MayDraw t t'
unfolding again sleep_time sleep_callback
again_lem g later k h t n (inl (none_min, none_max)) = (
  t,
  default_sleep_conn_time,
  simp (none_min, none_max, ◌>>=◌),
  inl (none_min, none_max, refl),
  inl refl,
)
again_lem g later k h t n (inr less) =
    let ms = k.rand t % (h.client_sleep_max - h.client_sleep_min) + h.client_sleep_min in
    (
      Call.random ∷ t,
      ms,
      simp (positive _ _ less, apart _ _ less, ◌>>=◌),
      inr (between (k.rand t) _ _ less),
      inr refl,
    )
