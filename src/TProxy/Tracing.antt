-- ===== src/TProxy/Tracing.antt =====
-- The package that `udpTrace` of tropeaproxy/tproxy.c sends, byte for byte.
use mathlib.Core.Option
use mathlib.Core.List.{append_assoc}
use shadow_tor_eavesdropping.Base.{
  ℕ, suc, ◌+◌, ◌≤◌, ◌<◌, ◌^◌, some, [], ◌∷◌, ◌++◌, Bytes, codes, length, drop, ◌≡◌, ◌≢◌, refl, sym,
  ap, ◌∙◌, arith, All, eq_false, length-append, length-drop, take-append_length,
}
use shadow_tor_eavesdropping.Sys.{Kernel, Trace, Call, Timeval, ok, ◌>>=◌}
use shadow_tor_eavesdropping.Glib.{HashTable}
use shadow_tor_eavesdropping.TProxy.Buffers.{write_at, strlen}
use shadow_tor_eavesdropping.Format.{decimal, padded, timestamp}
use shadow_tor_eavesdropping.TProxy.State.{TProxy}
use shadow_tor_eavesdropping.Format.Stamp.{
  IsDigit, decimal-IsDigit, padded-IsDigit, length-decimal_le, length-padded,
}
use shadow_tor_eavesdropping.TProxy.Package.{side, build_trace_package, udp_trace}

write_front :
    (bs block : Bytes)
    → length bs ≤ length block
    → write_at 0 bs block ≡ some (bs ++ drop (length bs) block)
unfolding write_at
write_front [] block h = refl
write_front (b ∷ bs) [] h = absurd (omega arith)
write_front (b ∷ bs) (x ∷ block) h =
    ap (Option.map (λ r. b ∷ r)) (write_front bs block (omega arith))

write_after :
    (xs bs ys r : Bytes)
    → write_at 0 bs ys ≡ some r
    → write_at (length xs) bs (xs ++ ys) ≡ some (xs ++ r)
unfolding write_at
write_after [] bs ys r e = e
write_after (x ∷ xs) bs ys r e = ap (Option.map (λ q. x ∷ q)) (write_after xs bs ys r e)

-- A text and its terminator, written behind `xs`.
pub write_text :
    (xs bs ys : Bytes)
    → length bs + 1 ≤ length ys
    → (r : Bytes) × (write_at (length xs) (bs ++ 0 ∷ []) (xs ++ ys) ≡ some ((xs ++ bs) ++ 0 ∷ r))
      × (length r + length bs + 1 ≡ length ys)
write_text xs bs ys h =
    let n = length-append {0} bs (0 ∷ []) in
    let r = drop (length (bs ++ 0 ∷ [])) ys in
    (
      r,
      write_after xs (bs ++ 0 ∷ []) ys _ (write_front (bs ++ 0 ∷ []) ys (omega (arith, n)))
          ∙ ap (λ q. some (xs ++ q)) (append_assoc bs (0 ∷ []) r)
          ∙ ap some (sym (append_assoc xs bs (0 ∷ r))),
      omega (arith, length-drop {0} (length (bs ++ 0 ∷ [])) ys, n),
    )

-- One byte, over the one that stands there.
write_byte :
    (xs ys : Bytes) (b c : ℕ)
    → write_at (length xs) (b ∷ []) (xs ++ c ∷ ys) ≡ some ((xs ++ b ∷ []) ++ ys)
write_byte xs ys b c =
    write_after xs (b ∷ []) (c ∷ ys) (b ∷ ys) (unfold write_at in refl)
    ∙ ap some (sym (append_assoc xs (b ∷ []) ys))

pub strlen-append : (xs ys : Bytes) → All (λ c. c ≢ 0) xs → strlen (xs ++ 0 ∷ ys) ≡ some (length xs)
unfolding strlen
strlen-append [] ys h = refl
strlen-append (x ∷ xs) ys h =
    rw (eq_false x 0 h.0) (ap (Option.map (λ n. suc n)) (strlen-append xs ys h.1))

-- The line that a package holds.
abbrev pub trace_line : ℕ → Bytes → Timeval → Bytes
trace_line server_mode name tv =
    (((side server_mode ∷ b';' ∷ []) ++ name) ++ b';' ∷ []) ++ timestamp tv

abbrev pub IsText : Bytes → Type 0
IsText = All (λ c. c ≢ 0)

IsText-append : (xs ys : Bytes) → IsText xs → IsText ys → IsText (xs ++ ys)
IsText-append [] ys hx hy = hy
IsText-append (x ∷ xs) ys hx hy = (hx.0, IsText-append xs ys hx.1 hy)

IsText-digits : (xs : Bytes) → All IsDigit xs → IsText xs
IsText-digits [] h = tt
IsText-digits (x ∷ xs) h = (omega arith, IsText-digits xs h.1)

IsText-side : (n : ℕ) → side n ≢ 0
unfolding side
IsText-side n = ground arith

timestamp-IsText : (tv : Timeval) → IsText (timestamp tv)
unfolding timestamp
timestamp-IsText tv =
    IsText-append (decimal tv.tv_sec) _ (IsText-digits _ (decimal-IsDigit tv.tv_sec)) (
      IsText-append (padded 6 tv.tv_usec) _ (IsText-digits _ (padded-IsDigit 6 tv.tv_usec))
        (omega arith, tt))

-- A time of day as `gettimeofday` gives it.
abbrev pub IsTime : Timeval → Type 0
IsTime tv = (tv.tv_sec < 10 ^ 19) × (tv.tv_usec < 10 ^ 6)

length-timestamp : (tv : Timeval) → IsTime tv → length (timestamp tv) ≤ 26
unfolding timestamp
length-timestamp tv h = omega (
  arith,
  length-append {0} (decimal tv.tv_sec) (padded 6 tv.tv_usec ++ codes "\n"),
  length-append {0} (padded 6 tv.tv_usec) (codes "\n"),
  length-decimal_le 18 tv.tv_sec h.0,
  length-padded 5 tv.tv_usec h.1,
)

trace_line-IsText :
    (n : ℕ) (name : Bytes) (tv : Timeval) → IsText name → IsText (trace_line n name tv)
trace_line-IsText n name tv h =
    let hd : Bytes = side n ∷ b';' ∷ [] in
    IsText-append ((hd ++ name) ++ b';' ∷ []) (timestamp tv)
      (IsText-append (hd ++ name) (b';' ∷ [])
        (IsText-append hd name (IsText-side n, (omega arith, tt)) h) (omega arith, tt))
      (timestamp-IsText tv)

module _ (g : HashTable ℕ) where
  build_lem :
      (k : Kernel) (h : TProxy g) (t : Trace) (block name : Bytes)
      → k.memory t 512 ≡ some block
      → length block ≡ 512
      → k.hostname (Call.allocate 512 ∷ t) 256 ≡ name ++ 0 ∷ []
      → IsText name
      → length name ≤ 255
      → let t' = Call.gethostname 256 ∷ Call.allocate 512 ∷ t in
        IsTime (k.clock t')
        → (r : Bytes) × (build_trace_package g k h t
            ≡ ok (trace_line h.server_mode name (k.clock t') ++ 0 ∷ r) h (Call.gettimeofday ∷ t'))
  unfolding build_trace_package
  build_lem k h t block name mem size host text short time =
      let tv = k.clock (Call.gethostname 256 ∷ Call.allocate 512 ∷ t) in
      let hd : Bytes = side h.server_mode ∷ b';' ∷ [] in
      let rest : Bytes = drop 2 block in
      let room = length-drop {0} 2 block in
      let (r₁, named, size₁) = write_text hd name rest (omega (arith, room)) in
      let pre = hd ++ name in
      let long = length-append {0} hd name in
      let closing = length-append {0} pre (b';' ∷ []) in
      let at : length (pre ++ b';' ∷ []) ≡ length pre + 1 = closing in
      let (r₂, stamped, size₂) =
        write_text (pre ++ b';' ∷ []) (timestamp tv) r₁
          (omega (arith, room, length-timestamp tv time)) in
      (
        r₂,
        simp (
          mem,
          write_front hd block (omega arith),
          host,
          named,
          strlen-append pre r₁
              (IsText-append hd name (IsText-side h.server_mode, (omega arith, tt)) text),
          write_byte pre r₁ b';' 0,
          ← at,
          stamped,
          ◌>>=◌,
        ),
      )

  -- If the block of 512 bytes is there, the host's name is a text of at most 255 bytes, and the time
  -- is one that `gettimeofday` gives, `udpTrace` returns, changes no state, and sends one datagram
  -- to the logger: the side, the host's name and the time, and nothing of what the block held.
  pub udp_trace_line :
      (k : Kernel) (h : TProxy g) (t : Trace) (block name : Bytes)
      → k.memory t 512 ≡ some block
      → length block ≡ 512
      → k.hostname (Call.allocate 512 ∷ t) 256 ≡ name ++ 0 ∷ []
      → IsText name
      → length name ≤ 255
      → IsTime (k.clock (Call.gethostname 256 ∷ Call.allocate 512 ∷ t))
      → udp_trace g k h t
        ≡ ok tt h (
            Call.sendto h.tracer_socket
              (trace_line h.server_mode name
                (k.clock (Call.gethostname 256 ∷ Call.allocate 512 ∷ t)))
              h.tracer_addr
              h.tracer_port
            ∷ Call.gettimeofday
            ∷ Call.gethostname 256
            ∷ Call.allocate 512
            ∷ t)
  unfolding udp_trace
  udp_trace_line k h t block name mem size host text short time =
      let (r, built) = build_lem k h t block name mem size host text short time in
      let line =
        trace_line h.server_mode name (k.clock (Call.gethostname 256 ∷ Call.allocate 512 ∷ t)) in
      simp (
        built,
        strlen-append line r (trace_line-IsText h.server_mode name _ text),
        take-append_length,
        ◌>>=◌,
      )
