-- ===== src/Format/Stamp.antt =====
-- What the decimal texts of tropeaproxy/tproxy.c and simpletcp/simpletcp.c stand for.
use shadow_tor_eavesdropping.Base.{
  ℕ, zero, suc, ◌+◌, ◌-◌, ◌*◌, ◌/◌, ◌%◌, ◌^◌, ◌<◌, ◌≤◌, [], ◌∷◌, ◌++◌, Bytes, length, replicate,
  ◌≡◌, refl, sym, ap, ◌∙◌, arith, All, length-append, length-replicate, codes,
}
use mathlib.Core.Path.{ap₂}
use native.Mathlib.Nat.{zero-add, pow-succ'}
use shadow_tor_eavesdropping.Format.{emit, decimal, padded, timestamp}
use shadow_tor_eavesdropping.Sys.{Timeval}
use mathlib.Core.List.{append_assoc}

-- The number that digits spell behind `n`.
abbrev pub value : ℕ → Bytes → ℕ
value n [] = n
value n (c ∷ cs) = value (n * 10 + (c - b'0')) cs

abbrev pub IsDigit : ℕ → Type 0
IsDigit c = (b'0' ≤ c) × (c ≤ b'9')

pub value-append : (n : ℕ) (xs ys : Bytes) → value n (xs ++ ys) ≡ value (value n xs) ys
value-append n [] ys = refl
value-append n (x ∷ xs) ys = value-append (n * 10 + (x - b'0')) xs ys

pub All-append_digits : (xs ys : Bytes) → All IsDigit xs → All IsDigit ys → All IsDigit (xs ++ ys)
All-append_digits [] ys hx hy = hy
All-append_digits (x ∷ xs) ys hx hy = (hx.0, All-append_digits xs ys hx.1 hy)

-- With more fuel than the number, the digits spell it, in front of what follows.
value-emit : (fuel n : ℕ) (out : Bytes) → n < fuel → value 0 (emit fuel n out) ≡ value n out
unfolding emit
value-emit zero n out h = absurd (omega arith)
value-emit (suc fuel) n out h = ground (arith, value-emit fuel (n / 10) ((b'0' + n % 10) ∷ out))

emit_digits :
    (fuel n : ℕ) (out : Bytes) → n < fuel → All IsDigit out → All IsDigit (emit fuel n out)
unfolding emit
emit_digits zero n out h d = absurd (omega arith)
emit_digits (suc fuel) n out h d = ground (arith, emit_digits fuel (n / 10) ((b'0' + n % 10) ∷ out))

pow_step : (w : ℕ) → 10 ^ suc w ≡ 10 * 10 ^ w
pow_step w = pow-succ' 10 w

-- A number below 10 ^ w has at most w digits.
length-emit :
    (fuel n w : ℕ) (out : Bytes)
    → n < fuel
    → n < 10 ^ suc w
    → length (emit fuel n out) ≤ suc w + length out
unfolding emit
length-emit zero n w out h b = absurd (omega arith)
length-emit (suc fuel) n zero out h b = ground arith
length-emit (suc fuel) n (suc w) out h b =
    let small : n < 10 * 10 ^ suc w = rw (pow_step (suc w)) at b in
    ground (arith, length-emit fuel (n / 10) w ((b'0' + n % 10) ∷ out))

emit_settles :
    (fuel fuel' n : ℕ) (out : Bytes) → n < fuel → fuel ≤ fuel' → emit fuel' n out ≡ emit fuel n out
unfolding emit
emit_settles zero fuel' n out h le = absurd (omega arith)
emit_settles (suc fuel) zero n out h le = absurd (omega arith)
emit_settles (suc fuel) (suc fuel') n out h le =
    ground (arith, emit_settles fuel fuel' (n / 10) ((b'0' + n % 10) ∷ out))

-- Any fuel above the number gives the same digits, which are those of `decimal`.
pub emit-decimal : (fuel n : ℕ) → n < fuel → emit fuel n [] ≡ decimal n
unfolding decimal
emit-decimal fuel n h = emit_settles (suc n) fuel n [] (omega arith) (omega arith)

pub value-decimal : (n : ℕ) → value 0 (decimal n) ≡ n
unfolding decimal
value-decimal n = value-emit (suc n) n [] (omega arith)

pub decimal-IsDigit : (n : ℕ) → All IsDigit (decimal n)
unfolding decimal
decimal-IsDigit n = emit_digits (suc n) n [] (omega arith) tt

regroup : (n d p v : ℕ) → (n * 10 + d) * p + v ≡ n * (10 * p) + (d * p + v)
regroup n d p v = omega arith

value_shift : (n : ℕ) (xs : Bytes) → value n xs ≡ n * 10 ^ length xs + value 0 xs
value_shift n [] = omega arith
value_shift n (x ∷ xs) =
    let d = x - b'0' in
    value_shift (n * 10 + d) xs
    ∙ regroup n d (10 ^ length xs) (value 0 xs)
    ∙ ap₂ ◌+◌ (ap (λ y. n * y) (sym (pow_step (length xs))))
        (sym (value_shift d xs) ∙ ap (λ y. value y xs) (sym (zero-add d)))

value-zeros : (n : ℕ) (xs : Bytes) → value 0 (replicate n b'0' ++ xs) ≡ value 0 xs
value-zeros zero xs = refl
value-zeros (suc n) xs = value-zeros n xs

zeros-IsDigit : (n : ℕ) → All IsDigit (replicate n b'0')
zeros-IsDigit zero = tt
zeros-IsDigit (suc n) = ((omega arith, omega arith), zeros-IsDigit n)

pub padded-IsDigit : (w n : ℕ) → All IsDigit (padded w n)
unfolding padded
padded-IsDigit w n = All-append_digits _ _ (zeros-IsDigit _) (decimal-IsDigit n)

pub value-padded : (w n : ℕ) → value 0 (padded w n) ≡ n
unfolding padded
value-padded w n = value-zeros (w - length (decimal n)) (decimal n) ∙ value-decimal n

pub length-padded : (w n : ℕ) → n < 10 ^ suc w → length (padded (suc w) n) ≡ suc w
unfolding padded decimal
length-padded w n h = omega (
  arith,
  length-append {0} (replicate (suc w - length (emit (suc n) n [])) b'0') (emit (suc n) n []),
  length-replicate {0} {A = ℕ} (suc w - length (emit (suc n) n [])) b'0',
  length-emit (suc n) n w [] (omega arith) h,
)

-- A line of digits that spell this number.
abbrev pub IsLineOf : ℕ → Bytes → Type 0
IsLineOf n line =
    (digits : Bytes) × (line ≡ digits ++ codes "\n") × (value 0 digits ≡ n) × All IsDigit digits

-- For microseconds below a million, the timestamp of a time of day is a line of digits, which spell
-- the microseconds since the epoch.
pub timestamp_value :
    (tv : Timeval) → tv.tv_usec < 10 ^ 6 → IsLineOf (tv.tv_sec * 10 ^ 6 + tv.tv_usec) (timestamp tv)
unfolding timestamp
timestamp_value tv h =
    let sec = decimal tv.tv_sec in
    let usec = padded 6 tv.tv_usec in
    (
      sec ++ usec,
      sym (append_assoc sec usec (codes "\n")),
      value-append 0 sec usec
          ∙ value_shift (value 0 sec) usec
          ∙ simp (value-decimal, value-padded, length-padded 5 tv.tv_usec h),
      All-append_digits _ _ (decimal-IsDigit tv.tv_sec) (padded-IsDigit 6 tv.tv_usec),
    )

pub length-decimal_le : (w n : ℕ) → n < 10 ^ suc w → length (decimal n) ≤ suc w
unfolding decimal
length-decimal_le w n h = omega (arith, length-emit (suc n) n w [] (omega arith) h)
