-- ===== src/SimpleTcp/Arguments.antt =====
-- The arguments of a client of simpletcp/simpletcp.c (`checkClientArgs`).
use shadow_tor_eavesdropping.Base.{
  ℕ, ◌≤◌, if◌then◌else◌, Bool, true, false, ◌||◌, Option, none, some, List, ℤ, pos, negsuc, Bytes,
  get_elem?, ltb_ℤ, ◌≡◌, refl, sym, ap, ◌∙◌, arith, inl, inr, Bool-cases,
}

-- What the C library gives: the value of a text cut to an `int`, and the text up to the first
-- comma with the one behind it.
pub record Numbers : Type 0 where
  pub to_int : Bytes → ℤ
  pub strsep_comma : Bytes → Bytes × Option Bytes

-- The result: a status below 0, by its size, or 0 with `nconn`, `sleep_min` and `sleep_max`.
pub data Checked : Type 0 where
  refused : ℕ → Checked
  passed : ℤ → ℤ → ℤ → Checked

-- The tests on the two bounds. No `int` is greater than INT_MAX.
unfoldable pub check_bounds : ℤ → ℤ → ℤ → Checked
check_bounds nconn smin smax =
    if ltb_ℤ smin (negsuc 0)
    then refused 4
    else if ltb_ℤ smax smin
    then refused 5
    else if ltb_ℤ smin (pos 0) || ltb_ℤ smax (pos 0)
    then refused 6
    else passed nconn smin smax

unfoldable pub check_range : Numbers → ℤ → Bytes × Option Bytes → Checked
check_range lib nconn (split1, none) = refused 3
check_range lib nconn (split1, some split2) =
    check_bounds nconn (lib.to_int split1) (lib.to_int split2)

unfoldable pub check_sleep : Numbers → ℤ → Option Bytes → Checked
check_sleep lib nconn none = passed nconn (pos 0) (pos 0)
check_sleep lib nconn (some range) = check_range lib nconn (lib.strsep_comma range)

unfoldable pub check_nconn : Numbers → Option Bytes → Option Bytes → Checked
check_nconn lib none range = refused 1
check_nconn lib (some text) range = check_sleep lib (lib.to_int text) range

unfoldable pub check_client_args : Numbers → List Bytes → Checked
check_client_args lib argv = check_nconn lib (get_elem? argv 4) (get_elem? argv 5)

-- Bounds that are not negative and in order, or a status that is given out.
abbrev pub IsChecked : Checked → Type 0
IsChecked (refused c) = (1 ≤ c) × (c ≤ 6)
IsChecked (passed nconn smin smax) = (a : ℕ) × (b : ℕ) × (smin ≡ pos a) × (smax ≡ pos b) × (a ≤ b)

not_below : (n : ℕ) → ¬ (ltb_ℤ (negsuc n) (pos 0) ≡ false)
not_below n h = ground arith

nonnegative : (z : ℤ) → ltb_ℤ z (pos 0) ≡ false → (n : ℕ) × (z ≡ pos n)
nonnegative (pos n) h = (n, refl)
nonnegative (negsuc n) h = absurd (not_below n h)

ordered : (a b : ℕ) → ltb_ℤ (pos b) (pos a) ≡ false → a ≤ b
ordered a b h = ground arith

or_false : (x y : Bool) → (x || y) ≡ false → (x ≡ false) × (y ≡ false)
or_false false false h = (refl, refl)
or_false false true h = cc
or_false true y h = cc

in_order :
    (smin smax : ℤ)
    → ltb_ℤ smax smin ≡ false
    → (ltb_ℤ smin (pos 0) || ltb_ℤ smax (pos 0)) ≡ false
    → (a : ℕ) × (b : ℕ) × (smin ≡ pos a) × (smax ≡ pos b) × (a ≤ b)
in_order smin smax less sign =
    let (min_sign, max_sign) = or_false (ltb_ℤ smin (pos 0)) (ltb_ℤ smax (pos 0)) sign in
    let (a, at_min) = nonnegative smin min_sign in
    let (b, at_max) = nonnegative smax max_sign in
    (
      a,
      b,
      at_min,
      at_max,
      ordered a b
          (ap (λ z. ltb_ℤ (pos b) z) (sym at_min) ∙ ap (λ z. ltb_ℤ z smin) (sym at_max) ∙ less),
    )

check_bounds-IsChecked : (nconn smin smax : ℤ) → IsChecked (check_bounds nconn smin smax)
unfolding check_bounds
check_bounds-IsChecked nconn smin smax = elim (Bool-cases (ltb_ℤ smin (negsuc 0))) [
  | inl low ↦ simp low (omega arith, omega arith)
  | inr high ↦ elim (Bool-cases (ltb_ℤ smax smin)) [
    | inl crossed ↦ simp (high, crossed) (omega arith, omega arith)
    | inr fine ↦ elim (Bool-cases (ltb_ℤ smin (pos 0) || ltb_ℤ smax (pos 0))) [
      | inl negative ↦ simp (high, fine, negative) (omega arith, omega arith)
      | inr sign ↦ simp (high, fine, sign) (in_order smin smax fine sign)
    ]
  ]
]

check_range-IsChecked :
    (lib : Numbers) (nconn : ℤ) (parts : Bytes × Option Bytes)
    → IsChecked (check_range lib nconn parts)
unfolding check_range
check_range-IsChecked lib nconn (a, none) = (omega arith, omega arith)
check_range-IsChecked lib nconn (a, some b) = check_bounds-IsChecked nconn _ _

check_sleep-IsChecked :
    (lib : Numbers) (nconn : ℤ) (range : Option Bytes) → IsChecked (check_sleep lib nconn range)
unfolding check_sleep
check_sleep-IsChecked lib nconn none = (0, 0, refl, refl, omega arith)
check_sleep-IsChecked lib nconn (some range) =
    check_range-IsChecked lib nconn (lib.strsep_comma range)

check_nconn-IsChecked :
    (lib : Numbers) (text range : Option Bytes) → IsChecked (check_nconn lib text range)
unfolding check_nconn
check_nconn-IsChecked lib none range = (omega arith, omega arith)
check_nconn-IsChecked lib (some text) range = check_sleep-IsChecked lib (lib.to_int text) range

-- Whatever the arguments and the values that the C library finds in them: `checkClientArgs` gives
-- out a status from -6 to -1, or passes two bounds on the sleep that are not negative, the first
-- not above the second.
pub check_client_args-IsChecked :
    (lib : Numbers) (argv : List Bytes) → IsChecked (check_client_args lib argv)
unfolding check_client_args
check_client_args-IsChecked lib argv =
    check_nconn-IsChecked lib (get_elem? argv 4) (get_elem? argv 5)
