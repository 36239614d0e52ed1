-- ===== src/Samples.antt =====
-- Functions on strings and kernels for the runs on concrete inputs.
use shadow_tor_eavesdropping.Base.{
  zero, suc, ◌-◌, Bool, true, false, ℕ, ◌==◌, if◌then◌else◌, ◌+◌, ◌*◌, Option, none, some, [], ◌∷◌,
  ◌++◌, Bytes, codes, pos, length, replicate,
}
use shadow_tor_eavesdropping.Sys.{Kernel, Call, Outcome, ok, exited, faulted, epollin}
use shadow_tor_eavesdropping.Resolve.{Strings}

-- The text up to the first byte `d`, and the one behind it.
abbrev pub split : ℕ → Bytes → Bytes × Option Bytes
split d [] = ([], none)
split d (c ∷ cs) = let rest = split d cs in if c == d then ([], some cs) else (c ∷ rest.0, rest.1)

abbrev pub agree : Bytes → Bytes → ℕ → Bool
agree _ _ zero = true
agree [] [] (suc n) = true
agree (a ∷ xs) (b ∷ bs) (suc n) = let rest = agree xs bs n in if a == b then rest else false
agree _ _ (suc n) = false

abbrev pub number : ℕ → Bytes → ℕ
number n [] = n
number n (c ∷ cs) = number (n * 10 + (c - b'0')) cs

abbrev pub lower_case : Strings
lower_case = record {
  strncasecmp_equal = agree;
  strncmp_equal = agree;
  strcmp_equal = λ a b. agree a b 100;
  strsep_colon = split b':';
  atoi = number 0;
}

-- A kernel on which every call succeeds and every `recv` gives `answer`.
abbrev pub answering : Option Bytes → Kernel
answering answer = record {
  returns = λ t c. length t + 10;
  receives = λ t c. answer;
  transfers = λ t c. pos 0;
  polls = λ t c. none;
  hostname = λ t n. codes "relay" ++ 0 ∷ [];
  addresses = λ t n. [];
  clock = λ t. record { tv_sec = 1457654400; tv_usec = 42 };
  memory = λ t n. some (replicate n 170);
  errno = λ t. 115;
  rand = λ t. 0;
}

abbrev pub talker : Kernel
talker = answering (some (codes "hi"))

-- A kernel on which `bind`, `listen` and `epoll_ctl` succeed, and two connections are waiting.
abbrev pub hosting : Kernel
hosting = record talker {
  returns = λ t c. elim c [
    | Call.bind sd ip port ↦ 0
    | Call.listen sd n ↦ 0
    | Call.epoll_ctl op ed sd events ↦ 0
    | _ ↦ length t + 10
  ];
  polls = λ t c. some ((12, epollin) ∷ []);
}

-- A kernel like this one on which there is more memory than is asked for, and a `write` writes all.
abbrev pub recording : Kernel
recording = record hosting {
  memory = λ t n. some (replicate (suc n) 170);
  transfers = λ t c. elim c [ Call.write fd bs ↦ pos (length bs) | _ ↦ pos 0 ];
  addresses = λ t n. 16777343 ∷ [];
}

-- What `..._new` returns, in a run that returns.
abbrev pub made : {S : Type 0} → Outcome S Bool → Bool
made (ok b s t) = b
made (exited c s t) = false
made (faulted e s t) = false
