-- ===== src/Sys.antt =====
-- The environment of the plug-ins: the system calls they make, what the kernel answers, and the
-- monad in which their functions run. The kernel is not code of the repository, so it is a
-- parameter: a record of functions that answer each call, given the whole history of calls.
--
-- An `int` is kept as its 32-bit pattern, so -1 is `minus_one`; an `ssize_t` is a signed integer.
pub mod Ends
pub mod Simulation
use shadow_tor_eavesdropping.Base.{
  ℕ, ◌^◌, Option, List, ◌∷◌, Bytes, ℤ, none, some, ◌-◌, Bool, true, false, not, bit_and, ◌==◌, ◌≡◌,
  refl, arith,
}

abbrev pub minus_one : ℕ
minus_one = 2 ^ 32 - 1

abbrev pub epollin : ℕ
epollin = 1

abbrev pub epollout : ℕ
epollout = 4

-- EPOLLOUT|EPOLLIN
abbrev pub epollall : ℕ
epollall = 5

-- `events & bit`, as a condition.
unfoldable pub has : ℕ → ℕ → Bool
has events bit = not (bit_and events bit == 0)

pub has_in : has epollin epollin ≡ true
unfolding has
has_in = refl

pub in_has_no_out : has epollin epollout ≡ false
unfolding has
in_has_no_out = refl

pub has_out : has epollout epollout ≡ true
unfolding has
has_out = refl

pub out_has_no_in : has epollout epollin ≡ false
unfolding has
out_has_no_in = refl

pub all_has_in : has epollall epollin ≡ true
unfolding has
all_has_in = refl

pub all_has_out : has epollall epollout ≡ true
unfolding has
all_has_out = refl

-- Which events are asked for, as a list for `simp`.
pub ruleset event_bits = (has_in, in_has_no_out, has_out, out_has_no_in, all_has_in, all_has_out)

abbrev pub einprogress : ℕ
einprogress = 115

pub data SockType : Type 0 where
  stream dgram : SockType

pub data EpollOp : Type 0 where
  ctl_add ctl_mod ctl_del : EpollOp

-- A file is opened to be emptied, to be created if missing, or to append to it.
pub data FileMode : Type 0 where
  truncating creating appending : FileMode

-- A call, with the arguments that reach the kernel. Addresses are an IP and a port.
pub data Call : Type 0 where
  socket : SockType → Call
  bind : ℕ → ℕ → ℕ → Call
  listen : ℕ → ℕ → Call
  accept : ℕ → Call
  connect : ℕ → ℕ → ℕ → Call
  close : ℕ → Call
  epoll_create : ℕ → Call
  epoll_ctl : EpollOp → ℕ → ℕ → ℕ → Call
  epoll_wait : ℕ → ℕ → Call
  recv : ℕ → ℕ → Call
  send : ℕ → Bytes → Call
  sendto : ℕ → Bytes → ℕ → ℕ → Call
  read : ℕ → ℕ → Call
  write : ℕ → Bytes → Call
  open_file : FileMode → Bytes → Call
  gethostname : ℕ → Call
  gettimeofday : Call
  getaddrinfo : Bytes → Call
  allocate : ℕ → Call
  random : Call
  create_callback : ℕ → Call
  usleep : ℕ → Call

-- The calls made so far, the last one first.
abbrev pub Trace : Type 0
Trace = List Call

pub record Timeval : Type 0 where
  pub tv_sec : ℕ
  pub tv_usec : ℕ

-- The answers. Each may depend on all that was called before, so that what other processes do in
-- between is part of the kernel.
pub record Kernel : Type 0 where
  -- the `int` that a call returns
  pub returns : Trace → Call → ℕ
  -- the bytes that a call reads; `none` is the result -1
  pub receives : Trace → Call → Option Bytes
  -- how many bytes a call wrote, or -1
  pub transfers : Trace → Call → ℤ
  -- the descriptors that `epoll_wait` reports, with their events; `none` is the result -1
  pub polls : Trace → Call → Option (List (ℕ × ℕ))
  -- what `gethostname` leaves in the buffer
  pub hostname : Trace → ℕ → Bytes
  -- the addresses of the list that `getaddrinfo` builds
  pub addresses : Trace → Bytes → List ℕ
  pub clock : Trace → Timeval
  -- the contents of a fresh block of memory; `none` is a null pointer
  pub memory : Trace → ℕ → Option Bytes
  pub errno : Trace → ℕ
  pub rand : Trace → ℕ

-- What stops a process without its asking.
pub data Fault : Type 0 where
  null_pointer double_free bad_read bad_write unterminated division_by_zero assertion : Fault

-- How a function ends: it returns, it leaves the process by `_exit`, or it does what C forbids.
pub data Outcome (S A : Type 0) : Type 0 where
  ok : A → S → Trace → Outcome S A
  exited : ℕ → S → Trace → Outcome S A
  faulted : Fault → S → Trace → Outcome S A

abbrev pub M : Type 0 → Type 0 → Type 0
M S A = Kernel → S → Trace → Outcome S A

infixl 5 ◌>>=◌ ◌>>◌
abbrev pub ◌>>=◌ : {S A B : Type 0} → M S A → (A → M S B) → M S B
◌>>=◌ m f k s t = elim (m k s t) [
  | ok a s' t' ↦ f a k s' t'
  | exited c s' t' ↦ exited c s' t'
  | faulted e s' t' ↦ faulted e s' t'
]

abbrev pub ◌>>◌ : {S B : Type 0} → M S (Unit {0}) → M S B → M S B
m >> n = m >>= λ _. n

abbrev pub pure : {S A : Type 0} → A → M S A
pure a k s t = ok a s t

abbrev pub skip : {S : Type 0} → M S (Unit {0})
skip k s t = ok tt s t

abbrev pub get : {S : Type 0} → M S S
get k s t = ok s s t

abbrev pub put : {S : Type 0} → S → M S (Unit {0})
put s' k s t = ok tt s' t

-- `_exit(status)` and `exit(status)`
abbrev pub quit : {S A : Type 0} → ℕ → M S A
quit c k s t = exited c s t

abbrev pub fault : {S A : Type 0} → Fault → M S A
fault e k s t = faulted e s t

-- An access that C does not allow ends the process.
abbrev pub or_fault : {S A : Type 0} → Fault → Option A → M S A
or_fault e none = fault e
or_fault e (some a) = pure a

-- A call for its `int` result.
abbrev pub call : {S : Type 0} → Call → M S ℕ
call c k s t = ok (k.returns t c) s (c ∷ t)

-- A call whose result the source does not use.
abbrev pub perform : {S : Type 0} → Call → M S (Unit {0})
perform c k s t = ok tt s (c ∷ t)

abbrev pub receive : {S : Type 0} → Call → M S (Option Bytes)
receive c k s t = ok (k.receives t c) s (c ∷ t)

abbrev pub transfer : {S : Type 0} → Call → M S ℤ
transfer c k s t = ok (k.transfers t c) s (c ∷ t)

abbrev pub poll : {S : Type 0} → Call → M S (Option (List (ℕ × ℕ)))
poll c k s t = ok (k.polls t c) s (c ∷ t)

abbrev pub host_name : {S : Type 0} → ℕ → M S Bytes
host_name n k s t = ok (k.hostname t n) s (Call.gethostname n ∷ t)

-- `gethostname`, with its result.
abbrev pub host_name_result : {S : Type 0} → ℕ → M S (ℕ × Bytes)
host_name_result n k s t =
    ok (k.returns t (Call.gethostname n), k.hostname t n) s (Call.gethostname n ∷ t)

abbrev pub resolve : {S : Type 0} → Bytes → M S (ℕ × List ℕ)
resolve name k s t =
    ok (k.returns t (Call.getaddrinfo name), k.addresses t name) s (Call.getaddrinfo name ∷ t)

abbrev pub time_of_day : {S : Type 0} → M S Timeval
time_of_day k s t = ok (k.clock t) s (Call.gettimeofday ∷ t)

abbrev pub allocation : {S : Type 0} → ℕ → M S (Option Bytes)
allocation n k s t = ok (k.memory t n) s (Call.allocate n ∷ t)

abbrev pub last_error : {S : Type 0} → M S ℕ
last_error k s t = ok (k.errno t) s t

abbrev pub random_number : {S : Type 0} → M S ℕ
random_number k s t = ok (k.rand t) s (Call.random ∷ t)

-- What holds of a result, if the function returns, and of the fault, if it faults.
abbrev pub Post : {S A : Type 0} → (A → S → Type 0) → (Fault → Type 0) → Outcome S A → Type 0
Post Q E (ok a s t) = Q a s
Post Q E (exited c s t) = Unit
Post Q E (faulted e s t) = E e

abbrev pub after : {S A B : Type 0} → (A → M S B) → Kernel → Outcome S A → Outcome S B
after f k (ok a s t) = f a k s t
after f k (exited c s t) = exited c s t
after f k (faulted e s t) = faulted e s t

after-Post :
    {S A B : Type 0} (P : A → S → Type 0) (Q : B → S → Type 0) (E : Fault → Type 0) (f : A → M S B)
    (k : Kernel) (o : Outcome S A)
    → Post P E o
    → ((a : A) (s : S) (t : Trace) → P a s → Post Q E (f a k s t))
    → Post Q E (after f k o)
after-Post P Q E f k (ok a s t) p next = next a s t p
after-Post P Q E f k (exited c s t) p next = tt
after-Post P Q E f k (faulted e s t) p next = p

pub >>=-after :
    {S A B : Type 0} (m : M S A) (f : A → M S B) (k : Kernel) (s : S) (t : Trace)
    → (m >>= f) k s t ≡ after f k (m k s t)
>>=-after m f k s t = ground arith

-- The rule for one function after another.
pub >>=-Post :
    {S A B : Type 0} (P : A → S → Type 0) (Q : B → S → Type 0) (E : Fault → Type 0) (m : M S A)
    (f : A → M S B) (k : Kernel) (s : S) (t : Trace)
    → Post P E (m k s t)
    → ((a : A) (s' : S) (t' : Trace) → P a s' → Post Q E (f a k s' t'))
    → Post Q E ((m >>= f) k s t)
>>=-Post P Q E m f k s t p next = rw (>>=-after m f k s t) (after-Post P Q E f k (m k s t) p next)

pub Post-mono :
    {S A : Type 0} (P Q : A → S → Type 0) (E : Fault → Type 0) (o : Outcome S A)
    → ((a : A) (s : S) → P a s → Q a s)
    → Post P E o
    → Post Q E o
Post-mono P Q E (ok a s t) f p = f a s p
Post-mono P Q E (exited c s t) f p = tt
Post-mono P Q E (faulted e s t) f p = p
