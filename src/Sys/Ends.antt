-- ===== src/Sys/Ends.antt =====
-- What holds at the end of a run, of its calls too.
use shadow_tor_eavesdropping.Sys.{
  Kernel, Trace, Outcome, ok, exited, faulted, M, ◌>>=◌, after, >>=-after, Fault, Post,
}

-- What holds of the result, the state and the calls of a run that returns, and of the fault of one
-- that faults.
abbrev pub Ends :
    {S A : Type 0} → (A → S → Trace → Type 0) → (Fault → Type 0) → Outcome S A → Type 0
Ends Q E (ok a s t) = Q a s t
Ends Q E (exited c s t) = Unit
Ends Q E (faulted e s t) = E e

-- Any fault.
abbrev pub AnyFault : Fault → Type 0
AnyFault e = Unit

module _ {S A : Type 0} (E : Fault → Type 0) where
  pub Ends-Post : (Q : A → S → Type 0) (o : Outcome S A) → Ends (λ a s t. Q a s) E o → Post Q E o
  Ends-Post Q (ok a s t) p = p
  Ends-Post Q (exited c s t) p = p
  Ends-Post Q (faulted e s t) p = p

  pub Post-Ends : (Q : A → S → Type 0) (o : Outcome S A) → Post Q E o → Ends (λ a s t. Q a s) E o
  Post-Ends Q (ok a s t) p = p
  Post-Ends Q (exited c s t) p = p
  Post-Ends Q (faulted e s t) p = p

pub Ends-mono :
    {S A : Type 0} (P Q : A → S → Trace → Type 0) (E : Fault → Type 0) (o : Outcome S A)
    → ((a : A) (s : S) (t : Trace) → P a s t → Q a s t)
    → Ends P E o
    → Ends Q E o
Ends-mono P Q E (ok a s t) f p = f a s t p
Ends-mono P Q E (exited c s t) f p = tt
Ends-mono P Q E (faulted e s t) f p = p

after-Ends :
    {S A B : Type 0} (P : A → S → Trace → Type 0) (Q : B → S → Trace → Type 0) (E : Fault → Type 0)
    (f : A → M S B) (k : Kernel) (o : Outcome S A)
    → Ends P E o
    → ((a : A) (s : S) (t : Trace) → P a s t → Ends Q E (f a k s t))
    → Ends Q E (after f k o)
after-Ends P Q E f k (ok a s t) p next = next a s t p
after-Ends P Q E f k (exited c s t) p next = tt
after-Ends P Q E f k (faulted e s t) p next = p

-- The rule for one function after another.
pub >>=-Ends :
    {S A B : Type 0} (P : A → S → Trace → Type 0) (Q : B → S → Trace → Type 0) (E : Fault → Type 0)
    (m : M S A) (f : A → M S B) (k : Kernel) (s : S) (t : Trace)
    → Ends P E (m k s t)
    → ((a : A) (s' : S) (t' : Trace) → P a s' t' → Ends Q E (f a k s' t'))
    → Ends Q E ((m >>= f) k s t)
>>=-Ends P Q E m f k s t p next = rw (>>=-after m f k s t) (after-Ends P Q E f k (m k s t) p next)
