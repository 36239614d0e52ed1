-- ===== src/Logger/File.antt =====
-- The file to which loggerserver/loggerserver.c and analyzer/analyzer.c append, as the kernel keeps
-- it: what the calls have made of it, from what they gave and from what the kernel answered.
use shadow_tor_eavesdropping.Base.{
  ℕ, ◌==◌, ◌&&◌, if◌then◌else◌, Bool, true, false, Option, none, some, [], ◌∷◌, ◌++◌, ℤ, pos,
  negsuc, Bytes, take, ◌≡◌, refl, arith, eq_true, inl, inr, Bool-cases, zero, suc,
}
use mathlib.Core.List.{append-nil}
use shadow_tor_eavesdropping.Sys.{Kernel, Trace, Call, FileMode, minus_one}

unfoldable pub same_path : Bytes → Bytes → Bool
same_path [] [] = true
same_path (a ∷ xs) (b ∷ ys) = a == b && same_path xs ys
same_path _ _ = false

pub same_path_refl : (path : Bytes) → same_path path path ≡ true
unfolding same_path
same_path_refl [] = refl
same_path_refl (b ∷ path) = ground (arith, same_path_refl path)

-- What a descriptor stands for: the file that an `open` gave it for, unless it was closed since.
unfoldable pub opened : Kernel → Trace → ℕ → Option (FileMode × Bytes)
opened k [] fd = none
opened k (Call.open_file mode path ∷ t) fd =
    let before = opened k t fd in
    let given = k.returns t (Call.open_file mode path) in
    if given == minus_one then before else if given == fd then some (mode, path) else before
opened k (Call.close sd ∷ t) fd = let before = opened k t fd in if sd == fd then none else before
opened k (_ ∷ t) fd = opened k t fd

-- The bytes that a `write` has written, by its result.
unfoldable pub taken : ℤ → Bytes → Bytes
taken (pos n) bs = take n bs
taken (negsuc n) bs = []

-- What becomes of the contents of the file at `path` when bytes are written to a descriptor: they
-- are appended if it was opened for this. Contents that are written over are not followed: `none`.
unfoldable pub with_bytes : Bytes → Bytes → Option (FileMode × Bytes) → Option Bytes → Option Bytes
with_bytes path bs none held = held
with_bytes path bs (some (FileMode.appending, path')) none = none
with_bytes path bs (some (FileMode.appending, path')) (some held) =
    if same_path path' path then some (held ++ bs) else some held
with_bytes path bs (some (mode, path')) held = if same_path path' path then none else held

-- The contents of the file at `path`, which held `old` at first, or was not there and `old` is
-- empty.
unfoldable pub contents : Kernel → Bytes → Bytes → Trace → Option Bytes
contents k path old [] = some old
contents k path old (Call.write fd bs ∷ t) =
    with_bytes path (taken (k.transfers t (Call.write fd bs)) bs) (opened k t fd)
      (contents k path old t)
contents k path old (Call.open_file FileMode.truncating path' ∷ t) =
    let held = contents k path old t in
    if k.returns t (Call.open_file FileMode.truncating path') == minus_one
    then held
    else if same_path path' path
    then some []
    else held
contents k path old (_ ∷ t) = contents k path old t

-- No file has the descriptor -1.
opened-none : (k : Kernel) (t : Trace) → opened k t minus_one ≡ none
unfolding opened
opened-none k [] = refl
opened-none k (Call.open_file mode path ∷ t) = ground (arith, opened-none k t)
opened-none k (Call.close sd ∷ t) = ground (arith, opened-none k t)
opened-none k (c ∷ t) = opened-none k t

taken_empty : (n : ℤ) → taken n [] ≡ []
unfolding taken
taken_empty (pos zero) = refl
taken_empty (pos (suc n)) = refl
taken_empty (negsuc n) = refl

-- How much of a message a program stores that opens the file at `path` to append to it, writes the
-- message and does not look at what the two calls return: nothing if the file does not open, and
-- otherwise what the `write` takes.
unfoldable pub stored : Kernel → Bytes → Trace → Bytes → Bytes
stored k path t bs =
    let fd = k.returns t (Call.open_file FileMode.appending path) in
    if fd == minus_one
    then []
    else taken (k.transfers (Call.open_file FileMode.appending path ∷ t) (Call.write fd bs)) bs

-- The file after an `open` and a `write`, each on its own.
pub contents-stored :
    (k : Kernel) (path old held bs : Bytes) (t : Trace)
    → contents k path old t ≡ some held
    → contents k path old (
        Call.write (k.returns t (Call.open_file FileMode.appending path)) bs
        ∷ Call.open_file FileMode.appending path
        ∷ t)
      ≡ some (held ++ stored k path t bs)
unfolding contents opened with_bytes stored
contents-stored k path old held bs t e =
    let fd = k.returns t (Call.open_file FileMode.appending path) in
    elim (Bool-cases (fd == minus_one)) [
      | inl failed ↦
          let known : fd ≡ minus_one = ground arith in
          let nothing : opened k t fd ≡ none = rw known (opened-none k t) in
          simp (failed, nothing, e, append-nil)
      | inr fine ↦ simp (fine, eq_true, same_path_refl, e)
    ]

-- Nothing is stored of an empty message.
pub stored_empty : (k : Kernel) (path : Bytes) (t : Trace) → stored k path t [] ≡ []
unfolding stored taken
stored_empty k path t =
    let c = Call.open_file FileMode.appending path in
    elim (Bool-cases (k.returns t c == minus_one)) [
      | inl failed ↦ simp failed
      | inr fine ↦ simp (fine, taken_empty (k.transfers (c ∷ t) (Call.write (k.returns t c) [])))
    ]
