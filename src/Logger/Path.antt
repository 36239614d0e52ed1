-- ===== src/Logger/Path.antt =====
-- What `strcpy` does in the start of the logger and of the analyzer.
use shadow_tor_eavesdropping.Base.{
  none, some, [], ◌∷◌, ◌++◌, Bytes, length, ◌<◌, ◌≤◌, ◌≡◌, refl, arith, ltb, if◌then◌else◌,
  Bool-cases, inl, inr,
}
use shadow_tor_eavesdropping.Sys.{Kernel, Trace, Call, ok, faulted, Fault}
use shadow_tor_eavesdropping.Logger.LoggerStart.{copy_path}
use shadow_tor_eavesdropping.TProxy.Buffers.{write_at}

-- A text and its end, where there is no room for the end, and where there is.
write_at-none :
    (path fresh : Bytes) → length fresh ≤ length path → write_at 0 (path ++ 0 ∷ []) fresh ≡ none
unfolding write_at
write_at-none [] [] e = refl
write_at-none [] (x ∷ fresh) e = absurd (omega arith)
write_at-none (b ∷ path) [] e = refl
write_at-none (b ∷ path) (x ∷ fresh) e = simp (write_at-none path fresh (omega arith))

write_at-some :
    (path fresh : Bytes)
    → length path < length fresh
    → (r : Bytes) × (write_at 0 (path ++ 0 ∷ []) fresh ≡ some r)
unfolding write_at
write_at-some path [] l = absurd (omega arith)
write_at-some [] (x ∷ fresh) l = (0 ∷ fresh, refl)
write_at-some (b ∷ path) (x ∷ fresh) l =
    let (r, e) = write_at-some path fresh (omega arith) in (b ∷ r, simp e)

-- `strcpy` in `loggerserver_new` and `analyzer_new` writes the path and its end to a block that was
-- asked for with the length of the path alone. If the block is longer than the path, it returns;
-- if it is as long as the path, or shorter, it writes beyond the end of the block.
pub copy_path_lem :
    {S : Type 0} (k : Kernel) (h : S) (t : Trace) (path fresh : Bytes)
    → k.memory t (length path) ≡ some fresh
    → copy_path path k h t ≡ (
        if ltb (length path) (length fresh)
        then ok tt h (Call.allocate (length path) ∷ t)
        else faulted Fault.bad_write h (Call.allocate (length path) ∷ t))
unfolding copy_path
copy_path_lem k h t path fresh e = elim (Bool-cases (ltb (length path) (length fresh))) [
  | inl longer ↦ let (r, w) = write_at-some path fresh (ground arith) in simp (e, w, longer)
  | inr short ↦ simp (e, write_at-none path fresh (ground arith), short)
]
