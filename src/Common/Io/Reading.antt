-- ===== src/Common/Io/Reading.antt =====
-- The outcomes of read_all_fd of Assignment2/a2_common.c.
use nss_i_assignments.Base.{
  ℕ, zero, suc, ◌-◌, ◌≤◌, ◌<◌, ◌≡◌, refl, sym, ◌∙◌, ap, ◌⊎◌, inl, inr, List, [], ◌∷◌, ◌++◌,
  append-nil, append_assoc, ltb, ltb→lt, Bytes, length, take, drop, length-append, length-drop,
  take-append, drop-append, take-append_self, drop-append_self, take-eq_self, drop-eq-nil, arith,
  Bool-cases,
}
use nss_i_assignments.Common.Io.{
  Read, chunk, interrupted, failed, ReadResult, complete, end_of_file, read_error, read_loop,
  read_all,
}

-- The bytes that a descriptor delivers before its end, or before an error.
abbrev pub content : List Read → Bytes
content [] = []
content (interrupted ∷ script) = content script
content (failed ∷ script) = []
content (chunk [] ∷ script) = []
content (chunk (b ∷ bs) ∷ script) = (b ∷ bs) ++ content script

-- What stops the reading behind those bytes.
abbrev pub stop : List Read → ReadResult
stop [] = end_of_file
stop (interrupted ∷ script) = stop script
stop (failed ∷ script) = read_error
stop (chunk [] ∷ script) = end_of_file
stop (chunk (b ∷ bs) ∷ script) = stop script

abbrev pub Reads : Bytes → ℕ → List Read → ReadResult × List Read → Type 0
Reads got need script (r, rest) =
    ((need ≤ length (content script))
      × (r ≡ complete (got ++ take need (content script)))
      × (content rest ≡ drop need (content script)))
    ⊎ ((length (content script) < need) × (r ≡ stop script))

content-chunk :
    (bs : Bytes) (script : List Read)
    → 0 < length bs
    → content (chunk bs ∷ script) ≡ bs ++ content script
content-chunk [] script h = absurd (omega arith)
content-chunk (b ∷ bs) script h = refl

cut_Reads :
    (got all : Bytes) (need : ℕ) (script : List Read)
    → need < length all
    → content (chunk all ∷ script) ≡ all ++ content script
    → Reads got need
        (chunk all ∷ script)
        (complete (got ++ take need all), chunk (drop need all) ∷ script)
cut_Reads got all need script h e = inl (
  rw e (omega (arith, length-append all (content script))),
  rw (e, take-append need all (content script), none_left) (rw append-nil),
  rw (e, drop-append need all (content script), none_left)
      (content-chunk (drop need all) script (omega (arith, length-drop need all))),
)
  where
    none_left : need - length all ≡ 0
    none_left = omega arith

extend_Reads :
    (got all : Bytes) (need : ℕ) (script : List Read) (r : ReadResult × List Read)
    → length all ≤ need
    → content (chunk all ∷ script) ≡ all ++ content script
    → stop (chunk all ∷ script) ≡ stop script
    → Reads (got ++ all) (need - length all) script r
    → Reads got need (chunk all ∷ script) r
extend_Reads got all need script (r, rest) h e s (inl (len, res, left)) = inl (
  rw e (omega (arith, length-append all (content script))),
  rw (e, take-append need all (content script), take-eq_self need all h) (res ∙ rw append_assoc),
  rw (e, drop-append need all (content script), drop-eq-nil need all h) left,
)
extend_Reads got all need script (r, rest) h e s (inr (short, res)) =
    inr (rw e (omega (arith, length-append all (content script))), res ∙ sym s)

read_loop-Reads :
    (got : Bytes) (need : ℕ) (script : List Read)
    → Reads got need script (read_loop got need script)
unfolding read_loop
read_loop-Reads got zero script = inl (omega arith, rw append-nil, refl)
read_loop-Reads got (suc need) [] = inr (omega arith, refl)
read_loop-Reads got (suc need) (interrupted ∷ script) = read_loop-Reads got (suc need) script
read_loop-Reads got (suc need) (failed ∷ script) = inr (omega arith, refl)
read_loop-Reads got (suc need) (chunk [] ∷ script) = inr (omega arith, refl)
read_loop-Reads got (suc need) (chunk (b ∷ bs) ∷ script) =
    elim (Bool-cases (ltb (suc need) (suc (length bs)))) [
      | inl long ↦ rw long (cut_Reads got (b ∷ bs) (suc need) script (ltb→lt _ _ long) refl)
      | inr short ↦ rw short (
          extend_Reads got (b ∷ bs) (suc need) script
            (read_loop (got ++ b ∷ bs) (suc need - suc (length bs)) script) (ground arith) refl refl
            (read_loop-Reads (got ++ b ∷ bs) (suc need - suc (length bs)) script))
    ]

-- read_all_fd, however the input is cut into chunks and interrupted: if the descriptor delivers at
-- least `len` bytes, the result is 1 with exactly the first `len` of them, and what it delivers
-- after that is left to be read; else the result is what stopped the reading, 0 at the end of the
-- file and -1 at an error.
pub read_all-Reads : (len : ℕ) (script : List Read) → Reads [] len script (read_all len script)
unfolding read_all
read_all-Reads len script = read_loop-Reads [] len script

-- What stands next on the descriptor is what a read of its length gives.
pub read_all_exact :
    (bytes rest : Bytes) (script : List Read)
    → content script ≡ bytes ++ rest
    → (later : List Read) × (read_all (length bytes) script ≡ (complete bytes, later))
      × (content later ≡ rest)
read_all_exact bytes rest script e =
    go (read_all (length bytes) script) refl (read_all-Reads (length bytes) script)
  where
    go :
        (r : ReadResult × List Read)
        → read_all (length bytes) script ≡ r
        → Reads [] (length bytes) script r
        → (later : List Read) × (read_all (length bytes) script ≡ (complete bytes, later))
          × (content later ≡ rest)
    go (r, later) run (inl (enough, got, left)) =
        let same : take (length bytes) (content script) ≡ bytes =
          rw e (take-append_self bytes rest) in
        (
          later,
          run ∙ ap {B = ReadResult × List Read} (λ x. (x, later)) (got ∙ ap complete same),
          left ∙ rw e (drop-append_self bytes rest),
        )
    go (r, later) run (inr (short, got)) =
        absurd (omega (arith, short, ap length e, length-append bytes rest))
