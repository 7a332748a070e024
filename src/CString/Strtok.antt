-- ===== src/CString/Strtok.antt =====
-- strtok. A call gives the next token with the text that the saved pointer then points to.
pub mod Tokens
use nss_i_assignments.Base.{
  ℕ, ◌≡◌, refl, ap, true, Option, none, some, [], ◌∷◌, ◌++◌, if◌then◌else◌, Bytes, arith, ◌≢◌,
}
use nss_i_assignments.CString.Compare.{contains, Free}

unfoldable pub skip_delims : Bytes → Bytes → Bytes
skip_delims ds [] = []
skip_delims ds (c ∷ s) = if contains c ds then skip_delims ds s else c ∷ s

-- The token that starts here, and what stands behind the one delimiter that ends it.
unfoldable pub cut : Bytes → Bytes → Bytes × Bytes
cut ds [] = ([], [])
cut ds (c ∷ s) = let rest = cut ds s in if contains c ds then ([], s) else (c ∷ rest.0, rest.1)

unfoldable pub cut_token : Bytes → Bytes → Option (Bytes × Bytes)
cut_token ds [] = none
cut_token ds (c ∷ s) = some (cut ds (c ∷ s))

unfoldable pub strtok : Bytes → Bytes → Option (Bytes × Bytes)
unfolding skip_delims cut cut_token contains
strtok ds s = cut_token ds (skip_delims ds s)

cut_lem :
    (ds t : Bytes) (d : ℕ) (rest : Bytes)
    → Free ds t
    → contains d ds ≡ true
    → cut ds (t ++ d ∷ rest) ≡ (t, rest)
unfolding cut
cut_lem ds [] d rest f h = rw h
cut_lem ds (c ∷ t) d rest f h = ground (arith, cut_lem ds t d rest f.1 h)

cut_last : (ds t : Bytes) → Free ds t → cut ds t ≡ (t, [])
unfolding cut
cut_last ds [] f = refl
cut_last ds (c ∷ t) f = ground (arith, cut_last ds t f.1)

-- A token with no delimiter in it is read back, and the pointer then stands behind the delimiter.
pub strtok-token :
    (ds t : Bytes) (d : ℕ) (rest : Bytes)
    → t ≢ []
    → Free ds t
    → contains d ds ≡ true
    → strtok ds (t ++ d ∷ rest) ≡ some (t, rest)
unfolding skip_delims cut_token strtok
strtok-token ds [] d rest ne f h = absurd (ne refl)
strtok-token ds (c ∷ t) d rest ne f h =
    rw f.0 (ap (λ (p : Bytes × Bytes). some p) (cut_lem ds (c ∷ t) d rest f h))

pub strtok-last : (ds t : Bytes) → t ≢ [] → Free ds t → strtok ds t ≡ some (t, [])
unfolding skip_delims cut_token strtok
strtok-last ds [] ne f = absurd (ne refl)
strtok-last ds (c ∷ t) ne f = rw f.0 (ap (λ (p : Bytes × Bytes). some p) (cut_last ds (c ∷ t) f))
