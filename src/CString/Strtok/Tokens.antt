-- ===== src/CString/Strtok/Tokens.antt =====
-- What a call of strtok takes from a text.
use nss_i_assignments.Base.{
  ℕ, ◌<◌, ◌≤◌, ◌≡◌, ◌≢◌, refl, ap, subst, inl, inr, false, none, some, [], ◌∷◌, ◌++◌, if◌then◌else◌,
  Bytes, length, arith, Bool-cases,
}
use nss_i_assignments.CString.Compare.{contains, Free}
use nss_i_assignments.CString.Strtok.{skip_delims, cut, cut_token, strtok}

-- The text without the delimiters.
unfoldable pub without : Bytes → Bytes → Bytes
without ds [] = []
without ds (c ∷ s) = let rest = without ds s in if contains c ds then rest else c ∷ rest

-- A token, and the text behind it.
pub record Takes (ds s : Bytes) (r : Bytes × Bytes) : Type 0 where
  pub some_byte : r.0 ≢ []
  pub free : Free ds r.0
  pub shorter : length r.1 < length s
  pub kept : without ds s ≡ r.0 ++ without ds r.1

length-cut : (ds s : Bytes) → length (cut ds s).1 ≤ length s
unfolding cut
length-cut ds [] = omega arith
length-cut ds (c ∷ s) = elim (Bool-cases (contains c ds)) [
  | inl d ↦ rw d (omega arith)
  | inr d ↦ rw d (omega (arith, length-cut ds s))
]

cut-Free : (ds s : Bytes) → Free ds (cut ds s).0
unfolding cut
cut-Free ds [] = tt
cut-Free ds (c ∷ s) = elim (Bool-cases (contains c ds)) [
  | inl d ↦ rw d tt
  | inr d ↦ rw d (d, cut-Free ds s)
]

cut_kept : (ds s : Bytes) → without ds s ≡ (cut ds s).0 ++ without ds (cut ds s).1
unfolding cut without
cut_kept ds [] = refl
cut_kept ds (c ∷ s) = elim (Bool-cases (contains c ds)) [
  | inl d ↦ rw d refl
  | inr d ↦ rw d (ap (◌∷◌ c) (cut_kept ds s))
]

cut-Takes :
    (ds : Bytes) (c : ℕ) (s : Bytes) → contains c ds ≡ false → Takes ds (c ∷ s) (cut ds (c ∷ s))
unfolding cut
cut-Takes ds c s d = record {
  some_byte = rw d (λ (e : c ∷ (cut ds s).0 ≡ []). cc);
  free = cut-Free ds (c ∷ s);
  shorter = rw d (omega (arith, length-cut ds s));
  kept = cut_kept ds (c ∷ s);
}

-- A call takes a token that is not empty and has no delimiter, and leaves a shorter text, of which
-- no byte but delimiters is missing.
pub strtok-Takes : (ds s : Bytes) (r : Bytes × Bytes) → strtok ds s ≡ some r → Takes ds s r
unfolding strtok skip_delims cut_token without
strtok-Takes ds [] r e = cc
strtok-Takes ds (c ∷ s) r e = elim (Bool-cases (contains c ds)) [
  | inr d ↦
      let got : some (cut ds (c ∷ s)) ≡ some r = rw d at e in
      let same : cut ds (c ∷ s) ≡ r = cc in subst (Takes ds (c ∷ s)) same (cut-Takes ds c s d)
  | inl d ↦
      let t = strtok-Takes ds s r (rw d at e) in
      record {
        some_byte = t.some_byte;
        free = t.free;
        shorter = omega (arith, t.shorter);
        kept = rw d t.kept;
      }
]

-- Where no token is left, nothing but delimiters was.
pub strtok-none : (ds s : Bytes) → strtok ds s ≡ none → without ds s ≡ []
unfolding strtok skip_delims cut_token without
strtok-none ds [] e = refl
strtok-none ds (c ∷ s) e = elim (Bool-cases (contains c ds)) [
  | inr d ↦ let bad : some (cut ds (c ∷ s)) ≡ none = rw d at e in cc
  | inl d ↦ rw d (strtok-none ds s (rw d at e))
]
