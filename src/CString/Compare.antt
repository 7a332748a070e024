-- ===== src/CString/Compare.antt =====
-- strcmp, strncmp, strchr, strstr, snprintf("%s") and memcmp, and the laws that the programs rest on.
use nss_i_assignments.Base.{
  ℕ, ◌-◌, ◌<◌, ◌≡◌, ◌↔◌, refl, ap, Bool, true, false, ◌&&◌, ◌||◌, [], ◌∷◌, ◌++◌, ◌==◌,
  if◌then◌else◌, Bytes, length, take, All, take-eq_self, arith, Bool-cases, inl, inr, length-take,
}

-- strcmp(a, b) == 0, and memcmp of two arrays of one length.
unfoldable pub str_eq : Bytes → Bytes → Bool
str_eq [] [] = true
str_eq (x ∷ xs) (y ∷ ys) = x == y && str_eq xs ys
str_eq _ _ = false

-- strncmp(s, p, strlen(p)) == 0
unfoldable pub has_prefix : Bytes → Bytes → Bool
has_prefix [] s = true
has_prefix (c ∷ p) [] = false
has_prefix (c ∷ p) (d ∷ s) = c == d && has_prefix p s

-- strchr(s, c) != NULL, for a c that is not the terminator
unfoldable pub contains : ℕ → Bytes → Bool
contains c [] = false
contains c (x ∷ xs) = x == c || contains c xs

-- strstr(s, p) != NULL
unfoldable pub strstr : Bytes → Bytes → Bool
unfolding has_prefix
strstr p [] = has_prefix p []
strstr p (c ∷ s) = has_prefix p (c ∷ s) || strstr p s

-- snprintf(out, size, "%s", s): what `out` holds, for a positive size.
abbrev pub snprintf : ℕ → Bytes → Bytes
snprintf size s = take (size - 1) s

-- A buffer read as a string: what stands before the first zero.
unfoldable pub c_string : Bytes → Bytes
c_string [] = []
c_string (b ∷ bs) = let rest = c_string bs in if b == 0 then [] else b ∷ rest

pub str_eq_iff : (a b : Bytes) → (str_eq a b ≡ true) ↔ (a ≡ b)
unfolding str_eq
str_eq_iff (x ∷ a) (y ∷ b) = ground (arith, str_eq_iff a b)
str_eq_iff _ _ = ground arith

pub str_eq_self : (a : Bytes) → str_eq a a ≡ true
str_eq_self a = (str_eq_iff a a).1 refl

pub str_eq-false : (a b : Bytes) → length a < length b → str_eq a b ≡ false
str_eq-false a b h = elim (Bool-cases (str_eq a b)) [
  | inl e ↦ absurd (omega (arith, ap length ((str_eq_iff a b).0 e)))
  | inr e ↦ e
]

pub has_prefix-append : (p s : Bytes) → has_prefix p (p ++ s) ≡ true
unfolding has_prefix
has_prefix-append [] s = refl
has_prefix-append (c ∷ p) s = ground (arith, has_prefix-append p s)

pub snprintf-fits : (size : ℕ) (s : Bytes) → length s < size → snprintf size s ≡ s
snprintf-fits size s h = take-eq_self (size - 1) s (omega arith)

pub length-snprintf-lt : (size : ℕ) (s : Bytes) → 0 < size → length (snprintf size s) < size
length-snprintf-lt size s h = omega (arith, length-take (size - 1) s)

-- No byte of `s` is one of `ds`.
abbrev pub Free : Bytes → Bytes → Type 0
Free ds s = All (λ c. contains c ds ≡ false) s

pub Free-contains : (c : ℕ) (s : Bytes) → All (λ x. (x == c) ≡ false) s → contains c s ≡ false
unfolding contains
Free-contains c [] h = refl
Free-contains c (x ∷ xs) h = ground (arith, Free-contains c xs h.1)

pub contains-append : (c : ℕ) (s t : Bytes) → contains c (s ++ t) ≡ (contains c s || contains c t)
unfolding contains
contains-append c [] t = refl
contains-append c (x ∷ s) t = ground (arith, contains-append c s t)
