-- ===== src/CString/FilePath/Climbing.antt =====
-- What dirname makes of a path, again and again.
use mathlib.Core.List.{reverse, reverse-append, reverse-reverse}
use nss_i_assignments.Base.{
  ℕ, suc, ◌<◌, ◌≤◌, ◌≡◌, refl, sym, ◌∙◌, ap, ◌⊎◌, inl, inr, Bool, true, false, ◌||◌, [], ◌∷◌, ◌++◌,
  append_assoc, ◌==◌, codes, Bytes, length, length-append, arith, Bool-cases,
}
use nss_i_assignments.CString.FilePath.{
  dirname, strip_slashes, from_slash, dir_of, is_slash_first, two_slashes,
}

-- "." or "/"
unfoldable pub is_top : Bytes → Bool
is_top (c ∷ []) = c == b'.' || c == b'/'
is_top _ = false

length-reverse : (s : Bytes) → length (reverse s) ≡ length s
length-reverse [] = refl
length-reverse (c ∷ s) =
    ap length (reverse-append (c ∷ []) s)
    ∙ length-append (reverse s) (c ∷ [])
    ∙ omega (arith, length-reverse s)

length-strip_slashes : (s : Bytes) → length (strip_slashes s) ≤ length s
unfolding strip_slashes
length-strip_slashes [] = omega arith
length-strip_slashes (c ∷ s) = ground (arith, length-strip_slashes s)

length-from_slash : (s : Bytes) → length (from_slash s) ≤ length s
unfolding from_slash
length-from_slash [] = omega arith
length-from_slash (c ∷ s) = ground (arith, length-from_slash s)

-- What starts at a slash loses that slash.
stripped :
    (s : Bytes)
    → (strip_slashes (from_slash s) ≡ []) ⊎ (length (strip_slashes (from_slash s)) < length s)
unfolding from_slash strip_slashes
stripped [] = inl refl
stripped (c ∷ s) = elim (Bool-cases (c == b'/')) [
  | inl e ↦ inr (rw (e, strip_slashes, e) (omega (arith, length-strip_slashes s)))
  | inr e ↦ elim (stripped s) [ inl h ↦ inl (rw e h) | inr h ↦ inr (rw e (omega (arith, h))) ]
]

-- What remains stands at the end of the reversed path, and starts with no slash.
strip_slashes-suffix : (s : Bytes) → (front : Bytes) × (s ≡ front ++ strip_slashes s)
unfolding strip_slashes
strip_slashes-suffix [] = ([], refl)
strip_slashes-suffix (c ∷ s) = elim (Bool-cases (c == b'/')) [
  | inl e ↦
      let (front, same) = strip_slashes-suffix s in
      rw (strip_slashes, e) (c ∷ front, ap (◌∷◌ c) same)
  | inr e ↦ rw (strip_slashes, e) ([], refl)
]

from_slash-suffix : (s : Bytes) → (front : Bytes) × (s ≡ front ++ from_slash s)
unfolding from_slash
from_slash-suffix [] = ([], refl)
from_slash-suffix (c ∷ s) = elim (Bool-cases (c == b'/')) [
  | inl e ↦ rw (from_slash, e) ([], refl)
  | inr e ↦
      let (front, same) = from_slash-suffix s in rw (from_slash, e) (c ∷ front, ap (◌∷◌ c) same)
]

strip_slashes-head : (s r : Bytes) (c : ℕ) → strip_slashes s ≡ c ∷ r → (c == b'/') ≡ false
unfolding strip_slashes
strip_slashes-head [] r c e = cc
strip_slashes-head (d ∷ s) r c e = elim (Bool-cases (d == b'/')) [
  | inl t ↦ strip_slashes-head s r c (rw (strip_slashes, t) at e)
  | inr n ↦
      let same : d ∷ s ≡ c ∷ r = rw (strip_slashes, n) at e in
      let first : d ≡ c = cc in rw first at n
]

-- A front that ends in no slash has two at its start only if the whole has.
two_slashes-front :
    (q rest r : Bytes) (c : ℕ)
    → reverse q ≡ c ∷ r
    → (c == b'/') ≡ false
    → two_slashes (q ++ rest) ≡ false
    → two_slashes q ≡ false
unfolding two_slashes
two_slashes-front [] rest r c e n h = refl
two_slashes-front (a ∷ []) rest r c e n h = refl
two_slashes-front (a ∷ b ∷ []) rest r c e n h =
    let last : b ∷ a ∷ [] ≡ c ∷ r = e in
    let same : b ≡ c = cc in let no_slash : (b == b'/') ≡ false = rw same n in ground arith
two_slashes-front (a ∷ b ∷ d ∷ q) rest r c e n h = h

dir_of-nil : (p : Bytes) → two_slashes p ≡ false → is_top (dir_of p []) ≡ true
unfolding dir_of is_top
dir_of-nil p h = elim (Bool-cases (is_slash_first p)) [
  | inl e ↦ rw (h, e) refl
  | inr e ↦ rw (h, e) refl
]

abbrev remains : Bytes → Bytes
remains p = strip_slashes (from_slash (strip_slashes (reverse p)))

remains-suffix : (p : Bytes) → (front : Bytes) × (reverse p ≡ front ++ remains p)
remains-suffix p =
    let (a, e) = strip_slashes-suffix (reverse p) in
    let (b, e') = from_slash-suffix (strip_slashes (reverse p)) in
    let (c, e'') = strip_slashes-suffix (from_slash (strip_slashes (reverse p))) in
    (
      a ++ (b ++ c),
      e
          ∙ ap (λ (x : Bytes). a ++ x) (e' ∙ ap (λ (x : Bytes). b ++ x) e'')
          ∙ sym (
              append_assoc a (b ++ c) (remains p)
              ∙ ap (λ (x : Bytes). a ++ x) (append_assoc b c (remains p))),
    )

-- dirname gives "." or "/", or a shorter path, where the path does not start with exactly two slashes.
pub dirname-top_or_shorter :
    (p : Bytes)
    → two_slashes p ≡ false
    → (is_top (dirname p) ≡ true)
      ⊎ ((length (dirname p) < length p) × (two_slashes (dirname p) ≡ false))
unfolding dirname dir_of
dirname-top_or_shorter p h = go (remains p) refl
  where
    go :
        (d : Bytes)
        → remains p ≡ d
        → (is_top (dir_of p d) ≡ true)
          ⊎ ((length (dir_of p d) < length p) × (two_slashes (dir_of p d) ≡ false))
    go [] e = inl (dir_of-nil p h)
    go (c ∷ r) e = elim (stripped (strip_slashes (reverse p))) [
      | inl gone ↦ let bad : c ∷ r ≡ [] = sym e ∙ gone in cc
      | inr short ↦
          let (front, same) = remains-suffix p in
          let whole : p ≡ reverse (c ∷ r) ++ reverse front =
            sym (reverse-reverse p)
            ∙ ap reverse (same ∙ ap (λ (x : Bytes). front ++ x) e)
            ∙ reverse-append front (c ∷ r) in
          inr (
            omega (
              arith,
              short,
              ap length e,
              length-reverse (c ∷ r),
              length-reverse p,
              length-strip_slashes (reverse p),
            ),
            two_slashes-front (reverse (c ∷ r)) (reverse front) r c (reverse-reverse (c ∷ r))
                (strip_slashes-head (from_slash (strip_slashes (reverse p))) r c e)
                (ap two_slashes (sym whole) ∙ h),
          )
    ]

-- Fuel that is enough for a loop that climbs from a directory.
abbrev pub Enough : ℕ → Bytes → Type 0
Enough f dir =
    ((is_top dir ≡ true) × (0 < f)) ⊎ ((suc (length dir) < f) × (two_slashes dir ≡ false))

pub Enough-up :
    (f : ℕ) (dir : Bytes) → is_top dir ≡ false → Enough (suc f) dir → Enough f (dirname dir)
Enough-up f dir low (inl (t, _)) = cc
Enough-up f dir low (inr (h, one)) = elim (dirname-top_or_shorter dir one) [
  | inl t ↦ inl (t, omega arith)
  | inr (s, one') ↦ inr (omega arith, one')
]

-- No climb leaves a path of two slashes.
pub dirname-two_slashes : (dirname (codes "//") ≡ codes "//") × (is_top (codes "//") ≡ false)
unfolding dirname is_top
dirname-two_slashes = (refl, refl)

-- A path from which a loop that climbs ends, at "." or "/".
abbrev pub Climbable : Bytes → Type 0
Climbable dir = two_slashes dir ≡ false

pub Enough-start :
    (dir : Bytes) → Climbable dir → Enough (suc (suc (length (dirname dir)))) (dirname dir)
Enough-start dir one = elim (dirname-top_or_shorter dir one) [
  | inl t ↦ inl (t, omega arith)
  | inr (_, one') ↦ inr (omega arith, one')
]
