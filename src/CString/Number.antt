-- ===== src/CString/Number.antt =====
-- strtol(s, NULL, 10), atoi, and the printing of %d and %ld for numbers that are not negative.
-- `long` has 64 bits and `int` 32; atoi is the value of strtol cut down to an int, as in glibc.
use nss_i_assignments.Base.{
  ℕ, zero, suc, ◌+◌, ◌-◌, ◌*◌, ◌/◌, ◌%◌, ◌^◌, ◌<◌, ◌≡◌, Bool, true, false, not, ◌&&◌, ◌||◌, [], ◌∷◌,
  ltb, leb, ◌==◌, if◌then◌else◌, Bytes, All, length, ◌≤◌, ◌≢◌, arith, Bool-cases, inl, inr,
}

-- `negsuc n` is -(n + 1).
pub data ℤ : Type 0 where
  pos : ℕ → ℤ
  negsuc : ℕ → ℤ

abbrev pub is_digit : ℕ → Bool
is_digit c = leb b'0' c && leb c b'9'

abbrev is_space : ℕ → Bool
is_space c = c == b' ' || leb 9 c && leb c 13

skip_space : Bytes → Bytes
skip_space [] = []
skip_space (c ∷ s) = if is_space c then skip_space s else c ∷ s

digits_value : ℕ → Bytes → ℕ
digits_value acc [] = acc
digits_value acc (c ∷ s) =
    let rest = digits_value (acc * 10 + (c - b'0')) s in if is_digit c then rest else acc

-- Out of range the result is LONG_MAX or LONG_MIN.
abbrev clamp_long : Bool → ℕ → ℤ
clamp_long false n = if ltb n (2 ^ 63) then pos n else pos (2 ^ 63 - 1)
clamp_long true zero = pos 0
clamp_long true (suc n) = if ltb n (2 ^ 63) then negsuc n else negsuc (2 ^ 63 - 1)

signed_value : Bytes → ℤ
unfolding digits_value
signed_value [] = pos 0
signed_value (c ∷ s) =
    if c == b'-'
    then clamp_long true (digits_value 0 s)
    else if c == b'+'
    then clamp_long false (digits_value 0 s)
    else clamp_long false (digits_value 0 (c ∷ s))

unfoldable pub strtol : Bytes → ℤ
unfolding skip_space signed_value
strtol s = signed_value (skip_space s)

-- strtoull(s, NULL, 10): out of range the result is ULLONG_MAX, and a minus sign wraps around.
abbrev clamp_ull : Bool → ℕ → ℕ
clamp_ull negative n =
    if not (ltb n (2 ^ 64)) then 2 ^ 64 - 1 else if negative then (2 ^ 64 - n) % 2 ^ 64 else n

unsigned_value : Bytes → ℕ
unfolding digits_value
unsigned_value [] = 0
unsigned_value (c ∷ s) =
    if c == b'-'
    then clamp_ull true (digits_value 0 s)
    else if c == b'+'
    then clamp_ull false (digits_value 0 s)
    else clamp_ull false (digits_value 0 (c ∷ s))

unfoldable pub strtoull : Bytes → ℕ
unfolding skip_space unsigned_value
strtoull s = unsigned_value (skip_space s)

-- The low 32 bits, read as an int.
abbrev to_int : ℤ → ℤ
to_int (pos n) =
    let low = n % 2 ^ 32 in if ltb low (2 ^ 31) then pos low else negsuc (2 ^ 32 - low - 1)
to_int (negsuc n) =
    let low = n % 2 ^ 32 in if ltb low (2 ^ 31) then negsuc low else pos (2 ^ 32 - low - 1)

unfoldable pub atoi : Bytes → ℤ
unfolding strtol
atoi s = to_int (strtol s)

-- Decimal digits, the first one first; the fuel is at least the number of digits.
unfoldable pub digits_onto : ℕ → ℕ → Bytes → Bytes
digits_onto zero n acc = acc
digits_onto (suc f) n acc =
    let more = digits_onto f (n / 10) ((b'0' + n % 10) ∷ acc) in
    if ltb n 10 then (b'0' + n) ∷ acc else more

unfoldable pub print_dec : ℕ → Bytes
unfolding digits_onto
print_dec n = digits_onto (n + 1) n []

-- %d and %ld
unfoldable pub print_int : ℤ → Bytes
unfolding print_dec
print_int (pos n) = print_dec n
print_int (negsuc n) = b'-' ∷ print_dec (n + 1)

digits_value-digits_onto :
    (f n : ℕ) (acc : Bytes) → n < f → digits_value 0 (digits_onto f n acc) ≡ digits_value n acc
unfolding digits_onto digits_value
digits_value-digits_onto zero n acc h = absurd (omega arith)
digits_value-digits_onto (suc f) n acc h =
    ground (arith, digits_value-digits_onto f (n / 10) ((b'0' + n % 10) ∷ acc))

-- The text of a number starts with a digit.
abbrev StartsDigit : Bytes → Type 0
StartsDigit [] = ⊥
StartsDigit (c ∷ s) = is_digit c ≡ true

digits_onto-StartsDigit : (f n : ℕ) (acc : Bytes) → n < f → StartsDigit (digits_onto f n acc)
unfolding digits_onto
digits_onto-StartsDigit zero n acc h = absurd (omega arith)
digits_onto-StartsDigit (suc f) n acc h = elim (Bool-cases (ltb n 10)) [
  | inl small ↦ rw small (ground arith)
  | inr big ↦ rw big (digits_onto-StartsDigit f (n / 10) ((b'0' + n % 10) ∷ acc) (ground arith))
]

strtol_digits :
    (s : Bytes) → StartsDigit s → digits_value 0 s < 2 ^ 63 → strtol s ≡ pos (digits_value 0 s)
unfolding strtol skip_space signed_value
strtol_digits [] d h = absurd d
strtol_digits (c ∷ s) d h = ground arith

-- What %ld prints of a long that is not negative, strtol reads back.
pub strtol-print_dec : (n : ℕ) → n < 2 ^ 63 → strtol (print_dec n) ≡ pos n
unfolding print_dec
strtol-print_dec n h =
    let e = digits_value-digits_onto (n + 1) n [] (omega arith) in
    let back =
      strtol_digits (digits_onto (n + 1) n [])
        (digits_onto-StartsDigit (n + 1) n [] (omega arith)) in
    unfold digits_value in ground (arith, e, back)

strtoull_digits :
    (s : Bytes) → StartsDigit s → digits_value 0 s < 2 ^ 64 → strtoull s ≡ digits_value 0 s
unfolding strtoull skip_space unsigned_value
strtoull_digits [] d h = absurd d
strtoull_digits (c ∷ s) d h = ground arith

-- What %zu prints of a size, strtoull reads back.
pub strtoull-print_dec : (n : ℕ) → n < 2 ^ 64 → strtoull (print_dec n) ≡ n
unfolding print_dec
strtoull-print_dec n h =
    let e = digits_value-digits_onto (n + 1) n [] (omega arith) in
    let back =
      strtoull_digits (digits_onto (n + 1) n [])
        (digits_onto-StartsDigit (n + 1) n [] (omega arith)) in
    unfold digits_value in ground (arith, e, back)

pub digits_onto-IsDigits :
    (f n : ℕ) (acc : Bytes)
    → n < f
    → All (λ c. is_digit c ≡ true) acc
    → All (λ c. is_digit c ≡ true) (digits_onto f n acc)
unfolding digits_onto
digits_onto-IsDigits zero n acc h all = absurd (omega arith)
digits_onto-IsDigits (suc f) n acc h all = elim (Bool-cases (ltb n 10)) [
  | inl small ↦ rw small (ground arith, all)
  | inr big ↦
      rw big
        (digits_onto-IsDigits f (n / 10) ((b'0' + n % 10) ∷ acc) (ground arith) (ground arith, all))
]

-- The text of a number has no byte but digits, and at least one.
pub print_dec-IsDigits : (n : ℕ) → All (λ c. is_digit c ≡ true) (print_dec n) × (print_dec n ≢ [])
unfolding print_dec
print_dec-IsDigits n = (
  digits_onto-IsDigits (n + 1) n [] (omega arith) tt,
  starts (digits_onto (n + 1) n []) (digits_onto-StartsDigit (n + 1) n [] (omega arith)),
)
  where
    starts : (s : Bytes) → StartsDigit s → s ≢ []
    starts [] h = absurd h
    starts (c ∷ s) h = cc

tens : ℕ → ℕ
tens zero = 1
tens (suc k) = 10 * tens k

length-digits_onto :
    (k f n : ℕ) (acc : Bytes)
    → 0 < k
    → n < tens k
    → n < f
    → length (digits_onto f n acc) ≤ k + length acc
unfolding digits_onto tens
length-digits_onto zero f n acc some_room lt h = absurd (omega arith)
length-digits_onto (suc k) zero n acc some_room lt h = absurd (omega arith)
length-digits_onto (suc zero) (suc f) n acc some_room lt h = ground arith
length-digits_onto (suc (suc k)) (suc f) n acc some_room lt h = elim (Bool-cases (ltb n 10)) [
  | inl small ↦ rw small (omega arith)
  | inr big ↦ rw big (
      omega (
        arith,
        length-digits_onto (suc k) f (n / 10) ((b'0' + n % 10) ∷ acc) (omega arith) (omega arith)
            (ground arith),
      ))
]

pub length-print_dec : (n : ℕ) → n < 2 ^ 63 → length (print_dec n) ≤ 19
unfolding print_dec tens
length-print_dec n h =
    omega (arith, length-digits_onto 19 (n + 1) n [] (omega arith) (omega arith) (omega arith))
