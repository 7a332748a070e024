-- ===== src/Common/Hex.antt =====
-- hex_encode, hex_value and hex_decode of Assignment2/a2_common.c.
use nss_i_assignments.Base.{
  ℕ, zero, suc, ◌+◌, ◌-◌, ◌*◌, ◌/◌, ◌%◌, ◌≤◌, ◌<◌, ◌≡◌, refl, Bool, true, false, ◌&&◌, Option, none,
  some, [], ◌∷◌, map, ltb, leb, ◌==◌, ==_iff, if◌then◌else◌, Bytes, codes, length, get_elem?, All,
  arith, ◌>>=◌, subst, >>=-eq-some,
}

abbrev hexdigits : Bytes
hexdigits = codes "0123456789abcdef"

abbrev at_digit : Option ℕ → ℕ
at_digit none = 0
at_digit (some c) = c

unfoldable pub hex_digit : ℕ → ℕ
hex_digit d = at_digit (get_elem? hexdigits d)

-- The loop of hex_encode: `in[i] >> 4` and `in[i] & 0x0f`.
unfoldable pub encode_bytes : Bytes → Bytes
encode_bytes [] = []
encode_bytes (b ∷ bs) = hex_digit (b / 16) ∷ hex_digit (b % 16) ∷ encode_bytes bs

-- `none` for -1, else what `out` holds before its terminator.
unfoldable pub hex_encode : Bytes → ℕ → Option Bytes
hex_encode bs out_len = if ltb out_len (length bs * 2 + 1) then none else some (encode_bytes bs)

unfoldable pub hex_value : ℕ → Option ℕ
hex_value c =
    if leb b'0' c && leb c b'9'
    then some (c - b'0')
    else if leb b'a' c && leb c b'f'
    then some (c - b'a' + 10)
    else if leb b'A' c && leb c b'F'
    then some (c - b'A' + 10)
    else none

-- The loop of hex_decode; `(hi << 4) | lo` is a sum, since lo has four bits.
unfoldable pub decode_pairs : Bytes → Option Bytes
decode_pairs [] = some []
decode_pairs (c ∷ []) = some []
decode_pairs (c ∷ d ∷ s) = do
  let rest = decode_pairs s
  hi ← hex_value c
  lo ← hex_value d
  bs ← rest
  some ((hi * 16 + lo) ∷ bs)

-- `none` for -1; else the decoded bytes, whose number is the result.
unfoldable pub hex_decode : Bytes → ℕ → Option Bytes
hex_decode s out_len =
    if length s % 2 == 0 && leb (length s / 2) out_len then decode_pairs s else none

-- Every element is a byte.
abbrev pub AreBytes : Bytes → Type 0
AreBytes = All (λ b. b < 256)

-- Whether a test passes on each number under a bound, from the largest down.
unfoldable pub passes_under : (ℕ → Bool) → ℕ → Bool
passes_under test zero = true
passes_under test (suc top) = passes_under test top && test top

passes_under-at :
    (test : ℕ → Bool) (bound v : ℕ) → v < bound → passes_under test bound ≡ true → test v ≡ true
unfolding passes_under
passes_under-at test zero v below passed = absurd (omega arith)
passes_under-at test (suc top) v below passed = ground (arith, passes_under-at test top v)

abbrev is_value : Option ℕ → ℕ → Bool
is_value none d = false
is_value (some v) d = v == d

is_value_sound : (o : Option ℕ) (d : ℕ) → is_value o d ≡ true → o ≡ some d
is_value_sound o d h = ground arith

digit_table : passes_under (λ d. is_value (hex_value (hex_digit d)) d) 16 ≡ true
unfolding passes_under hex_value hex_digit
digit_table = refl

hex_value-hex_digit : (d : ℕ) → d < 16 → hex_value (hex_digit d) ≡ some d
hex_value-hex_digit d h = is_value_sound _ d (passes_under-at _ 16 d h digit_table)

pub length-encode_bytes : (bs : Bytes) → length (encode_bytes bs) ≡ length bs * 2
unfolding encode_bytes
length-encode_bytes [] = refl
length-encode_bytes (b ∷ bs) = omega (arith, length-encode_bytes bs)

decode_pairs-encode_bytes : (bs : Bytes) → AreBytes bs → decode_pairs (encode_bytes bs) ≡ some bs
unfolding decode_pairs encode_bytes
decode_pairs-encode_bytes [] h = refl
decode_pairs-encode_bytes (b ∷ bs) h = ground (
  arith,
  hex_value-hex_digit (b / 16) (omega arith),
  hex_value-hex_digit (b % 16) (omega arith),
  decode_pairs-encode_bytes bs h.1,
)

pub hex_encode_fits :
    (bs : Bytes) (out_len : ℕ)
    → length bs * 2 < out_len
    → hex_encode bs out_len ≡ some (encode_bytes bs)
unfolding hex_encode
hex_encode_fits bs out_len h = ground arith

-- The text that hex_encode writes for a byte string decodes to that byte string, into every
-- buffer that has room for it.
pub hex_decode-hex_encode :
    (bs : Bytes) (text : Bytes) (enc_len out_len : ℕ)
    → AreBytes bs
    → length bs ≤ out_len
    → hex_encode bs enc_len ≡ some text
    → hex_decode text out_len ≡ some bs
unfolding hex_encode hex_decode
hex_decode-hex_encode bs text enc_len out_len h fits e =
    ground (arith, length-encode_bytes bs, decode_pairs-encode_bytes bs h)

pub hex_decode-encode_bytes :
    (bs : Bytes) (out_len : ℕ)
    → AreBytes bs
    → length bs ≤ out_len
    → hex_decode (encode_bytes bs) out_len ≡ some bs
hex_decode-encode_bytes bs out_len h fits =
    hex_decode-hex_encode bs _ (length bs * 2 + 1) out_len h fits
      (hex_encode_fits bs _ (omega arith))

-- A hexadecimal letter in lower case.
abbrev lower : ℕ → ℕ
lower c = if leb b'A' c && leb c b'F' then c + 32 else c

hex_value-lower :
    (c v : ℕ)
    → hex_value c ≡ some v
    → (v < 16) × (lower c ≡ (if ltb v 10 then b'0' + v else b'a' + (v - 10)))
unfolding hex_value
hex_value-lower c v h = ground arith

digit_form_table :
    passes_under (λ d. hex_digit d == (if ltb d 10 then b'0' + d else b'a' + (d - 10))) 16 ≡ true
unfolding passes_under hex_digit
digit_form_table = refl

hex_digit-hex_value : (c v : ℕ) → hex_value c ≡ some v → (v < 16) × (hex_digit v ≡ lower c)
hex_digit-hex_value c v h =
    let (small, form) = hex_value-lower c v h in
    (small, ground (arith, form, (==_iff _ _).0 (passes_under-at _ 16 v small digit_form_table)))

-- What decode_pairs accepts has an even length here.
abbrev pub Decodes : Bytes → Bytes → Type 0
Decodes s bs = AreBytes bs × (length bs * 2 ≡ length s) × (encode_bytes bs ≡ map lower s)

pair_Decodes :
    (c d : ℕ) (s : Bytes) (hi lo : ℕ) (ds : Bytes) {bs : Bytes}
    → (hi < 16) × (hex_digit hi ≡ lower c)
    → (lo < 16) × (hex_digit lo ≡ lower d)
    → Decodes s ds
    → some ((hi * 16 + lo) ∷ ds) ≡ some bs
    → Decodes (c ∷ d ∷ s) bs
unfolding encode_bytes
pair_Decodes c d s hi lo ds {bs} (hi_lt, ehi) (lo_lt, elo) (are, len, text) e =
    let high : (hi * 16 + lo) / 16 ≡ hi = omega arith in
    let low : (hi * 16 + lo) % 16 ≡ lo = omega arith in
    let same : (hi * 16 + lo) ∷ ds ≡ bs = cc in
    subst (λ (r : Bytes). Decodes (c ∷ d ∷ s) r) same
      ((omega arith, are), omega arith, rw (high, low, ehi, elo, text))

decode_pairs-Decodes : (s bs : Bytes) → length s % 2 ≡ 0 → decode_pairs s ≡ some bs → Decodes s bs
unfolding decode_pairs encode_bytes
decode_pairs-Decodes [] bs even h = ground arith
decode_pairs-Decodes (c ∷ []) bs even h = absurd (omega arith)
decode_pairs-Decodes (c ∷ d ∷ s) bs even h =
    let (hi, ehi, h₁) = >>=-eq-some (hex_value c) _ h in
    let (lo, elo, h₂) = >>=-eq-some (hex_value d) _ h₁ in
    let (ds, eds, h₃) = >>=-eq-some (decode_pairs s) _ h₂ in
    pair_Decodes c d s hi lo ds (hex_digit-hex_value c hi ehi) (hex_digit-hex_value d lo elo)
      (decode_pairs-Decodes s ds (omega arith) eds) h₃

-- What hex_decode accepts is a string of hexadecimal digits of even length; it gives half as many
-- bytes as there are digits, no more than the buffer holds, and encoding them again gives the
-- same digits in lower case.
pub hex_decode-Decodes :
    (s bs : Bytes) (out_len : ℕ)
    → hex_decode s out_len ≡ some bs
    → Decodes s bs × (length bs ≤ out_len)
unfolding hex_decode
hex_decode-Decodes s bs out_len h =
    let (even, fits, e) = accepted in
    let d = decode_pairs-Decodes s bs even e in (d, omega (arith, d.1))
  where
    accepted : (length s % 2 ≡ 0) × (length s / 2 ≤ out_len) × (decode_pairs s ≡ some bs)
    accepted = ground arith

-- What holds of each of the sixteen digits holds of each byte of the text.
pub encode_bytes-All :
    (test : ℕ → Bool) (bs : Bytes)
    → passes_under (λ d. test (hex_digit d)) 16 ≡ true
    → AreBytes bs
    → All (λ c. test c ≡ true) (encode_bytes bs)
unfolding encode_bytes
encode_bytes-All test [] table h = tt
encode_bytes-All test (b ∷ bs) table h = (
  passes_under-at _ 16 (b / 16) (omega (arith, h.0)) table,
  (passes_under-at _ 16 (b % 16) (omega arith) table, encode_bytes-All test bs table h.1),
)

pub hex_encode-text :
    (bs text : Bytes) (len : ℕ) → hex_encode bs len ≡ some text → encode_bytes bs ≡ text
unfolding hex_encode
hex_encode-text bs text len h = ground arith
