-- ===== src/Client/Words.antt =====
-- Texts of words with a blank between, as the messages of the login are.
use nss_i_assignments.Base.{
  ℕ, ◌<◌, ◌≡◌, ◌≢◌, refl, ap, Bool, true, not, ◌&&◌, false, some, [], ◌∷◌, ◌++◌, ltb, ◌==◌, Bytes,
  codes, length, All, All-append, All-map, arith,
}
use nss_i_assignments.CString.{
  c_string, contains, Free, strtok, strtok-token, print_dec, print_dec-IsDigits,
}
use nss_i_assignments.Server.Login.Tickets.{IsField-c_string}
use nss_i_assignments.Common.Io.Lines.{IsLineText}
use nss_i_assignments.Common.Hex.{
  AreBytes, encode_bytes, encode_bytes-All, hex_digit, passes_under, length-encode_bytes,
}

-- The bytes of a word: no blank, and no end of a line.
abbrev pub word_byte : ℕ → Bool
word_byte c =
    not (contains c (codes " "))
    && not (c == b'\n')
    && not (c == b'\r')
    && not (c == 0)
    && ltb c 256

-- A word that strtok gives back.
abbrev pub IsWord : Bytes → Type 0
IsWord t = (t ≢ []) × All (λ c. word_byte c ≡ true) t

pub IsWord-Free : (t : Bytes) → IsWord t → Free (codes " ") t
IsWord-Free t (_, h) = All-map t (λ c p. ground arith) h

pub IsWord-IsLineText : (t : Bytes) → IsWord t → IsLineText t
IsWord-IsLineText t (_, h) = All-map t (λ c p. (ground arith, ground arith)) h

-- Text without a zero byte, which as a C string is read to its end.
abbrev pub NoZero : Bytes → Type 0
NoZero = All (λ c. (c == 0) ≡ false)

pub IsWord-NoZero : (t : Bytes) → IsWord t → NoZero t
IsWord-NoZero t (_, h) = All-map t (λ c p. ground arith) h

pub IsWord-hex : (bs : Bytes) → AreBytes bs → 0 < length bs → IsWord (encode_bytes bs)
unfolding passes_under hex_digit contains
IsWord-hex bs h some_byte = (starts, encode_bytes-All word_byte bs refl h)
  where
    starts : encode_bytes bs ≢ []
    starts e = absurd (omega (arith, ap length e, length-encode_bytes bs))

-- One word more in front of a text.
abbrev pub behind : Bytes → Bytes → Bytes
behind word rest = word ++ (codes " " ++ rest)

pub strtok-behind :
    (word rest : Bytes) → IsWord word → strtok (codes " ") (behind word rest) ≡ some (word, rest)
strtok-behind word rest w = strtok-token (codes " ") word b' ' rest w.0 (IsWord-Free word w) blank
  where
    blank : contains b' ' (codes " ") ≡ true
    blank = unfold contains in refl

pub behind-IsLineText :
    (word rest : Bytes) → IsWord word → IsLineText rest → IsLineText (behind word rest)
behind-IsLineText word rest w h = All-append _ word _ (IsWord-IsLineText word w) ((refl, refl), h)

pub IsWord-print_dec : (n : ℕ) → IsWord (print_dec n)
unfolding contains
IsWord-print_dec n =
    ((print_dec-IsDigits n).1, All-map (print_dec n) (λ c p. ground arith) (print_dec-IsDigits n).0)

-- What holds of a blank and of each byte of a word holds of words with blanks between.
pub behind-All :
    {P : ℕ → Type 0} (word rest : Bytes)
    → P b' '
    → ((c : ℕ) → word_byte c ≡ true → P c)
    → IsWord word
    → All P rest
    → All P (behind word rest)
behind-All {P} word rest blank all w h = All-append P word _ (All-map word all w.1) (blank, h)

pub behind-NoZero : (word rest : Bytes) → IsWord word → NoZero rest → NoZero (behind word rest)
behind-NoZero word rest w r =
    All-append (λ c. (c == 0) ≡ false) word (codes " " ++ rest) (IsWord-NoZero word w) (refl, r)

-- A line of such a text is read whole.
pub c_string-line : (t : Bytes) → NoZero t → c_string (t ++ b'\n' ∷ []) ≡ t ++ b'\n' ∷ []
c_string-line t h =
    IsField-c_string (t ++ b'\n' ∷ [])
      (All-append (λ c. (c == 0) ≡ false) t (b'\n' ∷ []) h (refl, tt))
