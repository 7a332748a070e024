-- ===== src/Server/Login/Tickets.antt =====
-- The ticket of Assignment2/server_real.c, from its text in kdc_client_thread to decrypt_ticket.
use nss_i_assignments.Base.{
  ℕ, ◌^◌, ◌≤◌, ◌<◌, ◌≡◌, ◌≢◌, refl, ap, Bool, true, false, not, ◌&&◌, some, [], ◌∷◌, ◌++◌, ltb,
  ◌==◌, Bytes, codes, length, length-append, All, All-append, All-map, arith,
}
use nss_i_assignments.CString.{
  c_string, strtok-token, strtok-last, contains, Free, snprintf, snprintf-fits, strtol,
  strtol-print_dec, print_dec, print_int, print_dec-IsDigits, length-print_dec,
}
use nss_i_assignments.Common.Hex.{
  AreBytes, encode_bytes, hex_digit, passes_under, hex_decode, hex_decode-encode_bytes,
  encode_bytes-All, length-encode_bytes,
}
use nss_i_assignments.Common.Crypto.{Evp, GcmLaws, aes_256_gcm_encrypt, aes_256_gcm_decrypt}
use nss_i_assignments.Common.Crypto.Gcm.{Sealed, aes_256_gcm_encrypt-Sealed}
use nss_i_assignments.Server.Login.{hex_exactly, before, ticket_fields, ticket_text, decrypt_ticket}

-- The bytes that a field of a ticket may have.
abbrev plain : ℕ → Bool
plain c = not (c == 0) && not (contains c (codes "|")) && ltb c 256

abbrev pub IsField : Bytes → Type 0
IsField = All (λ c. plain c ≡ true)

IsField-Free : (t : Bytes) → IsField t → Free (codes "|") t
IsField-Free t h = All-map t (λ c p. ground arith) h

pub IsField-c_string : (t : Bytes) → All (λ c. (c == 0) ≡ false) t → c_string t ≡ t
unfolding c_string
IsField-c_string [] h = refl
IsField-c_string (c ∷ t) h = rw (h.0, IsField-c_string t h.1)

IsField-hex : (bs : Bytes) → AreBytes bs → IsField (encode_bytes bs)
unfolding passes_under hex_digit contains
IsField-hex bs h = encode_bytes-All plain bs refl h

IsField-print_dec : (n : ℕ) → IsField (print_dec n)
unfolding contains
IsField-print_dec n = All-map (print_dec n) (λ c p. ground arith) (print_dec-IsDigits n).0

pub hex_exactly-encode_bytes :
    (bs : Bytes) (n : ℕ) → AreBytes bs → length bs ≡ n → hex_exactly (encode_bytes bs) n ≡ some bs
unfolding hex_exactly
hex_exactly-encode_bytes bs n h len =
    let same : (length bs == n) ≡ true = ground arith in
    rw (hex_decode-encode_bytes bs n h (omega arith), same)

-- The text of a ticket, whole.
abbrev joined : Bytes → Bytes → Bytes → Bytes
joined user expiry session = user ++ (codes "|" ++ (expiry ++ (codes "|" ++ session)))

ticket_fields-joined :
    (user expiry session : Bytes)
    → IsField user
    → IsField expiry
    → IsField session
    → user ≢ []
    → expiry ≢ []
    → session ≢ []
    → ticket_fields (joined user expiry session) ≡ some (user, expiry, session)
unfolding ticket_fields
ticket_fields-joined user expiry session u e s nu ne ns = rw (
  strtok-token (codes "|") user b'|' (expiry ++ (codes "|" ++ session)) nu (IsField-Free user u)
      bar,
  strtok-token (codes "|") expiry b'|' session ne (IsField-Free expiry e) bar,
  strtok-last (codes "|") session ns (IsField-Free session s),
)
  where
    bar : contains b'|' (codes "|") ≡ true
    bar = unfold contains in refl

encode_bytes-some : (bs : Bytes) → 0 < length bs → encode_bytes bs ≢ []
encode_bytes-some bs h e = absurd (omega (arith, ap length e, length-encode_bytes bs))

-- A ticket fits in its buffer, so its text is whole.
pub ticket_text-joined :
    (user : Bytes) (expiry : ℕ) (session : Bytes)
    → length user < 32
    → expiry < 2 ^ 63
    → length session ≡ 32
    → (ticket_text user expiry (encode_bytes session)
        ≡ joined user (print_dec expiry) (encode_bytes session))
      × (length (joined user (print_dec expiry) (encode_bytes session)) < 512)
unfolding print_int
ticket_text-joined user expiry session short lt len =
    (snprintf-fits 512 (joined user (print_dec expiry) (encode_bytes session)) fits, fits)
  where
    fits : length (joined user (print_dec expiry) (encode_bytes session)) < 512
    fits = omega (
      arith,
      length-append user (codes "|" ++ (print_dec expiry ++ (codes "|" ++ encode_bytes session))),
      length-append (print_dec expiry) (codes "|" ++ encode_bytes session),
      length-print_dec expiry lt,
      length-encode_bytes session,
    )

joined-All :
    {P : ℕ → Type 0} (user expiry session : Bytes)
    → P b'|'
    → ((c : ℕ) → plain c ≡ true → P c)
    → IsField user
    → IsField expiry
    → IsField session
    → All P (joined user expiry session)
joined-All {P} user expiry session bar all u e s =
    All-append P user _ (All-map user all u)
      (bar, All-append P expiry _ (All-map expiry all e) (bar, All-map session all s))

pub ticket_text-AreBytes :
    (user : Bytes) (expiry : ℕ) (session : Bytes)
    → IsField user
    → length user < 32
    → expiry < 2 ^ 63
    → AreBytes session
    → length session ≡ 32
    → AreBytes (ticket_text user expiry (encode_bytes session))
ticket_text-AreBytes user expiry session field short lt bytes len =
    rw ((ticket_text-joined user expiry session short lt len).0) (
      joined-All user (print_dec expiry) (encode_bytes session) (omega arith) (λ c p. ground arith)
        field (IsField-print_dec expiry) (IsField-hex session bytes))

pub length-ticket_text :
    (user : Bytes) (expiry : ℕ) (session : Bytes)
    → length user < 32
    → expiry < 2 ^ 63
    → length session ≡ 32
    → 0 < length (ticket_text user expiry (encode_bytes session))
length-ticket_text user expiry session short lt len =
    rw ((ticket_text-joined user expiry session short lt len).0) (
      omega (
        arith,
        length-append user (codes "|" ++ (print_dec expiry ++ (codes "|" ++ encode_bytes session))),
      ))

-- The checks of decrypt_ticket, for a text that decrypts to the three fields.
decrypt_ticket-fields :
    (evp : Evp) (key : Bytes) (now : ℕ) (iv tag ciphertext user session : Bytes) (expiry : ℕ)
    → (hex_exactly (encode_bytes iv) 12 ≡ some iv)
    → (hex_exactly (encode_bytes tag) 16 ≡ some tag)
    → (hex_decode (encode_bytes ciphertext) 2048 ≡ some ciphertext)
    → (length ciphertext == 0) ≡ false
    → aes_256_gcm_decrypt evp key iv tag ciphertext []
      ≡ some (joined user (print_dec expiry) (encode_bytes session))
    → ltb (length (joined user (print_dec expiry) (encode_bytes session))) 2048 ≡ true
    → c_string (joined user (print_dec expiry) (encode_bytes session))
      ≡ joined user (print_dec expiry) (encode_bytes session)
    → ticket_fields (joined user (print_dec expiry) (encode_bytes session))
      ≡ some (user, print_dec expiry, encode_bytes session)
    → before (strtol (print_dec expiry)) now ≡ false
    → hex_exactly (encode_bytes session) 32 ≡ some session
    → snprintf 32 user ≡ user
    → decrypt_ticket evp key now (encode_bytes iv) (encode_bytes tag) (encode_bytes ciphertext) 32
      ≡ some (user, session)
unfolding decrypt_ticket
decrypt_ticket-fields evp key now iv tag ciphertext user session expiry a b c d e f g h i j k =
    rw (a, b, c, d, e, f, g, h, i, j, k)

-- A ticket that was made for a user, with a session key of 32 bytes and an expiry that has not come,
-- gives that user and that session key, under the same key and with an OpenSSL that behaves as it
-- documents. The name has 1 to 31 bytes, no zero byte and no bar; the iv has 12 bytes.
pub decrypt_ticket-ticket_text :
    (evp : Evp) (key user session iv tag ciphertext : Bytes) (expiry now : ℕ)
    → GcmLaws evp
    → aes_256_gcm_encrypt evp key (ticket_text user expiry (encode_bytes session)) [] (some iv)
      ≡ some (iv, tag, ciphertext)
    → AreBytes iv
    → length iv ≡ 12
    → AreBytes session
    → length session ≡ 32
    → IsField user
    → user ≢ []
    → length user < 32
    → now ≤ expiry
    → expiry < 2 ^ 63
    → decrypt_ticket evp key now (encode_bytes iv) (encode_bytes tag) (encode_bytes ciphertext) 32
      ≡ some (user, session)
decrypt_ticket-ticket_text evp key user session iv tag ciphertext expiry now laws made iv_bytes
      iv_len bytes len field named short late lt =
    let (whole, fits) = ticket_text-joined user expiry session short lt len in
    let text : Bytes = joined user (print_dec expiry) (encode_bytes session) in
    let digits : IsField (print_dec expiry) = IsField-print_dec expiry in
    let hex : IsField (encode_bytes session) = IsField-hex session bytes in
    let text_bytes : AreBytes text =
      joined-All user (print_dec expiry) (encode_bytes session) (omega arith) (λ c p. ground arith)
        field digits hex in
    let sealed : Sealed evp key text (some iv) (iv, tag, ciphertext) =
      aes_256_gcm_encrypt-Sealed evp key text (some iv) (iv, tag, ciphertext) laws text_bytes
        (rw whole at made) in
    let some_text : 0 < length text = omega (
      arith,
      length-append user (codes "|" ++ (print_dec expiry ++ (codes "|" ++ encode_bytes session))),
    ) in
    decrypt_ticket-fields evp key now iv tag ciphertext user session expiry
      (hex_exactly-encode_bytes iv 12 iv_bytes iv_len)
      (hex_exactly-encode_bytes tag 16 sealed.tag_bytes sealed.tag_length)
      (hex_decode-encode_bytes ciphertext 2048 sealed.ciphertext_bytes
        (omega (arith, sealed.same_length, fits)))
      (ground (arith, sealed.same_length, some_text)) sealed.opens (ground (arith, fits))
      (IsField-c_string text (
        joined-All user (print_dec expiry) (encode_bytes session) refl (λ c p. ground arith) field
          digits hex))
      (ticket_fields-joined user (print_dec expiry) (encode_bytes session) field digits hex named
        (print_dec-IsDigits expiry).1 (encode_bytes-some session (omega arith)))
      (rw (strtol-print_dec expiry lt) (ground arith))
      (hex_exactly-encode_bytes session 32 bytes len) (snprintf-fits 32 user short)
