-- ===== src/Server/Login.antt =====
-- derive_ticket_key, decrypt_ticket and kdc_client_thread of
-- Assignment2/server_real.c. A time that a call of time() gives is an argument; a difference of times
-- is exact, where C leaves the result open beyond 64 bits.
pub mod Once
pub mod Tickets
use nss_i_assignments.Base.{
  ℕ, ◌+◌, ◌-◌, Bool, true, false, not, ◌||◌, Option, none, some, List, [], ◌∷◌, ◌++◌, ltb, ◌==◌,
  if◌then◌else◌, Bytes, codes, length, replicate, ◌*◌, ◌>>=◌, ◌>>◌, guard,
}
use nss_i_assignments.CString.{
  str_eq, c_string, strtok, snprintf, ℤ, pos, negsuc, strtol, print_int,
}
use nss_i_assignments.Common.Io.{trim_newline}
use nss_i_assignments.Common.Hex.{hex_encode, hex_decode}
use nss_i_assignments.Common.Crypto.{
  Evp, key_len, gcm_iv_len, gcm_tag_len, sha256_bytes, hmac_sha256, aes_256_gcm_encrypt,
  aes_256_gcm_decrypt,
}
use nss_i_assignments.Server.State.{User, Server, Sent, find_user, send, send_text, ticket_ttl}
use nss_i_assignments.Server.Groups.{text_of}
use nss_i_assignments.Server.Replay.{replay_seen_or_add}

-- The result of sha256_bytes is not read: where it fails, the static array stays zero.
abbrev or_zero : Option Bytes → Bytes
or_zero none = replicate key_len 0
or_zero (some key) = key

unfoldable pub derive_ticket_key : Evp → Bytes
derive_ticket_key evp = or_zero (sha256_bytes evp (codes "nss-assignment2-chat-ticket-key"))

-- A buffer of which all must be filled.
unfoldable pub hex_exactly : Bytes → ℕ → Option Bytes
hex_exactly text len = do bytes ← hex_decode text len; guard (length bytes == len); some bytes

-- `expiry < time(NULL)`
abbrev pub before : ℤ → ℕ → Bool
before (pos n) now = ltb n now
before (negsuc n) now = true

abbrev bar : Bytes
bar = codes "|"

-- The three parts of a ticket.
unfoldable pub ticket_fields : Bytes → Option (Bytes × Bytes × Bytes)
ticket_fields text = do
  (user, r) ← strtok bar text
  (expiry, r') ← strtok bar r
  (session, r'') ← strtok bar r'
  some (user, expiry, session)

-- The user and the session key, if the result is 0.
unfoldable pub decrypt_ticket : Evp → Bytes → ℕ → Bytes → Bytes → Bytes → ℕ → Option (Bytes × Bytes)
decrypt_ticket evp ticket_key now iv_hex tag_hex ct_hex user_len = do
  iv ← hex_exactly iv_hex gcm_iv_len
  tag ← hex_exactly tag_hex gcm_tag_len
  ciphertext ← hex_decode ct_hex 2048
  guard (not (length ciphertext == 0))
  plaintext ← aes_256_gcm_decrypt evp ticket_key iv tag ciphertext []
  guard (ltb (length plaintext) 2048)
  (user, expiry, session_hex) ← ticket_fields (c_string plaintext)
  guard (not (before (strtol expiry) now))
  session ← hex_exactly session_hex key_len
  some (snprintf user_len user, session)

-- `labs(time(NULL) - ts) > 300`
abbrev pub is_stale : ℤ → ℕ → Bool
is_stale (pos ts) now = ltb 300 (now - ts) || ltb 300 (ts - now)
is_stale (negsuc n) now = ltb 300 (now + n + 1)

abbrev agree : Option Bytes → Option Bytes → Bool
agree none got = false
agree (some expected) none = false
agree (some expected) (some got) = str_eq expected got

-- The check of a tag in hexadecimal over a text cut to 511 bytes.
unfoldable pub hmac_agrees : Evp → Bytes → Bytes → Bytes → Bool
hmac_agrees evp key text hmac_hex =
    agree (hmac_sha256 evp key (snprintf 512 text)) (hex_exactly hmac_hex 32)

abbrev space : Bytes
space = codes " "

-- The words of a request to the key distribution server, behind AUTH.
unfoldable pub auth_words : Bytes → Option (Bytes × Bytes × Bytes × Bytes)
auth_words line = do
  (cmd, r₁) ← strtok space line
  (user, r₂) ← strtok space r₁
  (nonce, r₃) ← strtok space r₂
  (timestamp, r₄) ← strtok space r₃
  (hmac_hex, r₅) ← strtok space r₄
  guard (str_eq cmd (codes "AUTH"))
  some (user, nonce, timestamp, hmac_hex)

-- What the calls of time() and random_bytes give in one run of the thread.
pub record Draws : Type 0 where
  pub recorded_at : ℕ
  pub checked_at : ℕ
  pub issued_at : ℕ
  pub session : Option Bytes
  pub ticket_iv : Option Bytes
  pub payload_iv : Option Bytes

abbrev pub auth_text : Bytes → Bytes → Bytes → Bytes
auth_text user nonce timestamp =
    codes "AUTH|" ++ (user ++ (codes "|" ++ (nonce ++ (codes "|" ++ timestamp))))

abbrev pub ticket_text : Bytes → ℕ → Bytes → Bytes
ticket_text user expiry session_hex =
    snprintf 512 (user ++ (codes "|" ++ (print_int (pos expiry) ++ (codes "|" ++ session_hex))))

-- The three parts of a sealed text, in hexadecimal.
abbrev pub sealed_text : Bytes → Bytes → Bytes → Bytes
sealed_text iv tag ciphertext =
    text_of (hex_encode iv (gcm_iv_len * 2 + 1))
    ++ (codes " "
        ++ (text_of (hex_encode tag (gcm_tag_len * 2 + 1))
            ++ (codes " " ++ text_of (hex_encode ciphertext (length ciphertext * 2 + 1)))))

abbrev pub payload_text : Bytes → ℕ → Bytes → Bytes
payload_text session_hex expiry ticket =
    snprintf 2048 (session_hex ++ (codes " " ++ (print_int (pos expiry) ++ (codes " " ++ ticket))))

-- The ticket and the answer; `none` where the thread sends "ERR internal". The buffers for the
-- ciphertexts in hexadecimal have twice the size of those for the ciphertexts.
unfoldable pub issue : Evp → Bytes → Draws → User → Bytes → Option Bytes
issue evp ticket_key draws u user = do
  session ← draws.session
  session_hex ← hex_encode session (key_len * 2 + 1)
  let expiry = draws.issued_at + ticket_ttl
  (iv, tag, ticket) ←
      aes_256_gcm_encrypt evp ticket_key (ticket_text user expiry session_hex) [] draws.ticket_iv
  let payload = payload_text session_hex expiry (sealed_text iv tag ticket)
  (iv', tag', sealed) ← aes_256_gcm_encrypt evp u.long_key payload [] draws.payload_iv
  some (codes "OK " ++ (sealed_text iv' tag' sealed ++ codes "\n"))

abbrev answer_issued : ℕ → Option Bytes → List Sent
answer_issued fd none = send fd (codes "ERR internal\n")
answer_issued fd (some text) = send_text fd text

-- The checks behind the one for a replay.
unfoldable pub answer_auth :
    Evp → Bytes → Draws → ℕ → User → Bytes → Bytes → Bytes → Bytes → List Sent
answer_auth evp ticket_key draws fd u user nonce timestamp hmac_hex =
    if is_stale (strtol timestamp) draws.checked_at
    then send fd (codes "ERR stale-authenticator\n")
    else if hmac_agrees evp u.long_key (auth_text user nonce timestamp) hmac_hex
    then answer_issued fd (issue evp ticket_key draws u user)
    else send fd (codes "ERR authentication-failed\n")

abbrev pub after_replay :
    Evp → Draws → ℕ → User → Bytes → Bytes → Bytes → Bytes → Bool × Server → Server × List Sent
after_replay evp draws fd u user nonce timestamp hmac_hex (true, t) =
    (t, send fd (codes "ERR authentication-failed\n"))
after_replay evp draws fd u user nonce timestamp hmac_hex (false, t) =
    (t, answer_auth evp t.ticket_key draws fd u user nonce timestamp hmac_hex)

abbrev pub auth_user :
    Evp
    → Draws
    → ℕ
    → Bytes
    → Bytes
    → Bytes
    → Bytes
    → Server
    → Option (ℕ × User)
    → Server × List Sent
auth_user evp draws fd user nonce timestamp hmac_hex s none =
    (s, send fd (codes "ERR authentication-failed\n"))
auth_user evp draws fd user nonce timestamp hmac_hex s (some (i, u)) =
    after_replay evp draws fd u user nonce timestamp hmac_hex
      (replay_seen_or_add nonce draws.recorded_at s)

abbrev pub auth_request :
    Evp → Draws → ℕ → Server → Option (Bytes × Bytes × Bytes × Bytes) → Server × List Sent
auth_request evp draws fd s none = (s, send fd (codes "ERR bad-auth-format\n"))
auth_request evp draws fd s (some (user, nonce, timestamp, hmac_hex)) =
    auth_user evp draws fd user nonce timestamp hmac_hex s (find_user user s.users)

-- kdc_client_thread, from what recv_line gives; the line is a C string, so it ends at a zero byte.
unfoldable pub kdc_client : Evp → Draws → ℕ → Option Bytes → Server → Server × List Sent
kdc_client evp draws fd none s = (s, [])
kdc_client evp draws fd (some []) s = (s, [])
kdc_client evp draws fd (some (c ∷ line)) s =
    auth_request evp draws fd s (auth_words (trim_newline (c_string (c ∷ line))))
