-- ===== src/Client.antt =====
-- make_nonce_hex, authenticate_with_kdc and connect_chat of Assignment2/client_real.c: what the client
-- sends, and what it makes of the answers. The texts go through sockets in between.
pub mod Words
pub mod Settings
pub mod Sending
pub mod Receiving
pub mod Loop
pub mod Arriving
pub mod Sent
pub mod Delivered
pub mod Entering
pub mod Issued
pub mod Reply
pub mod Login
use nss_i_assignments.Base.{
  ℕ, ◌+◌, ◌*◌, Bool, true, false, not, Option, none, some, List, [], ◌∷◌, ◌++◌, ltb, ◌==◌, Bytes,
  codes, length, ◌>>=◌, ◌>>◌, guard,
}
use nss_i_assignments.CString.{str_eq, has_prefix, c_string, strtok, snprintf, print_dec}
use nss_i_assignments.Common.Io.{send_fmt, trim_newline}
use nss_i_assignments.Common.Hex.{hex_encode, hex_decode}
use nss_i_assignments.Common.Crypto.{
  Evp, key_len, hmac_len, gcm_iv_len, gcm_tag_len, derive_long_term_key, hmac_sha256,
  aes_256_gcm_decrypt,
}
use nss_i_assignments.Server.Login.{auth_text, hex_exactly}
use nss_i_assignments.Server.Chat.{chat_text}

abbrev space : Bytes
space = codes " "

-- A nonce is sixteen random bytes in hexadecimal.
unfoldable pub make_nonce_hex : Option Bytes → Option Bytes
make_nonce_hex random = do raw ← random; hex_encode raw 33

-- The ticket as the key distribution server sends it, and the session key.
pub record Ticket : Type 0 where
  pub session : Bytes
  pub iv_hex : Bytes
  pub tag_hex : Bytes
  pub ct_hex : Bytes

-- authenticate_with_kdc up to the request: the long term key, and what send_fmt writes.
unfoldable pub kdc_request : Evp → Bytes → Bytes → Option Bytes → ℕ → Option (Bytes × Option Bytes)
kdc_request evp user password random ts = do
  long_key ← derive_long_term_key evp user password
  nonce_hex ← make_nonce_hex random
  hmac ← hmac_sha256 evp long_key (snprintf 512 (auth_text user nonce_hex (print_dec ts)))
  hmac_hex ← hex_encode hmac (hmac_len * 2 + 1)
  some (
    long_key,
    send_fmt (
        codes "AUTH "
        ++ (user
            ++ (space
                ++ (nonce_hex
                    ++ (space ++ (print_dec ts ++ (space ++ (hmac_hex ++ codes "\n")))))))),
  )

-- The words of an answer, behind OK.
unfoldable pub reply_words : Bytes → Option (Bytes × Bytes × Bytes)
reply_words line = do
  (status, r₁) ← strtok space line
  (iv_hex, r₂) ← strtok space r₁
  (tag_hex, r₃) ← strtok space r₂
  (ct_hex, r₄) ← strtok space r₃
  guard (str_eq status (codes "OK"))
  some (iv_hex, tag_hex, ct_hex)

-- The words of the payload, the expiry left out.
unfoldable pub payload_words : Bytes → Option (Bytes × Bytes × Bytes × Bytes)
payload_words text = do
  (session_hex, r₁) ← strtok space text
  (expiry, r₂) ← strtok space r₁
  (ticket_iv, r₃) ← strtok space r₂
  (ticket_tag, r₄) ← strtok space r₃
  (ticket_ct, r₅) ← strtok space r₄
  some (session_hex, ticket_iv, ticket_tag, ticket_ct)

-- authenticate_with_kdc from the answer on, which has at least one byte.
unfoldable pub kdc_reply : Evp → Bytes → Bytes → Option Ticket
kdc_reply evp long_key line = do
  (iv_hex, tag_hex, ct_hex) ← reply_words (trim_newline (c_string line))
  iv ← hex_exactly iv_hex gcm_iv_len
  tag ← hex_exactly tag_hex gcm_tag_len
  ciphertext ← hex_decode ct_hex 4096
  guard (not (length ciphertext == 0))
  plaintext ← aes_256_gcm_decrypt evp long_key iv tag ciphertext []
  guard (ltb (length plaintext) 4096)
  (session_hex, ticket_iv, ticket_tag, ticket_ct) ← payload_words (c_string plaintext)
  session ← hex_exactly session_hex key_len
  some (record {
    session = session;
    iv_hex = snprintf 128 ticket_iv;
    tag_hex = snprintf 128 ticket_tag;
    ct_hex = snprintf 4096 ticket_ct;
  })

abbrev pub ticket_line : Ticket → Bytes → Bytes → Bytes
ticket_line t nonce_hex hmac_hex =
    codes "TICKET "
    ++ (t.iv_hex
        ++ (space
            ++ (t.tag_hex
                ++ (space
                    ++ (t.ct_hex
                        ++ (space ++ (nonce_hex ++ (space ++ (hmac_hex ++ codes "\n")))))))))

-- connect_chat up to the request: what send_fmt writes.
unfoldable pub chat_connect : Evp → Bytes → Ticket → Option Bytes → Option Bytes
chat_connect evp user t random = do
  nonce_hex ← make_nonce_hex random
  hmac ← hmac_sha256 evp t.session (snprintf 512 (chat_text user nonce_hex))
  hmac_hex ← hex_encode hmac (hmac_len * 2 + 1)
  send_fmt (ticket_line t nonce_hex hmac_hex)

-- Whether connect_chat keeps the connection, by the answer.
unfoldable pub chat_accepted : Bytes → Bool
chat_accepted line = has_prefix (codes "OK authenticated") line
