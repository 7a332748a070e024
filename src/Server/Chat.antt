-- ===== src/Server/Chat.antt =====
-- authenticate_chat and chat_client_thread of Assignment2/server_real.c.
use nss_i_assignments.Base.{
  ℕ, Bool, true, false, Option, none, some, List, [], ◌∷◌, ◌++◌, Bytes, codes, ◌>>=◌, ◌>>◌, guard,
}
use nss_i_assignments.CString.{c_string, str_eq, strtok}
use nss_i_assignments.Common.Io.{trim_newline}
use nss_i_assignments.Common.Crypto.{Evp}
use nss_i_assignments.Server.State.{Server, Sent, send, send_text}
use nss_i_assignments.Server.Replay.{replay_seen_or_add}
use nss_i_assignments.Server.Clients.{
  user_max, client_slot_add, client_slot_remove, broadcast_message,
}
use nss_i_assignments.Server.Files.{FileSystem}
use nss_i_assignments.Server.Commands.{process_command}
use nss_i_assignments.Server.Login.{decrypt_ticket, hmac_agrees}

abbrev space : Bytes
space = codes " "

-- The words of a login, behind TICKET.
unfoldable pub ticket_words : Bytes → Option (Bytes × Bytes × Bytes × Bytes × Bytes)
ticket_words line = do
  (cmd, r₁) ← strtok space line
  (iv, r₂) ← strtok space r₁
  (tag, r₃) ← strtok space r₂
  (ciphertext, r₄) ← strtok space r₃
  (nonce, r₅) ← strtok space r₄
  (hmac_hex, r₆) ← strtok space r₅
  guard (str_eq cmd (codes "TICKET"))
  some (iv, tag, ciphertext, nonce, hmac_hex)

abbrev pub chat_text : Bytes → Bytes → Bytes
chat_text user nonce = codes "CHAT|" ++ (user ++ (codes "|" ++ nonce))

-- The checks behind the one for a replay: the ticket, and a tag under its session key.
unfoldable pub open_ticket :
    Evp → Bytes → ℕ → Bytes → Bytes → Bytes → Bytes → Bytes → Option (Bytes × Bytes)
open_ticket evp ticket_key now iv tag ciphertext nonce hmac_hex = do
  (user, session) ← decrypt_ticket evp ticket_key now iv tag ciphertext user_max
  guard (hmac_agrees evp session (chat_text user nonce) hmac_hex)
  some (user, session)

abbrev pub chat_replay :
    Evp
    → ℕ
    → Bytes
    → Bytes
    → Bytes
    → Bytes
    → Bytes
    → Bool × Server
    → Option (Bytes × Bytes) × Server
chat_replay evp now iv tag ciphertext nonce hmac_hex (true, t) = (none, t)
chat_replay evp now iv tag ciphertext nonce hmac_hex (false, t) =
    (open_ticket evp t.ticket_key now iv tag ciphertext nonce hmac_hex, t)

-- What the calls of time() give.
pub record Times : Type 0 where
  pub recorded_at : ℕ
  pub checked_at : ℕ

abbrev pub chat_request :
    Evp
    → Times
    → Server
    → Option (Bytes × Bytes × Bytes × Bytes × Bytes)
    → Option (Bytes × Bytes) × Server
chat_request evp times s none = (none, s)
chat_request evp times s (some (iv, tag, ciphertext, nonce, hmac_hex)) =
    chat_replay evp times.checked_at iv tag ciphertext nonce hmac_hex
      (replay_seen_or_add nonce times.recorded_at s)

-- The user and the session key, if the result is 0, from what recv_line gives, as a C
-- string.
unfoldable pub authenticate_chat :
    Evp → Times → Option Bytes → Server → Option (Bytes × Bytes) × Server
authenticate_chat evp times none s = (none, s)
authenticate_chat evp times (some []) s = (none, s)
authenticate_chat evp times (some (c ∷ line)) s =
    chat_request evp times s (ticket_words (trim_newline (c_string (c ∷ line))))

-- What one round of the loop meets: the line, the files and the random bytes.
pub record Round : Type 0 where
  pub line : Bytes
  pub files : FileSystem
  pub random : Option Bytes

abbrev round_then : List Sent → Server × List Sent → Server × List Sent
round_then out (t, more) = (t, out ++ more)

-- The loop, to the first recv_line that gives no bytes, and the removal of the client.
unfoldable pub chat_loop : ℕ → Bytes → List Round → Server → Server × List Sent
chat_loop fd user [] s = (client_slot_remove fd s, [])
chat_loop fd user (r ∷ rounds) s =
    let (t, out) = process_command r.files r.random fd user (c_string r.line) s in
    round_then out (chat_loop fd user rounds t)

abbrev pub welcome : ℕ → Bytes → Server → List Sent
welcome fd user s =
    send_text fd (codes "OK authenticated " ++ (user ++ codes "\n"))
    ++ broadcast_message (codes "server") (codes "user-login") s

abbrev pub chat_slot : ℕ → Bytes → List Round → Option ℕ × Server → Server × List Sent
chat_slot fd user rounds (none, t) = (t, send fd (codes "ERR chat-authentication-failed\n"))
chat_slot fd user rounds (some i, t) = round_then (welcome fd user t) (chat_loop fd user rounds t)

abbrev pub chat_login : ℕ → List Round → Option (Bytes × Bytes) × Server → Server × List Sent
chat_login fd rounds (none, t) = (t, send fd (codes "ERR chat-authentication-failed\n"))
chat_login fd rounds (some (user, session), t) =
    chat_slot fd user rounds (client_slot_add fd user session t)

-- chat_client_thread, where no other thread changes the state in between.
unfoldable pub chat_client :
    Evp → Times → ℕ → Option Bytes → List Round → Server → Server × List Sent
unfolding chat_loop
chat_client evp times fd line rounds s = chat_login fd rounds (authenticate_chat evp times line s)
