-- ===== src/Server/Interleaving/Threads.antt =====
-- kdc_client_thread and chat_client_thread of Assignment2/server_real.c as runs of the steps in
-- Server/Interleaving.
use nss_i_assignments.Base.{
  some_injective, ℕ, ◌<◌, ◌≡◌, refl, subst, Bool, true, false, not, ltb, ◌==◌, Option, none, some,
  List, [], ◌∷◌, Bytes, length, arith, >>=-eq-some, guard,
}
use nss_i_assignments.CString.{c_string, length-snprintf-lt, c_string, strtol}
use nss_i_assignments.Common.Hex.{hex_decode}
use nss_i_assignments.Common.Crypto.{Evp, aes_256_gcm_decrypt}
use nss_i_assignments.Server.State.{User, Server, find_user}
use nss_i_assignments.Server.Replay.{replay_seen_or_add}
use nss_i_assignments.Server.Clients.{user_max}
use nss_i_assignments.Server.Login.{
  before, hex_exactly, ticket_fields, decrypt_ticket, hmac_agrees, Draws, after_replay, auth_user,
  auth_request, kdc_client,
}
use nss_i_assignments.Server.Chat.{
  chat_text, open_ticket, Times, chat_replay, chat_request, authenticate_chat, Round, chat_loop,
  chat_slot, chat_login, chat_client,
}
use nss_i_assignments.Server.Interleaving.{IsServer, Reach, here, next, nonce, login, logout}
use nss_i_assignments.Server.Interleaving.Invariant.{Reach-IsServer}
use nss_i_assignments.Server.Interleaving.Handlers.{process_command-Reach}

Reach-trans : {s t u : Server} → Reach s t → Reach t u → Reach s u
Reach-trans r here = r
Reach-trans r (next q step) = next (Reach-trans r q) step

after_replay-fst :
    (evp : Evp) (draws : Draws) (fd : ℕ) (u : User) (user value timestamp hmac_hex : Bytes)
    (r : Bool × Server)
    → (after_replay evp draws fd u user value timestamp hmac_hex r).0 ≡ r.1
after_replay-fst evp draws fd u user value timestamp hmac_hex (true, t) = refl
after_replay-fst evp draws fd u user value timestamp hmac_hex (false, t) = refl

auth_request-Reach :
    (evp : Evp) (draws : Draws) (fd : ℕ) (s : Server) (w : Option (Bytes × Bytes × Bytes × Bytes))
    → Reach s (auth_request evp draws fd s w).0
auth_request-Reach evp draws fd s none = here
auth_request-Reach evp draws fd s (some (user, value, timestamp, hmac_hex)) =
    looked_up (find_user user s.users)
  where
    looked_up :
        (r : Option (ℕ × User))
        → Reach s (auth_user evp draws fd user value timestamp hmac_hex s r).0
    looked_up none = here
    looked_up (some (i, u)) =
        rw
          (after_replay-fst evp draws fd u user value timestamp hmac_hex
            (replay_seen_or_add value draws.recorded_at s))
          (next here (nonce value draws.recorded_at))

-- A request to the key distribution server, whatever it holds, changes the shared state only by
-- steps of the relation.
pub kdc_client-Reach :
    (evp : Evp) (draws : Draws) (fd : ℕ) (line : Option Bytes) (s : Server)
    → Reach s (kdc_client evp draws fd line s).0
unfolding kdc_client
kdc_client-Reach evp draws fd none s = here
kdc_client-Reach evp draws fd (some []) s = here
kdc_client-Reach evp draws fd (some (c ∷ line)) s = auth_request-Reach evp draws fd s _

-- The name in a ticket is cut to fit in its array.
decrypt_ticket-fits :
    (evp : Evp) (key : Bytes) (now : ℕ) (iv tag ciphertext : Bytes) (r : Bytes × Bytes)
    → decrypt_ticket evp key now iv tag ciphertext user_max ≡ some r
    → length r.0 < user_max
unfolding decrypt_ticket
decrypt_ticket-fits evp key now iv tag ciphertext r h =
    let (iv', _, h₁) = >>=-eq-some (hex_exactly iv 12) _ h in
    let (tag', _, h₂) = >>=-eq-some (hex_exactly tag 16) _ h₁ in
    let (ct, _, h₃) = >>=-eq-some (hex_decode ciphertext 2048) _ h₂ in
    let (_, _, h₄) = >>=-eq-some (guard (not (length ct == 0))) _ h₃ in
    let (pt, _, h₅) = >>=-eq-some (aes_256_gcm_decrypt evp key iv' tag' ct []) _ h₄ in
    let (_, _, h₆) = >>=-eq-some (guard (ltb (length pt) 2048)) _ h₅ in
    let ((user, expiry, session_hex), _, h₇) = >>=-eq-some (ticket_fields (c_string pt)) _ h₆ in
    let (_, _, h₈) = >>=-eq-some (guard (not (before (strtol expiry) now))) _ h₇ in
    let (session, _, h₉) = >>=-eq-some (hex_exactly session_hex 32) _ h₈ in
    subst (λ (x : Bytes × Bytes). length x.0 < user_max) (some_injective h₉)
      (length-snprintf-lt user_max user (omega arith))

open_ticket-fits :
    (evp : Evp) (key : Bytes) (now : ℕ) (iv tag ciphertext value hmac_hex : Bytes)
    (r : Bytes × Bytes)
    → open_ticket evp key now iv tag ciphertext value hmac_hex ≡ some r
    → length r.0 < user_max
unfolding open_ticket
open_ticket-fits evp key now iv tag ciphertext value hmac_hex r h =
    let ((user, session), e, h₁) =
      >>=-eq-some (decrypt_ticket evp key now iv tag ciphertext user_max) _ h in
    let (_, _, h₂) =
      >>=-eq-some (guard (hmac_agrees evp session (chat_text user value) hmac_hex)) _ h₁ in
    subst (λ (x : Bytes × Bytes). length x.0 < user_max) (some_injective h₂)
      (decrypt_ticket-fits evp key now iv tag ciphertext (user, session) e)

-- The state after authenticate_chat, and the name that it gives.
abbrev Logs : Server → Option (Bytes × Bytes) × Server → Type 0
Logs s (r, t) =
    Reach s t × ((user session : Bytes) → r ≡ some (user, session) → length user < user_max)

chat_replay-Logs :
    (evp : Evp) (now : ℕ) (iv tag ciphertext value hmac_hex : Bytes) (s : Server)
    (r : Bool × Server)
    → Reach s r.1
    → Logs s (chat_replay evp now iv tag ciphertext value hmac_hex r)
chat_replay-Logs evp now iv tag ciphertext value hmac_hex s (true, t) q =
    (q, λ user session e. absurd (cc))
chat_replay-Logs evp now iv tag ciphertext value hmac_hex s (false, t) q = (
  q,
  λ user session e.
      open_ticket-fits evp t.ticket_key now iv tag ciphertext value hmac_hex (user, session) e,
)

chat_request-Logs :
    (evp : Evp) (times : Times) (s : Server) (w : Option (Bytes × Bytes × Bytes × Bytes × Bytes))
    → Logs s (chat_request evp times s w)
chat_request-Logs evp times s none = (here, λ user session e. absurd (cc))
chat_request-Logs evp times s (some (iv, tag, ciphertext, value, hmac_hex)) =
    chat_replay-Logs evp times.checked_at iv tag ciphertext value hmac_hex s _
      (next here (nonce value times.recorded_at))

authenticate_chat-Logs :
    (evp : Evp) (times : Times) (line : Option Bytes) (s : Server)
    → Logs s (authenticate_chat evp times line s)
unfolding authenticate_chat
authenticate_chat-Logs evp times none s = (here, λ user session e. absurd (cc))
authenticate_chat-Logs evp times (some []) s = (here, λ user session e. absurd (cc))
authenticate_chat-Logs evp times (some (c ∷ line)) s = chat_request-Logs evp times s _

chat_loop-Reach :
    (fd : ℕ) (user : Bytes) (rounds : List Round) (s : Server)
    → Reach s (chat_loop fd user rounds s).0
unfolding chat_loop
chat_loop-Reach fd user [] s = next here (logout fd)
chat_loop-Reach fd user (r ∷ rounds) s =
    Reach-trans (process_command-Reach r.files r.random fd user (c_string r.line) s)
      (chat_loop-Reach fd user rounds _)

chat_slot-Reach :
    (fd : ℕ) (user : Bytes) (rounds : List Round) (s : Server) (r : Option ℕ × Server)
    → Reach s r.1
    → Reach s (chat_slot fd user rounds r).0
chat_slot-Reach fd user rounds s (none, t) q = q
chat_slot-Reach fd user rounds s (some i, t) q = Reach-trans q (chat_loop-Reach fd user rounds t)

chat_login-Reach :
    (fd : ℕ) (rounds : List Round) (s : Server) (r : Option (Bytes × Bytes) × Server)
    → Logs s r
    → Reach s (chat_login fd rounds r).0
chat_login-Reach fd rounds s (none, t) (q, f) = q
chat_login-Reach fd rounds s (some (user, session), t) (q, f) =
    chat_slot-Reach fd user rounds s _ (next q (login fd user session (f user session refl)))

-- A connection to the chat server, from its login to its end, changes the shared state only by steps
-- of the relation.
pub chat_client-Reach :
    (evp : Evp) (times : Times) (fd : ℕ) (line : Option Bytes) (rounds : List Round) (s : Server)
    → Reach s (chat_client evp times fd line rounds s).0
unfolding chat_client
chat_client-Reach evp times fd line rounds s =
    chat_login-Reach fd rounds s _ (authenticate_chat-Logs evp times line s)

-- Whatever a connection to the key distribution server and one to the chat server receive, each
-- keeps the invariant of the server, where that held before.
pub chat_client-IsServer :
    (evp : Evp) (times : Times) (draws : Draws) (fd : ℕ) (auth_line chat_line : Option Bytes)
    (rounds : List Round) (s : Server)
    → IsServer s
    → IsServer (kdc_client evp draws fd auth_line s).0
      × IsServer (chat_client evp times fd chat_line rounds s).0
chat_client-IsServer evp times draws fd auth_line chat_line rounds s v = (
  Reach-IsServer v (kdc_client-Reach evp draws fd auth_line s),
  Reach-IsServer v (chat_client-Reach evp times fd chat_line rounds s),
)
