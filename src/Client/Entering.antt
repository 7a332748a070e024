-- ===== src/Client/Entering.antt =====
-- The request of connect_chat of Assignment2/client_real.c, as authenticate_chat of
-- Assignment2/server_real.c reads it.
use nss_i_assignments.Base.{
  ℕ, ◌<◌, ◌≡◌, refl, sym, ◌∙◌, ap, subst, Bool, true, false, Option, some, [], ◌∷◌, ◌++◌,
  append_assoc, Bytes, codes, length, arith, >>=-eq-some, Bool-cases, inl, inr,
}
use nss_i_assignments.CString.{c_string, str_eq_self, contains, strtok-last, snprintf}
use nss_i_assignments.Common.Io.{send_fmt, trim_newline}
use nss_i_assignments.Common.Io.Lines.{IsLineText, trim_newline_line}
use nss_i_assignments.Common.Hex.{hex_encode-text, AreBytes, encode_bytes, hex_encode}
use nss_i_assignments.Common.Crypto.{Evp, hmac_sha256}
use nss_i_assignments.Common.Crypto.Cbc.{hmac_sha256-length}
use nss_i_assignments.Server.State.{Server}
use nss_i_assignments.Server.Replay.{nonce_seen, replay_seen_or_add}
use nss_i_assignments.Server.Login.{decrypt_ticket, hmac_agrees}
use nss_i_assignments.Server.Login.Tickets.{hex_exactly-encode_bytes}
use nss_i_assignments.Server.Chat.{
  Times, ticket_words, chat_text, open_ticket, chat_replay, authenticate_chat,
}
use nss_i_assignments.Client.Words.{
  IsWord, IsWord-Free, IsWord-IsLineText, IsWord-hex, behind, strtok-behind, behind-IsLineText,
  NoZero, IsWord-NoZero, behind-NoZero, c_string-line,
}
use nss_i_assignments.Client.{Ticket, make_nonce_hex, ticket_line, chat_connect}

abbrev six_words : Bytes → Bytes → Bytes → Bytes → Bytes → Bytes → Bytes
six_words a b c d e f = behind a (behind b (behind c (behind d (behind e f))))

abbrev cmd : Bytes
cmd = codes "TICKET"

cmd-IsWord : IsWord cmd
unfolding contains
cmd-IsWord = (cc, (refl, (refl, (refl, (refl, (refl, (refl, tt)))))))

ticket_words-six_words :
    (iv tag ct nonce hmac : Bytes)
    → IsWord iv
    → IsWord tag
    → IsWord ct
    → IsWord nonce
    → IsWord hmac
    → ticket_words (six_words cmd iv tag ct nonce hmac) ≡ some (iv, tag, ct, nonce, hmac)
unfolding ticket_words
ticket_words-six_words iv tag ct nonce hmac i t c n h = rw (
  strtok-behind cmd (behind iv (behind tag (behind ct (behind nonce hmac)))) cmd-IsWord,
  strtok-behind iv (behind tag (behind ct (behind nonce hmac))) i,
  strtok-behind tag (behind ct (behind nonce hmac)) t,
  strtok-behind ct (behind nonce hmac) c,
  strtok-behind nonce hmac n,
  strtok-last (codes " ") hmac h.0 (IsWord-Free hmac h),
  str_eq_self cmd,
)

six_words-IsLineText :
    (iv tag ct nonce hmac : Bytes)
    → IsWord iv
    → IsWord tag
    → IsWord ct
    → IsWord nonce
    → IsWord hmac
    → IsLineText (six_words cmd iv tag ct nonce hmac)
six_words-IsLineText iv tag ct nonce hmac i t c n h = behind-IsLineText cmd _ cmd-IsWord (
    behind-IsLineText iv _ i (
      behind-IsLineText tag _ t
        (behind-IsLineText ct _ c (behind-IsLineText nonce _ n (IsWord-IsLineText hmac h)))))

ticket_line-six_words :
    (t : Ticket) (nonce hmac : Bytes)
    → ticket_line t nonce hmac ≡ six_words cmd t.iv_hex t.tag_hex t.ct_hex nonce hmac ++ b'\n' ∷ []
ticket_line-six_words t nonce hmac = simp append_assoc

six_words-NoZero :
    (iv tag ct nonce hmac : Bytes)
    → IsWord iv
    → IsWord tag
    → IsWord ct
    → IsWord nonce
    → IsWord hmac
    → NoZero (six_words cmd iv tag ct nonce hmac)
six_words-NoZero iv tag ct nonce hmac i t c n h = behind-NoZero cmd _ cmd-IsWord (
    behind-NoZero iv _ i (
      behind-NoZero tag _ t
        (behind-NoZero ct _ c (behind-NoZero nonce _ n (IsWord-NoZero hmac h)))))

hmac_agrees-encode_bytes :
    (evp : Evp) (key text hmac : Bytes)
    → hmac_sha256 evp key (snprintf 512 text) ≡ some hmac
    → AreBytes hmac
    → hmac_agrees evp key text (encode_bytes hmac) ≡ true
unfolding hmac_agrees
hmac_agrees-encode_bytes evp key text hmac e h =
    rw (e, hex_exactly-encode_bytes hmac 32 h (hmac_sha256-length evp key _ hmac e))
      (str_eq_self hmac)

chat_replay-new :
    (evp : Evp) (now : ℕ) (iv tag ct nonce hmac : Bytes) (r : Bool × Server)
    → r.0 ≡ false
    → chat_replay evp now iv tag ct nonce hmac r
      ≡ (open_ticket evp r.1.ticket_key now iv tag ct nonce hmac, r.1)
chat_replay-new evp now iv tag ct nonce hmac (true, t) e = absurd (cc)
chat_replay-new evp now iv tag ct nonce hmac (false, t) e = refl

replay_seen_or_add-ticket_key :
    (nonce : Bytes) (now : ℕ) (s : Server)
    → (replay_seen_or_add nonce now s).1.ticket_key ≡ s.ticket_key
unfolding replay_seen_or_add
replay_seen_or_add-ticket_key nonce now s = elim (Bool-cases (nonce_seen nonce s.replays)) [
  | inl e ↦ rw e refl
  | inr e ↦ rw e refl
]

send_fmt-text : (text line : Bytes) → send_fmt text ≡ some line → text ≡ line
unfolding send_fmt
send_fmt-text text line h = ground arith

-- What chat_connect sends: the words of the ticket, a nonce and a tag under the session key.
chat_connect-inv :
    (evp : Evp) (user : Bytes) (t : Ticket) (raw line : Bytes)
    → chat_connect evp user t (some raw) ≡ some line
    → (hmac : Bytes) × (hmac_sha256 evp t.session (snprintf 512 (chat_text user (encode_bytes raw)))
        ≡ some hmac)
      × (ticket_line t (encode_bytes raw) (encode_bytes hmac) ≡ line)
unfolding chat_connect make_nonce_hex
chat_connect-inv evp user t raw line h =
    let (nonce, n, h₁) = >>=-eq-some (hex_encode raw 33) _ h in
    let (hmac, e, h₂) =
      >>=-eq-some (hmac_sha256 evp t.session (snprintf 512 (chat_text user nonce))) _ h₁ in
    let (hmac_hex, m, h₃) = >>=-eq-some (hex_encode hmac 65) _ h₂ in
    let same : nonce ≡ encode_bytes raw = sym (hex_encode-text raw nonce 33 n) in
    let same' : hmac_hex ≡ encode_bytes hmac = sym (hex_encode-text hmac hmac_hex 65 m) in
    (
      hmac,
      subst (λ (x : Bytes). hmac_sha256 evp t.session (snprintf 512 (chat_text user x)) ≡ some hmac)
          same e,
      sym (ap (λ (x : Bytes). ticket_line t x (encode_bytes hmac)) same)
          ∙ sym (ap (ticket_line t nonce) same')
          ∙ send_fmt-text (ticket_line t nonce hmac_hex) line h₃,
    )

authenticate_chat-words :
    (evp : Evp) (times : Times) (t : Ticket) (nonce hmac : Bytes) (s : Server)
    → trim_newline (c_string (ticket_line t nonce hmac))
      ≡ six_words cmd t.iv_hex t.tag_hex t.ct_hex nonce hmac
    → ticket_words (six_words cmd t.iv_hex t.tag_hex t.ct_hex nonce hmac)
      ≡ some (t.iv_hex, t.tag_hex, t.ct_hex, nonce, hmac)
    → authenticate_chat evp times (some (ticket_line t nonce hmac)) s
      ≡ chat_replay evp times.checked_at t.iv_hex t.tag_hex t.ct_hex nonce hmac
          (replay_seen_or_add nonce times.recorded_at s)
unfolding authenticate_chat
authenticate_chat-words evp times t nonce hmac s trimmed words = rw (trimmed, words) refl

open_ticket-checked :
    (evp : Evp) (key : Bytes) (now : ℕ) (t : Ticket) (user nonce hmac : Bytes)
    → decrypt_ticket evp key now t.iv_hex t.tag_hex t.ct_hex 32 ≡ some (user, t.session)
    → hmac_agrees evp t.session (chat_text user nonce) hmac ≡ true
    → open_ticket evp key now t.iv_hex t.tag_hex t.ct_hex nonce hmac ≡ some (user, t.session)
unfolding open_ticket
open_ticket-checked evp key now t user nonce hmac opened agrees = rw (opened, agrees)

-- The login with a ticket. The client has a ticket of words that the server decrypts to the client's
-- name and session key, its nonce is new to the server, and OpenSSL gives tags of bytes. Then the
-- line that connect_chat sends passes authenticate_chat, for that name and that session key, and
-- the server records the nonce and changes nothing else.
pub authenticate_chat-chat_connect :
    (evp : Evp) (times : Times) (user raw line : Bytes) (t : Ticket) (s : Server)
    → ((key text tag : Bytes) → hmac_sha256 evp key text ≡ some tag → AreBytes tag)
    → AreBytes raw
    → 0 < length raw
    → IsWord t.iv_hex
    → IsWord t.tag_hex
    → IsWord t.ct_hex
    → decrypt_ticket evp s.ticket_key times.checked_at t.iv_hex t.tag_hex t.ct_hex 32
      ≡ some (user, t.session)
    → (replay_seen_or_add (encode_bytes raw) times.recorded_at s).0 ≡ false
    → chat_connect evp user t (some raw) ≡ some line
    → authenticate_chat evp times (some line) s
      ≡ (some (user, t.session), (replay_seen_or_add (encode_bytes raw) times.recorded_at s).1)
authenticate_chat-chat_connect evp times user raw line t s tag_bytes raw_bytes some_raw i g c opened
      fresh sent =
    let (hmac, e, same) = chat_connect-inv evp user t raw line sent in
    let nonce : Bytes = encode_bytes raw in
    let code : Bytes = encode_bytes hmac in
    let bytes : AreBytes hmac = tag_bytes t.session _ hmac e in
    let n : IsWord nonce = IsWord-hex raw raw_bytes some_raw in
    let h : IsWord code =
      IsWord-hex hmac bytes (omega (arith, hmac_sha256-length evp t.session _ hmac e)) in
    let trimmed =
      ap (λ (l : Bytes). trim_newline (c_string l)) (ticket_line-six_words t nonce code)
      ∙ ap trim_newline (
          c_string-line (six_words cmd t.iv_hex t.tag_hex t.ct_hex nonce code)
            (six_words-NoZero t.iv_hex t.tag_hex t.ct_hex nonce code i g c n h))
      ∙ trim_newline_line _
          (six_words-IsLineText t.iv_hex t.tag_hex t.ct_hex nonce code i g c n h) in
    let words = ticket_words-six_words t.iv_hex t.tag_hex t.ct_hex nonce code i g c n h in
    let r : Bool × Server = replay_seen_or_add nonce times.recorded_at s in
    let checked : open_ticket evp r.1.ticket_key times.checked_at t.iv_hex t.tag_hex t.ct_hex nonce
          code
        ≡ some (user, t.session) =
      ap (λ (k : Bytes). open_ticket evp k times.checked_at t.iv_hex t.tag_hex t.ct_hex nonce code)
        (replay_seen_or_add-ticket_key nonce times.recorded_at s)
      ∙ open_ticket-checked evp s.ticket_key times.checked_at t user nonce code opened
          (hmac_agrees-encode_bytes evp t.session (chat_text user nonce) hmac e bytes) in
    ap (λ (l : Bytes). authenticate_chat evp times (some l) s) (sym same)
    ∙ authenticate_chat-words evp times t nonce code s trimmed words
    ∙ chat_replay-new evp times.checked_at t.iv_hex t.tag_hex t.ct_hex nonce code r fresh
    ∙ ap {B = Option (Bytes × Bytes) × Server} (λ o. (o, r.1)) checked
