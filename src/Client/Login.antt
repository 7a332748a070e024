-- ===== src/Client/Login.antt =====
-- A login from its start to its end, with Assignment2/client_real.c and Assignment2/server_real.c.
use nss_i_assignments.Base.{
  ℕ, ◌+◌, ◌^◌, ◌≤◌, ◌<◌, ◌≡◌, ◌≢◌, sym, ◌∙◌, ap, subst, false, Option, some, [], Bytes, length,
  arith,
}
use nss_i_assignments.CString.{length-snprintf-lt}
use nss_i_assignments.Common.Hex.{AreBytes, encode_bytes}
use nss_i_assignments.Common.Crypto.{Evp, GcmLaws, aes_256_gcm_encrypt}
use nss_i_assignments.Common.Crypto.Gcm.{Sealed, aes_256_gcm_encrypt-Sealed}
use nss_i_assignments.Server.State.{User}
use nss_i_assignments.Server.Login.{Draws, ticket_text, issue, decrypt_ticket}
use nss_i_assignments.Server.Login.Tickets.{
  length-ticket_text, IsField, ticket_text-AreBytes, decrypt_ticket-ticket_text,
}
use nss_i_assignments.Client.Words.{IsWord, IsWord-hex}
use nss_i_assignments.Client.{Ticket, kdc_reply}
use nss_i_assignments.Client.Issued.{Issues, issue-Issues}
use nss_i_assignments.Common.Crypto.{hmac_sha256}
use nss_i_assignments.Server.State.{Server}
use nss_i_assignments.Server.Replay.{replay_seen_or_add}
use nss_i_assignments.Server.Chat.{Times, authenticate_chat}
use nss_i_assignments.Client.{chat_connect}
use nss_i_assignments.Client.Entering.{authenticate_chat-chat_connect}
use nss_i_assignments.Client.Reply.{Draw, kept, kdc_reply-sealed}

-- What the client holds after the answer: the session key, and a ticket that the chat server opens.
pub record Holds (evp : Evp) (key : Bytes) (draws : Draws) (user : Bytes) (now : ℕ) (t : Ticket)
    : Type 0 where
  pub drawn : draws.session ≡ some t.session
  pub iv_word : IsWord t.iv_hex
  pub tag_word : IsWord t.tag_hex
  pub ct_word : IsWord t.ct_hex
  pub opens : decrypt_ticket evp key now t.iv_hex t.tag_hex t.ct_hex 32 ≡ some (user, t.session)

-- The answer of the key distribution server, where it has one, gives the client the session key that
-- was drawn and a ticket that the chat server opens, until it expires, to the user and that key,
-- with an OpenSSL that behaves as it documents. The session key has 32 bytes and the ivs 12; the
-- name has 1 to 31 bytes, no zero byte and no bar.
kdc_reply-issue :
    (evp : Evp) (key : Bytes) (draws : Draws) (u : User) (user text : Bytes) (now : ℕ)
    → GcmLaws evp
    → issue evp key draws u user ≡ some text
    → Draw draws.session 32
    → Draw draws.ticket_iv 12
    → Draw draws.payload_iv 12
    → IsField user
    → user ≢ []
    → length user < 32
    → now ≤ draws.issued_at + 3600
    → draws.issued_at + 3600 < 2 ^ 63
    → (t : Ticket) × (kdc_reply evp u.long_key text ≡ some t) × Holds evp key draws user now t
kdc_reply-issue evp key draws u user text now laws made session ticket_iv payload_iv field named
      short late lt =
    let d : Issues evp key draws u user text = issue-Issues evp key draws u user text made in
    let k : Bytes = d.session in
    let (kb, kl) = session k d.drawn in
    let plain : Bytes = ticket_text user (draws.issued_at + 3600) (encode_bytes k) in
    let seal : Sealed evp key plain draws.ticket_iv d.ticket =
      aes_256_gcm_encrypt-Sealed evp key plain draws.ticket_iv d.ticket laws
        (ticket_text-AreBytes user (draws.issued_at + 3600) k field short lt kb kl)
        d.ticket_sealed in
    let (ib, il) = ticket_iv d.ticket.0 seal.drawn in
    let bound : length plain < 512 = length-snprintf-lt 512 _ (omega arith) in
    let some_text : 0 < length plain =
      length-ticket_text user (draws.issued_at + 3600) k short lt kl in
    let some_ct : 0 < length d.ticket.2 = omega (arith, seal.same_length, some_text) in
    let short_ct : length d.ticket.2 < 512 = omega (arith, seal.same_length, bound) in
    let reply =
      kdc_reply-sealed evp u.long_key draws.payload_iv (draws.issued_at + 3600) k d.ticket.0
        d.ticket.1 d.ticket.2 d.payload laws d.payload_sealed payload_iv lt (kb, kl) (ib, il)
        (seal.tag_bytes, seal.tag_length) (seal.ciphertext_bytes, short_ct, some_ct) in
    let with_iv : aes_256_gcm_encrypt evp key plain [] (some d.ticket.0) ≡ some d.ticket =
      subst (λ (r : Option Bytes). aes_256_gcm_encrypt evp key plain [] r ≡ some d.ticket)
        seal.drawn d.ticket_sealed in
    (
      kept k d.ticket.0 d.ticket.1 d.ticket.2,
      ap (kdc_reply evp u.long_key) (sym d.answer) ∙ reply,
      record {
        drawn = d.drawn;
        iv_word = IsWord-hex d.ticket.0 ib (omega arith);
        tag_word = IsWord-hex d.ticket.1 seal.tag_bytes (omega (arith, seal.tag_length));
        ct_word = IsWord-hex d.ticket.2 seal.ciphertext_bytes some_ct;
        opens =
            decrypt_ticket-ticket_text evp key user k d.ticket.0 d.ticket.1 d.ticket.2
              (draws.issued_at + 3600) now laws with_iv ib il kb kl field named short late lt;
      },
    )

-- A whole login. The key distribution server has answered for `user`, and the client sends `line`
-- with the ticket of that answer and a nonce that is new to the chat server. Then authenticate_chat
-- lets it in, as `user` and with the session key that was drawn, and records the nonce. OpenSSL
-- behaves as it documents and gives tags of bytes, both servers have one ticket key, and the ticket
-- has not expired. The session key has 32 bytes, the ivs 12 and the nonce at least one; the name
-- has 1 to 31 bytes, no zero byte and no bar.
pub authenticate_chat-issue :
    (evp : Evp) (draws : Draws) (u : User) (user text raw line : Bytes) (times : Times) (s : Server)
    → GcmLaws evp
    → ((key bytes tag : Bytes) → hmac_sha256 evp key bytes ≡ some tag → AreBytes tag)
    → issue evp s.ticket_key draws u user ≡ some text
    → Draw draws.session 32
    → Draw draws.ticket_iv 12
    → Draw draws.payload_iv 12
    → IsField user
    → user ≢ []
    → length user < 32
    → times.checked_at ≤ draws.issued_at + 3600
    → draws.issued_at + 3600 < 2 ^ 63
    → AreBytes raw
    → 0 < length raw
    → (replay_seen_or_add (encode_bytes raw) times.recorded_at s).0 ≡ false
    → ((t : Ticket)
        → kdc_reply evp u.long_key text ≡ some t
        → chat_connect evp user t (some raw) ≡ some line)
    → (k : Bytes) × (draws.session ≡ some k)
      × (authenticate_chat evp times (some line) s
          ≡ (some (user, k), (replay_seen_or_add (encode_bytes raw) times.recorded_at s).1))
authenticate_chat-issue evp draws u user text raw line times s laws tags made session ticket_iv
      payload_iv field named short late lt raw_bytes some_raw fresh sends =
    let (t, replied, h) =
      kdc_reply-issue evp s.ticket_key draws u user text times.checked_at laws made session
        ticket_iv payload_iv field named short late lt in
    (
      t.session,
      h.drawn,
      authenticate_chat-chat_connect evp times user raw line t s tags raw_bytes some_raw h.iv_word
          h.tag_word h.ct_word h.opens fresh (sends t replied),
    )
