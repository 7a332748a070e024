-- ===== src/Tests/Entering.antt =====
-- A run of a whole login, of Assignment2/client_real.c and server_real.c.
use nss_i_assignments.Base.{
  some_injective, ℕ, length, All-append, ◌<◌, sym, ◌≡◌, ◌<◌, refl, ◌∙◌, false, some, [], ◌++◌,
  Bytes, codes, replicate, length-replicate, subst, All-replicate, arith,
}
use nss_i_assignments.CString.{print_int, print_dec, digits_onto}
use nss_i_assignments.Common.Hex.{encode_bytes}
use nss_i_assignments.Common.Crypto.{aes_256_gcm_encrypt}
use nss_i_assignments.Server.State.{User}
use nss_i_assignments.Server.Replay.{nonce_seen, replay_seen_or_add}
use nss_i_assignments.Server.Login.{ticket_text}
use nss_i_assignments.Server.Login.Tickets.{ticket_text-AreBytes}
use nss_i_assignments.Server.Chat.{authenticate_chat}
use nss_i_assignments.Common.Io.{send_fmt}
use nss_i_assignments.Common.Hex.{AreBytes, hex_encode, hex_digit}
use nss_i_assignments.Common.Crypto.{hmac_sha256}
use nss_i_assignments.Server.Groups.{text_of}
use nss_i_assignments.Server.Login.{issue, sealed_text, payload_text}
use nss_i_assignments.Client.{Ticket, kdc_reply, chat_connect, make_nonce_hex}
use nss_i_assignments.Client.Reply.{kept, Draw, kdc_reply-sealed}
use nss_i_assignments.Client.Login.{authenticate_chat-issue}
use nss_i_assignments.Tests.Login.{evp, evp-GcmLaws, draws, bob, key, start, bob-IsField}

abbrev user : User
user = record { name = bob; password = codes "pw"; root = codes "files/bob"; long_key = key }

abbrev ticket : Bytes
ticket = ticket_text bob 3610 (encode_bytes key) ++ []

abbrev payload : Bytes
payload =
    payload_text (encode_bytes key) 3610 (sealed_text (replicate 12 3) (replicate 16 0) ticket)
    ++ []

abbrev answer : Bytes
answer = codes "OK " ++ (sealed_text (replicate 12 4) (replicate 16 0) payload ++ codes "\n")

issued : issue evp start.ticket_key draws user bob ≡ some answer
unfolding issue hex_encode aes_256_gcm_encrypt
issued = refl

draw : (n v : ℕ) → v < 256 → Draw (some (replicate n v)) n
draw n v h bytes e =
    subst (λ (b : Bytes). AreBytes b × (length b ≡ n)) (some_injective e)
      (All-replicate (λ b. b < 256) n v h, length-replicate n v)

abbrev raw : Bytes
raw = replicate 16 1

abbrev held : Ticket
held = kept key (replicate 12 3) (replicate 16 0) ticket

abbrev line : Bytes
line = text_of (chat_connect evp bob held (some raw))

connects : chat_connect evp bob held (some raw) ≡ some line
unfolding chat_connect make_nonce_hex hex_encode hmac_sha256 send_fmt encode_bytes hex_digit
    print_int print_dec digits_onto
connects = refl

ticket_bytes : AreBytes ticket
ticket_bytes =
    All-append _ (ticket_text bob 3610 (encode_bytes key)) []
      (ticket_text-AreBytes bob 3610 key bob-IsField (omega arith) (omega arith)
        (All-replicate (λ b. b < 256) 32 7 (omega arith)) refl)
      tt

replied : kdc_reply evp key answer ≡ some held
unfolding print_int encode_bytes print_dec digits_onto
replied =
    kdc_reply-sealed evp key (some (replicate 12 4)) 3610 key (replicate 12 3) (replicate 16 0)
      ticket (replicate 12 4, replicate 16 0, payload) evp-GcmLaws sealed (draw 12 4 (omega arith))
      (omega arith) (draw 32 7 (omega arith) key refl)
      (draw 12 3 (omega arith) (replicate 12 3) refl)
      (draw 16 0 (omega arith) (replicate 16 0) refl) (ticket_bytes, omega arith, omega arith)
  where
    sealed :
        aes_256_gcm_encrypt evp key
          (payload_text
            (encode_bytes key)
            3610
            (sealed_text (replicate 12 3) (replicate 16 0) ticket))
          []
          (some (replicate 12 4))
        ≡ some (replicate 12 4, replicate 16 0, payload)
    sealed = unfold aes_256_gcm_encrypt in refl

sends :
    (t : Ticket) → kdc_reply evp key answer ≡ some t → chat_connect evp bob t (some raw) ≡ some line
sends t e =
    subst (λ (x : Ticket). chat_connect evp bob x (some raw) ≡ some line)
      (some_injective (sym replied ∙ e)) connects

tags : (k bytes tag : Bytes) → hmac_sha256 evp k bytes ≡ some tag → AreBytes tag
unfolding hmac_sha256
tags k bytes tag e = (draw 32 1 (omega arith) tag e).0

fresh_nonce : (replay_seen_or_add (encode_bytes raw) 20 start).0 ≡ false
unfolding replay_seen_or_add nonce_seen
fresh_nonce = refl

authenticate_chat-issue_example :
    (k : Bytes) × (some key ≡ some k)
    × (authenticate_chat evp (record { recorded_at = 20; checked_at = 20 }) (some line) start
        ≡ (some (bob, k), (replay_seen_or_add (encode_bytes raw) 20 start).1))
authenticate_chat-issue_example =
    authenticate_chat-issue evp draws user bob answer raw line
      (record { recorded_at = 20; checked_at = 20 }) start evp-GcmLaws tags issued
      (draw 32 7 (omega arith)) (draw 12 3 (omega arith)) (draw 12 4 (omega arith)) bob-IsField (cc)
      (omega arith) (omega arith) (omega arith) (All-replicate (λ b. b < 256) 16 1 (omega arith))
      (omega arith) fresh_nonce sends
