-- ===== src/Client/Issued.antt =====
-- The texts that kdc_client_thread of Assignment2/server_real.c makes, and how authenticate_with_kdc of
-- Assignment2/client_real.c cuts them up.
use nss_i_assignments.Base.{
  ap, ◌∙◌, some_injective, ℕ, ◌+◌, ◌*◌, ◌<◌, ◌≡◌, refl, sym, subst, true, some, [], ◌++◌, Bytes,
  codes, length, length-append, All, All-map, arith, >>=-eq-some,
}
use nss_i_assignments.CString.{c_string, str_eq_self, contains, strtok-last}
use nss_i_assignments.Common.Io.{trim_newline}
use nss_i_assignments.Common.Io.Lines.{trim_newline_line}
use nss_i_assignments.Common.Hex.{hex_encode-text, encode_bytes, hex_encode, hex_encode_fits}
use nss_i_assignments.Common.Crypto.{Evp, aes_256_gcm_encrypt}
use nss_i_assignments.Server.State.{User}
use nss_i_assignments.Server.Groups.{text_of}
use nss_i_assignments.Server.Login.{Draws, ticket_text, sealed_text, payload_text, issue}
use nss_i_assignments.Client.Words.{
  IsWord, IsWord-Free, IsWord-IsLineText, word_byte, behind, strtok-behind, behind-IsLineText,
  IsWord-NoZero, behind-NoZero, c_string-line, behind-All,
}
use nss_i_assignments.Client.{reply_words, payload_words}

-- What issue has drawn and sealed.
pub record Issues (evp : Evp) (key : Bytes) (draws : Draws) (u : User) (user text : Bytes)
    : Type 0 where
  pub session : Bytes
  pub ticket : Bytes × Bytes × Bytes
  pub payload : Bytes × Bytes × Bytes
  pub drawn : draws.session ≡ some session
  pub ticket_sealed :
      aes_256_gcm_encrypt evp key
        (ticket_text user (draws.issued_at + 3600) (encode_bytes session))
        []
        draws.ticket_iv
      ≡ some ticket
  pub payload_sealed :
      aes_256_gcm_encrypt evp u.long_key
        (payload_text
          (encode_bytes session)
          (draws.issued_at + 3600)
          (sealed_text ticket.0 ticket.1 ticket.2))
        []
        draws.payload_iv
      ≡ some payload
  pub answer : codes "OK " ++ (sealed_text payload.0 payload.1 payload.2 ++ codes "\n") ≡ text

pub issue-Issues :
    (evp : Evp) (key : Bytes) (draws : Draws) (u : User) (user text : Bytes)
    → issue evp key draws u user ≡ some text
    → Issues evp key draws u user text
unfolding issue
issue-Issues evp key draws u user text h =
    let expiry = draws.issued_at + 3600 in
    let (session, drawn, h₁) = >>=-eq-some draws.session _ h in
    let (session_hex, e, h₂) = >>=-eq-some (hex_encode session 65) _ h₁ in
    let (ticket, t, h₃) =
      >>=-eq-some
        (aes_256_gcm_encrypt evp key (ticket_text user expiry session_hex) [] draws.ticket_iv) _
        h₂ in
    let (payload, p, h₄) =
      >>=-eq-some
        (aes_256_gcm_encrypt evp u.long_key
          (payload_text session_hex expiry (sealed_text ticket.0 ticket.1 ticket.2)) []
          draws.payload_iv)
        _ h₃ in
    let same : session_hex ≡ encode_bytes session =
      sym (hex_encode-text session session_hex 65 e) in
    record {
      session = session;
      ticket = ticket;
      payload = payload;
      drawn = drawn;
      ticket_sealed =
          subst
            (λ (x : Bytes).
              aes_256_gcm_encrypt evp key (ticket_text user expiry x) [] draws.ticket_iv
              ≡ some ticket)
            same t;
      payload_sealed =
          subst
            (λ (x : Bytes).
              aes_256_gcm_encrypt evp u.long_key
                (payload_text x expiry (sealed_text ticket.0 ticket.1 ticket.2)) [] draws.payload_iv
              ≡ some payload)
            same p;
      answer = some_injective h₄;
    }

text_of-hex_encode :
    (bs : Bytes) (len : ℕ) → length bs * 2 < len → text_of (hex_encode bs len) ≡ encode_bytes bs
text_of-hex_encode bs len h = rw (hex_encode_fits bs len h)

-- The three parts, where the iv and the tag have their lengths.
pub sealed_text-words :
    (iv tag ct : Bytes)
    → length iv ≡ 12
    → length tag ≡ 16
    → sealed_text iv tag ct ≡ behind (encode_bytes iv) (behind (encode_bytes tag) (encode_bytes ct))
sealed_text-words iv tag ct i t = rw (
  text_of-hex_encode iv 25 (omega arith),
  text_of-hex_encode tag 33 (omega arith),
  text_of-hex_encode ct (length ct * 2 + 1) (omega arith),
)

abbrev pub five_words : Bytes → Bytes → Bytes → Bytes → Bytes → Bytes
five_words a b c d e = behind a (behind b (behind c (behind d e)))

pub length-five_words :
    (a b c d e : Bytes)
    → length (five_words a b c d e) ≡ length a + length b + length c + length d + length e + 4
length-five_words a b c d e = omega (
  arith,
  length-append a (codes " " ++ behind b (behind c (behind d e))),
  length-append b (codes " " ++ behind c (behind d e)),
  length-append c (codes " " ++ behind d e),
  length-append d (codes " " ++ e),
)

pub payload_words-five_words :
    (a b c d e : Bytes)
    → IsWord a
    → IsWord b
    → IsWord c
    → IsWord d
    → IsWord e
    → payload_words (five_words a b c d e) ≡ some (a, c, d, e)
unfolding payload_words
payload_words-five_words a b c d e ha hb hc hd he = rw (
  strtok-behind a (behind b (behind c (behind d e))) ha,
  strtok-behind b (behind c (behind d e)) hb,
  strtok-behind c (behind d e) hc,
  strtok-behind d e hd,
  strtok-last (codes " ") e he.0 (IsWord-Free e he),
)

pub five_words-All :
    {P : ℕ → Type 0} (a b c d e : Bytes)
    → P b' '
    → ((x : ℕ) → word_byte x ≡ true → P x)
    → IsWord a
    → IsWord b
    → IsWord c
    → IsWord d
    → IsWord e
    → All P (five_words a b c d e)
five_words-All {P} a b c d e blank all ha hb hc hd he = behind-All a _ blank all ha (
    behind-All b _ blank all hb
      (behind-All c _ blank all hc (behind-All d _ blank all hd (All-map e all he.1))))

abbrev ok : Bytes
ok = codes "OK"

ok-IsWord : IsWord ok
unfolding contains
ok-IsWord = (cc, (refl, (refl, tt)))

-- The answer, as authenticate_with_kdc cuts it up.
pub reply_words-answer :
    (iv tag ct : Bytes)
    → IsWord iv
    → IsWord tag
    → IsWord ct
    → reply_words
        (trim_newline (c_string (codes "OK " ++ (behind iv (behind tag ct) ++ codes "\n"))))
      ≡ some (iv, tag, ct)
unfolding reply_words
reply_words-answer iv tag ct hi ht hc = rw (
  trimmed,
  strtok-behind ok (behind iv (behind tag ct)) ok-IsWord,
  strtok-behind iv (behind tag ct) hi,
  strtok-behind tag ct ht,
  strtok-last (codes " ") ct hc.0 (IsWord-Free ct hc),
  str_eq_self ok,
)
  where
    trimmed :
        trim_newline (c_string (behind ok (behind iv (behind tag ct)) ++ codes "\n"))
        ≡ behind ok (behind iv (behind tag ct))
    trimmed =
        ap trim_newline (
          c_string-line (behind ok (behind iv (behind tag ct))) (
            behind-NoZero ok _ ok-IsWord
              (behind-NoZero iv _ hi (behind-NoZero tag _ ht (IsWord-NoZero ct hc)))))
        ∙ trim_newline_line _ (
            behind-IsLineText ok _ ok-IsWord
              (behind-IsLineText iv _ hi (behind-IsLineText tag _ ht (IsWord-IsLineText ct hc))))
