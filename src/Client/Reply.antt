-- ===== src/Client/Reply.antt =====
-- The reading of the answer of the key distribution server, where it was made for a ticket.
use nss_i_assignments.Base.{
  ℕ, ◌^◌, ◌<◌, ◌≡◌, refl, true, false, Option, some, [], ◌++◌, ltb, ◌==◌, Bytes, codes, length, All,
  arith,
}
use nss_i_assignments.CString.{
  c_string, snprintf, snprintf-fits, print_dec, print_int, length-print_dec,
}
use nss_i_assignments.Common.Io.{trim_newline}
use nss_i_assignments.Common.Hex.{
  AreBytes, encode_bytes, hex_decode, hex_decode-encode_bytes, length-encode_bytes,
}
use nss_i_assignments.Common.Crypto.{Evp, GcmLaws, aes_256_gcm_encrypt, aes_256_gcm_decrypt}
use nss_i_assignments.Common.Crypto.Gcm.{Sealed, aes_256_gcm_encrypt-Sealed}
use nss_i_assignments.Server.Login.{hex_exactly, sealed_text, payload_text}
use nss_i_assignments.Server.Login.Tickets.{IsField-c_string, hex_exactly-encode_bytes}
use nss_i_assignments.Client.Words.{IsWord, IsWord-hex, IsWord-print_dec}
use nss_i_assignments.Client.{Ticket, reply_words, payload_words, kdc_reply}
use nss_i_assignments.Client.Issued.{
  sealed_text-words, five_words, length-five_words, payload_words-five_words, five_words-All,
  reply_words-answer,
}

-- The ticket as the client keeps it.
abbrev pub kept : Bytes → Bytes → Bytes → Bytes → Ticket
kept session iv tag ct = record {
  session = session;
  iv_hex = encode_bytes iv;
  tag_hex = encode_bytes tag;
  ct_hex = encode_bytes ct;
}

-- The payload for a ticket.
abbrev payload_of : ℕ → Bytes → Bytes → Bytes → Bytes → Bytes
payload_of expiry session iv tag ct =
    five_words (encode_bytes session) (print_dec expiry) (encode_bytes iv) (encode_bytes tag)
      (encode_bytes ct)

kdc_reply-checked :
    (evp : Evp) (long_key line iv' tag' sealed : Bytes) (expiry : ℕ) (session iv tag ct : Bytes)
    → reply_words (trim_newline (c_string line))
      ≡ some (encode_bytes iv', encode_bytes tag', encode_bytes sealed)
    → hex_exactly (encode_bytes iv') 12 ≡ some iv'
    → hex_exactly (encode_bytes tag') 16 ≡ some tag'
    → hex_decode (encode_bytes sealed) 4096 ≡ some sealed
    → (length sealed == 0) ≡ false
    → aes_256_gcm_decrypt evp long_key iv' tag' sealed []
      ≡ some (payload_of expiry session iv tag ct)
    → ltb (length (payload_of expiry session iv tag ct)) 4096 ≡ true
    → c_string (payload_of expiry session iv tag ct) ≡ payload_of expiry session iv tag ct
    → payload_words (payload_of expiry session iv tag ct)
      ≡ some (encode_bytes session, encode_bytes iv, encode_bytes tag, encode_bytes ct)
    → hex_exactly (encode_bytes session) 32 ≡ some session
    → snprintf 128 (encode_bytes iv) ≡ encode_bytes iv
    → snprintf 128 (encode_bytes tag) ≡ encode_bytes tag
    → snprintf 4096 (encode_bytes ct) ≡ encode_bytes ct
    → kdc_reply evp long_key line ≡ some (kept session iv tag ct)
unfolding kdc_reply
kdc_reply-checked evp long_key line iv' tag' sealed expiry session iv tag ct a b c d e f g h i j k l
      m =
    rw (a, b, c, d, e, f, g, h, i, j, k, l, m)

-- The payload is words, and fits in its buffer.
payload_text-payload_of :
    (expiry : ℕ) (session iv tag ct : Bytes)
    → expiry < 2 ^ 63
    → length session ≡ 32
    → length iv ≡ 12
    → length tag ≡ 16
    → length ct < 512
    → (payload_text (encode_bytes session) expiry (sealed_text iv tag ct)
        ≡ payload_of expiry session iv tag ct)
      × (length (payload_of expiry session iv tag ct) < 2048)
unfolding print_int
payload_text-payload_of expiry session iv tag ct lt s i t c = (
  rw (sealed_text-words iv tag ct i t)
      (snprintf-fits 2048 (payload_of expiry session iv tag ct) fits),
  fits,
)
  where
    fits : length (payload_of expiry session iv tag ct) < 2048
    fits = omega (
      arith,
      length-five_words (encode_bytes session) (print_dec expiry) (encode_bytes iv)
          (encode_bytes tag) (encode_bytes ct),
      length-print_dec expiry lt,
      length-encode_bytes session,
      length-encode_bytes iv,
      length-encode_bytes tag,
      length-encode_bytes ct,
    )

-- What random_bytes gives, where it gives something.
abbrev pub Draw : Option Bytes → ℕ → Type 0
Draw random n = (bytes : Bytes) → random ≡ some bytes → AreBytes bytes × (length bytes ≡ n)

-- The reading of an answer whose payload has been sealed for a ticket.
pub kdc_reply-sealed :
    (evp : Evp) (long_key : Bytes) (random : Option Bytes) (expiry : ℕ) (session iv tag ct : Bytes)
    (r : Bytes × Bytes × Bytes)
    → GcmLaws evp
    → aes_256_gcm_encrypt evp long_key
        (payload_text (encode_bytes session) expiry (sealed_text iv tag ct))
        []
        random
      ≡ some r
    → Draw random 12
    → expiry < 2 ^ 63
    → AreBytes session × (length session ≡ 32)
    → AreBytes iv × (length iv ≡ 12)
    → AreBytes tag × (length tag ≡ 16)
    → AreBytes ct × (length ct < 512) × (0 < length ct)
    → kdc_reply evp long_key (codes "OK " ++ (sealed_text r.0 r.1 r.2 ++ codes "\n"))
      ≡ some (kept session iv tag ct)
kdc_reply-sealed evp long_key random expiry session iv tag ct (iv', tag', sealed) laws made drawn lt
      (sb, sl) (ib, il) (tb, tl) (cb, cl, cp) =
    let p : Bytes = payload_of expiry session iv tag ct in
    let s : IsWord (encode_bytes session) = IsWord-hex session sb (omega arith) in
    let d : IsWord (print_dec expiry) = IsWord-print_dec expiry in
    let i : IsWord (encode_bytes iv) = IsWord-hex iv ib (omega arith) in
    let t : IsWord (encode_bytes tag) = IsWord-hex tag tb (omega arith) in
    let c : IsWord (encode_bytes ct) = IsWord-hex ct cb cp in
    let (whole, fits) = payload_text-payload_of expiry session iv tag ct lt sl il tl cl in
    let bytes : AreBytes p =
      five_words-All _ _ _ _ _ (omega arith) (λ x h. ground arith) s d i t c in
    let no_zero : All (λ x. (x == 0) ≡ false) p =
      five_words-All _ _ _ _ _ refl (λ x h. ground arith) s d i t c in
    let seal : Sealed evp long_key p random (iv', tag', sealed) =
      aes_256_gcm_encrypt-Sealed evp long_key p random (iv', tag', sealed) laws bytes
        (rw whole at made) in
    let (ib', il') = drawn iv' seal.drawn in
    let some_p : 0 < length p = omega (
      arith,
      length-five_words (encode_bytes session) (print_dec expiry) (encode_bytes iv)
          (encode_bytes tag) (encode_bytes ct),
    ) in
    let i' : IsWord (encode_bytes iv') = IsWord-hex iv' ib' (omega arith) in
    let t' : IsWord (encode_bytes tag') =
      IsWord-hex tag' seal.tag_bytes (omega (arith, seal.tag_length)) in
    let c' : IsWord (encode_bytes sealed) =
      IsWord-hex sealed seal.ciphertext_bytes (omega (arith, seal.same_length, some_p)) in
    kdc_reply-checked evp long_key _ iv' tag' sealed expiry session iv tag ct
      (rw (sealed_text-words iv' tag' sealed il' seal.tag_length)
        (reply_words-answer (encode_bytes iv') (encode_bytes tag') (encode_bytes sealed) i' t' c'))
      (hex_exactly-encode_bytes iv' 12 ib' il')
      (hex_exactly-encode_bytes tag' 16 seal.tag_bytes seal.tag_length)
      (hex_decode-encode_bytes sealed 4096 seal.ciphertext_bytes
        (omega (arith, seal.same_length, fits)))
      (ground (arith, seal.same_length, some_p)) seal.opens (ground (arith, fits))
      (IsField-c_string p no_zero) (payload_words-five_words _ _ _ _ _ s d i t c)
      (hex_exactly-encode_bytes session 32 sb sl)
      (snprintf-fits 128 (encode_bytes iv) (omega (arith, length-encode_bytes iv)))
      (snprintf-fits 128 (encode_bytes tag) (omega (arith, length-encode_bytes tag)))
      (snprintf-fits 4096 (encode_bytes ct) (omega (arith, length-encode_bytes ct)))
