-- ===== src/Common/Crypto/Gcm.antt =====
-- Decryption after encryption in the authenticated mode, with the wrappers around OpenSSL.
use nss_i_assignments.Base.{
  guard-true, some_injective, ◌≡◌, ◌∙◌, ap, subst, true, Option, some, [], ◌++◌, Bytes, length,
  >>=-eq-some, guard,
}
use nss_i_assignments.Common.Hex.{AreBytes}
use nss_i_assignments.Common.Crypto.{Evp, GcmLaws, aes_256_gcm_encrypt, aes_256_gcm_decrypt}

-- What aes_256_gcm_encrypt gives for a plaintext with no additional data.
pub record Sealed (evp : Evp) (key plaintext : Bytes) (random : Option Bytes)
    (r : Bytes × Bytes × Bytes) : Type 0 where
  pub drawn : random ≡ some r.0
  pub opens : aes_256_gcm_decrypt evp key r.0 r.1 r.2 [] ≡ some plaintext
  pub same_length : length r.2 ≡ length plaintext
  pub tag_length : length r.1 ≡ 16
  pub ciphertext_bytes : AreBytes r.2
  pub tag_bytes : AreBytes r.1

aes_256_gcm_decrypt-parts :
    (evp : Evp) (key iv tag ciphertext start rest : Bytes)
    → evp.cipher_ctx_new ≡ true
    → evp.gcm_decrypt_init key iv ≡ true
    → evp.gcm_set_tag tag ≡ true
    → evp.gcm_decrypt_update key iv [] ciphertext ≡ some start
    → evp.gcm_decrypt_final key iv [] ciphertext tag ≡ some rest
    → aes_256_gcm_decrypt evp key iv tag ciphertext [] ≡ some (start ++ rest)
unfolding aes_256_gcm_decrypt
aes_256_gcm_decrypt-parts evp key iv tag ciphertext start rest new init set d f =
    rw (new, init, d, set, f)

-- If OpenSSL behaves as it documents, aes_256_gcm_decrypt undoes aes_256_gcm_encrypt, under the same
-- key, with the iv and the tag that came with the ciphertext.
pub aes_256_gcm_encrypt-Sealed :
    (evp : Evp) (key plaintext : Bytes) (random : Option Bytes) (r : Bytes × Bytes × Bytes)
    → GcmLaws evp
    → AreBytes plaintext
    → aes_256_gcm_encrypt evp key plaintext [] random ≡ some r
    → Sealed evp key plaintext random r
unfolding aes_256_gcm_encrypt
aes_256_gcm_encrypt-Sealed evp key plaintext random r laws plain h =
    let (_, g₁, h₁) = >>=-eq-some (guard evp.cipher_ctx_new) _ h in
    let (iv, drawn, h₂) = >>=-eq-some random _ h₁ in
    let (_, _, h₃) = >>=-eq-some (guard (evp.gcm_encrypt_init key iv)) _ h₂ in
    let (body, e, h₅) = >>=-eq-some (evp.gcm_encrypt_update key iv [] plaintext) _ h₃ in
    let (end, f, h₆) = >>=-eq-some (evp.gcm_encrypt_final key iv [] plaintext) _ h₅ in
    let (tag, t, h₇) = >>=-eq-some (evp.gcm_get_tag key iv [] plaintext) _ h₆ in
    let (start, rest, d, g, whole) = laws.opens key iv plaintext body end tag e f t in
    let (len, tag_len, bytes, tag_bytes) = laws.sealed key iv plaintext body end tag plain e f t in
    let same : (iv, tag, body ++ end) ≡ r = some_injective h₇ in
    subst (λ (x : Bytes × Bytes × Bytes). Sealed evp key plaintext random x) same
      (record {
        drawn = drawn;
        opens =
            aes_256_gcm_decrypt-parts evp key iv tag (body ++ end) start rest
              (guard-true evp.cipher_ctx_new g₁) (laws.decrypt_starts key iv) (laws.tag_set tag) d g
            ∙ ap some whole;
        same_length = len;
        tag_length = tag_len;
        ciphertext_bytes = bytes;
        tag_bytes = tag_bytes;
      })
