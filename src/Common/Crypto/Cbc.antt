-- ===== src/Common/Crypto/Cbc.antt =====
-- Decryption after encryption, with the wrappers around OpenSSL.
use nss_i_assignments.Base.{
  guard-true, some_injective, ◌+◌, ◌≤◌, ◌<◌, ◌≡◌, some, ◌++◌, Bytes, length, ◌==◌, arith,
  >>=-eq-some, guard, subst,
}
use nss_i_assignments.Common.Crypto.{
  Evp, CbcLaws, aes_256_cbc_encrypt, aes_256_cbc_decrypt, hmac_sha256,
}

-- If OpenSSL decrypts as it documents, aes_256_cbc_decrypt undoes aes_256_cbc_encrypt, under the
-- same key and iv; and the ciphertext is not empty, and at most a block longer than the plaintext.
pub aes_256_cbc_decrypt-encrypt :
    (evp : Evp) (key iv plaintext ciphertext : Bytes)
    → CbcLaws evp
    → aes_256_cbc_encrypt evp key iv plaintext ≡ some ciphertext
    → (aes_256_cbc_decrypt evp key iv ciphertext ≡ some plaintext)
      × (0 < length ciphertext)
      × (length ciphertext ≤ length plaintext + 16)
unfolding aes_256_cbc_encrypt aes_256_cbc_decrypt
aes_256_cbc_decrypt-encrypt evp key iv plaintext ciphertext laws h =
    let (_, g₁, h₁) = >>=-eq-some (guard evp.cipher_ctx_new) _ h in
    let (_, _, h₂) = >>=-eq-some (guard (evp.cbc_encrypt_init key iv)) _ h₁ in
    let (body, e, h₃) = >>=-eq-some (evp.cbc_encrypt_update key iv plaintext) _ h₂ in
    let (end, f, h₄) = >>=-eq-some (evp.cbc_encrypt_final key iv plaintext) _ h₃ in
    let (start, rest, d, g, whole) = laws.opens key iv plaintext body end e f in
    let same : body ++ end ≡ ciphertext = some_injective h₄ in
    let (pos, le) = laws.padded key iv plaintext body end e f in
    (
      rw (guard-true _ g₁, laws.decrypt_starts key iv, ← same, d, g, whole),
      subst (λ (c : Bytes). 0 < length c) same pos,
      subst (λ (c : Bytes). length c ≤ length plaintext + 16) same le,
    )

pub hmac_sha256-length :
    (evp : Evp) (key bytes tag : Bytes) → hmac_sha256 evp key bytes ≡ some tag → length tag ≡ 32
unfolding hmac_sha256
hmac_sha256-length evp key bytes tag h =
    let (out, _, h₁) = >>=-eq-some (evp.hmac key bytes) _ h in
    let (_, g, h₂) = >>=-eq-some (guard (length out == 32)) _ h₁ in
    let same : out ≡ tag = some_injective h₂ in
    subst (λ (t : Bytes). length t ≡ 32) same (ground (arith, guard-true _ g))
