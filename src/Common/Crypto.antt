-- ===== src/Common/Crypto.antt =====
-- sha256_bytes, hmac_sha256, derive_long_term_key, derive_transfer_keys and the four AES wrappers of
-- Assignment2/a2_common.c. OpenSSL is the parameter `Evp`: what each of its calls gives. A cipher
-- context is determined by the key, the iv and the data that it was handed.
pub mod Cbc
pub mod Gcm
use nss_i_assignments.Common.Hex.{AreBytes}
use nss_i_assignments.Base.{
  ℕ, ◌<◌, ◌≤◌, ◌+◌, ◌≡◌, Bool, true, false, not, Option, none, some, [], ◌∷◌, ◌++◌, ltb, ◌==◌,
  Bytes, codes, length, ◌>>=◌, ◌>>◌, guard,
}

abbrev pub key_len : ℕ
key_len = 32

abbrev pub hmac_len : ℕ
hmac_len = 32

abbrev pub gcm_iv_len : ℕ
gcm_iv_len = 12

abbrev pub gcm_tag_len : ℕ
gcm_tag_len = 16

pub record Evp : Type 0 where
  pub md_ctx_new : Bool
  pub digest : Bytes → Option Bytes
  pub hmac : Bytes → Bytes → Option Bytes
  pub pbkdf2 : Bytes → Bytes → ℕ → ℕ → Option Bytes
  pub cipher_ctx_new : Bool
  pub cbc_encrypt_init : Bytes → Bytes → Bool
  pub cbc_encrypt_update : Bytes → Bytes → Bytes → Option Bytes
  pub cbc_encrypt_final : Bytes → Bytes → Bytes → Option Bytes
  pub cbc_decrypt_init : Bytes → Bytes → Bool
  pub cbc_decrypt_update : Bytes → Bytes → Bytes → Option Bytes
  pub cbc_decrypt_final : Bytes → Bytes → Bytes → Option Bytes
  pub gcm_encrypt_init : Bytes → Bytes → Bool
  pub gcm_encrypt_aad : Bytes → Bytes → Bytes → Bool
  pub gcm_encrypt_update : Bytes → Bytes → Bytes → Bytes → Option Bytes
  pub gcm_encrypt_final : Bytes → Bytes → Bytes → Bytes → Option Bytes
  pub gcm_get_tag : Bytes → Bytes → Bytes → Bytes → Option Bytes
  pub gcm_decrypt_init : Bytes → Bytes → Bool
  pub gcm_decrypt_aad : Bytes → Bytes → Bytes → Bool
  pub gcm_decrypt_update : Bytes → Bytes → Bytes → Bytes → Option Bytes
  pub gcm_set_tag : Bytes → Bool
  pub gcm_decrypt_final : Bytes → Bytes → Bytes → Bytes → Bytes → Option Bytes

abbrev is_nil : Bytes → Bool
is_nil [] = true
is_nil (b ∷ bs) = false

unfoldable pub sha256_bytes : Evp → Bytes → Option Bytes
sha256_bytes evp bytes = do
  guard evp.md_ctx_new
  out ← evp.digest bytes
  guard (length out == key_len)
  some out

unfoldable pub hmac_sha256 : Evp → Bytes → Bytes → Option Bytes
hmac_sha256 evp key bytes = do out ← evp.hmac key bytes; guard (length out == hmac_len); some out

unfoldable pub derive_long_term_key : Evp → Bytes → Bytes → Option Bytes
derive_long_term_key evp user password = do
  let salt = codes "nss-a2:" ++ user
  guard (ltb (length salt) 256)
  evp.pbkdf2 password salt 120000 key_len

-- The encryption key and the authentication key.
unfoldable pub derive_transfer_keys : Evp → Bytes → Option (Bytes × Bytes)
derive_transfer_keys evp raw = do
  guard (not (is_nil raw))
  enc_key ← evp.hmac raw (codes "nss-secure-copy-encryption")
  guard (length enc_key == key_len)
  mac_key ← evp.hmac raw (codes "nss-secure-copy-authentication")
  guard (length mac_key == key_len)
  some (enc_key, mac_key)

-- The additional data is authenticated only where it is not empty.
abbrev add_aad : (Bytes → Bool) → Bytes → Bool
add_aad add [] = true
add_aad add (b ∷ bs) = add (b ∷ bs)

-- The iv is what random_bytes gave; the result is the iv, the tag and the ciphertext.
unfoldable pub aes_256_gcm_encrypt :
    Evp → Bytes → Bytes → Bytes → Option Bytes → Option (Bytes × Bytes × Bytes)
aes_256_gcm_encrypt evp key plaintext aad random = do
  guard evp.cipher_ctx_new
  iv ← random
  guard (evp.gcm_encrypt_init key iv)
  guard (add_aad (evp.gcm_encrypt_aad key iv) aad)
  body ← evp.gcm_encrypt_update key iv aad plaintext
  end ← evp.gcm_encrypt_final key iv aad plaintext
  tag ← evp.gcm_get_tag key iv aad plaintext
  some (iv, tag, body ++ end)

unfoldable pub aes_256_gcm_decrypt : Evp → Bytes → Bytes → Bytes → Bytes → Bytes → Option Bytes
aes_256_gcm_decrypt evp key iv tag ciphertext aad = do
  guard evp.cipher_ctx_new
  guard (evp.gcm_decrypt_init key iv)
  guard (add_aad (evp.gcm_decrypt_aad key iv) aad)
  body ← evp.gcm_decrypt_update key iv aad ciphertext
  guard (evp.gcm_set_tag tag)
  end ← evp.gcm_decrypt_final key iv aad ciphertext tag
  some (body ++ end)

unfoldable pub aes_256_cbc_encrypt : Evp → Bytes → Bytes → Bytes → Option Bytes
aes_256_cbc_encrypt evp key iv plaintext = do
  guard evp.cipher_ctx_new
  guard (evp.cbc_encrypt_init key iv)
  body ← evp.cbc_encrypt_update key iv plaintext
  end ← evp.cbc_encrypt_final key iv plaintext
  some (body ++ end)

unfoldable pub aes_256_cbc_decrypt : Evp → Bytes → Bytes → Bytes → Option Bytes
aes_256_cbc_decrypt evp key iv ciphertext = do
  guard evp.cipher_ctx_new
  guard (evp.cbc_decrypt_init key iv)
  body ← evp.cbc_decrypt_update key iv ciphertext
  end ← evp.cbc_decrypt_final key iv ciphertext
  some (body ++ end)

-- What the documentation of OpenSSL says of decryption after encryption.
pub record CbcLaws (evp : Evp) : Type 0 where
  pub decrypt_starts : (key iv : Bytes) → evp.cbc_decrypt_init key iv ≡ true
  pub opens :
      (key iv plaintext body end : Bytes)
      → evp.cbc_encrypt_update key iv plaintext ≡ some body
      → evp.cbc_encrypt_final key iv plaintext ≡ some end
      → (start : Bytes) × (rest : Bytes) × (evp.cbc_decrypt_update key iv (body ++ end)
          ≡ some start)
        × (evp.cbc_decrypt_final key iv (body ++ end) ≡ some rest)
        × (start ++ rest ≡ plaintext)
  -- The padded length: at least one byte, and at most a block more than the plaintext.
  pub padded :
      (key iv plaintext body end : Bytes)
      → evp.cbc_encrypt_update key iv plaintext ≡ some body
      → evp.cbc_encrypt_final key iv plaintext ≡ some end
      → (0 < length (body ++ end)) × (length (body ++ end) ≤ length plaintext + 16)

pub record GcmLaws (evp : Evp) : Type 0 where
  -- The ciphertext has the length of the plaintext, and the tag its sixteen bytes.
  pub sealed :
      (key iv plaintext body end tag : Bytes)
      → AreBytes plaintext
      → evp.gcm_encrypt_update key iv [] plaintext ≡ some body
      → evp.gcm_encrypt_final key iv [] plaintext ≡ some end
      → evp.gcm_get_tag key iv [] plaintext ≡ some tag
      → (length (body ++ end) ≡ length plaintext)
        × (length tag ≡ gcm_tag_len)
        × AreBytes (body ++ end)
        × AreBytes tag
  pub decrypt_starts : (key iv : Bytes) → evp.gcm_decrypt_init key iv ≡ true
  pub tag_set : (tag : Bytes) → evp.gcm_set_tag tag ≡ true
  pub opens :
      (key iv plaintext body end tag : Bytes)
      → evp.gcm_encrypt_update key iv [] plaintext ≡ some body
      → evp.gcm_encrypt_final key iv [] plaintext ≡ some end
      → evp.gcm_get_tag key iv [] plaintext ≡ some tag
      → (start : Bytes) × (rest : Bytes) × (evp.gcm_decrypt_update key iv [] (body ++ end)
          ≡ some start)
        × (evp.gcm_decrypt_final key iv [] (body ++ end) tag ≡ some rest)
        × (start ++ rest ≡ plaintext)
