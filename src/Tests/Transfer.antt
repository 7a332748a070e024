-- ===== src/Tests/Transfer.antt =====
-- Runs of the models of Assignment2/secure_client.c and secure_server.c on small inputs.
use nss_i_assignments.Base.{
  some_injective, drop, length-append, append-nil, ◌≡◌, refl, true, false, none, some, [], ◌∷◌,
  ◌++◌, Bytes, codes, replicate, arith,
}
use nss_i_assignments.CString.{c_string, print_dec, digits_onto, contains, strstr, has_prefix}
use nss_i_assignments.Common.Io.{write_loop, chunk, interrupted, accepted, write_all}
use nss_i_assignments.Common.Io.Reading.{content}
use nss_i_assignments.Common.Files.Atomic.{Succeed}
use nss_i_assignments.Common.Crypto.{
  Evp, CbcLaws, derive_transfer_keys, aes_256_cbc_encrypt, hmac_sha256,
}
use nss_i_assignments.Transfer.Keys.{Host, load_file, load_key_material, build_hmac}
use nss_i_assignments.Transfer.Sender
use nss_i_assignments.Transfer.Receiver
use nss_i_assignments.Transfer.Words.{to_bytes}
use nss_i_assignments.Transfer.Sender.{frame_prefix, flip_first, make_frame, secure_client}
use nss_i_assignments.Transfer.Receiver.{read_header, serve, secure_server}
use nss_i_assignments.Transfer.Serving.{Serves, serve-Serves}
use nss_i_assignments.Transfer.RoundTrip.{secure_server-secure_client}
use nss_i_assignments.Transfer.Header.{read_header-frame_prefix}

read_header-frame_prefix_example :
    read_header (frame_prefix 4 48 (replicate 16 9) ++ replicate 32 5)
    ≡ some (record {
      prefix = frame_prefix 4 48 (replicate 16 9);
      name_len = 4;
      cipher_len = 48;
      iv = replicate 16 9;
      tag = replicate 32 5;
    })
read_header-frame_prefix_example =
    read_header-frame_prefix 4 48 (replicate 16 9) (replicate 32 5) (omega arith) (omega arith)
      (omega arith) (omega arith) refl refl

-- A toy OpenSSL: each tag is the same, and encryption puts one byte before the plaintext.
abbrev evp : Evp
evp = record {
  md_ctx_new = true;
  digest = λ b. some (replicate 32 0);
  hmac = λ k b. some (replicate 32 1);
  pbkdf2 = λ p s n l. some (replicate 32 2);
  cipher_ctx_new = true;
  cbc_encrypt_init = λ k v. true;
  cbc_encrypt_update = λ k v b. some (9 ∷ b);
  cbc_encrypt_final = λ k v b. some [];
  cbc_decrypt_init = λ k v. true;
  cbc_decrypt_update = λ k v b. some (drop 1 b);
  cbc_decrypt_final = λ k v b. some [];
  gcm_encrypt_init = λ k v. false;
  gcm_encrypt_aad = λ k v a. false;
  gcm_encrypt_update = λ k v a b. none;
  gcm_encrypt_final = λ k v a b. none;
  gcm_get_tag = λ k v a b. none;
  gcm_decrypt_init = λ k v. false;
  gcm_decrypt_aad = λ k v a. false;
  gcm_decrypt_update = λ k v a b. none;
  gcm_set_tag = λ t. false;
  gcm_decrypt_final = λ k v a b t. none;
}

evp-CbcLaws : CbcLaws evp
evp-CbcLaws = record {
  decrypt_starts = λ k v. refl;
  opens = λ k v p body end e f. (
    drop 1 (body ++ end),
    [],
    refl,
    refl,
    rw (← some_injective e, ← some_injective f) (simp append-nil),
  );
  padded = λ k v p body end e f.
      rw (← some_injective e, ← some_injective f) (omega arith, omega (arith, length-append p []));
}

-- Every file holds the same sixteen bytes: they are the key and the text.
abbrev host : Host
host = record { evp = evp; disk = λ path. some (replicate 16 7); malloc = λ n. true }

abbrev sender : Sender.Run
sender = record {
  host = host;
  iv = some (replicate 16 3);
  header_writes = accepted 60 ∷ [];
  name_writes = [];
  body_writes = interrupted ∷ [];
}

abbrev sent : Bytes
sent = (secure_client sender (codes "c" ∷ codes "in" ∷ codes "a" ∷ codes "k" ∷ [])).1

abbrev receiver : Receiver.Run
receiver = record {
  host = host;
  stdin = chunk sent ∷ [];
  calls = record { pid = 1; opens = true; writes = accepted 5 ∷ []; closes = true; renames = true };
}

client_sends :
    secure_client sender (codes "c" ∷ codes "in" ∷ codes "a" ∷ codes "k" ∷ []) ≡ (0, sent)
unfolding secure_client make_frame load_key_material load_file derive_transfer_keys build_hmac
    hmac_sha256 aes_256_cbc_encrypt write_all write_loop contains flip_first frame_prefix to_bytes
client_sends = refl

input_sent : content receiver.stdin ≡ sent ++ []
unfolding secure_client make_frame load_key_material load_file derive_transfer_keys build_hmac
    hmac_sha256 aes_256_cbc_encrypt write_all write_loop contains flip_first frame_prefix to_bytes
input_sent = refl

short_name : (c_string (codes "a") ≡ codes "a") × (strstr (codes "..") (codes "a") ≡ false)
unfolding c_string strstr has_prefix
short_name = (refl, refl)

calls-Succeed : Succeed receiver.calls (codes "d/a")
unfolding print_dec digits_onto
calls-Succeed = record {
  fits = omega arith;
  opens = refl;
  writes = (tt, tt);
  closes = refl;
  renames = refl;
}

secure_server-secure_client_example :
    ((secure_server receiver (codes "c" ∷ codes "k" ∷ codes "d" ∷ [])).0 ≡ 0)
    × ((plaintext : Bytes) × (some (replicate 16 7) ≡ some plaintext)
        × ((secure_server receiver (codes "c" ∷ codes "k" ∷ codes "d" ∷ [])).1 (codes "d/a")
            ≡ some plaintext))
secure_server-secure_client_example =
    secure_server-secure_client sender receiver (codes "c") (codes "in") (codes "a") (codes "k")
      (codes "k") (codes "d") sent [] evp-CbcLaws refl refl (λ n. refl)
      (λ iv e. rw (← some_injective e) refl) (λ p e. rw (← some_injective e) (omega arith))
      short_name.0 short_name.1 (omega arith) calls-Succeed client_sends input_sent

serve-Serves_example :
    Serves receiver (codes "k") (codes "d") (serve receiver (codes "k") (codes "d"))
serve-Serves_example = serve-Serves receiver (codes "k") (codes "d")
