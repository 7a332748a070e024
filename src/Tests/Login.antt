-- ===== src/Tests/Login.antt =====
-- Runs of the login of Assignment2/server_real.c on small inputs.
use nss_i_assignments.Base.{
  some_injective, ◌≡◌, ◌<◌, All, not, ◌&&◌, ltb, ◌==◌, refl, ◌∙◌, ap, true, false, none, some, [],
  ◌∷◌, ◌++◌, Bytes, codes, append-nil, replicate, All-replicate, find_slot, arith,
}
use nss_i_assignments.CString.{c_string, str_eq, contains, strtok, skip_delims, cut, cut_token}
use nss_i_assignments.Common.Io.{trim_newline}
use nss_i_assignments.Common.Io.Lines.{trim_newline_self}
use nss_i_assignments.Common.Hex.{encode_bytes}
use nss_i_assignments.Common.Crypto.{Evp, GcmLaws, aes_256_gcm_encrypt}
use nss_i_assignments.Server.State.{Server, find_user, send}
use nss_i_assignments.Server.Replay.{nonce_seen, replay_seen_or_add}
use nss_i_assignments.Server.Replay.Window.{replay_all}
use nss_i_assignments.Server.Login.{Draws, auth_words, ticket_text, decrypt_ticket, kdc_client}
use nss_i_assignments.Server.Login.Once.{kdc_client-once}
use nss_i_assignments.Server.Login.Tickets.{decrypt_ticket-ticket_text}
use nss_i_assignments.Server.Chat.{chat_client}
use nss_i_assignments.Server.Interleaving.{IsServer, here}
use nss_i_assignments.Server.Interleaving.Invariant.{initial, initial-Reach-IsServer}
use nss_i_assignments.Server.Interleaving.Threads.{chat_client-IsServer}

-- A toy OpenSSL, which leaves a text as it is.
abbrev pub evp : Evp
evp = record {
  md_ctx_new = true;
  digest = λ b. some (replicate 32 0);
  hmac = λ k b. some (replicate 32 1);
  pbkdf2 = λ p s n l. some (replicate 32 2);
  cipher_ctx_new = true;
  cbc_encrypt_init = λ k v. false;
  cbc_encrypt_update = λ k v b. none;
  cbc_encrypt_final = λ k v b. none;
  cbc_decrypt_init = λ k v. false;
  cbc_decrypt_update = λ k v b. none;
  cbc_decrypt_final = λ k v b. none;
  gcm_encrypt_init = λ k v. true;
  gcm_encrypt_aad = λ k v a. true;
  gcm_encrypt_update = λ k v a b. some b;
  gcm_encrypt_final = λ k v a b. some [];
  gcm_get_tag = λ k v a b. some (replicate 16 0);
  gcm_decrypt_init = λ k v. true;
  gcm_decrypt_aad = λ k v a. true;
  gcm_decrypt_update = λ k v a b. some b;
  gcm_set_tag = λ t. true;
  gcm_decrypt_final = λ k v a b t. some [];
}

pub evp-GcmLaws : GcmLaws evp
evp-GcmLaws = record {
  sealed = λ k v p body end tag plain e f t.
      rw (← some_injective e, ← some_injective f, ← some_injective t)
        (rw append-nil (refl, refl, plain, All-replicate (λ b. b < 256) 16 0 (omega arith)));
  decrypt_starts = λ k v. refl;
  tag_set = λ t. refl;
  opens = λ k v p body end tag e f t.
      (body ++ end, [], refl, refl, rw (← some_injective e, ← some_injective f) (simp append-nil));
}

abbrev pub key : Bytes
key = replicate 32 7

abbrev pub bob : Bytes
bob = codes "bob"

abbrev pub start : Server
start =
    initial
      (record { name = bob; password = codes "pw"; root = codes "files/bob"; long_key = key } ∷ [])
      key

start-IsServer : IsServer start
start-IsServer =
    initial-Reach-IsServer
      (record { name = bob; password = codes "pw"; root = codes "files/bob"; long_key = key } ∷ [])
      key start here

abbrev pub draws : Draws
draws = record {
  recorded_at = 10;
  checked_at = 10;
  issued_at = 10;
  session = some key;
  ticket_iv = some (replicate 12 3);
  payload_iv = some (replicate 12 4);
}

abbrev request : Bytes
request = codes "AUTH bob n2 5 00"

request_words : auth_words (trim_newline request) ≡ some (bob, codes "n2", codes "5", codes "00")
request_words = ap auth_words (trim_newline_self request line) ∙ words
  where
    line : All (λ c. ((c == b'\n') ≡ false) × ((c == b'\r') ≡ false)) request
    line = ground arith

    words : auth_words request ≡ some (bob, codes "n2", codes "5", codes "00")
    words = unfold auth_words strtok skip_delims cut cut_token contains str_eq in refl

known :
    find_user bob start.users
    ≡ some
        (0, record { name = bob; password = codes "pw"; root = codes "files/bob"; long_key = key })
unfolding find_user find_slot str_eq
known = refl

fresh : (replay_seen_or_add (codes "n2") 10 start).0 ≡ false
unfolding replay_seen_or_add nonce_seen
fresh = refl

kdc_client-once_example :
    kdc_client evp draws 9
      (some request)
      (replay_all ((codes "n3", 11) ∷ []) (kdc_client evp draws 8 (some request) start).0)
    ≡ (
      replay_all ((codes "n3", 11) ∷ []) (kdc_client evp draws 8 (some request) start).0,
      send 9 (codes "ERR authentication-failed\n"),
    )
unfolding c_string
kdc_client-once_example =
    kdc_client-once evp draws draws 8 9 b'A' (codes "UTH bob n2 5 00") bob (codes "n2") (codes "5")
      (codes "00") ((codes "n3", 11) ∷ []) start 0 _ start-IsServer.ring request_words known (cc)
      (omega arith) fresh (omega arith)

abbrev pub ticket : Bytes
ticket = ticket_text bob 5000 (encode_bytes key)

made :
    aes_256_gcm_encrypt evp key ticket [] (some (replicate 12 3))
    ≡ some (replicate 12 3, replicate 16 0, ticket ++ [])
unfolding aes_256_gcm_encrypt
made = refl

pub bob-IsField : All (λ c. (not (c == 0) && not (contains c (codes "|")) && ltb c 256) ≡ true) bob
unfolding contains
bob-IsField = (refl, (refl, (refl, tt)))

decrypt_ticket-ticket_text_example :
    decrypt_ticket evp key 4000
      (encode_bytes (replicate 12 3))
      (encode_bytes (replicate 16 0))
      (encode_bytes (ticket ++ []))
      32
    ≡ some (bob, key)
decrypt_ticket-ticket_text_example =
    decrypt_ticket-ticket_text evp key bob key (replicate 12 3) (replicate 16 0) (ticket ++ []) 5000
      4000 evp-GcmLaws made (All-replicate (λ b. b < 256) 12 3 (omega arith)) refl
      (All-replicate (λ b. b < 256) 32 7 (omega arith)) refl bob-IsField (cc) (omega arith)
      (omega arith) (omega arith)

chat_client-IsServer_example :
    IsServer (kdc_client evp draws 8 (some request) start).0
    × IsServer
        (chat_client evp (record { recorded_at = 20; checked_at = 20 }) 8 (some request) [] start).0
chat_client-IsServer_example =
    chat_client-IsServer evp (record { recorded_at = 20; checked_at = 20 }) draws 8 (some request)
      (some request) [] start start-IsServer
