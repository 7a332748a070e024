-- ===== src/Transfer/RoundTrip.antt =====
-- secure_client and secure_server of Assignment2, one after the other.
use nss_i_assignments.Base.{
  ℕ, ◌+◌, ◌≤◌, ◌<◌, ◌≡◌, refl, sym, ◌∙◌, ap, ◌⊎◌, inl, inr, Bool, true, false, none, some, [], ◌∷◌,
  ◌++◌, lt→ltb, Bytes, codes, length, length-append, append_assoc, arith, Option-cases,
}
use nss_i_assignments.CString.{c_string, str_eq_self, contains, strstr}
use nss_i_assignments.Common.Io.{complete, read_all}
use nss_i_assignments.Common.Io.Reading.{content, read_all_exact}
use nss_i_assignments.Common.Crypto.{CbcLaws, hmac_sha256, aes_256_cbc_decrypt}
use nss_i_assignments.Common.Crypto.Cbc.{aes_256_cbc_decrypt-encrypt, hmac_sha256-length}
use nss_i_assignments.Common.Files.{Disk, tmp_path, Calls}
use nss_i_assignments.Common.Files.Atomic.{Saves, Succeed, save_file_atomic-Saves}
use nss_i_assignments.Transfer.Keys.{Host, load_key_material, build_hmac}
use nss_i_assignments.Transfer.Sender
use nss_i_assignments.Transfer.Sender.{
  max_block, plain, Frame, frame_bytes, frame_prefix, make_frame, flip_first, write_frame,
  secure_client,
}
use nss_i_assignments.Transfer.Receiver
use nss_i_assignments.Transfer.Receiver.{
  Header, Received, exit_code, max_ciphertext, safe_output_path, read_header, all_read,
  receive_frame, authentic, open_frame, store, accept_frame, with_keys, serve, secure_server,
}
use nss_i_assignments.Transfer.Header.{length-frame_prefix, read_header-frame_prefix}
use nss_i_assignments.Transfer.Made.{Makes, make_frame-Makes, write_frame-frame_bytes}

-- The three reads of a frame whose header has been written as read_header reads it.
receive_frame-frame :
    (run : Receiver.Run) (h : Header) (header name ciphertext rest : Bytes)
    → ((n : ℕ) → run.host.malloc n ≡ true)
    → content run.stdin ≡ header ++ (name ++ (ciphertext ++ rest))
    → length header ≡ 64
    → read_header header ≡ some h
    → h.name_len ≡ length name
    → h.cipher_len ≡ length ciphertext
    → receive_frame run ≡ some (record { header = h; name = name; ciphertext = ciphertext })
unfolding receive_frame
receive_frame-frame run h header name ciphertext rest room e len parsed n m =
    let (r₁, e₁, c₁) = read_all_exact header (name ++ (ciphertext ++ rest)) run.stdin e in
    let (r₂, e₂, c₂) = read_all_exact name (ciphertext ++ rest) r₁ c₁ in
    let (r₃, e₃, c₃) = read_all_exact ciphertext rest r₂ c₂ in
    let first : read_all 64 run.stdin ≡ (complete header, r₁) = rw (← len) e₁ in
    let second : read_all h.name_len r₁ ≡ (complete name, r₂) = rw n e₂ in
    let third : read_all h.cipher_len r₂ ≡ (complete ciphertext, r₃) = rw m e₃ in
    rw (
      first,
      parsed,
      room (h.name_len + 1),
      room h.cipher_len,
      room (h.cipher_len + max_block),
      second,
      third,
    )

build_hmac-room :
    (host : Host) (mac_key prefix name ciphertext : Bytes)
    → ((n : ℕ) → host.malloc n ≡ true)
    → build_hmac host mac_key prefix name ciphertext
      ≡ hmac_sha256 host.evp mac_key (prefix ++ (name ++ ciphertext))
unfolding build_hmac
build_hmac-room host mac_key prefix name ciphertext room =
    rw (room (length (prefix ++ (name ++ ciphertext))))

authentic-tag :
    (host : Host) (mac_key tag : Bytes) (r : Received)
    → ((n : ℕ) → host.malloc n ≡ true)
    → hmac_sha256 host.evp mac_key (r.header.prefix ++ (r.name ++ r.ciphertext)) ≡ some tag
    → r.header.tag ≡ tag
    → authentic host mac_key r ≡ true
unfolding authentic
authentic-tag host mac_key tag r room e same =
    rw (build_hmac-room host mac_key r.header.prefix r.name r.ciphertext room ∙ e, same)
      (str_eq_self tag)

open_frame-path :
    (host : Host) (enc_key dir name plaintext : Bytes) (r : Received)
    → aes_256_cbc_decrypt host.evp enc_key r.header.iv r.ciphertext ≡ some plaintext
    → c_string r.name ≡ name
    → contains b'/' name ≡ false
    → strstr (codes "..") name ≡ false
    → length (dir ++ (codes "/" ++ name)) < 1024
    → open_frame host enc_key dir r ≡ some (dir ++ (codes "/" ++ name), plaintext)
unfolding open_frame safe_output_path
open_frame-path host enc_key dir name plaintext r d c slash parent short =
    rw (d, c, slash, parent, lt→ltb _ _ short)

exit_code-Saves :
    (calls : Calls) (path bytes : Bytes) (disk : Disk) (r : Bool × Disk)
    → Saves calls path bytes disk r
    → r.0 ≡ true
    → ((exit_code r).0 ≡ 0) × ((exit_code r).1 path ≡ some bytes)
exit_code-Saves calls path bytes disk (false, d) s e = absurd (cc)
exit_code-Saves calls path bytes disk (true, d) s e = (refl, held s.whole_or_nothing)
  where
    held :
        ((true ≡ true) × (d path ≡ some bytes) × (d (tmp_path path calls.pid) ≡ none))
          ⊎ ((true ≡ false) × (d path ≡ disk path))
        → d path ≡ some bytes
    held (inl (_, p, _)) = p
    held (inr (bad, _)) = absurd (cc)

stores :
    (run : Receiver.Run) (path plaintext : Bytes)
    → Succeed run.calls path
    → ((store run (some (path, plaintext))).0 ≡ 0)
      × ((store run (some (path, plaintext))).1 path ≡ some plaintext)
stores run path plaintext ok =
    let (saves, done) = save_file_atomic-Saves run.calls path plaintext run.host.disk in
    exit_code-Saves run.calls path plaintext run.host.disk _ saves (done ok)

concat_frame :
    (header name body rest : Bytes)
    → (header ++ (name ++ body)) ++ rest ≡ header ++ (name ++ (body ++ rest))
concat_frame header name body rest = simp append_assoc

frame_bytes-rest :
    (f : Frame) (header name ciphertext rest : Bytes)
    → f ≡ record { header = header; name = name; body = flip_first plain ciphertext }
    → frame_bytes f ++ rest ≡ header ++ (name ++ (ciphertext ++ rest))
unfolding flip_first
frame_bytes-rest f header name ciphertext rest e =
    ap (λ g. frame_bytes g ++ rest) e ∙ concat_frame header name ciphertext rest

-- What follows for the receiver from a frame that was made by the sender: `path` is where it goes.
stores_frame :
    (c : Sender.Run) (s : Receiver.Run) (input name key_c key_s dir rest : Bytes) (f : Frame)
    → Makes c input name key_c plain f
    → CbcLaws c.host.evp
    → s.host.evp ≡ c.host.evp
    → load_key_material s.host key_s ≡ load_key_material c.host key_c
    → ((n : ℕ) → s.host.malloc n ≡ true)
    → ((iv : Bytes) → c.iv ≡ some iv → length iv ≡ 16)
    → ((plaintext : Bytes)
        → c.host.disk input ≡ some plaintext
        → length plaintext + 16 ≤ max_ciphertext)
    → c_string name ≡ name
    → strstr (codes "..") name ≡ false
    → length (dir ++ (codes "/" ++ name)) < 1024
    → content s.stdin ≡ frame_bytes f ++ rest
    → Succeed s.calls (dir ++ (codes "/" ++ name))
    → ((serve s key_s dir).0 ≡ 0)
      × ((plaintext : Bytes) × (c.host.disk input ≡ some plaintext)
          × ((serve s key_s dir).1 (dir ++ (codes "/" ++ name)) ≡ some plaintext))
unfolding serve
stores_frame c s input name key_c key_s dir rest f m laws evp keys room iv_len small text parent
      short arrives ok =
    let (opens, pos, le) =
      aes_256_cbc_decrypt-encrypt c.host.evp m.enc_key m.iv m.plaintext m.ciphertext laws
        m.encrypted in
    let n = length name in
    let k = length m.ciphertext in
    let prefix = frame_prefix n k m.iv in
    let tag_len : length m.tag ≡ 32 = hmac_sha256-length c.host.evp m.mac_key _ m.tag m.tagged in
    let iv_len : length m.iv ≡ 16 = iv_len m.iv m.iv_drawn in
    let fits : k ≤ max_ciphertext = omega (arith, le, small m.plaintext m.input) in
    let parsed =
      read_header-frame_prefix n k m.iv m.tag m.name_pos m.name_le pos fits iv_len tag_len in
    let h : Header = record {
      prefix = prefix;
      name_len = n;
      cipher_len = k;
      iv = m.iv;
      tag = m.tag;
    } in
    let r : Received = record { header = h; name = name; ciphertext = m.ciphertext } in
    let head_len : length (prefix ++ m.tag) ≡ 64 =
      omega (arith, length-append prefix m.tag, length-frame_prefix n k m.iv iv_len, tag_len) in
    let got : receive_frame s ≡ some r =
      receive_frame-frame s h (prefix ++ m.tag) name m.ciphertext rest room
        (arrives ∙ frame_bytes-rest f (prefix ++ m.tag) name m.ciphertext rest m.is_frame) head_len
        parsed refl refl in
    let true_tag : authentic s.host m.mac_key r ≡ true =
      authentic-tag s.host m.mac_key m.tag r room (rw evp m.tagged) refl in
    let opened : open_frame s.host m.enc_key dir r
        ≡ some (dir ++ (codes "/" ++ name), m.plaintext) =
      open_frame-path s.host m.enc_key dir name m.plaintext r (rw evp opens) text m.no_slash parent
        short in
    let (code, held) = stores s (dir ++ (codes "/" ++ name)) m.plaintext ok in
    rw (keys ∙ m.keys, got, true_tag, opened) (code, (m.plaintext, m.input, held))

-- The round trip of a file. secure_client exits with 0 and writes `out`; secure_server reads `out`,
-- with the same keys, the same OpenSSL, which decrypts as it documents, and room for every buffer;
-- the iv has 16 bytes, the plaintext is at most 512 MiB less a block, the name has no ".." and no
-- zero byte and fits in the path, and the calls of the save succeed. Then secure_server exits with
-- 0 and the directory holds under that name what the client's file holds.
pub secure_server-secure_client :
    (c : Sender.Run) (s : Receiver.Run) (prog input name key_c key_s dir out rest : Bytes)
    → CbcLaws c.host.evp
    → s.host.evp ≡ c.host.evp
    → load_key_material s.host key_s ≡ load_key_material c.host key_c
    → ((n : ℕ) → s.host.malloc n ≡ true)
    → ((iv : Bytes) → c.iv ≡ some iv → length iv ≡ 16)
    → ((plaintext : Bytes)
        → c.host.disk input ≡ some plaintext
        → length plaintext + 16 ≤ max_ciphertext)
    → c_string name ≡ name
    → strstr (codes "..") name ≡ false
    → length (dir ++ (codes "/" ++ name)) < 1024
    → Succeed s.calls (dir ++ (codes "/" ++ name))
    → secure_client c (prog ∷ input ∷ name ∷ key_c ∷ []) ≡ (0, out)
    → content s.stdin ≡ out ++ rest
    → ((secure_server s (prog ∷ key_s ∷ dir ∷ [])).0 ≡ 0)
      × ((plaintext : Bytes) × (c.host.disk input ≡ some plaintext)
          × ((secure_server s (prog ∷ key_s ∷ dir ∷ [])).1 (dir ++ (codes "/" ++ name))
              ≡ some plaintext))
unfolding secure_client secure_server
secure_server-secure_client c s prog input name key_c key_s dir out rest laws evp keys room iv_len
      small text parent short ok sent arrives =
    elim (Option-cases (make_frame c plain input name key_c)) [
      | inl e ↦ absurd (no_frame (ap (write_frame c) (sym e) ∙ sent))
      | inr (f, e) ↦
          let whole = write_frame-frame_bytes c f out (ap (write_frame c) (sym e) ∙ sent) in
          stores_frame c s input name key_c key_s dir rest f
            (make_frame-Makes c plain input name key_c f e) laws evp keys room iv_len small text
            parent short (arrives ∙ ap (λ (b : Bytes). b ++ rest) whole) ok
    ]
  where
    no_frame : write_frame c none ≡ (0, out) → ⊥
    no_frame h = omega (arith, ap {A = ℕ × Bytes} {B = ℕ} (λ r. r.0) h)
