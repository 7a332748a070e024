-- ===== src/Transfer/Made.antt =====
-- The frame that main of Assignment2/secure_client.c makes and writes.
use nss_i_assignments.Base.{
  guard-true, some_injective, ℕ, ◌+◌, ◌-◌, ◌≤◌, ◌<◌, ◌≡◌, sym, ◌∙◌, ap, Bool, true, false, not,
  ◌||◌, some, [], ◌++◌, ltb, leb, ◌==◌, Bytes, length, append-nil, arith, >>=-eq-some, guard, inl,
  inr,
}
use nss_i_assignments.CString.{contains}
use nss_i_assignments.Common.Io.{write_all}
use nss_i_assignments.Common.Io.Writing.{Writes, write_all-Writes}
use nss_i_assignments.Common.Crypto.{hmac_sha256, aes_256_cbc_encrypt}
use nss_i_assignments.Transfer.Keys.{Host, load_file, load_key_material, build_hmac}
use nss_i_assignments.Transfer.Sender.{
  Run, int_max, max_block, Mode, Frame, frame_bytes, frame_prefix, make_frame, flip_first,
  then_write, write_frame,
}

-- What a frame that secure_client makes says of its inputs.
pub record Makes (run : Run) (input_path output_name key_path : Bytes) (mode : Mode) (f : Frame)
    : Type 0 where
  pub enc_key : Bytes
  pub mac_key : Bytes
  pub plaintext : Bytes
  pub iv : Bytes
  pub ciphertext : Bytes
  pub tag : Bytes
  pub keys : load_key_material run.host key_path ≡ some (enc_key, mac_key)
  pub input : run.host.disk input_path ≡ some plaintext
  pub iv_drawn : run.iv ≡ some iv
  pub name_pos : 0 < length output_name
  pub name_le : length output_name ≤ 255
  pub no_slash : contains b'/' output_name ≡ false
  pub encrypted : aes_256_cbc_encrypt run.host.evp enc_key iv plaintext ≡ some ciphertext
  pub tagged :
      hmac_sha256 run.host.evp mac_key
        (frame_prefix (length output_name) (length ciphertext) iv ++ (output_name ++ ciphertext))
      ≡ some tag
  pub is_frame : f ≡ record {
    header = frame_prefix (length output_name) (length ciphertext) iv ++ tag;
    name = output_name;
    body = flip_first mode ciphertext;
  }

name_checks :
    (n : ℕ) (slash : Bool)
    → not (n == 0 || ltb 255 n || slash) ≡ true
    → (0 < n) × (n ≤ 255) × (slash ≡ false)
name_checks n slash h = (ground arith, ground arith, ground arith)

load_file-disk :
    (host : Host) (path bytes : Bytes)
    → load_file host path ≡ some bytes
    → host.disk path ≡ some bytes
unfolding load_file
load_file-disk host path bytes h =
    let (b, e, h₁) = >>=-eq-some (host.disk path) _ h in
    let (_, _, h₂) = >>=-eq-some (guard (host.malloc (length b + 1))) _ h₁ in e ∙ h₂

pub build_hmac-hmac :
    (host : Host) (mac_key prefix name ciphertext tag : Bytes)
    → build_hmac host mac_key prefix name ciphertext ≡ some tag
    → hmac_sha256 host.evp mac_key (prefix ++ (name ++ ciphertext)) ≡ some tag
unfolding build_hmac
build_hmac-hmac host mac_key prefix name ciphertext tag h =
    let (_, _, h₁) =
      >>=-eq-some (guard (host.malloc (length (prefix ++ (name ++ ciphertext))))) _ h in
    h₁

pub make_frame-Makes :
    (run : Run) (mode : Mode) (input_path output_name key_path : Bytes) (f : Frame)
    → make_frame run mode input_path output_name key_path ≡ some f
    → Makes run input_path output_name key_path mode f
unfolding make_frame
make_frame-Makes run mode input_path output_name key_path f h =
    let (_, g₁, h₁) =
      >>=-eq-some
        (guard (
          not
            (length output_name == 0 || ltb 255 (length output_name) || contains b'/' output_name)))
        _ h in
    let ((enc_key, mac_key), keys, h₂) = >>=-eq-some (load_key_material run.host key_path) _ h₁ in
    let (plaintext, loaded, h₃) = >>=-eq-some (load_file run.host input_path) _ h₂ in
    let (_, _, h₄) = >>=-eq-some (guard (leb (length plaintext) (int_max - max_block))) _ h₃ in
    let (iv, drawn, h₅) = >>=-eq-some run.iv _ h₄ in
    let (_, _, h₆) = >>=-eq-some (guard (run.host.malloc (length plaintext + max_block))) _ h₅ in
    let (ciphertext, encrypted, h₇) =
      >>=-eq-some (aes_256_cbc_encrypt run.host.evp enc_key iv plaintext) _ h₆ in
    let prefix = frame_prefix (length output_name) (length ciphertext) iv in
    let (tag, tagged, h₈) =
      >>=-eq-some (build_hmac run.host mac_key prefix output_name ciphertext) _ h₇ in
    let (name_pos, name_le, no_slash) =
      name_checks (length output_name) (contains b'/' output_name) (guard-true _ g₁) in
    record {
      enc_key = enc_key;
      mac_key = mac_key;
      plaintext = plaintext;
      iv = iv;
      ciphertext = ciphertext;
      tag = tag;
      keys = keys;
      input = load_file-disk run.host input_path plaintext loaded;
      iv_drawn = drawn;
      name_pos = name_pos;
      name_le = name_le;
      no_slash = no_slash;
      encrypted = encrypted;
      tagged = build_hmac-hmac run.host mac_key prefix output_name ciphertext tag tagged;
      is_frame = sym (some_injective h₈);
    }

-- A write that comes before the writes that have put out `later`.
then_write-done :
    (code : ℕ) (out buf later : Bytes) (w : Bool × Bytes)
    → Writes [] buf w
    → then_write (code, later) w ≡ (0, out)
    → (code ≡ 0) × (out ≡ buf ++ later)
then_write-done code out buf later (true, w) (inl (_, same)) e =
    let done : code ≡ 0 = ap (λ (r : ℕ × Bytes). r.0) e in
    let written : w ++ later ≡ out = ap (λ (r : ℕ × Bytes). r.1) e in
    (done, sym written ∙ ap (λ (b : Bytes). b ++ later) same)
then_write-done code out buf later (true, w) (inr (bad, _)) e = absurd (cc)
then_write-done code out buf later (false, w) h e =
    absurd (omega (arith, ap {A = ℕ × Bytes} {B = ℕ} (λ r. r.0) e))

-- Where the three writes succeed, they put out the whole frame.
pub write_frame-frame_bytes :
    (run : Run) (f : Frame) (out : Bytes)
    → write_frame run (some f) ≡ (0, out)
    → out ≡ frame_bytes f
write_frame-frame_bytes run f out e =
    let last = then_write (0, []) (write_all f.body run.body_writes) in
    let middle = then_write last (write_all f.name run.name_writes) in
    let (d₁, e₁) =
      then_write-done middle.0 out f.header middle.1 (write_all f.header run.header_writes)
        (write_all-Writes f.header run.header_writes).0 e in
    let (d₂, e₂) =
      then_write-done last.0 middle.1 f.name last.1 (write_all f.name run.name_writes)
        (write_all-Writes f.name run.name_writes).0 (pair d₁) in
    let (_, e₃) =
      then_write-done 0 last.1 f.body [] (write_all f.body run.body_writes)
        (write_all-Writes f.body run.body_writes).0 (pair d₂) in
    rw (e₁, e₂, e₃) (rw append-nil)
  where
    pair : {r : ℕ × Bytes} → r.0 ≡ 0 → r ≡ (0, r.1)
    pair {r} h = ap {B = ℕ × Bytes} (λ n. (n, r.1)) h
