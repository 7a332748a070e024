-- ===== src/Transfer/Sender.antt =====
-- main of Assignment2/secure_client.c. The result is the exit code, and what has been written to
-- standard output.
use nss_i_assignments.Base.{
  ℕ, ◌+◌, ◌-◌, ◌^◌, ◌==◌, Bool, true, false, not, ◌||◌, Option, none, some, List, [], ◌∷◌, ◌++◌,
  ltb, leb, if◌then◌else◌, Bytes, codes, length, bit_xor, ◌>>=◌, ◌>>◌, guard,
}
use nss_i_assignments.CString.{str_eq, contains}
use nss_i_assignments.Common.Io.{Write, write_all}
use nss_i_assignments.Common.Crypto.{aes_256_cbc_encrypt}
use nss_i_assignments.Transfer.Keys.{
  Host, magic, max_name, load_file, load_key_material, build_hmac,
}
use nss_i_assignments.Transfer.Words.{to_bytes, swap32, htonll_u64}

-- The three calls of write_all_fd, and what random_bytes gives for the iv.
pub record Run : Type 0 where
  pub host : Host
  pub iv : Option Bytes
  pub header_writes : List Write
  pub name_writes : List Write
  pub body_writes : List Write

abbrev pub int_max : ℕ
int_max = 2 ^ 31 - 1

-- EVP_MAX_BLOCK_LENGTH
abbrev pub max_block : ℕ
max_block = 32

pub data Mode : Type 0 where
  plain corrupt : Mode

-- The first 32 bytes of the header: the magic, the two lengths and the iv.
unfoldable pub frame_prefix : ℕ → ℕ → Bytes → Bytes
frame_prefix name_len cipher_len iv =
    magic ++ (to_bytes 4 (swap32 name_len) ++ (to_bytes 8 (htonll_u64 cipher_len) ++ iv))

-- `ciphertext[0] ^= 0xff`
unfoldable pub flip_first : Mode → Bytes → Bytes
flip_first plain bytes = bytes
flip_first corrupt [] = []
flip_first corrupt (b ∷ bs) = bit_xor b 0xff ∷ bs

pub record Frame : Type 0 where
  pub header : Bytes
  pub name : Bytes
  pub body : Bytes

abbrev pub frame_bytes : Frame → Bytes
frame_bytes f = f.header ++ (f.name ++ f.body)

-- All that stands before the writes; `none` where main returns 1.
unfoldable pub make_frame : Run → Mode → Bytes → Bytes → Bytes → Option Frame
make_frame run mode input_path output_name key_path = do
  guard (
      not
        (length output_name == 0 || ltb max_name (length output_name) || contains b'/' output_name))
  (enc_key, mac_key) ← load_key_material run.host key_path
  plaintext ← load_file run.host input_path
  guard (leb (length plaintext) (int_max - max_block))
  iv ← run.iv
  guard (run.host.malloc (length plaintext + max_block))
  ciphertext ← aes_256_cbc_encrypt run.host.evp enc_key iv plaintext
  let prefix = frame_prefix (length output_name) (length ciphertext) iv
  tag ← build_hmac run.host mac_key prefix output_name ciphertext
  some (record { header = prefix ++ tag; name = output_name; body = flip_first mode ciphertext })

-- The three writes, each made only if the one before succeeded.
abbrev pub then_write : ℕ × Bytes → Bool × Bytes → ℕ × Bytes
then_write (code, out) (true, written) = (code, written ++ out)
then_write (code, out) (false, written) = (1, written)

abbrev pub write_frame : Run → Option Frame → ℕ × Bytes
write_frame run none = (1, [])
write_frame run (some f) =
    then_write
      (then_write (then_write (0, []) (write_all f.body run.body_writes))
        (write_all f.name run.name_writes))
      (write_all f.header run.header_writes)

-- main, on argv.
unfoldable pub secure_client : Run → List Bytes → ℕ × Bytes
secure_client run (prog ∷ input_path ∷ output_name ∷ key_path ∷ []) =
    write_frame run (make_frame run plain input_path output_name key_path)
secure_client run (prog ∷ input_path ∷ output_name ∷ key_path ∷ option ∷ []) =
    if str_eq option (codes "-corrupt_data")
    then write_frame run (make_frame run corrupt input_path output_name key_path)
    else (1, [])
secure_client run _ = (1, [])
