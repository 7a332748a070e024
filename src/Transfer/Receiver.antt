-- ===== src/Transfer/Receiver.antt =====
-- main of Assignment2/secure_server.c. The result is the exit code and the disk.
use nss_i_assignments.Base.{
  ℕ, ◌+◌, ◌*◌, ◌==◌, Bool, true, false, not, ◌&&◌, ◌||◌, Option, none, some, List, [], ◌∷◌, ◌++◌,
  ltb, if◌then◌else◌, Bytes, codes, length, take, drop, ◌>>=◌, ◌>>◌, guard,
}
use nss_i_assignments.CString.{c_string, str_eq, contains, strstr}
use nss_i_assignments.Common.Io.{Read, ReadResult, complete, end_of_file, read_error, read_all}
use nss_i_assignments.Common.Crypto.{aes_256_cbc_decrypt}
use nss_i_assignments.Common.Files.{Disk, Calls, save_file_atomic}
use nss_i_assignments.Transfer.Keys.{Host, magic, max_name, load_key_material, build_hmac}
use nss_i_assignments.Transfer.Sender.{int_max, max_block}
use nss_i_assignments.Transfer.Words.{from_bytes, swap32, ntohll_u64}

pub record Run : Type 0 where
  pub host : Host
  pub stdin : List Read
  pub calls : Calls

abbrev pub max_ciphertext : ℕ
max_ciphertext = 512 * 1024 * 1024

-- The bytes from `at` on, `len` of them.
abbrev pub slice : ℕ → ℕ → Bytes → Bytes
slice at len bytes = take len (drop at bytes)

unfoldable pub safe_output_path : Bytes → Bytes → Option Bytes
safe_output_path dir name = do
  guard (not (contains b'/' name || strstr (codes "..") name))
  let path = dir ++ (codes "/" ++ name)
  guard (ltb (length path) 1024)
  some path

pub record Header : Type 0 where
  pub prefix : Bytes
  pub name_len : ℕ
  pub cipher_len : ℕ
  pub iv : Bytes
  pub tag : Bytes

-- The checks on the 64 bytes of the header.
unfoldable pub read_header : Bytes → Option Header
read_header header = do
  guard (str_eq (take 4 header) magic)
  let name_len = swap32 (from_bytes (slice 4 4 header))
  let cipher_len = ntohll_u64 (from_bytes (slice 8 8 header))
  guard (
      not (
        name_len == 0
        || ltb max_name name_len
        || cipher_len == 0
        || ltb max_ciphertext cipher_len
        || ltb int_max cipher_len))
  some (record {
    prefix = take 32 header;
    name_len = name_len;
    cipher_len = cipher_len;
    iv = slice 16 16 header;
    tag = slice 32 32 header;
  })

-- read_all_fd with result 1.
abbrev pub all_read : ReadResult × List Read → Option (Bytes × List Read)
all_read (complete bytes, rest) = some (bytes, rest)
all_read (end_of_file, rest) = none
all_read (read_error, rest) = none

-- A frame as it was read.
pub record Received : Type 0 where
  pub header : Header
  pub name : Bytes
  pub ciphertext : Bytes

unfoldable pub receive_frame : Run → Option Received
receive_frame run = do
  (bytes, rest) ← all_read (read_all 64 run.stdin)
  h ← read_header bytes
  guard (
      run.host.malloc (h.name_len + 1)
      && run.host.malloc h.cipher_len
      && run.host.malloc (h.cipher_len + max_block))
  (name, rest') ← all_read (read_all h.name_len rest)
  (ciphertext, rest'') ← all_read (read_all h.cipher_len rest')
  some (record { header = h; name = name; ciphertext = ciphertext })

-- build_hmac and CRYPTO_memcmp
abbrev pub same_tag : Bytes → Option Bytes → Bool
same_tag tag none = false
same_tag tag (some expected) = str_eq expected tag

unfoldable pub authentic : Host → Bytes → Received → Bool
authentic host mac_key r =
    same_tag r.header.tag (build_hmac host mac_key r.header.prefix r.name r.ciphertext)

-- Where the plaintext goes, and the plaintext.
unfoldable pub open_frame : Host → Bytes → Bytes → Received → Option (Bytes × Bytes)
open_frame host enc_key dir r = do
  plaintext ← aes_256_cbc_decrypt host.evp enc_key r.header.iv r.ciphertext
  path ← safe_output_path dir (c_string r.name)
  some (path, plaintext)

abbrev pub exit_code : Bool × Disk → ℕ × Disk
exit_code (true, disk) = (0, disk)
exit_code (false, disk) = (1, disk)

abbrev pub store : Run → Option (Bytes × Bytes) → ℕ × Disk
store run none = (1, run.host.disk)
store run (some (path, plaintext)) =
    exit_code (save_file_atomic run.calls path plaintext run.host.disk)

abbrev pub accept_frame : Run → Bytes → Bytes → Bytes → Option Received → ℕ × Disk
accept_frame run enc_key mac_key dir none = (1, run.host.disk)
accept_frame run enc_key mac_key dir (some r) =
    if authentic run.host mac_key r
    then store run (open_frame run.host enc_key dir r)
    else (2, run.host.disk)

abbrev pub with_keys : Run → Bytes → Option (Bytes × Bytes) → ℕ × Disk
with_keys run dir none = (1, run.host.disk)
with_keys run dir (some (enc_key, mac_key)) =
    accept_frame run enc_key mac_key dir (receive_frame run)

unfoldable pub serve : Run → Bytes → Bytes → ℕ × Disk
serve run key_path dir = with_keys run dir (load_key_material run.host key_path)

-- main, on argv.
unfoldable pub secure_server : Run → List Bytes → ℕ × Disk
unfolding serve
secure_server run (prog ∷ key_path ∷ []) = serve run key_path (codes ".")
secure_server run (prog ∷ key_path ∷ output_dir ∷ []) = serve run key_path output_dir
secure_server run _ = (1, run.host.disk)
