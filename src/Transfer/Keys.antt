-- ===== src/Transfer/Keys.antt =====
-- load_key_material and build_hmac, which Assignment2/secure_client.c and secure_server.c both have.
use nss_i_assignments.Base.{
  ℕ, ◌+◌, Bool, Option, some, ◌++◌, leb, Bytes, codes, length, ◌>>=◌, ◌>>◌, guard,
}
use nss_i_assignments.Common.Crypto.{Evp, hmac_sha256, derive_transfer_keys}
use nss_i_assignments.Common.Files.{Disk}

-- What the program meets: OpenSSL, the files, and which sizes malloc has room for.
pub record Host : Type 0 where
  pub evp : Evp
  pub disk : Disk
  pub malloc : ℕ → Bool

-- `char` constants of the frame.
abbrev pub magic : Bytes
magic = codes "NSC1"

abbrev pub max_name : ℕ
max_name = 255

-- load_file: the whole content, if there is room for it and its terminator.
unfoldable pub load_file : Host → Bytes → Option Bytes
load_file host path = do bytes ← host.disk path; guard (host.malloc (length bytes + 1)); some bytes

unfoldable pub load_key_material : Host → Bytes → Option (Bytes × Bytes)
load_key_material host path = do
  raw ← load_file host path
  guard (leb 16 (length raw))
  derive_transfer_keys host.evp raw

-- The tag over the first half of the header, the name and the ciphertext.
unfoldable pub build_hmac : Host → Bytes → Bytes → Bytes → Bytes → Option Bytes
build_hmac host mac_key prefix name ciphertext = do
  let buf = prefix ++ (name ++ ciphertext)
  guard (host.malloc (length buf))
  hmac_sha256 host.evp mac_key buf
