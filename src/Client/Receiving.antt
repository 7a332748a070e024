-- ===== src/Client/Receiving.antt =====
-- ssl_read_line and tls_receive_thread of Assignment2/client_real.c. The connection is the list of
-- the records that arrive; an empty one, or none, is what SSL_read reports as an error or the end.
use nss_i_assignments.Base.{
  ℕ, zero, suc, ◌+◌, ◌-◌, ◌%◌, ◌^◌, Bool, not, ◌&&◌, ◌||◌, Option, none, some, List, [], ◌∷◌, ◌++◌,
  ◌==◌, if◌then◌else◌, Bytes, codes, length, take, drop, ◌>>=◌, ◌>>◌, guard,
}
use nss_i_assignments.CString.{c_string, str_eq, contains, strstr, snprintf, strtok, strtoull}
use nss_i_assignments.Common.Io.{trim_newline}
use nss_i_assignments.Common.Files
use nss_i_assignments.Common.Files.{Disk, save_file_atomic}
use nss_i_assignments.Client.Sending.{int_size}

-- What a record leaves when some bytes are taken from it.
abbrev pub leave : Bytes → List Bytes → List Bytes
leave [] records = records
leave (c ∷ s) records = (c ∷ s) ∷ records

-- SSL_read of at most n bytes, for a positive n.
abbrev pub ssl_read : ℕ → List Bytes → Option (Bytes × List Bytes)
ssl_read n [] = none
ssl_read n ([] ∷ records) = none
ssl_read n ((c ∷ s) ∷ records) = some (take n (c ∷ s), leave (drop n (c ∷ s)) records)

-- `room` is how often `pos + 1 < max` can still hold.
unfoldable pub line_loop : Bytes → ℕ → List Bytes → Option (Bytes × List Bytes)
line_loop buf zero records = some (buf, records)
line_loop buf (suc room) [] = none
line_loop buf (suc room) ([] ∷ records) = none
line_loop buf (suc room) ((c ∷ s) ∷ records) =
    let more = line_loop (buf ++ c ∷ []) room (leave s records) in
    if c == b'\n' then some (buf ++ c ∷ [], leave s records) else more

unfoldable pub ssl_read_line : ℕ → List Bytes → Option (Bytes × List Bytes)
unfolding line_loop
ssl_read_line max records = line_loop [] (max - 1) records

-- The loop over SSL_read; the fuel is the number of bytes still missing.
unfoldable pub data_loop : ℕ → Bytes → ℕ → List Bytes → Option Bytes
data_loop f got zero records = some got
data_loop zero got (suc need) records = none
data_loop (suc f) got (suc need) records = do
  n ← int_size (suc need)
  (part, rest) ← ssl_read n records
  data_loop f (got ++ part) (suc need - length part) rest

-- How the calls up to SSL_accept end, malloc, and the calls of save_file_atomic.
pub record Setup : Type 0 where
  pub context : Bool
  pub certificate : Bool
  pub listens : Bool
  pub accepts : Bool
  pub session : Bool
  pub handshake : Bool
  pub malloc : ℕ → Bool
  pub saving : Files.Calls

-- The name and the size in a header line.
abbrev pub header_words : Bytes → Option (Bytes × Bytes)
header_words line = do
  (kind, r) ← strtok (codes " ") line
  (filename, r') ← strtok (codes " ") r
  (len, r'') ← strtok (codes " ") r'
  guard (str_eq kind (codes "FILE"))
  guard (not (contains b'/' filename || strstr (codes "..") filename))
  some (filename, len)

-- The file that arrives: its name and its bytes.
unfoldable pub receive_file : Setup → List Bytes → Option (Bytes × Bytes)
unfolding ssl_read_line data_loop
receive_file setup records = do
  guard (setup.context && setup.certificate)
  guard (setup.listens && setup.accepts)
  guard (setup.session && setup.handshake)
  (line, rest) ← ssl_read_line 512 records
  guard (not (length line == 0))
  (filename, len_s) ← header_words (trim_newline (c_string line))
  let file_len = strtoull len_s
  guard (setup.malloc ((file_len + 1) % 2 ^ 64))
  bytes ← data_loop file_len [] file_len rest
  some (filename, bytes)

abbrev stored : Setup → Bytes → Disk → Option (Bytes × Bytes) → Disk
stored setup dir disk none = disk
stored setup dir disk (some (filename, bytes)) =
    (save_file_atomic setup.saving (snprintf 512 (dir ++ (codes "/" ++ filename))) bytes disk).1

-- The disk behind the thread; `dir` is there, or ensure_dir has made it.
unfoldable pub tls_receive_thread : Setup → Bytes → List Bytes → Disk → Disk
unfolding receive_file
tls_receive_thread setup dir records disk = stored setup dir disk (receive_file setup records)
