-- ===== src/Client/Sending.antt =====
-- send_file_tls of Assignment2/client_real.c, up to what it writes to the connection.
use nss_i_assignments.Base.{
  ℕ, zero, suc, ◌+◌, ◌%◌, ◌^◌, Bool, true, false, not, ◌&&◌, ◌||◌, Option, none, some, [], ◌∷◌,
  ◌++◌, ltb, ◌==◌, if◌then◌else◌, Bytes, codes, length, take, ◌>>◌, guard,
}
use nss_i_assignments.CString.{contains, strstr, snprintf, print_dec}
use nss_i_assignments.Transfer.Keys.{Host, load_file}

-- How the calls end: SSL_CTX_new, tcp_connect by its attempt, SSL_new, SSL_connect and the two calls
-- of SSL_write.
pub record Calls : Type 0 where
  pub context : Bool
  pub connects : ℕ → Bool
  pub session : Bool
  pub handshake : Bool
  pub header_written : Bool
  pub data_written : Bool

-- The loop over the attempts.
unfoldable pub connect_loop : (ℕ → Bool) → ℕ → ℕ → Bool
connect_loop connects attempt zero = false
connect_loop connects attempt (suc left) =
    connects attempt || connect_loop connects (attempt + 1) left

-- A size as SSL_read and SSL_write take it, an int; `none` where that is not positive.
unfoldable pub int_size : ℕ → Option ℕ
int_size n = let low = n % 2 ^ 32 in if low == 0 || not (ltb low (2 ^ 31)) then none else some low

abbrev pub file_header : Bytes → ℕ → Bytes
file_header filename len =
    snprintf 512 (codes "FILE " ++ (filename ++ (codes " " ++ (print_dec len ++ codes "\n"))))

-- What SSL_write takes of the data; an empty file is not written.
abbrev pub write_sized : Bool → Bytes → Bytes → Option ℕ → Bool × Bytes
write_sized works sent bytes none = (false, sent)
write_sized false sent bytes (some n) = (false, sent)
write_sized true sent bytes (some n) = (true, sent ++ take n bytes)

abbrev pub write_data : Bool → Bytes → Bytes → Bool × Bytes
write_data works sent [] = (true, sent)
write_data works sent (b ∷ bs) = write_sized works sent (b ∷ bs) (int_size (length (b ∷ bs)))

abbrev pub send_data : Calls → Bytes → Bytes → Bool × Bytes
send_data calls filename bytes =
    if not (calls.context && connect_loop calls.connects 0 30)
    then (false, [])
    else if not (calls.session && calls.handshake)
    then (false, [])
    else if not calls.header_written
    then (false, [])
    else write_data calls.data_written (file_header filename (length bytes)) bytes

-- The name is checked, and the file read.
abbrev pub requested_file : Host → Bytes → Bytes → Option Bytes
requested_file host root filename = do
  let path = root ++ (codes "/" ++ filename)
  guard (not (contains b'/' filename))
  guard (not (strstr (codes "..") filename))
  guard (ltb (length path) 512)
  load_file host path

abbrev sent_or_not : Calls → Bytes → Option Bytes → Bool × Bytes
sent_or_not calls filename none = (false, [])
sent_or_not calls filename (some bytes) = send_data calls filename bytes

-- Whether the result is 0, and the bytes that the connection carries.
unfoldable pub send_file_tls : Host → Calls → Bytes → Bytes → Bool × Bytes
unfolding connect_loop
send_file_tls host calls root filename =
    sent_or_not calls filename (requested_file host root filename)
