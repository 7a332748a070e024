-- ===== src/Client/Loop.antt =====
-- maybe_start_file_receiver, handle_server_line and the loop of main of Assignment2/client_real.c.
-- What goes to stderr is left out.
use nss_i_assignments.Base.{
  Bool, true, false, not, Option, none, some, List, [], ◌∷◌, ◌++◌, if◌then◌else◌, Bytes, codes,
  drop, ◌>>=◌,
}
use nss_i_assignments.CString.{has_prefix, snprintf, strtok}
use nss_i_assignments.Common.Io.{trim_newline, line_max}
use nss_i_assignments.Transfer.Keys.{Host}
use nss_i_assignments.Client.Settings.{Config}
use nss_i_assignments.Client.Sending.{Calls, send_file_tls}

-- tls_recv_args_t
pub record Receiver : Type 0 where
  pub port : Bytes
  pub download_dir : Bytes
  pub cert_path : Bytes
  pub key_path : Bytes

abbrev receiver_at : Config → Bytes → Receiver
receiver_at cfg port = record {
  port = snprintf 16 port;
  download_dir = snprintf 256 cfg.download_dir;
  cert_path = snprintf 256 cfg.cert_path;
  key_path = snprintf 256 cfg.key_path;
}

-- The receiver that a command line starts, where calloc and pthread_create succeed.
unfoldable pub maybe_start_file_receiver : Config → Bytes → Option Receiver
maybe_start_file_receiver cfg line =
    if not (has_prefix (codes "/request file ") line) then none else do
      (owner, r) ← strtok (codes " ") (snprintf line_max (drop 14 line))
      (filename, r') ← strtok (codes " ") r
      (host, r'') ← strtok (codes " ") r'
      (port, r''') ← strtok (codes " \n\r") r''
      some (receiver_at cfg port)

-- The name of the file, the host and the port of a request.
abbrev request_words : Bytes → Option (Bytes × Bytes × Bytes)
request_words line = do
  (requester, r) ← strtok (codes " ") (trim_newline (snprintf line_max (drop 13 line)))
  (filename, r') ← strtok (codes " ") r
  (host, r'') ← strtok (codes " ") r'
  (port, r''') ← strtok (codes " ") r''
  some (filename, host, port)

-- What the client does: a line for the terminal, bytes to another client, a receiver of its own, a
-- line for the server.
pub data Act : Type 0 where
  shows : Bytes → Act
  transfers : Bytes → Bytes → Bytes → Act
  receives : Receiver → Act
  sends : Bytes → Act

abbrev transfer_to : Host → Calls → Config → Option (Bytes × Bytes × Bytes) → List Act
transfer_to host calls cfg none = []
transfer_to host calls cfg (some (filename, to, port)) =
    transfers to port (send_file_tls host calls cfg.file_root filename).1 ∷ []

unfoldable pub handle_server_line : Host → Calls → Config → Bytes → List Act
handle_server_line host calls cfg line =
    shows line
    ∷ (if has_prefix (codes "FILE_REQUEST ") line
        then transfer_to host calls cfg (request_words line)
        else [])

-- What select gives, with what recv_line and fgets then give where a descriptor is ready, and
-- whether send_all succeeds.
pub data Round : Type 0 where
  interrupted : Round
  failed : Round
  ready : Option (Option Bytes) → Option (Option Bytes) → Bool → Round

abbrev started : Option Receiver → List Act
started none = []
started (some r) = receives r ∷ []

-- What a round does with the terminal, and whether the loop goes on.
abbrev typed : Config → Option (Option Bytes) → Bool → Bool × List Act
typed cfg none works = (true, [])
typed cfg (some none) works = (false, [])
typed cfg (some (some line)) works =
    (works, started (maybe_start_file_receiver cfg line) ++ sends line ∷ [])

-- What it does with the server; a result of recv_line that is not positive ends the loop.
abbrev heard : Host → Calls → Config → Option (Option Bytes) → Bool × List Act
heard host calls cfg none = (true, [])
heard host calls cfg (some none) = (false, [])
heard host calls cfg (some (some [])) = (false, [])
heard host calls cfg (some (some (c ∷ line))) = (true, handle_server_line host calls cfg (c ∷ line))

unfoldable pub client_loop : Host → Calls → Config → List Round → List Act
unfolding handle_server_line maybe_start_file_receiver
client_loop host calls cfg [] = []
client_loop host calls cfg (interrupted ∷ rounds) = client_loop host calls cfg rounds
client_loop host calls cfg (failed ∷ rounds) = []
client_loop host calls cfg (ready chat input works ∷ rounds) =
    let first = heard host calls cfg chat in
    let second = typed cfg input works in
    let rest = client_loop host calls cfg rounds in
    if not first.0
    then first.1
    else if not second.0
    then first.1 ++ second.1
    else first.1 ++ (second.1 ++ rest)
