-- ===== src/Server/Commands.antt =====
-- The public key handlers and process_command of Assignment2/server_real.c.
use nss_i_assignments.Base.{
  ℕ, ◌==◌, Option, none, some, List, [], ◌∷◌, ◌++◌, if◌then◌else◌, Bytes, codes, drop, set, ◌>>=◌,
}
use nss_i_assignments.CString.{str_eq, has_prefix, snprintf, strtok, atoi}
use nss_i_assignments.Common.Io.{trim_newline, line_max}
use nss_i_assignments.Server.State.{Client, Server, Sent, find_client_locked, send}
use nss_i_assignments.Server.Clients.{send_to_user, broadcast_message, handle_who}
use nss_i_assignments.Server.Groups.{
  handle_create_group, handle_group_invite, handle_group_accept, handle_group_key,
  handle_group_write,
}
use nss_i_assignments.Server.Files.{FileSystem, handle_list_files, handle_request_file}

unfoldable pub handle_public_key_request : ℕ → Bytes → Bytes → Server → List Sent
unfolding send_to_user
handle_public_key_request fd from target s =
    send_to_user target (snprintf line_max (codes "PUBLIC_KEY_REQUEST " ++ (from ++ codes "\n"))) s
    ++ send fd (codes "PUBLIC_KEY_REQUEST_SENT\n")

-- `char public_key[2048]`
abbrev store_key : Bytes → Server → Option (ℕ × Client) → Server
store_key key s none = s
store_key key s (some (i, c)) = record s {
  clients = set s.clients i (record c { public_key = snprintf 2048 key });
}

-- The part of handle_send_public_key that holds the lock.
unfoldable pub publish_key_locked : Bytes → Bytes → Server → Server
publish_key_locked from key s = store_key key s (find_client_locked from s.clients)

unfoldable pub handle_send_public_key : ℕ → Bytes → Bytes → Bytes → Server → Server × List Sent
unfolding publish_key_locked send_to_user
handle_send_public_key fd from target key s =
    let t = publish_key_locked from key s in
    (
      t,
      send_to_user target
            (snprintf line_max
              (codes "PUBLIC_KEY " ++ (from ++ (codes " " ++ (key ++ codes "\n")))))
            t
          ++ send fd (codes "PUBLIC_KEY_SENT\n"),
    )

abbrev space : Bytes
space = codes " "

skip_spaces : Bytes → Bytes
skip_spaces [] = []
skip_spaces (c ∷ s) = if c == b' ' then skip_spaces s else c ∷ s

abbrev name_given : Bytes → Option Bytes
name_given [] = some (codes "group")
name_given (c ∷ s) = some (c ∷ s)

-- strtok(text, " ") and then strtok(NULL, " ")
abbrev two_words : Bytes → Option (Bytes × Bytes)
two_words text = do (a, r) ← strtok space text; (b, r') ← strtok space r; some (a, b)

-- strtok(text, " ") and then strtok(NULL, ""), which gives all that is left
abbrev word_and_rest : Bytes → Option (Bytes × Bytes)
word_and_rest text = do (a, r) ← strtok space text; (b, r') ← strtok [] r; some (a, b)

abbrev four_words : Bytes → Option (Bytes × Bytes × Bytes × Bytes)
four_words text = do
  (a, r) ← strtok space text
  (b, r') ← strtok space r
  (c, r'') ← strtok space r'
  (d, r''') ← strtok space r''
  some (a, b, c, d)

-- The branch that a line takes, with what it cuts out of the line; `usage` where a word is missing.
pub data Command : Type 0 where
  who : Command
  write_all : Bytes → Command
  create_group : Option Bytes → Command
  accept_invite : Bytes → Command
  invite : Bytes → Bytes → Command
  request_public_key : Bytes → Command
  send_public_key : Bytes → Bytes → Command
  init_group_key : Bytes → Command
  write_group : Bytes → Bytes → Command
  list_user_files : Bytes → Command
  request_file : Bytes → Bytes → Bytes → Bytes → Command
  usage : Bytes → Command
  unknown : Command

abbrev invite_words : Option (Bytes × Bytes) → Command
invite_words none = usage (codes "ERR usage /group invite <group-id> <user>\n")
invite_words (some (gid, target)) = invite gid target

abbrev key_words : Option (Bytes × Bytes) → Command
key_words none = usage (codes "ERR usage /send public key <user> <key>\n")
key_words (some (target, key)) = send_public_key target key

abbrev write_words : Option (Bytes × Bytes) → Command
write_words none = usage (codes "ERR usage /write group <group-id> <message>\n")
write_words (some (gid, msg)) = write_group gid msg

abbrev request_words : Option (Bytes × Bytes × Bytes × Bytes) → Command
request_words none = usage (codes "ERR usage /request file <user> <filename> <host> <port>\n")
request_words (some (owner, filename, host, port)) = request_file owner filename host port

-- The ladder of process_command.
unfoldable pub read_command : Bytes → Command
unfolding skip_spaces
read_command line =
    if str_eq line (codes "/who")
    then who
    else if has_prefix (codes "/write all ") line
    then write_all (drop 11 line)
    else if has_prefix (codes "/create group") line
    then create_group (name_given (skip_spaces (drop 13 line)))
    else if has_prefix (codes "/group invite accept ") line
    then accept_invite (drop 21 line)
    else if has_prefix (codes "/group invite ") line
    then invite_words (two_words (drop 14 line))
    else if has_prefix (codes "/request public key ") line
    then request_public_key (drop 20 line)
    else if has_prefix (codes "/send public key ") line
    then key_words (word_and_rest (drop 17 line))
    else if has_prefix (codes "/init group dhxchg ") line
    then init_group_key (drop 19 line)
    else if has_prefix (codes "/write group ") line
    then write_words (word_and_rest (drop 13 line))
    else if has_prefix (codes "/list user files ") line
    then list_user_files (drop 17 line)
    else if has_prefix (codes "/request file ") line
    then request_words (four_words (drop 14 line))
    else unknown

-- What the branch calls. `random` is what random_bytes gives, if a group key is made.
unfoldable pub perform :
    FileSystem → Option Bytes → ℕ → Bytes → Command → Server → Server × List Sent
perform fs random fd user who s = (s, handle_who fd s)
perform fs random fd user (write_all msg) s = (s, broadcast_message user msg s)
perform fs random fd user (create_group name) s = handle_create_group fd user name s
perform fs random fd user (accept_invite gid) s = handle_group_accept fd user (atoi gid) s
perform fs random fd user (invite gid target) s = handle_group_invite fd user (atoi gid) target s
perform fs random fd user (request_public_key target) s =
    (s, handle_public_key_request fd user target s)
perform fs random fd user (send_public_key target key) s =
    handle_send_public_key fd user target key s
perform fs random fd user (init_group_key gid) s = handle_group_key fd user (atoi gid) random s
perform fs random fd user (write_group gid msg) s = (s, handle_group_write fd user (atoi gid) msg s)
perform fs random fd user (list_user_files owner) s = (s, handle_list_files fs fd user owner s)
perform fs random fd user (request_file owner filename host port) s =
    (s, handle_request_file fs fd user owner filename host port s)
perform fs random fd user (usage text) s = (s, send fd text)
perform fs random fd user unknown s = (s, send fd (codes "ERR unknown-command\n"))

unfoldable pub process_command :
    FileSystem → Option Bytes → ℕ → Bytes → Bytes → Server → Server × List Sent
process_command fs random fd user line s =
    perform fs random fd user (read_command (trim_newline line)) s
