-- ===== src/Lib.antt =====
-- The programs of both assignments: the file commands with access control lists of the first; and of
-- the second the chat server with its key distribution server, the chat client, and the secure file
-- copy. The modules stand for these parts.
--
-- Host: what the commands of the first assignment use of the system, which is a Host (the files by
--   their paths, the three user ids, what was printed) and a Kernel, which says which calls succeed.
--   seteuid is written out, with the capability that the Makefile installs, which is taken to last. A
--   path stands for itself: links and other spellings are not followed. stat may fail on a file that
--   is there in fput alone, and a read by fgets or a write by fprintf in setPermInAcl alone.
-- Acl: Assignment1/utils.c, and getUsrName of Assignment1/uid.c.
--   Acl/Line.antt: build_perm, valid_perm_string, line_has_perm, getAclFilename.
--   Acl/Checking.antt: checkPermFromAcl, printAcl. Acl/Setting.antt: setPermInAcl.
--   Acl/Creating.antt: createAclFromStat, change_uid.
-- Tools: the commands, each as a function of its arguments and the host.
--   Tools/Options.antt: Assignment1/option.c. Tools/Sudo.antt: Assignment1/sudo.c.
--   Tools/Reading.antt: Assignment1/fget.c. Tools/Writing.antt: Assignment1/fput.c.
--   Tools/Acls.antt: Assignment1/setacl.c and getacl.c. Tools/Dirs.antt: Assignment1/cd.c.
--   Tools/Making.antt: Assignment1/create_dir.c.
--
-- Common: Assignment2/a2_common.c.
--   Common/Hex.antt: hex_encode, hex_value, hex_decode.
--   Common/Io.antt: read_all_fd (read_all), write_all_fd (write_all), recv_line, send_fmt and
--     trim_newline. A descriptor is the list of what the kernel will answer: chunks or counts of any
--     size, EINTR, errors. The loops are structural on that list, so they need no fuel.
--   Common/Crypto.antt: the wrappers around OpenSSL, which is the parameter Evp. CbcLaws and GcmLaws
--     are what its documentation says of decryption after encryption.
--   Common/Files.antt: save_file_atomic, over a disk that gives the content of each path; Calls says
--     how each system call ends.
-- Server: Assignment2/server_real.c.
--   Server/Start.antt: server_config_t, parse_args, load_users, load_default_users.
--   Server/State.antt: the static tables (users, clients, groups, replays, replay_next, ticket_key)
--     as one record, and the lookups.
--   Server/Replay.antt: replay_seen_or_add. Server/Clients.antt: client_slot_add, client_slot_remove,
--     send_to_user, broadcast_message, handle_who.
--   Server/Groups.antt: handle_create_group, handle_group_invite, handle_group_accept,
--     handle_group_key, handle_group_write. What a handler does under state_lock is a function of its
--     own (create_group_locked and so on); what it sends is a list of descriptor and text.
--   Server/Files.antt: acl_allows_read, can_read_user_file, handle_list_files, handle_request_file.
--   Server/Commands.antt: process_command and the two public key handlers.
--   Server/Login.antt: derive_ticket_key, decrypt_ticket and kdc_client_thread (kdc_client).
--   Server/Chat.antt: authenticate_chat and chat_client_thread (chat_client), as a list of rounds of
--     its loop.
--   Server/Interleaving.antt: the critical sections of all threads as a step relation, and what its
--     runs reach.
-- Client: Assignment2/client_real.c.
--   Client.antt: make_nonce_hex, authenticate_with_kdc (kdc_request and kdc_reply) and connect_chat
--     (chat_connect and chat_accepted), cut where the client waits for an answer.
--   Client/Settings.antt: client_config_t and parse_args.
--   Client/Sending.antt: send_file_tls, up to the bytes that the connection carries.
--   Client/Receiving.antt: ssl_read_line and tls_receive_thread, from the records that arrive.
--   Client/Loop.antt: maybe_start_file_receiver, handle_server_line and the loop of main.
-- Transfer: Assignment2/secure_client.c and Assignment2/secure_server.c.
--   Transfer/Words.antt: the byte order of the integers of the frame, on a little-endian host.
--   Transfer/Keys.antt: load_file, load_key_material and build_hmac, which both programs have.
--   Transfer/Sender.antt and Transfer/Receiver.antt: the two main functions, from argv to the exit
--     code and the bytes written, or the disk.
-- Base has the shared notation and the lemmas on lists, options and counts. CString has the functions
-- of the C library that the programs call, on strings as lists of bytes: strcmp, strchr, strstr,
-- strtok, snprintf, strtol, atoi, basename and dirname as glibc has them, fgets.
--
-- The commands reach the server one line at a time: process_command reads the shared state and gives
-- the new state and what is sent. The server takes the file system, random bytes and the clock as
-- arguments. Numbers are natural numbers; the integers of the frame keep their widths as bounds, and
-- atoi cuts its result down to 32 bits. Texts that do not fit a buffer are cut off as snprintf does,
-- or dropped as send_fmt does. What a peer sends is cut at a zero byte where the program takes it for a
-- string; lines of files, and those of the chat client's terminal and server, are taken to have none. The printing of a number has the number itself as its fuel, which is
-- more than it has digits.
--
-- The loops of the commands that climb from a directory have two more than the length of its path as
-- fuel, since each step makes the path shorter or ends, but for a path that starts with exactly two
-- slashes, on which the C loops may not end either; the loop of fget has one more than the length
-- of the file, since each read gives a byte; splitOpts has one more than the length of an argument.
--
-- Not modelled: the accept loops and main of the server, sockets, what the programs print to stderr,
-- and the results of sends, which the server does not read. OpenSSL and sockets are what their calls
-- give.
mod Acl
mod Base
mod CString
pub mod Common
pub mod Host
pub mod Server
pub mod Client
pub mod Transfer
mod Tools
mod Tests
