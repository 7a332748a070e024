-- ===== src/Tests/Server.antt =====
-- Runs of the model of Assignment2/server_real.c on small inputs.
use nss_i_assignments.Base.{
  ◌≡◌, if◌then◌else◌, refl, ◌↔◌, true, false, none, some, [], ◌∷◌, Bytes, codes, replicate, arith,
}
use nss_i_assignments.CString.{pos, str_eq}
use nss_i_assignments.Server.State.{User, Server}
use nss_i_assignments.Server.Replay.{nonce_seen, replay_seen_or_add}
use nss_i_assignments.Server.Replay.Window.{
  replay_all, replay_seen_or_add-refuses, replay_seen_or_add_long,
}
use nss_i_assignments.Server.Clients.{client_slot_add}
use nss_i_assignments.Server.Clients.Adding.{Adds, client_slot_add-Adds}
use nss_i_assignments.Server.Groups.{handle_group_write}
use nss_i_assignments.Server.Groups.Delivery.{WritesGroup, handle_group_write-WritesGroup}
use nss_i_assignments.Server.Files.{FileSystem, can_read_user_file}
use nss_i_assignments.Server.Files.Access.{MayRead, can_read_user_file_iff}
use nss_i_assignments.Server.Commands.{process_command}
use nss_i_assignments.Server.Interleaving.{IsServer, Reach, here, next, nonce, login}
use nss_i_assignments.Server.Interleaving.Invariant.{initial, initial-Reach-IsServer}
use nss_i_assignments.Server.Interleaving.Handlers.{process_command-IsServer}

abbrev alice : Bytes
alice = codes "alice"

abbrev bob : Bytes
bob = codes "bob"

abbrev key : Bytes
key = replicate 32 7

abbrev alice_user : User
alice_user = record {
  name = alice;
  password = codes "pw";
  root = codes "files/alice";
  long_key = key;
}

abbrev start : Server
start = initial (alice_user ∷ []) key

-- Alice's note, which an entry of its ACL lets bob read.
abbrev note_acl : Bytes
note_acl = codes "user:alice:rw\nuser:bob:r\n"

abbrev note_path : Bytes
note_path = codes "files/alice/note"

abbrev files : FileSystem
files = record {
  content = λ path. if str_eq path (codes "files/alice/.note.acl") then some note_acl else none;
  readable = λ path. str_eq path note_path;
  listing = λ path. some (codes "note" ∷ []);
}

-- Alice logs in, a nonce comes, and alice makes a group.
abbrev logged_in : Server
logged_in = (client_slot_add 5 alice key start).1

abbrev with_nonce : Server
with_nonce = (replay_seen_or_add (codes "n1") 10 logged_in).1

abbrev with_group : Server
with_group = (process_command files none 5 alice (codes "/create group team\n") with_nonce).0

abbrev with_nonce_run : Reach start with_nonce
with_nonce_run = next (next here (login 5 alice key (omega arith))) (nonce (codes "n1") 10)

initial-Reach-IsServer_example : IsServer with_nonce
initial-Reach-IsServer_example =
    initial-Reach-IsServer (alice_user ∷ []) key with_nonce with_nonce_run

with_nonce-IsServer : IsServer with_nonce
with_nonce-IsServer = initial-Reach-IsServer (alice_user ∷ []) key with_nonce with_nonce_run

process_command-IsServer_example : IsServer with_group
process_command-IsServer_example =
    process_command-IsServer files none 5 alice (codes "/create group team\n") with_nonce
      with_nonce-IsServer

with_group-IsServer : IsServer with_group
with_group-IsServer =
    process_command-IsServer files none 5 alice (codes "/create group team\n") with_nonce
      with_nonce-IsServer

handle_group_write-WritesGroup_example :
    WritesGroup 5 alice
      (pos 1)
      (codes "hello")
      with_group
      (handle_group_write 5 alice (pos 1) (codes "hello") with_group)
handle_group_write-WritesGroup_example =
    handle_group_write-WritesGroup 5 alice (pos 1) (codes "hello") with_group
      with_group-IsServer.rooms

abbrev nonce_value : Bytes
nonce_value = codes "n2"

fresh : (replay_seen_or_add nonce_value 11 start).0 ≡ false
unfolding replay_seen_or_add nonce_seen
fresh = refl

start-IsServer : IsServer start
start-IsServer = initial-Reach-IsServer (alice_user ∷ []) key start here

replay_seen_or_add-refuses_example :
    replay_seen_or_add nonce_value 13
      (replay_all ((codes "n3", 12) ∷ []) (replay_seen_or_add nonce_value 11 start).1)
    ≡ (true, replay_all ((codes "n3", 12) ∷ []) (replay_seen_or_add nonce_value 11 start).1)
replay_seen_or_add-refuses_example =
    replay_seen_or_add-refuses nonce_value 11 13 ((codes "n3", 12) ∷ []) start start-IsServer.ring
      (cc) (omega arith) fresh (omega arith)

abbrev long_nonce : Bytes
long_nonce = replicate 128 b'a'

replay_seen_or_add_long_example :
    (replay_seen_or_add long_nonce 13 (replay_all [] (replay_seen_or_add long_nonce 11 start).1)).0
    ≡ false
replay_seen_or_add_long_example =
    replay_seen_or_add_long long_nonce 11 13 [] start start-IsServer.ring (omega arith)

client_slot_add-Adds_example : Adds 6 bob key logged_in (client_slot_add 6 bob key logged_in)
client_slot_add-Adds_example = client_slot_add-Adds 6 bob key logged_in

can_read_user_file_iff_example :
    (can_read_user_file files bob alice (codes "note") 512 start ≡ some note_path)
    ↔ MayRead files bob alice (codes "note") 512 start note_path
can_read_user_file_iff_example =
    can_read_user_file_iff files bob alice (codes "note") 512 start note_path
