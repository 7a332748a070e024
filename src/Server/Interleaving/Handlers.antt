-- ===== src/Server/Interleaving/Handlers.antt =====
-- process_command of Assignment2/server_real.c as a run of the steps in Server/Interleaving.
use nss_i_assignments.Base.{ℕ, Option, Bytes, Option-cases, inl, inr}
use nss_i_assignments.CString.{ℤ, atoi}
use nss_i_assignments.Server.State.{Server}
use nss_i_assignments.Server.Groups.{
  create_group_locked, handle_create_group, invite_locked, handle_group_invite, accept_locked,
  handle_group_accept, key_locked, handle_group_key,
}
use nss_i_assignments.Server.Files.{FileSystem}
use nss_i_assignments.Server.Commands.{
  Command, create_group, accept_invite, send_public_key, init_group_key, handle_send_public_key,
  perform, process_command,
}
use nss_i_assignments.Server.Interleaving.{
  IsServer, Reach, here, next, create, invite, accept, rekey, publish,
}
use nss_i_assignments.Server.Interleaving.Invariant.{Reach-IsServer}

handle_create_group-Reach :
    (fd : ℕ) (user : Bytes) (name : Option Bytes) (s : Server)
    → Reach s (handle_create_group fd user name s).0
unfolding handle_create_group
handle_create_group-Reach fd user name s = elim (Option-cases (create_group_locked user name s)) [
  | inl e ↦ rw e here
  | inr ((id, t), e) ↦ rw e (next here (create user name id e))
]

handle_group_invite-Reach :
    (fd : ℕ) (from : Bytes) (id : ℤ) (to : Bytes) (s : Server)
    → Reach s (handle_group_invite fd from id to s).0
unfolding handle_group_invite
handle_group_invite-Reach fd from id to s = elim (Option-cases (invite_locked from id to s)) [
  | inl e ↦ rw e here
  | inr (t, e) ↦ rw e (next here (invite from id to e))
]

handle_group_accept-Reach :
    (fd : ℕ) (user : Bytes) (id : ℤ) (s : Server) → Reach s (handle_group_accept fd user id s).0
unfolding handle_group_accept
handle_group_accept-Reach fd user id s = elim (Option-cases (accept_locked user id s)) [
  | inl e ↦ rw e here
  | inr (t, e) ↦ rw e (next here (accept user id e))
]

handle_group_key-Reach :
    (fd : ℕ) (user : Bytes) (id : ℤ) (random : Option Bytes) (s : Server)
    → Reach s (handle_group_key fd user id random s).0
unfolding handle_group_key
handle_group_key-Reach fd user id random s = elim (Option-cases (key_locked user id random s)) [
  | inl e ↦ rw e here
  | inr ((t, text, names), e) ↦ rw e (next here (rekey user id random text names e))
]

handle_send_public_key-Reach :
    (fd : ℕ) (from target key : Bytes) (s : Server)
    → Reach s (handle_send_public_key fd from target key s).0
unfolding handle_send_public_key
handle_send_public_key-Reach fd from target key s = next here (publish from key)

perform-Reach :
    (fs : FileSystem) (random : Option Bytes) (fd : ℕ) (user : Bytes) (c : Command) (s : Server)
    → Reach s (perform fs random fd user c s).0
unfolding perform
perform-Reach fs random fd user (create_group name) s = handle_create_group-Reach fd user name s
perform-Reach fs random fd user (accept_invite gid) s =
    handle_group_accept-Reach fd user (atoi gid) s
perform-Reach fs random fd user (Command.invite gid target) s =
    handle_group_invite-Reach fd user (atoi gid) target s
perform-Reach fs random fd user (send_public_key target key) s =
    handle_send_public_key-Reach fd user target key s
perform-Reach fs random fd user (init_group_key gid) s =
    handle_group_key-Reach fd user (atoi gid) random s
perform-Reach fs random fd user _ s = here

-- Every command line, of any client, changes the shared state only by steps of the relation.
pub process_command-Reach :
    (fs : FileSystem) (random : Option Bytes) (fd : ℕ) (user line : Bytes) (s : Server)
    → Reach s (process_command fs random fd user line s).0
unfolding process_command
process_command-Reach fs random fd user line s = perform-Reach fs random fd user _ s

-- A command line, whatever it holds and whoever sends it, keeps the invariant of the server, where
-- that held before.
pub process_command-IsServer :
    (fs : FileSystem) (random : Option Bytes) (fd : ℕ) (user line : Bytes) (s : Server)
    → IsServer s
    → IsServer (process_command fs random fd user line s).0
process_command-IsServer fs random fd user line s v =
    Reach-IsServer v (process_command-Reach fs random fd user line s)
