-- ===== src/Server/Interleaving.antt =====
-- The threads of Assignment2/server_real.c as interleavings of what they do under state_lock, and
-- the invariant of the state that they share.
pub mod Invariant
pub mod Handlers
pub mod Threads
use nss_i_assignments.Base.{
  ℕ, ◌<◌, ◌≤◌, ◌≡◌, refl, sym, ◌∙◌, ap, Bool, true, false, not, Option, none, some, List, [], ◌∷◌,
  ◌++◌, Bytes, length, set, length-set, get_elem?, All, All-set, All-get_elem?, arith, Bool-cases,
  Option-cases, find_slot-some, count, count-set, subst, if◌then◌else◌, replicate, ◌⊎◌, inl, inr,
}
use nss_i_assignments.CString.{snprintf, ℤ, strtok, atoi, has_prefix, str_eq}
use nss_i_assignments.Server.State.{
  Client, User, Server, Sent, blank_client, blank_group, blank_replay, is_client,
  find_client_locked, max_clients,
}
use nss_i_assignments.Server.Replay.{replay_seen_or_add}
use nss_i_assignments.Server.Replay.Window.{IsRing, replay_seen_or_add-IsRing}
use nss_i_assignments.Server.Clients.{user_max, client_slot_add, client_slot_remove}
use nss_i_assignments.Server.Clients.Logins.{
  AreClients, client_slot_add-AreClients, client_slot_remove-AreClients, client_slot_add-Takes,
  Takes, already_active, no_slot, added,
}
use nss_i_assignments.Server.Groups.{create_group_locked, invite_locked, accept_locked, key_locked}
use nss_i_assignments.Server.Groups.Invariant.{
  HasGroups, create_group_locked-HasGroups, invite_locked-HasGroups, accept_locked-HasGroups,
  key_locked-HasGroups,
}
use nss_i_assignments.Server.Commands.{publish_key_locked}

pub record IsServer (s : Server) : Type 0 where
  pub ring : IsRing s
  pub sessions : AreClients s.clients
  pub rooms : HasGroups s

-- What one thread does between taking the lock and giving it back, where it changes the state.
pub data Step : Server → Server → Type 0 where
  nonce : {s : Server} (value : Bytes) (now : ℕ) → Step s (replay_seen_or_add value now s).1
  login :
      {s : Server} (fd : ℕ) (user session : Bytes)
      → length user < user_max
      → Step s (client_slot_add fd user session s).1
  logout : {s : Server} (fd : ℕ) → Step s (client_slot_remove fd s)
  create :
      {s t : Server} (user : Bytes) (name : Option Bytes) (id : ℕ)
      → create_group_locked user name s ≡ some (id, t)
      → Step s t
  invite :
      {s t : Server} (from : Bytes) (id : ℤ) (to : Bytes)
      → invite_locked from id to s ≡ some t
      → Step s t
  accept : {s t : Server} (user : Bytes) (id : ℤ) → accept_locked user id s ≡ some t → Step s t
  rekey :
      {s t : Server} (user : Bytes) (id : ℤ) (random : Option Bytes) (text : Bytes)
      (names : List Bytes)
      → key_locked user id random s ≡ some (t, text, names)
      → Step s t
  publish : {s : Server} (from key : Bytes) → Step s (publish_key_locked from key s)

pub data Reach (s : Server) : Server → Type 0 where
  here : Reach s s
  next : {t u : Server} → Reach s t → Step t u → Reach s u
