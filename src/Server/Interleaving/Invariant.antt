-- ===== src/Server/Interleaving/Invariant.antt =====
-- The invariant of the state shared by the threads of Assignment2/server_real.c, over their steps.
use nss_i_assignments.Base.{
  inl, inr, ℕ, zero, suc, ◌<◌, ◌≡◌, refl, ◌∙◌, Option, none, some, List, Bytes, length, length-set,
  length-replicate, All-set, All-replicate, All-get_elem?, arith, Option-cases, find_slot,
  find_slot-some, count-set_same, count-replicate, subst, replicate,
}
use nss_i_assignments.CString.{snprintf}
use nss_i_assignments.Server.State.{
  Client, User, Group, ReplayEntry, Server, blank_client, blank_group, blank_replay, is_client,
  find_client_locked, max_clients, max_groups, max_replay,
}
use nss_i_assignments.Server.Replay.{replay_seen_or_add}
use nss_i_assignments.Server.Replay.Window.{IsRing, replay_seen_or_add-IsRing}
use nss_i_assignments.Server.Clients.{client_slot_add, client_slot_remove, clear_slot}
use nss_i_assignments.Server.Clients.Logins.{
  AreClients, client_slot_add-AreClients, client_slot_remove-AreClients, client_slot_add-Takes,
  Takes, already_active, no_slot, added,
}
use nss_i_assignments.Server.Groups.{put_group}
use nss_i_assignments.Server.Groups.Invariant.{
  HasGroups, create_group_locked-inv, invite_locked-inv, accept_locked-inv, key_locked-inv,
  create_group_locked-HasGroups, invite_locked-HasGroups, accept_locked-HasGroups,
  key_locked-HasGroups,
}
use nss_i_assignments.Server.Groups.Single.{AreGroups, IsGroup}
use nss_i_assignments.Server.Commands.{publish_key_locked}
use nss_i_assignments.Server.Interleaving.{
  IsServer, Step, nonce, login, logout, create, invite, accept, rekey, publish, Reach, here, next,
}

-- A step that writes one group touches nothing else.
put_group-IsServer :
    (s t : Server) (i : ℕ) (g : Group) → put_group s i g ≡ t → IsServer s → HasGroups t → IsServer t
put_group-IsServer s t i g same v h = record {
  ring = subst IsRing same (record {
    full_size = v.ring.full_size;
    next_inside = v.ring.next_inside;
    values_fit = v.ring.values_fit;
  });
  sessions = subst (λ (u : Server). AreClients u.clients) same v.sessions;
  rooms = h;
}

nonce-IsServer :
    (value : Bytes) (now : ℕ) (s : Server)
    → IsServer s
    → IsServer (replay_seen_or_add value now s).1
nonce-IsServer value now s v = record {
  ring = replay_seen_or_add-IsRing value now s v.ring;
  sessions = rw kept.0 v.sessions;
  rooms = record { full_size = rw kept.1 v.rooms.full_size; each = rw kept.1 v.rooms.each };
}
  where
    kept :
        ((replay_seen_or_add value now s).1.clients ≡ s.clients)
        × ((replay_seen_or_add value now s).1.groups ≡ s.groups)
    kept = unfold replay_seen_or_add in ground arith

-- The client table alone changes.
clients-IsServer :
    (s : Server) (clients : List Client)
    → IsServer s
    → AreClients clients
    → IsServer (record s { clients = clients })
clients-IsServer s clients v w = record {
  ring = record {
    full_size = v.ring.full_size;
    next_inside = v.ring.next_inside;
    values_fit = v.ring.values_fit;
  };
  sessions = w;
  rooms = record { full_size = v.rooms.full_size; each = v.rooms.each };
}

login-IsServer :
    (fd : ℕ) (user session : Bytes) (s : Server)
    → length user < 32
    → IsServer s
    → IsServer (client_slot_add fd user session s).1
login-IsServer fd user session s short v =
    go (client_slot_add-Takes fd user session s)
      (client_slot_add-AreClients fd user session s short v.sessions)
  where
    go : {r : Option ℕ × Server} → Takes fd user session s r → AreClients r.1.clients → IsServer r.1
    go (already_active e) w = v
    go (no_slot e full) w = v
    go (added {i} {c} e free) w = clients-IsServer s _ v w

clear_slot-IsServer :
    (s : Server) (r : Option (ℕ × Client))
    → IsServer s
    → AreClients (clear_slot s r).clients
    → IsServer (clear_slot s r)
clear_slot-IsServer s none v w = v
clear_slot-IsServer s (some (i, c)) v w = clients-IsServer s _ v w

logout-IsServer : (fd : ℕ) (s : Server) → IsServer s → IsServer (client_slot_remove fd s)
unfolding client_slot_remove
logout-IsServer fd s v = clear_slot-IsServer s _ v (client_slot_remove-AreClients fd s v.sessions)

publish-IsServer :
    (from key : Bytes) (s : Server) → IsServer s → IsServer (publish_key_locked from key s)
unfolding publish_key_locked
publish-IsServer from key s v = elim (Option-cases (find_client_locked from s.clients)) [
  | inl e ↦ rw e v
  | inr ((i, c), e) ↦
      let e' : find_slot (is_client from) s.clients ≡ some (i, c) =
        unfold find_client_locked in e in
      let (lt, at, test) = find_slot-some (is_client from) s.clients e' in
      rw e (
        clients-IsServer s _ v (record {
          full_size = length-set s.clients i _ ∙ v.sessions.full_size;
          names_fit = All-set _ s.clients i _ v.sessions.names_fit (
              All-get_elem? (λ (c : Client). length c.user < 32) s.clients i c v.sessions.names_fit
                at);
          one_login = λ name.
              rw
                (count-set_same (is_client name) s.clients i c
                  (record c { public_key = snprintf 2048 key }) at refl)
                (v.sessions.one_login name);
        }))
]

-- Each step keeps: a full ring of nonces with room for each, at most one active session for a user,
-- and for each group its id, its sizes and a member's right to be in it.
pub Step-IsServer : {s t : Server} → Step s t → IsServer s → IsServer t
Step-IsServer (nonce {s} value now) v = nonce-IsServer value now s v
Step-IsServer (login {s} fd user session short) v = login-IsServer fd user session s short v
Step-IsServer (logout {s} fd) v = logout-IsServer fd s v
Step-IsServer (create {s} {t} user name id e) v =
    let (i, g, _, _, same) = create_group_locked-inv user name s id t e in
    put_group-IsServer s t i _ same v (create_group_locked-HasGroups user name s id t v.rooms e)
Step-IsServer (invite {s} {t} from id to e) v =
    let (i, g, _, _, same) = invite_locked-inv from id to s t e in
    put_group-IsServer s t i _ same v (invite_locked-HasGroups from id to s t v.rooms e)
Step-IsServer (accept {s} {t} user id e) v =
    let (i, g, _, _, same) = accept_locked-inv user id s t e in
    put_group-IsServer s t i _ same v (accept_locked-HasGroups user id s t v.rooms e)
Step-IsServer (rekey {s} {t} user id random text names e) v =
    let (i, g, key, _, _, _, same, _, _) = key_locked-inv user id random s t text names e in
    put_group-IsServer s t i _ same v (key_locked-HasGroups user id random s t text names v.rooms e)
Step-IsServer (publish {s} from key) v = publish-IsServer from key s v

pub Reach-IsServer : {s t : Server} → IsServer s → Reach s t → IsServer t
Reach-IsServer v here = v
Reach-IsServer v (next r st) = Step-IsServer st (Reach-IsServer v r)

-- The static arrays at the start, with the users and the key that main has loaded.
abbrev pub initial : List User → Bytes → Server
initial users key = record {
  users = users;
  clients = replicate max_clients blank_client;
  groups = replicate max_groups blank_group;
  replays = replicate max_replay blank_replay;
  replay_next = 0;
  ticket_key = key;
}

blank_groups : (n k : ℕ) → AreGroups k (replicate n blank_group)
blank_groups zero k = tt
blank_groups (suc n) k = (blank, blank_groups n (suc k))
  where
    blank : IsGroup k blank_group
    blank = record {
      id_slot = λ h. cc;
      members_fit = omega arith;
      invites_fit = omega arith;
      member_names = tt;
      invite_names = tt;
      vouched = tt;
    }

initial-IsServer : (users : List User) (key : Bytes) → IsServer (initial users key)
initial-IsServer users key = record {
  ring = record {
    full_size = length-replicate 128 blank_replay;
    next_inside = omega arith;
    values_fit =
        All-replicate (λ (e : ReplayEntry). length e.value < 128) 128 blank_replay (omega arith);
  };
  sessions = record {
    full_size = length-replicate 32 blank_client;
    names_fit = All-replicate (λ (c : Client). length c.user < 32) 32 blank_client (omega arith);
    one_login = λ user. omega (arith, count-replicate (is_client user) 32 blank_client refl);
  };
  rooms = record { full_size = length-replicate 32 blank_group; each = blank_groups 32 0 };
}

-- Whatever the threads do, in whatever order they get the lock, where the names that log in have at
-- most 31 bytes: the ring is full and has room for each nonce in it, no user has two active
-- sessions, and each group has the id of its slot, at most 32 members and invitations, and no
-- member but its owner and users that were invited.
pub initial-Reach-IsServer :
    (users : List User) (key : Bytes) (t : Server) → Reach (initial users key) t → IsServer t
initial-Reach-IsServer users key t r = Reach-IsServer (initial-IsServer users key) r
