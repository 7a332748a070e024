-- ===== src/Server/Clients/Logins.antt =====
-- The active slots of the client table of Assignment2/server_real.c, and their number for each user.
use nss_i_assignments.Base.{
  ℕ, ◌≤◌, ◌<◌, ◌≡◌, ◌∙◌, inl, inr, Bool, true, false, not, Option, none, some, List, Bytes, set,
  length, length-set, get_elem?, All, All-set, arith, Option-cases, find_slot, find_slot-none,
  find_slot-some, count, count-set,
}
use nss_i_assignments.CString.{str_eq_iff, snprintf, snprintf-fits, length-snprintf-lt}
use nss_i_assignments.Server.State.{
  Client, Server, max_clients, blank_client, is_client, find_client_locked,
}
use nss_i_assignments.Server.Clients.{
  user_max, new_client, fill_slot, refuse_second, client_slot_add, has_fd, client_slot_remove,
}

-- How many slots a user is active in.
abbrev pub logins : Bytes → List Client → ℕ
logins user = count (is_client user)

pub record AreClients (clients : List Client) : Type 0 where
  pub full_size : length clients ≡ max_clients
  pub names_fit : All (λ c. length c.user < user_max) clients
  pub one_login : (user : Bytes) → logins user clients ≤ 1

-- The branches of client_slot_add.
pub data Takes (fd : ℕ) (user session : Bytes) (s : Server) : Option ℕ × Server → Type 0 where
  already_active :
      {i : ℕ} {c : Client}
      → find_client_locked user s.clients ≡ some (i, c)
      → Takes fd user session s (none, s)
  no_slot :
      find_client_locked user s.clients ≡ none
      → find_slot (λ c. not c.active) s.clients ≡ none
      → Takes fd user session s (none, s)
  added :
      {i : ℕ} {c : Client}
      → find_client_locked user s.clients ≡ none
      → find_slot (λ c. not c.active) s.clients ≡ some (i, c)
      → Takes fd user session s
          (some i, record s { clients = set s.clients i (new_client fd user session) })

pub client_slot_add-Takes :
    (fd : ℕ) (user session : Bytes) (s : Server)
    → Takes fd user session s (client_slot_add fd user session s)
unfolding client_slot_add refuse_second fill_slot
client_slot_add-Takes fd user session s = elim (Option-cases (find_client_locked user s.clients)) [
  | inr (c, e) ↦ rw e (already_active e)
  | inl e ↦ elim (Option-cases (find_slot (λ c. not c.active) s.clients)) [
    | inl full ↦ rw (e, full) (no_slot e full)
    | inr (c, free) ↦ rw (e, free) (added e free)
  ]
]

not-true : (b : Bool) → not b ≡ true → b ≡ false
not-true b h = ground arith

-- A slot that was not active is given to `user`.
add-one_login :
    (fd i : ℕ) (user session name : Bytes) (c : Client) (clients : List Client)
    → length user < user_max
    → logins user clients ≡ 0
    → logins name clients ≤ 1
    → get_elem? clients i ≡ some c
    → c.active ≡ false
    → logins name (set clients i (new_client fd user session)) ≤ 1
add-one_login fd i user session name c clients short absent one e free = ground (
  arith,
  count-set (is_client name) clients i c (new_client fd user session) e,
  str_eq_iff (snprintf user_max user) name,
  snprintf-fits user_max user short,
)

-- Adding a client keeps at most one login for each user.
pub client_slot_add-AreClients :
    (fd : ℕ) (user session : Bytes) (s : Server)
    → length user < user_max
    → AreClients s.clients
    → AreClients (client_slot_add fd user session s).1.clients
client_slot_add-AreClients fd user session s short v = go (client_slot_add-Takes fd user session s)
  where
    go : {r : Option ℕ × Server} → Takes fd user session s r → AreClients r.1.clients
    go (already_active e) = v
    go (no_slot e full) = v
    go (added {i} {c} e free) =
        let (lt, at, test) = find_slot-some (λ (c : Client). not c.active) s.clients free in
        record {
          full_size = length-set s.clients i _ ∙ v.full_size;
          names_fit =
              All-set _ s.clients i _ v.names_fit (length-snprintf-lt user_max user (omega arith));
          one_login = λ name.
              add-one_login fd i user session name c s.clients short
                (find_slot-none (is_client user) s.clients (unfold find_client_locked in e))
                (v.one_login name) at (not-true c.active test);
        }

pub client_slot_remove-AreClients :
    (fd : ℕ) (s : Server) → AreClients s.clients → AreClients (client_slot_remove fd s).clients
unfolding client_slot_remove
client_slot_remove-AreClients fd s v = elim (Option-cases (find_slot (has_fd fd) s.clients)) [
  | inl e ↦ rw e v
  | inr ((i, c), e) ↦
      let (lt, at, test) = find_slot-some (has_fd fd) s.clients e in
      rw e (record {
        full_size = length-set s.clients i _ ∙ v.full_size;
        names_fit = All-set _ s.clients i _ v.names_fit (omega arith);
        one_login = λ name.
            ground
              (arith, v.one_login name, count-set (is_client name) s.clients i c blank_client at);
      })
]
