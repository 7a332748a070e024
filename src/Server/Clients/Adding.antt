-- ===== src/Server/Clients/Adding.antt =====
-- client_slot_add of Assignment2/server_real.c, by what the table holds before and after.
use nss_i_assignments.Base.{
  ℕ, ◌≡◌, ◌≢◌, refl, inl, inr, ◌⊎◌, true, false, not, Option, none, some, List, [], Bytes,
  get_elem?, get_elem?-set_self, get_elem?-set_ne, arith, find_slot-none, find_slot-some,
  find_slot-before, count, take, All, All-map,
}
use nss_i_assignments.CString.{str_eq, str_eq_iff, snprintf}
use nss_i_assignments.Server.State.{Client, Server, is_client, find_client_locked}
use nss_i_assignments.Server.Clients.{client_slot_add}
use nss_i_assignments.Server.Clients.Logins.{
  logins, Takes, already_active, no_slot, added, client_slot_add-Takes,
}

-- A slot in which the user is active.
pub record LoggedIn (user : Bytes) (clients : List Client) : Type 0 where
  pub index : ℕ
  pub client : Client
  pub stands : get_elem? clients index ≡ some client
  pub active : client.active ≡ true
  pub named : client.user ≡ user

-- The first slot that was free, and the table in which it holds the session of the user.
pub record Added (fd : ℕ) (user session : Bytes) (s : Server) (slot : Option ℕ) (s' : Server)
    : Type 0 where
  pub absent : logins user s.clients ≡ 0
  pub index : ℕ
  pub given : slot ≡ some index
  pub old : Client
  pub stood : get_elem? s.clients index ≡ some old
  pub free : old.active ≡ false
  pub first : All (λ (c : Client). c.active ≡ true) (take index s.clients)
  pub client : Client
  pub stands : get_elem? s'.clients index ≡ some client
  pub active : client.active ≡ true
  pub connection : client.fd ≡ fd
  pub name : client.user ≡ snprintf 32 user
  pub key : client.session ≡ session
  pub no_key : client.public_key ≡ []
  pub others : (j : ℕ) → index ≢ j → get_elem? s'.clients j ≡ get_elem? s.clients j
  pub rest : s' ≡ record s { clients = s'.clients }

abbrev pub Adds : ℕ → Bytes → Bytes → Server → Option ℕ × Server → Type 0
Adds fd user session s (slot, s') =
    ((slot ≡ none)
      × (s' ≡ s)
      × (LoggedIn user s.clients ⊎ (count (λ (c : Client). not c.active) s.clients ≡ 0)))
    ⊎ Added fd user session s slot s'

is_client-active :
    (user : Bytes) (c : Client) → is_client user c ≡ true → (c.active ≡ true) × (c.user ≡ user)
is_client-active user c h =
    let same : str_eq c.user user ≡ true = ground arith in
    (ground arith, (str_eq_iff c.user user).0 same)

-- client_slot_add gives -1 and changes nothing where a slot has the user as active, or where no slot
-- is free; else no slot has the user, and it gives the first slot that was free, which then holds the
-- connection, the name cut to 31 bytes, the session key and no public key and is active. Nothing
-- else changes.
pub client_slot_add-Adds :
    (fd : ℕ) (user session : Bytes) (s : Server)
    → Adds fd user session s (client_slot_add fd user session s)
client_slot_add-Adds fd user session s = go (client_slot_add-Takes fd user session s)
  where
    go : {r : Option ℕ × Server} → Takes fd user session s r → Adds fd user session s r
    go (already_active {i} {c} e) =
        let (lt, at, test) =
          find_slot-some (is_client user) s.clients {i = i} {x = c}
            (unfold find_client_locked in e) in
        let (active, named) = is_client-active user c test in
        inl (
          refl,
          refl,
          inl (record { index = i; client = c; stands = at; active = active; named = named }),
        )
    go (no_slot e full) =
        inl (refl, refl, inr (find_slot-none (λ (c : Client). not c.active) s.clients full))
    go (added {i} {c} e free) =
        let (lt, at, test) = find_slot-some (λ (c : Client). not c.active) s.clients free in
        inr (record {
          absent = find_slot-none (is_client user) s.clients (unfold find_client_locked in e);
          index = i;
          given = refl;
          old = c;
          stood = at;
          free = ground (arith, test);
          first =
              All-map (take i s.clients) (λ c p. ground arith)
                (find_slot-before (λ (c : Client). not c.active) s.clients free);
          client = _;
          stands = get_elem?-set_self s.clients i _ lt;
          active = refl;
          connection = refl;
          name = refl;
          key = refl;
          no_key = refl;
          others = λ j ne. get_elem?-set_ne s.clients i j _ ne;
          rest = refl;
        })
