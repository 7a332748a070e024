-- ===== src/Server/State.antt =====
-- The global state of Assignment2/server_real.c, the lookups over it, and what is sent to clients.
-- The arrays have the fixed sizes below; members and invites are the entries below the counts.
use nss_i_assignments.Base.{
  ℕ, Bool, false, ◌&&◌, Option, none, some, List, [], ◌∷◌, ◌==◌, Bytes, find_slot,
}
use nss_i_assignments.CString.{str_eq, ℤ, pos, negsuc}
use nss_i_assignments.Common.Io.{send_fmt}

abbrev pub max_clients : ℕ
max_clients = 32

abbrev pub max_groups : ℕ
max_groups = 32

abbrev pub max_group_members : ℕ
max_group_members = 32

abbrev pub max_replay : ℕ
max_replay = 128

abbrev pub ticket_ttl : ℕ
ticket_ttl = 3600

pub record User : Type 0 where
  pub name : Bytes
  pub password : Bytes
  pub root : Bytes
  pub long_key : Bytes

pub record Client : Type 0 where
  pub active : Bool
  pub fd : ℕ
  pub user : Bytes
  pub session : Bytes
  pub public_key : Bytes

pub record Group : Type 0 where
  pub used : Bool
  pub id : ℕ
  pub name : Bytes
  pub owner : Bytes
  pub members : List Bytes
  pub invites : List Bytes
  pub key : Bytes
  pub has_key : Bool

pub record ReplayEntry : Type 0 where
  pub value : Bytes
  pub seen : ℕ

pub record Server : Type 0 where
  pub users : List User
  pub clients : List Client
  pub groups : List Group
  pub replays : List ReplayEntry
  pub replay_next : ℕ
  pub ticket_key : Bytes

-- What the static arrays hold at the start.
abbrev pub blank_client : Client
blank_client = record { active = false; fd = 0; user = []; session = []; public_key = [] }

abbrev pub blank_group : Group
blank_group = record {
  used = false;
  id = 0;
  name = [];
  owner = [];
  members = [];
  invites = [];
  key = [];
  has_key = false;
}

abbrev pub blank_replay : ReplayEntry
blank_replay = record { value = []; seen = 0 }

-- A write to a descriptor.
abbrev pub Sent : Type 0
Sent = ℕ × Bytes

-- send_all
abbrev pub send : ℕ → Bytes → List Sent
send fd text = (fd, text) ∷ []

-- send_fmt, whose result no caller reads.
abbrev pub send_formatted : ℕ → Option Bytes → List Sent
send_formatted fd none = []
send_formatted fd (some text) = send fd text

abbrev pub send_text : ℕ → Bytes → List Sent
send_text fd text = send_formatted fd (send_fmt text)

abbrev pub is_client : Bytes → Client → Bool
is_client name c = c.active && str_eq c.user name

unfoldable pub find_client_locked : Bytes → List Client → Option (ℕ × Client)
find_client_locked name = find_slot (is_client name)

-- A group id is what atoi gave, so it may be negative.
abbrev pub same_id : ℤ → ℕ → Bool
same_id (pos n) id = id == n
same_id (negsuc n) id = false

abbrev pub is_group : ℤ → Group → Bool
is_group id g = g.used && same_id id g.id

unfoldable pub find_group_locked : ℤ → List Group → Option (ℕ × Group)
find_group_locked id = find_slot (is_group id)

-- find_user gives the index or -1; here the entry comes with it.
unfoldable pub find_user : Bytes → List User → Option (ℕ × User)
find_user name = find_slot (λ u. str_eq u.name name)
