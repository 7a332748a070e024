-- ===== src/Server/Clients.antt =====
-- The client table of Assignment2/server_real.c: client_slot_add, client_slot_remove, send_to_user,
-- broadcast_message and handle_who.
pub mod Logins
pub mod Adding
use nss_i_assignments.Base.{
  ℕ, ◌+◌, ◌==◌, Bool, true, false, not, ◌&&◌, Option, none, some, List, [], ◌∷◌, ◌++◌,
  if◌then◌else◌, Bytes, codes, set, find_slot,
}
use nss_i_assignments.CString.{snprintf}
use nss_i_assignments.Server.State.{
  Client, Server, Sent, blank_client, find_client_locked, send, send_text,
}

-- `char user[32]`
abbrev pub user_max : ℕ
user_max = 32

abbrev pub new_client : ℕ → Bytes → Bytes → Client
new_client fd user session = record {
  active = true;
  fd = fd;
  user = snprintf user_max user;
  session = session;
  public_key = [];
}

-- The loop over the slots; `none` for -1.
pub fill_slot : ℕ → Bytes → Bytes → Server → Option (ℕ × Client) → Option ℕ × Server
fill_slot fd user session s none = (none, s)
fill_slot fd user session s (some (i, c)) =
    (some i, record s { clients = set s.clients i (new_client fd user session) })

pub refuse_second : ℕ → Bytes → Bytes → Server → Option (ℕ × Client) → Option ℕ × Server
unfolding fill_slot
refuse_second fd user session s (some c) = (none, s)
refuse_second fd user session s none =
    fill_slot fd user session s (find_slot (λ c. not c.active) s.clients)

unfoldable pub client_slot_add : ℕ → Bytes → Bytes → Server → Option ℕ × Server
unfolding refuse_second
client_slot_add fd user session s =
    refuse_second fd user session s (find_client_locked user s.clients)

abbrev pub clear_slot : Server → Option (ℕ × Client) → Server
clear_slot s none = s
clear_slot s (some (i, c)) = record s { clients = set s.clients i blank_client }

abbrev pub has_fd : ℕ → Client → Bool
has_fd fd c = c.active && c.fd == fd

unfoldable pub client_slot_remove : ℕ → Server → Server
client_slot_remove fd s = clear_slot s (find_slot (has_fd fd) s.clients)

abbrev send_to_slot : Bytes → Option (ℕ × Client) → List Sent
send_to_slot msg none = []
send_to_slot msg (some (i, c)) = send c.fd msg

-- send_to_user, which uses send_all.
unfoldable pub send_to_user : Bytes → Bytes → Server → List Sent
send_to_user user msg s = send_to_slot msg (find_client_locked user s.clients)

-- The loops over the active clients.
pub send_to_active : Bytes → List Client → List Sent
send_to_active text [] = []
send_to_active text (c ∷ cs) =
    (if c.active then send_text c.fd text else []) ++ send_to_active text cs

unfoldable pub broadcast_message : Bytes → Bytes → Server → List Sent
unfolding send_to_active
broadcast_message from msg s =
    send_to_active (codes "MSG all " ++ (from ++ (codes " " ++ (msg ++ codes "\n")))) s.clients

pub list_active : ℕ → List Client → List Sent
list_active fd [] = []
list_active fd (c ∷ cs) =
    (if c.active then send_text fd (codes " " ++ c.user) else []) ++ list_active fd cs

unfoldable pub handle_who : ℕ → Server → List Sent
unfolding list_active
handle_who fd s = send fd (codes "USERS") ++ (list_active fd s.clients ++ send fd (codes "\n"))
