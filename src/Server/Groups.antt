-- ===== src/Server/Groups.antt =====
-- The group handlers of Assignment2/server_real.c. What a handler does under the lock is a function
-- of its own, `none` where `ok` stays 0; the messages follow when the lock is free again.
pub mod Single
pub mod Invariant
pub mod Delivery
pub mod Joining
use nss_i_assignments.Base.{
  ℕ, ◌+◌, Bool, true, false, not, ◌&&◌, ◌||◌, Option, none, some, List, [], ◌∷◌, ◌++◌, map, ltb,
  Bytes, codes, length, set, find_slot, ◌>>=◌, ◌>>◌, guard,
}
use nss_i_assignments.CString.{str_eq, snprintf, ℤ, print_dec, print_int}
use nss_i_assignments.Common.Hex.{hex_encode}
use nss_i_assignments.Common.Io.{line_max}
use nss_i_assignments.Server.State.{
  Group, Server, Sent, find_group_locked, max_group_members, send, send_text,
}
use nss_i_assignments.Server.Clients.{send_to_user}

-- `char name[64]`, and `char [32]` for the names of users
abbrev pub group_name_max : ℕ
group_name_max = 64

abbrev pub member_max : ℕ
member_max = 32

-- The loop over a list of names.
unfoldable pub named : Bytes → List Bytes → Bool
named user [] = false
named user (m ∷ ms) = str_eq m user || named user ms

abbrev pub group_has_member : Group → Bytes → Bool
group_has_member g user = named user g.members

abbrev pub group_has_invite : Group → Bytes → Bool
group_has_invite g user = named user g.invites

abbrev pub put_group : Server → ℕ → Group → Server
put_group s i g = record s { groups = set s.groups i g }

abbrev pub name_or : Option Bytes → Bytes
name_or none = codes "group"
name_or (some name) = name

abbrev pub new_group : ℕ → Bytes → Option Bytes → Group → Group
new_group i user name g = record g {
  used = true;
  id = i + 1;
  name = snprintf group_name_max (name_or name);
  owner = snprintf member_max user;
  members = snprintf member_max user ∷ [];
  invites = [];
  has_key = false;
}

-- The slot that is taken, if one is free.
unfoldable pub create_group_locked : Bytes → Option Bytes → Server → Option (ℕ × Server)
create_group_locked user name s = do
  (i, g) ← find_slot (λ g. not g.used) s.groups
  some (i + 1, put_group s i (new_group i user name g))

abbrev answer_created : ℕ → Option Bytes → Server → Option (ℕ × Server) → Server × List Sent
answer_created fd name s none = (s, send fd (codes "ERR no-group-slots\n"))
answer_created fd name s (some (id, t)) = (
  t,
  send_text fd
      (codes "GROUP_CREATED " ++ (print_dec id ++ (codes " " ++ (name_or name ++ codes "\n")))),
)

unfoldable pub handle_create_group : ℕ → Bytes → Option Bytes → Server → Server × List Sent
unfolding create_group_locked
handle_create_group fd user name s = answer_created fd name s (create_group_locked user name s)

abbrev pub may_invite : Group → Bytes → Bytes → Bool
may_invite g from to =
    group_has_member g from
    && not (group_has_member g to)
    && not (group_has_invite g to)
    && ltb (length g.invites) max_group_members

unfoldable pub invite_locked : Bytes → ℤ → Bytes → Server → Option Server
invite_locked from group_id to s = do
  (i, g) ← find_group_locked group_id s.groups
  guard (may_invite g from to)
  some (put_group s i (record g { invites = g.invites ++ snprintf member_max to ∷ [] }))

abbrev answer_invited : ℕ → Bytes → ℤ → Bytes → Server → Option Server → Server × List Sent
answer_invited fd from group_id to s none = (s, send fd (codes "ERR invite-failed\n"))
answer_invited fd from group_id to s (some t) = (
  t,
  send_text fd (codes "INVITE_SENT " ++ (print_int group_id ++ (codes " " ++ (to ++ codes "\n"))))
      ++ send_to_user to
          (snprintf line_max
            (codes "GROUP_INVITE " ++ (from ++ (codes " " ++ (print_int group_id ++ codes "\n")))))
          t,
)

unfoldable pub handle_group_invite : ℕ → Bytes → ℤ → Bytes → Server → Server × List Sent
unfolding invite_locked send_to_user
handle_group_invite fd from group_id to s =
    answer_invited fd from group_id to s (invite_locked from group_id to s)

abbrev pub may_accept : Group → Bytes → Bool
may_accept g user = group_has_invite g user && ltb (length g.members) max_group_members

-- The invitation stays in its list.
unfoldable pub accept_locked : Bytes → ℤ → Server → Option Server
accept_locked user group_id s = do
  (i, g) ← find_group_locked group_id s.groups
  guard (may_accept g user)
  some (put_group s i (record g { members = g.members ++ snprintf member_max user ∷ [] }))

abbrev answer_accepted : ℕ → ℤ → Server → Option Server → Server × List Sent
answer_accepted fd group_id s none = (s, send_text fd (codes "ERR accept-failed\n"))
answer_accepted fd group_id s (some t) =
    (t, send_text fd (codes "GROUP_JOINED " ++ (print_int group_id ++ codes "\n")))

unfoldable pub handle_group_accept : ℕ → Bytes → ℤ → Server → Server × List Sent
unfolding accept_locked
handle_group_accept fd user group_id s =
    answer_accepted fd group_id s (accept_locked user group_id s)

-- The copy of the names that the messages go to.
abbrev pub copy_members : Group → List Bytes
copy_members g = map (snprintf member_max) g.members

-- `char key_hex[A2_KEY_LEN * 2 + 1]`; the result of hex_encode, 0 for a key of 32 bytes, is not read.
abbrev pub text_of : Option Bytes → Bytes
text_of none = []
text_of (some text) = text

pub key_text : Bytes → Bytes
key_text key = text_of (hex_encode key 65)

-- `random` is what random_bytes gives for the 32 bytes of a key.
unfoldable pub key_locked : Bytes → ℤ → Option Bytes → Server → Option (Server × Bytes × List Bytes)
key_locked user group_id random s = do
  (i, g) ← find_group_locked group_id s.groups
  guard (group_has_member g user)
  key ← random
  some (put_group s i (record g { key = key; has_key = true }), key_text key, copy_members g)

-- The loop of send_to_user over the members.
pub send_to_each : List Bytes → Bytes → Server → List Sent
send_to_each [] msg s = []
send_to_each (m ∷ ms) msg s = send_to_user m msg s ++ send_to_each ms msg s

abbrev answer_key : ℕ → ℤ → Server → Option (Server × Bytes × List Bytes) → Server × List Sent
answer_key fd group_id s none = (s, send fd (codes "ERR group-key-failed\n"))
answer_key fd group_id s (some (t, key_hex, members)) = (
  t,
  send_to_each members
      (snprintf line_max
        (codes "GROUP_KEY " ++ (print_int group_id ++ (codes " " ++ (key_hex ++ codes "\n")))))
      t,
)

unfoldable pub handle_group_key : ℕ → Bytes → ℤ → Option Bytes → Server → Server × List Sent
unfolding key_locked send_to_each
handle_group_key fd user group_id random s =
    answer_key fd group_id s (key_locked user group_id random s)

unfoldable pub write_locked : Bytes → ℤ → Server → Option (List Bytes)
write_locked from group_id s = do
  (i, g) ← find_group_locked group_id s.groups
  guard (group_has_member g from && g.has_key)
  some (copy_members g)

abbrev answer_write : ℕ → Bytes → ℤ → Bytes → Server → Option (List Bytes) → List Sent
answer_write fd from group_id msg s none = send fd (codes "ERR group-write-denied\n")
answer_write fd from group_id msg s (some members) =
    send_to_each members
      (snprintf line_max (
        codes "MSG group "
        ++ (print_int group_id ++ (codes " " ++ (from ++ (codes " " ++ (msg ++ codes "\n")))))))
      s

unfoldable pub handle_group_write : ℕ → Bytes → ℤ → Bytes → Server → List Sent
unfolding write_locked send_to_each
handle_group_write fd from group_id msg s =
    answer_write fd from group_id msg s (write_locked from group_id s)
