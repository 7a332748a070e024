-- ===== src/Server/Groups/Delivery.antt =====
-- Who receives the messages and the keys of a group, in Assignment2/server_real.c.
use nss_i_assignments.Base.{
  ℕ, ◌<◌, ◌≡◌, refl, ◌⊎◌, inl, inr, true, false, ◌&&◌, Option, none, some, List, [], ◌∷◌, ◌++◌, map,
  Bytes, codes, length, All, All-append, Has, Has-append_left, Has-append_right, arith, &&-true,
  Bool-cases, Option-cases,
}
use nss_i_assignments.CString.{
  str_eq, str_eq_iff, str_eq_self, snprintf, snprintf-fits, ℤ, print_int,
}
use nss_i_assignments.Common.Io.{line_max}
use nss_i_assignments.Server.State.{
  Group, Client, Server, Sent, find_group_locked, find_client_locked, send,
}
use nss_i_assignments.Server.Clients.{send_to_user}
use nss_i_assignments.Server.Groups.Invariant.{HasGroups, find_group_locked-IsGroup}
use nss_i_assignments.Server.Groups.{
  member_max, named, group_has_member, put_group, send_to_each, write_locked, handle_group_write,
  key_text,
}

-- The write goes to the session of a user in the list.
abbrev pub ToMember : List Bytes → Bytes → Server → Sent → Type 0
ToMember members msg s sent =
    (m : Bytes) × (i : ℕ) × (c : Client) × (named m members ≡ true)
    × (find_client_locked m s.clients ≡ some (i, c))
    × (sent ≡ (c.fd, msg))

-- The writes are one to each member that is logged in, and no others.
pub record ReachMembers (members : List Bytes) (msg : Bytes) (s : Server) (out : List Sent)
    : Type 0 where
  pub only_members : All (ToMember members msg s) out
  pub each_member :
      (m : Bytes) (i : ℕ) (c : Client)
      → named m members ≡ true
      → find_client_locked m s.clients ≡ some (i, c)
      → Has (c.fd, msg) out

send_to_user-ToMember :
    (m : Bytes) (members : List Bytes) (msg : Bytes) (s : Server)
    → named m members ≡ true
    → All (ToMember members msg s) (send_to_user m msg s)
unfolding send_to_user
send_to_user-ToMember m members msg s h = elim (Option-cases (find_client_locked m s.clients)) [
  | inl e ↦ rw e tt
  | inr ((i, c), e) ↦ rw (e, send_to_user) ((m, i, c, h, e, refl), tt)
]

send_to_each-ToMember :
    (ms members : List Bytes) (msg : Bytes) (s : Server)
    → ((m : Bytes) → named m ms ≡ true → named m members ≡ true)
    → All (ToMember members msg s) (send_to_each ms msg s)
unfolding send_to_each named
send_to_each-ToMember [] members msg s sub = tt
send_to_each-ToMember (m ∷ ms) members msg s sub =
    All-append _ (send_to_user m msg s) _
      (send_to_user-ToMember m members msg s (sub m (rw (str_eq_self m))))
      (send_to_each-ToMember ms members msg s (λ n h. sub n (ground arith)))

send_to_user-Has :
    (m : Bytes) (msg : Bytes) (s : Server) (i : ℕ) (c : Client)
    → find_client_locked m s.clients ≡ some (i, c)
    → Has (c.fd, msg) (send_to_user m msg s)
unfolding send_to_user
send_to_user-Has m msg s i c e = rw (e, send_to_user) (inl refl)

send_to_each-Has :
    (ms : List Bytes) (msg : Bytes) (s : Server) (m : Bytes) (i : ℕ) (c : Client)
    → named m ms ≡ true
    → find_client_locked m s.clients ≡ some (i, c)
    → Has (c.fd, msg) (send_to_each ms msg s)
unfolding send_to_each named
send_to_each-Has [] msg s m i c h e = cc
send_to_each-Has (x ∷ ms) msg s m i c h e = elim (Bool-cases (str_eq x m)) [
  | inl here ↦
      let same : find_client_locked x s.clients ≡ some (i, c) = rw ((str_eq_iff x m).0 here) e in
      Has-append_left (c.fd, msg) (send_to_user x msg s) _ (send_to_user-Has x msg s i c same)
  | inr there ↦
      Has-append_right (c.fd, msg) (send_to_user x msg s) _
        (send_to_each-Has ms msg s m i c (rw there at h) e)
]

send_to_each-ReachMembers :
    (members : List Bytes) (msg : Bytes) (s : Server)
    → ReachMembers members msg s (send_to_each members msg s)
send_to_each-ReachMembers members msg s = record {
  only_members = send_to_each-ToMember members members msg s (λ m h. h);
  each_member = send_to_each-Has members msg s;
}

map-snprintf :
    (ms : List Bytes) → All (λ m. length m < member_max) ms → map (snprintf member_max) ms ≡ ms
map-snprintf [] h = refl
map-snprintf (m ∷ ms) h = rw (snprintf-fits member_max m h.0, map-snprintf ms h.1)

abbrev pub group_message : ℤ → Bytes → Bytes → Bytes
group_message id from msg = snprintf line_max (
    codes "MSG group "
    ++ (print_int id ++ (codes " " ++ (from ++ (codes " " ++ (msg ++ codes "\n"))))))

-- The outcomes of handle_group_write.
pub data WritesGroup (fd : ℕ) (from : Bytes) (id : ℤ) (msg : Bytes) (s : Server)
    : List Sent → Type 0 where
  denied :
      ((i : ℕ) (g : Group)
        → find_group_locked id s.groups ≡ some (i, g)
        → (group_has_member g from && g.has_key) ≡ false)
      → WritesGroup fd from id msg s (send fd (codes "ERR group-write-denied\n"))
  delivered :
      {out : List Sent} (i : ℕ) (g : Group)
      → find_group_locked id s.groups ≡ some (i, g)
      → group_has_member g from ≡ true
      → g.has_key ≡ true
      → ReachMembers g.members (group_message id from msg) s out
      → WritesGroup fd from id msg s out

-- Where the groups keep their invariant, a message to a group is delivered to each member that is
-- logged in and to nobody else, if the sender is a member and the group has a key; else the sender
-- gets an error and nobody anything.
pub handle_group_write-WritesGroup :
    (fd : ℕ) (from : Bytes) (id : ℤ) (msg : Bytes) (s : Server)
    → HasGroups s
    → WritesGroup fd from id msg s (handle_group_write fd from id msg s)
unfolding handle_group_write write_locked
handle_group_write-WritesGroup fd from id msg s v =
    elim (Option-cases (find_group_locked id s.groups)) [
      | inl e ↦ rw e (denied (λ i g f. cc))
      | inr ((i, g), e) ↦ elim (Bool-cases (group_has_member g from && g.has_key)) [
        | inr no_right ↦ rw (e, no_right) (denied (λ j h f. ground arith))
        | inl right ↦
            let (w, _, _) = find_group_locked-IsGroup id s i g v e in
            rw (e, right, map-snprintf g.members w.member_names)
              (delivered i g e (&&-true _ _ right).0 (&&-true _ _ right).1
                (send_to_each-ReachMembers g.members (group_message id from msg) s))
      ]
    ]

abbrev pub key_message : ℤ → Bytes → Bytes
key_message id key =
    snprintf line_max
      (codes "GROUP_KEY " ++ (print_int id ++ (codes " " ++ (key_text key ++ codes "\n"))))

-- The outcomes of handle_group_key.
pub data KeysGroup (fd : ℕ) (user : Bytes) (id : ℤ) (random : Option Bytes) (s : Server)
    : Server × List Sent → Type 0 where
  denied :
      ((i : ℕ) (g : Group)
        → find_group_locked id s.groups ≡ some (i, g)
        → (group_has_member g user ≡ false) ⊎ (random ≡ none))
      → KeysGroup fd user id random s (s, send fd (codes "ERR group-key-failed\n"))
  keyed :
      {out : List Sent} (i : ℕ) (g : Group) (key : Bytes)
      → find_group_locked id s.groups ≡ some (i, g)
      → group_has_member g user ≡ true
      → random ≡ some key
      → ReachMembers g.members (key_message id key) s out
      → KeysGroup fd user id random s (put_group s i (record g { key = key; has_key = true }), out)
