-- ===== src/Server/Groups/Invariant.antt =====
-- Ids, sizes and members of the groups of Assignment2/server_real.c, over the group handlers.
use nss_i_assignments.Base.{
  guard-true, ℕ, ◌+◌, ◌≡◌, ◌∙◌, true, not, Option, some, List, [], ◌∷◌, ◌++◌, Bytes, length,
  length-set, get_elem?, arith, find_slot, find_slot-some, subst, >>=-eq-some, guard,
}
use native.Mathlib.Nat.{zero-add}
use nss_i_assignments.CString.{snprintf, ℤ}
use nss_i_assignments.Server.State.{Group, Server, max_groups, is_group, find_group_locked}
use nss_i_assignments.Server.Groups.{
  member_max, group_has_member, put_group, new_group, create_group_locked, may_invite,
  invite_locked, may_accept, accept_locked, key_locked, key_text, copy_members,
}
use nss_i_assignments.Server.Groups.Single.{
  IsGroup, AreGroups, AreGroups-get_elem?, AreGroups-set, new_group-IsGroup, invited-IsGroup,
  accepted-IsGroup, keyed-IsGroup,
}

pub record HasGroups (s : Server) : Type 0 where
  pub full_size : length s.groups ≡ max_groups
  pub each : AreGroups 0 s.groups

put_group-HasGroups :
    (s : Server) (i : ℕ) (g : Group) → HasGroups s → IsGroup i g → HasGroups (put_group s i g)
put_group-HasGroups s i g v w = record {
  full_size = length-set s.groups i g ∙ v.full_size;
  each = AreGroups-set 0 s.groups i g v.each (rw (zero-add i) w);
}

-- The group that find_group_locked gives stands in its slot and is as the invariant says.
pub find_group_locked-IsGroup :
    (id : ℤ) (s : Server) (i : ℕ) (g : Group)
    → HasGroups s
    → find_group_locked id s.groups ≡ some (i, g)
    → IsGroup i g × (get_elem? s.groups i ≡ some g) × (is_group id g ≡ true)
unfolding find_group_locked
find_group_locked-IsGroup id s i g v e =
    let (lt, at, test) = find_slot-some (is_group id) s.groups e in
    (rw zero-add at (AreGroups-get_elem? 0 s.groups i g v.each at), at, test)

-- What a successful locked section says: the group was found, its test passed, and the rest follows.
pub create_group_locked-inv :
    (user : Bytes) (name : Option Bytes) (s : Server) (id : ℕ) (t : Server)
    → create_group_locked user name s ≡ some (id, t)
    → (i : ℕ) × (g : Group) × (find_slot (λ g. not g.used) s.groups ≡ some (i, g))
      × (id ≡ i + 1)
      × (put_group s i (new_group i user name g) ≡ t)
unfolding create_group_locked
create_group_locked-inv user name s id t h =
    let ((i, g), e, h₁) = >>=-eq-some (find_slot (λ g. not g.used) s.groups) _ h in
    (i, g, e, ground arith, ground arith)

pub create_group_locked-HasGroups :
    (user : Bytes) (name : Option Bytes) (s : Server) (id : ℕ) (t : Server)
    → HasGroups s
    → create_group_locked user name s ≡ some (id, t)
    → HasGroups t
create_group_locked-HasGroups user name s id t v h =
    let (i, g, _, _, same) = create_group_locked-inv user name s id t h in
    subst HasGroups same (put_group-HasGroups s i _ v (new_group-IsGroup i user name g))

pub invite_locked-inv :
    (from : Bytes) (id : ℤ) (to : Bytes) (s t : Server)
    → invite_locked from id to s ≡ some t
    → (i : ℕ) × (g : Group) × (find_group_locked id s.groups ≡ some (i, g))
      × (may_invite g from to ≡ true)
      × (put_group s i (record g { invites = g.invites ++ snprintf member_max to ∷ [] }) ≡ t)
unfolding invite_locked
invite_locked-inv from id to s t h =
    let ((i, g), e, h₁) = >>=-eq-some (find_group_locked id s.groups) _ h in
    let (u, ok, h₂) = >>=-eq-some (guard (may_invite g from to)) _ h₁ in
    (i, g, e, guard-true _ ok, ground arith)

pub accept_locked-inv :
    (user : Bytes) (id : ℤ) (s t : Server)
    → accept_locked user id s ≡ some t
    → (i : ℕ) × (g : Group) × (find_group_locked id s.groups ≡ some (i, g))
      × (may_accept g user ≡ true)
      × (put_group s i (record g { members = g.members ++ snprintf member_max user ∷ [] }) ≡ t)
unfolding accept_locked
accept_locked-inv user id s t h =
    let ((i, g), e, h₁) = >>=-eq-some (find_group_locked id s.groups) _ h in
    let (u, ok, h₂) = >>=-eq-some (guard (may_accept g user)) _ h₁ in
    (i, g, e, guard-true _ ok, ground arith)

pub key_locked-inv :
    (user : Bytes) (id : ℤ) (random : Option Bytes) (s t : Server) (text : Bytes)
    (names : List Bytes)
    → key_locked user id random s ≡ some (t, text, names)
    → (i : ℕ) × (g : Group) × (key : Bytes) × (find_group_locked id s.groups ≡ some (i, g))
      × (group_has_member g user ≡ true)
      × (random ≡ some key)
      × (put_group s i (record g { key = key; has_key = true }) ≡ t)
      × (key_text key ≡ text)
      × (copy_members g ≡ names)
unfolding key_locked
key_locked-inv user id random s t text names h =
    let ((i, g), e, h₁) = >>=-eq-some (find_group_locked id s.groups) _ h in
    let (u, ok, h₂) = >>=-eq-some (guard (group_has_member g user)) _ h₁ in
    let (key, r, h₃) = >>=-eq-some random _ h₂ in
    (i, g, key, e, guard-true _ ok, r, ground arith, ground arith, ground arith)

pub invite_locked-HasGroups :
    (from : Bytes) (id : ℤ) (to : Bytes) (s t : Server)
    → HasGroups s
    → invite_locked from id to s ≡ some t
    → HasGroups t
invite_locked-HasGroups from id to s t v h =
    let (i, g, e, ok, same) = invite_locked-inv from id to s t h in
    let (w, _, _) = find_group_locked-IsGroup id s i g v e in
    subst HasGroups same (put_group-HasGroups s i _ v (invited-IsGroup i g from to w ok))

pub accept_locked-HasGroups :
    (user : Bytes) (id : ℤ) (s t : Server)
    → HasGroups s
    → accept_locked user id s ≡ some t
    → HasGroups t
accept_locked-HasGroups user id s t v h =
    let (i, g, e, ok, same) = accept_locked-inv user id s t h in
    let (w, _, _) = find_group_locked-IsGroup id s i g v e in
    subst HasGroups same (put_group-HasGroups s i _ v (accepted-IsGroup i g user w ok))

pub key_locked-HasGroups :
    (user : Bytes) (id : ℤ) (random : Option Bytes) (s t : Server) (text : Bytes)
    (names : List Bytes)
    → HasGroups s
    → key_locked user id random s ≡ some (t, text, names)
    → HasGroups t
key_locked-HasGroups user id random s t text names v h =
    let (i, g, key, e, _, _, same, _, _) = key_locked-inv user id random s t text names h in
    let (w, _, _) = find_group_locked-IsGroup id s i g v e in
    subst HasGroups same (put_group-HasGroups s i _ v (keyed-IsGroup i g key w))
