-- ===== src/Tests/Joining.antt =====
-- Runs of the group handlers of Assignment2/server_real.c on small inputs.
use nss_i_assignments.Base.{
  some_injective, ℕ, ◌≡◌, ◌<◌, refl, subst, true, some, [], ◌∷◌, ◌++◌, Bytes, codes, length,
  find_slot, arith,
}
use nss_i_assignments.CString.{str_eq, pos}
use nss_i_assignments.Server.State.{Group, Server, blank_group, find_group_locked}
use nss_i_assignments.Server.Groups.{
  group_has_member, named, new_group, put_group, invite_locked, accept_locked,
}
use nss_i_assignments.Server.Groups.Joining.{invite_locked-accept_locked, accept_locked_again}
use nss_i_assignments.Server.Interleaving.Invariant.{initial}

abbrev alice : Bytes
alice = codes "alice"

abbrev bob : Bytes
bob = codes "bob"

-- A group of alice, to which she invites bob, who accepts.
abbrev team : Group
team = new_group 0 alice (some (codes "team")) blank_group

abbrev team_invited : Group
team_invited = record team { invites = bob ∷ [] }

abbrev team_joined : Group
team_joined = record team_invited { members = alice ∷ bob ∷ [] }

abbrev with_team : Server
with_team = put_group (initial [] []) 0 team

abbrev with_invited : Server
with_invited = put_group with_team 0 team_invited

abbrev with_joined : Server
with_joined = put_group with_invited 0 team_joined

invited : invite_locked alice (pos 1) bob with_team ≡ some with_invited
unfolding invite_locked find_group_locked find_slot named str_eq
invited = refl

joined : accept_locked bob (pos 1) with_invited ≡ some with_joined
unfolding accept_locked find_group_locked find_slot named str_eq
joined = refl

team_room :
    (i : ℕ) (g : Group)
    → find_group_locked (pos 1) with_team.groups ≡ some (i, g)
    → length g.members < 32
unfolding find_group_locked find_slot
team_room i g e =
    subst (λ (x : ℕ × Group). length x.1.members < 32) (some_injective e) (omega arith)

joined_room :
    (i : ℕ) (g : Group)
    → find_group_locked (pos 1) with_joined.groups ≡ some (i, g)
    → length g.members < 32
unfolding find_group_locked find_slot
joined_room i g e =
    subst (λ (x : ℕ × Group). length x.1.members < 32) (some_injective e) (omega arith)

invite_locked-accept_locked_example :
    (u : Server) × (i : ℕ) × (h : Group) × (accept_locked bob (pos 1) with_invited ≡ some u)
    × (find_group_locked (pos 1) u.groups ≡ some (i, h))
    × (group_has_member h bob ≡ true)
invite_locked-accept_locked_example =
    invite_locked-accept_locked alice (pos 1) bob with_team with_invited (omega arith) invited
      team_room

accept_locked_again_example :
    (u : Server) × (i : ℕ) × (g : Group) × (h : Group) × (accept_locked bob (pos 1) with_joined
      ≡ some u)
    × (find_group_locked (pos 1) with_invited.groups ≡ some (i, g))
    × (find_group_locked (pos 1) u.groups ≡ some (i, h))
    × (h.members ≡ (g.members ++ bob ∷ []) ++ bob ∷ [])
accept_locked_again_example =
    accept_locked_again bob (pos 1) with_invited with_joined (omega arith) joined joined_room
