-- ===== src/Server/Groups/Joining.antt =====
-- handle_group_invite and handle_group_accept of Assignment2/server_real.c, one after the other.
use nss_i_assignments.Base.{
  ℕ, ◌<◌, ◌≡◌, sym, ◌∙◌, ap, subst, true, some, List, [], ◌∷◌, ◌++◌, Bytes, length, arith,
  find_slot-some, find_slot-set_found,
}
use nss_i_assignments.CString.{ℤ, str_eq_self, snprintf, snprintf-fits}
use nss_i_assignments.Server.State.{Group, Server, is_group, find_group_locked}
use nss_i_assignments.Server.Groups.{
  member_max, named, group_has_member, put_group, may_accept, invite_locked, accept_locked,
}
use nss_i_assignments.Server.Groups.Invariant.{invite_locked-inv, accept_locked-inv}
use nss_i_assignments.Server.Groups.Single.{named-append}

-- The group that was written is the one that is found under the id.
find_group_locked-put_group :
    (id : ℤ) (s : Server) (i : ℕ) (g h : Group)
    → find_group_locked id s.groups ≡ some (i, g)
    → is_group id h ≡ true
    → find_group_locked id (put_group s i h).groups ≡ some (i, h)
unfolding find_group_locked
find_group_locked-put_group id s i g h e test =
    find_slot-set_found (is_group id) s.groups i g h e test

found-is_group :
    (id : ℤ) (s : Server) (i : ℕ) (g : Group)
    → find_group_locked id s.groups ≡ some (i, g)
    → is_group id g ≡ true
unfolding find_group_locked
found-is_group id s i g e = let (lt, at, test) = find_slot-some (is_group id) s.groups e in test

-- What accept_locked does with a group that it finds and that has a place for the user.
accept_locked-found :
    (user : Bytes) (id : ℤ) (s : Server) (i : ℕ) (g : Group)
    → find_group_locked id s.groups ≡ some (i, g)
    → may_accept g user ≡ true
    → accept_locked user id s
      ≡ some (put_group s i (record g { members = g.members ++ snprintf member_max user ∷ [] }))
unfolding accept_locked
accept_locked-found user id s i g e ok = rw (e, ok)

named-last :
    (user : Bytes) (xs : List Bytes)
    → length user < member_max
    → named user (xs ++ snprintf member_max user ∷ []) ≡ true
unfolding named
named-last user xs short =
    rw
      (
        named-append user xs (snprintf member_max user ∷ []),
        snprintf-fits member_max user short,
        str_eq_self user,
      )
      (ground arith)

-- A user that has been invited, under a name that fits, becomes a member by accepting, if the group
-- has a place then.
pub invite_locked-accept_locked :
    (from : Bytes) (id : ℤ) (to : Bytes) (s t : Server)
    → length to < member_max
    → invite_locked from id to s ≡ some t
    → ((i : ℕ) (g : Group) → find_group_locked id s.groups ≡ some (i, g) → length g.members < 32)
    → (u : Server) × (i : ℕ) × (h : Group) × (accept_locked to id t ≡ some u)
      × (find_group_locked id u.groups ≡ some (i, h))
      × (group_has_member h to ≡ true)
invite_locked-accept_locked from id to s t short invited room =
    let (i, g, e, ok, same) = invite_locked-inv from id to s t invited in
    let h : Group = record g { invites = g.invites ++ snprintf member_max to ∷ [] } in
    let k : Group = record h { members = h.members ++ snprintf member_max to ∷ [] } in
    let places : length g.members < 32 = room i g e in
    let asked : named to h.invites ≡ true = named-last to g.invites short in
    let test : is_group id g ≡ true = found-is_group id s i g e in
    let found : find_group_locked id (put_group s i h).groups ≡ some (i, h) =
      find_group_locked-put_group id s i g h e test in
    let accepted =
      accept_locked-found to id (put_group s i h) i h found (ground (arith, asked, places)) in
    (
      put_group (put_group s i h) i k,
      i,
      k,
      ap (accept_locked to id) (sym same) ∙ accepted,
      find_group_locked-put_group id (put_group s i h) i h k found test,
      named-last to h.members short,
    )

-- accept_locked keeps the invitation: a user that has just accepted can accept again, while the group
-- has a place, and is then twice in the list of members.
pub accept_locked_again :
    (user : Bytes) (id : ℤ) (s t : Server)
    → length user < member_max
    → accept_locked user id s ≡ some t
    → ((i : ℕ) (g : Group) → find_group_locked id t.groups ≡ some (i, g) → length g.members < 32)
    → (u : Server) × (i : ℕ) × (g : Group) × (h : Group) × (accept_locked user id t ≡ some u)
      × (find_group_locked id s.groups ≡ some (i, g))
      × (find_group_locked id u.groups ≡ some (i, h))
      × (h.members ≡ (g.members ++ user ∷ []) ++ user ∷ [])
accept_locked_again user id s t short accepted room =
    let (i, g, e, ok, same) = accept_locked-inv user id s t accepted in
    let h : Group = record g { members = g.members ++ snprintf member_max user ∷ [] } in
    let k : Group = record h { members = h.members ++ snprintf member_max user ∷ [] } in
    let test : is_group id g ≡ true = found-is_group id s i g e in
    let found : find_group_locked id (put_group s i h).groups ≡ some (i, h) =
      find_group_locked-put_group id s i g h e test in
    let there : find_group_locked id t.groups ≡ some (i, h) =
      subst (λ (x : Server). find_group_locked id x.groups ≡ some (i, h)) same found in
    let places : length h.members < 32 = room i h there in
    let again =
      accept_locked-found user id (put_group s i h) i h found (ground (arith, ok, places)) in
    (
      put_group (put_group s i h) i k,
      i,
      g,
      k,
      ap (accept_locked user id) (sym same) ∙ again,
      e,
      find_group_locked-put_group id (put_group s i h) i h k found test,
      ap (λ (n : Bytes). (g.members ++ n ∷ []) ++ n ∷ []) (snprintf-fits member_max user short),
    )
