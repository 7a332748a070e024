-- ===== src/Server/Groups/Single.antt =====
-- One group of Assignment2/server_real.c, and the table of groups with one of them replaced.
use nss_i_assignments.Base.{
  ℕ, zero, suc, ◌+◌, ◌≤◌, ◌<◌, ◌≡◌, refl, ◌⊎◌, inl, inr, true, ◌||◌, Option, some, List, [], ◌∷◌,
  ◌++◌, Bytes, set, length, length-append, get_elem?, All, All-append, All-map, arith, Bool-cases,
  subst,
}
use nss_i_assignments.CString.{str_eq, str_eq_iff, snprintf, snprintf-fits, length-snprintf-lt}
use nss_i_assignments.Server.State.{Group, max_group_members}
use nss_i_assignments.Server.Groups.{member_max, named, new_group, may_invite, may_accept}

-- The group in slot `i`. A member owns it, or stands in its list of invitations.
pub record IsGroup (i : ℕ) (g : Group) : Type 0 where
  pub id_slot : g.used ≡ true → g.id ≡ i + 1
  pub members_fit : length g.members ≤ max_group_members
  pub invites_fit : length g.invites ≤ max_group_members
  pub member_names : All (λ m. length m < member_max) g.members
  pub invite_names : All (λ m. length m < member_max) g.invites
  pub vouched : All (λ m. (m ≡ g.owner) ⊎ (named m g.invites ≡ true)) g.members

abbrev pub AreGroups : ℕ → List Group → Type 0
AreGroups i [] = Unit
AreGroups i (g ∷ gs) = IsGroup i g × AreGroups (suc i) gs

pub named-append :
    (user : Bytes) (xs ys : List Bytes) → named user (xs ++ ys) ≡ (named user xs || named user ys)
unfolding named
named-append user [] ys = refl
named-append user (x ∷ xs) ys = ground (arith, named-append user xs ys)

-- Only a name that fits in its array is found among such names.
pub named_fits :
    (user : Bytes) (xs : List Bytes)
    → All (λ m. length m < member_max) xs
    → named user xs ≡ true
    → length user < member_max
unfolding named
named_fits user [] all h = cc
named_fits user (x ∷ xs) all h = elim (Bool-cases (str_eq x user)) [
  | inl e ↦ subst (λ (n : Bytes). length n < member_max) ((str_eq_iff x user).0 e) all.0
  | inr e ↦ named_fits user xs all.1 (rw e at h)
]

pub AreGroups-get_elem? :
    (k : ℕ) (gs : List Group) (i : ℕ) (g : Group)
    → AreGroups k gs
    → get_elem? gs i ≡ some g
    → IsGroup (k + i) g
AreGroups-get_elem? k [] i g v e = absurd (cc)
AreGroups-get_elem? k (x ∷ gs) zero g v e =
    let same : x ≡ g = cc in let at : k ≡ k + 0 = omega arith in rw (← same, ← at) v.0
AreGroups-get_elem? k (x ∷ gs) (suc i) g v e =
    let at : suc k + i ≡ k + suc i = omega arith in
    rw (← at) (AreGroups-get_elem? (suc k) gs i g v.1 e)

pub AreGroups-set :
    (k : ℕ) (gs : List Group) (i : ℕ) (g : Group)
    → AreGroups k gs
    → IsGroup (k + i) g
    → AreGroups k (set gs i g)
AreGroups-set k [] i g v w = tt
AreGroups-set k (x ∷ gs) zero g v w = let at : k + 0 ≡ k = omega arith in (rw at at w, v.1)
AreGroups-set k (x ∷ gs) (suc i) g v w =
    let at : k + suc i ≡ suc k + i = omega arith in
    (v.0, AreGroups-set (suc k) gs i g v.1 (rw at at w))

pub new_group-IsGroup :
    (i : ℕ) (user : Bytes) (name : Option Bytes) (g : Group) → IsGroup i (new_group i user name g)
new_group-IsGroup i user name g = record {
  id_slot = λ _. refl;
  members_fit = omega arith;
  invites_fit = omega arith;
  member_names = (length-snprintf-lt member_max user (omega arith), tt);
  invite_names = tt;
  vouched = (inl refl, tt);
}

pub invited-IsGroup :
    (i : ℕ) (g : Group) (from to : Bytes)
    → IsGroup i g
    → may_invite g from to ≡ true
    → IsGroup i (record g { invites = g.invites ++ snprintf member_max to ∷ [] })
invited-IsGroup i g from to v ok = record {
  id_slot = v.id_slot;
  members_fit = v.members_fit;
  invites_fit = omega (arith, room, length-append g.invites (snprintf member_max to ∷ []));
  member_names = v.member_names;
  invite_names =
      All-append _ g.invites _ v.invite_names (length-snprintf-lt member_max to (omega arith), tt);
  vouched = All-map g.members (λ m h. keeps m h) v.vouched;
}
  where
    room : length g.invites < max_group_members
    room = ground arith

    keeps :
        (m : Bytes)
        → (m ≡ g.owner) ⊎ (named m g.invites ≡ true)
        → (m ≡ g.owner) ⊎ (named m (g.invites ++ snprintf member_max to ∷ []) ≡ true)
    keeps m (inl e) = inl e
    keeps m (inr e) = inr (rw (named-append m g.invites (snprintf member_max to ∷ []), e) refl)

pub accepted-IsGroup :
    (i : ℕ) (g : Group) (user : Bytes)
    → IsGroup i g
    → may_accept g user ≡ true
    → IsGroup i (record g { members = g.members ++ snprintf member_max user ∷ [] })
accepted-IsGroup i g user v ok = record {
  id_slot = v.id_slot;
  members_fit = omega (arith, room, length-append g.members (snprintf member_max user ∷ []));
  invites_fit = v.invites_fit;
  member_names =
      All-append _ g.members _ v.member_names
        (length-snprintf-lt member_max user (omega arith), tt);
  invite_names = v.invite_names;
  vouched = All-append _ g.members _ v.vouched (
    inr (
        rw (snprintf-fits member_max user (named_fits user g.invites v.invite_names invited))
          invited),
    tt,
  );
}
  where
    room : length g.members < max_group_members
    room = ground arith

    invited : named user g.invites ≡ true
    invited = ground arith

pub keyed-IsGroup :
    (i : ℕ) (g : Group) (key : Bytes)
    → IsGroup i g
    → IsGroup i (record g { key = key; has_key = true })
keyed-IsGroup i g key v = record {
  id_slot = v.id_slot;
  members_fit = v.members_fit;
  invites_fit = v.invites_fit;
  member_names = v.member_names;
  invite_names = v.invite_names;
  vouched = v.vouched;
}
