-- ===== src/Tools/Dirs/Climbing.antt =====
-- cd of Assignment1/cd.c: its loop ends, and where it goes.
use nss_i_assignments.Base.{
  ℕ, zero, suc, ◌≡◌, refl, sym, ◌∙◌, ap, subst, ◌⊎◌, inl, inr, ◌↔◌, Bool, true, false, Option, none,
  some, [], ◌∷◌, Bytes, codes, length, arith, Bool-cases,
}
use nss_i_assignments.CString.{pos, negsuc, dirname}
use nss_i_assignments.CString.FilePath.Climbing.{
  is_top, Enough, Enough-up, Climbable, dirname-two_slashes,
}
use nss_i_assignments.Host.{File, Host, Kernel, seteuid}
use nss_i_assignments.Host.Ids.{IsHome, as_caller, caller_allowed, seteuid_allowed, seteuid-files}
use nss_i_assignments.Acl.Line.{get_acl_filename}
use nss_i_assignments.Acl.Checking.{get_usr_name, check_perm_from_acl}
use nss_i_assignments.Acl.Checking.Decides.{
  Allows, check_perm_from_acl_iff, check_perm_from_acl-keeps,
}
use nss_i_assignments.Tools.Dirs.{
  cd_climb, Went, Chdir, cd_change, cd_as, cd_allowed, cd_climbed, cd_to, cd_main,
}

-- The ACL of the directory and of each above it, up to "." or "/", lets the user through.
pub data Climbs (k : Kernel) (user : Option Bytes) (h : Host) : Bytes → Type 0 where
  top : (dir : Bytes) → is_top dir ≡ true → Climbs k user h dir
  up :
      (dir : Bytes)
      → is_top dir ≡ false
      → Allows k (get_acl_filename dir) user b'x' true h
      → Climbs k user h (dirname dir)
      → Climbs k user h dir

Climbs-low :
    (k : Kernel) (user : Option Bytes) (h : Host) (dir : Bytes)
    → is_top dir ≡ false
    → Climbs k user h dir
    → Allows k (get_acl_filename dir) user b'x' true h × Climbs k user h (dirname dir)
Climbs-low k user h dir low (top _ t) = cc
Climbs-low k user h dir low (up _ _ a c) = (a, c)

-- The loop ends, leaves the host as it is, and answers by the ACLs.
abbrev Answers : Kernel → Option Bytes → ℕ → Bytes → Host → Type 0
Answers k user f dir h =
    (b : Bool) × (cd_climb k user f dir h ≡ some (b, h)) × ((b ≡ true) ↔ Climbs k user h dir)

cd_climb-Answers :
    (k : Kernel) (user : Option Bytes) (f : ℕ) (dir : Bytes) (h : Host)
    → IsHome h
    → Enough f dir
    → Answers k user f dir h
unfolding cd_climb
cd_climb-Answers k user zero dir h home (inl (_, e)) = absurd (omega arith)
cd_climb-Answers k user zero dir h home (inr (e, _)) = absurd (omega arith)
cd_climb-Answers k user (suc f) dir h home e = elim (Bool-cases (is_top dir)) [
  | inl t ↦ (true, rw (t, cd_climb), (λ _. top dir t, λ _. refl))
  | inr low ↦
      let answer : Bool × Host = check_perm_from_acl k (get_acl_filename dir) user b'x' true h in
      let iff = check_perm_from_acl_iff k (get_acl_filename dir) user b'x' true h in
      let same : answer.1 ≡ h =
        check_perm_from_acl-keeps k (get_acl_filename dir) user b'x' true h home in
      elim (Bool-cases answer.0) [
        | inr no₁ ↦ (
          false,
          rw (low, cd_climb, no₁) (ap (λ (s : Host). some (false, s)) same),
          (
            λ (t : false ≡ true). cc,
            λ c.
                let yes₁ : answer.0 ≡ true = iff.1 (Climbs-low k user h dir low c).0 in
                sym no₁ ∙ yes₁,
          ),
        )
        | inl yes₁ ↦
            let (b, ran, (forth, back)) =
              cd_climb-Answers k user f (dirname dir) h home (Enough-up f dir low e) in
            (
              b,
              rw (low, cd_climb, yes₁) (ap (cd_climb k user f (dirname dir)) same ∙ ran),
              (λ t. up dir low (iff.0 yes₁) (forth t), λ c. back (Climbs-low k user h dir low c).1),
            )
      ]
]

-- From a path of two slashes the loop does not end, whatever its fuel, where the ACL lets the user
-- through.
cd_climb-never :
    (k : Kernel) (user : Option Bytes) (f : ℕ) (h : Host)
    → IsHome h
    → Allows k (get_acl_filename (codes "//")) user b'x' true h
    → cd_climb k user f (codes "//") h ≡ none
unfolding cd_climb
cd_climb-never k user zero h home a = refl
cd_climb-never k user (suc f) h home a =
    let dir : Bytes = codes "//" in
    let answer : Bool × Host = check_perm_from_acl k (get_acl_filename dir) user b'x' true h in
    let yes : answer.0 ≡ true =
      (check_perm_from_acl_iff k (get_acl_filename dir) user b'x' true h).1 a in
    let same : answer.1 ≡ h =
      check_perm_from_acl-keeps k (get_acl_filename dir) user b'x' true h home in
    rw (dirname-two_slashes.1, cd_climb, yes)
      (ap (cd_climb k user f (dirname dir)) same
        ∙ ap (λ (d : Bytes). cd_climb k user f d h) dirname-two_slashes.0
        ∙ cd_climb-never k user f h home a)

-- Who may change to a directory; under sudo, who may run the command.
abbrev pub MayGo : Kernel → Bool → Bytes → Bytes → Host → Type 0
MayGo k true program dir h =
    Allows k (get_acl_filename program) (get_usr_name k h.ruid) b'x' false (as_caller h)
MayGo k false program dir h = Climbs k (get_usr_name k h.ruid) (as_caller h) dir

-- The user is denied, or chdir fails, or the process is in the directory.
pub record CdEnds (k : Kernel) (sudo : Bool) (program dir : Bytes) (h : Host) (w : Went)
    : Type 0 where
  pub files_kept : w.host.files ≡ h.files
  pub outcome :
      ((w.status ≡ pos 1) × (w.to ≡ none) × (¬ MayGo k sudo program dir h))
      ⊎ (((w.status ≡ negsuc 0) × (w.to ≡ none) × MayGo k sudo program dir h)
          ⊎ ((w.status ≡ pos 0) × (w.to ≡ some dir) × MayGo k sudo program dir h))

module _ (k : Kernel) (chdir : Chdir) (sudo : Bool) (program dir : Bytes) (h : Host) where
  changed :
      (s : Host)
      → s.files ≡ h.files
      → MayGo k sudo program dir h
      → CdEnds k sudo program dir h (cd_change chdir dir s)
  changed s e may = elim (Bool-cases (chdir.may s dir)) [
    | inl good ↦
        rw good (record {
          files_kept = seteuid-files s.ruid s ∙ e;
          outcome = inr (inr (refl, refl, may));
        })
    | inr bad ↦ rw bad (record { files_kept = e; outcome = inr (inl (refl, refl, may)) })
  ]

  as-Ends :
      (o : Option File)
      → MayGo k sudo program dir h
      → CdEnds k sudo program dir h (cd_as chdir dir (as_caller h) o)
  as-Ends none may = changed (as_caller h) refl may
  as-Ends (some f) may =
      changed (seteuid f.owner (as_caller h)).1 (seteuid-files f.owner (as_caller h)) may

  allowed-Ends :
      (user : Option Bytes) (b : Bool)
      → ((b ≡ true) ↔ MayGo k sudo program dir h)
      → CdEnds k sudo program dir h (cd_allowed chdir user dir (b, as_caller h))
  allowed-Ends user false (forth, back) = record {
    files_kept = refl;
    outcome = inl (refl, refl, λ may. let bad : false ≡ true = back may in cc);
  }
  allowed-Ends user true (forth, back) = as-Ends (h.files dir) (forth refl)

to-Ends :
    (k : Kernel) (chdir : Chdir) (sudo : Bool) (program dir : Bytes) (h : Host)
    → Climbable dir
    → (w : Went) × (cd_to k chdir sudo program dir (as_caller h) ≡ some w)
      × CdEnds k sudo program dir h w
to-Ends k chdir true program dir h one =
    let user = get_usr_name k h.ruid in
    let acl = get_acl_filename program in
    let answer : Bool × Host = check_perm_from_acl k acl user b'x' false (as_caller h) in
    (
      cd_allowed chdir user dir answer,
      refl,
      subst (λ (s : Host). CdEnds k true program dir h (cd_allowed chdir user dir (answer.0, s)))
          (sym (check_perm_from_acl-keeps k acl user b'x' false (as_caller h) (inl refl)))
          (allowed-Ends k chdir true program dir h user answer.0
            (check_perm_from_acl_iff k acl user b'x' false (as_caller h))),
    )
to-Ends k chdir false program dir h one =
    let user = get_usr_name k h.ruid in
    let (b, ran, iff) =
      cd_climb-Answers k user (suc (suc (length dir))) dir (as_caller h) (inl refl)
        (inr (omega arith, one)) in
    (
      cd_allowed chdir user dir (b, as_caller h),
      ap (cd_climbed chdir user dir) ran,
      allowed-Ends k chdir false program dir h user b iff,
    )

-- cd with a directory that does not start with exactly two slashes ends, changes no file, and goes to
-- that directory only if the user may:
-- the ACL of the directory and that of each directory above it, up to "." or "/", lets the user
-- through, or under sudo that of the command. The status is 1 exactly if the user may not; else it
-- is 0 if chdir succeeds and -1 if it fails.
pub cd_main-CdEnds :
    (k : Kernel) (chdir : Chdir) (sudo : Bool) (home program dir : Bytes) (h : Host)
    → Climbable dir
    → (w : Went) × (cd_main k chdir sudo home program (dir ∷ []) h ≡ some w)
      × CdEnds k sudo program dir h w
unfolding cd_main
cd_main-CdEnds k chdir sudo home program dir h one =
    rw (seteuid_allowed h.ruid h (caller_allowed h)) (to-Ends k chdir sudo program dir h one)
