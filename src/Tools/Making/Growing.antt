-- ===== src/Tools/Making/Growing.antt =====
-- create_dir of Assignment1/create_dir.c: that it ends, and what it leaves alone.
use nss_i_assignments.Base.{
  ◌<◌, ◌≡◌, ◌≢◌, refl, sym, ◌∙◌, ap, subst, inl, inr, Bool, true, false, Option, none, some, [],
  ◌∷◌, ◌++◌, ◌==◌, Bytes, length, lt→ltb, Bool-cases, Option-cases,
}
use nss_i_assignments.CString.FilePath.Climbing.{Climbable}
use nss_i_assignments.Host.{File, Host, Kernel, seteuid, set_file}
use nss_i_assignments.Host.Ids.{seteuid-files}
use nss_i_assignments.Host.Files.{set_file_ne}
use nss_i_assignments.Acl.Line.{get_acl_filename}
use nss_i_assignments.Acl.Creating.{change_uid}
use nss_i_assignments.Acl.Creating.Others.{create_acl_from_stat-others, change_uid-files}
use nss_i_assignments.Tools.Making.{
  Errno, eexist, enoent, other, Calls, made_dir, make_error, told, made, part_failed, make_part,
  ends_in_slash, make_parts, give_back, errno_after, goes_on, make_failed, make_here, is_dir,
}

-- Each file that is there stays as it is, unless it is an ACL.
abbrev pub Grows : Host → Host → Type 0
Grows h h' =
    (path : Bytes) (f : File)
    → h.files path ≡ some f
    → ((dir : Bytes) → path ≢ get_acl_filename dir)
    → h'.files path ≡ some f

-- mkdir makes nothing where there is a file.
abbrev pub MkdirIsNew : Calls → Type 0
MkdirIsNew calls = (h : Host) (path : Bytes) → calls.mkdir h path ≡ none → h.files path ≡ none

pub Grows-same : (h h' : Host) → h'.files ≡ h.files → Grows h h'
Grows-same h h' e path f there _ = ap (λ (fs : Bytes → Option File). fs path) e ∙ there

pub Grows-trans : (a b c : Host) → Grows a b → Grows b c → Grows a c
Grows-trans a b c g g' path f there no_acl = g' path f (g path f there no_acl) no_acl

told-files : (verbose : Bool) (dir : Bytes) (h : Host) → (told verbose dir h).files ≡ h.files
told-files false dir h = refl
told-files true dir h = refl

-- The run has a result, and its files have grown.
abbrev pub Runs : {A : Type 0} → Host → Option (A × Host) → Type 0
Runs {A} h o = (r : A × Host) × (o ≡ some r) × Grows h r.1

-- A path that is not empty, fits in the buffer, and does not start with exactly two slashes.
abbrev pub Fits : Bytes → Type 0
Fits dir = (dir ≢ []) × (length dir < 10240) × Climbable dir

pub later-Runs :
    {A : Type 0} (h h₁ : Host) (o : Option (A × Host)) → Grows h h₁ → Runs h₁ o → Runs h o
later-Runs h h₁ o g (r, e, g') = (r, e, Grows-trans h h₁ r.1 g g')

module _ (k : Kernel) (calls : Calls) (new : MkdirIsNew calls) (verbose : Bool) where
  made-Grows : (dir : Bytes) (h : Host) → calls.mkdir h dir ≡ none → Grows h (made k verbose dir h)
  made-Grows dir h e path f there no_acl =
      let apart : path ≢ dir = λ same.
        let gone : h.files path ≡ none = ap h.files same ∙ new h dir e in
        let bad : some f ≡ none = sym there ∙ gone in cc in
      let h₁ : Host = set_file dir (some (made_dir k h)) h in
      create_acl_from_stat-others k dir (told verbose dir h₁) path (no_acl dir)
      ∙ ap (λ (fs : Bytes → Option File). fs path) (told-files verbose dir h₁)
      ∙ set_file_ne dir path (some (made_dir k h)) h apart
      ∙ there

  part_failed-files :
      (whole : Bytes) (e : Errno) (h : Host) → (part_failed calls whole e h).1.files ≡ h.files
  part_failed-files whole eexist h = refl
  part_failed-files whole enoent h = refl
  part_failed-files whole (other n) h = refl

  make_part-Grows :
      (whole dir : Bytes) (h : Host) → Grows h (make_part k calls verbose whole dir h).1
  make_part-Grows whole dir h =
      let owner : Host = change_uid dir h in
      let first : Grows h owner = Grows-same h owner (change_uid-files dir h) in
      elim (Option-cases (calls.mkdir owner dir)) [
        | inl e ↦
            rw (make_part, e)
              (Grows-trans h owner (made k verbose dir owner) first (made-Grows dir owner e))
        | inr (x, e) ↦
            rw (make_part, e)
              (Grows-trans h owner (part_failed calls whole x owner).1 first (
                Grows-same owner (part_failed calls whole x owner).1
                  (part_failed-files whole x owner)))
      ]

  make_parts-Runs :
      (whole s rest : Bytes) (h : Host)
      → (s ++ rest) ≢ []
      → Runs h (make_parts k calls verbose whole s rest h)
  unfolding make_parts
  make_parts-Runs whole [] [] h ne = absurd (ne refl)
  make_parts-Runs whole (b ∷ s) [] h ne = elim (Bool-cases (ends_in_slash (b ∷ s))) [
    | inl e ↦ ((true, h), rw e, λ path f there _. there)
    | inr e ↦ (make_part k calls verbose whole (b ∷ s) h, rw e, make_part-Grows whole (b ∷ s) h)
  ]
  make_parts-Runs whole [] (c ∷ rest) h ne =
      make_parts-Runs whole (c ∷ []) rest h (λ (e : c ∷ rest ≡ []). cc)
  make_parts-Runs whole (b ∷ s) (c ∷ rest) h ne = elim (Bool-cases (c == b'/')) [
    | inr e ↦
        rw (e, make_parts)
          (make_parts-Runs whole (b ∷ (s ++ c ∷ [])) rest h
            (λ (x : b ∷ ((s ++ c ∷ []) ++ rest) ≡ []). cc))
    | inl e ↦
        let part : Bool × Host = make_part k calls verbose whole (b ∷ s) h in
        let grown : Grows h part.1 = make_part-Grows whole (b ∷ s) h in
        elim (Bool-cases part.0) [
          | inr bad ↦ ((false, part.1), rw (e, make_parts, bad), grown)
          | inl good ↦
              let (r, ran, g) =
                make_parts-Runs whole (b ∷ (s ++ c ∷ [])) rest part.1
                  (λ (x : b ∷ ((s ++ c ∷ []) ++ rest) ≡ []). cc) in
              (r, rw (e, make_parts, good) ran, Grows-trans h part.1 r.1 grown g)
        ]
  ]

  give_back-Runs : (h : Host) (o : Option (Bool × Host)) → Runs h o → Runs h (give_back o)
  give_back-Runs h none (r, e, g) = cc
  give_back-Runs h (some (false, s)) r = r
  give_back-Runs h (some (true, s)) (r, e, g) =
      let same : (true, s) ≡ r = cc in
      let grown : Grows h s = subst (λ (x : Bool × Host). Grows h x.1) (sym same) g in
      (
        (true, (seteuid s.ruid s).1),
        refl,
        Grows-trans h s (seteuid s.ruid s).1 grown
            (Grows-same s (seteuid s.ruid s).1 (seteuid-files s.ruid s)),
      )

  failed-Runs :
      (parents : Bool) (dir : Bytes) (e : Errno) (h : Host)
      → Fits dir
      → Runs h (make_failed k calls parents verbose dir e h)
  failed-Runs false dir e h fits =
      ((false, make_error calls dir e h), refl, Grows-same h (make_error calls dir e h) refl)
  failed-Runs true dir e h (ne, short, _) =
      let e' : Errno = errno_after calls dir e h (h.files dir) in
      elim (Bool-cases (goes_on e' (is_dir (h.files dir)))) [
        | inr stop ↦ (
          (false, make_error calls dir e' h),
          rw stop,
          Grows-same h (make_error calls dir e' h) refl,
        )
        | inl on ↦
            rw (on, lt→ltb _ _ short)
              (give_back-Runs h (make_parts k calls verbose dir [] dir h)
                (make_parts-Runs dir [] dir h ne))
      ]

  pub here-Runs :
      (parents : Bool) (dir : Bytes) (h : Host)
      → Fits dir
      → Runs h (make_here k calls parents verbose dir h)
  here-Runs parents dir h fits =
      let owner : Host = change_uid dir h in
      let first : Grows h owner = Grows-same h owner (change_uid-files dir h) in
      elim (Option-cases (calls.mkdir owner dir)) [
        | inl e ↦ (
          (true, made k verbose dir owner),
          rw (make_here, e),
          Grows-trans h owner (made k verbose dir owner) first (made-Grows dir owner e),
        )
        | inr (x, e) ↦
            rw (make_here, e)
              (later-Runs h owner (make_failed k calls parents verbose dir x owner) first
                (failed-Runs parents dir x owner fits))
      ]
