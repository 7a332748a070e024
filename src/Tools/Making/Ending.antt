-- ===== src/Tools/Making/Ending.antt =====
-- create_dir of Assignment1/create_dir.c from its arguments to its end.
use nss_i_assignments.Base.{
  ℕ, zero, suc, ◌≡◌, refl, ◌∙◌, ap, inl, inr, Bool, true, false, ◌||◌, Option, none, some, List, [],
  ◌∷◌, Bytes, length, All, arith, Bool-cases, if◌then◌else◌,
}
use nss_i_assignments.CString.{ℤ, pos, negsuc, dirname}
use nss_i_assignments.CString.FilePath.Climbing.{is_top, Enough, Enough-up, Enough-start}
use nss_i_assignments.Acl.Checking.{get_usr_name, check_perm_from_acl}
use nss_i_assignments.Acl.Checking.Files.{check_perm_from_acl-files}
use nss_i_assignments.Tools.Options.{is_option, search_opts, separate_opts}
use nss_i_assignments.Tools.Options.Searching.{Searches, search_opts-Searches}
use nss_i_assignments.Tools.Acls.{all_unset}
use nss_i_assignments.Tools.Making.Growing.{
  Grows, MkdirIsNew, Grows-same, Runs, later-Runs, here-Runs, Fits,
}
use nss_i_assignments.Host.{Host, Kernel, seteuid, print}
use nss_i_assignments.Host.Ids.{seteuid-files}
use nss_i_assignments.Acl.Line.{get_acl_filename}
use nss_i_assignments.Tools.Making.{
  Calls, make_climb, make_here, make_climbed, make_one, make_all, make_checked, make_operands,
  make_opts, make_searched, create_dir_main, is_dir, make_names, make_usage,
}

-- The loop over the directories above ends and changes no file.
abbrev Climbed : Host → Option (Bool × Host) → Type 0
Climbed h o = (r : Bool × Host) × (o ≡ some r) × (r.1.files ≡ h.files)

first-files :
    (k : Kernel) (user : Option Bytes) (acl : Bytes) (first : Bool) (h : Host)
    → (if first then check_perm_from_acl k acl user b'w' true h else (true, h)).1.files ≡ h.files
first-files k user acl true h = check_perm_from_acl-files k acl user b'w' true h
first-files k user acl false h = refl

make_climb-Climbed :
    (k : Kernel) (user : Option Bytes) (f : ℕ) (first : Bool) (dir : Bytes) (h : Host)
    → Enough f dir
    → Climbed h (make_climb k user f first dir h)
unfolding make_climb
make_climb-Climbed k user zero first dir h (inl (_, e)) = absurd (omega arith)
make_climb-Climbed k user zero first dir h (inr (e, _)) = absurd (omega arith)
make_climb-Climbed k user (suc f) first dir h e = elim (Bool-cases (is_top dir)) [
  | inl t ↦ ((true, h), rw (t, make_climb), refl)
  | inr low ↦
      let acl : Bytes = get_acl_filename dir in
      let write : Bool × Host =
        if first then check_perm_from_acl k acl user b'w' true h else (true, h) in
      let kept : write.1.files ≡ h.files = first-files k user acl first h in
      let pass : Bool × Host = check_perm_from_acl k acl user b'x' true write.1 in
      let kept' : pass.1.files ≡ h.files =
        check_perm_from_acl-files k acl user b'x' true write.1 ∙ kept in
      elim (Bool-cases write.0) [
        | inr no₁ ↦ ((false, write.1), rw (low, make_climb, no₁), kept)
        | inl yes₁ ↦ elim (Bool-cases pass.0) [
          | inr no₂ ↦ ((false, pass.1), rw (low, make_climb, yes₁, no₂), kept')
          | inl yes₂ ↦
              let (r, ran, same) =
                make_climb-Climbed k user f false (dirname dir) pass.1 (Enough-up f dir low e) in
              (r, rw (low, make_climb, yes₁, yes₂) ran, same ∙ kept')
        ]
      ]
]

next-Runs :
    (h : Host) (b : Bool) (s : Host) (o : Option (ℤ × Host))
    → Grows h s
    → Runs s o
    → Runs h (elim b [ false ↦ some (negsuc 0, s) | true ↦ o ])
next-Runs h false s o g r = ((negsuc 0, s), refl, g)
next-Runs h true s o g r = later-Runs h s o g r

separate_opts-Fits : (args : List Bytes) → All Fits args → All Fits (separate_opts args)
unfolding separate_opts
separate_opts-Fits [] h = tt
separate_opts-Fits (arg ∷ args) h = elim (Bool-cases (is_option arg)) [
  | inl e ↦ rw (e, separate_opts) (separate_opts-Fits args h.1)
  | inr e ↦ rw (e, separate_opts) (h.0, separate_opts-Fits args h.1)
]

module _ (k : Kernel) (calls : Calls) (new : MkdirIsNew calls) (verbose : Bool) where
  make_climbed-Runs :
      (parents : Bool) (dir : Bytes) (h : Host) (o : Option (Bool × Host))
      → Fits dir
      → Climbed h o
      → Runs h (make_climbed k calls parents verbose dir o)
  make_climbed-Runs parents dir h none fits (r, e, same) = cc
  make_climbed-Runs parents dir h (some (false, s)) fits (r, e, same) =
      let is : (false, s) ≡ r = cc in
      (_, refl, Grows-same h s (ap (λ (x : Bool × Host). x.1.files) is ∙ same))
  make_climbed-Runs parents dir h (some (true, s)) fits (r, e, same) =
      let is : (true, s) ≡ r = cc in
      later-Runs h s (make_here k calls parents verbose dir s)
        (Grows-same h s (ap (λ (x : Bool × Host). x.1.files) is ∙ same))
        (here-Runs k calls new verbose parents dir s fits)

  one-Runs :
      (sudo parents : Bool) (dir : Bytes) (h : Host)
      → Fits dir
      → Runs h (make_one k calls sudo parents verbose dir h)
  unfolding make_one
  one-Runs sudo parents dir h fits = elim (Bool-cases (is_dir (h.files dir))) [
    | inl there ↦ rw there ((true, h), refl, Grows-same h h refl)
    | inr new₁ ↦ rw new₁ (asked_or_sudo sudo)
  ]
    where
      asked_or_sudo :
          (b : Bool)
          → Runs h (
              if b
              then make_here k calls parents verbose dir h
              else make_climbed k calls parents verbose dir (
                  make_climb k
                    (get_usr_name k h.ruid)
                    (suc (suc (length (dirname dir))))
                    true
                    (dirname dir)
                    h))
      asked_or_sudo true = here-Runs k calls new verbose parents dir h fits
      asked_or_sudo false = make_climbed-Runs parents dir h _ fits (
          make_climb-Climbed k (get_usr_name k h.ruid) (suc (suc (length (dirname dir)))) true
            (dirname dir) h (Enough-start dir fits.2))

  all-Runs :
      (sudo parents : Bool) (dirs : List Bytes) (h : Host)
      → All Fits dirs
      → Runs h (make_all k calls sudo parents verbose dirs h)
  unfolding make_all
  all-Runs sudo parents [] h fits = ((pos 0, h), refl, Grows-same h h refl)
  all-Runs sudo parents (dir ∷ dirs) h fits =
      let ((b, s), ran, g) = one-Runs sudo parents dir h fits.0 in
      rw (make_all, ran)
        (next-Runs h b s (make_all k calls sudo parents verbose dirs s) g
          (all-Runs sudo parents dirs s fits.1))

  checked-Runs :
      (sudo parents : Bool) (dirs : List Bytes) (r : Bool × Host)
      → All Fits dirs
      → Runs r.1 (make_checked k calls sudo parents verbose dirs r)
  checked-Runs sudo parents dirs (false, s) fits = (_, refl, Grows-same s s refl)
  checked-Runs sudo parents dirs (true, s) fits = all-Runs sudo parents dirs s fits

  named-Runs :
      (sudo parents : Bool) (program : Bytes) (dirs : List Bytes) (h : Host)
      → All Fits dirs
      → Runs h (
          if sudo
          then make_checked k calls sudo parents verbose dirs (
              check_perm_from_acl k (get_acl_filename program) (get_usr_name k h.ruid) b'x' false h)
          else make_all k calls sudo parents verbose dirs h)
  named-Runs false parents program dirs h fits = all-Runs false parents dirs h fits
  named-Runs true parents program dirs h fits =
      let answer : Bool × Host =
        check_perm_from_acl k (get_acl_filename program) (get_usr_name k h.ruid) b'x' false h in
      later-Runs h answer.1 (make_checked k calls true parents verbose dirs answer)
        (Grows-same h answer.1 (
          check_perm_from_acl-files k (get_acl_filename program) (get_usr_name k h.ruid) b'x' false
            h))
        (checked-Runs true parents dirs answer fits)

  operands-Runs :
      (sudo parents : Bool) (program : Bytes) (names : List Bytes) (h : Host)
      → All Fits names
      → Runs h (make_operands k calls sudo parents verbose program names h)
  operands-Runs sudo parents program [] h fits = named-Runs sudo parents program [] h tt
  operands-Runs sudo parents program (only ∷ []) h fits = (_, refl, Grows-same h h refl)
  operands-Runs sudo parents program (a ∷ b ∷ names) h fits =
      named-Runs sudo parents program (b ∷ names) h fits.1

module _ (k : Kernel) (calls : Calls) (new : MkdirIsNew calls) (sudo : Bool) where
  opts-Runs :
      (args : List Bytes) (vals : List Bool) (h : Host)
      → All Fits args
      → Runs h (make_opts k calls sudo args vals h)
  opts-Runs [] vals h fits = (_, refl, Grows-same h h refl)
  opts-Runs (a ∷ args) [] h fits = (_, refl, Grows-same h h refl)
  opts-Runs (a ∷ args) (p ∷ []) h fits = (_, refl, Grows-same h h refl)
  opts-Runs (a ∷ args) (p ∷ q ∷ []) h fits = (_, refl, Grows-same h h refl)
  opts-Runs (a ∷ args) (p ∷ q ∷ v ∷ []) h fits = (_, refl, Grows-same h h refl)
  opts-Runs (a ∷ args) (p ∷ q ∷ v ∷ w ∷ []) h fits = (_, refl, Grows-same h h refl)
  opts-Runs (a ∷ args) (p ∷ q ∷ v ∷ w ∷ x ∷ y ∷ vals) h fits = (_, refl, Grows-same h h refl)
  opts-Runs (a ∷ args) (p ∷ q ∷ v ∷ w ∷ true ∷ []) h fits =
      ((pos 0, print make_usage h), refl, Grows-same h (print make_usage h) refl)
  opts-Runs (a ∷ args) (p ∷ q ∷ v ∷ w ∷ false ∷ []) h fits =
      let s : Host = (seteuid h.ruid h).1 in
      let names : List Bytes = separate_opts (a ∷ args) in
      later-Runs h s (make_operands k calls sudo (p || q) (v || w) a names s)
        (Grows-same h s (seteuid-files h.ruid h))
        (operands-Runs k calls new (v || w) sudo (p || q) a names s
          (separate_opts-Fits (a ∷ args) fits))

  searched-Runs :
      (args : List Bytes) (h : Host) (r : Bool × List Bool × Host)
      → All Fits args
      → Searches h r
      → Runs h (make_searched k calls sudo args r)
  searched-Runs args h (false, vals, s) fits e =
      ((negsuc 0, print make_usage s), refl, Grows-same h (print make_usage s) e.files_kept)
  searched-Runs args h (true, vals, s) fits e =
      later-Runs h s (make_opts k calls sudo args vals s) (Grows-same h s e.files_kept)
        (opts-Runs args vals s fits)

-- create_dir ends, with no read or write outside of its buffer, and every file that was there is
-- afterwards as it was, unless its name is that of an ACL. The arguments are not empty, fit in the
-- buffer and do not start with exactly two slashes, and mkdir makes nothing where there is a file.
pub create_dir_main-Runs :
    (k : Kernel) (calls : Calls) (sudo : Bool) (args : List Bytes) (h : Host)
    → MkdirIsNew calls
    → All Fits args
    → Runs h (create_dir_main k calls sudo args h)
unfolding create_dir_main
create_dir_main-Runs k calls sudo args h new fits =
    searched-Runs k calls new sudo args h (search_opts args make_names all_unset h) fits
      (search_opts-Searches args make_names all_unset h)
