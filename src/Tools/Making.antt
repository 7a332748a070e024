-- ===== src/Tools/Making.antt =====
-- Assignment1/create_dir.c.
pub mod Growing
pub mod Ending
use nss_i_assignments.Base.{
  ℕ, zero, suc, Bool, true, false, not, ◌&&◌, ◌||◌, Option, none, some, List, [], ◌∷◌, ◌++◌, ◌==◌,
  if◌then◌else◌, Bytes, codes, length, ltb, drop,
}
use nss_i_assignments.CString.{ℤ, pos, negsuc, dirname}
use nss_i_assignments.CString.FilePath.Climbing.{is_top}
use nss_i_assignments.Host.{File, Host, Kernel, seteuid, set_file, print}
use nss_i_assignments.Acl.Line.{get_acl_filename}
use nss_i_assignments.Acl.Checking.{get_usr_name, check_perm_from_acl}
use nss_i_assignments.Acl.Creating.{create_acl_from_stat, change_uid}
use nss_i_assignments.Tools.Options.{search_opts, separate_opts}
use nss_i_assignments.Tools.Reading.{shown}
use nss_i_assignments.Tools.Acls.{all_unset}

-- errno: EEXIST, ENOENT, or another.
pub data Errno : Type 0 where
  eexist : Errno
  enoent : Errno
  other : ℕ → Errno

-- How mkdir fails, if it does, what a stat that fails leaves in errno, and strerror.
pub record Calls : Type 0 where
  pub mkdir : Host → Bytes → Option Errno
  pub stat_errno : Host → Bytes → Errno
  pub strerror : Errno → Bytes

abbrev pub make_usage : Bytes
make_usage = codes "Usage: create_dir [-p|--parents] [-v|--verbose] DIRECTORY...\n"

abbrev pub made_dir : Kernel → Host → File
made_dir k h = record { owner = h.euid; mode = k.masked 511; is_dir = true; text = [] }

abbrev pub is_dir : Option File → Bool
is_dir none = false
is_dir (some f) = f.is_dir

-- The loop over the directories above: both permissions on each but the first.
unfoldable pub make_climb : Kernel → Option Bytes → ℕ → Bool → Bytes → Host → Option (Bool × Host)
make_climb k user zero first dir h = none
make_climb k user (suc f) first dir h = elim (is_top dir) [
  | true ↦ some (true, h)
  | false ↦
      let acl = get_acl_filename dir in
      let write : Bool × Host =
        if first then check_perm_from_acl k acl user b'w' true h else (true, h) in
      elim write.0 [
        | false ↦ some (false, write.1)
        | true ↦
            let pass = check_perm_from_acl k acl user b'x' true write.1 in
            elim pass.0 [
              | false ↦ some (false, pass.1)
              | true ↦ make_climb k user f false (dirname dir) pass.1
            ]
      ]
]

abbrev pub make_error : Calls → Bytes → Errno → Host → Host
make_error calls dir e h = print make_usage (
    print
      (codes "create_dir: cannot create directory '"
        ++ (dir ++ (codes "': " ++ (calls.strerror e ++ codes "\n"))))
      h)

abbrev pub told : Bool → Bytes → Host → Host
told false dir h = h
told true dir h = print (codes "create_dir: created directory '" ++ (dir ++ codes "'\n")) h

-- Behind a mkdir that succeeded.
abbrev pub made : Kernel → Bool → Bytes → Host → Host
made k verbose dir h =
    (create_acl_from_stat k dir (told verbose dir (set_file dir (some (made_dir k h)) h))).1

abbrev pub part_failed : Calls → Bytes → Errno → Host → Bool × Host
part_failed calls whole eexist h = (true, h)
part_failed calls whole e h = (false, make_error calls whole e h)

-- false where main returns -1; a directory that is there already is passed over.
abbrev pub make_part : Kernel → Calls → Bool → Bytes → Bytes → Host → Bool × Host
make_part k calls verbose whole dir h =
    let owner = change_uid dir h in
    elim (calls.mkdir owner dir) [
      | none ↦ (true, made k verbose dir owner)
      | some e ↦ part_failed calls whole e owner
    ]

abbrev pub ends_in_slash : Bytes → Bool
ends_in_slash [] = false
ends_in_slash (c ∷ []) = c == b'/'
ends_in_slash (c ∷ d ∷ s) = ends_in_slash (d ∷ s)

-- The loop over the bytes of the path; `s` is what the buffer holds. Reading before the buffer,
-- which happens for an empty path, is `none`.
unfoldable pub make_parts :
    Kernel → Calls → Bool → Bytes → Bytes → Bytes → Host → Option (Bool × Host)
make_parts k calls verbose whole [] [] h = none
make_parts k calls verbose whole (b ∷ s) [] h =
    if ends_in_slash (b ∷ s)
    then some (true, h)
    else some (make_part k calls verbose whole (b ∷ s) h)
make_parts k calls verbose whole [] (c ∷ rest) h = make_parts k calls verbose whole (c ∷ []) rest h
make_parts k calls verbose whole (b ∷ s) (c ∷ rest) h = elim (c == b'/') [
  | false ↦ make_parts k calls verbose whole ((b ∷ s) ++ c ∷ []) rest h
  | true ↦
      let part = make_part k calls verbose whole (b ∷ s) h in
      elim part.0 [
        | false ↦ some (false, part.1)
        | true ↦ make_parts k calls verbose whole ((b ∷ s) ++ c ∷ []) rest part.1
      ]
]

abbrev pub give_back : Option (Bool × Host) → Option (Bool × Host)
give_back none = none
give_back (some (false, h)) = some (false, h)
give_back (some (true, h)) = some (true, (seteuid h.ruid h).1)

-- errno after the stat, and whether it lets main go on to the parents.
abbrev pub errno_after : Calls → Bytes → Errno → Host → Option File → Errno
errno_after calls dir e h none = calls.stat_errno h dir
errno_after calls dir e h (some f) = e

abbrev pub goes_on : Errno → Bool → Bool
goes_on eexist dir_there = dir_there
goes_on enoent dir_there = true
goes_on (other n) dir_there = false

-- A path that does not fit in the buffer is written past its end, which is `none`.
abbrev pub make_failed : Kernel → Calls → Bool → Bool → Bytes → Errno → Host → Option (Bool × Host)
make_failed k calls false verbose dir e h = some (false, make_error calls dir e h)
make_failed k calls true verbose dir e h =
    let e' = errno_after calls dir e h (h.files dir) in
    if not (goes_on e' (is_dir (h.files dir)))
    then some (false, make_error calls dir e' h)
    else if not (ltb (length dir) 10240)
    then none
    else give_back (make_parts k calls verbose dir [] dir h)

abbrev pub make_here : Kernel → Calls → Bool → Bool → Bytes → Host → Option (Bool × Host)
make_here k calls parents verbose dir h =
    let owner = change_uid dir h in
    elim (calls.mkdir owner dir) [
      | none ↦ some (true, made k verbose dir owner)
      | some e ↦ make_failed k calls parents verbose dir e owner
    ]

abbrev pub make_climbed :
    Kernel → Calls → Bool → Bool → Bytes → Option (Bool × Host) → Option (Bool × Host)
make_climbed k calls parents verbose dir none = none
make_climbed k calls parents verbose dir (some (false, h)) = some (
  true,
  print
      (shown (get_usr_name k h.ruid)
        ++ (codes " denied permission to create_dir " ++ (dir ++ codes "\n")))
      h,
)
make_climbed k calls parents verbose dir (some (true, h)) = make_here k calls parents verbose dir h

-- One round of the loop over the operands; false where main returns -1.
unfoldable pub make_one : Kernel → Calls → Bool → Bool → Bool → Bytes → Host → Option (Bool × Host)
unfolding make_climb make_parts
make_one k calls sudo parents verbose dir h =
    if is_dir (h.files dir)
    then some (true, h)
    else if sudo
    then make_here k calls parents verbose dir h
    else make_climbed k calls parents verbose dir (
        make_climb k (get_usr_name k h.ruid) (suc (suc (length (dirname dir)))) true (dirname dir)
          h)

unfoldable pub make_all :
    Kernel → Calls → Bool → Bool → Bool → List Bytes → Host → Option (ℤ × Host)
unfolding make_one
make_all k calls sudo parents verbose [] h = some (pos 0, h)
make_all k calls sudo parents verbose (dir ∷ dirs) h =
    elim (make_one k calls sudo parents verbose dir h) [
      | none ↦ none
      | some (b, h') ↦ elim b [
        | false ↦ some (negsuc 0, h')
        | true ↦ make_all k calls sudo parents verbose dirs h'
      ]
    ]

abbrev pub make_checked :
    Kernel → Calls → Bool → Bool → Bool → List Bytes → Bool × Host → Option (ℤ × Host)
make_checked k calls sudo parents verbose dirs (false, h) = some (
  pos 1,
  print
      (codes "create_dir: "
        ++ (shown (get_usr_name k h.ruid) ++ codes " denied permission to create_dir\n"))
      h,
)
make_checked k calls sudo parents verbose dirs (true, h) =
    make_all k calls sudo parents verbose dirs h

abbrev pub make_operands :
    Kernel → Calls → Bool → Bool → Bool → Bytes → List Bytes → Host → Option (ℤ × Host)
make_operands k calls sudo parents verbose program (only ∷ []) h =
    some (negsuc 0, print make_usage (print (codes "create_dir: missing operand\n") h))
make_operands k calls sudo parents verbose program names h =
    let dirs = drop 1 names in
    if sudo
    then make_checked k calls sudo parents verbose dirs
        (check_perm_from_acl k (get_acl_filename program) (get_usr_name k h.ruid) b'x' false h)
    else make_all k calls sudo parents verbose dirs h

abbrev pub make_opts : Kernel → Calls → Bool → List Bytes → List Bool → Host → Option (ℤ × Host)
make_opts k calls sudo (program ∷ args) (p ∷ parents ∷ v ∷ verbose ∷ help ∷ []) h =
    if help
    then some (pos 0, print make_usage h)
    else make_operands k calls sudo (p || parents) (v || verbose) program
        (separate_opts (program ∷ args)) (seteuid h.ruid h).1
make_opts k calls sudo _ _ h = some (negsuc 0, h)

abbrev pub make_searched :
    Kernel → Calls → Bool → List Bytes → Bool × List Bool × Host → Option (ℤ × Host)
make_searched k calls sudo args (false, vals, h) = some (negsuc 0, print make_usage h)
make_searched k calls sudo args (true, vals, h) = make_opts k calls sudo args vals h

abbrev pub make_names : List Bytes
make_names = codes "-p" ∷ codes "--parents" ∷ codes "-v" ∷ codes "--verbose" ∷ codes "--help" ∷ []

-- `none` is a run with undefined behaviour, or one that has not ended.
unfoldable pub create_dir_main : Kernel → Calls → Bool → List Bytes → Host → Option (ℤ × Host)
unfolding make_all
create_dir_main k calls sudo args h =
    make_searched k calls sudo args (search_opts args make_names all_unset h)
