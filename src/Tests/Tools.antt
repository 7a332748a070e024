-- ===== src/Tests/Tools.antt =====
-- Runs of the commands of Assignment1 on small inputs.
use nss_i_assignments.Base.{
  ℕ, ◌≡◌, ◌≢◌, ◌⊎◌, refl, Bool, ◌&&◌, true, false, none, some, Option, List, [], ◌∷◌, Bytes, codes,
  All, Has, arith,
}
use nss_i_assignments.CString.{ℤ, dirname, basename, str_eq, contains, strtok, fgets_lines}
use nss_i_assignments.CString.FilePath.{two_slashes}
use nss_i_assignments.CString.FilePath.Climbing.{is_top}
use nss_i_assignments.Acl.Checking.{check_perm_from_acl}
use nss_i_assignments.Acl.Creating.{create_acl_from_stat, change_uid}
use nss_i_assignments.Tools.Options.{search_args, separate_opts}
use nss_i_assignments.Host.{File, Host}
use nss_i_assignments.Acl.Line.{get_acl_filename}
use nss_i_assignments.Tools.Options.{split_opts}
use nss_i_assignments.Tools.Options.Tokens.{Splits, split_opts-Splits}
use nss_i_assignments.Tools.Sudo.{allowed_names, Run, Child, exited, sudo_main}
use nss_i_assignments.Tools.Sudo.Permitted.{Gives, sudo_main-runs}
use nss_i_assignments.Tools.Reading
use nss_i_assignments.Tools.Reading.{fget_main}
use nss_i_assignments.Tools.Reading.Guarded.{FgetEnds, fget_main-FgetEnds}
use nss_i_assignments.Tools.Writing
use nss_i_assignments.Tools.Writing.{fput_main}
use nss_i_assignments.Tools.Writing.Outcomes.{FputEnds}
use nss_i_assignments.Tools.Writing.Guarded.{fput_main-FputEnds}
use nss_i_assignments.Tools.Acls.{setacl_main}
use nss_i_assignments.Tools.Acls.Guarded.{SetaclEnds, setacl_main-SetaclEnds}
use nss_i_assignments.Tools.Dirs.{Chdir, Went, cd_main}
use nss_i_assignments.Tools.Dirs.Climbing.{CdEnds, cd_main-CdEnds}
use nss_i_assignments.Tools.Making
use nss_i_assignments.Tools.Making.{create_dir_main, eexist, enoent, Errno, is_dir}
use nss_i_assignments.Tools.Making.Growing.{Fits, MkdirIsNew, Runs}
use nss_i_assignments.Tools.Making.Ending.{create_dir_main-Runs}
use nss_i_assignments.Tests.Acl.{alice, host, kernel}

abbrev words : List Bytes
words = codes "sh" ∷ codes "ls  -l" ∷ codes "a b" ∷ []

split_opts-Splits_example :
    (out : List Bytes) × (split_opts words 1 ≡ some out) × Splits words 1 out
split_opts-Splits_example = split_opts-Splits words 1

abbrev start : Run → Child
start run = exited 3

sudo_main-runs_example :
    ((true ≡ true)
      × Has (codes "fget") allowed_names
      × Gives
          (codes "fget")
          (codes "notes" ∷ [])
          (exited 3)
          (sudo_main start true (codes "sudo" ∷ codes "fget" ∷ codes "notes" ∷ [])))
    ⊎ (((true ≡ false) ⊎ ¬ Has (codes "fget") allowed_names)
        × (sudo_main start true (codes "sudo" ∷ codes "fget" ∷ codes "notes" ∷ []) ≡ (1, [])))
sudo_main-runs_example =
    sudo_main-runs start true (codes "sudo") (codes "fget") (codes "notes" ∷ [])

abbrev copying : Reading.Calls
copying = record { reads = λ i. some 2; writes = λ i. [] }

abbrev reading : List Bytes
reading = codes "fget" ∷ codes "notes" ∷ []

fget_main-FgetEnds_example :
    (r : ℕ × Host) × (fget_main kernel copying false reading host ≡ some r)
    × FgetEnds kernel false reading host r
fget_main-FgetEnds_example = fget_main-FgetEnds kernel copying false reading host

abbrev writing : Writing.Calls
writing = record { stats = λ h path. true; opens = λ h path. true; text = []; newline = [] }

apart : codes "notes" ≢ get_acl_filename (codes "notes")
unfolding get_acl_filename dirname basename
apart e = cc

fput_main-FputEnds_example :
    FputEnds kernel writing false
      (codes "fput")
      (codes "notes")
      (codes "more")
      host
      (fput_main kernel writing false (codes "fput" ∷ codes "notes" ∷ codes "more" ∷ []) host)
fput_main-FputEnds_example =
    fput_main-FputEnds kernel writing false (codes "fput") (codes "notes") (codes "more") host apart

abbrev setting : List Bytes
setting = codes "setacl" ∷ codes "-m" ∷ codes "u:alice:rw-" ∷ codes "notes" ∷ []

setacl_main-SetaclEnds_example :
    SetaclEnds kernel false setting host (setacl_main kernel false setting host).1
setacl_main-SetaclEnds_example = setacl_main-SetaclEnds kernel false setting host

abbrev chdir : Chdir
chdir = record { may = λ h path. true; error = codes "No such file or directory" }

cd_main-CdEnds_example :
    (w : Went) × (cd_main kernel chdir false alice (codes "cd") (codes "a/b" ∷ []) host ≡ some w)
    × CdEnds kernel false (codes "cd") (codes "a/b") host w
unfolding two_slashes
cd_main-CdEnds_example =
    cd_main-CdEnds kernel chdir false alice (codes "cd") (codes "a/b") host refl

-- mkdir makes a directory in one that is there, or here.
abbrev in_parent : Bool → Option File → Option Errno
in_parent true o = none
in_parent false (some f) = none
in_parent false _ = some enoent

abbrev makes : Option File → Option Errno → Option Errno
makes (some f) o = some eexist
makes _ o = o

abbrev making : Making.Calls
making = record {
  mkdir = λ h path.
      makes (h.files path) (in_parent (str_eq (dirname path) (codes ".")) (h.files (dirname path)));
  stat_errno = λ h path. enoent;
  strerror = λ e. codes "error";
}

makes-absent : (o : Option File) (e : Option Errno) → makes o e ≡ none → o ≡ none
makes-absent none e h = refl
makes-absent (some f) e h = cc

making_is_new : MkdirIsNew making
making_is_new h path e = makes-absent (h.files path) _ e

abbrev made_args : List Bytes
made_args = codes "create_dir" ∷ codes "-p" ∷ codes "a/b" ∷ []

made_args_fit : All Fits made_args
unfolding two_slashes
made_args_fit = (
  (λ e. cc, omega arith, refl),
  ((λ e. cc, omega arith, refl), ((λ e. cc, omega arith, refl), tt)),
)

create_dir_main-Runs_example : Runs host (create_dir_main kernel making false made_args host)
create_dir_main-Runs_example =
    create_dir_main-Runs kernel making false made_args host making_is_new made_args_fit

-- Both directories are made.
abbrev made_dirs : Option (ℤ × Host) → Bool
made_dirs none = false
made_dirs (some (status, h)) = is_dir (h.files (codes "a")) && is_dir (h.files (codes "a/b"))

create_dir_runs : made_dirs (create_dir_main kernel making false made_args host) ≡ true
unfolding create_dir_main dirname basename get_acl_filename check_perm_from_acl str_eq search_args
    separate_opts is_top contains strtok fgets_lines create_acl_from_stat change_uid
create_dir_runs = refl
