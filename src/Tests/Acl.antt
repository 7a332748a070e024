-- ===== src/Tests/Acl.antt =====
-- Runs of the access control lists of Assignment1/utils.c on small inputs.
use nss_i_assignments.Base.{
  ◌≡◌, ◌↔◌, refl, inl, true, false, none, some, [], ◌∷◌, ◌++◌, Bytes, codes, ◌==◌, if◌then◌else◌,
  arith,
}
use nss_i_assignments.CString.{str_eq, contains, strtok, dirname, basename, print_dec, fgets_lines}
use nss_i_assignments.Host.{File, Host, Kernel}
use nss_i_assignments.Acl.Line.{get_acl_filename, line_has_perm, has}
use nss_i_assignments.Acl.Line.Entries.{IsEntry}
use nss_i_assignments.Acl.Checking.{check_perm_from_acl, check_lines}
use nss_i_assignments.Acl.Checking.Decides.{
  Allows, check_perm_from_acl_iff, check_perm_from_acl-keeps,
}
use nss_i_assignments.Acl.Setting.{set_perm_in_acl, user_line, new_text, line_names}
use nss_i_assignments.Acl.Setting.Answers.{IsAcl, user_line-IsLine, user_line-WellFormed}
use nss_i_assignments.Acl.Setting.Outcomes.{Ends, set_perm_in_acl-Ends}
use nss_i_assignments.Acl.Setting.ThenChecked.{CanSet, Answers, set_perm_in_acl-check}
use nss_i_assignments.Acl.Creating.{create_acl_from_stat}
use nss_i_assignments.Acl.Creating.Checked.{Created, create_acl_from_stat-Created}
use nss_i_assignments.Acl.Creating.Texts.{IsName}

abbrev pub alice : Bytes
alice = codes "alice"

abbrev pub bob : Bytes
bob = codes "bob"

abbrev pub acl : Bytes
acl = codes "./.notes.acl"

-- An ACL in which bob may read, and a file of alice beside it.
abbrev pub acl_file : File
acl_file = record { owner = 7; mode = 420; is_dir = false; text = user_line bob (codes "r--") }

abbrev pub notes : File
notes = record { owner = 7; mode = 384; is_dir = false; text = codes "hello\n" }

abbrev pub host : Host
host = record {
  files = λ path.
      if str_eq path (codes "notes")
      then some notes
      else if str_eq path acl
      then some acl_file
      else none;
  ruid = 7;
  euid = 7;
  suid = 7;
  cap_setuid = false;
  out = [];
}

-- Every call succeeds, user 7 is alice and user 8 is bob.
abbrev pub kernel : Kernel
kernel = record {
  pid = 9;
  masked = λ mode. mode;
  may_read = λ h path. true;
  may_write = λ h path. true;
  gets = λ path text. text;
  puts = λ path text. text;
  may_close = λ h path. true;
  may_rename = λ h old new. true;
  name_of = λ uid. if uid == 7 then some alice else if uid == 8 then some bob else none;
  has_user = λ name. true;
}

pub bob_entry : IsEntry bob (codes "r--")
unfolding contains
bob_entry = record {
  named = λ e. cc;
  name_free = (refl, (refl, (refl, tt)));
  perm_free = (refl, (refl, (refl, tt)));
  valid = refl;
  fits = omega arith;
}

pub alice_entry : IsEntry alice (codes "rw-")
unfolding contains
alice_entry = record {
  named = λ e. cc;
  name_free = (refl, (refl, (refl, (refl, (refl, tt)))));
  perm_free = (refl, (refl, (refl, tt)));
  valid = refl;
  fits = omega arith;
}

acl_text : IsAcl (user_line bob (codes "r--"))
acl_text = record {
  lines = user_line bob (codes "r--") ∷ [];
  together = refl;
  terminated = (user_line-IsLine bob (codes "r--") bob_entry, tt);
  well_formed = (user_line-WellFormed bob (codes "r--") bob_entry, tt);
}

can_set : CanSet kernel acl alice (codes "rw-") host
unfolding str_eq print_dec
can_set = record {
  file = acl_file;
  stands = refl;
  named = λ e. cc;
  text = acl_text;
  entry = alice_entry;
  allowed = refl;
  fits = omega arith;
  free = refl;
  reads = λ h f e e'. refl;
  writes = λ s. refl;
  gets_whole = λ t. refl;
  puts_whole = λ t. refl;
  closes = λ s. refl;
  renames = λ s. refl;
}

set_perm_in_acl-check_example :
    ((set_perm_in_acl kernel acl alice (codes "rw-") host).0 ≡ true)
    × Answers kernel acl alice
        (codes "rw-")
        host
        (set_perm_in_acl kernel acl alice (codes "rw-") host).1
set_perm_in_acl-check_example =
    set_perm_in_acl-check kernel acl alice (codes "rw-") host (inl refl) can_set

set_perm_in_acl-Ends_example :
    Ends kernel acl alice (codes "rw-") host (set_perm_in_acl kernel acl alice (codes "rw-") host)
set_perm_in_acl-Ends_example = set_perm_in_acl-Ends kernel acl alice (codes "rw-") host (inl refl)

check_perm_from_acl_iff_example :
    ((check_perm_from_acl kernel acl (some bob) b'r' false host).0 ≡ true)
    ↔ Allows kernel acl (some bob) b'r' false host
check_perm_from_acl_iff_example = check_perm_from_acl_iff kernel acl (some bob) b'r' false host

check_perm_from_acl-keeps_example :
    (check_perm_from_acl kernel acl (some bob) b'r' false host).1 ≡ host
check_perm_from_acl-keeps_example =
    check_perm_from_acl-keeps kernel acl (some bob) b'r' false host (inl refl)

alice-IsName : IsName alice
unfolding contains
alice-IsName = record {
  named = λ e. cc;
  free = (refl, (refl, (refl, (refl, (refl, tt)))));
  short = omega arith;
}

notes_acl : get_acl_filename (codes "notes") ≡ acl
unfolding get_acl_filename dirname basename
notes_acl = refl

create_acl_from_stat-Created_example :
    ((create_acl_from_stat kernel (codes "notes") host).0 ≡ true)
    × Created alice 384
        (get_acl_filename (codes "notes"))
        (create_acl_from_stat kernel (codes "notes") host).1
unfolding str_eq get_acl_filename dirname basename
create_acl_from_stat-Created_example =
    create_acl_from_stat-Created kernel (codes "notes") host notes alice refl refl alice-IsName
      (λ e. cc) refl

-- bob may read, and not write; and alice gets what she is given.
checks_run :
    ((check_perm_from_acl kernel acl (some bob) b'r' false host).0 ≡ true)
    × ((check_perm_from_acl kernel acl (some bob) b'w' false host).0 ≡ false)
    × ((check_perm_from_acl kernel acl (some alice) b'r' false host).0 ≡ false)
unfolding fgets_lines check_perm_from_acl check_lines line_has_perm str_eq contains strtok
checks_run = (refl, refl, refl)

sets_run :
    new_text alice (codes "rw-") (user_line bob (codes "r--"))
    ≡ some (user_line bob (codes "r--") ++ user_line alice (codes "rw-"))
unfolding fgets_lines new_text line_names str_eq contains strtok
sets_run = refl

-- A last line without a newline grows together with the entry behind it, and its user may then read.
joined_lines :
    (new_text alice (codes "rw-") (codes "user:bob:---")
      ≡ some (codes "user:bob:---user:alice:rw-\n"))
    × (line_has_perm (codes "user:bob:---user:alice:rw-\n") bob b'r' ≡ has)
unfolding fgets_lines new_text line_names line_has_perm str_eq contains strtok
joined_lines = (refl, refl)
