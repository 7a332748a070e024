-- ===== src/Tests/Giving.antt =====
-- alice gives bob the right to read her file with setacl, and bob reads it with fget.
use nss_i_assignments.Base.{
  ◌≡◌, refl, inl, true, false, some, none, [], ◌∷◌, Bytes, codes, arith, if◌then◌else◌,
}
use nss_i_assignments.CString.{str_eq, contains, strtok, dirname, basename, print_dec, fgets_lines}
use nss_i_assignments.Host.{File, Host, print}
use nss_i_assignments.Acl.Line.{get_acl_filename, line_has_perm}
use nss_i_assignments.Acl.Checking.{check_perm_from_acl, check_lines}
use nss_i_assignments.Acl.Checking.Decides.{check_perm_from_acl_iff}
use nss_i_assignments.Acl.Setting.{user_line}
use nss_i_assignments.Acl.Setting.Answers.{IsAcl, user_line-IsLine, user_line-WellFormed}
use nss_i_assignments.Tools.Reading
use nss_i_assignments.Tools.Reading.{fget_main}
use nss_i_assignments.Tools.Reading.Prints.{CanRead, Flows, fget_main-prints}
use nss_i_assignments.Tools.Acls.{setacl_main}
use nss_i_assignments.Tools.Acls.ThenRead.{Comes, setacl_main-fget_main}
use nss_i_assignments.Tools.Acls.Gives.{MayGive, set_args}
use nss_i_assignments.Tests.Acl.{alice, bob, acl, notes, kernel, bob_entry, alice_entry}

abbrev path : Bytes
path = codes "notes"

abbrev alice_only : File
alice_only = record { owner = 7; mode = 420; is_dir = false; text = user_line alice (codes "rw-") }

abbrev before : Host
before = record {
  files = λ other.
      if str_eq other path then some notes else if str_eq other acl then some alice_only else none;
  ruid = 7;
  euid = 7;
  suid = 7;
  cap_setuid = false;
  out = [];
}

abbrev copying : Reading.Calls
copying = record { reads = λ i. some 2; writes = λ i. [] }

copying-Flows : Flows copying
copying-Flows = record { reads = λ i e. cc; writes = λ i. tt }

alice_text : IsAcl (user_line alice (codes "rw-"))
alice_text = record {
  lines = user_line alice (codes "rw-") ∷ [];
  together = refl;
  terminated = (user_line-IsLine alice (codes "rw-") alice_entry, tt);
  well_formed = (user_line-WellFormed alice (codes "rw-") alice_entry, tt);
}

-- alice may read and write.
alice_allowed :
    (check_perm_from_acl kernel (get_acl_filename path) (some alice) b'r' false before).0 ≡ true
unfolding fgets_lines check_perm_from_acl check_lines line_has_perm str_eq contains strtok
    get_acl_filename dirname basename
alice_allowed = refl

alice_may_write :
    (check_perm_from_acl kernel (get_acl_filename path) (some alice) b'w' false before).0 ≡ true
unfolding fgets_lines check_perm_from_acl check_lines line_has_perm str_eq contains strtok
    get_acl_filename dirname basename
alice_may_write = refl

alice-CanRead : CanRead kernel copying false (codes "fget") path before notes
unfolding str_eq
alice-CanRead = record {
  exists = refl;
  allowed =
      (check_perm_from_acl_iff kernel (get_acl_filename path) (some alice) b'r' false before).0
        alice_allowed;
  owner = refl;
  opens = refl;
  flows = copying-Flows;
}

fget_main-prints_example :
    fget_main kernel copying false (codes "fget" ∷ path ∷ []) before
    ≡ some (0, record (print notes.text before) { euid = 7 })
fget_main-prints_example =
    fget_main-prints kernel copying false (codes "fget") path before notes alice-CanRead

abbrev setacl : Bytes
setacl = codes "setacl"

alice-MayGive : MayGive kernel setacl path bob (codes "r--") before notes
unfolding str_eq print_dec get_acl_filename dirname basename
alice-MayGive = record {
  plain_path = refl;
  three = refl;
  known = refl;
  exists = refl;
  not_root = refl;
  allowed =
      (check_perm_from_acl_iff kernel (get_acl_filename path) (some alice) b'w' false before).0
        alice_may_write;
  owner = refl;
  home = inl refl;
  can_set = record {
    file = alice_only;
    stands = refl;
    named = λ e. cc;
    text = alice_text;
    entry = bob_entry;
    allowed = refl;
    fits = omega arith;
    free = refl;
    reads = λ h f e e'. refl;
    writes = λ s. refl;
    gets_whole = λ t. refl;
    puts_whole = λ t. refl;
    closes = λ s. refl;
    renames = λ s. refl;
  };
}

-- bob's process, in which the saved id is that of alice, as in a program that runs with her id.
abbrev later : Host
later = record {
  files = (setacl_main kernel false (set_args setacl bob (codes "r--") path) before).1.files;
  ruid = 8;
  euid = 8;
  suid = 7;
  cap_setuid = false;
  out = [];
}

bob-Comes : Comes kernel copying setacl path bob (codes "r--") before notes alice-MayGive later
unfolding str_eq print_dec get_acl_filename dirname basename alice-MayGive
bob-Comes = record {
  left = refl;
  named = refl;
  takes_acl = refl;
  takes = refl;
  opens = refl;
  apart = λ e. cc;
  apart_tmp = λ e. cc;
  flows = copying-Flows;
}

may_r : contains b'r' (codes "r--") ≡ true
unfolding contains
may_r = refl

setacl_main-fget_main_example :
    fget_main kernel copying false (codes "fget" ∷ path ∷ []) later
    ≡ some (0, record (print notes.text later) { euid = 8 })
setacl_main-fget_main_example =
    setacl_main-fget_main kernel copying setacl path bob (codes "r--") (codes "fget") before notes
      alice-MayGive later bob-Comes may_r
