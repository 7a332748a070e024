-- ===== src/Tools/Acls/ThenRead.antt =====
-- setacl of Assignment1/setacl.c by one user, and then fget of Assignment1/fget.c by another.
use nss_i_assignments.Base.{
  ◌≡◌, ◌≢◌, sym, ◌∙◌, ap, subst, true, false, Option, some, [], ◌∷◌, Bytes,
}
use nss_i_assignments.CString.{ℤ, contains}
use nss_i_assignments.Common.Files.{tmp_path}
use nss_i_assignments.Host.{File, Host, Kernel, may_seteuid, print}
use nss_i_assignments.Host.Ids.{as_caller, seteuid-files}
use nss_i_assignments.Acl.Line.{get_acl_filename}
use nss_i_assignments.Acl.Checking.{get_usr_name, check_perm_from_acl}
use nss_i_assignments.Acl.Checking.Decides.{Allows, check_perm_from_acl_iff}
use nss_i_assignments.Acl.Setting.{set_perm_in_acl}
use nss_i_assignments.Acl.Setting.Outcomes.{Replaced, set_perm_in_acl-Ends}
use nss_i_assignments.Acl.Setting.ThenChecked.{check-says, replaced-Sets, set-Replaced}
use nss_i_assignments.Tools.Reading
use nss_i_assignments.Tools.Reading.{fget_main}
use nss_i_assignments.Tools.Reading.Prints.{Flows, fget_main-prints}
use nss_i_assignments.Tools.Acls.{setacl_main}
use nss_i_assignments.Tools.Acls.Gives.{set_args, MayGive, setacl_main-set}

-- The user that was given the permissions, after setacl: the state is one that setacl left, the
-- process may take the ids of the owners of the file and of its ACL, and the calls on the file
-- succeed.
pub record Comes (k : Kernel) (calls : Reading.Calls) (program path user perm : Bytes) (h : Host)
    (f : File) (m : MayGive k program path user perm h f) (g : Host) : Type 0 where
  pub left : g.files ≡ (setacl_main k false (set_args program user perm path) h).1.files
  pub named : get_usr_name k g.ruid ≡ some user
  pub takes_acl : may_seteuid m.can_set.file.owner (as_caller g) ≡ true
  pub takes : may_seteuid f.owner (as_caller g) ≡ true
  pub opens : k.may_read (record g { euid = f.owner }) path ≡ true
  pub apart : path ≢ get_acl_filename path
  pub apart_tmp : path ≢ tmp_path (get_acl_filename path) k.pid
  pub flows : Flows calls

module _ (k : Kernel) (calls : Reading.Calls) (program path user perm : Bytes) (h : Host) (f : File)
    (m : MayGive k program path user perm h f) (g : Host)
    (c : Comes k calls program path user perm h f m g) where
  abbrev as_owner : Host
  as_owner = record h { euid = f.owner }

  abbrev acl_of : Bytes
  acl_of = get_acl_filename path

  abbrev set_state : Host
  set_state = (set_perm_in_acl k acl_of user perm as_owner).1

  left_files : g.files ≡ set_state.files
  left_files =
      c.left
      ∙ ap (λ (r : ℤ × Host). r.1.files) (setacl_main-set k program path user perm h f m)
      ∙ seteuid-files h.ruid set_state

  replaced : Replaced k acl_of user perm as_owner set_state
  replaced = set-Replaced k acl_of user perm as_owner m.home m.can_set

  path_stays : g.files path ≡ some f
  path_stays =
      ap (λ (files : Bytes → Option File). files path) left_files
      ∙ (set_perm_in_acl-Ends k acl_of user perm as_owner m.home).others path c.apart c.apart_tmp
      ∙ m.exists

  reader_checked :
      (check_perm_from_acl k acl_of (some user) b'r' false (as_caller g)).0 ≡ contains b'r' perm
  reader_checked =
      let d = replaced in
      let (owner, sets) = replaced-Sets k acl_of user perm as_owner set_state m.can_set d in
      let stands : g.files acl_of ≡ some d.after =
        ap (λ (files : Bytes → Option File). files acl_of) left_files ∙ d.stands in
      let takes : may_seteuid d.after.owner (as_caller g) ≡ true = rw owner c.takes_acl in
      check-says k acl_of user b'r' false (as_caller g) d.after m.can_set.named stands takes
        m.can_set.reads
      ∙ sets.own b'r'

  reader_allowed :
      contains b'r' perm ≡ true → Allows k acl_of (get_usr_name k g.ruid) b'r' false (as_caller g)
  reader_allowed r =
      subst (λ (name : Option Bytes). Allows k acl_of name b'r' false (as_caller g)) (sym c.named)
        ((check_perm_from_acl_iff k acl_of (some user) b'r' false (as_caller g)).0
          (reader_checked ∙ r))

-- Where setacl gives a user permissions with the right to read, fget run by that user on the files
-- that setacl left puts the whole file out and exits with 0. The conditions: the caller of setacl is
-- not root, the ACL lets it write, and the permissions can be set, as in `MayGive`; the reader may
-- take the ids of the two owners, the file is neither the ACL nor its temporary file, and the calls
-- on it succeed, as in `Comes`.
pub setacl_main-fget_main :
    (k : Kernel) (calls : Reading.Calls) (program path user perm command : Bytes) (h : Host)
    (f : File) (m : MayGive k program path user perm h f) (g : Host)
    → Comes k calls program path user perm h f m g
    → contains b'r' perm ≡ true
    → fget_main k calls false (command ∷ path ∷ []) g
      ≡ some (0, record (print f.text g) { euid = g.ruid })
setacl_main-fget_main k calls program path user perm command h f m g c r =
    fget_main-prints k calls false command path g f record {
      exists = path_stays k calls program path user perm h f m g c;
      allowed = reader_allowed k calls program path user perm h f m g c r;
      owner = c.takes;
      opens = c.opens;
      flows = c.flows;
    }
