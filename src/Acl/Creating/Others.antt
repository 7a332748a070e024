-- ===== src/Acl/Creating/Others.antt =====
-- What createAclFromStat and change_uid of Assignment1/utils.c leave alone.
use nss_i_assignments.Base.{
  ◌≡◌, ◌≢◌, refl, inl, inr, Option, none, some, [], ◌∷◌, Bytes, Bool-cases, Option-cases,
}
use nss_i_assignments.CString.{dirname}
use nss_i_assignments.Host.{File, Host, Kernel}
use nss_i_assignments.Host.Ids.{seteuid-files}
use nss_i_assignments.Host.Files.{set_file_ne}
use nss_i_assignments.Acl.Line.{get_acl_filename}
use nss_i_assignments.Acl.Creating.{create_acl_from_stat, create_at, create_named, change_uid}

named-others :
    (k : Kernel) (acl : Bytes) (f : File) (h : Host) (o : Option Bytes) (other : Bytes)
    → other ≢ acl
    → (create_named k acl f.mode h o).1.files other ≡ h.files other
named-others k acl f h none other ne = set_file_ne acl other _ h ne
named-others k acl f h (some owner) other ne = set_file_ne acl other _ h ne

at-others :
    (k : Kernel) (acl : Bytes) (f : File) (h : Host) (other : Bytes)
    → other ≢ acl
    → (create_at k acl f h).1.files other ≡ h.files other
at-others k [] f h other ne = refl
at-others k (c ∷ acl) f h other ne = elim (Bool-cases (k.may_write h (c ∷ acl))) [
  | inl w ↦ rw w (named-others k (c ∷ acl) f h (k.name_of f.owner) other ne)
  | inr w ↦ rw w refl
]

-- No file but the ACL changes.
pub create_acl_from_stat-others :
    (k : Kernel) (path : Bytes) (h : Host) (other : Bytes)
    → other ≢ get_acl_filename path
    → (create_acl_from_stat k path h).1.files other ≡ h.files other
unfolding create_acl_from_stat
create_acl_from_stat-others k path h other ne = elim (Option-cases (h.files path)) [
  | inl e ↦ rw e refl
  | inr (f, e) ↦ rw e (at-others k (get_acl_filename path) f h other ne)
]

pub change_uid-files : (path : Bytes) (h : Host) → (change_uid path h).files ≡ h.files
unfolding change_uid
change_uid-files path h = elim (Option-cases (h.files (dirname path))) [
  | inl e ↦ rw e refl
  | inr (f, e) ↦ rw e (seteuid-files f.owner h)
]
