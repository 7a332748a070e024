-- ===== src/Acl/Checking/Files.antt =====
-- checkPermFromAcl of Assignment1/utils.c changes no file, whatever ids the process has.
use nss_i_assignments.Base.{
  ℕ, ◌≡◌, refl, ◌∙◌, Bool, true, false, Option, none, some, [], ◌∷◌, Bytes,
}
use nss_i_assignments.Host.{File, Host, Kernel, seteuid}
use nss_i_assignments.Host.Ids.{seteuid-files}
use nss_i_assignments.Acl.Checking.{check_as_owner, check_found, check_perm_from_acl}

as_owner-files :
    (k : Kernel) (acl user : Bytes) (perm : ℕ) (ok : Bool) (caller : ℕ) (r : Bool × Host)
    → (check_as_owner k acl user perm ok caller r).1.files ≡ r.1.files
as_owner-files k acl user perm ok caller (false, h) = refl
as_owner-files k acl user perm ok caller (true, h) = seteuid-files caller h

found-files :
    (k : Kernel) (acl user : Bytes) (perm : ℕ) (ok : Bool) (h : Host) (o : Option File)
    → (check_found k acl user perm ok h o).1.files ≡ h.files
found-files k acl user perm ok h none = refl
found-files k acl user perm ok h (some f) =
    as_owner-files k acl user perm ok h.euid (seteuid f.owner h) ∙ seteuid-files f.owner h

pub check_perm_from_acl-files :
    (k : Kernel) (acl : Bytes) (user : Option Bytes) (perm : ℕ) (ok : Bool) (h : Host)
    → (check_perm_from_acl k acl user perm ok h).1.files ≡ h.files
unfolding check_perm_from_acl
check_perm_from_acl-files k [] user perm ok h = refl
check_perm_from_acl-files k (c ∷ acl) none perm ok h = refl
check_perm_from_acl-files k (c ∷ acl) (some user) perm ok h =
    found-files k (c ∷ acl) user perm ok h (h.files (c ∷ acl))
