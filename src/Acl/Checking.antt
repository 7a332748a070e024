-- ===== src/Acl/Checking.antt =====
-- checkPermFromAcl and printAcl of Assignment1/utils.c, and getUsrName of uid.c.
pub mod Entries
pub mod Decides
pub mod Caller
pub mod Files
use nss_i_assignments.Base.{ℕ, Bool, true, false, Option, none, some, List, [], ◌∷◌, ◌++◌, Bytes}
use nss_i_assignments.CString.{fgets_lines, contains}
use nss_i_assignments.Host.{File, Host, Kernel, seteuid, fopen_r, print}
use nss_i_assignments.Acl.Line.{Verdict, malformed, lacks, has, line_has_perm}

abbrev pub get_usr_name : Kernel → ℕ → Option Bytes
get_usr_name k uid = k.name_of uid

-- The loop over the lines.
unfoldable pub check_lines : Bytes → ℕ → List Bytes → Bool
check_lines user perm [] = false
check_lines user perm (line ∷ lines) =
    let rest = check_lines user perm lines in
    elim (line_has_perm line user perm) [ malformed ↦ false | lacks ↦ rest | has ↦ true ]

abbrev pub check_opened : Bytes → ℕ → Bool → Option Bytes → Bool
check_opened user perm ok_if_no_acl none = ok_if_no_acl
check_opened user perm ok_if_no_acl (some text) = check_lines user perm (fgets_lines 1024 text)

-- From the seteuid to the owner of the ACL on; `caller` is the effective id at the call.
abbrev pub check_as_owner : Kernel → Bytes → Bytes → ℕ → Bool → ℕ → Bool × Host → Bool × Host
check_as_owner k acl user perm ok_if_no_acl caller (false, h) = (false, h)
check_as_owner k acl user perm ok_if_no_acl caller (true, h) =
    (check_opened user perm ok_if_no_acl (fopen_r k acl h), (seteuid caller h).1)

abbrev pub check_found : Kernel → Bytes → Bytes → ℕ → Bool → Host → Option File → Bool × Host
check_found k acl user perm ok_if_no_acl h none = (ok_if_no_acl, h)
check_found k acl user perm ok_if_no_acl h (some f) =
    check_as_owner k acl user perm ok_if_no_acl h.euid (seteuid f.owner h)

-- `none` is a null name.
unfoldable pub check_perm_from_acl : Kernel → Bytes → Option Bytes → ℕ → Bool → Host → Bool × Host
check_perm_from_acl k (c ∷ acl) (some user) perm ok_if_no_acl h =
    check_found k (c ∷ acl) user perm ok_if_no_acl h (h.files (c ∷ acl))
check_perm_from_acl k _ _ perm ok_if_no_acl h = (false, h)

-- The loop of printAcl: each line that fgets gives is put out.
abbrev pub print_lines : List Bytes → Host → Host
print_lines [] h = h
print_lines (line ∷ lines) h = print_lines lines (print line h)

abbrev print_opened : ℕ → Host → Option Bytes → ℕ × Host
print_opened caller h none = (1, (seteuid caller h).1)
print_opened caller h (some text) = (0, (seteuid caller (print_lines (fgets_lines 1024 text) h)).1)

abbrev print_as_owner : Kernel → Bytes → ℕ → Bool × Host → ℕ × Host
print_as_owner k acl caller (false, h) = (1, h)
print_as_owner k acl caller (true, h) = print_opened caller h (fopen_r k acl h)

abbrev print_found : Kernel → Bytes → Host → Option File → ℕ × Host
print_found k acl h none = (1, h)
print_found k acl h (some f) = print_as_owner k acl h.euid (seteuid f.owner h)

unfoldable pub print_acl : Kernel → Bytes → Host → ℕ × Host
print_acl k [] h = (1, h)
print_acl k (c ∷ acl) h = print_found k (c ∷ acl) h (h.files (c ∷ acl))
