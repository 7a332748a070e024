-- ===== src/Tools/Acls.antt =====
-- Assignment1/setacl.c and Assignment1/getacl.c.
pub mod Sets
pub mod Guarded
pub mod Gives
pub mod ThenRead
use nss_i_assignments.Base.{
  ℕ, ◌⊎◌, inl, inr, Bool, true, false, not, ◌&&◌, ◌||◌, Option, none, some, List, [], ◌∷◌, ◌++◌,
  ◌==◌, if◌then◌else◌, Bytes, codes, length,
}
use nss_i_assignments.CString.{ℤ, pos, negsuc, str_eq, strtok}
use nss_i_assignments.Host.{File, Host, Kernel, seteuid, print}
use nss_i_assignments.Acl.Line.{get_acl_filename, valid_perm_string}
use nss_i_assignments.Acl.Checking.{get_usr_name, check_perm_from_acl, print_acl}
use nss_i_assignments.Acl.Setting.{set_perm_in_acl}
use nss_i_assignments.Tools.Options.{search_opts}
use nss_i_assignments.Tools.Reading.{asked, asked_of, shown}

abbrev pub setacl_usage : Bytes
setacl_usage = codes "Usage: setacl [-m|--modify|-x|--remove] acl_spec file ...\n"

abbrev pub setacl_opts : List Bytes
setacl_opts = codes "-m" ∷ codes "--modify" ∷ codes "-x" ∷ codes "--remove" ∷ codes "--help" ∷ []

abbrev pub all_unset : List Bool
all_unset = false ∷ false ∷ false ∷ false ∷ false ∷ []

-- A message, then the usage.
abbrev pub fails_with : List Bytes → Host → ℤ × Host
fails_with [] h = (pos 1, print setacl_usage h)
fails_with (message ∷ messages) h = (pos 1, print setacl_usage (print message h))

abbrev wrong_modifier : Bytes → Bytes
wrong_modifier token = codes "setacl: Wrong modifier " ++ (token ++ codes "\n")

abbrev pub denied_set : Option Bytes → Bytes → Bytes
denied_set user path =
    codes "setacl: "
    ++ (shown user ++ (codes " denied permission to set ACL for " ++ (path ++ codes "\n")))

-- The result of setPermInAcl is not looked at.
abbrev pub set_as_root : Kernel → Bytes → Bytes → Bytes → Host → ℤ × Host
set_as_root k acl user perm h = (pos 0, (set_perm_in_acl k acl user perm h).1)

abbrev pub set_as_owner : Kernel → Bytes → Bytes → Bytes → ℕ → Host → ℤ × Host
set_as_owner k acl user perm owner h =
    (pos 0, (seteuid h.ruid (set_perm_in_acl k acl user perm (seteuid owner h).1).1).1)

abbrev pub set_checked : Kernel → Bytes → Bytes → Bytes → File → Bool × Host → ℤ × Host
set_checked k path user perm f (true, h) =
    set_as_owner k (get_acl_filename path) user perm f.owner h
set_checked k path user perm f (false, h) =
    (pos 1, print (denied_set (get_usr_name k h.ruid) path) h)

-- For root, and with SUDO_MODE, the ACL of the file is taken; the one checked under sudo is that of
-- the command.
abbrev pub set_found : Kernel → Bool → Bytes → Bytes → Bytes → Bytes → Host → Option File → ℤ × Host
set_found k sudo program path user perm h none =
    fails_with ((codes "setacl: File " ++ (path ++ codes " does not exist\n")) ∷ []) h
set_found k sudo program path user perm h (some f) =
    if h.ruid == 0
    then set_as_root k (get_acl_filename path) user perm h
    else set_checked k path user perm f (
        check_perm_from_acl k (asked_of sudo program path) (get_usr_name k h.ruid) (asked sudo b'w')
          false h)

-- The third token of the specification.
abbrev pub perm_of : Bool → Option (Bytes × Bytes) → Option Bytes ⊎ Bytes
perm_of true none = inl none
perm_of true (some (token, rest)) =
    if length token == 3 && valid_perm_string token then inr token else inl (some token)
perm_of false o = inr (codes "---")

abbrev pub set_perm : Kernel → Bool → Bytes → Bytes → Bytes → Host → Option Bytes ⊎ Bytes → ℤ × Host
set_perm k sudo program path user h (inl token) = fails_with (wrong_modifier (shown token) ∷ []) h
set_perm k sudo program path user h (inr perm) =
    set_found k sudo program path user perm h (h.files path)

abbrev pub set_user :
    Kernel → Bool → Bool → Bytes → Bytes → Host → Option (Bytes × Bytes) → ℤ × Host
set_user k sudo modify program path h none = fails_with [] h
set_user k sudo modify program path h (some (user, rest)) =
    if not (k.has_user user)
    then fails_with ((codes "setacl: User " ++ (user ++ codes " does not exist\n")) ∷ []) h
    else set_perm k sudo program path user h (perm_of modify (strtok (codes ":") rest))

-- The specification; the caller's id is taken once its first token is right.
abbrev pub set_spec :
    Kernel → Bool → Bool → Bytes → Bytes → Host → Option (Bytes × Bytes) → ℤ × Host
set_spec k sudo modify program path h none = fails_with (wrong_modifier (codes "(null)") ∷ []) h
set_spec k sudo modify program path h (some (token, rest)) =
    if not (str_eq token (codes "u"))
    then fails_with (wrong_modifier token ∷ []) h
    else set_user k sudo modify program path (seteuid h.ruid h).1 (strtok (codes ":") rest)

abbrev pub set_opts : Kernel → Bool → List Bytes → List Bool → Host → ℤ × Host
set_opts k sudo args (m ∷ modify ∷ x ∷ remove ∷ help ∷ []) h =
    if help then (pos 0, print setacl_usage h) else elim args [
      | program ∷ option ∷ spec ∷ path ∷ [] ↦
          if not (m || modify) && not (x || remove)
          then fails_with [] h
          else set_spec k sudo (m || modify) program path h (strtok (codes ":") spec)
      | _ ↦ fails_with [] h
    ]
set_opts k sudo args _ h = fails_with [] h

abbrev pub set_searched : Kernel → Bool → List Bytes → Bool × List Bool × Host → ℤ × Host
set_searched k sudo args (false, vals, h) = (negsuc 0, print setacl_usage h)
set_searched k sudo args (true, vals, h) = set_opts k sudo args vals h

unfoldable pub setacl_main : Kernel → Bool → List Bytes → Host → ℤ × Host
setacl_main k sudo (program ∷ arg ∷ args) h =
    set_searched k sudo (program ∷ arg ∷ args)
      (search_opts (program ∷ arg ∷ args) setacl_opts all_unset h)
setacl_main k sudo _ h = fails_with [] h

abbrev getacl_usage : Bytes
getacl_usage = codes "Usage: getacl file\n"

abbrev pub get_checked : Kernel → Bytes → File → Bool × Host → ℕ × Host
get_checked k path f (true, h) =
    (0, (seteuid h.ruid (print_acl k (get_acl_filename path) (seteuid f.owner h).1).1).1)
get_checked k path f (false, h) = (
  1,
  print
      (codes "getacl: "
        ++ (shown (get_usr_name k h.ruid)
            ++ (codes " denied permission to read ACL for " ++ (path ++ codes "\n"))))
      h,
)

abbrev pub get_found : Kernel → Bool → Bytes → Bytes → Host → Option File → ℕ × Host
get_found k sudo program path h none =
    (1, print getacl_usage (print (codes "getacl: File " ++ (path ++ codes " does not exist\n")) h))
get_found k sudo program path h (some f) =
    if h.ruid == 0
    then (0, (print_acl k (get_acl_filename path) h).1)
    else get_checked k path f (
        check_perm_from_acl k (asked_of sudo program path) (get_usr_name k h.ruid) (asked sudo b'r')
          false h)

abbrev pub get_path : Kernel → Bool → Bytes → Bytes → Host → ℕ × Host
get_path k sudo program path h =
    if str_eq path (codes "--help")
    then (0, print getacl_usage h)
    else get_found k sudo program path (seteuid h.ruid h).1 ((seteuid h.ruid h).1.files path)

unfoldable pub getacl_main : Kernel → Bool → List Bytes → Host → ℕ × Host
getacl_main k sudo (program ∷ path ∷ []) h = get_path k sudo program path h
getacl_main k sudo _ h = (1, print getacl_usage h)
