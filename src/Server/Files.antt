-- ===== src/Server/Files.antt =====
-- acl_allows_read, can_read_user_file, handle_list_files and handle_request_file of
-- Assignment2/server_real.c, over the files as they are at the call.
pub mod Access
use nss_i_assignments.Base.{
  ℕ, ◌≡◌, refl, Bool, true, false, not, ◌&&◌, ◌||◌, Option, none, some, List, [], ◌∷◌, ◌++◌, ◌==◌,
  if◌then◌else◌, ltb, Bytes, codes, length, ◌>>=◌, ◌>>◌, guard,
}
use nss_i_assignments.CString.{
  str_eq, contains, strstr, snprintf, strtok, basename, dirname, fgets_lines,
}
use nss_i_assignments.Common.Io.{trim_newline, line_max}
use nss_i_assignments.Server.State.{User, Server, Sent, find_user, send, send_text}
use nss_i_assignments.Server.Clients.{send_to_user}

-- What fopen and reading, access(R_OK) and readdir find; `none` where a file or directory does not
-- open.
pub record FileSystem : Type 0 where
  pub content : Bytes → Option Bytes
  pub readable : Bytes → Bool
  pub listing : Bytes → Option (List Bytes)

abbrev colon : Bytes
colon = codes ":"

-- One line of the loop in acl_allows_read: whether it returns 1.
abbrev pub grants : Bytes → Bytes → Bytes → Bytes → Bool
grants requester kind name perm =
    str_eq kind (codes "user") && str_eq name requester && contains b'r' perm
    || str_eq kind (codes "default") && str_eq name (codes "other") && contains b'r' perm

abbrev pub granted : Bytes → Option (Bytes × Bytes × Bytes) → Bool
granted requester none = false
granted requester (some (kind, name, perm)) = grants requester kind name perm

abbrev pub acl_fields : Bytes → Option (Bytes × Bytes × Bytes)
acl_fields line = do
  (kind, r) ← strtok colon line
  (name, r') ← strtok colon r
  (perm, r'') ← strtok colon r'
  some (kind, name, perm)

pub line_grants : Bytes → Bytes → Bool
line_grants requester line = granted requester (acl_fields (trim_newline line))

pub any_grants : Bytes → List Bytes → Bool
any_grants requester [] = false
any_grants requester (l ∷ ls) = line_grants requester l || any_grants requester ls

abbrev pub acl_path : Bytes → Bytes
acl_path path =
    let copy = snprintf 512 path in
    snprintf 1024 (dirname copy ++ (codes "/." ++ (basename copy ++ codes ".acl")))

abbrev pub grants_in : Bytes → Option Bytes → Bool
grants_in requester none = false
grants_in requester (some text) = any_grants requester (fgets_lines 512 text)

unfoldable pub acl_allows_read : FileSystem → Bytes → Bytes → Bool
acl_allows_read fs path requester = grants_in requester (fs.content (acl_path path))

-- `none` for 0, else what `path` holds.
unfoldable pub can_read_user_file : FileSystem → Bytes → Bytes → Bytes → ℕ → Server → Option Bytes
can_read_user_file fs requester owner filename path_len s = do
  (i, u) ← find_user owner s.users
  guard (not (contains b'/' filename || strstr (codes "..") filename))
  let path = u.root ++ (codes "/" ++ filename)
  guard (ltb (length path) path_len)
  guard (fs.readable path)
  guard (str_eq requester owner || acl_allows_read fs path requester)
  some path

abbrev starts_dot : Bytes → Bool
starts_dot [] = false
starts_dot (c ∷ s) = c == b'.'

abbrev name_sent : ℕ → Bytes → Option Bytes → List Sent
name_sent fd name none = []
name_sent fd name (some path) = send_text fd (codes " " ++ name)

-- The loop over the directory.
pub list_readable : FileSystem → ℕ → Bytes → Bytes → List Bytes → Server → List Sent
list_readable fs fd requester owner [] s = []
list_readable fs fd requester owner (name ∷ names) s =
    (if starts_dot name
      then []
      else name_sent fd name (can_read_user_file fs requester owner name 512 s))
    ++ list_readable fs fd requester owner names s

abbrev list_directory : FileSystem → ℕ → Bytes → Bytes → Server → Option (List Bytes) → List Sent
list_directory fs fd requester owner s none = send fd (codes "FILES\n")
list_directory fs fd requester owner s (some names) =
    send_text fd (codes "FILES " ++ owner)
    ++ (list_readable fs fd requester owner names s ++ send fd (codes "\n"))

abbrev list_user : FileSystem → ℕ → Bytes → Bytes → Server → Option (ℕ × User) → List Sent
list_user fs fd requester owner s none = send fd (codes "ERR unknown-user\n")
list_user fs fd requester owner s (some (i, u)) =
    list_directory fs fd requester owner s (fs.listing u.root)

unfoldable pub handle_list_files : FileSystem → ℕ → Bytes → Bytes → Server → List Sent
unfolding list_readable can_read_user_file
handle_list_files fs fd requester owner s =
    list_user fs fd requester owner s (find_user owner s.users)

abbrev route_request : ℕ → Bytes → Bytes → Bytes → Bytes → Bytes → Server → Option Bytes → List Sent
route_request fd requester owner filename host port s none = send fd (codes "ERR file-denied\n")
route_request fd requester owner filename host port s (some path) =
    send_to_user owner
      (snprintf line_max (
        codes "FILE_REQUEST "
        ++ (requester
            ++ (codes " "
                ++ (filename ++ (codes " " ++ (host ++ (codes " " ++ (port ++ codes "\n")))))))))
      s
    ++ send fd (codes "FILE_REQUEST_SENT\n")

unfoldable pub handle_request_file :
    FileSystem → ℕ → Bytes → Bytes → Bytes → Bytes → Bytes → Server → List Sent
unfolding can_read_user_file send_to_user
handle_request_file fs fd requester owner filename host port s =
    route_request fd requester owner filename host port s
      (can_read_user_file fs requester owner filename 512 s)
