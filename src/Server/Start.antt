-- ===== src/Server/Start.antt =====
-- server_config_t, parse_args, load_default_users and load_users of Assignment2/server_real.c. What
-- usage prints goes to stderr, and is left out.
pub mod Lines
pub mod Loaded
use nss_i_assignments.Base.{
  ℕ, Bool, true, false, not, ◌||◌, Option, none, some, List, [], ◌∷◌, ◌++◌, ltb, ◌==◌,
  if◌then◌else◌, Bytes, codes, length, ◌>>=◌,
}
use nss_i_assignments.CString.{str_eq, snprintf, strtok, fgets_lines}
use nss_i_assignments.Common.Io.{trim_newline}
use nss_i_assignments.Common.Crypto.{Evp, derive_long_term_key}
use nss_i_assignments.Server.State.{User}

pub record Config : Type 0 where
  pub kdc_port : Bytes
  pub chat_port : Bytes
  pub users_path : Bytes
  pub root_dir : Bytes
  pub bind_host : Bytes

abbrev pub defaults : Config
defaults = record {
  kdc_port = codes "9000";
  chat_port = codes "9001";
  users_path = codes "users.db";
  root_dir = codes "files";
  bind_host = codes "0.0.0.0";
}

-- One flag with its value.
unfoldable pub set_field : Bytes → Bytes → Config → Option Config
set_field flag value cfg =
    if str_eq flag (codes "--bind")
    then some (record cfg { bind_host = snprintf 64 value })
    else if str_eq flag (codes "--kdc-port")
    then some (record cfg { kdc_port = snprintf 16 value })
    else if str_eq flag (codes "--chat-port")
    then some (record cfg { chat_port = snprintf 16 value })
    else if str_eq flag (codes "--users")
    then some (record cfg { users_path = snprintf 256 value })
    else if str_eq flag (codes "--root")
    then some (record cfg { root_dir = snprintf 256 value })
    else none

-- The loop from argv[1] on; `none` for -1.
unfoldable pub parse_args : List Bytes → Config → Option Config
unfolding set_field
parse_args [] cfg = some cfg
parse_args (flag ∷ []) cfg = none
parse_args (flag ∷ value ∷ rest) cfg = elim (set_field flag value cfg) [
  | none ↦ none
  | some cfg' ↦ parse_args rest cfg'
]

abbrev pub max_users : ℕ
max_users = 32

-- The users so far, and the directories that ensure_dir was called for. Its result is not looked at.
pub record Loading : Type 0 where
  pub users : List User
  pub ensured : List Bytes

-- What the three calls of snprintf leave.
abbrev pub new_user : Bytes → Bytes → Bytes → Bytes → User
new_user name password root key = record {
  name = snprintf 32 name;
  password = snprintf 128 password;
  root = snprintf 256 root;
  long_key = key;
}

abbrev pub default_names : List (Bytes × Bytes × Bytes)
default_names =
    (codes "alice", codes "alicepass", codes "files/alice")
    ∷ (codes "bob", codes "bobpass", codes "files/bob")
    ∷ (codes "carol", codes "carolpass", codes "files/carol")
    ∷ []

-- The loop of load_default_users; the key is derived from what snprintf has left.
unfoldable pub load_defaults : Evp → Bytes → List (Bytes × Bytes × Bytes) → Loading → Bool × Loading
load_defaults evp root_dir [] s = (true, s)
load_defaults evp root_dir ((name, password, root) ∷ rest) s =
    elim (derive_long_term_key evp (snprintf 32 name) (snprintf 128 password)) [
      | none ↦ (false, s)
      | some key ↦
          let u = new_user name password root key in
          load_defaults evp root_dir rest
            (record { users = s.users ++ u ∷ []; ensured = s.ensured ++ (root_dir ∷ u.root ∷ []) })
    ]

-- Whether the result is 0. user_count is set to 3, so the users are these alone.
unfoldable pub load_default_users : Evp → Config → List Bytes → Bool × Loading
unfolding load_defaults
load_default_users evp cfg ensured =
    load_defaults evp cfg.root_dir default_names (record { users = []; ensured = ensured })

abbrev pub skipped : Bytes → Bool
skipped [] = true
skipped (c ∷ s) = c == b'#'

-- The three fields of a line, where it has them.
unfoldable pub user_fields : Bytes → Option (Bytes × Bytes × Bytes)
user_fields line =
    let trimmed = trim_newline line in
    if skipped trimmed then none else do
      (name, r) ← strtok (codes ":") trimmed
      (password, r') ← strtok (codes ":") r
      (root, r'') ← strtok (codes ":") r'
      some (name, password, root)

-- The loop over the lines of the file; the key is derived from the fields as they stand there.
unfoldable pub load_lines : Evp → List Bytes → Loading → Bool × Loading
unfolding user_fields
load_lines evp [] s = (true, s)
load_lines evp (line ∷ lines) s =
    let next = load_lines evp lines s in
    if not (ltb (length s.users) max_users) then (true, s) else elim (user_fields line) [
      | none ↦ next
      | some (name, password, root) ↦ elim (derive_long_term_key evp name password) [
        | none ↦ (false, s)
        | some key ↦ load_lines evp lines (record {
          users = s.users ++ new_user name password root key ∷ [];
          ensured = s.ensured ++ root ∷ [];
        })
      ]
    ]

abbrev pub unless_empty : Evp → Config → Loading → List User → Bool × Loading
unless_empty evp cfg s [] = load_default_users evp cfg s.ensured
unless_empty evp cfg s (u ∷ us) = (true, s)

abbrev pub loaded_or_default : Evp → Config → Bool × Loading → Bool × Loading
loaded_or_default evp cfg (false, s) = (false, s)
loaded_or_default evp cfg (true, s) = unless_empty evp cfg s s.users

abbrev pub load_text : Evp → Config → Option Bytes → Bool × Loading
load_text evp cfg none = load_default_users evp cfg []
load_text evp cfg (some text) =
    loaded_or_default evp cfg
      (load_lines evp (fgets_lines 512 text) (record { users = []; ensured = [] }))

-- Whether the result is 0, and the users; `file` is what fopen finds under the path.
unfoldable pub load_users : Evp → Config → (Bytes → Option Bytes) → Bool × Loading
unfolding load_lines load_default_users
load_users evp cfg file = load_text evp cfg (file cfg.users_path)
