-- ===== src/Client/Settings.antt =====
-- client_config_t, its initial value and parse_args of Assignment2/client_real.c.
use nss_i_assignments.Base.{
  Bool, true, false, ◌||◌, Option, none, some, List, [], ◌∷◌, ◌++◌, if◌then◌else◌, Bytes, codes,
}
use nss_i_assignments.CString.{str_eq, snprintf}

pub record Config : Type 0 where
  pub user : Bytes
  pub password : Bytes
  pub host : Bytes
  pub kdc_port : Bytes
  pub chat_port : Bytes
  pub file_root : Bytes
  pub download_dir : Bytes
  pub cert_path : Bytes
  pub key_path : Bytes
  pub public_key : Bytes

abbrev pub defaults : Config
defaults = record {
  user = [];
  password = [];
  host = codes "127.0.0.1";
  kdc_port = codes "9000";
  chat_port = codes "9001";
  file_root = [];
  download_dir = codes "downloads";
  cert_path = codes "certs/requester.crt";
  key_path = codes "certs/requester.key";
  public_key = [];
}

-- One flag with its value.
unfoldable pub set_field : Bytes → Bytes → Config → Option Config
set_field flag value cfg =
    if str_eq flag (codes "--user")
    then some (record cfg { user = snprintf 32 value })
    else if str_eq flag (codes "--password")
    then some (record cfg { password = snprintf 128 value })
    else if str_eq flag (codes "--host")
    then some (record cfg { host = snprintf 128 value })
    else if str_eq flag (codes "--kdc-port")
    then some (record cfg { kdc_port = snprintf 16 value })
    else if str_eq flag (codes "--chat-port")
    then some (record cfg { chat_port = snprintf 16 value })
    else if str_eq flag (codes "--file-root")
    then some (record cfg { file_root = snprintf 256 value })
    else if str_eq flag (codes "--download-dir")
    then some (record cfg { download_dir = snprintf 256 value })
    else if str_eq flag (codes "--cert")
    then some (record cfg { cert_path = snprintf 256 value })
    else if str_eq flag (codes "--key")
    then some (record cfg { key_path = snprintf 256 value })
    else if str_eq flag (codes "--public-key")
    then some (record cfg { public_key = snprintf 2048 value })
    else none

-- The loop from argv[1] on; `none` for -1.
unfoldable pub parse_flags : List Bytes → Config → Option Config
unfolding set_field
parse_flags [] cfg = some cfg
parse_flags (flag ∷ []) cfg = none
parse_flags (flag ∷ value ∷ rest) cfg = elim (set_field flag value cfg) [
  | none ↦ none
  | some cfg' ↦ parse_flags rest cfg'
]

abbrev is_unset : Bytes → Bool
is_unset [] = true
is_unset (c ∷ s) = false

abbrev or_else : Bytes → Bytes → Bytes
or_else value instead = if is_unset value then instead else value

-- Behind the loop: a user and a password are needed, and two fields are made from the user.
abbrev pub complete_config : Config → Option Config
complete_config cfg =
    if is_unset cfg.user || is_unset cfg.password
    then none
    else some (record cfg {
      file_root = or_else cfg.file_root (snprintf 256 (codes "files/" ++ cfg.user));
      public_key = or_else cfg.public_key (snprintf 2048 (codes "PUBKEY-" ++ cfg.user));
    })

abbrev completed : Option Config → Option Config
completed none = none
completed (some cfg) = complete_config cfg

unfoldable pub parse_args : List Bytes → Config → Option Config
unfolding parse_flags
parse_args args cfg = completed (parse_flags args cfg)
