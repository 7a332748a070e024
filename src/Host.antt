-- ===== src/Host.antt =====
-- What the programs of Assignment1 use of the system: the files, the user ids of the process and the
-- standard output. A `Kernel` says which calls succeed. Errors printed to stderr are left out.
pub mod Ids
pub mod Files
use nss_i_assignments.Base.{
  ℕ, Bool, true, false, ◌||◌, Option, none, some, List, [], ◌∷◌, ◌++◌, ◌==◌, if◌then◌else◌, Bytes,
}
use nss_i_assignments.CString.{str_eq}

pub record File : Type 0 where
  pub owner : ℕ
  pub mode : ℕ
  pub is_dir : Bool
  pub text : Bytes

-- `cap_setuid` says that the process has the capability of that name, as the Makefile installs the
-- commands; it is taken to last. `out` has one entry for each call that prints. A file is known by the path that the program writes.
pub record Host : Type 0 where
  pub files : Bytes → Option File
  pub ruid : ℕ
  pub euid : ℕ
  pub suid : ℕ
  pub cap_setuid : Bool
  pub out : List Bytes

-- Whether fopen(path, "r"), fopen(path, "w"), fclose, rename and the like succeed in a state, what
-- getpwuid and getpwnam know, and what the umask leaves of a mode. `gets` is what a loop over fgets
-- gets of a text, which is less than the whole where a read fails; and `puts` what reaches the file of
-- what fprintf and fputs write.
pub record Kernel : Type 0 where
  pub pid : ℕ
  pub masked : ℕ → ℕ
  pub may_read : Host → Bytes → Bool
  pub may_write : Host → Bytes → Bool
  pub gets : Bytes → Bytes → Bytes
  pub puts : Bytes → Bytes → Bytes
  pub may_close : Host → Bytes → Bool
  pub may_rename : Host → Bytes → Bytes → Bool
  pub name_of : ℕ → Option Bytes
  pub has_user : Bytes → Bool

-- seteuid: root and a process with the capability may take any id, another one those it has.
abbrev pub may_seteuid : ℕ → Host → Bool
may_seteuid u h = h.cap_setuid || h.euid == 0 || (u == h.ruid || (u == h.euid || u == h.suid))

abbrev pub seteuid : ℕ → Host → Bool × Host
seteuid u h = if may_seteuid u h then (true, record h { euid = u }) else (false, h)

abbrev pub set_file : Bytes → Option File → Host → Host
set_file path f h = record h { files = λ other. if str_eq path other then f else h.files other }

-- fopen(path, "r"), and what there is to read.
abbrev pub read_opened : Bool → Option File → Option Bytes
read_opened may none = none
read_opened may (some f) = if may then some f.text else none

abbrev pub fopen_r : Kernel → Bytes → Host → Option Bytes
fopen_r k path h = read_opened (k.may_read h path) (h.files path)

-- fopen(path, "w") and the text that is written until fclose: a file that exists keeps its owner and
-- its mode.
abbrev pub written : Kernel → Bytes → Host → Option File → File
written k text h none = record { owner = h.euid; mode = k.masked 438; is_dir = false; text = text }
written k text h (some f) = record f { text = text }

abbrev pub store_text : Kernel → Bytes → Bytes → Host → Host
store_text k path text h = set_file path (some (written k text h (h.files path))) h

abbrev pub unlink : Bytes → Host → Host
unlink path h = set_file path none h

-- rename, when it succeeds.
abbrev pub rename : Bytes → Bytes → Host → Host
rename old new h = unlink old (set_file new (h.files old) h)

abbrev pub print : Bytes → Host → Host
print text h = record h { out = h.out ++ text ∷ [] }
