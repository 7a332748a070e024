-- ===== src/Tools/Reading.antt =====
-- Assignment1/fget.c.
pub mod Copying
pub mod Guarded
pub mod Prints
use Prim.Native.Nat.{min}
use nss_i_assignments.Base.{
  ℕ, zero, suc, ◌+◌, ◌-◌, Bool, true, false, not, Option, none, some, List, [], ◌∷◌, ◌++◌, ◌==◌,
  if◌then◌else◌, Bytes, codes, length, take, drop,
}
use nss_i_assignments.Common.Io.{Write, write_all}
use nss_i_assignments.Host.{File, Host, Kernel, seteuid, fopen_r, print}
use nss_i_assignments.Acl.Line.{get_acl_filename}
use nss_i_assignments.Acl.Checking.{get_usr_name, check_perm_from_acl}

-- What the calls of read on the file and of write on the output do, by the number of the round: how
-- many bytes beyond the first one read gives, or an error, and the script of write.
pub record Calls : Type 0 where
  pub reads : ℕ → Option ℕ
  pub writes : ℕ → List Write

-- The loop over read, with the round and what has been put out; `none` where the fuel runs out.
unfoldable pub copy_loop : Calls → ℕ → ℕ → Bytes → Bytes → Option (Bool × Bytes)
copy_loop calls zero i text out = none
copy_loop calls (suc f) i [] out = elim (calls.reads i) [
  | none ↦ some (false, out)
  | some n ↦ some (true, out)
]
copy_loop calls (suc f) i (b ∷ bs) out = elim (calls.reads i) [
  | none ↦ some (false, out)
  | some n ↦
      let taken = min n 1023 in
      let sent = write_all (b ∷ take taken bs) (calls.writes i) in
      elim sent.0 [
        | false ↦ some (false, out ++ sent.1)
        | true ↦ copy_loop calls f (i + 1) (drop taken bs) (out ++ sent.1)
      ]
]

-- A null name is printed as glibc prints it.
abbrev pub shown : Option Bytes → Bytes
shown none = codes "(null)"
shown (some name) = name

abbrev pub denied : Bytes → Option Bytes → Bytes → Bytes → Bytes
denied command user what path =
    command
    ++ (codes ": "
        ++ (shown user ++ (codes " denied permission to " ++ (what ++ (path ++ codes "\n")))))

abbrev pub missing : Bytes → Bytes → Bytes
missing command path = command ++ (codes ": " ++ (path ++ codes " does not exist\n"))

abbrev pub fget_usage : Bytes
fget_usage = codes "Usage: fget FILENAME \n"

-- The permission asked for: under sudo that of running the command.
abbrev pub asked : Bool → ℕ → ℕ
asked sudo perm = if sudo then b'x' else perm

abbrev pub asked_of : Bool → Bytes → Bytes → Bytes
asked_of sudo program path = get_acl_filename (if sudo then program else path)

-- What is put out, and the end of main behind the loop.
abbrev pub fget_end : Host → Option (Bool × Bytes) → Option (ℕ × Host)
fget_end h none = none
fget_end h (some (false, out)) = some (1, print out h)
fget_end h (some (true, out)) = some (0, (seteuid h.ruid (print out h)).1)

abbrev pub fget_copy : Calls → Host → Option Bytes → Option (ℕ × Host)
fget_copy calls h none = some (1, h)
fget_copy calls h (some text) = fget_end h (copy_loop calls (suc (length text)) 0 text [])

abbrev pub fget_open : Kernel → Calls → Bytes → Bool × Host → Option (ℕ × Host)
fget_open k calls path (false, h) = some (1, h)
fget_open k calls path (true, h) = fget_copy calls h (fopen_r k path h)

abbrev pub fget_checked :
    Kernel → Calls → Bytes → Option Bytes → File → Bool × Host → Option (ℕ × Host)
fget_checked k calls path user f (false, h) =
    some (1, print (denied (codes "fget") user (codes "read from ") path) h)
fget_checked k calls path user f (true, h) = fget_open k calls path (seteuid f.owner h)

abbrev pub fget_found :
    Kernel → Calls → Bool → Bytes → Bytes → Host → Option File → Option (ℕ × Host)
fget_found k calls sudo program path h none = some (1, print (missing (codes "fget") path) h)
fget_found k calls sudo program path h (some f) =
    let user = get_usr_name k h.ruid in
    fget_checked k calls path user f
      (check_perm_from_acl k (asked_of sudo program path) user (asked sudo b'r') false h)

abbrev pub fget_args : Kernel → Calls → Bool → List Bytes → Bool × Host → Option (ℕ × Host)
fget_args k calls sudo args (false, h) = some (1, h)
fget_args k calls sudo (program ∷ path ∷ []) (true, h) =
    fget_found k calls sudo program path h (h.files path)
fget_args k calls sudo _ (true, h) = some (1, print fget_usage h)

-- `sudo` says whether SUDO_MODE is set; `none` would mean that the loop has not ended.
unfoldable pub fget_main : Kernel → Calls → Bool → List Bytes → Host → Option (ℕ × Host)
unfolding copy_loop
fget_main k calls sudo args h = fget_args k calls sudo args (seteuid h.ruid h)
