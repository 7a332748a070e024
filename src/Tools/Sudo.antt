-- ===== src/Tools/Sudo.antt =====
-- Assignment1/sudo.c.
pub mod Permitted
use nss_i_assignments.Base.{
  ℕ, Bool, true, false, not, ◌||◌, Option, none, some, List, [], ◌∷◌, ◌++◌, ltb, if◌then◌else◌,
  Bytes, codes, length,
}
use nss_i_assignments.CString.{str_eq, contains, strstr}

abbrev pub allowed_names : List Bytes
allowed_names =
    codes "fput"
    ∷ codes "fget"
    ∷ codes "create_dir"
    ∷ codes "cd"
    ∷ codes "setacl"
    ∷ codes "getacl"
    ∷ []

unfoldable pub any_equal : Bytes → List Bytes → Bool
any_equal cmd [] = false
any_equal cmd (a ∷ names) = str_eq cmd a || any_equal cmd names

unfoldable pub allowed_command : Bytes → Bool
unfolding any_equal
allowed_command cmd =
    if contains b'/' cmd || strstr (codes "..") cmd then false else any_equal cmd allowed_names

-- What is run: the path that execv gets, and its arguments. SUDO_MODE is set for it.
pub record Run : Type 0 where
  pub path : Bytes
  pub args : List Bytes

-- How fork, execv and waitpid end. A child that could not be replaced exits with 127.
pub data Child : Type 0 where
  no_fork : Child
  lost : Child
  exited : ℕ → Child
  signalled : Child

abbrev pub execute_process : (Run → Child) → Run → ℕ × List Run
execute_process start run = elim (start run) [
  | no_fork ↦ (1, [])
  | lost ↦ (1, run ∷ [])
  | exited status ↦ (status, run ∷ [])
  | signalled ↦ (1, run ∷ [])
]

abbrev run_at : (Run → Child) → Bool → Bytes → List Bytes → ℕ × List Run
run_at start sets path args =
    if not (ltb (length path) 1024)
    then (1, [])
    else if not sets
    then (1, [])
    else execute_process start (record { path = path; args = args })

-- The exit status and the runs; `sets` says whether setenv succeeds.
unfoldable pub sudo_main : (Run → Child) → Bool → List Bytes → ℕ × List Run
unfolding allowed_command
sudo_main start sets (program ∷ cmd ∷ args) =
    if not (allowed_command cmd)
    then (1, [])
    else run_at start sets (codes "/fakeroot/" ++ cmd) (cmd ∷ args)
sudo_main start sets _ = (1, [])
