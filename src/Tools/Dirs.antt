-- ===== src/Tools/Dirs.antt =====
-- Assignment1/cd.c and Assignment1/create_dir.c.
pub mod Climbing
use nss_i_assignments.Base.{
  ℕ, zero, suc, Bool, true, false, not, ◌&&◌, ◌||◌, Option, none, some, List, [], ◌∷◌, ◌++◌, ◌==◌,
  if◌then◌else◌, Bytes, codes, length, ◌>>=◌,
}
use nss_i_assignments.CString.{ℤ, pos, negsuc, dirname}
use nss_i_assignments.CString.FilePath.Climbing.{is_top}
use nss_i_assignments.Host.{File, Host, Kernel, seteuid, set_file, print}
use nss_i_assignments.Acl.Line.{get_acl_filename}
use nss_i_assignments.Acl.Checking.{get_usr_name, check_perm_from_acl}
use nss_i_assignments.Acl.Creating.{create_acl_from_stat, change_uid}
use nss_i_assignments.Tools.Options.{search_opts, separate_opts}
use nss_i_assignments.Tools.Reading.{shown}

-- The loop of cd over the directory and those above it: whether each ACL lets the user through;
-- `none` where the fuel runs out.
unfoldable pub cd_climb : Kernel → Option Bytes → ℕ → Bytes → Host → Option (Bool × Host)
cd_climb k user zero dir h = none
cd_climb k user (suc f) dir h = elim (is_top dir) [
  | true ↦ some (true, h)
  | false ↦
      let answer = check_perm_from_acl k (get_acl_filename dir) user b'x' true h in
      elim answer.0 [
        | false ↦ some (false, answer.1)
        | true ↦ cd_climb k user f (dirname dir) answer.1
      ]
]

-- The directory that the process has changed to, if any, with the status and the host.
pub record Went : Type 0 where
  pub status : ℤ
  pub to : Option Bytes
  pub host : Host

abbrev pub stay : ℤ → Host → Went
stay status h = record { status = status; to = none; host = h }

-- Whether chdir succeeds, and the text of its error.
pub record Chdir : Type 0 where
  pub may : Host → Bytes → Bool
  pub error : Bytes

abbrev pub cd_change : Chdir → Bytes → Host → Went
cd_change chdir dir h =
    if chdir.may h dir
    then record { status = pos 0; to = some dir; host = (seteuid h.ruid h).1 }
    else stay (negsuc 0)
        (print (codes "cd: " ++ (dir ++ (codes ": " ++ (chdir.error ++ codes "\n")))) h)

-- The owner of the directory, where there is one, is taken for the change.
abbrev pub cd_as : Chdir → Bytes → Host → Option File → Went
cd_as chdir dir h none = cd_change chdir dir h
cd_as chdir dir h (some f) = cd_change chdir dir (seteuid f.owner h).1

abbrev pub cd_denied : Option Bytes → Bytes → Bytes
cd_denied user dir =
    codes "cd: " ++ (shown user ++ (codes " denied permission to cd to " ++ (dir ++ codes "\n")))

abbrev pub cd_allowed : Chdir → Option Bytes → Bytes → Bool × Host → Went
cd_allowed chdir user dir (false, h) = stay (pos 1) (print (cd_denied user dir) h)
cd_allowed chdir user dir (true, h) = cd_as chdir dir h (h.files dir)

abbrev pub cd_climbed : Chdir → Option Bytes → Bytes → Option (Bool × Host) → Option Went
cd_climbed chdir user dir none = none
cd_climbed chdir user dir (some r) = some (cd_allowed chdir user dir r)

abbrev pub cd_to : Kernel → Chdir → Bool → Bytes → Bytes → Host → Option Went
cd_to k chdir true program dir h =
    let user = get_usr_name k h.ruid in
    some (
      cd_allowed chdir user dir
        (check_perm_from_acl k (get_acl_filename program) user b'x' false h))
cd_to k chdir false program dir h =
    let user = get_usr_name k h.ruid in
    cd_climbed chdir user dir (cd_climb k user (suc (suc (length dir))) dir h)

-- `home` is HOME, which is set; `none` would mean that the loop has not ended.
unfoldable pub cd_main : Kernel → Chdir → Bool → Bytes → Bytes → List Bytes → Host → Option Went
unfolding cd_climb
cd_main k chdir sudo home program [] h = cd_to k chdir sudo program home (seteuid h.ruid h).1
cd_main k chdir sudo home program (dir ∷ []) h = cd_to k chdir sudo program dir (seteuid h.ruid h).1
cd_main k chdir sudo home program _ h =
    some (stay (negsuc 0) (print (codes "cd: too many arguments\n") h))
