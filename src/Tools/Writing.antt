-- ===== src/Tools/Writing.antt =====
-- Assignment1/fput.c.
pub mod Outcomes
pub mod Ends
pub mod Guarded
use nss_i_assignments.Base.{
  ℕ, Bool, true, false, Option, none, some, List, [], ◌∷◌, ◌++◌, if◌then◌else◌, Bytes, codes,
  length, drop,
}
use nss_i_assignments.CString.{dirname}
use nss_i_assignments.Common.Io.{Write, write_all}
use nss_i_assignments.Host.{File, Host, Kernel, seteuid, set_file, print}
use nss_i_assignments.Acl.Line.{get_acl_filename}
use nss_i_assignments.Acl.Checking.{get_usr_name, check_perm_from_acl}
use nss_i_assignments.Acl.Creating.{create_acl_from_stat, change_uid}
use nss_i_assignments.Tools.Reading.{denied, asked, asked_of}

-- The scripts of write for the text and for the newline; whether stat succeeds on a file that is
-- there; and whether open succeeds, which creates the file where there is none.
pub record Calls : Type 0 where
  pub stats : Host → Bytes → Bool
  pub opens : Host → Bytes → Bool
  pub text : List Write
  pub newline : List Write

-- stat, which may fail on a file that is there.
abbrev pub stat_found : Bool → Option File → Option File
stat_found true o = o
stat_found false o = none

abbrev pub stat : Calls → Bytes → Host → Option File
stat calls path h = stat_found (calls.stats h path) (h.files path)

-- write_all of the text, and of the newline only if that succeeded: whether both did, and the bytes.
abbrev newline_written : Bytes → Bool × Bytes → Bool × Bytes
newline_written before n = (n.0, before ++ n.1)

abbrev then_newline : Calls → Bool × Bytes → Bool × Bytes
then_newline calls (false, w) = (false, w)
then_newline calls (true, w) = newline_written w (write_all (codes "\n") calls.newline)

unfoldable pub write_line : Calls → Bytes → Bool × Bytes
write_line calls text = then_newline calls (write_all text calls.text)

-- The bytes go behind what the file holds.
abbrev pub add_text : Bytes → Bytes → Option File → Host → Host
add_text path w none h = h
add_text path w (some f) h = set_file path (some (record f { text = f.text ++ w })) h

abbrev pub append_end : Bytes → Host → Bool × Bytes → ℕ × Host
append_end path h (false, w) = (1, add_text path w (h.files path) h)
append_end path h (true, w) = (0, (seteuid h.ruid (add_text path w (h.files path) h)).1)

abbrev pub append_open : Calls → Bytes → Bytes → Bool × Host → ℕ × Host
append_open calls path text (false, h) = (1, h)
append_open calls path text (true, h) =
    if calls.opens h path then append_end path h (write_line calls text) else (1, h)

abbrev pub fput_denied : Option Bytes → Bytes → Host → ℕ × Host
fput_denied user path h = (1, print (denied (codes "fput") user (codes "write to ") path) h)

abbrev pub append_checked : Calls → Bytes → Bytes → Option Bytes → File → Bool × Host → ℕ × Host
append_checked calls path text user f (false, h) = fput_denied user path h
append_checked calls path text user f (true, h) = append_open calls path text (seteuid f.owner h)

-- open with O_CREAT and without O_TRUNC: a new file of the effective user, or the one that is there.
abbrev pub created : Kernel → Host → Option File → File
created k h none = record { owner = h.euid; mode = k.masked 420; is_dir = false; text = [] }
created k h (some f) = f

-- The bytes go over the start of what the file holds.
abbrev pub put_over : Bytes → Bytes → Bytes
put_over w old = w ++ drop (length w) old

abbrev pub over_text : Bytes → Bytes → Option File → Host → Host
over_text path w none h = h
over_text path w (some f) h = set_file path (some (record f { text = put_over w f.text })) h

abbrev pub fill_end : Bytes → Host → Bool × Bytes → ℕ × Host
fill_end path h (false, w) = (1, over_text path w (h.files path) h)
fill_end path h (true, w) = (0, over_text path w (h.files path) h)

abbrev pub create_open : Kernel → Calls → Bytes → Bytes → Host → ℕ × Host
create_open k calls path text h =
    if calls.opens h path
    then fill_end path
        (create_acl_from_stat k path (set_file path (some (created k h (h.files path))) h)).1
        (write_line calls text)
    else (1, h)

-- Under sudo the permission to run the command is asked for.
abbrev pub create_sudo : Kernel → Calls → Bytes → Bytes → Option Bytes → Bool × Host → ℕ × Host
create_sudo k calls path text user (false, h) = fput_denied user path h
create_sudo k calls path text user (true, h) = create_open k calls path text (change_uid path h)

-- Otherwise that to write to the directory, where there is one.
abbrev pub create_as : Kernel → Calls → Bytes → Bytes → Bool × Host → ℕ × Host
create_as k calls path text (false, h) = (1, h)
create_as k calls path text (true, h) = create_open k calls path text h

abbrev pub create_checked :
    Kernel → Calls → Bytes → Bytes → Option Bytes → File → Bool × Host → ℕ × Host
create_checked k calls path text user dir (false, h) = fput_denied user path h
create_checked k calls path text user dir (true, h) =
    create_as k calls path text (seteuid dir.owner h)

abbrev pub create_in : Kernel → Calls → Bytes → Bytes → Option Bytes → Host → Option File → ℕ × Host
create_in k calls path text user h none = create_open k calls path text h
create_in k calls path text user h (some dir) =
    create_checked k calls path text user dir
      (check_perm_from_acl k (get_acl_filename (dirname path)) user b'w' true h)

abbrev pub fput_create :
    Kernel → Calls → Bool → Bytes → Bytes → Bytes → Option Bytes → Host → ℕ × Host
fput_create k calls true program path text user h =
    create_sudo k calls path text user
      (check_perm_from_acl k (get_acl_filename program) user b'x' false h)
fput_create k calls false program path text user h =
    create_in k calls path text user h (stat calls (dirname path) h)

abbrev pub fput_found :
    Kernel → Calls → Bool → Bytes → Bytes → Bytes → Host → Option File → ℕ × Host
fput_found k calls sudo program path text h none =
    fput_create k calls sudo program path text (get_usr_name k h.ruid) h
fput_found k calls sudo program path text h (some f) =
    let user = get_usr_name k h.ruid in
    append_checked calls path text user f
      (check_perm_from_acl k (asked_of sudo program path) user (asked sudo b'w') false h)

abbrev pub fput_usage : Bytes
fput_usage = codes "Usage: fput FILENAME <string>\n"

abbrev pub fput_args : Kernel → Calls → Bool → List Bytes → Bool × Host → ℕ × Host
fput_args k calls sudo args (false, h) = (1, h)
fput_args k calls sudo (program ∷ path ∷ text ∷ []) (true, h) =
    fput_found k calls sudo program path text h (stat calls path h)
fput_args k calls sudo _ (true, h) = (1, print fput_usage h)

unfoldable pub fput_main : Kernel → Calls → Bool → List Bytes → Host → ℕ × Host
unfolding write_line
fput_main k calls sudo args h = fput_args k calls sudo args (seteuid h.ruid h)
