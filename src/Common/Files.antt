-- ===== src/Common/Files.antt =====
-- save_file_atomic of Assignment2/a2_common.c. The disk gives the content of
-- each file that there is; the other arguments say how the system calls end.
pub mod Atomic
use nss_i_assignments.Base.{
  ℕ, Bool, true, false, not, ◌&&◌, Option, none, some, List, [], ◌∷◌, ◌++◌, ltb, if◌then◌else◌,
  Bytes, codes, length,
}
use nss_i_assignments.CString.{str_eq, print_dec}
use nss_i_assignments.Common.Io.{Write, write_all}

abbrev pub Disk : Type 0
Disk = Bytes → Option Bytes

abbrev pub put : Disk → Bytes → Option Bytes → Disk
put disk path value other = if str_eq path other then value else disk other

-- How the calls of one save end: open, the writes, close and rename.
pub record Calls : Type 0 where
  pub pid : ℕ
  pub opens : Bool
  pub writes : List Write
  pub closes : Bool
  pub renames : Bool

abbrev pub tmp_path : Bytes → ℕ → Bytes
tmp_path path pid = path ++ (codes ".tmp." ++ print_dec pid)

abbrev rename_tmp : Calls → Bytes → Bytes → Disk → Bool × Disk
rename_tmp calls path tmp disk =
    if calls.closes && calls.renames
    then (true, put (put disk path (disk tmp)) tmp none)
    else (false, put disk tmp none)

abbrev pub write_tmp : Calls → Bytes → Bytes → Disk → Bool × Bytes → Bool × Disk
write_tmp calls path tmp disk (true, written) =
    rename_tmp calls path tmp (put disk tmp (some written))
write_tmp calls path tmp disk (false, written) = (false, put (put disk tmp (some written)) tmp none)

-- Whether the result is 0, and the disk afterwards.
unfoldable pub save_file_atomic : Calls → Bytes → Bytes → Disk → Bool × Disk
save_file_atomic calls path bytes disk =
    let tmp = tmp_path path calls.pid in
    if not (ltb (length tmp) 1024)
    then (false, disk)
    else if not calls.opens
    then (false, disk)
    else write_tmp calls path tmp disk (write_all bytes calls.writes)
