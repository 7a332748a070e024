-- ===== src/Tools/Writing/Guarded.antt =====
-- fput of Assignment1/fput.c: which files it changes, and when.
use nss_i_assignments.Base.{
  ◌≡◌, ◌≢◌, refl, inl, inr, Bool, true, false, Option, none, some, [], ◌∷◌, Bytes, Bool-cases,
}
use nss_i_assignments.CString.{dirname}
use nss_i_assignments.Host.{File, Host, Kernel}
use nss_i_assignments.Host.Ids.{seteuid_allowed, caller_allowed, as_caller}
use nss_i_assignments.Acl.Line.{get_acl_filename}
use nss_i_assignments.Acl.Checking.{get_usr_name}
use nss_i_assignments.Acl.Checking.Decides.{Allows}
use nss_i_assignments.Acl.Checking.Caller.{checked}
use nss_i_assignments.Acl.Creating.{change_uid}
use nss_i_assignments.Acl.Creating.Others.{change_uid-files}
use nss_i_assignments.Tools.Writing.Ends.{
  kept, create_open-Ends, create_as-Ends, append_checked-Ends,
}
use nss_i_assignments.Tools.Writing.Outcomes.{MayCreate, FputEnds}
use nss_i_assignments.Tools.Reading.{asked, asked_of}
use nss_i_assignments.Tools.Writing.{
  Calls, stat, append_checked, create_sudo, create_checked, create_in, fput_create, fput_found,
  fput_main,
}

module _ (k : Kernel) (calls : Calls) (program path text : Bytes) (h : Host)
    (apart : path ≢ get_acl_filename path) (unseen : stat calls path (as_caller h) ≡ none) where
  sudo-Ends :
      (b : Bool)
      → (b ≡ true → MayCreate k calls true program path h)
      → FputEnds k calls true program path text h
          (create_sudo k calls path text (get_usr_name k h.ruid) (b, as_caller h))
  sudo-Ends false a = kept k calls true program path text h _ refl
  sudo-Ends true a =
      create_open-Ends k calls true program path text h unseen (a refl) apart
        (change_uid path (as_caller h)) (change_uid-files path (as_caller h))

  dir-Ends :
      (dir : File) (b : Bool)
      → (b ≡ true
          → Allows k
              (get_acl_filename (dirname path))
              (get_usr_name k h.ruid)
              b'w'
              true
              (as_caller h))
      → FputEnds k calls false program path text h
          (create_checked k calls path text (get_usr_name k h.ruid) dir (b, as_caller h))
  dir-Ends dir false a = kept k calls false program path text h _ refl
  dir-Ends dir true a =
      create_as-Ends k calls false program path text h unseen (inr (a refl)) apart dir

  in-Ends :
      (o : Option File)
      → stat calls (dirname path) (as_caller h) ≡ o
      → FputEnds k calls false program path text h
          (create_in k calls path text (get_usr_name k h.ruid) (as_caller h) o)
  in-Ends none e =
      create_open-Ends k calls false program path text h unseen (inl e) apart (as_caller h) refl
  in-Ends (some dir) e =
      checked k (get_acl_filename (dirname path)) b'w' true h
        (FputEnds k calls false program path text h)
        (create_checked k calls path text (get_usr_name k h.ruid) dir) (dir-Ends dir)

  create-Ends :
      (sudo : Bool)
      → FputEnds k calls sudo program path text h
          (fput_create k calls sudo program path text (get_usr_name k h.ruid) (as_caller h))
  create-Ends true =
      checked k (get_acl_filename program) b'x' false h (FputEnds k calls true program path text h)
        (create_sudo k calls path text (get_usr_name k h.ruid)) sudo-Ends
  create-Ends false = in-Ends (stat calls (dirname path) (as_caller h)) refl

-- What stat finds is there.
stat-found :
    (calls : Calls) (path : Bytes) (h : Host) (f : File)
    → stat calls path h ≡ some f
    → h.files path ≡ some f
stat-found calls path h f e = elim (Bool-cases (calls.stats h path)) [
  | inl t ↦ rw t at e
  | inr n ↦ let bad : none ≡ some f = rw n at e in cc
]

found-Ends :
    (k : Kernel) (calls : Calls) (sudo : Bool) (program path text : Bytes) (h : Host)
    → path ≢ get_acl_filename path
    → (o : Option File) → stat calls path (as_caller h) ≡ o
    → FputEnds k calls sudo program path text h
        (fput_found k calls sudo program path text (as_caller h) o)
found-Ends k calls sudo program path text h apart none e =
    create-Ends k calls program path text h apart e sudo
found-Ends k calls sudo program path text h apart (some f) e =
    checked k (asked_of sudo program path) (asked sudo b'w') false h
      (FputEnds k calls sudo program path text h)
      (append_checked calls path text (get_usr_name k h.ruid) f)
      (append_checked-Ends k calls sudo program path text h f
        (stat-found calls path (as_caller h) f e))

-- fput with its two arguments changes no file but the one they name and its ACL. It fails and
-- changes nothing; or it appends the line to a file that stat finds and the ACL lets the user write;
-- or stat does not find the file, and the directory's ACL allows the user to write there, or stat
-- finds no directory: then it makes the file, or, where it is there nevertheless, writes over its
-- start, and its own ACL is not asked. Under sudo the permission is that of running the command.
-- With status 0 the whole line is written, and with a failure on writing a part from its start. The
-- file is not its own ACL.
pub fput_main-FputEnds :
    (k : Kernel) (calls : Calls) (sudo : Bool) (program path text : Bytes) (h : Host)
    → path ≢ get_acl_filename path
    → FputEnds k calls sudo program path text h
        (fput_main k calls sudo (program ∷ path ∷ text ∷ []) h)
unfolding fput_main
fput_main-FputEnds k calls sudo program path text h apart =
    rw (seteuid_allowed h.ruid h (caller_allowed h))
      (found-Ends k calls sudo program path text h apart (stat calls path (as_caller h)) refl)
