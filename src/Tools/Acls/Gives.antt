-- ===== src/Tools/Acls/Gives.antt =====
-- setacl of Assignment1/setacl.c, when a user who may do it gives another one permissions.
use nss_i_assignments.Base.{
  ◌≡◌, ◌≢◌, refl, ◌∙◌, ap, inr, Bool, true, false, some, List, [], ◌∷◌, ◌++◌, ◌==◌, Bytes, codes,
  length, All-map, arith,
}
use nss_i_assignments.CString.{pos, str_eq, contains, Free, strtok, strtok-token, strtok-last}
use nss_i_assignments.Host.{File, Host, Kernel, may_seteuid, seteuid}
use nss_i_assignments.Host.Ids.{IsHome, as_caller, caller_allowed, seteuid_allowed}
use nss_i_assignments.Acl.Line.{get_acl_filename, valid_perm_string}
use nss_i_assignments.Acl.Checking.{get_usr_name}
use nss_i_assignments.Acl.Checking.Caller.{check-Allows}
use nss_i_assignments.Acl.Checking.Decides.{Allows}
use nss_i_assignments.Acl.Setting.{set_perm_in_acl}
use nss_i_assignments.Acl.Setting.ThenChecked.{CanSet}
use nss_i_assignments.Tools.Options.{is_option, set_option, search_args}
use nss_i_assignments.Tools.Acls.{
  setacl_opts, all_unset, set_checked, set_found, perm_of, set_spec, set_searched, setacl_main,
}

-- The specification that gives a user permissions.
abbrev pub spec_of : Bytes → Bytes → Bytes
spec_of user perm = codes "u:" ++ (user ++ (codes ":" ++ perm))

abbrev pub set_args : Bytes → Bytes → Bytes → Bytes → List Bytes
set_args program user perm path = program ∷ codes "-m" ∷ spec_of user perm ∷ path ∷ []

colon-Free : (s : Bytes) → Free (codes ":\n") s → Free (codes ":") s
unfolding contains
colon-Free s h = All-map s (λ c p. ground arith) h

spec-kind :
    (user perm : Bytes)
    → strtok (codes ":") (spec_of user perm) ≡ some (codes "u", user ++ (codes ":" ++ perm))
unfolding contains
spec-kind user perm =
    strtok-token (codes ":") (codes "u") b':' (user ++ (codes ":" ++ perm)) (λ e. cc) (refl, tt)
      refl

spec-user :
    (user perm : Bytes)
    → user ≢ []
    → Free (codes ":\n") user
    → strtok (codes ":") (user ++ (codes ":" ++ perm)) ≡ some (user, perm)
unfolding contains
spec-user user perm ne free = strtok-token (codes ":") user b':' perm ne (colon-Free user free) refl

spec-perm :
    (perm : Bytes)
    → valid_perm_string perm ≡ true
    → Free (codes ":\n") perm
    → strtok (codes ":") perm ≡ some (perm, [])
spec-perm [] v free = cc
spec-perm (c ∷ perm) v free =
    strtok-last (codes ":") (c ∷ perm) (λ e. cc) (colon-Free (c ∷ perm) free)

-- The caller of setacl is not root, may write by the ACL of the file, and can set it as the owner of
-- the file.
pub record MayGive (k : Kernel) (program path user perm : Bytes) (h : Host) (f : File)
    : Type 0 where
  pub plain_path : is_option path ≡ false
  pub three : length perm ≡ 3
  pub known : k.has_user user ≡ true
  pub exists : h.files path ≡ some f
  pub not_root : (h.ruid == 0) ≡ false
  pub allowed : Allows k (get_acl_filename path) (get_usr_name k h.ruid) b'w' false (as_caller h)
  pub owner : may_seteuid f.owner (as_caller h) ≡ true
  pub home : IsHome (record h { euid = f.owner })
  pub can_set : CanSet k (get_acl_filename path) user perm (record h { euid = f.owner })

searched :
    (program user perm path : Bytes) (h : Host)
    → is_option path ≡ false
    → search_args program setacl_opts (codes "-m" ∷ spec_of user perm ∷ path ∷ []) all_unset h
      ≡ (true, (true ∷ false ∷ false ∷ false ∷ false ∷ []), h)
unfolding search_args set_option str_eq
searched program user perm path h plain = rw (plain, search_args)

module _ (k : Kernel) (program path user perm : Bytes) (h : Host) (f : File)
    (m : MayGive k program path user perm h f) where
  abbrev owned : Host
  owned = record h { euid = f.owner }

  abbrev acl : Bytes
  acl = get_acl_filename path

  abbrev pub after : Host
  after = (set_perm_in_acl k acl user perm owned).1

  found-set :
      set_found k false program path user perm (as_caller h) (some f)
      ≡ (pos 0, (seteuid (as_caller h).ruid after).1)
  found-set = rw m.not_root (
      ap (set_checked k path user perm f) (check-Allows k acl b'w' false h m.allowed)
      ∙ ap
          (λ (r : Bool × Host). (pos 0, (seteuid h.ruid (set_perm_in_acl k acl user perm r.1).1).1))
          (seteuid_allowed f.owner (as_caller h) m.owner))

  perm-inr : perm_of true (some (perm, [])) ≡ inr perm
  perm-inr = rw (m.three, m.can_set.entry.valid)

  spec-set :
      set_spec k false true program path h (strtok (codes ":") (spec_of user perm))
      ≡ (pos 0, (seteuid h.ruid after).1)
  unfolding str_eq
  spec-set =
      let entry = m.can_set.entry in
      rw
        (
          spec-kind user perm,
          seteuid_allowed h.ruid h (caller_allowed h),
          spec-user user perm entry.named entry.name_free,
          m.known,
          spec-perm perm entry.valid entry.perm_free,
          perm-inr,
          m.exists,
        )
        found-set

  pub setacl_main-set :
      setacl_main k false (set_args program user perm path) h ≡ (pos 0, (seteuid h.ruid after).1)
  unfolding setacl_main
  setacl_main-set =
      ap (set_searched k false (set_args program user perm path))
        (searched program user perm path h m.plain_path)
      ∙ spec-set
