-- ===== src/Acl/Creating.antt =====
-- createAclFromStat and change_uid of Assignment1/utils.c.
pub mod Texts
pub mod Checked
pub mod Others
use nss_i_assignments.Base.{
  ℕ, Bool, true, false, Option, none, some, [], ◌∷◌, ◌++◌, if◌then◌else◌, Bytes, codes,
}
use nss_i_assignments.CString.{dirname}
use nss_i_assignments.Host.{File, Host, Kernel, seteuid, store_text}
use nss_i_assignments.Acl.Line.{build_perm, get_acl_filename}
use nss_i_assignments.Acl.Checking.{get_usr_name}
use nss_i_assignments.Acl.Setting.{user_line}

abbrev pub owner_perm : ℕ → Bytes
owner_perm mode = build_perm mode 256 128 64

abbrev pub group_perm : ℕ → Bytes
group_perm mode = build_perm mode 32 16 8

abbrev pub other_perm : ℕ → Bytes
other_perm mode = build_perm mode 4 2 1

-- What the four calls of fprintf write.
abbrev pub stat_text : Bytes → ℕ → Bytes
stat_text owner mode =
    codes "default:user:"
    ++ (owner_perm mode
        ++ (codes "\n"
            ++ (codes "default:group:"
                ++ (group_perm mode
                    ++ (codes "\n"
                        ++ (codes "default:other:"
                            ++ (other_perm mode
                                ++ (codes "\n" ++ user_line owner (owner_perm mode)))))))))

-- The file is emptied before the owner's name is looked up.
abbrev pub create_named : Kernel → Bytes → ℕ → Host → Option Bytes → Bool × Host
create_named k acl mode h none = (false, store_text k acl [] h)
create_named k acl mode h (some owner) = (true, store_text k acl (stat_text owner mode) h)

abbrev pub create_at : Kernel → Bytes → File → Host → Bool × Host
create_at k [] f h = (false, h)
create_at k (c ∷ acl) f h =
    if k.may_write h (c ∷ acl)
    then create_named k (c ∷ acl) f.mode h (get_usr_name k f.owner)
    else (false, h)

abbrev pub create_found : Kernel → Bytes → Host → Option File → Bool × Host
create_found k file h none = (false, h)
create_found k file h (some f) = create_at k (get_acl_filename file) f h

unfoldable pub create_acl_from_stat : Kernel → Bytes → Host → Bool × Host
create_acl_from_stat k file h = create_found k file h (h.files file)

abbrev change_found : Host → Option File → Host
change_found h none = h
change_found h (some f) = (seteuid f.owner h).1

unfoldable pub change_uid : Bytes → Host → Host
change_uid path h = change_found h (h.files (dirname path))
