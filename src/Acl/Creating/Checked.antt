-- ===== src/Acl/Creating/Checked.antt =====
-- The ACL that createAclFromStat of Assignment1/utils.c makes, and what checkPermFromAcl reads in it.
use Prim.Native.Nat.{bit_and}
use nss_i_assignments.Base.{
  ℕ, ◌≡◌, ◌≢◌, refl, ◌∙◌, true, false, not, Option, none, some, [], ◌∷◌, Bytes, ◌==◌, arith,
}
use nss_i_assignments.CString.{str_eq, str_eq_iff, str_eq_self, contains}
use nss_i_assignments.Host.{File, Host, Kernel, store_text, written}
use nss_i_assignments.Host.Files.{set_file_self}
use nss_i_assignments.Acl.Line.{get_acl_filename}
use nss_i_assignments.Acl.Setting.Answers.{IsAcl, says}
use nss_i_assignments.Acl.Creating.{owner_perm, stat_text, create_acl_from_stat, create_at}
use nss_i_assignments.Acl.Creating.Texts.{
  perm_text_r, perm_text_w, perm_text_x, IsName, stat_text-IsAcl, stat_text-says,
}

-- What a new ACL says: the owner has what the mode gives it, and nobody else anything.
pub record SaysMode (owner : Bytes) (mode : ℕ) (text : Bytes) : Type 0 where
  pub formed : IsAcl text
  pub reads : says owner b'r' text ≡ not (bit_and mode 256 == 0)
  pub writes : says owner b'w' text ≡ not (bit_and mode 128 == 0)
  pub executes : says owner b'x' text ≡ not (bit_and mode 64 == 0)
  pub others : (other : Bytes) (p : ℕ) → other ≢ owner → says other p text ≡ false

stat_text-SaysMode :
    (owner : Bytes) (mode : ℕ) → IsName owner → SaysMode owner mode (stat_text owner mode)
stat_text-SaysMode owner mode n = record {
  formed = stat_text-IsAcl owner mode n;
  reads = own b'r' ∙ perm_text_r _ _ _;
  writes = own b'w' ∙ perm_text_w _ _ _;
  executes = own b'x' ∙ perm_text_x _ _ _;
  others = λ other p ne.
      let away : str_eq owner other ≡ false = ground (arith, str_eq_iff owner other) in
      stat_text-says owner mode n other p ∙ rw away;
}
  where
    own : (p : ℕ) → says owner p (stat_text owner mode) ≡ contains p (owner_perm mode)
    own p = stat_text-says owner mode n owner p ∙ rw (str_eq_self owner)

-- The new ACL stands beside the file.
pub record Created (owner : Bytes) (mode : ℕ) (acl : Bytes) (h : Host) : Type 0 where
  pub file : File
  pub stands : h.files acl ≡ some file
  pub says_mode : SaysMode owner mode file.text

store-Created :
    (k : Kernel) (acl owner : Bytes) (mode : ℕ) (h : Host) (o : Option File)
    → h.files acl ≡ o
    → IsName owner
    → Created owner mode acl (store_text k acl (stat_text owner mode) h)
store-Created k acl owner mode h none e n = record {
  file = written k (stat_text owner mode) h none;
  stands = set_file_self acl _ h ∙ rw e;
  says_mode = stat_text-SaysMode owner mode n;
}
store-Created k acl owner mode h (some f) e n = record {
  file = written k (stat_text owner mode) h (some f);
  stands = set_file_self acl _ h ∙ rw e;
  says_mode = stat_text-SaysMode owner mode n;
}

create_at-Created :
    (k : Kernel) (acl : Bytes) (h : Host) (f : File) (owner : Bytes)
    → k.name_of f.owner ≡ some owner
    → IsName owner
    → acl ≢ []
    → k.may_write h acl ≡ true
    → ((create_at k acl f h).0 ≡ true) × Created owner f.mode acl (create_at k acl f h).1
create_at-Created k [] h f owner who n ne w = absurd (ne refl)
create_at-Created k (c ∷ acl) h f owner who n ne w =
    rw (w, who) (refl, store-Created k (c ∷ acl) owner f.mode h (h.files (c ∷ acl)) refl n)

-- createAclFromStat on a file whose owner has a name that can stand in a line: it succeeds, and the
-- ACL that then stands beside the file is well formed, gives the owner exactly what the owner's bits
-- of the mode give, and gives nobody else anything. The name of the ACL fits, and the file of that
-- name can be written.
pub create_acl_from_stat-Created :
    (k : Kernel) (path : Bytes) (h : Host) (f : File) (owner : Bytes)
    → h.files path ≡ some f
    → k.name_of f.owner ≡ some owner
    → IsName owner
    → get_acl_filename path ≢ []
    → k.may_write h (get_acl_filename path) ≡ true
    → ((create_acl_from_stat k path h).0 ≡ true)
      × Created owner f.mode (get_acl_filename path) (create_acl_from_stat k path h).1
unfolding create_acl_from_stat
create_acl_from_stat-Created k path h f owner e who n ne w =
    rw e (create_at-Created k (get_acl_filename path) h f owner who n ne w)
