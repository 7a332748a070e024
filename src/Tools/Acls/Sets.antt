-- ===== src/Tools/Acls/Sets.antt =====
-- setacl of Assignment1/setacl.c, from the path on: the check and setPermInAcl.
use nss_i_assignments.Base.{
  ℕ, ◌≡◌, ◌≢◌, refl, sym, ◌∙◌, ap, ◌⊎◌, inl, inr, Bool, true, false, Option, none, some, ◌==◌,
  ==_iff, Bytes, arith, Bool-cases,
}
use nss_i_assignments.CString.{ℤ}
use nss_i_assignments.Common.Files.{tmp_path}
use nss_i_assignments.Host.{File, Host, Kernel, may_seteuid, seteuid}
use nss_i_assignments.Host.Ids.{IsHome, as_caller, seteuid-files}
use nss_i_assignments.Acl.Line.{get_acl_filename}
use nss_i_assignments.Acl.Checking.{get_usr_name}
use nss_i_assignments.Acl.Checking.Decides.{Allows}
use nss_i_assignments.Acl.Checking.Caller.{checked}
use nss_i_assignments.Acl.Setting.{set_perm_in_acl}
use nss_i_assignments.Acl.Setting.Outcomes.{Replaced, set_perm_in_acl-Ends}
use nss_i_assignments.Tools.Reading.{asked, asked_of}
use nss_i_assignments.Tools.Acls.{set_checked, set_found}

-- Who may set the ACL of a file: root, and whom that ACL lets write, or under sudo the ACL of the
-- command lets run it.
abbrev pub MaySet : Kernel → Bool → Bytes → Bytes → Host → Type 0
MaySet k sudo program path h =
    (h.ruid ≡ 0)
    ⊎ Allows k (asked_of sudo program path) (get_usr_name k h.ruid) (asked sudo b'w') false
        (as_caller h)

-- The ACL of the file is set for one user by one that may do it, or is left; nothing else changes
-- but the temporary file.
pub record SetsOne (k : Kernel) (sudo : Bool) (program path user perm : Bytes) (h : Host)
    (after : Host) : Type 0 where
  pub may : MaySet k sudo program path h
  pub others :
      (other : Bytes)
      → other ≢ get_acl_filename path
      → other ≢ tmp_path (get_acl_filename path) k.pid
      → after.files other ≡ h.files other
  pub acl :
      Replaced k (get_acl_filename path) user perm h after
      ⊎ (after.files (get_acl_filename path) ≡ h.files (get_acl_filename path))

module _ (k : Kernel) (sudo : Bool) (program path user perm : Bytes) (h : Host) where
  abbrev acl_name : Bytes
  acl_name = get_acl_filename path

  replaced_files :
      (h₁ s₁ s : Host)
      → h₁.files ≡ h.files
      → s.files ≡ s₁.files
      → Replaced k acl_name user perm h₁ s₁
      → Replaced k acl_name user perm h s
  replaced_files h₁ s₁ s e e' d = record {
    before = d.before;
    stood = sym (ap (λ (fs : Bytes → Option File). fs acl_name) e) ∙ d.stood;
    text = d.text;
    changed = d.changed;
    after = d.after;
    stands = ap (λ (fs : Bytes → Option File). fs acl_name) e' ∙ d.stands;
    holds = d.holds;
    owned =
        λ free. d.owned (ap (λ (fs : Bytes → Option File). fs (tmp_path acl_name k.pid)) e ∙ free);
    tidy = ap (λ (fs : Bytes → Option File). fs (tmp_path acl_name k.pid)) e' ∙ d.tidy;
  }

  -- setPermInAcl, called in a state with the files of `h`.
  set-SetsOne :
      (h₁ s : Host)
      → h₁.files ≡ h.files
      → IsHome h₁
      → MaySet k sudo program path h
      → s.files ≡ (set_perm_in_acl k acl_name user perm h₁).1.files
      → SetsOne k sudo program path user perm h s
  set-SetsOne h₁ s e home may e' =
      let ends = set_perm_in_acl-Ends k acl_name user perm h₁ home in
      let at : (other : Bytes)
          → s.files other ≡ (set_perm_in_acl k acl_name user perm h₁).1.files other =
        λ other. ap (λ (fs : Bytes → Option File). fs other) e' in
      let before : (other : Bytes) → h₁.files other ≡ h.files other =
        λ other. ap (λ (fs : Bytes → Option File). fs other) e in
      record {
        may = may;
        others = λ other ne ne'. at other ∙ ends.others other ne ne' ∙ before other;
        acl = elim ends.outcome [
          | inl (_, d) ↦ inl (replaced_files h₁ _ s e e' d)
          | inr (_, left) ↦ inr (at acl_name ∙ left ∙ before acl_name)
        ];
      }

  -- Another user than root takes only ids that it can come back from.
  seteuid-IsHome : (owner : ℕ) → (h.ruid == 0) ≡ false → IsHome (seteuid owner (as_caller h)).1
  seteuid-IsHome owner user = elim (Bool-cases (may_seteuid owner (as_caller h))) [
    | inr m ↦ rw m (inl refl)
    | inl m ↦ rw m (elim (Bool-cases h.cap_setuid) [
      | inl cap ↦ inr (inr cap)
      | inr other ↦ ground (arith, ==_iff owner h.ruid, ==_iff owner h.suid)
    ])
  ]

  abbrev pub Ended : ℤ × Host → Type 0
  Ended r = (r.1.files ≡ h.files) ⊎ SetsOne k sudo program path user perm h r.1

  checked-Ended :
      (f : File)
      → (h.ruid == 0) ≡ false
      → (b : Bool)
      → (b ≡ true
          → Allows k
              (asked_of sudo program path)
              (get_usr_name k h.ruid)
              (asked sudo b'w')
              false
              (as_caller h))
      → Ended (set_checked k path user perm f (b, as_caller h))
  checked-Ended f other false a = inl refl
  checked-Ended f other true a = inr (
      set-SetsOne (seteuid f.owner (as_caller h)).1 _ (seteuid-files f.owner (as_caller h))
        (seteuid-IsHome f.owner other) (inr (a refl))
        (seteuid-files h.ruid
          (set_perm_in_acl k acl_name user perm (seteuid f.owner (as_caller h)).1).1))

  pub found-Ended :
      (o : Option File) → Ended (set_found k sudo program path user perm (as_caller h) o)
  found-Ended none = inl refl
  found-Ended (some f) = elim (Bool-cases (h.ruid == 0)) [
    | inl root ↦
        rw root
          (inr (set-SetsOne (as_caller h) _ refl (inl refl) (inl ((==_iff h.ruid 0).0 root)) refl))
    | inr other ↦ rw other (
        checked k (asked_of sudo program path) (asked sudo b'w') false h Ended
          (set_checked k path user perm f) (checked-Ended f other))
  ]
