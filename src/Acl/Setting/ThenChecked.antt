-- ===== src/Acl/Setting/ThenChecked.antt =====
-- setPermInAcl of Assignment1/utils.c and what checkPermFromAcl answers after it.
use nss_i_assignments.Base.{
  ℕ, ◌<◌, ◌≡◌, ◌≢◌, refl, sym, ◌∙◌, ap, subst, inl, inr, Bool, true, false, not, Option, none, some,
  [], ◌∷◌, lt→ltb, Bytes, length, if◌then◌else◌,
}
use nss_i_assignments.CString.{contains}
use nss_i_assignments.Common.Files.{tmp_path}
use nss_i_assignments.Host.{File, Host, Kernel, may_seteuid, seteuid, fopen_r, store_text}
use nss_i_assignments.Host.Ids.{IsHome, seteuid_allowed}
use nss_i_assignments.Acl.Line.Entries.{IsEntry}
use nss_i_assignments.Acl.Checking.{check_perm_from_acl, check_opened}
use nss_i_assignments.Acl.Checking.Decides.{opened}
use nss_i_assignments.Acl.Setting.{
  new_text, replace_acl, write_new, set_opened, set_as_owner, set_found, set_perm_in_acl,
}
use nss_i_assignments.Acl.Setting.Answers.{IsAcl, Sets, says, new_text-Sets}
use nss_i_assignments.Acl.Setting.Outcomes.{Replaced, set_perm_in_acl-Ends}

-- The owner of the ACL can read it.
abbrev pub OwnerReads : Kernel → Bytes → Type 0
OwnerReads k acl =
    (h : Host) (f : File) → h.files acl ≡ some f → h.euid ≡ f.owner → k.may_read h acl ≡ true

-- The ACL has a well formed text, its name is not empty, the process may take the id of its owner,
-- the name of the temporary file is free and fits, and the calls on that file and the
-- reads of the ACL succeed.
pub record CanSet (k : Kernel) (acl user perm : Bytes) (h : Host) : Type 0 where
  pub file : File
  pub stands : h.files acl ≡ some file
  pub named : acl ≢ []
  pub text : IsAcl file.text
  pub entry : IsEntry user perm
  pub allowed : may_seteuid file.owner h ≡ true
  pub fits : length (tmp_path acl k.pid) < 1024
  pub free : h.files (tmp_path acl k.pid) ≡ none
  pub reads : OwnerReads k acl
  pub writes : (s : Host) → k.may_write s (tmp_path acl k.pid) ≡ true
  pub gets_whole : (t : Bytes) → k.gets acl t ≡ t
  pub puts_whole : (t : Bytes) → k.puts (tmp_path acl k.pid) t ≡ t
  pub closes : (s : Host) → k.may_close s (tmp_path acl k.pid) ≡ true
  pub renames : (s : Host) → k.may_rename s (tmp_path acl k.pid) acl ≡ true

fopen_r-owned :
    (k : Kernel) (acl : Bytes) (h : Host) (f : File)
    → h.files acl ≡ some f
    → OwnerReads k acl
    → fopen_r k acl (record h { euid = f.owner }) ≡ some f.text
fopen_r-owned k acl h f e reads = rw (reads (record h { euid = f.owner }) f e refl, e)

-- What the check answers where the ACL stands and can be taken.
pub check-says :
    (k : Kernel) (acl user : Bytes) (p : ℕ) (ok : Bool) (h : Host) (f : File)
    → acl ≢ []
    → h.files acl ≡ some f
    → may_seteuid f.owner h ≡ true
    → OwnerReads k acl
    → (check_perm_from_acl k acl (some user) p ok h).0 ≡ says user p f.text
check-says k [] user p ok h f ne e m reads = absurd (ne refl)
check-says k (c ∷ acl) user p ok h f ne e m reads =
    ap (λ (r : Bool × Host). r.0) (opened k c acl user p ok h f e m)
    ∙ ap (check_opened user p ok) (fopen_r-owned k (c ∷ acl) h f e reads)

module _ (k : Kernel) (acl user perm : Bytes) (h : Host) (c : CanSet k acl user perm h) where
  replace-succeeds : (s : Host) → (replace_acl k acl (tmp_path acl k.pid) h.euid s).0 ≡ true
  replace-succeeds s = rw (c.closes s, c.renames s)

  found-succeeds : (set_found k acl user perm h (some c.file)).0 ≡ true
  found-succeeds =
      let (after, made, _) = new_text-Sets user perm c.entry c.file.text c.text in
      let own : Host = record h { euid = c.file.owner } in
      ap (λ (x : Bool × Host). (set_as_owner k acl user perm h.euid x).0)
        (seteuid_allowed c.file.owner h c.allowed)
      ∙ ap
          (λ (b : Bool).
            (if not b
              then (false, (seteuid h.euid own).1)
              else set_opened k acl (tmp_path acl k.pid) user perm h.euid own (fopen_r k acl own)
                  (k.may_write own (tmp_path acl k.pid))).0)
          (lt→ltb _ _ c.fits)
      ∙ ap
          (λ (o : Option Bytes).
            (set_opened k acl (tmp_path acl k.pid) user perm h.euid own o
              (k.may_write own (tmp_path acl k.pid))).0)
          (fopen_r-owned k acl h c.file c.stands c.reads)
      ∙ ap
          (λ (b : Bool).
            (set_opened k acl (tmp_path acl k.pid) user perm h.euid own (some c.file.text) b).0)
          (c.writes own)
      ∙ ap (λ (o : Option Bytes). (write_new k acl (tmp_path acl k.pid) h.euid own o).0)
          (ap (new_text user perm) (c.gets_whole c.file.text) ∙ made)
      ∙ replace-succeeds (store_text k (tmp_path acl k.pid) (k.puts (tmp_path acl k.pid) after) own)

set-succeeds :
    (k : Kernel) (acl user perm : Bytes) (h : Host)
    → CanSet k acl user perm h
    → (set_perm_in_acl k acl user perm h).0 ≡ true
unfolding set_perm_in_acl
set-succeeds k [] user perm h c = absurd (c.named refl)
set-succeeds k (x ∷ acl) user perm h c = rw c.entry.valid (
    ap (λ (o : Option File). (set_found k (x ∷ acl) user perm h o).0) c.stands
    ∙ found-succeeds k (x ∷ acl) user perm h c)

-- What the checks answer on `after`, when they answered on `before`.
pub record Answers (k : Kernel) (acl user perm : Bytes) (before after : Host) : Type 0 where
  pub own :
      (p : ℕ) (ok : Bool) → (check_perm_from_acl k acl (some user) p ok after).0 ≡ contains p perm
  pub others :
      (other : Bytes) (p : ℕ) (ok : Bool)
      → other ≢ user
      → (check_perm_from_acl k acl (some other) p ok after).0
        ≡ (check_perm_from_acl k acl (some other) p ok before).0

-- The ACL keeps its owner, and says what was set.
pub replaced-Sets :
    (k : Kernel) (acl user perm : Bytes) (h h' : Host) (c : CanSet k acl user perm h)
    (d : Replaced k acl user perm h h')
    → (d.after.owner ≡ c.file.owner) × Sets user perm c.file.text d.after.text
replaced-Sets k acl user perm h h' c d = (
  d.owned c.free ∙ ap (λ (f : File). f.owner) same,
  subst (Sets user perm c.file.text) (sym written_text) made.2,
)
  where
    same : d.before ≡ c.file
    same = let both : some d.before ≡ some c.file = sym d.stood ∙ c.stands in cc

    made :
        (text : Bytes) × (new_text user perm c.file.text ≡ some text)
        × Sets user perm c.file.text text
    made = new_text-Sets user perm c.entry c.file.text c.text

    written_text : d.after.text ≡ made.0
    written_text =
        let one : new_text user perm c.file.text ≡ some d.text =
          ap (λ (f : File). new_text user perm f.text) (sym same)
          ∙ ap (new_text user perm) (sym (c.gets_whole d.before.text))
          ∙ d.changed in
        let two : some d.text ≡ some made.0 = sym one ∙ made.1 in
        d.holds ∙ c.puts_whole d.text ∙ (let e₁ : d.text ≡ made.0 = cc in e₁)

replaced-Answers :
    (k : Kernel) (acl user perm : Bytes) (h h' : Host)
    → CanSet k acl user perm h
    → (h'.ruid ≡ h.ruid) × (h'.euid ≡ h.euid) × (h'.suid ≡ h.suid) × (h'.cap_setuid ≡ h.cap_setuid)
    → Replaced k acl user perm h h'
    → Answers k acl user perm h h'
replaced-Answers k acl user perm h h' c (r, e, s, cap) d =
    let (owner, sets) = replaced-Sets k acl user perm h h' c d in
    let may : may_seteuid d.after.owner h' ≡ true = rw (owner, r, e, s, cap) c.allowed in
    record {
      own = λ p ok. check-says k acl user p ok h' d.after c.named d.stands may c.reads ∙ sets.own p;
      others = λ other p ok ne.
          check-says k acl other p ok h' d.after c.named d.stands may c.reads
          ∙ sets.others other p ne
          ∙ sym (check-says k acl other p ok h c.file c.named c.stands c.allowed c.reads);
    }

pub set-Replaced :
    (k : Kernel) (acl user perm : Bytes) (h : Host)
    → IsHome h
    → CanSet k acl user perm h
    → Replaced k acl user perm h (set_perm_in_acl k acl user perm h).1
set-Replaced k acl user perm h home c = elim (set_perm_in_acl-Ends k acl user perm h home).outcome [
  | inl (_, d) ↦ d
  | inr (failed, _) ↦ let bad : true ≡ false = sym (set-succeeds k acl user perm h c) ∙ failed in cc
]

-- setPermInAcl succeeds on a well formed ACL, and afterwards checkPermFromAcl gives the user exactly
-- the new permissions and each other user the answer that it gave before. The conditions: the
-- process may take the id of the ACL's owner, which can read it, and can return to its own; the name
-- and the permissions can stand in a line; the name of the temporary file fits, no file has it, and
-- the calls on that file and the reads of the ACL succeed.
pub set_perm_in_acl-check :
    (k : Kernel) (acl user perm : Bytes) (h : Host)
    → IsHome h
    → CanSet k acl user perm h
    → ((set_perm_in_acl k acl user perm h).0 ≡ true)
      × Answers k acl user perm h (set_perm_in_acl k acl user perm h).1
set_perm_in_acl-check k acl user perm h home c = (
  set-succeeds k acl user perm h c,
  replaced-Answers k acl user perm h (set_perm_in_acl k acl user perm h).1 c
      (set_perm_in_acl-Ends k acl user perm h home).ids (set-Replaced k acl user perm h home c),
)
