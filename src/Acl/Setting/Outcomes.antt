-- ===== src/Acl/Setting/Outcomes.antt =====
-- How setPermInAcl of Assignment1/utils.c ends, and what checkPermFromAcl answers afterwards.
use nss_i_assignments.Base.{
  ◌≡◌, ◌≢◌, refl, sym, ◌∙◌, ap, subst, ◌⊎◌, inl, inr, Bool, true, false, ◌&&◌, Option, none, some,
  [], ◌∷◌, ltb, Bytes, length, Bool-cases,
}
use nss_i_assignments.Common.Files.{tmp_path}
use nss_i_assignments.Common.Files.Atomic.{tmp_path-ne}
use nss_i_assignments.Host.{
  File, Host, Kernel, may_seteuid, seteuid, fopen_r, set_file, store_text, written, unlink, rename,
}
use nss_i_assignments.Host.Ids.{IsHome, seteuid-back}
use nss_i_assignments.Host.Files.{set_file_self, set_file_ne, rename_new, rename_other}
use nss_i_assignments.Acl.Line.{valid_perm_string}
use nss_i_assignments.Acl.Setting.{
  new_text, replace_acl, write_new, set_opened, set_as_owner, set_found, set_perm_in_acl,
}

-- The ACL after a success: the file with what was written of the new text, which was made of what was
-- read of the old one; of the same owner where no file had the name of the temporary one.
pub record Replaced (k : Kernel) (acl user perm : Bytes) (h h' : Host) : Type 0 where
  pub before : File
  pub stood : h.files acl ≡ some before
  pub text : Bytes
  pub changed : new_text user perm (k.gets acl before.text) ≡ some text
  pub after : File
  pub stands : h'.files acl ≡ some after
  pub holds : after.text ≡ k.puts (tmp_path acl k.pid) text
  pub owned : h.files (tmp_path acl k.pid) ≡ none → after.owner ≡ before.owner
  pub tidy : h'.files (tmp_path acl k.pid) ≡ none

-- The ids and the output are those of the call, no third file changes, and the ACL is replaced or
-- left.
pub record Ends (k : Kernel) (acl user perm : Bytes) (h : Host) (r : Bool × Host) : Type 0 where
  pub ids :
      (r.1.ruid ≡ h.ruid)
      × (r.1.euid ≡ h.euid)
      × (r.1.suid ≡ h.suid)
      × (r.1.cap_setuid ≡ h.cap_setuid)
  pub quiet : r.1.out ≡ h.out
  pub others :
      (other : Bytes) → other ≢ acl → other ≢ tmp_path acl k.pid → r.1.files other ≡ h.files other
  pub outcome :
      ((r.0 ≡ true) × Replaced k acl user perm h r.1)
      ⊎ ((r.0 ≡ false) × (r.1.files acl ≡ h.files acl))

module _ (k : Kernel) (acl user perm : Bytes) (h : Host) (home : IsHome h) where
  abbrev tmp : Bytes
  tmp = tmp_path acl k.pid

  -- The state that seteuid gives back, after one with the same ids but the effective one.
  returned :
      (h₁ : Host)
      → h₁.ruid ≡ h.ruid
      → h₁.suid ≡ h.suid
      → h₁.cap_setuid ≡ h.cap_setuid
      → (seteuid h.euid h₁).1 ≡ record h₁ { euid = h.euid }
  returned h₁ r s c = ap (λ (x : Bool × Host). x.1) (seteuid-back h h₁ home r s c)

  unchanged : Ends k acl user perm h (false, h)
  unchanged = record {
    ids = (refl, refl, refl, refl);
    quiet = refl;
    others = λ other _ _. refl;
    outcome = inr (refl, refl);
  }

  module _ (f : File) (stood : h.files acl ≡ some f) where
    abbrev owned : Host
    owned = record h { euid = f.owner }

    gave_up : Ends k acl user perm h (false, (seteuid h.euid owned).1)
    gave_up = rw (returned owned refl refl refl) unchanged

    removed :
        (h₁ : Host)
        → h₁.ruid ≡ h.ruid
        → h₁.suid ≡ h.suid
        → h₁.cap_setuid ≡ h.cap_setuid
        → h₁.out ≡ h.out
        → ((other : Bytes) → other ≢ tmp → h₁.files other ≡ h.files other)
        → Ends k acl user perm h (false, (seteuid h.euid (unlink tmp h₁)).1)
    removed h₁ r s c o same =
        subst (λ (x : Host). Ends k acl user perm h (false, x))
          (sym (returned (unlink tmp h₁) r s c))
          (record {
            ids = (r, refl, s, c);
            quiet = o;
            others = λ other ne ne'. set_file_ne tmp other none h₁ ne' ∙ same other ne';
            outcome = inr (
              refl,
              set_file_ne tmp acl none h₁ (tmp_path-ne acl k.pid)
                  ∙ same acl (tmp_path-ne acl k.pid),
            );
          })

    stored : Bytes → Host
    stored text = store_text k tmp text owned

    stored_other : (text other : Bytes) → other ≢ tmp → (stored text).files other ≡ h.files other
    unfolding stored
    stored_other text other ne =
        set_file_ne tmp other (some (written k text owned (owned.files tmp))) owned ne

    written_text : (text : Bytes) (o : Option File) → (written k text owned o).text ≡ text
    written_text text none = refl
    written_text text (some g) = refl

    written_owner :
        (text : Bytes) (o : Option File) → o ≡ none → (written k text owned o).owner ≡ f.owner
    written_owner text none e = refl
    written_owner text (some g) e = cc

    renamed :
        (text : Bytes)
        → new_text user perm (k.gets acl f.text) ≡ some text
        → Ends k acl user perm h
            (true, (seteuid h.euid (rename tmp acl (stored (k.puts tmp text)))).1)
    unfolding stored
    renamed text made =
        subst (λ (x : Host). Ends k acl user perm h (true, x))
          (sym (returned (rename tmp acl (stored (k.puts tmp text))) refl refl refl))
          (record {
            ids = (refl, refl, refl, refl);
            quiet = refl;
            others = λ other ne ne'.
                rename_other tmp acl other (stored (k.puts tmp text)) ne' ne
                ∙ stored_other (k.puts tmp text) other ne';
            outcome = inl (
              refl,
              record {
                before = f;
                stood = stood;
                text = text;
                changed = made;
                after = written k (k.puts tmp text) owned (h.files tmp);
                stands =
                    rename_new tmp acl (stored (k.puts tmp text)) (tmp_path-ne acl k.pid)
                    ∙ set_file_self tmp (some (written k (k.puts tmp text) owned (h.files tmp)))
                        owned;
                holds = written_text (k.puts tmp text) (h.files tmp);
                owned = written_owner (k.puts tmp text) (h.files tmp);
                tidy = set_file_self tmp none (
                    set_file acl ((stored (k.puts tmp text)).files tmp) (stored (k.puts tmp text)));
              },
            );
          })

    replaced-Ends :
        (text : Bytes)
        → new_text user perm (k.gets acl f.text) ≡ some text
        → Ends k acl user perm h (replace_acl k acl tmp h.euid (stored (k.puts tmp text)))
    unfolding stored
    replaced-Ends text made =
        elim (Bool-cases (
          k.may_close (stored (k.puts tmp text)) tmp
          && k.may_rename (stored (k.puts tmp text)) tmp acl)) [
            | inl good ↦ rw good (renamed text made)
            | inr bad ↦ rw bad (
                removed (stored (k.puts tmp text)) refl refl refl refl
                  (stored_other (k.puts tmp text)))
          ]

    wrote-Ends :
        (o : Option Bytes)
        → new_text user perm (k.gets acl f.text) ≡ o
        → Ends k acl user perm h (write_new k acl tmp h.euid owned o)
    unfolding stored
    wrote-Ends none e = removed owned refl refl refl refl (λ other ne. refl)
    wrote-Ends (some text) e = replaced-Ends text e

    opened-Ends :
        (o : Option Bytes) (b : Bool)
        → ((text : Bytes) → o ≡ some text → text ≡ f.text)
        → Ends k acl user perm h (set_opened k acl tmp user perm h.euid owned o b)
    opened-Ends none true e = removed owned refl refl refl refl (λ other ne. refl)
    opened-Ends (some text) true e =
        wrote-Ends (new_text user perm (k.gets acl text))
          (ap (λ (t : Bytes). new_text user perm (k.gets acl t)) (sym (e text refl)))
    opened-Ends none false e = gave_up
    opened-Ends (some text) false e = gave_up

    read-own : (text : Bytes) → fopen_r k acl owned ≡ some text → text ≡ f.text
    read-own text e = elim (Bool-cases (k.may_read owned acl)) [
      | inl m ↦ let got : some f.text ≡ some text = rw (stood, m) at e in cc
      | inr m ↦ let got : none ≡ some text = rw (stood, m) at e in cc
    ]

    owner-Ends : Ends k acl user perm h (set_as_owner k acl user perm h.euid (seteuid f.owner h))
    owner-Ends = elim (Bool-cases (may_seteuid f.owner h)) [
      | inr m ↦ rw m unchanged
      | inl m ↦ elim (Bool-cases (ltb (length tmp) 1024)) [
        | inr long ↦ rw (m, long) gave_up
        | inl short ↦
            rw (m, short) (opened-Ends (fopen_r k acl owned) (k.may_write owned tmp) read-own)
      ]
    ]

  found-Ends :
      (o : Option File) → h.files acl ≡ o → Ends k acl user perm h (set_found k acl user perm h o)
  found-Ends none e = unchanged
  found-Ends (some f) e = owner-Ends f e

-- setPermInAcl, on every path: it reports a failure and leaves the ACL as it was; or it reports a
-- success, and the ACL holds what could be written of the new text, made of what could be read of the
-- old one: the whole only where no read and no write fails, which the code does not check. No third
-- file changes, nothing is printed, and the process has the ids that it had. The process has its
-- real or its saved id as the effective one when it calls, or CAP_SETUID.
pub set_perm_in_acl-Ends :
    (k : Kernel) (acl user perm : Bytes) (h : Host)
    → IsHome h
    → Ends k acl user perm h (set_perm_in_acl k acl user perm h)
unfolding set_perm_in_acl
set_perm_in_acl-Ends k [] user perm h home = unchanged k [] user perm h home
set_perm_in_acl-Ends k (c ∷ acl) user perm h home = elim (Bool-cases (valid_perm_string perm)) [
  | inr bad ↦ rw bad (unchanged k (c ∷ acl) user perm h home)
  | inl good ↦ rw good (found-Ends k (c ∷ acl) user perm h home (h.files (c ∷ acl)) refl)
]
