-- ===== src/Acl/Checking/Decides.antt =====
-- checkPermFromAcl of Assignment1/utils.c against a description of whom an ACL lets through.
use nss_i_assignments.Base.{
  ℕ, ◌≡◌, ◌≢◌, refl, sym, ◌∙◌, ap, subst, ◌⊎◌, inl, inr, ◌↔◌, Bool, true, false, Option, none, some,
  [], ◌∷◌, Bytes, Bool-cases, Option-cases,
}
use nss_i_assignments.CString.{fgets_lines}
use nss_i_assignments.Host.{File, Host, Kernel, may_seteuid, seteuid, fopen_r}
use nss_i_assignments.Host.Ids.{IsHome, seteuid-back, seteuid_allowed, seteuid_refused}
use nss_i_assignments.Acl.Checking.{check_opened, check_as_owner, check_found, check_perm_from_acl}
use nss_i_assignments.Acl.Checking.Entries.{Grants, check_lines_iff}

-- The ACL there is opens as its owner, and what it says is `P`; where it does not open, `Q`.
pub record Opens (k : Kernel) (acl : Bytes) (h : Host) (P : Bytes → Type 0) (Q : Type 0)
    : Type 0 where
  pub file : File
  pub exists : h.files acl ≡ some file
  pub allowed : may_seteuid file.owner h ≡ true
  pub read :
      ((text : Bytes) × (fopen_r k acl (record h { euid = file.owner }) ≡ some text) × P text)
      ⊎ ((fopen_r k acl (record h { euid = file.owner }) ≡ none) × Q)

-- Whom the check lets through.
pub record Allows (k : Kernel) (acl : Bytes) (user : Option Bytes) (perm : ℕ) (ok : Bool) (h : Host)
    : Type 0 where
  pub name : Bytes
  pub known : user ≡ some name
  pub named : acl ≢ []
  pub found :
      ((h.files acl ≡ none) × (ok ≡ true))
      ⊎ Opens k acl h (λ text. Grants name perm (fgets_lines 1024 text)) (ok ≡ true)

opened-cases :
    (user : Bytes) (perm : ℕ) (ok : Bool) (o : Option Bytes)
    → (check_opened user perm ok o ≡ true) ↔ (
        ((text : Bytes) × (o ≡ some text) × Grants user perm (fgets_lines 1024 text))
        ⊎ ((o ≡ none) × (ok ≡ true)))
opened-cases user perm ok none = (λ h. inr (refl, h), elim [ inl (t, e, g) ↦ cc | inr (e, h) ↦ h ])
opened-cases user perm ok (some text) = (
  λ h. inl (text, refl, (check_lines_iff user perm (fgets_lines 1024 text)).0 h),
  elim [
    | inl (t, e, g) ↦ (check_lines_iff user perm (fgets_lines 1024 text)).1 (
        let same : t ≡ text = cc in
        subst (λ (x : Bytes). Grants user perm (fgets_lines 1024 x)) same g)
    | inr (e, h) ↦ cc
  ],
)

module _ (k : Kernel) (c : ℕ) (acl user : Bytes) (perm : ℕ) (ok : Bool) (h : Host) where
  abbrev as_owner : File → Host
  as_owner f = record h { euid = f.owner }

  absent :
      h.files (c ∷ acl) ≡ none → check_perm_from_acl k (c ∷ acl) (some user) perm ok h ≡ (ok, h)
  unfolding check_perm_from_acl
  absent e = rw e

  refused :
      (f : File)
      → h.files (c ∷ acl) ≡ some f
      → may_seteuid f.owner h ≡ false
      → check_perm_from_acl k (c ∷ acl) (some user) perm ok h ≡ (false, h)
  unfolding check_perm_from_acl
  refused f e m =
      ap (check_found k (c ∷ acl) user perm ok h) e
      ∙ ap (check_as_owner k (c ∷ acl) user perm ok h.euid) (seteuid_refused f.owner h m)

  pub opened :
      (f : File)
      → h.files (c ∷ acl) ≡ some f
      → may_seteuid f.owner h ≡ true
      → check_perm_from_acl k (c ∷ acl) (some user) perm ok h ≡ (
        check_opened user perm ok (fopen_r k (c ∷ acl) (as_owner f)),
        (seteuid h.euid (as_owner f)).1,
      )
  unfolding check_perm_from_acl
  opened f e m =
      ap (check_found k (c ∷ acl) user perm ok h) e
      ∙ ap (check_as_owner k (c ∷ acl) user perm ok h.euid) (seteuid_allowed f.owner h m)

  keeps : IsHome h → (check_perm_from_acl k (c ∷ acl) (some user) perm ok h).1 ≡ h
  keeps home = elim (Option-cases (h.files (c ∷ acl))) [
    | inl e ↦ ap (λ (r : Bool × Host). r.1) (absent e)
    | inr (f, e) ↦ elim (Bool-cases (may_seteuid f.owner h)) [
      | inl m ↦
          ap (λ (r : Bool × Host). r.1) (opened f e m)
          ∙ ap (λ (r : Bool × Host). r.1) (seteuid-back h (as_owner f) home refl refl refl)
      | inr m ↦ ap (λ (r : Bool × Host). r.1) (refused f e m)
    ]
  ]

  forth :
      (check_perm_from_acl k (c ∷ acl) (some user) perm ok h).0 ≡ true
      → Allows k (c ∷ acl) (some user) perm ok h
  forth t = elim (Option-cases (h.files (c ∷ acl))) [
    | inl e ↦ allow (inl (e, sym (ap (λ (r : Bool × Host). r.0) (absent e)) ∙ t))
    | inr (f, e) ↦ elim (Bool-cases (may_seteuid f.owner h)) [
      | inl m ↦ allow (
          inr (record {
            file = f;
            exists = e;
            allowed = m;
            read =
                (opened-cases user perm ok (fopen_r k (c ∷ acl) (as_owner f))).0
                  (sym (ap (λ (r : Bool × Host). r.0) (opened f e m)) ∙ t);
          }))
      | inr m ↦
          let bad : false ≡ true = sym (ap (λ (r : Bool × Host). r.0) (refused f e m)) ∙ t in cc
    ]
  ]
    where
      allow :
          ((h.files (c ∷ acl) ≡ none) × (ok ≡ true))
            ⊎ Opens k (c ∷ acl) h (λ text. Grants user perm (fgets_lines 1024 text)) (ok ≡ true)
          → Allows k (c ∷ acl) (some user) perm ok h
      allow found = record {
        name = user;
        known = refl;
        named = λ (e : c ∷ acl ≡ []). cc;
        found = found;
      }

  back :
      ((h.files (c ∷ acl) ≡ none) × (ok ≡ true))
        ⊎ Opens k (c ∷ acl) h (λ text. Grants user perm (fgets_lines 1024 text)) (ok ≡ true)
      → (check_perm_from_acl k (c ∷ acl) (some user) perm ok h).0 ≡ true
  back (inl (e, t)) = ap (λ (r : Bool × Host). r.0) (absent e) ∙ t
  back (inr o) =
      ap (λ (r : Bool × Host). r.0) (opened o.file o.exists o.allowed)
      ∙ (opened-cases user perm ok (fopen_r k (c ∷ acl) (as_owner o.file))).1 o.read

-- checkPermFromAcl lets a user through exactly in these cases: the ACL is missing or does not open,
-- and the caller accepts that; or it opens and its first line that is not silent about the user
-- grants the permission. The name of the ACL is not empty, the user has a name, and the process may
-- take the id of the owner of an ACL that there is.
pub check_perm_from_acl_iff :
    (k : Kernel) (acl : Bytes) (user : Option Bytes) (perm : ℕ) (ok : Bool) (h : Host)
    → ((check_perm_from_acl k acl user perm ok h).0 ≡ true) ↔ Allows k acl user perm ok h
unfolding check_perm_from_acl
check_perm_from_acl_iff k [] user perm ok h = (λ e. cc, λ a. absurd (a.named refl))
check_perm_from_acl_iff k (c ∷ acl) none perm ok h = (λ e. cc, λ a. let bad = a.known in cc)
check_perm_from_acl_iff k (c ∷ acl) (some user) perm ok h = (
  forth k c acl user perm ok h,
  λ a.
      let same : a.name ≡ user = let e = a.known in cc in
      back k c acl user perm ok h (
        subst
          (λ (u : Bytes).
            ((h.files (c ∷ acl) ≡ none) × (ok ≡ true))
            ⊎ Opens k (c ∷ acl) h (λ text. Grants u perm (fgets_lines 1024 text)) (ok ≡ true))
          same a.found),
)

-- On every path checkPermFromAcl leaves the process as it was: the files, the output and all three
-- ids. The process has its real or its saved id as the effective one when it calls, or CAP_SETUID.
pub check_perm_from_acl-keeps :
    (k : Kernel) (acl : Bytes) (user : Option Bytes) (perm : ℕ) (ok : Bool) (h : Host)
    → IsHome h
    → (check_perm_from_acl k acl user perm ok h).1 ≡ h
unfolding check_perm_from_acl
check_perm_from_acl-keeps k [] user perm ok h home = refl
check_perm_from_acl-keeps k (c ∷ acl) none perm ok h home = refl
check_perm_from_acl-keeps k (c ∷ acl) (some user) perm ok h home = keeps k c acl user perm ok h home
