-- ===== src/Acl/Line/Entries.antt =====
-- How line_has_perm of Assignment1/utils.c reads an entry, and how setPermInAcl recognises the
-- entries of a user.
use nss_i_assignments.Base.{
  ℕ, ◌<◌, ◌≡◌, ◌≢◌, refl, ◌∙◌, ap, ◌⊎◌, inl, inr, true, false, some, [], ◌∷◌, ◌++◌, ltb, lt→ltb,
  Bytes, codes, length, Bool-cases, Option-cases,
}
use nss_i_assignments.CString.{str_eq, str_eq_iff, contains, strtok, strtok-token, Free}
use nss_i_assignments.Acl.Line.{
  malformed, lacks, valid_perm_string, separators, entry, judge_entry, line_has_perm,
}
use nss_i_assignments.Acl.Setting.{user_line, line_names}

-- A name and permissions that can stand in an entry, which fits in a line.
pub record IsEntry (user perm : Bytes) : Type 0 where
  pub named : user ≢ []
  pub name_free : Free separators user
  pub perm_free : Free separators perm
  pub valid : valid_perm_string perm ≡ true
  pub fits : length (user_line user perm) < 1024

valid-ne_nil : (perm : Bytes) → valid_perm_string perm ≡ true → perm ≢ []
valid-ne_nil [] h e = cc
valid-ne_nil (c ∷ perm) h e = cc

-- The tokens of an entry.
strtok-kind :
    (user perm : Bytes)
    → strtok separators (user_line user perm)
      ≡ some (codes "user", user ++ (codes ":" ++ (perm ++ codes "\n")))
unfolding contains
strtok-kind user perm =
    strtok-token separators (codes "user") b':' (user ++ (codes ":" ++ (perm ++ codes "\n")))
      (λ e. cc) (refl, (refl, (refl, (refl, tt)))) refl

strtok-name :
    (user perm : Bytes)
    → IsEntry user perm
    → strtok separators (user ++ (codes ":" ++ (perm ++ codes "\n")))
      ≡ some (user, perm ++ codes "\n")
unfolding contains
strtok-name user perm e =
    strtok-token separators user b':' (perm ++ codes "\n") e.named e.name_free refl

strtok-perm :
    (user perm : Bytes)
    → IsEntry user perm
    → strtok separators (perm ++ codes "\n") ≡ some (perm, [])
unfolding contains
strtok-perm user perm e =
    strtok-token separators perm b'\n' [] (valid-ne_nil perm e.valid) e.perm_free refl

entry-user_line :
    (user perm : Bytes)
    → IsEntry user perm
    → entry (user ++ (codes ":" ++ (perm ++ codes "\n"))) ≡ some (user, perm)
entry-user_line user perm e = rw (strtok-name user perm e, strtok-perm user perm e, e.valid)

-- An entry answers for its own user by its permissions, and says nothing of any other.
pub line_has_perm-user_line :
    (user perm other : Bytes) (p : ℕ)
    → IsEntry user perm
    → line_has_perm (user_line user perm) other p ≡ judge_entry other p (some (user, perm))
unfolding line_has_perm str_eq
line_has_perm-user_line user perm other p e =
    rw (lt→ltb _ _ e.fits, strtok-kind user perm, entry-user_line user perm e)

pub line_names-user_line :
    (user perm other : Bytes)
    → IsEntry user perm
    → line_names other (user_line user perm) ≡ str_eq user other
unfolding line_names str_eq
line_names-user_line user perm other e = rw (strtok-kind user perm, strtok-name user perm e)

-- A line that line_has_perm does not refuse.
abbrev pub WellFormed : Bytes → Type 0
WellFormed line = (user : Bytes) (p : ℕ) → line_has_perm line user p ≢ malformed

abbrev pub Silent : Bytes → Type 0
Silent line =
    ((user : Bytes) (p : ℕ) → line_has_perm line user p ≡ lacks)
    × ((user : Bytes) → line_names user line ≡ false)

abbrev pub Speaks : Bytes → Type 0
Speaks line =
    (name : Bytes) × (mode : Bytes) × ((user : Bytes) (p : ℕ)
      → line_has_perm line user p ≡ judge_entry user p (some (name, mode)))
    × ((user : Bytes) → line_names user line ≡ str_eq name user)

spoken :
    (line rest : Bytes)
    → WellFormed line
    → ltb (length line) 1024 ≡ true
    → strtok separators line ≡ some (codes "user", rest)
    → Speaks line
unfolding line_has_perm line_names str_eq
spoken line rest ok short e = elim (Option-cases (strtok separators rest)) [
  | inl none₁ ↦ absurd (ok [] 0 (rw (short, e, none₁)))
  | inr ((name, rest'), e₁) ↦ elim (Option-cases (strtok separators rest')) [
    | inl none₂ ↦ absurd (ok [] 0 (rw (short, e, e₁, none₂)))
    | inr ((mode, rest''), e₂) ↦ elim (Bool-cases (valid_perm_string mode)) [
      | inr bad ↦ absurd (ok [] 0 (rw (short, e, e₁, e₂, bad)))
      | inl valid ↦ (name, mode, λ user p. rw (short, e, e₁, e₂, valid), λ user. rw (e, e₁))
    ]
  ]
]

quiet_line :
    (line kind rest : Bytes)
    → ltb (length line) 1024 ≡ true
    → strtok separators line ≡ some (kind, rest)
    → str_eq kind (codes "user") ≡ false
    → Silent line
unfolding line_has_perm line_names
quiet_line line kind rest short e other = (has_none, names_none)
  where
    has_none : (user : Bytes) (p : ℕ) → line_has_perm line user p ≡ lacks
    has_none user p = elim (Bool-cases (str_eq kind (codes "default"))) [
      | inl d ↦ rw (short, e, d)
      | inr d ↦ rw (short, e, d, other)
    ]

    names_none : (user : Bytes) → line_names user line ≡ false
    names_none user = elim (Option-cases (strtok separators rest)) [
      | inl e₁ ↦ rw (e, e₁)
      | inr (_, e₁) ↦ rw (e, e₁, other)
    ]

-- A line that is not refused says nothing, or has one name and one mode.
pub line_cases : (line : Bytes) → WellFormed line → Silent line ⊎ Speaks line
unfolding line_has_perm line_names
line_cases line ok = elim (Bool-cases (ltb (length line) 1024)) [
  | inr long ↦ absurd (ok [] 0 (rw long))
  | inl short ↦ elim (Option-cases (strtok separators line)) [
    | inl e ↦ inl (λ user p. rw (short, e), λ user. rw e)
    | inr ((kind, rest), e) ↦ elim (Bool-cases (str_eq kind (codes "user"))) [
      | inr other ↦ inl (quiet_line line kind rest short e other)
      | inl same ↦ inr (
          spoken line rest ok short
            (e ∙ ap (λ (x : Bytes). some (x, rest)) ((str_eq_iff kind (codes "user")).0 same)))
    ]
  ]
]
