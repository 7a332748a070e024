-- ===== src/Acl/Checking/Entries.antt =====
-- The loop of checkPermFromAcl of Assignment1/utils.c over the lines.
use nss_i_assignments.Base.{
  ℕ, ◌≡◌, refl, ◌∙◌, ap, ◌⊎◌, inl, inr, ◌↔◌, true, false, List, [], ◌∷◌, ◌++◌, Bytes, All,
}
use nss_i_assignments.Acl.Line.{Verdict, malformed, lacks, has, line_has_perm}
use nss_i_assignments.Acl.Checking.{check_lines}

-- The first line that does not leave the question open grants.
pub record Grants (user : Bytes) (perm : ℕ) (lines : List Bytes) : Type 0 where
  pub before : List Bytes
  pub line : Bytes
  pub after : List Bytes
  pub order : lines ≡ before ++ line ∷ after
  pub open_before : All (λ l. line_has_perm l user perm ≡ lacks) before
  pub grants : line_has_perm line user perm ≡ has

Verdict-cases : (v : Verdict) → (v ≡ malformed) ⊎ ((v ≡ lacks) ⊎ (v ≡ has))
Verdict-cases malformed = inl refl
Verdict-cases lacks = inr (inl refl)
Verdict-cases has = inr (inr refl)

Grants-later :
    (user : Bytes) (perm : ℕ) (l : Bytes) (ls : List Bytes)
    → line_has_perm l user perm ≡ lacks
    → Grants user perm ls
    → Grants user perm (l ∷ ls)
Grants-later user perm l ls e g = record {
  before = l ∷ g.before;
  line = g.line;
  after = g.after;
  order = ap (◌∷◌ l) g.order;
  open_before = (e, g.open_before);
  grants = g.grants;
}

check_lines-Grants :
    (user : Bytes) (perm : ℕ) (ls : List Bytes)
    → check_lines user perm ls ≡ true
    → Grants user perm ls
unfolding check_lines
check_lines-Grants user perm [] h = cc
check_lines-Grants user perm (l ∷ ls) h = elim (Verdict-cases (line_has_perm l user perm)) [
  | inl e ↦ let bad : false ≡ true = rw (e, check_lines) at h in cc
  | inr (inl e) ↦
      Grants-later user perm l ls e (check_lines-Grants user perm ls (rw (e, check_lines) at h))
  | inr (inr e) ↦ record {
    before = [];
    line = l;
    after = ls;
    order = refl;
    open_before = tt;
    grants = e;
  }
]

open_lines :
    (user : Bytes) (perm : ℕ) (before : List Bytes) (line : Bytes) (after : List Bytes)
    → All (λ l. line_has_perm l user perm ≡ lacks) before
    → line_has_perm line user perm ≡ has
    → check_lines user perm (before ++ line ∷ after) ≡ true
unfolding check_lines
open_lines user perm [] line after h e = rw (e, check_lines)
open_lines user perm (l ∷ before) line after h e =
    rw (h.0, check_lines) (open_lines user perm before line after h.1 e)

pub check_lines_iff :
    (user : Bytes) (perm : ℕ) (ls : List Bytes)
    → (check_lines user perm ls ≡ true) ↔ Grants user perm ls
check_lines_iff user perm ls = (
  check_lines-Grants user perm ls,
  λ g.
      ap (check_lines user perm) g.order
      ∙ open_lines user perm g.before g.line g.after g.open_before g.grants,
)
