-- ===== src/Acl/Setting/Answers.antt =====
-- The text that setPermInAcl of Assignment1/utils.c makes from a well formed one.
use nss_i_assignments.Base.{
  ℕ, ◌≡◌, ◌≢◌, refl, sym, ◌∙◌, ap, inl, inr, Bool, true, false, ◌&&◌, some, List, [], ◌∷◌, ◌++◌,
  map, Bytes, codes, All, All-append, All-image, arith, Bool-cases, append_assoc, append-nil, ◌==◌,
}
use nss_i_assignments.CString.{
  str_eq, str_eq_iff, str_eq_self, contains, Free, IsLine, fgets_lines, concat_lines,
  fgets_lines-lines,
}
use nss_i_assignments.Acl.Line.{malformed, judge_entry, separators}
use nss_i_assignments.Acl.Line.Entries.{IsEntry, WellFormed, line_has_perm-user_line}
use nss_i_assignments.Acl.Checking.{check_lines}
use nss_i_assignments.Acl.Setting.{user_line, line_names, replace_lines, new_text}
use nss_i_assignments.Acl.Setting.Replacing.{
  replaced, any_names, replace_lines_lem, own_lines, other_lines, check_lines-append,
  check_lines-user_line,
}

-- A text of lines that end in a newline, fit in the buffer and are not refused.
pub record IsAcl (text : Bytes) : Type 0 where
  pub lines : List Bytes
  pub together : text ≡ concat_lines lines
  pub terminated : All (IsLine 1024) lines
  pub well_formed : All WellFormed lines

-- What the text says of a user.
abbrev pub says : Bytes → ℕ → Bytes → Bool
says user p text = check_lines user p (fgets_lines 1024 text)

-- `after` is what becomes of `before` when the user gets `perm`.
pub record Sets (user perm before after : Bytes) : Type 0 where
  pub own : (p : ℕ) → says user p after ≡ contains p perm
  pub others : (other : Bytes) (p : ℕ) → other ≢ user → says other p after ≡ says other p before
  pub keeps : IsAcl after

pub says-lines :
    (user : Bytes) (p : ℕ) (text : Bytes) (a : IsAcl text)
    → says user p text ≡ check_lines user p a.lines
says-lines user p text a =
    ap (says user p) a.together
    ∙ ap (check_lines user p) (fgets_lines-lines 1024 a.lines a.terminated)

abbrev pub IsPlain : ℕ → Type 0
IsPlain c = (c == b'\n') ≡ false

pub no_newline : (s : Bytes) → Free separators s → All (λ c. (c == b'\n') ≡ false) s
unfolding contains
no_newline [] h = tt
no_newline (c ∷ s) h = (ground (arith, h.0), no_newline s h.1)

pub user_line-IsLine : (user perm : Bytes) → IsEntry user perm → IsLine 1024 (user_line user perm)
user_line-IsLine user perm e = record {
  body = codes "user:" ++ (user ++ (codes ":" ++ perm));
  ends = simp append_assoc;
  plain =
      All-append IsPlain (codes "user:") (user ++ (codes ":" ++ perm))
        (refl, (refl, (refl, (refl, (refl, tt)))))
        (All-append IsPlain user (codes ":" ++ perm) (no_newline user e.name_free)
          (refl, no_newline perm e.perm_free));
  fits = e.fits;
}

judge_entry-ne :
    (user name mode : Bytes) (p : ℕ) → judge_entry user p (some (name, mode)) ≢ malformed
judge_entry-ne user name mode p h = ground arith

pub user_line-WellFormed :
    (user perm : Bytes) → IsEntry user perm → WellFormed (user_line user perm)
user_line-WellFormed user perm e other p h =
    judge_entry-ne other user perm p (sym (line_has_perm-user_line user perm other p e) ∙ h)

concat_lines-append :
    (xs ys : List Bytes) → concat_lines (xs ++ ys) ≡ concat_lines xs ++ concat_lines ys
concat_lines-append [] ys = refl
concat_lines-append (x ∷ xs) ys = rw (concat_lines-append xs ys, append_assoc)

module _ (user perm : Bytes) (e : IsEntry user perm) where
  entry_lines : List Bytes
  entry_lines = user_line user perm ∷ []

  replaced-IsLine : (l : Bytes) → IsLine 1024 l → IsLine 1024 (replaced user perm l)
  replaced-IsLine l h = elim (Bool-cases (line_names user l)) [
    | inl named ↦ rw named (user_line-IsLine user perm e)
    | inr other ↦ rw other h
  ]

  replaced-WellFormed : (l : Bytes) → WellFormed l → WellFormed (replaced user perm l)
  replaced-WellFormed l h = elim (Bool-cases (line_names user l)) [
    | inl named ↦ rw named (user_line-WellFormed user perm e)
    | inr other ↦ rw other h
  ]

  module _ (ls : List Bytes) (lines : All (IsLine 1024) ls) (formed : All WellFormed ls) where
    abbrev mapped : List Bytes
    mapped = map (replaced user perm) ls

    mapped-IsLine : All (IsLine 1024) mapped
    mapped-IsLine = All-image (IsLine 1024) (replaced user perm) ls replaced-IsLine lines

    mapped-WellFormed : All WellFormed mapped
    mapped-WellFormed = All-image WellFormed (replaced user perm) ls replaced-WellFormed formed

    AnswersLines : List Bytes → Type 0
    AnswersLines after =
        ((p : ℕ) → check_lines user p after ≡ contains p perm)
        × ((other : Bytes) (p : ℕ)
            → other ≢ user
            → check_lines other p after ≡ check_lines other p ls)

    found-AnswersLines : any_names user ls ≡ true → AnswersLines mapped
    unfolding AnswersLines
    found-AnswersLines found = (
      λ p. own_lines user perm e p ls formed ∙ rw found,
      λ other p ne. other_lines user perm e p other ls ne formed,
    )

    alone :
        (other : Bytes) (p : ℕ)
        → check_lines other p entry_lines ≡ (str_eq user other && contains p perm)
    unfolding entry_lines check_lines
    alone other p = check_lines-user_line user perm other p [] e ∙ ground arith

    appended-AnswersLines : any_names user ls ≡ false → AnswersLines (mapped ++ entry_lines)
    unfolding AnswersLines
    appended-AnswersLines absent = (
      λ p.
          check_lines-append user perm e p user mapped entry_lines mapped-WellFormed
          ∙ rw (own_lines user perm e p ls formed, alone user p, absent, str_eq_self user),
      λ other p ne.
          let away : str_eq user other ≡ false = ground (arith, str_eq_iff user other) in
          check_lines-append user perm e p other mapped entry_lines mapped-WellFormed
          ∙ rw (other_lines user perm e p other ls ne formed, alone other p, away) (ground arith),
    )

    -- The lines that the loop and the line behind it leave.
    record Leaves (after : List Bytes) : Type 0 where
      text : new_text user perm (concat_lines ls) ≡ some (concat_lines after)
      terminated : All (IsLine 1024) after
      well_formed : All WellFormed after
      answered : AnswersLines after

    looped :
        replace_lines user perm false (fgets_lines 1024 (concat_lines ls))
        ≡ some (concat_lines mapped, any_names user ls)
    looped =
        ap (replace_lines user perm false) (fgets_lines-lines 1024 ls lines)
        ∙ replace_lines_lem user perm false ls lines

    leaves : (after : List Bytes) × Leaves after
    unfolding new_text entry_lines
    leaves = elim (Bool-cases (any_names user ls)) [
      | inl found ↦ (
        mapped,
        record {
          text = rw (looped, found, append-nil);
          terminated = mapped-IsLine;
          well_formed = mapped-WellFormed;
          answered = found-AnswersLines found;
        },
      )
      | inr absent ↦ (
        mapped ++ entry_lines,
        record {
          text = rw (looped, absent) (ap (λ (x : Bytes). some x) (sym split));
          terminated =
              All-append (IsLine 1024) mapped entry_lines mapped-IsLine
                (user_line-IsLine user perm e, tt);
          well_formed =
              All-append WellFormed mapped entry_lines mapped-WellFormed
                (user_line-WellFormed user perm e, tt);
          answered = appended-AnswersLines absent;
        },
      )
    ]
      where
        split : concat_lines (mapped ++ entry_lines) ≡ concat_lines mapped ++ user_line user perm
        split =
            concat_lines-append mapped entry_lines
            ∙ ap (◌++◌ (concat_lines mapped)) (append-nil (user_line user perm))

  -- From a text of lines that are terminated, fit and are not refused, setPermInAcl makes another
  -- such text, which gives the user exactly the new permissions, and each other user what it had;
  -- the name and the permissions are ones that can stand in a line.
  pub new_text-Sets :
      (before : Bytes)
      → IsAcl before
      → (after : Bytes) × (new_text user perm before ≡ some after) × Sets user perm before after
  unfolding AnswersLines
  new_text-Sets before a =
      let (ls, l) = leaves a.lines a.terminated a.well_formed in
      let acl : IsAcl (concat_lines ls) = record {
        lines = ls;
        together = refl;
        terminated = l.terminated;
        well_formed = l.well_formed;
      } in
      (
        concat_lines ls,
        ap (new_text user perm) a.together ∙ l.text,
        record {
          own = λ p. says-lines user p (concat_lines ls) acl ∙ l.answered.0 p;
          others = λ other p ne.
              says-lines other p (concat_lines ls) acl
              ∙ l.answered.1 other p ne
              ∙ sym (says-lines other p before a);
          keeps = acl;
        },
      )
