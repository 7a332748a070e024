-- ===== src/Acl/Setting/Replacing.antt =====
-- The text that setPermInAcl of Assignment1/utils.c writes, and what it then says of each user.
use nss_i_assignments.Base.{
  ℕ, ◌≡◌, ◌≢◌, refl, sym, ◌∙◌, ap, inl, inr, Bool, true, false, ◌&&◌, ◌||◌, some, List, [], ◌∷◌,
  ◌++◌, map, lt→ltb, Bytes, All, arith, Bool-cases, if◌then◌else◌,
}
use nss_i_assignments.CString.{str_eq, str_eq_iff, str_eq_self, contains, IsLine, concat_lines}
use nss_i_assignments.Acl.Line.{lacks, has, line_has_perm, judge_entry}
use nss_i_assignments.Acl.Line.Entries.{IsEntry, WellFormed, line_cases, line_has_perm-user_line}
use nss_i_assignments.Acl.Checking.{check_lines}
use nss_i_assignments.Acl.Setting.{user_line, line_names, replace_lines}

abbrev pub replaced : Bytes → Bytes → Bytes → Bytes
replaced user perm line = if line_names user line then user_line user perm else line

unfoldable pub any_names : Bytes → List Bytes → Bool
any_names user [] = false
any_names user (line ∷ lines) = line_names user line || any_names user lines

pub replace_lines_lem :
    (user perm : Bytes) (found : Bool) (ls : List Bytes)
    → All (IsLine 1024) ls
    → replace_lines user perm found ls
      ≡ some (concat_lines (map (replaced user perm) ls), found || any_names user ls)
unfolding replace_lines any_names
replace_lines_lem user perm true [] h = refl
replace_lines_lem user perm false [] h = refl
replace_lines_lem user perm found (l ∷ ls) h = elim (Bool-cases (line_names user l)) [
  | inl e ↦ rw (lt→ltb _ _ h.0.fits, e, replace_lines_lem user perm true ls h.1) (ground arith)
  | inr e ↦ rw (lt→ltb _ _ h.0.fits, e, replace_lines_lem user perm found ls h.1) (ground arith)
]

pub check_lines-step :
    (user line : Bytes) (p : ℕ) (ls : List Bytes)
    → line_has_perm line user p ≡ lacks
    → check_lines user p (line ∷ ls) ≡ check_lines user p ls
unfolding check_lines
check_lines-step user line p ls e = rw (e, check_lines) refl

check_lines-judged :
    (user line name mode : Bytes) (p : ℕ) (ls : List Bytes)
    → line_has_perm line user p ≡ judge_entry user p (some (name, mode))
    → check_lines user p (line ∷ ls)
      ≡ (str_eq name user && contains p mode || check_lines user p ls)
unfolding check_lines
check_lines-judged user line name mode p ls e = elim (Bool-cases (str_eq name user)) [
  | inr other ↦
      let verdict : line_has_perm line user p ≡ lacks = e ∙ rw other in
      rw (verdict, other, check_lines)
  | inl same ↦ elim (Bool-cases (contains p mode)) [
    | inl c ↦
        let verdict : line_has_perm line user p ≡ has = e ∙ rw (same, c) in
        rw (verdict, same, c, check_lines)
    | inr c ↦
        let verdict : line_has_perm line user p ≡ lacks = e ∙ rw (same, c) in
        rw (verdict, same, c, check_lines)
  ]
]

pub check_lines-user_line :
    (user perm other : Bytes) (p : ℕ) (ls : List Bytes)
    → IsEntry user perm
    → check_lines other p (user_line user perm ∷ ls)
      ≡ (str_eq user other && contains p perm || check_lines other p ls)
check_lines-user_line user perm other p ls e =
    check_lines-judged other (user_line user perm) user perm p ls
      (line_has_perm-user_line user perm other p e)

replaced_named :
    (user perm line : Bytes)
    → line_names user line ≡ true
    → replaced user perm line ≡ user_line user perm
replaced_named user perm line h = rw h

replaced_other :
    (user perm line : Bytes) → line_names user line ≡ false → replaced user perm line ≡ line
replaced_other user perm line h = rw h

module _ (user perm : Bytes) (e : IsEntry user perm) (p : ℕ) where
  own_step :
      (l : Bytes) (ls : List Bytes)
      → WellFormed l
      → check_lines user p (replaced user perm l ∷ ls)
        ≡ (line_names user l && contains p perm || check_lines user p ls)
  own_step l ls ok = elim (line_cases l ok) [
    | inl (quiet, unnamed) ↦
        ap (λ (x : Bytes). check_lines user p (x ∷ ls)) (replaced_other user perm l (unnamed user))
        ∙ check_lines-step user l p ls (quiet user p)
        ∙ rw (unnamed user)
    | inr (name, mode, says, named) ↦ elim (Bool-cases (line_names user l)) [
      | inl yes₁ ↦
          ap (λ (x : Bytes). check_lines user p (x ∷ ls)) (replaced_named user perm l yes₁)
          ∙ check_lines-user_line user perm user p ls e
          ∙ rw (yes₁, str_eq_self user)
      | inr no₁ ↦
          let differs : str_eq name user ≡ false = sym (named user) ∙ no₁ in
          ap (λ (x : Bytes). check_lines user p (x ∷ ls)) (replaced_other user perm l no₁)
          ∙ check_lines-judged user l name mode p ls (says user p)
          ∙ rw (differs, no₁)
    ]
  ]

  -- The replaced lines give the user exactly the new permissions, where a line had its name.
  pub own_lines :
      (ls : List Bytes)
      → All WellFormed ls
      → check_lines user p (map (replaced user perm) ls) ≡ (any_names user ls && contains p perm)
  unfolding check_lines any_names
  own_lines [] h = refl
  own_lines (l ∷ ls) h =
      own_step l (map (replaced user perm) ls) h.0 ∙ rw (own_lines ls h.1) (ground arith)

  other_step :
      (other l : Bytes) (ls ls' : List Bytes)
      → other ≢ user
      → WellFormed l
      → check_lines other p ls ≡ check_lines other p ls'
      → check_lines other p (replaced user perm l ∷ ls) ≡ check_lines other p (l ∷ ls')
  other_step other l ls ls' ne ok same = elim (line_cases l ok) [
    | inl (quiet, unnamed) ↦
        ap (λ (x : Bytes). check_lines other p (x ∷ ls)) (replaced_other user perm l (unnamed user))
        ∙ check_lines-step other l p ls (quiet other p)
        ∙ same
        ∙ sym (check_lines-step other l p ls' (quiet other p))
    | inr (name, mode, says, named) ↦ elim (Bool-cases (line_names user l)) [
      | inl yes₁ ↦
          let is_user : name ≡ user = (str_eq_iff name user).0 (sym (named user) ∙ yes₁) in
          let away : str_eq user other ≡ false = ground (arith, str_eq_iff user other) in
          ap (λ (x : Bytes). check_lines other p (x ∷ ls)) (replaced_named user perm l yes₁)
          ∙ check_lines-user_line user perm other p ls e
          ∙ rw (away, same)
              (sym (check_lines-judged other l name mode p ls' (says other p) ∙ rw (is_user, away)))
      | inr no₁ ↦
          ap (λ (x : Bytes). check_lines other p (x ∷ ls)) (replaced_other user perm l no₁)
          ∙ check_lines-judged other l name mode p ls (says other p)
          ∙ ap (λ (b : Bool). str_eq name other && contains p mode || b) same
          ∙ sym (check_lines-judged other l name mode p ls' (says other p))
    ]
  ]

  -- And every other user what the lines gave it.
  pub other_lines :
      (other : Bytes) (ls : List Bytes)
      → other ≢ user
      → All WellFormed ls
      → check_lines other p (map (replaced user perm) ls) ≡ check_lines other p ls
  unfolding check_lines
  other_lines other [] ne h = refl
  other_lines other (l ∷ ls) ne h =
      other_step other l (map (replaced user perm) ls) ls ne h.0 (other_lines other ls ne h.1)

  pub check_lines-append :
      (u : Bytes) (ls ls' : List Bytes)
      → All WellFormed ls
      → check_lines u p (ls ++ ls') ≡ (check_lines u p ls || check_lines u p ls')
  unfolding check_lines
  check_lines-append u [] ls' h = refl
  check_lines-append u (l ∷ ls) ls' h = elim (line_cases l h.0) [
    | inl (quiet, unnamed) ↦
        check_lines-step u l p (ls ++ ls') (quiet u p)
        ∙ check_lines-append u ls ls' h.1
        ∙ rw (sym (check_lines-step u l p ls (quiet u p)))
    | inr (name, mode, says, named) ↦
        check_lines-judged u l name mode p (ls ++ ls') (says u p)
        ∙ rw (check_lines-append u ls ls' h.1, check_lines-judged u l name mode p ls (says u p))
            (ground arith)
  ]
