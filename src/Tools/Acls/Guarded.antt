-- ===== src/Tools/Acls/Guarded.antt =====
-- setacl of Assignment1/setacl.c: which ACL it sets, and when.
use nss_i_assignments.Base.{
  ◌≡◌, refl, sym, ◌∙◌, ap, subst, ◌⊎◌, inl, inr, Bool, true, false, not, ◌&&◌, ◌||◌, Option, none,
  some, List, [], ◌∷◌, ◌==◌, Bytes, codes, length, arith, Bool-cases, Option-cases,
}
use nss_i_assignments.CString.{ℤ, str_eq, str_eq_iff, strtok}
use nss_i_assignments.Host.{Host, Kernel}
use nss_i_assignments.Host.Ids.{as_caller, caller_allowed, seteuid_allowed}
use nss_i_assignments.Acl.Line.{valid_perm_string}
use nss_i_assignments.Tools.Options.Searching.{Searches, search_opts-Searches}
use nss_i_assignments.Tools.Acls.{
  setacl_opts, all_unset, fails_with, perm_of, set_perm, set_user, set_spec, set_opts, set_searched,
  setacl_main,
}
use nss_i_assignments.Tools.Acls.Sets.{SetsOne, found-Ended}

-- What the arguments of setacl name: the file, and in the specification the user.
pub record Names (args : List Bytes) (program path user : Bytes) : Type 0 where
  pub option : Bytes
  pub spec : Bytes
  pub rest : Bytes
  pub rest' : Bytes
  pub four : args ≡ program ∷ option ∷ spec ∷ path ∷ []
  pub first : strtok (codes ":") spec ≡ some (codes "u", rest)
  pub second : strtok (codes ":") rest ≡ some (user, rest')

-- No file changes, or one ACL is set for the user that the arguments name, to valid permissions.
abbrev pub SetaclEnds : Kernel → Bool → List Bytes → Host → Host → Type 0
SetaclEnds k sudo args h after =
    (after.files ≡ h.files)
    ⊎ ((program : Bytes) × (path : Bytes) × (user : Bytes) × (perm : Bytes) × Names args program
          path user
        × (valid_perm_string perm ≡ true)
        × SetsOne k sudo program path user perm h after)

perm_of-valid :
    (modify : Bool) (o : Option (Bytes × Bytes)) (perm : Bytes)
    → perm_of modify o ≡ inr perm
    → valid_perm_string perm ≡ true
perm_of-valid true none perm e = cc
perm_of-valid true (some (token, rest)) perm e =
    elim (Bool-cases (length token == 3 && valid_perm_string token)) [
      | inl good ↦
          let same : inr token ≡ inr perm = rw good at e in
          let is : token ≡ perm = cc in rw (sym is) (ground arith)
      | inr bad ↦ let no₁ : inl (some token) ≡ inr perm = rw bad at e in cc
    ]
perm_of-valid false o perm e = let same : codes "---" ≡ perm = cc in rw (sym same) refl

module _ (k : Kernel) (sudo : Bool) (args : List Bytes) (h : Host) where
  abbrev Done : ℤ × Host → Type 0
  Done r = SetaclEnds k sudo args h r.1

  fails-Done : (messages : List Bytes) (s : Host) → s.files ≡ h.files → Done (fails_with messages s)
  fails-Done [] s e = inl e
  fails-Done (m ∷ messages) s e = inl e

  perm-Done :
      (program path user : Bytes) (modify : Bool) (o : Option (Bytes × Bytes))
      (x : Option Bytes ⊎ Bytes)
      → Names args program path user
      → perm_of modify o ≡ x
      → Done (set_perm k sudo program path user (as_caller h) x)
  perm-Done program path user modify o (inl token) n e = inl refl
  perm-Done program path user modify o (inr perm) n e =
      elim (found-Ended k sudo program path user perm h (h.files path)) [
        | inl same ↦ inl same
        | inr one ↦ inr (program, path, user, perm, n, perm_of-valid modify o perm e, one)
      ]

  spec-Done :
      (program option spec path : Bytes) (modify : Bool)
      → args ≡ program ∷ option ∷ spec ∷ path ∷ []
      → Done (set_spec k sudo modify program path h (strtok (codes ":") spec))
  spec-Done program option spec path modify four = elim (Option-cases (strtok (codes ":") spec)) [
    | inl e ↦ rw e (inl refl)
    | inr ((token, rest), e) ↦ elim (Bool-cases (str_eq token (codes "u"))) [
      | inr bad ↦ rw (e, bad) (inl refl)
      | inl good ↦
          rw (e, good, seteuid_allowed h.ruid h (caller_allowed h))
            (user-Done
              (e ∙ ap (λ (t : Bytes). some (t, rest)) ((str_eq_iff token (codes "u")).0 good)))
    ]
  ]
    where
      user-Done :
          {rest : Bytes}
          → strtok (codes ":") spec ≡ some (codes "u", rest)
          → Done (set_user k sudo modify program path (as_caller h) (strtok (codes ":") rest))
      user-Done {rest} e = elim (Option-cases (strtok (codes ":") rest)) [
        | inl e₁ ↦ rw e₁ (inl refl)
        | inr ((user, rest'), e₁) ↦ elim (Bool-cases (k.has_user user)) [
          | inr none₁ ↦ rw (e₁, none₁) (inl refl)
          | inl known ↦
              rw (e₁, known)
                (perm-Done program path user modify (strtok (codes ":") rest')
                  (perm_of modify (strtok (codes ":") rest'))
                  (record {
                    option = option;
                    spec = spec;
                    rest = rest;
                    rest' = rest';
                    four = four;
                    first = e;
                    second = e₁;
                  })
                  refl)
        ]
      ]

  opts-Done : (a : List Bytes) (vals : List Bool) → args ≡ a → Done (set_opts k sudo a vals h)
  opts-Done a [] e = inl refl
  opts-Done a (m ∷ []) e = inl refl
  opts-Done a (m ∷ modify ∷ []) e = inl refl
  opts-Done a (m ∷ modify ∷ x ∷ []) e = inl refl
  opts-Done a (m ∷ modify ∷ x ∷ remove ∷ []) e = inl refl
  opts-Done a (m ∷ modify ∷ x ∷ remove ∷ help ∷ more ∷ vals) e = inl refl
  opts-Done a (m ∷ modify ∷ x ∷ remove ∷ true ∷ []) e = inl refl
  opts-Done [] (m ∷ modify ∷ x ∷ remove ∷ false ∷ []) e = inl refl
  opts-Done (a₀ ∷ []) (m ∷ modify ∷ x ∷ remove ∷ false ∷ []) e = inl refl
  opts-Done (a₀ ∷ a₁ ∷ []) (m ∷ modify ∷ x ∷ remove ∷ false ∷ []) e = inl refl
  opts-Done (a₀ ∷ a₁ ∷ a₂ ∷ []) (m ∷ modify ∷ x ∷ remove ∷ false ∷ []) e = inl refl
  opts-Done (a₀ ∷ a₁ ∷ a₂ ∷ a₃ ∷ a₄ ∷ a) (m ∷ modify ∷ x ∷ remove ∷ false ∷ []) e = inl refl
  opts-Done (program ∷ option ∷ spec ∷ path ∷ []) (m ∷ modify ∷ x ∷ remove ∷ false ∷ []) e =
      elim (Bool-cases (not (m || modify) && not (x || remove))) [
        | inl neither ↦ rw neither (inl refl)
        | inr one ↦ rw one (spec-Done program option spec path (m || modify) e)
      ]

  searched-Done : (r : Bool × List Bool × Host) → Searches h r → Done (set_searched k sudo args r)
  searched-Done (false, vals, s) e = inl e.files_kept
  searched-Done (true, vals, s) e =
      subst (λ (x : Host). Done (set_opts k sudo args vals x)) (sym (e.kept refl))
        (opts-Done args vals refl)

-- setacl either changes no file, or sets the ACL of the file that its arguments name, for the user
-- that they name and to valid permissions, and that only for root, or for one whom that ACL lets
-- write, or under sudo the ACL of the command lets run it. Then the ACL is the old one with that
-- user's entry set, as far as fgets could read the old one and the new one could be written, or is
-- left; and no other file changes but the temporary one.
pub setacl_main-SetaclEnds :
    (k : Kernel) (sudo : Bool) (args : List Bytes) (h : Host)
    → SetaclEnds k sudo args h (setacl_main k sudo args h).1
unfolding setacl_main
setacl_main-SetaclEnds k sudo [] h = inl refl
setacl_main-SetaclEnds k sudo (program ∷ []) h = inl refl
setacl_main-SetaclEnds k sudo (program ∷ arg ∷ args) h =
    searched-Done k sudo (program ∷ arg ∷ args) h _
      (search_opts-Searches (program ∷ arg ∷ args) setacl_opts all_unset h)
