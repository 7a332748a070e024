-- ===== src/Tools/Sudo/Permitted.antt =====
-- What Assignment1/sudo.c runs.
use nss_i_assignments.Base.{
  ℕ, ◌≡◌, refl, sym, subst, ◌∙◌, ◌⊎◌, inl, inr, Bool, true, false, ◌||◌, List, [], ◌∷◌, ◌++◌, ltb,
  Bytes, codes, length, Has, Bool-cases, if◌then◌else◌,
}
use nss_i_assignments.CString.{str_eq, str_eq_iff, contains, strstr}
use nss_i_assignments.Tools.Sudo.{
  allowed_names, any_equal, allowed_command, Run, Child, no_fork, lost, exited, signalled,
  execute_process, sudo_main,
}

any_equal-Has : (cmd : Bytes) (names : List Bytes) → any_equal cmd names ≡ true → Has cmd names
unfolding any_equal
any_equal-Has cmd [] h = cc
any_equal-Has cmd (a ∷ names) h = elim (Bool-cases (str_eq cmd a)) [
  | inl e ↦ inl (sym ((str_eq_iff cmd a).0 e))
  | inr e ↦ inr (any_equal-Has cmd names (rw e at h))
]

-- Each name on the list passes the tests for slashes and parents, and its path fits.
listed :
    (cmd : Bytes)
    → Has cmd allowed_names
    → (allowed_command cmd ≡ true) × (ltb (length (codes "/fakeroot/" ++ cmd)) 1024 ≡ true)
unfolding allowed_command any_equal contains strstr str_eq
listed cmd (inl e) = rw (sym e) (refl, refl)
listed cmd (inr (inl e)) = rw (sym e) (refl, refl)
listed cmd (inr (inr (inl e))) = rw (sym e) (refl, refl)
listed cmd (inr (inr (inr (inl e)))) = rw (sym e) (refl, refl)
listed cmd (inr (inr (inr (inr (inl e))))) = rw (sym e) (refl, refl)
listed cmd (inr (inr (inr (inr (inr (inl e)))))) = rw (sym e) (refl, refl)
listed cmd (inr (inr (inr (inr (inr (inr e)))))) = absurd e

allowed_command-Has : (cmd : Bytes) → allowed_command cmd ≡ true → Has cmd allowed_names
unfolding allowed_command
allowed_command-Has cmd h = elim (Bool-cases (contains b'/' cmd || strstr (codes "..") cmd)) [
  | inl e ↦ let bad : false ≡ true = rw e at h in cc
  | inr e ↦ any_equal-Has cmd allowed_names (rw e at h)
]

abbrev pub run_of : Bytes → List Bytes → Run
run_of cmd rest = record { path = codes "/fakeroot/" ++ cmd; args = cmd ∷ rest }

permitted :
    (start : Run → Child) (sets : Bool) (program cmd : Bytes) (rest : List Bytes)
    → Has cmd allowed_names
    → sudo_main start sets (program ∷ cmd ∷ rest)
      ≡ (if sets then execute_process start (run_of cmd rest) else (1, []))
unfolding sudo_main
permitted start true program cmd rest h = rw ((listed cmd h).0, (listed cmd h).1)
permitted start false program cmd rest h = rw ((listed cmd h).0, (listed cmd h).1)

-- What a run comes to, by how its child ends: the status, and what was run. Where fork fails nothing
-- was.
abbrev pub Gives : Bytes → List Bytes → Child → ℕ × List Run → Type 0
Gives cmd rest no_fork (status, runs) = (status ≡ 1) × (runs ≡ [])
Gives cmd rest lost (status, runs) =
    (status ≡ 1) × (runs ≡ record { path = codes "/fakeroot/" ++ cmd; args = cmd ∷ rest } ∷ [])
Gives cmd rest (exited code) (status, runs) =
    (status ≡ code) × (runs ≡ record { path = codes "/fakeroot/" ++ cmd; args = cmd ∷ rest } ∷ [])
Gives cmd rest signalled (status, runs) =
    (status ≡ 1) × (runs ≡ record { path = codes "/fakeroot/" ++ cmd; args = cmd ∷ rest } ∷ [])

execute_process-Gives :
    (start : Run → Child) (cmd : Bytes) (rest : List Bytes) (child : Child)
    → start (run_of cmd rest) ≡ child
    → Gives cmd rest child (execute_process start (run_of cmd rest))
execute_process-Gives start cmd rest no_fork e = rw (execute_process, e) (refl, refl)
execute_process-Gives start cmd rest lost e = rw (execute_process, e) (refl, refl)
execute_process-Gives start cmd rest (exited code) e = rw (execute_process, e) (refl, refl)
execute_process-Gives start cmd rest signalled e = rw (execute_process, e) (refl, refl)

-- sudo with a command starts it exactly if its name is one of the six on the list and the environment
-- can be set. The one run is then of that name under /fakeroot, with the arguments from the name on;
-- the status is that of the child where it exits, and 1 where a signal ends it, the wait for it fails
-- or, with nothing run, fork fails. In every other case nothing runs and the status is 1.
pub sudo_main-runs :
    (start : Run → Child) (sets : Bool) (program cmd : Bytes) (rest : List Bytes)
    → ((sets ≡ true)
        × Has cmd allowed_names
        × Gives cmd rest (start (run_of cmd rest)) (sudo_main start sets (program ∷ cmd ∷ rest)))
      ⊎ (((sets ≡ false) ⊎ ¬ Has cmd allowed_names)
          × (sudo_main start sets (program ∷ cmd ∷ rest) ≡ (1, [])))
unfolding sudo_main
sudo_main-runs start sets program cmd rest = elim (Bool-cases (allowed_command cmd)) [
  | inr bad ↦ inr (
    inr (λ (h : Has cmd allowed_names). let good : true ≡ false = sym (listed cmd h).0 ∙ bad in cc),
    rw bad refl,
  )
  | inl good ↦
      let h : Has cmd allowed_names = allowed_command-Has cmd good in
      elim (Bool-cases sets) [
        | inl t ↦ inl (
          t,
          h,
          subst (Gives cmd rest (start (run_of cmd rest)))
              (sym (permitted start sets program cmd rest h ∙ rw t))
              (execute_process-Gives start cmd rest (start (run_of cmd rest)) refl),
        )
        | inr f ↦ inr (inl f, permitted start sets program cmd rest h ∙ rw f)
      ]
]
