-- ===== src/Tools/Options/Searching.antt =====
-- The host behind searchOpts of Assignment1/option.c.
use nss_i_assignments.Base.{
  ◌≡◌, refl, inl, inr, Bool, true, false, List, [], ◌∷◌, Bytes, Bool-cases, Option-cases,
}
use nss_i_assignments.Host.{Host}
use nss_i_assignments.Tools.Options.{is_option, set_option, search_args, search_opts}

-- A search that succeeds leaves the host as it is, and one that fails prints.
pub record Searches (h : Host) (r : Bool × List Bool × Host) : Type 0 where
  pub kept : r.0 ≡ true → r.2 ≡ h
  pub files_kept : r.2.files ≡ h.files

search_args-Searches :
    (program : Bytes) (opts args : List Bytes) (vals : List Bool) (h : Host)
    → Searches h (search_args program opts args vals h)
unfolding search_args
search_args-Searches program opts [] vals h = record { kept = λ _. refl; files_kept = refl }
search_args-Searches program opts (arg ∷ args) vals h = elim (Bool-cases (is_option arg)) [
  | inr e ↦ rw (e, search_args) (search_args-Searches program opts args vals h)
  | inl e ↦ elim (Option-cases (set_option arg opts vals)) [
    | inl e₁ ↦
        rw (e, search_args, e₁) (record { kept = λ (t : false ≡ true). cc; files_kept = refl })
    | inr (vals', e₁) ↦ rw (e, search_args, e₁) (search_args-Searches program opts args vals' h)
  ]
]

pub search_opts-Searches :
    (args opts : List Bytes) (vals : List Bool) (h : Host)
    → Searches h (search_opts args opts vals h)
search_opts-Searches [] opts vals h = record { kept = λ _. refl; files_kept = refl }
search_opts-Searches (program ∷ args) opts vals h = search_args-Searches program opts args vals h
