-- ===== src/Tools/Options.antt =====
-- searchOpts, separateOpts and splitOpts of Assignment1/option.c.
pub mod Searching
pub mod Tokens
use nss_i_assignments.Base.{
  ℕ, zero, suc, ◌-◌, Bool, true, false, Option, none, some, List, [], ◌∷◌, ◌++◌, set, length, ltb,
  ◌==◌, if◌then◌else◌, Bytes, codes, drop,
}
use nss_i_assignments.CString.{str_eq, strtok}
use nss_i_assignments.Host.{Host, print}

abbrev pub is_option : Bytes → Bool
is_option [] = false
is_option (c ∷ s) = c == b'-'

-- The inner loop: the values with the one of the option set, or `none` where no option is `arg`.
unfoldable pub set_option : Bytes → List Bytes → List Bool → Option (List Bool)
set_option arg (o ∷ opts) (v ∷ vals) =
    let rest = set_option arg opts vals in
    if str_eq arg o
    then some (true ∷ vals)
    else elim rest [ none ↦ none | some vals' ↦ some (v ∷ vals') ]
set_option arg _ _ = none

abbrev pub invalid_option : Bytes → Bytes → Bytes
invalid_option program arg =
    program ++ (codes ": invalid option -- '" ++ (drop 1 arg ++ codes "'\n"))

-- The outer loop, from argv[1] on: whether it returns true, and the values.
unfoldable pub search_args :
    Bytes → List Bytes → List Bytes → List Bool → Host → Bool × List Bool × Host
unfolding set_option
search_args program opts [] vals h = (true, vals, h)
search_args program opts (arg ∷ args) vals h =
    let skipped = search_args program opts args vals h in
    elim (is_option arg) [
      | false ↦ skipped
      | true ↦ elim (set_option arg opts vals) [
        | none ↦ (false, vals, print (invalid_option program arg) h)
        | some vals' ↦ search_args program opts args vals' h
      ]
    ]

abbrev pub search_opts : List Bytes → List Bytes → List Bool → Host → Bool × List Bool × Host
search_opts [] opts vals h = (true, vals, h)
search_opts (program ∷ args) opts vals h = search_args program opts args vals h

unfoldable pub separate_opts : List Bytes → List Bytes
separate_opts [] = []
separate_opts (arg ∷ args) =
    let rest = separate_opts args in if is_option arg then rest else arg ∷ rest

-- The loop over the tokens of one argument; `none` where the fuel runs out.
unfoldable pub tokens : ℕ → Bytes → Option (List Bytes)
tokens zero s = none
tokens (suc f) s = elim (strtok (codes " ") s) [
  | none ↦ some []
  | some (t, rest) ↦ elim (tokens f rest) [ none ↦ none | some ts ↦ some (t ∷ ts) ]
]

-- Of the arguments before `split_start` each is kept whole.
unfoldable pub split_opts : List Bytes → ℕ → Option (List Bytes)
unfolding tokens
split_opts [] split_start = some []
split_opts (arg ∷ args) (suc split_start) = elim (split_opts args split_start) [
  | none ↦ none
  | some rest ↦ some (arg ∷ rest)
]
split_opts (arg ∷ args) zero = elim (tokens (suc (length arg)) arg) [
  | none ↦ none
  | some ts ↦ elim (split_opts args zero) [ none ↦ none | some rest ↦ some (ts ++ rest) ]
]
