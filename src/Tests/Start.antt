-- ===== src/Tests/Start.antt =====
-- Runs of the start of Assignment2/server_real.c on small inputs.
use nss_i_assignments.Base.{◌≡◌, refl, none, some, [], ◌∷◌, Bytes, codes, if◌then◌else◌, Option}
use nss_i_assignments.CString.{str_eq}
use nss_i_assignments.Server.Start.{defaults, parse_args}

abbrev file : Bytes → Option Bytes
file path =
    if str_eq path (codes "users.db")
    then some (codes "# users\ndave:davepass:files/dave\n")
    else none

parse_args_runs :
    (parse_args (codes "--kdc-port" ∷ codes "9100" ∷ []) defaults
      ≡ some (record defaults { kdc_port = codes "9100" }))
    × (parse_args (codes "--kdc-port" ∷ []) defaults ≡ none)
    × (parse_args (codes "--port" ∷ codes "1" ∷ []) defaults ≡ none)
unfolding parse_args str_eq
parse_args_runs = (refl, refl, refl)
