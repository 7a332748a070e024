-- ===== src/Server/Start/Loaded.antt =====
-- The users that load_users of Assignment2/server_real.c ends with.
use nss_i_assignments.Base.{
  none, ◌<◌, ◌≤◌, ◌≡◌, ◌⊎◌, Bool, true, false, Option, some, List, [], ◌∷◌, ◌++◌, Bytes, codes,
  length, All,
}
use nss_i_assignments.CString.{snprintf, fgets_lines}
use nss_i_assignments.Common.Crypto.{Evp, derive_long_term_key}
use nss_i_assignments.Server.State.{User}
use nss_i_assignments.Server.Start.{Config, Loading, new_user}
use nss_i_assignments.Server.Start.Lines.{Loads, Fits, Stops}

-- The users of a table of names, passwords and roots, with the keys that they have.
abbrev pub Defaults : Evp → List (Bytes × Bytes × Bytes) → List User → Type 0
Defaults evp [] us = us ≡ []
Defaults evp ((name, password, root) ∷ rest) us =
    (key : Bytes) × (others : List User) × (us ≡ new_user name password root key ∷ others)
    × (derive_long_term_key evp (snprintf 32 name) (snprintf 128 password) ≡ some key)
    × Defaults evp rest others

-- The key of one of them cannot be derived.
abbrev pub NoDefault : Evp → List (Bytes × Bytes × Bytes) → Type 0
NoDefault evp [] = ⊥
NoDefault evp ((name, password, root) ∷ rest) =
    (derive_long_term_key evp (snprintf 32 name) (snprintf 128 password) ≡ none)
    ⊎ NoDefault evp rest

abbrev Adds : Evp → List (Bytes × Bytes × Bytes) → List User → List User → Type 0
Adds evp rest before after = (us : List User) × (after ≡ before ++ us) × Defaults evp rest us

-- There is no file, or no line of it gives a user.
abbrev pub NoUser : Evp → Option Bytes → Type 0
NoUser evp none = Unit
NoUser evp (some text) = Loads evp 32 (fgets_lines 512 text) []

-- The table of the demo.
abbrev pub demo : List (Bytes × Bytes × Bytes)
demo =
    (codes "alice", codes "alicepass", codes "files/alice")
    ∷ (codes "bob", codes "bobpass", codes "files/bob")
    ∷ (codes "carol", codes "carolpass", codes "files/carol")
    ∷ []

-- The users are those of the file, or the three of the demo where it has none.
pub record Loaded (evp : Evp) (cfg : Config) (file : Bytes → Option Bytes) (users : List User)
    : Type 0 where
  pub some_user : 0 < length users
  pub few : length users ≤ 32
  pub fit : All Fits users
  pub origin :
      ((text : Bytes) × (file cfg.users_path ≡ some text)
        × Loads evp 32 (fgets_lines 512 text) users)
      ⊎ (NoUser evp (file cfg.users_path) × Defaults evp demo users)

-- A key cannot be derived: that of a line, or of one of the three where the file has no user.
abbrev pub Fails : Evp → Config → (Bytes → Option Bytes) → Type 0
Fails evp cfg file =
    ((text : Bytes) × (file cfg.users_path ≡ some text) × Stops evp 32 (fgets_lines 512 text))
    ⊎ (NoUser evp (file cfg.users_path) × NoDefault evp demo)

abbrev pub LoadEnds : Evp → Config → (Bytes → Option Bytes) → Bool × Loading → Type 0
LoadEnds evp cfg file r =
    ((r.0 ≡ true) × Loaded evp cfg file r.1.users) ⊎ ((r.0 ≡ false) × Fails evp cfg file)
