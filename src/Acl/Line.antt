-- ===== src/Acl/Line.antt =====
-- build_perm, valid_perm_string, line_has_perm and getAclFilename of Assignment1/utils.c.
pub mod Entries
use Prim.Native.Nat.{bit_and}
use nss_i_assignments.Base.{
  ℕ, ◌≡◌, refl, Bool, true, false, not, ◌&&◌, ◌||◌, Option, none, some, [], ◌∷◌, ◌++◌, ltb, ◌==◌,
  if◌then◌else◌, Bytes, codes, length, ◌>>=◌,
}
use nss_i_assignments.CString.{str_eq, contains, snprintf, strtok, basename, dirname}

-- S_IRUSR and its like are the bits.
abbrev pub build_perm : ℕ → ℕ → ℕ → ℕ → Bytes
build_perm mode r w x =
    (if bit_and mode r == 0 then b'-' else b'r')
    ∷ (if bit_and mode w == 0 then b'-' else b'w')
    ∷ (if bit_and mode x == 0 then b'-' else b'x')
    ∷ []

abbrev pub valid_perm_string : Bytes → Bool
valid_perm_string (r ∷ w ∷ x ∷ rest) =
    (r == b'r' || r == b'-') && ((w == b'w' || w == b'-') && (x == b'x' || x == b'-'))
valid_perm_string _ = false

abbrev pub separators : Bytes
separators = codes ":\n"

-- The answers -1, 0 and 1 of line_has_perm.
pub data Verdict : Type 0 where
  malformed lacks has : Verdict

-- The two tokens behind "user".
abbrev pub entry : Bytes → Option (Bytes × Bytes)
entry rest = do
  (name, rest') ← strtok separators rest
  (mode, rest'') ← strtok separators rest'
  if valid_perm_string mode then some (name, mode) else none

abbrev pub judge_entry : Bytes → ℕ → Option (Bytes × Bytes) → Verdict
judge_entry user perm none = malformed
judge_entry user perm (some (name, mode)) =
    if str_eq name user then if contains perm mode then has else lacks else lacks

abbrev pub judge : Bytes → ℕ → Option (Bytes × Bytes) → Verdict
judge user perm none = lacks
judge user perm (some (kind, rest)) =
    if str_eq kind (codes "default")
    then lacks
    else if not (str_eq kind (codes "user"))
    then lacks
    else judge_entry user perm (entry rest)

unfoldable pub line_has_perm : Bytes → Bytes → ℕ → Verdict
line_has_perm line user perm =
    if not (ltb (length line) 1024) then malformed else judge user perm (strtok separators line)

-- An empty name where the path does not fit.
unfoldable pub get_acl_filename : Bytes → Bytes
get_acl_filename path =
    let name = dirname path ++ (codes "/." ++ (basename path ++ codes ".acl")) in
    if ltb (length name) 1024 then name else []
