-- ===== src/Acl/Setting.antt =====
-- setPermInAcl of Assignment1/utils.c.
pub mod Replacing
pub mod Answers
pub mod Outcomes
pub mod ThenChecked
use nss_i_assignments.Base.{
  ℕ, Bool, true, false, not, ◌&&◌, Option, none, some, List, [], ◌∷◌, ◌++◌, ltb, if◌then◌else◌,
  Bytes, codes, length, ◌>>=◌,
}
use nss_i_assignments.CString.{str_eq, strtok, fgets_lines}
use nss_i_assignments.Common.Files.{tmp_path}
use nss_i_assignments.Host.{File, Host, Kernel, seteuid, fopen_r, store_text, unlink, rename}
use nss_i_assignments.Acl.Line.{valid_perm_string, separators}

abbrev pub user_line : Bytes → Bytes → Bytes
user_line user perm = codes "user:" ++ (user ++ (codes ":" ++ (perm ++ codes "\n")))

abbrev pub kind_and_name : Bytes → Option (Bytes × Bytes)
kind_and_name line = do
  (kind, rest) ← strtok separators line
  (name, rest') ← strtok separators rest
  some (kind, name)

abbrev names : Bytes → Option (Bytes × Bytes) → Bool
names user none = false
names user (some (kind, name)) = str_eq kind (codes "user") && str_eq name user

-- Whether the line is the entry of the user.
unfoldable pub line_names : Bytes → Bytes → Bool
line_names user line = names user (kind_and_name line)

-- The loop, with the `found` that it has so far: what it writes, and the `found` at the end; `none`
-- where a line does not fit in the copy.
unfoldable pub replace_lines : Bytes → Bytes → Bool → List Bytes → Option (Bytes × Bool)
unfolding line_names
replace_lines user perm found [] = some ([], found)
replace_lines user perm found (line ∷ lines) =
    let named = line_names user line in
    let rest = replace_lines user perm (if named then true else found) lines in
    if not (ltb (length line) 1024) then none else do
      (text, found') ← rest
      some ((if named then user_line user perm else line) ++ text, found')

unfoldable pub new_text : Bytes → Bytes → Bytes → Option Bytes
unfolding replace_lines
new_text user perm text = do
  (body, found) ← replace_lines user perm false (fgets_lines 1024 text)
  some (body ++ (if found then [] else user_line user perm))

-- After the loop; `tmp` holds the text unless closing it fails.
abbrev pub replace_acl : Kernel → Bytes → Bytes → ℕ → Host → Bool × Host
replace_acl k acl tmp caller h =
    if k.may_close h tmp && k.may_rename h tmp acl
    then (true, (seteuid caller (rename tmp acl h)).1)
    else (false, (seteuid caller (unlink tmp h)).1)

abbrev pub write_new : Kernel → Bytes → Bytes → ℕ → Host → Option Bytes → Bool × Host
write_new k acl tmp caller h none = (false, (seteuid caller (unlink tmp h)).1)
write_new k acl tmp caller h (some text) =
    replace_acl k acl tmp caller (store_text k tmp (k.puts tmp text) h)

-- The two calls of fopen, and the close and unlink where only one succeeds. No error of fgets, fprintf
-- and fputs is looked at: the loop works on what was read, and the file gets what could be written.
abbrev pub set_opened :
    Kernel → Bytes → Bytes → Bytes → Bytes → ℕ → Host → Option Bytes → Bool → Bool × Host
set_opened k acl tmp user perm caller h (some text) true =
    write_new k acl tmp caller h (new_text user perm (k.gets acl text))
set_opened k acl tmp user perm caller h none true = (false, (seteuid caller (unlink tmp h)).1)
set_opened k acl tmp user perm caller h _ false = (false, (seteuid caller h).1)

abbrev pub set_as_owner : Kernel → Bytes → Bytes → Bytes → ℕ → Bool × Host → Bool × Host
set_as_owner k acl user perm caller (false, h) = (false, h)
set_as_owner k acl user perm caller (true, h) =
    let tmp = tmp_path acl k.pid in
    if not (ltb (length tmp) 1024)
    then (false, (seteuid caller h).1)
    else set_opened k acl tmp user perm caller h (fopen_r k acl h) (k.may_write h tmp)

abbrev pub set_found : Kernel → Bytes → Bytes → Bytes → Host → Option File → Bool × Host
set_found k acl user perm h none = (false, h)
set_found k acl user perm h (some f) = set_as_owner k acl user perm h.euid (seteuid f.owner h)

unfoldable pub set_perm_in_acl : Kernel → Bytes → Bytes → Bytes → Host → Bool × Host
unfolding new_text
set_perm_in_acl k [] user perm h = (false, h)
set_perm_in_acl k (c ∷ acl) user perm h =
    if not (valid_perm_string perm)
    then (false, h)
    else set_found k (c ∷ acl) user perm h (h.files (c ∷ acl))
