-- ===== src/Server/Files/Access.antt =====
-- can_read_user_file and acl_allows_read of Assignment2/server_real.c against a description of which
-- files a user may read.
use nss_i_assignments.Base.{
  guard-true, ℕ, ◌<◌, ◌≡◌, refl, sym, ◌⊎◌, inl, inr, ◌↔◌, Bool, true, false, not, ◌||◌, some, List,
  [], ◌∷◌, ◌++◌, ltb, ltb→lt, lt→ltb, Bytes, codes, length, Has, arith, Bool-cases, Option-cases,
  >>=-eq-some, guard, subst,
}
use nss_i_assignments.CString.{str_eq, str_eq_iff, contains, strstr, fgets_lines}
use nss_i_assignments.Common.Io.{trim_newline}
use nss_i_assignments.Server.State.{User, Server, find_user}
use nss_i_assignments.Server.Files.{
  FileSystem, acl_fields, acl_path, grants, line_grants, any_grants, acl_allows_read,
  can_read_user_file,
}

-- A line that lets `requester` read: an entry of that user, or the default for others, with an r.
pub record Grants (requester line : Bytes) : Type 0 where
  pub kind : Bytes
  pub name : Bytes
  pub perm : Bytes
  pub fields : acl_fields (trim_newline line) ≡ some (kind, name, perm)
  pub whose :
      ((kind ≡ codes "user") × (name ≡ requester))
      ⊎ ((kind ≡ codes "default") × (name ≡ codes "other"))
  pub reads : contains b'r' perm ≡ true

grants-split :
    (requester kind name perm : Bytes)
    → grants requester kind name perm ≡ true
    → (((kind ≡ codes "user") × (name ≡ requester))
        ⊎ ((kind ≡ codes "default") × (name ≡ codes "other")))
      × (contains b'r' perm ≡ true)
grants-split requester kind name perm h = ground (
  arith,
  str_eq_iff kind (codes "user"),
  str_eq_iff name requester,
  str_eq_iff kind (codes "default"),
  str_eq_iff name (codes "other"),
)

grants-join :
    (requester kind name perm : Bytes)
    → (((kind ≡ codes "user") × (name ≡ requester))
        ⊎ ((kind ≡ codes "default") × (name ≡ codes "other")))
    → contains b'r' perm ≡ true
    → grants requester kind name perm ≡ true
grants-join requester kind name perm h k = ground (
  arith,
  str_eq_iff kind (codes "user"),
  str_eq_iff name requester,
  str_eq_iff kind (codes "default"),
  str_eq_iff name (codes "other"),
)

line_grants-Grants :
    (requester line : Bytes) → line_grants requester line ≡ true → Grants requester line
unfolding line_grants
line_grants-Grants requester line h = elim (Option-cases (acl_fields (trim_newline line))) [
  | inl e ↦ let bad : false ≡ true = rw e at h in cc
  | inr ((kind, name, perm), e) ↦
      let (whose, reads) = grants-split requester kind name perm (rw e at h) in
      record { kind = kind; name = name; perm = perm; fields = e; whose = whose; reads = reads }
]

Grants-line_grants :
    (requester line : Bytes) → Grants requester line → line_grants requester line ≡ true
unfolding line_grants
Grants-line_grants requester line g =
    rw g.fields (grants-join requester g.kind g.name g.perm g.whose g.reads)

any_grants-Grants :
    (requester : Bytes) (lines : List Bytes)
    → any_grants requester lines ≡ true
    → (line : Bytes) × Has line lines × Grants requester line
unfolding any_grants
any_grants-Grants requester [] h = cc
any_grants-Grants requester (l ∷ ls) h = elim (Bool-cases (line_grants requester l)) [
  | inl e ↦ (l, inl refl, line_grants-Grants requester l e)
  | inr e ↦ let (line, has, g) = any_grants-Grants requester ls (rw e at h) in (line, inr has, g)
]

Grants-any_grants :
    (requester line : Bytes) (lines : List Bytes)
    → Has line lines
    → Grants requester line
    → any_grants requester lines ≡ true
unfolding any_grants
Grants-any_grants requester line [] h g = absurd h
Grants-any_grants requester line (l ∷ ls) (inl e) g =
    let here : line_grants requester l ≡ true = rw e (Grants-line_grants requester line g) in
    rw here
Grants-any_grants requester line (l ∷ ls) (inr h) g =
    ground (arith, Grants-any_grants requester line ls h g)

-- The ACL file beside `path` opens, and some line of it grants.
abbrev pub AclGrants : FileSystem → Bytes → Bytes → Type 0
AclGrants fs path requester =
    (text : Bytes) × (line : Bytes) × (fs.content (acl_path path) ≡ some text)
    × Has line (fgets_lines 512 text)
    × Grants requester line

-- acl_allows_read gives 1 exactly if the ACL file opens and has a line for the requester, or a
-- default line for others, whose permissions hold an r.
acl_allows_read_iff :
    (fs : FileSystem) (path requester : Bytes)
    → (acl_allows_read fs path requester ≡ true) ↔ AclGrants fs path requester
unfolding acl_allows_read
acl_allows_read_iff fs path requester = (forth, back)
  where
    forth : acl_allows_read fs path requester ≡ true → AclGrants fs path requester
    forth h = elim (Option-cases (fs.content (acl_path path))) [
      | inl e ↦ let bad : false ≡ true = rw e at h in cc
      | inr (text, e) ↦
          let (line, has, g) = any_grants-Grants requester (fgets_lines 512 text) (rw e at h) in
          (text, line, e, has, g)
    ]

    back : AclGrants fs path requester → acl_allows_read fs path requester ≡ true
    back (text, line, e, has, g) = rw e (Grants-any_grants requester line _ has g)

-- What can_read_user_file checks of the file that it names.
pub record MayRead (fs : FileSystem) (requester owner filename : Bytes) (path_len : ℕ) (s : Server)
    (path : Bytes) : Type 0 where
  pub index : ℕ
  pub user : User
  pub known : find_user owner s.users ≡ some (index, user)
  pub in_root : path ≡ user.root ++ (codes "/" ++ filename)
  pub no_slash : contains b'/' filename ≡ false
  pub no_parent : strstr (codes "..") filename ≡ false
  pub fits : length path < path_len
  pub readable : fs.readable path ≡ true
  pub entitled : (requester ≡ owner) ⊎ AclGrants fs path requester

name_checks : (a b : Bool) → not (a || b) ≡ true → (a ≡ false) × (b ≡ false)
name_checks a b h = ground arith

entitled-split :
    (fs : FileSystem) (path requester owner : Bytes)
    → (str_eq requester owner || acl_allows_read fs path requester) ≡ true
    → (requester ≡ owner) ⊎ AclGrants fs path requester
entitled-split fs path requester owner h = elim (Bool-cases (str_eq requester owner)) [
  | inl e ↦ inl ((str_eq_iff requester owner).0 e)
  | inr e ↦ inr ((acl_allows_read_iff fs path requester).0 (rw e at h))
]

-- A file that can_read_user_file lets through stands directly in the root of a known owner, under a
-- name with no slash and no "..", and the requester is the owner or the ACL file beside it grants.
pub can_read_user_file-MayRead :
    (fs : FileSystem) (requester owner filename : Bytes) (path_len : ℕ) (s : Server) (path : Bytes)
    → can_read_user_file fs requester owner filename path_len s ≡ some path
    → MayRead fs requester owner filename path_len s path
unfolding can_read_user_file
can_read_user_file-MayRead fs requester owner filename path_len s path h =
    let ((i, u), known, h₁) = >>=-eq-some (find_user owner s.users) _ h in
    let full = u.root ++ (codes "/" ++ filename) in
    let (_, g₁, h₂) =
      >>=-eq-some (guard (not (contains b'/' filename || strstr (codes "..") filename))) _ h₁ in
    let (_, g₂, h₃) = >>=-eq-some (guard (ltb (length full) path_len)) _ h₂ in
    let (_, g₃, h₄) = >>=-eq-some (guard (fs.readable full)) _ h₃ in
    let (_, g₄, h₅) =
      >>=-eq-some (guard (str_eq requester owner || acl_allows_read fs full requester)) _ h₄ in
    let same : full ≡ path = cc in
    let (slash, parent) = name_checks _ _ (guard-true _ g₁) in
    subst (λ (p : Bytes). MayRead fs requester owner filename path_len s p) same
      (record {
        index = i;
        user = u;
        known = known;
        in_root = refl;
        no_slash = slash;
        no_parent = parent;
        fits = ltb→lt _ _ (guard-true _ g₂);
        readable = guard-true _ g₃;
        entitled = entitled-split fs full requester owner (guard-true _ g₄);
      })

-- And every such file is let through.
entitled-join :
    (fs : FileSystem) (path requester owner : Bytes)
    → (requester ≡ owner) ⊎ AclGrants fs path requester
    → (str_eq requester owner || acl_allows_read fs path requester) ≡ true
entitled-join fs path requester owner (inl e) = ground (arith, str_eq_iff requester owner)
entitled-join fs path requester owner (inr g) =
    ground (arith, (acl_allows_read_iff fs path requester).1 g)

MayRead-can_read_user_file :
    (fs : FileSystem) (requester owner filename : Bytes) (path_len : ℕ) (s : Server) (path : Bytes)
    → MayRead fs requester owner filename path_len s path
    → can_read_user_file fs requester owner filename path_len s ≡ some path
unfolding can_read_user_file
MayRead-can_read_user_file fs requester owner filename path_len s path m =
    let there : m.user.root ++ (codes "/" ++ filename) ≡ path = sym m.in_root in
    rw (
      m.known,
      m.no_slash,
      m.no_parent,
      there,
      lt→ltb _ _ m.fits,
      m.readable,
      entitled-join fs path requester owner m.entitled,
    )

-- can_read_user_file lets a file through exactly if it stands directly in the root of a known
-- owner, under a name with no slash and no "..", its path fits in the buffer, the server can read
-- it, and the requester is the owner or the ACL file beside it grants reading.
pub can_read_user_file_iff :
    (fs : FileSystem) (requester owner filename : Bytes) (path_len : ℕ) (s : Server) (path : Bytes)
    → (can_read_user_file fs requester owner filename path_len s ≡ some path)
      ↔ MayRead fs requester owner filename path_len s path
can_read_user_file_iff fs requester owner filename path_len s path = (
  can_read_user_file-MayRead fs requester owner filename path_len s path,
  MayRead-can_read_user_file fs requester owner filename path_len s path,
)
