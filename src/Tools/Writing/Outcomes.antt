-- ===== src/Tools/Writing/Outcomes.antt =====
-- How fput of Assignment1/fput.c may end.
use nss_i_assignments.Base.{
  ℕ, ◌≡◌, ◌≢◌, refl, sym, ◌∙◌, ap, subst, ◌⊎◌, inl, inr, Bool, true, false, none, some, [], ◌++◌,
  append-nil, append_assoc, Bytes, codes, length, drop, Option,
}
use nss_i_assignments.CString.{dirname}
use nss_i_assignments.Common.Io.{write_all}
use nss_i_assignments.Common.Io.Writing.{Writes, write_all-Writes}
use nss_i_assignments.Host.{File, Host, Kernel}
use nss_i_assignments.Host.Ids.{as_caller}
use nss_i_assignments.Acl.Line.{get_acl_filename}
use nss_i_assignments.Acl.Checking.{get_usr_name}
use nss_i_assignments.Acl.Checking.Decides.{Allows}
use nss_i_assignments.Tools.Reading.{asked, asked_of}
use nss_i_assignments.Tools.Writing.{Calls, stat, write_line, then_newline}

-- The bytes are the line, or with a failure a part from its start.
abbrev pub Lines : Bytes → Bool × Bytes → Type 0
Lines text (ok, w) = (rest : Bytes) × (w ++ rest ≡ text ++ codes "\n") × (ok ≡ true → rest ≡ [])

newline-Lines :
    (text : Bytes) (n : Bool × Bytes) → Writes [] (codes "\n") n → Lines text (n.0, text ++ n.1)
newline-Lines text (b, n) (inl (t, e)) = ([], rw e (append-nil (text ++ codes "\n")), λ _. refl)
newline-Lines text (b, n) (inr (f, (rest, e, _))) =
    (rest, append_assoc text n rest ∙ ap (◌++◌ text) e, λ t. cc)

pub write_line-Lines : (calls : Calls) (text : Bytes) → Lines text (write_line calls text)
unfolding write_line
write_line-Lines calls text = go (write_all text calls.text) (write_all-Writes text calls.text).0
  where
    go : (w : Bool × Bytes) → Writes [] text w → Lines text (then_newline calls w)
    go (false, w) (inl (t, e)) = cc
    go (false, w) (inr (f, (rest, e, ne))) = (
      rest ++ codes "\n",
      sym (append_assoc w rest (codes "\n")) ∙ ap (λ (x : Bytes). x ++ codes "\n") e,
      λ t. cc,
    )
    go (true, w) (inl (t, e)) =
        subst (λ (x : Bytes). Lines text (then_newline calls (true, x))) (sym e)
          (newline-Lines text (write_all (codes "\n") calls.newline)
            (write_all-Writes (codes "\n") calls.newline).0)
    go (true, w) (inr (f, _)) = cc

-- What fput was allowed by, when stat does not find the file.
abbrev pub MayCreate : Kernel → Calls → Bool → Bytes → Bytes → Host → Type 0
MayCreate k calls true program path h =
    Allows k (get_acl_filename program) (get_usr_name k h.ruid) b'x' false (as_caller h)
MayCreate k calls false program path h =
    (stat calls (dirname path) (as_caller h) ≡ none)
    ⊎ Allows k (get_acl_filename (dirname path)) (get_usr_name k h.ruid) b'w' true (as_caller h)

-- The file holds what it held, then the line, or a part from its start with a failure.
pub record Appends (k : Kernel) (sudo : Bool) (program path text : Bytes) (h : Host) (r : ℕ × Host)
    : Type 0 where
  pub file : File
  pub exists : h.files path ≡ some file
  pub allowed :
      Allows k
        (asked_of sudo program path)
        (get_usr_name k h.ruid)
        (asked sudo b'w')
        false
        (as_caller h)
  pub added : Bytes
  pub left : Bytes
  pub parts : added ++ left ≡ text ++ codes "\n"
  pub stands : r.1.files path ≡ some (record file { text = file.text ++ added })
  pub whole : r.0 ≡ 0 → left ≡ []

-- What a file that may be missing holds.
abbrev pub text_of : Option File → Bytes
text_of none = []
text_of (some f) = f.text

-- stat does not find the file. It is new and holds the line, or a part from its start with a failure;
-- or it is there nevertheless, and these bytes stand over the start of what it held.
pub record Creates (k : Kernel) (calls : Calls) (sudo : Bool) (program path text : Bytes) (h : Host)
    (r : ℕ × Host) : Type 0 where
  pub unseen : stat calls path (as_caller h) ≡ none
  pub allowed : MayCreate k calls sudo program path h
  pub file : File
  pub stands : r.1.files path ≡ some file
  pub added : Bytes
  pub left : Bytes
  pub holds : file.text ≡ added ++ drop (length added) (text_of (h.files path))
  pub parts : added ++ left ≡ text ++ codes "\n"
  pub whole : r.0 ≡ 0 → left ≡ []

pub record FputEnds (k : Kernel) (calls : Calls) (sudo : Bool) (program path text : Bytes)
    (h : Host) (r : ℕ × Host) : Type 0 where
  pub others :
      (other : Bytes)
      → other ≢ path
      → other ≢ get_acl_filename path
      → r.1.files other ≡ h.files other
  pub outcome :
      ((r.0 ≡ 1) × (r.1.files ≡ h.files))
      ⊎ (Appends k sudo program path text h r ⊎ Creates k calls sudo program path text h r)
