-- ===== src/Host/Files.antt =====
-- The files of a host after a file is set, stored, removed or renamed.
use nss_i_assignments.Base.{◌≡◌, ◌≢◌, sym, ◌∙◌, inl, inr, false, Option, none, Bytes, Bool-cases}
use nss_i_assignments.CString.{str_eq, str_eq_iff, str_eq_self}
use nss_i_assignments.Host.{File, Host, set_file, rename}

pub set_file_self : (path : Bytes) (f : Option File) (h : Host) → (set_file path f h).files path ≡ f
set_file_self path f h = rw (str_eq_self path)

apart : (a b : Bytes) → b ≢ a → str_eq a b ≡ false
apart a b h = elim (Bool-cases (str_eq a b)) [
  | inl e ↦ absurd (h (sym ((str_eq_iff a b).0 e)))
  | inr e ↦ e
]

pub set_file_ne :
    (path other : Bytes) (f : Option File) (h : Host)
    → other ≢ path
    → (set_file path f h).files other ≡ h.files other
set_file_ne path other f h ne = rw (apart path other ne)

-- A renamed file stands under its new name, and no third file changes.
pub rename_new :
    (old new : Bytes) (h : Host) → new ≢ old → (rename old new h).files new ≡ h.files old
rename_new old new h ne =
    set_file_ne old new none (set_file new (h.files old) h) ne ∙ set_file_self new (h.files old) h

pub rename_other :
    (old new other : Bytes) (h : Host)
    → other ≢ old
    → other ≢ new
    → (rename old new h).files other ≡ h.files other
rename_other old new other h ne ne' =
    set_file_ne old other none (set_file new (h.files old) h) ne
    ∙ set_file_ne new other (h.files old) h ne'
