-- ===== src/Tools/Writing/Ends.antt =====
-- fput of Assignment1/fput.c: how its two ways to write a line end.
use nss_i_assignments.Base.{
  ℕ, ◌≡◌, ◌≢◌, refl, ◌∙◌, ap, inl, inr, Bool, true, false, Option, none, some, [], ◌++◌, Bytes,
  codes, arith, Bool-cases,
}
use nss_i_assignments.Host.{File, Host, Kernel, may_seteuid, seteuid, set_file}
use nss_i_assignments.Host.Ids.{as_caller, seteuid-files}
use nss_i_assignments.Host.Files.{set_file_self, set_file_ne}
use nss_i_assignments.Acl.Line.{get_acl_filename}
use nss_i_assignments.Acl.Checking.{get_usr_name}
use nss_i_assignments.Acl.Checking.Decides.{Allows}
use nss_i_assignments.Acl.Creating.{create_acl_from_stat}
use nss_i_assignments.Acl.Creating.Others.{create_acl_from_stat-others}
use nss_i_assignments.Tools.Reading.{asked, asked_of}
use nss_i_assignments.Tools.Writing.{
  Calls, write_line, add_text, append_end, append_open, append_checked, create_open, created,
  fill_end, create_as, stat, put_over, over_text,
}
use nss_i_assignments.Tools.Writing.Outcomes.{Lines, write_line-Lines, MayCreate, FputEnds, text_of}

module _ (k : Kernel) (calls : Calls) (sudo : Bool) (program path text : Bytes) (h : Host) where
  abbrev EndsWith : ℕ × Host → Type 0
  EndsWith = FputEnds k calls sudo program path text h

  pub kept : (s : Host) → s.files ≡ h.files → EndsWith (1, s)
  kept s e = record {
    others = λ other _ _. ap (λ (fs : Bytes → Option File). fs other) e;
    outcome = inl (refl, e);
  }

  abbrev AllowedAppend : Type 0
  AllowedAppend =
      Allows k (asked_of sudo program path) (get_usr_name k h.ruid) (asked sudo b'w') false
        (as_caller h)

  module _ (f : File) (exists : h.files path ≡ some f) (a : AllowedAppend) where
    abbrev owned : Host
    owned = record h { euid = f.owner }

    abbrev grown : Bytes → Option File → Host
    grown w o = add_text path w o owned

    appended :
        (status : ℕ) (s : Host) (w left : Bytes)
        → s.files ≡ (grown w (some f)).files
        → w ++ left ≡ text ++ codes "\n"
        → (status ≡ 0 → left ≡ [])
        → EndsWith (status, s)
    appended status s w left same parts whole = record {
      others = λ other ne _.
          ap (λ (fs : Bytes → Option File). fs other) same
          ∙ set_file_ne path other (some (record f { text = f.text ++ w })) owned ne;
      outcome = inr (
          inl (record {
            file = f;
            exists = exists;
            allowed = a;
            added = w;
            left = left;
            parts = parts;
            stands =
                ap (λ (fs : Bytes → Option File). fs path) same
                ∙ set_file_self path (some (record f { text = f.text ++ w })) owned;
            whole = whole;
          }));
    }

    append_end-Ends : (w : Bool × Bytes) → Lines text w → EndsWith (append_end path owned w)
    append_end-Ends (false, w) (left, e, t) =
        rw exists
          (appended 1 (grown w (some f)) w left refl e (λ (z : 1 ≡ 0). absurd (omega arith)))
    append_end-Ends (true, w) (left, e, t) = rw exists (
        appended 0 (seteuid h.ruid (grown w (some f))).1 w left
          (seteuid-files h.ruid (grown w (some f))) e (λ _. t refl))

    append_open-Ends : EndsWith (append_open calls path text (seteuid f.owner (as_caller h)))
    append_open-Ends = elim (Bool-cases (may_seteuid f.owner (as_caller h))) [
      | inr m ↦ rw m (kept (as_caller h) refl)
      | inl m ↦ elim (Bool-cases (calls.opens owned path)) [
        | inr o ↦ rw (m, o) (kept owned refl)
        | inl o ↦ rw (m, o) (append_end-Ends (write_line calls text) (write_line-Lines calls text))
      ]
    ]

  module _ (unseen : stat calls path (as_caller h) ≡ none)
      (may : MayCreate k calls sudo program path h) (apart : path ≢ get_acl_filename path) where
    -- `s` has the file, with what was there, and the files of `h` beside it and its ACL.
    record HasFile (s : Host) : Type 0 where
      file : File
      stands : s.files path ≡ some file
      old : file.text ≡ text_of (h.files path)
      others :
          (other : Bytes)
          → other ≢ path
          → other ≢ get_acl_filename path
          → s.files other ≡ h.files other

    created-text : (s : Host) (o : Option File) → (created k s o).text ≡ text_of o
    created-text s none = refl
    created-text s (some f) = refl

    has_file :
        (s : Host)
        → s.files ≡ h.files
        → HasFile
            (create_acl_from_stat k path (set_file path (some (created k s (s.files path))) s)).1
    has_file s same =
        let f : File = created k s (s.files path) in
        record {
          file = f;
          stands =
              create_acl_from_stat-others k path (set_file path (some f) s) path apart
              ∙ set_file_self path (some f) s;
          old =
              created-text s (s.files path)
              ∙ ap (λ (fs : Bytes → Option File). text_of (fs path)) same;
          others = λ other ne ne'.
              create_acl_from_stat-others k path (set_file path (some f) s) other ne'
              ∙ set_file_ne path other (some f) s ne
              ∙ ap (λ (fs : Bytes → Option File). fs other) same;
        }

    filled :
        (status : ℕ) (s : Host) (n : HasFile s) (w left : Bytes)
        → w ++ left ≡ text ++ codes "\n"
        → (status ≡ 0 → left ≡ [])
        → EndsWith (status, over_text path w (s.files path) s)
    filled status s n w left parts whole = rw n.stands (record {
      others = λ other ne ne'.
          set_file_ne path other (some (record n.file { text = put_over w n.file.text })) s ne
          ∙ n.others other ne ne';
      outcome = inr (
          inr (record {
            unseen = unseen;
            allowed = may;
            file = record n.file { text = put_over w n.file.text };
            stands = set_file_self path (some (record n.file { text = put_over w n.file.text })) s;
            added = w;
            left = left;
            holds = ap (put_over w) n.old;
            parts = parts;
            whole = whole;
          }));
    })

    fill_end-Ends :
        (s : Host) → HasFile s → (w : Bool × Bytes) → Lines text w → EndsWith (fill_end path s w)
    fill_end-Ends s n (false, w) (left, e, t) =
        filled 1 s n w left e (λ (z : 1 ≡ 0). absurd (omega arith))
    fill_end-Ends s n (true, w) (left, e, t) = filled 0 s n w left e (λ _. t refl)

    pub create_open-Ends :
        (s : Host) → s.files ≡ h.files → EndsWith (create_open k calls path text s)
    create_open-Ends s same = elim (Bool-cases (calls.opens s path)) [
      | inr o ↦ rw o (kept s same)
      | inl o ↦
          rw o (
            fill_end-Ends _ (has_file s same) (write_line calls text) (write_line-Lines calls text))
    ]

    pub create_as-Ends :
        (dir : File) → EndsWith (create_as k calls path text (seteuid dir.owner (as_caller h)))
    create_as-Ends dir = elim (Bool-cases (may_seteuid dir.owner (as_caller h))) [
      | inr m ↦ rw m (kept (as_caller h) refl)
      | inl m ↦ rw m (create_open-Ends (record h { euid = dir.owner }) refl)
    ]

  pub append_checked-Ends :
      (f : File)
      → h.files path ≡ some f
      → (b : Bool) → (b ≡ true → AllowedAppend)
      → EndsWith (append_checked calls path text (get_usr_name k h.ruid) f (b, as_caller h))
  append_checked-Ends f e false a = kept _ refl
  append_checked-Ends f e true a = append_open-Ends f e (a refl)
