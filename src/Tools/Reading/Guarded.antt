-- ===== src/Tools/Reading/Guarded.antt =====
-- fget of Assignment1/fget.c: that it ends, and what it puts out.
use nss_i_assignments.Base.{
  ℕ, suc, ◌≡◌, refl, ◌∙◌, subst, ◌⊎◌, inl, inr, Bool, true, false, Option, none, some, List, [],
  ◌∷◌, ◌++◌, append-nil, Bytes, codes, length, arith, Bool-cases,
}
use nss_i_assignments.Host.{File, Host, Kernel, may_seteuid, seteuid, fopen_r, print}
use nss_i_assignments.Host.Ids.{as_caller, caller_allowed, seteuid_allowed}
use nss_i_assignments.Acl.Checking.{get_usr_name}
use nss_i_assignments.Acl.Checking.Decides.{Allows}
use nss_i_assignments.Acl.Checking.Caller.{checked}
use nss_i_assignments.Tools.Reading.Copying.{Copies, copy_loop-Copies}
use nss_i_assignments.Tools.Reading.{
  Calls, denied, missing, fget_usage, asked, asked_of, fget_end, fget_copy, fget_checked,
  fget_found, fget_args, fget_main,
}

-- fget has put out the file, or a part from its start; the caller may read it.
pub record PrintsFile (k : Kernel) (sudo : Bool) (h : Host) (program path : Bytes) (r : ℕ × Host)
    : Type 0 where
  pub file : File
  pub exists : h.files path ≡ some file
  pub allowed :
      Allows k
        (asked_of sudo program path)
        (get_usr_name k h.ruid)
        (asked sudo b'r')
        false
        (as_caller h)
  pub sent : Bytes
  pub unsent : Bytes
  pub parts : sent ++ unsent ≡ file.text
  pub printed : r.1.out ≡ h.out ++ sent ∷ []
  pub whole : r.0 ≡ 0 → unsent ≡ []

-- A message that says nothing of the content of a file.
abbrev IsMessage : Bytes → Type 0
IsMessage text =
    (text ≡ fget_usage)
    ⊎ (((path : Bytes) × (text ≡ missing (codes "fget") path))
        ⊎ ((path : Bytes) × (user : Option Bytes) × (text
              ≡ denied (codes "fget") user (codes "read from ") path)))

-- fget has failed, with a message on the output or none.
abbrev Refuses : Host → ℕ × Host → Type 0
Refuses h r =
    (r.0 ≡ 1)
    × ((r.1.out ≡ h.out) ⊎ ((text : Bytes) × (r.1.out ≡ h.out ++ text ∷ []) × IsMessage text))

-- How fget ends: no file changes, and it prints the file that its two arguments name, or refuses.
pub record FgetEnds (k : Kernel) (sudo : Bool) (args : List Bytes) (h : Host) (r : ℕ × Host)
    : Type 0 where
  pub files_kept : r.1.files ≡ h.files
  pub outcome :
      ((program : Bytes) × (path : Bytes) × (args ≡ program ∷ path ∷ [])
        × PrintsFile k sudo h program path r)
      ⊎ Refuses h r

module _ (k : Kernel) (calls : Calls) (sudo : Bool) (h : Host) where
  abbrev Answered : List Bytes → Option (ℕ × Host) → Type 0
  Answered args o = (r : ℕ × Host) × (o ≡ some r) × FgetEnds k sudo args h r

  silent : (args : List Bytes) (e : ℕ) → Answered args (some (1, record h { euid = e }))
  silent args e = (_, refl, record { files_kept = refl; outcome = inr (refl, inl refl) })

  tells :
      (args : List Bytes) (text : Bytes)
      → IsMessage text
      → Answered args (some (1, print text (as_caller h)))
  tells args text m =
      (_, refl, record { files_kept = refl; outcome = inr (refl, inr (text, refl, m)) })

  module _ (program path : Bytes) (f : File) (exists : h.files path ≡ some f) where
    abbrev argv : List Bytes
    argv = program ∷ path ∷ []

    abbrev Allowed : Type 0
    Allowed =
        Allows k (asked_of sudo program path) (get_usr_name k h.ruid) (asked sudo b'r') false
          (as_caller h)

    owned : Host
    owned = record h { euid = f.owner }

    copied :
        (r : Bool × Bytes) → Copies [] f.text r → Allowed → Answered argv (fget_end owned (some r))
    unfolding owned
    copied (false, out) (unsent, c) a = (
      _,
      refl,
      record {
        files_kept = refl;
        outcome = inl (
          program,
          path,
          refl,
          record {
            file = f;
            exists = exists;
            allowed = a;
            sent = out;
            unsent = unsent;
            parts = c;
            printed = refl;
            whole = λ (e : 1 ≡ 0). absurd (omega arith);
          },
        );
      },
    )
    copied (true, out) c a = elim (Bool-cases (may_seteuid h.ruid (print out owned))) [
      | inl m ↦ ended (seteuid h.ruid (print out owned)).1 (rw m refl) (rw m refl)
      | inr m ↦ ended (seteuid h.ruid (print out owned)).1 (rw m refl) (rw m refl)
    ]
      where
        ended :
            (s : Host) → s.files ≡ h.files → s.out ≡ h.out ++ out ∷ [] → Answered argv (some (0, s))
        ended s kept printed = (
          (0, s),
          refl,
          record {
            files_kept = kept;
            outcome = inl (
              program,
              path,
              refl,
              record {
                file = f;
                exists = exists;
                allowed = a;
                sent = out;
                unsent = [];
                parts = append-nil out ∙ c;
                printed = printed;
                whole = λ _. refl;
              },
            );
          },
        )

    read-own : (text : Bytes) → fopen_r k path owned ≡ some text → text ≡ f.text
    unfolding owned
    read-own text e = elim (Bool-cases (k.may_read owned path)) [
      | inl m ↦ let got : some f.text ≡ some text = rw (exists, m) at e in cc
      | inr m ↦ let got : none ≡ some text = rw (exists, m) at e in cc
    ]

    opened :
        (o : Option Bytes)
        → ((text : Bytes) → o ≡ some text → text ≡ f.text)
        → Allowed
        → Answered argv (fget_copy calls owned o)
    unfolding owned
    opened none own a = silent argv f.owner
    opened (some text) own a =
        let (r, ran, c) = copy_loop-Copies calls (suc (length text)) 0 text [] (omega arith) in
        rw ran (copied r (subst (λ (t : Bytes). Copies [] t r) (own text refl) c) a)

    denied_or_read :
        (b : Bool)
        → (b ≡ true → Allowed)
        → Answered argv (fget_checked k calls path (get_usr_name k h.ruid) f (b, as_caller h))
    unfolding owned
    denied_or_read false a = tells argv _ (inr (inr (path, get_usr_name k h.ruid, refl)))
    denied_or_read true a = elim (Bool-cases (may_seteuid f.owner (as_caller h))) [
      | inr m ↦ rw m (silent argv h.ruid)
      | inl m ↦ rw m (opened (fopen_r k path owned) read-own (a refl))
    ]

  found :
      (program path : Bytes) (o : Option File)
      → h.files path ≡ o
      → Answered (program ∷ path ∷ []) (fget_found k calls sudo program path (as_caller h) o)
  found program path none e = tells _ _ (inr (inl (path, refl)))
  found program path (some f) e =
      checked k (asked_of sudo program path) (asked sudo b'r') false h
        (Answered (program ∷ path ∷ [])) (fget_checked k calls path (get_usr_name k h.ruid) f)
        (denied_or_read program path f e)

  answered : (args : List Bytes) → Answered args (fget_args k calls sudo args (true, as_caller h))
  answered (program ∷ path ∷ []) = found program path (h.files path) refl
  answered [] = tells [] fget_usage (inl refl)
  answered (program ∷ []) = tells _ fget_usage (inl refl)
  answered (program ∷ path ∷ more ∷ args) = tells _ fget_usage (inl refl)

-- fget always ends, and changes no file. What it puts out is the file, whole where the status is 0,
-- and that only if the ACL lets the user read it, or run the command under sudo; otherwise it fails
-- with one of its messages or none.
pub fget_main-FgetEnds :
    (k : Kernel) (calls : Calls) (sudo : Bool) (args : List Bytes) (h : Host)
    → (r : ℕ × Host) × (fget_main k calls sudo args h ≡ some r) × FgetEnds k sudo args h r
unfolding fget_main
fget_main-FgetEnds k calls sudo args h =
    rw (seteuid_allowed h.ruid h (caller_allowed h)) (answered k calls sudo h args)
