-- ===== src/Tools/Reading/Prints.antt =====
-- fget of Assignment1/fget.c, when nothing stands in its way.
use Prim.Native.Nat.{min}
use nss_i_assignments.Base.{
  ℕ, zero, suc, ◌+◌, ◌<◌, ◌≡◌, ◌≢◌, sym, ◌∙◌, ap, inl, inr, Bool, true, false, none, some, [], ◌∷◌,
  ◌++◌, append-nil, append_assoc, Bytes, length, take, drop, take-append-drop, length-drop, All,
  arith, Option-cases,
}
use nss_i_assignments.Common.Io.{write_all}
use nss_i_assignments.Common.Io.Writing.{Progresses, write_all-Writes}
use nss_i_assignments.Host.{File, Host, Kernel, may_seteuid, fopen_r, print}
use nss_i_assignments.Host.Ids.{as_caller, caller_allowed, seteuid_allowed}
use nss_i_assignments.Acl.Checking.{get_usr_name}
use nss_i_assignments.Acl.Checking.Caller.{check-Allows}
use nss_i_assignments.Acl.Checking.Decides.{Allows}
use nss_i_assignments.Tools.Reading.{
  Calls, copy_loop, asked, asked_of, fget_end, fget_copy, fget_open, fget_checked, fget_found,
  fget_args, fget_main,
}
use nss_i_assignments.Tools.Reading.Copying.{whole_written}

-- No read fails, and each write takes something.
pub record Flows (calls : Calls) : Type 0 where
  pub reads : (i : ℕ) → calls.reads i ≢ none
  pub writes : (i : ℕ) → All Progresses (calls.writes i)

copy_loop-whole :
    (calls : Calls) (f i : ℕ) (text out : Bytes)
    → Flows calls
    → length text < f
    → copy_loop calls f i text out ≡ some (true, out ++ text)
unfolding copy_loop
copy_loop-whole calls zero i text out flows h = absurd (omega arith)
copy_loop-whole calls (suc f) i [] out flows h = elim (Option-cases (calls.reads i)) [
  | inl e ↦ absurd (flows.reads i e)
  | inr (n, e) ↦ rw (e, copy_loop) (ap (λ (x : Bytes). some (true, x)) (sym (append-nil out)))
]
copy_loop-whole calls (suc f) i (b ∷ bs) out flows h = elim (Option-cases (calls.reads i)) [
  | inl e ↦ absurd (flows.reads i e)
  | inr (n, e) ↦
      let part : Bytes = b ∷ take (min n 1023) bs in
      let rest : Bytes = drop (min n 1023) bs in
      let whole : part ++ rest ≡ b ∷ bs = ap (◌∷◌ b) (take-append-drop (min n 1023) bs) in
      let sent : Bool × Bytes = write_all part (calls.writes i) in
      let wrote = write_all-Writes part (calls.writes i) in
      let good : sent.0 ≡ true = wrote.1 (flows.writes i) in
      rw (e, copy_loop, good)
        (ap (λ (x : Bytes). copy_loop calls f (i + 1) rest (out ++ x))
            (whole_written part sent wrote.0 good)
          ∙ copy_loop-whole calls f (i + 1) rest (out ++ part) flows
              (omega (arith, length-drop (min n 1023) bs))
          ∙ ap (λ (x : Bytes). some (true, x)) (append_assoc out part rest ∙ ap (◌++◌ out) whole))
]

-- The file is there, the ACL lets the user read it, and the calls on it succeed.
pub record CanRead (k : Kernel) (calls : Calls) (sudo : Bool) (program path : Bytes) (h : Host)
    (f : File) : Type 0 where
  pub exists : h.files path ≡ some f
  pub allowed :
      Allows k
        (asked_of sudo program path)
        (get_usr_name k h.ruid)
        (asked sudo b'r')
        false
        (as_caller h)
  pub owner : may_seteuid f.owner (as_caller h) ≡ true
  pub opens : k.may_read (record h { euid = f.owner }) path ≡ true
  pub flows : Flows calls

module _ (k : Kernel) (calls : Calls) (sudo : Bool) (program path : Bytes) (h : Host) (f : File)
    (c : CanRead k calls sudo program path h f) where
  abbrev owned : Host
  owned = record h { euid = f.owner }

  abbrev printed : Host
  printed = record (print f.text h) { euid = h.ruid }

  abbrev acl : Bytes
  acl = asked_of sudo program path

  end-printed : fget_end owned (some (true, f.text)) ≡ some (0, printed)
  end-printed =
      ap (λ (r : Bool × Host). some (0, r.1))
        (seteuid_allowed h.ruid (print f.text owned) (caller_allowed (print f.text owned)))

  opened : fopen_r k path owned ≡ some f.text
  opened = rw (c.opens, c.exists)

  checked-printed :
      fget_checked k calls path (get_usr_name k h.ruid) f (true, as_caller h) ≡ some (0, printed)
  checked-printed =
      ap (fget_open k calls path) (seteuid_allowed f.owner (as_caller h) c.owner)
      ∙ ap (fget_copy calls owned) opened
      ∙ ap (fget_end owned)
          (copy_loop-whole calls (suc (length f.text)) 0 f.text [] c.flows (omega arith))
      ∙ end-printed

-- fget puts the whole file out and exits with 0, with the real id as the effective one and no other
-- change, where the file is there, the ACL lets the user read it, or run the command under sudo, and
-- the calls on the file and the output do not fail.
pub fget_main-prints :
    (k : Kernel) (calls : Calls) (sudo : Bool) (program path : Bytes) (h : Host) (f : File)
    → CanRead k calls sudo program path h f
    → fget_main k calls sudo (program ∷ path ∷ []) h
      ≡ some (0, record (print f.text h) { euid = h.ruid })
unfolding fget_main
fget_main-prints k calls sudo program path h f c =
    ap (fget_args k calls sudo (program ∷ path ∷ [])) (seteuid_allowed h.ruid h (caller_allowed h))
    ∙ ap (fget_found k calls sudo program path (as_caller h)) c.exists
    ∙ ap (fget_checked k calls path (get_usr_name k h.ruid) f)
        (check-Allows k (asked_of sudo program path) (asked sudo b'r') false h c.allowed)
    ∙ checked-printed k calls sudo program path h f c
