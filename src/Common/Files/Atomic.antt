-- ===== src/Common/Files/Atomic.antt =====
-- The outcomes of save_file_atomic of Assignment2/a2_common.c.
use nss_i_assignments.Base.{
  ℕ, ◌<◌, ◌≡◌, ◌≢◌, refl, sym, ◌∙◌, ap, ◌⊎◌, inl, inr, Bool, true, false, ◌&&◌, Option, none, some,
  [], ◌++◌, ltb, lt→ltb, Bytes, codes, length, length-append, All, arith, Bool-cases,
}
use nss_i_assignments.CString.{str_eq, str_eq_iff, str_eq_self, print_dec}
use nss_i_assignments.Common.Io.{write_all}
use nss_i_assignments.Common.Io.Writing.{Writes, Progresses, write_all-Writes}
use nss_i_assignments.Common.Files.{Disk, put, Calls, tmp_path, write_tmp, save_file_atomic}

-- The outcomes of a save: all bytes stand under the path and the temporary file is gone, or the
-- path holds what it held. No third file changes.
pub record Saves (calls : Calls) (path bytes : Bytes) (disk : Disk) (r : Bool × Disk) : Type 0 where
  pub others :
      (other : Bytes) → other ≢ path → other ≢ tmp_path path calls.pid → r.1 other ≡ disk other
  pub whole_or_nothing :
      ((r.0 ≡ true) × (r.1 path ≡ some bytes) × (r.1 (tmp_path path calls.pid) ≡ none))
      ⊎ ((r.0 ≡ false) × (r.1 path ≡ disk path))

put_self : (disk : Disk) (path : Bytes) (v : Option Bytes) → put disk path v path ≡ v
put_self disk path v = rw (str_eq_self path)

differs : (a b : Bytes) → a ≢ b → str_eq a b ≡ false
differs a b h = elim (Bool-cases (str_eq a b)) [
  | inl e ↦ absurd (h ((str_eq_iff a b).0 e))
  | inr e ↦ e
]

put_ne :
    (disk : Disk) (path other : Bytes) (v : Option Bytes)
    → other ≢ path
    → put disk path v other ≡ disk other
put_ne disk path other v h = rw (differs path other (λ e. h (sym e)))

pub tmp_path-ne : (path : Bytes) (pid : ℕ) → path ≢ tmp_path path pid
tmp_path-ne path pid e = omega (
  arith,
  ap length e,
  length-append path (codes ".tmp." ++ print_dec pid),
  length-append (codes ".tmp.") (print_dec pid),
)

unchanged_Saves :
    (calls : Calls) (path bytes : Bytes) (disk : Disk) → Saves calls path bytes disk (false, disk)
unchanged_Saves calls path bytes disk = record {
  others = λ other h k. refl;
  whole_or_nothing = inr (refl, refl);
}

removed_Saves :
    (calls : Calls) (path bytes : Bytes) (disk : Disk) (v : Option Bytes)
    → Saves calls path bytes disk
        (false, put (put disk (tmp_path path calls.pid) v) (tmp_path path calls.pid) none)
removed_Saves calls path bytes disk v = record {
  others = λ other h k. put_ne written tmp other none k ∙ put_ne disk tmp other v k;
  whole_or_nothing = inr (refl, put_ne written tmp path none apart ∙ put_ne disk tmp path v apart);
}
  where
    tmp : Bytes
    tmp = tmp_path path calls.pid

    written : Disk
    written = put disk tmp v

    apart : path ≢ tmp
    apart = tmp_path-ne path calls.pid

renamed_Saves :
    (calls : Calls) (path bytes : Bytes) (disk : Disk)
    → Saves calls path bytes disk (
      true,
      put
          (put
            (put disk (tmp_path path calls.pid) (some bytes))
            path
            (put disk (tmp_path path calls.pid) (some bytes) (tmp_path path calls.pid)))
          (tmp_path path calls.pid)
          none,
    )
renamed_Saves calls path bytes disk = record {
  others = λ other h k.
      put_ne renamed tmp other none k
      ∙ put_ne written path other (written tmp) h
      ∙ put_ne disk tmp other (some bytes) k;
  whole_or_nothing = inl (
    refl,
    put_ne renamed tmp path none (tmp_path-ne path calls.pid)
        ∙ put_self written path (written tmp)
        ∙ put_self disk tmp (some bytes),
    put_self renamed tmp none,
  );
}
  where
    tmp : Bytes
    tmp = tmp_path path calls.pid

    written : Disk
    written = put disk tmp (some bytes)

    renamed : Disk
    renamed = put written path (written tmp)

-- The system calls of the save all succeed, and the name of the temporary file fits.
pub record Succeed (calls : Calls) (path : Bytes) : Type 0 where
  pub fits : length (tmp_path path calls.pid) < 1024
  pub opens : calls.opens ≡ true
  pub writes : All Progresses calls.writes
  pub closes : calls.closes ≡ true
  pub renames : calls.renames ≡ true

write_tmp-Saves :
    (calls : Calls) (path bytes : Bytes) (disk : Disk) (w : Bool × Bytes)
    → Writes [] bytes w
    → Saves calls path bytes disk (write_tmp calls path (tmp_path path calls.pid) disk w)
write_tmp-Saves calls path bytes disk (true, written) (inl (_, e)) =
    elim (Bool-cases (calls.closes && calls.renames)) [
      | inl ok ↦ rw (e, ok) (renamed_Saves calls path bytes disk)
      | inr bad ↦ rw bad (removed_Saves calls path bytes disk (some written))
    ]
write_tmp-Saves calls path bytes disk (true, written) (inr (e, _)) = cc
write_tmp-Saves calls path bytes disk (false, written) w =
    removed_Saves calls path bytes disk (some written)

-- save_file_atomic replaces the file by all of the bytes and leaves no temporary file, or fails and
-- leaves the file as it was; no third file changes; and it does not fail if the name of the
-- temporary file fits in its buffer and no system call fails.
pub save_file_atomic-Saves :
    (calls : Calls) (path bytes : Bytes) (disk : Disk)
    → Saves calls path bytes disk (save_file_atomic calls path bytes disk)
      × (Succeed calls path → (save_file_atomic calls path bytes disk).0 ≡ true)
unfolding save_file_atomic
save_file_atomic-Saves calls path bytes disk = (saves, succeeds)
  where
    saves : Saves calls path bytes disk (save_file_atomic calls path bytes disk)
    saves = elim (Bool-cases (ltb (length (tmp_path path calls.pid)) 1024)) [
      | inr long ↦ rw long (unchanged_Saves calls path bytes disk)
      | inl short ↦ elim (Bool-cases calls.opens) [
        | inr shut ↦ rw short (simp shut (unchanged_Saves calls path bytes disk))
        | inl opened ↦ rw short (
            simp opened (
              write_tmp-Saves calls path bytes disk (write_all bytes calls.writes)
                (write_all-Writes bytes calls.writes).0))
      ]
    ]

    finishes :
        (w : Bool × Bytes)
        → w.0 ≡ true
        → calls.closes ≡ true
        → calls.renames ≡ true
        → (write_tmp calls path (tmp_path path calls.pid) disk w).0 ≡ true
    finishes (true, written) e c r = rw (c, r) refl
    finishes (false, written) e c r = cc

    succeeds : Succeed calls path → (save_file_atomic calls path bytes disk).0 ≡ true
    succeeds h =
        simp (lt→ltb _ _ h.fits, h.opens)
          (finishes (write_all bytes calls.writes)
            ((write_all-Writes bytes calls.writes).1 h.writes) h.closes h.renames)
