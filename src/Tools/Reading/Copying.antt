-- ===== src/Tools/Reading/Copying.antt =====
-- The loop of fget of Assignment1/fget.c, which ends.
use Prim.Native.Nat.{min}
use nss_i_assignments.Base.{
  ℕ, zero, suc, ◌+◌, ◌<◌, ◌≡◌, refl, sym, ◌∙◌, ap, inl, inr, Bool, true, false, some, [], ◌∷◌, ◌++◌,
  append-nil, append_assoc, Bytes, length, take, drop, take-append-drop, length-drop, arith,
  Bool-cases, Option-cases,
}
use nss_i_assignments.Common.Io.{write_all}
use nss_i_assignments.Common.Io.Writing.{Writes, write_all-Writes}
use nss_i_assignments.Tools.Reading.{Calls, copy_loop}

-- All of `text` is put out behind `out`, or, with a failure, a part from its start.
abbrev pub Copies : Bytes → Bytes → Bool × Bytes → Type 0
Copies out text (true, sent) = sent ≡ out ++ text
Copies out text (false, sent) = (unsent : Bytes) × (sent ++ unsent ≡ out ++ text)

shift_Copies :
    (out part rest text : Bytes) (r : Bool × Bytes)
    → part ++ rest ≡ text
    → Copies (out ++ part) rest r
    → Copies out text r
shift_Copies out part rest text (true, sent) e c = c ∙ append_assoc out part rest ∙ ap (◌++◌ out) e
shift_Copies out part rest text (false, sent) e (unsent, c) =
    (unsent, c ∙ append_assoc out part rest ∙ ap (◌++◌ out) e)

part_Copies :
    (out part rest text : Bytes) (w : Bool × Bytes)
    → part ++ rest ≡ text
    → Writes [] part w
    → w.0 ≡ false
    → Copies out text (false, out ++ w.1)
part_Copies out part rest text (r, w) e (inl (t, _)) f = cc
part_Copies out part rest text (r, w) e (inr (_, (unwritten, s, _))) f = (
  unwritten ++ rest,
  append_assoc out w (unwritten ++ rest)
      ∙ ap (◌++◌ out) (sym (append_assoc w unwritten rest) ∙ ap (λ (x : Bytes). x ++ rest) s ∙ e),
)

pub whole_written : (part : Bytes) (w : Bool × Bytes) → Writes [] part w → w.0 ≡ true → w.1 ≡ part
whole_written part (r, w) (inl (_, e)) t = e
whole_written part (r, w) (inr (f, _)) t = cc

pub copy_loop-Copies :
    (calls : Calls) (f i : ℕ) (text out : Bytes)
    → length text < f
    → (r : Bool × Bytes) × (copy_loop calls f i text out ≡ some r) × Copies out text r
unfolding copy_loop
copy_loop-Copies calls zero i text out h = absurd (omega arith)
copy_loop-Copies calls (suc f) i [] out h = elim (Option-cases (calls.reads i)) [
  | inl e ↦ ((false, out), rw (e, copy_loop), ([], refl))
  | inr (n, e) ↦ ((true, out), rw (e, copy_loop), sym (append-nil out))
]
copy_loop-Copies calls (suc f) i (b ∷ bs) out h = elim (Option-cases (calls.reads i)) [
  | inl e ↦ ((false, out), rw (e, copy_loop), (b ∷ bs, refl))
  | inr (n, e) ↦
      let part : Bytes = b ∷ take (min n 1023) bs in
      let rest : Bytes = drop (min n 1023) bs in
      let whole : part ++ rest ≡ b ∷ bs = ap (◌∷◌ b) (take-append-drop (min n 1023) bs) in
      let sent : Bool × Bytes = write_all part (calls.writes i) in
      let wrote : Writes [] part sent = (write_all-Writes part (calls.writes i)).0 in
      elim (Bool-cases sent.0) [
        | inr bad ↦ (
          (false, out ++ sent.1),
          rw (e, copy_loop, bad),
          part_Copies out part rest _ sent whole wrote bad,
        )
        | inl good ↦
            let (r, ran, c) =
              copy_loop-Copies calls f (i + 1) rest (out ++ part)
                (omega (arith, length-drop (min n 1023) bs)) in
            (
              r,
              rw (e, copy_loop, good)
                  (ap (λ (x : Bytes). copy_loop calls f (i + 1) rest (out ++ x))
                      (whole_written part sent wrote good)
                    ∙ ran),
              shift_Copies out part rest (b ∷ bs) r whole c,
            )
      ]
]
