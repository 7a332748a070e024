-- ===== src/Common/Io/Writing.antt =====
-- The outcomes of write_all_fd of Assignment2/a2_common.c.
use nss_i_assignments.Base.{
  zero, suc, ◌≡◌, ◌≢◌, refl, ap, ◌⊎◌, inl, inr, Bool, true, false, List, [], ◌∷◌, ◌++◌, append-nil,
  append_assoc, subst, Bytes, take, drop, take-append-drop, All,
}
use nss_i_assignments.Common.Io.{Write, accepted, interrupted, failed, write_loop, write_all}

-- The kernel takes at least one byte at each call that it does not interrupt.
abbrev pub Progresses : Write → Type 0
Progresses interrupted = Unit
Progresses failed = ⊥
Progresses (accepted zero) = ⊥
Progresses (accepted (suc n)) = Unit

-- A result with the bytes written, of `buf` behind `out`.
abbrev pub Writes : Bytes → Bytes → Bool × Bytes → Type 0
Writes out buf (r, written) =
    ((r ≡ true) × (written ≡ out ++ buf))
    ⊎ ((r ≡ false) × ((unwritten : Bytes) × (written ++ unwritten ≡ out ++ buf) × (unwritten ≢ [])))

shift_Writes :
    (out part rest buf : Bytes) (r : Bool × Bytes)
    → part ++ rest ≡ buf
    → Writes (out ++ part) rest r
    → Writes out buf r
shift_Writes out part rest buf r e w =
    subst (λ (t : Bytes). Writes out t r) e (rw append_assoc at w)

write_loop-Writes :
    (out buf : Bytes) (script : List Write) → Writes out buf (write_loop out buf script)
unfolding write_loop
write_loop-Writes out [] script = inl (refl, rw append-nil)
write_loop-Writes out (b ∷ bs) [] = inl (refl, refl)
write_loop-Writes out (b ∷ bs) (interrupted ∷ script) = write_loop-Writes out (b ∷ bs) script
write_loop-Writes out (b ∷ bs) (failed ∷ script) = inr (refl, (b ∷ bs, refl, cc))
write_loop-Writes out (b ∷ bs) (accepted zero ∷ script) = inr (refl, (b ∷ bs, refl, cc))
write_loop-Writes out (b ∷ bs) (accepted (suc n) ∷ script) =
    shift_Writes out (b ∷ take n bs) (drop n bs) (b ∷ bs) _ (ap (◌∷◌ b) (take-append-drop n bs))
      (write_loop-Writes (out ++ b ∷ take n bs) (drop n bs) script)

write_loop_progress :
    (out buf : Bytes) (script : List Write)
    → All Progresses script
    → (write_loop out buf script).0 ≡ true
unfolding write_loop
write_loop_progress out [] script h = refl
write_loop_progress out (b ∷ bs) [] h = refl
write_loop_progress out (b ∷ bs) (interrupted ∷ script) h =
    write_loop_progress out (b ∷ bs) script h.1
write_loop_progress out (b ∷ bs) (failed ∷ script) h = absurd h.0
write_loop_progress out (b ∷ bs) (accepted zero ∷ script) h = absurd h.0
write_loop_progress out (b ∷ bs) (accepted (suc n) ∷ script) h =
    write_loop_progress _ (drop n bs) script h.1

-- write_all_fd, whatever write takes at a time: where the result is 0, the bytes written are the
-- buffer, in order; where it is -1, they are a part from its start that leaves something out; and
-- the result is 0 if no call fails and each that is not interrupted takes some byte.
pub write_all-Writes :
    (buf : Bytes) (script : List Write)
    → Writes [] buf (write_all buf script)
      × (All Progresses script → (write_all buf script).0 ≡ true)
unfolding write_all
write_all-Writes buf script = (write_loop-Writes [] buf script, write_loop_progress [] buf script)
