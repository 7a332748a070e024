-- ===== src/Common/Io/Lines.antt =====
-- recv_line and trim_newline on lines.
use mathlib.Core.List.{reverse, reverse_aux, reverse-append, reverse-reverse}
use nss_i_assignments.Base.{
  ℕ, zero, suc, ◌+◌, ◌-◌, ◌≤◌, ◌<◌, ◌≡◌, refl, ◌∙◌, inl, inr, false, Option, none, some, List, [],
  ◌∷◌, ◌++◌, map, append-nil, append_assoc, ◌==◌, Bytes, length, length-append, arith, All, Has,
  Bool-cases,
}
use nss_i_assignments.Common.Io.{
  Arrival, arrives, interrupted, failed, recv_loop, recv_line, skip_eol, trim_newline,
}

-- No line feed, and no carriage return.
abbrev pub IsLineText : Bytes → Type 0
IsLineText = All (λ c. ((c == b'\n') ≡ false) × ((c == b'\r') ≡ false))

recv_loop_line :
    (t buf : Bytes) (room : ℕ) (script : List Arrival)
    → IsLineText t
    → length t < room
    → recv_loop buf room (map arrives t ++ arrives b'\n' ∷ script)
      ≡ (some (buf ++ t ++ b'\n' ∷ []), script)
unfolding recv_loop
recv_loop_line t buf zero script f h = elim h [ ]
recv_loop_line [] buf (suc room) script f h = rw append-nil
recv_loop_line (c ∷ t) buf (suc room) script f h = rw f.0.0 (
    recv_loop_line t (buf ++ c ∷ []) room script f.1 (omega arith)
    ∙ rw (append_assoc buf (c ∷ []) t))

-- A line that fits in the buffer, with no line end in its text, is received with its line feed,
-- and what follows stays unread.
pub recv_line_lem :
    (max : ℕ) (t : Bytes) (script : List Arrival)
    → IsLineText t
    → length t + 1 < max
    → recv_line max (map arrives t ++ arrives b'\n' ∷ script) ≡ (some (t ++ b'\n' ∷ []), script)
unfolding recv_line
recv_line_lem max t script f h = elim (Bool-cases (max == 0)) [
  | inl e ↦ absurd (ground arith)
  | inr e ↦ rw e (recv_loop_line t [] (max - 1) script f (omega arith))
]

-- The bytes that a script delivers up to an error.
abbrev pub delivered : List Arrival → Bytes
delivered [] = []
delivered (arrives c ∷ script) = c ∷ delivered script
delivered (interrupted ∷ script) = delivered script
delivered (failed ∷ script) = []

-- What a received line says of the script: no byte is lost, and the line has room for its end. There
-- is none only where a call fails.
abbrev pub Receives : Bytes → ℕ → List Arrival → Option Bytes × List Arrival → Type 0
Receives buf room script (none, rest) = Has failed script
Receives buf room script (some line, rest) =
    (line ++ delivered rest ≡ buf ++ delivered script) × (length line ≤ length buf + room)

recv_loop-Receives :
    (buf : Bytes) (room : ℕ) (script : List Arrival)
    → Receives buf room script (recv_loop buf room script)
unfolding recv_loop
recv_loop-Receives buf zero script = (refl, omega arith)
recv_loop-Receives buf (suc room) [] = (refl, omega arith)
recv_loop-Receives buf (suc room) (interrupted ∷ script) =
    skipped (recv_loop buf (suc room) script) (recv_loop-Receives buf (suc room) script)
  where
    skipped :
        (r : Option Bytes × List Arrival)
        → Receives buf (suc room) script r
        → Receives buf (suc room) (interrupted ∷ script) r
    skipped (none, rest) h = inr h
    skipped (some line, rest) h = h
recv_loop-Receives buf (suc room) (failed ∷ script) = inl refl
recv_loop-Receives buf (suc room) (arrives c ∷ script) = elim (Bool-cases (c == b'\n')) [
  | inl e ↦ rw e (rw append_assoc, omega (arith, length-append buf (c ∷ [])))
  | inr e ↦ rw e (
      later (recv_loop (buf ++ c ∷ []) room script)
        (recv_loop-Receives (buf ++ c ∷ []) room script))
]
  where
    later :
        (r : Option Bytes × List Arrival)
        → Receives (buf ++ c ∷ []) room script r
        → Receives buf (suc room) (arrives c ∷ script) r
    later (none, rest) h = inr h
    later (some line, rest) h =
        (h.0 ∙ rw append_assoc, omega (arith, h.1, length-append buf (c ∷ [])))

-- In a buffer that is not empty, recv_line gives -1 only where a call fails; a line that it gives is
-- what arrived first, and has at most max - 1 bytes, so that the terminator fits; the bytes that it
-- did not take are left to be read.
pub recv_line-Receives :
    (max : ℕ) (script : List Arrival)
    → 0 < max
    → Receives [] (max - 1) script (recv_line max script)
unfolding recv_line
recv_line-Receives max script pos = elim (Bool-cases (max == 0)) [
  | inl e ↦ absurd (ground arith)
  | inr e ↦ rw e (recv_loop-Receives [] (max - 1) script)
]

IsLineText-reverse_aux : (t r : Bytes) → IsLineText t → IsLineText r → IsLineText (reverse_aux t r)
IsLineText-reverse_aux [] r h k = k
IsLineText-reverse_aux (c ∷ t) r h k = IsLineText-reverse_aux t (c ∷ r) h.1 (h.0, k)

skip_eol-line : (t : Bytes) → IsLineText t → skip_eol t ≡ t
unfolding skip_eol
skip_eol-line [] h = refl
skip_eol-line (c ∷ t) h = ground (arith, h.0)

skip_eol_feed : (s : Bytes) → skip_eol (b'\n' ∷ s) ≡ skip_eol s
unfolding skip_eol
skip_eol_feed s = refl

-- trim_newline cuts the line feed off a received line.
pub trim_newline_line : (t : Bytes) → IsLineText t → trim_newline (t ++ b'\n' ∷ []) ≡ t
unfolding trim_newline
trim_newline_line t h =
    rw
      (
        reverse-append t (b'\n' ∷ []),
        skip_eol_feed (reverse t),
        skip_eol-line (reverse t) (IsLineText-reverse_aux t [] h tt),
      )
      (reverse-reverse t)

pub trim_newline_self : (t : Bytes) → IsLineText t → trim_newline t ≡ t
unfolding trim_newline
trim_newline_self t h =
    rw (skip_eol-line (reverse t) (IsLineText-reverse_aux t [] h tt)) (reverse-reverse t)
