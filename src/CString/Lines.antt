-- ===== src/CString/Lines.antt =====
-- fgets(line, size, f) until NULL, on a text file: the strings that the calls leave in `line`.
-- The text holds no zero byte. A line longer than the buffer comes in pieces.
use nss_i_assignments.Base.{
  ℕ, ◌-◌, ◌≡◌, refl, true, false, ◌||◌, List, [], ◌∷◌, ◌++◌, leb, ◌==◌, Bytes, Bool-cases, inl, inr,
  append-nil, append_assoc, ◌∙◌, sym, ap, All, length, length-append, ◌<◌, arith,
}

abbrev last_line : Bytes → List Bytes
last_line [] = []
last_line (c ∷ s) = (c ∷ s) ∷ []

-- `room` bytes still fit.
fgets_loop : ℕ → Bytes → ℕ → Bytes → List Bytes
fgets_loop size line room [] = last_line line
fgets_loop size line room (c ∷ s) = elim (c == b'\n' || leb room 1) [
  | true ↦ (line ++ c ∷ []) ∷ fgets_loop size [] (size - 1) s
  | false ↦ fgets_loop size (line ++ c ∷ []) (room - 1) s
]

unfoldable pub fgets_lines : ℕ → Bytes → List Bytes
unfolding fgets_loop
fgets_lines size text = fgets_loop size [] (size - 1) text

abbrev pub concat_lines : List Bytes → Bytes
concat_lines [] = []
concat_lines (l ∷ ls) = l ++ concat_lines ls

last_line-concat : (l : Bytes) → concat_lines (last_line l) ≡ l
last_line-concat [] = refl
last_line-concat (c ∷ s) = append-nil (c ∷ s)

fgets_loop-concat :
    (size : ℕ) (line : Bytes) (room : ℕ) (s : Bytes)
    → concat_lines (fgets_loop size line room s) ≡ line ++ s
unfolding fgets_loop
fgets_loop-concat size line room [] = last_line-concat line ∙ sym (append-nil line)
fgets_loop-concat size line room (c ∷ s) = elim (Bool-cases (c == b'\n' || leb room 1)) [
  | inl e ↦
      rw (e, fgets_loop)
        (ap (◌++◌ (line ++ c ∷ [])) (fgets_loop-concat size [] (size - 1) s) ∙ rw append_assoc)
  | inr e ↦
      rw (e, fgets_loop) (fgets_loop-concat size (line ++ c ∷ []) (room - 1) s ∙ rw append_assoc)
]

-- Nothing of the file is lost.
pub fgets_lines-concat : (size : ℕ) (text : Bytes) → concat_lines (fgets_lines size text) ≡ text
unfolding fgets_lines
fgets_lines-concat size text = fgets_loop-concat size [] (size - 1) text

-- A line with its newline at the end, which fits in the buffer.
pub record IsLine (size : ℕ) (line : Bytes) : Type 0 where
  pub body : Bytes
  pub ends : line ≡ body ++ b'\n' ∷ []
  pub plain : All (λ c. (c == b'\n') ≡ false) body
  pub fits : length line < size

fgets_loop-line :
    (size : ℕ) (line body : Bytes) (room : ℕ) (s : Bytes)
    → All (λ c. (c == b'\n') ≡ false) body
    → length body < room
    → fgets_loop size line room (body ++ b'\n' ∷ s)
      ≡ (line ++ (body ++ b'\n' ∷ [])) ∷ fgets_loop size [] (size - 1) s
unfolding fgets_loop
fgets_loop-line size line [] room s plain h = refl
fgets_loop-line size line (c ∷ body) room s plain h =
    let more : leb room 1 ≡ false = ground arith in
    rw (plain.0, more, fgets_loop)
      (fgets_loop-line size (line ++ c ∷ []) body (room - 1) s plain.1 (omega arith)
        ∙ rw append_assoc)

-- Lines that fit are read back as they were written.
pub fgets_lines-lines :
    (size : ℕ) (ls : List Bytes) → All (IsLine size) ls → fgets_lines size (concat_lines ls) ≡ ls
unfolding fgets_lines fgets_loop
fgets_lines-lines size [] h = refl
fgets_lines-lines size (l ∷ ls) h =
    let read : fgets_loop size [] (size - 1) (h.0.body ++ b'\n' ∷ concat_lines ls)
        ≡ (h.0.body ++ b'\n' ∷ []) ∷ fgets_loop size [] (size - 1) (concat_lines ls) =
      fgets_loop-line size [] h.0.body (size - 1) (concat_lines ls) h.0.plain
        (omega (arith, h.0.fits, ap length h.0.ends, length-append h.0.body (b'\n' ∷ []))) in
    let text : l ++ concat_lines ls ≡ h.0.body ++ b'\n' ∷ concat_lines ls =
      ap (λ (x : Bytes). x ++ concat_lines ls) h.0.ends ∙ append_assoc h.0.body _ _ in
    ap (fgets_loop size [] (size - 1)) text
    ∙ read
    ∙ ap (λ (x : Bytes). x ∷ fgets_lines size (concat_lines ls)) (sym h.0.ends)
    ∙ ap (◌∷◌ l) (fgets_lines-lines size ls h.1)
