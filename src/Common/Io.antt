-- ===== src/Common/Io.antt =====
-- read_all_fd, write_all_fd, recv_line, send_all, send_fmt and trim_newline of
-- Assignment2/a2_common.c.
--
-- A descriptor is the script of what the kernel will answer. A script that is used up means the
-- end of the file for `read`, and for `write` that all that is left is taken.
pub mod Reading
pub mod Writing
pub mod Lines
use mathlib.Core.List.{reverse}
use nss_i_assignments.Base.{
  leb, ℕ, zero, suc, ◌+◌, ◌-◌, ◌≤◌, ◌<◌, ◌≡◌, ◌≢◌, refl, sym, ◌∙◌, ap, ◌⊎◌, inl, inr, Bool, true,
  false, ◌&&◌, ◌||◌, Option, none, some, List, [], ◌∷◌, ◌++◌, append-nil, append_assoc, ltb, leb,
  ltb→lt, ◌==◌, if◌then◌else◌, Bytes, codes, length, take, drop, length-append, length-drop,
  take-eq_self, drop-eq-nil, take-append-drop, take-append_self, drop-append_self, All, arith,
  Bool-cases,
}

-- What read gives: some bytes (none of them at the end of the file), EINTR, or another error.
pub data Read : Type 0 where
  chunk : Bytes → Read
  interrupted : Read
  failed : Read

pub data ReadResult : Type 0 where
  complete : Bytes → ReadResult
  end_of_file : ReadResult
  read_error : ReadResult

-- The loop of read_all_fd: `done` is what the buffer holds, and `need` the bytes still missing.
-- A chunk longer than what is asked for is cut, and its rest stays to be read.
unfoldable pub read_loop : Bytes → ℕ → List Read → ReadResult × List Read
read_loop got zero script = (complete got, script)
read_loop got (suc need) [] = (end_of_file, [])
read_loop got (suc need) (interrupted ∷ script) = read_loop got (suc need) script
read_loop got (suc need) (failed ∷ script) = (read_error, script)
read_loop got (suc need) (chunk [] ∷ script) = (end_of_file, script)
read_loop got (suc need) (chunk (b ∷ bs) ∷ script) =
    let all = b ∷ bs in
    let rest = read_loop (got ++ all) (suc need - length all) script in
    if ltb (suc need) (length all)
    then (complete (got ++ take (suc need) all), chunk (drop (suc need) all) ∷ script)
    else rest

-- 1 with the buffer, 0 or -1, and what is left of the script.
unfoldable pub read_all : ℕ → List Read → ReadResult × List Read
unfolding read_loop
read_all len script = read_loop [] len script

-- What write gives: how many bytes it took (never more than it was handed), EINTR, or an error.
pub data Write : Type 0 where
  accepted : ℕ → Write
  interrupted : Write
  failed : Write

-- The loop of write_all_fd: what the descriptor has taken, and `buf + done`.
unfoldable pub write_loop : Bytes → Bytes → List Write → Bool × Bytes
write_loop out [] script = (true, out)
write_loop out (b ∷ bs) [] = (true, out ++ b ∷ bs)
write_loop out (b ∷ bs) (interrupted ∷ script) = write_loop out (b ∷ bs) script
write_loop out (b ∷ bs) (failed ∷ script) = (false, out)
write_loop out (b ∷ bs) (accepted zero ∷ script) = (false, out)
write_loop out (b ∷ bs) (accepted (suc n) ∷ script) =
    write_loop (out ++ b ∷ take n bs) (drop n bs) script

-- Whether the result is 0, and what was written.
unfoldable pub write_all : Bytes → List Write → Bool × Bytes
unfolding write_loop
write_all buf script = write_loop [] buf script

-- One byte at a time, as recv_line reads.
pub data Arrival : Type 0 where
  arrives : ℕ → Arrival
  interrupted : Arrival
  failed : Arrival

-- `room` is how often `pos + 1 < max` can still hold.
unfoldable pub recv_loop : Bytes → ℕ → List Arrival → Option Bytes × List Arrival
recv_loop buf zero script = (some buf, script)
recv_loop buf (suc room) [] = (some buf, [])
recv_loop buf (suc room) (interrupted ∷ script) = recv_loop buf (suc room) script
recv_loop buf (suc room) (failed ∷ script) = (none, script)
recv_loop buf (suc room) (arrives c ∷ script) =
    let more = recv_loop (buf ++ c ∷ []) room script in
    if c == b'\n' then (some (buf ++ c ∷ []), script) else more

-- `none` for -1, else the line in the buffer, whose length is the result.
unfoldable pub recv_line : ℕ → List Arrival → Option Bytes × List Arrival
unfolding recv_loop
recv_line max script = if max == 0 then (none, script) else recv_loop [] (max - 1) script

-- The size of a line buffer.
abbrev pub line_max : ℕ
line_max = 4096

-- What send_fmt hands to write_all_fd for a text that the format has given: nothing if it does not
-- fit in the buffer.
unfoldable pub send_fmt : Bytes → Option Bytes
send_fmt text = if leb line_max (length text) then none else some text

abbrev is_eol : ℕ → Bool
is_eol c = c == b'\n' || c == b'\r'

skip_eol : Bytes → Bytes
skip_eol [] = []
skip_eol (c ∷ s) = if is_eol c then skip_eol s else c ∷ s

-- The loop cuts line ends off from the end of the string.
unfoldable pub trim_newline : Bytes → Bytes
unfolding skip_eol
trim_newline s = reverse (skip_eol (reverse s))
