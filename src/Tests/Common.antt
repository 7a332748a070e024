-- ===== src/Tests/Common.antt =====
-- Runs of the model of Assignment2/a2_common.c on small inputs.
use nss_i_assignments.Base.{
  ◌≡◌, ◌≤◌, refl, true, none, some, List, [], ◌∷◌, ◌++◌, map, Bytes, codes, length, arith, All,
}
use nss_i_assignments.Common.Io.{
  Read, chunk, interrupted, Write, accepted, Arrival, arrives, read_all, write_all, recv_line,
}
use nss_i_assignments.Common.Io.Reading.{Reads, read_all-Reads}
use nss_i_assignments.Common.Io.Writing.{Writes, Progresses, write_all-Writes}
use nss_i_assignments.Common.Io.Lines.{Receives, recv_line-Receives, recv_line_lem}
use nss_i_assignments.Common.Files.{Disk, Calls, save_file_atomic}
use nss_i_assignments.Common.Files.Atomic.{Saves, Succeed, save_file_atomic-Saves}
use nss_i_assignments.Common.Hex.{
  hex_digit, encode_bytes, hex_value, decode_pairs, Decodes, hex_encode, hex_decode,
  hex_decode-hex_encode, hex_decode-Decodes,
}

-- The save of four bytes, which write takes in two parts.
abbrev calls : Calls
calls = record {
  pid = 42;
  opens = true;
  writes = accepted 1 ∷ interrupted ∷ accepted 3 ∷ [];
  closes = true;
  renames = true;
}

abbrev empty_disk : Disk
empty_disk path = none

save_file_atomic-Saves_example :
    Saves calls
      (codes "out")
      (codes "data")
      empty_disk
      (save_file_atomic calls (codes "out") (codes "data") empty_disk)
    × (Succeed calls (codes "out")
        → (save_file_atomic calls (codes "out") (codes "data") empty_disk).0 ≡ true)
save_file_atomic-Saves_example =
    save_file_atomic-Saves calls (codes "out") (codes "data") empty_disk

abbrev input : List Read
input = chunk (codes "ab") ∷ interrupted ∷ chunk (codes "cdef") ∷ []

read_all-Reads_example : Reads [] 4 input (read_all 4 input)
read_all-Reads_example = read_all-Reads 4 input

abbrev output : List Write
output = accepted 2 ∷ interrupted ∷ accepted 1 ∷ []

write_all-Writes_example :
    Writes [] (codes "abc") (write_all (codes "abc") output)
    × (All Progresses output → (write_all (codes "abc") output).0 ≡ true)
write_all-Writes_example = write_all-Writes (codes "abc") output

abbrev arrivals : List Arrival
arrivals = map arrives (codes "/who") ++ arrives b'\n' ∷ arrives b'x' ∷ []

recv_line-Receives_example : Receives [] 15 arrivals (recv_line 16 arrivals)
recv_line-Receives_example = recv_line-Receives 16 arrivals (omega arith)

recv_line_lem_example : recv_line 16 arrivals ≡ (some (codes "/who\n"), arrives b'x' ∷ [])
recv_line_lem_example =
    recv_line_lem 16 (codes "/who") (arrives b'x' ∷ [])
      ((refl, refl), ((refl, refl), ((refl, refl), ((refl, refl), tt)))) (omega arith)

encoded : hex_encode (0 ∷ 255 ∷ 26 ∷ []) 7 ≡ some (codes "00ff1a")
unfolding hex_encode encode_bytes hex_digit
encoded = refl

hex_decode-hex_encode_example : hex_decode (codes "00ff1a") 3 ≡ some (0 ∷ 255 ∷ 26 ∷ [])
hex_decode-hex_encode_example =
    hex_decode-hex_encode (0 ∷ 255 ∷ 26 ∷ []) (codes "00ff1a") 7 3
      (omega arith, (omega arith, (omega arith, tt))) (omega arith) encoded

abbrev two_bytes : Bytes
two_bytes = 255 ∷ 10 ∷ []

decoded : hex_decode (codes "Ff0a") 8 ≡ some two_bytes
unfolding hex_decode decode_pairs hex_value
decoded = refl

hex_decode-Decodes_example : Decodes (codes "Ff0a") two_bytes × (length two_bytes ≤ 8)
hex_decode-Decodes_example = hex_decode-Decodes (codes "Ff0a") two_bytes 8 decoded
