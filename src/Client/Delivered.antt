-- ===== src/Client/Delivered.antt =====
-- send_file_tls and tls_receive_thread of Assignment2/client_real.c, one after the other.
use nss_i_assignments.Base.{
  ℕ, ◌+◌, ◌%◌, ◌^◌, ◌<◌, ◌≡◌, refl, sym, ◌∙◌, ap, subst, inl, inr, true, false, some, List, [], ◌∷◌,
  ◌++◌, ◌==◌, append_assoc, Bytes, codes, length, length-append, All-map, arith,
}
use nss_i_assignments.CString.{
  c_string, contains, snprintf-fits, strtok-last, print_dec, strtoull, strtoull-print_dec, str_eq,
}
use nss_i_assignments.Common.Io.{trim_newline}
use nss_i_assignments.Common.Io.Lines.{IsLineText, trim_newline_line}
use nss_i_assignments.Common.Files.{Disk, save_file_atomic}
use nss_i_assignments.Common.Files.Atomic.{Succeed, save_file_atomic-Saves}
use nss_i_assignments.Transfer.Keys.{Host}
use nss_i_assignments.Client.Words.{
  IsWord, IsWord-Free, IsWord-IsLineText, behind, strtok-behind, behind-IsLineText,
  IsWord-print_dec, NoZero, IsWord-NoZero, behind-NoZero, c_string-line,
}
use nss_i_assignments.Client.Sending.{Calls, file_header, send_file_tls}
use nss_i_assignments.Client.Receiving.{
  Setup, ssl_read_line, data_loop, header_words, receive_file, tls_receive_thread,
}
use nss_i_assignments.Client.Arriving.{Brings, line_loop-Brings, data_loop-Brings}
use nss_i_assignments.Client.Sent.{header_text, Checked, sends}

header_full :
    (filename : Bytes) (len : ℕ)
    → codes "FILE " ++ (filename ++ (codes " " ++ (print_dec len ++ codes "\n")))
      ≡ header_text filename len ++ b'\n' ∷ []
header_full filename len = simp append_assoc

file-IsWord : IsWord (codes "FILE")
unfolding contains
file-IsWord = ((λ e. cc), (refl, (refl, (refl, (refl, tt)))))

header_words-header_text :
    (filename : Bytes) (len : ℕ)
    → IsWord filename
    → Checked filename
    → header_words (header_text filename len) ≡ some (filename, print_dec len)
unfolding str_eq
header_words-header_text filename len w checked =
    let number = IsWord-print_dec len in
    rw (
      strtok-behind (codes "FILE") (behind filename (print_dec len)) file-IsWord,
      strtok-behind filename (print_dec len) w,
      strtok-last (codes " ") (print_dec len) number.0 (IsWord-Free (print_dec len) number),
      checked,
    )

header_text-IsLineText :
    (filename : Bytes) (len : ℕ) → IsWord filename → IsLineText (header_text filename len)
header_text-IsLineText filename len w =
    behind-IsLineText (codes "FILE") (behind filename (print_dec len)) file-IsWord (
      behind-IsLineText filename (print_dec len) w
        (IsWord-IsLineText (print_dec len) (IsWord-print_dec len)))

header_text-NoZero :
    (filename : Bytes) (len : ℕ) → IsWord filename → NoZero (header_text filename len)
header_text-NoZero filename len w =
    behind-NoZero (codes "FILE") (behind filename (print_dec len)) file-IsWord (
      behind-NoZero filename (print_dec len) w
        (IsWord-NoZero (print_dec len) (IsWord-print_dec len)))

-- Every call up to the header succeeds, and there is memory.
pub record Ready (setup : Setup) : Type 0 where
  pub context : setup.context ≡ true
  pub certificate : setup.certificate ≡ true
  pub listens : setup.listens ≡ true
  pub accepts : setup.accepts ≡ true
  pub session : setup.session ≡ true
  pub handshake : setup.handshake ≡ true
  pub malloc : (n : ℕ) → setup.malloc n ≡ true

receives :
    (setup : Setup) (records rest : List Bytes) (line filename len_s bytes : Bytes) (n : ℕ)
    → Ready setup
    → ssl_read_line 512 records ≡ some (line, rest)
    → (length line == 0) ≡ false
    → header_words (trim_newline (c_string line)) ≡ some (filename, len_s)
    → strtoull len_s ≡ n
    → data_loop n [] n rest ≡ some bytes
    → receive_file setup records ≡ some (filename, bytes)
unfolding receive_file
receives setup records rest line filename len_s bytes n r e₁ e₂ e₃ e₄ e₅ = rw (
  r.context,
  r.certificate,
  r.listens,
  r.accepts,
  r.session,
  r.handshake,
  e₁,
  e₂,
  e₃,
  e₄,
  r.malloc ((n + 1) % 2 ^ 64),
  e₅,
)

line_not_empty : (t : Bytes) → (length (t ++ b'\n' ∷ []) == 0) ≡ false
line_not_empty t = ground (arith, length-append t (b'\n' ∷ []))

-- What send_file_tls puts on the connection, tls_receive_thread takes for the same file.
receive-sent :
    (setup : Setup) (filename bytes : Bytes) (records : List Bytes)
    → Ready setup
    → IsWord filename
    → Checked filename
    → length (header_text filename (length bytes)) < 511
    → length bytes < 2_147_483_648
    → Brings records (file_header filename (length bytes) ++ bytes)
    → receive_file setup records ≡ some (filename, bytes)
unfolding ssl_read_line
receive-sent setup filename bytes records r w checked short small b =
    let n : ℕ = length bytes in
    let text : Bytes = header_text filename n in
    let header : file_header filename n ≡ text ++ b'\n' ∷ [] =
      snprintf-fits 512 _
        (omega (arith, short, ap length (header_full filename n), length-append text (b'\n' ∷ [])))
      ∙ header_full filename n in
    let whole : file_header filename n ++ bytes ≡ text ++ b'\n' ∷ bytes =
      ap (λ (x : Bytes). x ++ bytes) header ∙ append_assoc text (b'\n' ∷ []) bytes in
    let line_text = header_text-IsLineText filename n w in
    let (rest, ran, brings) =
      line_loop-Brings [] text bytes 511 records (All-map text (λ c p. p.0) line_text) short
        (subst (Brings records) whole b) in
    receives setup records rest (text ++ b'\n' ∷ []) filename (print_dec n) bytes n r ran
      (line_not_empty text)
      (ap (λ (l : Bytes). header_words (trim_newline l))
          (c_string-line text (header_text-NoZero filename n w))
        ∙ ap header_words (trim_newline_line text line_text)
        ∙ header_words-header_text filename n w checked)
      (strtoull-print_dec n (omega (arith, small)))
      (data_loop-Brings n [] bytes n rest (omega arith) refl small brings)

-- A file that send_file_tls of one client has sent without a failure, tls_receive_thread of another
-- stores whole under its name in the download directory, however the connection cuts it into
-- records. The conditions: the name is a word, its header and the path fit in their buffers, the
-- file has less than 2^31 bytes, and on the receiving side no call fails.
pub tls_receive_thread-send_file_tls :
    (host : Host) (calls : Calls) (root filename bytes sent : Bytes) (setup : Setup) (dir : Bytes)
    (records : List Bytes) (disk : Disk)
    → host.disk (root ++ (codes "/" ++ filename)) ≡ some bytes
    → length bytes < 2_147_483_648
    → IsWord filename
    → length (header_text filename (length bytes)) < 511
    → send_file_tls host calls root filename ≡ (true, sent)
    → Brings records sent
    → Ready setup
    → length (dir ++ (codes "/" ++ filename)) < 512
    → Succeed setup.saving (dir ++ (codes "/" ++ filename))
    → tls_receive_thread setup dir records disk (dir ++ (codes "/" ++ filename)) ≡ some bytes
unfolding tls_receive_thread
tls_receive_thread-send_file_tls host calls root filename bytes sent setup dir records disk there
      small w short sending b r fits saving =
    let path : Bytes = dir ++ (codes "/" ++ filename) in
    let (checked, same) = sends host calls root filename bytes sent there small sending in
    let got : receive_file setup records ≡ some (filename, bytes) =
      receive-sent setup filename bytes records r w checked short small
        (subst (Brings records) same b) in
    let (outcome, works) = save_file_atomic-Saves setup.saving path bytes disk in
    let saved : (save_file_atomic setup.saving path bytes disk).1 path ≡ some bytes =
      elim outcome.whole_or_nothing [
        | inl (_, whole, _) ↦ whole
        | inr (failed, _) ↦ let bad : true ≡ false = sym (works saving) ∙ failed in cc
      ] in
    rw got (
      ap (λ (x : Bytes). (save_file_atomic setup.saving x bytes disk).1 path)
        (snprintf-fits 512 path fits)
      ∙ saved)
