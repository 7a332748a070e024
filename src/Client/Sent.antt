-- ===== src/Client/Sent.antt =====
-- send_file_tls of Assignment2/client_real.c, when it succeeds.
use nss_i_assignments.Base.{
  ℕ, ◌+◌, ◌<◌, ◌≡◌, sym, ◌∙◌, ap, inl, inr, Bool, true, false, not, ◌&&◌, ◌||◌, some, [], ◌∷◌, ◌++◌,
  append-nil, Bytes, codes, length, take-eq_self, arith, Bool-cases, guard, >>=-eq-some, guard-true,
  ltb, Option-cases,
}
use nss_i_assignments.CString.{contains, strstr, print_dec}
use nss_i_assignments.Transfer.Keys.{Host, load_file}
use nss_i_assignments.Client.Words.{behind}
use nss_i_assignments.Client.Sending.{
  Calls, connect_loop, int_size, file_header, write_data, write_sized, send_data, requested_file,
  send_file_tls,
}
use nss_i_assignments.Client.Arriving.{int_size_small}

-- What a transfer that succeeds has put on the connection.
abbrev pub header_text : Bytes → ℕ → Bytes
header_text filename len = behind (codes "FILE") (behind filename (print_dec len))

write_sized-true :
    (works : Bool) (sent bytes : Bytes)
    → (write_sized works sent bytes (some (length bytes))).0 ≡ true
    → (write_sized works sent bytes (some (length bytes))).1 ≡ sent ++ bytes
write_sized-true false sent bytes t = cc
write_sized-true true sent bytes t =
    ap (◌++◌ sent) (take-eq_self (length bytes) bytes (omega arith))

write_data-true :
    (works : Bool) (sent bytes : Bytes)
    → length bytes < 2_147_483_648
    → (write_data works sent bytes).0 ≡ true
    → (write_data works sent bytes).1 ≡ sent ++ bytes
write_data-true works sent [] small t = sym (append-nil sent)
write_data-true works sent (b ∷ bs) small t =
    let e : int_size (length (b ∷ bs)) ≡ some (length (b ∷ bs)) =
      int_size_small (length (b ∷ bs)) (omega arith) small in
    let size : write_data works sent (b ∷ bs)
        ≡ write_sized works sent (b ∷ bs) (some (length (b ∷ bs))) =
      ap (write_sized works sent (b ∷ bs)) e in
    ap (λ (r : Bool × Bytes). r.1) size
    ∙ write_sized-true works sent (b ∷ bs) (sym (ap (λ (r : Bool × Bytes). r.0) size) ∙ t)

send_data-true :
    (calls : Calls) (filename bytes : Bytes)
    → length bytes < 2_147_483_648
    → (send_data calls filename bytes).0 ≡ true
    → (send_data calls filename bytes).1 ≡ file_header filename (length bytes) ++ bytes
send_data-true calls filename bytes small t =
    elim (Bool-cases (calls.context && connect_loop calls.connects 0 30)) [
      | inr bad ↦ let no₁ : false ≡ true = rw bad at t in cc
      | inl a ↦ elim (Bool-cases (calls.session && calls.handshake)) [
        | inr bad ↦ let no₁ : false ≡ true = rw (a, bad) at t in cc
        | inl b ↦ elim (Bool-cases calls.header_written) [
          | inr bad ↦ let no₁ : false ≡ true = rw (a, b, bad) at t in cc
          | inl c ↦
              rw (a, b, c)
                (write_data-true calls.data_written (file_header filename (length bytes)) bytes
                  small (rw (a, b, c) at t))
        ]
      ]
    ]

-- What the sender has checked of the name.
abbrev pub Checked : Bytes → Type 0
Checked filename = (contains b'/' filename || strstr (codes "..") filename) ≡ false

either_false : (a b : Bool) → not a ≡ true → not b ≡ true → (a || b) ≡ false
either_false a b h k = ground arith

requested_file-some :
    (host : Host) (root filename bytes got : Bytes)
    → host.disk (root ++ (codes "/" ++ filename)) ≡ some bytes
    → requested_file host root filename ≡ some got
    → Checked filename × (got ≡ bytes)
unfolding load_file
requested_file-some host root filename bytes got there h =
    let path : Bytes = root ++ (codes "/" ++ filename) in
    let (_, g₁, h₁) = >>=-eq-some (guard (not (contains b'/' filename))) _ h in
    let (_, g₂, h₂) = >>=-eq-some (guard (not (strstr (codes "..") filename))) _ h₁ in
    let (_, g₃, h₃) = >>=-eq-some (guard (ltb (length path) 512)) _ h₂ in
    let (b, e, h₄) = >>=-eq-some (host.disk path) _ h₃ in
    let (_, g₅, h₅) = >>=-eq-some (guard (host.malloc (length b + 1))) _ h₄ in
    let one : some b ≡ some got = h₅ in
    let two : some b ≡ some bytes = sym e ∙ there in
    (either_false _ _ (guard-true _ g₁) (guard-true _ g₂), cc)

pub sends :
    (host : Host) (calls : Calls) (root filename bytes sent : Bytes)
    → host.disk (root ++ (codes "/" ++ filename)) ≡ some bytes
    → length bytes < 2_147_483_648
    → send_file_tls host calls root filename ≡ (true, sent)
    → Checked filename × (sent ≡ file_header filename (length bytes) ++ bytes)
unfolding send_file_tls
sends host calls root filename bytes sent there small h =
    elim (Option-cases (requested_file host root filename)) [
      | inl e ↦ let bad : false ≡ true = ap (λ (r : Bool × Bytes). r.0) (rw e at h) in cc
      | inr (got, e) ↦
          let (checked, same) = requested_file-some host root filename bytes got there e in
          let ran : send_data calls filename got ≡ (true, sent) = rw e at h in
          let ran' : send_data calls filename bytes ≡ (true, sent) =
            ap (send_data calls filename) (sym same) ∙ ran in
          (
            checked,
            sym (ap (λ (r : Bool × Bytes). r.1) ran')
                ∙ send_data-true calls filename bytes small (ap (λ (r : Bool × Bytes). r.0) ran'),
          )
    ]
