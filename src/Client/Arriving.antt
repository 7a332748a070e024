-- ===== src/Client/Arriving.antt =====
-- The reads of tls_receive_thread of Assignment2/client_real.c, however the bytes are cut into
-- records.
use nss_i_assignments.Base.{
  ℕ, zero, suc, ◌-◌, ◌<◌, ◌≤◌, ◌≡◌, ◌≢◌, refl, sym, ◌∙◌, ap, false, some, List, [], ◌∷◌, ◌++◌, ◌==◌,
  append-nil, append_assoc, Bytes, length, length-append, take, drop, take-eq_self, drop-eq-nil,
  All, arith,
}
use nss_i_assignments.CString.{concat_lines}
use nss_i_assignments.Client.Sending.{int_size}
use nss_i_assignments.Client.Receiving.{leave, line_loop, data_loop}

-- Records that carry something.
abbrev pub Carry : List Bytes → Type 0
Carry records = All (λ r. r ≢ []) records

-- The records carry the text.
pub record Brings (records : List Bytes) (text : Bytes) : Type 0 where
  pub carry : Carry records
  pub whole : concat_lines records ≡ text

leave-Brings :
    (s : Bytes) (records : List Bytes) (text : Bytes)
    → Carry records
    → s ++ concat_lines records ≡ text
    → Brings (leave s records) text
leave-Brings [] records text c e = record { carry = c; whole = e }
leave-Brings (b ∷ s) records text c e = record { carry = (λ (x : b ∷ s ≡ []). cc, c); whole = e }

tail-eq : (c d : ℕ) (s t : Bytes) → c ∷ s ≡ d ∷ t → (c ≡ d) × (s ≡ t)
tail-eq c d s t e = (cc, cc)

-- A line is read up to its newline, and the rest stays.
pub line_loop-Brings :
    (buf t more : Bytes) (room : ℕ) (records : List Bytes)
    → All (λ c. (c == b'\n') ≡ false) t
    → length t < room
    → Brings records (t ++ b'\n' ∷ more)
    → (rest : List Bytes) × (line_loop buf room records ≡ some (buf ++ (t ++ b'\n' ∷ []), rest))
      × Brings rest more
unfolding line_loop
line_loop-Brings buf t more zero records plain h b = absurd (omega arith)
line_loop-Brings buf [] more (suc room) [] plain h b = let bad = b.whole in cc
line_loop-Brings buf (d ∷ t) more (suc room) [] plain h b = let bad = b.whole in cc
line_loop-Brings buf t more (suc room) ([] ∷ records) plain h b = absurd (b.carry.0 refl)
line_loop-Brings buf [] more (suc room) ((c ∷ s) ∷ records) plain h b =
    let (is, rest) = tail-eq c b'\n' (s ++ concat_lines records) more b.whole in
    (leave s records, rw is refl, leave-Brings s records more b.carry.1 rest)
line_loop-Brings buf (d ∷ t) more (suc room) ((c ∷ s) ∷ records) plain h b =
    let (is, rest) = tail-eq c d (s ++ concat_lines records) (t ++ b'\n' ∷ more) b.whole in
    let (left, ran, brings) =
      line_loop-Brings (buf ++ c ∷ []) t more room (leave s records) plain.1 (omega arith)
        (leave-Brings s records (t ++ b'\n' ∷ more) b.carry.1 rest) in
    let no_end : (c == b'\n') ≡ false = ap (λ (x : ℕ). x == b'\n') is ∙ plain.0 in
    (
      left,
      rw (no_end, line_loop)
          (ran
            ∙ ap (λ (x : Bytes). some (x, left))
                (append_assoc buf (c ∷ []) (t ++ b'\n' ∷ [])
                  ∙ ap (λ (x : ℕ). buf ++ (x ∷ (t ++ b'\n' ∷ []))) is)),
      brings,
    )

pub int_size_small : (n : ℕ) → 0 < n → n < 2_147_483_648 → int_size n ≡ some n
unfolding int_size
int_size_small n p h = ground arith

-- The bytes of the file are read, whatever each read gives.
pub data_loop-Brings :
    (f : ℕ) (got bytes : Bytes) (need : ℕ) (records : List Bytes)
    → need ≤ f
    → length bytes ≡ need
    → need < 2_147_483_648
    → Brings records bytes
    → data_loop f got need records ≡ some (got ++ bytes)
unfolding data_loop
data_loop-Brings f got [] zero records h e small b =
    ap (λ (x : Bytes). some x) (sym (append-nil got))
data_loop-Brings f got (c ∷ bytes) zero records h e small b = absurd (omega (arith, e))
data_loop-Brings zero got bytes (suc need) records h e small b = absurd (omega arith)
data_loop-Brings (suc f) got bytes (suc need) [] h e small b =
    absurd (omega (arith, e, ap length b.whole))
data_loop-Brings (suc f) got bytes (suc need) ([] ∷ records) h e small b = absurd (b.carry.0 refl)
data_loop-Brings (suc f) got bytes (suc need) ((c ∷ s) ∷ records) h e small b =
    let fits : length (c ∷ s) ≤ suc need =
      omega (arith, e, ap length b.whole, length-append (c ∷ s) (concat_lines records)) in
    let whole : take (suc need) (c ∷ s) ≡ c ∷ s = take-eq_self (suc need) (c ∷ s) fits in
    let gone : drop (suc need) (c ∷ s) ≡ [] = drop-eq-nil (suc need) (c ∷ s) fits in
    let next =
      data_loop-Brings f (got ++ c ∷ s) (concat_lines records) (suc need - length (c ∷ s)) records
        (omega arith)
        (omega (arith, e, ap length b.whole, length-append (c ∷ s) (concat_lines records)))
        (omega arith) (record { carry = b.carry.1; whole = refl }) in
    rw (data_loop, int_size_small (suc need) (omega arith) small, whole, gone)
      (next
        ∙ ap (λ (x : Bytes). some x)
            (append_assoc got (c ∷ s) (concat_lines records) ∙ ap (◌++◌ got) b.whole))
