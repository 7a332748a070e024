-- ===== src/Transfer/Header.antt =====
-- The header of the frame, from Assignment2/secure_client.c to Assignment2/secure_server.c.
use nss_i_assignments.Base.{
  ℕ, ◌≤◌, ◌<◌, ◌^◌, ◌-◌, ◌≡◌, ◌∙◌, ap, true, not, ◌||◌, some, ◌++◌, ltb, ◌==◌, Bytes, length,
  length-append, take, drop, take-append_self, drop-append_self, take-eq_self, arith,
}
use nss_i_assignments.CString.{str_eq, str_eq_self}
use nss_i_assignments.Transfer.Keys.{magic}
use nss_i_assignments.Transfer.Sender.{frame_prefix}
use nss_i_assignments.Transfer.Receiver.{read_header, max_ciphertext, slice}
use nss_i_assignments.Transfer.Words.{
  to_bytes, from_bytes, swap32, swap32-lt, swap32-swap32, htonll_u64, htonll_u64-lt, ntohll_u64,
  ntohll_u64-htonll_u64, length-to_bytes, from_bytes-to_bytes_four, from_bytes-to_bytes_eight,
}

pub length-frame_prefix :
    (n m : ℕ) (iv : Bytes) → length iv ≡ 16 → length (frame_prefix n m iv) ≡ 32
unfolding frame_prefix
length-frame_prefix n m iv h = omega (
  arith,
  length-append (to_bytes 4 (swap32 n)) (to_bytes 8 (htonll_u64 m) ++ iv),
  length-append (to_bytes 8 (htonll_u64 m)) iv,
  length-to_bytes 4 (swap32 n),
  length-to_bytes 8 (htonll_u64 m),
)

take_all : (n : ℕ) (xs ys : Bytes) → length xs ≡ n → take n (xs ++ ys) ≡ xs
take_all n xs ys h = rw (← h) (take-append_self xs ys)

drop_all : (n : ℕ) (xs ys : Bytes) → length xs ≡ n → drop n (xs ++ ys) ≡ ys
drop_all n xs ys h = rw (← h) (drop-append_self xs ys)

-- The fields, where they stand.
name_len_field :
    (n m : ℕ) (iv tag : Bytes)
    → n < 2 ^ 32
    → swap32 (from_bytes (slice 4 4 (frame_prefix n m iv ++ tag))) ≡ n
unfolding frame_prefix to_bytes
name_len_field n m iv tag h =
    ap swap32 (from_bytes-to_bytes_four (swap32 n) (swap32-lt n)) ∙ swap32-swap32 n h

cipher_len_field :
    (n m : ℕ) (iv tag : Bytes)
    → m < 2 ^ 64
    → ntohll_u64 (from_bytes (slice 8 8 (frame_prefix n m iv ++ tag))) ≡ m
unfolding frame_prefix to_bytes
cipher_len_field n m iv tag h =
    ap ntohll_u64 (from_bytes-to_bytes_eight (htonll_u64 m) (htonll_u64-lt m))
    ∙ ntohll_u64-htonll_u64 m h

iv_field :
    (n m : ℕ) (iv tag : Bytes) → length iv ≡ 16 → slice 16 16 (frame_prefix n m iv ++ tag) ≡ iv
unfolding frame_prefix to_bytes
iv_field n m iv tag h = take_all 16 iv tag h

tag_field :
    (n m : ℕ) (iv tag : Bytes)
    → length iv ≡ 16
    → length tag ≡ 32
    → slice 32 32 (frame_prefix n m iv ++ tag) ≡ tag
tag_field n m iv tag h k =
    rw (drop_all 32 (frame_prefix n m iv) tag (length-frame_prefix n m iv h))
      (take-eq_self 32 tag (omega arith))

magic_field : (n m : ℕ) (iv tag : Bytes) → str_eq (take 4 (frame_prefix n m iv ++ tag)) magic ≡ true
unfolding frame_prefix
magic_field n m iv tag = str_eq_self magic

-- secure_server reads back the two lengths, the iv and the tag that secure_client put in the
-- header, for a name of 1 to 255 bytes, a ciphertext of 1 byte to 512 MiB, an iv of 16 bytes and a
-- tag of 32.
pub read_header-frame_prefix :
    (n m : ℕ) (iv tag : Bytes)
    → 0 < n
    → n ≤ 255
    → 0 < m
    → m ≤ max_ciphertext
    → length iv ≡ 16
    → length tag ≡ 32
    → read_header (frame_prefix n m iv ++ tag)
      ≡ some (record {
        prefix = frame_prefix n m iv;
        name_len = n;
        cipher_len = m;
        iv = iv;
        tag = tag;
      })
unfolding read_header
read_header-frame_prefix n m iv tag n_pos n_le m_pos m_le h k = rw (
  magic_field n m iv tag,
  name_len_field n m iv tag (omega arith),
  cipher_len_field n m iv tag (omega arith),
  iv_field n m iv tag h,
  tag_field n m iv tag h k,
  take_all 32 (frame_prefix n m iv) tag (length-frame_prefix n m iv h),
  lengths_pass,
)
  where
    lengths_pass :
        not (n == 0 || ltb 255 n || m == 0 || ltb max_ciphertext m || ltb (2 ^ 31 - 1) m) ≡ true
    lengths_pass = ground arith
