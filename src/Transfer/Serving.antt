-- ===== src/Transfer/Serving.antt =====
-- The outcomes of main of Assignment2/secure_server.c.
use nss_i_assignments.Base.{
  guard-true, some_injective, ℕ, ◌≡◌, ◌≢◌, sym, ◌∙◌, ap, Bool, true, false, not, ◌||◌, some, ◌++◌,
  ltb, Bytes, codes, length, arith, >>=-eq-some, guard, Bool-cases, Option-cases, inl, inr,
}
use nss_i_assignments.CString.{c_string, str_eq_iff, contains, strstr}
use nss_i_assignments.Common.Crypto.{hmac_sha256, aes_256_cbc_decrypt}
use nss_i_assignments.Common.Files.{Disk}
use nss_i_assignments.Common.Files.Atomic.{Saves, save_file_atomic-Saves}
use nss_i_assignments.Transfer.Keys.{Host, load_key_material, build_hmac}
use nss_i_assignments.Transfer.Made.{build_hmac-hmac}
use nss_i_assignments.Transfer.Receiver.{
  Run, Received, exit_code, safe_output_path, receive_frame, authentic, open_frame, store, serve,
}

-- The frame carries the tag of its own header, name and ciphertext, under the key, and opens to the
-- plaintext, whose path is a file directly in the directory.
pub record Authentic (run : Run) (key_path dir : Bytes) (path plaintext : Bytes) : Type 0 where
  pub enc_key : Bytes
  pub mac_key : Bytes
  pub frame : Received
  pub keys : load_key_material run.host key_path ≡ some (enc_key, mac_key)
  pub received : receive_frame run ≡ some frame
  pub tagged :
      hmac_sha256 run.host.evp mac_key (frame.header.prefix ++ (frame.name ++ frame.ciphertext))
      ≡ some frame.header.tag
  pub decrypted :
      aes_256_cbc_decrypt run.host.evp enc_key frame.header.iv frame.ciphertext ≡ some plaintext
  pub in_directory : path ≡ dir ++ (codes "/" ++ c_string frame.name)
  pub no_slash : contains b'/' (c_string frame.name) ≡ false
  pub no_parent : strstr (codes "..") (c_string frame.name) ≡ false

-- The outcomes: the disk as it was and an exit code that is not 0; or the save of an authentic frame.
pub data Serves (run : Run) (key_path dir : Bytes) : ℕ × Disk → Type 0 where
  rejected : {code : ℕ} → code ≢ 0 → Serves run key_path dir (code, run.host.disk)
  saved :
      {path plaintext : Bytes} {r : Bool × Disk}
      → Authentic run key_path dir path plaintext
      → Saves run.calls path plaintext run.host.disk r
      → Serves run key_path dir (exit_code r)

neither : (a b : Bool) → not (a || b) ≡ true → (a ≡ false) × (b ≡ false)
neither a b h = ground arith

authentic-hmac :
    (host : Host) (mac_key : Bytes) (r : Received)
    → authentic host mac_key r ≡ true
    → hmac_sha256 host.evp mac_key (r.header.prefix ++ (r.name ++ r.ciphertext)) ≡ some r.header.tag
unfolding authentic
authentic-hmac host mac_key r h =
    elim (Option-cases (build_hmac host mac_key r.header.prefix r.name r.ciphertext)) [
      | inl e ↦ let bad : false ≡ true = rw e at h in cc
      | inr (tag, e) ↦
          let same : tag ≡ r.header.tag = (str_eq_iff tag r.header.tag).0 (rw e at h) in
          build_hmac-hmac host mac_key r.header.prefix r.name r.ciphertext _ (e ∙ ap some same)
    ]

-- What open_frame has checked.
open_frame-inv :
    (host : Host) (enc_key dir : Bytes) (r : Received) (path plaintext : Bytes)
    → open_frame host enc_key dir r ≡ some (path, plaintext)
    → (aes_256_cbc_decrypt host.evp enc_key r.header.iv r.ciphertext ≡ some plaintext)
      × (path ≡ dir ++ (codes "/" ++ c_string r.name))
      × (contains b'/' (c_string r.name) ≡ false)
      × (strstr (codes "..") (c_string r.name) ≡ false)
unfolding open_frame safe_output_path
open_frame-inv host enc_key dir r path plaintext h =
    let name = c_string r.name in
    let full = dir ++ (codes "/" ++ name) in
    let (text, e, h₁) =
      >>=-eq-some (aes_256_cbc_decrypt host.evp enc_key r.header.iv r.ciphertext) _ h in
    let (p, e', h₂) = >>=-eq-some (safe_output_path dir name) _ h₁ in
    let (_, g₁, k₁) =
      >>=-eq-some (guard (not (contains b'/' name || strstr (codes "..") name))) _ e' in
    let (_, g₂, k₂) = >>=-eq-some (guard (ltb (length full) 1024)) _ k₁ in
    let pair : (p, text) ≡ (path, plaintext) = some_injective h₂ in
    let place : full ≡ p = some_injective k₂ in
    let (slash, parent) = neither _ _ (guard-true _ g₁) in
    (
      e ∙ ap some (ap (λ (x : Bytes × Bytes). x.1) pair),
      sym (place ∙ ap (λ (x : Bytes × Bytes). x.0) pair),
      slash,
      parent,
    )

store-Serves :
    (run : Run) (key_path dir enc_key mac_key : Bytes) (r : Received)
    → load_key_material run.host key_path ≡ some (enc_key, mac_key)
    → receive_frame run ≡ some r
    → authentic run.host mac_key r ≡ true
    → Serves run key_path dir (store run (open_frame run.host enc_key dir r))
store-Serves run key_path dir enc_key mac_key r keys got ok =
    elim (Option-cases (open_frame run.host enc_key dir r)) [
      | inl e ↦ rw e (rejected (λ h. omega (arith, h)))
      | inr ((path, plaintext), e) ↦
          let (d, p, slash, parent) = open_frame-inv run.host enc_key dir r path plaintext e in
          let authentic_frame : Authentic run key_path dir path plaintext = record {
            enc_key = enc_key;
            mac_key = mac_key;
            frame = r;
            keys = keys;
            received = got;
            tagged = authentic-hmac run.host mac_key r ok;
            decrypted = d;
            in_directory = p;
            no_slash = slash;
            no_parent = parent;
          } in
          rw e (
            saved authentic_frame (save_file_atomic-Saves run.calls path plaintext run.host.disk).0)
    ]

-- secure_server changes the disk only by the atomic save of a plaintext whose frame carries the right
-- tag under the key file's key, to a file directly in the directory, under a name with no slash
-- and no ".."; in every other case the disk stays as it was and the exit code is not 0.
pub serve-Serves :
    (run : Run) (key_path dir : Bytes) → Serves run key_path dir (serve run key_path dir)
unfolding serve
serve-Serves run key_path dir = elim (Option-cases (load_key_material run.host key_path)) [
  | inl e ↦ rw e (rejected (λ h. omega (arith, h)))
  | inr ((enc_key, mac_key), keys) ↦ elim (Option-cases (receive_frame run)) [
    | inl e ↦ rw (keys, e) (rejected (λ h. omega (arith, h)))
    | inr (r, got) ↦ elim (Bool-cases (authentic run.host mac_key r)) [
      | inr bad ↦ rw (keys, got, bad) (rejected (λ h. omega (arith, h)))
      | inl ok ↦ rw (keys, got, ok) (store-Serves run key_path dir enc_key mac_key r keys got ok)
    ]
  ]
]
