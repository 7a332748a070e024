-- ===== src/Server/Start/Lines.antt =====
-- load_users of Assignment2/server_real.c: the loop over the lines of the table of users.
use nss_i_assignments.Base.{
  ℕ, zero, suc, ◌+◌, ◌<◌, ◌≤◌, ◌≡◌, refl, sym, ◌∙◌, ◌⊎◌, inl, inr, Bool, true, false, none, some,
  List, [], ◌∷◌, ◌++◌, append-nil, append_assoc, ltb, Bytes, length, length-append, All, arith,
  Option-cases,
}
use nss_i_assignments.CString.{length-snprintf-lt}
use nss_i_assignments.Common.Crypto.{Evp, derive_long_term_key}
use nss_i_assignments.Server.State.{User}
use nss_i_assignments.Server.Start.{Loading, new_user, user_fields, load_lines}

-- The users that some lines give while there is room for `n`: lines without three fields count for
-- nothing, and those behind the last place are not read.
pub data Loads (evp : Evp) : ℕ → List Bytes → List User → Type 0 where
  full : (lines : List Bytes) → Loads evp 0 lines []
  done : (n : ℕ) → Loads evp n [] []
  skip :
      (n : ℕ) (line : Bytes) (lines : List Bytes) (us : List User)
      → user_fields line ≡ none
      → Loads evp (suc n) lines us
      → Loads evp (suc n) (line ∷ lines) us
  add :
      (n : ℕ) (line name password root key : Bytes) (lines : List Bytes) (us : List User)
      → user_fields line ≡ some (name, password, root)
      → derive_long_term_key evp name password ≡ some key
      → Loads evp n lines us
      → Loads evp (suc n) (line ∷ lines) (new_user name password root key ∷ us)

-- What the arrays of a user have room for.
pub record Fits (u : User) : Type 0 where
  pub name : length u.name < 32
  pub password : length u.password < 128
  pub root : length u.root < 256

pub new_user-Fits : (name password root key : Bytes) → Fits (new_user name password root key)
new_user-Fits name password root key = record {
  name = length-snprintf-lt 32 name (omega arith);
  password = length-snprintf-lt 128 password (omega arith);
  root = length-snprintf-lt 256 root (omega arith);
}

pub Loads-Fits :
    (evp : Evp) (n : ℕ) (lines : List Bytes) (us : List User)
    → Loads evp n lines us
    → All Fits us × (length us ≤ n)
Loads-Fits evp _ lines [] (full _) = (tt, omega arith)
Loads-Fits evp n _ [] (done _) = (tt, omega arith)
Loads-Fits evp _ _ us (skip n line lines _ e l) = Loads-Fits evp (suc n) lines us l
Loads-Fits evp _ _ _ (add n line name password root key lines us e k l) =
    let (fits, few) = Loads-Fits evp n lines us l in
    ((new_user-Fits name password root key, fits), omega (arith, few))

-- While there is room for `n`, a line comes up whose key cannot be derived.
pub data Stops (evp : Evp) : ℕ → List Bytes → Type 0 where
  here :
      (n : ℕ) (line name password root : Bytes) (lines : List Bytes)
      → user_fields line ≡ some (name, password, root)
      → derive_long_term_key evp name password ≡ none
      → Stops evp (suc n) (line ∷ lines)
  behind_skip :
      (n : ℕ) (line : Bytes) (lines : List Bytes)
      → user_fields line ≡ none
      → Stops evp (suc n) lines
      → Stops evp (suc n) (line ∷ lines)
  behind_add :
      (n : ℕ) (line name password root key : Bytes) (lines : List Bytes)
      → user_fields line ≡ some (name, password, root)
      → derive_long_term_key evp name password ≡ some key
      → Stops evp n lines
      → Stops evp (suc n) (line ∷ lines)

abbrev pub LoadsMore : Evp → ℕ → List Bytes → Loading → Bool × Loading → Type 0
LoadsMore evp n lines s r =
    ((r.0 ≡ true) × ((us : List User) × (r.1.users ≡ s.users ++ us) × Loads evp n lines us))
    ⊎ ((r.0 ≡ false) × Stops evp n lines)

pub load_lines-LoadsMore :
    (evp : Evp) (n : ℕ) (lines : List Bytes) (s : Loading)
    → length s.users + n ≡ 32
    → LoadsMore evp n lines s (load_lines evp lines s)
unfolding load_lines
load_lines-LoadsMore evp n [] s h = inl (refl, ([], sym (append-nil s.users), done n))
load_lines-LoadsMore evp zero (line ∷ lines) s h =
    let over : ltb (length s.users) 32 ≡ false = ground (arith, h) in
    rw over (inl (refl, ([], sym (append-nil s.users), full (line ∷ lines))))
load_lines-LoadsMore evp (suc n) (line ∷ lines) s h =
    let room : ltb (length s.users) 32 ≡ true = ground (arith, h) in
    elim (Option-cases (user_fields line)) [
      | inl e ↦
          rw (load_lines, room, e)
            (skipped_line (load_lines evp lines s) e (load_lines-LoadsMore evp (suc n) lines s h))
      | inr ((name, password, root), e) ↦
          elim (Option-cases (derive_long_term_key evp name password)) [
            | inl k ↦
                rw (load_lines, room, e, k) (inr (refl, here n line name password root lines e k))
            | inr (key, k) ↦
                let u : User = new_user name password root key in
                let next : Loading = record {
                  users = s.users ++ u ∷ [];
                  ensured = s.ensured ++ root ∷ [];
                } in
                rw (load_lines, room, e, k)
                  (added (load_lines evp lines next) name password root key e k (
                    load_lines-LoadsMore evp n lines next
                      (omega (arith, h, length-append s.users (u ∷ [])))))
          ]
    ]
  where
    skipped_line :
        (r : Bool × Loading)
        → user_fields line ≡ none
        → LoadsMore evp (suc n) lines s r
        → LoadsMore evp (suc n) (line ∷ lines) s r
    skipped_line r e (inl (t, (us, same, l))) = inl (t, (us, same, skip n line lines us e l))
    skipped_line r e (inr (f, l)) = inr (f, behind_skip n line lines e l)

    added :
        (r : Bool × Loading) (name password root key : Bytes)
        → user_fields line ≡ some (name, password, root)
        → derive_long_term_key evp name password ≡ some key
        → LoadsMore evp n lines
            (record {
              users = s.users ++ new_user name password root key ∷ [];
              ensured = s.ensured ++ root ∷ [];
            })
            r
        → LoadsMore evp (suc n) (line ∷ lines) s r
    added r name password root key e k (inl (t, (us, same, l))) = inl (
      t,
      (
        new_user name password root key ∷ us,
        same ∙ append_assoc s.users (new_user name password root key ∷ []) us,
        add n line name password root key lines us e k l,
      ),
    )
    added r name password root key e k (inr (f, l)) =
        inr (f, behind_add n line name password root key lines e k l)
