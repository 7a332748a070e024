-- ===== src/Server/Login/Once.antt =====
-- kdc_client_thread of Assignment2/server_real.c, called again with a request that has come before.
use nss_i_assignments.Base.{
  ℕ, ◌≤◌, ◌<◌, ◌≡◌, ◌≢◌, refl, ◌∙◌, ap, Bool, true, false, some, List, [], ◌∷◌, Bytes, codes,
  length, Bool-cases, inl, inr,
}
use nss_i_assignments.CString.{c_string}
use nss_i_assignments.Common.Io.{trim_newline}
use nss_i_assignments.Common.Crypto.{Evp}
use nss_i_assignments.Server.State.{User, Server, Sent, find_user, send}
use nss_i_assignments.Server.Replay.{nonce_seen, replay_seen_or_add, nonce_max}
use nss_i_assignments.Server.Replay.Window.{IsRing, replay_all, replay_seen_or_add-refuses}
use nss_i_assignments.Server.Login.{Draws, auth_words, after_replay, kdc_client}

-- What recording a nonce leaves as it is.
replay_seen_or_add-users :
    (nonce : Bytes) (now : ℕ) (s : Server) → (replay_seen_or_add nonce now s).1.users ≡ s.users
unfolding replay_seen_or_add
replay_seen_or_add-users nonce now s = elim (Bool-cases (nonce_seen nonce s.replays)) [
  | inl e ↦ rw e refl
  | inr e ↦ rw e refl
]

replay_all-users : (calls : List (Bytes × ℕ)) (s : Server) → (replay_all calls s).users ≡ s.users
unfolding replay_all
replay_all-users [] s = refl
replay_all-users ((nonce, now) ∷ calls) s =
    replay_all-users calls _ ∙ replay_seen_or_add-users nonce now s

-- The thread, for a known user.
kdc_client-known :
    (evp : Evp) (draws : Draws) (fd c : ℕ) (line user nonce timestamp hmac_hex : Bytes) (s : Server)
    (i : ℕ) (u : User)
    → auth_words (trim_newline (c_string (c ∷ line))) ≡ some (user, nonce, timestamp, hmac_hex)
    → find_user user s.users ≡ some (i, u)
    → kdc_client evp draws fd (some (c ∷ line)) s
      ≡ after_replay evp draws fd u user nonce timestamp hmac_hex
          (replay_seen_or_add nonce draws.recorded_at s)
unfolding kdc_client
kdc_client-known evp draws fd c line user nonce timestamp hmac_hex s i u words known =
    rw (words, known) refl

-- The state does not depend on the answer.
after_replay-state :
    (evp : Evp) (draws : Draws) (fd : ℕ) (u : User) (user nonce timestamp hmac_hex : Bytes)
    (r : Bool × Server)
    → (after_replay evp draws fd u user nonce timestamp hmac_hex r).0 ≡ r.1
after_replay-state evp draws fd u user nonce timestamp hmac_hex (true, t) = refl
after_replay-state evp draws fd u user nonce timestamp hmac_hex (false, t) = refl

-- Where the ring keeps its invariant, a request of a known user whose nonce is new, and has 1 to
-- 127 bytes, is answered with an error and changes nothing when the same line comes again, on any
-- connection, with at most 127 calls of replay_seen_or_add in between, whatever nonces those have.
pub kdc_client-once :
    (evp : Evp) (draws later : Draws) (fd fd' c : ℕ) (line user nonce timestamp hmac_hex : Bytes)
    (calls : List (Bytes × ℕ)) (s : Server) (i : ℕ) (u : User)
    → IsRing s
    → auth_words (trim_newline (c_string (c ∷ line))) ≡ some (user, nonce, timestamp, hmac_hex)
    → find_user user s.users ≡ some (i, u)
    → nonce ≢ []
    → length nonce < nonce_max
    → (replay_seen_or_add nonce draws.recorded_at s).0 ≡ false
    → length calls ≤ 127
    → kdc_client evp later fd'
        (some (c ∷ line))
        (replay_all calls (kdc_client evp draws fd (some (c ∷ line)) s).0)
      ≡ (
        replay_all calls (kdc_client evp draws fd (some (c ∷ line)) s).0,
        send fd' (codes "ERR authentication-failed\n"),
      )
kdc_client-once evp draws later fd fd' c line user nonce timestamp hmac_hex calls s i u ring words
      known some_nonce short fresh few =
    rw first (
      kdc_client-known evp later fd' c line user nonce timestamp hmac_hex t i u words still_known
      ∙ ap (after_replay evp later fd' u user nonce timestamp hmac_hex) (
          replay_seen_or_add-refuses nonce draws.recorded_at later.recorded_at calls s ring
            some_nonce short fresh few))
  where
    t : Server
    t = replay_all calls (replay_seen_or_add nonce draws.recorded_at s).1

    first :
        (kdc_client evp draws fd (some (c ∷ line)) s).0
        ≡ (replay_seen_or_add nonce draws.recorded_at s).1
    first =
        ap (λ (r : Server × List Sent). r.0)
          (kdc_client-known evp draws fd c line user nonce timestamp hmac_hex s i u words known)
        ∙ after_replay-state evp draws fd u user nonce timestamp hmac_hex
            (replay_seen_or_add nonce draws.recorded_at s)

    still_known : find_user user t.users ≡ some (i, u)
    still_known =
        ap (find_user user) (
          replay_all-users calls (replay_seen_or_add nonce draws.recorded_at s).1
          ∙ replay_seen_or_add-users nonce draws.recorded_at s)
        ∙ known
