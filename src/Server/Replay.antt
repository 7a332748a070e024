-- ===== src/Server/Replay.antt =====
-- replay_seen_or_add of Assignment2/server_real.c: the ring of the nonces seen last.
pub mod Window
use nss_i_assignments.Base.{
  ℕ, ◌+◌, ◌%◌, ◌≡◌, Bool, true, false, not, ◌&&◌, ◌||◌, List, [], ◌∷◌, if◌then◌else◌, Bytes, set,
}
use nss_i_assignments.CString.{str_eq, snprintf}
use nss_i_assignments.Server.State.{ReplayEntry, Server, max_replay}

abbrev is_empty : Bytes → Bool
is_empty [] = true
is_empty (c ∷ s) = false

-- The loop over the ring.
unfoldable pub nonce_seen : Bytes → List ReplayEntry → Bool
nonce_seen nonce [] = false
nonce_seen nonce (e ∷ es) = not (is_empty e.value) && str_eq e.value nonce || nonce_seen nonce es

-- `char value[128]`
abbrev pub nonce_max : ℕ
nonce_max = 128

-- The write over the oldest entry.
unfoldable pub record_nonce : Bytes → ℕ → Server → Server
record_nonce nonce now s = record s {
  replays = set s.replays s.replay_next (record { value = snprintf nonce_max nonce; seen = now });
  replay_next = (s.replay_next + 1) % max_replay;
}

unfoldable pub replay_seen_or_add : Bytes → ℕ → Server → Bool × Server
unfolding nonce_seen record_nonce
replay_seen_or_add nonce now s =
    if nonce_seen nonce s.replays then (true, s) else (false, record_nonce nonce now s)
