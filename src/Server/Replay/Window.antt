-- ===== src/Server/Replay/Window.antt =====
-- The ring of nonces of Assignment2/server_real.c, over calls of replay_seen_or_add.
use nss_i_assignments.Base.{
  ℕ, zero, suc, ◌+◌, ◌≤◌, ◌<◌, ◌≡◌, ◌≢◌, refl, ◌∙◌, ◌⊎◌, inl, inr, true, false, some, List, [], ◌∷◌,
  Bytes, length, length-set, get_elem?, get_elem?-set_self, get_elem?-set_ne, All, All-set, arith,
  Bool-cases,
}
use nss_i_assignments.CString.{
  str_eq_self, str_eq-false, snprintf, snprintf-fits, length-snprintf-lt,
}
use nss_i_assignments.Server.State.{ReplayEntry, Server, max_replay}
use nss_i_assignments.Server.Replay.{nonce_seen, record_nonce, nonce_max, replay_seen_or_add}

true≢false : true ≡ false → ⊥
true≢false e = cc

-- The ring has its size, the next place is in it, and each value is a string in its array.
pub record IsRing (s : Server) : Type 0 where
  pub full_size : length s.replays ≡ max_replay
  pub next_inside : s.replay_next < max_replay
  pub values_fit : All (λ e. length e.value < nonce_max) s.replays

pub record_nonce-IsRing :
    (nonce : Bytes) (now : ℕ) (s : Server) → IsRing s → IsRing (record_nonce nonce now s)
unfolding record_nonce
record_nonce-IsRing nonce now s r = record {
  full_size = length-set s.replays s.replay_next _ ∙ r.full_size;
  next_inside = omega arith;
  values_fit =
      All-set _ s.replays s.replay_next _ r.values_fit
        (length-snprintf-lt nonce_max nonce (omega arith));
}

pub replay_seen_or_add-IsRing :
    (nonce : Bytes) (now : ℕ) (s : Server) → IsRing s → IsRing (replay_seen_or_add nonce now s).1
unfolding replay_seen_or_add
replay_seen_or_add-IsRing nonce now s r = elim (Bool-cases (nonce_seen nonce s.replays)) [
  | inl e ↦ rw e r
  | inr e ↦ rw e (record_nonce-IsRing nonce now s r)
]

-- Entry `i` holds the nonce, and `left` more nonces can be recorded before it is written over.
record Holds (nonce : Bytes) (i left : ℕ) (s : Server) : Type 0 where
  next_inside : s.replay_next < max_replay
  inside : i < max_replay
  kept : (entry : ReplayEntry) × (get_elem? s.replays i ≡ some entry) × (entry.value ≡ nonce)
  distance :
      (s.replay_next + left ≤ i) ⊎ ((i < s.replay_next) × (s.replay_next + left ≤ i + max_replay))

nonce_seen-get_elem? :
    (nonce : Bytes) (es : List ReplayEntry) (i : ℕ) (entry : ReplayEntry)
    → nonce ≢ []
    → get_elem? es i ≡ some entry
    → entry.value ≡ nonce
    → nonce_seen nonce es ≡ true
unfolding nonce_seen
nonce_seen-get_elem? nonce [] i entry ne e v = cc
nonce_seen-get_elem? nonce (x ∷ es) zero entry ne e v = ground (arith, str_eq_self nonce)
nonce_seen-get_elem? nonce (x ∷ es) (suc i) entry ne e v =
    ground (arith, nonce_seen-get_elem? nonce es i entry ne e v)

Holds-seen :
    {nonce : Bytes} {i left : ℕ} {s : Server}
    → nonce ≢ []
    → Holds nonce i left s
    → nonce_seen nonce s.replays ≡ true
Holds-seen {nonce} {i} {left} {s} ne h =
    let (entry, e, v) = h.kept in nonce_seen-get_elem? nonce s.replays i entry ne e v

record_nonce-Holds :
    (nonce other : Bytes) (i left now : ℕ) (s : Server)
    → Holds nonce i (suc left) s
    → Holds nonce i left (record_nonce other now s)
unfolding record_nonce
record_nonce-Holds nonce other i left now s h =
    let (entry, e, v) = h.kept in
    let apart : s.replay_next ≢ i = ground arith in
    record {
      next_inside = omega arith;
      inside = h.inside;
      kept = (entry, get_elem?-set_ne s.replays s.replay_next i _ apart ∙ e, v);
      distance = ground arith;
    }

weaken :
    {nonce : Bytes} {i left : ℕ} {s : Server} → Holds nonce i (suc left) s → Holds nonce i left s
weaken h = record {
  next_inside = h.next_inside;
  inside = h.inside;
  kept = h.kept;
  distance = ground arith;
}

replay_seen_or_add-Holds :
    (nonce other : Bytes) (i left now : ℕ) (s : Server)
    → Holds nonce i (suc left) s
    → Holds nonce i left (replay_seen_or_add other now s).1
unfolding replay_seen_or_add
replay_seen_or_add-Holds nonce other i left now s h =
    elim (Bool-cases (nonce_seen other s.replays)) [
      | inl e ↦ rw e (weaken h)
      | inr e ↦ rw e (record_nonce-Holds nonce other i left now s h)
    ]

-- The calls made by all threads, in the order in which they get the lock.
unfoldable pub replay_all : List (Bytes × ℕ) → Server → Server
replay_all [] s = s
replay_all ((nonce, now) ∷ calls) s = replay_all calls (replay_seen_or_add nonce now s).1

replay_all-Holds :
    (nonce : Bytes) (i left : ℕ) (calls : List (Bytes × ℕ)) (s : Server)
    → length calls ≤ left
    → Holds nonce i left s
    → Holds nonce i 0 (replay_all calls s)
unfolding replay_all
replay_all-Holds nonce i left [] s h k = record {
  next_inside = k.next_inside;
  inside = k.inside;
  kept = k.kept;
  distance = ground arith;
}
replay_all-Holds nonce i zero (c ∷ calls) s h k = absurd (omega arith)
replay_all-Holds nonce i (suc left) ((other, now) ∷ calls) s h k =
    replay_all-Holds nonce i left calls _ (omega arith)
      (replay_seen_or_add-Holds nonce other i left now s k)

record_nonce-fresh :
    (nonce : Bytes) (now : ℕ) (s : Server)
    → length nonce < nonce_max
    → IsRing s
    → Holds nonce s.replay_next 127 (record_nonce nonce now s)
unfolding record_nonce
record_nonce-fresh nonce now s short r = record {
  next_inside = omega arith;
  inside = r.next_inside;
  kept = (
    record { value = snprintf nonce_max nonce; seen = now },
    get_elem?-set_self s.replays s.replay_next _ (omega (arith, r.full_size, r.next_inside)),
    snprintf-fits nonce_max nonce short,
  );
  distance = ground (arith, r.next_inside);
}

replay_all-IsRing : (calls : List (Bytes × ℕ)) (s : Server) → IsRing s → IsRing (replay_all calls s)
unfolding replay_all
replay_all-IsRing [] s r = r
replay_all-IsRing ((nonce, now) ∷ calls) s r =
    replay_all-IsRing calls _ (replay_seen_or_add-IsRing nonce now s r)

passed-record_nonce :
    (nonce : Bytes) (now : ℕ) (s : Server)
    → (replay_seen_or_add nonce now s).0 ≡ false
    → (replay_seen_or_add nonce now s).1 ≡ record_nonce nonce now s
unfolding replay_seen_or_add
passed-record_nonce nonce now s h = elim (Bool-cases (nonce_seen nonce s.replays)) [
  | inl e ↦ absurd (true≢false (rw e at h))
  | inr e ↦ rw e
]

-- Where the ring keeps its invariant, a nonce of 1 to 127 bytes that replay_seen_or_add has let
-- pass is refused at every later call that has at most 127 calls between, whatever nonces those
-- have, and that call changes nothing.
pub replay_seen_or_add-refuses :
    (nonce : Bytes) (now later : ℕ) (calls : List (Bytes × ℕ)) (s : Server)
    → IsRing s
    → nonce ≢ []
    → length nonce < nonce_max
    → (replay_seen_or_add nonce now s).0 ≡ false
    → length calls ≤ 127
    → replay_seen_or_add nonce later (replay_all calls (replay_seen_or_add nonce now s).1)
      ≡ (true, replay_all calls (replay_seen_or_add nonce now s).1)
replay_seen_or_add-refuses nonce now later calls s r ne short passed few =
    refuse _ (Holds-seen ne (replay_all-Holds nonce s.replay_next 127 calls _ few held))
  where
    refuse :
        (t : Server)
        → nonce_seen nonce t.replays ≡ true
        → replay_seen_or_add nonce later t ≡ (true, t)
    refuse t e = unfold replay_seen_or_add in rw e

    held : Holds nonce s.replay_next 127 (replay_seen_or_add nonce now s).1
    held = rw (passed-record_nonce nonce now s passed) (record_nonce-fresh nonce now s short r)

nonce_seen_long :
    (nonce : Bytes) (es : List ReplayEntry)
    → nonce_max ≤ length nonce
    → All (λ e. length e.value < nonce_max) es
    → nonce_seen nonce es ≡ false
unfolding nonce_seen
nonce_seen_long nonce [] h all = refl
nonce_seen_long nonce (e ∷ es) h all =
    rw (str_eq-false e.value nonce (omega (arith, all.0)), nonce_seen_long nonce es h all.1)
      (ground arith)

-- Where the ring keeps its invariant, a nonce of 128 bytes or more passes at every call, also
-- right after it was recorded: the ring keeps its first 127 bytes, which never equal the whole.
pub replay_seen_or_add_long :
    (nonce : Bytes) (now later : ℕ) (calls : List (Bytes × ℕ)) (s : Server)
    → IsRing s
    → nonce_max ≤ length nonce
    → (replay_seen_or_add nonce later (replay_all calls (replay_seen_or_add nonce now s).1)).0
      ≡ false
replay_seen_or_add_long nonce now later calls s r h =
    passes _ (replay_all-IsRing calls _ (replay_seen_or_add-IsRing nonce now s r))
  where
    passes : (t : Server) → IsRing t → (replay_seen_or_add nonce later t).0 ≡ false
    passes t k = unfold replay_seen_or_add in rw (nonce_seen_long nonce t.replays h k.values_fit)
