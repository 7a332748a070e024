-- ===== src/Tools/Options/Tokens.antt =====
-- splitOpts of Assignment1/option.c: its loops end.
use nss_i_assignments.Base.{
  ℕ, zero, suc, ◌<◌, ◌≡◌, ◌≢◌, refl, sym, ◌∙◌, ap, append_assoc, take, drop, inl, inr, some, List,
  [], ◌∷◌, ◌++◌, Bytes, codes, length, All, All-append, arith, Bool-cases, Option-cases,
}
use nss_i_assignments.CString.{contains, Free, strtok, concat_lines}
use nss_i_assignments.CString.Strtok.Tokens.{without, strtok-Takes, strtok-none}
use nss_i_assignments.Tools.Options.{tokens, split_opts}

-- A word is not empty and has no space in it.
pub record IsWord (t : Bytes) : Type 0 where
  pub some_byte : t ≢ []
  pub no_space : Free (codes " ") t

-- Words that together are a text without its spaces.
abbrev Spells : Bytes → List Bytes → Type 0
Spells text words = All IsWord words × (concat_lines words ≡ without (codes " ") text)

tokens-Spells :
    (f : ℕ) (s : Bytes)
    → length s < f
    → (words : List Bytes) × (tokens f s ≡ some words) × Spells s words
unfolding tokens
tokens-Spells zero s h = absurd (omega arith)
tokens-Spells (suc f) s h = elim (Option-cases (strtok (codes " ") s)) [
  | inl e ↦ ([], rw (e, tokens), (tt, sym (strtok-none (codes " ") s e)))
  | inr ((t, rest), e) ↦
      let takes = strtok-Takes (codes " ") s (t, rest) e in
      let (words, ran, (all, spelt)) = tokens-Spells f rest (omega (arith, takes.shorter)) in
      (
        t ∷ words,
        rw (e, tokens, ran),
        (
          (record { some_byte = takes.some_byte; no_space = takes.free }, all),
          ap (◌++◌ t) spelt ∙ sym takes.kept,
        ),
      )
]

concat_lines-append :
    (xs ys : List Bytes) → concat_lines (xs ++ ys) ≡ concat_lines xs ++ concat_lines ys
concat_lines-append [] ys = refl
concat_lines-append (x ∷ xs) ys = rw (concat_lines-append xs ys, append_assoc)

without-append : (ds s t : Bytes) → without ds (s ++ t) ≡ without ds s ++ without ds t
unfolding without
without-append ds [] t = refl
without-append ds (c ∷ s) t = elim (Bool-cases (contains c ds)) [
  | inl d ↦ rw d (without-append ds s t)
  | inr d ↦ rw d (ap (◌∷◌ c) (without-append ds s t))
]

-- The kept arguments, then the words of the others.
pub record Splits (args : List Bytes) (n : ℕ) (out : List Bytes) : Type 0 where
  pub words : List Bytes
  pub order : out ≡ take n args ++ words
  pub all_words : All IsWord words
  pub spelt : concat_lines words ≡ without (codes " ") (concat_lines (drop n args))

join-Splits :
    (arg : Bytes) (ts : List Bytes) (args out : List Bytes)
    → Spells arg ts
    → Splits args 0 out
    → Splits (arg ∷ args) 0 (ts ++ out)
join-Splits arg ts args out (all, spelt) s = record {
  words = ts ++ s.words;
  order = ap (◌++◌ ts) s.order;
  all_words = All-append IsWord ts s.words all s.all_words;
  spelt =
      concat_lines-append ts s.words
      ∙ rw (spelt, s.spelt) (sym (without-append (codes " ") arg (concat_lines args)));
}

-- splitOpts, whose loops always end: the arguments before `split_start` are kept, and behind them
-- stand words, which are not empty, have no space, and together are all of the other arguments but
-- their spaces.
pub split_opts-Splits :
    (args : List Bytes) (split_start : ℕ)
    → (out : List Bytes) × (split_opts args split_start ≡ some out) × Splits args split_start out
unfolding split_opts without
split_opts-Splits [] zero =
    ([], refl, record { words = []; order = refl; all_words = tt; spelt = refl })
split_opts-Splits [] (suc n) =
    ([], refl, record { words = []; order = refl; all_words = tt; spelt = refl })
split_opts-Splits (arg ∷ args) (suc n) =
    let (out, ran, s) = split_opts-Splits args n in
    (
      arg ∷ out,
      rw (split_opts, ran),
      record {
        words = s.words;
        order = ap (◌∷◌ arg) s.order;
        all_words = s.all_words;
        spelt = s.spelt;
      },
    )
split_opts-Splits (arg ∷ args) zero =
    let (out, ran, s) = split_opts-Splits args zero in
    let (ts, ran', t) = tokens-Spells (suc (length arg)) arg (omega arith) in
    (ts ++ out, rw (split_opts, ran', ran), join-Splits arg ts args out t s)
