-- ===== src/Base/Slots.antt =====
-- The loops over a table of slots: the first slot that passes a test, and how many do.
use Prim.Native.Nat.{ℕ, zero, suc, ◌+◌, ◌<◌}
use mathlib.Core.Path.{◌≡◌, refl, sym, ap}
use mathlib.Core.Bool.{Bool, true, false}
use nss_i_assignments.Base.Tests.{if◌then◌else◌, Bool-cases}
use mathlib.Core.Logic.{inl, inr}
use mathlib.Core.List.{List, [], ◌∷◌}
use mathlib.Core.Option.{Option, none, some}
use native.Mathlib.Omega.{arith}
use nss_i_assignments.Base.Lists.{length, take, All, get_elem?, set, replicate}

-- The first element that passes the test, with its index: the loop that ends by `break`.
abbrev shift {ℓ} : {A : Type ℓ} → Option (ℕ × A) → Option (ℕ × A)
shift none = none
shift (some (i, x)) = some (suc i, x)

none-ne-some {ℓ} : {A : Type ℓ} {x : A} → none ≡ some x → ⊥
none-ne-some e = cc

module _ {ℓ} {A : Type ℓ} where
  unfoldable pub find_slot : (A → Bool) → List A → Option (ℕ × A)
  find_slot p [] = none
  find_slot p (x ∷ xs) = if p x then some (0, x) else shift (find_slot p xs)

  -- How many elements pass the test.
  unfoldable pub count : (A → Bool) → List A → ℕ
  count p [] = 0
  count p (x ∷ xs) = (if p x then 1 else 0) + count p xs

  shift-none : (r : Option (ℕ × A)) → shift r ≡ none → r ≡ none
  shift-none none h = refl
  shift-none (some r) h = cc

  shift-some :
      (r : Option (ℕ × A)) {i : ℕ} {x : A}
      → shift r ≡ some (i, x)
      → (j : ℕ) × (i ≡ suc j) × (r ≡ some (j, x))
  shift-some none h = cc
  shift-some (some (j, y)) h = (j, ground arith, ground arith)

  some_pair :
      (i j : ℕ) (x y : A) → ◌≡◌ {A = Option (ℕ × A)} (some (i, x)) (some (j, y)) → (j ≡ i) × (x ≡ y)
  some_pair i j x y h = (ground arith, ground arith)

  pub find_slot-none : (p : A → Bool) (xs : List A) → find_slot p xs ≡ none → count p xs ≡ 0
  unfolding find_slot count
  find_slot-none p [] h = refl
  find_slot-none p (x ∷ xs) h = elim (Bool-cases (p x)) [
    | inl e ↦ absurd (none-ne-some (sym (rw e at h)))
    | inr e ↦ rw e (omega (arith, find_slot-none p xs (shift-none (find_slot p xs) (rw e at h))))
  ]

  pub find_slot-some :
      (p : A → Bool) (xs : List A) {i : ℕ} {x : A}
      → find_slot p xs ≡ some (i, x)
      → (i < length xs) × (get_elem? xs i ≡ some x) × (p x ≡ true)
  unfolding find_slot
  find_slot-some p [] h = cc
  find_slot-some p (y ∷ xs) {i} {x} h = elim (Bool-cases (p y)) [
    | inl e ↦
        let (first, same) = some_pair 0 i y x (rw e at h) in
        rw first (omega arith, ap some same, rw same at e)
    | inr e ↦
        let (j, at, r) = shift-some (find_slot p xs) (rw e at h) in
        let (lt, elem, test) = find_slot-some p xs r in rw at (omega arith, elem, test)
  ]

  -- The elements before it fail the test.
  pub find_slot-before :
      (p : A → Bool) (xs : List A) {i : ℕ} {x : A}
      → find_slot p xs ≡ some (i, x)
      → All (λ y. p y ≡ false) (take i xs)
  unfolding find_slot
  find_slot-before p [] h = cc
  find_slot-before p (y ∷ xs) {i} {x} h = elim (Bool-cases (p y)) [
    | inl e ↦ let (first, same) = some_pair 0 i y x (rw e at h) in rw first tt
    | inr e ↦
        let (j, at, r) = shift-some (find_slot p xs) (rw e at h) in
        rw at (e, find_slot-before p xs r)
  ]

  -- Writing one element trades its test for that of the new one.
  pub count-set :
      (p : A → Bool) (xs : List A) (i : ℕ) (x v : A)
      → get_elem? xs i ≡ some x
      → count p (set xs i v) + (if p x then 1 else 0) ≡ count p xs + (if p v then 1 else 0)
  unfolding count
  count-set p [] i x v h = cc
  count-set p (y ∷ xs) zero x v h = let e : y ≡ x = cc in rw (← e) (omega arith)
  count-set p (y ∷ xs) (suc i) x v h = omega (arith, count-set p xs i x v h)

  pub count-set_same :
      (p : A → Bool) (xs : List A) (i : ℕ) (x v : A)
      → get_elem? xs i ≡ some x
      → p v ≡ p x
      → count p (set xs i v) ≡ count p xs
  count-set_same p xs i x v h same = omega (arith, rw same at (count-set p xs i x v h))

  pub count-replicate : (p : A → Bool) (n : ℕ) (a : A) → p a ≡ false → count p (replicate n a) ≡ 0
  unfolding count
  count-replicate p zero a h = refl
  count-replicate p (suc n) a h = rw h (omega (arith, count-replicate p n a h))

  pub get_elem?-lt : (xs : List A) (i : ℕ) (x : A) → get_elem? xs i ≡ some x → i < length xs
  get_elem?-lt [] i x e = absurd (none-ne-some e)
  get_elem?-lt (y ∷ xs) zero x e = omega arith
  get_elem?-lt (y ∷ xs) (suc i) x e = omega (arith, get_elem?-lt xs i x e)

  -- A write over the first element that passes, by one that passes too.
  pub find_slot-set_found :
      (p : A → Bool) (xs : List A) (i : ℕ) (x v : A)
      → find_slot p xs ≡ some (i, x)
      → p v ≡ true
      → find_slot p (set xs i v) ≡ some (i, v)
  unfolding find_slot
  find_slot-set_found p [] i x v h e = cc
  find_slot-set_found p (y ∷ xs) i x v h e = elim (Bool-cases (p y)) [
    | inl here ↦ let (first, same) = some_pair 0 i y x (rw here at h) in rw (first, e) refl
    | inr there ↦
        let (j, at, r) = shift-some (find_slot p xs) (rw there at h) in
        rw at (rw (there, find_slot-set_found p xs j x v r e) refl)
  ]
