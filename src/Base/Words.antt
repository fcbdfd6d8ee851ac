-- ===== src/Base/Words.antt =====
-- 64-bit words as their bits, and lists that are indexed by a population count.
-- A word is the function from a bit's position to the bit; positions from 64 on are never read.
use go_maemmidb.Base.Tests.{ltb, if◌then◌else◌}
use go_maemmidb.Base.Lists.{length, get_elem?}
use go_maemmidb.Base.Arrays.{update}
use Prim.Native.Nat.{ℕ, zero, suc, ◌+◌, ◌≤◌, ◌<◌}
use mathlib.Core.Path.{◌≡◌, refl}
use mathlib.Core.Bool.{Bool, true, false, not, ◌&&◌}
use mathlib.Core.List.{List, [], ◌∷◌}
use mathlib.Core.Option.{some}
use native.Mathlib.Omega.{arith}
use native.Mathlib.Decide.{ℕ_discrete}

abbrev pub Word : Type 0
Word = ℕ → Bool

abbrev pub to_nat : Bool → ℕ
to_nat true = 1
to_nat false = 0

-- The word with no bit.
abbrev pub zero_word : Word
zero_word i = false

-- `w | 1<<i` and `w &^ 1<<i`
abbrev pub set_bit : Word → ℕ → Word
set_bit w i = update w i true

abbrev pub clear_bit : Word → ℕ → Word
clear_bit w i = update w i false

-- `bits.OnesCount64(w & (1<<n - 1))`
unfoldable pub ones_below : ℕ → Word → ℕ
ones_below zero w = 0
ones_below (suc n) w = ones_below n w + to_nat (w n)

-- Two words agree on their first bits.
unfoldable pub same_below : ℕ → Word → Word → Bool
same_below zero v w = true
same_below (suc n) v w = same_below n v w && (if v n then w n else not (w n))

-- `bits.TrailingZeros64(w)`: the position of the lowest bit among `n`, from position `i` on.
unfoldable pub lowest_from : ℕ → ℕ → Word → ℕ
lowest_from zero i w = i
lowest_from (suc n) i w = let later = lowest_from n (suc i) w in if w i then i else later

abbrev pub trailing_zeros : Word → ℕ
trailing_zeros w = lowest_from 64 0 w

pub ones_below_mono : (m n : ℕ) (w : Word) → m ≤ n → ones_below m w ≤ ones_below n w
unfolding ones_below
ones_below_mono m zero w p = elim (ℕ_discrete m 0) [
  | yes e ↦ rw e (omega arith)
  | no ne ↦ absurd (omega arith)
]
ones_below_mono m (suc n) w p = elim (ℕ_discrete m (suc n)) [
  | yes e ↦ rw e (omega arith)
  | no ne ↦ omega (arith, ones_below_mono m n w (omega arith))
]

ones_below-suc : (m : ℕ) (w : Word) → w m ≡ true → ones_below (suc m) w ≡ ones_below m w + 1
unfolding ones_below
ones_below-suc m w e = rw e

-- A bit that is set is counted.
pub ones_below-lt : (m n : ℕ) (w : Word) → m < n → w m ≡ true → ones_below m w < ones_below n w
ones_below-lt m n w p e =
    let next : ones_below (suc m) w ≡ ones_below m w + 1 = ones_below-suc m w e in
    omega (arith, ones_below_mono (suc m) n w p)

pub same_below-eq : (n : ℕ) (v w : Word) → same_below n v w ≡ true → (i : ℕ) → i < n → v i ≡ w i
unfolding same_below
same_below-eq zero v w e i p = absurd (omega arith)
same_below-eq (suc n) v w e i p = elim (ℕ_discrete i n) [
  | yes q ↦ rw q (ground arith)
  | no q ↦ same_below-eq n v w (ground arith) i (omega arith)
]

pub ones_below_same :
    (n : ℕ) (v w : Word) → ((i : ℕ) → i < n → v i ≡ w i) → ones_below n v ≡ ones_below n w
unfolding ones_below
ones_below_same zero v w h = refl
ones_below_same (suc n) v w h =
    rw (ones_below_same n v w (λ i p. h i (omega arith)), h n (omega arith))

pub ones_below_zero : (n : ℕ) → ones_below n zero_word ≡ 0
unfolding ones_below
ones_below_zero zero = refl
ones_below_zero (suc n) = omega (arith, ones_below_zero n)

-- Setting a bit moves the counts above it by one.
pub ones_below-set :
    (n i : ℕ) (w : Word)
    → w i ≡ false
    → ones_below n (set_bit w i) ≡ ones_below n w + to_nat (ltb i n)
unfolding ones_below
ones_below-set zero i w e = ground arith
ones_below-set (suc n) i w e = ground (arith, ones_below-set n i w e)

-- Clearing a bit moves them back.
pub ones_below-clear :
    (n i : ℕ) (w : Word)
    → w i ≡ true
    → ones_below n (clear_bit w i) + to_nat (ltb i n) ≡ ones_below n w
unfolding ones_below
ones_below-clear zero i w e = ground arith
ones_below-clear (suc n) i w e = ground (arith, ones_below-clear n i w e)

module _ {ℓ} {A : Type ℓ} where
  -- `append(xs, nil); copy(xs[i+1:], xs[i:]); xs[i] = v`
  unfoldable pub insert_at : List A → ℕ → A → List A
  insert_at xs zero v = v ∷ xs
  insert_at [] (suc i) v = v ∷ []
  insert_at (x ∷ xs) (suc i) v = x ∷ insert_at xs i v

  -- `copy(xs[i:], xs[i+1:]); xs = xs[:len(xs)-1]`
  unfoldable pub remove_at : List A → ℕ → List A
  remove_at [] i = []
  remove_at (x ∷ xs) zero = xs
  remove_at (x ∷ xs) (suc i) = x ∷ remove_at xs i

  pub length-insert_at : (xs : List A) (i : ℕ) (v : A) → length (insert_at xs i v) ≡ length xs + 1
  unfolding insert_at
  length-insert_at [] zero v = omega arith
  length-insert_at (x ∷ xs) zero v = omega arith
  length-insert_at [] (suc i) v = omega arith
  length-insert_at (x ∷ xs) (suc i) v = omega (arith, length-insert_at xs i v)

  pub length-remove_at :
      (xs : List A) (i : ℕ) → i < length xs → length (remove_at xs i) + 1 ≡ length xs
  unfolding remove_at
  length-remove_at [] i p = absurd (omega arith)
  length-remove_at (x ∷ xs) zero p = omega arith
  length-remove_at (x ∷ xs) (suc i) p = omega (arith, length-remove_at xs i (omega arith))

  pub get_elem?-insert_self :
      (xs : List A) (i : ℕ) (v : A) → i ≤ length xs → get_elem? (insert_at xs i v) i ≡ some v
  unfolding insert_at
  get_elem?-insert_self [] zero v p = refl
  get_elem?-insert_self (x ∷ xs) zero v p = refl
  get_elem?-insert_self [] (suc i) v p = absurd (omega arith)
  get_elem?-insert_self (x ∷ xs) (suc i) v p = get_elem?-insert_self xs i v (omega arith)

  pub get_elem?-insert_below :
      (xs : List A) (i j : ℕ) (v : A)
      → j < i
      → i ≤ length xs
      → get_elem? (insert_at xs i v) j ≡ get_elem? xs j
  unfolding insert_at
  get_elem?-insert_below xs zero j v p q = absurd (omega arith)
  get_elem?-insert_below [] (suc i) j v p q = absurd (omega arith)
  get_elem?-insert_below (x ∷ xs) (suc i) zero v p q = refl
  get_elem?-insert_below (x ∷ xs) (suc i) (suc j) v p q =
      get_elem?-insert_below xs i j v (omega arith) (omega arith)

  pub get_elem?-insert_above :
      (xs : List A) (i j : ℕ) (v : A)
      → i ≤ j
      → get_elem? (insert_at xs i v) (suc j) ≡ get_elem? xs j
  unfolding insert_at
  get_elem?-insert_above [] zero j v p = refl
  get_elem?-insert_above (x ∷ xs) zero j v p = refl
  get_elem?-insert_above [] (suc i) zero v p = refl
  get_elem?-insert_above [] (suc i) (suc j) v p = refl
  get_elem?-insert_above (x ∷ xs) (suc i) zero v p = absurd (omega arith)
  get_elem?-insert_above (x ∷ xs) (suc i) (suc j) v p =
      get_elem?-insert_above xs i j v (omega arith)

  pub get_elem?-remove_below :
      (xs : List A) (i j : ℕ) → j < i → get_elem? (remove_at xs i) j ≡ get_elem? xs j
  unfolding remove_at
  get_elem?-remove_below [] i j p = refl
  get_elem?-remove_below (x ∷ xs) zero j p = absurd (omega arith)
  get_elem?-remove_below (x ∷ xs) (suc i) zero p = refl
  get_elem?-remove_below (x ∷ xs) (suc i) (suc j) p = get_elem?-remove_below xs i j (omega arith)

  pub get_elem?-remove_above :
      (xs : List A) (i j : ℕ) → i ≤ j → get_elem? (remove_at xs i) j ≡ get_elem? xs (suc j)
  unfolding remove_at
  get_elem?-remove_above [] i j p = refl
  get_elem?-remove_above (x ∷ xs) zero j p = refl
  get_elem?-remove_above (x ∷ xs) (suc i) zero p = absurd (omega arith)
  get_elem?-remove_above (x ∷ xs) (suc i) (suc j) p = get_elem?-remove_above xs i j (omega arith)

  pub get_elem?-some : (xs : List A) (i : ℕ) → i < length xs → (a : A) × (get_elem? xs i ≡ some a)
  get_elem?-some [] i p = absurd (omega arith)
  get_elem?-some (x ∷ xs) zero p = (x, refl)
  get_elem?-some (x ∷ xs) (suc i) p = get_elem?-some xs i (omega arith)
