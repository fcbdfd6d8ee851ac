-- ===== src/Base/Arrays.antt =====
-- Arrays of a fixed size as functions of the slot, and sums over their slots.
use Prim.Native.Nat.{ℕ, zero, suc, ◌+◌, ◌≤◌, ◌<◌}
use mathlib.Core.Path.{◌≡◌, refl}
use mathlib.Core.Logic.{◌≢◌}
use native.Mathlib.Omega.{arith}
use native.Mathlib.Decide.{ℕ_discrete}
use go_maemmidb.Base.Tests.{◌==◌, if◌then◌else◌}

module _ {ℓ} {A : Type ℓ} where
  abbrev pub update : (ℕ → A) → ℕ → A → ℕ → A
  update f i v j = if i == j then v else f j

pub sum_below : ℕ → (ℕ → ℕ) → ℕ
sum_below zero f = 0
sum_below (suc n) f = sum_below n f + f n

pub sum_below_same :
    (n : ℕ) (f g : ℕ → ℕ) → ((i : ℕ) → i < n → f i ≡ g i) → sum_below n f ≡ sum_below n g
unfolding sum_below
sum_below_same zero f g h = refl
sum_below_same (suc n) f g h =
    omega (arith, sum_below_same n f g (λ i p. h i (omega arith)), h n (omega arith))

-- Two arrays that agree but at one slot.
pub sum_below_change :
    (n : ℕ) (f g : ℕ → ℕ) (i : ℕ)
    → ((j : ℕ) → j < n → i ≢ j → f j ≡ g j)
    → i < n
    → sum_below n f + g i ≡ sum_below n g + f i
unfolding sum_below
sum_below_change zero f g i h p = absurd (omega arith)
sum_below_change (suc n) f g i h p = elim (ℕ_discrete i n) [
  | yes e ↦ rw e (omega (arith, sum_below_same n f g (λ j q. h j (omega arith) (omega arith))))
  | no ne ↦ omega (
    arith,
    sum_below_change n f g i (λ j q. h j (omega arith)) (omega arith),
    h n (omega arith) ne,
  )
]

pub le-sum_below : (n : ℕ) (f : ℕ → ℕ) (i : ℕ) → i < n → f i ≤ sum_below n f
unfolding sum_below
le-sum_below zero f i p = absurd (omega arith)
le-sum_below (suc n) f i p = elim (ℕ_discrete i n) [
  | yes e ↦ rw e (omega arith)
  | no ne ↦ omega (arith, le-sum_below n f i (omega arith))
]

pub sum_below_zeros : (n : ℕ) (f : ℕ → ℕ) → ((i : ℕ) → i < n → f i ≡ 0) → sum_below n f ≡ 0
unfolding sum_below
sum_below_zeros zero f h = refl
sum_below_zeros (suc n) f h =
    omega (arith, sum_below_zeros n f (λ i p. h i (omega arith)), h n (omega arith))
