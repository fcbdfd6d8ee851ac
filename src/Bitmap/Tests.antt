-- ===== src/Bitmap/Tests.antt =====
-- Runs of bitmap.go and ops.go on small sets.
use go_maemmidb.Base.{
  ℕ, ◌+◌, to_nat, ◌≡◌, ◌<◌, ◌^◌, refl, arith, Bool, true, false, ◌&&◌, ◌||◌, not, Option, some,
  ◌>>=◌,
}
use go_maemmidb.Bitmap.{Node, Bitmap, empty, len, has, set, clear, min}
use go_maemmidb.Bitmap.Height.{contains, IsShapedBitmap}
use go_maemmidb.Bitmap.Laws.{Inserts, set-Inserts, contains-set}
use go_maemmidb.Bitmap.Counting.{IsCountedBitmap, len-set}
use go_maemmidb.Bitmap.Removing.{contains-clear}
use go_maemmidb.Bitmap.Least.{IsLeast, min-IsLeast}
use go_maemmidb.Bitmap.Low.{IsLow, set-IsLow}
use go_maemmidb.Bitmap.Ops.{and, or, and_not}
use go_maemmidb.Bitmap.Ops.Slots.{IsIdentity}
use go_maemmidb.Bitmap.Ops.Levels.{empty-shaped}
use go_maemmidb.Base.{◌==◌, ◌||◌, ◌&&◌, not}
use go_maemmidb.Bitmap.Cardinal.{Sets, set-Sets, empty-IsSound}
use go_maemmidb.Bitmap.Ops.Filled.{IsFilledBitmap, IsSound-IsFilledBitmap}
use go_maemmidb.Bitmap.Runs.{Edit, insertion, removal, run_edits, meant, run_edits-meant}
use go_maemmidb.Base.{List, [], ◌∷◌, ones_below}
use go_maemmidb.Bitmap.Ops.Laws.{contains-and, contains-or, contains-and_not}

-- The sets {5} and {5, 20000}; the second is a directory level taller.
first_insert : (c : Bitmap) × Inserts empty 5 c
first_insert = set-Inserts empty 5 empty-shaped (omega arith)

abbrev low_set : Bitmap
low_set = first_insert.0

low_set-shaped : IsShapedBitmap low_set
low_set-shaped = first_insert.1.shaped

contains-set_example :
    (c : Bitmap) × (set low_set 20000 ≡ some (c, not (contains low_set 20000)))
    × IsShapedBitmap c
    × (contains c 5 ≡ (20000 == 5 || contains low_set 5))
contains-set_example = contains-set low_set 20000 5 low_set-shaped (omega arith) (omega arith)

second_insert : (c : Bitmap) × Inserts low_set 20000 c
second_insert = set-Inserts low_set 20000 low_set-shaped (omega arith)

abbrev tall_set : Bitmap
tall_set = second_insert.0

tall_set-shaped : IsShapedBitmap tall_set
tall_set-shaped = second_insert.1.shaped

-- No two pointers are one.
abbrev distinct : (h : ℕ) → Node h → Node h → Bool
distinct h a b = false

distinct-IsIdentity : IsIdentity distinct
distinct-IsIdentity h a b e = cc

contains-and_example :
    (c : Bitmap) × (and distinct low_set tall_set ≡ some c)
    × IsShapedBitmap c
    × (contains c 5 ≡ (contains low_set 5 && contains tall_set 5))
contains-and_example =
    contains-and distinct distinct-IsIdentity low_set tall_set 5 low_set-shaped tall_set-shaped
      (omega arith)

-- The sets {7} and {7, 20000}, with counts that are right.
seven : (c : Bitmap) × Sets empty 7 c
unfolding len
seven = set-Sets empty 7 empty-IsSound (omega arith) (omega arith)

len-empty : len empty ≡ 0
unfolding len
len-empty = refl

seven_room : len seven.0 + 1 < 2 ^ 32
seven_room = ground (arith, seven.1.more, len-empty)

both : (c : Bitmap) × Sets seven.0 20000 c
both = set-Sets seven.0 20000 seven.1.sound (omega arith) seven_room

contains-or_example :
    (c : Bitmap) × (or distinct seven.0 both.0 ≡ some c)
    × IsShapedBitmap c
    × IsFilledBitmap c
    × (contains c 7 ≡ (contains seven.0 7 || contains both.0 7))
contains-or_example =
    contains-or distinct distinct-IsIdentity seven.0 both.0 7 seven.1.sound.shaped
      both.1.sound.shaped (IsSound-IsFilledBitmap seven.0 seven.1.sound)
      (IsSound-IsFilledBitmap both.0 both.1.sound) (omega arith)

contains-and_not_example :
    (c : Bitmap) × (and_not distinct tall_set low_set ≡ some c)
    × IsShapedBitmap c
    × (contains c 5 ≡ (contains tall_set 5 && not (contains low_set 5)))
contains-and_not_example =
    contains-and_not distinct distinct-IsIdentity tall_set low_set 5 tall_set-shaped low_set-shaped
      (omega arith)

-- A run: set 5 and 20000, clear 20000, then ask for both and for the length.
abbrev ran : Option (Option Bool × (Option Bool × ℕ))
ran = set empty 5 >>= λ a.
    set a.0 20000 >>= λ b. clear b.0 20000 >>= λ c. some (has c.0 5, (has c.0 20000, len c.0))

ran_value : ran ≡ some (some true, (some false, 1))
unfolding set clear has len
ran_value = refl

abbrev lowest : Option (Option ℕ)
lowest = set empty 20000 >>= λ a. set a.0 1000 >>= λ b. min b.0

lowest_value : lowest ≡ some (some 1000)
unfolding set min
lowest_value = refl

none_counted : IsCountedBitmap empty
none_counted n e = cc

-- What Set of 5 in the empty set promises of the counts.
counted_insert :
    (c : Bitmap) × (set empty 5 ≡ some (c, not (contains empty 5)))
    × IsShapedBitmap c
    × IsCountedBitmap c
    × (len c ≡ len empty + to_nat (not (contains empty 5)))
unfolding len
counted_insert = len-set empty 5 empty-shaped none_counted (omega arith) (omega arith)

abbrev five : Bitmap
five = counted_insert.0

five-len : len five ≡ 1
unfolding len contains
five-len = counted_insert.4

five-returns : set empty 5 ≡ some (five, true)
unfolding contains
five-returns = counted_insert.1

len-set_example :
    (c : Bitmap) × (set five 20000 ≡ some (c, not (contains five 20000)))
    × IsShapedBitmap c
    × IsCountedBitmap c
    × (len c ≡ len five + to_nat (not (contains five 20000)))
len-set_example =
    len-set five 20000 counted_insert.2 counted_insert.3 (omega arith) (omega (arith, five-len))

contains-clear_example :
    (c : Bitmap) × (clear five 5 ≡ some (c, contains five 5))
    × IsShapedBitmap c
    × IsCountedBitmap c
    × (len c + to_nat (contains five 5) ≡ len five)
    × (contains c 6 ≡ (contains five 6 && not (5 == 6)))
contains-clear_example =
    contains-clear five 5 6 counted_insert.2 counted_insert.3 (omega (arith, five-len))
      (omega arith) (omega arith)

min-IsLeast_example : (o : Option ℕ) × (min five ≡ some o) × IsLeast five o
min-IsLeast_example = min-IsLeast five counted_insert.2 counted_insert.3

set-IsLow_example : IsLow five
set-IsLow_example = set-IsLow empty 5 five true (omega arith) five-returns

-- Set 20000, set 5, clear 20000, and set 5 once more.
abbrev edits : List Edit
edits = insertion 20000 ∷ insertion 5 ∷ removal 20000 ∷ insertion 5 ∷ []

run_edits-meant_example :
    (c : Bitmap) × (run_edits edits empty ≡ some c)
    × ((j : ℕ) → j < 2 ^ 32 → has c j ≡ some (meant edits (λ i. false) j))
    × (len c ≡ ones_below (2 ^ 32) (meant edits (λ i. false)))
run_edits-meant_example =
    run_edits-meant 30000 edits (omega arith)
      (omega arith, (omega arith, (omega arith, (omega arith, tt))))
