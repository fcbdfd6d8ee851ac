-- ===== src/Rows/Tests.antt =====
-- Runs of applyBitmaps over an engine whose trees are functions, with objects that are numbers.
use go_maemmidb.Base.{
  Bool, ◌&&◌, ◌||◌, not, ap, sym, ℕ, ◌^◌, ◌≡◌, refl, ◌∙◌, true, false, arith, [], ◌∷◌, Option, none,
  some, ◌==◌, if◌then◌else◌, inl, inr, Bool-cases, to_nat,
}
use go_maemmidb.Txn.{Key, same_key, Engine}
use go_maemmidb.Txn.Trees.{IsMap}
use go_maemmidb.Pvec as Pvec
use go_maemmidb.Bitmap.{Bitmap, empty, len}
use go_maemmidb.Bitmap.Height.{contains}
use go_maemmidb.Bitmap.Removing.{nothing_in}
use go_maemmidb.Bitmap.Cardinal.{Sets, set-Sets, empty-IsSound, len-ones_below}
use go_maemmidb.Base.{ones_below}
use go_maemmidb.Rows.{RowsTxn, row_id, apply_row, ValueMove, lists, set_at, apply_values}
use go_maemmidb.Rows.Ids.{id_of, IsConsistent, row_id-IsConsistent}
use go_maemmidb.Rows.Freed.{free_id-IsConsistent}
use go_maemmidb.Rows.Values.{rows_at, IsIndexed}
use go_maemmidb.Rows.Map.{row_of, IsStored, apply_row-IsStored}
use go_maemmidb.Pvec.Counts.{bit_of}
use go_maemmidb.Pvec.Laws.{len-empty, get-empty}
use go_maemmidb.Bitmap.{Node}
use go_maemmidb.Pvec.{Vector}
use go_maemmidb.Bitmap.Ops.Slots.{IsIdentity}
use go_maemmidb.Bitmap.Ops.Filled.{IsSound-IsFilledBitmap}
use go_maemmidb.Rows.Query.{
  IsSolid, RowSet, fits_with, and_rows, or_rows, and_not_rows, where_prefix, IsFitting, in_all,
  in_any, any_holds, contains-combine, contains-where_prefix,
}
use go_maemmidb.Rows.Moved.{contains-apply_values}

abbrev functions : (V : Type 0) → Engine V
functions V = record {
  Tree = Key → Option V;
  Work = Key → Option V;
  get = λ t k. t k;
  begin = λ t. t;
  tree = λ x. x;
  insert = λ x k v. (x k, λ j. if same_key k j then some v else x j);
  delete = λ x k. (x k, λ j. if same_key k j then none else x j);
  commit = λ x. x;
}

functions-IsMap : (V : Type 0) → IsMap (functions V)
functions-IsMap V = record {
  get-begin = λ t k. refl;
  get-commit = λ x k. refl;
  insert_old = λ x k v. refl;
  get-insert = λ x k v j. refl;
  delete_old = λ x k. refl;
  get-delete = λ x k j. refl;
}

abbrev no_rows : RowsTxn ℕ (functions ℕ)
no_rows = record { ids = λ k. none; rows = Pvec.empty ℕ; all = empty; free = empty; next = 0 }

no_rows-IsConsistent : IsConsistent (functions ℕ) (functions-IsMap ℕ) no_rows
no_rows-IsConsistent = record {
  all_sound = empty-IsSound;
  free_sound = empty-IsSound;
  small = omega arith;
  all_below = λ j p q. nothing_in j;
  free_below = λ j p q. nothing_in j;
  parts = λ j q. absurd (omega arith);
  known = λ k i e. cc;
  apart = λ k l i e f. cc;
}

no_len : len empty ≡ 0
unfolding len
no_len = refl

no_rows-IsStored : IsStored (functions ℕ) (functions-IsMap ℕ) no_rows
no_rows-IsStored = record {
  consistent = no_rows-IsConsistent;
  valid = tt;
  sizes = len-empty ℕ ∙ sym no_len;
  filled = λ j p. ap bit_of (get-empty ℕ j) ∙ sym (ap to_nat (nothing_in j));
}

apply_row-IsStored_example :
    (id : ℕ) × (s : RowsTxn ℕ (functions ℕ)) × (apply_row ℕ
        (functions ℕ)
        (some 3)
        none
        (7 ∷ [])
        no_rows
      ≡ some (id, s))
    × IsStored (functions ℕ) (functions-IsMap ℕ) s
    × (row_of (functions ℕ) (functions-IsMap ℕ) s (7 ∷ []) ≡ (
        if same_key (7 ∷ []) (7 ∷ [])
        then some 3
        else row_of (functions ℕ) (functions-IsMap ℕ) no_rows (7 ∷ [])))
apply_row-IsStored_example =
    apply_row-IsStored (functions ℕ) (functions-IsMap ℕ) (some 3) none no_rows (7 ∷ []) (7 ∷ [])
      no_rows-IsStored (omega arith) refl cc

row_id-IsConsistent_example :
    (id : ℕ) × (s : RowsTxn ℕ (functions ℕ)) × (row_id ℕ
        (functions ℕ)
        (some 3)
        none
        (7 ∷ [])
        no_rows
      ≡ some (id, s))
    × IsConsistent (functions ℕ) (functions-IsMap ℕ) s
    × (contains no_rows.all id ≡ false)
    × (id_of (functions ℕ) (functions-IsMap ℕ) s (7 ∷ []) ≡ some id)
    × (id_of (functions ℕ) (functions-IsMap ℕ) s (8 ∷ [])
        ≡ id_of (functions ℕ) (functions-IsMap ℕ) no_rows (8 ∷ []))
unfolding same_key
row_id-IsConsistent_example =
    row_id-IsConsistent (functions ℕ) (functions-IsMap ℕ) 3 no_rows (7 ∷ []) (8 ∷ [])
      no_rows-IsConsistent (omega arith) refl

-- The same run, to go on from.
one_row :
    (id : ℕ) × (s : RowsTxn ℕ (functions ℕ)) × (row_id ℕ
        (functions ℕ)
        (some 3)
        none
        (7 ∷ [])
        no_rows
      ≡ some (id, s))
    × IsConsistent (functions ℕ) (functions-IsMap ℕ) s
    × (contains no_rows.all id ≡ false)
    × (id_of (functions ℕ) (functions-IsMap ℕ) s (7 ∷ []) ≡ some id)
    × (id_of (functions ℕ) (functions-IsMap ℕ) s (8 ∷ []) ≡ none)
unfolding same_key
one_row =
    row_id-IsConsistent (functions ℕ) (functions-IsMap ℕ) 3 no_rows (7 ∷ []) (8 ∷ [])
      no_rows-IsConsistent (omega arith) refl

free_id-IsConsistent_example :
    (s : RowsTxn ℕ (functions ℕ)) × (row_id ℕ (functions ℕ) none (some 3) (7 ∷ []) one_row.1
      ≡ some (one_row.0, s))
    × IsConsistent (functions ℕ) (functions-IsMap ℕ) s
    × (contains s.free one_row.0 ≡ true)
    × (id_of (functions ℕ) (functions-IsMap ℕ) s (7 ∷ []) ≡ none)
    × (id_of (functions ℕ) (functions-IsMap ℕ) s (8 ∷ [])
        ≡ id_of (functions ℕ) (functions-IsMap ℕ) one_row.1 (8 ∷ []))
unfolding same_key
free_id-IsConsistent_example =
    free_id-IsConsistent (functions ℕ) (functions-IsMap ℕ) 3 one_row.1 (7 ∷ []) (8 ∷ []) one_row.0
      one_row.3 one_row.5 refl

-- The set {0}.
zero_set : (c : Bitmap) × Sets empty 0 c
unfolding len
zero_set = set-Sets empty 0 empty-IsSound (omega arith) (omega arith)

len-ones_below_example : len zero_set.0 ≡ ones_below (2 ^ 32) (contains zero_set.0)
len-ones_below_example = len-ones_below zero_set.0 zero_set.1.sound

-- An index in which the row 0 has the value 5.
abbrev fives : Key → Option Bitmap
fives k = if same_key (5 ∷ []) k then some zero_set.0 else none

abbrev five_to_six : ValueMove
five_to_six = record { news = (6 ∷ []) ∷ []; olds = (5 ∷ []) ∷ [] }

fives_set : (k : Key) → same_key (5 ∷ []) k ≡ true → set_at (functions Bitmap) fives k ≡ zero_set.0
unfolding set_at
fives_set k e = rw (set_at, e) refl

other_set : (k : Key) → same_key (5 ∷ []) k ≡ false → set_at (functions Bitmap) fives k ≡ empty
unfolding set_at
other_set k e = rw (set_at, e) refl

fives-IsIndexed : IsIndexed (functions Bitmap) (functions-IsMap Bitmap) fives 1
fives-IsIndexed k = elim (Bool-cases (same_key (5 ∷ []) k)) [
  | inl e ↦ rw (fives_set k e) (
    zero_set.1.sound,
    λ j p q.
        let off : (0 == j) ≡ false = ground arith in
        zero_set.1.ids j p ∙ rw (off, nothing_in j) refl,
  )
  | inr e ↦ rw (other_set k e) (empty-IsSound, λ j p q. nothing_in j)
]

fives_olds :
    (l : Key)
    → contains (rows_at (functions Bitmap) (functions-IsMap Bitmap) fives l) 0
      ≡ lists five_to_six.olds l
unfolding lists
fives_olds l = elim (Bool-cases (same_key (5 ∷ []) l)) [
  | inl e ↦ rw (fives_set l e, e) (zero_set.1.ids 0 (omega arith))
  | inr e ↦ rw (other_set l e, e) (nothing_in 0)
]

contains-apply_values_example :
    (y : Key → Option Bitmap) × (apply_values (functions Bitmap) 0 five_to_six fives ≡ some y)
    × IsIndexed (functions Bitmap) (functions-IsMap Bitmap) y 1
    × (contains (rows_at (functions Bitmap) (functions-IsMap Bitmap) y (6 ∷ [])) 0 ≡ (
        if 0 == 0
        then lists five_to_six.news (6 ∷ [])
        else contains (rows_at (functions Bitmap) (functions-IsMap Bitmap) fives (6 ∷ [])) 0))
contains-apply_values_example =
    contains-apply_values (functions Bitmap) (functions-IsMap Bitmap) 0 1 five_to_six fives (6 ∷ [])
      0 (omega arith) (omega arith) fives-IsIndexed fives_olds (omega arith)

-- No two nodes are one; any two vectors are.
abbrev distinct : (h : ℕ) → Node h → Node h → Bool
distinct h a b = false

distinct-IsIdentity : IsIdentity distinct
distinct-IsIdentity h a b e = cc

abbrev any_rows : Vector ℕ → Vector ℕ → Bool
any_rows v w = true

abbrev zero_rows : RowSet ℕ
zero_rows = record { table = 1; rows = Pvec.empty ℕ; bits = zero_set.0 }

abbrev empty_rows : RowSet ℕ
empty_rows = record { table = 1; rows = Pvec.empty ℕ; bits = empty }

empty-IsSolid : IsSolid empty
empty-IsSolid = (empty-IsSound.shaped, IsSound-IsFilledBitmap empty empty-IsSound)

zero_set-IsSolid : IsSolid zero_set.0
zero_set-IsSolid = (zero_set.1.sound.shaped, IsSound-IsFilledBitmap zero_set.0 zero_set.1.sound)

fitting : IsFitting any_rows distinct IsSolid zero_rows (empty_rows ∷ zero_rows ∷ [])
unfolding fits_with
fitting = (refl, empty-IsSolid, (refl, zero_set-IsSolid, tt))

contains-combine_example :
    ((r : RowSet ℕ) × (and_rows any_rows distinct zero_rows (empty_rows ∷ zero_rows ∷ []) ≡ some r)
      × (contains r.bits 0
          ≡ (contains zero_set.0 0 && in_all any_rows distinct (empty_rows ∷ zero_rows ∷ []) 0)))
    × ((r : RowSet ℕ) × (or_rows any_rows distinct zero_rows (empty_rows ∷ zero_rows ∷ []) ≡ some r)
        × (contains r.bits 0
            ≡ (contains zero_set.0 0 || in_any any_rows distinct (empty_rows ∷ zero_rows ∷ []) 0)))
    × ((r : RowSet ℕ) × (and_not_rows any_rows distinct zero_rows (empty_rows ∷ zero_rows ∷ [])
          ≡ some r)
        × (contains r.bits 0 ≡ (
            contains zero_set.0 0
            && not (in_any any_rows distinct (empty_rows ∷ zero_rows ∷ []) 0))))
contains-combine_example =
    contains-combine any_rows distinct distinct-IsIdentity zero_rows (empty_rows ∷ zero_rows ∷ []) 0
      zero_set-IsSolid fitting (omega arith)

contains-where_prefix_example :
    (r : RowSet ℕ) × (where_prefix any_rows distinct 1 (Pvec.empty ℕ) (empty ∷ zero_set.0 ∷ [])
      ≡ some r)
    × (contains r.bits 0 ≡ any_holds any_rows distinct (empty ∷ zero_set.0 ∷ []) 0)
contains-where_prefix_example =
    contains-where_prefix any_rows distinct distinct-IsIdentity 1 (Pvec.empty ℕ)
      (empty ∷ zero_set.0 ∷ []) 0 (empty-IsSolid, (zero_set-IsSolid, tt)) (omega arith)
