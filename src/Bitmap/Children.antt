-- ===== src/Bitmap/Children.antt =====
-- What each change of a directory node of bitmap.go does to its children, slot by slot.
use go_maemmidb.Base.{
  ℕ, zero, suc, ◌+◌, ◌<◌, ◌≡◌, ◌∙◌, true, false, arith, List, Option, none, some, ◌==◌,
  if◌then◌else◌, length, get_elem?, set as set_elem, Word, set_bit, clear_bit, zero_word,
  ones_below_zero, ones_below, ones_below_mono, ones_below-lt, ones_below-set, ones_below-clear,
  insert_at, remove_at, length-insert_at, length-set, get_elem?-set_self, get_elem?-set_ne,
  get_elem?-insert_self, get_elem?-insert_below, get_elem?-insert_above, get_elem?-remove_below,
  get_elem?-remove_above, Every-insert_at, Every-set,
}
use go_maemmidb.Bitmap.{Node, kid, slot_of, branch, with_branch, with_child}
use go_maemmidb.Bitmap.Shape.{IsShaped, child, slot-lt}

one_bit : (slot : ℕ) → slot < 64 → 1 ≡ ones_below 64 (set_bit zero_word slot)
one_bit slot p = ground (arith, ones_below-set 64 slot zero_word, ones_below_zero 64)

pub more_bits :
    (slot : ℕ) (w : Word)
    → slot < 64
    → w slot ≡ false
    → ones_below 64 (set_bit w slot) ≡ ones_below 64 w + 1
more_bits slot w p e = ground (arith, ones_below-set 64 slot w)

module _ {A : Type 0} where
  -- The list's element at the rank of a slot, if the slot is present.
  abbrev pub ranked : List A → Word → ℕ → Option A
  ranked xs w s = if w s then get_elem? xs (ones_below s w) else none

  pub ranked-insert :
      (xs : List A) (w : Word) (slot : ℕ) (v : A) (s : ℕ)
      → length xs ≡ ones_below 64 w
      → slot < 64
      → s < 64
      → w slot ≡ false
      → ranked (insert_at xs (ones_below slot w) v) (set_bit w slot) s
        ≡ (if slot == s then some v else ranked xs w s)
  ranked-insert xs w slot v s len p q e = ground (
    arith,
    ones_below-set s slot w,
    ones_below_mono slot 64 w,
    ones_below_mono slot s w,
    ones_below-lt s slot w,
    get_elem?-insert_self xs (ones_below slot w) v,
    get_elem?-insert_below xs (ones_below slot w) (ones_below s w) v,
    get_elem?-insert_above xs (ones_below slot w) (ones_below s w) v,
  )

  pub ranked-remove :
      (xs : List A) (w : Word) (slot s : ℕ)
      → length xs ≡ ones_below 64 w
      → slot < 64
      → s < 64
      → w slot ≡ true
      → ranked (remove_at xs (ones_below slot w)) (clear_bit w slot) s
        ≡ (if slot == s then none else ranked xs w s)
  ranked-remove xs w slot s len p q e = ground (
    arith,
    ones_below-clear s slot w,
    ones_below-lt slot s w,
    ones_below-lt s slot w,
    get_elem?-remove_below xs (ones_below slot w) (ones_below s w),
    get_elem?-remove_above xs (ones_below slot w) (ones_below s (clear_bit w slot)),
  )

  pub ranked-set :
      (xs : List A) (w : Word) (slot : ℕ) (v : A) (s : ℕ)
      → length xs ≡ ones_below 64 w
      → slot < 64
      → s < 64
      → w slot ≡ true
      → ranked (set_elem xs (ones_below slot w) v) w s
        ≡ (if slot == s then some v else ranked xs w s)
  ranked-set xs w slot v s len p q e = ground (
    arith,
    ones_below-lt slot s w,
    ones_below-lt s slot w,
    ones_below-lt slot 64 w,
    get_elem?-set_self xs (ones_below slot w) v,
    get_elem?-set_ne xs {i = ones_below slot w} {j = ones_below s w} v,
  )

pub branch-IsShaped : (h id : ℕ) → IsShaped h (branch h id)
unfolding branch
branch-IsShaped zero id = tt
branch-IsShaped (suc h) id = (one_bit (slot_of h id) (slot-lt h id), (branch-IsShaped h id, tt))

module _ (h : ℕ) (n : Node (suc h)) (id : ℕ) (shaped : IsShaped (suc h) n) where
  pub with_branch-IsShaped :
      n.present (slot_of h id) ≡ false → IsShaped (suc h) (with_branch h n id)
  unfolding with_branch
  with_branch-IsShaped e = (
    omega (
      arith,
      length-insert_at n.kids (ones_below (slot_of h id) n.present) (branch h id),
      shaped.0,
      more_bits (slot_of h id) n.present (slot-lt h id) e,
    ),
    Every-insert_at (IsShaped h) n.kids (ones_below (slot_of h id) n.present) (branch h id) shaped.1
        (branch-IsShaped h id),
  )

  pub child-with_branch :
      (s : ℕ)
      → s < 64
      → n.present (slot_of h id) ≡ false
      → child h (with_branch h n id) s
        ≡ (if slot_of h id == s then some (branch h id) else child h n s)
  unfolding with_branch child kid
  child-with_branch s q e =
      ranked-insert n.kids n.present (slot_of h id) (branch h id) s shaped.0 (slot-lt h id) q e

  module _ (c : Node h) (on : n.present (slot_of h id) ≡ true) where
    pub with_child-IsShaped : IsShaped h c → IsShaped (suc h) (with_child h n id c)
    unfolding with_child
    with_child-IsShaped below = (
      length-set n.kids (ones_below (slot_of h id) n.present) c ∙ shaped.0,
      Every-set (IsShaped h) n.kids (ones_below (slot_of h id) n.present) c shaped.1 below,
    )

    pub child-with_child :
        (s : ℕ)
        → s < 64
        → child h (with_child h n id c) s ≡ (if slot_of h id == s then some c else child h n s)
    unfolding with_child child kid
    child-with_child s q =
        ranked-set n.kids n.present (slot_of h id) c s shaped.0 (slot-lt h id) q on
