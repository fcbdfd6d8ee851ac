-- ===== src/Bitmap/Ops/Merges.antt =====
-- Sets that a call of ops.go makes of two others: the ids, across different heights.
use go_maemmidb.Base.{
  ℕ, ◌<◌, ◌^◌, ◌≡◌, refl, sym, ◌∙◌, Bool, true, false, Option, none, some, ◌>>=◌, holds, inl, inr,
  Bool-cases,
}
use go_maemmidb.Bitmap.{Node, Bitmap, at, empty, too_low}
use go_maemmidb.Bitmap.Path.{covers-lt}
use go_maemmidb.Bitmap.Height.{
  contains, contains_at, IsShapedBitmap, contains_covered, contains_outside, lt-covers,
}
use go_maemmidb.Bitmap.Ops.{Below, canonical_or_empty}
use go_maemmidb.Bitmap.Ops.Combine.{Combines, member_or}
use go_maemmidb.Bitmap.Ops.Levels.{canonical_or_empty-Holds, Lowers, lt_mono}

-- A call returns a well-shaped set whose ids are what `f` says of the operands' ids.
pub record Merges (f : Bool → Bool → Bool) (a b : Bitmap) (run : Option Bitmap) (c : Bitmap)
    : Type 0 where
  pub returns : run ≡ some c
  pub shaped : IsShapedBitmap c
  pub ids : (j : ℕ) → j < 2 ^ 32 → contains c j ≡ f (contains a j) (contains b j)

contains_or-member :
    (h : ℕ) (m : Option (Node h)) (j : ℕ)
    → too_low h j ≡ false
    → holds m (λ n. contains_at h n j) ≡ member_or h m j
contains_or-member h none j e = refl
contains_or-member h (some n) j e = contains_covered h n j e

contains_or-outside :
    (h : ℕ) (m : Option (Node h)) (j : ℕ)
    → too_low h j ≡ true
    → holds m (λ n. contains_at h n j) ≡ false
contains_or-outside h none j e = refl
contains_or-outside h (some n) j e = contains_outside h n j e

-- The ids of a combination of two trees of one height.
pub combined :
    (f : Bool → Bool → Bool) (h : ℕ) (a b : Node h) (run : Option (Option (Node h)))
    (m : Option (Node h))
    → f false false ≡ false
    → Combines f h (some a) (some b) run m
    → (c : Bitmap) × Merges f (at h a) (at h b) (run >>= λ n. canonical_or_empty h n) c
combined f h a b run m zeros combines =
    let (c, held) = canonical_or_empty-Holds h m combines.shaped in
    (
      c,
      record {
        returns = rw combines.returns held.returns;
        shaped = held.shaped;
        ids = λ j p. held.ids j p ∙ elim (Bool-cases (too_low h j)) [
          | inl e ↦
              rw (contains_or-outside h m j e, contains_outside h a j e, contains_outside h b j e)
                (sym zeros)
          | inr e ↦
              rw (contains_or-member h m j e, contains_covered h a j e, contains_covered h b j e)
                (combines.ids j)
        ];
      },
    )

-- Where the lower tree covers an id, the low part of the taller one answers for it.
pub contains-low :
    {h k : ℕ} (d : Below h k) (n : Node k) (m : Option (Node h)) (j : ℕ)
    → Lowers d n m
    → j < 2 ^ 32
    → too_low h j ≡ false
    → contains_at k n j ≡ holds m (λ x. contains_at h x j)
contains-low {h} {k} d n m j lowers p e =
    let fits = covers-lt h j p e in
    contains_covered k n j (lt-covers k j (lt_mono d j fits))
    ∙ sym (contains_or-member h m j e ∙ lowers.ids j fits)

-- The operands of a call may be replaced by sets of the same ids.
pub swap :
    (f : Bool → Bool → Bool) (a b a' b' : Bitmap) (run : Option Bitmap) (c : Bitmap)
    → ((j : ℕ) → j < 2 ^ 32 → f (contains a' j) (contains b' j) ≡ f (contains a j) (contains b j))
    → Merges f a' b' run c
    → Merges f a b run c
swap f a b a' b' run c agree merges = record {
  returns = merges.returns;
  shaped = merges.shaped;
  ids = λ j p. merges.ids j p ∙ agree j p;
}

-- Only the ids that the lower tree covers matter.
pub agree_right :
    {h k : ℕ} (f : Bool → Bool → Bool) (d : Below h k) (a : Node h) (b : Node k)
    (m : Option (Node h))
    → ((y : Bool) → f false y ≡ false)
    → Lowers d b m
    → (j : ℕ) → j < 2 ^ 32
    → f (contains_at h a j) (holds m (λ x. contains_at h x j))
      ≡ f (contains_at h a j) (contains_at k b j)
agree_right {h} {k} f d a b m absorbs lowers j p = elim (Bool-cases (too_low h j)) [
  | inl e ↦ rw (contains_outside h a j e) (absorbs _ ∙ sym (absorbs _))
  | inr e ↦ rw (contains-low d b m j lowers p e) refl
]

pub agree_left :
    {h k : ℕ} (f : Bool → Bool → Bool) (d : Below k h) (a : Node h) (b : Node k)
    (m : Option (Node k))
    → ((x : Bool) → f x false ≡ false)
    → Lowers d a m
    → (j : ℕ) → j < 2 ^ 32
    → f (holds m (λ x. contains_at k x j)) (contains_at k b j)
      ≡ f (contains_at h a j) (contains_at k b j)
agree_left {h} {k} f d a b m absorbs lowers j p = elim (Bool-cases (too_low k j)) [
  | inl e ↦ rw (contains_outside k b j e) (absorbs _ ∙ sym (absorbs _))
  | inr e ↦ rw (contains-low d a m j lowers p e) refl
]

pub contains-empty : (j : ℕ) → contains empty j ≡ false
unfolding contains
contains-empty j = refl

pub contains-none : (h j : ℕ) → contains (record { height = h; root = none }) j ≡ false
unfolding contains
contains-none h j = refl
