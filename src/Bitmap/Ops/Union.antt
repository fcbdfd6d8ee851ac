-- ===== src/Bitmap/Ops/Union.antt =====
-- Or of ops.go on trees of any two heights: the ids of the result, which has no empty directory.
use go_maemmidb.Base.{ℕ, ◌⊎◌, refl, ap, Bool, ◌||◌, arith, Option, none, some, inl, inr}
use go_maemmidb.Bitmap.{Node, Bitmap, at}
use go_maemmidb.Bitmap.Shape.{IsShaped}
use go_maemmidb.Bitmap.Height.{contains, contains_at, IsShapedBitmap}
use go_maemmidb.Bitmap.Ops.{Below, order, level, or_at, or}
use go_maemmidb.Bitmap.Ops.Slots.{IsIdentity}
use go_maemmidb.Bitmap.Ops.Levels.{level-IsShaped, contains-level}
use go_maemmidb.Bitmap.Ops.Merges.{Merges, combined, swap}
use go_maemmidb.Bitmap.Ops.Or.{or_node-Combines}
use go_maemmidb.Bitmap.Ops.Filled.{IsFilled, IsFilledBitmap, level-IsFilled, canonical-IsFilled}

module _ (same : (h : ℕ) → Node h → Node h → Bool) (identity : IsIdentity same) where
  or_heights :
      (h k : ℕ) (a : Node h) (b : Node k) (o : Below h k ⊎ Below k h)
      → IsShaped h a
      → IsShaped k b
      → IsFilled h a
      → IsFilled k b
      → (c : Bitmap) × Merges ◌||◌ (at h a) (at k b) (or_at same h k a b o) c × IsFilledBitmap c
  unfolding or_at
  or_heights h k a b (inl d) sa sb fa fb =
      let up_a = level d a in
      let (m, combines, filled) =
        or_node-Combines same identity k up_a b (level-IsShaped d a sa) sb (level-IsFilled d a fa)
          fb in
      let (c, merges) = combined ◌||◌ k up_a b _ (some m) refl combines in
      (
        c,
        swap ◌||◌ (at h a) (at k b) (at k up_a) (at k b) _ c
            (λ j p. ap (λ x. x || contains_at k b j) (contains-level d a j p)) merges,
        canonical-IsFilled k m c filled (rw combines.returns at merges.returns),
      )
  or_heights h k a b (inr d) sa sb fa fb =
      let up_b = level d b in
      let (m, combines, filled) =
        or_node-Combines same identity h a up_b sa (level-IsShaped d b sb) fa
          (level-IsFilled d b fb) in
      let (c, merges) = combined ◌||◌ h a up_b _ (some m) refl combines in
      (
        c,
        swap ◌||◌ (at h a) (at k b) (at h a) (at h up_b) _ c
            (λ j p. ap (λ x. contains_at h a j || x) (contains-level d b j p)) merges,
        canonical-IsFilled h m c filled (rw combines.returns at merges.returns),
      )

  or_cases :
      (h k : ℕ) (a : Option (Node h)) (b : Option (Node k))
      → IsShapedBitmap (record { height = h; root = a })
      → IsShapedBitmap (record { height = k; root = b })
      → IsFilledBitmap (record { height = h; root = a })
      → IsFilledBitmap (record { height = k; root = b })
      → (c : Bitmap) × Merges ◌||◌
          (record { height = h; root = a })
          (record { height = k; root = b })
          (or same (record { height = h; root = a }) (record { height = k; root = b }))
          c
        × IsFilledBitmap c
  unfolding or
  or_cases h k none b sa sb fa fb = (
    record { height = k; root = b },
    record { returns = refl; shaped = sb; ids = λ j p. unfold contains in refl },
    fb,
  )
  or_cases h k (some a) none sa sb fa fb = (
    at h a,
    record { returns = refl; shaped = sa; ids = λ j p. unfold contains in ground arith },
    fa,
  )
  or_cases h k (some a) (some b) sa sb fa fb =
      or_heights h k a b (order h k) (sa a refl) (sb b refl) (fa a refl) (fb b refl)

  pub or-Merges :
      (a b : Bitmap)
      → IsShapedBitmap a
      → IsShapedBitmap b
      → IsFilledBitmap a
      → IsFilledBitmap b
      → (c : Bitmap) × Merges ◌||◌ a b (or same a b) c × IsFilledBitmap c
  or-Merges a b sa sb fa fb = or_cases a.height b.height a.root b.root sa sb fa fb
