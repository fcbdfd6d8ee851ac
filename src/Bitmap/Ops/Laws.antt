-- ===== src/Bitmap/Ops/Laws.antt =====
-- The contract of And, Or and AndNot of ops.go over the ids that two sets hold.
use go_maemmidb.Base.{
  ◌<◌, ◌^◌, ◌≡◌, ℕ, ◌⊎◌, refl, ap, sym, ◌∙◌, Bool, ◌&&◌, ◌||◌, not, Option, none, some, inl, inr,
}
use go_maemmidb.Bitmap.{Node, Bitmap, at, empty}
use go_maemmidb.Bitmap.Shape.{IsShaped}
use go_maemmidb.Bitmap.Height.{contains, contains_at, IsShapedBitmap}
use go_maemmidb.Bitmap.Laws.{shaped_at}
use go_maemmidb.Bitmap.Ops.{Below, order, level, and_at, and, or, and_not_at, and_not}
use go_maemmidb.Bitmap.Ops.Slots.{IsIdentity}
use go_maemmidb.Bitmap.Ops.Chunks.{and_none, diff_none}
use go_maemmidb.Bitmap.Ops.Levels.{
  empty-shaped, Lowers, low_part-Lowers, level-IsShaped, contains-level,
}
use go_maemmidb.Bitmap.Ops.Merges.{Merges, combined, swap, agree_right, agree_left, contains-empty}
use go_maemmidb.Bitmap.Ops.And.{and_node-Combines}
use go_maemmidb.Bitmap.Ops.Union.{or-Merges}
use go_maemmidb.Bitmap.Ops.Filled.{IsFilledBitmap}
use go_maemmidb.Bitmap.Ops.AndNot.{and_not_node-Combines}

abbrev diff : Bool → Bool → Bool
diff x y = x && not y

module _ (same : (h : ℕ) → Node h → Node h → Bool) (identity : IsIdentity same) where
  and_low :
      {h k : ℕ} (d : Below h k) (a : Node h) (b : Node k) (m : Option (Node h))
      → IsShaped h a
      → Lowers d b m
      → (c : Bitmap) × Merges ◌&&◌ (at h a) (at k b) (and_at same h k a b (inl d)) c
  unfolding and_at
  and_low {h} {k} d a b none sa lowers = (
    empty,
    record {
      returns = rw lowers.returns refl;
      shaped = empty-shaped;
      ids =
          λ j p. contains-empty j ∙ and_none _ ∙ agree_right ◌&&◌ d a b none (λ y. refl) lowers j p;
    },
  )
  and_low {h} {k} d a b (some m) sa lowers =
      let (c, merges) =
        combined ◌&&◌ h a m _ _ refl (and_node-Combines same identity h a m sa lowers.shaped).1 in
      (
        c,
        rw lowers.returns (
            swap ◌&&◌ (at h a) (at k b) (at h a) (at h m) _ c
              (agree_right ◌&&◌ d a b (some m) (λ y. refl) lowers) merges),
      )

  and_high :
      {h k : ℕ} (d : Below k h) (a : Node h) (b : Node k) (m : Option (Node k))
      → IsShaped k b
      → Lowers d a m
      → (c : Bitmap) × Merges ◌&&◌ (at h a) (at k b) (and_at same h k a b (inr d)) c
  unfolding and_at
  and_high {h} {k} d a b none sb lowers = (
    empty,
    record {
      returns = rw lowers.returns refl;
      shaped = empty-shaped;
      ids = λ j p. contains-empty j ∙ agree_left ◌&&◌ d a b none (λ x. sym (and_none x)) lowers j p;
    },
  )
  and_high {h} {k} d a b (some m) sb lowers =
      let (c, merges) =
        combined ◌&&◌ k m b _ _ refl (and_node-Combines same identity k m b lowers.shaped sb).1 in
      (
        c,
        rw lowers.returns (
            swap ◌&&◌ (at h a) (at k b) (at k m) (at k b) _ c
              (agree_left ◌&&◌ d a b (some m) (λ x. sym (and_none x)) lowers) merges),
      )

  and_not_low :
      {h k : ℕ} (d : Below h k) (a : Node h) (b : Node k) (m : Option (Node h))
      → IsShaped h a
      → Lowers d b m
      → (c : Bitmap) × Merges diff (at h a) (at k b) (and_not_at same h k a b (inl d)) c
  unfolding and_not_at
  and_not_low {h} {k} d a b none sa lowers = (
    at h a,
    record {
      returns = rw lowers.returns refl;
      shaped = shaped_at h a sa;
      ids =
          λ j p. diff_none (contains_at h a j) ∙ agree_right diff d a b none (λ y. refl) lowers j p;
    },
  )
  and_not_low {h} {k} d a b (some m) sa lowers =
      let (c, merges) =
        combined diff h a m _ _ refl
          (and_not_node-Combines same identity h a m sa lowers.shaped).1 in
      (
        c,
        rw lowers.returns (
            swap diff (at h a) (at k b) (at h a) (at h m) _ c
              (agree_right diff d a b (some m) (λ y. refl) lowers) merges),
      )

  and_not_high :
      {h k : ℕ} (d : Below k h) (a : Node h) (b : Node k)
      → IsShaped h a
      → IsShaped k b
      → (c : Bitmap) × Merges diff (at h a) (at k b) (and_not_at same h k a b (inr d)) c
  unfolding and_not_at
  and_not_high {h} {k} d a b sa sb =
      let shaped = level-IsShaped d b sb in
      let (c, merges) =
        combined diff h a (level d b) _ _ refl
          (and_not_node-Combines same identity h a (level d b) sa shaped).1 in
      (
        c,
        swap diff (at h a) (at k b) (at h a) (at h (level d b)) _ c
            (λ j p. ap (λ x. contains_at h a j && not x) (contains-level d b j p)) merges,
      )

  and_heights :
      (h k : ℕ) (a : Node h) (b : Node k) (o : Below h k ⊎ Below k h)
      → IsShaped h a
      → IsShaped k b
      → (c : Bitmap) × Merges ◌&&◌ (at h a) (at k b) (and_at same h k a b o) c
  and_heights h k a b (inl d) sa sb =
      let (m, lowers) = low_part-Lowers d b sb in and_low d a b m sa lowers
  and_heights h k a b (inr d) sa sb =
      let (m, lowers) = low_part-Lowers d a sa in and_high d a b m sb lowers

  and_not_heights :
      (h k : ℕ) (a : Node h) (b : Node k) (o : Below h k ⊎ Below k h)
      → IsShaped h a
      → IsShaped k b
      → (c : Bitmap) × Merges diff (at h a) (at k b) (and_not_at same h k a b o) c
  and_not_heights h k a b (inl d) sa sb =
      let (m, lowers) = low_part-Lowers d b sb in and_not_low d a b m sa lowers
  and_not_heights h k a b (inr d) sa sb = and_not_high d a b sa sb

  and_cases :
      (h k : ℕ) (a : Option (Node h)) (b : Option (Node k))
      → IsShapedBitmap (record { height = h; root = a })
      → IsShapedBitmap (record { height = k; root = b })
      → (c : Bitmap) × Merges ◌&&◌
          (record { height = h; root = a })
          (record { height = k; root = b })
          (and same (record { height = h; root = a }) (record { height = k; root = b }))
          c
  unfolding and
  and_cases h k none b sa sb = (
    empty,
    record { returns = refl; shaped = empty-shaped; ids = λ j p. unfold contains in refl },
  )
  and_cases h k (some a) none sa sb = (
    empty,
    record { returns = refl; shaped = empty-shaped; ids = λ j p. unfold contains in and_none _ },
  )
  and_cases h k (some a) (some b) sa sb = and_heights h k a b (order h k) (sa a refl) (sb b refl)

  and_not_cases :
      (h k : ℕ) (a : Option (Node h)) (b : Option (Node k))
      → IsShapedBitmap (record { height = h; root = a })
      → IsShapedBitmap (record { height = k; root = b })
      → (c : Bitmap) × Merges diff
          (record { height = h; root = a })
          (record { height = k; root = b })
          (and_not same (record { height = h; root = a }) (record { height = k; root = b }))
          c
  unfolding and_not
  and_not_cases h k none b sa sb = (
    record { height = h; root = none },
    record { returns = refl; shaped = sa; ids = λ j p. unfold contains in refl },
  )
  and_not_cases h k (some a) none sa sb =
      (at h a, record { returns = refl; shaped = sa; ids = λ j p. unfold contains in diff_none _ })
  and_not_cases h k (some a) (some b) sa sb =
      and_not_heights h k a b (order h k) (sa a refl) (sb b refl)

  and-Merges :
      (a b : Bitmap)
      → IsShapedBitmap a
      → IsShapedBitmap b
      → (c : Bitmap) × Merges ◌&&◌ a b (and same a b) c
  and-Merges a b sa sb = and_cases a.height b.height a.root b.root sa sb

  and_not-Merges :
      (a b : Bitmap)
      → IsShapedBitmap a
      → IsShapedBitmap b
      → (c : Bitmap) × Merges (λ x y. x && not y) a b (and_not same a b) c
  and_not-Merges a b sa sb = and_not_cases a.height b.height a.root b.root sa sb

  -- And of two well-shaped sets of any heights, where the comparison of pointers only identifies
  -- equal nodes, does not panic: it returns a well-shaped set, which holds an id below 2 ^ 32
  -- exactly if both hold it.
  pub contains-and :
      (a b : Bitmap) (j : ℕ)
      → IsShapedBitmap a
      → IsShapedBitmap b
      → j < 2 ^ 32
      → (c : Bitmap) × (and same a b ≡ some c)
        × IsShapedBitmap c
        × (contains c j ≡ (contains a j && contains b j))
  contains-and a b j sa sb small =
      let (c, r) = and-Merges a b sa sb in (c, r.returns, r.shaped, r.ids j small)

  -- Or of two well-shaped sets of any heights that have no empty directory, where the comparison of
  -- pointers only identifies equal nodes, does not panic: it returns such a set, which holds an id
  -- below 2 ^ 32 exactly if at least one holds it.
  pub contains-or :
      (a b : Bitmap) (j : ℕ)
      → IsShapedBitmap a
      → IsShapedBitmap b
      → IsFilledBitmap a
      → IsFilledBitmap b
      → j < 2 ^ 32
      → (c : Bitmap) × (or same a b ≡ some c)
        × IsShapedBitmap c
        × IsFilledBitmap c
        × (contains c j ≡ (contains a j || contains b j))
  contains-or a b j sa sb fa fb small =
      let (c, r, filled) = or-Merges same identity a b sa sb fa fb in
      (c, r.returns, r.shaped, filled, r.ids j small)

  -- AndNot of two well-shaped sets of any heights, where the comparison of pointers only identifies
  -- equal nodes, does not panic: it returns a well-shaped set, which holds an id below 2 ^ 32
  -- exactly if the first holds it and the second does not.
  pub contains-and_not :
      (a b : Bitmap) (j : ℕ)
      → IsShapedBitmap a
      → IsShapedBitmap b
      → j < 2 ^ 32
      → (c : Bitmap) × (and_not same a b ≡ some c)
        × IsShapedBitmap c
        × (contains c j ≡ (contains a j && not (contains b j)))
  contains-and_not a b j sa sb small =
      let (c, r) = and_not-Merges a b sa sb in (c, r.returns, r.shaped, r.ids j small)
