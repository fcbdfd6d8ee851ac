-- ===== src/Bitmap/Ops/Levels.antt =====
-- Trees of two heights in ops.go: `canonical`, `level`, and the descent of And and AndNot.
use go_maemmidb.Base.{
  ℕ, zero, suc, ◌+◌, ◌*◌, ◌<◌, ◌≤◌, ◌^◌, ◌≡◌, refl, ap, sym, ◌∙◌, true, false, arith, Option, none,
  some, holds, ◌==◌, ==_iff, inl, inr, Bool-cases, zero_word, set_bit, same_below, same_below-eq,
  get_elem?, ones_below,
}
use go_maemmidb.Base.Digits.{pow2_mono}
use go_maemmidb.Bitmap.{Node, Bitmap, at, empty, kid, slot_of, span, canonical}
use go_maemmidb.Bitmap.Shape.{IsShaped, IsShapedChild, child, member, kid_present}
use go_maemmidb.Bitmap.Adding.{absent, found_at, member_at}
use go_maemmidb.Bitmap.Height.{
  contains, contains_at, IsShapedBitmap, slot_low, IsAlone, lifted-IsAlone, lifted-IsShaped,
  contains-IsAlone,
}
use go_maemmidb.Bitmap.Laws.{shaped_at}
use go_maemmidb.Bitmap.Ops.{Below, here, up, low_part, level, canonical_or_empty}
use go_maemmidb.Bitmap.Ops.Combine.{member_or}

-- `kids[0]` of a well-shaped node whose slot 0 is present.
first_kid :
    (h : ℕ) (n : Node (suc h))
    → IsShaped (suc h) n
    → n.present 0 ≡ true
    → (c : Node h) × (get_elem? n.kids 0 ≡ some c) × (child h n 0 ≡ some c) × IsShaped h c
unfolding kid ones_below
first_kid h n shaped e =
    let (c, found, below) = kid_present h n 0 shaped (omega arith) e in
    (c, found, found_at h n 0 e found, below)

IsAlone-if :
    (h : ℕ) (n : Node (suc h)) (c : Node h)
    → same_below 64 n.present (set_bit zero_word 0) ≡ true
    → child h n 0 ≡ some c
    → IsAlone h n c
IsAlone-if h n c e found s p = elim (Bool-cases (s == 0)) [
  | inl z ↦ rw (z, (==_iff s 0).0 z) found
  | inr z ↦
      let off : (0 == s) ≡ false = ground arith in
      rw z (absent h n s (same_below-eq 64 n.present (set_bit zero_word 0) e s p ∙ rw off))
]

-- A set that holds the ids of a tree.
pub record Holds (h : ℕ) (n : Option (Node h)) (run : Option Bitmap) (c : Bitmap) : Type 0 where
  pub returns : run ≡ some c
  pub shaped : IsShapedBitmap c
  pub ids : (j : ℕ) → j < 2 ^ 32 → contains c j ≡ holds n (λ m. contains_at h m j)

-- Dropping the levels that only lead to child 0 keeps the ids.
pub canonical-Holds :
    (h : ℕ) (n : Node h) → IsShaped h n → (c : Bitmap) × Holds h (some n) (canonical h n) c
unfolding canonical
canonical-Holds zero n shaped =
    (at 0 n, record { returns = refl; shaped = shaped_at 0 n shaped; ids = λ j p. refl })
canonical-Holds (suc h) n shaped =
    elim (Bool-cases (same_below 64 n.present (set_bit zero_word 0))) [
      | inr e ↦ (
        at (suc h) n,
        record { returns = rw e; shaped = shaped_at (suc h) n shaped; ids = λ j p. refl },
      )
      | inl e ↦
          let on = same_below-eq 64 n.present (set_bit zero_word 0) e 0 (omega arith) in
          let (c, found, in_slot, below) = first_kid h n shaped on in
          let (d, held) = canonical-Holds h c below in
          (
            d,
            record {
              returns = rw (e, found) held.returns;
              shaped = held.shaped;
              ids = λ j p.
                  held.ids j p ∙ sym (contains-IsAlone h n c j (IsAlone-if h n c e in_slot) p);
            },
          )
    ]

pub empty-shaped : IsShapedBitmap empty
empty-shaped n e = cc

pub canonical_or_empty-Holds :
    (h : ℕ) (n : Option (Node h))
    → IsShapedChild h n
    → (c : Bitmap) × Holds h n (canonical_or_empty h n) c
unfolding canonical_or_empty
canonical_or_empty-Holds h none shaped =
    (empty, record { returns = refl; shaped = empty-shaped; ids = λ j p. unfold contains in refl })
canonical_or_empty-Holds h (some n) shaped = canonical-Holds h n shaped

pub Below-le : {h k : ℕ} → Below h k → h ≤ k
Below-le here = omega arith
Below-le (up d) = omega (arith, Below-le d)

span_mono : (h k : ℕ) → h ≤ k → 2 ^ span h ≤ 2 ^ span k
unfolding span
span_mono h k p = pow2_mono (8 + 6 * h) (8 + 6 * k) (omega arith)

pub lt_mono : {h k : ℕ} (d : Below h k) (j : ℕ) → j < 2 ^ span h → j < 2 ^ span k
lt_mono {h} {k} d j p = omega (arith, span_mono h k (Below-le d))

-- The low part of a taller tree holds the ids that the lower height spans.
pub record Lowers {h k : ℕ} (d : Below h k) (n : Node k) (m : Option (Node h)) : Type 0 where
  pub returns : low_part d n ≡ some m
  pub shaped : IsShapedChild h m
  pub ids : (j : ℕ) → j < 2 ^ span h → member_or h m j ≡ member k n j

pub low_part-Lowers :
    {h k : ℕ} (d : Below h k) (n : Node k) → IsShaped k n → (m : Option (Node h)) × Lowers d n m
unfolding low_part
low_part-Lowers here n shaped =
    (some n, record { returns = refl; shaped = shaped; ids = λ j p. refl })
low_part-Lowers {h} (up {k} d) n shaped = elim (Bool-cases (n.present 0)) [
  | inr e ↦ (
    none,
    record {
      returns = rw e;
      shaped = tt;
      ids = λ j p.
          let low = slot_low k j (lt_mono d j p) in
          sym (member_at k n j (absent k n (slot_of k j) (ap n.present low ∙ e)));
    },
  )
  | inl e ↦
      let (c, found, in_slot, below) = first_kid k n shaped e in
      let (m, lowers) = low_part-Lowers d c below in
      (
        m,
        record {
          returns = rw (e, found) lowers.returns;
          shaped = lowers.shaped;
          ids = λ j p.
              let low = slot_low k j (lt_mono d j p) in
              lowers.ids j p ∙ sym (member_at k n j (ap (child k n) low ∙ in_slot));
        },
      )
]

-- Levels on top keep the ids.
pub level-IsShaped : {h k : ℕ} (d : Below h k) (n : Node h) → IsShaped h n → IsShaped k (level d n)
unfolding level
level-IsShaped here n shaped = shaped
level-IsShaped (up {k} d) n shaped = lifted-IsShaped k (level d n) (level-IsShaped d n shaped)

pub contains-level :
    {h k : ℕ} (d : Below h k) (n : Node h) (j : ℕ)
    → j < 2 ^ 32
    → contains_at k (level d n) j ≡ contains_at h n j
unfolding level
contains-level here n j p = refl
contains-level (up {k} d) n j p =
    contains-IsAlone k _ (level d n) j (lifted-IsAlone k (level d n)) p ∙ contains-level d n j p
