-- ===== src/Bitmap/Height.antt =====
-- Trees of bitmap.go at different heights: levels on top, and the growing of Writer.Set.
use native.Mathlib.Nat.{div-eq_of_lt, div-lt_iff_lt-mul, mod-eq_of_lt}
use go_maemmidb.Base.{
  ℕ, zero, suc, ◌+◌, ◌*◌, ◌/◌, ◌^◌, ◌<◌, ◌≤◌, ◌≡◌, ◌≢◌, refl, ap, sym, subst, ◌∙◌, Bool, true,
  false, arith, none, some, holds, ◌==◌, ==_iff, if◌then◌else◌, inl, inr, Bool-cases, set_bit,
  zero_word, ones_below, ones_below_zero, ones_below-set,
}
use go_maemmidb.Bitmap.{Node, Bitmap, at, kid, slot_of, span, too_low, lifted, grow}
use go_maemmidb.Bitmap.Path.{
  same_path, same_path_refl, same_path-eq, pow_span-suc, pow_span_pos, covers-lt, tall,
}
use go_maemmidb.Bitmap.Shape.{IsShaped, child, member, slot-lt}

-- The abstract view of a set: the ids that it holds.
unfoldable pub contains : Bitmap → ℕ → Bool
unfolding too_low member
contains b id = holds b.root λ n. if too_low b.height id then false else member b.height n id

abbrev pub IsShapedBitmap : Bitmap → Type 0
IsShapedBitmap b = (n : Node b.height) → b.root ≡ some n → IsShaped b.height n

abbrev pub contains_at : (h : ℕ) → Node h → ℕ → Bool
contains_at h n = contains (at h n)

pub lt-covers : (h id : ℕ) → id < 2 ^ span h → too_low h id ≡ false
unfolding too_low
lt-covers h id p = rw (div-eq_of_lt p) (ground arith)

outside : (h id : ℕ) → too_low h id ≡ true → id / 2 ^ span h ≢ 0
unfolding too_low
outside h id p e = ground arith

pub contains_covered :
    (h : ℕ) (n : Node h) (id : ℕ) → too_low h id ≡ false → contains_at h n id ≡ member h n id
unfolding contains
contains_covered h n id e = rw e

pub contains_outside :
    (h : ℕ) (n : Node h) (id : ℕ) → too_low h id ≡ true → contains_at h n id ≡ false
unfolding contains
contains_outside h n id e = rw e

pub slot_low : (h id : ℕ) → id < 2 ^ span h → slot_of h id ≡ 0
unfolding slot_of
slot_low h id p = rw (div-eq_of_lt p)

slot_high : (h id : ℕ) → id < 2 ^ span h * 64 → id / 2 ^ span h ≢ 0 → slot_of h id ≢ 0
unfolding slot_of
slot_high h id p ne e =
    let fits : id / 2 ^ span h < 64 = (div-lt_iff_lt-mul (pow_span_pos h)).1 (omega arith) in
    ne (sym (mod-eq_of_lt fits) ∙ e)

-- `n` is the only child, in slot 0.
abbrev pub IsAlone : (h : ℕ) → Node (suc h) → Node h → Type 0
IsAlone h m n = (s : ℕ) → s < 64 → child h m s ≡ (if s == 0 then some n else none)

pub lifted-IsAlone : (h : ℕ) (n : Node h) → IsAlone h (lifted h n) n
unfolding lifted child kid
lifted-IsAlone h n s p = ground (arith, ones_below-set s 0 zero_word, ones_below_zero s)

member_alone :
    (h : ℕ) (m : Node (suc h)) (n : Node h) (id : ℕ)
    → slot_of h id ≡ 0
    → child h m (slot_of h id) ≡ (if slot_of h id == 0 then some n else none)
    → member (suc h) m id ≡ member h n id
unfolding member
member_alone h m n id low alone = rw alone (rw ((==_iff (slot_of h id) 0).1 low))

member_elsewhere :
    (h : ℕ) (m : Node (suc h)) (n : Node h) (id : ℕ)
    → slot_of h id ≢ 0
    → child h m (slot_of h id) ≡ (if slot_of h id == 0 then some n else none)
    → member (suc h) m id ≡ false
unfolding member
member_elsewhere h m n id high alone =
    let off : (slot_of h id == 0) ≡ false = ground arith in rw alone (rw off)

-- A level more or less on top changes no id.
pub contains-IsAlone :
    (h : ℕ) (m : Node (suc h)) (n : Node h) (id : ℕ)
    → IsAlone h m n
    → id < 2 ^ 32
    → contains_at (suc h) m id ≡ contains_at h n id
contains-IsAlone h m n id alone p = elim (Bool-cases (too_low h id)) [
  | inr e ↦
      let fits = covers-lt h id p e in
      let higher : id < 2 ^ span (suc h) = rw (pow_span-suc h) (omega arith) in
      rw (contains_covered h n id e, contains_covered (suc h) m id (lt-covers (suc h) id higher))
        (member_alone h m n id (slot_low h id fits) (alone (slot_of h id) (slot-lt h id)))
  | inl e ↦ rw (contains_outside h n id e) (elim (Bool-cases (too_low (suc h) id)) [
    | inl e' ↦ contains_outside (suc h) m id e'
    | inr e' ↦
        contains_covered (suc h) m id e'
        ∙ member_elsewhere h m n id
            (slot_high h id (rw (← pow_span-suc h) (covers-lt (suc h) id p e')) (outside h id e))
            (alone (slot_of h id) (slot-lt h id))
  ])
]

one_child : 1 ≡ ones_below 64 (set_bit zero_word 0)
unfolding ones_below
one_child = refl

pub lifted-IsShaped : (h : ℕ) (n : Node h) → IsShaped h n → IsShaped (suc h) (lifted h n)
unfolding lifted
lifted-IsShaped h n shaped = (one_child, (shaped, tt))

-- What the growing loop gives: the same ids in a tree that covers `id`.
pub record Grows (h : ℕ) (n : Node h) (id : ℕ) (m : (k : ℕ) × Node k) : Type 0 where
  pub shaped : IsShaped m.0 m.1
  pub reaches : too_low m.0 id ≡ false
  pub same_ids : (j : ℕ) → j < 2 ^ 32 → contains_at m.0 m.1 j ≡ contains_at h n j

pub grow-Grows :
    (fuel h : ℕ) (n : Node h) (id : ℕ)
    → 4 ≤ h + fuel
    → IsShaped h n
    → Grows h n id (grow fuel h n id)
unfolding grow
grow-Grows zero h n id p shaped = record {
  shaped = shaped;
  reaches = tall h id (omega arith);
  same_ids = λ j q. refl;
}
grow-Grows (suc fuel) h n id p shaped = elim (Bool-cases (too_low h id)) [
  | inr e ↦ rw e (record { shaped = shaped; reaches = e; same_ids = λ j q. refl })
  | inl e ↦
      let rest =
        grow-Grows fuel (suc h) (lifted h n) id (omega arith) (lifted-IsShaped h n shaped) in
      rw e (record {
        shaped = rest.shaped;
        reaches = rest.reaches;
        same_ids =
            λ j q. rest.same_ids j q ∙ contains-IsAlone h (lifted h n) n j (lifted-IsAlone h n) q;
      })
]

-- Ids below 2 ^ 32 that a tree covers have one path only if they are one.
pub apart : (h i j : ℕ) → i < 2 ^ span h → j < 2 ^ span h → same_path h i j ≡ (i == j)
apart h i j p q = elim (Bool-cases (same_path h i j)) [
  | inl e ↦ rw (e, same_path-eq h i j p q e) (ground arith)
  | inr e ↦ elim (Bool-cases (i == j)) [
    | inl e' ↦ rw e' (subst (λ k. same_path h i k ≡ true) ((==_iff i j).0 e') (same_path_refl h i))
    | inr e' ↦ rw (e, e')
  ]
]

pub differs : (h i j : ℕ) → too_low h i ≡ false → too_low h j ≡ true → (i == j) ≡ false
differs h i j p q = elim (Bool-cases (i == j)) [
  | inl e ↦ cc (ap (too_low h) ((==_iff i j).0 e))
  | inr e ↦ e
]
