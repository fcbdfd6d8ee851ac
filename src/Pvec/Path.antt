-- ===== src/Pvec/Path.antt =====
-- The way of an index down the trie: span, the slots of `leaf`, and the test that a tree is too low.
use native.Mathlib.Nat.{mod-eq_of_lt}
use go_maemmidb.Base.{
  ℕ, zero, suc, ◌+◌, ◌*◌, ◌/◌, ◌%◌, ◌^◌, ◌<◌, ◌≤◌, ◌≡◌, ap, sym, ◌∙◌, Bool, true, false, ◌&&◌,
  arith, ◌==◌, inl, inr, ltb, Bool-cases,
}
use go_maemmidb.Base.Digits.{mod-mul-eq, pow2-add, pow2_pos, pow2_mono, lt_of_div-eq-zero}
use go_maemmidb.Pvec.{leaf_size, inner_size, span, too_low, fit_height}

pub pow_span-suc : (h : ℕ) → 2 ^ span (suc h) ≡ 2 ^ span h * 32
unfolding span
pow_span-suc h = ap (λ (n : ℕ). 2 ^ n) (omega arith) ∙ pow2-add (4 + 5 * h) 5

pub pow_span_pos : (h : ℕ) → 0 < 2 ^ span h
pow_span_pos h = pow2_pos (span h)

-- Two indexes take the same slot at every level of a tree.
unfoldable pub same_path : ℕ → ℕ → ℕ → Bool
same_path zero i j = i % leaf_size == j % leaf_size
same_path (suc h) i j =
    i / 2 ^ span h % inner_size == j / 2 ^ span h % inner_size && same_path h i j

pub same_path_refl : (h i : ℕ) → same_path h i i ≡ true
unfolding same_path
same_path_refl zero i = ground arith
same_path_refl (suc h) i = ground (arith, same_path_refl h i)

same_path-mod : (h i j : ℕ) → same_path h i j ≡ true → i % 2 ^ span h ≡ j % 2 ^ span h
unfolding same_path
same_path-mod zero i j p = unfold span in ground arith
same_path-mod (suc h) i j p = rw (pow_span-suc h) (
    mod-mul-eq i j (2 ^ span h) 32 (pow_span_pos h) (omega arith) (ground arith)
      (same_path-mod h i j (ground arith)))

-- A tree that is not too low spans the index.
pub covers-lt : (h i : ℕ) → i < 2 ^ 32 → too_low h i ≡ false → i < 2 ^ span h
unfolding too_low
covers-lt h i b p = elim (Bool-cases (ltb (span h) 32)) [
  | inl low ↦ lt_of_div-eq-zero i (2 ^ span h) (pow_span_pos h) (ground arith)
  | inr high ↦ let wide : 2 ^ 32 ≤ 2 ^ span h = pow2_mono 32 (span h) (ground arith) in omega arith
]

-- Two indexes with one path in a tree that spans them are one index.
pub same_path-eq : (h i j : ℕ) → i < 2 ^ span h → j < 2 ^ span h → same_path h i j ≡ true → i ≡ j
same_path-eq h i j p q s = sym (mod-eq_of_lt p) ∙ same_path-mod h i j s ∙ mod-eq_of_lt q

pub tall : (h i : ℕ) → 6 ≤ h → too_low h i ≡ false
unfolding too_low span
tall h i p = ground arith

-- The fuel of a growing loop is enough: it stops by its test.
pub fit_height_lem : (fuel h i : ℕ) → 6 ≤ h + fuel → too_low (fit_height fuel h i) i ≡ false
unfolding fit_height
fit_height_lem zero h i p = tall h i (omega arith)
fit_height_lem (suc fuel) h i p = elim (Bool-cases (too_low h i)) [
  | inl low ↦ rw low (fit_height_lem fuel (suc h) i (omega arith))
  | inr covered ↦ rw covered covered
]
