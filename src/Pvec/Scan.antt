-- ===== src/Pvec/Scan.antt =====
-- The cursor of pvec.go, which keeps the leaf that it read last.
use native.Mathlib.Nat.{div-div-eq-div-mul}
use mathlib.Core.Path.{ap₂}
use go_maemmidb.Base.{
  ℕ, zero, suc, ◌*◌, ◌/◌, ◌^◌, ◌≡◌, refl, ap, sym, ◌∙◌, true, ◌||◌, not, arith, ◌==◌, inl, inr,
  Bool-cases, Option, none, some, List, [], ◌∷◌, map,
}
use go_maemmidb.Base.Digits.{pow2-add}
use go_maemmidb.Pvec.{
  span, Node, Vector, too_low, leaf, descend, slot_of, get, Cursor, cursor, base_of, seek, scan,
}

-- What is above the leaf's own bits decides the way to the leaf.
high_bits : (h i j : ℕ) → i / 16 ≡ j / 16 → i / 2 ^ span h ≡ j / 2 ^ span h
unfolding span
high_bits h i j e = rw (
  pow2-add 4 (5 * h),
  ← div-div-eq-div-mul i 16 (2 ^ (5 * h)),
  ← div-div-eq-div-mul j 16 (2 ^ (5 * h)),
  e,
)

same_base : (i j : ℕ) → base_of i ≡ base_of j → i / 16 ≡ j / 16
unfolding base_of
same_base i j e = omega arith

module _ (V : Type 0) where
  descend_same :
      (h : ℕ) (m : Option (Node V h)) (i j : ℕ)
      → i / 16 ≡ j / 16
      → descend V h m i ≡ descend V h m j
  unfolding descend
  descend_same zero m i j e = refl
  descend_same (suc h) none i j e = refl
  descend_same (suc h) (some n) i j e = rw (high_bits h i j e) (descend_same h _ i j e)

  leaf_same : (v : Vector V) (i j : ℕ) → base_of i ≡ base_of j → leaf V v i ≡ leaf V v j
  unfolding leaf too_low
  leaf_same v i j e =
      let high = same_base i j e in
      rw (high_bits v.height i j high, descend_same v.height v.root i j high)

  -- The leaf that a cursor keeps is the one that holds every index of its range.
  abbrev IsFresh : Cursor V → Type 0
  IsFresh c = c.ok ≡ true → (i : ℕ) → base_of i ≡ c.base → c.last ≡ leaf V c.vector i

  cursor-IsFresh : (v : Vector V) → IsFresh (cursor V v)
  unfolding cursor
  cursor-IsFresh v p = cc

  seek-IsFresh : (c : Cursor V) (i : ℕ) → IsFresh c → IsFresh (seek V c i)
  unfolding seek
  seek-IsFresh c i f = elim (Bool-cases (not c.ok || not (base_of i == c.base))) [
    | inl e ↦ rw e (λ p j q. leaf_same c.vector i j (sym q))
    | inr e ↦ rw e f
  ]

  last-seek : (c : Cursor V) (i : ℕ) → IsFresh c → (seek V c i).last ≡ leaf V c.vector i
  unfolding seek
  last-seek c i f = elim (Bool-cases (not c.ok || not (base_of i == c.base))) [
    | inl e ↦ rw e
    | inr e ↦ rw e (f (ground arith) i (ground arith))
  ]

  vector-seek : (c : Cursor V) (i : ℕ) → (seek V c i).vector ≡ c.vector
  unfolding seek
  vector-seek c i = ground arith

  scan_fresh :
      (v : Vector V) (c : Cursor V) (is : List ℕ)
      → c.vector ≡ v
      → IsFresh c
      → scan V c is ≡ map (get V v) is
  unfolding scan get
  scan_fresh v c [] e f = refl
  scan_fresh v c (i ∷ is) e f =
      let found = last-seek c i f ∙ ap (λ w. leaf V w i) e in
      ap₂ ◌∷◌ (ap (λ l. slot_of V l i) found)
        (scan_fresh v (seek V c i) is (vector-seek c i ∙ e) (seek-IsFresh c i f))

  -- Reads through a cursor, at whatever indexes, are the reads of its vector.
  pub scan-cursor : (v : Vector V) (is : List ℕ) → scan V (cursor V v) is ≡ map (get V v) is
  unfolding cursor
  scan-cursor v is = scan_fresh v (cursor V v) is refl (cursor-IsFresh v)
