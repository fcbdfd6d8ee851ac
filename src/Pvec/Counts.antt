-- ===== src/Pvec/Counts.antt =====
-- The counts that the nodes of pvec.go keep: what `IsCounted` gives `own`, `unless_unused` and `read`.
use go_maemmidb.Base.{
  ℕ, zero, suc, ◌+◌, ◌/◌, ◌%◌, ◌^◌, ◌<◌, ◌≤◌, ◌≡◌, refl, sym, arith, ◌==◌, inl, inr, Bool-cases,
  Option, none, some, sum_below, sum_below_zeros, le-sum_below,
}
use go_maemmidb.Pvec.{
  span, Node, uint32_mod, used_of, own_leaf, own_inner, read, leaf_used, unless_unused,
}

abbrev pub bit_of {ℓ} : {A : Type ℓ} → Option A → ℕ
bit_of none = 0
bit_of (some a) = 1

module _ (V : Type 0) where
  -- The count of every node is the number of values at or below it, and no node is empty.
  abbrev pub IsCounted : (h : ℕ) → Option (Node V h) → Type 0
  IsCounted zero none = Unit
  IsCounted zero (some n) = (n.used ≡ sum_below 16 (λ i. bit_of (n.vals i))) × (0 < n.used)
  IsCounted (suc h) none = Unit
  IsCounted (suc h) (some n) =
      (n.used ≡ sum_below 32 (λ i. used_of V h (n.kids i)))
      × (0 < n.used)
      × ((i : ℕ) → IsCounted h (n.kids i))

  pub used_none : (h : ℕ) → used_of V h none ≡ 0
  unfolding used_of
  used_none zero = refl
  used_none (suc h) = refl

  pub IsCounted-none : (h : ℕ) → IsCounted h none
  IsCounted-none zero = tt
  IsCounted-none (suc h) = tt

  pub read-none : (h i : ℕ) → read V h none i ≡ none
  unfolding read
  read-none zero i = refl
  read-none (suc h) i = refl

  pub none_of_used : (h : ℕ) (m : Option (Node V h)) → IsCounted h m → used_of V h m ≡ 0 → m ≡ none
  unfolding used_of
  none_of_used zero none c e = refl
  none_of_used zero (some n) c e = absurd (omega arith)
  none_of_used (suc h) none c e = refl
  none_of_used (suc h) (some n) c e = absurd (omega (arith, c.1))

  -- A leaf before it is dropped if nothing is left in it.
  module _ (n : Node V 0) (c : n.used ≡ sum_below 16 (λ i. bit_of (n.vals i))) where
    pub leaf-used : used_of V 0 (unless_unused V 0 n) ≡ n.used
    unfolding used_of unless_unused
    leaf-used = ground arith

    pub leaf-IsCounted : IsCounted 0 (unless_unused V 0 n)
    unfolding unless_unused
    leaf-IsCounted = elim (Bool-cases (n.used == 0)) [
      | inl e ↦ rw e tt
      | inr e ↦ rw e (c, ground arith)
    ]

    pub leaf-read : (i : ℕ) → read V 0 (unless_unused V 0 n) i ≡ n.vals (i % 16)
    unfolding unless_unused read
    leaf-read i = elim (Bool-cases (n.used == 0)) [
      | inl e ↦ ground (arith, le-sum_below 16 (λ i. bit_of (n.vals i)) (i % 16))
      | inr e ↦ rw e
    ]

  module _ (h : ℕ) (n : Node V (suc h)) (c : n.used ≡ sum_below 32 (λ i. used_of V h (n.kids i)))
      (k : (i : ℕ) → IsCounted h (n.kids i)) where
    pub inner-used : used_of V (suc h) (unless_unused V (suc h) n) ≡ n.used
    unfolding used_of unless_unused
    inner-used = ground arith

    pub inner-IsCounted : IsCounted (suc h) (unless_unused V (suc h) n)
    unfolding unless_unused
    inner-IsCounted = elim (Bool-cases (n.used == 0)) [
      | inl e ↦ rw e tt
      | inr e ↦ rw e (c, ground arith, k)
    ]

    pub inner-read :
        (i : ℕ)
        → read V (suc h) (unless_unused V (suc h) n) i ≡ read V h (n.kids (i / 2 ^ span h % 32)) i
    unfolding unless_unused read
    inner-read i = elim (Bool-cases (n.used == 0)) [
      | inl e ↦
          let slot = i / 2 ^ span h % 32 in
          let gone =
            none_of_used h (n.kids slot) (k slot)
              (ground (arith, le-sum_below 32 (λ i. used_of V h (n.kids i)) slot)) in
          rw (e, gone) (sym (read-none h i))
      | inr e ↦ rw e
    ]

  pub own_leaf-counted :
      (m : Option (Node V 0))
      → IsCounted 0 m
      → (own_leaf V m).used ≡ sum_below 16 (λ i. bit_of ((own_leaf V m).vals i))
  unfolding own_leaf
  own_leaf-counted none c = sym (sum_below_zeros 16 (λ i. 0) (λ i p. refl))
  own_leaf-counted (some n) c = c.0

  pub own_leaf-read : (m : Option (Node V 0)) (i : ℕ) → read V 0 m i ≡ (own_leaf V m).vals (i % 16)
  unfolding own_leaf read
  own_leaf-read none i = refl
  own_leaf-read (some n) i = refl

  pub own_leaf-used : (m : Option (Node V 0)) → (own_leaf V m).used ≡ used_of V 0 m
  unfolding own_leaf used_of
  own_leaf-used none = refl
  own_leaf-used (some n) = refl

  pub own_inner-counted :
      (h : ℕ) (m : Option (Node V (suc h)))
      → IsCounted (suc h) m
      → (own_inner V h m).used ≡ sum_below 32 (λ i. used_of V h ((own_inner V h m).kids i))
  unfolding own_inner
  own_inner-counted h none c = sym (sum_below_zeros 32 (λ i. used_of V h none) (λ i p. used_none h))
  own_inner-counted h (some n) c = c.0

  pub own_inner-kids :
      (h : ℕ) (m : Option (Node V (suc h)))
      → IsCounted (suc h) m
      → (i : ℕ) → IsCounted h ((own_inner V h m).kids i)
  unfolding own_inner
  own_inner-kids h none c i = IsCounted-none h
  own_inner-kids h (some n) c i = c.2 i

  pub own_inner-read :
      (h : ℕ) (m : Option (Node V (suc h))) (i : ℕ)
      → read V (suc h) m i ≡ read V h ((own_inner V h m).kids (i / 2 ^ span h % 32)) i
  unfolding own_inner read
  own_inner-read h none i = sym (read-none h i)
  own_inner-read h (some n) i = refl

  pub own_inner-used :
      (h : ℕ) (m : Option (Node V (suc h))) → (own_inner V h m).used ≡ used_of V (suc h) m
  unfolding own_inner used_of
  own_inner-used h none = refl
  own_inner-used h (some n) = refl

  pub leaf_used_lem :
      (used : ℕ) (was val : Option V)
      → bit_of was ≤ used
      → used + 1 < uint32_mod
      → leaf_used V used was val + bit_of was ≡ used + bit_of val
  unfolding leaf_used
  leaf_used_lem used none none p q = omega arith
  leaf_used_lem used none (some v) p q = omega arith
  leaf_used_lem used (some w) none p q = omega arith
  leaf_used_lem used (some w) (some v) p q = omega arith
