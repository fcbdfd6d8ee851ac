-- ===== src/Pvec/Write.antt =====
-- What `Writer.set` of pvec.go does to the counts and the values of a tree.
use go_maemmidb.Base.{
  ℕ, zero, suc, ◌+◌, ◌-◌, ◌/◌, ◌%◌, ◌^◌, ◌<◌, ◌≤◌, ◌≡◌, refl, ap, ◌∙◌, arith, ◌==◌, ==_iff,
  if◌then◌else◌, inl, inr, Bool-cases, Option, none, some, update, sum_below, sum_below_change,
  le-sum_below,
}
use go_maemmidb.Pvec.{
  span, Node, uint32_mod, used_of, own_leaf, own_inner, read, leaf_used, set_node,
}
use go_maemmidb.Pvec.Path.{same_path}
use go_maemmidb.Pvec.Counts.{
  bit_of, IsCounted, leaf-used, leaf-IsCounted, leaf-read, inner-used, inner-IsCounted, inner-read,
  own_leaf-counted, own_leaf-read, own_leaf-used, own_inner-counted, own_inner-kids, own_inner-read,
  own_inner-used, leaf_used_lem,
}

bit_of-le {ℓ} : {A : Type ℓ} (o : Option A) → bit_of o ≤ 1
bit_of-le none = omega arith
bit_of-le (some a) = omega arith

at_self {ℓ} :
    {A : Type ℓ} (f : ℕ → Option A) (i : ℕ) (v : Option A) → bit_of (update f i v i) ≡ bit_of v
at_self f i v = ground arith

module _ (V : Type 0) where
  -- The leaf that `set` builds, before it is dropped if nothing is left in it.
  abbrev leaf' : Option (Node V 0) → ℕ → Option V → Node V 0
  leaf' m i val = record {
    used = leaf_used V (own_leaf V m).used ((own_leaf V m).vals (i % 16)) val;
    vals = update (own_leaf V m).vals (i % 16) val;
  }

  leaf'-used :
      (m : Option (Node V 0)) (i : ℕ) (val : Option V)
      → IsCounted V 0 m
      → used_of V 0 m + 1 < uint32_mod
      → (leaf' m i val).used + bit_of (read V 0 m i) ≡ used_of V 0 m + bit_of val
  leaf'-used m i val c room =
      let n = own_leaf V m in
      let was = n.vals (i % 16) in
      let kept = own_leaf-counted V m c in
      let top = le-sum_below 16 (λ j. bit_of (n.vals j)) (i % 16) (omega arith) in
      rw (own_leaf-read V m i, ← own_leaf-used V m)
        (leaf_used_lem V n.used was val (omega arith) (omega (arith, own_leaf-used V m)))

  leaf'-counted :
      (m : Option (Node V 0)) (i : ℕ) (val : Option V)
      → IsCounted V 0 m
      → used_of V 0 m + 1 < uint32_mod
      → (leaf' m i val).used ≡ sum_below 16 (λ j. bit_of ((leaf' m i val).vals j))
  leaf'-counted m i val c room =
      let n = own_leaf V m in
      let change =
        sum_below_change 16 (λ j. bit_of (n.vals j)) (λ j. bit_of ((leaf' m i val).vals j)) (i % 16)
          (λ j p ne. ground arith) (omega arith) in
      omega (
        arith,
        own_leaf-counted V m c,
        leaf'-used m i val c room,
        change,
        ap bit_of (own_leaf-read V m i),
        own_leaf-used V m,
        at_self (own_leaf V m).vals (i % 16) val,
      )

  used_at_self :
      (h : ℕ) (f : ℕ → Option (Node V h)) (i : ℕ) (v : Option (Node V h))
      → used_of V h (update f i v i) ≡ used_of V h v
  used_at_self h f i v = ground arith

  abbrev inner' : (h : ℕ) → Option (Node V (suc h)) → ℕ → Option (Node V h) → Node V (suc h)
  inner' h m slot child =
      let n = own_inner V h m in
      record {
        used = (n.used + used_of V h child + uint32_mod - used_of V h (n.kids slot)) % uint32_mod;
        kids = update n.kids slot child;
      }

  module _ (h : ℕ) (m : Option (Node V (suc h))) (i : ℕ) (val : Option V) (slot : ℕ)
      (within : slot < 32) (child : Option (Node V h)) (old : ℕ) (c : IsCounted V (suc h) m)
      (room : used_of V (suc h) m + 1 < uint32_mod)
      (moved : used_of V h child + old
        ≡ used_of V h ((own_inner V h m).kids slot) + bit_of val) where
    inner'-used : (inner' h m slot child).used + old ≡ used_of V (suc h) m + bit_of val
    inner'-used =
        let kept = own_inner-counted V h m c in
        let part = le-sum_below 32 (λ j. used_of V h ((own_inner V h m).kids j)) slot within in
        omega (arith, own_inner-used V h m, bit_of-le val)

    inner'-counted :
        (inner' h m slot child).used
        ≡ sum_below 32 (λ j. used_of V h ((inner' h m slot child).kids j))
    inner'-counted =
        let n = own_inner V h m in
        let change =
          sum_below_change 32 (λ j. used_of V h (n.kids j))
            (λ j. used_of V h ((inner' h m slot child).kids j)) slot (λ j p ne. ground arith)
            within in
        omega (
          arith,
          own_inner-counted V h m c,
          own_inner-used V h m,
          inner'-used,
          change,
          used_at_self h n.kids slot child,
        )

  kids' :
      (h : ℕ) (f : ℕ → Option (Node V h)) (slot : ℕ) (child : Option (Node V h))
      → ((j : ℕ) → IsCounted V h (f j))
      → IsCounted V h child
      → (j : ℕ) → IsCounted V h (update f slot child j)
  kids' h f slot child all one j = elim (Bool-cases (slot == j)) [
    | inl e ↦ rw e one
    | inr e ↦ rw e (all j)
  ]

  -- The count stays right, and moves by the value that comes and the value that goes.
  pub record Counts (h : ℕ) (m : Option (Node V h)) (i : ℕ) (val : Option V) : Type 0 where
    pub counted : IsCounted V h (set_node V h m i val)
    pub moved :
        used_of V h (set_node V h m i val) + bit_of (read V h m i) ≡ used_of V h m + bit_of val

  pub set_node-Counts :
      (h : ℕ) (m : Option (Node V h)) (i : ℕ) (val : Option V)
      → IsCounted V h m
      → used_of V h m + 1 < uint32_mod
      → Counts h m i val
  unfolding set_node
  set_node-Counts zero m i val c room =
      let right = leaf'-counted m i val c room in
      record {
        counted = leaf-IsCounted V (leaf' m i val) right;
        moved = rw (leaf-used V (leaf' m i val) right) (leaf'-used m i val c room);
      }
  set_node-Counts (suc h) m i val c room =
      let n = own_inner V h m in
      let slot = i / 2 ^ span h % 32 in
      let child = set_node V h (n.kids slot) i val in
      let total = own_inner-counted V h m c in
      let part = le-sum_below 32 (λ j. used_of V h (n.kids j)) slot (omega arith) in
      let deeper =
        set_node-Counts h (n.kids slot) i val (own_inner-kids V h m c slot)
          (omega (arith, own_inner-used V h m)) in
      let old = bit_of (read V h (n.kids slot) i) in
      let right = inner'-counted h m i val slot (omega arith) child old c room deeper.moved in
      let all = kids' h n.kids slot child (own_inner-kids V h m c) deeper.counted in
      record {
        counted = inner-IsCounted V h (inner' h m slot child) right all;
        moved =
            rw (own_inner-read V h m i, inner-used V h (inner' h m slot child) right all)
              (inner'-used h m i val slot (omega arith) child old c room deeper.moved);
      }

  -- Every index with the written one's path reads the new value, every other what it did.
  pub read-set_node :
      (h : ℕ) (m : Option (Node V h)) (i j : ℕ) (val : Option V)
      → IsCounted V h m
      → used_of V h m + 1 < uint32_mod
      → read V h (set_node V h m i val) j ≡ (if same_path h i j then val else read V h m j)
  unfolding set_node same_path
  read-set_node zero m i j val c room =
      leaf-read V (leaf' m i val) (leaf'-counted m i val c room) j ∙ (rw (own_leaf-read V m j) refl)
  read-set_node (suc h) m i j val c room =
      let n = own_inner V h m in
      let slot = i / 2 ^ span h % 32 in
      let child = set_node V h (n.kids slot) i val in
      let total = own_inner-counted V h m c in
      let part = le-sum_below 32 (λ j. used_of V h (n.kids j)) slot (omega arith) in
      let fits : used_of V h (n.kids slot) + 1 < uint32_mod = omega (arith, own_inner-used V h m) in
      let kept = own_inner-kids V h m c in
      let deeper = set_node-Counts h (n.kids slot) i val (kept slot) fits in
      let old = bit_of (read V h (n.kids slot) i) in
      let right = inner'-counted h m i val slot (omega arith) child old c room deeper.moved in
      let all = kids' h n.kids slot child kept deeper.counted in
      let below = read-set_node h (n.kids slot) i j val (kept slot) fits in
      inner-read V h (inner' h m slot child) right all j
      ∙ elim (Bool-cases (slot == j / 2 ^ span h % 32)) [
        | inl e ↦ rw (e, own_inner-read V h m j, ← (==_iff slot (j / 2 ^ span h % 32)).0 e) below
        | inr e ↦ rw (e, own_inner-read V h m j)
      ]
