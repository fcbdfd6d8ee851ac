-- ===== src/Bitmap/Ops/Build.antt =====
-- What the builder of ops.go assembles, slot by slot.
use go_maemmidb.Base.{
  ℕ, zero, suc, ◌<◌, ◌≤◌, ◌≡◌, refl, ap, sym, ◌∙◌, true, false, arith, List, [], ◌∷◌, ◌++◌, Option,
  none, some, ltb, ◌==◌, ==_iff, if◌then◌else◌, inl, inr, Bool-cases, length, length-append, Word,
  zero_word, ones_below, ones_below_zero, same_below, same_below-eq, insert_at, Every,
  Every-insert_at,
}
use go_maemmidb.Bitmap.{Node, kid}
use go_maemmidb.Bitmap.Shape.{IsShaped, IsShapedChild, child}
use go_maemmidb.Bitmap.Children.{ranked, ranked-insert, more_bits}
use go_maemmidb.Bitmap.Ops.{Builder, new_builder, add, collect, build}

append_insert {ℓ} : {A : Type ℓ} (xs : List A) (v : A) → xs ++ v ∷ [] ≡ insert_at xs (length xs) v
unfolding insert_at
append_insert [] v = refl
append_insert (x ∷ xs) v = ap (λ ys. x ∷ ys) (append_insert xs v)

ones_below_top :
    (n k : ℕ) (w : Word) → ((s : ℕ) → k ≤ s → w s ≡ false) → k ≤ n → ones_below n w ≡ ones_below k w
unfolding ones_below
ones_below_top zero k w h p = let e : k ≡ 0 = omega arith in rw e
ones_below_top (suc n) k w h p = elim (Bool-cases (k == suc n)) [
  | inl e ↦ rw ((==_iff k (suc n)).0 e)
  | inr e ↦
      let off = h n (ground arith) in rw off (omega (arith, ones_below_top n k w h (ground arith)))
]

-- The builder after the slots below `k`, where slot s gave the child `o s`.
pub record Collects (h k : ℕ) (o : ℕ → Option (Node h)) (r : Builder (Node h)) : Type 0 where
  pub counted : length r.kids ≡ ones_below 64 r.present
  pub clear_above : (s : ℕ) → k ≤ s → r.present s ≡ false
  pub children : (s : ℕ) → s < 64 → ranked r.kids r.present s ≡ (if ltb s k then o s else none)
  pub shaped : Every (IsShaped h) r.kids

one_more :
    {A : Type 0} (o : ℕ → Option A) (k s : ℕ)
    → o k ≡ none
    → (if ltb s k then o s else none) ≡ (if ltb s (suc k) then o s else none)
one_more o k s e = elim (Bool-cases (s == k)) [
  | inl same ↦ let here = ap o ((==_iff s k).0 same) ∙ e in rw here (ground arith)
  | inr other ↦ ground arith
]

one_added :
    {A : Type 0} (o : ℕ → Option A) (k s : ℕ) (n : A)
    → o k ≡ some n
    → (if k == s then some n else if ltb s k then o s else none)
      ≡ (if ltb s (suc k) then o s else none)
one_added o k s n e = elim (Bool-cases (k == s)) [
  | inl same ↦ let here = ap o (sym ((==_iff k s).0 same)) ∙ e in rw here (ground arith)
  | inr other ↦ ground arith
]

module _ (h k : ℕ) (o : ℕ → Option (Node h)) (r : Builder (Node h)) (c : Collects h k o r)
    (p : k < 64) where
  rank : length r.kids ≡ ones_below k r.present
  rank = c.counted ∙ ones_below_top 64 k r.present c.clear_above (omega arith)

  pub add-Collects :
      (child : Option (Node h))
      → o k ≡ child
      → IsShapedChild h child
      → Collects h (suc k) o (add h r k child)
  unfolding add
  add-Collects none e shaped = record {
    counted = c.counted;
    clear_above = λ s q. c.clear_above s (omega arith);
    children = λ s q. c.children s q ∙ one_more o k s e;
    shaped = c.shaped;
  }
  add-Collects (some n) e shaped = record {
    counted = omega (
      arith,
      length-append r.kids (n ∷ []),
      c.counted,
      more_bits k r.present p (c.clear_above k (omega arith)),
    );
    clear_above = λ s q. ground (arith, c.clear_above s);
    children = λ s q.
        rw
          (
            append_insert r.kids n,
            rank,
            ranked-insert r.kids r.present k n s c.counted p q (c.clear_above k (omega arith)),
            c.children s q,
          )
          (one_added o k s n e);
    shaped =
        rw (append_insert r.kids n)
          (Every-insert_at (IsShaped h) r.kids (length r.kids) n c.shaped shaped);
  }

-- The child of a node that may be nil.
abbrev pub child_of : (h : ℕ) → Option (Node (suc h)) → ℕ → Option (Node h)
child_of h none s = none
child_of h (some n) s = child h n s

pub q_true : (s n : ℕ) → s < n → ltb s n ≡ true
q_true s n p = ground arith

new_builder-Collects : (h : ℕ) (o : ℕ → Option (Node h)) → Collects h 0 o (new_builder h)
unfolding new_builder
new_builder-Collects h o = record {
  counted = sym (ones_below_zero 64);
  clear_above = λ s p. refl;
  children = λ s q. ground arith;
  shaped = tt;
}

-- The loop of the set operations, where its body gives the child `o s` for slot s.
pub collect-Collects :
    (h : ℕ) (child_at : ℕ → Option (Option (Node h))) (o : ℕ → Option (Node h))
    → ((s : ℕ) → s < 64 → child_at s ≡ some (o s))
    → ((s : ℕ) → s < 64 → IsShapedChild h (o s))
    → (k : ℕ) → k ≤ 64
    → (r : Builder (Node h)) × (collect h child_at k ≡ some r) × Collects h k o r
unfolding collect
collect-Collects h child_at o gives shaped zero p = (new_builder h, refl, new_builder-Collects h o)
collect-Collects h child_at o gives shaped (suc k) p =
    let (r, run, c) = collect-Collects h child_at o gives shaped k (omega arith) in
    (
      add h r k (o k),
      rw (run, gives k (omega arith)),
      add-Collects h k o r c (omega arith) (o k) refl (shaped k (omega arith)),
    )

-- What is built has the collected children.
pub build-children :
    (h : ℕ) (o : ℕ → Option (Node h)) (r : Builder (Node h))
    → Collects h 64 o r
    → (s : ℕ) → s < 64
    → child_of h (build h r) s ≡ o s
unfolding build child kid
build-children h o r c s q = elim (Bool-cases (same_below 64 r.present zero_word)) [
  | inl e ↦
      let off = same_below-eq 64 r.present zero_word e s q in
      rw e (rw (q_true s 64 q) at (rw off at (c.children s q)))
  | inr e ↦ rw e (c.children s q ∙ rw (q_true s 64 q))
]

pub build-IsShaped :
    (h : ℕ) (o : ℕ → Option (Node h)) (r : Builder (Node h))
    → Collects h 64 o r
    → IsShapedChild (suc h) (build h r)
unfolding build
build-IsShaped h o r c = elim (Bool-cases (same_below 64 r.present zero_word)) [
  | inl e ↦ rw e tt
  | inr e ↦ rw e (c.counted, c.shaped)
]
