-- ===== src/Bitmap/Removing.antt =====
-- The contract of Clear of bitmap.go.
use go_maemmidb.Base.{
  ℕ, zero, suc, ◌+◌, ◌^◌, ◌<◌, ◌≤◌, ◌≡◌, refl, ap, sym, subst, ◌∙◌, true, false, ◌&&◌, not, arith,
  List, [], ◌∷◌, Option, none, some, holds, ◌==◌, ==_iff, inl, inr, Bool-cases, length, get_elem?,
  to_nat, set_bit, zero_word, same_below, same_below-eq, ones_below, ones_below_same,
  Every-get_elem?,
}
use go_maemmidb.Bitmap.{Node, Bitmap, at, empty, is_empty, len, too_low, has, canonical, clear}
use go_maemmidb.Bitmap.Path.{same_path, covers-lt}
use go_maemmidb.Bitmap.Shape.{IsShaped, member}
use go_maemmidb.Bitmap.Height.{
  contains, contains_at, IsShapedBitmap, contains_covered, contains_outside, apart,
}
use go_maemmidb.Bitmap.Laws.{has-contains}
use go_maemmidb.Bitmap.Sizes.{total, size, IsCounted}
use go_maemmidb.Bitmap.Counting.{IsCountedBitmap, counted-IsCountedBitmap, len-at}
use go_maemmidb.Bitmap.Low.{canonical_low}
use go_maemmidb.Bitmap.Clearing.{Removes, clear_node-Removes}
use go_maemmidb.Bitmap.Ops.Levels.{canonical-Holds, empty-shaped}

only_one :
    {A : Type 0} (f : A → ℕ) (xs : List A)
    → length xs ≡ 1
    → (x : A) × (get_elem? xs 0 ≡ some x) × (total f xs ≡ f x)
unfolding total
only_one f [] e = absurd (omega (arith, e))
only_one f (x ∷ []) e = (x, refl, omega arith)
only_one f (x ∷ y ∷ xs) e = absurd (omega (arith, e))

lowest_only : ones_below 64 (set_bit zero_word 0) ≡ 1
unfolding ones_below
lowest_only = refl

-- Dropping the levels that only lead to child 0 keeps the counts right.
canonical-IsCountedBitmap :
    (h : ℕ) (n : Node h)
    → IsShaped h n
    → IsCounted h n
    → (c : Bitmap) × (canonical h n ≡ some c) × IsCountedBitmap c × (len c ≡ size h n)
unfolding canonical
canonical-IsCountedBitmap zero n shaped all =
    (at 0 n, refl, counted-IsCountedBitmap 0 n all, len-at 0 n all)
canonical-IsCountedBitmap (suc h) n shaped all =
    elim (Bool-cases (same_below 64 n.present (set_bit zero_word 0))) [
      | inr e ↦
          (at (suc h) n, rw e refl, counted-IsCountedBitmap (suc h) n all, len-at (suc h) n all)
      | inl e ↦
          let bits =
            ones_below_same 64 n.present (set_bit zero_word 0)
              (same_below-eq 64 n.present (set_bit zero_word 0) e) in
          let (c, found, sum) = only_one (size h) n.kids (shaped.0 ∙ bits ∙ lowest_only) in
          let (d, run, below, same) =
            canonical-IsCountedBitmap h c (Every-get_elem? (IsShaped h) n.kids 0 shaped.1 found)
              (Every-get_elem? (IsCounted h) n.kids 0 all.2 found) in
          (d, rw (e, found) run, below, same ∙ sym (unfold size in sum))
    ]

-- What Clear promises.
pub record Clears (b : Bitmap) (id : ℕ) (c : Bitmap) : Type 0 where
  pub returns : clear b id ≡ some (c, contains b id)
  pub shaped : IsShapedBitmap c
  pub all : IsCountedBitmap c
  pub low : c.height ≤ b.height
  pub fewer : len c + to_nat (contains b id) ≡ len b
  pub ids : (j : ℕ) → j < 2 ^ 32 → contains c j ≡ (contains b j && not (id == j))

-- A node without an id that it held, in a tree that covers it.
contains-removed :
    (h : ℕ) (n : Node h) (o : Option (Node h)) (id j : ℕ)
    → too_low h id ≡ false
    → id < 2 ^ 32
    → j < 2 ^ 32
    → holds o (λ m. member h m j) ≡ (member h n j && not (same_path h id j))
    → holds o (λ m. contains_at h m j) ≡ (contains_at h n j && not (id == j))
contains-removed h n none id j reach p q e = elim (Bool-cases (too_low h j)) [
  | inl out ↦ rw (contains_outside h n j out) refl
  | inr within ↦
      rw
        (
          contains_covered h n j within,
          ← apart h id j (covers-lt h id p reach) (covers-lt h j q within),
        )
        e
]
contains-removed h n (some m) id j reach p q e = elim (Bool-cases (too_low h j)) [
  | inl out ↦ rw (contains_outside h n j out, contains_outside h m j out) refl
  | inr within ↦
      rw
        (
          contains_covered h n j within,
          contains_covered h m j within,
          ← apart h id j (covers-lt h id p reach) (covers-lt h j q within),
        )
        e
]

-- An id that is held is held by a node whose tree covers it.
held :
    (h : ℕ) (n : Node h) (id : ℕ)
    → contains_at h n id ≡ true
    → (too_low h id ≡ false) × (member h n id ≡ true)
held h n id e = elim (Bool-cases (too_low h id)) [
  | inl out ↦ cc (contains_outside h n id out, e)
  | inr within ↦ (within, sym (contains_covered h n id within) ∙ e)
]

kept_ids :
    (b : Bitmap) (id j : ℕ) → contains b id ≡ false → contains b j ≡ (contains b j && not (id == j))
kept_ids b id j off = elim (Bool-cases (id == j)) [
  | inr away ↦ rw away (ground arith)
  | inl here ↦
      let gone : contains b j ≡ false = ap (contains b) (sym ((==_iff id j).0 here)) ∙ off in
      rw gone refl
]

pub nothing_in : (j : ℕ) → contains empty j ≡ false
unfolding contains
nothing_in j = refl

cleared :
    (h : ℕ) (n : Node h) (id : ℕ) (o : Option (Node h))
    → has (at h n) id ≡ some true
    → too_low h id ≡ false
    → id < 2 ^ 32
    → contains_at h n id ≡ true
    → len (at h n) ≡ size h n
    → Removes h n id o
    → (c : Bitmap) × Clears (at h n) id c
unfolding clear len
cleared h n id none asked reach p on same r = (
  empty,
  record {
    returns = rw (asked, r.returns, on) refl;
    shaped = empty-shaped;
    all = λ m e. cc;
    low = omega arith;
    fewer = rw on (sym (same ∙ r.left));
    ids = λ j q. nothing_in j ∙ contains-removed h n none id j reach p q (r.ids j);
  },
)
cleared h n id (some m) asked reach p on same r =
    let (shape, counts, less) = r.left in
    let (c, held) = canonical-Holds h m shape in
    let (d, run, all, sum) = canonical-IsCountedBitmap h m shape counts in
    let e : d ≡ c = cc (sym run ∙ held.returns) in
    (
      c,
      record {
        returns = rw (asked, r.returns, on) (rw held.returns refl);
        shaped = held.shaped;
        all = subst IsCountedBitmap e all;
        low = canonical_low h m c held.returns;
        fewer = rw on (ap (λ x. x + 1) (sym (ap len e) ∙ sum) ∙ less ∙ sym same);
        ids = λ j q. held.ids j q ∙ contains-removed h n (some m) id j reach p q (r.ids j);
      },
    )

clear_at :
    (h : ℕ) (root : Option (Node h)) (id : ℕ)
    → IsShapedBitmap (record { height = h; root = root })
    → IsCountedBitmap (record { height = h; root = root })
    → len (record { height = h; root = root }) < 2 ^ 32
    → id < 2 ^ 32
    → contains (record { height = h; root = root }) id ≡ true
    → (c : Bitmap) × Clears (record { height = h; root = root }) id c
clear_at h none id shaped all room p on = absurd (unfold contains in cc)
clear_at h (some n) id shaped all room p on =
    let (reach, inside) = held h n id on in
    let sum = len-at h n (all n refl) in
    let (o, r) =
      clear_node-Removes h n id (shaped n refl) (all n refl) (omega (arith, sum, room)) inside in
    cleared h n id o (has-contains (at h n) id shaped ∙ ap some on) reach p on sum r

pub clear-Clears :
    (b : Bitmap) (id : ℕ)
    → IsShapedBitmap b
    → IsCountedBitmap b
    → len b < 2 ^ 32
    → id < 2 ^ 32
    → (c : Bitmap) × Clears b id c
clear-Clears b id shaped all room p = elim (Bool-cases (contains b id)) [
  | inl on ↦ clear_at b.height b.root id shaped all room p on
  | inr off ↦ (
    b,
    record {
      returns = unfold clear in rw (has-contains b id shaped, off) refl;
      shaped = shaped;
      all = all;
      low = omega arith;
      fewer = rw off (omega arith);
      ids = λ j q. kept_ids b id j off;
    },
  )
]

-- Clear of an id below 2 ^ 32 in a well-shaped set whose counts are right, of fewer than 2 ^ 32 ids,
-- does not panic: it says whether the id was held and returns a well-shaped set whose counts are
-- right, that holds of the ids below 2 ^ 32 those that were held less the one, and whose Len is
-- less by one exactly if the id was held.
pub contains-clear :
    (b : Bitmap) (id j : ℕ)
    → IsShapedBitmap b
    → IsCountedBitmap b
    → len b < 2 ^ 32
    → id < 2 ^ 32
    → j < 2 ^ 32
    → (c : Bitmap) × (clear b id ≡ some (c, contains b id))
      × IsShapedBitmap c
      × IsCountedBitmap c
      × (len c + to_nat (contains b id) ≡ len b)
      × (contains c j ≡ (contains b j && not (id == j)))
contains-clear b id j shaped all room p q =
    let (c, r) = clear-Clears b id shaped all room p in
    (c, r.returns, r.shaped, r.all, r.fewer, r.ids j q)

is_empty_at :
    (h : ℕ) (root : Option (Node h)) (j : ℕ)
    → is_empty (record { height = h; root = root }) ≡ true
    → contains (record { height = h; root = root }) j ≡ false
unfolding is_empty contains
is_empty_at h none j e = refl
is_empty_at h (some n) j e = cc

pub contains-is_empty : (b : Bitmap) (j : ℕ) → is_empty b ≡ true → contains b j ≡ false
contains-is_empty b j e = is_empty_at b.height b.root j e
