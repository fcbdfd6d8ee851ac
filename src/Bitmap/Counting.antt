-- ===== src/Bitmap/Counting.antt =====
-- The counts that Set of bitmap.go keeps in the nodes, and Len.
use go_maemmidb.Base.{
  ℕ, zero, suc, ◌+◌, ◌%◌, ◌^◌, ◌<◌, ◌≡◌, refl, ap, sym, subst, ◌∙◌, Bool, true, false, not, arith,
  Option, none, some, inl, inr, Bool-cases, to_nat, zero_word, ones_below, ones_below_zero,
  Every-insert_at, Every-set,
}
use native.Mathlib.Nat.{mod-eq_of_lt}
use go_maemmidb.Bitmap.{
  Node, Bitmap, at, too_low, len, kid, slot_of, word_of, bit_of, branch, with_bit, with_branch,
  with_child, set_node, fit_height, max_height, lifted, grow, set, uint32_mod,
}
use go_maemmidb.Bitmap.Shape.{IsShaped, slot-lt, kid_present}
use go_maemmidb.Bitmap.Sizes.{
  total, total-set, total-insert_at, bits_in, bits_in-set, size, IsCounted, counted, kid-IsCounted,
  kid-size, word_lt, bit_lt,
}
use go_maemmidb.Bitmap.Height.{contains, IsShapedBitmap, grow-Grows}
use go_maemmidb.Bitmap.Laws.{set-Inserts}

no_bits : bits_in (λ w. zero_word) ≡ 0
unfolding bits_in
no_bits = omega (arith, ones_below_zero 64)

size-branch : (h id : ℕ) → size h (branch h id) ≡ 1
unfolding size branch total
size-branch zero id =
    bits_in-set (λ w. zero_word) (word_of id) (bit_of id) (word_lt id) (bit_lt id) refl
    ∙ ap (λ n. n + 1) no_bits
size-branch (suc h) id = omega (arith, size-branch h id)

branch-IsCounted : (h id : ℕ) → IsCounted h (branch h id)
unfolding branch
branch-IsCounted zero id = (sym (size-branch zero id), omega arith)
branch-IsCounted (suc h) id =
    (sym (size-branch (suc h) id), omega arith, (branch-IsCounted h id, tt))

-- The node that `set` returns, counted.
record Counts (h : ℕ) (n : Node h) (id : ℕ) (m : Node h) (fresh : Bool) : Type 0 where
  pub returns : set_node h n id ≡ some (m, fresh)
  pub all : IsCounted h m
  pub grown : size h m ≡ size h n + to_nat fresh

one_more : (count s : ℕ) → count ≡ s → s + 1 < 2 ^ 32 → (count + 1) % uint32_mod ≡ s + 1
one_more count s e room = rw e (mod-eq_of_lt room)

with_bit-Counts :
    (n : Node 0) (id : ℕ)
    → IsCounted 0 n
    → size 0 n + 1 < 2 ^ 32
    → n.words (word_of id) (bit_of id) ≡ false
    → Counts 0 n id (with_bit n id) true
unfolding set_node with_bit size
with_bit-Counts n id all room e =
    let grown = bits_in-set n.words (word_of id) (bit_of id) (word_lt id) (bit_lt id) e in
    let count = one_more n.count (bits_in n.words) all.0 room in
    record { returns = rw e; all = (count ∙ sym grown, omega (arith, count)); grown = grown }

with_branch-Counts :
    (h : ℕ) (n : Node (suc h)) (id : ℕ)
    → IsCounted (suc h) n
    → size (suc h) n + 1 < 2 ^ 32
    → n.present (slot_of h id) ≡ false
    → Counts (suc h) n id (with_branch h n id) true
unfolding set_node with_branch size
with_branch-Counts h n id all room e =
    let i = ones_below (slot_of h id) n.present in
    let grown : size (suc h) (with_branch h n id) ≡ size (suc h) n + 1 =
      omega (arith, total-insert_at (size h) n.kids i (branch h id), size-branch h id) in
    let count = one_more n.count (total (size h) n.kids) all.0 room in
    record {
      returns = rw e;
      all = (
        count ∙ sym grown,
        omega (arith, count),
        Every-insert_at (IsCounted h) n.kids i (branch h id) all.2 (branch-IsCounted h id),
      );
      grown = grown;
    }

with_child-Counts :
    (h : ℕ) (n : Node (suc h)) (id : ℕ) (c m : Node h)
    → IsCounted (suc h) n
    → size (suc h) n + 1 < 2 ^ 32
    → n.present (slot_of h id) ≡ true
    → kid h n (slot_of h id) ≡ some c
    → Counts h c id m true
    → Counts (suc h) n id (with_child h n id m) true
unfolding set_node with_child size kid
with_child-Counts h n id c m all room on found below =
    let i = ones_below (slot_of h id) n.present in
    let grown : size (suc h) (with_child h n id m) ≡ size (suc h) n + 1 =
      omega (arith, total-set (size h) n.kids i c m found, below.grown) in
    let count = one_more n.count (total (size h) n.kids) all.0 room in
    record {
      returns = rw (on, found, below.returns);
      all = (
        count ∙ sym grown,
        omega (arith, count),
        Every-set (IsCounted h) n.kids i m all.2 below.all,
      );
      grown = grown;
    }

same-Counts :
    (h : ℕ) (n : Node (suc h)) (id : ℕ) (c m : Node h)
    → IsCounted (suc h) n
    → n.present (slot_of h id) ≡ true
    → kid h n (slot_of h id) ≡ some c
    → Counts h c id m false
    → Counts (suc h) n id n false
unfolding set_node kid
same-Counts h n id c m all on found below = record {
  returns = rw (on, found, below.returns);
  all = all;
  grown = omega arith;
}

set_node-Counts :
    (h : ℕ) (n : Node h) (id : ℕ)
    → IsShaped h n
    → IsCounted h n
    → size h n + 1 < 2 ^ 32
    → (m : Node h) × (fresh : Bool) × Counts h n id m fresh
unfolding set_node
set_node-Counts zero n id shaped all room = elim (Bool-cases (n.words (word_of id) (bit_of id))) [
  | inl e ↦ (n, false, record { returns = rw e; all = all; grown = omega arith })
  | inr e ↦ (with_bit n id, true, with_bit-Counts n id all room e)
]
set_node-Counts (suc h) n id shaped all room = elim (Bool-cases (n.present (slot_of h id))) [
  | inr e ↦ (with_branch h n id, true, with_branch-Counts h n id all room e)
  | inl e ↦
      let (c, found, below) = kid_present h n (slot_of h id) shaped (slot-lt h id) e in
      let less = kid-size h n (slot_of h id) c found in
      let (m, fresh, ih) =
        set_node-Counts h c id below (kid-IsCounted h n (slot_of h id) c all found)
          (omega (arith, less)) in
      (elim fresh
          as (λ f.
            Counts h c id m f → (m' : Node (suc h)) × (f' : Bool) × Counts (suc h) n id m' f') [
              | true ↦
                  λ a. (with_child h n id m, true, with_child-Counts h n id c m all room e found a)
              | false ↦ λ a. (n, false, same-Counts h n id c m all e found a)
            ])
        ih
]

lifted-IsCounted : (h : ℕ) (n : Node h) → IsCounted h n → IsCounted (suc h) (lifted h n)
unfolding lifted size total
lifted-IsCounted h n all =
    let (count, positive) = counted h n all in
    (omega (arith, count), omega (arith, count, positive), (all, tt))

size-lifted : (h : ℕ) (n : Node h) → size (suc h) (lifted h n) ≡ size h n
unfolding lifted size total
size-lifted h n = omega arith

-- A tree of some height with right counts, and its size.
record Sized (n : ℕ) (m : (k : ℕ) × Node k) : Type 0 where
  pub all : IsCounted m.0 m.1
  pub same : size m.0 m.1 ≡ n

grow-Sized :
    (fuel h : ℕ) (n : Node h) (id : ℕ) → IsCounted h n → Sized (size h n) (grow fuel h n id)
unfolding grow
grow-Sized zero h n id all = record { all = all; same = refl }
grow-Sized (suc fuel) h n id all = elim (Bool-cases (too_low h id)) [
  | inr e ↦ rw e (record { all = all; same = refl })
  | inl e ↦
      let rest = grow-Sized fuel (suc h) (lifted h n) id (lifted-IsCounted h n all) in
      rw e (record { all = rest.all; same = rest.same ∙ size-lifted h n })
]

abbrev pub IsCountedBitmap : Bitmap → Type 0
IsCountedBitmap b = (n : Node b.height) → b.root ≡ some n → IsCounted b.height n

pub counted-IsCountedBitmap : (h : ℕ) (n : Node h) → IsCounted h n → IsCountedBitmap (at h n)
counted-IsCountedBitmap h n all m e = let same : n ≡ m = cc in subst (IsCounted h) same all

pub len-at : (h : ℕ) (n : Node h) → IsCounted h n → len (at h n) ≡ size h n
unfolding len
len-at h n all = (counted h n all).0

set_counts :
    (h : ℕ) (root : Option (Node h)) (id : ℕ)
    → IsShapedBitmap (record { height = h; root = root })
    → IsCountedBitmap (record { height = h; root = root })
    → id < 2 ^ 32
    → len (record { height = h; root = root }) + 1 < 2 ^ 32
    → (c : Bitmap) × (fresh : Bool) × (set (record { height = h; root = root }) id
        ≡ some (c, fresh))
      × IsCountedBitmap c
      × (len c ≡ len (record { height = h; root = root }) + to_nat fresh)
unfolding set len
set_counts h none id shaped all small room =
    let k = fit_height max_height 0 id in
    let below = branch-IsCounted k id in
    (
      at k (branch k id),
      true,
      refl,
      counted-IsCountedBitmap k (branch k id) below,
      (counted k (branch k id) below).0 ∙ size-branch k id,
    )
set_counts h (some n) id shaped all small room =
    let g = grow max_height h n id in
    let shape = grow-Grows max_height h n id (omega arith) (shaped n refl) in
    let low = grow-Sized max_height h n id (all n refl) in
    let (count, positive) = counted h n (all n refl) in
    let (m, fresh, r) =
      set_node-Counts g.0 g.1 id shape.shaped low.all (omega (arith, low.same, count, room)) in
    (
      at g.0 m,
      fresh,
      rw r.returns refl,
      counted-IsCountedBitmap g.0 m r.all,
      omega (arith, (counted g.0 m r.all).0, r.grown, low.same, count),
    )

-- Set of an id below 2 ^ 32 in a well-shaped set whose counts are right, with room for one more
-- in 32 bits, returns a well-shaped set whose counts are right, and Len grows by one exactly if the
-- id was not held before.
pub len-set :
    (b : Bitmap) (id : ℕ)
    → IsShapedBitmap b
    → IsCountedBitmap b
    → id < 2 ^ 32
    → len b + 1 < 2 ^ 32
    → (c : Bitmap) × (set b id ≡ some (c, not (contains b id)))
      × IsShapedBitmap c
      × IsCountedBitmap c
      × (len c ≡ len b + to_nat (not (contains b id)))
len-set b id shaped all small room =
    let (c, r) = set-Inserts b id shaped small in
    let (d, fresh, run, all', more) = set_counts b.height b.root id shaped all small room in
    let same : d ≡ c = cc (sym run ∙ r.returns) in
    let new : fresh ≡ not (contains b id) = cc (sym run ∙ r.returns) in
    (
      c,
      r.returns,
      r.shaped,
      subst IsCountedBitmap same all',
      sym (ap len same) ∙ more ∙ ap (λ f. len b + to_nat f) new,
    )
