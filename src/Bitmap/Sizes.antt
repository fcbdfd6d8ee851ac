-- ===== src/Bitmap/Sizes.antt =====
-- How many ids a tree of bitmap.go holds, and what the stored counts must be.
use go_maemmidb.Base.{
  ℕ, zero, suc, ◌+◌, ◌<◌, ◌≤◌, ◌≡◌, ◌≢◌, refl, ap, sym, ◌∙◌, true, false, arith, List, [], ◌∷◌,
  some, ◌==◌, ==_iff, inl, inr, Bool-cases, get_elem?, set as set_elem, insert_at, remove_at, Word,
  set_bit, clear_bit, update, ones_below, ones_below-set, ones_below-clear, ones_below-lt, Every,
  Every-get_elem?,
}
use go_maemmidb.Bitmap.{Node, count_of, kid, slot_of, word_of, bit_of}
use go_maemmidb.Bitmap.Path.{same_path}
use go_maemmidb.Bitmap.Shape.{IsShaped, child, member, slot-lt, kid_present}
use go_maemmidb.Bitmap.Adding.{member_at, found_at, absent}

-- The sum of a measure over a list.
unfoldable pub total : {A : Type 0} → (A → ℕ) → List A → ℕ
total f [] = 0
total f (x ∷ xs) = f x + total f xs

module _ {A : Type 0} (f : A → ℕ) where
  pub total-set :
      (xs : List A) (i : ℕ) (a v : A)
      → get_elem? xs i ≡ some a
      → total f (set_elem xs i v) + f a ≡ total f xs + f v
  unfolding total
  total-set [] i a v e = cc
  total-set (x ∷ xs) zero a v e = let same : x ≡ a = cc in rw same (omega arith)
  total-set (x ∷ xs) (suc i) a v e = omega (arith, total-set xs i a v e)

  pub total-insert_at :
      (xs : List A) (i : ℕ) (v : A) → total f (insert_at xs i v) ≡ total f xs + f v
  unfolding total insert_at
  total-insert_at xs zero v = omega arith
  total-insert_at [] (suc i) v = omega arith
  total-insert_at (x ∷ xs) (suc i) v = omega (arith, total-insert_at xs i v)

  pub total-remove_at :
      (xs : List A) (i : ℕ) (a : A)
      → get_elem? xs i ≡ some a
      → total f (remove_at xs i) + f a ≡ total f xs
  unfolding total remove_at
  total-remove_at [] i a e = cc
  total-remove_at (x ∷ xs) zero a e = let same : x ≡ a = cc in rw same (omega arith)
  total-remove_at (x ∷ xs) (suc i) a e = omega (arith, total-remove_at xs i a e)

  pub total_one : (xs : List A) (i : ℕ) (a : A) → get_elem? xs i ≡ some a → f a ≤ total f xs
  unfolding total
  total_one [] i a e = cc
  total_one (x ∷ xs) zero a e = let same : x ≡ a = cc in rw same (omega arith)
  total_one (x ∷ xs) (suc i) a e = omega (arith, total_one xs i a e)

  pub total_two :
      (xs : List A) (i j : ℕ) (a b : A)
      → get_elem? xs i ≡ some a
      → get_elem? xs j ≡ some b
      → i ≢ j
      → f a + f b ≤ total f xs
  unfolding total
  total_two [] i j a b e e' ne = cc
  total_two (x ∷ xs) zero zero a b e e' ne = absurd (ne refl)
  total_two (x ∷ xs) zero (suc j) a b e e' ne =
      let same : x ≡ a = cc in rw same (omega (arith, total_one xs j b e'))
  total_two (x ∷ xs) (suc i) zero a b e e' ne =
      let same : x ≡ b = cc in rw same (omega (arith, total_one xs i a e))
  total_two (x ∷ xs) (suc i) (suc j) a b e e' ne =
      omega (arith, total_two xs i j a b e e' (λ s. ne (ap suc s)))

-- The bits of the four words of a chunk.
unfoldable pub bits_in : (ℕ → Word) → ℕ
bits_in words =
    ones_below 64 (words 0)
    + ones_below 64 (words 1)
    + ones_below 64 (words 2)
    + ones_below 64 (words 3)

-- How many ids a tree holds.
unfoldable pub size : (h : ℕ) → Node h → ℕ
unfolding bits_in total
size zero n = bits_in n.words
size (suc h) n = total (size h) n.kids

-- Every node stores its size, which is not 0.
abbrev pub IsCounted : (h : ℕ) → Node h → Type 0
IsCounted zero n = (n.count ≡ size zero n) × (0 < n.count)
IsCounted (suc h) n = (n.count ≡ size (suc h) n) × (0 < n.count) × Every (IsCounted h) n.kids

pub counted : (h : ℕ) (n : Node h) → IsCounted h n → (count_of h n ≡ size h n) × (0 < size h n)
unfolding count_of
counted zero n c = (c.0, omega (arith, c.0, c.1))
counted (suc h) n c = (c.0, omega (arith, c.0, c.1))

pub bits_in-set :
    (words : ℕ → Word) (w b : ℕ)
    → w < 4
    → b < 64
    → words w b ≡ false
    → bits_in (update words w (set_bit (words w) b)) ≡ bits_in words + 1
unfolding bits_in
bits_in-set words w b p q e = elim (Bool-cases (w == 0)) [
  | inl z ↦ rw ((==_iff w 0).0 z) (ground (arith, ones_below-set 64 b (words w)))
  | inr z ↦ ground (arith, ones_below-set 64 b (words w))
]

pub bits_in-clear :
    (words : ℕ → Word) (w b : ℕ)
    → w < 4
    → b < 64
    → words w b ≡ true
    → bits_in (update words w (clear_bit (words w) b)) + 1 ≡ bits_in words
unfolding bits_in
bits_in-clear words w b p q e = elim (Bool-cases (w == 0)) [
  | inl z ↦ rw ((==_iff w 0).0 z) (ground (arith, ones_below-clear 64 b (words w)))
  | inr z ↦ ground (arith, ones_below-clear 64 b (words w))
]

bits_in_one :
    (words : ℕ → Word) (w b : ℕ)
    → w < 4
    → b < 64
    → words w b ≡ true
    → ones_below 64 (words w) ≤ bits_in words
unfolding bits_in
bits_in_one words w b p q e = ground arith

bits_in_two :
    (words : ℕ → Word) (v w : ℕ)
    → v < 4
    → w < 4
    → v ≢ w
    → ones_below 64 (words v) + ones_below 64 (words w) ≤ bits_in words
unfolding bits_in
bits_in_two words v w p q ne = ground arith

two_bits :
    (w : Word) (i j : ℕ) → i < 64 → j < 64 → w i ≡ true → w j ≡ true → i ≢ j → 1 < ones_below 64 w
two_bits w i j p q e e' ne =
    ground
      (arith, ones_below-lt i j w, ones_below-lt j i w, ones_below-lt i 64 w, ones_below-lt j 64 w)

pub word_lt : (id : ℕ) → word_of id < 4
word_lt id = omega arith

pub bit_lt : (id : ℕ) → bit_of id < 64
bit_lt id = omega arith

not_equal : (a b : ℕ) → (a == b) ≡ false → a ≢ b
not_equal a b e = ground arith

-- Two bits of a chunk of one bit are one.
one_word :
    (words : ℕ → Word) (v w i j : ℕ)
    → bits_in words ≡ 1
    → v < 4
    → w < 4
    → i < 64
    → j < 64
    → words v i ≡ true
    → words w j ≡ true
    → (v == w) ≡ true
one_word words v w i j one p q b c e e' = elim (Bool-cases (v == w)) [
  | inl here ↦ here
  | inr away ↦
      let two = bits_in_two words v w p q (not_equal v w away) in
      let left = ones_below-lt i 64 (words v) b e in
      let right = ones_below-lt j 64 (words w) c e' in absurd (omega (arith, one, two, left, right))
]

one_bit :
    (words : ℕ → Word) (w i j : ℕ)
    → bits_in words ≡ 1
    → w < 4
    → i < 64
    → j < 64
    → words w i ≡ true
    → words w j ≡ true
    → (i == j) ≡ true
one_bit words w i j one p b c e e' = elim (Bool-cases (i == j)) [
  | inl here ↦ here
  | inr away ↦
      let less = bits_in_one words w i p b e in
      let two = two_bits (words w) i j b c e e' (not_equal i j away) in
      absurd (omega (arith, one, less, two))
]

-- A chunk of one id holds no other.
alone_chunk :
    (n : Node 0) (id j : ℕ)
    → size 0 n ≡ 1
    → member 0 n id ≡ true
    → member 0 n j ≡ true
    → same_path 0 id j ≡ true
unfolding size member same_path
alone_chunk n id j one e e' =
    let here =
      one_word n.words (word_of id) (word_of j) (bit_of id) (bit_of j) one (word_lt id) (word_lt j)
        (bit_lt id) (bit_lt j) e e' in
    let e'' : n.words (word_of id) (bit_of j) ≡ true =
      ap (λ w. n.words w (bit_of j)) ((==_iff _ _).0 here) ∙ e' in
    let there =
      one_bit n.words (word_of id) (bit_of id) (bit_of j) one (word_lt id) (bit_lt id) (bit_lt j) e
        e'' in
    rw (here, there)

-- A child that an id leads to: a kid of the node.
pub record Leads (h : ℕ) (n : Node (suc h)) (id : ℕ) (c : Node h) : Type 0 where
  pub on : n.present (slot_of h id) ≡ true
  pub kid_at : kid h n (slot_of h id) ≡ some c
  pub child_at : child h n (slot_of h id) ≡ some c
  pub shaped : IsShaped h c
  pub below : member (suc h) n id ≡ member h c id

pub leads :
    (h : ℕ) (n : Node (suc h)) (id : ℕ)
    → IsShaped (suc h) n
    → member (suc h) n id ≡ true
    → (c : Node h) × Leads h n id c
leads h n id shaped e = elim (Bool-cases (n.present (slot_of h id))) [
  | inr off ↦ cc (member_at h n id (absent h n (slot_of h id) off), e)
  | inl on ↦
      let (c, found, below) = kid_present h n (slot_of h id) shaped (slot-lt h id) on in
      let child_at = found_at h n (slot_of h id) on found in
      (
        c,
        record {
          on = on;
          kid_at = found;
          child_at = child_at;
          shaped = below;
          below = member_at h n id child_at;
        },
      )
]

pub kid-IsCounted :
    (h : ℕ) (n : Node (suc h)) (slot : ℕ) (c : Node h)
    → IsCounted (suc h) n
    → kid h n slot ≡ some c
    → IsCounted h c
unfolding kid
kid-IsCounted h n slot c all e =
    Every-get_elem? (IsCounted h) n.kids (ones_below slot n.present) all.2 e

pub kid-size :
    (h : ℕ) (n : Node (suc h)) (slot : ℕ) (c : Node h)
    → kid h n slot ≡ some c
    → size h c ≤ size (suc h) n
unfolding kid size
kid-size h n slot c e = total_one (size h) n.kids (ones_below slot n.present) c e

kid_two :
    (h : ℕ) (n : Node (suc h)) (s t : ℕ) (c d : Node h)
    → s < 64
    → t < 64
    → n.present s ≡ true
    → n.present t ≡ true
    → kid h n s ≡ some c
    → kid h n t ≡ some d
    → s ≢ t
    → size h c + size h d ≤ size (suc h) n
unfolding kid size
kid_two h n s t c d p q on on' e e' ne =
    let apart : ones_below s n.present ≢ ones_below t n.present =
      ground (arith, ones_below-lt s t n.present, ones_below-lt t s n.present) in
    total_two (size h) n.kids (ones_below s n.present) (ones_below t n.present) c d e e' apart

-- A tree of one id holds no other.
pub alone :
    (h : ℕ) (n : Node h) (id j : ℕ)
    → IsShaped h n
    → IsCounted h n
    → size h n ≡ 1
    → member h n id ≡ true
    → member h n j ≡ true
    → same_path h id j ≡ true
unfolding same_path
alone zero n id j shaped all one e e' = unfold same_path in alone_chunk n id j one e e'
alone (suc h) n id j shaped all one e e' =
    let (c, a) = leads h n id shaped e in
    let (d, b) = leads h n j shaped e' in
    let low = counted h c (kid-IsCounted h n (slot_of h id) c all a.kid_at) in
    elim (Bool-cases (slot_of h id == slot_of h j)) [
      | inr away ↦
          let ne = not_equal (slot_of h id) (slot_of h j) away in
          absurd (
            omega (
              arith,
              one,
              low.1,
              (counted h d (kid-IsCounted h n (slot_of h j) d all b.kid_at)).1,
              kid_two h n (slot_of h id) (slot_of h j) c d (slot-lt h id) (slot-lt h j) a.on b.on
                  a.kid_at b.kid_at ne,
            ))
      | inl here ↦
          let same : c ≡ d = cc (sym a.kid_at ∙ ap (kid h n) ((==_iff _ _).0 here) ∙ b.kid_at) in
          let one' : size h c ≡ 1 =
            omega (arith, one, low.1, kid-size h n (slot_of h id) c a.kid_at) in
          let in_c : member h c j ≡ true = ap (λ x. member h x j) same ∙ sym b.below ∙ e' in
          rw (here) (
            alone h c id j a.shaped (kid-IsCounted h n (slot_of h id) c all a.kid_at) one'
              (sym a.below ∙ e) in_c)
    ]
