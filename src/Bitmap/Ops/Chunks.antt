-- ===== src/Bitmap/Ops/Chunks.antt =====
-- The chunk cases of and, or and andNot of ops.go: the ids of the result.
use go_maemmidb.Base.{
  ℕ, zero, suc, ◌<◌, ◌≡◌, refl, ap, sym, ◌∙◌, Bool, true, false, ◌&&◌, ◌||◌, not, arith, Option,
  none, some, holds, inl, inr, Bool-cases, Word, same_below-eq, and-left, and-right,
}
use go_maemmidb.Bitmap.{Node, word_of, bit_of}
use go_maemmidb.Bitmap.Shape.{IsShapedChild, member}
use go_maemmidb.Bitmap.Ops.{same_words, popcount, no_words, and_words, or_words, and_not_words}
use go_maemmidb.Bitmap.Ops.Slots.{IsIdentity}
use go_maemmidb.Bitmap.Ops.Combine.{Combines}

same_words-eq : (v w : ℕ → Word) (k i : ℕ) → same_words v w ≡ true → k < 4 → i < 64 → v k i ≡ w k i
unfolding same_words
same_words-eq v w zero i e p q =
    same_below-eq 64 (v 0) (w 0) (and-left _ _ (and-left _ _ (and-left _ _ e))) i q
same_words-eq v w (suc zero) i e p q =
    same_below-eq 64 (v 1) (w 1) (and-right _ _ (and-left _ _ (and-left _ _ e))) i q
same_words-eq v w (suc (suc zero)) i e p q =
    same_below-eq 64 (v 2) (w 2) (and-right _ _ (and-left _ _ e)) i q
same_words-eq v w (suc (suc (suc zero))) i e p q =
    same_below-eq 64 (v 3) (w 3) (and-right _ _ e) i q
same_words-eq v w (suc (suc (suc (suc k)))) i e p q = absurd (omega arith)

-- Two chunks whose words agree hold the same ids.
same_words-member :
    (v w : ℕ → Word) (j : ℕ)
    → same_words v w ≡ true
    → v (word_of j) (bit_of j) ≡ w (word_of j) (bit_of j)
same_words-member v w j e = same_words-eq v w (word_of j) (bit_of j) e (omega arith) (omega arith)

abbrev pub diff : Bool → Bool → Bool
diff a b = a && not b

pub and_same : (x : Bool) → x ≡ (x && x)
and_same x = ground arith

pub and_none : (x : Bool) → false ≡ (x && false)
and_none x = ground arith

pub or_same : (x : Bool) → x ≡ (x || x)
or_same x = ground arith

pub or_none : (x : Bool) → x ≡ (x || false)
or_none x = ground arith

pub diff_same : (x : Bool) → false ≡ diff x x
diff_same x = ground arith

pub diff_none : (x : Bool) → x ≡ diff x false
diff_none x = ground arith

-- The choice that ends the chunk case: nil, an operand, or a new chunk with the words.
module _ (f : Bool → Bool → Bool) (a b : Node 0) (w : ℕ → Word)
    (words : (k i : ℕ) → w k i ≡ f (a.words k i) (b.words k i)) where
  abbrev pub Chosen : Option (Node 0) → Type 0
  Chosen m =
      (j : ℕ)
      → holds m (λ n. n.words (word_of j) (bit_of j))
        ≡ f (a.words (word_of j) (bit_of j)) (b.words (word_of j) (bit_of j))

  Chosen-operand : (n : Node 0) → same_words w n.words ≡ true → Chosen (some n)
  Chosen-operand n e j = sym (same_words-member w n.words j e) ∙ words (word_of j) (bit_of j)

  Chosen-none : same_words w no_words ≡ true → Chosen none
  Chosen-none e j = sym (same_words-member w no_words j e) ∙ words (word_of j) (bit_of j)

  Chosen-built : (c : ℕ) → Chosen (some (record { count = c; words = w }))
  Chosen-built c j = words (word_of j) (bit_of j)

  -- A chunk has no children, so any choice is well shaped.
  pub Combines-chunk :
      (run : Option (Option (Node 0))) (m : Option (Node 0))
      → Chosen m
      → run ≡ some m
      → Combines f 0 (some a) (some b) run m
  unfolding member
  Combines-chunk run none chosen e = record { returns = e; shaped = tt; ids = chosen }
  Combines-chunk run (some n) chosen e = record { returns = e; shaped = tt; ids = chosen }

pub and_words-Chosen :
    (a b : Node 0)
    → Chosen ◌&&◌ a b (λ k i. a.words k i && b.words k i) (λ k i. refl) (and_words a b)
unfolding and_words
and_words-Chosen a b =
    let w = λ (k i : ℕ). a.words k i && b.words k i in
    elim (Bool-cases (same_words w no_words)) [
      | inl n ↦ rw n (Chosen-none ◌&&◌ a b w (λ k i. refl) n)
      | inr n ↦ elim (Bool-cases (same_words w a.words)) [
        | inl s ↦ rw (n, s) (Chosen-operand ◌&&◌ a b w (λ k i. refl) a s)
        | inr s ↦ elim (Bool-cases (same_words w b.words)) [
          | inl t ↦ rw (n, s, t) (Chosen-operand ◌&&◌ a b w (λ k i. refl) b t)
          | inr t ↦ rw (n, s, t) (Chosen-built ◌&&◌ a b w (λ k i. refl) (popcount w))
        ]
      ]
    ]

pub or_words-Chosen :
    (a b : Node 0)
    → Chosen ◌||◌ a b (λ k i. a.words k i || b.words k i) (λ k i. refl) (or_words a b)
unfolding or_words
or_words-Chosen a b =
    let w = λ (k i : ℕ). a.words k i || b.words k i in
    elim (Bool-cases (same_words w a.words)) [
      | inl s ↦ rw s (Chosen-operand ◌||◌ a b w (λ k i. refl) a s)
      | inr s ↦ elim (Bool-cases (same_words w b.words)) [
        | inl t ↦ rw (s, t) (Chosen-operand ◌||◌ a b w (λ k i. refl) b t)
        | inr t ↦ rw (s, t) (Chosen-built ◌||◌ a b w (λ k i. refl) (popcount w))
      ]
    ]

-- The union of two chunks is not nil.
pub or_words-some : (a b : Node 0) → (m : Node 0) × (or_words a b ≡ some m)
unfolding or_words
or_words-some a b =
    let w = λ (k i : ℕ). a.words k i || b.words k i in
    elim (Bool-cases (same_words w a.words)) [
      | inl s ↦ (a, rw s refl)
      | inr s ↦ elim (Bool-cases (same_words w b.words)) [
        | inl t ↦ (b, rw (s, t) refl)
        | inr t ↦ (record { count = popcount w; words = w }, rw (s, t) refl)
      ]
    ]

pub and_not_words-Chosen :
    (a b : Node 0)
    → Chosen diff a b (λ k i. a.words k i && not (b.words k i)) (λ k i. refl) (and_not_words a b)
unfolding and_not_words
and_not_words-Chosen a b =
    let w = λ (k i : ℕ). a.words k i && not (b.words k i) in
    elim (Bool-cases (same_words w no_words)) [
      | inl n ↦ rw n (Chosen-none diff a b w (λ k i. refl) n)
      | inr n ↦ elim (Bool-cases (same_words w a.words)) [
        | inl s ↦ rw (n, s) (Chosen-operand diff a b w (λ k i. refl) a s)
        | inr s ↦ rw (n, s) (Chosen-built diff a b w (λ k i. refl) (popcount w))
      ]
    ]

module _ (same : (h : ℕ) → Node h → Node h → Bool) (identity : IsIdentity same) where
  -- One pointer for both operands.
  pub Combines-same :
      (f : Bool → Bool → Bool) (h : ℕ) (a b : Node h) (m : Option (Node h))
      (run : Option (Option (Node h)))
      → same h a b ≡ true
      → run ≡ some m
      → IsShapedChild h m
      → ((j : ℕ) → holds m (λ n. member h n j) ≡ f (member h a j) (member h a j))
      → Combines f h (some a) (some b) run m
  Combines-same f h a b m run e r shaped ids = record {
    returns = r;
    shaped = shaped;
    ids = λ j. ids j ∙ ap (λ (t : Node h). f (member h a j) (member h t j)) (identity h a b e);
  }
