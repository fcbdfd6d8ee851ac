-- ===== src/Bitmap/Least.antt =====
-- The contract of Min of bitmap.go.
use native.Mathlib.Nat.{
  div-lt_iff_lt-mul, div-add-mod', mod-mod, mod-eq_of_lt, mul-add-mod_self_right,
}
use go_maemmidb.Base.{
  ℕ, zero, suc, ◌+◌, ◌*◌, ◌/◌, ◌%◌, ◌^◌, ◌<◌, ◌≤◌, ◌≡◌, ◌⊎◌, refl, ap, sym, ◌∙◌, true, false, arith,
  List, [], ◌∷◌, Option, none, some, ◌==◌, ==_iff, inl, inr, Bool-cases, length, get_elem?,
  get_elem?-some, Word, zero_word, same_below, same_below-eq, trailing_zeros, lowest_from,
  ones_below, ones_below_same, ones_below_zero, Every-get_elem?,
}
use go_maemmidb.Base.Digits.{mod-mul-parts, top_digit, digit-lt}
use go_maemmidb.Bitmap.{Node, Bitmap, span, kid, slot_of, min_words, min_node, min, len}
use go_maemmidb.Bitmap.Path.{same_path, pow_span-suc, pow_span_pos}
use go_maemmidb.Bitmap.Shape.{IsShaped, child, member, member-same_path}
use go_maemmidb.Bitmap.Adding.{member_at, found_at, absent}
use go_maemmidb.Bitmap.Height.{contains, contains_at, IsShapedBitmap, contains_covered, lt-covers}
use go_maemmidb.Bitmap.Sizes.{bits_in, total, size, IsCounted}
use go_maemmidb.Bitmap.Counting.{IsCountedBitmap}

-- The lowest bit of a word among `n` from position `i` on.
record Lowest (n i : ℕ) (w : Word) (k : ℕ) : Type 0 where
  pub on : w k ≡ true
  pub above : i ≤ k
  pub within : k < i + n
  pub off : (j : ℕ) → i ≤ j → j < k → w j ≡ false

Lowest-cases :
    (n i : ℕ) (w : Word)
    → ((j : ℕ) → i ≤ j → j < i + n → w j ≡ false) ⊎ Lowest n i w (lowest_from n i w)
unfolding lowest_from
Lowest-cases zero i w = inl (λ j p q. absurd (omega arith))
Lowest-cases (suc n) i w = elim (Bool-cases (w i)) [
  | inl e ↦ inr (
      rw e (record {
        on = e;
        above = omega arith;
        within = omega arith;
        off = λ j p q. absurd (omega arith);
      }))
  | inr e ↦ elim (Lowest-cases n (suc i) w) [
    | inl none_on ↦ inl (λ j p q. elim (Bool-cases (i == j)) [
      | inl s ↦ ap w (sym ((==_iff i j).0 s)) ∙ e
      | inr s ↦ none_on j (ground arith) (omega arith)
    ])
    | inr l ↦ inr (
        rw e (record {
          on = l.on;
          above = omega (arith, l.above);
          within = omega (arith, l.within);
          off = λ j p q. elim (Bool-cases (i == j)) [
            | inl s ↦ ap w (sym ((==_iff i j).0 s)) ∙ e
            | inr s ↦ l.off j (ground arith) q
          ];
        }))
  ]
]

-- A word with a bit has a lowest one.
Lowest-of : (w : Word) → 0 < ones_below 64 w → Lowest 64 0 w (trailing_zeros w)
Lowest-of w some_on = elim (Lowest-cases 64 0 w) [
  | inr l ↦ l
  | inl none_on ↦
      let e = ones_below_same 64 w zero_word (λ j p. none_on j (omega arith) (omega arith)) in
      absurd (omega (arith, e, ones_below_zero 64))
]

-- Ids that agree on what a tree spans take one path in it.
mod-same_path : (h i j : ℕ) → i % 2 ^ span h ≡ j % 2 ^ span h → same_path h i j ≡ true
unfolding same_path
mod-same_path zero i j e = unfold span in ground (arith, e)
mod-same_path (suc h) i j e =
    let parts =
      mod-mul-parts i j (2 ^ span h) 64 (pow_span_pos h) (omega arith) (rw (← pow_span-suc h) e) in
    let slots : slot_of h i ≡ slot_of h j = unfold slot_of in parts.0 in
    rw ((==_iff _ _).1 slots, mod-same_path h i j parts.1) refl

-- The lowest id of a tree.
record Minimum (h : ℕ) (n : Node h) (m : ℕ) : Type 0 where
  pub returns : min_node h n ≡ some m
  pub fits : m < 2 ^ span h
  pub on : member h n m ≡ true
  pub off : (j : ℕ) → j < m → member h n j ≡ false

-- The lowest bit of the words from word w on, if there is one.
record LowestWord (n w : ℕ) (words : ℕ → Word) (m : ℕ) : Type 0 where
  pub returns : min_words n w words ≡ some m
  pub above : w * 64 ≤ m
  pub within : m < (w + n) * 64
  pub on : words (m / 64) (m % 64) ≡ true
  pub off : (j : ℕ) → w * 64 ≤ j → j < m → words (j / 64) (j % 64) ≡ false

no_bit_in : (w : Word) → same_below 64 w zero_word ≡ true → (b : ℕ) → b < 64 → w b ≡ false
no_bit_in w e b p = same_below-eq 64 w zero_word e b p

all_off : (n : ℕ) (w : Word) → ((j : ℕ) → j < n → w j ≡ false) → same_below n w zero_word ≡ true
unfolding same_below
all_off zero w h = refl
all_off (suc n) w h = rw (all_off n w (λ j p. h j (omega arith)), h n (omega arith)) refl

bit_in : (w : Word) → same_below 64 w zero_word ≡ false → Lowest 64 0 w (trailing_zeros w)
bit_in w e = elim (Lowest-cases 64 0 w) [
  | inr l ↦ l
  | inl none_on ↦ cc (all_off 64 w (λ j p. none_on j (omega arith) (omega arith)), e)
]

words_cases :
    (n w : ℕ) (words : ℕ → Word)
    → ((v : ℕ) → w ≤ v → v < w + n → same_below 64 (words v) zero_word ≡ true)
      ⊎ ((m : ℕ) × LowestWord n w words m)
unfolding min_words
words_cases zero w words = inl (λ v p q. absurd (omega arith))
words_cases (suc n) w words = elim (Bool-cases (same_below 64 (words w) zero_word)) [
  | inr e ↦
      let l = bit_in (words w) e in
      let b = trailing_zeros (words w) in
      let high : (w * 64 + b) / 64 ≡ w = omega (arith, l.within) in
      let low : (w * 64 + b) % 64 ≡ b = omega (arith, l.within) in
      inr (
        w * 64 + b,
        record {
          returns = rw e refl;
          above = omega arith;
          within = omega (arith, l.within);
          on = rw (high, low) l.on;
          off = λ j p q.
              let same : j / 64 ≡ w = omega (arith, l.within) in
              rw same (l.off (j % 64) (omega arith) (omega (arith, l.within)));
        },
      )
  | inl e ↦ elim (words_cases n (suc w) words) [
    | inl none_on ↦ inl (λ v p q. elim (Bool-cases (w == v)) [
      | inl s ↦ ap (λ x. same_below 64 (words x) zero_word) (sym ((==_iff w v).0 s)) ∙ e
      | inr s ↦ none_on v (ground arith) (omega arith)
    ])
    | inr (m, l) ↦ inr (
      m,
      record {
        returns = rw e l.returns;
        above = omega (arith, l.above);
        within = omega (arith, l.within);
        on = l.on;
        off = λ j p q. elim (Bool-cases (w == j / 64)) [
          | inl s ↦
              no_bit_in (words (j / 64))
                (ap (λ x. same_below 64 (words x) zero_word) (sym ((==_iff w (j / 64)).0 s)) ∙ e)
                (j % 64) (omega arith)
          | inr s ↦ l.off j (ground arith) q
        ];
      },
    )
  ]
]

chunk_bits_off :
    (words : ℕ → Word)
    → ((v : ℕ) → v < 4 → same_below 64 (words v) zero_word ≡ true)
    → bits_in words ≡ 0
unfolding bits_in
chunk_bits_off words h =
    let none_in : (v : ℕ) → v < 4 → ones_below 64 (words v) ≡ 0 = λ v p.
      ones_below_same 64 (words v) zero_word (same_below-eq 64 (words v) zero_word (h v p))
      ∙ ones_below_zero 64 in
    omega (
      arith,
      none_in 0 (omega arith),
      none_in 1 (omega arith),
      none_in 2 (omega arith),
      none_in 3 (omega arith),
    )

chunk-Minimum : (n : Node 0) → IsCounted 0 n → (m : ℕ) × Minimum 0 n m
unfolding min_node member size
chunk-Minimum n all = elim (words_cases 4 0 n.words) [
  | inl none_on ↦
      let nothing = chunk_bits_off n.words (λ v p. none_on v (omega arith) (omega arith)) in
      absurd (omega (arith, nothing, all.0, all.1))
  | inr (m, l) ↦
      let small : m % 256 ≡ m = omega (arith, l.within) in
      (
        m,
        record {
          returns = l.returns;
          fits = unfold span in omega (arith, l.within);
          on = rw (member, small) l.on;
          off = λ j p.
              let small' : j % 256 ≡ j = omega (arith, l.within) in
              rw (member, small') (l.off j (omega arith) p);
        },
      )
]

-- The slot of a number below what a directory node spans.
slot_parts : (h s low : ℕ) → low < 2 ^ span h → s < 64 → slot_of h (s * 2 ^ span h + low) ≡ s
unfolding slot_of
slot_parts h s low p q = rw (top_digit s low (2 ^ span h) p) (mod-eq_of_lt q)

below_parts : (h s low : ℕ) → low < 2 ^ span h → same_path h (s * 2 ^ span h + low) low ≡ true
below_parts h s low p =
    mod-same_path h (s * 2 ^ span h + low) low (mul-add-mod_self_right s (2 ^ span h) low)

some_kid : {A : Type 0} (f : A → ℕ) (xs : List A) → 0 < total f xs → 0 < length xs
unfolding total
some_kid f [] p = absurd (omega arith)
some_kid f (x ∷ xs) p = omega arith

-- The slot of an id below the end of a slot's range is that slot or a lower one.
slot_le :
    (h s low j : ℕ)
    → low < 2 ^ span h
    → s < 64
    → j < s * 2 ^ span h + low
    → (j / 2 ^ span h ≤ s) × (slot_of h j ≡ j / 2 ^ span h)
unfolding slot_of
slot_le h s low j p q less =
    let bound : j < suc s * 2 ^ span h = grind arith in
    let top : j / 2 ^ span h < suc s = (div-lt_iff_lt-mul (pow_span_pos h)).1 bound in
    (omega (arith, top), mod-eq_of_lt (omega (arith, top)))

rest_lt : (j s p low : ℕ) → j / p ≡ s → j < s * p + low → j % p < low
rest_lt j s p low e less =
    let whole : s * p + j % p ≡ j = ap (λ x. x * p + j % p) (sym e) ∙ div-add-mod' j p in
    omega (arith, whole)

-- The lowest slot that is present is that of the first child.
record First (h : ℕ) (n : Node (suc h)) (s : ℕ) (c : Node h) : Type 0 where
  pub low : Lowest 64 0 n.present s
  pub kid_0 : get_elem? n.kids 0 ≡ some c
  pub child_at : child h n s ≡ some c

First-child :
    (h : ℕ) (n : Node (suc h))
    → IsShaped (suc h) n
    → IsCounted (suc h) n
    → (c : Node h) × First h n (trailing_zeros n.present) c
First-child h n shaped all =
    let kids = some_kid (size h) n.kids (unfold size in omega (arith, all.0, all.1)) in
    let l = Lowest-of n.present (omega (arith, shaped.0, kids)) in
    let s = trailing_zeros n.present in
    let (c, found) = get_elem?-some n.kids 0 kids in
    let rank : ones_below s n.present ≡ 0 =
      ones_below_same s n.present zero_word (λ j p. l.off j (omega arith) p) ∙ ones_below_zero s in
    let at_s : kid h n s ≡ some c = unfold kid in (ap (get_elem? n.kids) rank ∙ found) in
    (c, record { low = l; kid_0 = found; child_at = found_at h n s l.on at_s })

directory-Minimum :
    (h : ℕ) (n : Node (suc h)) (s low : ℕ) (c : Node h)
    → s ≡ trailing_zeros n.present
    → First h n s c
    → Minimum h c low
    → Minimum (suc h) n (s * 2 ^ span h + low)
directory-Minimum h n s low c same f r =
    let small : s < 64 = omega (arith, f.low.within) in
    let m = s * 2 ^ span h + low in
    record {
      returns = unfold min_node in rw (f.kid_0, r.returns, same) refl;
      fits = rw (pow_span-suc h) (digit-lt s low (2 ^ span h) 64 small r.fits);
      on =
          member_at h n m (ap (child h n) (slot_parts h s low r.fits small) ∙ f.child_at)
          ∙ member-same_path h c m low (below_parts h s low r.fits)
          ∙ r.on;
      off = λ j less.
          let (le, slot) = slot_le h s low j r.fits small less in
          elim (Bool-cases (j / 2 ^ span h == s)) [
            | inr away ↦ member_at h n j (
                ap (child h n) slot
                ∙ absent h n (j / 2 ^ span h)
                    (f.low.off (j / 2 ^ span h) (omega arith) (ground (arith, le))))
            | inl here ↦
                let e = (==_iff _ _).0 here in
                member_at h n j (ap (child h n) (slot ∙ e) ∙ f.child_at)
                ∙ member-same_path h c j (j % 2 ^ span h)
                    (mod-same_path h j (j % 2 ^ span h) (sym (mod-mod j (2 ^ span h))))
                ∙ r.off (j % 2 ^ span h) (rest_lt j s (2 ^ span h) low e less)
          ];
    }

min_node-Minimum : (h : ℕ) (n : Node h) → IsShaped h n → IsCounted h n → (m : ℕ) × Minimum h n m
min_node-Minimum zero n shaped all = chunk-Minimum n all
min_node-Minimum (suc h) n shaped all =
    let (c, f) = First-child h n shaped all in
    let (low, r) =
      min_node-Minimum h c (Every-get_elem? (IsShaped h) n.kids 0 shaped.1 f.kid_0)
        (Every-get_elem? (IsCounted h) n.kids 0 all.2 f.kid_0) in
    let s = trailing_zeros n.present in
    (s * 2 ^ span h + low, directory-Minimum h n s low c refl f r)

-- The least id of a set, if it has one.
abbrev pub IsLeast : Bitmap → Option ℕ → Type 0
IsLeast b none = (j : ℕ) → contains b j ≡ false
IsLeast b (some m) =
    (m < 2 ^ span b.height) × (contains b m ≡ true) × ((j : ℕ) → j < m → contains b j ≡ false)

IsLeast-at :
    (h : ℕ) (root : Option (Node h))
    → IsShapedBitmap (record { height = h; root = root })
    → IsCountedBitmap (record { height = h; root = root })
    → (o : Option ℕ) × (min (record { height = h; root = root }) ≡ some o)
      × IsLeast (record { height = h; root = root }) o
unfolding min
IsLeast-at h none shaped all = (none, refl, λ j. unfold contains in refl)
IsLeast-at h (some n) shaped all =
    let (m, r) = min_node-Minimum h n (shaped n refl) (all n refl) in
    let inside : (j : ℕ) → j < 2 ^ span h → contains_at h n j ≡ member h n j =
      λ j p. contains_covered h n j (lt-covers h j p) in
    (
      some m,
      rw r.returns refl,
      (r.fits, inside m r.fits ∙ r.on, λ j p. inside j (omega (arith, r.fits)) ∙ r.off j p),
    )

-- Min of a well-shaped set whose counts are right does not panic: it returns nothing if the set
-- holds no id, and otherwise an id that the set holds, below which it holds none.
pub min-IsLeast :
    (b : Bitmap)
    → IsShapedBitmap b
    → IsCountedBitmap b
    → (o : Option ℕ) × (min b ≡ some o) × IsLeast b o
min-IsLeast b shaped all = IsLeast-at b.height b.root shaped all

-- A set has no node and no id, or holds one.
pub empty_or_held :
    (b : Bitmap)
    → IsShapedBitmap b
    → IsCountedBitmap b
    → (len b ≡ 0) ⊎ ((m : ℕ) × (m < 2 ^ span b.height) × (contains b m ≡ true))
empty_or_held b shaped all = held_at b.height b.root shaped all
  where
    held_at :
        (h : ℕ) (root : Option (Node h))
        → IsShapedBitmap (record { height = h; root = root })
        → IsCountedBitmap (record { height = h; root = root })
        → (len (record { height = h; root = root }) ≡ 0)
          ⊎ ((m : ℕ) × (m < 2 ^ span h) × (contains (record { height = h; root = root }) m ≡ true))
    held_at h none shaped all = inl (unfold len in refl)
    held_at h (some n) shaped all =
        let (m, r) = min_node-Minimum h n (shaped n refl) (all n refl) in
        inr (m, r.fits, contains_covered h n m (lt-covers h m r.fits) ∙ r.on)
