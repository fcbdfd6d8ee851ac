-- ===== src/Bitmap.antt =====
-- internal/bitmap/bitmap.go: the compressed set of row ids.
-- A node of height h is a value of `Node h`: a chunk of 256 bits at height 0, a directory node
-- above. Nodes are values here: a node's epoch, which decides whether a write copies the node or
-- changes it in place, leaves no trace in a value. An id is a number below 2 ^ 32.
pub mod Path
pub mod Shape
pub mod Sizes
pub mod Counting
pub mod Least
pub mod Low
pub mod Clearing
pub mod Children
pub mod Adding
pub mod Height
pub mod Laws
pub mod Ops
pub mod Removing
pub mod Cardinal
pub mod Runs
pub mod Tests
use go_maemmidb.Base.{
  ℕ, zero, suc, ◌+◌, ◌-◌, ◌*◌, ◌/◌, ◌%◌, ◌^◌, Bool, true, false, ◌&&◌, not, List, [], ◌∷◌, Option,
  none, some, ◌>>=◌, ltb, ◌==◌, if◌then◌else◌, update, length, get_elem?, Word, zero_word, set_bit,
  clear_bit, ones_below, same_below, trailing_zeros, lowest_from, set as set_elem, insert_at,
  remove_at,
}

abbrev pub chunk_bits : ℕ
chunk_bits = 8

abbrev pub fan_bits : ℕ
fan_bits = 6

abbrev pub fan : ℕ
fan = 64

-- maxHeight, the number of directory levels that covers every uint32
abbrev pub max_height : ℕ
max_height = (32 - chunk_bits + fan_bits - 1) / fan_bits

abbrev pub uint32_mod : ℕ
uint32_mod = 2 ^ 32

-- A node of height 0: its 256 bits in four words.
pub record Chunk : Type 0 where
  pub count : ℕ
  pub words : ℕ → Word

-- A directory node: `present` has bit i set if child i exists, and `kids` holds those children.
pub record Directory (N : Type 0) : Type 0 where
  pub count : ℕ
  pub present : Word
  pub kids : List N

abbrev pub Node : ℕ → Type 0
Node zero = Chunk
Node (suc h) = Directory (Node h)

pub record Bitmap : Type 0 where
  pub height : ℕ
  pub root : Option (Node height)

abbrev pub empty : Bitmap
empty = record { height = 0; root = none }

abbrev pub at : (h : ℕ) → Node h → Bitmap
at h n = record { height = h; root = some n }

unfoldable pub count_of : (h : ℕ) → Node h → ℕ
count_of zero n = n.count
count_of (suc h) n = n.count

unfoldable pub span : ℕ → ℕ
span height = chunk_bits + fan_bits * height

-- Bitmap.Len
unfoldable pub len : Bitmap → ℕ
unfolding count_of
len b = elim b.root [ none ↦ 0 | some n ↦ count_of b.height n ]

-- Bitmap.Empty
pub is_empty : Bitmap → Bool
is_empty b = elim b.root [ none ↦ true | some n ↦ false ]

-- The slot of an id among the children of a node of height h + 1.
unfoldable pub slot_of : ℕ → ℕ → ℕ
unfolding span
slot_of h id = id / 2 ^ span h % fan

-- `low>>6` and `low&63` of `low := id & chunkMask`
abbrev pub word_of : ℕ → ℕ
word_of id = id % 256 / 64

abbrev pub bit_of : ℕ → ℕ
bit_of id = id % 256 % 64

-- The test of the growing loops: a tree of this height does not cover the id.
unfoldable pub too_low : ℕ → ℕ → Bool
unfolding span
too_low height id = ltb (span height) 32 && not (id / 2 ^ span height == 0)

-- `n.kids[bits.OnesCount64(n.present&(1<<slot-1))]`; an index out of range panics
unfoldable pub kid : (h : ℕ) → Node (suc h) → ℕ → Option (Node h)
unfolding ones_below
kid h n slot = get_elem? n.kids (ones_below slot n.present)

-- The loop of Has below a node, and the test of the chunk's bit.
unfoldable pub has_node : (h : ℕ) → Node h → ℕ → Option Bool
unfolding slot_of kid
has_node zero n id = some (n.words (word_of id) (bit_of id))
has_node (suc h) n id =
    if n.present (slot_of h id)
    then (kid h n (slot_of h id) >>= λ c. has_node h c id)
    else some false

-- Bitmap.Has
unfoldable pub has : Bitmap → ℕ → Option Bool
unfolding has_node too_low
has b id = elim b.root [
  | none ↦ some false
  | some n ↦ if too_low b.height id then some false else has_node b.height n id
]

-- The lowest bit of the four words from word w on; a chunk without a bit panics.
unfoldable pub min_words : ℕ → ℕ → (ℕ → Word) → Option ℕ
unfolding same_below lowest_from
min_words zero w words = none
min_words (suc n) w words =
    let later = min_words n (suc w) words in
    if same_below 64 (words w) zero_word then later else some (w * 64 + trailing_zeros (words w))

-- Bitmap.Min below a node. The parts that `|` joins have no bit in common, so they are added.
unfoldable pub min_node : (h : ℕ) → Node h → Option ℕ
unfolding min_words span
min_node zero n = min_words 4 0 n.words
min_node (suc h) n = get_elem? n.kids 0 >>= λ c.
    min_node h c >>= λ low. some (trailing_zeros n.present * 2 ^ span h + low)

-- Bitmap.Min: `none` is the panic, `some none` the empty set.
unfoldable pub min : Bitmap → Option (Option ℕ)
unfolding min_node
min b = elim b.root [ none ↦ some none | some n ↦ min_node b.height n >>= λ id. some (some id) ]

-- Writer.branch
unfoldable pub branch : (h : ℕ) → ℕ → Node h
unfolding slot_of
branch zero id = record {
  count = 1;
  words = update (λ w. zero_word) (word_of id) (set_bit zero_word (bit_of id));
}
branch (suc h) id = record {
  count = 1;
  present = set_bit zero_word (slot_of h id);
  kids = branch h id ∷ [];
}

-- `n.words[low>>6] |= bit; n.count++`
unfoldable pub with_bit : Node 0 → ℕ → Node 0
with_bit n id = record {
  count = (n.count + 1) % uint32_mod;
  words = update n.words (word_of id) (set_bit (n.words (word_of id)) (bit_of id));
}

-- A new branch at a slot that has no child.
unfoldable pub with_branch : (h : ℕ) → Node (suc h) → ℕ → Node (suc h)
unfolding branch slot_of ones_below insert_at
with_branch h n id = record {
  count = (n.count + 1) % uint32_mod;
  present = set_bit n.present (slot_of h id);
  kids = insert_at n.kids (ones_below (slot_of h id) n.present) (branch h id);
}

-- `n.kids[idx] = child; n.count++`
unfoldable pub with_child : (h : ℕ) → Node (suc h) → ℕ → Node h → Node (suc h)
unfolding slot_of ones_below
with_child h n id child = record n {
  count = (n.count + 1) % uint32_mod;
  kids = set_elem n.kids (ones_below (slot_of h id) n.present) child;
}

-- Writer.set
unfoldable pub set_node : (h : ℕ) → Node h → ℕ → Option (Node h × Bool)
unfolding slot_of kid with_bit with_branch with_child
set_node zero n id =
    if n.words (word_of id) (bit_of id) then some (n, false) else some (with_bit n id, true)
set_node (suc h) n id =
    if n.present (slot_of h id)
    then (kid h n (slot_of h id) >>= λ c. set_node h c id >>= λ r.
        if r.1 then some (with_child h n id r.0, true) else some (n, false))
    else some (with_branch h n id, true)

-- The height that `for span(height) < 32 && id>>span(height) != 0 { height++ }` reaches.
unfoldable pub fit_height : ℕ → ℕ → ℕ → ℕ
unfolding too_low
fit_height zero height id = height
fit_height (suc fuel) height id =
    let higher = fit_height fuel (suc height) id in if too_low height id then higher else height

-- A directory node with the one child 0.
unfoldable pub lifted : (h : ℕ) → Node h → Node (suc h)
unfolding count_of
lifted h n = record { count = count_of h n; present = set_bit zero_word 0; kids = n ∷ [] }

-- The loop that grows the directory until it covers the id.
unfoldable pub grow : ℕ → (h : ℕ) → Node h → ℕ → (k : ℕ) × Node k
unfolding too_low lifted
grow zero h n id = (h, n)
grow (suc fuel) h n id =
    let higher = grow fuel (suc h) (lifted h n) id in if too_low h id then higher else (h, n)

-- Writer.Set
unfoldable pub set : Bitmap → ℕ → Option (Bitmap × Bool)
unfolding set_node fit_height grow branch
set b id = elim b.root [
  | none ↦ let h = fit_height max_height 0 id in some (at h (branch h id), true)
  | some n ↦
      let grown = grow max_height b.height n id in
      set_node grown.0 grown.1 id >>= λ r. some (at grown.0 r.0, r.1)
]

-- Writer.clear: `some none` is the nil node, `none` a panic.
unfoldable pub clear_node : (h : ℕ) → Node h → ℕ → Option (Option (Node h))
unfolding slot_of kid ones_below remove_at
clear_node zero n id =
    if n.count == 1
    then some none
    else some (
        some (record {
          count = (n.count + uint32_mod - 1) % uint32_mod;
          words = update n.words (word_of id) (clear_bit (n.words (word_of id)) (bit_of id));
        }))
clear_node (suc h) n id =
    let slot = slot_of h id in
    let idx = ones_below slot n.present in
    let less = (n.count + uint32_mod - 1) % uint32_mod in
    let rest : Option (Option (Node (suc h))) = kid h n slot >>= λ c. clear_node h c id >>= elim [
      | some child ↦ some (some (record n { count = less; kids = set_elem n.kids idx child }))
      | none ↦ some (
          some (record {
            count = less;
            present = clear_bit n.present slot;
            kids = remove_at n.kids idx;
          }))
    ] in
    if n.count == 1 then some none else rest

-- `canonical`, and the last loop of Clear: levels that only lead to child 0 are dropped.
unfoldable pub canonical : (h : ℕ) → Node h → Option Bitmap
unfolding same_below
canonical zero n = some (at 0 n)
canonical (suc h) n =
    if same_below 64 n.present (set_bit zero_word 0)
    then (get_elem? n.kids 0 >>= λ c. canonical h c)
    else some (at (suc h) n)

-- Writer.Clear
unfoldable pub clear : Bitmap → ℕ → Option (Bitmap × Bool)
unfolding has clear_node canonical
clear b id = has b id >>= λ present.
    if present
    then elim b.root [
      | none ↦ some (b, false)
      | some n ↦ clear_node b.height n id >>= elim [
        | none ↦ some (empty, true)
        | some root ↦ canonical b.height root >>= λ c. some (c, true)
      ]
    ]
    else some (b, false)
