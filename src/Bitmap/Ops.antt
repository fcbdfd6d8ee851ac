-- ===== src/Bitmap/Ops.antt =====
-- internal/bitmap/ops.go: the set operations And, Or and AndNot.
-- `same` is Go's comparison of two node pointers. A pointer is no part of a value, so the
-- comparison is a parameter; what the code relies on is that one pointer leads to one node.
-- A panic is `none`, and a nil node is `some none`.
pub mod Build
pub mod Slots
pub mod Combine
pub mod Levels
pub mod Chunks
pub mod And
pub mod Or
pub mod Filled
pub mod Union
pub mod AndNot
pub mod Merges
pub mod Laws
use go_maemmidb.Base.{
  ℕ, zero, suc, ◌+◌, ◌%◌, ◌⊎◌, inl, inr, Bool, true, false, ◌&&◌, ◌||◌, not, List, [], ◌∷◌, ◌++◌,
  Option, none, some, ◌>>=◌, ltb, ◌==◌, if◌then◌else◌, get_elem?, Word, zero_word, set_bit,
  ones_below, same_below,
}
use go_maemmidb.Bitmap.{
  Chunk, Node, Bitmap, empty, at, count_of, kid, lifted, canonical, uint32_mod,
}

-- `w == v` of the four words of two chunks
unfoldable pub same_words : (ℕ → Word) → (ℕ → Word) → Bool
unfolding same_below
same_words v w =
    same_below 64 (v 0) (w 0)
    && same_below 64 (v 1) (w 1)
    && same_below 64 (v 2) (w 2)
    && same_below 64 (v 3) (w 3)

unfoldable pub popcount : (ℕ → Word) → ℕ
unfolding ones_below
popcount w = ones_below 64 (w 0) + ones_below 64 (w 1) + ones_below 64 (w 2) + ones_below 64 (w 3)

abbrev pub no_words : ℕ → Word
no_words i = zero_word

pub record Builder (N : Type 0) : Type 0 where
  pub present : Word
  pub count : ℕ
  pub kids : List N

unfoldable pub new_builder : (h : ℕ) → Builder (Node h)
new_builder h = record { present = zero_word; count = 0; kids = [] }

-- builder.add, or nothing for a slot without a child: And and AndNot skip a nil child, and a slot
-- in neither operand is not in the loop
unfoldable pub add : (h : ℕ) → Builder (Node h) → ℕ → Option (Node h) → Builder (Node h)
unfolding count_of
add h r slot none = r
add h r slot (some child) = record {
  present = set_bit r.present slot;
  count = (r.count + count_of h child) % uint32_mod;
  kids = r.kids ++ child ∷ [];
}

-- The loop over the slots of a word, lowest first: `child_at` is its body.
unfoldable pub collect : (h : ℕ) → (ℕ → Option (Option (Node h))) → ℕ → Option (Builder (Node h))
unfolding new_builder add
collect h child_at zero = some (new_builder h)
collect h child_at (suc k) =
    collect h child_at k >>= λ r. child_at k >>= λ child. some (add h r k child)

-- builder.node
unfoldable pub build : (h : ℕ) → Builder (Node h) → Option (Node (suc h))
build h r =
    if same_below 64 r.present zero_word
    then none
    else some (record { count = r.count; present = r.present; kids = r.kids })

-- `r.add(slot, child)` without a test for nil: it reads the child's count, so a nil child panics.
unfoldable pub not_nil : (h : ℕ) → Option (Node h) → Option (Option (Node h))
not_nil h none = none
not_nil h (some child) = some (some child)

-- The chunk cases, after the comparison of the pointers.
unfoldable pub and_words : Node 0 → Node 0 → Option (Node 0)
unfolding same_words popcount
and_words a b =
    let w = λ (k i : ℕ). a.words k i && b.words k i in
    if same_words w no_words
    then none
    else if same_words w a.words
    then some a
    else if same_words w b.words
    then some b
    else some (record { count = popcount w; words = w })

unfoldable pub or_words : Node 0 → Node 0 → Option (Node 0)
unfolding same_words popcount
or_words a b =
    let w = λ (k i : ℕ). a.words k i || b.words k i in
    if same_words w a.words
    then some a
    else if same_words w b.words
    then some b
    else some (record { count = popcount w; words = w })

unfoldable pub and_not_words : Node 0 → Node 0 → Option (Node 0)
unfolding same_words popcount
and_not_words a b =
    let w = λ (k i : ℕ). a.words k i && not (b.words k i) in
    if same_words w no_words
    then none
    else if same_words w a.words
    then some a
    else some (record { count = popcount w; words = w })

module _ (same : (h : ℕ) → Node h → Node h → Bool) where
  -- `for i, k := range r.kids { if k != n.kids[i] { return false } }`
  unfoldable pub same_kids : (h : ℕ) → List (Node h) → List (Node h) → Option Bool
  same_kids h [] ys = some true
  same_kids h (x ∷ xs) [] = none
  same_kids h (x ∷ xs) (y ∷ ys) = if same h x y then same_kids h xs ys else some false

  -- builder.is
  unfoldable pub is : (h : ℕ) → Builder (Node h) → Node (suc h) → Option Bool
  unfolding same_kids same_below
  is h r n =
      if same_below 64 r.present n.present && r.count == n.count
      then same_kids h r.kids n.kids
      else some false

  -- `switch { case r.is(a): return a; case r.is(b): return b }; return r.node(height)`
  unfoldable pub either_or_built :
      (h : ℕ) → Node (suc h) → Node (suc h) → Builder (Node h) → Option (Option (Node (suc h)))
  unfolding is build
  either_or_built h a b r = is h r a >>= λ is_a.
      if is_a
      then some (some a)
      else (is h r b >>= λ is_b. some (if is_b then some b else build h r))

  -- `if r.is(a) { return a }; return r.node(height)`
  unfoldable pub first_or_built :
      (h : ℕ) → Node (suc h) → Builder (Node h) → Option (Option (Node (suc h)))
  unfolding is build
  first_or_built h a r = is h r a >>= λ is_a. some (if is_a then some a else build h r)

  unfoldable pub and_node : (h : ℕ) → Node h → Node h → Option (Option (Node h))
  unfolding and_words either_or_built collect kid
  and_node zero a b = if same 0 a b then some (some a) else some (and_words a b)
  and_node (suc h) a b =
      let child_at = λ (k : ℕ).
        if a.present k && b.present k
        then (kid h a k >>= λ ak. kid h b k >>= λ bk. and_node h ak bk)
        else some none in
      if same (suc h) a b
      then some (some a)
      else collect h child_at 64 >>= λ r. either_or_built h a b r

  unfoldable pub or_node : (h : ℕ) → Node h → Node h → Option (Option (Node h))
  unfolding or_words either_or_built collect kid not_nil
  or_node zero a b = if same 0 a b then some (some a) else some (or_words a b)
  or_node (suc h) a b =
      let child_at = λ (k : ℕ).
        if a.present k
        then (if b.present k
            then (kid h a k >>= λ ak.
                kid h b k >>= λ bk. or_node h ak bk >>= λ child. not_nil h child)
            else (kid h a k >>= λ ak. some (some ak)))
        else if b.present k
        then (kid h b k >>= λ bk. some (some bk))
        else some none in
      if same (suc h) a b
      then some (some a)
      else collect h child_at 64 >>= λ r. either_or_built h a b r

  unfoldable pub and_not_node : (h : ℕ) → Node h → Node h → Option (Option (Node h))
  unfolding and_not_words first_or_built collect kid
  and_not_node zero a b = if same 0 a b then some (none) else some (and_not_words a b)
  and_not_node (suc h) a b =
      let child_at = λ (k : ℕ).
        if a.present k
        then (kid h a k >>= λ ak.
            if b.present k then (kid h b k >>= λ bk. and_not_node h ak bk) else some (some ak))
        else some none in
      if same (suc h) a b then some none else collect h child_at 64 >>= λ r. first_or_built h a r

-- `Below h k`: k is h or some levels above it.
pub data Below (h : ℕ) : ℕ → Type 0 where
  here : Below h h
  up : {k : ℕ} → Below h k → Below h (suc k)

pub below_zero : (k : ℕ) → Below 0 k
below_zero zero = here
below_zero (suc k) = up (below_zero k)

pub below_suc : {h k : ℕ} → Below h k → Below (suc h) (suc k)
below_suc here = here
below_suc (up d) = up (below_suc d)

pub order_suc : {h k : ℕ} → Below h k ⊎ Below k h → Below (suc h) (suc k) ⊎ Below (suc k) (suc h)
order_suc (inl d) = inl (below_suc d)
order_suc (inr d) = inr (below_suc d)

-- The lower of two heights.
unfoldable pub order : (h k : ℕ) → Below h k ⊎ Below k h
unfolding below_zero below_suc order_suc
order zero k = inl (below_zero k)
order (suc h) zero = inr (below_zero (suc h))
order (suc h) (suc k) = order_suc (order h k)

-- `for a.height() > b.height() { if a.root.present&1 == 0 {…}; a.root = a.root.kids[0] }`:
-- `some none` where the loop finds no child 0.
unfoldable pub low_part : {h k : ℕ} → Below h k → Node k → Option (Option (Node h))
low_part here n = some (some n)
low_part (up d) n = if n.present 0 then (get_elem? n.kids 0 >>= λ c. low_part d c) else some none

-- One loop of `level`.
unfoldable pub level : {h k : ℕ} → Below h k → Node h → Node k
unfolding lifted
level here n = n
level (up {k} d) n = lifted k (level d n)

-- `canonical` of a node that may be nil
unfoldable pub canonical_or_empty : (h : ℕ) → Option (Node h) → Option Bitmap
unfolding canonical
canonical_or_empty h none = some empty
canonical_or_empty h (some n) = canonical h n

module _ (same : (h : ℕ) → Node h → Node h → Bool) where
  unfoldable pub and_at : (h k : ℕ) → Node h → Node k → Below h k ⊎ Below k h → Option Bitmap
  unfolding and_node low_part canonical_or_empty
  and_at h k a b (inl d) = low_part d b >>= elim [
    | none ↦ some empty
    | some b' ↦ and_node same h a b' >>= λ c. canonical_or_empty h c
  ]
  and_at h k a b (inr d) = low_part d a >>= elim [
    | none ↦ some empty
    | some a' ↦ and_node same k a' b >>= λ c. canonical_or_empty k c
  ]

  -- And
  unfoldable pub and : Bitmap → Bitmap → Option Bitmap
  unfolding and_at order
  and a b = elim a.root [
    | none ↦ some empty
    | some m ↦ elim b.root [
      | none ↦ some empty
      | some n ↦ and_at a.height b.height m n (order a.height b.height)
    ]
  ]

  unfoldable pub or_at : (h k : ℕ) → Node h → Node k → Below h k ⊎ Below k h → Option Bitmap
  unfolding or_node level canonical_or_empty
  or_at h k a b (inl d) = or_node same k (level d a) b >>= λ c. canonical_or_empty k c
  or_at h k a b (inr d) = or_node same h a (level d b) >>= λ c. canonical_or_empty h c

  -- Or
  unfoldable pub or : Bitmap → Bitmap → Option Bitmap
  unfolding or_at order
  or a b = elim a.root [
    | none ↦ some b
    | some m ↦ elim b.root [
      | none ↦ some a
      | some n ↦ or_at a.height b.height m n (order a.height b.height)
    ]
  ]

  unfoldable pub and_not_at : (h k : ℕ) → Node h → Node k → Below h k ⊎ Below k h → Option Bitmap
  unfolding and_not_node low_part level canonical_or_empty
  and_not_at h k a b (inl d) = low_part d b >>= elim [
    | none ↦ some (at h a)
    | some b' ↦ and_not_node same h a b' >>= λ c. canonical_or_empty h c
  ]
  and_not_at h k a b (inr d) = and_not_node same h a (level d b) >>= λ c. canonical_or_empty h c

  -- AndNot
  unfoldable pub and_not : Bitmap → Bitmap → Option Bitmap
  unfolding and_not_at order
  and_not a b = elim a.root [
    | none ↦ some a
    | some m ↦ elim b.root [
      | none ↦ some a
      | some n ↦ and_not_at a.height b.height m n (order a.height b.height)
    ]
  ]
