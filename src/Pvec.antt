-- ===== src/Pvec.antt =====
-- internal/pvec/pvec.go: the persistent vector from row ids to row objects.
-- A node at height h is a value of `Node V h`, so the height is what tells leaves and directory
-- nodes apart, as in the source. The arrays of 16 values and of 32 children are functions of the
-- slot, which the code masks below the size. Nodes are values here: a node's epoch, which decides
-- whether a write copies the node or changes it in place, leaves no trace in a value.
pub mod Path
pub mod Counts
pub mod Write
pub mod Laws
pub mod Scan
pub mod Tests
use go_maemmidb.Base.{
  ℕ, zero, suc, ◌+◌, ◌-◌, ◌*◌, ◌/◌, ◌%◌, ◌^◌, Bool, true, false, ◌&&◌, ◌||◌, not, List, [], ◌∷◌,
  Option, none, some, ltb, ◌==◌, if◌then◌else◌, update,
}

abbrev pub leaf_bits : ℕ
leaf_bits = 4

abbrev pub inner_bits : ℕ
inner_bits = 5

abbrev pub leaf_size : ℕ
leaf_size = 16

abbrev pub inner_size : ℕ
inner_size = 32

pub record LeafNode (V : Type 0) : Type 0 where
  pub used : ℕ
  pub vals : ℕ → Option V

pub record InnerNode (N : Type 0) : Type 0 where
  pub used : ℕ
  pub kids : ℕ → Option N

abbrev pub Node : Type 0 → ℕ → Type 0
Node V zero = LeafNode V
Node V (suc h) = InnerNode (Node V h)

pub span : ℕ → ℕ
span height = leaf_bits + inner_bits * height

-- uint32 subtraction and addition wrap around.
abbrev pub uint32_mod : ℕ
uint32_mod = 2 ^ 32

-- `height` is the number of directory levels above the leaves.
pub record Vector (V : Type 0) : Type 0 where
  pub height : ℕ
  pub root : Option (Node V height)

-- The test of the growing loops: a tree of this height does not cover the index.
pub too_low : ℕ → ℕ → Bool
unfolding span
too_low height i = ltb (span height) 32 && not (i / 2 ^ span height == 0)

-- `for span(v.height) < 32 && i>>span(v.height) != 0 { v.height++ }`
pub fit_height : ℕ → ℕ → ℕ → ℕ
unfolding too_low
fit_height zero height i = height
fit_height (suc fuel) height i =
    let higher = fit_height fuel (suc height) i in if too_low height i then higher else height

-- maxHeight, the most rounds that a growing loop can make
abbrev pub max_height : ℕ
max_height = (32 - leaf_bits + inner_bits - 1) / inner_bits

module _ (V : Type 0) where
  abbrev pub empty : Vector V
  empty = record { height = 0; root = none }

  -- `n.used` of a node that may be nil
  pub used_of : (h : ℕ) → Option (Node V h) → ℕ
  used_of zero none = 0
  used_of zero (some n) = n.used
  used_of (suc h) none = 0
  used_of (suc h) (some n) = n.used

  -- `own`: a nil node is made, any other is the node itself or a copy of it
  pub own_leaf : Option (Node V 0) → Node V 0
  own_leaf none = record { used = 0; vals = λ i. none }
  own_leaf (some n) = n

  pub own_inner : (h : ℕ) → Option (Node V (suc h)) → Node V (suc h)
  own_inner h none = record { used = 0; kids = λ i. none }
  own_inner h (some n) = n

  -- Vector.Len
  pub len : Vector V → ℕ
  unfolding used_of
  len v = used_of v.height v.root

  -- The loop of `leaf`: the leaf that holds the index, below a node.
  pub descend : (h : ℕ) → Option (Node V h) → ℕ → Option (Node V 0)
  unfolding span
  descend zero m i = m
  descend (suc h) none i = none
  descend (suc h) (some n) i = descend h (n.kids (i / 2 ^ span h % inner_size)) i

  -- Vector.leaf
  pub leaf : Vector V → ℕ → Option (Node V 0)
  unfolding descend too_low
  leaf v i = if too_low v.height i then none else descend v.height v.root i

  -- `leaf.vals[i&leafMask]`, or nil without a leaf
  pub slot_of : Option (Node V 0) → ℕ → Option V
  slot_of none i = none
  slot_of (some n) i = n.vals (i % leaf_size)

  -- Vector.Get
  pub get : Vector V → ℕ → Option V
  unfolding leaf slot_of
  get v i = slot_of (leaf v i) i

  -- The value at an index below a node.
  pub read : (h : ℕ) → Option (Node V h) → ℕ → Option V
  unfolding descend slot_of
  read h m i = slot_of (descend h m i) i

  -- The leaf's count after its slot has changed.
  pub leaf_used : ℕ → Option V → Option V → ℕ
  leaf_used used (some was) none = (used + uint32_mod - 1) % uint32_mod
  leaf_used used none (some val) = (used + 1) % uint32_mod
  leaf_used used _ _ = used

  -- `if n.used == 0 { return nil }; return n`
  pub unless_unused : (h : ℕ) → Node V h → Option (Node V h)
  unless_unused zero n = if n.used == 0 then none else some n
  unless_unused (suc h) n = if n.used == 0 then none else some n

  -- Writer.set
  pub set_node : (h : ℕ) → Option (Node V h) → ℕ → Option V → Option (Node V h)
  unfolding span used_of own_leaf own_inner leaf_used unless_unused
  set_node zero m i val =
      let n : Node V 0 = own_leaf m in
      let slot = i % leaf_size in
      unless_unused 0
        (record { used = leaf_used n.used (n.vals slot) val; vals = update n.vals slot val })
  set_node (suc h) m i val =
      let n : Node V (suc h) = own_inner h m in
      let slot = i / 2 ^ span h % inner_size in
      let before = used_of h (n.kids slot) in
      let child = set_node h (n.kids slot) i val in
      let after = used_of h child in
      unless_unused (suc h) (record {
        used = (n.used + after + uint32_mod - before) % uint32_mod;
        kids = update n.kids slot child;
      })

  -- The loop that puts directory levels above the root until the tree covers the index.
  pub grow : ℕ → Vector V → ℕ → Vector V
  unfolding too_low used_of
  grow zero v i = v
  grow (suc fuel) v i =
      let root : Node V (suc v.height) = record {
        used = used_of v.height v.root;
        kids = update (λ j. none) 0 v.root;
      } in
      let higher = grow fuel (record { height = suc v.height; root = some root }) i in
      if too_low v.height i then higher else v

  -- The height of an empty vector is set to what the index needs; any other vector is grown.
  pub cover : Vector V → ℕ → Vector V
  unfolding fit_height grow
  cover v i = elim v.root [
    | none ↦ record { height = fit_height max_height v.height i; root = none }
    | some n ↦ grow max_height v i
  ]

  -- `if v.root == nil { return Vector{} }; return v`
  pub trim : Vector V → Vector V
  trim v = elim v.root [ none ↦ empty | some n ↦ v ]

  pub write : Vector V → ℕ → Option V → Vector V
  unfolding set_node trim
  write v i val = trim (record { height = v.height; root = set_node v.height v.root i val })

  -- Writer.Set; `none` unsets
  pub set : Vector V → ℕ → Option V → Vector V
  unfolding get cover write
  set v i none = elim (get v i) [ none ↦ v | some was ↦ write v i none ]
  set v i (some val) = write (cover v i) i (some val)

-- The leaf that was read last, and the first index that it holds.
pub record Cursor (V : Type 0) : Type 0 where
  pub vector : Vector V
  pub last : Option (Node V 0)
  pub base : ℕ
  pub ok : Bool

-- `i &^ leafMask`
pub base_of : ℕ → ℕ
base_of i = i / leaf_size * leaf_size

module _ (V : Type 0) where
  -- Vector.Cursor
  pub cursor : Vector V → Cursor V
  cursor v = record { vector = v; last = none; base = 0; ok = false }

  -- `if base := i &^ leafMask; !c.ok || base != c.base { … }`
  pub seek : Cursor V → ℕ → Cursor V
  unfolding leaf base_of
  seek c i =
      if not c.ok || not (base_of i == c.base)
      then record c { last = leaf V c.vector i; base = base_of i; ok = true }
      else c

  -- Cursor.Get
  pub next_value : Cursor V → ℕ → Option V × Cursor V
  unfolding seek slot_of
  next_value c i = (slot_of V (seek c i).last i, seek c i)

  -- Reads at one index after another through one cursor.
  pub scan : Cursor V → List ℕ → List (Option V)
  unfolding next_value
  scan c [] = []
  scan c (i ∷ is) = (next_value c i).0 ∷ scan (next_value c i).1 is
