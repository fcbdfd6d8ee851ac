-- ===== src/Bitmap/Shape.antt =====
-- The shape of a well-formed tree of bitmap.go, and which ids it holds.
use go_maemmidb.Base.{
  ℕ, zero, suc, ◌<◌, ◌≡◌, refl, ap, fun_ext, Bool, true, arith, Option, none, some, holds,
  if◌then◌else◌, inl, inr, Bool-cases, Option-cases, length, get_elem?, ones_below, Every,
  Every-get_elem?, ones_below-lt, get_elem?-some,
}
use go_maemmidb.Bitmap.Path.{same_path}
use go_maemmidb.Bitmap.{Node, kid, slot_of, word_of, bit_of, has_node}

-- A directory node has as many children as bits in its presence word, at every level.
abbrev pub IsShaped : (h : ℕ) → Node h → Type 0
IsShaped zero n = Unit
IsShaped (suc h) n = (length n.kids ≡ ones_below 64 n.present) × Every (IsShaped h) n.kids

-- The child at a slot, if the slot is present.
unfoldable pub child : (h : ℕ) → Node (suc h) → ℕ → Option (Node h)
child h n slot = if n.present slot then kid h n slot else none

-- Whether a tree holds an id: the abstract view of a node.
unfoldable pub member : (h : ℕ) → Node h → ℕ → Bool
unfolding child slot_of kid
member zero n id = n.words (word_of id) (bit_of id)
member (suc h) n id = holds (child h n (slot_of h id)) λ c. member h c id

pub slot-lt : (h id : ℕ) → slot_of h id < 64
unfolding slot_of
slot-lt h id = omega arith

-- A slot that is present has a child, and the child is well shaped.
pub kid_present :
    (h : ℕ) (n : Node (suc h)) (slot : ℕ)
    → IsShaped (suc h) n
    → slot < 64
    → n.present slot ≡ true
    → (c : Node h) × (kid h n slot ≡ some c) × IsShaped h c
unfolding kid
kid_present h n slot shaped p e =
    let within = ones_below-lt slot 64 n.present p e in
    let (c, found) = get_elem?-some n.kids (ones_below slot n.present) (omega (arith, shaped.0)) in
    (c, found, Every-get_elem? (IsShaped h) n.kids (ones_below slot n.present) shaped.1 found)

-- On a well-shaped tree the search of Has does not panic, and answers by membership.
pub has_node-member :
    (h : ℕ) (n : Node h) (id : ℕ) → IsShaped h n → has_node h n id ≡ some (member h n id)
unfolding has_node member
has_node-member zero n id shaped = refl
has_node-member (suc h) n id shaped = elim (Bool-cases (n.present (slot_of h id))) [
  | inl e ↦
      let (c, found, below) = kid_present h n (slot_of h id) shaped (slot-lt h id) e in
      rw (e, found) (has_node-member h c id below)
  | inr e ↦ rw e
]

-- `IsShaped` of an optional node.
abbrev pub IsShapedChild : (h : ℕ) → Option (Node h) → Type 0
IsShapedChild h none = Unit
IsShapedChild h (some c) = IsShaped h c

pub child-IsShaped :
    (h : ℕ) (n : Node (suc h)) (slot : ℕ) → IsShaped (suc h) n → IsShapedChild h (child h n slot)
unfolding child kid
child-IsShaped h n slot shaped = elim (Bool-cases (n.present slot)) [
  | inr e ↦ rw e tt
  | inl e ↦ rw e (elim (Option-cases (get_elem? n.kids (ones_below slot n.present))) [
    | inl gone ↦ rw gone tt
    | inr (c, found) ↦
        rw found (Every-get_elem? (IsShaped h) n.kids (ones_below slot n.present) shaped.1 found)
  ])
]

same_slot : (h i j : ℕ) → same_path (suc h) i j ≡ true → slot_of h i ≡ slot_of h j
unfolding same_path
same_slot h i j e = ground arith

same_below_slot : (h i j : ℕ) → same_path (suc h) i j ≡ true → same_path h i j ≡ true
unfolding same_path
same_below_slot h i j e = ground arith

-- Ids with one path are held or not held together.
pub member-same_path :
    (h : ℕ) (n : Node h) (i j : ℕ) → same_path h i j ≡ true → member h n i ≡ member h n j
unfolding member same_path
member-same_path zero n i j e = ground arith
member-same_path (suc h) n i j e = rw (same_slot h i j e) (
    ap (holds (child h n (slot_of h j)))
      (fun_ext (λ c. member-same_path h c i j (same_below_slot h i j e))))
