-- ===== src/Bitmap/Adding.antt =====
-- Adding an id below a node of bitmap.go: `Writer.set` and `Writer.branch`.
use go_maemmidb.Base.{
  ℕ, zero, suc, ◌≡◌, refl, ap, sym, ◌∙◌, true, false, ◌&&◌, ◌||◌, not, arith, Option, none, some,
  holds, ◌==◌, ==_iff, if◌then◌else◌, inl, inr, Bool-cases, ones_below-set, ones_below_zero,
  zero_word,
}
use go_maemmidb.Bitmap.{
  Node, kid, slot_of, word_of, bit_of, branch, with_bit, with_branch, with_child, set_node,
}
use go_maemmidb.Bitmap.Path.{same_path}
use go_maemmidb.Bitmap.Shape.{IsShaped, child, member, member-same_path, slot-lt, kid_present}
use go_maemmidb.Bitmap.Children.{
  with_branch-IsShaped, child-with_branch, with_child-IsShaped, child-with_child,
}

child-branch :
    (h id s : ℕ)
    → child h (branch (suc h) id) s ≡ (if slot_of h id == s then some (branch h id) else none)
unfolding child branch kid
child-branch h id s = ground (arith, ones_below-set s (slot_of h id) zero_word, ones_below_zero s)

pub member_at :
    (h : ℕ) (n : Node (suc h)) (id : ℕ) {o : Option (Node h)}
    → child h n (slot_of h id) ≡ o
    → member (suc h) n id ≡ holds o (λ c. member h c id)
unfolding member
member_at h n id e = ap (λ o. holds o (λ c. member h c id)) e

same_path-suc :
    (h i j : ℕ) → same_path (suc h) i j ≡ (slot_of h i == slot_of h j && same_path h i j)
unfolding same_path
same_path-suc h i j = refl

pub member-branch : (h id j : ℕ) → member h (branch h id) j ≡ same_path h id j
unfolding member branch same_path
member-branch zero id j = ground arith
member-branch (suc h) id j =
    member_at h (branch (suc h) id) j (child-branch h id (slot_of h j))
    ∙ rw (same_path-suc h id j) (ground (arith, member-branch h id j))

member-with_bit :
    (n : Node 0) (id j : ℕ) → member 0 (with_bit n id) j ≡ (same_path 0 id j || member 0 n j)
unfolding member with_bit same_path
member-with_bit n id j = ground arith

-- The node that `set` returns.
pub record Adds (h : ℕ) (n : Node h) (id : ℕ) (m : Node h) : Type 0 where
  pub returns : set_node h n id ≡ some (m, not (member h n id))
  pub shaped : IsShaped h m
  pub holds_id : (j : ℕ) → member h m j ≡ (same_path h id j || member h n j)

-- Nothing is to be done for an id that is there.
kept :
    (h : ℕ) (n : Node h) (id : ℕ)
    → member h n id ≡ true
    → (j : ℕ) → member h n j ≡ (same_path h id j || member h n j)
kept h n id e j = elim (Bool-cases (same_path h id j)) [
  | inl s ↦ rw s (sym (member-same_path h n id j s) ∙ e)
  | inr s ↦ rw s
]

pub absent : (h : ℕ) (n : Node (suc h)) (s : ℕ) → n.present s ≡ false → child h n s ≡ none
unfolding child
absent h n s e = rw e

pub found_at :
    (h : ℕ) (n : Node (suc h)) (s : ℕ) {c : Node h}
    → n.present s ≡ true
    → kid h n s ≡ some c
    → child h n s ≡ some c
unfolding child
found_at h n s e f = rw (e, f)

member-with_branch :
    (h : ℕ) (n : Node (suc h)) (id j : ℕ)
    → IsShaped (suc h) n
    → n.present (slot_of h id) ≡ false
    → member (suc h) (with_branch h n id) j ≡ (same_path (suc h) id j || member (suc h) n j)
member-with_branch h n id j shaped e =
    member_at h (with_branch h n id) j
      (child-with_branch h n id shaped (slot_of h j) (slot-lt h j) e)
    ∙ rw (same_path-suc h id j) (elim (Bool-cases (slot_of h id == slot_of h j)) [
      | inr s ↦ rw s (sym (member_at h n j refl))
      | inl s ↦
          let off = ap n.present (sym ((==_iff _ _).0 s)) ∙ e in
          rw (s, member-branch h id j, member_at h n j (absent h n (slot_of h j) off))
            (ground arith)
    ])

member-with_child :
    (h : ℕ) (n : Node (suc h)) (id j : ℕ) (c m : Node h)
    → IsShaped (suc h) n
    → n.present (slot_of h id) ≡ true
    → child h n (slot_of h id) ≡ some c
    → member h m j ≡ (same_path h id j || member h c j)
    → member (suc h) (with_child h n id m) j ≡ (same_path (suc h) id j || member (suc h) n j)
member-with_child h n id j c m shaped on found below =
    member_at h (with_child h n id m) j
      (child-with_child h n id shaped m on (slot_of h j) (slot-lt h j))
    ∙ rw (same_path-suc h id j) (elim (Bool-cases (slot_of h id == slot_of h j)) [
      | inr s ↦ rw s (sym (member_at h n j refl))
      | inl s ↦
          let here = ap (child h n) (sym ((==_iff _ _).0 s)) ∙ found in
          rw (s, member_at h n j here) below
    ])

added_below :
    (h : ℕ) (n : Node (suc h)) (id : ℕ) (c m : Node h)
    → IsShaped (suc h) n
    → n.present (slot_of h id) ≡ true
    → kid h n (slot_of h id) ≡ some c
    → Adds h c id m
    → (m' : Node (suc h)) × Adds (suc h) n id m'
unfolding set_node
added_below h n id c m shaped e found a =
    let here = found_at h n (slot_of h id) e found in
    let same = member_at h n id here in
    elim (Bool-cases (member h c id)) [
      | inl there ↦ (
        n,
        record {
          returns = rw (e, found, a.returns, same, there);
          shaped = shaped;
          holds_id = kept (suc h) n id (same ∙ there);
        },
      )
      | inr fresh ↦ (
        with_child h n id m,
        record {
          returns = rw (e, found, a.returns, same, fresh);
          shaped = with_child-IsShaped h n id shaped m e a.shaped;
          holds_id = λ j. member-with_child h n id j c m shaped e here (a.holds_id j);
        },
      )
    ]

pub set_node-Adds : (h : ℕ) (n : Node h) (id : ℕ) → IsShaped h n → (m : Node h) × Adds h n id m
unfolding set_node member
set_node-Adds zero n id shaped = elim (Bool-cases (n.words (word_of id) (bit_of id))) [
  | inl e ↦ (n, record { returns = rw e; shaped = tt; holds_id = kept zero n id e })
  | inr e ↦ (
    with_bit n id,
    record { returns = rw e; shaped = tt; holds_id = λ j. member-with_bit n id j },
  )
]
set_node-Adds (suc h) n id shaped = elim (Bool-cases (n.present (slot_of h id))) [
  | inr e ↦ (
    with_branch h n id,
    record {
      returns = rw e;
      shaped = with_branch-IsShaped h n id shaped e;
      holds_id = λ j. member-with_branch h n id j shaped e;
    },
  )
  | inl e ↦
      let (c, found, below) = kid_present h n (slot_of h id) shaped (slot-lt h id) e in
      let (m, ih) = set_node-Adds h c id below in added_below h n id c m shaped e found ih
]
