-- ===== src/Bitmap/Ops/Combine.antt =====
-- The recursive halves of And, Or and AndNot of ops.go combine the ids of two trees of one height.
use go_maemmidb.Base.{
  ℕ, suc, ◌<◌, ◌≡◌, ◌⊎◌, refl, ap, sym, subst, ◌∙◌, Bool, true, false, arith, Option, none, some,
  holds, inl, inr, Bool-cases,
}
use mathlib.Core.Path.{ap₂}
use go_maemmidb.Bitmap.{Node, kid, slot_of}
use go_maemmidb.Bitmap.Shape.{IsShaped, IsShapedChild, child, member, slot-lt, kid_present}
use go_maemmidb.Bitmap.Adding.{absent, found_at, member_at}
use go_maemmidb.Bitmap.Ops.{Builder, collect}
use go_maemmidb.Bitmap.Ops.Build.{Collects, child_of, collect-Collects}

-- Membership in a tree that may be nil.
abbrev pub member_or : (h : ℕ) → Option (Node h) → ℕ → Bool
member_or h o j = holds o (λ n. member h n j)

-- A call returns a well-shaped tree, or nil, that holds what `f` says of the operands' ids.
pub record Combines (f : Bool → Bool → Bool) (h : ℕ) (a b : Option (Node h))
    (run : Option (Option (Node h))) (m : Option (Node h)) : Type 0 where
  pub returns : run ≡ some m
  pub shaped : IsShapedChild h m
  pub ids : (j : ℕ) → member_or h m j ≡ f (member_or h a j) (member_or h b j)

-- A slot of a directory node: empty, or a well-shaped child.
abbrev pub SlotCase : (h : ℕ) → Node (suc h) → ℕ → Type 0
SlotCase h n s =
    ((n.present s ≡ false) × (child h n s ≡ none))
    ⊎ ((c : Node h) × (n.present s ≡ true)
        × (kid h n s ≡ some c)
        × (child h n s ≡ some c)
        × IsShaped h c)

pub slot_cases : (h : ℕ) (n : Node (suc h)) (s : ℕ) → IsShaped (suc h) n → s < 64 → SlotCase h n s
slot_cases h n s shaped p = elim (Bool-cases (n.present s)) [
  | inr e ↦ inl (e, absent h n s e)
  | inl e ↦
      let (c, found, below) = kid_present h n s shaped p e in
      inr (c, e, found, found_at h n s e found, below)
]

abbrev value {ℓ} : {A : Type ℓ} → Option (Option A) → Option A
value none = none
value (some c) = c

member_child :
    (h : ℕ) (m : Option (Node (suc h))) (j : ℕ)
    → member_or (suc h) m j ≡ member_or h (child_of h m (slot_of h j)) j
member_child h none j = refl
member_child h (some n) j = member_at h n j refl

-- The body of an operation's loop combines the children of every slot.
module _ (f : Bool → Bool → Bool) (h : ℕ) (a b : Node (suc h))
    (child_at : ℕ → Option (Option (Node h)))
    (steps : (s : ℕ)
      → s < 64
      → (c : Option (Node h)) × Combines f h (child h a s) (child h b s) (child_at s) c) where
  abbrev pub slots : ℕ → Option (Node h)
  slots s = value (child_at s)

  pub steps-value : (s : ℕ) (p : s < 64) → slots s ≡ (steps s p).0
  steps-value s p = ap value (steps s p).1.returns

  pub collected : (r : Builder (Node h)) × (collect h child_at 64 ≡ some r) × Collects h 64 slots r
  collected =
      collect-Collects h child_at slots
        (λ s p. (steps s p).1.returns ∙ ap some (sym (steps-value s p)))
        (λ s p. subst (IsShapedChild h) (sym (steps-value s p)) (steps s p).1.shaped) 64
        (omega arith)

  -- A node with the collected children combines the ids of the two nodes.
  pub slots-ids :
      (m : Option (Node (suc h)))
      → ((s : ℕ) → s < 64 → child_of h m s ≡ slots s)
      → (j : ℕ) → member_or (suc h) m j ≡ f (member (suc h) a j) (member (suc h) b j)
  slots-ids m same j =
      let s = slot_of h j in
      let p = slot-lt h j in
      member_child h m j
      ∙ ap (λ o. member_or h o j) (same s p ∙ steps-value s p)
      ∙ (steps s p).1.ids j
      ∙ ap₂ f (sym (member_at h a j refl)) (sym (member_at h b j refl))
