-- ===== src/Bitmap/Laws.antt =====
-- The contract of Has and Set of bitmap.go over the ids that a set holds.
use go_maemmidb.Base.{
  ℕ, ◌^◌, ◌<◌, ◌≡◌, refl, ap, subst, ◌∙◌, Bool, false, ◌||◌, not, arith, Option, none, some, ◌==◌,
  inl, inr, Bool-cases,
}
use go_maemmidb.Bitmap.{Node, Bitmap, at, too_low, branch, set, grow, fit_height, has, max_height}
use go_maemmidb.Bitmap.Path.{same_path, covers-lt, fit_height_lem}
use go_maemmidb.Bitmap.Shape.{IsShaped, member, has_node-member}
use go_maemmidb.Bitmap.Children.{branch-IsShaped}
use go_maemmidb.Bitmap.Adding.{member-branch, set_node-Adds}
use go_maemmidb.Bitmap.Height.{
  contains, contains_at, IsShapedBitmap, contains_covered, contains_outside, grow-Grows, apart,
  differs,
}

has_at :
    (h : ℕ) (root : Option (Node h)) (id : ℕ)
    → IsShapedBitmap (record { height = h; root = root })
    → has (record { height = h; root = root }) id
      ≡ some (contains (record { height = h; root = root }) id)
unfolding has contains
has_at h none id shaped = refl
has_at h (some n) id shaped = elim (Bool-cases (too_low h id)) [
  | inl e ↦ rw e
  | inr e ↦ rw e (has_node-member h n id (shaped n refl))
]

-- Has of a well-shaped set does not panic, and answers by membership in the tree.
pub has-contains : (b : Bitmap) (id : ℕ) → IsShapedBitmap b → has b id ≡ some (contains b id)
has-contains b id shaped = has_at b.height b.root id shaped

-- What Set promises.
pub record Inserts (b : Bitmap) (id : ℕ) (c : Bitmap) : Type 0 where
  pub returns : set b id ≡ some (c, not (contains b id))
  pub shaped : IsShapedBitmap c
  pub ids : (j : ℕ) → j < 2 ^ 32 → contains c j ≡ (id == j || contains b j)

-- A node that holds one id more, in a tree that covers it.
contains-added :
    (h : ℕ) (n m : Node h) (id j : ℕ)
    → too_low h id ≡ false
    → id < 2 ^ 32
    → j < 2 ^ 32
    → member h m j ≡ (same_path h id j || member h n j)
    → contains_at h m j ≡ (id == j || contains_at h n j)
contains-added h n m id j reach p q e = elim (Bool-cases (too_low h j)) [
  | inl out ↦ rw (contains_outside h m j out, contains_outside h n j out, differs h id j reach out)
  | inr within ↦ rw (
    contains_covered h m j within,
    contains_covered h n j within,
    e,
    apart h id j (covers-lt h id p reach) (covers-lt h j q within),
  )
]

contains-branch :
    (h id j : ℕ)
    → too_low h id ≡ false
    → id < 2 ^ 32
    → j < 2 ^ 32
    → contains_at h (branch h id) j ≡ (id == j)
contains-branch h id j reach p q = elim (Bool-cases (too_low h j)) [
  | inl out ↦ rw (contains_outside h (branch h id) j out, differs h id j reach out)
  | inr within ↦ rw (
    contains_covered h (branch h id) j within,
    member-branch h id j,
    apart h id j (covers-lt h id p reach) (covers-lt h j q within),
  )
]

pub shaped_at : (h : ℕ) (n : Node h) → IsShaped h n → IsShapedBitmap (at h n)
shaped_at h n shaped m e = let same : n ≡ m = cc in subst (IsShaped h) same shaped

set_at :
    (h : ℕ) (root : Option (Node h)) (id : ℕ)
    → IsShapedBitmap (record { height = h; root = root })
    → id < 2 ^ 32
    → (c : Bitmap) × Inserts (record { height = h; root = root }) id c
unfolding set
set_at h none id shaped p =
    let k = fit_height max_height 0 id in
    let reach = fit_height_lem max_height 0 id (omega arith) in
    (
      at k (branch k id),
      record {
        returns = unfold contains in refl;
        shaped = shaped_at k (branch k id) (branch-IsShaped k id);
        ids = λ j q. contains-branch k id j reach p q ∙ (unfold contains in ground arith);
      },
    )
set_at h (some n) id shaped p =
    let g = grow max_height h n id in
    let grown = grow-Grows max_height h n id (omega arith) (shaped n refl) in
    let (m, added) = set_node-Adds g.0 g.1 id grown.shaped in
    (
      at g.0 m,
      record {
        returns =
            rw (added.returns, ← contains_covered g.0 g.1 id grown.reaches, grown.same_ids id p);
        shaped = shaped_at g.0 m added.shaped;
        ids = λ j q.
            contains-added g.0 g.1 m id j grown.reaches p q (added.holds_id j)
            ∙ ap (λ (t : Bool). id == j || t) (grown.same_ids j q);
      },
    )

pub set-Inserts :
    (b : Bitmap) (id : ℕ) → IsShapedBitmap b → id < 2 ^ 32 → (c : Bitmap) × Inserts b id c
set-Inserts b id shaped p = set_at b.height b.root id shaped p

-- Set of an id below 2 ^ 32 in a well-shaped set does not panic: it says whether the id is new and
-- returns a well-shaped set, which holds an id below 2 ^ 32 if it is the one or was held before.
pub contains-set :
    (b : Bitmap) (id j : ℕ)
    → IsShapedBitmap b
    → id < 2 ^ 32
    → j < 2 ^ 32
    → (c : Bitmap) × (set b id ≡ some (c, not (contains b id)))
      × IsShapedBitmap c
      × (contains c j ≡ (id == j || contains b j))
contains-set b id j shaped small small' =
    let (c, r) = set-Inserts b id shaped small in (c, r.returns, r.shaped, r.ids j small')
