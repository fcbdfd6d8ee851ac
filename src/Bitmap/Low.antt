-- ===== src/Bitmap/Low.antt =====
-- How tall the trees of bitmap.go become.
use go_maemmidb.Base.{
  ℕ, zero, suc, ◌+◌, ◌≤◌, ◌≡◌, ap, sym, subst, ◌∙◌, Bool, true, arith, Option, none, some, ◌>>=◌,
  bind-some, if◌then◌else◌, inl, inr, Bool-cases, get_elem?, ◌==◌, set_bit, zero_word, same_below,
}
use go_maemmidb.Bitmap.{
  Node, Bitmap, at, max_height, too_low, lifted, grow, fit_height, branch, set_node, set, canonical,
}
use go_maemmidb.Bitmap.Path.{tall}

-- No taller than maxHeight.
abbrev pub IsLow : Bitmap → Type 0
IsLow b = b.height ≤ max_height

fit_height-le : (fuel h id : ℕ) → h + fuel ≤ max_height → fit_height fuel h id ≤ max_height
unfolding fit_height
fit_height-le zero h id p = omega arith
fit_height-le (suc fuel) h id p = elim (Bool-cases (too_low h id)) [
  | inl e ↦ rw e (fit_height-le fuel (suc h) id (omega arith))
  | inr e ↦ rw e (omega arith)
]

-- The growing loop stops at maxHeight at the latest.
grow-le : (fuel h : ℕ) (n : Node h) (id : ℕ) → h ≤ max_height → (grow fuel h n id).0 ≤ max_height
unfolding grow
grow-le zero h n id p = p
grow-le (suc fuel) h n id p = elim (Bool-cases (too_low h id)) [
  | inr e ↦ rw e p
  | inl e ↦ rw e (
      grow-le fuel (suc h) (lifted h n) id (elim (Bool-cases (too_low max_height id)) [
        | inl no_way ↦ cc (tall max_height id (omega arith), no_way)
        | inr top ↦ taller h id p e
      ]))
]
  where
    taller : (h id : ℕ) → h ≤ 4 → too_low h id ≡ true → suc h ≤ 4
    taller h id p e = elim (Bool-cases (h == 4)) [
      | inl s ↦ cc (tall h id (ground arith), e)
      | inr s ↦ ground arith
    ]

set-IsLow' :
    (h : ℕ) (root : Option (Node h)) (id : ℕ) (c : Bitmap) (fresh : Bool)
    → h ≤ max_height
    → set (record { height = h; root = root }) id ≡ some (c, fresh)
    → IsLow c
unfolding set
set-IsLow' h none id c fresh p e =
    let k = fit_height max_height 0 id in
    let same : at k (branch k id) ≡ c = cc (ap (λ (o : Option (Bitmap × Bool)). o) e) in
    subst IsLow same (fit_height-le max_height 0 id (omega arith))
set-IsLow' h (some n) id c fresh p e =
    let g = grow max_height h n id in
    let (r, run, last) =
      bind-some (set_node g.0 g.1 id) (λ r. some (at g.0 r.0, r.1)) (c, fresh) e in
    let same : at g.0 r.0 ≡ c = cc last in subst IsLow same (grow-le max_height h n id p)

-- Set keeps a tree within maxHeight, whatever the id.
pub set-IsLow :
    (b : Bitmap) (id : ℕ) (c : Bitmap) (fresh : Bool)
    → IsLow b
    → set b id ≡ some (c, fresh)
    → IsLow c
set-IsLow b id c fresh low e = set-IsLow' b.height b.root id c fresh low e

pub canonical_low : (h : ℕ) (n : Node h) (c : Bitmap) → canonical h n ≡ some c → c.height ≤ h
unfolding canonical
canonical_low zero n c e = let same : at 0 n ≡ c = cc in rw (← same) (omega arith)
canonical_low (suc h) n c e = elim (Bool-cases (same_below 64 n.present (set_bit zero_word 0))) [
  | inr off ↦
      let same : at (suc h) n ≡ c = cc (
        sym (
          ap
            (λ (b : Bool).
              if b then (get_elem? n.kids 0 >>= λ k. canonical h k) else some (at (suc h) n))
            off)
        ∙ e) in
      rw (← same) (omega arith)
  | inl on ↦
      let (k, found, run) =
        bind-some (get_elem? n.kids 0) (λ k. canonical h k) c
          (sym (
              ap
                (λ (b : Bool).
                  if b then (get_elem? n.kids 0 >>= λ k. canonical h k) else some (at (suc h) n))
                on)
            ∙ e) in
      omega (arith, canonical_low h k c run)
]
