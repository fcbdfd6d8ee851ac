-- ===== src/Bitmap/Ops/Filled.antt =====
-- Trees of bitmap.go without an empty directory: what Set and Clear keep, and Or relies on.
use go_maemmidb.Base.{
  ℕ, zero, suc, ◌<◌, ◌≡◌, sym, subst, true, arith, List, [], ◌∷◌, some, ◌==◌, inl, inr, Bool-cases,
  Option-cases, length, get_elem?, ones_below, Word, zero_word, set_bit, same_below, same_below-eq,
  Every, Every-get_elem?,
}
use go_maemmidb.Bitmap.{Node, Bitmap, at, kid, canonical}
use go_maemmidb.Bitmap.Shape.{IsShaped, child, kid_present}
use go_maemmidb.Bitmap.Adding.{found_at}
use go_maemmidb.Bitmap.Sizes.{IsCounted, size, total}
use go_maemmidb.Bitmap.Height.{IsAlone, lifted-IsAlone}
use go_maemmidb.Bitmap.Cardinal.{IsSound}
use go_maemmidb.Bitmap.Ops.{Below, here, up, level}

-- Every directory has a child at some slot.
abbrev pub IsFilled : (h : ℕ) → Node h → Type 0
IsFilled zero n = Unit
IsFilled (suc h) n =
    ((s : ℕ) × (c : Node h) × (s < 64) × (child h n s ≡ some c))
    × ((s : ℕ) (c : Node h) → s < 64 → child h n s ≡ some c → IsFilled h c)

abbrev pub IsFilledBitmap : Bitmap → Type 0
IsFilledBitmap b = (n : Node b.height) → b.root ≡ some n → IsFilled b.height n

pub filled_at : (h : ℕ) (n : Node h) → IsFilled h n → IsFilledBitmap (at h n)
filled_at h n filled m e = let same : n ≡ m = cc in rw (sym same) filled

some_bit : (n : ℕ) (w : Word) → 0 < ones_below n w → (s : ℕ) × (s < n) × (w s ≡ true)
unfolding ones_below
some_bit zero w p = absurd (omega arith)
some_bit (suc n) w p = elim (Bool-cases (w n)) [
  | inl e ↦ (n, omega arith, e)
  | inr e ↦ let (s, q, on) = some_bit n w (ground arith) in (s, omega arith, on)
]

held_one : {A : Type 0} (f : A → ℕ) (xs : List A) → 0 < total f xs → 0 < length xs
unfolding total
held_one f [] p = absurd (omega arith)
held_one f (x ∷ xs) p = omega arith

child-Every :
    (h : ℕ) (P : Node h → Type 0) (n : Node (suc h)) (s : ℕ) (c : Node h)
    → Every P n.kids
    → child h n s ≡ some c
    → P c
unfolding child kid
child-Every h P n s c every e = elim (Bool-cases (n.present s)) [
  | inr off ↦ let e' = rw off at e in cc
  | inl on ↦ Every-get_elem? P n.kids (ones_below s n.present) every (rw on at e)
]

-- A tree whose nodes store counts that are not 0, as Set and Clear keep it, has no empty directory.
pub IsCounted-IsFilled : (h : ℕ) (n : Node h) → IsShaped h n → IsCounted h n → IsFilled h n
unfolding size
IsCounted-IsFilled zero n shaped counted = tt
IsCounted-IsFilled (suc h) n shaped (count, positive, below) =
    let many = held_one (size h) n.kids (omega (arith, count, positive)) in
    let (s, p, on) = some_bit 64 n.present (omega (arith, shaped.0, many)) in
    let (c, found, _) = kid_present h n s shaped p on in
    (
      (s, c, p, found_at h n s on found),
      λ s c p e.
          IsCounted-IsFilled h c (child-Every h (IsShaped h) n s c shaped.1 e)
            (child-Every h (IsCounted h) n s c below e),
    )

-- So a set that Set and Clear built has none.
pub IsSound-IsFilledBitmap : (b : Bitmap) → IsSound b → IsFilledBitmap b
IsSound-IsFilledBitmap b sound n e =
    IsCounted-IsFilled b.height n (sound.shaped n e) (sound.all n e)

-- A level on top leads to what was there.
lifted-IsFilled :
    (h : ℕ) (n : Node h) (m : Node (suc h)) → IsAlone h m n → IsFilled h n → IsFilled (suc h) m
lifted-IsFilled h n m alone filled = (
  (0, n, omega arith, alone 0 (omega arith)),
  λ s c p e. elim (Bool-cases (s == 0)) [
    | inl z ↦
        let same : n ≡ c = let at_s = rw z at (alone s p) in cc (at_s, e) in rw (sym same) filled
    | inr z ↦ let gone = rw z at (alone s p) in cc (gone, e)
  ],
)

pub level-IsFilled : {h k : ℕ} (d : Below h k) (n : Node h) → IsFilled h n → IsFilled k (level d n)
unfolding level
level-IsFilled here n filled = filled
level-IsFilled (up {k} d) n filled =
    lifted-IsFilled k (level d n) _ (lifted-IsAlone k (level d n)) (level-IsFilled d n filled)

first_child :
    (h : ℕ) (n : Node (suc h)) (m : Node h)
    → n.present 0 ≡ true
    → get_elem? n.kids 0 ≡ some m
    → child h n 0 ≡ some m
unfolding kid ones_below
first_child h n m on found = found_at h n 0 on found

-- What is left of a tree without its topmost levels that only lead to child 0.
pub canonical-IsFilled :
    (h : ℕ) (n : Node h) (c : Bitmap) → IsFilled h n → canonical h n ≡ some c → IsFilledBitmap c
unfolding canonical
canonical-IsFilled zero n c filled e =
    let same : at 0 n ≡ c = cc in subst IsFilledBitmap same (filled_at 0 n filled)
canonical-IsFilled (suc h) n c filled e =
    elim (Bool-cases (same_below 64 n.present (set_bit zero_word 0))) [
      | inr other ↦
          let same : at (suc h) n ≡ c = let e' = rw other at e in cc in
          subst IsFilledBitmap same (filled_at (suc h) n filled)
      | inl alone ↦
          let on = same_below-eq 64 n.present (set_bit zero_word 0) alone 0 (omega arith) in
          elim (Option-cases (get_elem? n.kids 0)) [
            | inl gone ↦ let e' = rw (alone, gone) at e in cc
            | inr (m, found) ↦
                canonical-IsFilled h m c (filled.1 0 m (omega arith) (first_child h n m on found))
                  (rw (alone, found) at e)
          ]
    ]
