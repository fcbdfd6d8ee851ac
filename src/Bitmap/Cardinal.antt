-- ===== src/Bitmap/Cardinal.antt =====
-- Len of bitmap.go is the number of ids that a set holds.
use go_maemmidb.Base.{
  ℕ, zero, suc, ◌+◌, ◌*◌, ◌^◌, ◌<◌, ◌≤◌, ◌≡◌, refl, ap, sym, subst, ◌∙◌, false, ◌||◌, not, arith,
  some, ◌==◌, inl, inr, Bool-cases, to_nat, Word, set_bit, ones_below, ones_below-set,
  ones_below_same,
}
use go_maemmidb.Base.Digits.{pow2_mono}
use go_maemmidb.Bitmap.{Bitmap, span, empty, len, set, max_height}
use go_maemmidb.Bitmap.Height.{contains, IsShapedBitmap}
use go_maemmidb.Bitmap.Laws.{set-Inserts}
use go_maemmidb.Bitmap.Counting.{IsCountedBitmap, len-set}
use go_maemmidb.Bitmap.Least.{empty_or_held}
use go_maemmidb.Bitmap.Low.{IsLow, set-IsLow}
use go_maemmidb.Bitmap.Ops.Levels.{empty-shaped}
use go_maemmidb.Bitmap.Removing.{Clears, clear-Clears}

-- What Set and Clear keep true of a set: its shape, its counts, its height, and that its ids fit
-- the 32-bit count.
pub record IsSound (b : Bitmap) : Type 0 where
  pub shaped : IsShapedBitmap b
  pub all : IsCountedBitmap b
  pub low : IsLow b
  pub room : len b < 2 ^ 32

-- No id from n on.
abbrev pub IsBelow : Bitmap → ℕ → Type 0
IsBelow b n = (j : ℕ) → j < 2 ^ 32 → n ≤ j → contains b j ≡ false

low_span : (h : ℕ) → h ≤ max_height → 2 ^ span h ≤ 2 ^ 32
unfolding span
low_span h p = pow2_mono (8 + 6 * h) 32 (omega arith)

len-none : (b : Bitmap) → IsSound b → IsBelow b 0 → len b ≡ 0
len-none b s nothing = elim (empty_or_held b s.shaped s.all) [
  | inl e ↦ e
  | inr (m, fits, on) ↦
      cc (nothing m (omega (arith, low_span b.height s.low, fits)) (omega arith), on)
]

pub clear-IsSound : (b : Bitmap) (id : ℕ) (c : Bitmap) → IsSound b → Clears b id c → IsSound c
clear-IsSound b id c s r = record {
  shaped = r.shaped;
  all = r.all;
  low = omega (arith, r.low, s.low);
  room = omega (arith, r.fewer, s.room);
}

-- Len of a sound set whose ids are below n is the number of the ids below n that it holds.
pub len_below :
    (n : ℕ) (b : Bitmap) → IsSound b → n ≤ 2 ^ 32 → IsBelow b n → len b ≡ ones_below n (contains b)
unfolding ones_below
len_below zero b s p below = len-none b s below
len_below (suc n) b s p below =
    let (c, r) = clear-Clears b n s.shaped s.all s.room (omega arith) in
    let gone : (j : ℕ) → j < n → contains c j ≡ contains b j = λ j q.
      r.ids j (omega arith)
      ∙ (let off : (n == j) ≡ false = ground arith in rw off (ground arith)) in
    let below' : IsBelow c n = λ j q le. r.ids j q ∙ elim (Bool-cases (n == j)) [
      | inl here ↦ rw here (ground arith)
      | inr away ↦ rw (below j q (ground arith)) refl
    ] in
    let rest = len_below n c (clear-IsSound b n c s r) (omega arith) below' in
    omega (arith, r.fewer, rest, ones_below_same n (contains c) (contains b) gone)

-- Len of a sound set is the number of the ids below 2 ^ 32 that it holds.
pub len-ones_below : (b : Bitmap) → IsSound b → len b ≡ ones_below (2 ^ 32) (contains b)
len-ones_below b s = len_below (2 ^ 32) b s (omega arith) (λ j p q. absurd (omega arith))

pub ones_below_le : (n : ℕ) (w : Word) → ones_below n w ≤ n
unfolding ones_below
ones_below_le zero w = omega arith
ones_below_le (suc n) w = ground (arith, ones_below_le n w)

-- A set that misses an id has room for it.
pub missing_room :
    (b : Bitmap) (n id : ℕ)
    → IsSound b
    → n < 2 ^ 32
    → IsBelow b n
    → id < n
    → contains b id ≡ false
    → len b + 1 < 2 ^ 32
missing_room b n id s p below less off =
    let count = len_below n b s (omega arith) below in
    let more = ones_below-set n id (contains b) off in
    let most = ones_below_le n (set_bit (contains b) id) in ground (arith, count, more, most)

-- Set keeps a set sound as long as there is room for the id.
pub record Sets (b : Bitmap) (id : ℕ) (c : Bitmap) : Type 0 where
  pub returns : set b id ≡ some (c, not (contains b id))
  pub sound : IsSound c
  pub more : len c ≡ len b + to_nat (not (contains b id))
  pub ids : (j : ℕ) → j < 2 ^ 32 → contains c j ≡ (id == j || contains b j)

pub set-Sets :
    (b : Bitmap) (id : ℕ)
    → IsSound b
    → id < 2 ^ 32
    → len b + 1 < 2 ^ 32
    → (c : Bitmap) × Sets b id c
set-Sets b id s p room =
    let (c, r) = set-Inserts b id s.shaped p in
    let (d, run, shaped, all, more) = len-set b id s.shaped s.all p room in
    let same : d ≡ c = cc (sym run ∙ r.returns) in
    let more' : len c ≡ len b + to_nat (not (contains b id)) = sym (ap len same) ∙ more in
    (
      c,
      record {
        returns = r.returns;
        sound = record {
          shaped = r.shaped;
          all = subst IsCountedBitmap same all;
          low = set-IsLow b id c (not (contains b id)) s.low r.returns;
          room = ground (arith, more', room);
        };
        more = more';
        ids = r.ids;
      },
    )

pub empty-IsSound : IsSound empty
unfolding len
empty-IsSound = record {
  shaped = empty-shaped;
  all = λ n e. cc;
  low = omega arith;
  room = omega arith;
}

-- An id that Min finds fits 32 bits.
pub low_lt : (b : Bitmap) (m : ℕ) → IsSound b → m < 2 ^ span b.height → m < 2 ^ 32
low_lt b m s p = omega (arith, low_span b.height s.low)

-- The ids below n are at most n.
pub len_room : (b : Bitmap) (n : ℕ) → IsSound b → n + 1 < 2 ^ 32 → IsBelow b n → len b + 1 < 2 ^ 32
len_room b n s p below =
    omega (arith, len_below n b s (omega arith) below, ones_below_le n (contains b))
