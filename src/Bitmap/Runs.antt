-- ===== src/Bitmap/Runs.antt =====
-- Any sequence of calls of Set and Clear of bitmap.go, against the set of ids that it stands for.
use go_maemmidb.Base.{
  ℕ, ◌+◌, ◌^◌, ◌<◌, ◌≡◌, refl, ap, ◌∙◌, Bool, false, ◌&&◌, ◌||◌, not, arith, List, [], ◌∷◌, Option,
  some, ◌>>=◌, ◌==◌, ones_below, ones_below_same, Every,
}
use go_maemmidb.Bitmap.{Bitmap, empty, set, clear, has, len}
use go_maemmidb.Bitmap.Height.{contains}
use go_maemmidb.Bitmap.Laws.{has-contains}
use go_maemmidb.Bitmap.Removing.{nothing_in, clear-Clears}
use go_maemmidb.Bitmap.Cardinal.{
  IsSound, IsBelow, clear-IsSound, len_below, len-ones_below, ones_below_le, set-Sets,
  empty-IsSound,
}

pub data Edit : Type 0 where
  insertion : ℕ → Edit
  removal : ℕ → Edit

abbrev pub edited : Edit → ℕ
edited (insertion id) = id
edited (removal id) = id

-- The calls, one after the other.
unfoldable pub run_edits : List Edit → Bitmap → Option Bitmap
unfolding set clear
run_edits [] b = some b
run_edits (insertion id ∷ es) b = set b id >>= λ r. run_edits es r.0
run_edits (removal id ∷ es) b = clear b id >>= λ r. run_edits es r.0

-- What the calls mean for a set of ids, with no tree.
unfoldable pub meant : List Edit → (ℕ → Bool) → ℕ → Bool
meant [] s = s
meant (insertion id ∷ es) s = meant es (λ j. id == j || s j)
meant (removal id ∷ es) s = meant es (λ j. s j && not (id == j))

-- A sound tree that holds the ids of a set, all below n.
record Tracks (b : Bitmap) (s : ℕ → Bool) (n : ℕ) : Type 0 where
  pub sound : IsSound b
  pub ids : (j : ℕ) → j < 2 ^ 32 → contains b j ≡ s j
  pub below : IsBelow b n

-- A set of ids below n has room for one more.
room : (b : Bitmap) (n : ℕ) → IsSound b → IsBelow b n → n + 1 < 2 ^ 32 → len b + 1 < 2 ^ 32
room b n sound below p =
    let count = len_below n b sound (omega arith) below in
    omega (arith, count, ones_below_le n (contains b))

run_edits-Tracks :
    (n : ℕ) (es : List Edit) (b : Bitmap) (s : ℕ → Bool)
    → n + 1 < 2 ^ 32
    → Every (λ e. edited e < n) es
    → Tracks b s n
    → (c : Bitmap) × (run_edits es b ≡ some c) × Tracks c (meant es s) n
unfolding run_edits meant
run_edits-Tracks n [] b s p all t = (b, refl, t)
run_edits-Tracks n (insertion id ∷ es) b s p (within, all) t =
    let (c, r) = set-Sets b id t.sound (omega arith) (room b n t.sound t.below p) in
    let (d, ran, t') =
      run_edits-Tracks n es c (λ j. id == j || s j) p all
        (record {
          sound = r.sound;
          ids = λ j q. r.ids j q ∙ ap (λ x. id == j || x) (t.ids j q);
          below = λ j q le. r.ids j q ∙ rw (t.below j q le) (ground arith);
        }) in
    (d, rw r.returns ran, t')
run_edits-Tracks n (removal id ∷ es) b s p (within, all) t =
    let (c, r) = clear-Clears b id t.sound.shaped t.sound.all t.sound.room (omega arith) in
    let (d, ran, t') =
      run_edits-Tracks n es c (λ j. s j && not (id == j)) p all
        (record {
          sound = clear-IsSound b id c t.sound r;
          ids = λ j q. r.ids j q ∙ ap (λ x. x && not (id == j)) (t.ids j q);
          below = λ j q le. r.ids j q ∙ rw (t.below j q le) refl;
        }) in
    (d, rw r.returns ran, t')

-- Any sequence of Sets and Clears of ids below n, with n + 1 below 2 ^ 32, on the empty set does not
-- panic, and leaves a set in which Has answers for every id below 2 ^ 32 as the same sequence
-- on a set of ids without a tree says, and Len is the number of those ids.
pub run_edits-meant :
    (n : ℕ) (es : List Edit)
    → n + 1 < 2 ^ 32
    → Every (λ e. edited e < n) es
    → (c : Bitmap) × (run_edits es empty ≡ some c)
      × ((j : ℕ) → j < 2 ^ 32 → has c j ≡ some (meant es (λ i. false) j))
      × (len c ≡ ones_below (2 ^ 32) (meant es (λ i. false)))
run_edits-meant n es p all =
    let (c, ran, t) =
      run_edits-Tracks n es empty (λ i. false) p all
        (record {
          sound = empty-IsSound;
          ids = λ j q. nothing_in j;
          below = λ j q le. nothing_in j;
        }) in
    (
      c,
      ran,
      λ j q. has-contains c j t.sound.shaped ∙ ap some (t.ids j q),
      len-ones_below c t.sound
          ∙ ones_below_same (2 ^ 32) (contains c) (meant es (λ i. false)) (λ i q. t.ids i q),
    )
