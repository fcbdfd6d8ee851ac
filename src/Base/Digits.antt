-- ===== src/Base/Digits.antt =====
-- The digits of a number in a mixed radix: the slots of an id on its way down a trie.
use native.Mathlib.Nat.{
  pow-suc, pow-zero, pow-le-pow_right, add-suc, add-zero, mul_assoc, mod-lt, mod-eq_of_lt,
  add-mul-mod_self_right, div-add-mod', mul-add-div_right, div-eq_of_lt,
}
use Prim.Native.Nat.{ℕ, zero, suc, ◌+◌, ◌*◌, ◌/◌, ◌%◌, ◌^◌, ◌<◌, ◌≤◌}
use mathlib.Core.Path.{◌≡◌, ap, sym, ◌∙◌}
use native.Mathlib.Omega.{arith}

pub digit-lt : (d r p b : ℕ) → d < b → r < p → d * p + r < p * b
digit-lt d r p b hd hr = grind arith

regroup : (i p b : ℕ) → i ≡ i / p % b * p + i % p + i / p / b * (p * b)
regroup i p b = omega (arith, div-add-mod' i p, ap (λ (t : ℕ). t * p) (div-add-mod' (i / p) b))

-- One more digit.
pub mod-mul : (i p b : ℕ) → 0 < p → 0 < b → i % (p * b) ≡ i / p % b * p + i % p
mod-mul i p b hp hb =
    let fits = digit-lt (i / p % b) (i % p) p b (mod-lt (i / p) hb) (mod-lt i hp) in
    ap (λ (t : ℕ). t % (p * b)) (regroup i p b)
    ∙ (add-mul-mod_self_right (i / p % b * p + i % p) (i / p / b) (p * b) ∙ mod-eq_of_lt fits)

-- Two numbers with the same two parts are the same up to the next digit, and back.
pub mod-mul-eq :
    (i j p b : ℕ)
    → 0 < p
    → 0 < b
    → i / p % b ≡ j / p % b
    → i % p ≡ j % p
    → i % (p * b) ≡ j % (p * b)
mod-mul-eq i j p b hp hb top low = rw (mod-mul i p b hp hb, mod-mul j p b hp hb, top, low)

pub pow2-add : (a b : ℕ) → 2 ^ (a + b) ≡ 2 ^ a * 2 ^ b
pow2-add a zero = rw (add-zero, pow-zero) (omega arith)
pow2-add a (suc b) = rw (add-suc, pow-suc, pow-suc, pow2-add a b) (mul_assoc _ _ _)

pub pow2_pos : (a : ℕ) → 0 < 2 ^ a
pow2_pos zero = omega arith
pow2_pos (suc a) = rw pow-suc (omega (arith, pow2_pos a))

pub pow2_mono : (a b : ℕ) → a ≤ b → 2 ^ a ≤ 2 ^ b
pow2_mono a b h = pow-le-pow_right (omega arith) h

pub lt_of_div-eq-zero : (a b : ℕ) → 0 < b → a / b ≡ 0 → a < b
lt_of_div-eq-zero a b h e = grind arith

pub top_digit : (d r p : ℕ) → r < p → (d * p + r) / p ≡ d
top_digit d r p h = mul-add-div_right (omega arith) d r ∙ rw (div-eq_of_lt h) (omega arith)

digits_unique : (d e r s p : ℕ) → r < p → s < p → d * p + r ≡ e * p + s → (d ≡ e) × (r ≡ s)
digits_unique d e r s p hr hs h =
    let top : d ≡ e = sym (top_digit d r p hr) ∙ ap (λ x. x / p) h ∙ top_digit e s p hs in
    let whole : d * p + r ≡ d * p + s = h ∙ ap (λ x. x * p + s) (sym top) in
    (top, omega (arith, whole))

-- A number's two parts are those of what is left of it.
pub mod-mul-parts :
    (i j p b : ℕ)
    → 0 < p
    → 0 < b
    → i % (p * b) ≡ j % (p * b)
    → (i / p % b ≡ j / p % b) × (i % p ≡ j % p)
mod-mul-parts i j p b hp hb e =
    digits_unique (i / p % b) (j / p % b) (i % p) (j % p) p (mod-lt i hp) (mod-lt j hp)
      (sym (mod-mul i p b hp hb) ∙ e ∙ mod-mul j p b hp hb)
