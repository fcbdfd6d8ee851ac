-- ===== src/Keys/Bytes.antt =====
-- The order of byte strings, which is the order of a radix tree, and its prefixes.
use native.Mathlib.Nat.{pow-suc, mod-lt}
use mathlib.Core.Path.{ap₂}
use go_maemmidb.Base.{
  ℕ, zero, suc, ◌+◌, ◌*◌, ◌/◌, ◌%◌, ◌^◌, ◌<◌, ◌≡◌, refl, ap, sym, Bool, true, false, arith, [], ◌∷◌,
  ◌++◌, ltb, ◌==◌, ==_iff, if◌then◌else◌, inl, inr, Bool-cases, length, ltb→lt,
}
use go_maemmidb.Base.Digits.{mod-mul}
use go_maemmidb.Keys.{Key}

-- bytes.Compare(a, b) < 0
unfoldable pub less_bytes : Key → Key → Bool
less_bytes [] [] = false
less_bytes [] (y ∷ ys) = true
less_bytes (x ∷ xs) [] = false
less_bytes (x ∷ xs) (y ∷ ys) =
    let rest = less_bytes xs ys in if ltb x y then true else if ltb y x then false else rest

-- bytes.HasPrefix(key, start)
unfoldable pub is_prefix : Key → Key → Bool
is_prefix [] key = true
is_prefix (x ∷ xs) [] = false
is_prefix (x ∷ xs) (y ∷ ys) = let rest = is_prefix xs ys in if x == y then rest else false

-- The lowest n bytes of a number, the highest first.
unfoldable pub big_endian : ℕ → ℕ → Key
big_endian zero v = []
big_endian (suc n) v = (v / 256 ^ n % 256) ∷ big_endian n v

pub length-big_endian : (n v : ℕ) → length (big_endian n v) ≡ n
unfolding big_endian
length-big_endian zero v = refl
length-big_endian (suc n) v = ap suc (length-big_endian n v)

pub pow256_pos : (n : ℕ) → 0 < 256 ^ n
pow256_pos zero = omega arith
pow256_pos (suc n) = rw pow-suc (omega (arith, pow256_pos n))

jump : (x y p m : ℕ) → x < y → p < m → x * m + p < y * m
jump x y p m h hp = grind arith

-- Two-digit numbers compare by their high digits first.
compare_digits :
    (x y p q m : ℕ)
    → p < m
    → q < m
    → ltb (x * m + p) (y * m + q) ≡ (if ltb x y then true else if ltb y x then false else ltb p q)
compare_digits x y p q m hp hq = elim (Bool-cases (x == y)) [
  | inl e ↦ rw ((==_iff x y).0 e) (ground arith)
  | inr e ↦ elim (Bool-cases (ltb x y)) [
    | inl l ↦ ground (arith, jump x y p m (ltb→lt x y l) hp)
    | inr l ↦ let l' : y < x = ground arith in ground (arith, jump y x q m l' hq)
  ]
]

pub less_bytes-big_endian :
    (n a b : ℕ) → less_bytes (big_endian n a) (big_endian n b) ≡ ltb (a % 256 ^ n) (b % 256 ^ n)
unfolding less_bytes big_endian
less_bytes-big_endian zero a b = ground arith
less_bytes-big_endian (suc n) a b =
    let pos = pow256_pos n in
    rw
      (
        less_bytes-big_endian n a b,
        pow-suc,
        mod-mul a (256 ^ n) 256 pos (omega arith),
        mod-mul b (256 ^ n) 256 pos (omega arith),
      )
      (sym (
        compare_digits (a / 256 ^ n % 256) (b / 256 ^ n % 256) (a % 256 ^ n) (b % 256 ^ n) (256 ^ n)
          (mod-lt a pos) (mod-lt b pos)))

pub is_prefix-append : (xs ys : Key) → is_prefix xs (xs ++ ys) ≡ true
unfolding is_prefix
is_prefix-append [] ys = refl
is_prefix-append (x ∷ xs) ys = rw ((==_iff x x).1 refl) (is_prefix-append xs ys)

-- Strings of one length: a prefix of the one, with anything behind it, is the other.
pub is_prefix-eq :
    (xs ys zs : Key) → length xs ≡ length ys → is_prefix xs (ys ++ zs) ≡ true → xs ≡ ys
unfolding is_prefix
is_prefix-eq [] [] zs l e = refl
is_prefix-eq [] (y ∷ ys) zs l e = absurd (omega (arith, l))
is_prefix-eq (x ∷ xs) [] zs l e = absurd (omega (arith, l))
is_prefix-eq (x ∷ xs) (y ∷ ys) zs l e =
    let both : is_prefix xs (ys ++ zs) ≡ true = ground arith in
    let same : x ≡ y = ground arith in ap₂ ◌∷◌ same (is_prefix-eq xs ys zs (omega (arith, l)) both)
