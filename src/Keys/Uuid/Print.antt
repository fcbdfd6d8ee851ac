-- ===== src/Keys/Uuid/Print.antt =====
-- The canonical text of a UUID, and how parseStringSlow of index.go reads its parts.
use go_maemmidb.Base.{
  ℕ, ◌+◌, ◌*◌, ◌/◌, ◌%◌, ◌<◌, ◌≡◌, refl, ap, false, arith, [], ◌∷◌, ◌++◌, some, ltb, ◌==◌,
  if◌then◌else◌, inl, inr, Bool-cases, length, Every,
}
use go_maemmidb.Keys.{Text, Key}
use go_maemmidb.Keys.Uuid.{hyphen, hyphens, sanitize, hex_digit, decode_hex}

-- A hexadecimal digit, in lower case.
unfoldable pub digit : ℕ → ℕ
digit d = if ltb d 10 then d + 48 else d + 87

unfoldable pub print_hex : Key → Text
unfolding digit
print_hex [] = []
print_hex (b ∷ bs) = digit (b / 16) ∷ digit (b % 16) ∷ print_hex bs

pub hex_digit-digit : (d : ℕ) → d < 16 → hex_digit (digit d) ≡ some d
unfolding hex_digit digit
hex_digit-digit d h = ground arith

pub decode_hex-print_hex :
    (bs : Key) → Every (λ b. b < 256) bs → decode_hex (print_hex bs) ≡ some bs
unfolding decode_hex print_hex
decode_hex-print_hex [] h = refl
decode_hex-print_hex (b ∷ bs) (h, hs) =
    rw
      (
        hex_digit-digit (b / 16) (omega arith),
        hex_digit-digit (b % 16) (omega arith),
        decode_hex-print_hex bs hs,
      )
      (let whole : b / 16 * 16 + b % 16 ≡ b = omega arith in ap (λ x. some (x ∷ bs)) whole)

pub length-print_hex : (bs : Key) → length (print_hex bs) ≡ 2 * length bs
unfolding print_hex
length-print_hex [] = refl
length-print_hex (b ∷ bs) = omega (arith, length-print_hex bs)

pub hyphens-append : (xs ys : Text) → hyphens (xs ++ ys) ≡ hyphens xs + hyphens ys
unfolding hyphens
hyphens-append [] ys = omega arith
hyphens-append (x ∷ xs) ys = ground (arith, hyphens-append xs ys)

pub sanitize-append : (xs ys : Text) → sanitize (xs ++ ys) ≡ sanitize xs ++ sanitize ys
unfolding sanitize
sanitize-append [] ys = refl
sanitize-append (x ∷ xs) ys = elim (Bool-cases (x == hyphen)) [
  | inl e ↦ rw e (sanitize-append xs ys)
  | inr e ↦ rw e (ap (λ zs. x ∷ zs) (sanitize-append xs ys))
]

digit-hyphen : (d : ℕ) → (digit d == hyphen) ≡ false
unfolding digit
digit-hyphen d = ground arith

pub hyphens-print_hex : (bs : Key) → hyphens (print_hex bs) ≡ 0
unfolding hyphens print_hex
hyphens-print_hex [] = refl
hyphens-print_hex (b ∷ bs) =
    rw (digit-hyphen (b / 16), digit-hyphen (b % 16)) (hyphens-print_hex bs)

pub sanitize-print_hex : (bs : Key) → sanitize (print_hex bs) ≡ print_hex bs
unfolding sanitize print_hex
sanitize-print_hex [] = refl
sanitize-print_hex (b ∷ bs) =
    rw (digit-hyphen (b / 16), digit-hyphen (b % 16), sanitize-print_hex bs) refl

pub print_hex-append : (xs ys : Key) → print_hex (xs ++ ys) ≡ print_hex xs ++ print_hex ys
unfolding print_hex
print_hex-append [] ys = refl
print_hex-append (x ∷ xs) ys = rw (print_hex-append xs ys) refl
