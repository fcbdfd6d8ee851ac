-- ===== src/Keys/Uuid/RoundTrip.antt =====
-- Parsing of UUIDs in index.go: the canonical text, prefixes, and the length of what is read.
use go_maemmidb.Base.{
  ℕ, ◌+◌, ◌*◌, ◌%◌, ◌<◌, ◌≤◌, ◌≡◌, refl, ap, ◌∙◌, Bool, true, false, not, ◌&&◌, arith, List, [],
  ◌∷◌, ◌++◌, Option, none, some, bind-some, ltb, ◌==◌, if◌then◌else◌, length, length-append, Every,
}
use go_maemmidb.Keys.{Text, Key}
use go_maemmidb.Keys.Uuid.{hyphen, hyphens, sanitize, hex_digit, decode_hex, parse}
use go_maemmidb.Keys.Uuid.Print.{
  print_hex, decode_hex-print_hex, length-print_hex, hyphens-append, sanitize-append,
  hyphens-print_hex, sanitize-print_hex, print_hex-append,
}

-- Groups of bytes in hexadecimal digits, with a hyphen between two groups.
unfoldable pub print_groups : Key → List Key → Text
unfolding print_hex
print_groups g [] = print_hex g
print_groups g (h ∷ gs) = print_hex g ++ hyphen ∷ print_groups h gs

abbrev pub concat : Key → List Key → Key
concat g [] = g
concat g (h ∷ gs) = g ++ concat h gs

hyphens-groups : (g : Key) (gs : List Key) → hyphens (print_groups g gs) ≡ length gs
unfolding print_groups hyphens
hyphens-groups g [] = hyphens-print_hex g
hyphens-groups g (h ∷ gs) = omega (
  arith,
  hyphens-append (print_hex g) (hyphen ∷ print_groups h gs),
  hyphens-print_hex g,
  hyphens-groups h gs,
)

sanitize-groups : (g : Key) (gs : List Key) → sanitize (print_groups g gs) ≡ print_hex (concat g gs)
unfolding print_groups sanitize
sanitize-groups g [] = sanitize-print_hex g
sanitize-groups g (h ∷ gs) =
    sanitize-append (print_hex g) (hyphen ∷ print_groups h gs)
    ∙ rw (sanitize-print_hex g, sanitize-groups h gs, print_hex-append g (concat h gs)) refl

length-groups :
    (g : Key) (gs : List Key) → length (print_groups g gs) ≡ 2 * length (concat g gs) + length gs
unfolding print_groups
length-groups g [] = omega (arith, length-print_hex g)
length-groups g (h ∷ gs) = omega (
  arith,
  length-append (print_hex g) (hyphen ∷ print_groups h gs),
  length-print_hex g,
  length-groups h gs,
  length-append g (concat h gs),
)

even : (n : ℕ) → (2 * n % 2 == 0) ≡ true
even n = ground arith

-- A prefix of at most 36 characters, groups of whole bytes with at most four hyphens between them,
-- is read as its bytes; so is a whole UUID, of sixteen bytes in five groups.
pub parse-print_groups :
    (g : Key) (gs : List Key) (enforce : Bool)
    → Every (λ b. b < 256) (concat g gs)
    → length gs ≤ 4
    → 2 * length (concat g gs) + length gs ≤ 36
    → (enforce ≡ true → 2 * length (concat g gs) + length gs ≡ 36)
    → parse (print_groups g gs) enforce ≡ some (concat g gs)
unfolding parse
parse-print_groups g gs enforce small few short whole =
    let s = print_groups g gs in
    let c1 : (enforce && not (length s == 36)) ≡ false =
      ground (arith, length-groups g gs, whole) in
    let c2 : ltb 36 (length s) ≡ false = ground (arith, length-groups g gs) in
    let c3 : ltb 4 (hyphens s) ≡ false = ground (arith, hyphens-groups g gs) in
    let c4 : (length (sanitize s) % 2 == 0) ≡ true =
      ap (λ t. length t % 2 == 0) (sanitize-groups g gs)
      ∙ ap (λ n. n % 2 == 0) (length-print_hex (concat g gs))
      ∙ even (length (concat g gs)) in
    rw (parse, c1, c2, c3, c4)
      (ap decode_hex (sanitize-groups g gs) ∙ decode_hex-print_hex (concat g gs) small)

length-sanitize : (s : Text) → length (sanitize s) + hyphens s ≡ length s
unfolding sanitize hyphens
length-sanitize [] = refl
length-sanitize (c ∷ cs) = ground (arith, length-sanitize cs)

length-decode_hex : (s : Text) (k : Key) → decode_hex s ≡ some k → 2 * length k ≡ length s
unfolding decode_hex
length-decode_hex [] k e = let same : [] ≡ k = cc in rw (← same) refl
length-decode_hex (c ∷ []) k e = cc
length-decode_hex (c ∷ d ∷ rest) k e =
    let (hi, x, e1) = bind-some (hex_digit c) _ k e in
    let (lo, y, e2) = bind-some (hex_digit d) _ k e1 in
    let (ks, z, e3) = bind-some (decode_hex rest) _ k e2 in
    let same : (hi * 16 + lo) ∷ ks ≡ k = cc in
    omega (arith, length-decode_hex rest ks z, ap length same)

guarded :
    (b : Bool) (o : Option Key) (k : Key)
    → (if b then none else o) ≡ some k
    → (b ≡ false) × (o ≡ some k)
guarded true o k e = cc
guarded false o k e = (refl, e)

-- A text that parses has at most 36 characters, and all 36 where that is enforced, of which every
-- two that are no hyphens make a byte.
pub length-parse :
    (s : Text) (enforce : Bool) (k : Key)
    → parse s enforce ≡ some k
    → (2 * length k + hyphens s ≡ length s)
      × (length s ≤ 36)
      × (hyphens s ≤ 4)
      × ((enforce && not (length s == 36)) ≡ false)
unfolding parse
length-parse s enforce k e =
    let (whole, e1) = guarded (enforce && not (length s == 36)) _ k e in
    let (short, e2) = guarded (ltb 36 (length s)) _ k e1 in
    let (few, e3) = guarded (ltb 4 (hyphens s)) _ k e2 in
    let (even, e4) = guarded (not (length (sanitize s) % 2 == 0)) _ k e3 in
    (
      omega (arith, length-decode_hex (sanitize s) k e4, length-sanitize s),
      ground arith,
      ground arith,
      whole,
    )
