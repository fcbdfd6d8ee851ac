-- ===== src/Keys/Ints/Order.antt =====
-- The integer keys of index.go are in the order of the integers, and no key starts with another.
use go_maemmidb.Base.{
  ℕ, ◌+◌, ◌-◌, ◌/◌, ◌%◌, ◌^◌, ◌<◌, ◌≡◌, refl, ap, sym, subst, ◌∙◌, Bool, true, false, ◌&&◌, ◌||◌,
  arith, [], ◌∷◌, ◌++◌, some, ltb, ◌==◌, ==_iff, if◌then◌else◌, inl, inr, Bool-cases,
}
use native.Mathlib.Nat.{mod-lt, mod-eq_of_lt}
use go_maemmidb.Keys.{Key, Kind, number}
use go_maemmidb.Keys.Bytes.{
  less_bytes, is_prefix, big_endian, length-big_endian, less_bytes-big_endian, pow256_pos,
  is_prefix-append, is_prefix-eq,
}
use go_maemmidb.Keys.Ints.{
  has_width, encode_uint, encode_int, is_int_type, encode_as, int_value, int_object, int_args,
  indexed,
}

-- `a < b` of two 64-bit patterns in two's complement.
unfoldable pub less_signed : ℕ → ℕ → Bool
less_signed a b =
    if ltb a (2 ^ 63)
    then if ltb b (2 ^ 63) then ltb a b else false
    else if ltb b (2 ^ 63)
    then true
    else ltb a b

-- The pattern of an integer of so many bytes, extended by its sign.
unfoldable pub fits_int : ℕ → ℕ → Bool
fits_int size v = ltb v (256 ^ size / 2) || (ltb v (2 ^ 64) && ltb (2 ^ 64 - 256 ^ size / 2 - 1) v)

pub less_signed-total : (a b : ℕ) → less_signed a b ≡ false → less_signed b a ≡ false → a ≡ b
unfolding less_signed
less_signed-total a b h k = ground arith

less_signed_irrefl : (a : ℕ) → less_signed a a ≡ false
unfolding less_signed
less_signed_irrefl a = ground arith

-- Four widths, by computation.
by_width : (P : ℕ → Type 0) → P 1 → P 2 → P 4 → P 8 → (size : ℕ) → has_width size ≡ true → P size
unfolding has_width
by_width P p1 p2 p4 p8 size e = elim (Bool-cases (size == 1)) [
  | inl s ↦ subst P (sym ((==_iff size 1).0 s)) p1
  | inr n1 ↦ elim (Bool-cases (size == 2)) [
    | inl s ↦ subst P (sym ((==_iff size 2).0 s)) p2
    | inr n2 ↦ elim (Bool-cases (size == 4)) [
      | inl s ↦ subst P (sym ((==_iff size 4).0 s)) p4
      | inr n4 ↦ let s : (size == 8) ≡ true = ground arith in subst P (sym ((==_iff size 8).0 s)) p8
    ]
  ]
]

abbrev Biased : ℕ → Type 0
Biased size =
    (a b : ℕ)
    → fits_int size a ≡ true
    → fits_int size b ≡ true
    → ltb ((a + 256 ^ size / 2) % 256 ^ size) ((b + 256 ^ size / 2) % 256 ^ size) ≡ less_signed a b

biased1 : Biased 1
unfolding fits_int less_signed
biased1 a b ha hb = ground arith

biased2 : Biased 2
unfolding fits_int less_signed
biased2 a b ha hb = ground arith

biased4 : Biased 4
unfolding fits_int less_signed
biased4 a b ha hb = ground arith

biased8 : Biased 8
unfolding fits_int less_signed
biased8 a b ha hb = ground arith

biased : (size : ℕ) → has_width size ≡ true → Biased size
biased = by_width Biased biased1 biased2 biased4 biased8

abbrev shifted : ℕ → ℕ → ℕ
shifted size v = (v + 256 ^ size / 2) % 256 ^ size

encode_int_width :
    (v size : ℕ)
    → has_width size ≡ true
    → encode_int v size ≡ some (big_endian size (shifted size v))
unfolding encode_int
encode_int_width v size e = rw (encode_int, e) refl

encode_uint_width :
    (v size : ℕ)
    → has_width size ≡ true
    → encode_uint v size ≡ some (big_endian size (v % 256 ^ size))
unfolding encode_uint
encode_uint_width v size e = rw (encode_uint, e) refl

mod_twice : (size v : ℕ) → v % 256 ^ size % 256 ^ size ≡ v % 256 ^ size
mod_twice size v = mod-eq_of_lt (mod-lt v (pow256_pos size))

less-shifted :
    (size a b : ℕ)
    → has_width size ≡ true
    → fits_int size a ≡ true
    → fits_int size b ≡ true
    → less_bytes (big_endian size (shifted size a)) (big_endian size (shifted size b))
      ≡ less_signed a b
less-shifted size a b w ha hb =
    less_bytes-big_endian size (shifted size a) (shifted size b)
    ∙ rw (mod_twice size (a + 256 ^ size / 2), mod_twice size (b + 256 ^ size / 2))
        (biased size w a b ha hb)

-- The encodings of two integers of one width do not panic, and their byte order is the order of
-- the integers, negative ones included.
pub less_bytes-encode_int :
    (size a b : ℕ)
    → has_width size ≡ true
    → fits_int size a ≡ true
    → fits_int size b ≡ true
    → (x : Key) × (y : Key) × (encode_int a size ≡ some x)
      × (encode_int b size ≡ some y)
      × (less_bytes x y ≡ less_signed a b)
less_bytes-encode_int size a b w ha hb =
    (_, _, encode_int_width a size w, encode_int_width b size w, less-shifted size a b w ha hb)

-- The encodings of two unsigned integers of one width do not panic, and their byte order is the
-- order of the integers.
pub less_bytes-encode_uint :
    (size a b : ℕ)
    → has_width size ≡ true
    → a < 256 ^ size
    → b < 256 ^ size
    → (x : Key) × (y : Key) × (encode_uint a size ≡ some x)
      × (encode_uint b size ≡ some y)
      × (less_bytes x y ≡ ltb a b)
less_bytes-encode_uint size a b w ha hb = (
  _,
  _,
  encode_uint_width a size w,
  encode_uint_width b size w,
  less_bytes-big_endian size (a % 256 ^ size) (b % 256 ^ size)
      ∙ rw (mod_twice size a, mod_twice size b, mod-eq_of_lt ha, mod-eq_of_lt hb) refl,
)

same_shifted :
    (size a b : ℕ)
    → has_width size ≡ true
    → fits_int size a ≡ true
    → fits_int size b ≡ true
    → big_endian size (shifted size a) ≡ big_endian size (shifted size b)
    → a ≡ b
same_shifted size a b w ha hb same =
    let ab = sym (less-shifted size a b w ha hb) in
    let ba = sym (less-shifted size b a w hb ha) in
    let aa = less-shifted size a a w ha ha ∙ less_signed_irrefl a in
    less_signed-total a b
      (ab ∙ ap (λ k. less_bytes (big_endian size (shifted size a)) k) (sym same) ∙ aa)
      (ba ∙ ap (λ k. less_bytes k (big_endian size (shifted size a))) (sym same) ∙ aa)

-- A search by prefix with the key of an integer finds, of the keys of a field of the same kind
-- with anything behind them, those of the same integer and no others.
pub is_prefix-int_args :
    (int_bytes : ℕ) (k : Kind) (size a b : ℕ) (id : Key)
    → is_int_type int_bytes k ≡ some size
    → has_width size ≡ true
    → fits_int size a ≡ true
    → fits_int size b ≡ true
    → (x : Key) × (y : Key) × (int_args int_bytes (number k a ∷ []) ≡ some (some x))
      × (int_object int_bytes (number k b) ≡ some (some (some y)))
      × (is_prefix x (y ++ id) ≡ (a == b))
unfolding int_args int_object int_value encode_as indexed
is_prefix-int_args int_bytes k size a b id kind w ha hb =
    let x = big_endian size (shifted size a) in
    let y = big_endian size (shifted size b) in
    (
      x,
      y,
      rw (kind, encode_int_width a size w) refl,
      rw (kind, encode_int_width b size w) refl,
      elim (Bool-cases (a == b)) [
        | inl e ↦ rw e (
            subst (λ c. is_prefix x (big_endian size (shifted size c) ++ id) ≡ true)
              ((==_iff a b).0 e) (is_prefix-append x id))
        | inr e ↦ rw e (elim (Bool-cases (is_prefix x (y ++ id))) [
          | inr f ↦ f
          | inl f ↦
              let lengths =
                length-big_endian size (shifted size a)
                ∙ sym (length-big_endian size (shifted size b)) in
              let same = same_shifted size a b w ha hb (is_prefix-eq x y id lengths f) in
              absurd (ground arith)
        ])
      ],
    )
