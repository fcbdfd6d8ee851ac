-- ===== src/Keys/Texts/Lookup.antt =====
-- Searches by prefix with the keys of string indexes of index.go.
use go_maemmidb.Base.{
  ℕ, ◌-◌, ◌≡◌, refl, ap, ◌∙◌, Bool, true, false, arith, [], ◌∷◌, ◌++◌, some, ◌==◌, if◌then◌else◌,
  length, take, length-append,
}
use go_maemmidb.Keys.{Text, Key, Value, text}
use go_maemmidb.Keys.Bytes.{is_prefix}
use go_maemmidb.Strings.{is_empty_text, cased}
use go_maemmidb.Keys.Texts.{terminated, text_object, string_object, string_args, string_prefix_args}
use go_maemmidb.Txn.{same_key}

-- A string has no null character.
unfoldable pub is_clean : Text → Bool
is_clean [] = true
is_clean (x ∷ xs) = let rest = is_clean xs in if x == 0 then false else rest

zero_prefix :
    (s t r : Text)
    → is_clean s ≡ true
    → is_clean t ≡ true
    → is_prefix (s ++ 0 ∷ []) ((t ++ 0 ∷ []) ++ r) ≡ same_key s t
unfolding is_clean is_prefix same_key
zero_prefix [] [] r hs ht = refl
zero_prefix [] (y ∷ ys) r hs ht = ground arith
zero_prefix (x ∷ xs) [] r hs ht = ground arith
zero_prefix (x ∷ xs) (y ∷ ys) r hs ht =
    let hs' : is_clean xs ≡ true = ground arith in
    let ht' : is_clean ys ≡ true = ground arith in rw (zero_prefix xs ys r hs' ht') refl

open_prefix : (s t r : Text) → is_clean s ≡ true → is_prefix s ((t ++ 0 ∷ []) ++ r) ≡ is_prefix s t
unfolding is_clean is_prefix
open_prefix [] t r hs = refl
open_prefix (x ∷ xs) [] r hs = ground arith
open_prefix (x ∷ xs) (y ∷ ys) r hs =
    let hs' : is_clean xs ≡ true = ground arith in rw (open_prefix xs ys r hs') refl

take_all : (s : Text) (x : ℕ) → take (length s) (s ++ x ∷ []) ≡ s
take_all [] x = refl
take_all (y ∷ ys) x = ap (λ zs. y ∷ zs) (take_all ys x)

less_one : (s : Text) (x : ℕ) → length (s ++ x ∷ []) - 1 ≡ length s
less_one s x = omega (arith, length-append s (x ∷ []))

module _ (lower : Text → Text) (lowercase : Bool) (described : Value → Text) where
  -- A search by prefix with the key of a string finds, of the fields that are not empty and with
  -- anything behind their keys, those that have the string, up to the case if asked for, given
  -- that neither has a null character.
  pub is_prefix-string_args :
      (s t : Text) (id : Key)
      → is_empty_text t ≡ false
      → is_clean (cased lower lowercase s) ≡ true
      → is_clean (cased lower lowercase t) ≡ true
      → (x : Key) × (y : Key) × (string_args lower lowercase (text s ∷ []) ≡ some x)
        × (string_object lower lowercase described (text t) ≡ some (some y))
        × (is_prefix x (y ++ id) ≡ same_key (cased lower lowercase s) (cased lower lowercase t))
  unfolding string_args string_object text_object terminated
  is_prefix-string_args s t id full hs ht = (
    _,
    _,
    refl,
    rw full refl,
    zero_prefix (cased lower lowercase s) (cased lower lowercase t) id hs ht,
  )

  -- A prefix query finds, of the fields that are not empty and with anything behind their keys,
  -- those that start with the string, up to the case if asked for, given that it has no null
  -- character.
  pub is_prefix-string_prefix_args :
      (s t : Text) (id : Key)
      → is_empty_text t ≡ false
      → is_clean (cased lower lowercase s) ≡ true
      → (x : Key) × (y : Key) × (string_prefix_args lower lowercase (text s ∷ []) ≡ some x)
        × (string_object lower lowercase described (text t) ≡ some (some y))
        × (is_prefix x (y ++ id) ≡ is_prefix (cased lower lowercase s) (cased lower lowercase t))
  unfolding string_prefix_args string_args string_object text_object terminated
  is_prefix-string_prefix_args s t id full hs =
      let low = cased lower lowercase in
      (
        low s,
        _,
        ap some (ap (λ n. take n (low s ++ 0 ∷ [])) (less_one (low s) 0) ∙ take_all (low s) 0),
        rw full refl,
        open_prefix (low s) (low t) id hs,
      )
