-- ===== src/Names/Order.antt =====
-- The order of names, as schema_compile.go compares them, is total.
use go_maemmidb.Base.{◌≡◌, ◌⊎◌, refl, true, false, arith, [], ◌∷◌, inl, inr}
use go_maemmidb.Keys.{Text}
use go_maemmidb.Keys.Bytes.{less_bytes}
use go_maemmidb.Txn.{same_key}

pub less_bytes_irrefl : (a b : Text) → less_bytes a b ≡ true → same_key a b ≡ false
unfolding less_bytes same_key
less_bytes_irrefl [] [] h = cc
less_bytes_irrefl [] (y ∷ ys) h = refl
less_bytes_irrefl (x ∷ xs) [] h = cc
less_bytes_irrefl (x ∷ xs) (y ∷ ys) h = ground (arith, less_bytes_irrefl xs ys)

pub less_bytes_trans :
    (a b c : Text) → less_bytes a b ≡ true → less_bytes b c ≡ true → less_bytes a c ≡ true
unfolding less_bytes
less_bytes_trans [] [] c h k = cc
less_bytes_trans [] (y ∷ ys) [] h k = cc
less_bytes_trans [] (y ∷ ys) (z ∷ zs) h k = refl
less_bytes_trans (x ∷ xs) [] c h k = cc
less_bytes_trans (x ∷ xs) (y ∷ ys) [] h k = cc
less_bytes_trans (x ∷ xs) (y ∷ ys) (z ∷ zs) h k = ground (arith, less_bytes_trans xs ys zs)

-- If b is not below a, it is a or above.
pub less_bytes_total :
    (a b : Text) → less_bytes b a ≡ false → (same_key a b ≡ true) ⊎ (less_bytes a b ≡ true)
unfolding less_bytes same_key
less_bytes_total [] [] h = inl refl
less_bytes_total [] (y ∷ ys) h = inr refl
less_bytes_total (x ∷ xs) [] h = cc
less_bytes_total (x ∷ xs) (y ∷ ys) h = ground (arith, less_bytes_total xs ys)
