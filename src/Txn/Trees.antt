-- ===== src/Txn/Trees.antt =====
-- What txn.go relies on of the radix tree engine: a tree is a map from keys to objects.
use go_maemmidb.Base.{
  ◌≡◌, refl, true, [], ◌∷◌, none, some, arith, ◌==◌, ==_iff, if◌then◌else◌, inl, inr, Bool-cases,
}
use mathlib.Core.Path.{ap₂}
use go_maemmidb.Txn.{Key, same_key, Engine}

pub record IsMap {Obj : Type 0} (E : Engine Obj) : Type 0 where
  pub get-begin : (t : E.Tree) (k : Key) → E.get (E.tree (E.begin t)) k ≡ E.get t k
  pub get-commit : (x : E.Work) (k : Key) → E.get (E.commit x) k ≡ E.get (E.tree x) k
  pub insert_old : (x : E.Work) (k : Key) (v : Obj) → (E.insert x k v).0 ≡ E.get (E.tree x) k
  pub get-insert :
      (x : E.Work) (k : Key) (v : Obj) (j : Key)
      → E.get (E.tree (E.insert x k v).1) j ≡ (if same_key k j then some v else E.get (E.tree x) j)
  pub delete_old : (x : E.Work) (k : Key) → (E.delete x k).0 ≡ E.get (E.tree x) k
  pub get-delete :
      (x : E.Work) (k : Key) (j : Key)
      → E.get (E.tree (E.delete x k).1) j ≡ (if same_key k j then none else E.get (E.tree x) j)

-- bytes.Equal decides equality.
pub same_key-eq : (a b : Key) → same_key a b ≡ true → a ≡ b
unfolding same_key
same_key-eq [] [] e = refl
same_key-eq [] (y ∷ ys) e = cc
same_key-eq (x ∷ xs) [] e = cc
same_key-eq (x ∷ xs) (y ∷ ys) e = elim (Bool-cases (x == y)) [
  | inl s ↦
      ap₂ ◌∷◌ ((==_iff x y).0 s)
        (same_key-eq xs ys (let both : same_key xs ys ≡ true = ground arith in both))
  | inr s ↦ cc
]

pub same_key_refl : (a : Key) → same_key a a ≡ true
unfolding same_key
same_key_refl [] = refl
same_key_refl (x ∷ xs) = rw ((==_iff x x).1 refl) (same_key_refl xs)
