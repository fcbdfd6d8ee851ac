-- ===== src/Base/Predicates.antt =====
-- A predicate of every member of a list, and what the list operations do to it.
use go_maemmidb.Base.Lists.{get_elem?, set}
use go_maemmidb.Base.Words.{insert_at, remove_at}
use Prim.Native.Nat.{ℕ, zero, suc}
use mathlib.Core.Path.{◌≡◌, subst}
use mathlib.Core.List.{List, [], ◌∷◌}
use mathlib.Core.Option.{some}

module _ {ℓ κ} {A : Type ℓ} where
  abbrev pub Every : (A → Type κ) → List A → Type κ
  Every P [] = Unit
  Every P (x ∷ xs) = P x × Every P xs

  pub Every-get_elem? :
      (P : A → Type κ) (xs : List A) (i : ℕ) {a : A} → Every P xs → get_elem? xs i ≡ some a → P a
  Every-get_elem? P [] i all e = cc
  Every-get_elem? P (x ∷ xs) zero {a} all e = let same : x ≡ a = cc in subst P same all.0
  Every-get_elem? P (x ∷ xs) (suc i) all e = Every-get_elem? P xs i all.1 e

  pub Every-set :
      (P : A → Type κ) (xs : List A) (i : ℕ) (v : A) → Every P xs → P v → Every P (set xs i v)
  Every-set P [] i v all p = tt
  Every-set P (x ∷ xs) zero v all p = (p, all.1)
  Every-set P (x ∷ xs) (suc i) v all p = (all.0, Every-set P xs i v all.1 p)

  pub Every-insert_at :
      (P : A → Type κ) (xs : List A) (i : ℕ) (v : A) → Every P xs → P v → Every P (insert_at xs i v)
  unfolding insert_at
  Every-insert_at P [] zero v all p = (p, tt)
  Every-insert_at P (x ∷ xs) zero v all p = (p, all)
  Every-insert_at P [] (suc i) v all p = (p, tt)
  Every-insert_at P (x ∷ xs) (suc i) v all p = (all.0, Every-insert_at P xs i v all.1 p)

  pub Every-remove_at :
      (P : A → Type κ) (xs : List A) (i : ℕ) → Every P xs → Every P (remove_at xs i)
  unfolding remove_at
  Every-remove_at P [] i all = tt
  Every-remove_at P (x ∷ xs) zero all = all.1
  Every-remove_at P (x ∷ xs) (suc i) all = (all.0, Every-remove_at P xs i all.1)
