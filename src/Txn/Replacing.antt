-- ===== src/Txn/Replacing.antt =====
-- The keys that a write moves in one index tree (txn.go, the last loops of Insert).
use go_maemmidb.Base.{
  ◌≡◌, refl, ap, ◌∙◌, Bool, false, ◌&&◌, ◌||◌, arith, List, [], ◌∷◌, none, some, if◌then◌else◌, inl,
  inr, Bool-cases,
}
use go_maemmidb.Txn.{Key, same_key, Engine, Move, delete_stale, insert_all, apply_move}
use go_maemmidb.Txn.Trees.{IsMap, same_key-eq}

unfoldable pub lists : List Key → Key → Bool
lists [] k = false
lists (x ∷ xs) k = same_key x k || lists xs k

module _ {Obj : Type 0} (E : Engine Obj) (laws : IsMap E) where
  get-insert_all :
      (x : E.Work) (ks : List Key) (obj : Obj) (k : Key)
      → E.get (E.tree (insert_all E x ks obj)) k
        ≡ (if lists ks k then some obj else E.get (E.tree x) k)
  unfolding insert_all lists
  get-insert_all x [] obj k = refl
  get-insert_all x (n ∷ ns) obj k =
      get-insert_all (E.insert x n obj).1 ns obj k ∙ rw (laws.get-insert x n obj k) (ground arith)

  get-delete_stale :
      (x : E.Work) (olds news : List Key) (k : Key)
      → lists news k ≡ false
      → E.get (E.tree (delete_stale E x olds news)) k
        ≡ (if lists olds k then none else E.get (E.tree x) k)
  unfolding delete_stale lists
  get-delete_stale x [] news k e = refl
  get-delete_stale x (old ∷ olds) [] k e =
      get-delete_stale (E.delete x old).1 olds [] k e ∙ rw (laws.get-delete x old k) (ground arith)
  get-delete_stale x (old ∷ olds) (new ∷ news) k e =
      let rest : lists news k ≡ false = ground arith in
      let other : same_key new k ≡ false = ground arith in
      elim (Bool-cases (same_key old new)) [
        | inl s ↦
            let differs : same_key old k ≡ false =
              ap (λ o. same_key o k) (same_key-eq old new s) ∙ other in
            rw s (get-delete_stale x olds news k rest ∙ rw differs refl)
        | inr s ↦ rw s (
            get-delete_stale (E.delete x old).1 olds news k rest
            ∙ rw (laws.get-delete x old k) (ground arith))
      ]

  -- After the keys of a write are moved in a tree that is a map, it reads the object at every new
  -- key, nothing at an old key that is not a new one (if the previous version had a value), and
  -- what it read before at any other key, though the code compares old and new keys only position
  -- by position.
  pub get-apply_move :
      (x : E.Work) (move : Move) (obj : Obj) (k : Key)
      → E.get (E.tree (apply_move E x move obj)) k ≡ (
          if lists move.new_keys k
          then some obj
          else if move.ok_old && lists move.old_keys k
          then none
          else E.get (E.tree x) k)
  unfolding apply_move
  get-apply_move x move obj k =
      get-insert_all (if move.ok_old then delete_stale E x move.old_keys move.new_keys else x)
        move.new_keys obj k
      ∙ elim (Bool-cases (lists move.new_keys k)) [
        | inl e ↦ rw e refl
        | inr e ↦ elim (Bool-cases move.ok_old) [
          | inl o ↦ rw (e, o) (get-delete_stale x move.old_keys move.new_keys k e)
          | inr o ↦ rw (e, o) refl
        ]
      ]
