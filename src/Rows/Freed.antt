-- ===== src/Rows/Freed.antt =====
-- The row id that applyBitmaps of bitmap_index.go takes back from a deleted row.
use go_maemmidb.Base.{
  not, ◌&&◌, ◌+◌, to_nat, ℕ, ◌^◌, ◌<◌, ◌≡◌, refl, ap, sym, ◌∙◌, Bool, true, false, arith, none,
  some, ◌==◌, ==_iff, if◌then◌else◌, inl, inr, Bool-cases,
}
use go_maemmidb.Txn.{Key, same_key, Engine}
use go_maemmidb.Txn.Trees.{IsMap, same_key_refl}
use go_maemmidb.Bitmap.{len, Bitmap}
use go_maemmidb.Bitmap.Height.{contains}
use go_maemmidb.Bitmap.Removing.{Clears, clear-Clears}
use go_maemmidb.Bitmap.Cardinal.{Sets, set-Sets, clear-IsSound, missing_room}
use go_maemmidb.Rows.{RowsTxn, free_id, row_id}
use go_maemmidb.Rows.Ids.{id_of, IsConsistent}

module _ {Obj : Type 0} (EI : Engine ℕ) (map_laws : IsMap EI) where
  -- A key that has an id after another is deleted had it before.
  read_kept :
      (r : RowsTxn Obj EI) (k l : Key) (i : ℕ)
      → EI.get (EI.tree (EI.delete r.ids k).1) l ≡ some i
      → (same_key k l ≡ false) × (id_of EI map_laws r l ≡ some i)
  read_kept r k l i e = elim (Bool-cases (same_key k l)) [
    | inl s ↦
        let gone = ap (λ (b : Bool). if b then none else EI.get (EI.tree r.ids) l) s in
        cc (sym gone ∙ sym (map_laws.get-delete r.ids k l) ∙ e)
    | inr s ↦
        let there = ap (λ (b : Bool). if b then none else EI.get (EI.tree r.ids) l) s in
        (s, sym there ∙ sym (map_laws.get-delete r.ids k l) ∙ e)
  ]

  freed :
      (r : RowsTxn Obj EI) (k : Key) (id : ℕ) (a f : Bitmap)
      → IsConsistent EI map_laws r
      → id_of EI map_laws r k ≡ some id
      → Clears r.all id a
      → Sets r.free id f
      → IsConsistent EI map_laws (record r { ids = (EI.delete r.ids k).1; all = a; free = f })
  freed r k id a f c e ca cf =
      let (less, on) = c.known k id e in
      record {
        all_sound = clear-IsSound r.all id a c.all_sound ca;
        free_sound = cf.sound;
        small = c.small;
        all_below = λ j p q. ca.ids j p ∙ rw (c.all_below j p q) refl;
        free_below = λ j p q.
            cf.ids j p
            ∙ (let off : (id == j) ≡ false = ground (arith, less, q) in
                rw (off, c.free_below j p q) refl);
        parts = λ j q.
            let small = c.small in
            let b : j < 2 ^ 32 = omega arith in
            cf.ids j b ∙ rw (ca.ids j b, c.parts j q) (ground arith);
        known = λ l i el.
            let (other, was) = read_kept r k l i el in
            let (p, held) = c.known l i was in
            let differs : (id == i) ≡ false = elim (Bool-cases (id == i)) [
              | inr n ↦ n
              | inl s ↦ cc (c.apart k l i (e ∙ ap some ((==_iff id i).0 s)) was, other)
            ] in
            (p, ca.ids i (omega (arith, p, c.small)) ∙ rw (held, differs) refl);
        apart = λ x y i ex ey. c.apart x y i (read_kept r k x i ex).1 (read_kept r k y i ey).1;
      }

  -- What applyBitmaps does with the ids for a row that is deleted.
  pub record Frees (r : RowsTxn Obj EI) (k : Key) (id : ℕ) (s : RowsTxn Obj EI) : Type 0 where
    pub consistent : IsConsistent EI map_laws s
    pub same_rows : s.rows ≡ r.rows
    pub in_use : (j : ℕ) → j < 2 ^ 32 → contains s.all j ≡ (contains r.all j && not (id == j))
    pub fewer : len s.all + 1 ≡ len r.all
    pub free_now : contains s.free id ≡ true
    pub taken : id_of EI map_laws s k ≡ none
    pub others : (l : Key) → same_key k l ≡ false → id_of EI map_laws s l ≡ id_of EI map_laws r l

  pub row_id-Frees :
      (existing : Obj) (r : RowsTxn Obj EI) (k : Key) (id : ℕ)
      → IsConsistent EI map_laws r
      → id_of EI map_laws r k ≡ some id
      → (s : RowsTxn Obj EI) × (row_id Obj EI none (some existing) k r ≡ some (id, s))
        × Frees r k id s
  unfolding row_id free_id
  row_id-Frees existing r k id c e =
      let (less, on) = c.known k id e in
      let b : id < 2 ^ 32 = omega (arith, c.small, less) in
      let off : contains r.free id ≡ false = c.parts id less ∙ rw on refl in
      let room = missing_room r.free r.next id c.free_sound c.small c.free_below less off in
      let (a, ca) = clear-Clears r.all id c.all_sound.shaped c.all_sound.all c.all_sound.room b in
      let (f, cf) = set-Sets r.free id c.free_sound b room in
      (
        _,
        rw (e, ca.returns, cf.returns) refl,
        record {
          consistent = freed r k id a f c e ca cf;
          same_rows = refl;
          in_use = ca.ids;
          fewer = ap (λ t. len a + to_nat t) (sym on) ∙ ca.fewer;
          free_now = cf.ids id b ∙ rw ((==_iff id id).1 refl) refl;
          taken =
              map_laws.get-delete r.ids k k
              ∙ ap (λ (b : Bool). if b then none else EI.get (EI.tree r.ids) k) (same_key_refl k);
          others = λ l other.
              map_laws.get-delete r.ids k l
              ∙ ap (λ (b : Bool). if b then none else EI.get (EI.tree r.ids) l) other;
        },
      )

  -- A row that is deleted, over an engine whose trees are maps and in consistent bookkeeping: the code does not panic, takes the row's id
  -- from its key and frees it, leaves the other keys their ids, and keeps the bookkeeping
  -- consistent.
  pub free_id-IsConsistent :
      (existing : Obj) (r : RowsTxn Obj EI) (k l : Key) (id : ℕ)
      → IsConsistent EI map_laws r
      → id_of EI map_laws r k ≡ some id
      → same_key k l ≡ false
      → (s : RowsTxn Obj EI) × (row_id Obj EI none (some existing) k r ≡ some (id, s))
        × IsConsistent EI map_laws s
        × (contains s.free id ≡ true)
        × (id_of EI map_laws s k ≡ none)
        × (id_of EI map_laws s l ≡ id_of EI map_laws r l)
  free_id-IsConsistent existing r k l id c e other =
      let (s, run, f) = row_id-Frees existing r k id c e in
      (s, run, f.consistent, f.free_now, f.taken, f.others l other)
