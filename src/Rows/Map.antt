-- ===== src/Rows/Map.antt =====
-- The bookkeeping of bitmap_index.go as a map from primary keys to rows.
use go_maemmidb.Base.{
  ℕ, ◌+◌, ◌^◌, ◌<◌, ◌≡◌, ◌≢◌, refl, ap, sym, ◌∙◌, false, arith, Option, none, some, ◌>>=◌, ◌==◌,
  ==_iff, if◌then◌else◌, inl, inr, Bool-cases, Option-cases, to_nat, bind-some,
}
use go_maemmidb.Txn.{Key, same_key, Engine}
use go_maemmidb.Txn.Trees.{IsMap, same_key-eq}
use go_maemmidb.Bitmap as Bitmap
use go_maemmidb.Bitmap.Height.{contains}
use go_maemmidb.Bitmap.Cardinal.{len_room}
use go_maemmidb.Pvec as Pvec
use go_maemmidb.Pvec.{Vector}
use go_maemmidb.Pvec.Counts.{bit_of}
use go_maemmidb.Pvec.Laws.{IsValid, Writes, set-Writes}
use go_maemmidb.Rows.{RowsTxn, row_id, put_row, apply_row}
use go_maemmidb.Rows.Ids.{id_of, IsConsistent, row_id-Gives}
use go_maemmidb.Rows.Freed.{row_id-Frees}

module _ {Obj : Type 0} (EI : Engine ℕ) (map_laws : IsMap EI) where
  -- The row of a primary key: the abstract view.
  abbrev pub row_of : RowsTxn Obj EI → Key → Option Obj
  row_of r k = id_of EI map_laws r k >>= λ i. Pvec.get Obj r.rows i

  -- The row vector holds a row at exactly the ids in use.
  pub record IsStored (r : RowsTxn Obj EI) : Type 0 where
    pub consistent : IsConsistent EI map_laws r
    pub valid : IsValid Obj r.rows
    pub sizes : Pvec.len Obj r.rows ≡ Bitmap.len r.all
    pub filled : (j : ℕ) → j < 2 ^ 32 → bit_of (Pvec.get Obj r.rows j) ≡ to_nat (contains r.all j)

  -- A write of the vector after the ids have changed.
  stored :
      (r s : RowsTxn Obj EI) (id : ℕ) (obj : Option Obj) (w : Vector Obj)
      → IsStored r
      → IsConsistent EI map_laws s
      → Writes Obj r.rows id obj w
      → Bitmap.len s.all + bit_of (Pvec.get Obj r.rows id) ≡ Bitmap.len r.all + bit_of obj
      → ((j : ℕ)
          → j < 2 ^ 32
          → to_nat (contains s.all j) ≡ (if id == j then bit_of obj else to_nat (contains r.all j)))
      → IsStored (record s { rows = w })
  stored r s id obj w st c wr sizes use_of = record {
    consistent = record {
      all_sound = c.all_sound;
      free_sound = c.free_sound;
      small = c.small;
      all_below = c.all_below;
      free_below = c.free_below;
      parts = c.parts;
      known = c.known;
      apart = c.apart;
    };
    valid = wr.valid;
    sizes = omega (arith, wr.length_moves, sizes, st.sizes);
    filled = λ j p. ap bit_of (wr.reads j p) ∙ elim (Bool-cases (id == j)) [
      | inl e ↦ rw (e) (sym (use_of j p ∙ rw e refl))
      | inr e ↦ rw (e) (st.filled j p ∙ sym (use_of j p ∙ rw e refl))
    ];
  }

  -- The rows of the other keys are where they were.
  other_row :
      (r : RowsTxn Obj EI) (l : Key) (id : ℕ) (obj : Option Obj) (w : Vector Obj)
      → IsConsistent EI map_laws r
      → Writes Obj r.rows id obj w
      → ((i : ℕ) → id_of EI map_laws r l ≡ some i → (id == i) ≡ false)
      → (id_of EI map_laws r l >>= λ i. Pvec.get Obj w i) ≡ row_of r l
  other_row r l id obj w c wr away = elim (Option-cases (id_of EI map_laws r l)) [
    | inl e ↦ rw e refl
    | inr (i, e) ↦
        rw e (wr.reads i (omega (arith, (c.known l i e).0, c.small)) ∙ rw (away i e) refl)
  ]

  mapped_new :
      (o : Obj) (r : RowsTxn Obj EI) (k l : Key)
      → IsStored r
      → r.next + 1 < 2 ^ 32
      → (id : ℕ) × (s : RowsTxn Obj EI) × (apply_row Obj EI (some o) none k r ≡ some (id, s))
        × IsStored s
        × (row_of s l ≡ (if same_key k l then some o else row_of r l))
  unfolding apply_row put_row
  mapped_new o r k l st more =
      let c = st.consistent in
      let (id, s, run, g) = row_id-Gives EI map_laws o r k c more in
      let room = len_room r.all r.next c.all_sound more c.all_below in
      let (less, on) = g.consistent.known k id g.given in
      let small : id < 2 ^ 32 = omega (arith, less, g.consistent.small) in
      let w = Pvec.set Obj r.rows id (some o) in
      let wr = set-Writes Obj r.rows id (some o) st.valid (omega (arith, room, st.sizes)) small in
      let was = st.filled id small ∙ ap to_nat g.unused in
      let same : Pvec.set Obj s.rows id (some o) ≡ w =
        ap (λ v. Pvec.set Obj v id (some o)) g.same_rows in
      (
        id,
        record s { rows = w },
        rw (run, same) refl,
        stored r s id (some o) w st g.consistent wr (omega (arith, g.more, was)) (λ j p.
            ap to_nat (g.in_use j p)
            ∙ elim (Bool-cases (id == j)) [ inl e ↦ rw e refl | inr e ↦ rw e refl ]),
        elim (Bool-cases (same_key k l)) [
          | inl e ↦
              rw (e, ← same_key-eq k l e, g.given)
                (wr.reads id small ∙ rw ((==_iff id id).1 refl) refl)
          | inr e ↦
              rw (e, g.others l e)
                (other_row r l id (some o) w c wr (λ i at_i. elim (Bool-cases (id == i)) [
                  | inr n ↦ n
                  | inl y ↦
                      cc (ap (contains r.all) ((==_iff id i).0 y), g.unused, (c.known l i at_i).1)
                ]))
        ],
      )

  -- The row of a key that has an id.
  has_id :
      (r : RowsTxn Obj EI) (k : Key) (o : Obj)
      → row_of r k ≡ some o
      → (id : ℕ) × (id_of EI map_laws r k ≡ some id)
  has_id r k o e =
      let (id, found, rest) = bind-some (id_of EI map_laws r k) (λ i. Pvec.get Obj r.rows i) o e in
      (id, found)

  -- Ids of two keys differ.
  other_id :
      (r : RowsTxn Obj EI) (k l : Key) (id i : ℕ)
      → IsConsistent EI map_laws r
      → id_of EI map_laws r k ≡ some id
      → same_key k l ≡ false
      → id_of EI map_laws r l ≡ some i
      → (id == i) ≡ false
  other_id r k l id i c found off at_i = elim (Bool-cases (id == i)) [
    | inr n ↦ n
    | inl y ↦ cc (c.apart k l i (found ∙ ap some ((==_iff id i).0 y)) at_i, off)
  ]

  mapped_update :
      (o was : Obj) (r : RowsTxn Obj EI) (k l : Key) (id : ℕ)
      → IsStored r
      → r.next + 1 < 2 ^ 32
      → id_of EI map_laws r k ≡ some id
      → (s : RowsTxn Obj EI) × (apply_row Obj EI (some o) (some was) k r ≡ some (id, s))
        × IsStored s
        × (row_of s l ≡ (if same_key k l then some o else row_of r l))
  unfolding apply_row row_id put_row
  mapped_update o was r k l id st more found =
      let c = st.consistent in
      let room = len_room r.all r.next c.all_sound more c.all_below in
      let (less, on) = c.known k id found in
      let small : id < 2 ^ 32 = omega (arith, less, c.small) in
      let w = Pvec.set Obj r.rows id (some o) in
      let wr = set-Writes Obj r.rows id (some o) st.valid (omega (arith, room, st.sizes)) small in
      let held = st.filled id small ∙ ap to_nat on in
      (
        record r { rows = w },
        rw found refl,
        stored r r id (some o) w st c wr (omega (arith, held)) (λ j p. elim (Bool-cases (id == j)) [
          | inl e ↦ rw e (ap to_nat (ap (contains r.all) (sym ((==_iff id j).0 e)) ∙ on))
          | inr e ↦ rw e refl
        ]),
        elim (Bool-cases (same_key k l)) [
          | inl e ↦
              rw (e, ← same_key-eq k l e, found)
                (wr.reads id small ∙ rw ((==_iff id id).1 refl) refl)
          | inr e ↦
              rw e (other_row r l id (some o) w c wr (λ i at_i. other_id r k l id i c found e at_i))
        ],
      )

  mapped_delete :
      (was : Obj) (r : RowsTxn Obj EI) (k l : Key) (id : ℕ)
      → IsStored r
      → r.next + 1 < 2 ^ 32
      → id_of EI map_laws r k ≡ some id
      → (s : RowsTxn Obj EI) × (apply_row Obj EI none (some was) k r ≡ some (id, s))
        × IsStored s
        × (row_of s l ≡ (if same_key k l then none else row_of r l))
  unfolding apply_row put_row
  mapped_delete was r k l id st more found =
      let c = st.consistent in
      let room = len_room r.all r.next c.all_sound more c.all_below in
      let (less, on) = c.known k id found in
      let small : id < 2 ^ 32 = omega (arith, less, c.small) in
      let (s, run, f) = row_id-Frees EI map_laws was r k id c found in
      let w = Pvec.set Obj r.rows id none in
      let wr = set-Writes Obj r.rows id none st.valid (omega (arith, room, st.sizes)) small in
      let held = st.filled id small ∙ ap to_nat on in
      let same : Pvec.set Obj s.rows id none ≡ w = ap (λ v. Pvec.set Obj v id none) f.same_rows in
      (
        record s { rows = w },
        rw (run, same) refl,
        stored r s id none w st f.consistent wr (omega (arith, held, f.fewer)) (λ j p.
            ap to_nat (f.in_use j p) ∙ elim (Bool-cases (id == j)) [
              | inl e ↦ rw e (ground arith)
              | inr e ↦ rw e (ground arith)
            ]),
        elim (Bool-cases (same_key k l)) [
          | inl e ↦ rw (e, ← same_key-eq k l e, f.taken) refl
          | inr e ↦
              rw (e, f.others l e)
                (other_row r l id none w c wr (λ i at_i. other_id r k l id i c found e at_i))
        ],
      )

  -- Over an engine whose trees are maps, in stored bookkeeping that has not used up the ids: a write
  -- of obj over existing, of which not both are nil and existing is the key's row, does not
  -- panic, keeps the bookkeeping stored, and changes the map from primary keys to rows at the key
  -- and nowhere else.
  pub apply_row-IsStored :
      (obj existing : Option Obj) (r : RowsTxn Obj EI) (k l : Key)
      → IsStored r
      → r.next + 1 < 2 ^ 32
      → row_of r k ≡ existing
      → (obj ≡ none → existing ≢ none)
      → (id : ℕ) × (s : RowsTxn Obj EI) × (apply_row Obj EI obj existing k r ≡ some (id, s))
        × IsStored s
        × (row_of s l ≡ (if same_key k l then obj else row_of r l))
  apply_row-IsStored none none r k l st more now some_write = absurd (some_write refl refl)
  apply_row-IsStored (some o) none r k l st more now some_write = mapped_new o r k l st more
  apply_row-IsStored (some o) (some was) r k l st more now some_write =
      let (id, found) = has_id r k was now in
      let (s, run, st', e) = mapped_update o was r k l id st more found in (id, s, run, st', e)
  apply_row-IsStored none (some was) r k l st more now some_write =
      let (id, found) = has_id r k was now in
      let (s, run, st', e) = mapped_delete was r k l id st more found in (id, s, run, st', e)
