-- ===== src/Rows/Ids.antt =====
-- The row ids that applyBitmaps of bitmap_index.go gives out and takes back.
use go_maemmidb.Base.{
  ◌||◌, ℕ, ◌+◌, ◌%◌, ◌^◌, ◌<◌, ◌≡◌, ◌⊎◌, refl, ap, sym, subst, ◌∙◌, Bool, true, false, not, arith,
  Option, none, some, ◌==◌, ==_iff, ltb, ltb→lt, if◌then◌else◌, inl, inr, Bool-cases,
}
use native.Mathlib.Nat.{mod-eq_of_lt}
use go_maemmidb.Txn.{Key, same_key, Engine}
use go_maemmidb.Txn.Trees.{IsMap, same_key-eq, same_key_refl}
use go_maemmidb.Bitmap.{len, Bitmap, min, uint32_mod}
use go_maemmidb.Bitmap.Height.{contains}
use go_maemmidb.Bitmap.Least.{IsLeast, min-IsLeast}
use go_maemmidb.Bitmap.Removing.{Clears, clear-Clears}
use go_maemmidb.Bitmap.Cardinal.{
  IsSound, IsBelow, Sets, set-Sets, clear-IsSound, missing_room, low_lt,
}
use go_maemmidb.Rows.{RowsTxn, fresh_id, take_id, row_id}

module _ {Obj : Type 0} (EI : Engine ℕ) (map_laws : IsMap EI) where
  -- The row id of a primary key.
  abbrev pub id_of : RowsTxn Obj EI → Key → Option ℕ
  id_of r k = EI.get (EI.tree r.ids) k

  -- Every id below next is in use or free, and no other; a row has an id that is in use, and no
  -- two rows have the same.
  pub record IsConsistent (r : RowsTxn Obj EI) : Type 0 where
    pub all_sound : IsSound r.all
    pub free_sound : IsSound r.free
    pub small : r.next < 2 ^ 32
    pub all_below : IsBelow r.all r.next
    pub free_below : IsBelow r.free r.next
    pub parts : (j : ℕ) → j < r.next → contains r.free j ≡ not (contains r.all j)
    pub known : (k : Key) (i : ℕ) → id_of r k ≡ some i → (i < r.next) × (contains r.all i ≡ true)
    pub apart : (k l : Key) (i : ℕ) → id_of r k ≡ some i → id_of r l ≡ some i → same_key k l ≡ true

  -- The reads of the ids after a new row has got one.
  read_taken :
      (r : RowsTxn Obj EI) (k l : Key) (id i : ℕ)
      → EI.get (EI.tree (EI.insert r.ids k id).1) l ≡ some i
      → ((same_key k l ≡ true) × (id ≡ i)) ⊎ ((same_key k l ≡ false) × (id_of r l ≡ some i))
  read_taken r k l id i e = elim (Bool-cases (same_key k l)) [
    | inl s ↦
        let here = ap (λ (b : Bool). if b then some id else id_of r l) s in
        inl (s, cc (sym here ∙ sym (map_laws.get-insert r.ids k id l) ∙ e))
    | inr s ↦
        let there = ap (λ (b : Bool). if b then some id else id_of r l) s in
        inr (s, sym there ∙ sym (map_laws.get-insert r.ids k id l) ∙ e)
  ]

  taken-apart :
      (r : RowsTxn Obj EI) (k a b : Key) (id i : ℕ)
      → IsConsistent r
      → contains r.all id ≡ false
      → EI.get (EI.tree (EI.insert r.ids k id).1) a ≡ some i
      → EI.get (EI.tree (EI.insert r.ids k id).1) b ≡ some i
      → same_key a b ≡ true
  taken-apart r k a b id i c new ea eb = elim (read_taken r k a id i ea) [
    | inl (sa, ia) ↦ elim (read_taken r k b id i eb) [
      | inl (sb, ib) ↦ subst (λ x. same_key x b ≡ true) (same_key-eq k a sa) sb
      | inr (sb, ib) ↦ cc (ap (contains r.all) ia, (c.known b i ib).1, new)
    ]
    | inr (sa, ia) ↦ elim (read_taken r k b id i eb) [
      | inl (sb, ib) ↦ cc (ap (contains r.all) ib, (c.known a i ia).1, new)
      | inr (sb, ib) ↦ c.apart a b i ia ib
    ]
  ]

  -- What applyBitmaps does with the ids for a new row.
  pub record Gives (r : RowsTxn Obj EI) (k : Key) (id : ℕ) (s : RowsTxn Obj EI) : Type 0 where
    pub consistent : IsConsistent s
    pub unused : contains r.all id ≡ false
    pub same_rows : s.rows ≡ r.rows
    pub in_use : (j : ℕ) → j < 2 ^ 32 → contains s.all j ≡ (id == j || contains r.all j)
    pub more : len s.all ≡ len r.all + 1
    pub given : id_of s k ≡ some id
    pub others : (l : Key) → same_key k l ≡ false → id_of s l ≡ id_of r l

  read_given :
      (r : RowsTxn Obj EI) (k : Key) (id : ℕ)
      → EI.get (EI.tree (EI.insert r.ids k id).1) k ≡ some id
  read_given r k id =
      map_laws.get-insert r.ids k id k
      ∙ ap (λ (b : Bool). if b then some id else id_of r k) (same_key_refl k)

  read_others :
      (r : RowsTxn Obj EI) (k l : Key) (id : ℕ)
      → same_key k l ≡ false
      → EI.get (EI.tree (EI.insert r.ids k id).1) l ≡ id_of r l
  read_others r k l id s =
      map_laws.get-insert r.ids k id l ∙ ap (λ (b : Bool). if b then some id else id_of r l) s

  -- The id is one that was free.
  reuse :
      (r : RowsTxn Obj EI) (k : Key) (id : ℕ) (f a : Bitmap)
      → IsConsistent r
      → id < r.next
      → contains r.all id ≡ false
      → Clears r.free id f
      → Sets r.all id a
      → Gives r k id (record r { ids = (EI.insert r.ids k id).1; all = a; free = f })
  reuse r k id f a c less new cf ca = record {
    consistent = record {
      all_sound = ca.sound;
      free_sound = clear-IsSound r.free id f c.free_sound cf;
      small = c.small;
      all_below = λ j p q.
          ca.ids j p
          ∙ (let off : (id == j) ≡ false = ground arith in rw (off, c.all_below j p q) refl);
      free_below = λ j p q. cf.ids j p ∙ rw (c.free_below j p q) refl;
      parts = λ j q.
          let small = c.small in
          let b : j < 2 ^ 32 = omega arith in
          cf.ids j b ∙ rw (ca.ids j b, c.parts j q) (ground arith);
      known = λ l i e. elim (read_taken r k l id i e) [
        | inl (s, same) ↦
            let b : id < 2 ^ 32 = omega (arith, c.small) in
            let here : contains a id ≡ true = ca.ids id b ∙ rw ((==_iff id id).1 refl) refl in
            (omega (arith, same), ap (contains a) (sym same) ∙ here)
        | inr (s, was) ↦
            let (p, on) = c.known l i was in
            (p, ca.ids i (omega (arith, p, c.small)) ∙ rw on (ground arith))
      ];
      apart = λ x y i ex ey. taken-apart r k x y id i c new ex ey;
    };
    unused = new;
    same_rows = refl;
    in_use = ca.ids;
    more = ca.more ∙ rw new refl;
    given = read_given r k id;
    others = λ l s. read_others r k l id s;
  }

  -- The id is the next one.
  extend :
      (r : RowsTxn Obj EI) (k : Key) (a : Bitmap)
      → IsConsistent r
      → r.next + 1 < 2 ^ 32
      → Sets r.all r.next a
      → Gives r k r.next
          (record r { ids = (EI.insert r.ids k r.next).1; all = a; next = r.next + 1 })
  extend r k a c more ca =
      let new = c.all_below r.next c.small (omega arith) in
      record {
        consistent = record {
          all_sound = ca.sound;
          free_sound = c.free_sound;
          small = more;
          all_below = λ j p q.
              ca.ids j p
              ∙ (let off : (r.next == j) ≡ false = ground arith in
                  rw (off, c.all_below j p (omega arith)) refl);
          free_below = λ j p q. c.free_below j p (omega arith);
          parts = λ j q. elim (Bool-cases (r.next == j)) [
            | inl here ↦
                let last : r.next ≡ j = (==_iff r.next j).0 here in
                let on : contains a j ≡ true = ca.ids j (omega (arith, more)) ∙ rw here refl in
                c.free_below j (omega (arith, more)) (omega (arith, last)) ∙ sym (ap not on)
            | inr away ↦
                let same : contains a j ≡ contains r.all j =
                  ca.ids j (omega (arith, more)) ∙ rw away refl in
                c.parts j (ground (arith, q)) ∙ sym (ap not same)
          ];
          known = λ l i e. elim (read_taken r k l r.next i e) [
            | inl (s, same) ↦
                let here : contains a r.next ≡ true =
                  ca.ids r.next c.small ∙ rw ((==_iff r.next r.next).1 refl) refl in
                (omega (arith, same), ap (contains a) (sym same) ∙ here)
            | inr (s, was) ↦
                let (p, on) = c.known l i was in
                (omega (arith, p), ca.ids i (omega (arith, p, c.small)) ∙ rw on (ground arith))
          ];
          apart = λ x y i ex ey. taken-apart r k x y r.next i c new ex ey;
        };
        unused = new;
        same_rows = refl;
        in_use = ca.ids;
        more = ca.more ∙ rw new refl;
        given = read_given r k r.next;
        others = λ l s. read_others r k l r.next s;
      }

  -- What Min finds in the free ids decides which id it is.
  given_by :
      (obj : Obj) (r : RowsTxn Obj EI) (k : Key) (o : Option ℕ)
      → IsConsistent r
      → r.next + 1 < 2 ^ 32
      → min r.free ≡ some o
      → IsLeast r.free o
      → (id : ℕ) × (s : RowsTxn Obj EI) × (row_id Obj EI (some obj) none k r ≡ some (id, s))
        × Gives r k id s
  unfolding row_id fresh_id take_id
  given_by obj r k (some id) c more e (fits, on, least) =
      let b = low_lt r.free id c.free_sound fits in
      let less : id < r.next = elim (Bool-cases (ltb id r.next)) [
        | inl y ↦ ltb→lt id r.next y
        | inr n ↦ cc (c.free_below id b (ground arith), on)
      ] in
      let new : contains r.all id ≡ false = let p = c.parts id less in ground (arith, p, on) in
      let room = missing_room r.all r.next id c.all_sound c.small c.all_below less new in
      let (f, cf) =
        clear-Clears r.free id c.free_sound.shaped c.free_sound.all c.free_sound.room b in
      let (a, ca) = set-Sets r.all id c.all_sound b room in
      (id, _, rw (e, cf.returns, ca.returns) refl, reuse r k id f a c less new cf ca)
  given_by obj r k none c more e nothing =
      let new = c.all_below r.next c.small (omega arith) in
      let below : IsBelow r.all (r.next + 1) = λ j p q. c.all_below j p (omega arith) in
      let room = missing_room r.all (r.next + 1) r.next c.all_sound more below (omega arith) new in
      let (a, ca) = set-Sets r.all r.next c.all_sound c.small room in
      let step : (r.next + 1) % uint32_mod ≡ r.next + 1 = mod-eq_of_lt more in
      let nonzero : (r.next + 1 == 0) ≡ false = ground arith in
      (r.next, _, rw (e, step, nonzero, ca.returns) refl, extend r k a c more ca)

  pub row_id-Gives :
      (obj : Obj) (r : RowsTxn Obj EI) (k : Key)
      → IsConsistent r
      → r.next + 1 < 2 ^ 32
      → (id : ℕ) × (s : RowsTxn Obj EI) × (row_id Obj EI (some obj) none k r ≡ some (id, s))
        × Gives r k id s
  row_id-Gives obj r k c more =
      let (o, e, least) = min-IsLeast r.free c.free_sound.shaped c.free_sound.all in
      given_by obj r k o c more e least

  -- A new row, over an engine whose trees are maps and in consistent bookkeeping that has not used
  -- up the ids: the code does not panic, gives the row an id that no row has, changes the id of no other key, and keeps the bookkeeping
  -- consistent.
  pub row_id-IsConsistent :
      (obj : Obj) (r : RowsTxn Obj EI) (k l : Key)
      → IsConsistent r
      → r.next + 1 < 2 ^ 32
      → same_key k l ≡ false
      → (id : ℕ) × (s : RowsTxn Obj EI) × (row_id Obj EI (some obj) none k r ≡ some (id, s))
        × IsConsistent s
        × (contains r.all id ≡ false)
        × (id_of s k ≡ some id)
        × (id_of s l ≡ id_of r l)
  row_id-IsConsistent obj r k l c more other =
      let (id, s, run, g) = row_id-Gives obj r k c more in
      (id, s, run, g.consistent, g.unused, g.given, g.others l other)
