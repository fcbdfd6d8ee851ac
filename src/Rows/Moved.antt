-- ===== src/Rows/Moved.antt =====
-- What applyBitmaps of bitmap_index.go makes of a bitmap index: the sets of the row's new values.
use go_maemmidb.Base.{
  ℕ, ◌+◌, ◌^◌, ◌<◌, ◌≡◌, refl, ap, sym, subst, ◌∙◌, Bool, true, false, ◌&&◌, ◌||◌, not, arith, List,
  [], ◌∷◌, some, ◌==◌, ==_iff, and-left, and-right, if◌then◌else◌, inl, inr, Bool-cases,
}
use go_maemmidb.Txn.{Key, same_key, Engine}
use go_maemmidb.Txn.Trees.{IsMap, same_key-eq}
use go_maemmidb.Bitmap.{Bitmap}
use go_maemmidb.Bitmap.Height.{contains}
use go_maemmidb.Bitmap.Cardinal.{IsSound, Sets, set-Sets, len_room}
use go_maemmidb.Rows.{ValueMove, lists, add_value, add_values, apply_values}
use go_maemmidb.Rows.Values.{rows_at, Writes, insert-Writes, IsIndexed, drop_values-Drops}

module _ (EB : Engine Bitmap) (map_laws : IsMap EB) where
  abbrev at_key : EB.Work → Key → Bitmap
  at_key x k = rows_at EB map_laws x k

  -- The sets gain the id where the test says so.
  record Gains (x : EB.Work) (id : ℕ) (test : Key → Bool) (y : EB.Work) : Type 0 where
    pub sound : (k : Key) → IsSound (at_key y k)
    pub ids :
        (k : Key) (j : ℕ)
        → j < 2 ^ 32
        → contains (at_key y k) j ≡ (contains (at_key x k) j || (test k && id == j))

  same_ids :
      (b : Bitmap) (id j : ℕ) → contains b id ≡ true → contains b j ≡ (contains b j || id == j)
  same_ids b id j on = elim (Bool-cases (id == j)) [
    | inr away ↦ rw away (ground arith)
    | inl here ↦
        let too : contains b j ≡ true = ap (contains b) (sym ((==_iff id j).0 here)) ∙ on in
        rw too refl
  ]

  kept-Gains :
      (x : EB.Work) (id : ℕ) (test : Key → Bool)
      → ((k : Key) → IsSound (at_key x k))
      → ((k : Key) → test k ≡ true → contains (at_key x k) id ≡ true)
      → Gains x id test x
  kept-Gains x id test s on = record {
    sound = s;
    ids = λ k j p. elim (Bool-cases (test k)) [
      | inl e ↦ rw e (same_ids (at_key x k) id j (on k e))
      | inr e ↦ rw e (ground arith)
    ];
  }

  written-Gains :
      (x : EB.Work) (id : ℕ) (key : Key) (c : Bitmap) (y : EB.Work)
      → ((k : Key) → IsSound (at_key x k))
      → Sets (at_key x key) id c
      → Writes EB map_laws x key c y
      → Gains x id (same_key key) y
  written-Gains x id key c y s r w = record {
    sound = λ k. elim (Bool-cases (same_key key k)) [
      | inl e ↦ subst (λ l. IsSound (at_key y l)) (same_key-eq key k e) w.sound
      | inr e ↦ subst IsSound (sym (w.there k e)) (s k)
    ];
    ids = λ k j p. elim (Bool-cases (same_key key k)) [
      | inl e ↦
          let same : at_key x k ≡ at_key x key = ap (λ l. at_key x l) (sym (same_key-eq key k e)) in
          rw (e, same)
            (ap (λ l. contains (at_key y l) j) (sym (same_key-eq key k e))
              ∙ w.here j
              ∙ r.ids j p
              ∙ (ground arith))
      | inr e ↦ rw (e, w.there k e) (ground arith)
    ];
  }

  Gains-cong :
      (x y : EB.Work) (id : ℕ) (s t : Key → Bool)
      → ((k : Key) → s k ≡ t k)
      → Gains x id s y
      → Gains x id t y
  Gains-cong x y id s t same d = record {
    sound = d.sound;
    ids = λ k j p.
        d.ids k j p ∙ ap (λ (b : Bool). contains (at_key x k) j || (b && id == j)) (same k);
  }

  Gains-trans :
      (x y z : EB.Work) (id : ℕ) (s t : Key → Bool)
      → Gains x id s y
      → Gains y id t z
      → Gains x id (λ k. s k || t k) z
  Gains-trans x y z id s t d e = record {
    sound = e.sound;
    ids = λ k j p. e.ids k j p ∙ rw (d.ids k j p) (ground arith);
  }

  -- A value of the row that is new.
  abbrev new_value : List Key → Key → Key → Bool
  new_value olds key k = same_key key k && not (lists olds k)

  fits_test :
      (olds : List Key) (key : Key)
      → lists olds key ≡ false
      → (k : Key) → same_key key k ≡ new_value olds key k
  fits_test olds key off k = elim (Bool-cases (same_key key k)) [
    | inl e ↦ rw (e, ap (lists olds) (sym (same_key-eq key k e)) ∙ off) refl
    | inr e ↦ rw e refl
  ]

  add_value-Gains :
      (id n : ℕ) (olds : List Key) (x : EB.Work) (key : Key)
      → id < n
      → n + 1 < 2 ^ 32
      → IsIndexed EB map_laws x n
      → (y : EB.Work) × (add_value EB id olds x key ≡ some y) × Gains x id (new_value olds key) y
  unfolding add_value
  add_value-Gains id n olds x key p q s = elim (Bool-cases (lists olds key)) [
    | inl stays ↦ (
      x,
      rw stays refl,
      kept-Gains x id (new_value olds key) (λ k. (s k).0)
          (λ k t.
            let e = same_key-eq key k (and-left (same_key key k) (not (lists olds k)) t) in
            cc
              (and-right (same_key key k) (not (lists olds k)) t, ap (lists olds) (sym e) ∙ stays)),
    )
    | inr new ↦
        let room = len_room (at_key x key) n (s key).0 q (s key).1 in
        let (c, r) = set-Sets (at_key x key) id (s key).0 (omega arith) room in
        let cong = fits_test olds key new in
        elim (Bool-cases (contains (at_key x key) id)) [
          | inl on ↦ (
            x,
            rw (new, r.returns, on) refl,
            Gains-cong x x id (same_key key) (new_value olds key) cong (
                kept-Gains x id (same_key key) (λ k. (s k).0)
                  (λ k t. ap (λ l. contains (at_key x l) id) (sym (same_key-eq key k t)) ∙ on)),
          )
          | inr off ↦ (
            (EB.insert x key c).1,
            rw (new, r.returns, off) refl,
            Gains-cong x _ id (same_key key) (new_value olds key) cong (
                written-Gains x id key c _ (λ k. (s k).0) r
                  (insert-Writes EB map_laws x key c r.sound)),
          )
        ]
  ]

  Gains-IsIndexed :
      (x y : EB.Work) (id n : ℕ) (t : Key → Bool)
      → id < n
      → IsIndexed EB map_laws x n
      → Gains x id t y
      → IsIndexed EB map_laws y n
  Gains-IsIndexed x y id n t p s g k = (
    g.sound k,
    λ j q le.
        g.ids k j q
        ∙ (let off : (id == j) ≡ false = ground arith in rw (off, (s k).1 j q le) (ground arith)),
  )

  add_values-Gains :
      (id n : ℕ) (olds : List Key) (x : EB.Work) (news : List Key)
      → id < n
      → n + 1 < 2 ^ 32
      → IsIndexed EB map_laws x n
      → (y : EB.Work) × (add_values EB id olds x news ≡ some y)
        × Gains x id (λ k. lists news k && not (lists olds k)) y
  unfolding add_values lists
  add_values-Gains id n olds x [] p q s =
      (x, refl, kept-Gains x id (λ k. false) (λ k. (s k).0) (λ k t. cc))
  add_values-Gains id n olds x (key ∷ news) p q s =
      let (y, run, d) = add_value-Gains id n olds x key p q s in
      let (z, run', e) = add_values-Gains id n olds y news p q (Gains-IsIndexed x y id n _ p s d) in
      (
        z,
        rw run run',
        Gains-cong x z id _ (λ k. lists (key ∷ news) k && not (lists olds k))
            (λ k. elim (Bool-cases (same_key key k)) [
              | inl t ↦ rw t (ground arith)
              | inr t ↦ rw t (ground arith)
            ])
            (Gains-trans x y z id (new_value olds key) (λ k. lists news k && not (lists olds k)) d
              e),
      )

  -- If the engine's trees are maps, the sets of a bitmap index are sound with ids below n, n + 1 is
  -- below 2 ^ 32, and the row's id is below n and in the sets of its old values and in no others,
  -- then applyBitmaps does not panic on the index, and afterwards the sets are sound with ids below
  -- n, the row's id is in the sets of its new values and in no others, and every other id below
  -- 2 ^ 32 is where it was.
  pub contains-apply_values :
      (id n : ℕ) (move : ValueMove) (x : EB.Work) (k : Key) (j : ℕ)
      → id < n
      → n + 1 < 2 ^ 32
      → IsIndexed EB map_laws x n
      → ((l : Key) → contains (rows_at EB map_laws x l) id ≡ lists move.olds l)
      → j < 2 ^ 32
      → (y : EB.Work) × (apply_values EB id move x ≡ some y)
        × IsIndexed EB map_laws y n
        × (contains (rows_at EB map_laws y k) j
            ≡ (if id == j then lists move.news k else contains (rows_at EB map_laws x k) j))
  unfolding apply_values
  contains-apply_values id n move x k j p q s at_olds small =
      let (y, run, d) =
        drop_values-Drops EB map_laws id move.news x move.olds (omega arith) (λ l. (s l).0) in
      let below : IsIndexed EB map_laws y n =
        λ l. (d.sound l, λ i b le. d.ids l i b ∙ rw ((s l).1 i b le) refl) in
      let (z, run', g) = add_values-Gains id n move.olds y move.news p q below in
      (
        z,
        rw run run',
        Gains-IsIndexed y z id n _ p below g,
        g.ids k j small
            ∙ rw (d.ids k j small) (elim (Bool-cases (id == j)) [
              | inr away ↦ rw away (ground arith)
              | inl here ↦
                  let old : contains (at_key x k) j ≡ lists move.olds k =
                    ap (contains (at_key x k)) (sym ((==_iff id j).0 here)) ∙ at_olds k in
                  rw (here, old) (ground arith)
            ]),
      )
