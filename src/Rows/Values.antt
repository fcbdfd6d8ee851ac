-- ===== src/Rows/Values.antt =====
-- The sets of a bitmap index after applyBitmaps of bitmap_index.go has moved a row between them.
use go_maemmidb.Base.{
  ℕ, ◌^◌, ◌<◌, ◌≡◌, refl, ap, sym, subst, ◌∙◌, Bool, true, false, ◌&&◌, ◌||◌, not, arith, List, [],
  ◌∷◌, Option, none, some, ◌==◌, ==_iff, and-left, and-right, if◌then◌else◌, inl, inr, Bool-cases,
  Option-cases,
}
use go_maemmidb.Txn.{Key, same_key, Engine}
use go_maemmidb.Txn.Trees.{IsMap, same_key-eq, same_key_refl}
use go_maemmidb.Bitmap.{Bitmap, empty, is_empty}
use go_maemmidb.Bitmap.Height.{contains}
use go_maemmidb.Bitmap.Removing.{Clears, clear-Clears, nothing_in, contains-is_empty}
use go_maemmidb.Bitmap.Cardinal.{IsSound, IsBelow, clear-IsSound, empty-IsSound}
use go_maemmidb.Rows.{lists, store_cleared, drop_value, drop_values, set_at}

module _ (EB : Engine Bitmap) (map_laws : IsMap EB) where
  -- The set of a value, whether or not the tree has one: the abstract view of the index.
  abbrev pub rows_at : EB.Work → Key → Bitmap
  rows_at x k = set_at EB x k

  unfoldable pub set_of : Option Bitmap → Bitmap
  set_of none = empty
  set_of (some b) = b

  pub set_at-set_of : (x : EB.Work) (k : Key) → rows_at x k ≡ set_of (EB.get (EB.tree x) k)
  unfolding set_at set_of
  set_at-set_of x k = elim (Option-cases (EB.get (EB.tree x) k)) [
    | inl e ↦ rw (set_at, e) refl
    | inr (b, e) ↦ rw (set_at, e) refl
  ]

  -- A tree after one value's set has become b.
  pub record Writes (x : EB.Work) (key : Key) (b : Bitmap) (y : EB.Work) : Type 0 where
    pub here : (j : ℕ) → contains (rows_at y key) j ≡ contains b j
    pub sound : IsSound (rows_at y key)
    pub there : (k : Key) → same_key key k ≡ false → rows_at y k ≡ rows_at x k

  pub insert-Writes :
      (x : EB.Work) (key : Key) (b : Bitmap) → IsSound b → Writes x key b (EB.insert x key b).1
  unfolding set_of
  insert-Writes x key b s =
      let y = (EB.insert x key b).1 in
      let at_key : rows_at y key ≡ b =
        set_at-set_of y key
        ∙ ap set_of (
            map_laws.get-insert x key b key
            ∙ ap (λ (c : Bool). if c then some b else EB.get (EB.tree x) key)
                (same_key_refl key)) in
      record {
        here = λ j. ap (λ c. contains c j) at_key;
        sound = subst IsSound (sym at_key) s;
        there = λ k off.
            set_at-set_of y k
            ∙ ap set_of (
                map_laws.get-insert x key b k
                ∙ ap (λ (c : Bool). if c then some b else EB.get (EB.tree x) k) off)
            ∙ sym (set_at-set_of x k);
      }

  delete-Writes :
      (x : EB.Work) (key : Key) (b : Bitmap)
      → is_empty b ≡ true
      → Writes x key b (EB.delete x key).1
  unfolding set_of
  delete-Writes x key b e =
      let y = (EB.delete x key).1 in
      let at_key : rows_at y key ≡ empty =
        set_at-set_of y key
        ∙ ap set_of (
            map_laws.get-delete x key key
            ∙ ap (λ (c : Bool). if c then none else EB.get (EB.tree x) key) (same_key_refl key)) in
      record {
        here = λ j. ap (λ c. contains c j) at_key ∙ nothing_in j ∙ sym (contains-is_empty b j e);
        sound = subst IsSound (sym at_key) empty-IsSound;
        there = λ k off.
            set_at-set_of y k
            ∙ ap set_of (
                map_laws.get-delete x key k
                ∙ ap (λ (c : Bool). if c then none else EB.get (EB.tree x) k) off)
            ∙ sym (set_at-set_of x k);
      }

  -- Every set is sound, and the ids in it are below n.
  abbrev pub IsIndexed : EB.Work → ℕ → Type 0
  IsIndexed x n = (k : Key) → IsSound (rows_at x k) × IsBelow (rows_at x k) n

  -- The sets lose the id where the test says so.
  pub record Drops (x : EB.Work) (id : ℕ) (test : Key → Bool) (y : EB.Work) : Type 0 where
    pub sound : (k : Key) → IsSound (rows_at y k)
    pub ids :
        (k : Key) (j : ℕ)
        → j < 2 ^ 32
        → contains (rows_at y k) j ≡ (contains (rows_at x k) j && not (test k && id == j))

  kept-Drops :
      (x : EB.Work) (id : ℕ) (test : Key → Bool)
      → ((k : Key) → IsSound (rows_at x k))
      → ((k : Key)
          → test k ≡ true
          → (j : ℕ) → j < 2 ^ 32
          → contains (rows_at x k) j ≡ (contains (rows_at x k) j && not (id == j)))
      → Drops x id test x
  kept-Drops x id test s off = record {
    sound = s;
    ids = λ k j p. elim (Bool-cases (test k)) [
      | inl e ↦ rw e (off k e j p)
      | inr e ↦ rw e (ground arith)
    ];
  }

  written-Drops :
      (x : EB.Work) (id : ℕ) (key : Key) (b c : Bitmap) (y : EB.Work)
      → ((k : Key) → IsSound (rows_at x k))
      → rows_at x key ≡ b
      → Clears b id c
      → Writes x key c y
      → Drops x id (same_key key) y
  written-Drops x id key b c y s now r w = record {
    sound = λ k. elim (Bool-cases (same_key key k)) [
      | inl e ↦ subst (λ l. IsSound (rows_at y l)) (same_key-eq key k e) w.sound
      | inr e ↦ subst IsSound (sym (w.there k e)) (s k)
    ];
    ids = λ k j p. elim (Bool-cases (same_key key k)) [
      | inl e ↦
          let same : rows_at x k ≡ b = ap (λ l. rows_at x l) (sym (same_key-eq key k e)) ∙ now in
          rw (e, same)
            (ap (λ l. contains (rows_at y l) j) (sym (same_key-eq key k e)) ∙ w.here j ∙ r.ids j p)
      | inr e ↦ rw (e, w.there k e) (ground arith)
    ];
  }

  Drops-cong :
      (x y : EB.Work) (id : ℕ) (s t : Key → Bool)
      → ((k : Key) → s k ≡ t k)
      → Drops x id s y
      → Drops x id t y
  Drops-cong x y id s t same d = record {
    sound = d.sound;
    ids = λ k j p.
        d.ids k j p ∙ ap (λ (b : Bool). contains (rows_at x k) j && not (b && id == j)) (same k);
  }

  Drops-trans :
      (x y z : EB.Work) (id : ℕ) (s t : Key → Bool)
      → Drops x id s y
      → Drops y id t z
      → Drops x id (λ k. s k || t k) z
  Drops-trans x y z id s t d e = record {
    sound = e.sound;
    ids = λ k j p. e.ids k j p ∙ rw (d.ids k j p) (ground arith);
  }

  -- A value of the row that stays or goes.
  abbrev gone_value : List Key → Key → Key → Bool
  gone_value news key k = same_key key k && not (lists news k)

  -- With or without the write that store_cleared saves.
  store_cleared-Drops :
      (x : EB.Work) (id : ℕ) (key : Key) (b c : Bitmap)
      → ((k : Key) → IsSound (rows_at x k))
      → rows_at x key ≡ b
      → IsSound c
      → Clears b id c
      → Drops x id (same_key key) (store_cleared EB x key (c, contains b id))
  unfolding store_cleared
  store_cleared-Drops x id key b c s now sound r = elim (Bool-cases (is_empty c)) [
    | inl e ↦
        rw e (written-Drops x id key b c (EB.delete x key).1 s now r (delete-Writes x key c e))
    | inr e ↦ elim (Bool-cases (contains b id)) [
      | inl on ↦
          rw (e, on)
            (written-Drops x id key b c (EB.insert x key c).1 s now r (insert-Writes x key c sound))
      | inr off ↦
          rw (e, off)
            (kept-Drops x id (same_key key) s (λ k t j p.
              let same : rows_at x k ≡ b =
                ap (λ l. rows_at x l) (sym (same_key-eq key k t)) ∙ now in
              rw same (missing_id b id j off)))
    ]
  ]
    where
      missing_id :
          (b : Bitmap) (id j : ℕ)
          → contains b id ≡ false
          → contains b j ≡ (contains b j && not (id == j))
      missing_id b id j off = elim (Bool-cases (id == j)) [
        | inr away ↦ rw away (ground arith)
        | inl here ↦
            let gone : contains b j ≡ false = ap (contains b) (sym ((==_iff id j).0 here)) ∙ off in
            rw gone refl
      ]

  drop_value-Drops :
      (id : ℕ) (news : List Key) (x : EB.Work) (key : Key)
      → id < 2 ^ 32
      → ((k : Key) → IsSound (rows_at x k))
      → (y : EB.Work) × (drop_value EB id news x key ≡ some y) × Drops x id (gone_value news key) y
  unfolding drop_value set_of
  drop_value-Drops id news x key p s = elim (Bool-cases (lists news key)) [
    | inl stays ↦ (
      x,
      rw stays refl,
      kept-Drops x id (gone_value news key) s (λ k t j q.
          let e = same_key-eq key k (and-left (same_key key k) (not (lists news k)) t) in
          cc (and-right (same_key key k) (not (lists news k)) t, ap (lists news) (sym e) ∙ stays)),
    )
    | inr goes ↦
        let fits : (k : Key) → same_key key k ≡ gone_value news key k = λ k.
          elim (Bool-cases (same_key key k)) [
            | inl e ↦ rw (e, ap (lists news) (sym (same_key-eq key k e)) ∙ goes) refl
            | inr e ↦ rw e refl
          ] in
        elim (Option-cases (EB.get (EB.tree x) key)) [
          | inl e ↦
              let none_at : rows_at x key ≡ empty = set_at-set_of x key ∙ ap set_of e in
              (
                x,
                rw (goes, e) refl,
                Drops-cong x x id (same_key key) (gone_value news key) fits (
                    kept-Drops x id (same_key key) s (λ k t j q.
                      let gone : contains (rows_at x k) j ≡ false =
                        ap (λ l. contains (rows_at x l) j) (sym (same_key-eq key k t))
                        ∙ ap (λ b. contains b j) none_at
                        ∙ nothing_in j in
                      rw gone refl)),
              )
          | inr (b, e) ↦
              let now : rows_at x key ≡ b = set_at-set_of x key ∙ ap set_of e in
              let sound = subst IsSound now (s key) in
              let (c, r) = clear-Clears b id sound.shaped sound.all sound.room p in
              (
                _,
                rw (goes, e, r.returns) refl,
                Drops-cong x _ id (same_key key) (gone_value news key) fits
                    (store_cleared-Drops x id key b c s now (clear-IsSound b id c sound r) r),
              )
        ]
  ]

  pub drop_values-Drops :
      (id : ℕ) (news : List Key) (x : EB.Work) (olds : List Key)
      → id < 2 ^ 32
      → ((k : Key) → IsSound (rows_at x k))
      → (y : EB.Work) × (drop_values EB id news x olds ≡ some y)
        × Drops x id (λ k. lists olds k && not (lists news k)) y
  unfolding drop_values lists
  drop_values-Drops id news x [] p s = (x, refl, kept-Drops x id (λ k. false) s (λ k t j q. cc))
  drop_values-Drops id news x (key ∷ olds) p s =
      let (y, run, d) = drop_value-Drops id news x key p s in
      let (z, run', e) = drop_values-Drops id news y olds p d.sound in
      (
        z,
        rw run run',
        Drops-cong x z id _ (λ k. lists (key ∷ olds) k && not (lists news k))
            (λ k. elim (Bool-cases (same_key key k)) [
              | inl t ↦ rw t (ground arith)
              | inr t ↦ rw t (ground arith)
            ])
            (Drops-trans x y z id (gone_value news key) (λ k. lists olds k && not (lists news k)) d
              e),
      )
