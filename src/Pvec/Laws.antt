-- ===== src/Pvec/Laws.antt =====
-- The contract of the vector of pvec.go: reading back what was set, and counting it.
use native.Mathlib.Nat.{div-eq_of_lt, div-lt_iff_lt-mul, mod-eq_of_lt}
use go_maemmidb.Base.{
  ℕ, zero, suc, ◌+◌, ◌*◌, ◌/◌, ◌^◌, ◌<◌, ◌≤◌, ◌≡◌, ◌≢◌, refl, ap, sym, subst, ◌∙◌, true, false,
  arith, ◌==◌, ==_iff, if◌then◌else◌, inl, inr, Bool-cases, Option, none, some, update,
  Option-cases, sum_below_change, sum_below_zeros,
}
use go_maemmidb.Pvec.{
  too_low, leaf, slot_of, descend, empty, span, Node, Vector, uint32_mod, used_of, read, set_node,
  too_low, fit_height, max_height, len, get, grow, cover, trim, write, set,
}
use go_maemmidb.Pvec.Path.{
  same_path, same_path_refl, same_path-eq, pow_span-suc, pow_span_pos, covers-lt, fit_height_lem,
  tall,
}
use go_maemmidb.Pvec.Counts.{bit_of, IsCounted, read-none, used_none, IsCounted-none}
use go_maemmidb.Pvec.Write.{Counts, set_node-Counts, read-set_node}

lt-covers : (h i : ℕ) → i < 2 ^ span h → too_low h i ≡ false
unfolding too_low
lt-covers h i p = rw (div-eq_of_lt p) (ground arith)

outside : (h i : ℕ) → too_low h i ≡ true → i / 2 ^ span h ≢ 0
unfolding too_low
outside h i p e = ground arith

differs : (h i j : ℕ) → too_low h i ≡ false → too_low h j ≡ true → (i == j) ≡ false
differs h i j p q = elim (Bool-cases (i == j)) [
  | inl e ↦ cc (ap (too_low h) ((==_iff i j).0 e))
  | inr e ↦ e
]

module _ (V : Type 0) where
  -- The counts of a vector's nodes are right, and no node is empty.
  abbrev pub IsValid : Vector V → Type 0
  IsValid v = IsCounted V v.height v.root

  abbrev raised : (h : ℕ) → Option (Node V h) → Option (Node V (suc h))
  raised h root = some (record { used = used_of V h root; kids = update (λ j. none) 0 root })

  abbrev at : (h : ℕ) → Option (Node V h) → Vector V
  at h root = record { height = h; root = root }

  get_covered :
      (h : ℕ) (root : Option (Node V h)) (j : ℕ)
      → too_low h j ≡ false
      → get V (at h root) j ≡ read V h root j
  unfolding get read
  get_covered h root j p = rw p

  get_outside :
      (h : ℕ) (root : Option (Node V h)) (j : ℕ) → too_low h j ≡ true → get V (at h root) j ≡ none
  unfolding get
  get_outside h root j p = rw p

  get-none : (h j : ℕ) → get V (at h none) j ≡ none
  get-none h j = elim (Bool-cases (too_low h j)) [
    | inl e ↦ get_outside h none j e
    | inr e ↦ get_covered h none j e ∙ read-none V h j
  ]

  raised_outside :
      (h : ℕ) (root : Option (Node V h)) (j : ℕ)
      → j < 2 ^ span h * 32
      → j / 2 ^ span h ≢ 0
      → read V (suc h) (raised h root) j ≡ none
  unfolding read
  raised_outside h root j p ne =
      let fits : j / 2 ^ span h < 32 = (div-lt_iff_lt-mul (pow_span_pos h)).1 (omega arith) in
      let slot = mod-eq_of_lt fits in
      let off : (0 == j / 2 ^ span h) ≡ false = ground arith in rw (slot, off) (read-none V h j)

  -- A level more on top changes no read.
  get-raised :
      (h : ℕ) (root : Option (Node V h)) (j : ℕ)
      → j < 2 ^ 32
      → get V (at (suc h) (raised h root)) j ≡ get V (at h root) j
  get-raised h root j p = elim (Bool-cases (too_low h j)) [
    | inr e ↦
        let fits = covers-lt h j p e in
        let higher : j < 2 ^ span (suc h) = rw (pow_span-suc h) (omega arith) in
        rw
          (
            get_covered h root j e,
            get_covered (suc h) (raised h root) j (lt-covers (suc h) j higher),
          )
          (unfold read in rw (div-eq_of_lt fits))
    | inl e ↦ rw (get_outside h root j e) (elim (Bool-cases (too_low (suc h) j)) [
      | inl e' ↦ get_outside (suc h) (raised h root) j e'
      | inr e' ↦
          get_covered (suc h) (raised h root) j e'
          ∙ raised_outside h root j (rw (← pow_span-suc h) (covers-lt (suc h) j p e'))
              (outside h j e)
    ])
  ]

  -- What the growing loop gives: the same reads and the same count in a tree that covers `i`.
  pub record Covers (v w : Vector V) (i : ℕ) : Type 0 where
    pub valid : IsValid w
    pub reaches : too_low w.height i ≡ false
    pub len_same : len V w ≡ len V v
    pub reads : (j : ℕ) → j < 2 ^ 32 → get V w j ≡ get V v j

  child_off :
      (h : ℕ) (root : Option (Node V h)) (j : ℕ)
      → 0 ≢ j
      → used_of V h (update (λ j. none) 0 root j) ≡ 0
  child_off h root j ne = let off : (0 == j) ≡ false = ground arith in rw off (used_none V h)

  child-IsCounted :
      (h : ℕ) (root : Option (Node V h))
      → IsCounted V h root
      → (i : ℕ) → IsCounted V h (update (λ j. none) 0 root i)
  child-IsCounted h root c i = elim (Bool-cases (0 == i)) [
    | inl e ↦ rw e c
    | inr e ↦ rw e (IsCounted-none V h)
  ]

  raised-IsCounted :
      (h : ℕ) (root : Option (Node V h))
      → IsCounted V h root
      → 0 < used_of V h root
      → IsCounted V (suc h) (raised h root)
  raised-IsCounted h root c p =
      let f = λ (i : ℕ). used_of V h (update (λ j. none) 0 root i) in
      (
        omega (
          arith,
          sum_below_change 32 f (λ i. 0) 0 (λ j q ne. child_off h root j ne) (omega arith),
          sum_below_zeros 32 (λ i. 0) (λ i q. refl),
        ),
        p,
        λ i. child-IsCounted h root c i,
      )

  grow-Covers :
      (fuel : ℕ) (v : Vector V) (i : ℕ)
      → 6 ≤ v.height + fuel
      → IsValid v
      → 0 < len V v
      → Covers v (grow V fuel v i) i
  unfolding grow
  grow-Covers zero v i p c some_used = record {
    valid = c;
    reaches = tall v.height i (omega arith);
    len_same = refl;
    reads = λ j q. refl;
  }
  grow-Covers (suc fuel) v i p c some_used = elim (Bool-cases (too_low v.height i)) [
    | inr e ↦ rw e (record { valid = c; reaches = e; len_same = refl; reads = λ j q. refl })
    | inl e ↦
        let up = at (suc v.height) (raised v.height v.root) in
        let rest =
          grow-Covers fuel up i (omega arith)
            (raised-IsCounted v.height v.root c (unfold len in some_used))
            (unfold len used_of in (unfold len used_of in some_used)) in
        rw e (record {
          valid = rest.valid;
          reaches = rest.reaches;
          len_same = rest.len_same ∙ (unfold len used_of in refl);
          reads = λ j q. rest.reads j q ∙ get-raised v.height v.root j q;
        })
  ]

  empty-Covers : (h i : ℕ) → Covers (at h none) (at (fit_height max_height h i) none) i
  empty-Covers h i = record {
    valid = IsCounted-none V (fit_height max_height h i);
    reaches = fit_height_lem max_height h i (omega arith);
    len_same = unfold len in used_none V (fit_height max_height h i) ∙ sym (used_none V h);
    reads = λ j q. get-none (fit_height max_height h i) j ∙ sym (get-none h j);
  }

  used_pos : (h : ℕ) (n : Node V h) → IsCounted V h (some n) → 0 < used_of V h (some n)
  unfolding used_of
  used_pos zero n c = c.1
  used_pos (suc h) n c = c.1

  cover-at :
      (h : ℕ) (root : Option (Node V h)) (i : ℕ)
      → IsCounted V h root
      → Covers (at h root) (cover V (at h root) i) i
  unfolding cover
  cover-at h none i c = empty-Covers h i
  cover-at h (some n) i c =
      grow-Covers max_height (at h (some n)) i (omega arith) c (unfold len in used_pos h n c)

  get-trim :
      (h : ℕ) (root : Option (Node V h)) (j : ℕ)
      → get V (trim V (at h root)) j ≡ get V (at h root) j
  unfolding trim
  get-trim h none j = get-none 0 j ∙ sym (get-none h j)
  get-trim h (some n) j = refl

  len-trim : (h : ℕ) (root : Option (Node V h)) → len V (trim V (at h root)) ≡ used_of V h root
  unfolding trim len
  len-trim h none = used_none V 0 ∙ sym (used_none V h)
  len-trim h (some n) = refl

  trim-IsValid :
      (h : ℕ) (root : Option (Node V h)) → IsCounted V h root → IsValid (trim V (at h root))
  unfolding trim
  trim-IsValid h none c = tt
  trim-IsValid h (some n) c = c

  apart : (h i j : ℕ) → i < 2 ^ span h → j < 2 ^ span h → same_path h i j ≡ (i == j)
  apart h i j p q = elim (Bool-cases (same_path h i j)) [
    | inl e ↦ rw (e, same_path-eq h i j p q e) (ground arith)
    | inr e ↦ elim (Bool-cases (i == j)) [
      | inl e' ↦
          rw e' (subst (λ k. same_path h i k ≡ true) ((==_iff i j).0 e') (same_path_refl h i))
      | inr e' ↦ rw (e, e')
    ]
  ]

  module _ (v : Vector V) (i : ℕ) (val : Option V) (c : IsValid v) (room : len V v + 1 < uint32_mod)
      (reach : too_low v.height i ≡ false) (small : i < 2 ^ 32) where
    counts : Counts V v.height v.root i val
    counts = set_node-Counts V v.height v.root i val c (unfold len in room)

    write-IsValid : IsValid (write V v i val)
    unfolding write
    write-IsValid = trim-IsValid v.height (set_node V v.height v.root i val) counts.counted

    get-write :
        (j : ℕ) → j < 2 ^ 32 → get V (write V v i val) j ≡ (if i == j then val else get V v j)
    unfolding write
    get-write j q =
        get-trim v.height (set_node V v.height v.root i val) j
        ∙ elim (Bool-cases (too_low v.height j)) [
          | inr e ↦ rw (
            get_covered v.height (set_node V v.height v.root i val) j e,
            get_covered v.height v.root j e,
            read-set_node V v.height v.root i j val c (unfold len in room),
            apart v.height i j (covers-lt v.height i small reach) (covers-lt v.height j q e),
          )
          | inl e ↦ rw (
            get_outside v.height (set_node V v.height v.root i val) j e,
            get_outside v.height v.root j e,
            differs v.height i j reach e,
          )
        ]

    len-write : len V (write V v i val) + bit_of (get V v i) ≡ len V v + bit_of val
    unfolding write
    len-write =
        rw
          (
            len-trim v.height (set_node V v.height v.root i val),
            get_covered v.height v.root i reach,
          )
          (unfold len in counts.moved)

  -- A write to a vector that was made tall enough for the index.
  module _ (v w : Vector V) (i : ℕ) (c : Covers v w i) (room : len V v + 1 < uint32_mod)
      (small : i < 2 ^ 32) (val : Option V) where
    written : len V w + 1 < uint32_mod
    written = omega (arith, c.len_same)

    covered-get :
        (j : ℕ) → j < 2 ^ 32 → get V (write V w i val) j ≡ (if i == j then val else get V v j)
    covered-get j q = get-write w i val c.valid written c.reaches small j q ∙ rw (c.reads j q)

    covered-len : len V (write V w i val) + bit_of (get V v i) ≡ len V v + bit_of val
    covered-len =
        rw (← c.reads i small, ← c.len_same) (len-write w i val c.valid written c.reaches small)

    covered-IsValid : IsValid (write V w i val)
    covered-IsValid = write-IsValid w i val c.valid written c.reaches small

  at_place : (v : Vector V) (i : ℕ) → IsValid v → too_low v.height i ≡ false → Covers v v i
  at_place v i c e = record { valid = c; reaches = e; len_same = refl; reads = λ j q. refl }

  reached : (v : Vector V) (i : ℕ) (was : V) → get V v i ≡ some was → too_low v.height i ≡ false
  unfolding get
  reached v i was e = ground arith

  -- What `Set` promises: validity is kept, the written index reads the new value and every other
  -- index what it did, and the length moves by the value that comes and the value that goes.
  pub record Writes (v : Vector V) (i : ℕ) (val : Option V) (w : Vector V) : Type 0 where
    pub valid : IsValid w
    pub reads : (j : ℕ) → j < 2 ^ 32 → get V w j ≡ (if i == j then val else get V v j)
    pub length_moves : len V w + bit_of (get V v i) ≡ len V v + bit_of val

  covered-Writes :
      (v w : Vector V) (i : ℕ) (val : Option V)
      → Covers v w i
      → len V v + 1 < uint32_mod
      → i < 2 ^ 32
      → Writes v i val (write V w i val)
  covered-Writes v w i val c room small = record {
    valid = covered-IsValid v w i c room small val;
    reads = covered-get v w i c room small val;
    length_moves = covered-len v w i c room small val;
  }

  kept-Writes : (v : Vector V) (i : ℕ) → IsValid v → get V v i ≡ none → Writes v i none v
  kept-Writes v i c e = record {
    valid = c;
    reads = λ j q. elim (Bool-cases (i == j)) [
      | inl s ↦ rw s (ap (get V v) (sym ((==_iff i j).0 s)) ∙ e)
      | inr s ↦ rw s
    ];
    length_moves = rw e;
  }

  pub set-Writes :
      (v : Vector V) (i : ℕ) (val : Option V)
      → IsValid v
      → len V v + 1 < uint32_mod
      → i < 2 ^ 32
      → Writes v i val (set V v i val)
  unfolding set
  set-Writes v i (some val) c room small =
      covered-Writes v (cover V v i) i (some val) (cover-at v.height v.root i c) room small
  set-Writes v i none c room small = elim (Option-cases (get V v i)) [
    | inl e ↦ rw (e, set) (kept-Writes v i c e)
    | inr (was, e) ↦
        rw (e, set) (covered-Writes v v i none (at_place v i c (reached v i was e)) room small)
  ]

  -- Set on a valid vector, at an index below 2 ^ 32 and with room for one more in the 32-bit
  -- length, gives a valid vector that reads the new value there and the old value at any other
  -- index below 2 ^ 32, and whose length changes by what the slot gained or lost.
  pub get-set :
      (v : Vector V) (i : ℕ) (val : Option V) (j : ℕ)
      → IsValid v
      → len V v + 1 < uint32_mod
      → i < 2 ^ 32
      → j < 2 ^ 32
      → IsValid (set V v i val)
        × (get V (set V v i val) j ≡ (if i == j then val else get V v j))
        × (len V (set V v i val) + bit_of (get V v i) ≡ len V v + bit_of val)
  get-set v i val j valid room small small' =
      let w = set-Writes v i val valid room small in (w.valid, w.reads j small', w.length_moves)

  pub len-empty : len V (empty V) ≡ 0
  unfolding len
  len-empty = refl

  pub get-empty : (i : ℕ) → get V (empty V) i ≡ none
  unfolding get leaf slot_of descend
  get-empty i = elim (Bool-cases (too_low 0 i)) [
    | inl e ↦ rw (get, leaf, e) refl
    | inr e ↦ rw (get, leaf, e) refl
  ]
