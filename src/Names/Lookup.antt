-- ===== src/Names/Lookup.antt =====
-- nameIndex.get of schema_compile.go against a linear search.
use go_maemmidb.Base.{
  ℕ, zero, suc, ◌+◌, ◌-◌, ◌/◌, ◌<◌, ◌≤◌, ◌≡◌, refl, ap, sym, subst, ◌∙◌, Bool, true, false, arith,
  List, [], ◌∷◌, none, some, ◌==◌, ==_iff, ltb, leb, inl, inr, Bool-cases, length, get_elem?,
  get_elem?-some, take, drop, ◌&&◌, and-left, and-right,
}
use go_maemmidb.Keys.{Text}
use go_maemmidb.Keys.Bytes.{less_bytes}
use go_maemmidb.Txn.{same_key}
use go_maemmidb.Txn.Trees.{same_key-eq}
use go_maemmidb.Names.{NameEntry, crowded_length, slice, find, bisect, narrowed, search_bucket}
use go_maemmidb.Names.Order.{less_bytes_irrefl, less_bytes_trans}

-- A name above one that is not below the name looked for is not it.
beyond :
    (first later name : Text)
    → less_bytes first name ≡ false
    → less_bytes first later ≡ true
    → same_key later name ≡ false
beyond first later name not_below less = elim (Bool-cases (same_key later name)) [
  | inr off ↦ off
  | inl here ↦ cc (ap (less_bytes first) (same_key-eq later name here), less, not_below)
]

-- Nothing stands past the end of a list.
past : {A : Type 0} (xs : List A) (i : ℕ) (a : A) → length xs ≤ i → get_elem? xs i ≡ some a → ⊥
past [] i a le e = cc
past (x ∷ xs) zero a le e = omega arith
past (x ∷ xs) (suc i) a le e = past xs i a (omega arith) e

module _ {V : Type 0} where
  -- The names of a bucket ascend.
  abbrev pub IsSorted : List (NameEntry V) → Type 0
  IsSorted bucket =
      (i j : ℕ) (a b : NameEntry V)
      → i < j
      → get_elem? bucket i ≡ some a
      → get_elem? bucket j ≡ some b
      → less_bytes a.name b.name ≡ true

  -- The names before p are below the name, and those from p on are not.
  record IsCut (bucket : List (NameEntry V)) (name : Text) (p : ℕ) : Type 0 where
    pub within : p ≤ length bucket
    pub before :
        (i : ℕ) (a : NameEntry V)
        → i < p
        → get_elem? bucket i ≡ some a
        → less_bytes a.name name ≡ true
    pub from :
        (i : ℕ) (a : NameEntry V)
        → p ≤ i
        → get_elem? bucket i ≡ some a
        → less_bytes a.name name ≡ false

  bisect-IsCut :
      (fuel : ℕ) (bucket : List (NameEntry V)) (name : Text) (lo hi : ℕ)
      → IsSorted bucket
      → lo ≤ hi
      → hi ≤ length bucket
      → hi ≤ lo + fuel
      → ((i : ℕ) (a : NameEntry V)
          → i < lo
          → get_elem? bucket i ≡ some a
          → less_bytes a.name name ≡ true)
      → ((i : ℕ) (a : NameEntry V)
          → hi ≤ i
          → get_elem? bucket i ≡ some a
          → less_bytes a.name name ≡ false)
      → (p : ℕ) × (bisect fuel bucket name lo hi ≡ some p) × IsCut bucket name p
  unfolding bisect
  bisect-IsCut zero bucket name lo hi sorted le fits enough before from = (
    lo,
    (let stop : ltb lo hi ≡ false = ground arith in rw stop refl),
    record { within = omega arith; before = before; from = λ i a p e. from i a (omega arith) e },
  )
  bisect-IsCut (suc fuel) bucket name lo hi sorted le fits enough before from =
      elim (Bool-cases (ltb lo hi)) [
        | inr stop ↦
            let same : hi ≤ lo = ground arith in
            (
              lo,
              rw stop refl,
              record {
                within = omega arith;
                before = before;
                from = λ i a p e. from i a (omega arith) e;
              },
            )
        | inl go ↦
            let less : lo < hi = ground arith in
            let mid = (lo + hi) / 2 in
            let (e, at_mid) = get_elem?-some bucket mid (omega arith) in
            elim (Bool-cases (less_bytes e.name name)) [
              | inl below ↦
                  let (p, run, cut) =
                    bisect-IsCut fuel bucket name (mid + 1) hi sorted (omega arith) fits
                      (omega arith)
                      (λ i a q at_i. elim (Bool-cases (i == mid)) [
                        | inl s ↦
                            let same : a ≡ e =
                              cc (sym at_i ∙ ap (get_elem? bucket) ((==_iff i mid).0 s) ∙ at_mid) in
                            subst (λ x. less_bytes x.name name ≡ true) (sym same) below
                        | inr s ↦
                            less_bytes_trans a.name e.name name
                              (sorted i mid a e (ground arith) at_i at_mid) below
                      ])
                      from in
                  (p, rw (go, at_mid, below) run, cut)
              | inr above ↦
                  let (p, run, cut) =
                    bisect-IsCut fuel bucket name lo mid sorted (omega arith) (omega arith)
                      (omega arith) before
                      (λ i a q at_i. elim (Bool-cases (less_bytes a.name name)) [
                        | inr ok ↦ ok
                        | inl under ↦ elim (Bool-cases (i == mid)) [
                          | inl s ↦
                              let same : a ≡ e =
                                cc (
                                  sym at_i ∙ ap (get_elem? bucket) ((==_iff i mid).0 s) ∙ at_mid) in
                              subst (λ x. less_bytes x.name name ≡ false) (sym same) above
                          | inr s ↦ cc (
                            less_bytes_trans e.name a.name name
                                (sorted mid i e a (ground arith) at_mid at_i) under,
                            above,
                          )
                        ]
                      ]) in
                  (p, rw (go, at_mid, above) run, cut)
            ]
      ]

  get_elem?-drop :
      (xs : List (NameEntry V)) (p i : ℕ) → get_elem? (drop p xs) i ≡ get_elem? xs (p + i)
  get_elem?-drop xs zero i = let e : i ≡ 0 + i = omega arith in ap (get_elem? xs) e
  get_elem?-drop [] (suc p) i = refl
  get_elem?-drop (x ∷ xs) (suc p) i =
      let e : suc (p + i) ≡ suc p + i = omega arith in
      get_elem?-drop xs p i ∙ ap (get_elem? (x ∷ xs)) e

  -- Names below the one that is looked for are not it.
  find-drop :
      (xs : List (NameEntry V)) (name : Text) (p : ℕ)
      → ((i : ℕ) (a : NameEntry V)
          → i < p
          → get_elem? xs i ≡ some a
          → less_bytes a.name name ≡ true)
      → find (drop p xs) name ≡ find xs name
  unfolding find
  find-drop xs name zero h = refl
  find-drop [] name (suc p) h = refl
  find-drop (x ∷ xs) name (suc p) h =
      let off = less_bytes_irrefl x.name name (h 0 x (omega arith) refl) in
      find-drop xs name p (λ i a q e. h (suc i) a (omega arith) e) ∙ sym (rw off refl)

  none_found :
      (xs : List (NameEntry V)) (name : Text)
      → ((i : ℕ) (a : NameEntry V) → get_elem? xs i ≡ some a → same_key a.name name ≡ false)
      → find xs name ≡ none
  unfolding find
  none_found [] name h = refl
  none_found (x ∷ xs) name h = rw (h 0 x refl) (none_found xs name (λ i a e. h (suc i) a e))

  find-take :
      (xs : List (NameEntry V)) (name : Text)
      → ((i : ℕ) (a : NameEntry V) → get_elem? xs (suc i) ≡ some a → same_key a.name name ≡ false)
      → find (take 1 xs) name ≡ find xs name
  unfolding find
  find-take [] name h = refl
  find-take (x ∷ xs) name h = rw (none_found xs name h) refl

  narrowed_lem :
      (bucket : List (NameEntry V)) (name : Text) (p : ℕ)
      → IsSorted bucket
      → IsCut bucket name p
      → (one : List (NameEntry V)) × (narrowed bucket p ≡ some one)
        × (find one name ≡ find bucket name)
  unfolding narrowed slice find
  narrowed_lem bucket name p sorted cut = elim (Bool-cases (leb (p + 1) (length bucket))) [
    | inl more ↦
        let le : p + 1 ≤ length bucket = ground arith in
        let ok1 : ltb (p + 1) p ≡ false = ground arith in
        let ok2 : ltb (length bucket) (p + 1) ≡ false = ground arith in
        let width : p + 1 - p ≡ 1 = omega arith in
        let (first, at_p) = get_elem?-some bucket p (omega arith) in
        (
          take 1 (drop p bucket),
          rw (more, ok1, ok2, width) refl,
          find-take (drop p bucket) name (λ i a e.
                let e' : get_elem? bucket (p + suc i) ≡ some a =
                  sym (get_elem?-drop bucket p (suc i)) ∙ e in
                beyond first.name a.name name (cut.from p first (omega arith) at_p)
                  (sorted p (p + suc i) first a (omega arith) at_p e'))
              ∙ find-drop bucket name p cut.before,
        )
    | inr last ↦
        let same : p ≡ length bucket = let w = cut.within in ground arith in
        let ok1 : ltb (length bucket) p ≡ false = ground arith in
        let ok2 : ltb (length bucket) (length bucket) ≡ false = ground arith in
        let width : length bucket - p ≡ 0 = omega (arith, same) in
        (
          [],
          rw (last, ok1, ok2, width) refl,
          sym (
                none_found (drop p bucket) name (λ i a e. absurd (
                  past bucket (p + i) a (omega (arith, same))
                    (sym (get_elem?-drop bucket p i) ∙ e))))
              ∙ find-drop bucket name p cut.before,
        )
  ]

  -- Each name is below the next one.
  unfoldable pub ascends : List (NameEntry V) → Bool
  ascends [] = true
  ascends (x ∷ []) = true
  ascends (x ∷ y ∷ xs) = less_bytes x.name y.name && ascends (y ∷ xs)

  first_below :
      (x : NameEntry V) (xs : List (NameEntry V)) (j : ℕ) (b : NameEntry V)
      → ascends (x ∷ xs) ≡ true
      → get_elem? xs j ≡ some b
      → less_bytes x.name b.name ≡ true
  unfolding ascends
  first_below x [] j b h e = cc
  first_below x (y ∷ xs) zero b h e =
      let same : y ≡ b = cc in
      subst (λ c. less_bytes x.name c.name ≡ true) same
        (and-left (less_bytes x.name y.name) (ascends (y ∷ xs)) h)
  first_below x (y ∷ xs) (suc j) b h e =
      less_bytes_trans x.name y.name b.name
        (and-left (less_bytes x.name y.name) (ascends (y ∷ xs)) h)
        (first_below y xs j b (and-right (less_bytes x.name y.name) (ascends (y ∷ xs)) h) e)

  rest_ascends :
      (x : NameEntry V) (xs : List (NameEntry V)) → ascends (x ∷ xs) ≡ true → ascends xs ≡ true
  unfolding ascends
  rest_ascends x [] h = refl
  rest_ascends x (y ∷ xs) h = and-right (less_bytes x.name y.name) (ascends (y ∷ xs)) h

  ascends-IsSorted : (bucket : List (NameEntry V)) → ascends bucket ≡ true → IsSorted bucket
  ascends-IsSorted [] h i j a b p e e' = cc
  ascends-IsSorted (x ∷ xs) h zero zero a b p e e' = absurd (omega arith)
  ascends-IsSorted (x ∷ xs) h zero (suc j) a b p e e' =
      let same : x ≡ a = cc in
      subst (λ c. less_bytes c.name b.name ≡ true) same (first_below x xs j b h e')
  ascends-IsSorted (x ∷ xs) h (suc i) zero a b p e e' = absurd (omega arith)
  ascends-IsSorted (x ∷ xs) h (suc i) (suc j) a b p e e' =
      ascends-IsSorted xs (rest_ascends x xs h) i j a b (omega arith) e e'

  -- In a bucket whose names ascend, the search does not panic and its bisection ends within
  -- its fuel: the answer is that of the loop over the whole bucket.
  pub search_bucket-find :
      (bucket : List (NameEntry V)) (name : Text)
      → ascends bucket ≡ true
      → search_bucket bucket name ≡ some (find bucket name)
  unfolding search_bucket
  search_bucket-find bucket name up = elim (Bool-cases (ltb crowded_length (length bucket))) [
    | inr few ↦ rw few refl
    | inl many ↦
        let (p, run, cut) =
          bisect-IsCut (length bucket) bucket name 0 (length bucket) (ascends-IsSorted bucket up)
            (omega arith) (omega arith) (omega arith) (λ i a q e. absurd (omega arith))
            (λ i a q e. absurd (past bucket i a q e)) in
        let (one, run', same) = narrowed_lem bucket name p (ascends-IsSorted bucket up) cut in
        rw (many, run, run') (ap some same)
  ]
