-- ===== src/Keys/Multi/Choices.antt =====
-- Queries of a CompoundMultiIndex of index.go against the keys of an object.
use go_maemmidb.Base.{
  ℕ, zero, suc, ◌+◌, ◌≤◌, ◌≡◌, ◌⊎◌, refl, ap, sym, subst, ◌∙◌, Bool, true, false, arith, List, [],
  ◌∷◌, ◌++◌, map, Option, none, some, inl, inr, length, get_elem?,
}
use mathlib.Core.List.{
  Mem, mem-append_left, mem-append_right, mem-cons_self, mem-cons_of_mem, mem-cast, append_assoc,
}
use go_maemmidb.Keys.{Key, Value}
use go_maemmidb.Keys.Multi.{
  MultiSub, values_of, after_values, prefix_key, walk_vals, walk_each, walk_builder, build,
  multi_object, pairs, pair_of, collect_args, wrong_count, multi_args,
}

-- The bytes of some values, one after the other.
abbrev pub joined : List Key → Key
joined [] = []
joined (v ∷ vs) = v ++ joined vs

-- The arguments that one sub-index is asked with: one, or the pair of a string map.
pub data Asked : Type 0 where
  one : Value → Asked
  two : Value → Value → Asked

abbrev pub flat : List Asked → List Value
flat [] = []
flat (one a ∷ qs) = a ∷ flat qs
flat (two a b ∷ qs) = a ∷ b ∷ flat qs

-- The values stand in the builder, one in each of its first lists.
abbrev pub IsPath : List (List Key) → List Key → Type 0
IsPath builder [] = Unit
IsPath [] (v ∷ vs) = ⊥
IsPath (vals ∷ builder) (v ∷ vs) = ((i : ℕ) × (get_elem? vals i ≡ some v)) × IsPath builder vs

leaves :
    (prefix v : Key) (vals : List Key) (i : ℕ)
    → get_elem? vals i ≡ some v
    → Mem (prefix ++ v) (map (λ w. prefix ++ w) vals)
leaves prefix v [] i e = cc
leaves prefix v (w ∷ vals) zero e =
    let same : v ≡ w = cc in mem-cast (ap (λ x. prefix ++ x) same) mem-cons_self
leaves prefix v (w ∷ vals) (suc i) e = mem-cons_of_mem (prefix ++ w) (leaves prefix v vals i e)

each_deeper :
    (allow : Bool) (deeper : Key → List Key) (vals : List Key) (prefix v rest : Key) (i : ℕ)
    → ((p : Key) → Mem (p ++ rest) (deeper p))
    → get_elem? vals i ≡ some v
    → Mem ((prefix ++ v) ++ rest) (walk_each allow deeper vals prefix)
unfolding walk_each
each_deeper allow deeper [] prefix v rest i deep e = cc
each_deeper allow deeper (w ∷ vals) prefix v rest zero deep e =
    let same : v ≡ w = cc in
    mem-cast (ap (λ x. (prefix ++ x) ++ rest) same)
      (mem-append_right (prefix_key allow (prefix ++ w)) (mem-append_left _ (deep (prefix ++ w))))
each_deeper allow deeper (w ∷ vals) prefix v rest (suc i) deep e =
    mem-append_right (prefix_key allow (prefix ++ w)) (
      mem-append_right (deeper (prefix ++ w))
        (each_deeper allow deeper vals prefix v rest i deep e))

each_prefix :
    (deeper : Key → List Key) (vals : List Key) (prefix v : Key) (i : ℕ)
    → get_elem? vals i ≡ some v
    → Mem (prefix ++ v) (walk_each true deeper vals prefix)
unfolding walk_each prefix_key
each_prefix deeper [] prefix v i e = cc
each_prefix deeper (w ∷ vals) prefix v zero e =
    let same : v ≡ w = cc in mem-cast (ap (λ x. prefix ++ x) same) mem-cons_self
each_prefix deeper (w ∷ vals) prefix v (suc i) e =
    mem-cons_of_mem (prefix ++ w)
      (mem-append_right (deeper (prefix ++ w)) (each_prefix deeper vals prefix v i e))

append_nil : (xs : Key) → xs ++ [] ≡ xs
append_nil [] = refl
append_nil (x ∷ xs) = ap (λ ys. x ∷ ys) (append_nil xs)

paths :
    (allow : Bool) (builder : List (List Key)) (v : Key) (vs : List Key) (prefix : Key)
    → IsPath builder (v ∷ vs)
    → (allow ≡ true) ⊎ (length (v ∷ vs) ≡ length builder)
    → Mem (prefix ++ joined (v ∷ vs)) (walk_vals allow builder prefix)
unfolding walk_vals
paths allow [] v vs prefix h full = absurd h
paths allow (vals ∷ []) v [] prefix ((i, e), h) full =
    mem-cast (ap (λ x. prefix ++ x) (append_nil v)) (leaves prefix v vals i e)
paths allow (vals ∷ []) v (w ∷ vs) prefix ((i, e), h) full = absurd h
paths true (vals ∷ next ∷ builder) v [] prefix ((i, e), h) full =
    mem-cast (ap (λ x. prefix ++ x) (append_nil v))
      (each_prefix (walk_vals true (next ∷ builder)) vals prefix v i e)
paths false (vals ∷ next ∷ builder) v [] prefix ((i, e), h) (inl no_way) = cc
paths false (vals ∷ next ∷ builder) v [] prefix ((i, e), h) (inr full) =
    absurd (omega (arith, full))
paths allow (vals ∷ next ∷ builder) v (w ∷ vs) prefix ((i, e), h) full =
    let full' : (allow ≡ true) ⊎ (length (w ∷ vs) ≡ length (next ∷ builder)) = elim full [
      | inl a ↦ inl a
      | inr n ↦ inr (omega (arith, n))
    ] in
    mem-cast (sym (append_assoc prefix v (joined (w ∷ vs)))) (
      each_deeper allow (walk_vals allow (next ∷ builder)) vals prefix v (joined (w ∷ vs)) i
        (λ p. paths allow (next ∷ builder) w vs p h full') e)

after_values-some :
    (vals : List Key) (allow : Bool) (rest : Option (Option (List (List Key))))
    (builder : List (List Key))
    → after_values (some (some vals)) allow rest ≡ some (some builder)
    → (later : List (List Key)) × (rest ≡ some (some later)) × (vals ∷ later ≡ builder)
unfolding after_values
after_values-some vals allow none builder e = cc
after_values-some vals allow (some none) builder e = cc
after_values-some vals allow (some (some later)) builder e = (later, refl, cc)

after_values_complete :
    (found : Option (Option (List Key))) (rest : Option (Option (List (List Key))))
    (builder : List (List Key))
    → after_values found false rest ≡ some (some builder)
    → (vals : List Key) × (later : List (List Key)) × (rest ≡ some (some later))
      × (vals ∷ later ≡ builder)
unfolding after_values
after_values_complete none rest builder e = cc
after_values_complete (some none) rest builder e = cc
after_values_complete (some (some vals)) rest builder e =
    let (later, a, b) = after_values-some vals false rest builder e in (vals, later, a, b)

right_count :
    (allow : Bool) (qs given n indexes : ℕ)
    → given ≡ qs + n
    → qs ≤ indexes
    → (allow ≡ true) ⊎ (qs ≡ indexes)
    → wrong_count allow given (indexes + n) ≡ false
unfolding wrong_count
right_count true qs given n indexes l le full = ground arith
right_count false qs given n indexes l le (inl no_way) = cc
right_count false qs given n indexes l le (inr all) = ground arith

keys_of :
    (allow : Bool) (found : Option (Option (List (List Key)))) (keys : List Key)
    → walk_builder allow found ≡ some (some keys)
    → (builder : List (List Key)) × (found ≡ some (some builder))
      × (walk_vals allow builder [] ≡ keys)
unfolding walk_builder
keys_of allow none keys e = cc
keys_of allow (some none) keys e = cc
keys_of allow (some (some builder)) keys e = (builder, refl, cc)

module _ {Obj : Type 0} where
  -- The sub-index is asked as it must be, with a pair if it is a string map, and answers v.
  abbrev pub IsAnswered : MultiSub Obj → Asked → Key → Type 0
  IsAnswered s (one a) v = (s.is_string_map ≡ false) × (s.args (a ∷ []) ≡ some v)
  IsAnswered s (two a b) v = (s.is_string_map ≡ true) × (s.args (pair_of a b) ≡ some v)

  -- Of each of the first sub-indexes one of the object's values, which it also builds when asked.
  abbrev pub IsChosen : List (MultiSub Obj) → List Asked → List Key → Obj → Type 0
  IsChosen ss [] [] obj = Unit
  IsChosen ss [] (v ∷ vs) obj = ⊥
  IsChosen ss (q ∷ qs) [] obj = ⊥
  IsChosen [] (q ∷ qs) (v ∷ vs) obj = ⊥
  IsChosen (s ∷ ss) (q ∷ qs) (v ∷ vs) obj =
      ((vals : List Key) × (i : ℕ) × (values_of (s.found obj) ≡ some (some vals))
        × (get_elem? vals i ≡ some v))
      × (IsAnswered s q v × IsChosen ss qs vs obj)

  build-IsPath :
      (ss : List (MultiSub Obj)) (qs : List Asked) (vs : List Key) (allow : Bool) (obj : Obj)
      (builder : List (List Key))
      → IsChosen ss qs vs obj
      → build ss allow obj ≡ some (some builder)
      → IsPath builder vs
  unfolding build
  build-IsPath ss [] [] allow obj builder h e = tt
  build-IsPath ss [] (v ∷ vs) allow obj builder h e = absurd h
  build-IsPath ss (q ∷ qs) [] allow obj builder h e = absurd h
  build-IsPath [] (q ∷ qs) (v ∷ vs) allow obj builder h e = absurd h
  build-IsPath (s ∷ ss) (q ∷ qs) (v ∷ vs) allow obj builder ((vals, i, has, at_i), (ans, h)) e =
      let e' : after_values (some (some vals)) allow (build ss allow obj) ≡ some (some builder) =
        ap (λ f. after_values f allow (build ss allow obj)) (sym has) ∙ e in
      let (later, rest, same) = after_values-some vals allow (build ss allow obj) builder e' in
      subst (λ b. IsPath b (v ∷ vs)) same ((i, at_i), build-IsPath ss qs vs allow obj later h rest)

  build-length :
      (ss : List (MultiSub Obj)) (obj : Obj) (builder : List (List Key))
      → build ss false obj ≡ some (some builder)
      → length ss ≡ length builder
  unfolding build
  build-length [] obj builder e = let same : [] ≡ builder = cc in ap length same
  build-length (s ∷ ss) obj builder e =
      let (vals, later, rest, same) =
        after_values_complete (values_of (s.found obj)) (build ss false obj) builder e in
      ap suc (build-length ss obj later rest) ∙ ap length same

  collect_one :
      (s : MultiSub Obj) (ss : List (MultiSub Obj)) (a : Value) (bs : List Value) (out v : Key)
      → s.is_string_map ≡ false
      → s.args (a ∷ []) ≡ some v
      → collect_args (s ∷ ss) (a ∷ bs) out ≡ collect_args ss bs (out ++ v)
  unfolding collect_args
  collect_one s [] a [] out v plain e = rw (plain, e) refl
  collect_one s (s' ∷ ss) a [] out v plain e = rw (plain, e) refl
  collect_one s ss a (b ∷ bs) out v plain e = rw (plain, e) refl

  pairs_one :
      (s : MultiSub Obj) (ss : List (MultiSub Obj)) (a : Value) (bs : List Value)
      → s.is_string_map ≡ false
      → pairs (s ∷ ss) (a ∷ bs) ≡ pairs ss bs
  unfolding pairs
  pairs_one s ss a [] plain = rw plain refl
  pairs_one s ss a (b ∷ bs) plain = rw plain refl

  chosen_args :
      (ss : List (MultiSub Obj)) (qs : List Asked) (vs : List Key) (obj : Obj) (out : Key)
      → IsChosen ss qs vs obj
      → (n : ℕ) × (pairs ss (flat qs) ≡ some n)
        × (length (flat qs) ≡ length qs + n)
        × (length qs ≤ length ss)
        × (length vs ≡ length qs)
        × (collect_args ss (flat qs) out ≡ some (out ++ joined vs))
  unfolding pairs collect_args
  chosen_args [] [] [] obj out h =
      (0, refl, refl, omega arith, refl, ap some (sym (append_nil out)))
  chosen_args (s ∷ ss) [] [] obj out h =
      (0, refl, refl, omega arith, refl, ap some (sym (append_nil out)))
  chosen_args ss [] (v ∷ vs) obj out h = absurd h
  chosen_args ss (q ∷ qs) [] obj out h = absurd h
  chosen_args [] (q ∷ qs) (v ∷ vs) obj out h = absurd h
  chosen_args (s ∷ ss) (one a ∷ qs) (v ∷ vs) obj out (has, ((plain, e), h)) =
      let (n, p, l, le, same, c) = chosen_args ss qs vs obj (out ++ v) h in
      (
        n,
        pairs_one s ss a (flat qs) plain ∙ p,
        omega (arith, l),
        omega (arith, le),
        ap suc same,
        collect_one s ss a (flat qs) out v plain e ∙ c ∙ ap some (append_assoc out v (joined vs)),
      )
  chosen_args (s ∷ ss) (two a b ∷ qs) (v ∷ vs) obj out (has, ((is_map, e), h)) =
      let (n, p, l, le, same, c) = chosen_args ss qs vs obj (out ++ v) h in
      (
        suc n,
        rw (is_map, p) refl,
        omega (arith, l),
        omega (arith, le),
        ap suc same,
        rw (is_map, e) c ∙ ap some (append_assoc out v (joined vs)),
      )

  all_of :
      (allow : Bool) (ss : List (MultiSub Obj)) (obj : Obj) (builder : List (List Key)) (n : ℕ)
      → build ss allow obj ≡ some (some builder)
      → (allow ≡ true) ⊎ (n ≡ length ss)
      → (allow ≡ true) ⊎ (n ≡ length builder)
  all_of true ss obj builder n e full = inl refl
  all_of false ss obj builder n e (inl no_way) = cc
  all_of false ss obj builder n e (inr all) = inr (all ∙ build-length ss obj builder e)

  -- If a CompoundMultiIndex has keys for an object, and at least one of its first sub-indexes
  -- (all of them, unless AllowMissing) is asked for one of the values that it has for the object,
  -- then the query builds one of the keys.
  pub multi_args-object :
      (ss : List (MultiSub Obj)) (q : Asked) (qs : List Asked) (vs : List Key) (allow : Bool)
      (obj : Obj) (keys : List Key)
      → IsChosen ss (q ∷ qs) vs obj
      → (allow ≡ true) ⊎ (length (q ∷ qs) ≡ length ss)
      → multi_object ss allow obj ≡ some (some keys)
      → (k : Key) × (multi_args ss allow (flat (q ∷ qs)) ≡ some k) × Mem k keys
  unfolding multi_object multi_args
  multi_args-object ss q qs [] allow obj keys h full e = absurd h
  multi_args-object ss q qs (v ∷ vs) allow obj keys h full e =
      let (n, p, l, le, same, c) = chosen_args ss (q ∷ qs) (v ∷ vs) obj [] h in
      let (builder, built, walked) = keys_of allow (build ss allow obj) keys e in
      let full' : (allow ≡ true) ⊎ (length (v ∷ vs) ≡ length builder) =
        all_of allow ss obj builder (length (v ∷ vs)) built
          (elim full [ inl a ↦ inl a | inr m ↦ inr (same ∙ m) ]) in
      let count =
        right_count allow (length (q ∷ qs)) (length (flat (q ∷ qs))) n (length ss) l le full in
      (
        joined (v ∷ vs),
        rw (p, count) c,
        subst (λ ks. Mem (joined (v ∷ vs)) ks) walked
            (paths allow builder v vs []
              (build-IsPath ss (q ∷ qs) (v ∷ vs) allow obj builder h built) full'),
      )
