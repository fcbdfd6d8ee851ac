-- ===== src/Keys/Compound/Agreement.antt =====
-- Queries of a CompoundIndex of index.go against the key of an object.
use go_maemmidb.Base.{
  suc, ◌≤◌, ◌≡◌, refl, ap, sym, ◌∙◌, Bool, true, false, arith, List, [], ◌∷◌, ◌++◌, Option, none,
  some, ◌==◌, ==_iff, ltb, length,
}
use go_maemmidb.Keys.{Key, Value, Indexed}
use go_maemmidb.Keys.Bytes.{is_prefix, is_prefix-append}
use go_maemmidb.Keys.Compound.{
  Sub, after_sub, object_loop, compound_object, args_loop, compound_args, last_prefix, prefix_loop,
  compound_prefix_args,
}

is_prefix_trans :
    (xs ys zs : Key) → is_prefix xs ys ≡ true → is_prefix ys zs ≡ true → is_prefix xs zs ≡ true
unfolding is_prefix
is_prefix_trans [] ys zs h k = refl
is_prefix_trans (x ∷ xs) [] zs h k = cc
is_prefix_trans (x ∷ xs) (y ∷ ys) [] h k = cc
is_prefix_trans (x ∷ xs) (y ∷ ys) (z ∷ zs) h k =
    let h' : is_prefix xs ys ≡ true = ground arith in
    let k' : is_prefix ys zs ≡ true = ground arith in ground (arith, is_prefix_trans xs ys zs h' k')

is_prefix-common : (out xs ys : Key) → is_prefix (out ++ xs) (out ++ ys) ≡ is_prefix xs ys
unfolding is_prefix
is_prefix-common [] xs ys = refl
is_prefix-common (o ∷ out) xs ys = rw ((==_iff o o).1 refl) (is_prefix-common out xs ys)

is_prefix_refl : (xs : Key) → is_prefix xs xs ≡ true
unfolding is_prefix
is_prefix_refl [] = refl
is_prefix_refl (x ∷ xs) = rw ((==_iff x x).1 refl) (is_prefix_refl xs)

after_sub-grows :
    (single : Bool) (found : Indexed) (allow : Bool) (out : Key) (later : Key → Indexed) (k : Key)
    → ((v : Key) → later v ≡ some (some k) → is_prefix out k ≡ true)
    → after_sub single found allow out later ≡ some (some k)
    → is_prefix out k ≡ true
unfolding after_sub
after_sub-grows false found allow out later k h e = cc
after_sub-grows true none allow out later k h e = cc
after_sub-grows true (some none) true out later k h e =
    let same : out ≡ k = cc in rw (← same) (is_prefix_refl out)
after_sub-grows true (some none) false out later k h e = cc
after_sub-grows true (some (some v)) allow out later k h e = h v e

after_sub-found :
    (single : Bool) (found : Indexed) (allow : Bool) (out : Key) (later : Key → Indexed) (v : Key)
    → single ≡ true
    → found ≡ some (some v)
    → after_sub single found allow out later ≡ later v
unfolding after_sub
after_sub-found single found allow out later v one e = rw (one, e) refl

module _ {Obj : Type 0} where
  -- Every sub-index is a SingleIndexer that has a value for the object, and builds the same from
  -- its argument.
  abbrev pub IsAsked : List (Sub Obj) → List Value → Obj → Type 0
  IsAsked [] [] obj = Unit
  IsAsked [] (a ∷ bs) obj = ⊥
  IsAsked (s ∷ ss) [] obj = ⊥
  IsAsked (s ∷ ss) (a ∷ bs) obj =
      (s.is_single ≡ true)
      × ((v : Key) × (s.object obj ≡ some (some v)) × (s.args (a ∷ []) ≡ some v))
      × IsAsked ss bs obj

  -- The same of the first sub-indexes, where the last argument builds a prefix of the value.
  abbrev pub IsAskedPrefix : List (Sub Obj) → List Value → Obj → Type 0
  IsAskedPrefix ss [] obj = Unit
  IsAskedPrefix [] (a ∷ bs) obj = ⊥
  IsAskedPrefix (s ∷ ss) (a ∷ []) obj =
      (s.is_single ≡ true)
      × ((v : Key) × (p : Key) × (from : List Value → Option Key) × (s.object obj ≡ some (some v))
          × (s.prefix ≡ some from)
          × (from (a ∷ []) ≡ some p)
          × (is_prefix p v ≡ true))
  IsAskedPrefix (s ∷ ss) (a ∷ b ∷ bs) obj =
      (s.is_single ≡ true)
      × ((v : Key) × (s.object obj ≡ some (some v)) × (s.args (a ∷ []) ≡ some v))
      × IsAskedPrefix ss (b ∷ bs) obj

  asked_length :
      (ss : List (Sub Obj)) (bs : List Value) (obj : Obj)
      → IsAsked ss bs obj
      → length bs ≡ length ss
  asked_length [] [] obj h = refl
  asked_length [] (a ∷ bs) obj h = absurd h
  asked_length (s ∷ ss) [] obj h = absurd h
  asked_length (s ∷ ss) (a ∷ bs) obj (one, v, h) = ap suc (asked_length ss bs obj h)

  loops :
      (ss : List (Sub Obj)) (bs : List Value) (allow : Bool) (obj : Obj) (out : Key)
      → IsAsked ss bs obj
      → (k : Key) × (object_loop ss allow obj out ≡ some (some k)) × (args_loop ss bs out ≡ some k)
  unfolding object_loop args_loop
  loops [] [] allow obj out h = (out, refl, refl)
  loops [] (a ∷ bs) allow obj out h = absurd h
  loops (s ∷ ss) [] allow obj out h = absurd h
  loops (s ∷ ss) (a ∷ bs) allow obj out (one, (v, found, asked), h) =
      let (k, x, y) = loops ss bs allow obj (out ++ v) h in (k, rw (one, found) x, rw asked y)

  -- If every sub-index has a value for the object and builds it from its argument, the query
  -- builds exactly the object's key.
  pub compound_args-object :
      (ss : List (Sub Obj)) (bs : List Value) (allow : Bool) (obj : Obj)
      → IsAsked ss bs obj
      → (k : Key) × (compound_object ss allow obj ≡ some (some k)) × (compound_args ss bs ≡ some k)
  unfolding compound_object compound_args
  compound_args-object ss bs allow obj h =
      let (k, x, y) = loops ss bs allow obj [] h in
      let same : (length bs == length ss) ≡ true =
        (==_iff (length bs) (length ss)).1 (asked_length ss bs obj h) in
      (k, x, rw same y)

  grows :
      (ss : List (Sub Obj)) (allow : Bool) (obj : Obj) (out k : Key)
      → object_loop ss allow obj out ≡ some (some k)
      → is_prefix out k ≡ true
  unfolding object_loop
  grows [] allow obj out k e = let same : out ≡ k = cc in rw (← same) (is_prefix_refl out)
  grows (s ∷ ss) allow obj out k e =
      after_sub-grows s.is_single (s.object obj) allow out _ k
        (λ v e'.
          is_prefix_trans out (out ++ v) k (is_prefix-append out v)
            (grows ss allow obj (out ++ v) k e'))
        e

  prefixes :
      (ss : List (Sub Obj)) (args : List Value) (allow : Bool) (obj : Obj) (out k : Key)
      → IsAskedPrefix ss args obj
      → object_loop ss allow obj out ≡ some (some k)
      → (x : Key) × (prefix_loop ss args out ≡ some x) × (is_prefix x k ≡ true)
  unfolding object_loop prefix_loop last_prefix after_sub
  prefixes ss [] allow obj out k h e = (out, refl, grows ss allow obj out k e)
  prefixes [] (a ∷ bs) allow obj out k h e = absurd h
  prefixes (s ∷ ss) (a ∷ []) allow obj out k (one, (v, p, from, found, has, asked, starts)) e =
      let e' = sym (after_sub-found s.is_single (s.object obj) allow out _ v one found) ∙ e in
      (
        out ++ p,
        rw (has, asked) refl,
        is_prefix_trans (out ++ p) (out ++ v) k (is_prefix-common out p v ∙ starts)
            (grows ss allow obj (out ++ v) k e'),
      )
  prefixes (s ∷ ss) (a ∷ b ∷ bs) allow obj out k (one, (v, found, asked), h) e =
      let e' = sym (after_sub-found s.is_single (s.object obj) allow out _ v one found) ∙ e in
      let (x, run, starts) = prefixes ss (b ∷ bs) allow obj (out ++ v) k h e' in
      (x, rw asked run, starts)

  -- If an object has a key, and the first sub-indexes have values for it that they build from
  -- their arguments, of the last one a prefix, then the prefix query builds a prefix of the key.
  pub compound_prefix_args-object :
      (ss : List (Sub Obj)) (args : List Value) (allow : Bool) (obj : Obj) (k : Key)
      → length args ≤ length ss
      → IsAskedPrefix ss args obj
      → compound_object ss allow obj ≡ some (some k)
      → (x : Key) × (compound_prefix_args ss args ≡ some x) × (is_prefix x k ≡ true)
  unfolding compound_object compound_prefix_args
  compound_prefix_args-object ss args allow obj k few h e =
      let (x, run, starts) = prefixes ss args allow obj [] k h e in
      let fits : ltb (length ss) (length args) ≡ false = ground arith in (x, rw fits run, starts)
