-- ===== src/Strings/Laws.antt =====
-- Queries of a StringMapFieldIndex of index.go against the keys of an object.
use go_maemmidb.Base.{
  ◌≡◌, ◌⊎◌, refl, ap, sym, ◌∙◌, Bool, false, List, [], ◌∷◌, ◌++◌, some, inl, inr, Bool-cases,
}
use go_maemmidb.Keys.{Text, text}
use go_maemmidb.Strings.{
  is_empty_text, cased, entry_key, map_keys, unless_none, from_object, from_args,
}

abbrev pub In : {A : Type 0} → A → List A → Type 0
In a [] = ⊥
In a (x ∷ xs) = (x ≡ a) ⊎ In a xs

append_zero : (xs ys : Text) → (xs ++ 0 ∷ []) ++ ys ≡ xs ++ 0 ∷ ys
append_zero [] ys = refl
append_zero (x ∷ xs) ys = ap (λ zs. x ∷ zs) (append_zero xs ys)

module _ (lower : Text → Text) (lowercase : Bool) where
  In-map_keys :
      (es : List (Text × Text)) (e : Text × Text)
      → In e es
      → is_empty_text e.0 ≡ false
      → In (entry_key lower lowercase e) (map_keys lower lowercase es)
  unfolding map_keys
  In-map_keys [] e at kept = absurd at
  In-map_keys (x ∷ xs) e (inl same) kept =
      let kept' : is_empty_text x.0 ≡ false = ap (λ y. is_empty_text y.0) same ∙ kept in
      rw kept' (inl (ap (entry_key lower lowercase) same))
  In-map_keys (x ∷ xs) e (inr later) kept = elim (Bool-cases (is_empty_text x.0)) [
    | inl b ↦ rw b (In-map_keys xs e later kept)
    | inr b ↦ rw b (inr (In-map_keys xs e later kept))
  ]

  given : (vs : List Text) (v : Text) → In v vs → unless_none lower lowercase vs ≡ some vs
  unfolding unless_none
  given [] v at = absurd at
  given (x ∷ xs) v at = refl

  -- For an entry of the map whose key is not empty: the object has values, the two-argument query
  -- builds one of them exactly, and the one-argument query builds a prefix of that value. So a
  -- search by prefix finds the object with one argument too.
  pub from_args-from_object :
      (es : List (Text × Text)) (k v : Text)
      → In (k, v) es
      → is_empty_text k ≡ false
      → (vals : List Text) × (value : Text) × (start : Text) × (rest : Text) × (from_object lower
            lowercase es
          ≡ some vals)
        × In value vals
        × (from_args lower lowercase (text k ∷ text v ∷ []) ≡ some value)
        × (from_args lower lowercase (text k ∷ []) ≡ some start)
        × (value ≡ start ++ rest)
  unfolding from_object from_args entry_key
  from_args-from_object es k v at kept =
      let low = cased lower lowercase in
      let found = In-map_keys es (k, v) at kept in
      (
        map_keys lower lowercase es,
        entry_key lower lowercase (k, v),
        low k ++ 0 ∷ [],
        low v ++ 0 ∷ [],
        given (map_keys lower lowercase es) (entry_key lower lowercase (k, v)) found,
        found,
        ap some (append_zero (low k) (low v ++ 0 ∷ [])),
        refl,
        sym (append_zero (low k) (low v ++ 0 ∷ [])),
      )
