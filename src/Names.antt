-- ===== src/Names.antt =====
-- schema_compile.go: the index that resolves names, nameIndex.get. A name is its bytes; `none` around
-- a result is a panic.
pub mod Order
pub mod Lookup
pub mod Tests
use go_maemmidb.Base.{
  ℕ, zero, suc, ◌+◌, ◌-◌, ◌/◌, Bool, true, false, not, ◌||◌, List, [], ◌∷◌, Option, none, some,
  ◌>>=◌, ltb, leb, if◌then◌else◌, length, get_elem?, take, drop,
}
use go_maemmidb.Keys.{Text}
use go_maemmidb.Keys.Bytes.{less_bytes}
use go_maemmidb.Txn.{same_key}

pub record NameEntry (V : Type 0) : Type 0 where
  pub name : Text
  pub val : V

-- The names of length l are entries[off[l]:off[l+1]].
pub record NameIndex (V : Type 0) : Type 0 where
  pub entries : List (NameEntry V)
  pub off : List ℕ

abbrev pub crowded_length : ℕ
crowded_length = 4

-- `xs[lo:hi]`, which panics out of range
unfoldable pub slice : {A : Type 0} → List A → ℕ → ℕ → Option (List A)
slice xs lo hi =
    if ltb hi lo || ltb (length xs) hi then none else some (take (hi - lo) (drop lo xs))

module _ {V : Type 0} where
  -- The loop of get over a bucket.
  unfoldable pub find : List (NameEntry V) → Text → Option V
  unfolding same_key
  find [] name = none
  find (e ∷ es) name = let rest = find es name in if same_key e.name name then some e.val else rest

  -- The loop of get that bisects a bucket: `none` where it panics, and where its condition still
  -- holds when the fuel has run out.
  unfoldable pub bisect : ℕ → List (NameEntry V) → Text → ℕ → ℕ → Option ℕ
  unfolding less_bytes
  bisect zero bucket name lo hi = if ltb lo hi then none else some lo
  bisect (suc fuel) bucket name lo hi =
      let mid = (lo + hi) / 2 in
      let right = bisect fuel bucket name (mid + 1) hi in
      let left = bisect fuel bucket name lo mid in
      if ltb lo hi
      then (get_elem? bucket mid >>= λ e. if less_bytes e.name name then right else left)
      else some lo

  -- `bucket = bucket[lo:min(lo+1, len(bucket))]`
  unfoldable pub narrowed : List (NameEntry V) → ℕ → Option (List (NameEntry V))
  unfolding slice
  narrowed bucket lo =
      slice bucket lo (if leb (lo + 1) (length bucket) then lo + 1 else length bucket)

  -- The search of a bucket; each round of the bisection makes it shorter, so its length is enough
  -- fuel.
  unfoldable pub search_bucket : List (NameEntry V) → Text → Option (Option V)
  unfolding find bisect narrowed
  search_bucket bucket name =
      if ltb crowded_length (length bucket)
      then (bisect (length bucket) bucket name 0 (length bucket) >>= λ lo.
          narrowed bucket lo >>= λ one. some (find one name))
      else some (find bucket name)

  -- nameIndex.get
  unfoldable pub get_name : NameIndex V → Text → Option (Option V)
  unfolding slice search_bucket
  get_name x name =
      if ltb (length name + 1) (length x.off)
      then (get_elem? x.off (length name) >>= λ lo. get_elem? x.off (length name + 1) >>= λ hi.
          slice x.entries lo hi >>= λ bucket. search_bucket bucket name)
      else some none
