-- ===== src/Names/Tests.antt =====
-- Lookups in a bucket of five names of one length.
use go_maemmidb.Base.{ℕ, ◌≡◌, refl, List, [], ◌∷◌, some, none}
use go_maemmidb.Keys.Bytes.{less_bytes}
use go_maemmidb.Txn.{same_key}
use go_maemmidb.Names.{NameEntry, NameIndex, find, search_bucket, get_name, slice, bisect, narrowed}
use go_maemmidb.Names.Lookup.{ascends, search_bucket-find}

abbrev entry : ℕ → NameEntry ℕ
entry n = record { name = n ∷ []; val = n }

abbrev five_names : List (NameEntry ℕ)
five_names = entry 1 ∷ entry 3 ∷ entry 5 ∷ entry 7 ∷ entry 9 ∷ []

abbrev index : NameIndex ℕ
index = record { entries = five_names; off = 0 ∷ 0 ∷ 5 ∷ [] }

found : get_name index (7 ∷ []) ≡ some (some 7)
unfolding get_name slice search_bucket bisect narrowed find less_bytes same_key
found = refl

missing : get_name index (6 ∷ []) ≡ some none
unfolding get_name slice search_bucket bisect narrowed find less_bytes same_key
missing = refl

search_bucket-find_example : search_bucket five_names (7 ∷ []) ≡ some (find five_names (7 ∷ []))
unfolding ascends less_bytes
search_bucket-find_example = search_bucket-find five_names (7 ∷ []) refl
