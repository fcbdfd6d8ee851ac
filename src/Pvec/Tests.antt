-- ===== src/Pvec/Tests.antt =====
-- Runs of pvec.go on small vectors.
use go_maemmidb.Base.{ℕ, ◌≡◌, refl, arith, [], ◌∷◌, map, none, some}
use go_maemmidb.Pvec.{Vector, empty, len, get, set, cursor, scan}
use go_maemmidb.Pvec.Laws.{IsValid, Writes, set-Writes, get-set}
use go_maemmidb.Pvec.Counts.{bit_of}
use go_maemmidb.Base.{◌+◌, ◌==◌, if◌then◌else◌}
use go_maemmidb.Pvec.Scan.{scan-cursor}

-- A vector that a write at index 600 has made two directory levels tall.
abbrev one_row : Vector ℕ
one_row = set ℕ (empty ℕ) 600 (some 7)

abbrev two_rows : Vector ℕ
two_rows = set ℕ one_row 3 (some 9)

grows : two_rows.height ≡ 2
unfolding set
grows = refl

reads : map (get ℕ two_rows) (600 ∷ 3 ∷ 4 ∷ 70000 ∷ []) ≡ some 7 ∷ some 9 ∷ none ∷ none ∷ []
unfolding get set
reads = refl

unset_all : set ℕ (set ℕ two_rows 3 none) 600 none ≡ empty ℕ
unfolding set
unset_all = refl

one_row-len : len ℕ one_row ≡ 1
unfolding set len
one_row-len = refl

first_write : Writes ℕ (empty ℕ) 600 (some 7) one_row
unfolding len
first_write = set-Writes ℕ (empty ℕ) 600 (some 7) tt (omega arith) (omega arith)

get-set_example :
    IsValid ℕ two_rows
    × (get ℕ two_rows 600 ≡ (if 3 == 600 then some 9 else get ℕ one_row 600))
    × (len ℕ two_rows + bit_of (get ℕ one_row 3) ≡ len ℕ one_row + bit_of {A = ℕ} (some 9))
get-set_example =
    get-set ℕ one_row 3 (some 9) 600 first_write.valid (omega (arith, one_row-len)) (omega arith)
      (omega arith)

scan-cursor_example :
    scan ℕ (cursor ℕ two_rows) (600 ∷ 3 ∷ 600 ∷ []) ≡ map (get ℕ two_rows) (600 ∷ 3 ∷ 600 ∷ [])
scan-cursor_example = scan-cursor ℕ two_rows (600 ∷ 3 ∷ 600 ∷ [])
