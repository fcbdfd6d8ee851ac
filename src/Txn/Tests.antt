-- ===== src/Txn/Tests.antt =====
-- Runs of txn.go over an engine whose trees are functions, with objects that are pairs of numbers.
use go_maemmidb.Base.{
  ℕ, ◌≡◌, refl, ap, sym, true, false, ◌&&◌, [], ◌∷◌, Option, none, some, if◌then◌else◌, ◌==◌,
}
use go_maemmidb.Txn.{
  Key, same_key, Outcome, ok, failed, Engine, Index, Table, Books, Move, apply_move, index_missing,
  not_found, primary_key,
}
use go_maemmidb.Txn.Trees.{IsMap}
use go_maemmidb.Txn.Replacing.{lists, get-apply_move}
use go_maemmidb.Txn.Writes.{Root, Txn, readable_index, insert, delete}
use go_maemmidb.Txn.Views.{reads}
use go_maemmidb.Txn.Deferred.{Deferred, nothing, defer, run, run-defer}
use go_maemmidb.Txn.Ends.{commit, Db, snapshot}
use go_maemmidb.Txn.Published.{IsCompiled, has_ord, reads-commit, reads-snapshot}
use mathlib.Core.Logic.{inl}
use go_maemmidb.Txn.Atomic.{IsPlaced, insert-reads, delete-reads}
use go_maemmidb.Txn.Stored.{insert-stored, delete-stored}

-- A row: its number, and the number of an owner, 0 for none.
abbrev Row : Type 0
Row = ℕ × ℕ

abbrev functions : Engine Row
functions = record {
  Tree = Key → Option Row;
  Work = Key → Option Row;
  get = λ t k. t k;
  begin = λ t. t;
  tree = λ x. x;
  insert = λ x k v. (x k, λ j. if same_key k j then some v else x j);
  delete = λ x k. (x k, λ j. if same_key k j then none else x j);
  commit = λ x. x;
}

functions-IsMap : IsMap functions
functions-IsMap = record {
  get-begin = λ t k. refl;
  get-commit = λ x k. refl;
  insert_old = λ x k v. refl;
  get-insert = λ x k v j. refl;
  delete_old = λ x k. refl;
  get-delete = λ x k j. refl;
}

abbrev no_books : Books Row
no_books = record {
  Rows = Unit;
  Moves = Unit;
  keys = λ ct obj existing. ok tt;
  apply = λ moves obj existing id rows. some tt;
}

abbrev by_number : Index Row
by_number = record {
  name = 1 ∷ [];
  slot = 0;
  ord = 0;
  unique = true;
  allow_missing = false;
  values = λ r. some (some ((r.0 ∷ []) ∷ []));
}

abbrev by_owner : Index Row
by_owner = record {
  name = 2 ∷ [];
  slot = 1;
  ord = 1;
  unique = false;
  allow_missing = false;
  values = λ r. some (if r.1 == 0 then none else some ((r.1 ∷ []) ∷ []));
}

abbrev rows_table : Table Row
rows_table = record { ord = 0; primary = by_number; ordinary = by_owner ∷ []; has_bitmaps = false }

abbrev schema : Key → Option (Table Row)
schema name = some rows_table

abbrev start : Txn functions no_books
start = record {
  root = some (record { trees = λ s k. none; ext = λ o. tt });
  tables = [];
  write = true;
  changes = some [];
}

abbrev after : Option (Outcome Unit × Txn functions no_books) → Txn functions no_books
after none = start
after (some r) = r.1

abbrev one_row : Txn functions no_books
one_row = after (insert functions no_books schema start [] (7, 3))

inserted : insert functions no_books schema start [] (7, 3) ≡ some (ok tt, one_row)
unfolding insert
inserted = refl

-- The row can be read by its number, and by its owner with the number appended.
both_indexes :
    (reads functions no_books one_row 0 by_number (7 ∷ []) ≡ some (7, 3))
    × (reads functions no_books one_row 0 by_owner (3 ∷ 7 ∷ []) ≡ some (7, 3))
unfolding insert reads readable_index
both_indexes = (refl, refl)

-- An update without an owner fails.
abbrev refused : Txn functions no_books
refused = after (insert functions no_books schema one_row [] (7, 0))

fails :
    insert functions no_books schema one_row [] (7, 0)
    ≡ some (failed (index_missing (2 ∷ [])), refused)
unfolding insert
fails = refl

abbrev missed : Txn functions no_books
missed = after (delete functions no_books schema one_row [] (8, 1))

finds_nothing : delete functions no_books schema one_row [] (8, 1) ≡ some (failed not_found, missed)
unfolding delete insert
finds_nothing = refl

abbrev emptied : Txn functions no_books
emptied = after (delete functions no_books schema one_row [] (7, 9))

deleted : delete functions no_books schema one_row [] (7, 9) ≡ some (ok tt, emptied)
unfolding delete insert
deleted = refl

placed : IsPlaced functions no_books functions-IsMap schema 0 by_number
placed name ct found ord index =
    let same : rows_table ≡ ct = cc in ap (λ t. t.primary.slot) (sym same)

insert-reads_example :
    reads functions no_books refused 0 by_number (7 ∷ [])
    ≡ reads functions no_books one_row 0 by_number (7 ∷ [])
insert-reads_example =
    insert-reads functions no_books functions-IsMap schema one_row refused [] (7, 0)
      (index_missing (2 ∷ [])) fails 0 by_number (7 ∷ []) placed

delete-reads_example :
    reads functions no_books missed 0 by_number (7 ∷ [])
    ≡ reads functions no_books one_row 0 by_number (7 ∷ [])
delete-reads_example =
    delete-reads functions no_books functions-IsMap schema one_row missed [] (8, 1) not_found
      finds_nothing 0 by_number (7 ∷ []) placed

insert-stored_example : reads functions no_books one_row 0 by_number (7 ∷ []) ≡ (
    if same_key (7 ∷ []) (7 ∷ [])
    then some (7, 3)
    else reads functions no_books start 0 by_number (7 ∷ []))
unfolding primary_key
insert-stored_example =
    insert-stored functions no_books functions-IsMap schema start one_row [] (7, 3) rows_table
      (7 ∷ []) (7 ∷ []) (refl, tt) refl refl inserted

delete-stored_example : reads functions no_books emptied 0 by_number (7 ∷ []) ≡ (
    if same_key (7 ∷ []) (7 ∷ [])
    then none
    else reads functions no_books one_row 0 by_number (7 ∷ []))
unfolding primary_key
delete-stored_example =
    delete-stored functions no_books functions-IsMap schema one_row emptied [] (7, 9) rows_table
      (7 ∷ []) (7 ∷ []) (refl, tt) refl refl deleted

abbrev owned : Key → Option Row
owned k = if same_key (3 ∷ 7 ∷ []) k then some (7, 3) else none

abbrev moved : Move
moved = record { new_keys = (4 ∷ 7 ∷ []) ∷ []; old_keys = (3 ∷ 7 ∷ []) ∷ []; ok_old = true }

get-apply_move_example : apply_move functions owned moved (7, 4) (3 ∷ 7 ∷ []) ≡ (
    if lists moved.new_keys (3 ∷ 7 ∷ [])
    then some (7, 4)
    else if moved.ok_old && lists moved.old_keys (3 ∷ 7 ∷ [])
    then none
    else owned (3 ∷ 7 ∷ []))
get-apply_move_example = get-apply_move functions functions-IsMap owned moved (7, 4) (3 ∷ 7 ∷ [])

abbrev one_deferred : Deferred ℕ
one_deferred = defer nothing (some 1)

abbrev two_deferred : Deferred ℕ
two_deferred = defer one_deferred (some 2)

run-defer_example : run two_deferred ≡ some (2 ∷ 1 ∷ [])
unfolding run defer
run-defer_example = run-defer one_deferred 2 (1 ∷ []) refl

abbrev fresh_db : Db functions no_books
fresh_db = record { root = record { trees = λ s k. none; ext = λ o. tt }; locked = true }

one_row-IsCompiled : IsCompiled functions no_books 0 by_owner one_row.tables
unfolding insert has_ord
one_row-IsCompiled = inl (refl, (refl, (refl, tt)), refl, tt)

abbrev fresh_root : Root functions no_books
fresh_root = record { trees = λ s k. none; ext = λ o. tt }

reads-commit_example :
    (now : Db functions no_books) × (ended : Txn functions no_books) × (commit functions no_books
        fresh_db one_row two_deferred
      ≡ some (now, (ended, 2 ∷ 1 ∷ [])))
    × (now.locked ≡ false)
    × (ended.root ≡ none)
    × (functions.get (now.root.trees by_owner.slot) (3 ∷ 7 ∷ [])
        ≡ reads functions no_books one_row 0 by_owner (3 ∷ 7 ∷ []))
unfolding insert run defer
reads-commit_example =
    reads-commit functions no_books functions-IsMap fresh_db one_row fresh_root two_deferred
      (2 ∷ 1 ∷ []) 0 by_owner (3 ∷ 7 ∷ []) refl refl refl one_row-IsCompiled

reads-snapshot_example :
    (s : Txn functions no_books) × (snapshot functions no_books one_row ≡ some s)
    × (reads functions no_books s 0 by_owner (3 ∷ 7 ∷ [])
        ≡ reads functions no_books one_row 0 by_owner (3 ∷ 7 ∷ []))
unfolding insert
reads-snapshot_example =
    reads-snapshot functions no_books one_row fresh_root 0 by_owner (3 ∷ 7 ∷ []) refl
      one_row-IsCompiled
