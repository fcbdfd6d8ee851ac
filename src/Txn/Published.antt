-- ===== src/Txn/Published.antt =====
-- What Commit and Snapshot of txn.go publish is what the transaction reads.
use go_maemmidb.Base.{
  ℕ, ◌≡◌, ◌⊎◌, refl, ap, ◌∙◌, Bool, true, false, ◌||◌, arith, List, [], ◌∷◌, Option, none, some,
  ◌>>=◌, ◌==◌, ==_iff, inl, inr, Bool-cases, Option-cases, Every,
}
use go_maemmidb.Txn.{Key, Engine, Index, Books}
use go_maemmidb.Txn.Trees.{IsMap}
use go_maemmidb.Txn.Writes.{Root, TableTxn, Txn, tree_in, readable_index}
use go_maemmidb.Txn.Views.{reads}
use go_maemmidb.Txn.Deferred.{Deferred, run}
use go_maemmidb.Txn.Ends.{
  all_indexes, Db, publish_index, publish_indexes, publish, next_root, frozen_root, commit,
  commit_as, snapshot,
}

unfoldable pub has_ord : {Obj : Type 0} → List (Index Obj) → ℕ → Bool
has_ord [] n = false
has_ord (ci ∷ cis) n = ci.ord == n || has_ord cis n

-- No index has the tree slot.
abbrev pub IsElsewhere : {Obj : Type 0} → ℕ → List (Index Obj) → Type 0
IsElsewhere s cis = Every (λ ci. (ci.slot == s) ≡ false) cis

module _ {Obj : Type 0} (E : Engine Obj) (B : Books Obj) where
  -- The tables written so far, one entry for each, as a compiled schema numbers them: the index
  -- `ci` of the table at `ord` has a slot of its own.
  abbrev pub IsCompiled : ℕ → Index Obj → List (TableTxn E B) → Type 0
  IsCompiled ord ci [] = Unit
  IsCompiled ord ci (te ∷ ts) =
      ((te.table.ord ≡ ord)
        × Every (λ cj. (cj.slot == ci.slot) ≡ (cj.ord == ci.ord)) (all_indexes te.table)
        × (has_ord (all_indexes te.table) ci.ord ≡ true)
        × Every (λ t. IsElsewhere ci.slot (all_indexes t.table)) ts)
      ⊎ (((te.table.ord == ord) ≡ false)
          × IsElsewhere ci.slot (all_indexes te.table)
          × IsCompiled ord ci ts)

  module _ (take : E.Work → E.Tree) where
    unmoved :
        (trees : ℕ → E.Tree) (o : Option E.Work) (slot s : ℕ)
        → (slot == s) ≡ false
        → publish_index E B take trees o slot s ≡ trees s
    unfolding publish_index
    unmoved trees none slot s away = refl
    unmoved trees (some x) slot s away = rw away refl

    publish_indexes-elsewhere :
        (trees : ℕ → E.Tree) (te : TableTxn E B) (cis : List (Index Obj)) (s : ℕ)
        → IsElsewhere s cis
        → publish_indexes E B take trees te cis s ≡ trees s
    unfolding publish_indexes
    publish_indexes-elsewhere trees te [] s away = refl
    publish_indexes-elsewhere trees te (ci ∷ cis) s away =
        publish_indexes-elsewhere (publish_index E B take trees (te.idx ci.ord) ci.slot) te cis s
          away.1
        ∙ unmoved trees (te.idx ci.ord) ci.slot s away.0

    unpublished :
        (trees : ℕ → E.Tree) (slot s : ℕ) → publish_index E B take trees none slot s ≡ trees s
    unfolding publish_index
    unpublished trees slot s = refl

    published :
        (trees : ℕ → E.Tree) (x : E.Work) (slot s : ℕ)
        → (slot == s) ≡ true
        → publish_index E B take trees (some x) slot s ≡ take x
    unfolding publish_index
    published trees x slot s here = rw here refl

    publish-elsewhere :
        (trees : ℕ → E.Tree) (ts : List (TableTxn E B)) (s : ℕ)
        → Every (λ t. IsElsewhere s (all_indexes t.table)) ts
        → publish E B take trees ts s ≡ trees s
    unfolding publish
    publish-elsewhere trees [] s away = refl
    publish-elsewhere trees (te ∷ ts) s away =
        publish-elsewhere (publish_indexes E B take trees te (all_indexes te.table)) ts s away.1
        ∙ publish_indexes-elsewhere trees te (all_indexes te.table) s away.0

    -- An index that was not written keeps its tree.
    publish_indexes-unwritten :
        (trees : ℕ → E.Tree) (te : TableTxn E B) (cis : List (Index Obj)) (ci : Index Obj)
        → Every (λ cj. (cj.slot == ci.slot) ≡ (cj.ord == ci.ord)) cis
        → te.idx ci.ord ≡ none
        → publish_indexes E B take trees te cis ci.slot ≡ trees ci.slot
    unfolding publish_indexes
    publish_indexes-unwritten trees te [] ci agree gone = refl
    publish_indexes-unwritten trees te (cj ∷ cis) ci agree gone =
        publish_indexes-unwritten (publish_index E B take trees (te.idx cj.ord) cj.slot) te cis ci
          agree.1 gone
        ∙ elim (Bool-cases (cj.ord == ci.ord)) [
          | inr o ↦ unmoved trees (te.idx cj.ord) cj.slot ci.slot (agree.0 ∙ o)
          | inl o ↦
              let none_here : te.idx cj.ord ≡ none =
                ap te.idx ((==_iff cj.ord ci.ord).0 o) ∙ gone in
              ap (λ w. publish_index E B take trees w cj.slot ci.slot) none_here
              ∙ unpublished trees cj.slot ci.slot
        ]

    -- An index that was written gets the tree that is taken of it.
    publish_indexes-written :
        (trees : ℕ → E.Tree) (te : TableTxn E B) (cis : List (Index Obj)) (ci : Index Obj)
        (x : E.Work)
        → Every (λ cj. (cj.slot == ci.slot) ≡ (cj.ord == ci.ord)) cis
        → te.idx ci.ord ≡ some x
        → (trees ci.slot ≡ take x) ⊎ (has_ord cis ci.ord ≡ true)
        → publish_indexes E B take trees te cis ci.slot ≡ take x
    unfolding publish_indexes has_ord
    publish_indexes-written trees te [] ci x agree found (inl already) = already
    publish_indexes-written trees te [] ci x agree found (inr listed) = cc
    publish_indexes-written trees te (cj ∷ cis) ci x agree found which =
        publish_indexes-written (publish_index E B take trees (te.idx cj.ord) cj.slot) te cis ci x
          agree.1 found
          (elim (Bool-cases (cj.ord == ci.ord)) [
            | inl o ↦
                let here : te.idx cj.ord ≡ some x =
                  ap te.idx ((==_iff cj.ord ci.ord).0 o) ∙ found in
                inl (
                  ap (λ w. publish_index E B take trees w cj.slot ci.slot) here
                  ∙ published trees x cj.slot ci.slot (agree.0 ∙ o))
            | inr o ↦ elim which [
              | inl already ↦
                  inl (unmoved trees (te.idx cj.ord) cj.slot ci.slot (agree.0 ∙ o) ∙ already)
              | inr listed ↦ inr (ground arith)
            ]
          ])

    get-publish :
        (root : Root E B) (trees : ℕ → E.Tree) (ts : List (TableTxn E B)) (ord : ℕ) (ci : Index Obj)
        (k : Key)
        → ((x : E.Work) (j : Key) → E.get (take x) j ≡ E.get (E.tree x) j)
        → IsCompiled ord ci ts
        → trees ci.slot ≡ root.trees ci.slot
        → E.get (publish E B take trees ts ci.slot) k ≡ E.get (readable_index E B root ts ord ci) k
    unfolding publish readable_index tree_in
    get-publish root trees [] ord ci k agrees compiled same = ap (λ t. E.get t k) same
    get-publish root trees (te ∷ ts) ord ci k agrees (inl (here, agree, listed, others)) same =
        let next = publish_indexes E B take trees te (all_indexes te.table) in
        ap (λ t. E.get t k) (publish-elsewhere next ts ci.slot others)
        ∙ rw ((==_iff te.table.ord ord).1 here) (elim (Option-cases (te.idx ci.ord)) [
          | inl gone ↦
              rw (tree_in, gone)
                (ap (λ t. E.get t k)
                  (publish_indexes-unwritten trees te (all_indexes te.table) ci agree gone ∙ same))
          | inr (x, found) ↦
              rw (tree_in, found)
                (ap (λ t. E.get t k)
                    (publish_indexes-written trees te (all_indexes te.table) ci x agree found
                      (inr listed))
                  ∙ agrees x k)
        ])
    get-publish root trees (te ∷ ts) ord ci k agrees (inr (other, away, compiled)) same =
        let next = publish_indexes E B take trees te (all_indexes te.table) in
        get-publish root next ts ord ci k agrees compiled
          (publish_indexes-elsewhere trees te (all_indexes te.table) ci.slot away ∙ same)
        ∙ rw other refl

  get-frozen_root :
      (root : Root E B) (txn : Txn E B) (ord : ℕ) (ci : Index Obj) (k : Key)
      → txn.root ≡ some root
      → IsCompiled ord ci txn.tables
      → E.get ((frozen_root E B root txn.tables).trees ci.slot) k ≡ reads E B txn ord ci k
  unfolding frozen_root reads
  get-frozen_root root txn ord ci k at compiled =
      get-publish (λ x. E.tree x) root root.trees txn.tables ord ci k (λ x j. refl) compiled refl
      ∙ (rw (reads, at) refl)

  -- A Snapshot of a transaction that has not ended, whose written tables are numbered as in a
  -- compiled schema, reads at a key of an index what the transaction reads, uncommitted writes
  -- included.
  pub reads-snapshot :
      (txn : Txn E B) (root : Root E B) (ord : ℕ) (ci : Index Obj) (k : Key)
      → txn.root ≡ some root
      → IsCompiled ord ci txn.tables
      → (s : Txn E B) × (snapshot E B txn ≡ some s)
        × (reads E B s ord ci k ≡ reads E B txn ord ci k)
  unfolding snapshot
  reads-snapshot txn root ord ci k at compiled =
      let taken : Root E B → Txn E B = λ root'. record {
        root = some (frozen_root E B root' txn.tables);
        tables = [];
        write = false;
        changes = none;
      } in
      (
        taken root,
        ap (λ r. r >>= λ root'. some (taken root')) at,
        (unfold reads readable_index in get-frozen_root root txn ord ci k at compiled),
      )

  module _ (laws : IsMap E) where
    get-next_root :
        (root : Root E B) (txn : Txn E B) (ord : ℕ) (ci : Index Obj) (k : Key)
        → txn.root ≡ some root
        → IsCompiled ord ci txn.tables
        → E.get ((next_root E B root txn.tables).trees ci.slot) k ≡ reads E B txn ord ci k
    unfolding next_root reads
    get-next_root root txn ord ci k at compiled =
        get-publish E.commit root root.trees txn.tables ord ci k (λ x j. laws.get-commit x j)
          compiled refl
        ∙ (rw (reads, at) refl)

    commits :
        {F : Type 0} (db : Db E B) (txn : Txn E B) (root : Root E B) (d : Deferred F)
        (calls : List F)
        → txn.write ≡ true
        → txn.root ≡ some root
        → run d ≡ some calls
        → commit E B db txn d
          ≡ some (
            record { root = next_root E B root txn.tables; locked = false },
            (record txn { root = none; tables = [] }, calls),
          )
    unfolding commit commit_as
    commits db txn root d calls writes at runs =
        ap (λ w. commit_as E B db txn d w txn.root) writes
        ∙ ap (λ o. commit_as E B db txn d true o) at
        ∙ ap
            (λ r. r >>= λ cs. some (
              record { root = next_root E B root txn.tables; locked = false },
              (record txn { root = none; tables = [] }, cs),
            ))
            runs

    -- Commit of a write transaction that has not ended, over an engine whose trees are maps, with
    -- deferred functions that do not panic and written tables that are numbered as in a compiled
    -- schema, returns: it calls the functions in their order, releases the writer lock, ends the
    -- transaction, and publishes a root that reads at a key of an index what the transaction read.
    pub reads-commit :
        {F : Type 0} (db : Db E B) (txn : Txn E B) (root : Root E B) (d : Deferred F)
        (calls : List F) (ord : ℕ) (ci : Index Obj) (k : Key)
        → txn.write ≡ true
        → txn.root ≡ some root
        → run d ≡ some calls
        → IsCompiled ord ci txn.tables
        → (now : Db E B) × (ended : Txn E B) × (commit E B db txn d ≡ some (now, (ended, calls)))
          × (now.locked ≡ false)
          × (ended.root ≡ none)
          × (E.get (now.root.trees ci.slot) k ≡ reads E B txn ord ci k)
    reads-commit db txn root d calls ord ci k writes at runs compiled = (
      record { root = next_root E B root txn.tables; locked = false },
      record txn { root = none; tables = [] },
      commits db txn root d calls writes at runs,
      refl,
      refl,
      get-next_root root txn ord ci k at compiled,
    )
