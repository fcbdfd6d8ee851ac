-- ===== src/Txn/Deferred.antt =====
-- txn.go: the deferred functions of a transaction. A nil function is `none`; calling it panics.
use go_maemmidb.Base.{
  ◌≡◌, refl, sym, ap, ◌∙◌, List, [], ◌∷◌, ◌++◌, Option, none, some, ◌>>=◌, inl, inr, Option-cases,
}

pub record Deferred (F : Type 0) : Type 0 where
  pub after : Option F
  pub more : Option (List (Option F))

module _ {F : Type 0} where
  abbrev pub nothing : Deferred F
  nothing = record { after = none; more = none }

  unfoldable pub push : Option F → Option (List (Option F)) → Option F → Deferred F
  push none none (some f) = record { after = some f; more = none }
  push after none f = record { after = after; more = some (f ∷ []) }
  push after (some fs) f = record { after = after; more = some (fs ++ f ∷ []) }

  -- Txn.Defer in a write transaction
  unfoldable pub defer : Deferred F → Option F → Deferred F
  unfolding push
  defer d f = push d.after d.more f

  -- The loop of Commit over afterMore, from its end: the functions in the order of the calls.
  unfoldable pub run_more : List (Option F) → Option (List F)
  run_more [] = some []
  run_more (f ∷ fs) = run_more fs >>= λ later. f >>= λ g. some (later ++ g ∷ [])

  unfoldable pub run_after : Option F → List F → List F
  run_after none calls = calls
  run_after (some f) calls = calls ++ f ∷ []

  -- "Run the deferred functions, if any"
  unfoldable pub run : Deferred F → Option (List F)
  unfolding run_more run_after
  run d = elim d.more [
    | none ↦ some (run_after d.after [])
    | some fs ↦ run_more fs >>= λ calls. some (run_after d.after calls)
  ]

  run_after-first :
      (after : Option F) (f : F) (calls : List F)
      → run_after after (f ∷ calls) ≡ f ∷ run_after after calls
  unfolding run_after
  run_after-first none f calls = refl
  run_after-first (some g) f calls = refl

  run_more-append :
      (fs : List (Option F)) (f : F)
      → run_more (fs ++ some f ∷ []) ≡ (run_more fs >>= λ calls. some (f ∷ calls))
  unfolding run_more
  run_more-append [] f = refl
  run_more-append (none ∷ fs) f =
      rw (run_more-append fs f)
        (elim (Option-cases (run_more fs)) [ inl e ↦ rw e refl | inr (calls, e) ↦ rw e refl ])
  run_more-append (some g ∷ fs) f =
      rw (run_more-append fs f)
        (elim (Option-cases (run_more fs)) [ inl e ↦ rw e refl | inr (calls, e) ↦ rw e refl ])

  run-push :
      (after : Option F) (more : Option (List (Option F))) (f : F) (calls : List F)
      → run (record { after = after; more = more }) ≡ some calls
      → run (push after more (some f)) ≡ some (f ∷ calls)
  unfolding run push run_after
  run-push none none f calls e = let same : [] ≡ calls = cc in ap (λ c. some (f ∷ c)) same
  run-push (some g) none f calls e = let same : g ∷ [] ≡ calls = cc in ap (λ c. some (f ∷ c)) same
  run-push after (some fs) f calls e = elim (Option-cases (run_more fs)) [
    | inl gone ↦
        let clash : none ≡ some calls =
          ap (λ r. r >>= λ c. some (run_after after c)) (sym gone) ∙ e in
        cc
    | inr (later, found) ↦
        let same : some (run_after after later) ≡ some calls =
          ap (λ r. r >>= λ c. some (run_after after c)) (sym found) ∙ e in
        let pushed : run_after after (f ∷ later) ≡ f ∷ run_after after later =
          run_after-first after f later in
        rw (run_more-append fs f, found) (ap some pushed ∙ ap (λ r. r >>= λ c. some (f ∷ c)) same)
  ]

  -- A function that is deferred is called before all that were deferred earlier, whose order
  -- stays, given that their calls do not panic.
  pub run-defer :
      (d : Deferred F) (f : F) (calls : List F)
      → run d ≡ some calls
      → run (defer d (some f)) ≡ some (f ∷ calls)
  unfolding defer
  run-defer d f calls e = run-push d.after d.more f calls e
