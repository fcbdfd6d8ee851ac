-- ===== src/Bitmap/Ops/AndNot.antt =====
-- andNot of ops.go on two trees of one height: the ids of the result.
use go_maemmidb.Base.{
  ℕ, zero, suc, ◌<◌, refl, Bool, ◌&&◌, not, Option, none, some, ◌>>=◌, if◌then◌else◌, inl, inr,
  Bool-cases,
}
use go_maemmidb.Bitmap.{Node, kid}
use go_maemmidb.Bitmap.Shape.{IsShaped, child, member}
use go_maemmidb.Bitmap.Ops.{and_not_node, and_not_words}
use go_maemmidb.Bitmap.Ops.Slots.{IsIdentity, first_or_built-Yields}
use go_maemmidb.Bitmap.Ops.Combine.{Combines, SlotCase, slot_cases, collected, slots-ids}
use go_maemmidb.Bitmap.Ops.Chunks.{
  diff, diff_same, diff_none, Combines-chunk, Combines-same, and_not_words-Chosen,
}

module _ (same : (h : ℕ) → Node h → Node h → Bool) (identity : IsIdentity same) where
  abbrev pub OnlyFirst : (h : ℕ) → Node h → Node h → Type 0
  OnlyFirst h a b =
      (m : Option (Node h)) × Combines diff h (some a) (some b) (and_not_node same h a b) m

  and_not_chunk : (a b : Node 0) → OnlyFirst 0 a b
  unfolding and_not_node
  and_not_chunk a b = elim (Bool-cases (same 0 a b)) [
    | inl e ↦ (
      none,
      Combines-same same identity diff 0 a b (none) _ e (rw e) tt (λ j. diff_same (member 0 a j)),
    )
    | inr e ↦ (
      and_not_words a b,
      Combines-chunk diff a b (λ k i. a.words k i && not (b.words k i)) (λ k i. refl) _
          (and_not_words a b) (and_not_words-Chosen a b) (rw e),
    )
  ]

  -- One round of the loop of `andNot`.
  and_not_step :
      (h : ℕ) (a b : Node (suc h)) (s : ℕ)
      → SlotCase h a s
      → SlotCase h b s
      → ((x y : Node h) → IsShaped h x → IsShaped h y → OnlyFirst h x y)
      → (c : Option (Node h)) × Combines diff h
          (child h a s)
          (child h b s)
          (if a.present s
            then (kid h a s >>= λ ak.
                if b.present s
                then (kid h b s >>= λ bk. and_not_node same h ak bk)
                else some (some ak))
            else some none)
          c
  and_not_step h a b s (inl (ea, ca)) sb below =
      (none, record { returns = rw ea; shaped = tt; ids = λ j. rw ca })
  and_not_step h a b s (inr (x, ea, ka, ca, sx)) (inl (eb, cb)) below = (
    some x,
    record { returns = rw (ea, ka, eb); shaped = sx; ids = λ j. rw (ca, cb) (diff_none _) },
  )
  and_not_step h a b s (inr (x, ea, ka, ca, sx)) (inr (y, eb, kb, cb, sy)) below =
      let (c, combines) = below x y sx sy in
      (
        c,
        record {
          returns = rw (ea, ka, eb, kb) combines.returns;
          shaped = combines.shaped;
          ids = λ j. rw (ca, cb) (combines.ids j);
        },
      )

  pub and_not_node-Combines : (h : ℕ) (a b : Node h) → IsShaped h a → IsShaped h b → OnlyFirst h a b
  unfolding and_not_node
  and_not_node-Combines zero a b shaped_a shaped_b = and_not_chunk a b
  and_not_node-Combines (suc h) a b shaped_a shaped_b =
      let child_at = λ (k : ℕ).
        if a.present k
        then (kid h a k >>= λ ak.
            if b.present k then (kid h b k >>= λ bk. and_not_node same h ak bk) else some (some ak))
        else some none in
      let steps = λ (s : ℕ) (p : s < 64).
        and_not_step h a b s (slot_cases h a s shaped_a p) (slot_cases h b s shaped_b p)
          (λ x y sx sy. and_not_node-Combines h x y sx sy) in
      let (r, run, c) = collected diff h a b child_at steps in
      let (m, yields) = first_or_built-Yields same identity h _ r c a shaped_a in
      elim (Bool-cases (same (suc h) a b)) [
        | inl e ↦ (
          none,
          Combines-same same identity diff (suc h) a b none _ e (rw e) tt
              (λ j. diff_same (member (suc h) a j)),
        )
        | inr e ↦ (
          m,
          record {
            returns = rw (e, run) yields.returns;
            shaped = yields.shaped;
            ids = slots-ids diff h a b child_at steps m yields.children;
          },
        )
      ]
