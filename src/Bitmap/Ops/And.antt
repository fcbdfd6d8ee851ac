-- ===== src/Bitmap/Ops/And.antt =====
-- and of ops.go on two trees of one height: the ids of the result.
use go_maemmidb.Base.{
  ℕ, zero, suc, ◌<◌, refl, Bool, ◌&&◌, Option, none, some, ◌>>=◌, if◌then◌else◌, inl, inr,
  Bool-cases,
}
use go_maemmidb.Bitmap.{Node, kid}
use go_maemmidb.Bitmap.Shape.{IsShaped, child, member}
use go_maemmidb.Bitmap.Ops.{and_node, and_words}
use go_maemmidb.Bitmap.Ops.Slots.{IsIdentity, either_or_built-Yields}
use go_maemmidb.Bitmap.Ops.Combine.{Combines, SlotCase, slot_cases, collected, slots-ids}
use go_maemmidb.Bitmap.Ops.Chunks.{
  and_same, and_none, Combines-chunk, Combines-same, and_words-Chosen,
}

module _ (same : (h : ℕ) → Node h → Node h → Bool) (identity : IsIdentity same) where
  abbrev pub BothHeld : (h : ℕ) → Node h → Node h → Type 0
  BothHeld h a b = (m : Option (Node h)) × Combines ◌&&◌ h (some a) (some b) (and_node same h a b) m

  and_chunk : (a b : Node 0) → BothHeld 0 a b
  unfolding and_node
  and_chunk a b = elim (Bool-cases (same 0 a b)) [
    | inl e ↦ (
      some a,
      Combines-same same identity ◌&&◌ 0 a b (some a) _ e (rw e) tt (λ j. and_same (member 0 a j)),
    )
    | inr e ↦ (
      and_words a b,
      Combines-chunk ◌&&◌ a b (λ k i. a.words k i && b.words k i) (λ k i. refl) _ (and_words a b)
          (and_words-Chosen a b) (rw e),
    )
  ]

  -- One round of the loop of `and`.
  and_step :
      (h : ℕ) (a b : Node (suc h)) (s : ℕ)
      → SlotCase h a s
      → SlotCase h b s
      → ((x y : Node h) → IsShaped h x → IsShaped h y → BothHeld h x y)
      → (c : Option (Node h)) × Combines ◌&&◌ h
          (child h a s)
          (child h b s)
          (if a.present s && b.present s
            then (kid h a s >>= λ ak. kid h b s >>= λ bk. and_node same h ak bk)
            else some none)
          c
  and_step h a b s (inl (ea, ca)) sb below =
      (none, record { returns = rw ea; shaped = tt; ids = λ j. rw ca })
  and_step h a b s (inr (x, ea, ka, ca, sx)) (inl (eb, cb)) below =
      (none, record { returns = rw (ea, eb); shaped = tt; ids = λ j. rw cb (and_none _) })
  and_step h a b s (inr (x, ea, ka, ca, sx)) (inr (y, eb, kb, cb, sy)) below =
      let (c, combines) = below x y sx sy in
      (
        c,
        record {
          returns = rw (ea, eb, ka, kb) combines.returns;
          shaped = combines.shaped;
          ids = λ j. rw (ca, cb) (combines.ids j);
        },
      )

  pub and_node-Combines : (h : ℕ) (a b : Node h) → IsShaped h a → IsShaped h b → BothHeld h a b
  unfolding and_node
  and_node-Combines zero a b shaped_a shaped_b = and_chunk a b
  and_node-Combines (suc h) a b shaped_a shaped_b =
      let child_at = λ (k : ℕ).
        if a.present k && b.present k
        then (kid h a k >>= λ ak. kid h b k >>= λ bk. and_node same h ak bk)
        else some none in
      let steps = λ (s : ℕ) (p : s < 64).
        and_step h a b s (slot_cases h a s shaped_a p) (slot_cases h b s shaped_b p)
          (λ x y sx sy. and_node-Combines h x y sx sy) in
      let (r, run, c) = collected ◌&&◌ h a b child_at steps in
      let (m, yields) = either_or_built-Yields same identity h _ r c a b shaped_a shaped_b in
      elim (Bool-cases (same (suc h) a b)) [
        | inl e ↦ (
          some a,
          Combines-same same identity ◌&&◌ (suc h) a b (some a) _ e (rw e) shaped_a
              (λ j. and_same (member (suc h) a j)),
        )
        | inr e ↦ (
          m,
          record {
            returns = rw (e, run) yields.returns;
            shaped = yields.shaped;
            ids = slots-ids ◌&&◌ h a b child_at steps m yields.children;
          },
        )
      ]
