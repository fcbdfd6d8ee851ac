-- ===== src/Bitmap/Ops/Or.antt =====
-- or of ops.go on two trees of one height: the ids of the result, which is never nil.
use go_maemmidb.Base.{
  ℕ, zero, suc, ◌<◌, ◌≡◌, refl, sym, subst, ◌∙◌, Bool, ◌||◌, Option, none, some, ◌>>=◌,
  if◌then◌else◌, inl, inr, Bool-cases,
}
use go_maemmidb.Bitmap.{Node, kid}
use go_maemmidb.Bitmap.Shape.{IsShaped, child, member}
use go_maemmidb.Bitmap.Ops.{or_node, or_words, not_nil}
use go_maemmidb.Bitmap.Ops.Build.{child_of}
use go_maemmidb.Bitmap.Ops.Slots.{IsIdentity, either_or_built-Yields}
use go_maemmidb.Bitmap.Ops.Combine.{
  Combines, SlotCase, slot_cases, steps-value, collected, slots-ids,
}
use go_maemmidb.Bitmap.Ops.Chunks.{
  or_same, or_none, Combines-chunk, Combines-same, or_words-Chosen, or_words-some,
}
use go_maemmidb.Bitmap.Ops.Filled.{IsFilled}

-- A child that may be nil, and is not where one of the operands has a child.
abbrev IsFilledChild : (h : ℕ) → Option (Node h) → Type 0
IsFilledChild h c = (x : Node h) → c ≡ some x → IsFilled h x

-- A node, or nil, whose children are filled, and there is one.
one_child :
    (h : ℕ) (m : Option (Node (suc h))) (s : ℕ) (c : Node h)
    → s < 64
    → child_of h m s ≡ some c
    → ((s' : ℕ) → s' < 64 → IsFilledChild h (child_of h m s'))
    → (n : Node (suc h)) × (m ≡ some n) × IsFilled (suc h) n
one_child h none s c p e filled = cc
one_child h (some n) s c p e filled = (n, refl, ((s, c, p, e), λ s' c' q e'. filled s' q c' e'))

module _ (same : (h : ℕ) → Node h → Node h → Bool) (identity : IsIdentity same) where
  abbrev pub EitherHeld : (h : ℕ) → Node h → Node h → Type 0
  EitherHeld h a b =
      (m : Node h) × Combines ◌||◌ h (some a) (some b) (or_node same h a b) (some m) × IsFilled h m

  or_chunk : (a b : Node 0) → EitherHeld 0 a b
  unfolding or_node
  or_chunk a b = elim (Bool-cases (same 0 a b)) [
    | inl e ↦ (
      a,
      Combines-same same identity ◌||◌ 0 a b (some a) _ e (rw e) tt (λ j. or_same (member 0 a j)),
      tt,
    )
    | inr e ↦
        let (m, is_m) = or_words-some a b in
        (
          m,
          subst (Combines ◌||◌ 0 (some a) (some b) _) is_m (
              Combines-chunk ◌||◌ a b (λ k i. a.words k i || b.words k i) (λ k i. refl) _
                (or_words a b) (or_words-Chosen a b) (rw e)),
          tt,
        )
  ]

  -- One round of the loop of `or`: the child that it adds is filled, and there is one where the
  -- first operand has one.
  abbrev Round : (h : ℕ) → Node (suc h) → Node (suc h) → ℕ → Option (Option (Node h)) → Type 0
  Round h a b s run =
      (c : Option (Node h)) × Combines ◌||◌ h (child h a s) (child h b s) run c
      × IsFilledChild h c
      × ((x : Node h) → child h a s ≡ some x → (y : Node h) × (c ≡ some y))

  or_step :
      (h : ℕ) (a b : Node (suc h)) (s : ℕ)
      → SlotCase h a s
      → SlotCase h b s
      → IsFilledChild h (child h a s)
      → IsFilledChild h (child h b s)
      → ((x y : Node h)
          → IsShaped h x
          → IsShaped h y
          → IsFilled h x
          → IsFilled h y
          → EitherHeld h x y)
      → Round h a b s (
          if a.present s
          then (if b.present s
              then (kid h a s >>= λ ak.
                  kid h b s >>= λ bk. or_node same h ak bk >>= λ child. not_nil h child)
              else (kid h a s >>= λ ak. some (some ak)))
          else if b.present s
          then (kid h b s >>= λ bk. some (some bk))
          else some none)
  unfolding not_nil
  or_step h a b s (inl (ea, ca)) (inl (eb, cb)) fa fb below = (
    none,
    record { returns = rw (ea, eb); shaped = tt; ids = λ j. rw (ca, cb) },
    λ x e. cc,
    λ x e. cc,
  )
  or_step h a b s (inl (ea, ca)) (inr (y, eb, kb, cb, sy)) fa fb below = (
    some y,
    record { returns = rw (ea, eb, kb); shaped = sy; ids = λ j. rw (ca, cb) },
    λ x e. fb x (cb ∙ e),
    λ x e. (y, refl),
  )
  or_step h a b s (inr (x, ea, ka, ca, sx)) (inl (eb, cb)) fa fb below = (
    some x,
    record { returns = rw (ea, eb, ka); shaped = sx; ids = λ j. rw (ca, cb) (or_none _) },
    λ z e. fa z (ca ∙ e),
    λ z e. (x, refl),
  )
  or_step h a b s (inr (x, ea, ka, ca, sx)) (inr (y, eb, kb, cb, sy)) fa fb below =
      let (c, combines, filled) = below x y sx sy (fa x ca) (fb y cb) in
      (
        some c,
        record {
          returns = rw (ea, eb, ka, kb, combines.returns) refl;
          shaped = combines.shaped;
          ids = λ j. rw (ca, cb) (combines.ids j);
        },
        λ z e. (let same : c ≡ z = cc in subst (IsFilled h) same filled),
        λ z e. (c, refl),
      )

  pub or_node-Combines :
      (h : ℕ) (a b : Node h)
      → IsShaped h a
      → IsShaped h b
      → IsFilled h a
      → IsFilled h b
      → EitherHeld h a b
  unfolding or_node
  or_node-Combines zero a b shaped_a shaped_b filled_a filled_b = or_chunk a b
  or_node-Combines (suc h) a b shaped_a shaped_b filled_a filled_b =
      let child_at = λ (k : ℕ).
        if a.present k
        then (if b.present k
            then (kid h a k >>= λ ak.
                kid h b k >>= λ bk. or_node same h ak bk >>= λ child. not_nil h child)
            else (kid h a k >>= λ ak. some (some ak)))
        else if b.present k
        then (kid h b k >>= λ bk. some (some bk))
        else some none in
      let rounds = λ (s : ℕ) (p : s < 64).
        or_step h a b s (slot_cases h a s shaped_a p) (slot_cases h b s shaped_b p)
          (λ x e. filled_a.1 s x p e) (λ x e. filled_b.1 s x p e)
          (λ x y sx sy fx fy. or_node-Combines h x y sx sy fx fy) in
      let steps : (s : ℕ)
          → s < 64
          → (c : Option (Node h)) × Combines ◌||◌ h (child h a s) (child h b s) (child_at s) c =
        λ s p. ((rounds s p).0, (rounds s p).1) in
      let (r, run, c) = collected ◌||◌ h a b child_at steps in
      let (m, yields) = either_or_built-Yields same identity h _ r c a b shaped_a shaped_b in
      let slot_of_m =
        λ (s : ℕ) (p : s < 64). yields.children s p ∙ steps-value ◌||◌ h a b child_at steps s p in
      let (s, x, p, at_s) = filled_a.0 in
      let (y, at_y) = (rounds s p).3 x at_s in
      let (n, is_n, filled) =
        one_child h m s y p (slot_of_m s p ∙ at_y)
          (λ s' p' z e. (rounds s' p').2 z (sym (slot_of_m s' p') ∙ e)) in
      elim (Bool-cases (same (suc h) a b)) [
        | inl e ↦ (
          a,
          Combines-same same identity ◌||◌ (suc h) a b (some a) _ e (rw e) shaped_a
              (λ j. or_same (member (suc h) a j)),
          filled_a,
        )
        | inr e ↦ (
          n,
          subst (Combines ◌||◌ (suc h) (some a) (some b) _) is_n (record {
            returns = rw (e, run) yields.returns;
            shaped = yields.shaped;
            ids = slots-ids ◌||◌ h a b child_at steps m yields.children;
          }),
          filled,
        )
      ]
