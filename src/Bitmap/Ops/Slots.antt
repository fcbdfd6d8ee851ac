-- ===== src/Bitmap/Ops/Slots.antt =====
-- The comparison `builder.is` of ops.go: a result that equals an operand is that operand.
use go_maemmidb.Base.{
  ℕ, suc, ◌<◌, ◌≡◌, refl, ap, sym, ◌∙◌, Bool, true, false, ◌&&◌, arith, List, [], ◌∷◌, Option, some,
  ◌==◌, inl, inr, Bool-cases, and-left, length, Word, ones_below_same, same_below, same_below-eq,
}
use mathlib.Core.Path.{ap₂}
use go_maemmidb.Bitmap.{Node, kid}
use go_maemmidb.Bitmap.Shape.{IsShaped, IsShapedChild, child}
use go_maemmidb.Bitmap.Children.{ranked}
use go_maemmidb.Bitmap.Ops.{Builder, build, same_kids, is, either_or_built, first_or_built}
use go_maemmidb.Bitmap.Ops.Build.{Collects, child_of, q_true, build-children, build-IsShaped}

-- One pointer leads to one node.
abbrev pub IsIdentity : ((h : ℕ) → Node h → Node h → Bool) → Type 0
IsIdentity same = (h : ℕ) (a b : Node h) → same h a b ≡ true → a ≡ b

-- A call that returns `some t`, where `t` may be true only if `P`.
abbrev pub Decides : Option Bool → Type 0 → Type 0
Decides run P = (t : Bool) × (run ≡ some t) × (t ≡ true → P)

ranked_same :
    {A : Type 0} (xs : List A) (v w : Word) (s : ℕ)
    → ((i : ℕ) → i < 64 → v i ≡ w i)
    → s < 64
    → ranked xs v s ≡ ranked xs w s
ranked_same xs v w s e p = rw (e s p, ones_below_same s v w (λ i q. e i (omega arith)))

module _ (same : (h : ℕ) → Node h → Node h → Bool) (identity : IsIdentity same) where
  same_kids-Decides :
      (h : ℕ) (xs ys : List (Node h))
      → length xs ≡ length ys
      → Decides (same_kids same h xs ys) (xs ≡ ys)
  unfolding same_kids
  same_kids-Decides h [] [] e = (true, refl, λ t. refl)
  same_kids-Decides h [] (y ∷ ys) e = absurd (omega arith)
  same_kids-Decides h (x ∷ xs) [] e = absurd (omega arith)
  same_kids-Decides h (x ∷ xs) (y ∷ ys) e =
      let (t, run, sound) = same_kids-Decides h xs ys (omega arith) in
      elim (Bool-cases (same h x y)) [
        | inr d ↦ (false, rw d, λ q. cc)
        | inl d ↦ (t, rw d run, λ q. ap₂ ◌∷◌ (identity h x y d) (sound q))
      ]

  module _ (h : ℕ) (o : ℕ → Option (Node h)) (r : Builder (Node h)) (c : Collects h 64 o r) where
    -- The comparison does not panic, and what it accepts has the collected children.
    is-Decides :
        (n : Node (suc h))
        → IsShaped (suc h) n
        → Decides (is same h r n) ((s : ℕ) → s < 64 → child h n s ≡ o s)
    unfolding is child kid
    is-Decides n shaped =
        elim (Bool-cases (same_below 64 r.present n.present && r.count == n.count)) [
          | inr d ↦ (false, rw d, λ q. cc)
          | inl d ↦
              let bits =
                same_below-eq 64 r.present n.present
                  (and-left (same_below 64 r.present n.present) (r.count == n.count) d) in
              let (t, run, sound) =
                same_kids-Decides h r.kids n.kids
                  (c.counted ∙ ones_below_same 64 r.present n.present bits ∙ sym shaped.0) in
              (
                t,
                rw d run,
                λ q s p.
                    ap (λ (ks : List (Node h)). ranked ks n.present s) (sym (sound q))
                    ∙ sym (ranked_same r.kids r.present n.present s bits p)
                    ∙ c.children s p
                    ∙ rw (q_true s 64 p),
              )
        ]

    -- A node, or nil, that has the collected children.
    pub record Yields (run : Option (Option (Node (suc h)))) (m : Option (Node (suc h)))
        : Type 0 where
      pub returns : run ≡ some m
      pub shaped : IsShapedChild (suc h) m
      pub children : (s : ℕ) → s < 64 → child_of h m s ≡ o s

    built-Yields : Yields (some (build h r)) (build h r)
    built-Yields = record {
      returns = refl;
      shaped = build-IsShaped h o r c;
      children = build-children h o r c;
    }

    pub first_or_built-Yields :
        (a : Node (suc h))
        → IsShaped (suc h) a
        → (m : Option (Node (suc h))) × Yields (first_or_built same h a r) m
    unfolding first_or_built
    first_or_built-Yields a shaped =
        let (t, run, sound) = is-Decides a shaped in
        elim (Bool-cases t) [
          | inl e ↦ (some a, record { returns = rw (run, e); shaped = shaped; children = sound e })
          | inr e ↦ (
            build h r,
            record {
              returns = rw (run, e);
              shaped = built-Yields.shaped;
              children = built-Yields.children;
            },
          )
        ]

    pub either_or_built-Yields :
        (a b : Node (suc h))
        → IsShaped (suc h) a
        → IsShaped (suc h) b
        → (m : Option (Node (suc h))) × Yields (either_or_built same h a b r) m
    unfolding either_or_built
    either_or_built-Yields a b shaped_a shaped_b =
        let (t, run, sound) = is-Decides a shaped_a in
        let (u, run', sound') = is-Decides b shaped_b in
        elim (Bool-cases t) [
          | inl e ↦
              (some a, record { returns = rw (run, e); shaped = shaped_a; children = sound e })
          | inr e ↦ elim (Bool-cases u) [
            | inl e' ↦ (
              some b,
              record { returns = rw (run, e, run', e'); shaped = shaped_b; children = sound' e' },
            )
            | inr e' ↦ (
              build h r,
              record {
                returns = rw (run, e, run', e');
                shaped = built-Yields.shaped;
                children = built-Yields.children;
              },
            )
          ]
        ]
