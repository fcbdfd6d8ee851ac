-- ===== src/Bitmap/Clearing.antt =====
-- Removing an id below a node of bitmap.go: `Writer.clear`.
use go_maemmidb.Base.{
  ℕ, zero, suc, ◌+◌, ◌-◌, ◌%◌, ◌^◌, ◌<◌, ◌≡◌, refl, ap, sym, ◌∙◌, Bool, true, false, ◌&&◌, not,
  arith, Option, none, some, holds, ◌==◌, ==_iff, if◌then◌else◌, inl, inr, Bool-cases, length-set,
  length-remove_at, update, clear_bit, set as set_elem, remove_at, get_elem?, ones_below,
  ones_below-lt, ones_below-clear, Every-set, Every-remove_at,
}
use go_maemmidb.Bitmap.{Node, kid, slot_of, word_of, bit_of, clear_node, uint32_mod}
use go_maemmidb.Bitmap.Path.{same_path}
use go_maemmidb.Bitmap.Shape.{IsShaped, child, member, slot-lt}
use go_maemmidb.Bitmap.Children.{ranked-set, ranked-remove}
use go_maemmidb.Bitmap.Adding.{member_at}
use go_maemmidb.Bitmap.Sizes.{
  total-set, total-remove_at, bits_in, bits_in-clear, size, IsCounted, kid-IsCounted, kid-size,
  word_lt, bit_lt, Leads, leads, alone,
}

-- What is left of a tree of so many ids.
abbrev pub IsLeft : (h s : ℕ) → Option (Node h) → Type 0
IsLeft h s none = s ≡ 1
IsLeft h s (some m) = IsShaped h m × IsCounted h m × (size h m + 1 ≡ s)

-- The node that `clear` returns, nil if nothing is left.
pub record Removes (h : ℕ) (n : Node h) (id : ℕ) (o : Option (Node h)) : Type 0 where
  pub returns : clear_node h n id ≡ some o
  pub left : IsLeft h (size h n) o
  pub ids : (j : ℕ) → holds o (λ m. member h m j) ≡ (member h n j && not (same_path h id j))

one_less :
    (count s : ℕ) → count ≡ s → 0 < s → s < 2 ^ 32 → (count + uint32_mod - 1) % uint32_mod + 1 ≡ s
one_less count s e positive room = rw e (omega arith)

-- The stored count of a node that keeps some of its ids.
less_by_one :
    (count n m : ℕ)
    → count ≡ n
    → 0 < count
    → n < 2 ^ 32
    → m + 1 ≡ n
    → (count == 1) ≡ false
    → ((count + uint32_mod - 1) % uint32_mod ≡ m) × (0 < (count + uint32_mod - 1) % uint32_mod)
less_by_one count n m e positive room less many =
    let rest = one_less count n e (omega (arith, e, positive)) room in
    (omega (arith, rest, less), ground (arith, rest, e))

last_ids :
    (h : ℕ) (n : Node h) (id j : ℕ)
    → IsShaped h n
    → IsCounted h n
    → size h n ≡ 1
    → member h n id ≡ true
    → false ≡ (member h n j && not (same_path h id j))
last_ids h n id j shaped all one e = elim (Bool-cases (member h n j)) [
  | inr off ↦ rw off refl
  | inl on ↦ rw (on, alone h n id j shaped all one e on) refl
]

less_words : Node 0 → ℕ → Node 0
less_words n id = record {
  count = (n.count + uint32_mod - 1) % uint32_mod;
  words = update n.words (word_of id) (clear_bit (n.words (word_of id)) (bit_of id));
}

put_child : (h : ℕ) → Node (suc h) → ℕ → Node h → Node (suc h)
put_child h n id m = record n {
  count = (n.count + uint32_mod - 1) % uint32_mod;
  kids = set_elem n.kids (ones_below (slot_of h id) n.present) m;
}

drop_child : (h : ℕ) → Node (suc h) → ℕ → Node (suc h)
drop_child h n id = record {
  count = (n.count + uint32_mod - 1) % uint32_mod;
  present = clear_bit n.present (slot_of h id);
  kids = remove_at n.kids (ones_below (slot_of h id) n.present);
}

member-less_words :
    (n : Node 0) (id j : ℕ)
    → member 0 (less_words n id) j ≡ (member 0 n j && not (same_path 0 id j))
unfolding member less_words same_path
member-less_words n id j = ground arith

chunk-Removes :
    (n : Node 0) (id : ℕ)
    → IsCounted 0 n
    → size 0 n < 2 ^ 32
    → member 0 n id ≡ true
    → (n.count == 1) ≡ false
    → Removes 0 n id (some (less_words n id))
unfolding clear_node member size less_words
chunk-Removes n id all room e many =
    let fewer = bits_in-clear n.words (word_of id) (bit_of id) (word_lt id) (bit_lt id) e in
    let count = less_by_one n.count (bits_in n.words) _ all.0 all.1 room fewer many in
    record {
      returns = rw many refl;
      left = (tt, count, fewer);
      ids = λ j. member-less_words n id j;
    }

module _ (h : ℕ) (n : Node (suc h)) (id : ℕ) (shaped : IsShaped (suc h) n)
    (all : IsCounted (suc h) n) (room : size (suc h) n < 2 ^ 32) (many : (n.count == 1) ≡ false)
    (c : Node h) (way : Leads h n id c) where
  child-put_child :
      (m : Node h) (s : ℕ)
      → s < 64
      → child h (put_child h n id m) s ≡ (if slot_of h id == s then some m else child h n s)
  unfolding child kid put_child
  child-put_child m s q =
      ranked-set n.kids n.present (slot_of h id) m s shaped.0 (slot-lt h id) q way.on

  child-drop_child :
      (s : ℕ)
      → s < 64
      → child h (drop_child h n id) s ≡ (if slot_of h id == s then none else child h n s)
  unfolding child kid drop_child
  child-drop_child s q =
      ranked-remove n.kids n.present (slot_of h id) s shaped.0 (slot-lt h id) q way.on

  -- The ids of a node after its child has changed.
  changed :
      (o : Option (Node h)) (m : Node (suc h)) (j : ℕ)
      → child h m (slot_of h j)
        ≡ (if slot_of h id == slot_of h j then o else child h n (slot_of h j))
      → holds o (λ d. member h d j) ≡ (member h c j && not (same_path h id j))
      → member (suc h) m j ≡ (member (suc h) n j && not (same_path (suc h) id j))
  unfolding same_path
  changed o m j e below = elim (Bool-cases (slot_of h id == slot_of h j)) [
    | inl s ↦
        let here = ap (child h n) (sym ((==_iff _ _).0 s)) ∙ way.child_at in
        let same = ap (λ (b : Bool). if b then o else child h n (slot_of h j)) s in
        member_at h m j (e ∙ same) ∙ below ∙ rw (s, member_at h n j here) refl
    | inr s ↦
        let same = ap (λ (b : Bool). if b then o else child h n (slot_of h j)) s in
        member_at h m j (e ∙ same) ∙ rw s (sym (member_at h n j refl) ∙ (ground arith))
  ]

  put-Removes :
      (m : Node h) → Removes h c id (some m) → Removes (suc h) n id (some (put_child h n id m))
  unfolding clear_node
  put-Removes m r =
      let i = ones_below (slot_of h id) n.present in
      let (shape, counts, fewer) = r.left in
      let found : get_elem? n.kids i ≡ some c = unfold kid in way.kid_at in
      let size' : size (suc h) (put_child h n id m) + 1 ≡ size (suc h) n =
        unfold size in
        unfold put_child in omega (arith, total-set (size h) n.kids i c m found, fewer) in
      let count = less_by_one n.count (size (suc h) n) _ all.0 all.1 room size' many in
      record {
        returns = rw (many, way.kid_at, r.returns) (unfold put_child in refl);
        left =
            unfold put_child in
            (
              (length-set n.kids i m ∙ shaped.0, Every-set (IsShaped h) n.kids i m shaped.1 shape),
              (count.0, count.1, Every-set (IsCounted h) n.kids i m all.2 counts),
              size',
            );
        ids = λ j.
            changed (some m) (put_child h n id m) j (child-put_child m (slot_of h j) (slot-lt h j))
              (r.ids j);
      }

  drop-Removes : Removes h c id none → Removes (suc h) n id (some (drop_child h n id))
  unfolding clear_node
  drop-Removes r =
      let i = ones_below (slot_of h id) n.present in
      let found : get_elem? n.kids i ≡ some c = unfold kid in way.kid_at in
      let size' : size (suc h) (drop_child h n id) + 1 ≡ size (suc h) n =
        unfold size in
        unfold drop_child in omega (arith, total-remove_at (size h) n.kids i c found, r.left) in
      let count = less_by_one n.count (size (suc h) n) _ all.0 all.1 room size' many in
      let fewer = ones_below-clear 64 (slot_of h id) n.present way.on in
      let within = ones_below-lt (slot_of h id) 64 n.present (slot-lt h id) way.on in
      let shorter = length-remove_at n.kids i (omega (arith, shaped.0, within)) in
      record {
        returns = rw (many, way.kid_at, r.returns) (unfold drop_child in refl);
        left =
            unfold drop_child in
            (
              (
                ground (arith, shorter, shaped.0, fewer, slot-lt h id),
                Every-remove_at (IsShaped h) n.kids i shaped.1,
              ),
              (count.0, count.1, Every-remove_at (IsCounted h) n.kids i all.2),
              size',
            );
        ids = λ j.
            changed none (drop_child h n id) j (child-drop_child (slot_of h j) (slot-lt h j))
              (r.ids j);
      }

pub clear_node-Removes :
    (h : ℕ) (n : Node h) (id : ℕ)
    → IsShaped h n
    → IsCounted h n
    → size h n < 2 ^ 32
    → member h n id ≡ true
    → (o : Option (Node h)) × Removes h n id o
unfolding clear_node
clear_node-Removes zero n id shaped all room e = elim (Bool-cases (n.count == 1)) [
  | inr many ↦ (some (less_words n id), chunk-Removes n id all room e many)
  | inl one ↦
      let single : size zero n ≡ 1 = sym all.0 ∙ (==_iff n.count 1).0 one in
      (
        none,
        record {
          returns = rw one refl;
          left = single;
          ids = λ j. last_ids zero n id j shaped all single e;
        },
      )
]
clear_node-Removes (suc h) n id shaped all room e = elim (Bool-cases (n.count == 1)) [
  | inl one ↦
      let single : size (suc h) n ≡ 1 = sym all.0 ∙ (==_iff n.count 1).0 one in
      (
        none,
        record {
          returns = rw one refl;
          left = single;
          ids = λ j. last_ids (suc h) n id j shaped all single e;
        },
      )
  | inr many ↦
      let (c, way) = leads h n id shaped e in
      let less = kid-size h n (slot_of h id) c way.kid_at in
      let (o, ih) =
        clear_node-Removes h c id way.shaped (kid-IsCounted h n (slot_of h id) c all way.kid_at)
          (omega (arith, less)) (sym way.below ∙ e) in
      (elim o as (λ x. Removes h c id x → (y : Option (Node (suc h))) × Removes (suc h) n id y) [
        | none ↦ λ r. (some (drop_child h n id), drop-Removes h n id shaped all room many c way r)
        | some m ↦
            λ r. (some (put_child h n id m), put-Removes h n id shaped all room many c way m r)
      ])
        ih
]
