-- ===== src/Radix/Shape.antt =====
-- What a radix tree of some height looks like, and how the slots of an index tell indices apart.
use bored_os.Base.{ℕ, zero, suc, ◌+◌, ◌*◌, ◌/◌, ◌%◌, ◌<◌, ◌≡◌, ◌≢◌, sym, ap, ap₂, ◌∙◌, false, arith}
use native.Mathlib.Nat.{div-div-eq-div-mul, mod-add-div}
use bored_os.Radix.{Tree, null, item, node, weight, slot_at, is_null, new_node}

abbrev pub IsItem : Tree → Type 0
IsItem null = Unit {0}
IsItem (item y) = Unit {0}
IsItem (node s c slots tags) = ⊥

-- A node at height `h + 1`: its slots hold items at height 1, and nodes above.
abbrev pub Shape : ℕ → Tree → Type 0
Shape h null = ⊥
Shape h (item y) = ⊥
Shape zero (node s c slots tags) = (i : ℕ) → IsItem (slots i)
Shape (suc h) (node s c slots tags) = (i : ℕ) → is_null (slots i) ≡ false → Shape h (slots i)

weight-pos : (h : ℕ) → 0 < weight h
unfolding weight
weight-pos zero = omega arith
weight-pos (suc h) = omega (arith, weight-pos h)

pub new_node-Shape : (h shift : ℕ) → Shape h (new_node shift)
unfolding new_node
new_node-Shape zero shift = λ i. tt
new_node-Shape (suc h) shift = λ i e. cc

-- The remainder by w * 64 has two parts.
mod_parts : (x w : ℕ) → x % (w * 64) ≡ x % w + w * (x / w % 64)
mod_parts x w =
    let quotient : x / w ≡ x / w % 64 + 64 * (x / w / 64) = omega arith in
    let whole = mod-add-div x (w * 64) in
    let inner = mod-add-div x w in
    omega (
      arith,
      ap (λ (t : ℕ). w * t) quotient,
      inner,
      whole,
      ap (λ (t : ℕ). w * t) (div-div-eq-div-mul x w 64),
    )

weight_parts :
    (h x : ℕ) → x % weight (suc (suc h)) ≡ x % weight (suc h) + weight (suc h) * slot_at (suc h) x
unfolding slot_at weight
weight_parts h x = mod_parts x (weight h * 64)

-- Two indices that go through the same slot and differ below the node differ below its child.
pub same_slot :
    (h i j : ℕ)
    → slot_at (suc h) i ≡ slot_at (suc h) j
    → i % weight (suc (suc h)) ≢ j % weight (suc (suc h))
    → i % weight (suc h) ≢ j % weight (suc h)
same_slot h i j e ne p =
    ne (parts i ∙ ap₂ (λ (a b : ℕ). a + weight (suc h) * b) p slots ∙ sym (parts j))
  where
    parts :
        (x : ℕ) → x % weight (suc (suc h)) ≡ x % weight (suc h) + weight (suc h) * slot_at (suc h) x
    parts x = weight_parts h x

    slots : slot_at (suc h) i ≡ slot_at (suc h) j
    slots = e

-- At height 1 the slot is the index below 64.
pub leaf_slot : (i j : ℕ) → i % weight 1 ≢ j % weight 1 → slot_at 0 i ≢ slot_at 0 j
unfolding slot_at weight
leaf_slot i j ne e = ne (omega arith)
