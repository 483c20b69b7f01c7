-- ===== src/Radix/Lookup.antt =====
-- What `radix_tree_lookup` finds after `radix_tree_insert`.
use bored_os.Base.{
  ℕ, zero, suc, ◌+◌, ◌-◌, ◌*◌, ◌%◌, ◌≡◌, ◌≢◌, refl, sym, ap, ◌∙◌, Bool, true, false, none, some,
  arith, ◌==◌, ==-true, ==-false, Bool-cases, inl, inr, ℕ_discrete,
}
use bored_os.Base.Arrays.{update, update_at, update_ne}
use bored_os.Radix.{
  item_of, Tree, null, item, node, weight, slot_at, is_null, new_node, insert_below, lookup_below,
  map_shift,
}
use bored_os.Radix.Shape.{IsItem, Shape, new_node-Shape, same_slot, leaf_slot}

-- What an insertion of `x` at `i` below a node at height `h + 1` makes of its tree `t`.
pub record Inserted (h : ℕ) (t : Tree) (i x : ℕ) (r : Tree × ℕ × Bool) : Type 0 where
  pub shape : Shape h r.0
  pub there : r.2 ≡ true → (lookup_below h t i ≡ none) × (lookup_below h r.0 i ≡ some x)
  pub others :
      (j : ℕ) → j % weight (suc h) ≢ i % weight (suc h) → lookup_below h r.0 j ≡ lookup_below h t j
  pub failed : r.2 ≡ false → (j : ℕ) → lookup_below h r.0 j ≡ lookup_below h t j

-- What stands in a slot after the walk has been below it.
update-IsItem :
    (slots : ℕ → Tree) (k : ℕ) (t : Tree)
    → ((i : ℕ) → IsItem (slots i))
    → IsItem t
    → (i : ℕ) → IsItem (update slots k t i)
update-IsItem slots k t all h i = elim (ℕ_discrete k i) [
  | yes e ↦ ground arith
  | no ne ↦ ground (arith, all i)
]

update-Shape :
    (h : ℕ) (slots : ℕ → Tree) (k : ℕ) (t : Tree)
    → ((i : ℕ) → is_null (slots i) ≡ false → Shape h (slots i))
    → Shape h t
    → (i : ℕ) → is_null (update slots k t i) ≡ false
    → Shape h (update slots k t i)
update-Shape h slots k t all s i = elim (ℕ_discrete k i) [
  | yes e ↦ λ n. rw (==-true k i e) s
  | no ne ↦ rw (==-false k i ne) (all i)
]

lookup_null : (h i : ℕ) → lookup_below h null i ≡ none
unfolding lookup_below
lookup_null zero i = refl
lookup_null (suc h) i = refl

lookup_new : (h shift i : ℕ) → lookup_below h (new_node shift) i ≡ none
unfolding lookup_below new_node
lookup_new zero shift i = refl
lookup_new (suc h) shift i = lookup_null h i

lookup_empty : (h : ℕ) (t : Tree) (i : ℕ) → is_null t ≡ true → lookup_below h t i ≡ none
lookup_empty h null i e = lookup_null h i
lookup_empty h (item y) i e = cc
lookup_empty h (node s c slots tags) i e = cc

-- One level of the walk, where the child below the slot was `old` (or stands in for an empty slot).
inner_Inserted :
    (h i x : ℕ) (s c c' : ℕ) (slots : ℕ → Tree) (tags : ℕ → ℕ → Bool) (old t : Tree) (m : ℕ)
    (ok : Bool)
    → Shape (suc h) (node s c slots tags)
    → ((j : ℕ) → lookup_below h old j ≡ lookup_below h (slots (slot_at (suc h) i)) j)
    → Inserted h old i x (t, m, ok)
    → Inserted
        (suc h)
        (node s c slots tags)
        i
        x
        (node s c' (update slots (slot_at (suc h) i) t) tags, m, ok)
unfolding lookup_below
inner_Inserted h i x s c c' slots tags old t m ok sh same ins =
    let k : ℕ = slot_at (suc h) i in
    record {
      shape = update-Shape h slots k t sh ins.shape;
      there = λ e. (sym (same i) ∙ (ins.there e).0, in_child i refl ∙ (ins.there e).1);
      others = λ j ne. elim (ℕ_discrete k (slot_at (suc h) j)) [
        | yes e ↦ in_child j e ∙ (ins.others j (same_slot h j i (sym e) ne) ∙ back j e)
        | no n ↦ elsewhere j n
      ];
      failed = λ e j. elim (ℕ_discrete k (slot_at (suc h) j)) [
        | yes q ↦ in_child j q ∙ (ins.failed e j ∙ back j q)
        | no n ↦ elsewhere j n
      ];
    }
  where
    in_child :
        (j : ℕ)
        → slot_at (suc h) i ≡ slot_at (suc h) j
        → lookup_below h (update slots (slot_at (suc h) i) t (slot_at (suc h) j)) j
          ≡ lookup_below h t j
    in_child j e =
        ap (λ q. lookup_below h q j) (update_at slots (slot_at (suc h) i) (slot_at (suc h) j) t e)

    back :
        (j : ℕ)
        → slot_at (suc h) i ≡ slot_at (suc h) j
        → lookup_below h old j ≡ lookup_below h (slots (slot_at (suc h) j)) j
    back j e = same j ∙ ap (λ q. lookup_below h (slots q) j) e

    elsewhere :
        (j : ℕ)
        → slot_at (suc h) i ≢ slot_at (suc h) j
        → lookup_below h (update slots (slot_at (suc h) i) t (slot_at (suc h) j)) j
          ≡ lookup_below h (slots (slot_at (suc h) j)) j
    elsewhere j n =
        ap (λ q. lookup_below h q j) (update_ne slots (slot_at (suc h) i) (slot_at (suc h) j) t n)

-- Where nothing changes, an insertion that fails is one.
unchanged : (h : ℕ) (t : Tree) (i x m : ℕ) → Shape h t → Inserted h t i x (t, m, false)
unchanged h t i x m sh = record {
  shape = sh;
  there = λ e. cc;
  others = λ j ne. refl;
  failed = λ e j. refl;
}

item_of_null : (t : Tree) → is_null t ≡ true → item_of t ≡ none
item_of_null null e = refl
item_of_null (item y) e = cc
item_of_null (node s c slots tags) e = cc

leaf_Inserted :
    (i x m s c : ℕ) (slots : ℕ → Tree) (tags : ℕ → ℕ → Bool)
    → Shape zero (node s c slots tags)
    → is_null (slots (slot_at 0 i)) ≡ true
    → Inserted zero
        (node s c slots tags)
        i
        x
        (node s (c + 1) (update slots (slot_at 0 i) (item x)) tags, m, true)
unfolding lookup_below
leaf_Inserted i x m s c slots tags sh e =
    let k : ℕ = slot_at 0 i in
    record {
      shape = update-IsItem slots k (item x) sh tt;
      there = λ u. (item_of_null (slots k) e, ap item_of (update_at slots k k (item x) refl));
      others = λ j ne.
          ap item_of (update_ne slots k (slot_at 0 j) (item x) (λ q. leaf_slot j i ne (sym q)));
      failed = λ u. cc;
    }

-- `radix_tree_insert` below a node of a well-shaped tree never reads through NULL: it ends, and
-- what it makes is again well shaped. If it succeeds, the index had no item and now has `x`; if it
-- fails, no lookup changes; and at indices that differ below the node no lookup changes in either
-- case.
pub insert_below_lem :
    (h m : ℕ) (t : Tree) (i x : ℕ)
    → Shape h t
    → (r : Tree × ℕ × Bool) × (insert_below h m t i x ≡ some r) × Inserted h t i x r
unfolding insert_below
insert_below_lem h m null i x sh = absurd sh
insert_below_lem h m (item y) i x sh = absurd sh
insert_below_lem zero m (node s c slots tags) i x sh =
    elim (Bool-cases (is_null (slots (slot_at 0 i)))) [
      | inl e ↦ (_, rw e refl, leaf_Inserted i x m s c slots tags sh e)
      | inr e ↦ (_, rw e refl, unchanged zero (node s c slots tags) i x m sh)
    ]
insert_below_lem (suc h) m (node s c slots tags) i x sh =
    elim (Bool-cases (is_null (slots (slot_at (suc h) i)))) [
      | inl e ↦ elim (Bool-cases (m == 0)) [
        | inl z ↦ (_, rw (e, z) refl, unchanged (suc h) (node s c slots tags) i x m sh)
        | inr n ↦
            let ((t, m', ok), eq, ins) =
              insert_below_lem h (m - 1) (new_node (h * map_shift)) i x
                (new_node-Shape h (h * map_shift)) in
            (
              (node s (c + 1) (update slots (slot_at (suc h) i) t) tags, m', ok),
              rw (e, n, eq) refl,
              inner_Inserted h i x s c (c + 1) slots tags (new_node (h * map_shift)) t m' ok sh
                  (λ j.
                    lookup_new h (h * map_shift) j
                    ∙ sym (lookup_empty h (slots (slot_at (suc h) i)) j e))
                  ins,
            )
      ]
      | inr f ↦
          let ((t, m', ok), eq, ins) =
            insert_below_lem h m (slots (slot_at (suc h) i)) i x (sh (slot_at (suc h) i) f) in
          (
            (node s c (update slots (slot_at (suc h) i) t) tags, m', ok),
            rw (f, eq) refl,
            inner_Inserted h i x s c c slots tags (slots (slot_at (suc h) i)) t m' ok sh (λ j. refl)
                ins,
          )
    ]
