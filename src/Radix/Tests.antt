-- ===== src/Radix/Tests.antt =====
-- Runs of mem/radix_tree.c on small trees.
use bored_os.Base.{ℕ, ◌≤◌, ◌≡◌, ◌≢◌, Bool, true, false, some, none, arith, ◌==◌, if◌then◌else◌}
use bored_os.Radix.{
  Tree, null, item, node, weight, slot_at, max_index, insert_below, insert, init, lookup_below,
}
use bored_os.Radix.Shape.{IsItem, Shape}
use bored_os.Radix.Lookup.{Inserted, insert_below_lem}
use bored_os.Radix.Delete.{Deleted, delete_below, delete_below_lem}
use bored_os.Radix.Faults.{insert_first_faults}

-- A node at height 1 with an item at 5, and one above it.
abbrev leaf : Tree
leaf = node 0 1 (λ i. if i == 5 then item 77 else null) (λ tag i. false)

abbrev top : Tree
top = node 6 1 (λ i. if i == 0 then leaf else null) (λ tag i. false)

leaf-items : (b : Bool) → IsItem (if b then item 77 else null)
leaf-items true = tt
leaf-items false = tt

leaf-Shape : Shape 0 leaf
leaf-Shape i = leaf-items (i == 5)

insert_below_lem_example :
    (r : Tree × ℕ × Bool) × (insert_below 0 4 leaf 69 8 ≡ some r) × Inserted 0 leaf 69 8 r
insert_below_lem_example = insert_below_lem 0 4 leaf 69 8 leaf-Shape

found : lookup_below 1 top 5 ≢ none
unfolding lookup_below slot_at weight
found e = cc

small_enough : 70 ≤ max_index 7
unfolding max_index
small_enough = omega arith

insert_first_faults_example : insert 100 init 70 8 ≡ none
insert_first_faults_example = insert_first_faults 100 70 8 (omega arith) small_enough (omega arith)

delete_below_lem_example : Deleted 1 top 5 (delete_below true 1 top 5)
delete_below_lem_example = delete_below_lem true 1 top 5
