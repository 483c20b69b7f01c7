-- ===== src/Radix/Delete.antt =====
-- `radix_tree_delete` of mem/radix_tree.c.
use bored_os.Base.{
  ℕ, zero, suc, ◌-◌, ◌≡◌, refl, ap, ◌∙◌, Bool, true, false, not, Option, none, some, ltb, ◌==◌,
  ◌&&◌, if◌then◌else◌, Bool-cases, inl, inr,
}
use bored_os.Base.Arrays.{update, update_at}
use bored_os.Radix.{
  Tree, null, item, node, Root, max_index, max_tags, slot_at, item_of, is_null, tagged_node,
  lookup_below,
}

-- A node's tags when a slot loses those that `gone` names.
abbrev pub without_tags : (ℕ → ℕ → Bool) → ℕ → (ℕ → Bool) → ℕ → ℕ → Bool
without_tags tags i gone tag j =
    if ltb tag max_tags && (i == j && gone tag) then false else tags tag j

abbrev pub count_of : Tree → ℕ
count_of null = 0
count_of (item y) = 0
count_of (node s c slots tags) = c

-- A node above the one that was changed, on the way back: its slot `i` now has the child `t`. The
-- root, at depth 0, is passed over.
after_delete : Bool → ℕ → ℕ → (ℕ → Tree) → (ℕ → ℕ → Bool) → ℕ → Tree → Tree
after_delete root s c slots tags i t =
    let tags' = without_tags tags i (λ tag. not (tagged_node t tag)) in
    if root
    then node s c (update slots i t) tags
    else if count_of t == 0
    then node s (c - 1) (update slots i null) tags'
    else node s c (update slots i t) tags'

delete_leaf : ℕ → ℕ → (ℕ → Tree) → (ℕ → ℕ → Bool) → ℕ → Option ℕ → Option (Tree × ℕ)
delete_leaf s c slots tags i none = none
delete_leaf s c slots tags i (some x) =
    some (node s (c - 1) (update slots i null) (without_tags tags i (λ tag. true)), x)

delete_child :
    Bool → ℕ → ℕ → (ℕ → Tree) → (ℕ → ℕ → Bool) → ℕ → Option (Tree × ℕ) → Option (Tree × ℕ)
unfolding after_delete
delete_child root s c slots tags i none = none
delete_child root s c slots tags i (some (t, x)) = some (after_delete root s c slots tags i t, x)

-- The walk down and the loop back up, below a node at height `h + 1`: the tree, and the item that
-- was taken out; none is NULL, and then nothing changes.
pub delete_below : Bool → ℕ → Tree → ℕ → Option (Tree × ℕ)
unfolding slot_at delete_leaf delete_child
delete_below root zero (node s c slots tags) index =
    delete_leaf s c slots tags (slot_at 0 index) (item_of (slots (slot_at 0 index)))
delete_below root (suc h) (node s c slots tags) index =
    delete_child root s c slots tags (slot_at (suc h) index)
      (delete_below false h (slots (slot_at (suc h) index)) index)
delete_below root h null index = none
delete_below root h (item y) index = none

shrunk : Root → Option (Tree × ℕ) → Root × Option ℕ
shrunk r none = (r, none)
shrunk r (some (t, x)) = (
  if count_of t == 0 then record { height = 0; rnode = null } else record r { rnode = t },
  some x,
)

delete_by : ℕ → Root → ℕ → Root × Option ℕ
unfolding delete_below shrunk
delete_by zero r index =
    if index == 0 then (record r { rnode = null }, item_of r.rnode) else (r, none)
delete_by (suc h) r index = shrunk r (delete_below true h r.rnode index)

-- `radix_tree_delete`
delete : Root → ℕ → Root × Option ℕ
unfolding delete_by
delete r index =
    if is_null r.rnode
    then (r, none)
    else if ltb (max_index r.height) index
    then (r, none)
    else delete_by r.height r index

-- What a deletion answers, against the lookup before it and the one after it.
abbrev pub Deleted : ℕ → Tree → ℕ → Option (Tree × ℕ) → Type 0
Deleted h t index none = lookup_below h t index ≡ none
Deleted h t index (some (t', x)) =
    (lookup_below h t index ≡ some x) × (lookup_below h t' index ≡ none)

leaf-Deleted :
    (s c : ℕ) (slots : ℕ → Tree) (tags : ℕ → ℕ → Bool) (index : ℕ) (o : Option ℕ)
    → item_of (slots (slot_at 0 index)) ≡ o
    → Deleted 0 (node s c slots tags) index (delete_leaf s c slots tags (slot_at 0 index) o)
unfolding delete_leaf lookup_below
leaf-Deleted s c slots tags index none e = e
leaf-Deleted s c slots tags index (some x) e =
    (e, ap item_of (update_at slots (slot_at 0 index) (slot_at 0 index) null refl))

lookup_null : (h index : ℕ) → lookup_below h null index ≡ none
unfolding lookup_below
lookup_null zero index = refl
lookup_null (suc h) index = refl

lookup-after_delete :
    (root : Bool) (h s c : ℕ) (slots : ℕ → Tree) (tags : ℕ → ℕ → Bool) (index : ℕ) (t : Tree)
    → lookup_below h t index ≡ none
    → lookup_below (suc h) (after_delete root s c slots tags (slot_at (suc h) index) t) index ≡ none
unfolding after_delete lookup_below
lookup-after_delete root h s c slots tags index t e =
    let i = slot_at (suc h) index in
    let kept = ap (λ q. lookup_below h q index) (update_at slots i i t refl) ∙ e in
    let freed =
      ap (λ q. lookup_below h q index) (update_at slots i i null refl) ∙ lookup_null h index in
    elim (Bool-cases root) [
      | inl a ↦ rw a kept
      | inr a ↦ elim (Bool-cases (count_of t == 0)) [
        | inl b ↦ rw (a, b) freed
        | inr b ↦ rw (a, b) kept
      ]
    ]

child-Deleted :
    (root : Bool) (h s c : ℕ) (slots : ℕ → Tree) (tags : ℕ → ℕ → Bool) (index : ℕ)
    (o : Option (Tree × ℕ))
    → Deleted h (slots (slot_at (suc h) index)) index o
    → Deleted
        (suc h)
        (node s c slots tags)
        index
        (delete_child root s c slots tags (slot_at (suc h) index) o)
unfolding delete_child lookup_below
child-Deleted root h s c slots tags index none d = d
child-Deleted root h s c slots tags index (some (t, x)) d =
    (d.0, lookup-after_delete root h s c slots tags index t d.1)

-- `radix_tree_delete` below a node, of any tree and at any height, takes out the very item that
-- `radix_tree_lookup` finds, after which none is found there; it answers NULL exactly where no item
-- is found.
pub delete_below_lem :
    (root : Bool) (h : ℕ) (t : Tree) (index : ℕ) → Deleted h t index (delete_below root h t index)
unfolding delete_below lookup_below
delete_below_lem root zero (node s c slots tags) index = leaf-Deleted s c slots tags index _ refl
delete_below_lem root (suc h) (node s c slots tags) index =
    child-Deleted root h s c slots tags index _
      (delete_below_lem false h (slots (slot_at (suc h) index)) index)
delete_below_lem root zero null index = refl
delete_below_lem root (suc h) null index = refl
delete_below_lem root zero (item y) index = refl
delete_below_lem root (suc h) (item y) index = refl
