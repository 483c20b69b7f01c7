-- ===== src/Radix.antt =====
-- mem/radix_tree.c: a tree of 64-way nodes that maps page indices to items.
-- A slot holds NULL, an item or a node; which of the last two is known from the height. A read
-- through NULL, or of an item as a node, is `none`. Nodes are not shared, so an update of a node in
-- place is a new value of the path to it. `memory` is the number of nodes that `kmalloc` can give.
pub mod Shape
pub mod Lookup
pub mod Delete
pub mod Faults
pub mod Tags
mod Tests
use bored_os.Base.{
  ℕ, zero, suc, ◌+◌, ◌-◌, ◌*◌, ◌/◌, ◌%◌, ◌^◌, Bool, true, false, not, Option, none, some, List, [],
  ◌∷◌, leb, ltb, ◌==◌, ◌&&◌, ◌||◌, if◌then◌else◌,
}
use bored_os.Base.Arrays.{update}

-- What a slot holds. A node has its shift, its count, its slots, and its tags: a bit for each tag
-- and slot.
pub data Tree : Type 0 where
  null : Tree
  item : ℕ → Tree
  node : ℕ → ℕ → (ℕ → Tree) → (ℕ → ℕ → Bool) → Tree

-- `radix_tree_root_t`
pub record Root : Type 0 where
  pub height : ℕ
  pub rnode : Tree

abbrev pub map_shift : ℕ
map_shift = 6

abbrev pub map_size : ℕ
map_size = 64

abbrev pub max_tags : ℕ
max_tags = 2

abbrev pub is_null : Tree → Bool
is_null null = true
is_null _ = false

-- `height_to_maxindex[h]`, as `init_maxindex` fills it.
pub max_index : ℕ → ℕ
max_index zero = 0
max_index (suc h) = max_index h * 64 + 63

-- The shift of the slots of a node at height `h + 1`, as a power of two.
pub weight : ℕ → ℕ
weight zero = 1
weight (suc h) = weight h * 64

-- `(index >> shift) & RADIX_TREE_MAP_MASK` at height `h + 1`.
pub slot_at : ℕ → ℕ → ℕ
unfolding weight
slot_at h index = index / weight h % 64

-- `radix_node_alloc`, with the slots and tags zeroed.
pub new_node : ℕ → Tree
new_node shift = node shift 0 (λ i. null) (λ tag i. false)

-- `radix_tree_init`
abbrev pub init : Root
init = record { height = 0; rnode = null }

-- The first loop of `radix_tree_extend`: the height that is needed, from `height` on, with 8 -
-- height rounds left; none is the result -1.
pub needed_height : ℕ → ℕ → ℕ → Option ℕ
unfolding max_index
needed_height zero height index = none
needed_height (suc k) height index =
    let rest = needed_height k (height + 1) index in
    if leb index (max_index height) then some height else rest

-- Whether some slot of a node has the tag: `node->tags[tag] != 0`.
pub any_tagged : ℕ → (ℕ → Bool) → Bool
any_tagged zero bits = false
any_tagged (suc k) bits = any_tagged k bits || bits k

abbrev pub tagged_node : Tree → ℕ → Bool
tagged_node (node s c slots tags) tag = any_tagged map_size (tags tag)
tagged_node _ tag = false

-- One round of the second loop: a new root node over the old root.
grow_once : Root → Root
unfolding any_tagged
grow_once r = record {
  height = r.height + 1;
  rnode =
      node (r.height * map_shift) 1 (update (λ i. null) 0 r.rnode)
        (λ tag i. i == 0 && (ltb 0 r.height && tagged_node r.rnode tag));
}

-- The second loop, with `k` rounds to make: the root, the memory left, and whether it was done.
grow : ℕ → ℕ → Root → Root × ℕ × Bool
unfolding grow_once
grow zero memory r = (r, memory, true)
grow (suc k) zero r = (r, 0, false)
grow (suc k) (suc memory) r = grow k memory (grow_once r)

-- `radix_tree_extend`
pub extend : ℕ → Root → ℕ → Root × ℕ × Bool
unfolding needed_height
extend memory r index = elim (needed_height (8 - r.height) r.height index) [
  | none ↦ (r, memory, false)
  | some h ↦
      if is_null r.rnode
      then (record r { height = h }, memory, true)
      else grow (h - r.height) memory r
]

-- The walk of `radix_tree_insert` below a node at height `h + 1`, and its last steps: the new tree,
-- the memory left, and whether the item was put in.
pub insert_below : ℕ → ℕ → Tree → ℕ → ℕ → Option (Tree × ℕ × Bool)
unfolding slot_at
insert_below h memory null index x = none
insert_below h memory (item y) index x = none
insert_below zero memory (node s c slots tags) index x =
    let i = slot_at 0 index in
    if is_null (slots i)
    then some (node s (c + 1) (update slots i (item x)) tags, memory, true)
    else some (node s c slots tags, memory, false)
insert_below (suc h) memory (node s c slots tags) index x =
    let i = slot_at (suc h) index in
    let fresh = insert_below h (memory - 1) (new_node (h * map_shift)) index x in
    let old = insert_below h memory (slots i) index x in
    if is_null (slots i)
    then (if memory == 0 then some (node s c slots tags, memory, false) else elim fresh [
      | none ↦ none
      | some (t, m, ok) ↦ some (node s (c + 1) (update slots i t) tags, m, ok)
    ])
    else elim old [ none ↦ none | some (t, m, ok) ↦ some (node s c (update slots i t) tags, m, ok) ]

-- `radix_tree_insert` once the tree is high enough, by its height.
pub insert_by : ℕ → ℕ → Root → ℕ → ℕ → Option (Root × ℕ × Bool)
unfolding insert_below
insert_by zero memory r index x =
    if is_null r.rnode
    then some (record r { rnode = item x }, memory, true)
    else some (r, memory, false)
insert_by (suc h) memory r index x = elim (insert_below h memory r.rnode index x) [
  | none ↦ none
  | some (t, m, ok) ↦ some (record r { rnode = t }, m, ok)
]

-- `radix_tree_insert`, where the item 0 is NULL; the flag is whether the result is 0, and `none` is
-- a read through NULL.
pub insert : ℕ → Root → ℕ → ℕ → Option (Root × ℕ × Bool)
unfolding extend insert_by
insert memory r index x =
    if x == 0
    then some (r, memory, false)
    else if leb index (max_index r.height)
    then insert_by r.height memory r index x
    else (let (r', m, ok) = extend memory r index in
        if ok then insert_by r'.height m r' index x else some (r', m, false))

abbrev pub item_of : Tree → Option ℕ
item_of null = none
item_of (item y) = some y
item_of (node s c slots tags) = none

-- The walk of `radix_tree_lookup` below a node at height `h + 1`.
pub lookup_below : ℕ → Tree → ℕ → Option ℕ
unfolding slot_at
lookup_below zero (node s c slots tags) index = item_of (slots (slot_at 0 index))
lookup_below (suc h) (node s c slots tags) index =
    lookup_below h (slots (slot_at (suc h) index)) index
lookup_below h null index = none
lookup_below h (item y) index = none

lookup_by : ℕ → Tree → ℕ → Option ℕ
unfolding lookup_below
lookup_by zero t index = if index == 0 then item_of t else none
lookup_by (suc h) t index = lookup_below h t index

-- `radix_tree_lookup`; none is NULL.
pub lookup : Root → ℕ → Option ℕ
unfolding lookup_by
lookup r index = if ltb (max_index r.height) index then none else lookup_by r.height r.rnode index

-- The walk of `radix_tree_tag_set` below a node at height `h + 1`; it stops where the path ends.
pub tag_below : ℕ → Tree → ℕ → ℕ → Tree
unfolding slot_at
tag_below zero (node s c slots tags) index tag =
    node s c slots (update tags tag (update (tags tag) (slot_at 0 index) true))
tag_below (suc h) (node s c slots tags) index tag =
    let i = slot_at (suc h) index in
    node s c (update slots i (tag_below h (slots i) index tag))
      (update tags tag (update (tags tag) i true))
tag_below h null index tag = null
tag_below h (item y) index tag = item y

tag_by : ℕ → Root → ℕ → ℕ → Root
unfolding tag_below
tag_by zero r index tag = r
tag_by (suc h) r index tag = record r { rnode = tag_below h r.rnode index tag }

-- `radix_tree_tag_set`
tag_set : Root → ℕ → ℕ → Root
unfolding tag_by
tag_set r index tag =
    if leb max_tags tag
    then r
    else if ltb (max_index r.height) index
    then r
    else tag_by r.height r index tag

-- The walk of `radix_tree_tag_get` below a node at height `h + 1`.
pub tagged_below : ℕ → Tree → ℕ → ℕ → Bool
unfolding slot_at
tagged_below zero (node s c slots tags) index tag = tags tag (slot_at 0 index)
tagged_below (suc h) (node s c slots tags) index tag =
    let i = slot_at (suc h) index in tags tag i && tagged_below h (slots i) index tag
tagged_below h null index tag = false
tagged_below h (item y) index tag = false

tagged_by : ℕ → Tree → ℕ → ℕ → Bool
unfolding tagged_below
tagged_by zero t index tag = false
tagged_by (suc h) t index tag = tagged_below h t index tag

-- `radix_tree_tag_get`
tag_get : Root → ℕ → ℕ → Bool
unfolding tagged_by
tag_get r index tag =
    if leb max_tags tag
    then false
    else if ltb (max_index r.height) index
    then false
    else tagged_by r.height r.rnode index tag

-- The two loops of `radix_tree_tag_clear` below a node at height `h + 1`: on the way back a node's
-- bit is cleared while the child below it has the tag no more. The flag says whether to go on.
untag_below : ℕ → Tree → ℕ → ℕ → Option (Tree × Bool)
unfolding slot_at any_tagged
untag_below zero (node s c slots tags) index tag =
    some (node s c slots (update tags tag (update (tags tag) (slot_at 0 index) false)), true)
untag_below (suc h) (node s c slots tags) index tag =
    let i = slot_at (suc h) index in
    elim (untag_below h (slots i) index tag) [
      | none ↦ none
      | some (t, more) ↦
          if more && not (tagged_node t tag)
          then some
              (node s c (update slots i t) (update tags tag (update (tags tag) i false)), true)
          else some (node s c (update slots i t) tags, false)
    ]
untag_below h null index tag = none
untag_below h (item y) index tag = none

untag_by : ℕ → Root → ℕ → ℕ → Root
unfolding untag_below
untag_by zero r index tag = r
untag_by (suc h) r index tag = elim (untag_below h r.rnode index tag) [
  | none ↦ r
  | some (t, more) ↦ record r { rnode = t }
]

-- `radix_tree_tag_clear`; where the path ends early it changes nothing.
tag_clear : Root → ℕ → ℕ → Root
unfolding untag_by
tag_clear r index tag =
    if leb max_tags tag
    then r
    else if ltb (max_index r.height) index
    then r
    else untag_by r.height r index tag
