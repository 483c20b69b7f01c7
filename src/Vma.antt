-- ===== src/Vma.antt =====
-- mem/vma.c: the memory areas of an address space, in a red-black tree and in a list in order. An
-- area is known by its start, since the areas of a space do not overlap; `prev` and `next` are its
-- neighbours in the list. The field `rb_subtree_max_gap`, which is written and never read, is left
-- out.
pub mod Order
pub mod Descend
pub mod Insert
pub mod Remove
pub mod Unmapped
pub mod Full
mod Tests
use bored_os.Base.{
  ℕ, zero, suc, ◌+◌, ◌-◌, ◌*◌, ◌/◌, ◌%◌, ◌^◌, Bool, true, false, not, Option, none, some, List, [],
  ◌∷◌, ◌++◌, leb, ltb, ◌==◌, ◌&&◌, ◌||◌, if◌then◌else◌,
}
use bored_os.Rbtree.Erase.{erase}
use bored_os.Rbtree.{Color, Tree, leaf, node, red, left, right, Above, above, insert_fixup}

-- `vm_area_t`, less its links. A `backing_file` of 0 is NULL.
pub record Area : Type 0 where
  pub start : ℕ
  pub finish : ℕ
  pub kind : ℕ
  pub flags : ℕ
  pub backing_file : ℕ
  pub file_offset : ℕ

-- `vma_tree` and `vma_head` of an address space
pub record Space : Type 0 where
  pub tree : Tree Area
  pub areas : List Area

abbrev pub u64_mod : ℕ
u64_mod = 2 ^ 64

abbrev pub page_size : ℕ
page_size = 4096

-- `x & ~PAGE_MASK` and `(x + PAGE_MASK) & ~PAGE_MASK`
abbrev pub page_down : ℕ → ℕ
page_down x = x / page_size * page_size

abbrev pub page_up : ℕ → ℕ
page_up x = (x + 4095) % u64_mod / page_size * page_size

-- `vma_create`; `memory` says whether `kmalloc` finds room.
unfoldable pub create : Bool → ℕ → ℕ → ℕ → ℕ → Option Area
create memory start finish kind flags =
    if leb (page_up finish) (page_down start)
    then none
    else if memory
    then some (record {
      start = page_down start;
      finish = page_up finish;
      kind = kind;
      flags = flags;
      backing_file = 0;
      file_offset = 0;
    })
    else none

-- `vma_find`
unfoldable pub find : Tree Area → ℕ → Option Area
find leaf addr = none
find (node c l a r) addr =
    let in_left = find l addr in
    let in_right = find r addr in
    if leb a.start addr && ltb addr a.finish
    then some a
    else if ltb addr a.start
    then in_left
    else in_right

-- Whether an area meets the addresses from `lo` up to `hi`.
abbrev pub meets : ℕ → ℕ → Area → Bool
meets lo hi a = not (leb hi a.start || leb a.finish lo)

-- The loop of `vma_insert`: the place and `prev_node`; none where an area is in the way.
unfoldable pub descend :
    Area → Tree Area → List (Above Area) → Option Area → Option (List (Above Area) × Option Area)
descend v leaf path prev = some (path, prev)
descend v (node c l a r) path prev =
    let go_left = descend v l (above left c a r ∷ path) prev in
    let go_right = descend v r (above right c a l ∷ path) (some a) in
    if meets v.start v.finish a then none else if leb v.finish a.start then go_left else go_right

-- The new area follows the one that starts at `k` in the list.
unfoldable pub link_after : ℕ → Area → List Area → List Area
link_after k v [] = v ∷ []
link_after k v (a ∷ areas) = if a.start == k then a ∷ (v ∷ areas) else a ∷ link_after k v areas

unfoldable pub link_list : Option Area → Area → List Area → List Area
unfolding link_after
link_list none v areas = v ∷ areas
link_list (some prev) v areas = link_after prev.start v areas

abbrev pub changed : List Area → Option (Tree Area) → Option (Space × Bool)
changed areas none = none
changed areas (some tree) = some (record { tree = tree; areas = areas }, true)

-- The end of `vma_insert`, with the node that `rb_link_node` links.
unfoldable pub insert_at :
    Space → Area → Option (List (Above Area) × Option Area) → Option (Space × Bool)
unfolding link_list insert_fixup
insert_at s v none = some (s, false)
insert_at s v (some (path, prev)) =
    changed (link_list prev v s.areas) (insert_fixup (node red leaf v leaf) path)

-- `vma_insert`; none is an access through NULL.
unfoldable pub insert : Space → Area → Option (Space × Bool)
unfolding insert_at descend
insert s v = insert_at s v (descend v s.tree [] none)

-- The place of the node whose area starts at `k`; the code is given the node itself.
unfoldable pub place_of :
    ℕ
    → Tree Area
    → List (Above Area)
    → Option (Color × Tree Area × Area × Tree Area × List (Above Area))
place_of k leaf path = none
place_of k (node c l a r) path =
    let in_left = place_of k l (above left c a r ∷ path) in
    let in_right = place_of k r (above right c a l ∷ path) in
    if a.start == k then some (c, l, a, r, path) else if ltb k a.start then in_left else in_right

-- The area that starts at `k` leaves the list.
unfoldable pub unlink : ℕ → List Area → List Area
unlink k [] = []
unlink k (a ∷ areas) = if a.start == k then areas else a ∷ unlink k areas

abbrev pub removed :
    List Area → Option (Tree Area × Option Area) → Option (Space × Bool × Option Area)
removed areas none = none
removed areas (some (tree, stale)) = some (record { tree = tree; areas = areas }, true, stale)

unfoldable pub remove_at :
    ℕ
    → List Area
    → Option (Color × Tree Area × Area × Tree Area × List (Above Area))
    → Option (Space × Bool × Option Area)
unfolding unlink erase
remove_at k areas none = none
remove_at k areas (some (c, l, a, r, path)) = removed (unlink k areas) (erase c l r path)

-- `vma_remove` of the area that starts at `k`: the space by its child links and its list, the
-- result, and the area whose parent link is left at the one removed. None is an area that is not
-- there, or an access through NULL.
unfoldable pub remove : Space → ℕ → Option (Space × Bool × Option Area)
unfolding remove_at place_of
remove s k = elim s.tree [
  | leaf ↦ some (s, false, none)
  | node c l a r ↦ remove_at k s.areas (place_of k (node c l a r) [])
]

-- VMA_TYPE_FILE
abbrev pub file_type : ℕ
file_type = 2

-- `vma_can_merge`
unfoldable pub can_merge : Area → Area → Bool
can_merge a b =
    a.finish == b.start
    && (a.kind == b.kind
        && (a.flags == b.flags
            && (a.backing_file == b.backing_file
                && (not (a.kind == file_type)
                    || ((a.file_offset + (a.finish - a.start)) % u64_mod == b.file_offset)))))

-- The right half of `vma_split`, made of what `vma_create` answers.
unfoldable pub right_half : Area → ℕ → Area → Area
right_half a at b = record b {
  backing_file = a.backing_file;
  file_offset =
      if a.kind == file_type then (a.file_offset + (at - a.start)) % u64_mod else b.file_offset;
}

-- `vma_split`: both halves.
unfoldable pub split : Bool → Area → ℕ → Option (Area × Area)
unfolding create right_half
split memory a addr =
    let at = page_down addr in
    if leb at a.start || leb a.finish at
    then none
    else (elim (create memory at a.finish a.kind a.flags) [
      | none ↦ none
      | some b ↦ some (record a { finish = at }, right_half a at b)
    ])

-- `(x + align_mask) & ~align_mask`, for a power of two.
abbrev pub align_up : ℕ → ℕ → ℕ
align_up alignment x = (x + (alignment - 1)) % u64_mod / alignment * alignment

abbrev pub larger : ℕ → ℕ → ℕ
larger a b = if ltb a b then b else a

abbrev pub smaller : ℕ → ℕ → ℕ
smaller a b = if ltb b a then b else a

-- `curr->next ? curr->next->start : max_addr`
abbrev pub next_start : List Area → ℕ → ℕ
next_start [] top = top
next_start (a ∷ areas) top = a.start

-- The loop of `vma_find_unmapped_area`; 0 is none.
unfoldable pub scan : ℕ → ℕ → ℕ → ℕ → List Area → ℕ
scan alignment bottom top len [] = 0
scan alignment bottom top len (a ∷ areas) =
    let candidate = larger (align_up alignment a.finish) bottom in
    let gap_end = smaller (next_start areas top) top in
    let rest = scan alignment bottom top len areas in
    if leb candidate gap_end && leb len (gap_end - candidate) then candidate else rest

-- The end of `vma_find_unmapped_area`, with the aligned bounds.
unfoldable pub unmapped_from : ℕ → ℕ → ℕ → ℕ → List Area → ℕ
unfolding scan
unmapped_from alignment bottom top len [] = if leb ((bottom + len) % u64_mod) top then bottom else 0
unmapped_from alignment bottom top len (a ∷ areas) =
    if leb ((bottom + len) % u64_mod) a.start
    then bottom
    else scan alignment bottom top len (a ∷ areas)

-- `vma_find_unmapped_area`
unfoldable pub find_unmapped_area : List Area → ℕ → ℕ → ℕ → ℕ → ℕ
unfolding unmapped_from
find_unmapped_area areas bottom top len alignment =
    let align = larger alignment page_size in
    if len == 0 || (leb top bottom || ltb (top - bottom) len)
    then 0
    else unmapped_from align (align_up align bottom) top (page_up len) areas
