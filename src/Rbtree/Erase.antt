-- ===== src/Rbtree/Erase.antt =====
-- core/lib/rbtree.c: erasing from a red-black tree.
-- A node is known by its place. The cases on the two sides are one, with `near` and `far` for the
-- children of the sibling.
pub mod Fixup
pub mod Loop
pub mod Whole
use bored_os.Base.{
  ℕ, zero, suc, Bool, true, false, not, Option, none, some, List, [], ◌∷◌, ◌++◌, ◌==◌, ◌&&◌,
  if◌then◌else◌,
}
use bored_os.Rbtree.{
  Color, red, black, Tree, leaf, node, Side, left, right, Above, above, is_red, blacken, plug, join,
}

-- The child of the sibling on the side of the place, and the other one.
abbrev pub near : {A : Type 0} → Side → Tree A → Tree A → Tree A
near left l r = l
near right l r = r

abbrev pub far : {A : Type 0} → Side → Tree A → Tree A → Tree A
far left l r = r
far right l r = l

abbrev pub redden : {A : Type 0} → Tree A → Tree A
redden leaf = leaf
redden (node c l x r) = node red l x r

-- The two rotations of `rb_erase_fixup` where only the near child of the sibling is red; none is a
-- rotation round NULL.
unfoldable pub rotate_near :
    {A : Type 0}
    → Side
    → Color
    → A
    → A
    → Tree A
    → Tree A
    → Tree A
    → List (Above A)
    → Option (Tree A)
unfolding plug
rotate_near s c x z leaf outer t path = none
rotate_near s c x z (node nc l y r) outer t path = some (
    blacken
      (plug (join s c y (join s black z outer (far s l r)) (join s black x (near s l r) t)) path))

-- The round of `rb_erase_fixup` with a sibling that is not red; `up` is what comes of going on with
-- the parent. None is an access through NULL.
unfoldable pub balance :
    {A : Type 0}
    → Side
    → Color
    → A
    → Tree A
    → Tree A
    → List (Above A)
    → Option (Tree A)
    → Option (Tree A)
unfolding rotate_near plug
balance s c x leaf t path up = none
balance s c x (node sc l z r) t path up =
    if not (is_red (near s l r)) && not (is_red (far s l r))
    then up
    else if is_red (far s l r)
    then some
        (blacken (plug (join s c z (blacken (far s l r)) (join s black x (near s l r) t)) path))
    else rotate_near s c x z (near s l r) (far s l r) t path

-- The round with any sibling. A red one is rotated up first, and then the parent is red, with which
-- the loop does not go on.
unfoldable pub round :
    {A : Type 0}
    → Side
    → Color
    → A
    → Tree A
    → Tree A
    → List (Above A)
    → Option (Tree A)
    → Option (Tree A)
unfolding balance
round s c x leaf t path up = none
round s c x (node black l z r) t path up = balance s c x (node black l z r) t path up
round s c x (node red l z r) t path up =
    balance s red x (near s l r) t (above s black z (far s l r) ∷ path) (
      some (
        plug (blacken (join s red x (redden (near s l r)) t)) (above s black z (far s l r) ∷ path)))

-- `rb_erase_fixup`
unfoldable pub erase_fixup : {A : Type 0} → Tree A → List (Above A) → Option (Tree A)
unfolding round plug
erase_fixup t [] = some (blacken t)
erase_fixup t (above s c x sibling ∷ path) =
    let up = erase_fixup (join s c x (redden sibling) t) path in
    if is_red t
    then some (plug (blacken t) (above s c x sibling ∷ path))
    else round s c x sibling t path up

-- The first node of a tree: its colour, its entry, its right child, and its place.
unfoldable pub first_of :
    {A : Type 0}
    → Color
    → Tree A
    → A
    → Tree A
    → List (Above A)
    → Color × A × Tree A × List (Above A)
first_of c leaf x r path = (c, x, r, path)
first_of c (node lc ll lx lr) x r path = first_of lc ll lx lr (above left c x r ∷ path)

-- The end of `rb_erase_augmented`, with the colour that went away.
abbrev pub finish_erase : {A : Type 0} → Color → Tree A → List (Above A) → Option (Tree A)
finish_erase red child path = some (plug child path)
finish_erase black child path = erase_fixup child path

-- The child of the node that takes the place, if its `rb_parent` is left at the erased node:
-- `parent` is corrected after the child got it, where the node is the right child itself.
abbrev pub stale_child : {A : Type 0} → Tree A → List (Above A) → Option A
stale_child leaf steps = none
stale_child (node c l x r) [] = some x
stale_child (node c l x r) (a ∷ steps) = none

abbrev pub with_stale : {A : Type 0} → Option A → Option (Tree A) → Option (Tree A × Option A)
with_stale stale none = none
with_stale stale (some t) = some (t, stale)

-- With two children, the first node of the right one takes the node's place and colour.
unfoldable pub erase_inner :
    {A : Type 0}
    → Color
    → Tree A
    → Color × A × Tree A × List (Above A)
    → List (Above A)
    → Option (Tree A × Option A)
unfolding erase_fixup plug
erase_inner c l (mc, y, child, steps) path =
    with_stale (stale_child child steps)
      (finish_erase mc child (steps ++ (above right c y l ∷ path)))

-- `rb_erase_augmented` of the node with these children, at a place: the tree by its child links,
-- and the entry whose parent link is left at the erased node. None is an access through NULL.
unfoldable pub erase :
    {A : Type 0} → Color → Tree A → Tree A → List (Above A) → Option (Tree A × Option A)
unfolding erase_inner erase_fixup first_of plug
erase c leaf r path = with_stale none (finish_erase c r path)
erase c (node lc ll lx lr) leaf path = with_stale none (finish_erase c (node lc ll lx lr) path)
erase c (node lc ll lx lr) (node rc rl rx rr) path =
    erase_inner c (node lc ll lx lr) (first_of rc rl rx rr []) path
