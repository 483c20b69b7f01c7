-- ===== src/Rbtree.antt =====
-- core/lib/rbtree.c: red-black trees. A place in a tree is the list of the nodes above it, each
-- with its other child, nearest first: what the code reaches by `rb_parent`. The callback that
-- renews a node's data is left out.
pub mod Order
pub mod Balance
pub mod Below
pub mod Erase
use bored_os.Base.{
  ℕ, zero, suc, ◌+◌, Bool, true, false, Option, none, some, List, [], ◌∷◌, ◌++◌, ◌==◌, ◌&&◌,
  if◌then◌else◌,
}

-- RB_RED and RB_BLACK
pub data Color : Type 0 where
  red black : Color

pub data Tree (A : Type 0) : Type 0 where
  leaf : Tree A
  node : Color → Tree A → A → Tree A → Tree A

-- Which child the place is of the node above it.
pub data Side : Type 0 where
  left right : Side

-- A node above a place: the side on which the place is, its colour, its entry and its other child.
pub data Above (A : Type 0) : Type 0 where
  above : Side → Color → A → Tree A → Above A

-- The entries in order, as `rb_first` and `rb_next` visit them.
unfoldable pub to_list : {A : Type 0} → Tree A → List A
to_list leaf = []
to_list (node c l x r) = to_list l ++ (x ∷ to_list r)

abbrev pub is_red : {A : Type 0} → Tree A → Bool
is_red leaf = false
is_red (node red l x r) = true
is_red (node black l x r) = false

abbrev pub blacken : {A : Type 0} → Tree A → Tree A
blacken leaf = leaf
blacken (node c l x r) = node black l x r

-- The whole tree with `t` at the place.
unfoldable pub plug : {A : Type 0} → Tree A → List (Above A) → Tree A
plug t [] = t
plug t (above left c x other ∷ path) = plug (node c t x other) path
plug t (above right c x other ∷ path) = plug (node c other x t) path

-- The rotations of `rb_insert_augmented` where the uncle is not red, with the colours: the node,
-- its side of its parent, the parent's entry and other child, the parent's side of the grandparent,
-- and the grandparent's entry and other child. None is a rotation round NULL.
unfoldable pub rotate :
    {A : Type 0} → Tree A → Side → A → Tree A → Side → A → Tree A → Option (Tree A)
rotate t left p sibling left g uncle = some (node black t p (node red sibling g uncle))
rotate leaf right p sibling left g uncle = none
rotate (node c l x r) right p sibling left g uncle =
    some (node black (node red sibling p l) x (node red r g uncle))
rotate t right p sibling right g uncle = some (node black (node red uncle g sibling) p t)
rotate leaf left p sibling right g uncle = none
rotate (node c l x r) left p sibling right g uncle =
    some (node black (node red uncle g l) x (node red r p sibling))

-- The child `t` of a node, on a side.
abbrev pub join : {A : Type 0} → Side → Color → A → Tree A → Tree A → Tree A
join left c x other t = node c t x other
join right c x other t = node c other x t

abbrev pub plugged : {A : Type 0} → Option (Tree A) → List (Above A) → Option (Tree A)
plugged none path = none
plugged (some t) path = some (blacken (plug t path))

-- `rb_insert_augmented` from the node `t` on; none is an access through NULL.
unfoldable pub insert_fixup : {A : Type 0} → Tree A → List (Above A) → Option (Tree A)
unfolding plug rotate
insert_fixup t [] = some (blacken t)
insert_fixup t (above s black x other ∷ path) =
    some (blacken (plug t (above s black x other ∷ path)))
insert_fixup t (above s red x other ∷ []) = none
insert_fixup t (above s red p sibling ∷ (above s' c g uncle ∷ path)) =
    let up = insert_fixup (join s' red g (blacken uncle) (join s black p sibling t)) path in
    if is_red uncle then up else plugged (rotate t s p sibling s' g uncle) path
