-- ===== src/Rbtree/Erase/Whole.antt =====
-- `rb_erase_augmented` as a whole.
use mathlib.Core.Path.{subst}
use bored_os.Base.{
  ℕ, zero, suc, ◌≡◌, refl, ap, ◌∙◌, false, Option, none, some, List, [], ◌∷◌, ◌++◌, append_assoc,
}
use bored_os.Rbtree.{
  Color, red, black, Tree, leaf, node, Side, left, right, Above, above, to_list, is_red,
}
use bored_os.Rbtree.Order.{before, after}
use bored_os.Rbtree.Balance.{IsBalanced, IsBlackAbove, IsBalancedAbove, IsRedBlack}
use bored_os.Rbtree.Below.{Fits, IsBalanced-children}
use bored_os.Rbtree.Erase.{first_of, finish_erase, erase_inner, erase, stale_child, with_stale}
use bored_os.Rbtree.Erase.Fixup.{IsMade, plug-IsMade}
use bored_os.Rbtree.Erase.Loop.{erase_fixup-IsMade}

module _ {A : Type 0} where
  -- What is left of a balanced tree of `n` black nodes once its root, of a colour, went away.
  abbrev IsRest : Color → ℕ → Tree A → Type 0
  IsRest red n t = (is_red t ≡ false) × IsBalanced n t
  IsRest black zero t = ⊥
  IsRest black (suc n) t = IsBalanced n t

  right-IsRest :
      (c : Color) (n : ℕ) (l r : Tree A) (x : A) → IsBalanced n (node c l x r) → IsRest c n r
  right-IsRest red n l r x h = (h.1, h.3)
  right-IsRest black zero l r x h = absurd h
  right-IsRest black (suc n) l r x h = h.1

  left-IsRest :
      (c : Color) (n : ℕ) (l r : Tree A) (x : A) → IsBalanced n (node c l x r) → IsRest c n l
  left-IsRest red n l r x h = (h.0, h.2)
  left-IsRest black zero l r x h = absurd h
  left-IsRest black (suc n) l r x h = h.0

  finish_erase-IsMade :
      (c : Color) (n : ℕ) (child : Tree A) (path : List (Above A))
      → IsRest c n child
      → IsBalancedAbove n path
      → IsMade (before path ++ (to_list child ++ after path)) (finish_erase c child path)
  finish_erase-IsMade red n child path h p =
      plug-IsMade n child path (before path ++ (to_list child ++ after path)) h.1 h.0 p refl
  finish_erase-IsMade black zero child path h p = absurd h
  finish_erase-IsMade black (suc n) child path h p = erase_fixup-IsMade child path n h p

  -- The entry of a node above a place does not matter for the balance, nor for what is after.
  swap-IsBlackAbove :
      (steps : List (Above A)) (s : Side) (c : Color) (x y : A) (o : Tree A) (path : List (Above A))
      → IsBlackAbove (steps ++ (above s c x o ∷ path))
      → IsBlackAbove (steps ++ (above s c y o ∷ path))
  swap-IsBlackAbove [] s red x y o path h = h
  swap-IsBlackAbove [] s black x y o path h = h
  swap-IsBlackAbove (above s' black z b ∷ steps) s c x y o path h = h
  swap-IsBlackAbove (above s' red z b ∷ steps) s c x y o path h = h

  swap-IsBalancedAbove :
      (steps : List (Above A)) (n : ℕ) (s : Side) (c : Color) (x y : A) (o : Tree A)
      (path : List (Above A))
      → IsBalancedAbove n (steps ++ (above s c x o ∷ path))
      → IsBalancedAbove n (steps ++ (above s c y o ∷ path))
  swap-IsBalancedAbove [] n s red x y o path h = h
  swap-IsBalancedAbove [] n s black x y o path h = h
  swap-IsBalancedAbove (above s' black z b ∷ steps) n s c x y o path h =
      (h.0, swap-IsBalancedAbove steps (suc n) s c x y o path h.1)
  swap-IsBalancedAbove (above s' red z b ∷ steps) n s c x y o path h = (
    h.0,
    h.1,
    swap-IsBlackAbove steps s c x y o path h.2,
    swap-IsBalancedAbove steps n s c x y o path h.3,
  )

  after-append :
      (steps base base' : List (Above A))
      → after base ≡ after base'
      → after (steps ++ base) ≡ after (steps ++ base')
  after-append [] base base' e = e
  after-append (above left c x o ∷ steps) base base' e =
      ap (λ ys. x ∷ (to_list o ++ ys)) (after-append steps base base' e)
  after-append (above right c x o ∷ steps) base base' e = after-append steps base base' e

  -- The first node's place is left of all the steps to it, and its entry is the first of the tree.
  IsFirst : List A → List (Above A) → Color × A × Tree A × List (Above A) → Type 0
  IsFirst xs base (c, y, child, steps) =
      ((n : ℕ) × IsRest c n child × IsBalancedAbove n (steps ++ base))
      × ((b : List (Above A)) → before (steps ++ b) ≡ before b)
      × (y ∷ (to_list child ++ after (steps ++ base)) ≡ xs)

  first_of-IsFirst :
      (c : Color) (l : Tree A) (x : A) (r : Tree A) (steps base : List (Above A)) (n : ℕ)
      → IsBalanced n (node c l x r)
      → IsBalancedAbove n (steps ++ base)
      → Fits (node c l x r) (steps ++ base)
      → ((b : List (Above A)) → before (steps ++ b) ≡ before b)
      → IsFirst (to_list (node c l x r) ++ after (steps ++ base)) base (first_of c l x r steps)
  unfolding first_of IsFirst to_list
  first_of-IsFirst c leaf x r steps base n h p f b = ((n, right-IsRest c n leaf r x h, p), b, refl)
  first_of-IsFirst c (node lc ll lx lr) x r steps base n h p f b =
      let (m, hl, hr, pl, pr, fl, fr) =
        IsBalanced-children n c (node lc ll lx lr) r x (steps ++ base) h p f in
      subst (λ xs. IsFirst xs base (first_of lc ll lx lr (above left c x r ∷ steps)))
        (simp append_assoc)
        (first_of-IsFirst lc ll lx lr (above left c x r ∷ steps) base m hl pl fl b)

  -- With a left child, and a right child that has no left child but a right one: that one.
  abbrev pub stale_after : Tree A → Tree A → Option A
  stale_after leaf r = none
  stale_after (node c l x r) leaf = none
  stale_after (node c l x r) (node rc leaf rx leaf) = none
  stale_after (node c l x r) (node rc leaf rx (node d dl z dr)) = some z
  stale_after (node c l x r) (node rc (node d dl z dr) rx rr) = none

  -- What erasing comes to.
  abbrev pub IsErased : List A → Option A → Option (Tree A × Option A) → Type 0
  IsErased xs stale o = (u : Tree A) × (o ≡ some (u, stale)) × IsRedBlack u × (to_list u ≡ xs)

  with_stale-IsErased :
      (xs : List A) (stale : Option A) (o : Option (Tree A))
      → IsMade xs o
      → IsErased xs stale (with_stale stale o)
  with_stale-IsErased xs stale o (u, f, v, k) = (u, ap (with_stale stale) f, v, k)

  stale_found : Color × A × Tree A × List (Above A) → Option A
  stale_found (mc, y, child, steps) = stale_child child steps

  first_of-steps :
      (c : Color) (l : Tree A) (x : A) (r : Tree A) (a : Above A) (steps : List (Above A))
      → stale_found (first_of c l x r (a ∷ steps)) ≡ none
  unfolding first_of stale_found
  first_of-steps c leaf x leaf a steps = refl
  first_of-steps c leaf x (node d l z r) a steps = refl
  first_of-steps c (node lc ll lx lr) x r a steps =
      first_of-steps lc ll lx lr (above left c x r) (a ∷ steps)

  first_of-stale :
      (lc : Color) (ll : Tree A) (lx : A) (lr : Tree A) (c : Color) (l : Tree A) (x : A)
      (r : Tree A)
      → stale_found (first_of c l x r []) ≡ stale_after (node lc ll lx lr) (node c l x r)
  unfolding first_of stale_found
  first_of-stale lc ll lx lr c leaf x leaf = refl
  first_of-stale lc ll lx lr c leaf x (node d dl z dr) = refl
  first_of-stale lc ll lx lr c (node d dl z dr) x r = first_of-steps d dl z dr (above left c x r) []

  erase_inner-IsErased :
      (c : Color) (l r : Tree A) (x : A) (path : List (Above A))
      (o : Color × A × Tree A × List (Above A))
      → IsFirst (to_list r ++ after path) (above right c x l ∷ path) o
      → IsErased
          (before path ++ (to_list l ++ (to_list r ++ after path)))
          (stale_found o)
          (erase_inner c l o path)
  unfolding erase_inner IsFirst stale_found
  erase_inner-IsErased c l r x path (mc, y, child, steps) h =
      let base = above right c y l ∷ path in
      let (n, rest, p) = h.0 in
      let (u, f, v, k) =
        finish_erase-IsMade mc n child (steps ++ base) rest
          (swap-IsBalancedAbove steps n right c x y l path p) in
      (
        u,
        ap (with_stale (stale_child child steps)) f,
        v,
        k
            ∙ ap (λ ys. ys ++ (to_list child ++ after (steps ++ base))) (h.1 base)
            ∙ ap (λ ys. before base ++ (to_list child ++ ys))
                (after-append steps base (above right c x l ∷ path) refl)
            ∙ inner_list y child steps
            ∙ ap (λ ys. before path ++ (to_list l ++ ys)) h.2,
      )
    where
      inner_list :
          (y : A) (child : Tree A) (steps : List (Above A))
          → before (above right c y l ∷ path)
              ++ (to_list child ++ after (steps ++ (above right c x l ∷ path)))
            ≡ before path
              ++ (to_list l ++ (y ∷ (to_list child ++ after (steps ++ (above right c x l ∷ path)))))
      inner_list y child steps = simp append_assoc

  -- `rb_erase_augmented` of the node at a place of a red-black tree follows no NULL, makes a tree
  -- that is red-black by its child links, and keeps all other entries, in order. The parent links
  -- are right too, but for one case: where the node has a left child, and its right child has no
  -- left child but a right one, the parent link of that one is left at the erased node.
  pub erase-IsErased :
      (c : Color) (l : Tree A) (x : A) (r : Tree A) (path : List (Above A)) (n : ℕ)
      → IsBalanced n (node c l x r)
      → IsBalancedAbove n path
      → Fits (node c l x r) path
      → IsErased
          (before path ++ (to_list l ++ (to_list r ++ after path)))
          (stale_after l r)
          (erase c l r path)
  unfolding erase to_list
  erase-IsErased c leaf x r path n h p f =
      with_stale-IsErased _ none _ (finish_erase-IsMade c n r path (right-IsRest c n leaf r x h) p)
  erase-IsErased c (node lc ll lx lr) x leaf path n h p f = with_stale-IsErased _ none _ (
      finish_erase-IsMade c n (node lc ll lx lr) path (left-IsRest c n (node lc ll lx lr) leaf x h)
        p)
  erase-IsErased c (node lc ll lx lr) x (node rc rl rx rr) path n h p f =
      let l = node lc ll lx lr in
      let r = node rc rl rx rr in
      let (m, hl, hr, pl, pr, fl, fr) = IsBalanced-children n c l r x path h p f in
      subst
        (λ o.
          IsErased (before path ++ (to_list l ++ (to_list r ++ after path))) o
            (erase_inner c l (first_of rc rl rx rr []) path))
        (first_of-stale lc ll lx lr rc rl rx rr)
        (erase_inner-IsErased c l r x path (first_of rc rl rx rr [])
          (first_of-IsFirst rc rl rx rr [] (above right c x l ∷ path) m hr pr fr (λ b. refl)))
