-- ===== src/Vma/Descend.antt =====
-- The loop of `vma_insert`: the place it comes to.
use mathlib.Core.Path.{subst}
use bored_os.Base.{
  ℕ, ◌≤◌, ◌≡◌, refl, sym, ap, ◌∙◌, Bool, true, false, Option, none, some, List, [], ◌∷◌, ◌++◌, leb,
  ◌||◌, if◌then◌else◌, arith, Bool-cases, inl, inr, append_assoc,
}
use bored_os.Rbtree.{Tree, leaf, node, Color, left, right, Above, above, to_list}
use bored_os.Rbtree.Below.{Fits, IsBalanced-children}
use bored_os.Rbtree.Order.{before, after}
use bored_os.Rbtree.Balance.{IsBalanced, IsBalancedAbove, IsRedBlack}
use bored_os.Vma.{Area, Space, meets, descend}
use bored_os.Vma.Order.{IsOrdered, ends, ends-append}

-- The tree is red-black and holds the areas of the list, which are in order.
pub record IsSpace (s : Space) : Type 0 where
  pub balanced : IsRedBlack s.tree
  pub same : to_list s.tree ≡ s.areas
  pub ordered : IsOrdered 0 s.areas

-- Whether an area is in the way.
unfoldable pub any_meets : Area → List Area → Bool
any_meets v [] = false
any_meets v (a ∷ areas) = meets v.start v.finish a || any_meets v areas

-- The area before the first that begins at its end or later.
unfoldable pub place : Area → List Area → List Area
place v [] = v ∷ []
place v (a ∷ areas) = if leb v.finish a.start then v ∷ (a ∷ areas) else a ∷ place v areas

-- The first of some areas begins at `hi` or later.
abbrev pub StartsFrom : ℕ → List Area → Type 0
StartsFrom hi [] = Unit {0}
StartsFrom hi (a ∷ areas) = hi ≤ a.start

abbrev pub last? : List Area → Option Area
last? [] = none
last? (a ∷ []) = some a
last? (a ∷ (b ∷ areas)) = last? (b ∷ areas)

last-append : (xs : List Area) (y : Area) → last? (xs ++ y ∷ []) ≡ some y
last-append [] y = refl
last-append (x ∷ []) y = refl
last-append (x ∷ (z ∷ xs)) y = last-append (z ∷ xs) y

-- A place that fits: the areas before it end by `lo`, those after it begin from `hi` on.
abbrev pub IsGap : Area → List (Above Area) → Type 0
IsGap v path = (ends 0 (before path) ≤ v.start) × StartsFrom v.finish (after path)

-- What `descend` finds from a place on.
abbrev pub Found :
    Area → Tree Area → List (Above Area) → Option (List (Above Area) × Option Area) → Type 0
Found v t path none = any_meets v (before path ++ (to_list t ++ after path)) ≡ true
Found v t path (some (path', prev)) =
    (before path' ++ after path' ≡ before path ++ (to_list t ++ after path))
    × IsGap v path'
    × (prev ≡ last? (before path'))
    × IsBalancedAbove 0 path'

pub any_meets-append :
    (v : Area) (xs ys : List Area) → any_meets v (xs ++ ys) ≡ (any_meets v xs || any_meets v ys)
unfolding any_meets
any_meets-append v [] ys = refl
any_meets-append v (x ∷ xs) ys = ground (arith, any_meets-append v xs ys)

-- The areas under a node that is turned left at, and right at.
pub left_list :
    (path : List (Above Area)) (c : Color) (l r : Tree Area) (a : Area)
    → before (above left c a r ∷ path) ++ (to_list l ++ after (above left c a r ∷ path))
      ≡ before path ++ (to_list (node c l a r) ++ after path)
unfolding to_list
left_list path c l r a = simp append_assoc

pub right_list :
    (path : List (Above Area)) (c : Color) (l r : Tree Area) (a : Area)
    → before (above right c a l ∷ path) ++ (to_list r ++ after (above right c a l ∷ path))
      ≡ before path ++ (to_list (node c l a r) ++ after path)
unfolding to_list
right_list path c l r a = simp append_assoc

move-Found :
    (v : Area) (t t' : Tree Area) (path path' : List (Above Area))
    → (o : Option (List (Above Area) × Option Area))
    → before path' ++ (to_list t' ++ after path') ≡ before path ++ (to_list t ++ after path)
    → Found v t' path' o
    → Found v t path o
move-Found v t t' path path' none e h = ap (any_meets v) (sym e) ∙ h
move-Found v t t' path path' (some (p, q)) e h = (h.0 ∙ e, h.1, h.2, h.3)

-- The ends of what stands before a place that is turned right to.
ends-right :
    (path : List (Above Area)) (c : Color) (l : Tree Area) (a : Area)
    → ends 0 (before (above right c a l ∷ path)) ≡ a.finish
ends-right path c l a =
    ap (ends 0) (sym (append_assoc (before path) (to_list l) (a ∷ [])))
    ∙ ends-append 0 (before path ++ to_list l) a

last-right :
    (path : List (Above Area)) (c : Color) (l : Tree Area) (a : Area)
    → some a ≡ last? (before (above right c a l ∷ path))
last-right path c l a = sym (
    ap last? (sym (append_assoc (before path) (to_list l) (a ∷ [])))
    ∙ last-append (before path ++ to_list l) a)

any_meets-here :
    (v a : Area) (xs ys zs ws : List Area)
    → meets v.start v.finish a ≡ true
    → any_meets v (xs ++ ((ys ++ (a ∷ zs)) ++ ws)) ≡ true
unfolding any_meets
any_meets-here v a xs ys zs ws e =
    any_meets-append v xs ((ys ++ (a ∷ zs)) ++ ws)
    ∙ ap (λ k. any_meets v xs || k)
        (any_meets-append v (ys ++ (a ∷ zs)) ws
          ∙ ap (λ k. k || any_meets v ws)
              (any_meets-append v ys (a ∷ zs)
                ∙ ap (λ k. any_meets v ys || (k || any_meets v zs)) e))
    ∙ ground arith

a_before :
    (v a : Area)
    → meets v.start v.finish a ≡ false
    → leb v.finish a.start ≡ false
    → a.finish ≤ v.start
a_before v a q k = ground arith

-- The loop of `vma_insert` comes to a gap with nothing in the way, or to an area that is.
pub descend-Found :
    (v : Area) (t : Tree Area) (n : ℕ) (path : List (Above Area)) (prev : Option Area)
    → IsBalanced n t
    → IsBalancedAbove n path
    → Fits t path
    → IsGap v path
    → prev ≡ last? (before path)
    → Found v t path (descend v t path prev)
unfolding descend to_list
descend-Found v leaf n path prev h p f g e = (refl, g, e, subst (λ k. IsBalancedAbove k path) h p)
descend-Found v (node c l a r) n path prev h p f g e =
    let (m, hl, hr, pl, pr, fl, fr) = IsBalanced-children n c l r a path h p f in
    elim (Bool-cases (meets v.start v.finish a)) [
      | inl q ↦ rw q (any_meets-here v a (before path) (to_list l) (to_list r) (after path) q)
      | inr q ↦ elim (Bool-cases (leb v.finish a.start)) [
        | inl k ↦
            rw (q, k)
              (move-Found v (node c l a r) l path (above left c a r ∷ path)
                (descend v l (above left c a r ∷ path) prev) (left_list path c l r a)
                (descend-Found v l m (above left c a r ∷ path) prev hl pl fl (g.0, ground arith) e))
        | inr k ↦
            rw (q, k)
              (move-Found v (node c l a r) r path (above right c a l ∷ path)
                (descend v r (above right c a l ∷ path) (some a)) (right_list path c l r a)
                (descend-Found v r m (above right c a l ∷ path) (some a) hr pr fr
                  (omega (arith, ends-right path c l a, a_before v a q k), g.1)
                  (last-right path c l a)))
      ]
    ]
