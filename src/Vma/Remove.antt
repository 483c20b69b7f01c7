-- ===== src/Vma/Remove.antt =====
-- `vma_remove` takes an area from the tree and from the list.
use mathlib.Core.Path.{subst}
use bored_os.Base.{
  ℕ, ◌<◌, ◌≤◌, ◌≡◌, refl, sym, ap, ◌∙◌, Bool, true, false, Option, none, some, List, [], ◌∷◌, ◌++◌,
  ltb, ◌==◌, ◌||◌, arith, Bool-cases, inl, inr, append_assoc, append-nil,
}
use bored_os.Rbtree.{Tree, leaf, node, Color, left, right, Above, above, to_list}
use bored_os.Rbtree.Order.{before, after}
use bored_os.Rbtree.Balance.{IsBalanced, IsBalancedAbove}
use bored_os.Rbtree.Below.{Fits, IsBalanced-children}
use bored_os.Rbtree.Erase.{erase}
use bored_os.Rbtree.Erase.Whole.{stale_after, erase-IsErased}
use bored_os.Vma.{Area, Space, place_of, unlink, removed, remove_at, remove}
use bored_os.Vma.Order.{IsOrdered, ends, IsOrdered-append, le-ends}
use bored_os.Vma.Descend.{IsSpace, left_list, right_list}

-- Whether an area starts at `k`.
has : ℕ → List Area → Bool
has k [] = false
has k (a ∷ areas) = a.start == k || has k areas

has_below : (lo k : ℕ) (xs : List Area) → IsOrdered lo xs → k < lo → has k xs ≡ false
unfolding has
has_below lo k [] h e = refl
has_below lo k (x ∷ xs) h e =
    ground (arith, has_below x.finish k xs h.2 (omega (arith, h.0, h.1)), h.0)

has_above : (lo k : ℕ) (xs : List Area) → IsOrdered lo xs → ends lo xs ≤ k → has k xs ≡ false
unfolding has
has_above lo k [] h e = refl
has_above lo k (x ∷ xs) h e =
    ground (arith, has_above x.finish k xs h.2 e, le-ends x.finish xs h.2, h.1)

has-append : (k : ℕ) (xs ys : List Area) → has k (xs ++ ys) ≡ (has k xs || has k ys)
unfolding has
has-append k [] ys = refl
has-append k (x ∷ xs) ys = ground (arith, has-append k xs ys)

same_start : (a : Area) (k : ℕ) → a.start == k ≡ true → a.start ≡ k
same_start a k q = ground arith

-- What `place_of` finds in a tree at a place.
abbrev IsPlaced :
    ℕ
    → Tree Area
    → List (Above Area)
    → Option (Color × Tree Area × Area × Tree Area × List (Above Area))
    → Type 0
IsPlaced k t path none = has k (to_list t) ≡ false
IsPlaced k t path (some (c, l, a, r, path')) =
    (a.start ≡ k)
    × (before path' ++ (to_list (node c l a r) ++ after path')
        ≡ before path ++ (to_list t ++ after path))
    × ((n : ℕ) × IsBalanced n (node c l a r) × IsBalancedAbove n path' × Fits (node c l a r) path')

move-IsPlaced :
    (k : ℕ) (t t' : Tree Area) (path path' : List (Above Area))
    → (o : Option (Color × Tree Area × Area × Tree Area × List (Above Area)))
    → before path' ++ (to_list t' ++ after path') ≡ before path ++ (to_list t ++ after path)
    → (has k (to_list t') ≡ false → has k (to_list t) ≡ false)
    → IsPlaced k t' path' o
    → IsPlaced k t path o
move-IsPlaced k t t' path path' none e g h = g h
move-IsPlaced k t t' path path' (some (c, l, a, r, p)) e g h = (h.0, h.1 ∙ e, h.2)

place_of-IsPlaced :
    (lo k : ℕ) (t : Tree Area) (n : ℕ) (path : List (Above Area))
    → IsOrdered lo (to_list t)
    → IsBalanced n t
    → IsBalancedAbove n path
    → Fits t path
    → IsPlaced k t path (place_of k t path)
unfolding place_of to_list has
place_of-IsPlaced lo k leaf n path o h p f = refl
place_of-IsPlaced lo k (node c l a r) n path o h p f =
    let (ol, or) = IsOrdered-append lo (to_list l) (a ∷ to_list r) o in
    let (m, hl, hr, pl, pr, fl, fr) = IsBalanced-children n c l r a path h p f in
    let e = has-append k (to_list l) (a ∷ to_list r) in
    elim (Bool-cases (a.start == k)) [
      | inl q ↦ rw q (same_start a k q, refl, (n, h, p, f))
      | inr q ↦ elim (Bool-cases (ltb k a.start)) [
        | inl v ↦
            let right_none = has_below a.finish k (to_list r) or.2 (ground (arith, or.1)) in
            rw (q, v)
              (move-IsPlaced k (node c l a r) l path (above left c a r ∷ path)
                (place_of k l (above left c a r ∷ path)) (left_list path c l r a)
                (λ w. ground (arith, e, right_none))
                (place_of-IsPlaced lo k l m (above left c a r ∷ path) ol hl pl fl))
        | inr v ↦
            let left_none = has_above lo k (to_list l) ol (ground (arith, or.0)) in
            rw (q, v)
              (move-IsPlaced k (node c l a r) r path (above right c a l ∷ path)
                (place_of k r (above right c a l ∷ path)) (right_list path c l r a)
                (λ w. ground (arith, e, left_none))
                (place_of-IsPlaced a.finish k r m (above right c a l ∷ path) or.2 hr pr fr))
      ]
    ]

-- Areas in order are so without one of them.
lower-IsOrdered : (lo : ℕ) (a : Area) (ys : List Area) → IsOrdered lo (a ∷ ys) → IsOrdered lo ys
lower-IsOrdered lo a [] h = tt
lower-IsOrdered lo a (y ∷ ys) h = (omega (arith, h.0, h.1, h.2.0), h.2.1, h.2.2)

drop-IsOrdered :
    (lo : ℕ) (xs : List Area) (a : Area) (ys : List Area)
    → IsOrdered lo (xs ++ a ∷ ys)
    → IsOrdered lo (xs ++ ys)
drop-IsOrdered lo [] a ys h = lower-IsOrdered lo a ys h
drop-IsOrdered lo (x ∷ xs) a ys h = (h.0, h.1, drop-IsOrdered x.finish xs a ys h.2)

start-above :
    (lo : ℕ) (xs : List Area) (a : Area) (ys : List Area)
    → IsOrdered lo (xs ++ a ∷ ys)
    → lo ≤ a.start
start-above lo [] a ys h = h.0
start-above lo (x ∷ xs) a ys h = omega (arith, start-above x.finish xs a ys h.2, h.0, h.1)

unlink-middle :
    (lo : ℕ) (xs : List Area) (a : Area) (ys : List Area)
    → IsOrdered lo (xs ++ a ∷ ys)
    → unlink a.start (xs ++ a ∷ ys) ≡ xs ++ ys
unfolding unlink
unlink-middle lo [] a ys h = ground arith
unlink-middle lo (x ∷ xs) a ys h =
    ground (arith, unlink-middle x.finish xs a ys h.2, start-above x.finish xs a ys h.2, h.1)

has-middle : (xs : List Area) (a : Area) (ys : List Area) → has a.start (xs ++ a ∷ ys) ≡ true
unfolding has
has-middle [] a ys = ground arith
has-middle (x ∷ xs) a ys = ground (arith, has-middle xs a ys)

-- What `vma_remove` is to come to, where the areas are `xs ++ a ∷ ys`.
abbrev pub IsRemoved :
    List Area → List Area → Option Area → Option (Space × Bool × Option Area) → Type 0
IsRemoved xs ys stale o =
    (s' : Space) × (o ≡ some (s', true, stale)) × IsSpace s' × (s'.areas ≡ xs ++ ys)

-- Below the place of an area, the child whose parent link erasing it leaves wrong.
abbrev pub stale_at :
    Option (Color × Tree Area × Area × Tree Area × List (Above Area)) → Option Area
stale_at none = none
stale_at (some (c, l, a, r, path)) = stale_after l r

remove_at-some :
    (k : ℕ) (areas : List Area) (c : Color) (l : Tree Area) (a : Area) (r : Tree Area)
    → (path : List (Above Area)) (t : Tree Area) (stale : Option Area)
    → erase c l r path ≡ some (t, stale)
    → remove_at k areas (some (c, l, a, r, path))
      ≡ some (record { tree = t; areas = unlink k areas }, true, stale)
unfolding remove_at
remove_at-some k areas c l a r path t stale e = ap (removed (unlink k areas)) e

no_contradiction : true ≡ false → ⊥
no_contradiction e = cc

remove_at-IsRemoved :
    (s : Space) (xs ys : List Area) (a : Area)
    → (o : Option (Color × Tree Area × Area × Tree Area × List (Above Area))) → IsSpace s
    → s.areas ≡ xs ++ a ∷ ys
    → IsPlaced a.start s.tree [] o
    → IsRemoved xs ys (stale_at o) (remove_at a.start s.areas o)
unfolding to_list
remove_at-IsRemoved s xs ys a none h e f =
    absurd (no_contradiction (sym (has-middle xs a ys) ∙ ap (has a.start) (sym (h.same ∙ e)) ∙ f))
remove_at-IsRemoved s xs ys a (some (c, l, b, r, path)) h e f =
    let (n, balanced, p, fits) = f.2 in
    let (t, g, made, list) = erase-IsErased c l b r path n balanced p fits in
    let us = before path ++ to_list l in
    let vs = to_list r ++ after path in
    let whole = split_list path l b r ∙ f.1 ∙ append-nil (to_list s.tree) ∙ h.same in
    let ordered = subst (IsOrdered 0) (sym whole) h.ordered in
    let unlinked =
      ap (unlink a.start) (sym whole)
      ∙ ap (λ k. unlink k (us ++ b ∷ vs)) (sym f.0)
      ∙ unlink-middle 0 us b vs ordered in
    (
      record { tree = t; areas = unlink a.start s.areas },
      remove_at-some a.start s.areas c l b r path t (stale_after l r) g,
      record {
        balanced = made;
        same = list ∙ sym (append_assoc (before path) (to_list l) vs) ∙ sym unlinked;
        ordered = subst (IsOrdered 0) (sym unlinked) (drop-IsOrdered 0 us b vs ordered);
      },
      ap (unlink a.start) e ∙ unlink-middle 0 xs a ys (subst (IsOrdered 0) e h.ordered),
    )
  where
    split_list :
        (path : List (Above Area)) (l : Tree Area) (b : Area) (r : Tree Area)
        → (before path ++ to_list l) ++ (b ∷ (to_list r ++ after path))
          ≡ before path ++ ((to_list l ++ (b ∷ to_list r)) ++ after path)
    split_list path l b r = simp append_assoc

remove-node :
    (areas : List Area) (t : Tree Area) (k : ℕ)
    → has k (to_list t) ≡ true
    → remove_at k areas (place_of k t []) ≡ remove (record { tree = t; areas = areas }) k
unfolding remove to_list has
remove-node areas leaf k e = absurd (cc)
remove-node areas (node c l a r) k e = refl

-- On a space whose tree is red-black and holds the areas of the list, and whose areas are in order
-- and do not overlap, `vma_remove` of any of the areas follows no NULL and succeeds, exactly that
-- area goes from the tree, by its child links, and from the list, and these stay so. The parent
-- links stay right too, but for one case: where the area's node has a left child, and its right
-- child has no left child but a right one, the parent link of that one is left at the removed area.
pub remove_lem :
    (s : Space) (xs ys : List Area) (a : Area)
    → IsSpace s
    → s.areas ≡ xs ++ a ∷ ys
    → (s' : Space) × (remove s a.start ≡ some (s', true, stale_at (place_of a.start s.tree [])))
      × IsSpace s'
      × (s'.areas ≡ xs ++ ys)
remove_lem s xs ys a h e =
    let place = place_of a.start s.tree [] in
    subst (IsRemoved xs ys (stale_at place))
      (remove-node s.areas s.tree a.start (ap (has a.start) (h.same ∙ e) ∙ has-middle xs a ys))
      (remove_at-IsRemoved s xs ys a place h e (
        place_of-IsPlaced 0 a.start s.tree (h.balanced.height) []
          (subst (IsOrdered 0) (sym h.same) h.ordered) h.balanced.balanced tt
          (inl h.balanced.root)))
