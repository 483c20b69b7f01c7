-- ===== src/Vma/Order.antt =====
-- Areas in order, and what a look-up in the tree finds among them.
use bored_os.Base.{
  ℕ, ◌<◌, ◌≤◌, ◌≡◌, refl, sym, ◌∙◌, Option, none, some, List, [], ◌∷◌, ◌++◌, leb, ltb, ◌&&◌,
  if◌then◌else◌, arith, Bool-cases, inl, inr,
}
use bored_os.Rbtree.{Tree, leaf, node, to_list}
use bored_os.Vma.{Area, find}

-- From `lo` on, each area is not empty and ends before the next begins.
abbrev pub IsOrdered : ℕ → List Area → Type 0
IsOrdered lo [] = Unit {0}
IsOrdered lo (a ∷ areas) = (lo ≤ a.start) × (a.start < a.finish) × IsOrdered a.finish areas

-- Where the last of the areas ends.
abbrev pub ends : ℕ → List Area → ℕ
ends lo [] = lo
ends lo (a ∷ areas) = ends a.finish areas

pub IsOrdered-append :
    (lo : ℕ) (xs ys : List Area)
    → IsOrdered lo (xs ++ ys)
    → IsOrdered lo xs × IsOrdered (ends lo xs) ys
IsOrdered-append lo [] ys h = (tt, h)
IsOrdered-append lo (x ∷ xs) ys h =
    let (a, b) = IsOrdered-append x.finish xs ys h.2 in ((h.0, h.1, a), b)

pub append-IsOrdered :
    (lo : ℕ) (xs ys : List Area)
    → IsOrdered lo xs
    → IsOrdered (ends lo xs) ys
    → IsOrdered lo (xs ++ ys)
append-IsOrdered lo [] ys a b = b
append-IsOrdered lo (x ∷ xs) ys a b = (a.0, a.1, append-IsOrdered x.finish xs ys a.2 b)

pub le-ends : (lo : ℕ) (xs : List Area) → IsOrdered lo xs → lo ≤ ends lo xs
le-ends lo [] h = omega arith
le-ends lo (x ∷ xs) h = omega (arith, le-ends x.finish xs h.2, h.0, h.1)

pub ends-append : (lo : ℕ) (xs : List Area) (y : Area) → ends lo (xs ++ y ∷ []) ≡ y.finish
ends-append lo [] y = refl
ends-append lo (x ∷ xs) y = ends-append x.finish xs y

-- The first area that an address is in.
unfoldable pub area_at : ℕ → List Area → Option Area
area_at addr [] = none
area_at addr (a ∷ areas) =
    let rest = area_at addr areas in if leb a.start addr && ltb addr a.finish then some a else rest

area_at_below :
    (lo addr : ℕ) (xs : List Area) → IsOrdered lo xs → addr < lo → area_at addr xs ≡ none
unfolding area_at
area_at_below lo addr [] h k = refl
area_at_below lo addr (x ∷ xs) h k =
    ground (arith, area_at_below x.finish addr xs h.2 (omega (arith, h.0, h.1)), h.0, h.1)

area_at_above :
    (lo addr : ℕ) (xs : List Area) → IsOrdered lo xs → ends lo xs ≤ addr → area_at addr xs ≡ none
unfolding area_at
area_at_above lo addr [] h k = refl
area_at_above lo addr (x ∷ xs) h k =
    ground (arith, area_at_above x.finish addr xs h.2 k, le-ends x.finish xs h.2, h.0, h.1)

area_at_first :
    (addr : ℕ) (xs ys : List Area)
    → area_at addr ys ≡ none
    → area_at addr (xs ++ ys) ≡ area_at addr xs
unfolding area_at
area_at_first addr [] ys e = e
area_at_first addr (x ∷ xs) ys e = ground (arith, area_at_first addr xs ys e)

area_at_second :
    (addr : ℕ) (xs ys : List Area)
    → area_at addr xs ≡ none
    → area_at addr (xs ++ ys) ≡ area_at addr ys
unfolding area_at
area_at_second addr [] ys e = refl
area_at_second addr (x ∷ xs) ys e = elim (Bool-cases (leb x.start addr && ltb addr x.finish)) [
  | inl q ↦ ground arith
  | inr q ↦ rw q (area_at_second addr xs ys (rw q at e))
]

-- On a tree whose areas are in order, `vma_find` answers the area that the address is in, and NULL
-- exactly where it is in none.
pub find-area_at :
    (lo addr : ℕ) (t : Tree Area)
    → IsOrdered lo (to_list t)
    → find t addr ≡ area_at addr (to_list t)
unfolding find area_at to_list
find-area_at lo addr leaf h = refl
find-area_at lo addr (node c l a r) h =
    let (hl, hr) = IsOrdered-append lo (to_list l) (a ∷ to_list r) h in
    let in_left = find-area_at lo addr l hl in
    let in_right = find-area_at a.finish addr r hr.2 in
    elim (Bool-cases (leb a.start addr && ltb addr a.finish)) [
      | inl e ↦ rw e (
          sym (
            area_at_second addr (to_list l) (a ∷ to_list r)
              (area_at_above lo addr (to_list l) hl (ground (arith, hr.0)))
            ∙ rw e refl))
      | inr e ↦ elim (Bool-cases (ltb addr a.start)) [
        | inl f ↦
            rw (e, f)
              (in_left
                ∙ sym (
                    area_at_first addr (to_list l) (a ∷ to_list r)
                      (rw e (area_at_below a.finish addr (to_list r) hr.2 (ground (arith, hr.1))))))
        | inr f ↦
            rw (e, f)
              (in_right
                ∙ sym (
                    area_at_second addr (to_list l) (a ∷ to_list r)
                      (area_at_above lo addr (to_list l) hl (ground (arith, hr.0)))
                    ∙ rw e refl))
      ]
    ]
