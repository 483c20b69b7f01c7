-- ===== src/Vma/Insert.antt =====
-- `vma_insert` keeps an address space's areas in order, in a red-black tree and in the list.
use mathlib.Core.Path.{subst}
use bored_os.Base.{
  ℕ, ◌<◌, ◌≤◌, ◌≡◌, refl, sym, ap, ◌∙◌, Bool, true, false, not, Option, none, some, List, [], ◌∷◌,
  ◌++◌, if◌then◌else◌, arith, inl, append-nil,
}
use bored_os.Rbtree.{Tree, leaf, node, red, Above, to_list, insert_fixup}
use bored_os.Rbtree.Order.{some_inj, before, after}
use bored_os.Rbtree.Balance.{insert_fixup_lem}
use bored_os.Vma.{Area, Space, descend, link_after, link_list, changed, insert_at, insert}
use bored_os.Vma.Order.{IsOrdered, ends, IsOrdered-append, append-IsOrdered, le-ends}
use bored_os.Vma.Descend.{
  IsSpace, any_meets, place, StartsFrom, last?, Found, any_meets-append, descend-Found,
}

-- Areas that begin at `hi` or later.
pub raise-IsOrdered :
    (lo hi : ℕ) (xs : List Area) → IsOrdered lo xs → StartsFrom hi xs → IsOrdered hi xs
raise-IsOrdered lo hi [] h s = tt
raise-IsOrdered lo hi (x ∷ xs) h s = (s, h.1, h.2)

any_meets_left :
    (lo : ℕ) (v : Area) (xs : List Area)
    → IsOrdered lo xs
    → ends lo xs ≤ v.start
    → any_meets v xs ≡ false
unfolding any_meets
any_meets_left lo v [] h e = refl
any_meets_left lo v (x ∷ xs) h e =
    ground (arith, any_meets_left x.finish v xs h.2 e, le-ends x.finish xs h.2)

pub any_meets_right :
    (lo : ℕ) (v : Area) (xs : List Area) → IsOrdered lo xs → v.finish ≤ lo → any_meets v xs ≡ false
unfolding any_meets
any_meets_right lo v [] h e = refl
any_meets_right lo v (x ∷ xs) h e =
    ground (arith, any_meets_right x.finish v xs h.2 (omega (arith, h.0, h.1)), h.0)

-- In a gap, nothing is in the way.
any_meets-gap :
    (lo : ℕ) (v : Area) (xs ys : List Area)
    → IsOrdered lo (xs ++ ys)
    → ends lo xs ≤ v.start
    → StartsFrom v.finish ys
    → any_meets v (xs ++ ys) ≡ false
any_meets-gap lo v xs ys h e s =
    let (hx, hy) = IsOrdered-append lo xs ys h in
    any_meets-append v xs ys
    ∙ rw
        (
          any_meets_left lo v xs hx e,
          any_meets_right v.finish v ys (raise-IsOrdered (ends lo xs) v.finish ys hy s)
              (omega arith),
        )
        refl

place-first : (v : Area) (ys : List Area) → StartsFrom v.finish ys → place v ys ≡ v ∷ ys
unfolding place
place-first v [] s = refl
place-first v (y ∷ ys) s = ground arith

-- A gap is the place.
place-gap :
    (lo : ℕ) (v : Area) (xs ys : List Area)
    → IsOrdered lo xs
    → ends lo xs ≤ v.start
    → v.start < v.finish
    → StartsFrom v.finish ys
    → place v (xs ++ ys) ≡ xs ++ v ∷ ys
unfolding place
place-gap lo v [] ys h e k s = place-first v ys s
place-gap lo v (x ∷ xs) ys h e k s =
    ground (arith, place-gap x.finish v xs ys h.2 e k s, le-ends x.finish xs h.2, h.1)

gap-IsOrdered :
    (lo : ℕ) (v : Area) (xs ys : List Area)
    → IsOrdered lo (xs ++ ys)
    → ends lo xs ≤ v.start
    → v.start < v.finish
    → StartsFrom v.finish ys
    → IsOrdered lo (xs ++ v ∷ ys)
gap-IsOrdered lo v xs ys h e k s =
    let (hx, hy) = IsOrdered-append lo xs ys h in
    append-IsOrdered lo xs (v ∷ ys) hx (e, k, raise-IsOrdered (ends lo xs) v.finish ys hy s)

last-start :
    (lo : ℕ) (xs : List Area) (p : Area) → IsOrdered lo xs → last? xs ≡ some p → lo ≤ p.start
last-start lo [] p h e = absurd (cc)
last-start lo (x ∷ []) p h e = omega (arith, h.0, ap Area.start (some_inj e))
last-start lo (x ∷ (y ∷ xs)) p h e = omega (arith, last-start x.finish (y ∷ xs) p h.2 e, h.0, h.1)

-- The list is linked in the gap.
link_after-last :
    (lo : ℕ) (v p : Area) (xs ys : List Area)
    → IsOrdered lo xs
    → last? xs ≡ some p
    → link_after p.start v (xs ++ ys) ≡ xs ++ v ∷ ys
unfolding link_after
link_after-last lo v p [] ys h e = absurd (cc)
link_after-last lo v p (x ∷ []) ys h e = ground (arith, ap Area.start (some_inj e))
link_after-last lo v p (x ∷ (y ∷ xs)) ys h e = ground (
  arith,
  link_after-last x.finish v p (y ∷ xs) ys h.2 e,
  last-start x.finish (y ∷ xs) p h.2 e,
  h.1,
)

last-some : (x : Area) (xs : List Area) → last? (x ∷ xs) ≡ none → ⊥
last-some x [] e = absurd (cc)
last-some x (y ∷ xs) e = last-some y xs e

link_list-last :
    (lo : ℕ) (v : Area) (xs ys : List Area) (o : Option Area)
    → IsOrdered lo xs
    → o ≡ last? xs
    → link_list o v (xs ++ ys) ≡ xs ++ v ∷ ys
unfolding link_list
link_list-last lo v [] ys none h e = refl
link_list-last lo v (x ∷ xs) ys none h e = absurd (last-some x xs (sym e))
link_list-last lo v xs ys (some p) h e = link_after-last lo v p xs ys h (sym e)

-- What `vma_insert` is to come to.
abbrev IsInserted : Space → Area → Option (Space × Bool) → Type 0
IsInserted s v o =
    (s' : Space) × (o ≡ some (s', not (any_meets v s.areas)))
    × IsSpace s'
    × (s'.areas ≡ (if any_meets v s.areas then s.areas else place v s.areas))

insert_at-some :
    (s : Space) (v : Area) (path : List (Above Area)) (prev : Option Area) (t : Tree Area)
    → insert_fixup (node red leaf v leaf) path ≡ some t
    → insert_at s v (some (path, prev))
      ≡ some (record { tree = t; areas = link_list prev v s.areas }, true)
unfolding insert_at
insert_at-some s v path prev t e = ap (changed (link_list prev v s.areas)) e

insert_at-IsInserted :
    (s : Space) (v : Area) (o : Option (List (Above Area) × Option Area))
    → IsSpace s
    → v.start < v.finish
    → Found v s.tree [] o
    → IsInserted s v (insert_at s v o)
unfolding insert_at to_list
insert_at-IsInserted s v none h k f =
    let e = ap (any_meets v) (sym (append-nil (to_list s.tree) ∙ h.same)) ∙ f in
    (s, rw e refl, h, rw e refl)
insert_at-IsInserted s v (some (path, prev)) h k f =
    let xs = before path in
    let ys = after path in
    let e = f.0 ∙ append-nil (to_list s.tree) ∙ h.same in
    let ordered = subst (IsOrdered 0) (sym e) h.ordered in
    let free = ap (any_meets v) (sym e) ∙ any_meets-gap 0 v xs ys ordered f.1.0 f.1.1 in
    let hx = (IsOrdered-append 0 xs ys ordered).0 in
    let linked = ap (link_list prev v) (sym e) ∙ link_list-last 0 v xs ys prev hx f.2 in
    let placed = ap (place v) (sym e) ∙ place-gap 0 v xs ys hx f.1.0 k f.1.1 in
    let (t, g, balanced, l) =
      insert_fixup_lem (node red leaf v leaf) path 0 refl (refl, refl, refl, refl) f.3 in
    (
      record { tree = t; areas = link_list prev v s.areas },
      insert_at-some s v path prev t g ∙ rw free refl,
      record {
        balanced = balanced;
        same = l ∙ sym linked;
        ordered = subst (IsOrdered 0) (sym linked) (gap-IsOrdered 0 v xs ys ordered f.1.0 k f.1.1);
      },
      rw free (linked ∙ sym placed),
    )

-- On a space whose tree is red-black and holds the areas of the list, and whose areas are in order
-- and do not overlap, `vma_insert` of an area that is not empty follows no NULL, fails exactly when
-- an area is in the way and then changes no area, and else puts the area at its place; the space
-- stays so.
pub insert_lem :
    (s : Space) (v : Area)
    → IsSpace s
    → v.start < v.finish
    → (s' : Space) × (insert s v ≡ some (s', not (any_meets v s.areas)))
      × IsSpace s'
      × (s'.areas ≡ (if any_meets v s.areas then s.areas else place v s.areas))
unfolding insert
insert_lem s v h k = insert_at-IsInserted s v (descend v s.tree [] none) h k (
    descend-Found v s.tree (h.balanced.height) [] none h.balanced.balanced tt (inl h.balanced.root)
      (omega arith, tt) refl)
