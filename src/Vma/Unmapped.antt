-- ===== src/Vma/Unmapped.antt =====
-- `vma_find_unmapped_area` finds free room.
use mathlib.Core.Path.{subst}
use bored_os.Base.{
  ℕ, ◌+◌, ◌-◌, ◌%◌, ◌^◌, ◌≤◌, ◌≡◌, refl, Bool, true, false, List, [], ◌∷◌, leb, ltb, ◌==◌, ◌&&◌,
  ◌||◌, arith, Bool-cases, inl, inr, ◌⊎◌,
}
use bored_os.Vma.{
  Area, page_up, align_up, larger, smaller, next_start, scan, unmapped_from, find_unmapped_area,
}
use bored_os.Vma.Order.{IsOrdered, ends, le-ends}
use bored_os.Vma.Descend.{any_meets}
use bored_os.Vma.Insert.{any_meets_right, raise-IsOrdered}

-- The start of the last page of the address space, up to which sums with a page do not wrap.
abbrev pub last_page : ℕ
last_page = 18446744073709547520

-- An area from `lo` up to `hi`.
abbrev pub span : ℕ → ℕ → Area
span lo hi = record {
  start = lo;
  finish = hi;
  kind = 0;
  flags = 0;
  backing_file = 0;
  file_offset = 0;
}

-- `r` is 0, or a page from which `len` bytes between `bottom` and `top` are free.
abbrev pub IsRoom : ℕ → ℕ → ℕ → List Area → ℕ → Type 0
IsRoom bottom top len areas r =
    (r ≡ 0)
    ⊎ ((bottom ≤ r)
        × (r % 4096 ≡ 0)
        × (r + len ≤ top)
        × (any_meets (span r (r + len)) areas ≡ false))

pub up_le : (x : ℕ) → x ≤ last_page → x ≤ align_up 4096 x
up_le x h = omega arith

pub up_page : (x : ℕ) → align_up 4096 x % 4096 ≡ 0
up_page x = omega arith

larger_page : (a b : ℕ) → a % 4096 ≡ 0 → b % 4096 ≡ 0 → larger a b % 4096 ≡ 0
larger_page a b h k = ground arith

first_free_room :
    (a : Area) (areas : List Area) (lo r len top : ℕ)
    → IsOrdered lo (a ∷ areas)
    → a.finish ≤ r
    → r + len ≤ next_start areas top
    → any_meets (span r (r + len)) (a ∷ areas) ≡ false
unfolding any_meets
first_free_room a [] lo r len top h e f = ground arith
first_free_room a (b ∷ areas) lo r len top h e f =
    let rest =
      any_meets_right (r + len) (span r (r + len)) (b ∷ areas)
        (raise-IsOrdered a.finish (r + len) (b ∷ areas) h.2 f) (omega arith) in
    ground (arith, rest)

-- The same from `lo` on.
abbrev IsFree : ℕ → ℕ → ℕ → ℕ → List Area → ℕ → Type 0
IsFree lo bottom top len areas r =
    (r ≡ 0)
    ⊎ ((lo ≤ r)
        × (bottom ≤ r)
        × (r % 4096 ≡ 0)
        × (r + len ≤ top)
        × (any_meets (span r (r + len)) areas ≡ false))

abbrev pub fits_after : ℕ → ℕ → ℕ → Area → List Area → Bool
fits_after bottom top len a areas =
    let r = larger (align_up 4096 a.finish) bottom in
    let gap_end = smaller (next_start areas top) top in leb r gap_end && leb len (gap_end - r)

pub scan-here :
    (bottom top len : ℕ) (a : Area) (areas : List Area)
    → fits_after bottom top len a areas ≡ true
    → larger (align_up 4096 a.finish) bottom ≡ scan 4096 bottom top len (a ∷ areas)
unfolding scan
scan-here bottom top len a areas q = rw q refl

pub scan-later :
    (bottom top len : ℕ) (a : Area) (areas : List Area)
    → fits_after bottom top len a areas ≡ false
    → scan 4096 bottom top len areas ≡ scan 4096 bottom top len (a ∷ areas)
unfolding scan
scan-later bottom top len a areas q = rw q refl

here-IsFree :
    (a : Area) (areas : List Area) (lo bottom top len : ℕ)
    → IsOrdered lo (a ∷ areas)
    → ends lo (a ∷ areas) ≤ last_page
    → top ≤ last_page
    → bottom % 4096 ≡ 0
    → fits_after bottom top len a areas ≡ true
    → IsFree lo bottom top len (a ∷ areas) (larger (align_up 4096 a.finish) bottom)
here-IsFree a areas lo bottom top len h e k b q =
    let r = larger (align_up 4096 a.finish) bottom in
    let below = le-ends a.finish areas h.2 in
    let up = up_le a.finish (omega (arith, below, e, k)) in
    let after : a.finish ≤ r = ground arith in
    let reach : r + len ≤ smaller (next_start areas top) top = ground arith in
    inr (
      omega (arith, h.0, h.1, after),
      ground arith,
      larger_page (align_up 4096 a.finish) bottom (up_page a.finish) b,
      ground arith,
      first_free_room a areas lo r len top h after (ground arith),
    )

later-IsFree :
    (a : Area) (areas : List Area) (lo bottom top len r : ℕ)
    → IsOrdered lo (a ∷ areas)
    → IsFree a.finish bottom top len areas r
    → IsFree lo bottom top len (a ∷ areas) r
unfolding any_meets
later-IsFree a areas lo bottom top len r h (inl z) = inl z
later-IsFree a areas lo bottom top len r h (inr z) =
    inr (omega (arith, z.0, h.0, h.1), z.1, z.2, z.3, ground (arith, z.4, z.0))

-- The loop of `vma_find_unmapped_area`, from the first area on.
scan-IsFree :
    (areas : List Area) (lo bottom top len : ℕ)
    → IsOrdered lo areas
    → ends lo areas ≤ last_page
    → top ≤ last_page
    → bottom % 4096 ≡ 0
    → IsFree lo bottom top len areas (scan 4096 bottom top len areas)
unfolding scan
scan-IsFree [] lo bottom top len h e k b = inl refl
scan-IsFree (a ∷ areas) lo bottom top len h e k b =
    elim (Bool-cases (fits_after bottom top len a areas)) [
      | inl q ↦
          subst (IsFree lo bottom top len (a ∷ areas)) (scan-here bottom top len a areas q)
            (here-IsFree a areas lo bottom top len h e k b q)
      | inr q ↦ subst (IsFree lo bottom top len (a ∷ areas)) (scan-later bottom top len a areas q) (
          later-IsFree a areas lo bottom top len (scan 4096 bottom top len areas) h
            (scan-IsFree areas a.finish bottom top len h.2 e k b))
    ]

pub from-here :
    (bottom top len : ℕ) (a : Area) (areas : List Area)
    → leb ((bottom + len) % 2 ^ 64) a.start ≡ true
    → bottom ≡ unmapped_from 4096 bottom top len (a ∷ areas)
unfolding unmapped_from
from-here bottom top len a areas q = rw q refl

pub from-later :
    (bottom top len : ℕ) (a : Area) (areas : List Area)
    → leb ((bottom + len) % 2 ^ 64) a.start ≡ false
    → scan 4096 bottom top len (a ∷ areas) ≡ unmapped_from 4096 bottom top len (a ∷ areas)
unfolding unmapped_from
from-later bottom top len a areas q = rw q refl

unmapped_from-IsFree :
    (areas : List Area) (bottom top len : ℕ)
    → IsOrdered 0 areas
    → ends 0 areas ≤ last_page
    → top ≤ last_page
    → bottom % 4096 ≡ 0
    → bottom + len ≤ top
    → IsFree 0 bottom top len areas (unmapped_from 4096 bottom top len areas)
unfolding unmapped_from any_meets
unmapped_from-IsFree [] bottom top len h e k b small =
    elim (Bool-cases (leb ((bottom + len) % 2 ^ 64) top)) [
      | inl q ↦ rw q (inr (omega arith, omega arith, b, ground arith, refl))
      | inr q ↦ rw q (inl refl)
    ]
unmapped_from-IsFree (a ∷ areas) bottom top len h e k b small =
    elim (Bool-cases (leb ((bottom + len) % 2 ^ 64) a.start)) [
      | inl q ↦
          let below = le-ends a.finish areas h.2 in
          let gap : bottom + len ≤ a.start = ground arith in
          subst (IsFree 0 bottom top len (a ∷ areas)) (from-here bottom top len a areas q) (
            inr (
              omega arith,
              omega arith,
              b,
              small,
              any_meets_right (bottom + len) (span bottom (bottom + len)) (a ∷ areas)
                  (raise-IsOrdered 0 (bottom + len) (a ∷ areas) h gap) (omega arith),
            ))
      | inr q ↦
          subst (IsFree 0 bottom top len (a ∷ areas)) (from-later bottom top len a areas q)
            (scan-IsFree (a ∷ areas) 0 bottom top len h e k b)
    ]

-- A shorter span meets no more areas.
shorter_free :
    (r n m : ℕ) (areas : List Area)
    → n ≤ m
    → any_meets (span r (r + m)) areas ≡ false
    → any_meets (span r (r + n)) areas ≡ false
unfolding any_meets
shorter_free r n m [] h e = refl
shorter_free r n m (a ∷ areas) h e =
    let rest = shorter_free r n m areas h (ground (arith, e)) in ground (arith, rest, e, h)

IsFree-IsRoom :
    (bottom top len b m r : ℕ) (areas : List Area)
    → bottom ≤ b
    → len ≤ m
    → IsFree 0 b top m areas r
    → IsRoom bottom top len areas r
IsFree-IsRoom bottom top len b m r areas h k (inl z) = inl z
IsFree-IsRoom bottom top len b m r areas h k (inr z) =
    inr (omega (arith, h, z.1), z.2, omega (arith, z.3, k), shorter_free r len m areas k z.4)

-- In areas that are in order, do not overlap and end by the start of the address space's last page,
-- for a `top` up to there, an alignment of at most a page, and a `bottom` and a length that are
-- multiples of a page, `vma_find_unmapped_area` answers 0, or the start of a page from which `len`
-- bytes from `bottom` up to `top` meet no area.
pub find_unmapped_area-IsRoom :
    (areas : List Area) (bottom top len alignment : ℕ)
    → IsOrdered 0 areas
    → ends 0 areas ≤ last_page
    → top ≤ last_page
    → alignment ≤ 4096
    → bottom % 4096 ≡ 0
    → len % 4096 ≡ 0
    → IsRoom bottom top len areas (find_unmapped_area areas bottom top len alignment)
unfolding find_unmapped_area
find_unmapped_area-IsRoom areas bottom top len alignment h e k a b l =
    let page : larger alignment 4096 ≡ 4096 = ground arith in
    elim (Bool-cases (len == 0 || (leb top bottom || ltb (top - bottom) len))) [
      | inl q ↦ rw q (inl refl)
      | inr q ↦
          let fits : bottom + len ≤ top = ground arith in
          rw (q, page)
            (IsFree-IsRoom bottom top len (align_up 4096 bottom) (page_up len)
              (unmapped_from 4096 (align_up 4096 bottom) top (page_up len) areas) areas
              (up_le bottom (omega (arith, fits, k))) (up_le len (omega (arith, fits, k)))
              (unmapped_from-IsFree areas (align_up 4096 bottom) top (page_up len) h e k
                (up_page bottom) (omega (arith, fits, k))))
    ]
