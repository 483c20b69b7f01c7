-- ===== src/Vma/Full.antt =====
-- `vma_find_unmapped_area` misses no free room.
use bored_os.Base.{
  ℕ, ◌+◌, ◌-◌, ◌%◌, ◌^◌, ◌<◌, ◌≤◌, ◌≡◌, refl, ◌∙◌, true, false, List, [], ◌∷◌, leb, ltb, ◌==◌, ◌||◌,
  arith, Bool-cases, inl, inr,
}
use bored_os.Vma.{
  Area, page_up, align_up, larger, next_start, scan, unmapped_from, find_unmapped_area,
}
use bored_os.Vma.Order.{IsOrdered, ends, le-ends}
use bored_os.Vma.Descend.{any_meets}
use bored_os.Vma.Unmapped.{
  last_page, span, fits_after, scan-here, scan-later, from-here, from-later, up_le,
}

up_least : (y x : ℕ) → y ≤ x → x % 4096 ≡ 0 → x ≤ last_page → align_up 4096 y ≤ x
up_least y x h e k = omega arith

-- Where there is room after an area, the test of the loop finds it.
room-fits_after :
    (a : Area) (areas : List Area) (bottom top len x : ℕ)
    → x % 4096 ≡ 0
    → bottom ≤ x
    → x + len ≤ top
    → top ≤ last_page
    → a.finish ≤ x
    → x + len ≤ next_start areas top
    → fits_after bottom top len a areas ≡ true
room-fits_after a areas bottom top len x p h k t f g =
    let least = up_least a.finish x f p (omega (arith, k, t)) in ground (arith, least)

scan-nonzero :
    (a : Area) (areas : List Area) (bottom top len : ℕ)
    → 0 < a.finish
    → a.finish ≤ last_page
    → scan 4096 bottom top len (a ∷ areas) ≡ 0
    → fits_after bottom top len a areas ≡ true
    → ⊥
scan-nonzero a areas bottom top len h k z q =
    let up = up_le a.finish k in
    let e = scan-here bottom top len a areas q ∙ z in ground (arith, up, e, h)

-- The loop, for room behind its first area.
scan-full :
    (areas : List Area) (a : Area) (lo bottom top len x : ℕ)
    → IsOrdered lo (a ∷ areas)
    → ends lo (a ∷ areas) ≤ last_page
    → top ≤ last_page
    → x % 4096 ≡ 0
    → bottom ≤ x
    → x + len ≤ top
    → 0 < len
    → a.finish ≤ x
    → scan 4096 bottom top len (a ∷ areas) ≡ 0
    → any_meets (span x (x + len)) areas ≡ true
unfolding any_meets
scan-full [] a lo bottom top len x h e t p b k l f z = absurd (
    scan-nonzero a [] bottom top len (omega (arith, h.1)) (omega (arith, e, t)) z
      (room-fits_after a [] bottom top len x p b k t f k))
scan-full (c ∷ areas) a lo bottom top len x h e t p b k l f z =
    let below = le-ends c.finish areas h.2.2 in
    let none =
      scan-nonzero a (c ∷ areas) bottom top len (omega (arith, h.1))
        (omega (arith, e, t, below, h.2.0, h.2.1)) z in
    elim (Bool-cases (leb (x + len) c.start)) [
      | inl q ↦
          absurd
            (none (room-fits_after a (c ∷ areas) bottom top len x p b k t f (ground (arith, q))))
      | inr q ↦ elim (Bool-cases (leb c.finish x)) [
        | inr v ↦ ground (arith, q, v)
        | inl v ↦ elim (Bool-cases (fits_after bottom top len a (c ∷ areas))) [
          | inl w ↦ absurd (none w)
          | inr w ↦
              let rest =
                scan-full areas c a.finish bottom top len x h.2 e t p b k l (ground (arith, v))
                  (scan-later bottom top len a (c ∷ areas) w ∙ z) in
              ground (arith, rest)
        ]
      ]
    ]

unmapped_from-full :
    (areas : List Area) (bottom top len x : ℕ)
    → IsOrdered 0 areas
    → ends 0 areas ≤ last_page
    → top ≤ last_page
    → 0 < bottom
    → x % 4096 ≡ 0
    → bottom ≤ x
    → x + len ≤ top
    → 0 < len
    → unmapped_from 4096 bottom top len areas ≡ 0
    → any_meets (span x (x + len)) areas ≡ true
unfolding unmapped_from any_meets
unmapped_from-full [] bottom top len x h e t nz p b k l z = absurd (ground (arith, z))
unmapped_from-full (a ∷ areas) bottom top len x h e t nz p b k l z =
    elim (Bool-cases (leb ((bottom + len) % 2 ^ 64) a.start)) [
      | inl q ↦ absurd (omega (arith, from-here bottom top len a areas q ∙ z, nz))
      | inr q ↦ elim (Bool-cases (leb a.finish x)) [
        | inr v ↦ ground (arith, q, v)
        | inl v ↦
            let rest =
              scan-full areas a 0 bottom top len x h e t p b k l (ground (arith, v))
                (from-later bottom top len a areas q ∙ z) in
            ground (arith, rest)
      ]
    ]

find_unmapped_area-unmapped_from :
    (areas : List Area) (bottom top len alignment : ℕ)
    → alignment ≤ 4096
    → (len == 0 || (leb top bottom || ltb (top - bottom) len)) ≡ false
    → unmapped_from 4096 (align_up 4096 bottom) top (page_up len) areas
      ≡ find_unmapped_area areas bottom top len alignment
unfolding find_unmapped_area
find_unmapped_area-unmapped_from areas bottom top len alignment a q =
    let page : larger alignment 4096 ≡ 4096 = ground arith in rw (q, page) refl

-- In areas that are in order, do not overlap and end by the start of the address space's last page,
-- for a `top` up to there, an alignment of at most a page, a `bottom` above 0, and a length above 0
-- that ends by there: if `vma_find_unmapped_area` answers 0, an area meets every run of the
-- rounded-up length that starts at a page and lies between `bottom` and `top`.
pub find_unmapped_area-full :
    (areas : List Area) (bottom top len alignment x : ℕ)
    → IsOrdered 0 areas
    → ends 0 areas ≤ last_page
    → top ≤ last_page
    → alignment ≤ 4096
    → 0 < bottom
    → 0 < len
    → len ≤ last_page
    → x % 4096 ≡ 0
    → bottom ≤ x
    → x + page_up len ≤ top
    → find_unmapped_area areas bottom top len alignment ≡ 0
    → any_meets (span x (x + page_up len)) areas ≡ true
find_unmapped_area-full areas bottom top len alignment x h e t a nz l s p b k z =
    let up = up_le len s in
    let low = up_le bottom (omega (arith, b, k, t)) in
    unmapped_from-full areas (align_up 4096 bottom) top (page_up len) x h e t
      (omega (arith, low, nz)) p (up_least bottom x b p (omega (arith, k, t))) k
      (omega (arith, up, l))
      (find_unmapped_area-unmapped_from areas bottom top len alignment a
          (ground (arith, up, b, k, l, nz))
        ∙ z)
