-- ===== src/Pmm/Pages.antt =====
-- Which pages the free lists of a zone hold.
use bored_os.Base.{
  ℕ, zero, suc, ◌+◌, ◌-◌, ◌%◌, ◌^◌, Option, none, some, ◌≤◌, ◌<◌, ◌≡◌, refl, List, [], ◌∷◌, arith,
  ℕ_discrete, leb, ltb, ◌&&◌, if◌then◌else◌, ap, ◌∙◌, ==-true,
}
use bored_os.Base.Arrays.{update}
use bored_os.Pmm.{
  Zone, Pmm, pow2, unlink, push_block, remove_block, split_block, with_zone, with_page, buddy_page,
  given, alloc_found, alloc_from_zone,
}
use bored_os.Pmm.Alloc.{
  with_zone_at, pow2_next, Allocated, Searched, alloc_found-Allocated, find_block_lem,
}

module _ (x : ℕ) where
  -- Whether page `x` is in the block of an order that starts at `p`, as 1 or 0.
  unfoldable pub within : ℕ → ℕ → ℕ
  within p o = if leb p x && ltb x (p + pow2 o) then 1 else 0

  -- In how many blocks of a list of one order it is, and of the lists below order `k`.
  unfoldable pub held : ℕ → List ℕ → ℕ
  held o [] = 0
  held o (p ∷ ps) = within p o + held o ps

  unfoldable pub held_in : ℕ → (ℕ → List ℕ) → ℕ
  held_in zero lists = 0
  held_in (suc k) lists = held_in k lists + held k (lists k)

  held_in-update_out :
      (k o : ℕ) (lists : ℕ → List ℕ) (ps : List ℕ)
      → k ≤ o
      → held_in k (update lists o ps) ≡ held_in k lists
  unfolding held_in
  held_in-update_out zero o lists ps h = refl
  held_in-update_out (suc k) o lists ps h =
      ground (arith, held_in-update_out k o lists ps (omega arith))

  held_in-update :
      (k o : ℕ) (lists : ℕ → List ℕ) (ps : List ℕ)
      → o < k
      → held_in k (update lists o ps) + held o (lists o) ≡ held_in k lists + held o ps
  unfolding held_in
  held_in-update zero o lists ps h = absurd (omega arith)
  held_in-update (suc k) o lists ps h = elim (ℕ_discrete o k) [
    | yes e ↦ ground (arith, held_in-update_out k o lists ps)
    | no ne ↦ ground (arith, held_in-update k o lists ps (omega arith))
  ]

  push_block-held_in :
      (zn : Zone) (o p : ℕ)
      → o < 18
      → held_in 18 (push_block zn o p).free_lists ≡ held_in 18 zn.free_lists + within p o
  unfolding held
  push_block-held_in zn o p h =
      let moved = held_in-update 18 o zn.free_lists (p ∷ zn.free_lists o) h in omega arith

  -- A block's pages are those of its two halves.
  within-halves :
      (o k p : ℕ) → within p (o + suc k) ≡ within p (o + k) + within (p + pow2 (o + k)) (o + k)
  unfolding within
  within-halves o k p = let size = pow2_next o k in ground (arith, size)

  -- Splitting a block of order `order + k` down to `order` puts the rest of its pages on the lists.
  pub split_block-held_in :
      (k : ℕ) (s : Pmm) (z pfn order : ℕ)
      → order + k < 18
      → held_in 18 ((split_block k s z pfn order).zones z).free_lists + within pfn order
        ≡ held_in 18 (s.zones z).free_lists + within pfn (order + k)
  unfolding split_block
  split_block-held_in zero s z pfn order h =
      let e : order + 0 ≡ order = omega arith in let same = ap (within pfn) e in omega arith
  split_block-held_in (suc k) s z pfn order h =
      let buddy = pfn + pow2 (order + k) in
      let zn = push_block (s.zones z) (order + k) buddy in
      let s1 = with_page s buddy (buddy_page (s.pages buddy) (s.pages pfn) (order + k)) in
      let here = with_zone_at s1 z zn in
      let rest = split_block-held_in k (with_zone s1 z zn) z pfn order (omega arith) in
      let pushed = push_block-held_in (s.zones z) (order + k) buddy (omega arith) in
      let lists = ap (λ q. held_in 18 q.free_lists) here in
      let halves = within-halves order k pfn in omega arith

  pub remove_block-held_in :
      (zn : Zone) (o p : ℕ) (ps : List ℕ)
      → o < 18
      → zn.free_lists o ≡ p ∷ ps
      → held_in 18 (remove_block zn o p).free_lists + within p o ≡ held_in 18 zn.free_lists
  unfolding remove_block unlink held
  remove_block-held_in zn o p ps h e =
      let moved = held_in-update 18 o zn.free_lists (unlink p (zn.free_lists o)) h in
      let size = ap (held o) e in
      let left =
        ap (λ q. held o (unlink p q)) e
        ∙ ap (λ t. held o (if t then ps else p ∷ unlink p ps)) (==-true p p refl) in
      omega arith

-- What an allocation leaves: as in `Allocated`, and no page is lost, handed out twice, or handed
-- out and left free: each page is in as many free blocks as before, but for those of the block
-- given out.
abbrev pub IsGiven : Pmm → ℕ → ℕ → Pmm → Option ℕ → Type 0
IsGiven s z order s' none = Allocated s z order s' none
IsGiven s z order s' (some pfn) =
    Allocated s z order s' (some pfn)
    × ((x : ℕ)
        → held_in x 18 (s'.zones z).free_lists + within x pfn order
          ≡ held_in x 18 (s.zones z).free_lists)

alloc_found-IsGiven :
    (s : Pmm) (z order flags : ℕ) (r : Option (ℕ × ℕ))
    → Searched (18 - order) order (s.zones z).free_lists r
    → order ≤ 18
    → IsGiven s z order (alloc_found s z order flags r).0 (alloc_found s z order flags r).1
unfolding alloc_found
alloc_found-IsGiven s z order flags none found h =
    alloc_found-Allocated s z order flags none found h
alloc_found-IsGiven s z order flags (some (big, pfn)) (lo, hi, (ps, e)) h = (
  alloc_found-Allocated s z order flags (some (big, pfn)) (lo, hi, (ps, e)) h,
  λ x.
      let zn = remove_block (s.zones z) big pfn in
      let s1 = with_zone s z zn in
      let s2 = given (split_block (big - order) s1 z pfn order) pfn order flags in
      let here = ap (λ q. held_in x 18 q.free_lists) (with_zone_at s z zn) in
      let there =
        ap (λ q. held_in x 18 q.free_lists)
          (with_zone_at s2 z (record (s2.zones z) {
            free_pages = ((s2.zones z).free_pages + 2 ^ 64 - pow2 order) % 2 ^ 64;
          })) in
      let halved = split_block-held_in x (big - order) s1 z pfn order (omega arith) in
      let removed = remove_block-held_in x (s.zones z) big pfn ps (omega arith) e in
      let top : order + (big - order) ≡ big = omega arith in
      let tops = ap (within x pfn) top in omega arith,
)

-- For an order of at most 18, `alloc_from_zone` gives out nothing just when no list from that order
-- on has a block, and then changes nothing. Otherwise it gives out the first page of a free block,
-- with one reference, and every page is in as many blocks of the zone's free lists as before, but
-- for the `2^order` pages given out, which are in one fewer; the zone's count falls by their
-- number, modulo 2^64.
pub alloc_from_zone-IsGiven :
    (s : Pmm) (z order flags : ℕ)
    → order ≤ 18
    → IsGiven s z order (alloc_from_zone s z order flags).0 (alloc_from_zone s z order flags).1
unfolding alloc_from_zone
alloc_from_zone-IsGiven s z order flags h =
    alloc_found-IsGiven s z order flags _ (find_block_lem (18 - order) order (s.zones z).free_lists)
      h
