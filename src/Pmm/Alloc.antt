-- ===== src/Pmm/Alloc.antt =====
-- Allocating from a zone: the first list with a block, and the pages that splitting it keeps.
use bored_os.Base.{
  ℕ, zero, suc, ◌+◌, ◌-◌, ◌%◌, ◌^◌, ◌≤◌, ◌<◌, ◌≡◌, refl, ap, ◌∙◌, Option, none, some, List, [], ◌∷◌,
  if◌then◌else◌, arith, ℕ_discrete, ==-true,
}
use bored_os.Base.Arrays.{update_at}
use bored_os.Pmm.{
  Pmm, Zone, pow2, unlink, find_block, split_block, alloc_found, with_zone, with_page, buddy_page,
  push_block, remove_block, given,
}
use bored_os.Pmm.Blocks.{size_of, blocks, blocks-update}

-- What the search through `k` lists from order `o` on found.
abbrev pub Searched : ℕ → ℕ → (ℕ → List ℕ) → Option (ℕ × ℕ) → Type 0
Searched k o lists none = (j : ℕ) → o ≤ j → j < o + k → lists j ≡ []
Searched k o lists (some (b, p)) = (o ≤ b) × (b < o + k) × ((ps : List ℕ) × (lists b ≡ p ∷ ps))

search_next :
    (k o : ℕ) (lists : ℕ → List ℕ) (r : Option (ℕ × ℕ))
    → lists o ≡ []
    → Searched k (suc o) lists r
    → Searched (suc k) o lists r
search_next k o lists none miss s = λ j lo hi. elim (ℕ_discrete o j) [
  | yes e ↦ rw (← e) miss
  | no ne ↦ s j (omega arith) (omega arith)
]
search_next k o lists (some (b, p)) miss s = (omega arith, omega arith, s.2)

Searched-list :
    (k o : ℕ) (lists : ℕ → List ℕ) (ps : List ℕ) (r : Option (ℕ × ℕ))
    → lists o ≡ ps
    → Searched k (suc o) lists r
    → Searched (suc k) o lists (elim ps [ [] ↦ r | p ∷ ps' ↦ some (o, p) ])
Searched-list k o lists [] r e s = search_next k o lists r e s
Searched-list k o lists (p ∷ ps) r e s = (omega arith, omega arith, (ps, e))

pub find_block_lem : (k o : ℕ) (lists : ℕ → List ℕ) → Searched k o lists (find_block k o lists)
unfolding find_block
find_block_lem zero o lists = λ j lo hi. absurd (omega arith)
find_block_lem (suc k) o lists =
    Searched-list k o lists (lists o) _ refl (find_block_lem k (suc o) lists)

pub push_block-blocks :
    (zn : Zone) (o p : ℕ)
    → o < 18
    → blocks 18 (push_block zn o p).free_lists ≡ blocks 18 zn.free_lists + pow2 o
unfolding size_of
push_block-blocks zn o p h =
    let moved = blocks-update 18 o zn.free_lists (p ∷ zn.free_lists o) h in omega arith

pub with_zone_at : (s : Pmm) (z : ℕ) (zn : Zone) → (with_zone s z zn).zones z ≡ zn
with_zone_at s z zn = update_at s.zones z z zn refl

pub pow2_next : (o k : ℕ) → pow2 (o + suc k) ≡ pow2 (o + k) + pow2 (o + k)
unfolding pow2
pow2_next o k = let e : o + suc k ≡ suc (o + k) = omega arith in ap pow2 e

-- Splitting a block of order `order + k` down to `order` puts the rest on the lists.
split_block-blocks :
    (k : ℕ) (s : Pmm) (z pfn order : ℕ)
    → order + k < 18
    → (blocks 18 ((split_block k s z pfn order).zones z).free_lists + pow2 order
        ≡ blocks 18 (s.zones z).free_lists + pow2 (order + k))
      × (((split_block k s z pfn order).zones z).free_pages ≡ (s.zones z).free_pages)
unfolding split_block
split_block-blocks zero s z pfn order h =
    let e : order + 0 ≡ order = omega arith in let same = ap pow2 e in (omega arith, refl)
split_block-blocks (suc k) s z pfn order h =
    let buddy = pfn + pow2 (order + k) in
    let zn = push_block (s.zones z) (order + k) buddy in
    let s1 = with_page s buddy (buddy_page (s.pages buddy) (s.pages pfn) (order + k)) in
    let here = with_zone_at s1 z zn in
    let rest = split_block-blocks k (with_zone s1 z zn) z pfn order (omega arith) in
    let pushed = push_block-blocks (s.zones z) (order + k) buddy (omega arith) in
    let lists = ap (λ q. blocks 18 q.free_lists) here in
    let next = pow2_next order k in (omega arith, rest.1 ∙ ap (λ q. q.free_pages) here)

remove_block-blocks :
    (zn : Zone) (o p : ℕ) (ps : List ℕ)
    → o < 18
    → zn.free_lists o ≡ p ∷ ps
    → blocks 18 (remove_block zn o p).free_lists + pow2 o ≡ blocks 18 zn.free_lists
unfolding remove_block unlink size_of
remove_block-blocks zn o p ps h e =
    let moved = blocks-update 18 o zn.free_lists (unlink p (zn.free_lists o)) h in
    let size = ap (size_of o) e in
    let left =
      ap (λ q. size_of o (unlink p q)) e
      ∙ ap (λ t. size_of o (if t then ps else p ∷ unlink p ps)) (==-true p p refl) in
    omega arith

-- What an allocation from zone `z` returned and left: no list from the order on has a block, or a
-- free block's first page, with one reference, and `2^order` pages fewer in the zone.
abbrev pub Allocated : Pmm → ℕ → ℕ → Pmm → Option ℕ → Type 0
Allocated s z order s' none =
    (s' ≡ s) × ((j : ℕ) → order ≤ j → j < 18 → (s.zones z).free_lists j ≡ [])
Allocated s z order s' (some pfn) =
    ((big : ℕ) × (order ≤ big)
      × (big < 18)
      × ((ps : List ℕ) × ((s.zones z).free_lists big ≡ pfn ∷ ps)))
    × (blocks 18 (s'.zones z).free_lists + pow2 order ≡ blocks 18 (s.zones z).free_lists)
    × ((s'.zones z).free_pages ≡ ((s.zones z).free_pages + 2 ^ 64 - pow2 order) % 2 ^ 64)
    × ((s'.pages pfn).refcount ≡ 1)
    × ((s'.pages pfn).order ≡ order)

-- The three steps of `alloc_found` on the zone.
pub alloc_found-Allocated :
    (s : Pmm) (z order flags : ℕ) (r : Option (ℕ × ℕ))
    → Searched (18 - order) order (s.zones z).free_lists r
    → order ≤ 18
    → Allocated s z order (alloc_found s z order flags r).0 (alloc_found s z order flags r).1
unfolding alloc_found
alloc_found-Allocated s z order flags none found h = (refl, λ j lo hi. found j lo (omega arith))
alloc_found-Allocated s z order flags (some (big, pfn)) (lo, hi, (ps, e)) h =
    let zn = remove_block (s.zones z) big pfn in
    let s1 = with_zone s z zn in
    let s2 = given (split_block (big - order) s1 z pfn order) pfn order flags in
    let here = with_zone_at s z zn in
    let there = with_zone_at s2 z (record (s2.zones z) {
      free_pages = ((s2.zones z).free_pages + 2 ^ 64 - pow2 order) % 2 ^ 64;
    }) in
    let halved = split_block-blocks (big - order) s1 z pfn order (omega arith) in
    let removed = remove_block-blocks (s.zones z) big pfn ps (omega arith) e in
    let top : order + (big - order) ≡ big = omega arith in
    let tops = ap pow2 top in
    let lists = ap (λ q. blocks 18 q.free_lists) here in
    let lists' = ap (λ q. blocks 18 q.free_lists) there in
    let page = update_at (split_block (big - order) s1 z pfn order).pages pfn pfn _ refl in
    (
      (big, lo, omega arith, (ps, e)),
      omega arith,
      ap (λ q. q.free_pages) there
          ∙ ap (λ n. (n + 2 ^ 64 - pow2 order) % 2 ^ 64) (halved.1 ∙ ap (λ q. q.free_pages) here),
      ap (λ q. q.refcount) page,
      ap (λ q. q.order) page,
    )
