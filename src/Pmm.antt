-- ===== src/Pmm.antt =====
-- mem/pmm.c: the physical page allocator, a buddy allocator with three zones and a stack of single
-- pages for each processor.
-- A page is its number (pfn). The doubly linked free lists are lists of page numbers, first page
-- first; each function runs under the zone's lock, with interrupts off. The contents of pages, and
-- so `page_zero_fast`, are left out.
pub mod Blocks
pub mod Pages
pub mod Alloc
pub mod Ingest
mod Tests
use bored_os.Base.{
  ℕ, zero, suc, ◌+◌, ◌-◌, ◌*◌, ◌/◌, ◌%◌, ◌^◌, Bool, true, false, not, Option, none, some, List, [],
  ◌∷◌, ◌++◌, length, leb, ltb, ◌==◌, ◌&&◌, ◌||◌, if◌then◌else◌,
}
use bored_os.Base.Arrays.{update}

-- `page_t`, less the links of the free list.
pub record Page : Type 0 where
  pub flags : ℕ
  pub refcount : ℕ
  pub order : ℕ
  pub zone : ℕ

-- `pmm_zone_t`
pub record Zone : Type 0 where
  pub free_lists : ℕ → List ℕ
  pub free_pages : ℕ

-- The file's static variables. A processor's pool is a stack, its top first.
pub record Pmm : Type 0 where
  pub pages : ℕ → Page
  pub zones : ℕ → Zone
  pub pools : ℕ → List ℕ
  pub smp_ready : Bool
  pub total_pages : ℕ
  pub usable_pages : ℕ

abbrev pub max_order : ℕ
max_order = 18

abbrev pub zone_dma : ℕ
zone_dma = 0

abbrev pub zone_dma32 : ℕ
zone_dma32 = 1

abbrev pub zone_normal : ℕ
zone_normal = 2

abbrev pub batch_size : ℕ
batch_size = 16

abbrev pub pool_size : ℕ
pool_size = 32

abbrev pub max_cpus : ℕ
max_cpus = 64

-- `1UL << order`
pub pow2 : ℕ → ℕ
pow2 zero = 1
pow2 (suc k) = pow2 k + pow2 k

-- PAGE_FLAG_FREE, PAGE_FLAG_ZERO, PAGE_FLAG_DMA and PAGE_FLAG_DMA32 are the bits 0, 5, 9 and 10.
abbrev pub flag_free : ℕ
flag_free = 1

abbrev pub flag_zero : ℕ
flag_zero = 32

abbrev pub has_flag : ℕ → ℕ → Bool
has_flag flags flag = flags / flag % 2 == 1

-- `flags & ~PAGE_FLAG_ZERO`
abbrev pub without_zero : ℕ → ℕ
without_zero flags = if has_flag flags flag_zero then flags - flag_zero else flags

-- `paddr_to_zone_id`
pub zone_of_address : ℕ → ℕ
zone_of_address paddr =
    if ltb paddr 0x01000000
    then zone_dma
    else if ltb paddr 0x100000000
    then zone_dma32
    else zone_normal

-- `list_add_head` and `list_remove` on the list of one order.
abbrev pub push_block : Zone → ℕ → ℕ → Zone
push_block z order pfn = record z {
  free_lists = update z.free_lists order (pfn ∷ z.free_lists order);
}

pub unlink : ℕ → List ℕ → List ℕ
unlink pfn [] = []
unlink pfn (p ∷ ps) = if p == pfn then ps else p ∷ unlink pfn ps

pub remove_block : Zone → ℕ → ℕ → Zone
unfolding unlink
remove_block z order pfn = record z {
  free_lists = update z.free_lists order (unlink pfn (z.free_lists order));
}

abbrev pub with_zone : Pmm → ℕ → Zone → Pmm
with_zone s z zn = record s { zones = update s.zones z zn }

abbrev pub with_page : Pmm → ℕ → Page → Pmm
with_page s pfn p = record s { pages = update s.pages pfn p }

-- `add_free_block`
pub add_free_block : Pmm → ℕ → ℕ → Pmm
unfolding pow2
add_free_block s pfn order =
    if leb s.total_pages pfn
    then s
    else (let z = (s.pages pfn).zone in
        let zn = push_block (s.zones z) order pfn in
        record s {
          pages =
              update s.pages pfn
                (record (s.pages pfn) { order = order; flags = flag_free; refcount = 0 });
          zones = update s.zones z (record zn { free_pages = zn.free_pages + pow2 order });
          usable_pages = s.usable_pages + pow2 order;
        })

-- The inner loop of `ingest_usable_range`, with `k` rounds left: the order of the next block.
pub block_order : ℕ → ℕ → ℕ → ℕ → ℕ
unfolding pow2 zone_of_address
block_order zero order pfn end = order
block_order (suc k) order pfn end =
    let size = pow2 (suc order) in
    let more = block_order k (suc order) pfn end in
    if not (pfn % size == 0) || ltb end (pfn + size)
    then order
    else if zone_of_address (pfn * 4096) == zone_of_address ((pfn + size - 1) * 4096)
    then more
    else order

-- The outer loop of `ingest_usable_range`, with fuel.
pub ingest : ℕ → Pmm → ℕ → ℕ → Pmm
unfolding block_order add_free_block
ingest zero s pfn end = s
ingest (suc f) s pfn end =
    let order = block_order (max_order - 1) 0 pfn end in
    let rest = ingest f (add_free_block s pfn order) (pfn + pow2 order) end in
    if ltb pfn end then rest else s

-- The first order, of `k` from `order` on, with a free block, and that block.
pub find_block : ℕ → ℕ → (ℕ → List ℕ) → Option (ℕ × ℕ)
find_block zero order lists = none
find_block (suc k) order lists =
    let rest = find_block k (suc order) lists in
    elim (lists order) [ [] ↦ rest | p ∷ ps ↦ some (order, p) ]

-- A page that becomes the upper half of a split block.
abbrev pub buddy_page : Page → Page → ℕ → Page
buddy_page buddy page order = record buddy {
  order = order;
  zone = page.zone;
  flags = flag_free;
  refcount = 0;
}

-- The loop of `alloc_from_zone_locked` that splits a block, with `k` halvings left to `order`.
pub split_block : ℕ → Pmm → ℕ → ℕ → ℕ → Pmm
unfolding pow2
split_block zero s z pfn order = s
split_block (suc k) s z pfn order =
    let buddy = pfn + pow2 (order + k) in
    split_block k
      (with_zone (with_page s buddy (buddy_page (s.pages buddy) (s.pages pfn) (order + k))) z
        (push_block (s.zones z) (order + k) buddy))
      z pfn order

-- What is left to do with the page that is given out.
abbrev pub given : Pmm → ℕ → ℕ → ℕ → Pmm
given s pfn order flags =
    with_page s pfn
      (record (s.pages pfn) { order = order; flags = without_zero flags; refcount = 1 })

pub alloc_found : Pmm → ℕ → ℕ → ℕ → Option (ℕ × ℕ) → Pmm × Option ℕ
unfolding remove_block split_block
alloc_found s z order flags none = (s, none)
alloc_found s z order flags (some (big, pfn)) =
    let s1 = with_zone s z (remove_block (s.zones z) big pfn) in
    let s2 = given (split_block (big - order) s1 z pfn order) pfn order flags in
    (
      with_zone s2 z (record (s2.zones z) {
        free_pages = ((s2.zones z).free_pages + 2 ^ 64 - pow2 order) % 2 ^ 64;
      }),
      some pfn,
    )

-- `alloc_from_zone_locked`
pub alloc_from_zone : Pmm → ℕ → ℕ → ℕ → Pmm × Option ℕ
unfolding find_block alloc_found
alloc_from_zone s z order flags =
    alloc_found s z order flags (find_block (max_order - order) order (s.zones z).free_lists)

-- The loop of `pmm_alloc_order` that fetches up to `k` pages for a processor's pool, in their
-- order.
fetch_pages : ℕ → Pmm → ℕ → Pmm × List ℕ
unfolding alloc_from_zone
fetch_pages zero s z = (s, [])
fetch_pages (suc k) s z =
    let (s', o) = alloc_from_zone s z 0 0 in
    let rest = fetch_pages k s' z in elim o [ none ↦ (s', []) | some p ↦ (rest.0, p ∷ rest.1) ]

pushed_all : List ℕ → List ℕ → List ℕ
pushed_all [] pool = pool
pushed_all (p ∷ ps) pool = pushed_all ps (p ∷ pool)

-- The loop of `pmm_alloc_order` over the zones `z`, ..., 0.
try_zones : ℕ → Pmm → ℕ → ℕ → Pmm × Option ℕ
unfolding alloc_from_zone
try_zones zero s order flags = alloc_from_zone s 0 order flags
try_zones (suc z) s order flags =
    let (s', o) = alloc_from_zone s (suc z) order flags in
    let rest = try_zones z s' order flags in elim o [ none ↦ rest | some p ↦ (s', some p) ]

alloc_from_zones : Pmm → ℕ → ℕ → Pmm × Option ℕ
unfolding try_zones
alloc_from_zones s order flags =
    if has_flag flags 512
    then try_zones zone_dma s order flags
    else if has_flag flags 1024
    then try_zones zone_dma32 s order flags
    else try_zones zone_normal s order flags

alloc_fetched : Pmm → ℕ → ℕ → List ℕ → Pmm × Option ℕ
unfolding alloc_from_zones pushed_all
alloc_fetched s cpu flags [] = alloc_from_zones s 0 flags
alloc_fetched s cpu flags (p ∷ ps) = (
  given (record s { pools = update s.pools cpu (pushed_all ps (s.pools cpu)) }) p 0 flags,
  some p,
)

alloc_single : Pmm → ℕ → ℕ → List ℕ → Pmm × Option ℕ
unfolding alloc_fetched fetch_pages
alloc_single s cpu flags (p ∷ pool) =
    (given (record s { pools = update s.pools cpu pool }) p 0 flags, some p)
alloc_single s cpu flags [] =
    let z = if (s.zones zone_normal).free_pages == 0 then zone_dma32 else zone_normal in
    let (s', batch) = fetch_pages batch_size s z in alloc_fetched s' cpu flags batch

-- `pmm_alloc_order` on a processor.
alloc_order : Pmm → ℕ → ℕ → ℕ → Pmm × Option ℕ
unfolding alloc_single alloc_from_zones
alloc_order s cpu_id order flags =
    let cpu = if leb max_cpus cpu_id then 0 else cpu_id in
    if leb max_order order
    then (s, none)
    else if order == 0 && ((flags == 0 || flags == flag_zero) && s.smp_ready)
    then alloc_single s cpu flags (s.pools cpu)
    else alloc_from_zones s order flags

-- `pfn ^ (1UL << order)`
pub buddy_of : ℕ → ℕ → ℕ
unfolding pow2
buddy_of pfn order = if pfn / pow2 order % 2 == 0 then pfn + pow2 order else pfn - pow2 order

-- Whether `free_to_zone_locked` merges a block of an order with its buddy.
pub can_merge : Pmm → ℕ → ℕ → ℕ → Bool
can_merge s pfn buddy order =
    ltb buddy s.total_pages
    && (has_flag (s.pages buddy).flags flag_free
        && ((s.pages buddy).order == order
            && ((s.pages buddy).zone == (s.pages pfn).zone && (s.pages buddy).refcount == 0)))

-- The loop of `free_to_zone_locked`, with `k` rounds left: the zone, and the block that is freed.
pub merge_block : ℕ → Pmm → Zone → ℕ → ℕ → Zone × ℕ × ℕ
unfolding buddy_of can_merge remove_block
merge_block zero s zn pfn order = (zn, pfn, order)
merge_block (suc k) s zn pfn order =
    let buddy = buddy_of pfn order in
    let more =
      merge_block k s (remove_block zn order buddy) (if ltb buddy pfn then buddy else pfn)
        (suc order) in
    if can_merge s pfn buddy order then more else (zn, pfn, order)

-- `free_to_zone_locked`
pub free_to_zone : Pmm → ℕ → ℕ → ℕ → Pmm
unfolding merge_block
free_to_zone s z pfn order =
    let (zn, head, big) = merge_block (max_order - 1 - order) s (s.zones z) pfn order in
    with_zone
      (with_page s head (record (s.pages head) { order = big; flags = flag_free; refcount = 0 })) z
      (record (push_block zn big head) { free_pages = zn.free_pages + pow2 order })

free_all : Pmm → ℕ → List ℕ → Pmm
unfolding free_to_zone
free_all s z [] = s
free_all s z (p ∷ ps) = free_all (free_to_zone s z p 0) z ps

-- Splitting a pool after its top `k` pages.
split_pool : ℕ → List ℕ → List ℕ × List ℕ
split_pool zero pool = ([], pool)
split_pool (suc k) [] = ([], [])
split_pool (suc k) (p ∷ pool) = let (a, b) = split_pool k pool in (p ∷ a, b)

-- What `pmm_free_order` does with a page that has no reference left.
release : Pmm → ℕ → ℕ → ℕ → Pmm
unfolding free_all free_to_zone split_pool
release s cpu pfn order =
    if order == 0 && ((s.pages pfn).zone == zone_normal && s.smp_ready)
    then (if ltb (length (s.pools cpu)) pool_size
        then record s { pools = update s.pools cpu (pfn ∷ s.pools cpu) }
        else (let (drained, kept) = split_pool batch_size (s.pools cpu) in
            free_all (record s { pools = update s.pools cpu (pfn ∷ kept) }) zone_normal drained))
    else free_to_zone s (s.pages pfn).zone pfn order

-- `pmm_free_order` on a processor.
free_order : Pmm → ℕ → ℕ → ℕ → Pmm
unfolding release
free_order s cpu_id pfn order =
    let cpu = if leb max_cpus cpu_id then 0 else cpu_id in
    let refs = (s.pages pfn).refcount in
    if leb max_order order
    then s
    else if refs == 0
    then s
    else (let s' = with_page s pfn (record (s.pages pfn) { refcount = refs - 1 }) in
        if ltb 1 refs then s' else release s' cpu pfn order)

-- `pmm_page_ref`
page_ref : Pmm → ℕ → Pmm
page_ref s pfn =
    with_page s pfn (record (s.pages pfn) { refcount = ((s.pages pfn).refcount + 1) % 2 ^ 32 })

-- `pmm_page_unref`
page_unref : Pmm → ℕ → ℕ → Pmm
unfolding free_order
page_unref s cpu_id pfn = free_order s cpu_id pfn (s.pages pfn).order
