-- ===== src/Shm.antt =====
-- fs/shm.c: named shared memory segments with reference counts. A segment is known by its address,
-- and the linked list is the list of addresses, first one first. `kmalloc` and the page allocator
-- are arguments: the addresses that they give. A reference count is an `int`, and the theorems are
-- about counts that stay below 2^31. Each function runs under `shm_lock`; zeroing a page is left
-- out.
pub mod References
pub mod Pages
pub mod Names
mod Tests
use bored_os.Base.{
  ℕ, zero, suc, ◌+◌, ◌-◌, ◌*◌, ◌/◌, ◌%◌, ◌^◌, Bool, true, false, Option, none, some, List, [], ◌∷◌,
  ◌++◌, length, take, drop, leb, ltb, ◌==◌, if◌then◌else◌,
}
use bored_os.Base.Arrays.{update}
use bored_os.Kutils.{strcmp, is_zero}

-- `shm_segment_t`; `pages` is `phys_pages[0..page_count)`.
pub record Segment : Type 0 where
  pub name : List ℕ
  pub pages : List ℕ
  pub size : ℕ
  pub ref_count : ℕ

-- The segments at their addresses, `shm_list`, and the pages and segments that were freed so far.
pub record Shm : Type 0 where
  pub segs : ℕ → Segment
  pub list : List ℕ
  pub freed_pages : List ℕ
  pub freed : List ℕ

-- SHM_MAX_PAGES
abbrev pub max_pages : ℕ
max_pages = 2048

-- The loop of `shm_get_or_create`, `shm_unlink` and `shm_exists` over the list.
pub find : (ℕ → Segment) → List ℕ → List ℕ → Option ℕ
find segs name [] = none
find segs name (a ∷ addrs) =
    let rest = find segs name addrs in if is_zero (strcmp name (segs a).name) then some a else rest

abbrev pub with_refs : Shm → ℕ → ℕ → Shm
with_refs s a n = record s { segs = update s.segs a (record (s.segs a) { ref_count = n }) }

-- A new segment of `shm_get_or_create`.
pub new_segment : List ℕ → Segment
new_segment name = record { name = take 63 name; pages = []; size = 0; ref_count = 2 }

pub create_at : Shm → List ℕ → Option ℕ → Shm × Option ℕ
unfolding new_segment
create_at s name none = (s, none)
create_at s name (some a) =
    (record s { segs = update s.segs a (new_segment name); list = a ∷ s.list }, some a)

pub found_or_new : Shm → List ℕ → Option ℕ → Option ℕ → Shm × Option ℕ
unfolding create_at
found_or_new s name mem none = create_at s name mem
found_or_new s name mem (some a) = (with_refs s a ((s.segs a).ref_count + 1), some a)

-- `shm_get_or_create`, where `mem` is what `kmalloc` gives; NULL for a name is the empty one.
pub get_or_create : Option ℕ → Shm → List ℕ → Shm × Option ℕ
unfolding found_or_new find
get_or_create mem s [] = (s, none)
get_or_create mem s (c ∷ name) = found_or_new s (c ∷ name) mem (find s.segs (c ∷ name) s.list)

-- `shm_ref`
pub hold : Shm → ℕ → Shm
hold s a = with_refs s a ((s.segs a).ref_count + 1)

-- The loop that takes a segment out of the list.
pub delist : ℕ → List ℕ → List ℕ
delist a [] = []
delist a (b ∷ bs) = if b == a then bs else b ∷ delist a bs

abbrev pub free_segment : Shm → ℕ → Shm
free_segment s a = record s { freed_pages = s.freed_pages ++ (s.segs a).pages; freed = a ∷ s.freed }

-- `shm_unref`; a count that falls to 0 or below frees the segment.
pub unref : Shm → ℕ → Shm
unfolding delist
unref s a =
    let s' = with_refs s a ((s.segs a).ref_count - 1) in
    if leb (s.segs a).ref_count 1 then free_segment (record s' { list = delist a s.list }) a else s'

pub unlink_found : Shm → Option ℕ → Shm
unfolding delist
unlink_found s none = s
unlink_found s (some a) =
    let s' = record (with_refs s a ((s.segs a).ref_count - 1)) { list = delist a s.list } in
    if leb (s.segs a).ref_count 1 then free_segment s' a else s'

-- `shm_unlink`
pub unlink : Shm → List ℕ → Shm
unfolding unlink_found find
unlink s [] = s
unlink s (c ∷ name) = unlink_found s (find s.segs (c ∷ name) s.list)

abbrev pub is_some : Option ℕ → Bool
is_some none = false
is_some (some a) = true

-- `shm_exists`
pub exists : Shm → List ℕ → Bool
unfolding find
exists s [] = false
exists s (c ∷ name) = is_some (find s.segs (c ∷ name) s.list)

-- `(size + 4095) & ~4095ULL`, on 64 bits
pub aligned_len : ℕ → ℕ
aligned_len size = (size + 4095) % 2 ^ 64 / 4096 * 4096

-- `uint32_t pages_needed = aligned_len / 4096`
pub pages_needed : ℕ → ℕ
unfolding aligned_len
pages_needed size = aligned_len size / 4096 % 2 ^ 32

-- `if (aligned_len > seg->size) seg->size = (uint32_t)aligned_len;`
pub with_size : Segment → ℕ → Segment
with_size seg len = if ltb seg.size len then record seg { size = len % 2 ^ 32 } else seg

-- The loop of `shm_allocate` over the `n` pages that are missing. `kmalloc_aligned` answers in turn
-- what the list has, and NULL (none) once it has ended: the pages taken, and whether none was
-- refused.
unfoldable pub take_pages : ℕ → List (Option ℕ) → List ℕ → List ℕ × Bool
take_pages zero answers taken = (taken, true)
take_pages (suc n) [] taken = (taken, false)
take_pages (suc n) (none ∷ answers) taken = (taken, false)
take_pages (suc n) (some p ∷ answers) taken = take_pages n answers (taken ++ p ∷ [])

-- "Rollback newly allocated pages": the pages freed so far, and these.
unfoldable pub roll_back : List ℕ → List ℕ → List ℕ
roll_back [] freed = freed
roll_back (p ∷ taken) freed = roll_back taken (freed ++ p ∷ [])

-- The end of `shm_allocate`.
abbrev pub finish_allocate : Segment → ℕ → List ℕ × Bool → Segment × List ℕ × Bool
finish_allocate seg size (taken, false) = (seg, roll_back taken [], false)
finish_allocate seg size (taken, true) =
    (with_size (record seg { pages = seg.pages ++ taken }) (aligned_len size), [], true)

-- `shm_allocate`: the segment, the pages that are freed, and whether the result is 0.
pub allocate : List (Option ℕ) → Segment → ℕ → Segment × List ℕ × Bool
unfolding pages_needed aligned_len with_size take_pages roll_back
allocate answers seg size =
    if ltb max_pages (pages_needed size)
    then (seg, [], false)
    else finish_allocate seg size (take_pages (pages_needed size - length seg.pages) answers [])
