-- ===== src/Shm/Pages.antt =====
-- Backing a shared memory segment with pages, and finding a segment by its name.
use bored_os.Base.{
  ℕ, ◌+◌, ◌-◌, ◌*◌, ◌^◌, ◌≤◌, ◌<◌, ◌≡◌, Bool, true, false, List, ◌++◌, length, suc, zero, not,
  Option, none, some, [], ◌∷◌, ◌==◌, ◌&&◌, if◌then◌else◌, ltb,
}
use bored_os.Shm.{Segment, pages_needed}

-- A segment's size is backed by its pages.
abbrev pub IsBacked : Segment → Type 0
IsBacked seg = seg.size ≤ length seg.pages * 4096

-- The pages that the first `n` calls of the allocator give, up to the first that is refused.
unfoldable pub given : ℕ → List (Option ℕ) → List ℕ
given zero answers = []
given (suc n) [] = []
given (suc n) (none ∷ answers) = []
given (suc n) (some p ∷ answers) = p ∷ given n answers

-- The pages that an allocation takes.
abbrev pub asked : List (Option ℕ) → Segment → ℕ → List ℕ
asked answers seg size =
    if ltb 2048 (pages_needed size)
    then []
    else given (pages_needed size - length seg.pages) answers

-- What an allocation leaves: the segment backed; on success all pages taken and none freed, and the
-- size asked for backed; on failure the segment as it was and all pages that were taken freed.
abbrev pub Allocated : List (Option ℕ) → Segment → ℕ → Segment × List ℕ × Bool → Type 0
Allocated answers seg size (seg', freed, ok) =
    IsBacked seg'
    × (ok ≡ (
        not (ltb 2048 (pages_needed size))
        && (length (asked answers seg size) == pages_needed size - length seg.pages)))
    × (ok ≡ true
        → (seg'.pages ≡ seg.pages ++ asked answers seg size)
          × (freed ≡ [])
          × (size + 4096 < 2 ^ 44 → size ≤ length seg'.pages * 4096))
    × (ok ≡ false → (seg' ≡ seg) × (freed ≡ asked answers seg size))
