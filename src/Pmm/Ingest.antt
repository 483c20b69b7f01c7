-- ===== src/Pmm/Ingest.antt =====
-- Adding a range of usable memory: every page of it is added once.
use bored_os.Base.{ℕ, ◌+◌, ◌-◌, ◌≤◌, ◌<◌, ◌*◌, ◌%◌, ◌≡◌, List, [], ◌∷◌}
use bored_os.Pmm.{Pmm, pow2, add_free_block, zone_of_address}
use bored_os.Pmm.Blocks.{IsCounted}

-- A block: it lies in the range up to `end`, starts at a multiple of its size, and its first and
-- last pages are of one zone.
abbrev pub IsBlock : ℕ → ℕ → ℕ → Type 0
IsBlock o pfn end =
    (pfn + pow2 o ≤ end)
    × (pfn % pow2 o ≡ 0)
    × (zone_of_address (pfn * 4096) ≡ zone_of_address ((pfn + pow2 o - 1) * 4096))

-- Blocks that lie one behind the other, from `pfn` up to `end`.
abbrev pub IsTiling : ℕ → ℕ → List (ℕ × ℕ) → Type 0
IsTiling pfn end [] = end ≤ pfn
IsTiling pfn end ((p, o) ∷ bs) =
    (p ≡ pfn) × (o < 18) × IsBlock o p end × IsTiling (p + pow2 o) end bs

-- `add_free_block` of each.
unfoldable pub add_all : Pmm → List (ℕ × ℕ) → Pmm
add_all s [] = s
add_all s ((p, o) ∷ bs) = add_all (add_free_block s p o) bs

-- All zones are counted.
abbrev pub AllCounted : Pmm → Type 0
AllCounted s = (z : ℕ) → IsCounted (s.zones z)
