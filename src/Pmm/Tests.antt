-- ===== src/Pmm/Tests.antt =====
-- Runs of mem/pmm.c on a memory of 64 pages in the lowest zone.
use bored_os.Base.{false, [], ◌∷◌, arith, ◌==◌, if◌then◌else◌}
use bored_os.Pmm.{Pmm, alloc_from_zone}
use bored_os.Pmm.Pages.{IsGiven, alloc_from_zone-IsGiven}

-- Pages 8 to 11 are one free block of order 2; the others are in use.
abbrev memory : Pmm
memory = record {
  pages = λ p.
      if p == 8
      then record { flags = 1; refcount = 0; order = 2; zone = 0 }
      else record { flags = 0; refcount = 1; order = 0; zone = 0 };
  zones = λ z.
      if z == 0
      then record { free_lists = λ o. if o == 2 then 8 ∷ [] else []; free_pages = 4 }
      else record { free_lists = λ o. []; free_pages = 0 };
  pools = λ c. [];
  smp_ready = false;
  total_pages = 64;
  usable_pages = 4;
}

abbrev bare : Pmm
bare = record memory {
  zones = λ z. record { free_lists = λ o. []; free_pages = 0 };
  usable_pages = 0;
}

alloc_from_zone-IsGiven_example :
    IsGiven memory 0 1 (alloc_from_zone memory 0 1 0).0 (alloc_from_zone memory 0 1 0).1
alloc_from_zone-IsGiven_example = alloc_from_zone-IsGiven memory 0 1 0 (omega arith)
