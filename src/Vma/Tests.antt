-- ===== src/Vma/Tests.antt =====
-- core/lib/rbtree.c and mem/vma.c on a space of one area.
use bored_os.Base.{◌+◌, inl, ℕ, ◌≡◌, refl, true, false, not, some, [], ◌∷◌, if◌then◌else◌, arith}
use bored_os.Rbtree.{Tree, leaf, node, red, black, above, left, to_list, insert_fixup}
use bored_os.Rbtree.Balance.{IsRedBlack, insert_fixup_lem}
use bored_os.Vma.{Area, Space, find, insert, place_of, remove, page_up, find_unmapped_area}
use bored_os.Vma.Order.{area_at, find-area_at}
use bored_os.Vma.Descend.{IsSpace, any_meets, place}
use bored_os.Vma.Insert.{insert_lem}
use bored_os.Vma.Remove.{stale_at, remove_lem}
use bored_os.Vma.Unmapped.{IsRoom, span, find_unmapped_area-IsRoom}
use bored_os.Vma.Full.{find_unmapped_area-full}
use bored_os.Rbtree.Erase.{erase}
use bored_os.Rbtree.Erase.Whole.{erase-IsErased}

abbrev area : ℕ → ℕ → Area
area start finish = record {
  start = start;
  finish = finish;
  kind = 1;
  flags = 3;
  backing_file = 0;
  file_offset = 0;
}

abbrev low : Area
low = area 4096 8192

abbrev high : Area
high = area 8192 16384

abbrev one_area : Space
one_area = record { tree = node black leaf low leaf; areas = low ∷ [] }

one_area-IsSpace : IsSpace one_area
unfolding to_list
one_area-IsSpace = record {
  balanced = record { height = 1; balanced = (refl, refl); root = refl };
  same = refl;
  ordered = (omega arith, omega arith, tt);
}

insert_run :
    insert one_area high
    ≡ some (
      record { tree = node black leaf low (node red leaf high leaf); areas = low ∷ (high ∷ []) },
      true,
    )
unfolding insert
insert_run = refl

insert_overlap_run : insert one_area (area 0 4097) ≡ some (one_area, false)
unfolding insert
insert_overlap_run = refl

insert_lem_example :
    (s' : Space) × (insert one_area high ≡ some (s', not (any_meets high one_area.areas)))
    × IsSpace s'
    × (s'.areas
        ≡ (if any_meets high one_area.areas then one_area.areas else place high one_area.areas))
insert_lem_example = insert_lem one_area high one_area-IsSpace (omega arith)

find-area_at_example : find one_area.tree 5000 ≡ area_at 5000 (to_list one_area.tree)
unfolding to_list
find-area_at_example = find-area_at 0 5000 one_area.tree (omega arith, omega arith, tt)

-- A red node below a red one, with a red uncle.
insert_fixup_lem_example :
    (u : Tree ℕ) × (insert_fixup
        (node red leaf 1 leaf)
        (above left red 2 leaf ∷ (above left black 3 (node red leaf 4 leaf) ∷ []))
      ≡ some u)
    × IsRedBlack u
    × (to_list u ≡ 1 ∷ (2 ∷ (3 ∷ (4 ∷ []))))
unfolding to_list
insert_fixup_lem_example =
    insert_fixup_lem {A = ℕ} (node red leaf 1 leaf)
      (above left red 2 leaf ∷ (above left black 3 (node red leaf 4 leaf) ∷ [])) 0 refl
      (refl, refl, refl, refl) (refl, refl, tt, ((refl, refl, refl, refl), tt))

abbrev top : Area
top = area 20480 24576

-- The right child has a right child, whose parent link is left at the erased middle area.
abbrev four_areas : Space
four_areas = record {
  tree =
      node black (node black leaf low leaf) high
        (node black leaf top (node red leaf (area 24576 28672) leaf));
  areas = low ∷ (high ∷ (top ∷ (area 24576 28672 ∷ [])));
}

remove_stale_run :
    remove four_areas 8192
    ≡ some (
      record {
        tree = node black (node black leaf low leaf) top (node black leaf (area 24576 28672) leaf);
        areas = low ∷ (top ∷ (area 24576 28672 ∷ []));
      },
      true,
      some (area 24576 28672),
    )
unfolding remove
remove_stale_run = refl

four_areas-IsSpace : IsSpace four_areas
unfolding to_list
four_areas-IsSpace = record {
  balanced = record {
    height = 2;
    balanced = ((refl, refl), (refl, (refl, refl, refl, refl)));
    root = refl;
  };
  same = refl;
  ordered = (
    omega arith,
    omega arith,
    (omega arith, omega arith, (omega arith, omega arith, (omega arith, omega arith, tt))),
  );
}

remove_lem_example :
    (s' : Space) × (remove four_areas 8192
      ≡ some (s', true, stale_at (place_of 8192 four_areas.tree [])))
    × IsSpace s'
    × (s'.areas ≡ low ∷ (top ∷ (area 24576 28672 ∷ [])))
remove_lem_example =
    remove_lem four_areas (low ∷ []) (top ∷ (area 24576 28672 ∷ [])) high four_areas-IsSpace refl

-- A right child with a right child takes the place of its parent.
erase-IsErased_example :
    (u : Tree ℕ) × (erase black
        (node black leaf 1 leaf)
        (node black leaf 3 (node red leaf 4 leaf))
        []
      ≡ some (u, some 4))
    × IsRedBlack u
    × (to_list u ≡ 1 ∷ (3 ∷ (4 ∷ [])))
unfolding to_list
erase-IsErased_example =
    erase-IsErased {A = ℕ} black (node black leaf 1 leaf) 2
      (node black leaf 3 (node red leaf 4 leaf)) [] 2
      ((refl, refl), (refl, (refl, refl, refl, refl))) tt (inl refl)

-- The first gap that is large enough is behind the second area.
find_unmapped_area_run : find_unmapped_area (low ∷ (high ∷ [])) 4096 32768 5000 4096 ≡ 16384
unfolding find_unmapped_area
find_unmapped_area_run = refl

find_unmapped_area-IsRoom_example :
    IsRoom 4096 32768 8192
      (low ∷ (high ∷ []))
      (find_unmapped_area (low ∷ (high ∷ [])) 4096 32768 8192 4096)
find_unmapped_area-IsRoom_example =
    find_unmapped_area-IsRoom (low ∷ (high ∷ [])) 4096 32768 8192 4096
      (omega arith, omega arith, (omega arith, omega arith, tt)) (omega arith) (omega arith)
      (omega arith) refl refl

no_room_run : find_unmapped_area (low ∷ (high ∷ [])) 4096 16384 5000 4096 ≡ 0
unfolding find_unmapped_area
no_room_run = refl

find_unmapped_area-full_example :
    any_meets (span 8192 (8192 + page_up 5000)) (low ∷ (high ∷ [])) ≡ true
find_unmapped_area-full_example =
    find_unmapped_area-full (low ∷ (high ∷ [])) 4096 16384 5000 4096 8192
      (omega arith, omega arith, (omega arith, omega arith, tt)) (omega arith) (omega arith)
      (omega arith) (omega arith) (omega arith) (omega arith) (omega arith) (omega arith)
      (omega arith) no_room_run
