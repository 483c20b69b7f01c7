-- ===== src/Radix/Faults.antt =====
-- When `radix_tree_insert` reads through NULL.
use bored_os.Base.{
  ==-false, ℕ, zero, suc, ◌+◌, ◌≤◌, ◌<◌, ◌≡◌, refl, ap, ◌∙◌, true, none, some, arith, leb,
  Bool-cases, inl, inr, lt→leb, le→leb,
}
use bored_os.Radix.{
  null, Root, max_index, needed_height, extend, insert_below, insert_by, insert, init,
}

-- The height that is found, of `h` to `h + k`, is enough.
needed_height_lem :
    (k h top index : ℕ)
    → h + k ≡ top
    → index ≤ max_index top
    → (j : ℕ) × (needed_height (suc k) h index ≡ some j)
      × (h ≤ j)
      × (j ≤ top)
      × (index ≤ max_index j)
unfolding needed_height
needed_height_lem zero h top index e le =
    let same : h ≡ top = omega arith in
    let enough : leb index (max_index h) ≡ true = le→leb index (max_index h) (rw same le) in
    (h, rw enough refl, omega arith, omega arith, rw same le)
needed_height_lem (suc k) h top index e le = elim (Bool-cases (leb index (max_index h))) [
  | inl t ↦ (h, rw t refl, omega arith, omega arith, ground arith)
  | inr t ↦
      let (j, found, lo, hi, fits) = needed_height_lem k (h + 1) top index (omega arith) le in
      (j, rw t found, omega arith, hi, fits)
]

extend_empty :
    (memory index j : ℕ)
    → needed_height 8 0 index ≡ some j
    → extend memory init index ≡ (record init { height = j }, memory, true)
unfolding extend
extend_empty memory index j e = rw (extend, e) refl

insert_below_null : (h memory index x : ℕ) → insert_below h memory null index x ≡ none
unfolding insert_below
insert_below_null zero memory index x = refl
insert_below_null (suc h) memory index x = refl

insert_by_null :
    (j memory index x : ℕ) (r : Root) → 0 < j → r.rnode ≡ null → insert_by j memory r index x ≡ none
unfolding insert_by insert_below
insert_by_null zero memory index x r pos e = absurd (omega arith)
insert_by_null (suc j) memory index x r pos e =
    ground (arith, ap (λ t. insert_below j memory t index x) e ∙ insert_below_null j memory index x)

positive : (index j : ℕ) → 0 < index → index ≤ max_index j → 0 < j
unfolding max_index
positive index zero pos le = absurd (omega arith)
positive index (suc j) pos le = omega arith

-- The first insertion into an empty tree of an item that is not NULL reads through NULL at every
-- index from 1 up to 2^42 - 1, the greatest that a tree of the greatest height has, however much
-- memory there is: the tree is made higher without a node.
pub insert_first_faults :
    (memory index x : ℕ)
    → 0 < index
    → index ≤ max_index 7
    → 0 < x
    → insert memory init index x ≡ none
unfolding insert max_index
insert_first_faults memory index x pos le item =
    let (j, found, lo, hi, fits) = needed_height_lem 7 0 7 index refl le in
    let grown = extend_empty memory index j found in
    rw (insert, ==-false x 0 (omega (arith, item)), grown, lt→leb index 0 pos)
      (insert_by_null j memory index x (record init { height = j }) (positive index j pos fits)
        refl)
