-- ===== src/Pmm/Blocks.antt =====
-- The pages that the free lists of a zone hold.
use bored_os.Base.{
  ℕ, zero, suc, ◌+◌, ◌≤◌, ◌<◌, ◌≡◌, refl, List, [], ◌∷◌, arith, inl, inr, ◌⊎◌, ℕ_discrete, ==-true,
  ==-false,
}
use bored_os.Base.Arrays.{update}
use bored_os.Pmm.{Zone, pow2, unlink}

-- The pages of blocks of one order, and of the lists below order `k`.
unfoldable pub size_of : ℕ → List ℕ → ℕ
size_of o [] = 0
size_of o (p ∷ ps) = pow2 o + size_of o ps

-- A page is one of a list.
unfoldable pub Listed : ℕ → List ℕ → Type 0
Listed pfn [] = ⊥
Listed pfn (p ∷ ps) = (p ≡ pfn) ⊎ Listed pfn ps

unfoldable pub blocks : ℕ → (ℕ → List ℕ) → ℕ
blocks zero lists = 0
blocks (suc k) lists = blocks k lists + size_of k (lists k)

blocks-update_out :
    (k o : ℕ) (lists : ℕ → List ℕ) (ps : List ℕ)
    → k ≤ o
    → blocks k (update lists o ps) ≡ blocks k lists
unfolding blocks size_of
blocks-update_out zero o lists ps h = refl
blocks-update_out (suc k) o lists ps h =
    ground (arith, blocks-update_out k o lists ps (omega arith))

pub blocks-update :
    (k o : ℕ) (lists : ℕ → List ℕ) (ps : List ℕ)
    → o < k
    → blocks k (update lists o ps) + size_of o (lists o) ≡ blocks k lists + size_of o ps
unfolding blocks size_of
blocks-update zero o lists ps h = absurd (omega arith)
blocks-update (suc k) o lists ps h = elim (ℕ_discrete o k) [
  | yes e ↦ ground (arith, blocks-update_out k o lists ps)
  | no ne ↦ ground (arith, blocks-update k o lists ps (omega arith))
]

-- The rest of a list of blocks that loses one of them.
pub size-unlink :
    (o pfn : ℕ) (ps : List ℕ) → Listed pfn ps → size_of o (unlink pfn ps) + pow2 o ≡ size_of o ps
unfolding size_of unlink Listed
size-unlink o pfn [] h = absurd h
size-unlink o pfn (p ∷ ps) h = elim (ℕ_discrete p pfn) [
  | yes e ↦ ground (arith, ==-true p pfn e)
  | no ne ↦ ground (
    arith,
    ==-false p pfn ne,
    size-unlink o pfn ps (elim h [ inl e ↦ absurd (ne e) | inr there ↦ there ]),
  )
]

-- `free_pages` is the number of pages that the zone's free lists hold.
abbrev pub IsCounted : Zone → Type 0
IsCounted z = z.free_pages ≡ blocks 18 z.free_lists
