-- ===== src/Base/Arrays.antt =====
-- C arrays as functions on indices, and the bytes between two indices of a ring.
use bored_os.Base.{
  ℕ, zero, suc, ◌+◌, ◌-◌, ◌%◌, ◌<◌, ◌≡◌, refl, ◌≢◌, ap, List, [], ◌∷◌, ◌++◌, arith, ◌==◌,
  if◌then◌else◌, ==-true, ==-false, length, leb, ◌⊎◌, inl, inr, dec_lt,
}
use native.Mathlib.Nat.{mod-eq_of_lt, mod_self}

module _ {ℓ} {A : Type ℓ} where
  -- `a[i] = v`
  abbrev pub update : (ℕ → A) → ℕ → A → ℕ → A
  update a i v j = if i == j then v else a j

  -- The `n` cells from `r` on, going round at `size`.
  unfoldable pub window : (ℕ → A) → ℕ → ℕ → ℕ → List A
  window a size r zero = []
  window a size r (suc n) = a r ∷ window a size ((r + 1) % size) n

  pub length-window : (a : ℕ → A) (size r n : ℕ) → length (window a size r n) ≡ n
  unfolding window
  length-window a size r zero = refl
  length-window a size r (suc n) = ap suc (length-window a size ((r + 1) % size) n)

-- How many cells a ring holds whose oldest is at `r` and whose next free one is at `w`.
abbrev pub used : ℕ → ℕ → ℕ → ℕ
used size r w = if leb r w then w - r else size + w - r

pub used-lt : (size r w : ℕ) → r < size → w < size → used size r w < size
used-lt size r w hr hw = ground arith

pub next-lt : (size r : ℕ) → r < size → (r + 1) % size < size
next-lt size r h = omega arith

pub next_lem :
    (size r : ℕ)
    → r < size
    → ((r + 1 ≡ size) × ((r + 1) % size ≡ 0)) ⊎ ((r + 1 < size) × ((r + 1) % size ≡ r + 1))
next_lem size r h = elim (dec_lt (r + 1) size) [
  | yes p ↦ inr (p, mod-eq_of_lt p)
  | no p ↦ let e : r + 1 ≡ size = omega arith in inl (e, rw e (mod_self size))
]

-- Reading one cell.
pub used-next_read :
    (size r w : ℕ)
    → r < size
    → w < size
    → r ≢ w
    → used size r w ≡ suc (used size ((r + 1) % size) w)
used-next_read size r w hr hw ne = ground (arith, next_lem size r hr)

-- Writing one cell.
pub used-next_write :
    (size r w : ℕ)
    → r < size
    → w < size
    → (w + 1) % size ≢ r
    → used size r ((w + 1) % size) ≡ suc (used size r w)
used-next_write size r w hr hw ne = ground (arith, next_lem size w hw)

pub used-full : (size r w : ℕ) → r < size → w < size → (w + 1) % size ≡ r → used size r w + 1 ≡ size
used-full size r w hr hw e = ground (arith, next_lem size w hw)

module _ {A : Type 0} where
  -- Writing the next free cell adds its value behind the cells that the ring holds.
  pub window-update :
      (a : ℕ → A) (size w : ℕ) (v : A) (n r : ℕ)
      → r < size
      → w < size
      → n ≡ used size r w
      → (w + 1) % size ≢ r
      → window (update a w v) size r (suc n) ≡ window a size r n ++ v ∷ []
  unfolding window
  window-update a size w v zero r hr hw e ne = ground arith
  window-update a size w v (suc n) r hr hw e ne = ground (
    arith,
    next_lem size r hr,
    next_lem size w hw,
    window-update a size w v n ((r + 1) % size) (next-lt size r hr) hw,
  )

module _ {ℓ} {A : Type ℓ} where
  pub update_at : (a : ℕ → A) (i j : ℕ) (v : A) → i ≡ j → update a i v j ≡ v
  update_at a i j v e = rw (==-true i j e) refl

  pub update_ne : (a : ℕ → A) (i j : ℕ) (v : A) → i ≢ j → update a i v j ≡ a j
  update_ne a i j v n = rw (==-false i j n) refl
