-- ===== src/Rbtree/Below.antt =====
-- The way down in a red-black tree: what is known at a place is known at those below.
use bored_os.Base.{ℕ, zero, suc, ◌≡◌, false, List, ◌∷◌, inl, inr, ◌⊎◌}
use bored_os.Rbtree.{Color, red, black, Tree, node, left, right, Above, above, is_red}
use bored_os.Rbtree.Balance.{IsBalanced, IsBlackAbove, IsBalancedAbove}

module _ {A : Type 0} where
  -- A red root stands only below a black node.
  abbrev pub Fits : Tree A → List (Above A) → Type 0
  Fits t path = (is_red t ≡ false) ⊎ IsBlackAbove path

  pub IsBalanced-children :
      (n : ℕ) (c : Color) (l r : Tree A) (a : A) (path : List (Above A))
      → IsBalanced n (node c l a r)
      → IsBalancedAbove n path
      → Fits (node c l a r) path
      → (m : ℕ) × IsBalanced m l
        × IsBalanced m r
        × IsBalancedAbove m (above left c a r ∷ path)
        × IsBalancedAbove m (above right c a l ∷ path)
        × Fits l (above left c a r ∷ path)
        × Fits r (above right c a l ∷ path)
  IsBalanced-children n red l r a path h p (inl e) = absurd (cc)
  IsBalanced-children n red l r a path h p (inr e) =
      (n, h.2, h.3, (h.3, h.1, e, p), (h.2, h.0, e, p), inl h.0, inl h.1)
  IsBalanced-children zero black l r a path h p f = absurd h
  IsBalanced-children (suc n) black l r a path h p f =
      (n, h.0, h.1, (h.1, p), (h.0, p), inr tt, inr tt)
