-- ===== src/Rbtree/Erase/Fixup.antt =====
-- `rb_erase_fixup` makes a red-black tree again.
use mathlib.Core.Path.{subst}
use bored_os.Base.{
  ℕ, suc, ◌≡◌, refl, ap, ◌∙◌, true, false, Option, some, List, [], ◌∷◌, ◌++◌, append_assoc,
  Bool-cases, inl, inr, arith,
}
use bored_os.Rbtree.{
  Color, red, black, Tree, leaf, node, Side, left, right, Above, above, to_list, is_red, blacken,
  plug, join,
}
use bored_os.Rbtree.Order.{before, after, to_list-blacken, to_list-plug}
use bored_os.Rbtree.Balance.{
  IsBalanced, IsBlackAbove, IsBalancedAbove, IsRedBlack, Suits, black-Suits, above-Suits,
  plug-IsRedBlack, blacken-IsBalanced,
}
use bored_os.Rbtree.Erase.{near, far, rotate_near, balance}

module _ {A : Type 0} where
  -- A red-black tree of the entries comes of it.
  abbrev pub IsMade : List A → Option (Tree A) → Type 0
  IsMade xs o = (u : Tree A) × (o ≡ some u) × IsRedBlack u × (to_list u ≡ xs)

  -- The tree below a node above a place.
  pub one_above :
      (s : Side) (c : Color) (x : A) (other t : Tree A) (path : List (Above A))
      → before path ++ (to_list (join s c x other t) ++ after path)
        ≡ before (above s c x other ∷ path) ++ (to_list t ++ after (above s c x other ∷ path))
  unfolding to_list
  one_above left c x other t path = simp append_assoc
  one_above right c x other t path = simp append_assoc

  -- A whole tree whose top is not a red one's place.
  abbrev IsTop : Tree A → List (Above A) → Type 0
  IsTop t [] = is_red t ≡ false
  IsTop t (a ∷ path) = Unit {0}

  IsTop-below : (path : List (Above A)) (t : Tree A) → IsBlackAbove path → IsTop t path
  IsTop-below [] t h = absurd h
  IsTop-below (a ∷ path) t h = tt

  IsTop-black : (path : List (Above A)) (t : Tree A) → is_red t ≡ false → IsTop t path
  IsTop-black [] t h = h
  IsTop-black (a ∷ path) t h = tt

  plug_black :
      (path : List (Above A)) (n : ℕ) (t : Tree A)
      → IsBalancedAbove n path
      → IsTop t path
      → blacken (plug t path) ≡ plug t path
  unfolding plug
  plug_black [] n leaf p h = refl
  plug_black [] n (node black l x r) p h = refl
  plug_black [] n (node red l x r) p h = absurd (cc)
  plug_black (above left black x other ∷ path) n t p h =
      plug_black path (suc n) (node black t x other) p.1
        (IsTop-black path (node black t x other) refl)
  plug_black (above right black x other ∷ path) n t p h =
      plug_black path (suc n) (node black other x t) p.1
        (IsTop-black path (node black other x t) refl)
  plug_black (above left red x other ∷ path) n t p h =
      plug_black path n (node red t x other) p.3 (IsTop-below path (node red t x other) p.2)
  plug_black (above right red x other ∷ path) n t p h =
      plug_black path n (node red other x t) p.3 (IsTop-below path (node red other x t) p.2)

  -- A balanced tree in its place, with the root blackened or not.
  blacken-IsMade :
      (n : ℕ) (t : Tree A) (path : List (Above A)) (xs : List A)
      → IsBalanced n t
      → Suits t path
      → IsBalancedAbove n path
      → before path ++ (to_list t ++ after path) ≡ xs
      → IsMade xs (some (blacken (plug t path)))
  blacken-IsMade n t path xs h s p e = (
    blacken (plug t path),
    refl,
    plug-IsRedBlack path n t h s p,
    to_list-blacken (plug t path) ∙ to_list-plug path t ∙ e,
  )

  pub plug-IsMade :
      (n : ℕ) (t : Tree A) (path : List (Above A)) (xs : List A)
      → IsBalanced n t
      → is_red t ≡ false
      → IsBalancedAbove n path
      → before path ++ (to_list t ++ after path) ≡ xs
      → IsMade xs (some (plug t path))
  plug-IsMade n t path xs h b p e =
      subst (λ u. IsMade xs (some u)) (plug_black path n t p (IsTop-black path t b))
        (blacken-IsMade n t path xs h (black-Suits path t b) p e)

  pub near-IsBalanced :
      (n : ℕ) (s : Side) (l r : Tree A)
      → IsBalanced n l
      → IsBalanced n r
      → IsBalanced n (near s l r)
  near-IsBalanced n left l r h k = h
  near-IsBalanced n right l r h k = k

  pub far-IsBalanced :
      (n : ℕ) (s : Side) (l r : Tree A) → IsBalanced n l → IsBalanced n r → IsBalanced n (far s l r)
  far-IsBalanced n left l r h k = k
  far-IsBalanced n right l r h k = h

  pub join-IsBalanced :
      (n : ℕ) (s : Side) (x : A) (a b : Tree A)
      → IsBalanced n a
      → IsBalanced n b
      → IsBalanced (suc n) (join s black x a b)
  join-IsBalanced n left x a b h k = (k, h)
  join-IsBalanced n right x a b h k = (h, k)

  pub join_black : (s : Side) (x : A) (a b : Tree A) → is_red (join s black x a b) ≡ false
  join_black left x a b = refl
  join_black right x a b = refl

  -- What a tree of two children more in height makes in place of a parent.
  parent-IsMade :
      (n : ℕ) (s : Side) (c : Color) (z : A) (a b : Tree A) (path : List (Above A)) (x : A)
      (sibling : Tree A) (xs : List A)
      → IsBalanced (suc n) a
      → is_red a ≡ false
      → IsBalanced (suc n) b
      → is_red b ≡ false
      → IsBalancedAbove (suc n) (above s c x sibling ∷ path)
      → before path ++ (to_list (join s c z a b) ++ after path) ≡ xs
      → IsMade xs (some (blacken (plug (join s c z a b) path)))
  parent-IsMade n left black z a b path x sibling xs h i k j p e =
      blacken-IsMade (suc (suc n)) (node black b z a) path xs (k, h)
        (black-Suits path (node black b z a) refl) p.1 e
  parent-IsMade n right black z a b path x sibling xs h i k j p e =
      blacken-IsMade (suc (suc n)) (node black a z b) path xs (h, k)
        (black-Suits path (node black a z b) refl) p.1 e
  parent-IsMade n left red z a b path x sibling xs h i k j p e =
      blacken-IsMade (suc n) (node red b z a) path xs (j, i, k, h)
        (above-Suits path (node red b z a) p.2) p.3 e
  parent-IsMade n right red z a b path x sibling xs h i k j p e =
      blacken-IsMade (suc n) (node red a z b) path xs (i, j, h, k)
        (above-Suits path (node red a z b) p.2) p.3 e

  far_list :
      (s : Side) (c sc : Color) (x z : A) (a o t : Tree A)
      → to_list (join s c z (blacken o) (join s black x a t))
        ≡ to_list (join s c x (join s sc z o a) t)
  unfolding to_list
  far_list left c sc x z a o t = simp (append_assoc, to_list-blacken)
  far_list right c sc x z a o t = simp (append_assoc, to_list-blacken)

  near_list :
      (s : Side) (c sc nc : Color) (x z y : A) (l r o t : Tree A)
      → to_list (join s c y (join s black z o (far s l r)) (join s black x (near s l r) t))
        ≡ to_list (join s c x (join s sc z o (node nc l y r)) t)
  unfolding to_list
  near_list left c sc nc x z y l r o t = simp append_assoc
  near_list right c sc nc x z y l r o t = simp append_assoc

  pub same_place :
      (path : List (Above A)) (t t' : Tree A) (xs : List A)
      → to_list t ≡ to_list t'
      → before path ++ (to_list t' ++ after path) ≡ xs
      → before path ++ (to_list t ++ after path) ≡ xs
  same_place path t t' xs h e = ap (λ ys. before path ++ (ys ++ after path)) h ∙ e

  rotate_near-IsMade :
      (n : ℕ) (s : Side) (c sc : Color) (x z : A) (a o t sibling : Tree A) (path : List (Above A))
      (xs : List A)
      → is_red a ≡ true
      → IsBalanced n t
      → IsBalanced n a
      → IsBalanced n o
      → IsBalancedAbove (suc n) (above s c x sibling ∷ path)
      → before path ++ (to_list (join s c x (join s sc z o a) t) ++ after path) ≡ xs
      → IsMade xs (rotate_near s c x z a o t path)
  unfolding rotate_near
  rotate_near-IsMade n s c sc x z leaf o t sibling path xs q h k j p e = absurd (cc)
  rotate_near-IsMade n s c sc x z (node black l y r) o t sibling path xs q h k j p e = absurd (cc)
  rotate_near-IsMade n s c sc x z (node red l y r) o t sibling path xs q h k j p e =
      let low = join s black x (near s l r) t in
      let high = join s black z o (far s l r) in
      parent-IsMade n s c y high low path x sibling xs
        (join-IsBalanced n s z o (far s l r) j (far-IsBalanced n s l r k.2 k.3))
        (join_black s z o (far s l r))
        (join-IsBalanced n s x (near s l r) t (near-IsBalanced n s l r k.2 k.3) h)
        (join_black s x (near s l r) t) p
        (same_place path (join s c y high low) (join s c x (join s sc z o (node red l y r)) t) xs
          (near_list s c sc red x z y l r o t) e)

  pub blackened : (t : Tree A) → is_red (blacken t) ≡ false
  blackened leaf = refl
  blackened (node c l x r) = refl

  pub sibling_join :
      (s : Side) (sc : Color) (l r : Tree A) (z : A)
      → join s sc z (far s l r) (near s l r) ≡ node sc l z r
  sibling_join left sc l r z = refl
  sibling_join right sc l r z = refl

  -- A round with a black sibling.
  pub balance-IsMade :
      (n : ℕ) (s : Side) (c sc : Color) (x z : A) (l r t sibling : Tree A) (path : List (Above A))
      → (up : Option (Tree A)) (xs : List A) → IsBalanced n t
      → IsBalanced n l
      → IsBalanced n r
      → IsBalancedAbove (suc n) (above s c x sibling ∷ path)
      → before path ++ (to_list (join s c x (node sc l z r) t) ++ after path) ≡ xs
      → (is_red (near s l r) ≡ false → is_red (far s l r) ≡ false → IsMade xs up)
      → IsMade xs (balance s c x (node sc l z r) t path up)
  unfolding balance
  balance-IsMade n s c sc x z l r t sibling path up xs h k j p e u =
      let a = near s l r in
      let o = far s l r in
      let ha = near-IsBalanced n s l r k j in
      let ho = far-IsBalanced n s l r k j in
      let e' =
        same_place path (join s c x (join s sc z o a) t) (join s c x (node sc l z r) t) xs
          (ap (λ b. to_list (join s c x b t)) (sibling_join s sc l r z)) e in
      elim (Bool-cases (is_red o)) [
        | inl q ↦
            let low = join s black x a t in
            rw q (
              subst (IsMade xs) (ground arith) (
                parent-IsMade n s c z (blacken o) low path x sibling xs
                  (blacken-IsBalanced n o q ho) (blackened o) (join-IsBalanced n s x a t ha h)
                  (join_black s x a t) p
                  (same_place path (join s c z (blacken o) low) (join s c x (join s sc z o a) t) xs
                    (far_list s c sc x z a o t) e')))
        | inr q ↦ elim (Bool-cases (is_red a)) [
          | inl v ↦ rw (q, v) (rotate_near-IsMade n s c sc x z a o t sibling path xs v h ha ho p e')
          | inr v ↦ rw (q, v) (u v q)
        ]
      ]
