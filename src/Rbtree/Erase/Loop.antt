-- ===== src/Rbtree/Erase/Loop.antt =====
-- `rb_erase_fixup` as a whole.
use mathlib.Core.Path.{subst}
use bored_os.Base.{
  ℕ, suc, ◌≡◌, refl, sym, ap, ◌∙◌, true, false, Option, some, List, [], ◌∷◌, ◌++◌, append_assoc,
  append-nil, Bool-cases, inl, inr, arith,
}
use bored_os.Rbtree.{
  Color, red, black, Tree, leaf, node, Side, left, right, Above, above, to_list, is_red, blacken,
  plug, join,
}
use bored_os.Rbtree.Order.{before, after, to_list-blacken}
use bored_os.Rbtree.Balance.{IsBalanced, IsBalancedAbove, blacken-IsRedBlack, blacken-IsBalanced}
use bored_os.Rbtree.Erase.{near, far, redden, balance, round, erase_fixup}
use bored_os.Rbtree.Erase.Fixup.{
  IsMade, one_above, plug-IsMade, near-IsBalanced, far-IsBalanced, join-IsBalanced, join_black,
  same_place, blackened, sibling_join, balance-IsMade,
}

module _ {A : Type 0} where
  children_black :
      (s : Side) (l r : Tree A)
      → is_red (near s l r) ≡ false
      → is_red (far s l r) ≡ false
      → (is_red l ≡ false) × (is_red r ≡ false)
  children_black left l r a b = (a, b)
  children_black right l r a b = (b, a)

  blacken-join : (s : Side) (x : A) (a b : Tree A) → join s black x a b ≡ blacken (join s red x a b)
  blacken-join left x a b = refl
  blacken-join right x a b = refl

  near_black :
      (s : Side) (l r : Tree A) → is_red l ≡ false → is_red r ≡ false → is_red (near s l r) ≡ false
  near_black left l r a b = a
  near_black right l r a b = b

  red_join : (s : Side) (x : A) (a b : Tree A) → is_red (join s red x a b) ≡ true
  red_join left x a b = refl
  red_join right x a b = refl

  -- Colours do not matter for the order.
  recolour_join :
      (s : Side) (c c' sc sc' : Color) (x y : A) (l r t : Tree A)
      → to_list (join s c x (node sc l y r) t) ≡ to_list (join s c' x (node sc' l y r) t)
  unfolding to_list
  recolour_join left c c' sc sc' x y l r t = refl
  recolour_join right c c' sc sc' x y l r t = refl

  -- The rotation that brings a red sibling up.
  rotate_list :
      (s : Side) (x z : A) (m o t : Tree A)
      → to_list (join s black z o (join s red x m t))
        ≡ to_list (join s black x (join s red z o m) t)
  unfolding to_list
  rotate_list left x z m o t = simp append_assoc
  rotate_list right x z m o t = simp append_assoc

  -- The tree of a parent that is blackened.
  parent_stop :
      (n : ℕ) (s : Side) (x y : A) (l r t : Tree A) (path : List (Above A)) (xs : List A)
      → IsBalanced n t
      → IsBalanced n l
      → IsBalanced n r
      → IsBalancedAbove (suc n) path
      → before path ++ (to_list (join s red x (node black l y r) t) ++ after path) ≡ xs
      → is_red (near s l r) ≡ false
      → is_red (far s l r) ≡ false
      → IsMade xs (some (plug (blacken (join s red x (node red l y r) t)) path))
  parent_stop n s x y l r t path xs h k j p e a b =
      let (f, g) = children_black s l r a b in
      let low = join s black x (node red l y r) t in
      subst (λ u. IsMade xs (some (plug u path))) (blacken-join s x (node red l y r) t)
        (plug-IsMade (suc n) low path xs (join-IsBalanced n s x (node red l y r) t (f, g, k, j) h)
          (join_black s x (node red l y r) t) p
          (same_place path low (join s red x (node black l y r) t) xs
            (recolour_join s black red red black x y l r t) e))

  -- A round with a red sibling.
  red_round-IsMade :
      (n : ℕ) (s : Side) (x z : A) (m o t : Tree A) (path : List (Above A)) (xs : List A)
      → IsBalanced n t
      → IsBalanced (suc n) m
      → is_red m ≡ false
      → IsBalanced (suc n) o
      → IsBalancedAbove (suc (suc n)) path
      → before path ++ (to_list (join s black x (join s red z o m) t) ++ after path) ≡ xs
      → IsMade xs (
          balance s red x m t
            (above s black z o ∷ path)
            (some (plug (blacken (join s red x (redden m) t)) (above s black z o ∷ path))))
  red_round-IsMade n s x z leaf o t path xs h k q j p e = absurd (omega (arith, k))
  red_round-IsMade n s x z (node red l y r) o t path xs h k q j p e = absurd (cc)
  red_round-IsMade n s x z (node black l y r) o t path xs h k q j p e =
      let m = node black l y r in
      let f =
        sym (one_above s black z o (join s red x m t) path)
        ∙ same_place path (join s black z o (join s red x m t))
            (join s black x (join s red z o m) t) xs (rotate_list s x z m o t) e in
      balance-IsMade n s red black x y l r t m (above s black z o ∷ path)
        (some (plug (blacken (join s red x (node red l y r) t)) (above s black z o ∷ path))) xs h
        k.0 k.1 (k, refl, tt, (j, p)) f
        (parent_stop n s x y l r t (above s black z o ∷ path) xs h k.0 k.1 (j, p) f)

  -- With a red node the loop ends.
  erase_fixup-red :
      (t : Tree A) (path : List (Above A))
      → is_red t ≡ true
      → some (plug (blacken t) path) ≡ erase_fixup t path
  unfolding erase_fixup plug
  erase_fixup-red t [] e = refl
  erase_fixup-red t (above s c x sibling ∷ path) e = rw e refl

  -- A round of the loop, with what is known of going on with the parent.
  round-IsMade :
      (n : ℕ) (s : Side) (c : Color) (x : A) (sibling t : Tree A) (path : List (Above A))
      → (up : Option (Tree A)) (xs : List A) → IsBalanced n t
      → IsBalancedAbove (suc n) (above s c x sibling ∷ path)
      → before path ++ (to_list (join s c x sibling t) ++ after path) ≡ xs
      → ((m : ℕ)
          → IsBalanced m (join s c x (redden sibling) t)
          → IsBalancedAbove (suc m) path
          → IsMade (before path ++ (to_list (join s c x (redden sibling) t) ++ after path)) up)
      → (is_red (join s c x (redden sibling) t) ≡ true
          → some (plug (blacken (join s c x (redden sibling) t)) path) ≡ up)
      → IsMade xs (round s c x sibling t path up)
  unfolding round
  round-IsMade n s black x leaf t path up xs h p e go stop = absurd (omega (arith, p.0))
  round-IsMade n s red x leaf t path up xs h p e go stop = absurd (omega (arith, p.0))
  round-IsMade n s red x (node red l z r) t path up xs h p e go stop = absurd (cc)
  round-IsMade n s black x (node red l z r) t path up xs h p e go stop =
      red_round-IsMade n s x z (near s l r) (far s l r) t path xs h
        (near-IsBalanced (suc n) s l r p.0.2 p.0.3) (near_black s l r p.0.0 p.0.1)
        (far-IsBalanced (suc n) s l r p.0.2 p.0.3) p.1
        (ap (λ b. before path ++ (to_list (join s black x b t) ++ after path))
            (sibling_join s red l r z)
          ∙ e)
  round-IsMade n s black x (node black l z r) t path up xs h p e go stop =
      balance-IsMade n s black black x z l r t (node black l z r) path up xs h p.0.0 p.0.1 p e
        (λ a b.
          let (f, g) = children_black s l r a b in
          let (u, v, w, k) =
            go (suc n) (join-IsBalanced n s x (node red l z r) t (f, g, p.0.0, p.0.1) h) p.1 in
          (
            u,
            v,
            w,
            k
                ∙ same_place path (join s black x (node red l z r) t)
                    (join s black x (node black l z r) t) xs
                    (recolour_join s black black red black x z l r t) e,
          ))
  round-IsMade n s red x (node black l z r) t path up xs h p e go stop =
      balance-IsMade n s red black x z l r t (node black l z r) path up xs h p.0.0 p.0.1 p e (λ a b.
        subst (IsMade xs) (stop (red_join s x (node red l z r) t))
          (parent_stop n s x z l r t path xs h p.0.0 p.0.1 p.3 e a b))

  -- `rb_erase_fixup` at a place where a black node is missing on the ways down, which is balanced
  -- above, follows no NULL, makes a red-black tree and keeps the order.
  pub erase_fixup-IsMade :
      (t : Tree A) (path : List (Above A)) (n : ℕ)
      → IsBalanced n t
      → IsBalancedAbove (suc n) path
      → IsMade (before path ++ (to_list t ++ after path)) (erase_fixup t path)
  unfolding erase_fixup
  erase_fixup-IsMade t [] n h p =
      (blacken t, refl, blacken-IsRedBlack n t h, to_list-blacken t ∙ sym (append-nil (to_list t)))
  erase_fixup-IsMade t (above s c x sibling ∷ path) n h p = elim (Bool-cases (is_red t)) [
    | inl q ↦ rw q (
        plug-IsMade (suc n) (blacken t) (above s c x sibling ∷ path)
          (before (above s c x sibling ∷ path) ++ (to_list t ++ after (above s c x sibling ∷ path)))
          (blacken-IsBalanced n t q h) (blackened t) p
          (ap
            (λ ys.
              before (above s c x sibling ∷ path) ++ (ys ++ after (above s c x sibling ∷ path)))
            (to_list-blacken t)))
    | inr q ↦ rw q (
        round-IsMade n s c x sibling t path (erase_fixup (join s c x (redden sibling) t) path)
          (before (above s c x sibling ∷ path) ++ (to_list t ++ after (above s c x sibling ∷ path)))
          h p (one_above s c x sibling t path)
          (erase_fixup-IsMade (join s c x (redden sibling) t) path)
          (erase_fixup-red (join s c x (redden sibling) t) path))
  ]
