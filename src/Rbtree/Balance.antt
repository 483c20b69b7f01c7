-- ===== src/Rbtree/Balance.antt =====
-- Insertion into a red-black tree keeps it red-black, and follows no NULL.
use bored_os.Base.{
  ℕ, zero, suc, ◌≡◌, refl, sym, ap, ◌∙◌, true, false, some, List, [], ◌∷◌, ◌++◌, append-nil,
  Bool-cases, inl, inr,
}
use bored_os.Rbtree.{
  red, black, Tree, leaf, node, Side, left, right, Above, above, to_list, is_red, blacken, plug,
  rotate, join, insert_fixup,
}
use bored_os.Rbtree.Order.{
  before, after, to_list-blacken, to_list-plug, to_list-rotate, recolour_list, two_above,
}

module _ {A : Type 0} where
  -- Every way down passes `n` black nodes, and no red node has a red child.
  abbrev pub IsBalanced : ℕ → Tree A → Type 0
  IsBalanced n leaf = n ≡ 0
  IsBalanced n (node red l x r) =
      (is_red l ≡ false) × (is_red r ≡ false) × IsBalanced n l × IsBalanced n r
  IsBalanced zero (node black l x r) = ⊥
  IsBalanced (suc n) (node black l x r) = IsBalanced n l × IsBalanced n r

  -- The node above a place is there, and black.
  abbrev pub IsBlackAbove : List (Above A) → Type 0
  IsBlackAbove [] = ⊥
  IsBlackAbove (above s black x other ∷ path) = Unit {0}
  IsBlackAbove (above s red x other ∷ path) = ⊥

  -- With a tree of `n` black nodes and a black root at the place, all is a balanced tree.
  abbrev pub IsBalancedAbove : ℕ → List (Above A) → Type 0
  IsBalancedAbove n [] = Unit {0}
  IsBalancedAbove n (above s black x other ∷ path) =
      IsBalanced n other × IsBalancedAbove (suc n) path
  IsBalancedAbove n (above s red x other ∷ path) =
      IsBalanced n other × (is_red other ≡ false) × IsBlackAbove path × IsBalancedAbove n path

  -- A red-black tree.
  pub record IsRedBlack (t : Tree A) : Type 0 where
    pub height : ℕ
    pub balanced : IsBalanced height t
    pub root : is_red t ≡ false

  -- What may stand at a place: a red root only below a black node or at the top.
  abbrev pub Suits : Tree A → List (Above A) → Type 0
  Suits t [] = Unit {0}
  Suits t (above s black x other ∷ path) = Unit {0}
  Suits t (above s red x other ∷ path) = is_red t ≡ false

  pub blacken-IsRedBlack : (n : ℕ) (t : Tree A) → IsBalanced n t → IsRedBlack (blacken t)
  blacken-IsRedBlack n leaf h = record { height = n; balanced = h; root = refl }
  blacken-IsRedBlack n (node red l x r) h = record {
    height = suc n;
    balanced = (h.2, h.3);
    root = refl;
  }
  blacken-IsRedBlack zero (node black l x r) h = absurd h
  blacken-IsRedBlack (suc n) (node black l x r) h = record {
    height = suc n;
    balanced = h;
    root = refl;
  }

  pub black-Suits : (path : List (Above A)) (t : Tree A) → is_red t ≡ false → Suits t path
  black-Suits [] t e = tt
  black-Suits (above s black x other ∷ path) t e = tt
  black-Suits (above s red x other ∷ path) t e = e

  pub above-Suits : (path : List (Above A)) (t : Tree A) → IsBlackAbove path → Suits t path
  above-Suits [] t e = tt
  above-Suits (above s black x other ∷ path) t e = tt
  above-Suits (above s red x other ∷ path) t e = absurd e

  -- A tree that suits its place makes a red-black tree of the whole.
  pub plug-IsRedBlack :
      (path : List (Above A)) (n : ℕ) (t : Tree A)
      → IsBalanced n t
      → Suits t path
      → IsBalancedAbove n path
      → IsRedBlack (blacken (plug t path))
  unfolding plug
  plug-IsRedBlack [] n t h s p = blacken-IsRedBlack n t h
  plug-IsRedBlack (above left black x other ∷ path) n t h s p =
      plug-IsRedBlack path (suc n) (node black t x other) (h, p.0)
        (black-Suits path (node black t x other) refl) p.1
  plug-IsRedBlack (above right black x other ∷ path) n t h s p =
      plug-IsRedBlack path (suc n) (node black other x t) (p.0, h)
        (black-Suits path (node black other x t) refl) p.1
  plug-IsRedBlack (above left red x other ∷ path) n t h s p =
      plug-IsRedBlack path n (node red t x other) (s, p.1, h, p.0)
        (above-Suits path (node red t x other) p.2) p.3
  plug-IsRedBlack (above right red x other ∷ path) n t h s p =
      plug-IsRedBlack path n (node red other x t) (p.1, s, p.0, h)
        (above-Suits path (node red other x t) p.2) p.3

  -- The rotations under a grandparent that was black make a balanced tree with a black root.
  rotate-IsBalanced :
      (n : ℕ) (t : Tree A) (s : Side) (p : A) (sibling : Tree A) (s' : Side) (g : A)
      (uncle : Tree A)
      → is_red t ≡ true
      → IsBalanced n t
      → IsBalanced n sibling
      → is_red sibling ≡ false
      → IsBalanced n uncle
      → is_red uncle ≡ false
      → (u : Tree A) × (rotate t s p sibling s' g uncle ≡ some u)
        × IsBalanced (suc n) u
        × (is_red u ≡ false)
  unfolding rotate
  rotate-IsBalanced n leaf s p sibling s' g uncle e h a b c d = absurd (cc)
  rotate-IsBalanced n (node black l x r) s p sibling s' g uncle e h a b c d = absurd (cc)
  rotate-IsBalanced n (node red l x r) left p sibling left g uncle e h a b c d =
      (node black (node red l x r) p (node red sibling g uncle), refl, (h, (b, d, a, c)), refl)
  rotate-IsBalanced n (node red l x r) right p sibling left g uncle e h a b c d = (
    node black (node red sibling p l) x (node red r g uncle),
    refl,
    ((b, h.0, a, h.2), (h.1, d, h.3, c)),
    refl,
  )
  rotate-IsBalanced n (node red l x r) right p sibling right g uncle e h a b c d =
      (node black (node red uncle g sibling) p (node red l x r), refl, ((d, b, c, a), h), refl)
  rotate-IsBalanced n (node red l x r) left p sibling right g uncle e h a b c d = (
    node black (node red uncle g l) x (node red r p sibling),
    refl,
    ((d, h.0, c, h.2), (h.1, b, h.3, a)),
    refl,
  )

  -- A red root whose tree is balanced becomes black.
  pub blacken-IsBalanced :
      (n : ℕ) (t : Tree A) → is_red t ≡ true → IsBalanced n t → IsBalanced (suc n) (blacken t)
  blacken-IsBalanced n leaf e h = absurd (cc)
  blacken-IsBalanced n (node black l x r) e h = absurd (cc)
  blacken-IsBalanced n (node red l x r) e h = (h.2, h.3)

  black_root : (u : Tree A) → is_red (blacken u) ≡ false
  black_root leaf = refl
  black_root (node c l x r) = refl

  -- The recoloured grandparent.
  recolour-IsBalanced :
      (n : ℕ) (s s' : Side) (t : Tree A) (p : A) (sibling : Tree A) (g : A) (uncle : Tree A)
      → IsBalanced n t
      → IsBalanced n sibling
      → is_red uncle ≡ true
      → IsBalanced n uncle
      → IsBalanced (suc n) (join s' red g (blacken uncle) (join s black p sibling t))
  recolour-IsBalanced n left left t p sibling g uncle h a e c =
      (refl, black_root uncle, (h, a), blacken-IsBalanced n uncle e c)
  recolour-IsBalanced n right left t p sibling g uncle h a e c =
      (refl, black_root uncle, (a, h), blacken-IsBalanced n uncle e c)
  recolour-IsBalanced n left right t p sibling g uncle h a e c =
      (black_root uncle, refl, blacken-IsBalanced n uncle e c, (h, a))
  recolour-IsBalanced n right right t p sibling g uncle h a e c =
      (black_root uncle, refl, blacken-IsBalanced n uncle e c, (a, h))

  red_join : (s : Side) (x : A) (other t : Tree A) → is_red (join s red x other t) ≡ true
  red_join left x other t = refl
  red_join right x other t = refl

  -- `rb_insert_augmented` of a red node with a balanced tree, at a place that is balanced above,
  -- follows no NULL, makes a red-black tree and keeps the order.
  pub insert_fixup_lem :
      (t : Tree A) (path : List (Above A)) (n : ℕ)
      → is_red t ≡ true
      → IsBalanced n t
      → IsBalancedAbove n path
      → (u : Tree A) × (insert_fixup t path ≡ some u)
        × IsRedBlack u
        × (to_list u ≡ before path ++ (to_list t ++ after path))
  unfolding insert_fixup
  insert_fixup_lem t [] n e h p =
      (blacken t, refl, blacken-IsRedBlack n t h, to_list-blacken t ∙ sym (append-nil (to_list t)))
  insert_fixup_lem t (above s black x other ∷ path) n e h p =
      let whole = plug t (above s black x other ∷ path) in
      (
        blacken whole,
        refl,
        plug-IsRedBlack (above s black x other ∷ path) n t h tt p,
        to_list-blacken whole ∙ to_list-plug (above s black x other ∷ path) t,
      )
  insert_fixup_lem t (above s red x other ∷ []) n e h p = absurd p.2
  insert_fixup_lem t (above s red x other ∷ (above s' red g uncle ∷ path)) n e h p = absurd p.2
  insert_fixup_lem t (above s red x other ∷ (above s' black g uncle ∷ path)) n e h p =
      elim (Bool-cases (is_red uncle)) [
        | inl q ↦
            let top = join s' red g (blacken uncle) (join s black x other t) in
            let (u, f, v, l) =
              insert_fixup_lem top path (suc n)
                (red_join s' g (blacken uncle) (join s black x other t))
                (recolour-IsBalanced n s s' t x other g uncle h p.0 q p.3.0) p.3.1 in
            (
              u,
              rw q f,
              v,
              l
                  ∙ ap (λ ys. before path ++ (ys ++ after path))
                      (recolour_list s s' x g other uncle t)
                  ∙ sym (two_above s s' red black x g other uncle t path),
            )
        | inr q ↦
            let (u, f, v, b) = rotate-IsBalanced n t s x other s' g uncle e h p.0 p.1 p.3.0 q in
            (
              blacken (plug u path),
              rw (q, f) refl,
              plug-IsRedBlack path (suc n) u v (black-Suits path u b) p.3.1,
              to_list-blacken (plug u path)
                  ∙ to_list-plug path u
                  ∙ ap (λ ys. before path ++ (ys ++ after path))
                      (to_list-rotate t s x other s' g uncle u f)
                  ∙ sym (two_above s s' red black x g other uncle t path),
            )
      ]
