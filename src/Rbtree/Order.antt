-- ===== src/Rbtree/Order.antt =====
-- Insertion into a red-black tree keeps the entries in their order.
use bored_os.Base.{◌≡◌, refl, sym, ap, ◌∙◌, some, List, [], ◌∷◌, ◌++◌, append_assoc, append-nil}
use bored_os.Rbtree.{
  Color, red, black, Tree, leaf, node, Side, left, right, Above, above, to_list, blacken, plug,
  rotate, join,
}

pub some_inj : {A : Type 0} {x y : A} → some x ≡ some y → x ≡ y
some_inj e = cc

module _ {A : Type 0} where
  -- The entries before and after a place.
  abbrev pub before : List (Above A) → List A
  before [] = []
  before (above left c x other ∷ path) = before path
  before (above right c x other ∷ path) = before path ++ (to_list other ++ x ∷ [])

  abbrev pub after : List (Above A) → List A
  after [] = []
  after (above left c x other ∷ path) = x ∷ (to_list other ++ after path)
  after (above right c x other ∷ path) = after path

  pub to_list-blacken : (t : Tree A) → to_list (blacken t) ≡ to_list t
  unfolding to_list
  to_list-blacken leaf = refl
  to_list-blacken (node c l x r) = refl

  pub to_list-plug :
      (path : List (Above A)) (t : Tree A)
      → to_list (plug t path) ≡ before path ++ (to_list t ++ after path)
  unfolding plug to_list
  to_list-plug [] t = sym (append-nil (to_list t))
  to_list-plug (above left c x other ∷ path) t =
      to_list-plug path (node c t x other) ∙ simp append_assoc
  to_list-plug (above right c x other ∷ path) t =
      to_list-plug path (node c other x t) ∙ simp append_assoc

  -- The rotations keep the order below the grandparent.
  pub to_list-rotate :
      (t : Tree A) (s : Side) (p : A) (sibling : Tree A) (s' : Side) (g : A) (uncle u : Tree A)
      → rotate t s p sibling s' g uncle ≡ some u
      → to_list u ≡ to_list (join s' black g uncle (join s red p sibling t))
  unfolding rotate to_list
  to_list-rotate t left p sibling left g uncle u e =
      ap to_list (sym (some_inj e)) ∙ simp append_assoc
  to_list-rotate leaf right p sibling left g uncle u e = absurd (cc)
  to_list-rotate (node c l x r) right p sibling left g uncle u e =
      ap to_list (sym (some_inj e)) ∙ simp append_assoc
  to_list-rotate t right p sibling right g uncle u e =
      ap to_list (sym (some_inj e)) ∙ simp append_assoc
  to_list-rotate leaf left p sibling right g uncle u e = absurd (cc)
  to_list-rotate (node c l x r) left p sibling right g uncle u e =
      ap to_list (sym (some_inj e)) ∙ simp append_assoc

  -- Two nodes above a place are as good as one tree there.
  pub two_above :
      (s s' : Side) (c c' : Color) (p g : A) (sibling uncle t : Tree A) (path : List (Above A))
      → before (above s c p sibling ∷ (above s' c' g uncle ∷ path))
          ++ (to_list t ++ after (above s c p sibling ∷ (above s' c' g uncle ∷ path)))
        ≡ before path ++ (to_list (join s' c' g uncle (join s c p sibling t)) ++ after path)
  unfolding to_list
  two_above left left c c' p g sibling uncle t path = simp append_assoc
  two_above left right c c' p g sibling uncle t path = simp append_assoc
  two_above right left c c' p g sibling uncle t path = simp append_assoc
  two_above right right c c' p g sibling uncle t path = simp append_assoc

  -- Colours do not matter for the order.
  pub recolour_list :
      (s s' : Side) (p g : A) (sibling uncle t : Tree A)
      → to_list (join s' red g (blacken uncle) (join s black p sibling t))
        ≡ to_list (join s' black g uncle (join s red p sibling t))
  unfolding to_list
  recolour_list left left p g sibling uncle t = rw (to_list-blacken uncle) refl
  recolour_list left right p g sibling uncle t = rw (to_list-blacken uncle) refl
  recolour_list right left p g sibling uncle t = rw (to_list-blacken uncle) refl
  recolour_list right right p g sibling uncle t = rw (to_list-blacken uncle) refl
