-- ===== src/Radix/Tags.antt =====
-- What `radix_tree_tag_get` sees after `radix_tree_tag_set`.
use bored_os.Base.{ℕ, zero, suc, ◌≡◌, ◌≢◌, refl, ap, ap₂, ◌∙◌, Bool, true, none, ℕ_discrete, ◌&&◌}
use bored_os.Base.Arrays.{update, update_at, update_ne}
use bored_os.Radix.{Tree, null, item, node, slot_at, lookup_below, tag_below, tagged_below}

-- Setting one bit of one tag.
bit_set :
    (tags : ℕ → ℕ → Bool) (tag i : ℕ) → update tags tag (update (tags tag) i true) tag i ≡ true
bit_set tags tag i =
    ap (λ f. f i) (update_at tags tag tag (update (tags tag) i true) refl)
    ∙ update_at (tags tag) i i true refl

-- Where the tree has an item, `radix_tree_tag_set` below a node sets the tag on the whole path to
-- it, so that `radix_tree_tag_get` finds it.
pub tagged-tag_below :
    (h : ℕ) (t : Tree) (i tag : ℕ)
    → lookup_below h t i ≢ none
    → tagged_below h (tag_below h t i tag) i tag ≡ true
unfolding tagged_below tag_below lookup_below
tagged-tag_below zero (node s c slots tags) i tag n = bit_set tags tag (slot_at 0 i)
tagged-tag_below (suc h) (node s c slots tags) i tag n =
    ap₂ ◌&&◌ (bit_set tags tag (slot_at (suc h) i)) (
      ap (λ q. tagged_below h q i tag) (update_at slots k k (tag_below h (slots k) i tag) refl)
      ∙ tagged-tag_below h (slots k) i tag n)
  where
    k : ℕ
    k = slot_at (suc h) i
tagged-tag_below zero null i tag n = absurd (n refl)
tagged-tag_below (suc h) null i tag n = absurd (n refl)
tagged-tag_below zero (item y) i tag n = absurd (n refl)
tagged-tag_below (suc h) (item y) i tag n = absurd (n refl)

-- Setting a tag below a node changes no lookup below it, at any height, tree, index and tag.
pub lookup-tag_below :
    (h : ℕ) (t : Tree) (i j tag : ℕ) → lookup_below h (tag_below h t i tag) j ≡ lookup_below h t j
unfolding tag_below lookup_below
lookup-tag_below zero (node s c slots tags) i j tag = refl
lookup-tag_below (suc h) (node s c slots tags) i j tag =
    elim (ℕ_discrete (slot_at (suc h) i) (slot_at (suc h) j)) [
      | yes e ↦
          ap (λ q. lookup_below h q j)
            (update_at slots (slot_at (suc h) i) (slot_at (suc h) j)
              (tag_below h (slots (slot_at (suc h) i)) i tag) e)
          ∙ (lookup-tag_below h (slots (slot_at (suc h) i)) i j tag
              ∙ ap (λ q. lookup_below h (slots q) j) e)
      | no ne ↦
          ap (λ q. lookup_below h q j)
            (update_ne slots (slot_at (suc h) i) (slot_at (suc h) j)
              (tag_below h (slots (slot_at (suc h) i)) i tag) ne)
    ]
lookup-tag_below zero null i j tag = refl
lookup-tag_below (suc h) null i j tag = refl
lookup-tag_below zero (item y) i j tag = refl
lookup-tag_below (suc h) (item y) i j tag = refl
