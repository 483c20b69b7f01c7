-- ===== src/Vfs/Paths/Dots.antt =====
-- Where a path leads: components, "." and "..".
use bored_os.Base.{
  ℕ, ◌+◌, ◌-◌, ◌≤◌, ◌<◌, ◌≡◌, ◌≢◌, refl, sym, ap, ◌∙◌, true, List, [], ◌∷◌, ◌++◌, reverse, length,
  take, ◌==◌, ◌&&◌, arith, Bool-cases, inl, inr, ◌⊎◌,
}
use bored_os.Kutils.{IsText, strlen}
use bored_os.Kutils.Compare.{strncmp_iff, strlen-eq-length}
use bored_os.Vfs.Paths.{
  slash, max_path, byte_at, path_is_parent, end_with_slash, back_to_slash, parent_dir, child_dir,
  to_copy,
}
use bored_os.Vfs.Paths.Clean.{IsClean, NoSlash, take_short}
use mathlib.Core.List.{reverse-cons}

back_over : (xs out : List ℕ) → NoSlash xs → back_to_slash (xs ++ slash ∷ out) ≡ slash ∷ out
unfolding back_to_slash
back_over [] [] n = refl
back_over [] (d ∷ out) n = refl
back_over (x ∷ []) out n = ground (arith, back_over [] out tt)
back_over (x ∷ y ∷ xs) out n = ground (arith, back_over (y ∷ xs) out n.1)

NoSlash-append : (xs ys : List ℕ) → NoSlash xs → NoSlash ys → NoSlash (xs ++ ys)
NoSlash-append [] ys a b = b
NoSlash-append (x ∷ xs) ys a b = (a.0, NoSlash-append xs ys a.1 b)

reverse-NoSlash : (xs : List ℕ) → NoSlash xs → NoSlash (reverse xs)
reverse-NoSlash [] a = tt
reverse-NoSlash (x ∷ xs) a =
    rw reverse-cons (NoSlash-append (reverse xs) (x ∷ []) (reverse-NoSlash xs a.1) (a.0, tt))

parent_over :
    (xs out : List ℕ) → NoSlash xs → xs ≢ [] → parent_dir (xs ++ slash ∷ out) ≡ slash ∷ out
unfolding parent_dir
parent_over [] out n ne = absurd (ne refl)
parent_over (x ∷ []) out n ne = ground (arith, back_over (x ∷ []) out n)
parent_over (x ∷ y ∷ xs) out n ne = ground (arith, back_over (x ∷ y ∷ xs) out n)

ends_with_slash :
    (out : List ℕ)
    → IsClean out
    → length out < max_path - 1
    → (o : List ℕ) × (end_with_slash out ≡ slash ∷ o)
unfolding end_with_slash
ends_with_slash [] h lt = absurd h.rooted
ends_with_slash (c ∷ out) h lt = elim (Bool-cases (c == slash)) [
  | inl e ↦ (out, rw e (ground arith))
  | inr e ↦ (c ∷ out, rw e (ground arith))
]

snoc-ne_nil : (xs : List ℕ) (x : ℕ) → xs ++ x ∷ [] ≢ []
snoc-ne_nil [] x e = cc
snoc-ne_nil (y ∷ xs) x e = cc

reverse-ne_nil : (xs : List ℕ) → xs ≢ [] → reverse xs ≢ []
reverse-ne_nil [] ne e = ne refl
reverse-ne_nil (x ∷ xs) ne e = snoc-ne_nil (reverse xs) x (sym (reverse-cons x xs) ∙ e)

length-end_with_slash : (out : List ℕ) → length (end_with_slash out) ≤ length out + 1
unfolding end_with_slash
length-end_with_slash [] = omega arith
length-end_with_slash (c ∷ out) = ground arith

child_dir_whole :
    (out comp : List ℕ)
    → length out + length comp + 1 < max_path
    → child_dir out comp ≡ reverse comp ++ end_with_slash out
unfolding child_dir to_copy
child_dir_whole out comp fits =
    ground (arith, length-end_with_slash out, take_short (length comp) comp (omega arith))

-- Entering a component and then ".." leads back: on a clean buffer, and for a component that fits,
-- what is left is the buffer, ending with a slash.
pub parent_dir-child_dir :
    (out comp : List ℕ)
    → IsClean out
    → NoSlash comp
    → comp ≢ []
    → length out + length comp + 1 < max_path
    → parent_dir (child_dir out comp) ≡ end_with_slash out
parent_dir-child_dir out comp h n ne fits =
    let (o, e) = ends_with_slash out h (omega arith) in
    rw (child_dir_whole out comp fits, e)
      (parent_over (reverse comp) o (reverse-NoSlash comp n) (reverse-ne_nil comp ne))

byte_at-append : (xs ys : List ℕ) → byte_at (xs ++ ys) (length xs) ≡ byte_at ys 0
byte_at-append [] ys = refl
byte_at-append (x ∷ xs) ys = byte_at-append xs ys

take-append : (xs ys : List ℕ) → take (length xs) (xs ++ ys) ≡ xs
take-append [] ys = refl
take-append (x ∷ xs) ys = ap (λ l. x ∷ l) (take-append xs ys)

take_prefix :
    (xs ys : List ℕ)
    → take (length xs) xs ≡ take (length xs) ys
    → (rest : List ℕ) × (ys ≡ xs ++ rest)
take_prefix [] ys e = (ys, refl)
take_prefix (x ∷ xs) [] e = cc
take_prefix (x ∷ xs) (y ∷ ys) e = let (rest, p) = take_prefix xs ys (cc) in (rest, cc)

-- What follows the parent in a path below it.
abbrev pub Below : List ℕ → List ℕ → Type 0
Below parent rest = (byte_at rest 0 ≡ 0) ⊎ ((byte_at rest 0 ≡ slash) ⊎ (parent ≡ slash ∷ []))

root_only :
    (parent : List ℕ)
    → (length parent == 1 && byte_at parent 0 == slash) ≡ true
    → parent ≡ slash ∷ []
root_only [] e = ground arith
root_only (c ∷ []) e = ground arith
root_only (c ∷ d ∷ p) e = ground arith

is_parent_test :
    (parent rest : List ℕ)
    → path_is_parent parent (parent ++ rest) ≡ true
    → IsText parent
    → IsText (parent ++ rest)
    → Below parent rest
unfolding path_is_parent
is_parent_test parent rest e a b =
    ground (arith, strlen-eq-length parent, byte_at-append parent rest, root_only parent)

-- If `vfs_path_is_parent` says so of two strings, the child is the parent followed by nothing, or
-- by a slash, or by anything where the parent is "/".
pub path_is_parent_lem :
    (parent child : List ℕ)
    → IsText parent
    → IsText child
    → path_is_parent parent child ≡ true
    → (rest : List ℕ) × (child ≡ parent ++ rest) × Below parent rest
unfolding path_is_parent
path_is_parent_lem parent child a b e =
    let same : take (strlen parent) parent ≡ take (strlen parent) child =
      (strncmp_iff parent child (strlen parent) a b).0 (ground arith) in
    let (rest, p) = take_prefix parent child (rw (strlen-eq-length parent) at same) in
    (rest, p, is_parent_test parent rest (rw p at e) a (rw p at b))
