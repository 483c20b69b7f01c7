-- ===== src/Vfs/Paths/Clean.antt =====
-- What every normalised path looks like.
use bored_os.Base.{
  ℕ, zero, suc, ◌-◌, ◌≤◌, ◌<◌, ◌≡◌, ◌≢◌, refl, ap, ◌∙◌, Option, none, some, List, [], ◌∷◌, ◌++◌,
  reverse, length, take, ◌==◌, arith, Bool-cases, inl, inr, length-append, length-take, append-cons,
  List-cases,
}
use mathlib.Core.List.{reverse-cons}
use bored_os.Vfs.Paths.{
  slash, max_path, byte_at, end_with_slash, start, skip_slashes, component, back_to_slash,
  parent_dir, to_copy, child_dir, enter, walk, finish, after_slash, normalize_text, normalize_path,
}

-- The buffer begins with '/' (its last element here) and has no two slashes in a row.
abbrev pub IsRooted : List ℕ → Type 0
IsRooted [] = ⊥
IsRooted (c ∷ []) = c ≡ slash
IsRooted (c ∷ d ∷ out) = ((c ≡ slash) → (d ≢ slash)) × IsRooted (d ∷ out)

-- It also leaves room for the final NUL.
pub record IsClean (out : List ℕ) : Type 0 where
  pub rooted : IsRooted out
  pub bounded : length out < max_path

-- No byte is a slash.
abbrev pub NoSlash : List ℕ → Type 0
NoSlash [] = Unit {0}
NoSlash (c ∷ cs) = (c ≢ slash) × NoSlash cs

end_with_slash-IsClean : (out : List ℕ) → IsClean out → IsClean (end_with_slash out)
unfolding end_with_slash
end_with_slash-IsClean [] h = h
end_with_slash-IsClean (c ∷ out) h = ground arith

back_to_slash-IsClean : (out : List ℕ) → IsClean out → IsClean (back_to_slash out)
unfolding back_to_slash
back_to_slash-IsClean [] h = h
back_to_slash-IsClean (c ∷ []) h = h
back_to_slash-IsClean (c ∷ d ∷ out) h =
    ground (
      arith,
      back_to_slash-IsClean (d ∷ out) (record { rooted = h.rooted.1; bounded = omega arith }),
    )

parent_dir-IsClean : (out : List ℕ) → IsClean out → IsClean (parent_dir out)
unfolding parent_dir
parent_dir-IsClean [] h = h
parent_dir-IsClean (c ∷ []) h = h
parent_dir-IsClean (c ∷ d ∷ out) h = ground (
  arith,
  back_to_slash-IsClean (d ∷ out) (record { rooted = h.rooted.1; bounded = omega arith }),
  back_to_slash-IsClean (c ∷ d ∷ out) h,
)

component-NoSlash : (p : List ℕ) → NoSlash (component p).0
unfolding component
component-NoSlash [] = tt
component-NoSlash (c ∷ p) = ground (arith, component-NoSlash p)

take-NoSlash : (n : ℕ) (p : List ℕ) → NoSlash p → NoSlash (take n p)
take-NoSlash zero p h = tt
take-NoSlash (suc n) [] h = tt
take-NoSlash (suc n) (c ∷ p) h = (h.0, take-NoSlash n p h.1)

cons-IsRooted : (c : ℕ) (out : List ℕ) → c ≢ slash → IsRooted out → IsRooted (c ∷ out)
cons-IsRooted c [] n h = absurd h
cons-IsRooted c (d ∷ out) n h = (λ e. absurd (n e), h)

-- Writing bytes that are no slashes keeps the buffer rooted.
push-IsRooted : (cs out : List ℕ) → NoSlash cs → IsRooted out → IsRooted (reverse cs ++ out)
push-IsRooted [] out n h = h
push-IsRooted (c ∷ cs) out n h =
    rw (reverse-cons, append-cons) (push-IsRooted cs (c ∷ out) n.1 (cons-IsRooted c out n.0 h))

length-reverse : (xs : List ℕ) → length (reverse xs) ≡ length xs
length-reverse [] = refl
length-reverse (x ∷ xs) =
    rw (reverse-cons) (omega (arith, length-append (reverse xs) (x ∷ []), length-reverse xs))

child_dir-IsClean : (out comp : List ℕ) → NoSlash comp → IsClean out → IsClean (child_dir out comp)
unfolding child_dir to_copy
child_dir-IsClean out comp n h =
    let base = end_with_slash-IsClean out h in
    let copied = take (to_copy (end_with_slash out) comp) comp in
    record {
      rooted = push-IsRooted copied (end_with_slash out) (take-NoSlash _ comp n) base.rooted;
      bounded = ground (
        arith,
        base.bounded,
        length-append (reverse copied) (end_with_slash out),
        length-reverse copied,
        length-take (to_copy (end_with_slash out) comp) comp,
      );
    }

enter-IsClean : (out comp : List ℕ) → NoSlash comp → IsClean out → IsClean (enter out comp)
unfolding enter
enter-IsClean out comp n h =
    ground (arith, parent_dir-IsClean out h, child_dir-IsClean out comp n h)

skip_slashes-length : (p : List ℕ) → length (skip_slashes p) ≤ length p
unfolding skip_slashes
skip_slashes-length [] = omega arith
skip_slashes-length (c ∷ p) = ground (arith, skip_slashes-length p)

skip_slashes_head : (p : List ℕ) (c : ℕ) (cs : List ℕ) → skip_slashes p ≡ c ∷ cs → c ≢ slash
unfolding skip_slashes
skip_slashes_head [] c cs e = cc
skip_slashes_head (x ∷ p) c cs e = ground (arith, skip_slashes_head p c cs)

component-length : (p : List ℕ) → length (component p).1 ≤ length p
unfolding component
component-length [] = omega arith
component-length (c ∷ p) = ground (arith, component-length p)

component_shorter :
    (c : ℕ) (cs : List ℕ) → c ≢ slash → length (component (c ∷ cs)).1 < length (c ∷ cs)
unfolding component
component_shorter c cs n = ground (arith, component-length cs)

walk_end : (f : ℕ) (p out : List ℕ) → skip_slashes p ≡ [] → walk (suc f) p out ≡ some out
unfolding walk
walk_end f p out s = ground arith

walk_next :
    (f : ℕ) (p out : List ℕ) (c : ℕ) (cs : List ℕ)
    → skip_slashes p ≡ c ∷ cs
    → let (comp, rest) = component (skip_slashes p) in
      walk (suc f) p out ≡ walk f rest (enter out comp)
unfolding walk
walk_next f p out c cs s = ground arith

rest_shorter :
    (p : List ℕ) (c : ℕ) (cs : List ℕ)
    → skip_slashes p ≡ c ∷ cs
    → length (component (skip_slashes p)).1 < length p
rest_shorter p c cs s = rw s (
    omega (
      arith,
      component_shorter c cs (skip_slashes_head p c cs s),
      skip_slashes-length p,
      ap length s,
    ))

-- The walk ends when its fuel exceeds the length of the path, and keeps the buffer clean.
walk_lem :
    (f : ℕ) (p out : List ℕ)
    → IsClean out
    → length p < f
    → (r : List ℕ) × (walk f p out ≡ some r) × IsClean r
walk_lem zero p out h lt = absurd (omega arith)
walk_lem (suc f) p out h lt = elim (List-cases (skip_slashes p)) [
  | inl s ↦ (out, walk_end f p out s, h)
  | inr (c, cs, s) ↦
      let (comp, rest) = component (skip_slashes p) in
      let (r, e, clean) =
        walk_lem f rest (enter out comp)
          (enter-IsClean out comp (component-NoSlash (skip_slashes p)) h)
          (omega (arith, rest_shorter p c cs s)) in
      (r, walk_next f p out c cs s ∙ e, clean)
]

-- A working directory that is absolute, has no two slashes in a row and fits the buffer.
abbrev pub IsDirectory : Option (List ℕ) → Type 0
IsDirectory none = Unit {0}
IsDirectory (some dir) = IsClean (reverse dir)

pub take_short : (n : ℕ) (xs : List ℕ) → length xs ≤ n → take n xs ≡ xs
take_short zero [] h = refl
take_short zero (x ∷ xs) h = absurd (omega arith)
take_short (suc n) [] h = refl
take_short (suc n) (x ∷ xs) h = ap (λ l. x ∷ l) (take_short n xs (omega arith))

root-IsClean : IsClean (slash ∷ [])
root-IsClean = record { rooted = refl; bounded = omega arith }

start-IsClean : (cwd : Option (List ℕ)) (path : List ℕ) → IsDirectory cwd → IsClean (start cwd path)
unfolding start
start-IsClean none path h = ground (arith, root-IsClean)
start-IsClean (some dir) path h =
    let whole = take_short (max_path - 1) dir (omega (arith, h.bounded, length-reverse dir)) in
    elim (Bool-cases (byte_at path 0 == slash)) [
      | inl e ↦ rw e root-IsClean
      | inr e ↦
          rw (e, whole)
            (elim (Bool-cases (byte_at dir 0 == slash)) [
              | inl a ↦ rw a (end_with_slash-IsClean (reverse dir) h)
              | inr a ↦ rw a root-IsClean
            ])
    ]

finish-IsClean : (out : List ℕ) → IsClean out → IsClean (finish out)
unfolding finish
finish-IsClean [] h = absurd h.rooted
finish-IsClean (c ∷ []) h = h
finish-IsClean (c ∷ d ∷ out) h = ground arith

-- Only the root ends with a slash.
abbrev pub NoTrailingSlash : List ℕ → Type 0
NoTrailingSlash (c ∷ d ∷ out) = c ≢ slash
NoTrailingSlash _ = Unit {0}

finish-NoTrailingSlash : (out : List ℕ) → IsClean out → NoTrailingSlash (finish out)
unfolding finish
finish-NoTrailingSlash [] h = tt
finish-NoTrailingSlash (c ∷ []) h = tt
finish-NoTrailingSlash (c ∷ d ∷ []) h = elim (Bool-cases (c == slash)) [
  | inl e ↦ rw e tt
  | inr e ↦ rw e (ground arith)
]
finish-NoTrailingSlash (c ∷ d ∷ e ∷ out) h = elim (Bool-cases (c == slash)) [
  | inl t ↦ rw t (h.rooted.0 (ground arith))
  | inr t ↦ rw t (ground arith)
]

after_slash-length : (path : List ℕ) → length (after_slash path) ≤ length path
after_slash-length [] = omega arith
after_slash-length (c ∷ p) = ground arith

-- What `vfs_normalize_path` leaves in its buffer.
abbrev pub Normalized : Option (List ℕ) → Type 0
Normalized o = (r : List ℕ) × (o ≡ some r) × IsClean r × NoTrailingSlash r

normalize_text_lem :
    (cwd : Option (List ℕ)) (path : List ℕ) → IsDirectory cwd → Normalized (normalize_text cwd path)
unfolding normalize_text
normalize_text_lem cwd path h =
    let (r, e, clean) =
      walk_lem (suc (length path)) (after_slash path) (start cwd path) (start-IsClean cwd path h)
        (omega (arith, after_slash-length path)) in
    (finish r, rw (e, normalize_text), finish-IsClean r clean, finish-NoTrailingSlash r clean)

-- `vfs_normalize_path` terminates on every path, and its result is absolute, shorter than
-- VFS_MAX_PATH, has no two slashes in a row, and ends with no slash unless it is "/". The working
-- directory, if it is used, is assumed to be absolute, with no two slashes in a row, and to fit.
pub normalize_path_lem :
    (cwd path : Option (List ℕ)) → IsDirectory cwd → Normalized (normalize_path cwd path)
unfolding normalize_path
normalize_path_lem cwd (some (c ∷ path)) h = normalize_text_lem cwd (c ∷ path) h
normalize_path_lem (some (c ∷ dir)) (some []) h = normalize_text_lem none (c ∷ dir) tt
normalize_path_lem (some (c ∷ dir)) none h = normalize_text_lem none (c ∷ dir) tt
normalize_path_lem none (some []) h = (slash ∷ [], refl, root-IsClean, tt)
normalize_path_lem none none h = (slash ∷ [], refl, root-IsClean, tt)
normalize_path_lem (some []) (some []) h = (slash ∷ [], refl, root-IsClean, tt)
normalize_path_lem (some []) none h = (slash ∷ [], refl, root-IsClean, tt)
