-- ===== src/Vfs/Paths.antt =====
-- fs/vfs_path.c: making a path absolute. The output buffer `normalized[0..out)` is a list, the
-- last byte first, so that `out--` drops the head; its length is `out`.
pub mod Clean
pub mod Dots
mod Tests
use bored_os.Base.{
  ℕ, zero, suc, ◌+◌, ◌-◌, Bool, true, false, not, Option, none, some, List, [], ◌∷◌, ◌++◌, reverse,
  length, take, drop, leb, ltb, ◌==◌, ◌&&◌, ◌||◌, if◌then◌else◌,
}
use bored_os.Kutils.{strlen, strncmp, is_zero}

abbrev pub slash : ℕ
slash = b'/'

abbrev pub dot : ℕ
dot = b'.'

-- `VFS_MAX_PATH`
abbrev pub max_path : ℕ
max_path = 1024

-- `s[i]`, which is NUL at the end of the string.
abbrev pub byte_at : List ℕ → ℕ → ℕ
byte_at [] i = 0
byte_at (c ∷ cs) zero = c
byte_at (c ∷ cs) (suc i) = byte_at cs i

-- `vfs_path_is_parent`
pub path_is_parent : List ℕ → List ℕ → Bool
path_is_parent parent child =
    let plen = strlen parent in
    if not (is_zero (strncmp parent child plen))
    then false
    else if byte_at child plen == 0
    then true
    else if byte_at child plen == slash
    then true
    else plen == 1 && byte_at parent 0 == slash

-- `if (out > 0 && normalized[out - 1] != '/') if (out < VFS_MAX_PATH - 1) normalized[out++] = '/';`
pub end_with_slash : List ℕ → List ℕ
end_with_slash [] = []
end_with_slash (c ∷ out) =
    if c == slash
    then c ∷ out
    else if ltb (length (c ∷ out)) (max_path - 1)
    then slash ∷ c ∷ out
    else c ∷ out

-- What the buffer holds before the components are read.
pub start : Option (List ℕ) → List ℕ → List ℕ
unfolding end_with_slash
start cwd path = if byte_at path 0 == slash then slash ∷ [] else elim cwd [
  | none ↦ slash ∷ []
  | some dir ↦
      if byte_at dir 0 == slash
      then end_with_slash (reverse (take (max_path - 1) dir))
      else slash ∷ []
]

-- `while (*p == '/') p++;`
pub skip_slashes : List ℕ → List ℕ
skip_slashes [] = []
skip_slashes (c ∷ p) = let rest = skip_slashes p in if c == slash then rest else c ∷ p

-- `while (*p && *p != '/') p++;`: the component, and what follows it.
pub component : List ℕ → List ℕ × List ℕ
component [] = ([], [])
component (c ∷ p) =
    let rest = component p in if c == slash then ([], c ∷ p) else (c ∷ rest.0, rest.1)

-- `while (out > 1 && normalized[out - 1] != '/') out--;`
pub back_to_slash : List ℕ → List ℕ
back_to_slash [] = []
back_to_slash (c ∷ []) = c ∷ []
back_to_slash (c ∷ d ∷ out) =
    let rest = back_to_slash (d ∷ out) in if c == slash then c ∷ d ∷ out else rest

-- A component "..".
pub parent_dir : List ℕ → List ℕ
unfolding back_to_slash
parent_dir [] = []
parent_dir (c ∷ []) = c ∷ []
parent_dir (c ∷ d ∷ out) =
    if c == slash then back_to_slash (d ∷ out) else back_to_slash (c ∷ d ∷ out)

-- How much of a component fits.
pub to_copy : List ℕ → List ℕ → ℕ
to_copy out comp =
    if leb max_path (length out + length comp) then max_path - 1 - length out else length comp

-- Any other component.
pub child_dir : List ℕ → List ℕ → List ℕ
unfolding end_with_slash to_copy
child_dir out comp =
    let out' = end_with_slash out in reverse (take (to_copy out' comp) comp) ++ out'

abbrev pub is_dot : List ℕ → Bool
is_dot (c ∷ []) = c == dot
is_dot _ = false

abbrev pub is_dots : List ℕ → Bool
is_dots (c ∷ d ∷ []) = c == dot && d == dot
is_dots _ = false

pub enter : List ℕ → List ℕ → List ℕ
unfolding parent_dir child_dir
enter out comp =
    if is_dot comp then out else if is_dots comp then parent_dir out else child_dir out comp

-- The loop over the path, with fuel; `none` means that the fuel ran out.
pub walk : ℕ → List ℕ → List ℕ → Option (List ℕ)
walk zero p out = none
walk (suc f) p out =
    let q = skip_slashes p in
    let (comp, rest) = component q in
    let more = walk f rest (enter out comp) in elim q [ [] ↦ some out | c ∷ cs ↦ more ]

-- `if (out > 1 && normalized[out - 1] == '/') out--;` and `if (out == 0) normalized[out++] = '/';`
pub finish : List ℕ → List ℕ
finish [] = slash ∷ []
finish (c ∷ []) = c ∷ []
finish (c ∷ d ∷ out) = if c == slash then d ∷ out else c ∷ d ∷ out

abbrev pub after_slash : List ℕ → List ℕ
after_slash [] = []
after_slash (c ∷ p) = if c == slash then p else c ∷ p

-- `vfs_normalize_path` for a path that is not empty; the result is the buffer, last byte first.
pub normalize_text : Option (List ℕ) → List ℕ → Option (List ℕ)
unfolding start finish
normalize_text cwd path = elim (walk (suc (length path)) (after_slash path) (start cwd path)) [
  | none ↦ none
  | some out ↦ some (finish out)
]

-- `vfs_normalize_path`; none is NULL. An empty path stands for the working directory.
pub normalize_path : Option (List ℕ) → Option (List ℕ) → Option (List ℕ)
normalize_path cwd (some (c ∷ path)) = normalize_text cwd (c ∷ path)
normalize_path (some (c ∷ dir)) _ = normalize_text none (c ∷ dir)
normalize_path _ _ = some (slash ∷ [])
