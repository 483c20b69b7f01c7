-- ===== src/Vfs/Paths/Tests.antt =====
-- Runs of fs/vfs_path.c on short paths.
use bored_os.Base.{ℕ, ◌≡◌, refl, true, some, List, [], ◌∷◌, arith}
use bored_os.Kutils.{IsText, strlen, strncmp}
use bored_os.Vfs.Paths.{path_is_parent, normalize_path}
use bored_os.Vfs.Paths.Clean.{IsClean, Normalized, normalize_path_lem}

-- "/a", in the buffer, and "b/../c"
abbrev home : List ℕ
home = 97 ∷ 47 ∷ []

abbrev messy : List ℕ
messy = 98 ∷ 47 ∷ 46 ∷ 46 ∷ 47 ∷ 99 ∷ []

home-IsClean : IsClean home
home-IsClean = record { rooted = (λ e. omega arith, refl); bounded = omega arith }

normalize_path_lem_example : Normalized (normalize_path (some (47 ∷ 97 ∷ [])) (some messy))
normalize_path_lem_example = normalize_path_lem (some (47 ∷ 97 ∷ [])) (some messy) home-IsClean

abbrev root_a : List ℕ
root_a = 47 ∷ 97 ∷ []

abbrev root_a_b : List ℕ
root_a_b = 47 ∷ 97 ∷ 47 ∷ 98 ∷ []

root_a-IsText : IsText root_a
root_a-IsText = (omega arith, (omega arith, tt))

root_a_b-IsText : IsText root_a_b
root_a_b-IsText = (omega arith, (omega arith, (omega arith, (omega arith, tt))))

a_above_b : path_is_parent root_a root_a_b ≡ true
unfolding path_is_parent strlen strncmp
a_above_b = refl
