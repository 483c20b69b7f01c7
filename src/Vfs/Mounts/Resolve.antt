-- ===== src/Vfs/Mounts/Resolve.antt =====
-- `vfs_resolve_mount` picks the longest mount that covers a path.
use bored_os.Base.{
  ℕ, zero, suc, ◌+◌, ◌≤◌, ◌<◌, ◌≡◌, refl, sym, ap, ◌∙◌, true, false, Option, none, some, List, [],
  ◌∷◌, ◌++◌, length, take, drop, ltb, ◌==◌, ◌||◌, if◌then◌else◌, ◌⊎◌, take-append-drop, arith,
  Bool-cases, inl, inr, ℕ_discrete,
}
use mathlib.Core.Bool.{false≢true}
use mathlib.Core.Path.{subst}
use bored_os.Kutils.{IsText, strncmp, is_zero}
use bored_os.Kutils.Compare.{strncmp_iff}
use bored_os.Vfs.Paths.{slash, byte_at}
use bored_os.Vfs.Mounts.{
  below_mount, or_root, Mount, Vfs, Best, max_mounts, covers, better, scan_mounts, resolve_mount,
}

module _ (ms : ℕ → Mount) (path : List ℕ) where
  -- The best of the first `n` mounts.
  IsBest : ℕ → Best → Type 0
  IsBest n none = (j : ℕ) → j < n → covers (ms j) path ≡ false
  IsBest n (some (len, i)) =
      (i < n)
      × (covers (ms i) path ≡ true)
      × (len ≡ (ms i).path_len)
      × ((j : ℕ) → j < n → covers (ms j) path ≡ true → (ms j).path_len ≤ len)

  keep_best : (n : ℕ) (b : Best) → IsBest n b → covers (ms n) path ≡ false → IsBest (n + 1) b
  unfolding IsBest
  keep_best n none h c =
      λ j lt. elim (ℕ_discrete j n) [ yes e ↦ rw e c | no ne ↦ h j (omega arith) ]
  keep_best n (some (len, i)) h c = (
    omega arith,
    h.1,
    h.2,
    λ j lt cov. elim (ℕ_discrete j n) [
      | yes e ↦ absurd (false≢true (sym c ∙ (rw e at cov)))
      | no ne ↦ h.3 j (omega arith) cov
    ],
  )

  take_better :
      (n : ℕ) (b : Best)
      → IsBest n b
      → covers (ms n) path ≡ true
      → IsBest (n + 1) (better (ms n).path_len n b)
  unfolding IsBest better
  take_better n none h c = (
    omega arith,
    c,
    refl,
    λ j lt cov. elim (ℕ_discrete j n) [
      | yes e ↦ rw e (omega arith)
      | no ne ↦ absurd (false≢true (sym (h j (omega arith)) ∙ cov))
    ],
  )
  take_better n (some (len, i)) h c = elim (Bool-cases (ltb len (ms n).path_len)) [
    | inl longer ↦ rw longer (
      omega arith,
      c,
      refl,
      λ j lt cov. elim (ℕ_discrete j n) [
        | yes e ↦ rw e (omega arith)
        | no ne ↦ ground (arith, h.3 j (omega arith) cov)
      ],
    )
    | inr shorter ↦ rw shorter (
      omega arith,
      h.1,
      h.2,
      λ j lt cov. elim (ℕ_discrete j n) [
        | yes e ↦ rw e (ground arith)
        | no ne ↦ h.3 j (omega arith) cov
      ],
    )
  ]

  scan_lem : (k i n : ℕ) (b : Best) → i + k ≡ n → IsBest i b → IsBest n (scan_mounts k i ms path b)
  unfolding scan_mounts
  scan_lem zero i n b e h = let same : i ≡ n = omega arith in rw (← same) h
  scan_lem (suc k) i n b e h = elim (Bool-cases (covers (ms i) path)) [
    | inl c ↦ rw c (scan_lem k (i + 1) n _ (omega arith) (take_better i b h c))
    | inr c ↦ rw c (scan_lem k (i + 1) n b (omega arith) (keep_best i b h c))
  ]

-- What `vfs_resolve_mount` may answer.
abbrev pub Resolved : Vfs → List ℕ → Option (ℕ × List ℕ) → Type 0
Resolved v path none = (j : ℕ) → j < max_mounts → covers (v.mounts j) path ≡ false
Resolved v path (some (i, rest)) =
    (i < max_mounts)
    × (covers (v.mounts i) path ≡ true)
    × ((j : ℕ)
        → j < max_mounts
        → covers (v.mounts j) path ≡ true
        → (v.mounts j).path_len ≤ (v.mounts i).path_len)
    × (rest ≡ below_mount (v.mounts i).path_len path)

Resolved-from :
    (v : Vfs) (path : List ℕ) (b : Best)
    → scan_mounts max_mounts 0 v.mounts path none ≡ b
    → IsBest v.mounts path max_mounts b
    → Resolved v path (resolve_mount v path)
unfolding IsBest resolve_mount
Resolved-from v path none e h = rw (resolve_mount, e) h
Resolved-from v path (some (len, i)) e h =
    rw (resolve_mount, e)
      (h.0, h.1, λ j lt c. omega (arith, h.3 j lt c, h.2), ap (λ n. below_mount n path) h.2)

resolve_mount-Resolved : (v : Vfs) (path : List ℕ) → Resolved v path (resolve_mount v path)
resolve_mount-Resolved v path = Resolved-from v path _ refl (
    scan_lem v.mounts path max_mounts 0 max_mounts none (omega arith)
      (unfold IsBest in λ j lt. absurd (omega arith)))

-- What a mount covers: its own path and those below it, where a mount whose path has one byte
-- covers all that begin with it. `rest` is what follows the mount's path.
abbrev pub CoversBut : Mount → List ℕ → List ℕ → Type 0
CoversBut m path rest =
    (m.active ≡ true)
    × (path ≡ m.path ++ rest)
    × ((length m.path ≡ 1) ⊎ ((rest ≡ []) ⊎ ((tail : List ℕ) × (rest ≡ slash ∷ tail))))

abbrev pub Covers : Mount → List ℕ → Type 0
Covers m path = (rest : List ℕ) × CoversBut m path rest

-- A mount whose path is a string and was stored whole.
abbrev pub IsWhole : Mount → Type 0
IsWhole m = IsText m.path × (m.path_len ≡ length m.path)

byte_at-drop : (n : ℕ) (s : List ℕ) → byte_at s n ≡ byte_at (drop n s) 0
byte_at-drop zero s = refl
byte_at-drop (suc n) [] = refl
byte_at-drop (suc n) (c ∷ s) = byte_at-drop n s

take-all : (s : List ℕ) → take (length s) s ≡ s
take-all [] = refl
take-all (c ∷ s) = ap (λ t. c ∷ t) (take-all s)

take-front : (s t : List ℕ) → take (length s) (s ++ t) ≡ s
take-front [] t = refl
take-front (c ∷ s) t = ap (λ u. c ∷ u) (take-front s t)

drop-front : (s t : List ℕ) → drop (length s) (s ++ t) ≡ t
drop-front [] t = refl
drop-front (c ∷ s) t = drop-front s t

drop-IsText : (n : ℕ) (s : List ℕ) → IsText s → IsText (drop n s)
drop-IsText zero s h = h
drop-IsText (suc n) [] h = tt
drop-IsText (suc n) (c ∷ s) h = drop-IsText n s h.1

-- What the byte behind the mount's path tells.
boundary :
    (n : ℕ) (rest : List ℕ)
    → IsText rest
    → (byte_at rest 0 == slash || byte_at rest 0 == 0 || n == 1) ≡ true
    → (n ≡ 1) ⊎ ((rest ≡ []) ⊎ ((tail : List ℕ) × (rest ≡ slash ∷ tail)))
boundary n [] h e = inr (inl refl)
boundary n (c ∷ rest) h e = elim (ℕ_discrete c slash) [
  | yes q ↦ inr (inr (rest, ap (λ b. b ∷ rest) q))
  | no q ↦ let zero_no = h.0 in inl (ground arith)
]

boundary_back :
    (n : ℕ) (rest : List ℕ)
    → (n ≡ 1) ⊎ ((rest ≡ []) ⊎ ((tail : List ℕ) × (rest ≡ slash ∷ tail)))
    → (byte_at rest 0 == slash || byte_at rest 0 == 0 || n == 1) ≡ true
boundary_back n rest (inl e) = ground (arith, e)
boundary_back n rest (inr (inl e)) = rw e (ground arith)
boundary_back n rest (inr (inr (tail, e))) = rw e (ground arith)

covers_parts :
    (m : Mount) (path : List ℕ)
    → covers m path ≡ true
    → (m.active ≡ true)
      × (is_zero (strncmp path m.path m.path_len) ≡ true)
      × ((byte_at path m.path_len == slash || byte_at path m.path_len == 0 || m.path_len == 1)
          ≡ true)
unfolding covers
covers_parts m path e = ground arith

covers-Covers :
    (m : Mount) (path : List ℕ)
    → IsWhole m
    → IsText path
    → covers m path ≡ true
    → CoversBut m path (drop (length m.path) path)
covers-Covers m path (text, whole) t e =
    let (on, same, byte) = covers_parts m path e in
    let n = length m.path in
    let first =
      (strncmp_iff path m.path n t text).0
        (subst (λ k. is_zero (strncmp path m.path k) ≡ true) whole same)
      ∙ take-all m.path in
    let bytes =
      subst (λ k. (byte_at path k == slash || byte_at path k == 0 || k == 1) ≡ true) whole byte in
    let rest = subst (λ b. (b == slash || b == 0 || n == 1) ≡ true) (byte_at-drop n path) bytes in
    (
      on,
      sym (take-append-drop n path) ∙ ap (λ s. s ++ drop n path) first,
      boundary n (drop n path) (drop-IsText n path t) rest,
    )

Covers-covers :
    (m : Mount) (path : List ℕ) → IsWhole m → IsText path → Covers m path → covers m path ≡ true
unfolding covers
Covers-covers m path (text, whole) t (rest, (on, e, b)) =
    let n = length m.path in
    let same =
      (strncmp_iff path m.path n t text).1
        (ap (take n) e ∙ take-front m.path rest ∙ sym (take-all m.path)) in
    let byte =
      byte_at-drop n path
      ∙ ap (λ s. byte_at (drop n s) 0) e
      ∙ ap (λ s. byte_at s 0) (drop-front m.path rest) in
    let bytes =
      subst (λ c. (c == slash || c == 0 || n == 1) ≡ true) (sym byte) (boundary_back n rest b) in
    rw (whole, on, same) bytes

-- What `vfs_resolve_mount` may answer, said of the strings.
abbrev pub IsResolved : Vfs → List ℕ → Option (ℕ × List ℕ) → Type 0
IsResolved v path none = (j : ℕ) → j < max_mounts → Covers (v.mounts j) path → ⊥
IsResolved v path (some (i, below)) =
    (i < max_mounts)
    × ((rest : List ℕ) × CoversBut (v.mounts i) path rest
        × (below ≡ (
            if length (v.mounts i).path == 1
            then path
            else elim rest [ [] ↦ slash ∷ [] | c ∷ cs ↦ c ∷ cs ])))
    × ((j : ℕ)
        → j < max_mounts
        → Covers (v.mounts j) path
        → length (v.mounts j).path ≤ length (v.mounts i).path)

below_mount_lem :
    (n : ℕ) (path : List ℕ)
    → below_mount n path
      ≡ (if n == 1 then path else elim (drop n path) [ [] ↦ slash ∷ [] | c ∷ cs ↦ c ∷ cs ])
unfolding below_mount or_root
below_mount_lem n path = refl

Resolved-IsResolved :
    (v : Vfs) (path : List ℕ) (o : Option (ℕ × List ℕ))
    → ((j : ℕ) → j < max_mounts → IsWhole (v.mounts j))
    → IsText path
    → Resolved v path o
    → IsResolved v path o
Resolved-IsResolved v path none w t h =
    λ j lt c. false≢true (sym (h j lt) ∙ Covers-covers (v.mounts j) path (w j lt) t c)
Resolved-IsResolved v path (some (i, below)) w t h =
    let m = v.mounts i in
    let whole = (w i h.0).1 in
    (
      h.0,
      (
        drop (length m.path) path,
        covers-Covers m path (w i h.0) t h.1,
        h.3 ∙ ap (λ n. below_mount n path) whole ∙ below_mount_lem (length m.path) path,
      ),
      λ j lt c.
          omega (arith, h.2 j lt (Covers-covers (v.mounts j) path (w j lt) t c), whole, (w j lt).1),
    )

-- In a table whose mount points are strings and stored whole, `vfs_resolve_mount` of a string
-- answers with an active mount whose path is the string's beginning, up to its end or a `/` unless
-- the mount's path is one byte long, of the greatest length among those; and with what follows the
-- mount's path, or `/` if nothing does, or the string itself for a mount's path of one byte. It
-- answers NULL only if there is no such mount.
pub resolve_mount_lem :
    (v : Vfs) (path : List ℕ)
    → ((j : ℕ) → j < max_mounts → IsWhole (v.mounts j))
    → IsText path
    → IsResolved v path (resolve_mount v path)
resolve_mount_lem v path w t =
    Resolved-IsResolved v path (resolve_mount v path) w t (resolve_mount-Resolved v path)
