-- ===== src/Vfs/Mounts/Table.antt =====
-- Mounting and unmounting: the table's count, open files, and paths that are too long.
use bored_os.Base.{
  ℕ, zero, suc, ◌+◌, ◌-◌, ◌≤◌, ◌<◌, ◌≡◌, refl, sym, ap, ◌∙◌, Bool, true, false, Option, none, some,
  List, [], ◌∷◌, length, take, le→leb, lt→leb, leb, if◌then◌else◌, arith, Bool-cases, inl, inr,
  ℕ_discrete, dec_lt, length-take,
}
use bored_os.Base.Arrays.{update}
use bored_os.Kutils.{IsText, strncmp, is_zero}
use bored_os.Kutils.Compare.{strncpy_lem, strncmp_iff, strlen-eq-length}
use bored_os.Vfs.Paths.{byte_at}
use bored_os.Vfs.Paths.Clean.{take_short}
use bored_os.Vfs.Mounts.{
  Mount, Vfs, max_mounts, covers, first_mount, mounted_at, is_free, fresh_mount, updated,
  mount_in_slot, mount_over, mount_normalized, umount, umount_at, umount_target, busy, device_name,
}

-- What the search through `k` mounts from `i` on found.
abbrev Searched : ℕ → ℕ → (ℕ → Mount) → (Mount → Bool) → Option ℕ → Type 0
Searched k i ms test none = (j : ℕ) → i ≤ j → j < i + k → test (ms j) ≡ false
Searched k i ms test (some j) = (i ≤ j) × (j < i + k) × (test (ms j) ≡ true)

search_next :
    (k i : ℕ) (ms : ℕ → Mount) (test : Mount → Bool) (o : Option ℕ)
    → test (ms i) ≡ false
    → Searched k (i + 1) ms test o
    → Searched (suc k) i ms test o
search_next k i ms test none miss s = λ j lo hi. elim (ℕ_discrete i j) [
  | yes e ↦ rw (← e) miss
  | no ne ↦ s j (omega arith) (omega arith)
]
search_next k i ms test (some j) miss s = (omega arith, omega arith, s.2)

first_mount_lem :
    (k i : ℕ) (ms : ℕ → Mount) (test : Mount → Bool)
    → Searched k i ms test (first_mount k i ms test)
unfolding first_mount
first_mount_lem zero i ms test = λ j lo hi. absurd (omega arith)
first_mount_lem (suc k) i ms test = elim (Bool-cases (test (ms i))) [
  | inl hit ↦ rw hit (omega arith, omega arith, hit)
  | inr miss ↦ rw miss (search_next k i ms test _ miss (first_mount_lem k (i + 1) ms test))
]

-- How many of the first `k` slots are active.
unfoldable pub count_active : ℕ → (ℕ → Mount) → ℕ
count_active zero ms = 0
count_active (suc k) ms = count_active k ms + (if (ms k).active then 1 else 0)

count-update_out :
    (k i : ℕ) (ms : ℕ → Mount) (m : Mount)
    → k ≤ i
    → count_active k (update ms i m) ≡ count_active k ms
unfolding count_active
count-update_out zero i ms m h = refl
count-update_out (suc k) i ms m h = ground (arith, count-update_out k i ms m (omega arith))

count-update :
    (k i : ℕ) (ms : ℕ → Mount) (m : Mount)
    → i < k
    → count_active k (update ms i m) + (if (ms i).active then 1 else 0)
      ≡ count_active k ms + (if m.active then 1 else 0)
unfolding count_active
count-update zero i ms m h = absurd (omega arith)
count-update (suc k) i ms m h = elim (ℕ_discrete i k) [
  | yes e ↦ ground (arith, count-update_out k i ms m)
  | no ne ↦ ground (arith, count-update k i ms m (omega arith))
]

-- `mount_count` is the number of active slots.
abbrev pub IsCounted : Vfs → Type 0
IsCounted v = v.mount_count ≡ count_active max_mounts v.mounts

byte_at_end : (s : List ℕ) → byte_at s (length s) ≡ 0
byte_at_end [] = refl
byte_at_end (c ∷ s) = byte_at_end s

pub take-IsText : (n : ℕ) (s : List ℕ) → IsText s → IsText (take n s)
take-IsText zero s t = tt
take-IsText (suc n) [] t = tt
take-IsText (suc n) (c ∷ s) t = (t.0, take-IsText n s t.1)

compare_cut :
    (path : List ℕ)
    → IsText path
    → is_zero (strncmp path (take 255 path) (length path)) ≡ leb (length path) 255
compare_cut path t =
    let same = strncmp_iff path (take 255 path) (length path) t (take-IsText 255 path t) in
    elim (dec_lt 255 (length path)) [
      | yes long ↦ elim (Bool-cases (is_zero (strncmp path (take 255 path) (length path)))) [
        | inl e ↦ absurd (
            omega (
              arith,
              ap length (same.0 e),
              length-take (length path) path,
              length-take (length path) (take 255 path),
              length-take 255 path,
            ))
        | inr e ↦ e ∙ sym (lt→leb (length path) 255 long)
      ]
      | no short ↦
          same.1 (ap (take (length path)) (sym (take_short 255 path (omega arith))))
          ∙ sym (le→leb (length path) 255 (omega arith))
    ]

-- A new mount point covers its own path, a string, exactly if it has at most 255 bytes: a longer
-- one is cut off in the slot, but its length is kept whole.
pub covers-fresh_mount :
    (path : List ℕ) (device fs_type : Option (List ℕ)) (ops : ℕ) (fs_private : Option ℕ)
    → IsText path
    → covers (fresh_mount path device fs_type ops fs_private) path ≡ leb (length path) 255
unfolding covers fresh_mount
covers-fresh_mount path device fs_type ops fs_private t =
    rw (strlen-eq-length path, (strncpy_lem path 255 t).1, compare_cut path t, byte_at_end path)
      (ground arith)

-- Filling or emptying a slot.
fill-IsCounted :
    (v : Vfs) (i : ℕ) (m : Mount)
    → i < max_mounts
    → IsCounted v
    → (v.mounts i).active ≡ false
    → m.active ≡ true
    → IsCounted (record v { mounts = update v.mounts i m; mount_count = v.mount_count + 1 })
fill-IsCounted v i m lt c was is = ground (arith, count-update max_mounts i v.mounts m lt)

empty-IsCounted :
    (v : Vfs) (i : ℕ) (m : Mount)
    → i < max_mounts
    → IsCounted v
    → (v.mounts i).active ≡ true
    → m.active ≡ false
    → IsCounted (record v { mounts = update v.mounts i m; mount_count = v.mount_count - 1 })
empty-IsCounted v i m lt c was is = ground (arith, count-update max_mounts i v.mounts m lt)

same-IsCounted :
    (v : Vfs) (i : ℕ) (m : Mount)
    → i < max_mounts
    → IsCounted v
    → (v.mounts i).active ≡ m.active
    → IsCounted (record v { mounts = update v.mounts i m })
same-IsCounted v i m lt c was = ground (arith, count-update max_mounts i v.mounts m lt)

slot-IsCounted :
    (v : Vfs) (path : List ℕ) (device fs_type : Option (List ℕ)) (ops : ℕ) (fs_private : Option ℕ)
    (o : Option ℕ)
    → IsCounted v
    → Searched max_mounts 0 v.mounts is_free o
    → IsCounted (mount_in_slot v path device fs_type ops fs_private o).0
unfolding mount_in_slot
slot-IsCounted v path device fs_type ops fs_private none c s = c
slot-IsCounted v path device fs_type ops fs_private (some i) c s =
    fill-IsCounted v i (fresh_mount path device fs_type ops fs_private) (omega arith) c
      (ground arith) refl

over-IsCounted :
    (v : Vfs) (path : List ℕ) (device fs_type : Option (List ℕ)) (ops : ℕ) (fs_private : Option ℕ)
    (o : Option ℕ)
    → IsCounted v
    → Searched max_mounts 0 v.mounts (mounted_at path) o
    → IsCounted (mount_over v path device fs_type ops fs_private o).0
unfolding mount_over
over-IsCounted v path device fs_type ops fs_private none c s =
    slot-IsCounted v path device fs_type ops fs_private _ c
      (first_mount_lem max_mounts 0 v.mounts is_free)
over-IsCounted v path device fs_type ops fs_private (some i) c s =
    same-IsCounted v i (updated (v.mounts i) path device fs_type ops fs_private) (omega arith) c
      refl

umount-IsCounted :
    (v : Vfs) (test : Mount → Bool) (o : Option ℕ)
    → ((m : Mount) → test m ≡ true → m.active ≡ true)
    → IsCounted v
    → Searched max_mounts 0 v.mounts test o
    → IsCounted (umount_at v o).0
unfolding umount_at
umount-IsCounted v test none act c s = c
umount-IsCounted v test (some i) act c s = elim (Bool-cases (busy i v.open_files)) [
  | inl b ↦ rw b c
  | inr b ↦ rw b (empty-IsCounted v i _ (omega arith) c (act (v.mounts i) s.2) refl)
]

target_active : (path dev : List ℕ) (m : Mount) → umount_target path dev m ≡ true → m.active ≡ true
unfolding umount_target
target_active path dev m e = ground arith

-- Where it is so before, `vfs_mount` and `vfs_umount` keep `mount_count` the number of active
-- slots, whatever they are asked to mount or unmount and whether they succeed or not.
pub mount-umount-IsCounted :
    (v : Vfs) (path dev : List ℕ) (device fs_type : Option (List ℕ)) (ops : ℕ)
    (fs_private : Option ℕ)
    → IsCounted v
    → IsCounted (mount_normalized v path device fs_type ops fs_private).0
      × IsCounted (umount v dev path).0
unfolding mount_normalized umount
mount-umount-IsCounted v path dev device fs_type ops fs_private c = (
  over-IsCounted v path device fs_type ops fs_private _ c
      (first_mount_lem max_mounts 0 v.mounts (mounted_at path)),
  umount-IsCounted v (umount_target path (device_name dev)) _ (target_active path (device_name dev))
      c (first_mount_lem max_mounts 0 v.mounts (umount_target path (device_name dev))),
)
