-- ===== src/Vfs/Mounts/Tests.antt =====
-- Runs of fs/vfs_mount.c on a table with one mount.
use bored_os.Base.{
  ℕ, ◌≡◌, refl, some, none, List, [], ◌∷◌, arith, leb, length, ◌==◌, if◌then◌else◌, Bool-cases, inl,
  inr,
}
use bored_os.Kutils.{IsText}
use bored_os.Vfs.Mounts.{Mount, Vfs, covers, fresh_mount, resolve_mount, mount_normalized, umount}
use bored_os.Vfs.Mounts.Resolve.{IsWhole, IsResolved, resolve_mount_lem}
use bored_os.Vfs.Mounts.Table.{count_active, IsCounted, covers-fresh_mount, mount-umount-IsCounted}

abbrev root : List ℕ
root = 47 ∷ []

abbrev root_a : List ℕ
root_a = 47 ∷ 97 ∷ []

abbrev root_mount : ℕ → Mount
root_mount i = record {
  path = root;
  path_len = 1;
  ops = some 8;
  fs_private = none;
  device = [];
  fs_type = [];
  active = i == 3;
}

abbrev table : Vfs
table = record { mounts = root_mount; mount_count = 1; open_files = [] }

table-IsCounted : IsCounted table
unfolding count_active
table-IsCounted = refl

root_a-IsText : IsText root_a
root_a-IsText = (omega arith, (omega arith, tt))

-- A mount at `/a`, over one at `/`.
abbrev two_mounts : Vfs
two_mounts = record table {
  mounts =
      λ i. if i == 5 then record (root_mount 3) { path = root_a; path_len = 2 } else root_mount i;
}

two_mounts-IsWhole : (j : ℕ) → IsWhole (two_mounts.mounts j)
two_mounts-IsWhole j = elim (Bool-cases (j == 5)) [
  | inl e ↦ rw e ((omega arith, (omega arith, tt)), refl)
  | inr e ↦ rw e ((omega arith, tt), refl)
]

abbrev below_a : List ℕ
below_a = 47 ∷ 97 ∷ 47 ∷ 98 ∷ []

resolve_run : resolve_mount two_mounts below_a ≡ some (5, 47 ∷ 98 ∷ [])
unfolding resolve_mount bored_os.Vfs.Mounts.scan_mounts bored_os.Kutils.strncmp
resolve_run = refl

resolve_mount_lem_example : IsResolved two_mounts below_a (resolve_mount two_mounts below_a)
resolve_mount_lem_example =
    resolve_mount_lem two_mounts below_a (λ j lt. two_mounts-IsWhole j)
      (omega arith, (omega arith, (omega arith, (omega arith, tt))))

mount-umount-IsCounted_example :
    IsCounted (mount_normalized table root_a none none 8 none).0
    × IsCounted (umount table [] root_a).0
mount-umount-IsCounted_example =
    mount-umount-IsCounted table root_a [] none none 8 none table-IsCounted

covers-fresh_mount_example :
    covers (fresh_mount root_a none none 8 none) root_a ≡ leb (length root_a) 255
covers-fresh_mount_example = covers-fresh_mount root_a none none 8 none root_a-IsText
