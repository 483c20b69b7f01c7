-- ===== src/Vfs/Mounts.antt =====
-- fs/vfs_mount.c and `vfs_resolve_mount` of fs/vfs_path.c: the table of mount points.
-- Strings are text; a `char` array is the text that it holds. Each function runs under `vfs_lock`.
pub mod Resolve
pub mod Table
mod Tests
use bored_os.Base.{
  ℕ, zero, suc, ◌+◌, ◌-◌, Bool, true, false, not, Option, none, some, List, [], ◌∷◌, ◌++◌, reverse,
  length, take, drop, leb, ltb, ◌==◌, ◌&&◌, ◌||◌, if◌then◌else◌,
}
use bored_os.Base.Arrays.{update}
use bored_os.Kutils.{strlen, strcmp, strncmp, is_zero, strncpy, text_of}
use bored_os.Vfs.Paths.{slash, byte_at, normalize_path}

-- `vfs_mount_t`; `ops` and `fs_private` are addresses, and none is NULL.
pub record Mount : Type 0 where
  pub path : List ℕ
  pub path_len : ℕ
  pub ops : Option ℕ
  pub fs_private : Option ℕ
  pub device : List ℕ
  pub fs_type : List ℕ
  pub active : Bool

-- An open file, as far as unmounting looks at it: `mount` is an index into the table.
pub record OpenFile : Type 0 where
  pub valid : Bool
  pub mount : ℕ

-- `mounts`, `mount_count` and `open_files_head`
pub record Vfs : Type 0 where
  pub mounts : ℕ → Mount
  pub mount_count : ℕ
  pub open_files : List OpenFile

abbrev pub max_mounts : ℕ
max_mounts = 64

-- Whether `vfs_resolve_mount` takes a mount into account for a path. The code reads `path[len]`
-- only where the first `len` bytes of the two strings agree; where the mount's path was cut and the
-- two are equal, that is behind the path's NUL, and stands here for 0.
pub covers : Mount → List ℕ → Bool
covers m path =
    m.active
    && (is_zero (strncmp path m.path m.path_len)
        && (byte_at path m.path_len == slash || byte_at path m.path_len == 0 || m.path_len == 1))

-- The best mount so far: its length and its index; none is `best_len == -1`.
abbrev pub Best : Type 0
Best = Option (ℕ × ℕ)

better : ℕ → ℕ → Best → Best
better len i none = some (len, i)
better len i (some (best_len, j)) = if ltb best_len len then some (len, i) else some (best_len, j)

-- The loop of `vfs_resolve_mount`, with `k` mounts left from index `i`.
pub scan_mounts : ℕ → ℕ → (ℕ → Mount) → List ℕ → Best → Best
unfolding better covers
scan_mounts zero i ms path best = best
scan_mounts (suc k) i ms path best =
    scan_mounts k (i + 1) ms path
      (if covers (ms i) path then better (ms i).path_len i best else best)

or_root : List ℕ → List ℕ
or_root [] = slash ∷ []
or_root (c ∷ cs) = c ∷ cs

-- What `rel_path_out` is set to for a mount of the given length.
pub below_mount : ℕ → List ℕ → List ℕ
unfolding or_root
below_mount len path = if len == 1 then path else or_root (drop len path)

-- `vfs_resolve_mount`: the index of the mount, and the path below it.
pub resolve_mount : Vfs → List ℕ → Option (ℕ × List ℕ)
unfolding below_mount
resolve_mount v path = elim (scan_mounts max_mounts 0 v.mounts path none) [
  | none ↦ none
  | some (len, i) ↦ some (i, below_mount len path)
]

-- The first of `k` mounts from index `i` that passes a test.
pub first_mount : ℕ → ℕ → (ℕ → Mount) → (Mount → Bool) → Option ℕ
first_mount zero i ms test = none
first_mount (suc k) i ms test =
    let rest = first_mount k (i + 1) ms test in if test (ms i) then some i else rest

-- `if (device) strncpy(mounts[i].device, device, n);` leaves the field alone for NULL.
copied_or : Option (List ℕ) → ℕ → List ℕ → List ℕ
copied_or none n old = old
copied_or (some s) n old = text_of (strncpy s n)

abbrev pub mounted_at : List ℕ → Mount → Bool
mounted_at path m = m.active && is_zero (strcmp m.path path)

abbrev pub is_free : Mount → Bool
is_free m = not m.active

updated : Mount → List ℕ → Option (List ℕ) → Option (List ℕ) → ℕ → Option ℕ → Mount
updated m path device fs_type ops fs_private = record m {
  ops = some ops;
  fs_private = fs_private;
  device = copied_or device 31 m.device;
  fs_type = copied_or fs_type 15 m.fs_type;
  path_len = strlen path;
}

pub fresh_mount : List ℕ → Option (List ℕ) → Option (List ℕ) → ℕ → Option ℕ → Mount
fresh_mount path device fs_type ops fs_private = record {
  path = text_of (strncpy path 255);
  path_len = strlen path;
  ops = some ops;
  fs_private = fs_private;
  active = true;
  device = copied_or device 31 [];
  fs_type = copied_or fs_type 15 [];
}

mount_in_slot :
    Vfs → List ℕ → Option (List ℕ) → Option (List ℕ) → ℕ → Option ℕ → Option ℕ → Vfs × Bool
unfolding fresh_mount copied_or
mount_in_slot v path device fs_type ops fs_private none = (v, false)
mount_in_slot v path device fs_type ops fs_private (some slot) = (
  record v {
    mounts = update v.mounts slot (fresh_mount path device fs_type ops fs_private);
    mount_count = v.mount_count + 1;
  },
  true,
)

mount_over : Vfs → List ℕ → Option (List ℕ) → Option (List ℕ) → ℕ → Option ℕ → Option ℕ → Vfs × Bool
unfolding updated copied_or mount_in_slot first_mount
mount_over v path device fs_type ops fs_private (some i) = (
  record v { mounts = update v.mounts i (updated (v.mounts i) path device fs_type ops fs_private) },
  true,
)
mount_over v path device fs_type ops fs_private none =
    mount_in_slot v path device fs_type ops fs_private (first_mount max_mounts 0 v.mounts is_free)

-- What `vfs_mount` does once the path is normalised.
pub mount_normalized : Vfs → List ℕ → Option (List ℕ) → Option (List ℕ) → ℕ → Option ℕ → Vfs × Bool
unfolding mount_over
mount_normalized v path device fs_type ops fs_private =
    mount_over v path device fs_type ops fs_private
      (first_mount max_mounts 0 v.mounts (mounted_at path))

-- `vfs_mount`; none is NULL.
pub mount :
    Vfs → Option (List ℕ) → Option (List ℕ) → Option (List ℕ) → Option ℕ → Option ℕ → Vfs × Bool
unfolding mount_normalized
mount v none device fs_type ops fs_private = (v, false)
mount v (some path) device fs_type none fs_private = (v, false)
mount v (some path) device fs_type (some ops) fs_private =
    elim (normalize_path (some (slash ∷ [])) (some path)) [
      | none ↦ (v, false)
      | some out ↦ mount_normalized v (reverse out) device fs_type ops fs_private
    ]

abbrev dev_prefix : List ℕ
dev_prefix = b'/' ∷ b'd' ∷ b'e' ∷ b'v' ∷ b'/' ∷ []

-- `if (strncmp(dev_target, "/dev/", 5) == 0) dev_target += 5;`
pub device_name : List ℕ → List ℕ
device_name path = if is_zero (strncmp path dev_prefix 5) then drop 5 path else path

abbrev is_text : List ℕ → Bool
is_text s = not (byte_at s 0 == 0)

-- Whether `vfs_umount` takes a mount for the one that is meant.
pub umount_target : List ℕ → List ℕ → Mount → Bool
umount_target path dev m =
    m.active
    && (is_zero (strcmp m.path path)
        || (is_text dev && (is_text m.device && is_zero (strcmp m.device dev))))

-- Whether a valid open file is on the mount.
pub busy : ℕ → List OpenFile → Bool
busy i [] = false
busy i (f ∷ fs) = f.valid && f.mount == i || busy i fs

umount_at : Vfs → Option ℕ → Vfs × Bool
unfolding busy
umount_at v none = (v, false)
umount_at v (some i) = if busy i v.open_files then (v, false) else (
  record v {
    mounts =
        update v.mounts i (record (v.mounts i) { active = false; ops = none; fs_private = none });
    mount_count = v.mount_count - 1;
  },
  true,
)

-- `vfs_umount`, where the path's normal form is given. The file system's own `unmount` is called
-- with `fs_private` before the slot is cleared, and has no part in the table.
pub umount : Vfs → List ℕ → List ℕ → Vfs × Bool
unfolding umount_at first_mount umount_target device_name
umount v mount_path normalized =
    umount_at v
      (first_mount max_mounts 0 v.mounts (umount_target normalized (device_name mount_path)))

-- `vfs_get_mount`
get_mount : Vfs → ℕ → Option Mount
get_mount v i =
    if leb max_mounts i then none else if (v.mounts i).active then some (v.mounts i) else none
