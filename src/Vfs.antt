-- ===== src/Vfs.antt =====
-- The virtual file system's names: fs/vfs_path.c (paths) and fs/vfs_mount.c (mount points).
pub mod Paths
pub mod Mounts
