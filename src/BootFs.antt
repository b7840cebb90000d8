-- ===== src/BootFs.antt =====
-- fs.go: the file system of the boot partition, a text type.
use d2vm.Base.{String, ◌<>◌, Bool, ◌||◌, ◌==◌, Result, ok, err, if◌then◌else◌}

abbrev pub BootFs : Type 0
BootFs = String

abbrev pub boot_fs_ext4 : BootFs
boot_fs_ext4 = "ext4"

abbrev pub boot_fs_fat32 : BootFs
boot_fs_fat32 = "fat32"

unfoldable pub is_ext : BootFs → Bool
is_ext f = f == boot_fs_ext4

unfoldable pub is_fat : BootFs → Bool
is_fat f = f == boot_fs_fat32

unfoldable pub is_supported : BootFs → Bool
unfolding is_ext is_fat
is_supported f = is_ext f || is_fat f

unfoldable pub validate : BootFs → Result (Unit {0})
unfolding is_supported
validate f =
    if is_supported f
    then ok tt
    else err ("invalid boot filesystem: " <> (f <> " valid filesystems are: fat32, ext4"))

-- The name that /etc/fstab uses.
unfoldable pub linux : BootFs → String
linux f = if f == boot_fs_fat32 then "vfat" else "ext4"
